-- ===== src/Graph/Tests.antt =====
-- Runs of the queries of app/engine/graph/query.py on a small snapshot.
use trace_x.Common.{
  ℕ, ◌+◌, ◌≡◌, ◌≢◌, ◌≤◌, ◌↔◌, refl, arith, inl, inr, none, some, List, [], ◌∷◌, if◌then◌else◌, Any,
}
use trace_x.Graph.Reach.{Edge, at_level, grow, edges_within}
use trace_x.Graph.Members.{Holds}
use trace_x.Graph.Distance.{Nearest, IsNear, grow_distance, edges_within_lem}
use trace_x.Graph.Flow.Model.{output_id}
use trace_x.Graph.Flow.Query.{failed, crashed, query_flow}
use trace_x.Graph.Builder.{Records, build}
use trace_x.Graph.Served.{query_flow-build}
use trace_x.Graph.Query.{
  Binding, same_binding, Payload, Wire, Snapshot, refused, bad_depth, bad_cursor, cursor_of,
  payload_at, decode_cursor, query_neighbourhood,
}
use trace_x.Graph.Pages.{IsFaithful, read_on, decode_cursor-cursor_of}

abbrev edge : (id from to : ℕ) → Edge
edge id from to = record { edge_id = id; from_node = from; to_node = to }

abbrev links : List Edge
links = edge 12 1 2 ∷ edge 11 3 2 ∷ edge 13 3 4 ∷ edge 14 4 5 ∷ []

abbrev snapshot : Snapshot
snapshot = record { nodes = 5 ∷ 3 ∷ 4 ∷ 2 ∷ 1 ∷ []; edges = links }

abbrev two_steps : Binding
two_steps = record {
  version = 2;
  case_id = 7;
  graph_id = 8;
  sha256 = 9;
  seed = 2;
  depth = 2;
  node_limit = 3;
  edge_limit = 2;
}

abbrev other_case : Binding
other_case = record two_steps { case_id = 6 }

-- Tokens that are their payload with a signature.
abbrev plain : Wire (Payload × ℕ) Payload Payload
plain = record {
  dumps = λ p. p;
  loads = λ p. some p;
  b64encode = λ p. p;
  b64decode = λ p. some p;
  digest = λ p. p.binding.sha256 + 1;
  size = λ t. 300;
  join = λ p signature. (p, signature);
  split = λ t. some t;
}

plain-IsFaithful : IsFaithful plain
plain-IsFaithful = record {
  loads-dumps = λ p. refl;
  b64decode-b64encode = λ p. refl;
  split-join = λ p. refl;
}

two_levels : grow 2 2 links ≡ (at_level 0 2 ∷ at_level 1 1 ∷ at_level 1 3 ∷ at_level 2 4 ∷ [])
unfolding grow
two_levels = refl

far_edge_left_out :
    edges_within 2 (grow 2 2 links) links ≡ (edge 12 1 2 ∷ edge 11 3 2 ∷ edge 13 3 4 ∷ [])
unfolding edges_within grow
far_edge_left_out = refl

all_pages :
    read_on plain snapshot two_steps 3 none
    ≡ some (2 ∷ 1 ∷ 3 ∷ 4 ∷ [], edge 11 3 2 ∷ edge 12 1 2 ∷ edge 13 3 4 ∷ [])
unfolding read_on
all_pages = refl

too_deep :
    query_neighbourhood plain snapshot (record two_steps { depth = 6 }) none ≡ refused bad_depth
unfolding query_neighbourhood
too_deep = refl

other_scope :
    query_neighbourhood plain snapshot other_case
      (some (cursor_of plain (payload_at two_steps 3 2)))
    ≡ refused bad_cursor
unfolding query_neighbourhood
other_scope = refl

four_at_two : Holds (at_level 2 4) (grow 2 2 links)
unfolding grow
four_at_two = inr (inr (inr (inl refl)))

grow_distance_example : Holds (at_level 2 4) (grow 2 2 links) ↔ ((2 ≤ 2) × Nearest links 2 2 4)
grow_distance_example = grow_distance 2 2 links 4 2

edges_within_lem_example :
    Any (λ f. f ≡ edge 14 4 5) (edges_within 2 (grow 2 2 links) links)
    ↔ (Any (λ f. f ≡ edge 14 4 5) links × IsNear links 2 2 (edge 14 4 5))
edges_within_lem_example = edges_within_lem 2 2 links (edge 14 4 5)

decode_cursor-cursor_of_example :
    decode_cursor plain (cursor_of plain (payload_at two_steps 3 2)) other_case
    ≡ (if same_binding two_steps other_case then some (3, 2) else none)
decode_cursor-cursor_of_example =
    decode_cursor-cursor_of plain plain-IsFaithful two_steps other_case 3 2 (omega arith)

-- Transaction 2 spends the outputs of transaction 1 and of one that is not there; transaction 3 is in
-- conflict with it.
abbrev records : Records
records = record {
  transactions = 1 ∷ 2 ∷ 3 ∷ [];
  outputs =
      record { txid = 1; vout = 0; amount_sats = some 50; address = none }
      ∷ record { txid = 2; vout = 0; amount_sats = some 45; address = some 8 }
      ∷ [];
  inputs =
      record { txid = 2; prev_txid = some 1; prev_vout = some 0 }
      ∷ record { txid = 2; prev_txid = some 9; prev_vout = some 1 }
      ∷ record { txid = 3; prev_txid = some 1; prev_vout = some 0 }
      ∷ [];
}

counted_inputs :
    (build records).resolved_inputs
      ∷ (build records).unknown_prior_output_inputs
      ∷ (build records).double_spend_conflicts
      ∷ []
    ≡ 1 ∷ 1 ∷ 1 ∷ []
unfolding build
counted_inputs = refl

query_flow-build_example :
    query_flow (build records).tables (output_id 1 0 ∷ []) 40 ≢ failed crashed
query_flow-build_example = query_flow-build records (output_id 1 0 ∷ []) 40
