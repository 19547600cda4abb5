-- ===== src/Graph/Served.antt =====
-- What the builder's tables promise to query_flow, of app/engine/graph, and what its coverage counts.
use trace_x.Common.{
  ℕ, ◌+◌, ◌≡◌, ◌≢◌, refl, subst, arith, inl, inr, true, ◌&&◌, leb, Option, none, some, List, [],
  ◌∷◌, ◌==◌, length, exists_in, find_first, All-Any, Any, Bool-cases, Option-cases,
}
use trace_x.Common.Select.{find_first-Any}
use trace_x.Graph.Flow.Model.{
  NodeId, NodeType, transaction, address_or_script, output, other_type, EdgeType, locked_to,
  spent_by, creates_output, same_id, same_type, Node, Link, Tables,
}
use trace_x.Graph.Flow.Sides.{leads_from}
use trace_x.Graph.Flow.Query.{
  FlowReply, failed, shown, bad_limit, not_found, not_a_source, crashed, flow_at, find_node,
  locked_or_created, resolved_flow, flow_by_type, flow_from, first_node, query_flow,
}
use trace_x.Graph.Builder.{
  OutputFact, InputFact, Records, has_node, Lineage, other_spender, spends, spend, add_input_fact,
  add_inputs, add_outputs, add_transactions, no_tables, no_lineage, build,
}
use trace_x.Graph.Linked.{HasCreator, HasLock, IsLinked, build-IsLinked}

-- The reply is no uncaught error.
Survives : FlowReply → Type 0
Survives (shown f) = Unit
Survives (failed bad_limit) = Unit
Survives (failed not_found) = Unit
Survives (failed not_a_source) = Unit
Survives (failed crashed) = ⊥

flow_at-Survives :
    (t : Tables) (limit : ℕ) (id : NodeId) (node_type : NodeType) (from : Option NodeId)
    → Survives (flow_at t limit id node_type from)
unfolding flow_at Survives
flow_at-Survives t limit id transaction from = tt
flow_at-Survives t limit id address_or_script from = tt
flow_at-Survives t limit id output from = tt
flow_at-Survives t limit id other_type from = tt

-- A node that stands in the table is found.
found_node :
    (id : NodeId) (ns : List Node)
    → has_node id ns ≡ true
    → (n : Node) × (find_first (λ (m : Node). same_id m.node_id id) ns ≡ some n)
unfolding exists_in find_first
found_node id [] h = absurd (cc)
found_node id (n ∷ ns) h = elim (Bool-cases (same_id n.node_id id)) [
  | inl e ↦ (n, rw e refl)
  | inr e ↦ let (m, k) = found_node id ns (rw e at h) in (m, rw e k)
]

resolved_flow-Survives :
    (t : Tables) (limit : ℕ) (from target : NodeId)
    → has_node target t.nodes ≡ true
    → Survives (resolved_flow t limit from (find_node t target))
unfolding resolved_flow
resolved_flow-Survives t limit from target h =
    let (n, e) = found_node target t.nodes h in
    rw e (flow_at-Survives t limit n.node_id n.node_type (some from))

is_locked : (id : NodeId) (e : Link) → leads_from locked_to id e ≡ true → e.edge_type ≡ locked_to
is_locked id e h = elim (Bool-cases (same_type e.edge_type locked_to)) [
  | inl k ↦ locked_lem e.edge_type k
  | inr k ↦ absurd (ground arith)
]
  where
    locked_lem : (t : EdgeType) → same_type t locked_to ≡ true → t ≡ locked_to
    locked_lem locked_to k = refl
    locked_lem spent_by k = cc
    locked_lem creates_output k = cc

-- The node that an output resolves to is there.
target_known :
    (t : Tables) (n : Node)
    → IsLinked t
    → Any (λ m. m ≡ n) t.nodes
    → n.node_type ≡ output
    → has_node
        (locked_or_created n.node_id (find_first (leads_from locked_to n.node_id) t.edges))
        t.nodes
      ≡ true
target_known t n w m is_output =
    elim (Option-cases (find_first (leads_from locked_to n.node_id) t.edges)) [
      | inl e ↦ rw e (All-Any (HasCreator t.nodes) t.nodes w.creators m is_output)
      | inr (l, e) ↦
          let (k, h) = find_first-Any (leads_from locked_to n.node_id) t.edges e in
          rw e (All-Any (HasLock t.nodes) t.edges w.locks k (is_locked n.node_id l h))
    ]

flow_by_type-Survives :
    (t : Tables) (limit : ℕ) (n : Node) (node_type : NodeType)
    → n.node_type ≡ node_type
    → IsLinked t
    → Any (λ m. m ≡ n) t.nodes
    → Survives (flow_by_type t limit n.node_id node_type)
unfolding flow_by_type
flow_by_type-Survives t limit n output e w m =
    resolved_flow-Survives t limit n.node_id _ (target_known t n w m e)
flow_by_type-Survives t limit n transaction e w m =
    flow_at-Survives t limit n.node_id transaction none
flow_by_type-Survives t limit n address_or_script e w m =
    flow_at-Survives t limit n.node_id address_or_script none
flow_by_type-Survives t limit n other_type e w m =
    flow_at-Survives t limit n.node_id other_type none

first_node-Any :
    (t : Tables) (ids : List NodeId) (n : Node)
    → first_node t ids ≡ some n
    → Any (λ m. m ≡ n) t.nodes
unfolding first_node
first_node-Any t [] n e = absurd (cc)
first_node-Any t (id ∷ ids) n e = elim (Option-cases (find_node t id)) [
  | inl k ↦ first_node-Any t ids n (rw (k, first_node) at e)
  | inr (m, k) ↦
      let same : m ≡ n = cc (rw (k, first_node) at e) in
      subst (λ x. Any (λ y. y ≡ x) t.nodes) same
        (find_first-Any (λ (x : Node). same_id x.node_id id) t.nodes k).0
]

-- A flow query on the tables that the builder makes ends in no uncaught error: where it resolves an
-- output, the node of the output's address or of its transaction is there.
pub query_flow-build :
    (r : Records) (candidates : List NodeId) (limit : ℕ)
    → query_flow (build r).tables candidates limit ≢ failed crashed
unfolding query_flow flow_from
query_flow-build r candidates limit e =
    let t = (build r).tables in
    unfold Survives in
    (subst Survives e (elim (Bool-cases (leb 1 limit && leb limit 200)) [
      | inl fits ↦ elim (Option-cases (first_node t candidates)) [
        | inl k ↦ rw (fits, k) tt
        | inr (n, k) ↦
            rw (fits, k)
              (flow_by_type-Survives t limit n n.node_type refl (build-IsLinked r)
                (first_node-Any t candidates n k))
      ]
      | inr bad ↦ rw bad tt
    ]))

-- The inputs that the builder has counted.
abbrev seen_inputs : Lineage → ℕ
seen_inputs l =
    l.resolved_inputs + l.missing_outpoint_inputs + l.unknown_prior_output_inputs
    + l.double_spend_conflicts

add_input_fact_counts :
    (outputs : List OutputFact) (txid : ℕ) (prev vout : Option ℕ) (l : Lineage)
    → seen_inputs (add_input_fact outputs txid prev vout l) ≡ seen_inputs l + 1
unfolding add_input_fact spend
add_input_fact_counts outputs txid none vout l = omega arith
add_input_fact_counts outputs txid (some prev) none l = omega arith
add_input_fact_counts outputs txid (some prev) (some vout) l =
    elim (Bool-cases (exists_in (λ (o : OutputFact). o.txid == prev && o.vout == vout) outputs)) [
      | inl e ↦ elim (Bool-cases (other_spender txid (find_first (spends prev vout) l.spenders))) [
        | inl k ↦ rw (e, k) (omega arith)
        | inr k ↦ rw (e, k) (omega arith)
      ]
      | inr e ↦ rw e (omega arith)
    ]

add_inputs_counts :
    (outputs : List OutputFact) (is : List InputFact) (l : Lineage)
    → seen_inputs (add_inputs outputs is l) ≡ seen_inputs l + length is
unfolding add_inputs
add_inputs_counts outputs [] l = omega arith
add_inputs_counts outputs (i ∷ is) l =
    let now = add_input_fact_counts outputs i.txid i.prev_txid i.prev_vout l in
    let rest =
      add_inputs_counts outputs is (add_input_fact outputs i.txid i.prev_txid i.prev_vout l) in
    omega arith

-- The coverage of a graph splits its inputs: those resolved, without an outpoint, of an unknown output
-- and in conflict with another spender make up all inputs.
pub build-coverage :
    (r : Records)
    → (build r).resolved_inputs
        + (build r).missing_outpoint_inputs
        + (build r).unknown_prior_output_inputs
        + (build r).double_spend_conflicts
      ≡ length r.inputs
unfolding build
build-coverage r =
    let start = no_lineage (add_outputs r.outputs (add_transactions r.transactions no_tables)) in
    let h = add_inputs_counts r.outputs r.inputs start in omega arith
