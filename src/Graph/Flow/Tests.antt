-- ===== src/Graph/Flow/Tests.antt =====
-- Runs of query_flow of app/engine/graph/query.py on a small snapshot.
use trace_x.Common.{
  ℕ, ◌≤◌, ◌≡◌, ◌↔◌, refl, Bool, true, false, Option, none, some, List, [], ◌∷◌, map,
}
use trace_x.Graph.Flow.Model.{
  NodeId, tx_id, output_id, address_id, NodeType, transaction, address_or_script, output, EdgeType,
  locked_to, spent_by, creates_output, Node, Link, Tables, dead_end_address, Counterparty,
  counterparty,
}
use trace_x.Graph.Flow.Query.{
  Flow, FlowReply, failed, shown, bad_limit, not_found, mark_address, query_flow,
}
use trace_x.Graph.Flow.Answered.{IsSummed, query_flow-IsSummed}
use trace_x.Graph.Flow.DeadEnds.{OnlyTouchedBy, mark_address-dead_end}

abbrev node : NodeId → NodeType → Option ℕ → Node
node id node_type amount = record { node_id = id; node_type = node_type; amount_sats = amount }

abbrev link : NodeId → EdgeType → NodeId → Option ℕ → Link
link from edge_type to amount = record {
  from_node = from;
  to_node = to;
  edge_type = edge_type;
  amount_sats = amount;
}

-- Transaction 1 pays two outputs to address 7 and one without an address; transaction 2 spends one.
abbrev tables : Tables
tables = record {
  nodes =
      node (tx_id 1) transaction none
      ∷ node (tx_id 2) transaction none
      ∷ node (output_id 1 0) output (some 50)
      ∷ node (output_id 1 1) output (some 20)
      ∷ node (output_id 1 2) output (some 5)
      ∷ node (output_id 2 0) output (some 45)
      ∷ node (address_id 7) address_or_script none
      ∷ node (address_id 8) address_or_script none
      ∷ [];
  edges =
      link (tx_id 1) creates_output (output_id 1 0) (some 50)
      ∷ link (tx_id 1) creates_output (output_id 1 1) (some 20)
      ∷ link (tx_id 1) creates_output (output_id 1 2) (some 5)
      ∷ link (output_id 1 0) locked_to (address_id 7) none
      ∷ link (output_id 1 1) locked_to (address_id 7) none
      ∷ link (output_id 1 0) spent_by (tx_id 2) none
      ∷ link (tx_id 2) creates_output (output_id 2 0) (some 45)
      ∷ link (output_id 2 0) locked_to (address_id 8) none
      ∷ [];
}

abbrev flow_shown : FlowReply → List (NodeId × Option ℕ × ℕ × Bool)
flow_shown (failed e) = []
flow_shown (shown f) =
    map (λ (c : Counterparty). (c.id, c.amount_sats, c.spent_count, c.selectable)) f.outputs

outputs_of_one :
    flow_shown (query_flow tables (tx_id 1 ∷ []) 40)
    ≡ (address_id 7, some 70, 1, true) ∷ (output_id 1 2, some 5, 0, false) ∷ []
unfolding query_flow
outputs_of_one = refl

outputs_of_two :
    flow_shown (query_flow tables (tx_id 2 ∷ []) 40) ≡ (address_id 8, some 45, 0, false) ∷ []
unfolding query_flow
outputs_of_two = refl

no_such_node : query_flow tables (tx_id 3 ∷ address_id 3 ∷ []) 40 ≡ failed not_found
unfolding query_flow
no_such_node = refl

limit_too_large : query_flow tables (tx_id 1 ∷ []) 201 ≡ failed bad_limit
unfolding query_flow
limit_too_large = refl

abbrev asked : Flow
asked = record {
  centre_id = tx_id 2;
  centre_type = transaction;
  resolved_from = none;
  has_flow = true;
  inputs =
      record (counterparty (address_id 7) address_or_script) {
        amount_sats = some 50;
        utxo_count = 1;
        spent_count = 1;
        via = tx_id 1 ∷ [];
        onward_count = 1;
      }
      ∷ [];
  outputs =
      record (counterparty (address_id 8) address_or_script) {
        amount_sats = some 45;
        utxo_count = 1;
        selectable = false;
        reason = some dead_end_address;
      }
      ∷ [];
  input_count = 1;
  output_count = 1;
  input_sats = some 50;
  output_sats = some 45;
  dead_end_inputs = 0;
  dead_end_outputs = 1;
  truncated_inputs = 0;
  truncated_outputs = 0;
}

asked_answer : query_flow tables (tx_id 2 ∷ []) 40 ≡ shown asked
unfolding query_flow
asked_answer = refl

query_flow-IsSummed_example : (40 ≤ 200) × IsSummed tables 40 asked
query_flow-IsSummed_example = query_flow-IsSummed tables (tx_id 2 ∷ []) 40 asked asked_answer

mark_address-dead_end_example :
    ((mark_address tables (tx_id 2) (counterparty (address_id 8) address_or_script)).selectable
      ≡ false)
    ↔ OnlyTouchedBy tables (tx_id 2) (address_id 8)
mark_address-dead_end_example =
    mark_address-dead_end tables (tx_id 2) (counterparty (address_id 8) address_or_script) refl refl
