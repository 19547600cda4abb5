-- ===== src/Graph/Flow/Answered.antt =====
-- What query_flow of app/engine/graph/query.py shows of the flow of a transaction.
use trace_x.Common.{
  ℕ, suc, ◌+◌, ◌≤◌, ◌≡◌, ◌∙◌, refl, ap, subst, arith, inl, inr, ◌&&◌, leb, Option, none, some, List,
  [], ◌∷◌, map, length, find_first, Bool-cases,
}
use trace_x.Graph.Flow.Model.{
  NodeId, NodeType, transaction, address_or_script, output, other_type, locked_to, Node, Tables,
  Counterparty,
}
use trace_x.Graph.Flow.Sides.{spent_outputs, created_outputs, leads_from, tx_flow, address_flow}
use trace_x.Graph.Flow.Query.{
  Flow, FlowReply, failed, shown, bad_limit, total, ranked, mark_address, mark_tx, flow_of, flow_at,
  locked_or_created, find_node, resolved_flow, flow_by_type, flow_from, first_node, query_flow,
}
use trace_x.Graph.Flow.Totals.{sum_of, tx_flow-IsBalanced}
use trace_x.Graph.Flow.Ranking.{ranked-IsTop}

-- The sizes of a flow agree, and the amounts of a transaction's are those of its outputs.
pub record IsSummed (t : Tables) (limit : ℕ) (f : Flow) : Type 0 where
  pub inputs_fit : length f.inputs ≤ limit
  pub outputs_fit : length f.outputs ≤ limit
  pub inputs_counted : length f.inputs + f.truncated_inputs ≡ f.input_count
  pub outputs_counted : length f.outputs + f.truncated_outputs ≡ f.output_count
  pub amounts :
      f.centre_type ≡ transaction
      → (f.input_sats ≡ sum_of (spent_outputs t f.centre_id))
        × (f.output_sats ≡ sum_of (created_outputs t f.centre_id))

length-map :
    (mark : Counterparty → Counterparty) (cs : List Counterparty) → length (map mark cs) ≡ length cs
length-map mark [] = refl
length-map mark (c ∷ cs) = ap suc (length-map mark cs)

Answers : Tables → ℕ → FlowReply → Type 0
Answers t limit (failed e) = Unit
Answers t limit (shown f) = IsSummed t limit f

flow_of-IsSummed :
    (t : Tables) (limit : ℕ) (id : NodeId) (node_type : NodeType) (from : Option NodeId)
    (mark : Counterparty → Counterparty) (sides : List Counterparty × List Counterparty)
    → (node_type ≡ transaction → sides ≡ tx_flow t id)
    → IsSummed t limit (flow_of limit id node_type from mark sides)
unfolding flow_of
flow_of-IsSummed t limit id node_type from mark (ins, outs) is_tx =
    let top_in = ranked-IsTop ins limit in
    let top_out = ranked-IsTop outs limit in
    let size_in = length-map mark (ranked ins limit).0 in
    let size_out = length-map mark (ranked outs limit).0 in
    record {
      inputs_fit = (let h = top_in.fits in omega arith);
      outputs_fit = (let h = top_out.fits in omega arith);
      inputs_counted = (let h = top_in.complete in omega arith);
      outputs_counted = (let h = top_out.complete in omega arith);
      amounts = λ same.
          let e = is_tx same in
          let (a, b) = tx_flow-IsBalanced t id in
          (
            ap (λ (p : List Counterparty × List Counterparty). total p.0) e ∙ a.amounts,
            ap (λ (p : List Counterparty × List Counterparty). total p.1) e ∙ b.amounts,
          );
    }

flow_at-Answers :
    (t : Tables) (limit : ℕ) (id : NodeId) (node_type : NodeType) (from : Option NodeId)
    → Answers t limit (flow_at t limit id node_type from)
unfolding flow_at Answers
flow_at-Answers t limit id transaction from =
    flow_of-IsSummed t limit id transaction from (mark_address t id) (tx_flow t id) (λ e. refl)
flow_at-Answers t limit id address_or_script from =
    flow_of-IsSummed t limit id address_or_script from (mark_tx t id) (address_flow t id)
      (λ e. absurd (cc))
flow_at-Answers t limit id output from = tt
flow_at-Answers t limit id other_type from = tt

resolved_flow-Answers :
    (t : Tables) (limit : ℕ) (from : NodeId) (n : Option Node)
    → Answers t limit (resolved_flow t limit from n)
unfolding resolved_flow Answers
resolved_flow-Answers t limit from none = tt
resolved_flow-Answers t limit from (some n) =
    flow_at-Answers t limit n.node_id n.node_type (some from)

flow_by_type-Answers :
    (t : Tables) (limit : ℕ) (id : NodeId) (node_type : NodeType)
    → Answers t limit (flow_by_type t limit id node_type)
unfolding flow_by_type
flow_by_type-Answers t limit id output =
    resolved_flow-Answers t limit id
      (find_node t (locked_or_created id (find_first (leads_from locked_to id) t.edges)))
flow_by_type-Answers t limit id transaction = flow_at-Answers t limit id transaction none
flow_by_type-Answers t limit id address_or_script =
    flow_at-Answers t limit id address_or_script none
flow_by_type-Answers t limit id other_type = flow_at-Answers t limit id other_type none

flow_from-Answers :
    (t : Tables) (limit : ℕ) (n : Option Node) → Answers t limit (flow_from t limit n)
unfolding flow_from Answers
flow_from-Answers t limit none = tt
flow_from-Answers t limit (some n) = flow_by_type-Answers t limit n.node_id n.node_type

-- A flow that is shown has at most as many entries on a side as the limit, which is at most 200; what
-- it shows and what it counts as truncated make up the counterparties; and the amounts of a
-- transaction's flow are the sums over all outputs that it spent and created, shown or not, and
-- unknown when one of these is.
pub query_flow-IsSummed :
    (t : Tables) (candidates : List NodeId) (limit : ℕ) (f : Flow)
    → query_flow t candidates limit ≡ shown f
    → (limit ≤ 200) × IsSummed t limit f
unfolding query_flow
query_flow-IsSummed t candidates limit f e = elim (Bool-cases (leb 1 limit && leb limit 200)) [
  | inl fits ↦
      let is_f : flow_from t limit (first_node t candidates) ≡ shown f = rw fits at e in
      (
        ground arith,
        unfold Answers in
            subst (Answers t limit) is_f (flow_from-Answers t limit (first_node t candidates)),
      )
  | inr not_fits ↦ let no : failed bad_limit ≡ shown f = rw not_fits at e in absurd (cc)
]
