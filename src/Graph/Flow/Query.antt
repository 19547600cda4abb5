-- ===== src/Graph/Flow/Query.antt =====
-- The activity behind counterparties, their ranking, and query_flow of app/engine/graph/query.py.
use trace_x.Common.{
  ℕ, ◌+◌, ◌-◌, Bool, true, false, ◌&&◌, ◌||◌, not, Option, none, some, List, [], ◌∷◌, ◌++◌, map,
  ◌==◌, ltb, leb, if◌then◌else◌, length, take, select, exists_in, find_first,
}
use trace_x.Common.Sort.{sort_by}
use trace_x.Graph.Flow.Model.{
  NodeId, same_id, id_before, NodeType, transaction, address_or_script, output, other_type,
  locked_to, spent_by, creates_output, Node, Link, Tables, Reason, dead_end_address, dead_end_tx,
  Counterparty, creator_tx, add_amount,
}
use trace_x.Graph.Flow.Sides.{leads_to, leads_from, tx_flow, address_flow}

-- The transactions that touch an address, as rows of a union: `SELECT DISTINCT` is left to the count.
unfoldable pub distinct_ids : List NodeId → List NodeId
unfolding exists_in
distinct_ids [] = []
distinct_ids (a ∷ ids) =
    let rest = distinct_ids ids in if exists_in (same_id a) ids then rest else a ∷ rest

unfoldable pub spenders_of : Tables → List NodeId → List NodeId
unfolding select
spenders_of t [] = []
spenders_of t (o ∷ os) =
    map (λ (e : Link). e.to_node) (select (leads_from spent_by o) t.edges) ++ spenders_of t os

-- The outputs locked to an address
unfoldable pub coins_of : Tables → NodeId → List NodeId
unfolding select
coins_of t address = map (λ (e : Link). e.from_node) (select (leads_to locked_to address) t.edges)

unfoldable pub touching : Tables → NodeId → List NodeId
unfolding distinct_ids spenders_of coins_of
touching t address =
    let coins = coins_of t address in distinct_ids (map creator_tx coins ++ spenders_of t coins)

-- `_address_onward_counts`, for one address
unfoldable pub address_onward : Tables → (exclude_tx : NodeId) → NodeId → ℕ
unfolding touching select
address_onward t exclude address =
    length (select (λ tx. not (same_id tx exclude)) (touching t address))

-- The outputs that the transaction spent and created
unfoldable pub legs : Tables → NodeId → List NodeId
unfolding select
legs t tx =
    map (λ (e : Link). e.from_node) (select (leads_to spent_by tx) t.edges)
    ++ map (λ (e : Link). e.to_node) (select (leads_from creates_output tx) t.edges)

-- The rows of a leg in the left join that are counted
unfoldable pub leg_count : Tables → (exclude_address : NodeId) → NodeId → ℕ
unfolding select
leg_count t exclude leg =
    let locks = select (leads_from locked_to leg) t.edges in
    elim locks [
      | [] ↦ 1
      | e ∷ es ↦ length (select (λ (l : Link). not (same_id l.to_node exclude)) (e ∷ es))
    ]

unfoldable pub leg_counts : Tables → (exclude_address : NodeId) → List NodeId → ℕ
unfolding leg_count
leg_counts t exclude [] = 0
leg_counts t exclude (leg ∷ rest) = leg_count t exclude leg + leg_counts t exclude rest

-- `_tx_onward_counts`, for one transaction
unfoldable pub tx_onward : Tables → (exclude_address : NodeId) → NodeId → ℕ
unfolding legs leg_counts
tx_onward t exclude tx = leg_counts t exclude (legs t tx)

abbrev pub with_onward : Reason → ℕ → Counterparty → Counterparty
with_onward reason onward c =
    if onward == 0
    then record c { onward_count = onward; selectable = false; reason = some reason }
    else record c { onward_count = onward }

-- `_mark_tx_dead_ends`
unfoldable pub mark_tx : Tables → NodeId → Counterparty → Counterparty
unfolding tx_onward
mark_tx t address c = with_onward dead_end_tx (tx_onward t address c.id) c

abbrev pub is_address : NodeType → Bool
is_address address_or_script = true
is_address transaction = false
is_address output = false
is_address other_type = false

-- `_mark_address_dead_ends`
unfoldable pub mark_address : Tables → NodeId → Counterparty → Counterparty
unfolding address_onward
mark_address t tx c =
    if is_address c.node_type then with_onward dead_end_address (address_onward t tx c.id) c else c

-- The key of `_ranked`: known amounts first, the larger before the smaller, then by id.
abbrev pub amount_before : Option ℕ → Option ℕ → (ids : Bool) → Bool
amount_before none none ids = ids
amount_before none (some m) ids = false
amount_before (some n) none ids = true
amount_before (some n) (some m) ids = ltb m n || n == m && ids

abbrev pub ranks : Counterparty → Counterparty → Bool
ranks c d = amount_before c.amount_sats d.amount_sats (id_before c.id d.id)

unfoldable pub ranked : List Counterparty → (limit : ℕ) → List Counterparty × ℕ
unfolding sort_by
ranked entries limit =
    let ordered = sort_by ranks entries in (take limit ordered, length ordered - limit)

-- `total`
unfoldable pub total : List Counterparty → Option ℕ
total [] = some 0
total (c ∷ cs) = add_amount c.amount_sats (total cs)

pub data FlowError : Type 0 where
  bad_limit : FlowError
  not_found : FlowError
  not_a_source : FlowError
  crashed : FlowError

-- The answer, less texts, attributes, timestamps and the number of transactions of the centre.
pub record Flow : Type 0 where
  pub centre_id : NodeId
  pub centre_type : NodeType
  pub resolved_from : Option NodeId
  pub has_flow : Bool
  pub inputs : List Counterparty
  pub outputs : List Counterparty
  pub input_count : ℕ
  pub output_count : ℕ
  pub input_sats : Option ℕ
  pub output_sats : Option ℕ
  pub dead_end_inputs : ℕ
  pub dead_end_outputs : ℕ
  pub truncated_inputs : ℕ
  pub truncated_outputs : ℕ

pub data FlowReply : Type 0 where
  failed : FlowError → FlowReply
  shown : Flow → FlowReply

abbrev pub dead_ends : List Counterparty → ℕ
dead_ends cs = length (select (λ (c : Counterparty). not c.selectable) cs)

unfoldable pub flow_of :
    (limit : ℕ)
    → NodeId
    → NodeType
    → (resolved_from : Option NodeId) → (Counterparty → Counterparty)
    → List Counterparty × List Counterparty
    → Flow
unfolding ranked total select
flow_of limit id node_type resolved_from mark (inputs, outputs) =
    let (top_inputs, truncated_inputs) = ranked inputs limit in
    let (top_outputs, truncated_outputs) = ranked outputs limit in
    let shown_inputs = map mark top_inputs in
    let shown_outputs = map mark top_outputs in
    record {
      centre_id = id;
      centre_type = node_type;
      resolved_from = resolved_from;
      has_flow = ltb 0 (length inputs) || ltb 0 (length outputs);
      inputs = shown_inputs;
      outputs = shown_outputs;
      input_count = length inputs;
      output_count = length outputs;
      input_sats = total inputs;
      output_sats = total outputs;
      dead_end_inputs = dead_ends shown_inputs;
      dead_end_outputs = dead_ends shown_outputs;
      truncated_inputs = truncated_inputs;
      truncated_outputs = truncated_outputs;
    }

unfoldable pub flow_at :
    Tables → ℕ → NodeId → NodeType → (resolved_from : Option NodeId) → FlowReply
unfolding flow_of tx_flow address_flow mark_address mark_tx
flow_at t limit id transaction from =
    shown (flow_of limit id transaction from (mark_address t id) (tx_flow t id))
flow_at t limit id address_or_script from =
    shown (flow_of limit id address_or_script from (mark_tx t id) (address_flow t id))
flow_at t limit id output from = failed not_a_source
flow_at t limit id other_type from = failed not_a_source

abbrev pub find_node : Tables → NodeId → Option Node
find_node t id = find_first (λ (n : Node). same_id n.node_id id) t.nodes

abbrev pub locked_or_created : NodeId → Option Link → NodeId
locked_or_created id none = creator_tx id
locked_or_created id (some e) = e.to_node

-- The node whose flow stands for an output's; a node that is missing there is an uncaught error.
unfoldable pub resolved_flow : Tables → ℕ → (resolved_from : NodeId) → Option Node → FlowReply
unfolding flow_at
resolved_flow t limit from none = failed crashed
resolved_flow t limit from (some n) = flow_at t limit n.node_id n.node_type (some from)

unfoldable pub flow_by_type : Tables → ℕ → NodeId → NodeType → FlowReply
unfolding flow_at resolved_flow find_first
flow_by_type t limit id output =
    let target = locked_or_created id (find_first (leads_from locked_to id) t.edges) in
    resolved_flow t limit id (find_node t target)
flow_by_type t limit id transaction = flow_at t limit id transaction none
flow_by_type t limit id address_or_script = flow_at t limit id address_or_script none
flow_by_type t limit id other_type = flow_at t limit id other_type none

unfoldable pub flow_from : Tables → ℕ → Option Node → FlowReply
unfolding flow_by_type
flow_from t limit none = failed not_found
flow_from t limit (some n) = flow_by_type t limit n.node_id n.node_type

unfoldable pub first_node : Tables → List NodeId → Option Node
unfolding find_first
first_node t [] = none
first_node t (id ∷ ids) =
    let rest = first_node t ids in elim (find_node t id) [ some n ↦ some n | none ↦ rest ]

-- `query_flow`, of the candidates that it reads from the text of the node
unfoldable pub query_flow : Tables → List NodeId → (limit : ℕ) → FlowReply
unfolding flow_from first_node
query_flow t candidates limit =
    if leb 1 limit && leb limit 200
    then flow_from t limit (first_node t candidates)
    else failed bad_limit
