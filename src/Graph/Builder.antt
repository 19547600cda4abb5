-- ===== src/Graph/Builder.antt =====
-- The nodes and edges of transactions, outputs and inputs that _build makes in
-- app/engine/graph/builder.py.
use trace_x.Common.{
  ℕ, ◌+◌, Bool, false, ◌&&◌, not, Option, none, some, List, [], ◌∷◌, ◌++◌, ◌==◌, if◌then◌else◌,
  exists_in, find_first,
}
use trace_x.Graph.Flow.Model.{
  NodeId, tx_id, output_id, address_id, same_id, NodeType, transaction, address_or_script, output,
  EdgeType, locked_to, spent_by, creates_output, same_type, Node, Link, Tables,
}

-- The facts, less what only goes into attributes; `address` is the address or the script's id.
pub record OutputFact : Type 0 where
  pub txid : ℕ
  pub vout : ℕ
  pub amount_sats : Option ℕ
  pub address : Option ℕ

pub record InputFact : Type 0 where
  pub txid : ℕ
  pub prev_txid : Option ℕ
  pub prev_vout : Option ℕ

pub record Records : Type 0 where
  pub transactions : List ℕ
  pub outputs : List OutputFact
  pub inputs : List InputFact

abbrev pub has_node : NodeId → List Node → Bool
has_node id nodes = exists_in (λ (n : Node). same_id n.node_id id) nodes

abbrev pub same_link : Link → Link → Bool
same_link a b =
    same_id a.from_node b.from_node
    && same_id a.to_node b.to_node
    && same_type a.edge_type b.edge_type

-- `node`: the first attributes of an id stay.
unfoldable pub add_node : NodeId → NodeType → (amount : Option ℕ) → Tables → Tables
unfolding exists_in
add_node id node_type amount t = if has_node id t.nodes then t else record t {
  nodes = t.nodes ++ (record { node_id = id; node_type = node_type; amount_sats = amount } ∷ []);
}

-- `edge`
unfoldable pub add_edge : Link → Tables → Tables
unfolding exists_in
add_edge e t =
    if exists_in (same_link e) t.edges then t else record t { edges = t.edges ++ (e ∷ []) }

abbrev pub link : NodeId → NodeId → EdgeType → Option ℕ → Link
link from to edge_type amount = record {
  from_node = from;
  to_node = to;
  edge_type = edge_type;
  amount_sats = amount;
}

unfoldable pub add_transactions : List ℕ → Tables → Tables
unfolding add_node
add_transactions [] t = t
add_transactions (txid ∷ txids) t =
    add_transactions txids (add_node (tx_id txid) transaction none t)

unfoldable pub add_address : NodeId → Option ℕ → Tables → Tables
unfolding add_node add_edge
add_address o none t = t
add_address o (some address) t =
    add_edge (link o (address_id address) locked_to none)
      (add_node (address_id address) address_or_script none t)

unfoldable pub add_output_fact : OutputFact → Tables → Tables
unfolding add_node add_edge add_address
add_output_fact o t =
    let id = output_id o.txid o.vout in
    add_address id o.address (
      add_edge (link (tx_id o.txid) id creates_output o.amount_sats)
        (add_node id output o.amount_sats (add_node (tx_id o.txid) transaction none t)))

unfoldable pub add_outputs : List OutputFact → Tables → Tables
unfolding add_output_fact
add_outputs [] t = t
add_outputs (o ∷ os) t = add_outputs os (add_output_fact o t)

-- The entry of `spenders`: an outpoint with its spender
pub record Spent : Type 0 where
  pub txid : ℕ
  pub vout : ℕ
  pub spender : ℕ

pub record Lineage : Type 0 where
  pub tables : Tables
  pub spenders : List Spent
  pub resolved_inputs : ℕ
  pub missing_outpoint_inputs : ℕ
  pub unknown_prior_output_inputs : ℕ
  pub double_spend_conflicts : ℕ

abbrev pub spends : (txid vout : ℕ) → Spent → Bool
spends txid vout s = s.txid == txid && s.vout == vout

abbrev pub other_spender : ℕ → Option Spent → Bool
other_spender spender none = false
other_spender spender (some s) = not (s.spender == spender)

unfoldable pub spend : (spender txid vout : ℕ) → Lineage → Lineage
unfolding find_first add_edge
spend spender txid vout l =
    if other_spender spender (find_first (spends txid vout) l.spenders)
    then record l { double_spend_conflicts = l.double_spend_conflicts + 1 }
    else record l {
      tables = add_edge (link (output_id txid vout) (tx_id spender) spent_by none) l.tables;
      spenders = record { txid = txid; vout = vout; spender = spender } ∷ l.spenders;
      resolved_inputs = l.resolved_inputs + 1;
    }

unfoldable pub add_input_fact : List OutputFact → ℕ → Option ℕ → Option ℕ → Lineage → Lineage
unfolding spend exists_in
add_input_fact outputs txid none vout l = record l {
  missing_outpoint_inputs = l.missing_outpoint_inputs + 1;
}
add_input_fact outputs txid (some prev) none l = record l {
  missing_outpoint_inputs = l.missing_outpoint_inputs + 1;
}
add_input_fact outputs txid (some prev) (some vout) l =
    if exists_in (λ (o : OutputFact). o.txid == prev && o.vout == vout) outputs
    then spend txid prev vout l
    else record l { unknown_prior_output_inputs = l.unknown_prior_output_inputs + 1 }

unfoldable pub add_inputs : List OutputFact → List InputFact → Lineage → Lineage
unfolding add_input_fact
add_inputs outputs [] l = l
add_inputs outputs (i ∷ is) l =
    add_inputs outputs is (add_input_fact outputs i.txid i.prev_txid i.prev_vout l)

abbrev pub no_tables : Tables
no_tables = record { nodes = []; edges = [] }

abbrev pub no_lineage : Tables → Lineage
no_lineage t = record {
  tables = t;
  spenders = [];
  resolved_inputs = 0;
  missing_outpoint_inputs = 0;
  unknown_prior_output_inputs = 0;
  double_spend_conflicts = 0;
}

unfoldable pub build : Records → Lineage
unfolding add_transactions add_outputs add_inputs
build r =
    add_inputs r.outputs r.inputs
      (no_lineage (add_outputs r.outputs (add_transactions r.transactions no_tables)))
