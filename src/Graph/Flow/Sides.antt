-- ===== src/Graph/Flow/Sides.antt =====
-- _tx_flow, _address_flow and the dead ends, of app/engine/graph/query.py.
use trace_x.Common.{
  ℕ, ◌+◌, Bool, true, false, ◌&&◌, Option, none, some, List, [], ◌∷◌, ◌++◌, map, if◌then◌else◌,
  select,
}
use trace_x.Graph.Flow.Model.{
  NodeId, same_id, NodeType, transaction, address_or_script, output, EdgeType, locked_to, spent_by,
  creates_output, same_type, Node, Link, Tables, dead_end_unspent, Counterparty, counterparty,
  creator_tx, add_amount, add_via, upsert, last_to, amount_of,
}

abbrev pub leads_to : EdgeType → NodeId → Link → Bool
leads_to t id e = same_id e.to_node id && same_type e.edge_type t

abbrev pub leads_from : EdgeType → NodeId → Link → Bool
leads_from t id e = same_id e.from_node id && same_type e.edge_type t

abbrev pub or_else : Option NodeId → NodeId → NodeId
or_else none id = id
or_else (some a) id = a

abbrev pub kind_of : Option NodeId → NodeType
kind_of none = output
kind_of (some a) = address_or_script

-- The outputs that the transaction spent, with their amounts
unfoldable pub spent_outputs : Tables → NodeId → List (NodeId × Option ℕ)
unfolding select amount_of
spent_outputs t tx =
    map (λ (e : Link). (e.from_node, amount_of e.from_node t.nodes))
      (select (leads_to spent_by tx) t.edges)

-- The outputs that the transaction created
unfoldable pub created_outputs : Tables → NodeId → List (NodeId × Option ℕ)
unfolding select
created_outputs t tx =
    map (λ (e : Link). (e.to_node, e.amount_sats)) (select (leads_from creates_output tx) t.edges)

-- The entry of an input: an address, or an output that is followed to its creator.
abbrev pub new_input : NodeId → Option NodeId → Counterparty
new_input o (some address) = counterparty address address_or_script
new_input o none = record (counterparty o output) {
  source_id = some (creator_tx o);
  onward_count = 1;
}

abbrev pub add_input : NodeId → Option ℕ → Counterparty → Counterparty
add_input o amount c = record c {
  utxo_count = c.utxo_count + 1;
  spent_count = c.spent_count + 1;
  amount_sats = add_amount c.amount_sats amount;
  via = add_via (creator_tx o) c.via;
}

-- The entry of an output without an address is followed to its spender.
abbrev pub followed : NodeId → Option NodeId → Counterparty
followed o none = record (counterparty o output) {
  source_id = none;
  onward_count = 0;
  selectable = false;
  reason = some dead_end_unspent;
}
followed o (some tx) = record (counterparty o output) { source_id = some tx; onward_count = 1 }

abbrev pub new_output : NodeId → Option NodeId → Option NodeId → Counterparty
new_output o (some address) spender = counterparty address address_or_script
new_output o none spender = followed o spender

abbrev pub add_spender : Option NodeId → Counterparty → Counterparty
add_spender none c = c
add_spender (some tx) c = record c { spent_count = c.spent_count + 1; via = add_via tx c.via }

abbrev pub add_output : Option NodeId → Option ℕ → Counterparty → Counterparty
add_output spender amount c =
    add_spender spender
      (record c { utxo_count = c.utxo_count + 1; amount_sats = add_amount c.amount_sats amount })

unfoldable pub place_inputs :
    Tables → List (NodeId × Option ℕ) → List Counterparty → List Counterparty
unfolding upsert last_to
place_inputs t [] entries = entries
place_inputs t ((o, amount) ∷ os) entries =
    let address = last_to locked_to o t.edges in
    place_inputs t os
      (upsert (or_else address o) (new_input o address) (add_input o amount) entries)

unfoldable pub place_outputs :
    Tables → List (NodeId × Option ℕ) → List Counterparty → List Counterparty
unfolding upsert last_to
place_outputs t [] entries = entries
place_outputs t ((o, amount) ∷ os) entries =
    let address = last_to locked_to o t.edges in
    let spender = last_to spent_by o t.edges in
    place_outputs t os (
      upsert (or_else address o) (new_output o address spender) (add_output spender amount) entries)

unfoldable pub tx_flow : Tables → NodeId → List Counterparty × List Counterparty
unfolding place_inputs place_outputs spent_outputs created_outputs
tx_flow t tx = (place_inputs t (spent_outputs t tx) [], place_outputs t (created_outputs t tx) [])

-- The rows of an output locked to the address: one for each row of its node and each transaction that
-- spends it, or one without a transaction.
abbrev pub CoinRow : Type 0
CoinRow = NodeId × Option ℕ × Option NodeId

unfoldable pub spender_rows : NodeId → Option ℕ → List Link → List CoinRow
spender_rows o amount [] = (o, amount, none) ∷ []
spender_rows o amount (e ∷ es) = map (λ (s : Link). (o, amount, some s.to_node)) (e ∷ es)

unfoldable pub node_rows_of : Tables → NodeId → List Node → List CoinRow
unfolding select spender_rows
node_rows_of t o [] = []
node_rows_of t o (n ∷ ns) =
    let rest = node_rows_of t o ns in
    if same_id n.node_id o
    then spender_rows o n.amount_sats (select (leads_from spent_by o) t.edges) ++ rest
    else rest

unfoldable pub coin_rows : Tables → List Link → List CoinRow
unfolding node_rows_of
coin_rows t [] = []
coin_rows t (e ∷ es) = node_rows_of t e.from_node t.nodes ++ coin_rows t es

abbrev pub add_coin : NodeId → Option ℕ → (spent : Bool) → Counterparty → Counterparty
add_coin o amount spent c = record c {
  utxo_count = c.utxo_count + 1;
  spent_count = if spent then c.spent_count + 1 else c.spent_count;
  amount_sats = add_amount c.amount_sats amount;
  via = add_via o c.via;
}

abbrev pub is_spent : Option NodeId → Bool
is_spent none = false
is_spent (some tx) = true

unfoldable pub place_funding : List CoinRow → List Counterparty → List Counterparty
unfolding upsert
place_funding [] entries = entries
place_funding ((o, amount, spender) ∷ rows) entries = place_funding rows (
    upsert (creator_tx o) (counterparty (creator_tx o) transaction)
      (add_coin o amount (is_spent spender)) entries)

unfoldable pub place_spending : List CoinRow → List Counterparty → List Counterparty
unfolding upsert
place_spending [] entries = entries
place_spending ((o, amount, none) ∷ rows) entries = place_spending rows entries
place_spending ((o, amount, some tx) ∷ rows) entries =
    place_spending rows (upsert tx (counterparty tx transaction) (add_coin o amount true) entries)

unfoldable pub address_rows : Tables → NodeId → List CoinRow
unfolding coin_rows select
address_rows t address = coin_rows t (select (leads_to locked_to address) t.edges)

unfoldable pub address_flow : Tables → NodeId → List Counterparty × List Counterparty
unfolding place_funding place_spending address_rows
address_flow t address =
    let rows = address_rows t address in (place_funding rows [], place_spending rows [])
