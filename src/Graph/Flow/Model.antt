-- ===== src/Graph/Flow/Model.antt =====
-- The tables and the counterparties of query_flow in app/engine/graph/query.py.
use trace_x.Common.{
  ℕ, ◌+◌, Bool, true, false, ◌&&◌, ◌||◌, Option, none, some, List, [], ◌∷◌, ◌++◌, ◌==◌, ltb, leb,
  if◌then◌else◌, length, exists_in,
}

-- The ids of nodes: `tx:<txid>`, `out:<txid>:<vout>` and `address:<text>`. The texts in them are
-- numbers, which are compared as the texts are.
pub data NodeId : Type 0 where
  tx_id : ℕ → NodeId
  output_id : (txid vout : ℕ) → NodeId
  address_id : ℕ → NodeId

abbrev pub same_id : NodeId → NodeId → Bool
same_id (tx_id a) (tx_id b) = a == b
same_id (output_id a v) (output_id b w) = a == b && v == w
same_id (address_id a) (address_id b) = a == b
same_id (tx_id a) (output_id b w) = false
same_id (tx_id a) (address_id b) = false
same_id (output_id a v) (tx_id b) = false
same_id (output_id a v) (address_id b) = false
same_id (address_id a) (tx_id b) = false
same_id (address_id a) (output_id b w) = false

-- The order of the ids as texts: "address:" before "out:" before "tx:".
abbrev pub prefix_rank : NodeId → ℕ
prefix_rank (address_id a) = 0
prefix_rank (output_id a v) = 1
prefix_rank (tx_id a) = 2

abbrev pub main_part : NodeId → ℕ
main_part (address_id a) = a
main_part (output_id a v) = a
main_part (tx_id a) = a

abbrev pub last_part : NodeId → ℕ
last_part (address_id a) = 0
last_part (output_id a v) = v
last_part (tx_id a) = 0

abbrev pub id_before : NodeId → NodeId → Bool
id_before x y =
    ltb (prefix_rank x) (prefix_rank y)
    || prefix_rank x == prefix_rank y
      && (ltb (main_part x) (main_part y)
          || main_part x == main_part y && leb (last_part x) (last_part y))

pub data NodeType : Type 0 where
  transaction : NodeType
  address_or_script : NodeType
  output : NodeType
  other_type : NodeType

pub data EdgeType : Type 0 where
  locked_to : EdgeType
  spent_by : EdgeType
  creates_output : EdgeType

abbrev pub same_type : EdgeType → EdgeType → Bool
same_type locked_to locked_to = true
same_type spent_by spent_by = true
same_type creates_output creates_output = true
same_type locked_to spent_by = false
same_type locked_to creates_output = false
same_type spent_by locked_to = false
same_type spent_by creates_output = false
same_type creates_output locked_to = false
same_type creates_output spent_by = false

-- A row of `nodes`, with the amount of its attributes, and a row of `edges`
pub record Node : Type 0 where
  pub node_id : NodeId
  pub node_type : NodeType
  pub amount_sats : Option ℕ

pub record Link : Type 0 where
  pub from_node : NodeId
  pub to_node : NodeId
  pub edge_type : EdgeType
  pub amount_sats : Option ℕ

pub record Tables : Type 0 where
  pub nodes : List Node
  pub edges : List Link

pub data Reason : Type 0 where
  dead_end_address : Reason
  dead_end_tx : Reason
  dead_end_unspent : Reason

-- `_counterparty`, less its label and timestamp.
pub record Counterparty : Type 0 where
  pub id : NodeId
  pub node_type : NodeType
  pub amount_sats : Option ℕ
  pub utxo_count : ℕ
  pub spent_count : ℕ
  pub via : List NodeId
  pub source_id : Option NodeId
  pub onward_count : ℕ
  pub selectable : Bool
  pub reason : Option Reason

abbrev pub counterparty : NodeId → NodeType → Counterparty
counterparty id node_type = record {
  id = id;
  node_type = node_type;
  amount_sats = some 0;
  utxo_count = 0;
  spent_count = 0;
  via = [];
  source_id = some id;
  onward_count = 0;
  selectable = true;
  reason = none;
}

-- `_creator_tx`: the second part of an id is the transaction of an output.
abbrev pub creator_tx : NodeId → NodeId
creator_tx (tx_id a) = tx_id a
creator_tx (output_id a v) = tx_id a
creator_tx (address_id a) = tx_id a

-- `_add_amount`
abbrev pub add_amount : Option ℕ → Option ℕ → Option ℕ
add_amount none amount = none
add_amount (some held) none = none
add_amount (some held) (some amount) = some (held + amount)

-- `if len(entry["via"]) < 5: entry["via"].append(...)`
abbrev pub add_via : NodeId → List NodeId → List NodeId
add_via id via = if ltb (length via) 5 then via ++ (id ∷ []) else via

-- The entry of a key in a dictionary, made if it is missing, and changed.
unfoldable pub upsert :
    (key : NodeId)
    → Counterparty
    → (Counterparty → Counterparty)
    → List Counterparty
    → List Counterparty
upsert key new change [] = change new ∷ []
upsert key new change (c ∷ cs) =
    let rest = upsert key new change cs in if same_id c.id key then change c ∷ cs else c ∷ rest

-- The entry of the last row of a node in a dictionary of rows
unfoldable pub last_to : EdgeType → NodeId → List Link → Option NodeId
last_to t id [] = none
last_to t id (e ∷ es) =
    let later = last_to t id es in
    elim later [
      | some x ↦ some x
      | none ↦ if same_type e.edge_type t && same_id e.from_node id then some e.to_node else none
    ]

unfoldable pub amount_of : NodeId → List Node → Option ℕ
amount_of id [] = none
amount_of id (n ∷ ns) =
    let later = amount_of id ns in
    if exists_in (λ (m : Node). same_id m.node_id id) ns
    then later
    else if same_id n.node_id id
    then n.amount_sats
    else none
