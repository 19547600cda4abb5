-- ===== src/Graph/Linked.antt =====
-- The tables that the builder of app/engine/graph/builder.py makes, under query_flow.
use trace_x.Common.{
  ℕ, ◌≡◌, refl, arith, inl, inr, true, ◌&&◌, Option, none, some, List, [], ◌∷◌, ◌++◌, ◌==◌, ==_refl,
  exists_in, find_first, All, All-mono, Bool-cases,
}
use trace_x.Graph.Flow.Model.{
  NodeId, tx_id, output_id, address_id, same_id, NodeType, transaction, address_or_script, output,
  locked_to, spent_by, creates_output, Node, Link, Tables, creator_tx,
}
use trace_x.Graph.Builder.{
  OutputFact, InputFact, Records, has_node, same_link, add_node, add_edge, link, add_transactions,
  add_address, add_output_fact, add_outputs, Lineage, spends, other_spender, spend, add_input_fact,
  add_inputs, no_tables, build,
}

-- The transaction that created an output has a node, and so has each address that locks an output.
abbrev pub HasCreator : List Node → Node → Type 0
HasCreator nodes n = n.node_type ≡ output → has_node (creator_tx n.node_id) nodes ≡ true

abbrev pub HasLock : List Node → Link → Type 0
HasLock nodes e = e.edge_type ≡ locked_to → has_node e.to_node nodes ≡ true

pub record IsLinked (t : Tables) : Type 0 where
  pub creators : All (HasCreator t.nodes) t.nodes
  pub locks : All (HasLock t.nodes) t.edges

has_node-append :
    (id : NodeId) (ns ms : List Node) → has_node id ns ≡ true → has_node id (ns ++ ms) ≡ true
unfolding exists_in
has_node-append id [] ms h = absurd (cc)
has_node-append id (n ∷ ns) ms h = elim (Bool-cases (same_id n.node_id id)) [
  | inl e ↦ rw e refl
  | inr e ↦ let k = has_node-append id ns ms (rw e at h) in rw e k
]

has_node_last :
    (id : NodeId) (ns : List Node) (n : Node)
    → same_id n.node_id id ≡ true
    → has_node id (ns ++ (n ∷ [])) ≡ true
unfolding exists_in
has_node_last id [] n h = rw h refl
has_node_last id (m ∷ ns) n h = let k = has_node_last id ns n h in ground arith

same_id_refl : (id : NodeId) → same_id id id ≡ true
same_id_refl (tx_id a) = ==_refl a
same_id_refl (output_id a v) = ground arith
same_id_refl (address_id a) = ==_refl a

All-last :
    {A : Type 0} (P : A → Type 0) (xs : List A) (x : A) → All P xs → P x → All P (xs ++ (x ∷ []))
All-last P [] x h p = (p, tt)
All-last P (y ∷ xs) x h p = (h.0, All-last P xs x h.1 p)

add_node_known :
    (id : NodeId) (node_type : NodeType) (amount : Option ℕ) (t : Tables)
    → has_node id (add_node id node_type amount t).nodes ≡ true
unfolding add_node
add_node_known id node_type amount t = elim (Bool-cases (has_node id t.nodes)) [
  | inl e ↦ rw e e
  | inr e ↦ rw e (has_node_last id t.nodes _ (same_id_refl id))
]

add_node_keeps :
    (id other : NodeId) (node_type : NodeType) (amount : Option ℕ) (t : Tables)
    → has_node other t.nodes ≡ true
    → has_node other (add_node id node_type amount t).nodes ≡ true
unfolding add_node
add_node_keeps id other node_type amount t h = elim (Bool-cases (has_node id t.nodes)) [
  | inl e ↦ rw e h
  | inr e ↦ rw e (has_node-append other t.nodes _ h)
]

add_edge_keeps :
    (e : Link) (other : NodeId) (t : Tables)
    → has_node other t.nodes ≡ true
    → has_node other (add_edge e t).nodes ≡ true
unfolding add_edge
add_edge_keeps e other t h = elim (Bool-cases (exists_in (same_link e) t.edges)) [
  | inl k ↦ rw k h
  | inr k ↦ rw k h
]

add_node-IsLinked :
    (id : NodeId) (node_type : NodeType) (amount : Option ℕ) (t : Tables)
    → IsLinked t
    → (node_type ≡ output → has_node (creator_tx id) t.nodes ≡ true)
    → IsLinked (add_node id node_type amount t)
unfolding add_node
add_node-IsLinked id node_type amount t w created = elim (Bool-cases (has_node id t.nodes)) [
  | inl e ↦ rw e w
  | inr e ↦
      let n : Node = record { node_id = id; node_type = node_type; amount_sats = amount } in
      let more = t.nodes ++ (n ∷ []) in
      rw e (record {
        creators =
            All-last (HasCreator more) t.nodes n
              (All-mono t.nodes
                (λ m (h : HasCreator t.nodes m) is_output.
                  has_node-append (creator_tx m.node_id) t.nodes (n ∷ []) (h is_output))
                w.creators)
              (λ is_output. has_node-append (creator_tx id) t.nodes (n ∷ []) (created is_output));
        locks =
            All-mono t.edges
              (λ l (h : HasLock t.nodes l) is_lock.
                has_node-append l.to_node t.nodes (n ∷ []) (h is_lock))
              w.locks;
      })
]

add_edge-IsLinked :
    (e : Link) (t : Tables) → IsLinked t → HasLock t.nodes e → IsLinked (add_edge e t)
unfolding add_edge
add_edge-IsLinked e t w h = elim (Bool-cases (exists_in (same_link e) t.edges)) [
  | inl k ↦ rw k w
  | inr k ↦
      rw k
        (record { creators = w.creators; locks = All-last (HasLock t.nodes) t.edges e w.locks h })
]

add_transactions-IsLinked :
    (txids : List ℕ) (t : Tables) → IsLinked t → IsLinked (add_transactions txids t)
unfolding add_transactions
add_transactions-IsLinked [] t w = w
add_transactions-IsLinked (txid ∷ txids) t w =
    add_transactions-IsLinked txids (add_node (tx_id txid) transaction none t)
      (add_node-IsLinked (tx_id txid) transaction none t w (λ e. cc))

add_address-IsLinked :
    (o : NodeId) (address : Option ℕ) (t : Tables) → IsLinked t → IsLinked (add_address o address t)
unfolding add_address
add_address-IsLinked o none t w = w
add_address-IsLinked o (some a) t w =
    add_edge-IsLinked (link o (address_id a) locked_to none) _
      (add_node-IsLinked (address_id a) address_or_script none t w (λ e. cc))
      (λ e. add_node_known (address_id a) address_or_script none t)

add_outputs-IsLinked :
    (os : List OutputFact) (t : Tables) → IsLinked t → IsLinked (add_outputs os t)
unfolding add_outputs add_output_fact
add_outputs-IsLinked [] t w = w
add_outputs-IsLinked (o ∷ os) t w =
    let tx = tx_id o.txid in
    let id = output_id o.txid o.vout in
    let t1 = add_node tx transaction none t in
    let t2 = add_node id output o.amount_sats t1 in
    let w1 = add_node-IsLinked tx transaction none t w (λ e. cc) in
    let w2 =
      add_node-IsLinked id output o.amount_sats t1 w1 (λ e. add_node_known tx transaction none t) in
    let w3 = add_edge-IsLinked (link tx id creates_output o.amount_sats) t2 w2 (λ e. cc) in
    add_outputs-IsLinked os _ (add_address-IsLinked id o.address _ w3)

add_input_fact-IsLinked :
    (outputs : List OutputFact) (txid : ℕ) (prev vout : Option ℕ) (l : Lineage)
    → IsLinked l.tables
    → IsLinked (add_input_fact outputs txid prev vout l).tables
unfolding add_input_fact spend
add_input_fact-IsLinked outputs txid none vout l w = w
add_input_fact-IsLinked outputs txid (some prev) none l w = w
add_input_fact-IsLinked outputs txid (some prev) (some vout) l w =
    elim (Bool-cases (exists_in (λ (o : OutputFact). o.txid == prev && o.vout == vout) outputs)) [
      | inl e ↦ elim (Bool-cases (other_spender txid (find_first (spends prev vout) l.spenders))) [
        | inl k ↦ rw (e, k) w
        | inr k ↦
            rw (e, k)
              (add_edge-IsLinked (link (output_id prev vout) (tx_id txid) spent_by none) l.tables w
                (λ is_lock. cc))
      ]
      | inr e ↦ rw e w
    ]

add_inputs-IsLinked :
    (outputs : List OutputFact) (is : List InputFact) (l : Lineage)
    → IsLinked l.tables
    → IsLinked (add_inputs outputs is l).tables
unfolding add_inputs
add_inputs-IsLinked outputs [] l w = w
add_inputs-IsLinked outputs (i ∷ is) l w =
    add_inputs-IsLinked outputs is _
      (add_input_fact-IsLinked outputs i.txid i.prev_txid i.prev_vout l w)

pub build-IsLinked : (r : Records) → IsLinked (build r).tables
unfolding build
build-IsLinked r = add_inputs-IsLinked r.outputs r.inputs _ (
    add_outputs-IsLinked r.outputs _
      (add_transactions-IsLinked r.transactions no_tables (record { creators = tt; locks = tt })))
