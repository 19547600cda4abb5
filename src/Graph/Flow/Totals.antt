-- ===== src/Graph/Flow/Totals.antt =====
-- The amounts and counts of the sides of a flow, of app/engine/graph/query.py.
use trace_x.Common.{
  ℕ, suc, ◌+◌, ◌≡◌, ◌∙◌, refl, sym, ap, arith, inl, inr, false, Option, none, some, List, [], ◌∷◌,
  All, subst, length, Bool-cases, Option-cases,
}
use trace_x.Graph.Flow.Model.{
  NodeId, tx_id, output_id, address_id, same_id, Tables, locked_to, spent_by, Counterparty,
  add_amount, upsert, last_to,
}
use trace_x.Graph.Flow.Sides.{
  or_else, new_input, add_input, new_output, add_output, place_inputs, place_outputs, spent_outputs,
  created_outputs, tx_flow,
}
use trace_x.Graph.Flow.Query.{total}

-- The sum of the amounts of outputs; unknown when one of them is.
unfoldable pub sum_of : List (NodeId × Option ℕ) → Option ℕ
sum_of [] = some 0
sum_of ((o, none) ∷ os) = none
sum_of ((o, some n) ∷ os) =
    let rest = sum_of os in elim rest [ none ↦ none | some sum ↦ some (n + sum) ]

unfoldable pub counted : List Counterparty → ℕ
counted [] = 0
counted (c ∷ cs) = c.utxo_count + counted cs

-- Every key stands once.
abbrev pub HasKeys : List Counterparty → Type 0
HasKeys [] = Unit
HasKeys (c ∷ cs) = All (λ (d : Counterparty). same_id d.id c.id ≡ false) cs × HasKeys cs

add_amount_comm : (a b : Option ℕ) → add_amount a b ≡ add_amount b a
add_amount_comm none none = refl
add_amount_comm none (some m) = refl
add_amount_comm (some n) none = refl
add_amount_comm (some n) (some m) = ap some (omega arith)

add_amount_assoc :
    (a b c : Option ℕ) → add_amount (add_amount a b) c ≡ add_amount a (add_amount b c)
add_amount_assoc none b c = refl
add_amount_assoc (some n) none c = refl
add_amount_assoc (some n) (some m) none = refl
add_amount_assoc (some n) (some m) (some k) = ap some (omega arith)

add_amount_zero : (a : Option ℕ) → add_amount (some 0) a ≡ a
add_amount_zero none = refl
add_amount_zero (some n) = ap some (omega arith)

swapped : (a b c : Option ℕ) → add_amount a (add_amount b c) ≡ add_amount b (add_amount a c)
swapped a b c =
    sym (add_amount_assoc a b c)
    ∙ ap (λ x. add_amount x c) (add_amount_comm a b)
    ∙ add_amount_assoc b a c

same_id_sym : (a b : NodeId) → same_id a b ≡ false → same_id b a ≡ false
same_id_sym (tx_id a) (tx_id b) e = ground arith
same_id_sym (output_id a v) (output_id b w) e = ground arith
same_id_sym (address_id a) (address_id b) e = ground arith
same_id_sym (tx_id a) (output_id b w) e = refl
same_id_sym (tx_id a) (address_id b) e = refl
same_id_sym (output_id a v) (tx_id b) e = refl
same_id_sym (output_id a v) (address_id b) e = refl
same_id_sym (address_id a) (tx_id b) e = refl
same_id_sym (address_id a) (output_id b w) e = refl

sum_of_lem :
    (o : NodeId) (amount : Option ℕ) (os : List (NodeId × Option ℕ))
    → add_amount amount (sum_of os) ≡ sum_of ((o, amount) ∷ os)
unfolding sum_of
sum_of_lem o none os = refl
sum_of_lem o (some n) os = elim (Option-cases (sum_of os)) [
  | inl e ↦ rw e refl
  | inr (m, e) ↦ rw e refl
]

module _ (key : NodeId) (new : Counterparty) (change : Counterparty → Counterparty)
    (amount : Option ℕ)
    (adds : (c : Counterparty) → (change c).amount_sats ≡ add_amount c.amount_sats amount)
    (counts : (c : Counterparty) → (change c).utxo_count ≡ c.utxo_count + 1)
    (free : new.amount_sats ≡ some 0) (empty : new.utxo_count ≡ 0) where
  total-upsert :
      (cs : List Counterparty) → total (upsert key new change cs) ≡ add_amount amount (total cs)
  unfolding total upsert
  total-upsert [] =
      ap (λ x. add_amount x (some 0))
        (adds new ∙ ap (λ x. add_amount x amount) free ∙ add_amount_zero amount)
  total-upsert (c ∷ cs) = elim (Bool-cases (same_id c.id key)) [
    | inl e ↦ rw e (
        ap (λ x. add_amount x (total cs)) (adds c ∙ add_amount_comm c.amount_sats amount)
        ∙ add_amount_assoc amount c.amount_sats (total cs))
    | inr e ↦
        rw e (
          ap (add_amount c.amount_sats) (total-upsert cs) ∙ swapped c.amount_sats amount (total cs))
  ]

  counted-upsert : (cs : List Counterparty) → counted (upsert key new change cs) ≡ suc (counted cs)
  unfolding counted upsert
  counted-upsert [] = let h = counts new in omega arith
  counted-upsert (c ∷ cs) = elim (Bool-cases (same_id c.id key)) [
    | inl e ↦ let h = counts c in rw e (omega arith)
    | inr e ↦ let h = counted-upsert cs in rw e (omega arith)
  ]

module _ (key : NodeId) (new : Counterparty) (change : Counterparty → Counterparty)
    (keeps : (c : Counterparty) → (change c).id ≡ c.id) (keyed : new.id ≡ key) where
  All-upsert :
      (k : NodeId) (cs : List Counterparty)
      → same_id key k ≡ false
      → All (λ (d : Counterparty). same_id d.id k ≡ false) cs
      → All (λ (d : Counterparty). same_id d.id k ≡ false) (upsert key new change cs)
  unfolding upsert
  All-upsert k [] away h = (subst (λ i. same_id i k ≡ false) (sym (keeps new ∙ keyed)) away, tt)
  All-upsert k (c ∷ cs) away h = elim (Bool-cases (same_id c.id key)) [
    | inl e ↦ rw e (subst (λ i. same_id i k ≡ false) (sym (keeps c)) h.0, h.1)
    | inr e ↦ rw e (h.0, All-upsert k cs away h.1)
  ]

  upsert-HasKeys : (cs : List Counterparty) → HasKeys cs → HasKeys (upsert key new change cs)
  unfolding upsert
  upsert-HasKeys [] h = (tt, tt)
  upsert-HasKeys (c ∷ cs) h = elim (Bool-cases (same_id c.id key)) [
    | inl e ↦ rw e (
      subst (λ i. All (λ (d : Counterparty). same_id d.id i ≡ false) cs) (sym (keeps c)) h.0,
      h.1,
    )
    | inr e ↦ rw e (All-upsert c.id cs (same_id_sym c.id key e) h.0, upsert-HasKeys cs h.1)
  ]

-- What a side of a flow keeps of the outputs placed in it.
pub record IsBalanced (os : List (NodeId × Option ℕ)) (side : List Counterparty) : Type 0 where
  pub amounts : total side ≡ sum_of os
  pub coins : counted side ≡ length os
  pub keys : HasKeys side

new_input_lem :
    (o : NodeId) (address : Option NodeId)
    → ((new_input o address).id ≡ or_else address o)
      × ((new_input o address).amount_sats ≡ some 0)
      × ((new_input o address).utxo_count ≡ 0)
new_input_lem o none = (refl, refl, refl)
new_input_lem o (some a) = (refl, refl, refl)

new_output_lem :
    (o : NodeId) (address spender : Option NodeId)
    → ((new_output o address spender).id ≡ or_else address o)
      × ((new_output o address spender).amount_sats ≡ some 0)
      × ((new_output o address spender).utxo_count ≡ 0)
new_output_lem o (some a) spender = (refl, refl, refl)
new_output_lem o none none = (refl, refl, refl)
new_output_lem o none (some tx) = (refl, refl, refl)

add_output_lem :
    (spender : Option NodeId) (amount : Option ℕ) (c : Counterparty)
    → ((add_output spender amount c).id ≡ c.id)
      × ((add_output spender amount c).amount_sats ≡ add_amount c.amount_sats amount)
      × ((add_output spender amount c).utxo_count ≡ c.utxo_count + 1)
add_output_lem none amount c = (refl, refl, refl)
add_output_lem (some tx) amount c = (refl, refl, refl)

place_inputs_lem :
    (t : Tables) (os : List (NodeId × Option ℕ)) (cs : List Counterparty)
    → HasKeys cs
    → (total (place_inputs t os cs) ≡ add_amount (sum_of os) (total cs))
      × (counted (place_inputs t os cs) ≡ length os + counted cs)
      × HasKeys (place_inputs t os cs)
unfolding place_inputs
place_inputs_lem t [] cs h = unfold sum_of in (sym (add_amount_zero (total cs)), omega arith, h)
place_inputs_lem t ((o, amount) ∷ os) cs h =
    let address = last_to locked_to o t.edges in
    let key = or_else address o in
    let new = new_input o address in
    let change = add_input o amount in
    let (keyed, free, empty) = new_input_lem o address in
    let up = upsert key new change cs in
    let (sum, count, has) =
      place_inputs_lem t os up (upsert-HasKeys key new change (λ c. refl) keyed cs h) in
    let sum_up = total-upsert key new change amount (λ c. refl) (λ c. refl) free empty cs in
    let count_up = counted-upsert key new change amount (λ c. refl) (λ c. refl) free empty cs in
    (
      sum
          ∙ ap (add_amount (sum_of os)) sum_up
          ∙ swapped (sum_of os) amount (total cs)
          ∙ sym (add_amount_assoc amount (sum_of os) (total cs))
          ∙ ap (λ x. add_amount x (total cs)) (sum_of_lem o amount os),
      omega arith,
      has,
    )

place_outputs_lem :
    (t : Tables) (os : List (NodeId × Option ℕ)) (cs : List Counterparty)
    → HasKeys cs
    → (total (place_outputs t os cs) ≡ add_amount (sum_of os) (total cs))
      × (counted (place_outputs t os cs) ≡ length os + counted cs)
      × HasKeys (place_outputs t os cs)
unfolding place_outputs
place_outputs_lem t [] cs h = unfold sum_of in (sym (add_amount_zero (total cs)), omega arith, h)
place_outputs_lem t ((o, amount) ∷ os) cs h =
    let address = last_to locked_to o t.edges in
    let spender = last_to spent_by o t.edges in
    let key = or_else address o in
    let new = new_output o address spender in
    let change = add_output spender amount in
    let (keyed, free, empty) = new_output_lem o address spender in
    let keeps = λ (c : Counterparty). (add_output_lem spender amount c).0 in
    let adds = λ (c : Counterparty). (add_output_lem spender amount c).1 in
    let counts = λ (c : Counterparty). (add_output_lem spender amount c).2 in
    let up = upsert key new change cs in
    let (sum, count, has) =
      place_outputs_lem t os up (upsert-HasKeys key new change keeps keyed cs h) in
    let sum_up = total-upsert key new change amount adds counts free empty cs in
    let count_up = counted-upsert key new change amount adds counts free empty cs in
    (
      sum
          ∙ ap (add_amount (sum_of os)) sum_up
          ∙ swapped (sum_of os) amount (total cs)
          ∙ sym (add_amount_assoc amount (sum_of os) (total cs))
          ∙ ap (λ x. add_amount x (total cs)) (sum_of_lem o amount os),
      omega arith,
      has,
    )

add_amount_nothing : (a : Option ℕ) → add_amount a (some 0) ≡ a
add_amount_nothing a = add_amount_comm a (some 0) ∙ add_amount_zero a

-- On each side of the flow of a transaction the amounts of the entries sum to those of the outputs that
-- the transaction spent, or created, and are unknown when one of these is; the counts of the entries
-- sum to the number of those outputs; and no id stands twice.
pub tx_flow-IsBalanced :
    (t : Tables) (tx : NodeId)
    → IsBalanced (spent_outputs t tx) (tx_flow t tx).0
      × IsBalanced (created_outputs t tx) (tx_flow t tx).1
unfolding tx_flow total counted
tx_flow-IsBalanced t tx =
    let (a, c, k) = place_inputs_lem t (spent_outputs t tx) [] tt in
    let (a', c', k') = place_outputs_lem t (created_outputs t tx) [] tt in
    (
      record { amounts = a ∙ add_amount_nothing _; coins = omega arith; keys = k },
      record { amounts = a' ∙ add_amount_nothing _; coins = omega arith; keys = k' },
    )
