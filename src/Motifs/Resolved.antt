-- ===== src/Motifs/Resolved.antt =====
-- A resolved spender is the one spender of a supplied output.
use trace_x.Common.{
  ℕ, ◌≤◌, ◌≡◌, refl, sym, ◌∙◌, subst, inl, inr, ◌⊎◌, true, false, some, List, [], ◌∷◌, arith, ltb,
  select, exists_in, All, Any, All-mono, All-Any, Bool-cases,
}
use trace_x.Common.Select.{
  All-of-select, All-select, All-kept, Any-of-select, Any-select, exists_in-false, not_exists_in,
}
use trace_x.Motifs.Model.{Outpoint, Output, Input, output_at}
use trace_x.Motifs.Spenders.{
  is_some, spends_it, candidates_of, earlier, lowest_vin, other_tx, choose, spender_of,
}

-- The input spends a supplied output, no other transaction does, and no input of it that does comes
-- earlier.
pub record IsResolved (inputs : List Input) (outputs : List Output) (o : Outpoint) (i : Input)
    : Type 0 where
  pub supplied : is_some (output_at outputs o) ≡ true
  pub held : Any (λ j. j ≡ i) inputs
  pub spending : spends_it o i ≡ true
  pub only : All (λ j. spends_it o j ≡ true → (j.txid ≡ i.txid) × (i.vin ≤ j.vin)) inputs

earlier_lem :
    (best x : Input)
    → ((earlier best x ≡ x) ⊎ (earlier best x ≡ best))
      × ((earlier best x).vin ≤ best.vin)
      × ((earlier best x).vin ≤ x.vin)
earlier_lem best x = elim (Bool-cases (ltb x.vin best.vin)) [
  | inl e ↦ rw e (inl refl, ground (arith, e), omega arith)
  | inr e ↦ rw e (inr refl, omega arith, ground (arith, e))
]

-- The lowest of some inputs is one of them.
lowest_vin_lem :
    (best : Input) (xs : List Input)
    → Any (λ j. j ≡ lowest_vin best xs) (best ∷ xs)
      × All (λ j. (lowest_vin best xs).vin ≤ j.vin) (best ∷ xs)
unfolding lowest_vin
lowest_vin_lem best [] = (inl refl, (omega arith, tt))
lowest_vin_lem best (x ∷ xs) =
    let (which, le_best, le_x) = earlier_lem best x in
    let (member, lowest) = lowest_vin_lem (earlier best x) xs in
    (
      elim member [
        | inl e ↦ elim which [
          | inl is_x ↦ inr (inl (sym is_x ∙ e))
          | inr is_best ↦ inl (sym is_best ∙ e)
        ]
        | inr m ↦ inr (inr m)
      ],
      (omega (arith, lowest.0), (omega (arith, lowest.0), lowest.1)),
    )

record IsChosen (xs : List Input) (i : Input) : Type 0 where
  held : Any (λ j. j ≡ i) xs
  only : All (λ j. (j.txid ≡ i.txid) × (i.vin ≤ j.vin)) xs

both {ℓ κ} :
    {A : Type 0} (P : A → Type ℓ) (Q : A → Type κ) (xs : List A)
    → All P xs
    → All Q xs
    → All (λ x. P x × Q x) xs
both P Q [] h k = tt
both P Q (x ∷ xs) h k = ((h.0, k.0), both P Q xs h.1 k.1)

other_tx-false : (txid : ℕ) (j : Input) → other_tx txid j ≡ false → j.txid ≡ txid
other_tx-false txid j e = ground arith

choose-IsChosen : (xs : List Input) {i : Input} → choose xs ≡ some i → IsChosen xs i
choose-IsChosen [] e = absurd (cc)
choose-IsChosen (x ∷ xs) {i} e = elim (Bool-cases (exists_in (other_tx x.txid) xs)) [
  | inl conflict ↦ absurd (cc (rw conflict at e))
  | inr agreed ↦
      let is_i : lowest_vin x xs ≡ i = cc (rw agreed at e) in
      let (member, lowest) = lowest_vin_lem x xs in
      let held = subst (λ k. Any (λ j. j ≡ k) (x ∷ xs)) is_i member in
      let same : All (λ (j : Input). j.txid ≡ x.txid) (x ∷ xs) = (
        refl,
        All-mono xs (λ j. other_tx-false x.txid j) (exists_in-false (other_tx x.txid) xs agreed),
      ) in
      let i_tx : i.txid ≡ x.txid = All-Any (λ j. j.txid ≡ x.txid) (x ∷ xs) same held in
      record {
        held = held;
        only =
            both (λ j. j.txid ≡ i.txid) (λ j. i.vin ≤ j.vin) (x ∷ xs)
              (All-mono (x ∷ xs) (λ j (h : j.txid ≡ x.txid). h ∙ sym i_tx) same)
              (subst (λ (k : Input). All (λ (j : Input). k.vin ≤ j.vin) (x ∷ xs)) is_i lowest);
      }
]

supplied_of :
    (inputs : List Input) (outputs : List Output) (o : Outpoint) {i : Input}
    → choose (candidates_of inputs outputs o) ≡ some i
    → (is_some (output_at outputs o) ≡ true) × (choose (select (spends_it o) inputs) ≡ some i)
unfolding candidates_of
supplied_of inputs outputs o e = elim (Bool-cases (is_some (output_at outputs o))) [
  | inl have ↦ (have, rw (have, candidates_of) at e)
  | inr lack ↦ absurd (cc (rw (lack, candidates_of) at e))
]

-- A resolved spender is an input of the one transaction that spends the output, which is supplied;
-- none of its inputs that spends the output comes earlier.
pub spender_of-IsResolved :
    (inputs : List Input) (outputs : List Output) (o : Outpoint) {i : Input}
    → spender_of inputs outputs o ≡ some i
    → IsResolved inputs outputs o i
unfolding spender_of
spender_of-IsResolved inputs outputs o {i} e =
    let (supplied, chosen) = supplied_of inputs outputs o e in
    let c = choose-IsChosen (select (spends_it o) inputs) chosen in
    record {
      supplied = supplied;
      held = Any-of-select (spends_it o) (λ j. j ≡ i) inputs c.held;
      spending =
          All-Any (λ j. spends_it o j ≡ true) (select (spends_it o) inputs)
            (All-select (spends_it o) inputs) c.held;
      only = All-of-select (spends_it o) (λ j. (j.txid ≡ i.txid) × (i.vin ≤ j.vin)) inputs c.only;
    }

choose-agreed :
    (xs : List Input) (txid : ℕ)
    → Any (λ (j : Input). Unit {0}) xs
    → All (λ (j : Input). j.txid ≡ txid) xs
    → is_some (choose xs) ≡ true
choose-agreed [] txid m same = absurd m
choose-agreed (x ∷ xs) txid m same =
    let agreed =
      not_exists_in (other_tx x.txid) xs
        (All-mono xs (λ (j : Input) (h : j.txid ≡ txid). ground (arith, same.0)) same.1) in
    rw agreed

-- An output that is supplied and spent, by one transaction only, has a resolved spender.
pub spender_of_complete :
    (inputs : List Input) (outputs : List Output) (o : Outpoint) (txid : ℕ)
    → is_some (output_at outputs o) ≡ true
    → Any (λ j. spends_it o j ≡ true) inputs
    → All (λ j. spends_it o j ≡ true → j.txid ≡ txid) inputs
    → is_some (spender_of inputs outputs o) ≡ true
unfolding spender_of candidates_of
spender_of_complete inputs outputs o txid supplied spent same =
    let kept = select (spends_it o) inputs in
    rw supplied (
      choose-agreed kept txid
        (Any_mono kept
          (Any-select (spends_it o) (λ j. spends_it o j ≡ true) inputs (λ j h. h) spent))
        (applied kept
          (both _ _ kept (All-kept (spends_it o) _ inputs same) (All-select (spends_it o) inputs))))
  where
    Any_mono :
        (xs : List Input) → Any (λ j. spends_it o j ≡ true) xs → Any (λ (j : Input). Unit {0}) xs
    Any_mono [] m = m
    Any_mono (x ∷ xs) (inl h) = inl tt
    Any_mono (x ∷ xs) (inr m) = inr (Any_mono xs m)

    applied :
        (xs : List Input)
        → All (λ j. (spends_it o j ≡ true → j.txid ≡ txid) × (spends_it o j ≡ true)) xs
        → All (λ (j : Input). j.txid ≡ txid) xs
    applied xs h = All-mono xs (λ j k. k.0 k.1) h
