-- ===== src/Common/Select.antt =====
-- What `select` keeps, and what `exists_in` and `find_first` find.
use mathlib.Core.Path.{◌≡◌, refl, subst}
use mathlib.Core.Logic.{◌⊎◌, inl, inr}
use mathlib.Core.Bool.{Bool, true, false}
use mathlib.Core.Option.{some}
use mathlib.Core.List.{List, [], ◌∷◌}
use native.Mathlib.Omega.{arith}
use trace_x.Common.Tests.{Bool-cases}
use trace_x.Common.Lists.{select, exists_in, find_first, All, Any, All-mono}

module _ {ℓ} {A : Type ℓ} (p : A → Bool) where
  pub All-select : (xs : List A) → All (λ x. p x ≡ true) (select p xs)
  unfolding select
  All-select [] = tt
  All-select (x ∷ xs) = elim (Bool-cases (p x)) [
    | inl e ↦ rw e (e, All-select xs)
    | inr e ↦ rw e (All-select xs)
  ]

  pub All-kept {κ} : (P : A → Type κ) (xs : List A) → All P xs → All P (select p xs)
  unfolding select
  All-kept P [] h = tt
  All-kept P (x ∷ xs) h = elim (Bool-cases (p x)) [
    | inl e ↦ rw e (h.0, All-kept P xs h.1)
    | inr e ↦ rw e (All-kept P xs h.1)
  ]

  pub All-of-select {κ} :
      (P : A → Type κ) (xs : List A) → All P (select p xs) → All (λ x. p x ≡ true → P x) xs
  unfolding select
  All-of-select P [] h = tt
  All-of-select P (x ∷ xs) h = elim (Bool-cases (p x)) [
    | inl e ↦ let h' : P x × All P (select p xs) = rw e at h in (λ _. h'.0, All-of-select P xs h'.1)
    | inr e ↦ (λ here. cc, All-of-select P xs (rw e at h))
  ]

  pub Any-of-select : (P : A → Type 0) (xs : List A) → Any P (select p xs) → Any P xs
  unfolding select
  Any-of-select P [] m = m
  Any-of-select P (x ∷ xs) m = elim (Bool-cases (p x)) [
    | inl e ↦
        let m' : P x ⊎ Any P (select p xs) = rw e at m in
        elim m' [ inl h ↦ inl h | inr h ↦ inr (Any-of-select P xs h) ]
    | inr e ↦ inr (Any-of-select P xs (rw e at m))
  ]

  pub Any-select :
      (P : A → Type 0) (xs : List A) → ((x : A) → P x → p x ≡ true) → Any P xs → Any P (select p xs)
  unfolding select
  Any-select P [] h m = m
  Any-select P (x ∷ xs) h (inl here) = rw (h x here) (inl here)
  Any-select P (x ∷ xs) h (inr there) = elim (Bool-cases (p x)) [
    | inl e ↦ rw e (inr (Any-select P xs h there))
    | inr e ↦ rw e (Any-select P xs h there)
  ]

  -- Nothing is found exactly when every element fails the test.
  pub exists_in-false : (xs : List A) → exists_in p xs ≡ false → All (λ x. p x ≡ false) xs
  unfolding exists_in
  exists_in-false [] e = tt
  exists_in-false (x ∷ xs) e = (ground arith, exists_in-false xs (ground arith))

  pub not_exists_in : (xs : List A) → All (λ x. p x ≡ false) xs → exists_in p xs ≡ false
  unfolding exists_in
  not_exists_in [] h = refl
  not_exists_in (x ∷ xs) h = ground (arith, h.0, not_exists_in xs h.1)

  pub exists_in-Any : (xs : List A) → exists_in p xs ≡ true → Any (λ x. p x ≡ true) xs
  unfolding exists_in
  exists_in-Any [] e = absurd (cc)
  exists_in-Any (x ∷ xs) e = elim (Bool-cases (p x)) [
    | inl here ↦ inl here
    | inr there ↦ inr (exists_in-Any xs (ground arith))
  ]

module _ {A : Type 0} (p : A → Bool) where
  pub find_first-Any :
      (xs : List A) {a : A} → find_first p xs ≡ some a → Any (λ x. x ≡ a) xs × (p a ≡ true)
  unfolding find_first
  find_first-Any [] e = cc
  find_first-Any (x ∷ xs) {a} e = elim (Bool-cases (p x)) [
    | inl here ↦
        let is_x : x ≡ a = cc (rw here at e) in (inl is_x, subst (λ r. p r ≡ true) is_x here)
    | inr there ↦ let (m, h) = find_first-Any xs (rw there at e) in (inr m, h)
  ]

pub All-self : {A : Type 0} (xs : List A) → All (λ x. Any (λ y. y ≡ x) xs) xs
All-self [] = tt
All-self (x ∷ xs) = (inl refl, All-mono xs (λ y m. inr m) (All-self xs))
