-- ===== src/Ingestion/Receipts.antt =====
-- Receipts of a batch: _commit_batch of app/engine/ingestion/pipeline.py adds one for each record type.
use trace_x.Common.{
  ℕ, ◌+◌, ◌<◌, ◌≡◌, ◌∙◌, refl, sym, ap, subst, arith, inl, inr, true, false, List, [], ◌∷◌, ◌++◌,
  map, ◌==◌, select, exists_in, All, All-mono, Bool-cases, Option-cases,
}
use trace_x.Common.Select.{not_exists_in}
use mathlib.Core.List.{append-nil, append_assoc}
use trace_x.Canonical.Facts.{Transaction, Facts}
use trace_x.Ingestion.Model.{Work}
use trace_x.Ingestion.Store.{
  Content, record_type, record_count, Fragment, same_place, contents, fragments, add_receipts,
  last_batch, next_of, transactions_of, transactions_in,
}

pub transactions_in-append :
    (fs gs : List Fragment) → transactions_in (fs ++ gs) ≡ transactions_in fs ++ transactions_in gs
unfolding transactions_in
transactions_in-append [] gs = refl
transactions_in-append (f ∷ fs) gs =
    ap (λ ts. transactions_of f.content ++ ts) (transactions_in-append fs gs)
    ∙ sym (append_assoc (transactions_of f.content) (transactions_in fs) (transactions_in gs))

no_transactions : (c : Content) → (record_count c == 0) ≡ true → transactions_of c ≡ []
no_transactions (Content.transactions []) e = refl
no_transactions (Content.transactions (t ∷ ts)) e = absurd (ground (arith, e))
no_transactions (Content.inputs xs) e = refl
no_transactions (Content.outputs xs) e = refl
no_transactions (Content.network_observations xs) e = refl
no_transactions (Content.quarantine xs) e = refl

abbrev of_contents : List Content → List Transaction
of_contents [] = []
of_contents (c ∷ cs) = transactions_of c ++ of_contents cs

transactions_in-fragments :
    (n : ℕ) (cs : List Content) → transactions_in (fragments n cs) ≡ of_contents cs
unfolding transactions_in fragments select
transactions_in-fragments n [] = refl
transactions_in-fragments n (c ∷ cs) = elim (Bool-cases (record_count c == 0)) [
  | inl nothing ↦ rw nothing (
      transactions_in-fragments n cs
      ∙ ap (λ ts. ts ++ of_contents cs) (sym (no_transactions c nothing)))
  | inr filled ↦ rw filled (ap (λ ts. transactions_of c ++ ts) (transactions_in-fragments n cs))
]

-- The transactions of a batch are those of its accepted records.
pub batch_transactions :
    (n : ℕ) (w : Work)
    → transactions_in (fragments n (contents w)) ≡ map (λ (f : Facts). f.transaction) w.accepted
batch_transactions n w =
    transactions_in-fragments n (contents w)
    ∙ append-nil (map (λ (f : Facts). f.transaction) w.accepted)

-- No receipt stands where the contents go.
abbrev pub Free : ℕ → List Content → List Fragment → Type 0
Free n cs rs =
    All
      (λ (g : Fragment).
        All (λ c. same_place (record { logical_batch = n; content = c }) g ≡ false) cs)
      rs

abbrev pub DistinctTypes : List Content → Type 0
DistinctTypes [] = Unit
DistinctTypes (c ∷ cs) = All (λ d. (record_type d == record_type c) ≡ false) cs × DistinctTypes cs

pub All-append :
    {A : Type 0} (P : A → Type 0) (xs ys : List A) → All P xs → All P ys → All P (xs ++ ys)
All-append P [] ys h k = k
All-append P (x ∷ xs) ys h k = (h.0, All-append P xs ys h.1 k)

pub Free-tail :
    (n : ℕ) (c : Content) (cs : List Content) (rs : List Fragment)
    → Free n (c ∷ cs) rs
    → Free n cs rs
Free-tail n c cs rs h =
    All-mono
      {P = λ (g : Fragment).
        All (λ d. same_place (record { logical_batch = n; content = d }) g ≡ false) (c ∷ cs)}
      rs (λ g k. k.1) h

pub Free-head :
    (n : ℕ) (c : Content) (cs : List Content) (rs : List Fragment)
    → Free n (c ∷ cs) rs
    → exists_in (same_place (record { logical_batch = n; content = c })) rs ≡ false
Free-head n c cs rs h = not_exists_in (same_place (record { logical_batch = n; content = c })) rs (
    All-mono
      {P = λ (g : Fragment).
        All (λ d. same_place (record { logical_batch = n; content = d }) g ≡ false) (c ∷ cs)}
      rs (λ g k. k.0) h)

pub same_batch :
    (n : ℕ) (c d : Content)
    → (record_type d == record_type c) ≡ false
    → same_place
        (record { logical_batch = n; content = d })
        (record { logical_batch = n; content = c })
      ≡ false
same_batch n c d h = ground (arith, h)

add_receipts-fragments :
    (n : ℕ) (cs : List Content) (rs : List Fragment)
    → DistinctTypes cs
    → Free n cs rs
    → add_receipts rs (fragments n cs) ≡ rs ++ fragments n cs
unfolding add_receipts fragments select
add_receipts-fragments n [] rs d h = sym (append-nil rs)
add_receipts-fragments n (c ∷ cs) rs d h = elim (Bool-cases (record_count c == 0)) [
  | inl nothing ↦ rw nothing (add_receipts-fragments n cs rs d.1 (Free-tail n c cs rs h))
  | inr filled ↦
      let f : Fragment = record { logical_batch = n; content = c } in
      rw filled (
        rw (Free-head n c cs rs h) (
          add_receipts-fragments n cs (rs ++ f ∷ []) d.1 (
            All-append _ rs (f ∷ []) (Free-tail n c cs rs h)
              (All-mono cs (λ e k. same_batch n c e k) d.0, tt))
          ∙ append_assoc rs (f ∷ []) (fragments n cs)))
]

abbrev pub Below : ℕ → List Fragment → Type 0
Below n rs = All (λ (g : Fragment). g.logical_batch < n) rs

pub contents-DistinctTypes : (w : Work) → DistinctTypes (contents w)
contents-DistinctTypes w = (
  (refl, (refl, (refl, (refl, tt)))),
  ((refl, (refl, (refl, tt))), ((refl, (refl, tt)), ((refl, tt), (tt, tt)))),
)

pub Below-Free : (n : ℕ) (cs : List Content) (rs : List Fragment) → Below n rs → Free n cs rs
Below-Free n cs rs h = All-mono rs (λ g lt. every g lt cs) h
  where
    every :
        (g : Fragment)
        → g.logical_batch < n
        → (cs : List Content)
        → All (λ c. same_place (record { logical_batch = n; content = c }) g ≡ false) cs
    every g lt [] = tt
    every g lt (c ∷ cs) = (ground (arith, lt), every g lt cs)

-- The receipts of a new batch stand behind the others.
pub add_receipts-batch :
    (n : ℕ) (w : Work) (rs : List Fragment)
    → Below n rs
    → add_receipts rs (fragments n (contents w)) ≡ rs ++ fragments n (contents w)
add_receipts-batch n w rs h =
    add_receipts-fragments n (contents w) rs (contents-DistinctTypes w)
      (Below-Free n (contents w) rs h)

fragments-Below : (n : ℕ) (cs : List Content) → Below (n + 1) (fragments n cs)
unfolding fragments select
fragments-Below n [] = tt
fragments-Below n (c ∷ cs) = elim (Bool-cases (record_count c == 0)) [
  | inl nothing ↦ rw nothing (fragments-Below n cs)
  | inr filled ↦ rw filled (omega arith, fragments-Below n cs)
]

pub Below-batch :
    (n : ℕ) (w : Work) (rs : List Fragment)
    → Below n rs
    → Below (n + 1) (rs ++ fragments n (contents w))
Below-batch n w rs h =
    All-append _ rs (fragments n (contents w)) (All-mono rs (λ g lt. omega arith) h)
      (fragments-Below n (contents w))

pub Below-next : (rs : List Fragment) → Below (next_of (last_batch rs)) rs
unfolding last_batch
Below-next [] = tt
Below-next (f ∷ fs) = elim (Option-cases (last_batch fs)) [
  | inl nothing ↦
      rw (nothing, last_batch)
        (
          omega arith,
          All-mono fs (λ g lt. absurd (omega (arith, lt)))
              (subst (λ o. Below (next_of o) fs) nothing (Below-next fs)),
        )
  | inr (n, found) ↦
      rw (found, last_batch)
        (
          ground arith,
          All-mono fs (λ g lt. ground (arith, lt))
              (subst (λ o. Below (next_of o) fs) found (Below-next fs)),
        )
]
