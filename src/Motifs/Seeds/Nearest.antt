-- ===== src/Motifs/Seeds/Nearest.antt =====
-- The result of `propagate_synthetic_review_seeds` as a whole.
use trace_x.Common.{
  ℕ, ◌≤◌, ◌≡◌, inl, inr, Bool, true, some, List, [], ◌∷◌, map, length, All, Any, All-mono,
  Bool-cases,
}
use trace_x.Common.Sort.{sort_by, All-sort_by, All-of-sort_by}
use trace_x.Motifs.Model.{Output}
use trace_x.Motifs.Peeling.{Facts}
use trace_x.Motifs.Seeds.{
  Seed, Candidate, address_of, candidates_of_seed, put_all, propagate, support_of, Proximity,
  entity_le, propagate_synthetic_review_seeds,
}
use trace_x.Motifs.Seeds.Reach.{Reach}
use trace_x.Motifs.Seeds.Candidates.{IsOfSeed, candidates_of_seed-IsOfSeed}
use trace_x.Motifs.Seeds.Best.{IsDecay, put_all-All, propagate-Covers}

-- The entry is a synthetic seed, or verified spends lead to it from one.
abbrev pub HasSeed : Facts → (max_depth : ℕ) → List Seed → Candidate → Type 0
HasSeed f max_depth seeds c =
    Any (λ (s : Seed). (s.synthetic ≡ true) × IsOfSeed f s max_depth c) seeds

module _ (f : Facts) (max_depth : ℕ) (score : ℕ → ℕ) where
  all_of :
      (P : Candidate → Type 0) (s : Seed) (cs : List Candidate)
      → ((c : Candidate) → IsOfSeed f s max_depth c → P c)
      → All (IsOfSeed f s max_depth) cs
      → All P cs
  all_of P s [] k h = tt
  all_of P s (c ∷ cs) k h = (k c h.0, all_of P s cs k h.1)

  propagate-All :
      (P : Candidate → Type 0) (seeds : List Seed) (best : List Candidate)
      → ((c : Candidate) → HasSeed f max_depth seeds c → P c)
      → All P best
      → All P (propagate f max_depth score seeds best)
  unfolding propagate
  propagate-All P [] best k h = h
  propagate-All P (s ∷ ss) best k h = elim (Bool-cases s.synthetic) [
    | inl so ↦ rw so (
        propagate-All P ss (put_all score (candidates_of_seed f max_depth s) best)
          (λ c m. k c (inr m))
          (put_all-All score P (candidates_of_seed f max_depth s) best
            (all_of P s (candidates_of_seed f max_depth s) (λ c q. k c (inl (so, q)))
              (candidates_of_seed-IsOfSeed f max_depth s))
            h))
    | inr real ↦ rw real (propagate-All P ss best (λ c m. k c (inr m)) h)
  ]

into : {A : Type 0} (P : A → Type 0) (xs : List A) → All (λ x. P x → Any P xs) xs
into P [] = tt
into P (x ∷ xs) = ((λ p. inl p), All-mono xs (λ y k p. inr (k p)) (into P xs))

from_any :
    {A : Type 0} (P : A → Type 0) (Q : Type 0) (xs : List A) → All (λ x. P x → Q) xs → Any P xs → Q
from_any P Q [] h m = absurd m
from_any P Q (x ∷ xs) h (inl p) = h.0 p
from_any P Q (x ∷ xs) h (inr m) = from_any P Q xs h.1 m

Any-sort_by :
    {A : Type 0} (le : A → A → Bool) (P : A → Type 0) (xs : List A)
    → Any P xs
    → Any P (sort_by le xs)
Any-sort_by le P xs m =
    from_any P (Any P (sort_by le xs)) xs
      (All-of-sort_by le (λ x. P x → Any P (sort_by le xs)) xs (into P (sort_by le xs))) m

module _ (f : Facts) (max_depth : ℕ) (score : ℕ → ℕ) (seeds : List Seed) where
  abbrev entry : Candidate → Proximity
  entry c = record { nearest = c; risk_seed_count = length (support_of f max_depth c.entity seeds) }

  map-All :
      (P : Candidate → Type 0) (cs : List Candidate)
      → All P cs
      → All (λ (p : Proximity). P p.nearest) (map entry cs)
  map-All P [] h = tt
  map-All P (c ∷ cs) h = (h.0, map-All P cs h.1)

  map-Any :
      (P : Candidate → Type 0) (cs : List Candidate)
      → Any P cs
      → Any (λ (p : Proximity). P p.nearest) (map entry cs)
  map-Any P [] m = m
  map-Any P (c ∷ cs) (inl h) = inl h
  map-Any P (c ∷ cs) (inr m) = inr (map-Any P cs m)

  -- Every entry of the result is the address of a synthetic seed, or verified spends lead to its
  -- address from one, in as many steps as its distance and within the depth.
  pub propagate_synthetic_review_seeds-HasSeed :
      All
        (λ (p : Proximity). HasSeed f max_depth seeds p.nearest)
        (propagate_synthetic_review_seeds f max_depth score seeds)
  unfolding propagate_synthetic_review_seeds
  propagate_synthetic_review_seeds-HasSeed =
      map-All (HasSeed f max_depth seeds) (sort_by entity_le (propagate f max_depth score seeds []))
        (All-sort_by entity_le (HasSeed f max_depth seeds) (propagate f max_depth score seeds [])
          (propagate-All f max_depth score (HasSeed f max_depth seeds) seeds [] (λ c m. m) tt))

  -- Where verified spends lead from a synthetic seed to an output within the depth, the result has
  -- its address at no greater distance, if the score never grows with the distance.
  pub propagate_synthetic_review_seeds_complete :
      (seed : Seed) (m entity : ℕ) (o : Output)
      → IsDecay score
      → Any (λ s. s ≡ seed) seeds
      → seed.synthetic ≡ true
      → Reach f seed.address m o
      → m ≤ max_depth
      → address_of o ≡ some entity
      → Any
          (λ (p : Proximity). (p.nearest.entity ≡ entity) × (p.nearest.distance ≤ m))
          (propagate_synthetic_review_seeds f max_depth score seeds)
  unfolding propagate_synthetic_review_seeds
  propagate_synthetic_review_seeds_complete seed m entity o decay held synthetic r le at =
      let near = λ (b : Candidate). (b.entity ≡ entity) × (b.distance ≤ m) in
      map-Any near (sort_by entity_le (propagate f max_depth score seeds [])) (
        Any-sort_by entity_le near (propagate f max_depth score seeds []) (
          propagate-Covers score decay f max_depth seed seeds [] m entity o held synthetic r le at))
