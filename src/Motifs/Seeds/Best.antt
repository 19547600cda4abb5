-- ===== src/Motifs/Seeds/Best.antt =====
-- The best candidate of each entity is a nearest one.
use trace_x.Common.{
  ℕ, ◌≤◌, ◌≡◌, refl, sym, ◌∙◌, ap, subst, inl, inr, Bool, true, false, some, List, [], ◌∷◌, arith,
  ◌==◌, ==_iff, ltb, if◌then◌else◌, All, Any, Bool-cases,
}
use trace_x.Motifs.Model.{Output}
use trace_x.Motifs.Peeling.{Facts}
use trace_x.Motifs.Seeds.{
  Seed, Candidate, address_of, candidates_of_seed, improves, put_best, put_all, propagate,
}
use trace_x.Motifs.Seeds.Reach.{Reach}
use trace_x.Motifs.Seeds.Candidates.{IsCandidateAt, candidates_of_seed-held}

-- The score never grows with the distance.
abbrev pub IsDecay : (ℕ → ℕ) → Type 0
IsDecay score = (d e : ℕ) → d ≤ e → score e ≤ score d

-- The entity has a best candidate within the distance.
abbrev pub Covers : (entity distance : ℕ) → List Candidate → Type 0
Covers entity distance best =
    Any (λ (b : Candidate). (b.entity ≡ entity) × (b.distance ≤ distance)) best

module _ (score : ℕ → ℕ) where
  put_best-All :
      (P : Candidate → Type 0) (c : Candidate) (best : List Candidate)
      → P c
      → All P best
      → All P (put_best score c best)
  unfolding put_best
  put_best-All P c [] p h = (p, tt)
  put_best-All P c (old ∷ best) p h = elim (Bool-cases (old.entity == c.entity)) [
    | inr other ↦ rw other (h.0, put_best-All P c best p h.1)
    | inl same ↦ rw same (chosen (improves score c old), h.1)
  ]
    where
      chosen : (b : Bool) → P (if b then c else old)
      chosen true = p
      chosen false = h.0

  pub put_all-All :
      (P : Candidate → Type 0) (cs best : List Candidate)
      → All P cs
      → All P best
      → All P (put_all score cs best)
  unfolding put_all
  put_all-All P [] best h k = k
  put_all-All P (c ∷ cs) best h k =
      put_all-All P cs (put_best score c best) h.1 (put_best-All P c best h.0 k)

module _ (score : ℕ → ℕ) (decay : IsDecay score) where
  improves-nearer : (c old : Candidate) → improves score c old ≡ true → c.distance ≤ old.distance
  improves-nearer c old e = elim (Bool-cases (ltb old.distance c.distance)) [
    | inr near ↦ ground (arith, near)
    | inl farther ↦
        absurd (ground (arith, e, farther, decay old.distance c.distance (ground (arith, farther))))
  ]

  improves-not : (c old : Candidate) → improves score c old ≡ false → old.distance ≤ c.distance
  improves-not c old e = elim (Bool-cases (ltb c.distance old.distance)) [
    | inr near ↦ ground (arith, near)
    | inl nearer ↦
        absurd (ground (arith, e, nearer, decay c.distance old.distance (ground (arith, nearer))))
  ]

  put_best-Covers :
      (c : Candidate) (best : List Candidate) → Covers c.entity c.distance (put_best score c best)
  unfolding put_best
  put_best-Covers c [] = inl (refl, omega arith)
  put_best-Covers c (old ∷ best) = elim (Bool-cases (old.entity == c.entity)) [
    | inr other ↦ rw other (inr (put_best-Covers c best))
    | inl same ↦ rw same (inl (chosen (improves score c old) refl same))
  ]
    where
      chosen :
          (b : Bool)
          → improves score c old ≡ b
          → (old.entity == c.entity) ≡ true
          → ((if b then c else old).entity ≡ c.entity)
            × ((if b then c else old).distance ≤ c.distance)
      chosen true e same = (refl, omega arith)
      chosen false e same = ((==_iff old.entity c.entity).0 same, improves-not c old e)

  put_best-keeps :
      (entity distance : ℕ) (c : Candidate) (best : List Candidate)
      → Covers entity distance best
      → Covers entity distance (put_best score c best)
  unfolding put_best
  put_best-keeps entity distance c [] m = absurd m
  put_best-keeps entity distance c (old ∷ best) (inr m) =
      elim (Bool-cases (old.entity == c.entity)) [
        | inr other ↦ rw other (inr (put_best-keeps entity distance c best m))
        | inl same ↦ rw same (inr m)
      ]
  put_best-keeps entity distance c (old ∷ best) (inl h) =
      elim (Bool-cases (old.entity == c.entity)) [
        | inr other ↦ rw other (inl h)
        | inl same ↦ rw same (inl (chosen (improves score c old) refl same))
      ]
    where
      chosen :
          (b : Bool)
          → improves score c old ≡ b
          → (old.entity == c.entity) ≡ true
          → ((if b then c else old).entity ≡ entity) × ((if b then c else old).distance ≤ distance)
      chosen true e same = (
        sym ((==_iff old.entity c.entity).0 same) ∙ h.0,
        omega (arith, improves-nearer c old e, h.1),
      )
      chosen false e same = h

  put_all-keeps :
      (entity distance : ℕ) (cs best : List Candidate)
      → Covers entity distance best
      → Covers entity distance (put_all score cs best)
  unfolding put_all
  put_all-keeps entity distance [] best m = m
  put_all-keeps entity distance (c ∷ cs) best m =
      put_all-keeps entity distance cs (put_best score c best)
        (put_best-keeps entity distance c best m)

  put_all-Covers :
      (entity distance : ℕ) (cs best : List Candidate)
      → Any (IsCandidateAt entity distance) cs
      → Covers entity distance (put_all score cs best)
  unfolding put_all
  put_all-Covers entity distance [] best m = absurd m
  put_all-Covers entity distance (c ∷ cs) best (inl h) =
      put_all-keeps entity distance cs (put_best score c best) (
        subst (λ e. Covers e distance (put_best score c best)) h.0
          (subst (λ d. Covers c.entity d (put_best score c best)) h.1 (put_best-Covers c best)))
  put_all-Covers entity distance (c ∷ cs) best (inr m) =
      put_all-Covers entity distance cs (put_best score c best) m

  module _ (f : Facts) (max_depth : ℕ) where
    propagate-keeps :
        (entity distance : ℕ) (seeds : List Seed) (best : List Candidate)
        → Covers entity distance best
        → Covers entity distance (propagate f max_depth score seeds best)
    unfolding propagate
    propagate-keeps entity distance [] best m = m
    propagate-keeps entity distance (s ∷ ss) best m = elim (Bool-cases s.synthetic) [
      | inl so ↦ rw so (
          propagate-keeps entity distance ss _
            (put_all-keeps entity distance (candidates_of_seed f max_depth s) best m))
      | inr real ↦ rw real (propagate-keeps entity distance ss best m)
    ]

    -- Where verified spends lead from a synthetic seed to an output within the depth, its address has
    -- a best candidate that is at most as far, if the score never grows with the distance.
    pub propagate-Covers :
        (seed : Seed) (seeds : List Seed) (best : List Candidate) (m entity : ℕ) (o : Output)
        → Any (λ s. s ≡ seed) seeds
        → seed.synthetic ≡ true
        → Reach f seed.address m o
        → m ≤ max_depth
        → address_of o ≡ some entity
        → Covers entity m (propagate f max_depth score seeds best)
    unfolding propagate
    propagate-Covers seed [] best m entity o held synthetic r le at = absurd held
    propagate-Covers seed (s ∷ ss) best m entity o (inl is_seed) synthetic r le at =
        let so : s.synthetic ≡ true = ap (λ (x : Seed). x.synthetic) is_seed ∙ synthetic in
        rw so (
          propagate-keeps entity m ss _ (
            put_all-Covers entity m (candidates_of_seed f max_depth s) best (
              subst (λ (x : Seed). Any (IsCandidateAt entity m) (candidates_of_seed f max_depth x))
                (sym is_seed) (candidates_of_seed-held f max_depth seed m entity o r le at))))
    propagate-Covers seed (s ∷ ss) best m entity o (inr later) synthetic r le at =
        elim (Bool-cases s.synthetic) [
          | inl so ↦ rw so (
              propagate-Covers seed ss (put_all score (candidates_of_seed f max_depth s) best) m
                entity o later synthetic r le at)
          | inr real ↦ rw real (propagate-Covers seed ss best m entity o later synthetic r le at)
        ]
