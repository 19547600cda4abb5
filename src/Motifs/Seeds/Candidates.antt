-- ===== src/Motifs/Seeds/Candidates.antt =====
-- The candidates of a seed against what the spends reach.
use trace_x.Common.{
  ℕ, zero, suc, ◌+◌, ◌≤◌, ◌<◌, ◌≡◌, refl, sym, ◌∙◌, ap, subst, ◌⊎◌, inl, inr, Bool, true, Option,
  none, some, List, [], ◌∷◌, map, arith, ◌==◌, ==_iff, ==_refl, All, Any, Bool-cases,
}
use trace_x.Common.Select.{All-select, All-kept, All-self, Any-select}
use trace_x.Motifs.Model.{Output}
use trace_x.Motifs.Peeling.{Facts}
use trace_x.Motifs.Seeds.{
  Seed, Candidate, direct, address_of, is_at, outputs_at, Frontier, next_frontier, paths,
  candidates_from, first_frontier, candidates_of_seed,
}
use trace_x.Motifs.Seeds.Reach.{
  Reach, here, hop, IsEntry, All-append, Any-left, Any-right, next_frontier-IsEntry,
  next_frontier-held,
}

-- The candidate stands where the spends lead.
pub record IsReached (f : Facts) (address max_depth : ℕ) (c : Candidate) : Type 0 where
  pub output : Output
  pub reached : Reach f address c.distance output
  pub located : address_of output ≡ some c.entity
  pub bounded : c.distance ≤ max_depth

abbrev pub IsCandidateAt : (entity distance : ℕ) → Candidate → Type 0
IsCandidateAt entity distance c = (c.entity ≡ entity) × (c.distance ≡ distance)

-- The frontier holds what the spends reach in `n` steps.
record IsFrontier (f : Facts) (address n : ℕ) (frontier : Frontier) : Type 0 where
  entries : All (IsEntry f address n) frontier
  complete : (o : Output) → Reach f address n o → Any (λ (e : Output × Candidate). e.0 ≡ o) frontier

next-IsFrontier :
    (f : Facts) (address seed_id n : ℕ) (frontier : Frontier)
    → IsFrontier f address n frontier
    → IsFrontier f address (suc n) (next_frontier f seed_id (suc n) frontier)
next-IsFrontier f address seed_id n frontier v = record {
  entries = next_frontier-IsEntry f address seed_id n frontier v.entries;
  complete = λ o r. behind o r;
}
  where
    behind :
        (o : Output)
        → Reach f address (suc n) o
        → Any (λ (e : Output × Candidate). e.0 ≡ o) (next_frontier f seed_id (suc n) frontier)
    behind x (hop n o next i target r s held same at) =
        next_frontier-held f address seed_id n frontier o next i target (v.complete o r) s held same
          at

paths-IsReached :
    (f : Facts) (address n max_depth : ℕ) (frontier : Frontier)
    → n ≤ max_depth
    → All (IsEntry f address n) frontier
    → All (IsReached f address max_depth) (paths frontier)
paths-IsReached f address n max_depth [] le h = tt
paths-IsReached f address n max_depth ((o, c) ∷ rest) le h = (
  record {
    output = o;
    reached = subst (λ d. Reach f address d o) (sym h.0.far) h.0.reached;
    located = h.0.located;
    bounded = omega (arith, h.0.far, le);
  },
  paths-IsReached f address n max_depth rest le h.1,
)

paths-held :
    (f : Facts) (address n entity : ℕ) (o : Output) (frontier : Frontier)
    → All (IsEntry f address n) frontier
    → Any (λ (e : Output × Candidate). e.0 ≡ o) frontier
    → address_of o ≡ some entity
    → Any (IsCandidateAt entity n) (paths frontier)
paths-held f address n entity o [] h m at = absurd m
paths-held f address n entity o ((x, c) ∷ rest) h (inl is_o) at =
    let same : some c.entity ≡ some entity = sym h.0.located ∙ ap address_of is_o ∙ at in
    inl (cc, h.0.far)
paths-held f address n entity o ((x, c) ∷ rest) h (inr m) at =
    inr (paths-held f address n entity o rest h.1 m at)

candidates_from-IsReached :
    (f : Facts) (address seed_id max_depth left n : ℕ) (frontier : Frontier)
    → n + left ≤ max_depth
    → IsFrontier f address n frontier
    → All (IsReached f address max_depth) (candidates_from f seed_id left n frontier)
unfolding candidates_from
candidates_from-IsReached f address seed_id max_depth zero n frontier le v = tt
candidates_from-IsReached f address seed_id max_depth (suc left) n frontier le v =
    let next = next_frontier f seed_id (suc n) frontier in
    let v' = next-IsFrontier f address seed_id n frontier v in
    All-append (IsReached f address max_depth) (paths next)
      (candidates_from f seed_id left (suc n) next)
      (paths-IsReached f address (suc n) max_depth next (omega (arith, le)) v'.entries)
      (candidates_from-IsReached f address seed_id max_depth left (suc n) next (omega (arith, le))
        v')

candidates_from-held :
    (f : Facts) (address seed_id entity m left n : ℕ) (o : Output) (frontier : Frontier)
    → n < m
    → m ≤ n + left
    → Reach f address m o
    → address_of o ≡ some entity
    → IsFrontier f address n frontier
    → Any (IsCandidateAt entity m) (candidates_from f seed_id left n frontier)
unfolding candidates_from
candidates_from-held f address seed_id entity m zero n o frontier lt le r at v =
    absurd (omega (arith, lt, le))
candidates_from-held f address seed_id entity m (suc left) n o frontier lt le r at v =
    let next = next_frontier f seed_id (suc n) frontier in
    let v' = next-IsFrontier f address seed_id n frontier v in
    let rest = candidates_from f seed_id left (suc n) next in
    elim (Bool-cases (m == suc n)) [
      | inl now ↦
          let is_n : suc n ≡ m = sym ((==_iff m (suc n)).0 now) in
          Any-left (IsCandidateAt entity m) (paths next) rest (
            subst (λ d. Any (IsCandidateAt entity d) (paths next)) is_n
              (paths-held f address (suc n) entity o next v'.entries
                (v'.complete o (subst (λ d. Reach f address d o) (sym is_n) r)) at))
      | inr later ↦ Any-right (IsCandidateAt entity m) (paths next) rest (
          candidates_from-held f address seed_id entity m left (suc n) o next
            (ground (arith, lt, later)) (omega (arith, le)) r at v')
    ]

is_at-some : (address : ℕ) (a : Option ℕ) → is_at address a ≡ true → a ≡ some address
is_at-some address none e = absurd (cc)
is_at-some address (some x) e = ap some ((==_iff x address).0 e)

first-IsFrontier : (f : Facts) (seed : Seed) → IsFrontier f seed.address 0 (first_frontier f seed)
first-IsFrontier f seed = record {
  entries =
      starts (outputs_at f seed.address) (All-kept at_seed _ f.outputs (All-self f.outputs))
        (All-select at_seed f.outputs);
  complete = λ o r. among o r;
}
  where
    at_seed : Output → Bool
    at_seed o = is_at seed.address (address_of o)

    starts :
        (os : List Output)
        → All (λ x. Any (λ y. y ≡ x) f.outputs) os
        → All (λ x. is_at seed.address (address_of x) ≡ true) os
        → All (IsEntry f seed.address 0) (map (λ o. (o, direct seed)) os)
    starts [] h k = tt
    starts (o ∷ os) h k =
        let at = is_at-some seed.address (address_of o) k.0 in
        (record { reached = here o h.0 at; located = at; far = refl }, starts os h.1 k.1)

    paired :
        (os : List Output) (o : Output)
        → Any (λ x. x ≡ o) os
        → Any (λ (e : Output × Candidate). e.0 ≡ o) (map (λ x. (x, direct seed)) os)
    paired [] o m = m
    paired (x ∷ xs) o (inl e) = inl e
    paired (x ∷ xs) o (inr m) = inr (paired xs o m)

    among :
        (o : Output)
        → Reach f seed.address 0 o
        → Any (λ (e : Output × Candidate). e.0 ≡ o) (first_frontier f seed)
    among x (here o m at) = paired (outputs_at f seed.address) o (
        Any-select at_seed (λ x. x ≡ o) f.outputs
          (λ x e.
            ap (λ r. is_at seed.address (address_of r)) e
            ∙ ap (is_at seed.address) at
            ∙ ==_refl seed.address)
          m)

-- What is known of a candidate of a seed: it is the seed itself, or the spends reach it.
abbrev pub IsOfSeed : Facts → Seed → (max_depth : ℕ) → Candidate → Type 0
IsOfSeed f seed max_depth c =
    ((c.entity ≡ seed.address) × (c.distance ≡ 0)) ⊎ IsReached f seed.address max_depth c

reached-IsOfSeed :
    (f : Facts) (seed : Seed) (max_depth : ℕ) (cs : List Candidate)
    → All (IsReached f seed.address max_depth) cs
    → All (IsOfSeed f seed max_depth) cs
reached-IsOfSeed f seed max_depth [] h = tt
reached-IsOfSeed f seed max_depth (c ∷ cs) h = (inr h.0, reached-IsOfSeed f seed max_depth cs h.1)

pub candidates_of_seed-IsOfSeed :
    (f : Facts) (max_depth : ℕ) (seed : Seed)
    → All (IsOfSeed f seed max_depth) (candidates_of_seed f max_depth seed)
unfolding candidates_of_seed
candidates_of_seed-IsOfSeed f max_depth seed = (
  inl (refl, refl),
  reached-IsOfSeed f seed max_depth _ (
      candidates_from-IsReached f seed.address seed.id max_depth max_depth 0 (first_frontier f seed)
        (omega arith) (first-IsFrontier f seed)),
)

-- Every output within the depth that spends lead to from the seed gives a candidate at its distance.
pub candidates_of_seed-held :
    (f : Facts) (max_depth : ℕ) (seed : Seed) (m entity : ℕ) (o : Output)
    → Reach f seed.address m o
    → m ≤ max_depth
    → address_of o ≡ some entity
    → Any (IsCandidateAt entity m) (candidates_of_seed f max_depth seed)
unfolding candidates_of_seed
candidates_of_seed-held f max_depth seed m entity o r le at = by m refl
  where
    by :
        (k : ℕ)
        → m ≡ k
        → Any
            (IsCandidateAt entity m)
            (direct seed ∷ candidates_from f seed.id max_depth 0 (first_frontier f seed))
    by zero e = inl (seed_at (subst (λ d. Reach f seed.address d o) e r), sym e)
      where
        seed_at : Reach f seed.address 0 o → seed.address ≡ entity
        seed_at (here x h k) = let same : some seed.address ≡ some entity = sym k ∙ at in cc
    by (suc k) e = inr (
        candidates_from-held f seed.address seed.id entity m max_depth 0 o (first_frontier f seed)
          (omega (arith, e)) (omega (arith, le)) r at (first-IsFrontier f seed))
