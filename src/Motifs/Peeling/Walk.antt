-- ===== src/Motifs/Peeling/Walk.antt =====
-- Walks are bounded, follow hops, and fall in value.
use trace_x.Common.{
  ℕ, zero, suc, ◌≤◌, ◌<◌, ◌≡◌, refl, sym, ap, subst, inl, inr, true, false, Option, none, some,
  List, [], ◌∷◌, arith, length, All, Any, All-mono, Option-cases,
}
use trace_x.Motifs.Model.{Outpoint, Output, same_outpoint, outpoint_of, output_at}
use trace_x.Motifs.Peeling.{Facts, output, Hop, peeling_hop, WalkStep, step_at, walk_from}
use trace_x.Motifs.Peeling.Continuation.{IsHop, peeling_hop-IsHop}

abbrev pub hop_of : WalkStep → Hop
hop_of step = record { spending_txid = step.spending_txid; continuation = step.continuation }

abbrev pub next_of : Option Output → Option Outpoint
next_of none = none
next_of (some c) = some (outpoint_of c)

-- Each entry is the hop from where the walk stands, and the walk goes on at its continuation.
abbrev pub IsWalk : Facts → Option Outpoint → List WalkStep → Type 0
IsWalk f o [] = Unit
IsWalk f o (step ∷ rest) =
    (o ≡ some step.at) × IsHop f step.at (hop_of step) × IsWalk f (next_of step.continuation) rest

-- What `walk_from` does at a hop, by its continuation.
walk_from_end :
    (f : Facts) (hops : ℕ) (o : Outpoint) (h : Hop)
    → peeling_hop f o ≡ some h
    → h.continuation ≡ none
    → walk_from f (suc hops) o ≡ step_at o h ∷ []
unfolding walk_from
walk_from_end f hops o h e c = rw (e, walk_from) (rw c)

walk_from_next :
    (f : Facts) (hops : ℕ) (o : Outpoint) (h : Hop) (c : Output)
    → peeling_hop f o ≡ some h
    → h.continuation ≡ some c
    → walk_from f (suc hops) o ≡ step_at o h ∷ walk_from f hops (outpoint_of c)
unfolding walk_from
walk_from_next f hops o h c e is_c = rw (e, walk_from) (rw is_c)

walk_from-none :
    (f : Facts) (hops : ℕ) (o : Outpoint) → peeling_hop f o ≡ none → walk_from f (suc hops) o ≡ []
unfolding walk_from
walk_from-none f hops o e = rw (e, walk_from)

walk_from-zero : (f : Facts) (o : Outpoint) → walk_from f zero o ≡ []
unfolding walk_from
walk_from-zero f o = refl

-- To prove something of every walk: the empty one, a last step, and a step before a walk from its
-- continuation.
pub walk_ind {ℓ} :
    (f : Facts) (P : Outpoint → ℕ → List WalkStep → Type ℓ)
    → ((o : Outpoint) (hops : ℕ) → P o hops [])
    → ((o : Outpoint) (hops : ℕ) (h : Hop)
        → IsHop f o h
        → h.continuation ≡ none
        → P o (suc hops) (step_at o h ∷ []))
    → ((o : Outpoint) (hops : ℕ) (h : Hop) (c : Output) (rest : List WalkStep)
        → IsHop f o h
        → h.continuation ≡ some c
        → P (outpoint_of c) hops rest
        → P o (suc hops) (step_at o h ∷ rest))
    → (hops : ℕ) (o : Outpoint) → P o hops (walk_from f hops o)
walk_ind f P empty last step zero o = rw (walk_from-zero f o) (empty o 0)
walk_ind f P empty last step (suc hops) o = elim (Option-cases (peeling_hop f o)) [
  | inl none_left ↦ rw (walk_from-none f hops o none_left) (empty o (suc hops))
  | inr (h, e) ↦ elim (Option-cases h.continuation) [
    | inl done ↦ rw (walk_from_end f hops o h e done) (last o hops h (peeling_hop-IsHop f o e) done)
    | inr (c, is_c) ↦ rw (walk_from_next f hops o h c e is_c) (
        step o hops h c (walk_from f hops (outpoint_of c)) (peeling_hop-IsHop f o e) is_c
          (walk_ind f P empty last step hops (outpoint_of c)))
  ]
]

-- A walk from an output has at most `hops` entries, and each is the hop from where the entry before
-- it went on.
pub walk_from-IsWalk :
    (f : Facts) (hops : ℕ) (o : Outpoint)
    → (length (walk_from f hops o) ≤ hops) × IsWalk f (some o) (walk_from f hops o)
walk_from-IsWalk f =
    walk_ind f (λ o hops walk. (length walk ≤ hops) × IsWalk f (some o) walk)
      (λ o hops. (omega arith, tt)) (λ o hops h is_hop done. (omega arith, (refl, is_hop, tt)))
      (λ o hops h c rest is_hop is_c ih. (
        omega (arith, ih.0),
        (refl, is_hop, subst (λ n. IsWalk f n rest) (sym (ap next_of is_c)) ih.1),
      ))

-- No two outputs share a transaction and an index.
abbrev pub DistinctOutpoints : List Output → Type 0
DistinctOutpoints [] = Unit
DistinctOutpoints (x ∷ xs) =
    All (λ y. same_outpoint (outpoint_of y) (outpoint_of x) ≡ false) xs × DistinctOutpoints xs

same_outpoint_refl : (o : Outpoint) → same_outpoint o o ≡ true
same_outpoint_refl o = ground arith

output_at-absent :
    (xs : List Output) (o : Outpoint)
    → All (λ y. same_outpoint (outpoint_of y) o ≡ false) xs
    → output_at xs o ≡ none
unfolding output_at
output_at-absent [] o h = refl
output_at-absent (x ∷ xs) o h = rw (output_at-absent xs o h.1, output_at) (rw h.0)

output_at-held :
    (xs : List Output) (c : Output)
    → DistinctOutpoints xs
    → Any (λ x. x ≡ c) xs
    → output_at xs (outpoint_of c) ≡ some c
unfolding output_at
output_at-held [] c d m = absurd m
output_at-held (x ∷ xs) c d (inl is_c) =
    subst (λ k. output_at (x ∷ xs) (outpoint_of k) ≡ some k) is_c
      (rw (output_at-absent xs (outpoint_of x) d.0, output_at)
        (rw (same_outpoint_refl (outpoint_of x))))
output_at-held (x ∷ xs) c d (inr m) = rw (output_at-held xs c d.1 m, output_at)

abbrev pub amount : Option Output → ℕ
amount none = 0
amount (some p) = p.amount_sats

-- The value of the output that a step spends.
abbrev pub value_at : Facts → Outpoint → ℕ
value_at f o = amount (output f o)

abbrev pub IsFalling : Facts → List WalkStep → Type 0
IsFalling f [] = Unit
IsFalling f (step ∷ rest) =
    All (λ (later : WalkStep). value_at f later.at < value_at f step.at) rest × IsFalling f rest

-- Where the outputs of the snapshot have distinct outpoints, the values of the outputs that a walk
-- spends fall strictly, so it never spends one output twice.
pub walk_from-IsFalling :
    (f : Facts) (hops : ℕ) (o : Outpoint)
    → DistinctOutpoints f.outputs
    → IsFalling f (walk_from f hops o)
walk_from-IsFalling f hops o d = falls.1
  where
    lower :
        (o : Outpoint) (h : Hop) (c : Output)
        → IsHop f o h
        → h.continuation ≡ some c
        → value_at f (outpoint_of c) < value_at f o
    lower o h c is_hop is_c =
        let next = is_hop.goes_on c is_c in
        omega (
          arith,
          next.smaller,
          ap amount (output_at-held f.outputs c d next.held),
          ap amount is_hop.previous_is,
        )

    falls :
        All (λ (step : WalkStep). value_at f step.at ≤ value_at f o) (walk_from f hops o)
        × IsFalling f (walk_from f hops o)
    falls =
        walk_ind f
          (λ o hops walk.
            All (λ (step : WalkStep). value_at f step.at ≤ value_at f o) walk × IsFalling f walk)
          (λ o hops. (tt, tt)) (λ o hops h is_hop done. ((omega arith, tt), (tt, tt)))
          (λ o hops h c rest is_hop is_c ih.
            let drop = lower o h c is_hop is_c in
            (
              (omega arith, All-mono rest (λ step le. omega (arith, drop)) ih.0),
              (All-mono rest (λ step le. omega (arith, drop)) ih.0, ih.1),
            ))
          hops o
