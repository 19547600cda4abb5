-- ===== src/Motifs/Peeling/Emitted.antt =====
-- Which walks `detect_peeling_chains` emits.
use trace_x.Common.{
  ℕ, ◌≤◌, ◌≡◌, refl, sym, subst, ◌⊎◌, inl, inr, true, false, List, [], ◌∷◌, arith, if◌then◌else◌,
  exists_in, length, All, Any, All-mono, Bool-cases, ==_refl,
}
use trace_x.Common.Select.{exists_in-Any}
use trace_x.Motifs.Model.{Outpoint}
use trace_x.Motifs.Peeling.{
  Facts, WalkStep, walk_from, HopCache, walk_cached, txids_of, same_ids, Signal, dropped, emit,
}
use trace_x.Motifs.Peeling.Cache.{IsHopCache, walk_cached-eq-walk_from}

same_ids-eq : (xs ys : List ℕ) → same_ids xs ys ≡ true → xs ≡ ys
unfolding same_ids
same_ids-eq [] [] e = refl
same_ids-eq [] (y ∷ ys) e = absurd (cc)
same_ids-eq (x ∷ xs) [] e = absurd (cc)
same_ids-eq (x ∷ xs) (y ∷ ys) e = ground (arith, same_ids-eq xs ys)

same_ids_refl : (xs : List ℕ) → same_ids xs xs ≡ true
unfolding same_ids
same_ids_refl [] = refl
same_ids_refl (x ∷ xs) = rw (==_refl x, same_ids_refl xs)

module _ (f : Facts) (max_hops min_chain_length : ℕ) where
  -- The outer loop with the walks taken afresh.
  unfoldable pub emit_from : List (List ℕ) → List Outpoint → List Signal
  emit_from emitted [] = []
  emit_from emitted (o ∷ os) =
      let walk = walk_from f max_hops o in
      let skip = emit_from emitted os in
      let keep = emit_from (txids_of walk ∷ emitted) os in
      if dropped min_chain_length emitted walk
      then skip
      else record { start = o; walk = walk } ∷ keep

  pub emit-eq-emit_from :
      (emitted : List (List ℕ)) (cache : HopCache) (os : List Outpoint)
      → IsHopCache f cache
      → emit f max_hops min_chain_length emitted cache os ≡ emit_from emitted os
  unfolding emit emit_from
  emit-eq-emit_from emitted cache [] v = refl
  emit-eq-emit_from emitted cache (o ∷ os) v =
      let (same, v') = walk_cached-eq-walk_from f max_hops cache o v in
      let skip = emit-eq-emit_from emitted (walk_cached f max_hops cache o).1 os v' in
      let keep =
        emit-eq-emit_from (txids_of (walk_from f max_hops o) ∷ emitted)
          (walk_cached f max_hops cache o).1 os v' in
      rw (same, skip, keep)

  -- A signal is the walk from one of the starts; it is long enough and not among the emitted.
  pub record IsSignal (emitted : List (List ℕ)) (s : Signal) : Type 0 where
    pub walked : s.walk ≡ walk_from f max_hops s.start
    pub long : min_chain_length ≤ length s.walk
    pub fresh : exists_in (same_ids (txids_of s.walk)) emitted ≡ false

  not_dropped :
      (emitted : List (List ℕ)) (walk : List WalkStep)
      → dropped min_chain_length emitted walk ≡ false
      → (min_chain_length ≤ length walk) × (exists_in (same_ids (txids_of walk)) emitted ≡ false)
  not_dropped emitted walk e = ground arith

  fresh-tail :
      (ids x : List ℕ) (emitted : List (List ℕ))
      → exists_in (same_ids ids) (x ∷ emitted) ≡ false
      → (same_ids ids x ≡ false) × (exists_in (same_ids ids) emitted ≡ false)
  unfolding exists_in
  fresh-tail ids x emitted e = ground arith

  pub emit_from-IsSignal :
      (emitted : List (List ℕ)) (os : List Outpoint) → All (IsSignal emitted) (emit_from emitted os)
  unfolding emit_from
  emit_from-IsSignal emitted [] = tt
  emit_from-IsSignal emitted (o ∷ os) =
      let walk = walk_from f max_hops o in
      elim (Bool-cases (dropped min_chain_length emitted walk)) [
        | inl out ↦ rw out (emit_from-IsSignal emitted os)
        | inr kept ↦
            let (long, fresh) = not_dropped emitted walk kept in
            rw kept (
              record { walked = refl; long = long; fresh = fresh },
              All-mono (emit_from (txids_of walk ∷ emitted) os)
                  (λ s (h : IsSignal (txids_of walk ∷ emitted) s). record {
                    walked = h.walked;
                    long = h.long;
                    fresh = (fresh-tail (txids_of s.walk) (txids_of walk) emitted h.fresh).1;
                  })
                  (emit_from-IsSignal (txids_of walk ∷ emitted) os),
            )
      ]

  -- No two signals take the same transactions.
  abbrev pub DistinctWalks : List Signal → Type 0
  DistinctWalks [] = Unit
  DistinctWalks (s ∷ ss) =
      All (λ (t : Signal). same_ids (txids_of t.walk) (txids_of s.walk) ≡ false) ss
      × DistinctWalks ss

  pub emit_from-DistinctWalks :
      (emitted : List (List ℕ)) (os : List Outpoint) → DistinctWalks (emit_from emitted os)
  unfolding emit_from
  emit_from-DistinctWalks emitted [] = tt
  emit_from-DistinctWalks emitted (o ∷ os) =
      let walk = walk_from f max_hops o in
      elim (Bool-cases (dropped min_chain_length emitted walk)) [
        | inl out ↦ rw out (emit_from-DistinctWalks emitted os)
        | inr kept ↦ rw kept (
          All-mono (emit_from (txids_of walk ∷ emitted) os)
              (λ s (h : IsSignal (txids_of walk ∷ emitted) s).
                (fresh-tail (txids_of s.walk) (txids_of walk) emitted h.fresh).0)
              (emit_from-IsSignal (txids_of walk ∷ emitted) os),
          emit_from-DistinctWalks (txids_of walk ∷ emitted) os,
        )
      ]

  -- The walk's transactions are among those emitted before or those of a signal.
  abbrev pub IsReported : List (List ℕ) → List Signal → Outpoint → Type 0
  IsReported emitted signals o =
      Any (λ ids. same_ids (txids_of (walk_from f max_hops o)) ids ≡ true) emitted
      ⊎ Any (λ (s : Signal). txids_of s.walk ≡ txids_of (walk_from f max_hops o)) signals

  dropped-cases :
      (emitted : List (List ℕ)) (walk : List WalkStep)
      → dropped min_chain_length emitted walk ≡ true
      → min_chain_length ≤ length walk
      → exists_in (same_ids (txids_of walk)) emitted ≡ true
  dropped-cases emitted walk e long = ground arith

  emit_from_skip :
      (emitted : List (List ℕ)) (o : Outpoint) (os : List Outpoint)
      → dropped min_chain_length emitted (walk_from f max_hops o) ≡ true
      → emit_from emitted (o ∷ os) ≡ emit_from emitted os
  unfolding emit_from
  emit_from_skip emitted o os e = rw e refl

  emit_from_keep :
      (emitted : List (List ℕ)) (o : Outpoint) (os : List Outpoint)
      → dropped min_chain_length emitted (walk_from f max_hops o) ≡ false
      → emit_from emitted (o ∷ os)
        ≡ record { start = o; walk = walk_from f max_hops o }
          ∷ emit_from (txids_of (walk_from f max_hops o) ∷ emitted) os
  unfolding emit_from
  emit_from_keep emitted o os e = rw e refl

  abbrev pub ReportsLong : List (List ℕ) → List Outpoint → List Signal → Type 0
  ReportsLong emitted os signals =
      All
        (λ (o : Outpoint).
          min_chain_length ≤ length (walk_from f max_hops o) → IsReported emitted signals o)
        os

  pub emit_from-IsReported :
      (emitted : List (List ℕ)) (os : List Outpoint) → ReportsLong emitted os (emit_from emitted os)
  emit_from-IsReported emitted [] = tt
  emit_from-IsReported emitted (o ∷ os) =
      let walk = walk_from f max_hops o in
      elim (Bool-cases (dropped min_chain_length emitted walk)) [
        | inl out ↦ subst (ReportsLong emitted (o ∷ os)) (sym (emit_from_skip emitted o os out)) (
          λ long. inl (
              exists_in-Any (same_ids (txids_of walk)) emitted
                (dropped-cases emitted walk out long)),
          emit_from-IsReported emitted os,
        )
        | inr kept ↦ subst (ReportsLong emitted (o ∷ os)) (sym (emit_from_keep emitted o os kept)) (
          λ _. inr (inl refl),
          All-mono os
              (λ p h long. elim (h long) [
                | inl (inl same) ↦ inr (
                    inl
                      (sym (same_ids-eq (txids_of (walk_from f max_hops p)) (txids_of walk) same)))
                | inl (inr before) ↦ inl before
                | inr later ↦ inr (inr later)
              ])
              (emit_from-IsReported (txids_of walk ∷ emitted) os),
        )
      ]
