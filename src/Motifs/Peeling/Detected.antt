-- ===== src/Motifs/Peeling/Detected.antt =====
-- The result of `detect_peeling_chains` as a whole.
use trace_x.Common.{
  ℕ, ◌≤◌, ◌≡◌, sym, ◌∙◌, ap, subst, inl, inr, true, ◌||◌, some, List, [], ◌∷◌, arith, ltb,
  exists_in, length, All, Any, All-mono, All-Any, Bool-cases, Option-cases, select,
}
use trace_x.Common.Select.{exists_in-Any, All-of-select, All-self}
use trace_x.Common.Sort.{sort_by, All-of-sort_by}
use trace_x.Motifs.Model.{Outpoint, Input, same_outpoint, spends}
use trace_x.Motifs.Spenders.{is_some, spends_it}
use trace_x.Motifs.Resolved.{spender_of-IsResolved}
use trace_x.Motifs.Peeling.{
  Facts, spender, walk_from, txids_of, Signal, emit, starts, named_outpoints, outpoint_le,
  detect_peeling_chains,
}
use trace_x.Motifs.Peeling.Walk.{IsWalk, walk_from-IsWalk}
use trace_x.Motifs.Peeling.Emitted.{
  emit_from, emit-eq-emit_from, IsSignal, emit_from-IsSignal, DistinctWalks,
  emit_from-DistinctWalks, emit_from-IsReported, IsReported, ReportsLong,
}

same_outpoint-eq : (a b : Outpoint) → same_outpoint a b ≡ true → a ≡ b
same_outpoint-eq a b h = ground arith

Any-map :
    {A : Type 0} {P Q : A → Type 0} (xs : List A) → ((x : A) → P x → Q x) → Any P xs → Any Q xs
Any-map [] f m = m
Any-map (x ∷ xs) f (inl h) = inl (f x h)
Any-map (x ∷ xs) f (inr m) = inr (Any-map xs f m)

named_outpoints-held :
    (xs : List Input) (o : Outpoint)
    → Any (λ j. spends_it o j ≡ true) xs
    → Any (λ p. p ≡ o) (named_outpoints xs)
unfolding named_outpoints
named_outpoints-held [] o m = m
named_outpoints-held (x ∷ xs) o m = elim (Option-cases (spends x)) [
  | inl unnamed ↦
      rw (unnamed, named_outpoints)
        (elim m [
          | inl here ↦ absurd (cc (rw unnamed at here))
          | inr there ↦ named_outpoints-held xs o there
        ])
  | inr (p, named) ↦ elim (Bool-cases (exists_in (same_outpoint p) (named_outpoints xs))) [
    | inl before ↦
        rw (named, named_outpoints)
          (rw before (elim m [
            | inl here ↦
                let is_o : p ≡ o = same_outpoint-eq p o (rw named at here) in
                Any-map (named_outpoints xs)
                  (λ q (h : same_outpoint p q ≡ true). sym (same_outpoint-eq p q h) ∙ is_o)
                  (exists_in-Any (same_outpoint p) (named_outpoints xs) before)
            | inr there ↦ named_outpoints-held xs o there
          ]))
    | inr fresh ↦
        rw (named, named_outpoints)
          (rw fresh (elim m [
            | inl here ↦ inl (same_outpoint-eq p o (rw named at here))
            | inr there ↦ inr (named_outpoints-held xs o there)
          ]))
  ]
]

starts-held :
    (f : Facts) (o : Outpoint) {i : Input} → spender f o ≡ some i → Any (λ p. p ≡ o) (starts f)
unfolding starts
starts-held f o {i} e =
    let resolved = spender_of-IsResolved f.inputs f.outputs o e in
    let named = named_outpoints f.inputs in
    let is_start = λ (p : Outpoint). is_some (spender f p) in
    let sorted = sort_by outpoint_le (select is_start named) in
    let in_starts = λ (p : Outpoint). Any (λ q. q ≡ p) sorted in
    let spent : is_some (spender f o) ≡ true = ap is_some e in
    let all_starts =
      All-of-select is_start in_starts named
        (All-of-sort_by outpoint_le in_starts (select is_start named) (All-self sorted)) in
    All-Any (λ p. is_start p ≡ true → in_starts p) named all_starts
      (named_outpoints-held f.inputs o (
        Any-map f.inputs
          (λ j (h : j ≡ i). subst (λ k. spends_it o k ≡ true) (sym h) resolved.spending)
          resolved.held))
      spent

-- What the detector returns: bounded walks that follow hops from an output, long enough, no two of
-- them with the same transactions.
pub record IsDetected (f : Facts) (max_hops min_chain_length : ℕ) (signals : List Signal)
    : Type 0 where
  pub bounded_hops : 1 ≤ max_hops
  pub bounded_length : 1 ≤ min_chain_length
  pub walks :
      All
        (λ (s : Signal).
          (min_chain_length ≤ length s.walk)
          × (length s.walk ≤ max_hops)
          × IsWalk f (some s.start) s.walk)
        signals
  pub distinct : DistinctWalks f max_hops min_chain_length signals

accepted :
    (f : Facts) (max_hops min_chain_length : ℕ) {signals : List Signal}
    → detect_peeling_chains f max_hops min_chain_length ≡ some signals
    → (1 ≤ max_hops)
      × (1 ≤ min_chain_length)
      × (emit_from f max_hops min_chain_length [] (starts f) ≡ signals)
unfolding detect_peeling_chains
accepted f max_hops min_chain_length {signals} e =
    elim (Bool-cases (ltb max_hops 1 || ltb min_chain_length 1)) [
      | inl refused ↦ absurd (cc (rw refused at e))
      | inr kept ↦
          let is_emit : emit f max_hops min_chain_length [] [] (starts f) ≡ signals =
            cc (rw kept at e) in
          (
            ground (arith, kept),
            ground (arith, kept),
            sym (emit-eq-emit_from f max_hops min_chain_length [] [] (starts f) tt) ∙ is_emit,
          )
    ]

-- A result of the detector: both bounds are at least 1, each signal is a walk that follows hops from
-- its start, with at least `min_chain_length` and at most `max_hops` entries, and no two signals take
-- the same transactions.
pub detect_peeling_chains-IsDetected :
    (f : Facts) (max_hops min_chain_length : ℕ) {signals : List Signal}
    → detect_peeling_chains f max_hops min_chain_length ≡ some signals
    → IsDetected f max_hops min_chain_length signals
detect_peeling_chains-IsDetected f max_hops min_chain_length {signals} e =
    let (hops, long, same) = accepted f max_hops min_chain_length e in
    record {
      bounded_hops = hops;
      bounded_length = long;
      walks =
          All-mono signals
            (λ s (h : IsSignal f max_hops min_chain_length [] s).
              let (short, follows) =
                subst (λ w. (length w ≤ max_hops) × IsWalk f (some s.start) w) (sym h.walked)
                  (walk_from-IsWalk f max_hops s.start) in
              (h.long, short, follows))
            (subst (All (IsSignal f max_hops min_chain_length [])) same
              (emit_from-IsSignal f max_hops min_chain_length [] (starts f)));
      distinct =
          subst (DistinctWalks f max_hops min_chain_length) same
            (emit_from-DistinctWalks f max_hops min_chain_length [] (starts f));
    }

-- A result of the detector misses no chain: where an output has a resolved spender and the walk from
-- it is long enough, some signal takes the walk's transactions.
pub detect_peeling_chains_complete :
    (f : Facts) (max_hops min_chain_length : ℕ) (o : Outpoint) {i : Input} {signals : List Signal}
    → detect_peeling_chains f max_hops min_chain_length ≡ some signals
    → spender f o ≡ some i
    → min_chain_length ≤ length (walk_from f max_hops o)
    → Any (λ (s : Signal). txids_of s.walk ≡ txids_of (walk_from f max_hops o)) signals
detect_peeling_chains_complete f max_hops min_chain_length o {i} {signals} e spent long =
    let (_, _, same) = accepted f max_hops min_chain_length e in
    let reports =
      subst (ReportsLong f max_hops min_chain_length [] (starts f)) same
        (emit_from-IsReported f max_hops min_chain_length [] (starts f)) in
    elim (All-Any
      (λ (p : Outpoint).
        min_chain_length ≤ length (walk_from f max_hops p)
        → IsReported f max_hops min_chain_length [] signals p)
      (starts f) reports (starts-held f o spent) long) [
        | inl before ↦ absurd before
        | inr reported ↦ reported
      ]
