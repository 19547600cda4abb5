-- ===== src/Grouping/Active.antt =====
-- Publication of a run: one run of a snapshot is active, the membership is complete, and a repeated
-- request changes nothing.
use trace_x.Common.{
  ℕ, ◌+◌, ◌≡◌, ◌≢◌, refl, sym, ◌∙◌, ap, subst, inl, inr, true, false, not, ◌&&◌, Option, none, some,
  List, [], ◌∷◌, map, arith, ◌==◌, find_first, length, All, All-mono, Bool-cases,
}
use trace_x.Grouping.Model.{Finding, Group, Generation, no_rows}
use trace_x.Grouping.Observe.{read_edges}
use trace_x.Grouping.Reference.{Inputs, Observed, observe, place, place_all, chosen, found}
use trace_x.Grouping.Materialize.{
  Run, Database, Outcome, has_run_id, deactivate, publish, resume, reference_rows,
}

pub length-members :
    (i : Inputs) (fs : List Finding) (gen : Generation)
    → length (place_all i fs gen).members ≡ length fs + length gen.members
unfolding place_all place
length-members i [] gen = omega arith
length-members i (f ∷ fs) gen =
    let o = observe i (read_edges i.edges) f in
    length-members i fs (place i o gen) ∙ omega (arith, one_more o gen (found o gen) refl)
  where
    chosen-members :
        (o : Observed) (gen : Generation) (m : Option Group)
        → length (chosen i o gen m).1.members ≡ length gen.members
    chosen-members o gen none = refl
    chosen-members o gen (some g) = refl

    one_more :
        (o : Observed) (gen : Generation) (m : Option Group)
        → found o gen ≡ m
        → length (place i o gen).members ≡ 1 + length gen.members
    one_more o gen m e = omega (arith, chosen-members o gen (found o gen))

-- At most one run of a snapshot is active, and active runs are complete.
abbrev pub IsSingleActive : List Run → Type 0
IsSingleActive [] = Unit
IsSingleActive (r ∷ rs) =
    All (λ (s : Run). r.active ≡ true → s.active ≡ true → s.snapshot_id ≢ r.snapshot_id) rs
    × (r.active ≡ true → r.is_complete ≡ true)
    × IsSingleActive rs

module _ (snapshot_id run_id : ℕ) where
  deactivate-active : (r : Run) → (deactivate snapshot_id run_id r).active ≡ true → r.active ≡ true
  deactivate-active r e =
      elim (Bool-cases ((r.snapshot_id == snapshot_id) && not (r.id == run_id))) [
        | inl off ↦ absurd (cc (rw off at e))
        | inr same ↦ rw same at e
      ]

  deactivate-snapshot : (r : Run) → (deactivate snapshot_id run_id r).snapshot_id ≡ r.snapshot_id
  deactivate-snapshot r =
      elim (Bool-cases ((r.snapshot_id == snapshot_id) && not (r.id == run_id))) [
        | inl off ↦ rw off refl
        | inr same ↦ rw same refl
      ]

  deactivate_complete : (r : Run) → (deactivate snapshot_id run_id r).is_complete ≡ r.is_complete
  deactivate_complete r =
      elim (Bool-cases ((r.snapshot_id == snapshot_id) && not (r.id == run_id))) [
        | inl off ↦ rw off refl
        | inr same ↦ rw same refl
      ]

  -- Another run that stays active is of another snapshot.
  deactivate-other :
      (r : Run)
      → (r.id == run_id) ≡ false
      → (deactivate snapshot_id run_id r).active ≡ true
      → (deactivate snapshot_id run_id r).snapshot_id ≢ snapshot_id
  deactivate-other r other e here =
      let mine : (r.snapshot_id == snapshot_id) ≡ true =
        ground (arith, deactivate-snapshot r, here) in
      let off : ((r.snapshot_id == snapshot_id) && not (r.id == run_id)) ≡ true =
        ground (arith, mine, other) in
      cc (rw off at e)

  deactivated-IsSingleActive :
      (rs : List Run) → IsSingleActive rs → IsSingleActive (map (deactivate snapshot_id run_id) rs)
  deactivated-IsSingleActive [] v = tt
  deactivated-IsSingleActive (r ∷ rs) v = (
    apart rs v.0,
    (λ on. deactivate_complete r ∙ v.1 (deactivate-active r on)),
    deactivated-IsSingleActive rs v.2,
  )
    where
      apart :
          (xs : List Run)
          → All (λ (s : Run). r.active ≡ true → s.active ≡ true → s.snapshot_id ≢ r.snapshot_id) xs
          → All
              (λ (s : Run).
                (deactivate snapshot_id run_id r).active ≡ true
                → s.active ≡ true
                → s.snapshot_id ≢ (deactivate snapshot_id run_id r).snapshot_id)
              (map (deactivate snapshot_id run_id) xs)
      apart [] h = tt
      apart (x ∷ xs) h = (
        (λ on on' e.
            h.0 (deactivate-active r on) (deactivate-active x on')
              (sym (deactivate-snapshot x) ∙ e ∙ deactivate-snapshot r)),
        apart xs h.1,
      )

  pub others_inactive :
      (rs : List Run)
      → find_first (has_run_id run_id) rs ≡ none
      → All
          (λ (s : Run). s.active ≡ true → s.snapshot_id ≢ snapshot_id)
          (map (deactivate snapshot_id run_id) rs)
  unfolding find_first
  others_inactive [] e = tt
  others_inactive (r ∷ rs) e = elim (Bool-cases (has_run_id run_id r)) [
    | inl here ↦ absurd (cc (rw here at e))
    | inr other ↦ (deactivate-other r other, others_inactive rs (rw other at e))
  ]

abbrev pub new_run : (case_id snapshot_id run_id : ℕ) → Generation → Run
new_run case_id snapshot_id run_id rows = record {
  id = run_id;
  case_id = case_id;
  snapshot_id = snapshot_id;
  is_complete = true;
  active = true;
  rows = rows;
}

abbrev pub published : (case_id snapshot_id run_id : ℕ) → Generation → Database → Database
published case_id snapshot_id run_id rows db = record db {
  runs = new_run case_id snapshot_id run_id rows ∷ map (deactivate snapshot_id run_id) db.runs;
}

publish_whole :
    (case_id snapshot_id run_id expected : ℕ) (rows : Generation) (db : Database)
    → length rows.members ≡ expected
    → publish case_id snapshot_id run_id expected rows db ≡ (
      Outcome.done run_id (length rows.members) (length rows.groups) false,
      published case_id snapshot_id run_id rows db,
    )
publish_whole case_id snapshot_id run_id expected rows db e =
    let whole : (length rows.members == expected) ≡ true = ground (arith, e) in rw whole refl

pub length-reference_rows :
    (i : Inputs) (fs : List Finding) → length (reference_rows i fs).members ≡ length fs
length-reference_rows i fs = omega (arith, length-members i fs no_rows)

module _ (case_id snapshot_id run_id expected : ℕ) (rows : Generation) (db : Database)
    (whole : length rows.members ≡ expected) where
  pub resume-IsSingleActive :
      (prior : Option Run)
      → find_first (has_run_id run_id) db.runs ≡ prior
      → IsSingleActive db.runs
      → IsSingleActive (resume case_id snapshot_id run_id expected prior rows db).1.runs
        × ((resume case_id snapshot_id run_id expected prior rows db).0 ≢ Outcome.incomplete)
  resume-IsSingleActive (some prior) e v = elim (Bool-cases prior.is_complete) [
    | inl ended ↦ rw ended (v, λ c. cc)
    | inr open_ ↦ rw open_ (v, λ c. cc)
  ]
  resume-IsSingleActive none e v =
      subst (λ r. IsSingleActive r.1.runs × (r.0 ≢ Outcome.incomplete))
        (sym (publish_whole case_id snapshot_id run_id expected rows db whole))
        (
          (
            All-mono (map (deactivate snapshot_id run_id) db.runs)
                (λ (s : Run) (h : s.active ≡ true → s.snapshot_id ≢ snapshot_id) on on'. h on')
                (others_inactive snapshot_id run_id db.runs e),
            (λ on. refl),
            deactivated-IsSingleActive snapshot_id run_id db.runs v,
          ),
          λ c. cc,
        )

  -- What a request that did not reuse a run leaves.
  pub resume-fresh :
      (prior : Option Run) {run members groups : ℕ} {t : Database}
      → find_first (has_run_id run_id) db.runs ≡ prior
      → resume case_id snapshot_id run_id expected prior rows db
        ≡ (Outcome.done run members groups false, t)
      → (run ≡ run_id)
        × (members ≡ expected)
        × (groups ≡ length rows.groups)
        × (t ≡ published case_id snapshot_id run_id rows db)
  resume-fresh (some prior) e is_done = elim (Bool-cases prior.is_complete) [
    | inl ended ↦ absurd (cc (ap (λ r. r.0) (rw ended at is_done)))
    | inr open_ ↦ absurd (cc (ap (λ r. r.0) (rw open_ at is_done)))
  ]
  resume-fresh none {run} {members} {groups} {t} e is_done =
      let made = sym (publish_whole case_id snapshot_id run_id expected rows db whole) ∙ is_done in
      let out : Outcome.done run_id (length rows.members) (length rows.groups) false
          ≡ Outcome.done run members groups false =
        ap (λ r. r.0) made in
      (
        cc,
        (let m : length rows.members ≡ members = cc in sym m ∙ whole),
        cc,
        sym (ap (λ r. r.1) made),
      )

  pub resume-reused :
      (prior : Option Run) {run members groups : ℕ} {t : Database}
      → resume case_id snapshot_id run_id expected prior rows db
        ≡ (Outcome.done run members groups true, t)
      → db ≡ t
  resume-reused (some prior) is_done = elim (Bool-cases prior.is_complete) [
    | inl ended ↦ ap (λ r. r.1) (rw ended at is_done)
    | inr open_ ↦ absurd (cc (ap (λ r. r.0) (rw open_ at is_done)))
  ]
  resume-reused none {run} {members} {groups} is_done =
      let out : Outcome.done run_id (length rows.members) (length rows.groups) false
          ≡ Outcome.done run members groups true =
        ap (λ r. r.0)
          (sym (publish_whole case_id snapshot_id run_id expected rows db whole) ∙ is_done) in
      absurd (cc)
