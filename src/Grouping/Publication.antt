-- ===== src/Grouping/Publication.antt =====
-- What a request to `materialize` leaves in the database.
use trace_x.Common.{
  ℕ, ◌≡◌, ◌≢◌, refl, sym, ◌∙◌, ap, subst, inl, inr, Bool, true, false, none, some, List, ◌∷◌, map,
  ==_refl, find_first, length, All, All-mono, Bool-cases, Option-cases,
}
use trace_x.Grouping.Model.{Texts, Finding, Generation}
use trace_x.Grouping.Materialize.{
  Run, Database, Graph, RunIdOf, Outcome, ordered_findings, inputs_of, has_run_id, is_scoped,
  deactivate, resume, materialize_by, reference_rows, materialize,
}
use trace_x.Grouping.Active.{
  IsSingleActive, new_run, published, length-reference_rows, resume-IsSingleActive, resume-fresh,
  resume-reused, others_inactive,
}

module _ (texts : Texts) (run_id_of : RunIdOf) (graph : Graph) (case_id snapshot_id : ℕ) where
  abbrev pub findings : Database → List Finding
  findings db = ordered_findings texts snapshot_id db

  abbrev pub run_of : Database → ℕ
  run_of db = run_id_of case_id snapshot_id graph.sha256 (findings db) db.participation

  abbrev pub rows_of : Database → Generation
  rows_of db = reference_rows (inputs_of texts graph case_id (run_of db) db) (findings db)

  -- A request to `materialize` goes through the completeness check, and keeps at most one run of each
  -- snapshot active, with active runs complete.
  pub materialize-IsSingleActive :
      (db : Database)
      → IsSingleActive db.runs
      → IsSingleActive (materialize texts run_id_of graph case_id snapshot_id db).1.runs
        × ((materialize texts run_id_of graph case_id snapshot_id db).0 ≢ Outcome.incomplete)
  unfolding materialize materialize_by
  materialize-IsSingleActive db v = elim (Bool-cases (is_scoped graph case_id snapshot_id db)) [
    | inl scoped ↦ rw scoped (
        resume-IsSingleActive case_id snapshot_id (run_of db) (length (findings db)) (rows_of db) db
          (length-reference_rows (inputs_of texts graph case_id (run_of db) db) (findings db))
          (find_first (has_run_id (run_of db)) db.runs) refl v)
    | inr foreign ↦ rw foreign (v, λ c. cc)
  ]

  -- Where the request built a run: all findings of the snapshot are members, and the new run is
  -- active and the only active one of its snapshot.
  pub record IsBuilt (db t : Database) (run members groups : ℕ) : Type 0 where
    pub counted : members ≡ length (findings db)
    pub grouped : groups ≡ length (rows_of db).groups
    pub is_run : run ≡ run_of db
    pub placed : t ≡ published case_id snapshot_id run (rows_of db) db
    pub only : All (λ (s : Run). s.active ≡ true → s.snapshot_id ≡ snapshot_id → s.id ≡ run) t.runs

  absent :
      (db : Database) {run members groups : ℕ} {t : Database}
      → resume case_id snapshot_id
          (run_of db)
          (length (findings db))
          (find_first (has_run_id (run_of db)) db.runs)
          (rows_of db)
          db
        ≡ (Outcome.done run members groups false, t)
      → find_first (has_run_id (run_of db)) db.runs ≡ none
  absent db e = elim (Option-cases (find_first (has_run_id (run_of db)) db.runs)) [
    | inl none_there ↦ none_there
    | inr (prior, is_prior) ↦ elim (Bool-cases prior.is_complete) [
      | inl ended ↦ absurd (cc (ap (λ r. r.0) (rw ended at (rw is_prior at e))))
      | inr broken ↦ absurd (cc (ap (λ r. r.0) (rw broken at (rw is_prior at e))))
    ]
  ]

  pub materialize-IsBuilt :
      (db : Database) {run members groups : ℕ} {t : Database}
      → materialize texts run_id_of graph case_id snapshot_id db
        ≡ (Outcome.done run members groups false, t)
      → IsBuilt db t run members groups
  unfolding materialize materialize_by
  materialize-IsBuilt db {run} {members} {groups} {t} e =
      elim (Bool-cases (is_scoped graph case_id snapshot_id db)) [
        | inr foreign ↦ absurd (cc (ap (λ r. r.0) (rw foreign at e)))
        | inl scoped ↦
            let e' : resume case_id snapshot_id (run_of db) (length (findings db))
                  (find_first (has_run_id (run_of db)) db.runs) (rows_of db) db
                ≡ (Outcome.done run members groups false, t) =
              rw scoped at e in
            let (is_run, counted, grouped, is_t) =
              resume-fresh case_id snapshot_id (run_of db) (length (findings db)) (rows_of db) db
                (length-reference_rows (inputs_of texts graph case_id (run_of db) db) (findings db))
                (find_first (has_run_id (run_of db)) db.runs) refl e' in
            record {
              counted = counted;
              grouped = grouped;
              is_run = is_run;
              placed =
                  is_t ∙ ap (λ r. published case_id snapshot_id r (rows_of db) db) (sym is_run);
              only =
                  subst
                    (λ (u : Database).
                      All (λ (s : Run). s.active ≡ true → s.snapshot_id ≡ snapshot_id → s.id ≡ run)
                        u.runs)
                    (sym is_t)
                    (
                      (λ _ _. sym is_run),
                      All-mono (map (deactivate snapshot_id (run_of db)) db.runs)
                          (λ (s : Run) (h : s.active ≡ true → s.snapshot_id ≢ snapshot_id) on here.
                            absurd (h on here))
                          (others_inactive snapshot_id (run_of db) db.runs (absent db e')),
                    );
            }
      ]

  find_new :
      (db : Database) (rows : Generation) (rest : List Run)
      → find_first (has_run_id (run_of db)) (new_run case_id snapshot_id (run_of db) rows ∷ rest)
        ≡ some (new_run case_id snapshot_id (run_of db) rows)
  unfolding find_first
  find_new db rows rest = rw (==_refl (run_of db)) refl

  abbrev Finishes : Database → (run members groups : ℕ) → Type 0
  Finishes u run members groups =
      materialize texts run_id_of graph case_id snapshot_id u
      ≡ (Outcome.done run members groups true, u)

  -- Behind a fresh run the request finds it.
  published-Finishes :
      (db : Database)
      → is_scoped graph case_id snapshot_id db ≡ true
      → Finishes
          (published case_id snapshot_id (run_of db) (rows_of db) db)
          (run_of db)
          (length (findings db))
          (length (rows_of db).groups)
  unfolding materialize materialize_by ordered_findings
  published-Finishes db scoped = rw scoped (
      ap
        (λ prior.
          resume case_id snapshot_id (run_of db) (length (findings db)) prior
            (rows_of (published case_id snapshot_id (run_of db) (rows_of db) db))
            (published case_id snapshot_id (run_of db) (rows_of db) db))
        (find_new db (rows_of db) (map (deactivate snapshot_id (run_of db)) db.runs)))

  done_scoped :
      (db : Database) {run members groups : ℕ} {reused : Bool} {t : Database}
      → materialize texts run_id_of graph case_id snapshot_id db
        ≡ (Outcome.done run members groups reused, t)
      → is_scoped graph case_id snapshot_id db ≡ true
  unfolding materialize materialize_by
  done_scoped db e = elim (Bool-cases (is_scoped graph case_id snapshot_id db)) [
    | inl scoped ↦ scoped
    | inr foreign ↦ absurd (cc (ap (λ r. r.0) (rw foreign at e)))
  ]

  reused_kept :
      (db : Database) {run members groups : ℕ} {t : Database}
      → materialize texts run_id_of graph case_id snapshot_id db
        ≡ (Outcome.done run members groups true, t)
      → db ≡ t
  unfolding materialize materialize_by
  reused_kept db e =
      let scoped = done_scoped db e in
      resume-reused case_id snapshot_id (run_of db) (length (findings db)) (rows_of db) db
        (length-reference_rows (inputs_of texts graph case_id (run_of db) db) (findings db))
        (find_first (has_run_id (run_of db)) db.runs) (rw scoped at e)

  -- Once a request has returned a run, repeating it returns the same run, with the same counts and
  -- marked as reused, and changes nothing.
  pub materialize-twice :
      (db t : Database) {run members groups : ℕ} {reused : Bool}
      → materialize texts run_id_of graph case_id snapshot_id db
        ≡ (Outcome.done run members groups reused, t)
      → materialize texts run_id_of graph case_id snapshot_id t
        ≡ (Outcome.done run members groups true, t)
  materialize-twice db t {run} {members} {groups} {reused} e = elim (Bool-cases reused) [
    | inr fresh ↦
        let built =
          materialize-IsBuilt db (e ∙ ap (λ r. (Outcome.done run members groups r, t)) fresh) in
        let state = published case_id snapshot_id (run_of db) (rows_of db) db in
        let counts : Finishes state (run_of db) members groups =
          published-Finishes db (done_scoped db e)
          ∙ ap (λ m. (Outcome.done (run_of db) m (length (rows_of db).groups) true, state))
              (sym built.counted)
          ∙ ap (λ g. (Outcome.done (run_of db) members g true, state)) (sym built.grouped) in
        subst (λ u. Finishes u run members groups) (sym built.placed)
          (subst (λ r. Finishes (published case_id snapshot_id r (rows_of db) db) r members groups)
            (sym built.is_run) counts)
    | inl before ↦
        let again = e ∙ ap (λ r. (Outcome.done run members groups r, t)) before in
        let kept = reused_kept db again in
        subst (λ u. Finishes u run members groups) kept
          (again ∙ ap (λ u. (Outcome.done run members groups true, u)) (sym kept))
  ]
