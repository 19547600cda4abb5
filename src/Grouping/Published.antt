-- ===== src/Grouping/Published.antt =====
-- Runs are published whole, one is active, and a repeated request changes nothing.
use trace_x.Common.{
  ℕ, zero, suc, ◌≤◌, ◌≡◌, ◌≢◌, refl, sym, ◌∙◌, ap, subst, inl, inr, Bool, not, List, [], ◌∷◌, ◌++◌,
  arith, if◌then◌else◌, select, find_first, length, take, All, All-mono, Bool-cases,
}
use trace_x.Common.Select.{All-kept}
use trace_x.Common.Sort.{sort_by, insert_by, All-insert_by, All-sort_by}
use trace_x.Grouping.Model.{Texts, Finding, no_rows}
use trace_x.Grouping.Reference.{Inputs, place_all}
use trace_x.Grouping.Paged.{AreApart, concat, place_pages-eq-place_all}
use trace_x.Grouping.Materialize.{
  Database, Graph, RunIdOf, Outcome, finding_le, ordered_findings, inputs_of, has_run_id, is_scoped,
  resume, materialize_by, reference_rows, materialize, drop, pages_of, page_size, indexed_rows,
  materialize_indexed,
}

-- The pages hold the findings in their order.
take-drop : (n : ℕ) (xs : List Finding) → take n xs ++ drop n xs ≡ xs
take-drop zero xs = refl
take-drop (suc n) [] = refl
take-drop (suc n) (x ∷ xs) = ap (λ r. x ∷ r) (take-drop n xs)

length-drop : (n : ℕ) (xs : List Finding) → length (drop n xs) ≤ length xs
length-drop zero xs = omega arith
length-drop (suc n) [] = omega arith
length-drop (suc n) (x ∷ xs) = omega (arith, length-drop n xs)

concat-pages_of :
    (size fuel : ℕ) (xs : List Finding)
    → length xs ≤ fuel
    → concat (pages_of (suc size) fuel xs) ≡ xs
unfolding pages_of
concat-pages_of size zero [] le = refl
concat-pages_of size zero (x ∷ xs) le = absurd (omega arith)
concat-pages_of size (suc fuel) [] le = refl
concat-pages_of size (suc fuel) (x ∷ xs) le =
    let rest = concat-pages_of size fuel (drop size xs) (omega (arith, length-drop size xs)) in
    ap (λ r. x ∷ (take size xs ++ r)) rest ∙ ap (λ r. x ∷ r) (take-drop size xs)

-- Findings with ids that differ.
abbrev pub HaveDistinctIds : List Finding → Type 0
HaveDistinctIds [] = Unit
HaveDistinctIds (f ∷ fs) = All (λ (g : Finding). f.id ≢ g.id) fs × HaveDistinctIds fs

select-HaveDistinctIds :
    (p : Finding → Bool) (xs : List Finding) → HaveDistinctIds xs → HaveDistinctIds (select p xs)
unfolding select
select-HaveDistinctIds p [] d = tt
select-HaveDistinctIds p (x ∷ xs) d = elim (Bool-cases (p x)) [
  | inl kept ↦
      rw kept (All-kept p (λ (g : Finding). x.id ≢ g.id) xs d.0, select-HaveDistinctIds p xs d.1)
  | inr dropped ↦ rw dropped (select-HaveDistinctIds p xs d.1)
]

module _ (le : Finding → Finding → Bool) where
  insert_by-HaveDistinctIds :
      (x : Finding) (ys : List Finding)
      → All (λ (g : Finding). x.id ≢ g.id) ys
      → HaveDistinctIds ys
      → HaveDistinctIds (insert_by le x ys)
  unfolding insert_by
  insert_by-HaveDistinctIds x [] a d = (tt, tt)
  insert_by-HaveDistinctIds x (y ∷ ys) a d = elim (Bool-cases (le x y)) [
    | inl first ↦ rw first (a, d)
    | inr later ↦ rw later (
      All-insert_by le (λ (g : Finding). y.id ≢ g.id) x ys (λ e. a.0 (sym e)) d.0,
      insert_by-HaveDistinctIds x ys a.1 d.1,
    )
  ]

  sort_by-HaveDistinctIds :
      (xs : List Finding) → HaveDistinctIds xs → HaveDistinctIds (sort_by le xs)
  unfolding sort_by
  sort_by-HaveDistinctIds [] d = tt
  sort_by-HaveDistinctIds (x ∷ xs) d =
      insert_by-HaveDistinctIds x (sort_by le xs)
        (All-sort_by le (λ (g : Finding). x.id ≢ g.id) xs d.0) (sort_by-HaveDistinctIds xs d.1)

ordered_findings-HaveDistinctIds :
    (texts : Texts) (snapshot_id : ℕ) (db : Database)
    → HaveDistinctIds db.findings
    → HaveDistinctIds (ordered_findings texts snapshot_id db)
unfolding ordered_findings
ordered_findings-HaveDistinctIds texts snapshot_id db d =
    sort_by-HaveDistinctIds (finding_le texts) (select _ db.findings)
      (select-HaveDistinctIds _ db.findings d)

-- Different findings of a run have different group ids.
abbrev pub NamesApart : Texts → Type 0
NamesApart texts = (run_id a b : ℕ) → texts.group_id run_id a ≡ texts.group_id run_id b → a ≡ b

distinct-AreApart :
    (i : Inputs) (fs : List Finding) → NamesApart i.texts → HaveDistinctIds fs → AreApart i fs
distinct-AreApart i [] names d = tt
distinct-AreApart i (f ∷ fs) names d = (
  All-mono fs (λ (g : Finding) (ne : f.id ≢ g.id) e. ne (names i.run_id f.id g.id e)) d.0,
  distinct-AreApart i fs names d.1,
)

indexed_rows-eq :
    (i : Inputs) (fs : List Finding) → AreApart i fs → indexed_rows i fs ≡ reference_rows i fs
indexed_rows-eq i fs apart =
    let pages = pages_of page_size (length fs) fs in
    let whole : concat pages ≡ fs = concat-pages_of 255 (length fs) fs (omega arith) in
    place_pages-eq-place_all i pages (subst (AreApart i) (sym whole) apart)
    ∙ ap (λ xs. place_all i xs no_rows) whole

-- The disk-indexed execution returns and publishes what the reference does, where the findings have
-- distinct ids and the group ids of a run tell its findings apart.
pub materialize_indexed-eq-materialize :
    (texts : Texts) (run_id_of : RunIdOf) (graph : Graph) (case_id snapshot_id : ℕ) (db : Database)
    → NamesApart texts
    → HaveDistinctIds db.findings
    → materialize_indexed texts run_id_of graph case_id snapshot_id db
      ≡ materialize texts run_id_of graph case_id snapshot_id db
unfolding materialize_indexed materialize materialize_by
materialize_indexed-eq-materialize texts run_id_of graph case_id snapshot_id db names distinct =
    let fs = ordered_findings texts snapshot_id db in
    let run_id = run_id_of case_id snapshot_id graph.sha256 fs db.participation in
    let i = inputs_of texts graph case_id run_id db in
    let same = indexed_rows-eq i fs (
      distinct-AreApart i fs names
        (ordered_findings-HaveDistinctIds texts snapshot_id db distinct)) in
    ap
      (λ rows.
        if not (is_scoped graph case_id snapshot_id db)
        then (Outcome.refused, db)
        else resume case_id snapshot_id run_id (length fs) (find_first (has_run_id run_id) db.runs)
            rows db)
      same
