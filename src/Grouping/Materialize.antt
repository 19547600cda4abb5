-- ===== src/Grouping/Materialize.antt =====
-- `materialize` of app/engine/investigations.py and of app/engine/grouping_materializer.py: a run is
-- published whole or not at all. A row of `InvestigationRun` is kept with the rows that name it.
use trace_x.Common.{
  ℕ, zero, suc, Bool, true, false, ◌&&◌, ◌||◌, not, Option, none, some, List, [], ◌∷◌, ◌++◌, map,
  ◌==◌, ltb, if◌then◌else◌, select, exists_in, find_first, length, take,
}
use trace_x.Common.Sort.{sort_by}
use trace_x.Grouping.Model.{Texts, Edge, Finding, Member, Generation, no_rows}
use trace_x.Grouping.Observe.{set_of}
use trace_x.Grouping.Reference.{Inputs, place_all}
use trace_x.Grouping.Indexed.{place_pages, empty_index}

pub record Snapshot : Type 0 where
  pub id : ℕ
  pub case_id : ℕ

pub record Participation : Type 0 where
  pub finding_id : ℕ
  pub transaction_ref : ℕ

-- `InvestigationRun`; `is_complete` is `state == "complete"`.
pub record Run : Type 0 where
  pub id : ℕ
  pub case_id : ℕ
  pub snapshot_id : ℕ
  pub is_complete : Bool
  pub active : Bool
  pub rows : Generation

pub record Database : Type 0 where
  pub snapshots : List Snapshot
  pub findings : List Finding
  pub participation : List Participation
  pub runs : List Run

-- `GraphSnapshot`, with the edges of its file.
pub record Graph : Type 0 where
  pub case_id : ℕ
  pub snapshot_id : ℕ
  pub sha256 : ℕ
  pub edges : List Edge

-- The identifier of a run, made of the digest of its inputs.
abbrev pub RunIdOf : Type 0
RunIdOf = (case_id snapshot_id graph_sha256 : ℕ) → List Finding → List Participation → ℕ

abbrev later_than : List (ℕ × ℕ) → Bool
later_than [] = true
later_than ((a, b) ∷ keys) = ltb a b || (a == b) && later_than keys

-- The order of the loop over the findings.
abbrev pub finding_le : Texts → Finding → Finding → Bool
finding_le texts a b = later_than (
    (a.window_start, b.window_start)
    ∷ (a.window_end, b.window_end)
    ∷ (a.rule_id, b.rule_id)
    ∷ (a.rule_version, b.rule_version)
    ∷ (texts.ref_rank a.entity_ref, texts.ref_rank b.entity_ref)
    ∷ (a.id, b.id)
    ∷ [])

abbrev of_snapshot : (snapshot_id : ℕ) → Finding → Bool
of_snapshot snapshot_id f = f.snapshot_id == snapshot_id

unfoldable pub ordered_findings : Texts → (snapshot_id : ℕ) → Database → List Finding
unfolding sort_by select
ordered_findings texts snapshot_id db =
    sort_by (finding_le texts) (select (of_snapshot snapshot_id) db.findings)

abbrev pub refs_of : List Participation → (finding_id : ℕ) → List ℕ
refs_of rows finding_id =
    map (λ (p : Participation). p.transaction_ref)
      (select (λ (p : Participation). p.finding_id == finding_id) rows)

abbrev groups_with : (finding_id : ℕ) → Generation → List ℕ
groups_with finding_id gen =
    map (λ (m : Member). m.group_id)
      (select (λ (m : Member). m.finding_id == finding_id) gen.members)

abbrev is_earlier : (run_id case_id : ℕ) → Run → Bool
is_earlier run_id case_id run =
    not (run.id == run_id) && (run.case_id == case_id) && run.is_complete

unfoldable pub earlier_groups : (run_id case_id finding_id : ℕ) → List Run → List ℕ
unfolding select
earlier_groups run_id case_id finding_id [] = []
earlier_groups run_id case_id finding_id (run ∷ runs) =
    let rest = earlier_groups run_id case_id finding_id runs in
    if is_earlier run_id case_id run then groups_with finding_id run.rows ++ rest else rest

-- What a run reads from the database and the graph.
abbrev pub inputs_of : Texts → Graph → (case_id run_id : ℕ) → Database → Inputs
inputs_of texts graph case_id run_id db = record {
  texts = texts;
  run_id = run_id;
  edges = graph.edges;
  participation = refs_of db.participation;
  previous = λ finding_id. set_of (earlier_groups run_id case_id finding_id db.runs);
}

-- What `materialize` returns or raises: its result, the ValueError, the failed completeness check, or
-- the conflict of a run that is there and not complete.
pub data Outcome : Type 0 where
  done : (run_id underlying_findings groups : ℕ) (reused : Bool) → Outcome
  refused incomplete conflict : Outcome

abbrev pub has_run_id : ℕ → Run → Bool
has_run_id run_id run = run.id == run_id

abbrev is_snapshot : (snapshot_id case_id : ℕ) → Snapshot → Bool
is_snapshot snapshot_id case_id s = (s.id == snapshot_id) && (s.case_id == case_id)

-- `grouping requires a case-scoped snapshot and graph`
abbrev pub is_scoped : Graph → (case_id snapshot_id : ℕ) → Database → Bool
is_scoped graph case_id snapshot_id db =
    exists_in (is_snapshot snapshot_id case_id) db.snapshots
    && (graph.case_id == case_id)
    && (graph.snapshot_id == snapshot_id)

-- `update(InvestigationRun).where(snapshot_id == ..., id != run_id).values(active=False)`
abbrev pub deactivate : (snapshot_id run_id : ℕ) → Run → Run
deactivate snapshot_id run_id run =
    if (run.snapshot_id == snapshot_id) && not (run.id == run_id)
    then record run { active = false }
    else run

-- The end of the nested transaction: the run is complete and active, or nothing stays.
abbrev pub publish :
    (case_id snapshot_id run_id expected : ℕ) → Generation → Database → Outcome × Database
publish case_id snapshot_id run_id expected rows db =
    let run : Run = record {
      id = run_id;
      case_id = case_id;
      snapshot_id = snapshot_id;
      is_complete = true;
      active = true;
      rows = rows;
    } in
    if length rows.members == expected
    then (
      Outcome.done run_id (length rows.members) (length rows.groups) false,
      record db { runs = run ∷ map (deactivate snapshot_id run_id) db.runs },
    )
    else (Outcome.incomplete, db)

abbrev pub reuse : (expected : ℕ) → Run → Database → Outcome × Database
reuse expected prior db =
    if prior.is_complete
    then (Outcome.done prior.id expected (length prior.rows.groups) true, db)
    else (Outcome.conflict, db)

-- What follows from the run that is there: `session.get(InvestigationRun, run_id)`.
abbrev pub resume :
    (case_id snapshot_id run_id expected : ℕ)
    → Option Run
    → Generation
    → Database
    → Outcome × Database
resume case_id snapshot_id run_id expected (some prior) rows db = reuse expected prior db
resume case_id snapshot_id run_id expected none rows db =
    publish case_id snapshot_id run_id expected rows db

-- Both executions: `rows_of` is the loop over the ordered findings.
unfoldable pub materialize_by :
    (rows_of : Inputs → List Finding → Generation)
    → Texts
    → RunIdOf
    → Graph
    → (case_id snapshot_id : ℕ) → Database
    → Outcome × Database
unfolding exists_in find_first ordered_findings earlier_groups
materialize_by rows_of texts run_id_of graph case_id snapshot_id db =
    let findings = ordered_findings texts snapshot_id db in
    let run_id = run_id_of case_id snapshot_id graph.sha256 findings db.participation in
    if not (is_scoped graph case_id snapshot_id db)
    then (Outcome.refused, db)
    else resume case_id snapshot_id run_id (length findings)
        (find_first (has_run_id run_id) db.runs)
        (rows_of (inputs_of texts graph case_id run_id db) findings) db

abbrev pub reference_rows : Inputs → List Finding → Generation
reference_rows i findings = place_all i findings no_rows

-- `materialize` of app/engine/investigations.py.
unfoldable pub materialize :
    Texts → RunIdOf → Graph → (case_id snapshot_id : ℕ) → Database → Outcome × Database
unfolding materialize_by place_all
materialize = materialize_by reference_rows

abbrev pub drop {ℓ} : {A : Type ℓ} → ℕ → List A → List A
drop zero xs = xs
drop (suc n) [] = []
drop (suc n) (x ∷ xs) = drop n xs

-- `partitions(size)`; the fuel is the number of findings, as each page has at least one.
unfoldable pub pages_of : (size fuel : ℕ) → List Finding → List (List Finding)
pages_of size zero findings = []
pages_of size (suc fuel) [] = []
pages_of size (suc fuel) (f ∷ fs) = take size (f ∷ fs) ∷ pages_of size fuel (drop size (f ∷ fs))

-- `PAGE`
abbrev pub page_size : ℕ
page_size = 256

abbrev pub indexed_rows : Inputs → List Finding → Generation
indexed_rows i findings =
    (place_pages i (pages_of page_size (length findings) findings) empty_index).rows

-- `materialize` of app/engine/grouping_materializer.py.
unfoldable pub materialize_indexed :
    Texts → RunIdOf → Graph → (case_id snapshot_id : ℕ) → Database → Outcome × Database
unfolding materialize_by place_pages pages_of
materialize_indexed = materialize_by indexed_rows
