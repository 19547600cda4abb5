-- ===== src/Jobs/Analysis.antt =====
-- app/jobs/analysis.py: the outcome of each analysis stage, the view over them, and the tracker.
use trace_x.Common.{
  ℕ, ◌-◌, Bool, true, false, ◌&&◌, ◌||◌, not, List, [], ◌∷◌, ◌++◌, map, Option, none, some, ◌==◌,
  ltb, leb, if◌then◌else◌, find_first, select, exists_in,
}
use mathlib.Core.List.{foldl, reverse}
use trace_x.Jobs.Model.{
  JobState, Stage, Detail, ImportJob, EventType, Payload, Status, AnalysisStage, Session,
  is_success,
}
use trace_x.Jobs.Service.{append_event}

-- The place of a stage's name in the alphabetical order that `order_by(AnalysisStage.name)` uses.
abbrev pub stage_rank : Stage → ℕ
stage_rank Stage.analytics = 0
stage_rank Stage.failed = 1
stage_rank Stage.findings = 2
stage_rank Stage.graph_building = 3
stage_rank Stage.ingested = 4
stage_rank Stage.ingesting = 5
stage_rank Stage.investigation_grouping = 6
stage_rank Stage.ml_scoring = 7
stage_rank Stage.queued = 8
stage_rank Stage.source_verification = 9
stage_rank Stage.source_verified = 10

unfoldable pub same_stage : Stage → Stage → Bool
same_stage a b = stage_rank a == stage_rank b

-- The order by attempt, start and name: `a` does not come after `b`.
abbrev pub row_le : AnalysisStage → AnalysisStage → Bool
row_le a b =
    ltb a.attempt b.attempt
    || (a.attempt == b.attempt)
      && (ltb a.started_at b.started_at
          || (a.started_at == b.started_at) && leb (stage_rank a.name) (stage_rank b.name))

unfoldable pub insert_row : AnalysisStage → List AnalysisStage → List AnalysisStage
insert_row x [] = x ∷ []
insert_row x (y ∷ ys) = if row_le x y then x ∷ y ∷ ys else y ∷ insert_row x ys

unfoldable pub sort_rows : List AnalysisStage → List AnalysisStage
unfolding insert_row
sort_rows [] = []
sort_rows (x ∷ xs) = insert_row x (sort_rows xs)

abbrev pub of_job : (job_id : ℕ) → AnalysisStage → Bool
of_job job_id row = row.job_id == job_id

-- `stage_rows`
unfoldable pub stage_rows : Session → (job_id : ℕ) → List AnalysisStage
unfolding sort_rows select
stage_rows s job_id = sort_rows (select (of_job job_id) s.stages)

-- `latest[row.name] = row`, on the values of the dict in insertion order.
unfoldable pub put_latest : List AnalysisStage → AnalysisStage → List AnalysisStage
unfolding same_stage
put_latest [] row = row ∷ []
put_latest (r ∷ rs) row = if same_stage r.name row.name then row ∷ rs else r ∷ put_latest rs row

-- `{row.name: row for row in rows}`
unfoldable pub latest_of : List AnalysisStage → List AnalysisStage
unfolding put_latest
latest_of rows = foldl put_latest [] rows

abbrev pub required_stages : List Stage
required_stages =
    Stage.source_verification ∷ Stage.ingesting ∷ Stage.graph_building ∷ Stage.findings
    ∷ Stage.ml_scoring ∷ Stage.analytics ∷ Stage.investigation_grouping ∷ []

abbrev pub has_name : Stage → AnalysisStage → Bool
has_name name row = same_stage row.name name

-- `name in latest and latest[name].status in SUCCESS`
unfoldable pub succeeded : List AnalysisStage → Stage → Bool
unfolding find_first same_stage
succeeded latest name = elim (find_first (has_name name) latest) [
  | none ↦ false
  | some row ↦ is_success row.status
]

unfoldable pub all_succeeded : List AnalysisStage → List Stage → Bool
unfolding succeeded
all_succeeded latest [] = true
all_succeeded latest (name ∷ names) = succeeded latest name && all_succeeded latest names

abbrev pub has_failure : AnalysisStage → Bool
has_failure row = not (is_success row.status)

pub data AnalysisState : Type 0 where
  failed running degraded complete unknown : AnalysisState

abbrev is_empty : List AnalysisStage → Bool
is_empty [] = true
is_empty (x ∷ xs) = false

-- The grade of a completed job: by whether the required stages succeeded, some stage failed, and
-- there is no stage at all.
abbrev pub grade : (required failure none_at_all : Bool) → AnalysisState
grade true true _ = AnalysisState.degraded
grade true false _ = AnalysisState.complete
grade false _ true = AnalysisState.unknown
grade false _ false = AnalysisState.degraded

unfoldable pub completed_state : List AnalysisStage → AnalysisState
unfolding all_succeeded exists_in
completed_state latest =
    grade (all_succeeded latest required_stages) (exists_in has_failure latest) (is_empty latest)

unfoldable pub analysis_state : JobState → List AnalysisStage → AnalysisState
unfolding completed_state
analysis_state JobState.failed latest = AnalysisState.failed
analysis_state JobState.completed latest = completed_state latest
analysis_state _ latest = AnalysisState.running

abbrev is_complete : AnalysisState → Bool
is_complete AnalysisState.complete = true
is_complete _ = false

-- `job.state in {"failed", "completed"}`
abbrev pub is_ended : JobState → Bool
is_ended JobState.failed = true
is_ended JobState.completed = true
is_ended _ = false

pub record AnalysisView : Type 0 where
  pub state : AnalysisState
  pub stages : List AnalysisStage
  pub required : List Stage
  pub retry_supported : Bool

-- `analysis_view`
unfoldable pub analysis_view : Session → ImportJob → AnalysisView
unfolding analysis_state stage_rows latest_of
analysis_view s job =
    let latest = latest_of (stage_rows s job.id) in
    let state = analysis_state job.state latest in
    record {
      state = state;
      stages = latest;
      required = required_stages;
      retry_supported = is_ended job.state && not (is_complete state);
    }

-- A session with its last commit: `session.commit()`, `session.rollback()`.
pub record Txn : Type 0 where
  pub committed : Session
  pub current : Session

abbrev pub commit : Txn → Txn
commit t = record t { committed = t.current }

abbrev pub rollback : Txn → Txn
rollback t = record t { current = t.committed }

-- `StageTracker`: the row that is being timed, if any.
abbrev pub StageTracker : Type 0
StageTracker = Option AnalysisStage

abbrev same_row : AnalysisStage → AnalysisStage → Bool
same_row a b = (a.job_id == b.job_id) && same_stage a.name b.name && (a.attempt == b.attempt)

abbrev replace_row : AnalysisStage → AnalysisStage → AnalysisStage
replace_row row r = if same_row r row then row else r

abbrev finished : (now : ℕ) → Status → Option Detail → AnalysisStage → AnalysisStage
finished now status reason row = record row {
  status = status;
  reason = reason;
  completed_at = some now;
  duration_seconds = some (now - row.started_at);
}

-- `StageTracker.finish`; both of its clocks are `now`.
unfoldable pub finish :
    (now : ℕ) → ImportJob → Status → Option Detail → StageTracker → Txn → StageTracker × Txn
unfolding append_event same_stage
finish now job status reason none t = (none, t)
finish now job status reason (some row) t =
    let row' = finished now status reason row in
    let saved : Session = record (t.current) { stages = map (replace_row row') t.current.stages } in
    let logged =
      (append_event job.case_id EventType.stage_finished row.name (some job)
        (Payload.stage row.name status reason row'.duration_seconds) saved).1 in
    (none, record { committed = logged; current = logged })

-- The newest row of a stage: `next(row for row in reversed(stage_rows(...)) if row.name == name)`.
abbrev prior_row : Session → (job_id : ℕ) → Stage → Option AnalysisStage
prior_row s job_id name = find_first (has_name name) (reverse (stage_rows s job_id))

abbrev reusable : Option AnalysisStage → Bool
reusable none = false
reusable (some row) = is_success row.status

abbrev pub begun : (now : ℕ) → ImportJob → Stage → AnalysisStage
begun now job name = record {
  job_id = job.id;
  case_id = job.case_id;
  name = name;
  attempt = job.attempt;
  status = Status.running;
  reason = none;
  started_at = now;
  completed_at = none;
  duration_seconds = none;
}

abbrev open_row : (now : ℕ) → ImportJob → Stage → Txn → StageTracker × Txn
open_row now job name t =
    let row = begun now job name in
    let added : Session = record (t.current) { stages = t.current.stages ++ row ∷ [] } in
    let logged =
      (append_event job.case_id EventType.stage_started name (some job)
        (Payload.stage name Status.running none none) added).1 in
    (some row, record { committed = logged; current = logged })

-- `StageTracker.start`
unfoldable pub start :
    (now : ℕ)
    → ImportJob
    → Stage
    → (reuse_completed : Bool) → StageTracker
    → Txn
    → StageTracker × Txn
unfolding finish stage_rows find_first append_event same_stage
start now job name reuse_completed tracker t =
    let (_, t') = finish now job Status.complete none tracker t in
    if reuse_completed && reusable (prior_row t'.current job.id name)
    then (none, t')
    else open_row now job name t'
