-- ===== src/Jobs/Regroup.antt =====
-- app/jobs/grouping.py: the requests that are pending, the lease that the progress connection keeps
-- alive, and the recovery of review groups alone.
use trace_x.Common.{
  ℕ, ◌+◌, Bool, true, false, ◌&&◌, not, Option, none, some, List, [], ◌∷◌, map, ◌==◌, ltb, leb,
  if◌then◌else◌, select, length,
}
use trace_x.Jobs.Model.{
  JobState, Stage, ImportJob, EventType, Payload, Status, AnalysisRequest, Session, save_job,
  is_leased,
}
use trace_x.Jobs.Service.{append_event, record_worker_heartbeat}
use trace_x.Jobs.Analysis.{Txn, StageTracker, start, finish}
use trace_x.Jobs.Worker.{Failure, Result, ok, raised, is_owner}
use trace_x.Grouping.Model.{Texts}
use trace_x.Grouping.Materialize.{
  Run, Database, Graph, RunIdOf, Outcome, done, refused, incomplete, conflict, deactivate,
  materialize_indexed,
}

-- The `where` of `latest_pending_request`.
abbrev pub is_pending : ImportJob → AnalysisRequest → Bool
is_pending job r = (r.job_id == job.id) && leb r.attempt job.attempt && not r.fulfilled

abbrev pub later : Bool → AnalysisRequest → Option AnalysisRequest → Option AnalysisRequest
later false r best = best
later true r none = some r
later true r (some other) = if ltb r.attempt other.attempt then some other else some r

-- `order_by(attempt.desc()).limit(1)`
unfoldable pub newest_pending : ImportJob → List AnalysisRequest → Option AnalysisRequest
newest_pending job [] = none
newest_pending job (r ∷ rs) = later (is_pending job r) r (newest_pending job rs)

abbrev pub latest_pending_request : ImportJob → Session → Option AnalysisRequest
latest_pending_request job s = newest_pending job s.requests

abbrev pub fulfill : ImportJob → AnalysisRequest → AnalysisRequest
fulfill job r = if is_pending job r && r.grouping_only then record r { fulfilled = true } else r

-- `fulfill_grouping_requests`
unfoldable pub fulfill_grouping_requests : ImportJob → Session → Session
fulfill_grouping_requests job s = record s { requests = map (fulfill job) s.requests }

-- The `where` of the update in `GroupingProgress._persist`, for the identity of the job at the start.
abbrev pub keeps_lease : (job_id attempt owner : ℕ) → ImportJob → Bool
keeps_lease job_id attempt owner row =
    (row.id == job_id)
    && (row.attempt == attempt)
    && is_owner owner row.lease_owner
    && is_leased row.state

abbrev pub extended : (expires job_id attempt owner : ℕ) → ImportJob → ImportJob
extended expires job_id attempt owner row =
    if keeps_lease job_id attempt owner row
    then record row { lease_expires_at = some expires }
    else row

-- `GroupingProgress._persist`, but for the details that it notes: the lease is extended, or nothing
-- changes and the loss of the lease is raised.
unfoldable pub persist :
    (now lease_seconds job_id attempt owner : ℕ) → Failure → Session → Result (Unit {0}) × Session
unfolding record_worker_heartbeat select
persist now lease_seconds job_id attempt owner lost s =
    let rows = select (keeps_lease job_id attempt owner) s.jobs in
    if length rows == 1
    then (
      ok tt,
      record_worker_heartbeat owner now
          (record s { jobs = map (extended (now + lease_seconds) job_id attempt owner) s.jobs }),
    )
    else (raised lost, s)

-- What `run_grouping_only` reads of `Snapshot` and `GraphSnapshot`.
pub record SnapshotRow : Type 0 where
  pub case_id : ℕ
  pub job_id : ℕ
  pub is_complete : Bool
  pub provisional : Bool

pub record GraphRow : Type 0 where
  pub is_complete : Bool
  pub graph : Graph

-- What it finds outside: the rows, the file of the graph, what the progress connection raises, and
-- the failures that it raises itself.
pub record Sources : Type 0 where
  pub texts : Texts
  pub run_id_of : RunIdOf
  pub snapshot_row : (snapshot_id : ℕ) → Option SnapshotRow
  pub graph_row : (snapshot_id case_id : ℕ) → Option GraphRow
  pub file_sha256 : Graph → Result ℕ
  pub progress_error : Option Failure
  pub runtime_error : Failure
  pub value_error : Failure

-- The session with the tables of groups, as committed and as pending.
pub record Store : Type 0 where
  pub txn : Txn
  pub groups : Database
  pub groups_committed : Database

abbrev pub is_recoverable : ImportJob → Option SnapshotRow → Option GraphRow → Bool
is_recoverable job (some row) (some graph) =
    (row.case_id == job.case_id)
    && (row.job_id == job.id)
    && row.is_complete
    && not row.provisional
    && graph.is_complete
is_recoverable job _ _ = false

-- `values(active=False)` for the other runs of the snapshot, and `active = True` for the run.
abbrev pub activate : (snapshot_id run_id : ℕ) → Run → Run
activate snapshot_id run_id run =
    if run.id == run_id then record run { active = true } else deactivate snapshot_id run_id run

abbrev pub completed : (now : ℕ) → ImportJob → ImportJob
completed now job = record job {
  state = JobState.completed;
  stage = Stage.ingested;
  lease_owner = none;
  lease_expires_at = none;
  error_code = none;
  error_detail = none;
  completed_at = some now;
}

-- From the activation of the run to the commit of `tracker.finish`.
unfoldable pub complete_grouping :
    (now : ℕ) → ImportJob → (snapshot_id run_id : ℕ) → StageTracker → Store → Store
unfolding fulfill_grouping_requests save_job append_event finish
complete_grouping now job snapshot_id run_id tracker store =
    let db = store.groups in
    let groups : Database = record db { runs = map (activate snapshot_id run_id) db.runs } in
    let job' = completed now job in
    let saved = save_job job' (fulfill_grouping_requests job store.txn.current) in
    let logged =
      (append_event job.case_id EventType.import_completed Stage.ingested (some job')
        (Payload.grouped snapshot_id job.rows_accepted run_id) saved).1 in
    let (_, txn) =
      finish now job' Status.complete none tracker (record (store.txn) { current = logged }) in
    record { txn = txn; groups = groups; groups_committed = groups }

-- What follows from the outcome of `materialize`, unless the progress connection failed.
abbrev pub after_materialize :
    Sources
    → (now : ℕ) → ImportJob
    → (snapshot_id : ℕ) → StageTracker
    → Option Failure
    → Outcome × Database
    → Store
    → Result Bool × Store
after_materialize e now job snapshot_id tracker (some f) (outcome, db) store =
    (raised f, record store { groups = db })
after_materialize e now job snapshot_id tracker none (done run_id members groups reused, db) store =
    (ok true, complete_grouping now job snapshot_id run_id tracker (record store { groups = db }))
after_materialize e now job snapshot_id tracker none (refused, db) store =
    (raised e.value_error, store)
after_materialize e now job snapshot_id tracker none (incomplete, db) store =
    (raised e.runtime_error, store)
after_materialize e now job snapshot_id tracker none (conflict, db) store =
    (raised e.runtime_error, store)

-- The test of the file, and then `materialize_review_groups`.
abbrev pub after_digest :
    Sources
    → (now : ℕ) → ImportJob
    → (snapshot_id : ℕ) → StageTracker
    → Graph
    → Result ℕ
    → Store
    → Result Bool × Store
after_digest e now job snapshot_id tracker graph (raised f) store = (raised f, store)
after_digest e now job snapshot_id tracker graph (ok digest) store =
    if digest == graph.sha256
    then after_materialize e now job snapshot_id tracker e.progress_error
        (materialize_indexed e.texts e.run_id_of graph job.case_id snapshot_id store.groups) store
    else (raised e.runtime_error, store)

abbrev pub grouping_job : ImportJob → ImportJob
grouping_job job = record job { stage = Stage.investigation_grouping }

-- The stage of grouping begins, which `tracker.start` commits.
unfoldable pub begin_grouping : (now : ℕ) → ImportJob → Store → StageTracker × Store
unfolding save_job start
begin_grouping now job store =
    let begun : Txn = record (store.txn) { current = save_job job store.txn.current } in
    let (tracker, txn) = start now job Stage.investigation_grouping false none begun in
    (tracker, record { txn = txn; groups = store.groups; groups_committed = store.groups })

unfoldable pub regroup :
    Sources → (now : ℕ) → ImportJob → (snapshot_id : ℕ) → Graph → Store → Result Bool × Store
unfolding complete_grouping materialize_indexed begin_grouping
regroup e now job snapshot_id graph store =
    let (tracker, begun) = begin_grouping now (grouping_job job) store in
    after_digest e now (grouping_job job) snapshot_id tracker graph (e.file_sha256 graph) begun

abbrev pub regroup_from :
    Sources
    → (now : ℕ) → ImportJob
    → (snapshot_id : ℕ) → Option SnapshotRow
    → Option GraphRow
    → Store
    → Result Bool × Store
regroup_from e now job snapshot_id row (some graph) store =
    if is_recoverable job row (some graph)
    then regroup e now job snapshot_id graph.graph store
    else (raised e.runtime_error, store)
regroup_from e now job snapshot_id row none store = (raised e.runtime_error, store)

abbrev pub regroup_snapshot :
    Sources → (now : ℕ) → ImportJob → Option ℕ → Store → Result Bool × Store
regroup_snapshot e now job none store = (raised e.runtime_error, store)
regroup_snapshot e now job (some id) store =
    regroup_from e now job id (e.snapshot_row id) (e.graph_row id job.case_id) store

-- `request is None or not request.grouping_only`
abbrev pub wants_groups : Option AnalysisRequest → Bool
wants_groups none = false
wants_groups (some r) = r.grouping_only

unfoldable pub run_grouping_only : Sources → (now : ℕ) → ImportJob → Store → Result Bool × Store
unfolding newest_pending regroup
run_grouping_only e now job store =
    if wants_groups (latest_pending_request job store.txn.current)
    then regroup_snapshot e now job job.snapshot_id store
    else (ok false, store)
