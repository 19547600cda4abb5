-- ===== src/Jobs/Worker.antt =====
-- `_is_retryable_database_error` and `process_one` of workers/runner.py.
use Prim.Native.String.{String}
use text.Mathlib.Text.{◌==◌ as str_eq}
use trace_x.Common.{
  ℕ, zero, suc, ◌+◌, ◌%◌, Bool, true, false, ◌&&◌, ◌||◌, not, Option, none, some, ◌==◌,
  if◌then◌else◌, find_first,
}
use trace_x.Jobs.Model.{
  JobState, Stage, ErrorCode, Detail, ImportJob, EventType, Payload, Status, EvidenceSource,
  Session, save_job, is_leased,
}
use trace_x.Jobs.Service.{
  append_event, record_worker_heartbeat, claim_next_job, fail_running_stage, fail_job, cut,
}
use trace_x.Jobs.Analysis.{Txn, StageTracker, start, finish}

-- The attributes of a driver's exception that the test reads.
pub record DriverError : Type 0 where
  pub sqlstate : Option String
  pub pgcode : Option String
  pub is_sqlite : Bool
  pub sqlite_errorcode : Option ℕ

-- The class of an exception: SQLAlchemy's wrapper with its `orig`, a driver's own, or another.
pub data ErrorClass : Type 0 where
  wrapped driver : DriverError → ErrorClass
  other : ErrorClass

pub record Failure : Type 0 where
  pub class : ErrorClass
  pub message : Detail

-- Python's `a or b` on optional texts: an empty text is false.
abbrev pub text_or : Option String → Option String → Option String
text_or none b = b
text_or (some a) b = if str_eq a "" then b else some a

abbrev pub busy_code : Option ℕ → Bool
busy_code none = false
busy_code (some code) = (code % 256 == 5) || (code % 256 == 6)

abbrev retryable_code : Option String → DriverError → Bool
retryable_code none e = e.is_sqlite && busy_code e.sqlite_errorcode
retryable_code (some state) e = str_eq state "40P01" || str_eq state "40001" || str_eq state "55P03"

abbrev retryable_driver : DriverError → Bool
retryable_driver e = retryable_code (text_or e.sqlstate e.pgcode) e

unfoldable pub is_retryable_database_error : ErrorClass → Bool
is_retryable_database_error (wrapped e) = retryable_driver e
is_retryable_database_error (driver e) = retryable_driver e
is_retryable_database_error other = false

pub data Result (A : Type 0) : Type 0 where
  ok : A → Result A
  raised : Failure → Result A

-- What the file system has for a source's path.
pub data SourceFile : Type 0 where
  unresolved : Failure → SourceFile
  missing : SourceFile
  file : (sha256 byte_size : ℕ) → SourceFile

-- What the worker's steps find outside: the clock and the other connections at each attempt, the
-- files, and the two stages that run after the verification.
pub record World : Type 0 where
  pub now : ℕ → ℕ
  pub others : ℕ → Session → Session
  pub files : EvidenceSource → SourceFile
  pub run_grouping_only : ImportJob → Txn → Result Bool × Txn
  pub ingest_source : ImportJob → EvidenceSource → Txn → Result (Unit {0}) × Txn
  pub runtime_error : Failure

abbrev has_source : ℕ → EvidenceSource → Bool
has_source id source = source.id == id

-- The tests between `verification.start` and `verification.finish`.
unfoldable pub verify_source : World → Option EvidenceSource → Result EvidenceSource
verify_source w none = raised w.runtime_error
verify_source w (some source) = elim (w.files source) [
  | unresolved f ↦ raised f
  | missing ↦ raised w.runtime_error
  | file sha256 byte_size ↦
      if (sha256 == source.sha256) && (byte_size == source.byte_size)
      then ok source
      else raised w.runtime_error
]

abbrev pub ingest_after :
    Result Bool × Txn → (Txn → Result (Unit {0}) × Txn) → Result (Unit {0}) × Txn
ingest_after (raised f, t) next = (raised f, t)
ingest_after (ok true, t) next = (ok tt, t)
ingest_after (ok false, t) next = next t

-- The body of the `try` behind the tests.
abbrev pub after_verification :
    World
    → (now : ℕ) → ImportJob
    → StageTracker
    → Result EvidenceSource
    → Txn
    → Result (Unit {0}) × Txn
after_verification w now job tracker (raised f) t = (raised f, t)
after_verification w now job tracker (ok found) t =
    let (_, t') = finish now job Status.complete none tracker t in
    ingest_after (w.run_grouping_only job t') (w.ingest_source job found)

-- The body of the `try`.
unfoldable pub attempt_job :
    World → (now : ℕ) → ImportJob → (source_id : ℕ) → Txn → Result (Unit {0}) × Txn
unfolding verify_source find_first save_job start finish
attempt_job w now job source_id t =
    let source = find_first (has_source source_id) t.current.sources in
    let job' : ImportJob = record job { stage = Stage.source_verification } in
    let begun : Txn = record t { current = save_job job' t.current } in
    let (tracker, t') = start now job' Stage.source_verification false none begun in
    after_verification w now job' tracker (verify_source w source) t'

abbrev pub has_id : ℕ → ImportJob → Bool
has_id id job = job.id == id

abbrev pub is_owner : ℕ → Option ℕ → Bool
is_owner worker_id none = false
is_owner worker_id (some owner) = owner == worker_id

-- What the handler does: nothing more, or another attempt with the reloaded row.
pub data Recovery : Type 0 where
  stop : Recovery
  again : ImportJob → Recovery

abbrev pub retried_job : (now lease_seconds : ℕ) → ImportJob → ImportJob
retried_job now lease_seconds job = record job {
  attempt = job.attempt + 1;
  state = JobState.running;
  stage = Stage.source_verification;
  lease_expires_at = some (now + lease_seconds);
  error_code = none;
  error_detail = none;
}

-- The branch that records the retry and goes on.
unfoldable pub retry_job :
    (now worker_id lease_seconds : ℕ) → ImportJob → Failure → Session → Recovery × Session
unfolding fail_running_stage save_job append_event record_worker_heartbeat
retry_job now worker_id lease_seconds job f db =
    let job' = retried_job now lease_seconds job in
    let saved = save_job job' (fail_running_stage now job f.message db) in
    let logged =
      (append_event job.case_id EventType.import_retrying job.stage (some job')
        (Payload.retry job'.attempt worker_id (cut f.message)) saved).1 in
    (again job', record_worker_heartbeat worker_id now logged)

abbrev pub failure_code : Stage → ErrorCode
failure_code Stage.source_verification = ErrorCode.source_verification_failed
failure_code _ = ErrorCode.analysis_stage_failed

-- The handler, on what the database holds after the rollback.
unfoldable pub recover :
    (now worker_id lease_seconds attempt job_id : ℕ) → Failure → Session → Recovery × Session
unfolding retry_job fail_job find_first is_retryable_database_error
recover now worker_id lease_seconds attempt job_id f db =
    elim (find_first (has_id job_id) db.jobs) [
      | none ↦ (stop, db)
      | some job ↦
          if not (is_owner worker_id job.lease_owner && is_leased job.state)
          then (stop, db)
          else if is_retryable_database_error f.class && (attempt == 0)
          then retry_job now worker_id lease_seconds job f db
          else (stop, fail_job now job (failure_code job.stage) f.message db)
    ]

-- `for attempt in range(2)`: what is committed at the end.
unfoldable pub run_attempts :
    World
    → (worker_id lease_seconds job_id source_id : ℕ) → (left attempt : ℕ) → ImportJob
    → Session
    → Session
unfolding attempt_job recover
run_attempts w worker_id lease_seconds job_id source_id zero attempt job db = db
run_attempts w worker_id lease_seconds job_id source_id (suc left) attempt job db =
    let (result, t) =
      attempt_job w (w.now attempt) job source_id (record { committed = db; current = db }) in
    elim result [
      | ok _ ↦ t.committed
      | raised f ↦
          let (next, db') =
            recover (w.now attempt) worker_id lease_seconds attempt job_id f
              (w.others attempt t.committed) in
          elim next [
            | stop ↦ db'
            | again job' ↦
                run_attempts w worker_id lease_seconds job_id source_id left (attempt + 1) job' db'
          ]
    ]

-- An error code of the earlier retry patch is history, and is cleared.
abbrev pub clear_code :
    Option ErrorCode → (worker_id : ℕ) → ImportJob → Session → ImportJob × Session
clear_code (some ErrorCode.db_deadlock_retry) worker_id job s =
    let logged =
      (append_event job.case_id EventType.import_retry_recovered job.stage (some job)
        (Payload.recovered job.error_code job.error_detail job.attempt worker_id) s).1 in
    let job' : ImportJob = record job { error_code = none; error_detail = none } in
    (job', save_job job' logged)
clear_code _ worker_id job s = (job, s)

abbrev pub clear_history : (worker_id : ℕ) → ImportJob → Session → ImportJob × Session
clear_history worker_id job s = clear_code job.error_code worker_id job s

-- What follows the commit of the claim.
abbrev pub after_claim :
    World → (worker_id lease_seconds : ℕ) → Option ImportJob × Session → Bool × Session
after_claim w worker_id lease_seconds (none, s) = (false, s)
after_claim w worker_id lease_seconds (some found, s) =
    let (job, db) = clear_history worker_id found s in
    (true, run_attempts w worker_id lease_seconds job.id job.source_id 2 0 job db)

unfoldable pub process_one :
    World → (now worker_id lease_seconds : ℕ) (locked : ℕ → Bool) → Session → Bool × Session
unfolding run_attempts claim_next_job record_worker_heartbeat append_event save_job
process_one w now worker_id lease_seconds locked s =
    after_claim w worker_id lease_seconds
      (claim_next_job now worker_id lease_seconds locked (record_worker_heartbeat worker_id now s))
