-- ===== src/Jobs/Model.antt =====
-- The rows of app/models.py that the job lifecycle reads and writes, and the session that holds
-- them. Identifiers, worker names and texts that the code only compares are numbers; a text that the
-- code cuts (`detail[:2000]`) is the list of its code points. Times are numbers (of any one unit).
use trace_x.Common.{ℕ, Bool, true, false, List, Option, map, ◌==◌, if◌then◌else◌}

-- `import_jobs.state`.
pub data JobState : Type 0 where
  queued running checkpointed completed failed : JobState

-- `import_jobs.stage` and the names of analysis stages.
pub data Stage : Type 0 where
  queued source_verification ingesting graph_building findings ml_scoring analytics : Stage
  investigation_grouping ingested source_verified failed : Stage

-- `import_jobs.error_code`.
pub data ErrorCode : Type 0 where
  db_deadlock_retry source_verification_failed analysis_stage_failed : ErrorCode

abbrev pub Detail : Type 0
Detail = List ℕ

pub record ImportJob : Type 0 where
  pub id : ℕ
  pub case_id : ℕ
  pub source_id : ℕ
  pub idempotency_key : ℕ
  pub state : JobState
  pub stage : Stage
  pub lease_owner : Option ℕ
  pub lease_expires_at : Option ℕ
  pub attempt : ℕ
  pub bytes_read : ℕ
  pub rows_seen : ℕ
  pub rows_accepted : ℕ
  pub rows_quarantined : ℕ
  pub total_records : Option ℕ
  pub snapshot_id : Option ℕ
  pub error_code : Option ErrorCode
  pub error_detail : Option Detail
  pub created_at : ℕ
  pub started_at : Option ℕ
  pub completed_at : Option ℕ

pub data EventType : Type 0 where
  import_queued import_started import_reclaimed import_completed import_failed : EventType
  import_retrying import_retry_recovered retry_queued stage_started stage_finished : EventType

-- `analysis_stages.status`; `other` is any status of a stage that neither runs nor succeeded.
pub data Status : Type 0 where
  running complete written no_rows_flagged failed : Status
  other : ℕ → Status

-- What the code puts into an event's payload or an audit record's detail.
pub data Payload : Type 0 where
  empty : Payload
  source : (source_id : ℕ) → Payload
  source_digest : (source_id sha256 : ℕ) → Payload
  claim : (attempt worker_id : ℕ) → Payload
  bytes : (bytes_read : ℕ) → Payload
  code : ErrorCode → Payload
  retry : (attempt worker_id : ℕ) (reason : Detail) → Payload
  recovered : Option ErrorCode → Option Detail → (attempt worker_id : ℕ) → Payload
  resume : (recompute_analytics : Bool) → Payload
  grouped : (snapshot_id rows_valid run_id : ℕ) → Payload
  previous : (attempt : ℕ) (recompute_analytics : Bool) → Payload
  stage : Stage → Status → (reason : Option Detail) → (duration_seconds : Option ℕ) → Payload

pub record CaseEvent : Type 0 where
  pub id : ℕ
  pub case_id : ℕ
  pub sequence : ℕ
  pub event_type : EventType
  pub job_id : Option ℕ
  pub stage : Stage
  pub snapshot_id : Option ℕ
  pub payload : Payload

pub record OutboxEvent : Type 0 where
  pub case_id : ℕ
  pub event_id : ℕ
  pub topic : EventType

pub data Action : Type 0 where
  import_queued analysis_retry : Action

pub record AuditRecord : Type 0 where
  pub case_id : ℕ
  pub actor_id : ℕ
  pub action : Action
  pub target_id : ℕ
  pub detail : Payload

pub record AnalysisStage : Type 0 where
  pub job_id : ℕ
  pub case_id : ℕ
  pub name : Stage
  pub attempt : ℕ
  pub status : Status
  pub reason : Option Detail
  pub started_at : ℕ
  pub completed_at : Option ℕ
  pub duration_seconds : Option ℕ

pub record AnalysisRequest : Type 0 where
  pub job_id : ℕ
  pub attempt : ℕ
  pub refresh_analytics : Bool
  pub grouping_only : Bool
  pub fulfilled : Bool

pub record WorkerHeartbeat : Type 0 where
  pub worker_id : ℕ
  pub heartbeat_at : ℕ

pub record EvidenceSource : Type 0 where
  pub id : ℕ
  pub case_id : ℕ
  pub sha256 : ℕ
  pub byte_size : ℕ

-- The tables. Events and the outbox are newest first; `next_id` supplies the fresh identifiers that
-- the code takes from uuid4.
pub record Session : Type 0 where
  pub jobs : List ImportJob
  pub events : List CaseEvent
  pub outbox : List OutboxEvent
  pub audits : List AuditRecord
  pub stages : List AnalysisStage
  pub requests : List AnalysisRequest
  pub heartbeats : List WorkerHeartbeat
  pub sources : List EvidenceSource
  pub next_id : ℕ

-- Assigning to the attributes of a loaded row: the row with its id takes the new values.
abbrev pub replace_job : ImportJob → ImportJob → ImportJob
replace_job job row = if row.id == job.id then job else row

unfoldable pub save_job : ImportJob → Session → Session
save_job job s = record s { jobs = map (replace_job job) s.jobs }

-- `job.state in {"running", "checkpointed"}`
abbrev pub is_leased : JobState → Bool
is_leased JobState.running = true
is_leased JobState.checkpointed = true
is_leased _ = false

abbrev pub is_queued : JobState → Bool
is_queued JobState.queued = true
is_queued _ = false

-- `status in SUCCESS` of app/jobs/analysis.py
abbrev pub is_success : Status → Bool
is_success Status.complete = true
is_success Status.written = true
is_success Status.no_rows_flagged = true
is_success _ = false
