-- ===== src/Jobs/Service.antt =====
-- app/events.py and app/jobs/service.py.
use trace_x.Common.{
  ℕ, ◌+◌, ◌-◌, Bool, true, false, ◌&&◌, ◌||◌, not, List, [], ◌∷◌, map, Option, none, some, ◌==◌,
  ltb, if◌then◌else◌, find_first, take,
}
use trace_x.Jobs.Model.{
  JobState, Stage, ErrorCode, Detail, ImportJob, EventType, Payload, CaseEvent, OutboxEvent, Action,
  AuditRecord, Status, AnalysisStage, WorkerHeartbeat, EvidenceSource, Session, save_job, is_leased,
  is_queued,
}

-- `select(func.max(CaseEvent.sequence)).where(case_id == ...)) or 0`
unfoldable pub max_sequence : ℕ → List CaseEvent → ℕ
max_sequence case_id [] = 0
max_sequence case_id (e ∷ es) =
    let rest = max_sequence case_id es in
    if e.case_id == case_id && ltb rest e.sequence then e.sequence else rest

abbrev job_id_of : Option ImportJob → Option ℕ
job_id_of none = none
job_id_of (some job) = some job.id

abbrev snapshot_of : Option ImportJob → Option ℕ
snapshot_of none = none
snapshot_of (some job) = job.snapshot_id

-- `append_event`. The row lock on the case has no effect inside one transaction.
unfoldable pub append_event :
    (case_id : ℕ) → EventType → Stage → Option ImportJob → Payload → Session → CaseEvent × Session
append_event case_id event_type stage job payload s =
    let event : CaseEvent = record {
      id = s.next_id;
      case_id = case_id;
      sequence = max_sequence case_id s.events + 1;
      event_type = event_type;
      job_id = job_id_of job;
      stage = stage;
      snapshot_id = snapshot_of job;
      payload = payload;
    } in
    let out : OutboxEvent = record {
      case_id = case_id;
      event_id = s.next_id;
      topic = event_type;
    } in
    (
      event,
      record s { events = event ∷ s.events; outbox = out ∷ s.outbox; next_id = s.next_id + 1 },
    )

abbrev beat : (worker_id now : ℕ) → List WorkerHeartbeat → List WorkerHeartbeat
beat worker_id now [] = record { worker_id = worker_id; heartbeat_at = now } ∷ []
beat worker_id now (h ∷ hs) =
    if h.worker_id == worker_id
    then record h { heartbeat_at = now } ∷ hs
    else h ∷ beat worker_id now hs

-- `record_worker_heartbeat`
unfoldable pub record_worker_heartbeat : (worker_id now : ℕ) → Session → Session
record_worker_heartbeat worker_id now s = record s { heartbeats = beat worker_id now s.heartbeats }

-- What `create_or_reuse_job` returns or raises.
pub data Created : Type 0 where
  made : (job : ImportJob) (reused : Bool) → Created
  key_conflict : Created

abbrev pub has_key : (case_id key : ℕ) → ImportJob → Bool
has_key case_id key job = job.case_id == case_id && job.idempotency_key == key

abbrev pub new_job : (id case_id source_id key now : ℕ) → ImportJob
new_job id case_id source_id key now = record {
  id = id;
  case_id = case_id;
  source_id = source_id;
  idempotency_key = key;
  state = JobState.queued;
  stage = Stage.queued;
  lease_owner = none;
  lease_expires_at = none;
  attempt = 0;
  bytes_read = 0;
  rows_seen = 0;
  rows_accepted = 0;
  rows_quarantined = 0;
  total_records = none;
  snapshot_id = none;
  error_code = none;
  error_detail = none;
  created_at = now;
  started_at = none;
  completed_at = none;
}

-- The branch of `create_or_reuse_job` that adds a row.
abbrev add_job : (now case_id : ℕ) → EvidenceSource → (key actor : ℕ) → Session → Created × Session
add_job now case_id source key actor s =
    let job = new_job s.next_id case_id source.id key now in
    let added : Session = record s { jobs = job ∷ s.jobs; next_id = s.next_id + 1 } in
    let (_, logged) =
      append_event case_id EventType.import_queued Stage.queued (some job)
        (Payload.source source.id) added in
    let audit : AuditRecord = record {
      case_id = case_id;
      actor_id = actor;
      action = Action.import_queued;
      target_id = job.id;
      detail = Payload.source_digest source.id source.sha256;
    } in
    (Created.made job false, record logged { audits = audit ∷ logged.audits })

unfoldable pub create_or_reuse_job :
    (now case_id : ℕ) → EvidenceSource → (key actor : ℕ) → Session → Created × Session
unfolding append_event find_first
create_or_reuse_job now case_id source key actor s =
    elim (find_first (has_key case_id key) s.jobs) [
      | some existing ↦
          if existing.source_id == source.id
          then (Created.made existing true, s)
          else (Created.key_conflict, s)
      | none ↦ add_job now case_id source key actor s
    ]

-- A comparison with NULL is not true.
abbrev pub expired : (now : ℕ) → Option ℕ → Bool
expired now none = false
expired now (some t) = ltb t now

-- The `where` of `claim_next_job`.
abbrev pub claimable : (now : ℕ) → ImportJob → Bool
claimable now job = is_queued job.state || is_leased job.state && expired now job.lease_expires_at

-- The earlier of a candidate and the best one behind it; a row that does not qualify is passed over.
abbrev pub prefer : Bool → ImportJob → Option ImportJob → Option ImportJob
prefer false job best = best
prefer true job none = some job
prefer true job (some other) = if ltb other.created_at job.created_at then some other else some job

-- The row of `order_by(created_at).limit(1)`; rows in `locked` are held by another transaction and
-- skipped.
unfoldable pub next_claimable : (now : ℕ) (locked : ℕ → Bool) → List ImportJob → Option ImportJob
next_claimable now locked [] = none
next_claimable now locked (job ∷ jobs) =
    prefer (claimable now job && not (locked job.id)) job (next_claimable now locked jobs)

abbrev pub or_now : Option ℕ → ℕ → Option ℕ
or_now none now = some now
or_now (some t) now = some t

-- The row that a claim writes.
abbrev pub claimed : (now worker_id lease_seconds : ℕ) → ImportJob → ImportJob
claimed now worker_id lease_seconds job = record job {
  state = JobState.running;
  stage = Stage.source_verification;
  lease_owner = some worker_id;
  lease_expires_at = some (now + lease_seconds);
  attempt = job.attempt + 1;
  started_at = or_now job.started_at now;
}

unfoldable pub claim_next_job :
    (now worker_id lease_seconds : ℕ) (locked : ℕ → Bool) → Session → Option ImportJob × Session
unfolding append_event save_job
claim_next_job now worker_id lease_seconds locked s = elim (next_claimable now locked s.jobs) [
  | none ↦ (none, s)
  | some found ↦
      let job = claimed now worker_id lease_seconds found in
      let (_, logged) =
        append_event job.case_id
          (if is_leased found.state then EventType.import_reclaimed else EventType.import_started)
          job.stage (some job) (Payload.claim job.attempt worker_id) (save_job job s) in
      (some job, logged)
]

-- `complete_job`
unfoldable pub complete_job : (now : ℕ) → ImportJob → (byte_size : ℕ) → Session → Session
unfolding append_event save_job
complete_job now job byte_size s =
    let done : ImportJob = record job {
      state = JobState.completed;
      stage = Stage.source_verified;
      bytes_read = byte_size;
      lease_owner = none;
      lease_expires_at = none;
      completed_at = some now;
    } in
    (append_event job.case_id EventType.import_completed Stage.source_verified (some done)
      (Payload.bytes byte_size) (save_job done s)).1

abbrev is_running : Status → Bool
is_running Status.running = true
is_running _ = false

-- `reason[:2000]`
abbrev pub cut : Detail → Detail
cut detail = take 2000 detail

abbrev pub fail_stage : (now job_id : ℕ) → Detail → AnalysisStage → AnalysisStage
fail_stage now job_id reason row =
    if row.job_id == job_id && is_running row.status
    then record row {
      status = Status.failed;
      reason = some (cut reason);
      completed_at = some now;
      duration_seconds = some (now - row.started_at);
    }
    else row

-- `fail_running_stage` of app/jobs/analysis.py: `max(0.0, now - start)` is the subtraction of ℕ.
unfoldable pub fail_running_stage : (now : ℕ) → ImportJob → Detail → Session → Session
fail_running_stage now job reason s = record s {
  stages = map (fail_stage now job.id reason) s.stages;
}

abbrev pub failed_job : (now : ℕ) → ErrorCode → Detail → ImportJob → ImportJob
failed_job now code detail job = record job {
  state = JobState.failed;
  stage = Stage.failed;
  error_code = some code;
  error_detail = some (cut detail);
  lease_owner = none;
  lease_expires_at = none;
  completed_at = some now;
}

-- `fail_job`
unfoldable pub fail_job : (now : ℕ) → ImportJob → ErrorCode → Detail → Session → Session
unfolding append_event save_job fail_running_stage
fail_job now job code detail s =
    let dead = failed_job now code detail job in
    (append_event job.case_id EventType.import_failed Stage.failed (some dead) (Payload.code code)
      (save_job dead (fail_running_stage now job detail s))).1
