-- ===== src/Jobs/Retry.antt =====
-- The retry route of app/api/analysis_routes.py: a finished job goes back to the queue.
use trace_x.Common.{
  ℕ, ◌+◌, Bool, true, false, ◌&&◌, ◌||◌, not, ◌∷◌, Option, none, some, ◌==◌, find_first,
}
use trace_x.Jobs.Model.{
  JobState, Stage, ImportJob, EventType, Payload, Action, AuditRecord, AnalysisRequest, Session,
  save_job,
}
use trace_x.Jobs.Service.{append_event}
use trace_x.Jobs.Analysis.{is_ended, analysis_view}

pub data RetryOutcome : Type 0 where
  case_not_found job_not_found conflict : RetryOutcome
  accepted : ImportJob → RetryOutcome

abbrev pub is_case_job : (case_id job_id : ℕ) → ImportJob → Bool
is_case_job case_id job_id job = job.case_id == case_id && job.id == job_id

-- The row that a retry writes.
abbrev pub requeued : ImportJob → ImportJob
requeued job = record job {
  state = JobState.queued;
  stage = Stage.queued;
  error_code = none;
  error_detail = none;
  completed_at = none;
  lease_owner = none;
  lease_expires_at = none;
}

-- `job.state not in {"failed", "completed"} or (not recompute_analytics and not retry_supported)`
abbrev pub retry_refused : (recompute : Bool) → Session → ImportJob → Bool
retry_refused recompute s job =
    not (is_ended job.state) || not recompute && not (analysis_view s job).retry_supported

abbrev pub requeue : (case_id user_id : ℕ) (recompute : Bool) → ImportJob → Session → Session
requeue case_id user_id recompute job s =
    let request : AnalysisRequest = record {
      job_id = job.id;
      attempt = job.attempt + 1;
      refresh_analytics = recompute;
      grouping_only = false;
      fulfilled = false;
    } in
    let job' = requeued job in
    let saved = save_job job' (record s { requests = request ∷ s.requests }) in
    let logged =
      (append_event case_id EventType.retry_queued Stage.queued (some job')
        (Payload.resume recompute) saved).1 in
    let audit : AuditRecord = record {
      case_id = case_id;
      actor_id = user_id;
      action = Action.analysis_retry;
      target_id = job.id;
      detail = Payload.previous job.attempt recompute;
    } in
    record logged { audits = audit ∷ logged.audits }

abbrev pub answer :
    (case_id user_id : ℕ) (recompute refused : Bool) → ImportJob → Session → RetryOutcome × Session
answer case_id user_id recompute true job s = (RetryOutcome.conflict, s)
answer case_id user_id recompute false job s =
    (RetryOutcome.accepted (requeued job), requeue case_id user_id recompute job s)

abbrev pub retry_found :
    (case_id user_id : ℕ) (recompute : Bool) → Option ImportJob → Session → RetryOutcome × Session
retry_found case_id user_id recompute none s = (RetryOutcome.job_not_found, s)
retry_found case_id user_id recompute (some job) s =
    answer case_id user_id recompute (retry_refused recompute s job) job s

-- `retry`; `member` is what `require_case_member` finds.
unfoldable pub retry :
    (case_id job_id user_id : ℕ) (recompute member : Bool) → Session → RetryOutcome × Session
unfolding find_first save_job append_event analysis_view
retry case_id job_id user_id recompute false s = (RetryOutcome.case_not_found, s)
retry case_id job_id user_id recompute true s =
    retry_found case_id user_id recompute (find_first (is_case_job case_id job_id) s.jobs) s
