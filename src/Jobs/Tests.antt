-- ===== src/Jobs/Tests.antt =====
-- Small sessions, runs of the job lifecycle on them, and each theorem at an input that meets its
-- hypotheses.
use trace_x.Common.{ℕ, ◌≡◌, refl, inl, inr, true, false, [], ◌∷◌, none, some, arith, All, map}
use trace_x.Jobs.Model.{
  JobState, Stage, ErrorCode, ImportJob, EventType, Payload, Status, AnalysisStage, EvidenceSource,
  Session, replace_job, is_success,
}
use trace_x.Jobs.Service.{
  Created, new_job, create_or_reuse_job, claim_next_job, next_claimable, claimed, complete_job,
  append_event,
}
use trace_x.Jobs.Analysis.{analysis_view, required_stages}
use trace_x.Jobs.Retry.{retry}
use trace_x.Jobs.Regroup.{persist}
use trace_x.Jobs.Rows.{Holds}
use trace_x.Jobs.Claiming.{IsOldest, claim_next_job-some}
use trace_x.Jobs.Sound.{IsWellFormed}
use trace_x.Jobs.Events.{IsLog, append_event-IsLog}
use trace_x.Jobs.Lease.{Step, Run, lease_exclusive}
use trace_x.Jobs.Worker.{
  World, Failure, ErrorClass, SourceFile, ok, raised, recover, process_one,
  is_retryable_database_error,
}
use trace_x.Jobs.Recovery.{Released, recover-leaves_others, recover-settles}
use trace_x.Jobs.Idempotent.{create_or_reuse_job-twice}
use trace_x.Jobs.View.{NewestSucceeded, analysis_view-complete}

abbrev source : EvidenceSource
source = record { id = 5; case_id = 1; sha256 = 77; byte_size = 900 }

abbrev waiting : ImportJob
waiting = new_job 2 1 5 31 40

abbrev leased : ImportJob
leased = claimed 50 7 30 (new_job 3 1 5 32 20)

abbrev finished : ImportJob
finished = record (new_job 4 1 5 33 10) {
  state = JobState.completed;
  stage = Stage.ingested;
  attempt = 1;
  started_at = some 11;
  completed_at = some 30;
}

abbrev session : Session
session = record {
  jobs = waiting ∷ leased ∷ finished ∷ [];
  events = [];
  outbox = [];
  audits = [];
  stages = [];
  requests = [];
  heartbeats = [];
  sources = source ∷ [];
  next_id = 10;
}

program : Unit {0}
unfolding claim_next_job next_claimable create_or_reuse_job retry analysis_view recover process_one
program = tt

-- The waiting job is older than no other claimable one; the lease of job 3 lasts to 80.
claim_waiting : (claim_next_job 60 8 30 (λ _. false) session).0 ≡ some (claimed 60 8 30 waiting)
unfolding program
claim_waiting = refl

-- After 80 the lease of job 3 is gone, and it is the oldest.
reclaim : (claim_next_job 81 8 30 (λ _. false) session).0 ≡ some (claimed 81 8 30 leased)
unfolding program
reclaim = refl

session-IsWellFormed : IsWellFormed session
session-IsWellFormed = record {
  distinct = ((omega arith, (omega arith, tt)), ((omega arith, tt), (tt, tt)));
  supplied = (omega arith, (omega arith, (omega arith, tt)));
  sound = (
    record { owned = refl; timed = refl; ended = refl; coded = λ e. cc; started = λ e. cc },
    (
      record {
        owned = refl;
        timed = refl;
        ended = refl;
        coded = λ e. cc;
        started = λ _. (refl, omega arith);
      },
      (record { owned = refl; timed = refl; ended = refl; coded = λ e. cc; started = λ e. cc }, tt),
    ),
  );
}

claim_next_job-some_example :
    (found : ImportJob) × IsOldest 81 (λ _. false) session.jobs found
    × (claimed 81 8 30 leased ≡ claimed 81 8 30 found)
    × ((claim_next_job 81 8 30 (λ _. false) session).1.jobs
        ≡ map (replace_job (claimed 81 8 30 leased)) session.jobs)
claim_next_job-some_example = claim_next_job-some 81 8 30 (λ _. false) session reclaim

append_event-IsLog_example :
    IsLog (append_event 1 EventType.import_queued Stage.queued none Payload.empty session).1
    × ((append_event 1 EventType.import_queued Stage.queued none Payload.empty session).0.sequence
        ≡ 1)
append_event-IsLog_example =
    append_event-IsLog 1 EventType.import_queued Stage.queued none Payload.empty session
      (record { numbered = tt; posted = tt })

-- A deadlock that PostgreSQL reports, and a failure of the program.
abbrev deadlock : Failure
deadlock = record {
  class = ErrorClass.wrapped (record {
    sqlstate = some "40P01";
    pgcode = none;
    is_sqlite = false;
    sqlite_errorcode = none;
  });
  message = 1 ∷ [];
}

abbrev broken : Failure
broken = record { class = ErrorClass.other; message = 2 ∷ [] }

abbrev others_claimed : Session
others_claimed = (claim_next_job 70 9 30 (λ _. false) session).1

abbrev others_finished : Session
others_finished = complete_job 75 (claimed 70 9 30 waiting) 900 others_claimed

-- A stale worker that fails on the leased job.
abbrev others_failed : Session
others_failed = (recover 78 9 30 0 3 deadlock others_finished).1

-- The progress of an earlier attempt at the leased job.
abbrev others_noted : Session
others_noted = (persist 79 30 3 0 7 broken others_failed).1

others-Run : Run leased 80 session others_noted
unfolding program
others-Run =
    Run.next
      (Run.next
        (Run.next (Run.next Run.here (Step.claim 70 9 30 (λ _. false) (omega arith) refl))
          (Step.complete 75 (claimed 70 9 30 waiting) 900 (inl refl) (omega arith) refl))
        (Step.handle 78 9 30 0 3 deadlock refl refl))
      (Step.progress 79 30 3 0 7 broken refl refl)

lease_exclusive_example : Holds leased others_noted.jobs × IsWellFormed others_noted
lease_exclusive_example =
    lease_exclusive leased 80 session others_noted session-IsWellFormed
      (record { leased = refl; expiry = 80; expires = refl; lasts = omega arith }) (inr (inl refl))
      others-Run

transient_codes :
    (is_retryable_database_error deadlock.class ≡ true)
    × (is_retryable_database_error broken.class ≡ false)
    × (is_retryable_database_error (
          ErrorClass.driver (record {
            sqlstate = some "";
            pgcode = none;
            is_sqlite = true;
            sqlite_errorcode = some 517;
          }))
        ≡ true)
unfolding is_retryable_database_error
transient_codes = (refl, refl, refl)

recover-leaves_others_example : Holds finished (recover 60 7 30 0 3 deadlock session).1.jobs
recover-leaves_others_example =
    recover-leaves_others 60 7 30 0 3 deadlock session finished session-IsWellFormed
      (inr (inr (inl refl))) refl

recover-settles_example : Released 7 3 (recover 60 7 30 1 3 deadlock session).1
unfolding program
recover-settles_example = recover-settles 60 7 30 1 3 deadlock session session-IsWellFormed refl

-- A world in which the verification passes and the ingestion fails with a deadlock each time.
abbrev unlucky : World
unlucky = record {
  now = λ n. 60;
  others = λ n s. s;
  files = λ s. SourceFile.file 77 900;
  run_grouping_only = λ job t. (ok false, t);
  ingest_source = λ job s t. (raised deadlock, t);
  runtime_error = broken;
}

unlucky_fails :
    (process_one unlucky 60 8 30 (λ _. false) session).1.jobs
    ≡ record (claimed 60 8 30 waiting) {
      state = JobState.failed;
      stage = Stage.failed;
      attempt = 2;
      lease_owner = none;
      lease_expires_at = none;
      error_code = some ErrorCode.source_verification_failed;
      error_detail = some (1 ∷ []);
      completed_at = some 60;
    }
      ∷ leased
      ∷ finished
      ∷ []
unfolding program
unlucky_fails = refl

abbrev created : Session
created = (create_or_reuse_job 60 1 source 99 3 session).1

create_or_reuse_job-twice_example :
    create_or_reuse_job 70 1 source 99 4 created
    ≡ (Created.made (new_job 10 1 5 99 60) true, created)
unfolding program
create_or_reuse_job-twice_example =
    create_or_reuse_job-twice 1 99 source 60 70 3 4 session created {reused = false} refl

abbrev outcome : Stage → ℕ → Status → AnalysisStage
outcome name attempt status = record {
  job_id = 4;
  case_id = 1;
  name = name;
  attempt = attempt;
  status = status;
  reason = none;
  started_at = 12;
  completed_at = some 13;
  duration_seconds = some 1;
}

-- The findings failed at the first attempt and were written at the second.
abbrev analysed : Session
analysed = record session {
  stages =
      outcome Stage.findings 2 Status.written
      ∷ outcome Stage.source_verification 1 Status.complete
      ∷ outcome Stage.ingesting 1 Status.complete
      ∷ outcome Stage.graph_building 1 Status.complete
      ∷ outcome Stage.findings 1 Status.failed
      ∷ outcome Stage.ml_scoring 1 Status.no_rows_flagged
      ∷ outcome Stage.analytics 1 Status.complete
      ∷ outcome Stage.investigation_grouping 1 Status.complete
      ∷ [];
}

analysis_view-complete_example :
    (finished.state ≡ JobState.completed)
    × All (NewestSucceeded analysed 4) required_stages
    × All (λ row. is_success row.status ≡ true) (analysis_view analysed finished).stages
unfolding program
analysis_view-complete_example = analysis_view-complete analysed finished refl
