-- ===== src/Jobs/Attempts.antt =====
-- The attempts at a claimed job, and what is committed after them.
use trace_x.Common.{
  ℕ, zero, suc, ◌+◌, ◌≤◌, ◌≡◌, refl, ◌⊎◌, inl, inr, Bool, true, false, ◌&&◌, Option, none, some,
  arith, ◌==◌, All-Any, All-mono,
}
use trace_x.Jobs.Model.{Stage, ImportJob, EvidenceSource, Session, Status, Detail, save_job}
use trace_x.Jobs.Analysis.{Txn, StageTracker, start, finish}
use trace_x.Jobs.Rows.{Holds, Holds-id}
use trace_x.Jobs.Sound.{IsSound, IsWellFormed, IsWellFormed-save}
use trace_x.Jobs.Worker.{
  World, Failure, Result, ok, raised, attempt_job, after_verification, ingest_after, recover,
  Recovery, stop, again, run_attempts, ErrorClass, is_retryable_database_error,
}
use trace_x.Jobs.Recovery.{recover-IsWellFormed, recover-again, recover-settles, Released}

-- Both the last commit and the pending session are well formed.
abbrev pub IsSafe : Txn → Type 0
IsSafe t = IsWellFormed t.committed × IsWellFormed t.current

-- What the stages and the other connections must keep.
pub record KeepsTable (w : World) : Type 0 where
  pub others : (attempt : ℕ) (s : Session) → IsWellFormed s → IsWellFormed (w.others attempt s)
  pub grouping : (job : ImportJob) (t : Txn) → IsSafe t → IsSafe (w.run_grouping_only job t).1
  pub ingest :
      (job : ImportJob) (source : EvidenceSource) (t : Txn)
      → IsSafe t
      → IsSafe (w.ingest_source job source t).1

-- A session with the same jobs, whose supply only grew.
pub IsWellFormed-same :
    (s t : Session) → IsWellFormed s → t.jobs ≡ s.jobs → s.next_id ≤ t.next_id → IsWellFormed t
IsWellFormed-same s t w jobs grown = record {
  distinct = rw jobs w.distinct;
  supplied = rw jobs (All-mono s.jobs (λ row lt. omega arith) w.supplied);
  sound = rw jobs w.sound;
}

start-IsSafe :
    (now : ℕ) (job : ImportJob) (t : Txn)
    → IsWellFormed t.current
    → IsSafe (start now job Stage.source_verification false none t).1
unfolding start
start-IsSafe now job t w = (
  IsWellFormed-same t.current _ w refl (omega arith),
  IsWellFormed-same t.current _ w refl (omega arith),
)

finish-IsSafe :
    (now : ℕ) (job : ImportJob) (status : Status) (reason : Option Detail) (tracker : StageTracker)
    (t : Txn)
    → IsSafe t
    → IsSafe (finish now job status reason tracker t).1
unfolding finish
finish-IsSafe now job status reason none t w = w
finish-IsSafe now job status reason (some row) t w = (
  IsWellFormed-same t.current _ w.1 refl (omega arith),
  IsWellFormed-same t.current _ w.1 refl (omega arith),
)

ingest_after-IsSafe :
    (r : Result Bool × Txn) (next : Txn → Result (Unit {0}) × Txn)
    → IsSafe r.1
    → ((t : Txn) → IsSafe t → IsSafe (next t).1)
    → IsSafe (ingest_after r next).1
ingest_after-IsSafe (raised f, t) next h k = h
ingest_after-IsSafe (ok true, t) next h k = h
ingest_after-IsSafe (ok false, t) next h k = k t h

Result-cases {ℓ} :
    {A : Type 0} {C : Type ℓ} (r : Result A)
    → ((a : A) → r ≡ ok a → C)
    → ((f : Failure) → r ≡ raised f → C)
    → C
Result-cases (ok a) k n = k a refl
Result-cases (raised f) k n = n f refl

after_verification-IsSafe :
    (w : World) (now : ℕ) (job : ImportJob) (tracker : StageTracker) (r : Result EvidenceSource)
    (t : Txn)
    → KeepsTable w
    → IsSafe t
    → IsSafe (after_verification w now job tracker r t).1
after_verification-IsSafe w now job tracker (raised f) t keeps h = h
after_verification-IsSafe w now job tracker (ok found) t keeps h =
    let t' = (finish now job Status.complete none tracker t).1 in
    ingest_after-IsSafe (w.run_grouping_only job t') (w.ingest_source job found)
      (keeps.grouping job t' (finish-IsSafe now job Status.complete none tracker t h))
      (keeps.ingest job found)

Recovery-cases {ℓ} :
    {C : Type ℓ} (r : Recovery) → (r ≡ stop → C) → ((job : ImportJob) → r ≡ again job → C) → C
Recovery-cases stop k n = k refl
Recovery-cases (again job) k n = n job refl

-- An attempt leaves the committed and the pending tables well formed, however it ends.
attempt_job-IsSafe :
    (w : World) (now : ℕ) (job : ImportJob) (source_id : ℕ) (db : Session)
    → KeepsTable w
    → IsWellFormed db
    → Holds job db.jobs
    → IsSafe (attempt_job w now job source_id (record { committed = db; current = db })).1
unfolding attempt_job save_job
attempt_job-IsSafe w now job source_id db keeps wf held =
    let ok_job = All-Any IsSound db.jobs wf.sound held in
    let job' : ImportJob = record job { stage = Stage.source_verification } in
    let begun : Txn = record { committed = db; current = save_job job' db } in
    after_verification-IsSafe w now job'
      (start now job' Stage.source_verification false none begun).0 _
      (start now job' Stage.source_verification false none begun).1 keeps
      (start-IsSafe now job' begun (
        IsWellFormed-save job' db begun.current wf (Holds-id job db.jobs held)
          (record {
            owned = ok_job.owned;
            timed = ok_job.timed;
            ended = ok_job.ended;
            coded = ok_job.coded;
            started = ok_job.started;
          })
          refl (omega arith)))

first_attempt :
    (class : ErrorClass) (attempt : ℕ)
    → (is_retryable_database_error class && (attempt == 0)) ≡ true
    → attempt ≡ 0
first_attempt class attempt h = ground arith

module _ (w : World) (source_id : ℕ) where
  abbrev pub attempt_of : (attempt : ℕ) → ImportJob → Session → Result (Unit {0}) × Txn
  attempt_of attempt job db =
      attempt_job w (w.now attempt) job source_id (record { committed = db; current = db })

  -- Some attempt returned, and this is what it had committed.
  pub record Returned (final : Session) : Type 0 where
    pub attempt : ℕ
    pub job : ImportJob
    pub db : Session
    pub returned : (attempt_of attempt job db).0 ≡ ok tt
    pub committed : final ≡ (attempt_of attempt job db).1.committed

module _ (w : World) (worker_id lease_seconds job_id source_id : ℕ) (keeps : KeepsTable w) where
  abbrev recovery_of : (attempt : ℕ) → Failure → Session → Recovery × Session
  recovery_of attempt f db =
      recover (w.now attempt) worker_id lease_seconds attempt job_id f (w.others attempt db)

  -- At least one attempt is left; if there is only one, this is not the first.
  pub run_attempts-settled :
      (left attempt : ℕ) (job : ImportJob) (db : Session)
      → IsWellFormed db
      → Holds job db.jobs
      → 1 ≤ left
      → 2 ≤ left + attempt
      → let final = run_attempts w worker_id lease_seconds job_id source_id left attempt job db in
        IsWellFormed final × (Returned w source_id final ⊎ Released worker_id job_id final)
  unfolding run_attempts
  run_attempts-settled zero attempt job db wf held one two = absurd (omega arith)
  run_attempts-settled (suc left) attempt job db wf held one two =
      let safe = attempt_job-IsSafe w (w.now attempt) job source_id db keeps wf held in
      let t = (attempt_of w source_id attempt job db).1 in
      let seen = keeps.others attempt t.committed safe.0 in
      Result-cases (attempt_of w source_id attempt job db).0
        (λ a returned.
          rw (returned, run_attempts)
            (
              safe.0,
              inl (record {
                attempt = attempt;
                job = job;
                db = db;
                returned = returned;
                committed = refl;
              }),
            ))
        (λ f failed.
          let after =
            recover-IsWellFormed (w.now attempt) worker_id lease_seconds attempt job_id f
              (w.others attempt t.committed) seen in
          Recovery-cases (recovery_of attempt f t.committed).0
            (λ stopped.
              rw (failed, run_attempts)
                (rw stopped (
                  after,
                  inr (
                      recover-settles (w.now attempt) worker_id lease_seconds attempt job_id f _
                        seen stopped),
                )))
            (λ job' asked.
              let (transient, _, held') =
                recover-again (w.now attempt) worker_id lease_seconds attempt job_id f
                  (w.others attempt t.committed) asked in
              let first = first_attempt f.class attempt transient in
              rw (failed, run_attempts)
                (rw asked (
                  run_attempts-settled left (attempt + 1) job' _ after held' (omega arith)
                    (omega arith)))))
