-- ===== src/Jobs/Sound.antt =====
-- A well-formed table of jobs: distinct keys below the supply, a lease exactly on the jobs that run,
-- an end exactly on those that ended, and an error code on those that failed.
use trace_x.Common.{
  ◌≤◌, ◌<◌, ◌≡◌, sym, subst, inl, inr, Bool, true, false, List, [], ◌∷◌, map, Option, none, some,
  arith, All, Any, All-mono,
}
use trace_x.Jobs.Model.{JobState, ImportJob, Session, replace_job, is_leased}
use trace_x.Jobs.Analysis.{is_ended}
use trace_x.Jobs.Rows.{DistinctIds, DistinctIds-replace, All-replace}

abbrev pub is_some {ℓ} : {A : Type ℓ} → Option A → Bool
is_some none = false
is_some (some a) = true

abbrev pub is_failed : JobState → Bool
is_failed JobState.failed = true
is_failed _ = false

pub record IsSound (job : ImportJob) : Type 0 where
  pub owned : is_some job.lease_owner ≡ is_leased job.state
  pub timed : is_some job.lease_expires_at ≡ is_leased job.state
  pub ended : is_some job.completed_at ≡ is_ended job.state
  pub coded : is_failed job.state ≡ true → is_some job.error_code ≡ true
  pub started : is_leased job.state ≡ true → (is_some job.started_at ≡ true) × (1 ≤ job.attempt)

pub record IsWellFormed (s : Session) : Type 0 where
  pub distinct : DistinctIds s.jobs
  pub supplied : All (λ job. job.id < s.next_id) s.jobs
  pub sound : All IsSound s.jobs

-- Rows of one table, and a supply that only grew.
pub IsWellFormed-save :
    (job : ImportJob) (s t : Session)
    → IsWellFormed s
    → Any (λ row. row.id ≡ job.id) s.jobs
    → IsSound job
    → t.jobs ≡ map (replace_job job) s.jobs
    → s.next_id ≤ t.next_id
    → IsWellFormed t
IsWellFormed-save job s t w m ok jobs grown = record {
  distinct = subst DistinctIds (sym jobs) (DistinctIds-replace job s.jobs w.distinct);
  supplied = subst (All (λ row. row.id < t.next_id)) (sym jobs) (
      All-replace (λ row. row.id < t.next_id) job s.jobs
        (below s.jobs m (All-mono s.jobs (λ row lt. omega arith) w.supplied))
        (All-mono s.jobs (λ row lt. omega arith) w.supplied));
  sound = subst (All IsSound) (sym jobs) (All-replace IsSound job s.jobs ok w.sound);
}
  where
    below :
        (jobs : List ImportJob)
        → Any (λ row. row.id ≡ job.id) jobs
        → All (λ row. row.id < t.next_id) jobs
        → job.id < t.next_id
    below [] m h = absurd m
    below (x ∷ xs) (inl e) h = ground arith
    below (x ∷ xs) (inr m) h = below xs m h.1
