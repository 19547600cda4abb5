-- ===== src/Jobs/Preserve.antt =====
-- Every operation of the job lifecycle keeps the table of jobs well formed.
use trace_x.Common.{
  ℕ, ◌≡◌, ◌∙◌, refl, subst, inl, inr, Bool, true, false, List, [], ◌∷◌, Option, none, some, arith,
  ◌==◌, find_first, Any, All-mono, All-Any, Bool-cases, Option-cases,
}
use trace_x.Jobs.Model.{ErrorCode, Detail, ImportJob, EvidenceSource, Session}
use trace_x.Jobs.Service.{
  create_or_reuse_job, has_key, claim_next_job, claimable, or_now, next_claimable, claimed,
  complete_job, fail_job,
}
use trace_x.Jobs.Retry.{retry, requeued, retry_refused, is_case_job}
use trace_x.Jobs.Analysis.{is_ended}
use trace_x.Jobs.Rows.{Holds, Holds-id}
use trace_x.Jobs.Claiming.{next_claimable-some}
use trace_x.Jobs.Sound.{is_some, IsSound, IsWellFormed, IsWellFormed-save}

active_not_ended :
    (now : ℕ) (job : ImportJob) → claimable now job ≡ true → is_ended job.state ≡ false
active_not_ended now job free = ground arith

or_now-is_some : (o : Option ℕ) (now : ℕ) → is_some (or_now o now) ≡ true
or_now-is_some none now = refl
or_now-is_some (some t) now = refl

claimed-IsSound :
    (now worker_id lease_seconds : ℕ) (job : ImportJob)
    → IsSound job
    → claimable now job ≡ true
    → IsSound (claimed now worker_id lease_seconds job)
claimed-IsSound now worker_id lease_seconds job ok free = record {
  owned = refl;
  timed = refl;
  ended = ok.ended ∙ active_not_ended now job free;
  coded = λ e. cc;
  started = λ _. (or_now-is_some job.started_at now, omega arith);
}

-- A claim keeps the table well formed.
pub claim_next_job-IsWellFormed :
    (now worker_id lease_seconds : ℕ) (locked : ℕ → Bool) (s : Session)
    → IsWellFormed s
    → IsWellFormed (claim_next_job now worker_id lease_seconds locked s).1
unfolding claim_next_job
claim_next_job-IsWellFormed now worker_id lease_seconds locked s w =
    elim (Option-cases (next_claimable now locked s.jobs)) [
      | inl nothing ↦ rw (nothing, claim_next_job) w
      | inr (found, is_found) ↦
          let o = next_claimable-some now locked s.jobs is_found in
          let ok = All-Any IsSound s.jobs w.sound o.held in
          rw (is_found, claim_next_job)
            (IsWellFormed-save (claimed now worker_id lease_seconds found) s _ w
              (Holds-id found s.jobs o.held)
              (claimed-IsSound now worker_id lease_seconds found ok (ground (arith, o.free))) refl
              (omega arith))
    ]

-- Completing or failing a row of the table keeps it well formed.
pub complete_job-IsWellFormed :
    (now : ℕ) (job : ImportJob) (byte_size : ℕ) (s : Session)
    → IsWellFormed s
    → Any (λ row. row.id ≡ job.id) s.jobs
    → IsWellFormed (complete_job now job byte_size s)
unfolding complete_job
complete_job-IsWellFormed now job byte_size s w m =
    IsWellFormed-save _ s _ w m
      (record { owned = refl; timed = refl; ended = refl; coded = λ e. cc; started = λ e. cc }) refl
      (omega arith)

pub fail_job-IsWellFormed :
    (now : ℕ) (job : ImportJob) (code : ErrorCode) (detail : Detail) (s : Session)
    → IsWellFormed s
    → Any (λ row. row.id ≡ job.id) s.jobs
    → IsWellFormed (fail_job now job code detail s)
unfolding fail_job
fail_job-IsWellFormed now job code detail s w m =
    IsWellFormed-save _ s _ w m
      (record { owned = refl; timed = refl; ended = refl; coded = λ _. refl; started = λ e. cc })
      refl (omega arith)

-- A new job has a fresh key.
pub create_or_reuse_job-IsWellFormed :
    (now case_id : ℕ) (source : EvidenceSource) (key actor : ℕ) (s : Session)
    → IsWellFormed s
    → IsWellFormed (create_or_reuse_job now case_id source key actor s).1
unfolding create_or_reuse_job
create_or_reuse_job-IsWellFormed now case_id source key actor s w =
    elim (Option-cases (find_first (has_key case_id key) s.jobs)) [
      | inl absent ↦
          rw (absent, create_or_reuse_job)
            (record {
              distinct =
                  (All-mono s.jobs (λ row lt e. absurd (omega arith)) w.supplied, w.distinct);
              supplied = (omega arith, All-mono s.jobs (λ row lt. omega arith) w.supplied);
              sound = (
                record {
                  owned = refl;
                  timed = refl;
                  ended = refl;
                  coded = λ e. cc;
                  started = λ e. cc;
                },
                w.sound,
              );
            })
      | inr (existing, found) ↦ elim (Bool-cases (existing.source_id == source.id)) [
        | inl same ↦ rw (found, same, create_or_reuse_job) w
        | inr other ↦ rw (found, other, create_or_reuse_job) w
      ]
    ]

pub find_first-Any :
    (p : ImportJob → Bool) (jobs : List ImportJob) {job : ImportJob}
    → find_first p jobs ≡ some job
    → Holds job jobs × (p job ≡ true)
unfolding find_first
find_first-Any p [] e = cc
find_first-Any p (x ∷ xs) {job} e = elim (Bool-cases (p x)) [
  | inl here ↦
      let is_x : x ≡ job = cc (rw here at e) in (inl is_x, subst (λ r. p r ≡ true) is_x here)
  | inr there ↦ let (m, h) = find_first-Any p xs (rw there at e) in (inr m, h)
]

-- A retry keeps the table well formed, whether it is accepted or refused.
pub retry-IsWellFormed :
    (case_id job_id user_id : ℕ) (recompute member : Bool) (s : Session)
    → IsWellFormed s
    → IsWellFormed (retry case_id job_id user_id recompute member s).1
unfolding retry
retry-IsWellFormed case_id job_id user_id recompute false s w = w
retry-IsWellFormed case_id job_id user_id recompute true s w =
    elim (Option-cases (find_first (is_case_job case_id job_id) s.jobs)) [
      | inl absent ↦ rw (absent, retry) w
      | inr (job, found) ↦
          let (held, _) = find_first-Any (is_case_job case_id job_id) s.jobs found in
          elim (Bool-cases (retry_refused recompute s job)) [
            | inl refused ↦ rw (found, retry) (rw refused w)
            | inr allowed ↦
                rw (found, retry)
                  (rw allowed (
                    IsWellFormed-save (requeued job) s _ w (Holds-id job s.jobs held)
                      (record {
                        owned = refl;
                        timed = refl;
                        ended = refl;
                        coded = λ e. cc;
                        started = λ e. cc;
                      })
                      refl (omega arith)))
          ]
    ]
