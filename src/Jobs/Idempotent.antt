-- ===== src/Jobs/Idempotent.antt =====
-- Idempotent creation of import jobs, and what a retry accepts.
use trace_x.Common.{
  ℕ, ◌≡◌, sym, ap, ◌∙◌, subst, map, inl, inr, Bool, true, ◌||◌, List, ◌∷◌, some, ◌==◌, find_first,
  Bool-cases, Option-cases, ==_iff, ==_refl,
}
use trace_x.Jobs.Model.{ImportJob, EvidenceSource, Session, replace_job}
use trace_x.Jobs.Service.{Created, has_key, new_job, create_or_reuse_job}
use trace_x.Jobs.Analysis.{is_ended, analysis_view}
use trace_x.Jobs.Retry.{is_case_job, requeued}
use trace_x.Jobs.Rows.{Holds}

module _ (case_id key : ℕ) (source : EvidenceSource) where
  finds-reuses :
      (now actor : ℕ) (t : Session) (job : ImportJob)
      → find_first (has_key case_id key) t.jobs ≡ some job
      → job.source_id ≡ source.id
      → create_or_reuse_job now case_id source key actor t ≡ (Created.made job true, t)
  unfolding create_or_reuse_job
  finds-reuses now actor t job found same =
      rw (found, create_or_reuse_job) (rw ((==_iff job.source_id source.id).1 same))

  -- The new row is the first one that the repeated request finds.
  finds-new :
      (id now : ℕ) (jobs : List ImportJob)
      → find_first (has_key case_id key) (new_job id case_id source.id key now ∷ jobs)
        ≡ some (new_job id case_id source.id key now)
  unfolding find_first
  finds-new id now jobs = rw (==_refl case_id, ==_refl key)

  made_job :
      {job job' : ImportJob} {reused reused' : Bool}
      → Created.made job reused ≡ Created.made job' reused'
      → job ≡ job'
  made_job e = cc

  -- Once a request has made or found its job, repeating it at any time gives that job, marked as
  -- reused, and changes nothing.
  pub create_or_reuse_job-twice :
      (now later actor actor' : ℕ) (s t : Session) {job : ImportJob} {reused : Bool}
      → create_or_reuse_job now case_id source key actor s ≡ (Created.made job reused, t)
      → create_or_reuse_job later case_id source key actor' t ≡ (Created.made job true, t)
  unfolding create_or_reuse_job
  create_or_reuse_job-twice now later actor actor' s t {job} e =
      elim (Option-cases (find_first (has_key case_id key) s.jobs)) [
        | inl absent ↦
            let first = rw (absent, create_or_reuse_job) at e in
            let is_job : new_job s.next_id case_id source.id key now ≡ job =
              made_job (ap (λ r. r.0) first) in
            let jobs : new_job s.next_id case_id source.id key now ∷ s.jobs ≡ t.jobs =
              ap (λ r. r.1.jobs) first in
            finds-reuses later actor' t job
              (subst (λ js. find_first (has_key case_id key) js ≡ some job) jobs
                (subst
                  (λ j.
                    find_first (has_key case_id key)
                      (new_job s.next_id case_id source.id key now ∷ s.jobs)
                    ≡ some j)
                  is_job (finds-new s.next_id now s.jobs)))
              (sym (ap (λ (j : ImportJob). j.source_id) is_job))
        | inr (existing, found) ↦ elim (Bool-cases (existing.source_id == source.id)) [
          | inl same ↦
              let first = rw (found, create_or_reuse_job) at e in
              let second = rw same at first in
              let is_job : existing ≡ job = made_job (ap (λ r. r.0) second) in
              let is_t : s ≡ t = ap (λ r. r.1) second in
              finds-reuses later actor' t job
                (subst (λ (u : Session). find_first (has_key case_id key) u.jobs ≡ some job) is_t
                  (found ∙ ap some is_job))
                (sym (ap (λ (j : ImportJob). j.source_id) is_job) ∙ (==_iff _ _).0 same)
          | inr other ↦ cc (rw (found, other, create_or_reuse_job) at e)
        ]
      ]

-- The job that a retry accepted, and the row that it wrote.
pub record IsAccepted (case_id job_id : ℕ) (recompute : Bool) (s t : Session) (job' : ImportJob)
    : Type 0 where
  pub job : ImportJob
  pub held : Holds job s.jobs
  pub named : is_case_job case_id job_id job ≡ true
  pub ended : is_ended job.state ≡ true
  pub worth : (recompute || (analysis_view s job).retry_supported) ≡ true
  pub written : job' ≡ requeued job
  pub jobs : t.jobs ≡ map (replace_job job') s.jobs
