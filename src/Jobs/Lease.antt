-- ===== src/Jobs/Lease.antt =====
-- Mutual exclusion by leases. Workers, users and the retry route act in any order; a job that is
-- leased to one worker is left alone by all others until the lease runs out.
use trace_x.Common.{
  ℕ, ◌≤◌, ◌≡◌, ◌≢◌, sym, ap, inl, inr, Bool, true, false, ◌||◌, not, some, arith, ◌==◌, find_first,
  Bool-cases, Option-cases,
}
use trace_x.Jobs.Model.{ErrorCode, Detail, ImportJob, EvidenceSource, Session, is_leased, save_job}
use trace_x.Jobs.Service.{
  record_worker_heartbeat, create_or_reuse_job, has_key, claim_next_job, claimable, next_claimable,
  claimed, complete_job, fail_job, append_event,
}
use trace_x.Jobs.Analysis.{is_ended}
use trace_x.Jobs.Retry.{retry, requeued, retry_refused, is_case_job}
use trace_x.Jobs.Rows.{Holds, DistinctIds-eq, Holds-replace_ne, Holds-id}
use trace_x.Jobs.Claiming.{next_claimable-some}
use trace_x.Jobs.Sound.{IsWellFormed}
use trace_x.Jobs.Preserve.{
  claim_next_job-IsWellFormed, complete_job-IsWellFormed, fail_job-IsWellFormed,
  create_or_reuse_job-IsWellFormed, retry-IsWellFormed, find_first-Any,
}
use trace_x.Jobs.Worker.{Failure, recover}
use trace_x.Jobs.Regroup.{keeps_lease, persist}
use trace_x.Jobs.Extended.{persist-IsWellFormed, persist-leaves_others}
use trace_x.Jobs.Recovery.{holds_lease, recover-IsWellFormed, recover-leaves_others}

-- What anybody but the owner of the row `own` may do up to the time `until`.
pub data Step (own : ImportJob) (until : ℕ) (s t : Session) : Type 0 where
  create :
      (now case_id : ℕ) (source : EvidenceSource) (key actor : ℕ)
      → t ≡ (create_or_reuse_job now case_id source key actor s).1
      → Step own until s t
  claim :
      (now worker_id lease_seconds : ℕ) (locked : ℕ → Bool)
      → now ≤ until
      → t ≡ (claim_next_job now worker_id lease_seconds locked s).1
      → Step own until s t
  beat : (worker_id now : ℕ) → t ≡ record_worker_heartbeat worker_id now s → Step own until s t
  complete :
      (now : ℕ) (job : ImportJob) (byte_size : ℕ)
      → Holds job s.jobs
      → job.id ≢ own.id
      → t ≡ complete_job now job byte_size s
      → Step own until s t
  fail :
      (now : ℕ) (job : ImportJob) (code : ErrorCode) (detail : Detail)
      → Holds job s.jobs
      → job.id ≢ own.id
      → t ≡ fail_job now job code detail s
      → Step own until s t
  requeue :
      (case_id job_id user_id : ℕ) (recompute member : Bool)
      → t ≡ (retry case_id job_id user_id recompute member s).1
      → Step own until s t
  -- the failure handler of a worker that does not hold the row's lease
  handle :
      (now worker_id lease_seconds attempt job_id : ℕ) (f : Failure)
      → holds_lease worker_id own ≡ false
      → t ≡ (recover now worker_id lease_seconds attempt job_id f s).1
      → Step own until s t
  -- the progress connection of a worker or an attempt that does not hold the row's lease
  progress :
      (now lease_seconds job_id attempt worker_id : ℕ) (lost : Failure)
      → keeps_lease job_id attempt worker_id own ≡ false
      → t ≡ (persist now lease_seconds job_id attempt worker_id lost s).1
      → Step own until s t

pub data Run (own : ImportJob) (until : ℕ) (s : Session) : Session → Type 0 where
  here : Run own until s s
  next : {t u : Session} → Run own until s t → Step own until t u → Run own until s u

-- The row is leased, and its lease lasts to the time.
pub record IsLeasedUntil (until : ℕ) (job : ImportJob) : Type 0 where
  pub leased : is_leased job.state ≡ true
  pub expiry : ℕ
  pub expires : job.lease_expires_at ≡ some expiry
  pub lasts : until ≤ expiry

Step-IsWellFormed :
    {own : ImportJob} {until : ℕ} (s t : Session)
    → IsWellFormed s
    → Step own until s t
    → IsWellFormed t
unfolding record_worker_heartbeat
Step-IsWellFormed s t w (create now case_id source key actor e) =
    rw e (create_or_reuse_job-IsWellFormed now case_id source key actor s w)
Step-IsWellFormed s t w (claim now worker_id lease_seconds locked early e) =
    rw e (claim_next_job-IsWellFormed now worker_id lease_seconds locked s w)
Step-IsWellFormed s t w (beat worker_id now e) =
    rw e (record { distinct = w.distinct; supplied = w.supplied; sound = w.sound })
Step-IsWellFormed s t w (complete now job byte_size held other e) =
    rw e (complete_job-IsWellFormed now job byte_size s w (Holds-id job s.jobs held))
Step-IsWellFormed s t w (fail now job code detail held other e) =
    rw e (fail_job-IsWellFormed now job code detail s w (Holds-id job s.jobs held))
Step-IsWellFormed s t w (requeue case_id job_id user_id recompute member e) =
    rw e (retry-IsWellFormed case_id job_id user_id recompute member s w)
Step-IsWellFormed s t w (handle now worker_id lease_seconds attempt job_id f other e) =
    rw e (recover-IsWellFormed now worker_id lease_seconds attempt job_id f s w)
Step-IsWellFormed s t w (progress now lease_seconds job_id attempt worker_id lost other e) =
    rw e (persist-IsWellFormed now lease_seconds job_id attempt worker_id lost s w)

-- A leased row is not up for a claim.
leased-not-claimable :
    (now until : ℕ) (job : ImportJob)
    → IsLeasedUntil until job
    → now ≤ until
    → claimable now job ≡ false
leased-not-claimable now until job l early = ground (arith, l.leased, l.expires, l.lasts)

leased-not-ended : (job : ImportJob) → is_leased job.state ≡ true → is_ended job.state ≡ false
leased-not-ended job h = ground arith

-- Rows that disagree on a test have different keys.
other_key :
    (p : ImportJob → Bool) (s : Session) (a b : ImportJob)
    → IsWellFormed s
    → Holds a s.jobs
    → Holds b s.jobs
    → p a ≡ false
    → p b ≡ true
    → a.id ≢ b.id
other_key p s a b w ha hb pa pb e =
    let same = DistinctIds-eq s.jobs w.distinct ha hb e in cc (ap p same)

module _ (own : ImportJob) (until : ℕ) (leased : IsLeasedUntil until own) where
  claim-keeps :
      (now worker_id lease_seconds : ℕ) (locked : ℕ → Bool) (s : Session)
      → IsWellFormed s
      → now ≤ until
      → Holds own s.jobs
      → Holds own (claim_next_job now worker_id lease_seconds locked s).1.jobs
  unfolding claim_next_job save_job append_event
  claim-keeps now worker_id lease_seconds locked s w early held =
      elim (Option-cases (next_claimable now locked s.jobs)) [
        | inl nothing ↦ rw (nothing, claim_next_job) held
        | inr (found, is_found) ↦
            let o = next_claimable-some now locked s.jobs is_found in
            rw (is_found, claim_next_job)
              (Holds-replace_ne (claimed now worker_id lease_seconds found) own s.jobs
                (other_key (claimable now) s own found w held o.held
                  (leased-not-claimable now until own leased early) (ground (arith, o.free)))
                held)
      ]

  create-keeps :
      (now case_id : ℕ) (source : EvidenceSource) (key actor : ℕ) (s : Session)
      → Holds own s.jobs
      → Holds own (create_or_reuse_job now case_id source key actor s).1.jobs
  unfolding create_or_reuse_job
  create-keeps now case_id source key actor s held =
      elim (Option-cases (find_first (has_key case_id key) s.jobs)) [
        | inl absent ↦ rw (absent, create_or_reuse_job) (inr held)
        | inr (existing, found) ↦ elim (Bool-cases (existing.source_id == source.id)) [
          | inl same ↦ rw (found, same, create_or_reuse_job) held
          | inr other ↦ rw (found, other, create_or_reuse_job) held
        ]
      ]

  retry-keeps :
      (case_id job_id user_id : ℕ) (recompute member : Bool) (s : Session)
      → IsWellFormed s
      → Holds own s.jobs
      → Holds own (retry case_id job_id user_id recompute member s).1.jobs
  unfolding retry
  retry-keeps case_id job_id user_id recompute false s w held = held
  retry-keeps case_id job_id user_id recompute true s w held =
      elim (Option-cases (find_first (is_case_job case_id job_id) s.jobs)) [
        | inl absent ↦ rw (absent, retry) held
        | inr (job, found) ↦
            let (job_held, _) = find_first-Any (is_case_job case_id job_id) s.jobs found in
            elim (Bool-cases (retry_refused recompute s job)) [
              | inl refused ↦ rw (found, retry) (rw refused held)
              | inr allowed ↦
                  rw (found, retry)
                    (rw allowed (
                      Holds-replace_ne (requeued job) own s.jobs
                        (other_key (λ r. is_ended r.state) s own job w held job_held
                          (leased-not-ended own leased.leased) (refused-ended _ _ allowed))
                        held))
            ]
      ]
    where
      refused-ended : (a b : Bool) → (not a || b) ≡ false → a ≡ true
      refused-ended a b e = ground arith

  Step-keeps :
      (s t : Session) → IsWellFormed s → Step own until s t → Holds own s.jobs → Holds own t.jobs
  unfolding record_worker_heartbeat complete_job fail_job
  Step-keeps s t w (create now case_id source key actor e) held =
      rw e (create-keeps now case_id source key actor s held)
  Step-keeps s t w (claim now worker_id lease_seconds locked early e) held =
      rw e (claim-keeps now worker_id lease_seconds locked s w early held)
  Step-keeps s t w (beat worker_id now e) held = rw e held
  Step-keeps s t w (complete now job byte_size job_held other e) held =
      rw e (Holds-replace_ne _ own s.jobs (λ same. other (sym same)) held)
  Step-keeps s t w (fail now job code detail job_held other e) held =
      rw e (Holds-replace_ne _ own s.jobs (λ same. other (sym same)) held)
  Step-keeps s t w (requeue case_id job_id user_id recompute member e) held =
      rw e (retry-keeps case_id job_id user_id recompute member s w held)
  Step-keeps s t w (handle now worker_id lease_seconds attempt job_id f other e) held =
      rw e (recover-leaves_others now worker_id lease_seconds attempt job_id f s own w held other)
  Step-keeps s t w (progress now lease_seconds job_id attempt worker_id lost other e) held =
      rw e (persist-leaves_others now lease_seconds job_id attempt worker_id lost s own other held)

  Run-keeps :
      (s : Session) {t : Session}
      → IsWellFormed s
      → Holds own s.jobs
      → Run own until s t
      → IsWellFormed t × Holds own t.jobs
  Run-keeps s w held here = (w, held)
  Run-keeps s w held (next {t = t} {u = u} before step) =
      let (wt, ht) = Run-keeps s w held before in
      (Step-IsWellFormed t u wt step, Step-keeps t u wt step ht)

-- A job leased until a time stays in the table exactly as its owner left it, whatever the others do
-- up to that time: new imports, claims by other workers, their completions and failures of other
-- jobs, and requests to retry.
pub lease_exclusive :
    (own : ImportJob) (until : ℕ) (s t : Session)
    → IsWellFormed s
    → IsLeasedUntil until own
    → Holds own s.jobs
    → Run own until s t
    → Holds own t.jobs × IsWellFormed t
lease_exclusive own until s t w leased held run =
    let (wt, ht) = Run-keeps own until leased s w held run in (ht, wt)
