-- ===== src/Jobs/Recovery.antt =====
-- What the worker does after a failure: whom it leaves alone, when it tries again, and that it never
-- goes away with the job still leased to itself.
use trace_x.Common.{
  ℕ, ◌≤◌, ◌≡◌, ◌≢◌, ◌∙◌, refl, sym, subst, ap, inl, inr, Bool, true, false, ◌&&◌, not, List, [],
  ◌∷◌, map, none, some, arith, ◌==◌, find_first, All, All-Any, All-mono, Bool-cases, Option-cases,
  ==_iff,
}
use trace_x.Jobs.Model.{ImportJob, Session, replace_job, is_leased}
use trace_x.Jobs.Service.{fail_job, failed_job}
use trace_x.Jobs.Analysis.{is_ended}
use trace_x.Jobs.Rows.{
  Holds, Holds-replace_ne, Holds-id, Holds-replace_self, DistinctIds, DistinctIds-eq,
  DistinctIds-replace,
}
use trace_x.Jobs.Sound.{IsSound, IsWellFormed, IsWellFormed-save}
use trace_x.Jobs.Preserve.{fail_job-IsWellFormed, find_first-Any}
use trace_x.Jobs.Worker.{
  Failure, is_retryable_database_error, has_id, is_owner, Recovery, stop, again, retried_job,
  retry_job, failure_code, recover,
}

-- The worker still holds the lease of the row.
abbrev pub holds_lease : (worker_id : ℕ) → ImportJob → Bool
holds_lease worker_id job = is_owner worker_id job.lease_owner && is_leased job.state

-- The worker holds no lease on the job.
abbrev pub Released : (worker_id job_id : ℕ) → Session → Type 0
Released worker_id job_id s =
    All (λ row. has_id job_id row ≡ true → holds_lease worker_id row ≡ false) s.jobs

not-true : (a : Bool) → a ≡ false → not a ≡ true
not-true a e = ground arith

module _ (now worker_id lease_seconds attempt job_id : ℕ) (f : Failure) (db : Session) where
  abbrev pub result : Recovery × Session
  result = recover now worker_id lease_seconds attempt job_id f db

  pub recover-stale_row :
      (job : ImportJob)
      → find_first (has_id job_id) db.jobs ≡ some job
      → holds_lease worker_id job ≡ false
      → result ≡ (stop, db)
  unfolding recover
  recover-stale_row job found lost = rw (found, recover) (rw (not-true _ lost))

  recover-gone : find_first (has_id job_id) db.jobs ≡ none → result ≡ (stop, db)
  unfolding recover
  recover-gone gone = rw (gone, recover)

  abbrev pub tries_again : Bool
  tries_again = is_retryable_database_error f.class && (attempt == 0)

  recover-retries :
      (job : ImportJob)
      → find_first (has_id job_id) db.jobs ≡ some job
      → holds_lease worker_id job ≡ true
      → tries_again ≡ true
      → result ≡ retry_job now worker_id lease_seconds job f db
  unfolding recover
  recover-retries job found held yes_again = rw (found, recover) (rw (held, yes_again))

  recover-fails :
      (job : ImportJob)
      → find_first (has_id job_id) db.jobs ≡ some job
      → holds_lease worker_id job ≡ true
      → tries_again ≡ false
      → result ≡ (stop, fail_job now job (failure_code job.stage) f.message db)
  unfolding recover
  recover-fails job found held no_more = rw (found, recover) (rw (held, no_more))

  -- The four ways the handler can go.
  data Way : Type 0 where
    gone : find_first (has_id job_id) db.jobs ≡ none → result ≡ (stop, db) → Way
    stale :
        (job : ImportJob)
        → find_first (has_id job_id) db.jobs ≡ some job
        → holds_lease worker_id job ≡ false
        → result ≡ (stop, db)
        → Way
    retries :
        (job : ImportJob)
        → find_first (has_id job_id) db.jobs ≡ some job
        → holds_lease worker_id job ≡ true
        → tries_again ≡ true
        → result ≡ retry_job now worker_id lease_seconds job f db
        → Way
    fails :
        (job : ImportJob)
        → find_first (has_id job_id) db.jobs ≡ some job
        → holds_lease worker_id job ≡ true
        → tries_again ≡ false
        → result ≡ (stop, fail_job now job (failure_code job.stage) f.message db)
        → Way

  way : Way
  way = elim (Option-cases (find_first (has_id job_id) db.jobs)) [
    | inl none_left ↦ gone none_left (recover-gone none_left)
    | inr (job, found) ↦ elim (Bool-cases (holds_lease worker_id job)) [
      | inr lost ↦ stale job found lost (recover-stale_row job found lost)
      | inl held ↦ elim (Bool-cases tries_again) [
        | inl yes_again ↦
            retries job found held yes_again (recover-retries job found held yes_again)
        | inr no_more ↦ fails job found held no_more (recover-fails job found held no_more)
      ]
    ]
  ]

  retried-IsSound :
      (job : ImportJob)
      → IsSound job
      → holds_lease worker_id job ≡ true
      → IsSound (retried_job now lease_seconds job)
  retried-IsSound job ok held = record {
    owned = ok.owned ∙ leased_row job held;
    timed = refl;
    ended = ok.ended ∙ leased_ended job held;
    coded = λ e. cc;
    started = λ _. ((ok.started (leased_row job held)).0, omega arith);
  }
    where
      leased_row : (job : ImportJob) → holds_lease worker_id job ≡ true → is_leased job.state ≡ true
      leased_row job h = ground arith

      leased_ended :
          (job : ImportJob) → holds_lease worker_id job ≡ true → is_ended job.state ≡ false
      leased_ended job h = ground arith

  -- The handler keeps the table well formed.
  pub recover-IsWellFormed : IsWellFormed db → IsWellFormed result.1
  unfolding retry_job
  recover-IsWellFormed w = elim way [
    | gone _ e ↦ rw e w
    | stale _ _ _ e ↦ rw e w
    | retries job found held _ e ↦
        let (m, _) = find_first-Any (has_id job_id) db.jobs found in
        rw e (
          IsWellFormed-save (retried_job now lease_seconds job) db _ w (Holds-id job db.jobs m)
            (retried-IsSound job (All-Any IsSound db.jobs w.sound m) held) refl (omega arith))
    | fails job found held _ e ↦
        let (m, _) = find_first-Any (has_id job_id) db.jobs found in
        rw e (
          fail_job-IsWellFormed now job (failure_code job.stage) f.message db w
            (Holds-id job db.jobs m))
  ]

  not_same :
      (own job : ImportJob)
      → IsWellFormed db
      → Holds own db.jobs
      → Holds job db.jobs
      → holds_lease worker_id own ≡ false
      → holds_lease worker_id job ≡ true
      → own.id ≢ job.id
  not_same own job w ho hj lost held e =
      cc (ap (holds_lease worker_id) (DistinctIds-eq db.jobs w.distinct ho hj e))

  -- A row that the worker holds no lease on stays as it is: a job that another worker reclaimed, a
  -- job that is finished, or one back in the queue.
  pub recover-leaves_others :
      (own : ImportJob)
      → IsWellFormed db
      → Holds own db.jobs
      → holds_lease worker_id own ≡ false
      → Holds own result.1.jobs
  unfolding retry_job fail_job
  recover-leaves_others own w ho lost = elim way [
    | gone _ e ↦ rw e ho
    | stale _ _ _ e ↦ rw e ho
    | retries job found held _ e ↦
        let (m, _) = find_first-Any (has_id job_id) db.jobs found in
        rw e (Holds-replace_ne _ own db.jobs (not_same own job w ho m lost held) ho)
    | fails job found held _ e ↦
        let (m, _) = find_first-Any (has_id job_id) db.jobs found in
        rw e (Holds-replace_ne _ own db.jobs (not_same own job w ho m lost held) ho)
  ]

  pub recover-again :
      {job' : ImportJob}
      → result.0 ≡ again job'
      → (tries_again ≡ true)
        × ((job : ImportJob) × Holds job db.jobs
            × (job.id ≡ job_id)
            × (holds_lease worker_id job ≡ true)
            × (job' ≡ retried_job now lease_seconds job))
        × Holds job' result.1.jobs
  unfolding retry_job
  recover-again {job'} asked = elim way [
    | gone _ e ↦ cc (rw e at asked)
    | stale _ _ _ e ↦ cc (rw e at asked)
    | fails job found held _ e ↦ cc (rw e at asked)
    | retries job found held yes_again e ↦
        let (m, named) = find_first-Any (has_id job_id) db.jobs found in
        let is_new : job' ≡ retried_job now lease_seconds job = cc (rw e at asked) in
        (
          yes_again,
          (job, m, (==_iff _ _).0 named, held, is_new),
          rw (e, is_new)
              (Holds-replace_self (retried_job now lease_seconds job) db.jobs
                (Holds-id job db.jobs m)),
        )
  ]

  released_elsewhere :
      (jobs : List ImportJob)
      → find_first (has_id job_id) jobs ≡ none
      → All (λ row. has_id job_id row ≡ true → holds_lease worker_id row ≡ false) jobs
  unfolding find_first
  released_elsewhere [] e = tt
  released_elsewhere (x ∷ xs) e = elim (Bool-cases (has_id job_id x)) [
    | inl here ↦ cc (rw here at e)
    | inr there ↦ (λ here. cc, released_elsewhere xs (rw there at e))
  ]

  -- The only row of the key is the one that was found.
  released_row :
      (jobs : List ImportJob) (job : ImportJob)
      → DistinctIds jobs
      → Holds job jobs
      → (job.id ≡ job_id)
      → holds_lease worker_id job ≡ false
      → All (λ row. has_id job_id row ≡ true → holds_lease worker_id row ≡ false) jobs
  released_row jobs job d m named lost =
      All-mono jobs
        (λ row (held : Holds row jobs) here.
          subst (λ r. holds_lease worker_id r ≡ false)
            (DistinctIds-eq jobs d m held (named ∙ sym ((==_iff _ _).0 here))) lost)
        (All-held jobs)
    where
      All-held : (xs : List ImportJob) → All (λ row. Holds row xs) xs
      All-held [] = tt
      All-held (x ∷ xs) = (inl refl, All-mono xs (λ row m. inr m) (All-held xs))

  -- When the handler stops, the worker no longer holds the job: it is gone, another's, finished or
  -- failed.
  pub recover-settles : IsWellFormed db → result.0 ≡ stop → Released worker_id job_id result.1
  unfolding fail_job retry_job
  recover-settles w stopped = elim way [
    | gone none_left e ↦ rw e (released_elsewhere db.jobs none_left)
    | stale job found lost e ↦
        let (m, named) = find_first-Any (has_id job_id) db.jobs found in
        rw e (released_row db.jobs job w.distinct m ((==_iff _ _).0 named) lost)
    | retries job found held _ e ↦ cc (rw e at stopped)
    | fails job found held _ e ↦
        let (m, named) = find_first-Any (has_id job_id) db.jobs found in
        let dead = failed_job now (failure_code job.stage) f.message job in
        rw e (
          released_row (map (replace_job dead) db.jobs) dead
            (DistinctIds-replace dead db.jobs w.distinct)
            (Holds-replace_self dead db.jobs (Holds-id job db.jobs m)) ((==_iff _ _).0 named) refl)
  ]

  -- At a second attempt the handler always stops.
  pub recover-second : 1 ≤ attempt → result.0 ≡ stop
  recover-second later = elim way [
    | gone _ e ↦ rw e
    | stale _ _ _ e ↦ rw e
    | fails _ _ _ _ e ↦ rw e
    | retries _ _ _ yes_again e ↦ absurd (ground (arith, yes_again))
  ]
