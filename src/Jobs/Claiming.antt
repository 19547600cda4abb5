-- ===== src/Jobs/Claiming.antt =====
-- Which job `claim_next_job` takes, and what it writes.
use trace_x.Common.{
  ℕ, ◌≤◌, ◌≡◌, refl, inl, inr, Bool, true, false, ◌⊎◌, ◌&&◌, not, subst, sym, List, [], ◌∷◌, map,
  Option, none, some, arith, ltb, All, All-mono, Bool-cases, Option-cases,
}
use trace_x.Jobs.Model.{ImportJob, Session, replace_job}
use trace_x.Jobs.Service.{claimable, prefer, next_claimable, claimed, claim_next_job}
use trace_x.Jobs.Rows.{Holds}

module _ (now : ℕ) (locked : ℕ → Bool) where
  abbrev pub Free : ImportJob → Type 0
  Free job = (claimable now job && not (locked job.id)) ≡ true

  -- The row that the query returns.
  pub record IsOldest (jobs : List ImportJob) (job : ImportJob) : Type 0 where
    pub held : Holds job jobs
    pub free : Free job
    pub oldest : All (λ row. Free row → job.created_at ≤ row.created_at) jobs

  prefer-none :
      (b : Bool) (x : ImportJob) (best : Option ImportJob)
      → prefer b x best ≡ none
      → (b ≡ false) × (best ≡ none)
  prefer-none false x best e = (refl, e)
  prefer-none true x none e = cc
  prefer-none true x (some y) e = ground arith

  pub next_claimable-none :
      (jobs : List ImportJob) → next_claimable now locked jobs ≡ none → All (λ row. ¬ Free row) jobs
  unfolding next_claimable
  next_claimable-none [] e = tt
  next_claimable-none (x ∷ xs) e =
      let (skipped, rest) = prefer-none _ x (next_claimable now locked xs) e in
      (λ free. cc, next_claimable-none xs rest)

  -- The winner is the candidate, no later than the best one behind it, or that one.
  prefer-some :
      (b : Bool) (x : ImportJob) (best : Option ImportJob) {job : ImportJob}
      → prefer b x best ≡ some job
      → ((b ≡ true)
          × (x ≡ job)
          × ((best ≡ none) ⊎ ((y : ImportJob) × (best ≡ some y) × (x.created_at ≤ y.created_at))))
        ⊎ ((best ≡ some job) × (b ≡ true → job.created_at ≤ x.created_at))
  prefer-some false x best e = inr (e, λ f. cc)
  prefer-some true x none e = ground arith
  prefer-some true x (some y) e = elim (Bool-cases (ltb y.created_at x.created_at)) [
    | inl later ↦ inr (rw later at e, λ _. ground arith)
    | inr sooner ↦ inl (refl, ground arith, inr (y, refl, ground arith))
  ]

  pub next_claimable-some :
      (jobs : List ImportJob) {job : ImportJob}
      → next_claimable now locked jobs ≡ some job
      → IsOldest jobs job
  unfolding next_claimable
  next_claimable-some [] e = cc
  next_claimable-some (x ∷ xs) {job} e = elim (prefer-some _ x (next_claimable now locked xs) e) [
    | inl (free, is_x, inl empty) ↦ record {
      held = inl is_x;
      free = subst Free is_x free;
      oldest = (
        λ _. ground arith,
        All-mono xs (λ y no_y f. absurd (no_y f)) (next_claimable-none xs empty),
      );
    }
    | inl (free, is_x, inr (y, is_y, sooner)) ↦ record {
      held = inl is_x;
      free = subst Free is_x free;
      oldest = (
        λ _. ground arith,
        All-mono xs (λ row h f. ground (arith, h f)) (next_claimable-some xs is_y).oldest,
      );
    }
    | inr (is_job, sooner) ↦
        let ih = next_claimable-some xs is_job in
        record { held = inr ih.held; free = ih.free; oldest = (sooner, ih.oldest) }
  ]

-- A claim that finds nothing leaves the session as it was, and then every row is busy: leased to a
-- worker that has time left, finished, or locked by another transaction.
pub claim_next_job-none :
    (now worker_id lease_seconds : ℕ) (locked : ℕ → Bool) (s : Session)
    → (claim_next_job now worker_id lease_seconds locked s).0 ≡ none
    → ((claim_next_job now worker_id lease_seconds locked s).1 ≡ s)
      × All (λ row. ¬ Free now locked row) s.jobs
unfolding claim_next_job
claim_next_job-none now worker_id lease_seconds locked s e =
    elim (Option-cases (next_claimable now locked s.jobs)) [
      | inl nothing ↦ (rw (nothing, claim_next_job), next_claimable-none now locked s.jobs nothing)
      | inr (found, is_found) ↦ cc (rw (is_found, claim_next_job) at e)
    ]

-- A claim takes the oldest row that is free, and writes to that row alone.
pub claim_next_job-some :
    (now worker_id lease_seconds : ℕ) (locked : ℕ → Bool) (s : Session) {job : ImportJob}
    → (claim_next_job now worker_id lease_seconds locked s).0 ≡ some job
    → (found : ImportJob) × IsOldest now locked s.jobs found
      × (job ≡ claimed now worker_id lease_seconds found)
      × ((claim_next_job now worker_id lease_seconds locked s).1.jobs
          ≡ map (replace_job job) s.jobs)
unfolding claim_next_job
claim_next_job-some now worker_id lease_seconds locked s {job} e =
    elim (Option-cases (next_claimable now locked s.jobs)) [
      | inl nothing ↦ cc (rw (nothing, claim_next_job) at e)
      | inr (found, is_found) ↦
          let taken : claimed now worker_id lease_seconds found ≡ job =
            cc (rw (is_found, claim_next_job) at e) in
          (
            found,
            next_claimable-some now locked s.jobs is_found,
            sym taken,
            rw (is_found, taken, claim_next_job),
          )
    ]
