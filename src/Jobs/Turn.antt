-- ===== src/Jobs/Turn.antt =====
-- A whole turn of the worker: the claim, at most two attempts, and what is committed at the end.
use trace_x.Common.{ℕ, ◌≡◌, ◌⊎◌, Bool, true, false, Option, none, some}
use trace_x.Jobs.Model.{ImportJob, Session, is_leased}
use trace_x.Jobs.Rows.{Holds}
use trace_x.Jobs.Sound.{IsWellFormed}
use trace_x.Jobs.Worker.{World}
use trace_x.Jobs.Recovery.{Released}
use trace_x.Jobs.Attempts.{Returned}

-- Clearing the history keeps the table well formed and the row in it, under the same key.
record Cleared (found : ImportJob) (r : ImportJob × Session) : Type 0 where
  formed : IsWellFormed r.1
  held : Holds r.0 r.1.jobs
  same_id : r.0.id ≡ found.id
  same_source : r.0.source_id ≡ found.source_id

-- What a claim hands on: a row of the table that the worker has just leased.
abbrev Handed : Option ImportJob × Session → Type 0
Handed r =
    IsWellFormed r.1
    × ((job : ImportJob) → r.0 ≡ some job → Holds job r.1.jobs × (is_leased job.state ≡ true))

abbrev pub Settled : World → (worker_id : ℕ) → Option ImportJob → Bool × Session → Type 0
Settled w worker_id taken (ran, final) =
    IsWellFormed final
    × (((ran ≡ false) × (taken ≡ none))
        ⊎ ((job : ImportJob) × (taken ≡ some job)
            × (Returned w job.source_id final ⊎ Released worker_id job.id final)))
