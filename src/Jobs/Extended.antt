-- ===== src/Jobs/Extended.antt =====
-- What the progress connection of `GroupingProgress._persist` does to the table of jobs.
use trace_x.Common.{
  ℕ, ◌+◌, ◌<◌, ◌≡◌, ◌≢◌, refl, sym, ◌∙◌, ap, inl, inr, true, false, List, [], ◌∷◌, map, arith, ◌==◌,
  select, length, All, Bool-cases,
}
use trace_x.Jobs.Model.{ImportJob, Session, is_leased}
use trace_x.Jobs.Service.{record_worker_heartbeat}
use trace_x.Jobs.Rows.{Holds, DistinctIds}
use trace_x.Jobs.Sound.{IsSound, IsWellFormed}
use trace_x.Jobs.Worker.{Failure}
use trace_x.Jobs.Regroup.{keeps_lease, extended, persist}

module _ (expires job_id attempt owner : ℕ) where
  extended-id : (row : ImportJob) → (extended expires job_id attempt owner row).id ≡ row.id
  extended-id row = elim (Bool-cases (keeps_lease job_id attempt owner row)) [
    | inl kept ↦ rw kept refl
    | inr stale ↦ rw stale refl
  ]

  extended-stale :
      (row : ImportJob)
      → keeps_lease job_id attempt owner row ≡ false
      → extended expires job_id attempt owner row ≡ row
  extended-stale row stale = rw stale refl

  kept_leased :
      (row : ImportJob) → keeps_lease job_id attempt owner row ≡ true → is_leased row.state ≡ true
  kept_leased row kept = ground (arith, kept)

  extended-IsSound :
      (row : ImportJob) → IsSound row → IsSound (extended expires job_id attempt owner row)
  extended-IsSound row ok = elim (Bool-cases (keeps_lease job_id attempt owner row)) [
    | inl kept ↦ rw kept (record {
      owned = ok.owned;
      timed = sym (kept_leased row kept);
      ended = ok.ended;
      coded = ok.coded;
      started = ok.started;
    })
    | inr stale ↦ rw stale ok
  ]

  all-IsSound :
      (rows : List ImportJob)
      → All IsSound rows
      → All IsSound (map (extended expires job_id attempt owner) rows)
  all-IsSound [] h = h
  all-IsSound (x ∷ xs) h = (extended-IsSound x h.0, all-IsSound xs h.1)

  extended_supplied :
      (bound : ℕ) (rows : List ImportJob)
      → All (λ row. row.id < bound) rows
      → All (λ row. row.id < bound) (map (extended expires job_id attempt owner) rows)
  extended_supplied bound [] h = h
  extended_supplied bound (x ∷ xs) h = (rw (extended-id x) h.0, extended_supplied bound xs h.1)

  other_ids :
      (j : ImportJob) (rows : List ImportJob)
      → All (λ row. row.id ≢ j.id) rows
      → All
          (λ row. row.id ≢ (extended expires job_id attempt owner j).id)
          (map (extended expires job_id attempt owner) rows)
  other_ids j [] h = h
  other_ids j (x ∷ xs) h = (λ e. h.0 (sym (extended-id x) ∙ e ∙ extended-id j), other_ids j xs h.1)

  DistinctIds-extended :
      (rows : List ImportJob)
      → DistinctIds rows
      → DistinctIds (map (extended expires job_id attempt owner) rows)
  DistinctIds-extended [] d = d
  DistinctIds-extended (x ∷ xs) d = (other_ids x xs d.0, DistinctIds-extended xs d.1)

  Holds-extended :
      (rows : List ImportJob) (own : ImportJob)
      → keeps_lease job_id attempt owner own ≡ false
      → Holds own rows
      → Holds own (map (extended expires job_id attempt owner) rows)
  Holds-extended [] own stale m = m
  Holds-extended (x ∷ xs) own stale (inl e) =
      inl (ap (extended expires job_id attempt owner) e ∙ extended-stale own stale)
  Holds-extended (x ∷ xs) own stale (inr m) = inr (Holds-extended xs own stale m)

module _ (now lease_seconds job_id attempt owner : ℕ) (lost : Failure) (s : Session) where
  -- The connection leaves every row that it does not hold at its attempt as it is.
  pub persist-leaves_others :
      (own : ImportJob)
      → keeps_lease job_id attempt owner own ≡ false
      → Holds own s.jobs
      → Holds own (persist now lease_seconds job_id attempt owner lost s).1.jobs
  unfolding persist record_worker_heartbeat
  persist-leaves_others own stale held =
      elim (Bool-cases (length (select (keeps_lease job_id attempt owner) s.jobs) == 1)) [
        | inl one ↦
            rw one (Holds-extended (now + lease_seconds) job_id attempt owner s.jobs own stale held)
        | inr not_one ↦ rw not_one held
      ]

  -- The connection keeps the table well formed.
  pub persist-IsWellFormed :
      IsWellFormed s → IsWellFormed (persist now lease_seconds job_id attempt owner lost s).1
  unfolding persist record_worker_heartbeat
  persist-IsWellFormed w =
      elim (Bool-cases (length (select (keeps_lease job_id attempt owner) s.jobs) == 1)) [
        | inl one ↦ rw one (record {
          distinct =
              DistinctIds-extended (now + lease_seconds) job_id attempt owner s.jobs w.distinct;
          supplied =
              extended_supplied (now + lease_seconds) job_id attempt owner s.next_id s.jobs
                w.supplied;
          sound = all-IsSound (now + lease_seconds) job_id attempt owner s.jobs w.sound;
        })
        | inr not_one ↦ rw not_one w
      ]
