-- ===== src/Jobs/Requests.antt =====
-- Pending requests and the lease of the progress connection.
use trace_x.Common.{
  ℕ, suc, ◌+◌, ◌≤◌, ◌<◌, ◌≡◌, ◌≢◌, refl, sym, ◌∙◌, ap, subst, ◌⊎◌, inl, inr, Bool, true, false,
  Option, none, some, List, [], ◌∷◌, map, arith, ◌==◌, ==_iff, ==_refl, ltb, if◌then◌else◌, select,
  length, All, Any, All-mono, All-Any, Bool-cases,
}
use trace_x.Jobs.Model.{ImportJob, AnalysisRequest, Session, is_leased}
use trace_x.Jobs.Service.{record_worker_heartbeat}
use trace_x.Jobs.Worker.{Failure, ok, raised, is_owner}
use trace_x.Jobs.Rows.{Holds, DistinctIds}
use trace_x.Jobs.Regroup.{
  is_pending, later, newest_pending, wants_groups, keeps_lease, extended, persist, Sources, Store,
  run_grouping_only,
}

-- The newest pending request: it is one of them, pending, and none that is pending has a later attempt.
pub record IsNewest (job : ImportJob) (rs : List AnalysisRequest) (r : AnalysisRequest)
    : Type 0 where
  pub held : Any (λ q. q ≡ r) rs
  pub pending : is_pending job r ≡ true
  pub newest : All (λ (q : AnalysisRequest). is_pending job q ≡ true → q.attempt ≤ r.attempt) rs

abbrev Newest : ImportJob → List AnalysisRequest → Option AnalysisRequest → Type 0
Newest job rs none = All (λ q. is_pending job q ≡ false) rs
Newest job rs (some r) = IsNewest job rs r

later-Newest :
    (job : ImportJob) (r : AnalysisRequest) (rs : List AnalysisRequest) (b : Bool)
    (best : Option AnalysisRequest)
    → is_pending job r ≡ b
    → Newest job rs best
    → Newest job (r ∷ rs) (later b r best)
later-Newest job r rs false none e n = (e, n)
later-Newest job r rs false (some other) e n = record {
  held = inr n.held;
  pending = n.pending;
  newest = ((λ h. absurd (cc)), n.newest);
}
later-Newest job r rs true none e n = record {
  held = inl refl;
  pending = e;
  newest = (
    (λ _. omega arith),
    All-mono rs
        (λ (q : AnalysisRequest) (h : is_pending job q ≡ false) (k : is_pending job q ≡ true).
          absurd (cc))
        n,
  );
}
later-Newest job r rs true (some other) e n = elim (Bool-cases (ltb r.attempt other.attempt)) [
  | inl lower ↦ rw lower (record {
    held = inr n.held;
    pending = n.pending;
    newest = ((λ _. ground (arith, lower)), n.newest);
  })
  | inr higher ↦ rw higher (record {
    held = inl refl;
    pending = e;
    newest = (
      (λ _. omega arith),
      All-mono rs
          (λ (q : AnalysisRequest) (h : is_pending job q ≡ true → q.attempt ≤ other.attempt) k.
            ground (arith, higher, h k))
          n.newest,
    );
  })
]

newest_pending-Newest :
    (job : ImportJob) (rs : List AnalysisRequest) → Newest job rs (newest_pending job rs)
unfolding newest_pending
newest_pending-Newest job [] = tt
newest_pending-Newest job (r ∷ rs) =
    later-Newest job r rs (is_pending job r) (newest_pending job rs) refl
      (newest_pending-Newest job rs)

-- A pending request for the full analysis, made after every pending one for grouping alone,
-- supersedes them: the recovery of groups does nothing.
pub run_grouping_only-superseded :
    (e : Sources) (now : ℕ) (job : ImportJob) (store : Store) (full : AnalysisRequest)
    → Any (λ q. q ≡ full) store.txn.current.requests
    → is_pending job full ≡ true
    → All
        (λ (q : AnalysisRequest).
          is_pending job q ≡ true → q.grouping_only ≡ true → q.attempt < full.attempt)
        store.txn.current.requests
    → run_grouping_only e now job store ≡ (ok false, store)
unfolding run_grouping_only
run_grouping_only-superseded e now job store full held pending behind =
    let rs = store.txn.current.requests in
    let unwanted = no_groups (newest_pending job rs) (newest_pending-Newest job rs) in
    rw unwanted refl
  where
    no_groups :
        (best : Option AnalysisRequest)
        → Newest job store.txn.current.requests best
        → wants_groups best ≡ false
    no_groups none n = refl
    no_groups (some r) n = elim (Bool-cases r.grouping_only) [
      | inr other ↦ other
      | inl only ↦
          let not_later =
            All-Any (λ (q : AnalysisRequest). is_pending job q ≡ true → q.attempt ≤ r.attempt)
              store.txn.current.requests n.newest held pending in
          let before =
            All-Any
              (λ (q : AnalysisRequest).
                is_pending job q ≡ true → q.grouping_only ≡ true → q.attempt < full.attempt)
              store.txn.current.requests behind n.held n.pending only in
          absurd (omega (arith, not_later, before))
    ]

-- The worker holds the row at the attempt.
pub record HoldsAttempt (attempt owner : ℕ) (row : ImportJob) : Type 0 where
  pub same_attempt : row.attempt ≡ attempt
  pub owned : row.lease_owner ≡ some owner
  pub leased : is_leased row.state ≡ true

is_owner-some : (owner : ℕ) (o : Option ℕ) → is_owner owner o ≡ true → o ≡ some owner
is_owner-some owner none e = absurd (cc)
is_owner-some owner (some w) e = ap some ((==_iff w owner).0 e)

is_owner_self : (owner : ℕ) (o : Option ℕ) → o ≡ some owner → is_owner owner o ≡ true
is_owner_self owner o e = rw e (==_refl owner)

module _ (job_id attempt owner : ℕ) where
  kept-HoldsAttempt :
      (own : ImportJob)
      → keeps_lease job_id attempt owner own ≡ true
      → HoldsAttempt attempt owner own
  kept-HoldsAttempt own kept = record {
    same_attempt = ground (arith, kept);
    owned = is_owner-some owner own.lease_owner (ground (arith, kept));
    leased = ground (arith, kept);
  }

  stale_not_held :
      (own : ImportJob)
      → own.id ≡ job_id
      → keeps_lease job_id attempt owner own ≡ false
      → ¬ HoldsAttempt attempt owner own
  stale_not_held own mine stale h =
      ground
        (arith, mine, stale, h.same_attempt, h.leased, is_owner_self owner own.lease_owner h.owned)

  none_kept :
      (rows : List ImportJob)
      → All (λ (row : ImportJob). row.id ≢ job_id) rows
      → select (keeps_lease job_id attempt owner) rows ≡ []
  unfolding select
  none_kept [] h = refl
  none_kept (x ∷ xs) h =
      let out : keeps_lease job_id attempt owner x ≡ false = ground (arith, h.0) in
      rw out (none_kept xs h.1)

  count_kept :
      (rows : List ImportJob) (own : ImportJob) (b : Bool)
      → DistinctIds rows
      → Holds own rows
      → own.id ≡ job_id
      → keeps_lease job_id attempt owner own ≡ b
      → length (select (keeps_lease job_id attempt owner) rows) ≡ (if b then 1 else 0)
  unfolding select
  count_kept [] own b d m mine e = absurd m
  count_kept (x ∷ xs) own b d (inl is_own) mine e =
      let x_id : x.id ≡ job_id = ap (λ (r : ImportJob). r.id) is_own ∙ mine in
      let rest =
        none_kept xs
          (All-mono xs (λ (r : ImportJob) (ne : r.id ≢ x.id) h. ne (h ∙ sym x_id)) d.0) in
      let kept = ap (keeps_lease job_id attempt owner) is_own ∙ e in by_case b kept rest
    where
      by_case :
          (c : Bool)
          → keeps_lease job_id attempt owner x ≡ c
          → select (keeps_lease job_id attempt owner) xs ≡ []
          → length (select (keeps_lease job_id attempt owner) (x ∷ xs)) ≡ (if c then 1 else 0)
      by_case true k r = rw k (ap (λ ys. suc (length ys)) r ∙ omega arith)
      by_case false k r = rw k (ap length r)
  count_kept (x ∷ xs) own b d (inr m) mine e =
      let apart : x.id ≢ job_id =
        λ h. All-Any (λ (r : ImportJob). r.id ≢ x.id) xs d.0 m (mine ∙ sym h) in
      let out : keeps_lease job_id attempt owner x ≡ false = ground (arith, apart) in
      rw out (count_kept xs own b d.1 m mine e)

  extended_held :
      (expires : ℕ) (rows : List ImportJob) (own : ImportJob)
      → Holds own rows
      → Holds
          (extended expires job_id attempt owner own)
          (map (extended expires job_id attempt owner) rows)
  extended_held expires [] own m = m
  extended_held expires (x ∷ xs) own (inl is_own) =
      inl (ap (extended expires job_id attempt owner) is_own)
  extended_held expires (x ∷ xs) own (inr m) = inr (extended_held expires xs own m)

  -- The progress connection extends the lease of its job while the worker still holds it at the same
  -- attempt, and else it raises the loss and changes nothing.
  pub persist_lem :
      (now lease_seconds : ℕ) (lost : Failure) (s : Session) (own : ImportJob)
      → DistinctIds s.jobs
      → Holds own s.jobs
      → own.id ≡ job_id
      → (HoldsAttempt attempt owner own
          × ((persist now lease_seconds job_id attempt owner lost s).0 ≡ ok tt)
          × Holds
              (record own { lease_expires_at = some (now + lease_seconds) })
              (persist now lease_seconds job_id attempt owner lost s).1.jobs)
        ⊎ ((¬ HoldsAttempt attempt owner own)
            × (persist now lease_seconds job_id attempt owner lost s ≡ (raised lost, s)))
  unfolding persist record_worker_heartbeat
  persist_lem now lease_seconds lost s own d m mine =
      elim (Bool-cases (keeps_lease job_id attempt owner own)) [
        | inl kept ↦
            let one = count_kept s.jobs own true d m mine kept in
            let is_one : (length (select (keeps_lease job_id attempt owner) s.jobs) == 1) ≡ true =
              ground (arith, one) in
            let held = extended_held (now + lease_seconds) s.jobs own m in
            inl (
              kept-HoldsAttempt own kept,
              rw is_one refl,
              rw is_one (
                  subst
                    (λ r.
                      Holds r (map (extended (now + lease_seconds) job_id attempt owner) s.jobs))
                    (extends own kept) held),
            )
        | inr stale ↦
            let none_there = count_kept s.jobs own false d m mine stale in
            let not_one : (length (select (keeps_lease job_id attempt owner) s.jobs) == 1) ≡ false =
              ground (arith, none_there) in
            inr (stale_not_held own mine stale, rw not_one refl)
      ]
    where
      extends :
          (own : ImportJob)
          → keeps_lease job_id attempt owner own ≡ true
          → extended (now + lease_seconds) job_id attempt owner own
            ≡ record own { lease_expires_at = some (now + lease_seconds) }
      extends own kept = rw kept refl
