-- ===== src/Jobs/Completes.antt =====
-- What a recovery of review groups that takes place commits.
use trace_x.Common.{
  ℕ, ◌≡◌, refl, sym, subst, inl, inr, Bool, true, false, not, ◌&&◌, Option, none, some, List, [],
  ◌∷◌, map, arith, ◌==◌, ==_iff, if◌then◌else◌, All, Any, Bool-cases,
}
use trace_x.Jobs.Model.{Stage, ImportJob, AnalysisRequest, AnalysisStage, save_job, replace_job}
use trace_x.Jobs.Service.{append_event}
use trace_x.Jobs.Analysis.{start, finish, begun}
use trace_x.Jobs.Worker.{Failure, Result, ok, raised}
use trace_x.Jobs.Rows.{Holds, Holds-id, Holds-replace_self}
use trace_x.Grouping.Materialize.{
  Run, Database, Graph, Outcome, done, refused, incomplete, conflict, deactivate,
  materialize_indexed,
}
use trace_x.Jobs.Regroup.{
  is_pending, fulfill, fulfill_grouping_requests, SnapshotRow, GraphRow, Sources, Store,
  is_recoverable, activate, completed, complete_grouping, after_materialize, after_digest,
  grouping_job, begin_grouping, regroup, regroup_from, regroup_snapshot, wants_groups,
  latest_pending_request, run_grouping_only,
}

-- No pending request for grouping alone is left.
abbrev pub IsServed : ImportJob → List AnalysisRequest → Type 0
IsServed job rs = All (λ r. (is_pending job r && r.grouping_only) ≡ false) rs

fulfill-IsServed :
    (job : ImportJob) (rs : List AnalysisRequest) → IsServed job (map (fulfill job) rs)
fulfill-IsServed job [] = tt
fulfill-IsServed job (r ∷ rs) = (one, fulfill-IsServed job rs)
  where
    one : (is_pending job (fulfill job r) && (fulfill job r).grouping_only) ≡ false
    one = elim (Bool-cases (is_pending job r && r.grouping_only)) [
      | inl wanted ↦ rw wanted (ground arith)
      | inr other ↦ rw other other
    ]

activate-only :
    (sid run_id : ℕ) (runs : List Run)
    → All
        (λ (r : Run). r.active ≡ true → r.snapshot_id ≡ sid → r.id ≡ run_id)
        (map (activate sid run_id) runs)
activate-only sid run_id [] = tt
activate-only sid run_id (r ∷ rs) = (one (r.id == run_id) refl, activate-only sid run_id rs)
  where
    one :
        (b : Bool)
        → (r.id == run_id) ≡ b
        → (if b then record r { active = true } else deactivate sid run_id r).active ≡ true
        → (if b then record r { active = true } else deactivate sid run_id r).snapshot_id ≡ sid
        → (if b then record r { active = true } else deactivate sid run_id r).id ≡ run_id
    one true mine on here = (==_iff r.id run_id).0 mine
    one false theirs on here = elim (Bool-cases ((r.snapshot_id == sid) && not (r.id == run_id))) [
      | inl off ↦ absurd (cc (rw off at on))
      | inr kept ↦
          let same : r.snapshot_id ≡ sid = rw kept at here in
          absurd (ground (arith, same, kept, theirs))
    ]

-- What a recovery that took place leaves committed: everything pending, the requests fulfilled, one
-- active run of the snapshot at most, and the job completed.
pub record IsRegrouped (job : ImportJob) (now : ℕ) (after : Store) : Type 0 where
  pub published : after.groups_committed ≡ after.groups
  pub committed : after.txn.committed ≡ after.txn.current
  pub served : IsServed job after.txn.committed.requests
  pub snapshot_id : ℕ
  pub of_job : job.snapshot_id ≡ some snapshot_id
  pub run_id : ℕ
  pub only :
      All
        (λ (r : Run). r.active ≡ true → r.snapshot_id ≡ snapshot_id → r.id ≡ run_id)
        after.groups_committed.runs
  pub ended : Holds (completed now job) after.txn.committed.jobs

-- What a result says, where the job stood in the table.
abbrev Completes : ImportJob → ℕ → Result Bool × Store → Type 0
Completes job now (ok true, after) = IsRegrouped job now after
Completes job now (ok false, after) = Unit
Completes job now (raised f, after) = Unit

complete_grouping-IsRegrouped :
    (now : ℕ) (job : ImportJob) (sid run_id : ℕ) (row : AnalysisStage) (store : Store)
    → job.snapshot_id ≡ some sid
    → Any (λ (r : ImportJob). r.id ≡ job.id) store.txn.current.jobs
    → IsRegrouped job now (complete_grouping now job sid run_id (some row) store)
unfolding complete_grouping fulfill_grouping_requests save_job append_event finish
complete_grouping-IsRegrouped now job sid run_id row store of_job held = record {
  published = refl;
  committed = refl;
  served = fulfill-IsServed job store.txn.current.requests;
  snapshot_id = sid;
  of_job = of_job;
  run_id = run_id;
  only = activate-only sid run_id store.groups.runs;
  ended = Holds-replace_self (completed now job) store.txn.current.jobs held;
}

after_materialize-Completes :
    (e : Sources) (now : ℕ) (job : ImportJob) (sid : ℕ) (row : AnalysisStage)
    (error : Option Failure) (out : Outcome × Database) (store : Store)
    → job.snapshot_id ≡ some sid
    → Any (λ (r : ImportJob). r.id ≡ job.id) store.txn.current.jobs
    → Completes job now (after_materialize e now job sid (some row) error out store)
after_materialize-Completes e now job sid row (some f) (out, db) store of_job held = tt
after_materialize-Completes e now job sid row none (done r m g b, db) store of_job held =
    complete_grouping-IsRegrouped now job sid r row (record store { groups = db }) of_job held
after_materialize-Completes e now job sid row none (refused, db) store of_job held = tt
after_materialize-Completes e now job sid row none (incomplete, db) store of_job held = tt
after_materialize-Completes e now job sid row none (conflict, db) store of_job held = tt

after_digest-Completes :
    (e : Sources) (now : ℕ) (job : ImportJob) (sid : ℕ) (row : AnalysisStage) (graph : Graph)
    (digest : Result ℕ) (store : Store)
    → job.snapshot_id ≡ some sid
    → Any (λ (r : ImportJob). r.id ≡ job.id) store.txn.current.jobs
    → Completes job now (after_digest e now job sid (some row) graph digest store)
after_digest-Completes e now job sid row graph (raised f) store of_job held = tt
after_digest-Completes e now job sid row graph (ok digest) store of_job held =
    elim (Bool-cases (digest == graph.sha256)) [
      | inl same ↦ rw same (
          after_materialize-Completes e now job sid row e.progress_error
            (materialize_indexed e.texts e.run_id_of graph job.case_id sid store.groups) store
            of_job held)
      | inr differs ↦ rw differs tt
    ]

begin_grouping-some :
    (now : ℕ) (job : ImportJob) (store : Store)
    → Any (λ (r : ImportJob). r.id ≡ job.id) store.txn.current.jobs
    → ((row : AnalysisStage) × ((begin_grouping now job store).0 ≡ some row))
      × Any (λ (r : ImportJob). r.id ≡ job.id) (begin_grouping now job store).1.txn.current.jobs
unfolding begin_grouping start save_job append_event
begin_grouping-some now job store held = (
  (begun now job Stage.investigation_grouping, refl),
  Holds-id job (map (replace_job job) store.txn.current.jobs)
      (Holds-replace_self job store.txn.current.jobs held),
)

of_grouping_job :
    (job : ImportJob) (now : ℕ) (r : Result Bool × Store)
    → Completes (grouping_job job) now r
    → Completes job now r
of_grouping_job job now (ok true, after) h = record {
  published = h.published;
  committed = h.committed;
  served = h.served;
  snapshot_id = h.snapshot_id;
  of_job = h.of_job;
  run_id = h.run_id;
  only = h.only;
  ended = h.ended;
}
of_grouping_job job now (ok false, after) h = tt
of_grouping_job job now (raised f, after) h = tt

regroup-Completes :
    (e : Sources) (now : ℕ) (job : ImportJob) (sid : ℕ) (graph : Graph) (store : Store)
    → job.snapshot_id ≡ some sid
    → Any (λ (r : ImportJob). r.id ≡ job.id) store.txn.current.jobs
    → Completes job now (regroup e now job sid graph store)
unfolding regroup
regroup-Completes e now job sid graph store of_job held =
    let job' = grouping_job job in
    let ((row, is_row), held') = begin_grouping-some now job' store held in
    let started = begin_grouping now job' store in
    of_grouping_job job now
      (after_digest e now job' sid started.0 graph (e.file_sha256 graph) started.1)
      (subst
        (λ tracker.
          Completes job' now
            (after_digest e now job' sid tracker graph (e.file_sha256 graph) started.1))
        (sym is_row)
        (after_digest-Completes e now job' sid row graph (e.file_sha256 graph) started.1 of_job
          held'))

regroup_from-Completes :
    (e : Sources) (now : ℕ) (job : ImportJob) (sid : ℕ) (row : Option SnapshotRow)
    (graph : Option GraphRow) (store : Store)
    → job.snapshot_id ≡ some sid
    → Any (λ (r : ImportJob). r.id ≡ job.id) store.txn.current.jobs
    → Completes job now (regroup_from e now job sid row graph store)
regroup_from-Completes e now job sid row none store of_job held = tt
regroup_from-Completes e now job sid row (some graph) store of_job held =
    elim (Bool-cases (is_recoverable job row (some graph))) [
      | inl so ↦ rw so (regroup-Completes e now job sid graph.graph store of_job held)
      | inr bad ↦ rw bad tt
    ]

regroup_snapshot-Completes :
    (e : Sources) (now : ℕ) (job : ImportJob) (snapshot : Option ℕ) (store : Store)
    → job.snapshot_id ≡ snapshot
    → Any (λ (r : ImportJob). r.id ≡ job.id) store.txn.current.jobs
    → Completes job now (regroup_snapshot e now job snapshot store)
regroup_snapshot-Completes e now job none store of_job held = tt
regroup_snapshot-Completes e now job (some sid) store of_job held =
    regroup_from-Completes e now job sid (e.snapshot_row sid) (e.graph_row sid job.case_id) store
      of_job held

run_grouping_only-Completes :
    (e : Sources) (now : ℕ) (job : ImportJob) (store : Store)
    → Any (λ (r : ImportJob). r.id ≡ job.id) store.txn.current.jobs
    → Completes job now (run_grouping_only e now job store)
unfolding run_grouping_only
run_grouping_only-Completes e now job store held =
    elim (Bool-cases (wants_groups (latest_pending_request job store.txn.current))) [
      | inl wanted ↦
          rw wanted (regroup_snapshot-Completes e now job job.snapshot_id store refl held)
      | inr other ↦ rw other tt
    ]

-- A recovery of groups that took place for a job of the table has committed everything that was
-- pending: no request of the job for grouping alone is left, the snapshot has one active run at most,
-- and the job is completed.
pub run_grouping_only-IsRegrouped :
    (e : Sources) (now : ℕ) (job : ImportJob) (store after : Store)
    → Any (λ (r : ImportJob). r.id ≡ job.id) store.txn.current.jobs
    → run_grouping_only e now job store ≡ (ok true, after)
    → IsRegrouped job now after
run_grouping_only-IsRegrouped e now job store after held took_place =
    subst (Completes job now) took_place (run_grouping_only-Completes e now job store held)
