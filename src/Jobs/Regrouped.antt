-- ===== src/Jobs/Regrouped.antt =====
-- A recovery of review groups that raises leaves the groups and the requests as they were committed.
use trace_x.Common.{ℕ, ◌≡◌, refl, sym, subst, inl, inr, Bool, Option, none, some, ◌==◌, Bool-cases}
use trace_x.Jobs.Model.{ImportJob, save_job}
use trace_x.Jobs.Service.{append_event}
use trace_x.Jobs.Analysis.{StageTracker, start}
use trace_x.Jobs.Worker.{Failure, Result, ok, raised}
use trace_x.Grouping.Materialize.{
  Database, Graph, Outcome, done, refused, incomplete, conflict, materialize_indexed,
}
use trace_x.Jobs.Regroup.{
  SnapshotRow, GraphRow, Sources, Store, is_recoverable, after_materialize, after_digest,
  grouping_job, begin_grouping, regroup, regroup_from, regroup_snapshot, wants_groups,
  latest_pending_request, run_grouping_only,
}

-- Nothing of the store is pending but what was committed.
pub record IsClean (store : Store) : Type 0 where
  pub groups : store.groups ≡ store.groups_committed
  pub requests : store.txn.committed.requests ≡ store.txn.current.requests

-- The commits so far kept the groups and the requests.
record IsUntouched (store after : Store) : Type 0 where
  groups : after.groups_committed ≡ store.groups_committed
  requests : after.txn.committed.requests ≡ store.txn.committed.requests

-- What a result says of the store that is left.
abbrev Keeps : Store → Result Bool × Store → Type 0
Keeps store (raised f, after) = IsUntouched store after
Keeps store (ok b, after) = Unit

after_materialize-Keeps :
    (e : Sources) (now : ℕ) (job : ImportJob) (snapshot_id : ℕ) (tracker : StageTracker)
    (error : Option Failure) (out : Outcome × Database) (store at : Store)
    → IsUntouched store at
    → Keeps store (after_materialize e now job snapshot_id tracker error out at)
after_materialize-Keeps e now job sid tracker (some f) (out, db) store at u = record {
  groups = u.groups;
  requests = u.requests;
}
after_materialize-Keeps e now job sid tracker none (done r m g b, db) store at u = tt
after_materialize-Keeps e now job sid tracker none (refused, db) store at u = u
after_materialize-Keeps e now job sid tracker none (incomplete, db) store at u = u
after_materialize-Keeps e now job sid tracker none (conflict, db) store at u = u

after_digest-Keeps :
    (e : Sources) (now : ℕ) (job : ImportJob) (snapshot_id : ℕ) (tracker : StageTracker)
    (graph : Graph) (digest : Result ℕ) (store at : Store)
    → IsUntouched store at
    → Keeps store (after_digest e now job snapshot_id tracker graph digest at)
after_digest-Keeps e now job sid tracker graph (raised f) store at u = u
after_digest-Keeps e now job sid tracker graph (ok digest) store at u =
    elim (Bool-cases (digest == graph.sha256)) [
      | inl same ↦ rw same (
          after_materialize-Keeps e now job sid tracker e.progress_error
            (materialize_indexed e.texts e.run_id_of graph job.case_id sid at.groups) store at u)
      | inr differs ↦ rw differs u
    ]

begin_grouping-IsUntouched :
    (now : ℕ) (job : ImportJob) (store : Store)
    → IsClean store
    → IsUntouched store (begin_grouping now job store).1
unfolding begin_grouping start save_job append_event
begin_grouping-IsUntouched now job store clean = record {
  groups = clean.groups;
  requests = sym clean.requests;
}

regroup-Keeps :
    (e : Sources) (now : ℕ) (job : ImportJob) (snapshot_id : ℕ) (graph : Graph) (store : Store)
    → IsClean store
    → Keeps store (regroup e now job snapshot_id graph store)
unfolding regroup
regroup-Keeps e now job sid graph store clean =
    let begun = begin_grouping now (grouping_job job) store in
    after_digest-Keeps e now (grouping_job job) sid begun.0 graph (e.file_sha256 graph) store
      begun.1 (begin_grouping-IsUntouched now (grouping_job job) store clean)

regroup_from-Keeps :
    (e : Sources) (now : ℕ) (job : ImportJob) (snapshot_id : ℕ) (row : Option SnapshotRow)
    (graph : Option GraphRow) (store : Store)
    → IsClean store
    → Keeps store (regroup_from e now job snapshot_id row graph store)
regroup_from-Keeps e now job sid row none store clean = record { groups = refl; requests = refl }
regroup_from-Keeps e now job sid row (some graph) store clean =
    elim (Bool-cases (is_recoverable job row (some graph))) [
      | inl so ↦ rw so (regroup-Keeps e now job sid graph.graph store clean)
      | inr bad ↦ rw bad (record { groups = refl; requests = refl })
    ]

regroup_snapshot-Keeps :
    (e : Sources) (now : ℕ) (job : ImportJob) (snapshot : Option ℕ) (store : Store)
    → IsClean store
    → Keeps store (regroup_snapshot e now job snapshot store)
regroup_snapshot-Keeps e now job none store clean = record { groups = refl; requests = refl }
regroup_snapshot-Keeps e now job (some sid) store clean =
    regroup_from-Keeps e now job sid (e.snapshot_row sid) (e.graph_row sid job.case_id) store clean

run_grouping_only-Keeps :
    (e : Sources) (now : ℕ) (job : ImportJob) (store : Store)
    → IsClean store
    → Keeps store (run_grouping_only e now job store)
unfolding run_grouping_only
run_grouping_only-Keeps e now job store clean =
    elim (Bool-cases (wants_groups (latest_pending_request job store.txn.current))) [
      | inl wanted ↦ rw wanted (regroup_snapshot-Keeps e now job job.snapshot_id store clean)
      | inr other ↦ rw other tt
    ]

-- A recovery of groups that raises has committed no change of the groups and of the requests, so no
-- partial generation is published and its request is still pending, where nothing else was pending.
pub run_grouping_only-raised :
    (e : Sources) (now : ℕ) (job : ImportJob) (store after : Store) {f : Failure}
    → IsClean store
    → run_grouping_only e now job store ≡ (raised f, after)
    → (after.groups_committed ≡ store.groups_committed)
      × (after.txn.committed.requests ≡ store.txn.committed.requests)
run_grouping_only-raised e now job store after clean is_raised =
    let u : IsUntouched store after =
      subst (Keeps store) is_raised (run_grouping_only-Keeps e now job store clean) in
    (u.groups, u.requests)
