-- ===== src/Jobs/RegroupTests.antt =====
-- A job whose review groups are recovered, and each theorem about that at it.
use trace_x.Common.{ℕ, ◌≡◌, refl, ◌⊎◌, inl, true, false, [], ◌∷◌, none, some, arith}
use trace_x.Jobs.Model.{ImportJob, AnalysisRequest, Session}
use trace_x.Jobs.Service.{new_job, claimed}
use trace_x.Jobs.Rows.{Holds}
use trace_x.Jobs.Worker.{Failure, ErrorClass, ok, raised}
use trace_x.Grouping.Model.{Texts}
use trace_x.Grouping.Materialize.{Database}
use trace_x.Jobs.Regroup.{persist, Sources, Store, run_grouping_only}
use trace_x.Jobs.Requests.{HoldsAttempt, run_grouping_only-superseded, persist_lem}
use trace_x.Jobs.Regrouped.{run_grouping_only-raised}
use trace_x.Jobs.Completes.{IsRegrouped, run_grouping_only-IsRegrouped}

abbrev job : ImportJob
job = record (claimed 50 7 30 (new_job 3 1 5 32 20)) { snapshot_id = some 1 }

abbrev only_groups : AnalysisRequest
only_groups = record {
  job_id = 3;
  attempt = 1;
  refresh_analytics = false;
  grouping_only = true;
  fulfilled = false;
}

abbrev tables : Session
tables = record {
  jobs = job ∷ [];
  events = [];
  outbox = [];
  audits = [];
  stages = [];
  requests = only_groups ∷ [];
  heartbeats = [];
  sources = [];
  next_id = 10;
}

abbrev groups : Database
groups = record {
  snapshots = record { id = 1; case_id = 1 } ∷ [];
  findings = [];
  participation = [];
  runs = [];
}

abbrev store_of : Session → Store
store_of s = record {
  txn = record { committed = s; current = s };
  groups = groups;
  groups_committed = groups;
}

abbrev failure : Failure
failure = record { class = ErrorClass.other; message = 1 ∷ [] }

abbrev texts : Texts
texts = record {
  family_of = λ rule_id rule_version. rule_id;
  is_peeling = λ rule_id. false;
  group_id = λ run_id finding_id. finding_id;
  utxo_token = λ txid. txid;
  source_token = λ evidence_id locator digest. evidence_id;
  sha256 = λ token. token;
  ref_rank = λ ref. 0;
}

-- The file of the graph has the given digest.
abbrev sources_with : ℕ → Sources
sources_with digest = record {
  texts = texts;
  run_id_of = λ case_id snapshot_id graph_sha256 rows refs. 500;
  snapshot_row =
      λ id. some (record { case_id = 1; job_id = 3; is_complete = true; provisional = false });
  graph_row = λ id case_id. some (record {
    is_complete = true;
    graph = record { case_id = 1; snapshot_id = 1; sha256 = 99; edges = [] };
  });
  file_sha256 = λ graph. ok digest;
  progress_error = none;
  runtime_error = failure;
  value_error = failure;
}

program : Unit {0}
unfolding run_grouping_only persist
program = tt

after_failure : Store
unfolding program
after_failure = (run_grouping_only (sources_with 98) 60 job (store_of tables)).1

fails :
    run_grouping_only (sources_with 98) 60 job (store_of tables) ≡ (raised failure, after_failure)
unfolding program after_failure
fails = refl

run_grouping_only-raised_example :
    (after_failure.groups_committed ≡ groups)
    × (after_failure.txn.committed.requests ≡ only_groups ∷ [])
run_grouping_only-raised_example =
    run_grouping_only-raised (sources_with 98) 60 job (store_of tables) after_failure
      (record { groups = refl; requests = refl }) fails

after_success : Store
unfolding program
after_success = (run_grouping_only (sources_with 99) 60 job (store_of tables)).1

succeeds : run_grouping_only (sources_with 99) 60 job (store_of tables) ≡ (ok true, after_success)
unfolding program after_success
succeeds = refl

run_grouping_only-IsRegrouped_example : IsRegrouped job 60 after_success
run_grouping_only-IsRegrouped_example =
    run_grouping_only-IsRegrouped (sources_with 99) 60 job (store_of tables) after_success
      (inl refl) succeeds

-- At the next attempt a full analysis was asked for.
abbrev whole : AnalysisRequest
whole = record {
  job_id = 3;
  attempt = 2;
  refresh_analytics = true;
  grouping_only = false;
  fulfilled = false;
}

abbrev asked_again : Store
asked_again = store_of (record tables { requests = whole ∷ only_groups ∷ [] })

abbrev retried : ImportJob
retried = record job { attempt = 2 }

run_grouping_only-superseded_example :
    run_grouping_only (sources_with 99) 60 retried asked_again ≡ (ok false, asked_again)
run_grouping_only-superseded_example =
    run_grouping_only-superseded (sources_with 99) 60 retried asked_again whole (inl refl) refl
      ((λ p g. absurd (cc)), ((λ p g. omega arith), tt))

persist_lem_example :
    (HoldsAttempt 1 7 job
      × ((persist 60 30 3 1 7 failure tables).0 ≡ ok tt)
      × Holds
          (record job { lease_expires_at = some 90 })
          (persist 60 30 3 1 7 failure tables).1.jobs)
    ⊎ ((¬ HoldsAttempt 1 7 job) × (persist 60 30 3 1 7 failure tables ≡ (raised failure, tables)))
persist_lem_example = persist_lem 3 1 7 60 30 failure tables job (tt, tt) (inl refl) refl
