-- ===== src/Ingestion/Tests.antt =====
-- Tests and instances for app/engine/ingestion/pipeline.py.
use trace_x.Common.{
  ℕ, ◌%◌, ◌≡◌, refl, false, List, [], ◌∷◌, map, none, some, arith, ◌==◌, if◌then◌else◌, take, All,
}
use trace_x.Canonical.Text.{codes}
use trace_x.Canonical.Model.{ParsedRow, Reason}
use trace_x.Canonical.Facts.{Facts}
use trace_x.Ingestion.Model.{RowOutcome, Fault, Work, work_rows}
use trace_x.Ingestion.Store.{
  Content, Store, empty, parsed, fragment_conflict, run_batches, pending_batches, next_batch,
  committed_seen, ingest, fresh_work, record_count,
}
use trace_x.Ingestion.Loop.{IsFaithful}
use trace_x.Ingestion.Faithful.{Step, Run, left, ingest-IsFaithful}
use trace_x.Ingestion.Fresh.{ingest_fresh}

abbrev row : ℕ → ParsedRow
row n = record {
  logical_record = n;
  locator_type = codes "record";
  locator = codes "record";
  value = [];
}

abbrev facts : ℕ → Facts
facts n = record {
  transaction = record {
    origin = record {
      case_id = 1;
      network = codes "unknown";
      txid = n ∷ [];
      source_ref = record {
        evidence_id = 2;
        source_sha256 = 3;
        locator_type = codes "record";
        locator = codes "record";
      };
    };
    block_hash = none;
    block_height = none;
    block_time = none;
    block_time_original = none;
    fee_sats = none;
    source_timestamp = none;
    source_timestamp_original = none;
    means_block_time = false;
  };
  inputs = [];
  outputs = [];
  observations = [];
}

-- The second record is refused; the others are variants of two transactions.
abbrev read : ParsedRow → RowOutcome
read r =
    if r.logical_record == 2
    then RowOutcome.error Reason.bad_txid
    else RowOutcome.good (facts (r.logical_record % 2)) r.logical_record

abbrev rows : List ParsedRow
rows = map row (1 ∷ 2 ∷ 3 ∷ 4 ∷ 5 ∷ [])

-- A digest that tells the files of these tests apart.
abbrev digest : Content → ℕ
digest c = record_count c

-- An attempt with batches of two that ends behind its first batch.
abbrev interrupted : Store
interrupted = left (
    run_batches digest read (take 1 (pending_batches digest read 2 rows empty)) (next_batch empty)
      (committed_seen empty) empty)

abbrev resumed : Store
resumed = left (ingest digest read 3 rows interrupted)

interrupted-Run : Run digest read rows interrupted
interrupted-Run = Run.next Run.here (Step.attempt 2 1 interrupted.files refl)

resumed_parsed : ingest digest read 3 rows interrupted ≡ parsed resumed
unfolding ingest
resumed_parsed = refl

ingest-IsFaithful_example : IsFaithful digest read rows resumed
ingest-IsFaithful_example =
    ingest-IsFaithful digest read rows 3 interrupted resumed (omega arith) (omega arith)
      interrupted-Run resumed_parsed

readable : All (λ r. read r ≡ RowOutcome.broken → ⊥) rows
readable = (λ e. cc, (λ e. cc, (λ e. cc, (λ e. cc, (λ e. cc, tt)))))

ingest_fresh_example :
    (t : Store) × (ingest digest read 2 rows empty ≡ parsed t) × IsFaithful digest read rows t
ingest_fresh_example =
    ingest_fresh digest read rows 2 (omega arith) (omega arith) (omega arith) readable

-- A file of a batch of three rows that was not committed stops an attempt with batches of two, whose
-- file for the same batch is another one.
abbrev orphaned : Store
orphaned = record empty {
  files =
      (record {
        logical_batch = 0;
        content = Content.transactions ((facts 1).transaction ∷ (facts 0).transaction ∷ []);
      })
      ∷ [];
}

orphan_conflict : ingest digest read 2 rows orphaned ≡ fragment_conflict orphaned
unfolding ingest
orphan_conflict = refl

-- In one attempt the third record conflicts with the first one; after a resumption it is a duplicate.
abbrev third_after : Work
third_after = record {
  seen = committed_seen interrupted;
  accepted = [];
  quarantine = (record { row = row 3; reason = Fault.duplicate_row }) ∷ [];
}

duplicate_after_resumption :
    work_rows read (row 3 ∷ []) (fresh_work digest read (committed_seen interrupted))
    ≡ some third_after
unfolding work_rows ingest
duplicate_after_resumption = refl

conflicting_in_one_attempt :
    work_rows read (row 1 ∷ row 3 ∷ []) (fresh_work digest read [])
    ≡ some (record {
      seen = (1 ∷ [], some 1) ∷ [];
      accepted = facts 1 ∷ [];
      quarantine = (record { row = row 3; reason = Fault.conflicting_variant }) ∷ [];
    })
unfolding work_rows
conflicting_in_one_attempt = refl
