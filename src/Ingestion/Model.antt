-- ===== src/Ingestion/Model.antt =====
-- Rows, their outcomes, and the loop over a batch in ingest_source of
-- app/engine/ingestion/pipeline.py.
use trace_x.Common.{ℕ, zero, suc, ◌-◌, List, [], ◌∷◌, ◌++◌, Option, none, some, ◌==◌, if◌then◌else◌}
use trace_x.Canonical.Text.{Text, text_eq}
use trace_x.Canonical.Model.{Dict, ParsedRow, Reason, Outcome, ok, rejected, escaped, Python}
use trace_x.Canonical.Profiles.{Rename}
use trace_x.Canonical.Facts.{Facts}
use trace_x.Canonical.Row.{normalize_row}

-- `RowOutcome`, and the exceptions that `normalize_one` lets pass.
pub data RowOutcome : Type 0 where
  error : Reason → RowOutcome
  good : Facts → (variant_hash : ℕ) → RowOutcome
  broken : RowOutcome

abbrev pub outcome_of : (variant_hash : ℕ) → Outcome (Facts × List Rename) → RowOutcome
outcome_of variant_hash (ok (facts, mapping)) = RowOutcome.good facts variant_hash
outcome_of variant_hash (rejected r) = RowOutcome.error r
outcome_of variant_hash escaped = RowOutcome.broken

-- `normalize_one`; `digest` is the BLAKE2b hash of the row's JSON.
unfoldable pub normalize_one :
    (py : Python) (digest : Dict → ℕ) (case_id source_id source_sha256 : ℕ) → ParsedRow → RowOutcome
unfolding normalize_row
normalize_one py digest case_id source_id source_sha256 row =
    outcome_of (digest row.value) (normalize_row py case_id source_id source_sha256 row)

abbrev pub txid_of : Facts → Text
txid_of facts = facts.transaction.origin.txid

pub data Fault : Type 0 where
  invalid : Reason → Fault
  conflicting_variant duplicate_row : Fault

-- What `_quarantine` keeps of a row.
pub record Quarantined : Type 0 where
  pub row : ParsedRow
  pub reason : Fault

-- `_chunks`: `room` rows still fit into the open batch.
unfoldable pub chunks_from :
    (size room : ℕ) → List ParsedRow → List ParsedRow → List (List ParsedRow)
chunks_from size room [] [] = []
chunks_from size room (b ∷ bs) [] = (b ∷ bs) ∷ []
chunks_from size zero batch (r ∷ rs) = batch ∷ chunks_from size (size - 1) (r ∷ []) rs
chunks_from size (suc room) batch (r ∷ rs) = chunks_from size room (batch ++ r ∷ []) rs

unfoldable pub chunks : (size : ℕ) → List ParsedRow → List (List ParsedRow)
unfolding chunks_from
chunks zero rows = []
chunks (suc n) rows = chunks_from (suc n) (suc n) [] rows

-- `seen_txids`: the digest of the first variant, or none for one that an earlier attempt committed.
abbrev pub Seen : Type 0
Seen = List (Text × Option ℕ)

unfoldable pub find_seen : Text → Seen → Option (Option ℕ)
unfolding text_eq
find_seen t [] = none
find_seen t ((u, variant) ∷ rest) = if text_eq t u then some variant else find_seen t rest

-- `seen_txids[txid] not in (None, variant_hash)`
abbrev pub fault_of : Option ℕ → (variant_hash : ℕ) → Fault
fault_of none variant_hash = Fault.duplicate_row
fault_of (some v) variant_hash =
    if v == variant_hash then Fault.duplicate_row else Fault.conflicting_variant

-- The variables of the loop over a batch.
pub record Work : Type 0 where
  pub seen : Seen
  pub accepted : List Facts
  pub quarantine : List Quarantined

abbrev pub set_aside : ParsedRow → Fault → Work → Work
set_aside row reason w = record w {
  quarantine = w.quarantine ++ (record { row = row; reason = reason }) ∷ [];
}

abbrev pub keep_or_set_aside : ParsedRow → Facts → ℕ → Option (Option ℕ) → Work → Work
keep_or_set_aside row facts variant_hash (some first) w =
    set_aside row (fault_of first variant_hash) w
keep_or_set_aside row facts variant_hash none w = record w {
  seen = (txid_of facts, some variant_hash) ∷ w.seen;
  accepted = w.accepted ++ facts ∷ [];
}

-- One row of the loop; none where the exception of the row ends the attempt.
unfoldable pub work_row : ParsedRow → RowOutcome → Work → Option Work
unfolding find_seen
work_row row (RowOutcome.error r) w = some (set_aside row (Fault.invalid r) w)
work_row row (RowOutcome.good facts variant_hash) w =
    some (keep_or_set_aside row facts variant_hash (find_seen (txid_of facts) w.seen) w)
work_row row RowOutcome.broken w = none

abbrev pub then_rows : Option Work → (Work → Option Work) → Option Work
then_rows none rest = none
then_rows (some w) rest = rest w

module _ (read : ParsedRow → RowOutcome) where
  unfoldable pub work_rows : List ParsedRow → Work → Option Work
  unfolding work_row
  work_rows [] w = some w
  work_rows (row ∷ rows) w = then_rows (work_row row (read row) w) (work_rows rows)
