-- ===== src/Ingestion/Store.antt =====
-- Fragments, receipts and the checkpoint: _commit_batch and ingest_source of
-- app/engine/ingestion/pipeline.py, publish_batch and _write_immutable of
-- app/engine/catalogue/fragments.py.
use trace_x.Common.{
  ℕ, ◌+◌, Bool, ◌&&◌, not, List, [], ◌∷◌, ◌++◌, map, Option, none, some, ◌==◌, ltb, if◌then◌else◌,
  length, select, exists_in, find_first,
}
use trace_x.Canonical.Model.{ParsedRow}
use trace_x.Canonical.Facts.{Transaction, Input, Output, Observation, Facts}
use trace_x.Ingestion.Model.{RowOutcome, Quarantined, Seen, Work, work_rows, chunks}

-- A group of facts of one record type.
pub data Content : Type 0 where
  transactions : List Transaction → Content
  inputs : List Input → Content
  outputs : List Output → Content
  network_observations : List Observation → Content
  quarantine : List Quarantined → Content

abbrev pub record_type : Content → ℕ
record_type (Content.transactions xs) = 0
record_type (Content.inputs xs) = 1
record_type (Content.outputs xs) = 2
record_type (Content.network_observations xs) = 3
record_type (Content.quarantine xs) = 4

abbrev pub record_count : Content → ℕ
record_count (Content.transactions xs) = length xs
record_count (Content.inputs xs) = length xs
record_count (Content.outputs xs) = length xs
record_count (Content.network_observations xs) = length xs
record_count (Content.quarantine xs) = length xs

-- A file of a batch; with its digest, the receipt for it.
pub record Fragment : Type 0 where
  pub logical_batch : ℕ
  pub content : Content

abbrev pub same_place : Fragment → Fragment → Bool
same_place f g =
    f.logical_batch == g.logical_batch && record_type f.content == record_type g.content

abbrev pub inputs_of : List Facts → List Input
inputs_of [] = []
inputs_of (f ∷ fs) = f.inputs ++ inputs_of fs

abbrev pub outputs_of : List Facts → List Output
outputs_of [] = []
outputs_of (f ∷ fs) = f.outputs ++ outputs_of fs

abbrev pub observations_of : List Facts → List Observation
observations_of [] = []
observations_of (f ∷ fs) = f.observations ++ observations_of fs

-- The dictionary `facts` of a batch, in its order.
abbrev pub contents : Work → List Content
contents w =
    Content.transactions (map (λ (f : Facts). f.transaction) w.accepted)
    ∷ Content.inputs (inputs_of w.accepted)
    ∷ Content.outputs (outputs_of w.accepted)
    ∷ Content.network_observations (observations_of w.accepted)
    ∷ Content.quarantine w.quarantine
    ∷ []

-- The groups that are not empty, as fragments of the batch.
unfoldable pub fragments : (logical_batch : ℕ) → List Content → List Fragment
unfolding select
fragments n cs =
    map (λ c. record { logical_batch = n; content = c })
      (select (λ c. not (record_count c == 0)) cs)

-- What the files are after a publication, and whether it conflicted with a file that was there.
pub data Published : Type 0 where
  published conflict : List Fragment → Published

-- The part of the database that the import of one job writes, and the files of its fragments.
pub record Store : Type 0 where
  pub files : List Fragment
  pub receipts : List Fragment
  -- the greatest logical record of the checkpoints, or zero
  pub checkpoint : ℕ
  pub rows_seen : ℕ
  pub rows_accepted : ℕ
  pub rows_quarantined : ℕ

abbrev pub empty : Store
empty = record {
  files = [];
  receipts = [];
  checkpoint = 0;
  rows_seen = 0;
  rows_accepted = 0;
  rows_quarantined = 0;
}

-- The receipts of a batch, where there is none yet for the record type.
unfoldable pub add_receipts : List Fragment → List Fragment → List Fragment
unfolding exists_in
add_receipts receipts [] = receipts
add_receipts receipts (f ∷ fs) =
    add_receipts (if exists_in (same_place f) receipts then receipts else receipts ++ f ∷ []) fs

-- `rows[-1].logical_record` of a batch, which has a row.
unfoldable pub last_record : ℕ → List ParsedRow → ℕ
last_record n [] = n
last_record n (r ∷ rs) = last_record r.logical_record rs

abbrev pub max : ℕ → ℕ → ℕ
max a b = if ltb a b then b else a

-- `func.max(FragmentReceipt.logical_batch)`
unfoldable pub last_batch : List Fragment → Option ℕ
last_batch [] = none
last_batch (f ∷ fs) = elim (last_batch fs) [
  | none ↦ some f.logical_batch
  | some n ↦ some (max f.logical_batch n)
]

-- `batch_number`
abbrev pub next_of : Option ℕ → ℕ
next_of none = 0
next_of (some n) = n + 1

unfoldable pub next_batch : Store → ℕ
unfolding last_batch
next_batch s = if s.checkpoint == 0 then 0 else next_of (last_batch s.receipts)

-- `_committed_txids`: the transaction ids of the receipted fragments.
abbrev pub transactions_of : Content → List Transaction
transactions_of (Content.transactions ts) = ts
transactions_of _ = []

unfoldable pub transactions_in : List Fragment → List Transaction
transactions_in [] = []
transactions_in (f ∷ fs) = transactions_of f.content ++ transactions_in fs

unfoldable pub committed_seen : Store → Seen
unfolding transactions_in
committed_seen s = map (λ (t : Transaction). (t.origin.txid, none)) (transactions_in s.receipts)

-- The end of an attempt, with the store that it leaves.
pub data Attempt : Type 0 where
  parsed : Store → Attempt
  no_records fragment_conflict row_failed : Store → Attempt

-- `digest` is the SHA-256 of the file of a fragment.
module _ (digest : Content → ℕ) where
  -- `_write_immutable`
  abbrev pub written : Fragment → Option Fragment → List Fragment → Published
  written f none files = Published.published (files ++ f ∷ [])
  written f (some old) files =
      if digest old.content == digest f.content
      then Published.published files
      else Published.conflict files

  abbrev pub then_write : Published → (List Fragment → Published) → Published
  then_write (Published.published files) rest = rest files
  then_write (Published.conflict files) rest = Published.conflict files

  -- `publish_batch`
  unfoldable pub publish : List Fragment → List Fragment → Published
  unfolding find_first
  publish [] files = Published.published files
  publish (f ∷ fs) files =
      then_write (written f (find_first (same_place f) files) files) (publish fs)

  -- What `_commit_batch` leaves once the fragments of the batch are published.
  abbrev pub committed : (logical_batch : ℕ) → List ParsedRow → Work → List Fragment → Store → Store
  committed n rows w files s = record {
    files = files;
    receipts = add_receipts s.receipts (fragments n (contents w));
    checkpoint = max s.checkpoint (last_record 0 rows);
    rows_seen = s.rows_seen + length rows;
    rows_accepted = s.rows_accepted + length w.accepted;
    rows_quarantined = s.rows_quarantined + length w.quarantine;
  }

  module _ (read : ParsedRow → RowOutcome) where
    abbrev pub fresh_work : Seen → Work
    fresh_work seen = record { seen = seen; accepted = []; quarantine = [] }

    -- The rest of the loop, from its batch number, `seen_txids` and the store.
    abbrev pub Rest : Type 0
    Rest = ℕ → Seen → Store → Attempt

    abbrev pub after_publish : Published → ℕ → List ParsedRow → Work → Store → Rest → Attempt
    after_publish (Published.conflict files) n rows w s rest =
        fragment_conflict (record s { files = files })
    after_publish (Published.published files) n rows w s rest =
        rest (n + 1) w.seen (committed n rows w files s)

    abbrev pub after_work : Option Work → ℕ → List ParsedRow → Store → Rest → Attempt
    after_work none n rows s rest = row_failed s
    after_work (some w) n rows s rest =
        after_publish (publish (fragments n (contents w)) s.files) n rows w s rest

    -- `for batch, outcomes in batches`
    unfoldable pub run_batches : List (List ParsedRow) → ℕ → Seen → Store → Attempt
    unfolding work_rows publish fragments add_receipts last_record
    run_batches [] n seen s = parsed s
    run_batches (rows ∷ batches) n seen s =
        after_work (work_rows read rows (fresh_work seen)) n rows s (run_batches batches)

    -- The rows behind the last checkpoint, in batches.
    unfoldable pub pending_batches : (size : ℕ) → List ParsedRow → Store → List (List ParsedRow)
    unfolding chunks select
    pending_batches size rows s =
        chunks size (select (λ (r : ParsedRow). ltb s.checkpoint r.logical_record) rows)

    abbrev pub checked : List (List ParsedRow) → Store → Attempt
    checked [] s = if s.checkpoint == 0 then no_records s else parsed s
    checked (b ∷ bs) s = run_batches (b ∷ bs) (next_batch s) (committed_seen s) s

    -- The parsing of `ingest_source`, as an attempt that is not interrupted.
    unfoldable pub ingest : (size : ℕ) → List ParsedRow → Store → Attempt
    unfolding pending_batches run_batches next_batch committed_seen
    ingest size rows s = checked (pending_batches size rows s) s
