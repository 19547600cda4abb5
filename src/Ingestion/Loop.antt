-- ===== src/Ingestion/Loop.antt =====
-- The loop over the batches in ingest_source of app/engine/ingestion/pipeline.py.
use trace_x.Common.{
  ℕ, ◌+◌, ◌<◌, ◌≤◌, ◌≡◌, ◌∙◌, refl, sym, ap, subst, arith, inl, inr, List, [], ◌∷◌, ◌++◌, map, some,
  length, length-append, Option-cases,
}
use mathlib.Core.List.{append-nil, append_assoc, map-append}
use trace_x.Canonical.Text.{Text}
use trace_x.Canonical.Model.{ParsedRow}
use trace_x.Canonical.Facts.{Transaction, Facts}
use trace_x.Canonical.Profiles.{is_among}
use trace_x.Ingestion.Model.{RowOutcome, txid_of, Seen, Work, work_rows}
use trace_x.Ingestion.Reference.{
  accepted_from, accepted_from-same, accepted_from-append, SameMembers, txids, is_among-append,
}
use trace_x.Ingestion.Worked.{work_rows-IsWorked, keys}
use trace_x.Ingestion.Store.{
  Content, Fragment, contents, fragments, Store, Attempt, parsed, no_records, fragment_conflict,
  row_failed, last_record, max, transactions_in, Published, published, conflict, publish, committed,
  fresh_work, after_publish, run_batches,
}
use trace_x.Ingestion.Receipts.{
  transactions_in-append, batch_transactions, Below, Below-batch, add_receipts-batch,
}

-- Records are numbered upwards, behind a number.
abbrev pub IsNumbered : ℕ → List ParsedRow → Type 0
IsNumbered n [] = Unit
IsNumbered n (r ∷ rs) = (n < r.logical_record) × IsNumbered r.logical_record rs

pub last_record-append :
    (n : ℕ) (xs ys : List ParsedRow) → last_record n (xs ++ ys) ≡ last_record (last_record n xs) ys
unfolding last_record
last_record-append n [] ys = refl
last_record-append n (x ∷ xs) ys = last_record-append x.logical_record xs ys

pub last_record-le : (n : ℕ) (rs : List ParsedRow) → IsNumbered n rs → n ≤ last_record n rs
unfolding last_record
last_record-le n [] h = omega arith
last_record-le n (r ∷ rs) h = omega (arith, h.0, last_record-le r.logical_record rs h.1)

pub IsNumbered-append :
    (n : ℕ) (xs ys : List ParsedRow) → IsNumbered n (xs ++ ys) → IsNumbered (last_record n xs) ys
unfolding last_record
IsNumbered-append n [] ys h = h
IsNumbered-append n (x ∷ xs) ys h = IsNumbered-append x.logical_record xs ys h.1

max-last :
    (n : ℕ) (rs : List ParsedRow) → IsNumbered n rs → max n (last_record 0 rs) ≡ last_record n rs
unfolding last_record
max-last n [] h = ground arith
max-last n (r ∷ rs) h =
    let reached = last_record-le r.logical_record rs h.1 in ground (arith, h.0, reached)

IsNumbered-front : (n : ℕ) (xs ys : List ParsedRow) → IsNumbered n (xs ++ ys) → IsNumbered n xs
IsNumbered-front n [] ys h = tt
IsNumbered-front n (x ∷ xs) ys h = (h.0, IsNumbered-front x.logical_record xs ys h.1)

among_turned :
    (t : Text) (new seen before : List Text)
    → is_among t seen ≡ is_among t before
    → is_among t (new ++ seen) ≡ is_among t (before ++ new)
among_turned t new seen before h =
    ground (arith, h, is_among-append t new seen, is_among-append t before new)

abbrev pub flat : List (List ParsedRow) → List ParsedRow
flat [] = []
flat (b ∷ bs) = b ++ flat bs

abbrev pub transactions_of_facts : List Facts → List Transaction
transactions_of_facts fs = map (λ (f : Facts). f.transaction) fs

module _ (digest : Content → ℕ) (read : ParsedRow → RowOutcome) where
  -- The store after the rows: what is receipted is what the reference accepts, and every row is
  -- counted once.
  pub record IsFaithful (rows : List ParsedRow) (s : Store) : Type 0 where
    pub transactions :
        transactions_in s.receipts ≡ transactions_of_facts (accepted_from read rows [])
    pub checkpoint : s.checkpoint ≡ last_record 0 rows
    pub rows_seen : s.rows_seen ≡ length rows
    pub rows_accepted : s.rows_accepted ≡ length (accepted_from read rows [])
    pub counted : s.rows_accepted + s.rows_quarantined ≡ s.rows_seen
    pub started : rows ≡ [] → s.receipts ≡ []

  -- What the loop holds beside the store.
  pub record IsRunning (rows : List ParsedRow) (n : ℕ) (seen : Seen) (s : Store) : Type 0 where
    pub faithful : IsFaithful rows s
    pub below : Below n s.receipts
    pub same : SameMembers (keys seen) (txids (accepted_from read rows []))

  next_accepted :
      (rows batch : List ParsedRow) (seen : Seen)
      → SameMembers (keys seen) (txids (accepted_from read rows []))
      → accepted_from read (rows ++ batch) []
        ≡ accepted_from read rows [] ++ accepted_from read batch (keys seen)
  next_accepted rows batch seen same =
      accepted_from-append read rows batch []
      ∙ ap (λ fs. accepted_from read rows [] ++ fs)
          (accepted_from-same read batch _ (keys seen)
            (λ t. ap (is_among t) (append-nil (txids (accepted_from read rows []))) ∙ sym (same t)))

  -- A batch that is committed.
  batch-IsRunning :
      (rows batch : List ParsedRow) (n : ℕ) (seen : Seen) (s : Store) (w : Work)
      (files : List Fragment)
      → 1 ≤ length batch
      → IsNumbered (last_record 0 rows) batch
      → IsRunning rows n seen s
      → work_rows read batch (fresh_work digest read seen) ≡ some w
      → IsRunning (rows ++ batch) (n + 1) w.seen (committed digest n batch w files s)
  batch-IsRunning rows batch n seen s w files filled numbered h worked =
      let b = work_rows-IsWorked read batch (fresh_work digest read seen) w worked in
      let before = accepted_from read rows [] in
      let new = accepted_from read batch (keys seen) in
      let e = next_accepted rows batch seen h.same in
      let f = h.faithful in
      let receipts = add_receipts-batch n w s.receipts h.below in
      record {
        faithful = record {
          transactions =
              ap transactions_in receipts
              ∙ transactions_in-append s.receipts (fragments n (contents w))
              ∙ ap (λ ts. ts ++ transactions_in (fragments n (contents w))) f.transactions
              ∙ ap (λ ts. transactions_of_facts before ++ ts)
                  (batch_transactions n w ∙ ap transactions_of_facts b.accepted)
              ∙ sym (map-append _ before new)
              ∙ ap transactions_of_facts (sym e);
          checkpoint =
              ap (λ c. max c (last_record 0 batch)) f.checkpoint
              ∙ max-last (last_record 0 rows) batch numbered
              ∙ sym (last_record-append 0 rows batch);
          rows_seen = omega (arith, f.rows_seen, length-append {0} rows batch);
          rows_accepted = omega (
            arith,
            f.rows_accepted,
            ap length e,
            ap length b.accepted,
            length-append {0} before new,
          );
          counted = omega (arith, f.counted, b.counted, f.rows_seen);
          started = λ none_left.
              absurd (omega (arith, ap length none_left, length-append {0} rows batch, filled));
        };
        below = subst (Below (n + 1)) (sym receipts) (Below-batch n w s.receipts h.below);
        same = λ t.
            b.seen t
            ∙ among_turned t (txids new) (keys seen) (txids before) (h.same t)
            ∙ ap (is_among t) (sym (map-append txid_of before new))
            ∙ ap (λ fs. is_among t (txids fs)) (sym e);
      }

  -- What an attempt leaves: all the rows of its batches if it parsed them, else some of them.
  abbrev pub Stopped : List ParsedRow → List (List ParsedRow) → Store → Type 0
  Stopped rows batches t =
      (ps : List ParsedRow) × (qs : List ParsedRow) × (flat batches ≡ ps ++ qs)
      × IsFaithful (rows ++ ps) t

  abbrev pub Leaves : List ParsedRow → List (List ParsedRow) → Attempt → Type 0
  Leaves rows batches (parsed t) = IsFaithful (rows ++ flat batches) t
  Leaves rows batches (no_records t) = Stopped rows batches t
  Leaves rows batches (fragment_conflict t) = Stopped rows batches t
  Leaves rows batches (row_failed t) = Stopped rows batches t

  abbrev pub AreFilled : List (List ParsedRow) → Type 0
  AreFilled [] = Unit
  AreFilled (b ∷ bs) = (1 ≤ length b) × AreFilled bs

  pub IsFaithful-files :
      (rows : List ParsedRow) (s : Store) (files : List Fragment)
      → IsFaithful rows s
      → IsFaithful rows (record s { files = files })
  IsFaithful-files rows s files h = record {
    transactions = h.transactions;
    checkpoint = h.checkpoint;
    rows_seen = h.rows_seen;
    rows_accepted = h.rows_accepted;
    counted = h.counted;
    started = h.started;
  }

  IsFaithful-Stopped :
      (rows : List ParsedRow) (batches : List (List ParsedRow)) (s : Store)
      → IsFaithful rows s
      → Stopped rows batches s
  IsFaithful-Stopped rows batches s h =
      ([], flat batches, refl, subst (λ rs. IsFaithful rs s) (sym (append-nil rows)) h)

  Stopped-cons :
      (rows batch : List ParsedRow) (batches : List (List ParsedRow)) (t : Store)
      → Stopped (rows ++ batch) batches t
      → Stopped rows (batch ∷ batches) t
  Stopped-cons rows batch batches t (ps, qs, e, h) = (
    batch ++ ps,
    qs,
    ap (λ rs. batch ++ rs) e ∙ sym (append_assoc batch ps qs),
    subst (λ rs. IsFaithful rs t) (append_assoc rows batch ps) h,
  )

  Leaves-cons :
      (rows batch : List ParsedRow) (batches : List (List ParsedRow)) (a : Attempt)
      → Leaves (rows ++ batch) batches a
      → Leaves rows (batch ∷ batches) a
  Leaves-cons rows batch batches (parsed t) h =
      subst (λ rs. IsFaithful rs t) (append_assoc rows batch (flat batches)) h
  Leaves-cons rows batch batches (no_records t) h = Stopped-cons rows batch batches t h
  Leaves-cons rows batch batches (fragment_conflict t) h = Stopped-cons rows batch batches t h
  Leaves-cons rows batch batches (row_failed t) h = Stopped-cons rows batch batches t h

  pub run_batches-Leaves :
      (batches : List (List ParsedRow)) (rows : List ParsedRow) (n : ℕ) (seen : Seen) (s : Store)
      → AreFilled batches
      → IsNumbered (last_record 0 rows) (flat batches)
      → IsRunning rows n seen s
      → Leaves rows batches (run_batches digest read batches n seen s)
  unfolding run_batches
  run_batches-Leaves [] rows n seen s filled numbered h =
      subst (λ rs. IsFaithful rs s) (sym (append-nil rows)) h.faithful
  run_batches-Leaves (batch ∷ batches) rows n seen s filled numbered h =
      elim (Option-cases (work_rows read batch (fresh_work digest read seen))) [
        | inl failed ↦
            rw (failed, run_batches) (IsFaithful-Stopped rows (batch ∷ batches) s h.faithful)
        | inr (w, worked) ↦
            rw (worked, run_batches)
              (published_batch batch batches w (publish digest (fragments n (contents w)) s.files)
                (λ files.
                  run_batches-Leaves batches (rows ++ batch) (n + 1) w.seen
                    (committed digest n batch w files s) filled.1
                    (subst (λ m. IsNumbered m (flat batches))
                      (sym (last_record-append 0 rows batch))
                      (IsNumbered-append (last_record 0 rows) batch (flat batches) numbered))
                    (batch-IsRunning rows batch n seen s w files filled.0
                      (IsNumbered-front (last_record 0 rows) batch (flat batches) numbered) h
                      worked)))
      ]
    where
      published_batch :
          (batch : List ParsedRow) (batches : List (List ParsedRow)) (w : Work) (p : Published)
          → ((files : List Fragment)
              → Leaves (rows ++ batch) batches (
                  run_batches digest read batches
                    (n + 1)
                    w.seen
                    (committed digest n batch w files s)))
          → Leaves rows
              (batch ∷ batches)
              (after_publish digest read p n batch w s (run_batches digest read batches))
      published_batch batch batches w (published files) k =
          Leaves-cons rows batch batches _ (k files)
      published_batch batch batches w (conflict files) k =
          IsFaithful-Stopped rows (batch ∷ batches) (record s { files = files })
            (IsFaithful-files rows s files h.faithful)
