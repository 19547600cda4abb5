-- ===== src/Ingestion/Faithful.antt =====
-- An import is faithful however its attempts end: ingest_source of app/engine/ingestion/pipeline.py.
use trace_x.Common.{
  ℕ, ◌≤◌, ◌≡◌, ◌∙◌, refl, sym, ap, subst, arith, inl, inr, Bool, true, false, List, [], ◌∷◌, ◌++◌,
  map, none, ◌==◌, ltb, if◌then◌else◌, select, take, Bool-cases,
}
use mathlib.Core.List.{append-nil, append_assoc}
use trace_x.Canonical.Model.{ParsedRow}
use trace_x.Canonical.Facts.{Transaction, Facts}
use trace_x.Canonical.Profiles.{is_among}
use trace_x.Ingestion.Model.{RowOutcome, chunks}
use trace_x.Ingestion.Reference.{accepted_from, txids}
use trace_x.Ingestion.Worked.{keys}
use trace_x.Ingestion.Store.{
  Content, Fragment, Store, empty, Attempt, parsed, no_records, fragment_conflict, row_failed,
  last_record, next_batch, transactions_in, committed_seen, run_batches, pending_batches, checked,
  ingest,
}
use trace_x.Ingestion.Receipts.{Below, Below-next}
use trace_x.Ingestion.Loop.{
  IsNumbered, IsNumbered-append, last_record-le, flat, transactions_of_facts, IsFaithful,
  IsFaithful-files, IsRunning, Leaves, Stopped, AreFilled, run_batches-Leaves,
}
use trace_x.Ingestion.Resumed.{
  chunks-AreFilled, chunks-flat, chunks-Covers, Covers, take-Covers, take-AreFilled, pending_rows,
}

-- The store that an attempt leaves.
abbrev pub left : Attempt → Store
left (parsed t) = t
left (no_records t) = t
left (fragment_conflict t) = t
left (row_failed t) = t

keys-committed :
    (fs : List Facts)
    → keys (map (λ (t : Transaction). (t.origin.txid, none)) (transactions_of_facts fs)) ≡ txids fs
keys-committed [] = refl
keys-committed (f ∷ fs) = ap (λ ts. f.transaction.origin.txid ∷ ts) (keys-committed fs)

module _ (digest : Content → ℕ) (read : ParsedRow → RowOutcome) where
  -- An attempt at the rows that ends behind any number of its batches, for whatever reason, with any
  -- files of an unfinished batch; the size of a batch is that of the attempt.
  pub data Step (rows : List ParsedRow) (s t : Store) : Type 0 where
    attempt :
        (size k : ℕ) (files : List Fragment)
        → t
          ≡ record (left (
              run_batches digest read
                (take k (pending_batches digest read size rows s))
                (next_batch s)
                (committed_seen s)
                s)) { files = files }
        → Step rows s t

  pub data Run (rows : List ParsedRow) : Store → Type 0 where
    here : Run rows empty
    next : {s t : Store} → Run rows s → Step rows s t → Run rows t

  -- The store is faithful to a first part of the rows.
  abbrev pub IsPrefix : List ParsedRow → Store → Type 0
  IsPrefix rows s =
      (ps : List ParsedRow) × (qs : List ParsedRow) × (rows ≡ ps ++ qs)
      × IsFaithful digest read ps s

  pub empty-IsFaithful : IsFaithful digest read [] empty
  unfolding accepted_from transactions_in last_record
  empty-IsFaithful = record {
    transactions = refl;
    checkpoint = refl;
    rows_seen = refl;
    rows_accepted = refl;
    counted = omega arith;
    started = λ e. refl;
  }

  no_rows : (ps : List ParsedRow) → IsNumbered 0 ps → last_record 0 ps ≡ 0 → ps ≡ []
  unfolding last_record
  no_rows [] numbered e = refl
  no_rows (p ∷ ps) numbered e =
      absurd (omega (arith, last_record-le p.logical_record ps numbered.1, numbered.0, e))

  front : (n : ℕ) (xs ys : List ParsedRow) → IsNumbered n (xs ++ ys) → IsNumbered n xs
  front n [] ys h = tt
  front n (x ∷ xs) ys h = (h.0, front x.logical_record xs ys h.1)

  start-Below :
      (ps : List ParsedRow) (s : Store)
      → IsNumbered 0 ps
      → IsFaithful digest read ps s
      → Below (next_batch s) s.receipts
  unfolding next_batch
  start-Below ps s numbered h = elim (Bool-cases (s.checkpoint == 0)) [
    | inr later ↦ rw later (Below-next s.receipts)
    | inl fresh ↦
        let none_done = no_rows ps numbered (sym h.checkpoint ∙ ground (arith, fresh)) in
        rw fresh (subst (Below 0) (sym (h.started none_done)) tt)
  ]

  start-IsRunning :
      (ps : List ParsedRow) (s : Store)
      → IsNumbered 0 ps
      → IsFaithful digest read ps s
      → IsRunning digest read ps (next_batch s) (committed_seen s) s
  unfolding committed_seen
  start-IsRunning ps s numbered h = record {
    faithful = h;
    below = start-Below ps s numbered h;
    same = λ t.
        ap (λ ts. is_among t (keys (map (λ (r : Transaction). (r.origin.txid, none)) ts)))
          h.transactions
        ∙ ap (is_among t) (keys-committed (accepted_from read ps []));
  }

  IsPrefix-files :
      (rows : List ParsedRow) (s : Store) (files : List Fragment)
      → IsPrefix rows s
      → IsPrefix rows (record s { files = files })
  IsPrefix-files rows s files (ps, qs, e, h) =
      (ps, qs, e, IsFaithful-files digest read ps s files h)

  -- The batches of an attempt cover the rows that are left.
  module _ (size : ℕ) (ps qs : List ParsedRow) (s : Store) (numbered : IsNumbered 0 (ps ++ qs))
      (h : IsFaithful digest read ps s) where
    pub pending_eq : pending_batches digest read size (ps ++ qs) s ≡ chunks size qs
    unfolding pending_batches
    pending_eq =
        ap (λ c. chunks size (select (λ (r : ParsedRow). ltb c r.logical_record) (ps ++ qs)))
          h.checkpoint
        ∙ ap (chunks size) (pending_rows 0 ps qs numbered)

    run_covered :
        (batches : List (List ParsedRow))
        → AreFilled digest read batches
        → Covers batches qs
        → Leaves digest read ps batches
            (run_batches digest read batches (next_batch s) (committed_seen s) s)
    run_covered batches filled (rest, e) =
        run_batches-Leaves digest read batches ps (next_batch s) (committed_seen s) s filled
          (front (last_record 0 ps) (flat batches) rest
            (subst (IsNumbered (last_record 0 ps)) e (IsNumbered-append 0 ps qs numbered)))
          (start-IsRunning ps s (front 0 ps qs numbered) h)

    Stopped-IsPrefix :
        (batches : List (List ParsedRow)) (t : Store)
        → Covers batches qs
        → Stopped digest read ps batches t
        → IsPrefix (ps ++ qs) t
    Stopped-IsPrefix batches t (rest, e) (done, more, e', good) = (
      ps ++ done,
      more ++ rest,
      ap (λ xs. ps ++ xs) (e ∙ ap (λ xs. xs ++ rest) e' ∙ append_assoc done more rest)
          ∙ sym (append_assoc ps done (more ++ rest)),
      good,
    )

    left-IsPrefix :
        (batches : List (List ParsedRow)) (a : Attempt)
        → Covers batches qs
        → Leaves digest read ps batches a
        → IsPrefix (ps ++ qs) (left a)
    left-IsPrefix batches (parsed t) (rest, e) good = (
      ps ++ flat batches,
      rest,
      ap (λ xs. ps ++ xs) e ∙ sym (append_assoc ps (flat batches) rest),
      good,
    )
    left-IsPrefix batches (no_records t) c good = Stopped-IsPrefix batches t c good
    left-IsPrefix batches (fragment_conflict t) c good = Stopped-IsPrefix batches t c good
    left-IsPrefix batches (row_failed t) c good = Stopped-IsPrefix batches t c good

  -- Whatever happened, the store is faithful to a first part of the rows.
  pub Run-IsPrefix :
      (rows : List ParsedRow) {t : Store} → IsNumbered 0 rows → Run rows t → IsPrefix rows t
  Run-IsPrefix rows numbered here = ([], rows, refl, empty-IsFaithful)
  Run-IsPrefix rows numbered (next {s = s} {t = t} before (attempt size k files e)) =
      let (ps, qs, same, h) = Run-IsPrefix rows numbered before in
      let batches = take k (chunks size qs) in
      let covers = take-Covers k (chunks size qs) qs (chunks-Covers size qs) in
      let numbered' = subst (IsNumbered 0) same numbered in
      let good =
        run_covered size ps qs s numbered' h batches
          (take-AreFilled digest read k (chunks size qs) (chunks-AreFilled digest read size qs))
          covers in
      let reached = left-IsPrefix size ps qs s numbered' h batches _ covers good in
      let shape : pending_batches digest read size rows s ≡ chunks size qs =
        subst (λ rs. pending_batches digest read size rs s ≡ chunks size qs) (sym same)
          (pending_eq size ps qs s numbered' h) in
      let after : List (List ParsedRow) → Store =
        λ bs. left (run_batches digest read (take k bs) (next_batch s) (committed_seen s) s) in
      subst (IsPrefix rows) (sym e) (
        IsPrefix-files rows (after (pending_batches digest read size rows s)) files (
          subst (λ bs. IsPrefix rows (after bs)) (sym shape)
            (subst (λ rs. IsPrefix rs (after (chunks size qs))) (sym same) reached)))

  -- An attempt that parses the rest of the rows makes the store faithful to all of them.
  ingest_rest :
      (size : ℕ) (ps qs : List ParsedRow) (s t : Store)
      → 1 ≤ size
      → IsNumbered 0 (ps ++ qs)
      → IsFaithful digest read ps s
      → ingest digest read size (ps ++ qs) s ≡ parsed t
      → IsFaithful digest read (ps ++ qs) t
  unfolding ingest
  ingest_rest size ps qs s t room numbered h e =
      rest_parsed (chunks size qs) refl
        (ap (λ bs. checked digest read bs s) (sym (pending_eq size ps qs s numbered h)) ∙ e)
    where
      all_rows : flat (chunks size qs) ≡ qs
      all_rows = chunks-flat size qs room

      to_parsed :
          (a : Attempt)
          → Leaves digest read ps (chunks size qs) a
          → a ≡ parsed t
          → IsFaithful digest read (ps ++ qs) t
      to_parsed (parsed u) good same =
          subst (IsFaithful digest read (ps ++ qs)) (ground (arith, same))
            (subst (λ rs. IsFaithful digest read (ps ++ rs) u) all_rows good)
      to_parsed (no_records u) good same = absurd (ground (arith, same))
      to_parsed (fragment_conflict u) good same = absurd (ground (arith, same))
      to_parsed (row_failed u) good same = absurd (ground (arith, same))

      nothing_left :
          (b : Bool)
          → qs ≡ []
          → (if b then no_records s else parsed s) ≡ parsed t
          → IsFaithful digest read (ps ++ qs) t
      nothing_left true none_left same = absurd (ground (arith, same))
      nothing_left false none_left same =
          subst (IsFaithful digest read (ps ++ qs)) (ground (arith, same)) (
            subst (λ rs. IsFaithful digest read rs s)
              (sym (append-nil ps) ∙ ap (λ xs. ps ++ xs) (sym none_left)) h)

      rest_parsed :
          (bs : List (List ParsedRow))
          → chunks size qs ≡ bs
          → checked digest read bs s ≡ parsed t
          → IsFaithful digest read (ps ++ qs) t
      rest_parsed [] shape same =
          nothing_left (s.checkpoint == 0) (sym all_rows ∙ ap flat shape) same
      rest_parsed (b ∷ bs) shape same =
          to_parsed (run_batches digest read (b ∷ bs) (next_batch s) (committed_seen s) s)
            (subst
              (λ cs.
                Leaves digest read ps (chunks size qs)
                  (run_batches digest read cs (next_batch s) (committed_seen s) s))
              shape
              (run_covered size ps qs s numbered h (chunks size qs)
                (chunks-AreFilled digest read size qs) (chunks-Covers size qs)))
            same

  -- The rows are numbered upwards from 1. However often attempts at them ended, behind any batch, with
  -- batches of any sizes and with files of unfinished batches, an attempt that then parses them to
  -- the end leaves receipts for the first acceptable row of each transaction and for no other, in
  -- the order of the rows, and counts each row once.
  pub ingest-IsFaithful :
      (rows : List ParsedRow) (size : ℕ) (s t : Store)
      → IsNumbered 0 rows
      → 1 ≤ size
      → Run rows s
      → ingest digest read size rows s ≡ parsed t
      → IsFaithful digest read rows t
  ingest-IsFaithful rows size s t numbered room before e =
      let (ps, qs, same, h) = Run-IsPrefix rows numbered before in
      subst (λ rs. IsFaithful digest read rs t) (sym same)
        (ingest_rest size ps qs s t room (subst (IsNumbered 0) same numbered) h
          (subst (λ rs. ingest digest read size rs s ≡ parsed t) same e))
