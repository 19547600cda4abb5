-- ===== src/Ingestion/Fresh.antt =====
-- An import that nothing interrupts ends: ingest_source of app/engine/ingestion/pipeline.py.
use trace_x.Common.{
  ℕ, ◌+◌, ◌≤◌, ◌≡◌, ◌≢◌, ◌∙◌, refl, sym, ap, subst, arith, inl, inr, Bool, true, false, List, [],
  ◌∷◌, ◌++◌, none, some, ◌==◌, length, select, exists_in, find_first, All, All-mono, Bool-cases,
}
use mathlib.Core.List.{append-nil, append_assoc}
use trace_x.Canonical.Model.{ParsedRow}
use trace_x.Ingestion.Model.{RowOutcome, Seen, Work, work_row, work_rows, chunks}
use trace_x.Ingestion.Reference.{IsReadable}
use trace_x.Ingestion.Store.{
  Content, record_count, Fragment, same_place, contents, fragments, Store, empty, parsed, published,
  publish, committed, fresh_work, after_publish, run_batches, next_batch, committed_seen, checked,
  ingest,
}
use trace_x.Ingestion.Receipts.{
  Free, Free-tail, Free-head, DistinctTypes, contents-DistinctTypes, Below, Below-Free, Below-batch,
  All-append, same_batch,
}
use trace_x.Ingestion.Loop.{IsNumbered, flat}
use trace_x.Ingestion.Resumed.{chunks-flat}
use trace_x.Ingestion.Loop.{IsFaithful}
use trace_x.Ingestion.Faithful.{Run, empty-IsFaithful, pending_eq, ingest-IsFaithful}

find_first-none :
    {A : Type 0} (p : A → Bool) (xs : List A) → exists_in p xs ≡ false → find_first p xs ≡ none
unfolding find_first exists_in
find_first-none p [] h = refl
find_first-none p (x ∷ xs) h = elim (Bool-cases (p x)) [
  | inl found ↦ let e : true ≡ false = rw found at h in cc
  | inr other ↦ rw other (find_first-none p xs (rw other at h))
]

module _ (digest : Content → ℕ) where
  -- Nothing stands where a new batch goes, so it is published.
  publish-fragments :
      (n : ℕ) (cs : List Content) (files : List Fragment)
      → DistinctTypes cs
      → Free n cs files
      → publish digest (fragments n cs) files ≡ published (files ++ fragments n cs)
  unfolding publish fragments select
  publish-fragments n [] files d h = ap published (sym (append-nil files))
  publish-fragments n (c ∷ cs) files d h = elim (Bool-cases (record_count c == 0)) [
    | inl nothing ↦ rw nothing (publish-fragments n cs files d.1 (Free-tail n c cs files h))
    | inr filled ↦
        let f : Fragment = record { logical_batch = n; content = c } in
        rw filled (
          rw (find_first-none (same_place f) files (Free-head n c cs files h)) (
            publish-fragments n cs (files ++ f ∷ []) d.1 (
              All-append _ files (f ∷ []) (Free-tail n c cs files h)
                (All-mono cs (λ e k. same_batch n c e k) d.0, tt))
            ∙ ap published (append_assoc files (f ∷ []) (fragments n cs))))
  ]

  module _ (read : ParsedRow → RowOutcome) where
    row_total :
        (row : ParsedRow) (w : Work) (o : RowOutcome)
        → o ≢ RowOutcome.broken
        → (w' : Work) × (work_row row o w ≡ some w')
    unfolding work_row
    row_total row w (RowOutcome.error r) fine = (_, refl)
    row_total row w (RowOutcome.good facts v) fine = (_, refl)
    row_total row w RowOutcome.broken fine = absurd (fine refl)

    work_rows_total :
        (rows : List ParsedRow) (w : Work)
        → All (IsReadable read) rows
        → (w' : Work) × (work_rows read rows w ≡ some w')
    unfolding work_rows
    work_rows_total [] w fine = (w, refl)
    work_rows_total (row ∷ rows) w fine =
        let (u, e) = row_total row w (read row) fine.0 in
        let (w', e') = work_rows_total rows u fine.1 in (w', rw (e, work_rows) e')

    abbrev AreReadable : List (List ParsedRow) → Type 0
    AreReadable [] = Unit
    AreReadable (b ∷ bs) = All (IsReadable read) b × AreReadable bs

    run_batches_total :
        (batches : List (List ParsedRow)) (n : ℕ) (seen : Seen) (s : Store)
        → AreReadable batches
        → Below n s.files
        → (t : Store) × (run_batches digest read batches n seen s ≡ parsed t)
    unfolding run_batches
    run_batches_total [] n seen s fine below = (s, refl)
    run_batches_total (batch ∷ batches) n seen s fine below =
        let (w, worked) = work_rows_total batch (fresh_work digest read seen) fine.0 in
        let files = s.files ++ fragments n (contents w) in
        let done =
          publish-fragments n (contents w) s.files (contents-DistinctTypes w)
            (Below-Free n (contents w) s.files below) in
        let (t, e) =
          run_batches_total batches (n + 1) w.seen (committed digest n batch w files s) fine.1
            (Below-batch n w s.files below) in
        (
          t,
          rw (worked, run_batches)
              (ap (λ p. after_publish digest read p n batch w s (run_batches digest read batches))
                  done
                ∙ e),
        )

    AreReadable-flat :
        (bs : List (List ParsedRow)) → All (IsReadable read) (flat bs) → AreReadable bs
    AreReadable-flat [] h = tt
    AreReadable-flat (b ∷ bs) h =
        (All-front b (flat bs) h, AreReadable-flat bs (All-back b (flat bs) h))
      where
        All-front :
            (xs ys : List ParsedRow) → All (IsReadable read) (xs ++ ys) → All (IsReadable read) xs
        All-front [] ys h = tt
        All-front (x ∷ xs) ys h = (h.0, All-front xs ys h.1)

        All-back :
            (xs ys : List ParsedRow) → All (IsReadable read) (xs ++ ys) → All (IsReadable read) ys
        All-back [] ys h = h
        All-back (x ∷ xs) ys h = All-back xs ys h.1

    checked_total :
        (bs : List (List ParsedRow))
        → 1 ≤ length (flat bs)
        → AreReadable bs
        → (t : Store) × (checked digest read bs empty ≡ parsed t)
    checked_total [] some_row fine = absurd (omega (arith, some_row))
    checked_total (b ∷ bs) some_row fine =
        run_batches_total (b ∷ bs) (next_batch empty) (committed_seen empty) empty fine tt

    -- The first attempt at rows that are numbered upwards from 1, of which there is one and which all
    -- normalise or are refused, parses them to the end and is faithful to them, with batches of any size.
    pub ingest_fresh :
        (rows : List ParsedRow) (size : ℕ)
        → IsNumbered 0 rows
        → 1 ≤ size
        → 1 ≤ length rows
        → All (IsReadable read) rows
        → (t : Store) × (ingest digest read size rows empty ≡ parsed t)
          × IsFaithful digest read rows t
    unfolding ingest
    ingest_fresh rows size numbered room some_row fine =
        let shape =
          pending_eq digest read size [] rows empty numbered (empty-IsFaithful digest read) in
        let all_rows = chunks-flat size rows room in
        let (t, e) =
          checked_total (chunks size rows) (subst (λ rs. 1 ≤ length rs) (sym all_rows) some_row) (
            AreReadable-flat (chunks size rows)
              (subst (All (IsReadable read)) (sym all_rows) fine)) in
        let e' = ap (λ bs. checked digest read bs empty) shape ∙ e in
        (t, e', ingest-IsFaithful digest read rows size empty t numbered room Run.here e')
