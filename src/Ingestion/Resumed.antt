-- ===== src/Ingestion/Resumed.antt =====
-- Attempts at an import that end anywhere, and the attempt that takes it to its end: ingest_source of
-- app/engine/ingestion/pipeline.py.
use trace_x.Common.{
  ℕ, zero, suc, ◌+◌, ◌-◌, ◌≤◌, ◌≡◌, ◌∙◌, refl, sym, ap, arith, true, false, List, [], ◌∷◌, ◌++◌,
  ltb, length, length-append, select, take,
}
use mathlib.Core.List.{append-nil, append_assoc}
use trace_x.Canonical.Model.{ParsedRow}
use trace_x.Ingestion.Model.{RowOutcome, chunks_from, chunks}
use trace_x.Ingestion.Store.{Content, last_record}
use trace_x.Ingestion.Loop.{IsNumbered, last_record-le, flat, AreFilled}

chunks_from-flat :
    (size room : ℕ) (batch rows : List ParsedRow)
    → flat (chunks_from size room batch rows) ≡ batch ++ rows
unfolding chunks_from
chunks_from-flat size zero [] [] = refl
chunks_from-flat size (suc room) [] [] = refl
chunks_from-flat size zero (b ∷ bs) [] = refl
chunks_from-flat size (suc room) (b ∷ bs) [] = refl
chunks_from-flat size zero batch (r ∷ rs) =
    ap (λ xs. batch ++ xs) (chunks_from-flat size (size - 1) (r ∷ []) rs)
chunks_from-flat size (suc room) batch (r ∷ rs) =
    chunks_from-flat size room (batch ++ r ∷ []) rs ∙ append_assoc batch (r ∷ []) rs

chunks_from-AreFilled :
    (digest : Content → ℕ) (read : ParsedRow → RowOutcome) (size room : ℕ)
    (batch rows : List ParsedRow)
    → 1 ≤ room + length batch
    → AreFilled digest read (chunks_from size room batch rows)
unfolding chunks_from
chunks_from-AreFilled digest read size zero [] [] h = tt
chunks_from-AreFilled digest read size (suc room) [] [] h = tt
chunks_from-AreFilled digest read size zero (b ∷ bs) [] h = (omega arith, tt)
chunks_from-AreFilled digest read size (suc room) (b ∷ bs) [] h = (omega arith, tt)
chunks_from-AreFilled digest read size zero batch (r ∷ rs) h =
    (omega (arith, h), chunks_from-AreFilled digest read size (size - 1) (r ∷ []) rs (omega arith))
chunks_from-AreFilled digest read size (suc room) batch (r ∷ rs) h =
    chunks_from-AreFilled digest read size room (batch ++ r ∷ []) rs
      (omega (arith, length-append {0} batch (r ∷ [])))

pub chunks-AreFilled :
    (digest : Content → ℕ) (read : ParsedRow → RowOutcome) (size : ℕ) (rows : List ParsedRow)
    → AreFilled digest read (chunks size rows)
unfolding chunks
chunks-AreFilled digest read zero rows = tt
chunks-AreFilled digest read (suc n) rows =
    chunks_from-AreFilled digest read (suc n) (suc n) [] rows (omega arith)

-- The batches cover a first part of the rows: all of them, if a batch has room.
pub chunks-flat : (size : ℕ) (rows : List ParsedRow) → 1 ≤ size → flat (chunks size rows) ≡ rows
unfolding chunks
chunks-flat zero rows h = absurd (omega (arith, h))
chunks-flat (suc n) rows h = chunks_from-flat (suc n) (suc n) [] rows

abbrev pub Covers : List (List ParsedRow) → List ParsedRow → Type 0
Covers batches rows = (rest : List ParsedRow) × (rows ≡ flat batches ++ rest)

pub chunks-Covers : (size : ℕ) (rows : List ParsedRow) → Covers (chunks size rows) rows
unfolding chunks
chunks-Covers zero rows = (rows, refl)
chunks-Covers (suc n) rows =
    ([], sym (append-nil (flat (chunks (suc n) rows)) ∙ chunks-flat (suc n) rows (omega arith)))

pub take-Covers :
    (k : ℕ) (batches : List (List ParsedRow)) (rows : List ParsedRow)
    → Covers batches rows
    → Covers (take k batches) rows
take-Covers k batches rows (rest, e) =
    let (more, e') = take_rest k batches in
    (more ++ rest, e ∙ ap (λ xs. xs ++ rest) e' ∙ append_assoc (flat (take k batches)) more rest)
  where
    take_rest :
        (k : ℕ) (bs : List (List ParsedRow))
        → (more : List ParsedRow) × (flat bs ≡ flat (take k bs) ++ more)
    take_rest zero bs = (flat bs, refl)
    take_rest (suc k) [] = ([], refl)
    take_rest (suc k) (b ∷ bs) =
        let (more, e) = take_rest k bs in
        (more, ap (λ xs. b ++ xs) e ∙ sym (append_assoc b (flat (take k bs)) more))

pub take-AreFilled :
    (digest : Content → ℕ) (read : ParsedRow → RowOutcome) (k : ℕ) (bs : List (List ParsedRow))
    → AreFilled digest read bs
    → AreFilled digest read (take k bs)
take-AreFilled digest read zero bs h = tt
take-AreFilled digest read (suc k) [] h = tt
take-AreFilled digest read (suc k) (b ∷ bs) h = (h.0, take-AreFilled digest read k bs h.1)

-- The rows behind the checkpoint are those that are not done.
behind :
    (n : ℕ) (rs : List ParsedRow)
    → IsNumbered n rs
    → (m : ℕ) → m ≤ n
    → select (λ (r : ParsedRow). ltb m r.logical_record) rs ≡ rs
unfolding select
behind n [] h m le = refl
behind n (r ∷ rs) h m le =
    let later : ltb m r.logical_record ≡ true = ground (arith, h.0) in
    rw later (ap (λ xs. r ∷ xs) (behind r.logical_record rs h.1 m (omega (arith, h.0))))

pub pending_rows :
    (n : ℕ) (ps qs : List ParsedRow)
    → IsNumbered n (ps ++ qs)
    → select (λ (r : ParsedRow). ltb (last_record n ps) r.logical_record) (ps ++ qs) ≡ qs
unfolding select last_record
pending_rows n [] qs h = behind n qs h n (omega arith)
pending_rows n (p ∷ ps) qs h =
    let reached = last_record-le p.logical_record ps (front p.logical_record ps qs h.1) in
    let done : ltb (last_record p.logical_record ps) p.logical_record ≡ false =
      ground (arith, reached) in
    rw done (pending_rows p.logical_record ps qs h.1)
  where
    front : (n : ℕ) (xs ys : List ParsedRow) → IsNumbered n (xs ++ ys) → IsNumbered n xs
    front n [] ys h = tt
    front n (x ∷ xs) ys h = (h.0, front x.logical_record xs ys h.1)
