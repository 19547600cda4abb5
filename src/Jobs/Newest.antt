-- ===== src/Jobs/Newest.antt =====
-- The view of a job's stages rests on the newest attempt of each stage.
use trace_x.Common.{
  ℕ, ◌≤◌, ◌≡◌, refl, ap, ◌∙◌, subst, inl, inr, Bool, true, false, List, [], ◌∷◌, Option, none, some,
  arith, ◌==◌, if◌then◌else◌, find_first, select, All, Any, All-mono, All-Any, Bool-cases,
  Option-cases, ==_iff,
}
use mathlib.Core.List.{foldl}
use trace_x.Jobs.Model.{Stage, AnalysisStage}
use trace_x.Jobs.Analysis.{
  row_le, insert_row, sort_rows, same_stage, put_latest, has_name, stage_rank,
}

-- Later rows have no earlier attempt.
abbrev pub ByAttempt : List AnalysisStage → Type 0
ByAttempt [] = Unit
ByAttempt (x ∷ xs) = All (λ row. x.attempt ≤ row.attempt) xs × ByAttempt xs

row_le-attempt : (a b : AnalysisStage) → row_le a b ≡ true → a.attempt ≤ b.attempt
row_le-attempt a b h = ground arith

not_row_le-attempt : (a b : AnalysisStage) → row_le a b ≡ false → b.attempt ≤ a.attempt
not_row_le-attempt a b h = ground arith

All-insert_row {ℓ} :
    (P : AnalysisStage → Type ℓ) (x : AnalysisStage) (rows : List AnalysisStage)
    → P x
    → All P rows
    → All P (insert_row x rows)
unfolding insert_row
All-insert_row P x [] p h = (p, tt)
All-insert_row P x (y ∷ ys) p h = elim (Bool-cases (row_le x y)) [
  | inl e ↦ rw e (p, h)
  | inr e ↦ rw e (h.0, All-insert_row P x ys p h.1)
]

All-of-insert_row {ℓ} :
    (P : AnalysisStage → Type ℓ) (x : AnalysisStage) (rows : List AnalysisStage)
    → All P (insert_row x rows)
    → P x × All P rows
unfolding insert_row
All-of-insert_row P x [] h = h
All-of-insert_row P x (y ∷ ys) h = elim (Bool-cases (row_le x y)) [
  | inl e ↦ rw e at h
  | inr e ↦
      let h' : P y × All P (insert_row x ys) = rw e at h in
      let (p, rest) = All-of-insert_row P x ys h'.1 in (p, (h'.0, rest))
]

ByAttempt-insert_row :
    (x : AnalysisStage) (rows : List AnalysisStage) → ByAttempt rows → ByAttempt (insert_row x rows)
unfolding insert_row
ByAttempt-insert_row x [] h = (tt, tt)
ByAttempt-insert_row x (y ∷ ys) h = elim (Bool-cases (row_le x y)) [
  | inl e ↦ rw e (
    (
      row_le-attempt x y e,
      All-mono ys (λ z (le : y.attempt ≤ z.attempt). omega (arith, row_le-attempt x y e)) h.0,
    ),
    h,
  )
  | inr e ↦ rw e (
    All-insert_row (λ z. y.attempt ≤ z.attempt) x ys (not_row_le-attempt x y e) h.0,
    ByAttempt-insert_row x ys h.1,
  )
]

pub ByAttempt-sort_rows : (rows : List AnalysisStage) → ByAttempt (sort_rows rows)
unfolding sort_rows
ByAttempt-sort_rows [] = tt
ByAttempt-sort_rows (x ∷ xs) = ByAttempt-insert_row x (sort_rows xs) (ByAttempt-sort_rows xs)

pub All-of-sort_rows {ℓ} :
    (P : AnalysisStage → Type ℓ) (rows : List AnalysisStage) → All P (sort_rows rows) → All P rows
unfolding sort_rows
All-of-sort_rows P [] h = tt
All-of-sort_rows P (x ∷ xs) h =
    let (p, rest) = All-of-insert_row P x (sort_rows xs) h in (p, All-of-sort_rows P xs rest)

pub All-sort_rows {ℓ} :
    (P : AnalysisStage → Type ℓ) (rows : List AnalysisStage) → All P rows → All P (sort_rows rows)
unfolding sort_rows
All-sort_rows P [] h = tt
All-sort_rows P (x ∷ xs) h = All-insert_row P x (sort_rows xs) h.0 (All-sort_rows P xs h.1)

pub All-of-select {ℓ} :
    (P : AnalysisStage → Type ℓ) (p : AnalysisStage → Bool) (rows : List AnalysisStage)
    → All P (select p rows)
    → All (λ row. p row ≡ true → P row) rows
unfolding select
All-of-select P p [] h = tt
All-of-select P p (x ∷ xs) h = elim (Bool-cases (p x)) [
  | inl e ↦ let h' : P x × All P (select p xs) = rw e at h in (λ _. h'.0, All-of-select P p xs h'.1)
  | inr e ↦ (λ yes. cc, All-of-select P p xs (rw e at h))
]

pub All-select :
    (p : AnalysisStage → Bool) (rows : List AnalysisStage)
    → All (λ row. p row ≡ true) (select p rows)
unfolding select
All-select p [] = tt
All-select p (x ∷ xs) = elim (Bool-cases (p x)) [
  | inl e ↦ rw e (e, All-select p xs)
  | inr e ↦ rw e (All-select p xs)
]

-- The last row of a name.
abbrev pub or_else : Option AnalysisStage → Option AnalysisStage → Option AnalysisStage
or_else none o = o
or_else (some r) o = some r

pub last_named : Stage → List AnalysisStage → Option AnalysisStage
last_named name [] = none
last_named name (x ∷ xs) = or_else (last_named name xs) (if has_name name x then some x else none)

same_stage-left : (a b c : Stage) → same_stage a b ≡ true → same_stage a c ≡ same_stage b c
unfolding same_stage
same_stage-left a b c h = ap (λ (k : ℕ). k == stage_rank c) ((==_iff _ _).0 h)

same_stage_comm : (a b : Stage) → same_stage a b ≡ same_stage b a
unfolding same_stage
same_stage_comm a b = go (stage_rank a) (stage_rank b)
  where
    go : (m n : ℕ) → (m == n) ≡ (n == m)
    go m n = ground arith

-- Two names cannot both be the name of one row.
swap_tests :
    (name : Stage) (r row : AnalysisStage) (rs : List AnalysisStage)
    → same_stage r.name row.name ≡ false
    → (if has_name name r
        then some r
        else (if has_name name row then some row else find_first (has_name name) rs))
      ≡ (if has_name name row
          then some row
          else (if has_name name r then some r else find_first (has_name name) rs))
swap_tests name r row rs other = elim (Bool-cases (has_name name r)) [
  | inl e ↦ ground (arith, same_stage-left r.name name row.name e, same_stage_comm row.name name)
  | inr e ↦ rw e
]

named-put_latest :
    (name : Stage) (acc : List AnalysisStage) (row : AnalysisStage)
    → find_first (has_name name) (put_latest acc row)
      ≡ (if has_name name row then some row else find_first (has_name name) acc)
unfolding put_latest find_first
named-put_latest name [] row = refl
named-put_latest name (r ∷ rs) row = elim (Bool-cases (same_stage r.name row.name)) [
  | inl e ↦ ground (arith, same_stage-left r.name row.name name e)
  | inr e ↦ rw (e, named-put_latest name rs row) (swap_tests name r row rs e)
]

pub named-latest :
    (name : Stage) (rows acc : List AnalysisStage)
    → find_first (has_name name) (foldl put_latest acc rows)
      ≡ or_else (last_named name rows) (find_first (has_name name) acc)
unfolding last_named
named-latest name [] acc = refl
named-latest name (x ∷ xs) acc =
    rw (named-latest name xs (put_latest acc x), named-put_latest name acc x) (ground arith)

taken :
    (b : Bool) (x : AnalysisStage) {row : AnalysisStage}
    → (if b then some x else none) ≡ some row
    → (b ≡ true) × (x ≡ row)
taken b x e = ground arith

none_named :
    (name : Stage) (rows : List AnalysisStage) (n : ℕ)
    → last_named name rows ≡ none
    → All (λ r. has_name name r ≡ true → r.attempt ≤ n) rows
unfolding last_named
none_named name [] n e = tt
none_named name (x ∷ xs) n e = elim (Option-cases (last_named name xs)) [
  | inl none_left ↦ (λ yes. cc (rw (none_left, yes) at e), none_named name xs _ none_left)
  | inr (later, is_later) ↦ cc (rw is_later at e)
]

-- Of rows by attempt the last one of a name is one of them, and no row of the name is newer.
pub last_named_newest :
    (name : Stage) (rows : List AnalysisStage) {row : AnalysisStage}
    → ByAttempt rows
    → last_named name rows ≡ some row
    → Any (λ r. r ≡ row) rows
      × (has_name name row ≡ true)
      × All (λ r. has_name name r ≡ true → r.attempt ≤ row.attempt) rows
unfolding last_named
last_named_newest name [] h e = cc
last_named_newest name (x ∷ xs) {row} h e = elim (Option-cases (last_named name xs)) [
  | inl none_left ↦
      let (here, is_x) = taken (has_name name x) x (rw none_left at e) in
      (
        inl is_x,
        subst (λ r. has_name name r ≡ true) is_x here,
        (λ _. rw is_x (omega arith), none_named name xs _ none_left),
      )
  | inr (later, is_later) ↦
      let last : last_named name xs ≡ some row = is_later ∙ (rw is_later at e) in
      let (held, named, newest) = last_named_newest name xs h.1 last in
      (inr held, named, (λ _. All-Any (λ r. x.attempt ≤ r.attempt) xs h.0 held, newest))
]
