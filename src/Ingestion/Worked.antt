-- ===== src/Ingestion/Worked.antt =====
-- The loop over a batch in ingest_source of app/engine/ingestion/pipeline.py accepts what the
-- reference does.
use trace_x.Common.{
  ℕ, ◌+◌, ◌≡◌, ◌∙◌, refl, sym, ap, subst, arith, inl, inr, true, false, List, [], ◌∷◌, ◌++◌, map,
  Option, none, some, length, length-append, exists_in, Bool-cases, Option-cases,
}
use mathlib.Core.List.{append-nil, append_assoc, map-append}
use trace_x.Canonical.Text.{Text, text_eq}
use trace_x.Canonical.Model.{ParsedRow}
use trace_x.Canonical.Facts.{Facts}
use trace_x.Canonical.Profiles.{is_among}
use trace_x.Ingestion.Model.{
  RowOutcome, txid_of, Fault, Seen, find_seen, fault_of, Work, set_aside, keep_or_set_aside,
  work_row, work_rows,
}
use trace_x.Ingestion.Reference.{
  take_good, accepted_from, SameMembers, txids, is_among-append, accepted_from-same,
  accepted_from-append,
}

abbrev pub keys : Seen → List Text
keys seen = map (λ entry. entry.0) seen

found-among :
    (t : Text) (seen : Seen) (o : Option ℕ)
    → find_seen t seen ≡ some o
    → is_among t (keys seen) ≡ true
unfolding find_seen is_among exists_in
found-among t [] o e = absurd (ground arith)
found-among t ((u, v) ∷ seen) o e = elim (Bool-cases (text_eq t u)) [
  | inl same ↦ rw same refl
  | inr other ↦ rw other (found-among t seen o (rw other at e))
]

absent-among : (t : Text) (seen : Seen) → find_seen t seen ≡ none → is_among t (keys seen) ≡ false
unfolding find_seen is_among exists_in
absent-among t [] e = refl
absent-among t ((u, v) ∷ seen) e = elim (Bool-cases (text_eq t u)) [
  | inl same ↦ let e' : some v ≡ none = rw same at e in absurd (ground (arith, e'))
  | inr other ↦ rw other (absent-among t seen (rw other at e))
]

-- What the loop does with rows, from one state to another.
pub record IsWorked (read : ParsedRow → RowOutcome) (rows : List ParsedRow) (w w' : Work)
    : Type 0 where
  pub accepted : w'.accepted ≡ w.accepted ++ accepted_from read rows (keys w.seen)
  pub counted :
      length w'.accepted + length w'.quarantine
      ≡ length w.accepted + length w.quarantine + length rows
  pub seen :
      SameMembers (keys w'.seen) (txids (accepted_from read rows (keys w.seen)) ++ keys w.seen)

among_swap :
    (t : Text) (fs rs us ws : List Text)
    → is_among t us ≡ is_among t (fs ++ ws)
    → is_among t (rs ++ us) ≡ is_among t ((fs ++ rs) ++ ws)
among_swap t fs rs us ws h = ground (
  arith,
  h,
  is_among-append t rs us,
  is_among-append t fs ws,
  is_among-append t (fs ++ rs) ws,
  is_among-append t fs rs,
)

module _ (read : ParsedRow → RowOutcome) where
  set_aside_row :
      (row : ParsedRow) (reason : Fault) (w : Work)
      → accepted_from read (row ∷ []) (keys w.seen) ≡ []
      → IsWorked read (row ∷ []) w (set_aside row reason w)
  set_aside_row row reason w e = record {
    accepted = sym (append-nil w.accepted) ∙ ap (λ fs. w.accepted ++ fs) (sym e);
    counted =
        omega (arith, length-append {0} w.quarantine (record { row = row; reason = reason } ∷ []));
    seen = λ t. ap (λ fs. is_among t (txids fs ++ keys w.seen)) (sym e);
  }

  keep_row :
      (row : ParsedRow) (facts : Facts) (v : ℕ) (w : Work)
      → accepted_from read (row ∷ []) (keys w.seen) ≡ facts ∷ []
      → IsWorked read (row ∷ []) w (keep_or_set_aside row facts v none w)
  keep_row row facts v w e = record {
    accepted = ap (λ fs. w.accepted ++ fs) (sym e);
    counted = omega (arith, length-append {0} w.accepted (facts ∷ []));
    seen = λ t. ap (λ fs. is_among t (txids fs ++ keys w.seen)) (sym e);
  }

  accepted_one :
      (row : ParsedRow) (seen : List Text) (o : RowOutcome)
      → read row ≡ o
      → accepted_from read (row ∷ []) seen ≡ take_good read (accepted_from read []) seen o
  unfolding accepted_from
  accepted_one row seen o e = ap (take_good read (accepted_from read []) seen) e

  keep_of_seen :
      (row : ParsedRow) (facts : Facts) (v : ℕ) (w : Work)
      → read row ≡ RowOutcome.good facts v
      → IsWorked read
          (row ∷ [])
          w
          (keep_or_set_aside row facts v (find_seen (txid_of facts) w.seen) w)
  unfolding accepted_from
  keep_of_seen row facts v w e = elim (Option-cases (find_seen (txid_of facts) w.seen)) [
    | inl new ↦ rw new (
        keep_row row facts v w (
          accepted_one row (keys w.seen) (RowOutcome.good facts v) e
          ∙ rw (absent-among (txid_of facts) w.seen new) refl))
    | inr (o, old) ↦ rw old (
        set_aside_row row (fault_of o v) w (
          accepted_one row (keys w.seen) (RowOutcome.good facts v) e
          ∙ rw (found-among (txid_of facts) w.seen o old) refl))
  ]

  row-IsWorked :
      (row : ParsedRow) (w w' : Work) (o : RowOutcome)
      → read row ≡ o
      → work_row row o w ≡ some w'
      → IsWorked read (row ∷ []) w w'
  unfolding work_row accepted_from
  row-IsWorked row w w' (RowOutcome.error r) e h =
      subst (IsWorked read (row ∷ []) w) (ground (arith, h)) (
        set_aside_row row (Fault.invalid r) w
          (accepted_one row (keys w.seen) (RowOutcome.error r) e))
  row-IsWorked row w w' (RowOutcome.good facts v) e h =
      subst (IsWorked read (row ∷ []) w) (some_lem h) (keep_of_seen row facts v w e)
    where
      some_lem : {a b : Work} → some a ≡ some b → a ≡ b
      some_lem p = cc
  row-IsWorked row w w' RowOutcome.broken e h = absurd (ground (arith, h))

  IsWorked-cons :
      (row : ParsedRow) (rows : List ParsedRow) (w u w' : Work)
      → IsWorked read (row ∷ []) w u
      → IsWorked read rows u w'
      → IsWorked read (row ∷ rows) w w'
  IsWorked-cons row rows w u w' a b =
      let first = accepted_from read (row ∷ []) (keys w.seen) in
      let rest = accepted_from read rows (keys u.seen) in
      let joined : accepted_from read (row ∷ rows) (keys w.seen) ≡ first ++ rest =
        accepted_from-append read (row ∷ []) rows (keys w.seen)
        ∙ ap (λ fs. first ++ fs)
            (accepted_from-same read rows _ (keys u.seen) (λ t. sym (a.seen t))) in
      record {
        accepted =
            b.accepted
            ∙ ap (λ fs. fs ++ rest) a.accepted
            ∙ append_assoc w.accepted first rest
            ∙ ap (λ fs. w.accepted ++ fs) (sym joined);
        counted = omega (arith, a.counted, b.counted);
        seen = λ t.
            b.seen t
            ∙ among_swap t (txids first) (txids rest) (keys u.seen) (keys w.seen) (a.seen t)
            ∙ ap (λ ts. is_among t (ts ++ keys w.seen)) (sym (map-append txid_of first rest))
            ∙ ap (λ fs. is_among t (txids fs ++ keys w.seen)) (sym joined);
      }

  nothing-IsWorked : (w : Work) → IsWorked read [] w w
  unfolding accepted_from
  nothing-IsWorked w = record {
    accepted = sym (append-nil w.accepted);
    counted = omega arith;
    seen = λ t. refl;
  }

  -- A batch that the loop takes to its end accepts what the reference does.
  pub work_rows-IsWorked :
      (rows : List ParsedRow) (w w' : Work)
      → work_rows read rows w ≡ some w'
      → IsWorked read rows w w'
  unfolding work_rows
  work_rows-IsWorked [] w w' h = subst (IsWorked read [] w) (ground (arith, h)) (nothing-IsWorked w)
  work_rows-IsWorked (row ∷ rows) w w' h = elim (Option-cases (work_row row (read row) w)) [
    | inl stopped ↦
        let e : none ≡ some w' = rw (stopped, work_rows) at h in absurd (ground (arith, e))
    | inr (u, stepped) ↦
        IsWorked-cons row rows w u w' (row-IsWorked row w u (read row) refl stepped)
          (work_rows-IsWorked rows u w' (rw (stepped, work_rows) at h))
  ]
