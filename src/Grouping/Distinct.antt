-- ===== src/Grouping/Distinct.antt =====
-- Inserting subjects one by one, known ones ignored, adds those that are not there, once each.
use trace_x.Common.{
  ℕ, ◌+◌, ◌<◌, ◌≡◌, refl, sym, ◌∙◌, ap, inl, inr, Bool, true, false, not, List, [], ◌∷◌, ◌++◌, map,
  arith, if◌then◌else◌, select, exists_in, length, All, Bool-cases,
}
use trace_x.Grouping.Model.{Kind, Subject, GroupSubject}
use trace_x.Grouping.Reference.{
  Observed, same_subject, has_subject, subjects_of, is_kind, subject_row, is_new, add_subjects,
  add_all,
}
use trace_x.Grouping.Indexed.{insert_subjects}
use trace_x.Grouping.Sets.{IsAscending}

-- No subject comes twice.
abbrev pub IsDistinct : List Subject → Type 0
IsDistinct [] = Unit
IsDistinct (s ∷ ss) = All (λ t. same_subject s t ≡ false) ss × IsDistinct ss

module _ (group_id : ℕ) where
  select-new :
      (s : Subject) (rows : List GroupSubject) (ss : List Subject)
      → All (λ t. same_subject s t ≡ false) ss
      → select (is_new group_id (subject_row group_id s ∷ rows)) ss
        ≡ select (is_new group_id rows) ss
  unfolding select exists_in
  select-new s rows [] d = refl
  select-new s rows (t ∷ ts) d =
      let ih = select-new s rows ts d.1 in
      let same : is_new group_id (subject_row group_id s ∷ rows) t ≡ is_new group_id rows t =
        ground (arith, d.0) in
      elim (Bool-cases (is_new group_id rows t)) [
        | inl new ↦ rw (same ∙ new) (rw new (ap (λ r. t ∷ r) ih))
        | inr old ↦ rw (same ∙ old) (rw old ih)
      ]

  length-select :
      (p : Subject → Bool) (s : Subject) (ss : List Subject)
      → length (select p (s ∷ ss)) ≡ (if p s then 1 else 0) + length (select p ss)
  unfolding select
  length-select p s ss = elim (Bool-cases (p s)) [
    | inl is_p ↦ rw is_p (omega arith)
    | inr not_p ↦ rw not_p (omega arith)
  ]

  abbrev counted : List Subject → List GroupSubject → ℕ × ℕ × List GroupSubject
  counted fresh rows = (
    length (select (is_kind Kind.of_transaction) fresh),
    length (select (is_kind Kind.of_entity) fresh),
    add_all (map (subject_row group_id) fresh) rows,
  )

  abbrev one_more : Subject → ℕ × ℕ × List GroupSubject → ℕ × ℕ × List GroupSubject
  one_more s (txs, entities, rows) = (
    (if is_kind Kind.of_transaction s then 1 else 0) + txs,
    (if is_kind Kind.of_entity s then 1 else 0) + entities,
    rows,
  )

  counted-cons :
      (s : Subject) (fresh : List Subject) (rows : List GroupSubject)
      → counted (s ∷ fresh) rows ≡ one_more s (counted fresh (subject_row group_id s ∷ rows))
  unfolding add_all
  counted-cons s fresh rows = λ i. (
    length-select (is_kind Kind.of_transaction) s fresh i,
    length-select (is_kind Kind.of_entity) s fresh i,
    add_all (map (subject_row group_id) fresh) (subject_row group_id s ∷ rows),
  )

  select_skip :
      (p : Subject → Bool) (s : Subject) (ss : List Subject)
      → p s ≡ false
      → select p (s ∷ ss) ≡ select p ss
  unfolding select
  select_skip p s ss e = rw e refl

  select_keep :
      (p : Subject → Bool) (s : Subject) (ss : List Subject)
      → p s ≡ true
      → select p (s ∷ ss) ≡ s ∷ select p ss
  unfolding select
  select_keep p s ss e = rw e refl

  insert_old :
      (s : Subject) (ss : List Subject) (rows : List GroupSubject)
      → has_subject group_id rows s ≡ true
      → insert_subjects group_id (s ∷ ss) rows ≡ insert_subjects group_id ss rows
  unfolding insert_subjects
  insert_old s ss rows e = rw e refl

  insert_new :
      (s : Subject) (ss : List Subject) (rows : List GroupSubject)
      → has_subject group_id rows s ≡ false
      → insert_subjects group_id (s ∷ ss) rows
        ≡ one_more s (insert_subjects group_id ss (subject_row group_id s ∷ rows))
  unfolding insert_subjects
  insert_new s ss rows e = rw e refl

  insert_subjects_nil :
      (rows : List GroupSubject) → insert_subjects group_id [] rows ≡ add_subjects group_id [] rows
  unfolding insert_subjects select add_all
  insert_subjects_nil rows = refl

  pub insert_subjects-eq :
      (ss : List Subject) (rows : List GroupSubject)
      → IsDistinct ss
      → insert_subjects group_id ss rows ≡ add_subjects group_id ss rows
  insert_subjects-eq [] rows d = insert_subjects_nil rows
  insert_subjects-eq (s ∷ ss) rows d = elim (Bool-cases (has_subject group_id rows s)) [
    | inl old ↦
        insert_old s ss rows old
        ∙ insert_subjects-eq ss rows d.1
        ∙ ap (λ fresh. counted fresh rows)
            (sym (select_skip (is_new group_id rows) s ss (ap not old)))
    | inr new ↦
        let rows' = subject_row group_id s ∷ rows in
        insert_new s ss rows new
        ∙ ap (one_more s) (insert_subjects-eq ss rows' d.1)
        ∙ ap (λ fresh. one_more s (counted fresh rows')) (select-new s rows ss d.0)
        ∙ sym (counted-cons s (select (is_new group_id rows) ss) rows)
        ∙ ap (λ fresh. counted fresh rows)
            (sym (select_keep (is_new group_id rows) s ss (ap not new)))
  ]

of_kind-IsDistinct :
    (k : Kind) (xs : List ℕ)
    → IsAscending xs
    → IsDistinct (map (λ r. record { kind = k; ref = r }) xs)
of_kind-IsDistinct k [] a = tt
of_kind-IsDistinct k (x ∷ xs) a = (differs xs a.0, of_kind-IsDistinct k xs a.1)
  where
    differs :
        (ys : List ℕ)
        → All (λ y. x < y) ys
        → All
            (λ t. same_subject (record { kind = k; ref = x }) t ≡ false)
            (map (λ r. record { kind = k; ref = r }) ys)
    differs [] h = tt
    differs (y ∷ ys) h = (ground (arith, h.0), differs ys h.1)

entity-not-tx :
    (e : ℕ) (txs : List ℕ)
    → All
        (λ t. same_subject (record { kind = Kind.of_entity; ref = e }) t ≡ false)
        (map (λ r. record { kind = Kind.of_transaction; ref = r }) txs)
entity-not-tx e [] = tt
entity-not-tx e (t ∷ ts) = (refl, entity-not-tx e ts)

All-append : (P : Subject → Type 0) (xs ys : List Subject) → All P xs → All P ys → All P (xs ++ ys)
All-append P [] ys h k = k
All-append P (x ∷ xs) ys h k = (h.0, All-append P xs ys h.1 k)

append-IsDistinct :
    (entities txs : List ℕ)
    → IsDistinct (map (λ r. record { kind = Kind.of_entity; ref = r }) entities)
    → IsDistinct (map (λ r. record { kind = Kind.of_transaction; ref = r }) txs)
    → IsDistinct (
        map (λ r. record { kind = Kind.of_entity; ref = r }) entities
        ++ map (λ r. record { kind = Kind.of_transaction; ref = r }) txs)
append-IsDistinct [] txs h k = k
append-IsDistinct (e ∷ es) txs h k = (
  All-append (λ t. same_subject (record { kind = Kind.of_entity; ref = e }) t ≡ false)
      (map (λ r. record { kind = Kind.of_entity; ref = r }) es)
      (map (λ r. record { kind = Kind.of_transaction; ref = r }) txs) h.0 (entity-not-tx e txs),
  append-IsDistinct es txs h.1 k,
)

-- The subjects of a finding, whose texts are sets, come once each.
pub subjects_of-IsDistinct :
    (o : Observed) → IsAscending o.entities → IsAscending o.txs → IsDistinct (subjects_of o)
subjects_of-IsDistinct o a b =
    append-IsDistinct o.entities o.txs (of_kind-IsDistinct Kind.of_entity o.entities a)
      (of_kind-IsDistinct Kind.of_transaction o.txs b)
