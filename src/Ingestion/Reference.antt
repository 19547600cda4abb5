-- ===== src/Ingestion/Reference.antt =====
-- The accepted records as a function of the rows alone: the first acceptable row of each transaction.
use trace_x.Common.{
  ◌≡◌, ◌∙◌, refl, ap, arith, inl, inr, ◌||◌, List, [], ◌∷◌, ◌++◌, map, if◌then◌else◌, exists_in,
  Bool-cases,
}
use trace_x.Canonical.Text.{Text}
use trace_x.Canonical.Model.{ParsedRow}
use trace_x.Canonical.Facts.{Facts}
use trace_x.Canonical.Profiles.{is_among}
use trace_x.Ingestion.Model.{RowOutcome, txid_of}

module _ (read : ParsedRow → RowOutcome) where
  abbrev pub take_good : (List Text → List Facts) → List Text → RowOutcome → List Facts
  take_good rest seen (RowOutcome.error r) = rest seen
  take_good rest seen RowOutcome.broken = rest seen
  take_good rest seen (RowOutcome.good facts v) =
      if is_among (txid_of facts) seen then rest seen else facts ∷ rest (txid_of facts ∷ seen)

  unfoldable pub accepted_from : List ParsedRow → List Text → List Facts
  unfolding is_among
  accepted_from [] seen = []
  accepted_from (row ∷ rows) seen = take_good (accepted_from rows) seen (read row)

  abbrev pub IsReadable : ParsedRow → Type 0
  IsReadable row = read row ≡ RowOutcome.broken → ⊥

pub is_among-append :
    (t : Text) (xs ys : List Text) → is_among t (xs ++ ys) ≡ (is_among t xs || is_among t ys)
unfolding is_among exists_in
is_among-append t [] ys = refl
is_among-append t (x ∷ xs) ys = ground (arith, is_among-append t xs ys)

-- Two lists have the same members.
abbrev pub SameMembers : List Text → List Text → Type 0
SameMembers xs ys = (t : Text) → is_among t xs ≡ is_among t ys

SameMembers-cons :
    (x : Text) (xs ys : List Text) → SameMembers xs ys → SameMembers (x ∷ xs) (x ∷ ys)
unfolding is_among exists_in
SameMembers-cons x xs ys h t = ground (arith, h t)

-- The head of a list may stand behind another part.
pub among_middle :
    (t x : Text) (xs ys : List Text) → is_among t (xs ++ x ∷ ys) ≡ is_among t (x ∷ xs ++ ys)
unfolding is_among exists_in
among_middle t x xs ys = ground (arith, is_among-append t xs (x ∷ ys), is_among-append t xs ys)

abbrev pub txids : List Facts → List Text
txids fs = map txid_of fs

module _ (read : ParsedRow → RowOutcome) where
  take_good_same :
      (o : RowOutcome) (rest : List Text → List Facts) (xs ys : List Text)
      → SameMembers xs ys
      → rest xs ≡ rest ys
      → ((x : Text) → rest (x ∷ xs) ≡ rest (x ∷ ys))
      → take_good read rest xs o ≡ take_good read rest ys o
  take_good_same (RowOutcome.error r) rest xs ys h e f = e
  take_good_same RowOutcome.broken rest xs ys h e f = e
  take_good_same (RowOutcome.good facts v) rest xs ys h e f =
      ground (arith, h (txid_of facts), e, f (txid_of facts))

  -- Only the members of the ids seen matter.
  pub accepted_from-same :
      (rows : List ParsedRow) (xs ys : List Text)
      → SameMembers xs ys
      → accepted_from read rows xs ≡ accepted_from read rows ys
  unfolding accepted_from
  accepted_from-same [] xs ys h = refl
  accepted_from-same (row ∷ rows) xs ys h =
      take_good_same (read row) (accepted_from read rows) xs ys h (accepted_from-same rows xs ys h)
        (λ x. accepted_from-same rows (x ∷ xs) (x ∷ ys) (SameMembers-cons x xs ys h))

  abbrev Appends : List ParsedRow → List ParsedRow → List Text → Type 0
  Appends rows later seen =
      accepted_from read (rows ++ later) seen
      ≡ accepted_from read rows seen
        ++ accepted_from read later (txids (accepted_from read rows seen) ++ seen)

  -- The rest of a list continues with the ids of what was accepted.
  pub accepted_from-append :
      (rows later : List ParsedRow) (seen : List Text) → Appends rows later seen
  unfolding accepted_from
  accepted_from-append [] later seen = refl
  accepted_from-append (row ∷ rows) later seen =
      take_good_append (read row) (accepted_from-append rows later)
    where
      take_good_append :
          (o : RowOutcome)
          → ((s : List Text) → Appends rows later s)
          → take_good read (accepted_from read (rows ++ later)) seen o
            ≡ take_good read (accepted_from read rows) seen o
              ++ accepted_from read later
                  (txids (take_good read (accepted_from read rows) seen o) ++ seen)
      take_good_append (RowOutcome.error r) ih = ih seen
      take_good_append RowOutcome.broken ih = ih seen
      take_good_append (RowOutcome.good facts v) ih =
          elim (Bool-cases (is_among (txid_of facts) seen)) [
            | inl old ↦ rw old (ih seen)
            | inr new ↦ rw new (
                ap (λ fs. facts ∷ fs)
                  (ih (txid_of facts ∷ seen)
                    ∙ ap (λ fs. accepted_from read rows (txid_of facts ∷ seen) ++ fs)
                        (accepted_from-same later _ _ (λ t.
                          among_middle t (txid_of facts)
                            (txids (accepted_from read rows (txid_of facts ∷ seen))) seen))))
          ]
