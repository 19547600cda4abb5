-- ===== src/Canonical/Claims.antt =====
-- What mapping_for of app/engine/canonical/profiles.py chooses, and what canonicalize does with it.
use trace_x.Common.{
  ◌≡◌, ◌≢◌, ◌∙◌, refl, sym, ap, subst, arith, inl, inr, Bool, true, false, not, List, [], ◌∷◌, none,
  some, exists_in, All, All-mono, Bool-cases, Option-cases,
}
use trace_x.Common.Select.{exists_in-false}
use trace_x.Canonical.Text.{Text, text_eq, text_eq_refl}
use trace_x.Canonical.Names.{canonical_keys, lookup_table}
use trace_x.Canonical.Model.{Dict, lookup}
use trace_x.Canonical.Profiles.{
  Rename, is_among, find_alias, canonical_name, normal, unclaimed, choose, renames_from,
}
use trace_x.Canonical.Renaming.{Present, Apart, Applies}

-- The keys of a list are different.
abbrev pub DistinctTexts : List Text → Type 0
DistinctTexts [] = Unit
DistinctTexts (k ∷ ks) = All (λ j. k ≢ j) ks × DistinctTexts ks

abbrev is_foreign : Text × Text → Bool
is_foreign row = not (is_among row.1 canonical_keys)

table_checked : exists_in is_foreign lookup_table ≡ false
unfolding exists_in is_among lookup_table
table_checked = refl

not-false : (a : Bool) → not a ≡ false → a ≡ true
not-false a h = ground arith

none_foreign :
    (table : List (Text × Text))
    → exists_in is_foreign table ≡ false
    → All (λ (row : Text × Text). is_among row.1 canonical_keys ≡ true) table
none_foreign table h =
    All-mono {P = λ row. is_foreign row ≡ false} table (λ row e. not-false _ e)
      (exists_in-false is_foreign table h)

table_canonical : All (λ (row : Text × Text). is_among row.1 canonical_keys ≡ true) lookup_table
table_canonical = none_foreign lookup_table table_checked

find_alias-holds :
    (P : Text → Type 0) (k c : Text) (table : List (Text × Text))
    → All (λ (row : Text × Text). P row.1) table
    → find_alias k table ≡ some c
    → P c
unfolding find_alias
find_alias-holds P k c [] h e = absurd (ground arith)
find_alias-holds P k c ((alias, canonical) ∷ rest) h e = elim (Bool-cases (text_eq alias k)) [
  | inl same ↦
      let found : some canonical ≡ some c = rw same at e in subst P (ground (arith, found)) h.0
  | inr other ↦ find_alias-holds P k c rest h.1 (rw other at e)
]

among_ne : (k j : Text) (ks : List Text) → is_among k (j ∷ ks) ≡ false → j ≢ k
unfolding is_among exists_in
among_ne k j ks h e =
    let unlike : text_eq k j ≡ false = ground (arith, h) in
    cc (text_eq_refl k, ap (text_eq k) e, unlike)

among_tail : (k j : Text) (ks : List Text) → is_among k (j ∷ ks) ≡ false → is_among k ks ≡ false
unfolding is_among exists_in
among_tail k j ks h = ground (arith, h)

among_apart : (k j : Text) (ks : List Text) → is_among k ks ≡ true → is_among j ks ≡ false → j ≢ k
among_apart k j ks hk hj e = cc (ap (λ t. is_among t ks) e)

module _ (lower : Text → Text) where
  pub canonical_name-canonical :
      (k c : Text) → canonical_name lower k ≡ some c → is_among c canonical_keys ≡ true
  unfolding canonical_name
  canonical_name-canonical k c e =
      find_alias-holds (λ t. is_among t canonical_keys ≡ true) (normal lower k) c lookup_table
        table_canonical e

  -- What a rename of the loop is.
  pub record Chosen (claimed : List Text) (r : Rename) : Type 0 where
    pub named : canonical_name lower r.0 ≡ some r.1
    pub fresh : is_among r.1 claimed ≡ false
    pub foreign : is_among r.0 canonical_keys ≡ false

  choose-Chosen :
      (claimed : List Text) (k c : Text) → choose lower claimed k ≡ some c → Chosen claimed (k, c)
  unfolding choose
  choose-Chosen claimed k c e = elim (Bool-cases (is_among k canonical_keys)) [
    | inl canonical ↦ let no_way : none ≡ some c = rw canonical at e in absurd (ground arith)
    | inr foreign ↦
        let e' : unclaimed claimed (canonical_name lower k) ≡ some c = rw foreign at e in
        elim (Option-cases (canonical_name lower k)) [
          | inl unknown ↦ let no_way : none ≡ some c = rw unknown at e' in absurd (ground arith)
          | inr (d, named) ↦
              let e'' : unclaimed claimed (some d) ≡ some c = rw named at e' in
              let same : d ≡ c = ground (arith, e'') in
              record {
                named = named ∙ ap some same;
                fresh = subst (λ t. is_among t claimed ≡ false) same (ground (arith, e''));
                foreign = foreign;
              }
        ]
  ]

  Chosen-tail :
      (c : Text) (claimed : List Text) (rs : List Rename)
      → All (Chosen (c ∷ claimed)) rs
      → All (Chosen claimed) rs
  Chosen-tail c claimed rs h =
      All-mono rs
        (λ r (a : Chosen (c ∷ claimed) r). record {
          named = a.named;
          fresh = among_tail r.1 c claimed a.fresh;
          foreign = a.foreign;
        })
        h

  pub renames_from-Chosen :
      (claimed keys : List Text) → All (Chosen claimed) (renames_from lower claimed keys)
  unfolding renames_from
  renames_from-Chosen claimed [] = tt
  renames_from-Chosen claimed (k ∷ ks) = elim (Option-cases (choose lower claimed k)) [
    | inl passed ↦ rw (passed, renames_from) (renames_from-Chosen claimed ks)
    | inr (c, chosen) ↦
        rw (chosen, renames_from)
          (
            choose-Chosen claimed k c chosen,
            Chosen-tail c claimed (renames_from lower (c ∷ claimed) ks)
                (renames_from-Chosen (c ∷ claimed) ks),
          )
  ]

  -- The sources are keys of the header.
  pub renames_from-sources :
      (P : Text → Type 0) (claimed keys : List Text)
      → All P keys
      → All (λ (r : Rename). P r.0) (renames_from lower claimed keys)
  unfolding renames_from
  renames_from-sources P claimed [] h = tt
  renames_from-sources P claimed (k ∷ ks) h = elim (Option-cases (choose lower claimed k)) [
    | inl passed ↦ rw (passed, renames_from) (renames_from-sources P claimed ks h.1)
    | inr (c, chosen) ↦ rw (chosen, renames_from) (h.0, renames_from-sources P (c ∷ claimed) ks h.1)
  ]

  module _ (m : Dict) where
    -- Every canonical key of the record is claimed.
    abbrev pub Claims : List Text → Type 0
    Claims claimed =
        (k : Text) → is_among k canonical_keys ≡ true → Present k m → is_among k claimed ≡ true

    Claims-cons : (c : Text) (claimed : List Text) → Claims claimed → Claims (c ∷ claimed)
    unfolding is_among exists_in
    Claims-cons c claimed h k canonical p = ground (arith, h k canonical p)

    target_absent :
        (claimed : List Text) (r : Rename) → Claims claimed → Chosen claimed r → lookup r.1 m ≡ none
    target_absent claimed r h a = elim (Option-cases (lookup r.1 m)) [
      | inl absent ↦ absent
      | inr p ↦ cc (h r.1 (canonical_name-canonical r.0 r.1 a.named) p, a.fresh)
    ]

    Chosen-Apart :
        (claimed : List Text) (k c : Text) (rs : List Rename)
        → Chosen claimed (k, c)
        → All (Chosen (c ∷ claimed)) rs
        → All (λ (r : Rename). k ≢ r.0) rs
        → All (Apart (k, c)) rs
    Chosen-Apart claimed k c [] a h ne = tt
    Chosen-Apart claimed k c (r ∷ rs) a h ne = (
      record {
        source_source = ne.0;
        source_target =
            among_apart r.1 k canonical_keys (canonical_name-canonical r.0 r.1 h.0.named) a.foreign;
        target_source = λ e.
            among_apart c r.0 canonical_keys (canonical_name-canonical k c a.named) h.0.foreign
              (sym e);
        target_target = among_ne r.1 c claimed h.0.fresh;
      },
      Chosen-Apart claimed k c rs a h.1 ne.1,
    )

    pub renames_from-Applies :
        (claimed keys : List Text)
        → Claims claimed
        → DistinctTexts keys
        → All (λ k. Present k m) keys
        → Applies m (renames_from lower claimed keys)
    unfolding renames_from
    renames_from-Applies claimed [] h d p = tt
    renames_from-Applies claimed (k ∷ ks) h d p = elim (Option-cases (choose lower claimed k)) [
      | inl passed ↦ rw (passed, renames_from) (renames_from-Applies claimed ks h d.1 p.1)
      | inr (c, chosen) ↦
          let a = choose-Chosen claimed k c chosen in
          rw (chosen, renames_from)
            (
              among_apart c k canonical_keys (canonical_name-canonical k c a.named) a.foreign,
              p.0,
              target_absent claimed (k, c) h a,
              Chosen-Apart claimed k c (renames_from lower (c ∷ claimed) ks) a
                  (renames_from-Chosen (c ∷ claimed) ks)
                  (renames_from-sources (λ j. k ≢ j) (c ∷ claimed) ks d.0),
              renames_from-Applies (c ∷ claimed) ks (Claims-cons c claimed h) d.1 p.1,
            )
    ]
