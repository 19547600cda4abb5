-- ===== src/Canonical/Settled.antt =====
-- The keys that canonicalize of app/engine/canonical/profiles.py leaves, as it goes through a record.
use trace_x.Common.{
  ◌≡◌, refl, sym, subst, arith, inl, inr, ◌⊎◌, Bool, true, false, List, [], ◌∷◌, Option, none, some,
  exists_in, if◌then◌else◌, All, All-mono, Any, Bool-cases, Option-cases,
}
use trace_x.Common.Select.{exists_in-Any}
use trace_x.Canonical.Text.{Text, text_eq, text_eq-eq}
use trace_x.Canonical.Profiles.{Rename, is_among, canonical_name, unclaimed, choose, renames_from}
use trace_x.Canonical.Renamed.{is_canonical}

pub same_none : (b : Bool) → ◌≡◌ {A = Option Text} (if b then none else none) none
same_none true = refl
same_none false = refl

pub among-cons :
    (d c : Text) (cs : List Text) → is_among d (c ∷ cs) ≡ true → (d ≡ c) ⊎ (is_among d cs ≡ true)
unfolding is_among exists_in
among-cons d c cs h = elim (Bool-cases (text_eq d c)) [
  | inl same ↦ inl (text_eq-eq d c same)
  | inr other ↦ inr (ground (arith, h))
]

pub Any-mono :
    {P Q : Text → Type 0} (ks : List Text) → ((k : Text) → P k → Q k) → Any P ks → Any Q ks
Any-mono [] f m = m
Any-mono (k ∷ ks) f (inl h) = inl (f k h)
Any-mono (k ∷ ks) f (inr m) = inr (Any-mono ks f m)

pub among_Any : (k : Text) (ks : List Text) → is_among k ks ≡ true → Any (λ j. j ≡ k) ks
unfolding is_among
among_Any k ks h = Any-mono ks (λ j e. sym (text_eq-eq k j e)) (exists_in-Any (text_eq k) ks h)

module _ (lower : Text → Text) where
  -- A key that is not renamed, where the keys of `F` are claimed.
  abbrev pub Settled : (Text → Type 0) → Text → Type 0
  Settled F k =
      (is_canonical k ≡ true)
      ⊎ (canonical_name lower k ≡ none)
      ⊎ ((c : Text) × (canonical_name lower k ≡ some c) × F c)

  pub passed-Settled :
      (F : Text → Type 0) (claimed : List Text) (k : Text)
      → ((c : Text) → is_among c claimed ≡ true → F c)
      → choose lower claimed k ≡ none
      → Settled F k
  unfolding choose
  passed-Settled F claimed k h e = elim (Bool-cases (is_canonical k)) [
    | inl canonical ↦ inl canonical
    | inr foreign ↦ elim (Option-cases (canonical_name lower k)) [
      | inl unknown ↦ inr (inl unknown)
      | inr (c, named) ↦
          let e' : unclaimed claimed (canonical_name lower k) ≡ none = rw foreign at e in
          let e'' : unclaimed claimed (some c) ≡ none = rw named at e' in
          inr (inr (c, named, h c (ground (arith, e''))))
    ]
  ]

  pub choose-Settled :
      (claimed : List Text) (k : Text)
      → Settled (λ c. is_among c claimed ≡ true) k
      → choose lower claimed k ≡ none
  unfolding choose
  choose-Settled claimed k (inl canonical) = rw canonical refl
  choose-Settled claimed k (inr (inl unknown)) = rw unknown (same_none (is_canonical k))
  choose-Settled claimed k (inr (inr (c, named, taken))) =
      rw named (rw taken (same_none (is_canonical k)))

  pub renames_from-Settled :
      (claimed keys : List Text)
      → All (Settled (λ c. is_among c claimed ≡ true)) keys
      → renames_from lower claimed keys ≡ []
  unfolding renames_from
  renames_from-Settled claimed [] h = refl
  renames_from-Settled claimed (k ∷ ks) h =
      rw (choose-Settled claimed k h.0, renames_from) (renames_from-Settled claimed ks h.1)

  pub renames_from-passed :
      (claimed : List Text) (k : Text) (ks : List Text)
      → choose lower claimed k ≡ none
      → renames_from lower claimed (k ∷ ks) ≡ renames_from lower claimed ks
  unfolding renames_from
  renames_from-passed claimed k ks passed = rw (passed, renames_from) refl

  pub renames_from-chosen :
      (claimed : List Text) (k c : Text) (ks : List Text)
      → choose lower claimed k ≡ some c
      → renames_from lower claimed (k ∷ ks) ≡ (k, c) ∷ renames_from lower (c ∷ claimed) ks
  unfolding renames_from
  renames_from-chosen claimed k c ks chosen = rw (chosen, renames_from) refl

  module _ (F : Text → Type 0) where
    abbrev pub Accounted : List Rename → Text → Type 0
    Accounted rs k = Any (λ (r : Rename). r.0 ≡ k) rs ⊎ Settled F k

    abbrev Accounts : List Text → List Rename → Type 0
    Accounts keys rs = All (λ (r : Rename). F r.1) rs → All (Accounted rs) keys

    pub Accounted-cons :
        (r : Rename) (rs : List Rename) (k : Text) → Accounted rs k → Accounted (r ∷ rs) k
    Accounted-cons r rs k (inl m) = inl (inr m)
    Accounted-cons r rs k (inr s) = inr s

    pub claimed_too :
        (c : Text) (claimed : List Text)
        → F c
        → ((d : Text) → is_among d claimed ≡ true → F d)
        → (d : Text) → is_among d (c ∷ claimed) ≡ true
        → F d
    claimed_too c claimed fc h d e = elim (among-cons d c claimed e) [
      | inl same ↦ subst F (sym same) fc
      | inr m ↦ h d m
    ]

    -- Every key of the header is the source of a rename or settled.
    pub keys-Accounted :
        (claimed keys : List Text)
        → ((c : Text) → is_among c claimed ≡ true → F c)
        → Accounts keys (renames_from lower claimed keys)
    keys-Accounted claimed [] h = λ t. tt
    keys-Accounted claimed (k ∷ ks) h = elim (Option-cases (choose lower claimed k)) [
      | inl passed ↦
          subst (Accounts (k ∷ ks)) (sym (renames_from-passed claimed k ks passed))
            (λ t. (inr (passed-Settled F claimed k h passed), keys-Accounted claimed ks h t))
      | inr (c, chosen) ↦
          subst (Accounts (k ∷ ks)) (sym (renames_from-chosen claimed k c ks chosen)) (λ t. (
            inl (inl refl),
            All-mono ks (λ j s. Accounted-cons (k, c) (renames_from lower (c ∷ claimed) ks) j s)
                (keys-Accounted (c ∷ claimed) ks (claimed_too c claimed t.0 h) t.1),
          ))
    ]
