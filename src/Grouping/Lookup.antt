-- ===== src/Grouping/Lookup.antt =====
-- What the lookups of the index see: the eligible anchors of a group that is not full are its anchors.
use trace_x.Common.{
  ℕ, ◌<◌, ◌≡◌, ◌≢◌, refl, sym, ◌∙◌, ap, ◌⊎◌, inl, inr, Bool, true, false, ◌&&◌, ◌||◌, Option, none,
  some, List, [], ◌∷◌, arith, ◌==◌, ltb, select, exists_in, All, Any, All-mono, Bool-cases,
}
use trace_x.Common.Select.{not_exists_in}
use trace_x.Grouping.Model.{Group, Anchor, max_members}
use trace_x.Grouping.Reference.{
  Observed, anchored, fits, lower_id, first_fit, add_all, focal_fits, episode_of,
}
use trace_x.Grouping.Indexed.{other_group}

pub exists_in-add_all :
    {A : Type 0} (p : A → Bool) (xs rows : List A)
    → exists_in p (add_all xs rows) ≡ exists_in p xs || exists_in p rows
unfolding add_all exists_in
exists_in-add_all p [] rows = refl
exists_in-add_all p (x ∷ xs) rows = ground (arith, exists_in-add_all p xs (x ∷ rows))

pub All-add_all :
    {A : Type 0} (P : A → Type 0) (xs rows : List A)
    → All P xs
    → All P rows
    → All P (add_all xs rows)
unfolding add_all
All-add_all P [] rows h k = k
All-add_all P (x ∷ xs) rows h k = All-add_all P xs (x ∷ rows) h.1 (h.0, k)

-- A lookup by the group's anchors gives the same on both lists.
abbrev pub SameAt : (eligible anchors : List Anchor) → (group_id : ℕ) → Type 0
SameAt eligible anchors id =
    (tokens : List ℕ)
    → exists_in (anchored id tokens) eligible ≡ exists_in (anchored id tokens) anchors

pub SameAt-add_all :
    (added eligible anchors : List Anchor) (id : ℕ)
    → SameAt eligible anchors id
    → SameAt (add_all added eligible) (add_all added anchors) id
SameAt-add_all added eligible anchors id h tokens =
    exists_in-add_all (anchored id tokens) added eligible
    ∙ ap (λ b. exists_in (anchored id tokens) added || b) (h tokens)
    ∙ sym (exists_in-add_all (anchored id tokens) added anchors)

-- No anchor belongs to the group.
abbrev pub IsUnanchored : (group_id : ℕ) → List Anchor → Type 0
IsUnanchored id anchors = All (λ (a : Anchor). a.group_id ≢ id) anchors

unanchored-none :
    (id : ℕ) (tokens : List ℕ) (anchors : List Anchor)
    → IsUnanchored id anchors
    → exists_in (anchored id tokens) anchors ≡ false
unanchored-none id tokens anchors h =
    not_exists_in (anchored id tokens) anchors
      (All-mono anchors (λ (a : Anchor) (other : a.group_id ≢ id). ground (arith, other)) h)

pub SameAt-unanchored :
    (eligible anchors : List Anchor) (id : ℕ)
    → IsUnanchored id eligible
    → IsUnanchored id anchors
    → SameAt eligible anchors id
SameAt-unanchored eligible anchors id h k tokens =
    unanchored-none id tokens eligible h ∙ sym (unanchored-none id tokens anchors k)

exists_in-other_group :
    (full id : ℕ) (tokens : List ℕ) (anchors : List Anchor)
    → id ≢ full
    → exists_in (anchored id tokens) (select (other_group full) anchors)
      ≡ exists_in (anchored id tokens) anchors
unfolding exists_in select
exists_in-other_group full id tokens [] ne = refl
exists_in-other_group full id tokens (a ∷ rest) ne =
    let ih = exists_in-other_group full id tokens rest ne in
    elim (Bool-cases (other_group full a)) [
      | inl keep ↦ rw keep (ap (λ b. anchored id tokens a || b) ih)
      | inr drop ↦
          let not_mine : (a.group_id == id) ≡ false = ground (arith, drop, ne) in
          rw drop (ground (arith, not_mine, ih))
    ]

-- Deleting the anchors of one group changes no lookup for another.
pub SameAt-other_group :
    (full id : ℕ) (eligible anchors : List Anchor)
    → id ≢ full
    → SameAt eligible anchors id
    → SameAt (select (other_group full) eligible) anchors id
SameAt-other_group full id eligible anchors ne h tokens =
    exists_in-other_group full id tokens eligible ne ∙ h tokens

-- The groups that have room.
abbrev pub HasRoom : Group → Type 0
HasRoom g = g.member_count < max_members

abbrev pub IsServed : (eligible anchors : List Anchor) → Group → Type 0
IsServed eligible anchors g = HasRoom g → SameAt eligible anchors g.id

fits-same :
    (eligible anchors : List Anchor) (o : Observed) (g : Group)
    → IsServed eligible anchors g
    → fits eligible o g ≡ fits anchors o g
fits-same eligible anchors o g h = elim (Bool-cases (ltb g.member_count max_members)) [
  | inl room ↦
      let same = h (ground (arith, room)) o.anchors in
      ap
        (λ b.
          (g.family == o.family)
          && (g.episode_start == episode_of o.finding.window_start)
          && ltb g.member_count max_members
          && b
          && focal_fits o g)
        same
  | inr full ↦ ground (arith, full)
]

pub first_fit-same :
    (eligible anchors : List Anchor) (o : Observed) (gs : List Group)
    → All (IsServed eligible anchors) gs
    → first_fit eligible o gs ≡ first_fit anchors o gs
unfolding first_fit
first_fit-same eligible anchors o [] h = refl
first_fit-same eligible anchors o (g ∷ gs) h = λ i.
    lower_id (fits-same eligible anchors o g h.0 i) g (first_fit-same eligible anchors o gs h.1 i)

-- What is found is one of the groups, and it fits.
pub first_fit-held :
    (anchors : List Anchor) (o : Observed) (gs : List Group) {g : Group}
    → first_fit anchors o gs ≡ some g
    → Any (λ x. x ≡ g) gs × (fits anchors o g ≡ true)
unfolding first_fit
first_fit-held anchors o [] e = absurd (cc)
first_fit-held anchors o (x ∷ xs) {g} e =
    elim (picked (fits anchors o x) x (first_fit anchors o xs) refl e) [
      | inl (here, fit) ↦ (inl here, ap (fits anchors o) (sym here) ∙ fit)
      | inr later ↦ let (m, fit) = first_fit-held anchors o xs later in (inr m, fit)
    ]
  where
    picked :
        (b : Bool) (x : Group) (best : Option Group) {g : Group} {c : Bool}
        → c ≡ b
        → lower_id b x best ≡ some g
        → ((x ≡ g) × (c ≡ true)) ⊎ (best ≡ some g)
    picked false x best s e = inr e
    picked true x none s e = inl (cc, s)
    picked true x (some other) s e = elim (Bool-cases (ltb other.id x.id)) [
      | inl lower ↦ inr (rw lower at e)
      | inr higher ↦ inl (cc (rw higher at e), s)
    ]
