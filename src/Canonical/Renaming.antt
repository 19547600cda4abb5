-- ===== src/Canonical/Renaming.antt =====
-- Dictionaries under the renames of app/engine/canonical/profiles.py.
use trace_x.Common.{
  ◌≡◌, ◌≢◌, ◌∙◌, refl, sym, ap, subst, arith, inl, inr, false, List, [], ◌∷◌, none, some,
  if◌then◌else◌, All, All-mono, Bool-cases,
}
use trace_x.Canonical.Text.{Text, text_eq, text_eq-eq, text_eq_refl, text_eq_ne}
use trace_x.Canonical.Model.{Value, Dict, lookup}
use trace_x.Canonical.Profiles.{Rename, drop_key, put, rename, rename_all}

-- A dictionary holds a key once.
abbrev pub DistinctKeys : Dict → Type 0
DistinctKeys [] = Unit
DistinctKeys ((k, v) ∷ rest) = (lookup k rest ≡ none) × DistinctKeys rest

pub lookup-put_self : (k : Text) (v : Value) (m : Dict) → lookup k (put k v m) ≡ some v
unfolding lookup put
lookup-put_self k v [] = rw (text_eq_refl k)
lookup-put_self k v ((j, w) ∷ m) = elim (Bool-cases (text_eq j k)) [
  | inl same ↦ rw same (rw same refl)
  | inr other ↦ rw other (rw other (lookup-put_self k v m))
]

pub lookup-put_ne : (j k : Text) (v : Value) (m : Dict) → k ≢ j → lookup j (put k v m) ≡ lookup j m
unfolding lookup put
lookup-put_ne j k v [] ne = rw (text_eq_ne k j ne)
lookup-put_ne j k v ((i, w) ∷ m) ne = elim (Bool-cases (text_eq i k)) [
  | inl same ↦
      let e = text_eq-eq i k same in
      let other : text_eq i j ≡ false = text_eq_ne i j (λ f. ne (sym e ∙ f)) in
      rw same (rw other refl)
  | inr other ↦ rw other (ap (λ r. if text_eq i j then some w else r) (lookup-put_ne j k v m ne))
]

pub lookup-drop_key_ne : (j k : Text) (m : Dict) → k ≢ j → lookup j (drop_key k m) ≡ lookup j m
unfolding lookup drop_key
lookup-drop_key_ne j k [] ne = refl
lookup-drop_key_ne j k ((i, w) ∷ m) ne = elim (Bool-cases (text_eq i k)) [
  | inl same ↦
      let e = text_eq-eq i k same in
      let other : text_eq i j ≡ false = text_eq_ne i j (λ f. ne (sym e ∙ f)) in
      rw same (rw other refl)
  | inr other ↦ rw other (ap (λ r. if text_eq i j then some w else r) (lookup-drop_key_ne j k m ne))
]

pub lookup-drop_key_self : (k : Text) (m : Dict) → DistinctKeys m → lookup k (drop_key k m) ≡ none
unfolding lookup drop_key
lookup-drop_key_self k [] d = refl
lookup-drop_key_self k ((i, w) ∷ m) d = elim (Bool-cases (text_eq i k)) [
  | inl same ↦ rw same (subst (λ t. lookup t m ≡ none) (text_eq-eq i k same) d.0)
  | inr other ↦ rw other (rw other (lookup-drop_key_self k m d.1))
]

absent_dropped : (j k : Text) (m : Dict) → lookup j m ≡ none → lookup j (drop_key k m) ≡ none
unfolding lookup drop_key
absent_dropped j k [] absent = refl
absent_dropped j k ((i, w) ∷ m) absent = elim (Bool-cases (text_eq i j)) [
  | inl same ↦ let e : some w ≡ none = rw same at absent in absurd (ground arith)
  | inr other ↦
      let rest : lookup j m ≡ none = rw other at absent in
      elim (Bool-cases (text_eq i k)) [
        | inl gone ↦ rw gone rest
        | inr kept ↦ rw kept (rw other (absent_dropped j k m rest))
      ]
]

DistinctKeys-drop_key : (k : Text) (m : Dict) → DistinctKeys m → DistinctKeys (drop_key k m)
unfolding drop_key
DistinctKeys-drop_key k [] d = d
DistinctKeys-drop_key k ((i, w) ∷ m) d = elim (Bool-cases (text_eq i k)) [
  | inl same ↦ rw same d.1
  | inr other ↦ rw other (absent_dropped i k m d.0, DistinctKeys-drop_key k m d.1)
]

DistinctKeys-put : (k : Text) (v : Value) (m : Dict) → DistinctKeys m → DistinctKeys (put k v m)
unfolding lookup put
DistinctKeys-put k v [] d = (refl, d)
DistinctKeys-put k v ((i, w) ∷ m) d = elim (Bool-cases (text_eq i k)) [
  | inl same ↦ rw same d
  | inr other ↦
      let ne : k ≢ i = λ e. cc (sym other ∙ ap (text_eq i) e ∙ text_eq_refl i) in
      rw other (lookup-put_ne i k v m ne ∙ d.0, DistinctKeys-put k v m d.1)
]

-- One rename of a key that is there, to one that is not.
module _ (source canonical : Text) (v : Value) (m : Dict) (there : lookup source m ≡ some v)
    (ne : source ≢ canonical) where
  renamed_lem : rename (source, canonical) m ≡ put canonical v (drop_key source m)
  unfolding rename
  renamed_lem = rw there refl

  target_there : lookup canonical (rename (source, canonical) m) ≡ some v
  target_there = rw renamed_lem (lookup-put_self canonical v (drop_key source m))

  source_dropped : DistinctKeys m → lookup source (rename (source, canonical) m) ≡ none
  source_dropped d = rw renamed_lem (
      lookup-put_ne source canonical v (drop_key source m) (λ e. ne (sym e))
      ∙ lookup-drop_key_self source m d)

  lookup-rename_ne :
      (j : Text) → source ≢ j → canonical ≢ j → lookup j (rename (source, canonical) m) ≡ lookup j m
  lookup-rename_ne j ns nc =
      rw renamed_lem
        (lookup-put_ne j canonical v (drop_key source m) nc ∙ lookup-drop_key_ne j source m ns)

  rename-DistinctKeys : DistinctKeys m → DistinctKeys (rename (source, canonical) m)
  rename-DistinctKeys d =
      rw renamed_lem
        (DistinctKeys-put canonical v (drop_key source m) (DistinctKeys-drop_key source m d))

abbrev pub Present : Text → Dict → Type 0
Present k m = (v : Value) × (lookup k m ≡ some v)

-- The keys of the rename `q` are apart from those of `r`.
pub record Apart (r q : Rename) : Type 0 where
  pub source_source : r.0 ≢ q.0
  pub source_target : r.0 ≢ q.1
  pub target_source : r.1 ≢ q.0
  pub target_target : r.1 ≢ q.1

-- The renames apply to the dictionary one by one: sources are there, targets are not, no key occurs
-- twice.
abbrev pub Applies : Dict → List Rename → Type 0
Applies m [] = Unit
Applies m (r ∷ rs) =
    (r.0 ≢ r.1) × Present r.0 m × (lookup r.1 m ≡ none) × All (Apart r) rs × Applies m rs

pub Applies-rename :
    (r : Rename) (rs : List Rename) (m : Dict)
    → (r.0 ≢ r.1)
    → Present r.0 m
    → All (Apart r) rs
    → Applies m rs
    → Applies (rename r m) rs
Applies-rename r [] m ne p apart h = tt
Applies-rename r (q ∷ qs) m ne p apart h =
    let first = apart.0 in
    (
      h.0,
      (
        h.1.0,
        lookup-rename_ne r.0 r.1 p.0 m p.1 ne q.0 first.source_source first.target_source ∙ h.1.1,
      ),
      lookup-rename_ne r.0 r.1 p.0 m p.1 ne q.1 first.source_target first.target_target ∙ h.2,
      h.3,
      Applies-rename r qs m ne p apart.1 h.4,
    )

-- A key that no rename mentions holds what it held.
pub rename_all-other :
    (rs : List Rename) (m : Dict) (j : Text)
    → All (λ (r : Rename). (r.0 ≢ j) × (r.1 ≢ j)) rs
    → Applies m rs
    → lookup j (rename_all rs m) ≡ lookup j m
unfolding rename_all
rename_all-other [] m j h a = refl
rename_all-other (r ∷ rs) m j h a =
    rename_all-other rs (rename r m) j h.1 (Applies-rename r rs m a.0 a.1 a.3 a.4)
    ∙ lookup-rename_ne r.0 r.1 a.1.0 m a.1.1 a.0 j h.0.0 h.0.1

-- A target holds what its source held, and the source is gone.
abbrev pub Moved : Dict → Dict → Rename → Type 0
Moved m out r = (lookup r.1 out ≡ lookup r.0 m) × (lookup r.0 out ≡ none)

Apart-target :
    (r : Rename) (rs : List Rename)
    → All (Apart r) rs
    → All (λ (q : Rename). (q.0 ≢ r.1) × (q.1 ≢ r.1)) rs
Apart-target r rs h =
    All-mono rs (λ q a. (λ e. a.target_source (sym e), λ e. a.target_target (sym e))) h

Apart-source :
    (r : Rename) (rs : List Rename)
    → All (Apart r) rs
    → All (λ (q : Rename). (q.0 ≢ r.0) × (q.1 ≢ r.0)) rs
Apart-source r rs h =
    All-mono rs (λ q a. (λ e. a.source_source (sym e), λ e. a.source_target (sym e))) h

Moved-rename :
    (r : Rename) (m out : Dict) (rs : List Rename) (ne : r.0 ≢ r.1) (p : Present r.0 m)
    → All (Apart r) rs
    → All (Moved (rename r m) out) rs
    → All (Moved m out) rs
Moved-rename r m out [] ne p a h = tt
Moved-rename r m out (q ∷ qs) ne p a h = (
  (h.0.0 ∙ lookup-rename_ne r.0 r.1 p.0 m p.1 ne q.0 a.0.source_source a.0.target_source, h.0.1),
  Moved-rename r m out qs ne p a.1 h.1,
)

pub rename_all-Moved :
    (rs : List Rename) (m : Dict)
    → DistinctKeys m
    → Applies m rs
    → All (Moved m (rename_all rs m)) rs
unfolding rename_all
rename_all-Moved [] m d a = tt
rename_all-Moved (r ∷ rs) m d a =
    let next = Applies-rename r rs m a.0 a.1 a.3 a.4 in
    let d' = rename-DistinctKeys r.0 r.1 a.1.0 m a.1.1 a.0 d in
    (
      (
        rename_all-other rs (rename r m) r.1 (Apart-target r rs a.3) next
            ∙ target_there r.0 r.1 a.1.0 m a.1.1 a.0
            ∙ sym a.1.1,
        rename_all-other rs (rename r m) r.0 (Apart-source r rs a.3) next
            ∙ source_dropped r.0 r.1 a.1.0 m a.1.1 a.0 d,
      ),
      Moved-rename r m (rename_all rs (rename r m)) rs a.0 a.1 a.3
          (rename_all-Moved rs (rename r m) d' next),
    )

pub rename_all-DistinctKeys :
    (rs : List Rename) (m : Dict) → DistinctKeys m → Applies m rs → DistinctKeys (rename_all rs m)
unfolding rename_all
rename_all-DistinctKeys [] m d a = d
rename_all-DistinctKeys (r ∷ rs) m d a =
    rename_all-DistinctKeys rs (rename r m) (rename-DistinctKeys r.0 r.1 a.1.0 m a.1.1 a.0 d)
      (Applies-rename r rs m a.0 a.1 a.3 a.4)
