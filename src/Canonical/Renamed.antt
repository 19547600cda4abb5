-- ===== src/Canonical/Renamed.antt =====
-- What canonicalize of app/engine/canonical/profiles.py makes of a record.
use trace_x.Common.{
  ◌≡◌, ◌≢◌, refl, sym, ap, subst, arith, inl, inr, ◌⊎◌, Bool, true, List, [], ◌∷◌, none, some,
  select, exists_in, All, All-mono, Any, Bool-cases,
}
use trace_x.Common.Select.{Any-select}
use trace_x.Canonical.Text.{Text, text_eq, text_eq-eq, text_eq_refl}
use trace_x.Canonical.Names.{canonical_keys}
use trace_x.Canonical.Model.{Value, Dict, lookup}
use trace_x.Canonical.Profiles.{Rename, is_among, keys_of}
use trace_x.Canonical.Renaming.{DistinctKeys, Present}
use trace_x.Canonical.Claims.{DistinctTexts, Claims}

keys_absent : (k : Text) (m : Dict) → lookup k m ≡ none → All (λ j. k ≢ j) (keys_of m)
unfolding lookup
keys_absent k [] h = tt
keys_absent k ((j, v) ∷ m) h = elim (Bool-cases (text_eq j k)) [
  | inl same ↦ let no_way : some v ≡ none = rw same at h in absurd (ground arith)
  | inr other ↦
      (λ e. cc (text_eq_refl k, ap (λ t. text_eq t k) e, other), keys_absent k m (rw other at h))
]

pub keys-DistinctTexts : (m : Dict) → DistinctKeys m → DistinctTexts (keys_of m)
keys-DistinctTexts [] d = tt
keys-DistinctTexts ((k, v) ∷ m) d = (keys_absent k m d.0, keys-DistinctTexts m d.1)

Present-cons : (k j : Text) (v : Value) (m : Dict) → Present j m → Present j ((k, v) ∷ m)
unfolding lookup
Present-cons k j v m (w, found) = elim (Bool-cases (text_eq k j)) [
  | inl same ↦ (v, rw same refl)
  | inr other ↦ (w, rw other found)
]

pub keys-Present : (m : Dict) → All (λ k. Present k m) (keys_of m)
unfolding lookup
keys-Present [] = tt
keys-Present ((k, v) ∷ m) = (
  (v, rw (text_eq_refl k) refl),
  All-mono (keys_of m) (λ j p. Present-cons k j v m p) (keys-Present m),
)

pub Present-key : (k : Text) (m : Dict) → Present k m → Any (λ j. j ≡ k) (keys_of m)
unfolding lookup
Present-key k [] (v, found) = absurd (ground arith)
Present-key k ((j, w) ∷ m) (v, found) = elim (Bool-cases (text_eq j k)) [
  | inl same ↦ inl (text_eq-eq j k same)
  | inr other ↦ inr (Present-key k m (v, rw other at found))
]

pub Any-among : (k : Text) (ks : List Text) → Any (λ j. j ≡ k) ks → is_among k ks ≡ true
unfolding is_among exists_in
Any-among k [] m = absurd m
Any-among k (j ∷ ks) (inl e) = rw e (rw (text_eq_refl k) refl)
Any-among k (j ∷ ks) (inr m) = ground (arith, Any-among k ks m)

abbrev pub is_canonical : Text → Bool
is_canonical k = is_among k canonical_keys

-- The canonical keys that `mapping_for` starts with are those of the record.
pub start-Claims :
    (lower : Text → Text) (m : Dict) → Claims lower m (select is_canonical (keys_of m))
start-Claims lower m k canonical p = Any-among k (select is_canonical (keys_of m)) (
    Any-select is_canonical (λ j. j ≡ k) (keys_of m)
      (λ j e. subst (λ t. is_canonical t ≡ true) (sym e) canonical) (Present-key k m p))

-- Where a key stands among the renames.
pub place :
    (j : Text) (rs : List Rename)
    → Any (λ r. r.0 ≡ j) rs ⊎ Any (λ r. r.1 ≡ j) rs ⊎ All (λ (r : Rename). (r.0 ≢ j) × (r.1 ≢ j)) rs
place j [] = inr (inr tt)
place j (r ∷ rs) = elim (Bool-cases (text_eq r.0 j)) [
  | inl source ↦ inl (inl (text_eq-eq r.0 j source))
  | inr not_source ↦ elim (Bool-cases (text_eq r.1 j)) [
    | inl target ↦ inr (inl (inl (text_eq-eq r.1 j target)))
    | inr not_target ↦ elim (place j rs) [
      | inl m ↦ inl (inr m)
      | inr (inl m) ↦ inr (inl (inr m))
      | inr (inr h) ↦ inr (
          inr (
            (
              λ e. cc (text_eq_refl j, ap (λ t. text_eq t j) e, not_source),
              λ e. cc (text_eq_refl j, ap (λ t. text_eq t j) e, not_target),
            ),
            h,
          ))
    ]
  ]
]
