-- ===== src/Canonical/Stable.antt =====
-- canonicalize of app/engine/canonical/profiles.py: what it renames and what it keeps.
use trace_x.Common.{
  ◌≡◌, ◌≢◌, ◌∙◌, refl, sym, ap, arith, inl, inr, ◌⊎◌, true, false, not, List, [], ◌∷◌, none, some,
  select, exists_in, All, All-mono, Bool-cases,
}
use trace_x.Canonical.Text.{Text}
use trace_x.Canonical.Names.{canonical_keys}
use trace_x.Canonical.Model.{Value, Dict, lookup}
use trace_x.Canonical.Profiles.{
  Rename, is_among, canonical_name, renames_from, mapping_for, keys_of, rename_all, renamed,
  canonicalize,
}
use trace_x.Canonical.Renaming.{
  DistinctKeys, Applies, Moved, rename_all-other, rename_all-Moved, rename_all-DistinctKeys,
}
use trace_x.Canonical.Claims.{Chosen, renames_from-Chosen, renames_from-Applies}
use trace_x.Canonical.Renamed.{is_canonical, start-Claims, keys-DistinctTexts, keys-Present}

module _ (lower : Text → Text) where
  -- The renames of a record apply to it.
  pub mapping_for-Applies :
      (raw : Dict) → DistinctKeys raw → Applies raw (mapping_for lower (keys_of raw))
  unfolding mapping_for
  mapping_for-Applies raw d =
      renames_from-Applies lower raw (select is_canonical (keys_of raw)) (keys_of raw)
        (start-Claims lower raw) (keys-DistinctTexts raw d) (keys-Present raw)

  pub canonicalize-eq :
      (raw : Dict)
      → (canonicalize lower raw ≡ (raw, []))
        ⊎ (canonicalize lower raw
            ≡ (rename_all (mapping_for lower (keys_of raw)) raw, mapping_for lower (keys_of raw)))
  unfolding canonicalize rename_all
  canonicalize-eq raw =
      elim (Bool-cases (exists_in (λ k. not (is_among k canonical_keys)) (keys_of raw))) [
        | inl foreign ↦ rw foreign (of_renames (mapping_for lower (keys_of raw)))
        | inr all_canonical ↦ rw all_canonical (inl refl)
      ]
    where
      of_renames :
          (rs : List Rename)
          → (renamed raw rs ≡ (raw, [])) ⊎ (renamed raw rs ≡ (rename_all rs raw, rs))
      of_renames [] = inl refl
      of_renames (r ∷ rs) = inr refl

  -- What a rename of a record is.
  pub record IsRenamed (raw out : Dict) (rs : List Rename) : Type 0 where
    pub named :
        All (λ (r : Rename). (canonical_name lower r.0 ≡ some r.1) × (is_canonical r.0 ≡ false)) rs
    pub moved : All (Moved raw out) rs
    pub kept :
        (j : Text) → All (λ (r : Rename). (r.0 ≢ j) × (r.1 ≢ j)) rs → lookup j out ≡ lookup j raw
    pub wins :
        (k : Text) (v : Value)
        → is_canonical k ≡ true
        → lookup k raw ≡ some v
        → lookup k out ≡ some v
    pub distinct : DistinctKeys out

  pub apart_from :
      (raw : Dict) (k : Text) (v : Value) (rs : List Rename) (claimed : List Text)
      → is_canonical k ≡ true
      → lookup k raw ≡ some v
      → All (Chosen lower claimed) rs
      → Applies raw rs
      → All (λ (r : Rename). (r.0 ≢ k) × (r.1 ≢ k)) rs
  apart_from raw k v [] claimed canonical there a h = tt
  apart_from raw k v (r ∷ rs) claimed canonical there a h = (
    (
      λ e. cc (a.0.foreign, ap is_canonical e, canonical),
      λ e. absurd (absent_there raw k v there (ap (λ t. lookup t raw) (sym e) ∙ h.2)),
    ),
    apart_from raw k v rs claimed canonical there a.1 h.4,
  )
    where
      absent_there :
          (raw : Dict) (k : Text) (v : Value) → lookup k raw ≡ some v → lookup k raw ≡ none → ⊥
      absent_there raw k v p q = let e : some v ≡ none = sym p ∙ q in ground (arith, e)

  pub renames_lem :
      (raw : Dict)
      → DistinctKeys raw
      → IsRenamed raw
          (rename_all (mapping_for lower (keys_of raw)) raw)
          (mapping_for lower (keys_of raw))
  unfolding mapping_for
  renames_lem raw d =
      let rs = renames_from lower (select is_canonical (keys_of raw)) (keys_of raw) in
      let a = mapping_for-Applies raw d in
      let chosen = renames_from-Chosen lower (select is_canonical (keys_of raw)) (keys_of raw) in
      record {
        named = All-mono rs (λ r c. (c.named, c.foreign)) chosen;
        moved = rename_all-Moved rs raw d a;
        kept = λ j h. rename_all-other rs raw j h a;
        wins = λ k v canonical there.
            rename_all-other rs raw k (apart_from raw k v rs _ canonical there chosen a) a ∙ there;
        distinct = rename_all-DistinctKeys rs raw d a;
      }

  -- In a record whose keys are different, what is renamed holds under its canonical key what it held
  -- under its own, every other key keeps its value, and a canonical key of the record wins.
  pub canonicalize-IsRenamed :
      (raw : Dict)
      → DistinctKeys raw
      → IsRenamed raw (canonicalize lower raw).0 (canonicalize lower raw).1
  canonicalize-IsRenamed raw d = elim (canonicalize-eq raw) [
    | inl same ↦ rw same (record {
      named = tt;
      moved = tt;
      kept = λ j h. refl;
      wins = λ k v c there. there;
      distinct = d;
    })
    | inr changed ↦ rw changed (renames_lem raw d)
  ]
