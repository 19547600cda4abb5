-- ===== src/Canonical/Twice.antt =====
-- canonicalize of app/engine/canonical/profiles.py on a record that it has renamed.
use trace_x.Common.{
  ◌≡◌, ◌∙◌, sym, ap, subst, arith, inl, inr, true, false, List, [], ◌∷◌, none, some, select, All,
  All-mono, All-Any, Any,
}
use trace_x.Common.Select.{All-select, Any-of-select}
use trace_x.Canonical.Text.{Text}
use trace_x.Canonical.Model.{Dict, lookup}
use trace_x.Canonical.Profiles.{
  Rename, is_among, canonical_name, renames_from, mapping_for, keys_of, rename_all, canonicalize,
}
use trace_x.Canonical.Renaming.{DistinctKeys, Present, Applies, Moved}
use trace_x.Canonical.Claims.{canonical_name-canonical}
use trace_x.Canonical.Renamed.{is_canonical, place, start-Claims, keys-Present, Present-key}
use trace_x.Canonical.Settled.{Accounted, among_Any, Settled, renames_from-Settled, keys-Accounted}
use trace_x.Canonical.Stable.{mapping_for-Applies, canonicalize-eq, IsRenamed, renames_lem}

module _ (lower : Text → Text) where
  -- The canonical keys that a record holds.
  abbrev Holding : Dict → Text → Type 0
  Holding m c = (is_canonical c ≡ true) × Present c m

  claimed_Holding :
      (m : Dict) (c : Text) → is_among c (select is_canonical (keys_of m)) ≡ true → Holding m c
  claimed_Holding m c h =
      let place_of = among_Any c (select is_canonical (keys_of m)) h in
      let canonical =
        All-Any (λ k. is_canonical k ≡ true) (select is_canonical (keys_of m))
          (All-select is_canonical (keys_of m)) place_of in
      (
        canonical,
        All-Any (λ k. Present k m) (keys_of m) (keys-Present m)
            (Any-of-select is_canonical (λ k. k ≡ c) (keys_of m) place_of),
      )

  module _ (raw out : Dict) (rs : List Rename) (h : IsRenamed lower raw out rs)
      (accounted : All (Accounted lower (Holding out) rs) (keys_of raw)) where
    source_gone : (k : Text) → Any (λ (r : Rename). r.0 ≡ k) rs → lookup k out ≡ none
    source_gone k m = gone rs h.moved m
      where
        gone :
            (qs : List Rename)
            → All (Moved raw out) qs
            → Any (λ (r : Rename). r.0 ≡ k) qs
            → lookup k out ≡ none
        gone [] a m = absurd m
        gone (q ∷ qs) a (inl e) = subst (λ t. lookup t out ≡ none) e a.0.1
        gone (q ∷ qs) a (inr m) = gone qs a.1 m

    target_canonical : (k : Text) → Any (λ (r : Rename). r.1 ≡ k) rs → is_canonical k ≡ true
    target_canonical k m = canonical rs h.named m
      where
        canonical :
            (qs : List Rename)
            → All
                (λ (r : Rename). (canonical_name lower r.0 ≡ some r.1) × (is_canonical r.0 ≡ false))
                qs
            → Any (λ (r : Rename). r.1 ≡ k) qs
            → is_canonical k ≡ true
        canonical [] a m = absurd m
        canonical (q ∷ qs) a (inl e) =
            subst (λ t. is_canonical t ≡ true) e (canonical_name-canonical lower q.0 q.1 a.0.0)
        canonical (q ∷ qs) a (inr m) = canonical qs a.1 m

    key-Settled : (k : Text) → Present k out → Settled lower (Holding out) k
    key-Settled k p = elim (place k rs) [
      | inl m ↦ let e : some p.0 ≡ none = sym p.1 ∙ source_gone k m in absurd (ground (arith, e))
      | inr (inl m) ↦ inl (target_canonical k m)
      | inr (inr apart) ↦ settled_of k p (
          All-Any (Accounted lower (Holding out) rs) (keys_of raw) accounted
            (Present-key k raw (p.0, sym (h.kept k apart) ∙ p.1)))
    ]
      where
        settled_of :
            (k : Text)
            → Present k out
            → Accounted lower (Holding out) rs k
            → Settled lower (Holding out) k
        settled_of k p (inl m) =
            let e : some p.0 ≡ none = sym p.1 ∙ source_gone k m in absurd (ground (arith, e))
        settled_of k p (inr s) = s

    claimed_of :
        (k : Text)
        → Settled lower (Holding out) k
        → Settled lower (λ c. is_among c (select is_canonical (keys_of out)) ≡ true) k
    claimed_of k (inl canonical) = inl canonical
    claimed_of k (inr (inl unknown)) = inr (inl unknown)
    claimed_of k (inr (inr (c, named, held))) =
        inr (inr (c, named, start-Claims lower out c held.0 held.1))

    again_none : mapping_for lower (keys_of out) ≡ []
    unfolding mapping_for
    again_none =
        renames_from-Settled lower (select is_canonical (keys_of out)) (keys_of out)
          (All-mono (keys_of out) (λ k p. claimed_of k (key-Settled k p)) (keys-Present out))

    again_same : canonicalize lower out ≡ (out, [])
    unfolding rename_all
    again_same = elim (canonicalize-eq lower out) [
      | inl same ↦ same
      | inr changed ↦ changed ∙ ap (λ (qs : List Rename). (rename_all qs out, qs)) again_none
    ]

  targets_Holding :
      (raw out : Dict) (rs qs : List Rename)
      → All (λ (r : Rename). (canonical_name lower r.0 ≡ some r.1) × (is_canonical r.0 ≡ false)) qs
      → All (Moved raw out) qs
      → Applies raw qs
      → All (λ (r : Rename). Holding out r.1) qs
  targets_Holding raw out rs [] n m a = tt
  targets_Holding raw out rs (q ∷ qs) n m a = (
    (canonical_name-canonical lower q.0 q.1 n.0.0, (a.1.0, m.0.0 ∙ a.1.1)),
    targets_Holding raw out rs qs n.1 m.1 a.4,
  )

  renames_Accounted :
      (raw : Dict)
      → DistinctKeys raw
      → All
          (Accounted lower
            (Holding (rename_all (mapping_for lower (keys_of raw)) raw))
            (mapping_for lower (keys_of raw)))
          (keys_of raw)
  unfolding mapping_for
  renames_Accounted raw d =
      let rs = renames_from lower (select is_canonical (keys_of raw)) (keys_of raw) in
      let out = rename_all rs raw in
      let h : IsRenamed lower raw out rs = renames_lem lower raw d in
      keys-Accounted lower (Holding out) (select is_canonical (keys_of raw)) (keys_of raw)
        (λ c m.
          let (canonical, p) = claimed_Holding raw c m in
          (canonical, (p.0, h.wins c p.0 canonical p.1)))
        (targets_Holding raw out rs rs h.named h.moved (mapping_for-Applies lower raw d))

  -- A second pass over a record whose keys are different renames nothing.
  pub canonicalize-twice :
      (raw : Dict)
      → DistinctKeys raw
      → canonicalize lower (canonicalize lower raw).0 ≡ ((canonicalize lower raw).0, [])
  canonicalize-twice raw d = elim (canonicalize-eq lower raw) [
    | inl same ↦ rw same same
    | inr changed ↦ rw changed (
        again_same raw (rename_all (mapping_for lower (keys_of raw)) raw)
          (mapping_for lower (keys_of raw)) (renames_lem lower raw d) (renames_Accounted raw d))
  ]
