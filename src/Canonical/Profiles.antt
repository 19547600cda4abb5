-- ===== src/Canonical/Profiles.antt =====
-- The renaming of a header's keys in app/engine/canonical/profiles.py.
use trace_x.Common.{
  ℕ, Bool, ◌||◌, not, List, [], ◌∷◌, map, Option, none, some, ◌==◌, if◌then◌else◌, select,
  exists_in,
}
use trace_x.Canonical.Text.{Text, text_eq, is_space}
use trace_x.Canonical.Names.{canonical_keys, lookup_table}
use trace_x.Canonical.Model.{Value, Dict, lookup}

unfoldable pub is_among : Text → List Text → Bool
unfolding exists_in text_eq
is_among k ks = exists_in (text_eq k) ks

-- A character of `_STRIP`.
abbrev pub is_stripped : ℕ → Bool
is_stripped c =
    is_space c
    || c == b'_'
    || c == b'-'
    || c == b'.'
    || c == b'['
    || c == b']'
    || c == b'('
    || c == b')'
    || c == b'/'
    || c == b':'

unfoldable pub find_alias : Text → List (Text × Text) → Option Text
unfolding text_eq
find_alias k [] = none
find_alias k ((alias, canonical) ∷ rest) =
    if text_eq alias k then some canonical else find_alias k rest

abbrev pub Rename : Type 0
Rename = Text × Text

-- `dict.pop` without its result
unfoldable pub drop_key : Text → Dict → Dict
unfolding text_eq
drop_key k [] = []
drop_key k ((j, v) ∷ rest) = if text_eq j k then rest else (j, v) ∷ drop_key k rest

-- `value[key] = v`: in place, or at the end.
unfoldable pub put : Text → Value → Dict → Dict
unfolding text_eq
put k v [] = (k, v) ∷ []
put k v ((j, w) ∷ rest) = if text_eq j k then (j, v) ∷ rest else (j, w) ∷ put k v rest

abbrev pub rename_found : Text → Text → Option Value → Dict → Dict
rename_found source canonical none value = value
rename_found source canonical (some v) value = put canonical v (drop_key source value)

-- `value[canonical] = value.pop(source)`
unfoldable pub rename : Rename → Dict → Dict
unfolding put drop_key lookup
rename (source, canonical) value = rename_found source canonical (lookup source value) value

unfoldable pub rename_all : List Rename → Dict → Dict
unfolding rename
rename_all [] value = value
rename_all (r ∷ rs) value = rename_all rs (rename r value)

-- The canonical key that the loop of `mapping_for` gives a key: one that is not claimed yet.
abbrev pub unclaimed : List Text → Option Text → Option Text
unclaimed claimed none = none
unclaimed claimed (some canonical) = if is_among canonical claimed then none else some canonical

abbrev pub renamed : Dict → List Rename → Dict × List Rename
renamed raw [] = (raw, [])
renamed raw (r ∷ rs) = (rename_all (r ∷ rs) raw, r ∷ rs)

abbrev pub keys_of : Dict → List Text
keys_of raw = map (λ entry. entry.0) raw

-- `lower` is `str.lower`.
module _ (lower : Text → Text) where
  -- `_normal`
  unfoldable pub normal : Text → Text
  unfolding select
  normal key = lower (select (λ c. not (is_stripped c)) key)

  -- `_LOOKUP.get(_normal(key))`
  unfoldable pub canonical_name : Text → Option Text
  unfolding normal find_alias lookup_table
  canonical_name key = find_alias (normal key) lookup_table

  unfoldable pub choose : List Text → Text → Option Text
  unfolding canonical_name is_among
  choose claimed key =
      if is_among key canonical_keys then none else unclaimed claimed (canonical_name key)

  unfoldable pub renames_from : List Text → List Text → List Rename
  unfolding choose
  renames_from claimed [] = []
  renames_from claimed (key ∷ keys) = elim (choose claimed key) [
    | none ↦ renames_from claimed keys
    | some canonical ↦ (key, canonical) ∷ renames_from (canonical ∷ claimed) keys
  ]

  -- `mapping_for`, without its cache
  unfoldable pub mapping_for : List Text → List Rename
  unfolding renames_from select is_among
  mapping_for keys = renames_from (select (λ k. is_among k canonical_keys) keys) keys

  -- `canonicalize`
  unfoldable pub canonicalize : Dict → Dict × List Rename
  unfolding mapping_for rename_all exists_in is_among
  canonicalize raw =
      if exists_in (λ k. not (is_among k canonical_keys)) (keys_of raw)
      then renamed raw (mapping_for (keys_of raw))
      else (raw, [])
