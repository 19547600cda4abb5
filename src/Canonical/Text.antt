-- ===== src/Canonical/Text.antt =====
-- What the normaliser uses of Python's texts: a text is the list of its code points.
use Prim.Native.Char.{code}
use Prim.Native.String.{String}
use trace_x.Common.{
  ℕ, zero, suc, ◌≡◌, ◌≢◌, refl, inl, inr, Bool, true, false, ◌&&◌, ◌||◌, List, map, [], ◌∷◌, ◌++◌,
  arith, ◌==◌, ==_iff, leb, if◌then◌else◌, select, Bool-cases,
}

abbrev pub Text : Type 0
Text = List ℕ

abbrev pub codes : String → Text
codes String.[] = []
codes (String.◌∷◌ c s) = code c ∷ codes s

unfoldable pub text_eq : Text → Text → Bool
text_eq [] [] = true
text_eq [] (y ∷ ys) = false
text_eq (x ∷ xs) [] = false
text_eq (x ∷ xs) (y ∷ ys) = x == y && text_eq xs ys

pub text_eq-eq : (s t : Text) → text_eq s t ≡ true → s ≡ t
unfolding text_eq
text_eq-eq [] [] h = refl
text_eq-eq [] (y ∷ ys) h = cc
text_eq-eq (x ∷ xs) [] h = cc
text_eq-eq (x ∷ xs) (y ∷ ys) h = ground (arith, ==_iff x y, text_eq-eq xs ys)

pub text_eq_refl : (s : Text) → text_eq s s ≡ true
unfolding text_eq
text_eq_refl [] = refl
text_eq_refl (x ∷ xs) = ground (arith, text_eq_refl xs)

pub text_eq_ne : (s t : Text) → s ≢ t → text_eq s t ≡ false
text_eq_ne s t ne = elim (Bool-cases (text_eq s t)) [
  | inl same ↦ absurd (ne (text_eq-eq s t same))
  | inr other ↦ other
]

-- `c.isspace()`, which is also what `\s` matches.
abbrev pub is_space : ℕ → Bool
is_space c =
    leb 9 c && leb c 13
    || leb 28 c && leb c 32
    || c == 133
    || c == 160
    || c == 5760
    || leb 8192 c && leb c 8202
    || c == 8232
    || c == 8233
    || c == 8239
    || c == 8287
    || c == 12288

-- `text.lstrip()`, `text.rstrip()` and `text.strip()`
unfoldable pub lstrip : Text → Text
lstrip [] = []
lstrip (c ∷ cs) = if is_space c then lstrip cs else c ∷ cs

unfoldable pub rstrip : Text → Text
rstrip [] = []
rstrip (c ∷ cs) = elim (rstrip cs) [ [] ↦ if is_space c then [] else c ∷ [] | d ∷ ds ↦ c ∷ d ∷ ds ]

unfoldable pub strip : Text → Text
unfolding lstrip rstrip
strip t = rstrip (lstrip t)

-- A separator of `_LIST_SPLIT`: `;`, `|`, `,` or white space.
abbrev pub is_separator : ℕ → Bool
is_separator c = c == b';' || c == b'|' || c == b',' || is_space c

-- The pieces between separators, the last one first, and the piece that is open.
unfoldable pub pieces : Text → Text → List Text
pieces piece [] = piece ∷ []
pieces piece (c ∷ cs) =
    let rest = pieces [] cs in
    let longer = pieces (piece ++ c ∷ []) cs in if is_separator c then piece ∷ rest else longer

abbrev pub is_nonempty : Text → Bool
is_nonempty [] = false
is_nonempty (c ∷ cs) = true

-- `[part for part in _LIST_SPLIT.split(text) if part]`: a run of separators splits once or leaves
-- empty parts behind, which are dropped.
unfoldable pub split_list : Text → List Text
unfolding pieces select
split_list t = select is_nonempty (pieces [] t)

-- `TXID.fullmatch(text)`: 64 lower-case hexadecimal digits.
abbrev pub is_hex : ℕ → Bool
is_hex c = leb b'0' c && leb c b'9' || leb b'a' c && leb c b'f'

unfoldable pub is_hex_run : ℕ → Text → Bool
is_hex_run zero [] = true
is_hex_run zero (c ∷ cs) = false
is_hex_run (suc n) [] = false
is_hex_run (suc n) (c ∷ cs) = is_hex c && is_hex_run n cs

unfoldable pub is_txid : Text → Bool
unfolding is_hex_run
is_txid t = is_hex_run 64 t

split_cell : split_list (codes "a; b,,c|d  e") ≡ map codes ("a" ∷ "b" ∷ "c" ∷ "d" ∷ "e" ∷ [])
unfolding split_list
split_cell = refl

strip_cell : strip (codes "  a b ") ≡ codes "a b"
unfolding strip
strip_cell = refl
