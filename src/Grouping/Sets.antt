-- ===== src/Grouping/Sets.antt =====
-- Sets of texts as ascending lists: two of them with the same elements are equal.
use trace_x.Common.{
  ℕ, ◌<◌, ◌≡◌, refl, sym, ◌∙◌, ap, inl, inr, false, ◌||◌, List, [], ◌∷◌, ◌++◌, arith, ◌==◌, ltb,
  exists_in, All, All-mono, Bool-cases,
}
use trace_x.Common.Select.{not_exists_in}
use trace_x.Grouping.Observe.{put, set_of, is_in}

abbrev pub IsAscending : List ℕ → Type 0
IsAscending [] = Unit
IsAscending (x ∷ xs) = All (λ y. x < y) xs × IsAscending xs

All-put : (P : ℕ → Type 0) (x : ℕ) (ys : List ℕ) → P x → All P ys → All P (put x ys)
unfolding put
All-put P x [] p h = (p, tt)
All-put P x (y ∷ ys) p h = elim (Bool-cases (ltb x y)) [
  | inl lt ↦ rw lt (p, h)
  | inr ge ↦ elim (Bool-cases (x == y)) [
    | inl same ↦ rw ge (rw same h)
    | inr other ↦ rw ge (rw other (h.0, All-put P x ys p h.1))
  ]
]

put-IsAscending : (x : ℕ) (ys : List ℕ) → IsAscending ys → IsAscending (put x ys)
unfolding put
put-IsAscending x [] a = (tt, tt)
put-IsAscending x (y ∷ ys) a = elim (Bool-cases (ltb x y)) [
  | inl lt ↦ rw lt ((ground (arith, lt), All-mono ys (λ z h. ground (arith, lt)) a.0), a)
  | inr ge ↦ elim (Bool-cases (x == y)) [
    | inl same ↦ rw ge (rw same a)
    | inr other ↦ rw ge (
        rw other
          (All-put (λ z. y < z) x ys (ground (arith, ge, other)) a.0, put-IsAscending x ys a.1))
  ]
]

pub set_of-IsAscending : (xs : List ℕ) → IsAscending (set_of xs)
unfolding set_of
set_of-IsAscending [] = tt
set_of-IsAscending (x ∷ xs) = put-IsAscending x (set_of xs) (set_of-IsAscending xs)

is_in-put : (x n : ℕ) (ys : List ℕ) → is_in (put x ys) n ≡ (x == n) || is_in ys n
unfolding put exists_in
is_in-put x n [] = refl
is_in-put x n (y ∷ ys) = elim (Bool-cases (ltb x y)) [
  | inl lt ↦ rw lt refl
  | inr ge ↦ elim (Bool-cases (x == y)) [
    | inl same ↦ rw ge (rw same (ground (arith, same)))
    | inr other ↦ rw ge (rw other (ground (arith, is_in-put x n ys)))
  ]
]

pub is_in-set_of : (xs : List ℕ) (n : ℕ) → is_in (set_of xs) n ≡ is_in xs n
unfolding set_of exists_in
is_in-set_of [] n = refl
is_in-set_of (x ∷ xs) n = is_in-put x n (set_of xs) ∙ ap (λ b. (x == n) || b) (is_in-set_of xs n)

below_all : (n : ℕ) (ys : List ℕ) → All (λ z. n < z) ys → is_in ys n ≡ false
below_all n ys h = not_exists_in (λ y. y == n) ys (All-mono ys (λ z lt. ground (arith, lt)) h)

-- Ascending lists with the same elements are equal.
ascending-ext :
    (xs ys : List ℕ)
    → IsAscending xs
    → IsAscending ys
    → ((n : ℕ) → is_in xs n ≡ is_in ys n)
    → xs ≡ ys
unfolding exists_in
ascending-ext [] [] a b h = refl
ascending-ext [] (y ∷ ys) a b h = absurd (ground (arith, h y))
ascending-ext (x ∷ xs) [] a b h = absurd (ground (arith, h x))
ascending-ext (x ∷ xs) (y ∷ ys) a b h =
    let not_below : x < y → ⊥ =
      λ lt. ground (arith, h x, below_all x ys (All-mono ys (λ z k. omega (arith, lt, k)) b.0)) in
    let not_above : y < x → ⊥ =
      λ lt. ground (arith, h y, below_all y xs (All-mono xs (λ z k. omega (arith, lt, k)) a.0)) in
    let same : x ≡ y = ground (arith, not_below, not_above) in
    let rest : (n : ℕ) → is_in xs n ≡ is_in ys n = λ n. elim (Bool-cases (x == n)) [
      | inl here ↦
          below_all n xs (All-mono xs (λ z k. ground (arith, here, k)) a.0)
          ∙ sym (below_all n ys (All-mono ys (λ z k. ground (arith, here, same, k)) b.0))
      | inr there ↦ ground (arith, h n, same, there)
    ] in
    ap (λ z. z ∷ xs) same ∙ ap (λ zs. y ∷ zs) (ascending-ext xs ys a.1 b.1 rest)

-- `set_of` sees the elements of a list only.
pub set_of-ext : (xs ys : List ℕ) → ((n : ℕ) → is_in xs n ≡ is_in ys n) → set_of xs ≡ set_of ys
set_of-ext xs ys h =
    ascending-ext (set_of xs) (set_of ys) (set_of-IsAscending xs) (set_of-IsAscending ys)
      (λ n. is_in-set_of xs n ∙ h n ∙ sym (is_in-set_of ys n))

pub is_in-append : (xs ys : List ℕ) (n : ℕ) → is_in (xs ++ ys) n ≡ is_in xs n || is_in ys n
unfolding exists_in
is_in-append [] ys n = refl
is_in-append (x ∷ xs) ys n = ground (arith, is_in-append xs ys n)
