-- ===== src/Graph/Offsets.antt =====
-- Pages of a list by LIMIT and OFFSET, as the queries of app/engine/graph/query.py take them.
use trace_x.Common.{
  ℕ, zero, suc, ◌+◌, ◌-◌, ◌<◌, ◌≤◌, ◌≡◌, ◌∙◌, refl, sym, ap, arith, inl, inr, Bool, List, [], ◌∷◌,
  ◌++◌, length, take, Bool-cases,
}
use trace_x.Common.Sort.{insert_by, sort_by}
use trace_x.Graph.Query.{drop, page_of}

-- Pages of a list.
module _ {A : Type 0} where
  drop_all : (n : ℕ) (xs : List A) → length xs ≤ n → drop n xs ≡ []
  drop_all zero [] h = refl
  drop_all zero (x ∷ xs) h = absurd (omega arith)
  drop_all (suc n) [] h = refl
  drop_all (suc n) (x ∷ xs) h = drop_all n xs (omega arith)

  pub take-drop : (n : ℕ) (xs : List A) → take n xs ++ drop (length (take n xs)) xs ≡ xs
  take-drop zero xs = refl
  take-drop (suc n) [] = refl
  take-drop (suc n) (x ∷ xs) = ap (λ ys. x ∷ ys) (take-drop n xs)

  drop-drop : (n m : ℕ) (xs : List A) → drop m (drop n xs) ≡ drop (n + m) xs
  drop-drop zero m xs = ap (λ k. drop k xs) (omega arith)
  drop-drop (suc n) m [] = drop_all m [] (omega arith) ∙ sym (drop_all (suc n + m) [] (omega arith))
  drop-drop (suc n) m (x ∷ xs) =
      let e : suc (n + m) ≡ suc n + m = omega arith in
      drop-drop n m xs ∙ ap (λ k. drop k (x ∷ xs)) e

  pub length-drop : (n : ℕ) (xs : List A) → length (drop n xs) ≡ length xs - n
  length-drop zero xs = omega arith
  length-drop (suc n) [] = omega arith
  length-drop (suc n) (x ∷ xs) = let e = length-drop n xs in omega arith

  -- A page that stops before the end is full.
  pub length-take :
      (n : ℕ) (xs : List A)
      → (length (take n xs) ≤ length xs) × (length (take n xs) < length xs → length (take n xs) ≡ n)
  length-take zero xs = (omega arith, λ h. refl)
  length-take (suc n) [] = (omega arith, λ h. absurd (omega arith))
  length-take (suc n) (x ∷ xs) =
      let (low, full) = length-take n xs in
      (omega arith, λ h. let e = full (omega arith) in omega arith)

  take_all : (n : ℕ) (xs : List A) → length (take n xs) ≡ length xs → take n xs ≡ xs
  take_all zero [] h = refl
  take_all zero (x ∷ xs) h = absurd (omega arith)
  take_all (suc n) [] h = refl
  take_all (suc n) (x ∷ xs) h = ap (λ ys. x ∷ ys) (take_all n xs (omega arith))

  -- The rest behind a page.
  pub page-drop :
      (limit n : ℕ) (xs : List A)
      → page_of limit n xs ++ drop (n + length (page_of limit n xs)) xs ≡ drop n xs
  page-drop limit n xs =
      ap (λ ys. page_of limit n xs ++ ys) (sym (drop-drop n _ xs)) ∙ take-drop limit (drop n xs)

  pub last_page :
      (limit n : ℕ) (xs : List A)
      → n ≤ length xs
      → length xs ≡ n + length (page_of limit n xs)
      → page_of limit n xs ≡ drop n xs
  last_page limit n xs low e = take_all limit (drop n xs) (let h = length-drop n xs in omega arith)

  -- Within the list, the offset behind a page is within it, and moves unless the list is at its end.
  pub offset_moves :
      (limit n : ℕ) (xs : List A)
      → 1 ≤ limit
      → n ≤ length xs
      → (n + length (page_of limit n xs) ≤ length xs)
        × (n + length (page_of limit n xs) < length xs → 1 ≤ length (page_of limit n xs))
  offset_moves limit n xs pos low =
      let h = length-drop n xs in
      let (short, full) = length-take limit (drop n xs) in
      (omega arith, λ less. let e = full (omega arith) in omega arith)

length-insert_by :
    {A : Type 0} (le : A → A → Bool) (x : A) (ys : List A)
    → length (insert_by le x ys) ≡ suc (length ys)
unfolding insert_by
length-insert_by le x [] = refl
length-insert_by le x (y ∷ ys) = elim (Bool-cases (le x y)) [
  | inl e ↦ rw e refl
  | inr e ↦ rw e (ap suc (length-insert_by le x ys))
]

pub length-sort_by :
    {A : Type 0} (le : A → A → Bool) (xs : List A) → length (sort_by le xs) ≡ length xs
unfolding sort_by
length-sort_by le [] = refl
length-sort_by le (x ∷ xs) = length-insert_by le x (sort_by le xs) ∙ ap suc (length-sort_by le xs)
