-- ===== src/Graph/Members.antt =====
-- Membership in the lists of app/engine/graph/query.py.
use trace_x.Common.{
  ℕ, ◌≡◌, ◌∙◌, sym, ap, inl, inr, ◌⊎◌, true, List, [], ◌∷◌, ◌++◌, map, ◌==◌, ==_iff, exists_in, Any,
  Bool-cases,
}
use trace_x.Common.Select.{exists_in-Any}
use trace_x.Graph.Reach.{Reached, distinct, at_level}

abbrev pub Holds : Reached → List Reached → Type 0
Holds r reach = Any (λ q. q ≡ r) reach

pub Any-left : {A : Type 0} (P : A → Type 0) (xs ys : List A) → Any P xs → Any P (xs ++ ys)
Any-left P [] ys m = absurd m
Any-left P (x ∷ xs) ys (inl h) = inl h
Any-left P (x ∷ xs) ys (inr m) = inr (Any-left P xs ys m)

pub Any-right : {A : Type 0} (P : A → Type 0) (xs ys : List A) → Any P ys → Any P (xs ++ ys)
Any-right P [] ys m = m
Any-right P (x ∷ xs) ys m = inr (Any-right P xs ys m)

pub Any-either :
    {A : Type 0} (P : A → Type 0) (xs ys : List A) → Any P (xs ++ ys) → Any P xs ⊎ Any P ys
Any-either P [] ys m = inr m
Any-either P (x ∷ xs) ys (inl h) = inl (inl h)
Any-either P (x ∷ xs) ys (inr m) = elim (Any-either P xs ys m) [
  | inl l ↦ inl (inr l)
  | inr r ↦ inr r
]

pub Any-turn :
    {A : Type 0} (P Q : A → Type 0) (xs : List A) → ((x : A) → P x → Q x) → Any P xs → Any Q xs
Any-turn P Q [] f m = m
Any-turn P Q (x ∷ xs) f (inl h) = inl (f x h)
Any-turn P Q (x ∷ xs) f (inr m) = inr (Any-turn P Q xs f m)

pub Any-map :
    (level : ℕ) (r : Reached) (ns : List ℕ)
    → Holds r (map (at_level level) ns)
    → (r.level ≡ level) × Any (λ n. n ≡ r.node_id) ns
Any-map level r [] m = absurd m
Any-map level r (n ∷ ns) (inl e) =
    (sym (ap (λ (q : Reached). q.level) e), inl (ap (λ (q : Reached). q.node_id) e))
Any-map level r (n ∷ ns) (inr m) = let (e, k) = Any-map level r ns m in (e, inr k)

pub Any-of-map :
    (level n : ℕ) (ns : List ℕ)
    → Any (λ m. m ≡ n) ns
    → Holds (at_level level n) (map (at_level level) ns)
Any-of-map level n [] m = absurd m
Any-of-map level n (x ∷ ns) (inl e) = inl (ap (at_level level) e)
Any-of-map level n (x ∷ ns) (inr m) = inr (Any-of-map level n ns m)

pub distinct-Any : (n : ℕ) (ns : List ℕ) → Any (λ m. m ≡ n) (distinct ns) → Any (λ m. m ≡ n) ns
unfolding distinct
distinct-Any n [] m = m
distinct-Any n (x ∷ ns) m = elim (Bool-cases (exists_in (λ k. k == x) ns)) [
  | inl again ↦ inr (distinct-Any n ns (rw again at m))
  | inr last ↦
      let m' : (x ≡ n) ⊎ Any (λ k. k ≡ n) (distinct ns) = rw last at m in
      elim m' [ inl e ↦ inl e | inr k ↦ inr (distinct-Any n ns k) ]
]

pub distinct_complete : (n : ℕ) (ns : List ℕ) → Any (λ m. m ≡ n) ns → Any (λ m. m ≡ n) (distinct ns)
unfolding distinct
distinct_complete n [] m = m
distinct_complete n (x ∷ ns) (inr m) = elim (Bool-cases (exists_in (λ k. k == x) ns)) [
  | inl again ↦ rw again (distinct_complete n ns m)
  | inr last ↦ rw last (inr (distinct_complete n ns m))
]
distinct_complete n (x ∷ ns) (inl e) = elim (Bool-cases (exists_in (λ k. k == x) ns)) [
  | inl again ↦ rw again (
      distinct_complete n ns (
        Any-turn (λ k. (k == x) ≡ true) (λ k. k ≡ n) ns (λ k h. (==_iff k x).0 h ∙ e)
          (exists_in-Any (λ k. k == x) ns again)))
  | inr last ↦ rw last (inl e)
]
