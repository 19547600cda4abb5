-- ===== src/Graph/Reached.antt =====
-- The nodes and edges that query_neighbourhood of app/engine/graph/query.py finds.
use trace_x.Common.{
  ℕ, zero, suc, ◌+◌, ◌≤◌, ◌≡◌, refl, sym, ap, subst, arith, inl, inr, ◌⊎◌, Bool, true, false, not,
  List, [], ◌∷◌, ◌==◌, ==_iff, exists_in, All-Any, Any, Bool-cases,
}
use trace_x.Common.Select.{exists_in-Any, Any-of-select, Any-select, All-select}
use trace_x.Graph.Reach.{Edge, Reached, is_node, neighbours, next_nodes, at_level, expand, grow}
use trace_x.Graph.Members.{
  Holds, Any-left, Any-right, Any-either, Any-map, Any-of-map, distinct-Any, distinct_complete,
}
use trace_x.Graph.Neighbours.{Joins, Beside, neighbours_sound, neighbours_complete}

-- The walks from the source, by their length.
pub data Walk (edges : List Edge) (source : ℕ) : ℕ → ℕ → Type 0 where
  here : Walk edges source 0 source
  hop : {n u v : ℕ} → Walk edges source n u → Any (Joins u v) edges → Walk edges source (suc n) v

pub found :
    {A : Type 0} (P : A → Type 0) (xs : List A) → Any P xs → (x : A) × P x × Any (λ y. y ≡ x) xs
found P [] m = absurd m
found P (x ∷ xs) (inl h) = (x, h, inl refl)
found P (x ∷ xs) (inr m) = let (y, h, k) = found P xs m in (y, h, inr k)

is_node_lem : (v : ℕ) (r : Reached) → is_node v r ≡ true → r ≡ at_level r.level v
is_node_lem v r h = let same : r.node_id ≡ v = ground arith in cc

not_lem : (b : Bool) → not b ≡ true → b ≡ false
not_lem true e = cc
not_lem false e = refl

pub next_nodes_sound :
    (n level : ℕ) (reach : List Reached) (es : List Edge)
    → Any (λ m. m ≡ n) (next_nodes level reach es)
    → Beside n level reach es × (exists_in (is_node n) reach ≡ false)
unfolding next_nodes
next_nodes_sound n level reach es m =
    let kept = distinct-Any n _ m in
    (
      neighbours_sound n level reach es
          (Any-of-select (λ k. not (exists_in (is_node k) reach)) (λ k. k ≡ n) _ kept),
      not_lem _ (
          All-Any (λ k. not (exists_in (is_node k) reach) ≡ true) _
            (All-select (λ k. not (exists_in (is_node k) reach)) _) kept),
    )

-- Entries of an earlier turn stay.
pub raised :
    (source m k : ℕ) (edges : List Edge) (r : Reached)
    → m ≤ k
    → Holds r (grow source m edges)
    → Holds r (grow source k edges)
unfolding grow expand
raised source m zero edges r low h =
    let e : m ≡ 0 = omega arith in subst (λ l. Holds r (grow source l edges)) e h
raised source m (suc k) edges r low h = elim (Bool-cases (m == suc k)) [
  | inl e ↦
      let same : m ≡ suc k = (==_iff m (suc k)).0 e in
      subst (λ l. Holds r (grow source l edges)) same h
  | inr e ↦ Any-left (λ q. q ≡ r) _ _ (raised source m k edges r (ground arith) h)
]

-- What a turn adds.
expand_cases :
    (source k : ℕ) (edges : List Edge) (r : Reached)
    → Holds r (grow source (suc k) edges)
    → Holds r (grow source k edges)
      ⊎ ((r.level ≡ suc k) × Any (λ n. n ≡ r.node_id) (next_nodes k (grow source k edges) edges))
unfolding grow expand
expand_cases source k edges r m = elim (Any-either (λ q. q ≡ r) _ _ m) [
  | inl old ↦ inl old
  | inr new ↦ let (e, m') = Any-map (k + 1) r _ new in inr (omega arith, m')
]

pub grow_sound :
    (source k : ℕ) (edges : List Edge) (r : Reached)
    → Holds r (grow source k edges)
    → (r.level ≤ k) × Walk edges source r.level r.node_id
unfolding grow Beside
grow_sound source zero edges r (inl e) =
    subst (λ (q : Reached). (q.level ≤ 0) × Walk edges source q.level q.node_id) e
      (omega arith, here)
grow_sound source zero edges r (inr m) = absurd m
grow_sound source (suc k) edges r m = elim (expand_cases source k edges r m) [
  | inl old ↦ let (low, w) = grow_sound source k edges r old in (omega arith, w)
  | inr (e, new) ↦
      let (u, h, j) = (next_nodes_sound r.node_id k _ edges new).0 in
      let (low, w) = grow_sound source k edges (at_level k u) h in
      (omega arith, subst (λ l. Walk edges source l r.node_id) (sym e) (hop w j))
]

-- An entry stands already in the turn of its level,
pub settled :
    (source k : ℕ) (edges : List Edge) (r : Reached)
    → Holds r (grow source k edges)
    → Holds r (grow source r.level edges)
unfolding grow
settled source zero edges r (inl e) =
    subst (λ (q : Reached). Holds q (grow source q.level edges)) e (inl refl)
settled source zero edges r (inr m) = absurd m
settled source (suc k) edges r m = elim (expand_cases source k edges r m) [
  | inl old ↦ settled source k edges r old
  | inr (e, new) ↦ subst (λ l. Holds r (grow source l edges)) (sym e) m
]

-- and its node in no earlier one.
pub fresh :
    (source k j : ℕ) (edges : List Edge) (r : Reached)
    → Holds r (grow source k edges)
    → r.level ≡ j + 1
    → exists_in (is_node r.node_id) (grow source j edges) ≡ false
unfolding grow
fresh source zero j edges r (inl e) is_next =
    let low : 0 ≡ r.level = ap (λ (q : Reached). q.level) e in absurd (omega arith)
fresh source zero j edges r (inr m) is_next = absurd m
fresh source (suc k) j edges r m is_next = elim (expand_cases source k edges r m) [
  | inl old ↦ fresh source k j edges r old is_next
  | inr (e, new) ↦
      let same : k ≡ j = omega arith in
      subst (λ l. exists_in (is_node r.node_id) (grow source l edges) ≡ false) same
        (next_nodes_sound r.node_id k _ edges new).1
]

-- A node that a turn finds, or has found before.
next_level :
    (source m v : ℕ) (edges : List Edge)
    → Any (λ n. n ≡ v) (neighbours m (grow source m edges) edges)
    → (l : ℕ) × (l ≤ m + 1) × Holds (at_level l v) (grow source (suc m) edges)
unfolding grow expand next_nodes
next_level source m v edges nb = elim (Bool-cases (exists_in (is_node v) (grow source m edges))) [
  | inl known ↦
      let (r, is_v, h) = found (λ r. is_node v r ≡ true) _ (exists_in-Any (is_node v) _ known) in
      let (low, w) = grow_sound source m edges r h in
      let same : r ≡ at_level r.level v = is_node_lem v r is_v in
      (
        r.level,
        omega arith,
        Any-left (λ q. q ≡ at_level r.level v) _ _
            (subst (λ q. Holds q (grow source m edges)) same h),
      )
  | inr unknown ↦
      let kept =
        Any-select (λ n. not (exists_in (is_node n) (grow source m edges))) (λ n. n ≡ v) _
          (λ n e. rw (e, unknown) refl) nb in
      (
        m + 1,
        omega arith,
        Any-right (λ q. q ≡ at_level (m + 1) v) _ _
            (Any-of-map (m + 1) v _ (distinct_complete v _ kept)),
      )
]

pub grow_complete :
    (edges : List Edge) (source l v : ℕ)
    → Walk edges source l v
    → (m : ℕ) × (m ≤ l) × Holds (at_level m v) (grow source l edges)
unfolding grow
grow_complete edges source l v here = (0, omega arith, inl refl)
grow_complete edges source l v (hop {n} {u} w j) =
    let (m, low, h) = grow_complete edges source n u w in
    let h' = settled source n edges (at_level m u) h in
    let (k, below, h'') = next_level source m v edges (neighbours_complete u v m _ edges h' j) in
    (k, omega arith, raised source (suc m) (suc n) edges (at_level k v) (omega arith) h'')
