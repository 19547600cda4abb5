-- ===== src/Graph/Keys.antt =====
-- The key of the table of reached nodes in app/engine/graph/query.py, and the rows joined with it.
use trace_x.Common.{
  ℕ, zero, suc, ◌+◌, ◌≡◌, refl, sym, ap, subst, arith, inl, inr, Bool, true, false, ◌||◌, not, List,
  [], ◌∷◌, ◌++◌, map, ◌==◌, ==_iff, length, select, exists_in, All, All-mono, All-Any, Bool-cases,
}
use trace_x.Common.Select.{not_exists_in, All-self}
use trace_x.Graph.Reach.{
  Edge, Reached, is_node, distinct, neighbours, next_nodes, at_level, expand, grow,
}
use trace_x.Graph.Neighbours.{Joins}
use trace_x.Graph.Reached.{Walk, here, hop, found, next_nodes_sound, grow_sound}

abbrev pub is_one_of : List ℕ → ℕ → Bool
is_one_of ns n = exists_in (λ m. m == n) ns

-- No number stands twice.
abbrev pub Unique : List ℕ → Type 0
Unique [] = Unit
Unique (n ∷ ns) = (is_one_of ns n ≡ false) × Unique ns

-- No node is reached twice: `node_id VARCHAR PRIMARY KEY`.
abbrev pub HasKey : List Reached → Type 0
HasKey [] = Unit
HasKey (r ∷ reach) = (exists_in (is_node r.node_id) reach ≡ false) × HasKey reach

distinct_keeps : (n : ℕ) (ns : List ℕ) → is_one_of ns n ≡ false → is_one_of (distinct ns) n ≡ false
unfolding distinct exists_in
distinct_keeps n [] e = refl
distinct_keeps n (x ∷ ns) e = elim (Bool-cases (is_one_of ns x)) [
  | inl again ↦ rw again (distinct_keeps n ns (ground arith))
  | inr last ↦ let h = distinct_keeps n ns (ground arith) in rw last (ground arith)
]

distinct-Unique : (ns : List ℕ) → Unique (distinct ns)
unfolding distinct
distinct-Unique [] = tt
distinct-Unique (x ∷ ns) = elim (Bool-cases (is_one_of ns x)) [
  | inl again ↦ rw again (distinct-Unique ns)
  | inr last ↦ rw last (distinct_keeps x ns last, distinct-Unique ns)
]

level_lacks :
    (level n : ℕ) (ns : List ℕ)
    → is_one_of ns n ≡ false
    → exists_in (is_node n) (map (at_level level) ns) ≡ false
unfolding exists_in
level_lacks level n [] e = refl
level_lacks level n (x ∷ ns) e = let h = level_lacks level n ns (ground arith) in ground arith

level-HasKey : (level : ℕ) (ns : List ℕ) → Unique ns → HasKey (map (at_level level) ns)
level-HasKey level [] u = tt
level-HasKey level (n ∷ ns) u = (level_lacks level n ns u.0, level-HasKey level ns u.1)

append_lacks :
    (n : ℕ) (xs ys : List Reached)
    → exists_in (is_node n) xs ≡ false
    → exists_in (is_node n) ys ≡ false
    → exists_in (is_node n) (xs ++ ys) ≡ false
unfolding exists_in
append_lacks n [] ys e f = f
append_lacks n (x ∷ xs) ys e f = let h = append_lacks n xs ys (ground arith) f in ground arith

append-HasKey :
    (level : ℕ) (xs : List Reached) (ns : List ℕ)
    → HasKey xs
    → Unique ns
    → All (λ n. exists_in (is_node n) xs ≡ false) ns
    → HasKey (xs ++ map (at_level level) ns)
unfolding exists_in
append-HasKey level [] ns h u away = level-HasKey level ns u
append-HasKey level (x ∷ xs) ns h u away = (
  append_lacks x.node_id xs (map (at_level level) ns) h.0 (
      level_lacks level x.node_id ns (
        not_exists_in (λ m. m == x.node_id) ns
          (All-mono ns (λ n (e : exists_in (is_node n) (x ∷ xs) ≡ false). ground arith) away))),
  append-HasKey level xs ns h.1 u
      (All-mono ns (λ n (e : exists_in (is_node n) (x ∷ xs) ≡ false). ground arith) away),
)

pub grow-HasKey : (source k : ℕ) (edges : List Edge) → HasKey (grow source k edges)
unfolding grow expand next_nodes exists_in
grow-HasKey source zero edges = (refl, tt)
grow-HasKey source (suc k) edges =
    let reach = grow source k edges in
    let new = next_nodes k reach edges in
    append-HasKey (k + 1) reach new (grow-HasKey source k edges)
      (distinct-Unique (select (λ n. not (exists_in (is_node n) reach)) (neighbours k reach edges)))
      (All-mono new (λ n m. (next_nodes_sound n k reach edges m).1) (All-self new))

-- The rows of a table of nodes that a table with its key has.

abbrev count : (ℕ → Bool) → List ℕ → ℕ
count p ns = length (select p ns)

one_or_other :
    (a : ℕ) (p : ℕ → Bool) (ns : List ℕ)
    → p a ≡ false
    → count (λ n. (a == n) || p n) ns ≡ count (λ n. a == n) ns + count p ns
unfolding select
one_or_other a p [] e = omega arith
one_or_other a p (n ∷ ns) e = elim (Bool-cases (a == n)) [
  | inl same ↦
      let here : a ≡ n = (==_iff a n).0 same in
      let no : p n ≡ false = subst (λ k. p k ≡ false) here e in
      let h = one_or_other a p ns e in rw (same, no) (omega arith)
  | inr other ↦ elim (Bool-cases (p n)) [
    | inl held ↦ let h = one_or_other a p ns e in rw (other, held) (omega arith)
    | inr lost ↦ let h = one_or_other a p ns e in rw (other, lost) (omega arith)
  ]
]

count_none : (a : ℕ) (ns : List ℕ) → is_one_of ns a ≡ false → count (λ n. a == n) ns ≡ 0
unfolding select exists_in
count_none a [] e = refl
count_none a (n ∷ ns) e =
    let no : (a == n) ≡ false = ground arith in rw no (count_none a ns (ground arith))

count_one : (a : ℕ) (ns : List ℕ) → Unique ns → is_one_of ns a ≡ true → count (λ n. a == n) ns ≡ 1
unfolding select exists_in
count_one a [] u e = absurd (cc)
count_one a (n ∷ ns) u e = elim (Bool-cases (a == n)) [
  | inl same ↦
      let here : n ≡ a = sym ((==_iff a n).0 same) in
      rw same (ap suc (count_none a ns (subst (λ k. is_one_of ns k ≡ false) here u.0)))
  | inr other ↦ rw other (count_one a ns u.1 (ground arith))
]

count_nothing : (ns : List ℕ) → count (λ n. false) ns ≡ 0
unfolding select
count_nothing [] = refl
count_nothing (n ∷ ns) = count_nothing ns

count_reached :
    (reach : List Reached) (ns : List ℕ)
    → HasKey reach
    → Unique ns
    → All (λ r. is_one_of ns r.node_id ≡ true) reach
    → count (λ n. exists_in (is_node n) reach) ns ≡ length reach
unfolding exists_in
count_reached [] ns h u known = count_nothing ns
count_reached (r ∷ reach) ns h u known =
    let split = one_or_other r.node_id (λ n. exists_in (is_node n) reach) ns h.0 in
    let one = count_one r.node_id ns u known.0 in
    let rest = count_reached reach ns h.1 u known.1 in omega arith

-- The tables of a snapshot agree: no node stands twice, and each edge joins two nodes.
pub record IsClosed (nodes : List ℕ) (edges : List Edge) : Type 0 where
  pub has_key : Unique nodes
  pub ends_stand :
      All (λ e. (is_one_of nodes e.from_node ≡ true) × (is_one_of nodes e.to_node ≡ true)) edges

Walk-stays :
    (nodes : List ℕ) (edges : List Edge) (source : ℕ)
    → IsClosed nodes edges
    → is_one_of nodes source ≡ true
    → {l v : ℕ} → Walk edges source l v
    → is_one_of nodes v ≡ true
Walk-stays nodes edges source closed known here = known
Walk-stays nodes edges source closed known (hop {n} {u} {v} w j) =
    let (e, joins, m) = found (Joins u v) edges j in
    let (from, to) =
      All-Any (λ e. (is_one_of nodes e.from_node ≡ true) × (is_one_of nodes e.to_node ≡ true)) edges
        closed.ends_stand m in
    elim joins [
      | inl (f, t) ↦ subst (λ k. is_one_of nodes k ≡ true) t to
      | inr (t, f) ↦ subst (λ k. is_one_of nodes k ≡ true) f from
    ]

-- Each reached node has one row.
pub grow_counted :
    (nodes : List ℕ) (edges : List Edge) (source k : ℕ)
    → IsClosed nodes edges
    → is_one_of nodes source ≡ true
    → length (select (λ n. exists_in (is_node n) (grow source k edges)) nodes)
      ≡ length (grow source k edges)
grow_counted nodes edges source k closed known =
    let reach = grow source k edges in
    count_reached reach nodes (grow-HasKey source k edges) closed.has_key (
      All-mono reach
        (λ r m.
          let (low, w) = grow_sound source k edges r m in
          Walk-stays nodes edges source closed known w)
        (All-self reach))
