-- ===== src/Graph/Distance.antt =====
-- The answer of query_neighbourhood of app/engine/graph/query.py: distances from the seed, and edges.
use trace_x.Common.{
  ℕ, ◌-◌, ◌<◌, ◌≤◌, ◌≡◌, sym, subst, arith, inl, inr, ◌⊎◌, ◌↔◌, Bool, true, List, [], ◌∷◌, ==_refl,
  leb, leb→le, exists_in, All-Any, Any, Bool-cases,
}
use trace_x.Common.Select.{exists_in-Any, Any-of-select, Any-select, All-select}
use trace_x.Graph.Reach.{Edge, Reached, is_node, at_level, grow, is_inside, touches, edges_within}
use trace_x.Graph.Members.{Holds, Any-turn}
use trace_x.Graph.Reached.{Walk, found, raised, fresh, grow_sound, grow_complete}

present :
    {A : Type 0} (p : A → Bool) (xs : List A) → Any (λ x. p x ≡ true) xs → exists_in p xs ≡ true
unfolding exists_in
present p [] m = absurd m
present p (x ∷ xs) (inl h) = ground arith
present p (x ∷ xs) (inr m) = let h = present p xs m in ground arith

least :
    (source k l : ℕ) (edges : List Edge) (r : Reached)
    → Holds r (grow source k edges)
    → Walk edges source l r.node_id
    → r.level ≤ l
least source k l edges r h w = elim (Bool-cases (leb r.level l)) [
  | inl e ↦ leb→le r.level l e
  | inr e ↦
      let j = r.level - 1 in
      let no = fresh source k j edges r h (ground arith) in
      let (m, low, h') = grow_complete edges source l r.node_id w in
      let at_j = raised source l j edges (at_level m r.node_id) (ground arith) h' in
      let yes = present (is_node r.node_id) (grow source j edges) (
        Any-turn (λ q. q ≡ at_level m r.node_id) (λ q. is_node r.node_id q ≡ true) _
          (λ q same. subst (λ p. is_node r.node_id p ≡ true) (sym same) (==_refl r.node_id))
          at_j) in
      absurd (cc)
]

-- The level is the least number of edges that lead from the source to the node.
pub Nearest : (edges : List Edge) (source level node : ℕ) → Type 0
Nearest edges source level node =
    Walk edges source level node × ((l : ℕ) → Walk edges source l node → level ≤ l)

-- The table of reached nodes holds a node with a level exactly when the level is at most the depth and
-- is the least number of edges, taken in either direction, that lead from the source to the node.
pub grow_distance :
    (source depth : ℕ) (edges : List Edge) (node level : ℕ)
    → Holds (at_level level node) (grow source depth edges)
      ↔ ((level ≤ depth) × Nearest edges source level node)
unfolding Nearest
grow_distance source depth edges node level = (
  λ h.
      let (low, w) = grow_sound source depth edges (at_level level node) h in
      (low, (w, λ l w'. least source depth l edges (at_level level node) h w')),
  λ (low, (w, best)).
      let (m, below, h) = grow_complete edges source level node w in
      let (low', w') = grow_sound source level edges (at_level m node) h in
      let same : m ≡ level = (let k = best m w' in omega arith) in
      subst (λ l. Holds (at_level l node) (grow source depth edges)) same
        (raised source level depth edges (at_level m node) low h),
)

-- One end of the edge is nearer than the depth.
pub IsNear : (edges : List Edge) (source depth : ℕ) → Edge → Type 0
IsNear edges source depth e =
    (l : ℕ) × (l < depth) × (Walk edges source l e.from_node ⊎ Walk edges source l e.to_node)

inside_lem :
    (source depth node : ℕ) (edges : List Edge)
    → exists_in (is_inside depth node) (grow source depth edges) ≡ true
    → (l : ℕ) × (l < depth) × Walk edges source l node
inside_lem source depth node edges e =
    let (r, is_in, h) =
      found (λ r. is_inside depth node r ≡ true) _ (exists_in-Any (is_inside depth node) _ e) in
    let (low, w) = grow_sound source depth edges r h in
    let same : r.node_id ≡ node = ground arith in
    (r.level, ground arith, subst (λ n. Walk edges source r.level n) same w)

inside_complete :
    (source depth node l : ℕ) (edges : List Edge)
    → l < depth
    → Walk edges source l node
    → exists_in (is_inside depth node) (grow source depth edges) ≡ true
inside_complete source depth node l edges near w =
    let (m, low, h) = grow_complete edges source l node w in
    let all = raised source l depth edges (at_level m node) (omega arith) h in
    present (is_inside depth node) (grow source depth edges) (
      Any-turn (λ q. q ≡ at_level m node) (λ q. is_inside depth node q ≡ true) _
        (λ q same. subst (λ p. is_inside depth node p ≡ true) (sym same) (ground arith)) all)

-- The edges of the answer are the edges of the snapshot with an end to which fewer edges than the
-- depth lead from the source.
pub edges_within_lem :
    (source depth : ℕ) (edges : List Edge) (e : Edge)
    → Any (λ f. f ≡ e) (edges_within depth (grow source depth edges) edges)
      ↔ (Any (λ f. f ≡ e) edges × IsNear edges source depth e)
unfolding IsNear edges_within
edges_within_lem source depth edges e =
    let reach = grow source depth edges in
    (
      λ m.
          let test =
            All-Any (λ f. touches depth reach f ≡ true) _ (All-select (touches depth reach) edges)
              m in
          (Any-of-select (touches depth reach) (λ f. f ≡ e) edges m, near_end test),
      λ (m, near).
          Any-select (touches depth reach) (λ f. f ≡ e) edges
            (λ f same. subst (λ g. touches depth reach g ≡ true) (sym same) (touched near)) m,
    )
  where
    near_end : touches depth (grow source depth edges) e ≡ true → IsNear edges source depth e
    near_end test =
        elim (Bool-cases (exists_in (is_inside depth e.from_node) (grow source depth edges))) [
          | inl near ↦
              let (l, low, w) = inside_lem source depth e.from_node edges near in (l, low, inl w)
          | inr other ↦
              let (l, low, w) = inside_lem source depth e.to_node edges (rw other at test) in
              (l, low, inr w)
        ]

    touched : IsNear edges source depth e → touches depth (grow source depth edges) e ≡ true
    touched (l, low, inl w) =
        let h = inside_complete source depth e.from_node l edges low w in ground arith
    touched (l, low, inr w) =
        let h = inside_complete source depth e.to_node l edges low w in ground arith
