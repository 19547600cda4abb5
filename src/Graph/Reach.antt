-- ===== src/Graph/Reach.antt =====
-- The reachability tables of query_neighbourhood in app/engine/graph/query.py.
use trace_x.Common.{
  ℕ, zero, suc, ◌+◌, Bool, true, false, ◌&&◌, ◌||◌, not, List, [], ◌∷◌, ◌++◌, map, ◌==◌, ltb,
  if◌then◌else◌, select, exists_in,
}

-- A row of `edges`; the identifiers of nodes and edges, which are compared only, are numbers.
pub record Edge : Type 0 where
  pub edge_id : ℕ
  pub from_node : ℕ
  pub to_node : ℕ

-- `q_reach`: a node with its level.
pub record Reached : Type 0 where
  pub node_id : ℕ
  pub level : ℕ

abbrev pub is_at : (node level : ℕ) → Reached → Bool
is_at node level r = r.node_id == node && r.level == level

-- `node_id NOT IN (SELECT node_id FROM q_reach)`, negated
abbrev pub is_node : ℕ → Reached → Bool
is_node node r = r.node_id == node

abbrev pub step : (matches : Bool) → ℕ → List ℕ → List ℕ
step true node rest = node ∷ rest
step false node rest = rest

-- The nodes that an edge joins to a node of the level, by both parts of the union.
unfoldable pub neighbours : (level : ℕ) → List Reached → List Edge → List ℕ
unfolding exists_in
neighbours level reach [] = []
neighbours level reach (e ∷ es) =
    step (exists_in (is_at e.from_node level) reach) e.to_node
      (step (exists_in (is_at e.to_node level) reach) e.from_node (neighbours level reach es))

-- `SELECT DISTINCT`
unfoldable pub distinct : List ℕ → List ℕ
unfolding exists_in
distinct [] = []
distinct (n ∷ ns) = let rest = distinct ns in if exists_in (λ m. m == n) ns then rest else n ∷ rest

-- `q_next`
unfoldable pub next_nodes : (level : ℕ) → List Reached → List Edge → List ℕ
unfolding neighbours distinct select exists_in
next_nodes level reach edges =
    distinct (select (λ n. not (exists_in (is_node n) reach)) (neighbours level reach edges))

abbrev pub at_level : (level : ℕ) → ℕ → Reached
at_level level n = record { node_id = n; level = level }

-- One turn of `for level in range(depth)`
unfoldable pub expand : (level : ℕ) → List Edge → List Reached → List Reached
unfolding next_nodes
expand level edges reach = reach ++ map (at_level (level + 1)) (next_nodes level reach edges)

-- `q_reach` after the turns below `depth`
unfoldable pub grow : (source depth : ℕ) → List Edge → List Reached
unfolding expand
grow source zero edges = at_level 0 source ∷ []
grow source (suc level) edges = expand level edges (grow source level edges)

abbrev pub is_inside : (depth node : ℕ) → Reached → Bool
is_inside depth node r = r.node_id == node && ltb r.level depth

-- `q_edges`
abbrev pub touches : (depth : ℕ) → List Reached → Edge → Bool
touches depth reach e =
    exists_in (is_inside depth e.from_node) reach || exists_in (is_inside depth e.to_node) reach

unfoldable pub edges_within : (depth : ℕ) → List Reached → List Edge → List Edge
unfolding select exists_in
edges_within depth reach edges = select (touches depth reach) edges
