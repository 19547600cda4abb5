-- ===== src/Grouping/Observe.antt =====
-- `observations` of app/engine/investigations.py: what connects a finding to others. A set of texts
-- is the ascending list of them.
use trace_x.Common.{
  ℕ, Bool, true, false, ◌&&◌, not, Option, some, List, [], ◌∷◌, ◌++◌, map, ◌==◌, ltb, if◌then◌else◌,
  select, exists_in, take,
}
use trace_x.Grouping.Model.{Texts, EntityRef, Node, Edge, SourceRef, Finding}

-- `set.add`
unfoldable pub put : ℕ → List ℕ → List ℕ
put x [] = x ∷ []
put x (y ∷ ys) = if ltb x y then x ∷ y ∷ ys else if x == y then y ∷ ys else y ∷ put x ys

-- `sorted(set(xs))`
unfoldable pub set_of : List ℕ → List ℕ
unfolding put
set_of [] = []
set_of (x ∷ xs) = put x (set_of xs)

-- `sorted(set(path.get("edge_ids") or []))[:256]`
abbrev pub path_edges : Finding → List ℕ
path_edges finding = take 256 (set_of finding.edge_ids)

abbrev pub is_in : List ℕ → ℕ → Bool
is_in xs x = exists_in (λ y. y == x) xs

-- `SELECT from_node, to_node FROM edges WHERE edge_type='SPENT_BY' AND edge_id IN (...)`
abbrev pub read_edges : List Edge → (edge_ids : List ℕ) → List Edge
read_edges edges edge_ids = select (λ (e : Edge). is_in edge_ids e.edge_id) edges

-- The transactions at the ends of an edge.
abbrev pub ends : Node → Node → List ℕ
ends (Node.output txid vout) (Node.transaction spender) = txid ∷ spender ∷ []
ends _ _ = []

abbrev pub ends_of : Edge → List ℕ
ends_of e = ends e.from_node e.to_node

unfoldable pub all_ends : List Edge → List ℕ
all_ends [] = []
all_ends (e ∷ es) = ends_of e ++ all_ends es

abbrev pub focal_txs : EntityRef → List ℕ
focal_txs (EntityRef.tx t) = t ∷ []
focal_txs (EntityRef.entity e) = []

abbrev pub focal_entities : EntityRef → List ℕ
focal_entities (EntityRef.tx t) = []
focal_entities (EntityRef.entity e) = e ∷ []

abbrev source_anchor : Texts → Option ℕ → Option ℕ → Option ℕ → List ℕ
source_anchor texts (some evidence) (some locator) digest =
    texts.source_token evidence locator digest ∷ []
source_anchor texts _ _ digest = []

unfoldable pub source_anchors : Texts → List SourceRef → List ℕ
source_anchors texts [] = []
source_anchors texts (r ∷ rs) =
    source_anchor texts r.evidence_id r.locator r.source_sha256 ++ source_anchors texts rs

pub record Observations : Type 0 where
  pub anchors : List ℕ
  pub txs : List ℕ
  pub entities : List ℕ

abbrev pub is_none_left {ℓ} : {A : Type ℓ} → List A → Bool
is_none_left [] = true
is_none_left (x ∷ xs) = false

-- The connections of a path, given what the graph holds of it.
abbrev pub by_path : Texts → EntityRef → (rows : List Edge) → Observations
by_path texts ref rows =
    let txs = set_of (focal_txs ref ++ all_ends rows) in
    record {
      anchors =
          if is_none_left rows
          then []
          else set_of (map texts.sha256 (take 256 (set_of (map texts.utxo_token txs))));
      txs = txs;
      entities = focal_entities ref;
    }

abbrev pub by_source : Texts → EntityRef → List SourceRef → Observations
by_source texts ref refs = record {
  anchors = set_of (map texts.sha256 (take 256 (set_of (source_anchors texts refs))));
  txs = focal_txs ref;
  entities = focal_entities ref;
}

-- `observations`; `read` is the query of the cursor.
unfoldable pub observations : Texts → (read : List ℕ → List Edge) → Finding → Observations
unfolding set_of all_ends source_anchors
observations texts read finding =
    if texts.is_peeling finding.rule_id && not (is_none_left (path_edges finding))
    then by_path texts finding.entity_ref (read (path_edges finding))
    else by_source texts finding.entity_ref finding.source_refs
