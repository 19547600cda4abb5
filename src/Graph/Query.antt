-- ===== src/Graph/Query.antt =====
-- query_neighbourhood and its cursors, of app/engine/graph/query.py.
use trace_x.Common.{
  ℕ, zero, suc, ◌+◌, ◌-◌, Bool, true, false, ◌&&◌, ◌||◌, not, Option, none, some, List, [], ◌∷◌,
  ◌==◌, ltb, leb, if◌then◌else◌, length, take, select, exists_in,
}
use trace_x.Common.Sort.{sort_by}
use trace_x.Graph.Reach.{Edge, Reached, is_node, grow, edges_within}

-- What a cursor is bound to. Identifiers and digests, which are compared only, are numbers.
pub record Binding : Type 0 where
  pub version : ℕ
  pub case_id : ℕ
  pub graph_id : ℕ
  pub sha256 : ℕ
  pub seed : ℕ
  pub depth : ℕ
  pub node_limit : ℕ
  pub edge_limit : ℕ

abbrev pub same_binding : Binding → Binding → Bool
same_binding v b =
    v.version == b.version
    && v.case_id == b.case_id
    && v.graph_id == b.graph_id
    && v.sha256 == b.sha256
    && v.seed == b.seed
    && v.depth == b.depth
    && v.node_limit == b.node_limit
    && v.edge_limit == b.edge_limit

-- The object in a cursor; an offset that is no natural number is `none`.
pub record Payload : Type 0 where
  pub binding : Binding
  pub nodes_offset : Option ℕ
  pub edges_offset : Option ℕ

-- The library functions behind a cursor: JSON, URL-safe base64 and the keyed digest, and the length,
-- the joining and the splitting of a token's text.
pub record Wire (Text Raw Code : Type 0) : Type 0 where
  pub dumps : Payload → Raw
  pub loads : Raw → Option Payload
  pub b64encode : Raw → Code
  pub b64decode : Code → Option Raw
  pub digest : Raw → ℕ
  pub size : Text → ℕ
  pub join : Code → (signature : ℕ) → Text
  pub split : Text → Option (Code × ℕ)

pub record Snapshot : Type 0 where
  pub nodes : List ℕ
  pub edges : List Edge

pub data GraphQueryError : Type 0 where
  bad_depth : GraphQueryError
  bad_limits : GraphQueryError
  bad_cursor : GraphQueryError

pub data Reply (A : Type 0) : Type 0 where
  refused : GraphQueryError → Reply A
  answered : A → Reply A

pub record Answer (Text : Type 0) : Type 0 where
  pub nodes : List ℕ
  pub edges : List Edge
  pub truncated_nodes : ℕ
  pub truncated_edges : ℕ
  pub cursor : Option Text

-- `OFFSET`
abbrev pub drop {ℓ} : {A : Type ℓ} → ℕ → List A → List A
drop zero xs = xs
drop (suc n) [] = []
drop (suc n) (x ∷ xs) = drop n xs

-- `LIMIT ? OFFSET ?`
abbrev pub page_of {ℓ} : {A : Type ℓ} → (limit offset : ℕ) → List A → List A
page_of limit offset xs = take limit (drop offset xs)

-- `ORDER BY n.node_id != ?, n.node_id`
abbrev pub node_before : (source : ℕ) → ℕ → ℕ → Bool
node_before source a b = if a == source then true else if b == source then false else leb a b

abbrev pub edge_before : Edge → Edge → Bool
edge_before e f = leb e.edge_id f.edge_id

-- The rows of `nodes n JOIN q_reach r` in their order
unfoldable pub node_rows : (source : ℕ) → List Reached → List ℕ → List ℕ
unfolding select exists_in sort_by
node_rows source reach nodes =
    sort_by (node_before source) (select (λ n. exists_in (is_node n) reach) nodes)

unfoldable pub edge_rows : List Edge → List Edge
unfolding sort_by
edge_rows edges = sort_by edge_before edges

-- The offsets of a payload that is bound to the same query
unfoldable pub offsets_for : Binding → Option Payload → Option (ℕ × ℕ)
offsets_for b none = none
offsets_for b (some v) =
    if same_binding v.binding b then both v.nodes_offset v.edges_offset else none
  where
    both : Option ℕ → Option ℕ → Option (ℕ × ℕ)
    both none m = none
    both (some n) none = none
    both (some n) (some m) = some (n, m)

abbrev pub payload_at : Binding → (nodes_offset edges_offset : ℕ) → Payload
payload_at b n m = record { binding = b; nodes_offset = some n; edges_offset = some m }

module _ {Text Raw Code : Type 0} (wire : Wire Text Raw Code) where
  -- `_cursor`
  unfoldable pub cursor_of : Payload → Text
  cursor_of payload =
      let raw = wire.dumps payload in wire.join (wire.b64encode raw) (wire.digest raw)

  unfoldable pub checked_raw : (signature : ℕ) → Binding → Option Raw → Option (ℕ × ℕ)
  unfolding offsets_for
  checked_raw signature b none = none
  checked_raw signature b (some raw) =
      if signature == wire.digest raw then offsets_for b (wire.loads raw) else none

  unfoldable pub checked_parts : Binding → Option (Code × ℕ) → Option (ℕ × ℕ)
  unfolding checked_raw
  checked_parts b none = none
  checked_parts b (some (encoded, signature)) = checked_raw signature b (wire.b64decode encoded)

  -- `_decode_cursor`; `none` is its GraphQueryError.
  unfoldable pub decode_cursor : Text → Binding → Option (ℕ × ℕ)
  unfolding checked_parts
  decode_cursor token b =
      if ltb 4096 (wire.size token) then none else checked_parts b (wire.split token)

  unfoldable pub starting_at : Binding → Option Text → Option (ℕ × ℕ)
  unfolding decode_cursor
  starting_at b none = some (0, 0)
  starting_at b (some token) = decode_cursor token b

  -- The answer behind the offsets. A cursor of the service never has an offset beyond a total, where
  -- the source's truncated numbers are negative and these are 0.
  unfoldable pub page_at : Snapshot → Binding → (ℕ × ℕ) → Answer Text
  unfolding grow edges_within node_rows edge_rows cursor_of
  page_at s b (n, m) =
      let reach = grow b.seed b.depth s.edges in
      let within = edges_within b.depth reach s.edges in
      let node_page = page_of b.node_limit n (node_rows b.seed reach s.nodes) in
      let edge_page = page_of b.edge_limit m (edge_rows within) in
      let n' = n + length node_page in
      let m' = m + length edge_page in
      record {
        nodes = node_page;
        edges = edge_page;
        truncated_nodes = length reach - n';
        truncated_edges = length within - m';
        cursor =
            if length reach == n' && length within == m'
            then none
            else some (cursor_of (payload_at b n' m'));
      }

  abbrev pub nothing : Answer Text
  nothing = record {
    nodes = [];
    edges = [];
    truncated_nodes = 0;
    truncated_edges = 0;
    cursor = none;
  }

  unfoldable pub answer_at : Snapshot → Binding → Option (ℕ × ℕ) → Reply (Answer Text)
  unfolding page_at exists_in
  answer_at s b none = refused bad_cursor
  answer_at s b (some offsets) =
      if exists_in (λ n. n == b.seed) s.nodes
      then answered (page_at s b offsets)
      else answered nothing

  unfoldable pub query_neighbourhood : Snapshot → Binding → Option Text → Reply (Answer Text)
  unfolding starting_at answer_at
  query_neighbourhood s b cursor =
      if not (leb 1 b.depth && leb b.depth 5)
      then refused bad_depth
      else if not (leb 1 b.node_limit && leb b.node_limit 1000)
          || not (leb 1 b.edge_limit && leb b.edge_limit 3000)
      then refused bad_limits
      else answer_at s b (starting_at b cursor)
