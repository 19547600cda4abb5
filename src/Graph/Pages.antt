-- ===== src/Graph/Pages.antt =====
-- Following the cursors of query_neighbourhood in app/engine/graph/query.py.
use trace_x.Common.{
  ℕ, zero, suc, ◌≤◌, ◌≡◌, refl, arith, false, Option, none, some, List, ◌++◌, ==_refl, ltb,
  if◌then◌else◌,
}
use trace_x.Graph.Reach.{Edge, grow, edges_within}
use trace_x.Graph.Query.{
  Binding, same_binding, Payload, Wire, Snapshot, Reply, refused, answered, Answer, node_rows,
  edge_rows, cursor_of, decode_cursor, payload_at, query_neighbourhood,
}

-- What the library functions promise on what a cursor holds.
pub record IsFaithful {Text Raw Code : Type 0} (wire : Wire Text Raw Code) : Type 0 where
  pub loads-dumps : (p : Payload) → wire.loads (wire.dumps p) ≡ some p
  pub b64decode-b64encode : (raw : Raw) → wire.b64decode (wire.b64encode raw) ≡ some raw
  pub split-join :
      (raw : Raw)
      → wire.split (wire.join (wire.b64encode raw) (wire.digest raw))
        ≡ some (wire.b64encode raw, wire.digest raw)

-- A client that follows the cursors, joining the pages.
module _ {Text : Type 0} where
  unfoldable pub put_before :
      Answer Text → Option (List ℕ × List Edge) → Option (List ℕ × List Edge)
  put_before a none = none
  put_before a (some (ns, es)) = some (a.nodes ++ ns, a.edges ++ es)

  unfoldable pub next_page :
      Answer Text
      → Option Text
      → (Option Text → Option (List ℕ × List Edge))
      → Option (List ℕ × List Edge)
  unfolding put_before
  next_page a none go = some (a.nodes, a.edges)
  next_page a (some token) go = put_before a (go (some token))

  unfoldable pub then_read :
      Reply (Answer Text)
      → (Option Text → Option (List ℕ × List Edge))
      → Option (List ℕ × List Edge)
  unfolding next_page
  then_read (refused e) go = none
  then_read (answered a) go = next_page a a.cursor go

unfoldable pub read_on :
    {Text Raw Code : Type 0} (wire : Wire Text Raw Code)
    → Snapshot
    → Binding
    → (fuel : ℕ) → Option Text
    → Option (List ℕ × List Edge)
unfolding then_read query_neighbourhood
read_on wire s b zero cursor = none
read_on wire s b (suc k) cursor =
    then_read (query_neighbourhood wire s b cursor) (read_on wire s b k)

-- All rows of the answer, in their order.
unfoldable pub nodes_of : Snapshot → Binding → List ℕ
unfolding grow node_rows
nodes_of s b = node_rows b.seed (grow b.seed b.depth s.edges) s.nodes

unfoldable pub edges_of : Snapshot → Binding → List Edge
unfolding grow edges_within edge_rows
edges_of s b = edge_rows (edges_within b.depth (grow b.seed b.depth s.edges) s.edges)

module _ {Text Raw Code : Type 0} (wire : Wire Text Raw Code) (ok : IsFaithful wire) where
  -- Where the library functions read back what they wrote, and a cursor has at most 4096 characters, it
  -- gives its offsets to a query with the same binding, and is refused for any other.
  pub decode_cursor-cursor_of :
      (b b' : Binding) (n m : ℕ)
      → wire.size (cursor_of wire (payload_at b n m)) ≤ 4096
      → decode_cursor wire (cursor_of wire (payload_at b n m)) b'
        ≡ (if same_binding b b' then some (n, m) else none)
  unfolding decode_cursor cursor_of
  decode_cursor-cursor_of b b' n m fits =
      let raw = wire.dumps (payload_at b n m) in
      let fits' : ltb 4096 (wire.size (wire.join (wire.b64encode raw) (wire.digest raw))) ≡ false =
        ground arith in
      rw (fits', ok.split-join raw)
        (rw (ok.b64decode-b64encode raw)
          (rw (==_refl (wire.digest raw), ok.loads-dumps (payload_at b n m)) refl))
