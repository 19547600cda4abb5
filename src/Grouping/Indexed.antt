-- ===== src/Grouping/Indexed.antt =====
-- The loop of `materialize` in app/engine/grouping_materializer.py: pages of findings against a
-- private index.
use trace_x.Common.{
  ℕ, ◌+◌, Bool, not, Option, none, some, List, [], ◌∷◌, ◌++◌, map, ◌==◌, if◌then◌else◌, select,
  exists_in,
}
use trace_x.Grouping.Model.{
  Texts, Edge, Finding, Group, Anchor, Kind, Subject, GroupSubject, Generation, max_members,
  no_rows,
}
use trace_x.Grouping.Observe.{path_edges, read_edges, observations}
use trace_x.Grouping.Reference.{
  Inputs, Observed, observe, is_bounded, connects, first_fit, new_group, anchor_rows, add_all,
  replace_all, has_subject, subjects_of, subject_row, is_kind, grown, replace_group,
}

-- `requested` of `_Edges`
unfoldable pub requested : Texts → (page : List Finding) → List ℕ
requested texts [] = []
requested texts (f ∷ fs) =
    let rest = requested texts fs in
    if texts.is_peeling f.rule_id then path_edges f ++ rest else rest

abbrev pub has_edge_id : ℕ → Edge → Bool
has_edge_id id e = e.edge_id == id

-- `self.rows.get(edge_id, ())` for each of the ids.
unfoldable pub serve : (fetched : List Edge) → (edge_ids : List ℕ) → List Edge
unfolding select
serve fetched [] = []
serve fetched (id ∷ ids) = select (has_edge_id id) fetched ++ serve fetched ids

-- `_Edges(graph, page)` with its `execute` and `fetchall`.
abbrev pub page_edges : Texts → List Edge → (page : List Finding) → List ℕ → List Edge
page_edges texts edges page edge_ids = serve (read_edges edges (requested texts page)) edge_ids

-- The private index: the rows of the generation, and the anchors that are looked up.
pub record Index : Type 0 where
  pub rows : Generation
  pub eligible_anchors : List Anchor

-- `INSERT OR IGNORE INTO subjects`, with the counts of what is inserted.
unfoldable pub insert_subjects :
    (group_id : ℕ) → List Subject → List GroupSubject → ℕ × ℕ × List GroupSubject
unfolding exists_in
insert_subjects group_id [] rows = (0, 0, rows)
insert_subjects group_id (s ∷ ss) rows =
    let (kept_txs, kept_entities, kept) = insert_subjects group_id ss rows in
    let (new_txs, new_entities, grown_rows) =
      insert_subjects group_id ss (subject_row group_id s ∷ rows) in
    if has_subject group_id rows s then (kept_txs, kept_entities, kept) else (
      (if is_kind Kind.of_transaction s then 1 else 0) + new_txs,
      (if is_kind Kind.of_entity s then 1 else 0) + new_entities,
      grown_rows,
    )

abbrev pub other_group : (group_id : ℕ) → Anchor → Bool
other_group group_id a = not (a.group_id == group_id)

-- `DELETE FROM eligible_anchors` when the group is full.
abbrev pub without_full : Group → List Anchor → List Anchor
without_full g anchors =
    if g.member_count + 1 == max_members then select (other_group g.id) anchors else anchors

abbrev pub chosen_indexed : Inputs → Observed → Index → Option Group → Group × Index
chosen_indexed i o index (some g) = (g, index)
chosen_indexed i o index none =
    let g = new_group i o in
    let added = if is_bounded o.finding then anchor_rows g.id o.anchors else [] in
    let gen = index.rows in
    (
      g,
      record {
        rows = record gen { groups = g ∷ gen.groups; anchors = add_all added gen.anchors };
        eligible_anchors = add_all added index.eligible_anchors;
      },
    )

abbrev pub join_indexed : Inputs → Observed → Group × Index → Index
join_indexed i o (g, index) =
    let gen = index.rows in
    let (new_txs, new_entities, subjects) = insert_subjects g.id (subjects_of o) gen.subjects in
    record {
      rows = record gen {
        groups = map (replace_group (grown o.finding new_txs new_entities g)) gen.groups;
        members =
            record { group_id = g.id; finding_id = o.finding.id; ordinal = g.member_count }
            ∷ gen.members;
        subjects = subjects;
        replacements = replace_all g.id (i.previous o.finding.id) gen.replacements;
      };
      eligible_anchors = without_full g index.eligible_anchors;
    }

abbrev pub found_indexed : Observed → Index → Option Group
found_indexed o index =
    if connects o then first_fit index.eligible_anchors o index.rows.groups else none

unfoldable pub place_indexed : Inputs → Observed → Index → Index
unfolding first_fit add_all replace_all insert_subjects select
place_indexed i o index = join_indexed i o (chosen_indexed i o index (found_indexed o index))

-- The loop over a page; `page` is the whole page, whose edges are read at once.
unfoldable pub place_page : Inputs → (page : List Finding) → List Finding → Index → Index
unfolding place_indexed requested serve observations
place_page i page [] index = index
place_page i page (f ∷ fs) index =
    place_page i page fs (place_indexed i (observe i (page_edges i.texts i.edges page) f) index)

unfoldable pub place_pages : Inputs → (pages : List (List Finding)) → Index → Index
unfolding place_page
place_pages i [] index = index
place_pages i (page ∷ pages) index = place_pages i pages (place_page i page page index)

abbrev pub empty_index : Index
empty_index = record { rows = no_rows; eligible_anchors = [] }
