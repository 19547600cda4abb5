-- ===== src/Grouping/Reference.antt =====
-- The loop of `materialize` in app/engine/investigations.py, on the rows of its run: each of its
-- queries is restricted to them.
use trace_x.Common.{
  ℕ, ◌+◌, ◌*◌, ◌/◌, Bool, true, false, ◌&&◌, ◌||◌, not, Option, none, some, List, [], ◌∷◌, ◌++◌,
  map, ◌==◌, ltb, leb, if◌then◌else◌, select, exists_in, length,
}
use trace_x.Grouping.Model.{
  Texts, same_ref, Edge, Finding, Group, Anchor, Kind, Subject, GroupSubject, Replacement,
  Generation, max_members, episode_seconds,
}
use trace_x.Grouping.Observe.{observations, read_edges, set_of, is_none_left}

-- What a run reads: the texts, the edges, the participation of findings, and the groups of earlier
-- complete runs that have a finding.
pub record Inputs : Type 0 where
  pub texts : Texts
  pub run_id : ℕ
  pub edges : List Edge
  pub participation : (finding_id : ℕ) → List ℕ
  pub previous : (finding_id : ℕ) → List ℕ

-- `int(start.timestamp()) // 86400 * 86400`
abbrev pub episode_of : (start : ℕ) → ℕ
episode_of start = start / episode_seconds * episode_seconds

abbrev pub is_bounded : Finding → Bool
is_bounded f =
    leb f.window_end (episode_of f.window_start + episode_seconds)
    && leb f.window_start f.window_end

-- The finding with its observations, its participation added.
pub record Observed : Type 0 where
  pub finding : Finding
  pub anchors : List ℕ
  pub txs : List ℕ
  pub entities : List ℕ
  pub family : ℕ
  pub peeling : Bool

abbrev pub observe : Inputs → (read : List ℕ → List Edge) → Finding → Observed
observe i read f =
    let seen = observations i.texts read f in
    record {
      finding = f;
      anchors = seen.anchors;
      txs = set_of (seen.txs ++ i.participation f.id);
      entities = seen.entities;
      family = i.texts.family_of f.rule_id f.rule_version;
      peeling = i.texts.is_peeling f.rule_id;
    }

-- `InvestigationAnchor.token.in_(anchors)`, for the anchors of a group.
abbrev pub anchored : (group_id : ℕ) (tokens : List ℕ) → Anchor → Bool
anchored group_id tokens a = (a.group_id == group_id) && exists_in (λ t. t == a.token) tokens

-- `InvestigationGroup.focal_ref == finding.entity_ref`, unless the finding is of a peeling rule.
abbrev pub focal_fits : Observed → Group → Bool
focal_fits o g = o.peeling || same_ref g.focal_ref o.finding.entity_ref

-- The `where` of the match, on the anchors that it joins.
abbrev pub fits : List Anchor → Observed → Group → Bool
fits anchors o g =
    (g.family == o.family)
    && (g.episode_start == episode_of o.finding.window_start)
    && ltb g.member_count max_members
    && exists_in (anchored g.id o.anchors) anchors
    && focal_fits o g

abbrev pub lower_id : Bool → Group → Option Group → Option Group
lower_id false g best = best
lower_id true g none = some g
lower_id true g (some other) = if ltb other.id g.id then some other else some g

-- `order_by(InvestigationGroup.id).limit(1)`
unfoldable pub first_fit : List Anchor → Observed → List Group → Option Group
unfolding exists_in
first_fit anchors o [] = none
first_fit anchors o (g ∷ gs) = lower_id (fits anchors o g) g (first_fit anchors o gs)

-- `if anchors and bounded`
abbrev pub connects : Observed → Bool
connects o = not (is_none_left o.anchors) && is_bounded o.finding

abbrev pub new_group : Inputs → Observed → Group
new_group i o = record {
  id = i.texts.group_id i.run_id o.finding.id;
  family = o.family;
  peeling = o.peeling;
  focal_ref = o.finding.entity_ref;
  episode_start = episode_of o.finding.window_start;
  window_start = o.finding.window_start;
  window_end = o.finding.window_end;
  representative_id = o.finding.id;
  representative_score = o.finding.raw_score;
  representative_anchors = length o.anchors;
  is_singleton = not (connects o);
  member_count = 0;
  transaction_count = 0;
  entity_count = 0;
}

-- Rows are added one after another.
unfoldable pub add_all {ℓ} : {A : Type ℓ} → List A → List A → List A
add_all [] rows = rows
add_all (x ∷ xs) rows = add_all xs (x ∷ rows)

abbrev pub anchor_rows : (group_id : ℕ) → List ℕ → List Anchor
anchor_rows group_id tokens = map (λ t. record { group_id = group_id; token = t }) tokens

-- The group of a finding: one that fits, or a new one with the finding's anchors.
abbrev pub open_group : Inputs → Observed → Generation → Group × Generation
open_group i o gen =
    let g = new_group i o in
    let rows = if is_bounded o.finding then anchor_rows g.id o.anchors else [] in
    (g, record gen { groups = g ∷ gen.groups; anchors = add_all rows gen.anchors })

abbrev pub chosen : Inputs → Observed → Generation → Option Group → Group × Generation
chosen i o gen none = open_group i o gen
chosen i o gen (some g) = (g, gen)

abbrev pub same_replacement : (prior new_id : ℕ) → Replacement → Bool
same_replacement prior new_id r = (r.prior_id == prior) && (r.replacement_id == new_id)

-- `if session.get(InvestigationReplacement, (old, group.id)) is None`
unfoldable pub replace_all : (new_id : ℕ) → List ℕ → List Replacement → List Replacement
unfolding exists_in
replace_all new_id [] rows = rows
replace_all new_id (old ∷ olds) rows = replace_all new_id olds (
    if exists_in (same_replacement old new_id) rows
    then rows
    else record { prior_id = old; replacement_id = new_id } ∷ rows)

abbrev pub same_kind : Kind → Kind → Bool
same_kind Kind.of_transaction Kind.of_transaction = true
same_kind Kind.of_entity Kind.of_entity = true
same_kind _ _ = false

abbrev pub same_subject : Subject → Subject → Bool
same_subject a b = same_kind a.kind b.kind && (a.ref == b.ref)

abbrev pub has_subject : (group_id : ℕ) → List GroupSubject → Subject → Bool
has_subject group_id rows s =
    exists_in (λ (r : GroupSubject). (r.group_id == group_id) && same_subject r.subject s) rows

-- `sorted({("transaction", ref) ...} | {("entity", ref) ...})`: "entity" comes first.
abbrev pub subjects_of : Observed → List Subject
subjects_of o =
    map (λ r. record { kind = Kind.of_entity; ref = r }) o.entities
    ++ map (λ r. record { kind = Kind.of_transaction; ref = r }) o.txs

abbrev pub is_kind : Kind → Subject → Bool
is_kind k s = same_kind s.kind k

abbrev pub subject_row : (group_id : ℕ) → Subject → GroupSubject
subject_row group_id s = record { group_id = group_id; subject = s }

abbrev pub is_new : (group_id : ℕ) → List GroupSubject → Subject → Bool
is_new group_id rows s = not (has_subject group_id rows s)

-- `subjects - existing`, with the rows and the two counts that it adds.
abbrev pub add_subjects :
    (group_id : ℕ) → List Subject → List GroupSubject → ℕ × ℕ × List GroupSubject
add_subjects group_id subjects rows =
    let fresh = select (is_new group_id rows) subjects in
    (
      length (select (is_kind Kind.of_transaction) fresh),
      length (select (is_kind Kind.of_entity) fresh),
      add_all (map (subject_row group_id) fresh) rows,
    )

abbrev pub min2 : ℕ → ℕ → ℕ
min2 a b = if leb a b then a else b

abbrev pub max2 : ℕ → ℕ → ℕ
max2 a b = if leb a b then b else a

abbrev pub grown : Finding → (new_txs new_entities : ℕ) → Group → Group
grown f new_txs new_entities g = record g {
  window_start = min2 g.window_start f.window_start;
  window_end = max2 g.window_end f.window_end;
  member_count = g.member_count + 1;
  transaction_count = g.transaction_count + new_txs;
  entity_count = g.entity_count + new_entities;
}

abbrev pub replace_group : Group → Group → Group
replace_group g row = if row.id == g.id then g else row

-- The finding becomes a member of its group.
abbrev pub join : Inputs → Observed → Group × Generation → Generation
join i o (g, gen) =
    let (new_txs, new_entities, rows) = add_subjects g.id (subjects_of o) gen.subjects in
    record gen {
      groups = map (replace_group (grown o.finding new_txs new_entities g)) gen.groups;
      members =
          record { group_id = g.id; finding_id = o.finding.id; ordinal = g.member_count }
          ∷ gen.members;
      subjects = rows;
      replacements = replace_all g.id (i.previous o.finding.id) gen.replacements;
    }

abbrev pub found : Observed → Generation → Option Group
found o gen = if connects o then first_fit gen.anchors o gen.groups else none

-- One turn of the loop.
unfoldable pub place : Inputs → Observed → Generation → Generation
unfolding first_fit add_all replace_all select
place i o gen = join i o (chosen i o gen (found o gen))

-- The loop over the findings in their order.
unfoldable pub place_all : Inputs → List Finding → Generation → Generation
unfolding place observations
place_all i [] gen = gen
place_all i (f ∷ fs) gen = place_all i fs (place i (observe i (read_edges i.edges) f) gen)
