-- ===== src/Grouping/Placed.antt =====
-- Where a finding goes: it joins a connected group that has room, or it opens one.
use trace_x.Common.{
  ◌≡◌, inl, inr, true, false, ◌&&◌, some, [], ◌∷◌, arith, if◌then◌else◌, exists_in, All, Any,
  Bool-cases,
}
use trace_x.Grouping.Model.{Group, Member, Generation}
use trace_x.Grouping.Reference.{
  Inputs, Observed, episode_of, is_bounded, connects, anchored, anchor_rows, focal_fits, fits,
  new_group, add_all, found,
}
use trace_x.Grouping.Lookup.{HasRoom, first_fit-held}

-- A group that a finding may join: it has room, is of the same rule and version and the same episode,
-- and an anchor of its representative is one of the finding's own; unless the rule is a peeling rule
-- it has the same focal reference.
pub record IsConnected (o : Observed) (gen : Generation) (g : Group) : Type 0 where
  pub held : Any (λ x. x ≡ g) gen.groups
  pub room : HasRoom g
  pub family : g.family ≡ o.family
  pub episode : g.episode_start ≡ episode_of o.finding.window_start
  pub bounded : is_bounded o.finding ≡ true
  pub shared : exists_in (anchored g.id o.anchors) gen.anchors ≡ true
  pub focal : focal_fits o g ≡ true

abbrev pub member_row : Group → Observed → Member
member_row g o = record { group_id = g.id; finding_id = o.finding.id; ordinal = g.member_count }

-- The two ways in which a turn of the loop changes the anchors and the members.
pub data IsPlaced (i : Inputs) (o : Observed) (gen after : Generation) : Type 0 where
  joins :
      (g : Group)
      → IsConnected o gen g
      → after.anchors ≡ gen.anchors
      → after.members ≡ member_row g o ∷ gen.members
      → IsPlaced i o gen after
  opens :
      All (λ (g : Group). (connects o && fits gen.anchors o g) ≡ false) gen.groups
      → after.anchors
        ≡ add_all
            (if is_bounded o.finding then anchor_rows (new_group i o).id o.anchors else [])
            gen.anchors
      → after.members ≡ member_row (new_group i o) o ∷ gen.members
      → IsPlaced i o gen after

pub found-IsConnected :
    (o : Observed) (gen : Generation) (g : Group) → found o gen ≡ some g → IsConnected o gen g
found-IsConnected o gen g e = elim (Bool-cases (connects o)) [
  | inr apart ↦ absurd (cc (rw apart at e))
  | inl so ↦
      let (m, fit) = first_fit-held gen.anchors o gen.groups (rw so at e) in
      record {
        held = m;
        room = ground (arith, fit);
        family = ground (arith, fit);
        episode = ground (arith, fit);
        bounded = ground (arith, so);
        shared = ground (arith, fit);
        focal = ground (arith, fit);
      }
]
