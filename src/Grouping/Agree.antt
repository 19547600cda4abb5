-- ===== src/Grouping/Agree.antt =====
-- One turn of the indexed loop does what a turn of the reference does.
use trace_x.Common.{
  ℕ, ◌+◌, ◌≡◌, ◌≢◌, refl, sym, ◌∙◌, ap, subst, inl, inr, Bool, true, false, Option, none, some,
  List, [], ◌∷◌, map, arith, ◌==◌, if◌then◌else◌, All, Any, All-mono, All-Any, Bool-cases,
}
use trace_x.Common.Select.{All-kept}
use trace_x.Grouping.Model.{Finding, Group, Anchor, Generation, max_members}
use trace_x.Grouping.Reference.{
  Inputs, Observed, is_bounded, connects, anchor_rows, add_all, chosen, join, found, place,
  subjects_of, grown, replace_group,
}
use trace_x.Grouping.Indexed.{
  Index, insert_subjects, without_full, other_group, chosen_indexed, join_indexed, found_indexed,
  place_indexed,
}
use trace_x.Grouping.Lookup.{
  SameAt, SameAt-add_all, SameAt-unanchored, SameAt-other_group, IsUnanchored, All-add_all, HasRoom,
  IsServed, first_fit-same, first_fit-held,
}
use trace_x.Grouping.Distinct.{IsDistinct, insert_subjects-eq}

abbrev pub gid : Inputs → Finding → ℕ
gid i f = i.texts.group_id i.run_id f.id

-- The lookups of the index are right for the groups that have room, and the groups that the pending
-- findings would open have no anchors yet.
pub record IsIndex (i : Inputs) (pending : List Finding) (index : Index) : Type 0 where
  pub served : All (IsServed index.eligible_anchors index.rows.anchors) index.rows.groups
  pub fresh_anchors : All (λ f. IsUnanchored (gid i f) index.rows.anchors) pending
  pub fresh_eligible : All (λ f. IsUnanchored (gid i f) index.eligible_anchors) pending

-- The other findings would open other groups.
abbrev pub IsApart : Inputs → Finding → List Finding → Type 0
IsApart i f fs = All (λ (g : Finding). gid i f ≢ gid i g) fs

found_indexed-eq :
    (i : Inputs) (o : Observed) (pending : List Finding) (index : Index)
    → IsIndex i pending index
    → found_indexed o index ≡ found o index.rows
found_indexed-eq i o pending index v =
    ap (λ m. if connects o then m else none)
      (first_fit-same index.eligible_anchors index.rows.anchors o index.rows.groups v.served)

anchor_rows-apart :
    (id other : ℕ) (tokens : List ℕ) → other ≢ id → IsUnanchored id (anchor_rows other tokens)
anchor_rows-apart id other [] ne = tt
anchor_rows-apart id other (t ∷ ts) ne = (ne, anchor_rows-apart id other ts ne)

abbrev opened : Inputs → Observed → List Anchor
opened i o = if is_bounded o.finding then anchor_rows (gid i o.finding) o.anchors else []

opened-apart :
    (i : Inputs) (o : Observed) (id : ℕ) → gid i o.finding ≢ id → IsUnanchored id (opened i o)
opened-apart i o id ne = elim (Bool-cases (is_bounded o.finding)) [
  | inl bounded ↦ rw bounded (anchor_rows-apart id (gid i o.finding) o.anchors ne)
  | inr long ↦ rw long tt
]

-- What holds of the chosen group and the index behind the choice.
record ChoiceAgrees (i : Inputs) (o : Observed) (pending : List Finding) (index : Index)
    (m : Option Group) : Type 0 where
  same_group : (chosen_indexed i o index m).0 ≡ (chosen i o index.rows m).0
  same_rows : (chosen_indexed i o index m).1.rows ≡ (chosen i o index.rows m).1
  valid : IsIndex i pending (chosen_indexed i o index m).1
  same_at :
      SameAt
        (chosen_indexed i o index m).1.eligible_anchors
        (chosen_indexed i o index m).1.rows.anchors
        (chosen_indexed i o index m).0.id

found-HasRoom :
    (o : Observed) (gen : Generation) {g : Group}
    → found o gen ≡ some g
    → Any (λ x. x ≡ g) gen.groups × HasRoom g
found-HasRoom o gen {g} e = elim (Bool-cases (connects o)) [
  | inl so ↦
      let (m, fit) = first_fit-held gen.anchors o gen.groups (rw so at e) in
      (m, ground (arith, fit))
  | inr apart ↦ absurd (cc (rw apart at e))
]

chosen_indexed-ChoiceAgrees :
    (i : Inputs) (o : Observed) (pending : List Finding) (index : Index) (m : Option Group)
    → IsIndex i (o.finding ∷ pending) index
    → IsApart i o.finding pending
    → found o index.rows ≡ m
    → ChoiceAgrees i o pending index m
chosen_indexed-ChoiceAgrees i o pending index (some g) v ap_ e =
    let (m, room) = found-HasRoom o index.rows e in
    record {
      same_group = refl;
      same_rows = refl;
      valid = record {
        served = v.served;
        fresh_anchors = v.fresh_anchors.1;
        fresh_eligible = v.fresh_eligible.1;
      };
      same_at =
          All-Any (IsServed index.eligible_anchors index.rows.anchors) index.rows.groups v.served m
            room;
    }
chosen_indexed-ChoiceAgrees i o pending index none v apart e =
    let added = opened i o in
    let eligible = index.eligible_anchors in
    let anchors = index.rows.anchors in
    let new_same =
      SameAt-add_all added eligible anchors (gid i o.finding) (
        SameAt-unanchored eligible anchors (gid i o.finding) v.fresh_eligible.0
          v.fresh_anchors.0) in
    let still : (rows : List Anchor)
        → All (λ f. IsUnanchored (gid i f) rows) pending
        → All (λ f. IsUnanchored (gid i f) (add_all added rows)) pending =
      λ rows h. keep_fresh rows pending h apart in
    record {
      same_group = refl;
      same_rows = refl;
      valid = record {
        served = (
          λ _. new_same,
          All-mono index.rows.groups
              (λ g (h : IsServed eligible anchors g) room.
                SameAt-add_all added eligible anchors g.id (h room))
              v.served,
        );
        fresh_anchors = still anchors v.fresh_anchors.1;
        fresh_eligible = still eligible v.fresh_eligible.1;
      };
      same_at = new_same;
    }
  where
    keep_fresh :
        (rows : List Anchor) (fs : List Finding)
        → All (λ f. IsUnanchored (gid i f) rows) fs
        → IsApart i o.finding fs
        → All (λ f. IsUnanchored (gid i f) (add_all (opened i o) rows)) fs
    keep_fresh rows [] h a = tt
    keep_fresh rows (f ∷ fs) h a = (
      All-add_all (λ (x : Anchor). x.group_id ≢ gid i f) (opened i o) rows
          (opened-apart i o (gid i f) a.0) h.0,
      keep_fresh rows fs h.1 a.1,
    )

without_full-fresh :
    (i : Inputs) (g : Group) (rows : List Anchor) (fs : List Finding)
    → All (λ f. IsUnanchored (gid i f) rows) fs
    → All (λ f. IsUnanchored (gid i f) (without_full g rows)) fs
without_full-fresh i g rows fs h = elim (Bool-cases (g.member_count + 1 == max_members)) [
  | inl full ↦ rw full (
      All-mono fs
        (λ f (k : IsUnanchored (gid i f) rows).
          All-kept (other_group g.id) (λ (x : Anchor). x.group_id ≢ gid i f) rows k)
        h)
  | inr room ↦ rw room h
]

-- After a member is added to its group, the lookups are still right for the groups that have room.
joined_served :
    (o : Observed) (g : Group) (txs entities : ℕ) (eligible anchors : List Anchor) (gs : List Group)
    → SameAt eligible anchors g.id
    → All (IsServed eligible anchors) gs
    → All
        (IsServed (without_full g eligible) anchors)
        (map (replace_group (grown o.finding txs entities g)) gs)
joined_served o g txs entities eligible anchors [] same h = tt
joined_served o g txs entities eligible anchors (x ∷ xs) same h =
    (one (x.id == g.id) refl, joined_served o g txs entities eligible anchors xs same h.1)
  where
    one :
        (b : Bool)
        → (x.id == g.id) ≡ b
        → IsServed
            (without_full g eligible)
            anchors
            (if b then grown o.finding txs entities g else x)
    one true mine room =
        let not_full : (g.member_count + 1 == max_members) ≡ false = ground (arith, room) in
        rw not_full same
    one false theirs room = elim (Bool-cases (g.member_count + 1 == max_members)) [
      | inl full ↦ rw full (
          SameAt-other_group g.id x.id eligible anchors (λ e. ground (arith, e, theirs)) (h.0 room))
      | inr not_full ↦ rw not_full (h.0 room)
    ]

join_indexed-rows :
    (i : Inputs) (o : Observed) (g : Group) (index : Index)
    → IsDistinct (subjects_of o)
    → (join_indexed i o (g, index)).rows ≡ join i o (g, index.rows)
join_indexed-rows i o g index d =
    rw (insert_subjects-eq g.id (subjects_of o) index.rows.subjects d) refl

join_indexed-IsIndex :
    (i : Inputs) (o : Observed) (g : Group) (pending : List Finding) (index : Index)
    → SameAt index.eligible_anchors index.rows.anchors g.id
    → IsIndex i pending index
    → IsIndex i pending (join_indexed i o (g, index))
join_indexed-IsIndex i o g pending index same v = record {
  served =
      joined_served o g (insert_subjects g.id (subjects_of o) index.rows.subjects).0
        (insert_subjects g.id (subjects_of o) index.rows.subjects).1 index.eligible_anchors
        index.rows.anchors index.rows.groups same v.served;
  fresh_anchors = v.fresh_anchors;
  fresh_eligible = without_full-fresh i g index.eligible_anchors pending v.fresh_eligible;
}

pub place_indexed-eq :
    (i : Inputs) (o : Observed) (pending : List Finding) (index : Index)
    → IsIndex i (o.finding ∷ pending) index
    → IsApart i o.finding pending
    → IsDistinct (subjects_of o)
    → ((place_indexed i o index).rows ≡ place i o index.rows)
      × IsIndex i pending (place_indexed i o index)
unfolding place_indexed place
place_indexed-eq i o pending index v apart d =
    let m = found o index.rows in
    let same = found_indexed-eq i o (o.finding ∷ pending) index v in
    let c = chosen_indexed-ChoiceAgrees i o pending index m v apart refl in
    let (g, index') = chosen_indexed i o index m in
    subst
      (λ r.
        ((join_indexed i o (chosen_indexed i o index r)).rows ≡ join i o (chosen i o index.rows m))
        × IsIndex i pending (join_indexed i o (chosen_indexed i o index r)))
      (sym same)
      (
        join_indexed-rows i o g index' d ∙ (λ k. join i o (c.same_group k, c.same_rows k)),
        join_indexed-IsIndex i o g pending index' c.same_at c.valid,
      )
