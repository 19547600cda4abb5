-- ===== src/Grouping/Counted.antt =====
-- The counts of the groups of a run are right, and within the limit.
use trace_x.Common.{
  ℕ, suc, ◌≤◌, ◌<◌, ◌≡◌, ◌≢◌, refl, sym, ◌∙◌, Bool, true, false, Option, none, some, List, [], ◌∷◌,
  map, arith, ◌==◌, ==_iff, ==_refl, if◌then◌else◌, select, length, All, All-mono, All-Any,
}
use trace_x.Grouping.Model.{Finding, Group, Member, Generation, no_rows, max_members}
use trace_x.Grouping.Observe.{read_edges}
use trace_x.Grouping.Reference.{
  Inputs, Observed, observe, new_group, chosen, found, place, place_all, grown, replace_group,
}
use trace_x.Grouping.Agree.{gid, IsApart}
use trace_x.Grouping.Paged.{AreApart}
use trace_x.Grouping.Placed.{found-IsConnected, member_row}

abbrev is_member_of : (group_id : ℕ) → Member → Bool
is_member_of group_id m = m.group_id == group_id

abbrev pub members_of : (group_id : ℕ) → List Member → ℕ
members_of group_id members = length (select (is_member_of group_id) members)

-- The count of a group is the number of its members, within the limit.
pub record IsCounted (members : List Member) (g : Group) : Type 0 where
  pub count : g.member_count ≡ members_of g.id members
  pub limit : g.member_count ≤ max_members

-- All groups are counted, and the pending findings would open groups that are not there.
record AreCounted (i : Inputs) (pending : List Finding) (gen : Generation) : Type 0 where
  counted : All (IsCounted gen.members) gen.groups
  fresh_groups : All (λ (f : Finding). All (λ (g : Group). g.id ≢ gid i f) gen.groups) pending
  fresh_members :
      All (λ (f : Finding). All (λ (m : Member). m.group_id ≢ gid i f) gen.members) pending

members_of-more :
    (g : Group) (o : Observed) (members : List Member)
    → members_of g.id (member_row g o ∷ members) ≡ suc (members_of g.id members)
unfolding select
members_of-more g o members = rw (==_refl g.id) refl

members_of-other :
    (id : ℕ) (g : Group) (o : Observed) (members : List Member)
    → (id == g.id) ≡ false
    → members_of id (member_row g o ∷ members) ≡ members_of id members
unfolding select
members_of-other id g o members other =
    let not_mine : (g.id == id) ≡ false = ground (arith, other) in rw not_mine refl

members_of-none :
    (id : ℕ) (members : List Member)
    → All (λ (m : Member). m.group_id ≢ id) members
    → members_of id members ≡ 0
unfolding select
members_of-none id [] h = refl
members_of-none id (m ∷ ms) h =
    let not_mine : (m.group_id == id) ≡ false = ground (arith, h.0) in
    rw not_mine (members_of-none id ms h.1)

joined-counted :
    (o : Observed) (g : Group) (txs entities : ℕ) (members : List Member) (gs : List Group)
    → IsCounted members g
    → g.member_count < max_members
    → All (IsCounted members) gs
    → All
        (IsCounted (member_row g o ∷ members))
        (map (replace_group (grown o.finding txs entities g)) gs)
joined-counted o g txs entities members [] c room h = tt
joined-counted o g txs entities members (x ∷ xs) c room h =
    (one (x.id == g.id) refl, joined-counted o g txs entities members xs c room h.1)
  where
    one :
        (b : Bool)
        → (x.id == g.id) ≡ b
        → IsCounted (member_row g o ∷ members) (if b then grown o.finding txs entities g else x)
    one true mine = record {
      count = omega (arith, c.count, members_of-more g o members);
      limit = omega (arith, room);
    }
    one false theirs = record {
      count = h.0.count ∙ sym (members_of-other x.id g o members theirs);
      limit = h.0.limit;
    }

replaced-ids :
    (id : ℕ) (g' : Group) (gs : List Group)
    → All (λ (g : Group). g.id ≢ id) gs
    → All (λ (g : Group). g.id ≢ id) (map (replace_group g') gs)
replaced-ids id g' [] h = tt
replaced-ids id g' (x ∷ xs) h = (one (x.id == g'.id) refl, replaced-ids id g' xs h.1)
  where
    one : (b : Bool) → (x.id == g'.id) ≡ b → (if b then g' else x).id ≢ id
    one true mine e = h.0 ((==_iff x.id g'.id).0 mine ∙ e)
    one false theirs e = h.0 e

-- What holds of the chosen group.
record IsReady (i : Inputs) (pending : List Finding) (g : Group) (gen : Generation) : Type 0 where
  all_counted : AreCounted i pending gen
  own : IsCounted gen.members g
  room : g.member_count < max_members
  apart : All (λ (f : Finding). g.id ≢ gid i f) pending

chosen-IsReady :
    (i : Inputs) (o : Observed) (pending : List Finding) (gen : Generation) (m : Option Group)
    → AreCounted i (o.finding ∷ pending) gen
    → IsApart i o.finding pending
    → found o gen ≡ m
    → IsReady i pending (chosen i o gen m).0 (chosen i o gen m).1
chosen-IsReady i o pending gen (some g) v apart e =
    let held = (found-IsConnected o gen g e).held in
    record {
      all_counted = record {
        counted = v.counted;
        fresh_groups = v.fresh_groups.1;
        fresh_members = v.fresh_members.1;
      };
      own = All-Any (IsCounted gen.members) gen.groups v.counted held;
      room = (found-IsConnected o gen g e).room;
      apart =
          All-mono pending
            (λ f (h : All (λ (x : Group). x.id ≢ gid i f) gen.groups).
              All-Any (λ (x : Group). x.id ≢ gid i f) gen.groups h held)
            v.fresh_groups.1;
    }
chosen-IsReady i o pending gen none v apart e =
    let own : IsCounted gen.members (new_group i o) = record {
      count = sym (members_of-none (gid i o.finding) gen.members v.fresh_members.0);
      limit = omega arith;
    } in
    record {
      all_counted = record {
        counted = (own, v.counted);
        fresh_groups = with_new pending apart v.fresh_groups.1;
        fresh_members = v.fresh_members.1;
      };
      own = own;
      room = omega arith;
      apart = apart;
    }
  where
    with_new :
        (fs : List Finding)
        → IsApart i o.finding fs
        → All (λ (f : Finding). All (λ (g : Group). g.id ≢ gid i f) gen.groups) fs
        → All (λ (f : Finding). All (λ (g : Group). g.id ≢ gid i f) (new_group i o ∷ gen.groups)) fs
    with_new [] a h = tt
    with_new (f ∷ fs) a h = ((a.0, h.0), with_new fs a.1 h.1)

with_member :
    (i : Inputs) (o : Observed) (pending : List Finding) (g : Group) (gen : Generation)
    → All (λ (f : Finding). g.id ≢ gid i f) pending
    → All (λ (f : Finding). All (λ (m : Member). m.group_id ≢ gid i f) gen.members) pending
    → All
        (λ (f : Finding). All (λ (m : Member). m.group_id ≢ gid i f) (member_row g o ∷ gen.members))
        pending
with_member i o [] g gen a h = tt
with_member i o (f ∷ fs) g gen a h = ((a.0, h.0), with_member i o fs g gen a.1 h.1)

place-AreCounted :
    (i : Inputs) (o : Observed) (pending : List Finding) (gen : Generation)
    → AreCounted i (o.finding ∷ pending) gen
    → IsApart i o.finding pending
    → AreCounted i pending (place i o gen)
unfolding place
place-AreCounted i o pending gen v apart =
    let r = chosen-IsReady i o pending gen (found o gen) v apart refl in
    let g = (chosen i o gen (found o gen)).0 in
    let gen' = (chosen i o gen (found o gen)).1 in
    record {
      counted = joined-counted o g _ _ gen'.members gen'.groups r.own r.room r.all_counted.counted;
      fresh_groups =
          All-mono pending
            (λ f (h : All (λ (x : Group). x.id ≢ gid i f) gen'.groups).
              replaced-ids (gid i f) (grown o.finding _ _ g) gen'.groups h)
            r.all_counted.fresh_groups;
      fresh_members = with_member i o pending g gen' r.apart r.all_counted.fresh_members;
    }

place_all-AreCounted :
    (i : Inputs) (fs : List Finding) (gen : Generation)
    → AreCounted i fs gen
    → AreApart i fs
    → All (IsCounted (place_all i fs gen).members) (place_all i fs gen).groups
unfolding place_all
place_all-AreCounted i [] gen v apart = v.counted
place_all-AreCounted i (f ∷ fs) gen v apart =
    let o = observe i (read_edges i.edges) f in
    place_all-AreCounted i fs (place i o gen) (place-AreCounted i o fs gen v apart.0) apart.1

-- In the rows of a run, the count of each group is the number of its members and at most 256, where
-- the findings would open different groups.
pub place_all-IsCounted :
    (i : Inputs) (fs : List Finding)
    → AreApart i fs
    → All (IsCounted (place_all i fs no_rows).members) (place_all i fs no_rows).groups
place_all-IsCounted i fs apart =
    place_all-AreCounted i fs no_rows
      (record { counted = tt; fresh_groups = nothing fs; fresh_members = nothing fs }) apart
  where
    nothing : (xs : List Finding) → All (λ (f : Finding). Unit {0}) xs
    nothing [] = tt
    nothing (x ∷ xs) = (tt, nothing xs)
