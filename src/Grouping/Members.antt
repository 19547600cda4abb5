-- ===== src/Grouping/Members.antt =====
-- Every finding of a run is a member once.
use trace_x.Common.{ℕ, ◌≡◌, refl, ◌∙◌, ap, Option, none, some, List, [], ◌∷◌, map}
use trace_x.Grouping.Model.{Finding, Group, Member, Generation}
use trace_x.Grouping.Observe.{read_edges}
use trace_x.Grouping.Reference.{Inputs, Observed, observe, add_all, chosen, found, place, place_all}

abbrev pub finding_ids : List Member → List ℕ
finding_ids members = map (λ (m : Member). m.finding_id) members

chosen-members :
    (i : Inputs) (o : Observed) (gen : Generation) (m : Option Group)
    → (chosen i o gen m).1.members ≡ gen.members
chosen-members i o gen none = refl
chosen-members i o gen (some g) = refl

-- The loop makes each finding a member once, in the order of the findings.
pub place_all-members :
    (i : Inputs) (fs : List Finding) (gen : Generation)
    → finding_ids (place_all i fs gen).members
      ≡ add_all (map (λ (f : Finding). f.id) fs) (finding_ids gen.members)
unfolding place_all place add_all
place_all-members i [] gen = refl
place_all-members i (f ∷ fs) gen =
    let o = observe i (read_edges i.edges) f in
    place_all-members i fs (place i o gen)
    ∙ ap (λ ms. add_all (map (λ (g : Finding). g.id) fs) (f.id ∷ finding_ids ms))
        (chosen-members i o gen (found o gen))
