-- ===== src/Grouping/Paged.antt =====
-- The indexed loop over pages gives the rows of the reference loop.
use trace_x.Common.{
  ℕ, ◌≡◌, refl, sym, ◌∙◌, ap, subst, inl, inr, List, [], ◌∷◌, ◌++◌, All, Any, ◌&&◌, Bool-cases, not,
}
use trace_x.Common.Select.{All-self}
use trace_x.Grouping.Model.{EntityRef, Edge, Finding, Generation, no_rows}
use trace_x.Grouping.Observe.{observations, read_edges, focal_entities, is_none_left, path_edges}
use trace_x.Grouping.Reference.{Inputs, observe, place, place_all}
use trace_x.Grouping.Indexed.{
  Index, page_edges, place_indexed, place_page, place_pages, empty_index,
}
use trace_x.Grouping.Sets.{IsAscending, set_of-IsAscending}
use trace_x.Grouping.Edges.{observations-page}
use trace_x.Grouping.Distinct.{subjects_of-IsDistinct}
use trace_x.Grouping.Agree.{IsIndex, IsApart, place_indexed-eq}

-- All of the findings would open different groups.
abbrev pub AreApart : Inputs → List Finding → Type 0
AreApart i [] = Unit
AreApart i (f ∷ fs) = IsApart i f fs × AreApart i fs

abbrev pub concat : List (List Finding) → List Finding
concat [] = []
concat (page ∷ pages) = page ++ concat pages

observe-page :
    (i : Inputs) (page : List Finding) (f : Finding)
    → Any (λ g. g ≡ f) page
    → observe i (page_edges i.texts i.edges page) f ≡ observe i (read_edges i.edges) f
observe-page i page f m = let same = observations-page i.texts i.edges page f m in rw same refl

entities_of :
    (i : Inputs) (read : List ℕ → List Edge) (f : Finding)
    → (observations i.texts read f).entities ≡ focal_entities f.entity_ref
unfolding observations
entities_of i read f =
    elim (Bool-cases (i.texts.is_peeling f.rule_id && not (is_none_left (path_edges f)))) [
      | inl by_edges ↦ rw by_edges refl
      | inr by_refs ↦ rw by_refs refl
    ]

focal_entities-IsAscending : (f : Finding) → IsAscending (focal_entities f.entity_ref)
focal_entities-IsAscending f = go f.entity_ref
  where
    go : (r : EntityRef) → IsAscending (focal_entities r)
    go (EntityRef.tx t) = tt
    go (EntityRef.entity e) = (tt, tt)

place_page-eq :
    (i : Inputs) (page fs later : List Finding) (index : Index)
    → All (λ f. Any (λ g. g ≡ f) page) fs
    → IsIndex i (fs ++ later) index
    → AreApart i (fs ++ later)
    → ((place_page i page fs index).rows ≡ place_all i fs index.rows)
      × IsIndex i later (place_page i page fs index)
unfolding place_page place_all
place_page-eq i page [] later index held v apart = (refl, v)
place_page-eq i page (f ∷ fs) later index held v apart =
    let o = observe i (page_edges i.texts i.edges page) f in
    let same_o = observe-page i page f held.0 in
    let ascending =
      subst IsAscending (sym (entities_of i (page_edges i.texts i.edges page) f))
        (focal_entities-IsAscending f) in
    let (step, v') = place_indexed-eq i o (fs ++ later) index v apart.0 (
      subjects_of-IsDistinct o ascending (
        set_of-IsAscending (
          (observations i.texts (page_edges i.texts i.edges page) f).txs
          ++ i.participation f.id))) in
    let (rest, v'') = place_page-eq i page fs later (place_indexed i o index) held.1 v' apart.1 in
    (rest ∙ ap (place_all i fs) (step ∙ ap (λ r. place i r index.rows) same_o), v'')

place_all-append :
    (i : Inputs) (xs ys : List Finding) (gen : Generation)
    → place_all i (xs ++ ys) gen ≡ place_all i ys (place_all i xs gen)
unfolding place_all
place_all-append i [] ys gen = refl
place_all-append i (x ∷ xs) ys gen =
    place_all-append i xs ys (place i (observe i (read_edges i.edges) x) gen)

AreApart-later : (i : Inputs) (xs ys : List Finding) → AreApart i (xs ++ ys) → AreApart i ys
AreApart-later i [] ys a = a
AreApart-later i (x ∷ xs) ys a = AreApart-later i xs ys a.1

place_all-nil : (i : Inputs) (gen : Generation) → place_all i [] gen ≡ gen
unfolding place_all
place_all-nil i gen = refl

place_pages-from :
    (i : Inputs) (pages : List (List Finding)) (index : Index)
    → IsIndex i (concat pages) index
    → AreApart i (concat pages)
    → (place_pages i pages index).rows ≡ place_all i (concat pages) index.rows
unfolding place_pages
place_pages-from i [] index v apart = sym (place_all-nil i index.rows)
place_pages-from i (page ∷ pages) index v apart =
    let (first, v') = place_page-eq i page page (concat pages) index (All-self page) v apart in
    place_pages-from i pages (place_page i page page index) v'
      (AreApart-later i page (concat pages) apart)
    ∙ ap (place_all i (concat pages)) first
    ∙ sym (place_all-append i page (concat pages) index.rows)

-- However the findings are split into pages, the executor with its private index, its deleted
-- anchors and its edges read by the page makes the rows that the reference loop makes, where the
-- findings would open different groups.
pub place_pages-eq-place_all :
    (i : Inputs) (pages : List (List Finding))
    → AreApart i (concat pages)
    → (place_pages i pages empty_index).rows ≡ place_all i (concat pages) no_rows
place_pages-eq-place_all i pages apart =
    place_pages-from i pages empty_index
      (record {
        served = tt;
        fresh_anchors = unanchored (concat pages);
        fresh_eligible = unanchored (concat pages);
      })
      apart
  where
    unanchored : (fs : List Finding) → All (λ (f : Finding). Unit {0}) fs
    unanchored [] = tt
    unanchored (f ∷ fs) = (tt, unanchored fs)
