-- ===== src/Grouping/Edges.antt =====
-- `_Edges` of app/engine/grouping_materializer.py: the edges read for a page serve each finding of it
-- like a query of the graph.
use trace_x.Common.{
  ℕ, ◌≡◌, refl, sym, ◌∙◌, ap, inl, inr, Bool, true, false, not, ◌&&◌, ◌||◌, List, [], ◌∷◌, ◌++◌,
  arith, select, exists_in, Any, Bool-cases,
}
use trace_x.Grouping.Model.{Texts, Edge, Finding}
use trace_x.Grouping.Observe.{
  is_in, read_edges, ends_of, all_ends, is_none_left, path_edges, focal_txs, by_path, observations,
}
use trace_x.Grouping.Indexed.{has_edge_id, requested, serve, page_edges}
use trace_x.Grouping.Sets.{is_in-append, set_of-ext}

module _ {A : Type 0} where
  exists_in-ext :
      (p q : A → Bool) (xs : List A) → ((x : A) → p x ≡ q x) → exists_in p xs ≡ exists_in q xs
  exists_in-ext p q xs h = λ i. exists_in (λ x. h x i) xs

  exists_in-append :
      (p : A → Bool) (xs ys : List A) → exists_in p (xs ++ ys) ≡ exists_in p xs || exists_in p ys
  unfolding exists_in
  exists_in-append p [] ys = refl
  exists_in-append p (x ∷ xs) ys = ground (arith, exists_in-append p xs ys)

  exists_in-or :
      (p q : A → Bool) (xs : List A)
      → exists_in p xs || exists_in q xs ≡ exists_in (λ x. p x || q x) xs
  unfolding exists_in
  exists_in-or p q [] = refl
  exists_in-or p q (x ∷ xs) = ground (arith, exists_in-or p q xs)

  exists_in-select :
      (p q : A → Bool) (xs : List A) → exists_in p (select q xs) ≡ exists_in (λ x. q x && p x) xs
  unfolding exists_in select
  exists_in-select p q [] = refl
  exists_in-select p q (x ∷ xs) = elim (Bool-cases (q x)) [
    | inl is_so ↦ rw is_so (ap (λ b. p x || b) (exists_in-select p q xs))
    | inr is_not ↦ rw is_not (exists_in-select p q xs)
  ]

  exists_in-none : (p : A → Bool) (xs : List A) → ((x : A) → p x ≡ false) → exists_in p xs ≡ false
  unfolding exists_in
  exists_in-none p [] h = refl
  exists_in-none p (x ∷ xs) h = ground (arith, h x, exists_in-none p xs h)

  is_none_left-exists : (xs : List A) → is_none_left xs ≡ not (exists_in (λ _. true) xs)
  unfolding exists_in
  is_none_left-exists [] = refl
  is_none_left-exists (x ∷ xs) = refl

abbrev served : List ℕ → (Edge → Bool) → Edge → Bool
served ids p e = is_in ids e.edge_id && p e

exists_in-serve :
    (p : Edge → Bool) (fetched : List Edge) (ids : List ℕ)
    → exists_in p (serve fetched ids) ≡ exists_in (served ids p) fetched
unfolding serve exists_in
exists_in-serve p fetched [] = sym (exists_in-none (served [] p) fetched (λ e. refl))
exists_in-serve p fetched (id ∷ ids) =
    let first = exists_in-select p (has_edge_id id) fetched in
    let rest = exists_in-serve p fetched ids in
    let head = λ (e : Edge). has_edge_id id e && p e in
    exists_in-append p (select (has_edge_id id) fetched) (serve fetched ids)
    ∙ ap (λ b. b || exists_in p (serve fetched ids)) first
    ∙ ap (λ b. exists_in head fetched || b) rest
    ∙ exists_in-or head (served ids p) fetched
    ∙ exists_in-ext (λ e. head e || served ids p e) (served (id ∷ ids) p) fetched
        (λ e. ground arith)

exists_in-page :
    (p : Edge → Bool) (edges : List Edge) (all_ids ids : List ℕ)
    → ((n : ℕ) → is_in ids n ≡ true → is_in all_ids n ≡ true)
    → exists_in p (serve (read_edges edges all_ids) ids) ≡ exists_in p (read_edges edges ids)
exists_in-page p edges all_ids ids within =
    let is_read = λ (xs : List ℕ) (e : Edge). is_in xs e.edge_id in
    exists_in-serve p (read_edges edges all_ids) ids
    ∙ exists_in-select (served ids p) (is_read all_ids) edges
    ∙ exists_in-ext (λ e. is_read all_ids e && served ids p e) (served ids p) edges
        (λ e. ground (arith, within e.edge_id))
    ∙ sym (exists_in-select p (is_read ids) edges)

is_in-all_ends :
    (rows : List Edge) (n : ℕ) → is_in (all_ends rows) n ≡ exists_in (λ e. is_in (ends_of e) n) rows
unfolding all_ends exists_in
is_in-all_ends [] n = refl
is_in-all_ends (e ∷ es) n =
    is_in-append (ends_of e) (all_ends es) n
    ∙ ap (λ b. is_in (ends_of e) n || b) (is_in-all_ends es n)

requested-held :
    (texts : Texts) (page : List Finding) (f : Finding) (n : ℕ)
    → Any (λ g. g ≡ f) page
    → texts.is_peeling f.rule_id ≡ true
    → is_in (path_edges f) n ≡ true
    → is_in (requested texts page) n ≡ true
unfolding requested
requested-held texts [] f n m peels held = absurd m
requested-held texts (g ∷ gs) f n (inl is_f) peels held =
    let peels_g : texts.is_peeling g.rule_id ≡ true =
      ap (λ (r : Finding). texts.is_peeling r.rule_id) is_f ∙ peels in
    let held_g : is_in (path_edges g) n ≡ true =
      ap (λ (r : Finding). is_in (path_edges r) n) is_f ∙ held in
    rw peels_g (
      is_in-append (path_edges g) (requested texts gs) n
      ∙ ap (λ b. b || is_in (requested texts gs) n) held_g)
requested-held texts (g ∷ gs) f n (inr m) peels held =
    let later = requested-held texts gs f n m peels held in
    elim (Bool-cases (texts.is_peeling g.rule_id)) [
      | inl is_so ↦
          rw is_so (ground (arith, is_in-append (path_edges g) (requested texts gs) n, later))
      | inr is_not ↦ rw is_not later
    ]

-- A finding of a page is observed on the page's edges as it is on the graph.
pub observations-page :
    (texts : Texts) (edges : List Edge) (page : List Finding) (f : Finding)
    → Any (λ g. g ≡ f) page
    → observations texts (page_edges texts edges page) f ≡ observations texts (read_edges edges) f
unfolding observations
observations-page texts edges page f m =
    elim (Bool-cases (texts.is_peeling f.rule_id && not (is_none_left (path_edges f)))) [
      | inr is_not ↦ rw is_not refl
      | inl is_so ↦
          let ids = path_edges f in
          let peels : texts.is_peeling f.rule_id ≡ true = ground arith in
          let within : (n : ℕ) → is_in ids n ≡ true → is_in (requested texts page) n ≡ true =
            λ n held. requested-held texts page f n m peels held in
          let same =
            λ (p : Edge → Bool). exists_in-page p edges (requested texts page) ids within in
          rw is_so
            (by_path-ext texts f (page_edges texts edges page ids) (read_edges edges ids) same)
    ]
  where
    by_path-ext :
        (texts : Texts) (f : Finding) (xs ys : List Edge)
        → ((p : Edge → Bool) → exists_in p xs ≡ exists_in p ys)
        → by_path texts f.entity_ref xs ≡ by_path texts f.entity_ref ys
    by_path-ext texts f xs ys same =
        let focal = focal_txs f.entity_ref in
        let ends : (n : ℕ) → is_in (focal ++ all_ends xs) n ≡ is_in (focal ++ all_ends ys) n = λ n.
          is_in-append focal (all_ends xs) n
          ∙ ap (λ b. is_in focal n || b)
              (is_in-all_ends xs n ∙ same (λ e. is_in (ends_of e) n) ∙ sym (is_in-all_ends ys n))
          ∙ sym (is_in-append focal (all_ends ys) n) in
        let txs = set_of-ext (focal ++ all_ends xs) (focal ++ all_ends ys) ends in
        let none_left : is_none_left xs ≡ is_none_left ys =
          is_none_left-exists xs ∙ ap not (same (λ _. true)) ∙ sym (is_none_left-exists ys) in
        rw (txs, none_left) refl
