-- ===== src/Graph/Neighbours.antt =====
-- The nodes that one turn of the search in app/engine/graph/query.py looks at.
use trace_x.Common.{
  ℕ, ◌≡◌, refl, sym, subst, arith, inl, inr, ◌⊎◌, Bool, true, false, List, [], ◌∷◌, ==_refl,
  exists_in, Any,
}
use trace_x.Common.Select.{exists_in-Any}
use trace_x.Graph.Reach.{Edge, Reached, is_at, step, neighbours, at_level}
use trace_x.Graph.Members.{Holds, Any-turn}

-- The edge joins two nodes, in one direction or the other.
abbrev pub Joins : ℕ → ℕ → Edge → Type 0
Joins u v e = ((e.from_node ≡ u) × (e.to_node ≡ v)) ⊎ ((e.to_node ≡ u) × (e.from_node ≡ v))

pub is_at_lem : (node level : ℕ) (r : Reached) → is_at node level r ≡ true → r ≡ at_level level node
is_at_lem node level r h =
    let same_node : r.node_id ≡ node = ground arith in
    let same_level : r.level ≡ level = ground arith in cc

pub is_at_refl :
    (node level : ℕ) (r : Reached) → r ≡ at_level level node → is_at node level r ≡ true
is_at_refl node level r e =
    subst (λ q. is_at node level q ≡ true) (sym e)
      (let h = ==_refl node in let k = ==_refl level in ground arith)

pub exists_in-Holds :
    (node level : ℕ) (reach : List Reached)
    → exists_in (is_at node level) reach ≡ true
    → Holds (at_level level node) reach
exists_in-Holds node level reach e =
    Any-turn (λ r. is_at node level r ≡ true) (λ r. r ≡ at_level level node) reach
      (is_at_lem node level) (exists_in-Any (is_at node level) reach e)

pub Holds-exists_in :
    (node level : ℕ) (reach : List Reached)
    → Holds (at_level level node) reach
    → exists_in (is_at node level) reach ≡ true
unfolding exists_in
Holds-exists_in node level [] m = absurd m
Holds-exists_in node level (r ∷ reach) (inl e) = let h = is_at_refl node level r e in ground arith
Holds-exists_in node level (r ∷ reach) (inr m) =
    let h = Holds-exists_in node level reach m in ground arith

pub step-Any :
    (n x : ℕ) (b : Bool) (rest : List ℕ)
    → Any (λ m. m ≡ n) (step b x rest)
    → ((b ≡ true) × (x ≡ n)) ⊎ Any (λ m. m ≡ n) rest
step-Any n x true rest (inl e) = inl (refl, e)
step-Any n x true rest (inr m) = inr m
step-Any n x false rest m = inr m

pub step-kept :
    (n x : ℕ) (b : Bool) (rest : List ℕ) → Any (λ m. m ≡ n) rest → Any (λ m. m ≡ n) (step b x rest)
step-kept n x true rest m = inr m
step-kept n x false rest m = m

pub step-taken :
    (n x : ℕ) (b : Bool) (rest : List ℕ) → b ≡ true → x ≡ n → Any (λ m. m ≡ n) (step b x rest)
step-taken n x b rest e same = subst (λ c. Any (λ m. m ≡ n) (step c x rest)) (sym e) (inl same)

pub held_end :
    (u v level : ℕ) (reach : List Reached)
    → Holds (at_level level u) reach
    → v ≡ u
    → exists_in (is_at v level) reach ≡ true
held_end u v level reach h e =
    Holds-exists_in v level reach (subst (λ k. Holds (at_level level k) reach) (sym e) h)

-- A neighbour of the level.
unfoldable pub Beside : (n level : ℕ) → List Reached → List Edge → Type 0
Beside n level reach es = (u : ℕ) × Holds (at_level level u) reach × Any (Joins u n) es

pub neighbours_sound :
    (n level : ℕ) (reach : List Reached) (es : List Edge)
    → Any (λ m. m ≡ n) (neighbours level reach es)
    → Beside n level reach es
unfolding neighbours Beside
neighbours_sound n level reach [] m = absurd m
neighbours_sound n level reach (e ∷ es) m =
    let later : Any (λ k. k ≡ n) (neighbours level reach es) → Beside n level reach (e ∷ es) =
      λ k. let (u, h, j) = neighbours_sound n level reach es k in (u, h, inr j) in
    elim (step-Any n e.to_node (exists_in (is_at e.from_node level) reach) _ m) [
      | inl (h, to) ↦ (e.from_node, exists_in-Holds e.from_node level reach h, inl (inl (refl, to)))
      | inr k ↦ elim (step-Any n e.from_node (exists_in (is_at e.to_node level) reach) _ k) [
        | inl (h, from) ↦
            (e.to_node, exists_in-Holds e.to_node level reach h, inl (inr (refl, from)))
        | inr last ↦ later last
      ]
    ]

pub neighbours_complete :
    (u n level : ℕ) (reach : List Reached) (es : List Edge)
    → Holds (at_level level u) reach
    → Any (Joins u n) es
    → Any (λ m. m ≡ n) (neighbours level reach es)
unfolding neighbours
neighbours_complete u n level reach [] h j = absurd j
neighbours_complete u n level reach (e ∷ es) h (inl (inl (from, to))) =
    step-taken n e.to_node _ _ (held_end u e.from_node level reach h from) to
neighbours_complete u n level reach (e ∷ es) h (inl (inr (to, from))) =
    step-kept n e.to_node (exists_in (is_at e.from_node level) reach) _
      (step-taken n e.from_node _ _ (held_end u e.to_node level reach h to) from)
neighbours_complete u n level reach (e ∷ es) h (inr j) =
    step-kept n e.to_node (exists_in (is_at e.from_node level) reach) _ (
      step-kept n e.from_node (exists_in (is_at e.to_node level) reach) _
        (neighbours_complete u n level reach es h j))
