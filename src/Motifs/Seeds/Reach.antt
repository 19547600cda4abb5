-- ===== src/Motifs/Seeds/Reach.antt =====
-- The candidates of a seed are the outputs that verified spends lead to.
use trace_x.Common.{
  ℕ, suc, ◌≡◌, refl, sym, ◌∙◌, ap, subst, inl, inr, true, Option, none, some, List, [], ◌∷◌, ◌++◌,
  ◌==◌, ==_iff, ==_refl, All, Any, Bool-cases,
}
use trace_x.Common.Select.{All-self}
use trace_x.Motifs.Model.{Output, Input, outpoint_of}
use trace_x.Motifs.Peeling.{Facts, spender}
use trace_x.Motifs.Seeds.{
  Candidate, address_of, Frontier, step_to, steps_to, steps_by, next_frontier,
}

-- The output stands a number of verified spends behind an output of the address. Each spend is the
-- one resolved spend of its output, and every output on the way has an address.
pub data Reach (f : Facts) (address : ℕ) : ℕ → Output → Type 0 where
  here :
      (o : Output) → Any (λ x. x ≡ o) f.outputs → address_of o ≡ some address → Reach f address 0 o
  hop :
      (n : ℕ) (o next : Output) (i : Input) (target : ℕ)
      → Reach f address n o
      → spender f (outpoint_of o) ≡ some i
      → Any (λ x. x ≡ next) f.outputs
      → next.txid ≡ i.txid
      → address_of next ≡ some target
      → Reach f address (suc n) next

-- An entry of the frontier at a distance.
pub record IsEntry (f : Facts) (address n : ℕ) (e : Output × Candidate) : Type 0 where
  pub reached : Reach f address n e.0
  pub located : address_of e.0 ≡ some e.1.entity
  pub far : e.1.distance ≡ n

pub All-append :
    {A : Type 0} (P : A → Type 0) (xs ys : List A) → All P xs → All P ys → All P (xs ++ ys)
All-append P [] ys h k = k
All-append P (x ∷ xs) ys h k = (h.0, All-append P xs ys h.1 k)

pub Any-left : {A : Type 0} (P : A → Type 0) (xs ys : List A) → Any P xs → Any P (xs ++ ys)
Any-left P [] ys m = absurd m
Any-left P (x ∷ xs) ys (inl h) = inl h
Any-left P (x ∷ xs) ys (inr m) = inr (Any-left P xs ys m)

pub Any-right : {A : Type 0} (P : A → Type 0) (xs ys : List A) → Any P ys → Any P (xs ++ ys)
Any-right P [] ys m = m
Any-right P (x ∷ xs) ys m = inr (Any-right P xs ys m)

module _ (f : Facts) (address seed_id n : ℕ) where
  steps_to-IsEntry :
      (o : Output) (prior : Candidate) (i : Input) (outs : List Output)
      → Reach f address n o
      → spender f (outpoint_of o) ≡ some i
      → All (λ x. Any (λ y. y ≡ x) f.outputs) outs
      → All (IsEntry f address (suc n)) (steps_to seed_id (suc n) i.txid o prior outs)
  unfolding steps_to
  steps_to-IsEntry o prior i [] r s held = tt
  steps_to-IsEntry o prior i (x ∷ xs) r s held =
      let rest = steps_to-IsEntry o prior i xs r s held.1 in
      elim (Bool-cases (x.txid == i.txid)) [
        | inr other ↦ rw other rest
        | inl same ↦ rw same (
            All-append (IsEntry f address (suc n))
              (step_to seed_id (suc n) i.txid o prior x (address_of x))
              (steps_to seed_id (suc n) i.txid o prior xs)
              (entry (address_of x) refl ((==_iff x.txid i.txid).0 same)) rest)
      ]
    where
      entry :
          (a : Option ℕ)
          → address_of x ≡ a
          → x.txid ≡ i.txid
          → All (IsEntry f address (suc n)) (step_to seed_id (suc n) i.txid o prior x a)
      entry none at same = tt
      entry (some target) at same = (
        record { reached = Reach.hop n o x i target r s held.0 same at; located = at; far = refl },
        tt,
      )

  steps_to-held :
      (o next : Output) (prior : Candidate) (txid target : ℕ) (outs : List Output)
      → Any (λ x. x ≡ next) outs
      → next.txid ≡ txid
      → address_of next ≡ some target
      → Any (λ (e : Output × Candidate). e.0 ≡ next) (steps_to seed_id (suc n) txid o prior outs)
  unfolding steps_to
  steps_to-held o next prior txid target [] m same at = absurd m
  steps_to-held o next prior txid target (x ∷ xs) (inl is_next) same at =
      let mine : (x.txid == txid) ≡ true =
        ap (λ (r : Output). r.txid == txid) is_next ∙ ap (λ t. t == txid) same ∙ ==_refl txid in
      let at_x : address_of x ≡ some target = ap address_of is_next ∙ at in
      rw mine (
        Any-left (λ (e : Output × Candidate). e.0 ≡ next)
          (step_to seed_id (suc n) txid o prior x (address_of x))
          (steps_to seed_id (suc n) txid o prior xs)
          (subst
            (λ a.
              Any (λ (e : Output × Candidate). e.0 ≡ next)
                (step_to seed_id (suc n) txid o prior x a))
            (sym at_x) (inl is_next)))
  steps_to-held o next prior txid target (x ∷ xs) (inr m) same at =
      let rest = steps_to-held o next prior txid target xs m same at in
      elim (Bool-cases (x.txid == txid)) [
        | inr other ↦ rw other rest
        | inl mine ↦ rw mine (
            Any-right (λ (e : Output × Candidate). e.0 ≡ next)
              (step_to seed_id (suc n) txid o prior x (address_of x))
              (steps_to seed_id (suc n) txid o prior xs) rest)
      ]

  pub next_frontier-IsEntry :
      (frontier : Frontier)
      → All (IsEntry f address n) frontier
      → All (IsEntry f address (suc n)) (next_frontier f seed_id (suc n) frontier)
  unfolding next_frontier
  next_frontier-IsEntry [] h = tt
  next_frontier-IsEntry ((o, prior) ∷ rest) h =
      All-append (IsEntry f address (suc n))
        (steps_by f seed_id (suc n) o prior (spender f (outpoint_of o)))
        (next_frontier f seed_id (suc n) rest) (by (spender f (outpoint_of o)) refl)
        (next_frontier-IsEntry rest h.1)
    where
      by :
          (s : Option Input)
          → spender f (outpoint_of o) ≡ s
          → All (IsEntry f address (suc n)) (steps_by f seed_id (suc n) o prior s)
      by none e = tt
      by (some i) e = steps_to-IsEntry o prior i f.outputs h.0.reached e (All-self f.outputs)

  pub next_frontier-held :
      (frontier : Frontier) (o next : Output) (i : Input) (target : ℕ)
      → Any (λ (e : Output × Candidate). e.0 ≡ o) frontier
      → spender f (outpoint_of o) ≡ some i
      → Any (λ x. x ≡ next) f.outputs
      → next.txid ≡ i.txid
      → address_of next ≡ some target
      → Any (λ (e : Output × Candidate). e.0 ≡ next) (next_frontier f seed_id (suc n) frontier)
  unfolding next_frontier
  next_frontier-held [] o next i target m s held same at = absurd m
  next_frontier-held ((x, prior) ∷ rest) o next i target (inl is_o) s held same at =
      let sx : spender f (outpoint_of x) ≡ some i = ap (λ r. spender f (outpoint_of r)) is_o ∙ s in
      Any-left (λ (e : Output × Candidate). e.0 ≡ next)
        (steps_by f seed_id (suc n) x prior (spender f (outpoint_of x)))
        (next_frontier f seed_id (suc n) rest)
        (subst
          (λ r. Any (λ (e : Output × Candidate). e.0 ≡ next) (steps_by f seed_id (suc n) x prior r))
          (sym sx) (steps_to-held x next prior i.txid target f.outputs held same at))
  next_frontier-held ((x, prior) ∷ rest) o next i target (inr m) s held same at =
      Any-right (λ (e : Output × Candidate). e.0 ≡ next)
        (steps_by f seed_id (suc n) x prior (spender f (outpoint_of x)))
        (next_frontier f seed_id (suc n) rest)
        (next_frontier-held rest o next i target m s held same at)
