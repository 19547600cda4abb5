-- ===== src/Motifs/Peeling/Continuation.antt =====
-- The continuation that a hop selects.
use trace_x.Common.{
  ℕ, ◌≤◌, ◌<◌, ◌≡◌, refl, sym, ◌∙◌, subst, ◌⊎◌, inl, inr, true, false, Option, none, some, List, [],
  ◌∷◌, arith, select, find_first, All, Any, All-mono, All-Any, Bool-cases,
}
use trace_x.Common.Select.{All-select, All-of-select, All-kept, All-self}
use trace_x.Common.Sort.{sort_by, IsSortedBy, sort_by-IsSortedBy, All-sort_by, All-of-sort_by}
use trace_x.Motifs.Model.{Outpoint, Output, Input}
use trace_x.Motifs.Peeling.{
  Facts, spender, output, rank_le, spent_from, ranked, below, Hop, hop_from, peeling_hop,
}

rank_le_trans : (x y z : Output) → rank_le x y ≡ true → rank_le y z ≡ true → rank_le x z ≡ true
rank_le_trans x y z h k = ground arith

rank_le-total : (x y : Output) → rank_le x y ≡ false → rank_le y x ≡ true
rank_le-total x y h = ground arith

-- The first below a bound, of outputs in rank order, is the best of those below.
first_below :
    (amount : ℕ) (items : List Output) {c : Output}
    → IsSortedBy rank_le items
    → find_first (below amount) items ≡ some c
    → Any (λ x. x ≡ c) items
      × (c.amount_sats < amount)
      × All (λ x. x.amount_sats < amount → (rank_le c x ≡ true) ⊎ (x ≡ c)) items
unfolding find_first
first_below amount [] s e = absurd (cc)
first_below amount (x ∷ xs) {c} s e = elim (Bool-cases (below amount x)) [
  | inl here ↦
      let is_c : x ≡ c = cc (rw here at e) in
      (
        inl is_c,
        ground (arith, here, is_c),
        (
          λ _. inr is_c,
          All-mono xs (λ y (h : rank_le x y ≡ true) _. inl (subst (λ k. rank_le k y ≡ true) is_c h))
              s.0,
        ),
      )
  | inr there ↦
      let (m, small, best) = first_below amount xs s.1 (rw there at e) in
      (inr m, small, (λ h. absurd (ground (arith, there)), best))
]

none-below :
    (amount : ℕ) (items : List Output)
    → find_first (below amount) items ≡ none
    → All (λ x. amount ≤ x.amount_sats) items
unfolding find_first
none-below amount [] e = tt
none-below amount (x ∷ xs) e = elim (Bool-cases (below amount x)) [
  | inl here ↦ absurd (cc (rw here at e))
  | inr there ↦ (ground (arith, there), none-below amount xs (rw there at e))
]

-- An output of the transaction that is itself uniquely spent.
abbrev pub IsSpentOutput : Facts → (txid : ℕ) → Output → Type 0
IsSpentOutput f txid item = spent_from f txid item ≡ true

-- The selected continuation: an output of the spending transaction, uniquely spent, smaller than the
-- output that was spent, and the largest such one, of equal ones that with the lowest vout.
pub record IsContinuation (f : Facts) (txid amount : ℕ) (c : Output) : Type 0 where
  pub held : Any (λ x. x ≡ c) f.outputs
  pub spent : IsSpentOutput f txid c
  pub smaller : c.amount_sats < amount
  pub best :
      All
        (λ x. IsSpentOutput f txid x → x.amount_sats < amount → (rank_le c x ≡ true) ⊎ (x ≡ c))
        f.outputs

ranked-IsContinuation :
    (f : Facts) (txid amount : ℕ) {c : Output}
    → find_first (below amount) (ranked f txid) ≡ some c
    → IsContinuation f txid amount c
unfolding ranked
ranked-IsContinuation f txid amount {c} e =
    let kept = select (spent_from f txid) f.outputs in
    let (m, small, best) =
      first_below amount (sort_by rank_le kept)
        (sort_by-IsSortedBy rank_le rank_le_trans rank_le-total kept) e in
    let of_sorted = λ (P : Output → Type 0) (h : All P kept).
      All-Any P (sort_by rank_le kept) (All-sort_by rank_le P kept h) m in
    record {
      held =
          of_sorted (λ r. Any (λ x. x ≡ r) f.outputs)
            (All-kept (spent_from f txid) _ f.outputs (All-self f.outputs));
      spent = of_sorted (IsSpentOutput f txid) (All-select (spent_from f txid) f.outputs);
      smaller = small;
      best = All-of-select (spent_from f txid) _ f.outputs (All-of-sort_by rank_le _ kept best);
    }

-- What `peeling_hop` returns: it starts from a spent output that is supplied, moves to the one
-- transaction that spends it, and its continuation is the best one; without a continuation no
-- uniquely spent output of that transaction is smaller.
pub record IsHop (f : Facts) (o : Outpoint) (h : Hop) : Type 0 where
  pub tx_input : Input
  pub spender_is : spender f o ≡ some tx_input
  pub previous : Output
  pub previous_is : output f o ≡ some previous
  pub spending : h.spending_txid ≡ tx_input.txid
  pub goes_on :
      (c : Output)
      → h.continuation ≡ some c
      → IsContinuation f h.spending_txid previous.amount_sats c
  pub ends :
      h.continuation ≡ none
      → All
          (λ x. IsSpentOutput f h.spending_txid x → previous.amount_sats ≤ x.amount_sats)
          f.outputs

hop_from-IsHop :
    (f : Facts) (o : Outpoint) (i : Option Input) (p : Option Output) {h : Hop}
    → spender f o ≡ i
    → output f o ≡ p
    → hop_from f i p ≡ some h
    → IsHop f o h
unfolding ranked
hop_from-IsHop f o none p si op e = absurd (cc)
hop_from-IsHop f o (some i) none si op e = absurd (cc)
hop_from-IsHop f o (some i) (some p) {h} si op e =
    let tx : h.spending_txid ≡ i.txid = cc in
    let next : h.continuation ≡ find_first (below p.amount_sats) (ranked f i.txid) = cc in
    record {
      tx_input = i;
      spender_is = si;
      previous = p;
      previous_is = op;
      spending = tx;
      goes_on = λ c is_c. rw tx (ranked-IsContinuation f i.txid p.amount_sats (sym next ∙ is_c));
      ends = λ is_none. rw tx (
          All-of-select (spent_from f i.txid) _ f.outputs (
            All-of-sort_by rank_le _ _
              (none-below p.amount_sats (ranked f i.txid) (sym next ∙ is_none))));
    }

pub peeling_hop-IsHop :
    (f : Facts) (o : Outpoint) {h : Hop} → peeling_hop f o ≡ some h → IsHop f o h
unfolding peeling_hop
peeling_hop-IsHop f o e = hop_from-IsHop f o (spender f o) (output f o) refl refl e
