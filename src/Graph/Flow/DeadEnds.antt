-- ===== src/Graph/Flow/DeadEnds.antt =====
-- Dead ends of a flow and the ranking of its counterparties, of app/engine/graph/query.py.
use trace_x.Common.{
  ◌≡◌, ◌∙◌, refl, ap, arith, inl, inr, ◌↔◌, true, false, not, List, [], ◌∷◌, ◌++◌, map, ◌==◌,
  ==_iff, length, select, exists_in, All, Any, Bool-cases,
}
use trace_x.Common.Select.{exists_in-Any}
use trace_x.Graph.Flow.Model.{
  NodeId, tx_id, output_id, address_id, same_id, Tables, address_or_script, Counterparty,
  creator_tx,
}
use trace_x.Graph.Flow.Query.{
  distinct_ids, spenders_of, coins_of, touching, address_onward, mark_address, is_address,
}

same_id_iff : (a b : NodeId) → (same_id a b ≡ true) ↔ (a ≡ b)
same_id_iff (tx_id a) (tx_id b) =
    (λ e. ap tx_id ((==_iff a b).0 e), λ e. (let h : a ≡ b = cc in (==_iff a b).1 h))
same_id_iff (output_id a v) (output_id b w) = (
  λ e. (let h : a ≡ b = ground arith in let k : v ≡ w = ground arith in cc),
  λ e. (let h : a ≡ b = cc in let k : v ≡ w = cc in ground arith),
)
same_id_iff (address_id a) (address_id b) =
    (λ e. ap address_id ((==_iff a b).0 e), λ e. (let h : a ≡ b = cc in (==_iff a b).1 h))
same_id_iff (tx_id a) (output_id b w) = (λ e. cc, λ e. cc)
same_id_iff (tx_id a) (address_id b) = (λ e. cc, λ e. cc)
same_id_iff (output_id a v) (tx_id b) = (λ e. cc, λ e. cc)
same_id_iff (output_id a v) (address_id b) = (λ e. cc, λ e. cc)
same_id_iff (address_id a) (tx_id b) = (λ e. cc, λ e. cc)
same_id_iff (address_id a) (output_id b w) = (λ e. cc, λ e. cc)

none_other :
    (x : NodeId) (ids : List NodeId)
    → (length (select (λ a. not (same_id a x)) ids) ≡ 0) ↔ All (λ a. a ≡ x) ids
unfolding select
none_other x [] = (λ e. tt, λ h. refl)
none_other x (a ∷ ids) = elim (Bool-cases (same_id a x)) [
  | inl e ↦
      rw e (λ h. ((same_id_iff a x).0 e, (none_other x ids).0 h), λ h. (none_other x ids).1 h.1)
  | inr e ↦
      rw e (λ h. absurd (omega arith), λ h. (let yes = (same_id_iff a x).1 h.0 in absurd (cc)))
]

one_same :
    (a x : NodeId) (ids : List NodeId)
    → All (λ b. b ≡ x) ids
    → Any (λ b. same_id a b ≡ true) ids
    → a ≡ x
one_same a x [] h m = absurd m
one_same a x (b ∷ ids) h (inl e) = (same_id_iff a b).0 e ∙ h.0
one_same a x (b ∷ ids) h (inr m) = one_same a x ids h.1 m

distinct_same :
    (x : NodeId) (ids : List NodeId) → All (λ a. a ≡ x) (distinct_ids ids) ↔ All (λ a. a ≡ x) ids
unfolding distinct_ids
distinct_same x [] = (λ h. h, λ h. h)
distinct_same x (a ∷ ids) = elim (Bool-cases (exists_in (same_id a) ids)) [
  | inl e ↦ rw e (
    λ h.
        (let rest = (distinct_same x ids).0 h in
          (one_same a x ids rest (exists_in-Any (same_id a) ids e), rest)),
    λ h. (distinct_same x ids).1 h.1,
  )
  | inr e ↦ rw e (λ h. (h.0, (distinct_same x ids).0 h.1), λ h. (h.0, (distinct_same x ids).1 h.1))
]

All-append : (P : NodeId → Type 0) (xs ys : List NodeId) → All P (xs ++ ys) ↔ (All P xs × All P ys)
All-append P [] ys = (λ h. (tt, h), λ h. h.1)
All-append P (x ∷ xs) ys = (
  λ h. (let (a, b) = (All-append P xs ys).0 h.1 in ((h.0, a), b)),
  λ h. (h.0.0, (All-append P xs ys).1 (h.0.1, h.1)),
)

-- No transaction but the one created or spent an output that is locked to the address.
pub OnlyTouchedBy : Tables → NodeId → NodeId → Type 0
OnlyTouchedBy t tx address =
    All (λ maker. maker ≡ tx) (map creator_tx (coins_of t address))
    × All (λ spender. spender ≡ tx) (spenders_of t (coins_of t address))

address_onward_none :
    (t : Tables) (tx address : NodeId)
    → (address_onward t tx address ≡ 0) ↔ OnlyTouchedBy t tx address
unfolding address_onward touching OnlyTouchedBy
address_onward_none t tx address =
    let coins = coins_of t address in
    let all = map creator_tx coins ++ spenders_of t coins in
    (
      λ h.
          (All-append (λ a. a ≡ tx) (map creator_tx coins) (spenders_of t coins)).0
            ((distinct_same tx all).0 ((none_other tx (distinct_ids all)).0 h)),
      λ h. (none_other tx (distinct_ids all)).1 (
          (distinct_same tx all).1
            ((All-append (λ a. a ≡ tx) (map creator_tx coins) (spenders_of t coins)).1 h)),
    )

-- An address in the flow of a transaction, which could be selected before, is marked as a dead end
-- exactly when no other transaction created or spent an output that is locked to the address.
pub mark_address-dead_end :
    (t : Tables) (tx : NodeId) (c : Counterparty)
    → c.node_type ≡ address_or_script
    → c.selectable ≡ true
    → ((mark_address t tx c).selectable ≡ false) ↔ OnlyTouchedBy t tx c.id
unfolding mark_address
mark_address-dead_end t tx c is_addr free =
    let is_one : is_address c.node_type ≡ true = ap is_address is_addr in
    elim (Bool-cases (address_onward t tx c.id == 0)) [
      | inl e ↦
          let h = (==_iff (address_onward t tx c.id) 0).0 e in
          rw (is_one, e) ((λ k. (address_onward_none t tx c.id).0 h), (λ k. refl))
      | inr e ↦
          rw (is_one, e)
            (
              (λ k. absurd (cc)),
              (λ k. (let h = (address_onward_none t tx c.id).1 k in absurd (ground arith))),
            )
    ]
