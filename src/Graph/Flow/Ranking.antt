-- ===== src/Graph/Flow/Ranking.antt =====
-- The ranking of counterparties, of app/engine/graph/query.py.
use trace_x.Common.{
  ℕ, zero, suc, ◌+◌, ◌≤◌, ◌≡◌, refl, ap, arith, Bool, true, false, Option, none, some, List, [],
  ◌∷◌, ◌++◌, length, take, All, length-take-le, length-append,
}
use trace_x.Common.Sort.{sort_by, IsSortedBy, sort_by-IsSortedBy}
use trace_x.Graph.Query.{drop}
use trace_x.Graph.Offsets.{length-sort_by, length-drop, length-take}
use trace_x.Graph.Flow.Model.{NodeId, id_before, Counterparty}
use trace_x.Graph.Flow.Query.{amount_before, ranks, ranked}

id_before_trans :
    (a b c : NodeId) → id_before a b ≡ true → id_before b c ≡ true → id_before a c ≡ true
id_before_trans a b c h k = ground arith

id_before_total : (a b : NodeId) → id_before a b ≡ false → id_before b a ≡ true
id_before_total a b h = ground arith

amount_before_trans :
    (x y z : Option ℕ) (p q r : Bool)
    → (p ≡ true → q ≡ true → r ≡ true)
    → amount_before x y p ≡ true
    → amount_before y z q ≡ true
    → amount_before x z r ≡ true
amount_before_trans none none none p q r f h k = f h k
amount_before_trans none none (some c) p q r f h k = k
amount_before_trans none (some b) z p q r f h k = absurd (cc)
amount_before_trans (some a) none none p q r f h k = refl
amount_before_trans (some a) none (some c) p q r f h k = absurd (cc)
amount_before_trans (some a) (some b) none p q r f h k = refl
amount_before_trans (some a) (some b) (some c) true true r f h k =
    let e = f refl refl in ground arith
amount_before_trans (some a) (some b) (some c) false q r f h k = ground arith
amount_before_trans (some a) (some b) (some c) true false r f h k = ground arith

amount_before_total :
    (x y : Option ℕ) (p q : Bool)
    → (p ≡ false → q ≡ true)
    → amount_before x y p ≡ false
    → amount_before y x q ≡ true
amount_before_total none none p q f h = f h
amount_before_total none (some m) p q f h = refl
amount_before_total (some n) none p q f h = absurd (cc)
amount_before_total (some n) (some m) true q f h = ground arith
amount_before_total (some n) (some m) false q f h = let e = f refl in ground arith

ranks_trans : (c d e : Counterparty) → ranks c d ≡ true → ranks d e ≡ true → ranks c e ≡ true
ranks_trans c d e h k =
    amount_before_trans c.amount_sats d.amount_sats e.amount_sats (id_before c.id d.id)
      (id_before d.id e.id) (id_before c.id e.id) (id_before_trans c.id d.id e.id) h k

ranks_total : (c d : Counterparty) → ranks c d ≡ false → ranks d c ≡ true
ranks_total c d h =
    amount_before_total c.amount_sats d.amount_sats (id_before c.id d.id) (id_before d.id c.id)
      (id_before_total c.id d.id) h

All-drop :
    (P : Counterparty → Type 0) (n : ℕ) (cs : List Counterparty) → All P cs → All P (drop n cs)
All-drop P zero cs h = h
All-drop P (suc n) [] h = h
All-drop P (suc n) (c ∷ cs) h = All-drop P n cs h.1

All-take :
    (P : Counterparty → Type 0) (n : ℕ) (cs : List Counterparty) → All P cs → All P (take n cs)
All-take P zero cs h = tt
All-take P (suc n) [] h = h
All-take P (suc n) (c ∷ cs) h = (h.0, All-take P n cs h.1)

take-IsSortedBy :
    (n : ℕ) (cs : List Counterparty) → IsSortedBy ranks cs → IsSortedBy ranks (take n cs)
take-IsSortedBy zero cs h = tt
take-IsSortedBy (suc n) [] h = h
take-IsSortedBy (suc n) (c ∷ cs) h =
    (All-take (λ d. ranks c d ≡ true) n cs h.0, take-IsSortedBy n cs h.1)

before_dropped :
    (n : ℕ) (cs : List Counterparty)
    → IsSortedBy ranks cs
    → All (λ c. All (λ d. ranks c d ≡ true) (drop n cs)) (take n cs)
before_dropped zero cs h = tt
before_dropped (suc n) [] h = tt
before_dropped (suc n) (c ∷ cs) h =
    (All-drop (λ d. ranks c d ≡ true) n cs h.0, before_dropped n cs h.1)

split_at : (n : ℕ) (cs : List Counterparty) → take n cs ++ drop n cs ≡ cs
split_at zero cs = refl
split_at (suc n) [] = refl
split_at (suc n) (c ∷ cs) = ap (λ ds. c ∷ ds) (split_at n cs)

-- The shown entries are the first of the entries in the order of the ranking, which comes to them
-- sorted, and the others are counted.
pub record IsTop (entries shown : List Counterparty) (limit hidden : ℕ) : Type 0 where
  pub fits : length shown ≤ limit
  pub sorted : IsSortedBy ranks shown
  pub others : List Counterparty
  pub all_ranked : shown ++ others ≡ sort_by ranks entries
  pub behind : All (λ c. All (λ d. ranks c d ≡ true) others) shown
  pub counted : length others ≡ hidden
  pub complete : length shown + hidden ≡ length entries

pub ranked-IsTop :
    (entries : List Counterparty) (limit : ℕ)
    → IsTop entries (ranked entries limit).0 limit (ranked entries limit).1
unfolding ranked
ranked-IsTop entries limit =
    let ordered = sort_by ranks entries in
    let is_sorted = sort_by-IsSortedBy ranks ranks_trans ranks_total entries in
    record {
      fits = length-take-le limit ordered;
      sorted = take-IsSortedBy limit ordered is_sorted;
      others = drop limit ordered;
      all_ranked = split_at limit ordered;
      behind = before_dropped limit ordered is_sorted;
      counted = length-drop limit ordered;
      complete =
          let size = length-sort_by ranks entries in
          let (low, full) = length-take limit ordered in
          let parts = length-drop limit ordered in
          let e = ap length (split_at limit ordered) in
          let f = length-append (take limit ordered) (drop limit ordered) in omega arith;
    }
