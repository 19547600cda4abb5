-- ===== src/Motifs/Coinjoin.antt =====
-- `detect_coinjoin_like_transactions` of app/engine/motifs/deterministic.py: groups of outputs of equal
-- value, up to a tolerance. Scores, texts and references are left out.
pub mod Buckets
pub mod Reported
use trace_x.Common.{
  ℕ, zero, suc, ◌+◌, ◌*◌, ◌/◌, ◌-◌, Bool, true, false, not, ◌&&◌, ◌||◌, Option, none, some, List,
  [], ◌∷◌, ◌++◌, map, ◌==◌, ltb, leb, if◌then◌else◌, select, length,
}
use trace_x.Common.Sort.{insert_by, sort_by}
use trace_x.Motifs.Model.{Output, Input}

pub record Thresholds : Type 0 where
  pub min_inputs : ℕ
  pub min_outputs : ℕ
  pub min_equal_outputs : ℕ
  pub equality_tolerance_sats : ℕ

-- A group is never empty.
pub record Bucket : Type 0 where
  pub first : Output
  pub rest : List Output

abbrev pub members : Bucket → List Output
members b = b.first ∷ b.rest

-- The key `(amount_sats, vout)`.
abbrev pub value_le : Output → Output → Bool
value_le a b =
    ltb a.amount_sats b.amount_sats || (a.amount_sats == b.amount_sats) && leb a.vout b.vout

-- `output["amount_sats"] - group[0]["amount_sats"] <= equality_tolerance_sats`
abbrev pub fits_in : (tolerance : ℕ) → Output → Bucket → Bool
fits_in tolerance o b = leb o.amount_sats (b.first.amount_sats + tolerance)

abbrev pub appended : Output → Bucket → Bucket
appended o b = record b { rest = b.rest ++ o ∷ [] }

-- The first group that fits takes the output, or a new one does.
unfoldable pub put_output : (tolerance : ℕ) → Output → List Bucket → List Bucket
put_output tolerance o [] = record { first = o; rest = [] } ∷ []
put_output tolerance o (b ∷ bs) =
    if fits_in tolerance o b then appended o b ∷ bs else b ∷ put_output tolerance o bs

unfoldable pub bucketed : (tolerance : ℕ) → List Output → List Bucket → List Bucket
unfolding put_output
bucketed tolerance [] groups = groups
bucketed tolerance (o ∷ os) groups = bucketed tolerance os (put_output tolerance o groups)

abbrev pub of_tx : ℕ → Output → Bool
of_tx txid o = o.txid == txid

abbrev pub spends_in : ℕ → Input → Bool
spends_in txid i = i.txid == txid

-- `tx_outputs`
unfoldable pub sorted_outputs : (txid : ℕ) → List Output → List Output
unfolding sort_by select
sorted_outputs txid outputs = sort_by value_le (select (of_tx txid) outputs)

abbrev amount_at : ℕ → List Output → ℕ
amount_at n [] = 0
amount_at zero (o ∷ os) = o.amount_sats
amount_at (suc n) (o ∷ os) = amount_at n os

-- Twice `median(...)`: the sum of the two middle values, which may be one. The outputs of a group are
-- in the order of their values.
abbrev pub twice_median : Bucket → ℕ
twice_median b =
    let n = length (members b) in
    amount_at ((n - 1) / 2) (members b) + amount_at (n / 2) (members b)

-- The key `(-len(group), median(...), group[0]["vout"])`: `a` does not come after `b`.
abbrev pub group_le : Bucket → Bucket → Bool
group_le a b =
    let m = length (members a) in
    let n = length (members b) in
    ltb n m
    || (m == n)
      && (ltb (twice_median a) (twice_median b)
          || (twice_median a == twice_median b) && leb a.first.vout b.first.vout)

abbrev pub better : Bucket → Bucket → Bucket
better best b = if group_le best b then best else b

-- `min(qualifying, key=...)`: the first of the least.
unfoldable pub least : Bucket → List Bucket → Bucket
least best [] = best
least best (b ∷ bs) = least (better best b) bs

pub record CoinjoinFinding : Type 0 where
  pub txid : ℕ
  pub input_count : ℕ
  pub output_count : ℕ
  pub equal_group : Bucket
  pub equal_output_value_sats : ℕ

abbrev pub qualifies : (min_equal_outputs : ℕ) → Bucket → Bool
qualifies min_equal_outputs b = leb min_equal_outputs (length (members b))

-- `if not qualifying: continue`, else the finding.
abbrev pub finding_of :
    (txid input_count output_count : ℕ) (qualifying : List Bucket) → List CoinjoinFinding
finding_of txid input_count output_count [] = []
finding_of txid input_count output_count (b ∷ bs) =
    let group = least b bs in
    record {
      txid = txid;
      input_count = input_count;
      output_count = output_count;
      equal_group = group;
      equal_output_value_sats = twice_median group / 2;
    }
    ∷ []

-- What one transaction gives.
unfoldable pub examine : Thresholds → List Input → List Output → (txid : ℕ) → List CoinjoinFinding
unfolding sorted_outputs bucketed least select
examine t inputs outputs txid =
    let tx_outputs = sorted_outputs txid outputs in
    let input_count = length (select (spends_in txid) inputs) in
    let output_count = length tx_outputs in
    if ltb input_count t.min_inputs || ltb output_count t.min_outputs
    then []
    else finding_of txid input_count output_count
        (select (qualifies t.min_equal_outputs) (bucketed t.equality_tolerance_sats tx_outputs []))

unfoldable pub examine_all :
    Thresholds → List Input → List Output → (txids : List ℕ) → List CoinjoinFinding
unfolding examine
examine_all t inputs outputs [] = []
examine_all t inputs outputs (txid ∷ txids) =
    examine t inputs outputs txid ++ examine_all t inputs outputs txids

abbrev pub number_le : ℕ → ℕ → Bool
number_le a b = leb a b

-- `detect_coinjoin_like_transactions`, on the ids of the transactions; `none` is its ValueError.
unfoldable pub detect_coinjoin_like_transactions :
    Thresholds → (txids : List ℕ) → List Input → List Output → Option (List CoinjoinFinding)
unfolding examine_all sort_by
detect_coinjoin_like_transactions t txids inputs outputs =
    if ltb t.min_inputs 1 || ltb t.min_outputs 1 || ltb t.min_equal_outputs 1
    then none
    else some (examine_all t inputs outputs (sort_by number_le txids))
