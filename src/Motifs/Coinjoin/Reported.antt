-- ===== src/Motifs/Coinjoin/Reported.antt =====
-- What `detect_coinjoin_like_transactions` reports of a transaction.
use trace_x.Common.{ℕ, ◌≤◌, ◌≡◌, List, [], select, length, All, Any}
use trace_x.Motifs.Model.{Output, Input}
use trace_x.Motifs.Coinjoin.{
  Thresholds, Bucket, members, bucketed, spends_in, sorted_outputs, CoinjoinFinding,
}
use trace_x.Motifs.Coinjoin.Buckets.{AreBuckets, size}

-- A finding: enough inputs and outputs, and a group of enough outputs whose values are near each
-- other, which no group of the transaction exceeds.
pub record IsCoinjoin (t : Thresholds) (inputs : List Input) (outputs : List Output)
    (f : CoinjoinFinding) : Type 0 where
  pub counted_inputs : f.input_count ≡ length (select (spends_in f.txid) inputs)
  pub counted_outputs : f.output_count ≡ length (sorted_outputs f.txid outputs)
  pub enough_inputs : t.min_inputs ≤ f.input_count
  pub enough_outputs : t.min_outputs ≤ f.output_count
  pub groups : List Bucket
  pub buckets : AreBuckets t.equality_tolerance_sats groups
  pub sized : size groups ≡ f.output_count
  pub held : Any (λ b. b ≡ f.equal_group) groups
  pub enough_equal : t.min_equal_outputs ≤ length (members f.equal_group)
  pub largest : All (λ (b : Bucket). length (members b) ≤ length (members f.equal_group)) groups

module _ (t : Thresholds) (inputs : List Input) (outputs : List Output) (txid : ℕ) where
  abbrev groups_of : List Bucket
  groups_of = bucketed t.equality_tolerance_sats (sorted_outputs txid outputs) []
