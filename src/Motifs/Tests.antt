-- ===== src/Motifs/Tests.antt =====
-- A chain of three spends, and each theorem about motifs at it.
use trace_x.Common.{
  ◌-◌, map, inr, All, ℕ, ◌≤◌, ◌≡◌, refl, inl, true, Option, none, some, List, [], ◌∷◌, arith, Any,
}
use trace_x.Motifs.Model.{Outpoint, Output, Input, outpoint_of, output_at}
use trace_x.Motifs.Spenders.{spender_of}
use trace_x.Motifs.Peeling.{
  Facts, Hop, peeling_hop, walk_from, HopCache, txids_of, Signal, starts, detect_peeling_chains,
}
use trace_x.Motifs.Coinjoin.{Thresholds, CoinjoinFinding}
use trace_x.Motifs.Seeds.{Seed, Proximity, propagate_synthetic_review_seeds}
use trace_x.Motifs.Seeds.Reach.{Reach}
use trace_x.Motifs.Seeds.Best.{IsDecay}
use trace_x.Motifs.Seeds.Nearest.{
  HasSeed, propagate_synthetic_review_seeds-HasSeed, propagate_synthetic_review_seeds_complete,
}
use trace_x.Motifs.Peeling.Detected.{
  IsDetected, detect_peeling_chains-IsDetected, detect_peeling_chains_complete,
}

abbrev paid : ℕ → ℕ → ℕ → Output
paid txid vout amount = record {
  txid = txid;
  vout = vout;
  amount_sats = amount;
  address = none;
  script_id = none;
}

abbrev spent_by : ℕ → ℕ → ℕ → ℕ → Input
spent_by txid vin prev_txid prev_vout = record {
  txid = txid;
  vin = vin;
  prev_txid = some prev_txid;
  prev_vout = some prev_vout;
  address = none;
}

-- Transaction 1 pays 1000; 2 spends it into 900 and 90; 3 spends the 900 into 50 and 840; 4 spends
-- the 840.
abbrev chain : Facts
chain = record {
  inputs = spent_by 2 0 1 0 ∷ spent_by 3 0 2 0 ∷ spent_by 4 0 3 1 ∷ [];
  outputs = paid 1 0 1000 ∷ paid 2 0 900 ∷ paid 2 1 90 ∷ paid 3 0 50 ∷ paid 3 1 840 ∷ [];
}

abbrev start : Outpoint
start = record { txid = 1; vout = 0 }

program : Unit {0}
unfolding detect_peeling_chains peeling_hop walk_from spender_of output_at
program = tt

chain-starts : starts chain ≡ start ∷ outpoint_of (paid 2 0 900) ∷ outpoint_of (paid 3 1 840) ∷ []
unfolding program
chain-starts = refl

chain_walk : txids_of (walk_from chain 8 start) ≡ 2 ∷ 3 ∷ 4 ∷ []
unfolding program
chain_walk = refl

found : Option (List Signal)
unfolding program
found = detect_peeling_chains chain 8 3

chain_signal : Signal
chain_signal = record { start = start; walk = walk_from chain 8 start }

chain_found : detect_peeling_chains chain 8 3 ≡ some (chain_signal ∷ [])
unfolding program chain_signal
chain_found = refl

refused : detect_peeling_chains chain 0 3 ≡ none
unfolding program
refused = refl

abbrev first_hop : Hop
first_hop = record { spending_txid = 2; continuation = some (paid 2 0 900) }

abbrev warm : HopCache
warm = (start, some first_hop) ∷ []

detect_peeling_chains-IsDetected_example : IsDetected chain 8 3 (chain_signal ∷ [])
detect_peeling_chains-IsDetected_example = detect_peeling_chains-IsDetected chain 8 3 chain_found

detect_peeling_chains_complete_example :
    Any (λ (s : Signal). txids_of s.walk ≡ txids_of (walk_from chain 8 start)) (chain_signal ∷ [])
unfolding program
detect_peeling_chains_complete_example =
    detect_peeling_chains_complete chain 8 3 start chain_found refl (omega arith)

-- Transaction 5 has three inputs, and three outputs of 100 beside one of 37.
abbrev mixed_inputs : List Input
mixed_inputs = spent_by 5 0 90 0 ∷ spent_by 5 1 91 0 ∷ spent_by 5 2 92 0 ∷ []

abbrev mixed_outputs : List Output
mixed_outputs = paid 5 0 100 ∷ paid 5 1 37 ∷ paid 5 2 100 ∷ paid 5 3 100 ∷ []

abbrev thresholds : Thresholds
thresholds = record {
  min_inputs = 3;
  min_outputs = 3;
  min_equal_outputs = 3;
  equality_tolerance_sats = 0;
}

abbrev mixed : CoinjoinFinding
mixed = record {
  txid = 5;
  input_count = 3;
  output_count = 4;
  equal_group = record { first = paid 5 0 100; rest = paid 5 2 100 ∷ paid 5 3 100 ∷ [] };
  equal_output_value_sats = 100;
}

-- As the chain above, with an address for each output.
abbrev at_address : ℕ → Output → Output
at_address address o = record o { address = some address }

abbrev traced : Facts
traced = record {
  inputs = spent_by 2 0 1 0 ∷ spent_by 3 0 2 0 ∷ [];
  outputs =
      at_address 40 (paid 1 0 1000)
      ∷ at_address 41 (paid 2 0 900)
      ∷ at_address 40 (paid 2 1 90)
      ∷ at_address 42 (paid 3 0 50)
      ∷ [];
}

abbrev seeds : List Seed
seeds = record { id = 1; address = 40; synthetic = true } ∷ []

abbrev score : ℕ → ℕ
score d = 10 - d

score-IsDecay : IsDecay score
score-IsDecay d e le = omega (arith, le)

traced_entities :
    map {B = ℕ × ℕ × ℕ}
      (λ (p : Proximity). (p.nearest.entity, p.nearest.distance, p.risk_seed_count))
      (propagate_synthetic_review_seeds traced 1 score seeds)
    ≡ (40, 0, 1) ∷ (41, 1, 1) ∷ []
unfolding propagate_synthetic_review_seeds spender_of
traced_entities = refl

traced-Reach : Reach traced 40 1 (at_address 41 (paid 2 0 900))
unfolding program
traced-Reach =
    Reach.hop 0 (at_address 40 (paid 1 0 1000)) (at_address 41 (paid 2 0 900)) (spent_by 2 0 1 0) 41
      (Reach.here (at_address 40 (paid 1 0 1000)) (inl refl) refl) refl (inr (inl refl)) refl refl

propagate_synthetic_review_seeds-HasSeed_example :
    All
      (λ (p : Proximity). HasSeed traced 2 seeds p.nearest)
      (propagate_synthetic_review_seeds traced 2 score seeds)
propagate_synthetic_review_seeds-HasSeed_example =
    propagate_synthetic_review_seeds-HasSeed traced 2 score seeds

propagate_synthetic_review_seeds_complete_example :
    Any
      (λ (p : Proximity). (p.nearest.entity ≡ 41) × (p.nearest.distance ≤ 1))
      (propagate_synthetic_review_seeds traced 2 score seeds)
propagate_synthetic_review_seeds_complete_example =
    propagate_synthetic_review_seeds_complete traced 2 score seeds
      (record { id = 1; address = 40; synthetic = true }) 1 41 (at_address 41 (paid 2 0 900))
      score-IsDecay (inl refl) refl traced-Reach (omega arith) refl
