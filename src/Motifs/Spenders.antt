-- ===== src/Motifs/Spenders.antt =====
-- `resolved_spenders`: only outputs that one transaction spends have a spender.
use trace_x.Common.{
  ℕ, Bool, true, false, not, Option, none, some, List, [], ◌∷◌, ◌==◌, ltb, if◌then◌else◌, select,
  exists_in,
}
use trace_x.Motifs.Model.{Outpoint, Output, Input, same_outpoint, spends, output_at}

abbrev pub is_some {ℓ} : {A : Type ℓ} → Option A → Bool
is_some none = false
is_some (some a) = true

abbrev pub names : Outpoint → Option Outpoint → Bool
names o none = false
names o (some p) = same_outpoint p o

-- The input spends the output.
abbrev pub spends_it : Outpoint → Input → Bool
spends_it o tx_input = names o (spends tx_input)

-- `grouped[outpoint]`, if the output is among those supplied.
unfoldable pub candidates_of : List Input → List Output → Outpoint → List Input
unfolding select output_at
candidates_of inputs outputs o =
    if is_some (output_at outputs o) then select (spends_it o) inputs else []

abbrev pub earlier : Input → Input → Input
earlier best x = if ltb x.vin best.vin then x else best

-- `min(candidates, key=lambda item: item["vin"])`: the first of those with the lowest vin.
unfoldable pub lowest_vin : Input → List Input → Input
lowest_vin best [] = best
lowest_vin best (x ∷ xs) = lowest_vin (earlier best x) xs

abbrev pub other_tx : ℕ → Input → Bool
other_tx txid tx_input = not (tx_input.txid == txid)

-- `len({candidate["txid"] for candidate in candidates}) == 1`, and then the lowest vin.
abbrev pub choose : List Input → Option Input
choose [] = none
choose (x ∷ xs) =
    let best = lowest_vin x xs in if exists_in (other_tx x.txid) xs then none else some best

-- `spenders.get(outpoint)` for `spenders = resolved_spenders(inputs, outputs)`.
unfoldable pub spender_of : List Input → List Output → Outpoint → Option Input
unfolding candidates_of lowest_vin exists_in
spender_of inputs outputs o = choose (candidates_of inputs outputs o)
