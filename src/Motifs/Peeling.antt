-- ===== src/Motifs/Peeling.antt =====
-- `peeling_hop` and `detect_peeling_chains` of app/engine/motifs/deterministic.py: bounded walks along
-- spent, strictly smaller outputs, with the cache of hops and the choice of what is emitted.
pub mod Continuation
pub mod Walk
pub mod Cache
pub mod Emitted
pub mod Detected
use trace_x.Common.{
  ℕ, zero, suc, Bool, true, false, not, ◌&&◌, ◌||◌, Option, none, some, List, [], ◌∷◌, ◌++◌, map,
  ◌==◌, ltb, leb, if◌then◌else◌, select, exists_in, find_first, length,
}
use trace_x.Common.Sort.{insert_by, sort_by}
use trace_x.Motifs.Model.{Outpoint, Output, Input, same_outpoint, outpoint_of, spends, output_at}
use trace_x.Motifs.Spenders.{is_some, spender_of}

-- The two lists of facts of a snapshot.
pub record Facts : Type 0 where
  pub inputs : List Input
  pub outputs : List Output

abbrev pub spender : Facts → Outpoint → Option Input
spender f o = spender_of f.inputs f.outputs o

abbrev pub output : Facts → Outpoint → Option Output
output f o = output_at f.outputs o

-- The key `(-amount_sats, vout)`.
abbrev pub rank_le : Output → Output → Bool
rank_le a b =
    ltb b.amount_sats a.amount_sats || (a.amount_sats == b.amount_sats) && leb a.vout b.vout

-- `(item["txid"], item["vout"]) in spenders`, for an output of the transaction.
abbrev pub spent_from : Facts → (txid : ℕ) → Output → Bool
spent_from f txid item = (item.txid == txid) && is_some (spender f (outpoint_of item))

unfoldable pub ranked : Facts → (txid : ℕ) → List Output
unfolding select sort_by spender_of
ranked f txid = sort_by rank_le (select (spent_from f txid) f.outputs)

abbrev pub below : (amount : ℕ) → Output → Bool
below amount item = ltb item.amount_sats amount

pub record Hop : Type 0 where
  pub spending_txid : ℕ
  pub continuation : Option Output

abbrev pub hop_from : Facts → Option Input → Option Output → Option Hop
hop_from f none previous = none
hop_from f (some tx_input) none = none
hop_from f (some tx_input) (some previous) = some (record {
  spending_txid = tx_input.txid;
  continuation = find_first (below previous.amount_sats) (ranked f tx_input.txid);
})

-- `peeling_hop`; its cache of rankings holds what `ranked` gives.
unfoldable pub peeling_hop : Facts → Outpoint → Option Hop
unfolding ranked find_first spender_of output_at
peeling_hop f o = hop_from f (spender f o) (output f o)

-- One entry of a walk: the output, the transaction that spends it, and the output that goes on.
pub record WalkStep : Type 0 where
  pub at : Outpoint
  pub spending_txid : ℕ
  pub continuation : Option Output

abbrev pub step_at : Outpoint → Hop → WalkStep
step_at o h = record { at = o; spending_txid = h.spending_txid; continuation = h.continuation }

-- The walk from an output without the cache.
unfoldable pub walk_from : Facts → (hops : ℕ) → Outpoint → List WalkStep
unfolding peeling_hop
walk_from f zero o = []
walk_from f (suc hops) o = elim (peeling_hop f o) [
  | none ↦ []
  | some h ↦
      step_at o h ∷ (elim h.continuation [ none ↦ [] | some c ↦ walk_from f hops (outpoint_of c) ])
]

-- `hop_cache`
abbrev pub HopCache : Type 0
HopCache = List (Outpoint × Option Hop)

unfoldable pub cached : Outpoint → HopCache → Option (Option Hop)
cached o [] = none
cached o ((p, h) ∷ rest) = if same_outpoint p o then some h else cached o rest

-- `_next_hop`
unfoldable pub next_hop : Facts → HopCache → Outpoint → Option Hop × HopCache
unfolding cached peeling_hop
next_hop f cache o = elim (cached o cache) [
  | some h ↦ (h, cache)
  | none ↦ let h = peeling_hop f o in (h, (o, h) ∷ cache)
]

abbrev after_step : WalkStep → List WalkStep × HopCache → List WalkStep × HopCache
after_step step (walk, cache) = (step ∷ walk, cache)

-- The inner loop `for _ in range(max_hops)`.
unfoldable pub walk_cached : Facts → (hops : ℕ) → HopCache → Outpoint → List WalkStep × HopCache
unfolding next_hop
walk_cached f zero cache o = ([], cache)
walk_cached f (suc hops) cache o =
    let (hop, cache') = next_hop f cache o in
    elim hop [
      | none ↦ ([], cache')
      | some h ↦ elim h.continuation [
        | none ↦ (step_at o h ∷ [], cache')
        | some c ↦ after_step (step_at o h) (walk_cached f hops cache' (outpoint_of c))
      ]
    ]

-- The tuple of the spending transactions of a walk.
abbrev pub txids_of : List WalkStep → List ℕ
txids_of walk = map (λ (step : WalkStep). step.spending_txid) walk

unfoldable pub same_ids : List ℕ → List ℕ → Bool
same_ids [] [] = true
same_ids [] (y ∷ ys) = false
same_ids (x ∷ xs) [] = false
same_ids (x ∷ xs) (y ∷ ys) = (x == y) && same_ids xs ys

-- What is passed on to `build_peeling_signal`.
pub record Signal : Type 0 where
  pub start : Outpoint
  pub walk : List WalkStep

-- The test before `emitted.add`: too short, or seen.
abbrev pub dropped : (min_chain_length : ℕ) → List (List ℕ) → List WalkStep → Bool
dropped min_chain_length emitted walk =
    ltb (length walk) min_chain_length || exists_in (same_ids (txids_of walk)) emitted

-- The outer loop over the starts.
unfoldable pub emit :
    Facts → (max_hops min_chain_length : ℕ) → List (List ℕ) → HopCache → List Outpoint → List Signal
unfolding walk_cached same_ids exists_in
emit f max_hops min_chain_length emitted cache [] = []
emit f max_hops min_chain_length emitted cache (o ∷ os) =
    let (walk, cache') = walk_cached f max_hops cache o in
    let skip = emit f max_hops min_chain_length emitted cache' os in
    let keep = emit f max_hops min_chain_length (txids_of walk ∷ emitted) cache' os in
    if dropped min_chain_length emitted walk then skip else record { start = o; walk = walk } ∷ keep

-- The key `(txid, vout)`: 64 hexadecimal digits are in the order of the number that they write.
abbrev pub outpoint_le : Outpoint → Outpoint → Bool
outpoint_le a b = ltb a.txid b.txid || (a.txid == b.txid) && leb a.vout b.vout

-- The outputs that some input names, once each.
unfoldable pub named_outpoints : List Input → List Outpoint
unfolding exists_in
named_outpoints [] = []
named_outpoints (x ∷ xs) =
    let rest = named_outpoints xs in
    elim (spends x) [
      | none ↦ rest
      | some o ↦ if exists_in (same_outpoint o) rest then rest else o ∷ rest
    ]

-- `sorted(spenders)`
unfoldable pub starts : Facts → List Outpoint
unfolding named_outpoints select sort_by spender_of
starts f = sort_by outpoint_le (select (λ o. is_some (spender f o)) (named_outpoints f.inputs))

-- `detect_peeling_chains`; `none` is its ValueError.
unfoldable pub detect_peeling_chains :
    Facts → (max_hops min_chain_length : ℕ) → Option (List Signal)
unfolding emit starts
detect_peeling_chains f max_hops min_chain_length =
    if ltb max_hops 1 || ltb min_chain_length 1
    then none
    else some (emit f max_hops min_chain_length [] [] (starts f))
