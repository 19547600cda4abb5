-- ===== src/Motifs/Model.antt =====
-- The facts that the motif detectors read. A transaction id and an address are only compared, so they
-- are numbers; an address or script id that is missing or empty is `none`.
use trace_x.Common.{ℕ, Bool, ◌&&◌, Option, none, some, List, [], ◌∷◌, ◌==◌, if◌then◌else◌}

-- (txid, vout)
pub record Outpoint : Type 0 where
  pub txid : ℕ
  pub vout : ℕ

pub record Output : Type 0 where
  pub txid : ℕ
  pub vout : ℕ
  pub amount_sats : ℕ
  pub address : Option ℕ
  pub script_id : Option ℕ

pub record Input : Type 0 where
  pub txid : ℕ
  pub vin : ℕ
  pub prev_txid : Option ℕ
  pub prev_vout : Option ℕ
  pub address : Option ℕ

abbrev pub same_outpoint : Outpoint → Outpoint → Bool
same_outpoint a b = (a.txid == b.txid) && (a.vout == b.vout)

abbrev pub outpoint_of : Output → Outpoint
outpoint_of output = record { txid = output.txid; vout = output.vout }

-- `(prev_txid, prev_vout)` where both are known.
abbrev pub prevout_of : Option ℕ → Option ℕ → Option Outpoint
prevout_of none _ = none
prevout_of (some t) none = none
prevout_of (some t) (some v) = some (record { txid = t; vout = v })

abbrev pub spends : Input → Option Outpoint
spends tx_input = prevout_of tx_input.prev_txid tx_input.prev_vout

-- `outputs_by_outpoint`: a later output under the same key replaces an earlier one.
unfoldable pub output_at : List Output → Outpoint → Option Output
output_at [] o = none
output_at (x ∷ xs) o = elim (output_at xs o) [
  | some later ↦ some later
  | none ↦ if same_outpoint (outpoint_of x) o then some x else none
]
