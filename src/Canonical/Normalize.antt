-- ===== src/Canonical/Normalize.antt =====
-- normalize_row of app/engine/canonical/normalize.py and normalize_one of batch.py.
use trace_x.Common.{
  ℕ, zero, suc, ◌+◌, Bool, true, false, ◌&&◌, not, List, [], ◌∷◌, map, Option, none, some,
  if◌then◌else◌,
}
use trace_x.Canonical.Text.{Text, codes, is_txid}
use trace_x.Canonical.Model.{
  Value, null, text, object, fields, Dict, lookup, get, ℤ, pos, negsuc, Integer, integer, invalid,
  overflow, Reason, Outcome, ok, rejected, escaped, ◌>>=◌, ◌>>◌, guard, Python,
}
use trace_x.Canonical.Values.{
  is_given, optional_text, sats, int_of, timestamp, is_truthy, has_items,
}
use trace_x.Canonical.Profiles.{is_among}
use trace_x.Canonical.Facts.{SourceRef, Origin, Transaction, PrevVout, Input, Output}

abbrev pub networks : List Text
networks = map codes ("bitcoin-mainnet" ∷ "bitcoin-testnet" ∷ "bitcoin-regtest" ∷ "unknown" ∷ [])

abbrev pub or_text : Text → Option Text → Text
or_text d none = d
or_text d (some t) = t

abbrev pub or_type : Option Text → Option Text → Option Text
or_type d none = d
or_type d (some t) = some t

-- `all(isinstance(item, str) for item in items)`
abbrev pub is_text : Value → Bool
is_text (text t) = true
is_text _ = false

unfoldable pub all_texts : List Value → Bool
all_texts [] = true
all_texts (v ∷ vs) = is_text v && all_texts vs

-- Objects and addresses of one side, after a plain list of addresses has changed its place.
abbrev pub sides : (objects addresses : List Value) → List Value × List Value
sides objects addresses =
    if has_items objects && not (has_items addresses) && all_texts objects
    then ([], objects)
    else (objects, addresses)

-- `list[i]`; out of range is an IndexError.
unfoldable pub element : ℕ → List Value → Outcome Value
element i [] = escaped
element zero (v ∷ vs) = ok v
element (suc i) (v ∷ vs) = element i vs

abbrev pub height_of : Integer → Outcome (Option ℤ)
height_of (integer n) = ok (some n)
height_of invalid = rejected Reason.bad_block_height
height_of overflow = escaped

abbrev pub vout_of : Integer → Outcome PrevVout
vout_of (integer (pos n)) = ok (PrevVout.index n)
vout_of (integer (negsuc n)) = rejected Reason.negative_prev_vout
vout_of invalid = rejected Reason.bad_prev_vout
vout_of overflow = escaped

-- A value that is not given passes through.
abbrev pub vout_missing : Value → PrevVout
vout_missing (text t) = PrevVout.blank
vout_missing _ = PrevVout.absent

module _ (py : Python) where
  abbrev pub checked_txid : Reason → Option Text → Outcome Text
  checked_txid r none = rejected r
  checked_txid r (some t) = do guard (is_txid (py.lower t)) r; ok (py.lower t)

  -- `txid` and `network`
  unfoldable pub read_origin : (case_id : ℕ) → SourceRef → Dict → Outcome Origin
  unfolding optional_text is_txid is_among get
  read_origin case_id source_ref raw = do
    raw_txid ← optional_text (get (codes "txid") raw)
    txid ← checked_txid Reason.bad_txid raw_txid
    network ← optional_text (get (codes "network") raw)
    guard (is_among (or_text (codes "unknown") network) networks) Reason.unsupported_network
    ok (record {
      case_id = case_id;
      network = or_text (codes "unknown") network;
      txid = txid;
      source_ref = source_ref;
    })

  -- An amount of the record: in satoshis if it has the key for those.
  abbrev pub amount_at : (sats_key key : Text) → Dict → Outcome (Option ℕ)
  amount_at sats_key key raw = elim (lookup sats_key raw) [
    | some v ↦ sats py true v
    | none ↦ sats py false (get key raw)
  ]

  abbrev pub read_height : Value → Outcome (Option ℤ)
  read_height v = if is_given v then height_of (int_of py v) else ok none

  abbrev pub observed_value : Dict → Value
  observed_value raw =
      if is_truthy py (get (codes "timestamp") raw)
      then get (codes "timestamp") raw
      else get (codes "observed_at") raw

  abbrev pub read_block_time : Value → Outcome (Option Text × Option Text)
  read_block_time v = if is_given v then timestamp py v else ok (none, none)

  unfoldable pub read_transaction : Origin → Dict → Outcome Transaction
  unfolding optional_text timestamp sats int_of lookup get
  read_transaction origin raw = do
    (observed, original) ← timestamp py (observed_value raw)
    fee ← amount_at (codes "fee_sats") (codes "fee") raw
    block_hash ← optional_text (get (codes "block_hash") raw)
    block_height ← read_height (get (codes "block_height") raw)
    (block_time, block_original) ← read_block_time (get (codes "block_time") raw)
    ok (record {
      origin = origin;
      block_hash = block_hash;
      block_height = block_height;
      block_time = block_time;
      block_time_original = block_original;
      fee_sats = fee;
      source_timestamp = observed;
      source_timestamp_original = original;
      means_block_time = is_given (get (codes "block_time") raw);
    })

  abbrev pub checked_prev : Option Text → Outcome (Option Text)
  checked_prev none = ok none
  checked_prev (some t) = do
    guard (is_txid (py.lower t)) Reason.bad_prev_txid
    ok (some (py.lower t))

  abbrev pub read_vout : Value → Outcome PrevVout
  read_vout v = if is_given v then vout_of (int_of py v) else ok (vout_missing v)

  unfoldable pub object_input : Origin → (vin : ℕ) → Dict → Outcome Input
  unfolding optional_text sats int_of lookup get is_txid
  object_input origin vin source = do
    prev ← optional_text (get (codes "prev_txid") source)
    prev_txid ← checked_prev prev
    prev_vout ← read_vout (get (codes "prev_vout") source)
    amount ← amount_at (codes "amount_sats") (codes "amount") source
    address ← optional_text (get (codes "address") source)
    ok (record {
      origin = origin;
      vin = vin;
      prev_txid = prev_txid;
      prev_vout = prev_vout;
      address = address;
      amount_sats = amount;
      sequence = get (codes "sequence") source;
    })

  -- `isinstance(value, dict)`
  abbrev pub as_object : Value → Outcome Dict
  as_object (object fs) = ok (fields fs)
  as_object _ = rejected Reason.not_object

  unfoldable pub object_inputs : Origin → (vin : ℕ) → List Value → Outcome (List Input)
  unfolding object_input fields
  object_inputs origin vin [] = ok []
  object_inputs origin vin (v ∷ vs) = do
    source ← as_object v
    input ← object_input origin vin source
    rest ← object_inputs origin (vin + 1) vs
    ok (input ∷ rest)

  abbrev pub flat_amount : (in_sats : Bool) → ℕ → List Value → Outcome (Option ℕ)
  flat_amount in_sats i amounts = element i amounts >>= λ v. sats py in_sats v

  unfoldable pub flat_inputs :
      Origin
      → (in_sats : Bool) → (amounts : List Value) → (vin : ℕ) → List Value
      → Outcome (List Input)
  unfolding optional_text sats element
  flat_inputs origin in_sats amounts vin [] = ok []
  flat_inputs origin in_sats amounts vin (v ∷ vs) = do
    address ← optional_text v
    amount ← (if has_items amounts then flat_amount in_sats vin amounts else ok none)
    rest ← flat_inputs origin in_sats amounts (vin + 1) vs
    ok (
        (record {
          origin = origin;
          vin = vin;
          prev_txid = none;
          prev_vout = PrevVout.absent;
          address = address;
          amount_sats = amount;
          sequence = null;
        })
        ∷ rest)

  abbrev pub required : Option ℕ → Outcome (Option ℕ)
  required none = rejected Reason.amount_required
  required (some n) = ok (some n)

  -- `source_output.get("amount", source_output.get("value"))`
  abbrev pub output_amount : Dict → Outcome (Option ℕ)
  output_amount source = elim (lookup (codes "amount_sats") source) [
    | some v ↦ sats py true v
    | none ↦ elim (lookup (codes "amount") source) [
      | some v ↦ sats py false v
      | none ↦ sats py false (get (codes "value") source)
    ]
  ]

  unfoldable pub object_output :
      Origin → (script_type : Option Text) → (vout : ℕ) → Dict → Outcome Output
  unfolding optional_text sats lookup get
  object_output origin script_type vout source = do
    read ← output_amount source
    amount ← required read
    script_id ← optional_text (get (codes "script_id") source)
    own_type ← optional_text (get (codes "script_type") source)
    address ← optional_text (get (codes "address") source)
    ok (record {
      origin = origin;
      vout = vout;
      amount_sats = amount;
      script_id = script_id;
      script_type = or_type script_type own_type;
      address = address;
    })

  unfoldable pub object_outputs :
      Origin → (script_type : Option Text) → (vout : ℕ) → List Value → Outcome (List Output)
  unfolding object_output fields
  object_outputs origin script_type vout [] = ok []
  object_outputs origin script_type vout (v ∷ vs) = do
    source ← as_object v
    output ← object_output origin script_type vout source
    rest ← object_outputs origin script_type (vout + 1) vs
    ok (output ∷ rest)

  unfoldable pub flat_outputs :
      Origin
      → (script_type : Option Text) → (in_sats : Bool) → (amounts : List Value) → (vout : ℕ)
      → List Value
      → Outcome (List Output)
  unfolding optional_text sats element
  flat_outputs origin script_type in_sats amounts vout [] = ok []
  flat_outputs origin script_type in_sats amounts vout (v ∷ vs) = do
    amount ← flat_amount in_sats vout amounts
    address ← optional_text v
    rest ← flat_outputs origin script_type in_sats amounts (vout + 1) vs
    ok (
        (record {
          origin = origin;
          vout = vout;
          amount_sats = amount;
          script_id = none;
          script_type = script_type;
          address = address;
        })
        ∷ rest)
