-- ===== src/Canonical/Row.antt =====
-- A whole row: normalize_row of app/engine/canonical/normalize.py and normalize_one of batch.py.
use trace_x.Common.{
  ℕ, Bool, ◌&&◌, ◌||◌, not, List, [], ◌∷◌, Option, ◌==◌, if◌then◌else◌, length, exists_in,
}
use trace_x.Canonical.Text.{Text, codes}
use trace_x.Canonical.Model.{
  Value, Dict, get, ParsedRow, Reason, Outcome, ok, ◌>>=◌, ◌>>◌, guard, Python,
}
use trace_x.Canonical.Values.{is_given, optional_text, list_of, endpoint_port, has_items}
use trace_x.Canonical.Profiles.{Rename, canonicalize}
use trace_x.Canonical.Facts.{SourceRef, Origin, Transaction, Input, Output, Observation, Facts}
use trace_x.Canonical.Normalize.{
  or_text, sides, read_origin, read_transaction, object_inputs, flat_inputs, object_outputs,
  flat_outputs, all_texts,
}

-- One side of a transaction: objects, or addresses with amounts.
pub record Side : Type 0 where
  pub objects : List Value
  pub addresses : List Value
  pub amounts : List Value
  pub in_sats : Bool

-- The keys of a side.
pub record SideKeys : Type 0 where
  pub objects : Text
  pub addresses : Text
  pub amounts : Text
  pub amounts_sats : Text

abbrev pub input_keys : SideKeys
input_keys = record {
  objects = codes "inputs";
  addresses = codes "input_addresses";
  amounts = codes "input_amounts";
  amounts_sats = codes "input_amounts_sats";
}

abbrev pub output_keys : SideKeys
output_keys = record {
  objects = codes "outputs";
  addresses = codes "output_addresses";
  amounts = codes "output_amounts";
  amounts_sats = codes "output_amounts_sats";
}

abbrev pub network_fields : List Text
network_fields =
    codes "src_ip"
    ∷ codes "dst_ip"
    ∷ codes "src_port"
    ∷ codes "dst_port"
    ∷ codes "geo_country"
    ∷ codes "asn"
    ∷ []

-- `if input_amounts and len(input_addresses) != len(input_amounts)`
abbrev pub input_lengths_fit : Side → Bool
input_lengths_fit s = not (has_items s.amounts) || length s.addresses == length s.amounts

-- `if not source_outputs and (len(...) != len(...) or not output_amounts)`
abbrev pub output_lengths_fit : Side → Bool
output_lengths_fit s =
    has_items s.objects || length s.addresses == length s.amounts && has_items s.amounts

module _ (py : Python) where
  unfoldable pub read_side : SideKeys → Dict → Outcome Side
  unfolding list_of get all_texts
  read_side keys raw = do
    given ← (if is_given (get keys.objects raw) then list_of py (get keys.objects raw) else ok [])
    listed ← list_of py (get keys.addresses raw)
    let in_sats = not (is_given (get keys.amounts raw)) && is_given (get keys.amounts_sats raw)
    amounts ← list_of py (get (if in_sats then keys.amounts_sats else keys.amounts) raw)
    ok (record {
      objects = (sides given listed).0;
      addresses = (sides given listed).1;
      amounts = amounts;
      in_sats = in_sats;
    })

  unfoldable pub read_inputs : Origin → Side → Outcome (List Input)
  unfolding object_inputs flat_inputs
  read_inputs origin s =
      if has_items s.objects
      then object_inputs py origin 0 s.objects
      else flat_inputs py origin s.in_sats s.amounts 0 s.addresses

  unfoldable pub read_outputs : Origin → Option Text → Side → Outcome (List Output)
  unfolding object_outputs flat_outputs
  read_outputs origin script_type s =
      if has_items s.objects
      then object_outputs py origin script_type 0 s.objects
      else flat_outputs py origin script_type s.in_sats s.amounts 0 s.addresses

  unfoldable pub read_observation :
      (source_id logical_record : ℕ) → Transaction → Dict → Outcome Observation
  unfolding optional_text endpoint_port get
  read_observation source_id logical_record t raw = do
    observer ← optional_text (get (codes "observer_id") raw)
    src_ip ← optional_text (get (codes "src_ip") raw)
    dst_ip ← optional_text (get (codes "dst_ip") raw)
    src_port ← endpoint_port py (get (codes "src_port") raw)
    dst_port ← endpoint_port py (get (codes "dst_port") raw)
    geo_country ← optional_text (get (codes "geo_country") raw)
    asn ← optional_text (get (codes "asn") raw)
    ok (record {
      origin = t.origin;
      source_id = source_id;
      logical_record = logical_record;
      observer_id = or_text (codes "source-unspecified") observer;
      src_ip = src_ip;
      dst_ip = dst_ip;
      src_port = src_port;
      dst_port = dst_port;
      endpoint_ip = src_ip;
      endpoint_port = src_port;
      geo_country = geo_country;
      asn = asn;
      observer_received_at = t.source_timestamp;
      observer_time_original = t.source_timestamp_original;
    })

  unfoldable pub read_observations :
      (source_id logical_record : ℕ) → Transaction → Dict → Outcome (List Observation)
  unfolding read_observation exists_in
  read_observations source_id logical_record t raw =
      if exists_in (λ key. is_given (get key raw)) network_fields
      then (read_observation source_id logical_record t raw >>= λ o. ok (o ∷ []))
      else ok []

  -- `normalize_row` behind `canonicalize`
  unfoldable pub normalize_canonical :
      (case_id source_id source_sha256 : ℕ) → ParsedRow → Dict → Outcome Facts
  unfolding read_origin read_transaction read_side read_inputs read_outputs read_observations
  normalize_canonical case_id source_id source_sha256 row raw = do
    let source_ref : SourceRef = record {
      evidence_id = source_id;
      source_sha256 = source_sha256;
      locator_type = row.locator_type;
      locator = row.locator;
    }
    origin ← read_origin py case_id source_ref raw
    transaction ← read_transaction py origin raw
    source ← read_side input_keys raw
    guard (input_lengths_fit source) Reason.input_lengths
    target ← read_side output_keys raw
    guard (output_lengths_fit target) Reason.output_lengths
    inputs ← read_inputs origin source
    script_type ← optional_text (get (codes "script_type") raw)
    outputs ← read_outputs origin script_type target
    observations ← read_observations source_id row.logical_record transaction raw
    ok (record {
      transaction = transaction;
      inputs = inputs;
      outputs = outputs;
      observations = observations;
    })

  -- `normalize_row`, with the renames of the row
  unfoldable pub normalize_row :
      (case_id source_id source_sha256 : ℕ) → ParsedRow → Outcome (Facts × List Rename)
  unfolding canonicalize normalize_canonical
  normalize_row case_id source_id source_sha256 row =
      let (raw, mapping) = canonicalize py.lower row.value in
      normalize_canonical case_id source_id source_sha256 row raw >>= λ facts. ok (facts, mapping)
