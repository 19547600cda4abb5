-- ===== src/Canonical/Facts.antt =====
-- The facts of app/engine/canonical/normalize.py, without their constant fields.
use trace_x.Common.{ℕ, Bool, Option, List}
use trace_x.Canonical.Text.{Text}
use trace_x.Canonical.Model.{Value, ℤ}

pub record SourceRef : Type 0 where
  pub evidence_id : ℕ
  pub source_sha256 : ℕ
  pub locator_type : Text
  pub locator : Text

-- What every fact of a row repeats.
pub record Origin : Type 0 where
  pub case_id : ℕ
  pub network : Text
  pub txid : Text
  pub source_ref : SourceRef

pub record Transaction : Type 0 where
  pub origin : Origin
  pub block_hash : Option Text
  pub block_height : Option ℤ
  pub block_time : Option Text
  pub block_time_original : Option Text
  pub fee_sats : Option ℕ
  pub source_timestamp : Option Text
  pub source_timestamp_original : Option Text
  -- `source_timestamp_meaning`: "block_time" or "unknown"
  pub means_block_time : Bool

-- `prev_vout`: null, the empty text that the source has, or an index.
pub data PrevVout : Type 0 where
  absent blank : PrevVout
  index : ℕ → PrevVout

pub record Input : Type 0 where
  pub origin : Origin
  pub vin : ℕ
  pub prev_txid : Option Text
  pub prev_vout : PrevVout
  pub address : Option Text
  pub amount_sats : Option ℕ
  pub sequence : Value

pub record Output : Type 0 where
  pub origin : Origin
  pub vout : ℕ
  pub amount_sats : Option ℕ
  pub script_id : Option Text
  pub script_type : Option Text
  pub address : Option Text

pub record Observation : Type 0 where
  pub origin : Origin
  pub source_id : ℕ
  pub logical_record : ℕ
  pub observer_id : Text
  pub src_ip : Option Text
  pub dst_ip : Option Text
  pub src_port : Option ℕ
  pub dst_port : Option ℕ
  pub endpoint_ip : Option Text
  pub endpoint_port : Option ℕ
  pub geo_country : Option Text
  pub asn : Option Text
  pub observer_received_at : Option Text
  pub observer_time_original : Option Text

-- The dictionary of facts of a NormalizedRow.
pub record Facts : Type 0 where
  pub transaction : Transaction
  pub inputs : List Input
  pub outputs : List Output
  pub observations : List Observation
