-- ===== src/Canonical/Tests.antt =====
-- Tests and instances for app/engine/canonical.
use trace_x.Common.{
  ℕ, ◌+◌, ◌-◌, ◌*◌, ◌≤◌, ◌≡◌, ◌↔◌, refl, false, ◌&&◌, List, [], ◌∷◌, map, Option, none, some, arith,
  leb, if◌then◌else◌,
}
use Prim.Native.Nat.{◌^◌}
use Prim.Native.String.{String}
use trace_x.Canonical.Text.{Text, codes}
use trace_x.Canonical.Model.{
  Value, Items, Dict, ParsedRow, ℤ, Integer, Decimal, Iso, ok, escaped, Python, lookup,
}
use trace_x.Canonical.Values.{max_sats, decimal_sats, endpoint_port}
use trace_x.Canonical.Profiles.{Rename, canonicalize}
use trace_x.Canonical.Renaming.{DistinctKeys}
use trace_x.Canonical.Stable.{IsRenamed, canonicalize-IsRenamed}
use trace_x.Canonical.Twice.{canonicalize-twice}
use trace_x.Canonical.Facts.{Origin, Input, Output, Facts, PrevVout}
use trace_x.Canonical.Row.{normalize_row}
use trace_x.Canonical.Accepted.{IsAccepted, normalize_row-IsAccepted}
use trace_x.Canonical.Exact.{decimal_sats_lem}

abbrev lower_ascii : Text → Text
lower_ascii = map (λ c. if leb b'A' c && leb c b'Z' then c + 32 else c)

-- The value of a run of digits.
abbrev digits_from : ℕ → Text → ℕ
digits_from n [] = n
digits_from n (c ∷ cs) = digits_from (n * 10 + (c - b'0')) cs

abbrev python : Python
python = record {
  lower = lower_ascii;
  decimal = λ t. some (Decimal.finite false (digits_from 0 t) 0 0);
  int_text = λ t. some (ℤ.pos (digits_from 0 t));
  int_number = λ t. Integer.overflow;
  is_zero = λ t. false;
  loads = λ t. none;
  literal_eval = λ t. none;
  epoch = λ t. none;
  iso = λ t. Iso.zoned t;
  naive_as_utc = false;
}

abbrev cell : String → Value
cell s = Value.text (codes s)

abbrev raw : Dict
raw =
    (codes "Tx Hash", cell "aa")
    ∷ (codes "time", cell "1")
    ∷ (codes "timestamp", cell "2")
    ∷ (codes "note", cell "x")
    ∷ []

raw_renamed : canonicalize lower_ascii raw ≡ (
  (codes "time", cell "1")
      ∷ (codes "timestamp", cell "2")
      ∷ (codes "note", cell "x")
      ∷ (codes "txid", cell "aa")
      ∷ [],
  (codes "Tx Hash", codes "txid") ∷ [],
)
unfolding canonicalize
raw_renamed = refl

raw-DistinctKeys : DistinctKeys raw
unfolding lookup
raw-DistinctKeys = (refl, (refl, (refl, (refl, tt))))

canonicalize-IsRenamed_example :
    IsRenamed lower_ascii raw (canonicalize lower_ascii raw).0 (canonicalize lower_ascii raw).1
canonicalize-IsRenamed_example = canonicalize-IsRenamed lower_ascii raw raw-DistinctKeys

canonicalize-twice_example :
    canonicalize lower_ascii (canonicalize lower_ascii raw).0
    ≡ ((canonicalize lower_ascii raw).0, [])
canonicalize-twice_example = canonicalize-twice lower_ascii raw raw-DistinctKeys

-- 1.5 bitcoins, and an amount of 32 digits whose excess the context rounds away.
decimal_sats_lem_example :
    (decimal_sats false (Decimal.finite false 15 0 1) ≡ ok (some 150000000))
    ↔ ((150000000 * 10 ^ 1 ≡ 15 * 100000000 * 10 ^ 0) × (150000000 ≤ max_sats))
decimal_sats_lem_example = decimal_sats_lem 15 0 1 150000000 (omega arith)

excess_rounded_away :
    decimal_sats false (Decimal.finite false 20000000000000000000000000000001 0 24)
    ≡ ok (some 2000000000000000)
unfolding decimal_sats
excess_rounded_away = refl

-- A number too great for the context, and a port that is an infinite float, end the import.
huge_escapes : decimal_sats false (Decimal.huge false) ≡ escaped
unfolding decimal_sats
huge_escapes = refl

infinite_port_escapes : endpoint_port python (Value.number (codes "inf")) ≡ escaped
unfolding endpoint_port
infinite_port_escapes = refl

abbrev hash : Text
hash = codes "00000000000000000000000000000000000000000000000000000000000000af"

-- A flat row, with one blank amount in an array.
abbrev row : ParsedRow
row = record {
  logical_record = 4;
  locator_type = codes "record";
  locator = codes "record:4";
  value =
      (codes "TxHash", Value.text hash)
      ∷ (codes "from", cell "a1;a2")
      ∷ (codes "to", cell "b1|b2")
      ∷ (
        codes "output_amounts_sats",
        Value.array (Items.cons (cell "") (Items.cons (cell "7") Items.nil)),
      )
      ∷ (codes "sport", cell "8333")
      ∷ [];
}

abbrev origin : Origin
origin = record {
  case_id = 1;
  network = codes "unknown";
  txid = hash;
  source_ref = record {
    evidence_id = 2;
    source_sha256 = 3;
    locator_type = codes "record";
    locator = codes "record:4";
  };
}

abbrev input_at : ℕ → String → Input
input_at i a = record {
  origin = origin;
  vin = i;
  prev_txid = none;
  prev_vout = PrevVout.absent;
  address = some (codes a);
  amount_sats = none;
  sequence = Value.null;
}

abbrev output_at : ℕ → String → Option ℕ → Output
output_at i a amount = record {
  origin = origin;
  vout = i;
  amount_sats = amount;
  script_id = none;
  script_type = none;
  address = some (codes a);
}

abbrev facts : Facts
facts = record {
  transaction = record {
    origin = origin;
    block_hash = none;
    block_height = none;
    block_time = none;
    block_time_original = none;
    fee_sats = none;
    source_timestamp = none;
    source_timestamp_original = none;
    means_block_time = false;
  };
  inputs = input_at 0 "a1" ∷ input_at 1 "a2" ∷ [];
  outputs = output_at 0 "b1" none ∷ output_at 1 "b2" (some 7) ∷ [];
  observations =
      (record {
        origin = origin;
        source_id = 2;
        logical_record = 4;
        observer_id = codes "source-unspecified";
        src_ip = none;
        dst_ip = none;
        src_port = some 8333;
        dst_port = none;
        endpoint_ip = none;
        endpoint_port = some 8333;
        geo_country = none;
        asn = none;
        observer_received_at = none;
        observer_time_original = none;
      })
      ∷ [];
}

abbrev mapping : List Rename
mapping =
    (codes "TxHash", codes "txid")
    ∷ (codes "from", codes "input_addresses")
    ∷ (codes "to", codes "output_addresses")
    ∷ (codes "sport", codes "src_port")
    ∷ []

row_accepted : normalize_row python 1 2 3 row ≡ ok (facts, mapping)
unfolding normalize_row
row_accepted = refl

normalize_row-IsAccepted_example : IsAccepted python 1 2 3 row facts
normalize_row-IsAccepted_example =
    normalize_row-IsAccepted python 1 2 3 row facts mapping row_accepted
