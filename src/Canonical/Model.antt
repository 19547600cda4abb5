-- ===== src/Canonical/Model.antt =====
-- Values of a source record, facts, and what may come of a row: app/engine/canonical/normalize.py.
use trace_x.Common.{ℕ, Bool, true, false, List, [], ◌∷◌, Option, none, some, if◌then◌else◌}
use trace_x.Canonical.Text.{Text, text_eq}

-- A value that a reader of the source returns. A number is an `int` or a `float` by its `str`.
mutual
  pub data Value : Type 0 where
    null : Value
    text : Text → Value
    number : Text → Value
    boolean : Bool → Value
    array : Items → Value
    object : Fields → Value

  pub data Items : Type 0 where
    nil : Items
    cons : Value → Items → Items

  pub data Fields : Type 0 where
    end : Fields
    field : Text → Value → Fields → Fields

abbrev pub Dict : Type 0
Dict = List (Text × Value)

unfoldable pub items : Items → List Value
items nil = []
items (cons x xs) = x ∷ items xs

unfoldable pub fields : Fields → Dict
fields end = []
fields (field k v rest) = (k, v) ∷ fields rest

-- `raw.get(key)`, with the absence of the key kept.
unfoldable pub lookup : Text → Dict → Option Value
unfolding text_eq
lookup k [] = none
lookup k ((j, v) ∷ rest) = if text_eq j k then some v else lookup k rest

abbrev pub or_null : Option Value → Value
or_null none = null
or_null (some v) = v

unfoldable pub get : Text → Dict → Value
unfolding lookup
get k raw = or_null (lookup k raw)

-- `app.engine.adapters.source.ParsedRow`
pub record ParsedRow : Type 0 where
  pub logical_record : ℕ
  pub locator_type : Text
  pub locator : Text
  pub value : Dict

-- `negsuc n` is -(n + 1).
pub data ℤ : Type 0 where
  pos : ℕ → ℤ
  negsuc : ℕ → ℤ

-- `int(value)`: a number, a ValueError or TypeError, or the OverflowError of an infinite float.
pub data Integer : Type 0 where
  integer : ℤ → Integer
  invalid overflow : Integer

-- A `Decimal`: coefficient * 10 ^ up / 10 ^ down. A `huge` or a `tiny` one leaves the exponents of the
-- default context when it is multiplied; a `special` one is infinite or no number.
pub data Decimal : Type 0 where
  finite : (negative : Bool) (coefficient up down : ℕ) → Decimal
  huge tiny : (negative : Bool) → Decimal
  special : Decimal

-- `datetime.fromisoformat` and the conversion to UTC, of which the second may overflow.
pub data Iso : Type 0 where
  malformed beyond : Iso
  naive zoned : Text → Iso

-- The messages of NormalizationError, without the name of the field.
pub data Reason : Type 0 where
  not_array not_scalar not_number not_amount excess_precision exceeds_supply : Reason
  not_timestamp no_timezone not_port port_range bad_txid unsupported_network : Reason
  bad_block_height input_lengths output_lengths not_object bad_prev_txid bad_prev_vout : Reason
  negative_prev_vout amount_required : Reason

-- A value, a NormalizationError, or another exception.
pub data Outcome {ℓ} (A : Type ℓ) : Type ℓ where
  ok : A → Outcome A
  rejected : Reason → Outcome A
  escaped : Outcome A

infixl 5 ◌>>=◌ ◌>>◌
abbrev pub ◌>>=◌ {ℓ κ} : {A : Type ℓ} {B : Type κ} → Outcome A → (A → Outcome B) → Outcome B
ok a >>= f = f a
rejected r >>= f = rejected r
escaped >>= f = escaped

abbrev pub ◌>>◌ {ℓ} : {B : Type ℓ} → Outcome (Unit {0}) → Outcome B → Outcome B
m >> k = m >>= λ _. k

abbrev pub guard : Bool → Reason → Outcome (Unit {0})
guard true r = ok tt
guard false r = rejected r

-- What the code takes from Python's library, and the setting NAIVE_TIMESTAMPS_AS_UTC.
pub record Python : Type 0 where
  pub lower : Text → Text
  pub decimal : Text → Option Decimal
  pub int_text : Text → Option ℤ
  pub int_number : Text → Integer
  pub is_zero : Text → Bool
  pub loads : Text → Option Value
  pub literal_eval : Text → Option Value
  pub epoch : Text → Option Text
  pub iso : Text → Iso
  pub naive_as_utc : Bool
