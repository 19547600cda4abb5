-- ===== src/Canonical/Values.antt =====
-- The readers of single cells in app/engine/canonical/normalize.py.
use trace_x.Common.{
  ℕ, zero, suc, ◌+◌, ◌*◌, ◌/◌, ◌%◌, Bool, true, false, ◌&&◌, ◌||◌, not, List, [], ◌∷◌, map, Option,
  none, some, ◌==◌, ltb, leb, if◌then◌else◌,
}
use Prim.Native.Nat.{◌^◌}
use trace_x.Canonical.Text.{Text, codes, strip, split_list, is_nonempty}
use trace_x.Canonical.Model.{
  Value, null, text, number, boolean, array, object, items, fields, ℤ, pos, negsuc, Integer,
  integer, invalid, overflow, Decimal, finite, huge, tiny, special, Iso, Reason, Outcome, ok,
  rejected, escaped, ◌>>=◌, Python,
}

-- `value not in (None, "")`
abbrev pub is_given : Value → Bool
is_given null = false
is_given (text t) = is_nonempty t
is_given _ = true

abbrev pub str_of_bool : Bool → Text
str_of_bool true = codes "True"
str_of_bool false = codes "False"

-- `_optional_text`
unfoldable pub optional_text : Value → Outcome (Option Text)
optional_text null = ok none
optional_text (text []) = ok none
optional_text (text (c ∷ cs)) = ok (some (c ∷ cs))
optional_text (number n) = ok (some n)
optional_text (boolean b) = ok (some (str_of_bool b))
optional_text (array xs) = rejected Reason.not_scalar
optional_text (object fs) = rejected Reason.not_scalar

-- `MAX_SATS`
abbrev pub max_sats : ℕ
max_sats = 2100000000000000

-- The least coefficient that is beyond the 28 digits of the default context.
abbrev pub digit_limit : ℕ
digit_limit = 10 ^ 28

-- The power of ten by which the context shortens a coefficient.
unfoldable pub dropped_unit : (fuel : ℕ) → ℕ → ℕ
dropped_unit zero c = 1
dropped_unit (suc f) c =
    let rest = 10 * dropped_unit f (c / 10) in if ltb c digit_limit then 1 else rest

-- Rounding to a multiple of the unit, half to even.
abbrev pub half_even : (unit c : ℕ) → ℕ
half_even unit c =
    let q = c / unit in
    let r = c % unit in
    if ltb unit (2 * r) || unit == 2 * r && q % 2 == 1 then (q + 1) * unit else q * unit

unfoldable pub rounded : ℕ → ℕ
unfolding dropped_unit
rounded c = half_even (dropped_unit c c) c

-- The end of `_sats`, at the number of satoshis as coefficient * 10 ^ up / 10 ^ down.
unfoldable pub whole_sats : (coefficient up down : ℕ) → Outcome (Option ℕ)
whole_sats c up down =
    if c * 10 ^ up % 10 ^ down == 0
    then (if ltb max_sats (c * 10 ^ up / 10 ^ down)
        then rejected Reason.exceeds_supply
        else ok (some (c * 10 ^ up / 10 ^ down)))
    else rejected Reason.excess_precision

unfoldable pub decimal_sats : (is_sats : Bool) → Decimal → Outcome (Option ℕ)
unfolding rounded whole_sats
decimal_sats is_sats special = rejected Reason.not_amount
decimal_sats is_sats (huge true) = rejected Reason.not_amount
decimal_sats true (huge false) = rejected Reason.exceeds_supply
decimal_sats false (huge false) = escaped
decimal_sats is_sats (tiny true) = rejected Reason.not_amount
decimal_sats true (tiny false) = rejected Reason.excess_precision
decimal_sats false (tiny false) = ok (some 0)
decimal_sats is_sats (finite negative c up down) =
    if negative && not (c == 0)
    then rejected Reason.not_amount
    else whole_sats (if is_sats then c else rounded (c * 100000000)) up down

abbrev pub number_or : (is_sats : Bool) → Option Decimal → Outcome (Option ℕ)
number_or is_sats none = rejected Reason.not_number
number_or is_sats (some d) = decimal_sats is_sats d

abbrev pub texts : List Text → List Value
texts ts = map text ts

-- A parsed JSON or Python list; a tuple is an array too.
abbrev pub parsed_list : Option Value → Outcome (List Value)
parsed_list (some (array xs)) = ok (items xs)
parsed_list _ = rejected Reason.not_array

abbrev pub or_else {ℓ} : {A : Type ℓ} → Option A → Option A → Option A
or_else none b = b
or_else (some a) b = some a

abbrev pub has_items {ℓ} : {A : Type ℓ} → List A → Bool
has_items [] = false
has_items (x ∷ xs) = true

abbrev pub Stamp : Type 0
Stamp = Option Text × Option Text

abbrev pub of_option : Option ℤ → Integer
of_option none = invalid
of_option (some n) = integer n

abbrev pub in_port_range : Integer → Outcome (Option ℕ)
in_port_range (integer (pos n)) = if leb n 65535 then ok (some n) else rejected Reason.port_range
in_port_range (integer (negsuc n)) = rejected Reason.port_range
in_port_range invalid = rejected Reason.not_port
in_port_range overflow = escaped

module _ (py : Python) where
  -- `_sats`
  unfoldable pub sats : (is_sats : Bool) → Value → Outcome (Option ℕ)
  unfolding decimal_sats
  sats is_sats null = ok none
  sats is_sats (text []) = ok none
  sats is_sats (text (c ∷ cs)) = number_or is_sats (py.decimal (c ∷ cs))
  sats is_sats (number n) = number_or is_sats (py.decimal n)
  sats is_sats _ = rejected Reason.not_number

  -- The text of `_list`, stripped: a bracketed one is JSON or else a Python literal.
  abbrev pub list_of_text : Text → Outcome (List Value)
  list_of_text [] = ok []
  list_of_text (c ∷ cs) =
      if c == b'['
      then parsed_list (or_else (py.loads (c ∷ cs)) (py.literal_eval (c ∷ cs)))
      else ok (texts (split_list (c ∷ cs)))

  -- `_list`
  unfoldable pub list_of : Value → Outcome (List Value)
  unfolding strip split_list items
  list_of null = ok []
  list_of (text t) = list_of_text (strip t)
  list_of (number n) = ok (number n ∷ [])
  list_of (boolean b) = rejected Reason.not_array
  list_of (array xs) = ok (items xs)
  list_of (object fs) = rejected Reason.not_array

  -- `int(value)`
  unfoldable pub int_of : Value → Integer
  int_of (text t) = of_option (py.int_text t)
  int_of (number n) = py.int_number n
  int_of (boolean b) = integer (pos (if b then 1 else 0))
  int_of _ = invalid

  -- `_endpoint_port`
  unfoldable pub endpoint_port : Value → Outcome (Option ℕ)
  unfolding int_of
  endpoint_port v = if is_given v then in_port_range (int_of v) else ok none

  abbrev pub zoned_stamp : Text → Iso → Outcome Stamp
  zoned_stamp original Iso.malformed = rejected Reason.not_timestamp
  zoned_stamp original Iso.beyond = escaped
  zoned_stamp original (Iso.zoned t) = ok (some t, some original)
  zoned_stamp original (Iso.naive t) =
      if py.naive_as_utc then ok (some t, some original) else rejected Reason.no_timezone

  abbrev pub epoch_or : Text → Option Text → Outcome Stamp
  epoch_or original none = zoned_stamp original (py.iso (strip original))
  epoch_or original (some t) = ok (some t, some original)

  abbrev pub stamp_of : Option Text → Outcome Stamp
  stamp_of none = ok (none, none)
  stamp_of (some original) = epoch_or original (py.epoch (strip original))

  -- `_timestamp`
  unfoldable pub timestamp : Value → Outcome Stamp
  unfolding optional_text strip
  timestamp v = optional_text v >>= stamp_of

  -- `bool(value)`
  abbrev pub is_truthy : Value → Bool
  is_truthy null = false
  is_truthy (text t) = is_nonempty t
  is_truthy (number n) = not (py.is_zero n)
  is_truthy (boolean b) = b
  is_truthy (array xs) = has_items (items xs)
  is_truthy (object fs) = has_items (fields fs)
