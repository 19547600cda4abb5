-- ===== src/Canonical/Sound.antt =====
-- What every row that normalize_row accepts is like: app/engine/canonical/normalize.py.
use trace_x.Common.{
  ℕ, ◌+◌, ◌*◌, ◌/◌, ◌%◌, ◌≤◌, ◌≡◌, refl, inl, inr, Bool, true, false, ◌&&◌, not, List, [], ◌∷◌,
  Option, none, some, arith, ◌==◌, leb, ltb, if◌then◌else◌, Bool-cases, Option-cases,
}
use Prim.Native.Nat.{◌^◌}
use trace_x.Canonical.Text.{Text, codes, is_txid}
use trace_x.Canonical.Model.{
  Value, Dict, get, lookup, pos, negsuc, Integer, integer, invalid, overflow, Decimal, finite, huge,
  tiny, special, Reason, Outcome, ok, rejected, escaped, ◌>>=◌, ◌>>◌, guard, Python,
}
use trace_x.Canonical.Values.{
  optional_text, max_sats, whole_sats, decimal_sats, number_or, sats, int_of, in_port_range,
  endpoint_port, has_items, timestamp, is_given,
}
use trace_x.Canonical.Profiles.{is_among}
use trace_x.Canonical.Facts.{SourceRef, Origin, Transaction, Input, Output}
use trace_x.Canonical.Normalize.{
  networks, or_text, checked_txid, read_origin, read_transaction, amount_at, observed_value,
  read_height, read_block_time, element, checked_prev, read_vout, as_object, object_input,
  object_inputs, flat_amount, flat_inputs, required, output_amount, object_output, object_outputs,
  flat_outputs,
}

-- If the code returns a value, then it satisfies `P`.
abbrev pub Ensures {ℓ} : {A : Type ℓ} → (A → Type 0) → Outcome A → Type 0
Ensures P (ok a) = P a
Ensures P (rejected r) = Unit
Ensures P escaped = Unit

module _ {A B : Type 0} (Q : B → Type 0) where
  pub Ensures-bind :
      (P : A → Type 0) (m : Outcome A) (f : A → Outcome B)
      → Ensures P m
      → ((a : A) → P a → Ensures Q (f a))
      → Ensures Q (m >>= f)
  Ensures-bind P (ok a) f h k = k a h
  Ensures-bind P (rejected r) f h k = tt
  Ensures-bind P escaped f h k = tt

  pub Ensures-any :
      (m : Outcome A) (f : A → Outcome B) → ((a : A) → Ensures Q (f a)) → Ensures Q (m >>= f)
  Ensures-any (ok a) f k = k a
  Ensures-any (rejected r) f k = tt
  Ensures-any escaped f k = tt

pub Ensures-guard :
    {B : Type 0} (Q : B → Type 0) (b : Bool) (r : Reason) (m : Outcome B)
    → (b ≡ true → Ensures Q m)
    → Ensures Q (guard b r >> m)
Ensures-guard Q true r m k = k refl
Ensures-guard Q false r m k = tt

-- An amount is at most the supply, where it is known.
abbrev pub IsSupplied : Option ℕ → Type 0
IsSupplied none = Unit
IsSupplied (some n) = n ≤ max_sats

abbrev pub IsPort : Option ℕ → Type 0
IsPort none = Unit
IsPort (some n) = n ≤ 65535

abbrev pub IsTxid : Option Text → Type 0
IsTxid none = Unit
IsTxid (some t) = is_txid t ≡ true

whole_sats-IsSupplied : (c up down : ℕ) → Ensures IsSupplied (whole_sats c up down)
unfolding whole_sats
whole_sats-IsSupplied c up down = elim (Bool-cases (c * 10 ^ up % 10 ^ down == 0)) [
  | inr broken ↦ rw broken tt
  | inl whole ↦ elim (Bool-cases (ltb max_sats (c * 10 ^ up / 10 ^ down))) [
    | inl above ↦ rw whole (rw above tt)
    | inr within ↦ rw whole (rw within (within_lem (c * 10 ^ up / 10 ^ down) within))
  ]
]
  where
    within_lem : (n : ℕ) → ltb max_sats n ≡ false → n ≤ max_sats
    within_lem n h = ground arith

decimal_sats-IsSupplied :
    (is_sats : Bool) (d : Decimal) → Ensures IsSupplied (decimal_sats is_sats d)
unfolding decimal_sats
decimal_sats-IsSupplied is_sats special = tt
decimal_sats-IsSupplied true (huge true) = tt
decimal_sats-IsSupplied false (huge true) = tt
decimal_sats-IsSupplied true (huge false) = tt
decimal_sats-IsSupplied false (huge false) = tt
decimal_sats-IsSupplied true (tiny true) = tt
decimal_sats-IsSupplied false (tiny true) = tt
decimal_sats-IsSupplied true (tiny false) = tt
decimal_sats-IsSupplied false (tiny false) = omega arith
decimal_sats-IsSupplied is_sats (finite negative c up down) =
    elim (Bool-cases (negative && not (c == 0))) [
      | inl below ↦ rw below tt
      | inr fine ↦ rw fine (whole_sats-IsSupplied _ up down)
    ]

number_or-IsSupplied :
    (is_sats : Bool) (d : Option Decimal) → Ensures IsSupplied (number_or is_sats d)
number_or-IsSupplied is_sats none = tt
number_or-IsSupplied is_sats (some d) = decimal_sats-IsSupplied is_sats d

in_port_range-IsPort : (n : Integer) → Ensures IsPort (in_port_range n)
in_port_range-IsPort (integer (pos n)) = elim (Bool-cases (leb n 65535)) [
  | inl within ↦ rw within (ground arith)
  | inr beyond ↦ rw beyond tt
]
in_port_range-IsPort (integer (negsuc n)) = tt
in_port_range-IsPort invalid = tt
in_port_range-IsPort overflow = tt

module _ (py : Python) where
  pub sats-IsSupplied : (is_sats : Bool) (v : Value) → Ensures IsSupplied (sats py is_sats v)
  unfolding sats
  sats-IsSupplied is_sats Value.null = tt
  sats-IsSupplied is_sats (Value.text []) = tt
  sats-IsSupplied is_sats (Value.text (c ∷ cs)) = number_or-IsSupplied is_sats (py.decimal (c ∷ cs))
  sats-IsSupplied is_sats (Value.number n) = number_or-IsSupplied is_sats (py.decimal n)
  sats-IsSupplied is_sats (Value.boolean b) = tt
  sats-IsSupplied is_sats (Value.array xs) = tt
  sats-IsSupplied is_sats (Value.object fs) = tt

  pub endpoint_port-IsPort : (v : Value) → Ensures IsPort (endpoint_port py v)
  unfolding endpoint_port
  endpoint_port-IsPort v = elim (Bool-cases (is_given v)) [
    | inl given ↦ rw given (in_port_range-IsPort (int_of py v))
    | inr missing ↦ rw missing tt
  ]

  pub amount_at-IsSupplied :
      (sats_key key : Text) (raw : Dict) → Ensures IsSupplied (amount_at py sats_key key raw)
  amount_at-IsSupplied sats_key key raw = elim (Option-cases (lookup sats_key raw)) [
    | inl absent ↦ rw (absent, amount_at) (sats-IsSupplied false (get key raw))
    | inr (v, there) ↦ rw (there, amount_at) (sats-IsSupplied true v)
  ]

  -- The identity of a fact.
  pub record IsOrigin (o : Origin) : Type 0 where
    pub txid : is_txid o.txid ≡ true
    pub network : is_among o.network networks ≡ true

  checked_txid-IsTxid :
      (r : Reason) (t : Option Text) → Ensures (λ u. is_txid u ≡ true) (checked_txid py r t)
  checked_txid-IsTxid r none = tt
  checked_txid-IsTxid r (some t) = Ensures-guard _ (is_txid (py.lower t)) r _ (λ h. h)

  pub read_origin-IsOrigin :
      (case_id : ℕ) (ref : SourceRef) (raw : Dict)
      → Ensures IsOrigin (read_origin py case_id ref raw)
  unfolding read_origin
  read_origin-IsOrigin case_id ref raw =
      Ensures-any _ (optional_text (get (codes "txid") raw)) _ λ raw_txid.
        Ensures-bind _ (λ u. is_txid u ≡ true) (checked_txid py Reason.bad_txid raw_txid) _
          (checked_txid-IsTxid Reason.bad_txid raw_txid)
          λ txid good. Ensures-any _ (optional_text (get (codes "network") raw)) _ λ network.
            Ensures-guard _ (is_among (or_text (codes "unknown") network) networks) _ _
              λ known. record { txid = good; network = known }

  abbrev pub IsTransaction : Origin → Transaction → Type 0
  IsTransaction o t = (t.origin ≡ o) × IsSupplied t.fee_sats

  pub read_transaction-IsTransaction :
      (o : Origin) (raw : Dict) → Ensures (IsTransaction o) (read_transaction py o raw)
  unfolding read_transaction
  read_transaction-IsTransaction o raw =
      Ensures-any (IsTransaction o) (timestamp py (observed_value py raw)) _ λ stamp.
        Ensures-bind (IsTransaction o) IsSupplied
          (amount_at py (codes "fee_sats") (codes "fee") raw) _
          (amount_at-IsSupplied (codes "fee_sats") (codes "fee") raw)
          λ fee good.
            Ensures-any (IsTransaction o) (optional_text (get (codes "block_hash") raw)) _ λ hash.
              Ensures-any (IsTransaction o) (read_height py (get (codes "block_height") raw)) _
                λ height.
                  Ensures-any (IsTransaction o) (read_block_time py (get (codes "block_time") raw))
                    _ λ block. (refl, good)

  -- An input at its place, with the identity of its row.
  pub record IsInput (o : Origin) (vin : ℕ) (i : Input) : Type 0 where
    pub same : i.origin ≡ o
    pub placed : i.vin ≡ vin
    pub prev : IsTxid i.prev_txid
    pub supplied : IsSupplied i.amount_sats

  abbrev pub AreInputs : Origin → ℕ → List Input → Type 0
  AreInputs o vin [] = Unit
  AreInputs o vin (i ∷ is) = IsInput o vin i × AreInputs o (vin + 1) is

  checked_prev-IsTxid : (t : Option Text) → Ensures IsTxid (checked_prev py t)
  checked_prev-IsTxid none = tt
  checked_prev-IsTxid (some t) =
      Ensures-guard IsTxid (is_txid (py.lower t)) Reason.bad_prev_txid _ (λ h. h)

  object_input-IsInput :
      (o : Origin) (vin : ℕ) (source : Dict)
      → Ensures (IsInput o vin) (object_input py o vin source)
  unfolding object_input
  object_input-IsInput o vin source =
      let Q : Input → Type 0 = IsInput o vin in
      Ensures-any Q (optional_text (get (codes "prev_txid") source)) _ λ prev.
        Ensures-bind Q IsTxid (checked_prev py prev) _ (checked_prev-IsTxid prev) λ txid good.
          Ensures-any Q (read_vout py (get (codes "prev_vout") source)) _ λ vout.
            Ensures-bind Q IsSupplied (amount_at py (codes "amount_sats") (codes "amount") source) _
              (amount_at-IsSupplied (codes "amount_sats") (codes "amount") source)
              λ amount within.
                Ensures-any Q (optional_text (get (codes "address") source)) _
                  λ address. record { same = refl; placed = refl; prev = good; supplied = within }

  pub object_inputs-AreInputs :
      (o : Origin) (vin : ℕ) (vs : List Value)
      → Ensures (AreInputs o vin) (object_inputs py o vin vs)
  unfolding object_inputs
  object_inputs-AreInputs o vin [] = tt
  object_inputs-AreInputs o vin (v ∷ vs) =
      Ensures-any (AreInputs o vin) (as_object py v) _ λ source.
        Ensures-bind (AreInputs o vin) (IsInput o vin) (object_input py o vin source) _
          (object_input-IsInput o vin source)
          λ input good.
            Ensures-bind (AreInputs o vin) (AreInputs o (vin + 1)) (object_inputs py o (vin + 1) vs)
              _ (object_inputs-AreInputs o (vin + 1) vs) λ rest more. (good, more)

  flat_amount-IsSupplied :
      (in_sats : Bool) (i : ℕ) (amounts : List Value)
      → Ensures IsSupplied (flat_amount py in_sats i amounts)
  flat_amount-IsSupplied in_sats i amounts =
      Ensures-any IsSupplied (element i amounts) _ λ v. sats-IsSupplied in_sats v

  input_amount-IsSupplied :
      (in_sats : Bool) (i : ℕ) (amounts : List Value)
      → Ensures IsSupplied (if has_items amounts then flat_amount py in_sats i amounts else ok none)
  input_amount-IsSupplied in_sats i [] = tt
  input_amount-IsSupplied in_sats i (v ∷ vs) = flat_amount-IsSupplied in_sats i (v ∷ vs)

  pub flat_inputs-AreInputs :
      (o : Origin) (in_sats : Bool) (amounts : List Value) (vin : ℕ) (vs : List Value)
      → Ensures (AreInputs o vin) (flat_inputs py o in_sats amounts vin vs)
  unfolding flat_inputs
  flat_inputs-AreInputs o in_sats amounts vin [] = tt
  flat_inputs-AreInputs o in_sats amounts vin (v ∷ vs) =
      Ensures-any (AreInputs o vin) (optional_text v) _ λ address.
        Ensures-bind (AreInputs o vin) IsSupplied
          (if has_items amounts then flat_amount py in_sats vin amounts else ok none) _
          (input_amount-IsSupplied in_sats vin amounts)
          λ amount within.
            Ensures-bind (AreInputs o vin) (AreInputs o (vin + 1))
              (flat_inputs py o in_sats amounts (vin + 1) vs) _
              (flat_inputs-AreInputs o in_sats amounts (vin + 1) vs)
              λ rest more.
                (record { same = refl; placed = refl; prev = tt; supplied = within }, more)

  pub record IsOutput (o : Origin) (vout : ℕ) (out : Output) : Type 0 where
    pub same : out.origin ≡ o
    pub placed : out.vout ≡ vout
    pub supplied : IsSupplied out.amount_sats

  abbrev pub AreOutputs : Origin → ℕ → List Output → Type 0
  AreOutputs o vout [] = Unit
  AreOutputs o vout (out ∷ outs) = IsOutput o vout out × AreOutputs o (vout + 1) outs

  required-IsSupplied : (a : Option ℕ) → IsSupplied a → Ensures IsSupplied (required py a)
  required-IsSupplied none h = tt
  required-IsSupplied (some n) h = h

  output_amount-IsSupplied : (source : Dict) → Ensures IsSupplied (output_amount py source)
  output_amount-IsSupplied source = elim (Option-cases (lookup (codes "amount_sats") source)) [
    | inr (v, there) ↦ rw (there, output_amount) (sats-IsSupplied true v)
    | inl absent ↦ elim (Option-cases (lookup (codes "amount") source)) [
      | inr (v, there) ↦
          rw (absent, output_amount) (rw (there, output_amount) (sats-IsSupplied false v))
      | inl absent' ↦
          rw (absent, output_amount)
            (rw (absent', output_amount) (sats-IsSupplied false (get (codes "value") source)))
    ]
  ]

  object_output-IsOutput :
      (o : Origin) (script_type : Option Text) (vout : ℕ) (source : Dict)
      → Ensures (IsOutput o vout) (object_output py o script_type vout source)
  unfolding object_output
  object_output-IsOutput o script_type vout source =
      let Q : Output → Type 0 = IsOutput o vout in
      Ensures-bind Q IsSupplied (output_amount py source) _ (output_amount-IsSupplied source)
        λ read within.
          Ensures-bind Q IsSupplied (required py read) _ (required-IsSupplied read within)
            λ amount good.
              Ensures-any Q (optional_text (get (codes "script_id") source)) _ λ script_id.
                Ensures-any Q (optional_text (get (codes "script_type") source)) _ λ own_type.
                  Ensures-any Q (optional_text (get (codes "address") source)) _
                    λ address. record { same = refl; placed = refl; supplied = good }

  pub object_outputs-AreOutputs :
      (o : Origin) (script_type : Option Text) (vout : ℕ) (vs : List Value)
      → Ensures (AreOutputs o vout) (object_outputs py o script_type vout vs)
  unfolding object_outputs
  object_outputs-AreOutputs o script_type vout [] = tt
  object_outputs-AreOutputs o script_type vout (v ∷ vs) =
      Ensures-any (AreOutputs o vout) (as_object py v) _ λ source.
        Ensures-bind (AreOutputs o vout) (IsOutput o vout)
          (object_output py o script_type vout source) _
          (object_output-IsOutput o script_type vout source)
          λ out good.
            Ensures-bind (AreOutputs o vout) (AreOutputs o (vout + 1))
              (object_outputs py o script_type (vout + 1) vs) _
              (object_outputs-AreOutputs o script_type (vout + 1) vs) λ rest more. (good, more)

  pub flat_outputs-AreOutputs :
      (o : Origin) (script_type : Option Text) (in_sats : Bool) (amounts : List Value) (vout : ℕ)
      (vs : List Value)
      → Ensures (AreOutputs o vout) (flat_outputs py o script_type in_sats amounts vout vs)
  unfolding flat_outputs
  flat_outputs-AreOutputs o script_type in_sats amounts vout [] = tt
  flat_outputs-AreOutputs o script_type in_sats amounts vout (v ∷ vs) =
      Ensures-bind (AreOutputs o vout) IsSupplied (flat_amount py in_sats vout amounts) _
        (flat_amount-IsSupplied in_sats vout amounts)
        λ amount within. Ensures-any (AreOutputs o vout) (optional_text v) _ λ address.
          Ensures-bind (AreOutputs o vout) (AreOutputs o (vout + 1))
            (flat_outputs py o script_type in_sats amounts (vout + 1) vs) _
            (flat_outputs-AreOutputs o script_type in_sats amounts (vout + 1) vs)
            λ rest more. (record { same = refl; placed = refl; supplied = within }, more)
