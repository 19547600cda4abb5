-- ===== src/Canonical/Accepted.antt =====
-- A row that normalize_row of app/engine/canonical/normalize.py accepts.
use trace_x.Common.{
  ℕ, suc, ◌+◌, ◌≤◌, ◌≡◌, refl, sym, ap, subst, ◌∙◌, inl, inr, Bool, true, false, ◌&&◌, List, [],
  ◌∷◌, Option, arith, ◌==◌, length, All, exists_in, Bool-cases,
}
use trace_x.Canonical.Text.{Text, codes}
use trace_x.Canonical.Model.{
  Value, Dict, get, ParsedRow, Reason, Outcome, ok, rejected, escaped, Python,
}
use trace_x.Canonical.Values.{optional_text, endpoint_port, has_items, is_given}
use trace_x.Canonical.Profiles.{Rename, is_among, canonicalize}
use trace_x.Canonical.Facts.{SourceRef, Origin, Transaction, Output, Observation, Facts}
use trace_x.Canonical.Normalize.{
  networks, or_text, checked_txid, read_origin, read_transaction, as_object, flat_amount,
  object_output, object_outputs, flat_outputs,
}
use trace_x.Canonical.Row.{
  Side, input_keys, output_keys, network_fields, input_lengths_fit, output_lengths_fit, read_side,
  read_inputs, read_outputs, read_observation, read_observations, normalize_canonical,
  normalize_row,
}
use trace_x.Canonical.Sound.{
  Ensures, Ensures-bind, Ensures-any, Ensures-guard, IsPort, IsOrigin, IsTransaction, AreInputs,
  AreOutputs, read_origin-IsOrigin, read_transaction-IsTransaction, object_inputs-AreInputs,
  flat_inputs-AreInputs, object_outputs-AreOutputs, flat_outputs-AreOutputs, endpoint_port-IsPort,
}

module _ (py : Python) where
  read_inputs-AreInputs : (o : Origin) (s : Side) → Ensures (AreInputs py o 0) (read_inputs py o s)
  unfolding read_inputs
  read_inputs-AreInputs o s = elim (Bool-cases (has_items s.objects)) [
    | inl objects ↦ rw objects (object_inputs-AreInputs py o 0 s.objects)
    | inr flat ↦ rw flat (flat_inputs-AreInputs py o s.in_sats s.amounts 0 s.addresses)
  ]

  -- There is one output for each value of the source.
  object_outputs_complete :
      (o : Origin) (script_type : Option Text) (vout : ℕ) (vs : List Value)
      → Ensures
          (λ (outs : List Output). length outs ≡ length vs)
          (object_outputs py o script_type vout vs)
  unfolding object_outputs
  object_outputs_complete o script_type vout [] = refl
  object_outputs_complete o script_type vout (v ∷ vs) =
      let Q : List Output → Type 0 = λ outs. length outs ≡ suc (length vs) in
      Ensures-any Q (as_object py v) _ λ source.
        Ensures-any Q (object_output py o script_type vout source) _ λ out.
          Ensures-bind Q (λ rest. length rest ≡ length vs)
            (object_outputs py o script_type (vout + 1) vs) _
            (object_outputs_complete o script_type (vout + 1) vs) λ rest e. ap suc e

  flat_outputs_complete :
      (o : Origin) (script_type : Option Text) (in_sats : Bool) (amounts : List Value) (vout : ℕ)
      (vs : List Value)
      → Ensures
          (λ (outs : List Output). length outs ≡ length vs)
          (flat_outputs py o script_type in_sats amounts vout vs)
  unfolding flat_outputs
  flat_outputs_complete o script_type in_sats amounts vout [] = refl
  flat_outputs_complete o script_type in_sats amounts vout (v ∷ vs) =
      let Q : List Output → Type 0 = λ outs. length outs ≡ suc (length vs) in
      Ensures-any Q (flat_amount py in_sats vout amounts) _ λ amount.
        Ensures-any Q (optional_text v) _ λ address.
          Ensures-bind Q (λ rest. length rest ≡ length vs)
            (flat_outputs py o script_type in_sats amounts (vout + 1) vs) _
            (flat_outputs_complete o script_type in_sats amounts (vout + 1) vs) λ rest e. ap suc e

  Ensures-both :
      {A : Type 0} (P Q : A → Type 0) (m : Outcome A)
      → Ensures P m
      → Ensures Q m
      → Ensures (λ a. P a × Q a) m
  Ensures-both P Q (ok a) p q = (p, q)
  Ensures-both P Q (rejected r) p q = tt
  Ensures-both P Q escaped p q = tt

  abbrev pub AreSomeOutputs : Origin → List Output → Type 0
  AreSomeOutputs o outs = AreOutputs py o 0 outs × (1 ≤ length outs)

  some_outputs :
      (o : Origin) (vs : List Value) (m : Outcome (List Output))
      → 1 ≤ length vs
      → Ensures (AreOutputs py o 0) m
      → Ensures (λ (outs : List Output). length outs ≡ length vs) m
      → Ensures (AreSomeOutputs o) m
  some_outputs o vs (ok outs) n a e = (a, omega (arith, e))
  some_outputs o vs (rejected r) n a e = tt
  some_outputs o vs escaped n a e = tt

  has_length : (vs : List Value) → has_items vs ≡ true → 1 ≤ length vs
  has_length [] h = cc
  has_length (v ∷ vs) h = omega arith

  addresses_length :
      (vs ws : List Value) → (length vs == length ws && has_items ws) ≡ true → 1 ≤ length vs
  addresses_length vs [] h = cc (and-false (length vs == 0), h)
    where
      and-false : (b : Bool) → (b && false) ≡ false
      and-false true = refl
      and-false false = refl
  addresses_length vs (w ∷ ws) h = ground (arith, h)

  read_outputs-AreSomeOutputs :
      (o : Origin) (script_type : Option Text) (s : Side)
      → output_lengths_fit s ≡ true
      → Ensures (AreSomeOutputs o) (read_outputs py o script_type s)
  unfolding read_outputs
  read_outputs-AreSomeOutputs o script_type s fit = elim (Bool-cases (has_items s.objects)) [
    | inl objects ↦ rw objects (
        some_outputs o s.objects (object_outputs py o script_type 0 s.objects)
          (has_length s.objects objects) (object_outputs-AreOutputs py o script_type 0 s.objects)
          (object_outputs_complete o script_type 0 s.objects))
    | inr flat ↦ rw flat (
        some_outputs o s.addresses (flat_outputs py o script_type s.in_sats s.amounts 0 s.addresses)
          (addresses_length s.addresses s.amounts (rw flat at fit))
          (flat_outputs-AreOutputs py o script_type s.in_sats s.amounts 0 s.addresses)
          (flat_outputs_complete o script_type s.in_sats s.amounts 0 s.addresses))
  ]

  pub record IsObservation (o : Origin) (source_id record_number : ℕ) (seen : Observation)
      : Type 0 where
    pub same : seen.origin ≡ o
    pub identified : (seen.source_id ≡ source_id) × (seen.logical_record ≡ record_number)
    pub ports : IsPort seen.src_port × IsPort seen.dst_port × IsPort seen.endpoint_port

  abbrev pub AreObservations : Origin → ℕ → ℕ → List Observation → Type 0
  AreObservations o source_id record_number seen =
      All (IsObservation o source_id record_number) seen × (length seen ≤ 1)

  read_observation-IsObservation :
      (source_id record_number : ℕ) (t : Transaction) (raw : Dict)
      → Ensures
          (IsObservation t.origin source_id record_number)
          (read_observation py source_id record_number t raw)
  unfolding read_observation
  read_observation-IsObservation source_id record_number t raw =
      let Q : Observation → Type 0 = IsObservation t.origin source_id record_number in
      Ensures-any Q (optional_text (get (codes "observer_id") raw)) _ λ observer.
        Ensures-any Q (optional_text (get (codes "src_ip") raw)) _ λ src_ip.
          Ensures-any Q (optional_text (get (codes "dst_ip") raw)) _ λ dst_ip.
            Ensures-bind Q IsPort (endpoint_port py (get (codes "src_port") raw)) _
              (endpoint_port-IsPort py (get (codes "src_port") raw))
              λ src_port low.
                Ensures-bind Q IsPort (endpoint_port py (get (codes "dst_port") raw)) _
                  (endpoint_port-IsPort py (get (codes "dst_port") raw))
                  λ dst_port high.
                    Ensures-any Q (optional_text (get (codes "geo_country") raw)) _ λ country.
                      Ensures-any Q (optional_text (get (codes "asn") raw)) _ λ asn. record {
                        same = refl;
                        identified = (refl, refl);
                        ports = (low, high, low);
                      }

  read_observations-AreObservations :
      (source_id record_number : ℕ) (t : Transaction) (raw : Dict)
      → Ensures
          (AreObservations t.origin source_id record_number)
          (read_observations py source_id record_number t raw)
  unfolding read_observations
  read_observations-AreObservations source_id record_number t raw =
      elim (Bool-cases (exists_in (λ key. is_given (get key raw)) network_fields)) [
        | inr nothing ↦ rw nothing (tt, omega arith)
        | inl there ↦ rw there (
            Ensures-bind (AreObservations t.origin source_id record_number)
              (IsObservation t.origin source_id record_number)
              (read_observation py source_id record_number t raw) _
              (read_observation-IsObservation source_id record_number t raw)
              λ o good. ((good, tt), omega arith))
      ]

  -- What the facts of an accepted row are.
  pub record IsAccepted (case_id source_id source_sha256 : ℕ) (row : ParsedRow) (facts : Facts)
      : Type 0 where
    pub origin : IsOrigin py facts.transaction.origin
    pub case : facts.transaction.origin.case_id ≡ case_id
    pub ref : facts.transaction.origin.source_ref ≡ record {
      evidence_id = source_id;
      source_sha256 = source_sha256;
      locator_type = row.locator_type;
      locator = row.locator;
    }
    pub transaction : IsTransaction py facts.transaction.origin facts.transaction
    pub inputs : AreInputs py facts.transaction.origin 0 facts.inputs
    pub outputs : AreSomeOutputs facts.transaction.origin facts.outputs
    pub observations :
        AreObservations facts.transaction.origin source_id row.logical_record facts.observations

  -- `read_origin` takes the case and the source from its arguments.
  abbrev IsOriginOf : ℕ → SourceRef → Origin → Type 0
  IsOriginOf case_id ref o = IsOrigin py o × (o.case_id ≡ case_id) × (o.source_ref ≡ ref)

  read_origin-IsOriginOf :
      (case_id : ℕ) (ref : SourceRef) (raw : Dict)
      → Ensures
          (λ (o : Origin). (o.case_id ≡ case_id) × (o.source_ref ≡ ref))
          (read_origin py case_id ref raw)
  unfolding read_origin
  read_origin-IsOriginOf case_id ref raw =
      let Q : Origin → Type 0 = λ o. (o.case_id ≡ case_id) × (o.source_ref ≡ ref) in
      Ensures-any Q (optional_text (get (codes "txid") raw)) _ λ raw_txid.
        Ensures-any Q (checked_txid py Reason.bad_txid raw_txid) _ λ txid.
          Ensures-any Q (optional_text (get (codes "network") raw)) _ λ network.
            Ensures-guard Q (is_among (or_text (codes "unknown") network) networks) _ _
              λ known. (refl, refl)

  module _ (case_id source_id source_sha256 : ℕ) (row : ParsedRow) (raw : Dict) where
    normalize_canonical-IsAccepted :
        Ensures
          (IsAccepted case_id source_id source_sha256 row)
          (normalize_canonical py case_id source_id source_sha256 row raw)
    unfolding normalize_canonical
    normalize_canonical-IsAccepted =
        let ref : SourceRef = record {
          evidence_id = source_id;
          source_sha256 = source_sha256;
          locator_type = row.locator_type;
          locator = row.locator;
        } in
        let Q : Facts → Type 0 = IsAccepted case_id source_id source_sha256 row in
        Ensures-bind Q (λ o. IsOrigin py o × ((o.case_id ≡ case_id) × (o.source_ref ≡ ref)))
          (read_origin py case_id ref raw) _
          (Ensures-both (IsOrigin py) (λ o. (o.case_id ≡ case_id) × (o.source_ref ≡ ref))
            (read_origin py case_id ref raw) (read_origin-IsOrigin py case_id ref raw)
            (read_origin-IsOriginOf case_id ref raw))
          λ o known.
            Ensures-bind Q (IsTransaction py o) (read_transaction py o raw) _
              (read_transaction-IsTransaction py o raw)
              λ t transaction. Ensures-any Q (read_side py input_keys raw) _ λ source.
                Ensures-guard Q (input_lengths_fit source) _ _ λ fit_inputs.
                  Ensures-any Q (read_side py output_keys raw) _ λ target.
                    Ensures-guard Q (output_lengths_fit target) _ _ λ fit.
                      Ensures-bind Q (AreInputs py o 0) (read_inputs py o source) _
                        (read_inputs-AreInputs o source)
                        λ inputs good_inputs.
                          Ensures-any Q (optional_text (get (codes "script_type") raw)) _
                            λ script_type.
                              Ensures-bind Q (AreSomeOutputs o)
                                (read_outputs py o script_type target) _
                                (read_outputs-AreSomeOutputs o script_type target fit)
                                λ outputs good_outputs.
                                  Ensures-bind Q
                                    (AreObservations t.origin source_id row.logical_record)
                                    (read_observations py source_id row.logical_record t raw) _
                                    (read_observations-AreObservations source_id row.logical_record
                                      t raw)
                                    λ seen good_seen.
                                      (let e = sym transaction.0 in
                                        record {
                                          origin = subst (IsOrigin py) e known.0;
                                          case =
                                              ap (λ (q : Origin). q.case_id) transaction.0
                                              ∙ known.1.0;
                                          ref =
                                              ap (λ (q : Origin). q.source_ref) transaction.0
                                              ∙ known.1.1;
                                          transaction = (refl, transaction.1);
                                          inputs =
                                              subst (λ q. AreInputs py q 0 inputs) e good_inputs;
                                          outputs =
                                              subst (λ q. AreSomeOutputs q outputs) e good_outputs;
                                          observations = good_seen;
                                        })

  Ensures-ok : {A : Type 0} (P : A → Type 0) (m : Outcome A) (a : A) → Ensures P m → m ≡ ok a → P a
  Ensures-ok P (ok b) a h e = subst P (ground (arith, e)) h
  Ensures-ok P (rejected r) a h e = absurd (ground (arith, e))
  Ensures-ok P escaped a h e = absurd (ground (arith, e))

  -- The facts of a row that is accepted: a lower-case transaction id and a known network; every fact
  -- has the identity and the source of the row; inputs and outputs are numbered from zero, and there
  -- is an output; amounts are at most the supply; and there is at most one observation, with ports of
  -- 16 bits.
  pub normalize_row-IsAccepted :
      (case_id source_id source_sha256 : ℕ) (row : ParsedRow) (facts : Facts)
      (mapping : List Rename)
      → normalize_row py case_id source_id source_sha256 row ≡ ok (facts, mapping)
      → IsAccepted case_id source_id source_sha256 row facts
  unfolding normalize_row
  normalize_row-IsAccepted case_id source_id source_sha256 row facts mapping h =
      let raw = (canonicalize py.lower row.value).0 in
      Ensures-ok (λ (r : Facts × List Rename). IsAccepted case_id source_id source_sha256 row r.0)
        (normalize_row py case_id source_id source_sha256 row) (facts, mapping)
        (Ensures-bind
          (λ (r : Facts × List Rename). IsAccepted case_id source_id source_sha256 row r.0)
          (IsAccepted case_id source_id source_sha256 row)
          (normalize_canonical py case_id source_id source_sha256 row raw) _
          (normalize_canonical-IsAccepted case_id source_id source_sha256 row raw) λ f good. good)
        h
