-- ===== src/Canonical/Exact.antt =====
-- Amounts in `_sats` of app/engine/canonical/normalize.py: exact within the digits of the context.
use Prim.Native.Nat.{◌^◌}
use native.Mathlib.Nat.{div-add-mod', mul-div_cancel, mul-mod_left, pow-suc, mul_assoc, mul_comm}
use trace_x.Common.{
  ℕ, zero, suc, ◌+◌, ◌*◌, ◌/◌, ◌%◌, ◌≤◌, ◌<◌, ◌≡◌, ◌↔◌, ◌∙◌, refl, sym, ap, subst, inl, inr, ◌||◌,
  ◌&&◌, true, false, some, arith, ◌==◌, ltb, if◌then◌else◌, Bool-cases,
}
use trace_x.Canonical.Model.{finite, Reason, ok, rejected}
use trace_x.Canonical.Values.{
  max_sats, digit_limit, dropped_unit, half_even, rounded, whole_sats, decimal_sats,
}

-- A multiple of the unit is not changed.
half_even_exact : (unit q : ℕ) → 0 < unit → half_even unit (q * unit) ≡ q * unit
half_even_exact unit q pos =
    rw (mul-div_cancel q pos) (rw (mul-mod_left q unit) (kept unit (q * unit) ((q + 1) * unit) pos))
  where
    kept :
        (unit x y : ℕ)
        → 0 < unit
        → (if ltb unit (2 * 0) || unit == 2 * 0 && q % 2 == 1 then y else x) ≡ x
    kept unit x y pos = ground arith

pow_pos : (k : ℕ) → 0 < 10 ^ k
pow_pos zero = omega arith
pow_pos (suc k) = omega (arith, pow-suc 10 k, pow_pos k)

unit_of_zero : (x : ℕ) → dropped_unit zero x ≡ 1
unfolding dropped_unit
unit_of_zero x = refl

unit_short : (f x : ℕ) → ltb x digit_limit ≡ true → dropped_unit f x ≡ 1
unfolding dropped_unit
unit_short zero x fits = refl
unit_short (suc f) x fits = rw fits refl

unit_long :
    (f x : ℕ) → ltb x digit_limit ≡ false → dropped_unit (suc f) x ≡ 10 * dropped_unit f (x / 10)
unfolding dropped_unit
unit_long f x long = rw long refl

tenth : (c i : ℕ) → c * 10 ^ suc i ≡ c * 10 ^ i * 10
tenth c i = ap (λ t. c * t) (pow-suc 10 i) ∙ sym (mul_assoc c (10 ^ i) 10)

abbrev Divides : ℕ → ℕ → Type 0
Divides unit x = (q : ℕ) × (x ≡ q * unit) × (0 < unit)

Divides-one : (x : ℕ) → Divides 1 x
Divides-one x = (x, omega arith, omega arith)

Divides-ten : (unit x : ℕ) → Divides unit x → Divides (10 * unit) (x * 10)
Divides-ten unit x (q, e, pos) =
    (q, ap (λ t. t * 10) e ∙ mul_assoc q unit 10 ∙ ap (λ t. q * t) (mul_comm unit 10), omega arith)

small_test : (c : ℕ) → c < digit_limit → ltb (c * 1) digit_limit ≡ true
small_test c small = ground arith

-- What the context drops of a coefficient within its digits times a power of ten are zeros.
unit-Divides : (f j c : ℕ) → c < digit_limit → Divides (dropped_unit f (c * 10 ^ j)) (c * 10 ^ j)
unit-Divides zero j c small = subst (λ u. Divides u (c * 10 ^ j)) (sym unit_zero) (Divides-one _)
  where
    unit_zero : dropped_unit zero (c * 10 ^ j) ≡ 1
    unit_zero = unit_of_zero (c * 10 ^ j)
unit-Divides (suc f) zero c small =
    subst (λ u. Divides u (c * 10 ^ 0)) (sym (unit_short (suc f) (c * 10 ^ 0) (small_test c small)))
      (Divides-one _)
unit-Divides (suc f) (suc j) c small = elim (Bool-cases (ltb (c * 10 ^ suc j) digit_limit)) [
  | inl fits ↦
      subst (λ u. Divides u (c * 10 ^ suc j)) (sym (unit_short (suc f) (c * 10 ^ suc j) fits))
        (Divides-one _)
  | inr long ↦
      subst (λ u. Divides u (c * 10 ^ suc j)) (sym (unit_long f (c * 10 ^ suc j) long))
        (subst (λ x. Divides (10 * dropped_unit f (x / 10)) x) (sym (tenth c j))
          (subst (λ y. Divides (10 * dropped_unit f y) (c * 10 ^ j * 10))
            (sym (mul-div_cancel (c * 10 ^ j) (omega arith)))
            (Divides-ten (dropped_unit f (c * 10 ^ j)) (c * 10 ^ j) (unit-Divides f j c small))))
]

rounded-exact : (c : ℕ) → c < digit_limit → rounded (c * 100000000) ≡ c * 100000000
unfolding rounded
rounded-exact c small =
    let x = c * 100000000 in
    let (q, e, pos) = unit-Divides x 8 c small in
    subst (λ y. half_even (dropped_unit x x) y ≡ y) (sym e)
      (half_even_exact (dropped_unit x x) q pos)

whole_sats_lem :
    (c up down n : ℕ)
    → (whole_sats c up down ≡ ok (some n)) ↔ ((n * 10 ^ down ≡ c * 10 ^ up) × (n ≤ max_sats))
unfolding whole_sats
whole_sats_lem c up down n = (of_ok (c * 10 ^ up) (10 ^ down), to_ok)
  where
    of_ok :
        (x d : ℕ)
        → (if x % d == 0
            then (if ltb max_sats (x / d)
                then rejected Reason.exceeds_supply
                else ok (some (x / d)))
            else rejected Reason.excess_precision)
          ≡ ok (some n)
        → (n * d ≡ x) × (n ≤ max_sats)
    of_ok x d h = ground (arith, div-add-mod' x d, h)

    to_ok :
        (n * 10 ^ down ≡ c * 10 ^ up) × (n ≤ max_sats)
        → (if c * 10 ^ up % 10 ^ down == 0
            then (if ltb max_sats (c * 10 ^ up / 10 ^ down)
                then rejected Reason.exceeds_supply
                else ok (some (c * 10 ^ up / 10 ^ down)))
            else rejected Reason.excess_precision)
          ≡ ok (some n)
    to_ok (e, within) = rw (← e) (
        rw (mul-mod_left n (10 ^ down))
          (rw (mul-div_cancel n (pow_pos down)) (ground (arith, within))))

-- A non-negative amount of bitcoins with at most 28 digits is accepted exactly when it is a whole
-- number of satoshis within the supply, and then as that number.
pub decimal_sats_lem :
    (c up down n : ℕ)
    → c < digit_limit
    → (decimal_sats false (finite false c up down) ≡ ok (some n))
      ↔ ((n * 10 ^ down ≡ c * 100000000 * 10 ^ up) × (n ≤ max_sats))
unfolding decimal_sats
decimal_sats_lem c up down n small =
    subst
      (λ x.
        (whole_sats x up down ≡ ok (some n))
        ↔ ((n * 10 ^ down ≡ c * 100000000 * 10 ^ up) × (n ≤ max_sats)))
      (sym (rounded-exact c small)) (whole_sats_lem (c * 100000000) up down n)
