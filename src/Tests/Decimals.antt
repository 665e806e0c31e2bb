-- ===== src/Tests/Decimals.antt =====
-- Decimal numbers, which are computed with exactly, in the place of `double`.
use fimex.FimexTime.Numbers.{Double}
use fimex.FimexTime.Doubles.{IsIeee, less_int}
use fimex.Prelude.{
  inr, inl, Bool-cases, ◌==◌, ◌<◌, refl, ◌-◌, ap₂, arith, if◌then◌else◌, ◌≡◌, ◌^◌, ◌+◌, not, leb,
  ◌*◌, ltb, ℕ, Bool, true, false,
}

-- The digits, divided by as many factors 100000 as there are places
pub record Decimal : Type 0 where
  pub is_negative : Bool
  pub digits : ℕ
  pub places : ℕ

abbrev pub differ : Bool → Bool → Bool
differ true b = not b
differ false b = b

-- The order by signs and sizes
abbrev pub less_signed : Bool → Bool → ℕ → ℕ → Bool
less_signed true true x y = ltb y x
less_signed true false x y = ltb 0 (x + y)
less_signed false true x y = false
less_signed false false x y = ltb x y

abbrev pub decimal_of_int : ℕ → Decimal
decimal_of_int n = record {
  is_negative = leb (2 ^ 31) n;
  digits = if leb (2 ^ 31) n then 2 ^ 32 - n else n;
  places = 0;
}

abbrev pub decimals : Double Decimal
decimals = record {
  of_int = decimal_of_int;
  one = record { is_negative = false; digits = 1; places = 0 };
  minus_one = record { is_negative = true; digits = 1; places = 0 };
  minus_1e_5 = record { is_negative = true; digits = 1; places = 1 };
  times = λ a b. record {
    is_negative = differ a.is_negative b.is_negative;
    digits = a.digits * b.digits;
    places = a.places + b.places;
  };
  less = λ a b.
      less_signed a.is_negative b.is_negative (a.digits * 100000 ^ b.places)
        (b.digits * 100000 ^ a.places);
}

abbrev decimal_of : Bool → ℕ → ℕ → Decimal
decimal_of negative digits places = record {
  is_negative = negative;
  digits = digits;
  places = places;
}

-- A comparison with 0
less-zero :
    (negative : Bool) (d q : ℕ)
    → less_signed negative false (d * 100000) (0 * q) ≡ less_signed negative false (d * 1) (0 * q)
less-zero true d q = ground arith
less-zero false d q = ground arith

times_one :
    (negative : Bool) (d p : ℕ)
    → decimal_of (differ negative false) (d * 1) (p + 0) ≡ decimal_of negative d p
times_one true d p = ap₂ (decimal_of true) (omega arith) (omega arith)
times_one false d p = ap₂ (decimal_of false) (omega arith) (omega arith)

times_minus_one :
    (n : ℕ)
    → 0 < n
    → n < 2 ^ 32
    → (n == 2 ^ 31) ≡ false
    → decimals.times (decimal_of_int n) decimals.minus_one ≡ decimal_of_int (2 ^ 32 - n)
times_minus_one n p b e = elim (Bool-cases (leb (2 ^ 31) n)) [
  | inl l ↦
      let other : leb (2 ^ 31) (2 ^ 32 - n) ≡ false = ground (arith, l, b, e) in
      rw (l, other) (ap₂ (decimal_of false) (omega (arith, b)) refl)
  | inr l ↦
      let other : leb (2 ^ 31) (2 ^ 32 - n) ≡ true = ground (arith, l) in
      rw (l, other) (ap₂ (decimal_of true) (omega (arith, b)) refl)
]

minus_zero-less :
    (negative : Bool) (q d : ℕ)
    → less_signed true negative (0 * q) d ≡ less_signed false negative (0 * q) d
minus_zero-less true q d = ground arith
minus_zero-less false q d = ground arith

pub decimals-IsIeee : IsIeee decimals
decimals-IsIeee = record {
  times_one = λ x. times_one x.is_negative x.digits x.places;
  one_times = λ x. ap₂ (decimal_of x.is_negative) (omega arith) (omega arith);
  times_minus_one = λ n p b e. times_minus_one n p b e;
  less_of_int = λ m n a b. unfold less_int in ground (arith, a, b);
  less_small = λ m n a p b. ground (arith, a, p, b);
  minus_zero_less = λ x. minus_zero-less x.is_negative (100000 ^ x.places) (x.digits * 1);
  less_zero = λ x. less-zero x.is_negative x.digits (100000 ^ x.places);
}
