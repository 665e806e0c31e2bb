-- ===== src/FimexTime/Doubles.antt =====
-- What tokenizeDotted relies on of `double`, and its test of the loop for `int`
-- (include/fimex/TokenizeDotted.h).
use fimex.FimexTime.Numbers.{Double, dots_go_on, direction, round_error}
use fimex.FimexTime.Parse.{int_numbers}
use fimex.Prelude.{
  inr, inl, false, ◌==◌, Bool-cases, ◌≡◌, ◌<◌, ◌+◌, ◌-◌, ◌%◌, ◌^◌, ◌&&◌, ltb, ℕ, Bool, true, arith,
  ◌∙◌,
}

-- The order of two numbers of `int`, by their two's complements
unfoldable pub less_int : ℕ → ℕ → Bool
less_int m n = ltb ((m + 2 ^ 31) % 2 ^ 32) ((n + 2 ^ 31) % 2 ^ 32)

-- IEEE 754: products with 1 and -1 and comparisons of converted numbers are exact. The product of
-- -1.e-5 and a converted number between 0 and 100000 lies between -1 and 0, and one with 0 is 0.
pub record IsIeee {D : Type 0} (double : Double D) : Type 0 where
  pub times_one : (x : D) → double.times x double.one ≡ x
  pub one_times : (x : D) → double.times double.one x ≡ x
  pub times_minus_one :
      (n : ℕ)
      → 0 < n
      → n < 2 ^ 32
      → (n == 2 ^ 31) ≡ false
      → double.times (double.of_int n) double.minus_one ≡ double.of_int (2 ^ 32 - n)
  pub less_of_int :
      (m n : ℕ)
      → m < 2 ^ 32
      → n < 2 ^ 32
      → double.less (double.of_int m) (double.of_int n) ≡ less_int m n
  pub less_small :
      (m n : ℕ)
      → m < 2 ^ 32
      → 0 < n
      → n < 100000
      → double.less (double.of_int m) (double.times (double.of_int n) double.minus_1e_5)
        ≡ double.less (double.of_int m) (double.of_int 0)
  pub minus_zero_less :
      (x : D)
      → double.less (double.times (double.of_int 0) double.minus_one) x
        ≡ double.less (double.of_int 0) x
  pub less_zero :
      (x : D)
      → double.less x
          (double.times (double.times double.minus_one (double.of_int 0)) double.minus_1e_5)
        ≡ double.less x (double.of_int 0)

module _ {D : Type 0} (double : Double D) (ieee : IsIeee double) where
  -- Values that grow are expanded while they are below the value behind the dots.
  pub dots_go_on-growing :
      (dist after cur : ℕ)
      → 0 < dist
      → dist < 100000
      → after < 2 ^ 31
      → cur < 2 ^ 31
      → dots_go_on (int_numbers double) dist after cur ≡ ltb cur after
  unfolding dots_go_on direction round_error
  dots_go_on-growing dist after cur positive small a c =
      let n = (cur + 2 ^ 32 - after) % 2 ^ 32 in
      let up : (ltb 0 dist && ltb dist (2 ^ 31)) ≡ true = ground (arith, positive, small) in
      let bound : n < 2 ^ 32 = omega arith in
      let sign : less_int n 0 ≡ ltb cur after = unfold less_int in ground (arith, a, c) in
      rw (dots_go_on, up, ieee.times_one (double.of_int n), ieee.one_times (double.of_int dist))
        (ieee.less_small n dist bound positive small
          ∙ ieee.less_of_int n 0 bound (omega arith)
          ∙ sign)

  -- The product of -1 and the difference of two numbers that are not negative, compared with 0
  less-difference :
      (after cur : ℕ)
      → after < 2 ^ 31
      → cur < 2 ^ 31
      → double.less
          (double.times (double.of_int ((cur + 2 ^ 32 - after) % 2 ^ 32)) double.minus_one)
          (double.of_int 0)
        ≡ ltb after cur
  less-difference after cur a c =
      let n = (cur + 2 ^ 32 - after) % 2 ^ 32 in
      let bound : n < 2 ^ 32 = omega arith in
      elim (Bool-cases (cur == after)) [
        | inl e ↦
            let zero_left : n ≡ 0 = ground (arith, e, a, c) in
            let sign : less_int 0 0 ≡ ltb after cur = unfold less_int in ground (arith, e) in
            rw zero_left (
              ieee.minus_zero_less (double.of_int 0)
              ∙ ieee.less_of_int 0 0 (omega arith) (omega arith)
              ∙ sign)
        | inr e ↦
            let some_left : 0 < n = ground (arith, e, a, c) in
            let middle : (n == 2 ^ 31) ≡ false = ground (arith, a, c) in
            let sign : less_int (2 ^ 32 - n) 0 ≡ ltb after cur =
              unfold less_int in ground (arith, e, a, c) in
            rw (ieee.times_minus_one n some_left bound middle)
              (ieee.less_of_int (2 ^ 32 - n) 0 (omega (arith, some_left)) (omega arith) ∙ sign)
      ]

  -- At the distance 0 values are put in while they are above the one behind the dots.
  pub dots_go_on-level :
      (after cur : ℕ)
      → after < 2 ^ 31
      → cur < 2 ^ 31
      → dots_go_on (int_numbers double) 0 after cur ≡ ltb after cur
  unfolding dots_go_on direction round_error
  dots_go_on-level after cur a c = ieee.less_zero _ ∙ less-difference after cur a c
