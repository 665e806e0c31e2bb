-- ===== src/FimexTime/Digits.antt =====
-- Digits that are printed are read back.
use fimex.FimexTime.{two_digits}
use fimex.FimexTime.Numbers.{not_negative, read_number, string2type, read_digits, is_digit}
use Prim.Native.Char.{code}
use fimex.Prelude.{
  ◌≤◌, lt→ltb, ap₂, ltb→lt, length, ltb, leb, [], ◌∙◌, sym, zero, inr, ap, ◌-◌, inl, ◌+◌, ◌*◌, ◌==◌,
  ◌/◌, refl, Bool-cases, arith, ◌∷◌, suc, some, any, ◌<◌, ◌%◌, ◌≡◌, Bool, String, ℕ, true, false,
}
use fimex.Prelude.Result.{ok}
use fimex.StringUtils.{Bytes, codes}
use fimex.Prelude.Text.Decimal.{decimal, decimal_from, digit, code-digit}

-- A test that fails at every digit
abbrev pub NoDigit : (ℕ → Bool) → Type 0
NoDigit p = (c : ℕ) → is_digit c ≡ true → p c ≡ false

read_digits-step :
    (n : ℕ) (out : Bytes) → read_digits (code (digit (n % 10)) ∷ out) (n / 10) ≡ read_digits out n
unfolding read_digits is_digit
read_digits-step n out =
    let c = code-digit (n % 10) (omega arith) in
    let d : is_digit (code (digit (n % 10))) ≡ true = ground (arith, c) in
    let e : n / 10 * 10 + (code (digit (n % 10)) - b'0') ≡ n = omega (arith, c) in rw (d, e) refl

read_digits-decimal_from :
    (fuel n : ℕ) (out : String)
    → n < fuel
    → read_digits (codes (decimal_from fuel n out)) 0 ≡ read_digits (codes out) n
unfolding decimal_from
read_digits-decimal_from zero n out h = absurd (omega (arith, h))
read_digits-decimal_from (suc fuel) n out h = elim (Bool-cases (n / 10 == 0)) [
  | inl e ↦
      let z : n / 10 ≡ 0 = ground arith in
      rw e (
        ap (read_digits (codes (String.◌∷◌ (digit (n % 10)) out))) (sym z)
        ∙ read_digits-step n (codes out))
  | inr e ↦
      let p : (n / 10 ≡ 0 → ⊥) = λ q. ground (arith, q) in
      rw e (
        read_digits-decimal_from fuel (n / 10) (String.◌∷◌ (digit (n % 10)) out)
          (omega (arith, h, p))
        ∙ read_digits-step n (codes out))
]

pub read_digits-decimal : (n : ℕ) → read_digits (codes (decimal n)) 0 ≡ some n
unfolding decimal read_digits
read_digits-decimal n = read_digits-decimal_from (suc n) n String.[] (omega arith)

-- Only digits are printed.
any-decimal_from :
    (p : ℕ → Bool) (fuel n : ℕ) (out : String)
    → NoDigit p
    → any p (codes out) ≡ false
    → any p (codes (decimal_from fuel n out)) ≡ false
unfolding decimal_from is_digit
any-decimal_from p zero n out none_of h = h
any-decimal_from p (suc fuel) n out none_of h =
    let c = code-digit (n % 10) (omega arith) in
    let q : p (code (digit (n % 10))) ≡ false =
      none_of (code (digit (n % 10))) (ground (arith, c)) in
    let here : any p (codes (String.◌∷◌ (digit (n % 10)) out)) ≡ false = rw q h in
    elim (Bool-cases (n / 10 == 0)) [
      | inl e ↦ rw e here
      | inr e ↦
          rw e (any-decimal_from p fuel (n / 10) (String.◌∷◌ (digit (n % 10)) out) none_of here)
    ]

pub any-decimal : (p : ℕ → Bool) (n : ℕ) → NoDigit p → any p (codes (decimal n)) ≡ false
unfolding decimal
any-decimal p n none_of = any-decimal_from p (suc n) n String.[] none_of refl

pub two_digits_lem : (n : ℕ) → n < 100 → two_digits n ≡ (48 + n / 10) ∷ (48 + n % 10) ∷ []
unfolding two_digits
two_digits_lem n b =
    let small : leb 100 n ≡ false = ground (arith, b) in
    elim (Bool-cases (ltb n 10)) [
      | inl e ↦
          let l = ltb→lt n 10 e in
          let tens : 48 ≡ 48 + n / 10 = omega (arith, l) in
          let ones : 48 + n ≡ 48 + n % 10 = omega (arith, l) in
          rw (small, e) (ap₂ (λ (a d : ℕ). a ∷ d ∷ []) tens ones)
      | inr e ↦ rw (small, e) refl
    ]

pub any-two_digits : (p : ℕ → Bool) (n : ℕ) → n < 100 → NoDigit p → any p (two_digits n) ≡ false
unfolding is_digit
any-two_digits p n b none_of =
    let first : p (48 + n / 10) ≡ false = none_of (48 + n / 10) (ground (arith, b)) in
    let second : p (48 + n % 10) ≡ false = none_of (48 + n % 10) (ground (arith, b)) in
    rw (two_digits_lem n b, first, second) refl

pub read_digits-two_digits : (n : ℕ) → n < 100 → read_digits (two_digits n) 0 ≡ some n
unfolding read_digits is_digit
read_digits-two_digits n b =
    let first : is_digit (48 + n / 10) ≡ true = ground (arith, b) in
    let second : is_digit (48 + n % 10) ≡ true = ground (arith, b) in
    let e : (0 * 10 + (48 + n / 10 - 48)) * 10 + (48 + n % 10 - 48) ≡ n = omega arith in
    rw (two_digits_lem n b, first, second) (ap (λ (k : ℕ). some k) e)

-- Digits with a number that the type holds are read as that number.
pub string2type-digits :
    (limit : ℕ) (s : Bytes) (n : ℕ)
    → read_digits s 0 ≡ some n
    → 0 < length s
    → n < limit
    → string2type limit s ≡ ok n
unfolding string2type read_number read_digits is_digit not_negative
string2type-digits limit [] n h l b = absurd (omega (arith, l))
string2type-digits limit (c ∷ s) n h l b = elim (Bool-cases (is_digit c)) [
  | inl d ↦
      let no_sign : (c == b'-') ≡ false = ground (arith, d) in
      let fits : ltb n limit ≡ true = lt→ltb n limit b in
      let last : not_negative limit (some n) ≡ ok n = rw fits refl in
      rw (no_sign, d) (ap (not_negative limit) (rw d at h) ∙ last)
  | inr d ↦ absurd (cc (rw d at h))
]

length-decimal_from :
    (fuel n : ℕ) (out : String) → length (codes out) ≤ length (codes (decimal_from fuel n out))
unfolding decimal_from
length-decimal_from zero n out = omega arith
length-decimal_from (suc fuel) n out = elim (Bool-cases (n / 10 == 0)) [
  | inl e ↦ rw e (omega arith)
  | inr e ↦
      rw e (omega (arith, length-decimal_from fuel (n / 10) (String.◌∷◌ (digit (n % 10)) out)))
]

pub length-decimal : (n : ℕ) → 0 < length (codes (decimal n))
unfolding decimal decimal_from
length-decimal n = elim (Bool-cases (n / 10 == 0)) [
  | inl e ↦ rw (decimal_from, e) (omega arith)
  | inr e ↦
      let l = length-decimal_from n (n / 10) (String.◌∷◌ (digit (n % 10)) String.[]) in
      rw (decimal_from, e) l
]
