-- ===== src/Prelude/Text/Decimal.antt =====
-- The decimal text of a number, as `operator<<` of std::ostream writes it.
use Prim.Native.Char.{Char, char, code}
use text.Mathlib.TextLemmas.{cons-ne-nil}
use fimex.Prelude.{
  inr, ◌∙◌, ap, inl, ◌-◌, arith, if◌then◌else◌, ◌==◌, sym, refl, Bool-cases, ◌%◌, ◌/◌, ◌+◌, zero,
  ◌*◌, String, ◌<◌, suc, ◌≡◌, ℕ,
}

unfoldable pub digit : ℕ → Char
digit zero = char 48 tt
digit (suc zero) = char 49 tt
digit (suc (suc zero)) = char 50 tt
digit (suc (suc (suc zero))) = char 51 tt
digit (suc (suc (suc (suc zero)))) = char 52 tt
digit (suc (suc (suc (suc (suc zero))))) = char 53 tt
digit (suc (suc (suc (suc (suc (suc zero)))))) = char 54 tt
digit (suc (suc (suc (suc (suc (suc (suc zero))))))) = char 55 tt
digit (suc (suc (suc (suc (suc (suc (suc (suc zero)))))))) = char 56 tt
digit (suc (suc (suc (suc (suc (suc (suc (suc (suc d))))))))) = char 57 tt

-- Each round writes the last digit; as many rounds as the number says are enough.
unfoldable pub decimal_from : ℕ → ℕ → String → String
decimal_from zero n out = out
decimal_from (suc fuel) n out =
    let rest = decimal_from fuel (n / 10) (String.◌∷◌ (digit (n % 10)) out) in
    if n / 10 == 0 then String.◌∷◌ (digit (n % 10)) out else rest

unfoldable pub decimal : ℕ → String
unfolding decimal_from digit
decimal n = decimal_from (suc n) n String.[]

decimal_run : decimal 1203 ≡ "1203"
unfolding decimal
decimal_run = refl

-- The number that digits spell behind others
value : String → ℕ → ℕ
value String.[] n = n
value (String.◌∷◌ c s) n = value s (n * 10 + (code c - 48))

pub code-digit : (d : ℕ) → d < 10 → code (digit d) ≡ 48 + d
unfolding digit
code-digit zero h = refl
code-digit (suc zero) h = refl
code-digit (suc (suc zero)) h = refl
code-digit (suc (suc (suc zero))) h = refl
code-digit (suc (suc (suc (suc zero)))) h = refl
code-digit (suc (suc (suc (suc (suc zero))))) h = refl
code-digit (suc (suc (suc (suc (suc (suc zero)))))) h = refl
code-digit (suc (suc (suc (suc (suc (suc (suc zero))))))) h = refl
code-digit (suc (suc (suc (suc (suc (suc (suc (suc zero)))))))) h = refl
code-digit (suc (suc (suc (suc (suc (suc (suc (suc (suc zero))))))))) h = refl
code-digit (suc (suc (suc (suc (suc (suc (suc (suc (suc (suc d)))))))))) h =
    absurd (omega (arith, h))

value-digit :
    (n : ℕ) (out : String) → value (String.◌∷◌ (digit (n % 10)) out) (n / 10) ≡ value out n
unfolding value
value-digit n out =
    let c = code-digit (n % 10) (omega arith) in
    ap (value out) {x = n / 10 * 10 + (code (digit (n % 10)) - 48)} {y = n} (omega (arith, c))

value-decimal_from :
    (fuel n : ℕ) (out : String) → n < fuel → value (decimal_from fuel n out) 0 ≡ value out n
unfolding decimal_from
value-decimal_from zero n out h = elim h [ ]
value-decimal_from (suc fuel) n out h = elim (Bool-cases (n / 10 == 0)) [
  | inl e ↦
      let z : n / 10 ≡ 0 = ground arith in
      rw e (ap (value (String.◌∷◌ (digit (n % 10)) out)) (sym z) ∙ value-digit n out)
  | inr e ↦
      let p : (n / 10 ≡ 0 → ⊥) = λ q. ground (arith, q) in
      rw e (
        value-decimal_from fuel (n / 10) (String.◌∷◌ (digit (n % 10)) out) (omega (arith, h, p))
        ∙ value-digit n out)
]

-- Different numbers have different texts.
pub decimal-injective : (m n : ℕ) → decimal m ≡ decimal n → m ≡ n
unfolding decimal value
decimal-injective m n h =
    sym (value-decimal_from (suc m) m String.[] (omega arith))
    ∙ ap (λ (s : String). value s 0) h
    ∙ value-decimal_from (suc n) n String.[] (omega arith)

-- Another round puts a digit before what is there.
decimal_from-cons :
    (fuel n : ℕ) (c : Char) (out : String) → decimal_from fuel n (String.◌∷◌ c out) ≡ String.[] → ⊥
unfolding decimal_from
decimal_from-cons zero n c out h = cons-ne-nil c out h
decimal_from-cons (suc fuel) n c out h = elim (Bool-cases (n / 10 == 0)) [
  | inl e ↦ cons-ne-nil (digit (n % 10)) (String.◌∷◌ c out) (rw (decimal_from, e) at h)
  | inr e ↦
      decimal_from-cons fuel (n / 10) (digit (n % 10)) (String.◌∷◌ c out)
        (rw (decimal_from, e) at h)
]

pub decimal-ne-empty : (n : ℕ) → decimal n ≡ String.[] → ⊥
unfolding decimal decimal_from
decimal-ne-empty n h = elim (Bool-cases (n / 10 == 0)) [
  | inl e ↦ cons-ne-nil (digit (n % 10)) String.[] (rw (decimal_from, e) at h)
  | inr e ↦ decimal_from-cons n (n / 10) (digit (n % 10)) String.[] (rw (decimal_from, e) at h)
]
