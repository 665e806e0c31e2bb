-- ===== src/FimexTime/Numbers.antt =====
-- Numbers in texts: string2type for `int` and `short` (include/fimex/String2Type.h) and
-- tokenizeDotted (include/fimex/TokenizeDotted.h).
use mathlib.Core.List.{reverse}
use fimex.Prelude.{
  length, ◌%◌, ◌+◌, ltb, ◌-◌, ◌==◌, zero, ◌&&◌, if◌then◌else◌, ◌*◌, leb, [], suc, List, ◌^◌, Option,
  ◌∷◌, Bool, ℕ, none, some,
}
use fimex.Prelude.{true, false}
use fimex.Prelude.Result.{Result, ok, err, runtime_error, cdm_exception}
use fimex.StringUtils.{trim, bytes_eq, tokenize, Bytes, codes}

abbrev pub white_space : Bytes
white_space = 32 ∷ 9 ∷ 10 ∷ 13 ∷ []

unfoldable pub is_digit : ℕ → Bool
is_digit c = leb b'0' c && leb c b'9'

-- The digits of a number to the end of the text, behind those read before.
unfoldable pub read_digits : Bytes → ℕ → Option ℕ
unfolding is_digit
read_digits [] n = some n
read_digits (c ∷ s) n =
    let rest = read_digits s (n * 10 + (c - b'0')) in if is_digit c then rest else none

unfoldable pub read_number : Bytes → Option ℕ
read_number [] = none
read_number (c ∷ s) = read_digits (c ∷ s) 0

-- A number that the type holds; a negative one is its two's complement.
unfoldable pub not_negative : ℕ → Option ℕ → Result ℕ
not_negative limit none = err runtime_error
not_negative limit (some n) = if ltb n limit then ok n else err runtime_error

unfoldable pub negative : ℕ → Option ℕ → Result ℕ
negative limit none = err runtime_error
negative limit (some n) =
    if leb n limit then ok ((2 * limit - n) % (2 * limit)) else err runtime_error

-- string2type for a signed type whose numbers are below the limit
unfoldable pub string2type : ℕ → Bytes → Result ℕ
unfolding not_negative negative is_digit read_digits read_number
string2type limit [] = err runtime_error
string2type limit (c ∷ s) =
    if c == b'-'
    then negative limit (read_number s)
    else if is_digit c
    then not_negative limit (read_number (c ∷ s))
    else err runtime_error

abbrev pub int_limit : ℕ
int_limit = 2 ^ 31

abbrev pub short_limit : ℕ
short_limit = 2 ^ 15

-- The type `double`, which is no code of this repository: the conversion of an `int`, given by its
-- two's complement, the numbers 1, -1 and -1.e-5, the product and the comparison.
pub record Double (D : Type 0) : Type 0 where
  pub of_int : ℕ → D
  pub one : D
  pub minus_one : D
  pub minus_1e_5 : D
  pub times : D → D → D
  pub less : D → D → Bool

-- The operations of the type T of the numbers: string2type, +, -, > 0, and the conversion to `double`
pub record Numbers (T D : Type 0) : Type 0 where
  pub of_text : Bytes → Result T
  pub plus : T → T → T
  pub minus : T → T → T
  pub positive : T → Bool
  pub to_double : T → D
  pub double : Double D

module _ {T D : Type 0} (numbers : Numbers T D) where
  -- (dist > 0) ? 1 : -1
  unfoldable pub direction : T → D
  direction dist = if numbers.positive dist then numbers.double.one else numbers.double.minus_one

  -- direction * dist * -1.e-5
  unfoldable pub round_error : T → D
  unfolding direction
  round_error dist =
      numbers.double.times (numbers.double.times (direction dist) (numbers.to_double dist))
        numbers.double.minus_1e_5

  -- (curVal - afterDotVal) * direction < roundError
  unfoldable pub dots_go_on : T → T → T → Bool
  unfolding direction round_error
  dots_go_on dist after cur =
      numbers.double.less
        (numbers.double.times (numbers.to_double (numbers.minus cur after)) (direction dist))
        (round_error dist)

  -- The loop that expands dots, on fuel; the values are in reverse order.
  unfoldable pub expand_dots : ℕ → T → T → T → List T → Option (List T)
  unfolding dots_go_on
  expand_dots zero dist after cur vals = none
  expand_dots (suc fuel) dist after cur vals =
      let rest = expand_dots fuel dist after (numbers.plus cur dist) (cur ∷ vals) in
      if dots_go_on dist after cur then rest else some vals

  -- The dots and the value behind them
  unfoldable pub after_dots : ℕ → Bytes → List T → Option (Result (List T))
  unfolding expand_dots
  after_dots fuel tok [] = some (err cdm_exception)
  after_dots fuel tok (last ∷ []) = some (err cdm_exception)
  after_dots fuel tok (last ∷ previous ∷ vals) =
      let dist = numbers.minus last previous in
      elim (numbers.of_text tok) [
        | err e ↦ some (err e)
        | ok after ↦
            elim (expand_dots fuel dist after (numbers.plus last dist) (last ∷ previous ∷ vals)) [
              | none ↦ none
              | some expanded ↦ some (ok (after ∷ expanded))
            ]
      ]

  -- The loop over the tokens. Dots at the end move the iterator past the end, which has no defined
  -- outcome: none, as for a loop that is out of fuel.
  unfoldable pub dotted : ℕ → List Bytes → List T → Option (Result (List T))
  unfolding after_dots
  dotted fuel [] vals = some (ok (reverse vals))
  dotted fuel (tok ∷ []) vals = elim (bytes_eq (trim tok white_space) (codes "...")) [
    | true ↦ if ltb (length vals) 2 then some (err cdm_exception) else none
    | false ↦ elim (numbers.of_text (trim tok white_space)) [
      | err e ↦ some (err e)
      | ok val ↦ some (ok (reverse (val ∷ vals)))
    ]
  ]
  dotted fuel (tok ∷ next ∷ toks) vals = elim (bytes_eq (trim tok white_space) (codes "...")) [
    | true ↦ elim (after_dots fuel next vals) [
      | none ↦ none
      | some r ↦ elim r [ err e ↦ some (err e) | ok vals' ↦ dotted fuel toks vals' ]
    ]
    | false ↦ elim (numbers.of_text (trim tok white_space)) [
      | err e ↦ some (err e)
      | ok val ↦ dotted fuel (next ∷ toks) (val ∷ vals)
    ]
  ]

  unfoldable pub tokenize_dotted : ℕ → Bytes → Bytes → Option (Result (List T))
  unfolding dotted tokenize
  tokenize_dotted fuel str delimiter = dotted fuel (tokenize str delimiter) []
