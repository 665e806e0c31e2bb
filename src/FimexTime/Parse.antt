-- ===== src/FimexTime/Parse.antt =====
-- FimexTime::parseISO8601 (src/FimexTime.cc). The type `double` is a parameter, and so are
-- the rounded milliseconds of the digits behind the point of the seconds, and the fuel of the loop
-- of tokenizeDotted.
use fimex.FimexTime.{set_time, FimexTime}
use fimex.FimexTime.Numbers.{
  Double, short_limit, white_space, int_limit, tokenize_dotted, string2type, Numbers,
}
use fimex.Prelude.{
  ◌&&◌, ltb, ◌-◌, ◌^◌, [], ◌==◌, ◌%◌, some, length, ◌+◌, none, if◌then◌else◌, ◌∷◌, List, Bool,
  Option, ℕ, true, false,
}
use fimex.Prelude.Result.{Result, ok, err, ◌>>=◌}
use fimex.StringUtils.{tokenize, trim, Bytes, codes}

-- Integers of 32 bits, in two's complement
abbrev pub int_numbers : {D : Type 0} → Double D → Numbers ℕ D
int_numbers double = record {
  of_text = string2type int_limit;
  plus = λ a b. (a + b) % 2 ^ 32;
  minus = λ a b. (a + 2 ^ 32 - b) % 2 ^ 32;
  positive = λ a. ltb 0 a && ltb a (2 ^ 31);
  to_double = double.of_int;
  double = double;
}

-- What is returned, the time then, and the exception; none where the source defines no outcome.
abbrev pub Parsed : Type 0
Parsed = Option (Result (Bool × FimexTime))

module _ {D : Type 0} (double : Double D) (fuel : ℕ) (millis : Bytes → Result ℕ) where
  -- The seconds and what is behind their point
  unfoldable pub seconds_and_millis : List Bytes → Option (Result (ℕ × ℕ))
  unfolding string2type
  seconds_and_millis [] = none
  seconds_and_millis (s ∷ []) = some (string2type short_limit s >>= λ n. ok (n, 0))
  seconds_and_millis (s ∷ fraction ∷ _) =
      some (millis fraction >>= λ milli_secs. string2type short_limit s >>= λ n. ok (n, milli_secs))

  -- The end of parseISO8601, where a missing number of seconds is 0
  unfoldable pub set_fields : List ℕ → List Bytes → FimexTime → Parsed
  unfolding set_time string2type seconds_and_millis tokenize
  set_fields (year ∷ month ∷ mday ∷ []) (h ∷ m ∷ s ∷ []) t =
      elim (seconds_and_millis (tokenize s (codes "."))) [
        | none ↦ none
        | some read ↦ some (
            read >>= λ (second, msecond). string2type short_limit h >>= λ hour.
            string2type short_limit m >>= λ minute.
            ok (true, set_time year month mday hour minute second msecond))
      ]
  set_fields _ _ t = some (ok (false, t))

  unfoldable pub with_seconds : List Bytes → List Bytes
  with_seconds (h ∷ m ∷ []) = h ∷ m ∷ codes "0" ∷ []
  with_seconds time = time

  -- The date, and the time if there is one
  unfoldable pub parse_parts : List Bytes → FimexTime → Parsed
  unfolding set_fields with_seconds tokenize_dotted tokenize
  parse_parts (date_part ∷ []) t =
      elim (tokenize_dotted (int_numbers double) fuel date_part (codes "-")) [
        | none ↦ none
        | some r ↦ elim r [
          | err e ↦ some (err e)
          | ok date ↦
              if length date == 3
              then set_fields date (codes "0" ∷ codes "0" ∷ codes "0.0" ∷ []) t
              else some (ok (false, t))
        ]
      ]
  parse_parts (date_part ∷ time_part ∷ []) t =
      elim (tokenize_dotted (int_numbers double) fuel date_part (codes "-")) [
        | none ↦ none
        | some r ↦ elim r [
          | err e ↦ some (err e)
          | ok date ↦ set_fields date (with_seconds (tokenize time_part (codes ":"))) t
        ]
      ]
  parse_parts _ t = some (ok (false, t))

  -- The tokens around a T, or around spaces if there is no T
  unfoldable pub date_and_time : Bytes → List Bytes
  unfolding tokenize
  date_and_time text =
      let by_t = tokenize text (codes "T") in
      if length by_t == 1 then tokenize text (codes " ") else by_t

  unfoldable pub parse_iso8601 : Bytes → FimexTime → Parsed
  unfolding trim parse_parts date_and_time
  parse_iso8601 iso_str t =
      let trimmed = trim iso_str white_space in
      if length trimmed == 0 then some (ok (false, t)) else parse_parts (date_and_time trimmed) t
