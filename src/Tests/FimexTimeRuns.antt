-- ===== src/Tests/FimexTimeRuns.antt =====
-- Times printed and read, texts joined and cut, and dots in lists of numbers.
use fimex.Tests.Decimals.{decimals-IsIeee, decimals}
use fimex.FimexTime.Order.{time_le, time_ge, time_lt, time_gt}
use fimex.FimexTime.Order.Lexicographic.{time_gt-lexicographic, fields, lexicographic, HasRoom}
use mathlib.Core.List.{reverse}
use fimex.Prelude.{ltb, if◌then◌else◌, not, ◌++◌, ◌≤◌, ◌*◌, ◌+◌, ◌<◌}
use fimex.FimexTime.Dots.{after_dots-arithmetic, after_dots-level, arithmetic}
use fimex.Prelude.Text.Decimal.{decimal}
use fimex.FimexTime.RoundTrip.Printed.{parse_iso8601-make_time_string_extended}
use fimex.StringUtils.Join.{last_piece, more_pieces, tokenize-join, join}
use fimex.FimexTime.Numbers.{
  negative, round_error, direction, dots_go_on, is_digit, read_digits, read_number, not_negative,
  string2type, expand_dots, after_dots, dotted, tokenize_dotted,
}
use fimex.FimexTime.Parse.{int_numbers, parse_iso8601}
use fimex.FimexTime.RoundTrip.{IsPrintable}
use fimex.FimexTime.{
  milliseconds, two_digits, time_text, date_text, FimexTime, make_time_string_extended,
}
use fimex.Prelude.{none, [], ◌∷◌, some, refl, ◌≡◌, arith, ℕ, true}
use fimex.Prelude.Result.{Result, ok, err, runtime_error}
use fimex.StringUtils.{
  bytes_eq, trim, token_at, find_first_of, find_first_not_of, tokenize_from, tokenize, has_byte,
  Bytes, codes,
}

abbrev noon : FimexTime
noon = record { year = 2024; month = 2; mday = 29; hour = 12; minute = 0; second = 7; msecond = 0 }

noon-IsPrintable : IsPrintable noon
noon-IsPrintable = record {
  years = omega arith;
  months = omega arith;
  mdays = omega arith;
  hours = omega arith;
  minutes = omega arith;
  seconds = omega arith;
  whole = refl;
}

no_fraction : Bytes → Result ℕ
no_fraction s = ok 0

printed_run : make_time_string_extended noon ≡ codes "2024-02-29T12:00:07"
unfolding make_time_string_extended date_text time_text two_digits milliseconds decimal
printed_run = refl

parse_iso8601-make_time_string_extended_example :
    parse_iso8601 decimals 10 no_fraction (make_time_string_extended noon) noon
    ≡ some (ok (true, noon))
parse_iso8601-make_time_string_extended_example =
    parse_iso8601-make_time_string_extended decimals 10 no_fraction noon noon noon-IsPrintable

tokenize-join_example :
    tokenize (join (codes "ab" ∷ codes "c" ∷ []) (codes ",")) (codes ",")
    ≡ codes "ab" ∷ codes "c" ∷ []
unfolding has_byte
tokenize-join_example = tokenize-join (more_pieces b'a' (codes "b") refl (last_piece b'c' [] refl))

dots_run :
    tokenize_dotted (int_numbers decimals) 10 (codes "1,3,...,8") (codes ",")
    ≡ some (ok (1 ∷ 3 ∷ 5 ∷ 7 ∷ 8 ∷ []))
unfolding tokenize_dotted dotted after_dots expand_dots dots_go_on direction round_error tokenize
    tokenize_from find_first_not_of find_first_of token_at has_byte trim bytes_eq string2type
    not_negative read_number read_digits is_digit
dots_run = refl

-- Dots at the end
last_dots_run : tokenize_dotted (int_numbers decimals) 10 (codes "1,3,...") (codes ",") ≡ none
unfolding tokenize_dotted dotted after_dots expand_dots dots_go_on direction round_error tokenize
    tokenize_from find_first_not_of find_first_of token_at has_byte trim bytes_eq string2type
    not_negative read_number read_digits is_digit
last_dots_run = refl

-- A space before the number behind the dots
space_behind_dots_run :
    tokenize_dotted (int_numbers decimals) 10 (codes "1, 3, ..., 8") (codes ",")
    ≡ some (err runtime_error)
unfolding tokenize_dotted dotted after_dots expand_dots dots_go_on direction round_error tokenize
    tokenize_from find_first_not_of find_first_of token_at has_byte trim bytes_eq string2type
    not_negative read_number read_digits is_digit
space_behind_dots_run = refl

-- Values that fall
falling_dots_run :
    tokenize_dotted (int_numbers decimals) 10 (codes "5,3,...,-2") (codes ",")
    ≡ some (ok (5 ∷ 3 ∷ 1 ∷ 4294967295 ∷ 4294967294 ∷ []))
unfolding tokenize_dotted dotted after_dots expand_dots dots_go_on direction round_error tokenize
    tokenize_from find_first_not_of find_first_of token_at has_byte trim bytes_eq string2type
    not_negative negative read_number read_digits is_digit
falling_dots_run = refl

after_dots-arithmetic_example :
    (k : ℕ) × (after_dots (int_numbers decimals) 10 (codes "8") (3 ∷ 1 ∷ [])
      ≡ some (ok (8 ∷ reverse (arithmetic 5 2 k) ++ 3 ∷ 1 ∷ [])))
    × (8 ≤ 5 + k * 2)
    × ((j : ℕ) → j < k → 5 + j * 2 < 8)
unfolding string2type not_negative read_number read_digits is_digit
after_dots-arithmetic_example =
    after_dots-arithmetic decimals 10 1 3 8 (codes "8") [] decimals-IsIeee (omega arith)
      (omega arith) (omega arith) (omega arith) refl (omega arith)

after_dots-level_example :
    after_dots (int_numbers decimals) 1000 (codes "1") (2 ∷ 2 ∷ [])
    ≡ (if ltb 1 2 then none else some (ok (1 ∷ 2 ∷ 2 ∷ [])))
unfolding string2type not_negative read_number read_digits is_digit
after_dots-level_example =
    after_dots-level decimals decimals-IsIeee 2 1 (codes "1") [] refl (omega arith) (omega arith)
      999

noon-HasRoom : HasRoom noon
noon-HasRoom = record {
  months = omega arith;
  mdays = omega arith;
  hours = omega arith;
  minutes = omega arith;
  seconds = omega arith;
  mseconds = omega arith;
}

time_gt-lexicographic_example :
    (time_gt noon noon ≡ lexicographic (fields noon) (fields noon))
    × (time_lt noon noon ≡ lexicographic (fields noon) (fields noon))
    × (time_ge noon noon ≡ not (lexicographic (fields noon) (fields noon)))
    × (time_le noon noon ≡ not (lexicographic (fields noon) (fields noon)))
time_gt-lexicographic_example = time_gt-lexicographic noon noon noon-HasRoom noon-HasRoom
