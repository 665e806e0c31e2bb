-- ===== src/FimexTime/Order.antt =====
-- The order of times (include/fimex/FimexTime.h), the special values and string2FimexTime
-- (src/FimexTime.cc).
pub mod Lexicographic
use fimex.FimexTime.Numbers.{Double}
use fimex.Prelude.{none, some}
use fimex.Prelude.Result.{cdm_exception, ok, err, Result}
use fimex.StringUtils.{Bytes}
use fimex.FimexTime.Parse.{parse_iso8601}
use fimex.FimexTime.{set_time, FimexTime}
use native.Mathlib.Nat.{mul-le-mul_right, suc-mul}
use fimex.Prelude.{
  Option, ◌∙◌, ap₂, ap, inr, ltb→lt, inl, Bool-cases, suc, ◌≤◌, arith, refl, ◌≡◌, ◌-◌, ◌==◌, [],
  ltb, ◌+◌, not, ◌*◌, Bool, if◌then◌else◌, ◌<◌, ◌∷◌, ℕ, List, true, false,
}

-- A `char` and the number that it is: what it is above 0, and below.
unfoldable pub above : ℕ → ℕ
above c = if ltb c 128 then c else 0

unfoldable pub below : ℕ → ℕ
below c = if ltb c 128 then 0 else 256 - c

-- The sum of toLong over one of the parts of the fields
unfoldable pub weighted : ℕ → ℕ → ℕ → ℕ → ℕ → ℕ → ℕ → ℕ
weighted year month mday hour minute second msecond =
    year * 10000000000000
    + month * 100000000000
    + mday * 1000000000
    + hour * 10000000
    + minute * 100000
    + second * 1000
    + msecond

-- toLong, as the difference of two sums
unfoldable pub to_long : FimexTime → ℕ × ℕ
unfolding weighted above below
to_long t = (
  weighted t.year (above t.month) (above t.mday) (above t.hour) (above t.minute) (above t.second)
      t.msecond,
  weighted 0 (below t.month) (below t.mday) (below t.hour) (below t.minute) (below t.second) 0,
)

-- operator>
unfoldable pub time_gt : FimexTime → FimexTime → Bool
unfolding to_long
time_gt s t = ltb ((to_long t).0 + (to_long s).1) ((to_long s).0 + (to_long t).1)

-- operator<, operator>= and operator<=
unfoldable pub time_lt : FimexTime → FimexTime → Bool
unfolding time_gt
time_lt s t = time_gt t s

unfoldable pub time_ge : FimexTime → FimexTime → Bool
unfolding time_gt
time_ge s t = not (time_gt t s)

unfoldable pub time_le : FimexTime → FimexTime → Bool
unfolding time_gt
time_le s t = not (time_gt s t)

pub data SpecialValues : Type 0 where
  min_date_time max_date_time : SpecialValues

-- The constructor of a special value: CHAR_MIN is the byte 128, CHAR_MAX 127, USHRT_MAX 65535.
unfoldable pub special_time : SpecialValues → FimexTime
unfolding set_time
special_time min_date_time = set_time 0 128 128 128 128 128 0
special_time max_date_time = set_time 65535 127 127 127 127 127 65535

-- string2FimexTime, which reads into the smallest time
unfoldable pub string2fimex_time :
    {D : Type 0} → Double D → ℕ → (Bytes → Result ℕ) → Bytes → Option (Result FimexTime)
unfolding parse_iso8601 special_time
string2fimex_time double fuel millis str =
    elim (parse_iso8601 double fuel millis str (special_time min_date_time)) [
      | none ↦ none
      | some r ↦ elim r [
        | err e ↦ some (err e)
        | ok (done, t) ↦ if done then some (ok t) else some (err cdm_exception)
      ]
    ]
