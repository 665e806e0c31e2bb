-- ===== src/FimexTime.antt =====
-- FimexTime (include/fimex/FimexTime.h, src/FimexTime.cc): how a time is printed and read.
pub mod Numbers
pub mod Parse
pub mod Digits
pub mod RoundTrip
pub mod Doubles
pub mod Dots
pub mod Order
use fimex.Prelude.Text.Decimal.{decimal}
use fimex.Prelude.{
  ◌/◌, ◌+◌, ltb, [], ◌||◌, ◌&&◌, ◌∷◌, leb, ◌^◌, ◌==◌, ◌%◌, if◌then◌else◌, ◌++◌, Bool, ℕ, none, some,
}
use fimex.Prelude.Result.{ok, err}
use fimex.StringUtils.{Bytes, codes}

-- A `char` is the number of its byte, so that the negative ones are 128 and above.
pub record FimexTime : Type 0 where
  pub year : ℕ
  pub month : ℕ
  pub mday : ℕ
  pub hour : ℕ
  pub minute : ℕ
  pub second : ℕ
  pub msecond : ℕ

-- setTime, whose arguments are cut to `unsigned short` and `char`
unfoldable pub set_time : ℕ → ℕ → ℕ → ℕ → ℕ → ℕ → ℕ → FimexTime
set_time year month mday hour minute second msecond = record {
  year = year % 2 ^ 16;
  month = month % 2 ^ 8;
  mday = mday % 2 ^ 8;
  hour = hour % 2 ^ 8;
  minute = minute % 2 ^ 8;
  second = second % 2 ^ 8;
  msecond = msecond % 2 ^ 16;
}

unfoldable pub invalid : FimexTime → Bool
invalid t = t.month == 0 || leb 128 t.month || ltb 12 t.month

-- twoDigits of a `char`
unfoldable pub two_digits : ℕ → Bytes
two_digits i =
    if leb 100 i
    then b'?' ∷ b'?' ∷ []
    else if ltb i 10
    then b'0' ∷ (b'0' + i) ∷ []
    else (b'0' + i / 10) ∷ (b'0' + i % 10) ∷ []

unfoldable pub milliseconds : ℕ → Bytes
milliseconds msecond =
    if msecond == 0
    then []
    else codes "."
      ++ ((if ltb msecond 10 then codes "00" else if ltb msecond 100 then codes "0" else [])
          ++ codes (decimal msecond))

-- operator<<, the part before the T and the part behind it
unfoldable pub date_text : FimexTime → Bytes
unfolding two_digits
date_text t =
    codes (decimal t.year)
    ++ (codes "-" ++ (two_digits t.month ++ (codes "-" ++ two_digits t.mday)))

unfoldable pub time_text : FimexTime → Bytes
unfolding two_digits milliseconds
time_text t =
    two_digits t.hour
    ++ (codes ":"
        ++ (two_digits t.minute ++ (codes ":" ++ (two_digits t.second ++ milliseconds t.msecond))))

unfoldable pub make_time_string_extended : FimexTime → Bytes
unfolding date_text time_text
make_time_string_extended t = date_text t ++ (codes "T" ++ time_text t)

unfoldable pub make_time_string : FimexTime → Bytes
unfolding two_digits
make_time_string t =
    codes (decimal t.year)
    ++ (two_digits t.month
        ++ (two_digits t.mday
            ++ (codes "T" ++ (two_digits t.hour ++ (two_digits t.minute ++ two_digits t.second)))))

-- operator==
unfoldable pub time_eq : FimexTime → FimexTime → Bool
time_eq s t =
    s.year == t.year
    && s.month == t.month
    && s.mday == t.mday
    && s.hour == t.hour
    && s.minute == t.minute
    && s.second == t.second
    && s.msecond == t.msecond
