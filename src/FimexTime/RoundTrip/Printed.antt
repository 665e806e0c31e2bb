-- ===== src/FimexTime/RoundTrip/Printed.antt =====
-- parseISO8601 of the text that operator<< writes (src/FimexTime.cc).
use fimex.FimexTime.Parse.{
  int_numbers, with_seconds, parse_parts, date_and_time, seconds_and_millis, set_fields,
  parse_iso8601,
}
use fimex.Prelude.Text.Decimal.{decimal}
use fimex.FimexTime.Digits.{string2type-digits, length-decimal, NoDigit}
use fimex.FimexTime.Numbers.{Double, tokenize_dotted, short_limit, white_space, is_digit}
use fimex.FimexTime.RoundTrip.{
  any-three, two_digits-Digits, decimal-Digits, no_byte, piece, only_piece, three,
  tokenize_dotted-three, IsPrintable,
}
use fimex.FimexTime.{
  two_digits, milliseconds, set_time, date_text, make_time_string_extended, time_text, FimexTime,
}
use mathlib.Core.List.{append-nil}
use fimex.Prelude.{
  some, ◌∙◌, sym, ◌==◌, refl, ap, length-append, ◌++◌, ◌^◌, [], arith, length, ◌∷◌, any, ◌%◌, ◌≡◌,
  ◌<◌, Bool, ℕ, true, false,
}
use fimex.Prelude.Result.{Result, ok}
use fimex.StringUtils.{tokenize, trim, has_byte, Bytes, codes}
use fimex.StringUtils.Join.{join, tokenize-join}
use fimex.StringUtils.Trim.{trim-clean, any-append, has_byte-any}

module _ (t : FimexTime) (printable : IsPrintable t) where
  time_text-join :
      time_text t
      ≡ join (two_digits t.hour ∷ two_digits t.minute ∷ two_digits t.second ∷ []) (codes ":")
  unfolding time_text join milliseconds
  time_text-join = rw printable.whole (
      ap
        (λ (s : Bytes).
          two_digits t.hour ++ (codes ":" ++ (two_digits t.minute ++ (codes ":" ++ s))))
        (append-nil (two_digits t.second)))

  any-date_text : (p : ℕ → Bool) → NoDigit p → p b'-' ≡ false → any p (date_text t) ≡ false
  unfolding date_text join
  any-date_text p none_of h =
      any-three p b'-' (decimal-Digits t.year) (two_digits-Digits t.month printable.months)
        (two_digits-Digits t.mday printable.mdays) none_of h

  any-time_text : (p : ℕ → Bool) → NoDigit p → p b':' ≡ false → any p (time_text t) ≡ false
  any-time_text p none_of h = rw time_text-join (
      any-three p b':' (two_digits-Digits t.hour printable.hours)
        (two_digits-Digits t.minute printable.minutes)
        (two_digits-Digits t.second printable.seconds) none_of h)

  trim-printed : trim (make_time_string_extended t) white_space ≡ make_time_string_extended t
  unfolding make_time_string_extended has_byte is_digit
  trim-printed =
      let space : NoDigit (has_byte white_space) = λ c e. ground (arith, e) in
      trim-clean white_space (make_time_string_extended t) (
        rw
          (
            any-append (has_byte white_space) (date_text t) (codes "T" ++ time_text t),
            any-date_text (has_byte white_space) space refl,
            any-time_text (has_byte white_space) space refl,
          )
          refl)

  length-date_text : 0 < length (date_text t)
  unfolding date_text
  length-date_text =
      rw (length-append (codes (decimal t.year)) _) (omega (arith, length-decimal t.year))

  length-printed : 0 < length (make_time_string_extended t)
  unfolding make_time_string_extended
  length-printed = rw (length-append (date_text t) _) (omega (arith, length-date_text))

  length-time_text : 0 < length (time_text t)
  unfolding time_text
  length-time_text =
      rw (length-append (two_digits t.hour) _)
        (omega (arith, (two_digits-Digits t.hour printable.hours).first))

  tokenize-printed :
      tokenize (make_time_string_extended t) (codes "T") ≡ date_text t ∷ time_text t ∷ []
  unfolding make_time_string_extended join is_digit
  tokenize-printed =
      let letter : NoDigit (λ (c : ℕ). c == b'T') = λ c e. ground (arith, e) in
      tokenize-join (
        piece (date_text t) b'T' length-date_text
          (has_byte-any (date_text t) b'T' ∙ any-date_text (λ (c : ℕ). c == b'T') letter refl)
          (only_piece (time_text t) b'T' length-time_text
            (has_byte-any (time_text t) b'T' ∙ any-time_text (λ (c : ℕ). c == b'T') letter refl)))

  tokenize-time_text :
      tokenize (time_text t) (codes ":")
      ≡ two_digits t.hour ∷ two_digits t.minute ∷ two_digits t.second ∷ []
  unfolding is_digit
  tokenize-time_text = rw time_text-join (
      tokenize-join (
        three b':' (two_digits-Digits t.hour printable.hours)
          (two_digits-Digits t.minute printable.minutes)
          (two_digits-Digits t.second printable.seconds) refl))

  tokenize-second : tokenize (two_digits t.second) (codes ".") ≡ two_digits t.second ∷ []
  unfolding join is_digit
  tokenize-second =
      let d = two_digits-Digits t.second printable.seconds in
      tokenize-join (only_piece (two_digits t.second) b'.' d.first (no_byte b'.' d refl))

  set_time-same : set_time t.year t.month t.mday t.hour t.minute t.second 0 ≡ t
  unfolding set_time
  set_time-same =
      let y : t.year % 2 ^ 16 ≡ t.year = omega (arith, printable.years) in
      let mo : t.month % 2 ^ 8 ≡ t.month = omega (arith, printable.months) in
      let d : t.mday % 2 ^ 8 ≡ t.mday = omega (arith, printable.mdays) in
      let h : t.hour % 2 ^ 8 ≡ t.hour = omega (arith, printable.hours) in
      let m : t.minute % 2 ^ 8 ≡ t.minute = omega (arith, printable.minutes) in
      let s : t.second % 2 ^ 8 ≡ t.second = omega (arith, printable.seconds) in
      rw (y, mo, d, h, m, s) (ap (λ (ms : ℕ). record t { msecond = ms }) (sym printable.whole))

module _ {D : Type 0} (double : Double D) (fuel : ℕ) (millis : Bytes → Result ℕ) where
  set_fields-printed :
      (t now : FimexTime)
      → IsPrintable t
      → set_fields double fuel millis
          (t.year ∷ t.month ∷ t.mday ∷ [])
          (two_digits t.hour ∷ two_digits t.minute ∷ two_digits t.second ∷ [])
          now
        ≡ some (ok (true, t))
  unfolding set_fields seconds_and_millis
  set_fields-printed t now p =
      let short = λ (n : ℕ) (b : n < 100).
        let d = two_digits-Digits n b in
        string2type-digits short_limit (two_digits n) n d.reads d.first (omega (arith, b)) in
      rw
        (
          set_fields,
          tokenize-second t p,
          short t.hour p.hours,
          short t.minute p.minutes,
          short t.second p.seconds,
        )
        (ap (λ (s : FimexTime). some (ok (true, s))) (set_time-same t p))

  parse_parts-printed :
      (t now : FimexTime)
      → IsPrintable t
      → parse_parts double fuel millis (date_text t ∷ time_text t ∷ []) now ≡ some (ok (true, t))
  unfolding parse_parts with_seconds
  parse_parts-printed t now p =
      let date : tokenize_dotted (int_numbers double) fuel (date_text t) (codes "-")
          ≡ some (ok (t.year ∷ t.month ∷ t.mday ∷ [])) =
        unfold date_text in
        unfold join in
        tokenize_dotted-three double fuel (decimal-Digits t.year)
          (two_digits-Digits t.month p.months) (two_digits-Digits t.mday p.mdays)
          (omega (arith, p.years)) (omega (arith, p.months)) (omega (arith, p.mdays)) in
      rw (parse_parts, date, tokenize-time_text t p) (set_fields-printed t now p)

  date_and_time-printed :
      (t : FimexTime)
      → IsPrintable t
      → date_and_time double fuel millis (make_time_string_extended t)
        ≡ date_text t ∷ time_text t ∷ []
  unfolding date_and_time
  date_and_time-printed t p = rw (tokenize-printed t p) refl

  -- parseISO8601 reads back the text that operator<< writes of a time without milliseconds whose
  -- month, day, hour, minute and second have at most two digits, also where they are out of range;
  -- the time that it is called on does not matter, nor what is done with `double`.
  pub parse_iso8601-make_time_string_extended :
      (t now : FimexTime)
      → IsPrintable t
      → parse_iso8601 double fuel millis (make_time_string_extended t) now ≡ some (ok (true, t))
  unfolding parse_iso8601
  parse_iso8601-make_time_string_extended t now p =
      let some_text : (length (make_time_string_extended t) == 0) ≡ false =
        ground (arith, length-printed t p) in
      rw (trim-printed t p, some_text, date_and_time-printed t p) (parse_parts-printed t now p)
