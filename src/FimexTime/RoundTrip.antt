-- ===== src/FimexTime/RoundTrip.antt =====
-- A time without milliseconds is read back from its text (src/FimexTime.cc).
pub mod Printed
use mathlib.Core.List.{reverse}
use fimex.FimexTime.Parse.{int_numbers}
use fimex.FimexTime.Digits.{
  string2type-digits, length-decimal, NoDigit, two_digits_lem, any-two_digits,
  read_digits-two_digits, any-decimal, read_digits-decimal,
}
use fimex.Prelude.Text.Decimal.{decimal}
use fimex.FimexTime.{two_digits, FimexTime}
use fimex.FimexTime.Numbers.{
  Double, string2type, int_limit, dotted, tokenize_dotted, white_space, is_digit, read_digits,
}
use fimex.Prelude.{
  refl, ◌++◌, [], ◌==◌, Bool, arith, some, length, any, ◌∷◌, ◌∙◌, ◌^◌, ◌≡◌, ◌<◌, List, ℕ, true,
  false,
}
use fimex.Prelude.Result.{ok, err}
use fimex.StringUtils.{trim, bytes_eq, has_byte, Bytes, codes}
use fimex.StringUtils.Join.{last_piece, more_pieces, join, Pieces, tokenize-join}
use fimex.StringUtils.Trim.{trim-clean, any-append, has_byte-any}

-- The fields of a time that two digits show, without milliseconds
pub record IsPrintable (t : FimexTime) : Type 0 where
  pub years : t.year < 2 ^ 16
  pub months : t.month < 100
  pub mdays : t.mday < 100
  pub hours : t.hour < 100
  pub minutes : t.minute < 100
  pub seconds : t.second < 100
  pub whole : t.msecond ≡ 0

-- A text of digits: what it is read as, and that it has no other byte.
record Digits (s : Bytes) (n : ℕ) : Type 0 where
  reads : read_digits s 0 ≡ some n
  plain : (p : ℕ → Bool) → NoDigit p → any p s ≡ false
  first : 0 < length s

two_digits-Digits : (n : ℕ) → n < 100 → Digits (two_digits n) n
two_digits-Digits n b = record {
  reads = read_digits-two_digits n b;
  plain = λ p d. any-two_digits p n b d;
  first = rw (two_digits_lem n b) (omega arith);
}

decimal-Digits : (n : ℕ) → Digits (codes (decimal n)) n
decimal-Digits n = record {
  reads = read_digits-decimal n;
  plain = λ p d. any-decimal p n d;
  first = length-decimal n;
}

-- A byte that is no digit does not occur.
no_byte : {s : Bytes} {n : ℕ} (c : ℕ) → Digits s n → is_digit c ≡ false → has_byte s c ≡ false
unfolding is_digit
no_byte {s} c d h = has_byte-any s c ∙ d.plain (λ (x : ℕ). x == c) (λ x e. ground (arith, h, e))

no_space : {s : Bytes} {n : ℕ} → Digits s n → any (has_byte white_space) s ≡ false
unfolding is_digit has_byte
no_space d = d.plain (has_byte white_space) (λ x e. ground (arith, e))

piece :
    (s : Bytes) (c : ℕ) {texts : List Bytes}
    → 0 < length s
    → has_byte s c ≡ false
    → Pieces c texts
    → Pieces c (s ∷ texts)
piece [] c l h p = absurd (omega (arith, l))
piece (x ∷ t) c l h p = more_pieces x t h p

only_piece : (s : Bytes) (c : ℕ) → 0 < length s → has_byte s c ≡ false → Pieces c (s ∷ [])
only_piece [] c l h = absurd (omega (arith, l))
only_piece (x ∷ t) c l h = last_piece x t h

-- Three texts of digits, joined by a byte that is no digit
three :
    {a b d : Bytes} {k m n : ℕ} (c : ℕ)
    → Digits a k
    → Digits b m
    → Digits d n
    → is_digit c ≡ false
    → Pieces c (a ∷ b ∷ d ∷ [])
three {a} {b} {d} c x y z h =
    piece a c x.first (no_byte c x h)
      (piece b c y.first (no_byte c y h) (only_piece d c z.first (no_byte c z h)))

any-three :
    {a b d : Bytes} {k m n : ℕ} (p : ℕ → Bool) (c : ℕ)
    → Digits a k
    → Digits b m
    → Digits d n
    → NoDigit p
    → p c ≡ false
    → any p (join (a ∷ b ∷ d ∷ []) (c ∷ [])) ≡ false
unfolding join
any-three {a} {b} {d} p c x y z none_of h =
    rw
      (
        any-append p a (c ∷ b ++ (c ∷ d)),
        any-append p b (c ∷ d),
        x.plain p none_of,
        y.plain p none_of,
        z.plain p none_of,
        h,
      )
      refl

-- A token of digits is no dots, and is read.
no_dots : (s : Bytes) {n : ℕ} → Digits s n → bytes_eq s (codes "...") ≡ false
unfolding bytes_eq
no_dots [] d = refl
no_dots (x ∷ s) d =
    let h = d.plain (λ (c : ℕ). c == b'.') (λ c e. unfold is_digit in ground (arith, e)) in
    ground (arith, h)

trimmed_dots :
    (s : Bytes) {n : ℕ} → Digits s n → bytes_eq (trim s white_space) (codes "...") ≡ false
trimmed_dots s d = rw (trim-clean white_space s (no_space d)) (no_dots s d)

trimmed_int :
    (s : Bytes) {n : ℕ}
    → Digits s n
    → n < int_limit
    → string2type int_limit (trim s white_space) ≡ ok n
trimmed_int s {n} d b =
    rw (trim-clean white_space s (no_space d)) (string2type-digits int_limit s n d.reads d.first b)

module _ {D : Type 0} (double : Double D) (fuel : ℕ) where
  dotted-Digits :
      (s next : Bytes) (toks : List Bytes) (vals : List ℕ) {n : ℕ}
      → Digits s n
      → n < int_limit
      → dotted (int_numbers double) fuel (s ∷ next ∷ toks) vals
        ≡ dotted (int_numbers double) fuel (next ∷ toks) (n ∷ vals)
  unfolding dotted
  dotted-Digits s next toks vals {n} d b = rw (dotted, trimmed_dots s d, trimmed_int s d b) refl

  dotted-last :
      (s : Bytes) (vals : List ℕ) {n : ℕ}
      → Digits s n
      → n < int_limit
      → dotted (int_numbers double) fuel (s ∷ []) vals ≡ some (ok (reverse (n ∷ vals)))
  unfolding dotted
  dotted-last s vals {n} d b = rw (dotted, trimmed_dots s d, trimmed_int s d b) refl

  tokenize_dotted-three :
      {a b d : Bytes} {k m n : ℕ}
      → Digits a k
      → Digits b m
      → Digits d n
      → k < int_limit
      → m < int_limit
      → n < int_limit
      → tokenize_dotted (int_numbers double) fuel (join (a ∷ b ∷ d ∷ []) (codes "-")) (codes "-")
        ≡ some (ok (k ∷ m ∷ n ∷ []))
  unfolding tokenize_dotted is_digit
  tokenize_dotted-three {a} {b} {d} {k} {m} x y z kb mb nb =
      rw (tokenize-join (three b'-' x y z refl)) (
        dotted-Digits a b (d ∷ []) [] x kb
        ∙ dotted-Digits b d [] (k ∷ []) y mb
        ∙ dotted-last d (m ∷ k ∷ []) z nb)
