-- ===== src/StringUtils/Trim.antt =====
-- trim (src/StringUtils.cc) leaves a text without white space as it is.
use mathlib.Core.List.{reverse, reverse-cons, reverse-reverse}
use fimex.Prelude.{refl, [], ap, arith, ◌∷◌, ◌||◌, ◌++◌, false, ◌==◌, any, Bool, ◌≡◌, ℕ}
use fimex.StringUtils.{has_byte, find_first_not_of, trim, Bytes}

pub any-append : (p : ℕ → Bool) (xs ys : Bytes) → any p (xs ++ ys) ≡ (any p xs || any p ys)
any-append p [] ys = refl
any-append p (x ∷ xs) ys = ground (arith, any-append p xs ys)

any-reverse : (p : ℕ → Bool) (xs : Bytes) → any p xs ≡ false → any p (reverse xs) ≡ false
any-reverse p [] h = h
any-reverse p (x ∷ xs) h =
    rw (reverse-cons x xs, any-append p (reverse xs) (x ∷ []))
      (ground (arith, h, any-reverse p xs (ground (arith, h))))

find_first_not_of-clean : (ws s : Bytes) → any (has_byte ws) s ≡ false → find_first_not_of ws s ≡ s
unfolding find_first_not_of
find_first_not_of-clean ws [] h = refl
find_first_not_of-clean ws (c ∷ s) h =
    let e : has_byte ws c ≡ false = ground (arith, h) in rw e refl

pub trim-clean : (ws s : Bytes) → any (has_byte ws) s ≡ false → trim s ws ≡ s
unfolding trim
trim-clean ws s h =
    rw
      (
        find_first_not_of-clean ws s h,
        find_first_not_of-clean ws (reverse s) (any-reverse (has_byte ws) s h),
      )
      (reverse-reverse s)

-- The test of one byte
pub has_byte-any : (s : Bytes) (c : ℕ) → has_byte s c ≡ any (λ (x : ℕ). x == c) s
unfolding has_byte
has_byte-any [] c = refl
has_byte-any (x ∷ s) c = ap (λ (b : Bool). (x == c) || b) (has_byte-any s c)
