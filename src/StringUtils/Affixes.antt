-- ===== src/StringUtils/Affixes.antt =====
-- starts_with and ends_with: what a text must look like.
use mathlib.Core.List.{append-nil}
use fimex.StringUtils.{ends_with, Bytes, has_prefix, starts_or_ends_with, starts_with}
use fimex.Prelude.{
  take-append-drop, take, inr, ltb→lt, inl, sym, length-drop, ◌-◌, ltb, ap, length-append,
  Bool-cases, ◌∙◌, false, ◌<◌, ◌↔◌, ap₂, ◌≤◌, true, length, drop, ℕ, [], ◌∷◌, ◌++◌, ◌≡◌, arith,
  refl,
}

has_prefix-append : (sub rest : Bytes) → has_prefix sub (sub ++ rest) ≡ true
unfolding has_prefix
has_prefix-append [] rest = refl
has_prefix-append (c ∷ sub) rest = ground (arith, has_prefix-append sub rest)

has_prefix-split : (sub s : Bytes) → has_prefix sub s ≡ true → s ≡ sub ++ drop (length sub) s
unfolding has_prefix
has_prefix-split [] s h = refl
has_prefix-split (c ∷ sub) [] h = cc
has_prefix-split (c ∷ sub) (x ∷ s) h =
    ap₂ (λ (a : ℕ) (r : Bytes). a ∷ r) (ground arith) (has_prefix-split sub s (ground arith))

drop-append : (xs ys : Bytes) → drop (length xs) (xs ++ ys) ≡ ys
drop-append [] ys = refl
drop-append (x ∷ xs) ys = drop-append xs ys

-- The test at a position that the text has.
starts_or_ends_with_lem :
    (txt sub : Bytes) (start_compare : ℕ)
    → length sub ≤ length txt
    → starts_or_ends_with txt sub start_compare ≡ has_prefix sub (drop start_compare txt)
unfolding starts_or_ends_with has_prefix
starts_or_ends_with_lem txt [] start_compare h = refl
starts_or_ends_with_lem txt (c ∷ sub) start_compare h = ground arith

longer :
    (txt sub : Bytes) (start_compare : ℕ)
    → length txt < length sub
    → starts_or_ends_with txt sub start_compare ≡ false
unfolding starts_or_ends_with
longer txt sub start_compare h = ground arith

empty_of_length : (xs : Bytes) → length xs ≡ 0 → xs ≡ []
empty_of_length [] h = refl
empty_of_length (x ∷ xs) h = absurd (omega (arith, h))

-- Where the lengths agree, the text from there on is the end itself.
has_prefix-whole : (sub s : Bytes) → length s ≡ length sub → has_prefix sub s ≡ true → s ≡ sub
has_prefix-whole sub s l h =
    let e = has_prefix-split sub s h in
    e
    ∙ ap (λ (r : Bytes). sub ++ r)
        (empty_of_length (drop (length sub) s) (omega (arith, length-drop (length sub) s, l)))
    ∙ append-nil sub

starts_with_if :
    (txt sub : Bytes) → starts_with txt sub ≡ true → (rest : Bytes) × (txt ≡ sub ++ rest)
unfolding starts_with
starts_with_if txt sub h = elim (Bool-cases (ltb (length txt) (length sub))) [
  | inl l ↦ absurd (ground (arith, longer txt sub 0 (ltb→lt _ _ l)))
  | inr l ↦ (
    drop (length sub) txt,
    has_prefix-split sub txt (sym (starts_or_ends_with_lem txt sub 0 (ground arith)) ∙ h),
  )
]

starts_with-append : (sub rest : Bytes) → starts_with (sub ++ rest) sub ≡ true
unfolding starts_with
starts_with-append sub rest =
    starts_or_ends_with_lem (sub ++ rest) sub 0 (omega (arith, length-append sub rest))
    ∙ has_prefix-append sub rest

ends_with_if : (txt sub : Bytes) → ends_with txt sub ≡ true → (rest : Bytes) × (txt ≡ rest ++ sub)
unfolding ends_with
ends_with_if txt sub h = elim (Bool-cases (ltb (length txt) (length sub))) [
  | inl l ↦ absurd (ground (arith, longer txt sub (length txt - length sub) (ltb→lt _ _ l)))
  | inr l ↦
      let k = length txt - length sub in
      let le : length sub ≤ length txt = ground arith in
      let e =
        has_prefix-whole sub (drop k txt) (omega (arith, length-drop k txt, le))
          (sym (starts_or_ends_with_lem txt sub k le) ∙ h) in
      (take k txt, sym (take-append-drop k txt) ∙ ap (λ (r : Bytes). take k txt ++ r) e)
]

ends_with-append : (rest sub : Bytes) → ends_with (rest ++ sub) sub ≡ true
unfolding ends_with
ends_with-append rest sub =
    let l = length-append rest sub in
    let k : length (rest ++ sub) - length sub ≡ length rest = omega (arith, l) in
    starts_or_ends_with_lem (rest ++ sub) sub (length (rest ++ sub) - length sub) (omega (arith, l))
    ∙ ap (λ (r : Bytes). has_prefix sub r)
        (ap (λ (n : ℕ). drop n (rest ++ sub)) k ∙ drop-append rest sub)
    ∙ ap (has_prefix sub) (sym (append-nil sub))
    ∙ has_prefix-append sub []

-- starts_with holds exactly for the texts that are the start with something behind it, and
-- ends_with exactly for those that are the end with something before it.
pub starts_with-ends_with_iff :
    (txt sub : Bytes)
    → ((starts_with txt sub ≡ true) ↔ ((rest : Bytes) × (txt ≡ sub ++ rest)))
      × ((ends_with txt sub ≡ true) ↔ ((rest : Bytes) × (txt ≡ rest ++ sub)))
starts_with-ends_with_iff txt sub = (
  (starts_with_if txt sub, λ (rest, e). rw e (starts_with-append sub rest)),
  (ends_with_if txt sub, λ (rest, e). rw e (ends_with-append rest sub)),
)
