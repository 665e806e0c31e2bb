-- ===== src/StringUtils/Split.antt =====
-- split_any (include/fimex/StringUtils.h), which join undoes.
use fimex.Prelude.{
  sym, ap₂, zero, ◌∙◌, refl, ap, inr, Bool-cases, inl, suc, ◌++◌, true, arith, ◌⊎◌, ◌<◌, length,
  ◌≡◌, ℕ, [], ◌∷◌,
}
use fimex.StringUtils.{Bytes, split_from, split_any, token_at, find_first_of, has_byte}
use fimex.StringUtils.Join.{join, has_byte-single}

-- The rest of a text begins with a delimiter, or is empty.
split_point :
    (delims s : Bytes)
    → ((find_first_of delims s ≡ []) × (token_at delims s ≡ s))
      ⊎ ((c : ℕ) × (rest : Bytes) × (find_first_of delims s ≡ c ∷ rest)
          × (has_byte delims c ≡ true)
          × (s ≡ token_at delims s ++ c ∷ rest)
          × (length rest < length s))
unfolding find_first_of token_at
split_point delims [] = inl (refl, refl)
split_point delims (x ∷ s) = elim (Bool-cases (has_byte delims x)) [
  | inl e ↦ inr (x, s, rw e refl, e, rw e refl, omega arith)
  | inr e ↦ elim (split_point delims s) [
    | inl (a, b) ↦ inl (rw e a, rw e (ap (λ (t : Bytes). x ∷ t) b))
    | inr (c, rest, a, h, b, l) ↦
        inr (c, rest, rw e a, h, rw e (ap (λ (t : Bytes). x ∷ t) b), omega (arith, l))
  ]
]

join-front :
    (t : Bytes) (c fuel : ℕ) (rest : Bytes)
    → 0 < fuel
    → join (t ∷ split_from fuel (c ∷ []) rest) (c ∷ [])
      ≡ t ++ c ∷ join (split_from fuel (c ∷ []) rest) (c ∷ [])
unfolding join split_from
join-front t c zero rest h = absurd (omega (arith, h))
join-front t c (suc fuel) rest h = refl

join-split_from :
    (c fuel : ℕ) (s : Bytes) → length s < fuel → join (split_from fuel (c ∷ []) s) (c ∷ []) ≡ s
unfolding split_from join
join-split_from c zero s h = absurd (omega (arith, h))
join-split_from c (suc fuel) s h = elim (split_point (c ∷ []) s) [
  | inl (a, b) ↦ rw (split_from, a, b) refl
  | inr (d, rest, a, e, b, l) ↦
      let same : d ≡ c = ground (arith, e, has_byte-single d c) in
      let tail = join-split_from c fuel rest (omega (arith, h, l)) in
      rw (split_from, a)
        (join-front (token_at (c ∷ []) s) c fuel rest (omega (arith, h, l))
          ∙ ap₂ (λ (x : ℕ) (t : Bytes). token_at (c ∷ []) s ++ x ∷ t) (sym same) tail
          ∙ sym b)
]

-- The texts that split_any cuts at a single delimiter, also the empty ones, are joined to the text
-- that they come from.
pub join-split_any : (s : Bytes) (c : ℕ) → join (split_any s (c ∷ [])) (c ∷ []) ≡ s
unfolding split_any
join-split_any s c = join-split_from c (suc (length s)) s (omega arith)
