-- ===== src/StringUtils/Tokens.antt =====
-- tokenize: what the tokens are.
use fimex.StringUtils.{
  has_byte, find_first_not_of, tokenize_from, find_first_of, token_at, tokenize, Bytes,
}
use fimex.Prelude.{
  zero, sym, inr, ap, suc, inl, ◌≤◌, ◌∙◌, false, Bool-cases, if◌then◌else◌, ◌<◌, length, ℕ, List,
  [], ◌∷◌, ◌++◌, ◌≡◌, arith, refl,
}

-- The text without its delimiters.
unfoldable pub without : Bytes → Bytes → Bytes
without delimiters [] = []
without delimiters (c ∷ s) =
    if has_byte delimiters c then without delimiters s else c ∷ without delimiters s

unfoldable pub joined : List Bytes → Bytes
joined [] = []
joined (t ∷ tokens) = t ++ joined tokens

-- A token has a first byte, and no byte of it is a delimiter.
abbrev pub IsToken : Bytes → Bytes → Type 0
IsToken delimiters t = (0 < length t) × (without delimiters t ≡ t)

pub data AllTokens (delimiters : Bytes) : List Bytes → Type 0 where
  no_tokens : AllTokens delimiters []
  and_token :
      {t : Bytes} {tokens : List Bytes}
      → IsToken delimiters t
      → AllTokens delimiters tokens
      → AllTokens delimiters (t ∷ tokens)

module _ (delimiters : Bytes) where
  without-find_first_not_of :
      (s : Bytes) → without delimiters (find_first_not_of delimiters s) ≡ without delimiters s
  unfolding without find_first_not_of
  without-find_first_not_of [] = refl
  without-find_first_not_of (c ∷ s) = ground (arith, without-find_first_not_of s)

  without-split :
      (s : Bytes)
      → without delimiters s
        ≡ token_at delimiters s ++ without delimiters (find_first_of delimiters s)
  unfolding without find_first_of token_at
  without-split [] = refl
  without-split (c ∷ s) = elim (Bool-cases (has_byte delimiters c)) [
    | inl e ↦ rw e (rw e refl)
    | inr e ↦ rw e (ap (λ (r : Bytes). c ∷ r) (without-split s))
  ]

  without-token_at :
      (s : Bytes) → without delimiters (token_at delimiters s) ≡ token_at delimiters s
  unfolding without token_at
  without-token_at [] = refl
  without-token_at (c ∷ s) = ground (arith, without-token_at s)

  -- What follows a token is shorter.
  shorter_skip : (s : Bytes) → length (find_first_not_of delimiters s) ≤ length s
  unfolding find_first_not_of
  shorter_skip [] = omega arith
  shorter_skip (c ∷ s) = ground (arith, shorter_skip s)

  shorter_rest : (s : Bytes) → length (find_first_of delimiters s) ≤ length s
  unfolding find_first_of
  shorter_rest [] = omega arith
  shorter_rest (c ∷ s) = ground (arith, shorter_rest s)

  -- Where the loop stands there is no delimiter.
  abbrev AtToken : Bytes → Type 0
  AtToken [] = Unit
  AtToken (c ∷ s) = has_byte delimiters c ≡ false

  find_first_not_of-AtToken : (s : Bytes) → AtToken (find_first_not_of delimiters s)
  unfolding find_first_not_of
  find_first_not_of-AtToken [] = tt
  find_first_not_of-AtToken (c ∷ s) = elim (Bool-cases (has_byte delimiters c)) [
    | inl e ↦ rw e (find_first_not_of-AtToken s)
    | inr e ↦ rw e e
  ]

  loop :
      (fuel : ℕ) (s : Bytes)
      → length s ≤ fuel
      → AtToken s
      → (joined (tokenize_from fuel delimiters s) ≡ without delimiters s)
        × AllTokens delimiters (tokenize_from fuel delimiters s)
  unfolding tokenize_from joined without
  loop zero [] l h = (refl, no_tokens)
  loop zero (c ∷ s) l h = absurd (omega arith)
  loop (suc fuel) [] l h = (refl, no_tokens)
  loop (suc fuel) (c ∷ s) l h =
      let rest = find_first_of delimiters (c ∷ s) in
      let next = find_first_not_of delimiters rest in
      let less : length rest ≤ length s = unfold find_first_of in rw h (shorter_rest s) in
      let (j, ts) =
        loop fuel next (omega (arith, shorter_skip rest, less)) (find_first_not_of-AtToken rest) in
      let first : 0 < length (token_at delimiters (c ∷ s)) =
        unfold token_at in rw h (omega arith) in
      (
        ap (λ (r : Bytes). token_at delimiters (c ∷ s) ++ r) (j ∙ without-find_first_not_of rest)
            ∙ sym (without-split (c ∷ s)),
        and_token (first, without-token_at (c ∷ s)) ts,
      )

-- The tokens are not empty and hold no delimiter, and together, in order, they are the text without
-- its delimiters: nothing is lost or added.
pub tokenize-joined :
    (s delimiters : Bytes)
    → (joined (tokenize s delimiters) ≡ without delimiters s)
      × AllTokens delimiters (tokenize s delimiters)
unfolding tokenize
tokenize-joined s delimiters =
    let (j, ts) =
      loop delimiters (length s) (find_first_not_of delimiters s) (shorter_skip delimiters s)
        (find_first_not_of-AtToken delimiters s) in
    (j ∙ without-find_first_not_of delimiters s, ts)
