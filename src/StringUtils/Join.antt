-- ===== src/StringUtils/Join.antt =====
-- join (include/fimex/StringUtils.h), which tokenize undoes.
use mathlib.Core.List.{append-nil}
use fimex.Prelude.{
  ◌∙◌, zero, length-append, ◌≤◌, true, sym, suc, length, refl, ap, arith, ◌==◌, [], ◌++◌, false,
  ◌∷◌, ◌≡◌, List, ℕ,
}
use fimex.StringUtils.{
  tokenize_from, find_first_not_of, tokenize, has_byte, find_first_of, token_at, Bytes,
}

-- join of texts, from the iterator on
unfoldable pub join : List Bytes → Bytes → Bytes
join [] delim = []
join (t ∷ []) delim = t
join (t ∷ u ∷ texts) delim = t ++ (delim ++ join (u ∷ texts) delim)

-- Every text has a byte, and none that is the delimiter.
pub data Pieces (c : ℕ) : List Bytes → Type 0 where
  last_piece : (x : ℕ) (t : Bytes) → has_byte (x ∷ t) c ≡ false → Pieces c ((x ∷ t) ∷ [])
  more_pieces :
      (x : ℕ) (t : Bytes) {texts : List Bytes}
      → has_byte (x ∷ t) c ≡ false
      → Pieces c texts
      → Pieces c ((x ∷ t) ∷ texts)

-- A single delimiter is found as a byte is.
pub has_byte-single : (x c : ℕ) → has_byte (c ∷ []) x ≡ (x == c)
unfolding has_byte
has_byte-single x c = ground arith

-- Up to the delimiter there is the token, behind it the rest.
token_at-append :
    (t : Bytes) (c : ℕ) (rest : Bytes)
    → has_byte t c ≡ false
    → (token_at (c ∷ []) (t ++ c ∷ rest) ≡ t) × (find_first_of (c ∷ []) (t ++ c ∷ rest) ≡ c ∷ rest)
unfolding token_at find_first_of has_byte
token_at-append [] c rest h =
    (ground (arith, has_byte-single c c), ground (arith, has_byte-single c c))
token_at-append (x ∷ t) c rest h =
    let (a, b) = token_at-append t c rest (ground (arith, h)) in
    let other : has_byte (c ∷ []) x ≡ false = ground (arith, h, has_byte-single x c) in
    (rw other (ap (λ (s : Bytes). x ∷ s) a), rw other b)

token_at-end :
    (t : Bytes) (c : ℕ)
    → has_byte t c ≡ false
    → (token_at (c ∷ []) t ≡ t) × (find_first_of (c ∷ []) t ≡ [])
unfolding token_at find_first_of has_byte
token_at-end [] c h = (refl, refl)
token_at-end (x ∷ t) c h =
    let (a, b) = token_at-end t c (ground (arith, h)) in
    let other : has_byte (c ∷ []) x ≡ false = ground (arith, h, has_byte-single x c) in
    (rw other (ap (λ (s : Bytes). x ∷ s) a), rw other b)

join-cons :
    (s : Bytes) {c : ℕ} {texts : List Bytes}
    → Pieces c texts
    → join (s ∷ texts) (c ∷ []) ≡ s ++ c ∷ join texts (c ∷ [])
unfolding join
join-cons s (last_piece x t h) = refl
join-cons s (more_pieces x t h p) = refl

-- Tokens begin with a byte that is no delimiter.
find_first_not_of-append :
    (c x : ℕ) (t : Bytes)
    → has_byte (x ∷ t) c ≡ false
    → (rest : Bytes) → find_first_not_of (c ∷ []) (x ∷ t ++ rest) ≡ x ∷ t ++ rest
unfolding find_first_not_of has_byte
find_first_not_of-append c x t h rest =
    let other : has_byte (c ∷ []) x ≡ false = ground (arith, h, has_byte-single x c) in
    rw other refl

find_first_not_of-delimiter :
    (c : ℕ) (s : Bytes) → find_first_not_of (c ∷ []) (c ∷ s) ≡ find_first_not_of (c ∷ []) s
unfolding find_first_not_of
find_first_not_of-delimiter c s =
    let same : has_byte (c ∷ []) c ≡ true = ground (arith, has_byte-single c c) in rw same refl

find_first_not_of-join :
    {c : ℕ} {texts : List Bytes}
    → Pieces c texts
    → find_first_not_of (c ∷ []) (join texts (c ∷ [])) ≡ join texts (c ∷ [])
unfolding join
find_first_not_of-join {c} (last_piece x t h) =
    ap (find_first_not_of (c ∷ [])) (sym (append-nil (x ∷ t)))
    ∙ find_first_not_of-append c x t h []
    ∙ append-nil (x ∷ t)
find_first_not_of-join {c} (more_pieces x t {texts} h p) =
    ap (find_first_not_of (c ∷ [])) (join-cons (x ∷ t) p)
    ∙ find_first_not_of-append c x t h (c ∷ join texts (c ∷ []))
    ∙ sym (join-cons (x ∷ t) p)

tokenize_from-nil : (fuel : ℕ) (delimiters : Bytes) → tokenize_from fuel delimiters [] ≡ []
unfolding tokenize_from
tokenize_from-nil zero delimiters = refl
tokenize_from-nil (suc fuel) delimiters = refl

tokenize_from-join :
    {c : ℕ} {texts : List Bytes}
    → Pieces c texts
    → (fuel : ℕ) → length texts ≤ fuel
    → tokenize_from fuel (c ∷ []) (join texts (c ∷ [])) ≡ texts
unfolding tokenize_from join
tokenize_from-join (last_piece x t h) zero b = absurd (omega (arith, b))
tokenize_from-join {c} (last_piece x t h) (suc fuel) b =
    let (a, e) = token_at-end (x ∷ t) c h in
    rw (a, e)
      (ap (λ (ts : List Bytes). (x ∷ t) ∷ ts)
        (unfold find_first_not_of in tokenize_from-nil fuel (c ∷ [])))
tokenize_from-join (more_pieces x t h p) zero b = absurd (omega (arith, b))
tokenize_from-join {c} (more_pieces x t {texts} h p) (suc fuel) b =
    let (a, e) = token_at-append (x ∷ t) c (join texts (c ∷ [])) h in
    rw
      (
        join-cons (x ∷ t) p,
        a,
        e,
        find_first_not_of-delimiter c (join texts (c ∷ [])),
        find_first_not_of-join p,
      )
      (ap (λ (ts : List Bytes). (x ∷ t) ∷ ts) (tokenize_from-join p fuel (omega (arith, b))))

length-join :
    {c : ℕ} {texts : List Bytes} → Pieces c texts → length texts ≤ length (join texts (c ∷ []))
unfolding join
length-join (last_piece x t h) = omega arith
length-join {c} (more_pieces x t {texts} h p) =
    rw (join-cons (x ∷ t) p)
      (omega (arith, length-join p, length-append t (c ∷ join texts (c ∷ []))))

-- Texts that are not empty and do not hold the delimiter, a single byte, are got back by tokenize
-- from what join makes of them, the empty list apart.
pub tokenize-join :
    {c : ℕ} {texts : List Bytes} → Pieces c texts → tokenize (join texts (c ∷ [])) (c ∷ []) ≡ texts
unfolding tokenize
tokenize-join {c} {texts} p =
    rw (find_first_not_of-join p)
      (tokenize_from-join p (length (join texts (c ∷ []))) (length-join p))
