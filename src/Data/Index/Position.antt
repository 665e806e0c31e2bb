-- ===== src/Data/Index/Position.antt =====
-- getPos against the mixed-radix number that a position is.
use mathlib.Core.List.{append_assoc}
use fimex.Slice.Builder.{at}
use fimex.Data.SliceCopy.Elements.{get_elem?-append_right}
use fimex.Prelude.Words.{wmul, wadd, size_mod}
use fimex.Data.Index.{min_dims, get_pos, new_index, get_pos_from}
use fimex.Data.Impl.{slice_sizes}
use fimex.Prelude.Result.{ok-injective, out_of_range, err, ok, Result}
use native.Mathlib.Nat.{mul-le-mul_left}
use fimex.Prelude.{
  inr, ◌-◌, inl, sym, replicate, ltb, Bool-cases, ap₂, zero, suc, length-append, some, ◌∙◌, none,
  ap, get_elem?, length, ◌*◌, ◌<◌, ◌+◌, ℕ, List, [], ◌∷◌, ◌++◌, ◌≡◌, arith, refl,
}

-- The number of elements, not wrapped.
unfoldable pub capacity : List ℕ → ℕ
capacity [] = 1
capacity (n ∷ ns) = n * capacity ns

-- Each index lies within its dimension; the dimensions that are not given hold index 0.
abbrev pub InRange : List ℕ → List ℕ → Type 0
InRange [] [] = Unit
InRange [] (x ∷ pos) = ⊥
InRange (n ∷ ns) [] = (0 < n) × InRange ns []
InRange (n ∷ ns) (x ∷ pos) = (x < n) × InRange ns pos

-- The position as a number whose digits have the dimensions as their bases.
unfoldable pub offset : List ℕ → List ℕ → ℕ
offset (n ∷ ns) (x ∷ pos) = x + n * offset ns pos
offset _ _ = 0

-- The loop over the slice sizes themselves.
unfoldable walk : List ℕ → List ℕ → ℕ → Result ℕ
walk sizes [] p = ok p
walk [] (x ∷ pos) p = err out_of_range
walk (s ∷ sizes) (x ∷ pos) p = walk sizes pos (wadd p (wmul x s))

get_pos_from-walk :
    (dim_sizes pre sizes pos : List ℕ) (p : ℕ)
    → get_pos_from (record { dims = dim_sizes; slices = pre ++ sizes }) (length pre) pos p
      ≡ walk sizes pos p
unfolding get_pos_from walk
get_pos_from-walk dim_sizes pre sizes [] p = refl
get_pos_from-walk dim_sizes pre [] (x ∷ pos) p =
    let e : get_elem? (pre ++ []) (length pre) ≡ none =
      ap (get_elem? (pre ++ [])) {x = length pre} {y = length pre + 0} (omega arith)
      ∙ get_elem?-append_right pre [] 0 in
    rw (at, e) refl
get_pos_from-walk dim_sizes pre (s ∷ sizes) (x ∷ pos) p =
    let e : get_elem? (pre ++ s ∷ sizes) (length pre) ≡ some s =
      ap (get_elem? (pre ++ s ∷ sizes)) {x = length pre} {y = length pre + 0} (omega arith)
      ∙ get_elem?-append_right pre (s ∷ sizes) 0 in
    let l : length (pre ++ s ∷ []) ≡ length pre + 1 = length-append pre (s ∷ []) ∙ omega arith in
    let ih = get_pos_from-walk dim_sizes (pre ++ s ∷ []) sizes pos (wadd p (wmul x s)) in
    rw (at, e) (rw (append_assoc pre (s ∷ []) sizes, l) at ih)

pub capacity-pos : (ns pos : List ℕ) → InRange ns pos → 0 < capacity ns
unfolding capacity
capacity-pos [] [] h = omega arith
capacity-pos [] (x ∷ pos) h = elim h [ ]
capacity-pos (n ∷ ns) [] (h, hs) = let i = capacity-pos ns [] hs in grind arith
capacity-pos (n ∷ ns) (x ∷ pos) (h, hs) = let i = capacity-pos ns pos hs in grind arith

small_factor : (a n c : ℕ) → 0 < c → a * (n * c) < size_mod → a * n < size_mod
small_factor a n zero h b = elim h [ ]
small_factor a n (suc c) h b = omega (arith, b)

digit_below : (p x a n : ℕ) → p < a → x < n → p + x * a < a * n
digit_below p x a n h l = grind arith

walk-offset :
    (a : ℕ) (ns zeros pos : List ℕ) (p : ℕ)
    → InRange ns pos
    → p < a
    → a * capacity ns < size_mod
    → walk (slice_sizes a ns ++ zeros) pos p ≡ ok (p + a * offset ns pos)
unfolding slice_sizes capacity offset walk
walk-offset a [] zeros [] p h l b = ap ok (omega arith)
walk-offset a [] zeros (x ∷ pos) p h l b = elim h [ ]
walk-offset a (n ∷ ns) zeros [] p h l b = ap ok (omega arith)
walk-offset a (n ∷ ns) zeros (x ∷ pos) p (h, hs) l b =
    let c = capacity-pos ns pos hs in
    let small : a * n < size_mod = small_factor a n (capacity ns) c b in
    let below : p + x * a < a * n = digit_below p x a n l h in
    let exact : wadd p (wmul x a) ≡ p + x * a = omega arith in
    let exact' : wmul a n ≡ a * n = omega arith in
    rw (exact, exact')
      (walk-offset (a * n) ns zeros pos (p + x * a) hs below (omega (arith, b))
        ∙ ap ok (omega arith))

offset-lt : (ns pos : List ℕ) → InRange ns pos → offset ns pos < capacity ns
unfolding offset capacity
offset-lt [] [] h = omega arith
offset-lt [] (x ∷ pos) h = elim h [ ]
offset-lt (n ∷ ns) [] h = capacity-pos (n ∷ ns) [] h
offset-lt (n ∷ ns) (x ∷ pos) (h, hs) =
    digit_lt x n (offset ns pos) (capacity ns) h (offset-lt ns pos hs)
  where
    digit_lt : (x n o c : ℕ) → x < n → o < c → x + n * o < n * c
    digit_lt x n o c h l = grind arith

digits : (x y n a b : ℕ) → x < n → y < n → x + n * a ≡ y + n * b → a ≡ b
digits x y n a b h l e = elim (Bool-cases (ltb a b)) [
  | inl p ↦ absurd (omega (arith, mul-le-mul_left {m = a + 1} {n = b} n (ground arith)))
  | inr p ↦ elim (Bool-cases (ltb b a)) [
    | inl q ↦ absurd (omega (arith, mul-le-mul_left {m = b + 1} {n = a} n (ground arith)))
    | inr q ↦ ground arith
  ]
]

offset-injective :
    (ns pos other : List ℕ)
    → InRange ns pos
    → InRange ns other
    → length pos ≡ length ns
    → length other ≡ length ns
    → offset ns pos ≡ offset ns other
    → pos ≡ other
unfolding offset
offset-injective [] [] [] h h' l l' e = refl
offset-injective [] [] (y ∷ other) h h' l l' e = elim h' [ ]
offset-injective [] (x ∷ pos) other h h' l l' e = elim h [ ]
offset-injective (n ∷ ns) [] other h h' l l' e = absurd (omega (arith, l))
offset-injective (n ∷ ns) (x ∷ pos) [] h h' l l' e = absurd (omega (arith, l'))
offset-injective (n ∷ ns) (x ∷ pos) (y ∷ other) (h, hs) (h', hs') l l' e =
    let q = digits x y n (offset ns pos) (offset ns other) h h' e in
    let r = offset-injective ns pos other hs hs' (omega (arith, l)) (omega (arith, l')) q in
    ap₂ (λ (a : ℕ) (rest : List ℕ). a ∷ rest) (omega (arith, e, ap (λ (z : ℕ). n * z) q)) r

-- A position within the array is computed without wrapping: it is the number whose digits are the
-- indices, and lies within the array.
pub get_pos-offset :
    (dim_sizes pos : List ℕ)
    → InRange dim_sizes pos
    → capacity dim_sizes < size_mod
    → (get_pos (new_index dim_sizes) pos ≡ ok (offset dim_sizes pos))
      × (offset dim_sizes pos < capacity dim_sizes)
unfolding new_index
get_pos-offset dim_sizes pos h b = (
  get_pos_from-walk dim_sizes [] (new_index dim_sizes).slices pos 0
      ∙ walk-offset 1 dim_sizes (replicate (min_dims - length dim_sizes) 0) pos 0 h (omega arith)
          (omega arith)
      ∙ ap ok (omega arith),
  offset-lt dim_sizes pos h,
)

-- Different positions within the array, with an index for each dimension, have different places.
pub get_pos-injective :
    (dim_sizes pos other : List ℕ)
    → InRange dim_sizes pos
    → InRange dim_sizes other
    → length pos ≡ length dim_sizes
    → length other ≡ length dim_sizes
    → capacity dim_sizes < size_mod
    → get_pos (new_index dim_sizes) pos ≡ get_pos (new_index dim_sizes) other
    → pos ≡ other
get_pos-injective dim_sizes pos other h h' l l' b e =
    offset-injective dim_sizes pos other h h' l l' (
      ok-injective
        (sym (get_pos-offset dim_sizes pos h b).0 ∙ e ∙ (get_pos-offset dim_sizes other h' b).0))
