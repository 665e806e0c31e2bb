-- ===== src/ArrayLoop/Counter/Place.antt =====
-- Where the positions of a loop stand: as a number with one digit for each dimension, and as an
-- index into each array.
use fimex.Prelude.Words.{wsub, wmul, size_mod, wadd}
use fimex.ArrayLoop.Counter.{move_indexes, LoopState, back_step}
use fimex.ArrayLoop.Group.{map_delta, ArrayMap, ArrayGroup}
use fimex.Prelude.{
  true, [], ap₂, ◌∷◌, if◌then◌else◌, refl, Bool, ltb, inr, inl, Bool-cases, ap, false, ◌==◌, ◌%◌,
  ◌-◌, map, ◌*◌, ◌^◌, ◌+◌, get_or, ◌≤◌, ◌<◌, ℕ, List, zero, suc, ◌≡◌, arith,
}

-- A length that the step back of the loop is exact for.
abbrev pub GoodLength : ℕ → Type 0
GoodLength n = (0 < n) × (n ≤ 2 ^ 31)

-- A whole round of a dimension comes back to where it began.
pub back_step_lem :
    (n d rest : ℕ)
    → GoodLength n
    → wadd ((rest + (n - 1) * d) % size_mod) (wmul d (back_step n)) ≡ rest % size_mod
unfolding back_step
back_step_lem n d rest (pos, small) = elim (Bool-cases (n == 1)) [
  | inl e ↦ let one : n ≡ 1 = ground arith in rw one (omega arith)
  | inr e ↦
      let low : (wsub 0 (wsub n 1) % 2 ^ 32) ≡ 2 ^ 32 - (n - 1) = omega (arith, two_le n pos e) in
      let t : ltb (2 ^ 32 - (n - 1)) (2 ^ 31) ≡ false = ground arith in
      let v : (2 ^ 32 - (n - 1) + (size_mod - 2 ^ 32)) ≡ size_mod - (n - 1) =
        omega (arith, small) in
      rw (low, t, v) (omega (arith, whole (n - 1) d (omega (arith, small))))
]
  where
    two_le : (k : ℕ) → 0 < k → (k == 1) ≡ false → 2 ≤ k
    two_le k h e = ground arith

    whole : (x e : ℕ) → x ≤ size_mod → e * (size_mod - x) + x * e ≡ e * size_mod
    whole x e h =
        let s : (size_mod - x) + x ≡ size_mod = omega (arith, h) in
        omega (arith, ap (λ (t : ℕ). e * t) s)

pub times_if :
    (n a b : ℕ) (t : Bool) → n * (a + (if t then b else 0)) ≡ n * a + (if t then n * b else 0)
times_if n a b true = omega arith
times_if n a b false = omega arith

module _ (g : ArrayGroup) where
  abbrev pub pos_at : LoopState → ℕ → ℕ
  pos_at s k = get_or s.dim_positions k 0

  -- Where a map's array stands for the positions of `count` dimensions from `k` on.
  unfoldable pub place : ArrayMap → List ℕ → ℕ → ℕ → ℕ
  place m positions zero k = 0
  place m positions (suc count) k =
      get_or positions k 0 * map_delta m k + place m positions count (k + 1)

  abbrev pub places : List ArrayMap → List ℕ → ℕ → ℕ → List ℕ
  places maps positions count k = map (λ m. place m positions count k % size_mod) maps

  -- The positions as a number, and one above the largest.
  unfoldable pub number : List ℕ → ℕ → ℕ → ℕ
  number positions zero k = 0
  number positions (suc count) k =
      get_or positions k 0 + get_or g.lengths k 0 * number positions count (k + 1)

  unfoldable pub rounds_of : ℕ → ℕ → ℕ
  rounds_of zero k = 1
  rounds_of (suc count) k = get_or g.lengths k 0 * rounds_of count (k + 1)

  pub number_ext :
      (ps qs : List ℕ) (count k : ℕ)
      → ((j : ℕ) → k ≤ j → get_or ps j 0 ≡ get_or qs j 0)
      → number ps count k ≡ number qs count k
  unfolding number
  number_ext ps qs zero k h = refl
  number_ext ps qs (suc count) k h =
      rw (h k (omega arith), number_ext ps qs count (k + 1) (λ j l. h j (omega arith))) refl

  pub place_ext :
      (m : ArrayMap) (ps qs : List ℕ) (count k : ℕ)
      → ((j : ℕ) → k ≤ j → get_or ps j 0 ≡ get_or qs j 0)
      → place m ps count k ≡ place m qs count k
  unfolding place
  place_ext m ps qs zero k h = refl
  place_ext m ps qs (suc count) k h =
      rw (h k (omega arith), place_ext m ps qs count (k + 1) (λ j l. h j (omega arith))) refl

  -- The indexes move as one.
  pub move_indexes-map :
      (maps : List ArrayMap) (k single_step : ℕ) (old new : ArrayMap → ℕ)
      → ((m : ArrayMap) → wadd (old m) (wmul (map_delta m k) single_step) ≡ new m)
      → move_indexes maps k single_step (map old maps) ≡ map new maps
  unfolding move_indexes
  move_indexes-map [] k single_step old new h = refl
  move_indexes-map (m ∷ maps) k single_step old new h =
      ap₂ (λ (i : ℕ) (rest : List ℕ). i ∷ rest) (h m)
        (move_indexes-map maps k single_step old new h)
