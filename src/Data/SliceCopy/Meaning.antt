-- ===== src/Data/SliceCopy/Meaning.antt =====
-- The copy against its specification: nested loops over the selected indices.
use fimex.Prelude.Words.{wadd, wsub, wmul, size_mod}
use fimex.Prelude.{
  ◌∙◌, sym, ap₂, ap, arith, ◌-◌, zero, ◌++◌, ◌*◌, ◌<◌, ◌≤◌, suc, ◌≡◌, drop, take, [], ◌+◌, List, ℕ,
}
use mathlib.Core.List.{append-nil, append_assoc}
use fimex.Data.SliceCopy.{
  copy_run, skip_before, pointers, skip_after, Pointers, iterate, recursive_copy_multi_dim_data,
  nth, Region,
}

-- In dimension `d` the selection lies in the array, and one index more is `org_slice_size` further.
pub record Fits (r : Region) (d : ℕ) : Type 0 where
  pub inside : nth r.new_start d + nth r.new_size d ≤ nth r.org_dim_size d
  pub small : nth r.org_dim_size d < size_mod
  pub small_block : nth r.org_dim_size d * nth r.org_slice_size d < size_mod

-- Every dimension up to `d` fits, and each slice is a row of the slices below it.
abbrev pub Layout : Region → ℕ → Type 0
Layout r zero = Fits r 0 × (nth r.org_slice_size 0 ≡ 1)
Layout r (suc d) =
    Fits r (suc d)
    × (nth r.org_slice_size (suc d) ≡ nth r.org_dim_size d * nth r.org_slice_size d)
    × Layout r d

-- The selected elements of the block that begins at `pos`, in order.
module _ {ℓ} {C : Type ℓ} where
  unfoldable pub rows : ℕ → ℕ → ℕ → (ℕ → List C) → List C
  rows zero pos step row = []
  rows (suc n) pos step row = row pos ++ rows n (pos + step) step row

  unfoldable pub selection : List C → Region → ℕ → ℕ → List C
  unfolding rows
  selection org r zero pos = take (nth r.new_size 0) (drop (pos + nth r.new_start 0) org)
  selection org r (suc d) pos =
      rows (nth r.new_size (suc d)) (pos + nth r.new_start (suc d) * nth r.org_slice_size (suc d))
        (nth r.org_slice_size (suc d)) (λ q. selection org r d q)

module _ (start size org slice : ℕ) (h : start + size ≤ org) (s : org < size_mod)
    (b : org * slice < size_mod) where
  skip_sum : start * slice + size * slice + (org - (start + size)) * slice ≡ org * slice
  skip_sum =
      let e : org ≡ start + size + (org - (start + size)) = omega arith in
      omega (arith, ap (λ (t : ℕ). t * slice) e)

  before_exact : wmul start slice ≡ start * slice
  before_exact = omega (arith, skip_sum)

  rest_exact : wsub org (wadd start size) ≡ org - (start + size)
  rest_exact = omega arith

  after_exact : wmul (wsub org (wadd start size)) slice ≡ (org - (start + size)) * slice
  after_exact = rw rest_exact (omega (arith, skip_sum))

module _ {ℓ} {C : Type ℓ} where
  -- Rounds that each move by one step and append one row.
  iterate-rows :
      (n : ℕ) (body : Pointers C → Pointers C) (step : ℕ) (row : ℕ → List C) (p : Pointers C)
      → ((q : Pointers C) → body q ≡ pointers (q.org_pos + step) (q.new_data ++ row q.org_pos))
      → iterate n body p ≡ pointers (p.org_pos + n * step) (p.new_data ++ rows n p.org_pos step row)
  unfolding iterate rows
  iterate-rows zero body step row p h = ap₂ pointers (omega arith) (sym (append-nil p.new_data))
  iterate-rows (suc n) body step row p h =
      ap (iterate n body) (h p)
      ∙ iterate-rows n body step row (pointers (p.org_pos + step) (p.new_data ++ row p.org_pos)) h
      ∙ ap₂ pointers (omega arith) (append_assoc p.new_data (row p.org_pos) _)

module _ {ℓ} {C : Type ℓ} (org : List C) (r : Region) where
  skip_before-eq :
      (d : ℕ) (p : Pointers C)
      → Fits r d
      → skip_before r d p
        ≡ pointers (p.org_pos + nth r.new_start d * nth r.org_slice_size d) p.new_data
  unfolding skip_before
  skip_before-eq d p f = rw (before_exact _ _ _ _ f.inside f.small f.small_block)

  skip_after-eq :
      (d pos : ℕ) (out : List C)
      → Fits r d
      → skip_after r d (
          pointers
            (pos
              + nth r.new_start d * nth r.org_slice_size d
              + nth r.new_size d * nth r.org_slice_size d)
            out)
        ≡ pointers (pos + nth r.org_dim_size d * nth r.org_slice_size d) out
  unfolding skip_after
  skip_after-eq d pos out f = rw (after_exact _ _ _ _ f.inside f.small f.small_block) (
      ap (λ x. pointers x out)
        (omega (arith, skip_sum _ _ _ (nth r.org_slice_size d) f.inside f.small f.small_block)))

  -- The walk ends behind the block, having appended the selected elements of the block.
  pub recursive_copy_multi_dim_data-selection :
      (d : ℕ) (p : Pointers C)
      → Layout r d
      → recursive_copy_multi_dim_data org r d p
        ≡ pointers
            (p.org_pos + nth r.org_dim_size d * nth r.org_slice_size d)
            (p.new_data ++ selection org r d p.org_pos)
  unfolding recursive_copy_multi_dim_data copy_run selection
  recursive_copy_multi_dim_data-selection zero p (f, one) =
      let e : p.org_pos + nth r.new_start 0 * nth r.org_slice_size 0 + nth r.new_size 0
          ≡ p.org_pos
            + nth r.new_start 0 * nth r.org_slice_size 0
            + nth r.new_size 0 * nth r.org_slice_size 0 =
        rw one (omega arith) in
      let e' : p.org_pos + nth r.new_start 0 * nth r.org_slice_size 0
          ≡ p.org_pos + nth r.new_start 0 =
        rw one (omega arith) in
      ap (λ q. skip_after r 0 (copy_run org r q)) (skip_before-eq 0 p f)
      ∙ ap₂
          (λ x y. skip_after r 0 (pointers x (p.new_data ++ take (nth r.new_size 0) (drop y org))))
          e e'
      ∙ skip_after-eq 0 p.org_pos _ f
  recursive_copy_multi_dim_data-selection (suc d) p (f, slice, l) =
      ap
        (λ q.
          skip_after r (suc d)
            (iterate (nth r.new_size (suc d)) (λ x. recursive_copy_multi_dim_data org r d x) q))
        (skip_before-eq (suc d) p f)
      ∙ ap (skip_after r (suc d)) (
          iterate-rows (nth r.new_size (suc d)) (λ q. recursive_copy_multi_dim_data org r d q)
            (nth r.org_slice_size (suc d)) (λ q. selection org r d q) _
            (λ q.
              recursive_copy_multi_dim_data-selection d q l
              ∙ ap (λ x. pointers (q.org_pos + x) (q.new_data ++ selection org r d q.org_pos))
                  (sym slice)))
      ∙ skip_after-eq (suc d) p.org_pos _ f
