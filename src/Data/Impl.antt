-- ===== src/Data/Impl.antt =====
-- DataImpl<C> (src/DataImpl.h) and product (src/MathUtils.cc): an array of `C` as the list of its
-- elements.
pub mod Slice
use fimex.Prelude.Words.{wsub, wadd, wmul}
use fimex.Prelude.Result.{cdm_exception, guard, ok, Result}
use fimex.Data.SliceCopy.{nth, pointers, recursive_copy_multi_dim_data, Region}
use fimex.Prelude.Result.{◌>>=◌, ◌>>◌}
use fimex.Prelude.{
  ◌-◌, if◌then◌else◌, min, ltb, leb, ◌==◌, not, ◌+◌, drop, [], length, ◌++◌, take, ◌∷◌, List, ℕ,
}

-- std::accumulate with std::multiplies<size_t>
unfoldable pub product_from : ℕ → List ℕ → ℕ
product_from acc [] = acc
product_from acc (n ∷ ns) = product_from (wmul acc n) ns

abbrev pub product : List ℕ → ℕ
product = product_from 1

-- The pre-calculated slice sizes: 1, and each next one the last times its dimension.
unfoldable pub slice_sizes : ℕ → List ℕ → List ℕ
slice_sizes acc [] = []
slice_sizes acc (n ∷ ns) = acc ∷ slice_sizes (wmul acc n) ns

-- The first loop of slice over the dimensions from `i` on: the two products, or an exception.
unfoldable pub slice_checks : ℕ → List ℕ → List ℕ → List ℕ → ℕ → ℕ → Result (ℕ × ℕ)
slice_checks i [] start_dims output_dim_size org_size output_size = ok (org_size, output_size)
slice_checks i (n ∷ ns) start_dims output_dim_size org_size output_size = do
  guard (not (ltb n (wadd (nth start_dims i) (nth output_dim_size i)))) cdm_exception
  slice_checks (i + 1) ns start_dims output_dim_size (wmul org_size n)
      (wmul output_size (nth output_dim_size i))

abbrev pub region : List ℕ → List ℕ → List ℕ → Region
region org_dim_size start_dims output_dim_size = record {
  org_dim_size = org_dim_size;
  org_slice_size = slice_sizes 1 org_dim_size;
  new_start = start_dims;
  new_size = output_dim_size;
}

module _ {ℓ} {C : Type ℓ} where
  -- DataImpl<C>::slice for one dimension or more.
  unfoldable pub slice_dims : List C → ℕ → List ℕ → List ℕ → List ℕ → Result (List C)
  slice_dims values last org_dim_size start_dims output_dim_size = do
    (org_size, output_size) ← slice_checks 0 org_dim_size start_dims output_dim_size 1 1
    guard (org_size == length values) cdm_exception
    ok
        (recursive_copy_multi_dim_data values (region org_dim_size start_dims output_dim_size) last
          (pointers 0 [])).new_data

  -- DataImpl<C>::slice; scalar data is cloned.
  unfoldable pub slice : List C → List ℕ → List ℕ → List ℕ → Result (List C)
  unfolding slice_dims
  slice values [] start_dims output_dim_size = ok values
  slice values (n ∷ ns) start_dims output_dim_size =
      slice_dims values (length ns) (n ∷ ns) start_dims output_dim_size

  -- std::copy to a place within the array.
  unfoldable pub write_at : List C → ℕ → List C → List C
  write_at old pos values = take pos old ++ values ++ drop (pos + length values) old

  -- DataImpl<C>::copyData
  unfoldable pub copy_data : List C → ℕ → List C → ℕ → ℕ → Result (List C)
  unfolding write_at
  copy_data the_data start_pos other other_first other_last = do
    guard (leb other_first (length other)) cdm_exception
    let last =
        min (wadd (wsub (length the_data) start_pos) other_first) (min other_last (length other))
    ok (
        if ltb other_first last
        then write_at the_data start_pos (take (last - other_first) (drop other_first other))
        else the_data)
