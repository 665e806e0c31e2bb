-- ===== src/Data/Index.antt =====
-- DataIndex (include/fimex/DataIndex.h, src/DataIndex.cc): the place of a multi-dimensional
-- position in an array whose first dimension moves fastest.
pub mod Position
use fimex.Prelude.Words.{wmul, wadd}
use fimex.Slice.Builder.{at}
use fimex.Data.Impl.{slice_sizes}
use fimex.Prelude.{length, ◌-◌, replicate, ◌+◌, ◌++◌, ℕ, List, [], ◌∷◌}
use fimex.Prelude.Result.{ok, Result, ◌>>=◌, ◌>>◌}

pub record DataIndex : Type 0 where
  pub dims : List ℕ
  pub slices : List ℕ

-- DataIndex::MIN_DIMS
abbrev pub min_dims : ℕ
min_dims = 10

-- DataIndex::DataIndex(dimSizes): the slice sizes, and zeros up to ten entries.
unfoldable pub new_index : List ℕ → DataIndex
new_index dim_sizes = record {
  dims = dim_sizes;
  slices = slice_sizes 1 dim_sizes ++ replicate (min_dims - length dim_sizes) 0;
}

-- The loop of getPos from index `i` on.
unfoldable pub get_pos_from : DataIndex → ℕ → List ℕ → ℕ → Result ℕ
get_pos_from index i [] p = ok p
get_pos_from index i (x ∷ pos) p = do
  slice_size ← at index.slices i
  get_pos_from index (i + 1) pos (wadd p (wmul x slice_size))

-- DataIndex::getPos(std::vector)
abbrev pub get_pos : DataIndex → List ℕ → Result ℕ
get_pos index pos = get_pos_from index 0 pos 0

-- DataIndex::getPos for two and three numbers.
unfoldable pub get_pos_2 : DataIndex → ℕ → ℕ → Result ℕ
get_pos_2 index a b = do slice_1 ← at index.slices 1; ok (wadd a (wmul b slice_1))

unfoldable pub get_pos_3 : DataIndex → ℕ → ℕ → ℕ → Result ℕ
get_pos_3 index a b c = do
  slice_1 ← at index.slices 1
  slice_2 ← at index.slices 2
  ok (wadd (wadd a (wmul b slice_1)) (wmul c slice_2))

-- and for four
unfoldable pub get_pos_4 : DataIndex → ℕ → ℕ → ℕ → ℕ → Result ℕ
get_pos_4 index a b c d = do
  slice_1 ← at index.slices 1
  slice_2 ← at index.slices 2
  slice_3 ← at index.slices 3
  ok (wadd (wadd (wadd a (wmul b slice_1)) (wmul c slice_2)) (wmul d slice_3))
