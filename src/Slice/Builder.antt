-- ===== src/Slice/Builder.antt =====
-- SliceBuilder (include/fimex/SliceBuilder.h, src/SliceBuilder.cc): the start and size of a slice
-- in each dimension of a variable. The vectors have one entry for each position; `dim_pos` and
-- `set_dims` are the map and the set of the class.
pub mod Laws
pub mod Set
pub mod Positions
use fimex.CoordinateSystem.{CoordinateAxis}
use fimex.Prelude.Words.{wadd}
use fimex.Cdm.Variables.{get_variable}
use fimex.Cdm.Dimensions.{get_dimension}
use fimex.Prelude.Result.{guard, ◌>>=◌, ◌>>◌}
use fimex.Prelude.Result.{out_of_range, cdm_exception, err, ok, Result}
use fimex.Cdm.Model.{CdmDimension, Cdm}
use fimex.Prelude.Dict.{insert, lookup, NameSet, member, Dict}
use fimex.Prelude.{
  map, leb, none, ◌&&◌, ◌==◌, set, false, length, [], ltb, some, ◌+◌, if◌then◌else◌, Bool, ◌∷◌,
  get_elem?, replicate, List, String, Option, ℕ,
}

pub record SliceBuilder : Type 0 where
  pub dim_pos : Dict ℕ
  pub set_dims : NameSet
  pub max_size : List ℕ
  pub unlimited : List Bool
  pub start : List ℕ
  pub size : List ℕ

-- v.at(i)
abbrev pub at {ℓ} : {A : Type ℓ} → List A → ℕ → Result A
at xs i = elim (get_elem? xs i) [ none ↦ err out_of_range | some x ↦ ok x ]

-- v.at(i) = x
abbrev pub set_at {ℓ} : {A : Type ℓ} → List A → ℕ → A → Result (List A)
set_at xs i x = if ltb i (length xs) then ok (set xs i x) else err out_of_range

-- The loop of init over the names: a later equal name takes the position over.
unfoldable pub positions : ℕ → List String → Dict ℕ → Dict ℕ
positions pos [] m = m
positions pos (n ∷ names) m = positions (pos + 1) names (insert n pos m)

-- What init leaves where the lengths agree.
abbrev pub initial : List String → List ℕ → List Bool → SliceBuilder
initial dim_names dim_size unlimited = record {
  dim_pos = positions 0 dim_names [];
  set_dims = [];
  max_size = dim_size;
  unlimited = unlimited;
  start = replicate (length dim_names) 0;
  size = dim_size;
}

-- SliceBuilder::init
unfoldable pub init : List String → List ℕ → List Bool → Result SliceBuilder
unfolding positions
init dim_names dim_size unlimited =
    if length dim_names == length dim_size && length dim_names == length unlimited
    then ok (initial dim_names dim_size unlimited)
    else err cdm_exception

-- SliceBuilder::SliceBuilder(dimNames, dimSize)
unfoldable pub of_sizes : List String → List ℕ → Result SliceBuilder
unfolding init
of_sizes dim_names dim_size = init dim_names dim_size (replicate (length dim_names) false)

module _ {V : Type 0} where
  -- The loop of the constructor from a data model: the dimensions of a shape.
  unfoldable pub shape_dims : Cdm V → List String → Result (List CdmDimension)
  shape_dims c [] = ok []
  shape_dims c (n ∷ shape) = do d ← get_dimension n c; ds ← shape_dims c shape; ok (d ∷ ds)

  -- SliceBuilder::SliceBuilder(cdm, varName, setUnlimited)
  unfoldable pub of_variable : Cdm V → String → Bool → Result SliceBuilder
  unfolding init shape_dims
  of_variable c var_name set_unlimited = do
    v ← get_variable var_name c
    ds ← shape_dims c v.shape
    init v.shape (map (λ (d : CdmDimension). d.length) ds)
        (map (λ (d : CdmDimension). set_unlimited && d.unlimited) ds)

unfoldable pub get_dim_pos : SliceBuilder → String → Result ℕ
get_dim_pos sb n = elim (lookup n sb.dim_pos) [ none ↦ err cdm_exception | some pos ↦ ok pos ]

unfoldable pub get_start_and_size : SliceBuilder → String → Result (ℕ × ℕ)
get_start_and_size sb n = do
  pos ← get_dim_pos sb n
  start ← at sb.start pos
  size ← at sb.size pos
  ok (start, size)

-- The test of setStartAndSize: the maximum is read for a limited dimension only, and the sum is one
-- of `size_t`, which wraps.
unfoldable pub check_limit : SliceBuilder → ℕ → ℕ → ℕ → Result (Unit {0})
check_limit sb pos start size = do
  unlimited ← at sb.unlimited pos
  if unlimited
      then ok tt
      else do max_size ← at sb.max_size pos; guard (leb (wadd start size) max_size) out_of_range

unfoldable pub set_start_and_size : SliceBuilder → String → ℕ → ℕ → Result SliceBuilder
set_start_and_size sb n start size = do
  pos ← get_dim_pos sb n
  check_limit sb pos start size
  starts ← set_at sb.start pos start
  sizes ← set_at sb.size pos size
  ok (record sb { start = starts; size = sizes; set_dims = insert n tt sb.set_dims })

unfoldable pub set_all : SliceBuilder → String → Result SliceBuilder
set_all sb n = do
  pos ← get_dim_pos sb n
  max_size ← at sb.max_size pos
  set_start_and_size sb n 0 max_size

-- A pointer to an axis may be null.
unfoldable pub set_start_and_size_of_axis :
    SliceBuilder → Option CoordinateAxis → ℕ → ℕ → Result SliceBuilder
set_start_and_size_of_axis sb none start size = ok sb
set_start_and_size_of_axis sb (some a) start size =
    if a.is_explicit then set_start_and_size sb a.name start size else err cdm_exception

unfoldable pub set_all_of_axis : SliceBuilder → Option CoordinateAxis → Result SliceBuilder
set_all_of_axis sb none = ok sb
set_all_of_axis sb (some a) = if a.is_explicit then set_all sb a.name else err cdm_exception

-- getDimensionNames: the names in the order of their positions.
unfoldable pub fill_names : Dict ℕ → List String → Result (List String)
fill_names [] names = ok names
fill_names ((n, pos) ∷ m) names = do names' ← set_at names pos n; fill_names m names'

unfoldable pub get_dimension_names : SliceBuilder → Result (List String)
unfolding fill_names
get_dimension_names sb = fill_names sb.dim_pos (replicate (length sb.dim_pos) "")

-- getUnsetDimensionNames
unfoldable pub unset_names : NameSet → Dict ℕ → List String
unfolding member
unset_names done [] = []
unset_names done ((n, pos) ∷ m) =
    if member n done then unset_names done m else n ∷ unset_names done m

unfoldable pub get_unset_dimension_names : SliceBuilder → List String
unfolding unset_names
get_unset_dimension_names sb = unset_names sb.set_dims sb.dim_pos
