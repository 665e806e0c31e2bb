-- ===== src/Reader/Slices.antt =====
-- CDMReader::getDataSlice with a slice builder, getDataSliceFromMemory (src/CDMReader.cc), and
-- createDataSlice (src/Data.cc).
use fimex.Cdm.Dimensions.{get_unlimited_dim, has_unlimited_dim}
use fimex.Prelude.Text.{str_eq}
use fimex.Data.Impl.{product, slice, copy_data}
use fimex.Cdm.Variables.{get_variable}
use fimex.Reader.{get_data, get_dims_slice, CdmReader}
use fimex.Slice.Builder.{at, get_dimension_names, SliceBuilder}
use fimex.Prelude.Words.{wmul, wadd, size_mod}
use fimex.Cdm.DataType.{CdmDataType}
use fimex.Cdm.Model.{CdmVariable}
use fimex.Prelude.{
  ◌++◌, replicate, not, ◌==◌, ◌+◌, ◌-◌, length, String, Option, Bool, if◌then◌else◌, ℕ, List, [],
  ◌∷◌, zero, suc, none, some, false, true,
}
use fimex.Prelude.Result.{cdm_exception, guard, ◌>>=◌, ◌>>◌, Result, ok}

-- static_cast<size_t>(-1), the default end of setValues
abbrev pub to_the_end : ℕ
to_the_end = size_mod - 1

-- The types that createDataSlice makes arrays of.
unfoldable pub can_be_sliced : CdmDataType → Bool
can_be_sliced CdmDataType.nat = false
can_be_sliced CdmDataType.string = false
can_be_sliced _ = true

-- createDataSlice; `empty_value` fills the new array before the values are set.
unfoldable pub create_data_slice : {V : Type 0} → V → CdmDataType → List V → ℕ → ℕ → Result (List V)
create_data_slice empty_value datatype values data_start_pos data_length = do
  guard (can_be_sliced datatype) cdm_exception
  copy_data (replicate data_length empty_value) 0 values data_start_pos
      (wadd data_start_pos data_length)

-- The variables of getDataSlice that the loop over the dimension names fills.
pub record SortedApart : Type 0 where
  pub un_lim_dim_start : ℕ
  pub un_lim_dim_size : ℕ
  pub dim_start : List ℕ
  pub dim_size : List ℕ
  pub max_dim_size : List ℕ
  pub un_lim_slice_size : ℕ

-- Their values before the loop.
abbrev pub nothing_sorted : SortedApart
nothing_sorted = record {
  un_lim_dim_start = 0;
  un_lim_dim_size = 0;
  dim_start = [];
  dim_size = [];
  max_dim_size = [];
  un_lim_slice_size = 1;
}

-- One round: the unlimited dimension is set aside, any other is appended.
unfoldable pub sort_one : SliceBuilder → String → String → ℕ → SortedApart → Result SortedApart
sort_one sb un_lim_dim dim_name i s = do
  start ← at sb.start i
  size ← at sb.size i
  if str_eq dim_name un_lim_dim
      then ok (record s { un_lim_dim_start = start; un_lim_dim_size = size })
      else do
        max_size ← at sb.max_size i
        ok (record s {
          dim_start = s.dim_start ++ start ∷ [];
          dim_size = s.dim_size ++ size ∷ [];
          max_dim_size = s.max_dim_size ++ max_size ∷ [];
          un_lim_slice_size = wmul s.un_lim_slice_size size;
        })

unfoldable pub sort_apart :
    SliceBuilder → String → ℕ → List String → SortedApart → Result SortedApart
sort_apart sb un_lim_dim i [] s = ok s
sort_apart sb un_lim_dim i (dim_name ∷ dim_names) s = do
  s' ← sort_one sb un_lim_dim dim_name i s
  sort_apart sb un_lim_dim (i + 1) dim_names s'

module _ {V : Type 0} where
  -- What is done with the data of one position of the unlimited dimension; no data leaves the fill
  -- value.
  unfoldable pub join_one : SortedApart → ℕ → List V → List V → Result (List V)
  join_one s i un_lim_dim_data values = if length un_lim_dim_data == 0 then ok values else do
    part ← slice un_lim_dim_data s.max_dim_size s.dim_start s.dim_size
    guard (length part == s.un_lim_slice_size) cdm_exception
    copy_data values (wmul i s.un_lim_slice_size) part 0 to_the_end

  unfoldable pub join_rounds : CdmReader V → String → SortedApart → ℕ → ℕ → List V → Result (List V)
  join_rounds reader var_name s zero i values = ok values
  join_rounds reader var_name s (suc rounds) i values = do
    un_lim_dim_data ← reader.get_data_slice_at var_name (wadd i s.un_lim_dim_start)
    values' ← join_one s i un_lim_dim_data values
    join_rounds reader var_name s rounds (i + 1) values'

  -- The branch of getDataSlice for a variable with the unlimited dimension and no data in memory
  unfoldable pub get_unlimited_data_slice :
      CdmReader V → String → SliceBuilder → String → Result (List V)
  get_unlimited_data_slice reader var_name sb un_lim_dim = do
    dim_names ← get_dimension_names sb
    s ← sort_apart sb un_lim_dim 0 dim_names nothing_sorted
    if s.un_lim_dim_size == 0
        then ok []
        else join_rounds reader var_name s s.un_lim_dim_size 0
            (replicate (wmul s.un_lim_slice_size s.un_lim_dim_size) (reader.fill_value var_name))

  -- CDMReader::getDataSlice(varName, sb)
  unfoldable pub get_data_slice : CdmReader V → String → SliceBuilder → Result (List V)
  get_data_slice reader var_name sb = do
    variable ← get_variable var_name reader.cdm
    elim variable.payload [
      | some d ↦ slice d.values sb.max_size sb.start sb.size
      | none ↦
          elim (if has_unlimited_dim variable reader.cdm
            then get_unlimited_dim reader.cdm
            else none) [
              | some udim ↦ get_unlimited_data_slice reader var_name sb udim.name
              | none ↦ do
                values ← get_data reader var_name
                slice values sb.max_size sb.start sb.size
            ]
    ]

  -- CDMReader::getDataSliceFromMemory(variable, unLimDimPos); none is the null pointer.
  unfoldable pub get_data_slice_from_memory :
      CdmReader V → CdmVariable V → ℕ → Result (Option (List V))
  get_data_slice_from_memory reader variable un_lim_dim_pos = elim variable.payload [
    | none ↦ ok none
    | some d ↦
        if length d.values == 0
        then ok (some d.values)
        else (if not (has_unlimited_dim variable reader.cdm) then ok (some d.values) else do
          dims ← get_dims_slice reader variable.name
          let slice_size = product dims
          part ←
              create_data_slice reader.empty_value variable.datatype d.values
                (wmul un_lim_dim_pos slice_size) slice_size
          ok (some part))
  ]

  -- The same for a slice builder
  unfoldable pub get_built_slice_from_memory :
      CdmVariable V → SliceBuilder → Result (Option (List V))
  get_built_slice_from_memory variable sb = elim variable.payload [
    | none ↦ ok none
    | some d ↦
        if length d.values == 0
        then ok (some d.values)
        else do part ← slice d.values sb.max_size sb.start sb.size; ok (some part)
  ]
