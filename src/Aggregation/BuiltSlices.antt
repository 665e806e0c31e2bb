-- ===== src/Aggregation/BuiltSlices.antt =====
-- AggregationReader::getDataSlice for a slice builder: the slices of a joined variable, one behind
-- the other.
use fimex.Data.Impl.{copy_data}
use fimex.Prelude.Dict.{member}
use fimex.Reader.Slices.{to_the_end, get_built_slice_from_memory, nothing_sorted, sort_apart}
use fimex.Prelude.Words.{wmul, wadd}
use fimex.Prelude.Text.{str_eq}
use fimex.Cdm.Variables.{get_variable}
use fimex.Cdm.Dimensions.{get_unlimited_dim}
use fimex.Slice.Builder.{set_start_and_size, of_variable, get_dimension_names, at, SliceBuilder}
use fimex.Aggregation.{agg_union, agg_join_new, agg_join_existing, PartReader, AggType, Aggregation}
use fimex.Cdm.Model.{has_data}
use fimex.Prelude.{
  ◌||◌, zero, ◌==◌, ◌+◌, not, suc, replicate, length, if◌then◌else◌, ℕ, List, [], ◌∷◌, String,
  Option, none, some, false,
}
use fimex.Prelude.Result.{assertion_failed, guard, Result, ok, err, ◌>>=◌, ◌>>◌}
use fimex.Aggregation.Slices.{
  check_join_new_dims, find_union_reader, check_join_existing_dims, find_join_reader,
}

-- The loops of getDataSlice(varName, sb) that set the slice of one reader; `at_udim` is none for
-- joinNew, where the reader does not have the dimension.
unfoldable pub set_parts :
    String → Option ℕ → ℕ → List String → SliceBuilder → SliceBuilder → Result SliceBuilder
set_parts u_dim_name at_udim j [] sb sbi = ok sbi
set_parts u_dim_name at_udim j (n ∷ dim_names) sb sbi = do
  start ← at sb.start j
  size ← at sb.size j
  sbi' ←
      if str_eq n u_dim_name
      then elim at_udim [ none ↦ ok sbi | some pos ↦ set_start_and_size sbi n pos 1 ]
      else set_start_and_size sbi n start size
  set_parts u_dim_name at_udim (j + 1) dim_names sb sbi'

module _ {V : Type 0} where
  unfoldable pub part_slice :
      AggType
      → Aggregation V
      → String
      → String
      → List String
      → SliceBuilder
      → PartReader V
      → ℕ
      → Result (Option (List V))
  part_slice agg_join_existing g var_name u_dim_name dim_names sb rd pos = do
    same ← check_join_existing_dims g.cdm rd.cdm var_name
    if not same
        then ok none
        else (of_variable rd.cdm var_name false >>= λ sbi.
            set_parts u_dim_name (some pos) 0 dim_names sb sbi >>= λ sbi'.
            rd.built_slice var_name sbi' >>= λ values. ok (some values))
  part_slice agg_join_new g var_name u_dim_name dim_names sb rd pos = do
    same ← check_join_new_dims g.cdm rd.cdm var_name
    if not same
        then ok none
        else (of_variable rd.cdm var_name false >>= λ sbi.
            set_parts u_dim_name none 0 dim_names sb sbi >>= λ sbi'.
            rd.built_slice var_name sbi' >>= λ values. ok (some values))
  part_slice agg_union g var_name u_dim_name dim_names sb rd pos = ok none

  -- One position of the loop: the slice, if there is one and it is not empty, is set at its place.
  unfoldable pub place_part : ℕ → ℕ → Option (List V) → List V → Result (List V)
  place_part i slice_size none values = ok values
  place_part i slice_size (some part) values =
      if length part == 0
      then ok values
      else (guard (length part == slice_size) assertion_failed
          >> copy_data values (wmul i slice_size) part 0 to_the_end)

  unfoldable pub join_positions :
      Aggregation V
      → String
      → String
      → List String
      → SliceBuilder
      → ℕ
      → ℕ
      → ℕ
      → ℕ
      → List V
      → Result (List V)
  join_positions g var_name u_dim_name dim_names sb start slice_size zero i values = ok values
  join_positions g var_name u_dim_name dim_names sb start slice_size (suc rounds) i values = do
    part ← elim (find_join_reader g (wadd start i)) [
      | none ↦ ok none
      | some found ↦ part_slice g.agg_type g var_name u_dim_name dim_names sb found.0 found.1
    ]
    values' ← place_part i slice_size part values
    join_positions g var_name u_dim_name dim_names sb start slice_size rounds (i + 1) values'

  -- The branch for joined variables: the sorting of the dimensions is that of CDMReader,
  -- which also looks up the maxima, of which there are as many as starts and sizes
  unfoldable pub joined_built_slice :
      Aggregation V → String → String → SliceBuilder → Result (List V)
  joined_built_slice g var_name u_dim_name sb = do
    dim_names ← get_dimension_names sb
    s ← sort_apart sb u_dim_name 0 dim_names nothing_sorted
    if s.un_lim_dim_size == 0 || s.un_lim_slice_size == 0
        then ok []
        else join_positions g var_name u_dim_name dim_names sb s.un_lim_dim_start
            s.un_lim_slice_size s.un_lim_dim_size 0
            (replicate (wmul s.un_lim_slice_size s.un_lim_dim_size) (g.fill_value var_name))

  -- AggregationReader::getDataSlice(varName, sb). A joined variable implies an unlimited dimension.
  unfoldable pub aggregated_built_slice :
      Aggregation V → String → SliceBuilder → Result (Option (List V))
  aggregated_built_slice g var_name sb = do
    variable ← get_variable var_name g.cdm
    if has_data variable
        then get_built_slice_from_memory variable sb
        else (if member var_name g.join_vars
            then elim (get_unlimited_dim g.cdm) [
              | none ↦ err assertion_failed
              | some u ↦ (joined_built_slice g var_name u.name sb >>= λ values. ok (some values))
            ]
            else (find_union_reader g var_name >>= λ o. elim o [
              | none ↦ ok none
              | some rd ↦ (rd.built_slice var_name sb >>= λ values. ok (some values))
            ]))
