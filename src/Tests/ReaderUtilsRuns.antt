-- ===== src/Tests/ReaderUtilsRuns.antt =====
-- Shapes compared and names chosen in a small data model.
use fimex.ReaderUtils.Shapes.Extents.{compare_cdm_var_shapes_iff, variable_extents}
use fimex.ReaderUtils.Shapes.{
  size_at, skip_unit, same_extents_from, insert_sizes, get_cdm_dimension_sizes,
  compare_cdm_var_shapes,
}
use fimex.Prelude.Dict.{insert, lookup}
use fimex.ReaderUtils.UniqueNames.Free.{find_unique_name-FirstFree, FirstFree}
use fimex.Cdm.Dimensions.{has_dimension}
use fimex.Prelude.Text.Decimal.{decimal}
use fimex.Prelude.Result.{ok}
use fimex.Cdm.Variables.{has_variable, get_variable}
use fimex.ReaderUtils.UniqueNames.Numbered.{find_unique_dim_var_name-UniqueName, UniqueName}
use fimex.ReaderUtils.UniqueNames.{
  find_unique_dim_name, candidate, next_free, first_free, find_unique_var_name,
  find_unique_dim_var_name,
}
use fimex.Cdm.Model.{new_dimension, new_variable, Cdm}
use fimex.Prelude.{arith, ◌≤◌, false, ◌↔◌, refl, ◌∷◌, true, some, [], ◌≡◌, ℕ}
use fimex.Cdm.DataType.{CdmDataType}

abbrev level : Cdm ℕ
level = record {
  attributes = [];
  variables =
      new_variable "p" CdmDataType.int ("t" ∷ "x" ∷ [])
      ∷ new_variable "q" CdmDataType.int ("x" ∷ "z" ∷ [])
      ∷ new_variable "lon" CdmDataType.int ("x" ∷ [])
      ∷ new_variable "lon1" CdmDataType.int ("x" ∷ [])
      ∷ [];
  dimensions = new_dimension "x" 3 ∷ new_dimension "t" 1 ∷ new_dimension "z" 1 ∷ [];
  coords_initialized = false;
}

compare_cdm_var_shapes_iff_example : (compare_cdm_var_shapes level "p" level "q" ≡ ok true) ↔ (
    variable_extents level (new_variable "p" CdmDataType.int ("t" ∷ "x" ∷ []))
    ≡ variable_extents level (new_variable "q" CdmDataType.int ("x" ∷ "z" ∷ [])))
unfolding get_variable
compare_cdm_var_shapes_iff_example =
    compare_cdm_var_shapes_iff level level "p" "q"
      (new_variable "p" CdmDataType.int ("t" ∷ "x" ∷ []))
      (new_variable "q" CdmDataType.int ("x" ∷ "z" ∷ [])) refl refl

unit_dimensions_run : compare_cdm_var_shapes level "p" level "q" ≡ ok true
unfolding compare_cdm_var_shapes get_cdm_dimension_sizes insert_sizes same_extents_from skip_unit
    size_at get_variable lookup insert
unit_dimensions_run = refl

find_unique_name-FirstFree_example :
    ((k : ℕ) × (find_unique_var_name level 5 "lon" ≡ some (candidate "lon" k))
      × FirstFree (λ n. has_variable n level) "lon" k
      × (k ≤ 4))
    × ((k : ℕ) × (find_unique_dim_name level 5 "lon" ≡ some (candidate "lon" k))
        × FirstFree (λ n. has_dimension n level) "lon" k
        × (k ≤ 3))
find_unique_name-FirstFree_example =
    find_unique_name-FirstFree level "lon" 5 (omega arith) (omega arith)

third_name_run : find_unique_var_name level 5 "lon" ≡ some "lon2"
unfolding find_unique_var_name next_free has_variable decimal
third_name_run = refl

find_unique_dim_var_name-UniqueName_example :
    UniqueName level "x" (find_unique_dim_var_name level "x")
find_unique_dim_var_name-UniqueName_example = find_unique_dim_var_name-UniqueName level "x"

numbered_name_run : find_unique_dim_var_name level "x" ≡ ok "x0"
unfolding find_unique_dim_var_name first_free has_variable has_dimension decimal
numbered_name_run = refl
