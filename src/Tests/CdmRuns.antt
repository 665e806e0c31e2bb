-- ===== src/Tests/CdmRuns.antt =====
-- A small data model: temperature on a grid, with its unit.
use fimex.Cdm.Find.Found.{AllInShape, AllMatch, find_variables-get_variable}
use fimex.Prelude.Text.{contains}
use fimex.Prelude.Result.{ok}
use fimex.Cdm.Find.{
  check_variable_attribute, has_dimensions, has_attributes, matching_names, compile_all,
  find_variables, Regex,
}
use fimex.Prelude.Dict.{insert, lookup}
use fimex.StringUtils.{bytes_eq, Bytes, codes, string2lower_case}
use fimex.Cdm.Dimensions.{test_dimension_in_use, has_dimension, add_dimension, rename_dimension}
use fimex.Cdm.Variables.{
  get_variable, get_attributes, may_have_attributes, has_variable, add_variable, rename_variable,
  add_attribute,
}
use fimex.Cdm.RenameDimension.Moved.{rename_dimension-Renamed, DimensionRenamed}
use fimex.Cdm.Rename.Moved.{CanRename, rename_variable-Renamed, Renamed}
use fimex.Cdm.WellFormed.{WellFormed}
use fimex.Cdm.Model.{
  check_dimension, empty_cdm, new_dimension, new_variable, CdmVariable, Cdm, CdmAttribute,
}
use fimex.Cdm.Reachable.{
  reach_new, call_add_dimension, call_add_variable, reach_call, IsReachable-WellFormed,
  call_add_attribute, after_call, IsReachable,
}
use fimex.Cdm.DataType.{
  string2datatype-datatype2string, CdmDataType, datatype2string, string2datatype,
}
use fimex.Prelude.{◌↔◌, String, List, ◌&&◌, not, ◌≡◌, ℕ, true, false, [], ◌∷◌, refl}

abbrev units : CdmAttribute ℕ
units = record {
  name = "units";
  payload = record { data_type = CdmDataType.string; values = 75 ∷ [] };
}

abbrev temperature : CdmVariable ℕ
temperature = new_variable "temperature" CdmDataType.float ("y" ∷ "x" ∷ [])

abbrev grid : Cdm ℕ
grid = after_call (call_add_attribute "temperature" units) (
    after_call (call_add_variable temperature) (
      after_call (call_add_dimension (new_dimension "y" 2))
        (after_call (call_add_dimension (new_dimension "x" 3)) empty_cdm)))

grid-IsReachable : IsReachable grid
grid-IsReachable = reach_call (call_add_attribute "temperature" units) (
    reach_call (call_add_variable temperature) (
      reach_call (call_add_dimension (new_dimension "y" 2))
        (reach_call (call_add_dimension (new_dimension "x" 3)) reach_new)))

IsReachable-WellFormed_example : WellFormed grid
IsReachable-WellFormed_example = IsReachable-WellFormed grid-IsReachable

CanRename-grid : CanRename "temperature" "t" grid
unfolding after_call add_attribute add_variable add_dimension has_variable has_dimension
    may_have_attributes get_attributes lookup insert
CanRename-grid = record {
  well_formed = IsReachable-WellFormed grid-IsReachable;
  differ = refl;
  present = refl;
}

rename_variable-Renamed_example :
    Renamed "temperature" "t" grid (rename_variable "temperature" "t" grid)
rename_variable-Renamed_example = rename_variable-Renamed "temperature" "t" grid CanRename-grid

x_is_there : has_dimension "x" grid ≡ true
unfolding after_call add_attribute add_variable add_dimension has_variable has_dimension
    may_have_attributes get_attributes lookup insert
x_is_there = refl

lon_is_free : (not false && test_dimension_in_use "lon" grid) ≡ false
unfolding after_call add_attribute add_variable add_dimension has_variable has_dimension
    may_have_attributes get_attributes lookup insert test_dimension_in_use
lon_is_free = refl

rename_dimension-Renamed_example :
    DimensionRenamed "x" "lon" grid (rename_dimension "x" "lon" false grid)
rename_dimension-Renamed_example =
    rename_dimension-Renamed "x" "lon" false grid (IsReachable-WellFormed grid-IsReachable) refl
      x_is_there lon_is_free

string2datatype-datatype2string_example :
    (string2datatype (datatype2string CdmDataType.float) ≡ CdmDataType.float)
    × (string2datatype (string2lower_case (codes "FLOAT")) ≡ string2datatype (codes "FLOAT"))
string2datatype-datatype2string_example =
    string2datatype-datatype2string CdmDataType.float (codes "FLOAT")

-- Patterns without special characters, which match themselves
abbrev plain_regex : Regex ℕ
plain_regex = record {
  Pattern = Bytes;
  Text = Bytes;
  compile = λ text. ok (codes text);
  string_value = λ attr. attr.payload.values;
  matches = bytes_eq;
}

find_variables-get_variable_example :
    (found : List String) × (find_variables plain_regex (("units", "K") ∷ []) ("x" ∷ []) grid
      ≡ ok found)
    × ((n : String)
        → (contains n found ≡ true) ↔ (
            (v : CdmVariable ℕ) × (get_variable n grid ≡ ok v)
            × AllMatch plain_regex grid n (("units", "K") ∷ [])
            × AllInShape plain_regex v ("x" ∷ [])))
find_variables-get_variable_example =
    find_variables-get_variable plain_regex (("units", "K") ∷ []) ("x" ∷ []) grid
      (IsReachable-WellFormed grid-IsReachable).vars (λ j attribute text at_j. (codes text, refl))

find_variables_run :
    find_variables plain_regex (("units", "K") ∷ []) ("x" ∷ []) grid ≡ ok ("temperature" ∷ [])
unfolding find_variables compile_all matching_names has_attributes has_dimensions
    check_variable_attribute check_dimension after_call add_attribute add_variable add_dimension
    has_variable has_dimension may_have_attributes get_attributes lookup insert bytes_eq
find_variables_run = refl
