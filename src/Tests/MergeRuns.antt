-- ===== src/Tests/MergeRuns.antt =====
-- A variable on a grid, whose dimension variables and projection are selected with it.
use fimex.Merge.Compatible.{
  equal_lengths, at_dimensions, compatible_kinds, same_dimension, hop, names_eq, compatible_shapes,
  compatible_systems, is_compatible,
}
use fimex.CoordinateSystem.{
  find_axis_of_types, get_geo_y_axis, get_geo_x_axis, axis_geo_x, axis_geo_y, axis_geo_z, axis_time,
}
use fimex.CoordinateSystem.{
  axis_number, is_axis_type, insert_axes, CoordinateSystem, is_cs_and_complete_for,
  get_dependency_variables, AxisType, find_axis_of_type,
}
use fimex.Cdm.Dimensions.{get_dimension}
use fimex.Merge.Axes.{
  at_least_minus_one, compatible_lengths, axis_length, check_single_axis_compatibility, check_types,
  check_axes_compatibility,
}
use fimex.Merge.Needs.{needs}
use fimex.Cdm.Variables.{has_variable, get_variable}
use fimex.Prelude.Result.{ok}
use fimex.Merge.Closure.{universe, add_auxiliary-IsClosure, IsClosure, system_names}
use fimex.Cdm.Model.{new_dimension, new_variable, Cdm}
use fimex.Extractor.{CdmExtractor}
use fimex.Prelude.Dict.{lookup, member, insert, NameSet, keys}
use fimex.Merge.{
  find_complete_coordinate_system_for, shape_vars, dims_vars_of, insert_dependencies, insert_all,
  auxiliary_round, add_auxiliary,
}
use fimex.Merge.Select.{select_with_auxiliary, select_with_auxiliary-kept}
use fimex.Cdm.DataType.{CdmDataType}
use fimex.Prelude.{
  none, Option, refl, arith, ◌<◌, true, length, false, String, ◌≡◌, [], ℕ, ◌∷◌, some,
}

abbrev gridded : Cdm ℕ
gridded = record {
  attributes = [];
  variables =
      new_variable "p" CdmDataType.int ("x" ∷ "y" ∷ [])
      ∷ new_variable "x" CdmDataType.int ("x" ∷ [])
      ∷ new_variable "crs" CdmDataType.int ("n" ∷ [])
      ∷ new_variable "n" CdmDataType.int ("n" ∷ [])
      ∷ new_variable "q" CdmDataType.int ("x" ∷ [])
      ∷ [];
  dimensions = new_dimension "x" 3 ∷ new_dimension "y" 2 ∷ new_dimension "n" 1 ∷ [];
  coords_initialized = false;
}

abbrev projected : CoordinateSystem
projected = record {
  cs_for_vars = ("p", tt) ∷ [];
  complete_vars = ("p", tt) ∷ [];
  dependency_vars = ("crs", tt) ∷ [];
  axes = record { name = "x"; axis_type = axis_geo_x; is_explicit = true; shape = [] } ∷ [];
  auxiliary_axes = [];
}

-- The dimension of the projection variable comes with the second round.
auxiliary_run :
    add_auxiliary 20 gridded (projected ∷ []) (("p", tt) ∷ [])
    ≡ some (("crs", tt) ∷ ("n", tt) ∷ ("p", tt) ∷ ("x", tt) ∷ [])
unfolding add_auxiliary auxiliary_round insert_all insert_dependencies keys dims_vars_of shape_vars
    get_variable has_variable find_complete_coordinate_system_for is_cs_and_complete_for member
    lookup insert get_dependency_variables insert_axes
auxiliary_run = refl

enough : length (universe gridded (projected ∷ []) (("p", tt) ∷ [])) < 20
unfolding keys system_names get_dependency_variables insert_axes insert
enough = omega arith

add_auxiliary-IsClosure_example :
    (t : NameSet) × (add_auxiliary 20 gridded (projected ∷ []) (("p", tt) ∷ []) ≡ some t)
    × IsClosure gridded (projected ∷ []) (("p", tt) ∷ []) t
add_auxiliary-IsClosure_example =
    add_auxiliary-IsClosure gridded (projected ∷ []) (("p", tt) ∷ []) 20 enough

abbrev opened : CdmExtractor ℕ
opened = record {
  data_reader = record {
    cdm = gridded;
    get_data_slice_at = λ n i. ok [];
    empty_value = 0;
    fill_value = λ n. 0;
  };
  cdm = gridded;
  dim_slices = [];
}

select_with_auxiliary-kept_example :
    (y : CdmExtractor ℕ) × (select_with_auxiliary 20 (projected ∷ []) (("p", tt) ∷ []) opened
      ≡ some y)
    × ((n : String)
        → member n (("p", tt) ∷ []) ≡ true
        → get_variable n y.cdm ≡ get_variable n gridded)
    × ((n d : String)
        → has_variable n y.cdm ≡ true
        → needs gridded (projected ∷ []) n d ≡ true
        → get_variable d y.cdm ≡ get_variable d gridded)
select_with_auxiliary-kept_example =
    select_with_auxiliary-kept (projected ∷ []) (("p", tt) ∷ []) opened 20 enough

-- In the base the axes z and y, in the top z and a time of length 1.
abbrev levels : CoordinateSystem
levels = record projected {
  axes =
      record { name = "x"; axis_type = axis_geo_z; is_explicit = true; shape = [] }
      ∷ record { name = "y"; axis_type = axis_geo_y; is_explicit = true; shape = [] }
      ∷ [];
}

abbrev timed : CoordinateSystem
timed = record projected {
  axes = record { name = "x"; axis_type = axis_geo_z; is_explicit = true; shape = [] } ∷ [];
  auxiliary_axes =
      record { name = "n"; axis_type = axis_time; is_explicit = true; shape = [] } ∷ [];
}

abbrev levels_lengths : AxisType → Option ℕ
levels_lengths axis_geo_z = some 3
levels_lengths axis_geo_y = some 2
levels_lengths _ = none

abbrev timed_lengths : AxisType → Option ℕ
timed_lengths axis_geo_z = some 3
timed_lengths axis_time = some 1
timed_lengths _ = none

levels_match : check_axes_compatibility gridded gridded levels timed ≡ ok true
unfolding check_axes_compatibility check_types check_single_axis_compatibility find_axis_of_type
    is_axis_type axis_number axis_length get_dimension compatible_lengths at_least_minus_one
levels_match = refl

-- A second dimension of the top that the base does not have, of a length other than 1, is not
-- looked at.
abbrev longer : Cdm ℕ
longer = record gridded {
  variables =
      new_variable "p" CdmDataType.int ("y" ∷ "n" ∷ "x" ∷ [])
      ∷ new_variable "x" CdmDataType.int ("x" ∷ [])
      ∷ [];
}

abbrev shorter : Cdm ℕ
shorter = record gridded { variables = new_variable "p" CdmDataType.int ("y" ∷ []) ∷ [] }

abbrev plane : CoordinateSystem
plane = record projected {
  axes =
      record { name = "x"; axis_type = axis_geo_x; is_explicit = true; shape = [] }
      ∷ record { name = "y"; axis_type = axis_geo_y; is_explicit = true; shape = [] }
      ∷ [];
}

trailing_dimensions_run :
    is_compatible shorter longer (plane ∷ []) (plane ∷ []) "p" ≡ some (ok true)
unfolding is_compatible compatible_systems compatible_shapes names_eq check_axes_compatibility
    check_types check_single_axis_compatibility compatible_lengths at_least_minus_one axis_length
    find_axis_of_type is_axis_type axis_number get_variable get_dimension has_variable hop
    same_dimension equal_lengths compatible_kinds at_dimensions get_geo_x_axis get_geo_y_axis
    find_axis_of_types find_complete_coordinate_system_for is_cs_and_complete_for member
trailing_dimensions_run = refl
