-- ===== src/CoordinateSystem.antt =====
-- Coordinate axes and systems (include/fimex/coordSys/CoordinateAxis.h,
-- src/coordSys/CoordinateSystem.cc): the axes of a system, how they are added and found.
pub mod Invariant
pub mod Slices
use fimex.Prelude.Text.{str_eq}
use fimex.Prelude.Dict.{erase, insert, member, NameSet}
use fimex.Prelude.{
  [], ◌&&◌, not, is_some, ◌||◌, remove_if, find_if, ◌==◌, ◌∷◌, ◌++◌, Option, List, Bool,
  if◌then◌else◌, String, ℕ, none, some,
}
use Prim.Native.String as Str
use fimex.Prelude.Result.{cdm_exception, Result, ok, err}

-- CoordinateAxis::AxisType
pub data AxisType : Type 0 where
  axis_undefined axis_geo_x axis_geo_y axis_geo_z axis_time axis_lon axis_lat axis_pressure
        axis_height axis_depth axis_reference_time axis_realization :
      AxisType

pub record CoordinateAxis : Type 0 where
  pub name : String
  pub axis_type : AxisType
  pub is_explicit : Bool
  pub shape : List String

-- The number of an enumerator
unfoldable pub axis_number : AxisType → ℕ
axis_number axis_undefined = 0
axis_number axis_geo_x = 1
axis_number axis_geo_y = 2
axis_number axis_geo_z = 3
axis_number axis_time = 4
axis_number axis_lon = 5
axis_number axis_lat = 6
axis_number axis_pressure = 7
axis_number axis_height = 8
axis_number axis_depth = 9
axis_number axis_reference_time = 10
axis_number axis_realization = 11

unfoldable pub is_axis_type : AxisType → CoordinateAxis → Bool
is_axis_type type axis = axis_number type == axis_number axis.axis_type

-- CoordSysImpl: the variables that a system is for and complete for, those that it needs besides
-- its axes, and the axes.
pub record CoordinateSystem : Type 0 where
  pub cs_for_vars : NameSet
  pub complete_vars : NameSet
  pub dependency_vars : NameSet
  pub axes : List CoordinateAxis
  pub auxiliary_axes : List CoordinateAxis

-- The default constructor
abbrev pub empty_system : CoordinateSystem
empty_system = record {
  cs_for_vars = [];
  complete_vars = [];
  dependency_vars = [];
  axes = [];
  auxiliary_axes = [];
}

unfoldable pub is_complete : String → CoordinateSystem → Bool
is_complete var_name cs = member var_name cs.complete_vars

unfoldable pub is_cs_for : String → CoordinateSystem → Bool
is_cs_for var_name cs = member var_name cs.cs_for_vars

unfoldable pub is_cs_and_complete_for : String → CoordinateSystem → Bool
is_cs_and_complete_for var_name cs =
    member var_name cs.cs_for_vars && member var_name cs.complete_vars

unfoldable pub set_insert_erase : NameSet → String → Bool → NameSet
set_insert_erase s str set = if set then insert str tt s else erase str s

unfoldable pub set_complete : String → Bool → CoordinateSystem → CoordinateSystem
set_complete var_name set cs = record cs {
  complete_vars = set_insert_erase cs.complete_vars var_name set;
}

unfoldable pub set_cs_for : String → Bool → CoordinateSystem → CoordinateSystem
set_cs_for var_name set cs = record cs {
  cs_for_vars = set_insert_erase cs.cs_for_vars var_name set;
}

unfoldable pub add_dependency_variable : String → CoordinateSystem → CoordinateSystem
add_dependency_variable var_name cs = record cs {
  dependency_vars = insert var_name tt cs.dependency_vars;
}

unfoldable pub has_type_in_axes : AxisType → List CoordinateAxis → Bool
has_type_in_axes type axes = is_some (find_if (is_axis_type type) axes)

unfoldable pub has_axis_type : AxisType → CoordinateSystem → Bool
unfolding has_type_in_axes
has_axis_type type cs = has_type_in_axes type cs.axes || has_type_in_axes type cs.auxiliary_axes

-- findAxisOfType
unfoldable pub find_axis_of_type : AxisType → CoordinateSystem → Option CoordinateAxis
find_axis_of_type type cs = elim (find_if (is_axis_type type) cs.axes) [
  | none ↦ find_if (is_axis_type type) cs.auxiliary_axes
  | some axis ↦ some axis
]

-- findAxisOfType of several types: the first type that an axis has
unfoldable pub find_axis_of_types : List AxisType → CoordinateSystem → Option CoordinateAxis
find_axis_of_types [] cs = none
find_axis_of_types (type ∷ types) cs = elim (find_axis_of_type type cs) [
  | none ↦ find_axis_of_types types cs
  | some axis ↦ some axis
]

unfoldable pub get_geo_x_axis : CoordinateSystem → Option CoordinateAxis
get_geo_x_axis = find_axis_of_types (axis_geo_x ∷ axis_lon ∷ [])

unfoldable pub get_geo_y_axis : CoordinateSystem → Option CoordinateAxis
get_geo_y_axis = find_axis_of_types (axis_geo_y ∷ axis_lat ∷ [])

unfoldable pub get_geo_z_axis : CoordinateSystem → Option CoordinateAxis
get_geo_z_axis = find_axis_of_types (axis_geo_z ∷ axis_height ∷ axis_depth ∷ axis_pressure ∷ [])

unfoldable pub get_time_axis : CoordinateSystem → Option CoordinateAxis
get_time_axis = find_axis_of_types (axis_time ∷ [])

unfoldable pub horizontal_id : CoordinateSystem → String
unfolding get_geo_x_axis get_geo_y_axis
horizontal_id cs = elim (get_geo_x_axis cs) [
  | none ↦ elim (get_geo_y_axis cs) [ none ↦ "" | some y ↦ y.name ]
  | some x ↦ elim (get_geo_y_axis cs) [
    | none ↦ x.name
    | some y ↦ Str.◌++◌ x.name (Str.◌++◌ "," y.name)
  ]
]

unfoldable pub get_axes : CoordinateSystem → List CoordinateAxis
get_axes cs = cs.axes ++ cs.auxiliary_axes

-- The loop of getDependencyVariables over the axes, those that getAxes returns
unfoldable pub insert_axes : List CoordinateAxis → NameSet → NameSet
insert_axes [] s = s
insert_axes (a ∷ axes) s = insert_axes axes (insert a.name tt s)

-- CoordinateSystem::getDependencyVariables
unfoldable pub get_dependency_variables : CoordinateSystem → NameSet
get_dependency_variables cs = insert_axes (cs.axes ++ cs.auxiliary_axes) cs.dependency_vars

-- CDMNameEqualPtr
abbrev pub axis_named : String → CoordinateAxis → Bool
axis_named n axis = str_eq n axis.name

-- setAxis. Axes of the same name are removed before the test that may throw.
unfoldable pub set_axis : CoordinateAxis → CoordinateSystem → Result (Unit {0}) × CoordinateSystem
unfolding has_type_in_axes
set_axis axis cs =
    let others = remove_if (axis_named axis.name) cs.axes in
    if not (axis_number axis.axis_type == axis_number axis_undefined)
      && has_type_in_axes axis.axis_type others
    then (err cdm_exception, record cs { axes = others })
    else (
      ok tt,
      record cs {
        axes = others ++ axis ∷ [];
        auxiliary_axes = remove_if (axis_named axis.name) cs.auxiliary_axes;
      },
    )

-- setAuxiliaryAxis: nothing happens if an axis has the name or the type.
unfoldable pub set_auxiliary_axis : CoordinateAxis → CoordinateSystem → CoordinateSystem
unfolding has_type_in_axes
set_auxiliary_axis axis cs =
    if is_some (find_if (axis_named axis.name) cs.axes)
    then cs
    else if not (axis_number axis.axis_type == axis_number axis_undefined)
        && has_type_in_axes axis.axis_type cs.axes
    then cs
    else record cs {
      auxiliary_axes = remove_if (axis_named axis.name) cs.auxiliary_axes ++ axis ∷ [];
    }
