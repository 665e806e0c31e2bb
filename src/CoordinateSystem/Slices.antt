-- ===== src/CoordinateSystem/Slices.antt =====
-- CoordinateSystemSliceBuilder (src/CoordinateSystemSliceBuilder.cc): a slice builder that knows the
-- axes of a coordinate system. What a call leaves behind when it throws is not described.
pub mod Sliced
pub mod Made
pub mod TimeVariable
use fimex.Slice.Builder.{
  at, set_start_and_size, get_dim_pos, set_start_and_size_of_axis, of_variable, get_dimension_names,
  of_sizes, SliceBuilder,
}
use fimex.Prelude.Dict.{insert, erase, NameSet}
use fimex.Cdm.Model.{CdmVariable, Cdm}
use fimex.Prelude.{◌==◌, ◌&&◌, false, find_if, ◌∷◌, [], if◌then◌else◌, String, List, ℕ, none, some}
use fimex.Prelude.Result.{cdm_exception, Result, ok, err, ◌>>=◌}
use fimex.CoordinateSystem.{
  axis_number, is_cs_and_complete_for, is_axis_type, axis_named, get_axes, CoordinateAxis,
  CoordinateSystem, AxisType, find_axis_of_type, get_time_axis, has_axis_type, axis_time,
  axis_reference_time,
}

pub record CsSliceBuilder : Type 0 where
  pub builder : SliceBuilder
  pub cs : CoordinateSystem
  pub t_shape : List String

-- A call on the slice builder that the class extends
abbrev pub with_builder : CsSliceBuilder → Result SliceBuilder → Result CsSliceBuilder
with_builder s call = call >>= λ builder. ok (record s { builder = builder })

-- A coordinate system has an axis of a type exactly if findAxisOfType finds one, so the test and
-- the search are one step here.
unfoldable pub set_reference_time_pos : ℕ → CsSliceBuilder → Result CsSliceBuilder
unfolding find_axis_of_type
set_reference_time_pos ref_time_pos s = elim (find_axis_of_type axis_reference_time s.cs) [
  | none ↦ ok s
  | some ref_axis ↦
      if ref_axis.is_explicit
      then with_builder s (set_start_and_size_of_axis s.builder (some ref_axis) ref_time_pos 1)
      else ok s
]

unfoldable pub names_to_set : List String → NameSet → NameSet
names_to_set [] s = s
names_to_set (n ∷ names) s = names_to_set names (insert n tt s)

-- The names of the time variable's dimensions, without the reference time.
unfoldable pub reduced_t_shape : CsSliceBuilder → NameSet
unfolding names_to_set find_axis_of_type
reduced_t_shape s = elim (find_axis_of_type axis_reference_time s.cs) [
  | none ↦ names_to_set s.t_shape []
  | some ref_axis ↦ erase ref_axis.name (names_to_set s.t_shape [])
]

-- if (tShape.size() == 1) setStartAndSize(*(tShape.begin()), start, size);
unfoldable pub set_only : CsSliceBuilder → NameSet → ℕ → ℕ → Result CsSliceBuilder
set_only s [] start size = err cdm_exception
set_only s (n ∷ []) start size = with_builder s (set_start_and_size s.builder n.0 start size)
set_only s (n ∷ m ∷ names) start size = err cdm_exception

unfoldable pub set_time_start_and_size : ℕ → ℕ → CsSliceBuilder → Result CsSliceBuilder
unfolding get_time_axis reduced_t_shape set_only
set_time_start_and_size start size s = elim (get_time_axis s.cs) [
  | none ↦ ok s
  | some t_axis ↦
      if t_axis.is_explicit
      then with_builder s (set_start_and_size_of_axis s.builder (some t_axis) start size)
      else set_only s (reduced_t_shape s) start size
]

-- The loop over the axes, of which the explicit ones of the type are set
unfoldable pub set_axes :
    AxisType → ℕ → ℕ → List CoordinateAxis → CsSliceBuilder → Result CsSliceBuilder
set_axes axis start size [] s = ok s
set_axes axis start size (a ∷ axes) s =
    (if is_axis_type axis a && a.is_explicit
      then with_builder s (set_start_and_size_of_axis s.builder (some a) start size)
      else ok s)
    >>= set_axes axis start size axes

-- The switch over the type
unfoldable pub set_axis_start_and_size : AxisType → ℕ → ℕ → CsSliceBuilder → Result CsSliceBuilder
unfolding set_axes set_reference_time_pos set_time_start_and_size has_axis_type
set_axis_start_and_size axis start size s =
    if axis_number axis == axis_number axis_reference_time
    then set_reference_time_pos start s
    else if axis_number axis == axis_number axis_time
    then set_time_start_and_size start size s
    else if has_axis_type axis s.cs
    then set_axes axis start size (get_axes s.cs) s
    else ok s

-- The first loop of getTimeVariableSliceBuilder: the maximum sizes of the dimensions of the time
unfoldable pub time_sizes : SliceBuilder → List String → Result (List ℕ)
time_sizes sb [] = ok []
time_sizes sb (n ∷ names) = do
  pos ← get_dim_pos sb n
  max_size ← at sb.max_size pos
  rest ← time_sizes sb names
  ok (max_size ∷ rest)

-- The second loop: each dimension gets the start and size that it has.
unfoldable pub copy_slices : SliceBuilder → List String → SliceBuilder → Result SliceBuilder
copy_slices sb [] time_sb = ok time_sb
copy_slices sb (n ∷ names) time_sb = do
  pos ← get_dim_pos sb n
  start ← at sb.start pos
  size ← at sb.size pos
  time_sb' ← set_start_and_size time_sb n start size
  copy_slices sb names time_sb'

unfoldable pub get_time_variable_slice_builder : CsSliceBuilder → Result SliceBuilder
unfolding time_sizes copy_slices
get_time_variable_slice_builder s = do
  dim_size ← time_sizes s.builder s.t_shape
  time_sb ← of_sizes s.t_shape dim_size
  copy_slices s.builder s.t_shape time_sb

-- The loop of getAxisTypes
unfoldable pub types_of_names : List CoordinateAxis → List String → Result (List AxisType)
types_of_names axes [] = ok []
types_of_names axes (n ∷ names) = elim (find_if (axis_named n) axes) [
  | none ↦ err cdm_exception
  | some axis ↦ types_of_names axes names >>= λ types. ok (axis.axis_type ∷ types)
]

unfoldable pub get_axis_types : CsSliceBuilder → Result (List AxisType)
unfolding types_of_names
get_axis_types s = get_dimension_names s.builder >>= types_of_names (get_axes s.cs)

-- The end of the constructor
unfoldable pub with_t_shape : CsSliceBuilder → CsSliceBuilder
unfolding get_time_axis
with_t_shape s = elim (get_time_axis s.cs) [
  | none ↦ s
  | some t_axis ↦ record s { t_shape = t_axis.shape }
]

module _ {V : Type 0} where
  -- getCSVarFromCDM_
  unfoldable pub get_cs_var_from_cdm : Cdm V → CoordinateSystem → Result String
  get_cs_var_from_cdm c cs =
      elim (find_if (λ (v : CdmVariable V). is_cs_and_complete_for v.name cs) c.variables) [
        | none ↦ err cdm_exception
        | some v ↦ ok v.name
      ]

  -- The constructor
  unfoldable pub of_coordinate_system : Cdm V → CoordinateSystem → Result CsSliceBuilder
  unfolding get_cs_var_from_cdm set_reference_time_pos with_t_shape
  of_coordinate_system c cs = do
    var_name ← get_cs_var_from_cdm c cs
    builder ← of_variable c var_name false
    s ← set_reference_time_pos 0 (record { builder = builder; cs = cs; t_shape = [] })
    ok (with_t_shape s)
