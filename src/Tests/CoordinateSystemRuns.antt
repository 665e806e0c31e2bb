-- ===== src/Tests/CoordinateSystemRuns.antt =====
-- A coordinate system with a time and an x axis, and slices of a variable on it.
use fimex.CoordinateSystem.Invariant.{IsConsistent}
use fimex.CoordinateSystem.Slices.TimeVariable.Agrees.{
  get_time_variable_slice_builder-agrees, HasTime,
}
use fimex.CoordinateSystem.Invariant.Reached.{
  call_set_axis, call_set_complete, IsSystem-IsConsistent, call_set_cs_for, after_system_call,
  IsSystem, called, new_system,
}
use fimex.Prelude.Words.{size_mod}
use fimex.Cdm.Variables.{get_variable}
use fimex.Slice.Builder.Laws.{IsValid}
use fimex.Prelude.Text.{eq_iff, str_eq, contains}
use fimex.Prelude.Result.{ok-injective, ok}
use fimex.Slice.Builder.Set.{updated}
use fimex.CoordinateSystem.Slices.Made.{constructed, axis_set, Fits}
use fimex.Prelude.Dict.{erase, member, insert, lookup}
use fimex.Cdm.Dimensions.{get_dimension}
use fimex.Slice.Builder.{
  init, shape_dims, of_variable, check_limit, get_dim_pos, set_start_and_size,
  set_start_and_size_of_axis, get_start_and_size, initial, SliceBuilder, positions,
}
use fimex.Cdm.Model.{CdmDimension, new_dimension, new_variable, Cdm}
use fimex.CoordinateSystem.Slices.{
  with_t_shape, set_reference_time_pos, get_cs_var_from_cdm, get_time_variable_slice_builder,
  set_time_start_and_size, CsSliceBuilder, set_axis_start_and_size, of_coordinate_system,
}
use fimex.Prelude.{
  subst, ◌<◌, refl, arith, inr, String, inl, false, Bool-cases, ◌∷◌, ◌≡◌, true, [], ℕ,
}
use fimex.Cdm.DataType.{CdmDataType}
use fimex.CoordinateSystem.{
  is_cs_and_complete_for, axis_number, is_axis_type, has_type_in_axes, empty_system,
  set_insert_erase, set_cs_for, find_axis_of_type, set_complete, find_axis_of_types, get_time_axis,
  set_axis, CoordinateSystem, CoordinateAxis, axis_time, axis_geo_x,
}

abbrev series : Cdm ℕ
series = record {
  attributes = [];
  variables =
      new_variable "p" CdmDataType.int ("t" ∷ "x" ∷ [])
      ∷ new_variable "t" CdmDataType.int ("t" ∷ [])
      ∷ [];
  dimensions = new_dimension "t" 5 ∷ new_dimension "x" 3 ∷ [];
  coords_initialized = false;
}

abbrev time : CoordinateAxis
time = record { name = "t"; axis_type = axis_time; is_explicit = true; shape = "t" ∷ [] }

abbrev x_axis : CoordinateAxis
x_axis = record { name = "x"; axis_type = axis_geo_x; is_explicit = true; shape = "x" ∷ [] }

abbrev system : CoordinateSystem
system = after_system_call (call_set_cs_for "p" true) (
    after_system_call (call_set_complete "p" true) (
      after_system_call (call_set_axis x_axis)
        (after_system_call (call_set_axis time) empty_system)))

system-IsSystem : IsSystem system
system-IsSystem = called (call_set_cs_for "p" true) (
    called (call_set_complete "p" true)
      (called (call_set_axis x_axis) (called (call_set_axis time) new_system)))

IsSystem-IsConsistent_example : IsConsistent system
IsSystem-IsConsistent_example = IsSystem-IsConsistent system-IsSystem

abbrev whole : CsSliceBuilder
whole = record {
  builder = initial ("t" ∷ "x" ∷ []) (5 ∷ 3 ∷ []) (false ∷ false ∷ []);
  cs = system;
  t_shape = "t" ∷ [];
}

abbrev later_times : CsSliceBuilder
later_times = record whole { builder = updated whole.builder "t" 0 2 3 }

whole_made : of_coordinate_system series system ≡ ok whole
unfolding of_coordinate_system after_system_call set_axis set_complete set_cs_for set_insert_erase
    has_type_in_axes is_axis_type axis_number get_variable get_dimension lookup insert positions
    member erase get_cs_var_from_cdm is_cs_and_complete_for of_variable shape_dims init
    set_reference_time_pos find_axis_of_type with_t_shape get_time_axis find_axis_of_types
whole_made = refl

later_times_set : set_axis_start_and_size axis_time 2 3 whole ≡ ok later_times
unfolding set_axis_start_and_size set_time_start_and_size get_time_axis find_axis_of_types
    find_axis_of_type after_system_call set_axis set_complete set_cs_for set_insert_erase
    has_type_in_axes is_axis_type axis_number lookup insert positions set_start_and_size_of_axis
    set_start_and_size get_dim_pos check_limit
later_times_set = refl

series_fits : Fits series
unfolding get_dimension
series_fits n d h = elim (Bool-cases (str_eq n "t")) [
  | inl e ↦ below (new_dimension "t" 5) (omega arith) (rw (get_dimension, e) at h)
  | inr e ↦ elim (Bool-cases (str_eq n "x")) [
    | inl f ↦ below (new_dimension "x" 3) (omega arith) (rw (get_dimension, e, f) at h)
    | inr f ↦ absurd (cc (rw (get_dimension, e, f) at h))
  ]
]
  where
    below : (found : CdmDimension) → found.length < size_mod → ok found ≡ ok d → d.length < size_mod
    below found b q = subst (λ (d : CdmDimension). d.length < size_mod) (ok-injective q) b

later_times_known : HasTime later_times
unfolding positions lookup insert contains
later_times_known n h =
    let found : str_eq "t" n ≡ true = ground (arith, h, eq_iff "t" n, eq_iff n "t") in
    (0, rw found refl)

get_time_variable_slice_builder-agrees_example :
    (t : SliceBuilder) × (get_time_variable_slice_builder later_times ≡ ok t)
    × IsValid t
    × ((n : String)
        → contains n ("t" ∷ []) ≡ true
        → get_start_and_size t n ≡ get_start_and_size later_times.builder n)
get_time_variable_slice_builder-agrees_example =
    get_time_variable_slice_builder-agrees series later_times series_fits
      (axis_set axis_time 2 3 (omega arith) (omega arith) (constructed system whole_made)
        later_times_set)
      later_times_known
