-- ===== src/Merge/Axes.antt =====
-- checkAxesCompatibility (src/CDMMergeUtils.cc): whether two coordinate systems have the same axes
-- but for x and y.
use fimex.CoordinateSystem.{
  axis_geo_z, axis_time, axis_pressure, axis_height, axis_depth, axis_reference_time,
}
use fimex.CoordinateSystem.{find_axis_of_type, CoordinateAxis, CoordinateSystem, AxisType}
use fimex.Cdm.Dimensions.{get_dimension}
use fimex.Prelude.Result.{◌>>=◌}
use fimex.Prelude.Result.{ok, Result}
use fimex.Cdm.Model.{CdmDimension, Cdm}
use fimex.Prelude.{
  ◌%◌, [], false, not, ◌&&◌, ◌||◌, ◌∷◌, true, ◌-◌, ltb, ◌==◌, if◌then◌else◌, Bool, ◌≡◌, ◌<◌, ◌^◌, ℕ,
  List, Option, none, some,
}

-- An `int` is its two's complement in 32 bits: -2, and the test for -1 and above.
abbrev pub minus_two : ℕ
minus_two = 2 ^ 32 - 2

unfoldable pub at_least_minus_one : ℕ → Bool
at_least_minus_one n = ltb n (2 ^ 31) || (n == 2 ^ 32 - 1)

-- The conditions of checkSingleAxisCompatibility
unfoldable pub compatible_lengths : ℕ → ℕ → Bool
compatible_lengths length_b length_t =
    if at_least_minus_one length_b && at_least_minus_one length_t && not (length_b == length_t)
    then false
    else if (length_b == minus_two) && (length_t == minus_two)
    then true
    else if ((length_b == minus_two) && not (length_t == 1))
        || (not (length_b == 1) && (length_t == minus_two))
    then false
    else true

module _ {V : Type 0} where
  unfoldable pub axis_length : Cdm V → Option CoordinateAxis → Result ℕ
  axis_length c none = ok minus_two
  axis_length c (some axis) = do dim ← get_dimension axis.name c; ok (dim.length % 2 ^ 32)

  unfoldable pub check_single_axis_compatibility :
      Cdm V → Cdm V → Option CoordinateAxis → Option CoordinateAxis → Result Bool
  check_single_axis_compatibility base top axis_b axis_t = do
    length_b ← axis_length base axis_b
    length_t ← axis_length top axis_t
    ok (compatible_lengths length_b length_t)

  -- The loop over the types of axes
  unfoldable pub check_types :
      Cdm V → Cdm V → CoordinateSystem → CoordinateSystem → List AxisType → Result Bool
  check_types base top cs_b cs_t [] = ok true
  check_types base top cs_b cs_t (type ∷ types) = do
    compatible ←
        check_single_axis_compatibility base top (find_axis_of_type type cs_b)
          (find_axis_of_type type cs_t)
    if not compatible then ok false else check_types base top cs_b cs_t types

abbrev pub checked_types : List AxisType
checked_types =
    axis_geo_z ∷ axis_time ∷ axis_pressure ∷ axis_height ∷ axis_depth ∷ axis_reference_time ∷ []

module _ {V : Type 0} where
  unfoldable pub check_axes_compatibility :
      Cdm V → Cdm V → CoordinateSystem → CoordinateSystem → Result Bool
  check_axes_compatibility base top cs_b cs_t = check_types base top cs_b cs_t checked_types

-- What the code means by compatible: an axis that is missing is one of length 1.
unfoldable pub same_extent : Option ℕ → Option ℕ → Bool
same_extent none none = true
same_extent none (some n) = n == 1
same_extent (some m) none = m == 1
same_extent (some m) (some n) = m == n

abbrev int_of : Option ℕ → ℕ
int_of none = minus_two
int_of (some n) = n

-- A length that an `int` holds
abbrev pub IsInt : Option ℕ → Type 0
IsInt none = Unit {0}
IsInt (some n) = n < 2 ^ 31

module _ {V : Type 0} where
  -- The length of the axis of a type, if there is one; its dimension exists and an `int` holds it.
  pub data HasLength (c : Cdm V) (cs : CoordinateSystem) (type : AxisType) : Option ℕ → Type 0 where
    length_none : find_axis_of_type type cs ≡ none → HasLength c cs type none
    length_some :
        (axis : CoordinateAxis) (dim : CdmDimension)
        → find_axis_of_type type cs ≡ some axis
        → get_dimension axis.name c ≡ ok dim
        → dim.length < 2 ^ 31
        → HasLength c cs type (some dim.length)
