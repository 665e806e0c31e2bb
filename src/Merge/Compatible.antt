-- ===== src/Merge/Compatible.antt =====
-- is_compatible (src/CDMMergeUtils.cc): whether a variable of two readers may be merged.
use fimex.Prelude.Text.{str_eq}
use fimex.Cdm.Variables.{has_variable, get_variable}
use fimex.Cdm.Dimensions.{get_dimension}
use fimex.CoordinateSystem.{CoordinateSystem, get_geo_y_axis, get_geo_x_axis}
use fimex.Merge.{find_complete_coordinate_system_for}
use fimex.Cdm.Model.{CdmDimension, Cdm}
use fimex.Merge.Axes.{check_axes_compatibility}
use fimex.Prelude.{
  [], zero, ◌==◌, ◌||◌, ◌&&◌, length, if◌then◌else◌, suc, ◌∷◌, not, List, Option, Bool, String, ℕ,
  none, some, true, false,
}
use fimex.Prelude.Result.{ok, err, Result, ◌>>=◌}

-- What is returned or thrown; none where a null pointer is followed.
abbrev pub Checked : Type 0
Checked = Option (Result Bool)

unfoldable pub names_eq : List String → List String → Bool
names_eq [] [] = true
names_eq (n ∷ names) (m ∷ others) = str_eq n m && names_eq names others
names_eq _ _ = false

-- A call whose exception ends the function
abbrev then_check : Result Bool → (Bool → Checked) → Checked
then_check (err e) next = some (err e)
then_check (ok b) next = next b

-- Is a dimension an axis, and the same axis, in both systems? Where it is neither x nor y, the
-- lengths count.
unfoldable pub compatible_kinds : Bool → Bool → Bool → Bool → Result Bool → Result Bool
compatible_kinds is_x_b is_x_t is_y_b is_y_t lengths =
    if bool_differs is_x_b is_x_t || bool_differs is_y_b is_y_t
    then ok false
    else if is_x_b || is_y_b
    then ok true
    else lengths
  where
    bool_differs : Bool → Bool → Bool
    bool_differs true b = not b
    bool_differs false b = b

-- The body of the loop behind the dimensions of length 1, with the next round
unfoldable pub at_dimensions :
    (String → String → Checked)
    → (List String → List String → Checked)
    → List String
    → List String
    → Checked
at_dimensions same next [] [] = some (ok true)
at_dimensions same next [] (t ∷ top) = some (ok false)
at_dimensions same next (b ∷ base) [] = some (ok false)
at_dimensions same next (b ∷ base) (t ∷ top) = elim (same b t) [
  | none ↦ none
  | some r ↦ then_check r (λ compatible. if compatible then next base top else some (ok false))
]

module _ {V : Type 0} where
  -- The dimensions of length 1 are passed over.
  unfoldable pub hop : Cdm V → List String → Result (List String)
  hop c [] = ok []
  hop c (n ∷ shape) = get_dimension n c >>= λ (d : CdmDimension).
      if d.length == 1 then hop c shape else ok (n ∷ shape)

  unfoldable pub equal_lengths : Cdm V → Cdm V → String → String → Result Bool
  equal_lengths cdm_b cdm_t b t = get_dimension b cdm_b >>= λ (d : CdmDimension).
      get_dimension t cdm_t >>= λ (e : CdmDimension). ok (d.length == e.length)

  unfoldable pub same_dimension :
      Cdm V → Cdm V → CoordinateSystem → CoordinateSystem → String → String → Checked
  unfolding compatible_kinds equal_lengths get_geo_x_axis get_geo_y_axis
  same_dimension cdm_b cdm_t cs_b cs_t b t = elim (get_geo_x_axis cs_b) [
    | none ↦ none
    | some x_b ↦ elim (get_geo_x_axis cs_t) [
      | none ↦ none
      | some x_t ↦ elim (get_geo_y_axis cs_b) [
        | none ↦ none
        | some y_b ↦ elim (get_geo_y_axis cs_t) [
          | none ↦ none
          | some y_t ↦ some (
              compatible_kinds (str_eq b x_b.name) (str_eq t x_t.name) (str_eq b y_b.name)
                (str_eq t y_t.name) (equal_lengths cdm_b cdm_t b t))
        ]
      ]
    ]
  ]

  -- The loop, which goes on as long as both shapes have dimensions. Each round takes one of the base
  -- at least, so that the fuel is the length of its shape.
  unfoldable pub compatible_shapes :
      ℕ → Cdm V → Cdm V → CoordinateSystem → CoordinateSystem → List String → List String → Checked
  unfolding hop same_dimension at_dimensions
  compatible_shapes zero cdm_b cdm_t cs_b cs_t shape_b shape_t = some (ok true)
  compatible_shapes (suc fuel) cdm_b cdm_t cs_b cs_t [] shape_t = some (ok true)
  compatible_shapes (suc fuel) cdm_b cdm_t cs_b cs_t (b ∷ base) [] = some (ok true)
  compatible_shapes (suc fuel) cdm_b cdm_t cs_b cs_t (b ∷ base) (t ∷ top) =
      elim (hop cdm_b (b ∷ base)) [
        | err e ↦ some (err e)
        | ok rest_b ↦ elim (hop cdm_t (t ∷ top)) [
          | err e ↦ some (err e)
          | ok rest_t ↦
              at_dimensions (same_dimension cdm_b cdm_t cs_b cs_t)
                (compatible_shapes fuel cdm_b cdm_t cs_b cs_t) rest_b rest_t
        ]
      ]

  -- The end of is_compatible, for the coordinate systems that were found
  unfoldable pub compatible_systems :
      Cdm V → Cdm V → CoordinateSystem → CoordinateSystem → String → Checked
  unfolding compatible_shapes names_eq check_axes_compatibility get_variable
  compatible_systems cdm_b cdm_t cs_b cs_t var_name =
      then_check (check_axes_compatibility cdm_b cdm_t cs_b cs_t) (λ compatible.
        if not compatible then some (ok false) else elim (get_variable var_name cdm_b) [
          | err e ↦ some (err e)
          | ok var_b ↦ elim (get_variable var_name cdm_t) [
            | err e ↦ some (err e)
            | ok var_t ↦
                if names_eq var_b.shape var_t.shape
                then some (ok true)
                else compatible_shapes (length var_b.shape) cdm_b cdm_t cs_b cs_t var_b.shape
                    var_t.shape
          ]
        ])

  unfoldable pub is_compatible :
      Cdm V → Cdm V → List CoordinateSystem → List CoordinateSystem → String → Checked
  unfolding compatible_systems find_complete_coordinate_system_for has_variable
  is_compatible cdm_b cdm_t all_cs_b all_cs_t var_name =
      if not (has_variable var_name cdm_t && has_variable var_name cdm_b)
      then some (ok false)
      else elim (find_complete_coordinate_system_for all_cs_b var_name) [
        | none ↦ elim (find_complete_coordinate_system_for all_cs_t var_name) [
          | none ↦ some (ok true)
          | some cs_t ↦ some (ok false)
        ]
        | some cs_b ↦ elim (find_complete_coordinate_system_for all_cs_t var_name) [
          | none ↦ some (ok false)
          | some cs_t ↦ compatible_systems cdm_b cdm_t cs_b cs_t var_name
        ]
      ]
