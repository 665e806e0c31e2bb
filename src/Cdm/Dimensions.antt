-- ===== src/Cdm/Dimensions.antt =====
-- The methods of CDM on dimensions (src/CDM.cc).
use fimex.Prelude.{
  Bool, true, false, ◌&&◌, not, Option, none, some, List, [], ◌∷◌, ◌++◌, String, map, any, find_if,
  remove_if, update_first, is_some, if◌then◌else◌,
}
use fimex.Prelude.Text.{str_eq, contains}
use fimex.Prelude.Result.{Result, ok, err, cdm_exception, chain}
use fimex.Cdm.Model.{Cdm, CdmVariable, CdmDimension, dim_named, check_dimension}
use fimex.Cdm.Variables.{touch}

-- The loop of renameDimension over a shape.
unfoldable pub rename_in_shape : String → String → List String → List String
rename_in_shape old_name new_name [] = []
rename_in_shape old_name new_name (d ∷ shape) =
    (if str_eq d old_name then new_name else d) ∷ rename_in_shape old_name new_name shape

module _ {V : Type 0} where
  unfoldable pub has_dimension : String → Cdm V → Bool
  has_dimension n c = is_some (find_if (dim_named n) c.dimensions)

  unfoldable pub get_dimension : String → Cdm V → Result CdmDimension
  get_dimension n c = elim (find_if (dim_named n) c.dimensions) [
    | none ↦ err cdm_exception
    | some d ↦ ok d
  ]

  unfoldable pub add_dimension : CdmDimension → Cdm V → Result (Unit {0}) × Cdm V
  unfolding has_dimension
  add_dimension d c =
      if not (has_dimension d.name c)
      then (ok tt, record c { coords_initialized = false; dimensions = c.dimensions ++ d ∷ [] })
      else (err cdm_exception, touch c)

  unfoldable pub test_dimension_in_use : String → Cdm V → Bool
  unfolding has_dimension check_dimension
  test_dimension_in_use n c = has_dimension n c && any (λ v. check_dimension v n) c.variables

  -- The result is whether an entry was erased; only then is the cache given up.
  unfoldable pub remove_dimension : String → Bool → Cdm V → Result Bool × Cdm V
  remove_dimension n ignore_in_use c =
      if not ignore_in_use && test_dimension_in_use n c
      then (err cdm_exception, c)
      else (if has_dimension n c
          then (
            ok true,
            record c {
              coords_initialized = false;
              dimensions = remove_if (dim_named n) c.dimensions;
            },
          )
          else (ok false, c))

  -- setShape on one variable
  unfoldable pub rename_shape_of : String → String → CdmVariable V → CdmVariable V
  unfolding check_dimension rename_in_shape
  rename_shape_of old_name new_name v =
      if check_dimension v old_name
      then record v { shape = rename_in_shape old_name new_name v.shape }
      else v

  -- renameDimension once the new name is free: getDimension throws where the old name is gone.
  unfoldable pub rename_free : String → String → Cdm V → Result Bool × Cdm V
  rename_free old_name new_name c =
      if has_dimension old_name c
      then (
        ok true,
        record c {
          dimensions =
              update_first (dim_named old_name) (λ d. record d { name = new_name }) c.dimensions;
          variables = map (rename_shape_of old_name new_name) c.variables;
        },
      )
      else (err cdm_exception, c)

  unfoldable pub rename_dimension : String → String → Bool → Cdm V → Result Bool × Cdm V
  rename_dimension old_name new_name ignore_in_use c0 =
      let c = touch c0 in
      if not (has_dimension old_name c)
      then (ok false, c)
      else (if has_dimension new_name c
          then (if not ignore_in_use && test_dimension_in_use new_name c
              then (err cdm_exception, c)
              else chain (remove_dimension new_name ignore_in_use c)
                  λ _ c'. rename_free old_name new_name c')
          else rename_free old_name new_name c)

  -- CDM::getUnlimitedDim, a null pointer where there is none
  unfoldable pub get_unlimited_dim : Cdm V → Option CdmDimension
  get_unlimited_dim c = find_if (λ d. d.unlimited) c.dimensions

  unfoldable pub has_unlimited_dim : CdmVariable V → Cdm V → Bool
  unfolding get_unlimited_dim contains
  has_unlimited_dim v c = elim (get_unlimited_dim c) [
    | none ↦ false
    | some d ↦ contains d.name v.shape
  ]

  -- The assignment through the reference that the non-const getDimension returns.
  unfoldable pub modify_dimension : String → (CdmDimension → CdmDimension) → Cdm V → Cdm V
  modify_dimension n f c = record c { dimensions = update_first (dim_named n) f c.dimensions }
