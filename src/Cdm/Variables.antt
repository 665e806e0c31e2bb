-- ===== src/Cdm/Variables.antt =====
-- The methods of CDM on variables and attributes (src/CDM.cc).
use fimex.Prelude.{
  Bool, false, not, Option, none, some, List, [], ◌∷◌, ◌++◌, String, find_if, any, ◌||◌, remove_if,
  update_first, is_some, if◌then◌else◌,
}
use fimex.Prelude.Text.{str_eq}
use fimex.Prelude.Result.{Result, ok, err, cdm_exception, chain, for_each, succeeded}
use fimex.Prelude.Dict.{lookup, insert, erase}
use fimex.Cdm.Model.{Cdm, CdmVariable, CdmAttribute, var_named, attr_named, global_attribute_ns}

module _ {V : Type 0} where
  -- Every mutation first gives up the cached coordinate systems.
  abbrev pub touch : Cdm V → Cdm V
  touch c = record c { coords_initialized = false }

  unfoldable pub has_variable : String → Cdm V → Bool
  has_variable n c = is_some (find_if (var_named n) c.variables)

  unfoldable pub get_variable : String → Cdm V → Result (CdmVariable V)
  get_variable n c = elim (find_if (var_named n) c.variables) [
    | none ↦ err cdm_exception
    | some v ↦ ok v
  ]

  unfoldable pub add_variable : CdmVariable V → Cdm V → Result (Unit {0}) × Cdm V
  unfolding has_variable
  add_variable v c =
      if not (has_variable v.name c)
      then (ok tt, record c { coords_initialized = false; variables = c.variables ++ v ∷ [] })
      else (err cdm_exception, touch c)

  unfoldable pub remove_variable : String → Cdm V → Cdm V
  remove_variable n c = record c {
    coords_initialized = false;
    variables = remove_if (var_named n) c.variables;
    attributes = erase n c.attributes;
  }

  -- CDM::getAttributes(varName): none where the map has no entry.
  unfoldable pub get_attributes : String → Cdm V → List (CdmAttribute V)
  get_attributes n c = elim (lookup n c.attributes) [ none ↦ [] | some attr_vec ↦ attr_vec ]

  -- The test that addAttribute and addOrReplaceAttribute begin with.
  unfoldable pub may_have_attributes : String → Cdm V → Bool
  unfolding has_variable
  may_have_attributes n c = str_eq n global_attribute_ns || has_variable n c

  unfoldable pub add_attribute : String → CdmAttribute V → Cdm V → Result (Unit {0}) × Cdm V
  unfolding may_have_attributes get_attributes
  add_attribute n a c =
      if may_have_attributes n c
      then (let attr_vec = get_attributes n c in
          if any (attr_named a.name) attr_vec
          then (
            err cdm_exception,
            record c { coords_initialized = false; attributes = insert n attr_vec c.attributes },
          )
          else (
            ok tt,
            record c {
              coords_initialized = false;
              attributes = insert n (attr_vec ++ a ∷ []) c.attributes;
            },
          ))
      else (err cdm_exception, touch c)

  unfoldable pub remove_attribute : String → String → Cdm V → Cdm V
  remove_attribute n attr_name c = elim (lookup n c.attributes) [
    | none ↦ touch c
    | some attr_vec ↦ record c {
      coords_initialized = false;
      attributes = insert n (remove_if (attr_named attr_name) attr_vec) c.attributes;
    }
  ]

  unfoldable pub add_or_replace_attribute :
      String → CdmAttribute V → Cdm V → Result (Unit {0}) × Cdm V
  add_or_replace_attribute n a c =
      if may_have_attributes n c
      then (let c' = remove_attribute n a.name (touch c) in
          (
            ok tt,
            record c' { attributes = insert n (get_attributes n c' ++ a ∷ []) c'.attributes },
          ))
      else (err cdm_exception, touch c)

  -- CDM::getAttribute(varName, attrName, retAttribute), and hasAttribute by its success.
  unfoldable pub get_attribute : String → String → Cdm V → Option (CdmAttribute V)
  get_attribute n attr_name c = elim (lookup n c.attributes) [
    | none ↦ none
    | some attr_vec ↦ find_if (attr_named attr_name) attr_vec
  ]

  unfoldable pub has_attribute : String → String → Cdm V → Bool
  unfolding get_attribute
  has_attribute n attr_name c = is_some (get_attribute n attr_name c)

  -- The assignment through the reference that the non-const getVariable returns.
  unfoldable pub modify_variable : String → (CdmVariable V → CdmVariable V) → Cdm V → Cdm V
  modify_variable n f c = record c { variables = update_first (var_named n) f c.variables }

  -- The part of renameVariable after the old name was found. An exception ends in `false`, and
  -- what was done before it stays done.
  unfoldable pub move_attributes : String → String → Cdm V → Bool × Cdm V
  move_attributes old_name new_name c = succeeded {0, 0} (
      chain (for_each (get_attributes old_name c) (add_attribute new_name) c)
        λ _ c'. (ok tt, remove_variable old_name c'))

  unfoldable pub rename_variable : String → String → Cdm V → Bool × Cdm V
  rename_variable old_name new_name c =
      let c' = remove_variable new_name c in
      if has_variable old_name c'
      then move_attributes old_name new_name
          (modify_variable old_name (λ v. record v { name = new_name }) c')
      else (false, c')
