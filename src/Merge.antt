-- ===== src/Merge.antt =====
-- Merging (src/CDMMergeUtils.cc): addAuxiliary.
pub mod Insert
pub mod Needs
pub mod Closure
pub mod Axes
pub mod Select
pub mod Compatible
use fimex.CoordinateSystem.{is_cs_and_complete_for, get_dependency_variables, CoordinateSystem}
use fimex.Prelude.Result.{ok, err}
use fimex.Cdm.Variables.{has_variable, get_variable}
use fimex.Prelude.Dict.{keys, member, insert, NameSet}
use fimex.Cdm.Model.{Cdm}
use fimex.Prelude.{
  ◌++◌, false, zero, suc, some, [], not, ◌&&◌, find_if, ◌||◌, if◌then◌else◌, none, ◌∷◌, Option,
  Bool, List, String, ℕ,
}

-- findCompleteCoordinateSystemFor
unfoldable pub find_complete_coordinate_system_for :
    List CoordinateSystem → String → Option CoordinateSystem
find_complete_coordinate_system_for coord_sys var_name =
    find_if (is_cs_and_complete_for var_name) coord_sys

-- `inserted |= variables.insert(n).second` for each of a range of names
unfoldable pub insert_all : List String → Bool × NameSet → Bool × NameSet
insert_all [] (inserted, s) = (inserted, s)
insert_all (n ∷ ns) (inserted, s) = insert_all ns (inserted || not (member n s), insert n tt s)

module _ {V : Type 0} where
  -- The loop over one shape, and the one over the variables
  unfoldable pub shape_vars : Cdm V → List String → NameSet → NameSet
  shape_vars c [] dims_vars = dims_vars
  shape_vars c (d ∷ shape) dims_vars =
      shape_vars c shape (if has_variable d c then insert d tt dims_vars else dims_vars)

  unfoldable pub dims_vars_of : Cdm V → List String → NameSet → NameSet
  dims_vars_of c [] dims_vars = dims_vars
  dims_vars_of c (n ∷ names) dims_vars =
      dims_vars_of c names
        (elim (get_variable n c) [ err e ↦ dims_vars | ok v ↦ shape_vars c v.shape dims_vars ])

-- The loop over the coordinate systems of the variables
unfoldable pub insert_dependencies :
    List CoordinateSystem → List String → Bool × NameSet → Bool × NameSet
insert_dependencies coord_sys [] s = s
insert_dependencies coord_sys (n ∷ names) s =
    insert_dependencies coord_sys names (elim (find_complete_coordinate_system_for coord_sys n) [
      | none ↦ s
      | some cs ↦ insert_all (keys (get_dependency_variables cs)) s
    ])

module _ {V : Type 0} where
  -- addAuxiliary up to its recursive call: whether a name was inserted, and the names.
  unfoldable pub auxiliary_round : Cdm V → List CoordinateSystem → NameSet → Bool × NameSet
  auxiliary_round c coord_sys variables =
      let with_dims = insert_all (keys (dims_vars_of c (keys variables) [])) (false, variables) in
      insert_dependencies coord_sys (keys with_dims.1) with_dims

  -- addAuxiliary; the fuel bounds the number of recursive calls.
  unfoldable pub add_auxiliary : ℕ → Cdm V → List CoordinateSystem → NameSet → Option NameSet
  add_auxiliary zero c coord_sys variables = none
  add_auxiliary (suc fuel) c coord_sys variables =
      let (inserted, variables') = auxiliary_round c coord_sys variables in
      let rest = add_auxiliary fuel c coord_sys variables' in
      if inserted then rest else some variables'
