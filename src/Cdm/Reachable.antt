-- ===== src/Cdm/Reachable.antt =====
-- The data models that the methods of CDM (src/CDM.cc) build, in any order of calls.
use fimex.Cdm.Rename.Moved.{rename_variable-WellFormed}
use fimex.Prelude.Named.{contains-remove_if}
use fimex.Cdm.RenameDimension.{rename_dimension-WellFormed}
use fimex.Cdm.Dimensions.{rename_dimension, remove_dimension, add_dimension}
use fimex.Prelude.Text.{eq_iff, contains}
use fimex.Cdm.WellFormed.Methods.{
  remove_dimension-WellFormed, add_dimension-WellFormed, remove_attribute-WellFormed,
  add_or_replace_attribute-WellFormed, add_attribute-WellFormed, remove_variable-WellFormed,
  add_variable-WellFormed,
}
use fimex.Prelude.Dict.{lookup}
use fimex.Cdm.Variables.{
  remove_attribute, add_or_replace_attribute, has_variable, add_attribute, rename_variable,
  remove_variable, add_variable,
}
use fimex.Cdm.WellFormed.{has_variable-contains, var_names, WellFormed}
use fimex.Cdm.Model.{var_named, CdmDimension, empty_cdm, CdmAttribute, Cdm, CdmVariable}
use fimex.Prelude.{◌∙◌, sym, remove_if, Bool, String, ◌≡◌, true, inl, inr, Bool-cases, arith}

-- A call of a method that changes the data model.
pub data Call (V : Type 0) : Type 0 where
  call_add_variable : CdmVariable V → Call V
  call_remove_variable : String → Call V
  call_rename_variable : String → String → Call V
  call_add_attribute : String → CdmAttribute V → Call V
  call_add_or_replace_attribute : String → CdmAttribute V → Call V
  call_remove_attribute : String → String → Call V
  call_add_dimension : CdmDimension → Call V
  call_remove_dimension : String → Bool → Call V
  call_rename_dimension : String → String → Bool → Call V

module _ {V : Type 0} where
  -- What the call leaves behind, also where it throws.
  unfoldable pub after_call : Call V → Cdm V → Cdm V
  after_call (call_add_variable v) c = (add_variable v c).1
  after_call (call_remove_variable n) c = remove_variable n c
  after_call (call_rename_variable old_name new_name) c = (rename_variable old_name new_name c).1
  after_call (call_add_attribute n a) c = (add_attribute n a c).1
  after_call (call_add_or_replace_attribute n a) c = (add_or_replace_attribute n a c).1
  after_call (call_remove_attribute n attr_name) c = remove_attribute n attr_name c
  after_call (call_add_dimension d) c = (add_dimension d c).1
  after_call (call_remove_dimension n ignore) c = (remove_dimension n ignore c).1
  after_call (call_rename_dimension old_name new_name ignore) c =
      (rename_dimension old_name new_name ignore c).1

  -- The data models that are reached from a new one.
  pub data IsReachable : Cdm V → Type 0 where
    reach_new : IsReachable empty_cdm
    reach_call : {c : Cdm V} (m : Call V) → IsReachable c → IsReachable (after_call m c)

  rename_variable-keeps :
      (old_name new_name : String) {c : Cdm V}
      → WellFormed c
      → WellFormed (rename_variable old_name new_name c).1
  rename_variable-keeps old_name new_name {c} w =
      elim (Bool-cases (has_variable old_name (remove_variable new_name c))) [
        | inl e ↦
            let h : contains old_name (var_names (remove_if (var_named new_name) c.variables))
                ≡ true =
              unfold remove_variable in
              (sym (has_variable-contains old_name (remove_variable new_name c)) ∙ e) in
            let l =
              contains-remove_if (λ (v : CdmVariable V). v.name) new_name old_name c.variables in
            rename_variable-WellFormed old_name new_name c (record {
              well_formed = w;
              differ = ground (arith, h, l, eq_iff old_name new_name, eq_iff new_name old_name);
              present = has_variable-contains old_name c ∙ ground (arith, h, l);
            })
        | inr e ↦ unfold rename_variable in rw e (remove_variable-WellFormed new_name w)
      ]

  -- Whatever calls are made on a new data model, also calls that throw: no two variables, no two
  -- dimensions and no two attributes of one owner have one name, and every list of attributes
  -- belongs to a variable that is there or to the file.
  pub IsReachable-WellFormed : {c : Cdm V} → IsReachable c → WellFormed c
  unfolding after_call
  IsReachable-WellFormed reach_new =
      unfold lookup in record { vars = tt; dims = tt; attrs = λ n a h. cc }
  IsReachable-WellFormed (reach_call m r) = keeps m (IsReachable-WellFormed r)
    where
      keeps : (m : Call V) {c : Cdm V} → WellFormed c → WellFormed (after_call m c)
      keeps (call_add_variable v) w = add_variable-WellFormed v w
      keeps (call_remove_variable n) w = remove_variable-WellFormed n w
      keeps (call_rename_variable old_name new_name) w = rename_variable-keeps old_name new_name w
      keeps (call_add_attribute n a) w = add_attribute-WellFormed n a w
      keeps (call_add_or_replace_attribute n a) w = add_or_replace_attribute-WellFormed n a w
      keeps (call_remove_attribute n attr_name) w = remove_attribute-WellFormed n attr_name w
      keeps (call_add_dimension d) w = add_dimension-WellFormed d w
      keeps (call_remove_dimension n ignore) w = remove_dimension-WellFormed n ignore w
      keeps (call_rename_dimension old_name new_name ignore) w =
          rename_dimension-WellFormed old_name new_name ignore w
