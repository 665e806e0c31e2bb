-- ===== src/Cdm/Lookup.antt =====
-- What the methods on attributes leave to be found.
use fimex.Prelude.Text.{str_eq, str_eq_refl}
use fimex.Prelude.Dict.{lookup-erase, insert, Dict, lookup-insert, lookup}
use fimex.Cdm.Model.{CdmVariable, CdmAttribute, attr_named, Cdm}
use fimex.Cdm.Variables.{
  remove_variable, modify_variable, touch, get_attributes, may_have_attributes, remove_attribute,
}
use fimex.Prelude.{
  Bool-cases, [], if◌then◌else◌, some, List, inr, inl, Option-cases, arith, remove_if, String, ◌≡◌,
  refl,
}

module _ {V : Type 0} where
  pub get_attributes-remove_attribute :
      (n attr_name : String) (c : Cdm V)
      → get_attributes n (remove_attribute n attr_name c)
        ≡ remove_if (attr_named attr_name) (get_attributes n c)
  unfolding get_attributes remove_attribute
  get_attributes-remove_attribute n attr_name c = elim (Option-cases (lookup n c.attributes)) [
    | inl e ↦ rw (e, get_attributes, remove_attribute, e) refl
    | inr (attr_vec, e) ↦ ground (
      arith,
      lookup-insert n n (remove_if (attr_named attr_name) attr_vec) c.attributes,
      str_eq_refl n,
    )
  ]

  pub variables-remove_attribute :
      (n attr_name : String) (c : Cdm V) → (remove_attribute n attr_name c).variables ≡ c.variables
  unfolding remove_attribute
  variables-remove_attribute n attr_name c = ground arith

  pub may_have_attributes-remove_attribute :
      (k n attr_name : String) (c : Cdm V)
      → may_have_attributes k (remove_attribute n attr_name c) ≡ may_have_attributes k c
  unfolding may_have_attributes
  may_have_attributes-remove_attribute k n attr_name c =
      rw (variables-remove_attribute n attr_name c)

  pub may_have_attributes-touch :
      (k : String) (c : Cdm V) → may_have_attributes k (touch c) ≡ may_have_attributes k c
  unfolding may_have_attributes
  may_have_attributes-touch k c = refl

  pub get_attributes-insert :
      (k : String) (attr_vec : List (CdmAttribute V)) (m : Dict (List (CdmAttribute V))) (c : Cdm V)
      → c.attributes ≡ insert k attr_vec m
      → get_attributes k c ≡ attr_vec
  unfolding get_attributes
  get_attributes-insert k attr_vec m c h =
      ground (arith, lookup-insert k k attr_vec m, str_eq_refl k)

  pub get_attributes-eq_of_lookup :
      (k : String) (c : Cdm V) {attr_vec : List (CdmAttribute V)}
      → lookup k c.attributes ≡ some attr_vec
      → get_attributes k c ≡ attr_vec
  unfolding get_attributes
  get_attributes-eq_of_lookup k c h = ground arith

  pub get_attributes-ap :
      (k : String) (c c' : Cdm V)
      → lookup k c.attributes ≡ lookup k c'.attributes
      → get_attributes k c ≡ get_attributes k c'
  unfolding get_attributes
  get_attributes-ap k c c' h = ground arith

  pub get_attributes-remove_variable :
      (k n : String) (c : Cdm V)
      → get_attributes k (remove_variable n c) ≡ (if str_eq n k then [] else get_attributes k c)
  unfolding get_attributes remove_variable
  get_attributes-remove_variable k n c = elim (Bool-cases (str_eq n k)) [
    | inl e ↦ rw e (ground (arith, lookup-erase n k c.attributes))
    | inr e ↦ rw e (ground (arith, lookup-erase n k c.attributes))
  ]

  pub get_attributes-modify_variable :
      (k n : String) (f : CdmVariable V → CdmVariable V) (c : Cdm V)
      → get_attributes k (modify_variable n f c) ≡ get_attributes k c
  unfolding get_attributes modify_variable
  get_attributes-modify_variable k n f c = refl
