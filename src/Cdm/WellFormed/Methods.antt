-- ===== src/Cdm/WellFormed/Methods.antt =====
-- Each method of the data model keeps it well formed, on its errors too.
use fimex.Prelude.Text.{str_eq_refl}
use fimex.Cdm.Lookup.{
  may_have_attributes-touch, get_attributes-remove_attribute, may_have_attributes-remove_attribute,
}
use fimex.Cdm.Dimensions.{test_dimension_in_use, has_dimension, add_dimension, remove_dimension}
use fimex.Prelude.Dict.{lookup, insert}
use fimex.Cdm.Model.{CdmDimension, attr_named, CdmVariable}
use fimex.Prelude.{
  ◌&&◌, [], not, Bool, ◌∷◌, ◌++◌, inr, any, inl, ◌∙◌, arith, sym, false, Bool-cases, Option-cases,
}
use fimex.Prelude.Named.{
  contains-append, any-contains, append-Distinct, contains-remove_if, remove_if-Distinct,
}
use fimex.Cdm.Variables.{
  touch, add_or_replace_attribute, get_attributes, has_variable, remove_variable, add_variable,
  add_attribute, remove_attribute,
}
use fimex.Cdm.WellFormed.{
  has_dimension-contains, Entries-mono, get_attributes-Distinct, has_variable-contains,
  touch-WellFormed, owned_by-may_have_attributes, Entries-insert, owned_by, Entries-erase,
  attr_names, Distinct, true, ◌≡◌, may_have_attributes, Cdm, CdmAttribute, List, remove_variable,
  add_variable, add_attribute, String, remove_attribute, WellFormed,
}

module _ {V : Type 0} where
  pub add_variable-WellFormed :
      (v : CdmVariable V) {c : Cdm V} → WellFormed c → WellFormed (add_variable v c).1
  unfolding add_variable
  add_variable-WellFormed v {c} w = elim (Bool-cases (has_variable v.name c)) [
    | inl e ↦ rw e (touch-WellFormed w)
    | inr e ↦ rw e (record {
      vars =
          append-Distinct (λ x. x.name) c.variables v w.vars
            (ground (arith, has_variable-contains v.name c));
      dims = w.dims;
      attrs =
          Entries-mono (owned_by c.variables) (owned_by (c.variables ++ v ∷ [])) c.attributes
            (λ n o. ground (arith, contains-append (λ (x : CdmVariable V). x.name) n c.variables v))
            w.attrs;
    })
  ]

  pub remove_variable-WellFormed :
      (n : String) {c : Cdm V} → WellFormed c → WellFormed (remove_variable n c)
  unfolding remove_variable
  remove_variable-WellFormed n {c} w = record {
    vars = remove_if-Distinct (λ v. v.name) n c.variables w.vars;
    dims = w.dims;
    attrs =
        Entries-erase (owned_by c.variables) _ n c.attributes
          (λ k e o.
            ground (arith, contains-remove_if (λ (v : CdmVariable V). v.name) n k c.variables))
          w.attrs;
  }

  -- One vector of attributes is replaced.
  pub put-WellFormed :
      (n : String) (attr_vec : List (CdmAttribute V)) (flag : Bool) {c : Cdm V}
      → WellFormed c
      → may_have_attributes n c ≡ true
      → Distinct (attr_names attr_vec)
      → WellFormed
          (record c { coords_initialized = flag; attributes = insert n attr_vec c.attributes })
  put-WellFormed n attr_vec flag {c} w o d = record {
    vars = w.vars;
    dims = w.dims;
    attrs =
        Entries-insert (owned_by c.variables) n attr_vec c.attributes w.attrs
          (record { owner = sym (owned_by-may_have_attributes n c) ∙ o; distinct = d });
  }

  pub add_attribute-WellFormed :
      (n : String) (a : CdmAttribute V) {c : Cdm V}
      → WellFormed c
      → WellFormed (add_attribute n a c).1
  unfolding add_attribute
  add_attribute-WellFormed n a {c} w = elim (Bool-cases (may_have_attributes n c)) [
    | inl o ↦ elim (Bool-cases (any (attr_named a.name) (get_attributes n c))) [
      | inl e ↦ rw (o, e) (put-WellFormed n _ false w o (get_attributes-Distinct n w))
      | inr e ↦
          rw (o, e)
            (put-WellFormed n _ false w o (
              append-Distinct (λ x. x.name) (get_attributes n c) a (get_attributes-Distinct n w)
                (sym (any-contains (λ x. x.name) a.name (get_attributes n c)) ∙ e)))
    ]
    | inr o ↦ rw o (touch-WellFormed w)
  ]

  pub remove_attribute-WellFormed :
      (n attr_name : String) {c : Cdm V}
      → WellFormed c
      → WellFormed (remove_attribute n attr_name c)
  unfolding remove_attribute
  remove_attribute-WellFormed n attr_name {c} w = elim (Option-cases (lookup n c.attributes)) [
    | inl e ↦ rw (e, remove_attribute) (touch-WellFormed w)
    | inr (attr_vec, e) ↦
        let en = w.attrs n attr_vec e in
        rw (e, remove_attribute)
          (put-WellFormed n _ false w (owned_by-may_have_attributes n c ∙ en.owner)
            (remove_if-Distinct (λ x. x.name) attr_name attr_vec en.distinct))
  ]

  pub add_or_replace_attribute-WellFormed :
      (n : String) (a : CdmAttribute V) {c : Cdm V}
      → WellFormed c
      → WellFormed (add_or_replace_attribute n a c).1
  unfolding add_or_replace_attribute
  add_or_replace_attribute-WellFormed n a {c} w = elim (Bool-cases (may_have_attributes n c)) [
    | inl o ↦
        let c' = remove_attribute n a.name (touch c) in
        let w' = remove_attribute-WellFormed n a.name (touch-WellFormed w) in
        rw o (
          put-WellFormed n _ c'.coords_initialized w'
            (may_have_attributes-remove_attribute n n a.name (touch c)
              ∙ may_have_attributes-touch n c
              ∙ o)
            (append-Distinct (λ x. x.name) (get_attributes n c') a (get_attributes-Distinct n w')
              (rw get_attributes-remove_attribute
                (contains-remove_if (λ x. x.name) a.name a.name _ ∙ rw str_eq_refl))))
    | inr o ↦ rw o (touch-WellFormed w)
  ]

  pub add_dimension-WellFormed :
      (d : CdmDimension) {c : Cdm V} → WellFormed c → WellFormed (add_dimension d c).1
  unfolding add_dimension
  add_dimension-WellFormed d {c} w = elim (Bool-cases (has_dimension d.name c)) [
    | inl e ↦ rw e (touch-WellFormed w)
    | inr e ↦ rw e (record {
      vars = w.vars;
      dims =
          append-Distinct (λ x. x.name) c.dimensions d w.dims
            (sym (has_dimension-contains d.name c) ∙ e);
      attrs = w.attrs;
    })
  ]

  pub remove_dimension-WellFormed :
      (n : String) (ignore : Bool) {c : Cdm V}
      → WellFormed c
      → WellFormed (remove_dimension n ignore c).1
  unfolding remove_dimension
  remove_dimension-WellFormed n ignore {c} w =
      elim (Bool-cases (not ignore && test_dimension_in_use n c)) [
        | inl e ↦ rw e w
        | inr e ↦ elim (Bool-cases (has_dimension n c)) [
          | inl h ↦
              rw (e, h)
                (record {
                  vars = w.vars;
                  dims = remove_if-Distinct (λ d. d.name) n c.dimensions w.dims;
                  attrs = w.attrs;
                })
          | inr h ↦ rw (e, h) w
        ]
      ]
