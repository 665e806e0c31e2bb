-- ===== src/Cdm/WellFormed.antt =====
-- The invariant of the data model: names are unique, and attributes belong to something.
pub mod Methods
use fimex.Prelude.{
  ◌≡◌, refl, ◌⊎◌, inl, inr, ◌||◌, Bool, true, false, Option, none, some, List, [], ◌∷◌, ◌++◌,
  String, arith, Bool-cases, Option-cases, remove_if, map, if◌then◌else◌,
}
use fimex.Prelude.Text.{str_eq, eq_iff, contains, str_eq_refl}
use fimex.Prelude.Result.{Result, ok, err, for_each}
use fimex.Prelude.Dict.{Dict, lookup, insert, erase, lookup-insert, lookup-erase}
use fimex.Prelude.Named.{
  contains-update_first_lem, Distinct, names, find_if-contains, any-contains, contains-append,
  contains-remove_if, append-Distinct, remove_if-Distinct, update_first-Distinct,
  names-update_first,
}
use fimex.Cdm.Model.{Cdm, CdmVariable, CdmAttribute, CdmDimension, attr_named, global_attribute_ns}
use fimex.Cdm.Variables.{
  touch, has_variable, may_have_attributes, get_attributes, add_variable, remove_variable,
  add_attribute, remove_attribute, add_or_replace_attribute, rename_variable, move_attributes,
  modify_variable,
}
use fimex.Cdm.Dimensions.{
  has_dimension, add_dimension, remove_dimension, rename_dimension, rename_free, rename_shape_of,
}

module _ {V : Type 0} where
  abbrev pub var_names : List (CdmVariable V) → List String
  var_names = names (λ v. v.name)

  abbrev pub attr_names : List (CdmAttribute V) → List String
  attr_names = names (λ a. a.name)

  -- Attributes belong to a variable that is there, or to the file, and their names differ.
  pub record Entry (owned : String → Bool) (n : String) (attr_vec : List (CdmAttribute V))
      : Type 0 where
    pub owner : owned n ≡ true
    pub distinct : Distinct (attr_names attr_vec)

  abbrev pub owned_by : List (CdmVariable V) → String → Bool
  owned_by vars n = str_eq n global_attribute_ns || contains n (var_names vars)

abbrev pub dim_names : List CdmDimension → List String
dim_names = names (λ d. d.name)

module _ {V : Type 0} where
  abbrev pub Entries : (String → Bool) → Dict (List (CdmAttribute V)) → Type 0
  Entries owned m =
      (n : String) (attr_vec : List (CdmAttribute V))
      → lookup n m ≡ some attr_vec
      → Entry owned n attr_vec

  pub record WellFormed (c : Cdm V) : Type 0 where
    pub vars : Distinct (var_names c.variables)
    pub dims : Distinct (dim_names c.dimensions)
    pub attrs : Entries (owned_by c.variables) c.attributes

  pub has_variable-contains :
      (n : String) (c : Cdm V) → has_variable n c ≡ contains n (var_names c.variables)
  unfolding has_variable
  has_variable-contains n c = find_if-contains (λ v. v.name) n c.variables

  pub has_dimension-contains :
      (n : String) (c : Cdm V) → has_dimension n c ≡ contains n (dim_names c.dimensions)
  unfolding has_dimension
  has_dimension-contains n c = find_if-contains (λ d. d.name) n c.dimensions

  pub owned_by-may_have_attributes :
      (n : String) (c : Cdm V) → may_have_attributes n c ≡ owned_by c.variables n
  unfolding may_have_attributes
  owned_by-may_have_attributes n c = rw (has_variable-contains n c)

  -- More owners.
  pub Entries-mono :
      (owned owned' : String → Bool) (m : Dict (List (CdmAttribute V)))
      → ((n : String) → owned n ≡ true → owned' n ≡ true)
      → Entries owned m
      → Entries owned' m
  Entries-mono owned owned' m grow es n attr_vec h =
      let en = es n attr_vec h in record { owner = grow n en.owner; distinct = en.distinct }

  pub Entries-insert :
      (owned : String → Bool) (k : String) (new_vec : List (CdmAttribute V))
      (m : Dict (List (CdmAttribute V)))
      → Entries owned m
      → Entry owned k new_vec
      → Entries owned (insert k new_vec m)
  Entries-insert owned k new_vec m es en n attr_vec h = elim (Bool-cases (str_eq k n)) [
    | inl e ↦
        let q : k ≡ n = (eq_iff k n).0 e in
        let p : attr_vec ≡ new_vec = ground (arith, lookup-insert k n new_vec m) in rw (p, ← q) en
    | inr e ↦ es n attr_vec (ground (arith, lookup-insert k n new_vec m))
  ]

  pub Entries-erase :
      (owned owned' : String → Bool) (k : String) (m : Dict (List (CdmAttribute V)))
      → ((n : String) → str_eq k n ≡ false → owned n ≡ true → owned' n ≡ true)
      → Entries owned m
      → Entries owned' (erase k m)
  Entries-erase owned owned' k m keep es n attr_vec h = elim (Bool-cases (str_eq k n)) [
    | inl e ↦ absurd (ground (arith, lookup-erase k n m))
    | inr e ↦
        let en = es n attr_vec (ground (arith, lookup-erase k n m)) in
        record { owner = keep n e en.owner; distinct = en.distinct }
  ]

  pub get_attributes-Distinct :
      (n : String) {c : Cdm V} → WellFormed c → Distinct (attr_names (get_attributes n c))
  unfolding get_attributes
  get_attributes-Distinct n {c} w = elim (Option-cases (lookup n c.attributes)) [
    | inl e ↦ rw (e, get_attributes) tt
    | inr (attr_vec, e) ↦ rw (e, get_attributes) (w.attrs n attr_vec e).distinct
  ]

  pub touch-WellFormed : {c : Cdm V} → WellFormed c → WellFormed (touch c)
  touch-WellFormed w = record { vars = w.vars; dims = w.dims; attrs = w.attrs }
