-- ===== src/Cdm/Rename/Moved.antt =====
-- CDM::renameVariable: the variable moves to the new name with its attributes.
use fimex.Prelude.Dict.{lookup, lookup-erase, erase}
use fimex.Cdm.Rename.{add_all, Added}
use fimex.Prelude.Result.{chain-eq_of_ok, succeeded, for_each}
use fimex.Cdm.Lookup.{
  get_attributes-eq_of_lookup, get_attributes-ap, get_attributes-remove_variable,
  get_attributes-modify_variable,
}
use fimex.Prelude.Named.Search.{find_if-update_first, find_if-remove_if, mapped}
use fimex.Prelude.Named.{
  update_first-Distinct, contains-update_first_lem, contains-remove_if, remove_if-Distinct,
  Distinct,
}
use fimex.Cdm.Variables.{
  add_attribute, move_attributes, rename_variable, has_variable, remove_variable, modify_variable,
  get_attributes, may_have_attributes,
}
use fimex.Prelude.Text.{str_eq_refl, eq_iff, str_eq, contains}
use fimex.Cdm.Model.{var_named, CdmVariable, Cdm}
use fimex.Prelude.{
  sym, some, ◌++◌, ap₂, inr, inl, Bool-cases, ap, ◌∙◌, refl, update_first, none, if◌then◌else◌,
  find_if, arith, true, false, [], remove_if, ◌≡◌, List, Bool, String,
}
use fimex.Cdm.WellFormed.{
  Entries, owned_by, get_attributes-Distinct, owned_by-may_have_attributes, has_variable-contains,
  var_names, WellFormed,
}

module _ {V : Type 0} where
  -- The class of inputs that renameVariable is meant for.
  pub record CanRename (old_name new_name : String) (c : Cdm V) : Type 0 where
    pub well_formed : WellFormed c
    pub differ : str_eq old_name new_name ≡ false
    pub present : has_variable old_name c ≡ true

  -- What is found afterwards.
  pub record Renamed (old_name new_name : String) (c : Cdm V) (r : Bool × Cdm V) : Type 0 where
    pub reported : r.0 ≡ true
    pub variables :
        (k : String)
        → find_if (var_named k) r.1.variables ≡ (
            if str_eq k old_name
            then none
            else (if str_eq k new_name
                then mapped
                    (λ v. v.name)
                    (λ v. record v { name = new_name })
                    (find_if (var_named old_name) c.variables)
                else find_if (var_named k) c.variables))
    pub attributes :
        (k : String)
        → get_attributes k r.1 ≡ (
            if str_eq k old_name
            then []
            else (if str_eq k new_name then get_attributes old_name c else get_attributes k c))
    pub dimensions : r.1.dimensions ≡ c.dimensions

module _ {V : Type 0} (old_name new_name : String) (c : Cdm V)
    (can : CanRename old_name new_name c) where
  abbrev to_new : CdmVariable V → CdmVariable V
  to_new v = record v { name = new_name }

  -- The state before the loop over the attributes.
  abbrev renamed : Cdm V
  renamed = modify_variable old_name to_new (remove_variable new_name c)

  abbrev kept : List (CdmVariable V)
  kept = remove_if (var_named new_name) c.variables

  kept_old : contains old_name (var_names kept) ≡ true
  kept_old = ground (
    arith,
    contains-remove_if (λ (v : CdmVariable V). v.name) new_name old_name c.variables,
    eq_iff new_name old_name,
    eq_iff old_name new_name,
    can.differ,
    can.present,
    has_variable-contains old_name c,
  )

  kept_new : contains new_name (var_names kept) ≡ false
  kept_new = ground (
    arith,
    contains-remove_if (λ (v : CdmVariable V). v.name) new_name new_name c.variables,
    str_eq_refl new_name,
  )

  kept-Distinct : Distinct (var_names kept)
  kept-Distinct = remove_if-Distinct (λ v. v.name) new_name c.variables can.well_formed.vars

  differ' : str_eq new_name old_name ≡ false
  differ' = ground (arith, eq_iff new_name old_name, eq_iff old_name new_name, can.differ)

  old_attributes : get_attributes old_name renamed ≡ get_attributes old_name c
  old_attributes =
      get_attributes-modify_variable old_name old_name to_new (remove_variable new_name c)
      ∙ get_attributes-remove_variable old_name new_name c
      ∙ rw differ'

  no_new_attributes : get_attributes new_name renamed ≡ []
  no_new_attributes =
      get_attributes-modify_variable new_name old_name to_new (remove_variable new_name c)
      ∙ get_attributes-remove_variable new_name new_name c
      ∙ rw (str_eq_refl new_name)

  variables-renamed : renamed.variables ≡ update_first (var_named old_name) to_new kept
  unfolding modify_variable remove_variable
  variables-renamed = refl

  owner : may_have_attributes new_name renamed ≡ true
  owner =
      owned_by-may_have_attributes new_name renamed
      ∙ ap (λ vs. owned_by vs new_name) variables-renamed
      ∙ ground (
        arith,
        contains-update_first_lem (λ (v : CdmVariable V). v.name) old_name new_name new_name to_new
            kept (λ v. refl) kept-Distinct kept_old,
        str_eq_refl new_name,
      )

  -- The loop over the attributes, which throws nothing.
  added :
      Added new_name
        (get_attributes old_name renamed)
        renamed
        (for_each (get_attributes old_name renamed) (add_attribute new_name) renamed)
  added =
      add_all new_name (get_attributes old_name renamed) renamed owner
        (rw (no_new_attributes, old_attributes) (get_attributes-Distinct old_name can.well_formed))

  -- The state after the loop.
  abbrev copied : Cdm V
  copied = (for_each (get_attributes old_name renamed) (add_attribute new_name) renamed).1

  rename_variable_lem :
      rename_variable old_name new_name c ≡ (true, remove_variable old_name copied)
  unfolding rename_variable move_attributes
  rename_variable_lem =
      let e : has_variable old_name (remove_variable new_name c) ≡ true =
        has_variable-contains old_name (remove_variable new_name c)
        ∙ (unfold remove_variable in kept_old) in
      rw e (ap succeeded (chain-eq_of_ok _ _ added.done))

  abbrev final_variables : List (CdmVariable V)
  final_variables = remove_if (var_named old_name) (update_first (var_named old_name) to_new kept)

  variables-final : (remove_variable old_name copied).variables ≡ final_variables
  unfolding remove_variable
  variables-final = ap (remove_if (var_named old_name)) (added.same_vars ∙ variables-renamed)

  found :
      (k : String)
      → find_if (var_named k) final_variables ≡ (
          if str_eq k old_name
          then none
          else (if str_eq k new_name
              then mapped (λ v. v.name) to_new (find_if (var_named old_name) c.variables)
              else find_if (var_named k) c.variables))
  found k = ground (
    arith,
    find_if-remove_if (λ v. v.name) old_name k (update_first (var_named old_name) to_new kept),
    find_if-update_first (λ v. v.name) old_name new_name k to_new kept (λ v. refl) kept_new
        kept-Distinct,
    find_if-remove_if (λ v. v.name) new_name old_name c.variables,
    find_if-remove_if (λ v. v.name) new_name k c.variables,
    differ',
    eq_iff old_name k,
    eq_iff k old_name,
    eq_iff new_name k,
    eq_iff k new_name,
  )

  attributes_found :
      (k : String)
      → get_attributes k (remove_variable old_name copied) ≡ (
          if str_eq k old_name
          then []
          else (if str_eq k new_name then get_attributes old_name c else get_attributes k c))
  attributes_found k = elim (Bool-cases (str_eq k old_name)) [
    | inl e ↦
        get_attributes-remove_variable k old_name copied
        ∙ ground (arith, eq_iff old_name k, eq_iff k old_name)
    | inr e ↦
        get_attributes-remove_variable k old_name copied
        ∙ (let d : str_eq old_name k ≡ false =
              ground (arith, eq_iff old_name k, eq_iff k old_name) in
            rw (d, e)
              (elim (Bool-cases (str_eq k new_name)) [
                | inl n ↦
                    let q : k ≡ new_name = (eq_iff k new_name).0 n in
                    rw (n, q) (added.here ∙ ap₂ ◌++◌ no_new_attributes old_attributes)
                | inr n ↦
                    let z : str_eq new_name k ≡ false =
                      ground (arith, eq_iff new_name k, eq_iff k new_name) in
                    rw n (
                      get_attributes-ap k copied renamed (added.there k z)
                      ∙ get_attributes-modify_variable k old_name to_new
                          (remove_variable new_name c)
                      ∙ get_attributes-remove_variable k new_name c
                      ∙ rw z)
              ]))
  ]

  dimensions-final : (remove_variable old_name copied).dimensions ≡ c.dimensions
  unfolding remove_variable modify_variable
  dimensions-final = added.same_dims

  -- renameVariable moves the variable and its attributes, and leaves everything else that is not
  -- called by the new name as it was.
  pub rename_variable-Renamed : Renamed old_name new_name c (rename_variable old_name new_name c)
  rename_variable-Renamed = rw rename_variable_lem (record {
    reported = refl;
    variables = λ k. rw variables-final (found k);
    attributes = attributes_found;
    dimensions = dimensions-final;
  })

  owner_kept :
      (n : String)
      → str_eq old_name n ≡ false
      → owned_by c.variables n ≡ true
      → owned_by final_variables n ≡ true
  owner_kept n d o = ground (
    arith,
    contains-remove_if (λ (v : CdmVariable V). v.name) old_name n
        (update_first (var_named old_name) to_new kept),
    contains-update_first_lem (λ (v : CdmVariable V). v.name) old_name new_name n to_new kept
        (λ v. refl) kept-Distinct kept_old,
    contains-remove_if (λ (v : CdmVariable V). v.name) new_name n c.variables,
    eq_iff old_name n,
    eq_iff n old_name,
    eq_iff new_name n,
    eq_iff n new_name,
  )

  new_owner : owned_by final_variables new_name ≡ true
  new_owner = ground (
    arith,
    contains-remove_if (λ (v : CdmVariable V). v.name) old_name new_name
        (update_first (var_named old_name) to_new kept),
    contains-update_first_lem (λ (v : CdmVariable V). v.name) old_name new_name new_name to_new kept
        (λ v. refl) kept-Distinct kept_old,
    str_eq_refl new_name,
    can.differ,
  )

  entries : Entries (owned_by final_variables) (erase old_name copied.attributes)
  unfolding modify_variable remove_variable
  entries n attr_vec h =
      let d : str_eq old_name n ≡ false =
        ground (arith, lookup-erase old_name n copied.attributes) in
      let l : lookup n copied.attributes ≡ some attr_vec =
        ground (arith, lookup-erase old_name n copied.attributes) in
      elim (Bool-cases (str_eq new_name n)) [
        | inl e ↦
            let q : new_name ≡ n = (eq_iff new_name n).0 e in
            let p : get_attributes old_name c ≡ attr_vec =
              sym (added.here ∙ ap₂ ◌++◌ no_new_attributes old_attributes)
              ∙ get_attributes-eq_of_lookup new_name copied
                  (ap (λ k. lookup k copied.attributes) q ∙ l) in
            record {
              owner = rw (← q) new_owner;
              distinct = rw (← p) (get_attributes-Distinct old_name can.well_formed);
            }
        | inr e ↦
            let en =
              can.well_formed.attrs n attr_vec
                (ground (arith, added.there n e, lookup-erase new_name n c.attributes)) in
            record { owner = owner_kept n d en.owner; distinct = en.distinct }
      ]

  -- The data model is well formed afterwards, though in between the attributes of the old name have
  -- no owner.
  pub rename_variable-WellFormed : WellFormed (rename_variable old_name new_name c).1
  unfolding remove_variable
  rename_variable-WellFormed = rw rename_variable_lem (record {
    vars = rw variables-final (
        remove_if-Distinct (λ v. v.name) old_name (update_first (var_named old_name) to_new kept)
          (update_first-Distinct (λ v. v.name) old_name new_name to_new kept (λ v. refl) kept_new
            kept-Distinct));
    dims = rw dimensions-final can.well_formed.dims;
    attrs = rw variables-final entries;
  })
