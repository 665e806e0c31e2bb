-- ===== src/Cdm/RenameDimension/Moved.antt =====
-- CDM::renameDimension: the dimension and every shape that names it take the new name.
use fimex.Cdm.WellFormed.Methods.{remove_dimension-WellFormed}
use fimex.Cdm.RenameDimension.{
  steps, has_dimension-remove_dimension, remove_dimension_lem, test_dimension_in_use-touch,
  rename_without, has_dimension-touch, unused, rename_shape_of_lem,
}
use fimex.Cdm.Variables.{touch}
use fimex.Prelude.Named.Search.{find_if-remove_if, mapped, find_if-update_first}
use fimex.Prelude.Result.{ok, Result}
use fimex.Prelude.Text.{str_eq_refl, eq_iff, str_eq}
use fimex.Cdm.Model.{CdmDimension, CdmVariable, check_dimension, dim_named, Cdm}
use fimex.Cdm.Dimensions.{
  remove_dimension, rename_in_shape, rename_dimension, test_dimension_in_use, has_dimension,
  rename_free,
}
use fimex.Prelude.{
  refl, ap, any, inl, fun_ext, inr, map, Bool-cases, ◌∙◌, none, if◌then◌else◌, sym, ◌&&◌, arith,
  find_if, not, true, false, ◌≡◌, Bool, String,
}
use fimex.Cdm.WellFormed.{touch-WellFormed, has_dimension-contains, WellFormed}

module _ {V : Type 0} where
  -- A variable after setShape.
  abbrev pub reshaped : String → String → CdmVariable V → CdmVariable V
  reshaped old_name new_name v = record v { shape = rename_in_shape old_name new_name v.shape }

  -- What is found afterwards.
  pub record DimensionRenamed (old_name new_name : String) (c : Cdm V) (r : Result Bool × Cdm V)
      : Type 0 where
    pub reported : r.0 ≡ ok true
    pub dimensions :
        (k : String)
        → find_if (dim_named k) r.1.dimensions ≡ (
            if str_eq k old_name
            then none
            else (if str_eq k new_name
                then mapped
                    (λ d. d.name)
                    (λ d. record d { name = new_name })
                    (find_if (dim_named old_name) c.dimensions)
                else find_if (dim_named k) c.dimensions))
    pub variables : r.1.variables ≡ map (reshaped old_name new_name) c.variables
    pub unused : any (λ v. check_dimension v old_name) r.1.variables ≡ false
    pub attributes : r.1.attributes ≡ c.attributes

  -- The new name is free.
  free :
      (old_name new_name : String) (c : Cdm V)
      → WellFormed c
      → str_eq old_name new_name ≡ false
      → has_dimension new_name c ≡ false
      → has_dimension old_name c ≡ true
      → DimensionRenamed old_name new_name c (rename_free old_name new_name c)
  unfolding rename_free
  free old_name new_name c w differ fresh old = rw old (record {
    reported = refl;
    dimensions = λ k. ground (
      arith,
      find_if-update_first (λ d. d.name) old_name new_name k (λ d. record d { name = new_name })
          c.dimensions (λ d. refl) (sym (has_dimension-contains new_name c) ∙ fresh) w.dims,
      eq_iff k new_name,
      eq_iff k old_name,
      eq_iff old_name new_name,
    );
    variables = ap (λ f. map f c.variables) (fun_ext (rename_shape_of_lem old_name new_name));
    unused = unused old_name new_name c.variables differ;
    attributes = refl;
  })

  -- renameDimension gives the dimension, and every shape that names it, the new name. An unused
  -- dimension of that name, or any if `ignore` is set, makes way.
  pub rename_dimension-Renamed :
      (old_name new_name : String) (ignore : Bool) (c : Cdm V)
      → WellFormed c
      → str_eq old_name new_name ≡ false
      → has_dimension old_name c ≡ true
      → (not ignore && test_dimension_in_use new_name c) ≡ false
      → DimensionRenamed old_name new_name c (rename_dimension old_name new_name ignore c)
  rename_dimension-Renamed old_name new_name ignore c w differ old may =
      elim (Bool-cases (has_dimension new_name (touch c))) [
        | inr h ↦
            let r =
              free old_name new_name (touch c) (touch-WellFormed w) differ h
                (has_dimension-touch old_name c ∙ old) in
            rw (rename_without old_name new_name ignore c (has_dimension-touch old_name c ∙ old) h)
              (record {
                reported = r.reported;
                dimensions = r.dimensions;
                variables = r.variables;
                unused = r.unused;
                attributes = r.attributes;
              })
        | inl h ↦
            let may' : (not ignore && test_dimension_in_use new_name (touch c)) ≡ false =
              ap (λ b. not ignore && b) (test_dimension_in_use-touch new_name c) ∙ may in
            let old' = has_dimension-touch old_name c ∙ old in
            let c' = (remove_dimension new_name ignore (touch c)).1 in
            let gone = remove_dimension_lem new_name ignore (touch c) may' h in
            let r =
              free old_name new_name c'
                (remove_dimension-WellFormed new_name ignore (touch-WellFormed w)) differ
                (has_dimension-remove_dimension new_name new_name ignore (touch c) may'
                  ∙ rw str_eq_refl)
                (has_dimension-remove_dimension new_name old_name ignore (touch c) may'
                  ∙ ground
                      (arith, eq_iff old_name new_name, eq_iff new_name old_name, differ, old')) in
            rw (steps old_name new_name ignore c old' h may') (record {
              reported = r.reported;
              dimensions = λ k.
                  r.dimensions k
                  ∙ ap
                      (λ ds.
                        if str_eq k old_name
                        then none
                        else (if str_eq k new_name
                            then mapped (λ d. d.name) (λ d. record d { name = new_name })
                                (find_if (dim_named old_name) ds)
                            else find_if (dim_named k) ds))
                      gone.dimensions
                  ∙ ground (
                    arith,
                    find_if-remove_if (λ (d : CdmDimension). d.name) new_name old_name c.dimensions,
                    find_if-remove_if (λ (d : CdmDimension). d.name) new_name k c.dimensions,
                    eq_iff k new_name,
                    eq_iff new_name k,
                    eq_iff old_name new_name,
                    eq_iff new_name old_name,
                  );
              variables = r.variables ∙ ap (map (reshaped old_name new_name)) gone.variables;
              unused = r.unused;
              attributes = r.attributes ∙ gone.attributes;
            })
      ]
