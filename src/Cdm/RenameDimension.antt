-- ===== src/Cdm/RenameDimension.antt =====
-- CDM::renameDimension: what it does to shapes, and that it keeps the data model well formed.
pub mod Moved
use fimex.Prelude.Result.{chain-eq_of_ok}
use fimex.Cdm.WellFormed.Methods.{remove_dimension-WellFormed}
use fimex.Cdm.Variables.{touch}
use fimex.Prelude.Named.{contains-remove_if, update_first-Distinct}
use fimex.Prelude.Text.{str_eq_refl, eq_iff, str_eq, contains}
use fimex.Prelude.{
  remove_if, if◌then◌else◌, true, ◌&&◌, not, Bool, ◌∙◌, ap, refl, sym, [], arith, inr, ◌∷◌, any,
  inl, false, map, Bool-cases, ◌≡◌, List, String,
}
use fimex.Cdm.Model.{dim_named, CdmDimension, CdmVariable, Cdm, check_dimension}
use fimex.Cdm.Dimensions.{
  test_dimension_in_use, remove_dimension, rename_dimension, has_dimension, rename_free,
  rename_in_shape, rename_shape_of,
}
use fimex.Cdm.WellFormed.{
  touch-WellFormed, owned_by, Entries-mono, has_dimension-contains, var_names, WellFormed,
}

rename_in_shape_fresh :
    (old_name new_name : String) (shape : List String)
    → str_eq old_name new_name ≡ false
    → contains old_name (rename_in_shape old_name new_name shape) ≡ false
unfolding rename_in_shape contains
rename_in_shape_fresh old_name new_name [] h = refl
rename_in_shape_fresh old_name new_name (d ∷ shape) h =
    ground
      (arith, rename_in_shape_fresh old_name new_name shape h, eq_iff d old_name, eq_iff old_name d)

-- A shape without the old name stays as it is.
rename_in_shape_none :
    (old_name new_name : String) (shape : List String)
    → contains old_name shape ≡ false
    → rename_in_shape old_name new_name shape ≡ shape
unfolding rename_in_shape contains
rename_in_shape_none old_name new_name [] h = refl
rename_in_shape_none old_name new_name (d ∷ shape) h =
    let e : str_eq d old_name ≡ false = ground (arith, eq_iff d old_name, eq_iff old_name d) in
    rw e (ap (λ l. d ∷ l) (rename_in_shape_none old_name new_name shape (ground arith)))

module _ {V : Type 0} where
  -- The test in front of setShape makes no difference.
  pub rename_shape_of_lem :
      (old_name new_name : String) (v : CdmVariable V)
      → rename_shape_of old_name new_name v
        ≡ record v { shape = rename_in_shape old_name new_name v.shape }
  unfolding rename_shape_of
  rename_shape_of_lem old_name new_name v = elim (Bool-cases (check_dimension v old_name)) [
    | inl e ↦ rw e
    | inr e ↦
        rw (e, rename_in_shape_none old_name new_name v.shape (unfold check_dimension in e)) refl
  ]

  names-rename :
      (old_name new_name : String) (vs : List (CdmVariable V))
      → var_names (map (rename_shape_of old_name new_name) vs) ≡ var_names vs
  names-rename old_name new_name [] = refl
  names-rename old_name new_name (v ∷ vs) =
      rw (rename_shape_of_lem old_name new_name v, names-rename old_name new_name vs)

  pub unused :
      (old_name new_name : String) (vs : List (CdmVariable V))
      → str_eq old_name new_name ≡ false
      → any (λ v. check_dimension v old_name) (map (rename_shape_of old_name new_name) vs) ≡ false
  unfolding check_dimension
  unused old_name new_name [] h = refl
  unused old_name new_name (v ∷ vs) h =
      rw
        (rename_shape_of_lem old_name new_name v, rename_in_shape_fresh old_name new_name v.shape h)
        (unused old_name new_name vs h)

  rename_free-WellFormed :
      (old_name new_name : String) (c : Cdm V)
      → WellFormed c
      → has_dimension new_name c ≡ false
      → WellFormed (rename_free old_name new_name c).1
  unfolding rename_free
  rename_free-WellFormed old_name new_name c w h = elim (Bool-cases (has_dimension old_name c)) [
    | inl e ↦ rw e (record {
      vars = rw (names-rename old_name new_name c.variables) w.vars;
      dims =
          update_first-Distinct (λ d. d.name) old_name new_name _ c.dimensions (λ d. refl)
            (sym (has_dimension-contains new_name c) ∙ h) w.dims;
      attrs =
          Entries-mono (owned_by c.variables)
            (owned_by (map (rename_shape_of old_name new_name) c.variables)) c.attributes
            (λ n o. rw (names-rename old_name new_name c.variables) o) w.attrs;
    })
    | inr e ↦ rw e w
  ]

  pub has_dimension-remove_dimension :
      (n k : String) (ignore : Bool) (c : Cdm V)
      → (not ignore && test_dimension_in_use n c) ≡ false
      → has_dimension k (remove_dimension n ignore c).1
        ≡ (if str_eq n k then false else has_dimension k c)
  unfolding remove_dimension
  has_dimension-remove_dimension n k ignore c h = elim (Bool-cases (has_dimension n c)) [
    | inl e ↦
        rw (h, e)
          (has_dimension-contains k _
            ∙ contains-remove_if (λ (d : CdmDimension). d.name) n k c.dimensions
            ∙ ap (λ b. if str_eq n k then false else b) (sym (has_dimension-contains k c)))
    | inr e ↦ rw (h, e) (ground (arith, eq_iff n k, e))
  ]

  -- What renameDimension does once the old name is known to exist and the new name may go.
  pub steps :
      (old_name new_name : String) (ignore : Bool) (c : Cdm V)
      → has_dimension old_name (touch c) ≡ true
      → has_dimension new_name (touch c) ≡ true
      → (not ignore && test_dimension_in_use new_name (touch c)) ≡ false
      → rename_dimension old_name new_name ignore c
        ≡ rename_free old_name new_name (remove_dimension new_name ignore (touch c)).1
  unfolding rename_dimension
  steps old_name new_name ignore c old new free =
      rw (old, new, free)
        (chain-eq_of_ok (remove_dimension new_name ignore (touch c))
          (λ _ c'. rename_free old_name new_name c') {a = true}
          (unfold remove_dimension in rw (free, new)))

  pub rename_without :
      (old_name new_name : String) (ignore : Bool) (c : Cdm V)
      → has_dimension old_name (touch c) ≡ true
      → has_dimension new_name (touch c) ≡ false
      → rename_dimension old_name new_name ignore c ≡ rename_free old_name new_name (touch c)
  unfolding rename_dimension
  rename_without old_name new_name ignore c old new = rw (old, new)

  pub has_dimension-touch : (n : String) (c : Cdm V) → has_dimension n (touch c) ≡ has_dimension n c
  unfolding has_dimension
  has_dimension-touch n c = refl

  pub test_dimension_in_use-touch :
      (n : String) (c : Cdm V) → test_dimension_in_use n (touch c) ≡ test_dimension_in_use n c
  unfolding test_dimension_in_use
  test_dimension_in_use-touch n c = refl

  -- The parts of the model that removeDimension leaves alone, and what it leaves of the rest.
  pub record DimensionRemoved (n : String) (c c' : Cdm V) : Type 0 where
    pub variables : c'.variables ≡ c.variables
    pub attributes : c'.attributes ≡ c.attributes
    pub dimensions : c'.dimensions ≡ remove_if (dim_named n) c.dimensions

  pub remove_dimension_lem :
      (n : String) (ignore : Bool) (c : Cdm V)
      → (not ignore && test_dimension_in_use n c) ≡ false
      → has_dimension n c ≡ true
      → DimensionRemoved n c (remove_dimension n ignore c).1
  unfolding remove_dimension
  remove_dimension_lem n ignore c h e =
      rw (h, e) (record { variables = refl; attributes = refl; dimensions = refl })

  -- renameDimension keeps the data model well formed for any two names, and when it throws.
  pub rename_dimension-WellFormed :
      (old_name new_name : String) (ignore : Bool) {c : Cdm V}
      → WellFormed c
      → WellFormed (rename_dimension old_name new_name ignore c).1
  rename_dimension-WellFormed old_name new_name ignore {c} w =
      elim (Bool-cases (has_dimension old_name (touch c))) [
        | inr e ↦ unfold rename_dimension in rw e (touch-WellFormed w)
        | inl e ↦ elim (Bool-cases (has_dimension new_name (touch c))) [
          | inr h ↦
              unfold rename_dimension in
              rw (e, h) (rename_free-WellFormed old_name new_name (touch c) (touch-WellFormed w) h)
          | inl h ↦ elim (Bool-cases (not ignore && test_dimension_in_use new_name (touch c))) [
            | inl u ↦ unfold rename_dimension in rw (e, h, u) (touch-WellFormed w)
            | inr u ↦ rw (steps old_name new_name ignore c e h u) (
                rename_free-WellFormed old_name new_name _
                  (remove_dimension-WellFormed new_name ignore (touch-WellFormed w))
                  (has_dimension-remove_dimension new_name new_name ignore (touch c) u
                    ∙ rw str_eq_refl))
          ]
        ]
      ]
