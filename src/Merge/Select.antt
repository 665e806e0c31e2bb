-- ===== src/Merge/Select.antt =====
-- CDMExtractor::selectVariables (src/CDMExtractor.cc) with auxiliary variables.
use fimex.CoordinateSystem.{CoordinateSystem}
use fimex.Prelude.Result.{ok, cdm_exception, err}
use fimex.Cdm.Model.{var_named, CdmVariable}
use fimex.Extractor.Select.{select_variables-kept}
use fimex.Merge.Needs.{needs}
use fimex.Merge.Closure.{add_auxiliary-IsClosure, universe}
use fimex.Merge.{add_auxiliary}
use fimex.Extractor.{select_variables, CdmExtractor}
use fimex.Cdm.Variables.{get_variable, has_variable}
use fimex.Prelude.Dict.{member, NameSet}
use fimex.Prelude.{
  find_if, inr, inl, Bool-cases, refl, is_some, ◌∙◌, true, ◌<◌, ◌≡◌, length, String, Option, List,
  ℕ, none, some,
}

module _ {V : Type 0} where
  -- selectVariables(variables, true) for the coordinate systems of the reader
  unfoldable pub select_with_auxiliary :
      ℕ → List CoordinateSystem → NameSet → CdmExtractor V → Option (CdmExtractor V)
  select_with_auxiliary fuel coord_sys variables x =
      elim (add_auxiliary fuel x.cdm coord_sys variables) [
        | none ↦ none
        | some variables' ↦ some (select_variables variables' x)
      ]

  kept-member :
      (t : NameSet) (x : CdmExtractor V) (n : String)
      → has_variable n (select_variables t x).cdm ≡ true
      → member n t ≡ true
  unfolding has_variable get_variable
  kept-member t x n h = elim (Bool-cases (member n t)) [
    | inl m ↦ m
    | inr m ↦
        let gone : get_variable n (select_variables t x).cdm ≡ err cdm_exception =
          (select_variables-kept t x n).0 ∙ rw m refl in
        absurd (found (find_if (var_named n) (select_variables t x).cdm.variables) h gone)
  ]
    where
      found :
          (o : Option (CdmVariable V))
          → is_some o ≡ true
          → elim o [ none ↦ err cdm_exception | some v ↦ ok v ] ≡ err cdm_exception
          → ⊥
      found none s e = cc
      found (some v) s e = cc

  member-kept :
      (t : NameSet) (x : CdmExtractor V) (n : String)
      → member n t ≡ true
      → get_variable n (select_variables t x).cdm ≡ get_variable n x.cdm
  member-kept t x n m = (select_variables-kept t x n).0 ∙ rw m refl

  -- selectVariables with auxiliary variables returns, and keeps the variables selected as they are;
  -- and with each variable that is left, those that it needs are as they were before.
  pub select_with_auxiliary-kept :
      (coord_sys : List CoordinateSystem) (variables : NameSet) (x : CdmExtractor V) (fuel : ℕ)
      → length (universe x.cdm coord_sys variables) < fuel
      → (y : CdmExtractor V) × (select_with_auxiliary fuel coord_sys variables x ≡ some y)
        × ((n : String) → member n variables ≡ true → get_variable n y.cdm ≡ get_variable n x.cdm)
        × ((n d : String)
            → has_variable n y.cdm ≡ true
            → needs x.cdm coord_sys n d ≡ true
            → get_variable d y.cdm ≡ get_variable d x.cdm)
  unfolding select_with_auxiliary
  select_with_auxiliary-kept coord_sys variables x fuel h =
      let (t, e, i) = add_auxiliary-IsClosure x.cdm coord_sys variables fuel h in
      (
        select_variables t x,
        rw (select_with_auxiliary, e) refl,
        (λ n m. member-kept t x n (i.around n m)),
        (λ n d k q. member-kept t x d (i.closed n d (kept-member t x n k) q)),
      )
