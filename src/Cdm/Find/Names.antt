-- ===== src/Cdm/Find/Names.antt =====
-- Which names the loop of CDM::findVariables collects (src/CDM.cc).
use fimex.Cdm.Variables.{get_variable}
use fimex.Cdm.WellFormed.{var_names}
use fimex.Prelude.Named.{find_if-contains, Distinct}
use fimex.Cdm.Model.{var_named, CdmVariable, Cdm}
use fimex.Prelude.Dict.{Dict}
use fimex.Prelude.Text.{eq_iff, str_eq, contains}
use fimex.Prelude.{
  ◌⊎◌, ◌↔◌, arith, [], ◌∙◌, is_some, sym, ap, inr, inl, refl, Option-cases, Bool-cases, ◌||◌,
  find_if, ◌≡◌, ◌∷◌, ◌&&◌, if◌then◌else◌, Option, Bool, String, List, none, some, true, false,
}
use fimex.Prelude.Result.{cdm_exception, ok-injective, ok, err}
use fimex.Cdm.Find.{Regex, matching_names, has_attributes, has_dimensions}

module _ {V : Type 0} (regex : Regex V) where
  -- Does the variable of a name, if there is one, have the attributes and dimensions?
  abbrev fits_search :
      Dict regex.Pattern → List String → Cdm V → String → Option (CdmVariable V) → Bool
  fits_search patterns dims c n none = false
  fits_search patterns dims c n (some v) =
      has_attributes regex n patterns c && has_dimensions regex v dims

  if-contains :
      (n m : String) (b : Bool) (rest : List String)
      → contains n (if b then m ∷ rest else rest) ≡ ((b && str_eq n m) || contains n rest)
  unfolding contains
  if-contains n m true rest = refl
  if-contains n m false rest = refl

  absent-fits_search :
      (patterns : Dict regex.Pattern) (dims : List String) (c : Cdm V) (n : String)
      (vars : List (CdmVariable V))
      → contains n (var_names vars) ≡ false
      → fits_search patterns dims c n (find_if (var_named n) vars) ≡ false
  absent-fits_search patterns dims c n vars h = elim (Option-cases (find_if (var_named n) vars)) [
    | inl e ↦ rw e refl
    | inr (v, e) ↦
        absurd
          (cc (sym (ap is_some e) ∙ find_if-contains (λ (v : CdmVariable V). v.name) n vars ∙ h))
  ]

  matching_names-contains :
      (patterns : Dict regex.Pattern) (dims : List String) (c : Cdm V) (n : String)
      (vars : List (CdmVariable V))
      → Distinct (var_names vars)
      → contains n (matching_names regex patterns dims c vars)
        ≡ fits_search patterns dims c n (find_if (var_named n) vars)
  unfolding matching_names contains
  matching_names-contains patterns dims c n [] d = refl
  matching_names-contains patterns dims c n (v ∷ vars) (fresh, d) =
      let rest = matching_names regex patterns dims c vars in
      let test = has_attributes regex v.name patterns c && has_dimensions regex v dims in
      let inner = matching_names-contains patterns dims c n vars d in
      elim (Bool-cases (str_eq n v.name)) [
        | inl e ↦
            let same : n ≡ v.name = (eq_iff n v.name).0 e in
            let none_left =
              absent-fits_search patterns dims c n vars
                (ap (λ (m : String). contains m (var_names vars)) same ∙ fresh) in
            let attributes : has_attributes regex v.name patterns c
                ≡ has_attributes regex n patterns c =
              sym (ap (λ (m : String). has_attributes regex m patterns c) same) in
            let out : ((test && str_eq n v.name) || contains n rest)
                ≡ (has_attributes regex n patterns c && has_dimensions regex v dims) =
              ground (arith, e, inner, none_left, attributes) in
            rw e (if-contains n v.name test rest ∙ out)
        | inr e ↦
            let out : ((test && str_eq n v.name) || contains n rest)
                ≡ fits_search patterns dims c n (find_if (var_named n) vars) =
              ground (arith, e, inner) in
            rw e (if-contains n v.name test rest ∙ out)
      ]

  get_variable-found :
      (n : String) (c : Cdm V)
      → (get_variable n c ≡ err cdm_exception) × (find_if (var_named n) c.variables ≡ none)
        ⊎ ((v : CdmVariable V) × (get_variable n c ≡ ok v)
            × (find_if (var_named n) c.variables ≡ some v))
  unfolding get_variable
  get_variable-found n c = elim (Option-cases (find_if (var_named n) c.variables)) [
    | inl e ↦ inl (rw (get_variable, e) refl, e)
    | inr (v, e) ↦ inr (v, rw (get_variable, e) refl, e)
  ]

  pub matching_names_iff :
      (patterns : Dict regex.Pattern) (dims : List String) (c : Cdm V) (n : String)
      → Distinct (var_names c.variables)
      → (contains n (matching_names regex patterns dims c c.variables) ≡ true) ↔ (
          (v : CdmVariable V) × (get_variable n c ≡ ok v)
          × (has_attributes regex n patterns c ≡ true)
          × (has_dimensions regex v dims ≡ true))
  matching_names_iff patterns dims c n distinct =
      let exact = matching_names-contains patterns dims c n c.variables distinct in
      elim (get_variable-found n c) [
        | inl (missing, e) ↦
            let no : contains n (matching_names regex patterns dims c c.variables) ≡ false =
              exact ∙ ap (fits_search patterns dims c n) e in
            ((λ h. absurd (cc (sym no ∙ h))), (λ (w, g, a, b). absurd (cc (sym missing ∙ g))))
        | inr (v, present, e) ↦
            let yes : contains n (matching_names regex patterns dims c c.variables)
                ≡ (has_attributes regex n patterns c && has_dimensions regex v dims) =
              exact ∙ ap (fits_search patterns dims c n) e in
            (
              (λ h. (v, present, ground (arith, yes, h), ground (arith, yes, h))),
              (λ (w, g, a, b).
                  let same : has_dimensions regex v dims ≡ has_dimensions regex w dims =
                    ap (λ (x : CdmVariable V). has_dimensions regex x dims)
                      (ok-injective (sym present ∙ g)) in
                  ground (arith, yes, a, b, same)),
            )
      ]
