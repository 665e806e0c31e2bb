-- ===== src/Extractor/Select.antt =====
-- selectVariables: which variables are left.
use fimex.Prelude.Named.Search.{find_if-remove_if}
use fimex.Prelude.Result.{ok, Result, cdm_exception, err}
use fimex.Prelude.Text.{eq_iff, str_eq}
use fimex.Cdm.Model.{var_named, CdmVariable}
use fimex.Cdm.Variables.{remove_variable, get_variable}
use fimex.Extractor.{drop_variable, CdmExtractor, name_set, select_variables, drop_others}
use fimex.Prelude.Dict.{member-cons, member-insert, NameSet, member}
use fimex.Prelude.{
  some, sym, ap, ◌∙◌, inr, inl, false, Option, Bool-cases, Bool, refl, [], none, not, true, arith,
  ◌&&◌, is_some, if◌then◌else◌, find_if, List, ◌∷◌, String, ◌≡◌,
}

module _ {V : Type 0} where
  member-name_set :
      (n : String) (vs : List (CdmVariable V))
      → member n (name_set vs) ≡ is_some (find_if (var_named n) vs)
  unfolding name_set member
  member-name_set n [] = refl
  member-name_set n (v ∷ vs) = ground (
    arith,
    member-insert n v.name (name_set vs),
    member-name_set n vs,
    eq_iff n v.name,
    eq_iff v.name n,
  )

  drop_variable-find :
      (n k : String) (x : CdmExtractor V)
      → find_if (var_named n) (drop_variable k x).cdm.variables
        ≡ (if str_eq k n then none else find_if (var_named n) x.cdm.variables)
  unfolding drop_variable remove_variable
  drop_variable-find n k x = find_if-remove_if (λ v. v.name) k n x.cdm.variables

  -- The two ways of a round.
  drop_chosen :
      (variables names : NameSet) (k : String) (u : Unit {0}) (x : CdmExtractor V)
      → member k variables ≡ true
      → drop_others variables ((k, u) ∷ names) x ≡ drop_others variables names x
  unfolding drop_others
  drop_chosen variables names k u x e =
      ap (λ (b : Bool). drop_others variables names (if b then x else drop_variable k x)) e

  drop_left :
      (variables names : NameSet) (k : String) (u : Unit {0}) (x : CdmExtractor V)
      → member k variables ≡ false
      → drop_others variables ((k, u) ∷ names) x ≡ drop_others variables names (drop_variable k x)
  unfolding drop_others
  drop_left variables names k u x e =
      ap (λ (b : Bool). drop_others variables names (if b then x else drop_variable k x)) e

  drop_others-dim_slices :
      (variables names : NameSet) (x : CdmExtractor V)
      → (drop_others variables names x).dim_slices ≡ x.dim_slices
  unfolding drop_others drop_variable
  drop_others-dim_slices variables [] x = refl
  drop_others-dim_slices variables ((k, u) ∷ names) x = elim (Bool-cases (member k variables)) [
    | inl e ↦
        ap (λ y. y.dim_slices) (drop_chosen variables names k u x e)
        ∙ drop_others-dim_slices variables names x
    | inr e ↦
        ap (λ y. y.dim_slices) (drop_left variables names k u x e)
        ∙ drop_others-dim_slices variables names (drop_variable k x)
  ]

  find-drop_others :
      (n : String) (variables names : NameSet) (x : CdmExtractor V)
      → find_if (var_named n) (drop_others variables names x).cdm.variables ≡ (
          if member n names && not (member n variables)
          then none
          else find_if (var_named n) x.cdm.variables)
  unfolding drop_others member
  find-drop_others n variables [] x = refl
  find-drop_others n variables ((k, u) ∷ names) x = elim (Bool-cases (member k variables)) [
    | inl e ↦
        ap found_in (drop_chosen variables names k u x e)
        ∙ find-drop_others n variables names x
        ∙ (elim (Bool-cases (str_eq k n)) [
          | inl q ↦
              let chosen : member n variables ≡ true =
                ap (λ (s : String). member s variables) (sym ((eq_iff k n).0 q)) ∙ e in
              rw (member-cons n k u names, q, chosen) (no_matter (member n names) _)
          | inr q ↦ rw (member-cons n k u names, q) refl
        ])
    | inr e ↦
        ap found_in (drop_left variables names k u x e)
        ∙ find-drop_others n variables names (drop_variable k x)
        ∙ (elim (Bool-cases (str_eq k n)) [
          | inl q ↦
              let left : member n variables ≡ false =
                ap (λ (s : String). member s variables) (sym ((eq_iff k n).0 q)) ∙ e in
              rw (member-cons n k u names, drop_variable-find n k x, q, left)
                (no_choice (member n names && true))
          | inr q ↦ rw (member-cons n k u names, drop_variable-find n k x, q) refl
        ])
  ]
    where
      found_in : CdmExtractor V → Option (CdmVariable V)
      found_in y = find_if (var_named n) y.cdm.variables

      no_choice : (b : Bool) → ◌≡◌ {A = Option (CdmVariable V)} (if b then none else none) none
      no_choice true = refl
      no_choice false = refl

      no_matter : (b : Bool) (o : Option (CdmVariable V)) → (if b && false then none else o) ≡ o
      no_matter true o = refl
      no_matter false o = refl

  abbrev to_result : Option (CdmVariable V) → Result (CdmVariable V)
  to_result none = err cdm_exception
  to_result (some v) = ok v

  chosen_or_absent :
      (o : Option (CdmVariable V)) (listed chosen : Bool)
      → listed ≡ is_some o
      → to_result (if listed && not chosen then none else o)
        ≡ (if chosen then to_result o else err cdm_exception)
  chosen_or_absent none listed true h = rw h refl
  chosen_or_absent none listed false h = rw h refl
  chosen_or_absent (some v) listed true h = rw h refl
  chosen_or_absent (some v) listed false h = rw h refl

  -- After selectVariables, a variable is there with all its members if it was there and its name is
  -- among those selected, and getVariable throws for any other name; the reader and the positions
  -- kept of each dimension stay.
  pub select_variables-kept :
      (variables : NameSet) (x : CdmExtractor V) (n : String)
      → (get_variable n (select_variables variables x).cdm
          ≡ (if member n variables then get_variable n x.cdm else err cdm_exception))
        × ((select_variables variables x).dim_slices ≡ x.dim_slices)
  unfolding select_variables get_variable
  select_variables-kept variables x n =
      let found = find-drop_others n variables (name_set x.cdm.variables) x in
      let there = member-name_set n x.cdm.variables in
      (
        ap to_result found
            ∙ chosen_or_absent _ (member n (name_set x.cdm.variables)) (member n variables) there,
        drop_others-dim_slices variables (name_set x.cdm.variables) x,
      )
