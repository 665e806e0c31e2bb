-- ===== src/Cdm/Find/Found.antt =====
-- Which variables CDM::findVariables finds (src/CDM.cc).
use fimex.Cdm.Find.Names.{matching_names_iff}
use fimex.Cdm.Variables.{get_variable}
use fimex.Cdm.WellFormed.{var_names}
use fimex.Prelude.Named.{Distinct}
use fimex.Cdm.Model.{check_dimension, attr_named, CdmAttribute, CdmVariable, Cdm}
use fimex.Prelude.Dict.{lookup, Dict}
use fimex.Prelude.Text.{contains}
use fimex.Prelude.{
  zero, suc, subst, get_elem?, ℕ, ◌↔◌, arith, [], ◌∙◌, sym, ap, inr, inl, refl, Option-cases,
  find_if, ◌≡◌, ◌∷◌, ◌&&◌, String, List, some, true,
}
use fimex.Prelude.Result.{some-injective, both_returned, ok-injective, ok}
use fimex.Cdm.Find.{
  check_variable_attribute, Regex, matching_names, has_attributes, has_dimensions, find_variables,
  compile_all,
}

module _ {V : Type 0} (regex : Regex V) where
  -- The variable has an attribute of this name, and its value matches the pattern of this text.
  abbrev pub Matches : Cdm V → String → String → String → Type 0
  Matches c n attribute text =
      (attr_vec : List (CdmAttribute V)) × (lookup n c.attributes ≡ some attr_vec)
      × (attr : CdmAttribute V) × (find_if (attr_named attribute) attr_vec ≡ some attr)
      × (pattern : regex.Pattern) × (regex.compile text ≡ ok pattern)
      × (regex.matches (regex.string_value attr) pattern ≡ true)

  -- Each entry of the search, a name and a text, is met.
  abbrev pub AllMatch : Cdm V → String → Dict String → Type 0
  AllMatch c n find_attributes =
      (j : ℕ) (attribute text : String)
      → get_elem? find_attributes j ≡ some (attribute, text)
      → Matches c n attribute text

  -- Each dimension of the search is one of the variable.
  abbrev pub AllInShape : CdmVariable V → List String → Type 0
  AllInShape v dims = (j : ℕ) (d : String) → get_elem? dims j ≡ some d → contains d v.shape ≡ true

  Matches-check_variable_attribute :
      (c : Cdm V) (n attribute text : String) (pattern : regex.Pattern)
      → regex.compile text ≡ ok pattern
      → Matches c n attribute text
      → check_variable_attribute regex n attribute pattern c ≡ true
  unfolding check_variable_attribute
  Matches-check_variable_attribute c n attribute text pattern compiled
        (attr_vec, l, attr, g, other, compiled', m) =
      rw (check_variable_attribute, l, g)
        (ap (regex.matches (regex.string_value attr)) (ok-injective (sym compiled ∙ compiled')) ∙ m)

  check_variable_attribute-Matches :
      (c : Cdm V) (n attribute text : String) (pattern : regex.Pattern)
      → regex.compile text ≡ ok pattern
      → check_variable_attribute regex n attribute pattern c ≡ true
      → Matches c n attribute text
  unfolding check_variable_attribute
  check_variable_attribute-Matches c n attribute text pattern compiled h =
      elim (Option-cases (lookup n c.attributes)) [
        | inl e ↦ absurd (cc (rw (check_variable_attribute, e) at h))
        | inr (attr_vec, e) ↦ elim (Option-cases (find_if (attr_named attribute) attr_vec)) [
          | inl f ↦ absurd (cc (rw (check_variable_attribute, e, f) at h))
          | inr (attr, f) ↦
              (attr_vec, e, attr, f, pattern, compiled, rw (check_variable_attribute, e, f) at h)
        ]
      ]

  has_attributes_iff :
      (c : Cdm V) (n : String) (find_attributes : Dict String) (patterns : Dict regex.Pattern)
      → compile_all regex find_attributes ≡ ok patterns
      → (has_attributes regex n patterns c ≡ true) ↔ AllMatch c n find_attributes
  unfolding has_attributes compile_all
  has_attributes_iff c n [] patterns h =
      rw (← ok-injective h) ((λ e j attribute text at_j. cc), (λ m. refl))
  has_attributes_iff c n ((attribute, text) ∷ find_attributes) patterns h =
      let (pattern, compiled, h') = both_returned (regex.compile text) _ h in
      let (rest, compiled', h'') = both_returned (compile_all regex find_attributes) _ h' in
      let (to, from) = has_attributes_iff c n find_attributes rest compiled' in
      rw (← ok-injective h'') (
        (λ e. first_and_rest pattern rest compiled to e),
        (λ m.
            let one =
              Matches-check_variable_attribute c n attribute text pattern compiled
                (m zero attribute text refl) in
            let others = from (λ j. m (suc j)) in ground (arith, one, others)),
      )
    where
      first_and_rest :
          (pattern : regex.Pattern) (rest : Dict regex.Pattern)
          → regex.compile text ≡ ok pattern
          → (has_attributes regex n rest c ≡ true → AllMatch c n find_attributes)
          → (check_variable_attribute regex n attribute pattern c && has_attributes regex n rest c)
            ≡ true
          → AllMatch c n ((attribute, text) ∷ find_attributes)
      first_and_rest pattern rest compiled to e zero a t at_j =
          let one : check_variable_attribute regex n attribute pattern c ≡ true =
            ground (arith, e) in
          subst (λ ((a', t') : String × String). Matches c n a' t') (some-injective at_j)
            (check_variable_attribute-Matches c n attribute text pattern compiled one)
      first_and_rest pattern rest compiled to e (suc j) a t at_j = to (ground (arith, e)) j a t at_j

  has_dimensions_iff :
      (v : CdmVariable V) (dims : List String)
      → (has_dimensions regex v dims ≡ true) ↔ AllInShape v dims
  unfolding has_dimensions check_dimension
  has_dimensions_iff v [] = ((λ e j d at_j. cc), (λ m. refl))
  has_dimensions_iff v (d ∷ dims) =
      let (to, from) = has_dimensions_iff v dims in
      (
        (λ e. first_and_rest to e),
        (λ m.
            let one = m zero d refl in
            let others = from (λ j. m (suc j)) in ground (arith, one, others)),
      )
    where
      first_and_rest :
          (has_dimensions regex v dims ≡ true → AllInShape v dims)
          → (contains d v.shape && has_dimensions regex v dims) ≡ true
          → AllInShape v (d ∷ dims)
      first_and_rest to e zero d' at_j =
          ap (λ (x : String). contains x v.shape) (sym (some-injective at_j)) ∙ ground (arith, e)
      first_and_rest to e (suc j) d' at_j = to (ground (arith, e)) j d' at_j

  -- Each text of the search is a pattern.
  abbrev pub AllCompile : Dict String → Type 0
  AllCompile find_attributes =
      (j : ℕ) (attribute text : String)
      → get_elem? find_attributes j ≡ some (attribute, text)
      → (pattern : regex.Pattern) × (regex.compile text ≡ ok pattern)

  compile_all-AllCompile :
      (find_attributes : Dict String)
      → AllCompile find_attributes
      → (patterns : Dict regex.Pattern) × (compile_all regex find_attributes ≡ ok patterns)
  unfolding compile_all
  compile_all-AllCompile [] all_compile = ([], refl)
  compile_all-AllCompile ((attribute, text) ∷ find_attributes) all_compile =
      let (pattern, compiled) = all_compile zero attribute text refl in
      let (patterns, compiled') =
        compile_all-AllCompile find_attributes (λ j. all_compile (suc j)) in
      ((attribute, pattern) ∷ patterns, rw (compile_all, compiled, compiled') refl)

  -- Where the names of the variables are unique and the patterns of the search compile, findVariables
  -- finds a name exactly if a variable has it whose shape holds every dimension of the search, and
  -- for each entry of the search an attribute of that name whose value matches the entry's pattern.
  pub find_variables-get_variable :
      (find_attributes : Dict String) (dims : List String) (c : Cdm V)
      → Distinct (var_names c.variables)
      → AllCompile find_attributes
      → (found : List String) × (find_variables regex find_attributes dims c ≡ ok found)
        × ((n : String)
            → (contains n found ≡ true) ↔ (
                (v : CdmVariable V) × (get_variable n c ≡ ok v)
                × AllMatch c n find_attributes
                × AllInShape v dims))
  unfolding find_variables
  find_variables-get_variable find_attributes dims c distinct all_compile =
      let (patterns, compiled) = compile_all-AllCompile find_attributes all_compile in
      (
        matching_names regex patterns dims c c.variables,
        rw compiled refl,
        (λ n.
            let (to, from) = matching_names_iff regex patterns dims c n distinct in
            let (matched, matches) = has_attributes_iff c n find_attributes patterns compiled in
            (
              (λ h. let (v, g, a, d) = to h in (v, g, matched a, (has_dimensions_iff v dims).0 d)),
              (λ (v, g, a, d). from (v, g, matches a, (has_dimensions_iff v dims).1 d)),
            )),
      )
