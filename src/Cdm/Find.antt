-- ===== src/Cdm/Find.antt =====
-- The search for variables by their attributes and dimensions (src/CDM.cc), over the regular
-- expressions of the standard library, and the directions of vectors (src/CDMVariable.cc).
pub mod Names
pub mod Found
use fimex.Prelude.Dict.{lookup, Dict}
use fimex.Prelude.{
  ◌||◌, [], ◌&&◌, find_if, ◌∷◌, String, if◌then◌else◌, List, Bool, none, some, true, false,
}
use fimex.Prelude.Result.{ok, Result, ◌>>=◌}
use fimex.StringUtils.{Bytes, codes, has_prefix}
use fimex.Cdm.Model.{
  spatial_vector_none, spatial_vector_lat, spatial_vector_lon, spatial_vector_y, spatial_vector_x,
  Cdm, CdmVariable, CdmAttribute, SpatialVectorDirection, attr_named, check_dimension,
}

-- Patterns and how they are compiled, the text of an attribute, and whether a text matches
pub record Regex (V : Type 0) : Type 1 where
  pub Pattern : Type 0
  pub Text : Type 0
  pub compile : String → Result Pattern
  pub string_value : CdmAttribute V → Text
  pub matches : Text → Pattern → Bool

module _ {V : Type 0} (regex : Regex V) where
  unfoldable pub check_variable_attribute : String → String → regex.Pattern → Cdm V → Bool
  check_variable_attribute var_name attribute attr_value c = elim (lookup var_name c.attributes) [
    | none ↦ false
    | some attr_vec ↦ elim (find_if (attr_named attribute) attr_vec) [
      | none ↦ false
      | some attr ↦ regex.matches (regex.string_value attr) attr_value
    ]
  ]

  -- The loop that compiles the patterns
  unfoldable pub compile_all : Dict String → Result (Dict regex.Pattern)
  compile_all [] = ok []
  compile_all ((attribute, text) ∷ find_attributes) = regex.compile text >>= λ pattern.
      compile_all find_attributes >>= λ patterns. ok ((attribute, pattern) ∷ patterns)

  -- Whether find_if finds no attribute that is missing, and no dimension
  unfoldable pub has_attributes : String → Dict regex.Pattern → Cdm V → Bool
  unfolding check_variable_attribute
  has_attributes var_name [] c = true
  has_attributes var_name ((attribute, pattern) ∷ patterns) c =
      check_variable_attribute var_name attribute pattern c && has_attributes var_name patterns c

  unfoldable pub has_dimensions : CdmVariable V → List String → Bool
  unfolding check_dimension
  has_dimensions v [] = true
  has_dimensions v (d ∷ dims) = check_dimension v d && has_dimensions v dims

  -- The loop over the variables
  unfoldable pub matching_names :
      Dict regex.Pattern → List String → Cdm V → List (CdmVariable V) → List String
  unfolding has_attributes has_dimensions
  matching_names patterns find_dimensions c [] = []
  matching_names patterns find_dimensions c (v ∷ vars) =
      let rest = matching_names patterns find_dimensions c vars in
      if has_attributes v.name patterns c && has_dimensions v find_dimensions
      then v.name ∷ rest
      else rest

  unfoldable pub find_variables : Dict String → List String → Cdm V → Result (List String)
  unfolding compile_all matching_names
  find_variables find_attributes find_dimensions c = compile_all find_attributes >>= λ patterns.
      ok (matching_names patterns find_dimensions c c.variables)

-- vd.find(sub) != std::string::npos
unfoldable pub has_text : Bytes → Bytes → Bool
unfolding has_prefix
has_text sub [] = has_prefix sub []
has_text sub (c ∷ s) = has_prefix sub (c ∷ s) || has_text sub s

unfoldable pub vector_direction_from_string : Bytes → SpatialVectorDirection
unfolding has_text
vector_direction_from_string vd =
    if has_text (codes "x") vd
    then spatial_vector_x
    else if has_text (codes "y") vd
    then spatial_vector_y
    else if has_text (codes "lon") vd
    then spatial_vector_lon
    else if has_text (codes "lat") vd
    then spatial_vector_lat
    else spatial_vector_none
