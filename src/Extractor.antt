-- ===== src/Extractor.antt =====
-- CDMExtractor (src/CDMExtractor.cc): reducing dimensions of what a reader delivers to some of
-- their positions, and dropping variables.
pub mod Slices
pub mod Chunks
pub mod Range
pub mod Select
pub mod Reduced
use fimex.Cdm.Variables.{remove_variable}
use fimex.Reader.{CdmReader}
use fimex.Prelude.Text.{str_eq}
use fimex.Prelude.Words.{wsub, wadd}
use fimex.Cdm.Dimensions.{modify_dimension, get_dimension}
use fimex.Prelude.Result.{cdm_exception, ok, err, Result}
use fimex.Prelude.Dict.{member, NameSet, lookup-insert, insert, lookup, Dict}
use fimex.Cdm.Model.{CdmDimension, has_data, CdmVariable, Cdm, check_dimension}
use fimex.Prelude.{
  ◌^◌, inr, inl, Bool-cases, false, ◌⊎◌, length, some, refl, ◌&&◌, arith, true, any, ◌≡◌, not, none,
  map, ltb, Bool, ◌==◌, String, ◌+◌, if◌then◌else◌, ℕ, List, [], ◌∷◌, zero, suc,
}

-- The data model as the extractor shows it, and for each reduced dimension the positions kept.
pub record CdmExtractor (V : Type 0) : Type 0 where
  pub data_reader : CdmReader V
  pub cdm : Cdm V
  pub dim_slices : Dict (List ℕ)

-- std::set<size_t>::insert, on the elements in their order
unfoldable pub insert_slice : ℕ → List ℕ → List ℕ
insert_slice n [] = n ∷ []
insert_slice n (m ∷ ms) =
    if n == m then m ∷ ms else (if ltb n m then n ∷ m ∷ ms else m ∷ insert_slice n ms)

-- The loop that collects `length` positions, from `i` on.
unfoldable pub use_slices : ℕ → ℕ → ℕ → List ℕ → List ℕ
use_slices start zero i slices = slices
use_slices start (suc rounds) i slices =
    use_slices start rounds (i + 1) (insert_slice (wadd start i) slices)

-- reduceDimensionStartEnd(dimName, start, end): the `long long` end is its two's complement, which
-- is what the sums with `size_t` use.
unfoldable pub is_positive : ℕ → Bool
is_positive end = ltb 0 end && ltb end (2 ^ 63)

unfoldable pub start_end_length : ℕ → ℕ → ℕ → ℕ
start_end_length dim_length start end =
    if is_positive end then wadd (wsub end start) 1 else wadd (wsub dim_length start) end

module _ {V : Type 0} where
  -- setData(DataPtr()) for a variable that has the dimension
  unfoldable pub without_data : String → CdmVariable V → CdmVariable V
  without_data dim_name v = if check_dimension v dim_name then record v { payload = none } else v

  -- reduceDimension(dimName, slices)
  unfoldable pub reduce_to_slices :
      String → List ℕ → CdmExtractor V → Result (Unit {0}) × CdmExtractor V
  reduce_to_slices dim_name slices x = elim (get_dimension dim_name x.cdm) [
    | err e ↦ (err e, x)
    | ok dim ↦
        if any (λ sz. ltb dim.length sz) slices
        then (err cdm_exception, x)
        else (let c =
              modify_dimension dim_name (λ (d : CdmDimension). record d { length = length slices })
                x.cdm in
            (
              ok tt,
              record x {
                cdm = record c { variables = map (without_data dim_name) c.variables };
                dim_slices = insert dim_name slices x.dim_slices;
              },
            ))
  ]

  -- reduceDimension(dimName, start, length)
  unfoldable pub reduce_dimension :
      String → ℕ → ℕ → CdmExtractor V → Result (Unit {0}) × CdmExtractor V
  reduce_dimension dim_name start length x =
      reduce_to_slices dim_name (use_slices start length 0 []) x

  unfoldable pub reduce_dimension_start_end :
      String → ℕ → ℕ → CdmExtractor V → Result (Unit {0}) × CdmExtractor V
  reduce_dimension_start_end dim_name start end x =
      if is_positive end
      then reduce_dimension dim_name start (start_end_length 0 start end) x
      else elim (get_dimension dim_name x.cdm) [
        | err e ↦ (err e, x)
        | ok dim ↦ reduce_dimension dim_name start (start_end_length dim.length start end) x
      ]

  -- CDMExtractor::removeVariable
  unfoldable pub drop_variable : String → CdmExtractor V → CdmExtractor V
  drop_variable n x = record x { cdm = remove_variable n x.cdm }

  -- selectVariables for the names as they are, without auxiliary variables: each variable whose
  -- name is not among them goes. Both sets are sorted, and so is their difference.
  unfoldable pub name_set : List (CdmVariable V) → NameSet
  name_set [] = []
  name_set (v ∷ vs) = insert v.name tt (name_set vs)

  unfoldable pub drop_others : NameSet → NameSet → CdmExtractor V → CdmExtractor V
  drop_others variables [] x = x
  drop_others variables ((n, u) ∷ names) x =
      drop_others variables names (if member n variables then x else drop_variable n x)

  unfoldable pub select_variables : NameSet → CdmExtractor V → CdmExtractor V
  select_variables variables x = drop_others variables (name_set x.cdm.variables) x
