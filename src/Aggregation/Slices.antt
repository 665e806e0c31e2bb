-- ===== src/Aggregation/Slices.antt =====
-- AggregationReader::getDataSlice: which reader a slice comes from, and what stands in for one that
-- does not have the variable.
use fimex.Prelude.Dict.{member, lookup}
use fimex.Reader.Slices.{get_data_slice_from_memory}
use fimex.Prelude.Words.{wsub, wmul}
use fimex.Prelude.Text.{str_eq}
use fimex.Cdm.Variables.{has_variable, get_variable}
use fimex.Reader.{CdmReader}
use fimex.Cdm.Dimensions.{get_unlimited_dim, get_dimension}
use fimex.Slice.Builder.{of_variable, at}
use fimex.Aggregation.{agg_union, agg_join_new, agg_join_existing, PartReader, AggType, Aggregation}
use fimex.Cdm.Model.{has_data, CdmVariable, Cdm}
use fimex.Prelude.{
  ◌&&◌, get_elem?, ◌==◌, ◌+◌, not, ltb, replicate, if◌then◌else◌, Bool, ℕ, List, [], ◌∷◌, String,
  Option, none, some, true, false,
}
use fimex.Prelude.Result.{Result, ok, ◌>>=◌}

-- std::upper_bound over the accumulated lengths: the first that is above the position, with its
-- index and the one before it.
unfoldable pub upper_bound : List ℕ → ℕ → ℕ → ℕ → Option (ℕ × ℕ)
upper_bound [] idx before pos = none
upper_bound (p ∷ ps) idx before pos =
    if ltb pos p then some (idx, before) else upper_bound ps (idx + 1) p pos

-- std::operator== on shapes
unfoldable pub same_shape : List String → List String → Bool
same_shape [] [] = true
same_shape (a ∷ as1) (b ∷ bs) = str_eq a b && same_shape as1 bs
same_shape _ _ = false

-- v.pop_back()
unfoldable pub without_last : List String → List String
without_last [] = []
without_last (a ∷ []) = []
without_last (a ∷ b ∷ rest) = a ∷ without_last (b ∷ rest)

module _ {V : Type 0} where
  -- AggregationReader::findJoinReader: the reader and the position in it
  unfoldable pub find_join_reader : Aggregation V → ℕ → Option (PartReader V × ℕ)
  find_join_reader g un_lim_dim_pos = elim (upper_bound g.reader_udim_pos 0 0 un_lim_dim_pos) [
    | none ↦ none
    | some found ↦ elim (get_elem? g.readers found.0) [
      | none ↦ none
      | some reader ↦ some (reader.1, wsub un_lim_dim_pos found.1)
    ]
  ]

  -- The loop over the shape in checkJoinExistingDims and checkJoinNewDims: dimensions that are not
  -- skipped have the same length in both data models.
  unfoldable pub same_lengths : (String → Bool) → Cdm V → Cdm V → List String → Result Bool
  same_lengths skip a r [] = ok true
  same_lengths skip a r (n ∷ shape) =
      let rest = same_lengths skip a r shape in
      if skip n
      then rest
      else (get_dimension n a >>= λ d.
          get_dimension n r >>= λ e. if not (d.length == e.length) then ok false else rest)

  abbrev pub is_unlimited_of : Cdm V → String → Bool
  is_unlimited_of c n = elim (get_unlimited_dim c) [ none ↦ false | some u ↦ str_eq n u.name ]

  -- AggregationReader::checkJoinExistingDims
  unfoldable pub check_join_existing_dims : Cdm V → Cdm V → String → Result Bool
  check_join_existing_dims a r var_name =
      if not (has_variable var_name r)
      then ok false
      else (get_variable var_name r >>= λ v. get_variable var_name a >>= λ w.
          if not (same_shape v.shape w.shape)
          then ok false
          else same_lengths (is_unlimited_of r) a r v.shape)

  -- AggregationReader::checkJoinNewDims
  unfoldable pub check_join_new_dims : Cdm V → Cdm V → String → Result Bool
  check_join_new_dims a r var_name =
      if not (has_variable var_name r)
      then ok false
      else (get_variable var_name a >>= λ w. get_variable var_name r >>= λ v.
          if not (same_shape v.shape (without_last w.shape))
          then ok false
          else same_lengths (λ n. false) a r v.shape)

  -- AggregationReader::findUnionReader
  unfoldable pub find_union_reader : Aggregation V → String → Result (Option (PartReader V))
  find_union_reader g var_name = elim (lookup var_name g.union_readers) [
    | none ↦ ok none
    | some i ↦ (at g.readers i >>= λ reader. ok (some reader.1))
  ]

  -- The loops over the shape for the size of a slice of fill values
  unfoldable pub fill_size : (String → Bool) → Cdm V → List String → ℕ → Result ℕ
  fill_size skip c [] size = ok size
  fill_size skip c (n ∷ shape) size =
      if skip n
      then fill_size skip c shape size
      else (get_dimension n c >>= λ d. fill_size skip c shape (wmul size d.length))

  unfoldable pub filled : Aggregation V → String → ℕ → List V
  filled g var_name n = replicate n (g.fill_value var_name)

  -- A slice of a joined variable from the reader that was found
  unfoldable pub joined_slice :
      AggType → Aggregation V → String → CdmVariable V → PartReader V → ℕ → Result (Option (List V))
  joined_slice agg_join_existing g var_name a_var rd pos = do
    same ← check_join_existing_dims g.cdm rd.cdm var_name
    if same
        then (rd.slice_at var_name pos >>= λ values. ok (some values))
        else (fill_size (is_unlimited_of g.cdm) g.cdm a_var.shape 1 >>= λ n.
            ok (some (filled g var_name n)))
  joined_slice agg_join_new g var_name a_var rd pos = do
    same ← check_join_new_dims g.cdm rd.cdm var_name
    if same
        then (of_variable rd.cdm var_name false >>= λ sb.
            rd.built_slice var_name sb >>= λ values. ok (some values))
        else (fill_size (λ n. false) g.cdm a_var.shape 1 >>= λ n. ok (some (filled g var_name n)))
  joined_slice agg_union g var_name a_var rd pos = ok none

  -- The reader part of the class, for getDataSliceFromMemory
  abbrev pub own_reader : Aggregation V → CdmReader V
  own_reader g = record {
    cdm = g.cdm;
    get_data_slice_at = λ n i. ok [];
    empty_value = g.empty_value;
    fill_value = g.fill_value;
  }

  -- AggregationReader::getDataSlice(varName, unLimDimPos); none is the null pointer.
  unfoldable pub aggregated_slice : Aggregation V → String → ℕ → Result (Option (List V))
  aggregated_slice g var_name un_lim_dim_pos = do
    a_var ← get_variable var_name g.cdm
    if has_data a_var
        then get_data_slice_from_memory (own_reader g) a_var un_lim_dim_pos
        else (if member var_name g.join_vars
            then elim (find_join_reader g un_lim_dim_pos) [
              | none ↦ ok none
              | some found ↦ joined_slice g.agg_type g var_name a_var found.0 found.1
            ]
            else (find_union_reader g var_name >>= λ o. elim o [
              | none ↦ ok none
              | some rd ↦ (rd.slice_at var_name un_lim_dim_pos >>= λ values. ok (some values))
            ]))
