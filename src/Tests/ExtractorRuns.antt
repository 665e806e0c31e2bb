-- ===== src/Tests/ExtractorRuns.antt =====
-- A dimension of three values, reduced.
use fimex.Extractor.Reduced.{reduce_to_slices-outcome, IsReduced}
use fimex.Extractor.Select.{select_variables-kept}
use fimex.Cdm.Variables.{get_variable}
use fimex.Extractor.Range.{reduce_dimension_start_end-last, reduce_dimension_start_end-back}
use fimex.Extractor.Chunks.{chunks_of-expand, chunks_of-nothing, from_to, expand}
use fimex.Prelude.Words.{size_mod, wsub}
use fimex.Extractor.Slices.{chunk, single_chunks, chunk_rounds, chunks_of}
use fimex.Reader.{CdmReader}
use fimex.Prelude.Dict.{member}
use fimex.Cdm.DataType.{CdmDataType}
use fimex.Prelude.Result.{cdm_exception, err, ok}
use fimex.Cdm.Dimensions.{get_dimension}
use fimex.Extractor.{
  select_variables, reduce_dimension_start_end, insert_slice, use_slices, reduce_to_slices,
  CdmExtractor, reduce_dimension,
}
use fimex.Cdm.Model.{new_dimension, new_variable, Cdm}
use fimex.Prelude.{
  ◌≤◌, ◌==◌, zero, suc, arith, ◌-◌, ◌<◌, upto, ◌+◌, List, get_or, if◌then◌else◌, ◌⊎◌, true, any,
  false, ◌≡◌, ℕ, [], ◌∷◌, refl,
}

abbrev line : Cdm ℕ
line = record {
  attributes = [];
  variables = new_variable "p" CdmDataType.int ("x" ∷ []) ∷ [];
  dimensions = new_dimension "x" 3 ∷ [];
  coords_initialized = false;
}

abbrev no_data : CdmReader ℕ
no_data = record {
  cdm = line;
  get_data_slice_at = λ n i. ok [];
  empty_value = 0;
  fill_value = λ n. 0;
}

abbrev extractor : CdmExtractor ℕ
extractor = record { data_reader = no_data; cdm = line; dim_slices = [] }

x_run : get_dimension "x" line ≡ ok (new_dimension "x" 3)
unfolding get_dimension
x_run = refl

-- Positions 2 and 3 are taken of a dimension that ends at 2.
past_the_end : (reduce_dimension "x" 2 2 extractor).0 ≡ ok tt
unfolding reduce_dimension reduce_to_slices use_slices insert_slice get_dimension
past_the_end = refl

reduce_to_slices-outcome_example :
    ((p : ℕ) × (any (λ sz. sz == p) (0 ∷ 2 ∷ []) ≡ true)
      × (3 < p)
      × (reduce_to_slices "x" (0 ∷ 2 ∷ []) extractor ≡ (err cdm_exception, extractor)))
    ⊎ (((p : ℕ) → any (λ sz. sz == p) (0 ∷ 2 ∷ []) ≡ true → p ≤ 3)
        × IsReduced "x"
            (0 ∷ 2 ∷ [])
            (new_dimension "x" 3)
            extractor
            (reduce_to_slices "x" (0 ∷ 2 ∷ []) extractor))
reduce_to_slices-outcome_example =
    reduce_to_slices-outcome "x" (0 ∷ 2 ∷ []) extractor (new_dimension "x" 3) x_run

-- Positions 0, 1, 2, 5, 6 and 9, of which four are asked for.
abbrev kept : List ℕ
kept = 0 ∷ 1 ∷ 2 ∷ 5 ∷ 6 ∷ 9 ∷ []

kept_small : (j : ℕ) → get_or kept j 0 + 1 < size_mod
kept_small zero = omega arith
kept_small (suc zero) = omega arith
kept_small (suc (suc zero)) = omega arith
kept_small (suc (suc (suc zero))) = omega arith
kept_small (suc (suc (suc (suc zero)))) = omega arith
kept_small (suc (suc (suc (suc (suc zero))))) = omega arith
kept_small (suc (suc (suc (suc (suc (suc j)))))) = omega arith

-- Two chunks: 1 and 2, and 5 and 6.
two_chunks : chunks_of kept 1 4 ≡ ok ((1, 2) ∷ (5, 2) ∷ [])
unfolding chunks_of chunk_rounds chunk
two_chunks = refl

chunks_of-expand_example :
    (cs : List (ℕ × ℕ)) × (chunks_of kept 1 4 ≡ ok cs) × (expand cs ≡ from_to kept 1 4)
chunks_of-expand_example = chunks_of-expand kept kept_small 1 4 (omega arith) (omega arith)

chunks_of-nothing_run :
    (chunks_of kept 1 0 ≡ ok ((get_or kept 1 0, 1) ∷ [])) × (single_chunks kept 1 0 ≡ ok [])
chunks_of-nothing_run = chunks_of-nothing kept kept_small 1 (omega arith)

reduce_dimension_start_end-last_example :
    reduce_dimension_start_end "x" 1 2 extractor
    ≡ reduce_to_slices "x" (upto 1 (2 - 1 + 1)) extractor
reduce_dimension_start_end-last_example =
    reduce_dimension_start_end-last "x" 1 extractor 2 (omega arith) (omega arith) (omega arith)

-- The last position is left out.
reduce_dimension_start_end-back_example :
    reduce_dimension_start_end "x" 1 (wsub 0 1) extractor
    ≡ reduce_to_slices "x" (upto 1 (3 - 1 - 1)) extractor
reduce_dimension_start_end-back_example =
    reduce_dimension_start_end-back "x" 1 extractor 1 (new_dimension "x" 3) x_run (omega arith)
      (omega arith) (omega arith)

abbrev two_variables : CdmExtractor ℕ
two_variables = record extractor {
  cdm = record line {
    variables =
        new_variable "p" CdmDataType.int ("x" ∷ [])
        ∷ new_variable "q" CdmDataType.int ("x" ∷ [])
        ∷ [];
  };
}

select_variables-kept_example :
    (get_variable "q" (select_variables (("p", tt) ∷ []) two_variables).cdm ≡ (
      if member "q" (("p", tt) ∷ [])
      then get_variable "q" two_variables.cdm
      else err cdm_exception))
    × ((select_variables (("p", tt) ∷ []) two_variables).dim_slices ≡ [])
select_variables-kept_example = select_variables-kept (("p", tt) ∷ []) two_variables "q"
