-- ===== src/Extractor/Slices.antt =====
-- CDMExtractor::getDataSlice and joinSlices (src/CDMExtractor.cc): a slice of the reduced data as
-- slices of the original data, read and joined. A failed `assert` is an error of its own.
use fimex.Prelude.Dict.{lookup}
use fimex.Cdm.Dimensions.{get_dimension}
use fimex.Data.Impl.{slice, copy_data, product}
use fimex.Reader.Slices.{to_the_end, get_data_slice_from_memory, get_data_slice}
use fimex.Cdm.Variables.{get_variable}
use fimex.Extractor.{CdmExtractor}
use fimex.Reader.{CdmReader}
use fimex.Slice.Builder.{
  get_dimension_names, get_start_and_size, at, set_start_and_size, of_variable, SliceBuilder,
}
use fimex.Cdm.Model.{has_data, Cdm}
use fimex.Prelude.Words.{wsub, wadd}
use fimex.Prelude.{
  leb, ◌==◌, replicate, ◌-◌, ltb, if◌then◌else◌, ◌+◌, length, String, Option, ℕ, List, [], ◌∷◌,
  ◌++◌, zero, suc, none, some, false,
}
use fimex.Prelude.Result.{assertion_failed, guard, Result, ◌>>=◌, ◌>>◌, ok}

-- The chunk from `start` to `last`: its start and size
unfoldable pub chunk : ℕ → ℕ → ℕ × ℕ
chunk start last = (start, wadd (wsub last start) 1)

-- The loop over the positions from `i` on, in chunks as large as possible
unfoldable pub chunk_rounds : List ℕ → ℕ → ℕ → ℕ → ℕ → List (ℕ × ℕ) → Result (List (ℕ × ℕ))
chunk_rounds positions zero i start last chunks = ok (chunks ++ chunk start last ∷ [])
chunk_rounds positions (suc rounds) i start last chunks = do
  position ← at positions i
  if position == wadd last 1
      then chunk_rounds positions rounds (i + 1) start position chunks
      else chunk_rounds positions rounds (i + 1) position position (chunks ++ chunk start last ∷ [])

unfoldable pub chunks_of : List ℕ → ℕ → ℕ → Result (List (ℕ × ℕ))
chunks_of positions sb_start sb_size = do
  start ← at positions sb_start
  chunk_rounds positions (sb_size - 1) (sb_start + 1) start start []

-- Positions that are read one by one, as chunks of size 1
unfoldable pub single_chunks : List ℕ → ℕ → ℕ → Result (List (ℕ × ℕ))
single_chunks positions i zero = ok []
single_chunks positions i (suc rounds) = do
  position ← at positions i
  chunks ← single_chunks positions (i + 1) rounds
  ok ((position, 1) ∷ chunks)

-- setStartAndSize on each slice
unfoldable pub set_each : String → ℕ → ℕ → List SliceBuilder → Result (List SliceBuilder)
set_each dim_name start size [] = ok []
set_each dim_name start size (sb ∷ slices) = do
  sb' ← set_start_and_size sb dim_name start size
  slices' ← set_each dim_name start size slices
  ok (sb' ∷ slices')

-- One new slice for each chunk and each slice before
unfoldable pub split_each : String → List (ℕ × ℕ) → List SliceBuilder → Result (List SliceBuilder)
split_each dim_name [] slices = ok []
split_each dim_name ((start, size) ∷ chunks) slices = do
  first ← set_each dim_name start size slices
  others ← split_each dim_name chunks slices
  ok (first ++ others)

-- The body of the loop over the dimensions, for the positions that the dimension is reduced to
unfoldable pub reduce_slices :
    Option (List ℕ) → String → ℕ → ℕ → List SliceBuilder → Result (List SliceBuilder)
reduce_slices none dim_name start size slices = set_each dim_name start size slices
reduce_slices (some []) dim_name start size slices = set_each dim_name start 0 slices
reduce_slices (some (p ∷ positions)) dim_name start size slices = do
  guard (ltb start (length (p ∷ positions))) assertion_failed
  guard (leb size (length (p ∷ positions) - start)) assertion_failed
  chunks ←
      if leb (length slices) 1
      then chunks_of (p ∷ positions) start size
      else single_chunks (p ∷ positions) start size
  split_each dim_name chunks slices

-- joinSlices: the total size, and the loop that adds the data
unfoldable pub total_size : List SliceBuilder → ℕ
total_size [] = 0
total_size (sb ∷ slices) = wadd (product sb.size) (total_size slices)

module _ {V : Type 0} where
  unfoldable pub join_from : CdmReader V → String → List SliceBuilder → ℕ → List V → Result (List V)
  join_from reader var_name [] data_pos values = ok values
  join_from reader var_name (sb ∷ slices) data_pos values = do
    slice_data ← get_data_slice reader var_name sb
    guard (length slice_data == product sb.size) assertion_failed
    values' ←
        if ltb 0 (length slice_data)
        then copy_data values data_pos slice_data 0 to_the_end
        else ok values
    join_from reader var_name slices (wadd data_pos (product sb.size)) values'

  unfoldable pub join_all : CdmReader V → String → List SliceBuilder → Result (List V)
  join_all reader var_name [] = ok []
  join_all reader var_name (sb ∷ []) = get_data_slice reader var_name sb
  join_all reader var_name (sb ∷ o ∷ slices) =
      join_from reader var_name (sb ∷ o ∷ slices) 0
        (replicate (total_size (sb ∷ o ∷ slices)) (reader.fill_value var_name))

  unfoldable pub join_slices : CdmReader V → String → List SliceBuilder → Result (List V)
  join_slices reader var_name slices = do
    variable ← get_variable var_name reader.cdm
    join_all reader var_name slices

  -- The loop of getDataSlice_ over the dimensions of the variable
  unfoldable pub reduce_all :
      CdmExtractor V → SliceBuilder → List String → List SliceBuilder → Result (List SliceBuilder)
  reduce_all x sb [] slices = ok slices
  reduce_all x sb (dim_name ∷ dims) slices = do
    dim ← get_dimension dim_name x.data_reader.cdm
    (start, size) ← get_start_and_size sb dim_name
    slices' ← reduce_slices (lookup dim.name x.dim_slices) dim.name start size slices
    reduce_all x sb dims slices'

  -- CDMExtractor::getDataSlice_
  unfoldable pub get_reduced_slice : CdmExtractor V → String → SliceBuilder → Result (List V)
  get_reduced_slice x var_name sb = do
    whole ← of_variable x.data_reader.cdm var_name false
    dims ← get_dimension_names whole
    slices ← reduce_all x sb dims (whole ∷ [])
    join_slices x.data_reader var_name slices

  -- CDMExtractor::getDataSlice(varName, sb)
  unfoldable pub extract_slice : CdmExtractor V → String → SliceBuilder → Result (List V)
  extract_slice x var_name sb = do
    variable ← get_variable var_name x.cdm
    elim variable.payload [
      | some d ↦
          if length d.values == 0 then ok d.values else slice d.values sb.max_size sb.start sb.size
      | none ↦
          if length x.dim_slices == 0
          then get_data_slice x.data_reader var_name sb
          else get_reduced_slice x var_name sb
    ]

  -- The loop of getDataSlice(varName, unLimDimPos) over the dimension names
  unfoldable pub set_unlimited : Cdm V → ℕ → List String → SliceBuilder → Result SliceBuilder
  set_unlimited c un_lim_dim_pos [] sb = ok sb
  set_unlimited c un_lim_dim_pos (dim_name ∷ dims) sb = do
    dim ← get_dimension dim_name c
    sb' ← if dim.unlimited then set_start_and_size sb dim_name un_lim_dim_pos 1 else ok sb
    set_unlimited c un_lim_dim_pos dims sb'

  -- CDMExtractor::getDataSlice(varName, unLimDimPos). The extractor is a reader of its own data
  -- model for getDataSliceFromMemory.
  unfoldable pub extract_position : CdmExtractor V → String → ℕ → Result (List V)
  extract_position x var_name un_lim_dim_pos = do
    variable ← get_variable var_name x.cdm
    if has_data variable
        then (get_data_slice_from_memory (record x.data_reader { cdm = x.cdm }) variable
              un_lim_dim_pos
            >>= λ o. ok (elim o [ none ↦ [] | some values ↦ values ]))
        else (if length x.dim_slices == 0
            then x.data_reader.get_data_slice_at var_name un_lim_dim_pos
            else do
              sb ← of_variable x.cdm var_name false
              dims ← get_dimension_names sb
              sb' ← set_unlimited x.cdm un_lim_dim_pos dims sb
              get_reduced_slice x var_name sb')
