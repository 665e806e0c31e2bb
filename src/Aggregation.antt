-- ===== src/Aggregation.antt =====
-- AggregationReader (include/fimex/AggregationReader.h, src/AggregationReader.cc): several readers
-- as one, joined along an unlimited dimension or as a union of their variables.
pub mod Readers
pub mod Slices
pub mod BuiltSlices
pub mod Positions
pub mod Joined
pub mod Kept
pub mod Lengths
pub mod Added
pub mod Missing
pub mod Read
use fimex.Cdm.Variables.{add_attribute, modify_variable, get_attributes, has_variable, add_variable}
use fimex.Prelude.Text.{str_eq}
use fimex.Slice.Builder.{SliceBuilder}
use fimex.Cdm.Dimensions.{add_dimension, has_unlimited_dim, modify_dimension, get_unlimited_dim}
use fimex.Prelude.Dict.{insert, member, Dict, NameSet}
use fimex.StringUtils.{codes, tokenize, Bytes}
use fimex.Cdm.Model.{CdmVariable, Cdm, CdmDimension}
use fimex.Prelude.Words.{wadd}
use fimex.Prelude.{
  not, ◌==◌, length, if◌then◌else◌, ℕ, List, [], ◌∷◌, ◌++◌, String, Option, none, some, true, false,
}
use fimex.Prelude.Result.{cdm_exception, for_each, Result, ok, err, chain}

pub data AggType : Type 0 where
  agg_union agg_join_existing agg_join_new : AggType

-- AggregationReader::aggTypeFromText
unfoldable pub agg_type_from_text : String → Result AggType
agg_type_from_text agg_type =
    if str_eq agg_type "joinExisting"
    then ok agg_join_existing
    else if str_eq agg_type "joinNew"
    then ok agg_join_new
    else if str_eq agg_type "union"
    then ok agg_union
    else err cdm_exception

-- What an aggregation uses of one of its readers: its data model and its two virtual getDataSlice.
pub record PartReader (V : Type 0) : Type 0 where
  pub cdm : Cdm V
  pub slice_at : String → ℕ → Result (List V)
  pub built_slice : String → SliceBuilder → Result (List V)

-- The members of the class; the last two are the values that createData fills arrays with, as in
-- CdmReader.
pub record Aggregation (V : Type 0) : Type 0 where
  pub agg_type : AggType
  pub cdm : Cdm V
  pub readers : List (String × PartReader V)
  pub join_new_dim : String
  pub join_coord_values : List Bytes
  pub join_vars : NameSet
  pub reader_udim_pos : List ℕ
  pub union_readers : Dict ℕ
  pub empty_value : V
  pub fill_value : String → V

-- readerUdimPos_.back(), or 0
unfoldable pub joined_before : List ℕ → ℕ
joined_before [] = 0
joined_before (p ∷ []) = p
joined_before (p ∷ q ∷ ps) = joined_before (q ∷ ps)

unfoldable pub not_unlimited : CdmDimension → CdmDimension
not_unlimited d = record d { unlimited = false }

abbrev pub unlimited_dimension : String → ℕ → CdmDimension
unlimited_dimension n len = record { name = n; length = len; unlimited = true }

module _ {V : Type 0} where
  -- setLength through the reference that getDimension returns
  unfoldable pub set_dim_length : String → ℕ → Cdm V → Cdm V
  set_dim_length n len c = modify_dimension n (λ (d : CdmDimension). record d { length = len }) c

  -- The part of extendJoinedUnLimDimBy before the coordinate values
  unfoldable pub extend_positions : ℕ → Aggregation V → Aggregation V
  extend_positions len g =
      let after = wadd (joined_before g.reader_udim_pos) len in
      record g {
        reader_udim_pos = g.reader_udim_pos ++ after ∷ [];
        cdm = elim (get_unlimited_dim g.cdm) [
          | none ↦ g.cdm
          | some u ↦ set_dim_length u.name after g.cdm
        ];
      }

  -- AggregationReader::extendJoinedUnLimDimBy
  unfoldable pub extend_joined : ℕ → Bytes → Aggregation V → Result (Unit {0}) × Aggregation V
  extend_joined len coord_value g0 =
      let g = extend_positions len g0 in
      let coord_values = tokenize coord_value (codes " ") in
      if length coord_value == 0
      then (ok tt, g)
      else (if not (length coord_values == len)
          then (err cdm_exception, g)
          else (ok tt, record g { join_coord_values = g.join_coord_values ++ coord_values }))

  -- copyAttributes and copyVar
  unfoldable pub copy_attributes : Cdm V → String → Cdm V → Result (Unit {0}) × Cdm V
  copy_attributes from var_name to =
      for_each (get_attributes var_name from) (add_attribute var_name) to

  unfoldable pub copy_var : Cdm V → CdmVariable V → Cdm V → Result (Unit {0}) × Cdm V
  copy_var from from_var to =
      chain (add_variable from_var to) λ u to'. copy_attributes from from_var.name to'

  -- A call on the data model of the aggregation
  unfoldable pub on_cdm :
      (Cdm V → Result (Unit {0}) × Cdm V) → Aggregation V → Result (Unit {0}) × Aggregation V
  on_cdm f g = let (r, c) = f g.cdm in (r, record g { cdm = c })

  unfoldable pub drop_data : CdmVariable V → CdmVariable V
  drop_data v = record v { payload = none }

  unfoldable pub add_join_dim : String → CdmVariable V → CdmVariable V
  add_join_dim dim_name v = record v { shape = v.shape ++ dim_name ∷ [] }

  -- The loop of addFirstReader over the variables with the unlimited dimension
  unfoldable pub join_first : List (CdmVariable V) → Aggregation V → Aggregation V
  join_first [] g = g
  join_first (v ∷ vs) g = join_first vs (
      if has_unlimited_dim v g.cdm
      then record g {
        cdm = modify_variable v.name drop_data g.cdm;
        join_vars = insert v.name tt g.join_vars;
      }
      else g)

  -- The loop of addFirstReader over the names of joinNew
  unfoldable pub reshape_joined : String → NameSet → Cdm V → Cdm V
  reshape_joined dim_name [] c = c
  reshape_joined dim_name ((n, u) ∷ names) c =
      reshape_joined dim_name names
        (if has_variable n c then modify_variable n (add_join_dim dim_name) c else c)

  -- The unlimited dimension of the first reader becomes a limited one.
  unfoldable pub limit_unlimited : Cdm V → Cdm V
  limit_unlimited c = elim (get_unlimited_dim c) [
    | none ↦ c
    | some u ↦ modify_dimension u.name not_unlimited c
  ]

  -- The statements of joinNew after the new dimension
  unfoldable pub first_reshaped :
      Bytes → Unit {0} → Aggregation V → Result (Unit {0}) × Aggregation V
  first_reshaped coord_value u g =
      extend_joined 1 coord_value
        (record g { cdm = reshape_joined g.join_new_dim g.join_vars g.cdm })

  -- The part of addFirstReader that depends on the kind of aggregation
  unfoldable pub first_by_type : AggType → Bytes → Aggregation V → Result (Unit {0}) × Aggregation V
  first_by_type agg_join_existing coord_value g = elim (get_unlimited_dim g.cdm) [
    | none ↦ extend_joined 0 [] g
    | some u ↦ extend_joined u.length coord_value (join_first g.cdm.variables g)
  ]
  first_by_type agg_join_new coord_value g =
      chain
        (on_cdm (add_dimension (unlimited_dimension g.join_new_dim 0))
          (record g { cdm = limit_unlimited g.cdm }))
        (first_reshaped coord_value)
  first_by_type agg_union coord_value g = (ok tt, g)

  -- The loop over the variables that are not joined
  unfoldable pub union_first : List (CdmVariable V) → Aggregation V → Aggregation V
  union_first [] g = g
  union_first (v ∷ vs) g = union_first vs (
      if member v.name g.join_vars
      then g
      else record g { union_readers = insert v.name 0 g.union_readers })

  -- AggregationReader::addFirstReader
  unfoldable pub add_first_reader :
      PartReader V → Bytes → Aggregation V → Result (Unit {0}) × Aggregation V
  add_first_reader reader coord_value g =
      chain (first_by_type g.agg_type coord_value (record g { cdm = reader.cdm }))
        λ u g'. (ok tt, union_first g'.cdm.variables g')
