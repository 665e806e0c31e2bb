-- ===== src/Aggregation/Readers.antt =====
-- AggregationReader::addOtherReader and addReader: what a further reader brings.
use fimex.Prelude.Text.{str_eq}
use fimex.Cdm.Variables.{modify_variable, add_variable, has_variable}
use fimex.Prelude.Dict.{insert, lookup, member}
use fimex.Cdm.Dimensions.{
  has_dimension, add_dimension, has_unlimited_dim, get_dimension, get_unlimited_dim,
}
use fimex.StringUtils.{Bytes}
use fimex.Cdm.Model.{CdmVariable, Cdm, CdmDimension}
use fimex.Aggregation.{
  copy_attributes, drop_data, add_join_dim, agg_union, copy_var, add_first_reader, agg_join_new,
  on_cdm, agg_join_existing, extend_joined, Aggregation, AggType, PartReader,
}
use fimex.Prelude.{
  ◌-◌, ◌||◌, length, ◌==◌, is_some, ◌&&◌, not, if◌then◌else◌, Bool, ℕ, List, [], ◌∷◌, ◌++◌, String,
  none, some, true, false,
}
use fimex.Prelude.Result.{◌>>=◌, for_each, Result, ok, err, chain}

module _ {V : Type 0} where
  -- aCdm.addDimension(rCdm.getDimension(n))
  unfoldable pub copy_dimension : Cdm V → String → Cdm V → Result (Unit {0}) × Cdm V
  copy_dimension from n to = elim (get_dimension n from) [
    | err e ↦ (err e, to)
    | ok d ↦ add_dimension d to
  ]

  -- The loop over a shape for joinExisting: dimensions that are missing are added, others must have
  -- the same length; the result says whether all had.
  unfoldable pub join_shape : Cdm V → String → List String → Bool → Cdm V → Result Bool × Cdm V
  join_shape r_cdm u_name [] dims_ok c = (ok dims_ok, c)
  join_shape r_cdm u_name (n ∷ shape) dims_ok c =
      if str_eq n u_name
      then join_shape r_cdm u_name shape dims_ok c
      else (if not (has_dimension n c)
          then (chain (copy_dimension r_cdm n c) λ u c'. join_shape r_cdm u_name shape dims_ok c')
          else chain (same_length n c r_cdm, c)
              λ same c'. join_shape r_cdm u_name shape (dims_ok && same) c')
    where
      same_length : String → Cdm V → Cdm V → Result Bool
      same_length n c r = do d ← get_dimension n c; e ← get_dimension n r; ok (d.length == e.length)

  -- A variable of the new reader that has its unlimited dimension joins, if its shape fits.
  unfoldable pub join_checked :
      Cdm V → CdmVariable V → Bool → Aggregation V → Result (Unit {0}) × Aggregation V
  join_checked r_cdm v false g = (ok tt, g)
  join_checked r_cdm v true g = chain (on_cdm (copy_var r_cdm v) g) λ u g'. (
    ok tt,
    record g' {
      cdm = modify_variable v.name drop_data g'.cdm;
      join_vars = insert v.name tt g'.join_vars;
    },
  )

  unfoldable pub join_variable :
      Cdm V → String → CdmVariable V → Aggregation V → Result (Unit {0}) × Aggregation V
  join_variable r_cdm u_name v g =
      let (r, c) = join_shape r_cdm u_name v.shape true g.cdm in
      chain (r, record g { cdm = c }) (join_checked r_cdm v)

  unfoldable pub join_other :
      Cdm V → String → CdmVariable V → Aggregation V → Result (Unit {0}) × Aggregation V
  join_other r_cdm u_name v g =
      if has_variable v.name g.cdm
      then (ok tt, g)
      else (if has_unlimited_dim v r_cdm then join_variable r_cdm u_name v g else (ok tt, g))

  -- The last statement of a join: the positions of the reader
  unfoldable pub then_extend :
      ℕ → Bytes → Unit {0} → Aggregation V → Result (Unit {0}) × Aggregation V
  then_extend len coord_value u g = extend_joined len coord_value g

  -- The dimension that only the new reader has is added.
  unfoldable pub join_dim : CdmDimension → Aggregation V → Result (Unit {0}) × Aggregation V
  join_dim r_udim g =
      if is_some (get_unlimited_dim g.cdm) then (ok tt, g) else on_cdm (add_dimension r_udim) g

  -- The variables of the reader joined, and its positions
  unfoldable pub join_variables :
      Cdm V → CdmDimension → Bytes → Unit {0} → Aggregation V → Result (Unit {0}) × Aggregation V
  join_variables r_cdm r_udim coord_value u g =
      chain (for_each r_cdm.variables (join_other r_cdm r_udim.name) g)
        (then_extend r_udim.length coord_value)

  unfoldable pub join_reader :
      Cdm V → CdmDimension → Bytes → Aggregation V → Result (Unit {0}) × Aggregation V
  join_reader r_cdm r_udim coord_value g =
      chain (join_dim r_udim g) (join_variables r_cdm r_udim coord_value)

  -- Whether the aggregation has an unlimited dimension of another name
  unfoldable pub other_unlimited : Cdm V → CdmDimension → Bool
  other_unlimited c r_udim = elim (get_unlimited_dim c) [
    | none ↦ false
    | some a ↦ not (str_eq r_udim.name a.name)
  ]

  unfoldable pub join_existing_other :
      Cdm V → Bytes → Aggregation V → Result (Unit {0}) × Aggregation V
  join_existing_other r_cdm coord_value g = elim (get_unlimited_dim r_cdm) [
    | none ↦ extend_joined 0 [] g
    | some r_udim ↦
        if other_unlimited g.cdm r_udim
        then extend_joined 0 [] g
        else join_reader r_cdm r_udim coord_value g
  ]

  -- joinNew: a variable that is to be joined and is not there yet is copied with the new dimension.
  unfoldable pub join_new_variable :
      Cdm V → CdmVariable V → Aggregation V → Result (Unit {0}) × Aggregation V
  join_new_variable r_cdm v g =
      if not (has_variable v.name g.cdm) && member v.name g.join_vars
      then (chain (on_cdm (add_variable (add_join_dim g.join_new_dim v)) g)
          λ u g'. on_cdm (copy_attributes r_cdm v.name) g')
      else (ok tt, g)

  unfoldable pub other_by_type :
      AggType → Cdm V → Bytes → Aggregation V → Result (Unit {0}) × Aggregation V
  other_by_type agg_join_existing r_cdm coord_value g = join_existing_other r_cdm coord_value g
  other_by_type agg_join_new r_cdm coord_value g =
      chain (for_each r_cdm.variables (join_new_variable r_cdm) g) (then_extend 1 coord_value)
  other_by_type agg_union r_cdm coord_value g = (ok tt, g)

  -- The check of one dimension for a union; dimensions that are missing are added at once.
  unfoldable pub union_dim : CdmDimension → Bool → Cdm V → Result Bool × Cdm V
  union_dim r_dim dims_ok c = elim (get_dimension r_dim.name c) [
    | ok d ↦ (
      ok (
          dims_ok
          && (not (d.unlimited && not r_dim.unlimited) && not (not d.unlimited && r_dim.unlimited))
          && (r_dim.length == d.length)),
      c,
    )
    | err e ↦
        if r_dim.unlimited && is_some (get_unlimited_dim c)
        then (ok false, c)
        else chain (add_dimension r_dim c) λ u c'. (ok dims_ok, c')
  ]

  unfoldable pub union_shape : Cdm V → List String → Bool → Cdm V → Result Bool × Cdm V
  union_shape r_cdm [] dims_ok c = (ok dims_ok, c)
  union_shape r_cdm (n ∷ shape) dims_ok c =
      chain (get_dimension n r_cdm, c)
        λ r_dim c'.
          chain (union_dim r_dim dims_ok c') λ dims_ok' c''. union_shape r_cdm shape dims_ok' c''

  unfoldable pub union_checked :
      Cdm V → ℕ → CdmVariable V → Bool → Aggregation V → Result (Unit {0}) × Aggregation V
  union_checked r_cdm reader_index v false g = (ok tt, g)
  union_checked r_cdm reader_index v true g =
      on_cdm (copy_var r_cdm v)
        (record g { union_readers = insert v.name reader_index g.union_readers })

  unfoldable pub union_variable :
      Cdm V → ℕ → CdmVariable V → Aggregation V → Result (Unit {0}) × Aggregation V
  union_variable r_cdm reader_index v g =
      if member v.name g.join_vars || is_some (lookup v.name g.union_readers)
      then (ok tt, g)
      else (let (r, c) = union_shape r_cdm v.shape true g.cdm in
          chain (r, record g { cdm = c }) (union_checked r_cdm reader_index v))

  -- AggregationReader::addOtherReader
  unfoldable pub add_other_reader :
      PartReader V → Bytes → Aggregation V → Result (Unit {0}) × Aggregation V
  add_other_reader reader coord_value g =
      chain (other_by_type g.agg_type reader.cdm coord_value g)
        λ u g'. for_each reader.cdm.variables (union_variable reader.cdm (length g'.readers - 1)) g'

  -- AggregationReader::addReader; the name that it makes up is used for messages only.
  unfoldable pub add_reader :
      PartReader V → String → Bytes → Aggregation V → Result (Unit {0}) × Aggregation V
  add_reader reader id coord_value g0 =
      let g = record g0 { readers = g0.readers ++ (id, reader) ∷ [] } in
      if length g.readers == 1
      then add_first_reader reader coord_value g
      else add_other_reader reader coord_value g
