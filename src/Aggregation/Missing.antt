-- ===== src/Aggregation/Missing.antt =====
-- AggregationReader::getDataSlice for a reader without the variable: how many fill values there are.
use fimex.Cdm.Variables.{get_variable, has_variable}
use fimex.Aggregation.{agg_join_new, agg_join_existing, PartReader, Aggregation}
use fimex.Prelude.Words.{wmul}
use fimex.Cdm.Dimensions.{get_dimension}
use fimex.Prelude.Result.{both_returned, ok-injective, ok}
use fimex.Cdm.Model.{CdmVariable, CdmDimension, Cdm}
use fimex.Data.Impl.{product, product_from}
use fimex.Reader.{get_dims_slice, get_dims, lengths_of, limited_lengths_of}
use fimex.Slice.Builder.{shape_dims}
use fimex.Aggregation.Slices.{
  own_reader, filled, check_join_new_dims, check_join_existing_dims, joined_slice, is_unlimited_of,
  fill_size,
}
use fimex.Prelude.{
  replicate, some, inr, ◌∙◌, refl, inl, Bool-cases, [], sym, ◌∷◌, false, ℕ, String, List, ◌≡◌,
}

module _ {V : Type 0} where
  fill_size-all :
      (c : Cdm V) (shape : List String) (ds : List CdmDimension) (size : ℕ)
      → shape_dims c shape ≡ ok ds
      → fill_size (λ n. false) c shape size ≡ ok (product_from size (lengths_of ds))
  unfolding fill_size shape_dims lengths_of product_from
  fill_size-all c [] ds size h = rw (← ok-injective h) refl
  fill_size-all c (n ∷ shape) ds size h =
      let (d, e, h') = both_returned (get_dimension n c) _ h in
      let (ds', e', h'') = both_returned (shape_dims c shape) _ h' in
      rw (e, ← ok-injective h'') (fill_size-all c shape ds' (wmul size d.length) e')

  fill_size-limited :
      (c : Cdm V) (shape : List String) (ds : List CdmDimension) (size : ℕ)
      → ((n : String) (d : CdmDimension)
          → get_dimension n c ≡ ok d
          → d.unlimited ≡ is_unlimited_of c n)
      → shape_dims c shape ≡ ok ds
      → fill_size (is_unlimited_of c) c shape size ≡ ok (product_from size (limited_lengths_of ds))
  unfolding fill_size shape_dims limited_lengths_of product_from
  fill_size-limited c [] ds size one h = rw (← ok-injective h) refl
  fill_size-limited c (n ∷ shape) ds size one h =
      let (d, e, h') = both_returned (get_dimension n c) _ h in
      let (ds', e', h'') = both_returned (shape_dims c shape) _ h' in
      let same : is_unlimited_of c n ≡ d.unlimited = sym (one n d e) in
      elim (Bool-cases d.unlimited) [
        | inl u ↦ rw (← ok-injective h'', same ∙ u, u) (fill_size-limited c shape ds' size one e')
        | inr u ↦
            rw (← ok-injective h'', same ∙ u, u, e)
              (fill_size-limited c shape ds' (wmul size d.length) one e')
      ]

  -- A position of a joined variable whose reader lacks the variable is filled up: for joinExisting,
  -- where the dimension found as the unlimited one is the only one, with as many values as a slice
  -- at one position has; for joinNew with the number of values of the whole variable, the joined
  -- dimension included.
  pub joined_slice-missing :
      (g : Aggregation V) (var_name : String) (v : CdmVariable V) (rd : PartReader V) (pos : ℕ)
      (slice_dims dims : List ℕ)
      → has_variable var_name rd.cdm ≡ false
      → get_variable var_name g.cdm ≡ ok v
      → ((n : String) (d : CdmDimension)
          → get_dimension n g.cdm ≡ ok d
          → d.unlimited ≡ is_unlimited_of g.cdm n)
      → get_dims_slice (own_reader g) var_name ≡ ok slice_dims
      → get_dims (own_reader g) var_name ≡ ok dims
      → (joined_slice agg_join_existing g var_name v rd pos
          ≡ ok (some (replicate (product slice_dims) (g.fill_value var_name))))
        × (joined_slice agg_join_new g var_name v rd pos
            ≡ ok (some (replicate (product dims) (g.fill_value var_name))))
  unfolding joined_slice check_join_existing_dims check_join_new_dims get_dims get_dims_slice filled
  joined_slice-missing g var_name v rd pos slice_dims dims absent found one es ea =
      let (ds, r, es') =
        both_returned (shape_dims g.cdm v.shape) _ (rw (get_dims_slice, found) at es) in
      let (ds', r', ea') =
        both_returned (shape_dims g.cdm v.shape) _ (rw (get_dims, found) at ea) in
      (
        rw
            (
              joined_slice,
              check_join_existing_dims,
              absent,
              fill_size-limited g.cdm v.shape ds 1 one r,
              ← ok-injective es',
            )
            refl,
        rw
            (
              joined_slice,
              check_join_new_dims,
              absent,
              fill_size-all g.cdm v.shape ds' 1 r',
              ← ok-injective ea',
            )
            refl,
      )
