-- ===== src/Aggregation/Read.antt =====
-- getDataSlice of a joined variable: the data come from the reader that has the position.
use fimex.Cdm.Dimensions.{get_dimension, get_unlimited_dim}
use fimex.Prelude.Text.{str_eq, str_eq_refl}
use fimex.Prelude.Dict.{member}
use fimex.Prelude.Result.{◌>>=◌, ok}
use fimex.Cdm.Variables.{has_variable, get_variable}
use fimex.Prelude.Words.{size_mod}
use fimex.Aggregation.Positions.{
  first_of, find_join_reader-past, find_join_reader-position, sum_of, IsJoined,
}
use fimex.Cdm.Model.{var_named, CdmDimension, Cdm, has_data, CdmVariable}
use fimex.Aggregation.{agg_join_existing, PartReader, Aggregation}
use fimex.Aggregation.Slices.{
  is_unlimited_of, same_shape, same_lengths, check_join_existing_dims, joined_slice,
  aggregated_slice,
}
use fimex.Prelude.{
  Option, Bool-cases, arith, ◌==◌, inr, ap, suc, ◌∙◌, ◌⊎◌, [], inl, find_if, zero, ◌∷◌,
  Option-cases, refl, none, ◌+◌, true, false, ◌≤◌, get_or, length, some, get_elem?, ◌<◌, String, ℕ,
  List, ◌≡◌,
}

same_shape_refl : (shape : List String) → same_shape shape shape ≡ true
unfolding same_shape
same_shape_refl [] = refl
same_shape_refl (n ∷ shape) = rw (str_eq_refl n, same_shape_refl shape) refl

module _ {V : Type 0} where
  -- A dimension is the unlimited one of the reader, or as long in both data models.
  abbrev pub SameLength : Cdm V → Cdm V → String → Type 0
  SameLength a r n =
      ((u : CdmDimension) × (get_unlimited_dim r ≡ some u) × (u.name ≡ n))
      ⊎ ((d e : CdmDimension) × (get_dimension n a ≡ ok d)
          × (get_dimension n r ≡ ok e)
          × (d.length ≡ e.length))

  -- A reader has the variable with the shape that it has in the aggregation, and with these lengths.
  pub record Agrees (a r : Cdm V) (var_name : String) (v : CdmVariable V) : Type 0 where
    pub own : CdmVariable V
    pub has : get_variable var_name r ≡ ok own
    pub shape : own.shape ≡ v.shape
    pub lengths : (j : ℕ) (n : String) → get_elem? v.shape j ≡ some n → SameLength a r n

  same_lengths-one :
      (a r : Cdm V) (n : String) (shape : List String)
      → SameLength a r n
      → same_lengths (is_unlimited_of r) a r (n ∷ shape)
        ≡ same_lengths (is_unlimited_of r) a r shape
  unfolding same_lengths
  same_lengths-one a r n shape (inl (u, e, q)) =
      let skipped : is_unlimited_of r n ≡ true =
        ap (λ (o : Option CdmDimension). elim o [ none ↦ false | some u ↦ str_eq n u.name ]) e
        ∙ ap (λ (m : String). str_eq n m) q
        ∙ str_eq_refl n in
      rw (same_lengths, skipped) refl
  same_lengths-one a r n shape (inr (d, e, in_a, in_r, same)) =
      let equal : (d.length == e.length) ≡ true = ground (arith, same) in
      elim (Bool-cases (is_unlimited_of r n)) [
        | inl t ↦ rw (same_lengths, t) refl
        | inr t ↦ rw (same_lengths, t, in_a, in_r, equal) refl
      ]

  same_lengths-all :
      (a r : Cdm V) (shape : List String)
      → ((j : ℕ) (n : String) → get_elem? shape j ≡ some n → SameLength a r n)
      → same_lengths (is_unlimited_of r) a r shape ≡ ok true
  unfolding same_lengths
  same_lengths-all a r [] all = refl
  same_lengths-all a r (n ∷ shape) all =
      same_lengths-one a r n shape (all zero n refl) ∙ same_lengths-all a r shape (λ j. all (suc j))

  has_variable-found :
      (c : Cdm V) (n : String) (w : CdmVariable V)
      → get_variable n c ≡ ok w
      → has_variable n c ≡ true
  unfolding has_variable get_variable
  has_variable-found c n w h = elim (Option-cases (find_if (var_named n) c.variables)) [
    | inl q ↦ absurd (cc (rw (get_variable, q) at h))
    | inr (x, q) ↦ rw (has_variable, q) refl
  ]

  check_join_existing_dims-Agrees :
      (a r : Cdm V) (var_name : String) (v : CdmVariable V)
      → get_variable var_name a ≡ ok v
      → Agrees a r var_name v
      → check_join_existing_dims a r var_name ≡ ok true
  unfolding check_join_existing_dims
  check_join_existing_dims-Agrees a r var_name v e agrees =
      rw
        (
          check_join_existing_dims,
          has_variable-found r var_name agrees.own agrees.has,
          agrees.has,
          e,
          agrees.shape,
          same_shape_refl v.shape,
        )
        (same_lengths-all a r v.shape agrees.lengths)

  -- A variable of a joinExisting aggregation that is joined and holds no data: at a position behind
  -- those of the first `i` readers and within those of the next one, getDataSlice is that of this
  -- reader at its own position, if the variable has the same shape there, and its dimensions but the
  -- reader's unlimited one the same lengths; and behind the positions of all readers it is null. The
  -- positions of all readers together are fewer than 2^64.
  pub aggregated_slice-joined :
      (g : Aggregation V) (lens : List ℕ) (i pos past : ℕ) (id : String) (reader : PartReader V)
      (var_name : String) (v : CdmVariable V)
      → IsJoined g lens
      → sum_of lens < size_mod
      → get_elem? g.readers i ≡ some (id, reader)
      → i < length lens
      → pos < get_or lens i 0
      → sum_of lens ≤ past
      → g.agg_type ≡ agg_join_existing
      → get_variable var_name g.cdm ≡ ok v
      → has_data v ≡ false
      → member var_name g.join_vars ≡ true
      → Agrees g.cdm reader.cdm var_name v
      → (aggregated_slice g var_name (first_of lens i + pos)
          ≡ (reader.slice_at var_name pos >>= λ values. ok (some values)))
        × (aggregated_slice g var_name past ≡ ok none)
  unfolding aggregated_slice joined_slice
  aggregated_slice-joined g lens i pos past id reader var_name v j small r h l behind t e d m
        agrees =
      let found = find_join_reader-position g lens i pos id reader j small r h l in
      let c = check_join_existing_dims-Agrees g.cdm reader.cdm var_name v e agrees in
      let lost = find_join_reader-past g lens past j small behind in
      (
        rw (aggregated_slice, e, d, m, found, t, joined_slice, c) refl,
        rw (aggregated_slice, e, d, m, lost) refl,
      )
