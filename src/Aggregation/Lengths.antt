-- ===== src/Aggregation/Lengths.antt =====
-- addReader: how much the part for a kind of aggregation extends the joined dimension.
use fimex.Prelude.Text.{str_eq}
use fimex.Aggregation.Kept.{
  join_first-Keeps, same_members, join_other-Keeps, join_new_variable-Keeps,
}
use fimex.Cdm.Dimensions.{add_dimension, get_unlimited_dim}
use fimex.Aggregation.Joined.{
  Keeps-trans, on_cdm-Keeps, Keeps-refl, extend_joined-Extends, Keeps-Extends, for_each-Keeps,
  chain-Extends, Keeps, Extends,
}
use fimex.StringUtils.{Bytes}
use fimex.Aggregation.{
  unlimited_dimension, first_reshaped, limit_unlimited, agg_join_new, agg_join_existing, agg_union,
  Aggregation, first_by_type, AggType,
}
use fimex.Aggregation.Readers.{
  join_new_variable, join_other, join_dim, then_extend, join_variables, other_unlimited,
  join_existing_other, other_by_type, join_reader,
}
use fimex.Cdm.Model.{Cdm, CdmDimension}
use fimex.Prelude.Result.{for_each, err, ok, chain, Result}
use fimex.Prelude.{
  if◌then◌else◌, none, some, Option, inr, inl, Bool-cases, Option-cases, is_some, false, true, Bool,
  ℕ, [], ◌≡◌, refl,
}

-- Joining types, which give each reader its positions.
abbrev pub joins : AggType → Bool
joins agg_union = false
joins _ = true

-- A sequence that returned began with a statement that did.
pub first_ok {ℓ σ} :
    {A : Type ℓ} {S : Type σ} (m : Result (Unit {0}) × S) (f : Unit {0} → S → Result A × S) {a : A}
    → (chain m f).0 ≡ ok a
    → m.0 ≡ ok tt
first_ok (ok u, s) f h = refl
first_ok (err e, s) f h = cc

-- How long a reader is along the joined dimension, by the unlimited dimensions of the aggregation
-- before it and of the reader: for joinNew 1, and for joinExisting the length of the reader's
-- unlimited dimension, or 0 if it has none or one of another name than the aggregation.
abbrev pub own_length : AggType → Option CdmDimension → Option CdmDimension → ℕ
own_length agg_union joined own = 0
own_length agg_join_new joined own = 1
own_length agg_join_existing joined none = 0
own_length agg_join_existing none (some own) = own.length
own_length agg_join_existing (some joined) (some own) =
    if str_eq own.name joined.name then own.length else 0

module _ {V : Type 0} where
  first_reshaped-Extends :
      (cv : Bytes) (u : Unit {0}) (g : Aggregation V) → Extends 1 g (first_reshaped cv u g).1
  unfolding first_reshaped
  first_reshaped-Extends cv u g = Keeps-Extends (same_members _ g) (extend_joined-Extends 1 cv _)

  then_extend-Extends :
      (len : ℕ) (cv : Bytes) (u : Unit {0}) (g : Aggregation V)
      → Extends len g (then_extend len cv u g).1
  unfolding then_extend
  then_extend-Extends len cv u g = extend_joined-Extends len cv g

  pub first_by_type-Extends :
      (t : AggType) (cv : Bytes) (g : Aggregation V)
      → joins t ≡ true
      → (first_by_type t cv g).0 ≡ ok tt
      → Extends (own_length t none (get_unlimited_dim g.cdm)) g (first_by_type t cv g).1
  unfolding first_by_type
  first_by_type-Extends agg_union cv g j h = cc
  first_by_type-Extends agg_join_existing cv g j h = elim (Option-cases (get_unlimited_dim g.cdm)) [
    | inl e ↦ rw (first_by_type, e) (extend_joined-Extends 0 [] g)
    | inr (u, e) ↦
        rw (first_by_type, e)
          (Keeps-Extends (join_first-Keeps g.cdm.variables g) (extend_joined-Extends u.length cv _))
  ]
  first_by_type-Extends agg_join_new cv g j h =
      chain-Extends 1 g _ (first_reshaped cv) h
        (Keeps-trans (same_members (limit_unlimited g.cdm) g) (
          on_cdm-Keeps (add_dimension (unlimited_dimension g.join_new_dim 0))
            (record g { cdm = limit_unlimited g.cdm })))
        (λ u s q. first_reshaped-Extends cv u s)

  join_dim-Keeps : (r_udim : CdmDimension) (g : Aggregation V) → Keeps g (join_dim r_udim g).1
  unfolding join_dim
  join_dim-Keeps r_udim g = elim (Bool-cases (is_some (get_unlimited_dim g.cdm))) [
    | inl e ↦ rw e (Keeps-refl g)
    | inr e ↦ rw e (on_cdm-Keeps (add_dimension r_udim) g)
  ]

  join_variables-Extends :
      (r_cdm : Cdm V) (r_udim : CdmDimension) (cv : Bytes) (u : Unit {0}) (g : Aggregation V)
      → (join_variables r_cdm r_udim cv u g).0 ≡ ok tt
      → Extends r_udim.length g (join_variables r_cdm r_udim cv u g).1
  unfolding join_variables
  join_variables-Extends r_cdm r_udim cv u g h =
      chain-Extends r_udim.length g (for_each r_cdm.variables (join_other r_cdm r_udim.name) g)
        (then_extend r_udim.length cv) h
        (for_each-Keeps r_cdm.variables (join_other r_cdm r_udim.name) g
          (join_other-Keeps r_cdm r_udim.name))
        (λ u' t q. then_extend-Extends r_udim.length cv u' t)

  join_reader-Extends :
      (r_cdm : Cdm V) (r_udim : CdmDimension) (cv : Bytes) (g : Aggregation V)
      → (join_reader r_cdm r_udim cv g).0 ≡ ok tt
      → Extends r_udim.length g (join_reader r_cdm r_udim cv g).1
  unfolding join_reader
  join_reader-Extends r_cdm r_udim cv g h =
      chain-Extends r_udim.length g (join_dim r_udim g) (join_variables r_cdm r_udim cv) h
        (join_dim-Keeps r_udim g) (join_variables-Extends r_cdm r_udim cv)

  own_length-other_unlimited :
      (c : Cdm V) (own : CdmDimension)
      → own_length agg_join_existing (get_unlimited_dim c) (some own)
        ≡ (if other_unlimited c own then 0 else own.length)
  unfolding other_unlimited
  own_length-other_unlimited c own = elim (Option-cases (get_unlimited_dim c)) [
    | inl e ↦ rw (other_unlimited, e) refl
    | inr (a, e) ↦ elim (Bool-cases (str_eq own.name a.name)) [
      | inl q ↦ rw (other_unlimited, e, q) refl
      | inr q ↦ rw (other_unlimited, e, q) refl
    ]
  ]

  join_existing_other-Extends :
      (r_cdm : Cdm V) (cv : Bytes) (g : Aggregation V)
      → (join_existing_other r_cdm cv g).0 ≡ ok tt
      → Extends
          (own_length agg_join_existing (get_unlimited_dim g.cdm) (get_unlimited_dim r_cdm))
          g
          (join_existing_other r_cdm cv g).1
  unfolding join_existing_other
  join_existing_other-Extends r_cdm cv g h = elim (Option-cases (get_unlimited_dim r_cdm)) [
    | inl e ↦ rw (join_existing_other, e) (extend_joined-Extends 0 [] g)
    | inr (u, e) ↦ elim (Bool-cases (other_unlimited g.cdm u)) [
      | inl o ↦
          rw (join_existing_other, e, own_length-other_unlimited g.cdm u, o)
            (extend_joined-Extends 0 [] g)
      | inr o ↦
          rw (join_existing_other, e, own_length-other_unlimited g.cdm u, o)
            (join_reader-Extends r_cdm u cv g (rw (join_existing_other, e, o) at h))
    ]
  ]

  pub other_by_type-Extends :
      (t : AggType) (r_cdm : Cdm V) (cv : Bytes) (g : Aggregation V)
      → joins t ≡ true
      → (other_by_type t r_cdm cv g).0 ≡ ok tt
      → Extends
          (own_length t (get_unlimited_dim g.cdm) (get_unlimited_dim r_cdm))
          g
          (other_by_type t r_cdm cv g).1
  unfolding other_by_type
  other_by_type-Extends agg_union r_cdm cv g j h = absurd (not_joined j)
    where
      not_joined : false ≡ true → ⊥
      not_joined q = cc
  other_by_type-Extends agg_join_existing r_cdm cv g j h = join_existing_other-Extends r_cdm cv g h
  other_by_type-Extends agg_join_new r_cdm cv g j h =
      chain-Extends 1 g (for_each r_cdm.variables (join_new_variable r_cdm) g) (then_extend 1 cv) h
        (for_each-Keeps r_cdm.variables (join_new_variable r_cdm) g (join_new_variable-Keeps r_cdm))
        (λ u s q. then_extend-Extends 1 cv u s)
