-- ===== src/Aggregation/Kept.antt =====
-- The steps of addReader that leave the positions and the readers alone.
use fimex.Cdm.Dimensions.{has_unlimited_dim}
use fimex.Cdm.Variables.{has_variable}
use fimex.Prelude.Dict.{insert, lookup, member}
use fimex.Aggregation.Joined.{on_cdm-Keeps, Keeps-trans, Keeps-refl, chain-Keeps, Keeps}
use fimex.Aggregation.{on_cdm, copy_attributes, copy_var, Aggregation, join_first, union_first}
use fimex.Cdm.Model.{CdmVariable, Cdm}
use fimex.Aggregation.Readers.{
  union_checked, join_checked, join_variable, join_new_variable, join_other, union_variable,
}
use fimex.Prelude.{
  false, true, Bool, is_some, inr, ◌&&◌, ◌||◌, inl, not, Bool-cases, String, ℕ, List, [], ◌∷◌, refl,
}

module _ {V : Type 0} where
  pub join_first-Keeps : (vs : List (CdmVariable V)) (g : Aggregation V) → Keeps g (join_first vs g)
  unfolding join_first
  join_first-Keeps [] g = Keeps-refl g
  join_first-Keeps (v ∷ vs) g = elim (Bool-cases (has_unlimited_dim v g.cdm)) [
    | inl e ↦ rw e (
        Keeps-trans (record { positions = refl; readers = refl; agg_type = refl })
          (join_first-Keeps vs _))
    | inr e ↦ rw e (join_first-Keeps vs g)
  ]

  pub union_first-Keeps :
      (vs : List (CdmVariable V)) (g : Aggregation V) → Keeps g (union_first vs g)
  unfolding union_first
  union_first-Keeps [] g = Keeps-refl g
  union_first-Keeps (v ∷ vs) g = elim (Bool-cases (member v.name g.join_vars)) [
    | inl e ↦ rw e (union_first-Keeps vs g)
    | inr e ↦ rw e (
        Keeps-trans (record { positions = refl; readers = refl; agg_type = refl })
          (union_first-Keeps vs _))
  ]

  pub same_members : (c : Cdm V) (g : Aggregation V) → Keeps g (record g { cdm = c })
  same_members c g = record { positions = refl; readers = refl; agg_type = refl }

  join_checked-Keeps :
      (r_cdm : Cdm V) (v : CdmVariable V) (dims_ok : Bool) (g : Aggregation V)
      → Keeps g (join_checked r_cdm v dims_ok g).1
  unfolding join_checked
  join_checked-Keeps r_cdm v false g = Keeps-refl g
  join_checked-Keeps r_cdm v true g =
      chain-Keeps g (on_cdm (copy_var r_cdm v) g) _ (on_cdm-Keeps (copy_var r_cdm v) g)
        (λ u t. record { positions = refl; readers = refl; agg_type = refl })

  join_variable-Keeps :
      (r_cdm : Cdm V) (u_name : String) (v : CdmVariable V) (g : Aggregation V)
      → Keeps g (join_variable r_cdm u_name v g).1
  unfolding join_variable
  join_variable-Keeps r_cdm u_name v g =
      chain-Keeps g _ (join_checked r_cdm v) (same_members _ g) (join_checked-Keeps r_cdm v)

  pub join_other-Keeps :
      (r_cdm : Cdm V) (u_name : String) (v : CdmVariable V) (g : Aggregation V)
      → Keeps g (join_other r_cdm u_name v g).1
  unfolding join_other
  join_other-Keeps r_cdm u_name v g = elim (Bool-cases (has_variable v.name g.cdm)) [
    | inl e ↦ rw e (Keeps-refl g)
    | inr e ↦ elim (Bool-cases (has_unlimited_dim v r_cdm)) [
      | inl f ↦ rw (e, f) (join_variable-Keeps r_cdm u_name v g)
      | inr f ↦ rw (e, f) (Keeps-refl g)
    ]
  ]

  pub join_new_variable-Keeps :
      (r_cdm : Cdm V) (v : CdmVariable V) (g : Aggregation V)
      → Keeps g (join_new_variable r_cdm v g).1
  unfolding join_new_variable
  join_new_variable-Keeps r_cdm v g =
      elim (Bool-cases (not (has_variable v.name g.cdm) && member v.name g.join_vars)) [
        | inl e ↦ rw e (
            chain-Keeps g _ _ (on_cdm-Keeps _ g)
              (λ u s. on_cdm-Keeps (copy_attributes r_cdm v.name) s))
        | inr e ↦ rw e (Keeps-refl g)
      ]

  union_checked-Keeps :
      (r_cdm : Cdm V) (i : ℕ) (v : CdmVariable V) (dims_ok : Bool) (g : Aggregation V)
      → Keeps g (union_checked r_cdm i v dims_ok g).1
  unfolding union_checked
  union_checked-Keeps r_cdm i v false g = Keeps-refl g
  union_checked-Keeps r_cdm i v true g =
      Keeps-trans (record { positions = refl; readers = refl; agg_type = refl })
        (on_cdm-Keeps (copy_var r_cdm v)
          (record g { union_readers = insert v.name i g.union_readers }))

  pub union_variable-Keeps :
      (r_cdm : Cdm V) (i : ℕ) (v : CdmVariable V) (g : Aggregation V)
      → Keeps g (union_variable r_cdm i v g).1
  unfolding union_variable
  union_variable-Keeps r_cdm i v g =
      elim (Bool-cases (member v.name g.join_vars || is_some (lookup v.name g.union_readers))) [
        | inl e ↦ rw e (Keeps-refl g)
        | inr e ↦ rw e (
            chain-Keeps g _ (union_checked r_cdm i v) (same_members _ g)
              (union_checked-Keeps r_cdm i v))
      ]
