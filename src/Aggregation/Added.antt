-- ===== src/Aggregation/Added.antt =====
-- addReader: every reader that is added without an exception gets its own positions.
use fimex.Aggregation.Lengths.{
  first_ok, other_by_type-Extends, first_by_type-Extends, own_length, joins,
}
use fimex.Prelude.Words.{wadd}
use fimex.Aggregation.Kept.{union_first-Keeps, same_members, union_variable-Keeps}
use fimex.Cdm.Dimensions.{get_unlimited_dim}
use fimex.Aggregation.Joined.{
  accumulate-append, joined_before-end_of, Keeps-Extends, for_each-Keeps, chain-then-Keeps, Extends,
}
use fimex.StringUtils.{Bytes}
use fimex.Aggregation.{joined_before, PartReader, add_first_reader, Aggregation, first_by_type}
use fimex.Aggregation.Positions.{IsJoined, accumulate}
use fimex.Aggregation.Readers.{add_reader, add_other_reader, other_by_type}
use fimex.Cdm.Model.{CdmDimension}
use fimex.Prelude.Result.{ok}
use fimex.Prelude.{
  arith, none, Option, ◌+◌, length-append, inr, inl, ◌==◌, ◌∙◌, length, ap, Bool-cases, sym, String,
  false, true, ℕ, List, [], ◌∷◌, ◌++◌, ◌≡◌, refl,
}

module _ {V : Type 0} where
  -- The unlimited dimension of an aggregation that has readers
  abbrev pub joined_dim : Aggregation V → Option CdmDimension
  joined_dim g = elim g.readers [ [] ↦ none | _ ∷ _ ↦ get_unlimited_dim g.cdm ]

  -- How an aggregation comes about: a new one of a joining type, and readers added to it.
  pub data IsAggregated : Aggregation V → Type 0 where
    aggregated_new :
        (g : Aggregation V)
        → joins g.agg_type ≡ true
        → g.readers ≡ []
        → g.reader_udim_pos ≡ []
        → IsAggregated g
    aggregated_add :
        (reader : PartReader V) (id : String) (cv : Bytes) (g : Aggregation V)
        → IsAggregated g
        → (add_reader reader id cv g).0 ≡ ok tt
        → IsAggregated (add_reader reader id cv g).1

  -- The lengths of the readers, in the order in which they were added
  abbrev pub own_lengths : {g : Aggregation V} → IsAggregated g → List ℕ
  own_lengths (aggregated_new g j r p) = []
  own_lengths (aggregated_add reader id cv g a h) =
      own_lengths a ++ own_length g.agg_type (joined_dim g) (get_unlimited_dim reader.cdm) ∷ []

  add_first_reader-Extends :
      (reader : PartReader V) (cv : Bytes) (g : Aggregation V)
      → joins g.agg_type ≡ true
      → (add_first_reader reader cv g).0 ≡ ok tt
      → Extends
          (own_length g.agg_type none (get_unlimited_dim reader.cdm))
          g
          (add_first_reader reader cv g).1
  unfolding add_first_reader
  add_first_reader-Extends reader cv g j h =
      let m = first_by_type g.agg_type cv (record g { cdm = reader.cdm }) in
      let x =
        first_by_type-Extends g.agg_type cv (record g { cdm = reader.cdm }) j (first_ok m _ h) in
      chain-then-Keeps (own_length g.agg_type none (get_unlimited_dim reader.cdm)) g m _
        (Keeps-Extends (same_members reader.cdm g) x) (λ u s. union_first-Keeps s.cdm.variables s)

  add_other_reader-Extends :
      (reader : PartReader V) (cv : Bytes) (g : Aggregation V)
      → joins g.agg_type ≡ true
      → (add_other_reader reader cv g).0 ≡ ok tt
      → Extends
          (own_length g.agg_type (get_unlimited_dim g.cdm) (get_unlimited_dim reader.cdm))
          g
          (add_other_reader reader cv g).1
  unfolding add_other_reader
  add_other_reader-Extends reader cv g j h =
      let m = other_by_type g.agg_type reader.cdm cv g in
      let x = other_by_type-Extends g.agg_type reader.cdm cv g j (first_ok m _ h) in
      chain-then-Keeps
        (own_length g.agg_type (get_unlimited_dim g.cdm) (get_unlimited_dim reader.cdm)) g m _ x
        (λ u s. for_each-Keeps reader.cdm.variables _ s (union_variable-Keeps reader.cdm _))

  -- Whether a reader is the first one
  first_joined_dim :
      (readers : List (String × PartReader V)) (r : String × PartReader V) (c : Option CdmDimension)
      → (length (readers ++ r ∷ []) == 1) ≡ true
      → elim readers [ [] ↦ none | _ ∷ _ ↦ c ] ≡ none
  first_joined_dim [] r c h = refl
  first_joined_dim (s ∷ readers) r c h = absurd (ground (arith, h, length-append readers (r ∷ [])))

  other_joined_dim :
      (readers : List (String × PartReader V)) (r : String × PartReader V) (c : Option CdmDimension)
      → (length (readers ++ r ∷ []) == 1) ≡ false
      → elim readers [ [] ↦ none | _ ∷ _ ↦ c ] ≡ c
  other_joined_dim [] r c h = cc
  other_joined_dim (s ∷ readers) r c h = refl

  add_reader-Extends :
      (reader : PartReader V) (id : String) (cv : Bytes) (g : Aggregation V)
      → joins g.agg_type ≡ true
      → (add_reader reader id cv g).0 ≡ ok tt
      → Extends
          (own_length g.agg_type (joined_dim g) (get_unlimited_dim reader.cdm))
          (record g { readers = g.readers ++ (id, reader) ∷ [] })
          (add_reader reader id cv g).1
  unfolding add_reader
  add_reader-Extends reader id cv g j h =
      elim (Bool-cases (length (g.readers ++ (id, reader) ∷ []) == 1)) [
        | inl e ↦
            rw (e, first_joined_dim g.readers (id, reader) (get_unlimited_dim g.cdm) e)
              (add_first_reader-Extends reader cv _ j (sym (rw e) ∙ h))
        | inr e ↦
            rw (e, other_joined_dim g.readers (id, reader) (get_unlimited_dim g.cdm) e)
              (add_other_reader-Extends reader cv _ j (sym (rw e) ∙ h))
      ]

  -- Whatever readers are added to an aggregation of a joining type, as long as no call throws, the
  -- accumulated lengths are the sums, modulo 2^64, of the lengths of the readers in their order: for
  -- joinNew of 1 each, for joinExisting of the length of each one's unlimited dimension, where a
  -- reader without one, or with one of another name than the aggregation before it, counts 0.
  pub IsAggregated-IsJoined :
      {g : Aggregation V} (a : IsAggregated g)
      → (joins g.agg_type ≡ true) × IsJoined g (own_lengths a)
  unfolding accumulate
  IsAggregated-IsJoined (aggregated_new g j r p) =
      (j, record { accumulated = p; one_each = sym (ap length r) })
  IsAggregated-IsJoined (aggregated_add reader id cv g a h) =
      let (j, i) = IsAggregated-IsJoined a in
      let len = own_length g.agg_type (joined_dim g) (get_unlimited_dim reader.cdm) in
      let x = add_reader-Extends reader id cv g j h in
      let lens = own_lengths a in
      (
        ap joins x.agg_type ∙ j,
        record {
          accumulated =
              x.positions
              ∙ ap (λ (ps : List ℕ). ps ++ wadd (joined_before ps) len ∷ []) i.accumulated
              ∙ ap (λ (b : ℕ). accumulate 0 lens ++ wadd b len ∷ []) (joined_before-end_of lens)
              ∙ sym (accumulate-append 0 len lens);
          one_each =
              length-append lens (len ∷ [])
              ∙ ap (λ (n : ℕ). n + 1) i.one_each
              ∙ sym (length-append g.readers ((id, reader) ∷ []))
              ∙ sym (ap length x.readers);
        },
      )
