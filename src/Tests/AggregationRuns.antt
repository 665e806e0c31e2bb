-- ===== src/Tests/AggregationRuns.antt =====
-- Two readers with two and three times, joined along time.
use fimex.Aggregation.Read.{SameLength, Agrees, aggregated_slice-joined}
use fimex.Prelude.Text.{eq_iff, str_eq}
use fimex.Data.Impl.{product}
use fimex.Slice.Builder.{shape_dims}
use fimex.Prelude.Words.{size_mod}
use fimex.Aggregation.Slices.{
  aggregated_slice, own_reader, is_unlimited_of, find_join_reader, joined_slice,
}
use fimex.Reader.{limited_lengths_of, lengths_of, get_dims_slice, get_dims}
use fimex.Prelude.Dict.{member, lookup, insert}
use fimex.Cdm.Variables.{get_variable, modify_variable, has_variable}
use fimex.Aggregation.Positions.{first_of, accumulate, sum_of, IsJoined}
use fimex.Cdm.Dimensions.{get_dimension, modify_dimension, has_unlimited_dim, get_unlimited_dim}
use fimex.Prelude.Result.{some-injective, ◌>>=◌, ok-injective, cdm_exception, err, for_each, ok}
use fimex.Cdm.Model.{CdmDimension, new_dimension, new_variable, empty_cdm, Cdm}
use fimex.Aggregation.{
  unlimited_dimension, agg_join_new, joined_before, drop_data, set_dim_length, union_first,
  join_first, extend_positions, extend_joined, first_by_type, PartReader, agg_join_existing,
  add_first_reader, Aggregation,
}
use fimex.Aggregation.Readers.{
  union_variable, then_extend, join_other, join_variables, join_dim, join_reader, other_unlimited,
  join_existing_other, other_by_type, add_other_reader, add_reader,
}
use fimex.Prelude.{
  zero, suc, subst, get_elem?, none, ◌≤◌, inr, ◌∙◌, sym, ap, inl, Bool-cases, arith, replicate,
  String, some, ◌+◌, get_or, ◌<◌, false, ◌∷◌, refl, true, ◌≡◌, [], ℕ,
}
use fimex.Aggregation.Missing.{joined_slice-missing}
use fimex.Aggregation.Positions.{find_join_reader-position}
use fimex.Cdm.DataType.{CdmDataType}
use fimex.Aggregation.Added.{aggregated_new, aggregated_add, IsAggregated-IsJoined}
use fimex.Aggregation.Lengths.{joins}

abbrev series : ℕ → Cdm ℕ
series n = record {
  attributes = [];
  variables = new_variable "p" CdmDataType.int ("x" ∷ "time" ∷ []) ∷ [];
  dimensions = new_dimension "x" 4 ∷ record { name = "time"; length = n; unlimited = true } ∷ [];
  coords_initialized = false;
}

abbrev part : ℕ → PartReader ℕ
part n = record { cdm = series n; slice_at = λ name i. ok []; built_slice = λ name sb. ok [] }

abbrev nothing_read : Aggregation ℕ
nothing_read = record {
  agg_type = agg_join_existing;
  cdm = empty_cdm;
  readers = [];
  join_new_dim = "";
  join_coord_values = [];
  join_vars = [];
  reader_udim_pos = [];
  union_readers = [];
  empty_value = 0;
  fill_value = λ n. 9;
}

abbrev one_read : Aggregation ℕ
one_read = (add_reader (part 2) "a" [] nothing_read).1

abbrev two_read : Aggregation ℕ
two_read = (add_reader (part 3) "b" [] one_read).1

first_added : (add_reader (part 2) "a" [] nothing_read).0 ≡ ok tt
unfolding add_reader add_first_reader first_by_type get_unlimited_dim extend_joined extend_positions
first_added = refl

second_added : (add_reader (part 3) "b" [] one_read).0 ≡ ok tt
unfolding add_reader add_first_reader first_by_type get_unlimited_dim extend_joined extend_positions
    add_other_reader other_by_type join_existing_other other_unlimited join_reader join_dim
    join_variables join_other then_extend for_each has_variable join_first has_unlimited_dim
    union_first union_variable insert lookup modify_variable set_dim_length modify_dimension member
    drop_data
second_added = refl

two_positions : two_read.reader_udim_pos ≡ 2 ∷ 5 ∷ []
unfolding add_reader add_first_reader first_by_type get_unlimited_dim extend_joined extend_positions
    add_other_reader other_by_type join_existing_other other_unlimited join_reader join_dim
    join_variables join_other then_extend for_each has_variable join_first has_unlimited_dim
    union_first union_variable insert lookup modify_variable set_dim_length modify_dimension member
    drop_data joined_before
two_positions = refl

IsAggregated-IsJoined_example : (joins two_read.agg_type ≡ true) × IsJoined two_read (2 ∷ 3 ∷ [])
unfolding add_reader add_first_reader first_by_type get_unlimited_dim extend_joined extend_positions
    join_first has_unlimited_dim union_first insert modify_variable set_dim_length modify_dimension
    member drop_data joined_before
IsAggregated-IsJoined_example = IsAggregated-IsJoined (
    aggregated_add (part 3) "b" [] one_read
      (aggregated_add (part 2) "a" [] nothing_read (aggregated_new nothing_read refl refl refl)
        first_added)
      second_added)

-- The aggregation as it is then, written out.
abbrev joined : Aggregation ℕ
joined = record nothing_read {
  cdm = series 5;
  readers = ("a", part 2) ∷ ("b", part 3) ∷ [];
  join_vars = insert "p" tt [];
  reader_udim_pos = 2 ∷ 5 ∷ [];
}

joined-IsJoined : IsJoined joined (2 ∷ 3 ∷ [])
unfolding accumulate
joined-IsJoined = record { accumulated = refl; one_each = refl }

in_second : 2 < get_or (2 ∷ 3 ∷ []) 1 0
in_second = omega arith

small : sum_of (2 ∷ 3 ∷ []) < size_mod
unfolding sum_of
small = omega arith

find_join_reader-position_example :
    find_join_reader joined (first_of (2 ∷ 3 ∷ []) 1 + 2) ≡ some (part 3, 2)
find_join_reader-position_example =
    find_join_reader-position joined (2 ∷ 3 ∷ []) 1 2 "b" (part 3) joined-IsJoined small refl
      (omega arith) in_second

-- A reader that has no variables
abbrev nothing : PartReader ℕ
nothing = record (part 3) { cdm = empty_cdm }

p_lacks : has_variable "p" nothing.cdm ≡ false
unfolding has_variable
p_lacks = refl

p_there : get_variable "p" joined.cdm ≡ ok (new_variable "p" CdmDataType.int ("x" ∷ "time" ∷ []))
unfolding get_variable
p_there = refl

one_unlimited :
    (n : String) (d : CdmDimension)
    → get_dimension n joined.cdm ≡ ok d
    → d.unlimited ≡ is_unlimited_of joined.cdm n
unfolding get_unlimited_dim get_dimension
one_unlimited n d h = elim (Bool-cases (str_eq n "x")) [
  | inl e ↦
      let x : n ≡ "x" = (eq_iff n "x").0 e in
      let found = rw (get_dimension, e) at h in
      ap (λ (r : CdmDimension). r.unlimited) (sym (ok-injective found))
      ∙ sym (ap (λ (s : String). str_eq s "time") x)
  | inr e ↦ elim (Bool-cases (str_eq n "time")) [
    | inl t ↦
        ap (λ (r : CdmDimension). r.unlimited) (sym (ok-injective (rw (get_dimension, e, t) at h)))
        ∙ sym t
    | inr t ↦ absurd (nothing_found (rw (get_dimension, e, t) at h))
  ]
]
  where
    nothing_found : err cdm_exception ≡ ok d → ⊥
    nothing_found q = cc

p_slice_dims : get_dims_slice (own_reader joined) "p" ≡ ok (4 ∷ [])
unfolding get_dims_slice get_variable shape_dims get_dimension limited_lengths_of
p_slice_dims = refl

p_dims : get_dims (own_reader joined) "p" ≡ ok (4 ∷ 5 ∷ [])
unfolding get_dims get_variable shape_dims get_dimension lengths_of
p_dims = refl

-- 20 values where a slice has 4.
joined_slice-missing_example :
    (joined_slice agg_join_existing joined "p"
        (new_variable "p" CdmDataType.int ("x" ∷ "time" ∷ []))
        nothing
        0
      ≡ ok (some (replicate (product (4 ∷ [])) 9)))
    × (joined_slice agg_join_new joined "p"
          (new_variable "p" CdmDataType.int ("x" ∷ "time" ∷ []))
          nothing
          0
        ≡ ok (some (replicate (product (4 ∷ 5 ∷ [])) 9)))
joined_slice-missing_example =
    joined_slice-missing joined "p" (new_variable "p" CdmDataType.int ("x" ∷ "time" ∷ [])) nothing 0
      (4 ∷ []) (4 ∷ 5 ∷ []) p_lacks p_there one_unlimited p_slice_dims p_dims

-- Its dimension x is as long in the second reader, and time is the unlimited one there.
p-Agrees : Agrees joined.cdm (part 3).cdm "p" (new_variable "p" CdmDataType.int ("x" ∷ "time" ∷ []))
unfolding get_unlimited_dim get_variable get_dimension
p-Agrees = record {
  own = new_variable "p" CdmDataType.int ("x" ∷ "time" ∷ []);
  has = refl;
  shape = refl;
  lengths = lengths;
}
  where
    lengths :
        (j : ℕ) (n : String)
        → get_elem? ("x" ∷ "time" ∷ []) j ≡ some n
        → SameLength joined.cdm (part 3).cdm n
    lengths zero n h =
        subst (SameLength joined.cdm (part 3).cdm) (some-injective h)
          (inr (new_dimension "x" 4, new_dimension "x" 4, refl, refl, refl))
    lengths (suc zero) n h = inl (unlimited_dimension "time" 3, refl, some-injective h)
    lengths (suc (suc j)) n h = cc

p_member : member "p" joined.join_vars ≡ true
unfolding member insert lookup
p_member = refl

all_before : sum_of (2 ∷ 3 ∷ []) ≤ 7
unfolding sum_of
all_before = omega arith

aggregated_slice-joined_example :
    (aggregated_slice joined "p" (first_of (2 ∷ 3 ∷ []) 1 + 2)
      ≡ ((part 3).slice_at "p" 2 >>= λ values. ok (some values)))
    × (aggregated_slice joined "p" 7 ≡ ok none)
aggregated_slice-joined_example =
    aggregated_slice-joined joined (2 ∷ 3 ∷ []) 1 2 7 "b" (part 3) "p"
      (new_variable "p" CdmDataType.int ("x" ∷ "time" ∷ [])) joined-IsJoined small refl
      (omega arith) in_second all_before refl p_there refl p_member p-Agrees
