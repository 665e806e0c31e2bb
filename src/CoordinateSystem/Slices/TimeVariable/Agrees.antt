-- ===== src/CoordinateSystem/Slices/TimeVariable/Agrees.antt =====
-- The slice of the time variable agrees with that of the variable
-- (src/CoordinateSystemSliceBuilder.cc).
use fimex.Slice.Builder.Positions.{positions-found, length-map, get_or-map, positions-get_elem?}
use fimex.CoordinateSystem.Slices.TimeVariable.{
  max_of, Known, copy_slices-agrees, time_sizes-map, Copies,
}
use fimex.Slice.Builder.{initial, positions}
use fimex.Slice.Builder.Laws.{init-IsValid, IsValid}
use fimex.Prelude.Text.{contains}
use fimex.CoordinateSystem.Slices.Sliced.{IsSliced}
use fimex.CoordinateSystem.Slices.TimeVariable.{Known}
use fimex.CoordinateSystem.Slices.Made.{IsSlicing-IsSliced, IsSlicing, Fits}
use fimex.Cdm.Model.{Cdm}
use fimex.CoordinateSystem.Slices.{CsSliceBuilder, get_time_variable_slice_builder}
use fimex.Slice.Builder.{get_start_and_size, SliceBuilder, init, of_sizes}
use fimex.Prelude.Dict.{lookup}
use fimex.Prelude.{
  Option-cases, length-replicate, arith, length, refl, replicate, ap, sym, ◌∙◌, get_or, is_some, ℕ,
  ◌⊎◌, [], map, String, ◌≡◌, List, none, some, true, false,
}
use fimex.Prelude.Result.{ok}
use fimex.Prelude.{inl, inr}

-- The time variable's dimensions are dimensions of the slice.
abbrev pub HasTime : CsSliceBuilder → Type 0
HasTime s = Known s.builder s.t_shape

met_at :
    (sb : SliceBuilder) (names : List String) (n : String)
    → (lookup n (positions 0 names []) ≡ none)
      ⊎ ((p : ℕ) × (lookup n (positions 0 names []) ≡ some p))
    → is_some (lookup n (positions 0 names [])) ≡ true
    → (p : ℕ) × (lookup n (positions 0 names []) ≡ some p)
      × (get_or (map (max_of sb) names) p 0 ≡ max_of sb n)
unfolding lookup
met_at sb names n (inl e) found = absurd (cc (sym (ap is_some e) ∙ found))
met_at sb names n (inr (p, e)) found = elim (positions-get_elem? n 0 names [] p e) [
  | inl m ↦ absurd (cc m)
  | inr (i, q, g) ↦
      let same : p ≡ i = omega (arith, q) in (p, e, rw same (get_or-map (max_of sb) names i n g))
]

-- The slice builder that the second loop starts from
started :
    (sb : SliceBuilder) (names : List String)
    → Known sb names
    → (t : SliceBuilder) × (of_sizes names (map (max_of sb) names) ≡ ok t) × Copies sb names t
unfolding of_sizes init contains
started sb names known =
    let sizes = map (max_of sb) names in
    let t = initial names sizes (replicate (length names) false) in
    let e : of_sizes names sizes ≡ ok t =
      ground (arith, length-map (max_of sb) names, length-replicate (length names) false) in
    (
      t,
      e,
      record {
        valid = (init-IsValid names sizes _ t e).0;
        room = λ n h.
            met_at sb names n (Option-cases (lookup n (positions 0 names [])))
              (positions-found n 0 names [] (inl h));
      },
    )

get_time_variable_slice_builder-Sliced :
    (s : CsSliceBuilder)
    → IsSliced s.builder
    → HasTime s
    → (t : SliceBuilder) × (get_time_variable_slice_builder s ≡ ok t)
      × IsValid t
      × ((n : String)
          → contains n s.t_shape ≡ true
          → get_start_and_size t n ≡ get_start_and_size s.builder n)
unfolding get_time_variable_slice_builder
get_time_variable_slice_builder-Sliced s sliced known =
    let (t0, e0, c) = started s.builder s.t_shape known in
    let (t, e, valid, reads) = copy_slices-agrees s.builder sliced s.t_shape t0 known c in
    (
      t,
      rw (time_sizes-map s.builder s.t_shape sliced known, e0, e) refl,
      valid,
      (λ n h. reads n ∙ rw h refl),
    )

-- getTimeVariableSliceBuilder of a slice builder that the constructor and successful calls of
-- setAxisStartAndSize made, the latter with sums of start and size that do not wrap, where lengths
-- of dimensions fit `size_t` and the time variable's dimensions are dimensions of the slice: it
-- returns a valid slice builder, in which each dimension of the time has the start and size that it
-- has in the slice.
pub get_time_variable_slice_builder-agrees :
    {V : Type 0} (c : Cdm V) (s : CsSliceBuilder)
    → Fits c
    → IsSlicing c s
    → HasTime s
    → (t : SliceBuilder) × (get_time_variable_slice_builder s ≡ ok t)
      × IsValid t
      × ((n : String)
          → contains n s.t_shape ≡ true
          → get_start_and_size t n ≡ get_start_and_size s.builder n)
get_time_variable_slice_builder-agrees c s fits made known =
    get_time_variable_slice_builder-Sliced s (IsSlicing-IsSliced c fits made) known
