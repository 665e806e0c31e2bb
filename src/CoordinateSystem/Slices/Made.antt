-- ===== src/CoordinateSystem/Slices/Made.antt =====
-- The slice builders that CoordinateSystemSliceBuilder's constructor and setters make
-- (src/CoordinateSystemSliceBuilder.cc).
use fimex.Slice.Builder.Laws.{initial-IsValid}
use fimex.Cdm.Variables.{get_variable}
use fimex.Prelude.Words.{size_mod}
use fimex.Cdm.Dimensions.{get_dimension}
use fimex.CoordinateSystem.{get_time_axis, AxisType, CoordinateSystem}
use fimex.CoordinateSystem.Slices.Sliced.{
  set_reference_time_pos-IsSliced, set_axis_start_and_size-IsSliced, IsSliced,
}
use fimex.CoordinateSystem.Slices.{
  with_t_shape, get_cs_var_from_cdm, set_axis_start_and_size, set_reference_time_pos,
  CsSliceBuilder, of_coordinate_system,
}
use fimex.Slice.Builder.{initial, SliceBuilder, shape_dims, of_variable, init}
use fimex.Cdm.Model.{CdmVariable, CdmDimension, Cdm}
use fimex.Prelude.{
  ap, ◌∙◌, Option-cases, inr, subst, refl, inl, zero, arith, ◌==◌, suc, Bool-cases, true, ◌+◌, ◌∷◌,
  sym, [], ◌&&◌, map, false, get_or, length, ◌≡◌, String, ◌<◌, List, ℕ,
}
use fimex.Prelude.Result.{both_returned, ok-injective, ok, ◌>>=◌}

none_unlimited :
    (ds : List CdmDimension) (i : ℕ)
    → i < length (map (λ (d : CdmDimension). d.length) ds)
    → get_or (map (λ (d : CdmDimension). false && d.unlimited) ds) i true ≡ false
none_unlimited [] i h = absurd (omega (arith, h))
none_unlimited (d ∷ ds) zero h = refl
none_unlimited (d ∷ ds) (suc i) h = none_unlimited ds i (omega (arith, h))

cons_below :
    (d : CdmDimension) (ds : List CdmDimension)
    → d.length < size_mod
    → ((i : ℕ) → get_or (map (λ (d : CdmDimension). d.length) ds) i 0 < size_mod)
    → (i : ℕ) → get_or (map (λ (d : CdmDimension). d.length) (d ∷ ds)) i 0 < size_mod
cons_below d ds h below zero = h
cons_below d ds h below (suc i) = below i

builder-with_t_shape : (s : CsSliceBuilder) → (with_t_shape s).builder ≡ s.builder
unfolding with_t_shape
builder-with_t_shape s = elim (Option-cases (get_time_axis s.cs)) [
  | inl e ↦ rw (with_t_shape, e) refl
  | inr (a, e) ↦ rw (with_t_shape, e) refl
]

made-IsSliced :
    (shape : List String) (ds : List CdmDimension) (sb : SliceBuilder)
    → ((i : ℕ) → get_or (map (λ (d : CdmDimension). d.length) ds) i 0 < size_mod)
    → init shape
        (map (λ (d : CdmDimension). d.length) ds)
        (map (λ (d : CdmDimension). false && d.unlimited) ds)
      ≡ ok sb
    → IsSliced sb
unfolding init
made-IsSliced shape ds sb small h =
    let sizes = map (λ (d : CdmDimension). d.length) ds in
    let unlimited = map (λ (d : CdmDimension). false && d.unlimited) ds in
    elim (Bool-cases (length shape == length sizes && length shape == length unlimited)) [
      | inl e ↦
          let q : initial shape sizes unlimited ≡ sb = ok-injective (rw e at h) in
          subst IsSliced q (record {
            valid = initial-IsValid shape sizes unlimited (ground arith) (ground arith);
            limited = none_unlimited ds;
            small = small;
          })
      | inr e ↦ absurd (cc (rw e at h))
    ]

module _ {V : Type 0} (c : Cdm V) where
  -- Every length fits `size_t`.
  abbrev pub Fits : Type 0
  Fits = (n : String) (d : CdmDimension) → get_dimension n c ≡ ok d → d.length < size_mod

  -- The slice builders that the constructor makes, and what successful calls make of them.
  pub data IsSlicing : CsSliceBuilder → Type 0 where
    constructed :
        (cs : CoordinateSystem) {s : CsSliceBuilder}
        → of_coordinate_system c cs ≡ ok s
        → IsSlicing s
    axis_set :
        (axis : AxisType) (start size : ℕ) {s s' : CsSliceBuilder}
        → start + size < size_mod
        → start + 1 < size_mod
        → IsSlicing s
        → set_axis_start_and_size axis start size s ≡ ok s'
        → IsSlicing s'

  shape_dims-Fits :
      Fits
      → (shape : List String) (ds : List CdmDimension) → shape_dims c shape ≡ ok ds
      → (i : ℕ) → get_or (map (λ (d : CdmDimension). d.length) ds) i 0 < size_mod
  unfolding shape_dims
  shape_dims-Fits fits [] ds h i = rw (sym (ok-injective h)) (omega arith)
  shape_dims-Fits fits (n ∷ shape) ds h i =
      let (d, e, h1) =
        both_returned (get_dimension n c)
          (λ d. shape_dims c shape >>= λ (rest : List CdmDimension). ok (d ∷ rest)) h in
      let (rest, f, h2) =
        both_returned (shape_dims c shape) (λ (rest : List CdmDimension). ok (d ∷ rest)) h1 in
      let below = shape_dims-Fits fits shape rest f in
      rw (sym (ok-injective h2)) (cons_below d rest (fits n d e) below i)

  of_variable-IsSliced :
      Fits → (n : String) (sb : SliceBuilder) → of_variable c n false ≡ ok sb → IsSliced sb
  unfolding of_variable
  of_variable-IsSliced fits n sb h =
      let made = λ (shape : List String) (ds : List CdmDimension).
        init shape (map (λ (d : CdmDimension). d.length) ds)
          (map (λ (d : CdmDimension). false && d.unlimited) ds) in
      let (v, e, h1) =
        both_returned (get_variable n c)
          (λ (v : CdmVariable V). shape_dims c v.shape >>= made v.shape) h in
      let (ds, f, h2) = both_returned (shape_dims c v.shape) (made v.shape) h1 in
      made-IsSliced v.shape ds sb (shape_dims-Fits fits v.shape ds f) h2

  pub IsSlicing-IsSliced : Fits → {s : CsSliceBuilder} → IsSlicing s → IsSliced s.builder
  unfolding of_coordinate_system
  IsSlicing-IsSliced fits (constructed cs {s} h) =
      let first = λ (builder : SliceBuilder).
        set_reference_time_pos 0 (record { builder = builder; cs = cs; t_shape = [] }) in
      let last = λ (s : CsSliceBuilder). ok (with_t_shape s) in
      let (n, e, h1) =
        both_returned (get_cs_var_from_cdm c cs)
          (λ (n : String). of_variable c n false >>= λ builder. first builder >>= last) h in
      let (sb, f, h2) =
        both_returned (of_variable c n false) (λ builder. first builder >>= last) h1 in
      let (s1, g, h3) = both_returned (first sb) last h2 in
      let sliced : IsSliced s1.builder =
        set_reference_time_pos-IsSliced 0 _ s1 (of_variable-IsSliced fits n sb f) (omega arith) g in
      let same : with_t_shape s1 ≡ s = ok-injective h3 in
      subst IsSliced (sym (builder-with_t_shape s1) ∙ ap (λ (s : CsSliceBuilder). s.builder) same)
        sliced
  IsSlicing-IsSliced fits (axis_set axis start size {s} {s'} b b' made h) =
      set_axis_start_and_size-IsSliced axis start size s s' (IsSlicing-IsSliced fits made) b b' h
