-- ===== src/CoordinateSystem/Slices/Sliced.antt =====
-- What the setters of CoordinateSystemSliceBuilder keep (src/CoordinateSystemSliceBuilder.cc): the
-- slice stays within the variable, no dimension of which is unlimited.
use fimex.CoordinateSystem.{get_axes, has_axis_type, axis_time, axis_reference_time}
use fimex.Slice.Builder.Set.{updated-IsValid, set_start_and_size-outcome, accepted}
use fimex.Prelude.Words.{size_mod}
use fimex.CoordinateSystem.{
  is_axis_type, axis_number, get_time_axis, AxisType, axis_reference_time, find_axis_of_type,
  CoordinateAxis,
}
use fimex.Slice.Builder.Laws.{IsValid}
use fimex.Prelude.Dict.{lookup, NameSet}
use fimex.Slice.Builder.{set_start_and_size, set_start_and_size_of_axis, SliceBuilder}
use fimex.CoordinateSystem.Slices.{
  reduced_t_shape, set_axes, set_time_start_and_size, set_axis_start_and_size, with_builder,
  set_reference_time_pos, set_only, CsSliceBuilder,
}
use fimex.Prelude.{
  ◌&&◌, ◌==◌, List, if◌then◌else◌, Bool, length-set, arith, ◌∙◌, refl, sym, [], false, inr, inl,
  true, Option-cases, Bool-cases, get_or, ◌∷◌, length, ◌<◌, subst, ◌+◌, String, Option, ◌≡◌, ℕ,
  none, some,
}
use fimex.Prelude.Result.{both_returned, ok-injective, Result, ok, err}

-- A slice of a variable all of whose dimensions have a length that `size_t` holds
pub record IsSliced (sb : SliceBuilder) : Type 0 where
  pub valid : IsValid sb
  pub limited : (i : ℕ) → i < length sb.size → get_or sb.unlimited i true ≡ false
  pub small : (i : ℕ) → get_or sb.max_size i 0 < size_mod

set-IsSliced :
    (sb : SliceBuilder) (n : String) (start size : ℕ) (sb' : SliceBuilder)
    → IsSliced sb
    → start + size < size_mod
    → set_start_and_size sb n start size ≡ ok sb'
    → IsSliced sb'
set-IsSliced sb n start size sb' sliced bound h =
    let (pos, e, f, q) =
      accepted sb sliced.valid n start size (lookup n sb.dim_pos) sb'
        (sym (set_start_and_size-outcome sb sliced.valid n start size) ∙ h) in
    subst IsSliced q (record {
      valid = updated-IsValid sb sliced.valid n pos start size e f bound;
      limited = λ i b. sliced.limited i (omega (arith, b, length-set sb.size pos size));
      small = sliced.small;
    })

set_of_axis-IsSliced :
    (sb : SliceBuilder) (axis : Option CoordinateAxis) (start size : ℕ) (sb' : SliceBuilder)
    → IsSliced sb
    → start + size < size_mod
    → set_start_and_size_of_axis sb axis start size ≡ ok sb'
    → IsSliced sb'
unfolding set_start_and_size_of_axis
set_of_axis-IsSliced sb none start size sb' sliced bound h = subst IsSliced (ok-injective h) sliced
set_of_axis-IsSliced sb (some a) start size sb' sliced bound h = elim (Bool-cases a.is_explicit) [
  | inl e ↦ set-IsSliced sb a.name start size sb' sliced bound (rw e at h)
  | inr e ↦ absurd (cc (rw e at h))
]

with_builder-IsSliced :
    (s : CsSliceBuilder) (call : Result SliceBuilder) (s' : CsSliceBuilder)
    → ((sb : SliceBuilder) → call ≡ ok sb → IsSliced sb)
    → with_builder s call ≡ ok s'
    → IsSliced s'.builder
with_builder-IsSliced s (err x) s' keeps h = absurd (cc h)
with_builder-IsSliced s (ok sb) s' keeps h =
    subst (λ (t : CsSliceBuilder). IsSliced t.builder) (ok-injective h) (keeps sb refl)

unchanged-IsSliced :
    {s s' : CsSliceBuilder} → IsSliced s.builder → ok s ≡ ok s' → IsSliced s'.builder
unchanged-IsSliced sliced h =
    subst (λ (t : CsSliceBuilder). IsSliced t.builder) (ok-injective h) sliced

either_call :
    {P : Type 0} {T : Type 0} (b : Bool) (x y : Result T) {t : T}
    → (x ≡ ok t → P)
    → (y ≡ ok t → P)
    → (if b then x else y) ≡ ok t
    → P
either_call true x y p q h = p h
either_call false x y p q h = q h

pub set_reference_time_pos-IsSliced :
    (pos : ℕ) (s s' : CsSliceBuilder)
    → IsSliced s.builder
    → pos + 1 < size_mod
    → set_reference_time_pos pos s ≡ ok s'
    → IsSliced s'.builder
unfolding set_reference_time_pos
set_reference_time_pos-IsSliced pos s s' sliced bound h =
    elim (Option-cases (find_axis_of_type axis_reference_time s.cs)) [
      | inl e ↦ unchanged-IsSliced sliced (rw (set_reference_time_pos, e) at h)
      | inr (a, e) ↦
          either_call a.is_explicit _ (ok s)
            (with_builder-IsSliced s _ s'
              (λ sb. set_of_axis-IsSliced s.builder (some a) pos 1 sb sliced bound))
            (unchanged-IsSliced sliced) (rw (set_reference_time_pos, e) at h)
    ]

set_only-IsSliced :
    (s : CsSliceBuilder) (names : NameSet) (start size : ℕ) (s' : CsSliceBuilder)
    → IsSliced s.builder
    → start + size < size_mod
    → set_only s names start size ≡ ok s'
    → IsSliced s'.builder
unfolding set_only
set_only-IsSliced s [] start size s' sliced bound h = absurd (cc h)
set_only-IsSliced s (n ∷ []) start size s' sliced bound h =
    with_builder-IsSliced s _ s' (λ sb. set-IsSliced s.builder n.0 start size sb sliced bound) h
set_only-IsSliced s (n ∷ m ∷ names) start size s' sliced bound h = absurd (cc h)

set_time_start_and_size-IsSliced :
    (start size : ℕ) (s s' : CsSliceBuilder)
    → IsSliced s.builder
    → start + size < size_mod
    → set_time_start_and_size start size s ≡ ok s'
    → IsSliced s'.builder
unfolding set_time_start_and_size
set_time_start_and_size-IsSliced start size s s' sliced bound h =
    elim (Option-cases (get_time_axis s.cs)) [
      | inl e ↦ unchanged-IsSliced sliced (rw (set_time_start_and_size, e) at h)
      | inr (a, e) ↦
          either_call a.is_explicit _ (set_only s (reduced_t_shape s) start size)
            (with_builder-IsSliced s _ s'
              (λ sb. set_of_axis-IsSliced s.builder (some a) start size sb sliced bound))
            (set_only-IsSliced s (reduced_t_shape s) start size s' sliced bound)
            (rw (set_time_start_and_size, e) at h)
    ]

set_axes-IsSliced :
    (axis : AxisType) (start size : ℕ) (axes : List CoordinateAxis) (s s' : CsSliceBuilder)
    → IsSliced s.builder
    → start + size < size_mod
    → set_axes axis start size axes s ≡ ok s'
    → IsSliced s'.builder
unfolding set_axes
set_axes-IsSliced axis start size [] s s' sliced bound h = unchanged-IsSliced sliced h
set_axes-IsSliced axis start size (a ∷ axes) s s' sliced bound h =
    let (s1, first, rest) = both_returned _ (set_axes axis start size axes) h in
    let sliced1 =
      either_call (is_axis_type axis a && a.is_explicit) _ (ok s)
        (with_builder-IsSliced s _ s1
          (λ sb. set_of_axis-IsSliced s.builder (some a) start size sb sliced bound))
        (unchanged-IsSliced sliced) first in
    set_axes-IsSliced axis start size axes s1 s' sliced1 bound rest

pub set_axis_start_and_size-IsSliced :
    (axis : AxisType) (start size : ℕ) (s s' : CsSliceBuilder)
    → IsSliced s.builder
    → start + size < size_mod
    → start + 1 < size_mod
    → set_axis_start_and_size axis start size s ≡ ok s'
    → IsSliced s'.builder
unfolding set_axis_start_and_size
set_axis_start_and_size-IsSliced axis start size s s' sliced bound bound' =
    either_call (axis_number axis == axis_number axis_reference_time) _ _
      (set_reference_time_pos-IsSliced start s s' sliced bound')
      (either_call (axis_number axis == axis_number axis_time) _ _
        (set_time_start_and_size-IsSliced start size s s' sliced bound)
        (either_call (has_axis_type axis s.cs) _ (ok s)
          (set_axes-IsSliced axis start size (get_axes s.cs) s s' sliced bound)
          (unchanged-IsSliced sliced)))
