-- ===== src/CoordinateSystem/Slices/TimeVariable.antt =====
-- getTimeVariableSliceBuilder (src/CoordinateSystemSliceBuilder.cc): the slice of the time variable
-- that goes with the slice of a variable.
pub mod Agrees
use fimex.CoordinateSystem.Slices.Made.{IsSlicing-IsSliced, IsSlicing, Fits}
use fimex.Cdm.Model.{Cdm}
use fimex.Slice.Builder.Positions.{get_or-map, positions-get_elem?, positions-found, length-map}
use fimex.Prelude.Words.{size_mod, wadd_exact}
use fimex.Slice.Builder.Laws.{init-IsValid, IsValid}
use fimex.Slice.Builder.Set.{
  updated-IsValid, set_start_and_size-outcome, updated, get_start_and_size-set_start_and_size, fits,
  get_start_and_size-found, at-eq, get_dim_pos-some,
}
use fimex.CoordinateSystem.Slices.Sliced.{IsSliced}
use fimex.Prelude.Dict.{lookup}
use fimex.Prelude.Text.{eq_iff, str_eq_refl, contains}
use fimex.Slice.Builder.{
  positions, initial, init, of_sizes, get_start_and_size, set_start_and_size, SliceBuilder,
}
use fimex.CoordinateSystem.Slices.{
  CsSliceBuilder, get_time_variable_slice_builder, copy_slices, time_sizes,
}
use fimex.Prelude.{
  inr, inl, Option-cases, is_some, ◌⊎◌, length-replicate, false, length, replicate, ◌<◌,
  if◌then◌else◌, ◌≤◌, ◌+◌, Option, ap, sym, ◌∙◌, [], refl, arith, map, true, ◌∷◌, ◌≡◌, List, get_or,
  String, ℕ, none, some,
}
use fimex.Prelude.Result.{ok}

-- A position of the dimension, and its length there.
position : SliceBuilder → String → ℕ
position sb n = elim (lookup n sb.dim_pos) [ none ↦ 0 | some p ↦ p ]

max_of : SliceBuilder → String → ℕ
unfolding position
max_of sb n = get_or sb.max_size (position sb n) 0

-- The names are dimensions of the slice.
abbrev pub Known : SliceBuilder → List String → Type 0
Known sb names = (n : String) → contains n names ≡ true → (p : ℕ) × (lookup n sb.dim_pos ≡ some p)

tail-Known :
    (sb : SliceBuilder) (n : String) (names : List String) → Known sb (n ∷ names) → Known sb names
unfolding contains
tail-Known sb n names known k h = known k (ground (arith, h))

head_position :
    (sb : SliceBuilder) (n : String) (names : List String)
    → Known sb (n ∷ names)
    → lookup n sb.dim_pos ≡ some (position sb n)
unfolding contains position
head_position sb n names known =
    let found = known n (rw (str_eq_refl n) refl) in
    found.1 ∙ sym (ap (λ (o : Option ℕ). some (elim o [ none ↦ 0 | some p ↦ p ])) found.1)

time_sizes-map :
    (sb : SliceBuilder) (names : List String)
    → IsSliced sb
    → Known sb names
    → time_sizes sb names ≡ ok (map (max_of sb) names)
unfolding time_sizes max_of
time_sizes-map sb [] sliced known = refl
time_sizes-map sb (n ∷ names) sliced known =
    let here = head_position sb n names known in
    let rest = time_sizes-map sb names sliced (tail-Known sb n names known) in
    let inside = sliced.valid.in_range n (position sb n) here in
    rw
      (
        get_dim_pos-some sb n here,
        at-eq sb.max_size (position sb n) 0 (omega (arith, inside, sliced.valid.max_sizes)),
        rest,
      )
      refl

-- A slice builder in which the names have the lengths that they have in another.
record Copies (sb : SliceBuilder) (names : List String) (t : SliceBuilder) : Type 0 where
  valid : IsValid t
  room :
      (n : String)
      → contains n names ≡ true
      → (p : ℕ) × (lookup n t.dim_pos ≡ some p) × (get_or t.max_size p 0 ≡ max_of sb n)

module _ (sb : SliceBuilder) (sliced : IsSliced sb) where
  start_of : String → ℕ
  start_of n = get_or sb.start (position sb n) 0

  size_of : String → ℕ
  size_of n = get_or sb.size (position sb n) 0

  -- The slice of a known dimension fits into the dimension.
  slice_fits :
      (n : String)
      → lookup n sb.dim_pos ≡ some (position sb n)
      → (start_of n + size_of n ≤ max_of sb n) × (start_of n + size_of n < size_mod)
  unfolding start_of size_of max_of
  slice_fits n here =
      let i = position sb n in
      let low = sliced.valid.within i (sliced.limited i (sliced.valid.in_range n i here)) in
      (low, omega (arith, low, sliced.small i))

  -- One round of the second loop
  copy-Copies :
      (n : String) (names : List String) (t : SliceBuilder)
      → Known sb (n ∷ names)
      → Copies sb (n ∷ names) t
      → (t' : SliceBuilder) × (set_start_and_size t n (start_of n) (size_of n) ≡ ok t')
        × Copies sb names t'
  unfolding contains
  copy-Copies n names t known c =
      let here = head_position sb n names known in
      let (low, bound) = slice_fits n here in
      let (p, e, m) = c.room n (rw (str_eq_refl n) refl) in
      let f : fits t p (start_of n) (size_of n) ≡ true =
        ground (arith, low, m, wadd_exact (start_of n) (size_of n) bound) in
      (
        updated t n p (start_of n) (size_of n),
        set_start_and_size-outcome t c.valid n (start_of n) (size_of n) ∙ rw (e, f) refl,
        record {
          valid = updated-IsValid t c.valid n p (start_of n) (size_of n) e f bound;
          room = λ k h. c.room k (ground (arith, h));
        },
      )

  get_start_and_size-known :
      (n : String)
      → lookup n sb.dim_pos ≡ some (position sb n)
      → get_start_and_size sb n ≡ ok (start_of n, size_of n)
  unfolding start_of size_of
  get_start_and_size-known n here = get_start_and_size-found sb sliced.valid n (position sb n) here

  copy_slices-unfold :
      (n : String) (names : List String) (t t' : SliceBuilder)
      → lookup n sb.dim_pos ≡ some (position sb n)
      → set_start_and_size t n (start_of n) (size_of n) ≡ ok t'
      → copy_slices sb (n ∷ names) t ≡ copy_slices sb names t'
  unfolding copy_slices start_of size_of
  copy_slices-unfold n names t t' here e =
      let inside = sliced.valid.in_range n (position sb n) here in
      rw
        (
          get_dim_pos-some sb n here,
          at-eq sb.start (position sb n) 0 (omega (arith, inside, sliced.valid.starts)),
          at-eq sb.size (position sb n) 0 inside,
          e,
        )
        refl

  copy_slices-agrees :
      (names : List String) (t : SliceBuilder)
      → Known sb names
      → Copies sb names t
      → (t' : SliceBuilder) × (copy_slices sb names t ≡ ok t')
        × IsValid t'
        × ((k : String)
            → get_start_and_size t' k
              ≡ (if contains k names then get_start_and_size sb k else get_start_and_size t k))
  unfolding copy_slices contains
  copy_slices-agrees [] t known c = (t, refl, c.valid, (λ k. refl))
  copy_slices-agrees (n ∷ names) t known c =
      let here = head_position sb n names known in
      let (t1, e, c1) = copy-Copies n names t known c in
      let (t', e', valid', reads) = copy_slices-agrees names t1 (tail-Known sb n names known) c1 in
      let set_reads = λ (k : String).
        get_start_and_size-set_start_and_size t n k (start_of n) (size_of n) t1 c.valid
          (slice_fits n here).1 e in
      (
        t',
        copy_slices-unfold n names t t1 here e ∙ e',
        valid',
        (λ k. ground (
          arith,
          reads k,
          set_reads k,
          eq_iff n k,
          eq_iff k n,
          get_start_and_size-known n here,
          ap (λ (j : String). get_start_and_size sb j) {x = n} {y = k},
        )),
      )
