-- ===== src/Slice/Builder/Set.antt =====
-- setStartAndSize: its outcome on every branch, and what is read back.
use fimex.Prelude.Text.{eq_iff, str_eq}
use fimex.Prelude.Words.{wadd_exact, size_mod, wadd}
use fimex.Prelude.Dict.{lookup, insert}
use fimex.Prelude.Result.{ok-injective, out_of_range, ok, cdm_exception, err, guard, Result}
use fimex.Slice.Builder.Laws.{Within, IsValid}
use fimex.Prelude.{
  ◌-◌, ◌≤◌, false, ap, subst, get_or-set, sym, ◌∙◌, length-set, ◌+◌, refl, Bool-cases, none, inr,
  if◌then◌else◌, get_elem?-get_or, lt→ltb, inl, arith, leb, some, ◌||◌, Option-cases, true, length,
  ◌≡◌, get_or, Bool, ◌<◌, Option, set, List, ℕ, String,
}
use fimex.Slice.Builder.{
  get_start_and_size, get_dim_pos, at, set_at, check_limit, set_start_and_size, SliceBuilder,
}

pub at-eq {ℓ} :
    {A : Type ℓ} (xs : List A) (i : ℕ) (d : A) → i < length xs → at xs i ≡ ok (get_or xs i d)
at-eq xs i d h = rw (at, get_elem?-get_or xs i d h)

set_at-eq {ℓ} :
    {A : Type ℓ} (xs : List A) (i : ℕ) (x : A) → i < length xs → set_at xs i x ≡ ok (set xs i x)
set_at-eq xs i x h = rw (lt→ltb i (length xs) h)

get_dim_pos-none :
    (sb : SliceBuilder) (n : String)
    → lookup n sb.dim_pos ≡ none
    → get_dim_pos sb n ≡ err cdm_exception
unfolding get_dim_pos
get_dim_pos-none sb n e = ground arith

pub get_dim_pos-some :
    (sb : SliceBuilder) (n : String) {pos : ℕ}
    → lookup n sb.dim_pos ≡ some pos
    → get_dim_pos sb n ≡ ok pos
unfolding get_dim_pos
get_dim_pos-some sb n e = ground arith

-- The builder after a successful call.
abbrev pub updated : SliceBuilder → String → ℕ → ℕ → ℕ → SliceBuilder
updated sb n pos start size = record sb {
  start = set sb.start pos start;
  size = set sb.size pos size;
  set_dims = insert n tt sb.set_dims;
}

abbrev pub fits : SliceBuilder → ℕ → ℕ → ℕ → Bool
fits sb pos start size =
    get_or sb.unlimited pos true || leb (wadd start size) (get_or sb.max_size pos 0)

abbrev pub outcome : SliceBuilder → String → ℕ → ℕ → Option ℕ → Result SliceBuilder
outcome sb n start size none = err cdm_exception
outcome sb n start size (some pos) =
    if fits sb pos start size then ok (updated sb n pos start size) else err out_of_range

module _ (sb : SliceBuilder) (valid : IsValid sb) where
  check_limit_lem :
      (pos start size : ℕ)
      → pos < length sb.size
      → check_limit sb pos start size ≡ guard (fits sb pos start size) out_of_range
  unfolding check_limit
  check_limit_lem pos start size h =
      rw
        (
          at-eq sb.unlimited pos true (omega (arith, valid.unlimiteds)),
          at-eq sb.max_size pos 0 (omega (arith, valid.max_sizes)),
        )
        (ground arith)

  -- On a valid builder the call throws a CDMException for an unknown name, out_of_range where the
  -- wrapped sum of start and size is above the maximum of a limited dimension, and otherwise sets
  -- the one position and marks the name.
  pub set_start_and_size-outcome :
      (n : String) (start size : ℕ)
      → set_start_and_size sb n start size ≡ outcome sb n start size (lookup n sb.dim_pos)
  set_start_and_size-outcome n start size = elim (Option-cases (lookup n sb.dim_pos)) [
    | inl e ↦ unfold set_start_and_size in rw (get_dim_pos-none sb n e, e) refl
    | inr (pos, e) ↦
        let h = valid.in_range n pos e in
        unfold set_start_and_size in
        rw
          (
            get_dim_pos-some sb n e,
            e,
            check_limit_lem pos start size h,
            set_at-eq sb.start pos start (omega (arith, valid.starts)),
            set_at-eq sb.size pos size h,
          )
          (ground arith)
  ]

  -- A value that the test lets through, unless the sum of start and size wraps.
  pub updated-IsValid :
      (n : String) (pos start size : ℕ)
      → lookup n sb.dim_pos ≡ some pos
      → fits sb pos start size ≡ true
      → start + size < size_mod
      → IsValid (updated sb n pos start size)
  updated-IsValid n pos start size e f bound =
      let h = valid.in_range n pos e in
      let l = length-set sb.size pos size in
      record {
        max_sizes = valid.max_sizes ∙ sym l;
        unlimiteds = valid.unlimiteds ∙ sym l;
        starts = length-set sb.start pos start ∙ valid.starts ∙ sym l;
        in_range = λ k p q. omega (arith, l, valid.in_range k p q);
        injective = valid.injective;
        within = λ i u. ground (
          arith,
          get_or-set sb.start pos i start 0 (omega (arith, valid.starts)),
          get_or-set sb.size pos i size 0 h,
          valid.within i u,
          wadd_exact start size bound,
        );
      }

  -- What a successful call tells.
  pub accepted :
      (n : String) (start size : ℕ) (o : Option ℕ) (sb' : SliceBuilder)
      → outcome sb n start size o ≡ ok sb'
      → (pos : ℕ) × (o ≡ some pos)
        × (fits sb pos start size ≡ true)
        × (updated sb n pos start size ≡ sb')
  accepted n start size none sb' h = cc
  accepted n start size (some pos) sb' h = elim (Bool-cases (fits sb pos start size)) [
    | inl f ↦ (pos, refl, f, ok-injective (sym (rw f) ∙ h))
    | inr f ↦ absurd (not_err (sym (rw f) ∙ h))
  ]
    where
      not_err : err out_of_range ≡ ok sb' → ⊥
      not_err e = cc

  -- Whatever call succeeds, with a start and a size whose sum does not wrap, leaves every slice
  -- within its dimension.
  pub set_start_and_size-IsValid :
      (n : String) (start size : ℕ) (sb' : SliceBuilder)
      → start + size < size_mod
      → set_start_and_size sb n start size ≡ ok sb'
      → IsValid sb'
  set_start_and_size-IsValid n start size sb' bound h =
      let (pos, e, f, q) =
        accepted n start size (lookup n sb.dim_pos) sb'
          (sym (set_start_and_size-outcome n start size) ∙ h) in
      subst IsValid q (updated-IsValid n pos start size e f bound)

  pub get_start_and_size-found :
      (k : String) (p : ℕ)
      → lookup k sb.dim_pos ≡ some p
      → get_start_and_size sb k ≡ ok (get_or sb.start p 0, get_or sb.size p 0)
  unfolding get_start_and_size
  get_start_and_size-found k p e =
      let h = valid.in_range k p e in
      rw (
        get_dim_pos-some sb k e,
        at-eq sb.start p 0 (omega (arith, valid.starts)),
        at-eq sb.size p 0 h,
      )

  get_start_and_size-missing :
      (k : String) → lookup k sb.dim_pos ≡ none → get_start_and_size sb k ≡ err cdm_exception
  unfolding get_start_and_size
  get_start_and_size-missing k e = rw (get_dim_pos-none sb k e)

-- What was set is read back, and the other dimensions read as before.
pub get_start_and_size-set_start_and_size :
    (sb : SliceBuilder) (n k : String) (start size : ℕ) (sb' : SliceBuilder)
    → IsValid sb
    → start + size < size_mod
    → set_start_and_size sb n start size ≡ ok sb'
    → get_start_and_size sb' k ≡ (if str_eq n k then ok (start, size) else get_start_and_size sb k)
get_start_and_size-set_start_and_size sb n k start size sb' valid bound h =
    let (pos, e, f, q) =
      accepted sb valid n start size (lookup n sb.dim_pos) sb'
        (sym (set_start_and_size-outcome sb valid n start size) ∙ h) in
    let valid' = updated-IsValid sb valid n pos start size e f bound in
    let u = updated sb n pos start size in
    let r = valid.in_range n pos e in
    rw (← q) (elim (Option-cases (lookup k sb.dim_pos)) [
      | inl m ↦
          get_start_and_size-missing u valid' k m
          ∙ ground (arith, get_start_and_size-missing sb valid k m, eq_iff n k, e, m)
      | inr (p, m) ↦
          get_start_and_size-found u valid' k p m
          ∙ ground (
            arith,
            get_or-set sb.start pos p start 0 (omega (arith, valid.starts)),
            get_or-set sb.size pos p size 0 r,
            get_start_and_size-found sb valid k p m,
            eq_iff n k,
            ap (λ j. lookup j sb.dim_pos) {x = n} {y = k},
            λ (z : pos ≡ p). valid.injective n k pos e (rw z m),
            e,
            m,
          )
    ])

-- The sum of the bounds check is taken modulo 2^64, so a request that passes the end of a limited
-- dimension is accepted if the sum of start and size wraps to at most the dimension's length; the
-- slice that it leaves is not within the dimension.
pub set_start_and_size-wraps :
    (sb : SliceBuilder) (n : String) (pos start size : ℕ)
    → IsValid sb
    → lookup n sb.dim_pos ≡ some pos
    → get_or sb.unlimited pos true ≡ false
    → get_or sb.max_size pos 0 < size_mod
    → size_mod ≤ start + size
    → start + size ≤ size_mod + get_or sb.max_size pos 0
    → (set_start_and_size sb n start size ≡ ok (updated sb n pos start size))
      × ¬ Within (updated sb n pos start size) pos
set_start_and_size-wraps sb n pos start size valid e u small wraps near =
    let w : wadd start size ≡ start + size - size_mod = omega arith in
    let f : fits sb pos start size ≡ true = ground (arith, w) in
    (
      set_start_and_size-outcome sb valid n start size ∙ rw (e, f),
      λ within. absurd (
          ground (
            arith,
            within u,
            get_or-set sb.start pos pos start 0
                (omega (arith, valid.starts, valid.in_range n pos e)),
            get_or-set sb.size pos pos size 0 (valid.in_range n pos e),
          )),
    )
