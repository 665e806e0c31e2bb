-- ===== src/Slice/Builder/Laws.antt =====
-- What a slice builder promises: a slice lies within its variable, and setting one dimension
-- changes that dimension only.
use fimex.Prelude.Text.{eq_iff}
use fimex.Prelude.Result.{ok-injective, ok}
use fimex.Prelude.Dict.{lookup-insert, insert, lookup, Dict}
use fimex.Prelude.{
  get_or-replicate, inr, subst, sym, inl, ◌&&◌, ◌∙◌, refl, ◌==◌, length-replicate, Bool-cases, [],
  ◌∷◌, ◌<◌, ◌≤◌, some, arith, false, suc, ◌+◌, Bool, String, replicate, true, ◌≡◌, List, get_or,
  length, ℕ,
}
use fimex.Slice.Builder.{initial, init, positions, SliceBuilder}

-- The slice of the dimension at a position lies within the dimension, unless that is unlimited.
abbrev pub Within : SliceBuilder → ℕ → Type 0
Within sb i =
    get_or sb.unlimited i true ≡ false
    → get_or sb.start i 0 + get_or sb.size i 0 ≤ get_or sb.max_size i 0

pub record IsValid (sb : SliceBuilder) : Type 0 where
  pub max_sizes : length sb.max_size ≡ length sb.size
  pub unlimiteds : length sb.unlimited ≡ length sb.size
  pub starts : length sb.start ≡ length sb.size
  pub in_range : (n : String) (pos : ℕ) → lookup n sb.dim_pos ≡ some pos → pos < length sb.size
  pub injective :
      (n k : String) (pos : ℕ)
      → lookup n sb.dim_pos ≡ some pos
      → lookup k sb.dim_pos ≡ some pos
      → n ≡ k
  pub within : (i : ℕ) → Within sb i

-- Positions that the loop of init has given out lie below its counter, and differ.
record Given (pos : ℕ) (m : Dict ℕ) : Type 0 where
  below : (n : String) (p : ℕ) → lookup n m ≡ some p → p < pos
  differ : (n k : String) (p : ℕ) → lookup n m ≡ some p → lookup k m ≡ some p → n ≡ k

positions-Given :
    (pos : ℕ) (names : List String) (m : Dict ℕ)
    → Given pos m
    → Given (pos + length names) (positions pos names m)
unfolding positions
positions-Given pos [] m g = record {
  below = λ n p h. omega (arith, g.below n p h);
  differ = g.differ;
}
positions-Given pos (x ∷ names) m g =
    let e : pos + suc (length names) ≡ pos + 1 + length names = omega arith in
    rw e (
      positions-Given (pos + 1) names (insert x pos m) (record {
        below = λ n p h. ground (arith, lookup-insert x n pos m, g.below n p);
        differ = λ n k p h q. ground (
          arith,
          lookup-insert x n pos m,
          lookup-insert x k pos m,
          g.below n p,
          g.below k p,
          g.differ n k p,
          eq_iff x n,
          eq_iff x k,
        );
      }))

pub initial-IsValid :
    (names : List String) (sizes : List ℕ) (unlimited : List Bool)
    → length names ≡ length sizes
    → length names ≡ length unlimited
    → IsValid (initial names sizes unlimited)
initial-IsValid names sizes unlimited e e' =
    let g =
      positions-Given 0 names []
        (unfold lookup in record { below = λ n p h. cc; differ = λ n k p h q. cc }) in
    record {
      max_sizes = refl;
      unlimiteds = omega arith;
      starts = length-replicate (length names) _ ∙ e;
      in_range = λ n pos h. omega (arith, g.below n pos h);
      injective = g.differ;
      within = λ i h. rw get_or-replicate (omega arith);
    }

-- A new slice builder is valid, and selects everything: starts are 0, sizes those of the
-- dimensions.
pub init-IsValid :
    (names : List String) (sizes : List ℕ) (unlimited : List Bool) (sb : SliceBuilder)
    → init names sizes unlimited ≡ ok sb
    → IsValid sb × (sb.start ≡ replicate (length names) 0) × (sb.size ≡ sizes)
unfolding init
init-IsValid names sizes unlimited sb h =
    elim (Bool-cases (length names == length sizes && length names == length unlimited)) [
      | inl e ↦
          let q : initial names sizes unlimited ≡ sb = ok-injective (sym (rw e) ∙ h) in
          subst (λ s. IsValid s × (s.start ≡ replicate (length names) 0) × (s.size ≡ sizes)) q
            (initial-IsValid names sizes unlimited (ground arith) (ground arith), refl, refl)
      | inr e ↦ absurd (ground arith)
    ]
