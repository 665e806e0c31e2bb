-- ===== src/Extractor/Range.antt =====
-- reduceDimensionStartEnd: which positions are kept.
use fimex.Prelude.Result.{ok}
use fimex.Cdm.Dimensions.{get_dimension}
use fimex.Cdm.Model.{CdmDimension}
use fimex.Prelude.Words.{wsub, wadd, size_mod}
use fimex.Extractor.{
  is_positive, reduce_to_slices, start_end_length, reduce_dimension_start_end, reduce_dimension,
  CdmExtractor, insert_slice, use_slices,
}
use fimex.Prelude.{
  true, ◌&&◌, ◌-◌, ◌^◌, upto-suc, String, ◌∙◌, ltb, ap, false, ◌==◌, ◌≤◌, ◌<◌, ◌+◌, upto, ℕ, List,
  [], ◌∷◌, ◌++◌, zero, suc, ◌≡◌, arith, refl,
}

-- Inserting a number above all others puts it last.
insert_slice-last :
    (start n m : ℕ) → start + n ≤ m → insert_slice m (upto start n) ≡ upto start n ++ m ∷ []
unfolding insert_slice upto
insert_slice-last start zero m h = refl
insert_slice-last start (suc n) m h =
    let ne : (m == start) ≡ false = ground arith in
    let ge : ltb m start ≡ false = ground arith in
    rw (ne, ge) (ap (λ (xs : List ℕ). start ∷ xs) (insert_slice-last (start + 1) n m (omega arith)))

use_slices-upto :
    (start rounds i : ℕ)
    → start + (i + rounds) < size_mod
    → use_slices start rounds i (upto start i) ≡ upto start (i + rounds)
unfolding use_slices
use_slices-upto start zero i h = ap (upto start) (omega arith)
use_slices-upto start (suc rounds) i h =
    let exact : wadd start i ≡ start + i = omega arith in
    rw (exact, insert_slice-last start i (start + i) (omega arith), ← upto-suc start i)
      (ap (λ (j : ℕ). use_slices start rounds (i + 1) (upto start j)) {x = suc i} {y = i + 1}
          (omega arith)
        ∙ use_slices-upto start rounds (i + 1) (omega arith)
        ∙ ap (upto start) (omega arith))

is_positive-back : (k : ℕ) → k ≤ 2 ^ 63 → is_positive (wsub 0 k) ≡ false
unfolding is_positive
is_positive-back zero h = refl
is_positive-back (suc k) h =
    let v : wsub 0 (suc k) ≡ size_mod - suc k = omega (arith, h) in
    let t : ltb (size_mod - suc k) (2 ^ 63) ≡ false = ground arith in rw (v, t) (ground arith)

start_end_length-back :
    (n start k : ℕ)
    → n < size_mod
    → k ≤ 2 ^ 63
    → start + k ≤ n
    → start_end_length n start (wsub 0 k) ≡ n - start - k
unfolding start_end_length
start_end_length-back n start k small le h = rw (is_positive-back k le) (omega arith)

module _ {V : Type 0} (dim_name : String) (start : ℕ) (x : CdmExtractor V) where
  reduce_dimension-upto :
      (n : ℕ)
      → start + n < size_mod
      → reduce_dimension dim_name start n x ≡ reduce_to_slices dim_name (upto start n) x
  unfolding reduce_dimension upto
  reduce_dimension-upto n h =
      ap (λ (ps : List ℕ). reduce_to_slices dim_name ps x)
        (use_slices-upto start n 0 (omega (arith, h)) ∙ ap (upto start) (omega arith))

  -- A positive end is the last position kept.
  pub reduce_dimension_start_end-last :
      (end : ℕ)
      → 0 < end
      → start ≤ end
      → end < 2 ^ 63
      → reduce_dimension_start_end dim_name start end x
        ≡ reduce_to_slices dim_name (upto start (end - start + 1)) x
  unfolding reduce_dimension_start_end start_end_length is_positive
  reduce_dimension_start_end-last end some_end le small =
      let p : (ltb 0 end && ltb end (2 ^ 63)) ≡ true = ground arith in
      let n : wadd (wsub end start) 1 ≡ end - start + 1 = omega arith in
      rw (p, n) (reduce_dimension-upto (end - start + 1) (omega arith))

  -- An end that is 0 or negative counts from the end of the dimension: for -k, the positions from
  -- the start up to, and without, the length less k are kept.
  pub reduce_dimension_start_end-back :
      (k : ℕ) (dim : CdmDimension)
      → get_dimension dim_name x.cdm ≡ ok dim
      → dim.length < size_mod
      → k ≤ 2 ^ 63
      → start + k ≤ dim.length
      → reduce_dimension_start_end dim_name start (wsub 0 k) x
        ≡ reduce_to_slices dim_name (upto start (dim.length - start - k)) x
  unfolding reduce_dimension_start_end
  reduce_dimension_start_end-back k dim e small le h =
      rw (is_positive-back k le, e, start_end_length-back dim.length start k small le h)
        (reduce_dimension-upto (dim.length - start - k) (omega arith))
