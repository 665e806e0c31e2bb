-- ===== src/Data/Impl/Slice.antt =====
-- DataImpl<C>::slice returns exactly the selected elements.
use fimex.Data.SliceCopy.Elements.{
  get_elem?-selection, length-selection, org_offset, new_offset, volume, InSelection,
}
use fimex.Prelude.Result.{ok}
use fimex.Data.SliceCopy.{pointers, nth}
use fimex.Prelude.Words.{wadd_exact, wadd, size_mod, wmul}
use fimex.Data.SliceCopy.Meaning.{selection, recursive_copy_multi_dim_data-selection, Layout, Fits}
use fimex.Prelude.{
  ap, ==_iff, ◌==◌, ◌*◌, true, get_elem?, ltb, not, ◌∙◌, refl, zero, ◌≤◌, arith, [], ◌+◌, length,
  ◌≡◌, suc, ◌<◌, ◌∷◌, ℕ, List,
}
use fimex.Data.Impl.{slice, region, product_from, slice_sizes, slice_checks, product}

slice_sizes-suc :
    (acc : ℕ) (ns : List ℕ) (d : ℕ)
    → suc d < length ns
    → nth (slice_sizes acc ns) (suc d) ≡ wmul (nth (slice_sizes acc ns) d) (nth ns d)
unfolding slice_sizes
slice_sizes-suc acc [] d h = elim h [ ]
slice_sizes-suc acc (n ∷ []) d h = absurd (omega arith)
slice_sizes-suc acc (n ∷ m ∷ ns) zero h = refl
slice_sizes-suc acc (n ∷ m ∷ ns) (suc d) h = slice_sizes-suc (wmul acc n) (m ∷ ns) d (omega arith)

product-slice_sizes :
    (acc n : ℕ) (ns : List ℕ)
    → product_from acc (n ∷ ns)
      ≡ wmul (nth (slice_sizes acc (n ∷ ns)) (length ns)) (nth (n ∷ ns) (length ns))
unfolding slice_sizes product_from
product-slice_sizes acc n [] = refl
product-slice_sizes acc n (m ∷ ns) = product-slice_sizes (wmul acc n) m ns

slice_sizes-zero : (ns : List ℕ) → 0 < length ns → nth (slice_sizes 1 ns) 0 ≡ 1
unfolding slice_sizes
slice_sizes-zero [] h = absurd (omega arith)
slice_sizes-zero (n ∷ ns) h = refl

module _ (org_dim_size start_dims output_dim_size : List ℕ) where
  -- A request within the array, whose sizes do not wrap.
  pub record Request : Type 0 where
    pub fits :
        (d : ℕ) → d < length org_dim_size → Fits (region org_dim_size start_dims output_dim_size) d

  Layout-of_Request :
      Request
      → (d : ℕ) → d < length org_dim_size
      → Layout (region org_dim_size start_dims output_dim_size) d
  Layout-of_Request q zero h = (q.fits 0 h, slice_sizes-zero org_dim_size h)
  Layout-of_Request q (suc d) h =
      let f = q.fits d (omega arith) in
      (
        q.fits (suc d) h,
        slice_sizes-suc 1 org_dim_size d h ∙ omega (arith, f.small_block),
        Layout-of_Request q d (omega arith),
      )

slice_checks-ok :
    (i : ℕ) (ns starts outs : List ℕ) (a b : ℕ)
    → ((d : ℕ)
        → d < length ns
        → (nth starts (i + d) + nth outs (i + d) ≤ nth ns d) × (nth ns d < size_mod))
    → (o : ℕ) × (slice_checks i ns starts outs a b ≡ ok (product_from a ns, o))
unfolding slice_checks product_from
slice_checks-ok i [] starts outs a b h = (b, refl)
slice_checks-ok i (n ∷ ns) starts outs a b h =
    let (le, small) = h 0 (omega arith) in
    let z : i + 0 ≡ i = omega arith in
    let le' : nth starts i + nth outs i ≤ n = rw z at le in
    let test : not (ltb n (wadd (nth starts i) (nth outs i))) ≡ true =
      ground (arith, wadd_exact (nth starts i) (nth outs i)) in
    rw test (
      slice_checks-ok (i + 1) ns starts outs (wmul a n) (wmul b (nth outs i))
        (λ d p. let y : i + 1 + d ≡ i + suc d = omega arith in rw y (h (suc d) (omega arith))))

-- For a request within the array, slice returns as many elements as were asked for, and the element
-- at each index of the result is the one at that index behind the start in the original array.
pub slice-elements {ℓ} :
    {C : Type ℓ} (values : List C) (n : ℕ) (ns starts outs : List ℕ) (idx : ℕ → ℕ)
    → Request (n ∷ ns) starts outs
    → product (n ∷ ns) ≡ length values
    → InSelection (region (n ∷ ns) starts outs) idx (length ns)
    → (out : List C) × (slice values (n ∷ ns) starts outs ≡ ok out)
      × (length out ≡ volume (region (n ∷ ns) starts outs) (length ns))
      × (get_elem? out (new_offset (region (n ∷ ns) starts outs) idx (length ns))
          ≡ get_elem? values (org_offset (region (n ∷ ns) starts outs) idx (length ns)))
unfolding slice
slice-elements values n ns starts outs idx q e i =
    let r = region (n ∷ ns) starts outs in
    let last = length ns in
    let l = Layout-of_Request (n ∷ ns) starts outs q last (omega arith) in
    let f = q.fits last (omega arith) in
    let (o, c) = slice_checks-ok 0 (n ∷ ns) starts outs 1 1 (λ d p.
      let fd = q.fits d p in let z : 0 + d ≡ d = omega arith in rw z (fd.inside, fd.small)) in
    let whole : 0 + nth (n ∷ ns) last * nth (slice_sizes 1 (n ∷ ns)) last ≤ length values =
      omega (arith, product-slice_sizes 1 n ns, e, f.small_block) in
    let t : (product (n ∷ ns) == length values) ≡ true = (==_iff _ _).1 e in
    let walk = recursive_copy_multi_dim_data-selection values r last (pointers 0 []) l in
    (
      selection values r last 0,
      rw (c, t) (ap (λ p. ok p.new_data) walk),
      length-selection values r last 0 l whole,
      get_elem?-selection values r last 0 idx l whole i ∙ ap (get_elem? values) (omega arith),
    )
