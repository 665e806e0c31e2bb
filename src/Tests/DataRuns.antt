-- ===== src/Tests/DataRuns.antt =====
-- A slice of an array of three times two values.
use fimex.Data.Indexed.{new_indexed, new_indexed-inside, set_dims}
use fimex.Prelude.Words.{size_mod}
use fimex.Data.Index.{new_index, get_pos}
use fimex.Data.Index.Position.{get_pos-offset, offset, InRange, capacity}
use fimex.Data.SliceCopy.Elements.{org_offset, new_offset, volume}
use fimex.Prelude.Result.{ok}
use fimex.Data.Impl.Slice.{slice-elements, Request}
use fimex.Data.SliceCopy.Meaning.{recursive_copy_multi_dim_data-selection, selection, Fits, Layout}
use fimex.Data.Impl.{slice_checks, product, region, slice, product_from, slice_sizes}
use fimex.Data.SliceCopy.{
  iterate, copy_run, nth, skip_after, skip_before, pointers, recursive_copy_multi_dim_data,
}
use fimex.Prelude.{
  some, zero, suc, ◌++◌, ◌*◌, get_elem?, ◌+◌, length, arith, ◌<◌, ◌≡◌, ℕ, List, [], ◌∷◌, refl,
}

abbrev values : List ℕ
values = 10 ∷ 11 ∷ 12 ∷ 20 ∷ 21 ∷ 22 ∷ []

abbrev dims : List ℕ
dims = 3 ∷ 2 ∷ []

abbrev starts : List ℕ
starts = 1 ∷ 1 ∷ []

abbrev outs : List ℕ
outs = 2 ∷ 1 ∷ []

slice_run : slice values dims starts outs ≡ ok (21 ∷ 22 ∷ [])
unfolding slice slice_checks slice_sizes recursive_copy_multi_dim_data skip_before skip_after
    copy_run iterate
slice_run = refl

request : Request dims starts outs
unfolding slice_sizes
request = record { fits = fits }
  where
    fits : (d : ℕ) → d < 2 → Fits (region dims starts outs) d
    fits zero h = record { inside = omega arith; small = omega arith; small_block = omega arith }
    fits (suc zero) h = record {
      inside = omega arith;
      small = omega arith;
      small_block = omega arith;
    }
    fits (suc (suc d)) h = absurd (omega arith)

layout : Layout (region dims starts outs) 1
unfolding slice_sizes
layout = (request.fits 1 (omega arith), refl, (request.fits 0 (omega arith), refl))

recursive_copy_multi_dim_data-selection_example :
    recursive_copy_multi_dim_data values (region dims starts outs) 1 (pointers 0 [])
    ≡ pointers
        (0
          + nth (region dims starts outs).org_dim_size 1
            * nth (region dims starts outs).org_slice_size 1)
        ([] ++ selection values (region dims starts outs) 1 0)
recursive_copy_multi_dim_data-selection_example =
    recursive_copy_multi_dim_data-selection values (region dims starts outs) 1 (pointers 0 [])
      layout

abbrev idx : ℕ → ℕ
idx zero = 1
idx (suc d) = 0

product_run : product dims ≡ length values
unfolding product_from
product_run = refl

slice-elements_example :
    (out : List ℕ) × (slice values dims starts outs ≡ ok out)
    × (length out ≡ volume (region dims starts outs) 1)
    × (get_elem? out (new_offset (region dims starts outs) idx 1)
        ≡ get_elem? values (org_offset (region dims starts outs) idx 1))
slice-elements_example =
    slice-elements values 3 (2 ∷ []) starts outs idx request product_run (omega arith, omega arith)

abbrev place : List ℕ
place = 2 ∷ 1 ∷ []

abbrev corner : List ℕ
corner = 0 ∷ 1 ∷ []

place-InRange : InRange dims place
place-InRange = (omega arith, (omega arith, tt))

small : capacity dims < size_mod
unfolding capacity
small = omega arith

get_pos-offset_example :
    (get_pos (new_index dims) place ≡ ok (offset dims place)) × (offset dims place < capacity dims)
get_pos-offset_example = get_pos-offset dims place place-InRange small

values_fit : (new_indexed values dims).0 ≡ ok tt
unfolding new_indexed set_dims product_from
values_fit = refl

new_indexed-inside_example :
    (get_pos (new_indexed values dims).1.idx place ≡ ok (offset dims place))
    × ((v : ℕ) × (get_elem? (new_indexed values dims).1.values (offset dims place) ≡ some v))
new_indexed-inside_example =
    new_indexed-inside values dims place refl values_fit place-InRange small
