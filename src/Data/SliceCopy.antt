-- ===== src/Data/SliceCopy.antt =====
-- include/fimex/RecursiveSliceCopy.h: a hyper-rectangle of an array is copied by walking a pointer
-- over the array. The first dimension moves fastest. The pointer into the original data is a
-- position in it, and the pointer into the new data is the list of what was written so far.
pub mod Meaning
pub mod Elements
use fimex.Prelude.Words.{wadd, wsub, wmul}
use fimex.Prelude.{drop, take, zero, get_or, ◌++◌, List, suc, ◌+◌, ℕ}

-- The arguments that stay the same in the recursion.
pub record Region : Type 0 where
  pub org_dim_size : List ℕ
  pub org_slice_size : List ℕ
  pub new_start : List ℕ
  pub new_size : List ℕ

-- v[i]
abbrev pub nth : List ℕ → ℕ → ℕ
nth v i = get_or v i 0

pub record Pointers {ℓ} (C : Type ℓ) : Type ℓ where
  pub org_pos : ℕ
  pub new_data : List C

abbrev pub pointers {ℓ} : {C : Type ℓ} → ℕ → List C → Pointers C
pointers pos new_data = record { org_pos = pos; new_data = new_data }

-- for (i = 0; i < n; i++) body
unfoldable pub iterate {ℓ} : {S : Type ℓ} → ℕ → (S → S) → S → S
iterate zero body s = s
iterate (suc n) body s = iterate n body (body s)

module _ {ℓ} {C : Type ℓ} where
  -- (*orgData) += newStart[d] * orgSliceSize[d]
  unfoldable pub skip_before : Region → ℕ → Pointers C → Pointers C
  skip_before r d p = record p {
    org_pos = p.org_pos + wmul (nth r.new_start d) (nth r.org_slice_size d);
  }

  -- (*orgData) += (orgDimSize[d] - (newStart[d] + newSize[d])) * orgSliceSize[d]
  unfoldable pub skip_after : Region → ℕ → Pointers C → Pointers C
  skip_after r d p = record p {
    org_pos =
        p.org_pos
        + wmul (wsub (nth r.org_dim_size d) (wadd (nth r.new_start d) (nth r.new_size d)))
            (nth r.org_slice_size d);
  }

  -- The innermost dimension: std::copy of `newSize[0]` elements, and the pointer moves past them.
  unfoldable pub copy_run : List C → Region → Pointers C → Pointers C
  copy_run org r p = record {
    org_pos = p.org_pos + nth r.new_size 0;
    new_data = p.new_data ++ take (nth r.new_size 0) (drop p.org_pos org);
  }

  unfoldable pub recursive_copy_multi_dim_data : List C → Region → ℕ → Pointers C → Pointers C
  recursive_copy_multi_dim_data org r zero p = skip_after r 0 (copy_run org r (skip_before r 0 p))
  recursive_copy_multi_dim_data org r (suc d) p = skip_after r (suc d) (
      iterate (nth r.new_size (suc d)) (λ q. recursive_copy_multi_dim_data org r d q)
        (skip_before r (suc d) p))
