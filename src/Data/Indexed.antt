-- ===== src/Data/Indexed.antt =====
-- IndexedData (src/IndexedData.cc): an array and the index of its dimensions.
use fimex.Prelude.Words.{wmul, size_mod}
use fimex.Prelude.Result.{runtime_error, err, ok, Result}
use fimex.Data.Index.{get_pos, new_index, DataIndex}
use fimex.Data.Index.Position.{get_pos-offset, capacity-pos, offset, InRange, capacity}
use fimex.Data.Impl.{product, product_from}
use fimex.Prelude.{
  ap, refl, some, get_elem?, inr, inl, Bool-cases, true, false, sym, ◌∙◌, length, zero, ◌==◌, ◌∷◌,
  suc, if◌then◌else◌, [], arith, ◌≡◌, ◌*◌, ◌<◌, List, ℕ,
}

pub record IndexedData (V : Type 0) : Type 0 where
  pub values : List V
  pub idx : DataIndex

-- IndexedData::setDims
unfoldable pub set_dims : {V : Type 0} → List ℕ → IndexedData V → Result (Unit {0}) × IndexedData V
set_dims dims x =
    let size = product dims in
    if size == length x.values
    then (ok tt, record x { idx = new_index dims })
    else if length x.values == 0
    then (ok tt, record x { idx = new_index [] })
    else (err runtime_error, x)

-- IndexedData::IndexedData(data, dims)
unfoldable pub new_indexed : {V : Type 0} → List V → List ℕ → Result (Unit {0}) × IndexedData V
new_indexed values dims = set_dims dims (record { values = values; idx = new_index [] })

factor-lt : (a c m : ℕ) → 0 < c → a * c < m → a < m
factor-lt a zero m p h = absurd (omega (arith, p))
factor-lt a (suc c) m p h = omega (arith, h)

regroup : (a n c : ℕ) → a * (n * c) ≡ (a * n) * c
regroup a n c = omega arith

product_from-capacity :
    (acc : ℕ) (ns : List ℕ)
    → 0 < capacity ns
    → acc * capacity ns < size_mod
    → product_from acc ns ≡ acc * capacity ns
unfolding product_from capacity
product_from-capacity acc [] p h = omega arith
product_from-capacity acc (n ∷ ns) p h =
    let q : 0 < capacity ns = tail_pos n (capacity ns) p in
    let h' : (acc * n) * capacity ns < size_mod = rw (regroup acc n (capacity ns)) at h in
    let w : wmul acc n ≡ acc * n = omega (arith, factor-lt (acc * n) (capacity ns) size_mod q h') in
    rw w (product_from-capacity (acc * n) ns q h' ∙ sym (regroup acc n (capacity ns)))
  where
    tail_pos : (n c : ℕ) → 0 < n * c → 0 < c
    tail_pos n zero h = absurd (omega (arith, h))
    tail_pos n (suc c) h = omega arith

elem_at : {V : Type 0} (xs : List V) (i : ℕ) → i < length xs → (v : V) × (get_elem? xs i ≡ some v)
elem_at [] i h = elim h [ ]
elem_at (x ∷ xs) zero h = (x, refl)
elem_at (x ∷ xs) (suc i) h = elem_at xs i (omega (arith, h))

module _ {V : Type 0} (values : List V) (dims : List ℕ) where
  set_dims-fits :
      (length values == 0) ≡ false
      → (new_indexed values dims).0 ≡ ok tt
      → ((product dims == length values) ≡ true)
        × (new_indexed values dims).1.idx ≡ new_index dims
        × (new_indexed values dims).1.values ≡ values
  unfolding new_indexed set_dims
  set_dims-fits e h = elim (Bool-cases (product dims == length values)) [
    | inl q ↦ (q, rw q refl, rw q refl)
    | inr q ↦ absurd (thrown (sym (rw (q, e)) ∙ h))
  ]
    where
      thrown : err runtime_error ≡ ok (tt {0}) → ⊥
      thrown x = cc

  -- Data that are not empty, with dimensions that they are accepted for: every position within the
  -- dimensions has a place within the data.
  pub new_indexed-inside :
      (pos : List ℕ)
      → (length values == 0) ≡ false
      → (new_indexed values dims).0 ≡ ok tt
      → InRange dims pos
      → capacity dims < size_mod
      → (get_pos (new_indexed values dims).1.idx pos ≡ ok (offset dims pos))
        × ((v : V) × (get_elem? (new_indexed values dims).1.values (offset dims pos) ≡ some v))
  new_indexed-inside pos e h r b =
      let (fits, i, v) = set_dims-fits e h in
      let exact : product dims ≡ capacity dims =
        product_from-capacity 1 dims (capacity-pos dims pos r) (omega (arith, b)) ∙ omega arith in
      let (found, below) = get_pos-offset dims pos r b in
      let sizes : product dims ≡ length values = ground (arith, fits) in
      (
        ap (λ (x : DataIndex). get_pos x pos) i ∙ found,
        rw v (elem_at values (offset dims pos) (omega (arith, sizes, exact, below))),
      )
