-- ===== src/Reader/Memory.antt =====
-- createDataSlice against the part of the data that it names.
use fimex.Cdm.Dimensions.{has_unlimited_dim}
use fimex.Cdm.Model.{Data, CdmVariable}
use fimex.Reader.{get_dims_slice, CdmReader}
use fimex.Reader.Slices.{can_be_sliced, create_data_slice, get_data_slice_from_memory}
use fimex.Reader.Joined.{slices_from}
use native.Mathlib.Nat.{mul-le-mul_right}
use mathlib.Core.List.{append-nil}
use fimex.Prelude.Result.{ok}
use fimex.Prelude.Words.{wmul, wsub, wadd, size_mod}
use fimex.Data.Impl.{product, write_at, copy_data}
use fimex.Prelude.{
  ◌==◌, some, take-append-drop, ◌∙◌, ◌++◌, ap, ◌*◌, length-drop, length-take, ◌-◌, length-replicate,
  false, min, ltb, leb, take, ◌<◌, zero, length, ◌≤◌, suc, ◌+◌, ◌≡◌, replicate, drop, ℕ, List, [],
  ◌∷◌, arith, refl, sym, true,
}

drop-replicate {ℓ} : {C : Type ℓ} (n : ℕ) (c : C) → drop n (replicate n c) ≡ []
drop-replicate zero c = refl
drop-replicate (suc n) c = drop-replicate n c

module _ {V : Type 0} where
  -- The values of a part, in an array of just its size.
  copied_part :
      (values : List V) (e : V) (start n : ℕ)
      → start + n ≤ length values
      → length values < size_mod
      → copy_data (replicate n e) 0 values start (wadd start n) ≡ ok (take n (drop start values))
  unfolding copy_data write_at
  copied_part values e start zero h b =
      let t : leb start (length values) ≡ true = ground arith in
      let m : ltb start (min (wadd (wsub 0 0) start) (min (wadd start 0) (length values))) ≡ false =
        ground arith in
      rw (t, m) refl
  copied_part values e start (suc n) h b =
      let t : leb start (length values) ≡ true = ground arith in
      let l : length (replicate (suc n) e) ≡ suc n = length-replicate (suc n) e in
      let m : min (wadd (wsub (suc n) 0) start) (min (wadd start (suc n)) (length values))
          ≡ start + suc n =
        omega arith in
      let t' : ltb start (start + suc n) ≡ true = ground arith in
      let z : start + suc n - start ≡ suc n = omega arith in
      let k : 0 + length (take (suc n) (drop start values)) ≡ suc n =
        omega (arith, length-take (suc n) (drop start values), length-drop start values, h) in
      rw (l, t, m, t', z, k, drop-replicate (suc n) e) (ap ok (append-nil _))

  -- The part of the data that belongs to position `i`.
  abbrev pub part : List V → ℕ → ℕ → List V
  part values slice_size i = take slice_size (drop (i * slice_size) values)

  drop-nil : (n : ℕ) → ◌≡◌ {A = List V} (drop n []) []
  drop-nil zero = refl
  drop-nil (suc n) = refl

  drop-add : (m n : ℕ) (xs : List V) → drop (m + n) xs ≡ drop n (drop m xs)
  drop-add zero n xs = ap (λ (k : ℕ). drop k xs) (omega arith)
  drop-add (suc m) n [] = let e : suc m + n ≡ suc (m + n) = omega arith in rw e (sym (drop-nil n))
  drop-add (suc m) n (x ∷ xs) =
      let e : suc m + n ≡ suc (m + n) = omega arith in rw e (drop-add m n xs)

  drop-all : (xs : List V) → drop (length xs) xs ≡ []
  drop-all [] = refl
  drop-all (x ∷ xs) = drop-all xs

  slices_from-part :
      (values : List V) (slice_size rounds i : ℕ)
      → length values ≡ (i + rounds) * slice_size
      → slices_from (part values slice_size) i rounds ≡ drop (i * slice_size) values
  unfolding slices_from
  slices_from-part values slice_size zero i l =
      let e : i * slice_size ≡ length values = omega (arith, l) in rw e (sym (drop-all values))
  slices_from-part values slice_size (suc rounds) i l =
      let e : i * slice_size + slice_size ≡ (i + 1) * slice_size = omega arith in
      ap (λ (r : List V). part values slice_size i ++ r)
        (slices_from-part values slice_size rounds (i + 1) (omega (arith, l))
          ∙ ap (λ (k : ℕ). drop k values) (sym e)
          ∙ drop-add (i * slice_size) slice_size values)
      ∙ take-append-drop slice_size (drop (i * slice_size) values)

  -- For a variable with data in memory and the unlimited dimension, the data being as many slices
  -- as there are positions, getDataSliceFromMemory returns the part of each position, and these
  -- parts one behind the other are the data again.
  pub get_data_slice_from_memory-part :
      (reader : CdmReader V) (variable : CdmVariable V) (d : Data V) (dims : List ℕ) (u i : ℕ)
      → variable.payload ≡ some d
      → can_be_sliced variable.datatype ≡ true
      → has_unlimited_dim variable reader.cdm ≡ true
      → get_dims_slice reader variable.name ≡ ok dims
      → 0 < length d.values
      → length d.values ≡ u * product dims
      → length d.values < size_mod
      → i < u
      → (get_data_slice_from_memory reader variable i ≡ ok (some (part d.values (product dims) i)))
        × (slices_from (part d.values (product dims)) 0 u ≡ d.values)
  unfolding get_data_slice_from_memory create_data_slice has_unlimited_dim
  get_data_slice_from_memory-part reader variable d dims u i p t h e some_data l b q =
      let n = product dims in
      let room : i * n + n ≤ length d.values =
        omega (arith, l, mul-le-mul_right {m = suc i} {n = u} n q) in
      let exact : wmul i n ≡ i * n = omega (arith, room, b) in
      let z : (length d.values == 0) ≡ false = ground arith in
      (
        rw (p, z, h, e, t, exact, copied_part d.values reader.empty_value (i * n) n room b) refl,
        slices_from-part d.values n u 0 (omega (arith, l))
            ∙ ap (λ (k : ℕ). drop k d.values) {y = 0} (omega arith),
      )
