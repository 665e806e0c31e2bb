-- ===== src/Reader/Joined.antt =====
-- getData: the slices one behind the other.
use fimex.Prelude.Text.{contains}
use fimex.Cdm.Dimensions.{has_unlimited_dim, get_unlimited_dim}
use fimex.Cdm.Variables.{get_variable}
use mathlib.Core.List.{append-nil}
use fimex.Cdm.Model.{CdmVariable, CdmDimension}
use fimex.Prelude.Result.{ok}
use fimex.Prelude.Words.{wmul, wsub, wadd, size_mod}
use fimex.Reader.{get_data, get_dims_slice, fill_rounds, get_unlimited_data, CdmReader}
use fimex.Data.Impl.{product, write_at, copy_data}
use native.Mathlib.Nat.{mul-le-mul_right}
use mathlib.Core.List.{append-nil, append_assoc}
use fimex.Prelude.{
  some, none, length-drop, length-append, length-take, subst, ◌-◌, ltb, length-replicate, true, leb,
  ◌∙◌, take-append-drop, sym, min, drop, ◌*◌, ◌<◌, ◌≤◌, ap, zero, length, String, ◌+◌, suc, take, ℕ,
  List, [], ◌∷◌, ◌++◌, ◌≡◌, arith, refl,
}

module _ {ℓ} {C : Type ℓ} where
  take-append : (xs ys : List C) → take (length xs) (xs ++ ys) ≡ xs
  take-append [] ys = refl
  take-append (x ∷ xs) ys = ap (λ (r : List C). x ∷ r) (take-append xs ys)

  take-whole : (xs : List C) → take (length xs) xs ≡ xs
  take-whole [] = refl
  take-whole (x ∷ xs) = ap (λ (r : List C). x ∷ r) (take-whole xs)

  -- A whole array is copied to a place where it fits.
  copy_data-whole :
      (the_data values : List C) (start_pos : ℕ)
      → start_pos + length values ≤ length the_data
      → length the_data < size_mod
      → copy_data the_data start_pos values 0 (length values)
        ≡ ok (take start_pos the_data ++ values ++ drop (start_pos + length values) the_data)
  unfolding copy_data write_at
  copy_data-whole the_data [] start_pos h b =
      let m : min (wadd (wsub (length the_data) start_pos) 0) 0 ≡ 0 = omega arith in
      let z : start_pos + 0 ≡ start_pos = omega arith in
      rw (m, z, append-nil (take start_pos the_data))
        (ap ok (sym (take-append-drop start_pos the_data)))
  copy_data-whole the_data (v ∷ values) start_pos h b =
      let n = length (v ∷ values) in
      let m : min (wadd (wsub (length the_data) start_pos) 0) (min n n) ≡ n = omega (arith, h) in
      let t : leb 0 n ≡ true = ground arith in
      let t' : ltb 0 n ≡ true = ground arith in
      let z : n - 0 ≡ n = omega arith in
      rw (m, t, t', z, take-whole (v ∷ values))
        (ap
          (λ (k : List C).
            ok (take start_pos the_data ++ v ∷ values ++ drop (start_pos + length k) the_data))
          (take-whole (v ∷ values)))

module _ {V : Type 0} where
  -- The slices of `rounds` positions from `i` on.
  unfoldable pub slices_from : (ℕ → List V) → ℕ → ℕ → List V
  slices_from slices i zero = []
  slices_from slices i (suc rounds) = slices i ++ slices_from slices (i + 1) rounds

  -- What the reader delivers: for each of the `u` positions as many values as a slice holds.
  pub record Delivers (reader : CdmReader V) (var_name : String) (u slice_size : ℕ)
      (slices : ℕ → List V) : Type 0 where
    pub delivered : (i : ℕ) → i < u → reader.get_data_slice_at var_name i ≡ ok (slices i)
    pub sizes : (i : ℕ) → i < u → length (slices i) ≡ slice_size
    pub small : u * slice_size < size_mod

  module _ (reader : CdmReader V) (var_name : String) (u slice_size : ℕ) (slices : ℕ → List V)
      (d : Delivers reader var_name u slice_size slices) where
    -- The rounds from `i` on replace what is behind the first `i` slices.
    fill_rounds_lem :
        (rounds i : ℕ) (values : List V)
        → i + rounds ≡ u
        → length values ≡ u * slice_size
        → fill_rounds reader var_name slice_size rounds i values
          ≡ ok (take (i * slice_size) values ++ slices_from slices i rounds)
    unfolding fill_rounds slices_from
    fill_rounds_lem zero i values e l =
        let all : i * slice_size ≡ length values =
          omega (arith, ap (λ (k : ℕ). k * slice_size) e, l) in
        ap ok (rw all (sym (append-nil (take (length values) values) ∙ take-whole values)))
    fill_rounds_lem (suc rounds) i values e l =
        let i_lt : i < u = omega arith in
        let s = slices i in
        let room : i * slice_size + slice_size ≤ u * slice_size =
          omega (arith, mul-le-mul_right {m = suc i} {n = u} slice_size i_lt) in
        let exact : wmul i slice_size ≡ i * slice_size = omega (arith, d.small, room) in
        let size = d.sizes i i_lt in
        let front = take (i * slice_size) values in
        let next = front ++ s ++ drop (i * slice_size + slice_size) values in
        let copied : copy_data values (i * slice_size) s 0 slice_size ≡ ok next =
          subst
            (λ (n : ℕ).
              copy_data values (i * slice_size) s 0 n
              ≡ ok (front ++ s ++ drop (i * slice_size + n) values))
            size
            (copy_data-whole values s (i * slice_size) (omega (arith, size, room, l))
              (omega (arith, l, d.small))) in
        let front_length : length front ≡ i * slice_size =
          omega (arith, length-take (i * slice_size) values, room, l) in
        let start_length : length (front ++ s) ≡ (i + 1) * slice_size =
          omega (arith, length-append front s, front_length, size) in
        let whole : length next ≡ u * slice_size = omega (
          arith,
          length-append (front ++ s) (drop (i * slice_size + slice_size) values),
          length-drop (i * slice_size + slice_size) values,
          start_length,
          room,
          l,
        ) in
        let taken : take ((i + 1) * slice_size) next ≡ front ++ s =
          ap (λ (n : ℕ). take n next) (sym start_length)
          ∙ take-append (front ++ s) (drop (i * slice_size + slice_size) values) in
        rw (d.delivered i i_lt, exact, copied)
          (fill_rounds_lem rounds (i + 1) next (omega (arith, e)) whole
            ∙ ap ok (
                ap (λ (x : List V). x ++ slices_from slices (i + 1) rounds) taken
                ∙ append_assoc front s (slices_from slices (i + 1) rounds)))

  get_unlimited_data-joined :
      (reader : CdmReader V) (var_name : String) (udim : CdmDimension) (dims : List ℕ)
      (slices : ℕ → List V)
      → get_dims_slice reader var_name ≡ ok dims
      → Delivers reader var_name udim.length (product dims) slices
      → get_unlimited_data reader var_name udim ≡ ok (slices_from slices 0 udim.length)
  unfolding get_unlimited_data
  get_unlimited_data-joined reader var_name udim dims slices e d =
      let exact : wmul udim.length (product dims) ≡ udim.length * product dims =
        omega (arith, d.small) in
      let z : 0 * product dims ≡ 0 = omega arith in
      rw e (
        fill_rounds_lem reader var_name udim.length (product dims) slices d udim.length 0 _
          (omega arith) (length-replicate _ _ ∙ exact)
        ∙ rw z refl)

  -- getData for a variable that holds no data and has the unlimited dimension: the slices of all
  -- positions one behind the other, if the reader delivers each with the number of values that the
  -- other dimensions ask for, and the whole has less than 2^64 values.
  pub get_data-joined :
      (reader : CdmReader V) (var_name : String) (variable : CdmVariable V) (udim : CdmDimension)
      (dims : List ℕ) (slices : ℕ → List V)
      → get_variable var_name reader.cdm ≡ ok variable
      → variable.payload ≡ none
      → get_unlimited_dim reader.cdm ≡ some udim
      → contains udim.name variable.shape ≡ true
      → get_dims_slice reader var_name ≡ ok dims
      → Delivers reader var_name udim.length (product dims) slices
      → get_data reader var_name ≡ ok (slices_from slices 0 udim.length)
  unfolding get_data
  get_data-joined reader var_name variable udim dims slices v p g c e d =
      let h : has_unlimited_dim variable reader.cdm ≡ true =
        unfold has_unlimited_dim in rw (g, has_unlimited_dim) c in
      rw (v, p, h, g) (get_unlimited_data-joined reader var_name udim dims slices e d)
