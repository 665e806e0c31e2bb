-- ===== src/Data/SliceCopy/Elements.antt =====
-- The selection, element by element.
use fimex.Data.SliceCopy.Meaning.{Layout, selection, rows}
use fimex.Prelude.{
  length-drop, length-take, ◌≤◌, length-append, refl, ◌∙◌, sym, [], arith, zero, ap, ◌∷◌, ◌*◌, suc,
  ◌≡◌, ◌+◌, ◌++◌, take, length, drop, ◌<◌, get_elem?, ℕ, List,
}
use fimex.Data.SliceCopy.{nth, Region}

module _ {ℓ} {C : Type ℓ} where
  get_elem?-append_left :
      (xs ys : List C) (i : ℕ) → i < length xs → get_elem? (xs ++ ys) i ≡ get_elem? xs i
  get_elem?-append_left [] ys i h = elim h [ ]
  get_elem?-append_left (x ∷ xs) ys zero h = refl
  get_elem?-append_left (x ∷ xs) ys (suc i) h = get_elem?-append_left xs ys i (omega arith)

  pub get_elem?-append_right :
      (xs ys : List C) (i : ℕ) → get_elem? (xs ++ ys) (length xs + i) ≡ get_elem? ys i
  get_elem?-append_right [] ys i = ap (get_elem? ys) (omega arith)
  get_elem?-append_right (x ∷ xs) ys i =
      let e : suc (length xs) + i ≡ suc (length xs + i) = omega arith in
      rw e (get_elem?-append_right xs ys i)

  get_elem?-take : (n : ℕ) (xs : List C) (i : ℕ) → i < n → get_elem? (take n xs) i ≡ get_elem? xs i
  get_elem?-take zero xs i h = elim h [ ]
  get_elem?-take (suc n) [] i h = refl
  get_elem?-take (suc n) (x ∷ xs) zero h = refl
  get_elem?-take (suc n) (x ∷ xs) (suc i) h = get_elem?-take n xs i (omega arith)

  get_elem?-drop : (n : ℕ) (xs : List C) (i : ℕ) → get_elem? (drop n xs) i ≡ get_elem? xs (n + i)
  get_elem?-drop zero xs i = ap (get_elem? xs) (omega arith)
  get_elem?-drop (suc n) [] i = refl
  get_elem?-drop (suc n) (x ∷ xs) i =
      let e : suc n + i ≡ suc (n + i) = omega arith in rw e (get_elem?-drop n xs i)

  length-rows :
      (n pos step len : ℕ) (row : ℕ → List C)
      → ((k : ℕ) → k < n → length (row (pos + k * step)) ≡ len)
      → length (rows n pos step row) ≡ n * len
  unfolding rows
  length-rows zero pos step len row h = omega arith
  length-rows (suc n) pos step len row h =
      let e : pos + 0 * step ≡ pos = omega arith in
      let first : length (row pos) ≡ len = ap (λ k. length (row k)) (sym e) ∙ h 0 (omega arith) in
      let rest : length (rows n (pos + step) step row) ≡ n * len =
        length-rows n (pos + step) step len row (λ k q.
          let z : pos + step + k * step ≡ pos + suc k * step = omega arith in
          rw z (h (suc k) (omega arith))) in
      omega (arith, length-append (row pos) (rows n (pos + step) step row), first, rest)

  get_elem?-rows :
      (n pos step len : ℕ) (row : ℕ → List C)
      → ((k : ℕ) → k < n → length (row (pos + k * step)) ≡ len)
      → (k i : ℕ) → k < n
      → i < len
      → get_elem? (rows n pos step row) (k * len + i) ≡ get_elem? (row (pos + k * step)) i
  unfolding rows
  get_elem?-rows zero pos step len row h k i q b = elim q [ ]
  get_elem?-rows (suc n) pos step len row h zero i q b =
      let e : pos + 0 * step ≡ pos = omega arith in
      let z : 0 * len + i ≡ i = omega arith in
      rw (e, z)
        (get_elem?-append_left (row pos) _ i
          (omega (arith, ap (λ k. length (row k)) e, h 0 (omega arith))))
  get_elem?-rows (suc n) pos step len row h (suc k) i q b =
      let e : pos + 0 * step ≡ pos = omega arith in
      let first : length (row pos) ≡ len = ap (λ k. length (row k)) (sym e) ∙ h 0 (omega arith) in
      let z : suc k * len + i ≡ length (row pos) + (k * len + i) = omega (arith, first) in
      let y : pos + suc k * step ≡ pos + step + k * step = omega arith in
      rw (z, y)
        (get_elem?-append_right (row pos) (rows n (pos + step) step row) (k * len + i)
          ∙ get_elem?-rows n (pos + step) step len row
              (λ j p.
                let x : pos + step + j * step ≡ pos + suc j * step = omega arith in
                rw x (h (suc j) (omega arith)))
              k i (omega arith) b)

-- The size of the selection in the dimensions up to `d`.
abbrev pub volume : Region → ℕ → ℕ
volume r zero = nth r.new_size 0
volume r (suc d) = nth r.new_size (suc d) * volume r d

-- An index in each dimension, relative to the start of the selection.
abbrev pub InSelection : Region → (ℕ → ℕ) → ℕ → Type 0
InSelection r idx zero = idx 0 < nth r.new_size 0
InSelection r idx (suc d) = (idx (suc d) < nth r.new_size (suc d)) × InSelection r idx d

-- Where the element with this index stands in the new data, and in the original data.
abbrev pub new_offset : Region → (ℕ → ℕ) → ℕ → ℕ
new_offset r idx zero = idx 0
new_offset r idx (suc d) = idx (suc d) * volume r d + new_offset r idx d

abbrev pub org_offset : Region → (ℕ → ℕ) → ℕ → ℕ
org_offset r idx zero = nth r.new_start 0 + idx 0
org_offset r idx (suc d) =
    (nth r.new_start (suc d) + idx (suc d)) * nth r.org_slice_size (suc d) + org_offset r idx d

new_offset-lt :
    (r : Region) (idx : ℕ → ℕ) (d : ℕ) → InSelection r idx d → new_offset r idx d < volume r d
new_offset-lt r idx zero h = h
new_offset-lt r idx (suc d) (h, hs) =
    let ih = new_offset-lt r idx d hs in
    below (idx (suc d)) (nth r.new_size (suc d)) (new_offset r idx d) (volume r d) h ih
  where
    below : (i n o v : ℕ) → i < n → o < v → i * v + o < n * v
    below i n o v p q = grind arith

row_inside :
    (pos start k size org slice : ℕ)
    → k < size
    → start + size ≤ org
    → pos + start * slice + k * slice + slice ≤ pos + org * slice
row_inside pos start k size org slice p q =
    let le : (start + k + 1) * slice ≤ org * slice =
      mul-le (start + k + 1) org slice (omega arith) in
    omega arith
  where
    mul-le : (a b c : ℕ) → a ≤ b → a * c ≤ b * c
    mul-le a b c h = grind arith

module _ {ℓ} {C : Type ℓ} (org : List C) (r : Region) where
  pub length-selection :
      (d pos : ℕ)
      → Layout r d
      → pos + nth r.org_dim_size d * nth r.org_slice_size d ≤ length org
      → length (selection org r d pos) ≡ volume r d
  unfolding selection
  length-selection zero pos (f, one) h = omega (
    arith,
    length-take (nth r.new_size 0) (drop (pos + nth r.new_start 0) org),
    length-drop (pos + nth r.new_start 0) org,
    f.inside,
    ap (λ (t : ℕ). nth r.org_dim_size 0 * t) one,
  )
  length-selection (suc d) pos (f, slice, l) h =
      length-rows (nth r.new_size (suc d)) _ (nth r.org_slice_size (suc d)) (volume r d)
        (λ q. selection org r d q)
        (λ k p. length-selection d _ l (
          omega (
            arith,
            slice,
            row_inside pos (nth r.new_start (suc d)) k (nth r.new_size (suc d))
                (nth r.org_dim_size (suc d)) (nth r.org_slice_size (suc d)) p f.inside,
          )))

  pub get_elem?-selection :
      (d pos : ℕ) (idx : ℕ → ℕ)
      → Layout r d
      → pos + nth r.org_dim_size d * nth r.org_slice_size d ≤ length org
      → InSelection r idx d
      → get_elem? (selection org r d pos) (new_offset r idx d)
        ≡ get_elem? org (pos + org_offset r idx d)
  unfolding selection
  get_elem?-selection zero pos idx (f, one) h i =
      get_elem?-take (nth r.new_size 0) _ (idx 0) i
      ∙ get_elem?-drop (pos + nth r.new_start 0) org (idx 0)
      ∙ ap (get_elem? org) (omega arith)
  get_elem?-selection (suc d) pos idx (f, slice, l) h (i, is) =
      let inside = λ (k : ℕ) (p : k < nth r.new_size (suc d)).
        row_inside pos (nth r.new_start (suc d)) k (nth r.new_size (suc d))
          (nth r.org_dim_size (suc d)) (nth r.org_slice_size (suc d)) p f.inside in
      get_elem?-rows (nth r.new_size (suc d)) _ (nth r.org_slice_size (suc d)) (volume r d)
        (λ q. selection org r d q)
        (λ k p. length-selection d _ l (omega (arith, slice, inside k p))) (idx (suc d))
        (new_offset r idx d) i (new_offset-lt r idx d is)
      ∙ get_elem?-selection d _ idx l (omega (arith, slice, inside (idx (suc d)) i)) is
      ∙ ap (get_elem? org) (omega arith)
