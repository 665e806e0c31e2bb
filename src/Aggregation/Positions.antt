-- ===== src/Aggregation/Positions.antt =====
-- findJoinReader against the lengths of the readers: a position of the joined dimension is one of
-- one reader.
use fimex.Prelude.Words.{wsub, size_mod, wadd}
use fimex.Aggregation.{PartReader, Aggregation}
use fimex.Aggregation.Slices.{find_join_reader, upper_bound}
use fimex.Prelude.{
  none, refl, get_elem?, String, ◌≤◌, ◌∙◌, ap, false, ap₂, true, ltb, some, get_or, length, ◌<◌,
  ◌+◌, take, ℕ, List, [], ◌∷◌, zero, suc, ◌≡◌, arith,
}

-- The accumulated lengths
unfoldable pub accumulate : ℕ → List ℕ → List ℕ
accumulate before [] = []
accumulate before (len ∷ lens) = wadd before len ∷ accumulate (wadd before len) lens

unfoldable pub sum_of : List ℕ → ℕ
sum_of [] = 0
sum_of (len ∷ lens) = len + sum_of lens

-- The first position of a reader
abbrev pub first_of : List ℕ → ℕ → ℕ
first_of lens i = sum_of (take i lens)

upper_bound-accumulate :
    (lens : List ℕ) (idx before i pos : ℕ)
    → i < length lens
    → pos < get_or lens i 0
    → before + sum_of lens < size_mod
    → upper_bound (accumulate before lens) idx before (before + first_of lens i + pos)
      ≡ some (idx + i, before + first_of lens i)
unfolding upper_bound accumulate sum_of
upper_bound-accumulate [] idx before i pos h l b = elim h [ ]
upper_bound-accumulate (len ∷ lens) idx before zero pos h l b =
    let w : wadd before len ≡ before + len = omega (arith, b) in
    let t : ltb (before + 0 + pos) (before + len) ≡ true = ground arith in
    rw (w, t) (ap₂ (λ (a c : ℕ). some (a, c)) (omega arith) (omega arith))
upper_bound-accumulate (len ∷ lens) idx before (suc i) pos h l b =
    let w : wadd before len ≡ before + len = omega (arith, b) in
    let t : ltb (before + (len + first_of lens i) + pos) (before + len) ≡ false = ground arith in
    let e : before + (len + first_of lens i) + pos ≡ before + len + first_of lens i + pos =
      omega arith in
    let ih =
      upper_bound-accumulate lens (idx + 1) (before + len) i pos (omega (arith, h)) l
        (omega (arith, b)) in
    rw (w, t)
      (ap (upper_bound (accumulate (before + len) lens) (idx + 1) (before + len)) e
        ∙ ih
        ∙ ap₂ (λ (a c : ℕ). some (a, c)) (omega arith) (omega arith))

upper_bound-past :
    (lens : List ℕ) (idx before pos : ℕ)
    → before + sum_of lens ≤ pos
    → before + sum_of lens < size_mod
    → upper_bound (accumulate before lens) idx before pos ≡ none
unfolding upper_bound accumulate sum_of
upper_bound-past [] idx before pos h b = refl
upper_bound-past (len ∷ lens) idx before pos h b =
    let w : wadd before len ≡ before + len = omega (arith, b) in
    let t : ltb pos (before + len) ≡ false = ground (arith, h) in
    rw (w, t)
      (upper_bound-past lens (idx + 1) (before + len) pos (omega (arith, h)) (omega (arith, b)))

first_of-le : (lens : List ℕ) (i : ℕ) → first_of lens i ≤ sum_of lens
unfolding sum_of
first_of-le [] zero = omega arith
first_of-le [] (suc i) = omega arith
first_of-le (len ∷ lens) zero = omega arith
first_of-le (len ∷ lens) (suc i) = omega (arith, first_of-le lens i)

get_or-le : (lens : List ℕ) (i : ℕ) → first_of lens i + get_or lens i 0 ≤ sum_of lens
unfolding sum_of
get_or-le [] zero = omega arith
get_or-le [] (suc i) = omega arith
get_or-le (len ∷ lens) zero = omega arith
get_or-le (len ∷ lens) (suc i) = omega (arith, get_or-le lens i)

-- The readers of an aggregation and the lengths that they have along the joined dimension.
pub record IsJoined {V : Type 0} (g : Aggregation V) (lens : List ℕ) : Type 0 where
  pub accumulated : g.reader_udim_pos ≡ accumulate 0 lens
  pub one_each : length lens ≡ length g.readers

module _ {V : Type 0} where
  -- A position along the joined dimension that lies behind all positions of the first `i` readers
  -- and within those of the next one is found in that reader, at the position that it is there.
  pub find_join_reader-position :
      (g : Aggregation V) (lens : List ℕ) (i pos : ℕ) (id : String) (reader : PartReader V)
      → IsJoined g lens
      → sum_of lens < size_mod
      → get_elem? g.readers i ≡ some (id, reader)
      → i < length lens
      → pos < get_or lens i 0
      → find_join_reader g (first_of lens i + pos) ≡ some (reader, pos)
  unfolding find_join_reader
  find_join_reader-position g lens i pos id reader j small r h l =
      let found = upper_bound-accumulate lens 0 0 i pos h l (omega (arith, small)) in
      let e : 0 + first_of lens i + pos ≡ first_of lens i + pos = omega arith in
      let e' : 0 + first_of lens i ≡ first_of lens i = omega arith in
      let z : 0 + i ≡ i = omega arith in
      let here : upper_bound (accumulate 0 lens) 0 0 (first_of lens i + pos)
          ≡ some (i, first_of lens i) =
        rw (e, e', z) at found in
      let back : wsub (first_of lens i + pos) (first_of lens i) ≡ pos =
        omega (arith, get_or-le lens i, small) in
      let mine : upper_bound g.reader_udim_pos 0 0 (first_of lens i + pos)
          ≡ some (i, first_of lens i) =
        ap (λ (ps : List ℕ). upper_bound ps 0 0 (first_of lens i + pos)) j.accumulated ∙ here in
      rw (find_join_reader, mine, r, back) refl

  -- Behind the positions of all readers, no reader is found.
  pub find_join_reader-past :
      (g : Aggregation V) (lens : List ℕ) (pos : ℕ)
      → IsJoined g lens
      → sum_of lens < size_mod
      → sum_of lens ≤ pos
      → find_join_reader g pos ≡ none
  unfolding find_join_reader
  find_join_reader-past g lens pos j small h =
      let lost = upper_bound-past lens 0 0 pos (omega (arith, h)) (omega (arith, small)) in
      let here : upper_bound g.reader_udim_pos 0 0 pos ≡ none =
        ap (λ (ps : List ℕ). upper_bound ps 0 0 pos) j.accumulated ∙ lost in
      rw (find_join_reader, here) refl
