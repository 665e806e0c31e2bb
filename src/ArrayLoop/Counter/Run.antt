-- ===== src/ArrayLoop/Counter/Run.antt =====
-- A whole loop: `do { body } while (loop.next());` from the start of a group.
use fimex.Prelude.Words.{size_mod}
use fimex.ArrayLoop.Counter.Laws.{next_from-Stepped, IsInside}
use fimex.ArrayLoop.Counter.Place.{place, places, number, rounds_of, GoodLength}
use fimex.ArrayLoop.Counter.{loop_start, next_from, next, LoopState}
use fimex.ArrayLoop.Group.{ArrayMap, group_rank, ArrayGroup}
use fimex.Prelude.{
  upto, sym, ◌%◌, get_or-replicate, length, length-replicate, replicate, inr, false, ap₂, true, ◌∙◌,
  inl, Bool-cases, ap, not, map, Bool, ◌*◌, ◌≤◌, ◌+◌, ◌-◌, get_or, if◌then◌else◌, ◌<◌, ℕ, List, [],
  ◌∷◌, zero, suc, ◌≡◌, arith, refl,
}

-- The states in which the body runs; the fuel bounds the number of rounds.
unfoldable pub visit : ArrayGroup → ℕ → LoopState → List LoopState
visit g zero s = []
visit g (suc fuel) s =
    let (more, s') = next g s in let rest = visit g fuel s' in s ∷ (if more then rest else [])

module _ (g : ArrayGroup)
    (good : (j : ℕ) → j < group_rank g → GoodLength (get_or g.lengths j 0)) where
  -- The dimensions that the loop counts, and their positions as a number.
  abbrev pub loop_dims : ℕ
  loop_dims = group_rank g - g.shared_dims

  abbrev pub number_of : LoopState → ℕ
  number_of s = number g s.dim_positions loop_dims g.shared_dims

  abbrev pub all_rounds : ℕ
  all_rounds = rounds_of g loop_dims g.shared_dims

  -- The indexes are those that the positions mean.
  abbrev pub indexes_of : LoopState → List ℕ
  indexes_of s = places g g.arrays s.dim_positions loop_dims g.shared_dims

  number-lt :
      (s : LoopState) (count k : ℕ)
      → IsInside g s
      → count ≤ group_rank g - k
      → number g s.dim_positions count k < rounds_of g count k
  unfolding number rounds_of
  number-lt s zero k i h = omega arith
  number-lt s (suc count) k i h =
      digit_lt _ _ _ _ (i.inside k (omega arith)) (number-lt s count (k + 1) i (omega arith))
    where
      digit_lt : (x n o c : ℕ) → x < n → o < c → x + n * o < n * c
      digit_lt x n o c h l = grind arith

  next_lem :
      (s : LoopState)
      → IsInside g s
      → IsInside g (next g s).1
        × (number_of (next g s).1 + (if (next g s).0 then 0 else all_rounds) ≡ number_of s + 1)
        × (s.array_indexes ≡ indexes_of s → (next g s).1.array_indexes ≡ indexes_of (next g s).1)
  unfolding next
  next_lem s i =
      let st = next_from-Stepped g good loop_dims g.shared_dims s i (omega arith) in
      (
        st.still,
        ap (λ (v : ℕ). number_of (next g s).1 + v)
              (flip all_rounds (next_from g loop_dims g.shared_dims s).0)
            ∙ st.counted,
        st.moved,
      )
    where
      flip : (a : ℕ) (b : Bool) → (if not b then 0 else a) ≡ (if b then a else 0)
      flip a true = refl
      flip a false = refl

  -- From any state on, the loop counts up to its last state, and ends there.
  visit-upto :
      (fuel : ℕ) (s : LoopState)
      → IsInside g s
      → s.array_indexes ≡ indexes_of s
      → all_rounds ≤ number_of s + fuel
      → (map number_of (visit g fuel s) ≡ upto (number_of s) (all_rounds - number_of s))
        × (map (λ t. t.array_indexes) (visit g fuel s) ≡ map indexes_of (visit g fuel s))
  unfolding visit upto
  visit-upto zero s i e h =
      absurd (omega (arith, number-lt s loop_dims g.shared_dims i (omega arith)))
  visit-upto (suc fuel) s i e h =
      let (i', c, moved) = next_lem s i in
      let lt = number-lt s loop_dims g.shared_dims i (omega arith) in
      elim (Bool-cases (next g s).0) [
        | inl more ↦
            let c0 : number_of (next g s).1 + 0 ≡ number_of s + 1 = rw more at c in
            let c' : number_of (next g s).1 ≡ number_of s + 1 = omega (arith, c0) in
            let left : all_rounds - number_of s ≡ suc (all_rounds - (number_of s + 1)) =
              omega (arith, lt) in
            let (ns, xs) = visit-upto fuel (next g s).1 i' (moved e) (omega (arith, c', h)) in
            (
              rw (more, left)
                  (ap (λ (l : List ℕ). number_of s ∷ l)
                    (ns ∙ ap (λ (n : ℕ). upto n (all_rounds - n)) c')),
              rw more (ap₂ (λ (x : List ℕ) (l : List (List ℕ)). x ∷ l) e xs),
            )
        | inr over ↦
            let c' : number_of (next g s).1 + all_rounds ≡ number_of s + 1 = rw over at c in
            let left : all_rounds - number_of s ≡ 1 = omega (arith, lt, c') in
            (rw (over, left) refl, rw over (ap (λ (x : List ℕ). x ∷ []) e))
      ]

  number-zeros : (n count k : ℕ) → number g (replicate n 0) count k ≡ 0
  unfolding number
  number-zeros n zero k = refl
  number-zeros n (suc count) k =
      rw (get_or-replicate n k, number-zeros n count (k + 1)) (omega arith)

  place-zeros : (m : ArrayMap) (n count k : ℕ) → place g m (replicate n 0) count k ≡ 0
  unfolding place
  place-zeros m n zero k = refl
  place-zeros m n (suc count) k =
      rw (get_or-replicate n k, place-zeros m n count (k + 1)) (omega arith)

  loop_start-IsInside : IsInside g (loop_start g)
  loop_start-IsInside = record {
    ranks = length-replicate (group_rank g) 0;
    inside = λ j h. rw (get_or-replicate (group_rank g) j) (good j h).0;
  }

  zero_indexes :
      (maps : List ArrayMap)
      → replicate (length maps) 0
        ≡ places g maps (replicate (group_rank g) 0) loop_dims g.shared_dims
  zero_indexes [] = refl
  zero_indexes (m ∷ maps) =
      ap₂ (λ (x : ℕ) (l : List ℕ). x ∷ l)
        (ap (λ (v : ℕ). v % size_mod) (sym (place-zeros m (group_rank g) loop_dims g.shared_dims)))
        (zero_indexes maps)

  -- `do { body } while (loop.next())` over a group whose lengths are from 1 to 2^31: if the fuel is
  -- at least the product of the lengths that are not shared, the body runs once for every
  -- combination of positions in these dimensions, in the order of the numbers that have the
  -- positions as their digits; and in each round the index into every array is the sum, modulo
  -- 2^64, of the positions times the steps of the array.
  pub visit-loop_start :
      (fuel : ℕ)
      → all_rounds ≤ fuel
      → (map number_of (visit g fuel (loop_start g)) ≡ upto 0 all_rounds)
        × (map (λ t. t.array_indexes) (visit g fuel (loop_start g))
            ≡ map indexes_of (visit g fuel (loop_start g)))
  visit-loop_start fuel h =
      let z = number-zeros (group_rank g) loop_dims g.shared_dims in
      let (ns, xs) =
        visit-upto fuel (loop_start g) loop_start-IsInside (zero_indexes g.arrays)
          (omega (arith, z, h)) in
      (ns ∙ ap (λ (n : ℕ). upto n (all_rounds - n)) z ∙ ap (upto 0) (omega arith), xs)
