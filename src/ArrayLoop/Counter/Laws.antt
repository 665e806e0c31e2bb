-- ===== src/ArrayLoop/Counter/Laws.antt =====
-- Loop as a counter with one digit for each dimension.
use fimex.Prelude.Words.{wmul, size_mod, wadd}
use fimex.ArrayLoop.Counter.{next_from, move_indexes, LoopState, back_step}
use fimex.ArrayLoop.Group.{group_rank, map_delta, ArrayMap, ArrayGroup}
use fimex.Prelude.{
  fun_ext, ◌∙◌, length-set, get_or-set, set, if◌then◌else◌, refl, Bool, length, inr, inl,
  Bool-cases, ap, false, ◌==◌, ◌%◌, ◌-◌, map, ◌*◌, ◌+◌, get_or, ◌≤◌, ◌<◌, ℕ, List, zero, suc, ◌≡◌,
  arith,
}
use fimex.ArrayLoop.Counter.Place.{
  times_if, move_indexes-map, back_step_lem, number_ext, place_ext, places, rounds_of, number,
  GoodLength, pos_at, place,
}

module _ (g : ArrayGroup) where
  -- A loop that can go on: every position lies within its dimension.
  pub record IsInside (s : LoopState) : Type 0 where
    pub ranks : length s.dim_positions ≡ group_rank g
    pub inside : (j : ℕ) → j < group_rank g → pos_at g s j < get_or g.lengths j 0

  pub record Stepped (count k : ℕ) (s : LoopState) (r : Bool × LoopState) : Type 0 where
    pub below : (j : ℕ) → j < k → pos_at g r.1 j ≡ pos_at g s j
    pub still : IsInside r.1
    pub counted :
        number g r.1.dim_positions count k + (if r.0 then rounds_of g count k else 0)
        ≡ number g s.dim_positions count k + 1
    pub moved :
        s.array_indexes ≡ places g g.arrays s.dim_positions count k
        → r.1.array_indexes ≡ places g g.arrays r.1.dim_positions count k

  module _ (good : (j : ℕ) → j < group_rank g → GoodLength (get_or g.lengths j 0)) where
    set-IsInside :
        (s : LoopState) (k v : ℕ) (indexes : List ℕ)
        → IsInside s
        → k < group_rank g
        → v < get_or g.lengths k 0
        → IsInside (record { dim_positions = set s.dim_positions k v; array_indexes = indexes })
    set-IsInside s k v indexes i h b = record {
      ranks = length-set s.dim_positions k v ∙ i.ranks;
      inside = λ j l.
          ground (arith, get_or-set s.dim_positions k j v 0 (omega (arith, i.ranks)), i.inside j l);
    }

    after_set :
        (s : LoopState) (k v j : ℕ)
        → IsInside s
        → k < group_rank g
        → k + 1 ≤ j
        → get_or (set s.dim_positions k v) j 0 ≡ pos_at g s j
    after_set s k v j i h l =
        get_or-set s.dim_positions k j v 0 (omega (arith, i.ranks)) ∙ ground arith

    here_set :
        (s : LoopState) (k v : ℕ)
        → IsInside s
        → k < group_rank g
        → get_or (set s.dim_positions k v) k 0 ≡ v
    here_set s k v i h = get_or-set s.dim_positions k k v 0 (omega (arith, i.ranks)) ∙ ground arith

    before_set :
        (s : LoopState) (k v j : ℕ)
        → IsInside s
        → k < group_rank g
        → j < k
        → get_or (set s.dim_positions k v) j 0 ≡ pos_at g s j
    before_set s k v j i h l =
        get_or-set s.dim_positions k j v 0 (omega (arith, i.ranks)) ∙ ground arith

    -- A position that does not reach its length.
    stay :
        (count k : ℕ) (s : LoopState)
        → IsInside s
        → k < group_rank g
        → pos_at g s k + 1 < get_or g.lengths k 0
        → Stepped (suc count) k s (
          false,
          record {
            dim_positions = set s.dim_positions k (pos_at g s k + 1);
            array_indexes = move_indexes g.arrays k 1 s.array_indexes;
          },
        )
    unfolding number place
    stay count k s i h b =
        let p = pos_at g s k + 1 in
        let ps = set s.dim_positions k p in
        let here : get_or ps k 0 ≡ p = here_set s k p i h in
        record {
          below = λ j l. before_set s k p j i h l;
          still = set-IsInside s k p _ i h b;
          counted = omega (
            arith,
            here,
            number_ext g ps s.dim_positions count (k + 1) (λ j l. after_set s k p j i h l),
            ap (λ (v : ℕ). get_or g.lengths k 0 * v)
                (number_ext g ps s.dim_positions count (k + 1) (λ j l. after_set s k p j i h l)),
          );
          moved = λ e.
              ap (λ (xs : List ℕ). move_indexes g.arrays k 1 xs) e
              ∙ move_indexes-map g g.arrays k 1 _ _ (λ m. omega (
                arith,
                ap (λ (v : ℕ). v * map_delta m k) here,
                place_ext g m ps s.dim_positions count (k + 1) (λ j l. after_set s k p j i h l),
              ));
        }

    -- A position that reaches its length, and what the dimensions behind it do then.
    carry_on :
        (count k : ℕ) (s : LoopState) (r : Bool × LoopState)
        → IsInside s
        → k < group_rank g
        → pos_at g s k + 1 ≡ get_or g.lengths k 0
        → Stepped count
            (k + 1)
            (record {
              dim_positions = set s.dim_positions k 0;
              array_indexes =
                  move_indexes g.arrays k (back_step (get_or g.lengths k 0)) s.array_indexes;
            })
            r
        → Stepped (suc count) k s r
    unfolding number place rounds_of
    carry_on count k s r i h e st =
        let n = get_or g.lengths k 0 in
        let ps = set s.dim_positions k 0 in
        let same : (j : ℕ) → k + 1 ≤ j → get_or ps j 0 ≡ pos_at g s j =
          λ j l. after_set s k 0 j i h l in
        let zero_here : pos_at g r.1 k ≡ 0 = st.below k (omega arith) ∙ here_set s k 0 i h in
        let back_place : (m : ArrayMap)
            → wadd (place g m s.dim_positions (suc count) k % size_mod)
                (wmul (map_delta m k) (back_step n))
              ≡ place g m ps count (k + 1) % size_mod =
          λ m.
            let p : place g m s.dim_positions (suc count) k
                ≡ place g m ps count (k + 1) + (n - 1) * map_delta m k =
              (let last : pos_at g s k ≡ n - 1 = omega (arith, e) in
                omega (
                  arith,
                  ap (λ (v : ℕ). v * map_delta m k) last,
                  place_ext g m ps s.dim_positions count (k + 1) same,
                )) in
            rw p (back_step_lem n (map_delta m k) (place g m ps count (k + 1)) (good k h)) in
        record {
          below = λ j l. st.below j (omega arith) ∙ before_set s k 0 j i h l;
          still = st.still;
          counted = omega (
            arith,
            zero_here,
            e,
            ap (λ (v : ℕ). n * v) (number_ext g ps s.dim_positions count (k + 1) same),
            ap (λ (v : ℕ). n * v) st.counted,
            times_if n (number g r.1.dim_positions count (k + 1)) (rounds_of g count (k + 1)) r.0,
          );
          moved = λ q.
              st.moved (
                ap (λ (xs : List ℕ). move_indexes g.arrays k (back_step n) xs) q
                ∙ move_indexes-map g g.arrays k (back_step n) _ _ (λ m. back_place m))
              ∙ ap (λ (f : ArrayMap → ℕ). map f g.arrays)
                  (fun_ext (λ m. omega (arith, ap (λ (v : ℕ). v * map_delta m k) zero_here)));
        }

    pub next_from-Stepped :
        (count k : ℕ) (s : LoopState)
        → IsInside s
        → count ≤ group_rank g - k
        → Stepped count k s (next_from g count k s)
    unfolding next_from number place rounds_of
    next_from-Stepped zero k s i h = record {
      below = λ j l. refl;
      still = i;
      counted = refl;
      moved = λ e. e;
    }
    next_from-Stepped (suc count) k s i h =
        let n = get_or g.lengths k 0 in
        let k_in : k < group_rank g = omega arith in
        let gl = good k k_in in
        let p_in = i.inside k k_in in
        let exact : wadd (pos_at g s k) 1 ≡ pos_at g s k + 1 = omega (arith, gl.1) in
        elim (Bool-cases (pos_at g s k + 1 == n)) [
          | inr e ↦ rw (exact, e) (stay count k s i k_in (ground arith))
          | inl e ↦
              rw (exact, e)
                (carry_on count k s _ i k_in (ground arith) (
                  next_from-Stepped count (k + 1) _ (set-IsInside s k 0 _ i k_in (omega arith))
                    (omega arith)))
        ]
