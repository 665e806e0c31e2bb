-- ===== src/ArrayLoop/Counter.antt =====
-- Loop: a position in each dimension of a group that its arrays do not share, and the index that
-- it means in each array.
pub mod Place
pub mod Laws
pub mod Run
use fimex.ArrayLoop.Group.{map_delta, group_rank, ArrayGroup, ArrayMap}
use fimex.Prelude.Words.{size_mod, wmul, wadd, wsub}
use fimex.Prelude.{
  false, ◌==◌, set, ltb, ◌+◌, not, get_or, length, ◌-◌, if◌then◌else◌, ◌^◌, true, ◌%◌, Bool,
  replicate, ℕ, List, [], ◌∷◌, zero, suc,
}

pub record LoopState : Type 0 where
  pub dim_positions : List ℕ
  pub array_indexes : List ℕ

-- Loop::Loop
abbrev pub loop_start : ArrayGroup → LoopState
loop_start g = record {
  dim_positions = replicate (group_rank g) 0;
  array_indexes = replicate (length g.arrays) 0;
}

-- `int singlestep = -(length-1)` as the `size_t` that it is in the product: the negative number is
-- cut to 32 bits, and those are extended by their sign.
unfoldable pub back_step : ℕ → ℕ
back_step n =
    let low = wsub 0 (wsub n 1) % 2 ^ 32 in
    if ltb low (2 ^ 31) then low else low + (size_mod - 2 ^ 32)

-- The inner loop: every array index moves by the step of the dimension.
unfoldable pub move_indexes : List ArrayMap → ℕ → ℕ → List ℕ → List ℕ
move_indexes [] group_dim single_step indexes = indexes
move_indexes (m ∷ maps) group_dim single_step [] = []
move_indexes (m ∷ maps) group_dim single_step (i ∷ indexes) =
    wadd i (wmul (map_delta m group_dim) single_step)
    ∷ move_indexes maps group_dim single_step indexes

-- The loop of next, for `count` dimensions from `group_dim` on; the result is the carry.
unfoldable pub next_from : ArrayGroup → ℕ → ℕ → LoopState → Bool × LoopState
next_from g zero group_dim s = (true, s)
next_from g (suc count) group_dim s =
    let p = wadd (get_or s.dim_positions group_dim 0) 1 in
    let n = get_or g.lengths group_dim 0 in
    let carried = next_from g count (group_dim + 1) (record {
      dim_positions = set s.dim_positions group_dim 0;
      array_indexes = move_indexes g.arrays group_dim (back_step n) s.array_indexes;
    }) in
    if p == n then carried else (
      false,
      record {
        dim_positions = set s.dim_positions group_dim p;
        array_indexes = move_indexes g.arrays group_dim 1 s.array_indexes;
      },
    )

-- Loop::next: whether the loop goes on.
unfoldable pub next : ArrayGroup → LoopState → Bool × LoopState
next g s =
    let (carry, s') = next_from g (group_rank g - g.shared_dims) g.shared_dims s in (not carry, s')
