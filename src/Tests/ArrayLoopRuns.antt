-- ===== src/Tests/ArrayLoopRuns.antt =====
-- Two arrays of 2 x 3 and 3 values, looped over together.
use fimex.Data.Impl.{product_from, product}
use fimex.Prelude.Result.{for_each, runtime_error, err, ◌>>=◌, ok}
use fimex.ArrayLoop.Counter.{back_step, move_indexes, next_from, loop_start, next}
use fimex.ArrayLoop.Dims.Steps.{made_new, new_dims-last_zero, made_add, IsMade-IsStepped, IsStepped}
use fimex.ArrayLoop.Group.{
  empty_group, map_delta, position, minimize_shared, add_shared, group_rank, add_round, add_array,
  ArrayGroup,
}
use fimex.ArrayLoop.Counter.Place.{GoodLength, rounds_of}
use fimex.ArrayLoop.Dims.{
  length_at, is_shared, index_from, delta_at, volume_of, invalid_size, back, next_delta,
  deltas_from, all_deltas, check_non0_length, new_dims, ArrayDims, add_dim,
}
use fimex.Prelude.{zero, suc, refl, get_or, arith, upto, true, ◌≤◌, [], ◌<◌, ◌∷◌, ◌≡◌, map, ℕ}
use fimex.ArrayLoop.Counter.Run.{indexes_of, number_of, all_rounds, visit, visit-loop_start}

-- The first of the arrays, given at once, and the second, built up.
abbrev field : ArrayDims
field = record {
  name = "x" ∷ "y" ∷ [];
  length_of = 2 ∷ 3 ∷ [];
  delta_of = 1 ∷ 2 ∷ [];
  shared_flags = true ∷ true ∷ [];
}

abbrev column : ArrayDims
column = record { name = "y" ∷ []; length_of = 3 ∷ []; delta_of = 1 ∷ []; shared_flags = true ∷ [] }

abbrev line : ArrayDims
line = record { name = "x" ∷ []; length_of = 2 ∷ []; delta_of = 1 ∷ []; shared_flags = true ∷ [] }

line_made : new_dims ("x" ∷ []) (2 ∷ []) ≡ ok line
unfolding new_dims all_deltas deltas_from check_non0_length
line_made = refl

field_added : add_dim line "y" 3 ≡ ok field
unfolding add_dim check_non0_length next_delta back
field_added = refl

field_at_once : new_dims ("x" ∷ "y" ∷ []) (2 ∷ 3 ∷ []) ≡ ok field
unfolding new_dims all_deltas deltas_from check_non0_length
field_at_once = refl

IsMade-IsStepped_example :
    IsStepped field × (field.length_of ≡ 2 ∷ 3 ∷ []) × (volume_of field ≡ product (2 ∷ 3 ∷ []))
IsMade-IsStepped_example =
    IsMade-IsStepped field (2 ∷ 3 ∷ [])
      (made_add "y" 3 (made_new ("x" ∷ []) (2 ∷ []) line_made) field_added)

new_dims-last_zero_run :
    ((a : ArrayDims) × (new_dims ("x" ∷ "y" ∷ []) (2 ∷ 0 ∷ []) ≡ ok a) × (volume_of a ≡ 0))
    × ((new_dims ("x" ∷ []) (2 ∷ []) >>= λ a. add_dim a "y" 0) ≡ err runtime_error)
new_dims-last_zero_run = new_dims-last_zero "x" "y" 2 refl

abbrev both : ArrayGroup
both = record {
  shared_dims = 0;
  shared_volume = 1;
  dims = "x" ∷ "y" ∷ [];
  lengths = 2 ∷ 3 ∷ [];
  arrays =
      record { array = field; dim_index_map = 0 ∷ 1 ∷ [] }
      ∷ record { array = column; dim_index_map = invalid_size ∷ 0 ∷ [] }
      ∷ [];
}

both_added : add_array column (add_array field empty_group).1 ≡ (ok tt, both)
unfolding add_array add_round add_shared minimize_shared position index_from is_shared length_at
    for_each upto product_from
both_added = refl

both_good : (j : ℕ) → j < group_rank both → GoodLength (get_or both.lengths j 0)
both_good zero h = (omega arith, omega arith)
both_good (suc zero) h = (omega arith, omega arith)
both_good (suc (suc j)) h = absurd (omega (arith, h))

-- The second array stays where it is while x moves.
both_indexes :
    map (λ t. t.array_indexes) (visit both 6 (loop_start both))
    ≡ (0 ∷ 0 ∷ []) ∷ (1 ∷ 0 ∷ []) ∷ (2 ∷ 1 ∷ []) ∷ (3 ∷ 1 ∷ []) ∷ (4 ∷ 2 ∷ []) ∷ (5 ∷ 2 ∷ []) ∷ []
unfolding visit next next_from move_indexes map_delta delta_at back_step
both_indexes = refl

six : all_rounds both both_good ≤ 6
unfolding rounds_of
six = omega arith

visit-loop_start_example :
    (map (number_of both both_good) (visit both 6 (loop_start both))
      ≡ upto 0 (all_rounds both both_good))
    × (map (λ t. t.array_indexes) (visit both 6 (loop_start both))
        ≡ map (indexes_of both both_good) (visit both 6 (loop_start both)))
visit-loop_start_example = visit-loop_start both both_good 6 six
