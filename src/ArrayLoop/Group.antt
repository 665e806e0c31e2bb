-- ===== src/ArrayLoop/Group.antt =====
-- ArrayGroup: the dimensions of several arrays in one order, and for each array where a dimension
-- of the group stands in it. The class keeps pointers to its arrays; a group here keeps them as
-- they are when they are added, and the callers do not change them afterwards.
use fimex.Prelude.Result.{runtime_error, ok, err, for_each, Result}
use fimex.ArrayLoop.Dims.{
  length_at, is_shared, rank_of, index_from, invalid_size, ArrayDims, delta_at,
}
use fimex.Data.Impl.{product}
use fimex.Prelude.{
  upto, map, set, take, min, ltb, ◌||◌, ◌==◌, get_or, not, replicate, length, if◌then◌else◌, String,
  ℕ, List, [], ◌∷◌, ◌++◌,
}

pub record ArrayMap : Type 0 where
  pub array : ArrayDims
  pub dim_index_map : List ℕ

pub record ArrayGroup : Type 0 where
  pub shared_dims : ℕ
  pub shared_volume : ℕ
  pub dims : List String
  pub lengths : List ℕ
  pub arrays : List ArrayMap

-- ArrayGroup::ArrayMap::ArrayMap
abbrev pub new_map : ArrayDims → ℕ → ArrayMap
new_map s rank = record { array = s; dim_index_map = replicate rank invalid_size }

-- ArrayGroup::ArrayMap::delta
unfoldable pub map_delta : ArrayMap → ℕ → ℕ
map_delta m group_dim = delta_at m.array (get_or m.dim_index_map group_dim 0)

-- ArrayGroup::ArrayGroup
abbrev pub empty_group : ArrayGroup
empty_group = record {
  shared_dims = invalid_size;
  shared_volume = 0;
  dims = [];
  lengths = [];
  arrays = [];
}

-- ArrayGroup::minimizeShared
unfoldable pub minimize_shared : ℕ → ArrayGroup → ArrayGroup
minimize_shared not_same g =
    if g.shared_dims == invalid_size || ltb not_same g.shared_dims
    then record g { shared_dims = not_same; shared_volume = product (take not_same g.lengths) }
    else g

-- ArrayGroup::volume, rank and position
unfoldable pub group_volume : ArrayGroup → ℕ
group_volume g = product g.lengths

abbrev pub group_rank : ArrayGroup → ℕ
group_rank g = length g.lengths

unfoldable pub position : ArrayGroup → String → ℕ
position g dim_name = index_from 0 dim_name g.dims

-- One round of the loop of add, for a dimension that the array shares: the group with its other
-- arrays, and the map of the new one.
unfoldable pub add_shared :
    ℕ → String → ℕ → ArrayGroup × ArrayMap → Result (Unit {0}) × (ArrayGroup × ArrayMap)
add_shared i name n (g, am) =
    let dim_idx = position g name in
    if not (dim_idx == invalid_size)
    then (if not (n == get_or g.lengths dim_idx 0) then (err runtime_error, (g, am)) else (
      ok tt,
      (
        if not (dim_idx == i) then minimize_shared (min i dim_idx) g else g,
        record am { dim_index_map = set am.dim_index_map dim_idx i },
      ),
    ))
    else (let g' = record g { dims = g.dims ++ name ∷ []; lengths = g.lengths ++ n ∷ [] } in
        (
          ok tt,
          (
            if length g.arrays == 0 then g' else record (minimize_shared i g') {
              arrays =
                  map
                    (λ (o : ArrayMap). record o {
                      dim_index_map = o.dim_index_map ++ invalid_size ∷ [];
                    })
                    g.arrays;
            },
            record am { dim_index_map = am.dim_index_map ++ i ∷ [] },
          ),
        ))

unfoldable pub add_round : ℕ → ArrayGroup × ArrayMap → Result (Unit {0}) × (ArrayGroup × ArrayMap)
add_round i (g, am) =
    if not (is_shared am.array i)
    then (ok tt, (minimize_shared i g, am))
    else add_shared i (get_or am.array.name i "") (length_at am.array i) (g, am)

-- ArrayGroup::add; after an exception the group is left as it is then.
unfoldable pub add_array : ArrayDims → ArrayGroup → Result (Unit {0}) × ArrayGroup
add_array a g0 =
    let (r, (g, am)) = for_each (upto 0 (rank_of a)) add_round (g0, new_map a (group_rank g0)) in
    let g' = record g { arrays = g.arrays ++ am ∷ [] } in
    elim r [ err e ↦ (err e, g') | ok u ↦ (ok tt, minimize_shared (rank_of a) g') ]
