-- ===== src/ArrayLoop/Dims.antt =====
-- ArrayDims: the names, lengths and steps of the dimensions of an array, the first of which moves
-- fastest.
pub mod Steps
use fimex.Prelude.Text.{str_eq}
use fimex.Prelude.Result.{guard, ◌>>◌, runtime_error, err, ok, ◌>>=◌, Result}
use fimex.Prelude.Words.{wmul, wadd, size_mod}
use fimex.Prelude.{
  replicate, ◌+◌, true, false, ◌==◌, ◌-◌, get_or, ltb, set, length, Bool, if◌then◌else◌, String, ℕ,
  List, [], ◌∷◌, ◌++◌,
}

-- INVALID_SIZE
abbrev pub invalid_size : ℕ
invalid_size = size_mod - 1

pub record ArrayDims : Type 0 where
  pub name : List String
  pub length_of : List ℕ
  pub delta_of : List ℕ
  pub shared_flags : List Bool

-- ArrayDims::ArrayDims()
abbrev pub no_dims : ArrayDims
no_dims = record { name = []; length_of = []; delta_of = []; shared_flags = [] }

unfoldable pub check_non0_length : ℕ → Result ℕ
check_non0_length n = if n == 0 then err runtime_error else ok n

-- The loop of the constructor: the steps behind `back`, one for each length but the last.
unfoldable pub deltas_from : ℕ → List ℕ → Result (List ℕ)
deltas_from back [] = ok []
deltas_from back (l ∷ []) = ok []
deltas_from back (l ∷ m ∷ lengths) = do
  l' ← check_non0_length l
  deltas ← deltas_from (wmul back l') (m ∷ lengths)
  ok (wmul back l' ∷ deltas)

unfoldable pub all_deltas : List ℕ → Result (List ℕ)
unfolding deltas_from
all_deltas [] = ok []
all_deltas (l ∷ lengths) = do
  l' ← check_non0_length l
  deltas ← deltas_from 1 (l ∷ lengths)
  ok (1 ∷ deltas)

-- ArrayDims::ArrayDims(names, lengths)
unfoldable pub new_dims : List String → List ℕ → Result ArrayDims
new_dims names lengths = do
  guard (length names == length lengths) runtime_error
  deltas ← all_deltas lengths
  ok (record {
    name = names;
    length_of = lengths;
    delta_of = deltas;
    shared_flags = replicate (length lengths) true;
  })

-- v.back()
unfoldable pub back : List ℕ → ℕ
back [] = 0
back (x ∷ []) = x
back (x ∷ y ∷ xs) = back (y ∷ xs)

-- The step of the next dimension.
unfoldable pub next_delta : ArrayDims → ℕ
unfolding back
next_delta a = if length a.length_of == 0 then 1 else wmul (back a.delta_of) (back a.length_of)

-- ArrayDims::add
unfoldable pub add_dim : ArrayDims → String → ℕ → Result ArrayDims
add_dim a name n = do
  n' ← check_non0_length n
  ok (record {
    name = a.name ++ name ∷ [];
    length_of = a.length_of ++ n' ∷ [];
    delta_of = a.delta_of ++ next_delta a ∷ [];
    shared_flags = a.shared_flags ++ true ∷ [];
  })

-- ArrayDims::rank
abbrev pub rank_of : ArrayDims → ℕ
rank_of a = length a.length_of

-- ArrayDims::validindex
abbrev pub valid_index : ArrayDims → ℕ → Bool
valid_index a dim_idx = ltb dim_idx (rank_of a)

-- ArrayDims::set_length(dim_idx, length)
unfoldable pub set_length_at : ArrayDims → ℕ → ℕ → Result ArrayDims
set_length_at a dim_idx n =
    if valid_index a dim_idx
    then (check_non0_length n >>= λ n'. ok (record a { length_of = set a.length_of dim_idx n' }))
    else ok a

-- std::find over names: the place of the first, or INVALID_SIZE
unfoldable pub index_from : ℕ → String → List String → ℕ
index_from i s [] = invalid_size
index_from i s (t ∷ names) = if str_eq t s then i else index_from (i + 1) s names

-- ArrayDims::dim_index
unfoldable pub dim_index : ArrayDims → String → ℕ
unfolding index_from
dim_index a dim_name = index_from 0 dim_name a.name

-- ArrayDims::set_not_shared(dim_idx)
unfoldable pub set_not_shared_at : ArrayDims → ℕ → ArrayDims
set_not_shared_at a dim_idx =
    if valid_index a dim_idx
    then record a { shared_flags = set a.shared_flags dim_idx false }
    else a

-- ArrayDims::is_shared
unfoldable pub is_shared : ArrayDims → ℕ → Bool
is_shared a dim_idx = if valid_index a dim_idx then get_or a.shared_flags dim_idx false else false

-- ArrayDims::delta(dim_idx), length(dim_idx), volume and step
unfoldable pub delta_at : ArrayDims → ℕ → ℕ
delta_at a dim_idx = if valid_index a dim_idx then get_or a.delta_of dim_idx 0 else 0

unfoldable pub length_at : ArrayDims → ℕ → ℕ
length_at a dim_idx = if valid_index a dim_idx then get_or a.length_of dim_idx 0 else 1

unfoldable pub volume_of : ArrayDims → ℕ
volume_of a = if length a.length_of == 0 then 1 else wmul (back a.delta_of) (back a.length_of)

unfoldable pub step : ArrayDims → ℕ → ℕ → ℕ → ℕ
step a base dim_idx n = wadd base (wmul n (delta_at a dim_idx))

-- set_not_shared(dim_name, s1) and set_length(dim_name, length, s1), and these for two arrays
unfoldable pub set_not_shared : String → ArrayDims → ArrayDims
set_not_shared dim_name s1 = set_not_shared_at s1 (dim_index s1 dim_name)

unfoldable pub set_not_shared_2 : String → ArrayDims → ArrayDims → ArrayDims × ArrayDims
set_not_shared_2 dim_name s1 s2 = (set_not_shared dim_name s1, set_not_shared dim_name s2)

unfoldable pub set_length : String → ℕ → ArrayDims → Result ArrayDims
set_length dim_name n s1 = set_length_at s1 (dim_index s1 dim_name) n

unfoldable pub set_length_2 : String → ℕ → ArrayDims → ArrayDims → Result (ArrayDims × ArrayDims)
set_length_2 dim_name n s1 s2 = do
  s1' ← set_length dim_name n s1
  s2' ← set_length dim_name n s2
  ok (s1', s2')

-- and for three to five arrays
abbrev pub Two : Type 0
Two = ArrayDims × ArrayDims

unfoldable pub set_not_shared_3 : String → ArrayDims → ArrayDims → ArrayDims → ArrayDims × Two
set_not_shared_3 dim_name s1 s2 s3 = (set_not_shared dim_name s1, set_not_shared_2 dim_name s2 s3)

unfoldable pub set_not_shared_4 : String → ArrayDims → ArrayDims → ArrayDims → ArrayDims → Two × Two
set_not_shared_4 dim_name s1 s2 s3 s4 =
    (set_not_shared_2 dim_name s1 s2, set_not_shared_2 dim_name s3 s4)

unfoldable pub set_not_shared_5 :
    String → ArrayDims → ArrayDims → ArrayDims → ArrayDims → ArrayDims → Two × (ArrayDims × Two)
set_not_shared_5 dim_name s1 s2 s3 s4 s5 =
    (set_not_shared_2 dim_name s1 s2, set_not_shared_3 dim_name s3 s4 s5)

unfoldable pub set_length_3 :
    String → ℕ → ArrayDims → ArrayDims → ArrayDims → Result (ArrayDims × Two)
set_length_3 dim_name n s1 s2 s3 = do
  s1' ← set_length dim_name n s1
  others ← set_length_2 dim_name n s2 s3
  ok (s1', others)

unfoldable pub set_length_4 :
    String → ℕ → ArrayDims → ArrayDims → ArrayDims → ArrayDims → Result (Two × Two)
set_length_4 dim_name n s1 s2 s3 s4 = do
  first ← set_length_2 dim_name n s1 s2
  others ← set_length_2 dim_name n s3 s4
  ok (first, others)

unfoldable pub set_length_5 :
    String
    → ℕ
    → ArrayDims
    → ArrayDims
    → ArrayDims
    → ArrayDims
    → ArrayDims
    → Result (Two × (ArrayDims × Two))
set_length_5 dim_name n s1 s2 s3 s4 s5 = do
  first ← set_length_2 dim_name n s1 s2
  others ← set_length_3 dim_name n s3 s4 s5
  ok (first, others)
