-- ===== src/Tests/SliceRuns.antt =====
-- A slice builder for a grid of two times four values.
use fimex.Prelude.Text.{str_eq}
use fimex.Prelude.Result.{ok}
use fimex.Prelude.Dict.{insert, lookup}
use fimex.Slice.Builder.Set.{
  get_start_and_size-set_start_and_size, set_start_and_size-wraps, set_start_and_size-outcome,
  outcome, set_start_and_size-IsValid, updated,
}
use fimex.Slice.Builder.Laws.{Within, init-IsValid, IsValid}
use fimex.Slice.Builder.{
  initial, get_start_and_size, init, positions, set_start_and_size, SliceBuilder,
}
use fimex.Prelude.{
  ◌∙◌, some, if◌then◌else◌, arith, ◌≡◌, ℕ, Bool, false, List, [], ◌∷◌, refl, String,
}

abbrev axes : List String
axes = "x" ∷ "y" ∷ []

abbrev sizes : List ℕ
sizes = 4 ∷ 2 ∷ []

abbrev limited : List Bool
limited = false ∷ false ∷ []

init_run : init axes sizes limited ≡ ok (initial axes sizes limited)
unfolding init
init_run = refl

initial-IsValid : IsValid (initial axes sizes limited)
initial-IsValid = (init-IsValid axes sizes limited (initial axes sizes limited) init_run).0

x_found : lookup "x" (initial axes sizes limited).dim_pos ≡ some 0
unfolding positions lookup insert
x_found = refl

abbrev narrowed : SliceBuilder
narrowed = updated (initial axes sizes limited) "x" 0 1 3

set_start_and_size-outcome_example :
    set_start_and_size (initial axes sizes limited) "x" 1 3
    ≡ outcome (initial axes sizes limited) "x" 1 3 (lookup "x" (initial axes sizes limited).dim_pos)
set_start_and_size-outcome_example =
    set_start_and_size-outcome (initial axes sizes limited) initial-IsValid "x" 1 3

narrowed_run : set_start_and_size (initial axes sizes limited) "x" 1 3 ≡ ok narrowed
narrowed_run =
    set_start_and_size-outcome (initial axes sizes limited) initial-IsValid "x" 1 3
    ∙ rw x_found refl

set_start_and_size-IsValid_example : IsValid narrowed
set_start_and_size-IsValid_example =
    set_start_and_size-IsValid (initial axes sizes limited) initial-IsValid "x" 1 3 narrowed
      (omega arith) narrowed_run

get_start_and_size-set_start_and_size_example :
    get_start_and_size narrowed "y"
    ≡ (if str_eq "x" "y" then ok (1, 3) else get_start_and_size (initial axes sizes limited) "y")
get_start_and_size-set_start_and_size_example =
    get_start_and_size-set_start_and_size (initial axes sizes limited) "x" "y" 1 3 narrowed
      initial-IsValid (omega arith) narrowed_run

set_start_and_size-wraps_example :
    (set_start_and_size (initial axes sizes limited) "x" 2 18446744073709551615
      ≡ ok (updated (initial axes sizes limited) "x" 0 2 18446744073709551615))
    × ¬ Within (updated (initial axes sizes limited) "x" 0 2 18446744073709551615) 0
set_start_and_size-wraps_example =
    set_start_and_size-wraps (initial axes sizes limited) "x" 0 2 18446744073709551615
      initial-IsValid x_found refl (omega arith) (omega arith) (omega arith)
