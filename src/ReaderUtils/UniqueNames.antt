-- ===== src/ReaderUtils/UniqueNames.antt =====
-- The search for a name that the data model does not use yet (src/CDMReaderUtils.cc).
pub mod Candidates
pub mod Free
pub mod Numbered
use fimex.Cdm.Model.{Cdm}
use fimex.Cdm.Variables.{has_variable}
use fimex.Cdm.Dimensions.{has_dimension}
use fimex.Prelude.{some, not, none, zero, Option, if◌then◌else◌, ◌||◌, suc, Bool, String, ℕ}
use fimex.Prelude.Result.{Result, ok, err, cdm_exception}
use fimex.Prelude.Text.Decimal.{decimal}
use Prim.Native.String as Str

-- The name after i failures: the name itself, then the name with 1, 2, ... behind it.
unfoldable pub candidate : String → ℕ → String
candidate name zero = name
candidate name (suc i) = Str.◌++◌ name (decimal (suc i))

-- while (taken(name_number)) name_number = name + type2string(++i); with fuel for the rounds
unfoldable pub next_free : (String → Bool) → ℕ → String → ℕ → String → Option String
next_free taken zero name i name_number = none
next_free taken (suc fuel) name i name_number =
    let rest = next_free taken fuel name (suc i) (Str.◌++◌ name (decimal (suc i))) in
    if taken name_number then rest else some name_number

-- for (i = first; i < first + rounds; i++) if (!taken(name + i)) return name + i;
unfoldable pub first_free : (String → Bool) → ℕ → String → ℕ → Result String
first_free taken zero name i = err cdm_exception
first_free taken (suc rounds) name i =
    let rest = first_free taken rounds name (suc i) in
    if not (taken (Str.◌++◌ name (decimal i))) then ok (Str.◌++◌ name (decimal i)) else rest

module _ {V : Type 0} where
  unfoldable pub find_unique_var_name : Cdm V → ℕ → String → Option String
  unfolding next_free has_variable
  find_unique_var_name c fuel name = next_free (λ n. has_variable n c) fuel name 0 name

  unfoldable pub find_unique_dim_name : Cdm V → ℕ → String → Option String
  unfolding next_free has_dimension
  find_unique_dim_name c fuel name = next_free (λ n. has_dimension n c) fuel name 0 name

  unfoldable pub find_unique_dim_var_name : Cdm V → String → Result String
  unfolding first_free has_variable has_dimension
  find_unique_dim_var_name c base_var =
      let numbered = first_free (λ n. has_variable n c || has_dimension n c) 99 base_var 0 in
      if not (has_variable base_var c || has_dimension base_var c) then ok base_var else numbered
