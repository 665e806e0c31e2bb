-- ===== src/ReaderUtils/UniqueNames/Numbered.antt =====
-- The numbered names of findUniqueDimVarName: another is tried once those before it are taken.
use fimex.Cdm.Dimensions.{has_dimension}
use fimex.Prelude.Text.Decimal.{decimal}
use fimex.Cdm.Variables.{has_variable}
use fimex.Cdm.Model.{Cdm}
use fimex.Prelude.{
  ltb→lt, refl, ltb, zero, suc, arith, false, inr, ◌||◌, true, inl, ◌+◌, ◌≡◌, ◌≤◌, ◌<◌, Bool,
  Bool-cases, String, ℕ,
}
use fimex.Prelude.Result.{Result, ok, err, cdm_exception}
use fimex.ReaderUtils.UniqueNames.{first_free, find_unique_dim_var_name}
use Prim.Native.String as Str

-- The numbers from i up to `high` make names that are taken.
abbrev TakenBetween : (String → Bool) → String → ℕ → ℕ → Type 0
TakenBetween taken name i high =
    (j : ℕ) → i ≤ j → j < high → taken (Str.◌++◌ name (decimal j)) ≡ true

one_earlier :
    (taken : String → Bool) (name : String) (i high : ℕ)
    → taken (Str.◌++◌ name (decimal i)) ≡ true
    → TakenBetween taken name (suc i) high
    → TakenBetween taken name i high
one_earlier taken name i high t later j low b = elim (Bool-cases (ltb i j)) [
  | inl l ↦ later j (ltb→lt i j l) b
  | inr g ↦ let same : j ≡ i = ground (arith, low, g) in rw same t
]

-- The outcome of trying the numbers from i to before `high`
data Outcome (taken : String → Bool) (name : String) (i high : ℕ) : Result String → Type 0 where
  found :
      (k : ℕ)
      → k < high
      → taken (Str.◌++◌ name (decimal k)) ≡ false
      → TakenBetween taken name i k
      → Outcome taken name i high (ok (Str.◌++◌ name (decimal k)))
  exhausted : TakenBetween taken name i high → Outcome taken name i high (err cdm_exception)

earlier-Outcome :
    (taken : String → Bool) (name : String) (i high : ℕ) {r : Result String}
    → taken (Str.◌++◌ name (decimal i)) ≡ true
    → Outcome taken name (suc i) high r
    → Outcome taken name i high r
earlier-Outcome taken name i high t (found k b f before) =
    found k b f (one_earlier taken name i k t before)
earlier-Outcome taken name i high t (exhausted all) =
    exhausted (one_earlier taken name i high t all)

first_free-Outcome :
    (taken : String → Bool) (name : String) (rounds i high : ℕ)
    → i + rounds ≡ high
    → Outcome taken name i high (first_free taken rounds name i)
unfolding first_free
first_free-Outcome taken name zero i high e =
    exhausted (λ j low b. absurd (omega (arith, e, low, b)))
first_free-Outcome taken name (suc rounds) i high e =
    elim (Bool-cases (taken (Str.◌++◌ name (decimal i)))) [
      | inl t ↦
          rw (first_free, t)
            (earlier-Outcome taken name i high t
              (first_free-Outcome taken name rounds (suc i) high (omega (arith, e))))
      | inr f ↦
          rw (first_free, f)
            (found i (omega (arith, e)) f (λ j low b. absurd (omega (arith, low, b))))
    ]

module _ {V : Type 0} where
  abbrev pub in_use : Cdm V → String → Bool
  in_use c n = has_variable n c || has_dimension n c

  -- A name that nothing has, or an exception when the base and its 99 numbered names are in use.
  pub data UniqueName (c : Cdm V) (base : String) : Result String → Type 0 where
    itself : in_use c base ≡ false → UniqueName c base (ok base)
    numbered :
        (k : ℕ)
        → k < 99
        → in_use c base ≡ true
        → TakenBetween (in_use c) base 0 k
        → in_use c (Str.◌++◌ base (decimal k)) ≡ false
        → UniqueName c base (ok (Str.◌++◌ base (decimal k)))
    exhausted :
        in_use c base ≡ true
        → TakenBetween (in_use c) base 0 99
        → UniqueName c base (err cdm_exception)

  UniqueName-of-Outcome :
      (c : Cdm V) (base : String) {r : Result String}
      → in_use c base ≡ true
      → Outcome (in_use c) base 0 99 r
      → UniqueName c base r
  UniqueName-of-Outcome c base t (found k b f before) = numbered k b t before f
  UniqueName-of-Outcome c base t (Outcome.exhausted all) = UniqueName.exhausted t all

  -- findUniqueDimVarName returns the base name if no variable and no dimension has it, else the
  -- first of base0 to base98 that none has; it throws only if all these names are in use.
  pub find_unique_dim_var_name-UniqueName :
      (c : Cdm V) (base : String) → UniqueName c base (find_unique_dim_var_name c base)
  unfolding find_unique_dim_var_name
  find_unique_dim_var_name-UniqueName c base = elim (Bool-cases (in_use c base)) [
    | inl t ↦
        rw (find_unique_dim_var_name, t)
          (UniqueName-of-Outcome c base t (first_free-Outcome (in_use c) base 99 0 99 refl))
    | inr f ↦ rw (find_unique_dim_var_name, f) (itself f)
  ]
