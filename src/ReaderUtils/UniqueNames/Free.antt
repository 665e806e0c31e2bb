-- ===== src/ReaderUtils/UniqueNames/Free.antt =====
-- The search for an unused name ends (src/CDMReaderUtils.cc): it finds the first candidate that is
-- free after at most as many failures as there are names.
use native.Mathlib.Nat.{suc-add, add-suc, add-zero}
use fimex.Cdm.WellFormed.{has_dimension-contains, dim_names, has_variable-contains, var_names}
use fimex.Prelude.Named.{length-names}
use fimex.Cdm.Dimensions.{has_dimension}
use fimex.Cdm.Variables.{has_variable}
use fimex.Cdm.Model.{CdmDimension, CdmVariable, Cdm}
use fimex.Prelude.Text.{contains}
use fimex.Prelude.{
  ◌∙◌, sym, ◌≤◌, length, List, arith, refl, zero, ltb→lt, inl, ltb, inr, Bool-cases, ◌+◌, suc, ◌⊎◌,
  some, true, false, ◌<◌, ◌≡◌, Bool, String, ℕ,
}
use fimex.ReaderUtils.UniqueNames.{find_unique_dim_name, find_unique_var_name, next_free, candidate}
use fimex.ReaderUtils.UniqueNames.Candidates.{candidate-injective, distinct-length}

-- The candidates before k are taken.
abbrev pub Taken : (String → Bool) → String → ℕ → Type 0
Taken taken name k = (j : ℕ) → j < k → taken (candidate name j) ≡ true

-- Candidate k is the first that is free.
pub record FirstFree (taken : String → Bool) (name : String) (k : ℕ) : Type 0 where
  pub free : taken (candidate name k) ≡ false
  pub tried : Taken taken name k

one_more :
    (taken : String → Bool) (name : String) (i : ℕ)
    → Taken taken name i
    → taken (candidate name i) ≡ true
    → Taken taken name (suc i)
one_more taken name i before t j b = elim (Bool-cases (ltb j i)) [
  | inl l ↦ before j (ltb→lt j i l)
  | inr g ↦ let same : j ≡ i = ground (arith, b, g) in rw same t
]

-- The loop from candidate i on either ends at the first free candidate or uses all its fuel.
next_free-cases :
    (taken : String → Bool) (name : String) (fuel i : ℕ)
    → Taken taken name i
    → ((k : ℕ) × (next_free taken fuel name i (candidate name i) ≡ some (candidate name k))
        × FirstFree taken name k)
      ⊎ Taken taken name (i + fuel)
unfolding next_free candidate
next_free-cases taken name zero i before = inr (rw (add-zero i) before)
next_free-cases taken name (suc fuel) i before = elim (Bool-cases (taken (candidate name i))) [
  | inl t ↦
      rw (next_free, t, add-suc i fuel, sym (suc-add i fuel))
        (next_free-cases taken name fuel (suc i) (one_more taken name i before t))
  | inr f ↦ inl (i, rw (next_free, f) refl, record { free = f; tried = before })
]

-- With more fuel than there are names the loop ends.
pub next_free-FirstFree :
    (taken : String → Bool) (name : String) (used : List String) (fuel : ℕ)
    → ((n : String) → taken n ≡ contains n used)
    → length used < fuel
    → (k : ℕ) × (next_free taken fuel name 0 name ≡ some (candidate name k))
      × FirstFree taken name k
      × (k ≤ length used)
unfolding candidate
next_free-FirstFree taken name used fuel same enough =
    let within : (k : ℕ) → Taken taken name k → k ≤ length used = λ k tried.
      distinct-length (candidate name) k used (candidate-injective name)
        (λ j b. sym (same (candidate name j)) ∙ tried j b) in
    elim (next_free-cases taken name fuel 0 (λ j b. absurd (omega (arith, b)))) [
      | inl (k, found, first) ↦ (k, found, first, within k first.tried)
      | inr all ↦
          let too_many : 0 + fuel ≤ length used = within (0 + fuel) all in
          absurd (omega (arith, too_many, enough))
    ]

module _ {V : Type 0} where
  -- With more rounds than there are variables and dimensions, findUniqueVarName and
  -- findUniqueDimName end: each returns the first of name, name1, name2, ... that no variable (no
  -- dimension) has, after at most as many failures as there are variables (dimensions).
  pub find_unique_name-FirstFree :
      (c : Cdm V) (name : String) (fuel : ℕ)
      → length c.variables < fuel
      → length c.dimensions < fuel
      → ((k : ℕ) × (find_unique_var_name c fuel name ≡ some (candidate name k))
          × FirstFree (λ n. has_variable n c) name k
          × (k ≤ length c.variables))
        × ((k : ℕ) × (find_unique_dim_name c fuel name ≡ some (candidate name k))
            × FirstFree (λ n. has_dimension n c) name k
            × (k ≤ length c.dimensions))
  unfolding find_unique_var_name find_unique_dim_name
  find_unique_name-FirstFree c name fuel vars dims = (
    rw (sym (length-names (λ (v : CdmVariable V). v.name) c.variables)) (
        next_free-FirstFree (λ n. has_variable n c) name (var_names c.variables) fuel
          (λ n. has_variable-contains n c)
          (rw (length-names (λ (v : CdmVariable V). v.name) c.variables) vars)),
    rw (sym (length-names (λ (d : CdmDimension). d.name) c.dimensions)) (
        next_free-FirstFree (λ n. has_dimension n c) name (dim_names c.dimensions) fuel
          (λ n. has_dimension-contains n c)
          (rw (length-names (λ (d : CdmDimension). d.name) c.dimensions) dims)),
  )
