-- ===== src/ReaderUtils/UniqueNames/Candidates.antt =====
-- The names that the search of src/CDMReaderUtils.cc tries differ, so that a list of names holds at
-- most as many of them as it is long.
use fimex.Prelude.Text.{eq_iff, str_eq, contains}
use fimex.Prelude.{
  ap, inr, inl, refl, Bool-cases, zero, [], ◌∙◌, arith, false, sym, length, if◌then◌else◌, ◌≤◌, ◌∷◌,
  suc, true, ◌<◌, ◌≡◌, List, String, ℕ,
}
use text.Mathlib.TextLemmas.{append_cancel_left, append-nil}
use fimex.Prelude.Text.Decimal.{decimal, decimal-injective, decimal-ne-empty}
use fimex.ReaderUtils.UniqueNames.{candidate}
use Prim.Native.String as Str

candidate-suc-ne : (name : String) (i : ℕ) → name ≡ Str.◌++◌ name (decimal (suc i)) → ⊥
candidate-suc-ne name i h =
    decimal-ne-empty (suc i)
      (sym (append_cancel_left name Str.[] (decimal (suc i)) (append-nil name ∙ h)))

pub candidate-injective : (name : String) (i j : ℕ) → candidate name i ≡ candidate name j → i ≡ j
unfolding candidate
candidate-injective name zero zero h = refl
candidate-injective name zero (suc j) h = absurd (candidate-suc-ne name j h)
candidate-injective name (suc i) zero h = absurd (candidate-suc-ne name i (sym h))
candidate-injective name (suc i) (suc j) h =
    decimal-injective (suc i) (suc j)
      (append_cancel_left name (decimal (suc i)) (decimal (suc j)) h)

-- The list without the first occurrence of a name
remove_first : String → List String → List String
remove_first s [] = []
remove_first s (x ∷ xs) = if str_eq s x then xs else x ∷ remove_first s xs

length-remove_first :
    (s : String) (xs : List String)
    → contains s xs ≡ true
    → suc (length (remove_first s xs)) ≡ length xs
unfolding remove_first contains
length-remove_first s [] h = absurd (ground (arith, h))
length-remove_first s (x ∷ xs) h = elim (Bool-cases (str_eq s x)) [
  | inl e ↦ rw e refl
  | inr e ↦ rw e (ap (λ (n : ℕ). suc n) (length-remove_first s xs (rw e at h)))
]

contains-remove_first :
    (s t : String) (xs : List String)
    → str_eq t s ≡ false
    → contains t xs ≡ true
    → contains t (remove_first s xs) ≡ true
unfolding remove_first contains
contains-remove_first s t [] d h = h
contains-remove_first s t (x ∷ xs) d h =
    ground (arith, contains-remove_first s t xs, eq_iff t s, eq_iff s x, eq_iff t x)

-- A list that holds the first k of different names has k names or more.
pub distinct-length :
    (f : ℕ → String) (k : ℕ) (xs : List String)
    → ((i j : ℕ) → f i ≡ f j → i ≡ j)
    → ((j : ℕ) → j < k → contains (f j) xs ≡ true)
    → k ≤ length xs
distinct-length f zero xs inj held = omega arith
distinct-length f (suc k) xs inj held =
    let shorter = length-remove_first (f k) xs (held k (omega arith)) in
    let still_held : (j : ℕ) → j < k → contains (f j) (remove_first (f k) xs) ≡ true = λ j b.
      elim (Bool-cases (str_eq (f j) (f k))) [
        | inl e ↦ absurd (omega (arith, b, inj j k (((eq_iff (f j) (f k)).0) e)))
        | inr e ↦ contains-remove_first (f k) (f j) xs e (held j (omega (arith, b)))
      ] in
    let bound : k ≤ length (remove_first (f k) xs) =
      distinct-length f k (remove_first (f k) xs) inj still_held in
    omega (arith, shorter, bound)
