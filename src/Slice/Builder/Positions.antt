-- ===== src/Slice/Builder/Positions.antt =====
-- The map from names to positions that SliceBuilder::init fills (src/SliceBuilder.cc).
use fimex.Prelude.Dict.{lookup-insert_other, lookup-insert_same, insert, lookup, Dict}
use fimex.Prelude.Text.{eq_iff, str_eq, contains}
use fimex.Slice.Builder.{positions}
use fimex.Prelude.{
  refl, length, sym, ap, zero, ◌∙◌, [], Bool-cases, suc, inr, arith, inl, ◌+◌, ◌∷◌, is_some, false,
  ◌⊎◌, map, true, get_or, ◌≡◌, get_elem?, ◌||◌, List, Bool, String, ℕ, some,
}

-- A name that init has met has its position.
pub positions-get_elem? :
    (n : String) (pos : ℕ) (names : List String) (m : Dict ℕ) (p : ℕ)
    → lookup n (positions pos names m) ≡ some p
    → (lookup n m ≡ some p) ⊎ ((i : ℕ) × (p ≡ pos + i) × (get_elem? names i ≡ some n))
unfolding positions
positions-get_elem? n pos [] m p h = inl h
positions-get_elem? n pos (x ∷ names) m p h =
    elim (positions-get_elem? n (pos + 1) names (insert x pos m) p h) [
      | inl e ↦ elim (Bool-cases (str_eq x n)) [
        | inl s ↦
            let here : some pos ≡ some p = sym (lookup-insert_same x n pos m s) ∙ e in
            inr (0, ground (arith, here), ap (λ (t : String). some t) ((eq_iff x n).0 s))
        | inr s ↦ inl (sym (lookup-insert_other x n pos m s) ∙ e)
      ]
      | inr (i, e, g) ↦ inr (suc i, omega (arith, e), g)
    ]

later :
    {b c : Bool} {a d : Bool}
    → ((b || c) ≡ true) ⊎ (a ≡ true)
    → b ≡ false
    → d ≡ a
    → (c ≡ true) ⊎ (d ≡ true)
later (inl h) f e = inl (ground (arith, h, f))
later (inr h) f e = inr (e ∙ h)

pub positions-found :
    (n : String) (pos : ℕ) (names : List String) (m : Dict ℕ)
    → (contains n names ≡ true) ⊎ (is_some (lookup n m) ≡ true)
    → is_some (lookup n (positions pos names m)) ≡ true
unfolding positions contains
positions-found n pos [] m (inl h) = absurd (cc h)
positions-found n pos [] m (inr h) = h
positions-found n pos (x ∷ names) m h = elim (Bool-cases (str_eq x n)) [
  | inl s ↦
      positions-found n (pos + 1) names (insert x pos m)
        (inr (ap is_some (lookup-insert_same x n pos m s)))
  | inr s ↦ positions-found n (pos + 1) names (insert x pos m) (
      later {b = str_eq n x} h (ground (arith, s, eq_iff x n, eq_iff n x))
        (ap is_some (lookup-insert_other x n pos m s)))
]

pub length-map : (f : String → ℕ) (names : List String) → length (map f names) ≡ length names
length-map f [] = refl
length-map f (x ∷ names) = ap (λ (n : ℕ). suc n) (length-map f names)

pub get_or-map :
    (f : String → ℕ) (names : List String) (i : ℕ) (n : String)
    → get_elem? names i ≡ some n
    → get_or (map f names) i 0 ≡ f n
get_or-map f [] i n h = absurd (cc h)
get_or-map f (x ∷ names) zero n h = ground (arith, h)
get_or-map f (x ∷ names) (suc i) n h = get_or-map f names i n h
