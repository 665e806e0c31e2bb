-- ===== src/Prelude/Named.antt =====
-- Vectors of named entities, searched by name.
pub mod Search
use fimex.Prelude.{
  suc, ℕ, ap, length, some, none, Option, true, ◌≡◌, refl, Bool, false, ◌||◌, List, [], ◌∷◌, ◌++◌,
  String, arith, find_if, Bool-cases, inl, inr, remove_if, update_first, is_some, any,
  if◌then◌else◌,
}
use fimex.Prelude.Text.{str_eq, contains, eq_iff}

-- No name twice.
abbrev pub Distinct : List String → Type 0
Distinct [] = Unit {0}
Distinct (x ∷ xs) = (contains x xs ≡ false) × Distinct xs

module _ {A : Type 0} (nm : A → String) where
  abbrev pub names : List A → List String
  names [] = []
  names (x ∷ xs) = nm x ∷ names xs

  abbrev pub named : String → A → Bool
  named n x = str_eq n (nm x)

  pub length-names : (xs : List A) → length (names xs) ≡ length xs
  length-names [] = refl
  length-names (x ∷ xs) = ap (λ (n : ℕ). suc n) (length-names xs)

  pub find_if-contains :
      (n : String) (xs : List A) → is_some (find_if (named n) xs) ≡ contains n (names xs)
  unfolding contains
  find_if-contains n [] = refl
  find_if-contains n (x ∷ xs) = ground (arith, find_if-contains n xs)

  pub any-contains : (n : String) (xs : List A) → any (named n) xs ≡ contains n (names xs)
  unfolding contains
  any-contains n [] = refl
  any-contains n (x ∷ xs) = ground (arith, any-contains n xs)

  pub contains-append :
      (n : String) (xs : List A) (x : A)
      → contains n (names (xs ++ x ∷ [])) ≡ (str_eq n (nm x) || contains n (names xs))
  unfolding contains
  contains-append n [] x = refl
  contains-append n (y ∷ ys) x = ground (arith, contains-append n ys x)

  pub contains-remove_if :
      (n m : String) (xs : List A)
      → contains m (names (remove_if (named n) xs))
        ≡ (if str_eq n m then false else contains m (names xs))
  unfolding contains
  contains-remove_if n m [] = ground arith
  contains-remove_if n m (x ∷ xs) = elim (Bool-cases (str_eq n (nm x))) [
    | inl e ↦
        rw (e, contains-remove_if n m xs)
          (ground (arith, eq_iff n (nm x), eq_iff m (nm x), eq_iff n m))
    | inr e ↦
        rw e
          (ground (arith, contains-remove_if n m xs, eq_iff n (nm x), eq_iff m (nm x), eq_iff n m))
  ]

  pub append-Distinct :
      (xs : List A) (x : A)
      → Distinct (names xs)
      → contains (nm x) (names xs) ≡ false
      → Distinct (names (xs ++ x ∷ []))
  unfolding contains
  append-Distinct [] x d h = (refl, tt)
  append-Distinct (y ∷ ys) x d h = (
    ground (arith, contains-append (nm y) ys x, eq_iff (nm x) (nm y), eq_iff (nm y) (nm x)),
    append-Distinct ys x d.1 (ground arith),
  )

  pub remove_if-Distinct :
      (n : String) (xs : List A) → Distinct (names xs) → Distinct (names (remove_if (named n) xs))
  remove_if-Distinct n [] d = tt
  remove_if-Distinct n (x ∷ xs) d = elim (Bool-cases (str_eq n (nm x))) [
    | inl e ↦ rw e (remove_if-Distinct n xs d.1)
    | inr e ↦ rw e (ground (arith, contains-remove_if n (nm x) xs), remove_if-Distinct n xs d.1)
  ]

  -- After the write of an entry called `m`, there is no other new name.
  pub contains-update_first :
      (n m k : String) (f : A → A) (xs : List A)
      → ((x : A) → nm (f x) ≡ m)
      → contains k (names xs) ≡ false
      → str_eq k m ≡ false
      → contains k (names (update_first (named n) f xs)) ≡ false
  unfolding contains
  contains-update_first n m k f [] e h d = refl
  contains-update_first n m k f (x ∷ xs) e h d = elim (Bool-cases (str_eq n (nm x))) [
    | inl t ↦ rw (t, e x) (ground arith)
    | inr t ↦ rw t (ground (arith, contains-update_first n m k f xs e))
  ]

  -- An entry that takes a fresh name keeps the names distinct.
  pub update_first-Distinct :
      (n m : String) (f : A → A) (xs : List A)
      → ((x : A) → nm (f x) ≡ m)
      → contains m (names xs) ≡ false
      → Distinct (names xs)
      → Distinct (names (update_first (named n) f xs))
  unfolding contains
  update_first-Distinct n m f [] e h d = tt
  update_first-Distinct n m f (x ∷ xs) e h d = elim (Bool-cases (str_eq n (nm x))) [
    | inl t ↦ rw (t, e x) (ground arith, d.1)
    | inr t ↦ rw t (
      contains-update_first n m (nm x) f xs e d.0
          (ground (arith, eq_iff m (nm x), eq_iff (nm x) m)),
      update_first-Distinct n m f xs e (ground arith) d.1,
    )
  ]

  -- A write that keeps the name keeps all names.
  pub names-update_first :
      (n : String) (f : A → A) (xs : List A)
      → ((x : A) → nm (f x) ≡ nm x)
      → names (update_first (named n) f xs) ≡ names xs
  names-update_first n f [] e = refl
  names-update_first n f (x ∷ xs) e = elim (Bool-cases (str_eq n (nm x))) [
    | inl t ↦ rw (t, e x)
    | inr t ↦ rw (t, names-update_first n f xs e)
  ]

  -- The names after one entry, if it is there, took the name `m`.
  pub contains-update_first_lem :
      (n m k : String) (f : A → A) (xs : List A)
      → ((x : A) → nm (f x) ≡ m)
      → Distinct (names xs)
      → contains n (names xs) ≡ true
      → contains k (names (update_first (named n) f xs))
        ≡ (str_eq k m || (if str_eq k n then false else contains k (names xs)))
  unfolding contains
  contains-update_first_lem n m k f [] e d h = cc
  contains-update_first_lem n m k f (x ∷ xs) e d h = elim (Bool-cases (str_eq n (nm x))) [
    | inl t ↦ rw (t, e x) (ground (arith, eq_iff n (nm x), eq_iff k n, eq_iff k (nm x)))
    | inr t ↦ rw t (
        ground (
          arith,
          contains-update_first_lem n m k f xs e d.1,
          eq_iff n (nm x),
          eq_iff k n,
          eq_iff k (nm x),
        ))
  ]
