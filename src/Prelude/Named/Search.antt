-- ===== src/Prelude/Named/Search.antt =====
-- What a search by name finds after entries were removed or renamed.
use fimex.Prelude.Text.{eq_iff, str_eq, contains}
use fimex.Prelude.{
  refl, ◌∙◌, inr, inl, Bool-cases, if◌then◌else◌, [], arith, ◌∷◌, none, update_first, false,
  remove_if, find_if, some, ◌≡◌, Option, List, String,
}
use fimex.Prelude.Named.{names, named, Distinct}

module _ {A : Type 0} (nm : A → String) where
  abbrev pub mapped : (A → A) → Option A → Option A
  mapped f none = none
  mapped f (some x) = some (f x)

  pub find_if-remove_if :
      (n k : String) (xs : List A)
      → find_if (named nm k) (remove_if (named nm n) xs)
        ≡ (if str_eq n k then none else find_if (named nm k) xs)
  find_if-remove_if n k [] = ground arith
  find_if-remove_if n k (x ∷ xs) = elim (Bool-cases (str_eq n (nm x))) [
    | inl e ↦ elim (Bool-cases (str_eq n k)) [
      | inl h ↦ rw (e, find_if-remove_if n k xs, h)
      | inr h ↦
          let d : str_eq k (nm x) ≡ false =
            ground (arith, eq_iff n (nm x), eq_iff n k, eq_iff k (nm x)) in
          rw (e, find_if-remove_if n k xs, h, d)
    ]
    | inr e ↦ elim (Bool-cases (str_eq n k)) [
      | inl h ↦
          let d : str_eq k (nm x) ≡ false =
            ground (arith, eq_iff n (nm x), eq_iff n k, eq_iff k (nm x)) in
          rw (e, h, d, find_if-remove_if n k xs, h)
      | inr h ↦ elim (Bool-cases (str_eq k (nm x))) [
        | inl d ↦ rw (e, h, d)
        | inr d ↦ rw (e, h, d, find_if-remove_if n k xs, h)
      ]
    ]
  ]

  pub find_if-none :
      (n : String) (xs : List A) → contains n (names nm xs) ≡ false → find_if (named nm n) xs ≡ none
  unfolding contains
  find_if-none n [] h = refl
  find_if-none n (x ∷ xs) h =
      let d : str_eq n (nm x) ≡ false = ground arith in rw d (find_if-none n xs (ground arith))

  -- Searches after one entry took a fresh name.
  pub find_if-update_first :
      (n m k : String) (f : A → A) (xs : List A)
      → ((x : A) → nm (f x) ≡ m)
      → contains m (names nm xs) ≡ false
      → Distinct (names nm xs)
      → find_if (named nm k) (update_first (named nm n) f xs) ≡ (
          if str_eq k m
          then mapped f (find_if (named nm n) xs)
          else (if str_eq k n then none else find_if (named nm k) xs))
  unfolding contains
  find_if-update_first n m k f [] e h d = ground arith
  find_if-update_first n m k f (x ∷ xs) e h d = elim (Bool-cases (str_eq n (nm x))) [
    | inl t ↦ elim (Bool-cases (str_eq k m)) [
      | inl u ↦ rw (t, e x, u)
      | inr u ↦ elim (Bool-cases (str_eq k n)) [
        | inl v ↦
            let q : n ≡ nm x = (eq_iff n (nm x)).0 t in
            let r : k ≡ n = (eq_iff k n).0 v in
            rw (t, e x, u, v) (find_if-none k xs (rw (r ∙ q) d.0))
        | inr v ↦
            let z : str_eq k (nm x) ≡ false =
              ground (arith, eq_iff n (nm x), eq_iff k n, eq_iff k (nm x)) in
            rw (t, e x, u, v, z)
      ]
    ]
    | inr t ↦
        let ih = find_if-update_first n m k f xs e (ground arith) d.1 in
        elim (Bool-cases (str_eq k (nm x))) [
          | inl z ↦
              let u : str_eq k m ≡ false =
                ground (arith, eq_iff k (nm x), eq_iff k m, eq_iff m (nm x)) in
              let v : str_eq k n ≡ false =
                ground (arith, eq_iff k (nm x), eq_iff k n, eq_iff n (nm x)) in
              rw (t, z, u, v)
          | inr z ↦ rw (t, z) ih
        ]
  ]
