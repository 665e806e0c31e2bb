-- ===== src/Prelude/Lists.antt =====
-- Lists measured and indexed by native numbers, under the library's names.
use Prim.Native.Nat.{ℕ, zero, suc, ◌+◌, ◌-◌, ◌<◌, min}
use mathlib.Core.Path.{◌≡◌, refl, ap, ◌∙◌}
use mathlib.Core.List.{List, [], ◌∷◌, ◌++◌}
use mathlib.Core.Option.{Option, none, some}
use mathlib.Core.Bool.{Bool, true, false, ◌||◌}
use fimex.Prelude.Tests.{◌==◌, if◌then◌else◌}
use native.Mathlib.Omega.{arith}

module _ {ℓ} {A : Type ℓ} where
  abbrev pub length : List A → ℕ
  length [] = 0
  length (x ∷ xs) = suc (length xs)

  abbrev pub get_elem? : List A → ℕ → Option A
  get_elem? [] i = none
  get_elem? (x ∷ xs) zero = some x
  get_elem? (x ∷ xs) (suc i) = get_elem? xs i

  -- A write out of bounds changes nothing.
  abbrev pub set : List A → ℕ → A → List A
  set [] i v = []
  set (x ∷ xs) zero v = v ∷ xs
  set (x ∷ xs) (suc i) v = x ∷ set xs i v

  pub length-append : (xs ys : List A) → length (xs ++ ys) ≡ length xs + length ys
  length-append [] ys = omega arith
  length-append (x ∷ xs) ys = omega (arith, length-append xs ys)

module _ {ℓ} {A : Type ℓ} where
  pub length-set : (xs : List A) (i : ℕ) (v : A) → length (set xs i v) ≡ length xs
  length-set [] i v = refl
  length-set (x ∷ xs) zero v = refl
  length-set (x ∷ xs) (suc i) v = ap suc (length-set xs i v)

module _ {ℓ} {A : Type ℓ} where
  abbrev pub get_or : List A → ℕ → A → A
  get_or [] i d = d
  get_or (x ∷ xs) zero d = x
  get_or (x ∷ xs) (suc i) d = get_or xs i d

  abbrev pub take : ℕ → List A → List A
  take zero xs = []
  take (suc n) [] = []
  take (suc n) (x ∷ xs) = x ∷ take n xs

  abbrev pub drop : ℕ → List A → List A
  drop zero xs = xs
  drop (suc n) [] = []
  drop (suc n) (x ∷ xs) = drop n xs

  abbrev pub replicate : ℕ → A → List A
  replicate zero a = []
  replicate (suc n) a = a ∷ replicate n a

  pub take-append-drop : (n : ℕ) (xs : List A) → take n xs ++ drop n xs ≡ xs
  take-append-drop zero xs = refl
  take-append-drop (suc n) [] = refl
  take-append-drop (suc n) (x ∷ xs) = rw (take-append-drop n xs)

  pub length-take : (n : ℕ) (xs : List A) → length (take n xs) ≡ min n (length xs)
  length-take zero xs = omega arith
  length-take (suc n) [] = omega arith
  length-take (suc n) (x ∷ xs) = omega (arith, length-take n xs)

  pub length-drop : (n : ℕ) (xs : List A) → length (drop n xs) ≡ length xs - n
  length-drop zero xs = omega arith
  length-drop (suc n) [] = omega arith
  length-drop (suc n) (x ∷ xs) = omega (arith, length-drop n xs)

  pub length-replicate : (n : ℕ) (a : A) → length (replicate n a) ≡ n
  length-replicate zero a = refl
  length-replicate (suc n) a = ap suc (length-replicate n a)

module _ {ℓ} {A : Type ℓ} where
  -- std::find_if, as the element found
  abbrev pub find_if : (A → Bool) → List A → Option A
  find_if p [] = none
  find_if p (x ∷ xs) = if p x then some x else find_if p xs

  -- xs.erase(std::remove_if(xs.begin(), xs.end(), p), xs.end())
  abbrev pub remove_if : (A → Bool) → List A → List A
  remove_if p [] = []
  remove_if p (x ∷ xs) = if p x then remove_if p xs else x ∷ remove_if p xs

  -- a write through the reference that std::find_if returned
  abbrev pub update_first : (A → Bool) → (A → A) → List A → List A
  update_first p f [] = []
  update_first p f (x ∷ xs) = if p x then f x ∷ xs else x ∷ update_first p f xs

  abbrev pub any : (A → Bool) → List A → Bool
  any p [] = false
  any p (x ∷ xs) = p x || any p xs

  abbrev pub is_some : Option A → Bool
  is_some none = false
  is_some (some a) = true

module _ {ℓ} {A : Type ℓ} where
  pub get_elem?-get_or :
      (xs : List A) (i : ℕ) (d : A) → i < length xs → get_elem? xs i ≡ some (get_or xs i d)
  get_elem?-get_or [] i d h = elim h [ ]
  get_elem?-get_or (x ∷ xs) zero d h = refl
  get_elem?-get_or (x ∷ xs) (suc i) d h = get_elem?-get_or xs i d (omega arith)

  pub get_or-set :
      (xs : List A) (i j : ℕ) (v d : A)
      → i < length xs
      → get_or (set xs i v) j d ≡ (if i == j then v else get_or xs j d)
  get_or-set [] i j v d h = elim h [ ]
  get_or-set (x ∷ xs) zero zero v d h = ground arith
  get_or-set (x ∷ xs) zero (suc j) v d h = ground arith
  get_or-set (x ∷ xs) (suc i) zero v d h = ground arith
  get_or-set (x ∷ xs) (suc i) (suc j) v d h = get_or-set xs i j v d (omega arith) ∙ ground arith

pub get_or-replicate : (n i : ℕ) → ◌≡◌ {A = ℕ} (get_or (replicate n 0) i 0) 0
get_or-replicate zero i = refl
get_or-replicate (suc n) zero = refl
get_or-replicate (suc n) (suc i) = get_or-replicate n i

-- The numbers from `i` on, `n` of them.
unfoldable pub upto : ℕ → ℕ → List ℕ
upto i zero = []
upto i (suc n) = i ∷ upto (i + 1) n

pub upto-suc : (i n : ℕ) → upto i (suc n) ≡ upto i n ++ (i + n) ∷ []
unfolding upto
upto-suc i zero = ap (λ (k : ℕ). k ∷ []) (omega arith)
upto-suc i (suc n) =
    ap (λ (xs : List ℕ). i ∷ xs)
      (upto-suc (i + 1) n ∙ ap (λ (k : ℕ). upto (i + 1) n ++ k ∷ []) (omega arith))
