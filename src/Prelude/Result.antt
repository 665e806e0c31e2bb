-- ===== src/Prelude/Result.antt =====
-- Exceptions and mutable objects: a method takes the object and returns its result, or the
-- exception that it throws, with the object as it is then.
use fimex.Prelude.{none, some, refl, ap, ◌≡◌, Bool, true, false, List, [], ◌∷◌}

pub data Error : Type 0 where
  cdm_exception out_of_range runtime_error assertion_failed : Error

-- The value that a call returns, or what it throws.
pub data Result {ℓ} (R : Type ℓ) : Type ℓ where
  err : Error → Result R
  ok : R → Result R

-- The next call takes the value; an exception skips it.
infixl 5 ◌>>=◌
abbrev pub ◌>>=◌ {ℓ κ} : {R : Type ℓ} {T : Type κ} → Result R → (R → Result T) → Result T
err thrown >>= next = err thrown
ok value >>= next = next value

-- `if (!test) throw thrown`
abbrev pub guard : Bool → Error → Result (Unit {0})
guard false thrown = err thrown
guard true thrown = ok tt

infixl 5 ◌>>◌
abbrev pub ◌>>◌ {ℓ} : {T : Type ℓ} → Result (Unit {0}) → Result T → Result T
check >> after = check >>= λ _. after

-- The next statement on the object that the first one left; an exception skips it.
abbrev pub chain {ℓ κ σ} :
    {A : Type ℓ} {B : Type κ} {S : Type σ} → Result A × S → (A → S → Result B × S) → Result B × S
chain (ok a, s) f = f a s
chain (err e, s) f = (err e, s)

-- `try { ...; return true; } catch (...) { return false; }`
abbrev pub succeeded {ℓ σ} : {A : Type ℓ} {S : Type σ} → Result A × S → Bool × S
succeeded (ok a, s) = (true, s)
succeeded (err e, s) = (false, s)

-- `for (x : xs) step`, stopped by the first exception.
unfoldable pub for_each {ℓ σ} :
    {A : Type ℓ} {S : Type σ} → List A → (A → S → Result (Unit {0}) × S) → S → Result (Unit {0}) × S
for_each [] step s = (ok tt, s)
for_each (x ∷ xs) step s = chain (step x s) λ _ s'. for_each xs step s'

pub ok-injective {ℓ} : {A : Type ℓ} {a b : A} → ok a ≡ ok b → a ≡ b
ok-injective {a} h = ap (λ r. elim r [ ok x ↦ x | err e ↦ a ]) h

pub some-injective {ℓ} : {A : Type ℓ} {a b : A} → some a ≡ some b → a ≡ b
some-injective {a} h = ap (λ o. elim o [ some x ↦ x | none ↦ a ]) h

-- A statement that threw nothing is followed by the next one.
pub chain-eq_of_ok {ℓ κ σ} :
    {A : Type ℓ} {B : Type κ} {S : Type σ} (m : Result A × S) (f : A → S → Result B × S) {a : A}
    → m.0 ≡ ok a
    → chain m f ≡ f a m.1
chain-eq_of_ok (ok b, s) f h = ap (λ x. f x s) (ok-injective h)
chain-eq_of_ok (err e, s) f h = cc

-- What a call that returned tells of its two parts.
pub both_returned {ℓ κ} :
    {R : Type ℓ} {T : Type κ} (first : Result R) (next : R → Result T) {result : T}
    → (first >>= next) ≡ ok result
    → (value : R) × (first ≡ ok value) × (next value ≡ ok result)
both_returned (err thrown) next e = cc
both_returned (ok value) next e = (value, refl, e)
