-- ===== src/FimexTime/Dots.antt =====
-- The expansion of dots in lists of numbers (include/fimex/TokenizeDotted.h): which values it puts
-- in, and when it does not end.
use fimex.FimexTime.Doubles.{dots_go_on-growing, dots_go_on-level, IsIeee}
use fimex.FimexTime.Parse.{int_numbers}
use fimex.FimexTime.Numbers.{
  dots_go_on, Double, int_limit, string2type, expand_dots, after_dots, Numbers,
}
use mathlib.Core.List.{reverse, reverse-cons, append_assoc}
use native.Mathlib.Nat.{suc-mul}
use fimex.Prelude.{
  if◌then◌else◌, ap, sym, lt→ltb, ◌∙◌, ◌-◌, inr, ◌%◌, ltb→lt, inl, Bool-cases, arith, ◌*◌, ◌≤◌,
  ◌++◌, zero, refl, some, ltb, none, ◌∷◌, ◌+◌, ◌≡◌, suc, ◌^◌, [], ◌<◌, List, ℕ, true, false,
}
use fimex.Prelude.Result.{ok}
use fimex.StringUtils.{Bytes}

-- k values from the first on, at a distance
unfoldable pub arithmetic : ℕ → ℕ → ℕ → List ℕ
arithmetic first dist zero = []
arithmetic first dist (suc k) = first ∷ arithmetic (first + dist) dist k

-- The distances of the next value and of those behind it
shift : (current dist j : ℕ) → current + suc j * dist ≡ current + dist + j * dist
shift current dist j = omega (arith, suc-mul j dist)

module _ {D : Type 0} (double : Double D) (ieee : IsIeee double) (dist after : ℕ)
    (positive : 0 < dist) (small : dist < 100000) (room : after + dist < 2 ^ 31) where
  -- The values from `current` on that are below `after` are put in.
  abbrev pub Expanded : ℕ → ℕ → List ℕ → Type 0
  Expanded fuel current vals =
      (k : ℕ) × (expand_dots (int_numbers double) fuel dist after current vals
        ≡ some (reverse (arithmetic current dist k) ++ vals))
      × (after ≤ current + k * dist)
      × ((j : ℕ) → j < k → current + j * dist < after)

  one_more :
      (fuel current : ℕ) (vals : List ℕ)
      → current < after
      → Expanded fuel (current + dist) (current ∷ vals)
      → Expanded (suc fuel) current vals
  unfolding expand_dots arithmetic
  one_more fuel current vals below (k, e, top, inside) =
      let test : dots_go_on (int_numbers double) dist after current ≡ true =
        dots_go_on-growing double ieee dist after current positive small (omega (arith, room))
          (omega (arith, below, room))
        ∙ lt→ltb current after below in
      let next : (current + dist) % 2 ^ 32 ≡ current + dist = omega (arith, below, room) in
      let order : reverse (arithmetic (current + dist) dist k) ++ current ∷ vals
          ≡ reverse (arithmetic current dist (suc k)) ++ vals =
        sym (
          ap (λ (l : List ℕ). l ++ vals) (reverse-cons current (arithmetic (current + dist) dist k))
          ∙ append_assoc (reverse (arithmetic (current + dist) dist k)) (current ∷ []) vals) in
      (
        suc k,
        rw (test, next) (e ∙ ap (λ (l : List ℕ). some l) order),
        omega (arith, top, shift current dist k),
        first_inside,
      )
    where
      first_inside : (j : ℕ) → j < suc k → current + j * dist < after
      first_inside zero h = omega (arith, below)
      first_inside (suc j) h = omega (arith, inside j (omega (arith, h)), shift current dist j)

  expand_dots-arithmetic :
      (fuel current : ℕ) (vals : List ℕ)
      → after - current < fuel
      → current < 2 ^ 31
      → Expanded fuel current vals
  unfolding expand_dots arithmetic
  expand_dots-arithmetic zero current vals enough bound = absurd (omega (arith, enough))
  expand_dots-arithmetic (suc fuel) current vals enough bound =
      elim (Bool-cases (ltb current after)) [
        | inl l ↦
            let below = ltb→lt current after l in
            one_more fuel current vals below (
              expand_dots-arithmetic fuel (current + dist) (current ∷ vals)
                (omega (arith, enough, positive, below)) (omega (arith, below, room)))
        | inr g ↦
            let test : dots_go_on (int_numbers double) dist after current ≡ false =
              dots_go_on-growing double ieee dist after current positive small (omega (arith, room))
                bound
              ∙ g in
            (0, rw (expand_dots, test) refl, ground (arith, g), (λ j h. absurd (omega (arith, h))))
      ]

module _ {D : Type 0} (double : Double D) (ieee : IsIeee double) where
  -- At the distance 0 each round leaves the value, and with it the test, as it is.
  expand_dots-endless :
      (after value : ℕ)
      → after < value
      → value < 2 ^ 31
      → (fuel : ℕ) (vals : List ℕ) → expand_dots (int_numbers double) fuel 0 after value vals ≡ none
  unfolding expand_dots
  expand_dots-endless after value above bound zero vals = refl
  expand_dots-endless after value above bound (suc fuel) vals =
      let test =
        dots_go_on-level double ieee after value (omega (arith, above, bound)) bound
        ∙ lt→ltb after value above in
      let same : (value + 0) % 2 ^ 32 ≡ value = omega (arith, bound) in
      rw (test, same) (expand_dots-endless after value above bound fuel (value ∷ vals))

  expand_dots-level :
      (after value : ℕ)
      → after < 2 ^ 31
      → value < 2 ^ 31
      → (fuel : ℕ) (vals : List ℕ)
      → expand_dots (int_numbers double) (suc fuel) 0 after value vals
        ≡ (if ltb after value then none else some vals)
  unfolding expand_dots
  expand_dots-level after value a bound fuel vals = elim (Bool-cases (ltb after value)) [
    | inl l ↦ rw l (expand_dots-endless after value (ltb→lt after value l) bound (suc fuel) vals)
    | inr g ↦ rw (expand_dots, dots_go_on-level double ieee after value a bound ∙ g, g) refl
  ]

  -- Two equal values of `int` before the dots that are not negative, and behind the dots a value that
  -- is not negative either: if this is below them, the loop does not end, that is, whatever the
  -- fuel, there is no result; otherwise nothing is put in but the value behind the dots.
  pub after_dots-level :
      (value after : ℕ) (tok : Bytes) (vals : List ℕ)
      → string2type int_limit tok ≡ ok after
      → after < 2 ^ 31
      → value < 2 ^ 31
      → (fuel : ℕ)
      → after_dots (int_numbers double) (suc fuel) tok (value ∷ value ∷ vals)
        ≡ (if ltb after value then none else some (ok (after ∷ value ∷ value ∷ vals)))
  unfolding after_dots
  after_dots-level value after tok vals read a bound fuel =
      let level : (value + 2 ^ 32 - value) % 2 ^ 32 ≡ 0 = omega arith in
      let same : (value + 0) % 2 ^ 32 ≡ value = omega (arith, bound) in
      let expanded = expand_dots-level after value a bound fuel (value ∷ value ∷ vals) in
      elim (Bool-cases (ltb after value)) [
        | inl l ↦ rw (after_dots, read, level, same, expanded, l) refl
        | inr g ↦ rw (after_dots, read, level, same, expanded, g) refl
      ]

after_dots-expanded :
    {T D : Type 0} (numbers : Numbers T D) (fuel : ℕ) (tok : Bytes)
    (previous last after dist next : T) (vals : List T) {expanded : List T}
    → numbers.of_text tok ≡ ok after
    → numbers.minus last previous ≡ dist
    → numbers.plus last dist ≡ next
    → expand_dots numbers fuel dist after next (last ∷ previous ∷ vals) ≡ some expanded
    → after_dots numbers fuel tok (last ∷ previous ∷ vals) ≡ some (ok (after ∷ expanded))
unfolding after_dots
after_dots-expanded numbers fuel tok previous last after dist next vals read minus plus e =
    rw (after_dots, read, minus, plus, e) refl

-- Two growing values of `int` before the dots and a value behind them that does not overflow with
-- the distance: with more rounds than the values are apart the loop ends, and puts in, in their
-- order, exactly the values at that distance below the one behind the dots, and then this one. The
-- values are not negative, and less than 100000 apart.
pub after_dots-arithmetic :
    {D : Type 0} (double : Double D) (fuel previous last after : ℕ) (tok : Bytes) (vals : List ℕ)
    → IsIeee double
    → previous < last
    → last - previous < 100000
    → last + (last - previous) < 2 ^ 31
    → after + (last - previous) < 2 ^ 31
    → string2type int_limit tok ≡ ok after
    → after - (last + (last - previous)) < fuel
    → (k : ℕ) × (after_dots (int_numbers double) fuel tok (last ∷ previous ∷ vals)
        ≡ some (
            ok (
              after ∷ reverse (arithmetic (last + (last - previous)) (last - previous) k)
              ++ last ∷ previous ∷ vals)))
      × (after ≤ last + (last - previous) + k * (last - previous))
      × ((j : ℕ) → j < k → last + (last - previous) + j * (last - previous) < after)
after_dots-arithmetic double fuel previous last after tok vals ieee grows small room room' read
      enough =
    let dist = last - previous in
    let minus : (last + 2 ^ 32 - previous) % 2 ^ 32 ≡ dist = omega (arith, grows, room) in
    let plus : (last + dist) % 2 ^ 32 ≡ last + dist = omega (arith, room) in
    let (k, e, top, inside) =
      expand_dots-arithmetic double ieee dist after (omega (arith, grows)) small room' fuel
        (last + dist) (last ∷ previous ∷ vals) enough room in
    (
      k,
      after_dots-expanded (int_numbers double) fuel tok previous last after dist (last + dist) vals
          read minus plus e,
      top,
      inside,
    )
