-- ===== src/FimexTime/Order/Lexicographic.antt =====
-- The order of times is that of their fields (include/fimex/FimexTime.h).
use fimex.FimexTime.{FimexTime}
use fimex.FimexTime.Order.{time_le, below, time_ge, weighted, to_long, time_lt, time_gt, above}
use fimex.Prelude.{
  inr, ltb→lt, inl, Bool-cases, ap, not, ◌≤◌, ◌==◌, ◌∙◌, ap₂, arith, [], suc, if◌then◌else◌, refl,
  ◌+◌, ltb, Bool, ◌≡◌, ◌*◌, ◌∷◌, ◌<◌, ℕ, List, true, false,
}
use native.Mathlib.Nat.{mul-le-mul_right, suc-mul}

-- The first field in which two times differ decides.
unfoldable pub lexicographic : List ℕ → List ℕ → Bool
lexicographic [] _ = false
lexicographic (x ∷ xs) [] = true
lexicographic (x ∷ xs) (y ∷ ys) = if x == y then lexicographic xs ys else ltb y x

abbrev pub fields : FimexTime → List ℕ
fields t = t.year ∷ t.month ∷ t.mday ∷ t.hour ∷ t.minute ∷ t.second ∷ t.msecond ∷ []

-- The fields of a time are in the ranges for which toLong has room.
pub record HasRoom (t : FimexTime) : Type 0 where
  pub months : t.month < 100
  pub mdays : t.mday < 100
  pub hours : t.hour < 100
  pub minutes : t.minute < 100
  pub seconds : t.second < 100
  pub mseconds : t.msecond < 1000

small_char : (c : ℕ) → c < 100 → (above c ≡ c) × (below c ≡ 0)
unfolding above below
small_char c h = let l : ltb c 128 ≡ true = ground (arith, h) in (rw l refl, rw l refl)

to_long-HasRoom :
    (t : FimexTime)
    → HasRoom t
    → to_long t ≡ (weighted t.year t.month t.mday t.hour t.minute t.second t.msecond, 0)
unfolding to_long weighted
to_long-HasRoom t r =
    let (a, a') = small_char t.month r.months in
    let (b, b') = small_char t.mday r.mdays in
    let (c, c') = small_char t.hour r.hours in
    let (d, d') = small_char t.minute r.minutes in
    let (e, e') = small_char t.second r.seconds in rw (a, b, c, d, e, a', b', c', d', e') refl

-- The higher number decides, if the lower ones stay below its weight.
wider : (m a b x y : ℕ) → x < m → a < b → a * m + x < b * m + y
wider m a b x y h l =
    let le : suc a * m ≤ b * m = mul-le-mul_right m l in omega (arith, le, suc-mul a m, h)

step :
    (m a b x y : ℕ) {rest : Bool}
    → x < m
    → y < m
    → ltb y x ≡ rest
    → ltb (b * m + y) (a * m + x) ≡ (if a == b then rest else ltb b a)
step m a b x y h k lower = elim (Bool-cases (ltb a b)) [
  | inl l ↦ ground (arith, l, wider m a b x y h (ltb→lt a b l))
  | inr l ↦ elim (Bool-cases (ltb b a)) [
    | inl g ↦ ground (arith, g, wider m b a y x k (ltb→lt b a g))
    | inr g ↦ let same : a ≡ b = ground (arith, l, g) in rw same (ground (arith, lower))
  ]
]

-- The sums of the lower fields
seconds_sum : FimexTime → ℕ
seconds_sum t = t.second * 1000 + t.msecond

minutes_sum : FimexTime → ℕ
minutes_sum t = t.minute * 100000 + seconds_sum t

hours_sum : FimexTime → ℕ
hours_sum t = t.hour * 10000000 + minutes_sum t

mdays_sum : FimexTime → ℕ
mdays_sum t = t.mday * 1000000000 + hours_sum t

months_sum : FimexTime → ℕ
months_sum t = t.month * 100000000000 + mdays_sum t

years_sum : FimexTime → ℕ
years_sum t = t.year * 10000000000000 + months_sum t

record Bounded (t : FimexTime) : Type 0 where
  seconds : seconds_sum t < 100000
  minutes : minutes_sum t < 10000000
  hours : hours_sum t < 1000000000
  mdays : mdays_sum t < 100000000000
  months : months_sum t < 10000000000000

HasRoom-Bounded : (t : FimexTime) → HasRoom t → Bounded t
unfolding seconds_sum minutes_sum hours_sum mdays_sum months_sum
HasRoom-Bounded t r =
    let s : seconds_sum t < 100000 = omega (arith, r.seconds, r.mseconds) in
    let m : minutes_sum t < 10000000 = omega (arith, r.minutes, s) in
    let h : hours_sum t < 1000000000 = omega (arith, r.hours, m) in
    let d : mdays_sum t < 100000000000 = omega (arith, r.mdays, h) in
    record { seconds = s; minutes = m; hours = h; mdays = d; months = omega (arith, r.months, d) }

years_sum-weighted :
    (t : FimexTime)
    → weighted t.year t.month t.mday t.hour t.minute t.second t.msecond ≡ years_sum t
unfolding weighted years_sum months_sum mdays_sum hours_sum minutes_sum seconds_sum
years_sum-weighted t = omega arith

years_sum-lexicographic :
    (s t : FimexTime)
    → HasRoom s
    → HasRoom t
    → ltb (years_sum t) (years_sum s) ≡ lexicographic (fields s) (fields t)
unfolding lexicographic years_sum months_sum mdays_sum hours_sum minutes_sum seconds_sum
years_sum-lexicographic s t p q =
    let b = HasRoom-Bounded s p in
    let d = HasRoom-Bounded t q in
    step 10000000000000 s.year t.year (months_sum s) (months_sum t) b.months d.months (
      step 100000000000 s.month t.month (mdays_sum s) (mdays_sum t) b.mdays d.mdays (
        step 1000000000 s.mday t.mday (hours_sum s) (hours_sum t) b.hours d.hours (
          step 10000000 s.hour t.hour (minutes_sum s) (minutes_sum t) b.minutes d.minutes (
            step 100000 s.minute t.minute (seconds_sum s) (seconds_sum t) b.seconds d.seconds (
              step 1000 s.second t.second s.msecond t.msecond p.mseconds q.mseconds
                (ground arith))))))

parts_sum : (s t : FimexTime) → HasRoom s → HasRoom t → (to_long t).0 + (to_long s).1 ≡ years_sum t
parts_sum s t p q =
    rw (to_long-HasRoom s p, to_long-HasRoom t q) (omega (arith, years_sum-weighted t))

gt_lem :
    (s t : FimexTime) → HasRoom s → HasRoom t → time_gt s t ≡ lexicographic (fields s) (fields t)
unfolding time_gt
gt_lem s t p q = ap₂ ltb (parts_sum s t p q) (parts_sum t s q p) ∙ years_sum-lexicographic s t p q

-- Times whose month, day, hour, minute and second are at most 99 and whose milliseconds are at most
-- 999 are ordered by the first of these fields, from the year on, in which they differ; operator<,
-- operator>= and operator<= agree with this order.
pub time_gt-lexicographic :
    (s t : FimexTime)
    → HasRoom s
    → HasRoom t
    → (time_gt s t ≡ lexicographic (fields s) (fields t))
      × (time_lt s t ≡ lexicographic (fields t) (fields s))
      × (time_ge s t ≡ not (lexicographic (fields t) (fields s)))
      × (time_le s t ≡ not (lexicographic (fields s) (fields t)))
unfolding time_lt time_ge time_le
time_gt-lexicographic s t p q =
    let up = gt_lem s t p q in let down = gt_lem t s q p in (up, down, ap not down, ap not up)
