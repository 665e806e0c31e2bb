-- ===== src/Merge/Insert.antt =====
-- Sets of names that grow: what insert_all leaves, and how many of given names are missing.
use fimex.Prelude.Dict.{member-insert, insert, lookup, member, NameSet, keys}
use fimex.Merge.{insert_all}
use fimex.Prelude.Text.{str_eq_refl, str_eq, eq_iff, contains}
use fimex.Prelude.{
  ◌∙◌, ap, inr, sym, inl, Bool-cases, refl, [], ◌<◌, ◌+◌, ◌≤◌, not, ◌||◌, true, arith,
  if◌then◌else◌, false, ◌∷◌, ◌≡◌, Bool, String, List, ℕ,
}

-- The names of a universe that are not in a set yet
unfoldable pub missing : List String → NameSet → ℕ
missing [] s = 0
missing (u ∷ us) s = (if member u s then 0 else 1) + missing us s

pub contains-keys : (n : String) (s : NameSet) → contains n (keys s) ≡ member n s
unfolding contains keys member lookup
contains-keys n [] = refl
contains-keys n ((k, u) ∷ s) = ground (arith, contains-keys n s, eq_iff n k, eq_iff k n)

pub member-insert_all :
    (d : String) (ns : List String) (b : Bool) (s : NameSet)
    → member d (insert_all ns (b, s)).1 ≡ (contains d ns || member d s)
unfolding insert_all contains
member-insert_all d [] b s = refl
member-insert_all d (n ∷ ns) b s = ground (
  arith,
  member-insert_all d ns (b || not (member n s)) (insert n tt s),
  member-insert d n s,
  eq_iff d n,
  eq_iff n d,
)

-- If nothing was inserted, all was there.
pub insert_all-nothing :
    (ns : List String) (b : Bool) (s : NameSet)
    → (insert_all ns (b, s)).0 ≡ false
    → (b ≡ false) × ((d : String) → contains d ns ≡ true → member d s ≡ true)
unfolding insert_all contains
insert_all-nothing [] b s h = (h, λ d e. ground arith)
insert_all-nothing (n ∷ ns) b s h =
    let (q, all) = insert_all-nothing ns (b || not (member n s)) (insert n tt s) h in
    (ground arith, λ d e. ground (arith, all d, member-insert d n s, eq_iff d n, eq_iff n d))

missing-le :
    (us : List String) (s t : NameSet)
    → ((d : String) → member d s ≡ true → member d t ≡ true)
    → missing us t ≤ missing us s
unfolding missing
missing-le [] s t h = omega arith
missing-le (u ∷ us) s t h = ground (arith, missing-le us s t h, h u)

missing-lt :
    (us : List String) (n : String) (s : NameSet)
    → contains n us ≡ true
    → member n s ≡ false
    → missing us (insert n tt s) < missing us s
unfolding missing contains
missing-lt [] n s e m = cc
missing-lt (u ∷ us) n s e m = elim (Bool-cases (str_eq n u)) [
  | inl q ↦
      let same : u ≡ n = sym ((eq_iff n u).0 q) in
      let now : member u (insert n tt s) ≡ true = ground (arith, member-insert u n s, eq_iff n u) in
      let before : member u s ≡ false = ap (λ (x : String). member x s) same ∙ m in
      let rest = missing-le us s (insert n tt s) (λ d h. ground (arith, member-insert d n s, h)) in
      rw (now, before) (omega (arith, rest))
  | inr q ↦
      let other : member u (insert n tt s) ≡ member u s =
        ground (arith, member-insert u n s, q, eq_iff n u) in
      let rest = missing-lt us n s (ground (arith, e, q)) m in rw other (omega (arith, rest))
]

insert_step :
    (us : List String) (n : String) (b : Bool) (s : NameSet)
    → contains n us ≡ true
    → missing us (insert n tt s) + (if b || not (member n s) then 1 else 0)
      ≤ missing us s + (if b then 1 else 0)
insert_step us n b s h = elim (Bool-cases (member n s)) [
  | inl m ↦
      let le = missing-le us s (insert n tt s) (λ d e. ground (arith, member-insert d n s, e)) in
      ground (arith, le, m)
  | inr m ↦ let lt = missing-lt us n s h m in ground (arith, lt, m)
]

-- An insertion leaves fewer names missing.
pub missing-insert_all :
    (us ns : List String) (b : Bool) (s : NameSet)
    → ((d : String) → contains d ns ≡ true → contains d us ≡ true)
    → missing us (insert_all ns (b, s)).1 + (if (insert_all ns (b, s)).0 then 1 else 0)
      ≤ missing us s + (if b then 1 else 0)
unfolding insert_all contains
missing-insert_all us [] b s h = omega arith
missing-insert_all us (n ∷ ns) b s h =
    let rest =
      missing-insert_all us ns (b || not (member n s)) (insert n tt s)
        (λ d e. h d (ground (arith, e))) in
    omega (arith, rest, insert_step us n b s (h n (ground (arith, str_eq_refl n))))
