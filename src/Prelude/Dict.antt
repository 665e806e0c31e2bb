-- ===== src/Prelude/Dict.antt =====
-- `std::map<std::string, V>` as the list of its entries in the order of the keys, and
-- `std::set<std::string>` as such a map of units.
use fimex.Prelude.{
  String, ◌≡◌, refl, Bool, true, false, Option, none, some, List, [], ◌∷◌, arith, if◌then◌else◌,
}
use fimex.Prelude.Text.{str_eq, str_ltb, eq_iff}

abbrev pub Dict {ℓ} : Type ℓ → Type ℓ
Dict V = List (String × V)

module _ {ℓ} {V : Type ℓ} where
  -- m.find(k)
  unfoldable pub lookup : String → Dict V → Option V
  lookup k [] = none
  lookup k ((key, value) ∷ rest) = if str_eq key k then some value else lookup k rest

  -- m[k] = v
  unfoldable pub insert : String → V → Dict V → Dict V
  insert k v ((key, value) ∷ rest) =
      if str_eq key k
      then (k, v) ∷ rest
      else (if str_ltb k key then (k, v) ∷ (key, value) ∷ rest else (key, value) ∷ insert k v rest)
  insert k v [] = (k, v) ∷ []

  -- m.erase(k)
  unfoldable pub erase : String → Dict V → Dict V
  erase k [] = []
  erase k ((j, w) ∷ m) = if str_eq j k then erase k m else (j, w) ∷ erase k m

  unfoldable pub keys : Dict V → List String
  keys [] = []
  keys ((j, w) ∷ m) = j ∷ keys m

  -- The entry at `asked` once the entry at `stored` is written.
  pub lookup-insert :
      (stored asked : String) (value : V) (m : Dict V)
      → lookup asked (insert stored value m)
        ≡ (if str_eq stored asked then some value else lookup asked m)
  unfolding lookup insert
  lookup-insert stored asked value ((key, old) ∷ rest) = ground (
    arith,
    lookup-insert stored asked value rest,
    eq_iff key asked,
    eq_iff key stored,
    eq_iff stored asked,
  )
  lookup-insert stored asked value [] = refl

  pub lookup-insert_same :
      (k j : String) (v : V) (m : Dict V) → str_eq k j ≡ true → lookup j (insert k v m) ≡ some v
  lookup-insert_same k j v m e = rw (lookup-insert k j v m, e) refl

  pub lookup-insert_other :
      (k j : String) (v : V) (m : Dict V)
      → str_eq k j ≡ false
      → lookup j (insert k v m) ≡ lookup j m
  lookup-insert_other k j v m e = rw (lookup-insert k j v m, e) refl

  pub lookup-erase :
      (k j : String) (m : Dict V) → lookup j (erase k m) ≡ (if str_eq k j then none else lookup j m)
  unfolding lookup erase
  lookup-erase k j [] = ground arith
  lookup-erase k j ((i, w) ∷ m) =
      ground (arith, eq_iff k j, eq_iff i k, eq_iff i j, lookup-erase k j m)

pub ruleset dict_laws = (lookup-insert, lookup-erase)

-- std::set<std::string>
abbrev pub NameSet : Type 0
NameSet = Dict (Unit {0})

unfoldable pub member : String → NameSet → Bool
unfolding lookup
member k s = elim (lookup k s) [ none ↦ false | some _ ↦ true ]

pub member-cons :
    (n k : String) (u : Unit {0}) (names : NameSet)
    → member n ((k, u) ∷ names) ≡ (if str_eq k n then true else member n names)
unfolding member lookup
member-cons n k u names = ground arith

pub member-insert :
    (n k : String) (names : NameSet)
    → member n (insert k tt names) ≡ (if str_eq k n then true else member n names)
unfolding member
member-insert n k names = ground (arith, lookup-insert k n tt names)
