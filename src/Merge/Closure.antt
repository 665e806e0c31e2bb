-- ===== src/Merge/Closure.antt =====
-- addAuxiliary as a whole: the least set that is closed under what its variables need.
use fimex.CoordinateSystem.{is_cs_and_complete_for, get_dependency_variables, CoordinateSystem}
use fimex.Prelude.Result.{ok, err, Result}
use fimex.Cdm.Variables.{get_variable, has_variable}
use fimex.Prelude.Named.{find_if-contains, names}
use fimex.Prelude.Text.{contains}
use fimex.Prelude.Dict.{keys, member, NameSet}
use fimex.Merge.{auxiliary_round, add_auxiliary, find_complete_coordinate_system_for}
use fimex.Merge.Insert.{
  missing-insert_all, contains-keys, insert_all-nothing, member-insert_all, missing,
}
use fimex.Merge.Needs.{
  all_needed-needs, dim_needed, all_needed-within, auxiliary_round_lem, needs, all_needed,
  dependency_names,
}
use fimex.Cdm.Model.{CdmVariable, Cdm}
use fimex.Prelude.Text.Lists.{contains-append}
use fimex.Prelude.{
  ◌&&◌, ap₂, subst, if◌then◌else◌, refl, ◌+◌, sym, inr, zero, ◌∙◌, suc, inl, some, ◌<◌, ap, ◌||◌,
  [], arith, Bool-cases, length, true, ◌++◌, false, ◌≤◌, ◌≡◌, Bool, ◌∷◌, String, List, ℕ,
}

-- All names that a run can come to: those that it starts with, the variables, and the dependency
-- variables of all coordinate systems.
unfoldable pub system_names : List CoordinateSystem → List String
system_names [] = []
system_names (cs ∷ coord_sys) = keys (get_dependency_variables cs) ++ system_names coord_sys

missing-le_length : (us : List String) (s : NameSet) → missing us s ≤ length us
unfolding missing
missing-le_length [] s = omega arith
missing-le_length (u ∷ us) s = ground (arith, missing-le_length us s)

dependency-system_names :
    (coord_sys : List CoordinateSystem) (n d : String)
    → contains d (dependency_names coord_sys n) ≡ true
    → contains d (system_names coord_sys) ≡ true
unfolding dependency_names find_complete_coordinate_system_for system_names contains
dependency-system_names [] n d h = cc
dependency-system_names (cs ∷ coord_sys) n d h = elim (Bool-cases (is_cs_and_complete_for n cs)) [
  | inl e ↦
      let mine : contains d (keys (get_dependency_variables cs)) ≡ true =
        rw (dependency_names, find_complete_coordinate_system_for, e) at h in
      contains-append d (keys (get_dependency_variables cs)) (system_names coord_sys) ∙ rw mine refl
  | inr e ↦
      let rest : contains d (dependency_names coord_sys n) ≡ true =
        rw (dependency_names, find_complete_coordinate_system_for, e) at h in
      let later = dependency-system_names coord_sys n d rest in
      contains-append d (keys (get_dependency_variables cs)) (system_names coord_sys)
      ∙ rw later (ground arith)
]

module _ {V : Type 0} (c : Cdm V) (coord_sys : List CoordinateSystem) where
  -- Whatever a variable of the set needs is in the set.
  abbrev pub IsClosed : NameSet → Type 0
  IsClosed t = (n d : String) → member n t ≡ true → needs c coord_sys n d ≡ true → member d t ≡ true

  abbrev pub Within : NameSet → NameSet → Type 0
  Within s t = (n : String) → member n s ≡ true → member n t ≡ true

  -- The least closed set around a set
  pub record IsClosure (s t : NameSet) : Type 0 where
    pub around : Within s t
    pub closed : IsClosed t
    pub least : (u : NameSet) → Within s u → IsClosed u → Within t u

  abbrev pub universe : NameSet → List String
  universe s = keys s ++ (names (λ v. v.name) c.variables ++ system_names coord_sys)

  abbrev round_of : NameSet → Bool × NameSet
  round_of s = auxiliary_round c coord_sys s

  member-round :
      (d : String) (s : NameSet)
      → member d (round_of s).1 ≡ (contains d (all_needed c coord_sys s) || member d s)
  member-round d s =
      ap (λ (r : Bool × NameSet). member d r.1) (auxiliary_round_lem c coord_sys s)
      ∙ member-insert_all d (all_needed c coord_sys s) false s

  -- A round stays within what is closed.
  round-within :
      (s : NameSet) (p : String → Bool)
      → ((n : String) → member n s ≡ true → p n ≡ true)
      → ((n d : String) → p n ≡ true → needs c coord_sys n d ≡ true → p d ≡ true)
      → (d : String) → member d (round_of s).1 ≡ true
      → p d ≡ true
  round-within s p start cl d h = elim (Bool-cases (member d s)) [
    | inl m ↦ start d m
    | inr m ↦ all_needed-within c coord_sys s p start cl d (early m (sym (member-round d s) ∙ h))
  ]
    where
      early : {a b : Bool} → b ≡ false → (a || b) ≡ true → a ≡ true
      early {a} {b} e q = ground arith

  round-around : (s : NameSet) → Within s (round_of s).1
  round-around s n m = member-round n s ∙ rw m (ground arith)

  round-IsClosed : (s : NameSet) → (round_of s).0 ≡ false → IsClosed (round_of s).1
  round-IsClosed s e n d m q =
      let nothing =
        ap (λ (r : Bool × NameSet). r.0) (sym (auxiliary_round_lem c coord_sys s)) ∙ e in
      let (u, there) = insert_all-nothing (all_needed c coord_sys s) false s nothing in
      let before : member n s ≡ true = either (sym (member-round n s) ∙ m) (there n) in
      round-around s d (there d (all_needed-needs c coord_sys s n d before q))
    where
      either : {a b : Bool} → (a || b) ≡ true → (a ≡ true → b ≡ true) → b ≡ true
      either {a} {b} h k = ground (arith, k)

  round-missing :
      (us : List String) (s : NameSet)
      → ((n d : String)
          → contains n us ≡ true
          → needs c coord_sys n d ≡ true
          → contains d us ≡ true)
      → ((n : String) → member n s ≡ true → contains n us ≡ true)
      → missing us (round_of s).1 + (if (round_of s).0 then 1 else 0) ≤ missing us s + 0
  round-missing us s cl w =
      subst (λ (r : Bool × NameSet). missing us r.1 + (if r.0 then 1 else 0) ≤ missing us s + 0)
        (sym (auxiliary_round_lem c coord_sys s))
        (missing-insert_all us (all_needed c coord_sys s) false s
          (all_needed-within c coord_sys s (λ n. contains n us) w cl))

  another_call :
      (fuel : ℕ) (s : NameSet)
      → (round_of s).0 ≡ true
      → add_auxiliary (suc fuel) c coord_sys s ≡ add_auxiliary fuel c coord_sys (round_of s).1
  unfolding add_auxiliary
  another_call fuel s e = rw e refl

  last_call :
      (fuel : ℕ) (s : NameSet)
      → (round_of s).0 ≡ false
      → add_auxiliary (suc fuel) c coord_sys s ≡ some (round_of s).1
  unfolding add_auxiliary
  last_call fuel s e = rw e refl

  add_auxiliary-from :
      (us : List String) (fuel : ℕ) (s : NameSet)
      → ((n d : String)
          → contains n us ≡ true
          → needs c coord_sys n d ≡ true
          → contains d us ≡ true)
      → ((n : String) → member n s ≡ true → contains n us ≡ true)
      → missing us s < fuel
      → (t : NameSet) × (add_auxiliary fuel c coord_sys s ≡ some t) × IsClosure s t
  add_auxiliary-from us zero s cl w h = elim h [ ]
  add_auxiliary-from us (suc fuel) s cl w h =
      let less = round-missing us s cl w in
      elim (Bool-cases (round_of s).0) [
        | inl more ↦
            let fewer : missing us (round_of s).1 + 1 ≤ missing us s + 0 = rw more at less in
            let (t, e, i) =
              add_auxiliary-from us fuel (round_of s).1 cl
                (round-within s (λ n. contains n us) w cl) (omega (arith, fewer, h)) in
            (
              t,
              another_call fuel s more ∙ e,
              record {
                around = λ n m. i.around n (round-around s n m);
                closed = i.closed;
                least = λ u w' cl'. i.least u (round-within s (λ n. member n u) w' cl') cl';
              },
            )
        | inr done ↦ (
          (round_of s).1,
          last_call fuel s done,
          record {
            around = round-around s;
            closed = round-IsClosed s done;
            least = λ u w' cl'. round-within s (λ n. member n u) w' cl';
          },
        )
      ]

  in_universe :
      (s : NameSet) (d : String)
      → contains d (universe s)
        ≡ (member d s || (has_variable d c || contains d (system_names coord_sys)))
  unfolding has_variable
  in_universe s d =
      contains-append d (keys s) _
      ∙ ap₂ (λ (a b : Bool). a || b) (contains-keys d s)
          (contains-append d (names (λ v. v.name) c.variables) (system_names coord_sys)
            ∙ ap (λ (b : Bool). b || contains d (system_names coord_sys)) (sym (is_variable d)))
    where
      is_variable : (k : String) → has_variable k c ≡ contains k (names (λ v. v.name) c.variables)
      is_variable k = find_if-contains (λ v. v.name) k c.variables

  needs-universe :
      (s : NameSet) (n d : String) → needs c coord_sys n d ≡ true → contains d (universe s) ≡ true
  unfolding needs dim_needed
  needs-universe s n d h = in_universe s d ∙ elim (Bool-cases (dim_needed c n d)) [
    | inl e ↦ rw (dim_needed-variable e) (ground arith)
    | inr e ↦ rw (dependency-system_names coord_sys n d (late e h)) (ground arith)
  ]
    where
      late : {a b : Bool} → a ≡ false → (a || b) ≡ true → b ≡ true
      late {a} {b} e q = ap (λ (x : Bool). x || b) (sym e) ∙ q

      dim_needed-variable : dim_needed c n d ≡ true → has_variable d c ≡ true
      dim_needed-variable e = of_result (get_variable n c) e
        where
          of_result :
              (r : Result (CdmVariable V))
              → elim r [ err x ↦ false | ok v ↦ contains d v.shape && has_variable d c ] ≡ true
              → has_variable d c ≡ true
          of_result (err x) q = cc
          of_result (ok v) q = ground arith

  -- addAuxiliary returns after at most one call for each of the names that it starts with, of the
  -- variables, and of the dependency variables of the coordinate systems; what it returns holds the
  -- names that it starts with, and with a variable also the variables that are its dimensions and
  -- those that its complete coordinate system depends on; and it holds nothing but what every such
  -- set holds.
  pub add_auxiliary-IsClosure :
      (variables : NameSet) (fuel : ℕ)
      → length (universe variables) < fuel
      → (t : NameSet) × (add_auxiliary fuel c coord_sys variables ≡ some t) × IsClosure variables t
  add_auxiliary-IsClosure variables fuel h =
      let le = missing-le_length (universe variables) variables in
      add_auxiliary-from (universe variables) fuel variables
        (λ n d m q. needs-universe variables n d q) (λ n m. in_universe variables n ∙ rw m refl)
        (omega (arith, le, h))
