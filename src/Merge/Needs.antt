-- ===== src/Merge/Needs.antt =====
-- One round of addAuxiliary: it inserts exactly the names that the names before need.
use fimex.CoordinateSystem.{get_dependency_variables, CoordinateSystem}
use fimex.Merge.Insert.{member-insert_all, contains-keys}
use fimex.Prelude.Result.{Result, ok, err}
use fimex.Cdm.Variables.{has_variable, get_variable}
use fimex.Prelude.Dict.{member-insert, keys, insert, member, NameSet}
use fimex.Prelude.Text.{eq_iff, str_eq, contains}
use fimex.Cdm.Model.{CdmVariable, Cdm}
use fimex.Merge.{
  auxiliary_round, find_complete_coordinate_system_for, insert_all, insert_dependencies, shape_vars,
  dims_vars_of,
}
use fimex.Prelude.Text.Lists.{contains-append, any-intro, any-elim}
use fimex.Prelude.{
  none, some, sym, false, inr, ap, arith, ◌∙◌, inl, not, Bool-cases, ◌&&◌, refl, Option-cases, ◌||◌,
  true, any, [], ◌∷◌, Bool, ◌≡◌, ◌++◌, String, List,
}

-- The dependency variables of the coordinate system of a variable
unfoldable pub dependency_names : List CoordinateSystem → String → List String
dependency_names coord_sys n = elim (find_complete_coordinate_system_for coord_sys n) [
  | none ↦ []
  | some cs ↦ keys (get_dependency_variables cs)
]

unfoldable pub all_dependencies : List CoordinateSystem → List String → List String
all_dependencies coord_sys [] = []
all_dependencies coord_sys (n ∷ ns) = dependency_names coord_sys n ++ all_dependencies coord_sys ns

contains-all_dependencies :
    (coord_sys : List CoordinateSystem) (d : String) (ns : List String)
    → contains d (all_dependencies coord_sys ns)
      ≡ any (λ n. contains d (dependency_names coord_sys n)) ns
unfolding all_dependencies contains
contains-all_dependencies coord_sys d [] = refl
contains-all_dependencies coord_sys d (n ∷ ns) =
    contains-append d (dependency_names coord_sys n) (all_dependencies coord_sys ns)
    ∙ ap (λ (b : Bool). contains d (dependency_names coord_sys n) || b)
        (contains-all_dependencies coord_sys d ns)

insert_all-append :
    (xs ys : List String) (s : Bool × NameSet)
    → insert_all (xs ++ ys) s ≡ insert_all ys (insert_all xs s)
unfolding insert_all
insert_all-append [] ys s = refl
insert_all-append (x ∷ xs) ys (b, s) =
    insert_all-append xs ys (b || not (member x s), insert x tt s)

insert_dependencies_lem :
    (coord_sys : List CoordinateSystem) (ns : List String) (s : Bool × NameSet)
    → insert_dependencies coord_sys ns s ≡ insert_all (all_dependencies coord_sys ns) s
unfolding insert_dependencies all_dependencies dependency_names insert_all
insert_dependencies_lem coord_sys [] s = refl
insert_dependencies_lem coord_sys (n ∷ ns) s =
    elim (Option-cases (find_complete_coordinate_system_for coord_sys n)) [
      | inl e ↦
          rw (insert_dependencies, all_dependencies, dependency_names, e)
            (insert_dependencies_lem coord_sys ns s)
      | inr (cs, e) ↦
          rw (insert_dependencies, all_dependencies, dependency_names, e)
            (insert_dependencies_lem coord_sys ns _
              ∙ sym (
                  insert_all-append (keys (get_dependency_variables cs))
                    (all_dependencies coord_sys ns) s))
    ]

module _ {V : Type 0} where
  -- Whether `d` is a variable and a dimension of the variable `n`
  unfoldable pub dim_needed : Cdm V → String → String → Bool
  dim_needed c n d = elim (get_variable n c) [
    | err e ↦ false
    | ok v ↦ contains d v.shape && has_variable d c
  ]

  member-shape_vars :
      (c : Cdm V) (d : String) (shape : List String) (acc : NameSet)
      → member d (shape_vars c shape acc) ≡ ((contains d shape && has_variable d c) || member d acc)
  unfolding shape_vars contains
  member-shape_vars c d [] acc = refl
  member-shape_vars c d (e ∷ shape) acc = elim (Bool-cases (str_eq d e)) [
    | inl q ↦
        let same : has_variable e c ≡ has_variable d c =
          ap (λ (s : String). has_variable s c) (sym ((eq_iff d e).0 q)) in
        rw same (
          ground (
            arith,
            member-shape_vars c d shape acc,
            member-shape_vars c d shape (insert e tt acc),
            member-insert d e acc,
            q,
            eq_iff d e,
            eq_iff e d,
          ))
    | inr q ↦ ground (
      arith,
      member-shape_vars c d shape acc,
      member-shape_vars c d shape (insert e tt acc),
      member-insert d e acc,
      q,
      eq_iff d e,
      eq_iff e d,
    )
  ]

  member-dims_vars_of :
      (c : Cdm V) (d : String) (ns : List String) (acc : NameSet)
      → member d (dims_vars_of c ns acc) ≡ (any (λ n. dim_needed c n d) ns || member d acc)
  unfolding dims_vars_of dim_needed
  member-dims_vars_of c d [] acc = refl
  member-dims_vars_of c d (n ∷ ns) acc =
      let here = found (get_variable n c) in
      let rest = member-dims_vars_of c d ns _ in
      rest
      ∙ ap (λ (b : Bool). any (λ m. dim_needed c m d) ns || b) here
      ∙ swap (any (λ m. dim_needed c m d) ns) _ (member d acc)
    where
      found :
          (r : Result (CdmVariable V))
          → member d (elim r [ err e ↦ acc | ok v ↦ shape_vars c v.shape acc ]) ≡ (
              elim r [ err e ↦ false | ok v ↦ contains d v.shape && has_variable d c ]
              || member d acc)
      found (err e) = refl
      found (ok v) = member-shape_vars c d v.shape acc

      swap : (a b m : Bool) → (a || (b || m)) ≡ ((b || a) || m)
      swap true true m = refl
      swap true false m = refl
      swap false true m = refl
      swap false false m = refl

  -- Whether addAuxiliary adds `d` for the variable `n`.
  unfoldable pub needs : Cdm V → List CoordinateSystem → String → String → Bool
  needs c coord_sys n d = dim_needed c n d || contains d (dependency_names coord_sys n)

  -- The names inserted in a round
  unfoldable pub dims_needed : Cdm V → NameSet → List String
  dims_needed c s = keys (dims_vars_of c (keys s) [])

  unfoldable pub all_needed : Cdm V → List CoordinateSystem → NameSet → List String
  all_needed c coord_sys s =
      dims_needed c s
      ++ all_dependencies coord_sys (keys (insert_all (dims_needed c s) (false, s)).1)

  pub auxiliary_round_lem :
      (c : Cdm V) (coord_sys : List CoordinateSystem) (s : NameSet)
      → auxiliary_round c coord_sys s ≡ insert_all (all_needed c coord_sys s) (false, s)
  unfolding auxiliary_round all_needed dims_needed
  auxiliary_round_lem c coord_sys s =
      insert_dependencies_lem coord_sys _ _ ∙ sym (insert_all-append (dims_needed c s) _ (false, s))

  contains-dims_needed :
      (c : Cdm V) (s : NameSet) (d : String)
      → contains d (dims_needed c s) ≡ any (λ n. dim_needed c n d) (keys s)
  unfolding dims_needed member
  contains-dims_needed c s d =
      contains-keys d (dims_vars_of c (keys s) [])
      ∙ member-dims_vars_of c d (keys s) []
      ∙ or_false (any (λ n. dim_needed c n d) (keys s))
    where
      or_false : (b : Bool) → (b || false) ≡ b
      or_false true = refl
      or_false false = refl

  with_dims : Cdm V → NameSet → NameSet
  with_dims c s = (insert_all (dims_needed c s) (false, s)).1

  contains-all_needed :
      (c : Cdm V) (coord_sys : List CoordinateSystem) (s : NameSet) (d : String)
      → contains d (all_needed c coord_sys s) ≡ (
          contains d (dims_needed c s)
          || any (λ n. contains d (dependency_names coord_sys n)) (keys (with_dims c s)))
  unfolding all_needed with_dims
  contains-all_needed c coord_sys s d =
      contains-append d (dims_needed c s) _
      ∙ ap (λ (b : Bool). contains d (dims_needed c s) || b)
          (contains-all_dependencies coord_sys d (keys (with_dims c s)))

  contains-with_dims :
      (c : Cdm V) (s : NameSet) (n : String)
      → contains n (keys (with_dims c s)) ≡ (contains n (dims_needed c s) || member n s)
  unfolding with_dims
  contains-with_dims c s n =
      contains-keys n (insert_all (dims_needed c s) (false, s)).1
      ∙ member-insert_all n (dims_needed c s) false s

  -- A round stays within what is closed under the needs.
  pub all_needed-within :
      (c : Cdm V) (coord_sys : List CoordinateSystem) (s : NameSet) (p : String → Bool)
      → ((n : String) → member n s ≡ true → p n ≡ true)
      → ((n d : String) → p n ≡ true → needs c coord_sys n d ≡ true → p d ≡ true)
      → (d : String) → contains d (all_needed c coord_sys s) ≡ true
      → p d ≡ true
  unfolding needs
  all_needed-within c coord_sys s p start closed d h =
      elim (Bool-cases (contains d (dims_needed c s))) [
        | inl e ↦ dims_in d e
        | inr e ↦
            any-elim (λ n. contains d (dependency_names coord_sys n)) (keys (with_dims c s))
              (λ n k q.
                closed n d (kept n (sym (contains-with_dims c s n) ∙ k)) (ground (arith, q)))
              (late e (sym (contains-all_needed c coord_sys s d) ∙ h))
      ]
    where
      late : {a b : Bool} → a ≡ false → (a || b) ≡ true → b ≡ true
      late {a} {b} e q = ap (λ (x : Bool). x || b) (sym e) ∙ q

      dims_in : (m : String) → contains m (dims_needed c s) ≡ true → p m ≡ true
      dims_in m e =
          any-elim (λ n. dim_needed c n m) (keys s)
            (λ n k q. closed n m (start n (sym (contains-keys n s) ∙ k)) (ground (arith, q)))
            (sym (contains-dims_needed c s m) ∙ e)

      kept : (n : String) → (contains n (dims_needed c s) || member n s) ≡ true → p n ≡ true
      kept n h = elim (Bool-cases (contains n (dims_needed c s))) [
        | inl e ↦ dims_in n e
        | inr e ↦ start n (rw e at h)
      ]

  -- A round inserts all needs of the names before.
  pub all_needed-needs :
      (c : Cdm V) (coord_sys : List CoordinateSystem) (s : NameSet) (n d : String)
      → member n s ≡ true
      → needs c coord_sys n d ≡ true
      → contains d (all_needed c coord_sys s) ≡ true
  unfolding needs
  all_needed-needs c coord_sys s n d m h =
      contains-all_needed c coord_sys s d ∙ elim (Bool-cases (dim_needed c n d)) [
        | inl e ↦
            let there : contains d (dims_needed c s) ≡ true =
              contains-dims_needed c s d
              ∙ any-intro (λ k. dim_needed c k d) n (keys s) (contains-keys n s ∙ m) e in
            rw there refl
        | inr e ↦
            let there : any (λ k. contains d (dependency_names coord_sys k)) (keys (with_dims c s))
                ≡ true =
              any-intro (λ k. contains d (dependency_names coord_sys k)) n (keys (with_dims c s))
                (contains-with_dims c s n ∙ ground (arith, m)) (rw e at h) in
            rw there (ground arith)
      ]
