-- ===== src/CoordinateSystem/Invariant.antt =====
-- What a coordinate system keeps in any order of calls (src/coordSys/CoordinateSystem.cc).
pub mod Reached
use fimex.Prelude.Dict.{NameSet}
use fimex.Prelude.Text.{eq_iff, str_eq_refl, contains}
use fimex.Prelude.Named.{
  contains-append, find_if-contains, append-Distinct, contains-remove_if, remove_if-Distinct, names,
  Distinct,
}
use fimex.CoordinateSystem.{
  add_dependency_variable, set_cs_for, empty_system, set_complete, axis_named, set_auxiliary_axis,
  set_axis, axis_number, CoordinateAxis, has_type_in_axes, CoordinateSystem, AxisType, is_axis_type,
}
use fimex.Prelude.{
  find_if, is_some, ap, ==_iff, ◌&&◌, ◌==◌, not, refl, inr, ◌∙◌, sym, inl, arith, ◌≤◌, suc,
  Bool-cases, ◌+◌, true, [], if◌then◌else◌, false, remove_if, ◌≡◌, ◌∷◌, Bool, String, ◌++◌, List, ℕ,
}
use fimex.CoordinateSystem.{axis_undefined}

abbrev pub axis_names : List CoordinateAxis → List String
axis_names = names (λ a. a.name)

-- How many axes are of a type
abbrev pub count_type : AxisType → List CoordinateAxis → ℕ
count_type type [] = 0
count_type type (a ∷ axes) =
    if is_axis_type type a then suc (count_type type axes) else count_type type axes

-- Names are unique in each of the two lists and across them, and no two axes that are not
-- auxiliary have one type, but for the undefined type.
pub record IsConsistent (cs : CoordinateSystem) : Type 0 where
  pub axes_distinct : Distinct (axis_names cs.axes)
  pub auxiliary_distinct : Distinct (axis_names cs.auxiliary_axes)
  pub apart :
      (n : String)
      → contains n (axis_names cs.axes) ≡ true
      → contains n (axis_names cs.auxiliary_axes) ≡ false
  pub one_of_type :
      (type : AxisType)
      → (axis_number type ≡ axis_number axis_undefined → ⊥)
      → count_type type cs.axes ≤ 1

count_type-remove_if :
    (type : AxisType) (p : CoordinateAxis → Bool) (axes : List CoordinateAxis)
    → count_type type (remove_if p axes) ≤ count_type type axes
count_type-remove_if type p [] = omega arith
count_type-remove_if type p (a ∷ axes) = ground (arith, count_type-remove_if type p axes)

count_type-append :
    (type : AxisType) (axes : List CoordinateAxis) (a : CoordinateAxis)
    → count_type type (axes ++ a ∷ [])
      ≡ count_type type axes + (if is_axis_type type a then 1 else 0)
count_type-append type [] a = ground arith
count_type-append type (b ∷ axes) a = ground (arith, count_type-append type axes a)

count_type-absent :
    (type : AxisType) (axes : List CoordinateAxis)
    → has_type_in_axes type axes ≡ false
    → count_type type axes ≡ 0
unfolding has_type_in_axes
count_type-absent type [] h = refl
count_type-absent type (a ∷ axes) h = elim (Bool-cases (is_axis_type type a)) [
  | inl e ↦ absurd (cc (rw e at h))
  | inr e ↦ rw e (count_type-absent type axes (rw e at h))
]

-- An axis joins where no axis has its type.
joined-one_of_type :
    (type : AxisType) (axes : List CoordinateAxis) (a : CoordinateAxis)
    → (axis_number type ≡ axis_number axis_undefined → ⊥)
    → (not (axis_number a.axis_type == axis_number axis_undefined)
        && has_type_in_axes a.axis_type axes)
      ≡ false
    → count_type type axes ≤ 1
    → count_type type (axes ++ a ∷ []) ≤ 1
unfolding is_axis_type has_type_in_axes
joined-one_of_type type axes a defined free one = elim (Bool-cases (is_axis_type type a)) [
  | inl e ↦
      let same : axis_number type ≡ axis_number a.axis_type = (==_iff _ _).0 e in
      let unused : has_type_in_axes a.axis_type axes ≡ false =
        ground (arith, free, same, defined) in
      let none_of_type : count_type type axes ≡ 0 = count_type-absent type axes (
        ap
          (λ (k : ℕ). is_some (find_if (λ (x : CoordinateAxis). k == axis_number x.axis_type) axes))
          same
        ∙ unused) in
      rw (count_type-append type axes a, e, none_of_type) (omega arith)
  | inr e ↦ rw (count_type-append type axes a, e) (omega (arith, one))
]

module _ (axis : CoordinateAxis) {cs : CoordinateSystem} (c : IsConsistent cs) where
  removed-IsConsistent :
      IsConsistent (record cs { axes = remove_if (axis_named axis.name) cs.axes })
  removed-IsConsistent = record {
    axes_distinct = remove_if-Distinct _ axis.name cs.axes c.axes_distinct;
    auxiliary_distinct = c.auxiliary_distinct;
    apart = λ n h. c.apart n (
        ground (arith, h, contains-remove_if (λ (a : CoordinateAxis). a.name) axis.name n cs.axes));
    one_of_type = λ type d.
        omega
          (arith, count_type-remove_if type (axis_named axis.name) cs.axes, c.one_of_type type d);
  }

  pub set_axis-IsConsistent : IsConsistent (set_axis axis cs).1
  unfolding set_axis
  set_axis-IsConsistent =
      let others = remove_if (axis_named axis.name) cs.axes in
      let taken =
        not (axis_number axis.axis_type == axis_number axis_undefined)
        && has_type_in_axes axis.axis_type others in
      elim (Bool-cases taken) [
        | inl e ↦ rw e removed-IsConsistent
        | inr e ↦ rw e (record {
          axes_distinct = append-Distinct _ others axis removed-IsConsistent.axes_distinct (
              rw
                (
                  contains-remove_if (λ (a : CoordinateAxis). a.name) axis.name axis.name cs.axes,
                  str_eq_refl axis.name,
                )
                refl);
          auxiliary_distinct =
              remove_if-Distinct _ axis.name cs.auxiliary_axes c.auxiliary_distinct;
          apart = λ n h. ground (
            arith,
            h,
            contains-append (λ (a : CoordinateAxis). a.name) n others axis,
            contains-remove_if (λ (a : CoordinateAxis). a.name) axis.name n cs.axes,
            contains-remove_if (λ (a : CoordinateAxis). a.name) axis.name n cs.auxiliary_axes,
            c.apart n,
            eq_iff axis.name n,
            eq_iff n axis.name,
          );
          one_of_type = λ type d.
              joined-one_of_type type others axis d e (removed-IsConsistent.one_of_type type d);
        })
      ]

  pub set_auxiliary_axis-IsConsistent : IsConsistent (set_auxiliary_axis axis cs)
  unfolding set_auxiliary_axis
  set_auxiliary_axis-IsConsistent =
      let others = remove_if (axis_named axis.name) cs.auxiliary_axes in
      elim (Bool-cases (is_some (find_if (axis_named axis.name) cs.axes))) [
        | inl e ↦ rw e c
        | inr e ↦
            let fresh : contains axis.name (axis_names cs.axes) ≡ false =
              sym (find_if-contains (λ (a : CoordinateAxis). a.name) axis.name cs.axes) ∙ e in
            elim (Bool-cases (
              not (axis_number axis.axis_type == axis_number axis_undefined)
              && has_type_in_axes axis.axis_type cs.axes)) [
                | inl f ↦ rw (e, f) c
                | inr f ↦
                    rw (e, f)
                      (record {
                        axes_distinct = c.axes_distinct;
                        auxiliary_distinct =
                            append-Distinct _ others axis
                              (remove_if-Distinct _ axis.name cs.auxiliary_axes
                                c.auxiliary_distinct)
                              (rw
                                (
                                  contains-remove_if (λ (a : CoordinateAxis). a.name) axis.name
                                      axis.name cs.auxiliary_axes,
                                  str_eq_refl axis.name,
                                )
                                refl);
                        apart = λ n h. ground (
                          arith,
                          h,
                          fresh,
                          contains-append (λ (a : CoordinateAxis). a.name) n others axis,
                          contains-remove_if (λ (a : CoordinateAxis). a.name) axis.name n
                              cs.auxiliary_axes,
                          c.apart n,
                          eq_iff axis.name n,
                          eq_iff n axis.name,
                        );
                        one_of_type = c.one_of_type;
                      })
              ]
      ]
