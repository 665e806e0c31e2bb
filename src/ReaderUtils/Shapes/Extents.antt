-- ===== src/ReaderUtils/Shapes/Extents.antt =====
-- compareCDMVarShapes compares the lengths other than 1 (src/CDMReaderUtils.cc).
use fimex.Cdm.WellFormed.{dim_names}
use fimex.Prelude.Named.{find_if-contains, Distinct}
use fimex.Prelude.Text.{eq_iff, str_eq, contains}
use fimex.Cdm.Variables.{get_variable}
use fimex.Cdm.Dimensions.{get_dimension}
use fimex.ReaderUtils.Shapes.{
  get_cdm_dimension_sizes, size_at, skip_unit, compare_cdm_var_shapes, same_extents_from,
  insert_sizes,
}
use fimex.Prelude.Dict.{lookup-insert, insert, lookup, Dict}
use fimex.Cdm.Model.{dim_named, CdmDimension, CdmVariable, Cdm}
use fimex.Prelude.{
  Option, is_some, arith, Bool, ==_iff, find_if, sym, ap, Option-cases, inr, ◌∙◌, ap₂, refl, inl,
  ◌⊎◌, Bool-cases, ◌↔◌, map, ◌≡◌, ◌==◌, remove_if, List, String, ℕ, none, some, true, false,
}
use fimex.Prelude.Result.{ok-injective, ok}
use fimex.Prelude.{[], ◌∷◌}

-- The lengths of a shape's dimensions other than 1, in order
unfoldable pub extents : Dict ℕ → List String → List ℕ
extents sizes shape = remove_if (λ (n : ℕ). n == 1) (map (size_at sizes) shape)

unit-extents :
    (sizes : Dict ℕ) (n : String) (shape : List String)
    → (size_at sizes n == 1) ≡ true
    → extents sizes (n ∷ shape) ≡ extents sizes shape
unfolding extents
unit-extents sizes n shape e = rw e refl

cons-extents :
    (sizes : Dict ℕ) (n : String) (shape : List String)
    → (size_at sizes n == 1) ≡ false
    → extents sizes (n ∷ shape) ≡ size_at sizes n ∷ extents sizes shape
unfolding extents
cons-extents sizes n shape e = rw e refl

-- What skipping leaves has the same extents.
pub extents-skip_unit :
    (sizes : Dict ℕ) (shape : List String)
    → extents sizes (skip_unit sizes shape) ≡ extents sizes shape
unfolding skip_unit
extents-skip_unit sizes [] = refl
extents-skip_unit sizes (n ∷ shape) = elim (Bool-cases (size_at sizes n == 1)) [
  | inl e ↦ rw e (extents-skip_unit sizes shape ∙ sym (unit-extents sizes n shape e))
  | inr e ↦ rw e refl
]

-- Skipping stops at the end or before another length.
skip_unit-cases :
    (sizes : Dict ℕ) (shape : List String)
    → (skip_unit sizes shape ≡ [])
      ⊎ ((m : String) × (rest : List String) × (skip_unit sizes shape ≡ m ∷ rest)
          × ((size_at sizes m == 1) ≡ false))
unfolding skip_unit
skip_unit-cases sizes [] = inl refl
skip_unit-cases sizes (n ∷ shape) = elim (Bool-cases (size_at sizes n == 1)) [
  | inl e ↦ rw e (skip_unit-cases sizes shape)
  | inr e ↦ inr (n, shape, rw e refl, e)
]

skip_unit-shape-cases :
    (sizes : Dict ℕ) (shape : List String)
    → ((skip_unit sizes shape ≡ []) × (extents sizes shape ≡ []))
      ⊎ ((m : String) × (rest : List String) × (skip_unit sizes shape ≡ m ∷ rest)
          × (extents sizes shape ≡ size_at sizes m ∷ extents sizes rest))
unfolding extents
skip_unit-shape-cases sizes shape = elim (skip_unit-cases sizes shape) [
  | inl e ↦ inl (e, sym (extents-skip_unit sizes shape) ∙ ap (extents sizes) e)
  | inr (m, rest, e, f) ↦ inr (
    m,
    rest,
    e,
    sym (extents-skip_unit sizes shape) ∙ ap (extents sizes) e ∙ cons-extents sizes m rest f,
  )
]

cons_iff : {P : Type 0} (a b : ℕ) (xs ys : List ℕ) → a ≡ b → (P ↔ (xs ≡ ys)) → P ↔ (a ∷ xs ≡ b ∷ ys)
cons_iff a b xs ys same tails =
    ((λ p. ap₂ (λ (n : ℕ) (ns : List ℕ). n ∷ ns) same (tails.0 p)), (λ h. tails.1 (cc h)))

-- The loop answers whether the extents are the same.
pub same_extents_from_iff :
    (sizes1 sizes2 : Dict ℕ) (s1 s2 : List String)
    → (same_extents_from sizes1 sizes2 s1 s2 ≡ true) ↔ (extents sizes1 s1 ≡ extents sizes2 s2)
unfolding same_extents_from extents
same_extents_from_iff sizes1 sizes2 [] s2 = elim (skip_unit-shape-cases sizes2 s2) [
  | inl (e, x) ↦ rw (same_extents_from, e, x) ((λ h. refl), (λ h. refl))
  | inr (m, rest, e, x) ↦ rw (same_extents_from, e, x) ((λ h. absurd (cc h)), (λ h. absurd (cc h)))
]
same_extents_from_iff sizes1 sizes2 (n ∷ s1) s2 = elim (Bool-cases (size_at sizes1 n == 1)) [
  | inl u ↦ rw (same_extents_from, u) (same_extents_from_iff sizes1 sizes2 s1 s2)
  | inr u ↦ elim (skip_unit-shape-cases sizes2 s2) [
    | inl (e, x) ↦ rw (same_extents_from, u, e, x) ((λ h. absurd (cc h)), (λ h. absurd (cc h)))
    | inr (m, rest, e, x) ↦ elim (Bool-cases (size_at sizes1 n == size_at sizes2 m)) [
      | inl q ↦
          rw (same_extents_from, u, e, q, x)
            (cons_iff (size_at sizes1 n) (size_at sizes2 m) _ _ ((==_iff _ _).0 q)
              (same_extents_from_iff sizes1 sizes2 s1 rest))
      | inr q ↦
          rw (same_extents_from, u, e, q, x)
            (
              (λ h. absurd (cc h)),
              (λ h.
                  let same : size_at sizes1 n ≡ size_at sizes2 m = cc h in
                  absurd (ground (arith, same, q))),
            )
    ]
  ]
]

module _ {V : Type 0} where
  -- The lengths other than 1 of the dimensions of a variable
  abbrev pub variable_extents : Cdm V → CdmVariable V → List ℕ
  variable_extents c v = extents (get_cdm_dimension_sizes c) v.shape

  -- For two variables that are there, compareCDMVarShapes answers true exactly when the lengths of
  -- their dimensions, without those of length 1 and in order, are the same lists.
  pub compare_cdm_var_shapes_iff :
      (cdm1 cdm2 : Cdm V) (name1 name2 : String) (var1 var2 : CdmVariable V)
      → get_variable name1 cdm1 ≡ ok var1
      → get_variable name2 cdm2 ≡ ok var2
      → (compare_cdm_var_shapes cdm1 name1 cdm2 name2 ≡ ok true)
        ↔ (variable_extents cdm1 var1 ≡ variable_extents cdm2 var2)
  unfolding compare_cdm_var_shapes
  compare_cdm_var_shapes_iff cdm1 cdm2 name1 name2 var1 var2 f g =
      let sizes1 = get_cdm_dimension_sizes cdm1 in
      let sizes2 = get_cdm_dimension_sizes cdm2 in
      let loop = same_extents_from_iff sizes1 sizes2 var1.shape var2.shape in
      rw (f, g) ((λ h. loop.0 (ok-injective h)), (λ h. ap (λ (b : Bool). ok b) (loop.1 h)))

not_found :
    (n : String) (dims : List CdmDimension)
    → contains n (dim_names dims) ≡ false
    → find_if (dim_named n) dims ≡ none
not_found n dims h = elim (Option-cases (find_if (dim_named n) dims)) [
  | inl e ↦ e
  | inr (d, e) ↦
      absurd (cc (sym (ap is_some e) ∙ find_if-contains (λ (d : CdmDimension). d.name) n dims ∙ h))
]

-- Distinct dimensions are found in the map by the lengths that they have.
lookup-insert_sizes :
    (n : String) (dims : List CdmDimension) (sizes : Dict ℕ)
    → Distinct (dim_names dims)
    → lookup n (insert_sizes dims sizes)
      ≡ elim (find_if (dim_named n) dims) [ none ↦ lookup n sizes | some d ↦ some d.length ]
unfolding insert_sizes
lookup-insert_sizes n [] sizes distinct = refl
lookup-insert_sizes n (d ∷ dims) sizes (fresh, distinct) = elim (Bool-cases (str_eq n d.name)) [
  | inl e ↦
      let same : n ≡ d.name = (eq_iff n d.name).0 e in
      let only = not_found n dims (ap (λ (m : String). contains m (dim_names dims)) same ∙ fresh) in
      let here : str_eq d.name n ≡ true = (eq_iff d.name n).1 (sym same) in
      rw e (
        lookup-insert_sizes n dims (insert d.name d.length sizes) distinct
        ∙ rw (only, lookup-insert d.name n d.length sizes, here) refl)
  | inr e ↦
      let other : str_eq d.name n ≡ false = ground (arith, e, eq_iff n d.name, eq_iff d.name n) in
      rw e (
        lookup-insert_sizes n dims (insert d.name d.length sizes) distinct
        ∙ ap
            (λ (absent : Option ℕ). elim (find_if (dim_named n) dims) [
              | none ↦ absent
              | some d ↦ some d.length
            ])
            (lookup-insert d.name n d.length sizes ∙ rw other refl))
]

module _ {V : Type 0} where
  -- Where names are unique, a dimension's entry is the length that getDimension gives.
  pub get_dimension-size_at :
      (c : Cdm V) (n : String) (d : CdmDimension)
      → Distinct (dim_names c.dimensions)
      → get_dimension n c ≡ ok d
      → size_at (get_cdm_dimension_sizes c) n ≡ d.length
  unfolding get_dimension size_at get_cdm_dimension_sizes
  get_dimension-size_at c n d distinct h =
      elim (Option-cases (find_if (dim_named n) c.dimensions)) [
        | inl e ↦ absurd (cc (rw (get_dimension, e) at h))
        | inr (found, e) ↦
            let same : ok found ≡ ok d = rw (get_dimension, e) at h in
            let entry = lookup-insert_sizes n c.dimensions [] distinct in
            rw (size_at, entry, e) (ap (λ (d : CdmDimension). d.length) (ok-injective same))
      ]
