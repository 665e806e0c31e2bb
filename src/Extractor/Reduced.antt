-- ===== src/Extractor/Reduced.antt =====
-- reduceDimension: what is found in the data model after it (src/CDMExtractor.cc).
use fimex.Prelude.Dict.{lookup-insert, lookup}
use fimex.Cdm.Variables.{get_variable}
use fimex.Prelude.Named.Search.{mapped}
use fimex.Prelude.Result.{◌>>=◌, Result, ok-injective, cdm_exception, err, ok}
use fimex.Prelude.Text.{eq_iff, str_eq, contains}
use fimex.Cdm.Model.{var_named, dim_named, Cdm, check_dimension, CdmDimension, CdmVariable}
use fimex.Extractor.{CdmExtractor, reduce_to_slices, without_data}
use fimex.Cdm.Dimensions.{modify_dimension, get_dimension}
use fimex.Prelude.{
  ◌⊎◌, ltb→lt, Option-cases, ◌<◌, length, ◌≤◌, ◌==◌, ltb, any, ◌∙◌, sym, false, refl, [], ap, inr,
  some, true, inl, Bool-cases, arith, ◌∷◌, Option, map, none, update_first, find_if, ℕ, ◌≡◌,
  if◌then◌else◌, String, List,
}

-- setLength
abbrev pub with_length : ℕ → CdmDimension → CdmDimension
with_length len d = record d { length = len }

find_if-with_length :
    (n k : String) (len : ℕ) (ds : List CdmDimension)
    → find_if (dim_named k) (update_first (dim_named n) (with_length len) ds) ≡ (
        if str_eq n k
        then mapped (λ d. d.name) (with_length len) (find_if (dim_named k) ds)
        else find_if (dim_named k) ds)
find_if-with_length n k len [] = ground arith
find_if-with_length n k len (d ∷ ds) =
    let ih = find_if-with_length n k len ds in
    elim (Bool-cases (str_eq n d.name)) [
      | inl t ↦ elim (Bool-cases (str_eq k d.name)) [
        | inl u ↦
            let same : str_eq n k ≡ true =
              ground (arith, eq_iff n d.name, eq_iff k d.name, eq_iff n k) in
            rw (t, u, same) refl
        | inr u ↦
            let other : str_eq n k ≡ false =
              ground (arith, eq_iff n d.name, eq_iff k d.name, eq_iff n k) in
            rw (t, u, other) refl
      ]
      | inr t ↦ elim (Bool-cases (str_eq k d.name)) [
        | inl u ↦
            let other : str_eq n k ≡ false =
              ground (arith, eq_iff n d.name, eq_iff k d.name, eq_iff n k) in
            rw (t, u, other) refl
        | inr u ↦ rw (t, u) ih
      ]
    ]

any-above :
    (n : ℕ) (slices : List ℕ)
    → any (λ sz. ltb n sz) slices ≡ true
    → (p : ℕ) × (any (λ sz. sz == p) slices ≡ true) × (n < p)
any-above n [] h = cc
any-above n (s ∷ slices) h = elim (Bool-cases (ltb n s)) [
  | inl t ↦ (s, ground arith, ltb→lt n s t)
  | inr t ↦ let (p, q, l) = any-above n slices (ground (arith, h, t)) in (p, ground (arith, q), l)
]

none-above :
    (n p : ℕ) (slices : List ℕ)
    → any (λ sz. ltb n sz) slices ≡ false
    → any (λ sz. sz == p) slices ≡ true
    → p ≤ n
none-above n p [] h q = cc
none-above n p (s ∷ slices) h q = elim (Bool-cases (s == p)) [
  | inl t ↦ ground (arith, h, t)
  | inr t ↦ none-above n p slices (ground (arith, h)) (ground (arith, q, t))
]

module _ {V : Type 0} where
  -- The length of the dimension is set, and no other dimension is touched.
  get_dimension-set_length :
      (n k : String) (len : ℕ) (c : Cdm V) (dim : CdmDimension)
      → get_dimension n c ≡ ok dim
      → get_dimension k (modify_dimension n (with_length len) c)
        ≡ (if str_eq n k then ok (with_length len dim) else get_dimension k c)
  unfolding get_dimension modify_dimension
  get_dimension-set_length n k len c dim e =
      let found = find_if-with_length n k len c.dimensions in
      elim (Bool-cases (str_eq n k)) [
        | inl t ↦
            let same : n ≡ k = (eq_iff n k).0 t in
            rw (get_dimension, modify_dimension, found, t)
              (set_found (find_if (dim_named k) c.dimensions)
                (ap (λ (m : String). get_dimension m c) (sym same) ∙ e))
        | inr t ↦ rw (get_dimension, modify_dimension, found, t) refl
      ]
    where
      set_found :
          (found : Option CdmDimension)
          → elim found [ none ↦ err cdm_exception | some d ↦ ok d ] ≡ ok dim
          → elim (mapped (λ (d : CdmDimension). d.name) (with_length len) found) [
            | none ↦ err cdm_exception
            | some d ↦ ok d
          ]
            ≡ ok (with_length len dim)
      set_found none h = cc
      set_found (some d) h = ap (λ (d : CdmDimension). ok (with_length len d)) (ok-injective h)

  -- The data of a variable are dropped exactly if the dimension is in its shape.
  abbrev pub data_dropped : String → CdmVariable V → CdmVariable V
  data_dropped dim_name v = record v {
    payload = if contains dim_name v.shape then none else v.payload;
  }

  find_if-without_data :
      (dim_name n : String) (vs : List (CdmVariable V))
      → find_if (var_named n) (map (without_data dim_name) vs)
        ≡ mapped (λ v. v.name) (data_dropped dim_name) (find_if (var_named n) vs)
  unfolding without_data check_dimension
  find_if-without_data dim_name n [] = refl
  find_if-without_data dim_name n (v ∷ vs) = elim (Bool-cases (contains dim_name v.shape)) [
    | inl t ↦ elim (Bool-cases (str_eq n v.name)) [
      | inl u ↦ rw (t, u, t) refl
      | inr u ↦ rw (t, u) (find_if-without_data dim_name n vs)
    ]
    | inr t ↦ elim (Bool-cases (str_eq n v.name)) [
      | inl u ↦ rw (t, u, t) refl
      | inr u ↦ rw (t, u) (find_if-without_data dim_name n vs)
    ]
  ]

  -- What reduceDimension leaves: the length and the positions of the dimension, the other dimensions
  -- and positions as they were, and the variables, of which those with the dimension hold no data.
  pub record IsReduced (dim_name : String) (slices : List ℕ) (dim : CdmDimension)
      (x : CdmExtractor V) (r : Result (Unit {0}) × CdmExtractor V) : Type 0 where
    pub returned : r.0 ≡ ok tt
    pub dimensions :
        (k : String)
        → get_dimension k r.1.cdm ≡ (
            if str_eq dim_name k
            then ok (with_length (length slices) dim)
            else get_dimension k x.cdm)
    pub positions :
        (k : String)
        → lookup k r.1.dim_slices
          ≡ (if str_eq dim_name k then some slices else lookup k x.dim_slices)
    pub variables :
        (n : String)
        → get_variable n r.1.cdm ≡ (get_variable n x.cdm >>= λ v. ok (data_dropped dim_name v))
    pub attributes : r.1.cdm.attributes ≡ x.cdm.attributes
    pub reader : r.1.data_reader ≡ x.data_reader

  get_variable-without_data :
      (dim_name n : String) (c d : Cdm V)
      → d.variables ≡ map (without_data dim_name) c.variables
      → get_variable n d ≡ (get_variable n c >>= λ v. ok (data_dropped dim_name v))
  unfolding get_variable
  get_variable-without_data dim_name n c d e =
      let found = ap (find_if (var_named n)) e ∙ find_if-without_data dim_name n c.variables in
      elim (Option-cases (find_if (var_named n) c.variables)) [
        | inl q ↦ rw (get_variable, found, q) refl
        | inr (v, q) ↦ rw (get_variable, found, q) refl
      ]

  -- reduceDimension of a dimension that exists: if one of the positions lies above its length it
  -- throws and changes nothing. Otherwise no position does, one that is equal to the length
  -- included, the dimension alone gets the number of positions as its length, the positions are kept
  -- for it, and exactly the variables that have it in their shape lose their data.
  pub reduce_to_slices-outcome :
      (dim_name : String) (slices : List ℕ) (x : CdmExtractor V) (dim : CdmDimension)
      → get_dimension dim_name x.cdm ≡ ok dim
      → ((p : ℕ) × (any (λ sz. sz == p) slices ≡ true)
          × (dim.length < p)
          × (reduce_to_slices dim_name slices x ≡ (err cdm_exception, x)))
        ⊎ (((p : ℕ) → any (λ sz. sz == p) slices ≡ true → p ≤ dim.length)
            × IsReduced dim_name slices dim x (reduce_to_slices dim_name slices x))
  unfolding reduce_to_slices modify_dimension get_dimension
  reduce_to_slices-outcome dim_name slices x dim e =
      elim (Bool-cases (any (λ sz. ltb dim.length sz) slices)) [
        | inl h ↦
            let (p, q, l) = any-above dim.length slices h in
            inl (p, q, l, rw (reduce_to_slices, e, h) refl)
        | inr h ↦ inr (
          (λ p q. none-above dim.length p slices h q),
          rw (reduce_to_slices, e, h)
              (record {
                returned = refl;
                dimensions = λ k. get_dimension-set_length dim_name k (length slices) x.cdm dim e;
                positions = λ k. lookup-insert dim_name k slices x.dim_slices;
                variables = λ n. get_variable-without_data dim_name n x.cdm _ refl;
                attributes = refl;
                reader = refl;
              }),
        )
      ]
