-- ===== src/ArrayLoop/Dims/Steps.antt =====
-- The steps of an array are those of its lengths, however it was made.
use fimex.Prelude.Words.{wmul}
use fimex.Prelude.Result.{◌>>=◌, guard, runtime_error, both_returned, ok-injective, err, ok}
use fimex.Data.Impl.{product, product_from, slice_sizes}
use fimex.ArrayLoop.Dims.{
  all_deltas, new_dims, add_dim, volume_of, next_delta, back, deltas_from, check_non0_length,
  ArrayDims,
}
use fimex.Prelude.{
  ap₂, true, length-replicate, length-append, subst, if◌then◌else◌, String, ◌+◌, inr, inl, ◌∙◌,
  Bool-cases, false, sym, ap, ◌==◌, length, ℕ, List, [], ◌∷◌, ◌++◌, ◌≡◌, arith, refl,
}

-- One entry for each dimension, and each step is the last times the length before.
pub record IsStepped (a : ArrayDims) : Type 0 where
  pub names : length a.name ≡ length a.length_of
  pub flags : length a.shared_flags ≡ length a.length_of
  pub steps : a.delta_of ≡ slice_sizes 1 a.length_of

check_non0_length-ok : (n m : ℕ) → check_non0_length n ≡ ok m → (m ≡ n) × ((n == 0) ≡ false)
unfolding check_non0_length
check_non0_length-ok n m h = elim (Bool-cases (n == 0)) [
  | inl e ↦ absurd (thrown (sym (rw e) ∙ h))
  | inr e ↦ (sym (ok-injective (sym (rw e) ∙ h)), e)
]
  where
    thrown : err runtime_error ≡ ok m → ⊥
    thrown q = cc

deltas_from-steps :
    (b l : ℕ) (lengths deltas : List ℕ)
    → deltas_from b (l ∷ lengths) ≡ ok deltas
    → b ∷ deltas ≡ slice_sizes b (l ∷ lengths)
unfolding deltas_from slice_sizes
deltas_from-steps b l [] deltas h = ap (λ (ds : List ℕ). b ∷ ds) (sym (ok-injective h))
deltas_from-steps b l (m ∷ lengths) deltas h =
    let (l', c, h') = both_returned (check_non0_length l) _ h in
    let (ds, r, h'') = both_returned (deltas_from (wmul b l') (m ∷ lengths)) _ h' in
    let same = (check_non0_length-ok l l' c).0 in
    ap (λ (xs : List ℕ). b ∷ xs)
      (sym (ok-injective h'')
        ∙ deltas_from-steps (wmul b l') m lengths ds r
        ∙ ap (λ (k : ℕ). slice_sizes (wmul b k) (m ∷ lengths)) same)

back-volume :
    (b n : ℕ) (ns : List ℕ)
    → wmul (back (slice_sizes b (n ∷ ns))) (back (n ∷ ns)) ≡ product_from b (n ∷ ns)
unfolding back slice_sizes product_from
back-volume b n [] = refl
back-volume b n (m ∷ ns) = back-volume (wmul b n) m ns

slice_sizes-append :
    (b n : ℕ) (ns : List ℕ)
    → slice_sizes b (ns ++ n ∷ []) ≡ slice_sizes b ns ++ product_from b ns ∷ []
unfolding slice_sizes product_from
slice_sizes-append b n [] = refl
slice_sizes-append b n (m ∷ ns) = ap (λ (xs : List ℕ). b ∷ xs) (slice_sizes-append (wmul b m) n ns)

last_step :
    (ns deltas : List ℕ)
    → deltas ≡ slice_sizes 1 ns
    → (if length ns == 0 then 1 else wmul (back deltas) (back ns)) ≡ product ns
unfolding product_from
last_step [] deltas e = refl
last_step (n ∷ ns) deltas e =
    let some_dims : (length (n ∷ ns) == 0) ≡ false = ground arith in
    rw (some_dims, e) (back-volume 1 n ns)

append_length :
    {A : Type 0} (xs : List A) (x : A) (n : ℕ) → length xs ≡ n → length (xs ++ x ∷ []) ≡ n + 1
append_length xs x n e = omega (arith, length-append xs (x ∷ []), e)

-- add gives an array with one dimension more, if its length is not 0, and throws otherwise.
add_dim-IsStepped :
    (a b : ArrayDims) (name : String) (n : ℕ)
    → IsStepped a
    → add_dim a name n ≡ ok b
    → IsStepped b × (b.length_of ≡ a.length_of ++ n ∷ [])
unfolding add_dim next_delta
add_dim-IsStepped a b name n st h =
    let (n', c, h') = both_returned (check_non0_length n) _ h in
    let same = (check_non0_length-ok n n' c).0 in
    subst (λ x. IsStepped x × (x.length_of ≡ a.length_of ++ n ∷ [])) (ok-injective h')
      (
        record {
          names = append_length a.name name _ st.names ∙ sym (append_length a.length_of n' _ refl);
          flags =
              append_length a.shared_flags true _ st.flags
              ∙ sym (append_length a.length_of n' _ refl);
          steps =
              ap₂ (λ (ds : List ℕ) (d : ℕ). ds ++ d ∷ []) st.steps
                (last_step a.length_of a.delta_of st.steps)
              ∙ sym (slice_sizes-append 1 n' a.length_of);
        },
        ap (λ (k : ℕ). a.length_of ++ k ∷ []) same,
      )

all_deltas-steps : (ns deltas : List ℕ) → all_deltas ns ≡ ok deltas → deltas ≡ slice_sizes 1 ns
unfolding all_deltas slice_sizes
all_deltas-steps [] deltas h = sym (ok-injective h)
all_deltas-steps (n ∷ ns) deltas h =
    let (n', c, h') = both_returned (check_non0_length n) _ h in
    let (ds, r, h'') = both_returned (deltas_from 1 (n ∷ ns)) _ h' in
    sym (ok-injective h'') ∙ deltas_from-steps 1 n ns ds r

new_dims-IsStepped :
    (names : List String) (ns : List ℕ) (a : ArrayDims)
    → new_dims names ns ≡ ok a
    → IsStepped a × (a.length_of ≡ ns)
unfolding new_dims
new_dims-IsStepped names ns a h =
    let (u, same, h') = both_returned (guard (length names == length ns) runtime_error) _ h in
    let (ds, r, h'') = both_returned (all_deltas ns) _ h' in
    let agree : length names ≡ length ns = agreed (length names) (length ns) u same in
    subst (λ x. IsStepped x × (x.length_of ≡ ns)) (ok-injective h'')
      (
        record {
          names = agree;
          flags = length-replicate (length ns) true;
          steps = all_deltas-steps ns ds r;
        },
        refl,
      )
  where
    agreed : (m n : ℕ) (u : Unit {0}) → guard (m == n) runtime_error ≡ ok u → m ≡ n
    agreed m n u e = elim (Bool-cases (m == n)) [
      | inl t ↦ ground arith
      | inr t ↦ absurd (thrown u (sym (rw t) ∙ e))
    ]
      where
        thrown : (u : Unit {0}) → err runtime_error ≡ ok u → ⊥
        thrown u q = cc

-- How an array's dimensions are made: by the constructor, or by add on others.
pub data IsMade : ArrayDims → List ℕ → Type 0 where
  made_new :
      (names : List String) (ns : List ℕ) {a : ArrayDims} → new_dims names ns ≡ ok a → IsMade a ns
  made_add :
      {a b : ArrayDims} {ns : List ℕ} (name : String) (n : ℕ)
      → IsMade a ns
      → add_dim a name n ≡ ok b
      → IsMade b (ns ++ n ∷ [])

-- However the dimensions were given, all at once or one by one, there is one name, flag and step
-- for each length, the first step is 1 and each next one is the last times its length, modulo 2^64;
-- and the volume is the product of the lengths.
pub IsMade-IsStepped :
    (a : ArrayDims) (ns : List ℕ)
    → IsMade a ns
    → IsStepped a × (a.length_of ≡ ns) × (volume_of a ≡ product ns)
unfolding volume_of
IsMade-IsStepped a ns m =
    let (st, e) = made m in (st, e, last_step a.length_of a.delta_of st.steps ∙ ap product e)
  where
    made : {a : ArrayDims} {ns : List ℕ} → IsMade a ns → IsStepped a × (a.length_of ≡ ns)
    made (made_new names ns h) = new_dims-IsStepped names ns _ h
    made (made_add {a} {b} name n m h) =
        let (st, e) = made m in
        let (st', e') = add_dim-IsStepped a b name n st h in
        (st', e' ∙ ap (λ (xs : List ℕ). xs ++ n ∷ []) e)

abbrev half_empty : String → String → ℕ → ArrayDims
half_empty first name n = record {
  name = first ∷ name ∷ [];
  length_of = n ∷ 0 ∷ [];
  delta_of = 1 ∷ wmul 1 n ∷ [];
  shared_flags = true ∷ true ∷ [];
}

-- The constructor looks at every length but the last: for two dimensions, the second of length 0,
-- it returns an array, while adding that dimension to an array of the first one throws.
pub new_dims-last_zero :
    (first name : String) (n : ℕ)
    → (n == 0) ≡ false
    → ((a : ArrayDims) × (new_dims (first ∷ name ∷ []) (n ∷ 0 ∷ []) ≡ ok a) × (volume_of a ≡ 0))
      × ((new_dims (first ∷ []) (n ∷ []) >>= λ a. add_dim a name 0) ≡ err runtime_error)
unfolding new_dims all_deltas deltas_from check_non0_length add_dim volume_of back
new_dims-last_zero first name n h = ((half_empty first name n, rw h refl, omega arith), rw h refl)
