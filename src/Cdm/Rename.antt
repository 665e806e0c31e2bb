-- ===== src/Cdm/Rename.antt =====
-- CDM::renameVariable: the loop that copies the attributes to the new name.
pub mod Moved
use fimex.Prelude.Named.Search.{mapped}
use fimex.Cdm.Lookup.{get_attributes-insert}
use mathlib.Core.List.{append-nil, append_assoc}
use fimex.Prelude.Dict.{insert, lookup-insert, lookup}
use fimex.Prelude.Named.{any-contains, Distinct}
use fimex.Cdm.Model.{var_named, attr_named, Cdm, CdmAttribute}
use fimex.Prelude.Result.{chain-eq_of_ok, ok, Result, for_each}
use fimex.Prelude.{
  none, if◌then◌else◌, find_if, Bool, ap, subst, ◌∙◌, refl, any, arith, sym, [], false, true, ◌∷◌,
  ◌++◌, ◌≡◌, List, String,
}
use fimex.Cdm.Variables.{has_variable, get_attributes, may_have_attributes, add_attribute}
use fimex.Prelude.Text.{str_eq_refl, eq_iff, str_eq, contains}
use fimex.Cdm.WellFormed.{attr_names, WellFormed}

module _ {V : Type 0} where
  -- What the loop of renameVariable does to the attributes of `k`.
  pub record Added (k : String) (rest : List (CdmAttribute V)) (c : Cdm V)
      (r : Result (Unit {0}) × Cdm V) : Type 0 where
    pub done : r.0 ≡ ok tt
    pub same_vars : r.1.variables ≡ c.variables
    pub same_dims : r.1.dimensions ≡ c.dimensions
    pub here : get_attributes k r.1 ≡ get_attributes k c ++ rest
    pub there : (j : String) → str_eq k j ≡ false → lookup j r.1.attributes ≡ lookup j c.attributes

  add_one :
      (k : String) (a : CdmAttribute V) (c : Cdm V)
      → may_have_attributes k c ≡ true
      → contains a.name (attr_names (get_attributes k c)) ≡ false
      → Added k (a ∷ []) c (add_attribute k a c)
  unfolding add_attribute
  add_one k a c o h =
      let e : any (attr_named a.name) (get_attributes k c) ≡ false =
        any-contains (λ x. x.name) a.name (get_attributes k c) ∙ h in
      rw (o, e)
        (record {
          done = refl;
          same_vars = refl;
          same_dims = refl;
          here =
              get_attributes-insert k (get_attributes k c ++ a ∷ []) c.attributes
                (record c {
                  coords_initialized = false;
                  attributes = insert k (get_attributes k c ++ a ∷ []) c.attributes;
                })
                refl;
          there = λ j q. rw (lookup-insert, q);
        })

  -- The names behind the first part of a list are not among it.
  fresh_in_prefix :
      (xs : List (CdmAttribute V)) (a : CdmAttribute V) (ys : List (CdmAttribute V))
      → Distinct (attr_names (xs ++ a ∷ ys))
      → contains a.name (attr_names xs) ≡ false
  unfolding contains
  fresh_in_prefix [] a ys d = refl
  fresh_in_prefix (x ∷ xs) a ys d =
      ground
        (arith, fresh_in_prefix xs a ys d.1, middle xs, eq_iff a.name x.name, eq_iff x.name a.name)
    where
      middle :
          (zs : List (CdmAttribute V))
          → str_eq x.name a.name ≡ true
          → contains x.name (attr_names (zs ++ a ∷ ys)) ≡ true
      middle [] q = ground arith
      middle (z ∷ zs) q = ground (arith, middle zs q)

  pub add_all :
      (k : String) (rest : List (CdmAttribute V)) (c : Cdm V)
      → may_have_attributes k c ≡ true
      → Distinct (attr_names (get_attributes k c ++ rest))
      → Added k rest c (for_each rest (add_attribute k) c)
  unfolding for_each
  add_all k [] c o d = record {
    done = refl;
    same_vars = refl;
    same_dims = refl;
    here = sym (append-nil _);
    there = λ j q. refl;
  }
  add_all k (a ∷ rest) c o d =
      let one = add_one k a c o (fresh_in_prefix (get_attributes k c) a rest d) in
      let c' = (add_attribute k a c).1 in
      let more = add_all k rest c' (owners one ∙ o) (
        subst (λ l. Distinct (attr_names l))
          (sym (append_assoc (get_attributes k c) (a ∷ []) rest)
            ∙ ap (λ l. l ++ rest) (sym one.here))
          d) in
      rw
        (chain-eq_of_ok (add_attribute k a c) (λ _ s'. for_each rest (add_attribute k) s') one.done)
        (record {
          done = more.done;
          same_vars = more.same_vars ∙ one.same_vars;
          same_dims = more.same_dims ∙ one.same_dims;
          here =
              more.here
              ∙ ap (λ l. l ++ rest) one.here
              ∙ append_assoc (get_attributes k c) (a ∷ []) rest;
          there = λ j q. more.there j q ∙ one.there j q;
        })
    where
      owners :
          Added k (a ∷ []) c (add_attribute k a c)
          → may_have_attributes k (add_attribute k a c).1 ≡ may_have_attributes k c
      owners one = unfold may_have_attributes in rw one.same_vars
