-- ===== src/Aggregation/Joined.antt =====
-- addReader keeps the accumulated positions in step with the readers.
use fimex.StringUtils.{codes, tokenize, Bytes}
use fimex.Cdm.Model.{Cdm}
use fimex.Prelude.Result.{err, ok, chain, Result, for_each}
use fimex.Prelude.Words.{wadd}
use fimex.Aggregation.Positions.{accumulate}
use fimex.Aggregation.{extend_positions, joined_before, Aggregation, extend_joined, on_cdm}
use fimex.Prelude.{
  not, inr, inl, ◌==◌, length, Bool-cases, ap, ◌∙◌, ℕ, List, [], ◌∷◌, ◌++◌, ◌≡◌, refl,
}

-- What is left after the accumulated lengths
unfoldable pub end_of : ℕ → List ℕ → ℕ
end_of before [] = before
end_of before (len ∷ lens) = end_of (wadd before len) lens

pub accumulate-append :
    (before len : ℕ) (lens : List ℕ)
    → accumulate before (lens ++ len ∷ [])
      ≡ accumulate before lens ++ wadd (end_of before lens) len ∷ []
unfolding accumulate end_of
accumulate-append before len [] = refl
accumulate-append before len (l ∷ lens) =
    ap (λ (ps : List ℕ). wadd before l ∷ ps) (accumulate-append (wadd before l) len lens)

joined_before-accumulate :
    (before l : ℕ) (lens : List ℕ)
    → joined_before (accumulate before (l ∷ lens)) ≡ end_of before (l ∷ lens)
unfolding joined_before accumulate end_of
joined_before-accumulate before l [] = refl
joined_before-accumulate before l (m ∷ lens) = joined_before-accumulate (wadd before l) m lens

pub joined_before-end_of : (lens : List ℕ) → joined_before (accumulate 0 lens) ≡ end_of 0 lens
unfolding joined_before accumulate end_of
joined_before-end_of [] = refl
joined_before-end_of (l ∷ lens) = joined_before-accumulate 0 l lens

module _ {V : Type 0} where
  -- What a step leaves as it was.
  pub record Keeps (g g' : Aggregation V) : Type 0 where
    pub positions : g'.reader_udim_pos ≡ g.reader_udim_pos
    pub readers : g'.readers ≡ g.readers
    pub agg_type : g'.agg_type ≡ g.agg_type

  -- A step by one reader of length `len`
  pub record Extends (len : ℕ) (g g' : Aggregation V) : Type 0 where
    pub positions :
        g'.reader_udim_pos ≡ g.reader_udim_pos ++ wadd (joined_before g.reader_udim_pos) len ∷ []
    pub readers : g'.readers ≡ g.readers
    pub agg_type : g'.agg_type ≡ g.agg_type

  pub Keeps-refl : (g : Aggregation V) → Keeps g g
  Keeps-refl g = record { positions = refl; readers = refl; agg_type = refl }

  pub Keeps-trans : {a b c : Aggregation V} → Keeps a b → Keeps b c → Keeps a c
  Keeps-trans p q = record {
    positions = q.positions ∙ p.positions;
    readers = q.readers ∙ p.readers;
    agg_type = q.agg_type ∙ p.agg_type;
  }

  pub Keeps-Extends :
      {len : ℕ} {a b c : Aggregation V} → Keeps a b → Extends len b c → Extends len a c
  Keeps-Extends {len} p q = record {
    positions =
        q.positions ∙ ap (λ (ps : List ℕ). ps ++ wadd (joined_before ps) len ∷ []) p.positions;
    readers = q.readers ∙ p.readers;
    agg_type = q.agg_type ∙ p.agg_type;
  }

  pub Extends-Keeps :
      {len : ℕ} {a b c : Aggregation V} → Extends len a b → Keeps b c → Extends len a c
  Extends-Keeps p q = record {
    positions = q.positions ∙ p.positions;
    readers = q.readers ∙ p.readers;
    agg_type = q.agg_type ∙ p.agg_type;
  }

  pub extend_joined-Extends :
      (len : ℕ) (cv : Bytes) (g : Aggregation V) → Extends len g (extend_joined len cv g).1
  unfolding extend_joined extend_positions
  extend_joined-Extends len cv g = elim (Bool-cases (length cv == 0)) [
    | inl e ↦ rw e (record { positions = refl; readers = refl; agg_type = refl })
    | inr e ↦ elim (Bool-cases (not (length (tokenize cv (codes " ")) == len))) [
      | inl f ↦ rw (e, f) (record { positions = refl; readers = refl; agg_type = refl })
      | inr f ↦ rw (e, f) (record { positions = refl; readers = refl; agg_type = refl })
    ]
  ]

  pub on_cdm-Keeps :
      (f : Cdm V → Result (Unit {0}) × Cdm V) (g : Aggregation V) → Keeps g (on_cdm f g).1
  unfolding on_cdm
  on_cdm-Keeps f g = record { positions = refl; readers = refl; agg_type = refl }

  -- A relation that every state and every step has, over a sequence of statements
  pub chain-Keeps {ℓ κ} :
      {A : Type ℓ} {B : Type κ} (g : Aggregation V) (m : Result A × Aggregation V)
      (f : A → Aggregation V → Result B × Aggregation V)
      → Keeps g m.1
      → ((a : A) (s : Aggregation V) → Keeps s (f a s).1)
      → Keeps g (chain m f).1
  chain-Keeps g (ok a, s) f k h = Keeps-trans k (h a s)
  chain-Keeps g (err e, s) f k h = k

  pub for_each-Keeps {ℓ} :
      {A : Type ℓ} (xs : List A) (step : A → Aggregation V → Result (Unit {0}) × Aggregation V)
      (g : Aggregation V)
      → ((a : A) (s : Aggregation V) → Keeps s (step a s).1)
      → Keeps g (for_each xs step g).1
  unfolding for_each
  for_each-Keeps [] step g h = Keeps-refl g
  for_each-Keeps (x ∷ xs) step g h =
      chain-Keeps g (step x g) _ (h x g) (λ u s. for_each-Keeps xs step s h)

  -- A statement that returned, and then one that extends
  pub chain-Extends {ℓ κ} :
      {A : Type ℓ} {B : Type κ} (len : ℕ) (g : Aggregation V) (m : Result A × Aggregation V)
      (f : A → Aggregation V → Result B × Aggregation V) {b : B}
      → (chain m f).0 ≡ ok b
      → Keeps g m.1
      → ((a : A) (s : Aggregation V) → (f a s).0 ≡ ok b → Extends len s (f a s).1)
      → Extends len g (chain m f).1
  chain-Extends len g (ok a, s) f e k h = Keeps-Extends k (h a s e)
  chain-Extends len g (err x, s) f e k h = cc

  -- A statement that extends, and then one that keeps
  pub chain-then-Keeps {ℓ κ} :
      {A : Type ℓ} {B : Type κ} (len : ℕ) (g : Aggregation V) (m : Result A × Aggregation V)
      (f : A → Aggregation V → Result B × Aggregation V)
      → Extends len g m.1
      → ((a : A) (s : Aggregation V) → Keeps s (f a s).1)
      → Extends len g (chain m f).1
  chain-then-Keeps len g (ok a, s) f x h = Extends-Keeps x (h a s)
  chain-then-Keeps len g (err e, s) f x h = x
