-- ===== src/Prelude/Text/Lists.antt =====
-- Names in lists: appending, and tests of some name of a list.
use fimex.Prelude.{
  ◌∙◌, sym, inr, ap, refl, [], inl, Bool-cases, arith, ◌∷◌, ◌||◌, true, ◌≡◌, ◌++◌, Bool, List,
  String, any,
}
use fimex.Prelude.Text.{eq_iff, str_eq_refl, contains, str_eq}

pub contains-append :
    (d : String) (xs ys : List String) → contains d (xs ++ ys) ≡ (contains d xs || contains d ys)
unfolding contains
contains-append d [] ys = refl
contains-append d (x ∷ xs) ys = ground (arith, contains-append d xs ys)

pub any-intro :
    (p : String → Bool) (n : String) (ns : List String)
    → contains n ns ≡ true
    → p n ≡ true
    → any p ns ≡ true
unfolding contains
any-intro p n [] h e = cc
any-intro p n (m ∷ ns) h e = elim (Bool-cases (str_eq n m)) [
  | inl q ↦ rw (ap p (sym ((eq_iff n m).0 q)) ∙ e) refl
  | inr q ↦ ground (arith, any-intro p n ns (ground (arith, h, q)) e)
]

pub any-elim :
    {Q : Type 0} (p : String → Bool) (ns : List String)
    → ((n : String) → contains n ns ≡ true → p n ≡ true → Q)
    → any p ns ≡ true
    → Q
unfolding contains
any-elim p [] k h = cc
any-elim p (m ∷ ns) k h = elim (Bool-cases (p m)) [
  | inl e ↦ k m (ground (arith, str_eq_refl m)) e
  | inr e ↦ any-elim p ns (λ n c q. k n (ground (arith, c)) q) (rw e at h)
]
