-- ===== src/ReaderUtils/Shapes.antt =====
-- The comparison of the shapes of two variables (src/CDMReaderUtils.cc), which disregards the
-- dimensions of length 1.
pub mod Extents
use fimex.Cdm.Dimensions.{get_dimension}
use fimex.Prelude.Text.{eq_iff, contains, str_eq}
use fimex.Cdm.WellFormed.{dim_names}
use fimex.Prelude.Named.{find_if-contains, Distinct}
use fimex.Prelude.Dict.{lookup-insert, insert, lookup, Dict}
use fimex.Cdm.Variables.{get_variable}
use fimex.Cdm.Model.{dim_named, CdmVariable, CdmDimension, Cdm}
use fimex.Prelude.{
  Option, is_some, Option-cases, find_if, arith, ap₂, ==_iff, ap, sym, ◌↔◌, ◌∙◌, ◌⊎◌, refl, inr,
  map, false, inl, if◌then◌else◌, ◌==◌, Bool-cases, true, remove_if, Bool, ◌∷◌, ◌≡◌, [], String,
  List, ℕ,
}
use fimex.Prelude.Result.{ok-injective, Result, ok, ◌>>=◌}
use fimex.Prelude.{none, some}

-- map<string, size_t> filled in the order of the dimensions
unfoldable pub insert_sizes : List CdmDimension → Dict ℕ → Dict ℕ
insert_sizes [] sizes = sizes
insert_sizes (d ∷ dims) sizes = insert_sizes dims (insert d.name d.length sizes)

-- dimSizes[n], which reads 0 where the map has no entry.
unfoldable pub size_at : Dict ℕ → String → ℕ
size_at sizes n = elim (lookup n sizes) [ none ↦ 0 | some size ↦ size ]

-- while (s2 != shape2.end() && (dimSizes2[*s2] == 1)) s2++;
unfoldable pub skip_unit : Dict ℕ → List String → List String
skip_unit sizes [] = []
skip_unit sizes (n ∷ shape) = if size_at sizes n == 1 then skip_unit sizes shape else n ∷ shape

-- The outer loop, from the positions s1 and s2 to the end.
unfoldable pub same_extents_from : Dict ℕ → Dict ℕ → List String → List String → Bool
same_extents_from sizes1 sizes2 [] s2 = elim (skip_unit sizes2 s2) [ [] ↦ true | _ ∷ _ ↦ false ]
same_extents_from sizes1 sizes2 (n ∷ s1) s2 = elim (size_at sizes1 n == 1) [
  | true ↦ same_extents_from sizes1 sizes2 s1 s2
  | false ↦ elim (skip_unit sizes2 s2) [
    | [] ↦ false
    | m ∷ rest ↦ elim (size_at sizes1 n == size_at sizes2 m) [
      | true ↦ same_extents_from sizes1 sizes2 s1 rest
      | false ↦ false
    ]
  ]
]

module _ {V : Type 0} where
  unfoldable pub get_cdm_dimension_sizes : Cdm V → Dict ℕ
  get_cdm_dimension_sizes c = insert_sizes c.dimensions []

  unfoldable pub compare_cdm_var_shapes : Cdm V → String → Cdm V → String → Result Bool
  unfolding get_variable get_cdm_dimension_sizes
  compare_cdm_var_shapes cdm1 var_name1 cdm2 var_name2 = get_variable var_name1 cdm1 >>= λ var1.
      get_variable var_name2 cdm2 >>= λ var2. ok (
        same_extents_from (get_cdm_dimension_sizes cdm1) (get_cdm_dimension_sizes cdm2) var1.shape
          var2.shape)
