-- ===== src/Reader.antt =====
-- CDMReader (src/CDMReader.cc): how whole variables and slices are put together from the slices
-- that a kind of reader delivers for one position of the unlimited dimension.
pub mod Joined
pub mod Slices
pub mod Memory
use fimex.Cdm.Dimensions.{get_unlimited_dim, has_unlimited_dim}
use fimex.Slice.Builder.{shape_dims}
use fimex.Cdm.Variables.{get_variable}
use fimex.Data.Impl.{copy_data, product}
use fimex.Prelude.Words.{wmul, size_mod}
use fimex.Cdm.Model.{Cdm, CdmDimension}
use fimex.Prelude.{
  none, some, zero, suc, zero, ◌+◌, replicate, suc, some, ◌-◌, if◌then◌else◌, String, ℕ, List, [],
  ◌∷◌,
}
use fimex.Prelude.Result.{ok, Result, ◌>>=◌, ◌>>◌}

-- What a kind of reader brings along: the virtual getDataSlice(varName, unLimDimPos), the value
-- that createData fills an array with if it is given none, and the one that it makes of the
-- variable's fill value.
pub record CdmReader (V : Type 0) : Type 0 where
  pub cdm : Cdm V
  pub get_data_slice_at : String → ℕ → Result (List V)
  pub empty_value : V
  pub fill_value : String → V

-- The loops of getDims and getDimsSlice over a shape
unfoldable pub lengths_of : List CdmDimension → List ℕ
lengths_of [] = []
lengths_of (d ∷ ds) = d.length ∷ lengths_of ds

unfoldable pub limited_lengths_of : List CdmDimension → List ℕ
limited_lengths_of [] = []
limited_lengths_of (d ∷ ds) =
    if d.unlimited then limited_lengths_of ds else d.length ∷ limited_lengths_of ds

module _ {V : Type 0} where
  unfoldable pub get_dims : CdmReader V → String → Result (List ℕ)
  get_dims reader var_name = do
    variable ← get_variable var_name reader.cdm
    ds ← shape_dims reader.cdm variable.shape
    ok (lengths_of ds)

  unfoldable pub get_dims_slice : CdmReader V → String → Result (List ℕ)
  get_dims_slice reader var_name = do
    variable ← get_variable var_name reader.cdm
    ds ← shape_dims reader.cdm variable.shape
    ok (limited_lengths_of ds)

  -- The loop of getData: position `i` and those behind it, `rounds` in all.
  unfoldable pub fill_rounds : CdmReader V → String → ℕ → ℕ → ℕ → List V → Result (List V)
  fill_rounds reader var_name slice_size zero i values = ok values
  fill_rounds reader var_name slice_size (suc rounds) i values = do
    slice_values ← reader.get_data_slice_at var_name i
    values' ← copy_data values (wmul i slice_size) slice_values 0 slice_size
    fill_rounds reader var_name slice_size rounds (i + 1) values'

  -- getData without data in memory, for a variable with the unlimited dimension
  unfoldable pub get_unlimited_data : CdmReader V → String → CdmDimension → Result (List V)
  get_unlimited_data reader var_name udim = do
    dims ← get_dims_slice reader var_name
    let slice_size = product dims
    fill_rounds reader var_name slice_size udim.length 0
        (replicate (wmul udim.length slice_size) reader.empty_value)

  -- getData; a variable has the unlimited dimension only if the data model has one.
  unfoldable pub get_data : CdmReader V → String → Result (List V)
  unfolding get_unlimited_data
  get_data reader var_name = do
    variable ← get_variable var_name reader.cdm
    elim variable.payload [
      | some d ↦ ok d.values
      | none ↦
          if has_unlimited_dim variable reader.cdm
          then elim (get_unlimited_dim reader.cdm) [
            | none ↦ reader.get_data_slice_at var_name 0
            | some udim ↦ get_unlimited_data reader var_name udim
          ]
          else reader.get_data_slice_at var_name 0
    ]
