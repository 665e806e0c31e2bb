-- ===== src/Tests/ReaderRuns.antt =====
-- A reader of two time steps with three values each.
use fimex.Reader.Memory.{get_data_slice_from_memory-part, part}
use fimex.Data.SliceCopy.{copy_run, skip_after, skip_before, recursive_copy_multi_dim_data}
use fimex.Cdm.DataType.{CdmDataType}
use fimex.Prelude.Dict.{insert}
use fimex.Prelude.Result.{ok}
use fimex.Reader.Joined.{get_data-joined, slices_from, Delivers}
use fimex.Reader.{limited_lengths_of, get_dims_slice, get_data, CdmReader}
use fimex.Prelude.Text.{contains}
use fimex.Data.Impl.{write_at, copy_data, slice_sizes, slice_checks, slice, product, product_from}
use fimex.Cdm.Variables.{get_variable}
use fimex.Reader.Slices.{
  get_data_slice_from_memory, can_be_sliced, join_one, join_rounds, sort_one, sort_apart,
  get_unlimited_data_slice, get_data_slice,
}
use fimex.Cdm.Dimensions.{get_dimension, has_unlimited_dim, get_unlimited_dim}
use fimex.Cdm.Model.{Data, new_dimension, new_variable, Cdm, CdmDimension, CdmVariable}
use fimex.Slice.Builder.{
  fill_names, positions, get_dimension_names, initial, shape_dims, SliceBuilder,
}
use fimex.Prelude.{arith, some, ◌+◌, ◌≡◌, ◌*◌, ℕ, List, [], ◌∷◌, refl, true, false}

abbrev time_dim : CdmDimension
time_dim = record { name = "time"; length = 2; unlimited = true }

abbrev pressure : CdmVariable ℕ
pressure = new_variable "p" CdmDataType.int ("x" ∷ "time" ∷ [])

abbrev model : Cdm ℕ
model = record {
  attributes = [];
  variables = pressure ∷ [];
  dimensions = new_dimension "x" 3 ∷ time_dim ∷ [];
  coords_initialized = false;
}

abbrev steps : ℕ → List ℕ
steps i = (10 * i) ∷ (10 * i + 1) ∷ (10 * i + 2) ∷ []

abbrev reader : CdmReader ℕ
reader = record {
  cdm = model;
  get_data_slice_at = λ n i. ok (steps i);
  empty_value = 0;
  fill_value = λ n. 99;
}

variable_run : get_variable "p" model ≡ ok pressure
unfolding get_variable
variable_run = refl

udim_run : get_unlimited_dim model ≡ some time_dim
unfolding get_unlimited_dim
udim_run = refl

dims_run : get_dims_slice reader "p" ≡ ok (3 ∷ [])
unfolding get_dims_slice get_variable shape_dims get_dimension limited_lengths_of
dims_run = refl

in_shape : contains "time" ("x" ∷ "time" ∷ []) ≡ true
unfolding contains
in_shape = refl

reader-Delivers : Delivers reader "p" 2 (product (3 ∷ [])) steps
unfolding product_from
reader-Delivers = record { delivered = λ i h. refl; sizes = λ i h. refl; small = omega arith }

get_data-joined_example : get_data reader "p" ≡ ok (slices_from steps 0 2)
get_data-joined_example =
    get_data-joined reader "p" pressure time_dim (3 ∷ []) steps variable_run refl udim_run in_shape
      dims_run reader-Delivers

abbrev builder : SliceBuilder
builder = initial ("x" ∷ "time" ∷ []) (3 ∷ 2 ∷ []) (false ∷ false ∷ [])

slice_of_model : get_data_slice reader "p" builder ≡ ok (0 ∷ 1 ∷ 2 ∷ 10 ∷ 11 ∷ 12 ∷ [])
unfolding get_data_slice get_variable has_unlimited_dim get_unlimited_dim get_unlimited_data_slice
    get_dimension_names positions insert fill_names sort_apart sort_one join_rounds join_one slice
    slice_checks slice_sizes recursive_copy_multi_dim_data skip_before skip_after copy_run copy_data
    write_at
slice_of_model = refl

abbrev stored : Data ℕ
stored = record { data_type = CdmDataType.int; values = 0 ∷ 1 ∷ 2 ∷ 10 ∷ 11 ∷ 12 ∷ [] }

abbrev filled : CdmVariable ℕ
filled = record pressure { payload = some stored }

can_run : can_be_sliced CdmDataType.int ≡ true
unfolding can_be_sliced
can_run = refl

unlimited_run : has_unlimited_dim filled model ≡ true
unfolding has_unlimited_dim get_unlimited_dim contains
unlimited_run = refl

product_run : 6 ≡ 2 * product (3 ∷ [])
unfolding product_from
product_run = refl

get_data_slice_from_memory-part_example :
    (get_data_slice_from_memory reader filled 1
      ≡ ok (some (part stored.values (product (3 ∷ [])) 1)))
    × (slices_from (part stored.values (product (3 ∷ []))) 0 2 ≡ stored.values)
get_data_slice_from_memory-part_example =
    get_data_slice_from_memory-part reader filled stored (3 ∷ []) 2 1 refl can_run unlimited_run
      dims_run (omega arith) product_run (omega arith) (omega arith)
