-- ===== src/Cdm/Model.antt =====
-- The parts of the data model: include/fimex/CDMDimension.h, CDMVariable.h, CDMAttribute.h, Data.h,
-- with src/CDMVariable.cc, and the state of CDM (src/CDM.cc, CDMImpl). `V` stands for the elements
-- of data arrays, of whatever C++ type. The coordinate systems that `enhance` caches are not
-- modelled, the flag that says whether the cache is valid is.
use fimex.Prelude.{ℕ, Bool, false, Option, none, some, is_some, List, [], String, if◌then◌else◌}
use fimex.Prelude.Text.{str_eq, contains}
use fimex.Prelude.Result.{Result, ok, err, cdm_exception}
use fimex.Prelude.Dict.{Dict}
use fimex.Cdm.DataType.{CdmDataType, type_eq}

pub record CdmDimension : Type 0 where
  pub name : String
  pub length : ℕ
  pub unlimited : Bool

-- CDMDimension::CDMDimension(name, length)
abbrev pub new_dimension : String → ℕ → CdmDimension
new_dimension name length = record { name = name; length = length; unlimited = false }

pub data SpatialVectorDirection : Type 0 where
  spatial_vector_none spatial_vector_x spatial_vector_y : SpatialVectorDirection
  spatial_vector_lon spatial_vector_lat : SpatialVectorDirection

-- An array with its element type.
pub record Data (V : Type 0) : Type 0 where
  pub data_type : CdmDataType
  pub values : List V

pub record CdmVariable (V : Type 0) : Type 0 where
  pub name : String
  pub datatype : CdmDataType
  pub shape : List String
  pub payload : Option (Data V)
  pub spatial_vector_counterpart : String
  pub spatial_vector_direction : SpatialVectorDirection

pub record CdmAttribute (V : Type 0) : Type 0 where
  pub name : String
  pub payload : Data V

pub record Cdm (V : Type 0) : Type 0 where
  pub attributes : Dict (List (CdmAttribute V))
  pub variables : List (CdmVariable V)
  pub dimensions : List CdmDimension
  pub coords_initialized : Bool

-- CDM::globalAttributeNS
abbrev pub global_attribute_ns : String
global_attribute_ns = "_GLOBAL"

module _ {V : Type 0} where
  -- CDM::CDM
  abbrev pub empty_cdm : Cdm V
  empty_cdm = record {
    attributes = [];
    variables = [];
    dimensions = [];
    coords_initialized = false;
  }

  -- CDMNameEqual, for each kind of entity
  abbrev pub var_named : String → CdmVariable V → Bool
  var_named n v = str_eq n v.name

  abbrev pub attr_named : String → CdmAttribute V → Bool
  attr_named n a = str_eq n a.name

  -- CDMVariable::CDMVariable
  abbrev pub new_variable : String → CdmDataType → List String → CdmVariable V
  new_variable name datatype shape = record {
    name = name;
    datatype = datatype;
    shape = shape;
    payload = none;
    spatial_vector_counterpart = "";
    spatial_vector_direction = spatial_vector_none;
  }

  -- CDMVariable::checkDimension
  unfoldable pub check_dimension : CdmVariable V → String → Bool
  unfolding contains
  check_dimension v dimension = contains dimension v.shape

  -- CDMVariable::setDataType: data of another type is dropped.
  unfoldable pub set_data_type : CdmVariable V → CdmDataType → CdmVariable V
  set_data_type v type = record v {
    datatype = type;
    payload = elim v.payload [
      | none ↦ none
      | some d ↦ if type_eq type d.data_type then some d else none
    ];
  }

  -- CDMVariable::setData
  unfoldable pub set_data : CdmVariable V → Option (Data V) → Result (CdmVariable V)
  set_data v none = ok (record v { payload = none })
  set_data v (some d) =
      if type_eq v.datatype d.data_type
      then ok (record v { payload = some d })
      else err cdm_exception

  -- CDMVariable::hasData
  abbrev pub has_data : CdmVariable V → Bool
  has_data v = is_some v.payload

  -- CDMVariable::setAsSpatialVector
  unfoldable pub set_as_spatial_vector :
      CdmVariable V → String → SpatialVectorDirection → CdmVariable V
  set_as_spatial_vector v counterpart direction = record v {
    spatial_vector_counterpart = counterpart;
    spatial_vector_direction = direction;
  }

abbrev pub dim_named : String → CdmDimension → Bool
dim_named n d = str_eq n d.name
