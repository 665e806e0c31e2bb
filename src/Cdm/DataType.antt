-- ===== src/Cdm/DataType.antt =====
-- The data types and their names (include/fimex/CDMDataType.h, src/CDMDataType.cc).
use fimex.Prelude.{ℕ, Bool, ◌==◌, ◌≡◌, refl, ◌||◌, if◌then◌else◌}
use fimex.StringUtils.{Bytes, codes, bytes_eq, string2lower_case, string2lower_case_idem}

pub data CdmDataType : Type 0 where
  nat char short int float double string uchar ushort uint int64 uint64 strings : CdmDataType

-- The enumerators' values.
unfoldable pub type_code : CdmDataType → ℕ
type_code CdmDataType.nat = 0
type_code CdmDataType.char = 1
type_code CdmDataType.short = 2
type_code CdmDataType.int = 3
type_code CdmDataType.float = 4
type_code CdmDataType.double = 5
type_code CdmDataType.string = 6
type_code CdmDataType.uchar = 7
type_code CdmDataType.ushort = 8
type_code CdmDataType.uint = 9
type_code CdmDataType.int64 = 10
type_code CdmDataType.uint64 = 11
type_code CdmDataType.strings = 12

unfoldable pub type_eq : CdmDataType → CdmDataType → Bool
unfolding type_code
type_eq s t = type_code s == type_code t

unfoldable pub datatype2string : CdmDataType → Bytes
datatype2string CdmDataType.double = codes "double"
datatype2string CdmDataType.float = codes "float"
datatype2string CdmDataType.int = codes "int"
datatype2string CdmDataType.short = codes "short"
datatype2string CdmDataType.char = codes "char"
datatype2string CdmDataType.uchar = codes "uchar"
datatype2string CdmDataType.ushort = codes "ushort"
datatype2string CdmDataType.uint = codes "uint"
datatype2string CdmDataType.int64 = codes "int64"
datatype2string CdmDataType.uint64 = codes "uint64"
datatype2string CdmDataType.string = codes "string"
datatype2string CdmDataType.strings = codes "strings"
datatype2string CdmDataType.nat = codes "NAT"

-- The chain of comparisons with a text that is in lower case already.
unfoldable pub datatype_of_lower : Bytes → CdmDataType
datatype_of_lower str =
    if bytes_eq str (codes "double")
    then CdmDataType.double
    else if bytes_eq str (codes "float")
    then CdmDataType.float
    else if bytes_eq str (codes "int") || bytes_eq str (codes "long")
    then CdmDataType.int
    else if bytes_eq str (codes "short")
    then CdmDataType.short
    else if bytes_eq str (codes "char") || bytes_eq str (codes "byte")
    then CdmDataType.char
    else if bytes_eq str (codes "int64")
    then CdmDataType.int64
    else if bytes_eq str (codes "uint64")
    then CdmDataType.uint64
    else if bytes_eq str (codes "uint")
    then CdmDataType.uint
    else if bytes_eq str (codes "ushort")
    then CdmDataType.ushort
    else if bytes_eq str (codes "uchar") || bytes_eq str (codes "ubyte")
    then CdmDataType.uchar
    else if bytes_eq str (codes "string") || bytes_eq str (codes "String")
    then CdmDataType.string
    else if bytes_eq str (codes "strings")
    then CdmDataType.strings
    else CdmDataType.nat

unfoldable pub string2datatype : Bytes → CdmDataType
unfolding datatype_of_lower
string2datatype s = datatype_of_lower (string2lower_case s)

read_back : (t : CdmDataType) → string2datatype (datatype2string t) ≡ t
unfolding string2datatype datatype2string string2lower_case bytes_eq
read_back CdmDataType.nat = refl
read_back _ = refl

-- Each data type is read back from its printed name, and reading does not depend on the case of
-- the text.
pub string2datatype-datatype2string :
    (t : CdmDataType) (s : Bytes)
    → (string2datatype (datatype2string t) ≡ t)
      × (string2datatype (string2lower_case s) ≡ string2datatype s)
unfolding string2datatype
string2datatype-datatype2string t s = (read_back t, rw (string2lower_case_idem s))
