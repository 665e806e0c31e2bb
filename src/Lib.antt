-- ===== src/Lib.antt =====
-- Fimex reads, converts and writes gridded geospatial data. Its parts exchange a common data model
-- (CDM: named variables, dimensions and attributes) and arrays of data that are cut out of files
-- slice by slice: a reader owns a CDM, a client describes a slice with a SliceBuilder, and the
-- array classes do the index arithmetic. This development models that core.
--
-- Cdm: the data model of src/CDM.cc, include/fimex/CDMVariable.h, CDMDimension.h, CDMAttribute.h
--   and CDMDataType.h. Cdm/Model holds the records, Cdm/Variables and Cdm/Dimensions one function
--   for each method (addVariable is add_variable, and so on), which takes the data model and
--   returns its result, or the exception, with the data model as it is then, also after an
--   exception. Cdm/WellFormed is the invariant and its preservation by each method, Cdm/Reachable
--   closes it under sequences of calls; Cdm/Rename and Cdm/RenameDimension are about the two
--   renamings, Cdm/Find about findVariables, over any regular expressions. std::map is an
--   association list in the order of its keys (Prelude/Dict).
-- Slice: SliceBuilder (include/fimex/SliceBuilder.h, src/SliceBuilder.cc).
-- Data: recursiveCopyMultiDimData (include/fimex/RecursiveSliceCopy.h), slice and copyData of
--   DataImpl (src/DataImpl.h), product (src/MathUtils.cc), DataIndex (include/fimex/DataIndex.h,
--   src/DataIndex.cc), and setDims of IndexedData (src/IndexedData.cc). Elements are of any type.
-- Reader: CDMReader (src/CDMReader.cc) and createDataSlice (src/Data.cc). The virtual getDataSlice
--   for a position of the unlimited dimension is a field of the record that the methods take, as
--   are the values that new arrays are filled with; the theorems name what they need of it.
--   Variables of type CDM_STRING and CDM_NAT, whose data are not arrays of elements, are left out.
-- ReaderUtils: of src/CDMReaderUtils.cc the comparison of the shapes of two variables (Shapes) and
--   the searches for a name that is not in use (UniqueNames). The `int` that these count with is a
--   natural number, which it is as long as there are fewer than 2^31 names.
-- Extractor: CDMExtractor (src/CDMExtractor.cc): the forms of reduceDimension, selectVariables, and
--   how a slice of reduced dimensions is read as slices of the original ones (Extractor/Slices).
--   Extractor/Chunks is about the chunks of one dimension, Extractor/Range about
--   reduceDimensionStartEnd, Extractor/Select about selectVariables, Extractor/Reduced about what
--   reduceDimension leaves of the data model.
-- Aggregation: AggregationReader (include/fimex/AggregationReader.h, src/AggregationReader.cc):
--   addReader in Aggregation and Aggregation/Readers, getDataSlice in Aggregation/Slices and
--   BuiltSlices. The readers that are joined are records of their data model and their two virtual
--   getDataSlice.
--   Aggregation/Positions relates positions to readers, Aggregation/Joined, Kept, Lengths and Added are about
--   what addReader keeps, Aggregation/Read and Missing about slices and fill values.
-- CoordinateSystem: the axes of a coordinate system (include/fimex/coordSys/CoordinateAxis.h,
--   src/coordSys/CoordinateSystem.cc), and in CoordinateSystem/Slices the slice builder that knows
--   them (src/CoordinateSystemSliceBuilder.cc). Slices/Sliced and Made are about what its setters
--   and its constructor make, Slices/TimeVariable about the slice of the time variable.
--   CoordinateSystem/Invariant is about what the setters of a system keep.
-- Merge: addAuxiliary and, in Merge/Axes, checkAxesCompatibility, in Merge/Compatible
--   is_compatible (src/CDMMergeUtils.cc), and selectVariables of CDMExtractor with auxiliary variables
--   (Merge/Select). Merge/Insert, Needs and Closure are about one round and all of them.
-- ArrayLoop: ArrayDims (ArrayLoop/Dims), ArrayGroup (ArrayLoop/Group) and Loop (ArrayLoop/Counter) of
--   include/fimex/ArrayLoop.h and src/ArrayLoop.cc.
-- StringUtils: src/StringUtils.cc over lists of bytes.
--   StringUtils/Tokens, Affixes, Join and Trim are about single functions.
-- FimexTime: times (include/fimex/FimexTime.h, src/FimexTime.cc), how they are printed and, in
--   FimexTime/Parse, read. FimexTime/Numbers holds string2type of signed integers
--   (include/fimex/String2Type.h) and tokenizeDotted (include/fimex/TokenizeDotted.h), for numbers
--   of any type with its arithmetic and that of `double` as parameters; what is relied on of `double`
--   is in FimexTime/Doubles. FimexTime/RoundTrip is about times that are printed and read,
--   FimexTime/Dots about the values that dots stand for, FimexTime/Order about how times are
--   compared.
-- Prelude: what these share, exceptions as values and size_t arithmetic modulo 2^64 among it.
-- Tests: concrete runs, and the theorems at concrete inputs.
--
-- Loops are structural recursion on what they walk over, but for tokenize, whose fuel is the length
-- of the text: each round consumes a byte; and for a whole loop over arrays, whose fuel is any number
-- that is at least the product of the lengths looped over, and for addAuxiliary, whose fuel is any
-- number above that of the names that can be inserted, and for the searches of unused names, whose
-- fuel is any number above that of the variables or dimensions. The loop of
-- tokenizeDotted that expands dots may not end: it is on fuel that the theorems name, as are the
-- values for which it is enough. Names are texts that are only compared, or get digits appended. Characters of
-- StringUtils are ASCII bytes, and tolower is that of the "C" locale.
--
-- Not modelled: file formats and plug-ins, interpolation and projection, unit conversion, which
-- need floating point or third-party libraries; XML; the cached coordinate systems of a CDM, of
-- which only the flag that they are valid is kept; the language bindings.
pub mod Prelude
pub mod StringUtils
pub mod Cdm
pub mod Slice
pub mod Data
pub mod Reader
pub mod ReaderUtils
pub mod Extractor
pub mod ArrayLoop
pub mod Aggregation
pub mod FimexTime
pub mod CoordinateSystem
pub mod Merge
pub mod Tests
