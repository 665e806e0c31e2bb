-- ===== src/Tests.antt =====
-- Concrete runs, and the theorems at concrete inputs.
mod CdmRuns
mod SliceRuns
mod DataRuns
mod TextRuns
mod ReaderRuns
mod ExtractorRuns
mod ArrayLoopRuns
mod AggregationRuns
mod MergeRuns
mod ReaderUtilsRuns
mod CoordinateSystemRuns
mod Decimals
mod FimexTimeRuns
