-- ===== src/Inspection.antt =====
-- CollectionInspectionEngine: src/CollectionInspectionEngine.cpp, with
-- include/aws/iotfleetwise/CollectionInspectionEngine.h and CollectionInspectionAPITypes.h.
pub mod Types
pub mod Eval
pub mod Meaning
pub mod Buffer
pub mod History
pub mod Recorded
pub mod Collect
pub mod Reading
pub mod Latest
pub mod Windows
pub mod Windowed
pub mod WindowValue
pub mod Connected
pub mod Formula
pub mod Conditions
pub mod Fetch
pub mod Trigger
pub mod Publish
pub mod Published
mod Tests
mod WindowTests
mod FormulaTests
