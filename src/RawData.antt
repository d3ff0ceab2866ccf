-- ===== src/RawData.antt =====
-- The raw data buffer manager: src/RawDataManager.cpp and include/aws/iotfleetwise/RawDataManager.h.
pub mod Types
pub mod Buffer
pub mod Config
pub mod Run
pub mod Stats
pub mod Manager
pub mod Usage
pub mod Update
pub mod Invariant
pub mod Replace
pub mod Push
pub mod Handles
pub mod Safety
pub mod Operations
pub mod Reset
pub mod Updates
pub mod Configure
mod Tests
