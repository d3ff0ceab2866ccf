-- ===== src/Schemes.antt =====
-- CollectionSchemeManager: which collection schemes run, and when.
pub mod Types
pub mod Schedule
pub mod Update
pub mod Rebuild
pub mod Changes
pub mod Reports
pub mod TimeLine
pub mod Scheduled
pub mod Expiry
pub mod Keep
pub mod Updated
pub mod Manager
pub mod Templates
pub mod MainLoop
pub mod Places
pub mod Handover
mod Tests
