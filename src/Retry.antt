-- ===== src/Retry.antt =====
-- RetryThread: src/RetryThread.cpp, with include/aws/iotfleetwise/RetryThread.h.
pub mod Work
pub mod Backoff
mod Tests
