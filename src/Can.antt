-- ===== src/Can.antt =====
-- CANDecoder: src/CANDecoder.cpp, with the formats of include/aws/iotfleetwise/SignalTypes.h and
-- include/aws/iotfleetwise/MessageTypes.h.
pub mod Types
pub mod Extract
pub mod Decode
pub mod Field
pub mod Residual
pub mod Extracted
pub mod Signed
pub mod Pack
pub mod Message
mod Tests
