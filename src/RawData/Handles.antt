-- ===== src/RawData/Handles.antt =====
-- `generateHandleID` of src/RawDataManager.cpp and the counter of RawDataManager.h.
use aws_iot_fleetwise_edge.Prelude.{ℕ, ◌*◌, ◌%◌, ◌^◌, ◌<◌, ◌≡◌, ◌≢◌, arith}
use aws_iot_fleetwise_edge.Prelude.Bits.{bit_or_byte}
use aws_iot_fleetwise_edge.RawData.Manager.{
  generate_raw_msg_counter, generate_handle_id, invalid_buffer_handle,
}

-- The counter stays a `uint8_t` and is never 0.
pub generate_raw_msg_counter_range :
    (counter : ℕ)
    → counter < 256
    → (0 < generate_raw_msg_counter counter) × (generate_raw_msg_counter counter < 256)
unfolding generate_raw_msg_counter
generate_raw_msg_counter_range counter h = ground arith

shifted : (timestamp : ℕ) → timestamp * 256 % 2 ^ 64 ≡ timestamp % 2 ^ 56 * 256
shifted timestamp = omega arith

-- The low byte of a handle is the counter.
generate_handle_id-low :
    (counter timestamp : ℕ) → counter < 256 → generate_handle_id counter timestamp % 256 ≡ counter
unfolding generate_handle_id
generate_handle_id-low counter timestamp h =
    rw (shifted timestamp) (omega (arith, bit_or_byte counter (timestamp % 2 ^ 56)))

-- Whatever the timestamp and the value of the counter below 256, the next handle fits 32 bits, has
-- the new counter for its low byte, and is not the invalid handle.
next_handle_valid :
    (counter timestamp : ℕ)
    → counter < 256
    → let handle = generate_handle_id (generate_raw_msg_counter counter) timestamp in
      (handle < 2 ^ 32)
      × (handle % 256 ≡ generate_raw_msg_counter counter)
      × (handle ≢ invalid_buffer_handle)
unfolding generate_handle_id
next_handle_valid counter timestamp h =
    let r = generate_raw_msg_counter_range counter h in
    let l = generate_handle_id-low (generate_raw_msg_counter counter) timestamp r.1 in
    (omega arith, l, omega (arith, l, r))
