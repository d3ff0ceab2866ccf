-- ===== src/Can/Extract.antt =====
-- extractRawSignalFromFrame and extractIntegerSignalFromFrame of src/CANDecoder.cpp.
use Prim.Native.Nat.{bit_and, bit_or, bit_xor}
use aws_iot_fleetwise_edge.Prelude.{
  ℕ, zero, suc, ◌+◌, ◌-◌, ◌*◌, ◌/◌, ◌%◌, ◌^◌, List, Option, none, some, get_elem?, ltb, leb,
  if◌then◌else◌, sub64, ◌>>=◌,
}
use aws_iot_fleetwise_edge.Can.Types.{CanSignalFormat}

-- `<<` and `>>` of an unsigned word of `w` bits: undefined, `none`, by `w` or more.
abbrev pub shift_left : ℕ → ℕ → ℕ → Option ℕ
shift_left w x n = if ltb n w then some (x * 2 ^ n % 2 ^ w) else none

abbrev pub shift_right : ℕ → ℕ → ℕ → Option ℕ
shift_right w x n = if ltb n w then some (x / 2 ^ n) else none

-- The body of both loops: a read out of the frame is undefined, `none`.
abbrev pub add_byte : ℕ → List ℕ → ℕ → ℕ → ℕ → Option ℕ
add_byte w frame_data count result result_length = do
  byte ← get_elem? frame_data count
  high ← shift_left w byte result_length
  some (bit_or result high)

-- `for ( int count = startByte + 1; count <= endByte; count++ )`, with the rounds that are left.
unfoldable pub residual_up : ℕ → List ℕ → (rounds count result result_length : ℕ) → Option ℕ
residual_up w frame_data zero count result result_length = some result
residual_up w frame_data (suc rounds) count result result_length = do
  longer ← add_byte w frame_data count result result_length
  residual_up w frame_data rounds (count + 1) longer ((result_length + 8) % 2 ^ 8)

-- `for ( int count = startByte - 1; count >= endByte; count-- )`, with the rounds that are left.
unfoldable pub residual_down : ℕ → List ℕ → (rounds count result result_length : ℕ) → Option ℕ
residual_down w frame_data zero count result result_length = some result
residual_down w frame_data (suc rounds) count result result_length = do
  longer ← add_byte w frame_data count result result_length
  residual_down w frame_data rounds (count - 1) longer ((result_length + 8) % 2 ^ 8)

-- `static_cast<uint8_t>( ( a - b ) / BYTE_SIZE )` of an `int`: division is towards zero, and the cast
-- of a negative number wraps.
abbrev pub byte_of_difference : ℕ → ℕ → ℕ
byte_of_difference a b =
    if leb b a then (a - b) / 8 % 2 ^ 8 else (2 ^ 8 - (b - a) / 8 % 2 ^ 8) % 2 ^ 8

module _ {D : Type 0} where
  abbrev pub start_byte : CanSignalFormat D → ℕ
  start_byte f = f.first_bit_position / 8 % 2 ^ 8

  abbrev pub start_bit_in_byte : CanSignalFormat D → ℕ
  start_bit_in_byte f = f.first_bit_position % 8

  abbrev pub end_byte_down : CanSignalFormat D → ℕ
  end_byte_down f = byte_of_difference (start_byte f * 8 + 8) (start_bit_in_byte f + f.size_in_bits)

  abbrev pub end_byte_up : CanSignalFormat D → ℕ
  end_byte_up f = byte_of_difference (f.first_bit_position + f.size_in_bits) 1

  unfoldable pub residual_bytes : ℕ → List ℕ → CanSignalFormat D → ℕ → Option ℕ
  residual_bytes w frame_data f result =
      let start = start_byte f in
      let result_length = 8 - start_bit_in_byte f in
      if f.is_big_endian
      then (residual_down w frame_data (start - end_byte_down f) (start - 1) result result_length)
      else residual_up w frame_data (end_byte_up f - start) (start + 1) result result_length

  -- `extractRawSignalFromFrame<T>` for a `T` of `w` bits.
  unfoldable pub extract_raw_signal_from_frame : ℕ → List ℕ → CanSignalFormat D → Option ℕ
  extract_raw_signal_from_frame w frame_data f = do
    first ← get_elem? frame_data (start_byte f)
    result ← residual_bytes w frame_data f (first / 2 ^ start_bit_in_byte f)
    mask ← shift_right w (2 ^ w - 1) (sub64 w f.size_in_bits)
    some (bit_and result mask)

  -- The `int64_t` is given as its 64 bits.
  unfoldable pub extract_integer_signal_from_frame : List ℕ → CanSignalFormat D → Option ℕ
  extract_integer_signal_from_frame frame_data f = do
    raw_value ← extract_raw_signal_from_frame 64 frame_data f
    if f.is_signed
        then (do
          msb_sign_mask ← shift_left 64 1 (sub64 f.size_in_bits 1)
          some (sub64 (bit_xor raw_value msb_sign_mask) msb_sign_mask))
        else some raw_value
