-- ===== src/Can/Tests.antt =====
-- Runs of src/CANDecoder.cpp on a frame, and the theorems about it at them.
use aws_iot_fleetwise_edge.Prelude.{
  ℕ, ◌+◌, ◌-◌, ◌*◌, ◌%◌, ◌^◌, true, false, List, [], ◌∷◌, some, ◌≡◌, refl, inr, arith,
}
use aws_iot_fleetwise_edge.Can.Types.{
  Doubles, CanSignalFormat, CanMessageFormat, DecodedSignalValue, SignalType, RawSignalType,
}
use aws_iot_fleetwise_edge.Can.Extract.{
  extract_raw_signal_from_frame, extract_integer_signal_from_frame,
}
use aws_iot_fleetwise_edge.Can.Extracted.{extract_raw_signal_from_frame-field}
use aws_iot_fleetwise_edge.Can.Signed.{extract_integer_signal_from_frame-field}
use aws_iot_fleetwise_edge.Can.Pack.{pack, extract_integer_signal_from_frame-pack}
use aws_iot_fleetwise_edge.Can.Decode.{decode_can_message}
use aws_iot_fleetwise_edge.Can.Message.{decode_can_message-fields}

-- Whole numbers in place of the floating point ones.
abbrev whole_numbers : Doubles
whole_numbers = record {
  Double = ℕ;
  of_uint64 = λ n. n;
  of_int64 = λ n. n;
  of_float_bits = λ n. n;
  of_double_bits = λ n. n;
  times = λ a b. a * b;
  plus = λ a b. a + b;
  to_uint8 = λ n. n % 2 ^ 8;
  to_uint64 = λ n. n % 2 ^ 64;
  to_int64 = λ n. n % 2 ^ 64;
}

-- Twelve bits from bit 4 on, in the upper half of byte 0 and in byte 1.
abbrev twelve_bits : CanSignalFormat ℕ
twelve_bits = record {
  signal_id = 7;
  is_big_endian = false;
  is_signed = true;
  first_bit_position = 4;
  size_in_bits = 12;
  offset = 1;
  factor = 2;
  is_multiplexor_signal = false;
  signal_type = SignalType.int64;
  raw_signal_type = RawSignalType.integer;
  multiplexor_value = 255;
}

-- Ten bits that end at bit 2 of byte 1, the higher ones in byte 0.
abbrev ten_bits : CanSignalFormat ℕ
ten_bits = record {
  signal_id = 8;
  is_big_endian = true;
  is_signed = false;
  first_bit_position = 10;
  size_in_bits = 10;
  offset = 0;
  factor = 1;
  is_multiplexor_signal = false;
  signal_type = SignalType.uint64;
  raw_signal_type = RawSignalType.integer;
  multiplexor_value = 255;
}

-- Beyond the end of the frame.
abbrev beyond : CanSignalFormat ℕ
beyond = record {
  signal_id = 9;
  is_big_endian = false;
  is_signed = false;
  first_bit_position = 20;
  size_in_bits = 8;
  offset = 0;
  factor = 1;
  is_multiplexor_signal = false;
  signal_type = SignalType.uint64;
  raw_signal_type = RawSignalType.integer;
  multiplexor_value = 255;
}

abbrev three_bytes : List ℕ
three_bytes = 0xA5 ∷ 0xF3 ∷ 0x10 ∷ []

abbrev message : CanMessageFormat ℕ
message = record {
  message_id = 1;
  size_in_bytes = 3;
  is_multiplexed = false;
  signals = twelve_bits ∷ ten_bits ∷ beyond ∷ [];
}

extract_raw_signal_from_frame-field_example :
    extract_raw_signal_from_frame 64 three_bytes ten_bits ≡ some 0x17C
extract_raw_signal_from_frame-field_example =
    extract_raw_signal_from_frame-field 64 three_bytes ten_bits
      (
        (omega arith, (omega arith, (omega arith, tt))),
        omega arith,
        omega arith,
        omega arith,
        omega arith,
      )
      (omega arith) (omega arith)

-- 0xF3A as a signed number of twelve bits: -198.
extract_integer_signal_from_frame-field_example :
    extract_integer_signal_from_frame three_bytes twelve_bits ≡ some (2 ^ 64 - 198)
extract_integer_signal_from_frame-field_example =
    extract_integer_signal_from_frame-field three_bytes twelve_bits
      (
        (omega arith, (omega arith, (omega arith, tt))),
        omega arith,
        omega arith,
        omega arith,
        omega arith,
      )
      (omega arith)

extract_integer_signal_from_frame-pack_example :
    extract_integer_signal_from_frame (pack three_bytes twelve_bits (2 ^ 64 - 5)) twelve_bits
    ≡ some (2 ^ 64 - 5)
extract_integer_signal_from_frame-pack_example =
    extract_integer_signal_from_frame-pack three_bytes twelve_bits (2 ^ 64 - 5) refl (omega arith)
      (omega arith) (omega arith) (omega arith) (inr (omega arith, omega arith))

decode_can_message-fields_example :
    decode_can_message whole_numbers three_bytes message (7 ∷ 8 ∷ 9 ∷ []) []
    ≡ some (
      false,
      (record {
        signal_id = 7;
        value = DecodedSignalValue.int64_val (2 ^ 64 - 395);
        signal_type = SignalType.int64;
      })
          ∷ (record {
            signal_id = 8;
            value = DecodedSignalValue.uint64_val 0x17C;
            signal_type = SignalType.uint64;
          })
          ∷ [],
    )
decode_can_message-fields_example =
    decode_can_message-fields whole_numbers three_bytes message (7 ∷ 8 ∷ 9 ∷ []) []
      (omega arith, (omega arith, (omega arith, tt))) (omega arith) refl
      ((omega arith, omega arith), ((omega arith, omega arith), ((omega arith, omega arith), tt)))
