-- ===== src/Can/Types.antt =====
-- The formats of include/aws/iotfleetwise/SignalTypes.h and MessageTypes.h, and decoded signals.
use aws_iot_fleetwise_edge.Prelude.{ℕ, Bool, true, false, List, none, some, find_if, ◌==◌}

-- `SignalType`
pub data SignalType : Type 0 where
  uint8 : SignalType
  int8 : SignalType
  uint16 : SignalType
  int16 : SignalType
  uint32 : SignalType
  int32 : SignalType
  uint64 : SignalType
  int64 : SignalType
  float : SignalType
  double : SignalType
  boolean : SignalType
  unknown : SignalType
  complex_signal : SignalType
  string : SignalType

-- `RawSignalType`
pub data RawSignalType : Type 0 where
  integer : RawSignalType
  floating_point : RawSignalType

-- The floating point numbers of the platform, with the conversions and operations that the decoder
-- applies. An `int64_t` is given as its 64 bits.
pub record Doubles : Type 1 where
  pub Double : Type 0
  pub of_uint64 : ℕ → Double
  pub of_int64 : ℕ → Double
  pub of_float_bits : ℕ → Double
  pub of_double_bits : ℕ → Double
  pub times : Double → Double → Double
  pub plus : Double → Double → Double
  pub to_uint8 : Double → ℕ
  pub to_uint64 : Double → ℕ
  pub to_int64 : Double → ℕ

-- `CANSignalFormat`
pub record CanSignalFormat (D : Type 0) : Type 0 where
  pub signal_id : ℕ
  pub is_big_endian : Bool
  pub is_signed : Bool
  pub first_bit_position : ℕ
  pub size_in_bits : ℕ
  pub offset : D
  pub factor : D
  pub is_multiplexor_signal : Bool
  pub signal_type : SignalType
  pub raw_signal_type : RawSignalType
  pub multiplexor_value : ℕ

-- `CANMessageFormat`
pub record CanMessageFormat (D : Type 0) : Type 0 where
  pub message_id : ℕ
  pub size_in_bytes : ℕ
  pub is_multiplexed : Bool
  pub signals : List (CanSignalFormat D)

-- `DecodedSignalValue`: the member of the union that the type of the signal selects.
pub data DecodedSignalValue (D : Type 0) : Type 0 where
  uint64_val : ℕ → DecodedSignalValue D
  int64_val : ℕ → DecodedSignalValue D
  double_val : D → DecodedSignalValue D

-- `CANDecodedSignal`
pub record CanDecodedSignal (D : Type 0) : Type 0 where
  pub signal_id : ℕ
  pub value : DecodedSignalValue D
  pub signal_type : SignalType

-- `signalIDsToCollect.find( id ) != signalIDsToCollect.end()`
abbrev pub is_collected : List ℕ → ℕ → Bool
is_collected ids id = elim (find_if (λ i. i == id) ids) [ none ↦ false | some i ↦ true ]
