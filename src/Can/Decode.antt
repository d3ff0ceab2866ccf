-- ===== src/Can/Decode.antt =====
-- decodeCANMessage, decodeIntegerSignal and decodeFloatingPointSignal of src/CANDecoder.cpp.
use aws_iot_fleetwise_edge.Prelude.{
  ℕ, ◌+◌, ◌*◌, ◌%◌, ◌^◌, Bool, false, ◌&&◌, ◌||◌, not, List, [], ◌∷◌, ◌++◌, Option, none, some,
  length, find_if, ltb, leb, ◌==◌, if◌then◌else◌, ◌>>=◌,
}
use aws_iot_fleetwise_edge.Can.Types.{
  SignalType, RawSignalType, Doubles, CanSignalFormat, CanMessageFormat, DecodedSignalValue,
  CanDecodedSignal, is_collected,
}
use aws_iot_fleetwise_edge.Can.Types.SignalType.{uint64, int64}
use aws_iot_fleetwise_edge.Can.Types.RawSignalType.{integer, floating_point}
use aws_iot_fleetwise_edge.Can.Types.DecodedSignalValue.{uint64_val, int64_val, double_val}
use aws_iot_fleetwise_edge.Can.Extract.{
  extract_raw_signal_from_frame, extract_integer_signal_from_frame,
}

-- What the part of decodeCANMessage before its loop does: return false, or go on to the loop with
-- the multiplexor value and the signals decoded so far.
pub data Start (A : Type 0) : Type 0 where
  gives_up : Start A
  goes_on : ℕ → List A → Start A

module _ (R : Doubles) where
  -- The value that decodeIntegerSignal computes from the 64 bits of the raw value. A signed product
  -- or sum that overflows is taken to wrap.
  abbrev pub scale : SignalType → ℕ → R.Double → R.Double → DecodedSignalValue R.Double
  scale uint64 raw_value factor offset =
      uint64_val ((raw_value * R.to_uint64 factor + R.to_uint64 offset) % 2 ^ 64)
  scale int64 raw_value factor offset =
      int64_val ((raw_value * R.to_int64 factor + R.to_int64 offset) % 2 ^ 64)
  scale _ raw_value factor offset =
      double_val (R.plus (R.times (R.of_int64 raw_value) factor) offset)

  -- `DecodedSignalValue( T val, SignalType type )` of a `double`.
  abbrev pub value_of_double : SignalType → R.Double → DecodedSignalValue R.Double
  value_of_double uint64 d = uint64_val (R.to_uint64 d)
  value_of_double int64 d = int64_val (R.to_int64 d)
  value_of_double _ d = double_val d

  -- The value of the multiplexor signal.
  abbrev pub value_of_multiplexor : SignalType → ℕ → DecodedSignalValue R.Double
  value_of_multiplexor uint64 v = uint64_val v
  value_of_multiplexor int64 v = int64_val v
  value_of_multiplexor _ v = double_val (R.of_uint64 v)

  abbrev pub decoded :
      CanSignalFormat R.Double → DecodedSignalValue R.Double → CanDecodedSignal R.Double
  decoded f v = record { signal_id = f.signal_id; value = v; signal_type = f.signal_type }

  abbrev pub decode_integer_signal :
      List ℕ → CanSignalFormat R.Double → Option (CanDecodedSignal R.Double)
  decode_integer_signal frame_data f = do
    raw_value ← extract_integer_signal_from_frame frame_data f
    some (decoded f (scale f.signal_type raw_value f.factor f.offset))

  -- `static_cast<double>( *floatValue ) * mFactor + mOffset`
  abbrev pub scale_double : CanSignalFormat R.Double → R.Double → DecodedSignalValue R.Double
  scale_double f d = value_of_double f.signal_type (R.plus (R.times d f.factor) f.offset)

  abbrev pub decode_floating_point_signal :
      List ℕ → CanSignalFormat R.Double → Option (CanDecodedSignal R.Double)
  decode_floating_point_signal frame_data f =
      if f.size_in_bits == 32
      then (do
        raw_value ← extract_raw_signal_from_frame 32 frame_data f
        some (decoded f (scale_double f (R.of_float_bits raw_value))))
      else (do
        raw_value ← extract_raw_signal_from_frame 64 frame_data f
        some (decoded f (scale_double f (R.of_double_bits raw_value))))

  -- The lookup of the multiplexor signal and its value. `255` is `UINT8_MAX`.
  abbrev pub start_decoding :
      List ℕ
      → CanMessageFormat R.Double
      → List ℕ
      → List (CanDecodedSignal R.Double)
      → Option (Start (CanDecodedSignal R.Double))
  start_decoding frame_data format ids decoded_signals =
      if format.is_multiplexed
      then (elim (find_if (λ f. f.is_multiplexor_signal) format.signals) [
        | none ↦ some gives_up
        | some f ↦
            if is_collected ids f.signal_id
            then (do
              raw_value ← extract_integer_signal_from_frame frame_data f
              let byte = R.of_uint64 (raw_value % 2 ^ 8)
              let v = R.to_uint8 (R.plus (R.times byte f.factor) f.offset)
              some (
                  goes_on v
                    (decoded_signals ++ decoded f (value_of_multiplexor f.signal_type v) ∷ [])))
            else some (goes_on 255 decoded_signals)
      ])
      else some (goes_on 255 decoded_signals)

  -- `Signal Out of Range`, and `Little endian signal Out of Range`.
  abbrev pub is_out_of_range : ℕ → CanSignalFormat R.Double → Bool
  is_out_of_range bits f =
      leb bits f.first_bit_position
      || ltb f.size_in_bits 1
      || ltb bits f.size_in_bits
      || not f.is_big_endian && ltb bits (f.first_bit_position + f.size_in_bits)

  -- A signal that is not decoded, although it is collected and matches the multiplexor.
  abbrev pub is_wrongly_coded : ℕ → CanSignalFormat R.Double → Bool
  is_wrongly_coded bits f = is_out_of_range bits f || (elim f.raw_signal_type [
    | integer ↦ false
    | floating_point ↦ not (f.size_in_bits == 32) && not (f.size_in_bits == 64)
  ])

  -- The `switch` on the raw type.
  abbrev pub decode_as :
      RawSignalType → List ℕ → CanSignalFormat R.Double → Option (CanDecodedSignal R.Double)
  decode_as integer frame_data f = decode_integer_signal frame_data f
  decode_as floating_point frame_data f = decode_floating_point_signal frame_data f

  -- A signal that the loop skips without an error.
  abbrev pub is_skipped : ℕ → List ℕ → CanSignalFormat R.Double → Bool
  is_skipped multiplexor ids f =
      not (is_collected ids f.signal_id)
      || not (multiplexor == 255) && not (f.multiplexor_value == multiplexor)

  -- The body of the loop over the signals: the error counter, a byte, and the signals decoded so far.
  abbrev pub decode_one :
      List ℕ
      → ℕ
      → List ℕ
      → CanSignalFormat R.Double
      → ℕ
      → List (CanDecodedSignal R.Double)
      → Option (ℕ × List (CanDecodedSignal R.Double))
  decode_one frame_data multiplexor ids f errors decoded_signals =
      if is_skipped multiplexor ids f
      then some (errors, decoded_signals)
      else (if is_wrongly_coded (length frame_data * 8 % 2 ^ 32) f
          then some ((errors + 1) % 2 ^ 8, decoded_signals)
          else (do
            signal ← decode_as f.raw_signal_type frame_data f
            some (errors, decoded_signals ++ signal ∷ [])))

  unfoldable pub decode_all :
      List ℕ
      → ℕ
      → List ℕ
      → List (CanSignalFormat R.Double)
      → ℕ
      → List (CanDecodedSignal R.Double)
      → Option (ℕ × List (CanDecodedSignal R.Double))
  decode_all frame_data multiplexor ids [] errors decoded_signals = some (errors, decoded_signals)
  decode_all frame_data multiplexor ids (f ∷ fs) errors decoded_signals = do
    (counted, longer) ← decode_one frame_data multiplexor ids f errors decoded_signals
    decode_all frame_data multiplexor ids fs counted longer

  -- The return value, and `decodedSignals`.
  unfoldable pub decode_can_message :
      List ℕ
      → CanMessageFormat R.Double
      → List ℕ
      → List (CanDecodedSignal R.Double)
      → Option (Bool × List (CanDecodedSignal R.Double))
  decode_can_message frame_data format ids decoded_signals = do
    started ← start_decoding frame_data format ids decoded_signals
    elim started [
      | gives_up ↦ some (false, decoded_signals)
      | goes_on multiplexor so_far ↦ (do
        (errors, all) ← decode_all frame_data multiplexor ids format.signals 0 so_far
        some (errors == 0, all))
    ]
