-- ===== src/Inspection/Reading.antt =====
-- getLatestSignalValue, isNewSignalValueAvailable and the look-up of a signal's buffer by its type, of
-- src/CollectionInspectionEngine.cpp and include/aws/iotfleetwise/CollectionInspectionEngine.h.
use aws_iot_fleetwise_edge.Prelude.{
  ℕ, Bool, ◌&&◌, not, List, Option, none, some, ◌==◌, if◌then◌else◌, lookup,
}
use aws_iot_fleetwise_edge.Can.Types.{SignalType}
use aws_iot_fleetwise_edge.Can.Types.SignalType.{
  uint8, int8, uint16, int16, uint32, int32, uint64, int64, float, double, boolean, unknown,
  complex_signal, string,
}
use aws_iot_fleetwise_edge.Inspection.Types.{ErrorCode, Content, InspectionValue, assign}
use aws_iot_fleetwise_edge.Inspection.Types.ErrorCode.{
  successful, not_implemented_type, type_mismatch,
}
use aws_iot_fleetwise_edge.Inspection.Buffer.{Sample, SignalHistoryBuffer, sample_at}

-- The type argument `T` of SignalHistoryBuffer. `RawData::BufferHandle` is `uint32_t`.
pub data ElementType : Type 0 where
  uint8_element : ElementType
  int8_element : ElementType
  uint16_element : ElementType
  int16_element : ElementType
  uint32_element : ElementType
  int32_element : ElementType
  uint64_element : ElementType
  int64_element : ElementType
  float_element : ElementType
  double_element : ElementType
  boolean_element : ElementType

abbrev pub element_index : ElementType → ℕ
element_index uint8_element = 0
element_index int8_element = 1
element_index uint16_element = 2
element_index int16_element = 3
element_index uint32_element = 4
element_index int32_element = 5
element_index uint64_element = 6
element_index int64_element = 7
element_index float_element = 8
element_index double_element = 9
element_index boolean_element = 10

abbrev pub same_element : ElementType → ElementType → Bool
same_element a b = element_index a == element_index b

-- The type with which onChangeInspectionMatrix adds the buffer of a signal.
abbrev pub buffer_element : SignalType → Option ElementType
buffer_element uint8 = some uint8_element
buffer_element int8 = some int8_element
buffer_element uint16 = some uint16_element
buffer_element int16 = some int16_element
buffer_element uint32 = some uint32_element
buffer_element int32 = some int32_element
buffer_element uint64 = some uint64_element
buffer_element int64 = some int64_element
buffer_element float = some float_element
buffer_element double = some double_element
buffer_element boolean = some boolean_element
buffer_element unknown = none
buffer_element complex_signal = some uint32_element
buffer_element string = some uint32_element

-- A case of the `switch` of getLatestSignalValue or of isNewSignalValueAvailable.
pub data Reading : Type 0 where
  as_element : ElementType → Reading
  as_string : Reading
  as_nothing : Reading
  not_supported : Reading

-- The `switch` of getLatestSignalValue.
abbrev pub latest_reading : SignalType → Reading
latest_reading uint8 = as_element uint8_element
latest_reading int8 = as_element int8_element
latest_reading uint16 = as_element uint16_element
latest_reading int16 = as_element uint16_element
latest_reading uint32 = as_element uint32_element
latest_reading int32 = as_element int32_element
latest_reading uint64 = as_element uint64_element
latest_reading int64 = as_element int64_element
latest_reading float = as_element float_element
latest_reading double = as_element double_element
latest_reading boolean = as_element boolean_element
latest_reading unknown = as_nothing
latest_reading complex_signal = not_supported
latest_reading string = as_string

-- The `switch` of isNewSignalValueAvailable.
abbrev pub new_reading : SignalType → Reading
new_reading uint8 = as_element uint8_element
new_reading int8 = as_element int8_element
new_reading uint16 = as_element uint16_element
new_reading int16 = as_element uint16_element
new_reading uint32 = as_element uint32_element
new_reading int32 = as_element int32_element
new_reading uint64 = as_element uint64_element
new_reading int64 = as_element int64_element
new_reading float = as_element float_element
new_reading double = as_element double_element
new_reading boolean = as_element boolean_element
new_reading unknown = as_nothing
new_reading complex_signal = not_supported
new_reading string = as_element uint32_element

-- A value of `SignalHistoryBufferPtrVar`: the buffer with its type.
pub record TypedBuffer (V : Type 0) : Type 0 where
  pub element_type : ElementType
  pub history_buffer : SignalHistoryBuffer V

-- `getEvaluationSignalsBufferPtr<T>`: `boost::get` of another type gives a null pointer.
abbrev pub get_buffer :
    {V : Type 0} → ElementType → ℕ → List (ℕ × TypedBuffer V) → Option (SignalHistoryBuffer V)
get_buffer e id buffers = elim (lookup id buffers) [
  | none ↦ none
  | some b ↦ if same_element b.element_type e then some b.history_buffer else none
]

-- What the reads use beside the buffers: `static_cast<double>` of a value, the cast of a `double` to
-- a handle, and the data that borrowFrame of the raw data buffer manager lends.
pub record Conversions (V D : Type 0) : Type 0 where
  pub to_double : V → D
  pub to_handle : D → ℕ
  pub borrow : ℕ → ℕ → Option (List ℕ)

module _ {V D : Type 0} (C : Conversions V D) (d : Sample V) where
  abbrev pub latest_of_buffer :
      Option (SignalHistoryBuffer V) → InspectionValue D → InspectionValue D
  latest_of_buffer none v = v
  latest_of_buffer (some b) v =
      if not (b.counter == 0)
      then assign (Content.double (C.to_double ((sample_at d b b.current_position).value))) v
      else v

  -- The end of the case STRING: the handle that was read becomes a string.
  abbrev pub string_of_handle : ℕ → InspectionValue D → ErrorCode × InspectionValue D
  string_of_handle id v = elim (v.content) [
    | Content.undefined ↦ (successful, v)
    | Content.double x ↦ elim (C.borrow id (C.to_handle x)) [
      | none ↦ (successful, assign Content.undefined v)
      | some bytes ↦ (successful, assign (Content.text bytes) v)
    ]
    | _ ↦ (type_mismatch, v)
  ]

  abbrev pub noted : ℕ → InspectionValue D → InspectionValue D
  noted id v = record { content = v.content; signal_id = id }

  abbrev pub read_latest :
      Reading → ℕ → List (ℕ × TypedBuffer V) → InspectionValue D → ErrorCode × InspectionValue D
  read_latest (as_element e) id buffers v =
      (successful, latest_of_buffer (get_buffer e id buffers) v)
  read_latest as_string id buffers v =
      string_of_handle id (latest_of_buffer (get_buffer uint32_element id buffers) v)
  read_latest as_nothing id buffers v = (successful, v)
  read_latest not_supported id buffers v = (not_implemented_type, v)

  abbrev pub get_latest_signal_value :
      List (ℕ × SignalType)
      → List (ℕ × TypedBuffer V)
      → ℕ
      → InspectionValue D
      → ErrorCode × InspectionValue D
  get_latest_signal_value types buffers id v = elim (lookup id types) [
    | none ↦ (successful, noted id v)
    | some t ↦ read_latest (latest_reading t) id buffers (noted id v)
  ]

  -- `isNewSignalValueAvailableType<T>`
  abbrev pub new_of_buffer :
      Option (SignalHistoryBuffer V) → ℕ → InspectionValue D → InspectionValue D
  new_of_buffer none condition v = v
  new_of_buffer (some b) condition v =
      assign
        (Content.bool (
          not (b.counter == 0)
          && not ((sample_at d b b.current_position).already_consumed condition)))
        v

  abbrev pub read_new :
      Reading → ℕ → ℕ → List (ℕ × TypedBuffer V) → InspectionValue D → ErrorCode × InspectionValue D
  read_new (as_element e) id condition buffers v =
      (successful, new_of_buffer (get_buffer e id buffers) condition v)
  read_new as_string id condition buffers v = (successful, v)
  read_new as_nothing id condition buffers v = (successful, v)
  read_new not_supported id condition buffers v = (not_implemented_type, v)

  abbrev pub is_new_signal_value_available :
      List (ℕ × SignalType)
      → List (ℕ × TypedBuffer V)
      → ℕ
      → ℕ
      → InspectionValue D
      → ErrorCode × InspectionValue D
  is_new_signal_value_available types buffers condition id v = elim (lookup id types) [
    | none ↦ (successful, v)
    | some t ↦ read_new (new_reading t) id condition buffers v
  ]
