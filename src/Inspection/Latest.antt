-- ===== src/Inspection/Latest.antt =====
-- What getLatestSignalValue and isNewSignalValueAvailable of src/CollectionInspectionEngine.cpp read,
-- for each type of signal.
use aws_iot_fleetwise_edge.Prelude.{
  ℕ, zero, suc, ◌<◌, min, Bool, true, false, not, List, [], ◌∷◌, none, some, ◌==◌, ==_refl,
  if◌then◌else◌, lookup, get_or, Bool-cases, inl, inr, ◌≡◌, refl, sym, ap, arith,
}
use aws_iot_fleetwise_edge.Can.Types.{SignalType}
use aws_iot_fleetwise_edge.Can.Types.SignalType.{
  uint8, int8, uint16, int16, uint32, int32, uint64, int64, float, double, boolean, unknown,
  complex_signal, string,
}
use aws_iot_fleetwise_edge.Inspection.Types.{Content, InspectionValue, assign}
use aws_iot_fleetwise_edge.Inspection.Types.ErrorCode.{successful}
use aws_iot_fleetwise_edge.Inspection.Buffer.{Sample, SignalHistoryBuffer}
use aws_iot_fleetwise_edge.Inspection.History.{IsRing, history, recent}
use aws_iot_fleetwise_edge.Inspection.Reading.{
  ElementType, same_element, buffer_element, latest_reading, TypedBuffer, get_buffer, Conversions,
  latest_of_buffer, noted, get_latest_signal_value,
}
use aws_iot_fleetwise_edge.Inspection.Reading.Reading.{as_element}
use aws_iot_fleetwise_edge.Inspection.Reading.ElementType.{int16_element, uint16_element}

-- The types of the numbers and of the truth values.
abbrev pub is_numeric : SignalType → Bool
is_numeric unknown = false
is_numeric complex_signal = false
is_numeric string = false
is_numeric _ = true

abbrev pub is_int16 : SignalType → Bool
is_int16 int16 = true
is_int16 _ = false

own_reading :
    (t : SignalType) (e : ElementType)
    → is_numeric t ≡ true
    → is_int16 t ≡ false
    → buffer_element t ≡ some e
    → latest_reading t ≡ as_element e
own_reading uint8 e n i h = cc
own_reading int8 e n i h = cc
own_reading uint16 e n i h = cc
own_reading int16 e n i h = grind arith
own_reading uint32 e n i h = cc
own_reading int32 e n i h = cc
own_reading uint64 e n i h = cc
own_reading int64 e n i h = cc
own_reading float e n i h = cc
own_reading double e n i h = cc
own_reading boolean e n i h = cc
own_reading unknown e n i h = grind arith
own_reading complex_signal e n i h = grind arith
own_reading string e n i h = grind arith

int16_reading : (t : SignalType) → is_int16 t ≡ true → latest_reading t ≡ as_element uint16_element
int16_reading uint8 i = grind arith
int16_reading int8 i = grind arith
int16_reading uint16 i = grind arith
int16_reading int16 i = refl
int16_reading uint32 i = grind arith
int16_reading int32 i = grind arith
int16_reading uint64 i = grind arith
int16_reading int64 i = grind arith
int16_reading float i = grind arith
int16_reading double i = grind arith
int16_reading boolean i = grind arith
int16_reading unknown i = grind arith
int16_reading complex_signal i = grind arith
int16_reading string i = grind arith

int16_buffer :
    (t : SignalType) (e : ElementType)
    → is_int16 t ≡ true
    → buffer_element t ≡ some e
    → same_element e uint16_element ≡ false
int16_buffer uint8 e i h = grind arith
int16_buffer int8 e i h = grind arith
int16_buffer uint16 e i h = grind arith
int16_buffer int16 e i h = let same : int16_element ≡ e = cc in rw (sym same) refl
int16_buffer uint32 e i h = grind arith
int16_buffer int32 e i h = grind arith
int16_buffer uint64 e i h = grind arith
int16_buffer int64 e i h = grind arith
int16_buffer float e i h = grind arith
int16_buffer double e i h = grind arith
int16_buffer boolean e i h = grind arith
int16_buffer unknown e i h = grind arith
int16_buffer complex_signal e i h = grind arith
int16_buffer string e i h = grind arith

module _ {V : Type 0} (buffers : List (ℕ × TypedBuffer V)) (id : ℕ) (b : TypedBuffer V) where
  get_buffer-own :
      lookup id buffers ≡ some b → get_buffer b.element_type id buffers ≡ some b.history_buffer
  get_buffer-own h = rw (get_buffer, h, ==_refl) refl

  get_buffer-other :
      (e : ElementType)
      → lookup id buffers ≡ some b
      → same_element b.element_type e ≡ false
      → get_buffer e id buffers ≡ none
  get_buffer-other e h k = rw (get_buffer, h, k) refl

module _ {V D : Type 0} (C : Conversions V D) (d : Sample V) where
  -- The value of the newest sample, if there is one.
  abbrev pub newest_value : List (Sample V) → InspectionValue D → InspectionValue D
  newest_value [] v = v
  newest_value (s ∷ older) v = assign (Content.double (C.to_double s.value)) v

  newest_value-recent :
      (c size p : ℕ) (xs : List (Sample V)) (v : InspectionValue D)
      → 0 < size
      → newest_value (recent d (min c size) p size xs) v ≡ (
          if not (c == 0)
          then assign (Content.double (C.to_double ((get_or xs p d).value))) v
          else v)
  newest_value-recent zero size p xs v h = let l : min 0 size ≡ 0 = omega arith in rw l refl
  newest_value-recent (suc c) zero p xs v h = absurd (omega arith)
  newest_value-recent (suc c) (suc k) p xs v h =
      let l : min (suc c) (suc k) ≡ suc (min c k) = omega arith in
      let some_sample : (suc c == 0) ≡ false = ground arith in rw (l, some_sample) refl

  latest_of_buffer-history :
      (b : SignalHistoryBuffer V) (v : InspectionValue D)
      → IsRing b
      → latest_of_buffer C d (some b) v ≡ newest_value (history d b) v
  latest_of_buffer-history b v ring =
      sym (newest_value-recent b.counter b.size b.current_position b.buffer v ring.0)

  -- A signal of a number or truth value type t is mapped to t, its buffer for the condition has the
  -- element type with which onChangeInspectionMatrix adds buffers of t, and the buffer is a valid ring.
  -- Then getLatestSignalValue succeeds, notes the identifier of the signal, and gives the newest sample
  -- of the buffer, or leaves the value as it was when there is none; but for INT16 it only notes the
  -- identifier, whatever the buffer holds.
  pub get_latest_signal_value_numeric :
      (types : List (ℕ × SignalType)) (buffers : List (ℕ × TypedBuffer V)) (id : ℕ)
      (v : InspectionValue D) (t : SignalType) (b : TypedBuffer V)
      → lookup id types ≡ some t
      → lookup id buffers ≡ some b
      → buffer_element t ≡ some b.element_type
      → IsRing b.history_buffer
      → is_numeric t ≡ true
      → get_latest_signal_value C d types buffers id v ≡ (
        successful,
        if is_int16 t
            then noted C d id v
            else newest_value (history d b.history_buffer) (noted C d id v),
      )
  get_latest_signal_value_numeric types buffers id v t b ht hb fits ring n =
      elim (Bool-cases (is_int16 t)) [
        | inl i ↦
            rw
              (
                get_latest_signal_value,
                ht,
                i,
                int16_reading t i,
                get_buffer-other buffers id b uint16_element hb
                    (int16_buffer t b.element_type i fits),
              )
              refl
        | inr i ↦
            rw
              (
                get_latest_signal_value,
                ht,
                i,
                own_reading t b.element_type n i fits,
                get_buffer-own buffers id b hb,
              )
              (ap (λ w. (successful, w))
                (latest_of_buffer-history b.history_buffer (noted C d id v) ring))
      ]
