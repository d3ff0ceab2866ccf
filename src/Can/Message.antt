-- ===== src/Can/Message.antt =====
-- decodeCANMessage as a whole: which signals of a message it decodes, and to which values.
use aws_iot_fleetwise_edge.Prelude.{
  ℕ, suc, ◌+◌, ◌*◌, ◌/◌, ◌%◌, ◌^◌, ◌≤◌, ◌<◌, Bool, true, false, ◌&&◌, ◌||◌, not, List, [], ◌∷◌,
  ◌++◌, map, some, length, ltb, leb, ◌==◌, if◌then◌else◌, filter_by, All, Bool-cases, ◌⊎◌, inl, inr,
  append-nil, append_assoc, ◌≡◌, refl, sym, arith,
}
use aws_iot_fleetwise_edge.Can.Types.{
  RawSignalType, Doubles, CanSignalFormat, CanMessageFormat, DecodedSignalValue, CanDecodedSignal,
  is_collected,
}
use aws_iot_fleetwise_edge.Can.Types.RawSignalType.{integer, floating_point}
use aws_iot_fleetwise_edge.Can.Decode.{
  scale, scale_double, decoded, decode_one, decode_all, decode_can_message, decode_as,
  is_wrongly_coded, is_skipped,
}
use aws_iot_fleetwise_edge.Can.Field.{AreBytes, field}
use aws_iot_fleetwise_edge.Can.Extracted.{IsPlaced, extract_raw_signal_from_frame-field}
use aws_iot_fleetwise_edge.Can.Signed.{integer_of_field, extract_integer_signal_from_frame-field}

raw_cases : (t : RawSignalType) → (t ≡ integer) ⊎ (t ≡ floating_point)
raw_cases integer = inl refl
raw_cases floating_point = inr refl

module _ (R : Doubles) where
  -- What the decoder relies on: the signal fits in a word of 64 bits, and a big endian one does not
  -- begin before the frame.
  abbrev pub IsSupported : CanSignalFormat R.Double → Type 0
  IsSupported f =
      (f.size_in_bits ≤ 64)
      × ((if f.is_big_endian then f.first_bit_position % 8 + f.size_in_bits else 0)
          ≤ f.first_bit_position / 8 * 8 + 8)

  -- A signal whose bits are in the frame, and that has a format of its raw type.
  abbrev pub is_usable : List ℕ → CanSignalFormat R.Double → Bool
  is_usable frame f =
      ltb f.first_bit_position (8 * length frame)
      && leb 1 f.size_in_bits
      && (f.is_big_endian || leb (f.first_bit_position + f.size_in_bits) (8 * length frame))
      && (elim f.raw_signal_type [
        | integer ↦ true
        | floating_point ↦ (f.size_in_bits == 32) || (f.size_in_bits == 64)
      ])

  -- A signal that is to be collected and, unless the value is 255, belongs to the multiplexor value.
  abbrev pub is_selected : ℕ → List ℕ → CanSignalFormat R.Double → Bool
  is_selected multiplexor ids f =
      is_collected ids f.signal_id && ((multiplexor == 255) || (f.multiplexor_value == multiplexor))

  abbrev pub value_as :
      RawSignalType → List ℕ → CanSignalFormat R.Double → DecodedSignalValue R.Double
  value_as integer frame f = scale R f.signal_type (integer_of_field frame f) f.factor f.offset
  value_as floating_point frame f = scale_double R f (
      if f.size_in_bits == 32
      then R.of_float_bits (field frame f)
      else R.of_double_bits (field frame f))

  abbrev pub decode_field : List ℕ → CanSignalFormat R.Double → CanDecodedSignal R.Double
  decode_field frame f = decoded R f (value_as f.raw_signal_type frame f)

  wrong-usable :
      (frame : List ℕ) (f : CanSignalFormat R.Double)
      → length frame ≤ 256
      → IsSupported f
      → is_wrongly_coded R (length frame * 8 % 2 ^ 32) f ≡ not (is_usable frame f)
  wrong-usable frame f long supported =
      let e : length frame * 8 % 2 ^ 32 ≡ length frame * 8 = omega arith in
      rw e (elim (raw_cases f.raw_signal_type) [
        | inl t ↦ rw t (ground arith)
        | inr t ↦ rw t (ground arith)
      ])

  usable-IsPlaced :
      (frame : List ℕ) (f : CanSignalFormat R.Double)
      → AreBytes frame
      → length frame ≤ 256
      → IsSupported f
      → is_usable frame f ≡ true
      → IsPlaced frame f
  usable-IsPlaced frame f bytes long supported usable =
      (bytes, long, ground arith, ground arith, ground arith)

  decode_as-field :
      (t : RawSignalType) (frame : List ℕ) (f : CanSignalFormat R.Double)
      → IsPlaced frame f
      → f.size_in_bits ≤ 64
      → decode_as R t frame f ≡ some (decoded R f (value_as t frame f))
  decode_as-field integer frame f placed small =
      rw (extract_integer_signal_from_frame-field frame f placed small) refl
  decode_as-field floating_point frame f placed small = elim (Bool-cases (f.size_in_bits == 32)) [
    | inl e ↦
        let word : f.size_in_bits ≤ 32 = ground arith in
        rw (e, extract_raw_signal_from_frame-field 32 frame f placed word (omega arith)) refl
    | inr e ↦ rw (e, extract_raw_signal_from_frame-field 64 frame f placed small (omega arith)) refl
  ]

  skipped-selected :
      (multiplexor : ℕ) (ids : List ℕ) (f : CanSignalFormat R.Double)
      → is_skipped R multiplexor ids f ≡ not (is_selected multiplexor ids f)
  skipped-selected multiplexor ids f = ground arith

  -- What one round of the loop does, in the words of this file.
  decode_one-field :
      (frame : List ℕ) (multiplexor : ℕ) (ids : List ℕ) (f : CanSignalFormat R.Double) (errors : ℕ)
      (acc : List (CanDecodedSignal R.Double))
      → AreBytes frame
      → length frame ≤ 256
      → IsSupported f
      → decode_one R frame multiplexor ids f errors acc
        ≡ some (
          (if is_selected multiplexor ids f && not (is_usable frame f)
              then (errors + 1) % 2 ^ 8
              else errors),
          (if is_selected multiplexor ids f && is_usable frame f
              then acc ++ decode_field frame f ∷ []
              else acc),
        )
  decode_one-field frame multiplexor ids f errors acc bytes long supported =
      rw (skipped-selected multiplexor ids f, wrong-usable frame f long supported)
        (elim (Bool-cases (is_selected multiplexor ids f)) [
          | inr s ↦ rw s refl
          | inl s ↦ rw s (elim (Bool-cases (is_usable frame f)) [
            | inr u ↦ rw u refl
            | inl u ↦
                let placed = usable-IsPlaced frame f bytes long supported u in
                rw (u, decode_as-field f.raw_signal_type frame f placed supported.0) refl
          ])
        ])

  abbrev pub errors_of : List ℕ → ℕ → List ℕ → List (CanSignalFormat R.Double) → ℕ
  errors_of frame multiplexor ids fs =
      length (filter_by (λ f. is_selected multiplexor ids f && not (is_usable frame f)) fs)

  abbrev pub fields_of :
      List ℕ → ℕ → List ℕ → List (CanSignalFormat R.Double) → List (CanDecodedSignal R.Double)
  fields_of frame multiplexor ids fs =
      map (decode_field frame)
        (filter_by (λ f. is_selected multiplexor ids f && is_usable frame f) fs)

  decode_all-fields :
      (frame : List ℕ) (multiplexor : ℕ) (ids : List ℕ) (fs : List (CanSignalFormat R.Double))
      (errors : ℕ) (acc : List (CanDecodedSignal R.Double))
      → AreBytes frame
      → length frame ≤ 256
      → All IsSupported fs
      → errors < 256
      → decode_all R frame multiplexor ids fs errors acc
        ≡ some (
          (errors + errors_of frame multiplexor ids fs) % 256,
          acc ++ fields_of frame multiplexor ids fs,
        )
  unfolding decode_all
  decode_all-fields frame multiplexor ids [] errors acc bytes long supported small =
      let e : (errors + 0) % 256 ≡ errors = omega arith in rw (e, append-nil acc) refl
  decode_all-fields frame multiplexor ids (f ∷ fs) errors acc bytes long supported small =
      rw (decode_one-field frame multiplexor ids f errors acc bytes long supported.0)
        (elim (Bool-cases (is_selected multiplexor ids f)) [
          | inr s ↦
              rw s
                (decode_all-fields frame multiplexor ids fs errors acc bytes long supported.1 small)
          | inl s ↦ rw s (elim (Bool-cases (is_usable frame f)) [
            | inr u ↦
                let n = errors_of frame multiplexor ids fs in
                let e : (errors + suc n) % 256 ≡ ((errors + 1) % 256 + n) % 256 = omega arith in
                rw (u, e)
                  (decode_all-fields frame multiplexor ids fs ((errors + 1) % 256) acc bytes long
                    supported.1 (omega arith))
            | inl u ↦
                rw
                  (
                    u,
                    sym (
                        append_assoc acc (decode_field frame f ∷ [])
                          (fields_of frame multiplexor ids fs)),
                  )
                  (decode_all-fields frame multiplexor ids fs errors
                    (acc ++ decode_field frame f ∷ []) bytes long supported.1 small)
          ])
        ])

  -- For a frame of at most 256 bytes and a format that is not multiplexed, whose signals have at most
  -- 64 bits and, where big endian, do not begin before the frame, decodeCANMessage is defined. It
  -- appends, in the order of the format, every collected signal that lies in the frame and has a size
  -- of its raw type, decoded from its field. It returns true where the number of the other collected
  -- signals is a multiple of 256.
  pub decode_can_message-fields :
      (frame : List ℕ) (format : CanMessageFormat R.Double) (ids : List ℕ)
      (acc : List (CanDecodedSignal R.Double))
      → AreBytes frame
      → length frame ≤ 256
      → format.is_multiplexed ≡ false
      → All IsSupported format.signals
      → decode_can_message R frame format ids acc
        ≡ some (
          errors_of frame 255 ids format.signals % 256 == 0,
          acc ++ fields_of frame 255 ids format.signals,
        )
  unfolding decode_can_message
  decode_can_message-fields frame format ids acc bytes long plain supported =
      let n = errors_of frame 255 ids format.signals in
      let e : 0 + n ≡ n = omega arith in
      rw
        (
          plain,
          decode_all-fields frame 255 ids format.signals 0 acc bytes long supported (omega arith),
          e,
        )
        refl
