-- ===== src/Inspection/Connected.antt =====
-- What eval of src/CollectionInspectionEngine.cpp reads for one condition, from the types of the
-- signals and the buffers and windows of the condition.
use aws_iot_fleetwise_edge.Prelude.{ℕ, List, Option}
use aws_iot_fleetwise_edge.Can.Types.{SignalType}
use aws_iot_fleetwise_edge.Inspection.Types.{Arithmetic, ErrorCode, InspectionValue}
use aws_iot_fleetwise_edge.Inspection.Eval.{Reads}
use aws_iot_fleetwise_edge.Inspection.Buffer.{Sample}
use aws_iot_fleetwise_edge.Inspection.Reading.{
  Conversions, TypedBuffer, get_latest_signal_value, is_new_signal_value_available,
}
use aws_iot_fleetwise_edge.Inspection.Windows.{Numbers, WindowData, get_sample_window_function}

module _ (A : Arithmetic) {V : Type 0} (N : Numbers V A.Double) (C : Conversions V A.Double)
    (d : Sample V) where
  -- The callbacks of custom functions are given.
  abbrev pub condition_reads :
      List (ℕ × SignalType)
      → List (ℕ × TypedBuffer V)
      → List (ℕ × WindowData V A.Double)
      → (condition : ℕ)
      → (List ℕ
          → Option (ℕ → List (InspectionValue A.Double) → ErrorCode × InspectionValue A.Double))
      → Reads A.Double
  condition_reads types buffers windows condition custom = record {
    latest = get_latest_signal_value C d types buffers;
    window = get_sample_window_function A N types windows;
    is_new = is_new_signal_value_available C d types buffers condition;
    invoke = custom;
  }
