-- ===== src/Inspection/WindowTests.antt =====
-- Runs of the windows of src/CollectionInspectionEngine.cpp, and the theorems about them at them.
use aws_iot_fleetwise_edge.Prelude.{
  ℕ, ◌+◌, ◌==◌, Bool, true, false, ◌||◌, not, [], ◌∷◌, leb, ◌≤◌, ◌≡◌, refl, arith,
}
use aws_iot_fleetwise_edge.Inspection.Types.{Content, ErrorCode, WindowFunction}
use aws_iot_fleetwise_edge.Can.Types.{SignalType}
use aws_iot_fleetwise_edge.Inspection.Tests.{whole_numbers}
use aws_iot_fleetwise_edge.Inspection.Windows.{
  Numbers, WindowValues, WindowData, update_window, add_value, get_sample_window_function,
}
use aws_iot_fleetwise_edge.Inspection.Windowed.{IsOpenAt, update_window-IsOpenAt}
use aws_iot_fleetwise_edge.Inspection.WindowValue.{collect_all, add_value-last}

abbrev truth_rank : Bool → ℕ
truth_rank false = 0
truth_rank true = 1

-- The type `bool` of a signal.
abbrev truth_values : Numbers Bool ℕ
truth_values = record {
  rank = truth_rank;
  lowest = false;
  highest = true;
  to_double = truth_rank;
  of_double = λ d. not (d == 0);
  of_count = λ n. n;
}

truth_rank-highest : (b : Bool) → truth_rank b ≤ 1
truth_rank-highest false = omega arith
truth_rank-highest true = omega arith

truth_rank-lowest : (b : Bool) → 0 ≤ truth_rank b
truth_rank-lowest b = omega arith

-- Numbers of 32 bits, each at its own place.
abbrev pub ranked_numbers : Numbers ℕ ℕ
ranked_numbers = record {
  rank = λ n. n;
  lowest = 0;
  highest = 4294967295;
  to_double = λ n. n;
  of_double = λ n. n;
  of_count = λ n. n;
}

abbrev no_values : WindowValues Bool
no_values = record { minimum = false; maximum = true; average = false; available = false }

-- A window of 100 ms that was started at 40 and collected two samples.
abbrev with_two_samples : WindowData Bool ℕ
with_two_samples = record {
  window_size_ms = 100;
  last_time_calculated = 40;
  last = no_values;
  previous_last = no_values;
  collecting = collect_all whole_numbers truth_values (true ∷ true ∷ []);
}

update_window-IsOpenAt_example :
    IsOpenAt 377 ((update_window whole_numbers truth_values 377 9999 with_two_samples).1)
    × ((update_window whole_numbers truth_values 377 9999 with_two_samples).0
        ≡ (40 == 0) || leb (40 + 100) 377)
update_window-IsOpenAt_example =
    update_window-IsOpenAt whole_numbers truth_values 377 9999 with_two_samples (omega arith)
      (omega arith) (omega arith) (omega arith)

add_value-last_example :
    ((add_value whole_numbers truth_values false 145 9999 with_two_samples).1.0.last.available
      ≡ true)
    × (truth_rank
          ((add_value whole_numbers truth_values false 145 9999 with_two_samples).1.0.last.minimum)
        ≡ 0)
    × (truth_rank
          ((add_value whole_numbers truth_values false 145 9999 with_two_samples).1.0.last.maximum)
        ≡ 1)
    × ((add_value whole_numbers truth_values false 145 9999 with_two_samples).1.0.previous_last
        ≡ no_values)
add_value-last_example =
    add_value-last whole_numbers truth_values (true ∷ true ∷ []) false 145 9999 with_two_samples
      truth_rank-highest truth_rank-lowest refl (omega arith) (omega arith) (omega arith)
      (omega arith) (omega arith)

-- The least value of the last window, read by a condition.
reads_least :
    get_sample_window_function whole_numbers truth_values
      ((2, SignalType.boolean) ∷ [])
      ((2, (add_value whole_numbers truth_values false 145 9999 with_two_samples).1.0) ∷ [])
      WindowFunction.last_min
      2
      (record { content = Content.undefined; signal_id = 2 })
    ≡ (ErrorCode.successful, record { content = Content.double 0; signal_id = 2 })
reads_least = refl
