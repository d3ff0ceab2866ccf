-- ===== src/Inspection/Windows.antt =====
-- FixedTimeWindowFunctionData of include/aws/iotfleetwise/CollectionInspectionEngine.h, and
-- getSampleWindowFunction of src/CollectionInspectionEngine.cpp.
use aws_iot_fleetwise_edge.Prelude.{
  ℕ, ◌+◌, ◌-◌, ◌*◌, ◌/◌, ◌%◌, ◌^◌, min, Bool, true, false, Option, none, some, ltb, leb, ◌==◌,
  if◌then◌else◌, lookup, List,
}
use aws_iot_fleetwise_edge.Can.Types.{SignalType}
use aws_iot_fleetwise_edge.Can.Types.SignalType.{unknown, complex_signal, string}
use aws_iot_fleetwise_edge.Inspection.Types.{
  Arithmetic, ErrorCode, WindowFunction, Content, InspectionValue, assign,
}
use aws_iot_fleetwise_edge.Inspection.Types.ErrorCode.{
  successful, not_implemented_type, not_implemented_function,
}
use aws_iot_fleetwise_edge.Inspection.Types.WindowFunction.{
  last_avg, prev_last_avg, last_min, prev_last_min, last_max, prev_last_max, no_window,
}

-- What the windows use of the type of a signal: the values in order, the limits of the type, and the
-- conversions of a value, of a `double` and of a count.
pub record Numbers (V D : Type 0) : Type 0 where
  pub rank : V → ℕ
  pub lowest : V
  pub highest : V
  pub to_double : V → D
  pub of_double : D → V
  pub of_count : ℕ → D

-- The values of a window that is over.
pub record WindowValues (V : Type 0) : Type 0 where
  pub minimum : V
  pub maximum : V
  pub average : V
  pub available : Bool

-- What is collected for the window that is open.
pub record Collecting (V D : Type 0) : Type 0 where
  pub collecting_min : V
  pub collecting_max : V
  pub collecting_sum : D
  pub collected_signals : ℕ

-- `FixedTimeWindowFunctionData`
pub record WindowData (V D : Type 0) : Type 0 where
  pub window_size_ms : ℕ
  pub last_time_calculated : ℕ
  pub last : WindowValues V
  pub previous_last : WindowValues V
  pub collecting : Collecting V D

module _ (A : Arithmetic) {V : Type 0} (N : Numbers V A.Double) where
  -- `std::min` and `std::max` of two values.
  abbrev pub least : V → V → V
  least a b = if ltb (N.rank b) (N.rank a) then b else a

  abbrev pub greatest : V → V → V
  greatest a b = if ltb (N.rank a) (N.rank b) then b else a

  abbrev pub update_internal_variables : V → Collecting V A.Double → Collecting V A.Double
  update_internal_variables v c = record {
    collecting_min = least c.collecting_min v;
    collecting_max = greatest c.collecting_max v;
    collecting_sum = A.plus c.collecting_sum (N.to_double v);
    collected_signals = (c.collected_signals + 1) % 2 ^ 32;
  }

  abbrev pub nothing_collected : Collecting V A.Double
  nothing_collected = record {
    collecting_min = N.highest;
    collecting_max = N.lowest;
    collecting_sum = A.zero_double;
    collected_signals = 0;
  }

  -- The start of the window of `timestamp`, from the start of an earlier one.
  abbrev pub window_start : (start size timestamp : ℕ) → ℕ
  window_start start size timestamp =
      (start + (((timestamp + 2 ^ 64 - start) % 2 ^ 64 / size) % 2 ^ 32 * size) % 2 ^ 64) % 2 ^ 64

  -- The average is cast to the type of the signal.
  abbrev pub finished : Collecting V A.Double → WindowValues V
  finished c = record {
    minimum = c.collecting_min;
    maximum = c.collecting_max;
    average = N.of_double (A.divided_by c.collecting_sum (N.of_count c.collected_signals));
    available = true;
  }

  abbrev pub unavailable : WindowValues V → WindowValues V
  unavailable w = record {
    minimum = w.minimum;
    maximum = w.maximum;
    average = w.average;
    available = false;
  }

  -- The values that were collected, or the given ones as not available when there are none.
  abbrev pub closed : Collecting V A.Double → WindowValues V → WindowValues V
  closed c w = if c.collected_signals == 0 then unavailable w else finished c

  -- `initNewWindow`, with the values of the two windows before: the window, and when the next window
  -- of any signal is over.
  abbrev pub init_new_window :
      (start size timestamp next : ℕ) → WindowValues V → WindowValues V → WindowData V A.Double × ℕ
  init_new_window start size timestamp next l p = (
    record {
      window_size_ms = size;
      last_time_calculated = window_start start size timestamp;
      last = l;
      previous_last = p;
      collecting = nothing_collected;
    },
    min next ((window_start start size timestamp + size) % 2 ^ 64),
  )

  -- Whether a value of the window changed, the window, and when the next one is over.
  abbrev pub update_window :
      (timestamp next : ℕ) → WindowData V A.Double → Bool × (WindowData V A.Double × ℕ)
  update_window timestamp next w =
      if w.last_time_calculated == 0
      then (true, init_new_window timestamp w.window_size_ms timestamp next w.last w.previous_last)
      else if leb ((w.last_time_calculated + (w.window_size_ms * 2) % 2 ^ 64) % 2 ^ 64) timestamp
      then (
        true,
        init_new_window w.last_time_calculated w.window_size_ms timestamp next (unavailable w.last)
            (closed w.collecting w.previous_last),
      )
      else if leb ((w.last_time_calculated + w.window_size_ms) % 2 ^ 64) timestamp
      then (
        true,
        init_new_window w.last_time_calculated w.window_size_ms timestamp next
            (closed w.collecting w.last) w.last,
      )
      else (false, (w, min next ((w.last_time_calculated + w.window_size_ms) % 2 ^ 64)))

  abbrev pub with_value : V → WindowData V A.Double → WindowData V A.Double
  with_value v w = record {
    window_size_ms = w.window_size_ms;
    last_time_calculated = w.last_time_calculated;
    last = w.last;
    previous_last = w.previous_last;
    collecting = update_internal_variables v w.collecting;
  }

  abbrev pub add_value :
      V → (timestamp next : ℕ) → WindowData V A.Double → Bool × (WindowData V A.Double × ℕ)
  add_value v timestamp next w = update_window timestamp next (with_value v w)

  abbrev assign_available :
      Bool → V → InspectionValue A.Double → ErrorCode × InspectionValue A.Double
  assign_available true x v = (successful, assign (Content.double (N.to_double x)) v)
  assign_available false x v = (successful, v)

  -- `getSampleWindowFunctionType`
  abbrev pub window_value :
      WindowFunction
      → Option (WindowData V A.Double)
      → InspectionValue A.Double
      → ErrorCode × InspectionValue A.Double
  window_value f none v = (successful, v)
  window_value last_avg (some w) v = assign_available w.last.available w.last.average v
  window_value last_min (some w) v = assign_available w.last.available w.last.minimum v
  window_value last_max (some w) v = assign_available w.last.available w.last.maximum v
  window_value prev_last_avg (some w) v =
      assign_available w.previous_last.available w.previous_last.average v
  window_value prev_last_min (some w) v =
      assign_available w.previous_last.available w.previous_last.minimum v
  window_value prev_last_max (some w) v =
      assign_available w.previous_last.available w.previous_last.maximum v
  window_value no_window (some w) v = (not_implemented_function, v)

  -- The `switch` of getSampleWindowFunction, in which the type of a number or of a truth value is the
  -- one of the window; the windows of the condition are given by the signal.
  abbrev pub window_of_type :
      SignalType
      → WindowFunction
      → Option (WindowData V A.Double)
      → InspectionValue A.Double
      → ErrorCode × InspectionValue A.Double
  window_of_type string f w v = (not_implemented_type, v)
  window_of_type complex_signal f w v = (not_implemented_type, v)
  window_of_type unknown f w v = (successful, v)
  window_of_type _ f w v = window_value f w v

  abbrev pub get_sample_window_function :
      List (ℕ × SignalType)
      → List (ℕ × WindowData V A.Double)
      → WindowFunction
      → ℕ
      → InspectionValue A.Double
      → ErrorCode × InspectionValue A.Double
  get_sample_window_function types windows f id v = elim (lookup id types) [
    | none ↦ (successful, v)
    | some t ↦ window_of_type t f (lookup id windows) v
  ]
