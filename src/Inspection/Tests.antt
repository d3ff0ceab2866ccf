-- ===== src/Inspection/Tests.antt =====
-- Runs of src/CollectionInspectionEngine.cpp, and the theorems about it at them.
use aws_iot_fleetwise_edge.Prelude.{
  ℕ, ◌+◌, ◌-◌, ◌*◌, ◌/◌, true, false, not, List, [], ◌∷◌, none, ltb, leb, ◌==◌, if◌then◌else◌, ◌≤◌,
  All, ◌≡◌, refl, arith,
}
use aws_iot_fleetwise_edge.Schemes.Types.{TimePoint}
use aws_iot_fleetwise_edge.Inspection.Types.{
  Arithmetic, ErrorCode, Expression, Operator, Content, fresh, assign,
}
use aws_iot_fleetwise_edge.Inspection.Eval.{Reads, eval}
use aws_iot_fleetwise_edge.Inspection.Meaning.{
  meaning, height, eval-meaning-height, eval_successful-height,
}
use aws_iot_fleetwise_edge.Inspection.Buffer.{
  Sample, SignalHistoryBuffer, new_sample, collect_last_signals, after_collection,
}
use aws_iot_fleetwise_edge.Inspection.History.{history}
use aws_iot_fleetwise_edge.Inspection.Recorded.{add_all, add_all-history}
use aws_iot_fleetwise_edge.Inspection.Collect.{
  collect_last_signals-history, collect_last_signals_twice,
}
use aws_iot_fleetwise_edge.Inspection.Conditions.{
  ConditionForFetch, ConditionWithCollectedData, ConditionState, Shared, fetch_all,
}
use aws_iot_fleetwise_edge.Inspection.Fetch.{fetch_all-stale}
use aws_iot_fleetwise_edge.Inspection.Publish.{Collector, collect_next_data_to_send}
use aws_iot_fleetwise_edge.Inspection.Published.{is_some, collect_next_data_to_send-ready}
use aws_iot_fleetwise_edge.Inspection.Trigger.{Happening, live, born}
use aws_iot_fleetwise_edge.Inspection.Trigger.Spacing.{AreSpaced, live-AreSpaced}
use aws_iot_fleetwise_edge.Inspection.Trigger.Edge.{live_rising_edge}
use aws_iot_fleetwise_edge.Inspection.Reading.{
  ElementType, TypedBuffer, Conversions, get_latest_signal_value, is_new_signal_value_available,
}
use aws_iot_fleetwise_edge.Inspection.Latest.{get_latest_signal_value_numeric}
use aws_iot_fleetwise_edge.Can.Types.{SignalType}
use aws_iot_fleetwise_edge.Prelude.{length}

-- Whole numbers in place of the floating point ones.
abbrev pub whole_numbers : Arithmetic
whole_numbers = record {
  Double = ℕ;
  zero_double = 0;
  one_double = 1;
  is_nonzero = λ a. not (a == 0);
  is_less = ltb;
  is_less_equal = leb;
  plus = λ a b. a + b;
  minus = λ a b. a - b;
  times = λ a b. a * b;
  divided_by = λ a b. a / b;
  absolute = λ a. a;
  equal_distance = 1;
}

-- Signal 1 has the value 7; the other signals have none.
abbrev one_signal : Reads ℕ
one_signal = record {
  latest = λ id v. (
    ErrorCode.successful,
    if id == 1
        then (record { content = Content.double 7; signal_id = id })
        else (record { content = v.content; signal_id = id }),
  );
  window = λ w id v. (ErrorCode.successful, v);
  is_new = λ id v. (ErrorCode.successful, assign (Content.bool true) v);
  invoke = λ name. none;
}

-- `signal 1 > 5 && !isNull( signal 1 )`
abbrev above_five : Expression ℕ
above_five =
    Expression.binary Operator.logical_and
      (Expression.binary Operator.bigger (Expression.signal 1) (Expression.floating 5))
      (Expression.logical_not (Expression.is_null_function (Expression.signal 1)))

eval-meaning-height_example :
    eval whole_numbers one_signal 3 above_five fresh
    ≡ meaning whole_numbers one_signal above_five fresh
unfolding height
eval-meaning-height_example =
    eval-meaning-height whole_numbers one_signal 3 above_five fresh (omega arith)

eval_successful-height_example : height above_five ≤ 3
unfolding eval
eval_successful-height_example =
    eval_successful-height whole_numbers one_signal 3 above_five fresh refl

abbrev pub at_time : ℕ → TimePoint
at_time t = record { system_time_ms = 1000 + t; monotonic_time_ms = t }

abbrev pub empty_sample : Sample ℕ
empty_sample = record { value = 0; timestamp = 0; already_consumed = λ j. false }

-- A ring of two that a first sample finds as preAllocateBuffers leaves it.
abbrev ring_of_two : SignalHistoryBuffer ℕ
ring_of_two = record {
  minimum_sample_interval_ms = 0;
  buffer = empty_sample ∷ empty_sample ∷ [];
  size = 2;
  current_position = 1;
  counter = 0;
  last_sample = record { system_time_ms = 0; monotonic_time_ms = 0 };
  contains_raw_data_handles = false;
}

abbrev three_values : List (ℕ × TimePoint)
three_values = (5, at_time 1) ∷ (6, at_time 2) ∷ (7, at_time 3) ∷ []

add_all-history_example :
    history empty_sample (add_all three_values ring_of_two)
    ≡ new_sample 7 (at_time 3) ∷ new_sample 6 (at_time 2) ∷ []
add_all-history_example =
    add_all-history empty_sample three_values ring_of_two (omega arith, omega arith, omega arith)
      refl (omega arith)

abbrev full_ring : SignalHistoryBuffer ℕ
full_ring = add_all three_values ring_of_two

collect_last_signals-history_example :
    ((collect_last_signals empty_sample true 4 2 full_ring 0).0
      ≡ (record { value = 7; receive_time = 1003 })
        ∷ (record { value = 6; receive_time = 1002 })
        ∷ [])
    × ((collect_last_signals empty_sample true 4 2 full_ring 0).1.0 ≡ 1003)
collect_last_signals-history_example =
    collect_last_signals-history empty_sample true 4 2 full_ring 0
      (omega arith, omega arith, omega arith) (omega arith)

collect_last_signals_twice_example :
    (collect_last_signals empty_sample true 4 2
      (after_collection empty_sample true 4 2 full_ring 0)
      0).0
    ≡ []
collect_last_signals_twice_example =
    collect_last_signals_twice empty_sample 4 2 full_ring 0 0
      (omega arith, omega arith, omega arith) (omega arith)

abbrev on_edge : ConditionWithCollectedData ℕ
on_edge = record {
  condition = above_five;
  minimum_publish_interval_ms = 10;
  after_duration = 5;
  trigger_only_on_rising_edge = true;
  fetch_conditions = [];
  is_static_condition = false;
  always_evaluate_condition = false;
  campaign_arn = 1;
  forward_conditions = [];
}

abbrev quiet : ConditionState
quiet = record {
  input_signal_changed = true;
  currently_true = false;
  waiting_published = false;
  last_trigger = record { system_time_ms = 0; monotonic_time_ms = 0 };
  event_id = 0;
}

abbrev waiting : ConditionState
waiting = record {
  input_signal_changed = false;
  currently_true = true;
  waiting_published = true;
  last_trigger = at_time 100;
  event_id = 0;
}

abbrev two_conditions : Collector ℕ
two_conditions = record {
  conditions = (on_edge, waiting) ∷ (on_edge, quiet) ∷ [];
  next_index = 1;
  event_counter = 3;
}

collect_next_data_to_send-ready_example :
    is_some (collect_next_data_to_send (at_time 105) two_conditions).collected_index ≡ true
collect_next_data_to_send-ready_example =
    collect_next_data_to_send-ready (at_time 105) two_conditions

-- True, published, false, true again.
abbrev two_edges : List Happening
two_edges =
    Happening.evaluation (at_time 100) true
    ∷ Happening.turn (at_time 105) 7
    ∷ Happening.input_change
    ∷ Happening.evaluation (at_time 120) false
    ∷ Happening.input_change
    ∷ Happening.evaluation (at_time 130) true
    ∷ []

live-AreSpaced_example :
    AreSpaced whole_numbers on_edge
      (live whole_numbers on_edge two_edges (born whole_numbers on_edge quiet)).log
    × (length (live whole_numbers on_edge two_edges (born whole_numbers on_edge quiet)).log ≡ 2)
live-AreSpaced_example =
    live-AreSpaced whole_numbers on_edge two_edges quiet refl
      (omega arith, (tt, (tt, (omega arith, (tt, (omega arith, tt))))))

live_rising_edge_example :
    All
      (λ x. x.is_edge ≡ true)
      (live whole_numbers on_edge two_edges (born whole_numbers on_edge quiet)).log
live_rising_edge_example = live_rising_edge whole_numbers on_edge two_edges quiet refl

abbrev fetch_on_nothing : ConditionForFetch ℕ
fetch_on_nothing = record {
  condition = Expression.signal 2;
  trigger_only_on_rising_edge = false;
  fetch_request_id = 9;
}

abbrev nothing_fetched : Shared
nothing_fetched = record {
  fetch_queue = none;
  last_fetch_trigger = [];
  fetch_currently_true = λ j. false;
  forwards = [];
  one_condition_true = false;
}

-- A fetch condition that is true, with another request.
abbrev fetch_above_five : ConditionForFetch ℕ
fetch_above_five = record {
  condition = above_five;
  trigger_only_on_rising_edge = false;
  fetch_request_id = 8;
}

fetch_all-stale_example :
    ((fetch_all whole_numbers one_signal 1000 5
          (fetch_above_five ∷ fetch_on_nothing ∷ [])
          fresh
          nothing_fetched).fetch_currently_true
        9
      ≡ true)
    × ((fetch_all whole_numbers one_signal 1000 5
            (fetch_on_nothing ∷ [])
            fresh
            nothing_fetched).fetch_currently_true
          9
        ≡ false)
unfolding eval
fetch_all-stale_example =
    fetch_all-stale whole_numbers one_signal 1000 5 2 fetch_above_five fetch_on_nothing []
      (record { content = Content.bool true; signal_id = 0 }) nothing_fetched refl (λ v. refl) refl
      refl refl (omega arith) tt

abbrev pub plain_conversions : Conversions ℕ ℕ
plain_conversions = record { to_double = λ v. v; to_handle = λ v. v; borrow = λ id handle. none }

-- A ring of two that holds 7, of the given type.
abbrev pub holding_seven : ElementType → TypedBuffer ℕ
holding_seven e = record {
  element_type = e;
  history_buffer = record {
    minimum_sample_interval_ms = 0;
    buffer = new_sample 7 (at_time 5) ∷ empty_sample ∷ [];
    size = 2;
    current_position = 0;
    counter = 1;
    last_sample = at_time 5;
    contains_raw_data_handles = false;
  };
}

get_latest_signal_value_numeric_example :
    get_latest_signal_value plain_conversions empty_sample
      ((4, SignalType.int32) ∷ [])
      ((4, holding_seven ElementType.int32_element) ∷ [])
      4
      fresh
    ≡ (ErrorCode.successful, record { content = Content.double 7; signal_id = 4 })
get_latest_signal_value_numeric_example =
    get_latest_signal_value_numeric plain_conversions empty_sample ((4, SignalType.int32) ∷ [])
      ((4, holding_seven ElementType.int32_element) ∷ []) 4 fresh SignalType.int32
      (holding_seven ElementType.int32_element) refl refl refl
      (omega arith, omega arith, omega arith) refl

-- The sample of a signal of type INT16 is never seen as new.
int16_is_not_new :
    is_new_signal_value_available plain_conversions empty_sample
      ((4, SignalType.int16) ∷ [])
      ((4, holding_seven ElementType.int16_element) ∷ [])
      3
      4
      fresh
    ≡ (ErrorCode.successful, fresh)
int16_is_not_new = refl
