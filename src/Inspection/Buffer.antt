-- ===== src/Inspection/Buffer.antt =====
-- SignalHistoryBuffer, the part of addNewSignal for one buffer, and collectLastSignals, of
-- src/CollectionInspectionEngine.cpp and include/aws/iotfleetwise/CollectionInspectionEngine.h.
use aws_iot_fleetwise_edge.Prelude.{
  ℕ, zero, suc, ◌+◌, ◌-◌, ◌%◌, ◌^◌, min, max, Bool, true, false, ◌&&◌, ◌||◌, not, List, [], ◌∷◌,
  ◌++◌, length, get_or, set, ltb, leb, ◌==◌, if◌then◌else◌,
}
use aws_iot_fleetwise_edge.Schemes.Types.{TimePoint}

-- `SignalSample`. The bit set `mAlreadyConsumed` is a function of the condition.
pub record Sample (V : Type 0) : Type 0 where
  pub value : V
  pub timestamp : ℕ
  pub already_consumed : ℕ → Bool

-- `SignalHistoryBuffer`, less its windows.
pub record SignalHistoryBuffer (V : Type 0) : Type 0 where
  pub minimum_sample_interval_ms : ℕ
  pub buffer : List (Sample V)
  pub size : ℕ
  pub current_position : ℕ
  pub counter : ℕ
  pub last_sample : TimePoint
  pub contains_raw_data_handles : Bool

-- What NotifyRawBufferManager is told: which handle enters or leaves a stage.
pub data Notice (V : Type 0) : Type 0 where
  history_decreased : V → Notice V
  history_increased : V → Notice V
  selected_increased : V → Notice V

-- `CollectedSignal`, less the identifier and the type of the signal.
pub record Collected (V : Type 0) : Type 0 where
  pub value : V
  pub receive_time : ℕ

-- `pos--`, with the correction at the start of the next round.
abbrev pub position_before : ℕ → ℕ → ℕ
position_before size zero = size - 1
position_before size (suc p) = if leb size p then 0 else p

module _ {V : Type 0} where
  -- `setAlreadyConsumed` for one condition.
  abbrev pub set_already_consumed : ℕ → Bool → Sample V → Sample V
  set_already_consumed condition b s = record {
    value = s.value;
    timestamp = s.timestamp;
    already_consumed = λ j. if j == condition then b else s.already_consumed j;
  }

  -- The test of addNewSignal: there is room, and the sample is the first one or late enough.
  abbrev pub is_sampled : SignalHistoryBuffer V → TimePoint → Bool
  is_sampled b receive_time =
      ltb 0 b.size
      && leb b.size (length b.buffer)
      && ((b.minimum_sample_interval_ms == 0)
          || (b.last_sample.system_time_ms == 0) && (b.last_sample.monotonic_time_ms == 0)
          || leb ((b.last_sample.monotonic_time_ms + b.minimum_sample_interval_ms) % 2 ^ 64)
              receive_time.monotonic_time_ms)

  abbrev pub next_position : SignalHistoryBuffer V → ℕ
  next_position b = if leb b.size (b.current_position + 1) then 0 else b.current_position + 1

  abbrev pub new_sample : V → TimePoint → Sample V
  new_sample v receive_time = record {
    value = v;
    timestamp = receive_time.system_time_ms;
    already_consumed = λ j. false;
  }

  abbrev pub insert_sample : V → TimePoint → SignalHistoryBuffer V → SignalHistoryBuffer V
  insert_sample v receive_time b = record {
    minimum_sample_interval_ms = b.minimum_sample_interval_ms;
    buffer = set b.buffer (next_position b) (new_sample v receive_time);
    size = b.size;
    current_position = next_position b;
    counter = (b.counter + 1) % 2 ^ 64;
    last_sample = receive_time;
    contains_raw_data_handles = b.contains_raw_data_handles;
  }

  -- One buffer of addNewSignal.
  abbrev pub add_to_buffer : V → TimePoint → SignalHistoryBuffer V → SignalHistoryBuffer V
  add_to_buffer v receive_time b =
      if is_sampled b receive_time then insert_sample v receive_time b else b

  -- The elements of a vector where the index is in range; `d` stands for a read out of range.
  abbrev pub sample_at : Sample V → SignalHistoryBuffer V → ℕ → Sample V
  sample_at d b i = get_or b.buffer i d

  -- What the raw data buffer manager is told by one buffer of addNewSignal.
  abbrev pub add_notices : Sample V → V → TimePoint → SignalHistoryBuffer V → List (Notice V)
  add_notices d v receive_time b =
      if is_sampled b receive_time && b.contains_raw_data_handles
      then ((if leb b.size b.counter
            then history_decreased ((sample_at d b (next_position b)).value) ∷ []
            else [])
          ++ history_increased v ∷ [])
      else []

  -- The loop of collectLastSignals, with the rounds that are left: the output, newest first, the
  -- newest timestamp, and the buffer with the samples marked.
  unfoldable pub collect_loop :
      Sample V
      → Bool
      → ℕ
      → (rounds position size : ℕ) → List (Sample V)
      → ℕ
      → List (Collected V) × (ℕ × List (Sample V))
  collect_loop d only_once condition zero position size samples newest = ([], (newest, samples))
  collect_loop d only_once condition (suc rounds) position size samples newest =
      let s = get_or samples position d in
      let is_sent = not (s.already_consumed condition) || not only_once in
      let marked =
        if is_sent then set samples position (set_already_consumed condition true s) else samples in
      let (sent, rest) =
        collect_loop d only_once condition rounds (position_before size position) size marked
          (max newest s.timestamp) in
      (
        if is_sent then (record { value = s.value; receive_time = s.timestamp }) ∷ sent else sent,
        rest,
      )

  abbrev pub collect_last_signals :
      Sample V
      → Bool
      → ℕ
      → ℕ
      → SignalHistoryBuffer V
      → ℕ
      → List (Collected V) × (ℕ × List (Sample V))
  collect_last_signals d only_once condition maximum b newest =
      collect_loop d only_once condition (min maximum b.counter) b.current_position b.size b.buffer
        newest

  -- The buffer with the samples that collectLastSignals has marked.
  abbrev pub after_collection :
      Sample V → Bool → ℕ → ℕ → SignalHistoryBuffer V → ℕ → SignalHistoryBuffer V
  after_collection d only_once condition maximum b newest = record {
    minimum_sample_interval_ms = b.minimum_sample_interval_ms;
    buffer = (collect_last_signals d only_once condition maximum b newest).1.1;
    size = b.size;
    current_position = b.current_position;
    counter = b.counter;
    last_sample = b.last_sample;
    contains_raw_data_handles = b.contains_raw_data_handles;
  }

  -- What the raw data buffer manager is told of the samples that collectLastSignals sends, where they
  -- are handles of raw data: each is selected for the upload.
  abbrev selected_notices : Bool → List (Collected V) → List (Notice V)
  selected_notices false sent = []
  selected_notices true [] = []
  selected_notices true (c ∷ sent) = selected_increased c.value ∷ selected_notices true sent
