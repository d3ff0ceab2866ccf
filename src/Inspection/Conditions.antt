-- ===== src/Inspection/Conditions.antt =====
-- evaluateConditions of src/CollectionInspectionEngine.cpp: the loop over the conditions, with the
-- fetch and the forward conditions. The push into the fetch queue is that of LockedQueue of
-- include/aws/iotfleetwise/QueueTypes.h.
use aws_iot_fleetwise_edge.Prelude.{
  ℕ, ◌+◌, ◌%◌, ◌^◌, Bool, true, false, ◌&&◌, ◌||◌, not, List, [], ◌∷◌, ◌++◌, Option, none, some,
  length, leb, ltb, ◌==◌, if◌then◌else◌, lookup, insert,
}
use aws_iot_fleetwise_edge.Schemes.Types.{TimePoint}
use aws_iot_fleetwise_edge.Inspection.Types.{
  Arithmetic, ErrorCode, Expression, InspectionValue, fresh, is_bool_or_double, as_bool,
}
use aws_iot_fleetwise_edge.Inspection.Types.ErrorCode.{successful}
use aws_iot_fleetwise_edge.Inspection.Eval.{Reads, eval, max_equation_depth}

-- `ConditionForFetch`
pub record ConditionForFetch (D : Type 0) : Type 0 where
  pub condition : Expression D
  pub trigger_only_on_rising_edge : Bool
  pub fetch_request_id : ℕ

-- `ConditionWithCollectedData`, the members that the evaluation reads.
pub record ConditionWithCollectedData (D : Type 0) : Type 0 where
  pub condition : Expression D
  pub minimum_publish_interval_ms : ℕ
  pub after_duration : ℕ
  pub trigger_only_on_rising_edge : Bool
  pub fetch_conditions : List (ConditionForFetch D)
  pub is_static_condition : Bool
  pub always_evaluate_condition : Bool
  pub campaign_arn : ℕ
  pub forward_conditions : List (Expression D)

-- The members of `ActiveCondition` that change, with the bits of the condition in
-- `mConditionsWithInputSignalChanged`, `mConditionsWithConditionCurrentlyTrue` and
-- `mConditionsTriggeredWaitingPublished`.
pub record ConditionState : Type 0 where
  pub input_signal_changed : Bool
  pub currently_true : Bool
  pub waiting_published : Bool
  pub last_trigger : TimePoint
  pub event_id : ℕ

-- `mFetchQueue`, `mLastFetchTrigger`, `mFetchConditionsWithConditionCurrentlyTrue`, and what the
-- stream forwarder is told.
pub record FetchQueue : Type 0 where
  pub max_size : ℕ
  pub elements : List ℕ

pub data Forward : Type 0 where
  begin_forward : ℕ → ℕ → Forward
  cancel_forward : ℕ → ℕ → Forward

pub record Shared : Type 0 where
  pub fetch_queue : Option FetchQueue
  pub last_fetch_trigger : List (ℕ × ℕ)
  pub fetch_currently_true : ℕ → Bool
  pub forwards : List Forward
  pub one_condition_true : Bool

-- `LockedQueue::push`; a null pointer or a full queue takes nothing.
abbrev pub push_fetch : ℕ → Option FetchQueue → Option FetchQueue
push_fetch id none = none
push_fetch id (some q) =
    if ltb q.max_size (length q.elements + 1)
    then none
    else some (record { max_size = q.max_size; elements = q.elements ++ id ∷ [] })

abbrev pub mark_fetch : ℕ → Bool → Shared → Shared
mark_fetch id b s = record {
  fetch_queue = s.fetch_queue;
  last_fetch_trigger = s.last_fetch_trigger;
  fetch_currently_true = λ j. if j == id then b else s.fetch_currently_true j;
  forwards = s.forwards;
  one_condition_true = s.one_condition_true;
}

-- The hand-over of a fetch request.
abbrev pub request_fetch : ℕ → ℕ → Shared → Shared
request_fetch now id s = elim (push_fetch id s.fetch_queue) [
  | none ↦ s
  | some q ↦ record {
    fetch_queue = some q;
    last_fetch_trigger = insert id now s.last_fetch_trigger;
    fetch_currently_true = s.fetch_currently_true;
    forwards = s.forwards;
    one_condition_true = true;
  }
]

abbrev pub tell_forwarder : Forward → Bool → Shared → Shared
tell_forwarder f b s = record {
  fetch_queue = s.fetch_queue;
  last_fetch_trigger = s.last_fetch_trigger;
  fetch_currently_true = s.fetch_currently_true;
  forwards = s.forwards ++ f ∷ [];
  one_condition_true = s.one_condition_true || b;
}

-- A sum of 64 bit times.
abbrev pub later : ℕ → ℕ → ℕ
later time interval = (time + interval) % 2 ^ 64

-- A fetch request that was handed over less than the minimum interval ago.
abbrev pub is_throttled : ℕ → ℕ → ℕ → Shared → Bool
is_throttled min_interval now id s = elim (lookup id s.last_fetch_trigger) [
  | none ↦ false
  | some last ↦ ltb now (later last min_interval)
]

module _ (A : Arithmetic) where
  -- `ret == SUCCESSFUL && result.isBoolOrDouble() && result.asBool()`
  abbrev pub is_true : ErrorCode × InspectionValue A.Double → Bool
  is_true (successful, v) = is_bool_or_double v && as_bool A v.content
  is_true (code, v) = false

  -- One round of the loop over the fetch conditions. The result value is declared outside the loop,
  -- so a round starts with what the round before it left.
  abbrev pub fetch_one :
      Reads A.Double
      → ℕ
      → ℕ
      → ConditionForFetch A.Double
      → InspectionValue A.Double
      → Shared
      → InspectionValue A.Double × Shared
  fetch_one R min_interval now f v s =
      if is_throttled min_interval now f.fetch_request_id s
      then (v, s)
      else (let evaluated = eval A R max_equation_depth f.condition v in
          (
            evaluated.1,
            if is_true evaluated
                then mark_fetch f.fetch_request_id true (
                    if not f.trigger_only_on_rising_edge
                      || not (s.fetch_currently_true f.fetch_request_id)
                    then request_fetch now f.fetch_request_id s
                    else s)
                else mark_fetch f.fetch_request_id false s,
          ))

  abbrev pub fetch_all :
      Reads A.Double
      → ℕ
      → ℕ
      → List (ConditionForFetch A.Double)
      → InspectionValue A.Double
      → Shared
      → Shared
  fetch_all R min_interval now [] v s = s
  fetch_all R min_interval now (f ∷ fs) v s =
      let (left, next) = fetch_one R min_interval now f v s in
      fetch_all R min_interval now fs left next

  -- The loop over the forward conditions, from the index `j` on.
  abbrev pub forward_all : Reads A.Double → ℕ → ℕ → List (Expression A.Double) → Shared → Shared
  forward_all R arn j [] s = s
  forward_all R arn j (e ∷ es) s =
      let b = is_true (eval A R max_equation_depth e fresh) in
      forward_all R arn (j + 1) es
        (tell_forwarder (if b then begin_forward arn j else cancel_forward arn j) b s)

  abbrev pub is_evaluated : ConditionWithCollectedData A.Double → ConditionState → Bool
  is_evaluated c s =
      s.input_signal_changed && not c.is_static_condition || c.always_evaluate_condition

  -- The evaluation of a condition: the bits that it resets.
  abbrev pub evaluated_state : Bool → ConditionState → ConditionState
  evaluated_state holds s = record {
    input_signal_changed = false;
    currently_true = holds && s.currently_true;
    waiting_published = s.waiting_published;
    last_trigger = s.last_trigger;
    event_id = s.event_id;
  }

  -- The mark for the upload.
  abbrev pub trigger : TimePoint → ConditionState → ConditionState
  trigger now s = record {
    input_signal_changed = s.input_signal_changed;
    currently_true = s.currently_true;
    waiting_published = true;
    last_trigger = now;
    event_id = s.event_id;
  }

  abbrev pub set_currently_true : ConditionState → ConditionState
  set_currently_true s = record {
    input_signal_changed = s.input_signal_changed;
    currently_true = true;
    waiting_published = s.waiting_published;
    last_trigger = s.last_trigger;
    event_id = s.event_id;
  }

  -- The second half of the round for a condition. `holds` is `conditionEvaluatedToTrue`.
  abbrev pub check_trigger :
      TimePoint
      → ConditionWithCollectedData A.Double
      → Bool
      → ConditionState
      → ConditionState × Bool
  check_trigger now c holds s =
      if (holds || s.currently_true && not s.waiting_published)
        && leb (later s.last_trigger.monotonic_time_ms c.minimum_publish_interval_ms)
            now.monotonic_time_ms
      then (
        set_currently_true (
            if (not c.trigger_only_on_rising_edge || not s.currently_true)
              && not s.waiting_published
            then trigger now s
            else s),
        true,
      )
      else (s, false)

  -- The round for a condition whose expression is true or not, and whether one is true.
  abbrev pub evaluate_trigger :
      TimePoint
      → ConditionWithCollectedData A.Double
      → Bool
      → ConditionState
      → ConditionState × Bool
  evaluate_trigger now c holds s =
      if is_evaluated c s
      then check_trigger now c holds (evaluated_state holds s)
      else check_trigger now c false s

  abbrev pub evaluate_one :
      Reads A.Double
      → Bool
      → ℕ
      → TimePoint
      → ConditionWithCollectedData A.Double
      → ConditionState
      → Shared
      → ConditionState × Shared
  evaluate_one R has_forwarder min_interval now c s shared =
      let holds = is_true (eval A R max_equation_depth c.condition fresh) in
      let fetched =
        fetch_all R min_interval now.monotonic_time_ms c.fetch_conditions fresh shared in
      let forwarded =
        if has_forwarder
        then forward_all R c.campaign_arn 0 c.forward_conditions fetched
        else fetched in
      let checked = evaluate_trigger now c holds s in
      let told = if is_evaluated c s then forwarded else shared in
      (
        checked.0,
        record {
          fetch_queue = told.fetch_queue;
          last_fetch_trigger = told.last_fetch_trigger;
          fetch_currently_true = told.fetch_currently_true;
          forwards = told.forwards;
          one_condition_true = told.one_condition_true || checked.1;
        },
      )

  -- The loop over the conditions. The reads are those of each condition, by its index.
  pub evaluate_conditions :
      (ℕ → Reads A.Double)
      → Bool
      → ℕ
      → TimePoint
      → ℕ
      → List (ConditionWithCollectedData A.Double × ConditionState)
      → Shared
      → List (ConditionWithCollectedData A.Double × ConditionState) × Shared
  evaluate_conditions R has_forwarder min_interval now i [] shared = ([], shared)
  evaluate_conditions R has_forwarder min_interval now i ((c, s) ∷ cs) shared =
      let (evaluated, told) = evaluate_one (R i) has_forwarder min_interval now c s shared in
      let (others, last) = evaluate_conditions R has_forwarder min_interval now (i + 1) cs told in
      ((c, evaluated) ∷ others, last)
