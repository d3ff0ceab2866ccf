-- ===== src/Inspection/Trigger.antt =====
-- The life of one condition of src/CollectionInspectionEngine.cpp: evaluations, changes of its input
-- signals and publications in any order, with a log of its triggers.
pub mod Spacing
pub mod Edge
use aws_iot_fleetwise_edge.Prelude.{
  ℕ, zero, suc, ◌+◌, ◌%◌, ◌^◌, ◌≤◌, ◌<◌, Bool, true, false, ◌&&◌, ◌||◌, not, List, [], ◌∷◌, length,
  leb, ◌==◌, if◌then◌else◌, All, Bool-cases, inl, inr, ◌≡◌, refl, ap, arith,
}
use aws_iot_fleetwise_edge.Schemes.Types.{TimePoint}
use aws_iot_fleetwise_edge.Inspection.Types.{Arithmetic}
use aws_iot_fleetwise_edge.Inspection.Conditions.{
  ConditionWithCollectedData, ConditionState, evaluate_trigger, check_trigger, evaluated_state,
  is_evaluated, later, trigger, set_currently_true,
}
use aws_iot_fleetwise_edge.Inspection.Publish.{is_ready, published}

-- What happens to a condition: a round of evaluateConditions, with the time and whether the
-- expression is true; a change of an input signal; the turn of the condition in
-- collectNextDataToSend, with the time and the event identifier.
pub data Happening : Type 0 where
  evaluation : TimePoint → Bool → Happening
  input_change : Happening
  turn : TimePoint → ℕ → Happening

-- A trigger: its time, and whether the expression was found false since the trigger before, or there
-- was none.
pub record Logged : Type 0 where
  pub time : ℕ
  pub is_edge : Bool

pub record Life : Type 0 where
  pub state : ConditionState
  pub log : List Logged
  pub is_edge : Bool
  pub publications : ℕ

abbrev pub change_input : ConditionState → ConditionState
change_input s = record {
  input_signal_changed = true;
  currently_true = s.currently_true;
  waiting_published = s.waiting_published;
  last_trigger = s.last_trigger;
  event_id = s.event_id;
}

-- The log reads the condition only: it is triggered when it begins to wait.
abbrev pub is_triggered : ConditionState → ConditionState → Bool
is_triggered old new = not old.waiting_published && new.waiting_published

module _ (A : Arithmetic) (c : ConditionWithCollectedData A.Double) where
  abbrev pub happen : Happening → Life → Life
  happen (evaluation now holds) l =
      let new = (evaluate_trigger A now c holds l.state).0 in
      let edge = l.is_edge || is_evaluated A c l.state && not holds in
      if is_triggered l.state new
      then (record {
        state = new;
        log = (record { time = now.monotonic_time_ms; is_edge = edge }) ∷ l.log;
        is_edge = false;
        publications = l.publications;
      })
      else (record { state = new; log = l.log; is_edge = edge; publications = l.publications })
  happen input_change l = record {
    state = change_input l.state;
    log = l.log;
    is_edge = l.is_edge;
    publications = l.publications;
  }
  happen (turn now event_id) l =
      if is_ready now c l.state
      then (record {
        state = published event_id l.state;
        log = l.log;
        is_edge = l.is_edge;
        publications = l.publications + 1;
      })
      else l

  abbrev pub live : List Happening → Life → Life
  live [] l = l
  live (h ∷ hs) l = live hs (happen h l)

  -- A time to which the minimum interval can be added within 64 bits.
  abbrev pub IsTimely : Happening → Type 0
  IsTimely (evaluation now holds) = now.monotonic_time_ms + c.minimum_publish_interval_ms < 2 ^ 64
  IsTimely input_change = Unit
  IsTimely (turn now event_id) = Unit

  -- A condition that does not wait yet, before anything has happened.
  abbrev pub born : ConditionState → Life
  born s = record { state = s; log = []; is_edge = true; publications = 0 }
