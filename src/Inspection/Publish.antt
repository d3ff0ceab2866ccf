-- ===== src/Inspection/Publish.antt =====
-- collectNextDataToSend and generateEventID of src/CollectionInspectionEngine.cpp.
use Prim.Native.Nat.{bit_or, bit_and}
use aws_iot_fleetwise_edge.Prelude.{
  ℕ, zero, suc, ◌+◌, ◌-◌, ◌*◌, ◌%◌, ◌^◌, min, Bool, true, false, ◌&&◌, ◌||◌, not, List, [], ◌∷◌,
  Option, none, some, length, get_elem?, set, leb, ◌==◌, if◌then◌else◌, sub64,
}
use aws_iot_fleetwise_edge.Schemes.Types.{TimePoint}
use aws_iot_fleetwise_edge.Inspection.Conditions.{ConditionWithCollectedData, ConditionState, later}

-- `generateEventCounter`: the next counter is the event counter of this event.
abbrev pub next_counter : ℕ → ℕ
next_counter counter = (counter + 1) % 2 ^ 8

-- `static_cast<uint32_t>( timestamp << 8 )` of a 64 bit time keeps 32 bits.
pub generate_event_id : ℕ → ℕ → ℕ
generate_event_id counter timestamp =
    bit_and (bit_or counter (timestamp * 2 ^ 8 % 2 ^ 32)) (2 ^ 31 - 1)

abbrev pub published : ℕ → ConditionState → ConditionState
published event_id s = record {
  input_signal_changed = s.input_signal_changed;
  currently_true = s.currently_true;
  waiting_published = false;
  last_trigger = s.last_trigger;
  event_id = event_id;
}

abbrev pub wrap_index : ℕ → ℕ → ℕ
wrap_index count i = if leb count i then 0 else i

module _ {D : Type 0} where
  -- The condition waits, and its after duration is over.
  abbrev pub is_ready : TimePoint → ConditionWithCollectedData D → ConditionState → Bool
  is_ready now c s =
      s.waiting_published
      && ((s.last_trigger.system_time_ms == 0) && (s.last_trigger.monotonic_time_ms == 0)
          || leb (later s.last_trigger.monotonic_time_ms c.after_duration) now.monotonic_time_ms)

  -- The time that a waiting condition still needs, as a 32 bit number.
  abbrev pub remaining_time : TimePoint → ConditionWithCollectedData D → ConditionState → ℕ
  remaining_time now c s =
      sub64 (later s.last_trigger.monotonic_time_ms c.after_duration) now.monotonic_time_ms % 2 ^ 32

  -- The loop, with the rounds that are left: the index whose data is collected or none, the minimum
  -- of the times to wait, and the next index to look at.
  unfoldable pub find_next :
      TimePoint
      → List (ConditionWithCollectedData D × ConditionState)
      → (rounds next wait : ℕ) → Option ℕ × (ℕ × ℕ)
  find_next now cs zero next wait = (none, (wait, next))
  find_next now cs (suc rounds) next wait =
      let i = wrap_index (length cs) next in
      elim (get_elem? cs i) [
        | none ↦ (none, (wait, i))
        | some (c, s) ↦
            if is_ready now c s
            then (some i, (wait, i + 1))
            else find_next now cs rounds (i + 1)
                (if s.waiting_published then min wait (remaining_time now c s) else wait)
      ]

  unfoldable pub none_waiting : List (ConditionWithCollectedData D × ConditionState) → Bool
  none_waiting [] = true
  none_waiting ((c, s) ∷ cs) = not s.waiting_published && none_waiting cs

-- The conditions, `mNextConditionToCollectedIndex`, and the event counter of the process.
pub record Collector (D : Type 0) : Type 0 where
  pub conditions : List (ConditionWithCollectedData D × ConditionState)
  pub next_index : ℕ
  pub event_counter : ℕ

-- The index of the condition whose data is returned, if any, what `waitTimeMs` is set to, if it is
-- set, and the state after.
pub record Collection (D : Type 0) : Type 0 where
  pub collected_index : Option ℕ
  pub wait_time_ms : Option ℕ
  pub collector : Collector D

module _ {D : Type 0} where
  abbrev pub publish_at :
      ℕ
      → ℕ
      → List (ConditionWithCollectedData D × ConditionState)
      → List (ConditionWithCollectedData D × ConditionState)
  publish_at event_id i cs = elim (get_elem? cs i) [
    | none ↦ cs
    | some (c, s) ↦ set cs i (c, published event_id s)
  ]

  -- `2 ^ 32 - 1` is the largest `uint32_t`. The data that collectData packs is not part of this.
  unfoldable pub collect_next_data_to_send : TimePoint → Collector D → Collection D
  collect_next_data_to_send now m =
      if none_waiting m.conditions
      then (record { collected_index = none; wait_time_ms = some (2 ^ 32 - 1); collector = m })
      else (let (found, (wait, next)) =
            find_next now m.conditions (length m.conditions) m.next_index (2 ^ 32 - 1) in
          elim found [
            | none ↦ record {
              collected_index = none;
              wait_time_ms = some wait;
              collector = record {
                conditions = m.conditions;
                next_index = next;
                event_counter = m.event_counter;
              };
            }
            | some i ↦ record {
              collected_index = some i;
              wait_time_ms = none;
              collector = record {
                conditions =
                    publish_at (generate_event_id (next_counter m.event_counter) now.system_time_ms)
                      i m.conditions;
                next_index = next;
                event_counter = next_counter m.event_counter;
              };
            }
          ])
