-- ===== src/Inspection/Trigger/Spacing.antt =====
-- The times of the triggers of a condition of src/CollectionInspectionEngine.cpp, and its publications.
use aws_iot_fleetwise_edge.Prelude.{
  ℕ, ◌+◌, ◌^◌, ◌≤◌, ◌<◌, Bool, true, false, ◌&&◌, ◌||◌, not, List, [], ◌∷◌, length, All, Bool-cases,
  inl, inr, ◌≡◌, refl, ap, arith,
}
use aws_iot_fleetwise_edge.Schemes.Types.{TimePoint}
use aws_iot_fleetwise_edge.Inspection.Types.{Arithmetic}
use aws_iot_fleetwise_edge.Inspection.Conditions.{
  ConditionWithCollectedData, ConditionState, evaluate_trigger, is_evaluated, later,
}
use aws_iot_fleetwise_edge.Inspection.Publish.{is_ready}
use aws_iot_fleetwise_edge.Inspection.Trigger.{
  Happening, Logged, Life, is_triggered, happen, live, IsTimely, born,
}
use aws_iot_fleetwise_edge.Inspection.Trigger.Happening.{evaluation, input_change, turn}

module _ (A : Arithmetic) (c : ConditionWithCollectedData A.Double) where
  -- At least the minimum interval lies between two triggers, the newer one first.
  abbrev pub AreSpaced : List Logged → Type 0
  AreSpaced [] = Unit
  AreSpaced (x ∷ xs) =
      (elim xs [ [] ↦ Unit | y ∷ ys ↦ y.time + c.minimum_publish_interval_ms ≤ x.time ])
      × AreSpaced xs

  abbrev pub one_if : Bool → ℕ
  one_if true = 1
  one_if false = 0

  -- The last trigger of the log is the one that the condition remembers.
  abbrev Remembers : ℕ → List Logged → Type 0
  Remembers last [] = Unit
  Remembers last (x ∷ xs) = (x.time ≡ last) × (last + c.minimum_publish_interval_ms < 2 ^ 64)

  abbrev IsConsistent : Life → Type 0
  IsConsistent l =
      AreSpaced l.log
      × Remembers l.state.last_trigger.monotonic_time_ms l.log
      × (length l.log ≡ l.publications + one_if l.state.waiting_published)

  spaced-cons :
      (x : Logged) (xs : List Logged) (last : ℕ)
      → AreSpaced xs
      → Remembers last xs
      → later last c.minimum_publish_interval_ms ≤ x.time
      → AreSpaced (x ∷ xs)
  spaced-cons x [] last h r t = (tt, h)
  spaced-cons x (y ∷ ys) last h r t = (omega (arith, r.0, r.1), h)

  untriggered :
      (now : TimePoint) (holds : Bool) (s : ConditionState)
      → is_triggered s (evaluate_trigger A now c holds s).0 ≡ false
      → ((evaluate_trigger A now c holds s).0.last_trigger ≡ s.last_trigger)
        × ((evaluate_trigger A now c holds s).0.waiting_published ≡ s.waiting_published)
  untriggered now holds s h = ground arith

  triggered :
      (now : TimePoint) (holds : Bool) (s : ConditionState)
      → is_triggered s (evaluate_trigger A now c holds s).0 ≡ true
      → ((evaluate_trigger A now c holds s).0.last_trigger ≡ now)
        × (s.waiting_published ≡ false)
        × ((evaluate_trigger A now c holds s).0.waiting_published ≡ true)
        × (later s.last_trigger.monotonic_time_ms c.minimum_publish_interval_ms
            ≤ now.monotonic_time_ms)
  triggered now holds s h = ground arith

  evaluation-IsConsistent :
      (now : TimePoint) (holds : Bool) (l : Life)
      → now.monotonic_time_ms + c.minimum_publish_interval_ms < 2 ^ 64
      → IsConsistent l
      → IsConsistent (happen A c (evaluation now holds) l)
  evaluation-IsConsistent now holds l t h =
      let new = (evaluate_trigger A now c holds l.state).0 in
      let edge = l.is_edge || is_evaluated A c l.state && not holds in
      let entry : Logged = record { time = now.monotonic_time_ms; is_edge = edge } in
      elim (Bool-cases (is_triggered l.state new)) [
        | inl e ↦
            let facts = triggered now holds l.state e in
            let was : one_if l.state.waiting_published ≡ 0 = rw facts.1 refl in
            let is : one_if new.waiting_published ≡ 1 = rw facts.2 refl in
            let spaced =
              spaced-cons entry l.log l.state.last_trigger.monotonic_time_ms h.0 h.1 facts.3 in
            let time : new.last_trigger.monotonic_time_ms ≡ now.monotonic_time_ms =
              ap (λ t. t.monotonic_time_ms) facts.0 in
            let remembered : Remembers new.last_trigger.monotonic_time_ms (entry ∷ l.log) =
              (rw time (refl, t)) in
            rw e (spaced, remembered, omega (arith, h.2, was, is))
        | inr e ↦ let facts = untriggered now holds l.state e in rw e (rw (facts.0, facts.1) h)
      ]

  happen-IsConsistent :
      (e : Happening) (l : Life) → IsTimely A c e → IsConsistent l → IsConsistent (happen A c e l)
  happen-IsConsistent (evaluation now holds) l t h = evaluation-IsConsistent now holds l t h
  happen-IsConsistent input_change l t h = h
  happen-IsConsistent (turn now event_id) l t h = elim (Bool-cases (is_ready now c l.state)) [
    | inl e ↦
        let waits : l.state.waiting_published ≡ true = ground arith in
        let one : one_if l.state.waiting_published ≡ 1 = rw waits refl in
        rw e (h.0, h.1, omega (arith, h.2, one))
    | inr e ↦ rw e h
  ]

  live-IsConsistent :
      (hs : List Happening) (l : Life)
      → All (IsTimely A c) hs
      → IsConsistent l
      → IsConsistent (live A c hs l)
  live-IsConsistent [] l t h = h
  live-IsConsistent (e ∷ hs) l t h =
      live-IsConsistent hs (happen A c e l) t.1 (happen-IsConsistent e l t.0 h)

  -- For a condition that does not wait at first, and whatever happens to it at times to which its
  -- minimum interval can be added within 64 bits: at least the minimum interval lies between two
  -- triggers, and every trigger is published once, but for the last one while the condition waits.
  pub live-AreSpaced :
      (hs : List Happening) (s : ConditionState)
      → s.waiting_published ≡ false
      → All (IsTimely A c) hs
      → AreSpaced (live A c hs (born A c s)).log
        × (length (live A c hs (born A c s)).log
            ≡ (live A c hs (born A c s)).publications
              + one_if (live A c hs (born A c s)).state.waiting_published)
  live-AreSpaced hs s idle timely =
      let none_yet : 0 ≡ 0 + one_if s.waiting_published = (rw idle (omega arith)) in
      let h = live-IsConsistent hs (born A c s) timely (tt, tt, none_yet) in (h.0, h.2)
