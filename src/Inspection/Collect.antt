-- ===== src/Inspection/Collect.antt =====
-- What collectLastSignals takes out of a SignalHistoryBuffer, and what it leaves.
use aws_iot_fleetwise_edge.Prelude.{
  ℕ, zero, suc, ◌≤◌, ◌<◌, min, max, Bool, true, false, ◌||◌, not, List, [], ◌∷◌, map, length,
  get_or, set, ==_refl, if◌then◌else◌, filter_by, Bool-cases, ◌⊎◌, inl, inr, ◌≡◌, refl, ap, ◌∙◌,
  arith,
}
use aws_iot_fleetwise_edge.Inspection.Buffer.{
  Sample, SignalHistoryBuffer, Collected, position_before, set_already_consumed, collect_loop,
  collect_last_signals, after_collection,
}
use aws_iot_fleetwise_edge.Inspection.History.{
  IsRing, history, recent, take, steps_back, position_before-below, steps_back-before,
  steps_back_around, recent-set, get_or-set_same, get_or-set_other, length-set, take-recent-min,
}

module _ {V : Type 0} where
  abbrev pub is_unsent : Bool → ℕ → Sample V → Bool
  is_unsent only_once condition s = not (s.already_consumed condition) || not only_once

  abbrev pub collected : Sample V → Collected V
  collected s = record { value = s.value; receive_time = s.timestamp }

  abbrev marked : Bool → ℕ → Sample V → List (Sample V) → ℕ → List (Sample V)
  marked only_once condition d samples p =
      let s = get_or samples p d in
      if is_unsent only_once condition s
      then set samples p (set_already_consumed condition true s)
      else samples

  -- Marking one sample does not show in the part of the ring that is still to be read.
  recent-marked :
      (d : Sample V) (only_once : Bool) (condition m size p : ℕ) (samples : List (Sample V))
      → p < size
      → m < size
      → recent d m (position_before size p) size (marked only_once condition d samples p)
        ≡ recent d m (position_before size p) size samples
  recent-marked d only_once condition m size p samples hp hm =
      let s = get_or samples p d in
      let around = steps_back_around size p hp in
      elim (Bool-cases (is_unsent only_once condition s)) [
        | inl t ↦ rw t (
            recent-set d m (position_before size p) size p samples
              (set_already_consumed condition true s) (position_before-below size p hp) hp
              (omega arith))
        | inr t ↦ rw t refl
      ]

  collect_loop-output :
      (d : Sample V) (only_once : Bool) (condition n p size : ℕ) (samples : List (Sample V))
      (newest : ℕ)
      → p < size
      → n ≤ size
      → (collect_loop d only_once condition n p size samples newest).0
        ≡ map collected (filter_by (is_unsent only_once condition) (recent d n p size samples))
  unfolding collect_loop
  collect_loop-output d only_once condition zero p size samples newest hp hn = refl
  collect_loop-output d only_once condition (suc n) p size samples newest hp hn =
      let s = get_or samples p d in
      let rest =
        collect_loop-output d only_once condition n (position_before size p) size
          (marked only_once condition d samples p) (max newest s.timestamp)
          (position_before-below size p hp) (omega arith) in
      let same = recent-marked d only_once condition n size p samples hp hn in
      let whole =
        rest ∙ ap (λ xs. map collected (filter_by (is_unsent only_once condition) xs)) same in
      elim (Bool-cases (is_unsent only_once condition s)) [
        | inl t ↦ let taken = (rw t at whole) in rw t (ap (λ xs. collected s ∷ xs) taken)
        | inr t ↦ let taken = (rw t at whole) in rw t taken
      ]

  -- The greatest timestamp of some samples.
  abbrev pub latest_time : List (Sample V) → ℕ
  latest_time [] = 0
  latest_time (s ∷ ss) = max s.timestamp (latest_time ss)

  collect_loop-newest :
      (d : Sample V) (only_once : Bool) (condition n p size : ℕ) (samples : List (Sample V))
      (newest : ℕ)
      → p < size
      → n ≤ size
      → (collect_loop d only_once condition n p size samples newest).1.0
        ≡ max newest (latest_time (recent d n p size samples))
  unfolding collect_loop
  collect_loop-newest d only_once condition zero p size samples newest hp hn = omega arith
  collect_loop-newest d only_once condition (suc n) p size samples newest hp hn =
      let s = get_or samples p d in
      let rest =
        collect_loop-newest d only_once condition n (position_before size p) size
          (marked only_once condition d samples p) (max newest s.timestamp)
          (position_before-below size p hp) (omega arith) in
      let same = recent-marked d only_once condition n size p samples hp hn in
      rest ∙ ap (λ xs. max (max newest s.timestamp) (latest_time xs)) same ∙ omega arith

  marked_elsewhere :
      (d : Sample V) (only_once : Bool) (condition p q : ℕ) (samples : List (Sample V))
      → 1 ≤ steps_back (suc (max p q)) q p
      → get_or (marked only_once condition d samples q) p d ≡ get_or samples p d
  marked_elsewhere d only_once condition p q samples h =
      let s = get_or samples q d in
      let apart : (q < p) ⊎ (p < q) = ground arith in
      elim (Bool-cases (is_unsent only_once condition s)) [
        | inl t ↦
            rw t (get_or-set_other samples q p (set_already_consumed condition true s) d apart)
        | inr t ↦ rw t refl
      ]

  -- A sample that the loop does not reach stays.
  collect_loop-keeps :
      (d : Sample V) (only_once : Bool) (condition n q p size : ℕ) (samples : List (Sample V))
      (newest : ℕ)
      → q < size
      → p < size
      → n ≤ steps_back size q p
      → get_or (collect_loop d only_once condition n q size samples newest).1.1 p d
        ≡ get_or samples p d
  unfolding collect_loop
  collect_loop-keeps d only_once condition zero q p size samples newest hq hp h = refl
  collect_loop-keeps d only_once condition (suc n) q p size samples newest hq hp h =
      let s = get_or samples q d in
      let step = steps_back-before size q p hq hp (omega arith) in
      collect_loop-keeps d only_once condition n (position_before size q) p size
        (marked only_once condition d samples q) (max newest s.timestamp)
        (position_before-below size q hq) hp (omega arith)
      ∙ marked_elsewhere d only_once condition p q samples (ground arith)

  marked-sent :
      (d : Sample V) (condition p : ℕ) (samples : List (Sample V))
      → p < length samples
      → is_unsent true condition (get_or (marked true condition d samples p) p d) ≡ false
  marked-sent d condition p samples h =
      let s = get_or samples p d in
      elim (Bool-cases (is_unsent true condition s)) [
        | inl t ↦
            rw
              (
                t,
                get_or-set_same samples p (set_already_consumed condition true s) d h,
                ==_refl condition,
              )
              refl
        | inr t ↦ rw (t, t) refl
      ]

  length-marked :
      (d : Sample V) (only_once : Bool) (condition p : ℕ) (samples : List (Sample V))
      → length (marked only_once condition d samples p) ≡ length samples
  length-marked d only_once condition p samples =
      let s = get_or samples p d in
      elim (Bool-cases (is_unsent only_once condition s)) [
        | inl t ↦ rw (t, length-set samples p (set_already_consumed condition true s)) refl
        | inr t ↦ rw t refl
      ]

  collect_loop_leaves_none :
      (d : Sample V) (condition n p size : ℕ) (samples : List (Sample V)) (newest : ℕ)
      → p < size
      → size ≤ length samples
      → n ≤ size
      → filter_by
          (is_unsent true condition)
          (recent d n p size (collect_loop d true condition n p size samples newest).1.1)
        ≡ []
  unfolding collect_loop
  collect_loop_leaves_none d condition zero p size samples newest hp hl hn = refl
  collect_loop_leaves_none d condition (suc n) p size samples newest hp hl hn =
      let s = get_or samples p d in
      let next = marked true condition d samples p in
      let before = position_before-below size p hp in
      let around = steps_back_around size p hp in
      let kept =
        collect_loop-keeps d true condition n (position_before size p) p size next
          (max newest s.timestamp) before hp (omega arith) in
      let rest =
        collect_loop_leaves_none d condition n (position_before size p) size next
          (max newest s.timestamp) before (omega (arith, length-marked d true condition p samples))
          (omega arith) in
      rw (kept, marked-sent d condition p samples (omega arith)) rest

  -- For a position in a ring of at least one element: asked for at most as many samples as the ring
  -- has, collectLastSignals gives those of the last ones that it was asked for, newest first, that
  -- the condition has not sent yet, or all of them where data may be sent again. Whether a sample is
  -- given does not depend on its timestamp: one that is older than the data sent before is given too.
  -- The newest timestamp is raised to the greatest one of the last samples, given or not.
  pub collect_last_signals-history :
      (d : Sample V) (only_once : Bool) (condition maximum : ℕ) (b : SignalHistoryBuffer V)
      (newest : ℕ)
      → IsRing b
      → maximum ≤ b.size
      → ((collect_last_signals d only_once condition maximum b newest).0
          ≡ map collected (filter_by (is_unsent only_once condition) (take maximum (history d b))))
        × ((collect_last_signals d only_once condition maximum b newest).1.0
            ≡ max newest (latest_time (take maximum (history d b))))
  collect_last_signals-history d only_once condition maximum b newest ring few =
      let e : min maximum (min b.counter b.size) ≡ min maximum b.counter = omega arith in
      let whole =
        take-recent-min d maximum (min b.counter b.size) b.current_position b.size b.buffer in
      (
        collect_loop-output d only_once condition (min maximum b.counter) b.current_position b.size
              b.buffer newest ring.2 (omega arith)
            ∙ (rw (whole, e) refl),
        collect_loop-newest d only_once condition (min maximum b.counter) b.current_position b.size
              b.buffer newest ring.2 (omega arith)
            ∙ (rw (whole, e) refl),
      )

  -- For a position in a ring of at least one element: once collectLastSignals has collected for a
  -- condition, with data to be sent only once and at most as many samples as the ring has, it gives
  -- nothing when it is asked again before a new sample comes.
  pub collect_last_signals_twice :
      (d : Sample V) (condition maximum : ℕ) (b : SignalHistoryBuffer V) (newest again : ℕ)
      → IsRing b
      → maximum ≤ b.size
      → (collect_last_signals d true condition maximum
          (after_collection d true condition maximum b newest)
          again).0
        ≡ []
  collect_last_signals_twice d condition maximum b newest again ring few =
      let n = min maximum b.counter in
      let left = (collect_last_signals d true condition maximum b newest).1.1 in
      collect_loop-output d true condition n b.current_position b.size left again ring.2
        (omega arith)
      ∙ ap (map collected) (
          collect_loop_leaves_none d condition n b.current_position b.size b.buffer newest ring.2
            ring.1 (omega arith))
