-- ===== src/Inspection/Windowed.antt =====
-- When the windows of FixedTimeWindowFunctionData of
-- include/aws/iotfleetwise/CollectionInspectionEngine.h start and end.
use aws_iot_fleetwise_edge.Prelude.{
  ℕ, ◌+◌, ◌-◌, ◌*◌, ◌/◌, ◌%◌, ◌^◌, ◌≤◌, ◌<◌, ◌||◌, true, leb, ◌==◌, Bool-cases, inl, inr, ◌≡◌, refl,
  arith,
}
use native.Mathlib.Nat.{div-lt_iff_lt-mul, div-add-mod', mod-lt, mod-eq_of_lt}
use aws_iot_fleetwise_edge.Inspection.Types.{Arithmetic}
use aws_iot_fleetwise_edge.Inspection.Windows.{
  Numbers, WindowValues, WindowData, window_start, init_new_window, update_window, unavailable,
  closed,
}

-- The window that is open holds `timestamp`, and `next` is not after its end.
abbrev pub IsOpenAt : {V D : Type 0} → ℕ → WindowData V D × ℕ → Type 0
IsOpenAt timestamp (w, next) =
    (w.last_time_calculated ≤ timestamp)
    × (timestamp < w.last_time_calculated + w.window_size_ms)
    × (next ≤ w.last_time_calculated + w.window_size_ms)

module _ (A : Arithmetic) {V : Type 0} (N : Numbers V A.Double) where
  -- The start is moved on by a whole number of windows.
  window_start-value :
      (start size t : ℕ)
      → 0 < size
      → start ≤ t
      → t < 2 ^ 64
      → t - start < 2 ^ 32 * size
      → window_start A N start size t ≡ start + (t - start) / size * size
  window_start-value start size t h l u q =
      let ago : (t + 2 ^ 64 - start) % 2 ^ 64 ≡ t - start = omega arith in
      let few : (t - start) / size < 2 ^ 32 = (div-lt_iff_lt-mul h).1 q in
      let whole : (t - start) / size % 2 ^ 32 ≡ (t - start) / size = mod-eq_of_lt few in
      let back : (t - start) / size * size + (t - start) % size ≡ t - start =
        div-add-mod' (t - start) size in
      let fits : (t - start) / size * size % 2 ^ 64 ≡ (t - start) / size * size =
        mod-eq_of_lt (omega arith) in
      rw (ago, whole, fits) (mod-eq_of_lt (omega arith))

  init_new_window-IsOpenAt :
      (start size t next : ℕ) (l p : WindowValues V)
      → 0 < size
      → start ≤ t
      → t + size < 2 ^ 64
      → t - start < 2 ^ 32 * size
      → IsOpenAt t (init_new_window A N start size t next l p)
  init_new_window-IsOpenAt start size t next l p h s u q =
      let back : (t - start) / size * size + (t - start) % size ≡ t - start =
        div-add-mod' (t - start) size in
      let rest : (t - start) % size < size = mod-lt (t - start) h in
      rw (window_start-value start size t h s (omega arith) q)
        (omega arith, omega arith, omega arith)

  -- The window has a size above 0 and did not start after `t`, the number of windows from its start to
  -- `t` fits into 32 bits, and two windows from `t` on do not pass 2 ^ 64. Then after updateWindow at `t`
  -- the window that is open holds `t` and the next update is due at its end at the latest, and
  -- updateWindow says that a value changed exactly when the window was not started or was over.
  pub update_window-IsOpenAt :
      (t next : ℕ) (w : WindowData V A.Double)
      → 0 < w.window_size_ms
      → w.last_time_calculated ≤ t
      → t + 2 * w.window_size_ms < 2 ^ 64
      → t - w.last_time_calculated < 2 ^ 32 * w.window_size_ms
      → IsOpenAt t ((update_window A N t next w).1)
        × ((update_window A N t next w).0
            ≡ (w.last_time_calculated == 0) || leb (w.last_time_calculated + w.window_size_ms) t)
  update_window-IsOpenAt t next w h s u q =
      let one : (w.last_time_calculated + w.window_size_ms) % 2 ^ 64
          ≡ w.last_time_calculated + w.window_size_ms =
        omega arith in
      let two : (w.last_time_calculated + w.window_size_ms * 2 % 2 ^ 64) % 2 ^ 64
          ≡ w.last_time_calculated + w.window_size_ms * 2 =
        omega arith in
      elim (Bool-cases (w.last_time_calculated == 0)) [
        | inl first ↦ rw first (
          init_new_window-IsOpenAt t w.window_size_ms t next w.last w.previous_last h (omega arith)
              (omega arith) (omega arith),
          refl,
        )
        | inr started ↦ elim (Bool-cases (leb (w.last_time_calculated + w.window_size_ms * 2) t)) [
          | inl late ↦
              let over : leb (w.last_time_calculated + w.window_size_ms) t ≡ true = ground arith in
              rw (started, one, two, late, over)
                (
                  init_new_window-IsOpenAt w.last_time_calculated w.window_size_ms t next
                      (unavailable A N w.last) (closed A N w.collecting w.previous_last) h s
                      (omega arith) q,
                  refl,
                )
          | inr soon ↦ elim (Bool-cases (leb (w.last_time_calculated + w.window_size_ms) t)) [
            | inl over ↦
                rw (started, one, two, soon, over)
                  (
                    init_new_window-IsOpenAt w.last_time_calculated w.window_size_ms t next
                        (closed A N w.collecting w.last) w.last h s (omega arith) q,
                    refl,
                  )
            | inr early ↦
                let inside : t < w.last_time_calculated + w.window_size_ms = ground arith in
                rw (started, one, two, soon, early) ((s, inside, omega arith), refl)
          ]
        ]
      ]
