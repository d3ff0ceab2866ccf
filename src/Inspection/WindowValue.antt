-- ===== src/Inspection/WindowValue.antt =====
-- Which samples the values of a finished window of FixedTimeWindowFunctionData of
-- include/aws/iotfleetwise/CollectionInspectionEngine.h are about.
use aws_iot_fleetwise_edge.Prelude.{
  ℕ, suc, ◌+◌, ◌*◌, ◌%◌, ◌^◌, ◌≤◌, ◌<◌, min, max, true, false, List, [], ◌∷◌, length, ltb, leb,
  ◌==◌, Bool-cases, inl, inr, ◌≡◌, refl, arith,
}
use aws_iot_fleetwise_edge.Inspection.Types.{Arithmetic}
use aws_iot_fleetwise_edge.Inspection.Windows.{
  Numbers, Collecting, WindowData, least, greatest, update_internal_variables, nothing_collected,
  add_value,
}

module _ (A : Arithmetic) {V : Type 0} (N : Numbers V A.Double) where
  -- What is collected after the samples, newest first.
  abbrev pub collect_all : List V → Collecting V A.Double
  collect_all [] = nothing_collected A N
  collect_all (v ∷ vs) = update_internal_variables A N v (collect_all vs)

  -- The least and the greatest place in the order of the values.
  abbrev pub least_rank : V → List V → ℕ
  least_rank v [] = N.rank v
  least_rank v (u ∷ us) = min (N.rank v) (least_rank u us)

  abbrev pub greatest_rank : V → List V → ℕ
  greatest_rank v [] = N.rank v
  greatest_rank v (u ∷ us) = max (N.rank v) (greatest_rank u us)

  rank-least : (a b : V) → N.rank (least A N a b) ≡ min (N.rank b) (N.rank a)
  rank-least a b = elim (Bool-cases (ltb (N.rank b) (N.rank a))) [
    | inl t ↦ rw t (ground arith)
    | inr f ↦ rw f (ground arith)
  ]

  rank-greatest : (a b : V) → N.rank (greatest A N a b) ≡ max (N.rank b) (N.rank a)
  rank-greatest a b = elim (Bool-cases (ltb (N.rank a) (N.rank b))) [
    | inl t ↦ rw t (ground arith)
    | inr f ↦ rw f (ground arith)
  ]

  collect_all-least :
      (vs : List V) (v : V)
      → ((x : V) → N.rank x ≤ N.rank N.highest)
      → N.rank ((collect_all (v ∷ vs)).collecting_min) ≡ least_rank v vs
  collect_all-least [] v h = let k = h v in rw (rank-least N.highest v) (omega arith)
  collect_all-least (u ∷ us) v h =
      rw (rank-least ((collect_all (u ∷ us)).collecting_min) v, collect_all-least us u h) refl

  collect_all-greatest :
      (vs : List V) (v : V)
      → ((x : V) → N.rank N.lowest ≤ N.rank x)
      → N.rank ((collect_all (v ∷ vs)).collecting_max) ≡ greatest_rank v vs
  collect_all-greatest [] v h = let k = h v in rw (rank-greatest N.lowest v) (omega arith)
  collect_all-greatest (u ∷ us) v h =
      rw (rank-greatest ((collect_all (u ∷ us)).collecting_max) v, collect_all-greatest us u h) refl

  collect_all-length :
      (vs : List V) → length vs < 2 ^ 32 → (collect_all vs).collected_signals ≡ length vs
  collect_all-length [] h = refl
  collect_all-length (v ∷ vs) h = rw (collect_all-length vs (omega arith)) (omega arith)

  -- In a type whose limits bound every value, a window that was started collected the samples `vs`,
  -- fewer than 2 ^ 32 with `v`, and its times do not pass 2 ^ 64. Then a new sample `v` that comes when
  -- the window is over, but not yet the next one, makes it the last window, available, with the least
  -- and the greatest value of `vs` and `v`, and the last window before it the previous one.
  pub add_value-last :
      (vs : List V) (v : V) (t next : ℕ) (w : WindowData V A.Double)
      → ((x : V) → N.rank x ≤ N.rank N.highest)
      → ((x : V) → N.rank N.lowest ≤ N.rank x)
      → w.collecting ≡ collect_all vs
      → length vs + 1 < 2 ^ 32
      → 0 < w.last_time_calculated
      → w.last_time_calculated + w.window_size_ms ≤ t
      → t < w.last_time_calculated + w.window_size_ms * 2
      → w.last_time_calculated + w.window_size_ms * 2 < 2 ^ 64
      → ((add_value A N v t next w).1.0.last.available ≡ true)
        × (N.rank ((add_value A N v t next w).1.0.last.minimum) ≡ least_rank v vs)
        × (N.rank ((add_value A N v t next w).1.0.last.maximum) ≡ greatest_rank v vs)
        × ((add_value A N v t next w).1.0.previous_last ≡ w.last)
  add_value-last vs v t next w hi lo c few started over soon fits =
      let one : (w.last_time_calculated + w.window_size_ms) % 2 ^ 64
          ≡ w.last_time_calculated + w.window_size_ms =
        omega arith in
      let two : (w.last_time_calculated + w.window_size_ms * 2 % 2 ^ 64) % 2 ^ 64
          ≡ w.last_time_calculated + w.window_size_ms * 2 =
        omega arith in
      let is_started : (w.last_time_calculated == 0) ≡ false = ground arith in
      let is_soon : leb (w.last_time_calculated + w.window_size_ms * 2) t ≡ false = ground arith in
      let is_over : leb (w.last_time_calculated + w.window_size_ms) t ≡ true = ground arith in
      let counted : (length vs + 1) % 2 ^ 32 ≡ suc (length vs) = omega arith in
      let some_signal : (suc (length vs) == 0) ≡ false = ground arith in
      rw
        (
          is_started,
          one,
          two,
          is_soon,
          is_over,
          c,
          collect_all-length vs (omega arith),
          counted,
          some_signal,
        )
        (refl, collect_all-least vs v hi, collect_all-greatest vs v lo, refl)
