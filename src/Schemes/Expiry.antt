-- ===== src/Schemes/Expiry.antt =====
-- The schemes that `checkTimeLine` of src/CollectionSchemeManager.cpp leaves, and the time of the
-- check.
use aws_iot_fleetwise_edge.Prelude.{
  ℕ, ◌+◌, ◌<◌, ◌≡◌, refl, Bool, true, List, [], ◌∷◌, Option, none, some, arith, All, lookup,
  Bool-cases, inl, inr, ◌⊎◌, subst,
}
use aws_iot_fleetwise_edge.Schemes.Types.{TimePoint, CollectionScheme, TimeData, Schedule}
use aws_iot_fleetwise_edge.Schemes.Schedule.{
  Round, ends, goes_on, check_top, run_time_line, check_time_line, has_not_expired,
}
use aws_iot_fleetwise_edge.Schemes.TimeLine.{IsNotBefore, has_entry-IsNotBefore}
use aws_iot_fleetwise_edge.Schemes.Scheduled.{
  OnScheme, AtKey, SchemeMap, IsScheduled, KeepsRound, check_top-KeepsRound,
}

-- The schemes are where they belong at a time: what is enabled stops later, and what is idle starts
-- later.
abbrev pub StopsLater : ℕ → CollectionScheme → Type 0
StopsLater now s = now < s.expiry_time

abbrev pub StartsLater : ℕ → CollectionScheme → Type 0
StartsLater now s = now < s.start_time

pub record IsCurrent (offset now : ℕ) (m : Schedule) : Type 0 where
  pub scheduled : IsScheduled offset m.time_line m.idle m.enabled
  pub enabled_running : (k : ℕ) → OnScheme (StopsLater now) (lookup k m.enabled)
  pub idle_waiting : (k : ℕ) → OnScheme (StartsLater now) (lookup k m.idle)

module _ (now t : ℕ) (ds : List TimeData) (later : now < t) (a : All (IsNotBefore t) ds) where
  AtKey-StopsLater :
      (k : ℕ) (i e : Option CollectionScheme) → AtKey ds k i e → OnScheme (StopsLater now) e
  AtKey-StopsLater k i none h = tt
  AtKey-StopsLater k i (some s) h =
      omega (arith, later, has_entry-IsNotBefore s.expiry_time k t ds a h.1)

  AtKey-StartsLater :
      (k : ℕ) (i e : Option CollectionScheme) → AtKey ds k i e → OnScheme (StartsLater now) i
  AtKey-StartsLater k none e h = tt
  AtKey-StartsLater k (some s) e h =
      omega (arith, later, has_entry-IsNotBefore s.start_time k t ds a h.2.0)

  future-IsCurrent :
      (offset : ℕ) (idle enabled : SchemeMap)
      → IsScheduled offset ds idle enabled
      → IsCurrent offset now (record { idle = idle; enabled = enabled; time_line = ds })
  future-IsCurrent offset idle enabled h = record {
    scheduled = h;
    enabled_running = λ k. AtKey-StopsLater k (lookup k idle) (lookup k enabled) (h.at_key k);
    idle_waiting = λ k. AtKey-StartsLater k (lookup k idle) (lookup k enabled) (h.at_key k);
  }

check_top-ends :
    (now : TimePoint) (top : TimeData) (idle enabled : SchemeMap)
    → check_top now top idle enabled ≡ ends
    → now.system_time_ms < top.time.system_time_ms
unfolding check_top
check_top-ends now top idle enabled h = ground arith

pub Round-cases :
    (r : Round)
    → (r ≡ ends) ⊎ ((c : Bool) × (i : SchemeMap) × (e : SchemeMap) × (r ≡ goes_on c i e))
Round-cases ends = inl refl
Round-cases (goes_on c i e) = inr (c, i, e, refl)

run_time_line-IsCurrent :
    (offset : ℕ) (now : TimePoint) (ds : List TimeData) (idle enabled : SchemeMap)
    → IsScheduled offset ds idle enabled
    → IsCurrent offset now.system_time_ms (run_time_line now ds idle enabled).1
unfolding run_time_line
run_time_line-IsCurrent offset now [] idle enabled h =
    future-IsCurrent now.system_time_ms (now.system_time_ms + 1) [] (omega arith) tt offset idle
      enabled h
run_time_line-IsCurrent offset now (top ∷ rest) idle enabled h =
    let k = check_top-KeepsRound offset now top rest idle enabled h in
    elim (Round-cases (check_top now top idle enabled)) [
      | inl e ↦
          rw (e, run_time_line)
            (future-IsCurrent now.system_time_ms top.time.system_time_ms (top ∷ rest)
              (check_top-ends now top idle enabled e) (omega arith, h.ordered.1) offset idle enabled
              h)
      | inr (c, i, e, q) ↦
          rw (q, run_time_line)
            (run_time_line-IsCurrent offset now rest i e (subst (KeepsRound offset rest) q k))
    ]

-- From a well-formed schedule, `checkTimeLine` leaves a well-formed one in which every enabled
-- scheme stops after now and every idle one starts after now. A schedule is well formed where the
-- elements of the timeline are in the order of system time and have both clocks `offset` apart, no
-- identifier is both idle and enabled, every enabled scheme has its stop time in the timeline, and
-- every idle one has both of its times there and starts before it stops.
pub check_time_line-IsCurrent :
    (offset : ℕ) (now : TimePoint) (m : Schedule)
    → IsScheduled offset m.time_line m.idle m.enabled
    → IsCurrent offset now.system_time_ms (check_time_line now m).1
unfolding check_time_line
check_time_line-IsCurrent offset now m h = elim (Bool-cases (has_not_expired now m.time_line)) [
  | inr e ↦ rw e (run_time_line-IsCurrent offset now m.time_line m.idle m.enabled h)
  | inl e ↦ rw e (unexpired m.time_line h e)
]
  where
    unexpired :
        (ds : List TimeData)
        → IsScheduled offset ds m.idle m.enabled
        → has_not_expired now ds ≡ true
        → IsCurrent offset now.system_time_ms (record m { time_line = ds })
    unexpired [] h' e =
        future-IsCurrent now.system_time_ms (now.system_time_ms + 1) [] (omega arith) tt offset
          m.idle m.enabled h'
    unexpired (top ∷ rest) h' e =
        future-IsCurrent now.system_time_ms top.time.system_time_ms (top ∷ rest) (ground (arith, e))
          (omega arith, h'.ordered.1) offset m.idle m.enabled h'
