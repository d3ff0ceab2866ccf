-- ===== src/Schemes/Places.antt =====
-- Where `checkTimeLine` of src/CollectionSchemeManager.cpp puts each scheme.
use aws_iot_fleetwise_edge.Prelude.{
  ℕ, ◌≡◌, refl, sym, ◌∙◌, ◌&&◌, List, [], ◌∷◌, Option, none, some, arith, ltb, leb, if◌then◌else◌,
  lookup, lookup-put, lookup-remove, Option-cases, Bool-cases, inl, inr, subst,
}
use aws_iot_fleetwise_edge.Schemes.Types.{TimePoint, CollectionScheme, TimeData, Schedule}
use aws_iot_fleetwise_edge.Schemes.Schedule.{
  Round, ends, goes_on, check_top, run_time_line, check_time_line, has_not_expired,
}
use aws_iot_fleetwise_edge.Schemes.Scheduled.{
  OnScheme, IsApart, SchemeMap, IsScheduled, KeepsRound, check_top-KeepsRound,
}
use aws_iot_fleetwise_edge.Schemes.Expiry.{
  StopsLater, StartsLater, check_time_line-IsCurrent, Round-cases,
}

-- The scheme that runs at a time, from the idle and the enabled one.
abbrev pub running_at :
    ℕ → Option CollectionScheme → Option CollectionScheme → Option CollectionScheme
running_at now none none = none
running_at now (some s) none =
    if leb s.start_time now && ltb now s.expiry_time then some s else none
running_at now idle (some s) = if ltb now s.expiry_time then some s else none

-- The scheme that waits at a time.
abbrev pub waiting_at : ℕ → Option CollectionScheme → Option CollectionScheme
waiting_at now none = none
waiting_at now (some s) = if ltb now s.start_time then some s else none

-- The same schemes run and wait under an identifier.
abbrev SamePlaces : ℕ → ℕ → SchemeMap → SchemeMap → SchemeMap → SchemeMap → Type 0
SamePlaces now k idle enabled idle' enabled' =
    (running_at now (lookup k idle') (lookup k enabled')
      ≡ running_at now (lookup k idle) (lookup k enabled))
    × (waiting_at now (lookup k idle') ≡ waiting_at now (lookup k idle))

abbrev RoundKeeps : ℕ → ℕ → SchemeMap → SchemeMap → Round → Type 0
RoundKeeps now k idle enabled ends = Unit
RoundKeeps now k idle enabled (goes_on c idle' enabled') =
    SamePlaces now k idle enabled idle' enabled'

check_top-RoundKeeps :
    (now : TimePoint) (top : TimeData) (idle enabled : SchemeMap) (k : ℕ)
    → IsApart (lookup top.id idle) (lookup top.id enabled)
    → RoundKeeps now.system_time_ms k idle enabled (check_top now top idle enabled)
unfolding check_top
check_top-RoundKeeps now top idle enabled k a = elim (Option-cases (lookup top.id enabled)) [
  | inr (s, e) ↦ elim (Option-cases (lookup top.id idle)) [
    | inr (t, f) ↦ absurd (ground (arith, a, e, f))
    | inl f ↦ rw (e, check_top) (ground (arith, e, f, lookup-remove top.id k enabled))
  ]
  | inl e ↦ elim (Option-cases (lookup top.id idle)) [
    | inl f ↦ rw (e, f, check_top) (refl, refl)
    | inr (s, f) ↦
        rw (e, f, check_top)
          (ground (arith, e, f, lookup-remove top.id k idle, lookup-put top.id k s enabled))
  ]
]

run_time_line-SamePlaces :
    (offset : ℕ) (now : TimePoint) (ds : List TimeData) (idle enabled : SchemeMap) (k : ℕ)
    → IsScheduled offset ds idle enabled
    → let m = (run_time_line now ds idle enabled).1 in
      SamePlaces now.system_time_ms k idle enabled m.idle m.enabled
unfolding run_time_line
run_time_line-SamePlaces offset now [] idle enabled k h = (refl, refl)
run_time_line-SamePlaces offset now (top ∷ rest) idle enabled k h =
    let t = check_top-RoundKeeps now top idle enabled k (h.at_key top.id).0 in
    let n = check_top-KeepsRound offset now top rest idle enabled h in
    elim (Round-cases (check_top now top idle enabled)) [
      | inl e ↦ rw (e, run_time_line) (refl, refl)
      | inr (c, i, e, q) ↦
          let r =
            run_time_line-SamePlaces offset now rest i e k (subst (KeepsRound offset rest) q n) in
          let u = subst (RoundKeeps now.system_time_ms k idle enabled) q t in
          rw (q, run_time_line) (r.0 ∙ u.0, r.1 ∙ u.1)
    ]

check_time_line-SamePlaces :
    (offset : ℕ) (now : TimePoint) (m : Schedule) (k : ℕ)
    → IsScheduled offset m.time_line m.idle m.enabled
    → let m' = (check_time_line now m).1 in
      SamePlaces now.system_time_ms k m.idle m.enabled m'.idle m'.enabled
unfolding check_time_line
check_time_line-SamePlaces offset now m k h = elim (Bool-cases (has_not_expired now m.time_line)) [
  | inl e ↦ rw e (refl, refl)
  | inr e ↦ rw e (run_time_line-SamePlaces offset now m.time_line m.idle m.enabled k h)
]

-- Where nothing is due, each scheme is in the map of its place.
settled :
    (now : ℕ) (i e : Option CollectionScheme)
    → OnScheme (StopsLater now) e
    → OnScheme (StartsLater now) i
    → IsApart i e
    → (running_at now i e ≡ e) × (waiting_at now i ≡ i)
settled now none none r w a = (refl, refl)
settled now none (some s) r w a = (ground (arith, r), refl)
settled now (some s) none r w a = (ground (arith, w), ground (arith, w))
settled now (some s) (some t) r w a = absurd a

-- From a well-formed schedule, `checkTimeLine` enables exactly the schemes that run now: an enabled
-- one that stops after now, or an idle one that has started and stops after now. The idle ones that
-- it leaves are those that start after now. A schedule is well formed where the elements of the
-- timeline are in the order of system time and have both clocks `offset` apart, no identifier is
-- both idle and enabled, every enabled scheme has its stop time in the timeline, and every idle one
-- has both of its times there and starts before it stops.
pub check_time_line-each :
    (offset : ℕ) (now : TimePoint) (m : Schedule) (k : ℕ)
    → IsScheduled offset m.time_line m.idle m.enabled
    → let m' = (check_time_line now m).1 in
      (lookup k m'.enabled ≡ running_at now.system_time_ms (lookup k m.idle) (lookup k m.enabled))
      × (lookup k m'.idle ≡ waiting_at now.system_time_ms (lookup k m.idle))
check_time_line-each offset now m k h =
    let c = check_time_line-IsCurrent offset now m h in
    let p = check_time_line-SamePlaces offset now m k h in
    let m' = (check_time_line now m).1 in
    let s =
      settled now.system_time_ms (lookup k m'.idle) (lookup k m'.enabled) (c.enabled_running k)
        (c.idle_waiting k) (c.scheduled.at_key k).0 in
    (sym s.0 ∙ p.0, sym s.1 ∙ p.1)
