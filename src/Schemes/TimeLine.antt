-- ===== src/Schemes/TimeLine.antt =====
-- The timeline of src/CollectionSchemeManager.cpp, in the order of the monotonic clock and in the
-- order of system time.
use aws_iot_fleetwise_edge.Prelude.{
  ℕ, ◌+◌, ◌^◌, ◌≤◌, ◌<◌, ◌≡◌, refl, Bool, true, false, ◌&&◌, ◌||◌, List, [], ◌∷◌, arith, ◌==◌, All,
  Bool-cases, inl, inr,
}
use aws_iot_fleetwise_edge.Schemes.Types.{
  TimePoint, time_point_from_system_time, TimeData, is_greater, push_time,
}
use aws_iot_fleetwise_edge.Schemes.Schedule.{push_at}

-- The timeline has an element for a system time and a scheme.
abbrev pub is_at : ℕ → ℕ → TimeData → Bool
is_at t id d = d.time.system_time_ms == t && d.id == id

abbrev pub has_entry : ℕ → ℕ → List TimeData → Bool
has_entry t id [] = false
has_entry t id (d ∷ ds) = is_at t id d || has_entry t id ds

pub has_entry-push_time :
    (t id : ℕ) (d : TimeData) (ds : List TimeData)
    → has_entry t id (push_time d ds) ≡ (is_at t id d || has_entry t id ds)
has_entry-push_time t id d [] = refl
has_entry-push_time t id d (e ∷ es) = ground (arith, has_entry-push_time t id d es)

-- The clocks are `offset` apart.
abbrev pub IsSteady : ℕ → TimePoint → Type 0
IsSteady offset p = p.system_time_ms ≡ p.monotonic_time_ms + offset

abbrev IsSteadyData : ℕ → TimeData → Type 0
IsSteadyData offset d = IsSteady offset d.time

abbrev pub IsNotBefore : ℕ → TimeData → Type 0
IsNotBefore t d = t ≤ d.time.system_time_ms

-- In the order of system time, and steady.
abbrev pub IsOrdered : ℕ → List TimeData → Type 0
IsOrdered offset [] = Unit
IsOrdered offset (d ∷ ds) =
    IsSteadyData offset d × All (IsNotBefore d.time.system_time_ms) ds × IsOrdered offset ds

IsNotBefore-weaken :
    (t u : ℕ) (ds : List TimeData) → u ≤ t → All (IsNotBefore t) ds → All (IsNotBefore u) ds
IsNotBefore-weaken t u [] h a = tt
IsNotBefore-weaken t u (d ∷ ds) h a = (omega (arith, a.0), IsNotBefore-weaken t u ds h a.1)

IsNotBefore-push_time :
    (t : ℕ) (d : TimeData) (ds : List TimeData)
    → IsNotBefore t d
    → All (IsNotBefore t) ds
    → All (IsNotBefore t) (push_time d ds)
IsNotBefore-push_time t d [] h a = (h, tt)
IsNotBefore-push_time t d (e ∷ es) h a = elim (Bool-cases (is_greater e d)) [
  | inl g ↦ rw g (h, a)
  | inr g ↦ rw g (a.0, IsNotBefore-push_time t d es h a.1)
]

pub push_time-IsOrdered :
    (offset : ℕ) (d : TimeData) (ds : List TimeData)
    → IsSteadyData offset d
    → IsOrdered offset ds
    → IsOrdered offset (push_time d ds)
push_time-IsOrdered offset d [] s o = (s, tt, tt)
push_time-IsOrdered offset d (e ∷ es) s o = elim (Bool-cases (is_greater e d)) [
  | inl g ↦
      let l : d.time.system_time_ms ≤ e.time.system_time_ms = ground (arith, o.0, s, g) in
      rw g (s, (l, IsNotBefore-weaken e.time.system_time_ms d.time.system_time_ms es l o.1), o)
  | inr g ↦
      let l : e.time.system_time_ms ≤ d.time.system_time_ms = ground (arith, o.0, s, g) in
      rw g (
        o.0,
        IsNotBefore-push_time e.time.system_time_ms d es l o.1,
        push_time-IsOrdered offset d es s o.2,
      )
]

-- A future time is as far ahead on both clocks.
pub time_point_from_system_time-IsSteady :
    (offset : ℕ) (now : TimePoint) (t : ℕ)
    → IsSteady offset now
    → now.system_time_ms ≤ t
    → t < 2 ^ 64
    → IsSteady offset (time_point_from_system_time now t)
unfolding time_point_from_system_time
time_point_from_system_time-IsSteady offset now t s l u = ground (arith, s, l, u)

pub push_at-IsOrdered :
    (offset : ℕ) (now : TimePoint) (t id : ℕ) (ds : List TimeData)
    → IsSteady offset now
    → now.system_time_ms ≤ t
    → t < 2 ^ 64
    → IsOrdered offset ds
    → IsOrdered offset (push_at now t id ds)
push_at-IsOrdered offset now t id ds s l u =
    push_time-IsOrdered offset _ ds (time_point_from_system_time-IsSteady offset now t s l u)

pub has_entry-push_at :
    (t' id' : ℕ) (now : TimePoint) (t id : ℕ) (ds : List TimeData)
    → has_entry t' id' (push_at now t id ds) ≡ (t == t' && id == id' || has_entry t' id' ds)
unfolding time_point_from_system_time
has_entry-push_at t' id' now t id ds = has_entry-push_time t' id' _ ds

-- No element of a timeline is before its first.
pub has_entry-IsNotBefore :
    (t id u : ℕ) (ds : List TimeData) → All (IsNotBefore u) ds → has_entry t id ds ≡ true → u ≤ t
has_entry-IsNotBefore t id u [] a h = absurd (cc)
has_entry-IsNotBefore t id u (d ∷ ds) a h =
    ground (arith, a.0, h, has_entry-IsNotBefore t id u ds a.1)
