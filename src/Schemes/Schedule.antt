-- ===== src/Schemes/Schedule.antt =====
-- `CollectionSchemeManager` of src/CollectionSchemeManager.cpp: `rebuildMapsandTimeLine`,
-- `updateMapsandTimeLine` and `checkTimeLine`. Each returns whether the enabled schemes changed,
-- and the maps with the timeline. The loop of `checkTimeLine` pops an element in every round that
-- goes on, so it recurs on the timeline.
use aws_iot_fleetwise_edge.Prelude.{
  ℕ, Bool, true, false, not, ◌&&◌, ◌||◌, List, [], ◌∷◌, Option, none, some, if◌then◌else◌, ltb, leb,
  ◌==◌, lookup, put, remove,
}
use aws_iot_fleetwise_edge.Schemes.Types.{
  TimePoint, time_point_from_system_time, CollectionScheme, is_equal, TimeData, push_time, Schedule,
}

-- `mTimeLine.push( { timePointFromSystemTime( currTime, time ), id } )`
abbrev pub push_at : TimePoint → ℕ → ℕ → List TimeData → List TimeData
push_at now t id line =
    push_time (record { time = time_point_from_system_time now t; id = id }) line

-- The scheme goes to the enabled map, and its stop time to the timeline.
abbrev pub enable : TimePoint → CollectionScheme → Schedule → Schedule
enable now s m = record m {
  enabled = put s.collection_scheme_id s m.enabled;
  time_line = push_at now s.expiry_time s.collection_scheme_id m.time_line;
}

-- The scheme goes to the idle map, and both of its times to the timeline.
abbrev pub make_idle : TimePoint → CollectionScheme → Schedule → Schedule
make_idle now s m = record m {
  idle = put s.collection_scheme_id s m.idle;
  time_line =
      push_at now s.expiry_time s.collection_scheme_id
        (push_at now s.start_time s.collection_scheme_id m.time_line);
}

-- One round of the loop of `rebuildMapsandTimeLine`.
unfoldable pub rebuild_one : TimePoint → CollectionScheme → Schedule → Bool × Schedule
rebuild_one now s m =
    if ltb now.system_time_ms s.start_time
    then (false, make_idle now s m)
    else if ltb now.system_time_ms s.expiry_time
    then (true, enable now s m)
    else (false, m)

-- `rebuildMapsandTimeLine`, of the schemes in the list.
unfoldable pub rebuild_maps_and_time_line :
    TimePoint → List CollectionScheme → Schedule → Bool × Schedule
rebuild_maps_and_time_line now [] m = (false, m)
rebuild_maps_and_time_line now (s ∷ ss) m =
    let one = rebuild_one now s m in
    let rest = rebuild_maps_and_time_line now ss one.1 in (one.0 || rest.0, rest.1)

-- A scheme that is found in the enabled map.
unfoldable pub update_enabled :
    TimePoint → CollectionScheme → CollectionScheme → Schedule → Bool × Schedule
update_enabled now s current m =
    let id = s.collection_scheme_id in
    let moved = if not (s.expiry_time == current.expiry_time) then enable now s m else m in
    if leb s.expiry_time now.system_time_ms
    then (true, record m { enabled = remove id m.enabled })
    else if not (is_equal s current)
    then (true, record moved { enabled = put id s moved.enabled })
    else (false, moved)

-- A scheme that is found in the idle map.
unfoldable pub update_idle :
    TimePoint → CollectionScheme → CollectionScheme → Schedule → Bool × Schedule
update_idle now s current m =
    let id = s.collection_scheme_id in
    if leb s.start_time now.system_time_ms && ltb now.system_time_ms s.expiry_time
    then (true, enable now s (record m { idle = remove id m.idle }))
    else if ltb now.system_time_ms s.start_time
        && (not (s.start_time == current.start_time) || not (s.expiry_time == current.expiry_time))
    then (false, make_idle now s m)
    else (false, record m { idle = put id s m.idle })

-- A scheme that is found in neither map.
unfoldable pub add_new : TimePoint → CollectionScheme → Schedule → Bool × Schedule
add_new now s m =
    if leb s.start_time now.system_time_ms && ltb now.system_time_ms s.expiry_time
    then (true, enable now s m)
    else if ltb now.system_time_ms s.start_time
    then (false, make_idle now s m)
    else (false, m)

-- One round of the loop of `updateMapsandTimeLine`.
unfoldable pub update_one : TimePoint → CollectionScheme → Schedule → Bool × Schedule
update_one now s m = elim (lookup s.collection_scheme_id m.enabled) [
  | some current ↦ update_enabled now s current m
  | none ↦ elim (lookup s.collection_scheme_id m.idle) [
    | some current ↦ update_idle now s current m
    | none ↦ add_new now s m
  ]
]

unfoldable pub update_all : TimePoint → List CollectionScheme → Schedule → Bool × Schedule
update_all now [] m = (false, m)
update_all now (s ∷ ss) m =
    let one = update_one now s m in let rest = update_all now ss one.1 in (one.0 || rest.0, rest.1)

-- The scheme of the list with an identifier; the set of new identifiers has it if there is one.
abbrev pub find_listed : ℕ → List CollectionScheme → Option CollectionScheme
find_listed k [] = none
find_listed k (s ∷ ss) = if s.collection_scheme_id == k then some s else find_listed k ss

abbrev pub is_listed : ℕ → List CollectionScheme → Bool
is_listed k ss = elim (find_listed k ss) [ none ↦ false | some _ ↦ true ]

-- Erasing the schemes that the list does not have: whether there was one, and the map.
unfoldable pub keep_listed :
    List CollectionScheme → List (ℕ × CollectionScheme) → Bool × List (ℕ × CollectionScheme)
keep_listed ss [] = (false, [])
keep_listed ss ((k, s) ∷ m) =
    let rest = keep_listed ss m in
    if is_listed k ss then (rest.0, (k, s) ∷ rest.1) else (true, rest.1)

-- `updateMapsandTimeLine`, of the schemes in the list.
unfoldable pub update_maps_and_time_line :
    TimePoint → List CollectionScheme → Schedule → Bool × Schedule
update_maps_and_time_line now ss m =
    let updated = update_all now ss m in
    let kept = keep_listed ss updated.1.enabled in
    (
      updated.0 || kept.0,
      record updated.1 { idle = (keep_listed ss updated.1.idle).1; enabled = kept.1 },
    )

-- A round of the loop of `checkTimeLine` ends the loop, or goes on with the maps that it leaves;
-- the flag says whether it enabled or disabled a scheme.
pub data Round : Type 0 where
  ends : Round
  goes_on : Bool → List (ℕ × CollectionScheme) → List (ℕ × CollectionScheme) → Round

-- What the top of the timeline says for the maps.
unfoldable pub check_top :
    TimePoint → TimeData → List (ℕ × CollectionScheme) → List (ℕ × CollectionScheme) → Round
check_top now top idle enabled = elim (lookup top.id enabled) [
  | some s ↦
      if not (s.expiry_time == top.time.system_time_ms)
      then goes_on false idle enabled
      else if leb top.time.system_time_ms now.system_time_ms
      then goes_on true idle (remove top.id enabled)
      else ends
  | none ↦ elim (lookup top.id idle) [
    | none ↦ goes_on false idle enabled
    | some s ↦
        if not (s.start_time == top.time.system_time_ms)
        then goes_on false idle enabled
        else if leb top.time.system_time_ms now.system_time_ms
        then goes_on true (remove top.id idle) (put top.id s enabled)
        else ends
  ]
]

-- `while ( !mTimeLine.empty() )`
unfoldable pub run_time_line :
    TimePoint
    → List TimeData
    → List (ℕ × CollectionScheme)
    → List (ℕ × CollectionScheme)
    → Bool × Schedule
run_time_line now [] idle enabled =
    (false, record { idle = idle; enabled = enabled; time_line = [] })
run_time_line now (top ∷ rest) idle enabled = elim (check_top now top idle enabled) [
  | ends ↦ (false, record { idle = idle; enabled = enabled; time_line = top ∷ rest })
  | goes_on changed idle' enabled' ↦
      let r = run_time_line now rest idle' enabled' in (changed || r.0, r.1)
]

-- The test before the loop: the timeline is empty, or its top is in the future.
abbrev pub has_not_expired : TimePoint → List TimeData → Bool
has_not_expired now [] = true
has_not_expired now (top ∷ rest) = ltb now.system_time_ms top.time.system_time_ms

-- `checkTimeLine`
unfoldable pub check_time_line : TimePoint → Schedule → Bool × Schedule
check_time_line now m =
    if has_not_expired now m.time_line
    then (false, m)
    else run_time_line now m.time_line m.idle m.enabled
