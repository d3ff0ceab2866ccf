-- ===== src/Schemes/Update.antt =====
-- `updateMapsandTimeLine` of src/CollectionSchemeManager.cpp, for one identifier at a time.
use aws_iot_fleetwise_edge.Prelude.{
  ℕ, ◌≡◌, refl, ◌&&◌, List, [], ◌∷◌, Option, none, some, if◌then◌else◌, ltb, leb, ◌==◌, arith,
  lookup, lookup-put, lookup-remove, put, Option-cases, Bool-cases, inl, inr,
}
use aws_iot_fleetwise_edge.Schemes.Types.{TimePoint, CollectionScheme, is_equal, Schedule}
use aws_iot_fleetwise_edge.Schemes.Schedule.{
  update_enabled, update_idle, add_new, update_one, update_all, find_listed, is_listed, keep_listed,
  update_maps_and_time_line,
}

-- The enabled scheme of an identifier after an update, from the scheme in the list and the one that
-- was enabled.
abbrev pub enabled_after :
    TimePoint → Option CollectionScheme → Option CollectionScheme → Option CollectionScheme
enabled_after now none current = none
enabled_after now (some s) (some current) =
    if leb s.expiry_time now.system_time_ms
    then none
    else if is_equal s current && s.expiry_time == current.expiry_time
    then some current
    else some s
enabled_after now (some s) none =
    if leb s.start_time now.system_time_ms && ltb now.system_time_ms s.expiry_time
    then some s
    else none

-- A scheme that has no time left to run and is not enabled: known before or not.
abbrev expired_after : CollectionScheme → Option CollectionScheme → Option CollectionScheme
expired_after s none = none
expired_after s (some current) = some s

-- The idle scheme of an identifier after an update, from the scheme in the list, the one that was
-- enabled and the one that was idle.
abbrev pub idle_after :
    TimePoint
    → Option CollectionScheme
    → Option CollectionScheme
    → Option CollectionScheme
    → Option CollectionScheme
idle_after now none current waiting = none
idle_after now (some s) (some current) waiting = waiting
idle_after now (some s) none waiting =
    if ltb now.system_time_ms s.start_time
    then some s
    else if ltb now.system_time_ms s.expiry_time
    then none
    else expired_after s waiting

module _ (now : TimePoint) (k : ℕ) (s : CollectionScheme) (m : Schedule) where
  pub update_one-enabled : lookup k (update_one now s m).1.enabled ≡ (
      if s.collection_scheme_id == k
      then enabled_after now (some s) (lookup k m.enabled)
      else lookup k m.enabled)
  unfolding update_one update_enabled update_idle add_new
  update_one-enabled = elim (Option-cases (lookup s.collection_scheme_id m.enabled)) [
    | inr (c, e) ↦
        rw (e, update_one)
          (ground (
            arith,
            e,
            lookup-put s.collection_scheme_id k s m.enabled,
            lookup-put s.collection_scheme_id k s (put s.collection_scheme_id s m.enabled),
            lookup-remove s.collection_scheme_id k m.enabled,
          ))
    | inl e ↦ elim (Option-cases (lookup s.collection_scheme_id m.idle)) [
      | inr (c, f) ↦
          rw (e, f, update_one) (ground (arith, e, lookup-put s.collection_scheme_id k s m.enabled))
      | inl f ↦
          rw (e, f, update_one) (ground (arith, e, lookup-put s.collection_scheme_id k s m.enabled))
    ]
  ]

  update_one-idle : lookup k (update_one now s m).1.idle ≡ (
      if s.collection_scheme_id == k
      then idle_after now (some s) (lookup k m.enabled) (lookup k m.idle)
      else lookup k m.idle)
  unfolding update_one update_enabled update_idle add_new
  update_one-idle = elim (Option-cases (lookup s.collection_scheme_id m.enabled)) [
    | inr (c, e) ↦ rw (e, update_one) (ground (arith, e))
    | inl e ↦ elim (Option-cases (lookup s.collection_scheme_id m.idle)) [
      | inr (c, f) ↦
          rw (e, f, update_one)
            (ground (
              arith,
              e,
              f,
              lookup-put s.collection_scheme_id k s m.idle,
              lookup-remove s.collection_scheme_id k m.idle,
            ))
      | inl f ↦
          rw (e, f, update_one) (ground (arith, e, f, lookup-put s.collection_scheme_id k s m.idle))
    ]
  ]

-- No identifier occurs twice in the list.
abbrev pub IsDistinct : List CollectionScheme → Type 0
IsDistinct [] = Unit
IsDistinct (s ∷ ss) = (find_listed s.collection_scheme_id ss ≡ none) × IsDistinct ss

-- An identifier that the list does not have keeps its schemes in the loop.
abbrev listed_or :
    Option CollectionScheme
    → Option CollectionScheme
    → Option CollectionScheme
    → Option CollectionScheme
listed_or none before after = before
listed_or (some s) before after = after

pub update_all-enabled :
    (now : TimePoint) (k : ℕ) (ss : List CollectionScheme) (m : Schedule)
    → IsDistinct ss
    → lookup k (update_all now ss m).1.enabled
      ≡ listed_or
          (find_listed k ss)
          (lookup k m.enabled)
          (enabled_after now (find_listed k ss) (lookup k m.enabled))
unfolding update_all
update_all-enabled now k [] m d = refl
update_all-enabled now k (s ∷ ss) m d =
    let one = update_one-enabled now k s m in
    let rest = update_all-enabled now k ss (update_one now s m).1 d.1 in
    elim (Bool-cases (s.collection_scheme_id == k)) [
      | inl e ↦
          let f : find_listed k ss ≡ none = ground (arith, d.0, e) in rw (rest, f, one, e) refl
      | inr e ↦ rw (rest, one, e) refl
    ]

update_all-idle :
    (now : TimePoint) (k : ℕ) (ss : List CollectionScheme) (m : Schedule)
    → IsDistinct ss
    → lookup k (update_all now ss m).1.idle
      ≡ listed_or
          (find_listed k ss)
          (lookup k m.idle)
          (idle_after now (find_listed k ss) (lookup k m.enabled) (lookup k m.idle))
unfolding update_all
update_all-idle now k [] m d = refl
update_all-idle now k (s ∷ ss) m d =
    let one = update_one-idle now k s m in
    let enabled = update_one-enabled now k s m in
    let rest = update_all-idle now k ss (update_one now s m).1 d.1 in
    elim (Bool-cases (s.collection_scheme_id == k)) [
      | inl e ↦
          let f : find_listed k ss ≡ none = ground (arith, d.0, e) in rw (rest, f, one, e) refl
      | inr e ↦ rw (rest, one, enabled, e) refl
    ]

pub lookup-keep_listed :
    (k : ℕ) (ss : List CollectionScheme) (m : List (ℕ × CollectionScheme))
    → lookup k (keep_listed ss m).1 ≡ (if is_listed k ss then lookup k m else none)
unfolding keep_listed
lookup-keep_listed k ss [] = ground arith
lookup-keep_listed k ss ((j, s) ∷ m) = ground (arith, lookup-keep_listed k ss m)

-- For a list without repeated identifiers, an update leaves each identifier as the rules say: they
-- read only the scheme of the list with this identifier and what was enabled and idle under it. An
-- identifier that is not in the list is in neither map.
pub update_maps_and_time_line-each :
    (now : TimePoint) (ss : List CollectionScheme) (m : Schedule) (k : ℕ)
    → IsDistinct ss
    → let m' = (update_maps_and_time_line now ss m).1 in
      (lookup k m'.enabled ≡ enabled_after now (find_listed k ss) (lookup k m.enabled))
      × (lookup k m'.idle
          ≡ idle_after now (find_listed k ss) (lookup k m.enabled) (lookup k m.idle))
unfolding update_maps_and_time_line
update_maps_and_time_line-each now ss m k d =
    let updated = update_all now ss m in
    elim (Option-cases (find_listed k ss)) [
      | inl f ↦ (
        rw (lookup-keep_listed k ss updated.1.enabled, is_listed, f) refl,
        rw (lookup-keep_listed k ss updated.1.idle, is_listed, f) refl,
      )
      | inr (s, f) ↦ (
        rw
            (
              lookup-keep_listed k ss updated.1.enabled,
              is_listed,
              update_all-enabled now k ss m d,
              f,
            )
            refl,
        rw (lookup-keep_listed k ss updated.1.idle, is_listed, update_all-idle now k ss m d, f)
            refl,
      )
    ]
