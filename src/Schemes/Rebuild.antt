-- ===== src/Schemes/Rebuild.antt =====
-- `rebuildMapsandTimeLine` of src/CollectionSchemeManager.cpp, for one identifier at a time.
use aws_iot_fleetwise_edge.Prelude.{
  ℕ, ◌≡◌, refl, List, [], ◌∷◌, Option, none, some, if◌then◌else◌, ltb, ◌==◌, arith, lookup,
  lookup-put, Bool-cases, inl, inr,
}
use aws_iot_fleetwise_edge.Schemes.Types.{TimePoint, CollectionScheme, Schedule}
use aws_iot_fleetwise_edge.Schemes.Schedule.{
  rebuild_one, rebuild_maps_and_time_line, update_maps_and_time_line, find_listed,
}
use aws_iot_fleetwise_edge.Schemes.Update.{
  IsDistinct, enabled_after, idle_after, update_maps_and_time_line-each,
}

-- The place of a scheme that was in neither map, or the scheme that was there.
abbrev started :
    TimePoint → Option CollectionScheme → Option CollectionScheme → Option CollectionScheme
started now none before = before
started now (some s) before =
    if ltb now.system_time_ms s.start_time
    then before
    else if ltb now.system_time_ms s.expiry_time
    then some s
    else before

abbrev waiting :
    TimePoint → Option CollectionScheme → Option CollectionScheme → Option CollectionScheme
waiting now none before = before
waiting now (some s) before = if ltb now.system_time_ms s.start_time then some s else before

module _ (now : TimePoint) (k : ℕ) (s : CollectionScheme) (m : Schedule) where
  rebuild_one-enabled : lookup k (rebuild_one now s m).1.enabled ≡ (
      if s.collection_scheme_id == k
      then started now (some s) (lookup k m.enabled)
      else lookup k m.enabled)
  unfolding rebuild_one
  rebuild_one-enabled = ground (arith, lookup-put s.collection_scheme_id k s m.enabled)

  rebuild_one-idle : lookup k (rebuild_one now s m).1.idle ≡ (
      if s.collection_scheme_id == k
      then waiting now (some s) (lookup k m.idle)
      else lookup k m.idle)
  unfolding rebuild_one
  rebuild_one-idle = ground (arith, lookup-put s.collection_scheme_id k s m.idle)

rebuild-places :
    (now : TimePoint) (k : ℕ) (ss : List CollectionScheme) (m : Schedule)
    → IsDistinct ss
    → let m' = (rebuild_maps_and_time_line now ss m).1 in
      (lookup k m'.enabled ≡ started now (find_listed k ss) (lookup k m.enabled))
      × (lookup k m'.idle ≡ waiting now (find_listed k ss) (lookup k m.idle))
unfolding rebuild_maps_and_time_line
rebuild-places now k [] m d = (refl, refl)
rebuild-places now k (s ∷ ss) m d =
    let one = rebuild_one-enabled now k s m in
    let two = rebuild_one-idle now k s m in
    let rest = rebuild-places now k ss (rebuild_one now s m).1 d.1 in
    elim (Bool-cases (s.collection_scheme_id == k)) [
      | inl e ↦
          let f : find_listed k ss ≡ none = ground (arith, d.0, e) in
          (rw (rest.0, f, one, e) refl, rw (rest.1, f, two, e) refl)
      | inr e ↦ (rw (rest.0, one, e) refl, rw (rest.1, two, e) refl)
    ]

abbrev pub empty_schedule : Schedule
empty_schedule = record { idle = []; enabled = []; time_line = [] }

started-after :
    (now : TimePoint) (o : Option CollectionScheme) → started now o none ≡ enabled_after now o none
started-after now none = refl
started-after now (some s) = ground arith

waiting-after :
    (now : TimePoint) (o : Option CollectionScheme)
    → waiting now o none ≡ idle_after now o none none
waiting-after now none = refl
waiting-after now (some s) = ground arith

-- For a list without repeated identifiers, rebuilding empty maps gives each identifier the same
-- enabled and idle scheme as updating empty maps.
pub rebuild_agrees :
    (now : TimePoint) (ss : List CollectionScheme) (k : ℕ)
    → IsDistinct ss
    → let rebuilt = (rebuild_maps_and_time_line now ss empty_schedule).1 in
      let updated = (update_maps_and_time_line now ss empty_schedule).1 in
      (lookup k rebuilt.enabled ≡ lookup k updated.enabled)
      × (lookup k rebuilt.idle ≡ lookup k updated.idle)
rebuild_agrees now ss k d =
    let r = rebuild-places now k ss empty_schedule d in
    let u = update_maps_and_time_line-each now ss empty_schedule k d in
    let o = find_listed k ss in
    (rw (r.0, u.0) (started-after now o), rw (r.1, u.1) (waiting-after now o))
