-- ===== src/Schemes/MainLoop/Current.antt =====
-- The schedule after a round of the main loop of src/CollectionSchemeManager.cpp.
use aws_iot_fleetwise_edge.Prelude.{
  ℕ, ◌≡◌, Bool, false, List, [], ◌∷◌, Option, none, some, arith, All, lookup, lookup-put,
  Bool-cases, Option-cases, inl, inr, subst,
}
use aws_iot_fleetwise_edge.Schemes.Types.{TimePoint, CollectionScheme, Schedule}
use aws_iot_fleetwise_edge.Schemes.Schedule.{rebuild_one, rebuild_maps_and_time_line, find_listed}
use aws_iot_fleetwise_edge.Schemes.Update.{IsDistinct}
use aws_iot_fleetwise_edge.Schemes.TimeLine.{IsSteady}
use aws_iot_fleetwise_edge.Schemes.Keep.{Fits, IsLive, enable-Fits, make_idle-Fits}
use aws_iot_fleetwise_edge.Schemes.Updated.{update_maps_and_time_line-Fits}
use aws_iot_fleetwise_edge.Schemes.Expiry.{IsCurrent, check_time_line-IsCurrent}
use aws_iot_fleetwise_edge.Schemes.Manager.{
  CollectionSchemeManager, CollectionSchemeList, is_collection_scheme_loaded, reschedule,
  process_decoder_manifest, process_collection_scheme,
}
use aws_iot_fleetwise_edge.Schemes.Templates.{process_state_templates, process_diff}
use aws_iot_fleetwise_edge.Schemes.MainLoop.{
  wake_decoder_manifest, wake_collection_scheme, wake_state_templates, process_all, main_loop_round,
}

-- A scheme that is in neither map.
abbrev IsNew : Schedule → CollectionScheme → Type 0
IsNew m s =
    (lookup s.collection_scheme_id m.idle ≡ none) × (lookup s.collection_scheme_id m.enabled ≡ none)

IsNew-rebuild_one :
    (now : TimePoint) (s : CollectionScheme) (ss : List CollectionScheme) (m : Schedule)
    → find_listed s.collection_scheme_id ss ≡ none
    → All (IsNew m) ss
    → All (IsNew (rebuild_one now s m).1) ss
unfolding rebuild_one
IsNew-rebuild_one now s [] m f h = tt
IsNew-rebuild_one now s (t ∷ ts) m f h = (
  ground (
    arith,
    f,
    h.0,
    lookup-put s.collection_scheme_id t.collection_scheme_id s m.idle,
    lookup-put s.collection_scheme_id t.collection_scheme_id s m.enabled,
  ),
  IsNew-rebuild_one now s ts m (ground (arith, f)) h.1,
)

rebuild-Fits :
    (offset : ℕ) (now : TimePoint) (ss : List CollectionScheme) (m : Schedule)
    → IsSteady offset now
    → All (IsLive now.system_time_ms) ss
    → IsDistinct ss
    → All (IsNew m) ss
    → Fits offset m
    → Fits offset (rebuild_maps_and_time_line now ss m).1
unfolding rebuild_maps_and_time_line rebuild_one
rebuild-Fits offset now [] m steady live d n h = h
rebuild-Fits offset now (s ∷ ss) m steady live d n h =
    let one : Fits offset (rebuild_one now s m).1 = ground (
      arith,
      h,
      n.0,
      enable-Fits offset now steady s live.0 m h,
      make_idle-Fits offset now steady s live.0 m h,
    ) in
    rebuild-Fits offset now ss (rebuild_one now s m).1 steady live.1 d.1
      (IsNew-rebuild_one now s ss m d.0 n.1) one

empty-IsNew :
    (ss : List CollectionScheme) (m : Schedule)
    → is_collection_scheme_loaded m ≡ false
    → All (IsNew m) ss
empty-IsNew [] m h = tt
empty-IsNew (s ∷ ss) m h = (ground (arith, h), empty-IsNew ss m h)

-- A list that a round may process: no identifier occurs twice, and no scheme has expired.
abbrev pub IsProper : ℕ → List CollectionScheme → Type 0
IsProper now ss = IsDistinct ss × All (IsLive now) ss

reschedule-Fits :
    (offset : ℕ) (now : TimePoint) (ss : List CollectionScheme) (m : Schedule)
    → IsSteady offset now
    → IsProper now.system_time_ms ss
    → Fits offset m
    → Fits offset (reschedule now ss m).1
unfolding reschedule
reschedule-Fits offset now ss m steady p h = elim (Bool-cases (is_collection_scheme_loaded m)) [
  | inl e ↦ rw e (update_maps_and_time_line-Fits offset now ss m steady p.1 h)
  | inr e ↦ rw e (rebuild-Fits offset now ss m steady p.1 p.0 (empty-IsNew ss m e) h)
]

abbrev pub HasProper : ℕ → Option CollectionSchemeList → Type 0
HasProper now none = Unit
HasProper now (some l) = IsProper now l.collection_schemes

-- What the processing of the other documents leaves alone.
record SameSchemes (m m' : CollectionSchemeManager) : Type 0 where
  same_schedule : m'.schedule ≡ m.schedule
  same_list : m'.collection_scheme_list ≡ m.collection_scheme_list

wake_decoder_manifest-SameSchemes :
    (m : CollectionSchemeManager) → SameSchemes m (wake_decoder_manifest m).1
unfolding wake_decoder_manifest process_decoder_manifest
wake_decoder_manifest-SameSchemes m = ground arith

process_diff-SameSchemes :
    (m : CollectionSchemeManager) → SameSchemes m (process_state_templates m).1
unfolding process_state_templates process_diff
process_diff-SameSchemes m = ground arith

wake_state_templates-SameSchemes :
    (m : CollectionSchemeManager) → SameSchemes m (wake_state_templates m).1
unfolding wake_state_templates
wake_state_templates-SameSchemes m =
    let h = process_diff-SameSchemes (record m { process_state_templates = false }) in
    ground (arith, h.same_schedule, h.same_list)

process_collection_scheme-Fits :
    (offset : ℕ) (now : TimePoint) (m : CollectionSchemeManager)
    → IsSteady offset now
    → HasProper now.system_time_ms m.collection_scheme_list
    → Fits offset m.schedule
    → Fits offset (process_collection_scheme now m).1.schedule
unfolding process_collection_scheme
process_collection_scheme-Fits offset now m steady p h =
    elim (Option-cases m.collection_scheme_list) [
      | inl e ↦ rw (e, process_collection_scheme) h
      | inr (l, e) ↦
          let q : IsProper now.system_time_ms l.collection_schemes =
            subst (HasProper now.system_time_ms) e p in
          rw (e, process_collection_scheme)
            (ground
              (arith, h, reschedule-Fits offset now l.collection_schemes m.schedule steady q h))
    ]

wake_collection_scheme-Fits :
    (offset : ℕ) (now : TimePoint) (m : CollectionSchemeManager)
    → IsSteady offset now
    → HasProper now.system_time_ms m.collection_scheme_list
    → Fits offset m.schedule
    → Fits offset (wake_collection_scheme now m).1.schedule
unfolding wake_collection_scheme
wake_collection_scheme-Fits offset now m steady p h =
    elim (Bool-cases m.process_collection_scheme) [
      | inl e ↦ rw e (
          process_collection_scheme-Fits offset now (record m { process_collection_scheme = false })
            steady p h)
      | inr e ↦ rw e h
    ]

process_all-IsCurrent :
    (offset : ℕ) (now check_time : TimePoint) (m : CollectionSchemeManager)
    → IsSteady offset now
    → HasProper now.system_time_ms m.collection_scheme_list
    → Fits offset m.schedule
    → IsCurrent offset check_time.system_time_ms (process_all now check_time m).1.schedule
unfolding process_all
process_all-IsCurrent offset now check_time m steady p h =
    let d = wake_decoder_manifest-SameSchemes m in
    let m1 = (wake_decoder_manifest m).1 in
    let f =
      wake_collection_scheme-Fits offset now m1 steady (rw d.same_list p) (rw d.same_schedule h) in
    let m2 = (wake_collection_scheme now m1).1 in
    check_time_line-IsCurrent offset check_time (wake_state_templates m2).1.schedule
      (rw (wake_state_templates-SameSchemes m2).same_schedule f)

-- A round of the main loop, whichever documents wait and whether they build, leaves a well-formed
-- schedule in which every enabled scheme stops after the time of the check and every idle one
-- starts after it. Conditions: the schedule before is well formed, the clocks are `offset` apart at
-- the time of the processing, and the list, if there is one, has no identifier twice and only
-- schemes that start before they stop, stop after that time and have times below 2 ^ 64. A schedule
-- is well formed where the elements of the timeline are in the order of system time and have both
-- clocks `offset` apart, no identifier is both idle and enabled, every enabled scheme has its stop
-- time in the timeline, and every idle one has both of its times there and starts before it stops.
pub main_loop_round-IsCurrent :
    (offset : ℕ) (now check_time : TimePoint) (initial : Bool) (m : CollectionSchemeManager)
    → IsSteady offset now
    → HasProper now.system_time_ms m.collection_scheme_list
    → Fits offset m.schedule
    → IsCurrent offset check_time.system_time_ms (main_loop_round now check_time initial m).schedule
unfolding main_loop_round
main_loop_round-IsCurrent offset now check_time initial m steady p h =
    ground (arith, process_all-IsCurrent offset now check_time m steady p h)
