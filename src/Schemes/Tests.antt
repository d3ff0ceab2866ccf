-- ===== src/Schemes/Tests.antt =====
-- The theorems on CollectionSchemeManager at a schedule with an enabled and an idle scheme.
use aws_iot_fleetwise_edge.Prelude.{
  ℕ, ◌+◌, ◌≡◌, refl, true, false, List, [], ◌∷◌, some, none, arith, All, lookup, max, if◌then◌else◌,
  ltb, ◌||◌,
}
use aws_iot_fleetwise_edge.Schemes.Types.{TimePoint, CollectionScheme, TimeData, Schedule}
use aws_iot_fleetwise_edge.Schemes.Schedule.{
  update_one, update_all, update_enabled, keep_listed, update_maps_and_time_line,
  rebuild_maps_and_time_line, find_listed, check_time_line,
}
use aws_iot_fleetwise_edge.Schemes.Update.{
  enabled_after, idle_after, update_maps_and_time_line-each,
}
use aws_iot_fleetwise_edge.Schemes.Rebuild.{empty_schedule, rebuild_agrees}
use aws_iot_fleetwise_edge.Schemes.Changes.{is_enabled, update_maps_and_time_line-unchanged}
use aws_iot_fleetwise_edge.Schemes.Reports.{
  any_news, any_unlisted, update_maps_and_time_line-reports, new_stop_time_unreported,
}
use aws_iot_fleetwise_edge.Schemes.Keep.{Fits, IsLive}
use aws_iot_fleetwise_edge.Schemes.Updated.{update_maps_and_time_line-Fits}
use aws_iot_fleetwise_edge.Schemes.Expiry.{IsCurrent, check_time_line-IsCurrent}
use aws_iot_fleetwise_edge.Schemes.Places.{running_at, waiting_at, check_time_line-each}
use aws_iot_fleetwise_edge.Schemes.Manager.{
  CollectionSchemeManager, CollectionSchemeList, StateTemplatesDiff, update_available,
  on_collection_scheme_update,
}
use aws_iot_fleetwise_edge.Schemes.Templates.{
  apply_diff, remove_templates, add_templates, process_diff, template_after, process_diff-each,
}
use aws_iot_fleetwise_edge.Schemes.MainLoop.{main_loop_round, active_collection_schemes}
use aws_iot_fleetwise_edge.Schemes.MainLoop.Current.{main_loop_round-IsCurrent}
use aws_iot_fleetwise_edge.Schemes.MainLoop.Sync.{
  UsesManifest, active_collection_schemes-UsesManifest,
}
use aws_iot_fleetwise_edge.Schemes.Handover.{collection_scheme_handover}

abbrev scheme : ℕ → ℕ → ℕ → CollectionScheme
scheme id start stop = record {
  is_ready = true;
  collection_scheme_id = id;
  decoder_manifest_id = 9;
  start_time = start;
  expiry_time = stop;
  lookup_table = 0;
}

abbrev entry_at : ℕ → ℕ → TimeData
entry_at mono id = record {
  time = record { system_time_ms = mono + 10; monotonic_time_ms = mono };
  id = id;
}

abbrev now : TimePoint
now = record { system_time_ms = 50; monotonic_time_ms = 40 }

abbrev later : TimePoint
later = record { system_time_ms = 150; monotonic_time_ms = 140 }

abbrev schedule : Schedule
schedule = record {
  idle = (2, scheme 2 60 200) ∷ [];
  enabled = (1, scheme 1 10 100) ∷ [];
  time_line = entry_at 50 2 ∷ entry_at 90 1 ∷ entry_at 190 2 ∷ [];
}

schedule-Fits : Fits 10 schedule
schedule-Fits = record { ordered = omega arith; at_key = λ k. ground arith }

-- The stop time of the first scheme changes, and a third scheme is new.
abbrev schemes : List CollectionScheme
schemes = scheme 1 10 120 ∷ scheme 3 40 90 ∷ []

schemes-IsLive : All (IsLive 50) schemes
schemes-IsLive = omega arith

update_maps_and_time_line-each_example :
    (lookup 1 (update_maps_and_time_line now schemes schedule).1.enabled
      ≡ enabled_after now (find_listed 1 schemes) (lookup 1 schedule.enabled))
    × (lookup 1 (update_maps_and_time_line now schemes schedule).1.idle
        ≡ idle_after now
            (find_listed 1 schemes)
            (lookup 1 schedule.enabled)
            (lookup 1 schedule.idle))
update_maps_and_time_line-each_example =
    update_maps_and_time_line-each now schemes schedule 1 (refl, (refl, tt))

rebuild_agrees_example :
    (lookup 3 (rebuild_maps_and_time_line now schemes empty_schedule).1.enabled
      ≡ lookup 3 (update_maps_and_time_line now schemes empty_schedule).1.enabled)
    × (lookup 3 (rebuild_maps_and_time_line now schemes empty_schedule).1.idle
        ≡ lookup 3 (update_maps_and_time_line now schemes empty_schedule).1.idle)
rebuild_agrees_example = rebuild_agrees now schemes 3 (refl, (refl, tt))

-- A list of the enabled scheme alone, with another stop time.
abbrev same_scheme : List CollectionScheme
same_scheme = scheme 1 10 120 ∷ []

same_scheme-unreported : (update_maps_and_time_line now same_scheme schedule).0 ≡ false
unfolding update_maps_and_time_line update_all update_one update_enabled keep_listed
same_scheme-unreported = refl

update_maps_and_time_line-unchanged_example :
    is_enabled 1 (update_maps_and_time_line now same_scheme schedule).1 ≡ is_enabled 1 schedule
update_maps_and_time_line-unchanged_example =
    update_maps_and_time_line-unchanged now same_scheme schedule 1 same_scheme-unreported

new_stop_time_unreported_example :
    ((update_maps_and_time_line now same_scheme schedule).0 ≡ false)
    × (lookup 1 (update_maps_and_time_line now same_scheme schedule).1.enabled
        ≡ some (scheme 1 10 120))
new_stop_time_unreported_example =
    new_stop_time_unreported now same_scheme schedule 1 (scheme 1 10 120) (scheme 1 10 100)
      (refl, tt) refl refl refl refl (omega arith)

-- The third scheme is news, and so is the list.
update_maps_and_time_line-reports_example :
    (update_maps_and_time_line now schemes schedule).0
    ≡ (any_news now schemes schedule.enabled || any_unlisted schemes schedule.enabled)
update_maps_and_time_line-reports_example =
    update_maps_and_time_line-reports now schemes schedule (refl, (refl, tt))

update_maps_and_time_line-Fits_example : Fits 10 (update_maps_and_time_line now schemes schedule).1
update_maps_and_time_line-Fits_example =
    update_maps_and_time_line-Fits 10 now schemes schedule refl schemes-IsLive schedule-Fits

check_time_line-IsCurrent_example : IsCurrent 10 150 (check_time_line later schedule).1
check_time_line-IsCurrent_example = check_time_line-IsCurrent 10 later schedule schedule-Fits

check_time_line-each_example :
    (lookup 2 (check_time_line later schedule).1.enabled
      ≡ running_at 150 (lookup 2 schedule.idle) (lookup 2 schedule.enabled))
    × (lookup 2 (check_time_line later schedule).1.idle ≡ waiting_at 150 (lookup 2 schedule.idle))
check_time_line-each_example = check_time_line-each 10 later schedule 2 schedule-Fits

abbrev manager : CollectionSchemeManager
manager = record {
  schedule = schedule;
  current_decoder_manifest_id = 9;
  collection_scheme_list = some (record { builds = true; collection_schemes = schemes });
  decoder_manifest = none;
  collection_scheme_available = false;
  collection_scheme_list_input = none;
  decoder_manifest_available = false;
  decoder_manifest_input = none;
  state_templates_available = false;
  process_state_templates = false;
  last_known_state_ingestion_input = none;
  last_known_state_ingestion = none;
  state_templates = (4, record { id = 4; content = 0 }) ∷ [];
  last_state_templates_diff_version = 2;
  process_collection_scheme = true;
  process_decoder_manifest = false;
  calls = [];
}

main_loop_round-IsCurrent_example :
    IsCurrent 10 150 (main_loop_round now later false manager).schedule
main_loop_round-IsCurrent_example =
    main_loop_round-IsCurrent 10 now later false manager refl ((refl, (refl, tt)), schemes-IsLive)
      schedule-Fits

active_collection_schemes-UsesManifest_example :
    All (UsesManifest 9) (active_collection_schemes manager)
active_collection_schemes-UsesManifest_example = active_collection_schemes-UsesManifest manager

abbrev diff : StateTemplatesDiff
diff = record { version = 3; to_add = record { id = 5; content = 1 } ∷ []; to_remove = 4 ∷ [] }

process_diff-each_example :
    ((process_diff diff manager).1.last_state_templates_diff_version ≡ max 3 2)
    × (lookup 5 (process_diff diff manager).1.state_templates ≡ (
        if ltb 3 2
        then lookup 5 manager.state_templates
        else template_after diff 5 (lookup 5 manager.state_templates)))
process_diff-each_example = process_diff-each diff manager 5

-- A diff that removes what is not there.
abbrev idle_diff : StateTemplatesDiff
idle_diff = record { version = 3; to_add = []; to_remove = 6 ∷ [] }

idle_diff-unreported : (process_diff idle_diff manager).0 ≡ false
unfolding process_diff apply_diff remove_templates add_templates
idle_diff-unreported = refl

abbrev new_list : CollectionSchemeList
new_list = record { builds = true; collection_schemes = same_scheme }

collection_scheme_handover_example :
    let m' =
      update_available
        (on_collection_scheme_update (some new_list) (on_collection_scheme_update none manager)) in
    (m'.collection_scheme_list ≡ some new_list)
    × (m'.process_collection_scheme ≡ (true || true))
    × (m'.schedule ≡ schedule)
collection_scheme_handover_example = collection_scheme_handover none (some new_list) manager
