-- ===== src/Schemes/MainLoop.antt =====
-- A round of `CollectionSchemeManager::doWork` in src/CollectionSchemeManager.cpp: the documents
-- that wait are processed, the timeline is checked, and the checkin sender and the listeners hear
-- of it. The extraction of the matrices and dictionaries, and the wait for the next time, are left
-- out.
pub mod Sync
pub mod Current
use aws_iot_fleetwise_edge.Prelude.{
  ℕ, Bool, true, false, not, ◌&&◌, ◌||◌, List, [], ◌∷◌, ◌++◌, Option, none, some, if◌then◌else◌,
  ◌==◌, keys,
}
use aws_iot_fleetwise_edge.Schemes.Types.{TimePoint, CollectionScheme, Schedule}
use aws_iot_fleetwise_edge.Schemes.Schedule.{check_time_line}
use aws_iot_fleetwise_edge.Schemes.Manager.{
  CollectionSchemeManager, CollectionSchemeList, StateTemplate, tell, checkin_documents_changed,
  collection_scheme_list_change, process_decoder_manifest, process_collection_scheme,
}
use aws_iot_fleetwise_edge.Schemes.Templates.{process_state_templates}

abbrev template_ids : List (ℕ × StateTemplate) → List ℕ
template_ids [] = []
template_ids ((k, t) ∷ ts) = t.id ∷ template_ids ts

-- An identifier that is not the empty string.
abbrev given : ℕ → List ℕ
given id = if id == 0 then [] else id ∷ []

abbrev pub checkin_documents : CollectionSchemeManager → List ℕ
checkin_documents m =
    keys m.schedule.enabled
    ++ keys m.schedule.idle
    ++ given m.current_decoder_manifest_id
    ++ template_ids m.state_templates

-- `updateCheckinDocuments`
abbrev pub update_checkin_documents : CollectionSchemeManager → CollectionSchemeManager
update_checkin_documents m = tell (checkin_documents_changed (checkin_documents m)) m

-- Each loop of `isCollectionSchemesInSyncWithDm`
unfoldable pub all_in_sync : ℕ → List (ℕ × CollectionScheme) → Bool
all_in_sync id [] = true
all_in_sync id ((k, s) ∷ m) =
    let rest = all_in_sync id m in if not (s.decoder_manifest_id == id) then false else rest

-- `isCollectionSchemesInSyncWithDm`
abbrev pub is_collection_schemes_in_sync_with_dm : CollectionSchemeManager → Bool
is_collection_schemes_in_sync_with_dm m =
    all_in_sync m.current_decoder_manifest_id m.schedule.enabled
    && all_in_sync m.current_decoder_manifest_id m.schedule.idle

abbrev pub schemes_of : List (ℕ × CollectionScheme) → List CollectionScheme
schemes_of [] = []
schemes_of ((k, s) ∷ m) = s ∷ schemes_of m

unfoldable pub active_collection_schemes : CollectionSchemeManager → List CollectionScheme
active_collection_schemes m =
    if is_collection_schemes_in_sync_with_dm m then schemes_of m.schedule.enabled else []

-- `updateActiveCollectionSchemeListeners`
abbrev pub update_active_collection_scheme_listeners :
    CollectionSchemeManager → CollectionSchemeManager
update_active_collection_scheme_listeners m =
    tell (collection_scheme_list_change (active_collection_schemes m)) m

abbrev ids_of : List CollectionScheme → List ℕ
ids_of [] = []
ids_of (s ∷ ss) = s.collection_scheme_id ∷ ids_of ss

-- `getCollectionSchemeArns`
abbrev pub get_collection_scheme_arns : CollectionSchemeManager → List ℕ
get_collection_scheme_arns m = elim m.collection_scheme_list [
  | none ↦ []
  | some l ↦ ids_of l.collection_schemes
]

-- What a round found changed.
pub record Changes : Type 0 where
  pub decoder_manifest_changed : Bool
  pub enabled_collection_scheme_map_changed : Bool
  pub state_templates_changed : Bool

-- A document is processed if its flag is set, and the flag is reset before.
unfoldable pub wake_decoder_manifest : CollectionSchemeManager → Bool × CollectionSchemeManager
wake_decoder_manifest m =
    let r = process_decoder_manifest (record m { process_decoder_manifest = false }) in
    if m.process_decoder_manifest then r else (false, m)

unfoldable pub wake_collection_scheme :
    TimePoint → CollectionSchemeManager → Bool × CollectionSchemeManager
wake_collection_scheme now m =
    let r = process_collection_scheme now (record m { process_collection_scheme = false }) in
    if m.process_collection_scheme then r else (false, m)

unfoldable pub wake_state_templates : CollectionSchemeManager → Bool × CollectionSchemeManager
wake_state_templates m =
    let r = process_state_templates (record m { process_state_templates = false }) in
    if m.process_state_templates then r else (false, m)

-- The processing and the check of the timeline, at two times that the clock gives one after the
-- other.
unfoldable pub process_all :
    TimePoint → TimePoint → CollectionSchemeManager → Changes × CollectionSchemeManager
process_all now check_time m =
    let d = wake_decoder_manifest m in
    let c = wake_collection_scheme now d.1 in
    let t = wake_state_templates c.1 in
    let line = check_time_line check_time t.1.schedule in
    (
      record {
        decoder_manifest_changed = d.0;
        enabled_collection_scheme_map_changed = c.0 || line.0;
        state_templates_changed = t.0;
      },
      record t.1 { schedule = line.1 },
    )

-- A round up to the extraction; `initial` is `initialCheckinDocumentsUpdate`.
unfoldable pub main_loop_round :
    TimePoint → TimePoint → Bool → CollectionSchemeManager → CollectionSchemeManager
main_loop_round now check_time initial m =
    let r = process_all now check_time m in
    let active_changed =
      r.0.decoder_manifest_changed || r.0.enabled_collection_scheme_map_changed in
    let documents_changed = active_changed || r.0.state_templates_changed in
    let told = if documents_changed || initial then update_checkin_documents r.1 else r.1 in
    if active_changed then update_active_collection_scheme_listeners told else told
