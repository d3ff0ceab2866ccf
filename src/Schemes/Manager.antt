-- ===== src/Schemes/Manager.antt =====
-- The state of `CollectionSchemeManager` of src/CollectionSchemeManager.cpp, and its operations
-- around the schedule: the callbacks that hand over documents, their processing, and what a round
-- of the main loop tells the other components. `build` of a document parses protobuf, so a document
-- comes with its outcome. The calls of other components are recorded, the last one first.
use aws_iot_fleetwise_edge.Prelude.{
  ℕ, Bool, true, false, not, ◌||◌, List, [], ◌∷◌, Option, none, some, if◌then◌else◌, ◌==◌,
}
use aws_iot_fleetwise_edge.Schemes.Types.{TimePoint, CollectionScheme, Schedule}
use aws_iot_fleetwise_edge.Schemes.Schedule.{rebuild_maps_and_time_line, update_maps_and_time_line}

-- `ICollectionSchemeList`
pub record CollectionSchemeList : Type 0 where
  pub builds : Bool
  pub collection_schemes : List CollectionScheme

-- `IDecoderManifest`
pub record DecoderManifest : Type 0 where
  pub builds : Bool
  pub id : ℕ

-- `StateTemplateInformation`; `content` stands for what is only handed on.
pub record StateTemplate : Type 0 where
  pub id : ℕ
  pub content : ℕ

-- `StateTemplatesDiff`
pub record StateTemplatesDiff : Type 0 where
  pub version : ℕ
  pub to_add : List StateTemplate
  pub to_remove : List ℕ

-- `LastKnownStateIngestion`
pub record LastKnownStateIngestion : Type 0 where
  pub builds : Bool
  pub diff : Option StateTemplatesDiff

-- The calls of other components: the persistency, the listeners, the checkin sender.
pub data Call : Type 0 where
  store_collection_scheme_list : Call
  store_decoder_manifest : Call
  store_state_template_list : Call
  custom_signal_decoder_format_map_change : ℕ → Call
  checkin_documents_changed : List ℕ → Call
  collection_scheme_list_change : List CollectionScheme → Call

-- `CollectionSchemeManager`
pub record CollectionSchemeManager : Type 0 where
  pub schedule : Schedule
  pub current_decoder_manifest_id : ℕ
  pub collection_scheme_list : Option CollectionSchemeList
  pub decoder_manifest : Option DecoderManifest
  pub collection_scheme_available : Bool
  pub collection_scheme_list_input : Option CollectionSchemeList
  pub decoder_manifest_available : Bool
  pub decoder_manifest_input : Option DecoderManifest
  pub state_templates_available : Bool
  pub process_state_templates : Bool
  pub last_known_state_ingestion_input : Option LastKnownStateIngestion
  pub last_known_state_ingestion : Option LastKnownStateIngestion
  pub state_templates : List (ℕ × StateTemplate)
  pub last_state_templates_diff_version : ℕ
  pub process_collection_scheme : Bool
  pub process_decoder_manifest : Bool
  pub calls : List Call

-- `onCollectionSchemeUpdate`
abbrev pub on_collection_scheme_update :
    Option CollectionSchemeList → CollectionSchemeManager → CollectionSchemeManager
on_collection_scheme_update input m = record m {
  collection_scheme_list_input = input;
  collection_scheme_available = true;
}

-- `onDecoderManifestUpdate`
abbrev pub on_decoder_manifest_update :
    Option DecoderManifest → CollectionSchemeManager → CollectionSchemeManager
on_decoder_manifest_update input m = record m {
  decoder_manifest_input = input;
  decoder_manifest_available = true;
}

-- `onStateTemplatesChanged`
abbrev pub on_state_templates_changed :
    Option LastKnownStateIngestion → CollectionSchemeManager → CollectionSchemeManager
on_state_templates_changed input m = record m {
  last_known_state_ingestion_input = input;
  state_templates_available = true;
}

-- The new value of a document: the input, if one is available and not null.
abbrev pub taken {ℓ} : {A : Type ℓ} → Bool → Option A → Option A → Option A
taken true (some a) before = some a
taken available input before = before

abbrev pub is_taken {ℓ} : {A : Type ℓ} → Bool → Option A → Bool
is_taken true (some a) = true
is_taken available input = false

-- `updateAvailable`
unfoldable pub update_available : CollectionSchemeManager → CollectionSchemeManager
update_available m = record m {
  collection_scheme_list =
      taken m.collection_scheme_available m.collection_scheme_list_input m.collection_scheme_list;
  process_collection_scheme =
      is_taken m.collection_scheme_available m.collection_scheme_list_input
      || m.process_collection_scheme;
  collection_scheme_available = false;
  decoder_manifest = taken m.decoder_manifest_available m.decoder_manifest_input m.decoder_manifest;
  process_decoder_manifest =
      is_taken m.decoder_manifest_available m.decoder_manifest_input || m.process_decoder_manifest;
  decoder_manifest_available = false;
  last_known_state_ingestion =
      taken m.state_templates_available m.last_known_state_ingestion_input
        m.last_known_state_ingestion;
  process_state_templates =
      is_taken m.state_templates_available m.last_known_state_ingestion_input
      || m.process_state_templates;
  state_templates_available = false;
}

-- A call of another component.
abbrev pub tell : Call → CollectionSchemeManager → CollectionSchemeManager
tell c m = record m { calls = c ∷ m.calls }

-- `processDecoderManifest`
unfoldable pub process_decoder_manifest : CollectionSchemeManager → Bool × CollectionSchemeManager
process_decoder_manifest m = elim m.decoder_manifest [
  | none ↦ (false, m)
  | some d ↦
      if not d.builds
      then (false, m)
      else if d.id == m.current_decoder_manifest_id
      then (false, m)
      else (
        true,
        tell (custom_signal_decoder_format_map_change d.id)
            (tell store_decoder_manifest (record m { current_decoder_manifest_id = d.id })),
      )
]

-- `isCollectionSchemeLoaded`
abbrev is_empty {ℓ} : {A : Type ℓ} → List A → Bool
is_empty [] = true
is_empty (a ∷ rest) = false

abbrev pub is_collection_scheme_loaded : Schedule → Bool
is_collection_scheme_loaded s = not (is_empty s.enabled) || not (is_empty s.idle)

-- The schedule after a list: an update of the maps, or a rebuild of empty ones.
unfoldable pub reschedule : TimePoint → List CollectionScheme → Schedule → Bool × Schedule
reschedule now ss s =
    if is_collection_scheme_loaded s
    then update_maps_and_time_line now ss s
    else rebuild_maps_and_time_line now ss s

-- `processCollectionScheme`
unfoldable pub process_collection_scheme :
    TimePoint → CollectionSchemeManager → Bool × CollectionSchemeManager
process_collection_scheme now m = elim m.collection_scheme_list [
  | none ↦ (false, m)
  | some l ↦
      let stored = tell store_collection_scheme_list m in
      let r = reschedule now l.collection_schemes m.schedule in
      if not l.builds then (false, m) else (r.0, record stored { schedule = r.1 })
]
