-- ===== src/RawData/Update.antt =====
-- `BufferManager::updateConfig` and `addRawDataToBuffer` of src/RawDataManager.cpp. The map of updated
-- signals is a list of its entries.
use aws_iot_fleetwise_edge.Prelude.{
  ℕ, Bool, true, false, not, List, [], ◌∷◌, none, some, if◌then◌else◌, ltb, ◌==◌, length, lookup,
  keys,
}
use aws_iot_fleetwise_edge.RawData.Types.{
  Buffer, SignalConfig, new_buffer, BufferErrorCode, successful, out_of_memory,
}
use aws_iot_fleetwise_edge.RawData.Config.{get_signal_config}
use aws_iot_fleetwise_edge.RawData.Run.{Run, done, ◌>>=◌}
use aws_iot_fleetwise_edge.RawData.Stats.{
  BufferManager, delete_buffer_from_stats, add_buffer_to_stats, check_memory_limit,
}
use aws_iot_fleetwise_edge.RawData.Buffer.{delete_all_unused}
use aws_iot_fleetwise_edge.RawData.Manager.{store, discard}

-- `SignalUpdateConfig`
pub record SignalUpdateConfig : Type 0 where
  pub type_id : ℕ
  pub interface_id : ℕ
  pub message_id : ℕ

-- `BufferManager::addRawDataToBuffer`
unfoldable pub add_raw_data_to_buffer :
    BufferManager → SignalConfig → Run (BufferErrorCode × BufferManager)
add_raw_data_to_buffer m config = elim (lookup config.type_id m.buffers) [
  | none ↦ if not (check_memory_limit m config.reserved_bytes) then done (out_of_memory, m) else (do
    m' ← add_buffer_to_stats (store m config.type_id (new_buffer config)) (new_buffer config)
    done (successful, m'))
  | some b ↦ done (successful, store m config.type_id (record b { deleting = false }))
]

-- `std::set::insert`
abbrev set_insert : ℕ → List ℕ → List ℕ
set_insert k [] = k ∷ []
set_insert k (j ∷ js) =
    if k == j then j ∷ js else if ltb k j then k ∷ j ∷ js else j ∷ set_insert k js

abbrev is_updated : List (ℕ × SignalUpdateConfig) → ℕ → Bool
is_updated updated key = elim (lookup key updated) [ none ↦ false | some _ ↦ true ]

-- The types of the map that the update leaves out, in the order of the set.
unfoldable pub excluded_type_ids : List (ℕ × SignalUpdateConfig) → List ℕ → List ℕ
excluded_type_ids updated [] = []
excluded_type_ids updated (k ∷ ks) =
    let rest = excluded_type_ids updated ks in
    if is_updated updated k then rest else set_insert k rest

-- An excluded buffer goes if it is empty, and otherwise is marked to go later.
unfoldable pub retire : BufferManager → ℕ → Buffer → Run BufferManager
retire m key b =
    if b.num_of_samples_currently_in_memory == 0
    then (do m' ← delete_buffer_from_stats m b; done (discard m' b.type_id))
    else done (store m key (record b { deleting = true }))

-- One round of the loop over the excluded types.
unfoldable pub exclude_type : BufferManager → ℕ → Buffer → Run BufferManager
exclude_type m key b = do
  without ← delete_buffer_from_stats m b
  let b' = delete_all_unused (length b.frames) b
  with ← add_buffer_to_stats (store without key b') b'
  retire with key b'

unfoldable pub exclude_types : BufferManager → List ℕ → Run BufferManager
exclude_types m [] = done m
exclude_types m (k ∷ ks) = elim (lookup k m.buffers) [
  | none ↦ exclude_types m ks
  | some b ↦ do m' ← exclude_type m k b; exclude_types m' ks
]

-- The loop over the updated signals: the first failure ends it.
unfoldable pub add_signals :
    BufferManager → List (ℕ × SignalUpdateConfig) → Run (BufferErrorCode × BufferManager)
add_signals m [] = done (successful, m)
add_signals m ((key, u) ∷ us) = do
  added ←
      add_raw_data_to_buffer m (get_signal_config m.config u.type_id u.interface_id u.message_id)
  elim added.0 [ successful ↦ add_signals added.1 us | out_of_memory ↦ done added ]

-- `BufferManager::updateConfig`
unfoldable pub update_config :
    BufferManager → List (ℕ × SignalUpdateConfig) → Run (BufferErrorCode × BufferManager)
update_config m updated = do
  kept ← exclude_types m (excluded_type_ids updated (keys m.buffers))
  add_signals kept updated
