-- ===== src/RawData/Config.antt =====
-- `BufferManagerConfig` of src/RawDataManager.cpp: `create` and `getSignalConfig`. Interface and
-- message identifiers are only compared for equality, so a number stands for each of these strings.
pub mod Checked
use aws_iot_fleetwise_edge.Prelude.{
  ℕ, ◌-◌, ◌*◌, ◌^◌, Bool, true, false, List, [], ◌∷◌, Option, none, some, if◌then◌else◌, ltb, ◌==◌,
  lookup, insert,
}
use aws_iot_fleetwise_edge.RawData.Types.{SignalConfig, copy_on_ingest_sync}

-- `SignalBufferOverrides`
pub record SignalBufferOverrides : Type 0 where
  pub interface_id : ℕ
  pub message_id : ℕ
  pub reserved_bytes : Option ℕ
  pub max_num_of_samples : Option ℕ
  pub max_bytes_per_sample : Option ℕ
  pub max_bytes : Option ℕ

-- `BufferManagerConfig`
pub record BufferManagerConfig : Type 0 where
  pub max_bytes : ℕ
  pub reserved_bytes_per_signal : ℕ
  pub max_num_of_samples_per_signal : ℕ
  pub max_bytes_per_sample : ℕ
  pub max_bytes_per_signal : ℕ
  pub overrides_per_signal : List (ℕ × List (ℕ × SignalBufferOverrides))

-- `SIZE_MAX`
abbrev pub size_max : ℕ
size_max = 2 ^ 64 - 1

-- `get_value_or`
abbrev pub value_or : Option ℕ → ℕ → ℕ
value_or none d = d
value_or (some x) d = x

abbrev pub is_some : Option SignalBufferOverrides → Bool
is_some none = false
is_some (some x) = true

-- The inner map of an interface; a lookup that misses acts on the empty one, as `operator[]` does.
abbrev pub messages_of : BufferManagerConfig → ℕ → List (ℕ × SignalBufferOverrides)
messages_of config interface_id = elim (lookup interface_id config.overrides_per_signal) [
  | none ↦ []
  | some messages ↦ messages
]

-- The override for an interface and a message, if there is one.
abbrev pub find_override : BufferManagerConfig → ℕ → ℕ → Option SignalBufferOverrides
find_override config interface_id message_id = lookup message_id (messages_of config interface_id)

-- `config.mOverridesPerSignal[interfaceId][messageId] = signalOverride`
abbrev pub store_override : BufferManagerConfig → SignalBufferOverrides → BufferManagerConfig
store_override config o = record config {
  overrides_per_signal =
      insert o.interface_id (insert o.message_id o (messages_of config o.interface_id))
        config.overrides_per_signal;
}

-- The size per sample is capped where the override limits only the whole signal.
abbrev pub capped_sample : Option ℕ → Option ℕ → Option ℕ
capped_sample (some max_bytes) none = some max_bytes
capped_sample _ sample = sample

-- The checks on one override against the limit `maxBytesCur`, and its addition.
unfoldable pub add_override_within :
    BufferManagerConfig → SignalBufferOverrides → ℕ → Option BufferManagerConfig
add_override_within config o max_bytes_cur =
    if value_or o.max_num_of_samples size_max == 0
    then none
    else if value_or o.max_bytes_per_sample config.max_bytes_per_sample == 0
    then none
    else if ltb max_bytes_cur (value_or o.max_bytes_per_sample config.max_bytes_per_sample)
    then none
    else if ltb max_bytes_cur (value_or o.reserved_bytes config.reserved_bytes_per_signal)
    then none
    else some (store_override config o)

-- One round of the loop over `overridesPerSignal`.
unfoldable pub add_override :
    BufferManagerConfig → SignalBufferOverrides → Option BufferManagerConfig
unfolding add_override_within
add_override config o =
    if is_some (find_override config o.interface_id o.message_id)
    then none
    else if ltb config.max_bytes (value_or o.max_bytes config.max_bytes)
    then none
    else add_override_within config
        (record o { max_bytes_per_sample = capped_sample o.max_bytes o.max_bytes_per_sample })
        (value_or o.max_bytes config.max_bytes)

unfoldable pub add_overrides :
    BufferManagerConfig → List SignalBufferOverrides → Option BufferManagerConfig
add_overrides config [] = some config
add_overrides config (o ∷ os) = elim (add_override config o) [
  | none ↦ none
  | some config' ↦ add_overrides config' os
]

-- The checks on the limits that hold for every signal.
unfoldable pub check_limits : BufferManagerConfig → Bool
check_limits config =
    if config.max_bytes == 0
    then false
    else if config.max_num_of_samples_per_signal == 0
    then false
    else if config.max_bytes_per_signal == 0
    then false
    else if ltb config.max_bytes config.max_bytes_per_signal
    then false
    else if config.max_bytes_per_sample == 0
    then false
    else if ltb config.max_bytes config.max_bytes_per_sample
    then false
    else if ltb config.max_bytes_per_signal config.max_bytes_per_sample
    then false
    else if ltb config.max_bytes config.reserved_bytes_per_signal
    then false
    else if ltb config.max_bytes_per_signal config.reserved_bytes_per_signal
    then false
    else true

-- The limits with their defaults: each is given by a later one where it is left out.
abbrev pub config_of : ℕ → Option ℕ → Option ℕ → Option ℕ → ℕ → BufferManagerConfig
config_of max_bytes reserved samples sample signal = record {
  max_bytes = max_bytes;
  reserved_bytes_per_signal = value_or reserved 0;
  max_num_of_samples_per_signal = value_or samples size_max;
  max_bytes_per_sample = value_or sample signal;
  max_bytes_per_signal = signal;
  overrides_per_signal = [];
}

-- `BufferManagerConfig::create`
unfoldable pub create :
    Option ℕ
    → Option ℕ
    → Option ℕ
    → Option ℕ
    → Option ℕ
    → List SignalBufferOverrides
    → Option BufferManagerConfig
unfolding check_limits add_overrides add_override
create max_bytes reserved samples sample signal overrides =
    let total = value_or max_bytes (1024 * 1024 * 1024) in
    let config = config_of total reserved samples sample (value_or signal total) in
    if check_limits config then add_overrides config overrides else none

-- The config of a signal with an override, or without one.
abbrev pub overridden : SignalConfig → Option SignalBufferOverrides → SignalConfig
overridden config none = config
overridden config (some o) = record config {
  reserved_bytes = value_or o.reserved_bytes config.reserved_bytes;
  max_num_of_samples = value_or o.max_num_of_samples config.max_num_of_samples;
  max_bytes_per_sample = value_or o.max_bytes_per_sample config.max_bytes_per_sample;
  max_overall_bytes = value_or o.max_bytes config.max_overall_bytes;
}

-- `BufferManagerConfig::getSignalConfig`
unfoldable pub get_signal_config : BufferManagerConfig → ℕ → ℕ → ℕ → SignalConfig
get_signal_config config type_id interface_id message_id =
    overridden
      (record {
        type_id = type_id;
        storage_strategy = copy_on_ingest_sync;
        max_num_of_samples = config.max_num_of_samples_per_signal;
        max_bytes_per_sample = config.max_bytes_per_sample;
        max_overall_bytes = config.max_bytes_per_signal;
        reserved_bytes = config.reserved_bytes_per_signal;
      })
      (find_override config interface_id message_id)
