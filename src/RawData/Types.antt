-- ===== src/RawData/Types.antt =====
-- The data of RawDataManager.h: frames, the stages at which their handles are referenced, buffers.
use aws_iot_fleetwise_edge.Prelude.{
  ℕ, Bool, false, List, [], ◌∷◌, ◌==◌, ◌||◌, not, get_or, replicate, length,
}

-- `BufferHandleUsageStage`. `stage_size` is the enumerator that sizes the arrays; as a stage it is
-- invalid, and the operations test for it.
pub data UsageStage : Type 0 where
  collected_not_in_history_buffer : UsageStage
  collection_inspection_engine_history_buffer : UsageStage
  collection_inspection_engine_selected_for_upload : UsageStage
  handed_over_to_sender : UsageStage
  uploading : UsageStage
  stage_size : UsageStage

-- `static_cast<uint32_t>( stage )`
abbrev pub stage_index : UsageStage → ℕ
stage_index collected_not_in_history_buffer = 0
stage_index collection_inspection_engine_history_buffer = 1
stage_index collection_inspection_engine_selected_for_upload = 2
stage_index handed_over_to_sender = 3
stage_index uploading = 4
stage_index stage_size = 5

-- `StorageStrategy`
pub data StorageStrategy : Type 0 where
  copy_on_ingest_async : StorageStrategy
  copy_on_ingest_sync : StorageStrategy
  zero_copy : StorageStrategy
  compress_on_ingest_async : StorageStrategy
  compress_on_ingest_sync : StorageStrategy
  store_to_file_async : StorageStrategy
  store_to_file_sync : StorageStrategy

-- `BufferErrorCode`
pub data BufferErrorCode : Type 0 where
  successful : BufferErrorCode
  out_of_memory : BufferErrorCode

-- `Frame`. `usage_hint_counters` is the array of `STAGE_SIZE` counters, each a `uint8_t`.
pub record Frame : Type 0 where
  pub handle_id : ℕ
  pub timestamp : ℕ
  pub raw_data : List ℕ
  pub data_in_use_counter : ℕ
  pub usage_hint_counters : List ℕ

-- The constructor of `Frame`.
abbrev pub new_frame : ℕ → ℕ → List ℕ → Frame
new_frame handle_id timestamp raw_data = record {
  handle_id = handle_id;
  timestamp = timestamp;
  raw_data = raw_data;
  data_in_use_counter = 0;
  usage_hint_counters = replicate (stage_index stage_size) 0;
}

-- `Frame::getUsageHint`
abbrev pub get_usage_hint : Frame → UsageStage → ℕ
get_usage_hint frame stage = get_or frame.usage_hint_counters (stage_index stage) 0

-- The loop of `Frame::hasUsageHints` over the counters.
abbrev pub any_nonzero : List ℕ → Bool
any_nonzero [] = false
any_nonzero (c ∷ cs) = not (c == 0) || any_nonzero cs

-- `Frame::hasUsageHints`
abbrev pub has_usage_hints : Frame → Bool
has_usage_hints frame = any_nonzero frame.usage_hint_counters

-- `Frame::getSize`
abbrev pub get_size : Frame → ℕ
get_size frame = length frame.raw_data

-- `BufferManager::Buffer`
pub record Buffer : Type 0 where
  pub type_id : ℕ
  pub max_num_of_samples : ℕ
  pub max_bytes_per_sample : ℕ
  pub max_overall_bytes : ℕ
  pub reserved_bytes : ℕ
  pub bytes_in_use : ℕ
  pub num_of_samples_received : ℕ
  pub num_of_samples_currently_in_memory : ℕ
  pub num_of_samples_accessed_by_sender : ℕ
  pub deleting : Bool
  pub storage_strategy : StorageStrategy
  pub frames : List Frame

-- `SignalConfig`
pub record SignalConfig : Type 0 where
  pub type_id : ℕ
  pub storage_strategy : StorageStrategy
  pub max_num_of_samples : ℕ
  pub max_bytes_per_sample : ℕ
  pub max_overall_bytes : ℕ
  pub reserved_bytes : ℕ

-- The constructor of `Buffer`, called with the fields of a `SignalConfig`.
abbrev pub new_buffer : SignalConfig → Buffer
new_buffer config = record {
  type_id = config.type_id;
  max_num_of_samples = config.max_num_of_samples;
  max_bytes_per_sample = config.max_bytes_per_sample;
  max_overall_bytes = config.max_overall_bytes;
  reserved_bytes = config.reserved_bytes;
  bytes_in_use = 0;
  num_of_samples_received = 0;
  num_of_samples_currently_in_memory = 0;
  num_of_samples_accessed_by_sender = 0;
  deleting = false;
  storage_strategy = config.storage_strategy;
  frames = [];
}
