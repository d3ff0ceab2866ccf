-- ===== src/RawData/Stats.antt =====
-- The state of `BufferManager` of src/RawDataManager.cpp, and its statistics: `addBufferToStats`,
-- `deleteBufferFromStats`, `checkMemoryLimit`, with the assertions of the code.
use aws_iot_fleetwise_edge.Prelude.{
  ℕ, Bool, false, List, [], if◌then◌else◌, ltb, leb, add64, sub64, max,
}
use aws_iot_fleetwise_edge.RawData.Types.{Buffer}
use aws_iot_fleetwise_edge.RawData.Config.{BufferManagerConfig}
use aws_iot_fleetwise_edge.RawData.Run.{Run, done, ◌>>◌, fatal_assert}

-- `BufferManager`. `raw_msg_counter` is the static counter of `generateRawMsgCounter`.
pub record BufferManager : Type 0 where
  pub config : BufferManagerConfig
  pub max_overall_memory : ℕ
  pub bytes_reserved : ℕ
  pub bytes_in_use : ℕ
  pub bytes_in_use_and_reserved : ℕ
  pub overall_num_of_samples_received : ℕ
  pub num_of_samples_currently_in_memory : ℕ
  pub num_of_samples_accessed_by_sender : ℕ
  pub buffers : List (ℕ × Buffer)
  pub raw_msg_counter : ℕ

-- The constructor of `BufferManager`; the static counter outlives the managers.
abbrev pub new_manager : BufferManagerConfig → ℕ → BufferManager
new_manager config counter = record {
  config = config;
  max_overall_memory = config.max_bytes;
  bytes_reserved = 0;
  bytes_in_use = 0;
  bytes_in_use_and_reserved = 0;
  overall_num_of_samples_received = 0;
  num_of_samples_currently_in_memory = 0;
  num_of_samples_accessed_by_sender = 0;
  buffers = [];
  raw_msg_counter = counter;
}

-- `max( buffer.mBytesInUse, buffer.mReservedBytes )`
abbrev pub in_use_and_reserved : Buffer → ℕ
in_use_and_reserved b = max b.bytes_in_use b.reserved_bytes

-- The five assertions that stand before and after each change of the statistics.
unfoldable pub assert_stats : BufferManager → Run (Unit {0})
assert_stats m = do
  fatal_assert (leb m.bytes_in_use m.max_overall_memory)
  fatal_assert (leb m.bytes_in_use_and_reserved m.max_overall_memory)
  fatal_assert (leb m.bytes_reserved m.max_overall_memory)
  fatal_assert (leb m.bytes_in_use m.bytes_in_use_and_reserved)
  fatal_assert (leb m.bytes_reserved m.bytes_in_use_and_reserved)

-- The three assertions that the buffer is part of the statistics.
unfoldable pub assert_contains : BufferManager → Buffer → Run (Unit {0})
assert_contains m b = do
  fatal_assert (leb b.bytes_in_use m.bytes_in_use)
  fatal_assert (leb (in_use_and_reserved b) m.bytes_in_use_and_reserved)
  fatal_assert (leb b.num_of_samples_currently_in_memory m.num_of_samples_currently_in_memory)

abbrev pub subtract_stats : BufferManager → Buffer → BufferManager
subtract_stats m b = record m {
  bytes_in_use = sub64 m.bytes_in_use b.bytes_in_use;
  bytes_in_use_and_reserved = sub64 m.bytes_in_use_and_reserved (in_use_and_reserved b);
  bytes_reserved = sub64 m.bytes_reserved b.reserved_bytes;
  num_of_samples_currently_in_memory =
      sub64 m.num_of_samples_currently_in_memory b.num_of_samples_currently_in_memory;
}

abbrev pub sum_stats : BufferManager → Buffer → BufferManager
sum_stats m b = record m {
  bytes_in_use = add64 m.bytes_in_use b.bytes_in_use;
  bytes_in_use_and_reserved = add64 m.bytes_in_use_and_reserved (in_use_and_reserved b);
  bytes_reserved = add64 m.bytes_reserved b.reserved_bytes;
  num_of_samples_currently_in_memory =
      add64 m.num_of_samples_currently_in_memory b.num_of_samples_currently_in_memory;
}

-- `BufferManager::deleteBufferFromStats`
unfoldable pub delete_buffer_from_stats : BufferManager → Buffer → Run BufferManager
delete_buffer_from_stats m b = do
  assert_stats m
  assert_contains m b
  let m' = subtract_stats m b
  assert_stats m'
  done m'

-- `BufferManager::addBufferToStats`
unfoldable pub add_buffer_to_stats : BufferManager → Buffer → Run BufferManager
add_buffer_to_stats m b = do assert_stats m; let m' = sum_stats m b; assert_stats m'; done m'

-- `BufferManager::checkMemoryLimit`
unfoldable pub check_memory_limit : BufferManager → ℕ → Bool
check_memory_limit m memory_req =
    if ltb m.max_overall_memory memory_req
    then false
    else leb (add64 m.bytes_reserved memory_req) m.max_overall_memory
