-- ===== src/RawData/Buffer.antt =====
-- `BufferManager::Buffer` of src/RawDataManager.cpp: `addData`, `deleteUnusedData`,
-- `deleteDataFromHandle`. A method returns its result and the buffer that it leaves, which a failed
-- `addData` may have changed as well. A `size_t` is a number below 2 ^ 64 whose sums and differences
-- wrap. The three `while` loops delete a frame in every round, so they recur on the number of rounds
-- left, at first the number of frames; at none left there is no frame to delete either.
pub mod Bounds
pub mod Room
pub mod AddData
pub mod Accept
pub mod Loops
use aws_iot_fleetwise_edge.Prelude.{
  ℕ, zero, suc, Bool, true, false, not, ◌&&◌, ◌||◌, List, [], ◌∷◌, ◌++◌, Option, none, some,
  if◌then◌else◌, ltb, ◌==◌, add64, sub64, length, find_if, erase_if,
}
use aws_iot_fleetwise_edge.RawData.Types.{
  Frame, Buffer, uploading, new_frame, has_usage_hints, get_usage_hint, get_size,
}

-- The first search of `deleteUnusedData`: no reference to the data and none to the handle.
abbrev pub is_unused : Frame → Bool
is_unused frame = frame.data_in_use_counter == 0 && not (has_usage_hints frame)

-- Its second search: no reference to the data, and not in upload.
abbrev pub is_releasable : Frame → Bool
is_releasable frame = frame.data_in_use_counter == 0 && get_usage_hint frame uploading == 0

-- Erasing a found frame: the bytes, the vector and the count, in the order of the code.
abbrev pub drop_frame : Buffer → (Frame → Bool) → Frame → Buffer
drop_frame b p frame = record b {
  bytes_in_use = sub64 b.bytes_in_use (get_size frame);
  frames = erase_if p b.frames;
  num_of_samples_currently_in_memory = sub64 b.num_of_samples_currently_in_memory 1;
}

-- `Buffer::deleteUnusedData`
unfoldable pub delete_unused_data : Buffer → Bool × Buffer
delete_unused_data b = elim (find_if is_unused b.frames) [
  | some frame ↦ (true, drop_frame b is_unused frame)
  | none ↦ elim (find_if is_releasable b.frames) [
    | some frame ↦ (true, drop_frame b is_releasable frame)
    | none ↦ (false, b)
  ]
]

-- The frame that a handle finds: the first one.
abbrev pub has_handle : ℕ → Frame → Bool
has_handle handle frame = frame.handle_id == handle

-- `Buffer::deleteDataFromHandle`: the deleted size and the buffer.
unfoldable pub delete_data_from_handle : Buffer → ℕ → ℕ × Buffer
delete_data_from_handle b handle = elim (find_if (has_handle handle) b.frames) [
  | none ↦ (0, b)
  | some frame ↦ (get_size frame, drop_frame b (has_handle handle) frame)
]

-- A failed step returns at once.
abbrev pub and_then : Bool × Buffer → (Buffer → Bool × Buffer) → Bool × Buffer
and_then (true, b) k = k b
and_then (false, b) k = (false, b)

-- `while ( mBytesInUse + requiredBytes > mMaxOverallBytes )`
unfoldable pub free_own_limit : ℕ → ℕ → Buffer → Bool × Buffer
free_own_limit zero required b = (not (ltb b.max_overall_bytes (add64 b.bytes_in_use required)), b)
free_own_limit (suc n) required b =
    let deleted = delete_unused_data b in
    let rest = and_then deleted (free_own_limit n required) in
    if ltb b.max_overall_bytes (add64 b.bytes_in_use required) then rest else (true, b)

-- `while ( requiredBytes > bytesAvailableToUse )`
unfoldable pub free_shared_memory : ℕ → ℕ → ℕ → Buffer → Bool × Buffer
free_shared_memory zero required available b = (not (ltb available required), b)
free_shared_memory (suc n) required available b =
    let deleted = delete_unused_data b in
    let rest = and_then deleted (λ b'.
      free_shared_memory n required (add64 available (sub64 b.bytes_in_use b'.bytes_in_use)) b') in
    if ltb available required then rest else (true, b)

-- `while ( buffer.deleteUnusedData() )` of `updateConfig`
unfoldable pub delete_all_unused : ℕ → Buffer → Buffer
delete_all_unused zero b = b
delete_all_unused (suc n) b =
    let (deleted, b') = delete_unused_data b in
    let rest = delete_all_unused n b' in if deleted then rest else b'

-- The copy into the vector, and the counters.
abbrev pub append_frame : Buffer → List ℕ → ℕ → ℕ → Buffer
append_frame b bytes timestamp handle = record b {
  frames = b.frames ++ new_frame handle timestamp bytes ∷ [];
  num_of_samples_received = add64 b.num_of_samples_received 1;
  num_of_samples_currently_in_memory = add64 b.num_of_samples_currently_in_memory 1;
  bytes_in_use = add64 b.bytes_in_use (length bytes);
}

-- `bytesAvailableToUse`: the free memory, and what the buffer has reserved and does not use.
abbrev pub bytes_available_to_use : Buffer → ℕ → ℕ
bytes_available_to_use b available =
    if ltb b.bytes_in_use b.reserved_bytes
    then add64 available (sub64 b.reserved_bytes b.bytes_in_use)
    else available

-- A full buffer gives up one sample.
unfoldable pub free_sample : Buffer → Bool × Buffer
free_sample b =
    if b.num_of_samples_currently_in_memory == b.max_num_of_samples
    then delete_unused_data b
    else (true, b)

-- What `addData` does once the sample is small enough.
unfoldable pub make_room : ℕ → ℕ → Buffer → Bool × Buffer
make_room required available b = and_then (free_sample b) (λ b1.
    and_then (free_own_limit (length b1.frames) required b1)
      (λ b2. free_shared_memory (length b2.frames) required available b2))

-- `Buffer::addData`
unfoldable pub add_data : Buffer → List ℕ → ℕ → ℕ → ℕ → Bool × Buffer
add_data b bytes timestamp handle available =
    if ltb b.max_bytes_per_sample (length bytes) || ltb b.max_overall_bytes (length bytes)
    then (false, b)
    else and_then (make_room (length bytes) (bytes_available_to_use b available) b)
        (λ b'. (true, append_frame b' bytes timestamp handle))
