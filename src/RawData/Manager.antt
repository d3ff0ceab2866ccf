-- ===== src/RawData/Manager.antt =====
-- The operations of `BufferManager` of src/RawDataManager.cpp. Each returns its result and the
-- manager that it leaves, or aborts at an assertion. A reference to a buffer in the map is its key,
-- and a write through the reference is an `insert` at the key. The lock of the manager makes each
-- operation one step. Logging and tracing are left out.
use Prim.Native.Nat.{bit_or}
use aws_iot_fleetwise_edge.Prelude.{
  ℕ, ◌+◌, ◌*◌, ◌%◌, ◌^◌, Bool, true, false, not, List, [], ◌∷◌, Option, none, some, if◌then◌else◌,
  ◌==◌, add64, sub64, find_if, lookup, insert, erase,
}
use aws_iot_fleetwise_edge.RawData.Types.{
  Frame, Buffer, StorageStrategy, copy_on_ingest_sync, get_size,
}
use aws_iot_fleetwise_edge.RawData.Run.{Run, done, ◌>>=◌}
use aws_iot_fleetwise_edge.RawData.Stats.{
  BufferManager, delete_buffer_from_stats, add_buffer_to_stats,
}
use aws_iot_fleetwise_edge.RawData.Buffer.{add_data, has_handle}

-- `INVALID_BUFFER_HANDLE`
abbrev pub invalid_buffer_handle : ℕ
invalid_buffer_handle = 0

-- `generateRawMsgCounter`: a `uint8_t` that skips 0.
unfoldable pub generate_raw_msg_counter : ℕ → ℕ
generate_raw_msg_counter counter = if counter == 255 then 1 else (counter + 1) % 256

-- `generateHandleID`, from the new value of the counter: the low 32 bits of the counter and the
-- timestamp beside it.
unfoldable pub generate_handle_id : ℕ → ℕ → ℕ
generate_handle_id counter timestamp = bit_or counter (timestamp * 256 % 2 ^ 64) % 2 ^ 32

abbrev pub store : BufferManager → ℕ → Buffer → BufferManager
store m key b = record m { buffers = insert key b m.buffers }

abbrev pub discard : BufferManager → ℕ → BufferManager
discard m key = record m { buffers = erase key m.buffers }

abbrev is_copy_on_ingest_sync : StorageStrategy → Bool
is_copy_on_ingest_sync copy_on_ingest_sync = true
is_copy_on_ingest_sync _ = false

-- `push` once the buffer is found and accepts data.
unfoldable pub push_into : BufferManager → ℕ → Buffer → List ℕ → ℕ → Run (ℕ × BufferManager)
push_into m type_id b bytes timestamp =
    let counter = generate_raw_msg_counter m.raw_msg_counter in
    let handle = generate_handle_id counter timestamp in
    let received = record m {
      overall_num_of_samples_received = add64 m.overall_num_of_samples_received 1;
      raw_msg_counter = counter;
    } in
    let available = sub64 m.max_overall_memory m.bytes_in_use_and_reserved in
    let added = add_data b bytes timestamp handle available in
    do
      without ← delete_buffer_from_stats received b
      with ← add_buffer_to_stats (store without type_id added.1) added.1
      done (if added.0 then handle else invalid_buffer_handle, with)

-- `BufferManager::push`
unfoldable pub push : BufferManager → List ℕ → ℕ → ℕ → Run (ℕ × BufferManager)
push m bytes timestamp type_id = elim (lookup type_id m.buffers) [
  | none ↦ done (invalid_buffer_handle, m)
  | some b ↦
      if b.deleting
      then done (invalid_buffer_handle, m)
      else if not (is_copy_on_ingest_sync b.storage_strategy)
      then done (invalid_buffer_handle, m)
      else push_into m type_id b bytes timestamp
]

-- `findBufferAndFrame`: both, or neither.
unfoldable pub find_buffer_and_frame : BufferManager → ℕ → ℕ → Option (Buffer × Frame)
find_buffer_and_frame m type_id handle = elim (lookup type_id m.buffers) [
  | none ↦ none
  | some b ↦ elim (find_if (has_handle handle) b.frames) [ none ↦ none | some f ↦ some (b, f) ]
]

-- A write through the reference to the first frame that passes the test.
abbrev pub update_if : (Frame → Bool) → (Frame → Frame) → List Frame → List Frame
update_if p g [] = []
update_if p g (f ∷ fs) = if p f then g f ∷ fs else f ∷ update_if p g fs

abbrev pub update_frame : Buffer → ℕ → (Frame → Frame) → Buffer
update_frame b handle g = record b { frames = update_if (has_handle handle) g b.frames }

-- `LoanedFrame`, of a live manager: what its destructor returns, and the bytes that it shows. The
-- loan of no manager is `none`.
pub record LoanedFrame : Type 0 where
  pub type_id : ℕ
  pub handle : ℕ
  pub bytes : List ℕ

-- One more reference to the data.
abbrev pub borrowed : Frame → Frame
borrowed f = record f { data_in_use_counter = (f.data_in_use_counter + 1) % 256 }

abbrev pub count_loan : Buffer → Buffer
count_loan b = record b {
  num_of_samples_accessed_by_sender = add64 b.num_of_samples_accessed_by_sender 1;
}

-- `BufferManager::borrowFrame`
unfoldable pub borrow_frame : BufferManager → ℕ → ℕ → Option LoanedFrame × BufferManager
borrow_frame m type_id handle = elim (find_buffer_and_frame m type_id handle) [
  | none ↦ (none, m)
  | some (b, f) ↦
      if get_size f == 0 then (none, m) else if f.data_in_use_counter == 255 then (none, m) else (
        some (record { type_id = type_id; handle = handle; bytes = f.raw_data }),
        store
            (record m {
              num_of_samples_accessed_by_sender = add64 m.num_of_samples_accessed_by_sender 1;
            })
            type_id (update_frame (count_loan b) handle borrowed),
      )
]
