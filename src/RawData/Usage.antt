-- ===== src/RawData/Usage.antt =====
-- The references to frames in `BufferManager` of src/RawDataManager.cpp: `deleteUnused`,
-- `returnLoanedFrame`, the usage hints, and their reset for a stage.
use aws_iot_fleetwise_edge.Prelude.{
  ℕ, zero, suc, ◌+◌, ◌%◌, Bool, true, false, not, ◌&&◌, ◌||◌, List, [], ◌∷◌, Option, none, some,
  if◌then◌else◌, ltb, leb, ◌==◌, sub64, length, lookup, keys, get_or, set, get_elem?,
}
use aws_iot_fleetwise_edge.RawData.Types.{
  Frame, Buffer, UsageStage, stage_size, stage_index, has_usage_hints,
}
use aws_iot_fleetwise_edge.RawData.Run.{Run, done, undefined, ◌>>=◌}
use aws_iot_fleetwise_edge.RawData.Stats.{
  BufferManager, delete_buffer_from_stats, add_buffer_to_stats,
}
use aws_iot_fleetwise_edge.RawData.Buffer.{delete_data_from_handle}
use aws_iot_fleetwise_edge.RawData.Manager.{
  store, discard, find_buffer_and_frame, update_frame, LoanedFrame,
}

-- A deleted buffer leaves the map with its last frame.
unfoldable pub drop_if_empty : BufferManager → Buffer → Run BufferManager
drop_if_empty m b =
    if b.num_of_samples_currently_in_memory == 0 && b.deleting
    then (do m' ← delete_buffer_from_stats m b; done (discard m' b.type_id))
    else done m

-- `deleteUnused`, past its guard: the buffer at the key gives up the data of the handle.
unfoldable pub delete_handle : BufferManager → ℕ → Buffer → ℕ → Run BufferManager
delete_handle m key b handle = do
  without ← delete_buffer_from_stats m b
  let b' = (delete_data_from_handle b handle).1
  with ← add_buffer_to_stats (store without key b') b'
  drop_if_empty with b'

-- `BufferManager::deleteUnused`
unfoldable pub delete_unused : BufferManager → ℕ → Buffer → Frame → Run BufferManager
delete_unused m key b f =
    if not (f.data_in_use_counter == 0) || has_usage_hints f
    then done m
    else delete_handle m key b f.handle_id

abbrev hint : Frame → ℕ → ℕ
hint f i = get_or f.usage_hint_counters i 0

abbrev pub set_hint : ℕ → (ℕ → ℕ) → Frame → Frame
set_hint i g f = record f { usage_hint_counters = set f.usage_hint_counters i (g (hint f i)) }

-- A `uint8_t` up or down by one.
abbrev pub up8 : ℕ → ℕ
up8 c = (c + 1) % 256

abbrev pub down8 : ℕ → ℕ
down8 c = (c + 255) % 256

-- `BufferManager::increaseHandleUsageHint`
unfoldable pub increase_handle_usage_hint :
    BufferManager → ℕ → ℕ → UsageStage → Bool × BufferManager
increase_handle_usage_hint m type_id handle stage =
    let i = stage_index stage in
    elim (find_buffer_and_frame m type_id handle) [
      | none ↦ (false, m)
      | some (b, f) ↦
          if not (ltb i (stage_index stage_size))
          then (false, m)
          else if leb 255 (hint f i)
          then (false, m)
          else (true, store m type_id (update_frame b handle (set_hint i up8)))
    ]

-- `deleteUnused` after a write to the first frame of a handle.
unfoldable pub release_frame :
    BufferManager → ℕ → Buffer → Frame → (Frame → Frame) → Run BufferManager
release_frame m key b f g =
    let b' = update_frame b f.handle_id g in delete_unused (store m key b') key b' (g f)

-- `BufferManager::decreaseHandleUsageHint`
unfoldable pub decrease_handle_usage_hint :
    BufferManager → ℕ → ℕ → UsageStage → Run (Bool × BufferManager)
decrease_handle_usage_hint m type_id handle stage =
    let i = stage_index stage in
    elim (find_buffer_and_frame m type_id handle) [
      | none ↦ done (false, m)
      | some (b, f) ↦
          if not (ltb i (stage_index stage_size))
          then done (false, m)
          else if hint f i == 0
          then done (false, m)
          else (do m' ← release_frame m type_id b f (set_hint i down8); done (true, m'))
    ]

-- The counter of references: at 0 the code only logs.
abbrev pub returned : Frame → Frame
returned f = record f {
  data_in_use_counter =
      if ltb 0 f.data_in_use_counter then down8 f.data_in_use_counter else f.data_in_use_counter;
}

abbrev pub uncount_loan : Buffer → Buffer
uncount_loan b = record b {
  num_of_samples_accessed_by_sender = sub64 b.num_of_samples_accessed_by_sender 1;
}

-- `BufferManager::returnLoanedFrame`
unfoldable pub return_loaned_frame : BufferManager → ℕ → ℕ → Run BufferManager
return_loaned_frame m type_id handle = elim (find_buffer_and_frame m type_id handle) [
  | none ↦ done m
  | some (b, f) ↦
      release_frame
        (record m {
          num_of_samples_accessed_by_sender = sub64 m.num_of_samples_accessed_by_sender 1;
        })
        type_id (uncount_loan b) f returned
]

-- The destructor of `LoanedFrame`.
unfoldable pub destroy_loan : BufferManager → Option LoanedFrame → Run BufferManager
destroy_loan m none = done m
destroy_loan m (some l) = return_loaned_frame m l.type_id l.handle

-- One round of `resetUsageHintsForStage` in a buffer: the element at an index, not of a handle.
unfoldable pub reset_frame : BufferManager → ℕ → ℕ → ℕ → Run BufferManager
reset_frame m key i index = elim (lookup key m.buffers) [
  | none ↦ undefined
  | some b ↦ elim (get_elem? b.frames index) [
    | none ↦ undefined
    | some f ↦
        let f' = set_hint i (λ _. 0) f in
        let b' = record b { frames = set b.frames index f' } in
        delete_unused (store m key b') key b' f'
  ]
]

-- The number of frames in a buffer that the code holds a reference to.
abbrev pub size_of : BufferManager → ℕ → ℕ
size_of m key = elim (lookup key m.buffers) [ none ↦ 0 | some b ↦ length b.frames ]

-- `for ( size_t i = 0; i < initialSize; i++ )`: `n` rounds are left, and `i + n` is `initialSize`.
unfoldable pub reset_frames : ℕ → ℕ → BufferManager → ℕ → ℕ → ℕ → Run BufferManager
reset_frames zero initial_size m key i stage = done m
reset_frames (suc n) initial_size m key i stage = do
  m' ← reset_frame m key stage (sub64 i (sub64 initial_size (size_of m key)))
  reset_frames n initial_size m' key (i + 1) stage

-- `for ( auto typeId : typeIds )`
unfoldable pub reset_buffers : List ℕ → BufferManager → ℕ → Run BufferManager
reset_buffers [] m stage = done m
reset_buffers (key ∷ ks) m stage = do
  m' ← reset_frames (size_of m key) (size_of m key) m key 0 stage
  reset_buffers ks m' stage

-- `BufferManager::resetUsageHintsForStage`
unfoldable pub reset_usage_hints_for_stage : BufferManager → UsageStage → Run BufferManager
reset_usage_hints_for_stage m stage =
    if leb (stage_index stage_size) (stage_index stage)
    then done m
    else reset_buffers (keys m.buffers) m (stage_index stage)
