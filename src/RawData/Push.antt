-- ===== src/RawData/Push.antt =====
-- `BufferManager::push` of src/RawDataManager.cpp, its assertions and the frames in use.
use aws_iot_fleetwise_edge.Prelude.{
  ℕ, ◌+◌, ◌^◌, ◌<◌, ◌≡◌, refl, Bool, some, none, arith, List, [], lookup, insert, lookup-insert,
  if◌then◌else◌, ◌==◌, Bool-cases, Option-cases, Option, inl, inr, add64, sub64,
}
use aws_iot_fleetwise_edge.RawData.Types.{Buffer, Frame}
use aws_iot_fleetwise_edge.RawData.Run.{done, Returns}
use aws_iot_fleetwise_edge.RawData.Buffer.{add_data}
use aws_iot_fleetwise_edge.RawData.Buffer.Bounds.{pinned}
use aws_iot_fleetwise_edge.RawData.Buffer.AddData.{Adds, add_data-Adds}
use aws_iot_fleetwise_edge.RawData.Stats.{BufferManager}
use aws_iot_fleetwise_edge.RawData.Manager.{
  push, push_into, generate_raw_msg_counter, generate_handle_id, invalid_buffer_handle,
}
use aws_iot_fleetwise_edge.RawData.Invariant.{IsConsistent, delete_buffer_from_stats-passes, share}
use aws_iot_fleetwise_edge.RawData.Replace.{
  Replaces, recounted, recounted-IsConsistent, add_buffer_to_stats-passes, found-IsEntry,
}

-- The frames in use of the buffer at a key.
abbrev pinned_of : Option Buffer → List Frame
pinned_of none = []
pinned_of (some b) = pinned b.frames

abbrev pub pinned_at : BufferManager → ℕ → List Frame
pinned_at m key = pinned_of (lookup key m.buffers)

-- What every call of `push` leaves.
pub record Pushed (m : BufferManager) (r : ℕ × BufferManager) : Type 0 where
  pub consistent : IsConsistent r.1
  pub memory_kept : r.1.max_overall_memory ≡ m.max_overall_memory
  pub pinned_kept : (key : ℕ) → pinned_at r.1 key ≡ pinned_at m key

pinned_at-insert :
    (m : BufferManager) (b b' : Buffer) (k key : ℕ)
    → lookup k m.buffers ≡ some b
    → pinned b'.frames ≡ pinned b.frames
    → pinned_of (lookup key (insert k b' m.buffers)) ≡ pinned_at m key
pinned_at-insert m b b' k key found h =
    rw (lookup-insert k key b' m.buffers) (elim (Bool-cases (k == key)) [
      | inr e ↦ rw e
      | inl e ↦ let s : key ≡ k = ground arith in rw (e, s, found) h
    ])

module _ (m : BufferManager) (b : Buffer) (type_id timestamp : ℕ) (bytes : List ℕ) where
  counted : BufferManager
  counted = record m {
    overall_num_of_samples_received = add64 m.overall_num_of_samples_received 1;
    raw_msg_counter = generate_raw_msg_counter m.raw_msg_counter;
  }

  handle_of : ℕ
  handle_of = generate_handle_id (generate_raw_msg_counter m.raw_msg_counter) timestamp

  added_of : Bool × Buffer
  added_of =
      add_data b bytes timestamp handle_of (sub64 m.max_overall_memory m.bytes_in_use_and_reserved)

  module _ (c : IsConsistent m) (found : lookup type_id m.buffers ≡ some b)
      (room : m.num_of_samples_currently_in_memory + 1 < 2 ^ 64) where
    counted-IsConsistent : IsConsistent counted
    unfolding counted
    counted-IsConsistent = record {
      memory_small = c.memory_small;
      used_counted = c.used_counted;
      footprint_counted = c.footprint_counted;
      reserved_counted = c.reserved_counted;
      samples_counted = c.samples_counted;
      footprint_limited = c.footprint_limited;
      samples_small = c.samples_small;
      entries = c.entries;
    }

    added-Adds : Adds b bytes (sub64 m.max_overall_memory m.bytes_in_use_and_reserved) added_of
    unfolding added_of
    added-Adds =
        add_data-Adds b bytes timestamp handle_of _ (found-IsEntry c type_id b found).0
          (omega (arith, c, share c type_id b found))

    added-Replaces : Replaces counted b added_of.1
    unfolding counted
    added-Replaces =
        let a = added-Adds in
        let v = (found-IsEntry c type_id b found).0 in
        record {
          valid = a.valid;
          type_kept = a.type_id_kept;
          footprint_fits = omega (arith, c, a.footprint_bounded);
          samples_fit =
              omega (arith, a.samples_bounded, a.valid.samples_counted, v.samples_counted);
        }

    -- What `push` does to the buffer that it finds.
    push_into_lem :
        push_into m type_id b bytes timestamp
        ≡ done (
          if added_of.0 then handle_of else invalid_buffer_handle,
          recounted counted type_id b added_of.1,
        )
    unfolding push_into counted handle_of added_of
    push_into_lem = rw (
      delete_buffer_from_stats-passes counted-IsConsistent type_id b found,
      add_buffer_to_stats-passes counted-IsConsistent type_id b found added-Replaces,
    )

    push_into-Pushed : Returns (Pushed m) (push_into m type_id b bytes timestamp)
    unfolding counted
    push_into-Pushed = rw push_into_lem (record {
      consistent = recounted-IsConsistent counted-IsConsistent type_id b found added-Replaces;
      memory_kept = refl;
      pinned_kept = λ key. pinned_at-insert m b added_of.1 type_id key found added-Adds.pinned_kept;
    })

unchanged-Pushed : {m : BufferManager} → IsConsistent m → Pushed m (invalid_buffer_handle, m)
unchanged-Pushed c = record { consistent = c; memory_kept = refl; pinned_kept = λ key. refl }

-- `push` returns in every consistent state in which one more sample can be counted, whatever the
-- data, the time and the type: no assertion fails. It leaves a consistent state with the same memory
-- limit, in which every buffer has kept its frames that are borrowed or in upload.
pub push-Pushed :
    (m : BufferManager) (bytes : List ℕ) (timestamp type_id : ℕ)
    → IsConsistent m
    → m.num_of_samples_currently_in_memory + 1 < 2 ^ 64
    → Returns (Pushed m) (push m bytes timestamp type_id)
unfolding push
push-Pushed m bytes timestamp type_id c room = elim (Option-cases (lookup type_id m.buffers)) [
  | inl e ↦ rw (e, push) (unchanged-Pushed c)
  | inr (b, e) ↦
      rw (e, push)
        (ground (arith, push_into-Pushed m b type_id timestamp bytes c e room, unchanged-Pushed c))
]
