-- ===== src/RawData/Operations.antt =====
-- The calls of `BufferManager` in src/RawDataManager.cpp that change the references to a frame.
use aws_iot_fleetwise_edge.Prelude.{
  ℕ, ◌≡◌, refl, Bool, true, some, arith, List, [], ◌∷◌, lookup, Option-cases, inl, inr, length,
  add64, sub64, find_if, All, sum_by,
}
use aws_iot_fleetwise_edge.RawData.Types.{Buffer, Frame, stage_index, UsageStage, get_size}
use aws_iot_fleetwise_edge.RawData.Run.{done, Returns, Returns->>=, Returns-map}
use aws_iot_fleetwise_edge.RawData.Buffer.{has_handle}
use aws_iot_fleetwise_edge.RawData.Buffer.Bounds.{IsValid, FitsIn}
use aws_iot_fleetwise_edge.RawData.Stats.{BufferManager}
use aws_iot_fleetwise_edge.RawData.Manager.{
  store, find_buffer_and_frame, update_frame, update_if, borrow_frame, borrowed,
}
use aws_iot_fleetwise_edge.RawData.Usage.{
  delete_unused, increase_handle_usage_hint, decrease_handle_usage_hint, release_frame, set_hint,
  up8, down8, returned, return_loaned_frame,
}
use aws_iot_fleetwise_edge.RawData.Invariant.{IsConsistent}
use aws_iot_fleetwise_edge.RawData.Replace.{found-IsEntry, store-IsConsistent, lookup-store}
use aws_iot_fleetwise_edge.RawData.Safety.{Keeps, Keeps-refl, Keeps-trans, delete_unused-Keeps}

-- A write to a frame that leaves its data alone.
abbrev pub KeepsData : (Frame → Frame) → Type 0
KeepsData g = (f : Frame) → (g f).raw_data ≡ f.raw_data

module _ (p : Frame → Bool) (g : Frame → Frame) (kd : KeepsData g) where
  update_if-length : (fs : List Frame) → length (update_if p g fs) ≡ length fs
  update_if-length [] = refl
  update_if-length (f ∷ fs) = ground (arith, update_if-length fs)

  update_if-bytes : (fs : List Frame) → sum_by get_size (update_if p g fs) ≡ sum_by get_size fs
  update_if-bytes [] = refl
  update_if-bytes (f ∷ fs) = ground (arith, update_if-bytes fs, kd f)

  update_if-fits :
      (limit : ℕ) (fs : List Frame) → All (FitsIn limit) fs → All (FitsIn limit) (update_if p g fs)
  update_if-fits limit [] h = h
  update_if-fits limit (f ∷ fs) h = ground (arith, update_if-fits limit fs h.1, kd f)

update_frame-IsValid :
    (b : Buffer) (handle : ℕ) (g : Frame → Frame)
    → KeepsData g
    → IsValid b
    → IsValid (update_frame b handle g)
update_frame-IsValid b handle g kd v = record {
  bytes_counted = omega (arith, update_if-bytes (has_handle handle) g kd b.frames);
  samples_counted = omega (arith, update_if-length (has_handle handle) g kd b.frames);
  samples_limited = v.samples_limited;
  bytes_limited = v.bytes_limited;
  limit_small = v.limit_small;
  samples_small = v.samples_small;
  samples_fit =
      update_if-fits (has_handle handle) g kd b.max_bytes_per_sample b.frames v.samples_fit;
}

-- What a search that succeeds says of the map.
pub find_buffer_and_frame-found :
    (m : BufferManager) (key handle : ℕ) (b : Buffer) (f : Frame)
    → find_buffer_and_frame m key handle ≡ some (b, f)
    → (lookup key m.buffers ≡ some b) × (find_if (has_handle handle) b.frames ≡ some f)
unfolding find_buffer_and_frame
find_buffer_and_frame-found m key handle b f h = ground arith

-- The counter of samples accessed by the sender is no part of the accounting.
recount_accessed-IsConsistent :
    (m : BufferManager) (n : ℕ)
    → IsConsistent m
    → IsConsistent (record m { num_of_samples_accessed_by_sender = n })
recount_accessed-IsConsistent m n c = record {
  memory_small = c.memory_small;
  used_counted = c.used_counted;
  footprint_counted = c.footprint_counted;
  reserved_counted = c.reserved_counted;
  samples_counted = c.samples_counted;
  footprint_limited = c.footprint_limited;
  samples_small = c.samples_small;
  entries = c.entries;
}

-- A buffer that differs only in the count of its loans is as valid.
recount_loans-IsValid :
    (b : Buffer) (n : ℕ) → IsValid b → IsValid (record b { num_of_samples_accessed_by_sender = n })
recount_loans-IsValid b n v = record {
  bytes_counted = v.bytes_counted;
  samples_counted = v.samples_counted;
  samples_limited = v.samples_limited;
  bytes_limited = v.bytes_limited;
  limit_small = v.limit_small;
  samples_small = v.samples_small;
  samples_fit = v.samples_fit;
}

module _ (m : BufferManager) (c : IsConsistent m) (key handle : ℕ) (b : Buffer) (g : Frame → Frame)
    (kd : KeepsData g) (found : lookup key m.buffers ≡ some b) (n accessed : ℕ) where
  -- A write to a frame, with any count of loans.
  written-Keeps : Keeps m (
      store
        (record m { num_of_samples_accessed_by_sender = accessed })
        key
        (update_frame (record b { num_of_samples_accessed_by_sender = n }) handle g))
  written-Keeps = record {
    consistent =
        store-IsConsistent (recount_accessed-IsConsistent m accessed c) key b found _
          (update_frame-IsValid _ handle g kd
            (recount_loans-IsValid b n (found-IsEntry c key b found).0))
          refl refl refl refl;
    memory_kept = refl;
    config_kept = refl;
    samples_kept = omega arith;
  }

module _ (m : BufferManager) (c : IsConsistent m) (key : ℕ) (b : Buffer) (g : Frame → Frame)
    (kd : KeepsData g) (found : lookup key m.buffers ≡ some b) (n accessed : ℕ) (f : Frame) where
  -- Giving up a reference may delete the frame, and with it a buffer that is to go.
  released-Keeps : Returns (Keeps m) (
      release_frame
        (record m { num_of_samples_accessed_by_sender = accessed })
        key
        (record b { num_of_samples_accessed_by_sender = n })
        f
        g)
  unfolding release_frame
  released-Keeps =
      let w = written-Keeps m c key f.handle_id b g kd found n accessed in
      let b' = update_frame (record b { num_of_samples_accessed_by_sender = n }) f.handle_id g in
      let m' = store (record m { num_of_samples_accessed_by_sender = accessed }) key b' in
      Returns-map (Keeps m') (Keeps m) (delete_unused m' key b' (g f)) (λ m'' h. Keeps-trans w h)
        (delete_unused-Keeps w.consistent key b' (lookup-store m key b') (g f))

-- `borrowFrame` leaves a consistent state.
pub borrow_frame-Keeps :
    (m : BufferManager) (type_id handle : ℕ)
    → IsConsistent m
    → Keeps m (borrow_frame m type_id handle).1
unfolding borrow_frame
borrow_frame-Keeps m type_id handle c =
    elim (Option-cases (find_buffer_and_frame m type_id handle)) [
      | inl e ↦ rw (e, borrow_frame) (Keeps-refl c)
      | inr ((b, f), e) ↦
          rw (e, borrow_frame)
            (ground (
              arith,
              Keeps-refl c,
              written-Keeps m c type_id handle b borrowed (λ f'. refl)
                  (find_buffer_and_frame-found m type_id handle b f e).0
                  (add64 b.num_of_samples_accessed_by_sender 1)
                  (add64 m.num_of_samples_accessed_by_sender 1),
            ))
    ]

-- `increaseHandleUsageHint` leaves a consistent state.
pub increase_handle_usage_hint-Keeps :
    (m : BufferManager) (type_id handle : ℕ) (stage : UsageStage)
    → IsConsistent m
    → Keeps m (increase_handle_usage_hint m type_id handle stage).1
unfolding increase_handle_usage_hint
increase_handle_usage_hint-Keeps m type_id handle stage c =
    elim (Option-cases (find_buffer_and_frame m type_id handle)) [
      | inl e ↦ rw (e, increase_handle_usage_hint) (Keeps-refl c)
      | inr ((b, f), e) ↦
          rw (e, increase_handle_usage_hint)
            (ground (
              arith,
              Keeps-refl c,
              written-Keeps m c type_id handle b (set_hint (stage_index stage) up8) (λ f'. refl)
                  (find_buffer_and_frame-found m type_id handle b f e).0
                  b.num_of_samples_accessed_by_sender m.num_of_samples_accessed_by_sender,
            ))
    ]

-- `returnLoanedFrame` returns in every consistent state, whatever the type and the handle: no
-- assertion fails. It leaves a consistent state with the same config and memory limit and no more
-- samples.
pub return_loaned_frame-Keeps :
    (m : BufferManager) (type_id handle : ℕ)
    → IsConsistent m
    → Returns (Keeps m) (return_loaned_frame m type_id handle)
unfolding return_loaned_frame
return_loaned_frame-Keeps m type_id handle c =
    elim (Option-cases (find_buffer_and_frame m type_id handle)) [
      | inl e ↦ rw (e, return_loaned_frame) (Keeps-refl c)
      | inr ((b, f), e) ↦
          let k = find_buffer_and_frame-found m type_id handle b f e in
          rw (e, return_loaned_frame)
            (released-Keeps m c type_id b returned (λ f'. refl) k.0
              (sub64 b.num_of_samples_accessed_by_sender 1)
              (sub64 m.num_of_samples_accessed_by_sender 1) f)
    ]

abbrev pub KeepsAfter : BufferManager → Bool × BufferManager → Type 0
KeepsAfter m r = Keeps m r.1

-- `decreaseHandleUsageHint` returns in every consistent state, whatever the type, the handle and the
-- stage: no assertion fails. It leaves a consistent state with the same config and memory limit and
-- no more samples.
pub decrease_handle_usage_hint-Keeps :
    (m : BufferManager) (type_id handle : ℕ) (stage : UsageStage)
    → IsConsistent m
    → Returns (KeepsAfter m) (decrease_handle_usage_hint m type_id handle stage)
unfolding decrease_handle_usage_hint
decrease_handle_usage_hint-Keeps m type_id handle stage c =
    elim (Option-cases (find_buffer_and_frame m type_id handle)) [
      | inl e ↦ rw (e, decrease_handle_usage_hint) (Keeps-refl c)
      | inr ((b, f), e) ↦
          let k = find_buffer_and_frame-found m type_id handle b f e in
          let r =
            released-Keeps m c type_id b (set_hint (stage_index stage) down8) (λ f'. refl) k.0
              b.num_of_samples_accessed_by_sender m.num_of_samples_accessed_by_sender f in
          rw (e, decrease_handle_usage_hint)
            (ground (
              arith,
              Keeps-refl c,
              Returns->>= (Keeps m) (KeepsAfter m) _ (λ m'. done (true, m')) r (λ m' h. h),
            ))
    ]
