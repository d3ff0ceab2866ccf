-- ===== src/RawData/Reset.antt =====
-- `BufferManager::resetUsageHintsForStage` of src/RawDataManager.cpp, and the indices that it computes
-- while frames and buffers go away.
use aws_iot_fleetwise_edge.Prelude.{
  ℕ, zero, suc, ◌+◌, ◌^◌, ◌≤◌, ◌<◌, ◌≡◌, refl, ap, not, ◌&&◌, ◌||◌, some, arith, List, [], ◌∷◌,
  lookup, ◌==◌, Bool-cases, Option-cases, inl, inr, length, sub64, find_if, length-erase_if, ◌⊎◌,
  All, sum_by, get_elem?, set, keys,
}
use aws_iot_fleetwise_edge.RawData.Types.{
  Buffer, Frame, stage_index, UsageStage, get_size, has_usage_hints,
}
use aws_iot_fleetwise_edge.RawData.Run.{Returns, Returns->>=, Returns-map, Returns-×}
use aws_iot_fleetwise_edge.RawData.Buffer.{has_handle, delete_data_from_handle}
use aws_iot_fleetwise_edge.RawData.Buffer.Bounds.{IsValid, FitsIn}
use aws_iot_fleetwise_edge.RawData.Stats.{BufferManager, subtract_stats}
use aws_iot_fleetwise_edge.RawData.Manager.{store}
use aws_iot_fleetwise_edge.RawData.Usage.{
  delete_unused, delete_handle, drop_if_empty, set_hint, reset_frame, reset_frames, reset_buffers,
  size_of, reset_usage_hints_for_stage,
}
use aws_iot_fleetwise_edge.RawData.Invariant.{IsConsistent, delete_buffer_from_stats-passes}
use aws_iot_fleetwise_edge.RawData.Replace.{
  found-IsEntry, store-IsConsistent, lookup-store, add_buffer_to_stats-passes,
  recounted-IsConsistent,
}
use aws_iot_fleetwise_edge.RawData.Safety.{
  Keeps, Keeps-refl, Keeps-trans, delete_unused-Keeps, deleted-Replaces,
}

-- How many frames a deletion leaves of `size`: all but one at the least, unless that was the last.
abbrev LosesOne : ℕ → ℕ → Type 0
LosesOne size size' = (size ≤ 1) ⊎ ((size' ≤ size) × (size ≤ size' + 1))

abbrev LosesOneAt : ℕ → ℕ → BufferManager → Type 0
LosesOneAt key size m = LosesOne size (size_of m key)

delete_data-length :
    (b : Buffer) (handle : ℕ)
    → let b' = (delete_data_from_handle b handle).1 in
      (length b'.frames ≤ length b.frames) × (length b.frames ≤ length b'.frames + 1)
unfolding delete_data_from_handle
delete_data-length b handle = elim (Option-cases (find_if (has_handle handle) b.frames)) [
  | inl e ↦ rw (e, delete_data_from_handle) (omega arith)
  | inr (f, e) ↦
      rw (e, delete_data_from_handle)
        (omega (arith, length-erase_if (has_handle handle) b.frames f e))
]

size_of-found :
    (m : BufferManager) (key : ℕ) (b : Buffer)
    → lookup key m.buffers ≡ some b
    → size_of m key ≡ length b.frames
size_of-found m key b e = rw (e, size_of)

module _ {m : BufferManager} (c : IsConsistent m) (key : ℕ) (b : Buffer)
    (found : lookup key m.buffers ≡ some b) where
  drop_if_empty-LosesOne :
      (size : ℕ)
      → length b.frames ≤ size
      → size ≤ length b.frames + 1
      → Returns (LosesOneAt key size) (drop_if_empty m b)
  unfolding drop_if_empty
  drop_if_empty-LosesOne size lo hi =
      elim (Bool-cases (b.num_of_samples_currently_in_memory == 0 && b.deleting)) [
        | inr e ↦ rw e (inr (omega (arith, size_of-found m key b found)))
        | inl e ↦
            let v = (found-IsEntry c key b found).0 in
            let z : b.num_of_samples_currently_in_memory ≡ 0 = ground arith in
            rw (e, delete_buffer_from_stats-passes c key b found)
              (inl (omega (arith, v.samples_counted)))
      ]

module _ {m : BufferManager} (c : IsConsistent m) (key : ℕ) (b : Buffer)
    (found : lookup key m.buffers ≡ some b) where
  delete_handle-LosesOne :
      (handle : ℕ) → Returns (LosesOneAt key (length b.frames)) (delete_handle m key b handle)
  unfolding delete_handle
  delete_handle-LosesOne handle =
      let b' = (delete_data_from_handle b handle).1 in
      let r = deleted-Replaces c key b found handle in
      let l = delete_data-length b handle in
      rw (delete_buffer_from_stats-passes c key b found, add_buffer_to_stats-passes c key b found r)
        (drop_if_empty-LosesOne (recounted-IsConsistent c key b found r) key b'
          (lookup-store (subtract_stats m b) key b') (length b.frames) l.0 l.1)

  delete_unused-LosesOne :
      (f : Frame) → Returns (LosesOneAt key (length b.frames)) (delete_unused m key b f)
  unfolding delete_unused
  delete_unused-LosesOne f =
      elim (Bool-cases (not (f.data_in_use_counter == 0) || has_usage_hints f)) [
        | inl e ↦ rw e (inr (omega (arith, size_of-found m key b found)))
        | inr e ↦ rw e (delete_handle-LosesOne f.handle_id)
      ]

module _ (g : Frame → Frame) (kd : (f : Frame) → (g f).raw_data ≡ f.raw_data) where
  set-length : (fs : List Frame) (i : ℕ) (f : Frame) → length (set fs i f) ≡ length fs
  set-length [] i f = refl
  set-length (x ∷ fs) zero f = refl
  set-length (x ∷ fs) (suc i) f = ap suc (set-length fs i f)

  set-bytes :
      (fs : List Frame) (i : ℕ) (f : Frame)
      → get_elem? fs i ≡ some f
      → sum_by get_size (set fs i (g f)) ≡ sum_by get_size fs
  set-bytes [] i f h = refl
  set-bytes (x ∷ fs) zero f h = ground (arith, kd f)
  set-bytes (x ∷ fs) (suc i) f h = omega (arith, set-bytes fs i f h)

  set-fits :
      (limit : ℕ) (fs : List Frame) (i : ℕ) (f : Frame)
      → get_elem? fs i ≡ some f
      → All (FitsIn limit) fs
      → All (FitsIn limit) (set fs i (g f))
  set-fits limit [] i f h a = a
  set-fits limit (x ∷ fs) zero f h a = ground (arith, kd f)
  set-fits limit (x ∷ fs) (suc i) f h a = (a.0, set-fits limit fs i f h a.1)

  set-IsValid :
      (b : Buffer) (i : ℕ) (f : Frame)
      → get_elem? b.frames i ≡ some f
      → IsValid b
      → IsValid (record b { frames = set b.frames i (g f) })
  set-IsValid b i f h v = record {
    bytes_counted = omega (arith, v, set-bytes b.frames i f h);
    samples_counted = omega (arith, v, set-length b.frames i (g f));
    samples_limited = v.samples_limited;
    bytes_limited = v.bytes_limited;
    limit_small = v.limit_small;
    samples_small = v.samples_small;
    samples_fit = set-fits b.max_bytes_per_sample b.frames i f h v.samples_fit;
  }

get_elem?-within :
    (fs : List Frame) (i : ℕ) → i < length fs → (f : Frame) × (get_elem? fs i ≡ some f)
get_elem?-within [] i h = absurd (omega arith)
get_elem?-within (x ∷ fs) zero h = (x, refl)
get_elem?-within (x ∷ fs) (suc i) h = get_elem?-within fs i (omega arith)

LosesOne-same : (s t u : ℕ) → s ≡ t → LosesOne t u → LosesOne s u
LosesOne-same s t u e h = rw e h

-- What a round leaves: the accounting, and all frames of the buffer but at most one.
abbrev RoundLeaves : BufferManager → ℕ → BufferManager → Type 0
RoundLeaves m key m' = Keeps m m' × LosesOneAt key (size_of m key) m'

size_of-positive :
    (m : BufferManager) (key index : ℕ)
    → index < size_of m key
    → (b : Buffer) × (lookup key m.buffers ≡ some b)
size_of-positive m key index h = elim (Option-cases (lookup key m.buffers)) [
  | inl e ↦ absurd (omega (arith, rw (e, size_of) at h))
  | inr p ↦ p
]

reset_frame-lem :
    (m : BufferManager) (key i index : ℕ)
    → IsConsistent m
    → index < size_of m key
    → Returns (RoundLeaves m key) (reset_frame m key i index)
unfolding reset_frame
reset_frame-lem m key i index c h =
    let (b, found) = size_of-positive m key index h in
    let s = size_of-found m key b found in
    let (f, at) = get_elem?-within b.frames index (omega (arith, s)) in
    let g = set_hint i (λ _. 0) in
    let b' : Buffer = record b { frames = set b.frames index (g f) } in
    let w : Keeps m (store m key b') = record {
      consistent =
          store-IsConsistent c key b found b'
            (set-IsValid g (λ _. refl) b index f at (found-IsEntry c key b found).0) refl refl refl
            refl;
      memory_kept = refl;
      config_kept = refl;
      samples_kept = omega arith;
    } in
    let r =
      Returns-× (Keeps (store m key b')) (LosesOneAt key (length b'.frames))
        (delete_unused (store m key b') key b' (g f))
        (delete_unused-Keeps w.consistent key b' (lookup-store m key b') (g f))
        (delete_unused-LosesOne w.consistent key b' (lookup-store m key b') (g f)) in
    let l = set-length g (λ _. refl) b.frames index (g f) in
    rw (found, reset_frame, at)
      (Returns-map _ (RoundLeaves m key) (delete_unused (store m key b') key b' (g f))
        (λ m' p. (
          Keeps-trans w p.0,
          LosesOne-same (size_of m key) (length b'.frames) (size_of m' key) (omega (arith, s, l))
              p.1,
        ))
        r)

-- The rounds left are frames of the buffer, none of them behind the index.
abbrev InStep : ℕ → ℕ → ℕ → Type 0
InStep n initial_size size = (n ≡ 0) ⊎ ((n ≤ size) × (size ≤ initial_size))

reset_frames-lem :
    (n initial_size : ℕ) (m : BufferManager) (key i stage : ℕ)
    → IsConsistent m
    → i + n ≡ initial_size
    → initial_size < 2 ^ 64
    → InStep n initial_size (size_of m key)
    → Returns (Keeps m) (reset_frames n initial_size m key i stage)
unfolding reset_frames
reset_frames-lem zero initial_size m key i stage c e u s = Keeps-refl c
reset_frames-lem (suc n) initial_size m key i stage c e u s =
    Returns->>= (RoundLeaves m key) (Keeps m)
      (reset_frame m key stage (sub64 i (sub64 initial_size (size_of m key))))
      (λ m'. reset_frames n initial_size m' key (i + 1) stage)
      (reset_frame-lem m key stage (sub64 i (sub64 initial_size (size_of m key))) c (omega arith))
      (λ m' p.
        Returns-map (Keeps m') (Keeps m) (reset_frames n initial_size m' key (i + 1) stage)
          (λ m'' k. Keeps-trans p.0 k)
          (reset_frames-lem n initial_size m' key (i + 1) stage p.0.consistent (omega arith) u
            (next m' p.1)))
  where
    next :
        (m' : BufferManager)
        → LosesOneAt key (size_of m key) m'
        → InStep n initial_size (size_of m' key)
    next m' (inl l) = inl (omega arith)
    next m' (inr l) = inr (omega arith)

size_of-small : (m : BufferManager) (key : ℕ) → IsConsistent m → size_of m key < 2 ^ 64
size_of-small m key c = elim (Option-cases (lookup key m.buffers)) [
  | inl e ↦ rw (e, size_of) (omega arith)
  | inr (b, e) ↦ omega (arith, size_of-found m key b e, (found-IsEntry c key b e).0)
]

reset_buffers-Keeps :
    (ks : List ℕ) (m : BufferManager) (stage : ℕ)
    → IsConsistent m
    → Returns (Keeps m) (reset_buffers ks m stage)
unfolding reset_buffers
reset_buffers-Keeps [] m stage c = Keeps-refl c
reset_buffers-Keeps (key ∷ ks) m stage c =
    Returns->>= (Keeps m) (Keeps m) (reset_frames (size_of m key) (size_of m key) m key 0 stage)
      (λ m'. reset_buffers ks m' stage)
      (reset_frames-lem (size_of m key) (size_of m key) m key 0 stage c (omega arith)
        (size_of-small m key c) (inr (omega arith)))
      (λ m' k.
        Returns-map (Keeps m') (Keeps m) (reset_buffers ks m' stage) (λ m'' k'. Keeps-trans k k')
          (reset_buffers-Keeps ks m' stage k.consistent))

-- `resetUsageHintsForStage` returns in every consistent state, for every stage: while frames and
-- buffers go away under the loop no index is out of range and no assertion fails, and the state that
-- it leaves is consistent.
pub reset_usage_hints_for_stage-Keeps :
    (m : BufferManager) (stage : UsageStage)
    → IsConsistent m
    → Returns (Keeps m) (reset_usage_hints_for_stage m stage)
unfolding reset_usage_hints_for_stage
reset_usage_hints_for_stage-Keeps m stage c =
    ground (arith, Keeps-refl c, reset_buffers-Keeps (keys m.buffers) m (stage_index stage) c)
