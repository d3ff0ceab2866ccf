-- ===== src/RawData/Safety.antt =====
-- `deleteUnused` of `BufferManager` in src/RawDataManager.cpp, and its assertions.
use aws_iot_fleetwise_edge.Prelude.{
  ℕ, ◌≤◌, ◌≡◌, refl, ◌∙◌, not, ◌&&◌, ◌||◌, some, arith, lookup, ◌==◌, Bool-cases, Option-cases, inl,
  inr, find_if, sum_by-erase_if, length-erase_if,
}
use aws_iot_fleetwise_edge.RawData.Types.{Buffer, Frame, has_usage_hints, get_size}
use aws_iot_fleetwise_edge.RawData.Run.{Returns, Returns-map}
use aws_iot_fleetwise_edge.RawData.Buffer.{delete_data_from_handle, has_handle}
use aws_iot_fleetwise_edge.RawData.Buffer.Bounds.{IsValid, drop_frame-IsValid}
use aws_iot_fleetwise_edge.RawData.Stats.{BufferManager, subtract_stats}
use aws_iot_fleetwise_edge.RawData.Manager.{discard}
use aws_iot_fleetwise_edge.RawData.Usage.{drop_if_empty, delete_handle, delete_unused}
use aws_iot_fleetwise_edge.RawData.Invariant.{
  IsConsistent, used, samples, delete_buffer_from_stats-passes, share,
}
use aws_iot_fleetwise_edge.RawData.Replace.{
  Replaces, recounted, recounted-IsConsistent, add_buffer_to_stats-passes, found-IsEntry,
  discard-IsConsistent, lookup-store,
}

-- A consistent state, under the same limit.
pub record Keeps (m m' : BufferManager) : Type 0 where
  pub consistent : IsConsistent m'
  pub memory_kept : m'.max_overall_memory ≡ m.max_overall_memory
  pub config_kept : m'.config ≡ m.config
  pub samples_kept : m'.num_of_samples_currently_in_memory ≤ m.num_of_samples_currently_in_memory

pub Keeps-refl : {m : BufferManager} → IsConsistent m → Keeps m m
Keeps-refl c = record {
  consistent = c;
  memory_kept = refl;
  config_kept = refl;
  samples_kept = omega arith;
}

pub Keeps-trans : {a b c : BufferManager} → Keeps a b → Keeps b c → Keeps a c
Keeps-trans h k = record {
  consistent = k.consistent;
  memory_kept = k.memory_kept ∙ h.memory_kept;
  config_kept = k.config_kept ∙ h.config_kept;
  samples_kept = omega arith;
}

module _ (b : Buffer) (handle : ℕ) (v : IsValid b) where
  pub delete_data-IsValid : IsValid (delete_data_from_handle b handle).1
  unfolding delete_data_from_handle
  delete_data-IsValid = elim (Option-cases (find_if (has_handle handle) b.frames)) [
    | inl e ↦ rw (e, delete_data_from_handle) v
    | inr (f, e) ↦ rw (e, delete_data_from_handle) (drop_frame-IsValid b (has_handle handle) f e v)
  ]

  record Smaller (b' : Buffer) : Type 0 where
    type_kept : b'.type_id ≡ b.type_id
    reserved_kept : b'.reserved_bytes ≡ b.reserved_bytes
    used_less : used b' ≤ used b
    samples_less : samples b' ≤ samples b

  delete_data-Smaller : Smaller (delete_data_from_handle b handle).1
  unfolding delete_data_from_handle
  delete_data-Smaller = elim (Option-cases (find_if (has_handle handle) b.frames)) [
    | inl e ↦ rw (e, delete_data_from_handle) (ground arith)
    | inr (f, e) ↦
        rw (e, delete_data_from_handle)
          (ground (
            arith,
            sum_by-erase_if get_size (has_handle handle) b.frames f e,
            length-erase_if (has_handle handle) b.frames f e,
          ))
  ]

module _ {m : BufferManager} (c : IsConsistent m) (key : ℕ) (b : Buffer)
    (found : lookup key m.buffers ≡ some b) where
  pub discard-Keeps : Keeps m (discard (subtract_stats m b) key)
  discard-Keeps = record {
    consistent = discard-IsConsistent c key b found;
    memory_kept = refl;
    config_kept = refl;
    samples_kept = omega (arith, c, share c key b found);
  }

  drop_if_empty-Keeps : Returns (Keeps m) (drop_if_empty m b)
  unfolding drop_if_empty
  drop_if_empty-Keeps =
      elim (Bool-cases (b.num_of_samples_currently_in_memory == 0 && b.deleting)) [
        | inr e ↦ rw e (Keeps-refl c)
        | inl e ↦
            rw (e, delete_buffer_from_stats-passes c key b found, (found-IsEntry c key b found).1)
              discard-Keeps
      ]

module _ {m : BufferManager} (c : IsConsistent m) (key : ℕ) (b : Buffer)
    (found : lookup key m.buffers ≡ some b) where
  pub deleted-Replaces : (handle : ℕ) → Replaces m b (delete_data_from_handle b handle).1
  deleted-Replaces handle =
      let v = (found-IsEntry c key b found).0 in
      let s = delete_data-Smaller b handle v in
      record {
        valid = delete_data-IsValid b handle v;
        type_kept = s.type_kept;
        footprint_fits = omega (arith, c, s);
        samples_fit = omega (arith, c, s);
      }

  pub recounted-Keeps :
      {b' : Buffer} → Replaces m b b' → samples b' ≤ samples b → Keeps m (recounted m key b b')
  recounted-Keeps r s = record {
    consistent = recounted-IsConsistent c key b found r;
    memory_kept = refl;
    config_kept = refl;
    samples_kept = omega (arith, c, share c key b found);
  }

  pub delete_handle-Keeps : (handle : ℕ) → Returns (Keeps m) (delete_handle m key b handle)
  unfolding delete_handle
  delete_handle-Keeps handle =
      let b' = (delete_data_from_handle b handle).1 in
      let r = deleted-Replaces handle in
      let k =
        recounted-Keeps r
          (delete_data-Smaller b handle (found-IsEntry c key b found).0).samples_less in
      rw (delete_buffer_from_stats-passes c key b found, add_buffer_to_stats-passes c key b found r)
        (Returns-map (Keeps (recounted m key b b')) (Keeps m)
          (drop_if_empty (recounted m key b b') b') (λ m' h. Keeps-trans k h)
          (drop_if_empty-Keeps k.consistent key b' (lookup-store (subtract_stats m b) key b')))

  -- `deleteUnused` never aborts on a buffer of the map.
  pub delete_unused-Keeps : (f : Frame) → Returns (Keeps m) (delete_unused m key b f)
  unfolding delete_unused
  delete_unused-Keeps f =
      elim (Bool-cases (not (f.data_in_use_counter == 0) || has_usage_hints f)) [
        | inl e ↦ rw e (Keeps-refl c)
        | inr e ↦ rw e (delete_handle-Keeps f.handle_id)
      ]
