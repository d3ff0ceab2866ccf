-- ===== src/RawData/Replace.antt =====
-- How an operation of `BufferManager` in src/RawDataManager.cpp changes one buffer: it takes the
-- buffer out of the statistics, changes it, and counts it again.
use aws_iot_fleetwise_edge.Prelude.{
  ℕ, ◌+◌, ◌^◌, ◌≤◌, ◌<◌, ◌≡◌, ◌∙◌, some, arith, lookup, insert, lookup-insert, ==_refl,
  sum_values-insert, sum_values-erase, sum_values_mono, Entries-lookup, Entries-insert,
  Entries-erase,
}
use aws_iot_fleetwise_edge.RawData.Types.{Buffer}
use aws_iot_fleetwise_edge.RawData.Run.{done}
use aws_iot_fleetwise_edge.RawData.Buffer.Bounds.{IsValid}
use aws_iot_fleetwise_edge.RawData.Stats.{
  BufferManager, in_use_and_reserved, subtract_stats, sum_stats, add_buffer_to_stats,
}
use aws_iot_fleetwise_edge.RawData.Manager.{store, discard}
use aws_iot_fleetwise_edge.RawData.Invariant.{
  IsConsistent, IsEntry, used, reserved, samples, share, StatsOk, assert_stats-passes,
  subtract_stats-StatsOk, reserved-le, IsConsistent-StatsOk,
}

-- The manager after the buffer `b` at the key became `b'`.
abbrev pub recounted : BufferManager → ℕ → Buffer → Buffer → BufferManager
recounted m key b b' = sum_stats (store (subtract_stats m b) key b') b'

-- What `b'` must satisfy to take the place of `b`.
pub record Replaces (m : BufferManager) (b b' : Buffer) : Type 0 where
  pub valid : IsValid b'
  pub type_kept : b'.type_id ≡ b.type_id
  pub footprint_fits :
      m.bytes_in_use_and_reserved + in_use_and_reserved b'
      ≤ m.max_overall_memory + in_use_and_reserved b
  pub samples_fit : m.num_of_samples_currently_in_memory + samples b' < 2 ^ 64 + samples b

module _ {m : BufferManager} (c : IsConsistent m) (key : ℕ) (b : Buffer)
    (found : lookup key m.buffers ≡ some b) where
  -- The buffer that a key finds is an entry of its own type.
  pub found-IsEntry : IsEntry key b
  found-IsEntry = Entries-lookup IsEntry key m.buffers b c.entries found

  pub recounted-IsConsistent : {b' : Buffer} → Replaces m b b' → IsConsistent (recounted m key b b')
  recounted-IsConsistent {b'} r = record {
    memory_small = c.memory_small;
    used_counted =
        omega (arith, share c key b found, sum_values-insert used key b' m.buffers b found);
    footprint_counted = omega (
      arith,
      share c key b found,
      sum_values-insert in_use_and_reserved key b' m.buffers b found,
    );
    reserved_counted = omega (
      arith,
      share c key b found,
      sum_values-insert reserved key b' m.buffers b found,
      sum_values_mono reserved in_use_and_reserved reserved-le (insert key b' m.buffers),
      sum_values-insert in_use_and_reserved key b' m.buffers b found,
    );
    samples_counted =
        omega (arith, share c key b found, sum_values-insert samples key b' m.buffers b found);
    footprint_limited = omega (arith, share c key b found);
    samples_small = omega (arith, share c key b found);
    entries =
        Entries-insert IsEntry key b' m.buffers c.entries (r.valid, r.type_kept ∙ found-IsEntry.1);
  }

  -- No assertion of `addBufferToStats` fails for a buffer that fits.
  pub add_buffer_to_stats-passes :
      {b' : Buffer}
      → Replaces m b b'
      → add_buffer_to_stats (store (subtract_stats m b) key b') b' ≡ done (recounted m key b b')
  unfolding add_buffer_to_stats
  add_buffer_to_stats-passes {b'} r = rw (
    assert_stats-passes (store (subtract_stats m b) key b') before,
    assert_stats-passes (recounted m key b b') (IsConsistent-StatsOk (recounted-IsConsistent r)),
  )
    where
      before : StatsOk (store (subtract_stats m b) key b')
      before = omega (arith, subtract_stats-StatsOk c key b found)

  -- A buffer that is taken out of the statistics and of the map.
  pub discard-IsConsistent : IsConsistent (discard (subtract_stats m b) key)
  discard-IsConsistent = record {
    memory_small = c.memory_small;
    used_counted = omega (arith, share c key b found, sum_values-erase used key m.buffers b found);
    footprint_counted =
        omega
          (arith, share c key b found, sum_values-erase in_use_and_reserved key m.buffers b found);
    reserved_counted = omega (
      arith,
      share c key b found,
      sum_values-erase reserved key m.buffers b found,
      IsConsistent-StatsOk c,
    );
    samples_counted =
        omega (arith, share c key b found, sum_values-erase samples key m.buffers b found);
    footprint_limited = omega (arith, share c key b found);
    samples_small = omega (arith, share c key b found);
    entries = Entries-erase IsEntry key m.buffers c.entries;
  }

  -- A write that leaves the sizes alone.
  pub store-IsConsistent :
      (b' : Buffer)
      → IsValid b'
      → b'.type_id ≡ b.type_id
      → used b' ≡ used b
      → reserved b' ≡ reserved b
      → samples b' ≡ samples b
      → IsConsistent (store m key b')
  store-IsConsistent b' v t u r s = record {
    memory_small = c.memory_small;
    used_counted = omega (arith, c, sum_values-insert used key b' m.buffers b found);
    footprint_counted =
        omega (arith, c, sum_values-insert in_use_and_reserved key b' m.buffers b found);
    reserved_counted = omega (arith, c, sum_values-insert reserved key b' m.buffers b found);
    samples_counted = omega (arith, c, sum_values-insert samples key b' m.buffers b found);
    footprint_limited = c.footprint_limited;
    samples_small = c.samples_small;
    entries = Entries-insert IsEntry key b' m.buffers c.entries (v, t ∙ found-IsEntry.1);
  }

-- What a write stores is what the key finds.
pub lookup-store :
    (m : BufferManager) (key : ℕ) (b : Buffer) → lookup key (store m key b).buffers ≡ some b
lookup-store m key b = rw (lookup-insert key key b m.buffers, ==_refl key)
