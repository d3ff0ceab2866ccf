-- ===== src/RawData/Invariant.antt =====
-- The accounting of `BufferManager` in src/RawDataManager.cpp: the consistent states, and the
-- assertions of `deleteBufferFromStats`.
use aws_iot_fleetwise_edge.Prelude.{
  ℕ, ◌+◌, ◌^◌, ◌≤◌, ◌<◌, ◌≡◌, some, arith, lookup, sum_values, sum_values_mono,
  sum_values_mono_rest, le-sum_values, Entries,
}
use aws_iot_fleetwise_edge.RawData.Types.{Buffer}
use aws_iot_fleetwise_edge.RawData.Run.{done}
use aws_iot_fleetwise_edge.RawData.Buffer.Bounds.{IsValid}
use aws_iot_fleetwise_edge.RawData.Stats.{
  BufferManager, in_use_and_reserved, assert_stats, assert_contains, subtract_stats,
  delete_buffer_from_stats,
}

abbrev pub used : Buffer → ℕ
used b = b.bytes_in_use

abbrev pub reserved : Buffer → ℕ
reserved b = b.reserved_bytes

abbrev pub samples : Buffer → ℕ
samples b = b.num_of_samples_currently_in_memory

abbrev pub IsEntry : ℕ → Buffer → Type 0
IsEntry key b = IsValid b × (b.type_id ≡ key)

pub record IsConsistent (m : BufferManager) : Type 0 where
  pub memory_small : m.max_overall_memory < 2 ^ 63
  pub used_counted : m.bytes_in_use ≡ sum_values used m.buffers
  pub footprint_counted : m.bytes_in_use_and_reserved ≡ sum_values in_use_and_reserved m.buffers
  pub reserved_counted : m.bytes_reserved ≡ sum_values reserved m.buffers
  pub samples_counted : m.num_of_samples_currently_in_memory ≡ sum_values samples m.buffers
  pub footprint_limited : m.bytes_in_use_and_reserved ≤ m.max_overall_memory
  pub samples_small : m.num_of_samples_currently_in_memory < 2 ^ 64
  pub entries : Entries IsEntry m.buffers

pub used-le : (b : Buffer) → used b ≤ in_use_and_reserved b
used-le b = omega arith

pub reserved-le : (b : Buffer) → reserved b ≤ in_use_and_reserved b
reserved-le b = omega arith

-- The inequalities that `assert_stats` tests.
pub record StatsOk (m : BufferManager) : Type 0 where
  pub used_within : m.bytes_in_use ≤ m.max_overall_memory
  pub footprint_within : m.bytes_in_use_and_reserved ≤ m.max_overall_memory
  pub reserved_within : m.bytes_reserved ≤ m.max_overall_memory
  pub used_below : m.bytes_in_use ≤ m.bytes_in_use_and_reserved
  pub reserved_below : m.bytes_reserved ≤ m.bytes_in_use_and_reserved

pub assert_stats-passes : (m : BufferManager) → StatsOk m → assert_stats m ≡ done tt
unfolding assert_stats
assert_stats-passes m h = ground arith

pub IsConsistent-StatsOk : {m : BufferManager} → IsConsistent m → StatsOk m
IsConsistent-StatsOk {m} c = omega (
  arith,
  sum_values_mono used in_use_and_reserved used-le m.buffers,
  sum_values_mono reserved in_use_and_reserved reserved-le m.buffers,
)

module _ {m : BufferManager} (c : IsConsistent m) (key : ℕ) (b : Buffer)
    (found : lookup key m.buffers ≡ some b) where
  -- The buffer's share of the statistics, and that the rest is still ordered.
  pub record HasShare : Type 0 where
    pub used_share : used b ≤ m.bytes_in_use
    pub footprint_share : in_use_and_reserved b ≤ m.bytes_in_use_and_reserved
    pub reserved_share : reserved b ≤ m.bytes_reserved
    pub samples_share : samples b ≤ m.num_of_samples_currently_in_memory
    pub used_rest : m.bytes_in_use + in_use_and_reserved b ≤ m.bytes_in_use_and_reserved + used b
    pub reserved_rest :
        m.bytes_reserved + in_use_and_reserved b ≤ m.bytes_in_use_and_reserved + reserved b

  pub share : HasShare
  share = record {
    used_share = omega (arith, le-sum_values used key m.buffers b found);
    footprint_share = omega (arith, le-sum_values in_use_and_reserved key m.buffers b found);
    reserved_share = omega (arith, le-sum_values reserved key m.buffers b found);
    samples_share = omega (arith, le-sum_values samples key m.buffers b found);
    used_rest =
        omega (arith, sum_values_mono_rest used in_use_and_reserved used-le key m.buffers b found);
    reserved_rest = omega (
      arith,
      sum_values_mono_rest reserved in_use_and_reserved reserved-le key m.buffers b found,
    );
  }

  assert_contains-passes : assert_contains m b ≡ done tt
  unfolding assert_contains
  assert_contains-passes = ground (arith, share)

  pub subtract_stats-StatsOk : StatsOk (subtract_stats m b)
  subtract_stats-StatsOk = omega (arith, share, IsConsistent-StatsOk c)

  -- No assertion of `deleteBufferFromStats` fails for a buffer of the map.
  pub delete_buffer_from_stats-passes : delete_buffer_from_stats m b ≡ done (subtract_stats m b)
  unfolding delete_buffer_from_stats
  delete_buffer_from_stats-passes = rw (
    assert_stats-passes m (IsConsistent-StatsOk c),
    assert_contains-passes,
    assert_stats-passes (subtract_stats m b) subtract_stats-StatsOk,
  )
