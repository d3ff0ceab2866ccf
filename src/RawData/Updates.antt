-- ===== src/RawData/Updates.antt =====
-- `addRawDataToBuffer` of `BufferManager` in src/RawDataManager.cpp, and its assertions.
use aws_iot_fleetwise_edge.Prelude.{
  ℕ, zero, suc, ◌+◌, ◌^◌, ◌≤◌, ◌<◌, ◌≡◌, refl, Bool, true, false, some, none, arith, lookup,
  Bool-cases, inl, inr, add64, ltb, leb, sum_values-insert_new, Entries-insert,
}
use aws_iot_fleetwise_edge.RawData.Types.{
  Buffer, SignalConfig, new_buffer, BufferErrorCode, successful, out_of_memory,
}
use aws_iot_fleetwise_edge.RawData.Run.{done, aborted}
use aws_iot_fleetwise_edge.RawData.Buffer.{delete_all_unused, delete_unused_data}
use aws_iot_fleetwise_edge.RawData.Buffer.Bounds.{
  IsValid, Deletes, Deletes-refl, Deletes-trans, delete_unused_data-Deletes,
}
use aws_iot_fleetwise_edge.RawData.Stats.{
  BufferManager, sum_stats, add_buffer_to_stats, in_use_and_reserved, check_memory_limit,
  assert_stats,
}
use aws_iot_fleetwise_edge.RawData.Manager.{store}
use aws_iot_fleetwise_edge.RawData.Update.{add_raw_data_to_buffer}
use aws_iot_fleetwise_edge.RawData.Invariant.{
  IsConsistent, IsEntry, used, reserved, samples, assert_stats-passes, IsConsistent-StatsOk,
}
use aws_iot_fleetwise_edge.RawData.Replace.{found-IsEntry, store-IsConsistent}
use aws_iot_fleetwise_edge.RawData.Safety.{Keeps}

pub delete_all_unused-Deletes : (n : ℕ) (b : Buffer) → IsValid b → Deletes b (delete_all_unused n b)
unfolding delete_all_unused
delete_all_unused-Deletes zero b v = Deletes-refl v
delete_all_unused-Deletes (suc n) b v =
    let d = (delete_unused_data-Deletes b v).0 in
    elim (Bool-cases (delete_unused_data b).0) [
      | inl e ↦
          rw e (Deletes-trans d (delete_all_unused-Deletes n (delete_unused_data b).1 d.valid))
      | inr e ↦ rw e d
    ]

assert_stats-fails :
    (m : BufferManager)
    → m.max_overall_memory < m.bytes_in_use_and_reserved
    → assert_stats m ≡ aborted
unfolding assert_stats
assert_stats-fails m h = ground arith

-- A config that a buffer of this manager may have.
pub record IsAllowed (m : BufferManager) (config : SignalConfig) : Type 0 where
  pub total_small : config.max_overall_bytes < 2 ^ 63
  pub samples_small : config.max_num_of_samples < 2 ^ 64

module _ (m : BufferManager) (config : SignalConfig) (c : IsConsistent m) (a : IsAllowed m config)
    (new : lookup config.type_id m.buffers ≡ none) where
  extended : BufferManager
  extended = sum_stats (store m config.type_id (new_buffer config)) (new_buffer config)

  extended-IsConsistent :
      config.reserved_bytes + m.bytes_in_use_and_reserved ≤ m.max_overall_memory
      → IsConsistent extended
  unfolding extended
  extended-IsConsistent h = record {
    memory_small = c.memory_small;
    used_counted = omega (
      arith,
      c,
      IsConsistent-StatsOk c,
      sum_values-insert_new used config.type_id (new_buffer config) m.buffers new,
    );
    footprint_counted = omega (
      arith,
      c,
      sum_values-insert_new in_use_and_reserved config.type_id (new_buffer config) m.buffers new,
    );
    reserved_counted = omega (
      arith,
      c,
      IsConsistent-StatsOk c,
      sum_values-insert_new reserved config.type_id (new_buffer config) m.buffers new,
    );
    samples_counted =
        omega (
          arith,
          c,
          sum_values-insert_new samples config.type_id (new_buffer config) m.buffers new,
        );
    footprint_limited = omega (arith, c);
    samples_small = omega (arith, c);
    entries =
        Entries-insert IsEntry config.type_id (new_buffer config) m.buffers c.entries
          (omega (arith, a), refl);
  }

  add_stats-passes :
      config.reserved_bytes + m.bytes_in_use_and_reserved ≤ m.max_overall_memory
      → add_buffer_to_stats (store m config.type_id (new_buffer config)) (new_buffer config)
        ≡ done extended
  unfolding add_buffer_to_stats extended
  add_stats-passes h = rw (
    assert_stats-passes (store m config.type_id (new_buffer config))
        (omega (arith, IsConsistent-StatsOk c)),
    assert_stats-passes _ (IsConsistent-StatsOk (extended-IsConsistent h)),
  )

abbrev pub Added : BufferManager → BufferErrorCode × BufferManager → Type 0
Added m r = Keeps m r.1

revived-IsValid : (b : Buffer) (d : Bool) → IsValid b → IsValid (record b { deleting = d })
revived-IsValid b d v = record {
  bytes_counted = v.bytes_counted;
  samples_counted = v.samples_counted;
  samples_limited = v.samples_limited;
  bytes_limited = v.bytes_limited;
  limit_small = v.limit_small;
  samples_small = v.samples_small;
  samples_fit = v.samples_fit;
}

pub marked-Keeps :
    {m : BufferManager} (c : IsConsistent m) (key : ℕ) (b : Buffer) (d : Bool)
    → lookup key m.buffers ≡ some b
    → Keeps m (store m key (record b { deleting = d }))
marked-Keeps c key b d found = record {
  consistent =
      store-IsConsistent c key b found _ (revived-IsValid b d (found-IsEntry c key b found).0) refl
        refl refl refl;
  memory_kept = refl;
  config_kept = refl;
  samples_kept = omega arith;
}

module _ (m : BufferManager) (config : SignalConfig) (c : IsConsistent m)
    (new : lookup config.type_id m.buffers ≡ none) where
  -- In a consistent state, `addRawDataToBuffer` stores an empty buffer for a new type and counts
  -- it, if its reserved bytes fit beside the footprints of all buffers (what each uses, or reserves
  -- if that is more), its byte limit is below 2 ^ 63 and its sample limit below 2 ^ 64. The state
  -- that it leaves is consistent, with the same config and memory limit and no more samples.
  pub add_raw_data_to_buffer_fits :
      IsAllowed m config
      → config.reserved_bytes + m.bytes_in_use_and_reserved ≤ m.max_overall_memory
      → let m' = sum_stats (store m config.type_id (new_buffer config)) (new_buffer config) in
        (add_raw_data_to_buffer m config ≡ done (successful, m')) × Keeps m m'
  unfolding add_raw_data_to_buffer check_memory_limit extended
  add_raw_data_to_buffer_fits a h =
      let k : Keeps m (extended m config c a new) = record {
        consistent = extended-IsConsistent m config c a new h;
        memory_kept = refl;
        config_kept = refl;
        samples_kept = omega (arith, c);
      } in
      let t : ltb m.max_overall_memory config.reserved_bytes ≡ false = ground arith in
      let u : leb (add64 m.bytes_reserved config.reserved_bytes) m.max_overall_memory ≡ true =
        ground (arith, IsConsistent-StatsOk c) in
      (rw (new, add_raw_data_to_buffer, t, u, add_stats-passes m config c a new h), k)

  -- In a consistent state, `addRawDataToBuffer` refuses a new type whose reserved bytes, below 2 ^
  -- 64, do not fit beside those of the other buffers, and changes nothing.
  add_raw_data_to_buffer_refuses :
      config.reserved_bytes < 2 ^ 64
      → m.max_overall_memory < m.bytes_reserved + config.reserved_bytes
      → add_raw_data_to_buffer m config ≡ done (out_of_memory, m)
  unfolding add_raw_data_to_buffer check_memory_limit
  add_raw_data_to_buffer_refuses u h =
      rw (new, add_raw_data_to_buffer) (ground (arith, IsConsistent-StatsOk c))

  -- In a consistent state, `addRawDataToBuffer` aborts the process for a new type whose reserved
  -- bytes fit beside those of the other buffers but not beside the footprints of all buffers: the
  -- limit is checked against the reserved bytes only, and the assertion of `addBufferToStats`
  -- against the memory in use as well.
  pub add_raw_data_to_buffer_aborts :
      m.bytes_reserved + config.reserved_bytes ≤ m.max_overall_memory
      → m.max_overall_memory < config.reserved_bytes + m.bytes_in_use_and_reserved
      → add_raw_data_to_buffer m config ≡ aborted
  unfolding add_raw_data_to_buffer check_memory_limit add_buffer_to_stats
  add_raw_data_to_buffer_aborts g h =
      let t : ltb m.max_overall_memory config.reserved_bytes ≡ false = ground arith in
      let u : leb (add64 m.bytes_reserved config.reserved_bytes) m.max_overall_memory ≡ true =
        ground (arith, c) in
      let b = new_buffer config in
      let n = store m config.type_id b in
      rw (
        new,
        add_raw_data_to_buffer,
        t,
        u,
        assert_stats-passes n (omega (arith, IsConsistent-StatsOk c)),
        assert_stats-fails (sum_stats n b) (omega (arith, c)),
      )
