-- ===== src/RawData/Configure.antt =====
-- `BufferManager::updateConfig` of src/RawDataManager.cpp as a whole, where no signal reserves memory.
use aws_iot_fleetwise_edge.Prelude.{
  ℕ, ◌^◌, ◌≤◌, ◌<◌, ◌≡◌, true, false, some, arith, List, [], ◌∷◌, lookup, ◌==◌, Bool-cases,
  Option-cases, inl, inr, length, keys,
}
use aws_iot_fleetwise_edge.RawData.Types.{
  Buffer, SignalConfig, BufferErrorCode, successful, out_of_memory,
}
use aws_iot_fleetwise_edge.RawData.Run.{done, Returns, Returns->>=, Returns-map}
use aws_iot_fleetwise_edge.RawData.Buffer.{delete_all_unused}
use aws_iot_fleetwise_edge.RawData.Config.{BufferManagerConfig, get_signal_config}
use aws_iot_fleetwise_edge.RawData.Stats.{BufferManager, subtract_stats}
use aws_iot_fleetwise_edge.RawData.Update.{
  add_raw_data_to_buffer, retire, exclude_type, exclude_types, add_signals, update_config,
  SignalUpdateConfig, excluded_type_ids,
}
use aws_iot_fleetwise_edge.RawData.Invariant.{
  IsConsistent, samples, delete_buffer_from_stats-passes,
}
use aws_iot_fleetwise_edge.RawData.Replace.{
  found-IsEntry, lookup-store, recounted, add_buffer_to_stats-passes, Replaces,
}
use aws_iot_fleetwise_edge.RawData.Safety.{
  Keeps, Keeps-refl, Keeps-trans, recounted-Keeps, discard-Keeps,
}
use aws_iot_fleetwise_edge.RawData.Updates.{
  IsAllowed, Added, marked-Keeps, delete_all_unused-Deletes, add_raw_data_to_buffer_fits,
}

retire-Keeps :
    {m : BufferManager} (c : IsConsistent m) (key : ℕ) (b : Buffer)
    → lookup key m.buffers ≡ some b
    → Returns (Keeps m) (retire m key b)
unfolding retire
retire-Keeps c key b found = elim (Bool-cases (b.num_of_samples_currently_in_memory == 0)) [
  | inr e ↦ rw e (marked-Keeps c key b true found)
  | inl e ↦
      rw (e, delete_buffer_from_stats-passes c key b found, (found-IsEntry c key b found).1)
        (discard-Keeps c key b found)
]

exclude_type-Keeps :
    {m : BufferManager} (c : IsConsistent m) (key : ℕ) (b : Buffer)
    → lookup key m.buffers ≡ some b
    → Returns (Keeps m) (exclude_type m key b)
unfolding exclude_type
exclude_type-Keeps {m} c key b found =
    let v = (found-IsEntry c key b found).0 in
    let b' = delete_all_unused (length b.frames) b in
    let d = delete_all_unused-Deletes (length b.frames) b v in
    let s : samples b' ≤ samples b = omega (arith, d.valid, d.shrunk, v) in
    let r : Replaces m b b' = record {
      valid = d.valid;
      type_kept = d.shrunk.type_id_kept;
      footprint_fits = omega (arith, c, d.shrunk);
      samples_fit = omega (arith, c);
    } in
    let k = recounted-Keeps c key b found r s in
    rw (delete_buffer_from_stats-passes c key b found, add_buffer_to_stats-passes c key b found r)
      (Returns-map (Keeps (recounted m key b b')) (Keeps m) (retire (recounted m key b b') key b')
        (λ m' h. Keeps-trans k h)
        (retire-Keeps k.consistent key b' (lookup-store (subtract_stats m b) key b')))

exclude_types-Keeps :
    (ks : List ℕ) {m : BufferManager} → IsConsistent m → Returns (Keeps m) (exclude_types m ks)
unfolding exclude_types
exclude_types-Keeps [] c = Keeps-refl c
exclude_types-Keeps (k ∷ ks) {m} c = elim (Option-cases (lookup k m.buffers)) [
  | inl e ↦ rw (e, exclude_types) (exclude_types-Keeps ks c)
  | inr (b, e) ↦
      rw (e, exclude_types)
        (Returns->>= (Keeps m) (Keeps m) (exclude_type m k b) (λ m'. exclude_types m' ks)
          (exclude_type-Keeps c k b e)
          (λ m' h.
            Returns-map (Keeps m') (Keeps m) (exclude_types m' ks) (λ m'' h'. Keeps-trans h h')
              (exclude_types-Keeps ks h.consistent)))
]

-- A config under which no signal reserves memory, and the limits of every signal are machine words.
pub record ReservesNothing (config : BufferManagerConfig) : Type 0 where
  pub total_small : (t i k : ℕ) → (get_signal_config config t i k).max_overall_bytes < 2 ^ 63
  pub samples_small : (t i k : ℕ) → (get_signal_config config t i k).max_num_of_samples < 2 ^ 64
  pub no_reserve : (t i k : ℕ) → (get_signal_config config t i k).reserved_bytes ≡ 0

add_one-Keeps :
    {m : BufferManager} (c : IsConsistent m) (config : SignalConfig)
    → IsAllowed m config
    → config.reserved_bytes ≡ 0
    → Returns (Added m) (add_raw_data_to_buffer m config)
unfolding add_raw_data_to_buffer
add_one-Keeps {m} c config a z = elim (Option-cases (lookup config.type_id m.buffers)) [
  | inl e ↦ let s = add_raw_data_to_buffer_fits m config c e a (omega (arith, c)) in rw s.0 s.1
  | inr (b, e) ↦ rw (e, add_raw_data_to_buffer) (marked-Keeps c config.type_id b false e)
]

-- What follows one signal: the other signals, or the end at a failure.
after_signal-Keeps :
    (us : List (ℕ × SignalUpdateConfig)) {m : BufferManager} (a : BufferErrorCode × BufferManager)
    → ((m' : BufferManager)
        → IsConsistent m'
        → ReservesNothing m'.config
        → Returns (Added m') (add_signals m' us))
    → ReservesNothing m.config
    → Added m a
    → Returns (Added m) (elim a.0 [ successful ↦ add_signals a.1 us | out_of_memory ↦ done a ])
after_signal-Keeps us {m} (successful, m') rest r h =
    Returns-map (Added m') (Added m) (add_signals m' us) (λ a k. Keeps-trans h k)
      (rest m' h.consistent (rw h.config_kept r))
after_signal-Keeps us (out_of_memory, m') rest r h = h

add_signals-Keeps :
    (us : List (ℕ × SignalUpdateConfig)) (m : BufferManager)
    → IsConsistent m
    → ReservesNothing m.config
    → Returns (Added m) (add_signals m us)
unfolding add_signals
add_signals-Keeps [] m c r = Keeps-refl c
add_signals-Keeps ((key, u) ∷ us) m c r =
    let config = get_signal_config m.config u.type_id u.interface_id u.message_id in
    Returns->>= (Added m) (Added m) (add_raw_data_to_buffer m config) _
      (add_one-Keeps c config
        (record { total_small = r.total_small _ _ _; samples_small = r.samples_small _ _ _ })
        (r.no_reserve _ _ _))
      (λ a h. after_signal-Keeps us a (add_signals-Keeps us) r h)

-- `updateConfig` returns in every consistent state whose config reserves no memory, whatever the
-- signals are: no assertion fails, and the state that it leaves is consistent. Reserving nothing
-- means that every signal config has no reserved bytes, a byte limit below 2 ^ 63 and a sample limit
-- below 2 ^ 64.
pub update_config-Keeps :
    (m : BufferManager) (updated : List (ℕ × SignalUpdateConfig))
    → IsConsistent m
    → ReservesNothing m.config
    → Returns (Added m) (update_config m updated)
unfolding update_config
update_config-Keeps m updated c r =
    Returns->>= (Keeps m) (Added m) (exclude_types m (excluded_type_ids updated (keys m.buffers)))
      (λ m'. add_signals m' updated)
      (exclude_types-Keeps (excluded_type_ids updated (keys m.buffers)) c)
      (λ m' h.
        Returns-map (Added m') (Added m) (add_signals m' updated) (λ a k. Keeps-trans h k)
          (add_signals-Keeps updated m' h.consistent (rw h.config_kept r)))
