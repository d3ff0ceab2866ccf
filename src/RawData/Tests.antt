-- ===== src/RawData/Tests.antt =====
-- The theorems on RawDataManager at a manager with one borrowed frame and one unused frame.
use aws_iot_fleetwise_edge.Prelude.{ℕ, ◌+◌, ◌≤◌, ◌≡◌, refl, true, false, List, [], ◌∷◌, arith}
use aws_iot_fleetwise_edge.RawData.Types.{
  Frame, Buffer, SignalConfig, copy_on_ingest_sync, handed_over_to_sender, successful, new_buffer,
}
use aws_iot_fleetwise_edge.RawData.Run.{done, aborted, Returns}
use aws_iot_fleetwise_edge.RawData.Config.{BufferManagerConfig, get_signal_config}
use aws_iot_fleetwise_edge.RawData.Buffer.{
  add_data, delete_unused_data, free_own_limit, free_shared_memory, delete_all_unused,
}
use aws_iot_fleetwise_edge.RawData.Buffer.Loops.{
  EndsWithin, over_own_limit, over_shared_limit, delete_and_release, always, while_loops_end,
}
use aws_iot_fleetwise_edge.RawData.Buffer.Bounds.{IsValid, pinned}
use aws_iot_fleetwise_edge.RawData.Buffer.AddData.{footprint}
use aws_iot_fleetwise_edge.RawData.Buffer.Accept.{
  add_data_bounded, add_data-pinned, add_data_accepts,
}
use aws_iot_fleetwise_edge.RawData.Stats.{BufferManager, sum_stats}
use aws_iot_fleetwise_edge.RawData.Manager.{push, store}
use aws_iot_fleetwise_edge.RawData.Usage.{return_loaned_frame, reset_usage_hints_for_stage}
use aws_iot_fleetwise_edge.RawData.Update.{
  add_raw_data_to_buffer, update_config, SignalUpdateConfig,
}
use aws_iot_fleetwise_edge.RawData.Invariant.{IsConsistent}
use aws_iot_fleetwise_edge.RawData.Push.{Pushed, push-Pushed}
use aws_iot_fleetwise_edge.RawData.Safety.{Keeps}
use aws_iot_fleetwise_edge.RawData.Operations.{return_loaned_frame-Keeps}
use aws_iot_fleetwise_edge.RawData.Reset.{reset_usage_hints_for_stage-Keeps}
use aws_iot_fleetwise_edge.RawData.Updates.{
  Added, add_raw_data_to_buffer_fits, add_raw_data_to_buffer_aborts,
}
use aws_iot_fleetwise_edge.RawData.Configure.{ReservesNothing, update_config-Keeps}

abbrev lent_frame : Frame
lent_frame = record {
  handle_id = 513;
  timestamp = 2;
  raw_data = 10 ∷ 20 ∷ 30 ∷ [];
  data_in_use_counter = 1;
  usage_hint_counters = 0 ∷ 0 ∷ 0 ∷ 1 ∷ 0 ∷ [];
}

abbrev idle_frame : Frame
idle_frame = record {
  handle_id = 514;
  timestamp = 2;
  raw_data = 40 ∷ 50 ∷ [];
  data_in_use_counter = 0;
  usage_hint_counters = 0 ∷ 0 ∷ 0 ∷ 0 ∷ 0 ∷ [];
}

abbrev camera : Buffer
camera = record {
  type_id = 7;
  max_num_of_samples = 2;
  max_bytes_per_sample = 4;
  max_overall_bytes = 6;
  reserved_bytes = 0;
  bytes_in_use = 5;
  num_of_samples_received = 2;
  num_of_samples_currently_in_memory = 2;
  num_of_samples_accessed_by_sender = 1;
  deleting = false;
  storage_strategy = copy_on_ingest_sync;
  frames = lent_frame ∷ idle_frame ∷ [];
}

abbrev small_config : BufferManagerConfig
small_config = record {
  max_bytes = 8;
  reserved_bytes_per_signal = 0;
  max_num_of_samples_per_signal = 2;
  max_bytes_per_sample = 4;
  max_bytes_per_signal = 6;
  overrides_per_signal = [];
}

abbrev manager : BufferManager
manager = record {
  config = small_config;
  max_overall_memory = 8;
  bytes_reserved = 0;
  bytes_in_use = 5;
  bytes_in_use_and_reserved = 5;
  overall_num_of_samples_received = 2;
  num_of_samples_currently_in_memory = 2;
  num_of_samples_accessed_by_sender = 1;
  buffers = (7, camera) ∷ [];
  raw_msg_counter = 2;
}

camera-IsValid : IsValid camera
camera-IsValid = omega arith

manager-IsConsistent : IsConsistent manager
manager-IsConsistent = record {
  memory_small = omega arith;
  used_counted = refl;
  footprint_counted = refl;
  reserved_counted = refl;
  samples_counted = refl;
  footprint_limited = omega arith;
  samples_small = omega arith;
  entries = ((camera-IsValid, refl), tt);
}

push-Pushed_example : Returns (Pushed manager) (push manager (1 ∷ 2 ∷ 3 ∷ []) 9 7)
push-Pushed_example = push-Pushed manager (1 ∷ 2 ∷ 3 ∷ []) 9 7 manager-IsConsistent (omega arith)

return_loaned_frame-Keeps_example : Returns (Keeps manager) (return_loaned_frame manager 7 513)
return_loaned_frame-Keeps_example = return_loaned_frame-Keeps manager 7 513 manager-IsConsistent

reset_usage_hints_for_stage-Keeps_example :
    Returns (Keeps manager) (reset_usage_hints_for_stage manager handed_over_to_sender)
reset_usage_hints_for_stage-Keeps_example =
    reset_usage_hints_for_stage-Keeps manager handed_over_to_sender manager-IsConsistent

small_config-ReservesNothing : ReservesNothing small_config
unfolding get_signal_config
small_config-ReservesNothing = record {
  total_small = λ t i k. omega arith;
  samples_small = λ t i k. omega arith;
  no_reserve = λ t i k. refl;
}

abbrev lidar_update : List (ℕ × SignalUpdateConfig)
lidar_update = (8, record { type_id = 8; interface_id = 1; message_id = 3 }) ∷ []

update_config-Keeps_example : Returns (Added manager) (update_config manager lidar_update)
update_config-Keeps_example =
    update_config-Keeps manager lidar_update manager-IsConsistent small_config-ReservesNothing

abbrev lidar : ℕ → SignalConfig
lidar reserved = record {
  type_id = 8;
  storage_strategy = copy_on_ingest_sync;
  max_num_of_samples = 2;
  max_bytes_per_sample = 4;
  max_overall_bytes = 6;
  reserved_bytes = reserved;
}

abbrev with_lidar : BufferManager
with_lidar = sum_stats (store manager 8 (new_buffer (lidar 3))) (new_buffer (lidar 3))

add_raw_data_to_buffer_fits_example :
    (add_raw_data_to_buffer manager (lidar 3) ≡ done (successful, with_lidar))
    × Keeps manager with_lidar
add_raw_data_to_buffer_fits_example =
    add_raw_data_to_buffer_fits manager (lidar 3) manager-IsConsistent refl (omega arith)
      (omega arith)

add_raw_data_to_buffer_aborts_example : add_raw_data_to_buffer manager (lidar 4) ≡ aborted
add_raw_data_to_buffer_aborts_example =
    add_raw_data_to_buffer_aborts manager (lidar 4) manager-IsConsistent refl (omega arith)
      (omega arith)

add_data_bounded_example :
    IsValid (add_data camera (1 ∷ 2 ∷ 3 ∷ []) 9 771 3).1
    × (footprint (add_data camera (1 ∷ 2 ∷ 3 ∷ []) 9 771 3).1 ≤ 3 + footprint camera)
add_data_bounded_example =
    add_data_bounded camera (1 ∷ 2 ∷ 3 ∷ []) 9 771 3 camera-IsValid (omega arith)

add_data-pinned_example :
    pinned (add_data camera (1 ∷ 2 ∷ 3 ∷ []) 9 771 3).1.frames ≡ lent_frame ∷ []
add_data-pinned_example =
    add_data-pinned camera (1 ∷ 2 ∷ 3 ∷ []) 9 771 3 camera-IsValid (omega arith)

add_data_accepts_example : (add_data camera (1 ∷ 2 ∷ 3 ∷ []) 9 771 3).0 ≡ true
add_data_accepts_example =
    add_data_accepts camera (1 ∷ 2 ∷ 3 ∷ []) 9 771 3 camera-IsValid (omega arith) (omega arith)
      (omega arith) (omega arith) (omega arith)

while_loops_end_example :
    EndsWithin (over_own_limit 3) delete_unused_data 2 camera (free_own_limit 2 3 camera)
    × ((left : ℕ) × EndsWithin
          (over_shared_limit 3)
          delete_and_release
          2
          (1, camera)
          ((free_shared_memory 2 3 1 camera).0, (left, (free_shared_memory 2 3 1 camera).1)))
    × EndsWithin always delete_unused_data 2 camera (false, delete_all_unused 2 camera)
while_loops_end_example = while_loops_end 3 1 camera
