-- ===== src/Retry/Tests.antt =====
-- Runs of src/RetryThread.cpp, and the theorem about it at one of them.
use aws_iot_fleetwise_edge.Prelude.{false}
use aws_iot_fleetwise_edge.Retry.Work.{RetryThread}
use aws_iot_fleetwise_edge.Retry.Work.RetryStatus.{success}

-- A thread that has succeeded.
abbrev done_thread : RetryThread
done_thread = record {
  start_backoff_ms = 100;
  max_backoff_ms = 500;
  current_wait_time = 400;
  restart_requested = false;
  result = success;
}
