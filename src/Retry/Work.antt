-- ===== src/Retry/Work.antt =====
-- The members of RetryThread, restart, and the rounds of doWork of src/RetryThread.cpp.
use aws_iot_fleetwise_edge.Prelude.{
  ℕ, ◌*◌, ◌%◌, ◌^◌, min, Bool, true, false, ◌||◌, List, [], ◌∷◌, Option, none, some, if◌then◌else◌,
}

-- `RetryStatus`
pub data RetryStatus : Type 0 where
  success : RetryStatus
  retry : RetryStatus
  abort : RetryStatus

abbrev pub is_retry : RetryStatus → Bool
is_retry retry = true
is_retry _ = false

-- `RetryThread`, with the result that doWork keeps. The flag `fShouldStop` ends the loop between two
-- rounds, and is not part of a round.
pub record RetryThread : Type 0 where
  pub start_backoff_ms : ℕ
  pub max_backoff_ms : ℕ
  pub current_wait_time : ℕ
  pub restart_requested : Bool
  pub result : RetryStatus

-- What a round does: whether it calls the retryable, and the time that it waits; without a time it
-- waits until it is notified.
pub record Round : Type 0 where
  pub has_called : Bool
  pub waits : Option ℕ
  pub thread : RetryThread

abbrev pub with_wait : ℕ → RetryStatus → RetryThread → RetryThread
with_wait wait result t = record {
  start_backoff_ms = t.start_backoff_ms;
  max_backoff_ms = t.max_backoff_ms;
  current_wait_time = wait;
  restart_requested = false;
  result = result;
}

-- The start of doWork.
abbrev pub begin_work : RetryThread → RetryThread
begin_work t = record {
  start_backoff_ms = t.start_backoff_ms;
  max_backoff_ms = t.max_backoff_ms;
  current_wait_time = t.start_backoff_ms;
  restart_requested = t.restart_requested;
  result = retry;
}

abbrev pub restart : RetryThread → RetryThread
restart t = record {
  start_backoff_ms = t.start_backoff_ms;
  max_backoff_ms = t.max_backoff_ms;
  current_wait_time = t.current_wait_time;
  restart_requested = true;
  result = t.result;
}

-- `fCurrentWaitTime * 2` is a product of 32 bits.
abbrev pub next_wait_time : ℕ → ℕ → ℕ
next_wait_time wait max_backoff_ms = min (wait * 2 % 2 ^ 32) max_backoff_ms

-- A round of the loop, where the retryable, if it is called, gives `outcome`.
abbrev pub do_round : RetryStatus → RetryThread → Round
do_round outcome t =
    if is_retry t.result || t.restart_requested
    then (let wait = if t.restart_requested then t.start_backoff_ms else t.current_wait_time in
        if is_retry outcome
        then (record {
          has_called = true;
          waits = some wait;
          thread = with_wait (next_wait_time wait t.max_backoff_ms) outcome t;
        })
        else (record { has_called = true; waits = none; thread = with_wait wait outcome t }))
    else (record { has_called = false; waits = none; thread = t })

-- A run of rounds: their waits, and the state after.
abbrev pub do_rounds : List RetryStatus → RetryThread → List (Option ℕ) × RetryThread
do_rounds [] t = ([], t)
do_rounds (o ∷ os) t =
    let r = do_round o t in let (waits, last) = do_rounds os r.thread in (r.waits ∷ waits, last)
