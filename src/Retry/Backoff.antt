-- ===== src/Retry/Backoff.antt =====
-- The waiting times of doWork of src/RetryThread.cpp while the retryable asks to be retried.
use aws_iot_fleetwise_edge.Prelude.{ℕ, zero, suc, ◌*◌, min, List, [], ◌∷◌, Option, some}

-- The waits of `n` rounds: each is twice the one before, but at most the maximum.
abbrev pub backoff : ℕ → ℕ → ℕ → List (Option ℕ)
backoff zero wait most = []
backoff (suc n) wait most = some (min wait most) ∷ backoff n (wait * 2) most
