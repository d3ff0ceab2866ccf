-- ===== src/RawData/Config/Checked.antt =====
-- The checks of `BufferManagerConfig::create` in src/RawDataManager.cpp, and the config of a signal.
use aws_iot_fleetwise_edge.Prelude.{
  ℕ, ◌*◌, ◌≤◌, ◌<◌, ◌≡◌, refl, sym, ◌∙◌, true, some, none, arith, List, [], ◌∷◌, lookup, insert,
  lookup-insert, if◌then◌else◌, ◌==◌, Bool-cases, Option-cases, Option, inl, inr, ◌⊎◌,
}
use aws_iot_fleetwise_edge.RawData.Types.{SignalConfig}
use aws_iot_fleetwise_edge.RawData.Config.{
  BufferManagerConfig, SignalBufferOverrides, value_or, size_max, find_override, messages_of,
  store_override, capped_sample, add_override_within, add_override, add_overrides, check_limits,
  config_of, create, get_signal_config, overridden,
}

-- An override whose limits pass the checks of `create`: against its own limit, or against the limit of the manager.
pub record IsChecked (config : BufferManagerConfig) (o : SignalBufferOverrides) : Type 0 where
  pub total_within : value_or o.max_bytes config.max_bytes ≤ config.max_bytes
  pub samples_positive : 0 < value_or o.max_num_of_samples size_max
  pub sample_positive : 0 < value_or o.max_bytes_per_sample config.max_bytes_per_sample
  pub sample_within :
      value_or o.max_bytes_per_sample config.max_bytes_per_sample
      ≤ value_or o.max_bytes config.max_bytes
  pub reserved_within :
      value_or o.reserved_bytes config.reserved_bytes_per_signal
      ≤ value_or o.max_bytes config.max_bytes

-- The limits that hold for every signal.
pub record HasLimits (config : BufferManagerConfig) : Type 0 where
  pub memory_positive : 0 < config.max_bytes
  pub samples_positive : 0 < config.max_num_of_samples_per_signal
  pub sample_positive : 0 < config.max_bytes_per_sample
  pub signal_within : config.max_bytes_per_signal ≤ config.max_bytes
  pub sample_within : config.max_bytes_per_sample ≤ config.max_bytes_per_signal
  pub reserved_within : config.reserved_bytes_per_signal ≤ config.max_bytes_per_signal

check_limits-HasLimits :
    (config : BufferManagerConfig) → check_limits config ≡ true → HasLimits config
unfolding check_limits
check_limits-HasLimits config h = ground arith

-- Two configs with the same limits.
record SameLimits (a b : BufferManagerConfig) : Type 0 where
  same_bytes : b.max_bytes ≡ a.max_bytes
  same_reserved : b.reserved_bytes_per_signal ≡ a.reserved_bytes_per_signal
  same_samples : b.max_num_of_samples_per_signal ≡ a.max_num_of_samples_per_signal
  same_sample : b.max_bytes_per_sample ≡ a.max_bytes_per_sample
  same_signal : b.max_bytes_per_signal ≡ a.max_bytes_per_signal

pub record IsSound (config : BufferManagerConfig) : Type 0 where
  pub limits : HasLimits config
  pub overrides :
      (i k : ℕ) (o : SignalBufferOverrides) → find_override config i k ≡ some o → IsChecked config o

abbrev or_empty : Option (List (ℕ × SignalBufferOverrides)) → List (ℕ × SignalBufferOverrides)
or_empty none = []
or_empty (some ms) = ms

messages_of-lem :
    (config : BufferManagerConfig) (i : ℕ)
    → messages_of config i ≡ or_empty (lookup i config.overrides_per_signal)
messages_of-lem config i = ground arith

messages_of-store :
    (config : BufferManagerConfig) (o : SignalBufferOverrides) (i : ℕ)
    → messages_of (store_override config o) i ≡ (
        if o.interface_id == i
        then insert o.message_id o (messages_of config i)
        else messages_of config i)
messages_of-store config o i =
    messages_of-lem (store_override config o) i
    ∙ rw
        (lookup-insert o.interface_id i (insert o.message_id o (messages_of config o.interface_id))
          config.overrides_per_signal)
        (elim (Bool-cases (o.interface_id == i)) [
          | inl e ↦ let s : o.interface_id ≡ i = ground arith in rw (e, s)
          | inr e ↦ rw e (sym (messages_of-lem config i))
        ])

-- What is found after an override was stored is that override, or was found before.
find_override-store :
    (config : BufferManagerConfig) (o : SignalBufferOverrides) (i k : ℕ)
    (o' : SignalBufferOverrides)
    → find_override (store_override config o) i k ≡ some o'
    → (o' ≡ o) ⊎ (find_override config i k ≡ some o')
find_override-store config o i k o' h =
    let f : lookup k (
          if o.interface_id == i
          then insert o.message_id o (messages_of config i)
          else messages_of config i)
        ≡ some o' =
      (rw (messages_of-store config o i) at h) in
    elim (Bool-cases (o.interface_id == i)) [
      | inr e ↦ inr (rw e at f)
      | inl e ↦ ground (arith, lookup-insert o.message_id k o (messages_of config i), rw e at f)
    ]

IsChecked-kept :
    {a b : BufferManagerConfig} (o : SignalBufferOverrides)
    → SameLimits a b
    → IsChecked a o
    → IsChecked b o
IsChecked-kept o s h = ground arith

-- The override as it is stored: with its size per sample capped.
abbrev capped : SignalBufferOverrides → SignalBufferOverrides
capped o = record o { max_bytes_per_sample = capped_sample o.max_bytes o.max_bytes_per_sample }

add_override_within-lem :
    (config : BufferManagerConfig) (o : SignalBufferOverrides) (config' : BufferManagerConfig)
    → value_or o.max_bytes config.max_bytes ≤ config.max_bytes
    → add_override_within config o (value_or o.max_bytes config.max_bytes) ≡ some config'
    → (config' ≡ store_override config o) × IsChecked config o
unfolding add_override_within
add_override_within-lem config o config' t h = (ground arith, ground arith)

add_override-lem :
    (config : BufferManagerConfig) (o : SignalBufferOverrides) (config' : BufferManagerConfig)
    → add_override config o ≡ some config'
    → (config' ≡ store_override config (capped o)) × IsChecked config (capped o)
unfolding add_override
add_override-lem config o config' h =
    add_override_within-lem config (capped o) config' (ground arith) (ground arith)

stored-IsSound :
    (config : BufferManagerConfig) (o : SignalBufferOverrides)
    → IsSound config
    → IsChecked config o
    → IsSound (store_override config o)
stored-IsSound config o s h = record {
  limits = omega (arith, s.limits);
  overrides = λ i k o' e. kept i k o' e (find_override-store config o i k o' e);
}
  where
    same : SameLimits config (store_override config o)
    same = record {
      same_bytes = refl;
      same_reserved = refl;
      same_samples = refl;
      same_sample = refl;
      same_signal = refl;
    }

    kept :
        (i k : ℕ) (o' : SignalBufferOverrides)
        → find_override (store_override config o) i k ≡ some o'
        → (o' ≡ o) ⊎ (find_override config i k ≡ some o')
        → IsChecked (store_override config o) o'
    kept i k o' e (inl p) = IsChecked-kept o' same (rw p h)
    kept i k o' e (inr p) = IsChecked-kept o' same (s.overrides i k o' p)

add_overrides-IsSound :
    (os : List SignalBufferOverrides) (config config' : BufferManagerConfig)
    → IsSound config
    → add_overrides config os ≡ some config'
    → IsSound config' × (config'.max_bytes ≡ config.max_bytes)
unfolding add_overrides
add_overrides-IsSound [] config config' s h = let e : config' ≡ config = cc in rw e (s, refl)
add_overrides-IsSound (o ∷ os) config config' s h = elim (Option-cases (add_override config o)) [
  | inl e ↦ absurd (ground arith)
  | inr (next, e) ↦
      let l = add_override-lem config o next e in
      let n : IsSound next = rw l.0 (stored-IsSound config (capped o) s l.1) in
      let r = add_overrides-IsSound os next config' n (ground arith) in
      let b : next.max_bytes ≡ config.max_bytes = rw l.0 in (r.0, r.1 ∙ b)
]

-- What `create` accepts is sound.
pub create-IsSound :
    (max_bytes reserved samples sample signal : Option ℕ) (os : List SignalBufferOverrides)
    (config : BufferManagerConfig)
    → create max_bytes reserved samples sample signal os ≡ some config
    → IsSound config × (config.max_bytes ≡ value_or max_bytes (1024 * 1024 * 1024))
unfolding create
create-IsSound max_bytes reserved samples sample signal os config h =
    let total = value_or max_bytes (1024 * 1024 * 1024) in
    let start = config_of total reserved samples sample (value_or signal total) in
    elim (Bool-cases (check_limits start)) [
      | inr e ↦ absurd (ground arith)
      | inl e ↦
          add_overrides-IsSound os start config
            (record { limits = check_limits-HasLimits start e; overrides = λ i k o p. absurd (cc) })
            (ground arith)
    ]

-- What holds of the config of each signal.
pub record SignalLimits (config : BufferManagerConfig) (s : SignalConfig) : Type 0 where
  pub total_within : s.max_overall_bytes ≤ config.max_bytes
  pub sample_within : s.max_bytes_per_sample ≤ config.max_bytes
  pub reserved_within : s.reserved_bytes ≤ config.max_bytes
  pub sample_positive : 0 < s.max_bytes_per_sample

-- Under a sound config the limits of every signal are within the memory.
pub get_signal_config-SignalLimits :
    (config : BufferManagerConfig) (t i k : ℕ)
    → IsSound config
    → SignalLimits config (get_signal_config config t i k)
unfolding get_signal_config
get_signal_config-SignalLimits config t i k s = elim (Option-cases (find_override config i k)) [
  | inl e ↦ rw (e, overridden) (ground (arith, s.limits))
  | inr (o, e) ↦ rw (e, overridden) (ground (arith, s.limits, s.overrides i k o e))
]

-- Whatever `create` accepts, its memory is the given one, or 1 GiB, and the config that it gives to
-- any signal, with an override or without, has a positive size per sample, and its bytes per
-- signal, per sample and reserved are within that memory.
create_limits :
    (max_bytes reserved samples sample signal : Option ℕ) (os : List SignalBufferOverrides)
    (config : BufferManagerConfig) (t i k : ℕ)
    → create max_bytes reserved samples sample signal os ≡ some config
    → (config.max_bytes ≡ value_or max_bytes (1024 * 1024 * 1024))
      × SignalLimits config (get_signal_config config t i k)
create_limits max_bytes reserved samples sample signal os config t i k h =
    let s = create-IsSound max_bytes reserved samples sample signal os config h in
    (s.1, get_signal_config-SignalLimits config t i k s.0)

abbrev pub only_reserved : ℕ → ℕ → ℕ → SignalBufferOverrides
only_reserved interface message reserved = record {
  interface_id = interface;
  message_id = message;
  reserved_bytes = some reserved;
  max_num_of_samples = none;
  max_bytes_per_sample = none;
  max_bytes = none;
}
