-- ===== src/Schemes/Types.antt =====
-- The data of CollectionSchemeManager.h: schemes, the timeline, the maps of enabled and idle
-- schemes. An identifier is compared for equality and order only, so a number stands for each
-- string; the empty one is 0.
use aws_iot_fleetwise_edge.Prelude.{
  ℕ, Bool, ◌&&◌, ◌||◌, List, [], ◌∷◌, if◌then◌else◌, ltb, leb, ◌==◌, add64, ◌-◌,
}

-- `TimePoint`
pub record TimePoint : Type 0 where
  pub system_time_ms : ℕ
  pub monotonic_time_ms : ℕ

-- `timePointFromSystemTime`
unfoldable pub time_point_from_system_time : TimePoint → ℕ → TimePoint
time_point_from_system_time now t = record {
  system_time_ms = t;
  monotonic_time_ms =
      if leb now.system_time_ms t
      then add64 now.monotonic_time_ms (t - now.system_time_ms)
      else if leb (now.system_time_ms - t) now.monotonic_time_ms
      then now.monotonic_time_ms - (now.system_time_ms - t)
      else 0;
}

-- What the manager reads of a scheme, `ICollectionScheme`. `lookup_table` stands for the table of
-- signal paths, which is only compared.
pub record CollectionScheme : Type 0 where
  pub is_ready : Bool
  pub collection_scheme_id : ℕ
  pub decoder_manifest_id : ℕ
  pub start_time : ℕ
  pub expiry_time : ℕ
  pub lookup_table : ℕ

-- `CollectionSchemeIngestion::operator==`
abbrev pub is_equal : CollectionScheme → CollectionScheme → Bool
is_equal s other =
    s.is_ready
    && other.is_ready
    && s.collection_scheme_id == other.collection_scheme_id
    && s.lookup_table == other.lookup_table

-- `TimeData`
pub record TimeData : Type 0 where
  pub time : TimePoint
  pub id : ℕ

-- `TimeData::operator>`
abbrev pub is_greater : TimeData → TimeData → Bool
is_greater d other =
    ltb other.time.monotonic_time_ms d.time.monotonic_time_ms
    || d.time.monotonic_time_ms == other.time.monotonic_time_ms && ltb other.id d.id

-- `std::priority_queue` with `std::greater`: the elements in the order in which it gives them out.
abbrev pub push_time : TimeData → List TimeData → List TimeData
push_time d [] = d ∷ []
push_time d (e ∷ es) = let rest = push_time d es in if is_greater e d then d ∷ e ∷ es else e ∷ rest

-- `mIdleCollectionSchemeMap`, `mEnabledCollectionSchemeMap` and `mTimeLine`
pub record Schedule : Type 0 where
  pub idle : List (ℕ × CollectionScheme)
  pub enabled : List (ℕ × CollectionScheme)
  pub time_line : List TimeData
