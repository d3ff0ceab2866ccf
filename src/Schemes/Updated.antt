-- ===== src/Schemes/Updated.antt =====
-- `updateMapsandTimeLine` of src/CollectionSchemeManager.cpp as a whole, its rounds and the erasure
-- of what the list does not have, and the timeline.
use aws_iot_fleetwise_edge.Prelude.{
  ℕ, ◌≡◌, refl, List, [], ◌∷◌, Option, none, some, arith, ==_refl, All, lookup, put, remove,
  lookup-put, lookup-remove, Option-cases, Bool-cases, inl, inr, subst,
}
use aws_iot_fleetwise_edge.Schemes.Types.{TimePoint, CollectionScheme, TimeData, Schedule}
use aws_iot_fleetwise_edge.Schemes.Schedule.{
  enable, update_enabled, update_idle, add_new, update_one, update_all, is_listed,
  update_maps_and_time_line,
}
use aws_iot_fleetwise_edge.Schemes.Update.{lookup-keep_listed}
use aws_iot_fleetwise_edge.Schemes.TimeLine.{IsSteady}
use aws_iot_fleetwise_edge.Schemes.Scheduled.{AtKey}
use aws_iot_fleetwise_edge.Schemes.Keep.{Fits, IsLive, step-Fits, enable-Fits, make_idle-Fits}

-- An enabled scheme is not idle.
apart_idle :
    (ds : List TimeData) (k : ℕ) (i : Option CollectionScheme) (c : CollectionScheme)
    → AtKey ds k i (some c)
    → i ≡ none
apart_idle ds k none c a = refl
apart_idle ds k (some s) c a = absurd a.0

module _ (offset : ℕ) (s : CollectionScheme) (m : Schedule) (h : Fits offset m) where
  remove_idle-Fits :
      (k : ℕ) → lookup k m.enabled ≡ none → Fits offset (record m { idle = remove k m.idle })
  remove_idle-Fits k e =
      step-Fits offset k m (record m { idle = remove k m.idle }) h.ordered
        (λ j n. rw (lookup-remove k j m.idle, n) refl) (λ j n. refl) h.at_key
        (rw (lookup-remove k k m.idle, ==_refl k, e) (tt, tt, tt))

  remove_enabled-Fits :
      (k : ℕ) → lookup k m.idle ≡ none → Fits offset (record m { enabled = remove k m.enabled })
  remove_enabled-Fits k i =
      step-Fits offset k m (record m { enabled = remove k m.enabled }) h.ordered (λ j n. refl)
        (λ j n. rw (lookup-remove k j m.enabled, n) refl) h.at_key
        (rw (lookup-remove k k m.enabled, ==_refl k, i) (tt, tt, tt))

  -- Another scheme with the same stop time.
  replace_enabled-Fits :
      (k : ℕ) (c : CollectionScheme)
      → lookup k m.idle ≡ none
      → lookup k m.enabled ≡ some c
      → s.expiry_time ≡ c.expiry_time
      → Fits offset (record m { enabled = put k s m.enabled })
  replace_enabled-Fits k c i e t =
      let a : AtKey m.time_line k (lookup k m.idle) (some c) =
        subst (λ x. AtKey m.time_line k (lookup k m.idle) x) e (h.at_key k) in
      step-Fits offset k m (record m { enabled = put k s m.enabled }) h.ordered (λ j n. refl)
        (λ j n. rw (lookup-put k j s m.enabled, n) refl) h.at_key
        (rw (lookup-put k k s m.enabled, ==_refl k, i) (tt, rw t a.1, tt))

  -- Another scheme with the same times.
  replace_idle-Fits :
      (k : ℕ) (c : CollectionScheme)
      → lookup k m.enabled ≡ none
      → lookup k m.idle ≡ some c
      → s.start_time ≡ c.start_time
      → s.expiry_time ≡ c.expiry_time
      → Fits offset (record m { idle = put k s m.idle })
  replace_idle-Fits k c e i t u =
      let a : AtKey m.time_line k (some c) (lookup k m.enabled) =
        subst (λ x. AtKey m.time_line k x (lookup k m.enabled)) i (h.at_key k) in
      step-Fits offset k m (record m { idle = put k s m.idle }) h.ordered
        (λ j n. rw (lookup-put k j s m.idle, n) refl) (λ j n. refl) h.at_key
        (rw (lookup-put k k s m.idle, ==_refl k, e, t, u) (tt, tt, a.2))

module _ (offset : ℕ) (now : TimePoint) (steady : IsSteady offset now) (s : CollectionScheme)
    (live : IsLive now.system_time_ms s) (m : Schedule) (h : Fits offset m) where
  update_enabled-Fits :
      (c : CollectionScheme)
      → lookup s.collection_scheme_id m.enabled ≡ some c
      → Fits offset (update_enabled now s c m).1
  unfolding update_enabled
  update_enabled-Fits c e =
      let id = s.collection_scheme_id in
      let a : AtKey m.time_line id (lookup id m.idle) (some c) =
        subst (λ x. AtKey m.time_line id (lookup id m.idle) x) e (h.at_key id) in
      let i : lookup id m.idle ≡ none = apart_idle m.time_line id (lookup id m.idle) c a in
      let f = enable-Fits offset now steady s live m h i in
      let again : Fits offset
          (record (enable now s m) { enabled = put id s (enable now s m).enabled }) =
        replace_enabled-Fits offset s (enable now s m) f id s i
          (rw (lookup-put id id s m.enabled, ==_refl id) refl) refl in
      ground (
        arith,
        h,
        f,
        again,
        remove_enabled-Fits offset s m h id i,
        replace_enabled-Fits offset s m h id c i e,
      )

  update_idle-Fits :
      (c : CollectionScheme)
      → lookup s.collection_scheme_id m.enabled ≡ none
      → lookup s.collection_scheme_id m.idle ≡ some c
      → Fits offset (update_idle now s c m).1
  unfolding update_idle
  update_idle-Fits c e i =
      let id = s.collection_scheme_id in
      let cleared : Schedule = record m { idle = remove id m.idle } in
      ground (
        arith,
        live,
        enable-Fits offset now steady s live cleared (remove_idle-Fits offset s m h id e)
            (rw (lookup-remove id id m.idle, ==_refl id) refl),
        make_idle-Fits offset now steady s live m h,
        e,
        replace_idle-Fits offset s m h id c e i,
      )

  add_new-Fits :
      lookup s.collection_scheme_id m.enabled ≡ none
      → lookup s.collection_scheme_id m.idle ≡ none
      → Fits offset (add_new now s m).1
  unfolding add_new
  add_new-Fits e i = ground (
    arith,
    h,
    enable-Fits offset now steady s live m h i,
    make_idle-Fits offset now steady s live m h,
    e,
  )

  update_one-Fits : Fits offset (update_one now s m).1
  unfolding update_one
  update_one-Fits = elim (Option-cases (lookup s.collection_scheme_id m.enabled)) [
    | inr (c, e) ↦ rw (e, update_one) (update_enabled-Fits c e)
    | inl e ↦ elim (Option-cases (lookup s.collection_scheme_id m.idle)) [
      | inr (c, i) ↦ rw (e, i, update_one) (update_idle-Fits c e i)
      | inl i ↦ rw (e, i, update_one) (add_new-Fits e i)
    ]
  ]

update_all-Fits :
    (offset : ℕ) (now : TimePoint) (ss : List CollectionScheme) (m : Schedule)
    → IsSteady offset now
    → All (IsLive now.system_time_ms) ss
    → Fits offset m
    → Fits offset (update_all now ss m).1
unfolding update_all
update_all-Fits offset now [] m steady live h = h
update_all-Fits offset now (s ∷ ss) m steady live h =
    update_all-Fits offset now ss (update_one now s m).1 steady live.1
      (update_one-Fits offset now steady s live.0 m h)

-- An update of a well-formed schedule leaves a well-formed one, where the clocks are `offset` apart
-- at the time of the update and every scheme of the list starts before it stops, stops after now
-- and has times below 2 ^ 64. A schedule is well formed where the elements of the timeline are in
-- the order of system time and have both clocks `offset` apart, no identifier is both idle and
-- enabled, every enabled scheme has its stop time in the timeline, and every idle one has both of
-- its times there and starts before it stops.
pub update_maps_and_time_line-Fits :
    (offset : ℕ) (now : TimePoint) (ss : List CollectionScheme) (m : Schedule)
    → IsSteady offset now
    → All (IsLive now.system_time_ms) ss
    → Fits offset m
    → Fits offset (update_maps_and_time_line now ss m).1
unfolding update_maps_and_time_line
update_maps_and_time_line-Fits offset now ss m steady live h =
    let updated = update_all now ss m in
    let f = update_all-Fits offset now ss m steady live h in
    record {
      ordered = f.ordered;
      at_key = λ k. elim (Bool-cases (is_listed k ss)) [
        | inl e ↦
            rw
              (lookup-keep_listed k ss updated.1.enabled, lookup-keep_listed k ss updated.1.idle, e)
              (f.at_key k)
        | inr e ↦
            rw
              (lookup-keep_listed k ss updated.1.enabled, lookup-keep_listed k ss updated.1.idle, e)
              (tt, tt, tt)
      ];
    }
