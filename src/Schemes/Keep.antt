-- ===== src/Schemes/Keep.antt =====
-- The changes of one scheme in `updateMapsandTimeLine` of src/CollectionSchemeManager.cpp, and the
-- timeline.
use aws_iot_fleetwise_edge.Prelude.{
  ℕ, ◌^◌, ◌<◌, ◌≡◌, refl, false, List, Option, none, some, arith, ◌==◌, ==_refl, lookup, lookup-put,
  Bool-cases, inl, inr,
}
use aws_iot_fleetwise_edge.Schemes.Types.{TimePoint, CollectionScheme, TimeData, Schedule}
use aws_iot_fleetwise_edge.Schemes.Schedule.{push_at, enable, make_idle}
use aws_iot_fleetwise_edge.Schemes.TimeLine.{
  IsOrdered, IsSteady, push_at-IsOrdered, has_entry-push_at,
}
use aws_iot_fleetwise_edge.Schemes.Scheduled.{AtKey, IsScheduled}

abbrev pub Fits : ℕ → Schedule → Type 0
Fits offset m = IsScheduled offset m.time_line m.idle m.enabled

-- A scheme that starts before it stops, and stops after now.
pub record IsLive (now : ℕ) (s : CollectionScheme) : Type 0 where
  pub starts_first : s.start_time < s.expiry_time
  pub stops_later : now < s.expiry_time
  pub times_small : s.expiry_time < 2 ^ 64

push_at-AtKey :
    (now : TimePoint) (t id : ℕ) (ds : List TimeData) (k : ℕ) (i e : Option CollectionScheme)
    → AtKey ds k i e
    → AtKey (push_at now t id ds) k i e
push_at-AtKey now t id ds k none none h = h
push_at-AtKey now t id ds k none (some s) h =
    (tt, rw (has_entry-push_at s.expiry_time k now t id ds) (ground (arith, h.1)), tt)
push_at-AtKey now t id ds k (some s) none h = (
  tt,
  tt,
  (
    rw (has_entry-push_at s.start_time k now t id ds) (ground (arith, h.2)),
    rw (has_entry-push_at s.expiry_time k now t id ds) (ground (arith, h.2)),
    h.2.2,
  ),
)
push_at-AtKey now t id ds k (some s) (some u) h = absurd h.0

-- A change of the maps at one key, and a longer timeline.
pub step-Fits :
    (offset id : ℕ) (m m' : Schedule)
    → IsOrdered offset m'.time_line
    → ((k : ℕ) → (id == k) ≡ false → lookup k m'.idle ≡ lookup k m.idle)
    → ((k : ℕ) → (id == k) ≡ false → lookup k m'.enabled ≡ lookup k m.enabled)
    → ((k : ℕ) → AtKey m'.time_line k (lookup k m.idle) (lookup k m.enabled))
    → AtKey m'.time_line id (lookup id m'.idle) (lookup id m'.enabled)
    → Fits offset m'
step-Fits offset id m m' o i e g a = record {
  ordered = o;
  at_key = λ k. elim (Bool-cases (id == k)) [
    | inl n ↦ let q : k ≡ id = ground (arith, n) in rw q a
    | inr n ↦ rw (i k n, e k n) (g k)
  ];
}

module _ (offset : ℕ) (now : TimePoint) (steady : IsSteady offset now) (s : CollectionScheme)
    (live : IsLive now.system_time_ms s) (m : Schedule) (h : Fits offset m) where
  pub enable-Fits : lookup s.collection_scheme_id m.idle ≡ none → Fits offset (enable now s m)
  enable-Fits f =
      step-Fits offset s.collection_scheme_id m (enable now s m)
        (push_at-IsOrdered offset now s.expiry_time s.collection_scheme_id m.time_line steady
          (omega (arith, live)) live.times_small h.ordered)
        (λ k n. refl) (λ k n. rw (lookup-put s.collection_scheme_id k s m.enabled, n) refl)
        (λ k. push_at-AtKey now s.expiry_time s.collection_scheme_id m.time_line k _ _ (h.at_key k))
        (rw
          (
            f,
            lookup-put s.collection_scheme_id s.collection_scheme_id s m.enabled,
            ==_refl s.collection_scheme_id,
          )
          (
            tt,
            rw
                (
                  has_entry-push_at s.expiry_time s.collection_scheme_id now s.expiry_time
                      s.collection_scheme_id m.time_line,
                  ==_refl s.expiry_time,
                  ==_refl s.collection_scheme_id,
                )
                refl,
            tt,
          ))

  pub make_idle-Fits :
      now.system_time_ms < s.start_time
      → lookup s.collection_scheme_id m.enabled ≡ none
      → Fits offset (make_idle now s m)
  make_idle-Fits l f =
      let id = s.collection_scheme_id in
      let started = push_at now s.start_time id m.time_line in
      step-Fits offset id m (make_idle now s m)
        (push_at-IsOrdered offset now s.expiry_time id started steady (omega (arith, live))
          live.times_small
          (push_at-IsOrdered offset now s.start_time id m.time_line steady (omega arith)
            (omega (arith, live)) h.ordered))
        (λ k n. rw (lookup-put id k s m.idle, n) refl) (λ k n. refl)
        (λ k.
          push_at-AtKey now s.expiry_time id started k _ _
            (push_at-AtKey now s.start_time id m.time_line k _ _ (h.at_key k)))
        (rw (f, lookup-put id id s m.idle, ==_refl id)
          (
            tt,
            tt,
            (
              rw
                  (
                    has_entry-push_at s.start_time id now s.expiry_time id started,
                    has_entry-push_at s.start_time id now s.start_time id m.time_line,
                  )
                  (ground arith),
              rw (has_entry-push_at s.expiry_time id now s.expiry_time id started) (ground arith),
              live.starts_first,
            ),
          ))
