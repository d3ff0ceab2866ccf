-- ===== src/Schemes/Scheduled.antt =====
-- The well-formed maps and timelines of src/CollectionSchemeManager.cpp, and a round of the loop of
-- `checkTimeLine`.
use aws_iot_fleetwise_edge.Prelude.{
  subst, ==_refl, ℕ, ◌<◌, ◌≡◌, refl, Bool, true, false, List, ◌∷◌, Option, none, some, arith, ◌==◌,
  leb, lookup, put, remove, lookup-put, lookup-remove, Option-cases, Bool-cases, inl, inr,
}
use aws_iot_fleetwise_edge.Schemes.Types.{TimePoint, CollectionScheme, TimeData}
use aws_iot_fleetwise_edge.Schemes.Schedule.{Round, ends, goes_on, check_top}
use aws_iot_fleetwise_edge.Schemes.TimeLine.{has_entry, IsOrdered, has_entry-IsNotBefore}

-- A predicate on the scheme that a map has under a key.
abbrev pub OnScheme : (CollectionScheme → Type 0) → Option CollectionScheme → Type 0
OnScheme P none = Unit
OnScheme P (some s) = P s

-- An enabled scheme has its stop time in the timeline.
abbrev pub HasStop : List TimeData → ℕ → CollectionScheme → Type 0
HasStop ds k s = has_entry s.expiry_time k ds ≡ true

-- An idle scheme has both of its times in the timeline, and starts before it stops.
abbrev pub HasBoth : List TimeData → ℕ → CollectionScheme → Type 0
HasBoth ds k s =
    (has_entry s.start_time k ds ≡ true)
    × (has_entry s.expiry_time k ds ≡ true)
    × (s.start_time < s.expiry_time)

-- One of two is missing.
abbrev pub IsApart : Option CollectionScheme → Option CollectionScheme → Type 0
IsApart none e = Unit
IsApart (some s) none = Unit
IsApart (some s) (some t) = ⊥

-- What holds of the idle and the enabled scheme of a key: there is one of them at most, and its
-- times are in the timeline.
abbrev pub AtKey : List TimeData → ℕ → Option CollectionScheme → Option CollectionScheme → Type 0
AtKey ds k idle enabled =
    IsApart idle enabled × OnScheme (HasStop ds k) enabled × OnScheme (HasBoth ds k) idle

-- A map of schemes.
abbrev pub SchemeMap : Type 0
SchemeMap = List (ℕ × CollectionScheme)

-- What holds of the maps and the timeline while the clocks are `offset` apart.
pub record IsScheduled (offset : ℕ) (ds : List TimeData) (idle enabled : SchemeMap) : Type 0 where
  pub ordered : IsOrdered offset ds
  pub at_key : (k : ℕ) → AtKey ds k (lookup k idle) (lookup k enabled)

module _ (top : TimeData) (ds : List TimeData) where
  other-AtKey :
      (k : ℕ) (i e : Option CollectionScheme)
      → (top.id == k) ≡ false
      → AtKey (top ∷ ds) k i e
      → AtKey ds k i e
  other-AtKey k none none n a = a
  other-AtKey k none (some s) n a = ground (arith, n, a.1)
  other-AtKey k (some s) none n a = ground (arith, n, a.2)
  other-AtKey k (some s) (some t) n a = absurd a.0

  -- The stop time of an enabled scheme is not the one at the top.
  stale_stop-AtKey :
      (i : Option CollectionScheme) (s : CollectionScheme)
      → (s.expiry_time == top.time.system_time_ms) ≡ false
      → AtKey (top ∷ ds) top.id i (some s)
      → AtKey ds top.id i (some s)
  stale_stop-AtKey none s n a = ground (arith, n, a.1)
  stale_stop-AtKey (some t) s n a = absurd a.0

  stopped-AtKey :
      (i : Option CollectionScheme) (s : CollectionScheme)
      → AtKey (top ∷ ds) top.id i (some s)
      → AtKey ds top.id i none
  stopped-AtKey none s a = (tt, tt, tt)
  stopped-AtKey (some t) s a = absurd a.0

  module _ (offset : ℕ) (o : IsOrdered offset (top ∷ ds)) (s : CollectionScheme)
      (a : AtKey (top ∷ ds) top.id (some s) none) where
    stale_start-AtKey :
        (s.start_time == top.time.system_time_ms) ≡ false → AtKey ds top.id (some s) none
    stale_start-AtKey n =
        ground
          (arith, n, a.2, has_entry-IsNotBefore s.start_time top.id top.time.system_time_ms ds o.1)

    started-AtKey : (s.start_time == top.time.system_time_ms) ≡ true → AtKey ds top.id none (some s)
    started-AtKey n = ground (arith, n, a.2)

-- A round that goes on leaves the maps scheduled with what is left of the timeline.
abbrev pub KeepsRound : ℕ → List TimeData → Round → Type 0
KeepsRound offset ds ends = Unit
KeepsRound offset ds (goes_on changed idle enabled) = IsScheduled offset ds idle enabled

-- The maps after a round: at the key of the top, and at the others.
round-IsScheduled :
    (offset : ℕ) (top : TimeData) (ds : List TimeData) (idle enabled idle' enabled' : SchemeMap)
    → IsScheduled offset (top ∷ ds) idle enabled
    → ((k : ℕ) → (top.id == k) ≡ false → lookup k idle' ≡ lookup k idle)
    → ((k : ℕ) → (top.id == k) ≡ false → lookup k enabled' ≡ lookup k enabled)
    → AtKey ds top.id (lookup top.id idle') (lookup top.id enabled')
    → IsScheduled offset ds idle' enabled'
round-IsScheduled offset top ds idle enabled idle' enabled' h i e a = record {
  ordered = h.ordered.2;
  at_key = λ k. elim (Bool-cases (top.id == k)) [
    | inl n ↦ let q : k ≡ top.id = ground (arith, n) in rw q a
    | inr n ↦
        rw (i k n, e k n) (other-AtKey top ds k (lookup k idle) (lookup k enabled) n (h.at_key k))
  ];
}

-- The entry at the key of the top, with what the maps are known to have there.
at_top :
    (offset : ℕ) (top : TimeData) (ds : List TimeData) (idle enabled : SchemeMap)
    (i e : Option CollectionScheme)
    → IsScheduled offset (top ∷ ds) idle enabled
    → lookup top.id idle ≡ i
    → lookup top.id enabled ≡ e
    → AtKey (top ∷ ds) top.id i e
at_top offset top ds idle enabled i e h f g =
    subst (λ x. AtKey (top ∷ ds) top.id x e) f
      (subst (λ y. AtKey (top ∷ ds) top.id (lookup top.id idle) y) g (h.at_key top.id))

pub check_top-KeepsRound :
    (offset : ℕ) (now : TimePoint) (top : TimeData) (ds : List TimeData) (idle enabled : SchemeMap)
    → IsScheduled offset (top ∷ ds) idle enabled
    → KeepsRound offset ds (check_top now top idle enabled)
unfolding check_top
check_top-KeepsRound offset now top ds idle enabled h =
    let keep : (c : Bool)
        → AtKey ds top.id (lookup top.id idle) (lookup top.id enabled)
        → IsScheduled offset ds idle enabled =
      λ c a.
        round-IsScheduled offset top ds idle enabled idle enabled h (λ k n. refl) (λ k n. refl) a in
    elim (Option-cases (lookup top.id enabled)) [
      | inr (s, e) ↦
          let a = at_top offset top ds idle enabled (lookup top.id idle) (some s) h refl e in
          elim (Bool-cases (s.expiry_time == top.time.system_time_ms)) [
            | inr n ↦
                rw (e, check_top, n)
                  (keep false (rw e (stale_stop-AtKey top ds (lookup top.id idle) s n a)))
            | inl n ↦ elim (Bool-cases (leb top.time.system_time_ms now.system_time_ms)) [
              | inr l ↦ rw (e, check_top, n, l) tt
              | inl l ↦
                  rw (e, check_top, n, l)
                    (round-IsScheduled offset top ds idle enabled idle (remove top.id enabled) h
                      (λ k n'. refl) (λ k n'. rw (lookup-remove top.id k enabled, n') refl)
                      (rw (lookup-remove top.id top.id enabled, ==_refl top.id)
                        (stopped-AtKey top ds (lookup top.id idle) s a)))
            ]
          ]
      | inl e ↦ elim (Option-cases (lookup top.id idle)) [
        | inl f ↦ rw (e, f, check_top) (keep false (rw (e, f) (tt, tt, tt)))
        | inr (s, f) ↦
            let a = at_top offset top ds idle enabled (some s) none h f e in
            elim (Bool-cases (s.start_time == top.time.system_time_ms)) [
              | inr n ↦
                  rw (e, f, check_top, n)
                    (keep false (rw (e, f) (stale_start-AtKey top ds offset h.ordered s a n)))
              | inl n ↦ elim (Bool-cases (leb top.time.system_time_ms now.system_time_ms)) [
                | inr l ↦ rw (e, f, check_top, n, l) tt
                | inl l ↦
                    rw (e, f, check_top, n, l)
                      (round-IsScheduled offset top ds idle enabled (remove top.id idle)
                        (put top.id s enabled) h (λ k n'. rw (lookup-remove top.id k idle, n') refl)
                        (λ k n'. rw (lookup-put top.id k s enabled, n') refl)
                        (rw
                          (
                            lookup-remove top.id top.id idle,
                            lookup-put top.id top.id s enabled,
                            ==_refl top.id,
                          )
                          (started-AtKey top ds offset h.ordered s a n)))
              ]
            ]
      ]
    ]
