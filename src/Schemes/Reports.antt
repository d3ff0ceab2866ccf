-- ===== src/Schemes/Reports.antt =====
-- What the result of `updateMapsandTimeLine` in src/CollectionSchemeManager.cpp reports.
use aws_iot_fleetwise_edge.Prelude.{
  ℕ, ◌≡◌, ◌≢◌, refl, sym, ◌∙◌, Bool, true, false, not, ◌&&◌, ◌||◌, List, [], ◌∷◌, Option, none,
  some, arith, leb, ltb, ◌==◌, ==_refl, All, lookup, put, remove, Option-cases, Bool-cases, inl,
  inr,
}
use aws_iot_fleetwise_edge.Schemes.Types.{TimePoint, CollectionScheme, is_equal, Schedule}
use aws_iot_fleetwise_edge.Schemes.Schedule.{
  update_enabled, update_idle, add_new, update_one, update_all, find_listed, is_listed, keep_listed,
  update_maps_and_time_line,
}
use aws_iot_fleetwise_edge.Schemes.Update.{
  IsDistinct, update_one-enabled, update_maps_and_time_line-each,
}

-- Whether a scheme of the list is news, given the scheme that was enabled under its identifier: an
-- enabled one has no time left or is another one, and one that is not enabled runs now.
abbrev pub is_news : TimePoint → CollectionScheme → Option CollectionScheme → Bool
is_news now s (some current) = leb s.expiry_time now.system_time_ms || not (is_equal s current)
is_news now s none = leb s.start_time now.system_time_ms && ltb now.system_time_ms s.expiry_time

abbrev pub any_news : TimePoint → List CollectionScheme → List (ℕ × CollectionScheme) → Bool
any_news now [] enabled = false
any_news now (s ∷ ss) enabled =
    is_news now s (lookup s.collection_scheme_id enabled) || any_news now ss enabled

-- Whether an enabled scheme is not in the list any more.
abbrev pub any_unlisted : List CollectionScheme → List (ℕ × CollectionScheme) → Bool
any_unlisted ss [] = false
any_unlisted ss ((k, s) ∷ m) = not (is_listed k ss) || any_unlisted ss m

update_one-is_news :
    (now : TimePoint) (s : CollectionScheme) (m : Schedule)
    → (update_one now s m).0 ≡ is_news now s (lookup s.collection_scheme_id m.enabled)
unfolding update_one update_enabled update_idle add_new
update_one-is_news now s m = elim (Option-cases (lookup s.collection_scheme_id m.enabled)) [
  | inr (c, e) ↦ rw (e, update_one) (ground (arith, e))
  | inl e ↦ elim (Option-cases (lookup s.collection_scheme_id m.idle)) [
    | inr (c, f) ↦ rw (e, f, update_one) (ground (arith, e, f))
    | inl f ↦ rw (e, f, update_one) (ground (arith, e, f))
  ]
]

-- The scheme of another identifier is news, or not, after a round as before.
any_news_elsewhere :
    (now : TimePoint) (s : CollectionScheme) (ss : List CollectionScheme) (m : Schedule)
    → find_listed s.collection_scheme_id ss ≡ none
    → any_news now ss (update_one now s m).1.enabled ≡ any_news now ss m.enabled
any_news_elsewhere now s [] m h = refl
any_news_elsewhere now s (u ∷ us) m h =
    elim (Bool-cases (u.collection_scheme_id == s.collection_scheme_id)) [
      | inl e ↦ ground (arith, e, h)
      | inr e ↦
          let other : (s.collection_scheme_id == u.collection_scheme_id) ≡ false = ground arith in
          let rest : find_listed s.collection_scheme_id us ≡ none = ground (arith, e, h) in
          rw
            (
              update_one-enabled now u.collection_scheme_id s m,
              other,
              any_news_elsewhere now s us m rest,
            )
            refl
    ]

update_all-any_news :
    (now : TimePoint) (ss : List CollectionScheme) (m : Schedule)
    → IsDistinct ss
    → (update_all now ss m).0 ≡ any_news now ss m.enabled
unfolding update_all
update_all-any_news now [] m d = refl
update_all-any_news now (s ∷ ss) m d =
    rw
      (
        update_one-is_news now s m,
        update_all-any_news now ss (update_one now s m).1 d.1,
        any_news_elsewhere now s ss m d.0,
      )
      refl

keep_listed-any_unlisted :
    (ss : List CollectionScheme) (m : List (ℕ × CollectionScheme))
    → (keep_listed ss m).0 ≡ any_unlisted ss m
unfolding keep_listed
keep_listed-any_unlisted ss [] = refl
keep_listed-any_unlisted ss ((k, s) ∷ m) = ground (arith, keep_listed-any_unlisted ss m)

module _ (ss : List CollectionScheme) (k : ℕ) (listed : is_listed k ss ≡ true) where
  any_unlisted-put :
      (s : CollectionScheme) (m : List (ℕ × CollectionScheme))
      → any_unlisted ss (put k s m) ≡ any_unlisted ss m
  any_unlisted-put s [] = rw listed refl
  any_unlisted-put s ((j, u) ∷ m) = elim (Bool-cases (j == k)) [
    | inl e ↦ rw e refl
    | inr e ↦ elim (Bool-cases (ltb k j)) [
      | inl l ↦ rw (e, l, listed) refl
      | inr l ↦ rw (e, l, any_unlisted-put s m) refl
    ]
  ]

  any_unlisted-remove :
      (m : List (ℕ × CollectionScheme)) → any_unlisted ss (remove k m) ≡ any_unlisted ss m
  any_unlisted-remove [] = refl
  any_unlisted-remove ((j, u) ∷ m) = elim (Bool-cases (j == k)) [
    | inl e ↦ let same : j ≡ k = ground arith in rw (e, any_unlisted-remove m, same, listed) refl
    | inr e ↦ rw (e, any_unlisted-remove m) refl
  ]

update_one-any_unlisted :
    (now : TimePoint) (ss : List CollectionScheme) (s : CollectionScheme) (m : Schedule)
    → is_listed s.collection_scheme_id ss ≡ true
    → any_unlisted ss (update_one now s m).1.enabled ≡ any_unlisted ss m.enabled
unfolding update_one update_enabled update_idle add_new
update_one-any_unlisted now ss s m h =
    let id = s.collection_scheme_id in
    let one = any_unlisted-put ss id h s m.enabled in
    let two = any_unlisted-put ss id h s (put id s m.enabled) in
    let gone = any_unlisted-remove ss id h m.enabled in
    elim (Option-cases (lookup id m.enabled)) [
      | inr (c, e) ↦ rw (e, update_one) (ground (arith, one, two, gone))
      | inl e ↦ elim (Option-cases (lookup id m.idle)) [
        | inr (c, f) ↦ rw (e, f, update_one) (ground (arith, one))
        | inl f ↦ rw (e, f, update_one) (ground (arith, one))
      ]
    ]

abbrev IsListedIn : List CollectionScheme → CollectionScheme → Type 0
IsListedIn ss s = is_listed s.collection_scheme_id ss ≡ true

All-IsListedIn-more :
    (s : CollectionScheme) (ss us : List CollectionScheme)
    → All (IsListedIn ss) us
    → All (IsListedIn (s ∷ ss)) us
All-IsListedIn-more s ss [] h = tt
All-IsListedIn-more s ss (u ∷ us) h = (ground (arith, h.0), All-IsListedIn-more s ss us h.1)

All-IsListedIn_self : (ss : List CollectionScheme) → All (IsListedIn ss) ss
All-IsListedIn_self [] = tt
All-IsListedIn_self (s ∷ ss) = (
  rw (is_listed, ==_refl s.collection_scheme_id) refl,
  All-IsListedIn-more s ss ss (All-IsListedIn_self ss),
)

update_all-any_unlisted :
    (now : TimePoint) (ss us : List CollectionScheme) (m : Schedule)
    → All (IsListedIn ss) us
    → any_unlisted ss (update_all now us m).1.enabled ≡ any_unlisted ss m.enabled
unfolding update_all
update_all-any_unlisted now ss [] m h = refl
update_all-any_unlisted now ss (u ∷ us) m h =
    update_all-any_unlisted now ss us (update_one now u m).1 h.1
    ∙ update_one-any_unlisted now ss u m h.0

-- For a list without repeated identifiers, `updateMapsandTimeLine` returns true if and only if a scheme
-- of the list is news or an enabled scheme is not in the list. News is a scheme that was enabled and
-- has no time left or is not equal to the enabled one, and a scheme that was not enabled and runs now.
pub update_maps_and_time_line-reports :
    (now : TimePoint) (ss : List CollectionScheme) (m : Schedule)
    → IsDistinct ss
    → (update_maps_and_time_line now ss m).0
      ≡ (any_news now ss m.enabled || any_unlisted ss m.enabled)
unfolding update_maps_and_time_line
update_maps_and_time_line-reports now ss m d =
    rw
      (
        keep_listed-any_unlisted ss (update_all now ss m).1.enabled,
        update_all-any_unlisted now ss ss m (All-IsListedIn_self ss),
        update_all-any_news now ss m d,
      )
      refl

no_news :
    (now : TimePoint) (k : ℕ) (s : CollectionScheme) (ss : List CollectionScheme)
    (enabled : List (ℕ × CollectionScheme))
    → any_news now ss enabled ≡ false
    → find_listed k ss ≡ some s
    → is_news now s (lookup k enabled) ≡ false
no_news now k s [] enabled h f = absurd (cc)
no_news now k s (u ∷ us) enabled h f = elim (Bool-cases (u.collection_scheme_id == k)) [
  | inl e ↦
      let found : u ≡ s = ground (arith, rw e at f) in
      let same : u.collection_scheme_id ≡ k = ground arith in
      let quiet : is_news now u (lookup u.collection_scheme_id enabled) ≡ false =
        ground (arith, h) in
      rw (sym found, sym same) quiet
  | inr e ↦ no_news now k s us enabled (ground (arith, h)) (rw e at f)
]

-- No scheme of the list is news, every enabled scheme is in the list, and the list has no repeated
-- identifier; then `updateMapsandTimeLine` returns false, but a scheme of the list whose stop time
-- differs from that of the enabled scheme with its identifier has replaced it.
pub new_stop_time_unreported :
    (now : TimePoint) (ss : List CollectionScheme) (m : Schedule) (k : ℕ)
    (s current : CollectionScheme)
    → IsDistinct ss
    → any_news now ss m.enabled ≡ false
    → any_unlisted ss m.enabled ≡ false
    → find_listed k ss ≡ some s
    → lookup k m.enabled ≡ some current
    → s.expiry_time ≢ current.expiry_time
    → ((update_maps_and_time_line now ss m).0 ≡ false)
      × (lookup k (update_maps_and_time_line now ss m).1.enabled ≡ some s)
new_stop_time_unreported now ss m k s current d news unlisted f e x =
    let quiet = no_news now k s ss m.enabled news f in
    let news_of_current : is_news now s (some current) ≡ false = (rw e at quiet) in
    let runs : leb s.expiry_time now.system_time_ms ≡ false = ground arith in
    let differs : (s.expiry_time == current.expiry_time) ≡ false = ground arith in
    (
      rw (update_maps_and_time_line-reports now ss m d, news, unlisted) refl,
      rw ((update_maps_and_time_line-each now ss m k d).0, f, e, runs, differs) (ground arith),
    )
