-- ===== src/Schemes/Changes.antt =====
-- The results of `updateMapsandTimeLine` in src/CollectionSchemeManager.cpp: whether the enabled
-- schemes changed, by which the caller decides to extract the inspection matrix again.
use aws_iot_fleetwise_edge.Prelude.{
  ℕ, ◌≡◌, refl, ◌∙◌, Bool, true, false, List, [], ◌∷◌, Option, none, some, arith, ◌||◌, lookup,
  lookup-put, Option-cases, inl, inr,
}
use aws_iot_fleetwise_edge.Schemes.Types.{TimePoint, CollectionScheme, Schedule}
use aws_iot_fleetwise_edge.Schemes.Schedule.{
  update_enabled, update_idle, add_new, update_one, update_all, keep_listed,
  update_maps_and_time_line,
}

abbrev is_present : Option CollectionScheme → Bool
is_present none = false
is_present (some s) = true

abbrev pub is_enabled : ℕ → Schedule → Bool
is_enabled k m = is_present (lookup k m.enabled)

update_one-unchanged :
    (now : TimePoint) (k : ℕ) (s : CollectionScheme) (m : Schedule)
    → (update_one now s m).0 ≡ false
    → is_enabled k (update_one now s m).1 ≡ is_enabled k m
unfolding update_one update_enabled update_idle add_new
update_one-unchanged now k s m h = elim (Option-cases (lookup s.collection_scheme_id m.enabled)) [
  | inr (c, e) ↦
      rw (e, update_one) (ground (arith, e, h, lookup-put s.collection_scheme_id k s m.enabled))
  | inl e ↦ elim (Option-cases (lookup s.collection_scheme_id m.idle)) [
    | inr (c, f) ↦ rw (e, f, update_one) (ground (arith, e, f, h))
    | inl f ↦ rw (e, f, update_one) (ground (arith, e, f, h))
  ]
]

or-false : (a b : Bool) → (a || b) ≡ false → (a ≡ false) × (b ≡ false)
or-false a b h = ground arith

update_all-unchanged :
    (now : TimePoint) (k : ℕ) (ss : List CollectionScheme) (m : Schedule)
    → (update_all now ss m).0 ≡ false
    → is_enabled k (update_all now ss m).1 ≡ is_enabled k m
unfolding update_all
update_all-unchanged now k [] m h = refl
update_all-unchanged now k (s ∷ ss) m h =
    let one = update_one now s m in
    let f = or-false one.0 (update_all now ss one.1).0 h in
    update_all-unchanged now k ss one.1 f.1 ∙ update_one-unchanged now k s m f.0

keep_listed-unchanged :
    (ss : List CollectionScheme) (m : List (ℕ × CollectionScheme))
    → (keep_listed ss m).0 ≡ false
    → (keep_listed ss m).1 ≡ m
unfolding keep_listed
keep_listed-unchanged ss [] h = refl
keep_listed-unchanged ss ((k, s) ∷ m) h = ground (arith, keep_listed-unchanged ss m)

-- After an update that returns false, each identifier is enabled if and only if it was before.
pub update_maps_and_time_line-unchanged :
    (now : TimePoint) (ss : List CollectionScheme) (m : Schedule) (k : ℕ)
    → (update_maps_and_time_line now ss m).0 ≡ false
    → is_enabled k (update_maps_and_time_line now ss m).1 ≡ is_enabled k m
unfolding update_maps_and_time_line
update_maps_and_time_line-unchanged now ss m k h =
    let updated = update_all now ss m in
    let f = or-false updated.0 (keep_listed ss updated.1.enabled).0 h in
    rw (keep_listed-unchanged ss updated.1.enabled f.1) (update_all-unchanged now k ss m f.0)
