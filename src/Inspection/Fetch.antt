-- ===== src/Inspection/Fetch.antt =====
-- The fetch conditions of evaluateConditions of src/CollectionInspectionEngine.cpp, one after the
-- other.
use aws_iot_fleetwise_edge.Prelude.{
  ℕ, false, ◌&&◌, ◌||◌, not, Option-cases, List, [], ◌∷◌, All, ==_refl, Bool-cases, inl, inr, ◌==◌,
  ◌≢◌, lookup-insert, arith, ◌≡◌, refl, ap, ◌∙◌,
}
use aws_iot_fleetwise_edge.Inspection.Types.{
  Arithmetic, ErrorCode, InspectionValue, fresh, is_bool_or_double, as_bool,
}
use aws_iot_fleetwise_edge.Inspection.Types.ErrorCode.{successful}
use aws_iot_fleetwise_edge.Inspection.Types.Expression.{signal}
use aws_iot_fleetwise_edge.Inspection.Eval.{Reads, eval, max_equation_depth}
use aws_iot_fleetwise_edge.Inspection.Conditions.{
  ConditionForFetch, Shared, fetch_one, fetch_all, is_throttled, request_fetch, push_fetch, is_true,
}

module _ (A : Arithmetic) (R : Reads A.Double) where
  -- What getLatestSignalValue does for a signal without a value: it only notes the identifier.
  abbrev pub note_signal : ℕ → InspectionValue A.Double → ErrorCode × InspectionValue A.Double
  note_signal id v = (successful, record { content = v.content; signal_id = id })

  eval-signal :
      (id : ℕ) (v : InspectionValue A.Double)
      → eval A R max_equation_depth (signal id) v ≡ R.latest id v
  unfolding eval
  eval-signal id v = refl

  -- For a fetch condition that is a signal without a value, and that is not throttled: it counts as
  -- true if and only if the value that the fetch condition before it left is true.
  fetch_one-stale :
      (min_interval now id : ℕ) (f : ConditionForFetch A.Double) (v : InspectionValue A.Double)
      (s : Shared)
      → f.condition ≡ signal id
      → R.latest id v ≡ note_signal id v
      → is_throttled min_interval now f.fetch_request_id s ≡ false
      → (fetch_one A R min_interval now f v s).1.fetch_currently_true f.fetch_request_id
        ≡ (is_bool_or_double v && as_bool A v.content)
  fetch_one-stale min_interval now id f v s is_signal none_yet free =
      let evaluated : eval A R max_equation_depth f.condition v ≡ note_signal id v =
        ap (λ e. eval A R max_equation_depth e v) is_signal ∙ eval-signal id v ∙ none_yet in
      elim (Bool-cases (is_bool_or_double v && as_bool A v.content)) [
        | inl t ↦ rw (free, fetch_one, evaluated, t, ==_refl f.fetch_request_id) refl
        | inr t ↦ rw (free, fetch_one, evaluated, t, ==_refl f.fetch_request_id) refl
      ]

  -- What a step leaves of another request: its bit and its throttling.
  abbrev LeavesAlone : ℕ → ℕ → ℕ → Shared → Shared → Type 0
  LeavesAlone min_interval now j s s' =
      (s'.fetch_currently_true j ≡ s.fetch_currently_true j)
      × (is_throttled min_interval now j s' ≡ is_throttled min_interval now j s)

  request_fetch-LeavesAlone :
      (min_interval now k j : ℕ) (s : Shared)
      → (k == j) ≡ false
      → LeavesAlone min_interval now j s (request_fetch now k s)
  request_fetch-LeavesAlone min_interval now k j s other =
      let put = lookup-insert k j now s.last_fetch_trigger in
      elim (Option-cases (push_fetch k s.fetch_queue)) [
        | inl e ↦ rw (request_fetch, e) (refl, refl)
        | inr (q, e) ↦ rw (request_fetch, e) (refl, rw (is_throttled, put, other) refl)
      ]

  fetch_one-LeavesAlone :
      (min_interval now j : ℕ) (h : ConditionForFetch A.Double) (v : InspectionValue A.Double)
      (s : Shared)
      → h.fetch_request_id ≢ j
      → LeavesAlone min_interval now j s (fetch_one A R min_interval now h v s).1
  fetch_one-LeavesAlone min_interval now j h v s d =
      let k = h.fetch_request_id in
      let other : (k == j) ≡ false = ground arith in
      let back : (j == k) ≡ false = ground arith in
      let requested = request_fetch-LeavesAlone min_interval now k j s other in
      let evaluated = eval A R max_equation_depth h.condition v in
      elim (Bool-cases (is_throttled min_interval now k s)) [
        | inl t ↦ rw (fetch_one, t) (refl, refl)
        | inr t ↦ elim (Bool-cases (is_true A evaluated)) [
          | inr b ↦ rw (fetch_one, t, b, back) (refl, refl)
          | inl b ↦
              elim (Bool-cases
                (not h.trigger_only_on_rising_edge || not (s.fetch_currently_true k))) [
                  | inl r ↦ rw (fetch_one, t, b, r, back) requested
                  | inr r ↦ rw (fetch_one, t, b, r, back) (refl, refl)
                ]
        ]
      ]

  abbrev pub RequestsOther : ℕ → ConditionForFetch A.Double → Type 0
  RequestsOther j h = h.fetch_request_id ≢ j

  fetch_all-elsewhere :
      (min_interval now j : ℕ) (hs : List (ConditionForFetch A.Double))
      (v : InspectionValue A.Double) (s : Shared)
      → All (RequestsOther j) hs
      → (fetch_all A R min_interval now hs v s).fetch_currently_true j ≡ s.fetch_currently_true j
  fetch_all-elsewhere min_interval now j [] v s d = refl
  fetch_all-elsewhere min_interval now j (h ∷ hs) v s d =
      let (left, next) = fetch_one A R min_interval now h v s in
      fetch_all-elsewhere min_interval now j hs left next d.1
      ∙ (fetch_one-LeavesAlone min_interval now j h v s d.0).0

  -- The loop over the fetch conditions of a condition, at a fetch condition `f` that is a signal without
  -- a value: its evaluation succeeds and leaves the result value, but for the identifier. The others
  -- have other requests than `f`, and neither `f` nor the fetch condition `g` before it, whose evaluation
  -- succeeds with `w`, is throttled. Then `f` counts as true if and only if `w` is a true value, while it
  -- counts as false when it is the first one.
  pub fetch_all-stale :
      (min_interval now id : ℕ) (g f : ConditionForFetch A.Double)
      (after : List (ConditionForFetch A.Double)) (w : InspectionValue A.Double) (s : Shared)
      → f.condition ≡ signal id
      → ((v : InspectionValue A.Double) → R.latest id v ≡ note_signal id v)
      → eval A R max_equation_depth g.condition fresh ≡ (successful, w)
      → is_throttled min_interval now g.fetch_request_id s ≡ false
      → is_throttled min_interval now f.fetch_request_id s ≡ false
      → g.fetch_request_id ≢ f.fetch_request_id
      → All (RequestsOther f.fetch_request_id) after
      → ((fetch_all A R min_interval now (g ∷ f ∷ after) fresh s).fetch_currently_true
            f.fetch_request_id
          ≡ (is_bool_or_double w && as_bool A w.content))
        × ((fetch_all A R min_interval now (f ∷ after) fresh s).fetch_currently_true
              f.fetch_request_id
            ≡ false)
  fetch_all-stale min_interval now id g f after w s is_signal none_yet evaluated free_g free other
        others =
      let (left, next) = fetch_one A R min_interval now g fresh s in
      let first : left ≡ w = rw (fetch_one, free_g, evaluated) refl in
      let alone = fetch_one-LeavesAlone min_interval now f.fetch_request_id g fresh s other in
      let one = fetch_one A R min_interval now f left next in
      let one_first = fetch_one A R min_interval now f fresh s in
      (
        fetch_all-elsewhere min_interval now f.fetch_request_id after one.0 one.1 others
            ∙ fetch_one-stale min_interval now id f left next is_signal (none_yet left)
                (alone.1 ∙ free)
            ∙ ap (λ x. is_bool_or_double x && as_bool A x.content) first,
        fetch_all-elsewhere min_interval now f.fetch_request_id after one_first.0 one_first.1 others
            ∙ fetch_one-stale min_interval now id f fresh s is_signal (none_yet fresh) free,
      )
