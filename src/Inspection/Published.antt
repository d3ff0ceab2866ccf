-- ===== src/Inspection/Published.antt =====
-- Which condition collectNextDataToSend publishes.
use aws_iot_fleetwise_edge.Prelude.{
  ℕ, zero, suc, ◌+◌, ◌-◌, ◌%◌, ◌≤◌, ◌<◌, ◌^◌, Bool, true, false, ◌&&◌, ◌||◌, not, List, [], ◌∷◌,
  Option, none, some, Option-cases, Bool-cases, inl, inr, length, get_elem?, leb, ltb, ◌==◌,
  if◌then◌else◌, min, ◌≡◌, refl, sym, ap, ◌∙◌, arith,
}
use aws_iot_fleetwise_edge.Schemes.Types.{TimePoint}
use aws_iot_fleetwise_edge.Inspection.Conditions.{ConditionWithCollectedData, ConditionState}
use aws_iot_fleetwise_edge.Inspection.Publish.{
  is_ready, find_next, none_waiting, wrap_index, remaining_time, Collector,
  collect_next_data_to_send,
}

abbrev pub is_some {ℓ} : {A : Type ℓ} → Option A → Bool
is_some none = false
is_some (some a) = true

or_false : (a : Bool) → (a || false) ≡ a
or_false true = refl
or_false false = refl

or_comm : (a b : Bool) → (a || b) ≡ (b || a)
or_comm true b = ground arith
or_comm false b = ground arith

or_assoc : (a b c : Bool) → (a || (b || c)) ≡ ((a || b) || c)
or_assoc true b c = refl
or_assoc false b c = refl

get_elem_in :
    {A : Type 0} (xs : List A) (i : ℕ) → i < length xs → (x : A) × (get_elem? xs i ≡ some x)
get_elem_in [] i h = absurd (omega arith)
get_elem_in (x ∷ xs) zero h = (x, refl)
get_elem_in (x ∷ xs) (suc i) h = get_elem_in xs i (omega arith)

module _ {D : Type 0} (now : TimePoint) where
  -- The condition was triggered and is not published yet, and its after duration has passed since; a
  -- trigger at time zero is due at once.
  abbrev pub is_due : ConditionWithCollectedData D → ConditionState → Bool
  is_due c s =
      s.waiting_published
      && ((s.last_trigger.system_time_ms + s.last_trigger.monotonic_time_ms == 0)
          || not (
              ltb now.monotonic_time_ms
                ((s.last_trigger.monotonic_time_ms + c.after_duration) % 2 ^ 64)))

  abbrev pub any_due : List (ConditionWithCollectedData D × ConditionState) → Bool
  any_due [] = false
  any_due ((c, s) ∷ cs) = is_due c s || any_due cs

  abbrev some_ready : List (ConditionWithCollectedData D × ConditionState) → Bool
  some_ready [] = false
  some_ready ((c, s) ∷ cs) = is_ready now c s || some_ready cs

  abbrev ready_at : List (ConditionWithCollectedData D × ConditionState) → ℕ → Bool
  ready_at cs i = elim (get_elem? cs i) [ none ↦ false | some (c, s) ↦ is_ready now c s ]

  -- One of the `n` conditions from index `i` on is ready.
  abbrev ready_in : List (ConditionWithCollectedData D × ConditionState) → ℕ → ℕ → Bool
  ready_in cs i zero = false
  ready_in cs i (suc n) = ready_at cs i || ready_in cs (suc i) n

  ready_in-tail :
      (e : ConditionWithCollectedData D × ConditionState)
      (cs : List (ConditionWithCollectedData D × ConditionState)) (i n : ℕ)
      → ready_in (e ∷ cs) (suc i) n ≡ ready_in cs i n
  ready_in-tail e cs i zero = refl
  ready_in-tail e cs i (suc n) = ap (λ b. ready_at cs i || b) (ready_in-tail e cs (suc i) n)

  ready_in-some :
      (cs : List (ConditionWithCollectedData D × ConditionState))
      → ready_in cs 0 (length cs) ≡ some_ready cs
  ready_in-some [] = refl
  ready_in-some ((c, s) ∷ cs) =
      ap (λ b. is_ready now c s || b) (ready_in-tail (c, s) cs 0 (length cs) ∙ ready_in-some cs)

  ready_in-split :
      (cs : List (ConditionWithCollectedData D × ConditionState)) (i n m : ℕ)
      → ready_in cs i (n + m) ≡ (ready_in cs i n || ready_in cs (i + n) m)
  ready_in-split cs i zero m =
      let a : 0 + m ≡ m = omega arith in let b : i + 0 ≡ i = omega arith in rw (a, b) refl
  ready_in-split cs i (suc n) m =
      let a : suc n + m ≡ suc (n + m) = omega arith in
      let b : i + suc n ≡ suc i + n = omega arith in
      rw (a, b, ready_in-split cs (suc i) n m)
        (or_assoc (ready_at cs i) (ready_in cs (suc i) n) (ready_in cs (suc i + n) m))

  -- Whether something is found does not depend on the time to wait so far.
  found_any_wait :
      (cs : List (ConditionWithCollectedData D × ConditionState)) (n i wait other : ℕ)
      → is_some (find_next now cs n i wait).0 ≡ is_some (find_next now cs n i other).0
  unfolding find_next
  found_any_wait cs zero i wait other = refl
  found_any_wait cs (suc n) i wait other =
      elim (Option-cases (get_elem? cs (wrap_index (length cs) i))) [
        | inl e ↦ rw (e, is_some, find_next) refl
        | inr ((c, s), e) ↦ elim (Bool-cases (is_ready now c s)) [
          | inl r ↦ rw (e, is_some, find_next, r) refl
          | inr r ↦
              rw (e, is_some, find_next, r)
                (found_any_wait cs n (wrap_index (length cs) i + 1)
                  (if s.waiting_published then min wait (remaining_time now c s) else wait)
                  (if s.waiting_published then min other (remaining_time now c s) else other))
        ]
      ]

  found_step :
      (cs : List (ConditionWithCollectedData D × ConditionState)) (n i wait : ℕ)
      → wrap_index (length cs) i < length cs
      → is_some (find_next now cs (suc n) i wait).0 ≡ (
          ready_at cs (wrap_index (length cs) i)
          || is_some (find_next now cs n (suc (wrap_index (length cs) i)) wait).0)
  unfolding find_next
  found_step cs n i wait h =
      let ((c, s), e) = get_elem_in cs (wrap_index (length cs) i) h in
      let at_index : ready_at cs (wrap_index (length cs) i) ≡ is_ready now c s =
        rw (e, ready_at) refl in
      let next : wrap_index (length cs) i + 1 ≡ suc (wrap_index (length cs) i) = omega arith in
      let later = if s.waiting_published then min wait (remaining_time now c s) else wait in
      elim (Bool-cases (is_ready now c s)) [
        | inl r ↦ rw (at_index, r, e, is_some, find_next, r) refl
        | inr r ↦
            rw (at_index, r, e, is_some, find_next, r, next)
              (found_any_wait cs n (suc (wrap_index (length cs) i)) later wait)
      ]

  -- From an index on, for as many rounds as do not pass the end, and then on.
  found_up :
      (cs : List (ConditionWithCollectedData D × ConditionState)) (i n m wait : ℕ)
      → i + n ≤ length cs
      → is_some (find_next now cs (n + m) i wait).0
        ≡ (ready_in cs i n || is_some (find_next now cs m (i + n) wait).0)
  found_up cs i zero m wait h =
      let a : 0 + m ≡ m = omega arith in let b : i + 0 ≡ i = omega arith in rw (a, b) refl
  found_up cs i (suc n) m wait h =
      let a : suc n + m ≡ suc (n + m) = omega arith in
      let b : i + suc n ≡ suc i + n = omega arith in
      let inside : wrap_index (length cs) i ≡ i = ground arith in
      let within : wrap_index (length cs) i < length cs = ground arith in
      let step = found_step cs (n + m) i wait within in
      let whole = (rw inside at step) in
      rw (a, b, whole, found_up cs (suc i) n m wait (omega arith))
        (or_assoc (ready_at cs i) (ready_in cs (suc i) n)
          (is_some (find_next now cs m (suc i + n) wait).0))

  found_wrapped :
      (cs : List (ConditionWithCollectedData D × ConditionState)) (n i wait : ℕ)
      → length cs ≤ i
      → is_some (find_next now cs n i wait).0 ≡ is_some (find_next now cs n 0 wait).0
  unfolding find_next
  found_wrapped cs zero i wait h = refl
  found_wrapped [] (suc n) i wait h = refl
  found_wrapped (e ∷ cs) (suc n) i wait h =
      let a : wrap_index (length (e ∷ cs)) i ≡ 0 = ground arith in
      let b : wrap_index (length (e ∷ cs)) 0 ≡ 0 = ground arith in
      let left = found_step (e ∷ cs) n i wait (ground arith) in
      let right = found_step (e ∷ cs) n 0 wait (ground arith) in
      (rw a at left) ∙ sym (rw b at right)

  -- As many rounds as indices from the first one on, up to an index.
  found_below :
      (cs : List (ConditionWithCollectedData D × ConditionState)) (n wait : ℕ)
      → n ≤ length cs
      → is_some (find_next now cs n 0 wait).0 ≡ ready_in cs 0 n
  unfolding find_next
  found_below cs n wait h =
      let a : n + 0 ≡ n = omega arith in
      let whole = found_up cs 0 n 0 wait (omega arith) in
      (rw a at whole) ∙ or_false (ready_in cs 0 n)

  pub find_next-ready :
      (cs : List (ConditionWithCollectedData D × ConditionState)) (i wait : ℕ)
      → is_some (find_next now cs (length cs) i wait).0 ≡ some_ready cs
  find_next-ready cs i wait = elim (Bool-cases (leb (length cs) i)) [
    | inl t ↦
        found_wrapped cs (length cs) i wait (ground arith)
        ∙ found_below cs (length cs) wait (omega arith)
        ∙ ready_in-some cs
    | inr t ↦
        let n = length cs - i in
        let a : n + i ≡ length cs = ground arith in
        let b : i + n ≡ length cs = ground arith in
        let c : 0 + i ≡ i = omega arith in
        let upper = found_up cs i n i wait (omega arith) in
        let lower =
          found_wrapped cs i (length cs) wait (omega arith) ∙ found_below cs i wait (omega arith) in
        let parts = ready_in-split cs 0 i n in
        (rw (a, b, lower) at upper)
        ∙ or_comm (ready_in cs i n) (ready_in cs 0 i)
        ∙ sym (rw (c, b) at parts)
        ∙ ready_in-some cs
  ]

  none_waiting-ready :
      (cs : List (ConditionWithCollectedData D × ConditionState))
      → none_waiting cs ≡ true
      → some_ready cs ≡ false
  unfolding none_waiting
  none_waiting-ready [] h = refl
  none_waiting-ready ((c, s) ∷ cs) h = ground (arith, none_waiting-ready cs)

  returns_some-ready :
      (m : Collector D)
      → is_some (collect_next_data_to_send now m).collected_index ≡ some_ready m.conditions
  unfolding collect_next_data_to_send
  returns_some-ready m = elim (Bool-cases (none_waiting m.conditions)) [
    | inl t ↦ rw (t, none_waiting-ready m.conditions t) refl
    | inr t ↦
        let found = find_next-ready m.conditions m.next_index (2 ^ 32 - 1) in
        elim (Option-cases
          (find_next now m.conditions (length m.conditions) m.next_index (2 ^ 32 - 1)).0) [
            | inl e ↦ rw (t, e) (rw e at found)
            | inr (i, e) ↦ rw (t, e) (rw e at found)
          ]
  ]

  ready-due :
      (c : ConditionWithCollectedData D) (s : ConditionState) → is_ready now c s ≡ is_due c s
  ready-due c s = ground arith

  some_ready-due :
      (cs : List (ConditionWithCollectedData D × ConditionState)) → some_ready cs ≡ any_due cs
  some_ready-due [] = refl
  some_ready-due ((c, s) ∷ cs) = rw (ready-due c s, some_ready-due cs) refl

  -- collectNextDataToSend returns data exactly when some condition is triggered and not published yet
  -- and its after duration is over, whichever index it looks at first.
  pub collect_next_data_to_send-ready :
      (m : Collector D)
      → is_some (collect_next_data_to_send now m).collected_index ≡ any_due m.conditions
  collect_next_data_to_send-ready m = returns_some-ready m ∙ some_ready-due m.conditions
