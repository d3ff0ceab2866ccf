-- ===== src/Inspection/Recorded.antt =====
-- The samples that a SignalHistoryBuffer holds after a run of addNewSignal.
use aws_iot_fleetwise_edge.Prelude.{
  ℕ, zero, suc, min, ◌+◌, ◌%◌, ◌^◌, ◌<◌, true, List, [], ◌∷◌, length, ◌≡◌, refl, sym, ap, ◌∙◌,
  arith,
}
use aws_iot_fleetwise_edge.Schemes.Types.{TimePoint}
use aws_iot_fleetwise_edge.Inspection.Buffer.{
  Sample, SignalHistoryBuffer, is_sampled, next_position, new_sample, insert_sample, add_to_buffer,
}
use aws_iot_fleetwise_edge.Inspection.History.{
  IsRing, history, insert_sample-history, next_position-below, length-set, take, take_all-recent,
}

module _ {ℓ} {A : Type ℓ} where
  take-take : (k : ℕ) (xs : List A) → take k (take (suc k) xs) ≡ take k xs
  take-take zero xs = refl
  take-take (suc k) [] = refl
  take-take (suc k) (x ∷ xs) = ap (λ zs. x ∷ zs) (take-take k xs)

  take-less : (k : ℕ) (xs ys : List A) → take (suc k) xs ≡ take (suc k) ys → take k xs ≡ take k ys
  take-less k xs ys h = sym (take-take k xs) ∙ ap (take k) h ∙ take-take k ys

  -- Lists that start alike go on to start alike.
  take-cons :
      (k : ℕ) (x : A) (xs ys : List A) → take k xs ≡ take k ys → take k (x ∷ xs) ≡ take k (x ∷ ys)
  take-cons zero x xs ys h = refl
  take-cons (suc k) x xs ys h = ap (λ zs. x ∷ zs) (take-less k xs ys h)

  take_again : (k : ℕ) (xs : List A) → take k (take k xs) ≡ take k xs
  take_again zero xs = refl
  take_again (suc k) [] = refl
  take_again (suc k) (x ∷ xs) = ap (λ zs. x ∷ zs) (take_again k xs)

module _ {V : Type 0} where
  -- The values of a signal in the order in which addNewSignal gets them.
  abbrev pub add_all : List (V × TimePoint) → SignalHistoryBuffer V → SignalHistoryBuffer V
  add_all [] b = b
  add_all ((v, t) ∷ vs) b = add_all vs (add_to_buffer v t b)

  -- All samples, the newest first, in front of those of before.
  abbrev pub newest_first : List (V × TimePoint) → List (Sample V) → List (Sample V)
  newest_first [] older = older
  newest_first ((v, t) ∷ vs) older = newest_first vs (new_sample v t ∷ older)

  take-newest_first :
      (k : ℕ) (vs : List (V × TimePoint)) (xs ys : List (Sample V))
      → take k xs ≡ take k ys
      → take k (newest_first vs xs) ≡ take k (newest_first vs ys)
  take-newest_first k [] xs ys h = h
  take-newest_first k ((v, t) ∷ vs) xs ys h =
      take-newest_first k vs (new_sample v t ∷ xs) (new_sample v t ∷ ys)
        (take-cons k (new_sample v t) xs ys h)

  insert_sample-IsRing :
      (v : V) (t : TimePoint) (b : SignalHistoryBuffer V) → IsRing b → IsRing (insert_sample v t b)
  insert_sample-IsRing v t b ring =
      rw (length-set b.buffer (next_position b) (new_sample v t))
        (ring.0, ring.1, next_position-below b ring.2)

  every-sampled :
      (b : SignalHistoryBuffer V) (t : TimePoint)
      → IsRing b
      → b.minimum_sample_interval_ms ≡ 0
      → is_sampled b t ≡ true
  every-sampled b t ring every = ground arith

  add_to_buffer-insert :
      (v : V) (t : TimePoint) (b : SignalHistoryBuffer V)
      → IsRing b
      → b.minimum_sample_interval_ms ≡ 0
      → add_to_buffer v t b ≡ insert_sample v t b
  add_to_buffer-insert v t b ring every = rw (every-sampled b t ring every, add_to_buffer) refl

  run-history :
      (d : Sample V) (vs : List (V × TimePoint)) (b : SignalHistoryBuffer V)
      → IsRing b
      → b.minimum_sample_interval_ms ≡ 0
      → b.counter + length vs < 2 ^ 64
      → take b.size (history d (add_all vs b)) ≡ take b.size (newest_first vs (history d b))
  run-history d [] b ring every count = refl
  run-history d ((v, t) ∷ vs) b ring every count =
      let next = insert_sample v t b in
      let word : (b.counter + 1) % 2 ^ 64 ≡ b.counter + 1 = omega arith in
      let small : (b.counter + 1) % 2 ^ 64 + length vs < 2 ^ 64 = omega arith in
      ap (λ c. take b.size (history d (add_all vs c))) (add_to_buffer-insert v t b ring every)
      ∙ run-history d vs next (insert_sample-IsRing v t b ring) every small
      ∙ take-newest_first b.size vs (history d next) (new_sample v t ∷ history d b) (
          ap (take b.size) (insert_sample-history d v t b ring (omega arith))
          ∙ take_again b.size (new_sample v t ∷ history d b))

  add_all-size :
      (vs : List (V × TimePoint)) (b : SignalHistoryBuffer V) → (add_all vs b).size ≡ b.size
  add_all-size [] b = refl
  add_all-size ((v, t) ∷ vs) b = add_all-size vs (add_to_buffer v t b) ∙ ground arith

  history_short :
      (d : Sample V) (b : SignalHistoryBuffer V) → take b.size (history d b) ≡ history d b
  history_short d b =
      take_all-recent d b.size (min b.counter b.size) b.current_position b.size b.buffer
        (omega arith)

  -- For a buffer without a minimum interval, whose position is in a ring of at least one element:
  -- after any run of samples that does not overflow the counter, it holds the last samples, as many
  -- as its size, newest first.
  pub add_all-history :
      (d : Sample V) (vs : List (V × TimePoint)) (b : SignalHistoryBuffer V)
      → IsRing b
      → b.minimum_sample_interval_ms ≡ 0
      → b.counter + length vs < 2 ^ 64
      → history d (add_all vs b) ≡ take b.size (newest_first vs (history d b))
  add_all-history d vs b ring every count =
      sym (history_short d (add_all vs b))
      ∙ ap (λ n. take n (history d (add_all vs b))) (add_all-size vs b)
      ∙ run-history d vs b ring every count
