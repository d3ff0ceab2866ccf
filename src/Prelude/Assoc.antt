-- ===== src/Prelude/Assoc.antt =====
-- Association lists with numeric keys, for the `unordered_map` and `map` of the program.
use Prim.Native.Nat.{ℕ, ◌+◌, ◌≤◌}
use mathlib.Core.Path.{◌≡◌, refl}
use mathlib.Core.List.{List, [], ◌∷◌}
use mathlib.Core.Option.{Option, none, some}
use native.Mathlib.Omega.{arith}
use aws_iot_fleetwise_edge.Prelude.Tests.{if◌then◌else◌, ◌==◌}

module _ {ℓ} {V : Type ℓ} where
  -- `find`
  abbrev pub lookup : ℕ → List (ℕ × V) → Option V
  lookup k [] = none
  lookup k ((j, v) ∷ m) = if j == k then some v else lookup k m

  -- Assignment through `operator[]`: in place, or a new entry.
  abbrev pub insert : ℕ → V → List (ℕ × V) → List (ℕ × V)
  insert k v [] = (k, v) ∷ []
  insert k v ((j, w) ∷ m) = if j == k then (j, v) ∷ m else (j, w) ∷ insert k v m

  -- `erase` of a key
  abbrev pub erase : ℕ → List (ℕ × V) → List (ℕ × V)
  erase k [] = []
  erase k ((j, w) ∷ m) = if j == k then m else (j, w) ∷ erase k m

  abbrev pub keys : List (ℕ × V) → List ℕ
  keys [] = []
  keys ((j, w) ∷ m) = j ∷ keys m

  pub lookup-insert :
      (k j : ℕ) (v : V) (m : List (ℕ × V))
      → lookup j (insert k v m) ≡ (if k == j then some v else lookup j m)
  lookup-insert k j v [] = refl
  lookup-insert k j v ((i, w) ∷ m) = ground (arith, lookup-insert k j v m)

  module _ (f : V → ℕ) where
    -- The sum of a measure over the values.
    abbrev pub sum_values : List (ℕ × V) → ℕ
    sum_values [] = 0
    sum_values ((j, w) ∷ m) = f w + sum_values m

    pub sum_values-insert :
        (k : ℕ) (v : V) (m : List (ℕ × V)) (w : V)
        → lookup k m ≡ some w
        → sum_values (insert k v m) + f w ≡ sum_values m + f v
    sum_values-insert k v [] w h = cc
    sum_values-insert k v ((i, u) ∷ m) w h = ground (arith, sum_values-insert k v m w)

    pub sum_values-insert_new :
        (k : ℕ) (v : V) (m : List (ℕ × V))
        → lookup k m ≡ none
        → sum_values (insert k v m) ≡ sum_values m + f v
    sum_values-insert_new k v [] h = omega arith
    sum_values-insert_new k v ((i, u) ∷ m) h = ground (arith, sum_values-insert_new k v m)

    pub sum_values-erase :
        (k : ℕ) (m : List (ℕ × V)) (w : V)
        → lookup k m ≡ some w
        → sum_values (erase k m) + f w ≡ sum_values m
    sum_values-erase k [] w h = cc
    sum_values-erase k ((i, u) ∷ m) w h = ground (arith, sum_values-erase k m w)

  -- One measure stays below another over all the values, and over all the others but one.
  module _ (f g : V → ℕ) (h : (v : V) → f v ≤ g v) where
    pub sum_values_mono : (m : List (ℕ × V)) → sum_values f m ≤ sum_values g m
    sum_values_mono [] = omega arith
    sum_values_mono ((i, u) ∷ m) = omega (arith, h u, sum_values_mono m)

    pub sum_values_mono_rest :
        (k : ℕ) (m : List (ℕ × V)) (w : V)
        → lookup k m ≡ some w
        → sum_values f m + g w ≤ sum_values g m + f w
    sum_values_mono_rest k [] w e = cc
    sum_values_mono_rest k ((i, u) ∷ m) w e =
        ground (arith, sum_values_mono_rest k m w, sum_values_mono m, h u)

  pub le-sum_values :
      (f : V → ℕ) (k : ℕ) (m : List (ℕ × V)) (w : V) → lookup k m ≡ some w → f w ≤ sum_values f m
  le-sum_values f k [] w e = cc
  le-sum_values f k ((i, u) ∷ m) w e = ground (arith, le-sum_values f k m w)

  -- A predicate on every entry.
  abbrev pub Entries {κ} : (ℕ → V → Type κ) → List (ℕ × V) → Type κ
  Entries P [] = Unit
  Entries P ((j, w) ∷ m) = P j w × Entries P m

  pub Entries-lookup {κ} :
      (P : ℕ → V → Type κ) (k : ℕ) (m : List (ℕ × V)) (w : V)
      → Entries P m
      → lookup k m ≡ some w
      → P k w
  Entries-lookup P k [] w e h = absurd (cc)
  Entries-lookup P k ((i, u) ∷ m) w e h = ground (arith, Entries-lookup P k m w e.1)

  pub Entries-insert {κ} :
      (P : ℕ → V → Type κ) (k : ℕ) (v : V) (m : List (ℕ × V))
      → Entries P m
      → P k v
      → Entries P (insert k v m)
  Entries-insert P k v [] e h = (h, tt)
  Entries-insert P k v ((i, u) ∷ m) e h = ground (arith, Entries-insert P k v m e.1 h)

  pub Entries-erase {κ} :
      (P : ℕ → V → Type κ) (k : ℕ) (m : List (ℕ × V)) → Entries P m → Entries P (erase k m)
  Entries-erase P k [] e = e
  Entries-erase P k ((i, u) ∷ m) e = ground (arith, Entries-erase P k m e.1)
