-- ===== src/RawData/Run.antt =====
-- `FWE_FATAL_ASSERT` of include/aws/iotfleetwise/Assert.h, as an outcome: a failed assertion aborts
-- the process. `undefined` is the outcome of an access that the language gives no meaning.
use aws_iot_fleetwise_edge.Prelude.{Bool, true, false}

pub data Run {ℓ} (A : Type ℓ) : Type ℓ where
  done : A → Run A
  aborted : Run A
  undefined : Run A

infixl 5 ◌>>=◌ ◌>>◌
abbrev pub ◌>>=◌ {ℓ κ} : {A : Type ℓ} {B : Type κ} → Run A → (A → Run B) → Run B
done a >>= f = f a
aborted >>= f = aborted
undefined >>= f = undefined

abbrev pub ◌>>◌ {ℓ} : {B : Type ℓ} → Run (Unit {0}) → Run B → Run B
m >> k = m >>= λ _. k

-- `FWE_FATAL_ASSERT( cond, msg )`
abbrev pub fatal_assert : Bool → Run (Unit {0})
fatal_assert true = done tt
fatal_assert false = aborted

-- The run ends with a result, and the result has the property.
abbrev pub Returns {ℓ} : {A : Type ℓ} → (A → Type 0) → Run A → Type 0
Returns P (done a) = P a
Returns P aborted = ⊥
Returns P undefined = ⊥

pub Returns->>= {ℓ κ} :
    {A : Type ℓ} {B : Type κ} (P : A → Type 0) (Q : B → Type 0) (m : Run A) (f : A → Run B)
    → Returns P m
    → ((a : A) → P a → Returns Q (f a))
    → Returns Q (m >>= f)
Returns->>= P Q (done a) f h k = k a h
Returns->>= P Q aborted f h k = absurd h
Returns->>= P Q undefined f h k = absurd h

pub Returns-map {ℓ} :
    {A : Type ℓ} (P Q : A → Type 0) (m : Run A) → ((a : A) → P a → Q a) → Returns P m → Returns Q m
Returns-map P Q (done a) k h = k a h
Returns-map P Q aborted k h = h
Returns-map P Q undefined k h = h

pub Returns-× {ℓ} :
    {A : Type ℓ} (P Q : A → Type 0) (m : Run A)
    → Returns P m
    → Returns Q m
    → Returns (λ a. P a × Q a) m
Returns-× P Q (done a) p q = (p, q)
Returns-× P Q aborted p q = p
Returns-× P Q undefined p q = p
