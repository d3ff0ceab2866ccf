-- ===== src/Inspection/Formula/Decided.antt =====
-- What eval of src/CollectionInspectionEngine.cpp makes of a condition on the values of signals.
use aws_iot_fleetwise_edge.Prelude.{
  ℕ, zero, suc, ◌≤◌, true, false, List, ◌∷◌, Option, some, lookup, ◌≡◌, refl, arith,
}
use aws_iot_fleetwise_edge.Can.Types.{SignalType}
use aws_iot_fleetwise_edge.Inspection.Types.{
  Arithmetic, ErrorCode, Expression, Operator, Content, InspectionValue, fresh,
}
use aws_iot_fleetwise_edge.Inspection.Types.ErrorCode.{successful}
use aws_iot_fleetwise_edge.Inspection.Types.Expression.{binary, logical_not}
use aws_iot_fleetwise_edge.Inspection.Eval.{Reads, eval, combine, negate}
use aws_iot_fleetwise_edge.Inspection.Meaning.{height}
use aws_iot_fleetwise_edge.Inspection.Buffer.{Sample}
use aws_iot_fleetwise_edge.Inspection.History.{IsRing, history}
use aws_iot_fleetwise_edge.Inspection.Reading.{
  Conversions, TypedBuffer, buffer_element, get_latest_signal_value,
}
use aws_iot_fleetwise_edge.Inspection.Latest.{is_numeric, is_int16, get_latest_signal_value_numeric}
use aws_iot_fleetwise_edge.Inspection.Windows.{Numbers, WindowData}
use aws_iot_fleetwise_edge.Inspection.Connected.{condition_reads}
use aws_iot_fleetwise_edge.Inspection.Formula.{
  Term, Formula, expression_of_term, expression_of, OfSignals, OfAllSignals, value_of, holds,
}
use aws_iot_fleetwise_edge.Inspection.Formula.Term.{
  constant, newest, sum, difference, product, quotient,
}
use aws_iot_fleetwise_edge.Inspection.Formula.Formula.{
  below, above, at_most, at_least, near, apart, both, either, opposite,
}

module _ (A : Arithmetic) (R : Reads A.Double) where
  abbrev Gives : Expression A.Double → InspectionValue A.Double → Type 0
  Gives e x = (n : ℕ) → height e ≤ n → eval A R n e fresh ≡ (successful, x)

  eval-binary :
      (op : Operator) (l r : Expression A.Double) (x y : InspectionValue A.Double) (n : ℕ)
      → height (binary op l r) ≤ n
      → Gives l x
      → Gives r y
      → eval A R n (binary op l r) fresh ≡ combine A op x y fresh
  unfolding eval height
  eval-binary op l r x y zero h gl gr = absurd (omega arith)
  eval-binary op l r x y (suc n) h gl gr = rw (gl n (omega arith), gr n (omega arith)) refl

  eval-not :
      (l : Expression A.Double) (x : InspectionValue A.Double) (n : ℕ)
      → height (logical_not l) ≤ n
      → Gives l x
      → eval A R n (logical_not l) fresh ≡ negate A x fresh
  unfolding eval height
  eval-not l x zero h gl = absurd (omega arith)
  eval-not l x (suc n) h gl = rw (gl n (omega arith)) refl

  -- The identifier that a number leaves in the result.
  abbrev owner : Term A.Double → ℕ
  owner (newest id) = id
  owner _ = 0

  -- Under `P` a signal is read with its value.
  module _ (values : ℕ → A.Double) (P : ℕ → Type 0)
      (read : (id : ℕ)
        → P id
        → R.latest id fresh
          ≡ (successful, record { content = Content.double (values id); signal_id = id })) where
    abbrev number : Term A.Double → InspectionValue A.Double
    number t = record { content = Content.double (value_of A values t); signal_id = owner t }

    abbrev truth : Formula A.Double → InspectionValue A.Double
    truth p = record { content = Content.bool (holds A values p); signal_id = 0 }

    eval-number : (t : Term A.Double) → OfSignals P t → Gives (expression_of_term t) (number t)
    unfolding eval height
    eval-number (constant x) k zero h = absurd (omega arith)
    eval-number (constant x) k (suc n) h = refl
    eval-number (newest id) k zero h = absurd (omega arith)
    eval-number (newest id) k (suc n) h = read id k
    eval-number (sum t u) k n h =
        eval-binary Operator.plus (expression_of_term t) (expression_of_term u) (number t)
          (number u) n h (eval-number t k.0) (eval-number u k.1)
    eval-number (difference t u) k n h =
        eval-binary Operator.minus (expression_of_term t) (expression_of_term u) (number t)
          (number u) n h (eval-number t k.0) (eval-number u k.1)
    eval-number (product t u) k n h =
        eval-binary Operator.multiply (expression_of_term t) (expression_of_term u) (number t)
          (number u) n h (eval-number t k.0) (eval-number u k.1)
    eval-number (quotient t u) k n h =
        eval-binary Operator.divide (expression_of_term t) (expression_of_term u) (number t)
          (number u) n h (eval-number t k.0) (eval-number u k.1)

    pub eval-truth : (p : Formula A.Double) → OfAllSignals P p → Gives (expression_of p) (truth p)
    eval-truth (below t u) k n h =
        eval-binary Operator.smaller (expression_of_term t) (expression_of_term u) (number t)
          (number u) n h (eval-number t k.0) (eval-number u k.1)
    eval-truth (above t u) k n h =
        eval-binary Operator.bigger (expression_of_term t) (expression_of_term u) (number t)
          (number u) n h (eval-number t k.0) (eval-number u k.1)
    eval-truth (at_most t u) k n h =
        eval-binary Operator.smaller_equal (expression_of_term t) (expression_of_term u) (number t)
          (number u) n h (eval-number t k.0) (eval-number u k.1)
    eval-truth (at_least t u) k n h =
        eval-binary Operator.bigger_equal (expression_of_term t) (expression_of_term u) (number t)
          (number u) n h (eval-number t k.0) (eval-number u k.1)
    eval-truth (near t u) k n h =
        eval-binary Operator.equal (expression_of_term t) (expression_of_term u) (number t)
          (number u) n h (eval-number t k.0) (eval-number u k.1)
    eval-truth (apart t u) k n h =
        eval-binary Operator.not_equal (expression_of_term t) (expression_of_term u) (number t)
          (number u) n h (eval-number t k.0) (eval-number u k.1)
    eval-truth (both p q) k n h =
        eval-binary Operator.logical_and (expression_of p) (expression_of q) (truth p) (truth q) n h
          (eval-truth p k.0) (eval-truth q k.1)
    eval-truth (either p q) k n h =
        eval-binary Operator.logical_or (expression_of p) (expression_of q) (truth p) (truth q) n h
          (eval-truth p k.0) (eval-truth q k.1)
    eval-truth (opposite p) k n h = eval-not (expression_of p) (truth p) n h (eval-truth p k)

module _ {V D : Type 0} (C : Conversions V D) (d : Sample V) (types : List (ℕ × SignalType))
    (buffers : List (ℕ × TypedBuffer V)) where
  -- A signal of a number or truth value type but INT16 has a valid ring of the element type with which
  -- onChangeInspectionMatrix adds it, and the newest sample in it has the value `x`.
  pub record IsSampled (id : ℕ) (x : D) : Type 0 where
    pub signal_type : SignalType
    pub typed_buffer : TypedBuffer V
    pub sample : Sample V
    pub older : List (Sample V)
    pub has_type : lookup id types ≡ some signal_type
    pub has_buffer : lookup id buffers ≡ some typed_buffer
    pub fits : buffer_element signal_type ≡ some typed_buffer.element_type
    pub ring : IsRing typed_buffer.history_buffer
    pub numeric : is_numeric signal_type ≡ true
    pub found : is_int16 signal_type ≡ false
    pub newest_first : history d typed_buffer.history_buffer ≡ sample ∷ older
    pub value : C.to_double sample.value ≡ x

  get_latest_signal_value-IsSampled :
      (id : ℕ) (x : D)
      → IsSampled id x
      → get_latest_signal_value C d types buffers id fresh
        ≡ (successful, record { content = Content.double x; signal_id = id })
  get_latest_signal_value-IsSampled id x s =
      rw
        (
          get_latest_signal_value_numeric C d types buffers id fresh s.signal_type s.typed_buffer
              s.has_type s.has_buffer s.fits s.ring s.numeric,
          s.found,
          s.newest_first,
          s.value,
        )
        refl

-- A condition compares numbers that are made with plus, minus, multiply and divide of constants and
-- signals, and joins comparisons with and, or and not. Each of its signals is of a number or truth value
-- type but INT16, is sampled, and has the value of its newest sample in `values`, and the height of its
-- expression is within the depth. Then eval succeeds and gives whether the condition holds for `values`.
pub eval-holds :
    (A : Arithmetic) {V : Type 0} (N : Numbers V A.Double) (C : Conversions V A.Double)
    (d : Sample V) (types : List (ℕ × SignalType)) (buffers : List (ℕ × TypedBuffer V))
    (windows : List (ℕ × WindowData V A.Double)) (condition depth : ℕ)
    (custom : List ℕ
      → Option (ℕ → List (InspectionValue A.Double) → ErrorCode × InspectionValue A.Double))
    (values : ℕ → A.Double) (p : Formula A.Double)
    → OfAllSignals (λ id. IsSampled C d types buffers id (values id)) p
    → height (expression_of p) ≤ depth
    → eval A
        (condition_reads A N C d types buffers windows condition custom)
        depth
        (expression_of p)
        fresh
      ≡ (successful, record { content = Content.bool (holds A values p); signal_id = 0 })
eval-holds A N C d types buffers windows condition depth custom values p sampled h =
    eval-truth A (condition_reads A N C d types buffers windows condition custom) values
      (λ id. IsSampled C d types buffers id (values id))
      (λ id. get_latest_signal_value-IsSampled C d types buffers id (values id)) p sampled depth h
