-- ===== src/Inspection/Formula.antt =====
-- Conditions on the values of signals, and what eval of src/CollectionInspectionEngine.cpp makes of
-- them.
pub mod Decided
use aws_iot_fleetwise_edge.Prelude.{ℕ, Bool, ◌&&◌, ◌||◌, not}
use aws_iot_fleetwise_edge.Inspection.Types.{Arithmetic, Expression, Operator}
use aws_iot_fleetwise_edge.Inspection.Types.Expression.{floating, signal, binary, logical_not}

-- A number: a constant, the newest value of a signal, or made of two numbers.
pub data Term (D : Type 0) : Type 0 where
  constant : D → Term D
  newest : ℕ → Term D
  sum : Term D → Term D → Term D
  difference : Term D → Term D → Term D
  product : Term D → Term D → Term D
  quotient : Term D → Term D → Term D

-- What is said of numbers.
pub data Formula (D : Type 0) : Type 0 where
  below : Term D → Term D → Formula D
  above : Term D → Term D → Formula D
  at_most : Term D → Term D → Formula D
  at_least : Term D → Term D → Formula D
  near : Term D → Term D → Formula D
  apart : Term D → Term D → Formula D
  both : Formula D → Formula D → Formula D
  either : Formula D → Formula D → Formula D
  opposite : Formula D → Formula D

module _ {D : Type 0} where
  -- The expressions that the cloud sends for them.
  abbrev pub expression_of_term : Term D → Expression D
  expression_of_term (constant x) = floating x
  expression_of_term (newest id) = signal id
  expression_of_term (sum t u) = binary Operator.plus (expression_of_term t) (expression_of_term u)
  expression_of_term (difference t u) =
      binary Operator.minus (expression_of_term t) (expression_of_term u)
  expression_of_term (product t u) =
      binary Operator.multiply (expression_of_term t) (expression_of_term u)
  expression_of_term (quotient t u) =
      binary Operator.divide (expression_of_term t) (expression_of_term u)

  abbrev pub expression_of : Formula D → Expression D
  expression_of (below t u) = binary Operator.smaller (expression_of_term t) (expression_of_term u)
  expression_of (above t u) = binary Operator.bigger (expression_of_term t) (expression_of_term u)
  expression_of (at_most t u) =
      binary Operator.smaller_equal (expression_of_term t) (expression_of_term u)
  expression_of (at_least t u) =
      binary Operator.bigger_equal (expression_of_term t) (expression_of_term u)
  expression_of (near t u) = binary Operator.equal (expression_of_term t) (expression_of_term u)
  expression_of (apart t u) =
      binary Operator.not_equal (expression_of_term t) (expression_of_term u)
  expression_of (both p q) = binary Operator.logical_and (expression_of p) (expression_of q)
  expression_of (either p q) = binary Operator.logical_or (expression_of p) (expression_of q)
  expression_of (opposite p) = logical_not (expression_of p)

  -- A statement about every signal of a number or a formula.
  abbrev pub OfSignals : (ℕ → Type 0) → Term D → Type 0
  OfSignals P (constant x) = Unit
  OfSignals P (newest id) = P id
  OfSignals P (sum t u) = OfSignals P t × OfSignals P u
  OfSignals P (difference t u) = OfSignals P t × OfSignals P u
  OfSignals P (product t u) = OfSignals P t × OfSignals P u
  OfSignals P (quotient t u) = OfSignals P t × OfSignals P u

  abbrev pub OfAllSignals : (ℕ → Type 0) → Formula D → Type 0
  OfAllSignals P (below t u) = OfSignals P t × OfSignals P u
  OfAllSignals P (above t u) = OfSignals P t × OfSignals P u
  OfAllSignals P (at_most t u) = OfSignals P t × OfSignals P u
  OfAllSignals P (at_least t u) = OfSignals P t × OfSignals P u
  OfAllSignals P (near t u) = OfSignals P t × OfSignals P u
  OfAllSignals P (apart t u) = OfSignals P t × OfSignals P u
  OfAllSignals P (both p q) = OfAllSignals P p × OfAllSignals P q
  OfAllSignals P (either p q) = OfAllSignals P p × OfAllSignals P q
  OfAllSignals P (opposite p) = OfAllSignals P p

-- What they say, where each signal has a value.
module _ (A : Arithmetic) (values : ℕ → A.Double) where
  abbrev pub value_of : Term A.Double → A.Double
  value_of (constant x) = x
  value_of (newest id) = values id
  value_of (sum t u) = A.plus (value_of t) (value_of u)
  value_of (difference t u) = A.minus (value_of t) (value_of u)
  value_of (product t u) = A.times (value_of t) (value_of u)
  value_of (quotient t u) = A.divided_by (value_of t) (value_of u)

  -- Two numbers are equal when they are less than the distance apart that the code gives.
  abbrev are_close : A.Double → A.Double → Bool
  are_close x y = A.is_less (A.absolute (A.minus x y)) A.equal_distance

  abbrev pub holds : Formula A.Double → Bool
  holds (below t u) = A.is_less (value_of t) (value_of u)
  holds (above t u) = A.is_less (value_of u) (value_of t)
  holds (at_most t u) = A.is_less_equal (value_of t) (value_of u)
  holds (at_least t u) = A.is_less_equal (value_of u) (value_of t)
  holds (near t u) = are_close (value_of t) (value_of u)
  holds (apart t u) = not (are_close (value_of t) (value_of u))
  holds (both p q) = holds p && holds q
  holds (either p q) = holds p || holds q
  holds (opposite p) = not (holds p)
