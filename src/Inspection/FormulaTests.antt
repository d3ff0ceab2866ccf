-- ===== src/Inspection/FormulaTests.antt =====
-- A condition on a signal at a run of src/CollectionInspectionEngine.cpp.
use aws_iot_fleetwise_edge.Prelude.{true, ℕ, [], ◌∷◌, none, ◌≡◌, refl, arith}
use aws_iot_fleetwise_edge.Can.Types.{SignalType}
use aws_iot_fleetwise_edge.Inspection.Types.{Content, ErrorCode, fresh}
use aws_iot_fleetwise_edge.Inspection.Eval.{eval}
use aws_iot_fleetwise_edge.Inspection.Meaning.{height}
use aws_iot_fleetwise_edge.Inspection.Buffer.{new_sample}
use aws_iot_fleetwise_edge.Inspection.Reading.{ElementType}
use aws_iot_fleetwise_edge.Inspection.Connected.{condition_reads}
use aws_iot_fleetwise_edge.Inspection.Formula.{Formula, Term, expression_of}
use aws_iot_fleetwise_edge.Inspection.Formula.Decided.{IsSampled, eval-holds}
use aws_iot_fleetwise_edge.Inspection.Tests.{
  whole_numbers, plain_conversions, empty_sample, holding_seven, at_time,
}
use aws_iot_fleetwise_edge.Inspection.WindowTests.{ranked_numbers}

-- Signal 4 is above 5, and it is not the case that signal 4 plus 1 is at most 3.
abbrev above_and_not_at_most : Formula ℕ
above_and_not_at_most = Formula.both (Formula.above (Term.newest 4) (Term.constant 5)) (
    Formula.opposite
      (Formula.at_most (Term.sum (Term.newest 4) (Term.constant 1)) (Term.constant 3)))

signal_4 :
    IsSampled plain_conversions empty_sample
      ((4, SignalType.int32) ∷ [])
      ((4, holding_seven ElementType.int32_element) ∷ [])
      4
      7
signal_4 = record {
  signal_type = SignalType.int32;
  typed_buffer = holding_seven ElementType.int32_element;
  sample = new_sample 7 (at_time 5);
  older = [];
  has_type = refl;
  has_buffer = refl;
  fits = refl;
  ring = (omega arith, omega arith, omega arith);
  numeric = refl;
  found = refl;
  newest_first = refl;
  value = refl;
}

eval-holds_example :
    eval whole_numbers
      (condition_reads whole_numbers ranked_numbers plain_conversions empty_sample
        ((4, SignalType.int32) ∷ [])
        ((4, holding_seven ElementType.int32_element) ∷ [])
        []
        3
        (λ name. none))
      10
      (expression_of above_and_not_at_most)
      fresh
    ≡ (ErrorCode.successful, record { content = Content.bool true; signal_id = 0 })
unfolding height
eval-holds_example =
    eval-holds whole_numbers ranked_numbers plain_conversions empty_sample
      ((4, SignalType.int32) ∷ []) ((4, holding_seven ElementType.int32_element) ∷ []) [] 3 10
      (λ name. none) (λ id. 7) above_and_not_at_most ((signal_4, tt), ((signal_4, tt), tt))
      (omega arith)
