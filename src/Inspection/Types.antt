-- ===== src/Inspection/Types.antt =====
-- The expressions of include/aws/iotfleetwise/ICollectionScheme.h, and InspectionValue of
-- include/aws/iotfleetwise/CollectionInspectionAPITypes.h.
use aws_iot_fleetwise_edge.Prelude.{ℕ, Bool, true, false, ◌&&◌, List, [], ◌∷◌, ◌==◌, if◌then◌else◌}

-- The floating point numbers of the platform, with the operations that an evaluation applies.
pub record Arithmetic : Type 1 where
  pub Double : Type 0
  pub zero_double : Double
  pub one_double : Double
  pub is_nonzero : Double → Bool
  pub is_less : Double → Double → Bool
  pub is_less_equal : Double → Double → Bool
  pub plus : Double → Double → Double
  pub minus : Double → Double → Double
  pub times : Double → Double → Double
  pub divided_by : Double → Double → Double
  pub absolute : Double → Double
  pub equal_distance : Double

-- A `std::string` is the list of its bytes.
abbrev pub equal_strings : List ℕ → List ℕ → Bool
equal_strings [] [] = true
equal_strings [] (c ∷ t) = false
equal_strings (b ∷ s) [] = false
equal_strings (b ∷ s) (c ∷ t) = (b == c) && equal_strings s t

-- `ExpressionErrorCode`
pub data ErrorCode : Type 0 where
  successful : ErrorCode
  stack_depth_reached : ErrorCode
  not_implemented_type : ErrorCode
  not_implemented_function : ErrorCode
  type_mismatch : ErrorCode

-- `WindowFunction`
pub data WindowFunction : Type 0 where
  last_avg : WindowFunction
  prev_last_avg : WindowFunction
  last_min : WindowFunction
  prev_last_min : WindowFunction
  last_max : WindowFunction
  prev_last_max : WindowFunction
  no_window : WindowFunction

-- The node types of `ExpressionNodeType` that are operators.
pub data Operator : Type 0 where
  smaller : Operator
  bigger : Operator
  smaller_equal : Operator
  bigger_equal : Operator
  equal : Operator
  not_equal : Operator
  logical_and : Operator
  logical_or : Operator
  plus : Operator
  minus : Operator
  multiply : Operator
  divide : Operator
  no_operator : Operator

-- `ExpressionNode` by its node type, with the members that eval reads for it. `nullptr` is a pointer
-- without a node. `no_operator` is the node type NONE, for which both children are evaluated too.
mutual
  pub data Expression (D : Type 0) : Type 0 where
    nullptr : Expression D
    floating : D → Expression D
    boolean : Bool → Expression D
    string : List ℕ → Expression D
    signal : ℕ → Expression D
    window_function : WindowFunction → ℕ → Expression D
    is_null_function : Expression D → Expression D
    custom_function : List ℕ → ℕ → Expressions D → Expression D
    logical_not : Expression D → Expression D
    binary : Operator → Expression D → Expression D → Expression D

  pub data Expressions (D : Type 0) : Type 0 where
    nil : Expressions D
    cons : Expression D → Expressions D → Expressions D

-- The value of an `InspectionValue`, by its `type`.
pub data Content (D : Type 0) : Type 0 where
  undefined : Content D
  bool : Bool → Content D
  double : D → Content D
  text : List ℕ → Content D

-- `InspectionValue`
pub record InspectionValue (D : Type 0) : Type 0 where
  pub content : Content D
  pub signal_id : ℕ

module _ {D : Type 0} where
  -- `InspectionValue()`; `0` is `INVALID_SIGNAL_ID`.
  abbrev pub fresh : InspectionValue D
  fresh = record { content = undefined; signal_id = 0 }

  -- The assignments keep the identifier of the signal.
  abbrev pub assign : Content D → InspectionValue D → InspectionValue D
  assign c v = record { content = c; signal_id = v.signal_id }

  abbrev pub is_undefined : InspectionValue D → Bool
  is_undefined v = elim v.content [ undefined ↦ true | _ ↦ false ]

  abbrev pub is_bool_or_double : InspectionValue D → Bool
  is_bool_or_double v = elim v.content [ bool b ↦ true | double d ↦ true | _ ↦ false ]

module _ (A : Arithmetic) where
  -- `asDouble` and `asBool` on a value that `isBoolOrDouble` accepts: the code asks that first.
  abbrev pub as_double : Content A.Double → A.Double
  as_double (bool b) = if b then A.one_double else A.zero_double
  as_double (double d) = d
  as_double _ = A.zero_double

  abbrev pub as_bool : Content A.Double → Bool
  as_bool (bool b) = b
  as_bool (double d) = A.is_nonzero d
  as_bool _ = false
