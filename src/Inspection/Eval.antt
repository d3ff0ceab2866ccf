-- ===== src/Inspection/Eval.antt =====
-- eval of src/CollectionInspectionEngine.cpp.
use aws_iot_fleetwise_edge.Prelude.{
  ℕ, zero, suc, Bool, true, false, ◌&&◌, ◌||◌, not, List, [], ◌∷◌, ◌++◌, Option, none, some,
  if◌then◌else◌,
}
use aws_iot_fleetwise_edge.Inspection.Types.{
  Arithmetic, ErrorCode, WindowFunction, Operator, Expression, Expressions, Content,
  InspectionValue, fresh, assign, is_undefined, is_bool_or_double, as_double, as_bool,
  equal_strings,
}
use aws_iot_fleetwise_edge.Inspection.Types.ErrorCode.{
  successful, stack_depth_reached, not_implemented_function, type_mismatch,
}
use aws_iot_fleetwise_edge.Inspection.Types.Operator.{
  smaller, bigger, smaller_equal, bigger_equal, equal, not_equal, logical_and, logical_or, plus,
  minus, multiply, divide, no_operator,
}
use aws_iot_fleetwise_edge.Inspection.Types.Expression.{
  nullptr, floating, boolean, string, signal, window_function, is_null_function, custom_function,
  logical_not, binary,
}
use aws_iot_fleetwise_edge.Inspection.Types.Expressions.{nil, cons}
use aws_iot_fleetwise_edge.Inspection.Types.Content.{bool, double, text}

-- What eval reads of the engine for one condition, each as a change of the result that it is given:
-- getLatestSignalValue, getSampleWindowFunction, isNewSignalValueAvailable, and the callback of the
-- custom function of a name, where there is one.
pub record Reads (D : Type 0) : Type 0 where
  pub latest : ℕ → InspectionValue D → ErrorCode × InspectionValue D
  pub window : WindowFunction → ℕ → InspectionValue D → ErrorCode × InspectionValue D
  pub is_new : ℕ → InspectionValue D → ErrorCode × InspectionValue D
  pub invoke : List ℕ → Option (ℕ → List (InspectionValue D) → ErrorCode × InspectionValue D)

-- The next step after a step that succeeds; after an error the code and `c`.
abbrev pub and_then {ℓ κ} :
    {B : Type ℓ} {C : Type κ} → ErrorCode × B → (B → ErrorCode × C) → C → ErrorCode × C
and_then (successful, b) f c = f b
and_then (code, b) f c = (code, c)

module _ (A : Arithmetic) where
  abbrev pub is_near : A.Double → A.Double → Bool
  is_near a b = A.is_less (A.absolute (A.minus a b)) A.equal_distance

  -- The `switch` of eval, for two contents that `isBoolOrDouble` accepts.
  abbrev pub on_numbers : Operator → Content A.Double → Content A.Double → Option (Content A.Double)
  on_numbers smaller l r = some (bool (A.is_less (as_double A l) (as_double A r)))
  on_numbers bigger l r = some (bool (A.is_less (as_double A r) (as_double A l)))
  on_numbers smaller_equal l r = some (bool (A.is_less_equal (as_double A l) (as_double A r)))
  on_numbers bigger_equal l r = some (bool (A.is_less_equal (as_double A r) (as_double A l)))
  on_numbers equal l r = some (bool (is_near (as_double A l) (as_double A r)))
  on_numbers not_equal l r = some (bool (not (is_near (as_double A l) (as_double A r))))
  on_numbers logical_and l r = some (bool (as_bool A l && as_bool A r))
  on_numbers logical_or l r = some (bool (as_bool A l || as_bool A r))
  on_numbers plus l r = some (double (A.plus (as_double A l) (as_double A r)))
  on_numbers minus l r = some (double (A.minus (as_double A l) (as_double A r)))
  on_numbers multiply l r = some (double (A.times (as_double A l) (as_double A r)))
  on_numbers divide l r = some (double (A.divided_by (as_double A l) (as_double A r)))
  on_numbers no_operator l r = none

  -- For two strings, where the operator has such a case.
  abbrev pub on_strings : Operator → List ℕ → List ℕ → Option (Content A.Double)
  on_strings equal s t = some (bool (equal_strings s t))
  on_strings not_equal s t = some (bool (not (equal_strings s t)))
  on_strings plus s t = some (text (s ++ t))
  on_strings _ s t = none

  abbrev pub is_operator : Operator → Bool
  is_operator no_operator = false
  is_operator _ = true

  -- The error, or the content that is assigned to the result.
  abbrev pub on_others :
      Operator
      → InspectionValue A.Double
      → InspectionValue A.Double
      → ErrorCode × Option (Content A.Double)
  on_others op l r =
      if not (is_operator op)
      then (not_implemented_function, none)
      else (if not (is_bool_or_double l) || not (is_bool_or_double r)
          then (type_mismatch, none)
          else (successful, on_numbers op l.content r.content))

  abbrev pub apply :
      Operator
      → InspectionValue A.Double
      → InspectionValue A.Double
      → ErrorCode × Option (Content A.Double)
  apply op l r = elim (l.content) [
    | text s ↦ elim (r.content) [
      | text t ↦ elim (on_strings op s t) [
        | some c ↦ (successful, some c)
        | none ↦ on_others op l r
      ]
      | _ ↦ on_others op l r
    ]
    | _ ↦ on_others op l r
  ]

  abbrev pub assign_some :
      ErrorCode × Option (Content A.Double)
      → InspectionValue A.Double
      → ErrorCode × InspectionValue A.Double
  assign_some (code, none) v = (code, v)
  assign_some (code, some c) v = (code, assign c v)

  -- The part of eval after the operands: both are defined, or the result is left as it is.
  abbrev pub combine :
      Operator
      → InspectionValue A.Double
      → InspectionValue A.Double
      → InspectionValue A.Double
      → ErrorCode × InspectionValue A.Double
  combine op l r v =
      if is_undefined l || is_undefined r then (successful, v) else assign_some (apply op l r) v

  abbrev pub negate :
      InspectionValue A.Double → InspectionValue A.Double → ErrorCode × InspectionValue A.Double
  negate l v =
      if is_undefined l
      then (successful, v)
      else (if not (is_bool_or_double l)
          then (type_mismatch, v)
          else (successful, assign (bool (not (as_bool A l.content))) v))

  -- `isNull`: the opposite of what isNewSignalValueAvailable gives, where that is a number.
  abbrev pub reverted : ErrorCode × InspectionValue A.Double → ErrorCode × InspectionValue A.Double
  reverted (successful, v) =
      (successful, if is_bool_or_double v then assign (bool (not (as_bool A v.content))) v else v)
  reverted (code, v) = (code, v)

  -- `resultValue = std::move( funcRes.value )`, and the error code, of a callback if there is one.
  abbrev pub invoked :
      Option (ℕ → List (InspectionValue A.Double) → ErrorCode × InspectionValue A.Double)
      → ℕ
      → List (InspectionValue A.Double)
      → InspectionValue A.Double
      → ErrorCode × InspectionValue A.Double
  invoked none id arguments v = (not_implemented_function, v)
  invoked (some callback) id arguments v = callback id arguments

  -- `isNull` of a signal; of anything else it is an error.
  abbrev pub is_null :
      Reads A.Double
      → Expression A.Double
      → InspectionValue A.Double
      → ErrorCode × InspectionValue A.Double
  is_null R (signal id) v = reverted (R.is_new id v)
  is_null R _ v = (type_mismatch, v)

  -- The parameters of a custom function, up to the first error.
  unfoldable pub eval_all :
      (Expression A.Double → ErrorCode × InspectionValue A.Double)
      → Expressions A.Double
      → ErrorCode × List (InspectionValue A.Double)
  eval_all f nil = (successful, [])
  eval_all f (cons e es) =
      and_then (f e) (λ x. and_then (eval_all f es) (λ xs. (successful, x ∷ xs)) []) []

  -- The recursion is on `remainingStackDepth`.
  unfoldable pub eval :
      Reads A.Double
      → ℕ
      → Expression A.Double
      → InspectionValue A.Double
      → ErrorCode × InspectionValue A.Double
  eval R zero e v = (stack_depth_reached, v)
  eval R (suc depth) nullptr v = (stack_depth_reached, v)
  eval R (suc depth) (floating x) v = (successful, assign (double x) v)
  eval R (suc depth) (boolean b) v = (successful, assign (bool b) v)
  eval R (suc depth) (string s) v = (successful, assign (text s) v)
  eval R (suc depth) (signal id) v = R.latest id v
  eval R (suc depth) (window_function w id) v = R.window w id v
  eval R (suc depth) (is_null_function e) v = is_null R e v
  eval R (suc depth) (custom_function name id parameters) v =
      and_then (eval_all (λ e. eval R depth e fresh) parameters)
        (λ arguments. invoked (R.invoke name) id arguments v) v
  eval R (suc depth) (logical_not l) v = and_then (eval R depth l fresh) (λ x. negate x v) v
  eval R (suc depth) (binary op l r) v =
      and_then (eval R depth l fresh)
        (λ x. and_then (eval R depth r fresh) (λ y. combine op x y v) v) v

-- `MAX_EQUATION_DEPTH`
abbrev pub max_equation_depth : ℕ
max_equation_depth = 10
