-- ===== src/Inspection/Meaning.antt =====
-- What an expression means, without the limit of eval on the depth of its recursion.
use aws_iot_fleetwise_edge.Prelude.{ℕ, zero, suc, ◌≤◌, max, List, [], ◌∷◌, ◌≡◌, refl, arith}
use aws_iot_fleetwise_edge.Inspection.Types.{
  Arithmetic, ErrorCode, Expression, Expressions, InspectionValue, fresh, assign,
}
use aws_iot_fleetwise_edge.Inspection.Types.ErrorCode.{
  successful, stack_depth_reached, not_implemented_type, not_implemented_function, type_mismatch,
}
use aws_iot_fleetwise_edge.Inspection.Types.Expression.{
  nullptr, floating, boolean, string, signal, window_function, is_null_function, custom_function,
  logical_not, binary,
}
use aws_iot_fleetwise_edge.Inspection.Types.Expressions.{nil, cons}
use aws_iot_fleetwise_edge.Inspection.Types.Content.{bool, double, text}
use aws_iot_fleetwise_edge.Inspection.Eval.{
  Reads, eval, eval_all, and_then, combine, negate, invoked, is_null,
}

-- How many calls of eval an expression needs, one within the other.
unfoldable mutual
  pub height : {D : Type 0} → Expression D → ℕ
  height nullptr = 0
  height (floating x) = 1
  height (boolean b) = 1
  height (string s) = 1
  height (signal id) = 1
  height (window_function w id) = 1
  height (is_null_function e) = 1
  height (custom_function name id es) = suc (height_all es)
  height (logical_not l) = suc (height l)
  height (binary op l r) = suc (max (height l) (height r))

  pub height_all : {D : Type 0} → Expressions D → ℕ
  height_all nil = 0
  height_all (cons e es) = max (height e) (height_all es)

module _ (A : Arithmetic) (R : Reads A.Double) where
  mutual
    pub meaning :
        Expression A.Double → InspectionValue A.Double → ErrorCode × InspectionValue A.Double
    meaning nullptr v = (stack_depth_reached, v)
    meaning (floating x) v = (successful, assign (double x) v)
    meaning (boolean b) v = (successful, assign (bool b) v)
    meaning (string s) v = (successful, assign (text s) v)
    meaning (signal id) v = R.latest id v
    meaning (window_function w id) v = R.window w id v
    meaning (is_null_function e) v = is_null A R e v
    meaning (custom_function name id es) v =
        and_then (meaning_all es) (λ arguments. invoked A (R.invoke name) id arguments v) v
    meaning (logical_not l) v = and_then (meaning l fresh) (λ x. negate A x v) v
    meaning (binary op l r) v =
        and_then (meaning l fresh) (λ x. and_then (meaning r fresh) (λ y. combine A op x y v) v) v

    pub meaning_all : Expressions A.Double → ErrorCode × List (InspectionValue A.Double)
    meaning_all nil = (successful, [])
    meaning_all (cons e es) =
        and_then (meaning e fresh) (λ x. and_then (meaning_all es) (λ xs. (successful, x ∷ xs)) [])
          []

  mutual
    unfolding eval eval_all meaning meaning_all height height_all

    -- Where the stack is deep enough for an expression, eval gives what the expression means.
    pub eval-meaning :
        (depth : ℕ) (e : Expression A.Double) (v : InspectionValue A.Double)
        → height e ≤ depth
        → eval A R depth e v ≡ meaning e v
    eval-meaning zero nullptr v h = refl
    eval-meaning zero (floating x) v h = absurd (omega arith)
    eval-meaning zero (boolean b) v h = absurd (omega arith)
    eval-meaning zero (string s) v h = absurd (omega arith)
    eval-meaning zero (signal id) v h = absurd (omega arith)
    eval-meaning zero (window_function w id) v h = absurd (omega arith)
    eval-meaning zero (is_null_function e) v h = absurd (omega arith)
    eval-meaning zero (custom_function name id es) v h = absurd (omega arith)
    eval-meaning zero (logical_not l) v h = absurd (omega arith)
    eval-meaning zero (binary op l r) v h = absurd (omega arith)
    eval-meaning (suc depth) nullptr v h = refl
    eval-meaning (suc depth) (floating x) v h = refl
    eval-meaning (suc depth) (boolean b) v h = refl
    eval-meaning (suc depth) (string s) v h = refl
    eval-meaning (suc depth) (signal id) v h = refl
    eval-meaning (suc depth) (window_function w id) v h = refl
    eval-meaning (suc depth) (is_null_function e) v h = refl
    eval-meaning (suc depth) (custom_function name id es) v h =
        rw (eval_all-meaning depth es (omega arith)) refl
    eval-meaning (suc depth) (logical_not l) v h =
        rw (eval-meaning depth l fresh (omega arith)) refl
    eval-meaning (suc depth) (binary op l r) v h =
        rw (eval-meaning depth l fresh (omega arith), eval-meaning depth r fresh (omega arith)) refl

    eval_all-meaning :
        (depth : ℕ) (es : Expressions A.Double)
        → height_all es ≤ depth
        → eval_all A (λ e. eval A R depth e fresh) es ≡ meaning_all es
    eval_all-meaning depth nil h = refl
    eval_all-meaning depth (cons e es) h =
        rw (eval-meaning depth e fresh (omega arith), eval_all-meaning depth es (omega arith)) refl

module _ {ℓ κ} {B : Type ℓ} {C : Type κ} where
  -- A step succeeds only if the one before it did.
  and_then-first :
      (x : ErrorCode × B) (f : B → ErrorCode × C) (c : C)
      → (and_then x f c).0 ≡ successful
      → x.0 ≡ successful
  and_then-first (successful, b) f c h = refl
  and_then-first (stack_depth_reached, b) f c h = h
  and_then-first (not_implemented_type, b) f c h = h
  and_then-first (not_implemented_function, b) f c h = h
  and_then-first (type_mismatch, b) f c h = h

  and_then-next :
      (x : ErrorCode × B) (f : B → ErrorCode × C) (c : C)
      → (and_then x f c).0 ≡ successful
      → (f x.1).0 ≡ successful
  and_then-next (successful, b) f c h = h
  and_then-next (stack_depth_reached, b) f c h = cc
  and_then-next (not_implemented_type, b) f c h = cc
  and_then-next (not_implemented_function, b) f c h = cc
  and_then-next (type_mismatch, b) f c h = cc

module _ (A : Arithmetic) (R : Reads A.Double) where
  mutual
    unfolding eval eval_all height height_all

    success-height :
        (depth : ℕ) (e : Expression A.Double) (v : InspectionValue A.Double)
        → (eval A R depth e v).0 ≡ successful
        → height e ≤ depth
    success-height zero e v h = cc
    success-height (suc depth) nullptr v h = omega arith
    success-height (suc depth) (floating x) v h = omega arith
    success-height (suc depth) (boolean b) v h = omega arith
    success-height (suc depth) (string s) v h = omega arith
    success-height (suc depth) (signal id) v h = omega arith
    success-height (suc depth) (window_function w id) v h = omega arith
    success-height (suc depth) (is_null_function e) v h = omega arith
    success-height (suc depth) (custom_function name id es) v h = omega (
      arith,
      success_all-height depth es
          (and_then-first (eval_all A (λ e. eval A R depth e fresh) es) _ v h),
    )
    success-height (suc depth) (logical_not l) v h =
        omega (arith, success-height depth l fresh (and_then-first (eval A R depth l fresh) _ v h))
    success-height (suc depth) (binary op l r) v h =
        let right = and_then-next (eval A R depth l fresh) _ v h in
        omega (
          arith,
          success-height depth l fresh (and_then-first (eval A R depth l fresh) _ v h),
          success-height depth r fresh (and_then-first (eval A R depth r fresh) _ v right),
        )

    success_all-height :
        (depth : ℕ) (es : Expressions A.Double)
        → (eval_all A (λ e. eval A R depth e fresh) es).0 ≡ successful
        → height_all es ≤ depth
    success_all-height depth nil h = omega arith
    success_all-height depth (cons e es) h =
        let others = eval_all A (λ e. eval A R depth e fresh) es in
        let next = and_then-next (eval A R depth e fresh) _ [] h in
        omega (
          arith,
          success-height depth e fresh (and_then-first (eval A R depth e fresh) _ [] h),
          success_all-height depth es (and_then-first others _ [] next),
        )

  -- Where an expression is at most `depth` nodes high, eval with that depth gives what the expression
  -- means, errors and undefined results included.
  pub eval-meaning-height :
      (depth : ℕ) (e : Expression A.Double) (v : InspectionValue A.Double)
      → height e ≤ depth
      → eval A R depth e v ≡ meaning A R e v
  eval-meaning-height depth e v h = eval-meaning A R depth e v h

  -- eval succeeds only on an expression that is at most as high as the depth that it is given, so
  -- that no expression is accepted with a part left out.
  pub eval_successful-height :
      (depth : ℕ) (e : Expression A.Double) (v : InspectionValue A.Double)
      → (eval A R depth e v).0 ≡ successful
      → height e ≤ depth
  eval_successful-height depth e v h = success-height depth e v h
