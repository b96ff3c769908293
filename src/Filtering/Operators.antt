-- ===== src/Filtering/Operators.antt =====
-- `&` and `|`. An `AndExpression` or `OrExpression` is changed in place and returned, so an
-- operation gives the values of both operands afterwards, beside the result.
use descarteslabs_python.Python.Result.{Result, ok, err}
use descarteslabs_python.Filtering.{Expr, comparison, and_expr, or_expr, Exprs, extend, single}

-- `unsupported operand type(s)`
pub data Unsupported : Type 0 where
  type_error : Unsupported

pub record Operated (V : Type 0) : Type 0 where
  pub result : Expr V
  pub left : Expr V
  pub right : Expr V

module _ {V : Type 0} where
  -- `AndExpression.__and__` on the parts of `self`
  unfoldable pub and_parts : Exprs V → Expr V → Exprs V
  and_parts parts (and_expr others) = extend parts others
  and_parts parts other = extend parts (single other)

  unfoldable pub or_parts : Exprs V → Expr V → Exprs V
  or_parts parts (or_expr others) = extend parts others
  or_parts parts other = extend parts (single other)

  -- `a & b`: `__and__` of the left operand, or `__rand__` of the right one.
  unfoldable pub and_op : Expr V → Expr V → Result Unsupported (Operated V)
  unfolding and_parts
  and_op (comparison c) b = ok (record {
    result = and_expr (and_parts (single (comparison c)) b);
    left = comparison c;
    right = b;
  })
  and_op (and_expr parts) b =
      let r = and_expr (and_parts parts b) in ok (record { result = r; left = r; right = b })
  and_op (or_expr parts) (comparison c) = ok (record {
    result = and_expr (and_parts (single (or_expr parts)) (comparison c));
    left = or_expr parts;
    right = comparison c;
  })
  and_op (or_expr parts) (and_expr others) =
      let r = and_expr (and_parts others (or_expr parts)) in
      ok (record { result = r; left = or_expr parts; right = r })
  and_op (or_expr parts) (or_expr others) = err type_error

  unfoldable pub or_op : Expr V → Expr V → Result Unsupported (Operated V)
  unfolding or_parts
  or_op (comparison c) b = ok (record {
    result = or_expr (or_parts (single (comparison c)) b);
    left = comparison c;
    right = b;
  })
  or_op (or_expr parts) b =
      let r = or_expr (or_parts parts b) in ok (record { result = r; left = r; right = b })
  or_op (and_expr parts) (comparison c) = ok (record {
    result = or_expr (or_parts (single (and_expr parts)) (comparison c));
    left = and_expr parts;
    right = comparison c;
  })
  or_op (and_expr parts) (or_expr others) =
      let r = or_expr (or_parts others (and_expr parts)) in
      ok (record { result = r; left = and_expr parts; right = r })
  or_op (and_expr parts) (and_expr others) = err type_error
