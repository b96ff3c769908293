-- ===== src/Filtering/Serialized/Combined.antt =====
-- Which comparisons an expression has that `&` of filtering.py returns.
use descarteslabs_python.Prelude.{◌≡◌, refl, Bool, ◌&&◌, arith}
use descarteslabs_python.Python.Result.{ok}
use descarteslabs_python.Filtering.{
  Comparison, Expr, comparison, and_expr, or_expr, Exprs, nil, cons, extend, single,
}
use descarteslabs_python.Filtering.Operators.{Operated, and_parts, and_op}
use descarteslabs_python.Filtering.Serialized.Sent.{every, every_of}

module _ {V : Type 0} (can : Comparison V → Bool) where
  every_of-extend :
      (xs ys : Exprs V) → every_of can (extend xs ys) ≡ (every_of can xs && every_of can ys)
  unfolding every extend
  every_of-extend nil ys = refl
  every_of-extend (cons x xs) ys = ground (arith, every_of-extend xs ys)

  every-and_parts :
      (xs : Exprs V) (b : Expr V) → every_of can (and_parts xs b) ≡ (every_of can xs && every can b)
  unfolding every and_parts
  every-and_parts xs (comparison c) = ground (arith, every_of-extend xs (single (comparison c)))
  every-and_parts xs (and_expr es) = every_of-extend xs es
  every-and_parts xs (or_expr es) = ground (arith, every_of-extend xs (single (or_expr es)))

module _ {V : Type 0} (can : Comparison V → Bool) where
  -- They are those of the two operands.
  pub every-and_op :
      (a b : Expr V) (o : Operated V)
      → and_op a b ≡ ok o
      → every can o.result ≡ (every can a && every can b)
  unfolding and_op every
  every-and_op (comparison c) b o e = ground (arith, every-and_parts can (single (comparison c)) b)
  every-and_op (and_expr es) b o e = ground (arith, every-and_parts can es b)
  every-and_op (or_expr es) (comparison c) o e =
      ground (arith, every-and_parts can (single (or_expr es)) (comparison c))
  every-and_op (or_expr es) (and_expr fs) o e = ground (arith, every-and_parts can fs (or_expr es))
  every-and_op (or_expr es) (or_expr fs) o e = cc
