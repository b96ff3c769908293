-- ===== src/Filtering/Mutation.antt =====
-- What the operators of filtering.py raise, and what they change in place.
use descarteslabs_python.Prelude.{◌≡◌, refl, ◌∙◌, ap, ◌↔◌, Bool, true, false, ◌&&◌, arith}
use descarteslabs_python.Python.Result.{ok, err}
use descarteslabs_python.Filtering.{Comparison, Expr, comparison, and_expr, or_expr, Exprs}
use descarteslabs_python.Filtering.Operators.{type_error, Operated, and_op, or_op}
use descarteslabs_python.Filtering.Meaning.{holds, holds-and_op}

module _ {V : Type 0} where
  abbrev pub is_or : Expr V → Bool
  is_or (or_expr es) = true
  is_or _ = false

  abbrev pub is_and : Expr V → Bool
  is_and (and_expr es) = true
  is_and _ = false

  -- `a & b` raises exactly where both operands are `OrExpression`s, and `a | b` exactly where both
  -- are `AndExpression`s.
  pub operators_raise_iff :
      (a b : Expr V)
      → ((and_op a b ≡ err type_error) ↔ ((is_or a && is_or b) ≡ true))
        × ((or_op a b ≡ err type_error) ↔ ((is_and a && is_and b) ≡ true))
  unfolding and_op or_op
  operators_raise_iff (comparison c) b = ((λ e. cc, λ e. cc), (λ e. cc, λ e. cc))
  operators_raise_iff (and_expr es) (comparison c) = ((λ e. cc, λ e. cc), (λ e. cc, λ e. cc))
  operators_raise_iff (and_expr es) (and_expr fs) = ((λ e. cc, λ e. cc), (λ e. refl, λ e. refl))
  operators_raise_iff (and_expr es) (or_expr fs) = ((λ e. cc, λ e. cc), (λ e. cc, λ e. cc))
  operators_raise_iff (or_expr es) (comparison c) = ((λ e. cc, λ e. cc), (λ e. cc, λ e. cc))
  operators_raise_iff (or_expr es) (and_expr fs) = ((λ e. cc, λ e. cc), (λ e. cc, λ e. cc))
  operators_raise_iff (or_expr es) (or_expr fs) = ((λ e. refl, λ e. refl), (λ e. cc, λ e. cc))

module _ {V : Type 0} (test : Comparison V → Bool) where
  left-result :
      (es : Exprs V) (b : Expr V) (o : Operated V)
      → and_op (and_expr es) b ≡ ok o
      → o.left ≡ o.result
  unfolding and_op
  left-result es b o e = ground arith

  -- An `AndExpression` that was the left operand of `&` is not what it was: used again, it brings
  -- the other operand along, where neither use raises.
  pub holds-and_op_reused :
      (es : Exprs V) (x y : Expr V) (o o' : Operated V)
      → and_op (and_expr es) x ≡ ok o
      → and_op o.left y ≡ ok o'
      → holds test o'.result ≡ ((holds test (and_expr es) && holds test x) && holds test y)
  holds-and_op_reused es x y o o' e e' =
      holds-and_op test o.left y o' e'
      ∙ ap (λ b. b && holds test y)
          (ap (holds test) (left-result es x o e) ∙ holds-and_op test (and_expr es) x o e)
