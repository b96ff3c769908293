-- ===== src/Filtering/Meaning.antt =====
-- What an expression of filtering.py means, given a test for comparisons.
use descarteslabs_python.Prelude.{
  String, ◌≡◌, refl, ap, Bool, true, false, ◌&&◌, ◌||◌, Option, List, [], ◌∷◌, any, arith,
}
use descarteslabs_python.Python.Result.{ok}
use descarteslabs_python.Filtering.{
  Comparison, Expr, comparison, and_expr, or_expr, Exprs, nil, cons, Property, extend, single,
  eq_expression, in_expression, equal_each,
}
use descarteslabs_python.Filtering.Operators.{Operated, and_parts, or_parts, and_op, or_op}

module _ {V : Type 0} (test : Comparison V → Bool) where
  unfoldable mutual
    pub holds : Expr V → Bool
    holds (comparison c) = test c
    holds (and_expr es) = holds_all es
    holds (or_expr es) = holds_any es

    pub holds_all : Exprs V → Bool
    holds_all nil = true
    holds_all (cons e es) = holds e && holds_all es

    pub holds_any : Exprs V → Bool
    holds_any nil = false
    holds_any (cons e es) = holds e || holds_any es

module _ {V : Type 0} (test : Comparison V → Bool) where
  holds_all-extend :
      (xs ys : Exprs V) → holds_all test (extend xs ys) ≡ (holds_all test xs && holds_all test ys)
  unfolding holds extend
  holds_all-extend nil ys = refl
  holds_all-extend (cons x xs) ys = ground (arith, holds_all-extend xs ys)

  holds_any-extend :
      (xs ys : Exprs V) → holds_any test (extend xs ys) ≡ (holds_any test xs || holds_any test ys)
  unfolding holds extend
  holds_any-extend nil ys = refl
  holds_any-extend (cons x xs) ys = ground (arith, holds_any-extend xs ys)

  holds-and_parts :
      (xs : Exprs V) (b : Expr V)
      → holds_all test (and_parts xs b) ≡ (holds_all test xs && holds test b)
  unfolding holds and_parts
  holds-and_parts xs (comparison c) = ground (arith, holds_all-extend xs (single (comparison c)))
  holds-and_parts xs (and_expr es) = holds_all-extend xs es
  holds-and_parts xs (or_expr es) = ground (arith, holds_all-extend xs (single (or_expr es)))

  holds-or_parts :
      (xs : Exprs V) (b : Expr V)
      → holds_any test (or_parts xs b) ≡ (holds_any test xs || holds test b)
  unfolding holds or_parts
  holds-or_parts xs (comparison c) = ground (arith, holds_any-extend xs (single (comparison c)))
  holds-or_parts xs (and_expr es) = ground (arith, holds_any-extend xs (single (and_expr es)))
  holds-or_parts xs (or_expr es) = holds_any-extend xs es

module _ {V : Type 0} (test : Comparison V → Bool) where
  -- `a & b`, where it does not raise, matches what both operands match.
  pub holds-and_op :
      (a b : Expr V) (o : Operated V)
      → and_op a b ≡ ok o
      → holds test o.result ≡ (holds test a && holds test b)
  unfolding and_op holds
  holds-and_op (comparison c) b o e = ground (arith, holds-and_parts test (single (comparison c)) b)
  holds-and_op (and_expr es) b o e = ground (arith, holds-and_parts test es b)
  holds-and_op (or_expr es) (comparison c) o e =
      ground (arith, holds-and_parts test (single (or_expr es)) (comparison c))
  holds-and_op (or_expr es) (and_expr fs) o e = ground (arith, holds-and_parts test fs (or_expr es))
  holds-and_op (or_expr es) (or_expr fs) o e = cc

  -- `a | b`, where it does not raise, matches what one of the operands matches.
  pub holds-or_op :
      (a b : Expr V) (o : Operated V)
      → or_op a b ≡ ok o
      → holds test o.result ≡ (holds test a || holds test b)
  unfolding or_op holds
  holds-or_op (comparison c) b o e = ground (arith, holds-or_parts test (single (comparison c)) b)
  holds-or_op (or_expr es) b o e = ground (arith, holds-or_parts test es b)
  holds-or_op (and_expr es) (comparison c) o e =
      ground (arith, holds-or_parts test (single (and_expr es)) (comparison c))
  holds-or_op (and_expr es) (or_expr fs) o e = ground (arith, holds-or_parts test fs (and_expr es))
  holds-or_op (and_expr es) (and_expr fs) o e = cc

  holds-equal_each :
      (id_of : V → Option V) (name : String) (items : List V)
      → holds_any test (equal_each id_of name items)
        ≡ any (λ item. holds test (eq_expression id_of name item)) items
  unfolding holds equal_each
  holds-equal_each id_of name [] = refl
  holds-equal_each id_of name (x ∷ xs) =
      ap (λ b. holds test (eq_expression id_of name x) || b) (holds-equal_each id_of name xs)

  -- `p.in_(items)` matches where `p == item` matches for one of the items.
  pub holds-in_expression :
      (id_of : V → Option V) (p : Property V) (items : List V)
      → holds test (in_expression id_of p items)
        ≡ any (λ item. holds test (eq_expression id_of p.name item)) items
  unfolding holds in_expression
  holds-in_expression id_of p items = holds-equal_each id_of p.name items
