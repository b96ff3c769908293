-- ===== src/Filtering.antt =====
-- descarteslabs/common/property_filtering/filtering.py: expressions that filter by properties. The
-- type of the values that a property is compared with is a parameter.
pub mod Operators
pub mod Meaning
pub mod Serialized
pub mod Mutation
use Prim.Native.String
use descarteslabs_python.Prelude.{String, Option, none, some, List, [], ◌∷◌}
use descarteslabs_python.Python.Dict.{Dict, insert}

-- The four subclasses of `Expression`.
pub data Comparison (V : Type 0) : Type 0 where
  eq ne like : String → V → Comparison V
  range : String → Dict V → Comparison V

-- An expression: an `Expression`, an `AndExpression` or an `OrExpression`, with its parts.
mutual
  pub data Expr (V : Type 0) : Type 0 where
    comparison : Comparison V → Expr V
    and_expr or_expr : Exprs V → Expr V

  pub data Exprs (V : Type 0) : Type 0 where
    nil : Exprs V
    cons : Expr V → Exprs V → Exprs V

-- A `Property` with the parts of a range that it has collected.
pub record Property (V : Type 0) : Type 0 where
  pub name : String
  pub parts : Dict V

module _ {V : Type 0} where
  unfoldable pub extend : Exprs V → Exprs V → Exprs V
  extend nil ys = ys
  extend (cons x xs) ys = cons x (extend xs ys)

  abbrev pub single : Expr V → Exprs V
  single x = cons x nil

  -- `_convert_name_value_pair`, where `id_of` reads a value's `id` attribute
  unfoldable pub convert_name_value_pair : (V → Option V) → String → V → String × V
  convert_name_value_pair id_of name value = elim (id_of value) [
    | some id ↦ (String.◌++◌ name "_id", id)
    | none ↦ (name, value)
  ]

  unfoldable pub eq_expression : (V → Option V) → String → V → Expr V
  unfolding convert_name_value_pair
  eq_expression id_of name value =
      let (n, v) = convert_name_value_pair id_of name value in comparison (eq n v)

  unfoldable pub ne_expression : (V → Option V) → String → V → Expr V
  unfolding convert_name_value_pair
  ne_expression id_of name value =
      let (n, v) = convert_name_value_pair id_of name value in comparison (ne n v)

  -- `range_expr(op)`: the property keeps the part, and the expression has a copy of its parts.
  unfoldable pub range_expr : String → Property V → V → Property V × Expr V
  range_expr op p other =
      let parts = insert op other p.parts in
      (record p { parts = parts }, comparison (range p.name parts))

  unfoldable pub like_expression : Property V → V → Expr V
  like_expression p other = comparison (like p.name other)

  unfoldable pub equal_each : (V → Option V) → String → List V → Exprs V
  unfolding eq_expression
  equal_each id_of name [] = nil
  equal_each id_of name (item ∷ items) =
      cons (eq_expression id_of name item) (equal_each id_of name items)

  -- `in_`, and `any_of`
  unfoldable pub in_expression : (V → Option V) → Property V → List V → Expr V
  unfolding equal_each
  in_expression id_of p items = or_expr (equal_each id_of p.name items)
