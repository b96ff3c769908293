-- ===== src/Examples/Filtering.antt =====
-- Filters on numbers.
use descarteslabs_python.Prelude.{
  ℕ, String, ◌≡◌, ◌↔◌, refl, Bool, true, ◌&&◌, ◌||◌, Option, none, [], ◌∷◌, any, eqb, leb, ltb,
  ◌==◌, if◌then◌else◌,
}
use descarteslabs_python.Python.Result.{err}
use descarteslabs_python.Filtering.{
  Comparison, eq, ne, range, Expr, comparison, and_expr, or_expr, nil, cons, Property, extend,
  eq_expression, in_expression,
}
use descarteslabs_python.Filtering.Operators.{Operated, and_op, or_op, type_error}
use descarteslabs_python.Filtering.Meaning.{holds, holds-and_op, holds-or_op, holds-in_expression}
use descarteslabs_python.Filtering.Serialized.{jsonapi_serialize, json_holds}
use descarteslabs_python.Filtering.Serialized.Sent.{
  Serializes, every, can_send, sent_test, jsonapi_serialize-Serializes,
}
use descarteslabs_python.Filtering.Mutation.{
  is_and, is_or, operators_raise_iff, holds-and_op_reused,
}

-- Whether an object all of whose properties are 3 passes an operator.
abbrev three : String → String → ℕ → Bool
three op name v =
    if op == "eq"
    then eqb 3 v
    else if op == "ne"
    then ltb 3 v || ltb v 3
    else if op == "gte"
    then leb v 3
    else ltb 3 v

abbrev test : Comparison ℕ → Bool
test = sent_test three none

abbrev is_three : Expr ℕ
is_three = comparison (eq "a" 3)

abbrev at_least_two : Expr ℕ
at_least_two = comparison (range "b" (("gte", 2) ∷ []))

abbrev both_of : Expr ℕ
both_of = and_expr (cons is_three (cons at_least_two nil))

abbrev joined : Operated ℕ
joined = record { result = both_of; left = is_three; right = at_least_two }

holds-and_op_example : holds test both_of ≡ (holds test is_three && holds test at_least_two)
unfolding and_op extend
holds-and_op_example = holds-and_op test is_three at_least_two joined refl

abbrev either : Expr ℕ
either = or_expr (cons is_three (cons at_least_two nil))

holds-or_op_example : holds test either ≡ (holds test is_three || holds test at_least_two)
unfolding or_op extend
holds-or_op_example =
    holds-or_op test is_three at_least_two
      (record { result = either; left = is_three; right = at_least_two }) refl

operators_raise_iff_example :
    ((and_op either either ≡ err type_error) ↔ ((is_or either && is_or either) ≡ true))
    × ((or_op either either ≡ err type_error) ↔ ((is_and either && is_and either) ≡ true))
operators_raise_iff_example = operators_raise_iff either either

abbrev not_four : Expr ℕ
not_four = comparison (ne "a" 4)

abbrev three_parts : Expr ℕ
three_parts = and_expr (cons is_three (cons at_least_two (cons not_four nil)))

abbrev four_parts : Expr ℕ
four_parts = and_expr (cons is_three (cons at_least_two (cons not_four (cons is_three nil))))

holds-and_op_reused_example :
    holds test four_parts ≡ ((holds test both_of && holds test not_four) && holds test is_three)
unfolding and_op extend
holds-and_op_reused_example =
    holds-and_op_reused test (cons is_three (cons at_least_two nil)) not_four is_three
      (record { result = three_parts; left = three_parts; right = not_four })
      (record { result = four_parts; left = four_parts; right = is_three }) refl refl

-- No value has an `id`.
abbrev no_id : ℕ → Option ℕ
no_id v = none

abbrev property_a : Property ℕ
property_a = record { name = "a"; parts = [] }

holds-in_expression_example :
    holds test (in_expression no_id property_a (2 ∷ 3 ∷ []))
    ≡ any (λ item. holds test (eq_expression no_id "a" item)) (2 ∷ 3 ∷ [])
holds-in_expression_example = holds-in_expression test no_id property_a (2 ∷ 3 ∷ [])

jsonapi_serialize-Serializes_example :
    Serializes
      (every (can_send none) both_of)
      (λ j. json_holds three j ≡ holds (sent_test three none) both_of)
      (jsonapi_serialize none both_of)
jsonapi_serialize-Serializes_example = jsonapi_serialize-Serializes three none both_of
