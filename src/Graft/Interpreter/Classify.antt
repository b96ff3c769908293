-- ===== src/Graft/Interpreter/Classify.antt =====
-- The tests of `evaluate`, in their order, as one classification of an expression.
use descarteslabs_python.Prelude.{
  String, ◌≡◌, refl, Bool, true, false, List, [], ◌∷◌, if◌then◌else◌,
}
use descarteslabs_python.Python.Result.{Result, ok, err}
use descarteslabs_python.Graft.Value.{
  Value, str, seq, dict, Items, nil, cons, Fields, end, field, about, Error, graft_syntax_error,
}
use descarteslabs_python.Graft.Syntax.{is_application, is_literal, is_graft, is_quoted_json}

pub data Expr : Type 0 where
  application : String → List String → List (String × String) → Expr
  literal : Value → Expr
  function : Fields → Expr
  quoted : Value → Expr

unfoldable pub named_keys : Fields → List (String × String)
named_keys end = []
named_keys (field name (str k) d) = (name, k) ∷ named_keys d
named_keys (field name v d) = named_keys d

-- `expr[1:-1]` and `expr[-1]`, once `{}` is appended where the last item is a key.
unfoldable pub split_args : Items → List String × List (String × String)
unfolding named_keys
split_args nil = ([], [])
split_args (cons (str k) xs) = (k ∷ (split_args xs).0, (split_args xs).1)
split_args (cons (dict d) nil) = ([], named_keys d)
split_args (cons x xs) = split_args xs

unfoldable pub as_application : Value → Expr
unfolding split_args
as_application (seq (cons (str f) xs)) = application f (split_args xs).0 (split_args xs).1
as_application v = quoted v

abbrev pub first_item : Value → Value
first_item (seq (cons x xs)) = x
first_item v = v

abbrev pub as_fields : Value → Fields
as_fields (dict d) = d
as_fields v = end

abbrev pub tested : Value → Bool → Result Error Expr
tested expr true = ok (as_application expr)
tested expr false =
    if is_literal expr
    then ok (literal expr)
    else if is_graft expr
    then ok (function (as_fields expr))
    else if is_quoted_json expr
    then ok (quoted (first_item expr))
    else err (graft_syntax_error (about "expression"))

unfoldable pub classify : Value → Result Error Expr
unfolding as_application
classify expr = elim (is_application expr) [ ok b ↦ tested expr b | err e ↦ err e ]

-- `expr.append({})`
unfoldable pub append_item : Items → Value → Items
append_item nil v = cons v nil
append_item (cons x xs) v = cons x (append_item xs v)

unfoldable pub key_items : List String → Items
key_items [] = nil
key_items (k ∷ ks) = cons (str k) (key_items ks)

-- Where the last item is a key, all are, and appending `{}` leaves the arguments as they were. So
-- the change that `evaluate` makes to the graft is not seen by a later evaluation.
split_args-append_item :
    (ks : List String)
    → split_args (append_item (key_items ks) (dict end)) ≡ split_args (key_items ks)
unfolding split_args append_item key_items
split_args-append_item [] = refl
split_args-append_item (k ∷ ks) = rw (split_args-append_item ks)
