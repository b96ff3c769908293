-- ===== src/Dotdict/Builtin.antt =====
-- What the methods of dotdict.py stand for: those of the built-in `dict` and `list`, on values whose
-- containers are all plain, with nothing boxed.
use descarteslabs_python.Prelude.{Bool, true, ℕ, String, false, Option, none, some, List, [], ◌∷◌}
use descarteslabs_python.Python.Result.{Result, ok, err}
use descarteslabs_python.Dotdict.{
  Error, key_error, attribute_error, index_error, type_error, Value, other, dict, list, Fields, end,
  field, Items, nil, cons, Answer, nothing, value, pair, pairs, elements, get_field, put_field,
  remove_field, split_last, find_item, put_at, remove_at,
}
use descarteslabs_python.Dotdict.Methods.{
  DictMethod, get_item, get_attribute, delete_attribute, set_attribute, get, pop, set_default,
  pop_item, items, ListMethod, get_index, pop_index, iterate, Method, of_dict, of_list, Step,
  attribute, index, Outcome,
}

-- The value with every container plain.
unfoldable mutual
  pub plain : Value → Value
  plain (other s) = other s
  plain (dict b fields) = dict false (plain_fields fields)
  plain (list b xs) = list false (plain_items xs)

  pub plain_fields : Fields → Fields
  plain_fields end = end
  plain_fields (field k v fields) = field k (plain v) (plain_fields fields)

  pub plain_items : Items → Items
  plain_items nil = nil
  plain_items (cons v xs) = cons (plain v) (plain_items xs)

unfoldable pub plain_answer : Result Error Answer → Result Error Answer
unfolding plain
plain_answer (err e) = err e
plain_answer (ok nothing) = ok nothing
plain_answer (ok (value v)) = ok (value (plain v))
plain_answer (ok (pair k v)) = ok (pair k (plain v))
plain_answer (ok (pairs fields)) = ok (pairs (plain_fields fields))
plain_answer (ok (elements xs)) = ok (elements (plain_items xs))

unfoldable pub value_or : Result Error Answer → Option Value → Result Error Answer
value_or r none = r
value_or r (some v) = ok (value v)

unfoldable pub default_for : String → Value → Fields → Option Value → Fields
unfolding put_field
default_for k default fields none = put_field k default fields
default_for k default fields (some v) = fields

unfoldable pub deletion : String → Fields → Option Value → Outcome Fields
unfolding remove_field
deletion k fields none = (err attribute_error, fields)
deletion k fields (some v) = (ok nothing, remove_field k fields)

unfoldable pub without : String → Fields → Option Value → Fields
unfolding remove_field
without k fields none = fields
without k fields (some v) = remove_field k fields

unfoldable pub last_pair : Option ((String × Value) × Fields) → Outcome Fields
last_pair none = (err key_error, end)
last_pair (some ((k, v), before)) = (ok (pair k v), before)

unfoldable pub builtin_dict : DictMethod → Fields → Outcome Fields
unfolding plain value_or default_for deletion without last_pair get_field put_field split_last
builtin_dict (get_item k) fields = (value_or (err key_error) (get_field k fields), fields)
builtin_dict (get_attribute k) fields =
    (value_or (err attribute_error) (get_field k fields), fields)
builtin_dict (delete_attribute k) fields = deletion k fields (get_field k fields)
builtin_dict (set_attribute k v) fields = (ok nothing, put_field k (plain v) fields)
builtin_dict (get k default) fields =
    (value_or (ok (value (plain default))) (get_field k fields), fields)
builtin_dict (pop k none) fields =
    (value_or (err key_error) (get_field k fields), without k fields (get_field k fields))
builtin_dict (pop k (some default)) fields = (
  value_or (ok (value (plain default))) (get_field k fields),
  without k fields (get_field k fields),
)
builtin_dict (set_default k default) fields = (
  value_or (ok (value (plain default))) (get_field k fields),
  default_for k (plain default) fields (get_field k fields),
)
builtin_dict pop_item fields = last_pair (split_last fields)
builtin_dict items fields = (ok (pairs fields), fields)

unfoldable pub item_of : Option (ℕ × Value) → Result Error Answer
item_of none = err index_error
item_of (some (p, v)) = ok (value v)

unfoldable pub rest_of : Items → Option (ℕ × Value) → Items
unfolding remove_at
rest_of xs none = xs
rest_of xs (some (p, v)) = remove_at p xs

unfoldable pub builtin_list : ListMethod → Items → Outcome Items
unfolding item_of rest_of find_item
builtin_list (get_index i) xs = (item_of (find_item i xs), xs)
builtin_list (pop_index i) xs = (item_of (find_item i xs), rest_of xs (find_item i xs))
builtin_list iterate xs = (ok (elements xs), xs)

unfoldable pub builtin_on : Method → Value → Outcome Value
unfolding builtin_dict builtin_list
builtin_on (of_dict m) (dict b fields) =
    ((builtin_dict m fields).0, dict b (builtin_dict m fields).1)
builtin_on (of_list m) (list b xs) = ((builtin_list m xs).0, list b (builtin_list m xs).1)
builtin_on m v = (err type_error, v)

unfoldable pub under_field :
    (Value → Outcome Value) → String → Fields → Option Value → Outcome Value
unfolding put_field
under_field next k fields none = (err attribute_error, dict false fields)
under_field next k fields (some v) = ((next v).0, dict false (put_field k (next v).1 fields))

unfoldable pub under_item : (Value → Outcome Value) → Items → Option (ℕ × Value) → Outcome Value
unfolding put_at
under_item next xs none = (err index_error, list false xs)
under_item next xs (some (p, v)) = ((next v).0, list false (put_at p (next v).1 xs))

unfoldable pub builtin_step : Step → (Value → Outcome Value) → Value → Outcome Value
unfolding under_field under_item get_field find_item
builtin_step (attribute k) next (dict b fields) = under_field next k fields (get_field k fields)
builtin_step (index i) next (list b xs) = under_item next xs (find_item i xs)
builtin_step step next v = (err type_error, v)

unfoldable pub builtin_at : List Step → Method → Value → Outcome Value
unfolding builtin_step builtin_on
builtin_at [] m v = builtin_on m v
builtin_at (step ∷ path) m v = builtin_step step (builtin_at path m) v

-- The only difference of a method from the built-in one: without a default, the built-in `pop` raises
-- a `KeyError` for a key that there is not.
abbrev pub gives_default : Method → Bool
gives_default (of_dict (pop k none)) = false
gives_default m = true
