-- ===== src/Graft/Syntax.antt =====
-- graft/syntax/syntax.py: what the parts of a graft look like.
pub mod Arguments
use descarteslabs_python.Prelude.{
  String, Bool, true, false, not, ◌&&◌, ◌||◌, Option, none, some, List, [], ◌∷◌, length, contains,
  ◌==◌, eqb, if◌then◌else◌,
}
use descarteslabs_python.Python.Number.{ℤ, pos, negsuc, int_of_str}
use descarteslabs_python.Python.Result.{Result, ok, err}
use descarteslabs_python.Graft.Value.{
  Value, null, bool, number, str, seq, dict, delayed, object, Items, nil, cons, Fields, end, field,
  Error, index_error,
}
use descarteslabs_python.Graft.Fields.{has}

abbrev pub reserved_words : List String
reserved_words = "parameters" ∷ "returns" ∷ []

abbrev pub is_name : String → Bool
is_name s = not (contains reserved_words s)

-- Without `other_types`, and with `(abc.Mapping,)` for it.
unfoldable pub is_nonstring_sequence : Value → Bool
is_nonstring_sequence (seq xs) = true
is_nonstring_sequence _ = false

unfoldable pub is_sequence_or_mapping : Value → Bool
is_sequence_or_mapping (seq xs) = true
is_sequence_or_mapping (dict d) = true
is_sequence_or_mapping _ = false

unfoldable pub is_key : Value → Bool
is_key (str s) = is_name s
is_key _ = false

abbrev pub is_positive : Option ℤ → Bool
is_positive (some (pos n)) = not (eqb n 0)
is_positive _ = false

unfoldable pub is_guid_key : Value → Bool
unfolding is_key
is_guid_key (str s) = is_key (str s) && is_positive (int_of_str s)
is_guid_key _ = false

unfoldable pub is_literal : Value → Bool
is_literal null = true
is_literal (bool b) = true
is_literal (number n) = true
is_literal (str s) = true
is_literal _ = false

unfoldable pub is_quoted_json : Value → Bool
unfolding is_sequence_or_mapping
is_quoted_json (seq (cons x nil)) = is_sequence_or_mapping x
is_quoted_json _ = false

all_named_keys : Fields → Bool
all_named_keys end = true
all_named_keys (field k v d) = is_name k && is_key v && all_named_keys d

unfoldable pub is_named_application_part : Value → Bool
unfolding all_named_keys is_key
is_named_application_part (dict d) = all_named_keys d
is_named_application_part _ = false

-- `is_key` of all items but the last
all_keys_but_last : Items → Bool
all_keys_but_last nil = true
all_keys_but_last (cons x nil) = true
all_keys_but_last (cons x (cons y ys)) = is_key x && all_keys_but_last (cons y ys)

-- the last of `x` and the items after it
last_item : Value → Items → Value
last_item x nil = x
last_item x (cons y ys) = last_item y ys

has_second : Items → Bool
has_second nil = false
has_second (cons x xs) = true

-- `expr[-1]` of an empty sequence raises an `IndexError`.
unfoldable pub is_application : Value → Result Error Bool
unfolding all_keys_but_last last_item has_second is_key is_named_application_part
is_application (seq nil) = err index_error
is_application (seq (cons x xs)) =
    let last = last_item x xs in
    ok (
      all_keys_but_last (cons x xs)
      && (is_key last || (has_second xs && is_named_application_part last)))
is_application _ = ok false

unfoldable pub all_keys : Items → Bool
unfolding is_key
all_keys nil = true
all_keys (cons x xs) = is_key x && all_keys xs

-- the texts among the items
unfoldable pub texts : Items → List String
texts nil = []
texts (cons (str s) xs) = s ∷ texts xs
texts (cons x xs) = texts xs

-- set(names), in the order of the last places
unfoldable pub as_set : List String → List String
as_set [] = []
as_set (x ∷ xs) = let rest = as_set xs in if contains xs x then rest else x ∷ rest

unfoldable pub is_params : Value → Bool
unfolding all_keys texts as_set
is_params (seq xs) = all_keys xs && eqb (length (as_set (texts xs))) (length (texts xs))
is_params _ = false

unfoldable pub is_graft : Value → Bool
is_graft (dict d) = has "returns" d
is_graft _ = false
