-- ===== src/Graft/Client.antt =====
-- graft/client/client.py: building grafts. The module's counter of keys is the state.
pub mod Functions
pub mod Scopes
pub mod Fresh
pub mod Keys
pub mod Refers
pub mod Parts
pub mod Apply
pub mod Outer
pub mod Partition
pub mod Isolation
pub mod Namespace
pub mod SubKeys
pub mod Merged
use descarteslabs_python.Prelude.{
  ℕ, ◌+◌, String, Bool, true, false, not, ◌&&◌, ◌||◌, Option, none, some, List, [], ◌∷◌, map,
  length, contains, any, ◌==◌, ltb, if◌then◌else◌,
}
use Prim.Native.String.{◌++◌}
use descarteslabs_python.Python.Number.{ℤ, pos, negsuc, str_of_ℕ, int_of_str}
use descarteslabs_python.Python.Result.{
  Result, ok, err, Action, pure, raise, lift, ◌>>=◌, ◌>>◌, map_action,
}
use descarteslabs_python.Graft.Value.{
  Value, null, bool, number, str, seq, dict, delayed, object, Items, nil, cons, Fields, end, field,
  Message, missing, about, Error, type_error, value_error, key_error, runtime_error,
}
use descarteslabs_python.Graft.Fields.{get, has, put, pop, update, keys, value_or}
use descarteslabs_python.Graft.Syntax.{
  reserved_words, is_key, is_guid_key, is_literal, is_quoted_json, is_params, is_graft,
}
use descarteslabs_python.Graft.Syntax.Arguments.{check_args}

-- `GUID_COUNTER` by the number that it hands out next, and `consistent_guid._in_use`.
pub record Guids : Type 0 where
  pub next : ℕ
  pub in_use : Bool

abbrev pub Client : Type 0 → Type 0
Client A = Action Guids Error A

unfoldable pub guid : Client String
guid s = (ok (str_of_ℕ s.next), record s { next = s.next + 1 })

-- `d` where `v` is a graft: a mapping with a "returns" key.
unfoldable pub as_graft : Value → Option Fields
as_graft (dict d) = if has "returns" d then some d else none
as_graft _ = none

-- `x.graft` where `is_delayed(x)`
unfoldable pub delayed_graft : Value → Option Fields
unfolding as_graft
delayed_graft (delayed g) = as_graft g
delayed_graft _ = none

-- `{key: value, "returns": key}`
abbrev pub binding : String → Value → Fields
binding key value = field key value (field "returns" (str key) end)

unfoldable pub literal_graft : String → Value → Client Fields
literal_graft key (seq xs) = pure (binding key (seq (cons (seq xs) nil)))
literal_graft key (dict d) = pure (binding key (seq (cons (dict d) nil)))
literal_graft key value =
    if is_literal value then pure (binding key value) else raise (type_error (about "value"))

unfoldable pub checked_key : Error → Value → Client String
checked_key e (str s) = if is_key (str s) then pure s else raise e
checked_key e _ = raise e

unfoldable pub given_or_new_key : Option Value → Client String
unfolding checked_key guid
given_or_new_key none = guid
given_or_new_key (some key) = checked_key (type_error (about "key")) key

unfoldable pub value_graft : Value → Option Value → Client Fields
unfolding delayed_graft given_or_new_key literal_graft
value_graft value key = elim (delayed_graft value) [
  | some g ↦ pure g
  | none ↦ do k ← given_or_new_key key; literal_graft k value
]

unfoldable pub keyref_graft : Value → Client Fields
unfolding checked_key
keyref_graft key = do
  k ← checked_key (value_error (about "key")) key
  pure (field "returns" (str k) end)

unfoldable pub is_keyref_graft : Value → Bool
is_keyref_graft (dict (field k v end)) = is_graft (dict (field k v end)) && k == "returns"
is_keyref_graft _ = false

unfoldable pub graft_is_function_graft : Fields → Bool
graft_is_function_graft d = has "parameters" d

unfoldable pub is_function_graft : Value → Bool
unfolding is_graft graft_is_function_graft
is_function_graft (dict d) = is_graft (dict d) && graft_is_function_graft d
is_function_graft _ = false

-- `x if syntax.is_graft(x) else value_graft(x)`
unfoldable pub graft_of : Value → Client Fields
unfolding as_graft value_graft
graft_of v = elim (as_graft v) [ some d ↦ pure d | none ↦ value_graft v none ]

-- `d["returns"]`, of a graft
unfoldable pub returned_key : Fields → Value
returned_key d = value_or (get "returns" d) null

-- The names in a "parameters" entry; any other entry is taken to raise a `TypeError`.
unfoldable pub param_names : Items → Result Error (List String)
param_names nil = ok []
param_names (cons (str s) xs) = elim (param_names xs) [ ok names ↦ ok (s ∷ names) | err e ↦ err e ]
param_names (cons _ xs) = err (type_error (about "parameters"))

unfoldable pub names_in : Value → Result Error (List String)
unfolding param_names
names_in (seq xs) = param_names xs
names_in _ = err (type_error (about "parameters"))

abbrev pub kwarg_names : List (String × Value) → List String
kwarg_names kwargs = map (λ kv. kv.0) kwargs

-- A function graft that is called goes in as a sub-graft, once its arguments are checked.
unfoldable pub function_object : Fields → ℕ → List String → Client (Fields × Value)
unfolding names_in guid
function_object d n named = do
  names ← lift (names_in (value_or (get "parameters" d) (seq nil)))
  lift (check_args n named names type_error)
  key ← guid
  pure (field key (dict d) end, str key)

-- The graft that a call begins with, and the key of its function.
unfoldable pub function_part : Value → ℕ → List String → Client (Fields × Value)
unfolding graft_is_function_graft function_object returned_key
function_part (str s) n named = pure (end, str s)
function_part (dict d) n named =
    if not (is_graft (dict d))
    then raise (type_error (about "function"))
    else if graft_is_function_graft d
    then function_object d n named
    else pure (update end d, returned_key d)
function_part _ n named = raise (type_error (about "function"))

-- A function graft goes in as a sub-graft under a new key, a value graft is inlined.
unfoldable pub add_arg : Fields → Fields → Client (Fields × Value)
unfolding graft_is_function_graft guid returned_key
add_arg result arg =
    if graft_is_function_graft arg
    then (do key ← guid; pure (put key (dict arg) result, str key))
    else pure (update result arg, returned_key arg)

unfoldable pub add_positional : Fields → List Fields → Client (Fields × Items)
unfolding add_arg
add_positional result [] = pure (result, nil)
add_positional result (arg ∷ args) = do
  (added, key) ← add_arg result arg
  (all_added, ks) ← add_positional added args
  pure (all_added, cons key ks)

unfoldable pub add_named : Fields → List (String × Fields) → Client (Fields × Fields)
unfolding add_arg
add_named result [] = pure (result, end)
add_named result ((name, arg) ∷ args) = do
  (added, key) ← add_arg result arg
  (all_added, ks) ← add_named added args
  pure (all_added, field name key ks)

-- `[function_key] + positional_args`, and the named arguments if there are any
unfoldable pub with_named : Items → Fields → Items
with_named nil end = nil
with_named nil named = cons (dict named) nil
with_named (cons x xs) named = cons x (with_named xs named)

-- `if is_delayed(function): function = function.graft`
unfoldable pub undelayed : Value → Value
unfolding delayed_graft
undelayed v = elim (delayed_graft v) [ some g ↦ dict g | none ↦ v ]

abbrev pub named_graft_of : String × Value → Client (String × Fields)
named_graft_of (name, v) = do g ← graft_of v; pure (name, g)

-- The application itself, under a new key.
unfoldable pub insert_call : Fields → Value → Items → Fields → Client Fields
unfolding with_named guid
insert_call graft function_key positional named = do
  key ← guid
  pure (
      put "returns" (str key)
        (put key (seq (with_named (cons function_key positional) named)) graft))

unfoldable pub call_graft : Fields × Value → List Fields → List (String × Fields) → Client Fields
unfolding add_positional add_named insert_call
call_graft function pos_args named_args = do
  with_args ← add_positional function.0 pos_args
  with_all ← add_named with_args.0 named_args
  insert_call with_all.0 function.1 with_args.1 with_all.1

unfoldable pub apply_graft : Value → List Value → List (String × Value) → Client Fields
unfolding graft_of undelayed function_part call_graft map_action
apply_graft function args kwargs = do
  pos_args ← map_action graft_of args
  named_args ← map_action named_graft_of kwargs
  called ← function_part (undelayed function) (length args) (kwarg_names kwargs)
  call_graft called pos_args named_args
