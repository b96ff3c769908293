-- ===== src/Graft/Client/Scopes.antt =====
-- The operations of graft/client/client.py that put grafts into scopes of their own, and
-- `consistent_guid`.
use descarteslabs_python.Prelude.{
  ℕ, String, Bool, true, false, not, none, some, List, [], ◌∷◌, any, contains, ◌==◌, ◌||◌,
  if◌then◌else◌,
}
use Prim.Native.String.{◌++◌}
use descarteslabs_python.Python.Result.{Result, ok, err, pure, raise, lift, bind, ◌>>=◌}
use descarteslabs_python.Graft.Value.{
  Value, str, seq, dict, nil, cons, Fields, end, field, about, Error, type_error, value_error,
  key_error, runtime_error,
}
use descarteslabs_python.Graft.Fields.{get, put, update, value_or}
use descarteslabs_python.Graft.Syntax.{reserved_words, is_guid_key, is_literal, is_quoted_json}
use descarteslabs_python.Graft.Client.{
  Client, guid, graft_of, graft_is_function_graft, returned_key, kwarg_names,
}

-- `len(parameters) > 0`
unfoldable pub is_nonempty : Value → Result Error Bool
is_nonempty (seq nil) = ok false
is_nonempty (seq (cons x xs)) = ok true
is_nonempty (dict end) = ok false
is_nonempty (dict (field k v d)) = ok true
is_nonempty (str s) = ok (not (s == ""))
is_nonempty _ = err (type_error (about "len"))

-- `d[key]`: a list or a mapping is no key of a `dict`
unfoldable pub lookup_key : Value → Fields → Result Error Value
lookup_key (str k) d = elim (get k d) [ some v ↦ ok v | none ↦ err (key_error (about k)) ]
lookup_key (seq xs) d = err (type_error (about "unhashable"))
lookup_key (dict e) d = err (type_error (about "unhashable"))
lookup_key v d = err (key_error (about "returns"))

-- `subgraft[subgraft["returns"]]`
unfoldable pub returned_value : Fields → Result Error Value
unfolding returned_key lookup_key
returned_value d = lookup_key (returned_key d) d

-- The graft of a value under its new name; anything but a constant becomes a call of a sub-graft.
abbrev pub sub_key : String → String
sub_key name = "_" ++ name

-- A constant is merged itself, and anything else as a call of the sub-graft, with no arguments.
unfoldable pub merge_returned : Fields → String → Fields → Value → Fields
merge_returned merged name subgraft returned =
    if is_literal returned || is_quoted_json returned
    then put name returned merged
    else put name (seq (cons (str (sub_key name)) (cons (dict end) nil)))
        (put (sub_key name) (dict subgraft) merged)

unfoldable pub merge_graft : Fields → String → Fields → Result Error Fields
unfolding is_nonempty returned_value merge_returned
merge_graft merged name subgraft =
    bind (is_nonempty (value_or (get "parameters" subgraft) (seq nil))) λ takes.
      if takes
      then err (value_error (about name))
      else bind (returned_value subgraft)
          λ returned. ok (merge_returned merged name subgraft returned)

unfoldable pub merge_one : Fields → String → Value → Client Fields
unfolding graft_of merge_graft
merge_one merged name value =
    if contains reserved_words name
    then raise (value_error (about name))
    else if is_literal value
    then pure (put name value merged)
    else (graft_of value >>= λ subgraft. lift (merge_graft merged name subgraft))

unfoldable pub merge_onto : Fields → List (String × Value) → Client Fields
unfolding merge_one
merge_onto merged [] = pure merged
merge_onto merged ((name, value) ∷ rest) = do
  more ← merge_one merged name value
  merge_onto more rest

unfoldable pub merge_value_grafts : List (String × Value) → Client Fields
unfolding merge_onto
merge_value_grafts = merge_onto end

-- `{subgraft_key: graft, "returns": subgraft_key}`, with a new key
unfoldable pub wrapped : Fields → Client Fields
unfolding guid
wrapped graft = do
  subgraft_key ← guid
  pure (field subgraft_key (dict graft) (field "returns" (str subgraft_key) end))

-- `{subgraft_key: graft, result_key: [subgraft_key], "returns": result_key}`, with new keys
unfoldable pub called : Fields → Client Fields
unfolding guid
called graft = do
  subgraft_key ← guid
  result_key ← guid
  pure (
      field subgraft_key (dict graft) (
        field result_key (seq (cons (str subgraft_key) nil))
          (field "returns" (str result_key) end)))

unfoldable pub isolate_graft : Fields → Bool → Client Fields
unfolding graft_is_function_graft wrapped called
isolate_graft graft wrap_function =
    if graft_is_function_graft graft
    then (if not wrap_function then pure graft else wrapped graft)
    else called graft

unfoldable pub isolate_keys : Value → Bool → Client Fields
unfolding graft_of isolate_graft
isolate_keys v wrap_function = do graft ← graft_of v; isolate_graft graft wrap_function

-- Isolated once more if a name of a parameter could collide with a generated key.
unfoldable pub isolate_params : List String → Fields → Client Fields
unfolding isolate_keys
isolate_params names subgraft =
    if any (λ p. is_guid_key (str p)) names
    then isolate_keys (dict subgraft) false
    else pure subgraft

unfoldable pub parametrize : Value → List (String × Value) → Client Fields
unfolding isolate_keys merge_value_grafts isolate_params
parametrize graft params =
    if any (contains reserved_words) (kwarg_names params)
    then raise (value_error (about "params"))
    else (do
      isolated ← isolate_keys graft true
      merged ← merge_value_grafts params
      isolate_params (kwarg_names params) (update isolated merged))

-- The body of the `with` block; `finally` restores the counter whether or not it raises.
unfoldable pub consistent_guid : {A : Type 0} → ℕ → Client A → Client A
consistent_guid start body s =
    if s.in_use then (err (runtime_error (about "consistent_guid")), s) else (
      (body (record { next = start; in_use = true })).0,
      record { next = s.next; in_use = false },
    )
