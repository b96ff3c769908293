-- ===== src/Graft/Client/Functions.antt =====
-- `function_graft` of graft/client/client.py: the graft of a function, with what belongs to an
-- outer scope moved out of it.
use descarteslabs_python.Prelude.{
  String, Bool, true, false, not, Option, none, some, List, [], ◌∷◌, ltb, if◌then◌else◌,
}
use descarteslabs_python.Python.Number.{ℤ, pos, negsuc, int_of_str}
use descarteslabs_python.Python.Result.{Result, ok, err, pure, raise, lift, ◌>>=◌, ◌>>◌}
use descarteslabs_python.Graft.Value.{
  Value, str, seq, dict, Items, nil, cons, Fields, end, field, about, Error, value_error,
}
use descarteslabs_python.Graft.Fields.{put, update}
use descarteslabs_python.Graft.Syntax.{is_params}
use descarteslabs_python.Graft.Client.{
  Client, guid, graft_of, is_keyref_graft, returned_key, graft_is_function_graft,
}

-- `<` on integers
abbrev pub ltb_ℤ : ℤ → ℤ → Bool
ltb_ℤ (pos a) (pos b) = ltb a b
ltb_ℤ (pos a) (negsuc b) = false
ltb_ℤ (negsuc a) (pos b) = true
ltb_ℤ (negsuc a) (negsuc b) = ltb b a

unfoldable pub is_outer_scope : String → ℤ → Bool
is_outer_scope key first_guid = elim (int_of_str key) [ some n ↦ ltb_ℤ n first_guid | none ↦ false ]

-- The fields that are popped into `containing_scope`, and those that are left.
unfoldable pub outer_fields : ℤ → Fields → Fields
outer_fields g end = end
outer_fields g (field k v d) =
    let rest = outer_fields g d in if is_outer_scope k g then field k v rest else rest

unfoldable pub inner_fields : ℤ → Fields → Fields
inner_fields g end = end
inner_fields g (field k v d) =
    let rest = inner_fields g d in if is_outer_scope k g then rest else field k v rest

-- `param["returns"] if is_keyref_graft(param) else param`
unfoldable pub param_name : Value → Value
unfolding is_keyref_graft returned_key
param_name (dict d) = if is_keyref_graft (dict d) then returned_key d else dict d
param_name v = v

unfoldable pub param_list : List Value → Items
unfolding param_name
param_list [] = nil
param_list (p ∷ ps) = cons (param_name p) (param_list ps)

-- `int(first_guid)`, and no scope to split off without one
unfoldable pub split_scope : Option String → Fields → Result Error (Fields × Fields)
unfolding outer_fields inner_fields
split_scope none d = ok (end, d)
split_scope (some first_guid) d = elim (int_of_str first_guid) [
  | none ↦ err (value_error (about "first_guid"))
  | some g ↦ ok (outer_fields g d, inner_fields g d)
]

-- the last part: the function's graft in the scope that contains it
unfoldable pub enclose : Items → Fields × Fields → Client Fields
unfolding graft_is_function_graft guid
enclose params (containing, body) =
    if graft_is_function_graft body
    then (do
      key ← guid
      pure (
          update containing (
            field "parameters" (seq params)
              (field key (dict body) (field "returns" (str key) end)))))
    else elim containing [
      | end ↦ pure (put "parameters" (seq params) body)
      | field k v rest ↦ do
        key ← guid
        pure (
            put "returns" (str key)
              (put key (dict (put "parameters" (seq params) body)) (field k v rest)))
    ]

unfoldable pub parsed_guid : Option String → Result Error (Unit {0})
parsed_guid none = ok tt
parsed_guid (some g) = elim (int_of_str g) [
  | none ↦ err (value_error (about "first_guid"))
  | some _ ↦ ok tt
]

unfoldable pub function_graft : Value → List Value → Option String → Client Fields
unfolding parsed_guid param_list graft_of split_scope enclose
function_graft result parameters first_guid = do
  lift (parsed_guid first_guid)
  let params = param_list parameters
  if not (is_params (seq params)) then raise (value_error (about "parameters")) else do
    result_graft ← graft_of result
    parts ← lift (split_scope first_guid result_graft)
    enclose params parts
