-- ===== src/Graft/Interpreter.antt =====
-- graft/interpreter: `interpreter.py` over the chains of scopes of `scopedchainmap.py`. The scopes of
-- pre-evaluated keys are shared and written to, so they stand in a heap, by their addresses.
pub mod Classify
pub mod Scopes
pub mod Levels
pub mod Stored
pub mod Quoted
use descarteslabs_python.Prelude.{
  ℕ, zero, suc, String, Bool, true, false, Option, none, some, List, [], ◌∷◌, ◌++◌, map, length,
  contains, not, if◌then◌else◌,
}
use descarteslabs_python.Python.Result.{
  Result, ok, err, Action, pure, raise, lift, bind, ◌>>=◌, ◌>>◌, map_action,
}
use descarteslabs_python.Python.Dict.{Dict, insert}
use descarteslabs_python.Graft.Value.{
  Value, str, seq, nil, Fields, end, about, Error, type_error, graft_syntax_error, graft_type_error,
  graft_name_error,
}
use descarteslabs_python.Graft.Fields.{get, value_or}
use descarteslabs_python.Graft.Syntax.{reserved_words, is_key, is_params, texts}
use descarteslabs_python.Graft.Syntax.Arguments.{check_args}
use Classify.{Expr, application, literal, function, quoted, classify}
use Scopes.{
  Object, json, builtin, closure, Closure, Run, done, fail, call, Heap, Chain, Resolution, unbound,
  precomputed, pending, resolve, setlevel, bind_args,
}

-- How a run stops without a value. The fuel bounds the depth of calls, as Python's stack does.
pub data Stop : Type 0 where
  raised : Error → Stop
  out_of_fuel : Stop

abbrev pub Interp : Type 0 → Type 0
Interp A = Action Heap Stop A

abbrev pub or_raise {ℓ} : {A : Type ℓ} → Result Error A → Result Stop A
or_raise (ok a) = ok a
or_raise (err e) = err (raised e)

-- The text of a key that `is_key` has accepted.
abbrev name_of : Value → String
name_of (str k) = k
name_of v = ""

abbrev names_of : Value → List String
names_of (seq xs) = texts xs
names_of v = []

unfoldable pub closure_of :
    Option Value → Value → Fields → List Fields → Chain → Result Error Object
unfolding texts
closure_of none parameters expr body env = err (graft_syntax_error (about "missing"))
closure_of (some returns) parameters expr body env =
    if not (is_key returns)
    then err (graft_syntax_error (about "returns"))
    else if not (is_params parameters)
    then err (graft_syntax_error (about "parameters"))
    else ok (
        closure (record {
          parameters = names_of parameters;
          returns = name_of returns;
          body = expr ∷ body;
          env = env;
        }))

-- A graft function becomes a closure over the scopes in which it stands.
unfoldable pub as_function : Fields → List Fields → Chain → Result Error Object
unfolding closure_of
as_function expr body env =
    closure_of (get "returns" expr) (value_or (get "parameters" expr) (seq nil)) expr body env

-- `env.new_child(scope)`: the address of a new scope
unfoldable pub new_child : Dict Object → Interp ℕ
new_child scope h = (ok (length h), h ++ scope ∷ [])

abbrev pub names : Dict Object → List String
names d = map (λ kv. kv.0) d

-- What a closure binds when it is called.
unfoldable pub closure_args : Closure → List Object → Dict Object → Result Error (Dict Object)
unfolding bind_args
closure_args c args named =
    bind (check_args (length args) (names named) c.parameters graft_type_error)
      λ _. ok (bind_args c.parameters args named)

abbrev pub named_key : (String → Interp Object) → String × String → Interp (String × Object)
named_key at (name, k) = do v ← at k; pure (name, v)

abbrev continue_with : Object → Result Stop (Unit {0}) → Interp Object
continue_with v (ok _) = pure v
continue_with v (err e) = raise e

-- `env.setlevel(key, result, body_level); return result`
abbrev pub stored : Chain → ℕ → String → Object → Interp Object
stored env level key v h =
    let (r, h') = setlevel env level key v h in continue_with v (or_raise r) h'

-- A builtin goes on with what the object that it called returned or raised.
abbrev pub resumed :
    (Result Error Object → Interp Object) → Result Stop Object × Heap → Result Stop Object × Heap
resumed k (ok v, h) = k (ok v) h
resumed k (err (raised e), h) = k (err e) h
resumed k (err out_of_fuel, h) = (err out_of_fuel, h)

-- What `get` does: raise, return the pre-evaluated object, or `evaluate` and store.
abbrev pub on_resolution : String → (Value → ℕ → Interp Object) → Resolution → Interp Object
on_resolution key compute unbound = raise (raised (graft_name_error key))
on_resolution key compute (precomputed v) = pure v
on_resolution key compute (pending expr level) = compute expr level

-- The branches of `evaluate`, of which only a call goes on.
abbrev pub on_expr :
    List Fields
    → Chain
    → (String → List String → List (String × String) → Interp Object)
    → Result Error Expr
    → Interp Object
on_expr body env called (err e) = raise (raised e)
on_expr body env called (ok (literal v)) = pure (json v)
on_expr body env called (ok (quoted v)) = pure (json v)
on_expr body env called (ok (function d)) = lift (or_raise (as_function d body env))
on_expr body env called (ok (application func positional named)) = called func positional named

-- `interpret(graft, builtins)` makes a function out of a graft and a fresh environment.
unfoldable pub interpret : Fields → Dict Object → Interp Object
interpret graft builtins = do
  a ← new_child builtins
  lift (or_raise (as_function graft (end ∷ []) (a ∷ [])))

module _ (behave : String → List Object → Dict Object → Run) where
  -- One function for each of `get`, `evaluate`, a call of an object, and what a builtin does.
  unfoldable mutual
    pub get_key : ℕ → String → List Fields → Chain → Interp Object
    get_key zero key body env h = (err out_of_fuel, h)
    get_key (suc f) key body env h =
        if contains reserved_words key
        then (err (raised (graft_syntax_error (about key))), h)
        else on_resolution key (λ expr level. evaluate f expr body env >>= stored env level key)
            (resolve h key body env) h

    pub evaluate : ℕ → Value → List Fields → Chain → Interp Object
    evaluate zero expr body env = raise out_of_fuel
    evaluate (suc f) expr body env =
        on_expr body env
          (λ func positional named. do
            callee ← get_key f func body env
            args ← map_action (λ k. get_key f k body env) positional
            named_args ← map_action (named_key (λ k. get_key f k body env)) named
            apply f callee args named_args)
          (classify expr)

    pub apply : ℕ → Object → List Object → Dict Object → Interp Object
    apply zero callee args named = raise out_of_fuel
    apply (suc f) (json v) args named = raise (raised (type_error (about "not callable")))
    apply (suc f) (builtin name) args named = perform f (behave name args named)
    apply (suc f) (closure c) args named = do
      scope ← lift (or_raise (closure_args c args named))
      a ← new_child scope
      get_key f c.returns c.body (a ∷ c.env)

    pub perform : ℕ → Run → Interp Object
    perform zero r h = (err out_of_fuel, h)
    perform (suc f) (done v) h = (ok v, h)
    perform (suc f) (fail e) h = (err (raised e), h)
    perform (suc f) (call o args named k) h =
        resumed (λ r. perform f (k r)) (apply f o args named h)

  -- `interpret(graft, builtins)(*args, **named)`
  unfoldable pub interpret_and_call :
      ℕ → Fields → Dict Object → List Object → Dict Object → Interp Object
  unfolding interpret
  interpret_and_call f graft builtins args named = do
    func ← interpret graft builtins
    apply f func args named
