-- ===== src/Graft/Interpreter/Scopes.antt =====
-- What a run works on: objects, the heap of scopes, and the levels of a chain (scopedchainmap.py).
use descarteslabs_python.Prelude.{
  ℕ, ◌+◌, String, Bool, true, false, none, some, List, [], ◌∷◌, length, get_elem?, set, ltb, eqb,
  if◌then◌else◌,
}
use descarteslabs_python.Python.Result.{Result, ok, err}
use descarteslabs_python.Python.Dict.{Dict, lookup, insert}
use descarteslabs_python.Graft.Value.{Value, null, Fields, Error, index_error}
use descarteslabs_python.Graft.Fields.{get}

-- A `ScopedChainMap` of pre-evaluated keys, by the addresses of its maps, the closest first.
abbrev pub Chain : Type 0
Chain = List ℕ

pub record Closure : Type 0 where
  pub parameters : List String
  pub returns : String
  pub body : List Fields
  pub env : Chain

-- A Python object: a constant, a builtin by its name, or the function that `as_function` returns.
pub data Object : Type 0 where
  json : Value → Object
  builtin : String → Object
  closure : Closure → Object

-- What a builtin does when it is called. It may call objects, and sees their exceptions.
pub data Run : Type 0 where
  done : Object → Run
  fail : Error → Run
  call : Object → List Object → Dict Object → (Result Error Object → Run) → Run

abbrev pub Heap : Type 0
Heap = List (Dict Object)

unfoldable pub scope_at : Heap → ℕ → Dict Object
scope_at h a = elim (get_elem? h a) [ none ↦ [] | some d ↦ d ]

-- `getlevel(k, default_level=out)` of the two kinds of chain, counting levels from `i`
unfoldable pub getlevel_env : Heap → String → ℕ → ℕ → Chain → Object × ℕ
unfolding scope_at
getlevel_env h k out i [] = (json null, out)
getlevel_env h k out i (a ∷ chain) =
    let further = getlevel_env h k out (i + 1) chain in
    elim (lookup k (scope_at h a)) [ some v ↦ (v, i) | none ↦ further ]

unfoldable pub getlevel_body : String → ℕ → ℕ → List Fields → Value × ℕ
getlevel_body k out i [] = (null, out)
getlevel_body k out i (d ∷ body) =
    let further = getlevel_body k out (i + 1) body in
    elim (get k d) [ some v ↦ (v, i) | none ↦ further ]

-- What `get` has to do for a key.
pub data Resolution : Type 0 where
  unbound : Resolution
  precomputed : Object → Resolution
  pending : Value → ℕ → Resolution

unfoldable pub compare_levels : ℕ → Object × ℕ → Value × ℕ → Resolution
compare_levels out (v, env_level) (expr, body_level) =
    if ltb body_level env_level
    then pending expr body_level
    else if eqb env_level out
    then unbound
    else precomputed v

unfoldable pub resolve : Heap → String → List Fields → Chain → Resolution
unfolding getlevel_env getlevel_body compare_levels
resolve h k body env =
    let out = length env in
    compare_levels out (getlevel_env h k out 0 env) (getlevel_body k out 0 body)

-- `self.maps[level][k] = v`
unfoldable pub setlevel : Chain → ℕ → String → Object → Heap → Result Error (Unit {0}) × Heap
unfolding scope_at
setlevel env level k v h = elim (get_elem? env level) [
  | none ↦ (err index_error, h)
  | some a ↦ (ok tt, set h a (insert k v (scope_at h a)))
]

-- `k in mapping`
has_key : Heap → String → ℕ → Bool
unfolding scope_at lookup
has_key h k a = elim (lookup k (scope_at h a)) [ none ↦ false | some v ↦ true ]

-- the closest scope that has the key, or else `first`
unfoldable pub holder : Heap → String → ℕ → Chain → ℕ
unfolding has_key
holder h k first [] = first
holder h k first (a ∷ chain) =
    let further = holder h k first chain in if has_key h k a then a else further

-- `set(k, v, non_local)`; a `ChainMap` has a map at least.
unfoldable pub set_key : Chain → String → Object → Bool → Heap → Result Error (Unit {0}) × Heap
unfolding scope_at holder
set_key [] k v non_local h = (err index_error, h)
set_key (first ∷ chain) k v non_local h =
    let a = if non_local then holder h k first (first ∷ chain) else first in
    (ok tt, set h a (insert k v (scope_at h a)))

-- `named_args.update(zip(parameters, args))`
unfoldable pub bind_args : List String → List Object → Dict Object → Dict Object
bind_args (p ∷ ps) (a ∷ args) named = bind_args ps args (insert p a named)
bind_args _ _ named = named
