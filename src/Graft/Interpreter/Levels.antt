-- ===== src/Graft/Interpreter/Levels.antt =====
-- What the chains of scopes of graft/interpreter/scopedchainmap.py find, and at which level.
use descarteslabs_python.Prelude.{
  ℕ, ◌+◌, ◌≤◌, String, ◌≡◌, refl, none, some, List, [], ◌∷◌, ◌++◌, length, get_elem?, arith,
  Option-cases, inl, inr, lt→ltb,
}
use descarteslabs_python.Python.Dict.{lookup}
use descarteslabs_python.Graft.Value.{Value, Fields}
use descarteslabs_python.Graft.Fields.{get}
use descarteslabs_python.Graft.Interpreter.Scopes.{
  Object, Heap, Chain, scope_at, getlevel_env, getlevel_body, pending, compare_levels, resolve,
}

pub getlevel_env-none :
    (h : Heap) (k : String) (out i a : ℕ) (env : Chain)
    → lookup k (scope_at h a) ≡ none
    → getlevel_env h k out i (a ∷ env) ≡ getlevel_env h k out (i + 1) env
unfolding getlevel_env
getlevel_env-none h k out i a env e = rw (e, getlevel_env) refl

pub getlevel_env-some :
    (h : Heap) (k : String) (out i a : ℕ) (env : Chain) (v : Object)
    → lookup k (scope_at h a) ≡ some v
    → getlevel_env h k out i (a ∷ env) ≡ (v, i)
unfolding getlevel_env
getlevel_env-some h k out i a env v e = rw (e, getlevel_env) refl

pub getlevel_body-some :
    (k : String) (out i : ℕ) (d : Fields) (body : List Fields) (e : Value)
    → get k d ≡ some e
    → getlevel_body k out i (d ∷ body) ≡ (e, i)
unfolding getlevel_body
getlevel_body-some k out i d body e p = rw (p, getlevel_body) refl

pub getlevel_env-le :
    (h : Heap) (k : String) (out i : ℕ) (env : Chain)
    → i + length env ≤ out
    → i ≤ (getlevel_env h k out i env).1
unfolding getlevel_env
getlevel_env-le h k out i [] room = omega (arith, room)
getlevel_env-le h k out i (a ∷ env) room = elim (Option-cases (lookup k (scope_at h a))) [
  | inl e ↦
      rw (getlevel_env-none h k out i a env e)
        (let further = getlevel_env-le h k out (i + 1) env (omega arith) in omega arith)
  | inr (v, e) ↦ rw (getlevel_env-some h k out i a env v e) (omega arith)
]

-- A key that the closest scope defines, and has not evaluated, is evaluated there.
pub resolve-first :
    (h : Heap) (k : String) (e : Value) (d : Fields) (body : List Fields) (a : ℕ) (env : Chain)
    → get k d ≡ some e
    → lookup k (scope_at h a) ≡ none
    → resolve h k (d ∷ body) (a ∷ env) ≡ pending e 0
unfolding resolve compare_levels
resolve-first h k e d body a env here new =
    rw
      (
        resolve,
        getlevel_env-none h k (length (a ∷ env)) 0 a env new,
        getlevel_body-some k (length (a ∷ env)) 0 d body e here,
        lt→ltb 0 (getlevel_env h k (length (a ∷ env)) 1 env).1
            (getlevel_env-le h k (length (a ∷ env)) 1 env (omega arith)),
      )
      refl

pub get_elem?-last : {A : Type 0} (l : List A) (x : A) → get_elem? (l ++ x ∷ []) (length l) ≡ some x
get_elem?-last [] x = refl
get_elem?-last (y ∷ l) x = get_elem?-last l x

pub new_scope : (k : String) (h : Heap) → lookup k (scope_at (h ++ [] ∷ []) (length h)) ≡ none
unfolding scope_at lookup
new_scope k h = rw (scope_at, get_elem?-last h []) refl
