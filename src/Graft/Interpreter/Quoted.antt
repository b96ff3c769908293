-- ===== src/Graft/Interpreter/Quoted.antt =====
-- What graft/interpreter makes of the grafts of plain values.
use text.Mathlib.TextPositions.{eq_refl}
use descarteslabs_python.Prelude.{
  ne_sym, ℕ, suc, ◌+◌, ◌≤◌, String, ◌≡◌, refl, Bool, true, false, none, some, List, [], ◌∷◌, ◌++◌,
  length, set, contains, arith, ◌==◌,
}
use descarteslabs_python.Python.Number.{str_of_ℕ}
use descarteslabs_python.Python.Result.{ok}
use descarteslabs_python.Python.Dict.{Dict, lookup, insert}
use descarteslabs_python.Graft.Value.{
  Value, null, bool, number, str, seq, dict, delayed, object, nil, cons, Fields, end,
}
use descarteslabs_python.Graft.Fields.{get}
use descarteslabs_python.Graft.Syntax.{
  reserved_words, is_key, is_params, is_application, is_literal, is_quoted_json, is_graft,
}
use descarteslabs_python.Graft.Syntax.Arguments.{check_args}
use descarteslabs_python.Graft.Client.{
  Guids, guid, binding, literal_graft, value_graft, given_or_new_key, delayed_graft,
}
use descarteslabs_python.Graft.Client.Fresh.{returns-ne-str_of_ℕ, parameters-ne-str_of_ℕ}
use descarteslabs_python.Graft.Interpreter.{
  interpret, new_child, interpret_and_call, evaluate, get_key, apply, as_function, closure_args,
  closure_of,
}
use descarteslabs_python.Graft.Interpreter.Classify.{classify}
use descarteslabs_python.Graft.Interpreter.Scopes.{
  Object, json, closure, Run, Heap, Chain, scope_at, setlevel, bind_args,
}
use descarteslabs_python.Graft.Interpreter.Levels.{resolve-first, new_scope}

-- The values of JSON, and the expression that `value_graft` makes of one.
abbrev pub is_json : Value → Bool
is_json (delayed v) = false
is_json (object v) = false
is_json _ = true

abbrev expr_of : Value → Value
expr_of (seq xs) = seq (cons (seq xs) nil)
expr_of (dict d) = seq (cons (dict d) nil)
expr_of v = v

value_graft-binding :
    (v : Value) (s : Guids)
    → is_json v ≡ true
    → value_graft v none s
      ≡ (ok (binding (str_of_ℕ s.next) (expr_of v)), record s { next = s.next + 1 })
unfolding value_graft delayed_graft given_or_new_key guid literal_graft is_literal
value_graft-binding null s p = refl
value_graft-binding (bool b) s p = refl
value_graft-binding (number n) s p = refl
value_graft-binding (str t) s p = refl
value_graft-binding (seq xs) s p = refl
value_graft-binding (dict d) s p = refl
value_graft-binding (delayed v) s p = ground (arith, p)
value_graft-binding (object v) s p = ground (arith, p)

module _ (behave : String → List Object → Dict Object → Run) where
  evaluate-expr_of :
      (f : ℕ) (v : Value) (body : List Fields) (env : Chain) (h : Heap)
      → is_json v ≡ true
      → evaluate behave (suc f) (expr_of v) body env h ≡ (ok (json v), h)
  unfolding evaluate classify is_application is_literal is_quoted_json is_graft
  evaluate-expr_of f null body env h p = refl
  evaluate-expr_of f (bool b) body env h p = refl
  evaluate-expr_of f (number n) body env h p = refl
  evaluate-expr_of f (str t) body env h p = refl
  evaluate-expr_of f (seq xs) body env h p = refl
  evaluate-expr_of f (dict d) body env h p = refl
  evaluate-expr_of f (delayed v) body env h p = ground (arith, p)
  evaluate-expr_of f (object v) body env h p = ground (arith, p)

  -- A key of the closest scope that is there for a value, and not evaluated yet.
  get_key-expr_of :
      (f : ℕ) (k : String) (v : Value) (d : Fields) (body : List Fields) (a : ℕ) (env : Chain)
      (h : Heap)
      → contains reserved_words k ≡ false
      → is_json v ≡ true
      → get k d ≡ some (expr_of v)
      → lookup k (scope_at h a) ≡ none
      → (h' : Heap) × (get_key behave (suc (suc f)) k (d ∷ body) (a ∷ env) h ≡ (ok (json v), h'))
  unfolding get_key setlevel
  get_key-expr_of f k v d body a env h name p here new = (
    set h a (insert k (json v) (scope_at h a)),
    rw
        (
          get_key,
          name,
          resolve-first h k (expr_of v) d body a env here new,
          evaluate-expr_of f v (d ∷ body) (a ∷ env) h p,
        )
        refl,
  )

module _ (k : String) (r : ("returns" == k) ≡ false) (p : ("parameters" == k) ≡ false) where
  is_key-name : is_key (str k) ≡ true
  unfolding is_key
  is_key-name = rw (is_key, p, r) refl

  get-returns : (e : Value) → get "returns" (binding k e) ≡ some (str k)
  unfolding get
  get-returns e = rw (get, ne_sym "returns" k r) refl

  get-parameters : (e : Value) → get "parameters" (binding k e) ≡ none
  unfolding get
  get-parameters e = rw (get, ne_sym "parameters" k p) refl

  get-name : (e : Value) → get k (binding k e) ≡ some e
  unfolding get
  get-name e = rw (get, eq_refl k) refl

  as_function-binding :
      (e : Value) (body : List Fields) (env : Chain)
      → as_function (binding k e) body env
        ≡ ok (
            closure (record { parameters = []; returns = k; body = binding k e ∷ body; env = env }))
  unfolding as_function closure_of is_params
  as_function-binding e body env =
      rw (as_function, get-returns e, get-parameters e, closure_of, is_key-name) refl

module _ (behave : String → List Object → Dict Object → Run) where
  run-binding :
      (f : ℕ) (k : String) (v : Value) (builtins : Dict Object) (h : Heap)
      → ("returns" == k) ≡ false
      → ("parameters" == k) ≡ false
      → is_json v ≡ true
      → (h' : Heap) × (interpret_and_call behave
            (suc (suc (suc f)))
            (binding k (expr_of v))
            builtins
            []
            []
            h
          ≡ (ok (json v), h'))
  unfolding interpret_and_call interpret new_child apply closure_args check_args bind_args
  run-binding f k v builtins h r q p =
      let h₁ : Heap = h ++ builtins ∷ [] in
      let reserved : contains reserved_words k ≡ false = rw (q, r) refl in
      let (h', run) =
        get_key-expr_of behave f k v (binding k (expr_of v)) (end ∷ []) (length h₁) (length h ∷ [])
          (h₁ ++ [] ∷ []) reserved p (get-name k r q (expr_of v)) (new_scope k h₁) in
      (h', rw (as_function-binding k r q (expr_of v) (end ∷ []) (length h ∷ [])) run)

  -- Interpreting the graft that `value_graft` makes of a value of JSON, and calling the function that
  -- this gives, returns the value, whatever the builtins are called: `value_graft` does not raise,
  -- and a depth of three calls is enough.
  pub value_graft-interpret_and_call :
      (v : Value) (builtins : Dict Object) (s : Guids) (h : Heap) (f : ℕ)
      → is_json v ≡ true
      → 3 ≤ f
      → (d : Fields) × (s' : Guids) × (h' : Heap) × (value_graft v none s ≡ (ok d, s'))
        × (interpret_and_call behave f d builtins [] [] h ≡ (ok (json v), h'))
  value_graft-interpret_and_call v builtins s h (suc (suc (suc f))) p le =
      let k : String = str_of_ℕ s.next in
      let (h', run) =
        run-binding f k v builtins h (returns-ne-str_of_ℕ s.next)
          (ne_sym k "parameters" (parameters-ne-str_of_ℕ s.next)) p in
      (binding k (expr_of v), record s { next = s.next + 1 }, h', value_graft-binding v s p, run)
  value_graft-interpret_and_call v builtins s h f p le = absurd (omega arith)
