-- ===== src/Graft/Interpreter/Stored.antt =====
-- `get` of graft/interpreter/interpreter.py after it has stored a key.
use text.Mathlib.TextPositions.{eq_refl}
use descarteslabs_python.Prelude.{
  ℕ, zero, suc, ◌+◌, ◌≤◌, ◌<◌, String, ◌≡◌, refl, sym, ap, ◌∙◌, true, false, none, some, List, [],
  ◌∷◌, length, get_elem?, set, get_elem?-set_self, get_elem?-set_other, some-injective,
  all-get_elem?, contains, arith, ltb, eqb, eqb_iff, Bool-cases, Option-cases, inl, inr, all,
  ltb→lt,
}
use descarteslabs_python.Python.Result.{ok}
use descarteslabs_python.Python.Dict.{Dict, lookup, insert, lookup-insert}
use descarteslabs_python.Graft.Value.{Value, Fields}
use descarteslabs_python.Graft.Syntax.{reserved_words}
use descarteslabs_python.Graft.Interpreter.{get_key}
use descarteslabs_python.Graft.Interpreter.Scopes.{
  Object, Run, Heap, Chain, scope_at, getlevel_env, getlevel_body, pending, precomputed,
  compare_levels, resolve, setlevel,
}
use descarteslabs_python.Graft.Interpreter.Levels.{getlevel_env-none, getlevel_env-some}

scope_at-set_self : (h : Heap) (a : ℕ) (d : Dict Object) → a < length h → scope_at (set h a d) a ≡ d
unfolding scope_at
scope_at-set_self h a d lt = rw (scope_at, get_elem?-set_self h a d lt) refl

scope_at-set_other :
    (h : Heap) (a b : ℕ) (d : Dict Object) → eqb a b ≡ false → scope_at (set h a d) b ≡ scope_at h b
unfolding scope_at
scope_at-set_other h a b d ne = rw (scope_at, get_elem?-set_other h a b d ne) refl

module _ (h : Heap) (k : String) (v : Object) (a : ℕ) (valid : a < length h) where
  abbrev after : Heap
  after = set h a (insert k v (scope_at h a))

  here : lookup k (scope_at after a) ≡ some v
  here = rw (scope_at-set_self h a (insert k v (scope_at h a)) valid, lookup-insert, eq_refl k) refl

  -- The key is found at its level or closer.
  getlevel_env-after :
      (out i level : ℕ) (env : Chain)
      → get_elem? env level ≡ some a
      → i + level < (getlevel_env h k out i env).1
      → (j : ℕ) × (getlevel_env after k out i env ≡ (v, j)) × (j ≤ i + level)
  getlevel_env-after out i level [] e lt = ground (arith, e)
  getlevel_env-after out i zero (b ∷ env) e lt = (
    i,
    getlevel_env-some after k out i b env v
        (ap (λ x. lookup k (scope_at after x)) (some-injective e) ∙ here),
    omega arith,
  )
  getlevel_env-after out i (suc level) (b ∷ env) e lt = elim (Bool-cases (eqb a b)) [
    | inl same ↦ (
      i,
      getlevel_env-some after k out i b env v
          (ap (λ x. lookup k (scope_at after x)) (sym ((eqb_iff a b).0 same)) ∙ here),
      omega arith,
    )
    | inr other ↦ elim (Option-cases (lookup k (scope_at h b))) [
      | inr (w, f) ↦ absurd (
          let at : (getlevel_env h k out i (b ∷ env)).1 ≡ i =
            ap (λ x. x.1) (getlevel_env-some h k out i b env w f) in
          omega (arith, at, lt))
      | inl f ↦
          let further : (getlevel_env h k out i (b ∷ env)).1
              ≡ (getlevel_env h k out (i + 1) env).1 =
            ap (λ x. x.1) (getlevel_env-none h k out i b env f) in
          let (j, found, le) =
            getlevel_env-after out (i + 1) level env e (omega (arith, further, lt)) in
          let gone : lookup k (scope_at after b) ≡ none =
            ap (lookup k) (scope_at-set_other h a b (insert k v (scope_at h a)) other) ∙ f in
          (j, getlevel_env-none after k out i b env gone ∙ found, omega (arith, le))
    ]
  ]

compare_levels-pending :
    (out : ℕ) (x : Object × ℕ) (y : Value × ℕ) (e : Value) (l : ℕ)
    → compare_levels out x y ≡ pending e l
    → (y.1 ≡ l) × (l < x.1)
unfolding compare_levels
compare_levels-pending out x y e l p = elim (Bool-cases (ltb y.1 x.1)) [
  | inl q ↦
      let same : y.1 ≡ l = ground (arith, p, q) in (same, omega (arith, same, ltb→lt y.1 x.1 q))
  | inr q ↦ elim (Bool-cases (eqb x.1 out)) [
    | inl r ↦ absurd (ground (arith, p, q, r))
    | inr r ↦ absurd (ground (arith, p, q, r))
  ]
]

compare_levels-precomputed :
    (out : ℕ) (v : Object) (j : ℕ) (y : Value × ℕ)
    → j ≤ y.1
    → j < out
    → compare_levels out (v, j) y ≡ precomputed v
unfolding compare_levels
compare_levels-precomputed out v j y le lt =
    let later : ltb y.1 j ≡ false = ground (arith, le) in
    let inside : eqb j out ≡ false = ground (arith, lt) in rw (compare_levels, later, inside) refl

get_elem?-lt : {A : Type 0} (l : List A) (i : ℕ) (x : A) → get_elem? l i ≡ some x → i < length l
get_elem?-lt [] i x e = ground (arith, e)
get_elem?-lt (y ∷ l) zero x e = omega arith
get_elem?-lt (y ∷ l) (suc i) x e = omega (arith, get_elem?-lt l i x e)

get_elem?-some :
    {A : Type 0} (l : List A) (i : ℕ) → i < length l → (x : A) × (get_elem? l i ≡ some x)
get_elem?-some [] i lt = absurd (omega (arith, lt))
get_elem?-some (y ∷ l) zero lt = (y, refl)
get_elem?-some (y ∷ l) (suc i) lt = get_elem?-some l i (omega (arith, lt))

getlevel_env-le_out :
    (h : Heap) (k : String) (out i : ℕ) (env : Chain)
    → i + length env ≤ out
    → (getlevel_env h k out i env).1 ≤ out
unfolding getlevel_env
getlevel_env-le_out h k out i [] room = omega arith
getlevel_env-le_out h k out i (a ∷ env) room = elim (Option-cases (lookup k (scope_at h a))) [
  | inl e ↦
      rw (getlevel_env-none h k out i a env e)
        (getlevel_env-le_out h k out (i + 1) env (omega (arith, room)))
  | inr (v, e) ↦ rw (getlevel_env-some h k out i a env v e) (omega (arith, room))
]

setlevel-some :
    (env : Chain) (level : ℕ) (k : String) (v : Object) (h : Heap) (a : ℕ)
    → get_elem? env level ≡ some a
    → setlevel env level k v h ≡ (ok tt, set h a (insert k v (scope_at h a)))
unfolding setlevel
setlevel-some env level k v h a e = rw (setlevel, e) refl

-- A key that is to be evaluated, in an environment whose scopes are all there: storing its value at
-- the level where the body defines it succeeds, and from then on `get` returns the value at once,
-- whatever the builtins do and with no evaluation, and changes nothing.
pub get_key-setlevel :
    (behave : String → List Object → Dict Object → Run) (key : String) (body : List Fields)
    (env : Chain) (h : Heap) (expr : Value) (level : ℕ) (v : Object)
    → contains reserved_words key ≡ false
    → resolve h key body env ≡ pending expr level
    → all (λ a. ltb a (length h)) env ≡ true
    → (h' : Heap) × (setlevel env level key v h ≡ (ok tt, h'))
      × ((f : ℕ) → get_key behave (suc f) key body env h' ≡ (ok v, h'))
unfolding resolve get_key
get_key-setlevel behave key body env h expr level v name p valid =
    let out : ℕ = length env in
    let (at, lt) =
      compare_levels-pending out (getlevel_env h key out 0 env) (getlevel_body key out 0 body) expr
        level p in
    let le = getlevel_env-le_out h key out 0 env (omega arith) in
    let (a, e) = get_elem?-some env level (omega (arith, lt, le)) in
    let in_heap : a < length h =
      ltb→lt a (length h) (all-get_elem? (λ b. ltb b (length h)) env level a valid e) in
    let (j, found, close) =
      getlevel_env-after h key v a in_heap out 0 level env e (omega (arith, lt)) in
    let h' : Heap = set h a (insert key v (scope_at h a)) in
    let there : resolve h' key body env ≡ precomputed v =
      ap (λ x. compare_levels out x (getlevel_body key out 0 body)) found
      ∙ compare_levels-precomputed out v j (getlevel_body key out 0 body) (omega (arith, close, at))
          (omega (arith, close, lt, le)) in
    (h', setlevel-some env level key v h a e, λ f. rw (get_key, name, there) refl)
