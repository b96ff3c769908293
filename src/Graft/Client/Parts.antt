-- ===== src/Graft/Client/Parts.antt =====
-- The function that `apply_graft` of graft/client/client.py begins a call with.
use text.Mathlib.TextPositions.{eq_refl}
use descarteslabs_python.Prelude.{
  ℕ, ◌+◌, ◌≤◌, String, ◌≡◌, refl, ap, ◌∙◌, true, some, List, arith, Bool-cases, Option-cases, inl,
  inr,
}
use descarteslabs_python.Python.Number.{str_of_ℕ}
use descarteslabs_python.Python.Result.{pure, lift, ◌>>=◌, ◌>>◌}
use descarteslabs_python.Python.Result.Ensures.{
  Ensures, returns, raises, Ensures-bind, Ensures-lift,
}
use descarteslabs_python.Graft.Value.{
  Value, str, seq, dict, delayed, nil, Fields, end, field, type_error,
}
use descarteslabs_python.Graft.Syntax.{is_graft}
use descarteslabs_python.Graft.Syntax.Arguments.{check_args}
use descarteslabs_python.Graft.Fields.{get, has, put, value_or}
use descarteslabs_python.Graft.Client.{
  Guids, Client, guid, as_graft, delayed_graft, graft_is_function_graft, names_in, function_part,
  function_object, undelayed,
}
use descarteslabs_python.Graft.Client.Fresh.{Below, Below-end, Below-put_new, Below-update}
use descarteslabs_python.Graft.Client.Keys.{IsOld}
use descarteslabs_python.Graft.Client.Refers.{RefersTo, by_value, by_function, RefersTo-Kept, Kept}

pub IsOld-undelayed : (n : ℕ) (v : Value) → IsOld n v → IsOld n (undelayed v)
unfolding undelayed delayed_graft as_graft
IsOld-undelayed n (delayed w) h = elim (Option-cases (as_graft w)) [
  | inl e ↦ rw (e, undelayed) h
  | inr (g, e) ↦
      rw (e, undelayed)
        (record {
          itself = λ d p k m here q. h.delays d (ground arith) k m here q;
          delays = λ d p. cc;
        })
]
IsOld-undelayed n v h = h

Below-single : (n : ℕ) (v : Value) → Below (n + 1) (field (str_of_ℕ n) v end)
unfolding put
Below-single n v = Below-put_new n v end (Below-end n)

single-get : (n : ℕ) (v : Value) → get (str_of_ℕ n) (field (str_of_ℕ n) v end) ≡ some v
unfolding get
single-get n v = rw (eq_refl (str_of_ℕ n))

-- The function of a call: a key, or a graft, which is referred to as an argument is.
pub data CallsFunction (n m : ℕ) (d : Fields) (function key : Value) : Type 0 where
  by_key : (k : String) → function ≡ str k → key ≡ str k → CallsFunction n m d function key
  by_graft :
      (g : Fields) → function ≡ dict g → RefersTo n m d g key → CallsFunction n m d function key

pub CallsFunction-Kept :
    (n m m' : ℕ) (d d' : Fields) (function key : Value)
    → m ≤ m'
    → Kept n m d d'
    → CallsFunction n m d function key
    → CallsFunction n m' d' function key
CallsFunction-Kept n m m' d d' function key le kept (by_key k e r) = by_key k e r
CallsFunction-Kept n m m' d d' function key le kept (by_graft g e r) =
    by_graft g e (RefersTo-Kept n m m' d d' g key le kept r)

-- The graft that a call begins with.
pub record Begins (n : ℕ) (function : Value) (d : Fields) (key : Value) (s : Guids) : Type 0 where
  pub grown : n ≤ s.next
  pub old : Below s.next d
  pub calls : CallsFunction n s.next d function key

function_object-Begins :
    (d : Fields) (n : ℕ) (named : List String) (s : Guids)
    → graft_is_function_graft d ≡ true
    → Ensures
        (λ (r : Fields × Value) s'. Begins s.next (dict d) r.0 r.1 s')
        (function_object d n named s).0
        (function_object d n named s).1
unfolding function_object
function_object-Begins d n named s p =
    let parsed = names_in (value_or (get "parameters" d) (seq nil)) in
    let inserted : Client (Fields × Value) =
      guid >>= λ key. pure (field key (dict d) end, str key) in
    Ensures-bind (lift parsed) (λ names. lift (check_args n named names type_error) >> inserted) s
      (Ensures-lift parsed s)
      λ names s₁ e.
        Ensures-bind (lift (check_args n named names type_error)) (λ _. inserted) s₁
          (Ensures-lift (check_args n named names type_error) s₁)
          λ _ s₂ e₂.
            let same : s₂.next ≡ s.next = ap (λ (x : Guids). x.next) (e₂ ∙ e) in
            returns (record {
              grown = omega arith;
              old = Below-single s₂.next (dict d);
              calls = by_graft d refl (
                  by_function s₂.next p (omega (arith, same)) (omega arith) refl
                    (single-get s₂.next (dict d)));
            })

pub function_part-Begins :
    (v : Value) (n : ℕ) (names : List String) (s : Guids)
    → IsOld s.next v
    → Ensures
        (λ (r : Fields × Value) s'. Begins s.next v r.0 r.1 s')
        (function_part v n names s).0
        (function_part v n names s).1
unfolding function_part as_graft is_graft
function_part-Begins (str k) n names s h =
    returns (record { grown = omega arith; old = Below-end s.next; calls = by_key k refl refl })
function_part-Begins (dict d) n names s h = elim (Bool-cases (has "returns" d)) [
  | inr e ↦ rw (e, function_part) raises
  | inl e ↦ elim (Bool-cases (graft_is_function_graft d)) [
    | inl p ↦ rw (e, p, function_part) (function_object-Begins d n names s p)
    | inr p ↦
        rw (e, p, function_part)
          (returns (record {
            grown = omega arith;
            old = Below-update s.next end d (Below-end s.next) (h.itself d (rw e));
            calls = by_graft d refl (by_value p refl);
          }))
  ]
]
function_part-Begins _ n names s h = raises
