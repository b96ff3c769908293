-- ===== src/Examples/Graft.antt =====
-- Building, checking and running small grafts.
use mathlib.Core.Path.{subst}
use descarteslabs_python.Prelude.{
  ap, ◌∙◌, ◌⊎◌, inl, inr, eq_iff, Bool-cases, ◌&&◌, ◌==◌, none, suc, ℕ, ◌+◌, ◌↔◌, String, ◌≡◌, refl,
  false, some, List, [], ◌∷◌, arith,
}
use descarteslabs_python.Python.Number.{pos, str_of_ℕ, int_of_str}
use descarteslabs_python.Python.Result.{ok, map_action}
use descarteslabs_python.Graft.Value.{
  Value, number, int, str, seq, dict, nil, cons, Fields, end, field, about, type_error,
}
use descarteslabs_python.Graft.Fields.{has, get, put, update}
use descarteslabs_python.Graft.Syntax.{is_params, is_key, is_literal, is_application}
use descarteslabs_python.Graft.Syntax.Arguments.{check_args, Fits, check_args_iff}
use descarteslabs_python.Graft.Client.{
  Guids, as_graft, delayed_graft, binding, value_graft, apply_graft,
}
use descarteslabs_python.Graft.Client.Fresh.{
  Below, Below-mono, Below-binding, Below-put_new, Below-put_returns,
}
use descarteslabs_python.Graft.Client.Keys.{IsOld}
use descarteslabs_python.Graft.Client.Apply.{IsCall, apply_graft-IsCall}
use descarteslabs_python.Graft.Client.Functions.{function_graft, param_list}
use descarteslabs_python.Graft.Client.Partition.{Splits, function_graft-Splits}
use descarteslabs_python.Graft.Client.Scopes.{isolate_keys}
use descarteslabs_python.Graft.Client.Namespace.{isolate_keys_lem}
use descarteslabs_python.Python.Dict.{Dict, lookup, insert}
use descarteslabs_python.Graft.Interpreter.{
  get_key, interpret_and_call, new_child, as_function, apply, closure_args,
}
use descarteslabs_python.Graft.Interpreter.Classify.{classify}
use descarteslabs_python.Graft.Interpreter.Scopes.{
  Object, json, builtin, Run, done, fail, Heap, resolve, setlevel,
}
use descarteslabs_python.Graft.Interpreter.Stored.{get_key-setlevel}
use descarteslabs_python.Graft.Interpreter.Quoted.{value_graft-interpret_and_call}

-- `{"1": 7, "returns": "1"}`, built when `guid` handed out "1"
abbrev seven : Fields
seven = binding (str_of_ℕ 1) (number (int (pos 7)))

abbrev two_used : Guids
two_used = record { next = 2; in_use = false }

str-IsOld : (n : ℕ) (s : String) → IsOld n (str s)
unfolding as_graft delayed_graft
str-IsOld n s = record { itself = λ d e. cc; delays = λ d e. cc }

number-IsOld : (n m : ℕ) → IsOld n (number (int (pos m)))
unfolding as_graft delayed_graft
number-IsOld n m = record { itself = λ d e. cc; delays = λ d e. cc }

seven-IsOld : IsOld 2 (dict seven)
unfolding as_graft delayed_graft has str_of_ℕ
seven-IsOld = record {
  itself = λ d e. subst (Below 2) (some-injective e) (Below-binding 1 (number (int (pos 7))));
  delays = λ d e. cc;
}
  where
    some-injective : {a b : Fields} → some a ≡ some b → a ≡ b
    some-injective e = ground arith

-- `{"parameters": ["x"], "returns": "x"}`
abbrev identity : Fields
identity = field "parameters" (seq (cons (str "x") nil)) (field "returns" (str "x") end)

not_numbers :
    (m : ℕ) (k : String) → ("parameters" ≡ k) ⊎ ("returns" ≡ k) → int_of_str k ≡ some (pos m) → ⊥
unfolding int_of_str
not_numbers m k (inl p) e = cc (ap int_of_str p ∙ e)
not_numbers m k (inr p) e = cc (ap int_of_str p ∙ e)

identity-IsOld : (n : ℕ) → IsOld n (dict identity)
unfolding as_graft delayed_graft has
identity-IsOld n = record {
  itself = λ d e. subst (Below n) (some-injective e) identity-Below;
  delays = λ d e. cc;
}
  where
    some-injective : {a b : Fields} → some a ≡ some b → a ≡ b
    some-injective e = ground arith

    identity-Below : Below n identity
    identity-Below k m here e = elim (Bool-cases ("parameters" == k)) [
      | inl p ↦ absurd (not_numbers m k (inl ((eq_iff "parameters" k).0 p)) e)
      | inr p ↦ absurd (not_numbers m k (inr ((eq_iff "returns" k).0 (ground arith))) e)
    ]

-- `apply_graft("map", seven, 5, f=identity)`
abbrev map_graft : Fields
map_graft = field "1" (number (int (pos 7))) (
    field "returns" (str "4") (
      field "2" (number (int (pos 5))) (
        field "3" (dict identity) (
          field "4"
            (seq (
              cons (str "map")
                (cons (str "1") (cons (str "2") (cons (dict (field "f" (str "3") end)) nil)))))
            end))))

abbrev five_used : Guids
five_used = record { next = 5; in_use = false }

abbrev two_values : List Value
two_values = dict seven ∷ number (int (pos 5)) ∷ []

abbrev one_function : List (String × Value)
one_function = ("f", dict identity) ∷ []

map_runs : apply_graft (str "map") two_values one_function two_used ≡ (ok map_graft, five_used)
unfolding apply_graft has str_of_ℕ is_literal put update get
map_runs = refl

apply_graft-IsCall_example : IsCall (str "map") two_values one_function two_used map_graft five_used
apply_graft-IsCall_example =
    apply_graft-IsCall (str "map") two_values one_function two_used five_used map_graft
      (str-IsOld 2 "map") (seven-IsOld, (number-IsOld 2 5, tt)) (identity-IsOld 2, tt) map_runs

-- `apply_graft("add", seven, 5)`
abbrev sum_graft : Fields
sum_graft = field "1" (number (int (pos 7))) (
    field "returns" (str "3") (
      field "2" (number (int (pos 5)))
        (field "3" (seq (cons (str "add") (cons (str "1") (cons (str "2") nil)))) end)))

abbrev four_used : Guids
four_used = record { next = 4; in_use = false }

-- `x => add(seven, x)`, whose result was built when `guid` had handed out "1" to "3"
abbrev sum_with_x : Fields
sum_with_x =
    put "returns" (str "3")
      (put (str_of_ℕ 3) (seq (cons (str "add") (cons (str "1") (cons (str "x") nil)))) seven)

sum_with_x-Below : Below 4 sum_with_x
sum_with_x-Below =
    Below-put_returns 4 (str "3") _
      (Below-put_new 3 _ seven (Below-mono 2 3 seven (omega arith) (Below-binding 1 _)))

function_graft-Splits_example :
    (r : Fields) × (s' : Guids) × (function_graft
        (dict sum_with_x)
        (str "x" ∷ [])
        (some "2")
        four_used
      ≡ (ok r, s'))
    × Splits (param_list (str "x" ∷ [])) (pos 2) sum_with_x r
unfolding has put str_of_ℕ is_params param_list int_of_str
function_graft-Splits_example =
    function_graft-Splits sum_with_x (str "x" ∷ []) "2" (pos 2) four_used refl refl refl refl
      sum_with_x-Below

check_args_iff_example :
    (check_args 1 ("b" ∷ []) ("a" ∷ "b" ∷ []) type_error ≡ ok tt)
    ↔ Fits 1 ("b" ∷ []) ("a" ∷ "b" ∷ [])
check_args_iff_example = check_args_iff 1 ("a" ∷ "b" ∷ []) type_error ("b" ∷ [])

-- A builtin that adds two numbers.
abbrev add : String → List Object → Dict Object → Run
add name (json (number (int (pos a))) ∷ json (number (int (pos b))) ∷ []) named =
    done (json (number (int (pos (a + b)))))
add name args named = fail (type_error (about "add"))

abbrev final_heap : Heap
final_heap =
    (("add", builtin "add") ∷ [])
    ∷ (("1", json (number (int (pos 7))))
        ∷ ("2", json (number (int (pos 5))))
        ∷ ("3", json (number (int (pos 12))))
        ∷ [])
    ∷ []

sum_is_twelve :
    interpret_and_call add 6 sum_graft (("add", builtin "add") ∷ []) [] [] []
    ≡ (ok (json (number (int (pos 12)))), final_heap)
unfolding interpret_and_call new_child as_function get is_key is_params apply closure_args
    check_args resolve lookup classify is_application map_action is_literal setlevel insert
sum_is_twelve = refl

value_graft-interpret_and_call_example :
    (d : Fields) × (s' : Guids) × (h' : Heap) × (value_graft
        (seq (cons (str "a") nil))
        none
        two_used
      ≡ (ok d, s'))
    × (interpret_and_call add 3 d (("2", builtin "add") ∷ []) [] [] []
        ≡ (ok (json (seq (cons (str "a") nil))), h'))
value_graft-interpret_and_call_example =
    value_graft-interpret_and_call add (seq (cons (str "a") nil)) (("2", builtin "add") ∷ [])
      two_used [] 3 refl (omega arith)

abbrev two_scopes : Heap
two_scopes = (("2", builtin "add") ∷ []) ∷ [] ∷ []

get_key-setlevel_example :
    (h' : Heap) × (setlevel (1 ∷ 0 ∷ []) 0 "1" (json (number (int (pos 7)))) two_scopes
      ≡ (ok tt, h'))
    × ((f : ℕ)
        → get_key add (suc f) "1" (seven ∷ end ∷ []) (1 ∷ 0 ∷ []) h'
          ≡ (ok (json (number (int (pos 7)))), h'))
unfolding resolve lookup get str_of_ℕ
get_key-setlevel_example =
    get_key-setlevel add "1" (seven ∷ end ∷ []) (1 ∷ 0 ∷ []) two_scopes (number (int (pos 7))) 0
      (json (number (int (pos 7)))) refl refl refl

isolate_keys_lem_example :
    (r : Fields) × (s' : Guids) × (function result : String) × (isolate_keys
        (dict seven)
        false
        two_used
      ≡ (ok r, s'))
    × (get "returns" r ≡ some (str result))
    × (get result r ≡ some (seq (cons (str function) nil)))
    × (get function r ≡ some (dict seven))
    × ((k : String) → (has k r && has k seven) ≡ ("returns" == k))
unfolding has str_of_ℕ
isolate_keys_lem_example =
    isolate_keys_lem seven two_used refl refl (Below-binding 1 (number (int (pos 7))))
