-- ===== src/Filtering/Serialized/Sent.antt =====
-- When `jsonapi_serialize` of filtering.py raises, and what the JSON that it returns means.
use mathlib.Core.Path.{subst}
use descarteslabs_python.Prelude.{
  String, ◌≡◌, refl, sym, ap, ap₂, ◌∙◌, Bool, true, false, ◌&&◌, ◌||◌, Option, none, some, [], ◌∷◌,
  all, arith,
}
use descarteslabs_python.Python.Result.{Result, ok, err, bind}
use descarteslabs_python.Python.Dict.{Dict, lookup}
use descarteslabs_python.Filtering.{
  Comparison, eq, ne, like, range, Expr, comparison, and_expr, or_expr, Exprs, nil, cons,
}
use descarteslabs_python.Filtering.Meaning.{holds, holds_all, holds_any}
use descarteslabs_python.Filtering.Serialized.{
  Error, op_json, and_json, or_json, Jsons, nil_json, cons_json, Model, serialized_by, filter_value,
  like_value, range_jsons, one_or_and, comparison_json, jsonapi_serialize, jsonapi_each, json_holds,
  jsons_all, jsons_any,
}

-- It returns an `x` of which `P` holds where `b` is true, and raises where it is false.
pub data Serializes {X : Type 0} (b : Bool) (P : X → Type 0) : Result Error X → Type 0 where
  returned : (x : X) → b ≡ true → P x → Serializes b P (ok x)
  refused : (e : Error) → b ≡ false → Serializes b P (err e)

module _ {X Y : Type 0} {P : X → Type 0} {Q : Y → Type 0} where
  pub Serializes-bind :
      {b c : Bool} (r : Result Error X) (f : X → Result Error Y)
      → Serializes b P r
      → ((x : X) → P x → Serializes c Q (f x))
      → Serializes (b && c) Q (bind r f)
  Serializes-bind {c} (ok x) f (returned _ e p) h =
      subst (λ d. Serializes (d && c) Q (f x)) (sym e) (h x p)
  Serializes-bind {c} (err x) f (refused _ q) h = refused x (ap (λ d. d && c) q)

  pub Serializes-map :
      {b : Bool} (r : Result Error X) (f : X → Y)
      → Serializes b P r
      → ((x : X) → P x → Q (f x))
      → Serializes b Q (bind r λ x. ok (f x))
  Serializes-map (ok x) f (returned _ e p) h = returned (f x) e (h x p)
  Serializes-map (err x) f (refused _ q) h = refused x q

module _ {X : Type 0} {P Q : X → Type 0} where
  pub Serializes-weaken :
      {b : Bool} (r : Result Error X) → Serializes b P r → ((x : X) → P x → Q x) → Serializes b Q r
  Serializes-weaken (ok x) (returned _ e p) h = returned x e (h x p)
  Serializes-weaken (err x) (refused _ q) h = refused x q

module _ {V : Type 0} where
  abbrev is_ok : Result Error V → Bool
  is_ok (ok v) = true
  is_ok (err e) = false

  abbrev value_or : V → Result Error V → V
  value_or v (ok w) = w
  value_or v (err e) = v

  -- Without a model every value is sent as it is. With one, those of its attributes, serialized as the
  -- attribute does.
  abbrev pub sent_value : Option (Model V) → String → V → V
  sent_value none name v = v
  sent_value (some m) name v = elim (lookup name m) [ none ↦ v | some f ↦ value_or v (f v) ]

  abbrev pub is_sendable : Option (Model V) → String → V → Bool
  is_sendable none name v = true
  is_sendable (some m) name v = elim (lookup name m) [ none ↦ false | some f ↦ is_ok (f v) ]

  -- Whether a comparison can be sent: one with `like` only without a model.
  abbrev pub can_send : Option (Model V) → Comparison V → Bool
  can_send model (eq name v) = is_sendable model name v
  can_send model (ne name v) = is_sendable model name v
  can_send none (like name v) = true
  can_send (some m) (like name v) = false
  can_send model (range name parts) = all (λ part. is_sendable model name part.1) parts

  filter_value-Serializes :
      (model : Option (Model V)) (name : String) (v : V)
      → Serializes
          (is_sendable model name v)
          (λ w. w ≡ sent_value model name v)
          (filter_value model name v)
  unfolding filter_value
  filter_value-Serializes none name v = returned v refl refl
  filter_value-Serializes (some m) name v = by_attribute (lookup name m)
    where
      by_result : (r : Result Error V) → Serializes (is_ok r) (λ w. w ≡ value_or v r) r
      by_result (ok w) = returned w refl refl
      by_result (err e) = refused e refl

      by_attribute :
          (o : Option (V → Result Error V))
          → Serializes
              (elim o [ none ↦ false | some f ↦ is_ok (f v) ])
              (λ w. w ≡ elim o [ none ↦ v | some f ↦ value_or v (f v) ])
              (serialized_by o v)
      by_attribute none = refused _ refl
      by_attribute (some f) = by_result (f v)

module _ {V : Type 0} (can : Comparison V → Bool) where
  -- Every comparison of an expression passes a test.
  unfoldable mutual
    pub every : Expr V → Bool
    every (comparison c) = can c
    every (and_expr es) = every_of es
    every (or_expr es) = every_of es

    pub every_of : Exprs V → Bool
    every_of nil = true
    every_of (cons e es) = every e && every_of es

module _ {V : Type 0} (op_test : String → String → V → Bool) where
  -- A comparison that a service tests with the value that is to be sent; a range is all its parts.
  abbrev pub sent_test : Option (Model V) → Comparison V → Bool
  sent_test model (eq name v) = op_test "eq" name (sent_value model name v)
  sent_test model (ne name v) = op_test "ne" name (sent_value model name v)
  sent_test model (like name v) = op_test "ilike" name v
  sent_test model (range name parts) =
      all (λ part. op_test part.0 name (sent_value model name part.1)) parts

and_true : (b : Bool) → (b && true) ≡ b
and_true b = ground arith

module _ {V : Type 0} (op_test : String → String → V → Bool) (model : Option (Model V)) where
  one-Serializes :
      (op name : String) (v : V)
      → Serializes
          (is_sendable model name v)
          (λ j. json_holds op_test j ≡ op_test op name (sent_value model name v))
          (bind (filter_value model name v) λ w. ok (op_json op name w))
  unfolding json_holds
  one-Serializes op name v =
      Serializes-map (filter_value model name v) (op_json op name)
        (filter_value-Serializes model name v) λ w e. ap (op_test op name) e

  range_jsons-Serializes :
      (name : String) (parts : Dict V)
      → Serializes
          (all (λ part. is_sendable model name part.1) parts)
          (λ js.
            jsons_all op_test js
            ≡ all (λ part. op_test part.0 name (sent_value model name part.1)) parts)
          (range_jsons model name parts)
  unfolding range_jsons json_holds
  range_jsons-Serializes name [] = returned nil_json refl refl
  range_jsons-Serializes name ((op, v) ∷ parts) =
      Serializes-bind (filter_value model name v) _ (filter_value-Serializes model name v) λ w e.
        Serializes-map (range_jsons model name parts) (cons_json (op_json op name w))
          (range_jsons-Serializes name parts) λ js f. ap₂ ◌&&◌ (ap (op_test op name) e) f

  one_or_and-holds : (js : Jsons V) → json_holds op_test (one_or_and js) ≡ jsons_all op_test js
  unfolding json_holds
  one_or_and-holds nil_json = refl
  one_or_and-holds (cons_json j nil_json) = sym (and_true (json_holds op_test j))
  one_or_and-holds (cons_json j (cons_json k js)) = refl

module _ {V : Type 0} (op_test : String → String → V → Bool) where
  comparison_json-Serializes :
      (model : Option (Model V)) (c : Comparison V)
      → Serializes
          (can_send model c)
          (λ j. json_holds op_test j ≡ sent_test op_test model c)
          (comparison_json model c)
  unfolding comparison_json like_value json_holds
  comparison_json-Serializes model (eq name v) = one-Serializes op_test model "eq" name v
  comparison_json-Serializes model (ne name v) = one-Serializes op_test model "ne" name v
  comparison_json-Serializes none (like name v) = returned _ refl refl
  comparison_json-Serializes (some m) (like name v) = refused _ refl
  comparison_json-Serializes model (range name parts) =
      Serializes-map (range_jsons model name parts) one_or_and
        (range_jsons-Serializes op_test model name parts)
        λ js e. one_or_and-holds op_test model js ∙ e

module _ {V : Type 0} (op_test : String → String → V → Bool) (model : Option (Model V)) where
  mutual
    unfolding jsonapi_serialize json_holds holds every

    expr-Serializes :
        (e : Expr V)
        → Serializes
            (every (can_send model) e)
            (λ j. json_holds op_test j ≡ holds (sent_test op_test model) e)
            (jsonapi_serialize model e)
    expr-Serializes (comparison c) = comparison_json-Serializes op_test model c
    expr-Serializes (and_expr es) =
        Serializes-map (jsonapi_each model es) and_json (all-Serializes es) λ js e. e
    expr-Serializes (or_expr es) =
        Serializes-map (jsonapi_each model es) or_json (any-Serializes es) λ js e. e

    pub all-Serializes :
        (es : Exprs V)
        → Serializes
            (every_of (can_send model) es)
            (λ js. jsons_all op_test js ≡ holds_all (sent_test op_test model) es)
            (jsonapi_each model es)
    all-Serializes nil = returned nil_json refl refl
    all-Serializes (cons e es) =
        Serializes-bind (jsonapi_serialize model e) _ (expr-Serializes e) λ j p.
          Serializes-map (jsonapi_each model es) (cons_json j) (all-Serializes es)
            λ js q. ap₂ ◌&&◌ p q

    any-Serializes :
        (es : Exprs V)
        → Serializes
            (every_of (can_send model) es)
            (λ js. jsons_any op_test js ≡ holds_any (sent_test op_test model) es)
            (jsonapi_each model es)
    any-Serializes nil = returned nil_json refl refl
    any-Serializes (cons e es) =
        Serializes-bind (jsonapi_serialize model e) _ (expr-Serializes e) λ j p.
          Serializes-map (jsonapi_each model es) (cons_json j) (any-Serializes es)
            λ js q. ap₂ ◌||◌ p q

  -- `jsonapi_serialize` raises exactly when a model is given and a comparison is by `like`, is on a name
  -- that is no attribute of the model, or has a value that its attribute does not serialize. Otherwise
  -- the JSON that it returns matches what the expression matches, for any meaning of the operators:
  -- each comparison with its value as the model's attribute serializes it, a range, sent as one part
  -- or as a conjunction, where all its parts do.
  pub jsonapi_serialize-Serializes :
      (e : Expr V)
      → Serializes
          (every (can_send model) e)
          (λ j. json_holds op_test j ≡ holds (sent_test op_test model) e)
          (jsonapi_serialize model e)
  jsonapi_serialize-Serializes e = expr-Serializes e
