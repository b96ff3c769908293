-- ===== src/Filtering/Serialized.antt =====
-- `serialize` and `jsonapi_serialize` of filtering.py, and the meaning of what is sent.
pub mod Sent
pub mod Combined
use descarteslabs_python.Prelude.{
  String, ◌≡◌, refl, sym, ap, ap₂, ◌∙◌, Bool, true, false, ◌&&◌, ◌||◌, Option, none, some, [], ◌∷◌,
  all, arith,
}
use descarteslabs_python.Python.Result.{Result, ok, err, bind}
use descarteslabs_python.Python.Dict.{Dict, lookup}
use descarteslabs_python.Filtering.{
  Comparison, eq, ne, like, range, Expr, comparison, and_expr, or_expr, Exprs, nil, cons,
}

-- `{"op": op, "name": name, "val": val}`, `{"and": [...]}` and `{"or": [...]}`
mutual
  pub data Json (V : Type 0) : Type 0 where
    op_json : String → String → V → Json V
    and_json or_json : Jsons V → Json V

  pub data Jsons (V : Type 0) : Type 0 where
    nil_json : Jsons V
    cons_json : Json V → Jsons V → Jsons V

-- `{op: {name: value}}`, `{"range": {name: parts}}`, `{"and": [...]}` and `{"or": [...]}`
mutual
  pub data Plain (V : Type 0) : Type 0 where
    one : String → String → V → Plain V
    ranges : String → Dict V → Plain V
    and_plain or_plain : Plains V → Plain V

  pub data Plains (V : Type 0) : Type 0 where
    nil_plain : Plains V
    cons_plain : Plain V → Plains V → Plains V

-- `attribute_error` is the module's own, `other_error` one of the `serialize` of an attribute.
pub data Error : Type 0 where
  attribute_error other_error : Error

-- A model class: by the name of an attribute, the `serialize` of its type, or of the type of the items
-- of a list. No model class has a method `_serialize_attribute`.
abbrev pub Model : Type 0 → Type 0
Model V = Dict (V → Result Error V)

module _ {V : Type 0} where
  serialized_by : Option (V → Result Error V) → V → Result Error V
  serialized_by none v = err attribute_error
  serialized_by (some f) v = f v

  unfoldable pub serialize_filter_attribute : Model V → String → V → Result Error V
  unfolding serialized_by lookup
  serialize_filter_attribute m name v = serialized_by (lookup name m) v

  unfoldable pub filter_value : Option (Model V) → String → V → Result Error V
  unfolding serialize_filter_attribute
  filter_value none name v = ok v
  filter_value (some m) name v = serialize_filter_attribute m name v

  unfoldable pub like_value : Option (Model V) → String → V → Result Error V
  like_value none name v = ok v
  like_value (some m) name v = err attribute_error

  unfoldable pub range_jsons : Option (Model V) → String → Dict V → Result Error (Jsons V)
  unfolding filter_value
  range_jsons model name [] = ok nil_json
  range_jsons model name ((op, v) ∷ parts) =
      bind (filter_value model name v)
        λ w. bind (range_jsons model name parts) λ js. ok (cons_json (op_json op name w) js)

  abbrev one_or_and : Jsons V → Json V
  one_or_and (cons_json j nil_json) = j
  one_or_and js = and_json js

  unfoldable pub comparison_json : Option (Model V) → Comparison V → Result Error (Json V)
  unfolding range_jsons filter_value like_value
  comparison_json model (eq name v) = bind (filter_value model name v) λ w. ok (op_json "eq" name w)
  comparison_json model (ne name v) = bind (filter_value model name v) λ w. ok (op_json "ne" name w)
  comparison_json model (like name v) =
      bind (like_value model name v) λ w. ok (op_json "ilike" name w)
  comparison_json model (range name parts) =
      bind (range_jsons model name parts) λ js. ok (one_or_and js)

  unfoldable mutual
    unfolding comparison_json

    pub jsonapi_serialize : Option (Model V) → Expr V → Result Error (Json V)
    jsonapi_serialize model (comparison c) = comparison_json model c
    jsonapi_serialize model (and_expr es) = bind (jsonapi_each model es) λ js. ok (and_json js)
    jsonapi_serialize model (or_expr es) = bind (jsonapi_each model es) λ js. ok (or_json js)

    pub jsonapi_each : Option (Model V) → Exprs V → Result Error (Jsons V)
    jsonapi_each model nil = ok nil_json
    jsonapi_each model (cons e es) =
        bind (jsonapi_serialize model e) λ j. bind (jsonapi_each model es) λ js. ok (cons_json j js)

  unfoldable mutual
    pub serialize : Expr V → Plain V
    serialize (comparison (eq name v)) = one "eq" name v
    serialize (comparison (ne name v)) = one "ne" name v
    serialize (comparison (like name v)) = one "like" name v
    serialize (comparison (range name parts)) = ranges name parts
    serialize (and_expr es) = and_plain (serialize_each es)
    serialize (or_expr es) = or_plain (serialize_each es)

    pub serialize_each : Exprs V → Plains V
    serialize_each nil = nil_plain
    serialize_each (cons e es) = cons_plain (serialize e) (serialize_each es)

-- A service that tests one operator at a time.
module _ {V : Type 0} (op_test : String → String → V → Bool) where
  unfoldable mutual
    pub json_holds : Json V → Bool
    json_holds (op_json op name v) = op_test op name v
    json_holds (and_json js) = jsons_all js
    json_holds (or_json js) = jsons_any js

    pub jsons_all : Jsons V → Bool
    jsons_all nil_json = true
    jsons_all (cons_json j js) = json_holds j && jsons_all js

    pub jsons_any : Jsons V → Bool
    jsons_any nil_json = false
    jsons_any (cons_json j js) = json_holds j || jsons_any js
