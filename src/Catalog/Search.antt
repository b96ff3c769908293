-- ===== src/Catalog/Search.antt =====
-- descarteslabs/catalog/search.py: a search request. Each method works on a deep copy, so it returns
-- a new search and leaves its own as it was.
pub mod Filters
pub mod Request
pub mod Pages
use Prim.Native.String
use descarteslabs_python.Prelude.{
  ℕ, String, Bool, true, false, not, ◌&&◌, ◌==◌, Option, none, some, List, [], ◌∷◌, if◌then◌else◌,
}
use descarteslabs_python.Python.Result.{Result, ok, err, bind}
use descarteslabs_python.Python.Dict.{Dict, insert, remove}
use descarteslabs_python.Filtering.{Expr, comparison, and_expr, or_expr}
use descarteslabs_python.Filtering.Operators.{Unsupported, Operated, and_op}
use descarteslabs_python.Filtering.Serialized.{
  Error, Jsons, nil_json, cons_json, Model, serialize_filter_attribute, jsonapi_serialize,
  jsonapi_each,
}

-- A request parameter. The text of a JSON value is known by the value.
pub data Param (V : Type 0) : Type 0 where
  words : String → Param V
  count : ℕ → Param V
  filters : Jsons V → Param V
  geometry : V → Param V

-- What a search uses of its model class.
pub record ModelClass (V : Type 0) : Type 0 where
  pub url : String
  pub default_includes : List String
  pub model : Model V

pub record Search (V : Type 0) : Type 0 where
  pub url : String
  pub model_cls : ModelClass V
  pub request_params : Dict (Param V)
  pub filter_properties : Option (Expr V)
  pub limited : Option ℕ
  pub use_includes : Bool

infixr 65 ◌+++◌
abbrev pub ◌+++◌ : String → String → String
s +++ t = String.◌++◌ s t

-- `",".join(names)`
unfoldable pub comma_join : List String → String
comma_join [] = ""
comma_join (x ∷ []) = x
comma_join (x ∷ y ∷ ys) = x +++ "," +++ comma_join (y ∷ ys)

module _ {V : Type 0} where
  -- `Search(model, url=url, includes=includes)`
  unfoldable pub new_search : ModelClass V → Option String → Bool → Search V
  new_search cls url includes = record {
    url = elim url [ none ↦ cls.url | some u ↦ if u == "" then cls.url else u ];
    model_cls = cls;
    request_params = [];
    filter_properties = none;
    limited = none;
    use_includes = includes;
  }

  unfoldable pub limit : ℕ → Search V → Search V
  limit n s = record s { limited = some n }

  unfoldable pub sort : String → Bool → Search V → Search V
  sort field ascending s = record s {
    request_params =
        insert "sort" (words ((if ascending then "" else "-") +++ field)) s.request_params;
  }

  -- The new value of `_filter_properties`
  unfoldable pub and_filter : Option (Expr V) → Expr V → Result Unsupported (Expr V)
  and_filter none properties = ok properties
  and_filter (some f) properties = bind (and_op f properties) (λ o. ok o.result)

  unfoldable pub filter : Expr V → Search V → Result Unsupported (Search V)
  unfolding and_filter
  filter properties s =
      bind (and_filter s.filter_properties properties)
        (λ f. ok (record s { filter_properties = some f }))

  unfoldable pub find_text : String → Search V → Search V
  find_text t s = record s { request_params = insert "text" (words t) s.request_params }

  -- A conjunction is flattened into the list of filters.
  unfoldable pub filters_of : Model V → Option (Expr V) → Result Error (Jsons V)
  filters_of m none = ok nil_json
  filters_of m (some (and_expr es)) = jsonapi_each (some m) es
  filters_of m (some e) = bind (jsonapi_serialize (some m) e) λ j. ok (cons_json j nil_json)

  unfoldable pub serialize_filters : Search V → Result Error (Jsons V)
  unfolding filters_of
  serialize_filters s = filters_of s.model_cls.model s.filter_properties

  abbrev put_filters : Jsons V → Dict (Param V) → Dict (Param V)
  put_filters nil_json params = params
  put_filters (cons_json j js) params = insert "filter" (filters (cons_json j js)) params

  abbrev put_limit : Option ℕ → Dict (Param V) → Dict (Param V)
  put_limit none params = params
  put_limit (some n) params = insert "limit" (count n) params

  abbrev put_includes : Bool → List String → Dict (Param V) → Dict (Param V)
  put_includes false includes params = params
  put_includes true [] params = params
  put_includes true (x ∷ xs) params = insert "include" (words (comma_join (x ∷ xs))) params

  unfoldable pub to_request : Search V → Result Error (String × Dict (Param V))
  unfolding serialize_filters
  to_request s = bind (serialize_filters s) λ js. ok (
    s.url,
    put_includes s.use_includes s.model_cls.default_includes
        (put_filters js (put_limit s.limited s.request_params)),
  )

  -- The request of `count()`: no results, only their number.
  unfoldable pub count_request : Search V → Result Error (String × Dict (Param V))
  unfolding limit to_request
  count_request s = to_request (limit 0 s)

  -- `ImageSearch`
  unfoldable pub intersects : V → Search V → Result Error (Search V)
  unfolding serialize_filter_attribute
  intersects g s =
      bind (serialize_filter_attribute s.model_cls.model "geometry" g)
        λ v. ok (record s { request_params = insert "intersects" (geometry v) s.request_params })

  unfoldable pub summary_request : Search V → Result Error (Dict (Param V))
  unfolding serialize_filters
  summary_request s =
      bind (serialize_filters s) λ js. ok (put_filters js (remove "sort" s.request_params))

-- A bound of `summary_interval`: not given, given as a false value, or a date, already serialized.
pub data Bound : Type 0 where
  not_given unbounded : Bound
  date : String → Bound

module _ {V : Type 0} where
  abbrev put_bound : String → Bound → Dict (Param V) → Dict (Param V)
  put_bound key not_given params = params
  put_bound key unbounded params = insert key (words "") params
  put_bound key (date d) params = insert key (words d) params

  unfoldable pub summary : Search V → Result Error (String × Dict (Param V))
  unfolding summary_request
  summary s = bind (summary_request s) λ params. ok (s.url +++ "/summary/all", params)

  unfoldable pub summary_interval :
      String → String → Bound → Bound → Search V → Result Error (String × Dict (Param V))
  unfolding summary_request
  summary_interval date_field interval start end s =
      bind
        (summary_request (record s {
          request_params = put_bound "_end" end (put_bound "_start" start s.request_params);
        }))
        λ params. ok (s.url +++ "/summary/" +++ date_field +++ "/" +++ interval, params)
