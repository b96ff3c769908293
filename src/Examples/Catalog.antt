-- ===== src/Examples/Catalog.antt =====
-- A search whose service has three pages.
use mathlib.Core.Logic.{◌↔◌}
use descarteslabs_python.Prelude.{
  ℕ, ◌*◌, String, ◌≡◌, refl, Bool, true, false, none, some, [], ◌∷◌, all, ◌==◌, if◌then◌else◌, eqb,
}
use descarteslabs_python.Python.Dict.{Dict, lookup}
use descarteslabs_python.Filtering.{Expr, comparison, eq, ne, like, and_expr, cons, nil, extend}
use descarteslabs_python.Filtering.Operators.{and_op}
use descarteslabs_python.Filtering.Meaning.{holds}
use descarteslabs_python.Filtering.Serialized.{
  attribute_error, op_json, nil_json, cons_json, jsons_all, jsonapi_serialize, filter_value,
}
use descarteslabs_python.Filtering.Serialized.Sent.{Serializes, can_send, sent_test, every}
use descarteslabs_python.Python.Result.{ok, err}
use descarteslabs_python.Catalog.Search.{
  Param, words, count, ModelClass, Search, limit, sort, find_text, to_request, count_request,
  summary_request, serialize_filters,
}
use descarteslabs_python.Catalog.Search.Filters.{filter_each, serialize_filters-filter_each}
use descarteslabs_python.Catalog.Search.Request.{requested, later_call_wins}
use descarteslabs_python.Catalog.Search.Pages.{Page, iterate, Results, iterate_iff}

abbrev images : ModelClass ℕ
images = record {
  url = "/images";
  default_includes = "product" ∷ [];
  model = ("a", λ v. ok (v * 10)) ∷ ("b", λ v. ok v) ∷ [];
}

abbrev search : Search ℕ
search = record {
  url = "/images";
  model_cls = images;
  request_params = [];
  filter_properties = none;
  limited = none;
  use_includes = true;
}

abbrev p1 : Expr ℕ
p1 = comparison (eq "a" 1)

abbrev p2 : Expr ℕ
p2 = comparison (ne "b" 2)

abbrev filtered : Search ℕ
filtered = record search { filter_properties = some (and_expr (cons p1 (cons p2 nil))) }

abbrev one_passes : String → String → ℕ → Bool
one_passes op name v = eqb v 1

serialize_filters-filter_each_example :
    Serializes
      (all (every (can_send (some images.model))) (p1 ∷ p2 ∷ []))
      (λ js.
        jsons_all one_passes js
        ≡ all (holds (sent_test one_passes (some images.model))) (p1 ∷ p2 ∷ []))
      (serialize_filters filtered)
unfolding filter_each and_op extend
serialize_filters-filter_each_example =
    serialize_filters-filter_each one_passes (p1 ∷ p2 ∷ []) search filtered refl refl

-- the value is serialized by its attribute
sent_filters :
    serialize_filters filtered
    ≡ ok (cons_json (op_json "eq" "a" 10) (cons_json (op_json "ne" "b" 2) nil_json))
unfolding serialize_filters jsonapi_serialize filter_value lookup
sent_filters = refl

-- A filter with `like` cannot be sent to the catalog.
like_raises :
    serialize_filters (record search { filter_properties = some (comparison (like "a" 1)) })
    ≡ err attribute_error
unfolding serialize_filters jsonapi_serialize
like_raises = refl

later_call_wins_example :
    (requested "limit" (to_request (limit 7 (limit 5 search))) ≡ some (count 7))
    × (requested "text" (to_request (sort "name" false (find_text "u" (find_text "t" search))))
        ≡ some (words "u"))
    × (requested "sort" (to_request (find_text "t" (sort "name" false (sort "id" true search))))
        ≡ some (words "-name"))
    × (requested "limit" (count_request (limit 5 search)) ≡ some (count 0))
    × ((params : Dict (Param ℕ)) × (summary_request (sort "id" true search) ≡ ok params)
        × (lookup "sort" params ≡ none))
unfolding serialize_filters
later_call_wins_example = later_call_wins 5 7 "t" "u" "id" "name" true false search nil_json refl

-- Two pages of one document, and an empty one.
abbrev service : String → Dict (Param ℕ) → Page ℕ
service url params =
    if url == "/images"
    then record { docs = 1 ∷ []; next_link = some "https://api/p2" }
    else if url == "/p2"
    then record { docs = 2 ∷ []; next_link = some "https://api/p3" }
    else record { docs = []; next_link = none }

abbrev built : Page ℕ → ℕ → ℕ
built page d = d

iterate_iff_example :
    ((fuel : ℕ) × (iterate "https://api" service built fuel search ≡ ok (some (1 ∷ 2 ∷ [])))) ↔ (
      (url : String) × (params : Dict (Param ℕ)) × (to_request search ≡ ok (url, params))
      × Results "https://api" service built params (some url) (1 ∷ 2 ∷ []))
iterate_iff_example = iterate_iff "https://api" service built search (1 ∷ 2 ∷ [])

three_requests : iterate "https://api" service built 3 search ≡ ok (some (1 ∷ 2 ∷ []))
unfolding iterate
three_requests = refl
