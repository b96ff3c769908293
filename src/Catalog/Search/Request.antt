-- ===== src/Catalog/Search/Request.antt =====
-- The parameters that a search of catalog/search.py sends beside its filters.
use mathlib.Core.Path.{subst}
use descarteslabs_python.Prelude.{
  ℕ, String, ◌≡◌, refl, ap, ◌∙◌, Bool, true, false, Option, none, some, List, [], ◌∷◌, arith, ◌==◌,
  eq_iff, if◌then◌else◌, Bool-cases, inl, inr,
}
use descarteslabs_python.Python.Result.{Result, ok, err}
use descarteslabs_python.Python.Dict.{Dict, lookup, remove, lookup-insert, lookup-remove}
use descarteslabs_python.Filtering.Serialized.{Error, Jsons, nil_json, cons_json}
use descarteslabs_python.Catalog.Search.{
  Param, words, count, filters, Search, limit, sort, find_text, comma_join, put_limit, put_filters,
  put_includes, serialize_filters, to_request, count_request, summary_request, ◌+++◌,
}

module _ {V : Type 0} where
  abbrev limit_param : Option ℕ → Option (Param V) → Option (Param V)
  limit_param none other = other
  limit_param (some n) other = some (count n)

  abbrev filter_param : Jsons V → Option (Param V) → Option (Param V)
  filter_param nil_json other = other
  filter_param (cons_json j js) other = some (filters (cons_json j js))

  abbrev include_param : Bool → List String → Option (Param V) → Option (Param V)
  include_param false names other = other
  include_param true [] other = other
  include_param true (x ∷ xs) other = some (words (comma_join (x ∷ xs)))

  lookup-put_limit :
      (k : String) (o : Option ℕ) (d : Dict (Param V))
      → lookup k (put_limit o d) ≡ (if "limit" == k then limit_param o (lookup k d) else lookup k d)
  lookup-put_limit k none d = ground arith
  lookup-put_limit k (some n) d = lookup-insert "limit" k (count n) d

  lookup-put_filters :
      (k : String) (js : Jsons V) (d : Dict (Param V))
      → lookup k (put_filters js d)
        ≡ (if "filter" == k then filter_param js (lookup k d) else lookup k d)
  lookup-put_filters k nil_json d = ground arith
  lookup-put_filters k (cons_json j js) d = lookup-insert "filter" k (filters (cons_json j js)) d

  lookup-put_includes :
      (k : String) (b : Bool) (names : List String) (d : Dict (Param V))
      → lookup k (put_includes b names d)
        ≡ (if "include" == k then include_param b names (lookup k d) else lookup k d)
  lookup-put_includes k false names d = ground arith
  lookup-put_includes k true [] d = ground arith
  lookup-put_includes k true (x ∷ xs) d = lookup-insert "include" k (words (comma_join (x ∷ xs))) d

  abbrev Layer : (i f l : Option (Param V) → Option (Param V)) → Option (Param V) → String → Type 0
  Layer i f l o k =
      let y = if "limit" == k then l o else o in
      let x = if "filter" == k then f y else y in
      (if "include" == k then i x else x) ≡ (
        if "include" == k
        then i o
        else if "filter" == k
        then f o
        else if "limit" == k
        then l o
        else o)

  -- A key has at most one of the three names.
  one-Layer :
      (k : String) (i f l : Option (Param V) → Option (Param V)) (o : Option (Param V))
      → Layer i f l o k
  one-Layer k i f l o = elim (Bool-cases ("include" == k)) [
    | inl p ↦ subst (Layer i f l o) ((eq_iff "include" k).0 p) refl
    | inr p ↦ elim (Bool-cases ("filter" == k)) [
      | inl q ↦ subst (Layer i f l o) ((eq_iff "filter" k).0 q) refl
      | inr q ↦ rw (p, q)
    ]
  ]

  request_params : Jsons V → Search V → Dict (Param V)
  request_params js s =
      put_includes s.use_includes s.model_cls.default_includes
        (put_filters js (put_limit s.limited s.request_params))

  lookup-request_params :
      (k : String) (js : Jsons V) (s : Search V)
      → lookup k (request_params js s) ≡ (
          if "include" == k
          then include_param s.use_includes s.model_cls.default_includes (lookup k s.request_params)
          else if "filter" == k
          then filter_param js (lookup k s.request_params)
          else if "limit" == k
          then limit_param s.limited (lookup k s.request_params)
          else lookup k s.request_params)
  unfolding request_params
  lookup-request_params k js s =
      let own = s.request_params in
      let names = s.model_cls.default_includes in
      lookup-put_includes k s.use_includes names (put_filters js (put_limit s.limited own))
      ∙ ap (λ o. if "include" == k then include_param s.use_includes names o else o)
          (lookup-put_filters k js (put_limit s.limited own)
            ∙ ap (λ o. if "filter" == k then filter_param js o else o)
                (lookup-put_limit k s.limited own))
      ∙ one-Layer k (include_param s.use_includes names) (filter_param js) (limit_param s.limited)
          (lookup k own)

  -- A parameter of a request, when it is made.
  abbrev pub requested : String → Result Error (String × Dict (Param V)) → Option (Param V)
  requested k (ok (url, params)) = lookup k params
  requested k (err e) = none

  requested-to_request :
      (k : String) (js : Jsons V) (s : Search V)
      → serialize_filters s ≡ ok js
      → requested k (to_request s) ≡ lookup k (request_params js s)
  unfolding to_request request_params
  requested-to_request k js s e = rw e refl

  -- In the request of a search whose filters can be serialized, a later limit, text or sort replaces
  -- an earlier one, also when a sort follows the text or a text the sort; the sort is sent as its field,
  -- with "-" before it when it descends; `count` asks for no results, and a summary is not sorted.
  pub later_call_wins :
      (m n : ℕ) (t u f g : String) (a b : Bool) (s : Search V) (js : Jsons V)
      → serialize_filters s ≡ ok js
      → (requested "limit" (to_request (limit n (limit m s))) ≡ some (count n))
        × (requested "text" (to_request (sort g b (find_text u (find_text t s)))) ≡ some (words u))
        × (requested "sort" (to_request (find_text t (sort g b (sort f a s))))
            ≡ some (words ((if b then "" else "-") +++ g)))
        × (requested "limit" (count_request (limit m s)) ≡ some (count 0))
        × ((params : Dict (Param V)) × (summary_request (sort f a s) ≡ ok params)
            × (lookup "sort" params ≡ none))
  unfolding limit find_text sort count_request summary_request serialize_filters
  later_call_wins m n t u f g a b s js e = (
    requested-to_request "limit" js (limit n (limit m s)) e
        ∙ lookup-request_params "limit" js (limit n (limit m s)),
    requested-to_request "text" js (sort g b (find_text u (find_text t s))) e
        ∙ lookup-request_params "text" js (sort g b (find_text u (find_text t s)))
        ∙ rw (lookup-insert, lookup-insert) refl,
    requested-to_request "sort" js (find_text t (sort g b (sort f a s))) e
        ∙ lookup-request_params "sort" js (find_text t (sort g b (sort f a s)))
        ∙ rw (lookup-insert, lookup-insert) refl,
    requested-to_request "limit" js (limit 0 (limit m s)) e
        ∙ lookup-request_params "limit" js (limit 0 (limit m s)),
    (
      put_filters js (remove "sort" (sort f a s).request_params),
      rw e refl,
      rw (lookup-put_filters, lookup-remove) refl,
    ),
  )
