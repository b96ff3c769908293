-- ===== src/Catalog/Search/Filters.antt =====
-- The filters that a search of catalog/search.py sends.
use mathlib.Core.Path.{subst}
use descarteslabs_python.Prelude.{
  String, ◌≡◌, refl, sym, ap, ◌∙◌, Bool, true, ◌&&◌, Option, none, some, List, [], ◌∷◌, all, arith,
  inl, inr,
}
use descarteslabs_python.Python.Result.{Result, ok, bind, Result-cases}
use descarteslabs_python.Filtering.{Expr, comparison, and_expr, or_expr}
use descarteslabs_python.Filtering.Operators.{Unsupported, Operated, and_op}
use descarteslabs_python.Filtering.Meaning.{holds, holds_all, holds-and_op}
use descarteslabs_python.Filtering.Serialized.{
  Model, cons_json, nil_json, json_holds, jsons_all, jsonapi_serialize,
}
use descarteslabs_python.Filtering.Serialized.Sent.{
  Serializes, returned, Serializes-map, Serializes-weaken, can_send, every, sent_test,
  all-Serializes, jsonapi_serialize-Serializes,
}
use descarteslabs_python.Filtering.Serialized.Combined.{every-and_op}
use descarteslabs_python.Catalog.Search.{
  ModelClass, Search, and_filter, filter, filters_of, serialize_filters,
}

module _ {V : Type 0} where
  -- `search.filter(p1).filter(p2)...`
  unfoldable pub filter_each : List (Expr V) → Search V → Result Unsupported (Search V)
  unfolding filter
  filter_each [] s = ok s
  filter_each (p ∷ ps) s = bind (filter p s) (filter_each ps)

and_assoc : (a b c : Bool) → ((a && b) && c) ≡ (a && (b && c))
and_assoc a b c = ground arith

and_true : (a : Bool) → (a && true) ≡ a
and_true a = ground arith

-- A Boolean function of expressions, such as what they match, of the filter of a search.
module _ {V : Type 0} (h : Expr V → Bool) where
  abbrev pub matches : Option (Expr V) → Bool
  matches none = true
  matches (some e) = h e

-- One that takes `&` to a conjunction.
module _ {V : Type 0} (h : Expr V → Bool)
    (law : (a b : Expr V) (o : Operated V) → and_op a b ≡ ok o → h o.result ≡ (h a && h b)) where
  and_filter-matches :
      (o : Option (Expr V)) (p f : Expr V) → and_filter o p ≡ ok f → h f ≡ (matches h o && h p)
  unfolding and_filter
  and_filter-matches none p f e = ground arith
  and_filter-matches (some g) p f e = elim (Result-cases (and_op g p)) [
    | inl (o, q) ↦ let same : o.result ≡ f = ground arith in ap h (sym same) ∙ law g p o q
    | inr (x, q) ↦ absurd (ground arith)
  ]

  filter-matches :
      (p : Expr V) (s s' : Search V)
      → filter p s ≡ ok s'
      → (matches h s'.filter_properties ≡ (matches h s.filter_properties && h p))
        × (s'.model_cls ≡ s.model_cls)
  unfolding filter
  filter-matches p s s' e = elim (Result-cases (and_filter s.filter_properties p)) [
    | inl (f, q) ↦
        let same : record s { filter_properties = some f } ≡ s' = ground arith in
        (
          ap (λ (t : Search V). matches h t.filter_properties) (sym same)
              ∙ and_filter-matches s.filter_properties p f q,
          ap (λ (t : Search V). t.model_cls) (sym same),
        )
    | inr (x, q) ↦ absurd (ground arith)
  ]

  -- Filters given one after the other are a conjunction, and keep what was there before.
  pub filter_each-matches :
      (ps : List (Expr V)) (s s' : Search V)
      → filter_each ps s ≡ ok s'
      → (matches h s'.filter_properties ≡ (matches h s.filter_properties && all h ps))
        × (s'.model_cls ≡ s.model_cls)
  unfolding filter_each
  filter_each-matches [] s s' e = (ground arith, ground arith)
  filter_each-matches (p ∷ ps) s s' e = elim (Result-cases (filter p s)) [
    | inl (t, q) ↦
        let here = filter-matches p s t q in
        let rest = filter_each-matches ps t s' (ground arith) in
        (
          rest.0
              ∙ ap (λ b. b && all h ps) here.0
              ∙ and_assoc (matches h s.filter_properties) (h p) (all h ps),
          rest.1 ∙ here.1,
        )
    | inr (x, q) ↦ absurd (ground arith)
  ]

module _ {V : Type 0} (op_test : String → String → V → Bool) where
  filters_of-Serializes :
      (m : Model V) (o : Option (Expr V))
      → Serializes
          (matches (every (can_send (some m))) o)
          (λ js. jsons_all op_test js ≡ matches (holds (sent_test op_test (some m))) o)
          (filters_of m o)
  unfolding filters_of json_holds every holds holds_all
  filters_of-Serializes m none = returned nil_json refl refl
  filters_of-Serializes m (some (and_expr es)) = all-Serializes op_test (some m) es
  filters_of-Serializes m (some (comparison c)) =
      Serializes-map (jsonapi_serialize (some m) (comparison c)) (λ j. cons_json j nil_json)
        (jsonapi_serialize-Serializes op_test (some m) (comparison c))
        λ j e. and_true (json_holds op_test j) ∙ e
  filters_of-Serializes m (some (or_expr es)) =
      Serializes-map (jsonapi_serialize (some m) (or_expr es)) (λ j. cons_json j nil_json)
        (jsonapi_serialize-Serializes op_test (some m) (or_expr es))
        λ j e. and_true (json_holds op_test j) ∙ e

  -- After `search.filter(p1).filter(p2)...` on a search that has no filter, where no call raises:
  -- serializing the filters raises exactly when one of the comparisons in `p1`, `p2`, ... cannot be
  -- sent, because it is by `like`, is on a name that is no attribute of the model, or has a value that
  -- the attribute does not serialize; and otherwise an object passes the list of filters that is sent
  -- exactly when it matches every one of `p1`, `p2`, ...
  pub serialize_filters-filter_each :
      (ps : List (Expr V)) (s s' : Search V)
      → s.filter_properties ≡ none
      → filter_each ps s ≡ ok s'
      → Serializes
          (all (every (can_send (some s.model_cls.model))) ps)
          (λ js. jsons_all op_test js ≡ all (holds (sent_test op_test (some s.model_cls.model))) ps)
          (serialize_filters s')
  unfolding serialize_filters
  serialize_filters-filter_each ps s s' fresh e =
      let m = some s.model_cls.model in
      let test = sent_test op_test m in
      let kept = filter_each-matches (holds test) (holds-and_op test) ps s s' e in
      let sendable =
        filter_each-matches (every (can_send m)) (every-and_op (can_send m)) ps s s' e in
      let none_before =
        λ (h : Expr V → Bool). ap (λ (o : Option (Expr V)). matches h o && all h ps) fresh in
      subst
        (λ b.
          Serializes b (λ js. jsons_all op_test js ≡ all (holds test) ps) (serialize_filters s'))
        (sendable.0 ∙ none_before (every (can_send m)))
        (subst
          (λ (c : ModelClass V).
            Serializes (matches (every (can_send m)) s'.filter_properties)
              (λ js. jsons_all op_test js ≡ all (holds test) ps)
              (filters_of c.model s'.filter_properties))
          (sym kept.1)
          (Serializes-weaken (filters_of s.model_cls.model s'.filter_properties)
            (filters_of-Serializes s.model_cls.model s'.filter_properties)
            λ js p. p ∙ kept.0 ∙ none_before (holds test)))
