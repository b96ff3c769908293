-- ===== src/Catalog/Model/Saved.antt =====
-- catalog_base.py: `save`, when the service answers.
use mathlib.Core.Bool.{false≢true, true≢false}
use descarteslabs_python.Prelude.{
  String, ◌≡◌, refl, sym, ap, ◌∙◌, inl, inr, Bool, true, false, Option, none, some, List, [], ◌∷◌,
  arith, all, ◌==◌, eq_iff, Bool-cases, both, Option-cases, if◌then◌else◌,
}
use descarteslabs_python.Python.Result.{Result, ok, err, ok-injective}
use descarteslabs_python.Python.Dict.{Dict, lookup}
use descarteslabs_python.Catalog.Model.Attribute.{
  Error, DocumentState, saved_state, modified_state, unsaved_state, deleted_state, Values,
  Attribute, Object, is_some, state, attribute_type, has_attribute, raise_if_immutable_or_readonly,
  set_modified, set_checked, set_value, set_attribute, validate_value,
}
use descarteslabs_python.Catalog.Model.Object.{
  names, change, settle, serialize_names, serialize, keep_sticky, clear_modified, clear_sticky,
  mark, finish, set_known, set_each, set_id, initialize,
}
use descarteslabs_python.Catalog.Model.Calls.{
  Service, Answer, Request, Method, post, patch, on_not_found, load, add_extra, send_object,
  save_as, save,
}
use descarteslabs_python.Catalog.Model.Invariant.{
  IsTracked, is_known, all_mono, SetTo-set_value, SetTo-set_attribute,
}
use descarteslabs_python.Catalog.Model.History.{check_deleted_live}

-- The class has an `id` that can be set when it has no value, and that is cleared on a load.
pub record HasId {T : Type 0} (types : Dict (Attribute T)) (id_type : Attribute T) : Type 0 where
  pub found : attribute_type types "id" ≡ ok id_type
  pub settable : id_type.readonly ≡ false
  pub cleared : id_type.sticky ≡ false

-- The service answers every request, with an id that the attribute `id` takes.
pub record Accepts {V T : Type 0} (values : Values V T) (id_type : Attribute T)
    (service : Service V) : Type 0 where
  pub answer : Request V → Answer V
  pub answers : (r : Request V) → service.send r ≡ ok (answer r)
  pub takes_id :
      (r : Request V) → validate_value values id_type.kind (answer r).id ≡ ok (answer r).id

is_some-some {ℓ} : {A : Type ℓ} (o : Option A) → is_some o ≡ true → (a : A) × (o ≡ some a)
is_some-some none h = absurd (false≢true h)
is_some-some (some a) h = (a, refl)

abbrev is_ok {ℓ} : {A : Type ℓ} → Result Error A → Bool
is_ok (ok a) = true
is_ok (err e) = false

is_ok-ok {ℓ} : {A : Type ℓ} (r : Result Error A) → is_ok r ≡ true → (a : A) × (r ≡ ok a)
is_ok-ok (ok a) h = (a, refl)
is_ok-ok (err e) h = absurd (false≢true h)

attribute_type_known :
    {T : Type 0} (types : Dict (Attribute T)) (name : String)
    → is_known types name ≡ true
    → (attr : Attribute T) × (attribute_type types name ≡ ok attr)
unfolding attribute_type
attribute_type_known types name k =
    let (a, e) = is_some-some (lookup name types) k in (a, rw e refl)

module _ {V : Type 0} where
  -- every name of a dictionary has a value
  all-names : (d : Dict V) → all (λ name. is_some (lookup name d)) (names d) ≡ true
  unfolding names lookup
  all-names [] = refl
  all-names ((name, v) ∷ d) =
      let rest =
        all_mono (λ n. is_some (lookup n d)) (λ n. is_some (lookup n ((name, v) ∷ d))) (names d)
          (λ n h. ground (arith, h)) (all-names d) in
      rw ((eq_iff name name).1 refl) rest

  lookup-if_sticky :
      (sticky : Bool) (name : String) (v : V) (kept : Dict V)
      → lookup "id" kept ≡ none
      → ((name == "id") ≡ true → sticky ≡ false)
      → lookup "id" (if sticky then (name, v) ∷ kept else kept) ≡ none
  unfolding lookup
  lookup-if_sticky false name v kept h k = h
  lookup-if_sticky true name v kept h k = elim (Bool-cases (name == "id")) [
    | inl e ↦ absurd (true≢false (k e))
    | inr e ↦ rw e h
  ]

module _ {V T : Type 0} (types : Dict (Attribute T)) where
  serialize_names_ok :
      (l : List String) (d : Dict V)
      → all (is_known types) l ≡ true
      → all (λ name. is_some (lookup name d)) l ≡ true
      → (s : Dict V) × (serialize_names types l d ≡ ok s)
  unfolding serialize_names
  serialize_names_ok [] d k h = ([], refl)
  serialize_names_ok (name ∷ rest) d k h =
      let (k1, k2) = both {x = is_known types name} k in
      let (h1, h2) = both {x = is_some (lookup name d)} h in
      let (attr, e) = attribute_type_known types name k1 in
      let (s, f) = serialize_names_ok rest d k2 h2 in
      let (v, g) = is_some-some (lookup name d) h1 in
      (if attr.serializable then (name, v) ∷ s else s, rw (g, e, f) refl)

  keep_sticky_ok :
      (d : Dict V)
      → all (is_known types) (names d) ≡ true
      → (id_type : Attribute T) (h : HasId types id_type)
      → (kept : Dict V) × ((keep_sticky types d ≡ ok kept) × (lookup "id" kept ≡ none))
  unfolding keep_sticky names
  keep_sticky_ok [] k id_type h = ([], (refl, refl))
  keep_sticky_ok ((name, v) ∷ d) k id_type h =
      let (k1, k2) = both {x = is_known types name} k in
      let (attr, e) = attribute_type_known types name k1 in
      let (kept, (f, g)) = keep_sticky_ok d k2 id_type h in
      (
        if attr.sticky then (name, v) ∷ kept else kept,
        (
          rw (e, f) refl,
          lookup-if_sticky attr.sticky name v kept g λ q.
              ap (λ a. a.sticky)
                (ok-injective
                  (sym e ∙ ap (attribute_type types) ((eq_iff name "id").0 q) ∙ h.found))
              ∙ h.cleared,
        ),
      )

module _ {V T : Type 0} (values : Values V T) (types : Dict (Attribute T)) where
  -- The object was not given a value with a check, so the assignment does not raise.
  set_value_unchecked :
      (attr : Attribute T) (name : String) (value : V) (obj : Object V)
      → is_known types name ≡ true
      → (o : Object V) × (set_value values types attr name value false obj ≡ ok o)
  unfolding set_value set_checked set_modified
  set_value_unchecked attr name value obj k =
      let (a, e) = attribute_type_known types name k in
      is_ok-ok (set_value values types attr name value false obj) (rw e refl)

  set_each_ok :
      (attributes : Dict V) (obj : Object V)
      → (o : Object V) × ((set_each values types true attributes obj ≡ (ok tt, o))
          × ((o.saved ≡ obj.saved) × (o.deleted ≡ obj.deleted)))
  unfolding set_each change settle set_known
  set_each_ok [] obj = (obj, (refl, (refl, refl)))
  set_each_ok ((name, value) ∷ rest) obj = elim (Option-cases (lookup name types)) [
    | inl e ↦ let (o, (p, f)) = set_each_ok rest obj in (o, (rw e p, f))
    | inr (attr, e) ↦
        let (x, q) = set_value_unchecked attr name value obj (rw e refl) in
        let s = SetTo-set_value values types attr name value false obj x q in
        let (o, (p, f)) = set_each_ok rest x in
        (o, (rw (e, q) p, (f.0 ∙ ap (λ y. y.saved) s.result, f.1 ∙ ap (λ y. y.deleted) s.result)))
  ]

  set_id_ok :
      (id_type : Attribute T) (h : HasId types id_type) (id : V) (obj : Object V)
      → validate_value values id_type.kind id ≡ ok id
      → lookup "id" obj.attributes ≡ none
      → (o : Object V) × (set_attribute values types "id" id obj ≡ ok o)
  unfolding set_attribute set_value set_checked set_modified raise_if_immutable_or_readonly
      has_attribute
  set_id_ok id_type h id obj v n =
      is_ok-ok (set_attribute values types "id" id obj) (elim (Bool-cases id_type.mutable) [
        | inl m ↦ rw (h.found, v, h.settable, n, m, v) refl
        | inr m ↦ rw (h.found, v, h.settable, n, m, v) refl
      ])

  -- A load of an answer whose id is taken returns, and leaves the object saved.
  initialize_saved :
      (id_type : Attribute T) (h : HasId types id_type) (id : V) (attributes : Dict V)
      (obj : Object V)
      → all (is_known types) (names obj.attributes) ≡ true
      → validate_value values id_type.kind id ≡ ok id
      → (o : Object V) × ((initialize values types (some id) true attributes obj ≡ (ok tt, o))
          × (state o ≡ saved_state))
  unfolding initialize change settle clear_modified clear_sticky mark set_id finish state
  initialize_saved id_type h id attributes obj k v =
      let (kept, (e, n)) = keep_sticky_ok types obj.attributes k id_type h in
      let marked : Object V = record {
        attributes = kept;
        modified = [];
        saved = true;
        deleted = false;
      } in
      let (x, p) = set_id_ok id_type h id marked v n in
      let s = SetTo-set_attribute values types "id" id marked x p in
      let (y, (q, (fs, fd))) = set_each_ok attributes x in
      (
        record y { modified = [] },
        (
          rw (e, p, q) refl,
          rw (fs, fd, ap (λ z. z.saved) s.result, ap (λ z. z.deleted) s.result) refl,
        ),
      )

  module _ (id_type : Attribute T) (h : HasId types id_type) (service : Service V)
      (accepts : Accepts values id_type service) where
    load_saved :
        (r : Request V) (obj : Object V)
        → all (is_known types) (names obj.attributes) ≡ true
        → (o : Object V) × ((load values types (service.send r) obj ≡ (ok tt, o))
            × (state o ≡ saved_state))
    unfolding load
    load_saved r obj k =
        let (o, (e, s)) =
          initialize_saved id_type h (accepts.answer r).id (accepts.answer r).attributes obj k
            (accepts.takes_id r) in
        (o, (rw (accepts.answers r) e, s))

    send_saved :
        (method : Method) (extra : Dict V) (modified_only : Bool) (obj : Object V)
        → IsTracked types obj
        → (o : Object V) × ((load values types
                (send_object service method extra (serialize types modified_only obj) obj)
                obj
              ≡ (ok tt, o))
            × (state o ≡ saved_state))
    unfolding send_object serialize
    send_saved method extra true obj i =
        let (d, e) =
          serialize_names_ok types obj.modified obj.attributes i.known_modified i.tracked in
        let request : Request V = record {
          method = method;
          id = lookup "id" obj.attributes;
          attributes = add_extra d extra;
        } in
        let (o, (f, s)) = load_saved request obj i.known in (o, (rw e f, s))
    send_saved method extra false obj i =
        let (d, e) =
          serialize_names_ok types (names obj.attributes) obj.attributes i.known
            (all-names obj.attributes) in
        let request : Request V = record {
          method = method;
          id = lookup "id" obj.attributes;
          attributes = add_extra d extra;
        } in
        let (o, (f, s)) = load_saved request obj i.known in (o, (rw e f, s))

    save_as_saved :
        (s : DocumentState) (extra : Dict V) (obj : Object V)
        → state obj ≡ s
        → IsTracked types obj
        → (o : Object V) × ((save_as values types service s extra obj ≡ (ok tt, o))
            × (state o ≡ saved_state))
    unfolding save_as
    save_as_saved saved_state [] obj e i = (obj, (refl, e))
    save_as_saved saved_state (x ∷ extra) obj e i = send_saved patch (x ∷ extra) true obj i
    save_as_saved unsaved_state extra obj e i = send_saved post extra false obj i
    save_as_saved modified_state extra obj e i = send_saved patch extra true obj i
    save_as_saved deleted_state extra obj e i = send_saved patch extra true obj i

    -- Where the class has an `id` that is neither readonly nor sticky, and the service answers every
    -- request, with an id that its type takes: a save of any object that is not deleted, and whose
    -- modified names are attributes with a value, returns and leaves the object in the state `SAVED`.
    pub save_reaches_saved :
        (extra : Dict V) (obj : Object V)
        → IsTracked types obj
        → obj.deleted ≡ false
        → (o : Object V) × ((save values types service extra obj ≡ (ok tt, o))
            × (state o ≡ saved_state))
    unfolding save on_not_found
    save_reaches_saved extra obj i d =
        let (o, (e, s)) = save_as_saved (state obj) extra obj refl i in
        (
          o,
          (
            check_deleted_live (λ x. save_as values types service (state x) extra x) obj d
                ∙ ap on_not_found e,
            s,
          ),
        )
