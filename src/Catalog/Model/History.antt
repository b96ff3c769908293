-- ===== src/Catalog/Model/History.antt =====
-- catalog_base.py: the calls on an object, in any order.
use mathlib.Core.Bool.{true≢false}
use descarteslabs_python.Prelude.{
  String, ◌≡◌, refl, sym, ap, ◌∙◌, inl, inr, Bool, true, false, some, List, [], ◌∷◌, all, both,
  arith, if◌then◌else◌,
}
use descarteslabs_python.Python.Result.{
  Result, ok, err, Result-cases, Action, bind-ok, ok-injective,
}
use descarteslabs_python.Python.Dict.{Dict}
use descarteslabs_python.Catalog.Model.Attribute.{
  Error, not_found, deleted_object_error, DocumentState, saved_state, modified_state, unsaved_state,
  deleted_state, Values, Attribute, Object, state, set_attribute, delete_attribute, attribute_type,
  raise_if_immutable_or_readonly,
}
use descarteslabs_python.Catalog.Model.Object.{
  settle, change, is_caught, on_error, after_set, update_each, update_attributes,
}
use descarteslabs_python.Catalog.Model.Calls.{
  Service, Answer, check_deleted, on_not_found, is_deleted_state, update, load, save_as, save,
  reload_as, reload, deleted_after, delete_as, instance_delete,
}
use descarteslabs_python.Catalog.Model.Invariant.{
  IsTracked, Tracks, Tracks-SetTo, SetTo, SetTo-set_attribute,
}
use descarteslabs_python.Catalog.Model.Loading.{
  Tracks-refl, Tracks-trans, Tracking, Tracking-change, Tracks-initialize,
}

-- A call on an object, with the service as it answers that call. `removes` is `del obj.name`.
pub data Call (V : Type 0) : Type 0 where
  sets : String → V → Call V
  removes : String → Call V
  updates : Bool → Dict V → Call V
  saves : Service V → Dict V → Call V
  reloads deletes : Service V → Call V

abbrev pub is_no_removal : {V : Type 0} → Call V → Bool
is_no_removal (removes name) = false
is_no_removal c = true

-- What a call keeps that is no removal.
pub record Keeps {V T : Type 0} (types : Dict (Attribute T)) (obj o : Object V) : Type 0 where
  pub tracks : Tracks types obj o
  pub deleted : obj.deleted ≡ true → o.deleted ≡ true

-- What calls keep, and what they keep if there is no removal among them.
pub record Lasts {V T : Type 0} (types : Dict (Attribute T)) (no_removal : Bool) (obj o : Object V)
    : Type 0 where
  pub saved : obj.saved ≡ true → o.saved ≡ true
  pub deleted : obj.deleted ≡ true → o.deleted ≡ true
  pub tracked : no_removal ≡ true → IsTracked types obj → IsTracked types o

lasting :
    {V T : Type 0} {types : Dict (Attribute T)} (obj o : Object V)
    → Keeps types obj o
    → Lasts types true obj o
lasting obj o k = record {
  saved = k.tracks.saved;
  deleted = k.deleted;
  tracked = λ n. k.tracks.tracked;
}

module _ {V : Type 0} where
  is_deleted_state-state : (obj : Object V) → is_deleted_state (state obj) ≡ obj.deleted
  unfolding state
  is_deleted_state-state obj = ground arith

  pub check_deleted_live :
      (f : Action (Object V) Error (Unit {0})) (obj : Object V)
      → obj.deleted ≡ false
      → check_deleted f obj ≡ on_not_found (f obj)
  unfolding check_deleted
  check_deleted_live f obj e =
      ap (λ b. if b then (err deleted_object_error, obj) else on_not_found (f obj))
        (is_deleted_state-state obj ∙ e)

module _ {V T : Type 0} (types : Dict (Attribute T)) where
  Tracks-deleted :
      (obj o : Object V) → Tracks types obj o → Tracks types obj (record o { deleted = true })
  Tracks-deleted obj o t = record {
    tracked = λ i.
        let j = t.tracked i in
        record { known = j.known; known_modified = j.known_modified; tracked = j.tracked };
    saved = t.saved;
  }

  Tracks-on_not_found :
      (obj : Object V) (r : Result Error (Unit {0})) (o : Object V)
      → Tracks types obj o
      → Tracks types obj (on_not_found (r, o)).1
  unfolding on_not_found
  Tracks-on_not_found obj (err not_found) o t = Tracks-deleted obj o t
  Tracks-on_not_found obj _ o t = t

  Keeps-refl : (obj : Object V) → Keeps types obj obj
  Keeps-refl obj = record { tracks = Tracks-refl types obj; deleted = λ d. d }

  Keeps-check_deleted :
      (f : Action (Object V) Error (Unit {0})) (obj : Object V)
      → Tracks types obj (f obj).1
      → Keeps types obj (check_deleted f obj).1
  unfolding check_deleted
  Keeps-check_deleted f obj t =
      choose (is_deleted_state (state obj)) (sym (is_deleted_state-state obj))
    where
      choose :
          (b : Bool)
          → obj.deleted ≡ b
          → Keeps types obj (if b then (err deleted_object_error, obj) else on_not_found (f obj)).1
      choose true e = Keeps-refl obj
      choose false e = record {
        tracks = Tracks-on_not_found obj (f obj).0 (f obj).1 t;
        deleted = λ d. absurd (true≢false (sym d ∙ e));
      }

  Tracks-on_error :
      (ignore : Bool) (original obj : Object V) (e : Error)
      (next : Result Error (Unit {0}) × Object V)
      → Tracks types original obj
      → Tracks types original next.1
      → Tracks types original (on_error ignore original obj e next).1
  unfolding on_error
  Tracks-on_error ignore original obj e next t n = choose (is_caught e) ignore
    where
      restored : Object V
      restored = record obj { attributes = original.attributes; modified = original.modified }

      choose :
          (c i : Bool)
          → Tracks types original
              (if c then (if i then next else (err e, restored)) else (err e, obj)).1
      choose false i = t
      choose true true = n
      choose true false = record {
        tracked =
            λ i. record { known = i.known; known_modified = i.known_modified; tracked = i.tracked };
        saved = t.saved;
      }

  Tracks-after_set :
      (ignore : Bool) (original obj : Object V) (name : String) (r : Result Error (Object V))
      (next : Action (Object V) Error (Unit {0}))
      → ((o : Object V) → r ≡ ok o → SetTo types name obj o)
      → ((o : Object V) → Tracks types original o → Tracks types original (next o).1)
      → Tracks types original obj
      → Tracks types original (after_set ignore original obj r next).1
  unfolding after_set
  Tracks-after_set ignore original obj name (ok o) next h k t =
      k o (Tracks-trans types original obj o t (Tracks-SetTo types name obj o (h o refl)))
  Tracks-after_set ignore original obj name (err e) next h k t =
      Tracks-on_error ignore original obj e (next obj) t (k obj t)

  Tracks-deleted_after :
      (obj : Object V) (r : Result Error (Unit {0})) → Tracks types obj (deleted_after obj r).1
  unfolding deleted_after
  Tracks-deleted_after obj (ok t) = Tracks-deleted obj obj (Tracks-refl types obj)
  Tracks-deleted_after obj (err e) = Tracks-refl types obj

  Tracks-delete_as :
      (service : Service V) (s : DocumentState) (obj : Object V)
      → Tracks types obj (delete_as service s obj).1
  unfolding delete_as
  Tracks-delete_as service unsaved_state obj = Tracks-refl types obj
  Tracks-delete_as service saved_state obj = Tracks-deleted_after obj _
  Tracks-delete_as service modified_state obj = Tracks-deleted_after obj _
  Tracks-delete_as service deleted_state obj = Tracks-deleted_after obj _

module _ {V T : Type 0} (values : Values V T) (types : Dict (Attribute T)) where
  Tracks-update_each :
      (ignore : Bool) (original : Object V) (attributes : Dict V) (obj : Object V)
      → Tracks types original obj
      → Tracks types original (update_each values types ignore original attributes obj).1
  unfolding update_each
  Tracks-update_each ignore original [] obj t = t
  Tracks-update_each ignore original ((name, value) ∷ rest) obj t =
      Tracks-after_set types ignore original obj name (set_attribute values types name value obj) _
        (λ o. SetTo-set_attribute values types name value obj o)
        (Tracks-update_each ignore original rest) t

  Tracks-load :
      (r : Result Error (Answer V)) (obj : Object V) → Tracks types obj (load values types r obj).1
  unfolding load
  Tracks-load (ok answer) obj =
      Tracks-initialize values types (some answer.id) true answer.attributes obj (λ s. refl)
  Tracks-load (err e) obj = Tracks-refl types obj

  Tracks-set :
      (name : String) (value : V) → Tracking types (change (set_attribute values types name value))
  Tracks-set name value =
      Tracking-change types (set_attribute values types name value) λ obj o e.
        Tracks-SetTo types name obj o (SetTo-set_attribute values types name value obj o e)

  deleted_set :
      (name : String) (value : V) (obj : Object V)
      → (change (set_attribute values types name value) obj).1.deleted ≡ obj.deleted
  unfolding change settle
  deleted_set name value obj = elim (Result-cases (set_attribute values types name value obj)) [
    | inl (o, e) ↦
        let s = SetTo-set_attribute values types name value obj o e in
        rw e (ap (λ x. x.deleted) s.result)
    | inr (x, e) ↦ rw e refl
  ]

  module _ (service : Service V) where
    Tracks-save_as :
        (s : DocumentState) (extra : Dict V) (obj : Object V)
        → Tracks types obj (save_as values types service s extra obj).1
    unfolding save_as
    Tracks-save_as saved_state [] obj = Tracks-refl types obj
    Tracks-save_as saved_state (x ∷ extra) obj = Tracks-load _ obj
    Tracks-save_as unsaved_state extra obj = Tracks-load _ obj
    Tracks-save_as modified_state extra obj = Tracks-load _ obj
    Tracks-save_as deleted_state extra obj = Tracks-load _ obj

    Tracks-reload_as :
        (s : DocumentState) (obj : Object V)
        → Tracks types obj (reload_as values types service s obj).1
    unfolding reload_as
    Tracks-reload_as saved_state obj = Tracks-load _ obj
    Tracks-reload_as unsaved_state obj = Tracks-refl types obj
    Tracks-reload_as modified_state obj = Tracks-refl types obj
    Tracks-reload_as deleted_state obj = Tracks-refl types obj

  -- the outcome of a call
  unfoldable pub call : Call V → Action (Object V) Error (Unit {0})
  unfolding change set_attribute delete_attribute update save reload instance_delete
  call (sets name value) = change (set_attribute values types name value)
  call (removes name) = change (delete_attribute types name)
  call (updates ignore attributes) = update values types ignore attributes
  call (saves service extra) = save values types service extra
  call (reloads service) = reload values types service
  call (deletes service) = instance_delete service

  -- the object after a list of calls, whose exceptions are caught
  unfoldable pub history : List (Call V) → Object V → Object V
  unfolding call
  history [] obj = obj
  history (c ∷ calls) obj = history calls (call c obj).1

  Lasts-removes :
      (name : String) (obj : Object V)
      → Lasts types false obj (change (delete_attribute types name) obj).1
  unfolding change settle delete_attribute
  Lasts-removes name obj = elim (Result-cases (delete_attribute types name obj)) [
    | inr (x, e) ↦ rw e (record { saved = λ d. d; deleted = λ d. d; tracked = λ n. absurd (cc n) })
    | inl (o, e) ↦
        let (attr, (p, e1)) = bind-ok (attribute_type types name) _ e in
        let (t, (q, e2)) = bind-ok (raise_if_immutable_or_readonly attr name obj) _ e1 in
        let same = ok-injective e2 in
        rw e (record {
          saved = λ d. ap (λ x. x.saved) (sym same) ∙ d;
          deleted = λ d. ap (λ x. x.deleted) (sym same) ∙ d;
          tracked = λ n. absurd (cc n);
        })
  ]

  Lasts-call : (c : Call V) (obj : Object V) → Lasts types (is_no_removal c) obj (call c obj).1
  unfolding call update update_attributes save reload instance_delete
  Lasts-call (removes name) obj = Lasts-removes name obj
  Lasts-call (sets name value) obj =
      lasting obj _ (record {
        tracks = Tracks-set name value obj;
        deleted = λ d. deleted_set name value obj ∙ d;
      })
  Lasts-call (updates ignore attributes) obj = lasting obj _ (
      Keeps-check_deleted types (update_attributes values types ignore attributes) obj
        (Tracks-update_each ignore obj attributes obj (Tracks-refl types obj)))
  Lasts-call (saves service extra) obj = lasting obj _ (
      Keeps-check_deleted types (λ o. save_as values types service (state o) extra o) obj
        (Tracks-save_as service (state obj) extra obj))
  Lasts-call (reloads service) obj = lasting obj _ (
      Keeps-check_deleted types (λ o. reload_as values types service (state o) o) obj
        (Tracks-reload_as service (state obj) obj))
  Lasts-call (deletes service) obj = lasting obj _ (
      Keeps-check_deleted types (λ o. delete_as service (state o) o) obj
        (Tracks-delete_as types service (state obj) obj))

  -- Whatever the calls and what the service answers at each of them: an object that was saved never
  -- becomes unsaved again, and one that was deleted stays deleted. When none of the calls is
  -- `del obj.name`: if the modified names, and those that have a value, are attributes of the class and
  -- the modified ones have a value, they still are and do.
  pub Lasts-history :
      (calls : List (Call V)) (obj : Object V)
      → Lasts types (all is_no_removal calls) obj (history calls obj)
  unfolding history
  Lasts-history [] obj = record { saved = λ d. d; deleted = λ d. d; tracked = λ n i. i }
  Lasts-history (c ∷ calls) obj =
      let first = Lasts-call c obj in
      let rest = Lasts-history calls (call c obj).1 in
      record {
        saved = λ d. rest.saved (first.saved d);
        deleted = λ d. rest.deleted (first.deleted d);
        tracked = λ n i.
            let (here, later) = both {x = is_no_removal c} n in
            rest.tracked later (first.tracked here i);
      }
