-- ===== src/Catalog/Model/Calls.antt =====
-- catalog_base.py: the calls that a deleted object refuses, and those that the service answers.
use descarteslabs_python.Prelude.{Bool, true, false, Option, some, [], ◌∷◌, if◌then◌else◌}
use descarteslabs_python.Python.Result.{Result, ok, err, bind, Action}
use descarteslabs_python.Python.Dict.{Dict, lookup, insert}
use descarteslabs_python.Catalog.Model.Attribute.{
  Error, value_error, not_found, deleted_object_error, unsaved_object_error, DocumentState,
  saved_state, unsaved_state, deleted_state, Values, Attribute, Object, state,
}
use descarteslabs_python.Catalog.Model.Object.{
  empty_object, serialize, initialize, update_attributes,
}

pub data Method : Type 0 where
  get post patch : Method

pub record Request (V : Type 0) : Type 0 where
  pub method : Method
  pub id : Option V
  pub attributes : Dict V

-- the `data` of an answer
pub record Answer (V : Type 0) : Type 0 where
  pub id : V
  pub attributes : Dict V

-- The service: what it answers to a request and to the deletion of an id.
pub record Service (V : Type 0) : Type 0 where
  pub send : Request V → Result Error (Answer V)
  pub delete : Option V → Result Error (Unit {0})

abbrev pub is_deleted_state : DocumentState → Bool
is_deleted_state deleted_state = true
is_deleted_state _ = false

module _ {V : Type 0} where
  -- the `except NotFoundError` of `check_deleted`
  unfoldable pub on_not_found :
      Result Error (Unit {0}) × Object V → Result Error (Unit {0}) × Object V
  on_not_found (err not_found, obj) = (err deleted_object_error, record obj { deleted = true })
  on_not_found (r, obj) = (r, obj)

  unfoldable pub check_deleted :
      Action (Object V) Error (Unit {0}) → Action (Object V) Error (Unit {0})
  unfolding on_not_found state
  check_deleted f obj =
      if is_deleted_state (state obj) then (err deleted_object_error, obj) else on_not_found (f obj)

  -- `json["data"]["attributes"].update(extra_attributes)`
  unfoldable pub add_extra : Dict V → Dict V → Dict V
  unfolding insert
  add_extra attributes [] = attributes
  add_extra attributes ((name, v) ∷ extra) = add_extra (insert name v attributes) extra

  abbrev is_empty : Dict V → Bool
  is_empty [] = true
  is_empty (a ∷ d) = false

  unfoldable pub deleted_after :
      Object V → Result Error (Unit {0}) → Result Error (Unit {0}) × Object V
  deleted_after obj (ok t) = (ok tt, record obj { deleted = true })
  deleted_after obj (err e) = (err e, obj)

module _ {V : Type 0} (service : Service V) where
  unfoldable pub send_object :
      Method → Dict V → Result Error (Dict V) → Object V → Result Error (Answer V)
  unfolding add_extra lookup
  send_object method extra serialized obj = bind serialized λ attributes. service.send record {
    method = method;
    id = lookup "id" obj.attributes;
    attributes = add_extra attributes extra;
  }

  unfoldable pub delete_as : DocumentState → Action (Object V) Error (Unit {0})
  unfolding deleted_after lookup
  delete_as unsaved_state obj = (err unsaved_object_error, obj)
  delete_as _ obj = deleted_after obj (service.delete (lookup "id" obj.attributes))

  -- `_instance_delete`
  unfoldable pub instance_delete : Action (Object V) Error (Unit {0})
  unfolding check_deleted delete_as state
  instance_delete = check_deleted λ obj. delete_as (state obj) obj

module _ {V T : Type 0} (values : Values V T) (types : Dict (Attribute T)) where
  unfoldable pub update : Bool → Dict V → Action (Object V) Error (Unit {0})
  unfolding check_deleted update_attributes
  update ignore_errors attributes =
      check_deleted (update_attributes values types ignore_errors attributes)

  -- The object after an answer.
  unfoldable pub load : Result Error (Answer V) → Action (Object V) Error (Unit {0})
  unfolding initialize
  load (ok answer) obj = initialize values types (some answer.id) true answer.attributes obj
  load (err e) obj = (err e, obj)

  -- the constructor
  unfoldable pub new_object : Option V → Dict V → Result Error (Unit {0}) × Object V
  unfolding initialize
  new_object id attributes = initialize values types id false attributes empty_object

module _ {V T : Type 0} (values : Values V T) (types : Dict (Attribute T))
    (service : Service V) where
  unfoldable pub save_as : DocumentState → Dict V → Action (Object V) Error (Unit {0})
  unfolding load send_object serialize
  save_as saved_state [] obj = (ok tt, obj)
  save_as unsaved_state extra obj =
      load values types (send_object service post extra (serialize types false obj) obj) obj
  save_as _ extra obj =
      load values types (send_object service patch extra (serialize types true obj) obj) obj

  unfoldable pub save : Dict V → Action (Object V) Error (Unit {0})
  unfolding check_deleted save_as state
  save extra = check_deleted λ obj. save_as (state obj) extra obj

  unfoldable pub reload_as : DocumentState → Action (Object V) Error (Unit {0})
  unfolding load lookup
  reload_as saved_state obj =
      load values types
        (service.send record { method = get; id = lookup "id" obj.attributes; attributes = [] }) obj
  reload_as _ obj = (err value_error, obj)

  unfoldable pub reload : Action (Object V) Error (Unit {0})
  unfolding check_deleted reload_as state
  reload = check_deleted λ obj. reload_as (state obj) obj
