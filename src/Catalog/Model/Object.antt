-- ===== src/Catalog/Model/Object.antt =====
-- catalog_base.py: serialization, `_initialize` and `update` of an object. References to other
-- objects and attributes of other classes are left out.
use descarteslabs_python.Prelude.{
  String, Bool, true, false, not, Option, none, some, List, [], ◌∷◌, if◌then◌else◌,
}
use descarteslabs_python.Python.Result.{Result, ok, err, bind, Action, pure, ◌>>◌}
use descarteslabs_python.Python.Dict.{Dict, lookup}
use descarteslabs_python.Catalog.Model.Attribute.{
  Error, attribute_error, validation_error, key_error, Values, Attribute, Object, attribute_type,
  set_value, set_attribute,
}

-- the names of a dictionary
unfoldable pub names {ℓ} : {V : Type ℓ} → Dict V → List String
names [] = []
names ((name, v) ∷ d) = name ∷ names d

module _ {V : Type 0} where
  -- The end of a step: its object, or the exception and the object as it was.
  unfoldable pub settle : Object V → Result Error (Object V) → Result Error (Unit {0}) × Object V
  settle obj (ok o) = (ok tt, o)
  settle obj (err e) = (err e, obj)

  unfoldable pub change : (Object V → Result Error (Object V)) → Action (Object V) Error (Unit {0})
  unfolding settle
  change f obj = settle obj (f obj)

  unfoldable pub clear_modified : Object V → Result Error (Object V)
  clear_modified obj = ok record obj { modified = [] }

  unfoldable pub mark : Bool → Object V → Result Error (Object V)
  mark saved obj = ok record obj { saved = saved; deleted = false }

  -- at the end, for data of the service
  unfoldable pub finish : Bool → Object V → Result Error (Object V)
  finish saved obj = ok (if saved then record obj { modified = [] } else obj)

  unfoldable pub empty_object : Object V
  empty_object = record { attributes = []; modified = []; saved = false; deleted = false }

module _ {V T : Type 0} (types : Dict (Attribute T)) where
  value_of : Option V → Result Error V
  value_of none = err key_error
  value_of (some v) = ok v

  -- `_serialize`; the value of an attribute of either class is serialized as it is.
  unfoldable pub serialize_names : List String → Dict V → Result Error (Dict V)
  unfolding value_of attribute_type lookup
  serialize_names [] d = ok []
  serialize_names (name ∷ rest) d =
      let more = serialize_names rest d in
      bind (value_of (lookup name d)) λ v. bind (attribute_type types name) λ attr.
        bind more
          λ serialized. ok (if attr.serializable then (name, v) ∷ serialized else serialized)

  unfoldable pub serialize : Bool → Object V → Result Error (Dict V)
  unfolding serialize_names names
  serialize modified_only obj =
      serialize_names (if modified_only then obj.modified else names obj.attributes) obj.attributes

  -- the sticky attributes
  unfoldable pub keep_sticky : Dict V → Result Error (Dict V)
  unfolding attribute_type
  keep_sticky [] = ok []
  keep_sticky ((name, v) ∷ d) =
      let more = keep_sticky d in
      bind (attribute_type types name)
        λ attr. bind more λ kept. ok (if attr.sticky then (name, v) ∷ kept else kept)

  unfoldable pub clear_sticky : Object V → Result Error (Object V)
  unfolding keep_sticky
  clear_sticky obj = bind (keep_sticky obj.attributes) λ kept. ok record obj { attributes = kept }

-- the exceptions that `update` handles
abbrev pub is_caught : Error → Bool
is_caught attribute_error = true
is_caught validation_error = true
is_caught _ = false

module _ {V : Type 0} where
  -- An exception at one of the values: `next` goes on to the others.
  unfoldable pub on_error :
      Bool
      → Object V
      → Object V
      → Error
      → Result Error (Unit {0}) × Object V
      → Result Error (Unit {0}) × Object V
  on_error ignore_errors original obj e next =
      if is_caught e
      then (if ignore_errors then next else (
        err e,
        record obj { attributes = original.attributes; modified = original.modified },
      ))
      else (err e, obj)

  -- one of the values, and then the others
  unfoldable pub after_set :
      Bool
      → Object V
      → Object V
      → Result Error (Object V)
      → Action (Object V) Error (Unit {0})
      → Result Error (Unit {0}) × Object V
  unfolding on_error
  after_set ignore_errors original obj (ok o) next = next o
  after_set ignore_errors original obj (err e) next =
      on_error ignore_errors original obj e (next obj)

module _ {V T : Type 0} (values : Values V T) (types : Dict (Attribute T)) where
  -- An unknown attribute of the service's data is passed over.
  unfoldable pub set_known :
      Bool → Option (Attribute T) → String → V → Object V → Result Error (Object V)
  unfolding set_value
  set_known saved (some attr) name value obj =
      set_value values types attr name value (not saved) obj
  set_known true none name value obj = ok obj
  set_known false none name value obj = err attribute_error

  unfoldable pub set_each : Bool → Dict V → Action (Object V) Error (Unit {0})
  unfolding set_known change lookup
  set_each saved [] = pure tt
  set_each saved ((name, value) ∷ rest) =
      change (set_known saved (lookup name types) name value) >> set_each saved rest

  unfoldable pub set_id : Option V → Action (Object V) Error (Unit {0})
  unfolding change set_attribute
  set_id none = pure tt
  set_id (some id) = change (set_attribute values types "id" id)

  unfoldable pub initialize : Option V → Bool → Dict V → Action (Object V) Error (Unit {0})
  unfolding change clear_modified clear_sticky mark set_id set_each finish
  initialize id saved attributes = do
    change (clear_modified)
    change (clear_sticky types)
    change (mark saved)
    set_id id
    set_each saved attributes
    change (finish saved)

  unfoldable pub update_each : Bool → Object V → Dict V → Action (Object V) Error (Unit {0})
  unfolding after_set set_attribute
  update_each ignore_errors original [] obj = (ok tt, obj)
  update_each ignore_errors original ((name, value) ∷ rest) obj =
      let next = update_each ignore_errors original rest in
      after_set ignore_errors original obj (set_attribute values types name value obj) next

  -- `update` below its decorator
  unfoldable pub update_attributes : Bool → Dict V → Action (Object V) Error (Unit {0})
  unfolding update_each
  update_attributes ignore_errors attributes obj = update_each ignore_errors obj attributes obj
