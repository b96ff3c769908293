-- ===== src/Catalog/Model/Attribute.antt =====
-- attributes.py: `DocumentState`, `Attribute` and `TypedAttribute`, on the attributes of one object.
-- Python's values and their types are parameters.
use descarteslabs_python.Prelude.{
  String, Bool, true, false, not, ◌&&◌, Option, none, some, List, [], ◌∷◌, ◌++◌, contains,
  if◌then◌else◌,
}
use descarteslabs_python.Python.Result.{Result, ok, err, bind}
use descarteslabs_python.Python.Dict.{Dict, lookup, insert, remove}

-- `other_error` is an exception that the module does not know, `not_found` and `service_error` are
-- the service's.
pub data Error : Type 0 where
  attribute_error validation_error value_error key_error other_error : Error
  not_found service_error deleted_object_error unsaved_object_error : Error

pub data DocumentState : Type 0 where
  saved_state modified_state unsaved_state deleted_state : DocumentState

-- What is asked of a value: `==`, `is None`, `isinstance`, and the call of a type on it.
pub record Values (V T : Type 0) : Type 0 where
  pub eq : V → V → Bool
  pub is_none : V → Bool
  pub is_instance : T → V → Bool
  pub convert : T → V → Result Error V

-- The class of an attribute: `Attribute`, or `TypedAttribute` with its type and `coerce`.
pub data Kind (T : Type 0) : Type 0 where
  plain : Kind T
  typed : T → Bool → Kind T

pub record Attribute (T : Type 0) : Type 0 where
  pub mutable : Bool
  pub serializable : Bool
  pub sticky : Bool
  pub readonly : Bool
  pub kind : Kind T

-- The object that the attributes are on: `_attributes`, `_modified`, `_saved` and `_deleted`.
pub record Object (V : Type 0) : Type 0 where
  pub attributes : Dict V
  pub modified : List String
  pub saved : Bool
  pub deleted : Bool

abbrev pub is_some {ℓ} : {A : Type ℓ} → Option A → Bool
is_some none = false
is_some (some a) = true

unfoldable pub has_attribute : {V : Type 0} → String → Object V → Bool
unfolding lookup
has_attribute name obj = is_some (lookup name obj.attributes)

-- `_modified.add(name)`
unfoldable pub add_name : String → List String → List String
add_name name names = if contains names name then names else names ++ name ∷ []

unfoldable pub attribute_type :
    {T : Type 0} → Dict (Attribute T) → String → Result Error (Attribute T)
unfolding lookup
attribute_type types name = found (lookup name types)
  where
    found : {A : Type 0} → Option A → Result Error A
    found none = err attribute_error
    found (some a) = ok a

module _ {V T : Type 0} where
  unfoldable pub raise_if_immutable_or_readonly :
      Attribute T → String → Object V → Result Error (Unit {0})
  unfolding has_attribute
  raise_if_immutable_or_readonly attr name obj =
      if attr.readonly
      then err validation_error
      else if not attr.mutable && has_attribute name obj
      then err validation_error
      else ok tt

  -- `CatalogObjectBase._set_modified`
  unfoldable pub set_modified :
      Dict (Attribute T) → String → Bool → Bool → Object V → Result Error (Object V)
  unfolding attribute_type raise_if_immutable_or_readonly add_name
  set_modified types name changed validate obj = bind (attribute_type types name) λ attr.
      bind (if validate then raise_if_immutable_or_readonly attr name obj else ok tt)
        λ _. ok (if changed then record obj { modified = add_name name obj.modified } else obj)

-- A failed call of the type: only a `ValueError` is translated.
converted : {V : Type 0} → Result Error V → Result Error V
converted (ok v) = ok v
converted (err value_error) = err validation_error
converted (err e) = err e

module _ {V T : Type 0} (values : Values V T) where
  unfoldable pub validate_value : Kind T → V → Result Error V
  unfolding converted
  validate_value plain value = ok value
  validate_value (typed type coerce) value =
      if values.is_none value
      then ok value
      else if coerce
      then converted (values.convert type value)
      else if values.is_instance type value
      then ok value
      else err validation_error

  is_same : Option V → V → Bool
  is_same none value = false
  is_same (some old) value = values.eq old value

  unfoldable pub is_changed : String → V → Object V → Bool
  unfolding is_same lookup
  is_changed name value obj = not (is_same (lookup name obj.attributes) value)

  -- `Attribute.__set__`, whose `deserialize` validates the value of a typed attribute once more
  unfoldable pub set_checked :
      Dict (Attribute T) → Attribute T → String → V → Bool → Object V → Result Error (Object V)
  unfolding raise_if_immutable_or_readonly validate_value set_modified is_changed insert
  set_checked types attr name value validate obj =
      bind (if validate then raise_if_immutable_or_readonly attr name obj else ok tt) λ _.
        bind (if validate then validate_value attr.kind value else ok value) λ v.
          bind (set_modified types name (is_changed name v obj) validate obj)
            λ o. ok record o { attributes = insert name v o.attributes }

  -- `TypedAttribute.__set__`
  unfoldable pub set_value :
      Dict (Attribute T) → Attribute T → String → V → Bool → Object V → Result Error (Object V)
  unfolding validate_value set_checked
  set_value types attr name value validate obj =
      bind (if validate then validate_value attr.kind value else ok value)
        λ v. set_checked types attr name v validate obj

  -- `obj.name = value`
  unfoldable pub set_attribute :
      Dict (Attribute T) → String → V → Object V → Result Error (Object V)
  unfolding attribute_type set_value
  set_attribute types name value obj =
      bind (attribute_type types name) λ attr. set_value types attr name value true obj

module _ {V T : Type 0} where
  -- `del obj.name`, which leaves `_modified` as it is
  unfoldable pub delete_attribute : Dict (Attribute T) → String → Object V → Result Error (Object V)
  unfolding attribute_type raise_if_immutable_or_readonly remove
  delete_attribute types name obj = bind (attribute_type types name) λ attr.
      bind (raise_if_immutable_or_readonly attr name obj)
        λ _. ok record obj { attributes = remove name obj.attributes }

unfoldable pub is_modified : {V : Type 0} → Object V → Bool
is_modified obj = any_name obj.modified
  where
    any_name : List String → Bool
    any_name [] = false
    any_name (name ∷ names) = true

-- `CatalogObjectBase.state`
unfoldable pub state : {V : Type 0} → Object V → DocumentState
unfolding is_modified
state obj =
    if obj.deleted
    then deleted_state
    else if not obj.saved
    then unsaved_state
    else if is_modified obj
    then modified_state
    else saved_state
