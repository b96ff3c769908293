-- ===== src/Dotdict/Methods.antt =====
-- The methods of `DotDict` and `DotList`, and a method that is called at the end of a chain such as
-- `d.a[0].b`.
use descarteslabs_python.Prelude.{ℕ, String, true, Option, none, some, List, [], ◌∷◌}
use descarteslabs_python.Python.Number.{ℤ}
use descarteslabs_python.Python.Result.{Result, ok, err}
use descarteslabs_python.Dotdict.{
  other, Error, key_error, attribute_error, index_error, type_error, Value, dict, list, Fields, end,
  field, Items, nil, cons, Answer, nothing, value, pair, pairs, elements, box, get_field, put_field,
  remove_field, split_last, find_item, put_at, remove_at,
}

pub data DictMethod : Type 0 where
  get_item get_attribute delete_attribute : String → DictMethod
  set_attribute get set_default : String → Value → DictMethod
  pop : String → Option Value → DictMethod
  pop_item items : DictMethod

pub data ListMethod : Type 0 where
  get_index pop_index : ℤ → ListMethod
  iterate : ListMethod

abbrev pub Outcome : Type 0 → Type 0
Outcome S = Result Error Answer × S

-- `self[key]`, which puts the boxed value back
unfoldable pub boxed_field : Error → String → Fields → Option Value → Outcome Fields
unfolding box put_field
boxed_field e k fields none = (err e, fields)
boxed_field e k fields (some v) = (ok (value (box v)), put_field k (box v) fields)

unfoldable pub boxed_default : String → Value → Fields → Option Value → Outcome Fields
unfolding boxed_field box
boxed_default k default fields none = (ok (value (box default)), fields)
boxed_default k default fields (some v) = boxed_field key_error k fields (some v)

unfoldable pub stored_default : String → Value → Fields → Option Value → Outcome Fields
unfolding boxed_field box put_field
stored_default k default fields none = (ok (value (box default)), put_field k (box default) fields)
stored_default k default fields (some v) = boxed_field key_error k fields (some v)

unfoldable pub deleted_field : String → Fields → Option Value → Outcome Fields
unfolding remove_field
deleted_field k fields none = (err attribute_error, fields)
deleted_field k fields (some v) = (ok nothing, remove_field k fields)

-- `None`, which `pop` takes for a default that is not given
unfoldable pub default_of : Option Value → Value
default_of none = other "None"
default_of (some default) = default

-- `dict.pop(self, key, default)`, whose default is always given
unfoldable pub popped_field : String → Value → Fields → Option Value → Outcome Fields
unfolding remove_field box
popped_field k default fields none = (ok (value (box default)), fields)
popped_field k default fields (some v) = (ok (value (box v)), remove_field k fields)

unfoldable pub popped_last : Option ((String × Value) × Fields) → Outcome Fields
unfolding box
popped_last none = (err key_error, end)
popped_last (some ((k, v), before)) = (ok (pair k (box v)), before)

-- `DotDict_view.__iter__`, read to its end
unfoldable pub box_fields : Fields → Fields
unfolding box
box_fields end = end
box_fields (field k v fields) = field k (box v) (box_fields fields)

unfoldable pub call_dict : DictMethod → Fields → Outcome Fields
unfolding boxed_field boxed_default stored_default deleted_field popped_field default_of popped_last
    box_fields get_field put_field split_last
call_dict (get_item k) fields = boxed_field key_error k fields (get_field k fields)
call_dict (get_attribute k) fields = boxed_field attribute_error k fields (get_field k fields)
call_dict (delete_attribute k) fields = deleted_field k fields (get_field k fields)
call_dict (set_attribute k v) fields = (ok nothing, put_field k v fields)
call_dict (get k default) fields = boxed_default k default fields (get_field k fields)
call_dict (pop k default) fields = popped_field k (default_of default) fields (get_field k fields)
call_dict (set_default k default) fields = stored_default k default fields (get_field k fields)
call_dict pop_item fields = popped_last (split_last fields)
call_dict items fields = (ok (pairs (box_fields fields)), box_fields fields)

unfoldable pub boxed_item : Items → Option (ℕ × Value) → Outcome Items
unfolding box put_at
boxed_item xs none = (err index_error, xs)
boxed_item xs (some (p, v)) = (ok (value (box v)), put_at p (box v) xs)

unfoldable pub popped_at : Items → Option (ℕ × Value) → Outcome Items
unfolding box remove_at
popped_at xs none = (err index_error, xs)
popped_at xs (some (p, v)) = (ok (value (box v)), remove_at p xs)

-- `DotList.__iter__`, read to its end
unfoldable pub box_items : Items → Items
unfolding box
box_items nil = nil
box_items (cons v xs) = cons (box v) (box_items xs)

unfoldable pub call_list : ListMethod → Items → Outcome Items
unfolding boxed_item popped_at box_items find_item
call_list (get_index i) xs = boxed_item xs (find_item i xs)
call_list (pop_index i) xs = popped_at xs (find_item i xs)
call_list iterate xs = (ok (elements (box_items xs)), box_items xs)

pub data Method : Type 0 where
  of_dict : DictMethod → Method
  of_list : ListMethod → Method

pub data Step : Type 0 where
  attribute : String → Step
  index : ℤ → Step

-- A method or a step that the value does not have is taken to raise a `TypeError`.
unfoldable pub call_on : Method → Value → Outcome Value
unfolding call_dict call_list
call_on (of_dict m) (dict true fields) = ((call_dict m fields).0, dict true (call_dict m fields).1)
call_on (of_list m) (list true xs) = ((call_list m xs).0, list true (call_list m xs).1)
call_on m v = (err type_error, v)

-- The value that `self[key]` returns is the one that it has put back, so that what changes it changes
-- the container.
unfoldable pub in_field : (Value → Outcome Value) → String → Fields → Option Value → Outcome Value
unfolding box put_field
in_field next k fields none = (err attribute_error, dict true fields)
in_field next k fields (some v) =
    ((next (box v)).0, dict true (put_field k (next (box v)).1 fields))

unfoldable pub in_item : (Value → Outcome Value) → Items → Option (ℕ × Value) → Outcome Value
unfolding box put_at
in_item next xs none = (err index_error, list true xs)
in_item next xs (some (p, v)) = ((next (box v)).0, list true (put_at p (next (box v)).1 xs))

unfoldable pub at_step : Step → (Value → Outcome Value) → Value → Outcome Value
unfolding in_field in_item get_field find_item
at_step (attribute k) next (dict true fields) = in_field next k fields (get_field k fields)
at_step (index i) next (list true xs) = in_item next xs (find_item i xs)
at_step step next v = (err type_error, v)

unfoldable pub call_at : List Step → Method → Value → Outcome Value
unfolding at_step call_on
call_at [] m v = call_on m v
call_at (step ∷ path) m v = at_step step (call_at path m) v
