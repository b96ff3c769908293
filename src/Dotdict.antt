-- ===== src/Dotdict.antt =====
-- `DotDict` and `DotList` of common/dotdict/dotdict.py. A value is a tree: a container is the only
-- one that holds its values, and what an expression such as `d.a[0].b` reaches is a path in it.
-- Slices of a DotList are left out.
pub mod Methods
pub mod Builtin
pub mod Plain
pub mod Refines
pub mod Unboxed
pub mod Kept
pub mod History
use descarteslabs_python.Prelude.{
  ℕ, zero, suc, ◌+◌, String, Bool, true, false, Option, none, some, List, [], ◌∷◌, ◌==◌,
  if◌then◌else◌,
}
use descarteslabs_python.Python.Number.{ℤ}
use descarteslabs_python.Python.Result.{Result, ok, err}
use descarteslabs_python.Collection.{place}

pub data Error : Type 0 where
  key_error attribute_error index_error type_error : Error

-- A dictionary is a `DotDict` or a plain `dict`, a list a `DotList` or a plain `list`, by the mark
-- that stands first. A value of any other type is known by its text.
mutual
  pub data Value : Type 0 where
    other : String → Value
    dict : Bool → Fields → Value
    list : Bool → Items → Value

  pub data Fields : Type 0 where
    end : Fields
    field : String → Value → Fields → Fields

  pub data Items : Type 0 where
    nil : Items
    cons : Value → Items → Items

-- What a call returns.
pub data Answer : Type 0 where
  nothing : Answer
  value : Value → Answer
  pair : String → Value → Answer
  pairs : Fields → Answer
  elements : Items → Answer

unfoldable pub box : Value → Value
box (dict false fields) = dict true fields
box (list false items) = list true items
box v = v

-- the built-in dictionary
unfoldable pub get_field : String → Fields → Option Value
get_field k end = none
get_field k (field j v fields) = if j == k then some v else get_field k fields

unfoldable pub put_field : String → Value → Fields → Fields
put_field k v end = field k v end
put_field k v (field j w fields) =
    if j == k then field k v fields else field j w (put_field k v fields)

unfoldable pub remove_field : String → Fields → Fields
remove_field k end = end
remove_field k (field j v fields) = if j == k then fields else field j v (remove_field k fields)

unfoldable pub last_of :
    String → Value → Option ((String × Value) × Fields) → (String × Value) × Fields
last_of k v none = ((k, v), end)
last_of k v (some (last, before)) = (last, field k v before)

-- the last field, and those before it
unfoldable pub split_last : Fields → Option ((String × Value) × Fields)
unfolding last_of
split_last end = none
split_last (field k v fields) = some (last_of k v (split_last fields))

-- the built-in list
unfoldable pub size : Items → ℕ
size nil = 0
size (cons v items) = suc (size items)

unfoldable pub item_at : Items → ℕ → Option Value
item_at nil i = none
item_at (cons v items) zero = some v
item_at (cons v items) (suc i) = item_at items i

unfoldable pub put_at : ℕ → Value → Items → Items
put_at i v nil = nil
put_at zero v (cons w items) = cons v items
put_at (suc i) v (cons w items) = cons w (put_at i v items)

unfoldable pub remove_at : ℕ → Items → Items
remove_at i nil = nil
remove_at zero (cons w items) = items
remove_at (suc i) (cons w items) = cons w (remove_at i items)

unfoldable pub with_place : ℕ → Option Value → Option (ℕ × Value)
with_place p none = none
with_place p (some v) = some (p, v)

unfoldable pub found_at : Items → Option ℕ → Option (ℕ × Value)
unfolding with_place item_at
found_at items none = none
found_at items (some p) = with_place p (item_at items p)

-- The place that an index means, with the value that is there.
unfoldable pub find_item : ℤ → Items → Option (ℕ × Value)
unfolding found_at place size
find_item i items = found_at items (place (size items) i)
