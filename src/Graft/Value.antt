-- ===== src/Graft/Value.antt =====
-- The Python values that grafts are made of, and the exceptions of the graft packages.
use descarteslabs_python.Prelude.{ℕ, String, Bool, List}
use descarteslabs_python.Python.Number.{ℤ}

-- A float is known by its `repr`: the code never computes with one.
pub data Number : Type 0 where
  int : ℤ → Number
  float : String → Number

-- `seq` is a list or a tuple, `dict` a mapping with text keys in its order of insertion. A
-- `delayed` is an object with a `graft` attribute of that value, an `object` one without it.
mutual
  pub data Value : Type 0 where
    null : Value
    bool : Bool → Value
    number : Number → Value
    str : String → Value
    seq : Items → Value
    dict : Fields → Value
    delayed : Value → Value
    object : String → Value

  pub data Items : Type 0 where
    nil : Items
    cons : Value → Items → Items

  pub data Fields : Type 0 where
    end : Fields
    field : String → Value → Fields → Fields

-- What an exception's message says.
pub data Message : Type 0 where
  too_many : ℕ → ℕ → Message
  missing unexpected : List String → Message
  about : String → Message

pub data Error : Type 0 where
  type_error value_error key_error runtime_error : Message → Error
  index_error : Error
  graft_syntax_error graft_type_error : Message → Error
  graft_name_error : String → Error
