-- ===== src/Scaling/DataType.antt =====
-- scenes/_scaling.py: the data types, the casts between them and the choice of one.
use descarteslabs_python.Prelude.{
  String, ◌≡◌, refl, Bool, true, false, not, ◌&&◌, ◌||◌, Option, none, some, List, [], ◌∷◌,
  contains, ◌==◌, if◌then◌else◌,
}
use descarteslabs_python.Python.Number.{pos, negsuc}
use descarteslabs_python.Python.Result.{Result, ok, err}
use descarteslabs_python.Python.Dict.{Dict, lookup}
use descarteslabs_python.Scaling.Number.{
  Error, value_error, key_error, Number, int, float, Floats, lt,
}
use descarteslabs_python.Scaling.Text.{is_substring, characters}

abbrev pub valid_data_types : List String
valid_data_types = "Byte" ∷ "UInt16" ∷ "Int16" ∷ "UInt32" ∷ "Int32" ∷ "Float32" ∷ "Float64" ∷ []

-- `("Float64")` is a text, not a tuple.
pub data Casts : Type 0 where
  tuple : List String → Casts
  text : String → Casts

abbrev pub valid_data_type_casts : Dict Casts
valid_data_type_casts =
    ("Byte", tuple ("UInt16" ∷ "Int16" ∷ "UInt32" ∷ "Int32" ∷ "Float32" ∷ "Float64" ∷ []))
    ∷ ("UInt16", tuple ("UInt32" ∷ "Int32" ∷ "Float32" ∷ "Float64" ∷ []))
    ∷ ("Int16", tuple ("Int32" ∷ "Float32" ∷ "Float64" ∷ []))
    ∷ ("UInt32", text "Float64")
    ∷ ("Int32", tuple ("Float32" ∷ "Float64" ∷ []))
    ∷ ("Float32", text "Float64")
    ∷ ("Float64", tuple [])
    ∷ []

-- `dt in types`
unfoldable pub is_in : String → Casts → Bool
unfolding is_substring
is_in dt (tuple types) = contains types dt
is_in dt (text s) = is_substring dt s

-- what `for dt in types` runs through
unfoldable pub elements : Casts → List String
unfolding characters
elements (tuple types) = types
elements (text s) = characters s

unfoldable pub first_in : List String → Casts → Option String
first_in [] types1 = none
first_in (dt ∷ dts) types1 =
    let rest = first_in dts types1 in if is_in dt types1 then some dt else rest

-- the `else` branch, with both casts looked up
unfoldable pub common_of : String → Casts → String → Casts → Option String
unfolding is_in elements first_in
common_of dtype1 types1 dtype2 types2 =
    if dtype1 == dtype2 || is_in dtype1 types2
    then some dtype1
    else if is_in dtype2 types1
    then some dtype2
    else first_in (elements types2) types1

second_casts : String → Casts → String → Option Casts → Result Error (Option String)
unfolding common_of
second_casts dtype1 types1 dtype2 none = err key_error
second_casts dtype1 types1 dtype2 (some types2) = ok (common_of dtype1 types1 dtype2 types2)

first_casts : String → Option Casts → String → Result Error (Option String)
unfolding second_casts lookup
first_casts dtype1 none dtype2 = err key_error
first_casts dtype1 (some types1) dtype2 =
    if contains valid_data_types dtype2
    then second_casts dtype1 types1 dtype2 (lookup dtype2 valid_data_type_casts)
    else err value_error

unfoldable pub join_last : Result Error (Option String) → String → Result Error (Option String)
unfolding first_casts lookup
join_last (err e) dtype2 = err e
join_last (ok none) dtype2 = ok none
join_last (ok (some dtype1)) dtype2 =
    first_casts dtype1 (lookup dtype1 valid_data_type_casts) dtype2

-- The recursion on `data_types[0:-1]` joins the later types to the first from the left.
unfoldable pub join_each : Result Error (Option String) → List String → Result Error (Option String)
join_each r [] = r
join_each r (dtype2 ∷ rest) = join_each (join_last r dtype2) rest

unfoldable pub common_data_type : List String → Result Error (Option String)
unfolding join_each
common_data_type [] = ok none
common_data_type (dtype ∷ rest) =
    join_each (if contains valid_data_types dtype then ok (some dtype) else err value_error) rest

module _ {F : Type 0} (floats : Floats F) where
  abbrev pub data_type_ranges : Dict (Number F × Number F)
  data_type_ranges =
      ("Byte", (int (pos 0), int (pos 255)))
      ∷ ("UInt16", (int (pos 0), int (pos 65_535)))
      ∷ ("Int16", (int (negsuc 32_767), int (pos 32_767)))
      ∷ ("UInt32", (int (pos 0), int (pos 4_294_967_295)))
      ∷ ("Int32", (int (negsuc 2_147_483_647), int (pos 2_147_483_647)))
      ∷ ("Float32", (float (floats.hundredths 0), float (floats.hundredths 100)))
      ∷ ("Float64", (float (floats.hundredths 0), float (floats.hundredths 100)))
      ∷ []

  -- `bound is not None and bound < limit`, and the same with the two sides swapped
  unfoldable pub is_below : Option (Number F) → Number F → Bool
  is_below none limit = false
  is_below (some bound) limit = lt floats bound limit

  unfoldable pub is_above : Option (Number F) → Number F → Bool
  is_above none limit = false
  is_above (some bound) limit = lt floats limit bound

  unfoldable pub is_given : Option (Number F) → Bool
  is_given none = false
  is_given (some bound) = true

  -- The loop over `valid_data_types`, with the range of each.
  unfoldable pub first_holding :
      Option (Number F) → Option (Number F) → Dict (Number F × Number F) → String
  unfolding is_below is_above is_given
  first_holding min max [] = "Float64"
  first_holding min max ((dt, range) ∷ types) =
      let rest = first_holding min max types in
      if not (is_below min range.0) && (is_given max && not (is_above max range.1))
      then dt
      else rest

  unfoldable pub data_type_from_range : Option (Number F) → Option (Number F) → Bool → String
  unfolding is_below is_above first_holding
  data_type_from_range min max is_float =
      if is_float
        || (is_below min (int (negsuc 2_147_483_647)) || is_above max (int (pos 2_147_483_647)))
      then "Float64"
      else first_holding min max data_type_ranges

-- two pairs of valid data types, each in both orders
runs :
    (common_data_type ("UInt32" ∷ "Int32" ∷ []) ≡ ok (some "Float64"))
    × (common_data_type ("Int32" ∷ "UInt32" ∷ []) ≡ ok none)
    × (common_data_type ("UInt32" ∷ "Float32" ∷ []) ≡ ok (some "F"))
    × (common_data_type ("UInt16" ∷ "Int16" ∷ []) ≡ ok (some "Int32"))
unfolding common_data_type join_last
runs = (refl, refl, refl, refl)
