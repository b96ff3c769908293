-- ===== src/Scaling/Band.antt =====
-- scenes/_scaling.py: the `BandScale` classes and `make_band_scale`. Python's subclasses are the
-- constructors of `Kind`, and their methods are split on it.
use descarteslabs_python.Prelude.{
  String, Bool, true, false, not, ◌||◌, Option, none, some, List, [], ◌∷◌, ◌==◌, if◌then◌else◌,
}
use descarteslabs_python.Python.Number.{pos}
use descarteslabs_python.Python.Result.{Result, ok, err, bind}
use descarteslabs_python.Scaling.Number.{
  Error, value_error, key_error, index_error, Number, int, Floats, lt,
}
use descarteslabs_python.Scaling.Text.{starts_with, is_percentage, drop_last}

pub data ScalingMode : Type 0 where
  raw display auto physical : ScalingMode

pub data BandType : Type 0 where
  spectral mask class other : BandType

unfoldable pub scaling_mode : String → Result Error ScalingMode
scaling_mode s =
    if s == "raw"
    then ok raw
    else if s == "display"
    then ok display
    else if s == "auto"
    then ok auto
    else if s == "physical"
    then ok physical
    else err value_error

unfoldable pub band_type : String → Result Error BandType
band_type s =
    if s == "spectral"
    then ok spectral
    else if s == "mask"
    then ok mask
    else if s == "class"
    then ok class
    else if s == "other"
    then ok other
    else err value_error

abbrev pub is_unscaled_type : BandType → Bool
is_unscaled_type mask = true
is_unscaled_type class = true
is_unscaled_type _ = false

abbrev pub is_derived : String → Bool
is_derived name = starts_with "derived:" name

-- a range, a list of two numbers in Python
abbrev pub Range : Type 0 → Type 0
Range F = Number F × Number F

-- The properties that are read of a band; `none` is a key that is missing.
pub record Properties (F : Type 0) : Type 0 where
  pub type : Option String
  pub dtype : Option String
  pub data_range : Option (Range F)
  pub default_range : Option (Range F)
  pub physical_range : Option (Range F)

-- An item of a scaling tuple; `not_number` is one of another type.
pub data TupleItem (F : Type 0) : Type 0 where
  text : String → TupleItem F
  num : Number F → TupleItem F
  not_number : TupleItem F

-- The value that is given for one band; `unknown` is one of a type that is not looked for.
pub data BandScaling (F : Type 0) : Type 0 where
  unscaled : BandScaling F
  mode_name : String → BandScaling F
  tuple : List (TupleItem F) → BandScaling F
  unknown : BandScaling F

-- An item that was let in: its `is_pct` is true for the first constructor.
pub data Entry (F : Type 0) : Type 0 where
  percentage : String → Entry F
  number : Number F → Entry F

pub data Kind (F : Type 0) : Type 0 where
  no_band_scale automatic_band_scale : Kind F
  tuple_band_scale : List (Entry F) → Kind F

pub record BandScale (F : Type 0) : Type 0 where
  pub kind : Kind F
  pub name : String
  pub type : String
  pub dtype : String
  pub data_range : Range F
  pub default_range : Range F
  pub physical_range : Range F
  pub mode : Option ScalingMode
  pub mode_is_implied : Bool

module _ {ℓ} {A : Type ℓ} where
  unfoldable pub required : Error → Option A → Result Error A
  required e none = err e
  required e (some a) = ok a

  abbrev pub get_or : A → Option A → A
  get_or d none = d
  get_or d (some a) = a

type_or_derived : String → Option String → Result Error String
type_or_derived name (some type) = ok type
type_or_derived name none = if is_derived name then ok "other" else err value_error

module _ {F : Type 0} where
  -- `BandScale.__init__`
  unfoldable pub band_scale :
      Kind F → String → Properties F → Option ScalingMode → Bool → Result Error (BandScale F)
  unfolding type_or_derived required
  band_scale kind name properties mode implied = bind (type_or_derived name properties.type) λ type.
      bind (required value_error properties.dtype) λ dtype.
        bind (required value_error properties.data_range) λ data_range. ok record {
          kind = kind;
          name = name;
          type = type;
          dtype = dtype;
          data_range = data_range;
          default_range = get_or data_range properties.default_range;
          physical_range = get_or data_range properties.physical_range;
          mode = mode;
          mode_is_implied = implied;
        }

  abbrev is_pct : Entry F → Bool
  is_pct (percentage t) = true
  is_pct (number n) = false

  -- the item of `is_float`, which is true of an `int` too
  abbrev is_float_item : Entry F → Bool
  is_float_item (percentage t) = false
  is_float_item (number n) = true

-- the band type that a mode's name is made out for
unfoldable pub type_for_mode : String → Option String → Result Error BandType
unfolding required band_type
type_for_mode name type =
    if is_derived name then ok other else bind (required key_error type) band_type

module _ {F : Type 0} where
  -- the length of a scaling tuple is 0, 2 or 4
  unfoldable pub has_tuple_length : List (TupleItem F) → Bool
  has_tuple_length [] = true
  has_tuple_length (a ∷ b ∷ []) = true
  has_tuple_length (a ∷ b ∷ c ∷ d ∷ []) = true
  has_tuple_length _ = false

  unfoldable pub named_scale : String → Properties F → String → Result Error (BandScale F)
  unfolding scaling_mode type_for_mode band_scale
  named_scale name properties value = bind (scaling_mode value) λ mode.
      bind (type_for_mode name properties.type) λ type.
        if is_unscaled_type type
        then band_scale no_band_scale name properties (some mode) true
        else band_scale automatic_band_scale name properties (some mode) false

  abbrev pub made : Result Error (BandScale F) → Result Error (Option (BandScale F))
  made r = bind r λ scale. ok (some scale)

module _ {F : Type 0} (floats : Floats F) where
  check_number : String → Option F → Result Error (Entry F)
  check_number t none = err value_error
  check_number t (some x) = ok (percentage t)

  unfoldable pub check_item : TupleItem F → Result Error (Entry F)
  unfolding check_number
  check_item (text t) =
      let checked = check_number t (floats.of_text (drop_last t)) in
      if not (is_percentage t) then err value_error else checked
  check_item (num n) = ok (number n)
  check_item not_number = err value_error

  unfoldable pub check_items : List (TupleItem F) → Result Error (List (Entry F))
  unfolding check_item
  check_items [] = ok []
  check_items (t ∷ ts) =
      let rest = check_items ts in
      bind (check_item t) λ entry. bind rest λ entries. ok (entry ∷ entries)

  is_negative : Entry F → Bool
  is_negative (percentage t) = false
  is_negative (number n) = lt floats n (int (pos 0))

  is_above_255 : Entry F → Bool
  is_above_255 (percentage t) = false
  is_above_255 (number n) = lt floats (int (pos 255)) n

  -- A tuple without a third or a fourth item has no such flag to read.
  unfoldable pub tuple_mode : List (Entry F) → Result Error (Option ScalingMode)
  unfolding is_negative is_above_255
  tuple_mode [] = ok (some auto)
  tuple_mode (a ∷ b ∷ []) = ok (some display)
  tuple_mode (a ∷ b ∷ c ∷ d ∷ rest) = ok (
      if is_float_item c || is_float_item d
      then some physical
      else if is_negative c || is_above_255 d
      then some raw
      else none)
  tuple_mode (a ∷ b ∷ c ∷ []) = if is_float_item c then ok (some physical) else err index_error
  tuple_mode (a ∷ []) = err index_error

  -- `TupleBandScale.__init__`
  unfoldable pub tuple_scale :
      String → Properties F → List (TupleItem F) → Result Error (BandScale F)
  unfolding check_items tuple_mode band_scale
  tuple_scale name properties value = bind (check_items value) λ entries.
      bind (tuple_mode entries)
        λ mode. band_scale (tuple_band_scale entries) name properties mode true

  -- For a value of an unknown type the function ends without a `return`.
  unfoldable pub make_band_scale :
      String → Properties F → BandScaling F → Result Error (Option (BandScale F))
  unfolding named_scale has_tuple_length tuple_scale band_scale
  make_band_scale name properties unscaled =
      made (band_scale no_band_scale name properties none true)
  make_band_scale name properties (mode_name value) = made (named_scale name properties value)
  make_band_scale name properties (tuple value) =
      if has_tuple_length value then made (tuple_scale name properties value) else err value_error
  make_band_scale name properties unknown = ok none
