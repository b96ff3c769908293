-- ===== src/Scaling/Modes.antt =====
-- scenes/_scaling.py: `check_modes` and `check_implied_data_type`.
use descarteslabs_python.Prelude.{
  Bool, true, false, not, ◌&&◌, String, Option, none, some, List, [], ◌∷◌, ◌++◌, any, if◌then◌else◌,
}
use descarteslabs_python.Python.Result.{Result, ok, err, bind}
use descarteslabs_python.Scaling.Number.{
  Error, value_error, index_error, attribute_error, Number, Floats, lt, is_float,
}
use descarteslabs_python.Scaling.DataType.{data_type_from_range}
use descarteslabs_python.Scaling.Band.{ScalingMode, raw, display, auto, physical, BandScale}
use descarteslabs_python.Scaling.Output.{OutputRange, output_range}
use descarteslabs_python.Scaling.Parse.{Scales}

abbrev pub same_mode : ScalingMode → ScalingMode → Bool
same_mode raw raw = true
same_mode display display = true
same_mode auto auto = true
same_mode physical physical = true
same_mode _ _ = false

abbrev pub is_automatic : ScalingMode → Bool
is_automatic auto = true
is_automatic display = true
is_automatic _ = false

abbrev pub same_flag : Bool → Bool → Bool
same_flag true b = b
same_flag false b = not b

-- The mode of two bands, or `none` on a conflict.
unfoldable pub merge_modes : ScalingMode → ScalingMode → Option ScalingMode
merge_modes mode m =
    if same_mode m mode
    then some mode
    else if is_automatic m && is_automatic mode
    then some display
    else none

module _ {F : Type 0} where
  -- the mode of a scale, if it is one that is looked for
  unfoldable pub mode_of : Bool → BandScale F → Option ScalingMode
  mode_of implied scale = if same_flag scale.mode_is_implied implied then scale.mode else none

-- What the loop does with a mode: `next` is the rest of it.
unfoldable pub on_merged :
    Bool
    → (Option ScalingMode → Result Error (Option ScalingMode))
    → Option ScalingMode
    → Result Error (Option ScalingMode)
on_merged implied next (some mode) = next (some mode)
on_merged implied next none = if implied then ok none else err value_error

unfoldable pub on_mode :
    Bool
    → (Option ScalingMode → Result Error (Option ScalingMode))
    → Option ScalingMode
    → Option ScalingMode
    → Result Error (Option ScalingMode)
unfolding on_merged merge_modes
on_mode implied next mode none = next mode
on_mode implied next none (some m) = next (some m)
on_mode implied next (some mode) (some m) = on_merged implied next (merge_modes mode m)

module _ {F : Type 0} where
  -- A `None` among the scales has no `mode`.
  unfoldable pub check_modes_from :
      Bool → Option ScalingMode → Scales F → Result Error (Option ScalingMode)
  unfolding on_mode mode_of
  check_modes_from implied mode [] = ok mode
  check_modes_from implied mode (none ∷ scales) = err attribute_error
  check_modes_from implied mode (some scale ∷ scales) =
      on_mode implied (λ m. check_modes_from implied m scales) mode (mode_of implied scale)

  unfoldable pub check_modes : Bool → Scales F → Result Error (Option ScalingMode)
  unfolding check_modes_from
  check_modes implied scales = check_modes_from implied none scales

  unfoldable pub output_ranges : Scales F → Result Error (List (OutputRange F))
  unfolding output_range
  output_ranges [] = ok []
  output_ranges (none ∷ scales) = err attribute_error
  output_ranges (some scale ∷ scales) =
      bind (output_ranges scales) λ ranges. ok (output_range scale ∷ ranges)

  unfoldable pub minimums : List (OutputRange F) → List (Number F)
  minimums [] = []
  minimums ((none, high) ∷ ranges) = minimums ranges
  minimums ((some low, high) ∷ ranges) = low ∷ minimums ranges

  unfoldable pub maximums : List (OutputRange F) → List (Number F)
  maximums [] = []
  maximums ((low, none) ∷ ranges) = maximums ranges
  maximums ((low, some high) ∷ ranges) = high ∷ maximums ranges

module _ {F : Type 0} (floats : Floats F) where
  -- `min` and `max` of an item and those after it
  unfoldable pub min_from : Number F → List (Number F) → Number F
  min_from m [] = m
  min_from m (n ∷ ns) = min_from (if lt floats n m then n else m) ns

  unfoldable pub max_from : Number F → List (Number F) → Number F
  max_from m [] = m
  max_from m (n ∷ ns) = max_from (if lt floats m n then n else m) ns

  unfoldable pub least_of : List (Number F) → Option (Number F)
  unfolding min_from
  least_of [] = none
  least_of (n ∷ ns) = some (min_from n ns)

  unfoldable pub greatest_of : List (Number F) → Option (Number F)
  unfolding max_from
  greatest_of [] = none
  greatest_of (n ∷ ns) = some (max_from n ns)

  unfoldable pub range_type : Option (Number F) → Option (Number F) → Bool → Option String
  unfolding data_type_from_range
  range_type none none is_float = none
  range_type min max is_float = some (data_type_from_range floats min max is_float)

  -- Of no ranges there is no `ranges[0]`.
  unfoldable pub type_of_ranges : List (OutputRange F) → Result Error (Option String)
  unfolding range_type minimums maximums least_of greatest_of
  type_of_ranges [] = err index_error
  type_of_ranges (r ∷ rs) =
      let mins = minimums (r ∷ rs) in
      let maxs = maximums (r ∷ rs) in
      ok (range_type (least_of mins) (greatest_of maxs) (any is_float (mins ++ maxs)))

  unfoldable pub check_implied_data_type : Scales F → Result Error (Option String)
  unfolding output_ranges type_of_ranges
  check_implied_data_type scales = bind (output_ranges scales) type_of_ranges
