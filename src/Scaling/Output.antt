-- ===== src/Scaling/Output.antt =====
-- scenes/_scaling.py: `output_range`, `get_scale` and `calc_pct`.
use descarteslabs_python.Prelude.{String, Bool, Option, none, some, List, [], ◌∷◌, if◌then◌else◌}
use descarteslabs_python.Python.Number.{pos}
use descarteslabs_python.Python.Result.{Result, ok, err, bind}
use descarteslabs_python.Python.Dict.{lookup}
use descarteslabs_python.Scaling.Number.{
  Error, value_error, key_error, attribute_error, Number, int, float, Floats, width, to_float,
}
use descarteslabs_python.Scaling.Text.{starts_with, drop_last}
use descarteslabs_python.Scaling.DataType.{data_type_ranges}
use descarteslabs_python.Scaling.Band.{
  ScalingMode, raw, display, auto, physical, Range, Entry, percentage, number, Kind, no_band_scale,
  automatic_band_scale, tuple_band_scale, BandScale, required,
}

-- the scaling of a band: `None` or a tuple
abbrev pub Scale : Type 0 → Type 0
Scale F = Option (List (Number F))

-- A bound that is `None` is one that a percentage stands for.
abbrev pub OutputRange : Type 0 → Type 0
OutputRange F = Option (Number F) × Option (Number F)

module _ {F : Type 0} where
  abbrev known : Range F → OutputRange F
  known (low, high) = (some low, some high)

  abbrev bytes : OutputRange F
  bytes = (some (int (pos 0)), some (int (pos 255)))

  bound_of : Entry F → Option (Number F)
  bound_of (percentage t) = none
  bound_of (number n) = some n

  tuple_range : List (Entry F) → OutputRange F
  unfolding bound_of
  tuple_range (a ∷ b ∷ c ∷ d ∷ []) = (bound_of c, bound_of d)
  tuple_range _ = bytes

  automatic_range : BandScale F → Option ScalingMode → OutputRange F
  automatic_range scale (some raw) = known scale.data_range
  automatic_range scale (some physical) = known scale.physical_range
  automatic_range scale _ = bytes

  range_of_kind : BandScale F → Kind F → OutputRange F
  unfolding tuple_range automatic_range
  range_of_kind scale no_band_scale = known scale.data_range
  range_of_kind scale automatic_band_scale = automatic_range scale scale.mode
  range_of_kind scale (tuple_band_scale entries) = tuple_range entries

  unfoldable pub output_range : BandScale F → OutputRange F
  unfolding range_of_kind
  output_range scale = range_of_kind scale scale.kind

module _ {F : Type 0} where
  -- a tuple of two gets the two ends of the output range
  unfoldable pub completed : List (Entry F) → Range F → List (Entry F)
  completed (a ∷ b ∷ []) (low, high) = a ∷ b ∷ number low ∷ number high ∷ []
  completed entries _ = entries

-- `dtype.startswith("Float")`
abbrev pub is_float_type : String → Bool
is_float_type dtype = starts_with "Float" dtype

module _ {F : Type 0} (floats : Floats F) where
  -- `float(value[:-1]) * (bounds[1] - bounds[0]) / 100.0 + bounds[0]`
  unfoldable pub percent_of : String → Range F → Result Error (Number F)
  unfolding required to_float width
  percent_of t (low, high) = bind (required value_error (floats.of_text (drop_last t))) λ share.
      let part = floats.mul share (to_float floats (width floats low high)) in
      ok (float (floats.add (floats.div part (floats.hundredths 10_000)) (to_float floats low)))

  -- `int(value)`
  truncated : Number F → Result Error (Number F)
  truncated (int n) = ok (int n)
  truncated (float x) = bind (floats.truncate x) λ n. ok (int n)

  unfoldable pub calc_pct : Entry F → Range F → Bool → Result Error (Number F)
  unfolding truncated percent_of
  calc_pct (percentage t) bounds is_float =
      bind (percent_of t bounds) λ n. if is_float then ok n else truncated n
  calc_pct (number n) bounds is_float = if is_float then ok n else truncated n

  -- `map(calc_pct, …)`, which stops after the shortest of its arguments
  unfoldable pub calc_each : List (Entry F) → List (Range F × Bool) → Result Error (List (Number F))
  unfolding calc_pct
  calc_each [] _ = ok []
  calc_each (e ∷ es) [] = ok []
  calc_each (e ∷ es) ((bounds, is_float) ∷ rest) =
      let more = calc_each es rest in
      bind (calc_pct e bounds is_float) λ n. bind more λ ns. ok (n ∷ ns)

  -- `irange` and `orange`
  unfoldable pub tuple_ranges :
      BandScale F → Option ScalingMode → String → Result Error (Range F × Range F)
  unfolding required lookup
  tuple_ranges scale (some raw) data_type =
      bind (required key_error (lookup scale.dtype (data_type_ranges floats))) λ irange.
        bind (required key_error (lookup data_type (data_type_ranges floats)))
          λ orange. ok (irange, orange)
  tuple_ranges scale (some physical) data_type = ok (scale.data_range, scale.physical_range)
  tuple_ranges scale _ data_type =
      ok (scale.default_range, (float (floats.hundredths 0), float (floats.hundredths 25_599)))

  unfoldable pub tuple_get_scale :
      List (Entry F) → BandScale F → Option ScalingMode → String → Result Error (Scale F)
  unfolding tuple_ranges completed calc_each
  tuple_get_scale [] scale mode data_type = ok (some [])
  tuple_get_scale (e ∷ es) scale mode data_type =
      let ifloat = is_float_type scale.dtype in
      let ofloat = is_float_type data_type in
      bind (tuple_ranges scale mode data_type) λ (irange, orange).
        bind
          (calc_each (completed (e ∷ es) orange)
            ((irange, ifloat) ∷ (irange, ifloat) ∷ (orange, ofloat) ∷ (orange, ofloat) ∷ []))
          λ ns. ok (some ns)

  unfoldable pub automatic_get_scale : BandScale F → Option ScalingMode → String → Scale F
  automatic_get_scale scale (some raw) data_type = none
  automatic_get_scale scale (some auto) data_type = some []
  automatic_get_scale scale (some display) data_type =
      let high =
        if is_float_type data_type then float (floats.hundredths 25_599) else int (pos 255) in
      some (scale.default_range.0 ∷ scale.default_range.1 ∷ int (pos 0) ∷ high ∷ [])
  automatic_get_scale scale (some physical) data_type = some (
      scale.data_range.0 ∷ scale.data_range.1 ∷ scale.physical_range.0 ∷ scale.physical_range.1
      ∷ [])
  automatic_get_scale scale none data_type = none

  unfoldable pub scale_of_kind :
      Kind F → BandScale F → Option ScalingMode → Option String → Result Error (Scale F)
  unfolding automatic_get_scale tuple_get_scale
  scale_of_kind no_band_scale scale mode data_type = ok none
  scale_of_kind automatic_band_scale scale mode (some data_type) =
      ok (automatic_get_scale scale scale.mode data_type)
  scale_of_kind (tuple_band_scale entries) scale mode (some data_type) =
      tuple_get_scale entries scale mode data_type
  scale_of_kind _ scale mode none = err attribute_error

  -- Without a data type, `data_type.startswith` raises.
  unfoldable pub get_scale :
      BandScale F → Option ScalingMode → Option String → Result Error (Scale F)
  unfolding scale_of_kind
  get_scale scale mode data_type = scale_of_kind scale.kind scale mode data_type
