-- ===== src/Scaling/Parameters.antt =====
-- scenes/_scaling.py: `scaling_parameters` and `multiproduct_scaling_parameters`.
use descarteslabs_python.Prelude.{
  String, Bool, true, false, not, ◌&&◌, ◌||◌, Option, none, some, List, [], ◌∷◌, contains, ◌==◌,
  if◌then◌else◌,
}
use descarteslabs_python.Python.Result.{Result, ok, err, bind}
use descarteslabs_python.Python.Dict.{Dict, lookup}
use descarteslabs_python.Scaling.Number.{Error, value_error, key_error, Floats}
use descarteslabs_python.Scaling.DataType.{valid_data_types, common_data_type}
use descarteslabs_python.Scaling.Band.{ScalingMode, raw, display, physical, Properties, required}
use descarteslabs_python.Scaling.Output.{Scale, get_scale}
use descarteslabs_python.Scaling.Parse.{Scaling, Scales, parse_given}
use descarteslabs_python.Scaling.Modes.{check_modes, check_implied_data_type}

abbrev pub has_key {ℓ} : {V : Type ℓ} → Option V → Bool
has_key none = false
has_key (some v) = true

unfoldable pub is_valid_type : Option String → Bool
is_valid_type none = true
is_valid_type (some data_type) = contains valid_data_types data_type

unfoldable pub default_mode : Option String → ScalingMode
default_mode none = raw
default_mode (some data_type) =
    if data_type == "Byte"
    then display
    else if data_type == "Float32" || data_type == "Float64"
    then physical
    else raw

-- One of mode and data type out of the other; `dtypes` are those of the bands.
unfoldable pub complete :
    Result Error (List String)
    → Option ScalingMode
    → Option String
    → Result Error (Option ScalingMode × Option String)
unfolding default_mode common_data_type
complete dtypes none data_type = ok (some (default_mode data_type), data_type)
complete dtypes (some raw) none = bind dtypes λ ts. bind (common_data_type ts) λ t. ok (some raw, t)
complete dtypes (some physical) none = ok (some physical, some "Float64")
complete dtypes (some mode) none = ok (some mode, some "Byte")
complete dtypes (some mode) (some data_type) = ok (some mode, some data_type)

module _ {F : Type 0} where
  unfoldable pub has_bands : Dict (Properties F) → List String → Bool
  unfolding lookup
  has_bands properties [] = true
  has_bands properties (band ∷ bands) =
      has_key (lookup band properties) && has_bands properties bands

  -- `properties[band]["dtype"]`
  unfoldable pub dtype_of : Dict (Properties F) → String → Result Error String
  unfolding required lookup
  dtype_of properties band =
      bind (required key_error (lookup band properties)) λ p. required key_error p.dtype

  unfoldable pub dtypes : Dict (Properties F) → List String → Result Error (List String)
  unfolding dtype_of
  dtypes properties [] = ok []
  dtypes properties (band ∷ bands) =
      let rest = dtypes properties bands in
      bind (dtype_of properties band) λ t. bind rest λ ts. ok (t ∷ ts)

  -- without a scaling: the quick case
  unfoldable pub unscaled_type :
      Result Error (List String)
      → Option String
      → Result Error (Option (List (Scale F)) × Option String)
  unfolding common_data_type
  unscaled_type dtypes (some data_type) = ok (none, some data_type)
  unscaled_type dtypes none = bind dtypes λ ts. bind (common_data_type ts) λ t. ok (none, t)

  unfoldable pub scaled : List (Scale F) × Option String → Option (List (Scale F)) × Option String
  scaled (scales, type) = (some scales, type)

module _ {F : Type 0} (floats : Floats F) where
  guessed :
      Option ScalingMode
      → Result Error (Option String)
      → Result Error (Option ScalingMode × Option String)
  guessed (some mode) implied = ok (some mode, none)
  guessed none (err e) = err e
  guessed none (ok none) = err value_error
  guessed none (ok (some data_type)) = ok (none, some data_type)

  -- `time to do some guesswork from tuples`
  unfoldable pub guess :
      Scales F
      → Option ScalingMode
      → Option String
      → Result Error (Option ScalingMode × Option String)
  unfolding guessed check_modes check_implied_data_type
  guess scales none none =
      bind (check_modes true scales) λ mode. guessed mode (check_implied_data_type floats scales)
  guess scales mode data_type = ok (mode, data_type)

  unfoldable pub get_scales :
      Scales F → Option ScalingMode → Option String → Result Error (List (Scale F))
  unfolding get_scale
  get_scales [] mode data_type = ok []
  get_scales (none ∷ scales) mode data_type = err Error.attribute_error
  get_scales (some scale ∷ scales) mode data_type =
      let rest = get_scales scales mode data_type in
      bind (get_scale floats scale mode data_type) λ s. bind rest λ ss. ok (s ∷ ss)

  -- from the parsed scales on
  unfoldable pub determine :
      Result Error (List String)
      → Scales F
      → Option String
      → Result Error (List (Scale F) × Option String)
  unfolding check_modes guess complete get_scales
  determine dtypes scales data_type = bind (check_modes false scales) λ explicit.
      bind (guess scales explicit data_type) λ (guessed_mode, guessed_type).
        bind (complete dtypes guessed_mode guessed_type)
          λ (mode, type). bind (get_scales scales mode type) λ ss. ok (ss, type)

  unfoldable pub parameters_for :
      Dict (Properties F)
      → List String
      → Option (Scaling F)
      → Option String
      → Result Error (Option (List (Scale F)) × Option String)
  unfolding unscaled_type parse_given determine scaled dtypes
  parameters_for properties bands none data_type = unscaled_type (dtypes properties bands) data_type
  parameters_for properties bands (some scaling) data_type =
      bind (parse_given floats properties bands scaling)
        λ scales. bind (determine (dtypes properties bands) scales data_type) λ r. ok (scaled r)

  unfoldable pub scaling_parameters :
      Dict (Properties F)
      → List String
      → Option (Scaling F)
      → Option String
      → Result Error (Option (List (Scale F)) × Option String)
  unfolding has_bands is_valid_type parameters_for
  scaling_parameters properties bands scaling data_type =
      if not (has_bands properties bands)
      then err value_error
      else if not (is_valid_type data_type)
      then err value_error
      else parameters_for properties bands scaling data_type
