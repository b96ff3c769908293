-- ===== src/Examples/Scaling.antt =====
-- Bands of a product, scaled in several ways; a float counts hundredths.

use descarteslabs_python.Prelude.{
  ℕ, ◌+◌, ◌-◌, ◌*◌, ◌/◌, String, ◌≡◌, refl, Bool, true, false, Option, none, some, List, [], ◌∷◌,
  map, ltb, eqb, length, all, ◌⊎◌,
}
use descarteslabs_python.Python.Number.{ℤ, pos, negsuc}
use descarteslabs_python.Python.Result.{ok}
use descarteslabs_python.Python.Dict.{Dict}
use descarteslabs_python.Scaling.Number.{int, float, Floats}
use descarteslabs_python.Scaling.Text.{starts_with}
use descarteslabs_python.Scaling.DataType.{common_data_type}
use descarteslabs_python.Scaling.Casts.{IsLeastType, common_data_type-IsLeastType}
use descarteslabs_python.Scaling.Band.{
  ScalingMode, display, auto, Properties, text, num, BandScaling, tuple, BandScale, Kind,
  no_band_scale, automatic_band_scale, tuple_band_scale, make_band_scale,
}
use descarteslabs_python.Scaling.Output.{Scale, output_range}
use descarteslabs_python.Scaling.Parse.{named, listed}
use descarteslabs_python.Scaling.Parameters.{scaling_parameters}
use descarteslabs_python.Scaling.Products.{multiproduct_scaling_parameters}
use descarteslabs_python.Scaling.SingleProduct.{multiproduct_scaling_parameters-single}
use descarteslabs_python.Scaling.Modes.{check_modes, check_implied_data_type}
use descarteslabs_python.Scaling.Agreed.{agreed_mode, modes_of, check_modes-agreed_mode}
use descarteslabs_python.Scaling.GdalScales.{is_gdal}
use descarteslabs_python.Scaling.Returned.{all_gdal-scaling_parameters}
use descarteslabs_python.Scaling.Holding.{holds_range}
use descarteslabs_python.Scaling.ImpliedType.{check_implied_data_type-holds_range}

abbrev hundreds : ℤ → ℕ
hundreds (pos n) = n * 100
hundreds (negsuc n) = 0

abbrev some_of : ℤ → Option ℕ
some_of n = some (hundreds n)

abbrev fixed_point : Floats ℕ
fixed_point = record {
  hundredths = λ n. n;
  of_int = hundreds;
  of_text = λ t. some 5_000;
  add = λ a b. a + b;
  sub = λ a b. a - b;
  mul = λ a b. a * b / 100;
  div = λ a b. a * 100 / b;
  truncate = λ a. ok (pos (a / 100));
  lt_float = ltb;
  lt_int_float = λ n a. ltb (hundreds n) a;
  lt_float_int = λ a n. ltb a (hundreds n);
  eq_float = eqb;
  eq_int_float = λ n a. eqb (hundreds n) a;
}

abbrev red : Properties ℕ
red = record {
  type = some "spectral";
  dtype = some "UInt16";
  data_range = some (int (pos 0), int (pos 10_000));
  default_range = some (int (pos 0), int (pos 4_000));
  physical_range = some (float 0, float 100);
}

abbrev bands : Dict (Properties ℕ)
bands = ("red", red) ∷ ("cloud", record red { type = some "mask"; dtype = some "Byte" }) ∷ []

-- `"raw"` for red and half of its default range for the mask
abbrev half : BandScaling ℕ
half = tuple (num (int (pos 0)) ∷ text "50%" ∷ [])

common_data_type-IsLeastType_example :
    (c : String) × ((common_data_type ("UInt16" ∷ "Int16" ∷ "Byte" ∷ []) ≡ ok (some c))
      × IsLeastType c ("UInt16" ∷ "Int16" ∷ "Byte" ∷ []))
common_data_type-IsLeastType_example =
    common_data_type-IsLeastType "UInt16" ("Int16" ∷ "Byte" ∷ []) refl

multiproduct_scaling_parameters-single_example :
    multiproduct_scaling_parameters fixed_point
      (("modis", bands) ∷ [])
      ("red" ∷ "cloud" ∷ [])
      (some (listed (half ∷ half ∷ [])))
      none
    ≡ scaling_parameters fixed_point bands
        ("red" ∷ "cloud" ∷ [])
        (some (listed (half ∷ half ∷ [])))
        none
multiproduct_scaling_parameters-single_example =
    multiproduct_scaling_parameters-single "modis" bands fixed_point ("red" ∷ "cloud" ∷ [])
      (some (listed (half ∷ half ∷ []))) none

abbrev scale : Kind ℕ → Option ScalingMode → Bool → BandScale ℕ
scale kind mode implied = record {
  kind = kind;
  name = "red";
  type = "spectral";
  dtype = "UInt16";
  data_range = (int (pos 0), int (pos 10_000));
  default_range = (int (pos 0), int (pos 4_000));
  physical_range = (int (pos 0), int (pos 1));
  mode = mode;
  mode_is_implied = implied;
}

abbrev mixed : List (BandScale ℕ)
mixed =
    scale automatic_band_scale (some auto) false
    ∷ scale no_band_scale none true
    ∷ scale automatic_band_scale (some display) false
    ∷ []

check_modes-agreed_mode_example :
    check_modes false (map some mixed) ≡ agreed_mode false (modes_of false mixed)
check_modes-agreed_mode_example = check_modes-agreed_mode false mixed

-- for red, and for the mask
abbrev auto_scales : List (Scale ℕ)
auto_scales = some [] ∷ none ∷ []

all_gdal-scaling_parameters_example : (length auto_scales ≡ 2) × (all is_gdal auto_scales ≡ true)
unfolding scaling_parameters make_band_scale starts_with
all_gdal-scaling_parameters_example =
    all_gdal-scaling_parameters fixed_point bands ("red" ∷ "cloud" ∷ []) (some (named "auto")) none
      auto_scales (some "Byte") refl

check_implied_data_type-holds_range_example :
    (type : String) × ((check_implied_data_type fixed_point
          (map some (scale no_band_scale none true ∷ scale (tuple_band_scale []) none true ∷ []))
        ≡ ok (some type))
      × (((all (holds_range "Int32") ((pos 0, pos 10_000) ∷ (pos 0, pos 255) ∷ []) ≡ true)
            × (all (holds_range type) ((pos 0, pos 10_000) ∷ (pos 0, pos 255) ∷ []) ≡ true))
          ⊎ ((all (holds_range "Int32") ((pos 0, pos 10_000) ∷ (pos 0, pos 255) ∷ []) ≡ false)
              × (type ≡ "Float64"))))
unfolding output_range
check_implied_data_type-holds_range_example =
    check_implied_data_type-holds_range fixed_point
      (scale no_band_scale none true ∷ scale (tuple_band_scale []) none true ∷ [])
      (pos 0, pos 10_000) ((pos 0, pos 255) ∷ []) refl
