-- ===== src/Scaling/SingleProduct.antt =====
-- scenes/_scaling.py: the two entry points, on one product.
use mathlib.Core.List.{append-nil}
use descarteslabs_python.Prelude.{
  String, ◌≡◌, refl, sym, ap, ◌∙◌, Bool, true, ◌&&◌, Option, none, some, List, [], ◌∷◌, ◌++◌, arith,
  length, take,
}
use descarteslabs_python.Python.Result.{Result, ok, err, bind}
use descarteslabs_python.Python.Dict.{Dict, lookup}
use descarteslabs_python.Scaling.Number.{Error, Floats}
use descarteslabs_python.Scaling.Band.{Properties}
use descarteslabs_python.Scaling.Output.{Scale}
use descarteslabs_python.Scaling.Parse.{Scaling, Scales, parse_given}
use descarteslabs_python.Scaling.Parameters.{
  has_key, has_bands, dtype_of, dtypes, unscaled_type, determine, scaled, parameters_for,
  scaling_parameters,
}
use descarteslabs_python.Scaling.Products.{
  Products, have_bands, product_dtypes, parse_products, agreed, parameters_for_all,
  multiproduct_scaling_parameters,
}
use descarteslabs_python.Scaling.Lengths.{length-parse_given, length-determine}

take-length {ℓ} : {A : Type ℓ} (xs : List A) → take (length xs) xs ≡ xs
take-length [] = refl
take-length (x ∷ xs) = ap (λ l. x ∷ l) (take-length xs)

and-true : (b : Bool) → (b && true) ≡ b
and-true b = ground arith

module _ {F : Type 0} (product : String) (properties : Dict (Properties F)) where
  abbrev single : Products F
  single = (product, properties) ∷ []

  have_bands-single : (bands : List String) → have_bands single bands ≡ has_bands properties bands
  unfolding have_bands has_bands
  have_bands-single [] = refl
  have_bands-single (band ∷ bands) =
      ap (λ b. b && have_bands single bands) (and-true (has_key (lookup band properties)))
      ∙ ap (λ b. has_key (lookup band properties) && b) (have_bands-single bands)

  one_more :
      (r : Result Error String) (rest rest' : Result Error (List String))
      → rest ≡ rest'
      → bind (bind r λ t. ok (t ∷ [])) (λ ts. bind rest λ us. ok (ts ++ us))
        ≡ bind r (λ t. bind rest' λ ts. ok (t ∷ ts))
  one_more (ok t) rest rest' e = ap (λ r. bind r λ us. ok (t ∷ us)) e
  one_more (err x) rest rest' e = refl

  product_dtypes-single :
      (bands : List String) → product_dtypes single bands ≡ dtypes properties bands
  unfolding product_dtypes dtypes
  product_dtypes-single [] = refl
  product_dtypes-single (band ∷ bands) =
      one_more (dtype_of properties band) _ _ (product_dtypes-single bands)

  module _ (floats : Floats F) where
    scales_only : (r : Result Error (Scales F)) → bind r (λ scales. ok (scales ++ [])) ≡ r
    scales_only (ok scales) = ap ok (append-nil scales)
    scales_only (err x) = refl

    parse_products-single :
        (bands : List String) (scaling : Scaling F)
        → parse_products floats single bands scaling ≡ parse_given floats properties bands scaling
    unfolding parse_products
    parse_products-single bands scaling = scales_only (parse_given floats properties bands scaling)

    abbrev Answer : Type 0
    Answer = Result Error (Option (List (Scale F)) × Option String)

    agreed-single :
        (bands : List String) (r : Result Error (List (Scale F) × Option String))
        → ((out : List (Scale F)) (type : Option String)
            → r ≡ ok (out, type)
            → length out ≡ length bands)
        → bind r (agreed floats single bands) ≡ bind r (λ x. ok (scaled x))
    unfolding agreed scaled
    agreed-single bands (err x) h = refl
    agreed-single bands (ok (out, type)) h =
        ap (λ l. ok (some l, type)) (ap (λ n. take n out) (sym (h out type refl)) ∙ take-length out)

    on_parsed :
        (bands : List String) (parsed : Result Error (Scales F))
        (types : Result Error (List String)) (data_type : Option String)
        → ((scales : Scales F) → parsed ≡ ok scales → length scales ≡ length bands)
        → bind parsed
            (λ scales. bind (determine floats types scales data_type) (agreed floats single bands))
          ≡ bind parsed
              (λ scales. bind (determine floats types scales data_type) λ r. ok (scaled r))
    on_parsed bands (err x) types data_type h = refl
    on_parsed bands (ok scales) types data_type h =
        agreed-single bands (determine floats types scales data_type)
          λ out type e. length-determine floats types scales data_type out type e ∙ h scales refl

    parameters_for_all-single :
        (bands : List String) (scaling : Option (Scaling F)) (data_type : Option String)
        → parameters_for_all floats single bands scaling data_type
          ≡ parameters_for floats properties bands scaling data_type
    unfolding parameters_for_all parameters_for scaled
    parameters_for_all-single bands none data_type =
        ap (λ ts. unscaled_type ts data_type) (product_dtypes-single bands)
    parameters_for_all-single bands (some scaling) data_type =
        rw (product_dtypes-single bands, parse_products-single bands scaling)
          (on_parsed bands (parse_given floats properties bands scaling) (dtypes properties bands)
            data_type (length-parse_given floats properties bands scaling))

    -- For one product `multiproduct_scaling_parameters` gives what `scaling_parameters` gives for
    -- its bands, errors included.
    pub multiproduct_scaling_parameters-single :
        (bands : List String) (scaling : Option (Scaling F)) (data_type : Option String)
        → multiproduct_scaling_parameters floats single bands scaling data_type
          ≡ scaling_parameters floats properties bands scaling data_type
    unfolding multiproduct_scaling_parameters scaling_parameters
    multiproduct_scaling_parameters-single bands scaling data_type =
        rw (have_bands-single bands, parameters_for_all-single bands scaling data_type)
