-- ===== src/Scaling/Products.antt =====
-- scenes/_scaling.py: `multiproduct_scaling_parameters`.
use descarteslabs_python.Prelude.{
  ℕ, suc, ◌+◌, ◌*◌, String, Bool, true, false, not, ◌&&◌, Option, none, some, List, [], ◌∷◌, ◌++◌,
  length, take, get_elem?, ltb, if◌then◌else◌,
}
use descarteslabs_python.Python.Result.{Result, ok, err, bind}
use descarteslabs_python.Python.Dict.{Dict, lookup}
use descarteslabs_python.Scaling.Number.{Error, value_error, index_error, Number, Floats, eq}
use descarteslabs_python.Scaling.Band.{Properties}
use descarteslabs_python.Scaling.Output.{Scale}
use descarteslabs_python.Scaling.Parse.{Scaling, Scales, parse_given}
use descarteslabs_python.Scaling.Parameters.{
  has_key, is_valid_type, dtype_of, unscaled_type, determine,
}

-- the products' ids, with the properties of the bands of each
abbrev pub Products : Type 0 → Type 0
Products F = Dict (Dict (Properties F))

module _ {F : Type 0} where
  unfoldable pub all_have : String → Products F → Bool
  unfolding lookup
  all_have band [] = true
  all_have band ((product, properties) ∷ products) =
      has_key (lookup band properties) && all_have band products

  unfoldable pub have_bands : Products F → List String → Bool
  unfolding all_have
  have_bands products [] = true
  have_bands products (band ∷ bands) = all_have band products && have_bands products bands

  unfoldable pub dtypes_of : String → Products F → Result Error (List String)
  unfolding dtype_of
  dtypes_of band [] = ok []
  dtypes_of band ((product, properties) ∷ products) =
      let rest = dtypes_of band products in
      bind (dtype_of properties band) λ t. bind rest λ ts. ok (t ∷ ts)

  unfoldable pub product_dtypes : Products F → List String → Result Error (List String)
  unfolding dtypes_of
  product_dtypes products [] = ok []
  product_dtypes products (band ∷ bands) =
      let rest = product_dtypes products bands in
      bind (dtypes_of band products) λ ts. bind rest λ us. ok (ts ++ us)

module _ {F : Type 0} (floats : Floats F) where
  unfoldable pub parse_products : Products F → List String → Scaling F → Result Error (Scales F)
  unfolding parse_given
  parse_products [] bands scaling = ok []
  parse_products ((product, properties) ∷ products) bands scaling =
      let rest = parse_products products bands scaling in
      bind (parse_given floats properties bands scaling)
        λ scales. bind rest λ more. ok (scales ++ more)

  eq_all : List (Number F) → List (Number F) → Bool
  unfolding eq
  eq_all [] [] = true
  eq_all (m ∷ ms) (n ∷ ns) = eq floats m n && eq_all ms ns
  eq_all _ _ = false

  unfoldable pub eq_scale : Scale F → Scale F → Bool
  unfolding eq_all
  eq_scale none none = true
  eq_scale (some ms) (some ns) = eq_all ms ns
  eq_scale _ _ = false

  -- `scales[k] != scales[j]`
  differ : Option (Scale F) → Option (Scale F) → Result Error Bool
  unfolding eq_scale
  differ (some s) (some t) = ok (not (eq_scale s t))
  differ _ _ = err index_error

  -- The message of the `ValueError` reads `bands[i]`, where `i` counts the products.
  mismatch : ℕ → List String → Error
  mismatch i bands = if ltb i (length bands) then value_error else index_error

  -- the loop over the bands for the product `i`: those left, and the place `j` of the first
  unfoldable pub compare_bands :
      List (Scale F) → List String → ℕ → List String → ℕ → Result Error (Unit {0})
  unfolding differ mismatch
  compare_bands scales bands i [] j = ok tt
  compare_bands scales bands i (band ∷ rest) j =
      let next = compare_bands scales bands i rest (suc j) in
      bind (differ (get_elem? scales (i * length bands + j)) (get_elem? scales j))
        λ differs. if differs then err (mismatch i bands) else next

  -- the loop over the products after the first, of which `i` is the place
  unfoldable pub compare_products :
      List (Scale F) → List String → Products F → ℕ → Result Error (Unit {0})
  unfolding compare_bands
  compare_products scales bands [] i = ok tt
  compare_products scales bands (product ∷ products) i =
      let next = compare_products scales bands products (suc i) in
      bind (compare_bands scales bands i bands 0) λ _. next

  after_first : Products F → Products F
  after_first [] = []
  after_first (product ∷ products) = products

  unfoldable pub agreed :
      Products F
      → List String
      → List (Scale F) × Option String
      → Result Error (Option (List (Scale F)) × Option String)
  unfolding compare_products after_first
  agreed products bands (scales, type) =
      bind (compare_products scales bands (after_first products) 1)
        λ _. ok (some (take (length bands) scales), type)

  unfoldable pub parameters_for_all :
      Products F
      → List String
      → Option (Scaling F)
      → Option String
      → Result Error (Option (List (Scale F)) × Option String)
  unfolding unscaled_type parse_products determine agreed product_dtypes
  parameters_for_all products bands none data_type =
      unscaled_type (product_dtypes products bands) data_type
  parameters_for_all products bands (some scaling) data_type =
      bind (parse_products products bands scaling) λ scales.
        bind (determine floats (product_dtypes products bands) scales data_type)
          λ r. agreed products bands r

  unfoldable pub multiproduct_scaling_parameters :
      Products F
      → List String
      → Option (Scaling F)
      → Option String
      → Result Error (Option (List (Scale F)) × Option String)
  unfolding have_bands is_valid_type parameters_for_all
  multiproduct_scaling_parameters products bands scaling data_type =
      if not (have_bands products bands)
      then err value_error
      else if not (is_valid_type data_type)
      then err value_error
      else parameters_for_all products bands scaling data_type
