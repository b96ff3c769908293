-- ===== src/Scaling/Parse.antt =====
-- scenes/_scaling.py: `parse_scaling` and `append_alpha_scaling`.
use descarteslabs_python.Prelude.{
  String, Bool, true, false, Option, none, some, List, [], ◌∷◌, ◌++◌, if◌then◌else◌,
}
use descarteslabs_python.Python.Result.{Result, ok, err, bind}
use descarteslabs_python.Python.Dict.{Dict, lookup}
use descarteslabs_python.Scaling.Number.{Error, value_error, key_error, unbound_local_error, Floats}
use descarteslabs_python.Scaling.Band.{
  BandType, band_type, is_unscaled_type, Properties, BandScaling, unscaled, mode_name, BandScale,
  required, make_band_scale,
}

-- The `scaling` argument, when it is not `None`. `listed` is any other iterable.
pub data Scaling (F : Type 0) : Type 0 where
  named : String → Scaling F
  mapped : Dict (BandScaling F) → Scaling F
  listed : List (BandScaling F) → Scaling F
  unsupported : Scaling F

-- the list of what `make_band_scale` returned
abbrev pub Scales : Type 0 → Type 0
Scales F = List (Option (BandScale F))

module _ {F : Type 0} (floats : Floats F) where
  -- `make_band_scale(band, properties[band], value)`
  unfoldable pub scale_for :
      Dict (Properties F) → String → BandScaling F → Result Error (Option (BandScale F))
  unfolding required lookup
  scale_for properties band value =
      bind (required key_error (lookup band properties)) λ p. make_band_scale floats band p value

  unfoldable pub parse_named : Dict (Properties F) → List String → String → Result Error (Scales F)
  unfolding scale_for
  parse_named properties [] mode = ok []
  parse_named properties (band ∷ bands) mode =
      let rest = parse_named properties bands mode in
      bind (scale_for properties band (mode_name mode))
        λ scale. bind rest λ scales. ok (scale ∷ scales)

  -- The message of the `ValueError` names `band_type`, which is bound only after an earlier band
  -- has gone this way.
  checked_type : Bool → Result Error BandType → Result Error BandType
  checked_type bound (ok type) = ok type
  checked_type bound (err e) = err (if bound then value_error else unbound_local_error)

  unfoldable pub mapped_type : Bool → Properties F → Result Error BandType
  unfolding checked_type required
  mapped_type bound p = bind (required key_error p.type) λ type. checked_type bound (band_type type)

  get_default : Option (BandScaling F) → BandScaling F
  get_default none = unscaled
  get_default (some value) = value

  -- The value for a band that the mapping does not have.
  default_scaling :
      Dict (BandScaling F) → Bool → Option (Properties F) → Result Error (BandScaling F)
  unfolding mapped_type get_default lookup
  default_scaling scaling bound none = err key_error
  default_scaling scaling bound (some p) = bind (mapped_type bound p) λ type.
      ok (if is_unscaled_type type then unscaled else get_default (lookup "default_" scaling))

  -- The value for a band, and whether `band_type` is bound after it.
  unfoldable pub mapped_scaling :
      Dict (BandScaling F)
      → Bool
      → Option (Properties F)
      → Option (BandScaling F)
      → Result Error (BandScaling F × Bool)
  unfolding default_scaling
  mapped_scaling scaling bound p (some value) = ok (value, bound)
  mapped_scaling scaling bound p none =
      bind (default_scaling scaling bound p) λ value. ok (value, true)

  unfoldable pub parse_mapped :
      Dict (Properties F) → Bool → List String → Dict (BandScaling F) → Result Error (Scales F)
  unfolding mapped_scaling scale_for lookup
  parse_mapped properties bound [] scaling = ok []
  parse_mapped properties bound (band ∷ bands) scaling =
      let rest : Bool → Result Error (Scales F) =
        λ after. parse_mapped properties after bands scaling in
      bind (mapped_scaling scaling bound (lookup band properties) (lookup band scaling))
        λ (value, after).
          bind (scale_for properties band value)
            λ scale. bind (rest after) λ scales. ok (scale ∷ scales)

  -- The loop over an iterable, with the bands that are left, and the test after it.
  unfoldable pub parse_listed :
      Dict (Properties F) → List String → List (BandScaling F) → Result Error (Scales F)
  unfolding scale_for
  parse_listed properties [] [] = ok []
  parse_listed properties (band ∷ bands) [] = err value_error
  parse_listed properties [] (value ∷ values) = err value_error
  parse_listed properties (band ∷ bands) (value ∷ values) =
      let rest = parse_listed properties bands values in
      bind (scale_for properties band value) λ scale. bind rest λ scales. ok (scale ∷ scales)

  -- After an empty iterable `i` is not bound.
  unfoldable pub parse_given :
      Dict (Properties F) → List String → Scaling F → Result Error (Scales F)
  unfolding parse_named parse_mapped parse_listed
  parse_given properties bands (named mode) = parse_named properties bands mode
  parse_given properties bands (mapped scaling) = parse_mapped properties false bands scaling
  parse_given properties bands (listed []) = err unbound_local_error
  parse_given properties bands (listed (value ∷ values)) =
      parse_listed properties bands (value ∷ values)
  parse_given properties bands unsupported = err value_error

  unfoldable pub parse_scaling :
      Dict (Properties F) → List String → Option (Scaling F) → Result Error (Option (Scales F))
  unfolding parse_given
  parse_scaling properties bands none = ok none
  parse_scaling properties bands (some scaling) =
      bind (parse_given properties bands scaling) λ scales. ok (some scales)

module _ {F : Type 0} where
  unfoldable pub append_alpha : Scaling F → Scaling F
  append_alpha (listed values) = listed (values ++ unscaled ∷ [])
  append_alpha scaling = scaling

  unfoldable pub append_alpha_scaling : Option (Scaling F) → Option (Scaling F)
  unfolding append_alpha
  append_alpha_scaling none = none
  append_alpha_scaling (some scaling) = some (append_alpha scaling)
