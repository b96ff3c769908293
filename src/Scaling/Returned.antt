-- ===== src/Scaling/Returned.antt =====
-- scenes/_scaling.py: what `scaling_parameters` returns for the bands.
use descarteslabs_python.Prelude.{
  String, ◌≡◌, sym, ap, ◌∙◌, Bool, true, false, not, Option, none, some, List, arith, length, all,
  some-injective, if◌then◌else◌,
}
use descarteslabs_python.Python.Result.{Result, ok, err, bind-ok, ok-injective}
use descarteslabs_python.Python.Dict.{Dict}
use descarteslabs_python.Scaling.Number.{Error, value_error, Floats}
use descarteslabs_python.Scaling.Band.{Properties}
use descarteslabs_python.Scaling.Output.{Scale}
use descarteslabs_python.Scaling.Parse.{Scaling, Scales, parse_given}
use descarteslabs_python.Scaling.Parameters.{
  has_bands, is_valid_type, dtypes, guess, complete, get_scales, determine, parameters_for,
  scaling_parameters, scaled, unscaled_type,
}
use descarteslabs_python.Scaling.DataType.{common_data_type}
use descarteslabs_python.Scaling.Modes.{check_modes}
use descarteslabs_python.Scaling.Lengths.{length-parse_given, length-determine}
use descarteslabs_python.Scaling.Made.{is_made}
use descarteslabs_python.Scaling.GdalScales.{is_gdal, all_gdal, all_gdal-get_scales}
use descarteslabs_python.Scaling.AllMade.{MadeAll-parse_given}

-- A run past its guard.
past_guard :
    {A : Type 0} (b : Bool) (x : Error) (r : Result Error A) {a : A}
    → (if not b then err x else r) ≡ ok a
    → r ≡ ok a
past_guard true x r e = e
past_guard false x r e = cc

module _ {F : Type 0} (floats : Floats F) where
  all_gdal-determine :
      (types : Result Error (List String)) (scales : Scales F) (data_type : Option String)
      (out : List (Scale F)) (type : Option String)
      → all is_made scales ≡ true
      → determine floats types scales data_type ≡ ok (out, type)
      → all_gdal out ≡ true
  unfolding determine
  all_gdal-determine types scales data_type out type h e =
      let (explicit, (p, e1)) = bind-ok (check_modes false scales) _ e in
      let ((m, t), (q, e2)) = bind-ok (guess floats scales explicit data_type) _ e1 in
      let ((mode, t'), (r, e3)) = bind-ok (complete types m t) _ e2 in
      let (ss, (w, e4)) = bind-ok (get_scales floats scales mode t') _ e3 in
      ap all_gdal (sym (ap (λ x. x.0) (ok-injective e4)))
      ∙ all_gdal-get_scales floats scales mode t' ss h w

  parameters_for-ok :
      (properties : Dict (Properties F)) (bands : List String) (scaling : Option (Scaling F))
      (data_type : Option String) {r : Option (List (Scale F)) × Option String}
      → scaling_parameters floats properties bands scaling data_type ≡ ok r
      → parameters_for floats properties bands scaling data_type ≡ ok r
  unfolding scaling_parameters
  parameters_for-ok properties bands scaling data_type e =
      past_guard (is_valid_type data_type) value_error _
        (past_guard (has_bands properties bands) value_error _ e)

  -- When `scaling_parameters` returns scales, there is one for each band, and each is `None`, an
  -- empty tuple or a tuple of four numbers.
  pub all_gdal-scaling_parameters :
      (properties : Dict (Properties F)) (bands : List String) (scaling : Option (Scaling F))
      (data_type : Option String) (scales : List (Scale F)) (type : Option String)
      → scaling_parameters floats properties bands scaling data_type ≡ ok (some scales, type)
      → (length scales ≡ length bands) × (all is_gdal scales ≡ true)
  unfolding parameters_for unscaled_type scaled
  all_gdal-scaling_parameters properties bands none (some t) scales type e =
      ground (arith, parameters_for-ok properties bands none (some t) e)
  all_gdal-scaling_parameters properties bands none none scales type e =
      let e' = parameters_for-ok properties bands none none e in
      let (ts, (p, e1)) = bind-ok (dtypes properties bands) _ e' in
      let (t, (q, e2)) = bind-ok (common_data_type ts) _ e1 in ground (arith, e2)
  all_gdal-scaling_parameters properties bands (some scaling) data_type scales type e =
      let e' = parameters_for-ok properties bands (some scaling) data_type e in
      let (parsed, (p, e1)) = bind-ok (parse_given floats properties bands scaling) _ e' in
      let ((out, t), (q, e2)) =
        bind-ok (determine floats (dtypes properties bands) parsed data_type) _ e1 in
      let same : out ≡ scales = some-injective (ap (λ x. x.0) (ok-injective e2)) in
      (
        ap length (sym same)
            ∙ length-determine floats (dtypes properties bands) parsed data_type out t q
            ∙ length-parse_given floats properties bands scaling parsed p,
        ap all_gdal (sym same)
            ∙ all_gdal-determine (dtypes properties bands) parsed data_type out t
                (MadeAll-parse_given floats properties bands scaling parsed p) q,
      )
