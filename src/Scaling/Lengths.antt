-- ===== src/Scaling/Lengths.antt =====
-- scenes/_scaling.py: one scale for each band.
use descarteslabs_python.Prelude.{
  suc, String, ◌≡◌, refl, sym, ap, ◌∙◌, Bool, false, Option, none, some, List, [], ◌∷◌, length,
}
use descarteslabs_python.Python.Result.{Result, ok, err, bind, bind-ok, ok-injective}
use descarteslabs_python.Python.Dict.{Dict, lookup}
use descarteslabs_python.Scaling.Number.{Error, Floats}
use descarteslabs_python.Scaling.Band.{ScalingMode, Properties, BandScaling, mode_name}
use descarteslabs_python.Scaling.Output.{Scale, get_scale}
use descarteslabs_python.Scaling.Parse.{
  Scaling, named, mapped, listed, unsupported, Scales, scale_for, mapped_scaling, parse_named,
  parse_mapped, parse_listed, parse_given,
}
use descarteslabs_python.Scaling.Parameters.{guess, complete, get_scales, determine}
use descarteslabs_python.Scaling.Modes.{check_modes}

-- An item in front of a list that was made: the shape of every loop here.
module _ {A B : Type 0} where
  pub length-bind_cons :
      (r : Result Error A) (rest : Result Error (List A)) (bands : List B) (out : List A) (b : B)
      → ((l : List A) → rest ≡ ok l → length l ≡ length bands)
      → bind r (λ a. bind rest λ l. ok (a ∷ l)) ≡ ok out
      → length out ≡ length (b ∷ bands)
  length-bind_cons (err x) rest bands out b ih e = cc
  length-bind_cons (ok a) (err x) bands out b ih e = cc
  length-bind_cons (ok a) (ok l) bands out b ih e =
      ap length (sym (ok-injective e)) ∙ ap suc (ih l refl)

module _ {F : Type 0} (floats : Floats F) where
  pub length-get_scales :
      (scales : Scales F) (mode : Option ScalingMode) (type : Option String) (out : List (Scale F))
      → get_scales floats scales mode type ≡ ok out
      → length out ≡ length scales
  unfolding get_scales
  length-get_scales [] mode type out e = ap length (sym (ok-injective e))
  length-get_scales (none ∷ scales) mode type out e = cc
  length-get_scales (some scale ∷ scales) mode type out e =
      length-bind_cons (get_scale floats scale mode type) _ scales out (some scale)
        (length-get_scales scales mode type) e

  length-parse_named :
      (properties : Dict (Properties F)) (bands : List String) (mode : String) (out : Scales F)
      → parse_named floats properties bands mode ≡ ok out
      → length out ≡ length bands
  unfolding parse_named
  length-parse_named properties [] mode out e = ap length (sym (ok-injective e))
  length-parse_named properties (band ∷ bands) mode out e =
      length-bind_cons (scale_for floats properties band (mode_name mode)) _ bands out band
        (length-parse_named properties bands mode) e

  length-parse_mapped :
      (properties : Dict (Properties F)) (bound : Bool) (bands : List String)
      (scaling : Dict (BandScaling F)) (out : Scales F)
      → parse_mapped floats properties bound bands scaling ≡ ok out
      → length out ≡ length bands
  unfolding parse_mapped
  length-parse_mapped properties bound [] scaling out e = ap length (sym (ok-injective e))
  length-parse_mapped properties bound (band ∷ bands) scaling out e =
      let ((value, after), (p, q)) =
        bind-ok (mapped_scaling floats scaling bound (lookup band properties) (lookup band scaling))
          _ e in
      length-bind_cons (scale_for floats properties band value) _ bands out band
        (length-parse_mapped properties after bands scaling) q

  length-parse_listed :
      (properties : Dict (Properties F)) (bands : List String) (values : List (BandScaling F))
      (out : Scales F)
      → parse_listed floats properties bands values ≡ ok out
      → length out ≡ length bands
  unfolding parse_listed
  length-parse_listed properties [] [] out e = ap length (sym (ok-injective e))
  length-parse_listed properties (band ∷ bands) [] out e = cc
  length-parse_listed properties [] (value ∷ values) out e = cc
  length-parse_listed properties (band ∷ bands) (value ∷ values) out e =
      length-bind_cons (scale_for floats properties band value) _ bands out band
        (length-parse_listed properties bands values) e

  -- Every form of the scaling argument that is accepted gives one scale for each band.
  pub length-parse_given :
      (properties : Dict (Properties F)) (bands : List String) (scaling : Scaling F)
      (out : Scales F)
      → parse_given floats properties bands scaling ≡ ok out
      → length out ≡ length bands
  unfolding parse_given
  length-parse_given properties bands (named mode) out e =
      length-parse_named properties bands mode out e
  length-parse_given properties bands (mapped scaling) out e =
      length-parse_mapped properties false bands scaling out e
  length-parse_given properties bands (listed []) out e = cc
  length-parse_given properties bands (listed (value ∷ values)) out e =
      length-parse_listed properties bands (value ∷ values) out e
  length-parse_given properties bands unsupported out e = cc

  pub length-determine :
      (dtypes : Result Error (List String)) (scales : Scales F) (data_type : Option String)
      (out : List (Scale F)) (type : Option String)
      → determine floats dtypes scales data_type ≡ ok (out, type)
      → length out ≡ length scales
  unfolding determine
  length-determine dtypes scales data_type out type e =
      let (explicit, (p, e1)) = bind-ok (check_modes false scales) _ e in
      let ((m, t), (q, e2)) = bind-ok (guess floats scales explicit data_type) _ e1 in
      let ((mode, t'), (r, e3)) = bind-ok (complete dtypes m t) _ e2 in
      let (made, (w, e4)) = bind-ok (get_scales floats scales mode t') _ e3 in
      ap length (sym (ap (λ x. x.0) (ok-injective e4))) ∙ length-get_scales scales mode t' made w
