-- ===== src/Scaling/AllMade.antt =====
-- scenes/_scaling.py: `parse_scaling`, whose scales are all made by `make_band_scale`.
use descarteslabs_python.Prelude.{
  String, ◌≡◌, sym, ap, ◌∙◌, Bool, true, false, Option, List, [], ◌∷◌, all,
}
use descarteslabs_python.Python.Result.{Result, ok, bind, bind-ok, ok-injective}
use descarteslabs_python.Python.Dict.{Dict, lookup}
use descarteslabs_python.Scaling.Number.{Error, key_error, Floats}
use descarteslabs_python.Scaling.Band.{Properties, BandScaling, mode_name, BandScale, required}
use descarteslabs_python.Scaling.Parse.{
  Scaling, named, mapped, listed, unsupported, Scales, scale_for, mapped_scaling, parse_named,
  parse_mapped, parse_listed, parse_given,
}
use descarteslabs_python.Scaling.Made.{is_made, ensures-ok, make_band_scale-is_made}
use descarteslabs_python.Scaling.GdalScales.{and_both}

module _ {F : Type 0} (floats : Floats F) where
  abbrev pub MadeAll : Result Error (Scales F) → Type 0
  MadeAll r = (scales : Scales F) → r ≡ ok scales → all is_made scales ≡ true

  is_made-scale_for :
      (properties : Dict (Properties F)) (band : String) (value : BandScaling F)
      (s : Option (BandScale F))
      → scale_for floats properties band value ≡ ok s
      → is_made s ≡ true
  unfolding scale_for
  is_made-scale_for properties band value s e =
      let (p, (f, e1)) = bind-ok (required key_error (lookup band properties)) _ e in
      ensures-ok is_made e1 (make_band_scale-is_made floats band p value)

  -- one more band in a loop
  MadeAll-cons :
      (properties : Dict (Properties F)) (band : String) (value : BandScaling F)
      (rest : Result Error (Scales F))
      → MadeAll rest
      → MadeAll (
          bind
            (scale_for floats properties band value)
            λ scale. bind rest λ scales. ok (scale ∷ scales))
  MadeAll-cons properties band value rest ih out e =
      let (s, (p, e1)) = bind-ok (scale_for floats properties band value) _ e in
      let (l, (q, e2)) = bind-ok rest _ e1 in
      ap (all is_made) (sym (ok-injective e2))
      ∙ and_both (is_made-scale_for properties band value s p) (ih l q)

  MadeAll-nil : MadeAll (ok [])
  MadeAll-nil out e = ap (all is_made) (sym (ok-injective e))

  MadeAll-parse_named :
      (properties : Dict (Properties F)) (bands : List String) (mode : String)
      → MadeAll (parse_named floats properties bands mode)
  unfolding parse_named
  MadeAll-parse_named properties [] mode = MadeAll-nil
  MadeAll-parse_named properties (band ∷ bands) mode =
      MadeAll-cons properties band (mode_name mode) _ (MadeAll-parse_named properties bands mode)

  MadeAll-parse_mapped :
      (properties : Dict (Properties F)) (bound : Bool) (bands : List String)
      (scaling : Dict (BandScaling F))
      → MadeAll (parse_mapped floats properties bound bands scaling)
  unfolding parse_mapped
  MadeAll-parse_mapped properties bound [] scaling out e = MadeAll-nil out e
  MadeAll-parse_mapped properties bound (band ∷ bands) scaling out e =
      let ((value, after), (p, e1)) =
        bind-ok (mapped_scaling floats scaling bound (lookup band properties) (lookup band scaling))
          _ e in
      MadeAll-cons properties band value _ (MadeAll-parse_mapped properties after bands scaling) out
        e1

  MadeAll-parse_listed :
      (properties : Dict (Properties F)) (bands : List String) (values : List (BandScaling F))
      → MadeAll (parse_listed floats properties bands values)
  unfolding parse_listed
  MadeAll-parse_listed properties [] [] out e = MadeAll-nil out e
  MadeAll-parse_listed properties (band ∷ bands) [] out e = cc
  MadeAll-parse_listed properties [] (value ∷ values) out e = cc
  MadeAll-parse_listed properties (band ∷ bands) (value ∷ values) out e =
      MadeAll-cons properties band value _ (MadeAll-parse_listed properties bands values) out e

  pub MadeAll-parse_given :
      (properties : Dict (Properties F)) (bands : List String) (scaling : Scaling F)
      → MadeAll (parse_given floats properties bands scaling)
  unfolding parse_given
  MadeAll-parse_given properties bands (named mode) out e =
      MadeAll-parse_named properties bands mode out e
  MadeAll-parse_given properties bands (mapped scaling) out e =
      MadeAll-parse_mapped properties false bands scaling out e
  MadeAll-parse_given properties bands (listed []) out e = cc
  MadeAll-parse_given properties bands (listed (value ∷ values)) out e =
      MadeAll-parse_listed properties bands (value ∷ values) out e
  MadeAll-parse_given properties bands unsupported out e = cc
