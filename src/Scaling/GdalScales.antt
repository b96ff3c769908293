-- ===== src/Scaling/GdalScales.antt =====
-- scenes/_scaling.py: the form of the scales that `scaling_parameters` returns.
use descarteslabs_python.Prelude.{
  String, ◌≡◌, refl, sym, ap, ◌∙◌, Bool, true, false, ◌&&◌, Option, none, some, List, [], ◌∷◌,
  arith, length, all, both,
}
use descarteslabs_python.Python.Result.{ok, bind, bind-ok, ok-injective}
use descarteslabs_python.Scaling.Number.{Number, Floats}
use descarteslabs_python.Scaling.Band.{
  ScalingMode, raw, display, auto, physical, Range, Entry, Kind, no_band_scale,
  automatic_band_scale, tuple_band_scale, BandScale,
}
use descarteslabs_python.Scaling.Output.{
  Scale, is_float_type, calc_pct, calc_each, completed, tuple_ranges, tuple_get_scale,
  automatic_get_scale, scale_of_kind, get_scale,
}
use descarteslabs_python.Scaling.Parse.{Scales}
use descarteslabs_python.Scaling.Parameters.{get_scales}
use descarteslabs_python.Scaling.Lengths.{length-bind_cons}
use descarteslabs_python.Scaling.Made.{made_kind, is_made, implies_mode}

-- `None`, an empty tuple, or a tuple of four numbers
unfoldable pub is_gdal : {F : Type 0} → Scale F → Bool
is_gdal none = true
is_gdal (some []) = true
is_gdal (some (a ∷ b ∷ c ∷ d ∷ [])) = true
is_gdal (some _) = false

is_gdal-four : {F : Type 0} (out : List (Number F)) → length out ≡ 4 → is_gdal (some out) ≡ true
unfolding is_gdal
is_gdal-four (a ∷ b ∷ c ∷ d ∷ []) e = refl
is_gdal-four _ e = ground (arith, e)

abbrev pub all_gdal : {F : Type 0} → List (Scale F) → Bool
all_gdal scales = all is_gdal scales

-- `true` in front
pub and_both : {x y : Bool} → x ≡ true → y ≡ true → (x && y) ≡ true
and_both e f = ground arith

module _ {F : Type 0} (floats : Floats F) where
  length-calc_each :
      (entries : List (Entry F)) (bounds : List (Range F × Bool)) (out : List (Number F))
      → length bounds ≡ length entries
      → calc_each floats entries bounds ≡ ok out
      → length out ≡ length entries
  unfolding calc_each
  length-calc_each [] bounds out l e = ap length (sym (ok-injective e))
  length-calc_each (x ∷ xs) [] out l e = absurd (omega (arith, l))
  length-calc_each (x ∷ xs) ((b, f) ∷ bounds) out l e =
      length-bind_cons (calc_pct floats x b f) _ xs out x
        (λ ns q. length-calc_each xs bounds ns (omega (arith, l)) q) e

  is_gdal-calc_each :
      (entries : List (Entry F)) (scale : BandScale F) (type : String) (irange orange : Range F)
      (out : Scale F)
      → length entries ≡ 4
      → bind
          (calc_each floats entries (
            (irange, is_float_type scale.dtype)
            ∷ (irange, is_float_type scale.dtype)
            ∷ (orange, is_float_type type)
            ∷ (orange, is_float_type type)
            ∷ []))
          (λ ns. ok (some ns))
        ≡ ok out
      → is_gdal out ≡ true
  is_gdal-calc_each entries scale type irange orange out l e =
      let (ns, (q, e1)) = bind-ok (calc_each floats entries _) _ e in
      ap is_gdal (sym (ok-injective e1))
      ∙ is_gdal-four ns (length-calc_each entries _ ns (sym l) q ∙ l)

  is_gdal-tuple :
      (entries : List (Entry F)) (scale : BandScale F) (m mode : Option ScalingMode) (type : String)
      (out : Scale F)
      → implies_mode entries m ≡ true
      → tuple_get_scale floats entries scale mode type ≡ ok out
      → is_gdal out ≡ true
  unfolding tuple_get_scale is_gdal completed
  is_gdal-tuple [] scale m mode type out h e = ap is_gdal (sym (ok-injective e))
  is_gdal-tuple (a ∷ b ∷ []) scale m mode type out h e =
      let ((irange, orange), (p, e1)) = bind-ok (tuple_ranges floats scale mode type) _ e in
      is_gdal-calc_each (completed (a ∷ b ∷ []) orange) scale type irange orange out refl e1
  is_gdal-tuple (a ∷ b ∷ c ∷ d ∷ []) scale m mode type out h e =
      let ((irange, orange), (p, e1)) = bind-ok (tuple_ranges floats scale mode type) _ e in
      is_gdal-calc_each (a ∷ b ∷ c ∷ d ∷ []) scale type irange orange out refl e1
  is_gdal-tuple _ scale m mode type out h e = ground (arith, h)

  is_gdal-automatic :
      (scale : BandScale F) (mode : Option ScalingMode) (type : String)
      → is_gdal (automatic_get_scale floats scale mode type) ≡ true
  unfolding automatic_get_scale is_gdal
  is_gdal-automatic scale none type = refl
  is_gdal-automatic scale (some raw) type = refl
  is_gdal-automatic scale (some auto) type = refl
  is_gdal-automatic scale (some display) type = refl
  is_gdal-automatic scale (some physical) type = refl

  is_gdal-scale_of_kind :
      (kind : Kind F) (scale : BandScale F) (mode : Option ScalingMode) (type : Option String)
      (out : Scale F)
      → made_kind kind scale.mode scale.mode_is_implied ≡ true
      → scale_of_kind floats kind scale mode type ≡ ok out
      → is_gdal out ≡ true
  unfolding scale_of_kind is_gdal
  is_gdal-scale_of_kind no_band_scale scale mode type out h e = ap is_gdal (sym (ok-injective e))
  is_gdal-scale_of_kind automatic_band_scale scale mode (some t) out h e =
      ap is_gdal (sym (ok-injective e)) ∙ is_gdal-automatic scale scale.mode t
  is_gdal-scale_of_kind (tuple_band_scale entries) scale mode (some t) out h e =
      is_gdal-tuple entries scale scale.mode mode t out (both h).1 e
  is_gdal-scale_of_kind automatic_band_scale scale mode none out h e = cc
  is_gdal-scale_of_kind (tuple_band_scale entries) scale mode none out h e = cc

  pub all_gdal-get_scales :
      (scales : Scales F) (mode : Option ScalingMode) (type : Option String) (out : List (Scale F))
      → all is_made scales ≡ true
      → get_scales floats scales mode type ≡ ok out
      → all_gdal out ≡ true
  unfolding get_scales get_scale is_made
  all_gdal-get_scales [] mode type out h e = ap all_gdal (sym (ok-injective e))
  all_gdal-get_scales (none ∷ scales) mode type out h e = cc
  all_gdal-get_scales (some scale ∷ scales) mode type out h e =
      let (x, (p, e1)) = bind-ok (get_scale floats scale mode type) _ e in
      let (xs, (q, e2)) = bind-ok (get_scales floats scales mode type) _ e1 in
      let (hs, hr) = both {x = is_made (some scale)} h in
      ap all_gdal (sym (ok-injective e2))
      ∙ and_both (is_gdal-scale_of_kind scale.kind scale mode type x hs p)
          (all_gdal-get_scales scales mode type xs hr q)
