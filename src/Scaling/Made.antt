-- ===== src/Scaling/Made.antt =====
-- scenes/_scaling.py: the scales that `make_band_scale` makes, and the tuples they give.
use descarteslabs_python.Prelude.{
  suc, String, ◌≡◌, refl, sym, ap, ◌∙◌, Bool, true, false, not, ◌&&◌, Option, none, some, List, [],
  ◌∷◌, arith, length, Bool-cases, inl, inr,
}
use descarteslabs_python.Python.Result.{Result, ok, err, bind, bind-ok, ok-injective}
use descarteslabs_python.Scaling.Number.{Error, Floats}
use descarteslabs_python.Scaling.Band.{
  ScalingMode, display, auto, physical, is_unscaled_type, Properties, TupleItem, BandScaling,
  unscaled, mode_name, tuple, unknown, Entry, percentage, number, Kind, no_band_scale,
  automatic_band_scale, tuple_band_scale, BandScale, band_scale, check_item, check_items,
  tuple_mode, tuple_scale, has_tuple_length, named_scale, make_band_scale, scaling_mode,
  type_for_mode, made,
}

abbrev is_percentage_item : {F : Type 0} → Entry F → Bool
is_percentage_item (percentage t) = true
is_percentage_item (number n) = false

-- the mode that a tuple implies; never `raw`
abbrev pub implies_mode : {F : Type 0} → List (Entry F) → Option ScalingMode → Bool
implies_mode [] (some auto) = true
implies_mode (a ∷ b ∷ []) (some display) = true
implies_mode (a ∷ b ∷ c ∷ d ∷ []) (some physical) =
    not (is_percentage_item c && is_percentage_item d)
implies_mode (a ∷ b ∷ c ∷ d ∷ []) none = is_percentage_item c && is_percentage_item d
implies_mode _ _ = false

abbrev pub made_kind : {F : Type 0} → Kind F → Option ScalingMode → Bool → Bool
made_kind no_band_scale mode implied = implied
made_kind automatic_band_scale (some mode) implied = not implied
made_kind automatic_band_scale none implied = false
made_kind (tuple_band_scale entries) mode implied = implied && implies_mode entries mode

-- An automatic scale has an explicit mode, the others have at most an implied one.
unfoldable pub is_made : {F : Type 0} → Option (BandScale F) → Bool
is_made none = true
is_made (some scale) = made_kind scale.kind scale.mode scale.mode_is_implied

-- what holds of the value of a run that does not raise
unfoldable pub ensures {ℓ} : {A : Type ℓ} → (A → Bool) → Result Error A → Bool
ensures p (ok a) = p a
ensures p (err e) = true

pub ensures-ok {ℓ} :
    {A : Type ℓ} (p : A → Bool) {r : Result Error A} {a : A}
    → r ≡ ok a
    → ensures p r ≡ true
    → p a ≡ true
unfolding ensures
ensures-ok p e h = sym (ap (ensures p) e) ∙ h

ensures-err {ℓ} : {A : Type ℓ} (p : A → Bool) (e : Error) → ensures p (err e) ≡ true
unfolding ensures
ensures-err p e = refl

unknown-is_made : (F : Type 0) → ensures (is_made {F = F}) (ok none) ≡ true
unfolding ensures is_made
unknown-is_made F = refl

module _ {A B : Type 0} (q : B → Bool) where
  ensures-bind :
      (r : Result Error A) (f : A → Result Error B)
      → ((a : A) → r ≡ ok a → ensures q (f a) ≡ true)
      → ensures q (bind r f) ≡ true
  unfolding ensures
  ensures-bind (ok a) f h = h a refl
  ensures-bind (err e) f h = refl

module _ {F : Type 0} where
  band_scale-is_made :
      (kind : Kind F) (name : String) (properties : Properties F) (mode : Option ScalingMode)
      (implied : Bool)
      → made_kind kind mode implied ≡ true
      → ensures (λ s. is_made (some s)) (band_scale kind name properties mode implied) ≡ true
  unfolding band_scale ensures is_made
  band_scale-is_made kind name properties mode implied h = ground (arith, h)

module _ {F : Type 0} (floats : Floats F) where
  length-check_items :
      (value : List (TupleItem F)) (entries : List (Entry F))
      → check_items floats value ≡ ok entries
      → length entries ≡ length value
  unfolding check_items
  length-check_items [] entries e = ap length (sym (ok-injective e))
  length-check_items (t ∷ ts) entries e =
      let (x, (p, e1)) = bind-ok (check_item floats t) _ e in
      let (xs, (q, e2)) = bind-ok (check_items floats ts) _ e1 in
      ap length (sym (ok-injective e2)) ∙ ap suc (length-check_items ts xs q)

  implies_mode-tuple_mode :
      (value : List (TupleItem F)) (entries : List (Entry F))
      → has_tuple_length value ≡ true
      → length entries ≡ length value
      → ensures (implies_mode entries) (tuple_mode floats entries) ≡ true
  unfolding has_tuple_length tuple_mode ensures
  implies_mode-tuple_mode [] [] h e = refl
  implies_mode-tuple_mode (a ∷ b ∷ []) (x ∷ y ∷ []) h e = refl
  implies_mode-tuple_mode (a ∷ b ∷ c ∷ d ∷ []) (x ∷ y ∷ number m ∷ w ∷ []) h e = refl
  implies_mode-tuple_mode (a ∷ b ∷ c ∷ d ∷ []) (x ∷ y ∷ percentage t ∷ number n ∷ []) h e = refl
  implies_mode-tuple_mode (a ∷ b ∷ c ∷ d ∷ []) (x ∷ y ∷ percentage t ∷ percentage u ∷ []) h e = refl
  implies_mode-tuple_mode _ _ h e = ground (arith, h, e)

  made-is_made :
      (r : Result Error (BandScale F))
      → ensures (λ s. is_made (some s)) r ≡ true
      → ensures is_made (made r) ≡ true
  unfolding ensures
  made-is_made (ok s) h = h
  made-is_made (err e) h = refl

  -- Every scale that `make_band_scale` makes: the mode of an automatic scale is explicit and always
  -- given; that of the others is implied; and a tuple of length 0, 2 or 4 implies `auto`, `display`,
  -- and `physical` or (with two percentages for the output) nothing, but never `raw`.
  pub make_band_scale-is_made :
      (name : String) (properties : Properties F) (value : BandScaling F)
      → ensures is_made (make_band_scale floats name properties value) ≡ true
  unfolding make_band_scale named_scale tuple_scale
  make_band_scale-is_made name properties unscaled =
      made-is_made _ (band_scale-is_made no_band_scale name properties none true refl)
  make_band_scale-is_made name properties (mode_name value) =
      made-is_made (named_scale name properties value) (
        ensures-bind _ (scaling_mode value) _ λ mode _.
          ensures-bind _ (type_for_mode name properties.type) _ λ type _.
            elim (Bool-cases (is_unscaled_type type)) [
              | inl u ↦
                  rw u (band_scale-is_made no_band_scale name properties (some mode) true refl)
              | inr u ↦
                  rw u
                    (band_scale-is_made automatic_band_scale name properties (some mode) false refl)
            ])
  make_band_scale-is_made name properties (tuple value) =
      elim (Bool-cases (has_tuple_length value)) [
        | inl l ↦ rw l (
            made-is_made (tuple_scale floats name properties value) (
              ensures-bind _ (check_items floats value) _ λ entries c.
                ensures-bind _ (tuple_mode floats entries) _ λ mode m.
                  band_scale-is_made (tuple_band_scale entries) name properties mode true (
                    ensures-ok (implies_mode entries) m (
                      implies_mode-tuple_mode value entries l
                        (length-check_items value entries c)))))
        | inr l ↦ rw l (ensures-err is_made _)
      ]
  make_band_scale-is_made name properties unknown = unknown-is_made F
