-- ===== src/Scaling/Agreed.antt =====
-- scenes/_scaling.py: `check_modes`, against the modes as a whole.
use descarteslabs_python.Prelude.{
  ◌≡◌, refl, sym, ◌∙◌, Bool, true, ◌&&◌, Option, none, some, List, [], ◌∷◌, map, arith, all,
  if◌then◌else◌,
}
use descarteslabs_python.Python.Result.{Result, ok, err}
use descarteslabs_python.Scaling.Number.{Error, value_error}
use descarteslabs_python.Scaling.Band.{ScalingMode, raw, display, auto, physical, BandScale}
use descarteslabs_python.Scaling.Modes.{
  same_mode, is_automatic, merge_modes, mode_of, on_merged, on_mode, check_modes_from, check_modes,
}

abbrev conflict : Bool → Result Error (Option ScalingMode)
conflict implied = if implied then ok none else err value_error

-- One mode for all, or `display` where `auto` and `display` are mixed.
unfoldable pub agreed_mode : Bool → List ScalingMode → Result Error (Option ScalingMode)
agreed_mode implied [] = ok none
agreed_mode implied (m ∷ ms) =
    if all (λ n. same_mode n m) ms
    then ok (some m)
    else if is_automatic m && all is_automatic ms
    then ok (some display)
    else conflict implied

module _ {F : Type 0} where
  -- the modes that are looked for
  unfoldable pub modes_of : Bool → List (BandScale F) → List ScalingMode
  unfolding mode_of
  modes_of implied [] = []
  modes_of implied (scale ∷ scales) = with_mode (mode_of implied scale) (modes_of implied scales)
    where
      with_mode : Option ScalingMode → List ScalingMode → List ScalingMode
      with_mode none ms = ms
      with_mode (some m) ms = m ∷ ms

all-display :
    (ms : List ScalingMode) → all (λ n. same_mode n display) ms ≡ true → all is_automatic ms ≡ true
all-display [] h = refl
all-display (display ∷ ms) h = all-display ms h
all-display (raw ∷ ms) h = ground (arith, h)
all-display (auto ∷ ms) h = ground (arith, h)
all-display (physical ∷ ms) h = ground (arith, h)

display_if_automatic :
    (implied : Bool) (ms : List ScalingMode)
    → (if all is_automatic ms then ok (some display) else conflict implied)
      ≡ agreed_mode implied (display ∷ ms)
unfolding agreed_mode
display_if_automatic implied ms = ground (arith, all-display ms)

after : Bool → List ScalingMode → Option ScalingMode → Result Error (Option ScalingMode)
after implied ms none = agreed_mode implied ms
after implied ms (some m) = agreed_mode implied (m ∷ ms)

agreed_mode-merge_modes :
    (implied : Bool) (m n : ScalingMode) (ms : List ScalingMode)
    → on_merged implied (after implied ms) (merge_modes m n) ≡ agreed_mode implied (m ∷ n ∷ ms)
unfolding agreed_mode merge_modes on_merged after
agreed_mode-merge_modes implied display auto ms = sym (display_if_automatic implied ms)
agreed_mode-merge_modes implied auto display ms = sym (display_if_automatic implied ms)
agreed_mode-merge_modes implied raw raw ms = refl
agreed_mode-merge_modes implied display raw ms = refl
agreed_mode-merge_modes implied auto raw ms = refl
agreed_mode-merge_modes implied physical raw ms = refl
agreed_mode-merge_modes implied _ _ ms = refl

module _ {F : Type 0} where
  module _ (implied : Bool) (scales : List (BandScale F)) where
    -- the rest of the loop, as `on_mode` is given it
    abbrev Rest : Type 0
    Rest =
        (mode : Option ScalingMode)
        → check_modes_from implied mode (map some scales)
          ≡ after implied (modes_of implied scales) mode

    on_merged-after :
        Rest
        → (r : Option ScalingMode)
        → on_merged implied (λ m. check_modes_from implied m (map some scales)) r
          ≡ on_merged implied (after implied (modes_of implied scales)) r
    unfolding on_merged
    on_merged-after ih none = refl
    on_merged-after ih (some m) = ih (some m)

    on_mode-after :
        (scale : BandScale F)
        → Rest
        → (mode found : Option ScalingMode) → mode_of implied scale ≡ found
        → on_mode implied (λ m. check_modes_from implied m (map some scales)) mode found
          ≡ after implied (modes_of implied (scale ∷ scales)) mode
    unfolding on_mode modes_of after
    on_mode-after scale ih none none e = rw e (ih none)
    on_mode-after scale ih (some m) none e = rw e (ih (some m))
    on_mode-after scale ih none (some n) e = rw e (ih (some n))
    on_mode-after scale ih (some m) (some n) e = rw e (
        on_merged-after ih (merge_modes m n)
        ∙ agreed_mode-merge_modes implied m n (modes_of implied scales))

  check_modes_from-after : (implied : Bool) (scales : List (BandScale F)) → Rest implied scales
  unfolding check_modes_from modes_of after agreed_mode
  check_modes_from-after implied [] none = refl
  check_modes_from-after implied [] (some m) = refl
  check_modes_from-after implied (scale ∷ scales) mode =
      on_mode-after implied scales scale (check_modes_from-after implied scales) mode
        (mode_of implied scale) refl

  -- The one pass of `check_modes` over scales gives what their modes of that kind agree on: the one
  -- mode they all have, `display` for a mixture of `auto` and `display`, none where there are none,
  -- and otherwise an error, or none for implied modes.
  pub check_modes-agreed_mode :
      (implied : Bool) (scales : List (BandScale F))
      → check_modes implied (map some scales) ≡ agreed_mode implied (modes_of implied scales)
  unfolding check_modes agreed_mode after
  check_modes-agreed_mode implied scales = check_modes_from-after implied scales none
