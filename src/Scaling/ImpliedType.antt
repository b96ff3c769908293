-- ===== src/Scaling/ImpliedType.antt =====
-- scenes/_scaling.py: `check_implied_data_type` on scales whose output ranges are whole numbers.
use descarteslabs_python.Prelude.{
  String, ◌≡◌, refl, sym, ap, ◌∙◌, Bool, true, false, ◌&&◌, ◌⊎◌, inl, inr, Option, none, some, List,
  [], ◌∷◌, map, arith, all, both,
}
use descarteslabs_python.Python.Number.{ℤ}
use descarteslabs_python.Python.Result.{ok, bind}
use descarteslabs_python.Python.Dict.{lookup}
use descarteslabs_python.Scaling.Number.{ltz, int, Floats}
use descarteslabs_python.Scaling.DataType.{data_type_from_range}
use descarteslabs_python.Scaling.Band.{BandScale}
use descarteslabs_python.Scaling.Output.{output_range}
use descarteslabs_python.Scaling.Modes.{
  output_ranges, minimums, maximums, least_of, greatest_of, range_type, type_of_ranges,
  check_implied_data_type,
}
use descarteslabs_python.Scaling.Extremes.{
  best_from, best_from-best, best_from-all, min_from-best_from, max_from-best_from, whole, low_ends,
  high_ends, minimums-whole, maximums-whole, any-is_float-whole,
}
use descarteslabs_python.Scaling.Holding.{
  lez, lez_trans, lez_refl, ltz-lez, integer_ranges, is_within, holds_range,
  data_type_from_range-cases,
}

abbrev least_end : ℤ × ℤ → List (ℤ × ℤ) → ℤ
least_end r rs = best_from (λ n k. ltz n k) r.0 (low_ends rs)

abbrev greatest_end : ℤ × ℤ → List (ℤ × ℤ) → ℤ
greatest_end r rs = best_from (λ n k. ltz k n) r.1 (high_ends rs)

and_both : {x y : Bool} → x ≡ true → y ≡ true → (x && y) ≡ true
and_both e f = ground arith

iff-eq : (x y : Bool) → (x ≡ true → y ≡ true) → (y ≡ true → x ≡ true) → x ≡ y
iff-eq true y f g = sym (f refl)
iff-eq false true f g = g refl
iff-eq false false f g = refl

-- what is within the limits of the hull is within the limits
is_within-hull :
    (limits : Option (ℤ × ℤ)) (low high : ℤ) (l : List (ℤ × ℤ))
    → all (λ n. lez low n) (low_ends l) ≡ true
    → all (λ n. lez n high) (high_ends l) ≡ true
    → is_within (low, high) limits ≡ true
    → all (λ r. is_within r limits) l ≡ true
is_within-hull none low high l below above h = ground (arith, h)
is_within-hull (some (a, b)) low high [] below above h = refl
is_within-hull (some (a, b)) low high (r ∷ l) below above h =
    let left = lez_trans a low r.0 (both h).0 (both below).0 in
    let right = lez_trans r.1 high b (both above).0 (both h).1 in
    and_both (and_both left right)
      (is_within-hull (some (a, b)) low high l (both below).1 (both above).1 h)

all-low_ends :
    (a b : ℤ) (l : List (ℤ × ℤ))
    → all (λ r. is_within r (some (a, b))) l ≡ true
    → (all (λ n. lez a n) (low_ends l) ≡ true) × (all (λ n. lez n b) (high_ends l) ≡ true)
all-low_ends a b [] h = (refl, refl)
all-low_ends a b (r ∷ l) h =
    let (first, rest) = both {x = is_within r (some (a, b))} h in
    let (lows, highs) = all-low_ends a b l rest in
    (and_both (both first).0 lows, and_both (both first).1 highs)

hull-is_within :
    (limits : Option (ℤ × ℤ)) (r : ℤ × ℤ) (rs : List (ℤ × ℤ))
    → all (λ range. is_within range limits) (r ∷ rs) ≡ true
    → is_within (least_end r rs, greatest_end r rs) limits ≡ true
hull-is_within none r rs h = ground (arith, h)
hull-is_within (some (a, b)) r rs h =
    let (lows, highs) = all-low_ends a b (r ∷ rs) h in
    and_both (best_from-all (λ n k. ltz n k) (λ n. lez a n) r.0 (low_ends rs) lows)
      (best_from-all (λ n k. ltz k n) (λ n. lez n b) r.1 (high_ends rs) highs)

least_end-below :
    (r : ℤ × ℤ) (rs : List (ℤ × ℤ)) → all (λ n. lez (least_end r rs) n) (low_ends (r ∷ rs)) ≡ true
least_end-below r rs =
    best_from-best (λ n k. ltz n k) (λ a b c. lez_trans a b c) ltz-lez lez_refl r.0 (low_ends rs)

greatest_end-above :
    (r : ℤ × ℤ) (rs : List (ℤ × ℤ))
    → all (λ n. lez n (greatest_end r rs)) (high_ends (r ∷ rs)) ≡ true
greatest_end-above r rs =
    best_from-best (λ n k. ltz k n) (λ a b c h k. lez_trans c b a k h) (λ a b h. ltz-lez b a h)
      lez_refl r.1 (high_ends rs)

holds_range-all :
    (type : String) (r : ℤ × ℤ) (rs : List (ℤ × ℤ))
    → holds_range type (least_end r rs, greatest_end r rs) ≡ all (holds_range type) (r ∷ rs)
unfolding holds_range
holds_range-all type r rs =
    iff-eq _ _
      (λ h.
        is_within-hull (lookup type integer_ranges) _ _ (r ∷ rs) (least_end-below r rs)
          (greatest_end-above r rs) h)
      (λ h. hull-is_within (lookup type integer_ranges) r rs h)

module _ {F : Type 0} (floats : Floats F) where
  output_ranges-some :
      (scales : List (BandScale F)) → output_ranges (map some scales) ≡ ok (map output_range scales)
  unfolding output_ranges
  output_ranges-some [] = refl
  output_ranges-some (scale ∷ scales) =
      ap (λ r. bind r λ ranges. ok (output_range scale ∷ ranges)) (output_ranges-some scales)

  type_of_ranges-whole :
      (r : ℤ × ℤ) (rs : List (ℤ × ℤ))
      → type_of_ranges floats (map whole (r ∷ rs))
        ≡ ok (
            some (
              data_type_from_range floats
                (some (int (least_end r rs)))
                (some (int (greatest_end r rs)))
                false))
  unfolding type_of_ranges least_of greatest_of range_type minimums maximums
  type_of_ranges-whole r rs =
      rw
        (
          minimums-whole rs,
          maximums-whole rs,
          min_from-best_from floats r.0 (low_ends rs),
          max_from-best_from floats r.1 (high_ends rs),
          any-is_float-whole F (low_ends (r ∷ rs)) (high_ends (r ∷ rs)),
        )
        refl

  -- Where the output ranges are of whole numbers, and Int32 holds them all, the data type that is
  -- found is a whole-number type that holds them all; where Int32 does not, it is Float64.
  pub check_implied_data_type-holds_range :
      (scales : List (BandScale F)) (r : ℤ × ℤ) (rs : List (ℤ × ℤ))
      → map output_range scales ≡ map whole (r ∷ rs)
      → (type : String) × ((check_implied_data_type floats (map some scales) ≡ ok (some type))
          × (((all (holds_range "Int32") (r ∷ rs) ≡ true)
                × (all (holds_range type) (r ∷ rs) ≡ true))
              ⊎ ((all (holds_range "Int32") (r ∷ rs) ≡ false) × (type ≡ "Float64"))))
  unfolding check_implied_data_type
  check_implied_data_type-holds_range scales r rs e =
      let low = least_end r rs in
      let high = greatest_end r rs in
      let type = data_type_from_range floats (some (int low)) (some (int high)) false in
      (
        type,
        (
          ap (λ o. bind o (type_of_ranges floats)) (output_ranges-some scales)
              ∙ ap (type_of_ranges floats) e
              ∙ type_of_ranges-whole r rs,
          elim (data_type_from_range-cases floats low high) [
            | inl (p, q) ↦
                inl (sym (holds_range-all "Int32" r rs) ∙ p, sym (holds_range-all type r rs) ∙ q)
            | inr (p, q) ↦ inr (sym (holds_range-all "Int32" r rs) ∙ p, q)
          ],
        ),
      )
