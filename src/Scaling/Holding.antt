-- ===== src/Scaling/Holding.antt =====
-- scenes/_scaling.py: `check_implied_data_type` and `data_type_from_range`, on whole numbers.
use descarteslabs_python.Prelude.{
  String, ◌≡◌, refl, ap, ◌∙◌, Bool, true, false, not, ◌&&◌, ◌⊎◌, inl, inr, Option, none, some, [],
  ◌∷◌, arith, Bool-cases, if◌then◌else◌,
}
use descarteslabs_python.Python.Number.{ℤ, pos, negsuc}
use descarteslabs_python.Python.Dict.{Dict, lookup}
use descarteslabs_python.Scaling.Number.{ltz, int, Floats, lt}
use descarteslabs_python.Scaling.DataType.{
  first_holding, is_below, is_above, is_given, data_type_from_range,
}

-- `a` is at most `b`
abbrev pub lez : ℤ → ℤ → Bool
lez a b = not (ltz b a)

pub lez_trans : (a b c : ℤ) → lez a b ≡ true → lez b c ≡ true → lez a c ≡ true
unfolding ltz
lez_trans (pos a) (pos b) (pos c) h k = ground (arith, h, k)
lez_trans (pos a) (pos b) (negsuc c) h k = ground (arith, h, k)
lez_trans (pos a) (negsuc b) c h k = ground (arith, h)
lez_trans (negsuc a) b (pos c) h k = refl
lez_trans (negsuc a) (pos b) (negsuc c) h k = ground (arith, k)
lez_trans (negsuc a) (negsuc b) (negsuc c) h k = ground (arith, h, k)

pub ltz-lez : (a b : ℤ) → ltz a b ≡ true → lez a b ≡ true
unfolding ltz
ltz-lez (pos a) (pos b) h = ground (arith, h)
ltz-lez (pos a) (negsuc b) h = ground (arith, h)
ltz-lez (negsuc a) (pos b) h = refl
ltz-lez (negsuc a) (negsuc b) h = ground (arith, h)

pub lez_refl : (a : ℤ) → lez a a ≡ true
unfolding ltz
lez_refl (pos a) = ground arith
lez_refl (negsuc a) = ground arith

-- the ranges of the whole-number types, from their widths in bits
abbrev pub integer_ranges : Dict (ℤ × ℤ)
integer_ranges =
    ("Byte", (pos 0, pos 255))
    ∷ ("UInt16", (pos 0, pos 65_535))
    ∷ ("Int16", (negsuc 32_767, pos 32_767))
    ∷ ("UInt32", (pos 0, pos 4_294_967_295))
    ∷ ("Int32", (negsuc 2_147_483_647, pos 2_147_483_647))
    ∷ []

abbrev pub is_within : ℤ × ℤ → Option (ℤ × ℤ) → Bool
is_within range none = false
is_within range (some limits) = lez limits.0 range.0 && lez range.1 limits.1

-- a whole-number type whose range contains the given one
unfoldable pub holds_range : String → ℤ × ℤ → Bool
unfolding lookup
holds_range type range = is_within range (lookup type integer_ranges)

-- the first of the types with `p`, or Int32
abbrev picked : (String → Bool) → String
picked p =
    if p "Byte"
    then "Byte"
    else if p "UInt16"
    then "UInt16"
    else if p "Int16"
    then "Int16"
    else if p "UInt32"
    then "UInt32"
    else "Int32"

p-picked : (p : String → Bool) → p "Int32" ≡ true → p (picked p) ≡ true
p-picked p h = ground (arith, h)

module _ {F : Type 0} (floats : Floats F) where
  data_type_from_range-picked :
      (low high : ℤ)
      → ltz low (negsuc 2_147_483_647) ≡ false
      → ltz (pos 2_147_483_647) high ≡ false
      → data_type_from_range floats (some (int low)) (some (int high)) false
        ≡ picked (λ t. holds_range t (low, high))
  unfolding data_type_from_range first_holding is_below is_above is_given lt holds_range
  data_type_from_range-picked low high a b = rw (a, b) refl

  -- Within the range of Int32 a type is found that holds both ends; beyond it, it is Float64.
  pub data_type_from_range-cases :
      (low high : ℤ)
      → let type = data_type_from_range floats (some (int low)) (some (int high)) false in
        ((holds_range "Int32" (low, high) ≡ true) × (holds_range type (low, high) ≡ true))
        ⊎ ((holds_range "Int32" (low, high) ≡ false) × (type ≡ "Float64"))
  unfolding data_type_from_range first_holding is_below is_above is_given lt holds_range
  data_type_from_range-cases low high = elim (Bool-cases (ltz low (negsuc 2_147_483_647))) [
    | inl a ↦ inr (rw a refl, rw a refl)
    | inr a ↦ elim (Bool-cases (ltz (pos 2_147_483_647) high)) [
      | inl b ↦ inr (rw (a, b) refl, rw (a, b) refl)
      | inr b ↦
          let fits : holds_range "Int32" (low, high) ≡ true = rw (a, b) refl in
          inl (
            fits,
            ap (λ t. holds_range t (low, high)) (data_type_from_range-picked low high a b)
                ∙ p-picked (λ t. holds_range t (low, high)) fits,
          )
    ]
  ]
