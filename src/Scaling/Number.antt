-- ===== src/Scaling/Number.antt =====
-- The numbers of a band's properties and of a scaling tuple, and the exceptions of
-- scenes/_scaling.py. Python's floats are the parameter `Floats`.
use descarteslabs_python.Prelude.{
  ℕ, suc, ◌+◌, ◌-◌, String, Bool, true, false, Option, ltb, eqb, if◌then◌else◌,
}
use descarteslabs_python.Python.Number.{ℤ, pos, negsuc}
use descarteslabs_python.Python.Result.{Result}

pub data Error : Type 0 where
  value_error key_error index_error attribute_error type_error overflow_error : Error
  unbound_local_error : Error

unfoldable pub ltz : ℤ → ℤ → Bool
ltz (pos m) (pos n) = ltb m n
ltz (pos m) (negsuc n) = false
ltz (negsuc m) (pos n) = true
ltz (negsuc m) (negsuc n) = ltb n m

eqz : ℤ → ℤ → Bool
eqz (pos m) (pos n) = eqb m n
eqz (negsuc m) (negsuc n) = eqb m n
eqz _ _ = false

-- m - n
difference : ℕ → ℕ → ℤ
difference m n = if ltb m n then negsuc (n - suc m) else pos (m - n)

unfoldable pub subtract : ℤ → ℤ → ℤ
unfolding difference
subtract (pos m) (pos n) = difference m n
subtract (pos m) (negsuc n) = pos (m + suc n)
subtract (negsuc m) (pos n) = negsuc (m + n)
subtract (negsuc m) (negsuc n) = difference n m

pub data Number (F : Type 0) : Type 0 where
  int : ℤ → Number F
  float : F → Number F

-- `hundredths n` is the literal for n/100; `truncate` is `int`, which raises on an infinity and on
-- a float that is not a number.
pub record Floats (F : Type 0) : Type 0 where
  pub hundredths : ℕ → F
  pub of_int : ℤ → F
  pub of_text : String → Option F
  pub add : F → F → F
  pub sub : F → F → F
  pub mul : F → F → F
  pub div : F → F → F
  pub truncate : F → Result Error ℤ
  pub lt_float : F → F → Bool
  pub lt_int_float : ℤ → F → Bool
  pub lt_float_int : F → ℤ → Bool
  pub eq_float : F → F → Bool
  pub eq_int_float : ℤ → F → Bool

module _ {F : Type 0} (floats : Floats F) where
  -- `a < b`
  unfoldable pub lt : Number F → Number F → Bool
  lt (int a) (int b) = ltz a b
  lt (int a) (float b) = floats.lt_int_float a b
  lt (float a) (int b) = floats.lt_float_int a b
  lt (float a) (float b) = floats.lt_float a b

  -- `a == b`
  unfoldable pub eq : Number F → Number F → Bool
  unfolding eqz
  eq (int a) (int b) = eqz a b
  eq (int a) (float b) = floats.eq_int_float a b
  eq (float a) (int b) = floats.eq_int_float b a
  eq (float a) (float b) = floats.eq_float a b

  unfoldable pub to_float : Number F → F
  to_float (int a) = floats.of_int a
  to_float (float a) = a

  -- `b - a`
  unfoldable pub width : Number F → Number F → Number F
  unfolding subtract to_float
  width (int a) (int b) = int (subtract b a)
  width a b = float (floats.sub (to_float b) (to_float a))

abbrev pub is_float : {F : Type 0} → Number F → Bool
is_float (int a) = false
is_float (float a) = true
