-- ===== src/Python/Number.antt =====
-- `str` of a natural number and `int` of a text, over ASCII.
pub mod RoundTrip
use Prim.Native.Char.{Char, code}
use Prim.Native.String.{[], ◌∷◌}
use descarteslabs_python.Prelude.{
  ℕ, zero, suc, ◌+◌, ◌-◌, ◌*◌, ◌/◌, ◌%◌, String, ◌≡◌, refl, Bool, true, false, ◌&&◌, ◌||◌, Option,
  none, some, ltb, leb, eqb, if◌then◌else◌,
}

-- `negsuc n` is -(n + 1).
pub data ℤ : Type 0 where
  pos : ℕ → ℤ
  negsuc : ℕ → ℤ

pub digit : ℕ → Char
digit zero = "0"
digit (suc zero) = "1"
digit (suc (suc zero)) = "2"
digit (suc (suc (suc zero))) = "3"
digit (suc (suc (suc (suc zero)))) = "4"
digit (suc (suc (suc (suc (suc zero))))) = "5"
digit (suc (suc (suc (suc (suc (suc zero)))))) = "6"
digit (suc (suc (suc (suc (suc (suc (suc zero))))))) = "7"
digit (suc (suc (suc (suc (suc (suc (suc (suc zero)))))))) = "8"
digit _ = "9"

-- The digits of `n`, in front of `tail`; more than `n` rounds of fuel are enough.
pub digits_onto : ℕ → ℕ → String → String
unfolding digit
digits_onto zero n tail = tail
digits_onto (suc fuel) n tail =
    let rest = digits_onto fuel (n / 10) (digit (n % 10) ∷ tail) in
    if ltb n 10 then digit n ∷ tail else rest

unfoldable pub str_of_ℕ : ℕ → String
unfolding digits_onto
str_of_ℕ n = digits_onto (suc n) n []

abbrev pub is_digit : Char → Bool
is_digit c = leb b'0' (code c) && leb (code c) b'9'

abbrev pub is_space : Char → Bool
is_space c = eqb (code c) 32 || (leb 9 (code c) && leb (code c) 13)

pub all_spaces : String → Bool
all_spaces [] = true
all_spaces (c ∷ s) = is_space c && all_spaces s

-- The digits of a number, with single underscores between them and spaces after them.
pub scan_digits : ℕ → Bool → String → Option ℕ
unfolding all_spaces
scan_digits n after_digit [] = if after_digit then some n else none
scan_digits n after_digit (c ∷ s) =
    let more = scan_digits (n * 10 + (code c - b'0')) true s in
    let skip = scan_digits n false s in
    if is_digit c
    then more
    else if eqb (code c) b'_' && after_digit
    then skip
    else if is_space c && after_digit && all_spaces s
    then some n
    else none

pub negate : Option ℕ → Option ℤ
negate none = none
negate (some zero) = some (pos 0)
negate (some (suc n)) = some (negsuc n)

pub as_pos : Option ℕ → Option ℤ
as_pos none = none
as_pos (some n) = some (pos n)

-- `int(s)`; `none` is the `ValueError`
unfoldable pub int_of_str : String → Option ℤ
unfolding scan_digits negate as_pos
int_of_str [] = none
int_of_str (c ∷ s) =
    let stripped = int_of_str s in
    if is_space c
    then stripped
    else if eqb (code c) b'-'
    then negate (scan_digits 0 false s)
    else if eqb (code c) b'+'
    then as_pos (scan_digits 0 false s)
    else as_pos (scan_digits 0 false (c ∷ s))

runs :
    (str_of_ℕ 1203 ≡ "1203") × (int_of_str " -1_0 " ≡ some (negsuc 9)) × (int_of_str "1__0" ≡ none)
unfolding str_of_ℕ int_of_str
runs = (refl, refl, refl)
