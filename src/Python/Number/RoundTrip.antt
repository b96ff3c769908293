-- ===== src/Python/Number/RoundTrip.antt =====
-- `int` of what `str` writes.
use Prim.Native.Char.{code}
use Prim.Native.String.{[], ◌∷◌}
use descarteslabs_python.Prelude.{
  ℕ, zero, suc, ◌+◌, ◌*◌, ◌/◌, ◌%◌, ◌<◌, String, ◌≡◌, refl, ap, ◌∙◌, Bool, true, false, some, arith,
  ltb, Bool-cases, inl, inr,
}
use descarteslabs_python.Python.Number.{
  pos, digit, digits_onto, str_of_ℕ, scan_digits, as_pos, int_of_str,
}

code-digit : (d : ℕ) → d < 10 → code (digit d) ≡ b'0' + d
unfolding digit
code-digit zero h = refl
code-digit (suc zero) h = refl
code-digit (suc (suc zero)) h = refl
code-digit (suc (suc (suc zero))) h = refl
code-digit (suc (suc (suc (suc zero)))) h = refl
code-digit (suc (suc (suc (suc (suc zero))))) h = refl
code-digit (suc (suc (suc (suc (suc (suc zero)))))) h = refl
code-digit (suc (suc (suc (suc (suc (suc (suc zero))))))) h = refl
code-digit (suc (suc (suc (suc (suc (suc (suc (suc zero)))))))) h = refl
code-digit (suc (suc (suc (suc (suc (suc (suc (suc (suc zero))))))))) h = refl
code-digit (suc (suc (suc (suc (suc (suc (suc (suc (suc (suc d)))))))))) h = absurd (omega arith)

scan_digits-digit :
    (n d : ℕ) (after : Bool) (s : String)
    → d < 10
    → scan_digits n after (digit d ∷ s) ≡ scan_digits (n * 10 + d) true s
unfolding scan_digits
scan_digits-digit n d after s h = ground (arith, code-digit d)

scan-digits_onto :
    (fuel n : ℕ) (tail : String)
    → n < fuel
    → scan_digits 0 false (digits_onto fuel n tail) ≡ scan_digits n true tail
unfolding digits_onto
scan-digits_onto zero n tail h = absurd (omega arith)
scan-digits_onto (suc fuel) n tail h = elim (Bool-cases (ltb n 10)) [
  | inl one ↦ rw one (
      scan_digits-digit 0 n false tail (ground arith)
      ∙ ap (λ k. scan_digits k true tail) (omega arith))
  | inr more ↦ rw more (
      scan-digits_onto fuel (n / 10) (digit (n % 10) ∷ tail) (ground arith)
      ∙ scan_digits-digit (n / 10) (n % 10) true tail (omega arith)
      ∙ ap (λ k. scan_digits k true tail) (omega arith))
]

int_of_str-digit :
    (d : ℕ) (s : String)
    → d < 10
    → int_of_str (digit d ∷ s) ≡ as_pos (scan_digits 0 false (digit d ∷ s))
unfolding int_of_str
int_of_str-digit d s h = ground (arith, code-digit d)

-- A text that begins with a digit is read as digits.
digits_onto-head :
    (fuel n : ℕ) (tail : String)
    → n < fuel
    → (d : ℕ) × (s : String) × (d < 10) × (digits_onto fuel n tail ≡ digit d ∷ s)
unfolding digits_onto
digits_onto-head zero n tail h = absurd (omega arith)
digits_onto-head (suc fuel) n tail h = elim (Bool-cases (ltb n 10)) [
  | inl one ↦ (n, tail, ground arith, rw one)
  | inr more ↦ rw more (digits_onto-head fuel (n / 10) (digit (n % 10) ∷ tail) (ground arith))
]

int_of_str_of_digits :
    (r s : String) (d : ℕ)
    → d < 10
    → r ≡ digit d ∷ s
    → int_of_str r ≡ as_pos (scan_digits 0 false r)
int_of_str_of_digits r s d small e = rw e (int_of_str-digit d s small)

pub int_of_str-str_of_ℕ : (n : ℕ) → int_of_str (str_of_ℕ n) ≡ some (pos n)
unfolding str_of_ℕ as_pos scan_digits
int_of_str-str_of_ℕ n =
    let (d, s, small, e) = digits_onto-head (suc n) n [] (omega arith) in
    int_of_str_of_digits (digits_onto (suc n) n []) s d small e
    ∙ ap as_pos (scan-digits_onto (suc n) n [] (omega arith))
