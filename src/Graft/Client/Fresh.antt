-- ===== src/Graft/Client/Fresh.antt =====
-- The keys that `guid` of graft/client/client.py hands out, and the numbers that keys read as.
use descarteslabs_python.Prelude.{
  ℕ, ◌+◌, ◌≤◌, ◌<◌, String, ◌≡◌, sym, ap, ◌∙◌, inl, inr, true, false, some, arith, ◌==◌, eq_iff,
  Bool-cases,
}
use descarteslabs_python.Python.Number.{pos, str_of_ℕ, int_of_str}
use descarteslabs_python.Python.Number.RoundTrip.{int_of_str-str_of_ℕ}
use descarteslabs_python.Graft.Value.{Value, Fields, end}
use descarteslabs_python.Graft.Fields.{has, put, update, has-put, has-update}
use descarteslabs_python.Graft.Client.{binding}

-- Every key of `d` that reads as a number is smaller than `n`.
abbrev pub Below : ℕ → Fields → Type 0
Below n d = (k : String) (m : ℕ) → has k d ≡ true → int_of_str k ≡ some (pos m) → m < n

pub Below-mono : (n n' : ℕ) (d : Fields) → n ≤ n' → Below n d → Below n' d
Below-mono n n' d le h k m here e = omega (arith, h k m here e)

pub Below-end : (n : ℕ) → Below n end
unfolding has
Below-end n k m here e = cc

-- What the two kinds of key that the client adds read as.
pub pos-injective : {a b : ℕ} → some (pos a) ≡ some (pos b) → a ≡ b
pos-injective e = ground arith

str_of_ℕ-lt : (n m : ℕ) (k : String) → str_of_ℕ n ≡ k → int_of_str k ≡ some (pos m) → m < n + 1
str_of_ℕ-lt n m k e p =
    let same : n ≡ m = pos-injective (sym (int_of_str-str_of_ℕ n) ∙ ap int_of_str e ∙ p) in
    omega arith

not_returns : (m : ℕ) (k : String) → "returns" ≡ k → int_of_str k ≡ some (pos m) → ⊥
unfolding int_of_str
not_returns m k e p = cc (ap int_of_str e ∙ p)

-- A new key.
pub Below-put_new :
    (n : ℕ) (v : Value) (d : Fields) → Below n d → Below (n + 1) (put (str_of_ℕ n) v d)
Below-put_new n v d h k m here e = elim (Bool-cases (str_of_ℕ n == k)) [
  | inl p ↦ str_of_ℕ-lt n m k ((eq_iff (str_of_ℕ n) k).0 p) e
  | inr p ↦ omega (arith, h k m (ground (arith, has-put (str_of_ℕ n) k v d)) e)
]

pub Below-put_returns : (n : ℕ) (v : Value) (d : Fields) → Below n d → Below n (put "returns" v d)
Below-put_returns n v d h k m here e = elim (Bool-cases ("returns" == k)) [
  | inl p ↦ absurd (not_returns m k ((eq_iff "returns" k).0 p) e)
  | inr p ↦ h k m (ground (arith, has-put "returns" k v d)) e
]

pub Below-update : (n : ℕ) (d e : Fields) → Below n d → Below n e → Below n (update d e)
Below-update n d e hd he k m here p = elim (Bool-cases (has k e)) [
  | inl q ↦ he k m q p
  | inr q ↦ hd k m (ground (arith, has-update k d e)) p
]

pub Below-binding : (n : ℕ) (v : Value) → Below (n + 1) (binding (str_of_ℕ n) v)
unfolding has
Below-binding n v k m here e = elim (Bool-cases (str_of_ℕ n == k)) [
  | inl p ↦ str_of_ℕ-lt n m k ((eq_iff (str_of_ℕ n) k).0 p) e
  | inr p ↦ absurd (not_returns m k ((eq_iff "returns" k).0 (ground arith)) e)
]

-- A new key is not the word "returns".
pub returns-ne-str_of_ℕ : (n : ℕ) → ("returns" == str_of_ℕ n) ≡ false
returns-ne-str_of_ℕ n = elim (Bool-cases ("returns" == str_of_ℕ n)) [
  | inl p ↦
      absurd
        (not_returns n (str_of_ℕ n) ((eq_iff "returns" (str_of_ℕ n)).0 p) (int_of_str-str_of_ℕ n))
  | inr p ↦ p
]

not_parameters : (m : ℕ) (k : String) → "parameters" ≡ k → int_of_str k ≡ some (pos m) → ⊥
unfolding int_of_str
not_parameters m k e p = cc (ap int_of_str e ∙ p)

pub parameters-ne-str_of_ℕ : (n : ℕ) → (str_of_ℕ n == "parameters") ≡ false
parameters-ne-str_of_ℕ n = elim (Bool-cases (str_of_ℕ n == "parameters")) [
  | inl p ↦ absurd (
      not_parameters n (str_of_ℕ n) (sym ((eq_iff (str_of_ℕ n) "parameters").0 p))
        (int_of_str-str_of_ℕ n))
  | inr p ↦ p
]
