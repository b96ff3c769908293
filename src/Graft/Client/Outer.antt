-- ===== src/Graft/Client/Outer.antt =====
-- Which keys `function_graft` of graft/client/client.py moves out of a scope.
use descarteslabs_python.Prelude.{
  ℕ, ◌<◌, String, ◌≡◌, refl, sym, ap, ◌∙◌, true, false, none, arith, ◌==◌, eq_iff, if◌then◌else◌,
  Bool-cases, inl, inr,
}
use mathlib.Core.Bool.{false≢true}
use descarteslabs_python.Python.Number.{ℤ, str_of_ℕ, int_of_str}
use descarteslabs_python.Python.Number.RoundTrip.{int_of_str-str_of_ℕ}
use descarteslabs_python.Graft.Value.{Fields, end, field}
use descarteslabs_python.Graft.Fields.{get, has, has-get}
use descarteslabs_python.Graft.Client.Fresh.{Below}
use descarteslabs_python.Graft.Client.Functions.{is_outer_scope, outer_fields, inner_fields}

pub get-outer_fields :
    (g : ℤ) (k : String) (d : Fields)
    → get k (outer_fields g d) ≡ (if is_outer_scope k g then get k d else none)
unfolding outer_fields get
get-outer_fields g k end = ground arith
get-outer_fields g k (field j v d) = ground (arith, get-outer_fields g k d, outer_of_eq j k g)
  where
    outer_of_eq : (i j : String) (h : ℤ) → (i == j) ≡ true → is_outer_scope i h ≡ is_outer_scope j h
    outer_of_eq i j h e = ap (λ x. is_outer_scope x h) ((eq_iff i j).0 e)

pub get-inner_fields :
    (g : ℤ) (k : String) (d : Fields)
    → get k (inner_fields g d) ≡ (if is_outer_scope k g then none else get k d)
unfolding inner_fields get
get-inner_fields g k end = ground arith
get-inner_fields g k (field j v d) = ground (arith, get-inner_fields g k d, outer_of_eq j k g)
  where
    outer_of_eq : (i j : String) (h : ℤ) → (i == j) ≡ true → is_outer_scope i h ≡ is_outer_scope j h
    outer_of_eq i j h e = ap (λ x. is_outer_scope x h) ((eq_iff i j).0 e)

pub inner_value_graft :
    (g : ℤ) (d : Fields) → has "parameters" d ≡ false → has "parameters" (inner_fields g d) ≡ false
inner_value_graft g d h = ground (
  arith,
  has-get "parameters" (inner_fields g d),
  get-inner_fields g "parameters" d,
  has-get "parameters" d,
)

-- The reserved words are no numbers, so they stay.
pub reserved_stay :
    (g : ℤ) → (is_outer_scope "parameters" g ≡ false) × (is_outer_scope "returns" g ≡ false)
unfolding is_outer_scope int_of_str
reserved_stay g = (refl, refl)

pub outer-ne :
    (g : ℤ) (w k : String)
    → is_outer_scope w g ≡ false
    → is_outer_scope k g ≡ true
    → (w == k) ≡ false
outer-ne g w k stays o = elim (Bool-cases (w == k)) [
  | inl e ↦ absurd (false≢true (sym stays ∙ ap (λ x. is_outer_scope x g) ((eq_iff w k).0 e) ∙ o))
  | inr e ↦ e
]

pub old-ne :
    (n : ℕ) (d : Fields) (k : String) → Below n d → has k d ≡ true → (str_of_ℕ n == k) ≡ false
old-ne n d k old here = elim (Bool-cases (str_of_ℕ n == k)) [
  | inl e ↦
      let same : str_of_ℕ n ≡ k = (eq_iff (str_of_ℕ n) k).0 e in
      absurd (<-irrefl (old k n here (ap int_of_str (sym same) ∙ int_of_str-str_of_ℕ n)))
  | inr e ↦ e
]
  where
    <-irrefl : n < n → ⊥
    <-irrefl h = omega arith

pub outer_value_graft : (g : ℤ) (d : Fields) → has "parameters" (outer_fields g d) ≡ false
outer_value_graft g d = ground (
  arith,
  has-get "parameters" (outer_fields g d),
  get-outer_fields g "parameters" d,
  (reserved_stay g).0,
)
