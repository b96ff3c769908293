-- ===== src/Prelude/Texts.antt =====
-- The test `==` on texts.
use Prim.Native.String.{String}
use mathlib.Core.Path.{◌≡◌, sym, ◌∙◌}
use mathlib.Core.Logic.{inl, inr}
use mathlib.Core.Bool.{false, false≢true}
use text.Mathlib.Text.{◌==◌}
use text.Mathlib.TextEquality.{eq_iff}
use descarteslabs_python.Prelude.Tests.{Bool-cases}

pub ne_sym : (a b : String) → (a == b) ≡ false → (b == a) ≡ false
ne_sym a b h = elim (Bool-cases (b == a)) [
  | inr e ↦ e
  | inl e ↦ absurd (false≢true (sym h ∙ (eq_iff a b).1 (sym ((eq_iff b a).0 e))))
]
