-- ===== src/Scaling/Text.antt =====
-- The tests on texts of scenes/_scaling.py: `startswith`, `endswith("%")`, `t[:-1]`, `in`, and the
-- characters of a text.
use Prim.Native.Char.{code}
use Prim.Native.String.{[], ◌∷◌}
use descarteslabs_python.Prelude.{String, ◌≡◌, refl, Bool, true, false, ◌&&◌, ◌||◌, List, eqb}

unfoldable pub starts_with : String → String → Bool
starts_with [] s = true
starts_with (c ∷ p) [] = false
starts_with (c ∷ p) (d ∷ s) = eqb (code c) (code d) && starts_with p s

unfoldable pub is_percentage : String → Bool
is_percentage [] = false
is_percentage (c ∷ []) = eqb (code c) b'%'
is_percentage (c ∷ (d ∷ s)) = is_percentage (d ∷ s)

-- `t[:-1]`
unfoldable pub drop_last : String → String
drop_last [] = []
drop_last (c ∷ []) = []
drop_last (c ∷ (d ∷ s)) = c ∷ drop_last (d ∷ s)

-- `p in s`
unfoldable pub is_substring : String → String → Bool
unfolding starts_with
is_substring p [] = starts_with p []
is_substring p (c ∷ s) = starts_with p (c ∷ s) || is_substring p s

unfoldable pub characters : String → List String
characters [] = List.[]
characters (c ∷ s) = List.◌∷◌ (c ∷ []) (characters s)

runs : (is_substring "loat" "Float64" ≡ true) × (is_percentage "2.5%" ≡ true)
unfolding is_substring starts_with is_percentage
runs = (refl, refl)
