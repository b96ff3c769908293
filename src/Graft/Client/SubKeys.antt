-- ===== src/Graft/Client/SubKeys.antt =====
-- The names under which `merge_value_grafts` of graft/client/client.py keeps sub-grafts.
use Prim.Native.Char.{Char}
use Prim.Native.String.{String, [], ◌∷◌, ◌++◌, count}
use Prim.Native.String.append
use Prim.Native.String.count
use descarteslabs_python.Prelude.{
  suc, eq_iff, ◌≡◌, ap, ◌∙◌, false, arith, ◌==◌, Bool-cases, inl, inr,
}
use descarteslabs_python.Graft.Client.Scopes.{sub_key}

count_one : (c : Char) (s : String) → count ((c ∷ []) ++ s) ≡ suc (count s)
count_one c s =
    ap count (λ i. append.cons c [] s i)
    ∙ ((λ i. count.cons c ([] ++ s) i) ∙ ap (λ t. suc (count t)) (λ i. append.nil s i))

pub sub_key-ne : (name : String) → (name == sub_key name) ≡ false
sub_key-ne name = elim (Bool-cases (name == sub_key name)) [
  | inr e ↦ e
  | inl e ↦
      let same : count name ≡ suc (count name) =
        ap count ((eq_iff name (sub_key name)).0 e) ∙ count_one "_" name in
      absurd (omega (arith, same))
]
