-- ===== src/Examples/Merging.antt =====
-- Merging values into a graft.
use descarteslabs_python.Prelude.{String, refl, false, List, [], ◌∷◌}
use descarteslabs_python.Python.Number.{pos}
use descarteslabs_python.Graft.Value.{
  Value, number, int, str, seq, dict, nil, cons, Fields, end, field,
}
use descarteslabs_python.Graft.Fields.{get, has, put}
use descarteslabs_python.Graft.Syntax.{is_literal, is_quoted_json}
use descarteslabs_python.Graft.Client.{Guids}
use descarteslabs_python.Graft.Client.Keys.{All}
use descarteslabs_python.Graft.Client.Scopes.{merge_value_grafts}
use descarteslabs_python.Graft.Client.Merged.{MergedAs, merge_value_grafts-MergedAs}

-- `{"1": ["f", "x"], "returns": "1"}`
abbrev call : Fields
call = field "1" (seq (cons (str "f") (cons (str "x") nil))) (field "returns" (str "1") end)

abbrev params : List (String × Value)
params = ("x", number (int (pos 7))) ∷ ("y", dict call) ∷ []

abbrev merged : Fields
merged =
    field "x" (number (int (pos 7)))
      (field "_y" (dict call) (field "y" (seq (cons (str "_y") (cons (dict end) nil))) end))

abbrev two_used : Guids
two_used = record { next = 2; in_use = false }

merge_value_grafts-MergedAs_example : All (λ kv. MergedAs kv.0 kv.1 merged) params
unfolding merge_value_grafts is_literal has get is_quoted_json put
merge_value_grafts-MergedAs_example =
    merge_value_grafts-MergedAs params merged two_used two_used refl refl
