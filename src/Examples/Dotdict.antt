-- ===== src/Examples/Dotdict.antt =====
-- Calls on `DotDict({"a": [{"b": "x"}]})`.
use descarteslabs_python.Prelude.{some, none, ◌≡◌, refl, false, List, [], ◌∷◌}
use descarteslabs_python.Python.Number.{pos, negsuc}
use descarteslabs_python.Python.Result.{err, ok}
use descarteslabs_python.Dotdict.{
  key_error, value, Value, other, dict, list, end, field, nil, cons, box,
}
use descarteslabs_python.Dotdict.Methods.{
  of_dict, of_list, set_attribute, get_attribute, get_index, pop, attribute, index, call_at,
}
use descarteslabs_python.Dotdict.Builtin.{plain, builtin_at}
use descarteslabs_python.Dotdict.Unboxed.{after_unbox, unbox, is_kept, plain_each}
use descarteslabs_python.Dotdict.History.{
  Call, read, history, builtin_history, history-builtin_history,
}

abbrev nested : Value
nested = dict false (field "a" (list false (cons (dict false (field "b" (other "x") end)) nil)) end)

-- `d.a[-1].c = {}`, `d.a[0].c.e`, `d.a[2]` and `d.pop("z", 1)`
abbrev calls : List Call
calls =
    (attribute "a" ∷ index (negsuc 0) ∷ [], of_dict (set_attribute "c" (dict false end)))
    ∷ (attribute "a" ∷ index (pos 0) ∷ attribute "c" ∷ [], of_dict (get_attribute "e"))
    ∷ (attribute "a" ∷ [], of_list (get_index (pos 2)))
    ∷ ([], of_dict (pop "z" (some (other "1"))))
    ∷ []

history-builtin_history_example :
    (read (history calls (box nested)) ≡ builtin_history calls (plain nested))
    × (plain (after_unbox (history calls (box nested)).1) ≡ plain (history calls (box nested)).1)
unfolding is_kept plain_each
history-builtin_history_example = history-builtin_history calls nested refl refl refl

-- `d.a[0].b = "y"` changes `d`.
changed :
    unbox
      (call_at
        (attribute "a" ∷ index (pos 0) ∷ [])
        (of_dict (set_attribute "b" (other "y")))
        (box nested)).1
    ≡ dict false (field "a" (list false (cons (dict false (field "b" (other "y") end)) nil)) end)
unfolding call_at unbox box
changed = refl

-- `d.pop("z")` gives None, where the built-in one raises a KeyError.
popped :
    ((call_at [] (of_dict (pop "z" none)) (box nested)).0 ≡ ok (value (other "None")))
    × ((builtin_at [] (of_dict (pop "z" none)) nested).0 ≡ err key_error)
unfolding call_at box builtin_at
popped = (refl, refl)
