-- ===== src/Examples/Collection.antt =====
-- Collections of numbers, sorted and grouped by their last digit.
use descarteslabs_python.Prelude.{
  ℕ, ◌%◌, ◌≡◌, refl, true, false, none, some, Option, List, [], ◌∷◌, get_elem?, leb, eqb, arith,
  ◌+◌, if◌then◌else◌,
}
use descarteslabs_python.Python.Number.{pos, negsuc}
use descarteslabs_python.Python.Result.{ok, err}
use descarteslabs_python.Collection.{
  indices, items, place, filter, sort_by, sorted, type_error, predicate, groupby, set_item,
  get_item,
}
use descarteslabs_python.Collection.Stable.{Sortable, Ordered, sort_key, sorted-Ordered}
use descarteslabs_python.Collection.Groups.{group_of, ungrouped, groupby_lem}
use descarteslabs_python.Collection.Assigned.{places, index_list, set_item-get_item}

numbers-Sortable : Sortable leb eqb
numbers-Sortable = record {
  total = λ a b. ground arith;
  trans = λ a b c p q. ground arith;
  equal = λ a b. ground arith;
}

abbrev last_digit : ℕ → ℕ
last_digit n = n % 10

abbrev five_numbers : List ℕ
five_numbers = 21 ∷ 12 ∷ 31 ∷ 42 ∷ 11 ∷ []

abbrev first_of : List ℕ → ℕ
first_of [] = 0
first_of (x ∷ l) = x

groupby_lem_example :
    (groups : List (ℕ × List ℕ)) × (groupby leb eqb first_of (last_digit ∷ []) five_numbers
      ≡ ok groups)
    × (ungrouped groups ≡ sort_by leb last_digit false five_numbers)
    × ((c : ℕ) → group_of eqb c groups ≡ filter (λ x. eqb c (last_digit x)) five_numbers)
unfolding predicate
groupby_lem_example =
    groupby_lem numbers-Sortable first_of (last_digit ∷ []) last_digit five_numbers refl

sorted-Ordered_example :
    (sorted leb eqb first_of [] true five_numbers ≡ err type_error)
    × ((p : ℕ → ℕ) (ps : List (ℕ → ℕ))
        → (out : List ℕ) × (sorted leb eqb first_of (p ∷ ps) true five_numbers ≡ ok out)
          × Ordered numbers-Sortable (sort_key first_of p ps) true five_numbers out)
sorted-Ordered_example = sorted-Ordered numbers-Sortable first_of true five_numbers

-- An item `n` above 100 stands for the sequence `[n, n + 1]`.
abbrev as_pair : ℕ → Option (List ℕ)
as_pair n = if leb 100 n then some (n ∷ (n + 1) ∷ []) else none

set_item-get_item_example :
    (after : List ℕ) × (set_item as_pair (indices (pos 0 ∷ negsuc 0 ∷ [])) 100 five_numbers
      ≡ (ok tt, after))
    × (get_item after (indices (pos 0 ∷ negsuc 0 ∷ [])) ≡ ok (items (100 ∷ 101 ∷ [])))
    × (◌≡◌ {A = Option ℕ} (get_elem? after 3) (get_elem? five_numbers 3))
unfolding index_list places place
set_item-get_item_example =
    set_item-get_item as_pair (indices (pos 0 ∷ negsuc 0 ∷ [])) 100 (100 ∷ 101 ∷ []) five_numbers
      (pos 0 ∷ negsuc 0 ∷ []) (0 ∷ 4 ∷ []) 3 refl refl refl refl refl refl
