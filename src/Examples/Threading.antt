-- ===== src/Examples/Threading.antt =====
-- A wrapper that is used in a process with two threads and in its child.
use descarteslabs_python.Prelude.{ℕ, ◌+◌, ◌*◌, ◌≡◌, [], ◌∷◌}
use descarteslabs_python.Threading.{get, new_wrapper}
use descarteslabs_python.Threading.Stable.{in_process, get-get}
use descarteslabs_python.Threading.Owner.{after_gets, get-after_gets}

abbrev made : ℕ → ℕ → ℕ → ℕ
made pid t n = pid * 100 + t * 10 + n

get-after_gets_example :
    (n : ℕ) × ((get made 8 1 (after_gets made ((7, 1) ∷ (7, 2) ∷ []) (new_wrapper made 7 1))).0
      ≡ made 8 1 n)
get-after_gets_example = get-after_gets made 7 1 ((7, 1) ∷ (7, 2) ∷ []) 8 1

get-get_example :
    (get made 7 2 (
      after_gets made
        (in_process made 7 (1 ∷ []))
        (get made 7 2 (after_gets made (in_process made 7 (1 ∷ [])) (new_wrapper made 7 1))).1)).0
    ≡ (get made 7 2 (after_gets made (in_process made 7 (1 ∷ [])) (new_wrapper made 7 1))).0
get-get_example = get-get made 7 1 2 (1 ∷ []) (1 ∷ [])
