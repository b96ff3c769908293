-- ===== src/Collection.antt =====
-- `Collection` of scenes/collection.py: a list with fancy indexing, sorting and grouping. The items
-- are Python values of a type `A`; the attributes that a subclass copies along are not part of it.
pub mod Groups
pub mod Stable
pub mod Assigned
use descarteslabs_python.Prelude.{
  ℕ, ◌+◌, ◌-◌, Bool, true, false, not, Option, none, some, List, [], ◌∷◌, ◌++◌, map, length,
  get_elem?, set, ltb, eqb, if◌then◌else◌,
}
use descarteslabs_python.Python.Number.{ℤ, pos, negsuc}
use descarteslabs_python.Python.Result.{
  Result, ok, err, Action, pure, raise, lift, bind, ◌>>=◌, ◌>>◌,
}

pub data Error : Type 0 where
  index_error value_error type_error : Error

-- A slice is known by `list(range(*idx.indices(n)))` for a list of length `n`.
pub data Index : Type 0 where
  one : ℤ → Index
  indices : List ℤ → Index
  slice : (ℕ → List ℤ) → Index

pub data Got (A : Type 0) : Type 0 where
  item : A → Got A
  items : List A → Got A

-- The place in a list of length `n` that an index means: `-1` is the last one.
unfoldable pub place : ℕ → ℤ → Option ℕ
place n (pos i) = if ltb i n then some i else none
place n (negsuc i) = if ltb i n then some (n - (i + 1)) else none

unfoldable pub filter : {A : Type 0} → (A → Bool) → List A → List A
filter p [] = []
filter p (x ∷ l) = let rest = filter p l in if p x then x ∷ rest else rest

module _ {A : Type 0} where
  -- `self._list[i]`
  unfoldable pub at : List A → ℤ → Result Error A
  unfolding place
  at l i = elim (place (length l) i) [
    | none ↦ err index_error
    | some p ↦ elim (get_elem? l p) [ none ↦ err index_error | some x ↦ ok x ]
  ]

  unfoldable pub at_each : List A → List ℤ → Result Error (List A)
  unfolding at
  at_each l [] = ok []
  at_each l (i ∷ is) = bind (at l i) λ x. bind (at_each l is) λ xs. ok (x ∷ xs)

  unfoldable pub get_item : List A → Index → Result Error (Got A)
  unfolding at at_each
  get_item l (one i) = bind (at l i) λ x. ok (item x)
  get_item l (indices is) = bind (at_each l is) λ xs. ok (items xs)
  get_item l (slice f) = bind (at_each l (f (length l))) λ xs. ok (items xs)

  -- `self._list[i] = x`
  unfoldable pub set_one : ℤ → A → Action (List A) Error (Unit {0})
  unfolding place
  set_one i x l = elim (place (length l) i) [
    | none ↦ (err index_error, l)
    | some p ↦ (ok tt, set l p x)
  ]

  -- the `for` loop over `zip(idx, item)`
  unfoldable pub set_each : List ℤ → List A → Action (List A) Error (Unit {0})
  unfolding set_one
  set_each (i ∷ is) (x ∷ xs) = do set_one i x; set_each is xs
  set_each _ _ = pure tt

  -- `[item] * n`
  unfoldable pub repeat : List ℤ → A → List A
  repeat [] x = []
  repeat (i ∷ is) x = x ∷ repeat is x

  -- `as_list x` is the items of a sequence `x` that is no text.
  unfoldable pub set_all : (A → Option (List A)) → List ℤ → A → Action (List A) Error (Unit {0})
  unfolding set_each repeat
  set_all as_list is x =
      let xs : List A = elim (as_list x) [ none ↦ repeat is x | some l ↦ l ] in
      if not (eqb (length is) (length xs)) then raise value_error else set_each is xs

  unfoldable pub set_item : (A → Option (List A)) → Index → A → Action (List A) Error (Unit {0})
  unfolding set_one set_all
  set_item as_list (one i) x l = set_one i x l
  set_item as_list (indices is) x l = set_all as_list is x l
  set_item as_list (slice f) x l = set_all as_list (f (length l)) x l

  unfoldable pub append : A → List A → List A
  append x l = l ++ (x ∷ [])

  unfoldable pub extend : List A → List A → List A
  extend l xs = l ++ xs

-- A text predicate stands for the function that `_str_to_predicate` makes of it. Sort keys are values
-- of a type `K` with the tests `<=` and `==` and with tuples.
module _ {K : Type 0} (le : K → K → Bool) where
  -- Python's `sorted` keeps the order of equal keys, `reverse` or not.
  unfoldable pub before : Bool → K → K → Bool
  before reverse a b = if reverse then le b a else le a b

  unfoldable pub insert_by : {A : Type 0} → (A → K) → Bool → A → List A → List A
  unfolding before
  insert_by key reverse x [] = x ∷ []
  insert_by key reverse x (y ∷ l) =
      let rest = insert_by key reverse x l in
      if before reverse (key x) (key y) then x ∷ y ∷ l else y ∷ rest

  unfoldable pub sort_by : {A : Type 0} → (A → K) → Bool → List A → List A
  unfolding insert_by
  sort_by key reverse [] = []
  sort_by key reverse (x ∷ l) = insert_by key reverse x (sort_by key reverse l)

-- `itertools.groupby`: the runs of items with keys equal to the key of the first.
module _ {K : Type 0} (eq : K → K → Bool) where
  unfoldable pub runs_from : {A : Type 0} → (A → K) → K → List A → List A → List (K × List A)
  runs_from key k run [] = (k, run) ∷ []
  runs_from key k run (x ∷ l) =
      let more = runs_from key k (run ++ (x ∷ [])) l in
      let next = runs_from key (key x) (x ∷ []) l in if eq k (key x) then more else (k, run) ∷ next

  unfoldable pub runs_by : {A : Type 0} → (A → K) → List A → List (K × List A)
  unfolding runs_from
  runs_by key [] = []
  runs_by key (x ∷ l) = runs_from key (key x) (x ∷ []) l

module _ {A K : Type 0} (le eq : K → K → Bool) (tuple : List K → K) where
  unfoldable pub keys_of : List (A → K) → A → List K
  keys_of [] x = []
  keys_of (p ∷ ps) x = p x ∷ keys_of ps x

  -- The one predicate, or the tuple of several.
  unfoldable pub predicate : List (A → K) → Option (A → K)
  unfolding keys_of
  predicate [] = none
  predicate (p ∷ []) = some p
  predicate (p ∷ q ∷ ps) = some (λ x. tuple (keys_of (p ∷ q ∷ ps) x))

  unfoldable pub sorted : List (A → K) → Bool → List A → Result Error (List A)
  unfolding predicate sort_by
  sorted predicates reverse l = elim (predicate predicates) [
    | none ↦ err type_error
    | some key ↦ ok (sort_by le key reverse l)
  ]

  unfoldable pub groupby : List (A → K) → List A → Result Error (List (K × List A))
  unfolding predicate sort_by runs_by
  groupby predicates l = elim (predicate predicates) [
    | none ↦ err type_error
    | some key ↦ ok (runs_by eq key (sort_by le key false l))
  ]
