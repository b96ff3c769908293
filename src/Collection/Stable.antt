-- ===== src/Collection/Stable.antt =====
-- The order of what `Collection.sorted` of scenes/collection.py returns.
use mathlib.Core.Path.{subst, fun_ext}
use descarteslabs_python.Prelude.{
  ◌≡◌, refl, sym, ◌∙◌, Bool, true, false, both, ◌&&◌, ◌||◌, List, [], ◌∷◌, all, map, ap, arith,
  Bool-cases, inl, inr,
}
use descarteslabs_python.Python.Result.{ok, err}
use descarteslabs_python.Collection.{
  type_error, filter, before, insert_by, sort_by, keys_of, predicate, sorted,
}

-- What Python asks of keys that can be sorted and grouped.
pub record Sortable {K : Type 0} (le eq : K → K → Bool) : Type 0 where
  pub total : (a b : K) → (le a b || le b a) ≡ true
  pub trans : (a b c : K) → le a b ≡ true → le b c ≡ true → le a c ≡ true
  pub equal : (a b : K) → eq a b ≡ (le a b && le b a)

module _ {A K : Type 0} {le eq : K → K → Bool} (laws : Sortable le eq) (key : A → K) where
  same_le : (c a b : K) → eq c a ≡ true → eq c b ≡ true → le a b ≡ true
  same_le c a b p q =
      let (ca, ac) = both (sym (laws.equal c a) ∙ p) in
      let (cb, bc) = both (sym (laws.equal c b) ∙ q) in laws.trans a c b ac cb

  same_before : (r : Bool) (c a b : K) → eq c a ≡ true → eq c b ≡ true → before le r a b ≡ true
  unfolding before
  same_before true c a b p q = same_le c b a q p
  same_before false c a b p q = same_le c a b p q

  filter-insert_by :
      (c : K) (r : Bool) (x : A) (l : List A)
      → filter (λ y. eq c (key y)) (insert_by le key r x l) ≡ filter (λ y. eq c (key y)) (x ∷ l)
  unfolding filter insert_by
  filter-insert_by c r x [] = refl
  filter-insert_by c r x (y ∷ l) =
      ground (arith, filter-insert_by c r x l, same_before r c (key x) (key y))

  -- Python's sort keeps the items with a key equal to `c` in their order, for every `c`, if the tests
  -- `<=` and `==` on keys are those of a total order; `reverse` does not change that.
  pub filter-sort_by :
      (c : K) (reverse : Bool) (l : List A)
      → filter (λ x. eq c (key x)) (sort_by le key reverse l) ≡ filter (λ x. eq c (key x)) l
  unfolding filter sort_by
  filter-sort_by c r [] = refl
  filter-sort_by c r (x ∷ l) =
      rw (filter-insert_by c r x (sort_by le key r l)) (ground (arith, filter-sort_by c r l))

  abbrev pub bounds : Bool → K → List A → Bool
  bounds reverse k l = all (λ y. before le reverse k (key y)) l

  unfoldable pub is_sorted : Bool → List A → Bool
  is_sorted reverse [] = true
  is_sorted reverse (x ∷ l) = bounds reverse (key x) l && is_sorted reverse l

  bounds-insert_by :
      (r : Bool) (k : K) (x : A) (l : List A)
      → bounds r k (insert_by le key r x l) ≡ (before le r k (key x) && bounds r k l)
  unfolding insert_by
  bounds-insert_by r k x [] = refl
  bounds-insert_by r k x (y ∷ l) = ground (arith, bounds-insert_by r k x l)

  bounds_trans :
      (r : Bool) (k m : K) (l : List A)
      → before le r k m ≡ true
      → bounds r m l ≡ true
      → bounds r k l ≡ true
  unfolding before
  bounds_trans r k m [] e h = refl
  bounds_trans true k m (y ∷ l) e h =
      let (p, q) = both h in rw (laws.trans (key y) m k p e) (bounds_trans true k m l e q)
  bounds_trans false k m (y ∷ l) e h =
      let (p, q) = both h in rw (laws.trans k m (key y) e p) (bounds_trans false k m l e q)

  before-total : (r : Bool) (a b : K) → before le r a b ≡ false → before le r b a ≡ true
  unfolding before
  before-total true a b e = ground (arith, laws.total a b)
  before-total false a b e = ground (arith, laws.total a b)

  is_sorted-insert_by :
      (r : Bool) (x : A) (l : List A)
      → is_sorted r l ≡ true
      → is_sorted r (insert_by le key r x l) ≡ true
  unfolding insert_by is_sorted
  is_sorted-insert_by r x [] h = refl
  is_sorted-insert_by r x (y ∷ l) h =
      let (p, q) = both h in
      elim (Bool-cases (before le r (key x) (key y))) [
        | inl e ↦ rw (e, e, bounds_trans r (key x) (key y) l e p, p) q
        | inr e ↦
            rw (e, bounds-insert_by r (key y) x l, before-total r (key x) (key y) e, p)
              (is_sorted-insert_by r x l q)
      ]

  -- What Python's sort returns is in the order of its keys, descending with `reverse`, if the tests `<=` and
  -- `==` on keys are those of a total order.
  pub is_sorted-sort_by : (r : Bool) (l : List A) → is_sorted r (sort_by le key r l) ≡ true
  unfolding is_sorted sort_by
  is_sorted-sort_by r [] = refl
  is_sorted-sort_by r (x ∷ l) = is_sorted-insert_by r x (sort_by le key r l) (is_sorted-sort_by r l)

-- The key that items are sorted by: the one predicate's value, or the tuple of several.
abbrev pub sort_key : {A K : Type 0} → (List K → K) → (A → K) → List (A → K) → A → K
sort_key tuple p [] x = p x
sort_key tuple p (q ∷ ps) x = tuple (map (λ r. r x) (p ∷ q ∷ ps))

-- `l` in the order of `key`, descending with `reverse`, where items with equal keys keep their order.
pub record Ordered {A K : Type 0} {le eq : K → K → Bool} (laws : Sortable le eq) (key : A → K)
    (reverse : Bool) (l out : List A) : Type 0 where
  pub in_order : is_sorted laws key reverse out ≡ true
  pub stable : (c : K) → filter (λ x. eq c (key x)) out ≡ filter (λ x. eq c (key x)) l

module _ {A K : Type 0} {le eq : K → K → Bool} (laws : Sortable le eq) (tuple : List K → K) where
  keys_of-map : (ps : List (A → K)) (x : A) → keys_of le eq tuple ps x ≡ map (λ r. r x) ps
  unfolding keys_of
  keys_of-map [] x = refl
  keys_of-map (p ∷ ps) x = ap (λ l. p x ∷ l) (keys_of-map ps x)

  Ordered-sort_by :
      (key : A → K) (reverse : Bool) (l : List A)
      → Ordered laws key reverse l (sort_by le key reverse l)
  Ordered-sort_by key reverse l = record {
    in_order = is_sorted-sort_by laws key reverse l;
    stable = λ c. filter-sort_by laws key c reverse l;
  }

  sorted-Ordered_key :
      (reverse : Bool) (l : List A) (p : A → K) (ps : List (A → K))
      → (out : List A) × (sorted le eq tuple (p ∷ ps) reverse l ≡ ok out)
        × Ordered laws (sort_key tuple p ps) reverse l out
  unfolding sorted predicate
  sorted-Ordered_key reverse l p [] = (_, refl, Ordered-sort_by p reverse l)
  sorted-Ordered_key reverse l p (q ∷ ps) = (
    _,
    refl,
    subst
        (λ key.
          Ordered laws key reverse l
            (sort_by le (λ x. tuple (keys_of le eq tuple (p ∷ q ∷ ps) x)) reverse l))
        (fun_ext λ x. ap tuple (keys_of-map (p ∷ q ∷ ps) x))
        (Ordered-sort_by (λ x. tuple (keys_of le eq tuple (p ∷ q ∷ ps) x)) reverse l),
  )

  -- `sorted` of a collection, if the tests `<=` and `==` on keys are those of a total order: with no
  -- predicate it raises a `TypeError`; with predicates it returns the items in the order of their keys,
  -- descending with `reverse`, where the key is the value of the one predicate or the tuple of the
  -- values of several; and for every key it returns all items with a key equal to it, in the order
  -- that they had.
  pub sorted-Ordered :
      (reverse : Bool) (l : List A)
      → (sorted le eq tuple [] reverse l ≡ err type_error)
        × ((p : A → K) (ps : List (A → K))
            → (out : List A) × (sorted le eq tuple (p ∷ ps) reverse l ≡ ok out)
              × Ordered laws (sort_key tuple p ps) reverse l out)
  unfolding sorted predicate
  sorted-Ordered reverse l = (refl, sorted-Ordered_key reverse l)
