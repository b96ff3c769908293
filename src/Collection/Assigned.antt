-- ===== src/Collection/Assigned.antt =====
-- `Collection.__setitem__` of scenes/collection.py, and reading back.
use descarteslabs_python.Prelude.{
  ℕ, ◌<◌, ◌≡◌, refl, ap, ◌∙◌, Bool, true, both, not-true, not, ◌&&◌, all, List, [], ◌∷◌, length,
  get_elem?, set, length-set, get_elem?-set_self, get_elem?-set_other, some-injective, arith, eqb,
  Option, none, some, inl, inr, Option-cases,
}
use descarteslabs_python.Python.Number.{ℤ, pos, negsuc}
use descarteslabs_python.Python.Result.{ok}
use descarteslabs_python.Collection.{
  Index, one, slice, place, at, at_each, set_one, set_each, set_all, set_item, get_item, items,
  indices,
}

place-lt : (n : ℕ) (i : ℤ) (p : ℕ) → place n i ≡ some p → p < n
unfolding place
place-lt n (pos i) p e = ground arith
place-lt n (negsuc i) p e = ground arith

-- The places that a list of indices means, if all are in range.
unfoldable pub places : ℕ → List ℤ → Option (List ℕ)
places n [] = some []
places n (i ∷ is) = elim (place n i) [
  | none ↦ none
  | some p ↦ elim (places n is) [ none ↦ none | some ps ↦ some (p ∷ ps) ]
]

places-cons :
    (n : ℕ) (i : ℤ) (is : List ℤ) (ps : List ℕ)
    → places n (i ∷ is) ≡ some ps
    → (p : ℕ) × (qs : List ℕ) × (place n i ≡ some p) × (places n is ≡ some qs) × (p ∷ qs ≡ ps)
unfolding places
places-cons n i is ps e = elim (Option-cases (place n i)) [
  | inl f ↦ absurd (ground (arith, e, f))
  | inr (p, f) ↦ elim (Option-cases (places n is)) [
    | inl g ↦ absurd (ground (arith, e, f, g))
    | inr (qs, g) ↦ (p, qs, f, g, ground (arith, e, f, g))
  ]
]

-- The list of indices that `__setitem__` assigns at, but for a single one.
unfoldable pub index_list : ℕ → Index → Option (List ℤ)
index_list n (one i) = none
index_list n (indices is) = some is
index_list n (slice f) = some (f n)

abbrev pub apart : ℕ → List ℕ → Bool
apart p ps = all (λ q. not (eqb q p)) ps

abbrev pub distinct : List ℕ → Bool
distinct [] = true
distinct (p ∷ ps) = apart p ps && distinct ps

module _ {A : Type 0} where
  set_one-place :
      (l : List A) (i : ℤ) (p : ℕ) (x : A)
      → place (length l) i ≡ some p
      → set_one i x l ≡ (ok tt, set l p x)
  unfolding set_one
  set_one-place l i p x e = rw (e, set_one) refl

  at-place :
      (l : List A) (i : ℤ) (p : ℕ) (x : A)
      → place (length l) i ≡ some p
      → get_elem? l p ≡ some x
      → at l i ≡ ok x
  unfolding at
  at-place l i p x e f = rw (e, at) (rw f refl)

  -- What an assignment of `xs` at the places `ps`, given by `is`, does to `l`.
  pub record Assigned (is : List ℤ) (ps : List ℕ) (xs l : List A) : Type 0 where
    pub after : List A
    pub done : set_each is xs l ≡ (ok tt, after)
    pub same_length : length after ≡ length l
    pub read : at_each after is ≡ ok xs
    pub frame : (q : ℕ) → apart q ps ≡ true → get_elem? after q ≡ get_elem? l q

  set_each-Assigned :
      (is : List ℤ) (ps : List ℕ) (xs l : List A)
      → places (length l) is ≡ some ps
      → distinct ps ≡ true
      → length is ≡ length xs
      → Assigned is ps xs l
  unfolding set_each at_each
  set_each-Assigned [] ps [] l e d n = record {
    after = l;
    done = refl;
    same_length = refl;
    read = refl;
    frame = λ q h. refl;
  }
  set_each-Assigned [] ps (x ∷ xs) l e d n = ground arith
  set_each-Assigned (i ∷ is) ps [] l e d n = ground arith
  set_each-Assigned (i ∷ is) ps (x ∷ xs) l e d n =
      let (p, qs, here, there, cons) = places-cons (length l) i is ps e in
      let (far, d') = both {x = apart p qs} (ap distinct cons ∙ d) in
      let len : length (set l p x) ≡ length l = length-set l p x in
      let rest : Assigned is qs xs (set l p x) =
        set_each-Assigned is qs xs (set l p x) (rw len there) d' (ground arith) in
      let in_range : p < length l = place-lt (length l) i p here in
      let read_p : get_elem? rest.after p ≡ some x =
        rest.frame p far ∙ get_elem?-set_self l p x in_range in
      let len' : length rest.after ≡ length l = rest.same_length ∙ len in
      record {
        after = rest.after;
        done = rw (set_one-place l i p x here) rest.done;
        same_length = len';
        read = rw (at-place rest.after i p x (rw len' here) read_p, rest.read) refl;
        frame = λ q h.
            let (ne, h') = both {x = not (eqb p q)} (ap (apart q) cons ∙ h) in
            rest.frame q h' ∙ get_elem?-set_other l p q x (not-true ne);
      }

  set_all-Assigned :
      (as_list : A → Option (List A)) (is : List ℤ) (x : A) (xs l : List A)
      → as_list x ≡ some xs
      → length is ≡ length xs
      → set_all as_list is x l ≡ set_each is xs l
  unfolding set_all
  set_all-Assigned as_list is x xs l e n = rw (e, eqb_refl (length is) (length xs) n) refl
    where
      eqb_refl : (a b : ℕ) → a ≡ b → eqb a b ≡ true
      eqb_refl a b e = ground arith

  -- `c[idx] = x` for a list or a slice `idx` whose indices are in range and mean different places
  -- and a sequence `x` of as many items: it does not raise, `c[idx]` then reads exactly these items,
  -- and every other place of the list is as it was.
  pub set_item-get_item :
      (as_list : A → Option (List A)) (idx : Index) (x : A) (xs l : List A) (is : List ℤ)
      (ps : List ℕ) (q : ℕ)
      → apart q ps ≡ true
      → index_list (length l) idx ≡ some is
      → as_list x ≡ some xs
      → places (length l) is ≡ some ps
      → distinct ps ≡ true
      → length is ≡ length xs
      → (after : List A) × (set_item as_list idx x l ≡ (ok tt, after))
        × (get_item after idx ≡ ok (items xs))
        × (get_elem? after q ≡ get_elem? l q)
  unfolding set_item get_item index_list
  set_item-get_item as_list (one i) x xs l is ps q far k e v d n = ground (arith, k)
  set_item-get_item as_list (indices js) x xs l is ps q far k e v d n =
      let same = some-injective k in
      let a : Assigned is ps xs l = set_each-Assigned is ps xs l v d n in
      (
        a.after,
        ap (λ js. set_all as_list js x l) same ∙ set_all-Assigned as_list is x xs l e n ∙ a.done,
        rw (same, a.read) refl,
        a.frame q far,
      )
  set_item-get_item as_list (slice f) x xs l is ps q far k e v d n =
      let same = some-injective k in
      let a : Assigned is ps xs l = set_each-Assigned is ps xs l v d n in
      (
        a.after,
        ap (λ js. set_all as_list js x l) same ∙ set_all-Assigned as_list is x xs l e n ∙ a.done,
        rw (a.same_length, same, a.read) refl,
        a.frame q far,
      )
