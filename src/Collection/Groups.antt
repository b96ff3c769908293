-- ===== src/Collection/Groups.antt =====
-- The groups of `Collection.groupby` of scenes/collection.py.
use mathlib.Core.List.{append_assoc, append-nil}
use descarteslabs_python.Prelude.{
  ◌≡◌, refl, sym, ap, ◌∙◌, Bool, true, false, both, List, [], ◌∷◌, ◌++◌, arith, if◌then◌else◌,
  Bool-cases, inl, inr, some,
}
use descarteslabs_python.Python.Result.{ok}
use descarteslabs_python.Collection.{
  filter, before, sort_by, runs_from, runs_by, predicate, groupby,
}
use descarteslabs_python.Collection.Stable.{
  Sortable, filter-sort_by, bounds, is_sorted, is_sorted-sort_by,
}

-- The items of the first group whose key equals `c`.
unfoldable pub group_of : {A K : Type 0} → (K → K → Bool) → K → List (K × List A) → List A
group_of eq c [] = []
group_of eq c ((k, xs) ∷ groups) = let rest = group_of eq c groups in if eq c k then xs else rest

module _ {A K : Type 0} {le eq : K → K → Bool} (laws : Sortable le eq) (key : A → K) where
  abbrev same : K → List A → List A
  same c l = filter (λ x. eq c (key x)) l

  eq-same : (c k m : K) → eq k m ≡ true → eq c k ≡ eq c m
  eq-same c k m e = ground (
    arith,
    laws.equal k m,
    laws.equal c k,
    laws.equal c m,
    laws.trans c k m,
    laws.trans c m k,
    laws.trans k m c,
    laws.trans m k c,
  )

  -- Nothing after a larger key has a key that equals a smaller one.
  same-larger :
      (c k m : K) (l : List A)
      → eq c k ≡ true
      → le k m ≡ true
      → eq k m ≡ false
      → bounds laws key false m l ≡ true
      → same c l ≡ []
  unfolding filter before
  same-larger c k m [] e h ne b = refl
  same-larger c k m (y ∷ l) e h ne b =
      let (p, q) = both {x = le m (key y)} b in
      let ne' : eq c (key y) ≡ false = ground (
        arith,
        laws.equal c k,
        laws.equal k m,
        laws.equal c (key y),
        laws.trans m (key y) c,
        laws.trans m c k,
      ) in
      rw ne' (same-larger c k m l e h ne q)

  alone :
      (c k : K) (run : List A) (y : A) (l : List A)
      → eq c k ≡ true
      → le k (key y) ≡ true
      → eq k (key y) ≡ false
      → bounds laws key false (key y) l ≡ true
      → run ≡ run ++ same c (y ∷ l)
  unfolding before
  alone c k run y l e h ne b =
      let self : le (key y) (key y) ≡ true = ground (arith, laws.total (key y) (key y)) in
      let all_larger : bounds laws key false (key y) (y ∷ l) ≡ true = rw self b in
      sym (append-nil run)
      ∙ ap (λ xs. run ++ xs) (sym (same-larger c k (key y) (y ∷ l) e h ne all_larger))

  group_of-runs_from :
      (c k : K) (run l : List A)
      → bounds laws key false k l ≡ true
      → is_sorted laws key false l ≡ true
      → group_of eq c (runs_from eq key k run l) ≡ (if eq c k then run ++ same c l else same c l)
  unfolding group_of runs_from filter is_sorted before
  group_of-runs_from c k run [] b s = rw (append-nil run) refl
  group_of-runs_from c k run (y ∷ l) b s =
      let (p, q) = both {x = le k (key y)} b in
      let (by, sorted) = both s in
      elim (Bool-cases (eq k (key y))) [
        | inl e ↦
            rw (e, group_of-runs_from c k (run ++ (y ∷ [])) l q sorted, eq-same c k (key y) e)
              (elim (Bool-cases (eq c (key y))) [
                | inl f ↦ rw f (append_assoc run (y ∷ []) (same c l))
                | inr f ↦ rw f refl
              ])
        | inr e ↦ elim (Bool-cases (eq c k)) [
          | inl f ↦ rw (e, f) (alone c k run y l f p e by)
          | inr f ↦ rw (e, f) (group_of-runs_from c (key y) (y ∷ []) l by sorted)
        ]
      ]

  group_of-runs_by :
      (c : K) (l : List A)
      → is_sorted laws key false l ≡ true
      → group_of eq c (runs_by eq key l) ≡ same c l
  unfolding group_of runs_by filter is_sorted
  group_of-runs_by c [] s = refl
  group_of-runs_by c (x ∷ l) s =
      let (b, sorted) = both s in group_of-runs_from c (key x) (x ∷ []) l b sorted

-- The items of all groups.
unfoldable pub ungrouped : {A K : Type 0} → List (K × List A) → List A
ungrouped [] = []
ungrouped ((k, xs) ∷ groups) = xs ++ ungrouped groups

ungrouped-runs_from :
    {A K : Type 0} (eq : K → K → Bool) (key : A → K) (k : K) (run l : List A)
    → ungrouped (runs_from eq key k run l) ≡ run ++ l
unfolding ungrouped runs_from
ungrouped-runs_from eq key k run [] = refl
ungrouped-runs_from eq key k run (x ∷ l) = elim (Bool-cases (eq k (key x))) [
  | inl e ↦ rw e (ungrouped-runs_from eq key k (run ++ x ∷ []) l ∙ append_assoc run (x ∷ []) l)
  | inr e ↦ rw e (ap (λ xs. run ++ xs) (ungrouped-runs_from eq key (key x) (x ∷ []) l))
]

ungrouped-runs_by :
    {A K : Type 0} (eq : K → K → Bool) (key : A → K) (l : List A) → ungrouped (runs_by eq key l) ≡ l
unfolding ungrouped runs_by
ungrouped-runs_by eq key [] = refl
ungrouped-runs_by eq key (x ∷ l) = ungrouped-runs_from eq key (key x) (x ∷ []) l

-- `groupby` with at least one predicate, whose keys are totally ordered by `<=` with `==`: it does
-- not raise; the groups one after the other are the sorted collection; and for every key `c` the
-- first group that is yielded for it holds exactly the items whose key equals `c`, in the order of
-- the collection.
pub groupby_lem :
    {A K : Type 0} {le eq : K → K → Bool} (laws : Sortable le eq) (tuple : List K → K)
    (predicates : List (A → K)) (key : A → K) (l : List A)
    → predicate le eq tuple predicates ≡ some key
    → (groups : List (K × List A)) × (groupby le eq tuple predicates l ≡ ok groups)
      × (ungrouped groups ≡ sort_by le key false l)
      × ((c : K) → group_of eq c groups ≡ filter (λ x. eq c (key x)) l)
unfolding groupby
groupby_lem {le = le} {eq = eq} laws tuple predicates key l e = (
  runs_by eq key (sort_by le key false l),
  rw (e, groupby) refl,
  ungrouped-runs_by eq key (sort_by le key false l),
  λ c.
      group_of-runs_by laws key c (sort_by le key false l) (is_sorted-sort_by laws key false l)
      ∙ filter-sort_by laws key c false l,
)
