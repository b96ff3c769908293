-- ===== src/Scaling/Extremes.antt =====
-- scenes/_scaling.py: the `min` and `max` that `check_implied_data_type` takes, on whole numbers.
use descarteslabs_python.Prelude.{
  ◌≡◌, refl, ap, ◌∙◌, Bool, true, false, not, ◌&&◌, inl, inr, some, List, [], ◌∷◌, ◌++◌, map, arith,
  any, all, Bool-cases, both, if◌then◌else◌,
}
use descarteslabs_python.Python.Number.{ℤ}
use descarteslabs_python.Scaling.Number.{ltz, Number, int, Floats, lt, is_float}
use descarteslabs_python.Scaling.Output.{OutputRange}
use descarteslabs_python.Scaling.Modes.{minimums, maximums, min_from, max_from}

-- the best of an item and those after it, the first of equal ones
unfoldable pub best_from : (ℤ → ℤ → Bool) → ℤ → List ℤ → ℤ
best_from better m [] = m
best_from better m (n ∷ ns) = best_from better (if better n m then n else m) ns

and_second : {y : Bool} (x z : Bool) → y ≡ true → (x && z) ≡ true → (x && (y && z)) ≡ true
and_second x z e f = ground arith

and_first : {x y : Bool} → x ≡ true → y ≡ true → (x && y) ≡ true
and_first e f = ground arith

without_second : (x y z : Bool) → (x && (y && z)) ≡ true → (x && z) ≡ true
without_second x y z h = ground arith

module _ (better : ℤ → ℤ → Bool)
    (trans : (a b c : ℤ)
      → not (better b a) ≡ true
      → not (better c b) ≡ true
      → not (better c a) ≡ true)
    (asym : (a b : ℤ) → better a b ≡ true → not (better b a) ≡ true)
    (irrefl : (a : ℤ) → not (better a a) ≡ true) where
  abbrev none_better : ℤ → List ℤ → Bool
  none_better k ns = all (λ n. not (better n k)) ns

  none_better-if :
      (m n k : ℤ) (ns : List ℤ) (b : Bool)
      → better n m ≡ b
      → none_better k ((if b then n else m) ∷ ns) ≡ true
      → none_better k (m ∷ n ∷ ns) ≡ true
  none_better-if m n k ns true e h = and_first (trans k n m (both h).0 (asym n m e)) h
  none_better-if m n k ns false e h =
      let worse = trans k m n (both h).0 (ap not e) in and_second _ _ worse h

  -- nothing is better than the best
  pub best_from-best : (m : ℤ) (ns : List ℤ) → none_better (best_from better m ns) (m ∷ ns) ≡ true
  unfolding best_from
  best_from-best m [] = and_first (irrefl m) refl
  best_from-best m (n ∷ ns) =
      none_better-if m n _ ns (better n m) refl (best_from-best (if better n m then n else m) ns)

-- what holds of all holds of the best
pub best_from-all :
    (better : ℤ → ℤ → Bool) (p : ℤ → Bool) (m : ℤ) (ns : List ℤ)
    → all p (m ∷ ns) ≡ true
    → p (best_from better m ns) ≡ true
unfolding best_from
best_from-all better p m [] h = (both h).0
best_from-all better p m (n ∷ ns) h = elim (Bool-cases (better n m)) [
  | inl e ↦ rw e (best_from-all better p n ns (both {x = p m} h).1)
  | inr e ↦ rw e (best_from-all better p m ns (without_second (p m) (p n) (all p ns) h))
]

module _ {F : Type 0} (floats : Floats F) where
  -- the choice of the loop, on whole numbers
  if_int :
      (b : Bool) (n m : ℤ) → Path (Number F) (if b then int n else int m) (int (if b then n else m))
  if_int true n m = refl
  if_int false n m = refl

  pub min_from-best_from :
      (m : ℤ) (ns : List ℤ)
      → min_from floats (int m) (map int ns) ≡ int (best_from (λ n k. ltz n k) m ns)
  unfolding min_from best_from lt
  min_from-best_from m [] = refl
  min_from-best_from m (n ∷ ns) =
      ap (λ k. min_from floats k (map int ns)) (if_int (ltz n m) n m)
      ∙ min_from-best_from (if ltz n m then n else m) ns

  pub max_from-best_from :
      (m : ℤ) (ns : List ℤ)
      → max_from floats (int m) (map int ns) ≡ int (best_from (λ n k. ltz k n) m ns)
  unfolding max_from best_from lt
  max_from-best_from m [] = refl
  max_from-best_from m (n ∷ ns) =
      ap (λ k. max_from floats k (map int ns)) (if_int (ltz m n) n m)
      ∙ max_from-best_from (if ltz m n then n else m) ns

-- the output range of a scale whose bounds are whole numbers
abbrev pub whole : {F : Type 0} → ℤ × ℤ → OutputRange F
whole range = (some (int range.0), some (int range.1))

abbrev pub low_ends : List (ℤ × ℤ) → List ℤ
low_ends = map λ range. range.0

abbrev pub high_ends : List (ℤ × ℤ) → List ℤ
high_ends = map λ range. range.1

module _ {F : Type 0} where
  pub minimums-whole : (l : List (ℤ × ℤ)) → minimums (map (whole {F = F}) l) ≡ map int (low_ends l)
  unfolding minimums
  minimums-whole [] = refl
  minimums-whole (range ∷ l) = ap (λ ns. int range.0 ∷ ns) (minimums-whole l)

  pub maximums-whole : (l : List (ℤ × ℤ)) → maximums (map (whole {F = F}) l) ≡ map int (high_ends l)
  unfolding maximums
  maximums-whole [] = refl
  maximums-whole (range ∷ l) = ap (λ ns. int range.1 ∷ ns) (maximums-whole l)

pub any-is_float-whole :
    (F : Type 0) (ms ns : List ℤ) → any (is_float {F = F}) (map int ms ++ map int ns) ≡ false
any-is_float-whole F [] [] = refl
any-is_float-whole F [] (n ∷ ns) = any-is_float-whole F [] ns
any-is_float-whole F (m ∷ ms) ns = any-is_float-whole F ms ns
