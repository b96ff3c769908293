-- ===== src/Retry/Total.antt =====
-- How many rounds a call of common/retry/retry.py takes.
use mathlib.Core.Path.{subst}
use descarteslabs_python.Prelude.{
  ℕ, zero, suc, ◌+◌, ◌≤◌, ◌<◌, ◌≡◌, refl, sym, Bool, true, false, Option, none, some, List, [], ◌∷◌,
  ◌++◌, length, length-append, arith, Bool-cases, inl, inr, if◌then◌else◌,
}
use descarteslabs_python.Python.Result.{Result, ok, err}
use descarteslabs_python.Retry.{
  Retry, Limit, deadline_exceeded, retries_exhausted, reraises, deadline_datetime, has_passed,
  check_retries, Ended, World, next_round, after_attempt, retry_loop, retry,
}

ok-injective : {a b : Option ℕ} → ◌≡◌ {A = Result Limit (Option ℕ)} (ok a) (ok b) → a ≡ b
ok-injective e = ground arith

module _ {E A T : Type 0} (r : Retry E T) (w : World E A T) where
  -- At most `n` delays were slept.
  abbrev pub EndedWithin : ℕ → Option (Ended E A T) → Type 0
  EndedWithin n none = ⊥
  EndedWithin n (some o) = length o.slept ≤ n

  EndedWithin-after :
      (m : ℕ) (x : Result E A) (noted : E → Option (Ended E A T)) (slept : List T)
      → length slept ≤ m
      → ((e : E) → EndedWithin m (noted e))
      → EndedWithin m (after_attempt r w x noted slept)
  EndedWithin-after m (ok a) noted slept le h = le
  EndedWithin-after m (err e) noted slept le h = elim (Bool-cases (reraises r e)) [
    | inl p ↦ rw p le
    | inr p ↦ rw p (h e)
  ]

  EndedWithin-next :
      (m : ℕ) (passed : Bool) (x : Result Limit (Option ℕ)) (previous : List E) (slept : List T)
      (again : Option ℕ → Option (Ended E A T))
      → length slept ≤ m
      → ((left : Option ℕ) → x ≡ ok left → EndedWithin m (again left))
      → EndedWithin m
          (next_round r w (if passed then err deadline_exceeded else x) previous slept again)
  EndedWithin-next m true x previous slept again le h = le
  EndedWithin-next m false (err limit) previous slept again le h = le
  EndedWithin-next m false (ok left) previous slept again le h = h left refl

  loop_total :
      (n m fuel i : ℕ) (deadline : Option ℕ) (previous : List E) (slept : List T)
      → n < fuel
      → length slept + n ≤ m
      → EndedWithin m (retry_loop r w fuel deadline i (some n) previous slept)
  unfolding retry_loop check_retries
  loop_total n m zero i deadline previous slept lt le = absurd (omega arith)
  loop_total zero m (suc fuel) i deadline previous slept lt le =
      EndedWithin-after m (w.attempt i) _ slept (omega arith) λ e.
        EndedWithin-next m (has_passed deadline (w.now i)) (err retries_exhausted)
          (previous ++ e ∷ []) slept _ (omega arith) (λ left q. cc)
  loop_total (suc n) m (suc fuel) i deadline previous slept lt le =
      EndedWithin-after m (w.attempt i) _ slept (omega arith) λ e.
        EndedWithin-next m (has_passed deadline (w.now i)) (ok (some n)) (previous ++ e ∷ []) slept
          (λ left.
            retry_loop r w fuel deadline (i + 1) left (previous ++ e ∷ [])
              (slept ++ w.delay i ∷ []))
          (omega arith)
          λ left q.
            subst
              (λ l. EndedWithin m (
                retry_loop r w fuel deadline (i + 1) l (previous ++ e ∷ [])
                  (slept ++ w.delay i ∷ [])))
              (ok-injective q)
              (loop_total n m fuel (i + 1) deadline (previous ++ e ∷ []) (slept ++ w.delay i ∷ [])
                (omega arith) (omega (arith, length-append slept (w.delay i ∷ []))))

  -- With `n` retries and more fuel than that every call ends, whatever its function does, after at most `n` delays: the
  -- function is called at most `n + 1` times.
  pub retry_total :
      (n fuel start : ℕ) → r.retries ≡ some n → n < fuel → EndedWithin n (retry r w fuel start)
  unfolding retry
  retry_total n fuel start e lt =
      subst
        (λ m. EndedWithin n (retry_loop r w fuel (deadline_datetime r.deadline start) 0 m [] []))
        (sym e) (loop_total n n fuel 0 (deadline_datetime r.deadline start) [] [] lt (omega arith))
