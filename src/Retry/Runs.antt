-- ===== src/Retry/Runs.antt =====
-- What a call of common/retry/retry.py ends with after some failures.
use descarteslabs_python.Prelude.{
  some-injective, ℕ, suc, ◌-◌, ◌<◌, ◌≡◌, refl, ap, ◌∙◌, Bool, true, false, Bool-cases, eqb_iff, inl,
  inr, eqb, if◌then◌else◌, Option, none, some, List, [], ◌∷◌, ◌++◌, length, arith,
}
use descarteslabs_python.Python.Result.{Result, ok, err}
use descarteslabs_python.Retry.{
  Retry, deadline_exceeded, retries_exhausted, Outcome, returned, raised, retry_error, reraises,
  deadline_datetime, has_passed, check_retries, Ended, World, after_attempt, one_less, Limit,
  one_less, retry_loop, retry,
}
use descarteslabs_python.Retry.Rounds.{
  minus_retries, Allows, Failing, delays_from, loop_args, rounds,
}

-- What a call ends with after this attempt, if it is the last one.
unfoldable pub settled : {E A T : Type 0} → Retry E T → Result E A → Option (Outcome E A)
settled r (ok a) = some (returned a)
settled r (err e) = if reraises r e then some (raised e) else none

-- The limit that ends a call after `k` rounds.
unfoldable pub met_limit : Bool → Option ℕ → ℕ → Option Limit
met_limit true retries k = some deadline_exceeded
met_limit false none k = none
met_limit false (some n) k = if eqb n k then some retries_exhausted else none

settled-after_attempt :
    {E A T : Type 0} (r : Retry E T) (w : World E A T) (x : Result E A) (o : Outcome E A)
    (noted : E → Option (Ended E A T)) (slept : List T)
    → settled r x ≡ some o
    → after_attempt r w x noted slept ≡ some (record { outcome = o; slept = slept })
unfolding settled
settled-after_attempt r w (ok a) o noted slept p =
    ap (λ x. some (record { outcome = x; slept = slept })) (some-injective p)
settled-after_attempt r w (err e) o noted slept p = elim (Bool-cases (reraises r e)) [
  | inl q ↦ rw q (ap (λ x. some (record { outcome = x; slept = slept })) (ground arith))
  | inr q ↦ absurd (ground arith)
]

met :
    (passed : Bool) (retries : Option ℕ) (k : ℕ) (limit : Limit)
    → met_limit passed retries k ≡ some limit
    → (if passed then err deadline_exceeded else one_less (minus_retries retries k)) ≡ err limit
unfolding met_limit
met true retries k limit m = ap err (some-injective m)
met false none k limit m = absurd (ground arith)
met false (some n) k limit m = elim (Bool-cases (eqb n k)) [
  | inl p ↦
      let spent : n - k ≡ 0 = omega (arith, (eqb_iff n k).0 p) in rw spent (ap err (ground arith))
  | inr p ↦ absurd (ground arith)
]

met_limit-check_retries :
    (retries until : Option ℕ) (k now : ℕ) (limit : Limit)
    → met_limit (has_passed until now) retries k ≡ some limit
    → check_retries (minus_retries retries k) until now ≡ err limit
unfolding met_limit check_retries
met_limit-check_retries retries until k now limit m = met (has_passed until now) retries k limit m

-- A call that starts at a time, and fails with `es`, in time and within the retries allowed.
module _ {E A T : Type 0} (r : Retry E T) (w : World E A T) (start : ℕ) (es : List E)
    (fails : Failing r w (deadline_datetime r.deadline start) 0 es)
    (allowed : Allows r.retries (length es)) where
  abbrev until : Option ℕ
  until = deadline_datetime r.deadline start

  abbrev EndsWith : ℕ → Outcome E A → Type 0
  EndsWith fuel o =
      retry r w fuel start ≡ some (record { outcome = o; slept = delays_from r w until 0 es })

  abbrev last_round : ℕ → Option (Ended E A T)
  last_round left =
      retry_loop r w (suc left) until (length es) (minus_retries r.retries (length es)) es
        (delays_from r w until 0 es)

  to_last_round :
      (fuel : ℕ) → length es < fuel → (left : ℕ) × (retry r w fuel start ≡ last_round left)
  unfolding retry
  to_last_round fuel lt =
      let (left, same) = rounds r w until fails fuel r.retries [] [] allowed lt in
      (left, same ∙ loop_args r w until (suc left) (omega arith) refl refl refl)

  -- A call whose first attempts fail with `es`, none of which is to be raised again and all before
  -- the deadline, with as many retries allowed, on more fuel than failures: a success that follows
  -- is returned, and an exception that is not to be retried is raised as it is. Either way the function was called once more than it failed before, and the
  -- delays slept are the generator's first, one for each failure.
  pub retry_ends :
      (fuel : ℕ) (o : Outcome E A)
      → length es < fuel
      → settled r (w.attempt (length es)) ≡ some o
      → EndsWith fuel o
  unfolding retry_loop
  retry_ends fuel o lt p =
      let (left, same) = to_last_round fuel lt in
      same ∙ settled-after_attempt r w (w.attempt (length es)) o _ _ p

  -- A call whose first attempts fail with `es`, none of which is to be raised again and all before
  -- the deadline, with as many retries allowed, on more fuel than failures: one more that could be
  -- retried ends the call with a `RetryError` that
  -- has all exceptions: for the deadline if that has passed, and otherwise if no retry is left.
  pub retry_gives_up :
      (fuel : ℕ) (e : E) (limit : Limit)
      → length es < fuel
      → w.attempt (length es) ≡ err e
      → reraises r e ≡ false
      → met_limit (has_passed until (w.now (length es))) r.retries (length es) ≡ some limit
      → EndsWith fuel (retry_error limit (es ++ e ∷ []))
  unfolding retry_loop check_retries
  retry_gives_up fuel e limit lt p q m =
      let (left, same) = to_last_round fuel lt in
      let met : check_retries (minus_retries r.retries (length es)) until (w.now (length es))
          ≡ err limit =
        met_limit-check_retries r.retries until (length es) (w.now (length es)) limit m in
      same ∙ simp (p, q, met)
