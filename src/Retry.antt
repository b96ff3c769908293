-- ===== src/Retry.antt =====
-- descarteslabs/common/retry/retry.py: calling a function again after exceptions.
pub mod Delays
pub mod Rounds
pub mod Runs
pub mod Total
use descarteslabs_python.Prelude.{
  ℕ, zero, suc, ◌+◌, ◌-◌, String, Bool, true, false, not, ◌&&◌, ◌||◌, Option, none, some, List, [],
  ◌∷◌, ◌++◌, leb, eqb, if◌then◌else◌,
}
use descarteslabs_python.Python.Result.{Result, ok, err}
use Delays.{Arithmetic, DelayConfig, delay_at}

-- `Retry.__init__`: a test for each set of exception classes, and the deadline in clock ticks.
pub record Retry (E : Type 0) (T : Type 0) : Type 0 where
  pub retries : Option ℕ
  pub exceptions : Option (E → Bool)
  pub predicate : Option (E → Bool)
  pub blacklist : Option (E → Bool)
  pub deadline : Option ℕ
  pub delays : DelayConfig T

-- `RetryError`: which limit was met, and the exceptions so far.
pub data Limit : Type 0 where
  deadline_exceeded retries_exhausted : Limit

pub data Outcome (E A : Type 0) : Type 0 where
  returned : A → Outcome E A
  raised : E → Outcome E A
  retry_error : Limit → List E → Outcome E A

module _ {E : Type 0} where
  abbrev excluded : Option (E → Bool) → E → Bool
  excluded none e = false
  excluded (some p) e = not (p e)

  abbrev included : Option (E → Bool) → E → Bool
  included none e = false
  included (some p) e = p e

module _ {E T : Type 0} where
  -- `_handle_exception`: whether it raises the exception again
  unfoldable pub reraises : Retry E T → E → Bool
  reraises r e = excluded r.predicate e || included r.blacklist e || excluded r.exceptions e

-- `_deadline_datetime`, from the time of the start
unfoldable pub deadline_datetime : Option ℕ → ℕ → Option ℕ
deadline_datetime none start = none
deadline_datetime (some d) start = some (start + d)

abbrev pub has_passed : Option ℕ → ℕ → Bool
has_passed none now = false
has_passed (some d) now = leb d now

abbrev pub one_less : Option ℕ → Result Limit (Option ℕ)
one_less none = ok none
one_less (some zero) = err retries_exhausted
one_less (some (suc n)) = ok (some n)

-- `_check_retries`: the limit that is met, or the retries that are left
unfoldable pub check_retries : Option ℕ → Option ℕ → ℕ → Result Limit (Option ℕ)
check_retries retries deadline now =
    if has_passed deadline now then err deadline_exceeded else one_less retries

-- What a call of the wrapped function ends with, and the delays that it slept.
pub record Ended (E A T : Type 0) : Type 0 where
  pub outcome : Outcome E A
  pub slept : List T

-- The world of one call: what the i-th attempt does, the time when it is over, and the delays that
-- the generator yields.
pub record World (E A T : Type 0) : Type 0 where
  pub attempt : ℕ → Result E A
  pub now : ℕ → ℕ
  pub delay : ℕ → T

module _ {E A T : Type 0} (r : Retry E T) (w : World E A T) where
  abbrev ended : Outcome E A → List T → Option (Ended E A T)
  ended o slept = some (record { outcome = o; slept = slept })

  -- After a failure that was noted: the limit that is met, or one more round.
  abbrev pub next_round :
      Result Limit (Option ℕ)
      → List E
      → List T
      → (Option ℕ → Option (Ended E A T))
      → Option (Ended E A T)
  next_round (err limit) previous slept again = ended (retry_error limit previous) slept
  next_round (ok left) previous slept again = again left

  abbrev pub after_attempt : Result E A → (E → Option (Ended E A T)) → List T → Option (Ended E A T)
  after_attempt (ok a) failed slept = ended (returned a) slept
  after_attempt (err e) failed slept =
      let noted = failed e in if reraises r e then ended (raised e) slept else noted

  -- The loop of `_retry` from its i-th round; `none` means that the fuel ran out.
  unfoldable pub retry_loop : ℕ → Option ℕ → ℕ → Option ℕ → List E → List T → Option (Ended E A T)
  unfolding check_retries reraises
  retry_loop zero deadline i retries previous slept = none
  retry_loop (suc fuel) deadline i retries previous slept =
      after_attempt (w.attempt i)
        (λ e.
          next_round (check_retries retries deadline (w.now i)) (previous ++ e ∷ []) slept λ left.
            retry_loop fuel deadline (i + 1) left (previous ++ e ∷ []) (slept ++ w.delay i ∷ []))
        slept

  -- `_retry`, started at a time
  unfoldable pub retry : ℕ → ℕ → Option (Ended E A T)
  unfolding retry_loop deadline_datetime
  retry fuel start = retry_loop fuel (deadline_datetime r.deadline start) 0 r.retries [] []
