-- ===== src/Examples/Retry.antt =====
-- Calls that fail once or twice.
use descarteslabs_python.Prelude.{
  ℕ, zero, suc, ◌+◌, ◌*◌, ◌≡◌, refl, false, none, some, [], ◌∷◌, ltb, eqb, arith,
}
use descarteslabs_python.Python.Result.{Result, ok, err}
use descarteslabs_python.Retry.{
  Retry, returned, retry_error, retries_exhausted, World, retry, reraises, deadline_datetime,
}
use descarteslabs_python.Retry.Delays.{Arithmetic, DelayConfig, delay_at, delay_at-le-maximum}
use descarteslabs_python.Retry.Rounds.{Failing, none_yet, failed, delays_from}
use descarteslabs_python.Retry.Runs.{retry_ends, retry_gives_up, settled, met_limit}
use descarteslabs_python.Retry.Total.{EndedWithin, retry_total}

abbrev doubling : DelayConfig ℕ
doubling = record { initial = some 1; maximum = some 5; jitter = false; multiplier = 2 }

-- Two retries within 10 ticks; the exception 9 is not retried.
abbrev twice : Retry ℕ ℕ
twice = record {
  retries = some 2;
  exceptions = none;
  predicate = none;
  blacklist = some (λ e. eqb e 9);
  deadline = some 10;
  delays = doubling;
}

abbrev world : (ℕ → Result ℕ ℕ) → World ℕ ℕ ℕ
world attempt = record { attempt = attempt; now = λ i. i; delay = λ i. i + 1 }

abbrev second_works : ℕ → Result ℕ ℕ
second_works zero = err 4
second_works (suc i) = ok 42

abbrev never_works : ℕ → Result ℕ ℕ
never_works i = err i

one_failure : Failing twice (world second_works) (some 10) 0 (4 ∷ [])
unfolding reraises
one_failure = failed refl refl refl none_yet

two_failures : Failing twice (world never_works) (some 10) 0 (0 ∷ 1 ∷ [])
unfolding reraises
two_failures = failed refl refl refl (failed refl refl refl none_yet)

retry_ends_example :
    retry twice (world second_works) 2 0
    ≡ some (record {
      outcome = returned 42;
      slept = delays_from twice (world second_works) (some 10) 0 (4 ∷ []);
    })
unfolding deadline_datetime settled
retry_ends_example =
    retry_ends twice (world second_works) 0 (4 ∷ []) one_failure (omega arith) 2 (returned 42)
      (omega arith) refl

retry_gives_up_example :
    retry twice (world never_works) 3 0
    ≡ some (record {
      outcome = retry_error retries_exhausted (0 ∷ 1 ∷ 2 ∷ []);
      slept = delays_from twice (world never_works) (some 10) 0 (0 ∷ 1 ∷ []);
    })
unfolding deadline_datetime reraises met_limit
retry_gives_up_example =
    retry_gives_up twice (world never_works) 0 (0 ∷ 1 ∷ []) two_failures (omega arith) 3 2
      retries_exhausted (omega arith) refl refl refl

retry_total_example : EndedWithin twice (world never_works) 2 (retry twice (world never_works) 3 7)
retry_total_example = retry_total twice (world never_works) 2 3 7 refl (omega arith)

abbrev numbers : Arithmetic ℕ
numbers = record { plus = λ a b. a + b; times = λ a b. a * b; lt = ltb }

delay_at-le-maximum_example : ltb 5 (delay_at numbers 1 doubling (λ i. i) 7) ≡ false
delay_at-le-maximum_example =
    delay_at-le-maximum numbers 1 doubling (λ i. i) 7 5 (λ x. ground arith) refl
