-- ===== src/Tasks/Waiting.antt =====
-- How long waiting for a task takes.
use mathlib.Core.Path.{subst}
use descarteslabs_python.Prelude.{
  sym, ℕ, zero, suc, ◌+◌, ◌*◌, ◌≤◌, ◌<◌, ◌≡◌, refl, Bool, true, false, Option, none, some, ltb,
  ltb→lt, arith, if◌then◌else◌,
}
use descarteslabs_python.Python.Result.{Result, ok, err}
use descarteslabs_python.Tasks.{
  Error, transient_result_error, runtime_error, other_error, timeout_error, not_found, TaskResult,
  FutureTask, Service, on_answer, poll, keep_result, get_result, get_result_as,
  completion_poll_interval_seconds,
}

-- How the loop ends from round `n` on: with the first answer that is not a `NotFoundError`, with the
-- `TransientResultError` of a call that does not wait, or with the `TimeoutError` of a round that
-- begins too late. The rounds before were in time, and found nothing.
pub data Polled (service : Service) (wait : Bool) (timeout : ℕ)
    : ℕ → Result Error TaskResult → Type 0 where
  answered :
      (n : ℕ) {r : Result Error TaskResult}
      → service.elapsed n < timeout
      → service.answer n ≡ r
      → (r ≡ err not_found → ⊥)
      → Polled service wait timeout n r
  not_ready :
      (n : ℕ)
      → service.elapsed n < timeout
      → service.answer n ≡ err not_found
      → wait ≡ false
      → Polled service wait timeout n (err transient_result_error)
  later :
      (n : ℕ) {r : Result Error TaskResult}
      → service.elapsed n < timeout
      → service.answer n ≡ err not_found
      → wait ≡ true
      → Polled service wait timeout (n + 1) r
      → Polled service wait timeout n r
  late : (n : ℕ) → timeout ≤ service.elapsed n → Polled service wait timeout n (err timeout_error)

module _ (service : Service) (timeout : ℕ) where
  -- A run of the loop has ended as it should.
  abbrev Ended : Bool → ℕ → Option (Result Error TaskResult) → Type 0
  Ended wait n o = (r : Result Error TaskResult) × (o ≡ some r) × Polled service wait timeout n r

  on_answer-Ended :
      (wait : Bool) (n : ℕ) (next : Option (Result Error TaskResult)) (a : Result Error TaskResult)
      → service.elapsed n < timeout
      → service.answer n ≡ a
      → Ended wait (n + 1) next
      → Ended wait n (on_answer wait next a)
  unfolding on_answer
  on_answer-Ended wait n next (ok r) t q e = (_, refl, answered n t q λ x. cc)
  on_answer-Ended true n next (err not_found) t q (r, p, e) = (r, p, later n t q refl e)
  on_answer-Ended false n next (err not_found) t q e = (_, refl, not_ready n t q refl)
  on_answer-Ended wait n next (err transient_result_error) t q e = (_, refl, answered n t q λ x. cc)
  on_answer-Ended wait n next (err timeout_error) t q e = (_, refl, answered n t q λ x. cc)
  on_answer-Ended wait n next (err runtime_error) t q e = (_, refl, answered n t q λ x. cc)
  on_answer-Ended wait n next (err other_error) t q e = (_, refl, answered n t q λ x. cc)

  branch :
      (wait : Bool) (n : ℕ) (b : Bool) (x : Option (Result Error TaskResult))
      → ltb (service.elapsed n) timeout ≡ b
      → (service.elapsed n < timeout → Ended wait n x)
      → Ended wait n (if b then x else some (err timeout_error))
  branch wait n true x e f = f (ltb→lt (service.elapsed n) timeout e)
  branch wait n false x e f = (_, refl, late n (ground (arith, e)))

  module _
      (sleeps : (n : ℕ)
        → service.elapsed n + completion_poll_interval_seconds ≤ service.elapsed (n + 1)) where
    poll-Ended :
        (fuel n : ℕ) (wait : Bool)
        → timeout ≤ service.elapsed n + 3 * fuel
        → Ended wait n (poll service (suc fuel) wait (some timeout) n)
    unfolding poll
    poll-Ended zero n wait h =
        branch wait n (ltb (service.elapsed n) timeout) _ refl λ e. absurd (omega arith)
    poll-Ended (suc fuel) n wait h = branch wait n (ltb (service.elapsed n) timeout) _ refl λ e.
        on_answer-Ended wait n _ (service.answer n) e refl
          (poll-Ended fuel (n + 1) wait (omega (arith, sleeps n)))

-- `get_result` has ended: with the result that the task had, or else as the loop ends from its first
-- round on, with a result that the task keeps or with an exception that leaves it as it was.
pub data Got {V : Type 0} (service : Service) (wait : Bool) (timeout : ℕ) (task : FutureTask V)
    : Option (Result Error TaskResult × FutureTask V) → Type 0 where
  had :
      (r : TaskResult)
      → task.task_result ≡ some r
      → Got service wait timeout task (some (ok r, task))
  found :
      (r : TaskResult)
      → task.task_result ≡ none
      → Polled service wait timeout 0 (ok r)
      → Got service wait timeout task (some (ok r, record task { task_result = some r }))
  raised :
      (e : Error)
      → task.task_result ≡ none
      → Polled service wait timeout 0 (err e)
      → Got service wait timeout task (some (err e, task))

module _ (service : Service) (wait : Bool) (timeout : ℕ) where
  Got-keep_result :
      {V : Type 0} (task : FutureTask V) (r : Result Error TaskResult)
      → task.task_result ≡ none
      → Polled service wait timeout 0 r
      → Got service wait timeout task (keep_result task (some r))
  unfolding keep_result
  Got-keep_result task (ok r) q p = found r q p
  Got-keep_result task (err x) q p = raised x q p

  Got-get_result_as :
      {V : Type 0} (had_result : Option TaskResult) (task : FutureTask V)
      (o : Option (Result Error TaskResult))
      → task.task_result ≡ had_result
      → Ended service timeout wait 0 o
      → Got service wait timeout task (get_result_as had_result task o)
  unfolding get_result_as
  Got-get_result_as none task o q (r, e, p) =
      subst (λ x. Got service wait timeout task (keep_result task x)) (sym e)
        (Got-keep_result task r q p)
  Got-get_result_as (some r) task o q e = had r q

  -- When a round of the loop takes three seconds or more, `get_result` with a timeout ends, whatever
  -- the service answers, within a number of rounds whose triple reaches the timeout, and one more. A
  -- task that had its result returns that. For another one the service is asked until it answers
  -- something else than a `NotFoundError`: a result is returned and kept, an exception raised; a call
  -- that does not wait raises a `TransientResultError` at the first `NotFoundError`, and a round that
  -- does not begin in time a `TimeoutError`. A call that raises leaves the task as it was.
  pub Got-get_result :
      {V : Type 0} (task : FutureTask V) (rounds : ℕ)
      → ((n : ℕ) → service.elapsed n + completion_poll_interval_seconds ≤ service.elapsed (n + 1))
      → timeout ≤ 3 * rounds
      → Got service wait timeout task (get_result service (suc rounds) wait (some timeout) task)
  unfolding get_result
  Got-get_result task rounds sleeps b =
      Got-get_result_as task.task_result task _ refl
        (poll-Ended service timeout sleeps rounds 0 wait (omega arith))
