-- ===== src/Tasks.antt =====
-- `FutureTask` of common/tasks/futuretask.py: waiting for a task's result and loading its value. The
-- service that is polled, the clock, the storage and the decoders are parameters.
pub mod Waiting
pub mod Loaded
use descarteslabs_python.Prelude.{
  ℕ, zero, suc, ◌+◌, String, Bool, true, false, Option, none, some, ◌==◌, ltb, eqb, if◌then◌else◌,
}
use descarteslabs_python.Python.Result.{Result, ok, err, bind}

pub data Error : Type 0 where
  transient_result_error timeout_error not_found runtime_error other_error : Error

-- what the service answers of a finished task
pub record TaskResult : Type 0 where
  pub status : Option String
  pub result_size_bytes : ℕ
  pub result_type : Option String

pub record FutureTask (V : Type 0) : Type 0 where
  pub task_result : Option TaskResult
  pub is_return_value_loaded : Bool
  pub return_value : Option V

-- `answer n` is the answer to the request of round `n`, and `elapsed n` the whole seconds on the clock
-- at the start of that round since `start`.
pub record Service : Type 0 where
  pub answer : ℕ → Result Error TaskResult
  pub elapsed : ℕ → ℕ

-- What the storage holds for the task, and what the decoders make of it; `unwrap` is the value at
-- "result" of a dictionary, and any other value itself.
pub record Storage (B V : Type 0) : Type 0 where
  pub stored : Result Error B
  pub json_loads : B → Result Error V
  pub pickle_loads : B → Result Error V
  pub unwrap : V → Result Error V

abbrev pub completion_poll_interval_seconds : ℕ
completion_poll_interval_seconds = 3

unfoldable pub in_time : Option ℕ → ℕ → Bool
in_time none elapsed = true
in_time (some timeout) elapsed = ltb elapsed timeout

unfoldable pub on_answer :
    Bool
    → Option (Result Error TaskResult)
    → Result Error TaskResult
    → Option (Result Error TaskResult)
on_answer wait next (ok r) = some (ok r)
on_answer wait next (err not_found) = if wait then next else some (err transient_result_error)
on_answer wait next (err e) = some (err e)

module _ (service : Service) where
  -- The `while` loop from round `n`, on fuel.
  unfoldable pub poll : ℕ → Bool → Option ℕ → ℕ → Option (Result Error TaskResult)
  unfolding on_answer in_time
  poll zero wait timeout n = none
  poll (suc fuel) wait timeout n =
      let next = poll fuel wait timeout (n + 1) in
      if in_time timeout (service.elapsed n)
      then on_answer wait next (service.answer n)
      else some (err timeout_error)

module _ {V : Type 0} where
  unfoldable pub keep_result :
      FutureTask V
      → Option (Result Error TaskResult)
      → Option (Result Error TaskResult × FutureTask V)
  keep_result task none = none
  keep_result task (some (err e)) = some (err e, task)
  keep_result task (some (ok r)) = some (ok r, record task { task_result = some r })

  unfoldable pub get_result_as :
      Option TaskResult
      → FutureTask V
      → Option (Result Error TaskResult)
      → Option (Result Error TaskResult × FutureTask V)
  unfolding keep_result
  get_result_as (some r) task polled = some (ok r, task)
  get_result_as none task polled = keep_result task polled

-- `get_result`, with the result that the task has then
unfoldable pub get_result :
    {V : Type 0}
    → Service
    → ℕ
    → Bool
    → Option ℕ
    → FutureTask V
    → Option (Result Error TaskResult × FutureTask V)
unfolding get_result_as poll
get_result service fuel wait timeout task =
    get_result_as task.task_result task (poll service fuel wait timeout 0)

unfoldable pub is_success : Option String → Bool
is_success none = false
is_success (some status) = status == "SUCCESS"

module _ {V : Type 0} where
  unfoldable pub keep_value :
      FutureTask V → Result Error (Option V) → Result Error (Option V) × FutureTask V
  keep_value task (err e) = (err e, task)
  keep_value task (ok v) = (ok v, record task { is_return_value_loaded = true; return_value = v })
  -- `result` once the task has its result

module _ {B V : Type 0} (storage : Storage B V) where
  -- The default is `LEGACY_PICKLE`.
  unfoldable pub decoded : Option String → B → Result Error V
  decoded none bytes = bind (storage.pickle_loads bytes) storage.unwrap
  decoded (some type) bytes =
      if type == "json"
      then storage.json_loads bytes
      else if type == "pickle"
      then bind (storage.pickle_loads bytes) storage.unwrap
      else err runtime_error

  unfoldable pub load_value : TaskResult → Result Error (Option V)
  unfolding decoded
  load_value r =
      if eqb r.result_size_bytes 0
      then ok none
      else bind storage.stored λ bytes. bind (decoded r.result_type bytes) λ v. ok (some v)

  unfoldable pub loaded_value :
      Bool → TaskResult → FutureTask V → Result Error (Option V) × FutureTask V
  unfolding keep_value load_value
  loaded_value true r task = (ok task.return_value, task)
  loaded_value false r task = keep_value task (load_value r)

  unfoldable pub value_of_success :
      TaskResult → FutureTask V → Result Error (Option V) × FutureTask V
  unfolding loaded_value
  value_of_success r task = loaded_value task.is_return_value_loaded r task

  unfoldable pub value_if :
      Bool → TaskResult → FutureTask V → Result Error (Option V) × FutureTask V
  unfolding value_of_success
  value_if true r task = value_of_success r task
  value_if false r task = (ok none, task)

  unfoldable pub value_after :
      Result Error TaskResult × FutureTask V → Result Error (Option V) × FutureTask V
  unfolding value_if is_success
  value_after (err e, task) = (err e, task)
  value_after (ok r, task) = value_if (is_success r.status) r task

  unfoldable pub value_after_each :
      Option (Result Error TaskResult × FutureTask V)
      → Option (Result Error (Option V) × FutureTask V)
  unfolding value_after
  value_after_each none = none
  value_after_each (some o) = some (value_after o)

  -- the property `result`, which waits without a timeout
  unfoldable pub result :
      Service → ℕ → FutureTask V → Option (Result Error (Option V) × FutureTask V)
  unfolding get_result value_after_each
  result service fuel task = value_after_each (get_result service fuel true none task)

module _ {V : Type 0} where
  ready_after :
      Option (Result Error TaskResult × FutureTask V) → Option (Result Error Bool × FutureTask V)
  ready_after none = none
  ready_after (some (ok r, task)) = some (ok true, task)
  ready_after (some (err transient_result_error, task)) = some (ok false, task)
  ready_after (some (err e, task)) = some (err e, task)

  unfoldable pub ready : Service → ℕ → FutureTask V → Option (Result Error Bool × FutureTask V)
  unfolding ready_after get_result
  ready service fuel task = ready_after (get_result service fuel false none task)

  -- a task that was submitted
  unfoldable pub submitted : FutureTask V
  submitted = record { task_result = none; is_return_value_loaded = false; return_value = none }
