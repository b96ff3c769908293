-- ===== src/Examples/Tasks.antt =====
-- A task that is finished six seconds after the first request.
use descarteslabs_python.Prelude.{
  ◌*◌, String, ◌≡◌, refl, true, false, some, ltb, if◌then◌else◌, arith,
}
use descarteslabs_python.Python.Result.{ok, err}
use descarteslabs_python.Tasks.{
  timeout_error, not_found, TaskResult, FutureTask, Service, Storage, get_result, result, ready,
  submitted,
}
use descarteslabs_python.Tasks.Waiting.{Got, Got-get_result}
use descarteslabs_python.Tasks.Loaded.{result-result}

abbrev success : TaskResult
success = record { status = some "SUCCESS"; result_size_bytes = 5; result_type = some "json" }

abbrev soon : Service
soon = record { answer = λ n. if ltb n 2 then err not_found else ok success; elapsed = λ n. 3 * n }

abbrev texts : String → Storage String String
texts bytes = record {
  stored = ok bytes;
  json_loads = λ b. ok b;
  pickle_loads = λ b. ok b;
  unwrap = λ v. ok v;
}

abbrev task : FutureTask String
task = submitted

Got-get_result_example : Got soon true 7 task (get_result soon 4 true (some 7) task)
Got-get_result_example = Got-get_result soon true 7 task 3 (λ n. omega arith) (omega arith)

-- five seconds are not enough
times_out : get_result soon 4 true (some 5) task ≡ some (err timeout_error, task)
unfolding get_result submitted
times_out = refl

not_ready : ready soon 1 task ≡ some (ok false, task)
unfolding ready submitted
not_ready = refl

abbrev finished : FutureTask String
finished = record {
  task_result = some success;
  is_return_value_loaded = true;
  return_value = some "value";
}

result-result_example : result (texts "other") soon 0 finished ≡ some (ok (some "value"), finished)
unfolding result submitted
result-result_example =
    result-result (texts "value") (texts "other") soon soon 3 0 task finished (some "value") refl
