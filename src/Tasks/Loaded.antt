-- ===== src/Tasks/Loaded.antt =====
-- The value of a task, once `result` has returned it.
use descarteslabs_python.Prelude.{
  ℕ, ◌≡◌, refl, sym, ap, ◌∙◌, Bool, true, false, Option, none, some, some-injective, arith,
}
use descarteslabs_python.Python.Result.{Result, ok, err, ok-injective}
use descarteslabs_python.Tasks.{
  Error, TaskResult, FutureTask, Service, Storage, get_result, get_result_as, keep_result,
  load_value, keep_value, loaded_value, value_of_success, is_success, value_if, value_after,
  value_after_each, result,
}

has_result-keep_result :
    {V : Type 0} (task t : FutureTask V) (r : TaskResult) (p : Option (Result Error TaskResult))
    → keep_result task p ≡ some (ok r, t)
    → t.task_result ≡ some r
unfolding keep_result
has_result-keep_result task t r none e = ground arith
has_result-keep_result task t r (some (err x)) e = ground arith
has_result-keep_result task t r (some (ok s)) e =
    let q = some-injective e in
    ap (λ x. x.1.task_result) (sym q) ∙ ap some (ok-injective (ap (λ x. x.0) q))

has_result-get_result_as :
    {V : Type 0} (task t : FutureTask V) (r : TaskResult) (o : Option TaskResult)
    (p : Option (Result Error TaskResult))
    → task.task_result ≡ o
    → get_result_as o task p ≡ some (ok r, t)
    → t.task_result ≡ some r
unfolding get_result_as
has_result-get_result_as task t r none p h e = has_result-keep_result task t r p e
has_result-get_result_as task t r (some s) p h e =
    let q = some-injective e in
    ap (λ x. x.1.task_result) (sym q) ∙ h ∙ ap some (ok-injective (ap (λ x. x.0) q))

get_result_as-has_result :
    {V : Type 0} (task : FutureTask V) (r : TaskResult) (o : Option TaskResult)
    (p : Option (Result Error TaskResult))
    → o ≡ some r
    → get_result_as o task p ≡ some (ok r, task)
unfolding get_result_as
get_result_as-has_result task r none p e = ground arith
get_result_as-has_result task r (some s) p e = ap (λ x. some (ok x, task)) (some-injective e)

-- What is needed for `result` to return `v` whatever the storage holds.
record Settled (B : Type 0) {V : Type 0} (v : Option V) (task : FutureTask V) : Type 0 where
  task_result : TaskResult
  has_result : task.task_result ≡ some task_result
  returns :
      (storage : Storage B V)
      → value_if storage (is_success task_result.status) task_result task ≡ (ok v, task)

module _ {B V : Type 0} where
  result-Settled :
      (v : Option V) (storage : Storage B V) (service : Service) (fuel : ℕ) (task : FutureTask V)
      → Settled B v task
      → result storage service fuel task ≡ some (ok v, task)
  unfolding result get_result value_after_each value_after
  result-Settled v storage service fuel task s =
      ap (value_after_each storage)
        (get_result_as-has_result task s.task_result task.task_result _ s.has_result)
      ∙ ap some (s.returns storage)

  Settled-same :
      (v w : Option V) (r : TaskResult) (t t2 : FutureTask V)
      → t.task_result ≡ some r
      → ((storage : Storage B V) → value_if storage (is_success r.status) r t ≡ (ok w, t))
      → Path (Result Error (Option V) × FutureTask V) (ok w, t) (ok v, t2)
      → Settled B v t2
  Settled-same v w r t t2 h f e = record {
    task_result = r;
    has_result = ap (λ x. x.1.task_result) (sym e) ∙ h;
    returns =
        λ storage. ap (λ x. value_if storage (is_success r.status) r x.1) (sym e) ∙ f storage ∙ e;
  }

  Settled-keep_value :
      (v : Option V) (r : TaskResult) (t t2 : FutureTask V) (loaded : Result Error (Option V))
      → is_success r.status ≡ true
      → t.task_result ≡ some r
      → keep_value t loaded ≡ (ok v, t2)
      → Settled B v t2
  unfolding keep_value value_if value_of_success loaded_value
  Settled-keep_value v r t t2 (err x) s h e = ground (arith, ap (λ p. p.0) e)
  Settled-keep_value v r t t2 (ok w) s h e =
      Settled-same v w r (record t { is_return_value_loaded = true; return_value = w }) t2 h
        (λ storage.
          ap
            (λ b.
              value_if storage b r (record t { is_return_value_loaded = true; return_value = w }))
            s)
        e

  Settled-loaded_value :
      (v : Option V) (storage : Storage B V) (l : Bool) (r : TaskResult) (t t2 : FutureTask V)
      → is_success r.status ≡ true
      → t.is_return_value_loaded ≡ l
      → t.task_result ≡ some r
      → loaded_value storage l r t ≡ (ok v, t2)
      → Settled B v t2
  unfolding loaded_value value_if value_of_success
  Settled-loaded_value v storage true r t t2 s k h e =
      Settled-same v t.return_value r t t2 h
        (λ x. ap (λ b. value_if x b r t) s ∙ ap (λ b. loaded_value x b r t) k) e
  Settled-loaded_value v storage false r t t2 s k h e =
      Settled-keep_value v r t t2 (load_value storage r) s h e

  Settled-value_if :
      (v : Option V) (storage : Storage B V) (b : Bool) (r : TaskResult) (t t2 : FutureTask V)
      → is_success r.status ≡ b
      → t.task_result ≡ some r
      → value_if storage b r t ≡ (ok v, t2)
      → Settled B v t2
  unfolding value_if value_of_success
  Settled-value_if v storage false r t t2 s h e =
      Settled-same v none r t t2 h (λ x. ap (λ b. value_if x b r t) s) e
  Settled-value_if v storage true r t t2 s h e =
      Settled-loaded_value v storage t.is_return_value_loaded r t t2 s refl h e

  Settled-value_after_each :
      (v : Option V) (storage : Storage B V) (task t2 : FutureTask V)
      (p : Option (Result Error TaskResult × FutureTask V))
      → ((r : TaskResult) (t : FutureTask V) → p ≡ some (ok r, t) → t.task_result ≡ some r)
      → value_after_each storage p ≡ some (ok v, t2)
      → Settled B v t2
  unfolding value_after_each value_after
  Settled-value_after_each v storage task t2 none f e = ground arith
  Settled-value_after_each v storage task t2 (some (err x, t)) f e =
      ground (arith, ap (λ p. p.0) (some-injective e))
  Settled-value_after_each v storage task t2 (some (ok r, t)) f e =
      Settled-value_if v storage (is_success r.status) r t t2 refl (f r t refl) (some-injective e)

  -- Once `result` has returned a value, it returns the same one again and leaves the task as it is,
  -- whatever the service, the storage and the decoders answer then.
  pub result-result :
      (storage later : Storage B V) (service answers : Service) (fuel fuel2 : ℕ)
      (task t : FutureTask V) (v : Option V)
      → result storage service fuel task ≡ some (ok v, t)
      → result later answers fuel2 t ≡ some (ok v, t)
  unfolding result get_result
  result-result storage later service answers fuel fuel2 task t v e =
      result-Settled v later answers fuel2 t (
        Settled-value_after_each v storage task t _
          (λ r x q. has_result-get_result_as task x r task.task_result _ refl q) e)
