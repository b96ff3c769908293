-- ===== src/Threading.antt =====
-- `ThreadLocalWrapper` of descarteslabs/common/threading/local.py. The `threading.local` of a wrapper
-- gives each thread its own attributes `_pid` and `wrapped`; a process goes on in its child with the
-- attributes that the thread had.
pub mod Owner
pub mod Stable
use descarteslabs_python.Prelude.{ℕ, ◌+◌, Bool, Option, none, some, eqb, if◌then◌else◌}

pub record Local (A : Type 0) : Type 0 where
  pub pid : Option ℕ
  pub wrapped : Option A

-- The attributes by thread, and how often the factory was called.
pub record Wrapper (A : Type 0) : Type 0 where
  pub local : ℕ → Local A
  pub calls : ℕ

module _ {A : Type 0} where
  abbrev empty : Local A
  empty = record { pid = none; wrapped = none }

  unfoldable pub assign : ℕ → Local A → (ℕ → Local A) → ℕ → Local A
  assign t l local u = if eqb t u then l else local u

  -- `_create_local(pid)`, in a thread: a new `threading.local`
  unfoldable pub create_local : ℕ → ℕ → Wrapper A → Wrapper A
  unfolding assign
  create_local pid t w = record w {
    local = assign t (record { pid = some pid; wrapped = none }) (λ u. empty);
  }

  unfoldable pub init_local : ℕ → ℕ → Wrapper A → Wrapper A
  unfolding assign create_local
  init_local pid t w = elim (w.local t).pid [
    | none ↦ record w {
      local = assign t (record { pid = some pid; wrapped = (w.local t).wrapped }) w.local;
    }
    | some previous ↦ if eqb pid previous then w else create_local pid t w
  ]

  -- `factory pid t n` is what the n-th call of the factory returns, in a process and a thread.
  module _ (factory : ℕ → ℕ → ℕ → A) where
    unfoldable pub wrapped_or_new : ℕ → ℕ → Wrapper A → A × Wrapper A
    unfolding assign
    wrapped_or_new pid t w = elim (w.local t).wrapped [
      | some x ↦ (x, w)
      | none ↦ (
        factory pid t w.calls,
        record {
          local =
              assign t (record { pid = (w.local t).pid; wrapped = some (factory pid t w.calls) })
                w.local;
          calls = w.calls + 1;
        },
      )
    ]

    unfoldable pub get : ℕ → ℕ → Wrapper A → A × Wrapper A
    unfolding init_local wrapped_or_new
    get pid t w = wrapped_or_new pid t (init_local pid t w)

    -- `ThreadLocalWrapper(factory)`
    unfoldable pub new_wrapper : ℕ → ℕ → Wrapper A
    unfolding create_local
    new_wrapper pid t = create_local pid t (record { local = λ u. empty; calls = 0 })
