-- ===== src/Retry/Delays.antt =====
-- `truncated_delay_generator` of common/retry/retry.py, over the float operations that it uses.
use descarteslabs_python.Prelude.{
  ℕ, zero, suc, ◌≡◌, ap, ◌∙◌, Bool, true, false, Option, none, some, if◌then◌else◌, Bool-cases, inl,
  inr,
}

-- The operations on floats, with `<`.
pub record Arithmetic (T : Type 0) : Type 0 where
  pub plus : T → T → T
  pub times : T → T → T
  pub lt : T → T → Bool

-- `jitter` says whether there is one; the random amounts are drawn elsewhere.
pub record DelayConfig (T : Type 0) : Type 0 where
  pub initial : Option T
  pub maximum : Option T
  pub jitter : Bool
  pub multiplier : T

module _ {T : Type 0} (a : Arithmetic T) (default_initial : T) where
  open a use {plus, times, lt}

  -- `min(x, y)`
  unfoldable pub min_of : T → T → T
  min_of x y = if lt y x then y else x

  abbrev jittered : Bool → T → T → T
  jittered false draw delay = delay
  jittered true draw delay = plus delay draw

  abbrev truncated : Option T → T → T
  truncated none delay = delay
  truncated (some m) delay = min_of delay m

  -- The part of a round up to the `yield`.
  unfoldable pub yielded : DelayConfig T → T → T → T
  unfolding min_of
  yielded c draw delay = truncated c.maximum (jittered c.jitter draw delay)

  abbrev initial_or : Option T → T
  initial_or none = default_initial
  initial_or (some d) = d

  -- The delay with which round `n` begins, and the one that it yields, where `draws` are the values
  -- of `random.uniform(*jitter)`.
  unfoldable pub delay_before : DelayConfig T → (ℕ → T) → ℕ → T
  unfolding yielded
  delay_before c draws zero = initial_or c.initial
  delay_before c draws (suc n) = times (yielded c (draws n) (delay_before c draws n)) c.multiplier

  unfoldable pub delay_at : DelayConfig T → (ℕ → T) → ℕ → T
  unfolding yielded delay_before
  delay_at c draws n = yielded c (draws n) (delay_before c draws n)

  -- No delay exceeds the maximum that was set, whatever is drawn, if no float is less than itself.
  pub delay_at-le-maximum :
      (c : DelayConfig T) (draws : ℕ → T) (n : ℕ) (m : T)
      → ((x : T) → lt x x ≡ false)
      → c.maximum ≡ some m
      → lt m (delay_at c draws n) ≡ false
  unfolding delay_at
  delay_at-le-maximum c draws n m irrefl e =
      ap (λ o. lt m (truncated o (jittered c.jitter (draws n) (delay_before c draws n)))) e
      ∙ truncated_le (jittered c.jitter (draws n) (delay_before c draws n))
    where
      truncated_le : (x : T) → lt m (min_of x m) ≡ false
      truncated_le x = elim (Bool-cases (lt m x)) [ inl p ↦ rw p (irrefl m) | inr p ↦ rw p p ]
