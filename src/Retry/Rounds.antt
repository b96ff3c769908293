-- ===== src/Retry/Rounds.antt =====
-- The rounds of `_retry` of common/retry/retry.py that fail and are followed by another one.
use mathlib.Core.List.{append-nil, append_assoc}
use descarteslabs_python.Prelude.{
  ℕ, zero, suc, ◌+◌, ◌-◌, ◌≤◌, ◌<◌, ◌≡◌, refl, sym, ap, ◌∙◌, false, Option, none, some, List, [],
  ◌∷◌, ◌++◌, length, arith,
}
use descarteslabs_python.Python.Result.{err}
use descarteslabs_python.Retry.{Retry, reraises, has_passed, check_retries, World, retry_loop}

-- The retries that are left after `k` rounds, and that there are so many.
abbrev pub minus_retries : Option ℕ → ℕ → Option ℕ
minus_retries none k = none
minus_retries (some n) k = some (n - k)

abbrev pub Allows : Option ℕ → ℕ → Type 0
Allows none k = Unit
Allows (some n) k = k ≤ n

module _ {E A T : Type 0} (r : Retry E T) (w : World E A T) (deadline : Option ℕ) where
  -- The attempts from the i-th on fail with these exceptions, none of which is raised again, and all
  -- in time.
  pub data Failing : ℕ → List E → Type 0 where
    none_yet : {i : ℕ} → Failing i []
    failed :
        {i : ℕ} {e : E} {es : List E}
        → w.attempt i ≡ err e
        → reraises r e ≡ false
        → has_passed deadline (w.now i) ≡ false
        → Failing (i + 1) es
        → Failing i (e ∷ es)

  -- the delays of the rounds from the i-th on
  unfoldable pub delays_from : ℕ → List E → List T
  delays_from i [] = []
  delays_from i (e ∷ es) = w.delay i ∷ delays_from (i + 1) es

  one_round :
      (fuel i : ℕ) (retries : Option ℕ) (e : E) (previous : List E) (slept : List T)
      → w.attempt i ≡ err e
      → reraises r e ≡ false
      → has_passed deadline (w.now i) ≡ false
      → Allows retries 1
      → retry_loop r w (suc fuel) deadline i retries previous slept
        ≡ retry_loop r w fuel deadline
            (i + 1)
            (minus_retries retries 1)
            (previous ++ e ∷ [])
            (slept ++ w.delay i ∷ [])
  unfolding retry_loop check_retries
  one_round fuel i none e previous slept p q t h = simp (p, q, t)
  one_round fuel i (some zero) e previous slept p q t h = absurd (omega arith)
  one_round fuel i (some (suc n)) e previous slept p q t h =
      simp (p, q, t)
        (ap
          (λ (k : ℕ).
            retry_loop r w fuel deadline (i + 1) (some k) (previous ++ e ∷ [])
              (slept ++ w.delay i ∷ []))
          (omega arith))

  Allows-one : (retries : Option ℕ) (n : ℕ) → Allows retries (suc n) → Allows retries 1
  Allows-one none n h = tt
  Allows-one (some m) n h = omega arith

  Allows-rest :
      (retries : Option ℕ) (n : ℕ) → Allows retries (suc n) → Allows (minus_retries retries 1) n
  Allows-rest none n h = tt
  Allows-rest (some m) n h = omega arith

  minus_minus :
      (retries : Option ℕ) (n : ℕ)
      → minus_retries (minus_retries retries 1) n ≡ minus_retries retries (suc n)
  minus_minus none n = refl
  minus_minus (some m) n = ap (λ (k : ℕ). some k) (omega arith)

  minus_zero : (retries : Option ℕ) → minus_retries retries 0 ≡ retries
  minus_zero none = refl
  minus_zero (some m) = ap (λ (k : ℕ). some k) (omega arith)

  pub loop_args :
      (fuel : ℕ) {i j : ℕ} {m n : Option ℕ} {es fs : List E} {ts us : List T}
      → i ≡ j
      → m ≡ n
      → es ≡ fs
      → ts ≡ us
      → retry_loop r w fuel deadline i m es ts ≡ retry_loop r w fuel deadline j n fs us
  loop_args fuel p q s t = cc

  -- Failures that are noted only move the loop on.
  pub rounds :
      {i : ℕ} {es : List E}
      → Failing i es
      → (fuel : ℕ) (retries : Option ℕ) (previous : List E) (slept : List T)
      → Allows retries (length es)
      → length es < fuel
      → (left : ℕ) × (retry_loop r w fuel deadline i retries previous slept
          ≡ retry_loop r w
              (suc left)
              deadline
              (i + length es)
              (minus_retries retries (length es))
              (previous ++ es)
              (slept ++ delays_from i es))
  unfolding delays_from
  rounds f zero retries previous slept h lt = absurd (omega arith)
  rounds (none_yet {i}) (suc fuel) retries previous slept h lt = (
    fuel,
    loop_args (suc fuel) (omega arith) (sym (minus_zero retries)) (sym (append-nil previous))
        (sym (append-nil slept)),
  )
  rounds (failed {i} {e} {es} p q t f) (suc fuel) retries previous slept h lt =
      let (left, same) =
        rounds {i = i + 1} f fuel (minus_retries retries 1) (previous ++ e ∷ [])
          (slept ++ w.delay i ∷ []) (Allows-rest retries (length es) h) (omega arith) in
      (
        left,
        one_round fuel i retries e previous slept p q t (Allows-one retries (length es) h)
            ∙ same
            ∙ loop_args (suc left) (omega arith) (minus_minus retries (length es))
                (append_assoc previous (e ∷ []) es)
                (append_assoc slept (w.delay i ∷ []) (delays_from (i + 1) es)),
      )
