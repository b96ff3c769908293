-- ===== src/Python/Result/Ensures.antt =====
-- Postconditions of actions that may raise: what holds of the value and the state of a return.
use descarteslabs_python.Prelude.{◌≡◌, refl, arith}
use descarteslabs_python.Python.Result.{Result, ok, err, Action, ◌>>=◌}

pub data Ensures {ℓ} {S E A : Type ℓ} (Q : A → S → Type ℓ) : Result E A → S → Type ℓ where
  returns : {a : A} {s : S} → Q a s → Ensures Q (ok a) s
  raises : {e : E} {s : S} → Ensures Q (err e) s

module _ {ℓ} {S E A : Type ℓ} {Q : A → S → Type ℓ} where
  pub Ensures-ok : {r : Result E A} {a : A} {s : S} → Ensures Q r s → r ≡ ok a → Q a s
  Ensures-ok (returns q) h = ground arith
  Ensures-ok raises h = cc

module _ {ℓ} {S E A : Type ℓ} where
  -- `lift` leaves the state alone.
  pub Ensures-lift : (r : Result E A) (s : S) → Ensures (λ a s'. s' ≡ s) r s
  Ensures-lift (ok a) s = returns refl
  Ensures-lift (err e) s = raises

module _ {ℓ} {S E A B : Type ℓ} {P : A → S → Type ℓ} {Q : B → S → Type ℓ} where
  -- The rule for `>>=`.
  pub Ensures-bind :
      (m : Action S E A) (f : A → Action S E B) (s : S)
      → Ensures P (m s).0 (m s).1
      → ((a : A) (s' : S) → P a s' → Ensures Q (f a s').0 (f a s').1)
      → Ensures Q ((m >>= f) s).0 ((m >>= f) s).1
  Ensures-bind m f s h k = go (m s).0 (m s).1 h
    where
      go :
          (r : Result E A) (s' : S)
          → Ensures P r s'
          → Ensures Q (((λ _. (r, s')) >>= f) s).0 (((λ _. (r, s')) >>= f) s).1
      go (ok a) s' (returns p) = k a s' p
      go (err e) s' raises = raises

module _ {ℓ} {S E A : Type ℓ} {P : A → S → Type ℓ} where
  -- A return and its state are what the run gives.
  pub Ensures-run :
      (m : Action S E A) (s : S)
      → Ensures P (m s).0 (m s).1
      → Ensures (λ a s'. (◌≡◌ {A = Result E A × S} (m s) (ok a, s')) × P a s') (m s).0 (m s).1
  Ensures-run m s h = go (m s).0 (m s).1 h
    where
      go :
          (r : Result E A) (s' : S)
          → Ensures P r s'
          → Ensures (λ a s₁. (◌≡◌ {A = Result E A × S} (r, s') (ok a, s₁)) × P a s₁) r s'
      go (ok a) s' (returns p) = returns (refl, p)
      go (err e) s' raises = raises

module _ {ℓ} {S E A : Type ℓ} {P Q : A → S → Type ℓ} where
  pub Ensures-weaken :
      (r : Result E A) (s : S)
      → ((a : A) (s' : S) → P a s' → Q a s')
      → Ensures P r s
      → Ensures Q r s
  Ensures-weaken (ok a) s f (returns p) = returns (f a s p)
  Ensures-weaken (err e) s f raises = raises
