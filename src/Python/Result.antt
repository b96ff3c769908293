-- ===== src/Python/Result.antt =====
-- Exceptions: a pure function that may raise returns a `Result`, and code that also changes a state
-- of type `S` is an action, which returns the state beside the exception, as it was at the raise.
pub mod Ensures
use descarteslabs_python.Prelude.{◌≡◌, refl, ◌⊎◌, inl, inr, arith, List, [], ◌∷◌}

pub data Result {ℓ κ} (E : Type ℓ) (A : Type κ) : Type (ℓ ⊔ κ) where
  ok : A → Result E A
  err : E → Result E A

abbrev pub Action {ℓ} : Type ℓ → Type ℓ → Type ℓ → Type ℓ
Action S E A = S → Result E A × S

module _ {ℓ} {E A B : Type ℓ} where
  abbrev pub bind : Result E A → (A → Result E B) → Result E B
  bind (ok a) f = f a
  bind (err e) f = err e

module _ {ℓ} {S E A : Type ℓ} where
  abbrev pub pure : A → Action S E A
  pure a s = (ok a, s)

  abbrev pub raise : E → Action S E A
  raise e s = (err e, s)

  abbrev pub lift : Result E A → Action S E A
  lift r s = (r, s)

module _ {ℓ} {S E A B : Type ℓ} where
  abbrev continue : Result E A → (A → Action S E B) → Action S E B
  continue (ok a) f s = f a s
  continue (err e) f s = (err e, s)

  infixl 5 ◌>>=◌ ◌>>◌
  abbrev pub ◌>>=◌ : Action S E A → (A → Action S E B) → Action S E B
  ◌>>=◌ m f s = continue (m s).0 f (m s).1

  abbrev pub ◌>>◌ : Action S E A → Action S E B → Action S E B
  m >> n = m >>= λ _. n

-- A list comprehension whose element expression is an action.
module _ {ℓ} {S E A B : Type ℓ} where
  unfoldable pub map_action : (A → Action S E B) → List A → Action S E (List B)
  map_action f [] = pure []
  map_action f (a ∷ l) = do b ← f a; bs ← map_action f l; pure (b ∷ bs)

-- To split on a computed result and keep the equation.
module _ {ℓ κ} {E : Type ℓ} {A : Type κ} where
  pub Result-cases : (r : Result E A) → ((a : A) × (r ≡ ok a)) ⊎ ((e : E) × (r ≡ err e))
  Result-cases (ok a) = inl (a, refl)
  Result-cases (err e) = inr (e, refl)

module _ {ℓ κ} {E : Type ℓ} {A : Type κ} where
  pub ok-injective : {a b : A} → Path (Result E A) (ok a) (ok b) → a ≡ b
  ok-injective e = ground arith

-- What a `bind` that returns has gone through.
module _ {ℓ} {E A B : Type ℓ} where
  pub bind-ok :
      (r : Result E A) (f : A → Result E B) {b : B}
      → bind r f ≡ ok b
      → (a : A) × ((r ≡ ok a) × (f a ≡ ok b))
  bind-ok (ok a) f e = (a, (refl, e))
  bind-ok (err x) f e = cc
