-- ===== src/Threading/Owner.antt =====
-- Calls of `ThreadLocalWrapper.get` of common/threading/local.py in processes and threads.
use descarteslabs_python.Prelude.{
  ℕ, ◌≡◌, refl, sym, ap, ◌∙◌, true, none, some, List, [], ◌∷◌, eqb, eqb_iff, if◌then◌else◌,
  Bool-cases, Option-cases, inl, inr, some-injective,
}
use mathlib.Core.Path.{subst}
use descarteslabs_python.Threading.{
  Local, Wrapper, assign, create_local, init_local, wrapped_or_new, get, new_wrapper,
}

module _ {A : Type 0} (factory : ℕ → ℕ → ℕ → A) where
  -- What a thread has wrapped was made in it, by the process that it has noted.
  abbrev pub Owned : ℕ → Local A → Type 0
  Owned t l =
      (x : A) → l.wrapped ≡ some x → (q : ℕ) × (n : ℕ) × (l.pid ≡ some q) × (x ≡ factory q t n)

  abbrev pub Own : Wrapper A → Type 0
  Own w = (t : ℕ) → Owned t (w.local t)

  Owned-assign :
      (t : ℕ) (l : Local A) (local : ℕ → Local A)
      → Owned t l
      → ((u : ℕ) → Owned u (local u))
      → (u : ℕ) → Owned u (assign t l local u)
  unfolding assign
  Owned-assign t l local h rest u = elim (Bool-cases (eqb t u)) [
    | inl e ↦ rw (assign, e) (subst (λ v. Owned v l) ((eqb_iff t u).0 e) h)
    | inr e ↦ rw (assign, e) (rest u)
  ]

  Own-create_local : (pid t : ℕ) (w : Wrapper A) → Own (create_local pid t w)
  unfolding create_local
  Own-create_local pid t w =
      Owned-assign t (record { pid = some pid; wrapped = none }) _ (λ x e. cc) (λ u x e. cc)

  pub assign_self : (t : ℕ) (l : Local A) (local : ℕ → Local A) → assign t l local t ≡ l
  unfolding assign
  assign_self t l local = let same : eqb t t ≡ true = (eqb_iff t t).1 refl in rw (assign, same) refl

  pub init_local-none :
      (pid t : ℕ) (w : Wrapper A)
      → (w.local t).pid ≡ none
      → init_local pid t w ≡ record w {
        local = assign t (record { pid = some pid; wrapped = (w.local t).wrapped }) w.local;
      }
  unfolding init_local
  init_local-none pid t w e = rw (init_local, e) refl

  pub init_local-some :
      (pid t q : ℕ) (w : Wrapper A)
      → (w.local t).pid ≡ some q
      → init_local pid t w ≡ (if eqb pid q then w else create_local pid t w)
  unfolding init_local
  init_local-some pid t q w e = rw (init_local, e) refl

  abbrev Noted : ℕ → ℕ → Wrapper A → Type 0
  Noted pid t w = Own w × ((w.local t).pid ≡ some pid)

  noted :
      (pid t q : ℕ) (w : Wrapper A)
      → Own w
      → (w.local t).pid ≡ some q
      → Noted pid t (if eqb pid q then w else create_local pid t w)
  unfolding create_local
  noted pid t q w own e = elim (Bool-cases (eqb pid q)) [
    | inl f ↦ rw f (own, e ∙ ap (λ n. some n) (sym ((eqb_iff pid q).0 f)))
    | inr f ↦ rw f (
      Own-create_local pid t w,
      ap (λ (l : Local A). l.pid)
          (assign_self t (record { pid = some pid; wrapped = none })
            (λ u. record { pid = none; wrapped = none })),
    )
  ]

  -- After `_init_local` the thread has noted this process, and owns what it has wrapped.
  init_local-Noted : (pid t : ℕ) (w : Wrapper A) → Own w → Noted pid t (init_local pid t w)
  init_local-Noted pid t w own = elim (Option-cases (w.local t).pid) [
    | inl e ↦ subst (Noted pid t) (sym (init_local-none pid t w e)) (
      Owned-assign t (record { pid = some pid; wrapped = (w.local t).wrapped }) w.local
          (λ x h. let (q, n, p, made) = own t x h in absurd (cc (sym e ∙ p))) own,
      ap (λ (l : Local A). l.pid)
          (assign_self t (record { pid = some pid; wrapped = (w.local t).wrapped }) w.local),
    )
    | inr (q, e) ↦ subst (Noted pid t) (sym (init_local-some pid t q w e)) (noted pid t q w own e)
  ]

  -- An object of this process and thread, and a wrapper in which all threads own their objects.
  abbrev pub Made : ℕ → ℕ → A × Wrapper A → Type 0
  Made pid t r = ((n : ℕ) × (r.0 ≡ factory pid t n)) × Own r.1

  wrapped_or_new-Made :
      (pid t : ℕ) (w : Wrapper A) → Noted pid t w → Made pid t (wrapped_or_new factory pid t w)
  unfolding wrapped_or_new
  wrapped_or_new-Made pid t w (own, here) = elim (Option-cases (w.local t).wrapped) [
    | inl e ↦
        rw (wrapped_or_new, e)
          (
            (w.calls, refl),
            Owned-assign t
                (record { pid = (w.local t).pid; wrapped = some (factory pid t w.calls) }) w.local
                (λ x h. (pid, w.calls, here, sym (some-injective h))) own,
          )
    | inr (x, e) ↦
        let (q, n, p, made) = own t x e in
        let same : q ≡ pid = some-injective (sym p ∙ here) in
        rw (wrapped_or_new, e) ((n, made ∙ ap (λ r. factory r t n) same), own)
  ]

  get-Made : (pid t : ℕ) (w : Wrapper A) → Own w → Made pid t (get factory pid t w)
  unfolding get
  get-Made pid t w own =
      wrapped_or_new-Made pid t (init_local pid t w) (init_local-Noted pid t w own)

  -- The wrapper after a history of calls of `get`, each in a process and a thread.
  unfoldable pub after_gets : List (ℕ × ℕ) → Wrapper A → Wrapper A
  after_gets [] w = w
  after_gets ((pid, t) ∷ gets) w = after_gets gets (get factory pid t w).1

  Own-after_gets : (gets : List (ℕ × ℕ)) (w : Wrapper A) → Own w → Own (after_gets gets w)
  unfolding after_gets
  Own-after_gets [] w own = own
  Own-after_gets ((pid, t) ∷ gets) w own = Own-after_gets gets _ (get-Made pid t w own).1

  -- Whatever calls of `get` there were since the wrapper was made, in whichever processes and
  -- threads: a call in a process and a thread returns an object that the factory made there, never
  -- one of another thread or of the process that this one was forked from.
  pub get-after_gets :
      (pid₀ t₀ : ℕ) (gets : List (ℕ × ℕ)) (pid t : ℕ)
      → (n : ℕ) × ((get factory pid t (after_gets gets (new_wrapper factory pid₀ t₀))).0
          ≡ factory pid t n)
  unfolding new_wrapper
  get-after_gets pid₀ t₀ gets pid t =
      (get-Made pid t _ (
        Own-after_gets gets _ (
          Own-create_local pid₀ t₀
            (record { local = λ u. record { pid = none; wrapped = none }; calls = 0 })))).0
