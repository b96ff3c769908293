-- ===== src/Threading/Stable.antt =====
-- Calls of `ThreadLocalWrapper.get` of common/threading/local.py within one process.
use mathlib.Core.Path.{subst}
use descarteslabs_python.Prelude.{
  ℕ, ◌+◌, ◌≡◌, refl, sym, ap, ◌∙◌, true, false, Option, none, some, List, [], ◌∷◌, map, eqb,
  eqb_iff, if◌then◌else◌, Bool-cases, Option-cases, inl, inr, some-injective,
}
use descarteslabs_python.Threading.{
  Local, Wrapper, assign, create_local, init_local, wrapped_or_new, get, new_wrapper,
}
use descarteslabs_python.Threading.Owner.{assign_self, init_local-none, init_local-some, after_gets}

module _ {A : Type 0} (factory : ℕ → ℕ → ℕ → A) (pid : ℕ) where
  -- No thread has noted another process.
  abbrev InProcess : Wrapper A → Type 0
  InProcess w = (u q : ℕ) → (w.local u).pid ≡ some q → q ≡ pid

  abbrev mine : Option A → Local A
  mine o = record { pid = some pid; wrapped = o }

  mine_of : (l : Local A) → l.pid ≡ some pid → l ≡ mine l.wrapped
  mine_of l e = ap (λ p. record { pid = p; wrapped = l.wrapped }) e

  assign-other :
      (t u : ℕ) (l : Local A) (local : ℕ → Local A) → eqb u t ≡ false → assign u l local t ≡ local t
  unfolding assign
  assign-other t u l local ne = rw (assign, ne) refl

  pid-assign :
      (t : ℕ) (o : Option A) (local : ℕ → Local A)
      → ((u q : ℕ) → (local u).pid ≡ some q → q ≡ pid)
      → (u q : ℕ) → (assign t (mine o) local u).pid ≡ some q
      → q ≡ pid
  pid-assign t o local h u q e = elim (Bool-cases (eqb t u)) [
    | inl f ↦
        let here : assign t (mine o) local u ≡ mine o =
          ap (assign t (mine o) local) (sym ((eqb_iff t u).0 f))
          ∙ assign_self factory t (mine o) local in
        sym (some-injective (sym (ap (λ (l : Local A). l.pid) here) ∙ e))
    | inr f ↦ h u q (sym (ap (λ (l : Local A). l.pid) (assign-other u t (mine o) local f)) ∙ e)
  ]

  -- `_init_local` in a thread only notes the process.
  record Noted (t : ℕ) (w w' : Wrapper A) : Type 0 where
    here : w'.local t ≡ mine (w.local t).wrapped
    there : (u : ℕ) → eqb t u ≡ false → w'.local u ≡ w.local u
    in_process : InProcess w'

  noted_same :
      (t q : ℕ) (w : Wrapper A)
      → InProcess w
      → (w.local t).pid ≡ some q
      → Noted t w (if eqb pid q then w else create_local pid t w)
  noted_same t q w h e =
      let same : q ≡ pid = h t q e in
      let yes : eqb pid q ≡ true = (eqb_iff pid q).1 (sym same) in
      rw yes (record {
        here = mine_of (w.local t) (e ∙ ap (λ n. some n) same);
        there = λ u f. refl;
        in_process = h;
      })

  init_local-Noted : (t : ℕ) (w : Wrapper A) → InProcess w → Noted t w (init_local pid t w)
  init_local-Noted t w h = elim (Option-cases (w.local t).pid) [
    | inl e ↦ subst (Noted t w) (sym (init_local-none factory pid t w e)) (record {
      here = assign_self factory t (mine (w.local t).wrapped) w.local;
      there = λ u f. assign-other u t (mine (w.local t).wrapped) w.local f;
      in_process = pid-assign t (w.local t).wrapped w.local h;
    })
    | inr (q, e) ↦
        subst (Noted t w) (sym (init_local-some factory pid t q w e)) (noted_same t q w h e)
  ]

  -- The thread has its object, and no thread has noted another process.
  abbrev Has : ℕ → A → Wrapper A → Type 0
  Has t x w = (w.local t ≡ mine (some x)) × InProcess w

  Has-noted : (t u : ℕ) (x : A) (w w' : Wrapper A) → Noted u w w' → Has t x w → Has t x w'
  Has-noted t u x w w' n (mark, h) = elim (Bool-cases (eqb u t)) [
    | inr f ↦ (n.there t f ∙ mark, n.in_process)
    | inl f ↦
        let same : u ≡ t = (eqb_iff u t).0 f in
        (
          subst (λ v. w'.local v ≡ mine (w.local v).wrapped) same n.here
              ∙ ap (λ (l : Local A). mine l.wrapped) mark,
          n.in_process,
        )
  ]

  wrapped_or_new-some :
      (u : ℕ) (y : A) (w : Wrapper A)
      → (w.local u).wrapped ≡ some y
      → wrapped_or_new factory pid u w ≡ (y, w)
  unfolding wrapped_or_new
  wrapped_or_new-some u y w e = rw (wrapped_or_new, e) refl

  wrapped_or_new-none :
      (u : ℕ) (w : Wrapper A)
      → (w.local u).wrapped ≡ none
      → (w.local u).pid ≡ some pid
      → wrapped_or_new factory pid u w ≡ (
        factory pid u w.calls,
        record {
          local = assign u (mine (some (factory pid u w.calls))) w.local;
          calls = w.calls + 1;
        },
      )
  unfolding wrapped_or_new
  wrapped_or_new-none u w e p = rw (wrapped_or_new, e, p) refl

  Has-wrapped_or_new :
      (t u : ℕ) (x : A) (w : Wrapper A)
      → (w.local u).pid ≡ some pid
      → Has t x w
      → Has t x (wrapped_or_new factory pid u w).1
  Has-wrapped_or_new t u x w p (mark, h) = elim (Option-cases (w.local u).wrapped) [
    | inr (y, e) ↦ subst (λ r. Has t x r.1) (sym (wrapped_or_new-some u y w e)) (mark, h)
    | inl e ↦
        let new : Option A = some (factory pid u w.calls) in
        let other : eqb u t ≡ false = elim (Bool-cases (eqb u t)) [
          | inr f ↦ f
          | inl f ↦ absurd (
              cc
                (sym (ap (λ (l : Local A). l.wrapped) (ap w.local ((eqb_iff u t).0 f) ∙ mark)) ∙ e))
        ] in
        subst (λ r. Has t x r.1) (sym (wrapped_or_new-none u w e p))
          (assign-other t u (mine new) w.local other ∙ mark, pid-assign u new w.local h)
  ]

  Has-get : (t u : ℕ) (x : A) (w : Wrapper A) → Has t x w → Has t x (get factory pid u w).1
  unfolding get
  Has-get t u x w h =
      let n = init_local-Noted u w h.1 in
      Has-wrapped_or_new t u x (init_local pid u w) (ap (λ (l : Local A). l.pid) n.here)
        (Has-noted t u x w (init_local pid u w) n h)

  wrapped_or_new-Has :
      (t : ℕ) (w : Wrapper A)
      → (w.local t).pid ≡ some pid
      → InProcess w
      → Has t (wrapped_or_new factory pid t w).0 (wrapped_or_new factory pid t w).1
  wrapped_or_new-Has t w p h = elim (Option-cases (w.local t).wrapped) [
    | inr (x, e) ↦
        subst (λ (r : A × Wrapper A). Has t r.0 r.1) (sym (wrapped_or_new-some t x w e))
          (mine_of (w.local t) p ∙ ap (λ o. mine o) e, h)
    | inl e ↦
        let new : Option A = some (factory pid t w.calls) in
        subst (λ (r : A × Wrapper A). Has t r.0 r.1) (sym (wrapped_or_new-none t w e p))
          (assign_self factory t (mine new) w.local, pid-assign t new w.local h)
  ]

  get-Has :
      (t : ℕ) (w : Wrapper A) → InProcess w → Has t (get factory pid t w).0 (get factory pid t w).1
  unfolding get
  get-Has t w h =
      let n = init_local-Noted t w h in
      wrapped_or_new-Has t (init_local pid t w) (ap (λ (l : Local A). l.pid) n.here) n.in_process

  get-kept : (t : ℕ) (x : A) (w : Wrapper A) → Has t x w → (get factory pid t w).0 ≡ x
  unfolding get
  get-kept t x w h =
      let n = init_local-Noted t w h.1 in
      let kept = Has-noted t t x w (init_local pid t w) n h in
      ap (λ r. r.0)
        (wrapped_or_new-some t x (init_local pid t w) (ap (λ (l : Local A). l.wrapped) kept.0))

  -- Calls of `get` in this process, by their threads.
  abbrev pub in_process : List ℕ → List (ℕ × ℕ)
  in_process threads = map (λ u. (pid, u)) threads

  Has-after_gets :
      (t : ℕ) (x : A) (threads : List ℕ) (w : Wrapper A)
      → Has t x w
      → Has t x (after_gets factory (in_process threads) w)
  unfolding after_gets
  Has-after_gets t x [] w h = h
  Has-after_gets t x (u ∷ threads) w h =
      Has-after_gets t x threads (get factory pid u w).1 (Has-get t u x w h)

  InProcess-after_gets :
      (threads : List ℕ) (w : Wrapper A)
      → InProcess w
      → InProcess (after_gets factory (in_process threads) w)
  unfolding after_gets
  InProcess-after_gets [] w h = h
  InProcess-after_gets (u ∷ threads) w h =
      InProcess-after_gets threads (get factory pid u w).1 (get-Has u w h).1

  InProcess-new_wrapper : (t : ℕ) → InProcess (new_wrapper factory pid t)
  unfolding new_wrapper create_local
  InProcess-new_wrapper t =
      pid-assign t none (λ u. record { pid = none; wrapped = none }) (λ u q e. absurd (cc e))

  -- In a process that does not fork, whatever calls of `get` there were in any threads before: what
  -- a call returns in a thread is what every later call in this thread returns, with any calls in
  -- any threads between the two.
  pub get-get :
      (t₀ t : ℕ) (before between : List ℕ)
      → let w = after_gets factory (in_process before) (new_wrapper factory pid t₀) in
        let first = get factory pid t w in
        (get factory pid t (after_gets factory (in_process between) first.1)).0 ≡ first.0
  get-get t₀ t before between =
      let w : Wrapper A = after_gets factory (in_process before) (new_wrapper factory pid t₀) in
      let h = get-Has t w (InProcess-after_gets before _ (InProcess-new_wrapper t₀)) in
      get-kept t _ _ (Has-after_gets t _ between _ h)
