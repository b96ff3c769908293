-- ===== src/Graft/Client/Keys.antt =====
-- The keys in the grafts of the arguments of `apply_graft` in graft/client/client.py.
use descarteslabs_python.Prelude.{
  ℕ, ◌+◌, ◌≤◌, String, ◌≡◌, refl, none, some, List, [], ◌∷◌, arith, Option-cases, inl, inr,
}
use descarteslabs_python.Python.Number.{str_of_ℕ}
use descarteslabs_python.Python.Result.{pure, ◌>>=◌, map_action}
use descarteslabs_python.Python.Result.Ensures.{Ensures, returns, raises, Ensures-bind}
use descarteslabs_python.Graft.Value.{Value, seq, dict, delayed, object, nil, cons, Fields}
use descarteslabs_python.Graft.Syntax.{is_literal}
use descarteslabs_python.Graft.Client.{
  Guids, as_graft, delayed_graft, binding, literal_graft, value_graft, graft_of, named_graft_of,
}
use descarteslabs_python.Graft.Client.Fresh.{Below, Below-mono, Below-binding}

-- A value whose graft, if it is one or has one, has only keys that `guid` has already handed out.
pub record IsOld (n : ℕ) (v : Value) : Type 0 where
  pub itself : (d : Fields) → as_graft v ≡ some d → Below n d
  pub delays : (d : Fields) → delayed_graft v ≡ some d → Below n d

abbrev pub All {ℓ κ} : {A : Type ℓ} → (A → Type κ) → List A → Type κ
All P [] = Unit
All P (x ∷ xs) = P x × All P xs

pub All-map {ℓ κ} :
    {A : Type ℓ} (P Q : A → Type κ) (xs : List A) → ((x : A) → P x → Q x) → All P xs → All Q xs
All-map P Q [] f h = tt
All-map P Q (x ∷ xs) f h = (f x h.0, All-map P Q xs f h.1)

-- The counter has not gone back, and the graft has only old keys.
pub record Built (n : ℕ) (d : Fields) (s : Guids) : Type 0 where
  pub grown : n ≤ s.next
  pub old : Below s.next d

binding-Built :
    (n : ℕ) (v : Value) (s : Guids) → s.next ≡ n + 1 → Built n (binding (str_of_ℕ n) v) s
binding-Built n v s e = record { grown = omega arith; old = rw e (Below-binding n v) }

literal_graft-Built :
    (n : ℕ) (v : Value) (s : Guids)
    → s.next ≡ n + 1
    → Ensures (Built n) (literal_graft (str_of_ℕ n) v s).0 (literal_graft (str_of_ℕ n) v s).1
unfolding literal_graft is_literal
literal_graft-Built n (seq xs) s e = returns (binding-Built n (seq (cons (seq xs) nil)) s e)
literal_graft-Built n (dict d) s e = returns (binding-Built n (seq (cons (dict d) nil)) s e)
literal_graft-Built n (delayed v) s e = raises
literal_graft-Built n (object v) s e = raises
literal_graft-Built n v s e = returns (binding-Built n v s e)

value_graft-Built :
    (v : Value) (s : Guids)
    → IsOld s.next v
    → Ensures (Built s.next) (value_graft v none s).0 (value_graft v none s).1
unfolding value_graft
value_graft-Built v s h = elim (Option-cases (delayed_graft v)) [
  | inl e ↦ rw (e, value_graft) (literal_graft-Built s.next v (record s { next = s.next + 1 }) refl)
  | inr (d, e) ↦ rw (e, value_graft) (returns (record { grown = omega arith; old = h.delays d e }))
]

graft_of-Built :
    (v : Value) (s : Guids)
    → IsOld s.next v
    → Ensures (Built s.next) (graft_of v s).0 (graft_of v s).1
unfolding graft_of
graft_of-Built v s h = elim (Option-cases (as_graft v)) [
  | inl e ↦ rw (e, graft_of) (value_graft-Built v s h)
  | inr (d, e) ↦ rw (e, graft_of) (returns (record { grown = omega arith; old = h.itself d e }))
]

pub IsOld-mono : (n n' : ℕ) (v : Value) → n ≤ n' → IsOld n v → IsOld n' v
IsOld-mono n n' v le h = record {
  itself = λ d e. Below-mono n n' d le (h.itself d e);
  delays = λ d e. Below-mono n n' d le (h.delays d e);
}

-- The grafts of the arguments.
pub record AllBuilt (n : ℕ) (ds : List Fields) (s : Guids) : Type 0 where
  pub grown : n ≤ s.next
  pub old : All (Below s.next) ds

pub args-Built :
    (vs : List Value) (s : Guids)
    → All (IsOld s.next) vs
    → Ensures (AllBuilt s.next) (map_action graft_of vs s).0 (map_action graft_of vs s).1
unfolding map_action
args-Built [] s h = returns (record { grown = omega arith; old = tt })
args-Built (v ∷ vs) s h =
    Ensures-bind (graft_of v) (λ d. map_action graft_of vs >>= λ ds. pure (d ∷ ds)) s
      (graft_of-Built v s h.0)
      λ d s₁ b.
        Ensures-bind (map_action graft_of vs) (λ ds. pure (d ∷ ds)) s₁
          (args-Built vs s₁ (
            All-map (IsOld s.next) (IsOld s₁.next) vs (λ x. IsOld-mono s.next s₁.next x b.grown)
              h.1))
          λ ds s₂ bs. returns (record {
            grown = omega (arith, b.grown, bs.grown);
            old = (Below-mono s₁.next s₂.next d bs.grown b.old, bs.old);
          })

abbrev pub values : List (String × Value) → List Value
values [] = []
values ((name, v) ∷ kvs) = v ∷ values kvs

abbrev pub grafts : List (String × Fields) → List Fields
grafts [] = []
grafts ((name, d) ∷ kvs) = d ∷ grafts kvs

pub named_args-Built :
    (kvs : List (String × Value)) (s : Guids)
    → All (IsOld s.next) (values kvs)
    → Ensures
        (λ ds. AllBuilt s.next (grafts ds))
        (map_action named_graft_of kvs s).0
        (map_action named_graft_of kvs s).1
unfolding map_action
named_args-Built [] s h = returns (record { grown = omega arith; old = tt })
named_args-Built ((name, v) ∷ kvs) s h =
    Ensures-bind {P = λ (nd : String × Fields) s'. Built s.next nd.1 s'} (named_graft_of (name, v))
      (λ d. map_action named_graft_of kvs >>= λ ds. pure (d ∷ ds)) s
      (Ensures-bind (graft_of v) (λ d. pure (name, d)) s (graft_of-Built v s h.0)
        λ d s₁ b. returns b)
      λ nd s₁ b.
        Ensures-bind (map_action named_graft_of kvs) (λ ds. pure (nd ∷ ds)) s₁
          (named_args-Built kvs s₁ (
            All-map (IsOld s.next) (IsOld s₁.next) (values kvs)
              (λ x. IsOld-mono s.next s₁.next x b.grown) h.1))
          λ ds s₂ bs. returns (record {
            grown = omega (arith, b.grown, bs.grown);
            old = (Below-mono s₁.next s₂.next nd.1 bs.grown b.old, bs.old);
          })
