-- ===== src/Graft/Client/Refers.antt =====
-- How the call that `apply_graft` of graft/client/client.py builds refers to its arguments.
use text.Mathlib.TextPositions.{eq_refl}
use descarteslabs_python.Prelude.{
  ℕ, ◌≤◌, ◌<◌, String, ◌≡◌, refl, sym, ap, ◌∙◌, true, false, some, List, [], ◌∷◌, arith, ◌==◌,
  eq_iff, Bool-cases, inl, inr,
}
use descarteslabs_python.Python.Number.{str_of_ℕ, int_of_str}
use descarteslabs_python.Python.Number.RoundTrip.{int_of_str-str_of_ℕ}
use descarteslabs_python.Python.Result.{pure, ◌>>=◌}
use descarteslabs_python.Python.Result.Ensures.{Ensures, returns, Ensures-bind}
use descarteslabs_python.Graft.Value.{Value, str, dict, Items, nil, cons, Fields, end, field}
use descarteslabs_python.Graft.Fields.{get, has, put, update, get-put, get-update, has-get}
use descarteslabs_python.Graft.Client.{
  Guids, graft_is_function_graft, returned_key, add_arg, add_positional, add_named,
}
use descarteslabs_python.Graft.Client.Fresh.{
  Below, Below-mono, Below-put_new, Below-update, pos-injective, returns-ne-str_of_ℕ,
}
use descarteslabs_python.Graft.Client.Keys.{All, grafts}

-- The numbers from `n` on that were handed out before `m` keep what they stand for.
abbrev pub Kept : ℕ → ℕ → Fields → Fields → Type 0
Kept n m d d' = (i : ℕ) → n ≤ i → i < m → get (str_of_ℕ i) d' ≡ get (str_of_ℕ i) d

-- What a call has for the graft of an argument: the key that a value graft returns, or, for a function
-- graft, a key handed out between `n` and `m`, under which `d` has that graft.
pub data RefersTo (n m : ℕ) (d arg : Fields) (key : Value) : Type 0 where
  by_value : graft_is_function_graft arg ≡ false → key ≡ returned_key arg → RefersTo n m d arg key
  by_function :
      (i : ℕ)
      → graft_is_function_graft arg ≡ true
      → n ≤ i
      → i < m
      → key ≡ str (str_of_ℕ i)
      → get (str_of_ℕ i) d ≡ some (dict arg)
      → RefersTo n m d arg key

pub RefersTo-Kept :
    (n m m' : ℕ) (d d' arg : Fields) (key : Value)
    → m ≤ m'
    → Kept n m d d'
    → RefersTo n m d arg key
    → RefersTo n m' d' arg key
RefersTo-Kept n m m' d d' arg key le kept (by_value e r) = by_value e r
RefersTo-Kept n m m' d d' arg key le kept (by_function i e lo hi r g) =
    by_function i e lo (omega (arith, le, hi)) r (kept i lo hi ∙ g)

-- One key for each positional argument, in their order.
abbrev pub AllRefer : ℕ → ℕ → Fields → List Fields → Items → Type 0
AllRefer n m d [] nil = Unit
AllRefer n m d (arg ∷ args) (cons key ks) = RefersTo n m d arg key × AllRefer n m d args ks
AllRefer n m d _ _ = ⊥

-- One for each named argument, under its name.
abbrev pub NamedRefer : ℕ → ℕ → Fields → List (String × Fields) → Fields → Type 0
NamedRefer n m d [] end = Unit
NamedRefer n m d ((name, arg) ∷ args) (field k key ks) =
    (k ≡ name) × (RefersTo n m d arg key × NamedRefer n m d args ks)
NamedRefer n m d _ _ = ⊥

-- What a step does to the graft that it adds to.
pub record Adds (n : ℕ) (d : Fields) (s : Guids) (d' : Fields) (s' : Guids) : Type 0 where
  pub grown : s.next ≤ s'.next
  pub old : Below s'.next d'
  pub kept : Kept n s.next d d'

Adds-trans :
    (n : ℕ) (d d₁ d₂ : Fields) (s s₁ s₂ : Guids)
    → Adds n d s d₁ s₁
    → Adds n d₁ s₁ d₂ s₂
    → Adds n d s d₂ s₂
Adds-trans n d d₁ d₂ s s₁ s₂ a b = record {
  grown = omega (arith, a.grown, b.grown);
  old = b.old;
  kept = λ i lo hi. b.kept i lo (omega (arith, hi, a.grown)) ∙ a.kept i lo hi;
}

str_of_ℕ-ne : (n i : ℕ) → i < n → (str_of_ℕ n == str_of_ℕ i) ≡ false
str_of_ℕ-ne n i lt = elim (Bool-cases (str_of_ℕ n == str_of_ℕ i)) [
  | inl p ↦
      let same : n ≡ i = pos-injective (
        sym (int_of_str-str_of_ℕ n)
        ∙ ap int_of_str ((eq_iff (str_of_ℕ n) (str_of_ℕ i)).0 p)
        ∙ int_of_str-str_of_ℕ i) in
      absurd (omega (arith, lt, same))
  | inr p ↦ p
]

-- A new key, and a graft with older keys, leave those between alone.
pub Kept-put_new : (n m : ℕ) (v : Value) (d : Fields) → Kept n m d (put (str_of_ℕ m) v d)
Kept-put_new n m v d i lo hi = rw (get-put (str_of_ℕ m) (str_of_ℕ i) v d, str_of_ℕ-ne m i hi)

pub Kept-put_returns : (n m : ℕ) (v : Value) (d : Fields) → Kept n m d (put "returns" v d)
Kept-put_returns n m v d i lo hi = rw (get-put "returns" (str_of_ℕ i) v d, returns-ne-str_of_ℕ i)

Kept-update : (n m : ℕ) (d e : Fields) → Below n e → Kept n m d (update d e)
Kept-update n m d e h i lo hi = elim (Bool-cases (has (str_of_ℕ i) e)) [
  | inl p ↦
      let lt : i < n = h (str_of_ℕ i) i p (int_of_str-str_of_ℕ i) in absurd (omega (arith, lt, lo))
  | inr p ↦ ground (arith, get-update (str_of_ℕ i) d e, has-get (str_of_ℕ i) e)
]

add_arg-Adds :
    (n : ℕ) (result arg : Fields) (s : Guids)
    → n ≤ s.next
    → Below s.next result
    → Below n arg
    → Ensures
        (λ (r : Fields × Value) s'. Adds n result s r.0 s' × RefersTo n s'.next r.0 arg r.1)
        (add_arg result arg s).0
        (add_arg result arg s).1
unfolding add_arg
add_arg-Adds n result arg s le hr ha = elim (Bool-cases (graft_is_function_graft arg)) [
  | inl e ↦
      rw (e, add_arg)
        (returns (
          record {
            grown = omega arith;
            old = Below-put_new s.next (dict arg) result hr;
            kept = Kept-put_new n s.next (dict arg) result;
          },
          by_function s.next e le (omega arith) refl (rw (get-put, eq_refl (str_of_ℕ s.next))),
        ))
  | inr e ↦
      rw (e, add_arg)
        (returns (
          record {
            grown = omega arith;
            old = Below-update s.next result arg hr (Below-mono n s.next arg le ha);
            kept = Kept-update n s.next result arg ha;
          },
          by_value e refl,
        ))
]

pub positional-Adds :
    (n : ℕ) (result : Fields) (args : List Fields) (s : Guids)
    → n ≤ s.next
    → Below s.next result
    → All (Below n) args
    → Ensures
        (λ (r : Fields × Items) s'. Adds n result s r.0 s' × AllRefer n s'.next r.0 args r.1)
        (add_positional result args s).0
        (add_positional result args s).1
unfolding add_positional
positional-Adds n result [] s le hr ha =
    returns (record { grown = omega arith; old = hr; kept = λ i lo hi. refl }, tt)
positional-Adds n result (arg ∷ args) s le hr ha =
    Ensures-bind (add_arg result arg)
      (λ r. add_positional r.0 args >>= λ rs. pure (rs.0, cons r.1 rs.1)) s
      (add_arg-Adds n result arg s le hr ha.0)
      λ r s₁ b.
        Ensures-bind (add_positional r.0 args) (λ rs. pure (rs.0, cons r.1 rs.1)) s₁
          (positional-Adds n r.0 args s₁ (omega (arith, le, b.0.grown)) b.0.old ha.1)
          λ rs s₂ c. returns (
            Adds-trans n result r.0 rs.0 s s₁ s₂ b.0 c.0,
            (RefersTo-Kept n s₁.next s₂.next r.0 rs.0 arg r.1 c.0.grown c.0.kept b.1, c.1),
          )

pub named-Adds :
    (n : ℕ) (result : Fields) (args : List (String × Fields)) (s : Guids)
    → n ≤ s.next
    → Below s.next result
    → All (Below n) (grafts args)
    → Ensures
        (λ (r : Fields × Fields) s'. Adds n result s r.0 s' × NamedRefer n s'.next r.0 args r.1)
        (add_named result args s).0
        (add_named result args s).1
unfolding add_named
named-Adds n result [] s le hr ha =
    returns (record { grown = omega arith; old = hr; kept = λ i lo hi. refl }, tt)
named-Adds n result ((name, arg) ∷ args) s le hr ha =
    Ensures-bind (add_arg result arg)
      (λ r. add_named r.0 args >>= λ rs. pure (rs.0, field name r.1 rs.1)) s
      (add_arg-Adds n result arg s le hr ha.0)
      λ r s₁ b.
        Ensures-bind (add_named r.0 args) (λ rs. pure (rs.0, field name r.1 rs.1)) s₁
          (named-Adds n r.0 args s₁ (omega (arith, le, b.0.grown)) b.0.old ha.1)
          λ rs s₂ c. returns (
            Adds-trans n result r.0 rs.0 s s₁ s₂ b.0 c.0,
            (refl, (RefersTo-Kept n s₁.next s₂.next r.0 rs.0 arg r.1 c.0.grown c.0.kept b.1, c.1)),
          )

pub AllRefer-Kept :
    (n m m' : ℕ) (d d' : Fields) (args : List Fields) (ks : Items)
    → m ≤ m'
    → Kept n m d d'
    → AllRefer n m d args ks
    → AllRefer n m' d' args ks
AllRefer-Kept n m m' d d' [] nil le kept h = tt
AllRefer-Kept n m m' d d' [] (cons k ks) le kept h = absurd h
AllRefer-Kept n m m' d d' (arg ∷ args) nil le kept h = absurd h
AllRefer-Kept n m m' d d' (arg ∷ args) (cons k ks) le kept h =
    (RefersTo-Kept n m m' d d' arg k le kept h.0, AllRefer-Kept n m m' d d' args ks le kept h.1)

pub NamedRefer-Kept :
    (n m m' : ℕ) (d d' : Fields) (args : List (String × Fields)) (ks : Fields)
    → m ≤ m'
    → Kept n m d d'
    → NamedRefer n m d args ks
    → NamedRefer n m' d' args ks
NamedRefer-Kept n m m' d d' [] end le kept h = tt
NamedRefer-Kept n m m' d d' [] (field k key ks) le kept h = absurd h
NamedRefer-Kept n m m' d d' ((name, arg) ∷ args) end le kept h = absurd h
NamedRefer-Kept n m m' d d' ((name, arg) ∷ args) (field k key ks) le kept h = (
  h.0,
  (
    RefersTo-Kept n m m' d d' arg key le kept h.1.0,
    NamedRefer-Kept n m m' d d' args ks le kept h.1.1,
  ),
)
