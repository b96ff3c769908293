-- ===== src/Graft/Client/Namespace.antt =====
-- The keys around a graft that `isolate_keys` of graft/client/client.py is applied to.
use text.Mathlib.TextPositions.{eq_refl}
use descarteslabs_python.Prelude.{
  ne_sym, ℕ, ◌+◌, String, ◌≡◌, refl, sym, ap, ◌∙◌, true, false, ◌&&◌, some, arith, ◌==◌, eq_iff,
  Bool-cases, inl, inr,
}
use mathlib.Core.Bool.{false≢true}
use descarteslabs_python.Python.Number.{str_of_ℕ, int_of_str}
use descarteslabs_python.Python.Number.RoundTrip.{int_of_str-str_of_ℕ}
use descarteslabs_python.Python.Result.{ok}
use descarteslabs_python.Graft.Value.{str, seq, dict, nil, cons, Fields, end, field}
use descarteslabs_python.Graft.Fields.{get, has}
use descarteslabs_python.Graft.Client.{Guids, guid, graft_is_function_graft}
use descarteslabs_python.Graft.Client.Fresh.{Below, Below-mono, returns-ne-str_of_ℕ, pos-injective}
use descarteslabs_python.Graft.Client.Outer.{old-ne}
use descarteslabs_python.Graft.Client.Partition.{graft_of-dict}
use descarteslabs_python.Graft.Client.Scopes.{isolate_keys, isolate_graft, called}

-- The graft that calls `d` as a sub-graft, with the keys `n` and `n + 1`.
abbrev isolated : ℕ → Fields → Fields
isolated n d = field (str_of_ℕ n) (dict d) (
    field (str_of_ℕ (n + 1)) (seq (cons (str (str_of_ℕ n)) nil))
      (field "returns" (str (str_of_ℕ (n + 1))) end))

str_of_ℕ-ne : (n m : ℕ) → (n ≡ m → ⊥) → (str_of_ℕ n == str_of_ℕ m) ≡ false
str_of_ℕ-ne n m ne = elim (Bool-cases (str_of_ℕ n == str_of_ℕ m)) [
  | inr e ↦ e
  | inl e ↦ absurd (
      ne (
        pos-injective (
          sym (int_of_str-str_of_ℕ n)
          ∙ ap int_of_str ((eq_iff (str_of_ℕ n) (str_of_ℕ m)).0 e)
          ∙ int_of_str-str_of_ℕ m)))
]

shared :
    (n : ℕ) (d : Fields) (k : String)
    → has "returns" d ≡ true
    → Below n d
    → (has k (isolated n d) && has k d) ≡ ("returns" == k)
unfolding has
shared n d k graft old = elim (Bool-cases (has k d)) [
  | inl here ↦
      rw
        (
          here,
          old-ne n d k old here,
          old-ne (n + 1) d k (Below-mono n (n + 1) d (omega arith) old) here,
        )
        (ground arith)
  | inr gone ↦
      let other : ("returns" == k) ≡ false = elim (Bool-cases ("returns" == k)) [
        | inr e ↦ e
        | inl e ↦
            absurd
              (false≢true (sym gone ∙ ap (λ j. has j d) (sym ((eq_iff "returns" k).0 e)) ∙ graft))
      ] in
      rw (gone, other) (ground arith)
]

-- `isolate_keys` of a value graft `d` with the counter past every key of it: what it returns is the
-- value of a call, with no arguments, of a sub-graft that is `d` itself, and it shares no key with
-- `d` but "returns".
pub isolate_keys_lem :
    (d : Fields) (s : Guids)
    → has "returns" d ≡ true
    → has "parameters" d ≡ false
    → Below s.next d
    → (r : Fields) × (s' : Guids) × (function result : String) × (isolate_keys (dict d) false s
        ≡ (ok r, s'))
      × (get "returns" r ≡ some (str result))
      × (get result r ≡ some (seq (cons (str function) nil)))
      × (get function r ≡ some (dict d))
      × ((k : String) → (has k r && has k d) ≡ ("returns" == k))
unfolding isolate_keys isolate_graft called guid graft_is_function_graft get
isolate_keys_lem d s graft value old =
    let n = s.next in
    let k₁ : String = str_of_ℕ n in
    let k₂ : String = str_of_ℕ (n + 1) in
    let apart : (k₁ == k₂) ≡ false = str_of_ℕ-ne n (n + 1) (λ e. omega arith) in
    (
      isolated n d,
      record s { next = n + 1 + 1 },
      k₁,
      k₂,
      rw (graft_of-dict d s graft, value) refl,
      rw
          (
            ne_sym "returns" k₁ (returns-ne-str_of_ℕ n),
            ne_sym "returns" k₂ (returns-ne-str_of_ℕ (n + 1)),
          )
          refl,
      rw (apart, eq_refl k₂) refl,
      rw (eq_refl k₁) refl,
      λ k. shared n d k graft old,
    )
