-- ===== src/Graft/Client/Merged.antt =====
-- What `merge_value_grafts` of graft/client/client.py binds its names to.
use text.Mathlib.TextPositions.{eq_refl}
use mathlib.Core.Path.{subst}
use descarteslabs_python.Prelude.{
  String, ◌≡◌, refl, sym, ap, ◌∙◌, Bool, true, false, not, ◌&&◌, ◌||◌, some, List, [], ◌∷◌, all,
  contains, arith, ◌==◌, Bool-cases, inl, inr, both, not-true,
}
use descarteslabs_python.Python.Result.{ok, err, ◌>>=◌, lift, Result-cases}
use descarteslabs_python.Graft.Value.{Value, str, seq, dict, nil, cons, Fields, end}
use descarteslabs_python.Graft.Fields.{get, put, get-put, value_or}
use descarteslabs_python.Graft.Syntax.{reserved_words, is_literal, is_quoted_json}
use descarteslabs_python.Graft.Client.{Guids, Client, graft_of}
use descarteslabs_python.Graft.Client.Keys.{All}
use descarteslabs_python.Graft.Client.SubKeys.{sub_key-ne}
use descarteslabs_python.Graft.Client.Scopes.{
  is_nonempty, returned_value, sub_key, merge_returned, merge_graft, merge_one, merge_onto,
  merge_value_grafts,
}

-- What a name is bound to: a constant itself, the constant that a graft returns, or, when it returns
-- something else, a call of the graft, which stands under another name.
pub data MergedAs (name : String) (value : Value) (d : Fields) : Type 0 where
  itself : is_literal value ≡ true → get name d ≡ some value → MergedAs name value d
  returned :
      (s s' : Guids) (sub : Fields) (r : Value)
      → graft_of value s ≡ (ok sub, s')
      → is_literal value ≡ false
      → returned_value sub ≡ ok r
      → (is_literal r || is_quoted_json r) ≡ true
      → get name d ≡ some r
      → MergedAs name value d
  called :
      (s s' : Guids) (sub : Fields) (r : Value)
      → graft_of value s ≡ (ok sub, s')
      → is_literal value ≡ false
      → returned_value sub ≡ ok r
      → (is_literal r || is_quoted_json r) ≡ false
      → get name d ≡ some (seq (cons (str (sub_key name)) (cons (dict end) nil)))
      → get (sub_key name) d ≡ some (dict sub)
      → MergedAs name value d

MergedAs-kept :
    (name : String) (value : Value) (d d' : Fields)
    → get name d' ≡ get name d
    → get (sub_key name) d' ≡ get (sub_key name) d
    → MergedAs name value d
    → MergedAs name value d'
MergedAs-kept name value d d' p q (itself l e) = itself l (p ∙ e)
MergedAs-kept name value d d' p q (returned s s' sub r g l h c e) =
    returned s s' sub r g l h c (p ∙ e)
MergedAs-kept name value d d' p q (called s s' sub r g l h c e f) =
    called s s' sub r g l h c (p ∙ e) (q ∙ f)

-- No name, and no name of a sub-graft, is `k`.
abbrev pub clear : String → List (String × Value) → Bool
clear k params = all (λ kv. not (kv.0 == k) && not (sub_key kv.0 == k)) params

-- The names, and those of their sub-grafts, differ.
abbrev pub all_apart : List (String × Value) → Bool
all_apart [] = true
all_apart ((n, v) ∷ rest) = (clear n rest && clear (sub_key n) rest) && all_apart rest

-- A key that is neither name stays.
abbrev Frame : String → Fields → Fields → Type 0
Frame name d d' =
    (k : String) → (name == k) ≡ false → (sub_key name == k) ≡ false → get k d' ≡ get k d

bind_ok :
    {A B : Type 0} (m : Client A) (f : A → Client B) (s s' : Guids) (b : B)
    → (m >>= f) s ≡ (ok b, s')
    → (a : A) × (s₁ : Guids) × (m s ≡ (ok a, s₁)) × (f a s₁ ≡ (ok b, s'))
bind_ok m f s s' b e = elim (Result-cases (m s).0) [
  | inl (a, p) ↦
      let q : m s ≡ (ok a, (m s).1) = ap (λ r. (r, (m s).1)) p in
      (a, (m s).1, q, sym (ap (λ r. ((λ _. r) >>= f) s) q) ∙ e)
  | inr (x, p) ↦
      let q : m s ≡ (err x, (m s).1) = ap (λ r. (r, (m s).1)) p in
      absurd (cc (ap (λ r. r.0) (sym (ap (λ r. ((λ _. r) >>= f) s) q) ∙ e)))
]

merge_returned-Frame :
    (d : Fields) (name : String) (sub : Fields) (r : Value)
    → Frame name d (merge_returned d name sub r)
unfolding merge_returned
merge_returned-Frame d name sub r k n m = elim (Bool-cases (is_literal r || is_quoted_json r)) [
  | inl e ↦ rw (merge_returned, e, get-put, n) refl
  | inr e ↦ rw (merge_returned, e, get-put, n, get-put, m) refl
]

merge_returned-MergedAs :
    (d : Fields) (name : String) (value : Value) (sub : Fields) (r : Value) (s s' : Guids)
    → graft_of value s ≡ (ok sub, s')
    → is_literal value ≡ false
    → returned_value sub ≡ ok r
    → MergedAs name value (merge_returned d name sub r)
unfolding merge_returned
merge_returned-MergedAs d name value sub r s s' g l h =
    elim (Bool-cases (is_literal r || is_quoted_json r)) [
      | inl e ↦ returned s s' sub r g l h e (rw (merge_returned, e, get-put, eq_refl name) refl)
      | inr e ↦
          called s s' sub r g l h e (rw (merge_returned, e, get-put, eq_refl name) refl)
            (rw (merge_returned, e, get-put, sub_key-ne name, get-put, eq_refl (sub_key name)) refl)
    ]

merge_graft_ok :
    (d : Fields) (name : String) (sub d' : Fields)
    → merge_graft d name sub ≡ ok d'
    → (r : Value) × (returned_value sub ≡ ok r) × (merge_returned d name sub r ≡ d')
unfolding merge_graft
merge_graft_ok d name sub d' e =
    elim (Result-cases (is_nonempty (value_or (get "parameters" sub) (seq nil)))) [
      | inr (x, p) ↦ absurd (ground (arith, e, p))
      | inl (true, p) ↦ absurd (ground (arith, e, p))
      | inl (false, p) ↦ elim (Result-cases (returned_value sub)) [
        | inr (x, q) ↦ absurd (ground (arith, e, p, q))
        | inl (r, q) ↦ (r, q, ground (arith, e, p, q))
      ]
    ]

-- One name, merged into what is there: it is bound, and other keys stay.
abbrev Step : String → Value → Fields → Fields → Type 0
Step name value d d' = MergedAs name value d' × Frame name d d'

merge_graft-Step :
    (d : Fields) (name : String) (value : Value) (sub d' : Fields) (s s' : Guids)
    → graft_of value s ≡ (ok sub, s')
    → is_literal value ≡ false
    → merge_graft d name sub ≡ ok d'
    → Step name value d d'
merge_graft-Step d name value sub d' s s' g l e =
    let (r, h, same) = merge_graft_ok d name sub d' e in
    subst (Step name value d) same
      (merge_returned-MergedAs d name value sub r s s' g l h, merge_returned-Frame d name sub r)

merge_one_graft :
    (d : Fields) (name : String) (value : Value) (s : Guids)
    → contains reserved_words name ≡ false
    → is_literal value ≡ false
    → merge_one d name value s ≡ (graft_of value >>= λ sub. lift (merge_graft d name sub)) s
unfolding merge_one
merge_one_graft d name value s r l = rw (merge_one, r, l) refl

merge_one-Step :
    (d : Fields) (name : String) (value : Value) (s s' : Guids) (d' : Fields)
    → merge_one d name value s ≡ (ok d', s')
    → Step name value d d'
unfolding merge_one
merge_one-Step d name value s s' d' e = elim (Bool-cases (contains reserved_words name)) [
  | inl r ↦ absurd (ground (arith, e, r))
  | inr r ↦ elim (Bool-cases (is_literal value)) [
    | inl l ↦
        let same : put name value d ≡ d' = ground (arith, e, r, l) in
        subst (Step name value d) same
          (itself l (rw (get-put, eq_refl name) refl), λ k n m. rw (get-put, n) refl)
    | inr l ↦
        let run : (graft_of value >>= λ sub. lift (merge_graft d name sub)) s ≡ (ok d', s') =
          sym (merge_one_graft d name value s r l) ∙ e in
        let (sub, s₁, g, f) =
          bind_ok (graft_of value) (λ sub. lift (merge_graft d name sub)) s s' d' run in
        merge_graft-Step d name value sub d' s s₁ g l (ap (λ x. x.0) f)
  ]
]

merge_onto-clear :
    (params : List (String × Value)) (k : String) (d d' : Fields) (s s' : Guids)
    → clear k params ≡ true
    → merge_onto d params s ≡ (ok d', s')
    → get k d' ≡ get k d
unfolding merge_onto
merge_onto-clear [] k d d' s s' c e = let same : d ≡ d' = ground (arith, e) in ap (get k) (sym same)
merge_onto-clear ((n, v) ∷ rest) k d d' s s' c e =
    let (d₁, s₁, p, q) = bind_ok (merge_one d n v) (λ more. merge_onto more rest) s s' d' e in
    let (here, there) = both {x = not (n == k) && not (sub_key n == k)} c in
    let (a, b) = both {x = not (n == k)} here in
    merge_onto-clear rest k d₁ d' s₁ s' there q
    ∙ (merge_one-Step d n v s s₁ d₁ p).1 k (not-true a) (not-true b)

merge_onto-MergedAs :
    (params : List (String × Value)) (d d' : Fields) (s s' : Guids)
    → all_apart params ≡ true
    → merge_onto d params s ≡ (ok d', s')
    → All (λ kv. MergedAs kv.0 kv.1 d') params
unfolding merge_onto
merge_onto-MergedAs [] d d' s s' c e = tt
merge_onto-MergedAs ((n, v) ∷ rest) d d' s s' c e =
    let (d₁, s₁, p, q) = bind_ok (merge_one d n v) (λ more. merge_onto more rest) s s' d' e in
    let (here, there) = both {x = clear n rest && clear (sub_key n) rest} c in
    let (a, b) = both {x = clear n rest} here in
    (
      MergedAs-kept n v d₁ d' (merge_onto-clear rest n d₁ d' s₁ s' a q)
          (merge_onto-clear rest (sub_key n) d₁ d' s₁ s' b q) (merge_one-Step d n v s s₁ d₁ p).0,
      merge_onto-MergedAs rest d₁ d' s₁ s' there q,
    )

-- `merge_value_grafts` of parameters whose names differ, also from those under which sub-grafts are
-- kept, where it does not raise: each name is bound to its value if that is a constant; if not, to
-- what the value's graft returns if that is a constant or quoted JSON; and if it is neither, to a call
-- of the value's graft, which is kept under the name with "_" before it.
pub merge_value_grafts-MergedAs :
    (params : List (String × Value)) (d : Fields) (s s' : Guids)
    → all_apart params ≡ true
    → merge_value_grafts params s ≡ (ok d, s')
    → All (λ kv. MergedAs kv.0 kv.1 d) params
unfolding merge_value_grafts
merge_value_grafts-MergedAs params d s s' apart e = merge_onto-MergedAs params end d s s' apart e
