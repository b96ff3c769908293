-- ===== src/Graft/Syntax/Arguments.antt =====
-- `check_args` of graft/syntax/syntax.py, and when it lets a call through.
use text.Mathlib.TextPositions.{eq_refl}
use descarteslabs_python.Prelude.{
  ℕ, ◌≤◌, String, ◌≡◌, refl, sym, ap, ◌∙◌, ◌↔◌, Bool, true, false, not, List, [], ◌∷◌, length,
  contains, drop, arith, ◌==◌, eq_iff, ltb, if◌then◌else◌, Bool-cases, inl, inr,
}
use descarteslabs_python.Python.Result.{Result, ok, err}
use descarteslabs_python.Graft.Value.{Message, too_many, missing, unexpected}
use descarteslabs_python.Graft.Syntax.{as_set}

-- a - b, for sets of names
unfoldable pub minus : List String → List String → List String
minus [] ys = []
minus (x ∷ xs) ys = let rest = minus xs ys in if contains ys x then rest else x ∷ rest

abbrev is_empty : List String → Bool
is_empty [] = true
is_empty (x ∷ xs) = false

unfoldable pub check_args {ℓ} :
    {E : Type ℓ} → ℕ → List String → List String → (Message → E) → Result E (Unit {0})
unfolding minus
check_args n named params exception_type =
    let missing_positional = drop n params in
    let unexpected_names = minus named params in
    let still_missing = minus (as_set missing_positional) named in
    if ltb (length params) n
    then err (exception_type (too_many (length params) n))
    else if is_empty named
    then (if is_empty missing_positional
        then ok tt
        else err (exception_type (missing missing_positional)))
    else if not (is_empty unexpected_names)
    then err (exception_type (unexpected unexpected_names))
    else if not (is_empty still_missing)
    then err (exception_type (missing still_missing))
    else ok tt

-- Every name of the first list stands in the second.
abbrev pub Within : List String → List String → Type 0
Within xs ys = (x : String) → contains xs x ≡ true → contains ys x ≡ true

-- No positional argument too many, no named one that is no parameter, and a named one for every
-- parameter that has no positional one.
pub record Fits (n : ℕ) (named params : List String) : Type 0 where
  pub room : n ≤ length params
  pub known : Within named params
  pub given : Within (drop n params) named

contains_of_eq : (x y : String) (ys : List String) → (y == x) ≡ true → contains ys y ≡ contains ys x
contains_of_eq x y ys h = ap (contains ys) ((eq_iff y x).0 h)

Within-head : (y : String) (xs ys : List String) → Within (y ∷ xs) ys → contains ys y ≡ true
Within-head y xs ys h = h y (rw eq_refl)

Within-tail : (y : String) (xs ys : List String) → Within (y ∷ xs) ys → Within xs ys
Within-tail y xs ys h x m = h x (ground arith)

Within-cons :
    (y : String) (xs ys : List String) → contains ys y ≡ true → Within xs ys → Within (y ∷ xs) ys
Within-cons y xs ys here there x m = elim (Bool-cases (y == x)) [
  | inl e ↦ sym (contains_of_eq x y ys e) ∙ here
  | inr e ↦ there x (ground arith)
]

minus-Within : (xs ys : List String) → minus xs ys ≡ [] → Within xs ys
unfolding minus
minus-Within [] ys h = λ x m. cc
minus-Within (y ∷ xs) ys h = elim (Bool-cases (contains ys y)) [
  | inl here ↦ Within-cons y xs ys here (minus-Within xs ys (ground arith))
  | inr gone ↦ absurd (ground arith)
]

Within-minus : (xs ys : List String) → Within xs ys → minus xs ys ≡ []
unfolding minus
Within-minus [] ys h = refl
Within-minus (y ∷ xs) ys h = rw (Within-head y xs ys h) (Within-minus xs ys (Within-tail y xs ys h))

as_set-Within : (xs ys : List String) → Within (as_set xs) ys → Within xs ys
unfolding as_set
as_set-Within [] ys h = h
as_set-Within (x ∷ xs) ys h = elim (Bool-cases (contains xs x)) [
  | inl again ↦
      let rest : Within xs ys = as_set-Within xs ys (rw again at h) in
      Within-cons x xs ys (rest x again) rest
  | inr first ↦
      let h' : Within (x ∷ as_set xs) ys = rw first at h in
      Within-cons x xs ys (Within-head x (as_set xs) ys h')
        (as_set-Within xs ys (Within-tail x (as_set xs) ys h'))
]

contains-as_set : (x : String) (xs : List String) → contains (as_set xs) x ≡ contains xs x
unfolding as_set
contains-as_set x [] = refl
contains-as_set x (y ∷ xs) = ground (arith, contains-as_set x xs, contains_of_eq x y xs)

Within-of_as_set : (xs ys : List String) → Within xs ys → Within (as_set xs) ys
Within-of_as_set xs ys h x m = h x (sym (contains-as_set x xs) ∙ m)

nil_of_is_empty : (xs : List String) → is_empty xs ≡ true → xs ≡ []
nil_of_is_empty [] h = refl
nil_of_is_empty (x ∷ xs) h = cc

Within-of_nil : (xs ys : List String) → xs ≡ [] → Within xs ys
Within-of_nil xs ys e = rw e (λ x m. cc)

nil_of_Within-nil : (xs : List String) → Within xs [] → xs ≡ []
nil_of_Within-nil [] h = refl
nil_of_Within-nil (x ∷ xs) h = cc (Within-head x xs [] h)

module _ {ℓ} {E : Type ℓ} (n : ℕ) (params : List String) (exception_type : Message → E) where
  Fits-of_ok :
      (named : List String) → check_args n named params exception_type ≡ ok tt → Fits n named params
  unfolding check_args
  Fits-of_ok [] h = record {
    room = ground arith;
    known = λ x m. cc;
    given = Within-of_nil (drop n params) [] (ground arith);
  }
  Fits-of_ok (x ∷ xs) h = record {
    room = ground arith;
    known = minus-Within (x ∷ xs) params (ground arith);
    given =
        as_set-Within (drop n params) (x ∷ xs)
          (minus-Within (as_set (drop n params)) (x ∷ xs) (ground arith));
  }

  ok_of_Fits :
      (named : List String) → Fits n named params → check_args n named params exception_type ≡ ok tt
  unfolding check_args
  ok_of_Fits [] f = ground (arith, f.room, nil_of_Within-nil (drop n params) f.given)
  ok_of_Fits (x ∷ xs) f = ground (
    arith,
    f.room,
    Within-minus (x ∷ xs) params f.known,
    Within-minus (as_set (drop n params)) (x ∷ xs)
        (Within-of_as_set (drop n params) (x ∷ xs) f.given),
  )

  -- `check_args` lets a call through exactly when its arguments fit the parameters. The exception's
  -- type plays no part.
  pub check_args_iff :
      (named : List String)
      → (check_args n named params exception_type ≡ ok tt) ↔ Fits n named params
  check_args_iff named = (Fits-of_ok named, ok_of_Fits named)
