-- ===== src/Scaling/Casts.antt =====
-- scenes/_scaling.py: `common_data_type`, against the order that the table of casts gives.
use mathlib.Core.List.{Perm, Permᴰ}
use mathlib.Core.Logic.{∥∥₁_elim}
use descarteslabs_python.Prelude.{
  String, ◌≡◌, refl, sym, ap, ◌∙◌, inl, inr, Bool, true, false, not, ◌&&◌, ◌||◌, Option, none, some,
  List, [], ◌∷◌, arith, all, contains, ◌==◌, eq_iff, if◌then◌else◌, Bool-cases, both,
}
use descarteslabs_python.Python.Result.{Result, ok, err}
use descarteslabs_python.Python.Dict.{lookup}
use descarteslabs_python.Scaling.Number.{Error, value_error}
use descarteslabs_python.Scaling.DataType.{
  Casts, valid_data_types, valid_data_type_casts, is_in, join_last, join_each, common_data_type,
}

-- the valid types, save for UInt32
abbrev pub joinable : List String
joinable = "Byte" ∷ "UInt16" ∷ "Int16" ∷ "Int32" ∷ "Float32" ∷ "Float64" ∷ []

abbrev pub is_joinable : String → Bool
is_joinable = contains joinable

abbrev has_cast : String → Option Casts → Bool
has_cast b none = false
has_cast b (some types) = is_in b types

-- `a` is `b`, or the table lets it be cast to `b`
unfoldable pub casts_to : String → String → Bool
unfolding lookup is_in
casts_to a b = a == b || has_cast b (lookup a valid_data_type_casts)

-- `d` is a type that each of the types can be cast to, and it can be cast to any other.
pub record IsLeastType (d : String) (types : List String) : Type 0 where
  pub member : is_joinable d ≡ true
  pub upper : all (λ t. casts_to t d) types ≡ true
  pub least :
      (e : String)
      → is_joinable e ≡ true
      → all (λ t. casts_to t e) types ≡ true
      → casts_to d e ≡ true

both_true : {x y : Bool} → x ≡ true → y ≡ true → (x && y) ≡ true
both_true e f = ground arith

swap_tests : (x y z : Bool) → (x && (y && z)) ≡ (y && (x && z))
swap_tests x y z = ground arith

valid-joinable : all (contains valid_data_types) joinable ≡ true
valid-joinable = refl

all-contains :
    (p : String → Bool) (l : List String) (x : String)
    → all p l ≡ true
    → contains l x ≡ true
    → p x ≡ true
all-contains p [] x h e = ground (arith, e)
all-contains p (y ∷ l) x h e = elim (Bool-cases (y == x)) [
  | inl q ↦ ap p (sym ((eq_iff y x).0 q)) ∙ (both h).0
  | inr q ↦ all-contains p l x (both h).1 (ground (arith, q, e))
]

module _ (p : String → String → Bool) where
  all_pairs :
      all (λ a. all (p a) joinable) joinable ≡ true
      → (a b : String) → is_joinable a ≡ true
      → is_joinable b ≡ true
      → p a b ≡ true
  all_pairs h a b ha hb =
      all-contains (p a) joinable b (all-contains (λ a. all (p a) joinable) joinable a h ha) hb

abbrev implies : Bool → Bool → Bool
implies x y = not x || y

modus_ponens : {x y : Bool} → implies x y ≡ true → x ≡ true → y ≡ true
modus_ponens h e = ground arith

abbrev shortens : String → String → String → Bool
shortens a b c = implies (casts_to a b) (implies (casts_to b c) (casts_to a c))

abbrev transitive : String → String → Bool
transitive a b = all (shortens a b) joinable

-- if both can be cast to `e`, then `d` can
abbrev bounds : String → String → String → String → Bool
bounds a b d e = implies (casts_to a e) (implies (casts_to b e) (casts_to d e))

abbrev is_join : String → String → Result Error (Option String) → Bool
is_join a b (ok (some d)) =
    is_joinable d && (casts_to a d && (casts_to b d && all (bounds a b d) joinable))
is_join a b _ = false

-- by computation on every pair and triple of types
transitive_table : all (λ a. all (transitive a) joinable) joinable ≡ true
unfolding casts_to
transitive_table = refl

join_table : all (λ a. all (λ b. is_join a b (join_last (ok (some a)) b)) joinable) joinable ≡ true
unfolding casts_to join_last
join_table = refl

antisymmetric_table :
    all (λ a. all (λ b. implies (casts_to a b) (implies (casts_to b a) (a == b))) joinable) joinable
    ≡ true
unfolding casts_to
antisymmetric_table = refl

reflexive_table : all (λ a. casts_to a a) joinable ≡ true
unfolding casts_to
reflexive_table = refl

casts_to_trans :
    (a b c : String)
    → is_joinable a ≡ true
    → is_joinable b ≡ true
    → is_joinable c ≡ true
    → casts_to a b ≡ true
    → casts_to b c ≡ true
    → casts_to a c ≡ true
casts_to_trans a b c ha hb hc e f =
    modus_ponens
      (modus_ponens
        (all-contains (shortens a b) joinable c (all_pairs transitive transitive_table a b ha hb)
          hc)
        e)
      f

-- The two types joined, with the facts that `join_table` gives.
record Joined (a b : String) (r : Result Error (Option String)) : Type 0 where
  pub type : String
  pub result : r ≡ ok (some type)
  pub member : is_joinable type ≡ true
  pub left : casts_to a type ≡ true
  pub right : casts_to b type ≡ true
  pub least :
      (e : String)
      → is_joinable e ≡ true
      → casts_to a e ≡ true
      → casts_to b e ≡ true
      → casts_to type e ≡ true

Joined-is_join :
    (a b : String) (r : Result Error (Option String)) → is_join a b r ≡ true → Joined a b r
Joined-is_join a b (err e) h = ground (arith, h)
Joined-is_join a b (ok none) h = ground (arith, h)
Joined-is_join a b (ok (some d)) h =
    let (m, h1) = both {x = is_joinable d} h in
    let (l, h2) = both {x = casts_to a d} h1 in
    let (r, h3) = both {x = casts_to b d} h2 in
    record {
      type = d;
      result = refl;
      member = m;
      left = l;
      right = r;
      least = λ e he ea eb.
          modus_ponens (modus_ponens (all-contains (bounds a b d) joinable e h3 he) ea) eb;
    }

join_last-Joined :
    (a b : String)
    → is_joinable a ≡ true
    → is_joinable b ≡ true
    → Joined a b (join_last (ok (some a)) b)
join_last-Joined a b ha hb =
    Joined-is_join a b _
      (all_pairs (λ a b. is_join a b (join_last (ok (some a)) b)) join_table a b ha hb)

all_trans :
    (d e : String) (l : List String)
    → is_joinable d ≡ true
    → is_joinable e ≡ true
    → casts_to d e ≡ true
    → all is_joinable l ≡ true
    → all (λ t. casts_to t d) l ≡ true
    → all (λ t. casts_to t e) l ≡ true
all_trans d e [] hd he c hl h = refl
all_trans d e (t ∷ l) hd he c hl h =
    let head = casts_to_trans t d e (both hl).0 hd he (both h).0 c in
    let rest = all_trans d e l hd he c (both hl).1 (both h).1 in rw (head, rest) refl

-- what `join_each` gives, started from a type that stands for those before
join_each-IsLeastType :
    (d : String) (l : List String)
    → is_joinable d ≡ true
    → all is_joinable l ≡ true
    → (c : String) × ((join_each (ok (some d)) l ≡ ok (some c)) × IsLeastType c (d ∷ l))
unfolding join_each
join_each-IsLeastType d [] hd hl =
    let reflexive = all-contains (λ a. casts_to a a) joinable d reflexive_table hd in
    (d, (refl, record { member = hd; upper = rw reflexive refl; least = λ e he h. (both h).0 }))
join_each-IsLeastType d (b ∷ l) hd hl =
    let (hb, hl') = both {x = is_joinable b} hl in
    let j = join_last-Joined d b hd hb in
    let (c, (e, least)) = join_each-IsLeastType j.type l j.member hl' in
    let (first, rest) = both {x = casts_to j.type c} least.upper in
    let left = casts_to_trans d j.type c hd j.member least.member j.left first in
    let right = casts_to_trans b j.type c hb j.member least.member j.right first in
    (
      c,
      (
        ap (λ r. join_each r l) j.result ∙ e,
        record {
          member = least.member;
          upper = both_true left (both_true right rest);
          least = λ e he h.
              least.least e he
                (both_true (j.least e he (both h).0 (both (both h).1).0) (both (both h).1).1);
        },
      ),
    )

Permᴰ-all : (p : String → Bool) {l k : List String} → Permᴰ l k → all p l ≡ all p k
Permᴰ-all p Permᴰ.nil = refl
Permᴰ-all p (Permᴰ.cons {a} {b} {l₁} {l₂} e q) =
    ap (λ x. p x && all p l₁) e ∙ ap (λ t. p b && t) (Permᴰ-all p q)
Permᴰ-all p (Permᴰ.swap {a} {b} {a'} {b'} {l} e f) =
    swap_tests (p a) (p b) (all p l)
    ∙ ap (λ x. p x && (p a && all p l)) f
    ∙ ap (λ x. p a' && (p x && all p l)) e
Permᴰ-all p (Permᴰ.trans q r) = Permᴰ-all p q ∙ Permᴰ-all p r

Perm-all : (p : String → Bool) {l k : List String} → Perm l k → all p l ≡ all p k
Perm-all p q = ∥∥₁_elim q (hlevel) (λ d. Permᴰ-all p d)

-- Of any data types but UInt32, at least one, `common_data_type` finds the least that all can be
-- cast to by the table, and never fails.
pub common_data_type-IsLeastType :
    (d : String) (types : List String)
    → all is_joinable (d ∷ types) ≡ true
    → (c : String) × ((common_data_type (d ∷ types) ≡ ok (some c)) × IsLeastType c (d ∷ types))
unfolding common_data_type
common_data_type-IsLeastType d types h =
    let (c, (e, least)) = join_each-IsLeastType d types (both h).0 (both h).1 in
    let valid = all-contains (contains valid_data_types) joinable d valid-joinable (both h).0 in
    (c, (ap (λ b. join_each (if b then ok (some d) else err value_error) types) valid ∙ e, least))

-- The order of the data types, none of them UInt32, does not matter.
common_data_type-Perm :
    (d d' : String) (types types' : List String)
    → all is_joinable (d ∷ types) ≡ true
    → Perm (d ∷ types) (d' ∷ types')
    → common_data_type (d ∷ types) ≡ common_data_type (d' ∷ types')
common_data_type-Perm d d' types types' h q =
    let (c, (e, l)) = common_data_type-IsLeastType d types h in
    let h' = sym (Perm-all is_joinable q) ∙ h in
    let (c', (e', l')) = common_data_type-IsLeastType d' types' h' in
    let below = l.least c' l'.member (Perm-all (λ t. casts_to t c') q ∙ l'.upper) in
    let above = l'.least c l.member (sym (Perm-all (λ t. casts_to t c) q) ∙ l.upper) in
    let same =
      modus_ponens
        (modus_ponens
          (all_pairs (λ a b. implies (casts_to a b) (implies (casts_to b a) (a == b)))
            antisymmetric_table c c' l.member l'.member)
          below)
        above in
    e ∙ ap (λ c. ok (some c)) ((eq_iff c c').0 same) ∙ sym e'
