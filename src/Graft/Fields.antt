-- ===== src/Graft/Fields.antt =====
-- The `dict` operations on the fields of a mapping. A `dict` holds a key at most once, so the first
-- field of a name counts, and the laws need no condition.
use descarteslabs_python.Prelude.{
  String, ◌≡◌, refl, Bool, true, false, ◌||◌, Option, none, some, List, [], ◌∷◌, arith, ◌==◌,
  eq_iff, if◌then◌else◌,
}
use descarteslabs_python.Graft.Value.{Value, Fields, end, field}

-- d[k], where `none` is the `KeyError`
unfoldable pub get : String → Fields → Option Value
get k end = none
get k (field j v d) = if j == k then some v else get k d

-- k in d
unfoldable pub has : String → Fields → Bool
has k end = false
has k (field j v d) = j == k || has k d

-- d[k] = v
unfoldable pub put : String → Value → Fields → Fields
put k v end = field k v end
put k v (field j w d) = if j == k then field j v d else field j w (put k v d)

-- d.pop(k), del d[k]
unfoldable pub pop : String → Fields → Fields
pop k end = end
pop k (field j v d) = let rest = pop k d in if j == k then rest else field j v rest

abbrev pub or_else : Option Value → Option Value → Option Value
or_else none o = o
or_else (some v) o = some v

abbrev pub value_or : Option Value → Value → Value
value_or none w = w
value_or (some v) w = v

overwrite : Fields → Fields → Fields
overwrite end e = end
overwrite (field k v d) e = field k (value_or (get k e) v) (overwrite d e)

append_new : Fields → Fields → Fields → Fields
append_new base end e = e
append_new base (field k v d) e =
    let rest = append_new base d e in if has k base then rest else field k v rest

concat : Fields → Fields → Fields
concat end e = e
concat (field k v d) e = field k v (concat d e)

-- d.update(e): the values of `e` in place, then what is new in `e`, in its order
unfoldable pub update : Fields → Fields → Fields
unfolding overwrite append_new concat
update d e = concat (overwrite d e) (append_new d e end)

unfoldable pub keys : Fields → List String
keys end = []
keys (field k v d) = k ∷ keys d

-- len(d)
unfoldable pub is_singleton : Fields → Bool
is_singleton (field k v end) = true
is_singleton _ = false

pub get-put :
    (k j : String) (v : Value) (d : Fields)
    → get j (put k v d) ≡ (if k == j then some v else get j d)
unfolding get put
get-put k j v end = refl
get-put k j v (field i w d) = ground (arith, eq_iff k j, eq_iff i k, eq_iff i j, get-put k j v d)

pub get-pop : (k j : String) (d : Fields) → get j (pop k d) ≡ (if k == j then none else get j d)
unfolding get pop
get-pop k j end = ground arith
get-pop k j (field i w d) = ground (arith, eq_iff k j, eq_iff i k, eq_iff i j, get-pop k j d)

abbrev is_some : Option Value → Bool
is_some none = false
is_some (some v) = true

pub has-get : (k : String) (d : Fields) → has k d ≡ is_some (get k d)
unfolding has get
has-get k end = refl
has-get k (field j v d) = ground (arith, has-get k d)

get-concat : (j : String) (d e : Fields) → get j (concat d e) ≡ or_else (get j d) (get j e)
unfolding get concat
get-concat j end e = refl
get-concat j (field k v d) e = ground (arith, get-concat j d e)

abbrev overwritten : Option Value → Option Value → Option Value
overwritten none o = none
overwritten (some v) o = some (value_or o v)

get-overwrite :
    (j : String) (d e : Fields) → get j (overwrite d e) ≡ overwritten (get j d) (get j e)
unfolding get overwrite
get-overwrite j end e = refl
get-overwrite j (field k v d) e = ground (arith, get-overwrite j d e, eq_iff k j)

get-append_new :
    (j : String) (base d : Fields)
    → get j (append_new base d end) ≡ (if has j base then none else get j d)
unfolding get append_new
get-append_new j base end = ground arith
get-append_new j base (field k v d) = ground (arith, get-append_new j base d, eq_iff k j)

pub get-update : (j : String) (d e : Fields) → get j (update d e) ≡ or_else (get j e) (get j d)
unfolding update
get-update j d e = ground (
  arith,
  get-concat j (overwrite d e) (append_new d e end),
  get-overwrite j d e,
  get-append_new j d e,
  has-get j d,
)

pub has-put : (k j : String) (v : Value) (d : Fields) → has j (put k v d) ≡ (k == j || has j d)
has-put k j v d = ground (arith, has-get j (put k v d), has-get j d, get-put k j v d)

pub has-update : (j : String) (d e : Fields) → has j (update d e) ≡ (has j e || has j d)
has-update j d e =
    ground (arith, has-get j (update d e), has-get j e, has-get j d, get-update j d e)

pub ruleset dict_laws = (get-put, get-pop, get-update)
