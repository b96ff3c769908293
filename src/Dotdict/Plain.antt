-- ===== src/Dotdict/Plain.antt =====
-- What boxing a value, and changing a container, do to the values as they are read.
use descarteslabs_python.Prelude.{
  some-injective, ℕ, zero, suc, String, ◌≡◌, refl, sym, ap, ap₂, ◌∙◌, true, false, Option, none,
  some, arith, eq_iff,
}
use descarteslabs_python.Python.Number.{ℤ}
use descarteslabs_python.Collection.{place}
use descarteslabs_python.Dotdict.{
  Value, other, dict, list, Fields, end, field, Items, nil, cons, box, get_field, put_field,
  remove_field, split_last, last_of, size, found_at, with_place, item_at, find_item, put_at,
  remove_at,
}
use descarteslabs_python.Dotdict.Methods.{box_fields, box_items}
use descarteslabs_python.Dotdict.Builtin.{plain, plain_fields, plain_items}

pub plain-box : (v : Value) → plain (box v) ≡ plain v
unfolding plain box
plain-box (other s) = refl
plain-box (dict true fields) = refl
plain-box (dict false fields) = refl
plain-box (list true xs) = refl
plain-box (list false xs) = refl

abbrev pub plain_option : Option Value → Option Value
plain_option none = none
plain_option (some v) = some (plain v)

pub get_field-plain_fields :
    (k : String) (fields : Fields)
    → get_field k (plain_fields fields) ≡ plain_option (get_field k fields)
unfolding get_field plain_fields
get_field-plain_fields k end = refl
get_field-plain_fields k (field j v fields) = ground (arith, get_field-plain_fields k fields)

pub plain_fields-put_field :
    (k : String) (v : Value) (fields : Fields)
    → plain_fields (put_field k v fields) ≡ put_field k (plain v) (plain_fields fields)
unfolding put_field plain_fields
plain_fields-put_field k v end = refl
plain_fields-put_field k v (field j w fields) = ground (arith, plain_fields-put_field k v fields)

pub plain_fields-remove_field :
    (k : String) (fields : Fields)
    → plain_fields (remove_field k fields) ≡ remove_field k (plain_fields fields)
unfolding remove_field plain_fields
plain_fields-remove_field k end = refl
plain_fields-remove_field k (field j w fields) = ground (arith, plain_fields-remove_field k fields)

-- Putting back the value that is there, boxed or not, changes nothing that can be read.
put_field-get_field :
    (k : String) (v : Value) (fields : Fields)
    → get_field k fields ≡ some v
    → put_field k v fields ≡ fields
unfolding put_field get_field
put_field-get_field k v end e = ground arith
put_field-get_field k v (field j w fields) e =
    ground (arith, eq_iff j k, put_field-get_field k v fields)

pub plain_fields-put_box :
    (k : String) (v : Value) (fields : Fields)
    → get_field k fields ≡ some v
    → plain_fields (put_field k (box v) fields) ≡ plain_fields fields
plain_fields-put_box k v fields e =
    plain_fields-put_field k (box v) fields
    ∙ ap (λ w. put_field k w (plain_fields fields)) (plain-box v)
    ∙ put_field-get_field k (plain v) (plain_fields fields)
        (get_field-plain_fields k fields ∙ ap plain_option e)

pub plain_fields-box_fields :
    (fields : Fields) → plain_fields (box_fields fields) ≡ plain_fields fields
unfolding box_fields plain_fields
plain_fields-box_fields end = refl
plain_fields-box_fields (field k v fields) =
    ap₂ (λ w rest. field k w rest) (plain-box v) (plain_fields-box_fields fields)

pub plain_items-box_items : (xs : Items) → plain_items (box_items xs) ≡ plain_items xs
unfolding box_items plain_items
plain_items-box_items nil = refl
plain_items-box_items (cons v xs) =
    ap₂ (λ w rest. cons w rest) (plain-box v) (plain_items-box_items xs)

abbrev pub plain_last : Option ((String × Value) × Fields) → Option ((String × Value) × Fields)
plain_last none = none
plain_last (some ((k, v), before)) = some ((k, plain v), plain_fields before)

last_of-plain_last :
    (k : String) (v : Value) (r : Option ((String × Value) × Fields))
    → some (last_of k (plain v) (plain_last r)) ≡ plain_last (some (last_of k v r))
unfolding last_of plain_fields
last_of-plain_last k v none = refl
last_of-plain_last k v (some ((j, w), before)) = refl

pub split_last-plain_fields :
    (fields : Fields) → split_last (plain_fields fields) ≡ plain_last (split_last fields)
unfolding split_last plain_fields
split_last-plain_fields end = refl
split_last-plain_fields (field k v fields) =
    ap (λ r. some (last_of k (plain v) r)) (split_last-plain_fields fields)
    ∙ last_of-plain_last k v (split_last fields)

size-plain_items : (xs : Items) → size (plain_items xs) ≡ size xs
unfolding size plain_items
size-plain_items nil = refl
size-plain_items (cons v xs) = ap suc (size-plain_items xs)

item_at-plain_items :
    (xs : Items) (p : ℕ) → item_at (plain_items xs) p ≡ plain_option (item_at xs p)
unfolding item_at plain_items
item_at-plain_items nil p = refl
item_at-plain_items (cons v xs) zero = refl
item_at-plain_items (cons v xs) (suc p) = item_at-plain_items xs p

pub plain_items-put_at :
    (p : ℕ) (v : Value) (xs : Items)
    → plain_items (put_at p v xs) ≡ put_at p (plain v) (plain_items xs)
unfolding put_at plain_items
plain_items-put_at p v nil = refl
plain_items-put_at zero v (cons w xs) = refl
plain_items-put_at (suc p) v (cons w xs) = ap (λ ys. cons (plain w) ys) (plain_items-put_at p v xs)

pub plain_items-remove_at :
    (p : ℕ) (xs : Items) → plain_items (remove_at p xs) ≡ remove_at p (plain_items xs)
unfolding remove_at plain_items
plain_items-remove_at p nil = refl
plain_items-remove_at zero (cons w xs) = refl
plain_items-remove_at (suc p) (cons w xs) =
    ap (λ ys. cons (plain w) ys) (plain_items-remove_at p xs)

put_at-item_at : (p : ℕ) (v : Value) (xs : Items) → item_at xs p ≡ some v → put_at p v xs ≡ xs
unfolding put_at item_at
put_at-item_at p v nil e = refl
put_at-item_at zero v (cons w xs) e = ap (λ x. cons x xs) (sym (some-injective e))
put_at-item_at (suc p) v (cons w xs) e = ap (λ ys. cons w ys) (put_at-item_at p v xs e)

abbrev pub plain_place : Option (ℕ × Value) → Option (ℕ × Value)
plain_place none = none
plain_place (some (p, v)) = some (p, plain v)

found_at-plain_items :
    (xs : Items) (r : Option ℕ) → found_at (plain_items xs) r ≡ plain_place (found_at xs r)
unfolding found_at with_place
found_at-plain_items xs none = refl
found_at-plain_items xs (some p) =
    ap (with_place p) (item_at-plain_items xs p) ∙ placed p (item_at xs p)
  where
    placed :
        (q : ℕ) (r : Option Value) → with_place q (plain_option r) ≡ plain_place (with_place q r)
    placed q none = refl
    placed q (some v) = refl

pub find_item-plain_items :
    (i : ℤ) (xs : Items) → find_item i (plain_items xs) ≡ plain_place (find_item i xs)
unfolding find_item
find_item-plain_items i xs =
    ap (λ n. found_at (plain_items xs) (place n i)) (size-plain_items xs)
    ∙ found_at-plain_items xs (place (size xs) i)

-- What `find_item` has found is there.
pub item_at-found_at :
    (xs : Items) (r : Option ℕ) (p : ℕ) (v : Value)
    → found_at xs r ≡ some (p, v)
    → item_at xs p ≡ some v
unfolding found_at with_place
item_at-found_at xs none p v e = ground arith
item_at-found_at xs (some q) p v e = placed (item_at xs q) refl e
  where
    placed :
        (r : Option Value) → item_at xs q ≡ r → with_place q r ≡ some (p, v) → item_at xs p ≡ some v
    placed none f g = ground arith
    placed (some w) f g = cc

pub plain_items-put_box :
    (i : ℤ) (p : ℕ) (v : Value) (xs : Items)
    → find_item i xs ≡ some (p, v)
    → plain_items (put_at p (box v) xs) ≡ plain_items xs
unfolding find_item
plain_items-put_box i p v xs e =
    plain_items-put_at p (box v) xs
    ∙ ap (λ w. put_at p w (plain_items xs)) (plain-box v)
    ∙ put_at-item_at p (plain v) (plain_items xs)
        (item_at-plain_items xs p ∙ ap plain_option (item_at-found_at xs (place (size xs) i) p v e))
