-- ===== src/Dotdict/Kept.antt =====
-- The methods of dotdict.py never put a boxed container into a plain one.
use descarteslabs_python.Prelude.{
  ℕ, zero, suc, String, ◌≡◌, refl, Bool, true, Option, none, some, arith,
}
use descarteslabs_python.Python.Number.{ℤ}
use descarteslabs_python.Collection.{place}
use descarteslabs_python.Dotdict.{
  Error, key_error, attribute_error, Value, Fields, end, field, Items, nil, cons, box, get_field,
  split_last, last_of, size, item_at, find_item, put_at, remove_at,
}
use descarteslabs_python.Dotdict.Methods.{
  default_of, DictMethod, get_item, get_attribute, delete_attribute, set_attribute, get, pop,
  set_default, pop_item, items, ListMethod, get_index, pop_index, iterate, Method, of_dict,
  boxed_field, boxed_default, stored_default, deleted_field, popped_field, popped_last, box_fields,
  call_dict, boxed_item, popped_at, box_items, call_list,
}
use descarteslabs_python.Dotdict.Plain.{item_at-found_at}
use descarteslabs_python.Dotdict.Unboxed.{
  is_kept, kept_each, kept_all, split_and, and_of, is_kept-box, kept-get_field, kept_each-put_field,
  kept_each-remove_field,
}

pub kept_all-put_at :
    (p : ℕ) (v : Value) (xs : Items)
    → kept_all xs ≡ true
    → is_kept v ≡ true
    → kept_all (put_at p v xs) ≡ true
unfolding is_kept put_at
kept_all-put_at p v nil e q = refl
kept_all-put_at zero v (cons w xs) e q = ground arith
kept_all-put_at (suc p) v (cons w xs) e q = ground (arith, kept_all-put_at p v xs)

kept_all-remove_at : (p : ℕ) (xs : Items) → kept_all xs ≡ true → kept_all (remove_at p xs) ≡ true
unfolding is_kept remove_at
kept_all-remove_at p nil e = refl
kept_all-remove_at zero (cons w xs) e = ground arith
kept_all-remove_at (suc p) (cons w xs) e = ground (arith, kept_all-remove_at p xs)

kept-item_at :
    (p : ℕ) (v : Value) (xs : Items) → kept_all xs ≡ true → item_at xs p ≡ some v → is_kept v ≡ true
unfolding is_kept item_at
kept-item_at p v nil e q = ground arith
kept-item_at zero v (cons w xs) e q = ground arith
kept-item_at (suc p) v (cons w xs) e q = ground (arith, kept-item_at p v xs)

pub kept-find_item :
    (i : ℤ) (p : ℕ) (v : Value) (xs : Items)
    → kept_all xs ≡ true
    → find_item i xs ≡ some (p, v)
    → is_kept v ≡ true
unfolding find_item
kept-find_item i p v xs e q = kept-item_at p v xs e (item_at-found_at xs (place (size xs) i) p v q)

kept_each-box_fields :
    (fields : Fields) → kept_each fields ≡ true → kept_each (box_fields fields) ≡ true
unfolding is_kept box_fields
kept_each-box_fields end e = refl
kept_each-box_fields (field k v fields) e =
    let r = split_and (is_kept v) (kept_each fields) e in
    and_of (is_kept (box v)) (kept_each (box_fields fields)) (is_kept-box v r.0)
      (kept_each-box_fields fields r.1)

kept_all-box_items : (xs : Items) → kept_all xs ≡ true → kept_all (box_items xs) ≡ true
unfolding is_kept box_items
kept_all-box_items nil e = refl
kept_all-box_items (cons v xs) e =
    let r = split_and (is_kept v) (kept_all xs) e in
    and_of (is_kept (box v)) (kept_all (box_items xs)) (is_kept-box v r.0)
      (kept_all-box_items xs r.1)

abbrev kept_before : Option ((String × Value) × Fields) → Bool
kept_before none = true
kept_before (some (last, before)) = kept_each before

kept_before-split_last :
    (fields : Fields) → kept_each fields ≡ true → kept_before (split_last fields) ≡ true
unfolding is_kept split_last last_of
kept_before-split_last end e = refl
kept_before-split_last (field k v fields) e =
    let r = split_and (is_kept v) (kept_each fields) e in
    go (split_last fields) r.0 (kept_before-split_last fields r.1)
  where
    go :
        (r : Option ((String × Value) × Fields))
        → is_kept v ≡ true
        → kept_before r ≡ true
        → kept_before (some (last_of k v r)) ≡ true
    go none f g = refl
    go (some (last, before)) f g = and_of (is_kept v) (kept_each before) f g

-- What a method is given to store.
abbrev pub is_kept_method : Method → Bool
is_kept_method (of_dict (set_attribute k v)) = is_kept v
is_kept_method (of_dict (set_default k v)) = is_kept v
is_kept_method m = true

kept-boxed_field :
    (e : Error) (k : String) (fields : Fields) (r : Option Value)
    → get_field k fields ≡ r
    → kept_each fields ≡ true
    → kept_each (boxed_field e k fields r).1 ≡ true
unfolding boxed_field
kept-boxed_field e k fields none q i = i
kept-boxed_field e k fields (some v) q i =
    kept_each-put_field k (box v) fields i (is_kept-box v (kept-get_field k v fields i q))

kept-boxed_default :
    (k : String) (d : Value) (fields : Fields) (r : Option Value)
    → get_field k fields ≡ r
    → kept_each fields ≡ true
    → kept_each (boxed_default k d fields r).1 ≡ true
unfolding boxed_default
kept-boxed_default k d fields none q i = i
kept-boxed_default k d fields (some v) q i = kept-boxed_field key_error k fields (some v) q i

kept-stored_default :
    (k : String) (d : Value) (fields : Fields) (r : Option Value)
    → get_field k fields ≡ r
    → kept_each fields ≡ true
    → is_kept d ≡ true
    → kept_each (stored_default k d fields r).1 ≡ true
unfolding stored_default
kept-stored_default k d fields none q i j = kept_each-put_field k (box d) fields i (is_kept-box d j)
kept-stored_default k d fields (some v) q i j = kept-boxed_field key_error k fields (some v) q i

kept-deleted_field :
    (k : String) (fields : Fields) (r : Option Value)
    → kept_each fields ≡ true
    → kept_each (deleted_field k fields r).1 ≡ true
unfolding deleted_field
kept-deleted_field k fields none i = i
kept-deleted_field k fields (some v) i = kept_each-remove_field k fields i

kept-popped_field :
    (k : String) (d : Value) (fields : Fields) (r : Option Value)
    → kept_each fields ≡ true
    → kept_each (popped_field k d fields r).1 ≡ true
unfolding popped_field
kept-popped_field k d fields none i = i
kept-popped_field k d fields (some v) i = kept_each-remove_field k fields i

kept-popped_last :
    (r : Option ((String × Value) × Fields))
    → kept_before r ≡ true
    → kept_each (popped_last r).1 ≡ true
unfolding popped_last is_kept
kept-popped_last none i = refl
kept-popped_last (some ((k, v), before)) i = i

pub kept-call_dict :
    (m : DictMethod) (fields : Fields)
    → is_kept_method (of_dict m) ≡ true
    → kept_each fields ≡ true
    → kept_each (call_dict m fields).1 ≡ true
unfolding call_dict
kept-call_dict (get_item k) fields a i = kept-boxed_field key_error k fields _ refl i
kept-call_dict (get_attribute k) fields a i = kept-boxed_field attribute_error k fields _ refl i
kept-call_dict (delete_attribute k) fields a i = kept-deleted_field k fields (get_field k fields) i
kept-call_dict (set_attribute k v) fields a i = kept_each-put_field k v fields i a
kept-call_dict (get k d) fields a i = kept-boxed_default k d fields _ refl i
kept-call_dict (pop k d) fields a i =
    kept-popped_field k (default_of d) fields (get_field k fields) i
kept-call_dict (set_default k d) fields a i = kept-stored_default k d fields _ refl i a
kept-call_dict pop_item fields a i =
    kept-popped_last (split_last fields) (kept_before-split_last fields i)
kept-call_dict items fields a i = kept_each-box_fields fields i

kept-boxed_item :
    (i : ℤ) (xs : Items) (r : Option (ℕ × Value))
    → find_item i xs ≡ r
    → kept_all xs ≡ true
    → kept_all (boxed_item xs r).1 ≡ true
unfolding boxed_item
kept-boxed_item i xs none q k = k
kept-boxed_item i xs (some (p, v)) q k =
    kept_all-put_at p (box v) xs k (is_kept-box v (kept-find_item i p v xs k q))

kept-popped_at :
    (xs : Items) (r : Option (ℕ × Value)) → kept_all xs ≡ true → kept_all (popped_at xs r).1 ≡ true
unfolding popped_at
kept-popped_at xs none k = k
kept-popped_at xs (some (p, v)) k = kept_all-remove_at p xs k

pub kept-call_list :
    (m : ListMethod) (xs : Items) → kept_all xs ≡ true → kept_all (call_list m xs).1 ≡ true
unfolding call_list
kept-call_list (get_index i) xs k = kept-boxed_item i xs _ refl k
kept-call_list (pop_index i) xs k = kept-popped_at xs (find_item i xs) k
kept-call_list iterate xs k = kept_all-box_items xs k
