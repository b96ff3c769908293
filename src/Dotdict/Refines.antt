-- ===== src/Dotdict/Refines.antt =====
-- The methods of dotdict.py do what those of the built-in containers do.
use descarteslabs_python.Prelude.{
  ℕ, String, ◌≡◌, refl, sym, ap, ap₂, ◌∙◌, true, false, Option, none, some, List, [], ◌∷◌,
}
use descarteslabs_python.Python.Number.{ℤ}
use descarteslabs_python.Python.Result.{ok, err}
use descarteslabs_python.Dotdict.{
  Error, key_error, attribute_error, Value, other, dict, list, Fields, Items, value, pair, pairs,
  elements, box, get_field, put_field, split_last, find_item, put_at,
}
use descarteslabs_python.Dotdict.Methods.{
  default_of, DictMethod, get_item, get_attribute, delete_attribute, set_attribute, get, pop,
  set_default, pop_item, items, ListMethod, get_index, pop_index, iterate, Method, of_dict, of_list,
  Step, attribute, index, Outcome, boxed_field, boxed_default, stored_default, deleted_field,
  popped_field, popped_last, call_dict, boxed_item, popped_at, call_list, call_on, in_field,
  in_item, at_step, call_at,
}
use descarteslabs_python.Dotdict.Builtin.{
  gives_default, plain, plain_fields, plain_items, plain_answer, value_or, default_for, deletion,
  without, last_pair, builtin_dict, item_of, rest_of, builtin_list, builtin_on, under_field,
  under_item, builtin_step, builtin_at,
}
use descarteslabs_python.Dotdict.Plain.{
  plain-box, plain_option, get_field-plain_fields, plain_fields-put_field,
  plain_fields-remove_field, plain_fields-put_box, plain_fields-box_fields, plain_last,
  split_last-plain_fields, plain_items-put_at, plain_items-remove_at, plain_place,
  find_item-plain_items, plain_items-put_box, plain_items-box_items,
}

-- What is returned and left, as it is read.
abbrev read_fields : Outcome Fields → Outcome Fields
read_fields r = (plain_answer r.0, plain_fields r.1)

abbrev read_items : Outcome Items → Outcome Items
read_items r = (plain_answer r.0, plain_items r.1)

abbrev pub read_value : Outcome Value → Outcome Value
read_value r = (plain_answer r.0, plain r.1)

boxed_answer : (v : Value) → plain_answer (ok (value (box v))) ≡ ok (value (plain v))
unfolding plain_answer
boxed_answer v = ap (λ w. ok (value w)) (plain-box v)

both_of : {A B : Type 0} {a c : A} {b d : B} → a ≡ c → b ≡ d → Path (A × B) (a, b) (c, d)
both_of e f = ap₂ (λ x y. (x, y)) e f

boxed_field-value_or :
    (e : Error) (k : String) (fields : Fields) (r : Option Value)
    → get_field k fields ≡ r
    → read_fields (boxed_field e k fields r)
      ≡ (value_or (err e) (plain_option r), plain_fields fields)
unfolding boxed_field value_or plain_answer
boxed_field-value_or e k fields none q = refl
boxed_field-value_or e k fields (some v) q =
    both_of (boxed_answer v) (plain_fields-put_box k v fields q)

boxed_default-value_or :
    (k : String) (d : Value) (fields : Fields) (r : Option Value)
    → get_field k fields ≡ r
    → read_fields (boxed_default k d fields r)
      ≡ (value_or (ok (value (plain d))) (plain_option r), plain_fields fields)
unfolding boxed_default boxed_field value_or
boxed_default-value_or k d fields none q = both_of (boxed_answer d) refl
boxed_default-value_or k d fields (some v) q =
    both_of (boxed_answer v) (plain_fields-put_box k v fields q)

stored_default-default_for :
    (k : String) (d : Value) (fields : Fields) (r : Option Value)
    → get_field k fields ≡ r
    → read_fields (stored_default k d fields r) ≡ (
      value_or (ok (value (plain d))) (plain_option r),
      default_for k (plain d) (plain_fields fields) (plain_option r),
    )
unfolding stored_default boxed_field value_or default_for
stored_default-default_for k d fields none q = both_of (boxed_answer d) (
    plain_fields-put_field k (box d) fields
    ∙ ap (λ w. put_field k w (plain_fields fields)) (plain-box d))
stored_default-default_for k d fields (some v) q =
    both_of (boxed_answer v) (plain_fields-put_box k v fields q)

deleted_field-deletion :
    (k : String) (fields : Fields) (r : Option Value)
    → read_fields (deleted_field k fields r) ≡ deletion k (plain_fields fields) (plain_option r)
unfolding deleted_field deletion plain_answer
deleted_field-deletion k fields none = refl
deleted_field-deletion k fields (some v) = both_of refl (plain_fields-remove_field k fields)

popped_field-without :
    (k : String) (d : Value) (fields : Fields) (r : Option Value)
    → read_fields (popped_field k d fields r) ≡ (
      value_or (ok (value (plain d))) (plain_option r),
      without k (plain_fields fields) (plain_option r),
    )
unfolding popped_field value_or without
popped_field-without k d fields none = both_of (boxed_answer d) refl
popped_field-without k d fields (some v) =
    both_of (boxed_answer v) (plain_fields-remove_field k fields)

popped_last-last_pair :
    (r : Option ((String × Value) × Fields))
    → read_fields (popped_last r) ≡ last_pair (plain_last r)
unfolding popped_last last_pair plain_answer plain_fields
popped_last-last_pair none = refl
popped_last-last_pair (some ((k, v), before)) = both_of (ap (λ w. ok (pair k w)) (plain-box v)) refl

call_dict-builtin_dict :
    (m : DictMethod) (fields : Fields)
    → gives_default (of_dict m) ≡ true
    → read_fields (call_dict m fields) ≡ builtin_dict m (plain_fields fields)
unfolding call_dict builtin_dict plain_answer default_of
call_dict-builtin_dict (get_item k) fields g =
    boxed_field-value_or key_error k fields (get_field k fields) refl
    ∙ ap (λ r. (value_or (err key_error) r, plain_fields fields))
        (sym (get_field-plain_fields k fields))
call_dict-builtin_dict (get_attribute k) fields g =
    boxed_field-value_or attribute_error k fields (get_field k fields) refl
    ∙ ap (λ r. (value_or (err attribute_error) r, plain_fields fields))
        (sym (get_field-plain_fields k fields))
call_dict-builtin_dict (delete_attribute k) fields g =
    deleted_field-deletion k fields (get_field k fields)
    ∙ ap (deletion k (plain_fields fields)) (sym (get_field-plain_fields k fields))
call_dict-builtin_dict (set_attribute k v) fields g =
    both_of refl (plain_fields-put_field k v fields)
call_dict-builtin_dict (get k d) fields g =
    boxed_default-value_or k d fields (get_field k fields) refl
    ∙ ap (λ r. (value_or (ok (value (plain d))) r, plain_fields fields))
        (sym (get_field-plain_fields k fields))
call_dict-builtin_dict (pop k none) fields g = absurd (cc g)
call_dict-builtin_dict (pop k (some d)) fields g =
    popped_field-without k d fields (get_field k fields)
    ∙ ap (λ r. (value_or (ok (value (plain d))) r, without k (plain_fields fields) r))
        (sym (get_field-plain_fields k fields))
call_dict-builtin_dict (set_default k d) fields g =
    stored_default-default_for k d fields (get_field k fields) refl
    ∙ ap (λ r. (value_or (ok (value (plain d))) r, default_for k (plain d) (plain_fields fields) r))
        (sym (get_field-plain_fields k fields))
call_dict-builtin_dict pop_item fields g =
    popped_last-last_pair (split_last fields) ∙ ap last_pair (sym (split_last-plain_fields fields))
call_dict-builtin_dict items fields g =
    both_of (ap (λ f. ok (pairs f)) (plain_fields-box_fields fields))
      (plain_fields-box_fields fields)

boxed_item-item_of :
    (i : ℤ) (xs : Items) (r : Option (ℕ × Value))
    → find_item i xs ≡ r
    → read_items (boxed_item xs r) ≡ (item_of (plain_place r), plain_items xs)
unfolding boxed_item item_of plain_answer
boxed_item-item_of i xs none q = refl
boxed_item-item_of i xs (some (p, v)) q = both_of (boxed_answer v) (plain_items-put_box i p v xs q)

popped_at-rest_of :
    (xs : Items) (r : Option (ℕ × Value))
    → read_items (popped_at xs r)
      ≡ (item_of (plain_place r), rest_of (plain_items xs) (plain_place r))
unfolding popped_at item_of rest_of plain_answer
popped_at-rest_of xs none = refl
popped_at-rest_of xs (some (p, v)) = both_of (boxed_answer v) (plain_items-remove_at p xs)

call_list-builtin_list :
    (m : ListMethod) (xs : Items) → read_items (call_list m xs) ≡ builtin_list m (plain_items xs)
unfolding call_list builtin_list plain_answer
call_list-builtin_list (get_index i) xs =
    boxed_item-item_of i xs (find_item i xs) refl
    ∙ ap (λ r. (item_of r, plain_items xs)) (sym (find_item-plain_items i xs))
call_list-builtin_list (pop_index i) xs =
    popped_at-rest_of xs (find_item i xs)
    ∙ ap (λ r. (item_of r, rest_of (plain_items xs) r)) (sym (find_item-plain_items i xs))
call_list-builtin_list iterate xs =
    both_of (ap (λ ys. ok (elements ys)) (plain_items-box_items xs)) (plain_items-box_items xs)

in_dict :
    (r s : Outcome Fields)
    → read_fields r ≡ s
    → read_value (r.0, dict true r.1) ≡ (s.0, dict false s.1)
unfolding plain
in_dict r s e = ap (λ o. (o.0, dict false o.1)) e

in_list :
    (r s : Outcome Items)
    → read_items r ≡ s
    → read_value (r.0, list true r.1) ≡ (s.0, list false s.1)
unfolding plain
in_list r s e = ap (λ o. (o.0, list false o.1)) e

call_on-builtin_on :
    (m : Method) (v : Value)
    → gives_default m ≡ true
    → read_value (call_on m (box v)) ≡ builtin_on m (plain v)
unfolding call_on builtin_on box plain plain_answer
call_on-builtin_on (of_dict m) (other s) g = refl
call_on-builtin_on (of_dict m) (dict true fields) g =
    in_dict _ _ (call_dict-builtin_dict m fields g)
call_on-builtin_on (of_dict m) (dict false fields) g =
    in_dict _ _ (call_dict-builtin_dict m fields g)
call_on-builtin_on (of_dict m) (list true xs) g = refl
call_on-builtin_on (of_dict m) (list false xs) g = refl
call_on-builtin_on (of_list m) (other s) g = refl
call_on-builtin_on (of_list m) (dict true fields) g = refl
call_on-builtin_on (of_list m) (dict false fields) g = refl
call_on-builtin_on (of_list m) (list true xs) g = in_list _ _ (call_list-builtin_list m xs)
call_on-builtin_on (of_list m) (list false xs) g = in_list _ _ (call_list-builtin_list m xs)

module _ (next plain_next : Value → Outcome Value)
    (e : (v : Value) → read_value (next (box v)) ≡ plain_next (plain v)) where
  in_field-under_field :
      (k : String) (fields : Fields) (r : Option Value)
      → read_value (in_field next k fields r)
        ≡ under_field plain_next k (plain_fields fields) (plain_option r)
  unfolding in_field under_field plain_answer plain
  in_field-under_field k fields none = refl
  in_field-under_field k fields (some v) = both_of (ap (λ o. o.0) (e v)) (
      ap (λ f. dict false f)
        (plain_fields-put_field k (next (box v)).1 fields
          ∙ ap (λ o. put_field k o.1 (plain_fields fields)) (e v)))

  in_item-under_item :
      (xs : Items) (r : Option (ℕ × Value))
      → read_value (in_item next xs r) ≡ under_item plain_next (plain_items xs) (plain_place r)
  unfolding in_item under_item plain_answer plain
  in_item-under_item xs none = refl
  in_item-under_item xs (some (p, v)) = both_of (ap (λ o. o.0) (e v)) (
      ap (λ ys. list false ys)
        (plain_items-put_at p (next (box v)).1 xs ∙ ap (λ o. put_at p o.1 (plain_items xs)) (e v)))

  through_field :
      (k : String) (fields : Fields)
      → read_value (in_field next k fields (get_field k fields))
        ≡ under_field plain_next k (plain_fields fields) (get_field k (plain_fields fields))
  through_field k fields =
      in_field-under_field k fields (get_field k fields)
      ∙ ap (under_field plain_next k (plain_fields fields)) (sym (get_field-plain_fields k fields))

  through_item :
      (i : ℤ) (xs : Items)
      → read_value (in_item next xs (find_item i xs))
        ≡ under_item plain_next (plain_items xs) (find_item i (plain_items xs))
  through_item i xs =
      in_item-under_item xs (find_item i xs)
      ∙ ap (under_item plain_next (plain_items xs)) (sym (find_item-plain_items i xs))

  at_step-builtin_step :
      (step : Step) (v : Value)
      → read_value (at_step step next (box v)) ≡ builtin_step step plain_next (plain v)
  unfolding at_step builtin_step box plain plain_answer
  at_step-builtin_step (attribute k) (other s) = refl
  at_step-builtin_step (attribute k) (dict true fields) = through_field k fields
  at_step-builtin_step (attribute k) (dict false fields) = through_field k fields
  at_step-builtin_step (attribute k) (list true xs) = refl
  at_step-builtin_step (attribute k) (list false xs) = refl
  at_step-builtin_step (index i) (other s) = refl
  at_step-builtin_step (index i) (dict true fields) = refl
  at_step-builtin_step (index i) (dict false fields) = refl
  at_step-builtin_step (index i) (list true xs) = through_item i xs
  at_step-builtin_step (index i) (list false xs) = through_item i xs

-- A method called at the end of any chain of attributes and indices of a boxed value returns,
-- raises and changes what the built-in method does on the same value with every container plain,
-- unless it is a `pop` without a default.
pub call_at-builtin_at :
    (path : List Step) (m : Method) (v : Value)
    → gives_default m ≡ true
    → read_value (call_at path m (box v)) ≡ builtin_at path m (plain v)
unfolding call_at builtin_at
call_at-builtin_at [] m v g = call_on-builtin_on m v g
call_at-builtin_at (step ∷ path) m v g =
    at_step-builtin_step (call_at path m) (builtin_at path m) (λ w. call_at-builtin_at path m w g)
      step v
