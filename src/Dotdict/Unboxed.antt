-- ===== src/Dotdict/Unboxed.antt =====
-- `asdict` and `aslist`, and when they reach every container: their comment says that a plain
-- container is assumed to hold none of the other kind.
use descarteslabs_python.Prelude.{
  String, ◌≡◌, refl, sym, ap, ap₂, Bool, true, false, not, ◌&&◌, some, arith,
}
use descarteslabs_python.Dotdict.{
  Value, other, dict, list, Fields, end, field, Items, nil, cons, box, get_field, put_field,
  remove_field,
}
use descarteslabs_python.Dotdict.Builtin.{plain, plain_fields, plain_items}

unfoldable mutual
  -- what `asdict` and `aslist` put for a value
  pub unbox : Value → Value
  unbox (dict true fields) = dict false (asdict fields)
  unbox (list true xs) = list false (aslist xs)
  unbox (other s) = other s
  unbox (dict false fields) = dict false fields
  unbox (list false xs) = list false xs

  pub asdict : Fields → Fields
  asdict end = end
  asdict (field k v fields) = field k (unbox v) (asdict fields)

  pub aslist : Items → Items
  aslist nil = nil
  aslist (cons v xs) = cons (unbox_item v) (aslist xs)

  -- `list(self)` goes through `DotList.__iter__`, so that `aslist` gets every container boxed.
  pub unbox_item : Value → Value
  unbox_item (dict b fields) = dict false (asdict fields)
  unbox_item (list b xs) = list false (aslist xs)
  unbox_item (other s) = other s

-- What `asdict` and `aslist` leave in place of a value: `DotList.__iter__` puts the boxed items back.
unfoldable mutual
  pub after_unbox : Value → Value
  after_unbox (dict true fields) = dict true (after_asdict fields)
  after_unbox (list true xs) = list true (after_aslist xs)
  after_unbox (other s) = other s
  after_unbox (dict false fields) = dict false fields
  after_unbox (list false xs) = list false xs

  pub after_asdict : Fields → Fields
  after_asdict end = end
  after_asdict (field k v fields) = field k (after_unbox v) (after_asdict fields)

  pub after_aslist : Items → Items
  after_aslist nil = nil
  after_aslist (cons v xs) = cons (after_unbox_item v) (after_aslist xs)

  pub after_unbox_item : Value → Value
  after_unbox_item (dict b fields) = dict true (after_asdict fields)
  after_unbox_item (list b xs) = list true (after_aslist xs)
  after_unbox_item (other s) = other s

unfoldable mutual
  pub is_plain : Value → Bool
  is_plain (other s) = true
  is_plain (dict b fields) = not b && plain_each fields
  is_plain (list b xs) = not b && plain_all xs

  pub plain_each : Fields → Bool
  plain_each end = true
  plain_each (field k v fields) = is_plain v && plain_each fields

  pub plain_all : Items → Bool
  plain_all nil = true
  plain_all (cons v xs) = is_plain v && plain_all xs

-- No plain container holds a `DotDict` or a `DotList`.
unfoldable mutual
  pub is_kept : Value → Bool
  is_kept (other s) = true
  is_kept (dict true fields) = kept_each fields
  is_kept (dict false fields) = plain_each fields
  is_kept (list true xs) = kept_all xs
  is_kept (list false xs) = plain_all xs

  pub kept_each : Fields → Bool
  kept_each end = true
  kept_each (field k v fields) = is_kept v && kept_each fields

  pub kept_all : Items → Bool
  kept_all nil = true
  kept_all (cons v xs) = is_kept v && kept_all xs

pub split_and : (x y : Bool) → (x && y) ≡ true → (x ≡ true) × (y ≡ true)
split_and true y e = (refl, e)
split_and false y e = ground arith

pub and_of : (x y : Bool) → x ≡ true → y ≡ true → (x && y) ≡ true
and_of x y e f = ground arith

mutual
  unfolding is_plain plain

  plain_lem : (v : Value) → is_plain v ≡ true → plain v ≡ v
  plain_lem (other s) e = refl
  plain_lem (dict true fields) e = ground arith
  plain_lem (dict false fields) e = ap (λ f. dict false f) (plain_fields_lem fields e)
  plain_lem (list true xs) e = ground arith
  plain_lem (list false xs) e = ap (λ f. list false f) (plain_items_lem xs e)

  plain_fields_lem : (fields : Fields) → plain_each fields ≡ true → plain_fields fields ≡ fields
  plain_fields_lem end e = refl
  plain_fields_lem (field k v fields) e =
      let r = split_and (is_plain v) (plain_each fields) e in
      ap₂ (λ w f. field k w f) (plain_lem v r.0) (plain_fields_lem fields r.1)

  plain_items_lem : (xs : Items) → plain_all xs ≡ true → plain_items xs ≡ xs
  plain_items_lem nil e = refl
  plain_items_lem (cons v xs) e =
      let r = split_and (is_plain v) (plain_all xs) e in
      ap₂ (λ w f. cons w f) (plain_lem v r.0) (plain_items_lem xs r.1)

mutual
  unfolding is_plain is_kept

  kept_of_plain : (v : Value) → is_plain v ≡ true → is_kept v ≡ true
  kept_of_plain (other s) e = refl
  kept_of_plain (dict true fields) e = ground arith
  kept_of_plain (dict false fields) e = e
  kept_of_plain (list true xs) e = ground arith
  kept_of_plain (list false xs) e = e

  kept_fields_of_plain : (fields : Fields) → plain_each fields ≡ true → kept_each fields ≡ true
  kept_fields_of_plain end e = refl
  kept_fields_of_plain (field k v fields) e =
      let r = split_and (is_plain v) (plain_each fields) e in
      and_of (is_kept v) (kept_each fields) (kept_of_plain v r.0) (kept_fields_of_plain fields r.1)

  kept_items_of_plain : (xs : Items) → plain_all xs ≡ true → kept_all xs ≡ true
  kept_items_of_plain nil e = refl
  kept_items_of_plain (cons v xs) e =
      let r = split_and (is_plain v) (plain_all xs) e in
      and_of (is_kept v) (kept_all xs) (kept_of_plain v r.0) (kept_items_of_plain xs r.1)

mutual
  unfolding unbox plain is_kept

  -- On a value whose plain containers hold plain ones only, `asdict` leaves nothing boxed.
  pub unbox-plain : (v : Value) → is_kept v ≡ true → unbox v ≡ plain v
  unbox-plain (other s) e = refl
  unbox-plain (dict true fields) e = ap (λ f. dict false f) (asdict-plain_fields fields e)
  unbox-plain (dict false fields) e = ap (λ f. dict false f) (sym (plain_fields_lem fields e))
  unbox-plain (list true xs) e = ap (λ f. list false f) (aslist-plain_items xs e)
  unbox-plain (list false xs) e = ap (λ f. list false f) (sym (plain_items_lem xs e))

  asdict-plain_fields :
      (fields : Fields) → kept_each fields ≡ true → asdict fields ≡ plain_fields fields
  asdict-plain_fields end e = refl
  asdict-plain_fields (field k v fields) e =
      let r = split_and (is_kept v) (kept_each fields) e in
      ap₂ (λ w f. field k w f) (unbox-plain v r.0) (asdict-plain_fields fields r.1)

  aslist-plain_items : (xs : Items) → kept_all xs ≡ true → aslist xs ≡ plain_items xs
  aslist-plain_items nil e = refl
  aslist-plain_items (cons v xs) e =
      let r = split_and (is_kept v) (kept_all xs) e in
      ap₂ (λ w f. cons w f) (unbox_item-plain v r.0) (aslist-plain_items xs r.1)

  unbox_item-plain : (v : Value) → is_kept v ≡ true → unbox_item v ≡ plain v
  unbox_item-plain (other s) e = refl
  unbox_item-plain (dict true fields) e = ap (λ f. dict false f) (asdict-plain_fields fields e)
  unbox_item-plain (dict false fields) e =
      ap (λ f. dict false f) (asdict-plain_fields fields (kept_fields_of_plain fields e))
  unbox_item-plain (list true xs) e = ap (λ f. list false f) (aslist-plain_items xs e)
  unbox_item-plain (list false xs) e =
      ap (λ f. list false f) (aslist-plain_items xs (kept_items_of_plain xs e))

mutual
  unfolding after_unbox plain

  -- `asdict` changes nothing that can be read.
  pub plain-after_unbox : (v : Value) → plain (after_unbox v) ≡ plain v
  plain-after_unbox (other s) = refl
  plain-after_unbox (dict true fields) = ap (λ f. dict false f) (plain_fields-after_asdict fields)
  plain-after_unbox (dict false fields) = refl
  plain-after_unbox (list true xs) = ap (λ f. list false f) (plain_items-after_aslist xs)
  plain-after_unbox (list false xs) = refl

  plain_fields-after_asdict :
      (fields : Fields) → plain_fields (after_asdict fields) ≡ plain_fields fields
  plain_fields-after_asdict end = refl
  plain_fields-after_asdict (field k v fields) =
      ap₂ (λ w f. field k w f) (plain-after_unbox v) (plain_fields-after_asdict fields)

  plain_items-after_aslist : (xs : Items) → plain_items (after_aslist xs) ≡ plain_items xs
  plain_items-after_aslist nil = refl
  plain_items-after_aslist (cons v xs) =
      ap₂ (λ w f. cons w f) (plain-after_unbox_item v) (plain_items-after_aslist xs)

  plain-after_unbox_item : (v : Value) → plain (after_unbox_item v) ≡ plain v
  plain-after_unbox_item (other s) = refl
  plain-after_unbox_item (dict b fields) = ap (λ f. dict false f) (plain_fields-after_asdict fields)
  plain-after_unbox_item (list b xs) = ap (λ f. list false f) (plain_items-after_aslist xs)

-- boxing keeps
pub is_kept-box : (v : Value) → is_kept v ≡ true → is_kept (box v) ≡ true
unfolding is_kept box
is_kept-box (other s) e = refl
is_kept-box (dict true fields) e = e
is_kept-box (dict false fields) e = kept_fields_of_plain fields e
is_kept-box (list true xs) e = e
is_kept-box (list false xs) e = kept_items_of_plain xs e

pub kept-get_field :
    (k : String) (v : Value) (fields : Fields)
    → kept_each fields ≡ true
    → get_field k fields ≡ some v
    → is_kept v ≡ true
unfolding is_kept get_field
kept-get_field k v end e q = ground arith
kept-get_field k v (field j w fields) e q = ground (arith, kept-get_field k v fields)

pub kept_each-put_field :
    (k : String) (v : Value) (fields : Fields)
    → kept_each fields ≡ true
    → is_kept v ≡ true
    → kept_each (put_field k v fields) ≡ true
unfolding is_kept put_field
kept_each-put_field k v end e q = ground arith
kept_each-put_field k v (field j w fields) e q = ground (arith, kept_each-put_field k v fields)

pub kept_each-remove_field :
    (k : String) (fields : Fields)
    → kept_each fields ≡ true
    → kept_each (remove_field k fields) ≡ true
unfolding is_kept remove_field
kept_each-remove_field k end e = refl
kept_each-remove_field k (field j w fields) e = ground (arith, kept_each-remove_field k fields)
