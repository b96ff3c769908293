-- ===== src/Catalog/Model/Invariant.antt =====
-- catalog_base.py and attributes.py: what every call keeps of an object.
use mathlib.Core.Path.{subst}
use descarteslabs_python.Prelude.{
  String, ◌≡◌, refl, sym, ap, ◌∙◌, inl, inr, Bool, true, false, ◌&&◌, List, [], ◌∷◌, ◌++◌, arith,
  all, ◌==◌, eq_iff, Bool-cases, both, if◌then◌else◌,
}
use descarteslabs_python.Python.Result.{ok, bind-ok, ok-injective}
use descarteslabs_python.Python.Dict.{Dict, lookup, insert, lookup-insert}
use descarteslabs_python.Catalog.Model.Attribute.{
  Values, Attribute, Object, is_some, add_name, attribute_type, set_modified, set_checked,
  set_value, set_attribute, is_changed, validate_value, raise_if_immutable_or_readonly,
}
use descarteslabs_python.Catalog.Model.Object.{names}

abbrev pub is_known : {T : Type 0} → Dict (Attribute T) → String → Bool
is_known types name = is_some (lookup name types)

module _ {V T : Type 0} (types : Dict (Attribute T)) where
  -- Every attribute is one of the class's, and every modified name is an attribute that has a value.
  pub record IsTracked (obj : Object V) : Type 0 where
    pub known : all (is_known types) (names obj.attributes) ≡ true
    pub known_modified : all (is_known types) obj.modified ≡ true
    pub tracked : all (λ name. is_some (lookup name obj.attributes)) obj.modified ≡ true

and_both : {x y : Bool} → x ≡ true → y ≡ true → (x && y) ≡ true
and_both e f = ground arith

all-append_one :
    (p : String → Bool) (l : List String) (x : String)
    → all p l ≡ true
    → p x ≡ true
    → all p (l ++ x ∷ []) ≡ true
all-append_one p [] x h e = and_both e refl
all-append_one p (y ∷ l) x h e = and_both (both h).0 (all-append_one p l x (both h).1 e)

all-add_name :
    (p : String → Bool) (l : List String) (x : String)
    → all p l ≡ true
    → p x ≡ true
    → all p (add_name x l) ≡ true
unfolding add_name
all-add_name p l x h e = ground (arith, all-append_one p l x h e)

pub all_mono :
    (p q : String → Bool) (l : List String)
    → ((x : String) → p x ≡ true → q x ≡ true)
    → all p l ≡ true
    → all q l ≡ true
all_mono p q [] i h = refl
all_mono p q (x ∷ l) i h = and_both (i x (both h).0) (all_mono p q l i (both h).1)

module _ {V : Type 0} where
  all-insert :
      (p : String → Bool) (name : String) (v : V) (d : Dict V)
      → p name ≡ true
      → all p (names d) ≡ true
      → all p (names (insert name v d)) ≡ true
  unfolding names insert
  all-insert p name v [] e h = and_both e refl
  all-insert p name v ((n, w) ∷ d) e h = elim (Bool-cases (n == name)) [
    | inl q ↦ rw q (and_both e (both h).1)
    | inr q ↦ rw q (and_both (both h).0 (all-insert p name v d e (both h).1))
  ]

  is_some-insert :
      (name n : String) (v : V) (d : Dict V)
      → is_some (lookup n d) ≡ true
      → is_some (lookup n (insert name v d)) ≡ true
  is_some-insert name n v d h = rw (lookup-insert name n v d) (ground (arith, h))

  is_some-insert_self :
      (name : String) (v : V) (d : Dict V) → is_some (lookup name (insert name v d)) ≡ true
  is_some-insert_self name v d =
      rw (lookup-insert name name v d) (ground (arith, (eq_iff name name).1 refl))

-- the object after a value is set
abbrev pub with_value : {V : Type 0} → Bool → String → V → Object V → Object V
with_value changed name v obj = record obj {
  attributes = insert name v obj.attributes;
  modified = if changed then add_name name obj.modified else obj.modified;
}

module _ {V T : Type 0} (types : Dict (Attribute T)) where
  with_value-IsTracked :
      (changed : Bool) (name : String) (v : V) (obj : Object V)
      → is_known types name ≡ true
      → IsTracked types obj
      → IsTracked types (with_value changed name v obj)
  with_value-IsTracked true name v obj k i = record {
    known = all-insert (is_known types) name v obj.attributes k i.known;
    known_modified = all-add_name (is_known types) obj.modified name i.known_modified k;
    tracked =
        all-add_name (λ n. is_some (lookup n (insert name v obj.attributes))) obj.modified name
          (all_mono _ _ obj.modified (λ n. is_some-insert name n v obj.attributes) i.tracked)
          (is_some-insert_self name v obj.attributes);
  }
  with_value-IsTracked false name v obj k i = record {
    known = all-insert (is_known types) name v obj.attributes k i.known;
    known_modified = i.known_modified;
    tracked = all_mono _ _ obj.modified (λ n. is_some-insert name n v obj.attributes) i.tracked;
  }

pub attribute_type-is_known :
    {T : Type 0} (types : Dict (Attribute T)) (name : String) {attr : Attribute T}
    → attribute_type types name ≡ ok attr
    → is_known types name ≡ true
unfolding attribute_type
attribute_type-is_known types name e = ground (arith, e)

-- the same, after the change of `_modified`
abbrev put_value : {V : Type 0} → String → V → Object V → Object V
put_value name v o = record o { attributes = insert name v o.attributes }

-- What a value that was set has done to the object.
pub record SetTo {V T : Type 0} (types : Dict (Attribute T)) (name : String) (obj o : Object V)
    : Type 0 where
  pub value : V
  pub changed : Bool
  pub known : is_known types name ≡ true
  pub result : o ≡ with_value changed name value obj

module _ {V T : Type 0} (types : Dict (Attribute T)) where
  SetTo-set_modified :
      (name : String) (v : V) (changed validate : Bool) (obj o : Object V)
      → set_modified types name changed validate obj ≡ ok o
      → SetTo types name obj (put_value name v o)
  unfolding set_modified
  SetTo-set_modified name v changed validate obj o e =
      let (attr, (p, e1)) = bind-ok (attribute_type types name) _ e in
      let (t, (q, e2)) =
        bind-ok (if validate then raise_if_immutable_or_readonly attr name obj else ok tt) _ e1 in
      record {
        value = v;
        changed = changed;
        known = attribute_type-is_known types name p;
        result = ap (put_value name v) (sym (ok-injective e2)) ∙ if_changed changed;
      }
    where
      if_changed :
          (c : Bool)
          → put_value name v
              (if c then record obj { modified = add_name name obj.modified } else obj)
            ≡ with_value c name v obj
      if_changed true = refl
      if_changed false = refl

module _ {V T : Type 0} (values : Values V T) (types : Dict (Attribute T)) where
  SetTo-set_checked :
      (attr : Attribute T) (name : String) (value : V) (validate : Bool) (obj o : Object V)
      → set_checked values types attr name value validate obj ≡ ok o
      → SetTo types name obj o
  unfolding set_checked
  SetTo-set_checked attr name value validate obj o e =
      let (t, (p, e1)) =
        bind-ok (if validate then raise_if_immutable_or_readonly attr name obj else ok tt) _ e in
      let (v, (q, e2)) =
        bind-ok (if validate then validate_value values attr.kind value else ok value) _ e1 in
      let (x, (r, e3)) =
        bind-ok (set_modified types name (is_changed values name v obj) validate obj) _ e2 in
      subst (SetTo types name obj) (ok-injective e3)
        (SetTo-set_modified types name v (is_changed values name v obj) validate obj x r)

  pub SetTo-set_value :
      (attr : Attribute T) (name : String) (value : V) (validate : Bool) (obj o : Object V)
      → set_value values types attr name value validate obj ≡ ok o
      → SetTo types name obj o
  unfolding set_value
  SetTo-set_value attr name value validate obj o e =
      let (v, (p, e1)) =
        bind-ok (if validate then validate_value values attr.kind value else ok value) _ e in
      SetTo-set_checked attr name v validate obj o e1

  pub SetTo-set_attribute :
      (name : String) (value : V) (obj o : Object V)
      → set_attribute values types name value obj ≡ ok o
      → SetTo types name obj o
  unfolding set_attribute
  SetTo-set_attribute name value obj o e =
      let (attr, (p, e1)) = bind-ok (attribute_type types name) _ e in
      SetTo-set_value attr name value true obj o e1

-- What every step keeps: the record of the modified names, and a save.
pub record Tracks {V T : Type 0} (types : Dict (Attribute T)) (obj o : Object V) : Type 0 where
  pub tracked : IsTracked types obj → IsTracked types o
  pub saved : obj.saved ≡ true → o.saved ≡ true

module _ {V T : Type 0} (types : Dict (Attribute T)) where
  pub Tracks-SetTo :
      (name : String) (obj o : Object V) → SetTo types name obj o → Tracks types obj o
  Tracks-SetTo name obj o s = record {
    tracked = λ i.
        subst (IsTracked types) (sym s.result)
          (with_value-IsTracked types s.changed name s.value obj s.known i);
    saved = λ d. ap (λ x. x.saved) s.result ∙ d;
  }
