-- ===== src/Catalog/Model/Loading.antt =====
-- catalog_base.py: `_initialize`, and what it keeps of an object.
use mathlib.Core.Path.{subst}
use descarteslabs_python.Prelude.{
  String, ◌≡◌, refl, sym, ap, ◌∙◌, inl, inr, Bool, true, false, not, Option, none, some, [], ◌∷◌,
  all, if◌then◌else◌,
}
use descarteslabs_python.Python.Result.{
  Result, ok, err, bind-ok, ok-injective, Result-cases, Action, ◌>>◌,
}
use descarteslabs_python.Python.Dict.{Dict, lookup}
use descarteslabs_python.Catalog.Model.Attribute.{
  Error, Values, Attribute, Object, is_some, set_attribute, attribute_type,
}
use descarteslabs_python.Catalog.Model.Object.{
  names, settle, change, clear_modified, clear_sticky, keep_sticky, mark, finish, set_known,
  set_each, set_id, initialize,
}
use descarteslabs_python.Catalog.Model.Invariant.{
  IsTracked, is_known, Tracks, Tracks-SetTo, SetTo-set_value, SetTo-set_attribute,
  attribute_type-is_known,
}

module _ {V T : Type 0} (types : Dict (Attribute T)) where
  pub Tracks-refl : (obj : Object V) → Tracks types obj obj
  Tracks-refl obj = record { tracked = λ i. i; saved = λ d. d }

  pub Tracks-trans : (a b c : Object V) → Tracks types a b → Tracks types b c → Tracks types a c
  Tracks-trans a b c k l = record {
    tracked = λ i. l.tracked (k.tracked i);
    saved = λ d. l.saved (k.saved d);
  }

  -- a step that keeps what is kept of the object, also when it raises
  abbrev pub Tracking : Action (Object V) Error (Unit {0}) → Type 0
  Tracking f = (obj : Object V) → Tracks types obj (f obj).1

  pub Tracking-change :
      (f : Object V → Result Error (Object V))
      → ((obj o : Object V) → f obj ≡ ok o → Tracks types obj o)
      → Tracking (change f)
  unfolding change settle
  Tracking-change f h obj = elim (Result-cases (f obj)) [
    | inl (o, e) ↦ rw e (h obj o e)
    | inr (x, e) ↦ rw e (Tracks-refl obj)
  ]

  pub Tracking-then :
      (f g : Action (Object V) Error (Unit {0})) → Tracking f → Tracking g → Tracking (f >> g)
  Tracking-then f g h k obj = go (f obj).0 (f obj).1 (h obj)
    where
      go :
          (r : Result Error (Unit {0})) (o : Object V)
          → Tracks types obj o
          → Tracks types obj (((λ _. (r, o)) >> g) obj).1
      go (ok t) o l = Tracks-trans obj o (g o).1 l (k o)
      go (err e) o l = l

module _ {V T : Type 0} (values : Values V T) (types : Dict (Attribute T)) where
  Tracks-set_known :
      (saved : Bool) (known : Option (Attribute T)) (name : String) (value : V) (obj o : Object V)
      → set_known values types saved known name value obj ≡ ok o
      → Tracks types obj o
  unfolding set_known
  Tracks-set_known saved (some attr) name value obj o e =
      Tracks-SetTo types name obj o
        (SetTo-set_value values types attr name value (not saved) obj o e)
  Tracks-set_known true none name value obj o e =
      subst (Tracks types obj) (ok-injective e) (Tracks-refl types obj)
  Tracks-set_known false none name value obj o e = cc

  Tracking-set_each :
      (saved : Bool) (attributes : Dict V) → Tracking types (set_each values types saved attributes)
  unfolding set_each
  Tracking-set_each saved [] = Tracks-refl types
  Tracking-set_each saved ((name, value) ∷ rest) =
      Tracking-then types _ (set_each values types saved rest)
        (Tracking-change types _ (Tracks-set_known saved (lookup name types) name value))
        (Tracking-set_each saved rest)

  Tracking-set_id : (id : Option V) → Tracking types (set_id values types id)
  unfolding set_id
  Tracking-set_id none = Tracks-refl types
  Tracking-set_id (some id) =
      Tracking-change types (set_attribute values types "id" id)
        λ obj o e. Tracks-SetTo types "id" obj o (SetTo-set_attribute values types "id" id obj o e)

  all-keep_sticky :
      (d kept : Dict V) → keep_sticky types d ≡ ok kept → all (is_known types) (names kept) ≡ true
  unfolding keep_sticky names
  all-keep_sticky [] kept e = ap (λ k. all (is_known types) (names k)) (sym (ok-injective e))
  all-keep_sticky ((name, v) ∷ d) kept e =
      let (attr, (p, e1)) = bind-ok (attribute_type types name) _ e in
      let (rest, (q, e2)) = bind-ok (keep_sticky types d) _ e1 in
      ap (λ k. all (is_known types) (names k)) (sym (ok-injective e2))
      ∙ if_sticky attr.sticky name v rest (attribute_type-is_known types name p)
          (all-keep_sticky d rest q)
    where
      if_sticky :
          (sticky : Bool) (name : String) (v : V) (rest : Dict V)
          → is_known types name ≡ true
          → all (is_known types) (names rest) ≡ true
          → all (is_known types) (names (if sticky then (name, v) ∷ rest else rest)) ≡ true
      if_sticky true name v rest k h = rw (k, h) refl
      if_sticky false name v rest k h = h

  -- With no modified names there is nothing to track but the names.
  IsTracked-unmodified :
      (obj : Object V)
      → obj.modified ≡ []
      → all (is_known types) (names obj.attributes) ≡ true
      → IsTracked types obj
  IsTracked-unmodified obj e k = record {
    known = k;
    known_modified = ap (all (is_known types)) e;
    tracked = ap (all (λ name. is_some (lookup name obj.attributes))) e;
  }

  Tracks-unmodified :
      (obj o : Object V)
      → o.modified ≡ []
      → (IsTracked types obj → all (is_known types) (names o.attributes) ≡ true)
      → (obj.saved ≡ true → o.saved ≡ true)
      → Tracks types obj o
  Tracks-unmodified obj o e k s = record {
    tracked = λ i. IsTracked-unmodified o e (k i);
    saved = s;
  }

  Tracks-mark :
      (saved : Bool) (obj : Object V)
      → (obj.saved ≡ true → saved ≡ true)
      → Tracks types obj (record obj { saved = saved; deleted = false })
  Tracks-mark saved obj h = record {
    tracked =
        λ i. record { known = i.known; known_modified = i.known_modified; tracked = i.tracked };
    saved = h;
  }

  Tracking-finish : (saved : Bool) → Tracking types (change (finish {V = V} saved))
  unfolding change settle finish
  Tracking-finish true obj = Tracks-unmodified obj _ refl (λ i. i.known) (λ e. e)
  Tracking-finish false obj = Tracks-refl types obj

  -- from the cleared object on
  filled : Option V → Bool → Dict V → Action (Object V) Error (Unit {0})
  filled id saved attributes =
      set_id values types id >> (set_each values types saved attributes >> change (finish saved))

  Tracking-filled :
      (id : Option V) (saved : Bool) (attributes : Dict V)
      → Tracking types (filled id saved attributes)
  unfolding filled
  Tracking-filled id saved attributes =
      Tracking-then types (set_id values types id)
        (set_each values types saved attributes >> change (finish saved)) (Tracking-set_id id)
        (Tracking-then types (set_each values types saved attributes) (change (finish saved))
          (Tracking-set_each saved attributes) (Tracking-finish saved))

  pub Tracks-initialize :
      (id : Option V) (saved : Bool) (attributes : Dict V) (obj : Object V)
      → (obj.saved ≡ true → saved ≡ true)
      → Tracks types obj (initialize values types id saved attributes obj).1
  unfolding initialize change settle clear_modified clear_sticky mark filled
  Tracks-initialize id saved attributes obj h =
      elim (Result-cases (keep_sticky types obj.attributes)) [
        | inl (kept, e) ↦
            let cleared = record obj { modified = []; attributes = kept } in
            let marked = record cleared { saved = saved; deleted = false } in
            rw e (
              Tracks-trans types obj marked _
                (Tracks-trans types obj cleared marked
                  (Tracks-unmodified obj cleared refl (λ i. all-keep_sticky obj.attributes kept e)
                    (λ s. s))
                  (Tracks-mark saved cleared h))
                (Tracking-filled id saved attributes marked))
        | inr (x, e) ↦
            rw e (Tracks-unmodified obj (record obj { modified = [] }) refl (λ i. i.known) (λ s. s))
      ]
