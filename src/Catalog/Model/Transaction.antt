-- ===== src/Catalog/Model/Transaction.antt =====
-- catalog_base.py: `update` against the assignments one after the other.
use descarteslabs_python.Prelude.{◌≡◌, refl, ap, ap₂, ◌∙◌, Bool, true, false, [], ◌∷◌, arith}
use descarteslabs_python.Python.Result.{Result, ok, err, bind, Action}
use descarteslabs_python.Python.Dict.{Dict}
use descarteslabs_python.Catalog.Model.Attribute.{
  Error, attribute_error, validation_error, Values, Attribute, Object, set_attribute,
}
use descarteslabs_python.Catalog.Model.Object.{
  settle, is_caught, on_error, after_set, update_each, update_attributes,
}
use descarteslabs_python.Catalog.Model.Calls.{on_not_found, update}
use descarteslabs_python.Catalog.Model.History.{check_deleted_live}
use descarteslabs_python.Catalog.Model.Invariant.{SetTo-set_attribute}

-- the outcome is one that `update` knows: a return or one of its two exceptions
unfoldable pub is_handled {ℓ} : {A : Type ℓ} → Result Error A → Bool
is_handled (ok a) = true
is_handled (err e) = is_caught e

module _ {V : Type 0} where
  -- the part of the object that an assignment leaves alone
  abbrev Flags : Object V → Object V → Type 0
  Flags original obj = (obj.saved ≡ original.saved) × (obj.deleted ≡ original.deleted)

  restored :
      (original obj : Object V)
      → Flags original obj
      → record obj { attributes = original.attributes; modified = original.modified } ≡ original
  restored original obj (s, d) = ap₂ (λ x y. record original { saved = x; deleted = y }) s d

  after_set-settle :
      (original obj : Object V) (r : Result Error (Object V))
      (next : Action (Object V) Error (Unit {0})) (rest : Object V → Result Error (Object V))
      → Flags original obj
      → ((o : Object V) → r ≡ ok o → is_handled (rest o) ≡ true → next o ≡ settle original (rest o))
      → is_handled (bind r rest) ≡ true
      → after_set false original obj r next ≡ settle original (bind r rest)
  unfolding after_set on_error settle is_handled
  after_set-settle original obj (ok o) next rest f k h = k o refl h
  after_set-settle original obj (err e) next rest f k h =
      rw h (ap (λ o. (err e, o)) (restored original obj f))

  on_not_found-settle :
      (obj : Object V) (r : Result Error (Object V))
      → is_handled r ≡ true
      → on_not_found (settle obj r) ≡ settle obj r
  unfolding on_not_found settle is_handled
  on_not_found-settle obj (ok o) h = refl
  on_not_found-settle obj (err attribute_error) h = refl
  on_not_found-settle obj (err validation_error) h = refl
  on_not_found-settle obj (err _) h = ground (arith, h)

module _ {V T : Type 0} (values : Values V T) (types : Dict (Attribute T)) where
  -- the assignments `obj.name = value`, up to the first that raises
  unfoldable pub set_all : Dict V → Object V → Result Error (Object V)
  set_all [] obj = ok obj
  set_all ((name, value) ∷ rest) obj =
      bind (set_attribute values types name value obj) (set_all rest)

  update_each-settle :
      (original : Object V) (attributes : Dict V) (obj : Object V)
      → Flags original obj
      → is_handled (set_all attributes obj) ≡ true
      → update_each values types false original attributes obj
        ≡ settle original (set_all attributes obj)
  unfolding update_each set_all settle
  update_each-settle original [] obj f h = refl
  update_each-settle original ((name, value) ∷ rest) obj f h =
      after_set-settle original obj (set_attribute values types name value obj)
        (update_each values types false original rest) (set_all rest) f
        (λ o e k.
          let s = SetTo-set_attribute values types name value obj o e in
          update_each-settle original rest o
            (ap (λ x. x.saved) s.result ∙ f.0, ap (λ x. x.deleted) s.result ∙ f.1) k)
        h

  -- `update` of an object that is not deleted is all or nothing: when the assignments one after
  -- the other go through it does them, and when one of them raises an AttributeError or an
  -- AttributeValidationError it raises that and leaves the object as it was.
  pub update-set_all :
      (attributes : Dict V) (obj : Object V)
      → obj.deleted ≡ false
      → is_handled (set_all attributes obj) ≡ true
      → update values types false attributes obj ≡ settle obj (set_all attributes obj)
  unfolding update update_attributes
  update-set_all attributes obj d h =
      check_deleted_live (update_attributes values types false attributes) obj d
      ∙ ap on_not_found (update_each-settle obj attributes obj (refl, refl) h)
      ∙ on_not_found-settle obj (set_all attributes obj) h
