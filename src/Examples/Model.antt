-- ===== src/Examples/Model.antt =====
-- An object with a name, on a service that answers every request. Texts are the values, and the
-- empty text is Python's None.
use descarteslabs_python.Prelude.{all, ℕ, String, ◌≡◌, refl, Bool, true, false, List, [], ◌∷◌, ◌==◌}
use descarteslabs_python.Python.Result.{ok, err}
use descarteslabs_python.Python.Dict.{Dict, lookup}
use descarteslabs_python.Catalog.Model.Attribute.{
  not_found, key_error, validation_error, saved_state, Values, Attribute, Object, typed, state,
  set_attribute, attribute_type, validate_value, delete_attribute,
}
use descarteslabs_python.Catalog.Model.Object.{settle, names}
use descarteslabs_python.Catalog.Model.Calls.{Service, save, update}
use descarteslabs_python.Catalog.Model.Invariant.{IsTracked}
use descarteslabs_python.Catalog.Model.History.{
  Call, sets, removes, updates, saves, reloads, deletes, is_no_removal, Lasts, history,
  Lasts-history,
}
use descarteslabs_python.Catalog.Model.Transaction.{is_handled, set_all, update-set_all}
use descarteslabs_python.Catalog.Model.Saved.{HasId, Accepts, save_reaches_saved}

-- The only type takes every text but "?".
abbrev text_values : Values String ℕ
text_values = record {
  eq = λ a b. a == b;
  is_none = λ a. a == "";
  is_instance = λ t a. not_question a;
  convert = λ t a. ok a;
}
  where
    not_question : String → Bool
    not_question a = elim (a == "?") [ true ↦ false | false ↦ true ]

abbrev attribute : Bool → Bool → Attribute ℕ
attribute mutable serializable = record {
  mutable = mutable;
  serializable = serializable;
  sticky = false;
  readonly = false;
  kind = typed 0 false;
}

abbrev product_types : Dict (Attribute ℕ)
product_types = ("id", attribute false false) ∷ ("name", attribute true true) ∷ []

abbrev answering : Service String
answering = record {
  send = λ r. ok record { id = "org:p"; attributes = r.attributes };
  delete = λ id. ok tt;
}

-- `Product(id="p", name="Product")`
abbrev product : Object String
product = record {
  attributes = ("id", "p") ∷ ("name", "Product") ∷ [];
  modified = "id" ∷ "name" ∷ [];
  saved = false;
  deleted = false;
}

product-IsTracked : IsTracked product_types product
unfolding lookup names
product-IsTracked = record { known = refl; known_modified = refl; tracked = refl }

product_types-HasId : HasId product_types (attribute false false)
unfolding lookup attribute_type
product_types-HasId = record { found = refl; settable = refl; cleared = refl }

answering-Accepts : Accepts text_values (attribute false false) answering
unfolding validate_value
answering-Accepts = record {
  answer = λ r. record { id = "org:p"; attributes = r.attributes };
  answers = λ r. refl;
  takes_id = λ r. refl;
}

-- a service that does not know the object
abbrev forgetful : Service String
forgetful = record { send = λ r. err not_found; delete = λ id. err not_found }

abbrev calls : List (Call String)
calls =
    saves answering []
    ∷ sets "name" "Other"
    ∷ reloads answering
    ∷ updates false (("name", "?") ∷ [])
    ∷ saves forgetful []
    ∷ removes "name"
    ∷ deletes answering
    ∷ sets "name" "Again"
    ∷ []

Lasts-history_example :
    Lasts product_types
      (all is_no_removal calls)
      product
      (history text_values product_types calls product)
Lasts-history_example = Lasts-history text_values product_types calls product

-- the second value is refused
abbrev refused : Dict String
refused = ("name", "Other") ∷ ("id", "q") ∷ []

update-set_all_example :
    update text_values product_types false refused product
    ≡ settle product (set_all text_values product_types refused product)
unfolding set_all is_handled set_attribute
update-set_all_example = update-set_all text_values product_types refused product refl refl

save_reaches_saved_example :
    (o : Object String) × ((save text_values product_types answering [] product ≡ (ok tt, o))
      × (state o ≡ saved_state))
save_reaches_saved_example =
    save_reaches_saved text_values product_types (attribute false false) product_types-HasId
      answering answering-Accepts [] product product-IsTracked refl

-- the object with its name set and deleted again
abbrev without_name : Object String
without_name = record product {
  attributes = ("id", "p") ∷ [];
  modified = "name" ∷ [];
  saved = true;
}

-- Deleting a modified attribute leaves its name behind, for `save` to fall over.
deleted_name :
    (delete_attribute product_types "name" (record product { modified = "name" ∷ []; saved = true })
      ≡ ok without_name)
    × ((save text_values product_types answering [] without_name).0 ≡ err key_error)
unfolding delete_attribute save
deleted_name = (refl, refl)

-- An immutable attribute refuses the value that it has.
same_id : set_attribute text_values product_types "id" "p" product ≡ err validation_error
unfolding set_attribute
same_id = refl
