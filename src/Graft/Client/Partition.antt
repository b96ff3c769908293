-- ===== src/Graft/Client/Partition.antt =====
-- `function_graft` of graft/client/client.py: where the keys of a value graft go.
use text.Mathlib.TextPositions.{eq_refl}
use mathlib.Core.Path.{subst}
use descarteslabs_python.Prelude.{
  ℕ, ◌+◌, String, ◌≡◌, refl, ap, ◌∙◌, Bool-cases, inl, inr, true, false, ◌&&◌, Option, none, some,
  List, arith, ◌==◌, if◌then◌else◌,
}
use descarteslabs_python.Python.Number.{ℤ, str_of_ℕ, int_of_str}
use descarteslabs_python.Python.Result.{ok}
use descarteslabs_python.Graft.Value.{Value, str, seq, dict, Items, Fields, end, field}
use descarteslabs_python.Graft.Fields.{get, has, put, has-get, get-put, has-put}
use descarteslabs_python.Graft.Syntax.{is_params}
use descarteslabs_python.Graft.Client.{Guids, guid, graft_is_function_graft, graft_of, as_graft}
use descarteslabs_python.Graft.Client.Fresh.{Below, parameters-ne-str_of_ℕ, returns-ne-str_of_ℕ}
use descarteslabs_python.Graft.Client.Functions.{
  is_outer_scope, outer_fields, inner_fields, param_list, split_scope, parsed_guid, enclose,
  function_graft,
}
use descarteslabs_python.Graft.Client.Outer.{
  get-outer_fields, get-inner_fields, inner_value_graft, reserved_stay, outer-ne, old-ne,
  outer_value_graft,
}

-- The graft of the function itself: `r`, or the sub-graft that `r` returns.
abbrev pub sub_graft : Option Value → Option Fields
sub_graft (some (dict d)) = some d
sub_graft _ = none

abbrev pub named_by : Fields → Option Value → Option Fields
named_by r (some (str k)) = sub_graft (get k r)
named_by r _ = none

unfoldable pub function_body : Fields → Option Fields
function_body r = if has "parameters" r then some r else named_by r (get "returns" r)

-- Where the keys of a value graft `d` are in the function graft `r`.
pub record Splits (params : Items) (g : ℤ) (d r : Fields) : Type 0 where
  pub body : Fields
  pub found : function_body r ≡ some body
  pub inner :
      (k : String)
      → get k body ≡ (
          if "parameters" == k
          then some (seq params)
          else if is_outer_scope k g
          then none
          else get k d)
  pub outer :
      (k : String)
      → (if is_outer_scope k g && has k d then get k r else none)
        ≡ (if is_outer_scope k g then get k d else none)

module _ (params : Items) (g : ℤ) (d : Fields) where
  abbrev new_body : Fields
  new_body = put "parameters" (seq params) (inner_fields g d)

  get-new_body :
      (k : String)
      → get k new_body ≡ (
          if "parameters" == k
          then some (seq params)
          else if is_outer_scope k g
          then none
          else get k d)
  get-new_body k =
      get-put "parameters" k (seq params) (inner_fields g d)
      ∙ ap (λ o. if "parameters" == k then some (seq params) else o) (get-inner_fields g k d)

  outer_part :
      (k : String) (r : Fields)
      → (has k d ≡ true → is_outer_scope k g ≡ true → get k r ≡ get k d)
      → (if is_outer_scope k g && has k d then get k r else none)
        ≡ (if is_outer_scope k g then get k d else none)
  outer_part k r h = elim (Bool-cases (is_outer_scope k g)) [
    | inr o ↦ rw o refl
    | inl o ↦ elim (Bool-cases (has k d)) [
      | inl here ↦ rw (o, here) (h here o)
      | inr gone ↦ rw (o, gone) (ground (arith, has-get k d))
    ]
  ]

  -- No field is moved out.
  Splits-whole : outer_fields g d ≡ end → Splits params g d new_body
  unfolding function_body get
  Splits-whole e = record {
    body = new_body;
    found = rw has-put;
    inner = get-new_body;
    outer = λ k.
        outer_part k new_body
          λ here o. absurd (ground (arith, has-get k d, get-outer_fields g k d, ap (get k) e));
  }

  -- Some are, into a scope that calls the function under a new key.
  Splits-part :
      (n : ℕ)
      → Below n d
      → Splits params g d
          (put "returns" (str (str_of_ℕ n)) (put (str_of_ℕ n) (dict new_body) (outer_fields g d)))
  unfolding function_body
  Splits-part n old = record {
    body = new_body;
    found = rw (
      has-put,
      has-put,
      parameters-ne-str_of_ℕ n,
      outer_value_graft g d,
      get-put,
      get-put,
      returns-ne-str_of_ℕ n,
      get-put,
      eq_refl (str_of_ℕ n),
    );
    inner = get-new_body;
    outer = λ k. outer_part k _ λ here o. rw (
      get-put,
      outer-ne g "returns" k (reserved_stay g).1 o,
      get-put,
      old-ne n d k old here,
      get-outer_fields,
      o,
    );
  }

  enclose-end :
      (s : Guids)
      → has "parameters" d ≡ false
      → enclose params (end, inner_fields g d) s ≡ (ok new_body, s)
  unfolding enclose graft_is_function_graft
  enclose-end s value = rw (inner_value_graft g d value) refl

  enclose-field :
      (k : String) (v : Value) (o : Fields) (s : Guids)
      → has "parameters" d ≡ false
      → enclose params (field k v o, inner_fields g d) s ≡ (
        ok (
            put "returns"
              (str (str_of_ℕ s.next))
              (put (str_of_ℕ s.next) (dict new_body) (field k v o))),
        record s { next = s.next + 1 },
      )
  unfolding enclose graft_is_function_graft guid
  enclose-field k v o s value = rw (inner_value_graft g d value) refl

  enclose-Splits :
      (s : Guids)
      → has "parameters" d ≡ false
      → Below s.next d
      → (r : Fields) × (s' : Guids) × (enclose params (outer_fields g d, inner_fields g d) s
          ≡ (ok r, s'))
        × Splits params g d r
  enclose-Splits s value old = go (outer_fields g d) refl
    where
      put_back : Fields → Fields
      put_back o = put "returns" (str (str_of_ℕ s.next)) (put (str_of_ℕ s.next) (dict new_body) o)

      go :
          (o : Fields)
          → outer_fields g d ≡ o
          → (r : Fields) × (s' : Guids) × (enclose params (outer_fields g d, inner_fields g d) s
              ≡ (ok r, s'))
            × Splits params g d r
      go end same = (new_body, s, rw same (enclose-end s value), Splits-whole same)
      go (field k v o) same = (
        put_back (field k v o),
        record s { next = s.next + 1 },
        rw same (enclose-field k v o s value),
        subst (Splits params g d) (ap put_back same) (Splits-part s.next old),
      )

parsed_guid-some : (t : String) (g : ℤ) → int_of_str t ≡ some g → parsed_guid (some t) ≡ ok tt
unfolding parsed_guid
parsed_guid-some t g e = rw (e, parsed_guid) refl

split_scope-some :
    (t : String) (g : ℤ) (d : Fields)
    → int_of_str t ≡ some g
    → split_scope (some t) d ≡ ok (outer_fields g d, inner_fields g d)
unfolding split_scope
split_scope-some t g d e = rw (e, split_scope) refl

pub graft_of-dict :
    (d : Fields) (s : Guids) → has "returns" d ≡ true → graft_of (dict d) s ≡ (ok d, s)
unfolding graft_of as_graft
graft_of-dict d s e = rw (e, graft_of, as_graft) refl

-- `function_graft` of a value graft `d`, parameters that make a valid list of names and a
-- `first_guid` that is the number `g`, with the counter past every key of `d`: it does not raise,
-- and in what it returns the function's own graft has these parameters and exactly the keys of `d`
-- that do not belong to an outer scope, with their expressions; every key of `d` that does belong
-- to an outer scope is found with its expression in the scope around it.
pub function_graft-Splits :
    (d : Fields) (ps : List Value) (t : String) (g : ℤ) (s : Guids)
    → has "returns" d ≡ true
    → has "parameters" d ≡ false
    → is_params (seq (param_list ps)) ≡ true
    → int_of_str t ≡ some g
    → Below s.next d
    → (r : Fields) × (s' : Guids) × (function_graft (dict d) ps (some t) s ≡ (ok r, s'))
      × Splits (param_list ps) g d r
unfolding function_graft
function_graft-Splits d ps t g s graft value valid number old =
    let (r, s', e, split) = enclose-Splits (param_list ps) g d s value old in
    (
      r,
      s',
      rw
          (
            parsed_guid-some t g number,
            valid,
            graft_of-dict d s graft,
            split_scope-some t g d number,
          )
          e,
      split,
    )
