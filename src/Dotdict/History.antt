-- ===== src/Dotdict/History.antt =====
-- Calls one after the other on a boxed value, and the `asdict` at their end.
use descarteslabs_python.Prelude.{
  ℕ, String, ◌≡◌, refl, sym, ap, ◌∙◌, Bool, true, false, ◌&&◌, Option, none, some, List, [], ◌∷◌,
  map,
}
use descarteslabs_python.Python.Result.{Result}
use descarteslabs_python.Python.Number.{ℤ}
use descarteslabs_python.Dotdict.{
  Error, Answer, Value, other, dict, list, Fields, Items, box, get_field, find_item,
}
use descarteslabs_python.Dotdict.Methods.{
  Method, of_dict, of_list, Step, attribute, index, Outcome, call_on, in_field, in_item, at_step,
  call_at,
}
use descarteslabs_python.Dotdict.Builtin.{gives_default, plain, plain_answer, builtin_at}
use descarteslabs_python.Dotdict.Plain.{plain-box}
use descarteslabs_python.Dotdict.Refines.{call_at-builtin_at}
use descarteslabs_python.Dotdict.Unboxed.{
  after_unbox, plain-after_unbox, unbox, unbox-plain, is_kept, kept_each, kept_all, is_kept-box,
  kept-get_field, kept_each-put_field, split_and,
}
use descarteslabs_python.Dotdict.Kept.{
  is_kept_method, kept-call_dict, kept-call_list, kept_all-put_at, kept-find_item,
}

kept-call_on :
    (m : Method) (v : Value)
    → is_kept_method m ≡ true
    → is_kept v ≡ true
    → is_kept (call_on m v).1 ≡ true
unfolding call_on is_kept
kept-call_on (of_dict m) (other s) a i = i
kept-call_on (of_dict m) (dict true fields) a i = kept-call_dict m fields a i
kept-call_on (of_dict m) (dict false fields) a i = i
kept-call_on (of_dict m) (list b xs) a i = i
kept-call_on (of_list m) (other s) a i = i
kept-call_on (of_list m) (dict b fields) a i = i
kept-call_on (of_list m) (list true xs) a i = kept-call_list m xs i
kept-call_on (of_list m) (list false xs) a i = i

module _ (next : Value → Outcome Value)
    (e : (v : Value) → is_kept v ≡ true → is_kept (next v).1 ≡ true) where
  kept-in_field :
      (k : String) (fields : Fields) (r : Option Value)
      → get_field k fields ≡ r
      → kept_each fields ≡ true
      → is_kept (in_field next k fields r).1 ≡ true
  unfolding in_field is_kept
  kept-in_field k fields none q i = i
  kept-in_field k fields (some v) q i =
      kept_each-put_field k (next (box v)).1 fields i
        (e (box v) (is_kept-box v (kept-get_field k v fields i q)))

  kept-in_item :
      (i : ℤ) (xs : Items) (r : Option (ℕ × Value))
      → find_item i xs ≡ r
      → kept_all xs ≡ true
      → is_kept (in_item next xs r).1 ≡ true
  unfolding in_item is_kept
  kept-in_item i xs none q k = k
  kept-in_item i xs (some (p, v)) q k =
      kept_all-put_at p (next (box v)).1 xs k
        (e (box v) (is_kept-box v (kept-find_item i p v xs k q)))

  kept-at_step :
      (step : Step) (v : Value) → is_kept v ≡ true → is_kept (at_step step next v).1 ≡ true
  unfolding at_step is_kept
  kept-at_step (attribute k) (other s) i = i
  kept-at_step (attribute k) (dict true fields) i = kept-in_field k fields _ refl i
  kept-at_step (attribute k) (dict false fields) i = i
  kept-at_step (attribute k) (list b xs) i = i
  kept-at_step (index n) (other s) i = i
  kept-at_step (index n) (dict b fields) i = i
  kept-at_step (index n) (list true xs) i = kept-in_item n xs _ refl i
  kept-at_step (index n) (list false xs) i = i

kept-call_at :
    (path : List Step) (m : Method) (v : Value)
    → is_kept_method m ≡ true
    → is_kept v ≡ true
    → is_kept (call_at path m v).1 ≡ true
unfolding call_at
kept-call_at [] m v a i = kept-call_on m v a i
kept-call_at (step ∷ path) m v a i =
    kept-at_step (call_at path m) (λ w. kept-call_at path m w a) step v i

-- A call leaves a boxed value boxed.
box-call_on : (m : Method) (v : Value) → box (call_on m (box v)).1 ≡ (call_on m (box v)).1
unfolding call_on box
box-call_on (of_dict m) (other s) = refl
box-call_on (of_dict m) (dict true fields) = refl
box-call_on (of_dict m) (dict false fields) = refl
box-call_on (of_dict m) (list true xs) = refl
box-call_on (of_dict m) (list false xs) = refl
box-call_on (of_list m) (other s) = refl
box-call_on (of_list m) (dict true fields) = refl
box-call_on (of_list m) (dict false fields) = refl
box-call_on (of_list m) (list true xs) = refl
box-call_on (of_list m) (list false xs) = refl

module _ (next : Value → Outcome Value) where
  box-in_field :
      (k : String) (fields : Fields) (r : Option Value)
      → box (in_field next k fields r).1 ≡ (in_field next k fields r).1
  unfolding in_field box
  box-in_field k fields none = refl
  box-in_field k fields (some v) = refl

  box-in_item :
      (xs : Items) (r : Option (ℕ × Value)) → box (in_item next xs r).1 ≡ (in_item next xs r).1
  unfolding in_item box
  box-in_item xs none = refl
  box-in_item xs (some (p, v)) = refl

  box-at_step :
      (step : Step) (v : Value) → box (at_step step next (box v)).1 ≡ (at_step step next (box v)).1
  unfolding at_step box
  box-at_step (attribute k) (other s) = refl
  box-at_step (attribute k) (dict true fields) = box-in_field k fields (get_field k fields)
  box-at_step (attribute k) (dict false fields) = box-in_field k fields (get_field k fields)
  box-at_step (attribute k) (list true xs) = refl
  box-at_step (attribute k) (list false xs) = refl
  box-at_step (index n) (other s) = refl
  box-at_step (index n) (dict true fields) = refl
  box-at_step (index n) (dict false fields) = refl
  box-at_step (index n) (list true xs) = box-in_item xs (find_item n xs)
  box-at_step (index n) (list false xs) = box-in_item xs (find_item n xs)

box-call_at :
    (path : List Step) (m : Method) (v : Value)
    → box (call_at path m (box v)).1 ≡ (call_at path m (box v)).1
unfolding call_at
box-call_at [] m v = box-call_on m v
box-call_at (step ∷ path) m v = box-at_step (call_at path m) step v

abbrev pub Call : Type 0
Call = List Step × Method

abbrev pub Report : Type 0
Report = List (Result Error Answer) × Value

abbrev pub report : Result Error Answer → Report → Report
report answer (answers, v) = (answer ∷ answers, v)

-- what calls return or raise, and the value after them
unfoldable pub history : List Call → Value → Report
unfolding call_at
history [] v = ([], v)
history ((path, m) ∷ calls) v = report (call_at path m v).0 (history calls (call_at path m v).1)

-- the same of the built-in methods
unfoldable pub builtin_history : List Call → Value → Report
unfolding builtin_at
builtin_history [] v = ([], v)
builtin_history ((path, m) ∷ calls) v =
    report (builtin_at path m v).0 (builtin_history calls (builtin_at path m v).1)

abbrev pub are_kept : List Call → Bool
are_kept [] = true
are_kept ((path, m) ∷ calls) = is_kept_method m && are_kept calls

abbrev pub give_defaults : List Call → Bool
give_defaults [] = true
give_defaults ((path, m) ∷ calls) = gives_default m && give_defaults calls

-- the answers with plain containers, and the `asdict` of the value
abbrev pub read : Report → Report
read (answers, v) = (map plain_answer answers, unbox v)

read-report :
    (answer : Result Error Answer) (r : Report)
    → read (report answer r) ≡ report (plain_answer answer) (read r)
read-report answer (answers, v) = refl

read-builtin_history :
    (calls : List Call) (v : Value)
    → are_kept calls ≡ true
    → give_defaults calls ≡ true
    → is_kept v ≡ true
    → read (history calls (box v)) ≡ builtin_history calls (plain v)
unfolding history builtin_history
read-builtin_history [] v a g i =
    ap (λ w. ([], w)) (unbox-plain (box v) (is_kept-box v i) ∙ plain-box v)
read-builtin_history ((path, m) ∷ calls) v a g i =
    let r = split_and (is_kept_method m) (are_kept calls) a in
    let s = split_and (gives_default m) (give_defaults calls) g in
    let o : Outcome Value = call_at path m (box v) in
    read-report o.0 (history calls o.1)
    ∙ ap (λ x. report (plain_answer o.0) (read (history calls x))) (sym (box-call_at path m v))
    ∙ ap (report (plain_answer o.0))
        (read-builtin_history calls o.1 r.1 s.1 (kept-call_at path m (box v) r.0 (is_kept-box v i)))
    ∙ ap (λ x. report x.0 (builtin_history calls x.1)) (call_at-builtin_at path m v s.0)

-- A history of calls at the end of chains of attributes and indices, on `DotDict(v)` or
-- `DotList(v)`, in which each `pop` of a dictionary is given its default: when `v` and what the calls
-- store hold no boxed container inside a plain one, the calls return and raise what the built-in
-- methods do on the value with plain containers; `asdict` gives what those methods leave; and
-- `asdict`, which boxes the items of lists where they stand, changes nothing that can be read.
pub history-builtin_history :
    (calls : List Call) (v : Value)
    → are_kept calls ≡ true
    → give_defaults calls ≡ true
    → is_kept v ≡ true
    → (read (history calls (box v)) ≡ builtin_history calls (plain v))
      × (plain (after_unbox (history calls (box v)).1) ≡ plain (history calls (box v)).1)
history-builtin_history calls v a g i =
    (read-builtin_history calls v a g i, plain-after_unbox (history calls (box v)).1)
