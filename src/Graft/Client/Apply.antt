-- ===== src/Graft/Client/Apply.antt =====
-- The graft that `apply_graft` of graft/client/client.py returns.
use text.Mathlib.TextPositions.{eq_refl}
use mathlib.Core.Path.{subst}
use descarteslabs_python.Prelude.{
  ℕ, ◌+◌, ◌≤◌, ◌<◌, String, ◌≡◌, refl, ◌∙◌, some, List, length, arith,
}
use descarteslabs_python.Python.Number.{str_of_ℕ}
use descarteslabs_python.Python.Result.{ok, ◌>>=◌, map_action}
use descarteslabs_python.Python.Result.Ensures.{
  Ensures, returns, Ensures-ok, Ensures-bind, Ensures-run, Ensures-weaken,
}
use descarteslabs_python.Graft.Value.{Value, str, seq, Items, cons, Fields}
use descarteslabs_python.Graft.Fields.{get, put, get-put}
use descarteslabs_python.Graft.Client.{
  Guids, graft_of, kwarg_names, function_part, add_positional, add_named, with_named, undelayed,
  insert_call, call_graft, named_graft_of, apply_graft,
}
use descarteslabs_python.Graft.Client.Fresh.{
  Below, Below-mono, Below-put_new, Below-put_returns, returns-ne-str_of_ℕ,
}
use descarteslabs_python.Graft.Client.Keys.{
  IsOld, All, All-map, IsOld-mono, args-Built, values, grafts, named_args-Built,
}
use descarteslabs_python.Graft.Client.Refers.{
  Kept, Kept-put_new, Kept-put_returns, AllRefer, NamedRefer, AllRefer-Kept, NamedRefer-Kept,
  positional-Adds, named-Adds,
}
use descarteslabs_python.Graft.Client.Parts.{
  IsOld-undelayed, CallsFunction, CallsFunction-Kept, Begins, function_part-Begins,
}

-- `d` returns a new key, which stands for the call: the key of the function, then one for each
-- positional argument, then those of the named ones.
pub record ReturnsCall (n : ℕ) (function : Value) (pos : List Fields)
    (named : List (String × Fields)) (d : Fields) (s : Guids) : Type 0 where
  pub key : ℕ
  pub function_key : Value
  pub positional : Items
  pub keywords : Fields
  pub new : n ≤ key
  pub handed_out : key < s.next
  pub returned : get "returns" d ≡ some (str (str_of_ℕ key))
  pub bound : get (str_of_ℕ key) d ≡ some (seq (with_named (cons function_key positional) keywords))
  pub calls : CallsFunction n s.next d function function_key
  pub positional_refer : AllRefer n s.next d pos positional
  pub keywords_refer : NamedRefer n s.next d named keywords
  pub old : Below s.next d

-- The call of a function on the grafts of its arguments, which are made first.
pub record IsCall (function : Value) (args : List Value) (kwargs : List (String × Value))
    (s : Guids) (d : Fields) (s' : Guids) : Type 0 where
  pub pos : List Fields
  pub named : List (String × Fields)
  pub between : Guids
  pub after : Guids
  pub pos_grafts : map_action graft_of args s ≡ (ok pos, between)
  pub named_grafts : map_action named_graft_of kwargs between ≡ (ok named, after)
  pub grown : s.next ≤ after.next
  pub call : ReturnsCall after.next (undelayed function) pos named d s'

insert_call-ReturnsCall :
    (n : ℕ) (function : Value) (pos : List Fields) (named : List (String × Fields)) (d : Fields)
    (f : Value) (ps : Items) (ns : Fields) (s : Guids)
    → n ≤ s.next
    → Below s.next d
    → CallsFunction n s.next d function f
    → AllRefer n s.next d pos ps
    → NamedRefer n s.next d named ns
    → Ensures
        (ReturnsCall n function pos named)
        (insert_call d f ps ns s).0
        (insert_call d f ps ns s).1
unfolding insert_call
insert_call-ReturnsCall n function pos named d f ps ns s le old hf hp hn =
    let call = seq (with_named (cons f ps) ns) in
    let e = put (str_of_ℕ s.next) call d in
    let up : s.next ≤ s.next + 1 = omega arith in
    let kept : Kept n s.next d (put "returns" (str (str_of_ℕ s.next)) e) = λ i lo hi.
      Kept-put_returns n s.next (str (str_of_ℕ s.next)) e i lo hi
      ∙ Kept-put_new n s.next call d i lo hi in
    returns (record {
      key = s.next;
      function_key = f;
      positional = ps;
      keywords = ns;
      new = le;
      handed_out = omega arith;
      returned = rw get-put;
      bound = rw (get-put, returns-ne-str_of_ℕ s.next, get-put, eq_refl (str_of_ℕ s.next));
      calls = CallsFunction-Kept n s.next (s.next + 1) d _ function f up kept hf;
      positional_refer = AllRefer-Kept n s.next (s.next + 1) d _ pos ps up kept hp;
      keywords_refer = NamedRefer-Kept n s.next (s.next + 1) d _ named ns up kept hn;
      old =
          Below-put_returns (s.next + 1) (str (str_of_ℕ s.next)) e
            (Below-put_new s.next call d old);
    })

call_graft-ReturnsCall :
    (n : ℕ) (function : Value) (begun : Fields × Value) (pos : List Fields)
    (named : List (String × Fields)) (s : Guids)
    → Begins n function begun.0 begun.1 s
    → All (Below n) pos
    → All (Below n) (grafts named)
    → Ensures
        (ReturnsCall n function pos named)
        (call_graft begun pos named s).0
        (call_graft begun pos named s).1
unfolding call_graft
call_graft-ReturnsCall n function begun pos named s b hp hn =
    Ensures-bind (add_positional begun.0 pos)
      (λ r. add_named r.0 named >>= λ q. insert_call q.0 begun.1 r.1 q.1) s
      (positional-Adds n begun.0 pos s b.grown b.old hp)
      λ r s₁ p.
        Ensures-bind (add_named r.0 named) (λ q. insert_call q.0 begun.1 r.1 q.1) s₁
          (named-Adds n r.0 named s₁ (omega (arith, b.grown, p.0.grown)) p.0.old hn)
          λ q s₂ c.
            insert_call-ReturnsCall n function pos named q.0 begun.1 r.1 q.1 s₂
              (omega (arith, b.grown, p.0.grown, c.0.grown)) c.0.old
              (CallsFunction-Kept n s₁.next s₂.next r.0 q.0 function begun.1 c.0.grown c.0.kept (
                CallsFunction-Kept n s.next s₁.next begun.0 r.0 function begun.1 p.0.grown p.0.kept
                  b.calls))
              (AllRefer-Kept n s₁.next s₂.next r.0 q.0 pos r.1 c.0.grown c.0.kept p.1) c.1

apply_graft-Ensures :
    (function : Value) (args : List Value) (kwargs : List (String × Value)) (s : Guids)
    → IsOld s.next function
    → All (IsOld s.next) args
    → All (IsOld s.next) (values kwargs)
    → Ensures
        (IsCall function args kwargs s)
        (apply_graft function args kwargs s).0
        (apply_graft function args kwargs s).1
unfolding apply_graft
apply_graft-Ensures function args kwargs s hf ha hk =
    let f = undelayed function in
    let n = length args in
    let names = kwarg_names kwargs in
    Ensures-bind (map_action graft_of args)
      (λ ps. map_action named_graft_of kwargs >>= λ ns.
        function_part f n names >>= λ c. call_graft c ps ns)
      s (Ensures-run (map_action graft_of args) s (args-Built args s ha))
      λ ps s₁ bp.
        Ensures-bind (map_action named_graft_of kwargs)
          (λ ns. function_part f n names >>= λ c. call_graft c ps ns) s₁
          (Ensures-run (map_action named_graft_of kwargs) s₁ (
            named_args-Built kwargs s₁ (
              All-map (IsOld s.next) (IsOld s₁.next) (values kwargs)
                (λ x. IsOld-mono s.next s₁.next x bp.1.grown) hk)))
          λ ns s₂ bn.
            let le : s.next ≤ s₂.next = omega (arith, bp.1.grown, bn.1.grown) in
            Ensures-bind (function_part f n names) (λ c. call_graft c ps ns) s₂
              (function_part-Begins f n names s₂
                (IsOld-undelayed s₂.next function (IsOld-mono s.next s₂.next function le hf)))
              λ c s₃ b.
                Ensures-weaken (call_graft c ps ns s₃).0 (call_graft c ps ns s₃).1
                  (λ d s₄ call. record {
                    pos = ps;
                    named = ns;
                    between = s₁;
                    after = s₂;
                    pos_grafts = bp.0;
                    named_grafts = bn.0;
                    grown = le;
                    call = call;
                  })
                  (call_graft-ReturnsCall s₂.next f c ps ns s₃ b
                    (All-map (Below s₁.next) (Below s₂.next) ps
                      (λ d. Below-mono s₁.next s₂.next d bn.1.grown) bp.1.old)
                    bn.1.old)

-- When the keys of the grafts of the function and the arguments that read as numbers are smaller than
-- the counter, and `apply_graft` returns: the graft's "returns" is a key that `guid` handed out after
-- the grafts of all the arguments, positional then named, were made, and under it stands the call. Its
-- function (of a delayed one, its graft) is the text that was given, or the key that a value graft
-- returns, or a new key under which the function graft stands. Then comes for each positional
-- argument, in their order, and for each named one, under its name, the key that its value graft
-- returns, or a new key under which its function graft stands. All the keys of the graft that read as
-- numbers are smaller than the counter afterwards.
pub apply_graft-IsCall :
    (function : Value) (args : List Value) (kwargs : List (String × Value)) (s s' : Guids)
    (d : Fields)
    → IsOld s.next function
    → All (IsOld s.next) args
    → All (IsOld s.next) (values kwargs)
    → apply_graft function args kwargs s ≡ (ok d, s')
    → IsCall function args kwargs s d s'
apply_graft-IsCall function args kwargs s s' d hf ha hk e =
    Ensures-ok
      (subst (λ r. Ensures (IsCall function args kwargs s) r.0 r.1) e
        (apply_graft-Ensures function args kwargs s hf ha hk))
      refl
