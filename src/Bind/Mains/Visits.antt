-- ===== src/Bind/Mains/Visits.antt =====
-- src/bind/binder.cc: each visit of the binder counts the functions named `_main` below it.
use tiger_compilor.Prelude.{
  ℕ, ◌+◌, String, ◌≡◌, true, false, Option, some, List, [], str_eq, arith, All₂, Both,
}
use tiger_compilor.Ast.Syntax.{Node, Chunks}
use tiger_compilor.Ast.Visitor.{accept}
use tiger_compilor.Ast.Default.{Action, skip, ◌⨾◌, each, if_present, each_decl}
use tiger_compilor.Ast.Default
use tiger_compilor.Ast.Laws.{Laws}
use tiger_compilor.Ast.Related.{accept-Related}
use tiger_compilor.Ast.Summary.{joined, joined_option, each-joined, if_present-joined, default-Laws}
use tiger_compilor.Bind.State.{
  redeclared_formal, redeclared_function, redeclared_type, State, init, put_function, put_type,
  begin_variables, end_variables, set_in_loop, push_loop, pop_loop,
}
use tiger_compilor.Bind.Binder.{
  call_exp, check_main, function_dec, type_dec, var_dec, let_exp, for_exp, while_exp, type_chunk,
  function_chunk, var_chunk, binder,
}
use tiger_compilor.Bind.Mains.{
  number, mains, Counts, skip-Counts, ⨾-Counts, Counts-Closed, before-Counts, after-Counts,
  pop_loop-Counts, put_function-Counts, put_variable-Counts, put_type-Counts, end_functions-Counts,
  end_variables-Counts, end_types-Counts, begin_functions-Counts, begin_variables-Counts,
  begin_types-Counts, set_in_formals-Counts, set_in_vardec-Counts, set_in_loop-Counts,
  push_loop-Counts,
}
use tiger_compilor.Bind.Mains.Checks.{
  break_exp-Counts, bind_function-Counts, simple_var-Counts, name_ty-Counts, check_main-Counts,
  chunk-Counts,
}

call_exp-Counts :
    (n : Node) (x : String) (as_ : List (Action State)) (ks : List ℕ)
    → All₂ Counts as_ ks
    → Counts (call_exp n x as_) (joined 0 ◌+◌ ks)
unfolding call_exp
call_exp-Counts n x as_ ks h =
    let k = joined 0 ◌+◌ ks in
    before-Counts k (bind_function-Counts n x) (
      before-Counts k (set_in_formals-Counts true)
        (after-Counts k (each-joined 0 ◌+◌ Counts-Closed as_ ks h) (set_in_formals-Counts false)))

function_dec-Counts :
    (n : Node) (x : String) (f : Action State) (j : ℕ) (a c : Option (Action State))
    (k l : Option ℕ)
    → Counts f j
    → Both Counts a k
    → Both Counts c l
    → Counts (function_dec n x f a c) (mains.function_dec n x j k l)
unfolding function_dec
function_dec-Counts n x f j a c k l h p q =
    let k' = joined_option 0 ◌+◌ k in
    let l' = joined_option 0 ◌+◌ l in
    let inside = j + (k' + l') in
    ⨾-Counts (check_main n x) _ (number (str_eq x "_main")) inside (check_main-Counts n x) (
      before-Counts inside (put_function-Counts x n) (
        before-Counts inside begin_functions-Counts (
          before-Counts inside begin_variables-Counts (
            before-Counts inside (set_in_formals-Counts true) (
              ⨾-Counts f _ j (k' + l') h (
                before-Counts (k' + l') (set_in_formals-Counts false) (
                  ⨾-Counts (if_present a) _ k' l' (if_present-joined 0 ◌+◌ Counts-Closed a k p) (
                    after-Counts l' (if_present-joined 0 ◌+◌ Counts-Closed c l q)
                      (before-Counts 0 end_functions-Counts end_variables-Counts)))))))))

var_dec-Counts :
    (n : Node) (x : String) (a c : Option (Action State)) (k l : Option ℕ)
    → Both Counts a k
    → Both Counts c l
    → Counts (var_dec n x a c) (mains.var_dec n x k l)
unfolding var_dec
var_dec-Counts n x a c k l p q =
    let k' = joined_option 0 ◌+◌ k in
    let l' = joined_option 0 ◌+◌ l in
    before-Counts (k' + l') (put_variable-Counts x n) (
      ⨾-Counts (if_present a) _ k' l' (if_present-joined 0 ◌+◌ Counts-Closed a k p) (
        before-Counts l' (set_in_vardec-Counts true) (
          after-Counts l' (if_present-joined 0 ◌+◌ Counts-Closed c l q)
            (set_in_vardec-Counts false))))

let_exp-Counts :
    (n : Node) (a b : Action State) (j k : ℕ)
    → Counts a j
    → Counts b k
    → Counts (let_exp n a b) (j + k)
unfolding let_exp Default.let_exp
let_exp-Counts n a b j k h l = before-Counts (j + k) begin_functions-Counts (
    before-Counts (j + k) begin_variables-Counts (
      before-Counts (j + k) begin_types-Counts (
        after-Counts (j + k) (⨾-Counts a b j k h l) (
          before-Counts 0 end_functions-Counts
            (before-Counts 0 end_variables-Counts end_types-Counts)))))

-- the ends of a loop
loop-Counts :
    (n : Node) (a b : Action State) (j k : ℕ)
    → Counts a j
    → Counts b k
    → Counts
        (begin_variables
          ⨾ push_loop n.address
          ⨾ set_in_loop true
          ⨾ a
          ⨾ set_in_loop false
          ⨾ b
          ⨾ end_variables
          ⨾ pop_loop)
        (j + k)
loop-Counts n a b j k h l = before-Counts (j + k) begin_variables-Counts (
    before-Counts (j + k) (push_loop-Counts n.address) (
      before-Counts (j + k) (set_in_loop-Counts true) (
        ⨾-Counts a _ j k h (
          before-Counts k (set_in_loop-Counts false)
            (after-Counts k l (before-Counts 0 end_variables-Counts pop_loop-Counts))))))

for_exp-Counts :
    (n : Node) (a b c : Action State) (j k l : ℕ)
    → Counts a j
    → Counts b k
    → Counts c l
    → Counts (for_exp n a b c) (j + (k + l))
unfolding for_exp
for_exp-Counts n a b c j k l p q r = before-Counts (j + (k + l)) begin_variables-Counts (
    before-Counts (j + (k + l)) (push_loop-Counts n.address) (
      before-Counts (j + (k + l)) (set_in_loop-Counts true) (
        ⨾-Counts a _ j (k + l) p (
          ⨾-Counts b _ k l q (
            before-Counts l (set_in_loop-Counts false)
              (after-Counts l r (before-Counts 0 end_variables-Counts pop_loop-Counts)))))))

while_exp-Counts :
    (n : Node) (a b : Action State) (j k : ℕ)
    → Counts a j
    → Counts b k
    → Counts (while_exp n a b) (j + k)
unfolding while_exp
while_exp-Counts n a b j k h l = loop-Counts n a b j k h l

binder-Laws : Laws Counts Counts Counts Counts binder mains
unfolding type_dec type_chunk function_chunk var_chunk Default.type_dec
binder-Laws =
    let d = default-Laws 0 ◌+◌ Counts-Closed in
    record {
      simple_var = simple_var-Counts;
      field_var = d.field_var;
      subscript_var = d.subscript_var;
      nil_exp = d.nil_exp;
      int_exp = d.int_exp;
      string_exp = d.string_exp;
      call_exp = call_exp-Counts;
      op_exp = d.op_exp;
      record_exp = d.record_exp;
      field_init = d.field_init;
      seq_exp = d.seq_exp;
      assign_exp = d.assign_exp;
      if_exp = d.if_exp;
      while_exp = while_exp-Counts;
      for_exp = for_exp-Counts;
      break_exp = break_exp-Counts;
      let_exp = let_exp-Counts;
      array_exp = d.array_exp;
      cast_exp = d.cast_exp;
      chunk_list = d.chunk_list;
      var_chunk = λ n. chunk-Counts n redeclared_formal (λ x m. skip) (λ x m. skip-Counts);
      weaken = d.weaken;
      function_chunk = λ n. chunk-Counts n redeclared_function put_function put_function-Counts;
      type_chunk = λ n. chunk-Counts n redeclared_type put_type put_type-Counts;
      var_dec = var_dec-Counts;
      function_dec = function_dec-Counts;
      type_dec = λ n x a k h. before-Counts k (put_type-Counts x n) h;
      name_ty = name_ty-Counts;
      record_ty = d.record_ty;
      array_ty = d.array_ty;
      field = d.field;
    }

-- When the visit of a program by the fresh binder returns without an error, the flag is set if the
-- program declares one function named `_main`, and not if it declares none; there are no more.
pub accept-Counts :
    (p : Chunks) (t : State)
    → accept binder p init ≡ some t
    → t.errors ≡ []
    → accept mains p ≡ number t.is_main_defined
accept-Counts p t e h = omega (arith, (accept-Related binder-Laws p init t e h).1)
