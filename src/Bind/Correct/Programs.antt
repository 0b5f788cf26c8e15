-- ===== src/Bind/Correct/Programs.antt =====
-- src/bind/binder.cc: the visits of expressions and of whole programs.
use tiger_compilor.Prelude.{refl, none, ◌++◌}
use tiger_compilor.Misc.ScopedMap.{get, lookup}
use tiger_compilor.Ast.Syntax.{Exp, Chunks}
use tiger_compilor.Ast.Visitor.{accept, accept_exp}
use tiger_compilor.Ast.Laws.{Laws}
use tiger_compilor.Ast.Related.{accept-Related, accept_exp-Related}
use tiger_compilor.Ast.Default
use tiger_compilor.Bind.State.{State, init}
use tiger_compilor.Bind.Binder.{binder}
use tiger_compilor.Bind.Scoping.{Env, scoping, pure, each_use, use_if_present}
use tiger_compilor.Bind.Frames.{
  view, IsReady, Uses, Declares, Runs, DeclaresVars-Declares, Runs-map,
}
use tiger_compilor.Bind.Correct.Uses.{
  BindsUses, skip-BindsUses, ⨾-BindsUses, each-BindsUses, if_present-BindsUses,
  simple_var-BindsUses, name_ty-BindsUses, call_exp-BindsUses, break_exp-BindsUses,
}
use tiger_compilor.Bind.Correct.Declares.{Binds, BindsVars, each-Binds}
use tiger_compilor.Bind.Correct.Decs.{var_dec-BindsVars, type_dec-Binds}
use tiger_compilor.Bind.Correct.Scopes.{let_exp-BindsUses, while_exp-BindsUses, for_exp-BindsUses}
use tiger_compilor.Bind.Correct.Functions.{function_dec-Binds}
use tiger_compilor.Bind.Correct.Chunks.{function_chunk-Binds, type_chunk-Binds, var_chunk-BindsVars}

binder-Laws : Laws BindsUses BindsUses BindsVars Binds binder scoping
unfolding Default.field_var Default.subscript_var Default.nil_exp Default.int_exp Default.string_exp
    Default.op_exp Default.record_exp Default.field_init Default.seq_exp Default.assign_exp
    Default.if_exp Default.array_exp Default.cast_exp Default.chunk_list Default.record_ty
    Default.array_ty Default.field
binder-Laws = record {
  simple_var = simple_var-BindsUses;
  field_var = λ n x a b h. h;
  subscript_var = λ n a c b d h k. ⨾-BindsUses a c b d h k;
  nil_exp = λ n. skip-BindsUses;
  int_exp = λ n k. skip-BindsUses;
  string_exp = λ n x. skip-BindsUses;
  call_exp = call_exp-BindsUses;
  op_exp = λ n o a c b d h k. ⨾-BindsUses a c b d h k;
  record_exp = λ n a b xs ys h hs.
      ⨾-BindsUses a (Default.each xs) b (pure (each_use ys)) h (each-BindsUses xs ys hs);
  field_init = λ n x a b h. h;
  seq_exp = λ n xs ys hs. each-BindsUses xs ys hs;
  assign_exp = λ n a c b d h k. ⨾-BindsUses a c b d h k;
  if_exp = λ n a c b d x y h k j. ⨾-BindsUses a _ b (pure λ ρ. (d ρ).1 ++ use_if_present y ρ) h (
      ⨾-BindsUses c (Default.if_present x) d (pure (use_if_present y)) k
        (if_present-BindsUses x y j));
  while_exp = λ n a c b d h k. while_exp-BindsUses n a c b d h k;
  for_exp = λ n a c x b d y h k j. for_exp-BindsUses n a c x b d y h k j;
  break_exp = break_exp-BindsUses;
  let_exp = λ n a c b d h k. let_exp-BindsUses n a c b d h k;
  array_exp = λ n a c x b d y h k j.
      ⨾-BindsUses a _ b (pure λ ρ. (d ρ).1 ++ (y ρ).1) h (⨾-BindsUses c x d y k j);
  cast_exp = λ n a c b d h k. ⨾-BindsUses a c b d h k;
  chunk_list = each-Binds;
  var_chunk = var_chunk-BindsVars;
  weaken = λ a b h s ρ r. Runs-map (a s) (h s ρ r) λ t d. DeclaresVars-Declares r d;
  function_chunk = function_chunk-Binds;
  type_chunk = type_chunk-Binds;
  var_dec = λ n x a c b d h k. var_dec-BindsVars n x a c b d h k;
  function_dec = λ n x f g a c b d h k j. function_dec-Binds n x f g a c b d h k j;
  type_dec = type_dec-Binds;
  name_ty = name_ty-BindsUses;
  record_ty = λ n xs ys hs. each-BindsUses xs ys hs;
  array_ty = λ n a b h. h;
  field = λ n x a b h. h;
}

-- In a state whose scopes stand for an environment, the visit of an expression ends without an
-- exception, binds the uses of names that the rules of scope give, in their order, and leaves
-- every scope and the stack of loops as they were.
pub accept_exp-Scoping :
    (e : Exp) (s : State) (ρ : Env)
    → IsReady (view s) ρ
    → Runs (accept_exp binder e s) λ t. Uses (view s) (accept_exp scoping e ρ).1 (view t)
accept_exp-Scoping e = accept_exp-Related binder-Laws e

abbrev pub no_names : Env
no_names = record { functions = λ x. none; variables = λ x. none; types = λ x. none }

pub init-IsReady : IsReady (view init) no_names
unfolding get lookup
init-IsReady = record {
  functions = refl;
  variables = refl;
  types = refl;
  sees = record { functions = λ x. refl; variables = λ x. refl; types = λ x. refl };
}

-- From the fresh binder, the visit of a whole program ends without an exception; it binds exactly
-- the uses that the rules of scope give, in their order; no loop is left open; and the scopes
-- hold the declarations of the outermost level.
pub accept-Scoping :
    (p : Chunks)
    → Runs (accept binder p init) λ t.
      Declares (view init) (accept scoping p no_names).0 (accept scoping p no_names).1 (view t)
accept-Scoping p = accept-Related binder-Laws p init no_names init-IsReady
