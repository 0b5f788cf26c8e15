-- ===== src/Printer/Kept.antt =====
-- src/ast/pretty-printer.cc: what the actions of the printer keep.
use text.Mathlib.TextLemmas.{append_assoc, append-nil}
use tiger_compilor.Prelude.{
  ℕ, suc, ◌-◌, String, str_append, ◌≡◌, refl, sym, ap, ◌∙◌, Bool, true, false, ◌&&◌, Option, some,
  List, [], ◌∷◌, if◌then◌else◌, arith,
}
use tiger_compilor.Misc.Indent.{write, spaces}
use tiger_compilor.Misc.Indent
use tiger_compilor.Ast.Syntax.{Node}
use tiger_compilor.Ast.Default.{Action, skip, ◌⨾◌}
use tiger_compilor.Printer.Actions.{
  State, print, incindent, decindent, iendl, indented, set_in_varchunk, set_in_funcvar, between,
  if_any, Display, binding, dec, escaping,
}

-- The level of indentation is the same, flags that were not set are not set, and text is added.
pub record Kept (s t : State) : Type 0 where
  pub level : t.stream.indent ≡ s.stream.indent
  pub varchunk : s.in_varchunk ≡ false → t.in_varchunk ≡ false
  pub funcvar : s.in_funcvar ≡ false → t.in_funcvar ≡ false
  pub added : (x : String) × (t.stream.text ≡ str_append s.stream.text x)

-- From any state the action ends, with no precondition broken.
pub record Prints (a : Action State) : Type 0 where
  pub run : (s : State) → (t : State) × (a s ≡ some t) × Kept s t

nothing-added : (x : String) → (y : String) × (x ≡ str_append x y)
nothing-added x = ("", sym (append-nil x))

both-added :
    (x y z : String)
    → (v : String) × (y ≡ str_append x v)
    → (w : String) × (z ≡ str_append y w)
    → (u : String) × (z ≡ str_append x u)
both-added x y z (v, e) (w, f) =
    (str_append v w, f ∙ ap (λ k. str_append k w) e ∙ append_assoc x v w)

Kept-trans : {s t u : State} → Kept s t → Kept t u → Kept s u
Kept-trans {s} {t} {u} h k = record {
  level = k.level ∙ h.level;
  varchunk = λ e. k.varchunk (h.varchunk e);
  funcvar = λ e. k.funcvar (h.funcvar e);
  added = both-added s.stream.text t.stream.text u.stream.text h.added k.added;
}

pub skip-Prints : Prints skip
skip-Prints = record {
  run = λ s. (
    s,
    refl,
    record {
      level = refl;
      varchunk = λ e. e;
      funcvar = λ e. e;
      added = nothing-added s.stream.text;
    },
  );
}

infixr 6 ◌►◌
pub ◌►◌ : {a b : Action State} → Prints a → Prints b → Prints (a ⨾ b)
◌►◌ {a} {b} h k = record {
  run = λ s. let (t, e, r) = h.run s in let (u, f, q) = k.run t in (u, rw e f, Kept-trans r q);
}

pub print-Prints : (x : String) → Prints (print x)
unfolding print write
print-Prints x = record {
  run = λ s.
      (_, refl, record { level = refl; varchunk = λ e. e; funcvar = λ e. e; added = (x, refl) });
}

pub iendl-Prints : Prints iendl
unfolding iendl Indent.iendl write
iendl-Prints = record {
  run = λ s. (
    _,
    refl,
    record {
      level = refl;
      varchunk = λ e. e;
      funcvar = λ e. e;
      added = (str_append "\n" (spaces s.stream.indent), refl);
    },
  );
}

decindent-lem :
    (t : State) (k : ℕ)
    → t.stream.indent ≡ suc (suc k)
    → decindent t ≡ some (record t { stream = record t.stream { indent = k } })
unfolding decindent Indent.decindent
decindent-lem t k e =
    let back : t.stream.indent - 2 ≡ k = omega (arith, e) in
    rw (e, decindent, Indent.decindent)
      (ap (λ z. some (record t { stream = record t.stream { indent = z } })) back)

pub indented-Prints : {a : Action State} → Prints a → Prints (indented a)
unfolding indented incindent decindent Indent.incindent Indent.decindent
indented-Prints {a} h = record {
  run = λ s.
      let (t, e, r) = h.run (record s { stream = Indent.incindent s.stream }) in
      (
        record t { stream = record t.stream { indent = s.stream.indent } },
        rw e (decindent-lem t s.stream.indent (r.level ∙ omega arith)),
        record { level = refl; varchunk = r.varchunk; funcvar = r.funcvar; added = r.added },
      );
}

abbrev pub AllPrints : List (Action State) → Type 0
AllPrints [] = Unit
AllPrints (a ∷ as_) = Prints a × AllPrints as_

pub between-Prints :
    {sep : Action State}
    → Prints sep
    → (as_ : List (Action State)) → AllPrints as_
    → Prints (between sep as_)
between-Prints h [] k = skip-Prints
between-Prints h (a ∷ []) k = k.0
between-Prints h (a ∷ b ∷ rest) k = k.0 ► h ► between-Prints h (b ∷ rest) k.1

pub if_any-Prints :
    {a : Action State} (as_ : List (Action State)) → Prints a → Prints (if_any as_ a)
if_any-Prints [] h = skip-Prints
if_any-Prints (b ∷ rest) h = h

pub if-Prints : {a b : Action State} (c : Bool) → Prints a → Prints b → Prints (if c then a else b)
if-Prints true h k = h
if-Prints false h k = k

-- an action that looks at the state
pub looking-Prints : (f : State → Action State) → ((s : State) → Prints (f s)) → Prints (λ s. f s s)
looking-Prints f h = record { run = λ s. (h s).run s }

pub varchunk-Prints :
    {a : Action State} → Prints a → Prints (set_in_varchunk true ⨾ a ⨾ set_in_varchunk false)
varchunk-Prints h = record {
  run = λ s.
      let (t, e, r) = h.run (record s { in_varchunk = true }) in
      (
        record t { in_varchunk = false },
        rw e refl,
        record { level = r.level; varchunk = λ _. refl; funcvar = r.funcvar; added = r.added },
      );
}

pub funcvar-Prints :
    {a : Action State} → Prints a → Prints (set_in_funcvar true ⨾ a ⨾ set_in_funcvar false)
funcvar-Prints h = record {
  run = λ s.
      let (t, e, r) = h.run (record s { in_funcvar = true }) in
      (
        record t { in_funcvar = false },
        rw e refl,
        record { level = r.level; varchunk = r.varchunk; funcvar = λ _. refl; added = r.added },
      );
}

module _ (d : Display) where
  pub binding-Prints : (p : Option ℕ) → Prints (binding d p)
  unfolding binding
  binding-Prints p =
      if-Prints d.bindings (print-Prints " /* " ► print-Prints (d.pointer p) ► print-Prints " */")
        skip-Prints

  pub dec-Prints : (n : Node) (x : String) → Prints (dec d n x)
  unfolding dec
  dec-Prints n x = print-Prints x ► binding-Prints (some n.address)

  pub escaping-Prints : (n : Node) → Prints (escaping d n)
  unfolding escaping
  escaping-Prints n =
      if-Prints (d.escapes && d.is_escapable n.address) (print-Prints "/* escaping */ ") skip-Prints
