-- ===== src/Dumper/Kept.antt =====
-- src/ast/dumper-dot.cc: what the actions of the dumper keep.
use text.Mathlib.TextLemmas.{append_assoc, append-nil}
use tiger_compilor.Prelude.{
  ℕ, suc, ◌+◌, ◌-◌, ◌*◌, String, str_append, ◌≡◌, refl, sym, ap, ◌∙◌, Bool, true, false, some, List,
  [], ◌∷◌, map, if◌then◌else◌, arith,
}
use tiger_compilor.Misc.Indent.{Stream, write, spaces}
use tiger_compilor.Misc.Indent
use tiger_compilor.Ast.Default.{Action, skip, ◌⨾◌, each}
use tiger_compilor.Dumper.Html.{
  State, print, prints, incindent, decindent, iendl, incendl, decendl, set_inner_fields,
}

-- The parent and its field are the same, and text is added.
pub record Kept (s t : State) : Type 0 where
  pub parent_id : t.parent_id ≡ s.parent_id
  pub parent_field : t.parent_field ≡ s.parent_field
  pub added : (x : String) × (t.stream.text ≡ str_append s.stream.text x)

-- From a state at `i` levels of indentation, and any others below them, the action ends at `j`.
pub record Moves (i j : ℕ) (a : Action State) : Type 0 where
  pub run :
      (s : State) (k : ℕ)
      → s.stream.indent ≡ 2 * i + k
      → (t : State) × (a s ≡ some t) × (t.stream.indent ≡ 2 * j + k) × Kept s t

pub both-added :
    (x y z : String)
    → (v : String) × (y ≡ str_append x v)
    → (w : String) × (z ≡ str_append y w)
    → (u : String) × (z ≡ str_append x u)
both-added x y z (v, e) (w, f) =
    (str_append v w, f ∙ ap (λ k. str_append k w) e ∙ append_assoc x v w)

Kept-refl : (s : State) → Kept s s
Kept-refl s = record {
  parent_id = refl;
  parent_field = refl;
  added = ("", sym (append-nil s.stream.text));
}

pub Kept-trans : {s t u : State} → Kept s t → Kept t u → Kept s u
Kept-trans {s} {t} {u} h k = record {
  parent_id = k.parent_id ∙ h.parent_id;
  parent_field = k.parent_field ∙ h.parent_field;
  added = both-added s.stream.text t.stream.text u.stream.text h.added k.added;
}

pub skip-Moves : (i : ℕ) → Moves i i skip
skip-Moves i = record { run = λ s k e. (s, refl, e, Kept-refl s) }

infixr 6 ◌►◌
pub ◌►◌ : {i j l : ℕ} {a b : Action State} → Moves i j a → Moves j l b → Moves i l (a ⨾ b)
◌►◌ h k = record {
  run = λ s n e.
      let (t, run, at, kept) = h.run s n e in
      let (u, run', at', kept') = k.run t n at in (u, rw run run', at', Kept-trans kept kept');
}

-- under more levels
pub under-Moves : {i j : ℕ} {a : Action State} (c : ℕ) → Moves i j a → Moves (c + i) (c + j) a
under-Moves {i} {j} c h = record {
  run = λ s k e.
      let (t, run, at, kept) = h.run s (2 * c + k) (e ∙ omega arith) in
      (t, run, at ∙ omega arith, kept);
}

-- an action that writes a text and changes the level
write-Moves :
    {i j : ℕ} {a : Action State} (f : State → String) (level : ℕ → ℕ)
    → ((s : State) (k : ℕ)
        → s.stream.indent ≡ 2 * i + k
        → (a s
            ≡ some (record s {
              stream = record {
                text = str_append s.stream.text (f s);
                indent = level s.stream.indent;
              };
            }))
          × (level s.stream.indent ≡ 2 * j + k))
    → Moves i j a
write-Moves f level h = record {
  run = λ s k e. (
    _,
    (h s k e).0,
    (h s k e).1,
    record { parent_id = refl; parent_field = refl; added = (f s, refl) },
  );
}

print-Moves : (i : ℕ) (x : String) → Moves i i (print x)
unfolding print write
print-Moves i x = write-Moves (λ s. x) (λ n. n) λ s k e. (refl, e)

pub iendl-Moves : (i : ℕ) → Moves i i iendl
unfolding iendl Indent.iendl write
iendl-Moves i =
    write-Moves (λ s. str_append "\n" (spaces s.stream.indent)) (λ n. n) λ s k e. (refl, e)

pub incindent-Moves : (i : ℕ) → Moves i (suc i) incindent
unfolding incindent Indent.incindent
incindent-Moves i = record {
  run = λ s k e. (
    record s { stream = Indent.incindent s.stream },
    refl,
    omega arith,
    record { parent_id = refl; parent_field = refl; added = ("", sym (append-nil s.stream.text)) },
  );
}

decindent-lem :
    (s : State) (n : ℕ)
    → s.stream.indent ≡ suc n
    → decindent s ≡ some (record s { stream = record s.stream { indent = s.stream.indent - 2 } })
unfolding decindent Indent.decindent
decindent-lem s n e =
    rw (e, decindent, Indent.decindent)
      (ap (λ (z : ℕ). some (record s { stream = record s.stream { indent = z - 2 } })) e)

decindent-Moves : (i : ℕ) → Moves (suc i) i decindent
decindent-Moves i = record {
  run = λ s k e. (
    record s { stream = record s.stream { indent = s.stream.indent - 2 } },
    decindent-lem s (suc (2 * i + k)) (omega arith),
    omega arith,
    record { parent_id = refl; parent_field = refl; added = ("", sym (append-nil s.stream.text)) },
  );
}

pub incendl-Moves : (i : ℕ) → Moves i (suc i) incendl
unfolding incendl
incendl-Moves i = incindent-Moves i ► iendl-Moves (suc i)

pub decendl-Moves : (i : ℕ) → Moves (suc i) i decendl
unfolding decendl
decendl-Moves i = decindent-Moves i ► iendl-Moves i

pub prints-Moves : (i : ℕ) (xs : List String) → Moves i i (prints xs)
unfolding prints
prints-Moves i [] = skip-Moves i
prints-Moves i (x ∷ xs) = print-Moves i x ► prints-Moves i xs

pub each-Moves :
    {X : Type 0} (i : ℕ) (f : X → Action State)
    → ((x : X) → Moves i i (f x))
    → (xs : List X) → Moves i i (each (map f xs))
each-Moves i f h [] = skip-Moves i
each-Moves i f h (x ∷ xs) = h x ► each-Moves i f h xs

pub if-Moves :
    {i j : ℕ} {a b : Action State} (c : Bool)
    → Moves i j a
    → Moves i j b
    → Moves i j (if c then a else b)
if-Moves true h k = h
if-Moves false h k = k

-- an action that looks at the state
pub looking-Moves :
    {i j : ℕ} (f : State → Action State) → ((s : State) → Moves i j (f s)) → Moves i j (λ s. f s s)
looking-Moves f h = record { run = λ s. (h s).run s }

pub set_inner_fields-Moves : (i : ℕ) (n : ℕ) → Moves i i (set_inner_fields n)
set_inner_fields-Moves i n = record {
  run = λ s k e. (
    record s { inner_fields = n },
    refl,
    e,
    record { parent_id = refl; parent_field = refl; added = ("", sym (append-nil s.stream.text)) },
  );
}
