-- ===== src/Escapes/Follows.antt =====
-- src/escapes/escapes-visitor.cc: which variables are escapable in the end.
use tiger_compilor.Prelude.{
  ℕ, String, Bool, true, false, not, ◌≡◌, refl, sym, ap, ◌∙◌, ◌||◌, ◌==◌, Option, none, some, List,
  [], ◌∷◌, ◌++◌, str_eq, if◌then◌else◌, ◌>>=◌, Both, arith,
}
use tiger_compilor.Misc.ScopedMap.{
  ScopedMap, empty, lookup, insert, scope_begin, scope_end, put, get_last_scope,
}
use tiger_compilor.Misc.ScopedMap.Laws.{lookup-insert}
use tiger_compilor.Ast.Syntax.{Node, Chunks}
use tiger_compilor.Ast.Visitor.{accept}
use tiger_compilor.Ast.Default.{Action, skip, ◌⨾◌, if_present}
use tiger_compilor.Ast.Default
use tiger_compilor.Ast.Laws.{Laws}
use tiger_compilor.Ast.Related.{accept-Related}
use tiger_compilor.Ast.Summary.{
  Closed, two_options-joined, three-joined, if_present-joined, default-Laws,
}
use tiger_compilor.Ast.Overrides.{overriding-Laws}
use tiger_compilor.Escapes.Marks.{
  Mark, declared, used, Frame, Meaning, outside, nothing, then_, present, declare, inside, marks,
  AllBound, is, escapes,
}
use tiger_compilor.Escapes.{
  State, is_escapable_set, end_scope, mark_local, use_in_scope, simple_var, var_dec,
  enter_primitive, leave_primitive, function_dec, escapes_visitor, escapes_compute,
}

abbrev pub is_some : Option Bool → Bool
is_some none = false
is_some (some b) = true

is_some-insert :
    (x y : String) (b : Bool) (m : List (String × Bool))
    → is_some (lookup y (insert x b m)) ≡ (str_eq x y || is_some (lookup y m))
is_some-insert x y b m = ground (arith, lookup-insert x y b m)

not-lem : (b : Bool) → (if b then false else true) ≡ not b
not-lem true = refl
not-lem false = refl

-- The innermost scope has the names of the frame.
pub record InFrame (outer : ScopedMap Bool) (f : Frame) (s : State) : Type 0 where
  pub scope : List (String × Bool)
  pub map_is : s.scoped_map ≡ scope ∷ outer
  pub names : (x : String) → is_some (lookup x scope) ≡ f.names x
  pub primitive : s.in_primitive ≡ f.primitive

module _ (def : ℕ → Option ℕ) where
  escapes-append :
      (l m : List Mark) (a : ℕ) (b : Bool)
      → escapes def (l ++ m) a b ≡ escapes def m a (escapes def l a b)
  escapes-append [] m a b = refl
  escapes-append (declared n p ∷ l) m a b =
      escapes-append l m a (if n.address == a then not p else b)
  escapes-append (used n ∷ l) m a b =
      escapes-append l m a (if is def a (def n.address) then false else b)

  AllBound-append : (l m : List Mark) → AllBound def (l ++ m) → AllBound def l × AllBound def m
  AllBound-append [] m h = (tt, h)
  AllBound-append (declared n p ∷ l) m h = AllBound-append l m h
  AllBound-append (used n ∷ l) m h = let (k, j) = AllBound-append l m h.1 in ((h.0, k), j)

  -- The action ends in the frame of the meaning, and the variables are as its marks say.
  pub record Marked (outer : ScopedMap Bool) (f : Frame) (l : List Mark) (s t : State)
      : Type 0 where
    pub in_frame : InFrame outer f t
    pub escapable : (a : ℕ) → t.escapable a ≡ escapes def l a (s.escapable a)

  abbrev pub Follows : Action State → Meaning → Type 0
  Follows a m =
      (s : State) (outer : ScopedMap Bool) (f : Frame)
      → InFrame outer f s
      → AllBound def (m f).1
      → (t : State) × (a s ≡ some t) × Marked outer (m f).0 (m f).1 s t

  skip-Follows : Follows skip nothing
  skip-Follows s outer f h b = (s, refl, record { in_frame = h; escapable = λ a. refl })

  ⨾-Follows :
      (a b : Action State) (m k : Meaning) → Follows a m → Follows b k → Follows (a ⨾ b) (then_ m k)
  ⨾-Follows a b m k h j s outer f r bound =
      let (first, second) = AllBound-append (m f).1 (k (m f).0).1 bound in
      let (t, e, p) = h s outer f r first in
      let (u, e', q) = j t outer (m f).0 p.in_frame second in
      (
        u,
        rw e e',
        record {
          in_frame = q.in_frame;
          escapable = λ c.
              q.escapable c
              ∙ ap (λ (z : Bool). escapes def (k (m f).0).1 c z) (p.escapable c)
              ∙ sym (escapes-append (m f).1 (k (m f).0).1 c (s.escapable c));
        },
      )

  Follows-Closed : Closed nothing then_ Follows
  Follows-Closed = record { skip_rule = skip-Follows; seq_rule = ⨾-Follows }

  -- a use, by the entry of its name in the scope
  use-Follows :
      (n : Node) (x : String) (o : Option Bool) (v : Bool) (s : State) (outer : ScopedMap Bool)
      (f : Frame)
      → is_some o ≡ v
      → InFrame outer f s
      → AllBound def (if v then used n ∷ [] else [])
      → (t : State) × (use_in_scope def n x o s ≡ some t)
        × Marked outer f (if v then used n ∷ [] else []) s t
  unfolding use_in_scope mark_local Default.simple_var
  use-Follows n x none false s outer f e h b =
      (s, refl, record { in_frame = h; escapable = λ a. refl })
  use-Follows n x (some y) true s outer f e h ((d, bound), b) = (
    record s { escapable = λ c. if d == c then false else s.escapable c },
    ap (λ (o : Option ℕ). (o >>= λ d. is_escapable_set d false s) >>= skip) bound,
    record {
      in_frame = record {
        scope = h.scope;
        map_is = h.map_is;
        names = h.names;
        primitive = h.primitive;
      };
      escapable =
          λ a. ap (λ (o : Option ℕ). if is def a o then false else s.escapable a) (sym bound);
    },
  )
  use-Follows n x none true s outer f e h b = cc
  use-Follows n x (some y) false s outer f e h b = cc

  simple_var-Follows : (n : Node) (x : String) → Follows (simple_var def n x) (marks.simple_var n x)
  unfolding simple_var get_last_scope
  simple_var-Follows n x s outer f h b =
      let (t, e, m) = use-Follows n x (lookup x h.scope) (f.names x) s outer f (h.names x) h b in
      (
        t,
        ap
              (λ (z : ScopedMap Bool).
                get_last_scope z >>= λ scope. use_in_scope def n x (lookup x scope) s)
              h.map_is
            ∙ e,
        m,
      )

  var_dec-Follows :
      (n : Node) (x : String) (a c : Option (Action State)) (m k : Option Meaning)
      → Both Follows a m
      → Both Follows c k
      → Follows (var_dec def n x a c) (marks.var_dec n x m k)
  unfolding var_dec Default.var_dec put
  var_dec-Follows n x a c m k p q s outer f h b =
      let below = if_present a ⨾ if_present c in
      let s₁ : State = record s {
        escapable =
            λ d. if n.address == d then (if s.in_primitive then false else true) else s.escapable d;
      } in
      let s₂ : State = record s₁ { scoped_map = insert x false h.scope ∷ outer } in
      let r : InFrame outer (declare x f) s₂ = record {
        scope = insert x false h.scope;
        map_is = refl;
        names =
            λ y. is_some-insert x y false h.scope ∙ ap (λ (z : Bool). str_eq x y || z) (h.names y);
        primitive = h.primitive;
      } in
      let (t, e, l) =
        two_options-joined nothing then_ Follows-Closed a c m k p q s₂ outer (declare x f) r b in
      (
        t,
        ap
              (λ (z : ScopedMap Bool).
                (put x false z >>= λ u. some (record s₁ { scoped_map = u })) >>= below)
              h.map_is
            ∙ e,
        record {
          in_frame = l.in_frame;
          escapable = λ d.
              l.escapable d
              ∙ ap
                  (λ (z : Bool).
                    escapes def (then_ (present m) (present k) (declare x f)).1 d
                      (if n.address == d then z else s.escapable d))
                  (not-lem s.in_primitive ∙ ap not h.primitive);
        },
      )

  enter-Follows :
      (c : Option (Action State)) (j : Option Meaning) (s : State) (outer : ScopedMap Bool)
      (f : Frame)
      → Both Follows c j
      → InFrame outer f s
      → (t : State) × (enter_primitive def c (record s { scoped_map = [] ∷ s.scoped_map }) ≡ some t)
        × InFrame (s.scoped_map) (inside j f) t
        × (t.escapable ≡ s.escapable)
  unfolding lookup
  enter-Follows none none s outer f q h =
      (_, refl, record { scope = []; map_is = refl; names = λ x. refl; primitive = refl }, refl)
  enter-Follows (some c) (some j) s outer f q h = (
    _,
    refl,
    record { scope = []; map_is = refl; names = λ x. refl; primitive = h.primitive },
    refl,
  )
  enter-Follows none (some j) s outer f q h = absurd q
  enter-Follows (some c) none s outer f q h = absurd q

  function_dec-Follows :
      (n : Node) (x : String) (formals : Action State) (m : Meaning) (a c : Option (Action State))
      (k j : Option Meaning)
      → Follows formals m
      → Both Follows a k
      → Both Follows c j
      → Follows (function_dec def n x formals a c) (marks.function_dec n x m k j)
  unfolding function_dec Default.function_dec scope_begin scope_end
  function_dec-Follows n x formals m a c k j p q r s outer f h b =
      let body = formals ⨾ if_present a ⨾ if_present c in
      let meaning = then_ m (then_ (present k) (present j)) in
      let (s₁, entered, frame, same) = enter-Follows c j s outer f r h in
      let (t, e, l) =
        three-joined nothing then_ Follows-Closed formals (if_present a) (if_present c) m
          (present k) (present j) p (if_present-joined nothing then_ Follows-Closed a k q)
          (if_present-joined nothing then_ Follows-Closed c j r) s₁ s.scoped_map (inside j f) frame
          b in
      let left : State = record t { in_primitive = false } in
      (
        record left { scoped_map = h.scope ∷ outer },
        ap (λ (o : Option State). o >>= (body ⨾ leave_primitive def ⨾ end_scope)) entered
            ∙ ap (λ (o : Option State). o >>= (leave_primitive def ⨾ end_scope)) e
            ∙ ap
                (λ (z : ScopedMap Bool). scope_end z >>= λ u. some (record left { scoped_map = u }))
                (l.in_frame.map_is ∙ ap (λ (z : ScopedMap Bool). l.in_frame.scope ∷ z) h.map_is),
        record {
          in_frame = record { scope = h.scope; map_is = refl; names = h.names; primitive = refl };
          escapable = λ d.
              l.escapable d
              ∙ ap (λ (g : ℕ → Bool). escapes def (meaning (inside j f)).1 d (g d)) same;
        },
      )

  escapes-Laws : Laws Follows Follows Follows Follows (escapes_visitor def) marks
  escapes-Laws =
      let d = default-Laws nothing then_ Follows-Closed in
      overriding-Laws nothing then_ Follows-Closed _ _ (record {
        simple_var = simple_var-Follows;
        call_exp = d.call_exp;
        var_dec = var_dec-Follows;
        function_dec = function_dec-Follows;
        type_dec = d.type_dec;
        name_ty = d.name_ty;
      })

  -- If each use that is in the function of a variable of its name has a definition, the pass over a
  -- program ends with no null pointer followed, and a variable is escapable exactly if the marks of
  -- the program leave it so: the last of them is a declaration that is not in a primitive, and not a
  -- use of it in the function that declares its name. A variable without marks is as it was.
  pub escapes_compute-Marked :
      (tree : Chunks) (escapable : ℕ → Bool)
      → AllBound def (accept marks tree outside).1
      → (t : State) × (escapes_compute def tree escapable ≡ some t)
        × ((a : ℕ) → t.escapable a ≡ escapes def (accept marks tree outside).1 a (escapable a))
  unfolding escapes_compute lookup
  escapes_compute-Marked tree escapable b =
      let s : State = record { scoped_map = empty; in_primitive = false; escapable = escapable } in
      let r : InFrame [] outside s = record {
        scope = [];
        map_is = refl;
        names = λ x. refl;
        primitive = refl;
      } in
      let (t, e, h) = accept-Related escapes-Laws tree s [] outside r b in (t, e, h.escapable)
