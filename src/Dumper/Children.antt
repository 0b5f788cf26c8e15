-- ===== src/Dumper/Children.antt =====
-- src/ast/dumper-dot.hxx: the visits of the children of a dump_node, and the frame of the operations.
use text.Mathlib.TextLemmas.{append-nil}
use tiger_compilor.Prelude.{ℕ, ◌+◌, String, ◌≡◌, refl, sym, ◌∙◌, some, List, [], ◌∷◌, arith}
use tiger_compilor.Ast.Syntax.{Node}
use tiger_compilor.Ast.Default.{Action, skip, ◌⨾◌}
use tiger_compilor.Dumper.Html.{State, set_parent_field, set_parent_id, node_html_header}
use tiger_compilor.Dumper.Links.{dump_elements, dump_list, dump_chunk, dump_node}
use tiger_compilor.Dumper.Kept.{Kept, Moves, ◌►◌, under-Moves, both-added}
use tiger_compilor.Dumper.Parts.{
  top-Moves, chunk_html-Moves, display_link-Moves, footer_and_link-Moves,
}

-- The action ends at the same level, with all kept but the field of the parent.
record Wanders (a : Action State) : Type 0 where
  run :
      (s : State)
      → (t : State) × (a s ≡ some t)
        × (t.stream.indent ≡ s.stream.indent)
        × Kept s (record t { parent_field = s.parent_field })

then-Wanders : {a b : Action State} → Wanders a → Wanders b → Wanders (a ⨾ b)
then-Wanders h k = record {
  run = λ s.
      let (t, run, at, kept) = h.run s in
      let (u, run', at', kept') = k.run t in
      (
        u,
        rw run run',
        at' ∙ at,
        record {
          parent_id = kept'.parent_id ∙ kept.parent_id;
          parent_field = refl;
          added = both-added s.stream.text t.stream.text u.stream.text kept.added kept'.added;
        },
      );
}

field-Wanders :
    {a : Action State} (field : String) → Moves 0 0 a → Wanders (set_parent_field (some field) ⨾ a)
field-Wanders field h = record {
  run = λ s.
      let (t, run, at, kept) =
        h.run (record s { parent_field = some field }) s.stream.indent (omega arith) in
      (
        t,
        run,
        at ∙ omega arith,
        record { parent_id = kept.parent_id; parent_field = refl; added = kept.added },
      );
}

skip-Wanders : Wanders skip
skip-Wanders = record {
  run = λ s. (
    s,
    refl,
    refl,
    record { parent_id = refl; parent_field = refl; added = ("", sym (append-nil s.stream.text)) },
  );
}

abbrev pub AllMove : List (Action State) → Type 0
AllMove [] = Unit
AllMove (a ∷ as_) = Moves 0 0 a × AllMove as_

elements-Wanders :
    (field : String) (n : ℕ) (l : List (Action State))
    → AllMove l
    → Wanders (dump_elements field n l)
unfolding dump_elements
elements-Wanders field n [] h = skip-Wanders
elements-Wanders field n (a ∷ []) h = field-Wanders _ h.0
elements-Wanders field n (a ∷ b ∷ l) h =
    then-Wanders (field-Wanders _ h.0) (elements-Wanders field (n + 1) (b ∷ l) h.1)

pub dump_list-Moves :
    (field : String) (l : List (Action State)) → AllMove l → Moves 0 0 (dump_list field l)
unfolding dump_list
dump_list-Moves field l h = record {
  run = λ s k e.
      let (t, run, at, kept) = (elements-Wanders field 0 l h).run s in
      (record t { parent_field = s.parent_field }, rw run refl, at ∙ e, kept);
}

-- an action between two changes of the parent
parent-Moves :
    {a : State → Action State} (id : ℕ)
    → ((s : State) → Moves 0 0 (a s))
    → Moves 0 0 (λ s. (set_parent_id id ⨾ a s ⨾ set_parent_id s.parent_id) s)
parent-Moves id h = record {
  run = λ s k e.
      let (t, run, at, kept) = (h s).run (record s { parent_id = id }) k e in
      (
        record t { parent_id = s.parent_id },
        rw run refl,
        at,
        record { parent_id = refl; parent_field = kept.parent_field; added = kept.added },
      );
}

pub dump_chunk-Moves :
    (address : ℕ) (name : String) (l : List (Action State))
    → AllMove l
    → Moves 0 0 (dump_chunk address name l)
unfolding dump_chunk
dump_chunk-Moves address name l h =
    parent-Moves address
      λ s. chunk_html-Moves name l ► display_link-Moves s.parent_id ► dump_list-Moves "nodename" l h

pub dump_node-Moves :
    {html children : Action State} (e : Node) (type : String)
    → Moves 4 4 html
    → Moves 0 0 children
    → Moves 0 0 (dump_node e type html children)
unfolding dump_node node_html_header
dump_node-Moves e type h k = record {
  run = λ s n at.
      let below = record s { parent_id = e.address } in
      let (t, run, at₁, kept) = (top-Moves type).run below n at in
      let (u, run', at₂, kept') =
        (under-Moves 2 h ► footer_and_link-Moves s.parent_id ► k).run t n at₁ in
      (
        record u { parent_id = s.parent_id },
        rw (run, run') refl,
        at₂,
        record {
          parent_id = refl;
          parent_field = kept'.parent_field ∙ kept.parent_field;
          added = both-added s.stream.text t.stream.text u.stream.text kept.added kept'.added;
        },
      );
}
