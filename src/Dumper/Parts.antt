-- ===== src/Dumper/Parts.antt =====
-- src/ast/dumper-dot.hxx: what the tables and the edges of the graph do to the level of indentation.
use tiger_compilor.Prelude.{
  ℕ, suc, ◌+◌, refl, String, Bool, false, true, Option, none, some, List, [], ◌∷◌, ◌==◌,
}
use tiger_compilor.Ast.Syntax.{Node}
use tiger_compilor.Ast.Default.{Action}
use tiger_compilor.Dumper.Html.{
  State, Tables, node_html_begin_inner, node_html_end_inner, node_html_separator, node_html_tr,
  html_top, next_inner_field, node_html_field, node_html_one_port, node_html_ports, numbered_ports,
  port_rows, node_html_port_list, node_html_footer, node_html_escapable_field,
}
use tiger_compilor.Dumper.Links.{
  dump, dump_def, def_edge, field_edge, display_link, footer_and_link, chunk_html,
}
use tiger_compilor.Dumper.Kept.{
  Moves, skip-Moves, ◌►◌, under-Moves, iendl-Moves, incindent-Moves, incendl-Moves, decendl-Moves,
  prints-Moves, each-Moves, if-Moves, looking-Moves, set_inner_fields-Moves,
}

begin_inner-Moves : (i : ℕ) (list : Bool) → Moves i (suc (suc (suc i))) (node_html_begin_inner list)
unfolding node_html_begin_inner
begin_inner-Moves i list =
    prints-Moves _ _
    ► incendl-Moves _
    ► prints-Moves _ _
    ► prints-Moves _ _
    ► incendl-Moves _
    ► prints-Moves _ _
    ► incendl-Moves _

end_inner-Moves : (i : ℕ) → Moves (suc (suc (suc i))) i node_html_end_inner
unfolding node_html_end_inner
end_inner-Moves i =
    decendl-Moves _
    ► prints-Moves _ _
    ► decendl-Moves _
    ► prints-Moves _ _
    ► decendl-Moves _
    ► prints-Moves _ _

separator-Moves : Moves 4 4 node_html_separator
unfolding node_html_separator
separator-Moves =
    end_inner-Moves 1
    ► decendl-Moves 0
    ► prints-Moves _ _
    ► iendl-Moves _
    ► prints-Moves _ _
    ► incendl-Moves 0
    ► begin_inner-Moves 1 false

pub top-Moves : (type : String) → Moves 0 6 (html_top type)
unfolding html_top node_html_tr
top-Moves type = looking-Moves _ λ s.
    prints-Moves _ _
    ► incendl-Moves 0
    ► prints-Moves _ _
    ► incendl-Moves 1
    ► prints-Moves _ _
    ► incendl-Moves 2
    ► begin_inner-Moves 3 false
    ► prints-Moves _ _
    ► under-Moves 2 separator-Moves
    ► set_inner_fields-Moves 6 0

next_inner_field-Moves : (i : ℕ) → Moves i i next_inner_field
unfolding next_inner_field
next_inner_field-Moves i = record {
  run = λ s k e.
      let later = record s { inner_fields = s.inner_fields + 1 } in
      let (t, run, at, kept) =
        (if-Moves {i = i} {j = i} (s.inner_fields == 0) (skip-Moves i) (iendl-Moves i)).run later k
          e in
      (
        t,
        run,
        at,
        record { parent_id = kept.parent_id; parent_field = kept.parent_field; added = kept.added },
      );
}

pub node_html_field-Moves :
    (name content sep : String) → Moves 4 4 (node_html_field name content sep)
unfolding node_html_field node_html_tr
node_html_field-Moves name content sep = next_inner_field-Moves 4 ► prints-Moves 4 _

pub node_html_one_port-Moves : (p : String) → Moves 4 4 (node_html_one_port p)
unfolding node_html_one_port node_html_tr
node_html_one_port-Moves p = next_inner_field-Moves 4 ► prints-Moves 4 _

pub node_html_ports-Moves : (ports : List String) → Moves 4 4 (node_html_ports ports)
unfolding node_html_ports
node_html_ports-Moves ports = looking-Moves _ λ s.
    if-Moves (s.inner_fields == 0) (skip-Moves 4) separator-Moves
    ► set_inner_fields-Moves 4 0
    ► each-Moves 4 node_html_one_port node_html_one_port-Moves ports

numbered_ports-Moves :
    (i : ℕ) (ref : String) (n : ℕ) (l : List (Action State)) → Moves i i (numbered_ports ref n l)
unfolding numbered_ports
numbered_ports-Moves i ref n [] = skip-Moves i
numbered_ports-Moves i ref n (a ∷ l) =
    iendl-Moves i ► prints-Moves i _ ► numbered_ports-Moves i ref (n + 1) l

port_rows-Moves :
    (ref : String) (i : ℕ) (l : List (Action State)) → Moves (suc i) (suc i) (port_rows ref l)
unfolding port_rows
port_rows-Moves ref i [] = skip-Moves (suc i)
port_rows-Moves ref i (a ∷ []) = skip-Moves (suc i)
port_rows-Moves ref i (a ∷ b ∷ l) =
    decendl-Moves i
    ► prints-Moves _ _
    ► iendl-Moves _
    ► prints-Moves _ _
    ► incindent-Moves i
    ► numbered_ports-Moves (suc i) ref 0 (a ∷ b ∷ l)

pub node_html_port_list-Moves :
    (i : ℕ) (name : String) (l : List (Action State)) (chunk : Bool)
    → Moves i i (node_html_port_list name l chunk)
unfolding node_html_port_list
node_html_port_list-Moves i name l chunk =
    next_inner_field-Moves i
    ► begin_inner-Moves i true
    ► prints-Moves _ _
    ► prints-Moves _ _
    ► port_rows-Moves _ (suc (suc i)) l
    ► end_inner-Moves i

pub node_html_escapable_field-Moves :
    (d : Tables) (e : Node) → Moves 4 4 (node_html_escapable_field d e)
unfolding node_html_escapable_field
node_html_escapable_field-Moves d e = next_inner_field-Moves 4 ► prints-Moves 4 _

footer-Moves : Moves 6 0 node_html_footer
unfolding node_html_footer
footer-Moves = looking-Moves _ λ s.
    if-Moves (s.inner_fields == 0) (prints-Moves 6 _) (skip-Moves 6)
    ► end_inner-Moves 3
    ► decendl-Moves 2
    ► prints-Moves _ _
    ► decendl-Moves 1
    ► prints-Moves _ _
    ► decendl-Moves 0
    ► prints-Moves _ _
    ► iendl-Moves 0

def_edge-Moves : (id : ℕ) (d : Option ℕ) → Moves 0 0 (def_edge id d)
unfolding def_edge
def_edge-Moves id none = skip-Moves 0
def_edge-Moves id (some d) = prints-Moves 0 _ ► iendl-Moves 0

pub dump_def-Moves : (d : Tables) (e : Node) → Moves 0 0 (dump_def d e)
unfolding dump_def
dump_def-Moves d e = looking-Moves _ λ s. def_edge-Moves s.parent_id (d.def e.address)

field_edge-Moves : (old id : ℕ) (field : Option String) → Moves 0 0 (field_edge old id field)
unfolding field_edge
field_edge-Moves old id none = skip-Moves 0
field_edge-Moves old id (some field) = prints-Moves 0 _ ► iendl-Moves 0

pub display_link-Moves : (old : ℕ) → Moves 0 0 (display_link old)
unfolding display_link
display_link-Moves old = looking-Moves _ λ s. field_edge-Moves old s.parent_id s.parent_field

pub footer_and_link-Moves : (old : ℕ) → Moves 6 0 (footer_and_link old)
unfolding footer_and_link
footer_and_link-Moves old = footer-Moves ► display_link-Moves old

pub chunk_html-Moves : (name : String) (l : List (Action State)) → Moves 0 0 (chunk_html name l)
unfolding chunk_html
chunk_html-Moves name l = looking-Moves _ λ s.
    prints-Moves _ _
    ► incendl-Moves 0
    ► prints-Moves _ _
    ► incendl-Moves 1
    ► prints-Moves _ _
    ► incendl-Moves 2
    ► set_inner_fields-Moves 3 0
    ► node_html_port_list-Moves 3 name l true
    ► decendl-Moves 2
    ► prints-Moves _ _
    ► decendl-Moves 1
    ► prints-Moves _ _
    ► decendl-Moves 0
    ► prints-Moves _ _
    ► iendl-Moves 0

pub dump-Moves : {e : Action State} (field : String) → Moves 0 0 e → Moves 0 0 (dump field e)
unfolding dump
dump-Moves field h = record {
  run = λ s k e.
      let (t, run, at, kept) = h.run (record s { parent_field = some field }) k e in
      (
        record t { parent_field = s.parent_field },
        rw run refl,
        at,
        record { parent_id = kept.parent_id; parent_field = refl; added = kept.added },
      );
}
