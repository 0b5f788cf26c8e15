-- ===== src/Dumper/Links.antt =====
-- src/ast/dumper-dot.hxx and dumper-dot.cc: the edges of the graph, and the visits of the children
-- under the names of the ports that their edges leave from.
use tiger_compilor.Prelude.{
  ℕ, ◌+◌, String, str_append, Option, none, some, List, [], ◌∷◌, if◌then◌else◌, ◌==◌, true,
}
use tiger_compilor.Prelude.Decimal.{to_string}
use tiger_compilor.Ast.Syntax.{Node}
use tiger_compilor.Ast.Default.{Action, skip, ◌⨾◌}
use tiger_compilor.Dumper.Html.{
  State, Tables, prints, iendl, incendl, decendl, set_parent_id, set_parent_field, set_inner_fields,
  node_html_port_list, node_html_footer, node_html_header,
}

unfoldable pub dump : String → Action State → Action State
dump field e s = (set_parent_field (some field) ⨾ e ⨾ set_parent_field s.parent_field) s

-- the overload that takes a pointer, which may be null
unfoldable pub dump_pointer : String → Option (Action State) → Action State
dump_pointer field none = skip
dump_pointer field (some e) = dump field e

-- The loop of `dump_list`: the only element of a list is not numbered.
unfoldable pub dump_elements : String → ℕ → List (Action State) → Action State
dump_elements field n [] = skip
dump_elements field n (e ∷ []) =
    set_parent_field (some (if n == 0 then field else str_append field (to_string n))) ⨾ e
dump_elements field n (e ∷ f ∷ l) =
    set_parent_field (some (str_append field (to_string n)))
    ⨾ e
    ⨾ dump_elements field (n + 1) (f ∷ l)

unfoldable pub dump_list : String → List (Action State) → Action State
dump_list field l s = (dump_elements field 0 l ⨾ set_parent_field s.parent_field) s

-- Its body is empty.
abbrev pub dump_type : Action State
dump_type = skip

unfoldable pub def_edge : ℕ → Option ℕ → Action State
def_edge id none = skip
def_edge id (some d) =
    prints (
      to_string id
      ∷ ":def:s -> "
      ∷ to_string d
      ∷ ":nodename [constraint=false, style=dashed, color=\"dimgray\"]"
      ∷ [])
    ⨾ iendl

unfoldable pub dump_def : Tables → Node → Action State
dump_def d e s = def_edge s.parent_id (d.def e.address) s

unfoldable pub field_edge : ℕ → ℕ → Option String → Action State
field_edge old_parent_id id none = skip
field_edge old_parent_id id (some field) =
    prints
      (to_string old_parent_id ∷ ":" ∷ field ∷ ":s" ∷ " -> " ∷ to_string id ∷ ":nodename:n" ∷ [])
    ⨾ iendl

unfoldable pub display_link : ℕ → Action State
display_link old_parent_id s = field_edge old_parent_id s.parent_id s.parent_field s

unfoldable pub footer_and_link : ℕ → Action State
footer_and_link old_parent_id = node_html_footer ⨾ display_link old_parent_id

-- the table of a list of declarations or of chunks
unfoldable pub chunk_html : String → List (Action State) → Action State
chunk_html name l s =
    (prints (to_string s.parent_id ∷ " [label=<" ∷ [])
        ⨾ incendl
        ⨾ prints ("<table cellborder='0' cellspacing='0'>" ∷ [])
        ⨾ incendl
        ⨾ prints ("<tr>" ∷ [])
        ⨾ incendl
        ⨾ set_inner_fields 0
        ⨾ node_html_port_list name l true
        ⨾ decendl
        ⨾ prints ("</tr>" ∷ [])
        ⨾ decendl
        ⨾ prints ("</table>" ∷ [])
        ⨾ decendl
        ⨾ prints (">]" ∷ [])
        ⨾ iendl)
      s

unfoldable pub dump_chunk : ℕ → String → List (Action State) → Action State
dump_chunk address name l s =
    (set_parent_id address
        ⨾ (chunk_html name l ⨾ display_link s.parent_id ⨾ dump_list "nodename" l)
        ⨾ set_parent_id s.parent_id)
      s

-- The frame of the operations on all other nodes: the table with what is between the header and
-- the footer, the edge from the parent, and what comes after it.
unfoldable pub dump_node : Node → String → Action State → Action State → Action State
dump_node e type html children s =
    (node_html_header e type
        ⨾ (html ⨾ footer_and_link s.parent_id ⨾ children)
        ⨾ set_parent_id s.parent_id)
      s
