-- ===== src/Dumper/Html.antt =====
-- src/ast/dumper-dot.hxx: what the operations of the dumper are made of.
use tiger_compilor.Prelude.{
  ℕ, ◌+◌, String, str_append, Bool, true, false, Option, some, List, [], ◌∷◌, map, length, ltb,
  if◌then◌else◌, ◌==◌, ◌>>=◌,
}
use mathlib.Core.List.{reverse}
use tiger_compilor.Prelude.Bytes.{Bytes, bytes_of, text_of}
use tiger_compilor.Prelude.Decimal.{to_string}
use tiger_compilor.Misc.Indent.{Stream, write}
use tiger_compilor.Misc.Indent
use tiger_compilor.Ast.Syntax.{Node}
use tiger_compilor.Ast.Default.{Action, skip, ◌⨾◌, each}
use tiger_compilor.Dumper.Escape.{html_escape}

-- The members of an `ast::DumperDot`.
pub record State : Type 0 where
  pub stream : Stream
  pub parent_id : ℕ
  pub parent_field : Option String
  pub inner_fields : ℕ

-- What the passes have set on the nodes of the tree, by their addresses. A list of chunks has no
-- node of its own in the model: its address is a function of the node that holds it.
pub record Tables : Type 0 where
  pub def : ℕ → Option ℕ
  pub is_escapable : ℕ → Bool
  pub chunk_list_at : ℕ → ℕ

unfoldable pub print : String → Action State
print x s = some (record s { stream = write x s.stream })

-- `ostr_ << x << y << ...`
unfoldable pub prints : List String → Action State
prints xs = each (map print xs)

unfoldable pub incindent : Action State
incindent s = some (record s { stream = Indent.incindent s.stream })

unfoldable pub decindent : Action State
decindent s = Indent.decindent s.stream >>= λ o. some (record s { stream = o })

unfoldable pub iendl : Action State
iendl s = some (record s { stream = Indent.iendl s.stream })

unfoldable pub incendl : Action State
incendl = incindent ⨾ iendl

unfoldable pub decendl : Action State
decendl = decindent ⨾ iendl

abbrev pub set_parent_id : ℕ → Action State
set_parent_id a s = some (record s { parent_id = a })

abbrev pub set_parent_field : Option String → Action State
set_parent_field x s = some (record s { parent_field = x })

abbrev pub set_inner_fields : ℕ → Action State
set_inner_fields n s = some (record s { inner_fields = n })

unfoldable pub node_html_begin_inner : Bool → Action State
node_html_begin_inner list =
    prints ("<td cellpadding='0'>" ∷ [])
    ⨾ incendl
    ⨾ prints ("<table border='0' cellborder='" ∷ (if list then "0" else "1") ∷ "'" ∷ [])
    ⨾ prints (" cellspacing='0' cellpadding='" ∷ (if list then "0" else "2") ∷ "'>" ∷ [])
    ⨾ incendl
    ⨾ prints ("<tr>" ∷ [])
    ⨾ incendl

unfoldable pub node_html_end_inner : Action State
node_html_end_inner =
    decendl
    ⨾ prints ("</tr>" ∷ [])
    ⨾ decendl
    ⨾ prints ("</table>" ∷ [])
    ⨾ decendl
    ⨾ prints ("</td>" ∷ [])

unfoldable pub node_html_separator : Action State
node_html_separator =
    node_html_end_inner
    ⨾ decendl
    ⨾ prints ("</tr>" ∷ [])
    ⨾ iendl
    ⨾ prints ("<tr>" ∷ [])
    ⨾ incendl
    ⨾ node_html_begin_inner false

unfoldable pub node_html_tr : String → String → Action State
node_html_tr port content = prints ("<td port='" ∷ port ∷ "'>" ∷ content ∷ "</td>" ∷ [])

-- `std::equal(ending.rbegin(), ending.rend(), value.rbegin())`: an end of `value` is the same.
abbrev same_start : Bytes → Bytes → Bool
same_start [] v = true
same_start (e ∷ es) [] = false
same_start (e ∷ es) (c ∷ v) = if e == c then same_start es v else false

unfoldable pub ends_with : String → String → Bool
ends_with value ending =
    let v = reverse (bytes_of value) in
    let e = reverse (bytes_of ending) in if ltb (length v) (length e) then false else same_start e v

unfoldable pub node_html_color : String → String
node_html_color type =
    if ends_with type "Dec"
    then "red1"
    else if ends_with type "Var"
    then "orange1"
    else if ends_with type "Ty"
    then "green3"
    else if ends_with type "Exp"
    then "blue2"
    else "black"

-- the row of the name of the class of the node
unfoldable pub html_top : String → Action State
html_top type s =
    (prints (to_string s.parent_id ∷ " [label=<" ∷ [])
        ⨾ incendl
        ⨾ prints (
            "<table border='0' cellborder='0' cellspacing='0' cellpadding='0'"
            ∷ " color='"
            ∷ node_html_color type
            ∷ "'>"
            ∷ [])
        ⨾ incendl
        ⨾ prints ("<tr>" ∷ [])
        ⨾ incendl
        ⨾ node_html_begin_inner false
        ⨾ node_html_tr "nodename" type
        ⨾ node_html_separator
        ⨾ set_inner_fields 0)
      s

-- It returns the old `parent_id`, which the operations of the model read before the call.
unfoldable pub node_html_header : Node → String → Action State
node_html_header e type = set_parent_id e.address ⨾ html_top type

-- `if (inner_fields++) ostr_ << misc::iendl;`
unfoldable pub next_inner_field : Action State
next_inner_field s =
    (if s.inner_fields == 0 then skip else iendl) (record s { inner_fields = s.inner_fields + 1 })

unfoldable pub node_html_field : String → String → String → Action State
node_html_field name content sep =
    next_inner_field
    ⨾ node_html_tr name (
        str_append name (
          str_append ":&nbsp;"
            (str_append sep (str_append (text_of (html_escape (bytes_of content))) sep))))

unfoldable pub node_html_one_port : String → Action State
node_html_one_port p = next_inner_field ⨾ node_html_tr p p

unfoldable pub node_html_ports : List String → Action State
node_html_ports ports s =
    ((if s.inner_fields == 0 then skip else node_html_separator)
        ⨾ set_inner_fields 0
        ⨾ each (map node_html_one_port ports))
      s

-- the rows of the numbers of a list of more than one
unfoldable pub numbered_ports : String → ℕ → List (Action State) → Action State
numbered_ports ref n [] = skip
numbered_ports ref n (a ∷ l) =
    iendl
    ⨾ prints ("<td port='" ∷ ref ∷ to_string n ∷ "'>" ∷ to_string n ∷ "</td>" ∷ [])
    ⨾ numbered_ports ref (n + 1) l

-- `if (size > 1) ...`
unfoldable pub port_rows : String → List (Action State) → Action State
port_rows ref [] = skip
port_rows ref (a ∷ []) = skip
port_rows ref (a ∷ b ∷ l) =
    decendl
    ⨾ prints ("</tr>" ∷ [])
    ⨾ iendl
    ⨾ prints ("<tr>" ∷ [])
    ⨾ incindent
    ⨾ numbered_ports ref 0 (a ∷ b ∷ l)

unfoldable pub node_html_port_list : String → List (Action State) → Bool → Action State
node_html_port_list name list chunk =
    let ref : String = if chunk then "nodename" else name in
    let size = length list in
    next_inner_field
    ⨾ node_html_begin_inner true
    ⨾ prints ("<td port='" ∷ ref ∷ "' colspan='" ∷ to_string (if size == 0 then 1 else size) ∷ [])
    ⨾ prints ("'>" ∷ name ∷ "</td>" ∷ [])
    ⨾ port_rows ref list
    ⨾ node_html_end_inner

unfoldable pub node_html_footer : Action State
node_html_footer s =
    ((if s.inner_fields == 0 then prints ("<td></td>" ∷ []) else skip)
        ⨾ node_html_end_inner
        ⨾ decendl
        ⨾ prints ("</tr>" ∷ [])
        ⨾ decendl
        ⨾ prints ("</table>" ∷ [])
        ⨾ decendl
        ⨾ prints (">]" ∷ [])
        ⨾ iendl)
      s

-- Both texts of the source are "escapable".
unfoldable pub node_html_escapable_field : Tables → Node → Action State
node_html_escapable_field d e =
    let color : String = if d.is_escapable e.address then "green" else "red" in
    let text : String = if d.is_escapable e.address then "escapable" else "escapable" in
    next_inner_field
    ⨾ prints ("<td port='escapable' bgcolor='" ∷ color ∷ "'>" ∷ text ∷ "</td>" ∷ [])
