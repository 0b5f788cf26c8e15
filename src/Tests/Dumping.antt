-- ===== src/Tests/Dumping.antt =====
-- The dumper of src/ast on small programs.
use tiger_compilor.Prelude.{◌+◌, false, String, ◌≡◌, refl, none, some, [], ◌∷◌}
use mathlib.Core.Option
use tiger_compilor.Prelude.Bytes.{bytes_of}
use tiger_compilor.Prelude.Decimal.{to_string}
use tiger_compilor.Misc.Indent.{write, iendl, spaces}
use tiger_compilor.Dumper.{dump_tree}
use tiger_compilor.Dumper.Escape.{html_escape, TagFree, read_label, html_escape-Reads}
use tiger_compilor.Dumper.Html.{State, Tables, prints, print}
use tiger_compilor.Dumper.Html
use tiger_compilor.Dumper.Links.{display_link, field_edge}
use tiger_compilor.Dumper.Kept.{Kept}
use tiger_compilor.Dumper.Balanced.{dump_tree-Kept}
use tiger_compilor.Tests.Programs.{loop_program}

abbrev unbound : Tables
unbound = record { def = λ a. none; is_escapable = λ a. false; chunk_list_at = λ a. a + 100 }

abbrev within : State
within = record {
  stream = record { text = "graph:"; indent = 2 };
  parent_id = 7;
  parent_field = some "body";
  inner_fields = 1;
}

-- The edge from the port of a parent to a node.
edge_text :
    Option.map {B = String} (λ s. s.stream.text) (display_link 5 within)
    ≡ some "graph:5:body:s -> 7:nodename:n\n  "
unfolding display_link field_edge prints print Html.iendl iendl write spaces to_string
edge_text = refl

escape_text : html_escape (bytes_of "a<b\\&") ≡ bytes_of "a&#60;b\\\\&#38;"
unfolding html_escape bytes_of
escape_text = refl

dump_tree-Kept_example :
    (t : State) × (dump_tree unbound loop_program within ≡ some t)
    × (t.stream.indent ≡ 2)
    × Kept within t
dump_tree-Kept_example = dump_tree-Kept unbound loop_program within

html_escape-Reads_example :
    TagFree (html_escape (b'<' ∷ b'\\' ∷ b'&' ∷ []))
    × (read_label (html_escape (b'<' ∷ b'\\' ∷ b'&' ∷ [])) ≡ b'<' ∷ b'\\' ∷ b'&' ∷ [])
html_escape-Reads_example = html_escape-Reads (b'<' ∷ b'\\' ∷ b'&' ∷ [])
