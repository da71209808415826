-- ===== src/Tests/Console.antt =====
-- The console page at concrete inputs.
use common_services_common_u.Base.{
  ◌≡◌, refl, String, true, false, Option, none, some, List, [], ◌∷◌, length, arith,
}
use common_services_common_u.Js.Space.{is_space}
use common_services_common_u.Js.Dict.{Dict}
use common_services_common_u.Js.Text.{split}
use common_services_common_u.Js.Value.{Value, str, arr, items}
use common_services_common_u.Console.Xml.{line_type, format_lines, format_xml, unformatted}
use common_services_common_u.Console.Xml.Laws.{
  leaf, node, none as no_children, child, Children, lines_all, print_all, AreTyped,
  format_lines-eq-print_all,
}
use common_services_common_u.Console.Pages.{
  build_url, load_url, escape_resource_name, operation, shebang, assign_ids, element_id, keys_of,
}
use common_services_common_u.Console.Pages.Ids.{AreDistinct, HasElementIds, assign_ids_total}
use common_services_common_u.Console.Form.{
  Input, several, Form, marked, call, submit_operation, upload_parts, wrap_headers, show_content,
  json, xml,
}
use common_services_common_u.Console.Form.Laws.{all_given, submit_operation-all_given}

formatted :
    format_xml "<?xml v?><a><b>x</b><c/></a> " ≡ "<?xml v?>\n<a>\n  <b>x</b>\n  <c/>\n</a> \n"
unfolding format_xml line_type
formatted = refl

abbrev nested : Children
nested =
    child
      (node "<a>" (child (node "<b>" no_children "</b>") (child (leaf "<c/>") no_children)) "</a>")
      no_children

format_lines-eq-print_all_example :
    (format_lines ("<a>" ∷ "<b>" ∷ "</b>" ∷ "<c/>" ∷ "</a>" ∷ []) unformatted).text
    ≡ "<a>\n  <b></b>\n  <c/>\n</a>\n"
unfolding line_type lines_all print_all AreTyped
format_lines-eq-print_all_example =
    format_lines-eq-print_all nested ((refl, refl, ((refl, refl, tt), (refl, tt))), tt)

-- A closing tag too many leads to the left of the margin, which is padded as if it were to the right.
too_many : (format_lines ("</a>" ∷ "</a>" ∷ []) unformatted).text ≡ "  </a>\n    </a>\n"
unfolding format_lines line_type
too_many = refl

urls :
    (build_url "http://h/docs/index.html?x#y" "api.json" ≡ "http://h/docs/index.html/api.json")
    × (build_url "http://h:80/docs/" "/api.json" ≡ "http://h:80/api.json")
    × (load_url "http://h/docs/" "https://g/api.json" ≡ "https://g/api.json")
unfolding load_url split
urls = (refl, refl, refl)

fragments :
    (shebang "!/pets/get_pet" ≡ operation "pets" "pets_get_pet")
    × (escape_resource_name "a.b/c-d" ≡ "a\\.b\\/c-d")
unfolding shebang escape_resource_name
fragments = (refl, refl)

-- The keys are distinct, and the ids need not be.
ids :
    assign_ids 9 ("a" ∷ "a" ∷ "a_0" ∷ "a b" ∷ "a_b" ∷ []) [] 0
    ≡ some (("a", "a") ∷ ("a_0", "a_0") ∷ ("a_0_1", "a_0_1") ∷ ("a b", "a_b") ∷ ("a_b", "a_b") ∷ [])
unfolding assign_ids element_id
ids = refl

colliding : element_id "my pets" ≡ element_id "my_pets"
unfolding element_id
colliding = refl

assign_ids_total_example :
    (given : Dict String) × (assign_ids 4 ("a b" ∷ "a_b" ∷ "a b" ∷ []) [] 0 ≡ some given)
    × (length given ≡ 3)
    × AreDistinct (keys_of given)
    × HasElementIds given
assign_ids_total_example = assign_ids_total 4 ("a b" ∷ "a_b" ∷ "a b" ∷ []) 0 (omega arith)

abbrev field_of : String → String → Input
field_of name v = record { name = name; value = v; type = "text"; is_required = true; file = none }

abbrev filled : Form
filled = record {
  inputs = field_of "id" "7" ∷ [];
  areas = record { name = "body"; value = "{}"; is_required = true } ∷ [];
  selects =
      record {
        name = "status";
        choice = several (("new", true) ∷ ("old", false) ∷ ("sold", true) ∷ []);
      }
      ∷ [];
}

blank : submit_operation (record filled { inputs = field_of "id" " " ∷ [] }) ≡ marked ("id" ∷ [])
unfolding submit_operation is_space
blank = refl

abbrev arguments : List (String × Option Value)
arguments =
    ("id", some (str "7"))
    ∷ ("body", some (str "{}"))
    ∷ ("status", some (arr (items (str "new" ∷ str "sold" ∷ []))))
    ∷ []

submitted : submit_operation filled ≡ call arguments
unfolding submit_operation is_space
submitted = refl

submit_operation-all_given_example : all_given filled.inputs arguments ≡ true
submit_operation-all_given_example = submit_operation-all_given filled arguments submitted

-- With no file chosen there is a part more.
no_file :
    upload_parts
      (("name", "n") ∷ [])
      (record { name = "name"; is_form = true; type = "string" }
        ∷ record { name = "photo"; is_form = true; type = "file" }
        ∷ [])
      (record { name = "photo"; value = ""; type = "file"; is_required = false; file = none } ∷ [])
      []
    ≡ ("name", str "n") ∷ ("fake", str "true") ∷ []
unfolding upload_parts is_space
no_file = refl

wrapped :
    wrap_headers "Content-Type: application/json\r\nX: \r\n"
    ≡ ("Content-Type", str "application/json") ∷ ("X", str "") ∷ []
unfolding wrap_headers is_space
wrapped = refl

contents :
    (show_content (("Content-Type", str "application/hal+json; charset=x") ∷ []) "{}" ≡ json "{}")
    × (show_content (("content-type", str "application/xml") ∷ []) "<a/>" ≡ xml "<a/>")
unfolding show_content is_space
contents = (refl, refl)
