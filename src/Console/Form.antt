-- ===== src/Console/Form.antt =====
-- swagger-ui.js, OperationView.submitOperation, handleFileUpload, wrap and showStatus: what the form of an
-- operation holds, by its elements, becomes the arguments of a call, and an answer a shown body. The
-- elements of the page are arguments.
pub mod Laws
use Prim.Native.String.{[], ◌∷◌, ◌++◌}
use mathlib.Core.List
use common_services_common_u.Base.{
  ℕ, zero, suc, ◌+◌, Char, code, String, Bool, true, false, ◌||◌, ◌&&◌, not, Option, none, some,
  List, [], ◌∷◌, ◌==◌, ◌=?◌, if◌then◌else◌, is_empty, any,
}
use common_services_common_u.Js.Space.{between, trim}
use common_services_common_u.Js.Text.{split, join, starts_with, to_lower_case}
use common_services_common_u.Js.Dict.{Dict, get, put}
use common_services_common_u.Js.Value.{
  Value, null, str, num, arr, obj, Items, items, field, no_fields, is_set,
}
use common_services_common_u.Http.Answer.{split_colon, or_set}

-- An `input` element; `file` is its first file, and `is_required` its class.
pub record Input : Type 0 where
  pub name : String
  pub value : String
  pub type : String
  pub is_required : Bool
  pub file : Option Value

-- A `textarea` element.
pub record Area : Type 0 where
  pub name : String
  pub value : String
  pub is_required : Bool

-- A `select` element: its value, or its options, each with whether it is selected.
pub data Choice : Type 0 where
  one : String → Choice
  several : List (String × Bool) → Choice

pub record Select : Type 0 where
  pub name : String
  pub choice : Choice

pub record Form : Type 0 where
  pub inputs : List Input
  pub areas : List Area
  pub selects : List Select

-- `jQuery.trim(value) === ""`
abbrev pub is_blank : String → Bool
is_blank s = trim s == ""

-- The elements that are marked with an error: the required ones that are blank.
unfoldable pub input_errors : List Input → List String
unfolding trim
input_errors [] = []
input_errors (o ∷ os) =
    let rest = input_errors os in if o.is_required && is_blank o.value then o.name ∷ rest else rest

unfoldable pub area_errors : List Area → List String
unfolding trim
area_errors [] = []
area_errors (o ∷ os) =
    let rest = area_errors os in if o.is_required && is_blank o.value then o.name ∷ rest else rest

abbrev pub put_text : String → String → Dict (Option Value) → Dict (Option Value)
put_text name v map = if is_blank v then map else put name (some (str v)) map

-- The loop over the inputs: the map, and `isFileUpload`.
unfoldable pub read_inputs : List Input → Dict (Option Value) × Bool → Dict (Option Value) × Bool
unfolding put trim
read_inputs [] acc = acc
read_inputs (o ∷ os) (map, is_upload) =
    let filled = put_text o.name o.value map in
    read_inputs os
      (if o.type == "file" then (put o.name o.file filled, true) else (filled, is_upload))

unfoldable pub read_areas : List Area → Dict (Option Value) → Dict (Option Value)
unfolding put trim
read_areas [] map = map
read_areas (o ∷ os) map = read_areas os (put_text o.name o.value map)

abbrev pub selected : List (String × Bool) → List Value
selected [] = []
selected ((v, is_selected) ∷ options) =
    let rest = selected options in if is_selected then str v ∷ rest else rest

abbrev pub if_any : List Value → Option Value
if_any [] = none
if_any (v ∷ vs) = some (arr (items (v ∷ vs)))

-- OperationView.getSelectedValue
unfoldable pub get_selected_value : Choice → Option Value
get_selected_value (one v) = some (str v)
get_selected_value (several options) = if_any (selected options)

abbrev pub texts_of : List (String × Bool) → List String
texts_of [] = []
texts_of ((v, is_selected) ∷ options) =
    let rest = texts_of options in if is_selected then v ∷ rest else rest

-- The text of a selection, as jQuery.trim makes it.
abbrev pub choice_text : Choice → String
choice_text (one v) = v
choice_text (several options) = join "," (texts_of options)

unfoldable pub read_selects : List Select → Dict (Option Value) → Dict (Option Value)
unfolding put trim get_selected_value
read_selects [] map = map
read_selects (o ∷ os) map =
    read_selects os (
      if is_blank (choice_text o.choice) then map else put o.name (get_selected_value o.choice) map)

-- What submitOperation comes to: an error on some elements, or a call of the operation or of
-- handleFileUpload with a map of arguments.
pub data Submission : Type 0 where
  marked : List String → Submission
  call : Dict (Option Value) → Submission
  upload : Dict (Option Value) → Submission

abbrev pub submit_map : Form → Dict (Option Value) × Bool → Submission
submit_map form (map, is_upload) =
    let all = read_selects form.selects (read_areas form.areas map) in
    if is_upload then upload all else call all

-- OperationView.submitOperation
unfoldable pub submit_operation : Form → Submission
unfolding input_errors area_errors read_inputs read_areas read_selects
submit_operation form =
    let errors = List.◌++◌ (input_errors form.inputs) (area_errors form.areas) in
    if is_empty errors then submit_map form (read_inputs form.inputs ([], false)) else marked errors

-- A parameter of the operation, of either version: whether it is one of the form, and its type.
pub record FormParameter : Type 0 where
  pub name : String
  pub is_form : Bool
  pub type : String

abbrev pub append_defined :
    String → Option (Option Value) → List (String × Value) → List (String × Value)
append_defined name (some (some v)) parts = List.◌++◌ parts ((name, v) ∷ [])
append_defined name v parts = parts

-- handleFileUpload: the parts for the parameters that are no files.
unfoldable pub field_parts :
    Dict (Option Value) → List FormParameter → List (String × Value) → List (String × Value)
unfolding get to_lower_case
field_parts map [] parts = parts
field_parts map (param ∷ params) parts = field_parts map params (
    if param.is_form && not (to_lower_case param.type == "file")
    then append_defined param.name (get param.name map) parts
    else parts)

abbrev pub file_part : String → Option Value → List (String × Value)
file_part name none = []
file_part name (some file) = (name, file) ∷ []

-- The files that are chosen, by the names of their elements.
abbrev pub file_parts : List Input → List (String × Value)
file_parts [] = []
file_parts (o ∷ os) =
    let rest = file_parts os in
    if o.type == "file" then List.◌++◌ (file_part o.name o.file) rest else rest

-- `form.serializeArray()`, of the fields of the form.
abbrev pub put_fields : List (String × String) → Dict (Option Value) → Dict (Option Value)
put_fields [] map = map
put_fields ((name, v) ∷ fields) map = put_fields fields (put_text name v map)

-- The FormData of handleFileUpload. With no file it has a part more.
unfoldable pub upload_parts :
    List (String × String)
    → List FormParameter
    → List Input
    → Dict (Option Value)
    → List (String × Value)
unfolding field_parts put trim
upload_parts fields parameters inputs map =
    let files = file_parts inputs in
    List.◌++◌ (field_parts (put_fields fields map) parameters [])
      (if is_empty files then ("fake", str "true") ∷ [] else files)

-- What `.` does not match, in a text with no carriage return.
unfoldable pub has_line_end : String → Bool
has_line_end [] = false
has_line_end (c ∷ s) = code c =? 10 || (between 8232 8233 (code c) || has_line_end s)

-- OperationView.wrap: `line.match(/^([^:]*?):(.*)$/)`, and the header that it finds.
abbrev pub put_pair : Option (String × String) → Dict Value → Dict Value
put_pair none headers = headers
put_pair (some (name, v)) headers =
    if has_line_end v then headers else put (trim name) (str (trim v)) headers

unfoldable pub wrap_lines : List String → Dict Value → Dict Value
unfolding split_colon put trim has_line_end
wrap_lines [] headers = headers
wrap_lines (line ∷ lines) headers = wrap_lines lines (put_pair (split_colon line) headers)

unfoldable pub wrap_headers : String → Dict Value
unfolding wrap_lines split
wrap_headers text = wrap_lines (split b'\r' text) []

-- The elements that showStatus chooses between.
pub data Shown : Type 0 where
  no_content : Shown
  json : String → Shown
  xml : String → Shown
  html : String → Shown
  image : Shown
  text : String → Shown

abbrev pub first_text : List String → String
first_text [] = ""
first_text (t ∷ ts) = t

-- `contentType.split(";")[0].trim()`
abbrev pub media_type : String → String
media_type t = trim (first_text (split b';' t))

abbrev pub type_of : Option Value → String
type_of (some (str t)) = if t == "" then "" else media_type t
type_of v = ""

-- `/\+json$/.test(contentType)`, of a suffix.
unfoldable pub ends_with : String → String → Bool
ends_with p [] = p == ""
ends_with p (c ∷ s) = let rest = ends_with p s in if p == (c ∷ s) then true else rest

-- OperationView.showStatus: how the content of an answer is shown.
unfoldable pub show_content : Dict Value → String → Shown
unfolding get split trim ends_with starts_with
show_content headers content =
    let type = type_of (or_set (get "Content-Type" headers) (get "content-type" headers)) in
    if content == ""
    then no_content
    else if type == "application/json" || ends_with "+json" type
    then json content
    else if type == "application/xml" || ends_with "+xml" type
    then xml content
    else if type == "text/html"
    then html content
    else if starts_with "image/" type
    then image
    else text content
