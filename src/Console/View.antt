-- ===== src/Console/View.antt =====
-- swagger-ui.js, OperationView.render and ParameterView.render: what the views of an operation and of
-- its parameters are drawn from. The text `$ref` of a schema stands for the schema.
pub mod Scopes
pub mod Laws
use Prim.Native.String.{[], ◌∷◌, ◌++◌}
use mathlib.Core.List
use common_services_common_u.Base.{
  ℕ, suc, code, String, Bool, true, false, ◌||◌, ◌=?◌, Option, none, some, is_some, List, [], ◌∷◌,
  map, ◌==◌, if◌then◌else◌, any,
}
use common_services_common_u.Js.Text.{strip_prefix, to_lower_case}
use common_services_common_u.Js.Dict.{Dict}
use common_services_common_u.Js.Value.{Value, str, is_set, has_text}

-- `description.replace(/(?:\r\n|\r|\n)/g, '<br />')`; the flag says that a carriage return stands
-- before.
unfoldable pub break_lines : Bool → String → String
break_lines behind [] = ""
break_lines behind (c ∷ s) =
    let plain = break_lines false s in
    let behind_cr = break_lines true s in
    if code c =? 13
    then "<br />" ++ behind_cr
    else if code c =? 10
    then (if behind then plain else "<br />" ++ plain)
    else c ∷ plain

abbrev pub or_else : Option String → Option String → Option String
or_else first second = if has_text first then first else second

-- `model.description || model.notes`, with its lines broken.
unfoldable pub shown_description : Option String → Option String → Option String
unfolding break_lines
shown_description description notes = elim (or_else description notes) [
  | none ↦ none
  | some d ↦ some (break_lines false d)
]

-- The name that a reference to a definition has, and any other reference itself.
abbrev pub definition_name : String → String
definition_name ref = elim (strip_prefix "#/definitions/" ref) [ none ↦ ref | some name ↦ name ]

-- A response of the operation, and the row of the table of status codes.
pub record Response : Type 0 where
  pub description : Option String
  pub ref : Option String

pub record StatusRow : Type 0 where
  pub status : String
  pub message : Option String
  pub response_model : Option String

abbrev pub response_schema : Option String → Option String
response_schema none = none
response_schema (some ref) = if ref == "" then none else some (definition_name ref)

abbrev pub status_row : String × Response → StatusRow
status_row (status, r) = record {
  status = status;
  message = r.description;
  response_model = response_schema r.ref;
}

-- The rows, of the responses if there are any, else of the messages of an older description.
unfoldable pub status_rows : Option (Dict Response) → Option (List StatusRow) → List StatusRow
unfolding strip_prefix
status_rows (some responses) messages = map status_row responses
status_rows none (some messages) = messages
status_rows none none = []

-- A parameter, as far as its view reads it.
pub record ParameterModel : Type 0 where
  pub name : String
  pub type : Option String
  pub data_type : Option String
  pub ref : Option String
  pub place : Option String
  pub param_type : Option String
  pub required : Bool
  pub default : Option Value
  pub default_value : Option Value
  pub has_allowable_values : Bool
  pub is_body : Bool
  pub is_file : Bool
  pub is_list : Bool
  pub consumes : Option Value

abbrev pub is_file_type : Option String → Bool
is_file_type none = false
is_file_type (some t) = to_lower_case t == "file"

-- `param.type || param.dataType || ''`. The test that follows it for `undefined` never holds.
abbrev pub own_type : ParameterModel → String
own_type p = elim (or_else (or_else p.type p.data_type) (some "")) [ none ↦ "" | some t ↦ t ]

-- The first loop over the parameters: `contentTypeModel.consumes`, and the types that are written.
unfoldable pub scan_types : List ParameterModel → Option Value → List ParameterModel × Option Value
unfolding to_lower_case
scan_types [] consumes = ([], consumes)
scan_types (p ∷ ps) consumes =
    let t = own_type p in
    let multipart =
      if is_file_type (some t)
      then (if is_set consumes then consumes else some (str "multipart/form-data"))
      else consumes in
    let (rest, all) = scan_types ps multipart in (record p { type = some t } ∷ rest, all)

-- OperationView.addParameter
abbrev pub with_consumes : Option Value → ParameterModel → ParameterModel
with_consumes consumes p = record p { consumes = consumes }

abbrev pub type_of_ref : Option String → Option String
type_of_ref none = none
type_of_ref (some ref) = if ref == "" then none else some (definition_name ref)

-- `this.model.type || this.model.dataType`: where both are empty texts the type is the second.
abbrev pub view_type : ParameterModel → Option String
view_type p = let t = or_else p.type p.data_type in if is_some t then t else type_of_ref p.ref

abbrev pub is_place : String → Option String → Bool
is_place s none = false
is_place s (some t) = t == s

abbrev pub or_value : Option Value → Option Value → Option Value
or_value first second = if is_set first then first else second

-- ParameterView.render up to the template.
unfoldable pub render_parameter : ParameterModel → ParameterModel
unfolding to_lower_case strip_prefix
render_parameter p =
    let type = view_type p in
    let place = or_else p.place p.param_type in
    record p {
      type = type;
      param_type = place;
      is_body = is_place "body" place || is_place "body" p.place || p.is_body;
      is_file = is_file_type type || p.is_file;
      default = or_value p.default p.default_value;
      is_list = p.has_allowable_values || p.is_list;
    }

-- The parameters as an operation shows them.
unfoldable pub show_parameters : Option Value → List ParameterModel → List ParameterModel
unfolding scan_types render_parameter
show_parameters consumes ps =
    let (scanned, all) = scan_types ps consumes in
    map (λ p. render_parameter (with_consumes all p)) scanned

pub data Template : Type 0 where
  param_list : Template
  param_readonly_required : Template
  param_readonly : Template
  param_required : Template
  param : Template

-- ParameterView.template
unfoldable pub template_of : Bool → ParameterModel → Template
template_of read_only p =
    if p.is_list
    then param_list
    else if read_only
    then (if p.required then param_readonly_required else param_readonly)
    else (if p.required then param_required else param)

-- OperationView.render: an operation whose method may not be submitted is read only.
abbrev pub is_read_only : String → List String → Bool → Bool
is_read_only method supported was = if any (λ m. m == method) supported then was else true
