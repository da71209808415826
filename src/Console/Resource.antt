-- ===== src/Console/Resource.antt =====
-- swagger-ui.js, MainView.initialize, MainView.render, ResourceView and SignatureView: the buttons of
-- a page, the operations of a resource, and the two sides of a signature.
pub mod Laws
use Prim.Native.String.{◌++◌}
use mathlib.Core.List
use common_services_common_u.Base.{
  ℕ, zero, suc, ◌+◌, String, Bool, true, false, ◌&&◌, not, Option, none, some, List, [], ◌∷◌, ◌==◌,
  if◌then◌else◌,
}
use common_services_common_u.Js.Text.{contains, starts_with}
use common_services_common_u.Js.Space.{trim}
use common_services_common_u.Js.Dict.{Dict}
use common_services_common_u.Console.Pages.{free_id, push_id}
use common_services_common_u.Console.View.Scopes.{Definition}

-- `opts.swaggerOptions.validatorUrl` in a `some` if the options have it, even as null or undefined.
abbrev pub own_validator : Option (Option String) → String → Option String
own_validator (some url) address = url
own_validator none address =
    if contains "localhost" address
    then (if starts_with "localhost" address
        then some "http://online.swagger.io/validator"
        else none)
    else some "http://online.swagger.io/validator"

-- `model.validatorUrl`, which only descriptions of version 2.0 get.
unfoldable pub validator_url : Option String → Option (Option String) → String → Option String
unfolding contains starts_with
validator_url none option address = none
validator_url (some version) option address =
    if version == "2.0" then own_validator option address else none

-- The buttons of the page: whether there is one for an API key, and one for a password. `found` are
-- those that the page has already.
pub record Buttons : Type 0 where
  pub api_key : Bool
  pub basic_auth : Bool
  pub drawn : List String

abbrev pub draw_api_key : String → String → Buttons → Buttons
draw_api_key name type b =
    if (type == "apiKey") && not b.api_key
    then record { api_key = true; basic_auth = b.basic_auth; drawn = List.◌++◌ b.drawn (name ∷ []) }
    else b

abbrev pub draw_basic_auth : String → String → Buttons → Buttons
draw_basic_auth name type b =
    if (type == "basicAuth") && not b.basic_auth
    then record { api_key = b.api_key; basic_auth = true; drawn = List.◌++◌ b.drawn (name ∷ []) }
    else b

unfoldable pub draw_buttons : Dict Definition → Buttons → Buttons
draw_buttons [] b = b
draw_buttons ((name, auth) ∷ definitions) b =
    draw_buttons definitions (draw_basic_auth name auth.type (draw_api_key name auth.type b))

-- ResourceView.initialize: the description and the summary of a resource.
abbrev pub describe : Option String → Option String → Option String × Option String
describe none summary = (none, summary)
describe (some d) summary = if d == "" then (none, summary) else (some d, some d)

-- The loop of ResourceView.render over the operations: the nicknames, which are the ids of the
-- operations. Unlike MainView.render it counts anew for each; `none` needs more fuel.
unfoldable pub assign_nicknames : ℕ → List String → List String → Option (List String)
unfolding free_id
assign_nicknames fuel [] methods = some methods
assign_nicknames fuel (nickname ∷ nicknames) methods =
    push_id (free_id fuel methods nickname 0)
      (λ id next. assign_nicknames fuel nicknames (List.◌++◌ methods (id ∷ [])))

-- A SignatureView with the text of the form that it stands in.
pub data Side : Type 0 where
  description_side : Side
  snippet_side : Side

pub record SignatureState : Type 0 where
  pub is_param : Bool
  pub sample_json : String
  pub side : Side
  pub notice : String
  pub text_area : String

pub data Event : Type 0 where
  switch_to_description : Event
  switch_to_snippet : Event
  snippet_to_text_area : Event

-- SignatureView.render
abbrev pub new_signature : Bool → String → String → SignatureState
new_signature is_param sample text = record {
  is_param = is_param;
  sample_json = sample;
  side = snippet_side;
  notice = if is_param then "Click to set as parameter value" else "";
  text_area = text;
}

unfoldable pub handle : Event → SignatureState → SignatureState
unfolding trim
handle switch_to_description s = record s { side = description_side }
handle switch_to_snippet s = record s { side = snippet_side }
handle snippet_to_text_area s =
    if s.is_param && (trim s.text_area == "") then record s { text_area = s.sample_json } else s

unfoldable pub handle_all : List Event → SignatureState → SignatureState
unfolding handle
handle_all [] s = s
handle_all (e ∷ es) s = handle_all es (handle e s)
