-- ===== src/Tests/Views.antt =====
-- The views of an operation, and the beginning of a client, at concrete inputs.
use common_services_common_u.Base.{
  ◌≡◌, refl, ◌⊎◌, String, true, false, Option, none, some, List, [], ◌∷◌, map, arith, ◌==◌,
}
use common_services_common_u.Js.Space.{trim}
use common_services_common_u.Js.Text.{to_lower_case, starts_with}
use common_services_common_u.Js.Value.{Value, str, obj, field, no_fields}
use common_services_common_u.Js.Dict.{Dict}
use common_services_common_u.Authorizations.{Authorization, api_key}
use common_services_common_u.Client.Start.{
  Options, builds_1_2, fails, throws, receive_description, error, response, is_two,
}
use common_services_common_u.Console.Panel.{
  Window, Elements, mouse_enter, mouse_exit, IsInWindow, mouse_enter-IsInWindow,
}
use common_services_common_u.Console.View.{
  ParameterModel, show_parameters, shown_description, template_of, param_readonly_required,
}
use common_services_common_u.Console.View.Scopes.{
  Definition, Auth, auths_of, required_scopes, requirements, show_oauth, show_oauth-last,
}
use common_services_common_u.Console.View.Laws.{shown, show_parameters-eq-map}
use common_services_common_u.Console.Resource.{
  SignatureState, switch_to_description, snippet_to_text_area, handle_all, new_signature,
  validator_url, draw_buttons, Buttons, assign_nicknames,
}
use common_services_common_u.Console.Resource.Laws.{handle_all-text_area}

abbrev window : Window
window = record { scroll_left = 10; scroll_top = 100; width = 800; height = 600 }

abbrev elements : Elements
elements = record {
  content = record { left = 0; top = 0 };
  information_panel = record { left = 776; top = 526 };
  is_shown = false;
}

mouse_enter-IsInWindow_example :
    let entered = mouse_enter window 200 500 790 120 elements in
    IsInWindow window 200 500 entered.content
    × (IsInWindow window 200 500 (record { left = 790; top = 120 })
        → entered.content ≡ record { left = 790; top = 120 })
    × (entered.is_shown ≡ true)
    × (entered.information_panel ≡ record { left = 776; top = 526 })
    × (mouse_exit entered ≡ record entered { is_shown = false })
mouse_enter-IsInWindow_example =
    mouse_enter-IsInWindow window 200 500 790 120 elements (omega arith) (omega arith)

-- An element that is larger than the window is given a corner of it.
drawn_in : (mouse_enter window 900 500 790 650 elements).content ≡ record { left = 10; top = 200 }
unfolding mouse_enter
drawn_in = refl

broken : shown_description none (some "a\r\nb\nc") ≡ some "a<br />b<br />c"
unfolding shown_description
broken = refl

abbrev parameter : String → Option String → Option String → Option String → ParameterModel
parameter name type ref place = record {
  name = name;
  type = type;
  data_type = none;
  ref = ref;
  place = place;
  param_type = none;
  required = true;
  default = none;
  default_value = none;
  has_allowable_values = false;
  is_body = false;
  is_file = false;
  is_list = false;
  consumes = none;
}

abbrev parameters : List ParameterModel
parameters =
    parameter "pet" none (some "#/definitions/Pet") (some "body")
    ∷ parameter "photo" (some "File") none (some "formData")
    ∷ []

types :
    map (λ (p : ParameterModel). p.type) (show_parameters none parameters)
    ≡ some "Pet" ∷ some "File" ∷ []
unfolding show_parameters
types = refl

show_parameters-eq-map_example :
    show_parameters none parameters ≡ map (shown (some (str "multipart/form-data"))) parameters
unfolding to_lower_case
show_parameters-eq-map_example = show_parameters-eq-map none parameters

chosen_template : template_of true (parameter "id" none none none) ≡ param_readonly_required
unfolding template_of
chosen_template = refl

abbrev definitions : Dict Definition
definitions =
    ("key", record { type = "apiKey"; scopes = [] })
    ∷ ("login", record { type = "oauth2"; scopes = ("read", "Read") ∷ ("write", "Write") ∷ [] })
    ∷ []

abbrev login : Auth
login = record {
  name = "login";
  type = "oauth2";
  value = record { type = "oauth2"; scopes = ("read", "Read") ∷ ("write", "Write") ∷ [] };
}

-- The scope "write" is required, and the key behind it takes it away.
show_oauth-last_example :
    show_oauth
      (auths_of definitions)
      (some (requirements ((("login", "write" ∷ []) ∷ ("key", []) ∷ []) ∷ [])))
    ≡ some []
unfolding auths_of required_scopes
show_oauth-last_example =
    show_oauth-last (auths_of definitions) login [] (("login", "write" ∷ []) ∷ []) "key" [] refl

asked :
    show_oauth (auths_of definitions) (some (requirements ((("login", "write" ∷ []) ∷ []) ∷ [])))
    ≡ some (record { scope = "write"; description = "Write" } ∷ [])
unfolding show_oauth auths_of
asked = refl

abbrev buttons : Buttons
buttons = record { api_key = false; basic_auth = false; drawn = [] }

drawn : (draw_buttons definitions buttons).drawn ≡ "key" ∷ []
unfolding draw_buttons
drawn = refl

validators :
    (validator_url (some "2.0") none "http://localhost/api" ≡ none)
    × (validator_url (some "2.0") none "http://h/api" ≡ some "http://online.swagger.io/validator")
unfolding validator_url
validators = (refl, refl)

nicknames :
    assign_nicknames 4 ("get" ∷ "get" ∷ "get" ∷ []) [] ≡ some ("get" ∷ "get_0" ∷ "get_0_1" ∷ [])
unfolding assign_nicknames
nicknames = refl

abbrev clicked : SignatureState
clicked = new_signature true "{}" " mine "

handle_all-text_area_example :
    ((handle_all (snippet_to_text_area ∷ switch_to_description ∷ []) clicked).text_area ≡ " mine ")
    ⊎ ((true ≡ true)
        × ((trim " mine " == "") ≡ true)
        × ((handle_all (snippet_to_text_area ∷ switch_to_description ∷ []) clicked).text_area
            ≡ "{}"))
handle_all-text_area_example =
    handle_all-text_area (snippet_to_text_area ∷ switch_to_description ∷ []) clicked

abbrev options : Options
options = record {
  url = "http://h/api.json";
  request_headers = none;
  has_success = true;
  use_jquery = true;
  own_authorizations = none;
  supported_submit_methods = none;
  spec = none;
}

abbrev page : Dict Authorization
page = ("key", api_key "api_key" "k" "query") ∷ []

two :
    (is_two " +2.0" ≡ true) × (is_two "0x2" ≡ true) × (is_two "1.2" ≡ false) × (is_two "20" ≡ false)
unfolding is_two
two = (refl, refl, refl, refl)

abbrev older_description : Value
older_description = obj (field "swaggerVersion" (str "1.2") no_fields)

answers :
    (receive_description (λ s. none) "http://h" (error 404 "Not Found")
      ≡ fails "Can't read swagger JSON from http://h")
    × (receive_description (λ s. none) "http://h" (response none "<html>") ≡ throws)
    × (receive_description (λ s. some older_description) "http://h" (response none "{…}")
        ≡ builds_1_2 older_description)
unfolding receive_description starts_with
answers = (refl, refl, refl)
