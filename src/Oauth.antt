-- ===== src/Oauth.antt =====
-- lib/swagger-oauth.js: the OAuth of the console, from the choice of scopes to the credential that it
-- stores. What stands in the page is an argument: the scopes that are checked, and those that a panel
-- lists.
pub mod Laws
use Prim.Native.String.{[], ◌∷◌, ◌++◌}
use mathlib.Core.List
use common_services_common_u.Base.{
  ℕ, zero, suc, ◌+◌, Char, code, String, Bool, true, false, ◌||◌, ◌&&◌, not, Option, none, some,
  List, [], ◌∷◌, map, ◌==◌, if◌then◌else◌, any, is_empty, length,
}
use common_services_common_u.Js.Text.{join}
use common_services_common_u.Js.Dict.{Dict, get, put, delete}
use common_services_common_u.Js.Value.{
  Value, str, num, Fields, get_field, is_set, has_text, to_string, decimal,
}
use common_services_common_u.Js.Uri.{encode_uri_component}
use common_services_common_u.Authorizations.{Authorization, api_key, add, remove}
use common_services_common_u.Listing.{before_last_slash, text_or_empty}

pub record Scope : Type 0 where
  pub scope : String
  pub description : String

-- `auth.scopes`: the array of version 1.2, or the object of version 2.0.
pub data Scopes : Type 0 where
  no_scopes : Scopes
  listed : List Scope → Scopes
  named : Dict String → Scopes

-- A grant of version 1.2, with the URL of its endpoint.
pub record Grant : Type 0 where
  pub endpoint_url : String
  pub token_name : Option String

-- A scheme of `authSchemes` or `securityDefinitions`.
pub record Scheme : Type 0 where
  pub type : Option String
  pub scopes : Scopes
  pub flow : Option String
  pub authorization_url : Option String
  pub token_name : Option String
  pub token_url : Option String
  pub grant_types : Option (Dict Grant)

-- The variables of the script, and those of `window.swaggerUi` and `window` that it sets.
pub record Oauth : Type 0 where
  pub key_name : Option String
  pub app_name : Value
  pub client_id : Value
  pub realm : Value
  pub redirect_uri : Option String
  pub token_name : Option String
  pub token_url : Option String
  pub enabled_scopes : Option (List String)
  pub authz : Dict Authorization

abbrev pub is_text : String → Option String → Bool
is_text t none = false
is_text t (some s) = s == t

abbrev pub scopes_of : Scopes → List Scope
scopes_of no_scopes = []
scopes_of (listed scopes) = scopes
scopes_of (named []) = []
scopes_of (named ((scope, description) ∷ more)) =
    record { scope = scope; description = description } ∷ scopes_of (named more)

abbrev pub has_scopes : Scopes → Bool
has_scopes no_scopes = false
has_scopes _ = true

-- handleLogin: the scopes that it shows, and `oauth2KeyName`, the name of the last scheme that has some.
unfoldable pub collect_scopes :
    Dict Scheme → List Scope × Option String → List Scope × Option String
collect_scopes [] acc = acc
collect_scopes ((key, auth) ∷ auths) (scopes, key_name) = collect_scopes auths (
    if is_text "oauth2" auth.type && has_scopes auth.scopes
    then (List.◌++◌ scopes (scopes_of auth.scopes), some key)
    else (scopes, key_name))

abbrev pub description_html : String → String
description_html description =
    if description == ""
    then ""
    else "<br/><span class=\"api-scope-desc\">" ++ (description ++ "</span>")

-- The items of the dialog.
unfoldable pub scope_items : ℕ → List Scope → List String
unfolding decimal
scope_items i [] = []
scope_items i (s ∷ scopes) =
    ("<li><input type=\"checkbox\" id=\"scope_"
      ++ (decimal i
          ++ ("\" scope=\""
              ++ (s.scope
                  ++ ("\"/><label for=\"scope_"
                      ++ (decimal i
                          ++ ("\">"
                              ++ (s.scope
                                  ++ (description_html s.description ++ "</label></li>")))))))))
    ∷ scope_items (suc i) scopes

-- `url`, and the names under which the token is asked for.
pub record Choice : Type 0 where
  pub url : Option String
  pub token_name : Option String
  pub token_url : Option String

abbrev pub shown : Option String → String
shown none = "undefined"
shown (some t) = t

abbrev pub or_name : Option String → String → Option String
or_name name default = if has_text name then name else some default

abbrev pub choose_flow : Scheme → Choice
choose_flow s =
    let implicit = is_text "implicit" s.flow in
    record {
      url = some (
          shown s.authorization_url
          ++ ("?response_type=" ++ (if implicit then "token" else "code")));
      token_name = or_name s.token_name "access_token";
      token_url = if implicit then none else s.token_url;
    }

-- The grants of version 1.2; the URL for the token is not set.
unfoldable pub choose_grant : Dict Grant → Choice → Choice
choose_grant [] c = c
choose_grant ((t, grant) ∷ grants) c = choose_grant grants (
    if t == "implicit"
    then record c {
      url = some (grant.endpoint_url ++ "?response_type=token");
      token_name = grant.token_name;
    }
    else if t == "accessCode"
    then record c {
      url = some (grant.endpoint_url ++ "?response_type=code");
      token_name = grant.token_name;
    }
    else c)

abbrev pub is_flow : Scheme → Bool
is_flow s = is_text "oauth2" s.type && (is_text "implicit" s.flow || is_text "accessCode" s.flow)

abbrev pub choose_grants : Option (Dict Grant) → Choice → Choice
choose_grants none c = c
choose_grants (some grants) c = choose_grant grants c

-- `for (var key in authSchemes)`: the last scheme that has a flow counts.
unfoldable pub choose_url : Dict Scheme → Choice → Choice
unfolding choose_grant
choose_url [] c = c
choose_url ((key, s) ∷ schemes) c =
    choose_url schemes (if is_flow s then choose_flow s else choose_grants s.grant_types c)

-- The scopes of the boxes that are checked, each once.
unfoldable pub distinct : List String → List String → List String
distinct [] scopes = scopes
distinct (s ∷ checked) scopes =
    distinct checked (if any (λ t. t == s) scopes then scopes else List.◌++◌ scopes (s ∷ []))

-- `window.location`
pub record Location : Type 0 where
  pub protocol : String
  pub host : String
  pub pathname : String

unfoldable pub redirect_url : Location → String
unfolding before_last_slash
redirect_url location =
    location.protocol
    ++ ("//"
        ++ (location.host ++ (text_or_empty (before_last_slash location.pathname) ++ "/o2c.html")))

abbrev pub url_or_null : Option String → String
url_or_null none = "null"
url_or_null (some url) = url

-- The handler of the button that authorizes: the state afterwards, and the URL of the window.
unfoldable pub authorize : Dict Scheme → Location → List String → Oauth → Oauth × String
unfolding choose_url distinct redirect_url encode_uri_component to_string
authorize schemes location checked o =
    let chosen =
      choose_url schemes
        (record { url = none; token_name = o.token_name; token_url = o.token_url }) in
    let scopes = distinct checked [] in
    let redirect = redirect_url location in
    (
      record o {
        token_name = chosen.token_name;
        token_url = chosen.token_url;
        enabled_scopes = some scopes;
        redirect_uri = some redirect;
      },
      url_or_null chosen.url
          ++ ("&redirect_uri="
              ++ (encode_uri_component redirect
                  ++ ("&realm="
                      ++ (encode_uri_component (to_string o.realm)
                          ++ ("&client_id="
                              ++ (encode_uri_component (to_string o.client_id)
                                  ++ ("&scope=" ++ encode_uri_component (join "," scopes)))))))),
    )

-- `for (key in window.authorizations.authz) window.authorizations.remove(key)`
unfoldable pub remove_keys : Dict Authorization → Dict Authorization → Dict Authorization
unfolding remove
remove_keys [] authz = authz
remove_keys ((key, auth) ∷ keys) authz = remove_keys keys (remove key authz)

-- handleLogout
unfoldable pub logout : Oauth → Oauth
unfolding remove_keys
logout o = record o { authz = remove_keys o.authz o.authz; enabled_scopes = none }

-- What a page passes to initOAuth.
pub record InitOptions : Type 0 where
  pub app_name : Option String
  pub client_id : Option String
  pub realm : Option String

-- `o.f || errors.push(message)`, which is the number of messages.
abbrev pub or_push : Option String → String → List String → Value × List String
or_push field message errors =
    if has_text field
    then (str (shown field), errors)
    else let more = List.◌++◌ errors (message ∷ []) in (num (length more), more)

-- initOAuth: the state, and the errors, with which it goes no further.
unfoldable pub init_oauth : InitOptions → Oauth → Oauth × List String
init_oauth options o =
    let (app_name, first) = or_push options.app_name "missing appName" [] in
    let (client_id, second) = or_push options.client_id "missing client id" first in
    let (realm, errors) = or_push options.realm "missing realm" second in
    (record o { app_name = app_name; client_id = client_id; realm = realm }, errors)

-- processOAuthCode: the fields that are posted to `tokenUrl`.
unfoldable pub code_request : Value → Oauth → Dict Value
code_request received o =
    ("client_id", o.client_id)
    ∷ ("code", received)
    ∷ ("grant_type", str "authorization_code")
    ∷ ("redirect_uri", str (shown o.redirect_uri))
    ∷ []

-- The scopes that a panel requires and that are not enabled.
abbrev pub lacks_scope : Option (List String) → String → Bool
lacks_scope none s = false
lacks_scope (some enabled) s = not (any (λ t. t == s) enabled)

unfoldable pub missing_scopes : Option (List String) → List String → List String
missing_scopes enabled [] = []
missing_scopes enabled (s ∷ required) =
    let rest = missing_scopes enabled required in if lacks_scope enabled s then s ∷ rest else rest

-- What onOAuthComplete comes to: nothing, an alert, or a credential, with a mark for each panel that says
-- whether all of its scopes are enabled.
pub data Completion : Type 0 where
  ignored : Completion
  alert : Value → Completion
  authorized : List Bool → Completion

abbrev pub is_satisfied : Option (List String) → List String → Bool
is_satisfied enabled required = is_empty (missing_scopes enabled required)

abbrev pub bearer : Value → Authorization
bearer b = api_key "Authorization" ("Bearer " ++ to_string b) "header"

-- `oauth2KeyName` is undefined before the dialog was shown.
abbrev pub store_token : List (List String) → Option Value → Oauth → Oauth × Completion
store_token panels none o = (o, ignored)
store_token panels (some b) o =
    if is_set (some b)
    then (
      record o { authz = add (shown o.key_name) (bearer b) o.authz },
      authorized (map (is_satisfied o.enabled_scopes) panels),
    )
    else (o, ignored)

abbrev pub complete_with : List (List String) → Option Value → Fields → Oauth → Oauth × Completion
complete_with panels none token o = store_token panels (get_field (shown o.token_name) token) o
complete_with panels (some error) token o =
    if is_set (some error)
    then (o, alert error)
    else store_token panels (get_field (shown o.token_name) token) o

-- onOAuthComplete; `none` is the empty text of an answer that failed.
unfoldable pub on_complete : List (List String) → Option Fields → Oauth → Oauth × Completion
unfolding add get_field missing_scopes to_string
on_complete panels none o = (o, ignored)
on_complete panels (some token) o = complete_with panels (get_field "error" token) token o
