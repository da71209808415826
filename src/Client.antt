-- ===== src/Client.antt =====
-- lib/swagger-client.js, SwaggerClient.buildFromSpec: the operations of a description, their names and
-- the groups of their tags.
pub mod Ids
pub mod Groups
pub mod Start
use Prim.Native.String.{[], ◌∷◌, ◌++◌}
use mathlib.Core.List
use common_services_common_u.Base.{
  ℕ, Char, code, String, Bool, true, false, ◌||◌, ◌&&◌, Option, none, some, List, [], ◌∷◌, ◌==◌,
  ◌=?◌, leb, if◌then◌else◌, not, any,
}
use common_services_common_u.Js.Space.{between, is_space}
use common_services_common_u.Js.Text.{starts_with}
use common_services_common_u.Js.Dict.{Dict, get, put}
use common_services_common_u.Js.Value.{decimal}

-- The class `[\.,-\/#!$%\^&\*;:{}=\-_`~()\+\s]` of the regular expression.
unfoldable pub is_replaced : ℕ → Bool
unfolding is_space
is_replaced c =
    c =? 33
    || between 35 38 c
    || between 40 47 c
    || c =? 58
    || c =? 59
    || c =? 61
    || between 94 96 c
    || c =? 123
    || c =? 125
    || c =? 126
    || is_space c

abbrev pub id_char : Char → Char
id_char c = if is_replaced (code c) then "_" else c

-- `opId.replace(/…/g, '_')`
unfoldable pub replace_marks : String → String
unfolding is_replaced
replace_marks [] = ""
replace_marks (c ∷ s) = id_char c ∷ replace_marks s

-- An operation as the description has it.
pub record Described : Type 0 where
  pub operation_id : Option String
  pub tags : Option (List String)

abbrev pub rest_of : String → String
rest_of [] = ""
rest_of (c ∷ s) = s

abbrev pub id_or_default : String → String → Option String → String
id_or_default path http_method none = rest_of path ++ ("_" ++ http_method)
id_or_default path http_method (some id) =
    if id == "" then rest_of path ++ ("_" ++ http_method) else id

unfoldable pub id_from_op : String → String → Described → String
unfolding replace_marks
id_from_op path http_method op = replace_marks (id_or_default path http_method op.operation_id)

-- `operationObject`
pub record Bound : Type 0 where
  pub id : String
  pub http_method : String
  pub path : String

-- `operationGroup`, with the `operationsArray` of its OperationGroup.
pub record Group : Type 0 where
  pub description : Option String
  pub operations : List Bound

-- `apis` of the client, and its groups in the order of `apisArray`.
pub record Built : Type 0 where
  pub apis : Dict (Dict Bound)
  pub groups : Dict Group

abbrev pub group_or_new : Option String → Option Group → Group
group_or_new description none = record { description = description; operations = [] }
group_or_new description (some g) = g

abbrev pub dict_or_new : Option (Dict Bound) → Dict Bound
dict_or_new none = []
dict_or_new (some d) = d

abbrev pub with_operation : Bound → Group → Group
with_operation op g = record g { operations = List.◌++◌ g.operations (op ∷ []) }

abbrev pub is_method : String → Bool
is_method m =
    any (λ k. k == m) ("delete" ∷ "get" ∷ "head" ∷ "options" ∷ "patch" ∷ "post" ∷ "put" ∷ [])

abbrev pub go_on {ℓ κ} : {A : Type ℓ} {B : Type κ} → Option A → (A → Option B) → Option B
go_on none f = none
go_on (some a) f = f a

-- `members` are the names that the client has before, as members that are defined, and
-- `defined_tags` the descriptions of `definedTags`.
module _ (members : List String) (defined_tags : Dict String) where
  -- One turn of the loop over the tags. A tag that is the name of a member finds that member in place
  -- of a group, and its `apis` has no `push`: a TypeError.
  unfoldable pub bind_tag : Bound → String → Built → Option Built
  bind_tag op tag b =
      if any (λ m. m == tag) members
      then none
      else some (record {
        apis = put tag (put op.id op (dict_or_new (get tag b.apis))) b.apis;
        groups =
            put tag (with_operation op (group_or_new (get tag defined_tags) (get tag b.groups)))
              b.groups;
      })

  unfoldable pub bind_tags : Bound → List String → Built → Option Built
  unfolding bind_tag
  bind_tags op [] b = some b
  bind_tags op (tag ∷ tags) b = go_on (bind_tag op tag b) (bind_tags op tags)

  -- `operation.tags`, or `[ 'default' ]`.
  abbrev pub tags_of : Option (List String) → List String
  tags_of none = "default" ∷ []
  tags_of (some tags) = tags

  abbrev pub bound : String → String → Described → Bound
  bound path http_method op = record {
    id = id_from_op path http_method op;
    http_method = http_method;
    path = path;
  }

  unfoldable pub bind_methods : String → Dict Described → Built → Option Built
  unfolding bind_tags
  bind_methods path [] b = some b
  bind_methods path ((http_method, op) ∷ methods) b =
      if is_method http_method
      then go_on (bind_tags (bound path http_method op) (tags_of op.tags) b)
          (bind_methods path methods)
      else bind_methods path methods b

  -- `for (path in response.paths)`
  unfoldable pub bind_paths : Dict (Dict Described) → Built → Option Built
  unfolding bind_methods
  bind_paths [] b = some b
  bind_paths ((path, methods) ∷ paths) b = go_on (bind_methods path methods b) (bind_paths paths)

-- The message of `on.error` of build.
unfoldable pub failure_message : String → ℕ → String → String
failure_message url status status_text =
    if not (starts_with "http" url)
    then "Please specify the protocol for " ++ url
    else if status =? 0
    then "Can't read from server.  It may not have the appropriate access-control-origin settings."
    else if status =? 404
    then "Can't read swagger JSON from " ++ url
    else decimal status ++ (" : " ++ (status_text ++ (" " ++ url)))

-- SwaggerClient.help, of a group: the nickname and the summary of each of its operations.
abbrev help_lines : List (String × String) → String → String
help_lines [] output = output
help_lines ((nickname, summary) ∷ apis) output =
    help_lines apis (output ++ ("\n  * " ++ (nickname ++ (": " ++ summary))))

unfoldable pub group_help : String → List (String × String) → String
group_help label apis = help_lines apis ("operations for the \"" ++ (label ++ "\" tag"))

-- What parseUri finds in the URL of the description; the regular expression is not modelled.
pub record Uri : Type 0 where
  pub scheme : String
  pub host : Option String
  pub port : Option String

-- `this.scheme`; the outer `none` is the TypeError of a client whose `url` is no text.
unfoldable pub choose_scheme : List String → Option Uri → Option String
choose_scheme (scheme ∷ schemes) location = some scheme
choose_scheme [] none = none
choose_scheme [] (some uri) = some (if uri.scheme == "" then "http" else uri.scheme)

abbrev pub with_port : String → Option String → String
with_port host none = host
with_port host (some port) = if port == "" then host else host ++ (":" ++ port)

-- `undefined + ':' + port` has the name of the value.
abbrev pub host_of : Option String → Option String → Option String
host_of (some host) port = some (with_port host port)
host_of none none = none
host_of none (some port) = if port == "" then none else some (with_port "undefined" (some port))

-- `this.host`, of the host of the description.
unfoldable pub choose_host : String → Option Uri → Option (Option String)
choose_host host location =
    if host == ""
    then go_on location (λ uri. some (host_of uri.host uri.port))
    else some (some host)
