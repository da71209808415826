-- ===== src/Listing/Resource.antt =====
-- lib/swagger-client.js, SwaggerResource: the declaration of a resource, its models and its operations.
use Prim.Native.String.{[], ◌∷◌, ◌++◌}
use mathlib.Core.List
use common_services_common_u.Base.{
  String, Bool, true, Option, none, some, List, [], ◌∷◌, ◌==◌, if◌then◌else◌, is_some,
}
use common_services_common_u.Js.Space.{trim_left}
use common_services_common_u.Js.Text.{split, starts_with, contains, to_lower_case, replace_first}
use common_services_common_u.Js.Dict.{Dict, get, put}
use common_services_common_u.Js.Value.{Value, null, str, is_set}
use common_services_common_u.Authorizations.{Security}
use common_services_common_u.Operation.Construct.{deprecated_of}
use common_services_common_u.Listing.{sanitize, get_absolute_base_path}
use common_services_common_u.Listing.Model.{
  RawProperty, ListedModel, new_listed_model, set_referenced_models, or_text, shown,
}
use common_services_common_u.Listing.Urlify.{path_json}
use common_services_common_u.Listing.Construct.{
  ItemsOf, RawParameter, ShownParameter, is_type_name, get_listed_signature, get_sample_json,
  show_listed_parameters,
}

-- What a step comes to: a value, a call of `fail` with these messages, which throws, or a TypeError.
pub data Result (A : Type 0) : Type 0 where
  ok : A → Result A
  fail : List String → Result A
  type_error : Result A

abbrev pub and_then : {A B : Type 0} → Result A → (A → Result B) → Result B
and_then (ok a) f = f a
and_then (fail messages) f = fail messages
and_then type_error f = type_error

abbrev pub or_type_error : {A : Type 0} → Option A → Result A
or_type_error none = type_error
or_type_error (some a) = ok a

pub record Message : Type 0 where
  pub message : Option Value
  pub reason : Option Value

-- An operation of a declaration.
pub record RawOperation : Type 0 where
  pub nickname : Option String
  pub summary : Option String
  pub type : Option String
  pub response_class : Option String
  pub items : Option ItemsOf
  pub method : Option String
  pub http_method : Option String
  pub consumes : Option Value
  pub produces : Option Value
  pub supported : Option Value
  pub response_messages : Option (List Message)
  pub error_responses : Option (List Message)
  pub parameters : List RawParameter
  pub authorizations : Option Security
  pub deprecated : Option Value

-- SwaggerOperation
pub record OperationObject : Type 0 where
  pub nickname : String
  pub path : String
  pub method : String
  pub summary : Option String
  pub type : Option String
  pub signature : Option String
  pub sample_json : Option String
  pub parameters : List ShownParameter
  pub consumes : Option Value
  pub produces : Option Value
  pub response_messages : List Message
  pub security : Security
  pub deprecated : Option Value

abbrev pub or_defined {ℓ} : {A : Type ℓ} → Option A → Option A → Option A
or_defined none b = b
or_defined (some a) b = some a

abbrev pub or_default {ℓ} : {A : Type ℓ} → A → Option A → A
or_default a none = a
or_default a (some b) = b

abbrev pub item_ref : Option ItemsOf → String
item_ref none = "null"
item_ref (some items) = shown (or_text items.type items.ref)

-- `type`, in which an array names its items.
abbrev pub operation_type : RawOperation → Option String
operation_type o =
    let type = or_text o.type o.response_class in
    if is_type_name "array" type then some ("array[" ++ (item_ref o.items ++ "]")) else type

abbrev pub reason_as_message : List Message → List Message
reason_as_message [] = []
reason_as_message (m ∷ ms) =
    record { message = m.reason; reason = some null } ∷ reason_as_message ms

-- `responseMessages || []`; those of `errorResponses` take their place.
abbrev pub messages_of : Option (List Message) → Option (List Message) → List Message
messages_of messages (some errors) = reason_as_message errors
messages_of (some messages) none = messages
messages_of none none = []

-- `errors` of the constructor of SwaggerOperation.
abbrev pub operation_errors : String → String → String → List String
operation_errors nickname path method =
    List.◌++◌ (if nickname == "" then "SwaggerOperations must have a nickname." ∷ [] else []) (
      List.◌++◌
        (if path == "" then ("SwaggerOperation " ++ (nickname ++ " is missing path.")) ∷ [] else [])
        (if method == ""
          then ("SwaggerOperation " ++ (nickname ++ " is missing method.")) ∷ []
          else []))

abbrev pub unless_errors : {A : Type 0} → List String → Result A → Result A
unless_errors [] r = r
unless_errors (e ∷ errors) r = fail (e ∷ errors)

-- The signature and the sample of the type; a type of void has neither.
abbrev pub typed :
    Dict ListedModel → Option String → Result (Option String × Option String × Option String)
typed models type =
    if is_type_name "void" type
    then ok (none, none, none)
    else and_then (or_type_error (get_listed_signature models type)) (λ signature.
      and_then (or_type_error (get_sample_json models type))
        (λ sample. ok (type, signature, sample)))

pub record Resource : Type 0 where
  pub name : String
  pub path : String
  pub base_path : String
  pub produces : Option Value
  pub consumes : Option Value
  pub security : Security
  pub model_names : List String
  pub operations : List OperationObject
  pub ready : Bool

-- One turn of the loop of addOperations, with the constructor of SwaggerOperation.
unfoldable pub new_operation :
    Dict ListedModel → Resource → String → RawOperation → Result OperationObject
unfolding sanitize get_listed_signature get_sample_json show_listed_parameters to_lower_case
    path_json
new_operation models r path o = and_then (or_type_error o.nickname) (λ given.
    let nickname = sanitize given in
    let method = or_default "" (or_text o.http_method o.method) in
    unless_errors (operation_errors nickname path method) (
      and_then (typed models (operation_type o)) λ (type, signature, sample).
        and_then (or_type_error (show_listed_parameters models o.parameters)) (λ parameters.
          ok (record {
            nickname = nickname;
            path = path_json path;
            method = to_lower_case method;
            summary = o.summary;
            type = type;
            signature = signature;
            sample_json = sample;
            parameters = parameters;
            consumes = if is_set o.supported then o.supported else or_defined o.consumes r.consumes;
            produces = or_defined o.produces r.produces;
            response_messages = messages_of o.response_messages o.error_responses;
            security = or_default r.security o.authorizations;
            deprecated = deprecated_of o.deprecated;
          }))))

abbrev pub push_operation : Resource → OperationObject → Resource
push_operation r op = record r { operations = List.◌++◌ r.operations (op ∷ []) }

-- How a loop ends: behind its last turn, or with an exception.
pub data Status : Type 0 where
  done : Status
  failed : List String → Status
  broken : Status

abbrev pub go_on_with :
    Result OperationObject → Resource → (Resource → Resource × Status) → Resource × Status
go_on_with (ok op) r f = f (push_operation r op)
go_on_with (fail messages) r f = (r, failed messages)
go_on_with type_error r f = (r, broken)

abbrev pub if_done : Resource × Status → (Resource → Resource × Status) → Resource × Status
if_done (r, done) f = f r
if_done (r, status) f = (r, status)

-- SwaggerResource.addOperations
unfoldable pub add_operations :
    Dict ListedModel → String → List RawOperation → Resource → Resource × Status
unfolding new_operation
add_operations models path [] r = (r, done)
add_operations models path (o ∷ ops) r =
    go_on_with (new_operation models r path o) r (add_operations models path ops)

-- An entry of `apis`; those of a listing have authorizations and no operations.
pub record Endpoint : Type 0 where
  pub path : String
  pub authorizations : Security
  pub operations : List RawOperation

unfoldable pub add_endpoints : Dict ListedModel → List Endpoint → Resource → Resource × Status
unfolding add_operations
add_endpoints models [] r = (r, done)
add_endpoints models (e ∷ endpoints) r =
    if_done (add_operations models e.path e.operations r) (add_endpoints models endpoints)

pub record RawModel : Type 0 where
  pub id : Option String
  pub required : List String
  pub properties : Dict RawProperty

-- The answer that declares a resource.
pub record Declaration : Type 0 where
  pub produces : Option Value
  pub consumes : Option Value
  pub base_path : Option String
  pub models : Dict RawModel
  pub apis : List Endpoint

abbrev pub is_known : Option ListedModel → Bool
is_known o = is_some o

-- The models that the declaration is the first to name, and their names.
unfoldable pub add_new_models :
    Dict RawModel → Dict ListedModel × List String → Dict ListedModel × List String
unfolding get put new_listed_model
add_new_models [] acc = acc
add_new_models ((name, m) ∷ declared) (models, names) = add_new_models declared (
    if is_some (get name models) then (models, names) else (
      put name (new_listed_model name m.id m.required m.properties) models,
      List.◌++◌ names (name ∷ []),
    ))

abbrev pub put_referred : String → Option ListedModel → Dict ListedModel → Dict ListedModel
put_referred name none models = models
put_referred name (some m) models = put name (set_referenced_models models m) models

unfoldable pub refer_models : List String → Dict ListedModel → Dict ListedModel
unfolding get put set_referenced_models
refer_models [] models = models
refer_models (name ∷ names) models = refer_models names (put_referred name (get name models) models)

-- SwaggerResource.addModels, on the models that all resources of the client share.
unfoldable pub add_declared_models :
    Dict RawModel → Dict ListedModel × List String → Dict ListedModel × List String
unfolding add_new_models refer_models
add_declared_models declared acc =
    let (models, names) = add_new_models declared acc in (refer_models names models, names)

-- A list of media types is no text, and is not taken.
abbrev pub if_text : Option Value → Option Value → Option Value
if_text (some (str s)) old = some (str s)
if_text v old = old

unfoldable pub declared_base : String → String → Option String → String
unfolding trim_left contains get_absolute_base_path
declared_base api_base base none = base
declared_base api_base base (some given) =
    if trim_left given == ""
    then base
    else if contains "http" given
    then given
    else get_absolute_base_path api_base base given

abbrev pub set_ready : Resource → Resource × Status
set_ready r = (record r { ready = true }, done)

-- SwaggerResource.addApiDeclaration, up to the count of resources: the models that all resources of the
-- client share, the resource, and whether an exception ended it.
unfoldable pub add_api_declaration :
    String → Declaration → Resource → Dict ListedModel → Dict ListedModel × (Resource × Status)
unfolding declared_base add_declared_models add_endpoints
add_api_declaration api_base d r models =
    let (all, names) = add_declared_models d.models (models, r.model_names) in
    (
      all,
      if_done
          (add_endpoints all d.apis (record r {
            produces = if_text d.produces r.produces;
            consumes = if_text d.consumes r.consumes;
            base_path = declared_base api_base r.base_path d.base_path;
            model_names = names;
          }))
          set_ready,
    )

abbrev pub last_or : String → List String → String
last_or d [] = d
last_or d (x ∷ xs) = last_or x xs

-- The name of a resource: the end of its path, with no `.{format}`.
unfoldable pub resource_name : String → String
unfolding split replace_first
resource_name path = replace_first ".{format}" "" (last_or "" (split b'/' path))

-- The URL that a resource is fetched from.
unfoldable pub resource_url : String → String → String
unfolding starts_with path_json
resource_url api_base path =
    if starts_with "http" path then path_json path else api_base ++ path_json path
