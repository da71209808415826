-- ===== src/Tests/Data.antt =====
-- Data of the tests: an environment, credentials, and the operations of a small description.
use common_services_common_u.Base.{String, true, false, none, some, List, [], ◌∷◌}
use common_services_common_u.Js.Dict.{Dict}
use common_services_common_u.Js.Value.{Value, str, num}
use common_services_common_u.Request.{Env, no_body, Request}
use common_services_common_u.Authorizations.{Authorization, api_key, password, undefined}
use common_services_common_u.Operation.Types.{Parameter, Operation}

abbrev pub env : Env
env = record { Jar = List String; cookie_jar = []; set_cookie = λ c jar. c ∷ jar; btoa = λ s. s }

abbrev pub authz : Dict Authorization
authz =
    ("key", api_key "api_key" "s3" "query")
    ∷ ("basic", password "basic" "u" "p")
    ∷ ("odd", api_key "X" "y" "body")
    ∷ []

abbrev pub plain : Request (List String)
plain = record {
  url = "http://h/p?q=1";
  method = "GET";
  body = no_body;
  use_jquery = false;
  headers = [];
  cookies = none;
}

abbrev pub parameter : String → String → Parameter
parameter name location = record {
  name = name;
  location = location;
  type = some "string";
  required = true;
  collection_format = none;
  description = "";
  signature = "string";
}

abbrev pub operation : String → String → List Parameter → Operation
operation method path parameters = record {
  nickname = "op";
  summary = "";
  scheme = "http";
  host = "h";
  base_path = "/";
  path = path;
  method = method;
  parameters = parameters;
  consumes = none;
  produces = none;
  security = undefined;
  use_jquery = false;
}

-- GET /pets/{id}?tag=…&page=…
abbrev pub get_pet : Operation
get_pet =
    operation "get" "/pets/{id}"
      (parameter "id" "path" ∷ parameter "tag" "query" ∷ parameter "page" "query" ∷ [])

abbrev pub pet_args : Dict Value
pet_args = ("id", str "a/b c") ∷ ("tag", str "x&y") ∷ ("page", num 12) ∷ []

-- POST /pets with a form of two texts
abbrev pub post_form : Operation
post_form = operation "post" "/pets" (parameter "name" "formData" ∷ parameter "tag" "formData" ∷ [])

abbrev pub form_args : Dict Value
form_args = ("name", str "a b") ∷ ("tag", str "=") ∷ []

-- POST /photos with a file alone
abbrev pub post_file : Operation
post_file =
    operation "post" "/photos" (record (parameter "photo" "formData") { type = some "file" } ∷ [])

-- PUT /pets with a body
abbrev pub put_body : Operation
put_body = operation "put" "/pets" (parameter "pet" "body" ∷ [])

abbrev pub body_args : Dict Value
body_args = ("pet", str "{}") ∷ []
