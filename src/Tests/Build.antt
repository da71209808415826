-- ===== src/Tests/Build.antt =====
-- Clients of older descriptions, and their models.

use common_services_common_u.Base.{
  ◌≡◌, ◌⊎◌, refl, String, true, false, none, some, List, [], ◌∷◌, length, arith,
}
use common_services_common_u.Js.Dict.{get}
use common_services_common_u.Js.Space.{is_space}
use common_services_common_u.Js.Text.{to_lower_case}
use common_services_common_u.Js.Value.{str, field, no_fields, items, Value, Fields}
use common_services_common_u.Js.Json.{escape_all}
use common_services_common_u.Authorizations.{object}
use common_services_common_u.Operation.Construct.{deprecated_of}
use common_services_common_u.Listing.Model.{
  RawProperty, model_property_text, ListedModel, new_listed_model, set_referenced_models, shape_of,
  shapes, listed_signature,
}
use common_services_common_u.Listing.Model.Total.{
  listed_signature_total, listed_signature-eq-get_mock_signature,
}
use common_services_common_u.Models.{get_mock_signature}
use common_services_common_u.Listing.Model.Sample.{create_sample}
use common_services_common_u.Listing.Model.Samples.{create_sample_total}
use common_services_common_u.Listing.Construct.{get_listed_signature, get_sample_json}
use common_services_common_u.Listing.Resource.{
  Resource, RawOperation, Endpoint, Declaration, ok, new_operation, OperationObject,
}
use common_services_common_u.Listing.Build.{
  Client, declaration, refused, Description, build_listed, receive,
}
use common_services_common_u.Listing.Build.Reach.{Reach, here, next, answer}
use common_services_common_u.Listing.Build.Laws.{build_listed-once}

abbrev plain : RawProperty
plain = record {
  type = some "string";
  data_type = none;
  ref = none;
  description = none;
  required = false;
  items_type = none;
  items_ref = none;
  allowable = none;
  enum = none;
}

abbrev pet_properties : List (String × RawProperty)
pet_properties =
    ("name", plain) ∷ ("friends", record plain { type = some "array"; items_ref = some "Pet" }) ∷ []

abbrev pets : List (String × ListedModel)
pets = ("Pet", new_listed_model "Pet" none ("name" ∷ []) pet_properties) ∷ []

abbrev pet : ListedModel
pet = set_referenced_models pets (new_listed_model "Pet" none ("name" ∷ []) pet_properties)

-- A pet has friends that are pets: the sample ends at the second one.
pet_sample :
    create_sample (("Pet", pet) ∷ []) 2 pet []
    ≡ some (field "name" (str "") (field "friends" (Value.arr (items (str "Pet" ∷ []))) no_fields))
unfolding create_sample new_listed_model set_referenced_models get to_lower_case
pet_sample = refl

create_sample_total_example : (fs : Fields) × (create_sample (("Pet", pet) ∷ []) 2 pet [] ≡ some fs)
create_sample_total_example = create_sample_total (("Pet", pet) ∷ []) 2 pet [] (omega arith)

listed_signature_total_example :
    (text : String) × (after : List String) × (listed_signature
        (("Pet", pet) ∷ [])
        2
        (shape_of pet)
        []
      ≡ some (text, after))
listed_signature_total_example =
    listed_signature_total (("Pet", pet) ∷ []) 2 (shape_of pet) [] (omega arith)

listed_signature-eq-get_mock_signature_example :
    listed_signature (("Pet", pet) ∷ []) 2 (shape_of pet) []
    ≡ get_mock_signature (shapes (("Pet", pet) ∷ [])) 2 (shape_of pet) []
unfolding get
listed_signature-eq-get_mock_signature_example =
    listed_signature-eq-get_mock_signature (("Pet", pet) ∷ []) 2 (shape_of pet) [] refl

abbrev fresh : Client
fresh = record {
  url = "http://h/docs?v=1";
  base_path = "";
  has_success = true;
  models = [];
  resource_count = 0;
  expected = none;
  waiting = [];
  declared = [];
  successes = 0;
  failures = [];
}

abbrev nothing_declared : Declaration
nothing_declared = record {
  produces = none;
  consumes = none;
  base_path = none;
  models = [];
  apis = [];
}

abbrev entry : String → Endpoint
entry path = record { path = path; authorizations = object []; operations = [] }

abbrev listing : List Endpoint → Description
listing apis = record {
  base_path = none;
  resource_path = none;
  authorizations = object [];
  declared = record nothing_declared { apis = apis };
}

abbrev resource : String → String → Resource
resource name path = record {
  name = name;
  path = path;
  base_path = "http://h/docs";
  produces = none;
  consumes = none;
  security = object [];
  model_names = [];
  operations = [];
  ready = false;
}

abbrev asked : Client
asked = record fresh {
  base_path = "http://h/docs";
  expected = some 2;
  waiting = resource "pets" "/pets.{format}" ∷ resource "users" "/users" ∷ [];
}

listed : build_listed (listing (entry "/pets.{format}" ∷ entry "/users" ∷ [])) fresh ≡ asked
unfolding build_listed
listed = refl

-- The second resource is refused first.
abbrev half : Client
half = record asked {
  resource_count = 1;
  waiting = resource "pets" "/pets.{format}" ∷ [];
  failures =
      ("Unable to read api 'users' from path http://h/docs/users (server returned Gone)" ∷ []) ∷ [];
}

half_reached : Reach asked half
unfolding receive
half_reached = next here (
    answer asked (resource "pets" "/pets.{format}" ∷ []) (resource "users" "/users") []
      (refused "Gone") refl)

build_listed-once_example :
    (half.successes ≡ 0)
    ⊎ ((half.successes ≡ 1) × (half.resource_count ≡ 2) × (length half.waiting ≡ 0))
unfolding build_listed
build_listed-once_example =
    build_listed-once (listing (entry "/pets.{format}" ∷ entry "/users" ∷ [])) fresh half refl
      (record { counted = refl; asked = refl; unbuilt = refl }) half_reached

-- A second build of a client that has counted both.
abbrev tried : Client
tried = record half { resource_count = 2; waiting = [] }

abbrev asked_again : Client
asked_again = record tried {
  waiting = resource "pets" "/pets.{format}" ∷ resource "users" "/users" ∷ [];
}

abbrev half_again : Client
half_again =
    receive (resource "users" "/users") (declaration nothing_declared)
      (record asked_again { waiting = resource "pets" "/pets.{format}" ∷ [] })

half_again_reached : Reach asked_again half_again
half_again_reached = next here (
    answer asked_again (resource "pets" "/pets.{format}" ∷ []) (resource "users" "/users") []
      (declaration nothing_declared) refl)

-- A declaration with an operation.
abbrev get_pet : RawOperation
get_pet = record {
  nickname = some "get/Pet";
  summary = none;
  type = some "array";
  response_class = none;
  items = some (record { type = none; ref = some "Pet" });
  method = some "GET";
  http_method = none;
  consumes = none;
  produces = none;
  supported = none;
  response_messages = none;
  error_responses = none;
  parameters = [];
  authorizations = none;
  deprecated = some (str "no");
}

abbrev made : OperationObject
made = record {
  nickname = "get_Pet";
  path = "/pets.json";
  method = "get";
  summary = none;
  type = some "array[Pet]";
  signature = some (
      "<span class=\"strong\">Pet {</span><div><span class=\"propName propReq\">name</span> (<span class=\"propType\">string</span>)</div><span class=\"strong\">}</span>");
  sample_json = some "[\n  {\n    \"name\": \"\"\n  }\n]";
  parameters = [];
  consumes = none;
  produces = none;
  response_messages = [];
  security = object [];
  deprecated = some (Value.bool false);
}

new_operation-made :
    new_operation
      (("Pet", new_listed_model "Pet" none ("name" ∷ []) (("name", plain) ∷ [])) ∷ [])
      (resource "pets" "/pets")
      "/pets.{format}"
      get_pet
    ≡ ok made
unfolding new_operation new_listed_model get get_listed_signature get_sample_json to_lower_case
    is_space escape_all model_property_text deprecated_of
new_operation-made = refl
