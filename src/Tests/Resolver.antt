-- ===== src/Tests/Resolver.antt =====
-- Resolver: references to other documents, their calls, and what is put into the description.
use mathlib.Core.List
use common_services_common_u.Base.{
  String, ◌≡◌, refl, true, false, Option, some, is_some, List, [], ◌∷◌,
}
use common_services_common_u.Js.Text.{split, starts_with}
use common_services_common_u.Js.Dict.{get, put}
use common_services_common_u.Js.Value.{
  Value, null, str, arr, obj, no_items, item, Fields, no_fields, field, get_field, to_string,
  decimal,
}
use common_services_common_u.Resolver.{Location, by_ref, inline, Table, Inlined}
use common_services_common_u.Resolver.Calls.{
  Resolved, Answer, error, response, group, last_call, follow,
}
use common_services_common_u.Resolver.Calls.Laws.{outcome, outcome-finished}
use common_services_common_u.Resolver.Calls.Recorded.{is_recorded, outcome-is_recorded}
use common_services_common_u.Resolver.Calls.Group.{no_calls}
use common_services_common_u.Resolver.Finish.{Spec, finish, object_at}
use common_services_common_u.Resolver.Finish.Laws.{finish-resolved, resolved_object}
use common_services_common_u.Resolver.Walk.{Walk, begin, resolve}
use common_services_common_u.Resolver.Walk.Sorted.{DoBegin}
use common_services_common_u.Resolver.Walk.Laws.{resolve-sorted}

abbrev pet : Fields
pet = field "$ref" (str "http://b#/definitions/Pet") no_fields

abbrev limit : Fields
limit = field "name" (str "limit") (field "in" (str "query") no_fields)

abbrev description : Value
description = obj (field "parameters" (obj (field "limit" (obj limit) no_fields)) no_fields)

abbrev to_limit : Inlined
to_limit = record {
  property = field "$ref" (str "#/parameters/limit") (field "type" (str "integer") no_fields);
  objs = [];
  unresolved = [];
}

abbrev remote : List String
remote =
    "http://a#/definitions/Cat" ∷ "http://b#/definitions/Pet" ∷ "http://b#/definitions/Dog" ∷ []

the_last_call :
    last_call (group remote no_calls).opts
    ≡ some ("http://b", "/definitions/Pet" ∷ "/definitions/Dog" ∷ [])
unfolding group split put get
the_last_call = refl

abbrev opt : List String
opt = "/definitions/Pet" ∷ "/definitions/Dog" ∷ []

abbrev document : Option Value
document = some (obj (field "definitions" (obj (field "Pet" (obj no_fields) no_fields)) no_fields))

abbrev answers : List Answer
answers = List.◌++◌ (error ∷ []) (response document ∷ [])

outcome-finished_example :
    (outcome 2 "http://b" opt answers).finished
    ≡ (
      (outcome 2 "http://b" opt answers).resolved_refs,
      (outcome 2 "http://b" opt answers).unresolved_refs,
    )
      ∷ []
unfolding follow split get_field
outcome-finished_example = outcome-finished 2 "http://b" opt (error ∷ []) (response document) refl

-- The reference to the first host is lost.
outcome-is_recorded_example :
    is_recorded "http://a#/definitions/Cat" (outcome 2 "http://b" opt answers) ≡ false
unfolding follow split get_field
outcome-is_recorded_example =
    outcome-is_recorded "http://a#/definitions/Cat" 2 "http://b" opt (error ∷ [])
      (response document) refl

abbrev at_pet : Location
at_pet = record { place = "pets" ∷ []; resolve_as = by_ref }

abbrev at_cat : Location
at_cat = record { place = "cats" ∷ []; resolve_as = inline }

abbrev table : Table
table = ("http://a#/definitions/Cat", at_cat ∷ []) ∷ ("http://b#/definitions/Pet", at_pet ∷ []) ∷ []

abbrev cat : Fields
cat = field "$ref" (str "http://a#/definitions/Cat") no_fields

abbrev unfinished : Spec
unfinished = record { definitions = []; objects = ("cats" ∷ [], cat) ∷ ("pets" ∷ [], pet) ∷ [] }

abbrev cat_found : Resolved
cat_found = record { name = "Cat"; target = obj limit }

finish-resolved_example :
    (object_at at_cat.place
        (finish (("http://a#/definitions/Cat", cat_found) ∷ []) table unfinished).objects
      ≡ resolved_object inline cat_found (object_at at_cat.place unfinished.objects))
    × (inline ≡ by_ref
        → is_some (
            get "Cat"
              (finish (("http://a#/definitions/Cat", cat_found) ∷ []) table unfinished).definitions)
          ≡ true)
unfolding get get_field object_at to_string
finish-resolved_example =
    finish-resolved (("http://a#/definitions/Cat", cat_found) ∷ []) table unfinished at_cat
      cat_found ([], at_pet ∷ [], refl, tt, (refl, tt)) refl

-- A description with one reference of each kind: to another document, to a parameter of its own,
-- and to a parameter that is missing.
abbrev referring : String → Value
referring ref = obj (field "$ref" (str ref) no_fields)

abbrev inlined_limit : Value
inlined_limit = obj limit

abbrev owner : Value
owner = obj (
    field "properties" (obj (field "owner" (referring "http://b#/definitions/Pet") no_fields))
      no_fields)

abbrev pets_path : Value → Value
pets_path first = obj (
    field "get"
      (obj (
        field "parameters" (arr (item first (item (referring "#/parameters/none") no_items)))
          no_fields))
      no_fields)

abbrev with_paths : Value → Value
with_paths first = obj (
    field "definitions" (obj (field "Cat" owner no_fields)) (
      field "parameters" (obj (field "limit" (obj limit) no_fields))
        (field "paths" (obj (field "/pets" (pets_path first) no_fields)) no_fields)))

abbrev the_owner : Location
the_owner = record {
  place = "owner" ∷ "properties" ∷ "Cat" ∷ "definitions" ∷ [];
  resolve_as = by_ref;
}

abbrev walked : Walk
walked = record {
  spec = with_paths inlined_limit;
  table = ("http://b#/definitions/Pet", the_owner ∷ []) ∷ [];
  unresolved = ("#/parameters/none", null) ∷ [];
}

referring_resolved : resolve (with_paths (referring "#/parameters/limit")) ≡ some (begin walked)
unfolding resolve starts_with split decimal put get
referring_resolved = refl

-- With no reference to another document the callback is called at once.
local_called_back : (begin (record walked { table = [] })).called_back ≡ true
unfolding begin group
local_called_back = refl

resolve-sorted_example : DoBegin "http" walked.table × DoBegin "#" walked.unresolved
unfolding begin
resolve-sorted_example =
    resolve-sorted (with_paths (referring "#/parameters/limit")) (begin walked) referring_resolved
