-- ===== src/Listing/Build.antt =====
-- lib/swagger-client.js, SwaggerClient.buildFrom1_2Spec, buildFrom1_1Spec and finish, and the callbacks
-- of SwaggerResource: a client of an older description, whose resources are fetched one by one.
pub mod Reach
pub mod Laws
use Prim.Native.String.{[], ◌∷◌, ◌++◌}
use mathlib.Core.List
use common_services_common_u.Base.{
  ℕ, zero, suc, ◌+◌, Char, code, String, Bool, true, false, ◌&&◌, not, Option, none, some, List, [],
  ◌∷◌, map, ◌==◌, ◌=?◌, if◌then◌else◌, any, is_empty, length,
}
use common_services_common_u.Js.Text.{index_of}
use common_services_common_u.Js.Dict.{Dict}
use common_services_common_u.Js.Value.{has_text}
use common_services_common_u.Authorizations.{Security, object}
use common_services_common_u.Listing.Model.{ListedModel}
use common_services_common_u.Listing.Resource.{
  Resource, RawOperation, Endpoint, Declaration, Status, done, failed, broken, add_api_declaration,
  refer_models, resource_name, resource_url,
}

-- SwaggerClient. `waiting` are the resources whose answer is still to come, `declared` those that had one
-- that was read, in the order of the answers, `successes` counts the calls of `success`, and `failures` are
-- the messages of the calls of `failure`.
pub record Client : Type 0 where
  pub url : String
  pub base_path : String
  pub has_success : Bool
  pub models : Dict ListedModel
  pub resource_count : ℕ
  pub expected : Option ℕ
  pub waiting : List Resource
  pub declared : List Resource
  pub successes : ℕ
  pub failures : List (List String)

abbrev pub key_of : String × ListedModel → String
key_of (name, m) = name

-- SwaggerClient.finish, with setConsolidatedModels.
unfoldable pub finish : Client → Client
unfolding refer_models
finish c =
    if c.has_success
    then record c {
      models = refer_models (map key_of c.models) c.models;
      successes = suc c.successes;
    }
    else c

abbrev pub is_count : ℕ → Option ℕ → Bool
is_count n none = false
is_count n (some m) = n =? m

abbrev pub finish_if_all : Client → Client
finish_if_all c = if is_count c.resource_count c.expected then finish c else c

-- The end of addApiDeclaration.
abbrev pub declare : Client → Dict ListedModel × (Resource × Status) → Client
declare c (models, (r, done)) =
    finish_if_all (record c { models = models; declared = List.◌++◌ c.declared (r ∷ []) })
declare c (models, (r, failed messages)) = record c {
  models = models;
  declared = List.◌++◌ c.declared (r ∷ []);
  failures = List.◌++◌ c.failures (messages ∷ []);
}
declare c (models, (r, broken)) = record c {
  models = models;
  declared = List.◌++◌ c.declared (r ∷ []);
}

-- The answer of a resource: its declaration, a text that is no JSON, or an error with its status text.
pub data Answer : Type 0 where
  declaration : Declaration → Answer
  unreadable : Answer
  refused : String → Answer

abbrev pub count_one : Client → Client
count_one c = record c { resource_count = suc c.resource_count }

abbrev pub refusal : Client → Resource → String → String
refusal c r status_text =
    "Unable to read api '"
    ++ (r.name
        ++ ("' from path "
            ++ (resource_url c.base_path r.path ++ (" (server returned " ++ (status_text ++ ")")))))

-- The callbacks `response` and `error` of the call that fetches a resource.
unfoldable pub receive : Resource → Answer → Client → Client
unfolding add_api_declaration finish resource_url
receive r (declaration d) c = declare (count_one c) (add_api_declaration c.base_path d r c.models)
receive r unreadable c = c
receive r (refused status_text) c = record (count_one c) {
  failures = List.◌++◌ c.failures ((refusal c r status_text ∷ []) ∷ []);
}

-- The description of version 1.1 or 1.2.
pub record Description : Type 0 where
  pub base_path : Option String
  pub resource_path : Option String
  pub authorizations : Security
  pub declared : Declaration

abbrev pub or_base : String → Option String → String
or_base url none = url
or_base url (some base) = base

abbrev pub with_mark : Char → Option String → Option String
with_mark c (some s) = some (c ∷ s)
with_mark c none = if code c =? b'?' then some "" else none

-- `url.substring(0, url.lastIndexOf('?'))`; `none` is a text with no question mark.
unfoldable pub before_query : String → Option String
before_query [] = none
before_query (c ∷ s) = with_mark c (before_query s)

abbrev pub is_positive : Option ℕ → Bool
is_positive none = false
is_positive (some n) = not (n =? 0)

-- `this.basePath`
unfoldable pub choose_base : String → Option String → String
unfolding index_of before_query
choose_base url base =
    if has_text base
    then or_base url base
    else if is_positive (index_of b'?' url)
    then or_base url (before_query url)
    else url

abbrev pub has_operations : Endpoint → Bool
has_operations e = not (is_empty e.operations)

-- The constructor of SwaggerResource, before the declaration is read or fetched.
unfoldable pub new_resource : String → String → Security → Resource
unfolding resource_name
new_resource api_base path security = record {
  name = resource_name path;
  path = path;
  base_path = api_base;
  produces = none;
  consumes = none;
  security = security;
  model_names = [];
  operations = [];
  ready = false;
}

-- `isApi`: the description is a declaration, which is read at once.
abbrev pub finish_declared : Client → Dict ListedModel × (Resource × Status) → Client
finish_declared c (models, (r, done)) = finish (declare c (models, (r, done)))
finish_declared c (models, (r, status)) = declare c (models, (r, status))

abbrev pub read_at : Description → Client → String → Client
read_at d c path =
    let r = new_resource c.base_path path d.authorizations in
    if path == ""
    then finish (record c { waiting = List.◌++◌ c.waiting (r ∷ []) })
    else finish_declared c (add_api_declaration c.base_path d.declared r c.models)

-- A declaration with no resourcePath ends in a TypeError.
abbrev pub read_declaration : Description → Client → Client
read_declaration d c = elim d.resource_path [ none ↦ c | some path ↦ read_at d c path ]

abbrev pub listed_resource : String → Endpoint → Resource
listed_resource base e = new_resource base e.path e.authorizations

-- The resources that a listing names, all of which are fetched.
abbrev pub fetch_all : Description → Client → Client
fetch_all d c = record c {
  expected = some (length d.declared.apis);
  waiting = List.◌++◌ c.waiting (map (listed_resource c.base_path) d.declared.apis);
}

-- SwaggerClient.buildFrom1_2Spec and buildFrom1_1Spec; `apiVersion`, `info` and what else they copy is
-- left out.
unfoldable pub build_listed : Description → Client → Client
unfolding choose_base new_resource add_api_declaration finish
build_listed d c =
    let based = record c { base_path = choose_base c.url d.base_path } in
    if any has_operations d.declared.apis then read_declaration d based else fetch_all d based
