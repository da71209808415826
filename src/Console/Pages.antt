-- ===== src/Console/Pages.antt =====
-- swagger-ui.js, SwaggerUi.buildUrl, MainView.render and Docs: URLs, ids and the fragments of the page.
pub mod Ids
use Prim.Native.String.{[], ◌∷◌, ◌++◌}
use mathlib.Core.List
use common_services_common_u.Base.{
  ℕ, zero, suc, ◌+◌, Char, code, String, Bool, true, false, ◌||◌, ◌&&◌, not, Option, none, some,
  List, [], ◌∷◌, ◌==◌, ◌=?◌, if◌then◌else◌, any, is_empty,
}
use common_services_common_u.Js.Dict.{Dict}
use common_services_common_u.Js.Space.{between, is_space}
use common_services_common_u.Js.Text.{split, join, starts_with}
use common_services_common_u.Js.Value.{decimal}
use common_services_common_u.Listing.{root_url, ends_in_slash}

-- `base` up to its first `?` or `#`.
unfoldable pub before_marks : String → String
before_marks [] = ""
before_marks (c ∷ s) =
    let rest = before_marks s in if code c =? b'?' || code c =? b'#' then "" else c ∷ rest

-- SwaggerUi.buildUrl
unfoldable pub build_url : String → String → String
unfolding root_url before_marks ends_in_slash starts_with
build_url base url =
    if starts_with "/" url
    then root_url base ++ url
    else let path = before_marks base in
      if ends_in_slash path then path ++ url else path ++ ("/" ++ url)

-- The URL that `load` gives to the client, of the address of the page.
unfoldable pub load_url : String → String → String
unfolding build_url
load_url href url =
    if url == "" then url else if starts_with "http" url then url else build_url href url

-- The class of the regular expression of Docs.escapeResourceName: the punctuation of ASCII, but for the
-- hyphen and the underscore.
unfoldable pub is_escaped : ℕ → Bool
is_escaped c =
    between 33 44 c
    || between 46 47 c
    || between 58 64 c
    || between 91 94 c
    || c =? 96
    || between 123 126 c

-- Docs.escapeResourceName
unfoldable pub escape_resource_name : String → String
unfolding is_escaped
escape_resource_name [] = ""
escape_resource_name (c ∷ s) =
    let rest = escape_resource_name s in
    if is_escaped (code c) then "\\" ++ (c ∷ rest) else c ∷ rest

-- What Docs.shebang shows: nothing, a resource, or an operation of one by the id of its element.
pub data Shown : Type 0 where
  nothing : Shown
  resource : String → Shown
  operation : String → String → Shown

abbrev pub show_fragments : List String → Shown
show_fragments (bang ∷ name ∷ []) = resource name
show_fragments (bang ∷ name ∷ nickname ∷ []) = operation name (name ++ ("_" ++ nickname))
show_fragments fragments = nothing

unfoldable pub shebang : String → Shown
unfolding split
shebang fragment = show_fragments (split b'/' fragment)

abbrev pub has_id : String → List String → Bool
has_id id ids = any (λ i. i == id) ids

-- The loop that looks for an id that no resource has, and its counter. No name is that of a member that
-- every object has.
unfoldable pub free_id : ℕ → List String → String → ℕ → Option (String × ℕ)
unfolding decimal
free_id zero ids id counter = none
free_id (suc fuel) ids id counter =
    let later = free_id fuel ids (id ++ ("_" ++ decimal counter)) (suc counter) in
    if has_id id ids then later else some (id, counter)

abbrev pub push_id : {A : Type 0} → Option (String × ℕ) → (String → ℕ → Option A) → Option A
push_id none f = none
push_id (some (id, counter)) f = f id counter

-- MainView.addResource: `resource.id.replace(/\s/g, '_')`
unfoldable pub element_id : String → String
unfolding is_space
element_id [] = ""
element_id (c ∷ s) = (if is_space (code c) then "_" else c) ∷ element_id s

abbrev pub keys_of : Dict String → List String
keys_of [] = []
keys_of ((key, id) ∷ resources) = key ∷ keys_of resources

-- The loop of MainView.render over the resources: `resources` as it leaves it, each key with the id of
-- its resource, which addResource writes anew. `none` is a loop that needs more fuel.
unfoldable pub assign_ids : ℕ → List String → Dict String → ℕ → Option (Dict String)
unfolding free_id element_id
assign_ids fuel [] resources counter = some resources
assign_ids fuel (name ∷ names) resources counter =
    push_id (free_id fuel (keys_of resources) name counter)
      (λ id next. assign_ids fuel names (List.◌++◌ resources ((id, element_id id) ∷ [])) next)
