-- ===== src/Listing/Urlify.antt =====
-- lib/swagger-client.js, SwaggerOperation.urlify: the URL of a call of an older description.
pub mod Laws
pub mod Query
use Prim.Native.String.{[], ◌∷◌, ◌++◌}
use common_services_common_u.Base.{
  ℕ, zero, suc, ◌+◌, Char, code, String, Bool, true, false, ◌||◌, ◌&&◌, Option, none, some, List,
  [], ◌∷◌, ◌==◌, ◌=?◌, ltb, if◌then◌else◌, is_some,
}
use common_services_common_u.Js.Space.{between, is_space}
use common_services_common_u.Js.Text.{starts_with, starts_with_i, count, drop, replace_first}
use common_services_common_u.Js.Dict.{Dict, get, delete}
use common_services_common_u.Js.Value.{Value, is_set, to_string}
use common_services_common_u.Js.Uri.{encode_uri_component}
use common_services_common_u.Operation.Encode.{encode_path_param}
use common_services_common_u.Client.{go_on}
use common_services_common_u.Listing.{Parameter, ends_in_slash}

abbrev pub or_else {ℓ} : {A : Type ℓ} → Option A → A → A
or_else none b = b
or_else (some a) b = a

abbrev pub one_more : Option ℕ → Option ℕ
one_more none = none
one_more (some n) = some (suc n)

abbrev pub first_count : Option ℕ → Option ℕ → Option ℕ
first_count none b = b
first_count (some a) b = some a

-- What `.` does not match.
abbrev pub is_line_end : ℕ → Bool
is_line_end c = c =? 10 || c =? 13 || between 8232 8233 c

-- The end of the regular expression, `[^{}/]*(?:\{.*?\}[^{}/]*)*\}`, as the number of characters that it
-- matches: outside of a group, and inside one, behind its brace.
unfoldable pub scan_slot : String → Option ℕ × Option ℕ
scan_slot [] = (none, none)
scan_slot (c ∷ s) =
    let (outside, inside) = scan_slot s in
    (
      if code c =? b'}'
          then some 1
          else if code c =? b'{'
          then one_more inside
          else if code c =? b'/'
          then none
          else one_more outside,
      if code c =? b'}'
          then one_more (first_count outside inside)
          else if is_line_end (code c)
          then none
          else one_more inside,
    )

abbrev pub plus_count : ℕ → Option ℕ → Option ℕ
plus_count k none = none
plus_count k (some n) = some (k + n)

-- A name, in any case of letters, and the end of the expression.
abbrev pub match_name : String → String → Option ℕ
match_name name s =
    if starts_with_i name s
    then plus_count (count name) (scan_slot (drop (count name) s)).0
    else none

-- `\s*?` before them, as little of it as there can be.
unfoldable pub match_slot : String → String → Option ℕ
unfolding starts_with_i scan_slot is_space
match_slot name [] = none
match_slot name (c ∷ s) =
    let later = one_more (match_slot name s) in
    first_count (match_name name (c ∷ s)) (if is_space (code c) then later else none)

abbrev pub slot_at : String → Char → String → Option ℕ
slot_at name c s = if code c =? b'{' then match_slot name s else none

abbrev pub put_slot : Option ℕ → String → Char → (ℕ → String) → String
put_slot (some n) v c later = v ++ later n
put_slot none v c later = c ∷ later 0

-- `url.replace(reg, v)` for a name with no metacharacters: `skip` characters of the last match are left
-- out.
unfoldable pub replace_slots : String → String → ℕ → String → String
unfolding match_slot
replace_slots name v skip [] = ""
replace_slots name v (suc skip) (c ∷ s) = replace_slots name v skip s
replace_slots name v zero (c ∷ s) = put_slot (slot_at name c s) v c (λ n. replace_slots name v n s)

-- `this.path.replace('{format}', 'json')`
unfoldable pub path_json : String → String
unfolding replace_first
path_json path = replace_first "{format}" "json" path

abbrev pub has_two : String → Bool
has_two s = ltb 1 (count s)

abbrev pub behind_first : String → String
behind_first [] = ""
behind_first (c ∷ s) = s

-- The URL before its parameters: no slash twice.
unfoldable pub join_path : String → String → String
unfolding ends_in_slash starts_with
join_path base_path path =
    if has_two base_path && ends_in_slash base_path && starts_with "/" path
    then base_path ++ behind_first path
    else base_path ++ path

-- `url` and the arguments that are left; `none` is an exception.
abbrev pub Filled : Type 0
Filled = Option (String × Dict Value)

abbrev pub fill_text : String → Dict Value → String → Option String → Filled
fill_text name args url none = none
fill_text name args url (some v) = some (replace_slots name v 0 url, delete name args)

abbrev pub fill_one : String → Option Value → Dict Value → String → Filled
fill_one name none args url = none
fill_one name (some v) args url = fill_text name args url (encode_path_param v)

-- The loop over the path parameters, each of which has its argument taken away.
unfoldable pub fill_path : List Parameter → String × Dict Value → Filled
unfolding get delete replace_slots encode_path_param
fill_path [] acc = some acc
fill_path (param ∷ params) (url, args) =
    if param.param_type == "path"
    then go_on (fill_one param.name (get param.name args) args url) (fill_path params)
    else fill_path params (url, args)

-- What the second loop does with a query parameter. The `&` is put before it is known whether there is
-- an argument; `none` is the exception for a required one.
abbrev pub add_argument : String → Bool → Option Value → String → Option String
add_argument name required (some v) query =
    some (query ++ (encode_uri_component name ++ ("=" ++ encode_uri_component (to_string v))))
add_argument name required none query = if required then none else some query

unfoldable pub query_params : Dict Value → List Parameter → String → Option String
unfolding get
query_params args [] query = some query
query_params args (param ∷ params) query =
    if param.param_type == "query"
    then go_on
        (add_argument param.name param.required (get param.name args)
          (if query == "" then query else query ++ "&"))
        (query_params args params)
    else query_params args params query

-- `if (queryParams.length > 0) url += '?' + queryParams`
unfoldable pub add_query : String → String → String
add_query url query = if query == "" then url else url ++ ("?" ++ query)

abbrev pub finish_url : List Parameter → String × Dict Value → Option String
finish_url params (url, args) =
    go_on (query_params args params "") (λ query. some (add_query url query))

-- SwaggerOperation.urlify, of the base path of the resource and the path of the operation.
unfoldable pub listed_url : String → String → List Parameter → Dict Value → Option String
unfolding fill_path query_params add_query join_path path_json
listed_url base_path path params args =
    go_on (fill_path params (join_path base_path (path_json path), args)) (finish_url params)
