-- ===== src/Authorizations.antt =====
-- lib/swagger-client.js, SwaggerAuthorizations: the credentials of the console and how they are put
-- on a request. The base64 encoder and the cookie jar are the environment's.
pub mod Laws
pub mod Frame
use Prim.Native.String.{◌++◌}
use common_services_common_u.Base.{
  zero, suc, String, Bool, true, false, ◌||◌, Option, none, some, List, [], ◌∷◌, ◌==◌,
  if◌then◌else◌,
}
use common_services_common_u.Js.Text.{index_of}
use common_services_common_u.Js.Dict.{Dict, put, delete}
use common_services_common_u.Js.Value.{str}
use common_services_common_u.Request.{Env, Request}

pub data Authorization : Type 0 where
  api_key : String → String → String → Authorization
  cookie : String → Authorization
  password : String → String → String → Authorization

-- The argument `authorizations` of `apply`: undefined, the array of Swagger 2.0 (each object by its
-- keys), or the object of Swagger 1.2 (by its keys).
pub data Security : Type 0 where
  undefined : Security
  array : List (List String) → Security
  object : List String → Security

-- SwaggerAuthorizations: `add` and `remove`
unfoldable pub add : String → Authorization → Dict Authorization → Dict Authorization
add name auth authz = put name auth authz

unfoldable pub remove : String → Dict Authorization → Dict Authorization
remove name authz = delete name authz

-- `url.indexOf('?') > 0`
unfoldable pub has_query : String → Bool
has_query url = elim (index_of b'?' url) [ none ↦ false | some zero ↦ false | some (suc _) ↦ true ]

module _ (env : Env) where
  open env use {Jar, cookie_jar, set_cookie, btoa}

  -- ApiKeyAuthorization.apply; the result is whether it answers `true`.
  unfoldable pub apply_api_key : String → String → String → Request Jar → Request Jar × Bool
  unfolding has_query
  apply_api_key name value type obj =
      if type == "query"
      then (if has_query obj.url
          then (record obj { url = obj.url ++ ("&" ++ (name ++ ("=" ++ value))) }, true)
          else (record obj { url = obj.url ++ ("?" ++ (name ++ ("=" ++ value))) }, true))
      else if type == "header"
      then (record obj { headers = put name (str value) obj.headers }, true)
      else (obj, false)

  -- `obj.cookieJar || CookieJar()`
  abbrev jar_or_new : Option Jar → Jar
  jar_or_new none = cookie_jar
  jar_or_new (some jar) = jar

  unfoldable pub apply_one : Authorization → Request Jar → Request Jar × Bool
  unfolding apply_api_key
  apply_one (api_key name value type) obj = apply_api_key name value type obj
  apply_one (cookie value) obj =
      (record obj { cookies = some (set_cookie value (jar_or_new obj.cookies)) }, true)
  apply_one (password name user pass) obj = (
    record obj {
      headers = put "Authorization" (str ("Basic " ++ btoa (user ++ (":" ++ pass)))) obj.headers;
    },
    true,
  )

  -- One turn of the loops: apply, and set `status` if the answer is `true`.
  abbrev pub run : Authorization → Request Jar × Bool → Request Jar × Bool
  run auth (obj, status) = let (obj', result) = apply_one auth obj in (obj', result || status)

  -- `for (key in this.authz)`
  unfoldable pub apply_all : Dict Authorization → Request Jar × Bool → Request Jar × Bool
  apply_all [] acc = acc
  apply_all ((key, auth) ∷ authz) acc = apply_all authz (run auth acc)

  -- `for (key in this.authz) if (key == name)`
  unfoldable pub apply_named : String → Dict Authorization → Request Jar × Bool → Request Jar × Bool
  apply_named name [] acc = acc
  apply_named name ((key, auth) ∷ authz) acc =
      apply_named name authz (if key == name then run auth acc else acc)

  -- `for (name in …)`
  unfoldable pub apply_names :
      Dict Authorization → List String → Request Jar × Bool → Request Jar × Bool
  unfolding apply_named
  apply_names authz [] acc = acc
  apply_names authz (name ∷ names) acc = apply_names authz names (apply_named name authz acc)

  unfoldable pub apply_array :
      Dict Authorization → List (List String) → Request Jar × Bool → Request Jar × Bool
  unfolding apply_names
  apply_array authz [] acc = acc
  apply_array authz (auth ∷ auths) acc = apply_array authz auths (apply_names authz auth acc)

  -- SwaggerAuthorizations.apply: the request afterwards, and whether the status is `true`.
  unfoldable pub apply : Dict Authorization → Request Jar → Security → Request Jar × Bool
  unfolding apply_all apply_names apply_array
  apply authz obj undefined = apply_all authz (obj, false)
  apply authz obj (array []) = apply_all authz (obj, false)
  apply authz obj (array (auth ∷ auths)) = apply_array authz (auth ∷ auths) (obj, false)
  apply authz obj (object []) = apply_all authz (obj, false)
  apply authz obj (object (name ∷ names)) = apply_names authz (name ∷ names) (obj, false)
