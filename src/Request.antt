-- ===== src/Request.antt =====
-- lib/swagger-client.js: the request object that the client builds (`obj` of Operation.execute and of
-- SwaggerClient.build), and what the scripts take from the browser or from another library.
use common_services_common_u.Base.{String, Bool, Option, List}
use common_services_common_u.Js.Dict.{Dict}
use common_services_common_u.Js.Value.{Value}

-- The cookie jar and the base64 encoder are not the client's own.
pub record Env : Type 1 where
  pub Jar : Type 0
  pub cookie_jar : Jar
  pub set_cookie : String → Jar → Jar
  pub btoa : String → String

-- The body: undefined, a value, or the parts of a FormData in the order they were appended.
pub data Body : Type 0 where
  no_body : Body
  value : Value → Body
  form_data : List (String × Value) → Body

pub record Request (Jar : Type 0) : Type 0 where
  pub url : String
  pub method : String
  pub body : Body
  pub use_jquery : Bool
  pub headers : Dict Value
  pub cookies : Option Jar
