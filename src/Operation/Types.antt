-- ===== src/Operation/Types.antt =====
-- lib/swagger-client.js, Operation: the fields of an operation and of its parameters that a call
-- reads. Its field `type` is null or a response object, so the comparisons of it with 'DELETE' fail.
use common_services_common_u.Base.{String, Bool, Option, List}
use common_services_common_u.Authorizations.{Security}

-- One of `operation.parameters`; `location` is the property `in`.
pub record Parameter : Type 0 where
  pub name : String
  pub location : String
  pub type : Option String
  pub required : Bool
  pub collection_format : Option String
  pub description : String
  pub signature : String

pub record Operation : Type 0 where
  pub nickname : String
  pub summary : String
  pub scheme : String
  pub host : String
  pub base_path : String
  pub path : String
  pub method : String
  pub parameters : List Parameter
  pub consumes : Option (List String)
  pub produces : Option (List String)
  pub security : Security
  pub use_jquery : Bool
