-- ===== src/Operation/Execute/Laws.antt =====
-- lib/swagger-client.js, Operation.execute: when a call has a request, and what the request is.
use Prim.Native.String.{◌++◌}
use common_services_common_u.Base.{
  String, ◌≡◌, ◌≢◌, ap, ◌∙◌, ==-false_of_ne, false, Option, none, some, List, [],
}
use common_services_common_u.Js.Text.{to_upper_case}
use common_services_common_u.Js.Dict.{Dict}
use common_services_common_u.Js.Value.{Value}
use common_services_common_u.Request.{Env, Request}
use common_services_common_u.Authorizations.{Authorization}
use common_services_common_u.Operation.Types.{Operation}
use common_services_common_u.Operation.Urlify.{urlify}
use common_services_common_u.Operation.Payload.{get_missing_params, get_body}
use common_services_common_u.Operation.Payload.Missing.{
  missing_names, last_or, get_missing_params-eq-last,
}
use common_services_common_u.Operation.Execute.{
  missing, merged_headers, is_blocking, finish, respond,
}

module _ (env : Env) where
  open env use {Jar}

  finish-ne-missing :
      (authz : Dict Authorization) (op : Operation) (messages : List String)
      (o : Option (Request Jar)) (m : String)
      → finish env authz op messages o ≢ missing m
  finish-ne-missing authz op messages none m h = cc
  finish-ne-missing authz op messages (some obj) m h = cc

  -- A call with an argument for every required parameter is never refused for a missing one.
  pub respond-ne-missing :
      (authz : Dict Authorization) (op : Operation) (args opts : Dict Value) (m : String)
      → missing_names args op.parameters ≡ []
      → respond env authz op args opts ≢ missing m
  unfolding respond
  respond-ne-missing authz op args opts m e h =
      let p : get_missing_params op args ≡ none =
        get_missing_params-eq-last op args ∙ ap (last_or none) e in
      finish-ne-missing authz op _ _ m (rw p at h)

  -- What a call is refused for: its message names one parameter, the last in order of the required
  -- parameters that have no argument, provided that the name is not empty.
  pub respond-missing :
      (authz : Dict Authorization) (op : Operation) (args opts : Dict Value) (name : String)
      → last_or none (missing_names args op.parameters) ≡ some name
      → name ≢ ""
      → respond env authz op args opts ≡ missing ("missing required params: " ++ name)
  unfolding respond
  respond-missing authz op args opts name e n =
      rw (get_missing_params-eq-last op args, e, ==-false_of_ne name "" n)

  -- The request of a call: its URL is that of `urlify` with credentials behind it, its method the
  -- operation's in capitals, and its body the one of `getBody` under the merged headers, whatever the
  -- credentials are.
  pub record IsRequestOf (op : Operation) (args opts : Dict Value) (req : Request Jar)
      : Type 0 where
    pub url : String
    pub rest : String
    pub headers : Dict Value
    pub from_urlify : urlify op args ≡ some url
    pub url_extends : req.url ≡ url ++ rest
    pub method : req.method ≡ to_upper_case op.method
    pub body : get_body op (merged_headers op args opts).0 args opts ≡ some (headers, req.body)
    pub complete : is_blocking (get_missing_params op args) ≡ false
