-- ===== src/Listing/Call/Laws.antt =====
-- lib/swagger-client.js, SwaggerOperation.do: what the request of a call is.
use Prim.Native.String.{◌++◌}
use mathlib.Core.Path.{subst}
use common_services_common_u.Base.{
  String, ◌≡◌, refl, Bool, true, false, ◌||◌, Option, none, some, List, [], ◌==◌, if◌then◌else◌,
}
use common_services_common_u.Js.Text.{to_upper_case}
use common_services_common_u.Js.Dict.{Dict, get, delete}
use common_services_common_u.Js.Dict.Distinct.{HasDistinctKeys}
use common_services_common_u.Js.Value.{Value, is_set}
use common_services_common_u.Request.{Env, Request}
use common_services_common_u.Authorizations.{Authorization, apply}
use common_services_common_u.Authorizations.Frame.{IsExtension, apply-IsExtension}
use common_services_common_u.Listing.Headers.{set_headers}
use common_services_common_u.Listing.Urlify.{listed_url}
use common_services_common_u.Listing.Call.{
  ListedOperation, Arguments, Params, Taken, Outcome, thrown, nothing, request, take_parameters,
  override_types, headers_or_none, form_body, body_entry, listed_request, request_at, params_of,
  call_with, call,
}

-- The headers before the credentials and the content type of a form.
abbrev pub typed_headers : ListedOperation → Params → Dict Value → Dict Value
typed_headers op params opts =
    (set_headers
      (record {
        type = to_upper_case op.method;
        param_headers = some params.headers;
        opts = opts;
        consumes = op.consumes;
      })
      (body_entry params.body) opts op.parameters op.produces).0

module _ (env : Env) (now : String) (authz : Dict Authorization) where
  open env use {Jar}

  -- What a request is for, of the arguments that the loop over the parameters took.
  pub record IsRequestOf (op : ListedOperation) (given : Option (Dict Value)) (s : Taken)
      (opts : Dict Value) (req : Request Jar) : Type 0 where
    pub url : String
    pub rest : String
    pub from_url : listed_url op.base_path op.path op.parameters (delete "body" s.args) ≡ some url
    pub url_extends : req.url ≡ url ++ rest
    pub method : req.method ≡ to_upper_case op.method
    pub body :
        req.body
        ≡ (form_body now op.parameters
            (params_of env now authz given s)
            (typed_headers op (params_of env now authz given s) opts)).1

  -- The request before the credentials are put on it.
  abbrev plain : ListedOperation → Params → Dict Value → String → Request Jar
  plain op params opts url =
      let (headers, body) = form_body now op.parameters params (typed_headers op params opts) in
      record {
        url = url;
        method = to_upper_case op.method;
        body = body;
        use_jquery = op.use_jquery;
        headers = headers;
        cookies = none;
      }

  choose_request :
      (empty mock : Bool) (r req : Request Jar) (ms messages : List String)
      → (if empty then thrown else if mock then nothing else Outcome.request r ms)
        ≡ request req messages
      → r ≡ req
  choose_request true mock r req ms messages e = cc
  choose_request false true r req ms messages e = cc
  choose_request false false r req ms messages e = cc

  listed_request-IsRequestOf :
      (op : ListedOperation) (given : Option (Dict Value)) (s : Taken) (opts : Dict Value)
      (o : Option String) (req : Request Jar) (messages : List String)
      → HasDistinctKeys authz
      → listed_url op.base_path op.path op.parameters (delete "body" s.args) ≡ o
      → request_at env now authz op (params_of env now authz given s) opts o ≡ request req messages
      → IsRequestOf op given s opts req
  unfolding listed_request
  listed_request-IsRequestOf op given s opts none req messages h u e = cc
  listed_request-IsRequestOf op given s opts (some url) req messages h u e =
      let params = params_of env now authz given s in
      let obj = plain op params opts url in
      let same : (apply env authz obj op.security).0 ≡ req =
        choose_request (op.method == "" || url == "") (is_set (get "mock" params.headers)) _ req _
          messages e in
      let ext =
        subst (λ r. IsExtension obj r) same (apply-IsExtension env authz obj op.security h) in
      record {
        url = url;
        rest = ext.rest;
        from_url = u;
        url_extends = ext.url;
        method = ext.method;
        body = ext.body;
      }

  call_with-IsRequestOf :
      (op : ListedOperation) (given : Option (Dict Value)) (opts : Dict Value) (o : Option Taken)
      (req : Request Jar) (messages : List String)
      → HasDistinctKeys authz
      → call_with env now authz op given opts o ≡ request req messages
      → (s : Taken) × (o ≡ some s) × IsRequestOf op given s opts req
  call_with-IsRequestOf op given opts none req messages h e = cc
  call_with-IsRequestOf op given opts (some s) req messages h e =
      (s, refl, listed_request-IsRequestOf op given s opts _ req messages h refl e)

  -- A call of an operation of an older description that has a request has taken its arguments in
  -- the order of its parameters, and its request is for them: the URL is that of `urlify` with what
  -- the credentials write behind it, the method that of the operation in capitals, and the body that
  -- of the form or of the body parameter, under the headers of `setHeaders`, whatever the credentials
  -- are. The stored credentials have distinct names.
  pub call-IsRequestOf :
      (op : ListedOperation) (args : Arguments) (opts : Dict Value) (req : Request Jar)
      (messages : List String)
      → HasDistinctKeys authz
      → call env now authz op args opts ≡ request req messages
      → (s : Taken) × (take_parameters op.parameters (record {
        headers = override_types opts (headers_or_none args.headers);
        possible = [];
        args = args.values;
      })
          ≡ some s)
        × IsRequestOf op args.headers s opts req
  unfolding call
  call-IsRequestOf op args opts req messages h e =
      call_with-IsRequestOf op args.headers opts _ req messages h e
