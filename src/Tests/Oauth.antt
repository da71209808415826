-- ===== src/Tests/Oauth.antt =====
-- A login and a logout.
use common_services_common_u.Base.{◌≡◌, ◌≢◌, eq_iff, refl, String, true, false, none, some, [], ◌∷◌}
use common_services_common_u.Js.Dict.{get}
use common_services_common_u.Js.Value.{str, num, field, no_fields, get_field, to_string}
use common_services_common_u.Authorizations.{undefined, array, apply, api_key}
use common_services_common_u.Oauth.{
  named, Scheme, Oauth, collect_scopes, authorize, init_oauth, logout, on_complete, authorized,
}
use common_services_common_u.Oauth.Laws.{logout-apply, on_complete-apply}
use common_services_common_u.Tests.Data.{env, plain}

abbrev started : Oauth
started = record {
  key_name = none;
  app_name = str "";
  client_id = str "";
  realm = str "";
  redirect_uri = none;
  token_name = none;
  token_url = none;
  enabled_scopes = none;
  authz = [];
}

abbrev scheme : Scheme
scheme = record {
  type = some "oauth2";
  scopes = named (("read", "see pets") ∷ ("write", "") ∷ []);
  flow = some "accessCode";
  authorization_url = some "http://a/login";
  token_name = none;
  token_url = some "http://a/token";
  grant_types = none;
}

shown_scopes : collect_scopes (("pets", scheme) ∷ []) ([], none) ≡ (
  record { scope = "read"; description = "see pets" }
      ∷ record { scope = "write"; description = "" }
      ∷ [],
  some "pets",
)
unfolding collect_scopes
shown_scopes = refl

-- A client id that is missing is the number of errors so far.
initial :
    init_oauth (record { app_name = some "app"; client_id = none; realm = some "r" }) started ≡ (
      record started { app_name = str "app"; client_id = num 1; realm = str "r" },
      "missing client id" ∷ [],
    )
unfolding init_oauth
initial = refl

window_url :
    (authorize
      (("pets", scheme) ∷ [])
      (record { protocol = "http:"; host = "h:8080"; pathname = "/api-doc/index.html" })
      ("read" ∷ "write" ∷ "read" ∷ [])
      (record started { realm = str "r"; client_id = str "c" })).1
    ≡ "http://a/login?response_type=code&redirect_uri=http%3A%2F%2Fh%3A8080%2Fapi-doc%2Fo2c.html&realm=r&client_id=c&scope=read%2Cwrite"
unfolding authorize
window_url = refl

abbrev logged_in : Oauth
logged_in = record started {
  key_name = some "pets";
  token_name = some "access_token";
  enabled_scopes = some ("read" ∷ []);
  authz = ("pets", api_key "Authorization" "Bearer old" "header") ∷ [];
}

pets_ne_other : ◌≢◌ {A = String} "pets" "other"
pets_ne_other e = cc ((eq_iff "pets" "other").1 e)

on_complete-apply_example :
    get "Authorization"
      (apply env
        (on_complete
          (("read" ∷ []) ∷ ("write" ∷ []) ∷ [])
          (some (field "access_token" (str "t") no_fields))
          logged_in).0.authz
        plain
        (array (("key" ∷ []) ∷ ("pets" ∷ []) ∷ ("other" ∷ []) ∷ []))).0.headers
    ≡ some (str "Bearer t")
unfolding get_field to_string get
on_complete-apply_example =
    on_complete-apply env (("read" ∷ []) ∷ ("write" ∷ []) ∷ [])
      (field "access_token" (str "t") no_fields) (str "t") logged_in plain
      (array (("key" ∷ []) ∷ ("pets" ∷ []) ∷ ("other" ∷ []) ∷ [])) ("key" ∷ []) ("other" ∷ [])
      (tt, tt) refl refl refl refl ((pets_ne_other, refl), tt)

-- Of two panels the second requires a scope that is not enabled.
marks :
    (on_complete
      (("read" ∷ []) ∷ ("write" ∷ []) ∷ [])
      (some (field "access_token" (str "t") no_fields))
      logged_in).1
    ≡ authorized (true ∷ false ∷ [])
unfolding on_complete
marks = refl

logout-apply_example : apply env (logout logged_in).authz plain undefined ≡ (plain, false)
logout-apply_example = logout-apply env logged_in plain undefined
