-- ===== src/Authorizations/Frame.antt =====
-- lib/swagger-client.js, SwaggerAuthorizations.apply: what it leaves of a request.
use Prim.Native.String.{◌++◌}
use common_services_common_u.Base.{
  String, ◌≡◌, refl, sym, Bool, true, false, some, List, [], ◌∷◌, ◌==◌, eq_iff, ◌∙◌, if◌then◌else◌,
  ◌&&◌, text_append_assoc, text_append-nil, Bool-cases, inl, inr,
}
use common_services_common_u.Js.Dict.{Dict, get, get-put}
use common_services_common_u.Js.Dict.Distinct.{HasDistinctKeys}
use common_services_common_u.Authorizations.Laws.{selected, run_each, apply-eq-run_each}
use common_services_common_u.Js.Value.{str}
use common_services_common_u.Request.{Env, Request}
use common_services_common_u.Authorizations.{
  Authorization, api_key, cookie, password, Security, has_query, apply_api_key, apply_one, run,
  apply,
}

-- A request that differs by credentials alone: same method and body, and a URL that goes on.
pub record IsExtension {Jar : Type 0} (r r' : Request Jar) : Type 0 where
  pub method : r'.method ≡ r.method
  pub body : r'.body ≡ r.body
  pub rest : String
  pub url : r'.url ≡ r.url ++ rest

module _ {Jar : Type 0} where
  IsExtension-refl : (r : Request Jar) → IsExtension r r
  IsExtension-refl r = record {
    method = refl;
    body = refl;
    rest = "";
    url = sym (text_append-nil r.url);
  }

  IsExtension-trans : {r s t : Request Jar} → IsExtension r s → IsExtension s t → IsExtension r t
  IsExtension-trans {r} f g = record {
    method = g.method ∙ f.method;
    body = g.body ∙ f.body;
    rest = f.rest ++ g.rest;
    url = rw (g.url, f.url) (text_append_assoc r.url f.rest g.rest);
  }

header-query : (type : String) → (type == "query") ≡ true → (type == "header") ≡ false
header-query type h = rw ((eq_iff type "query").0 h)

module _ (env : Env) where
  open env use {Jar}

  apply_api_key-IsExtension :
      (name value type : String) (obj : Request Jar)
      → IsExtension obj (apply_api_key env name value type obj).0
  unfolding apply_api_key
  apply_api_key-IsExtension name value type obj = elim (Bool-cases (type == "query")) [
    | inl query ↦ rw query (elim (Bool-cases (has_query obj.url)) [
      | inl e ↦ rw e (record { method = refl; body = refl; rest = _; url = refl })
      | inr e ↦ rw e (record { method = refl; body = refl; rest = _; url = refl })
    ])
    | inr other ↦ rw other (elim (Bool-cases (type == "header")) [
      | inl e ↦
          rw e
            (record { method = refl; body = refl; rest = ""; url = sym (text_append-nil obj.url) })
      | inr e ↦ rw e (IsExtension-refl obj)
    ])
  ]

  apply_one-IsExtension :
      (auth : Authorization) (obj : Request Jar) → IsExtension obj (apply_one env auth obj).0
  unfolding apply_one
  apply_one-IsExtension (api_key name value type) obj =
      apply_api_key-IsExtension name value type obj
  apply_one-IsExtension (cookie value) obj = record {
    method = refl;
    body = refl;
    rest = "";
    url = sym (text_append-nil obj.url);
  }
  apply_one-IsExtension (password name user pass) obj = record {
    method = refl;
    body = refl;
    rest = "";
    url = sym (text_append-nil obj.url);
  }

  run_each-IsExtension :
      (auths : List Authorization) (acc : Request Jar × Bool)
      → IsExtension acc.0 (run_each env auths acc).0
  run_each-IsExtension [] acc = IsExtension-refl acc.0
  run_each-IsExtension (auth ∷ auths) acc =
      IsExtension-trans (apply_one-IsExtension auth acc.0)
        (run_each-IsExtension auths (run env auth acc))

  -- Credentials never change the method or the body of a request, and what they do to its URL is to
  -- write behind it; the stored credentials have distinct names.
  pub apply-IsExtension :
      (authz : Dict Authorization) (obj : Request Jar) (sec : Security)
      → HasDistinctKeys authz
      → IsExtension obj (apply env authz obj sec).0
  apply-IsExtension authz obj sec h =
      rw (apply-eq-run_each env authz obj sec h)
        (run_each-IsExtension (selected authz sec) (obj, false))

  -- Where an API key goes. Of type "query", it is written behind the URL, after `&` if the URL has a
  -- `?` that is not its first character and else after `?`; of type "header", it is the value of the
  -- header of its name. In every other case the URL and each header are as they were.
  pub apply_api_key-places :
      (name value type k : String) (obj : Request Jar)
      → ((apply_api_key env name value type obj).0.url
          ≡ obj.url
            ++ (if type == "query"
                then (if has_query obj.url then "&" else "?") ++ (name ++ ("=" ++ value))
                else ""))
        × (get k (apply_api_key env name value type obj).0.headers
            ≡ (if type == "header" && name == k then some (str value) else get k obj.headers))
  unfolding apply_api_key
  apply_api_key-places name value type k obj = (
    elim (Bool-cases (type == "query")) [
      | inl query ↦ rw query (elim (Bool-cases (has_query obj.url)) [ inl e ↦ rw e | inr e ↦ rw e ])
      | inr other ↦ rw other (elim (Bool-cases (type == "header")) [
        | inl e ↦ rw e (sym (text_append-nil obj.url))
        | inr e ↦ rw e (sym (text_append-nil obj.url))
      ])
    ],
    elim (Bool-cases (type == "query")) [
      | inl query ↦
          rw (query, header-query type query)
            (elim (Bool-cases (has_query obj.url)) [ inl e ↦ rw e | inr e ↦ rw e ])
      | inr other ↦ rw other (elim (Bool-cases (type == "header")) [
        | inl e ↦ rw e (get-put name k (str value) obj.headers)
        | inr e ↦ rw e
      ])
    ],
  )
