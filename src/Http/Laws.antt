-- ===== src/Http/Laws.antt =====
-- lib/swagger-client.js, SwaggerHttp.execute: what is kept of a request object, and what is not.
use common_services_common_u.Base.{
  String, ◌≡◌, refl, sym, ◌⊎◌, Bool, true, false, ◌&&◌, Option, none, some, ◌==◌, if◌then◌else◌,
  inl, inr,
}
use common_services_common_u.Js.Dict.{get, get-delete}
use common_services_common_u.Js.Value.{null, bool, num, str, arr, obj, Fields, get_field}
use common_services_common_u.Js.Json.{stringify}
use common_services_common_u.Request.{Body, no_body, value, form_data, Request}
use common_services_common_u.Http.{
  Outgoing, send_raw, send_as, has_other_type, prepare_body, prepare,
}

module _ {Jar : Type 0} where
  -- The body as it was, or the JSON text of an object, which is not raw.
  abbrev pub IsBodyFor : Request Jar → Outgoing Jar → Type 0
  IsBodyFor r o =
      (o.request.body ≡ r.body)
      ⊎ ((fs : Fields) × (r.body ≡ value (obj fs))
          × (o.request.body ≡ value (str (stringify (obj fs))))
          × (o.raw ≡ false))

  -- What is sent for a request: the same URL, method and cookies, and every header, but that
  -- a raw body goes without its content type.
  pub record IsSentFor (r : Request Jar) (o : Outgoing Jar) : Type 0 where
    pub url : o.request.url ≡ r.url
    pub method : o.request.method ≡ r.method
    pub cookies : o.request.cookies ≡ r.cookies
    pub headers :
        (k : String)
        → get k o.request.headers
          ≡ (if o.raw && ("Content-Type" == k) then none else get k r.headers)
    pub body : IsBodyFor r o

  abbrev pub IsOutcomeOf : Request Jar → Option (Outgoing Jar) → Type 0
  IsOutcomeOf r none = r.body ≡ value null
  IsOutcomeOf r (some o) = IsSentFor r o

  send_raw-IsSentFor : (r : Request Jar) → IsSentFor r (send_raw r)
  send_raw-IsSentFor r = record {
    url = refl;
    method = refl;
    cookies = refl;
    headers = λ k. get-delete "Content-Type" k r.headers;
    body = inl refl;
  }

  send_as-IsSentFor :
      (b : Body) (r : Request Jar) → IsBodyFor r (send_as b r) → IsSentFor r (send_as b r)
  send_as-IsSentFor b r h = record {
    url = refl;
    method = refl;
    cookies = refl;
    headers = λ k. refl;
    body = h;
  }

  object-IsSentFor :
      (other_type : Bool) (fs : Fields) (r : Request Jar)
      → r.body ≡ value (obj fs)
      → IsSentFor r
          (if other_type then send_as (value (str (stringify (obj fs)))) r else send_raw r)
  object-IsSentFor true fs r h = send_as-IsSentFor _ r (inr (fs, h, refl, refl))
  object-IsSentFor false fs r h = send_raw-IsSentFor r

  prepare_body-IsOutcomeOf :
      (b : Body) (r : Request Jar) → r.body ≡ b → IsOutcomeOf r (prepare_body b r)
  prepare_body-IsOutcomeOf no_body r h = send_as-IsSentFor no_body r (inl (sym h))
  prepare_body-IsOutcomeOf (form_data parts) r h = send_raw-IsSentFor r
  prepare_body-IsOutcomeOf (value null) r h = h
  prepare_body-IsOutcomeOf (value (bool b)) r h = send_as-IsSentFor (value (bool b)) r (inl (sym h))
  prepare_body-IsOutcomeOf (value (num n)) r h = send_as-IsSentFor (value (num n)) r (inl (sym h))
  prepare_body-IsOutcomeOf (value (str s)) r h = send_as-IsSentFor (value (str s)) r (inl (sym h))
  prepare_body-IsOutcomeOf (value (arr xs)) r h = send_raw-IsSentFor r
  prepare_body-IsOutcomeOf (value (obj fs)) r h =
      object-IsSentFor (has_other_type (get_field "type" fs)) fs r h

  -- A request throws only where its body is null. Any other one goes to the HTTP client with its
  -- URL, method and cookies, and all of its headers, but for the content type where its body goes
  -- raw; the body is the same, or the JSON text of a body that is an object, and then not raw.
  pub prepare-IsOutcomeOf : (r : Request Jar) → IsOutcomeOf r (prepare r)
  unfolding prepare
  prepare-IsOutcomeOf r = prepare_body-IsOutcomeOf r.body r refl
