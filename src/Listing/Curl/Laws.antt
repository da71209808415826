-- ===== src/Listing/Curl/Laws.antt =====
-- lib/swagger-client.js, SwaggerOperation.asCurl: for which operations it has a command.
use common_services_common_u.Base.{
  ◌+◌, ◌≡◌, refl, ap, String, Bool, true, false, ◌||◌, Option, none, some, List, [], ◌∷◌, ◌==◌, any,
  ltb, if◌then◌else◌, Bool-cases, inl, inr, arith, eq_iff,
}
use common_services_common_u.Js.Dict.{Dict, get, put}
use common_services_common_u.Js.Value.{Value, str}
use common_services_common_u.Operation.ContentTypes.{Scan, start, produces_message, write_types}
use common_services_common_u.Client.{go_on}
use common_services_common_u.Listing.{Parameter}
use common_services_common_u.Listing.Urlify.{listed_url}
use common_services_common_u.Listing.Call.{ListedOperation}
use common_services_common_u.Listing.Curl.{
  scan_bare, bare_types, set_headers_bare, put_headers, curl_at, listed_as_curl,
}

-- A parameter that goes into the headers or into a form.
abbrev pub is_header_or_form : Parameter → Bool
is_header_or_form param = (param.param_type == "header") || (param.param_type == "form")

abbrev pub accept_only : Dict Value
accept_only = ("Accept", str "application/json") ∷ []

-- What the loop of setHeaders leaves where nothing goes into the headers or a form.
abbrev IsBare : Option Scan → Type 0
IsBare o = (s : Scan) × (o ≡ some s) × (s.headers ≡ []) × (s.form_params ≡ 0)

scan_bare-IsBare :
    (params : List Parameter) (s : Scan)
    → any is_header_or_form params ≡ false
    → s.headers ≡ []
    → s.form_params ≡ 0
    → IsBare (scan_bare params s)
unfolding scan_bare
scan_bare-IsBare [] s h e f = (s, refl, e, f)
scan_bare-IsBare (p ∷ params) s h e f =
    let form : (p.param_type == "form") ≡ false = ground arith in
    let header : (p.param_type == "header") ≡ false = ground arith in
    let rest : any is_header_or_form params ≡ false = ground arith in
    elim (Bool-cases (p.param_type == "file")) [
      | inl file ↦
          rw (form, file)
            (scan_bare-IsBare params (record s { file_params = s.file_params + 1 }) rest e f)
      | inr file ↦ rw (form, file, header) (scan_bare-IsBare params s rest e f)
    ]

-- With a parameter of a form the content type is set, which throws at the end of setHeaders.
scan_bare-form :
    (params : List Parameter) (produces : Option (List String)) (s : Scan)
    → ltb 0 s.form_params ≡ true
    → go_on (scan_bare params s) (bare_types produces) ≡ none
unfolding scan_bare
scan_bare-form [] produces s h = elim (Bool-cases (ltb 0 s.file_params)) [
  | inl e ↦ rw (h, e) refl
  | inr e ↦ rw (h, e) refl
]
scan_bare-form (p ∷ params) produces s h = elim (Bool-cases (p.param_type == "form")) [
  | inl e ↦
      rw e (
        scan_bare-form params produces (record s { form_params = s.form_params + 1 })
          (ground arith))
  | inr e ↦ elim (Bool-cases (p.param_type == "file")) [
    | inl f ↦
        rw (e, f) (scan_bare-form params produces (record s { file_params = s.file_params + 1 }) h)
    | inr f ↦ elim (Bool-cases (p.param_type == "header")) [
      | inl g ↦ rw (e, f, g) refl
      | inr g ↦ rw (e, f, g) (scan_bare-form params produces s h)
    ]
  ]
]

scan_bare-none :
    (params : List Parameter) (produces : Option (List String)) (s : Scan)
    → any is_header_or_form params ≡ true
    → go_on (scan_bare params s) (bare_types produces) ≡ none
unfolding scan_bare
scan_bare-none [] produces s h = cc
scan_bare-none (p ∷ params) produces s h = elim (Bool-cases (p.param_type == "form")) [
  | inl e ↦
      rw e (
        scan_bare-form params produces (record s { form_params = s.form_params + 1 })
          (ground arith))
  | inr e ↦ elim (Bool-cases (p.param_type == "file")) [
    | inl f ↦
        let other : (p.param_type == "header") ≡ false =
          ap (λ t. t == "header") ((eq_iff p.param_type "file").0 f) in
        rw (e, f)
          (scan_bare-none params produces (record s { file_params = s.file_params + 1 })
            (ground arith))
    | inr f ↦ elim (Bool-cases (p.param_type == "header")) [
      | inl g ↦ rw (e, f, g) refl
      | inr g ↦ rw (e, f, g) (scan_bare-none params produces s (ground arith))
    ]
  ]
]

put_headers-plain :
    (args : Dict Value) (params : List Parameter) (headers : Dict Value)
    → any is_header_or_form params ≡ false
    → put_headers args params headers ≡ headers
unfolding put_headers
put_headers-plain args [] headers h = refl
put_headers-plain args (p ∷ params) headers h =
    let header : (p.param_type == "header") ≡ false = ground arith in
    rw header (put_headers-plain args params headers (ground arith))

bare_types-accept_only :
    (o : Option Scan) (produces : Option (List String))
    → IsBare o
    → (messages : List String) × (go_on o (bare_types produces) ≡ some (accept_only, messages))
unfolding write_types put
bare_types-accept_only o produces (s, e, h, f) =
    (produces_message (str "application/json") produces, rw (e, f, h) refl)

-- The command for a call of an older description is an exception for every operation that has a
-- parameter of a header or of a form, whatever the arguments are. For the others it has the URL of
-- the call, and one header, `Accept`.
pub listed_as_curl-eq :
    (op : ListedOperation) (args : Dict Value)
    → listed_as_curl op args ≡ (
        if any is_header_or_form op.parameters
        then none
        else curl_at accept_only (listed_url op.base_path op.path op.parameters args))
unfolding listed_as_curl set_headers_bare
listed_as_curl-eq op args = elim (Bool-cases (any is_header_or_form op.parameters)) [
  | inl e ↦
      rw (e, scan_bare-none op.parameters op.produces (record start { body = get "body" args }) e)
        refl
  | inr e ↦
      let bare =
        scan_bare-IsBare op.parameters (record start { body = get "body" args }) e refl refl in
      let (messages, t) = bare_types-accept_only _ op.produces bare in
      rw (e, t, put_headers-plain args op.parameters accept_only e) refl
]
