-- ===== src/Operation/ContentTypes/Laws.antt =====
-- lib/swagger-client.js, Operation.setContentTypes: the Accept and Content-Type headers of a call.
use native.Mathlib.Nat.{zero-add}
use common_services_common_u.Base.{
  ℕ, ◌+◌, ◌<◌, String, ◌≡◌, refl, ap, ◌∙◌, Bool, true, false, ◌&&◌, ◌||◌, not, Option, none, some,
  List, [], ◌∷◌, ◌==◌, arith, eq_iff, ltb, if◌then◌else◌, Bool-cases, Option-cases, inl, inr,
  lt→ltb, ==-false_of_eq,
}
use common_services_common_u.Js.Dict.{Dict, get, get-put}
use common_services_common_u.Js.Value.{Value, null, str, is_set, truthy}
use common_services_common_u.Operation.Types.{Parameter, Operation}
use common_services_common_u.Operation.ContentTypes.{
  Scan, or_else, put_defined, is_text, scan_parameter, scan_parameters, start, takes_body, set_or,
  urlencoded, choose_consumes, is_not_empty_text, is_urlencoded, put_if, write_types,
  set_content_types,
}

truthy-set_or : (o : Option Value) (v : Value) → truthy v ≡ true → truthy (set_or o v) ≡ true
truthy-set_or none v h = h
truthy-set_or (some x) v h = elim (Bool-cases (truthy x)) [ inl e ↦ rw e e | inr e ↦ rw e h ]

get-put_if :
    (b : Bool) (k j : String) (v : Value) (d : Dict Value)
    → get j (put_if b k v d) ≡ (if b && k == j then some v else get j d)
get-put_if true k j v d = get-put k j v d
get-put_if false k j v d = refl

abbrev pub shows_type : Value → Scan → Bool
shows_type consumes s = truthy consumes && is_not_empty_text s.body || is_urlencoded consumes

get-write_types_content :
    (consumes accepts : Value) (s : Scan)
    → get "Content-Type" (write_types consumes accepts s)
      ≡ (if shows_type consumes s then some consumes else get "Content-Type" s.headers)
unfolding write_types
get-write_types_content consumes accepts s = simp get-put_if (ground arith)

-- What the loop over the parameters finds.
abbrev pub is_file : Parameter → Bool
is_file param = param.location == "formData" && is_text "file" param.type

abbrev pub is_form : Parameter → Bool
is_form param = param.location == "formData" && not (is_text "file" param.type)

abbrev pub count_if : (Parameter → Bool) → List Parameter → ℕ
count_if p [] = 0
count_if p (param ∷ params) = (if p param then 1 else 0) + count_if p params

abbrev pub last_body : Dict Value → List Parameter → Option Value → Option Value
last_body args [] old = old
last_body args (param ∷ params) old =
    last_body args params
      (if param.location == "body" then or_else (get param.name args) old else old)

scan-form_params :
    (args opts : Dict Value) (params : List Parameter) (s : Scan)
    → (scan_parameters args opts params s).form_params ≡ s.form_params + count_if is_form params
unfolding scan_parameters
scan-form_params args opts [] s = omega arith
scan-form_params args opts (param ∷ params) s =
    ground (arith, scan-form_params args opts params (scan_parameter args opts param s))

scan-file_params :
    (args opts : Dict Value) (params : List Parameter) (s : Scan)
    → (scan_parameters args opts params s).file_params ≡ s.file_params + count_if is_file params
unfolding scan_parameters
scan-file_params args opts [] s = omega arith
scan-file_params args opts (param ∷ params) s =
    ground (arith, scan-file_params args opts params (scan_parameter args opts param s))

body-scan_parameter :
    (args opts : Dict Value) (param : Parameter) (s : Scan)
    → (scan_parameter args opts param s).body
      ≡ (if param.location == "body" then or_else (get param.name args) s.body else s.body)
unfolding scan_parameter
body-scan_parameter args opts param s = ground (
  arith,
  ==-false_of_eq param.location "formData" "body" refl,
  ==-false_of_eq param.location "header" "body" refl,
)

get-put_defined-none :
    (k name : String) (opts headers : Dict Value)
    → get k opts ≡ none
    → get k headers ≡ none
    → get k (put_defined name (get name opts) headers) ≡ none
get-put_defined-none k name opts headers h n = elim (Option-cases (get name opts)) [
  | inl e ↦ rw e n
  | inr (v, e) ↦
      rw (e, get-put name k v headers)
        (elim (Bool-cases (name == k)) [
          | inl same ↦ cc (ap (λ x. get x opts) ((eq_iff name k).0 same))
          | inr other ↦ rw other n
        ])
]

headers-scan_parameter-none :
    (k : String) (args opts : Dict Value) (param : Parameter) (s : Scan)
    → get k opts ≡ none
    → get k s.headers ≡ none
    → get k (scan_parameter args opts param s).headers ≡ none
unfolding scan_parameter
headers-scan_parameter-none k args opts param s h n =
    ground (arith, get-put_defined-none k param.name opts s.headers h n)

scan-body :
    (args opts : Dict Value) (params : List Parameter) (s : Scan)
    → (scan_parameters args opts params s).body ≡ last_body args params s.body
unfolding scan_parameters
scan-body args opts [] s = refl
scan-body args opts (param ∷ params) s =
    scan-body args opts params (scan_parameter args opts param s)
    ∙ ap (last_body args params) (body-scan_parameter args opts param s)

-- A header that the options do not give is not set by the loop.
scan-headers_none :
    (k : String) (args opts : Dict Value) (params : List Parameter) (s : Scan)
    → get k opts ≡ none
    → get k s.headers ≡ none
    → get k (scan_parameters args opts params s).headers ≡ none
unfolding scan_parameters
scan-headers_none k args opts [] s h n = n
scan-headers_none k args opts (param ∷ params) s h n =
    scan-headers_none k args opts params (scan_parameter args opts param s) h
      (headers-scan_parameter-none k args opts param s h n)

-- The choice of the content type, by what the loop finds.
choose_consumes-scan :
    (method : String) (args opts : Dict Value) (params : List Parameter)
    → choose_consumes method args opts (scan_parameters args opts params start) ≡ (
        if is_set (last_body args params none) && takes_body method
        then set_or
            (get "requestContentType" opts)
            (set_or (get "parameterContentType" args) (str "application/json"))
        else if ltb 0 (count_if is_form params)
        then set_or
            (get "requestContentType" opts)
            (if ltb 0 (count_if is_file params) then str "multipart/form-data" else str urlencoded)
        else null)
unfolding choose_consumes
choose_consumes-scan method args opts params = rw (
  scan-body args opts params start,
  scan-form_params args opts params start,
  scan-file_params args opts params start,
  zero-add (count_if is_form params),
  zero-add (count_if is_file params),
)

is_not_empty_of_is_set :
    (o : Option Value) (b : Bool) → (is_set o && b) ≡ true → is_not_empty_text o ≡ true
is_not_empty_of_is_set none b h = cc
is_not_empty_of_is_set (some (str s)) b h = ground arith
is_not_empty_of_is_set (some v) b h = refl

-- A call has no Content-Type header if no parameter of a form but files is defined for it, and its
-- body is not set or its method is not one of post, put, patch and delete; the options give no
-- header of that name.
pub no_content_type :
    (op : Operation) (args opts : Dict Value)
    → count_if is_form op.parameters ≡ 0
    → (is_set (last_body args op.parameters none) && takes_body op.method) ≡ false
    → get "Content-Type" opts ≡ none
    → get "Content-Type" (set_content_types op args opts).0 ≡ none
unfolding set_content_types get
no_content_type op args opts forms unset h =
    rw
      (
        get-write_types_content,
        choose_consumes-scan op.method args opts op.parameters,
        unset,
        forms,
      )
      (scan-headers_none "Content-Type" args opts op.parameters start h refl)

-- A form with a parameter that is no file, for a call with no body and no option
-- `requestContentType`: multipart/form-data if a parameter of the form is a file, and
-- application/x-www-form-urlencoded if none is.
pub form_content_type :
    (op : Operation) (args opts : Dict Value)
    → 0 < count_if is_form op.parameters
    → last_body args op.parameters none ≡ none
    → get "requestContentType" opts ≡ none
    → get "Content-Type" (set_content_types op args opts).0
      ≡ some (
          if ltb 0 (count_if is_file op.parameters)
          then str "multipart/form-data"
          else str urlencoded)
unfolding set_content_types
form_content_type op args opts forms unset h =
    rw
      (
        get-write_types_content,
        choose_consumes-scan op.method args opts op.parameters,
        scan-body args opts op.parameters start,
        unset,
        h,
        lt→ltb 0 (count_if is_form op.parameters) forms,
      )
      (elim (Bool-cases (ltb 0 (count_if is_file op.parameters))) [ inl e ↦ rw e | inr e ↦ rw e ])

-- A body that is set goes out with a method that takes one under the option `requestContentType`, if
-- that is set, and else under the argument `parameterContentType` or as JSON.
pub body_content_type :
    (op : Operation) (args opts : Dict Value)
    → (is_set (last_body args op.parameters none) && takes_body op.method) ≡ true
    → get "Content-Type" (set_content_types op args opts).0
      ≡ some (
          set_or
            (get "requestContentType" opts)
            (set_or (get "parameterContentType" args) (str "application/json")))
unfolding set_content_types
body_content_type op args opts h = rw (
  get-write_types_content,
  choose_consumes-scan op.method args opts op.parameters,
  scan-body args opts op.parameters start,
  h,
  is_not_empty_of_is_set (last_body args op.parameters none) (takes_body op.method) h,
  truthy-set_or (get "requestContentType" opts)
      (set_or (get "parameterContentType" args) (str "application/json"))
      (truthy-set_or (get "parameterContentType" args) (str "application/json") refl),
)
