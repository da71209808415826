-- ===== src/Operation/Payload/Form.antt =====
-- lib/swagger-client.js, Operation.getBody: the form of a call and its urlencoded body.
use Prim.Native.String.{[], ◌∷◌, ◌++◌}
use text.Mathlib.TextLemmas.{cons≢nil}
use common_services_common_u.Base.{
  ℕ, String, ◌≡◌, refl, ap, sym, ◌∙◌, Bool, true, false, ◌&&◌, ◌||◌, Option, none, some, List, [],
  ◌∷◌, map, ◌==◌, ◌=?◌, arith, eq_iff, if◌then◌else◌, Bool-cases, Option-cases, inl, inr,
  ==-false_of_ne, ==-false_of_eq, text_append_assoc, text_append-nil, cons-append, nil-append,
}
use common_services_common_u.Js.Text.{join, join_more}
use common_services_common_u.Js.Dict.{Dict, get, get-put}
use common_services_common_u.Js.Value.{Value, str, to_string}
use common_services_common_u.Js.Uri.{encode_uri_component, is_unreserved}
use common_services_common_u.Js.Uri.Laws.{
  AllChars, AllChars-append, AllChars-mono, is_component_char, encode_uri_component-AllChars,
}
use common_services_common_u.Request.{no_body, value}
use common_services_common_u.Operation.Types.{Parameter, Operation}
use common_services_common_u.Operation.Payload.{
  Parts, add_part, add_parts, encode_form, is_urlencoded?, get_body,
}

-- One field of a form.
abbrev pub form_field : String × Value → String
form_field (key, v) = encode_uri_component key ++ ("=" ++ encode_uri_component (to_string v))

abbrev pub add_fields : String → List String → String
add_fields e fs = if e == "" then join "&" fs else e ++ join_more "&" fs

equals-ne-nil : (s t : String) → ((s ++ ("=" ++ t)) == "") ≡ false
equals-ne-nil [] t = rw nil-append (rw cons-append (==-false_of_ne _ "" (λ h. cons≢nil h)))
equals-ne-nil (c ∷ s) t = rw cons-append (==-false_of_ne _ "" (λ h. cons≢nil h))

append-ne-nil : (s t : String) → (s == "") ≡ false → ((s ++ t) == "") ≡ false
append-ne-nil [] t h = cc
append-ne-nil (c ∷ s) t h = rw cons-append (==-false_of_ne _ "" (λ h. cons≢nil h))

add_fields-first :
    (q f : String) (fs : List String)
    → (q == "") ≡ true
    → (f == "") ≡ false
    → add_fields (q ++ f) fs ≡ f ++ join_more "&" fs
add_fields-first q f fs e h = rw ((eq_iff q "").0 e, nil-append f, h)

add_fields-next :
    (q f : String) (fs : List String)
    → (q == "") ≡ false
    → add_fields ((q ++ "&") ++ f) fs ≡ q ++ ("&" ++ (f ++ join_more "&" fs))
add_fields-next q f fs h =
    rw (append-ne-nil (q ++ "&") f (append-ne-nil q "&" h)) (simp text_append_assoc)

pub encode_form-eq :
    (form : Dict Value) (encoded : String)
    → encode_form form encoded ≡ add_fields encoded (map form_field form)
unfolding encode_form
encode_form-eq [] encoded = elim (Bool-cases (encoded == "")) [
  | inl e ↦ rw e ((eq_iff encoded "").0 e)
  | inr e ↦ rw e (sym (text_append-nil encoded))
]
encode_form-eq ((key, v) ∷ form) encoded = elim (Bool-cases (encoded == "")) [
  | inl e ↦ rw e (
      encode_form-eq form (encoded ++ form_field (key, v))
      ∙ add_fields-first encoded (form_field (key, v)) (map form_field form) e
          (equals-ne-nil (encode_uri_component key) (encode_uri_component (to_string v))))
  | inr e ↦ rw e (
      encode_form-eq form ((encoded ++ "&") ++ form_field (key, v))
      ∙ add_fields-next encoded (form_field (key, v)) (map form_field form) e)
]

-- The parameters of a form that a name stands for.
abbrev pub names_form : String → List Parameter → Bool
names_form k [] = false
names_form k (param ∷ params) =
    (param.location == "formData" && param.name == k) || names_form k params

abbrev pub first_some : Option Value → Option Value → Option Value
first_some none o = o
first_some (some v) o = some v

get-add_part :
    (k : String) (args : Dict Value) (param : Parameter) (p : Parts)
    → get k (add_part param (get param.name args) p).form_params ≡ (
        if param.location == "formData" && param.name == k
        then first_some (get k args) (get k p.form_params)
        else get k p.form_params)
unfolding add_part
get-add_part k args param p = elim (Option-cases (get param.name args)) [
  | inl e ↦ ground (arith, eq_iff param.name k)
  | inr (v, e) ↦ ground (
    arith,
    eq_iff param.name k,
    get-put param.name k v p.form_params,
    ==-false_of_eq param.location "body" "formData" refl,
  )
]

get-add_parts :
    (k : String) (args : Dict Value) (params : List Parameter) (p : Parts)
    → get k (add_parts args params p).form_params ≡ (
        if names_form k params
        then first_some (get k args) (get k p.form_params)
        else get k p.form_params)
unfolding add_parts
get-add_parts k args [] p = refl
get-add_parts k args (param ∷ params) p = ground (
  arith,
  get-add_part k args param p,
  get-add_parts k args params (add_part param (get param.name args) p),
)

-- The form of a call: the form parameters that have an argument.
abbrev pub form_of : Operation → Dict Value → Dict Value
form_of op args =
    (add_parts args op.parameters (record { body = no_body; form_params = [] })).form_params

first_some-none : (o : Option Value) → first_some o none ≡ o
first_some-none none = refl
first_some-none (some v) = refl

-- The form of a call holds the arguments of the form parameters, and nothing else.
pub get-form_of :
    (op : Operation) (args : Dict Value) (k : String)
    → get k (form_of op args) ≡ (if names_form k op.parameters then get k args else none)
unfolding get
get-form_of op args k =
    rw (get-add_parts k args op.parameters (record { body = no_body; form_params = [] }))
      (rw (first_some-none (get k args)))

-- Under the content type application/x-www-form-urlencoded the body is the fields of the form, each
-- `name=value` with both encoded, with `&` between them; a body parameter is left out.
pub get_body-urlencoded :
    (op : Operation) (headers args opts : Dict Value)
    → is_urlencoded? (get "Content-Type" headers) ≡ true
    → get_body op headers args opts
      ≡ some (headers, value (str (join "&" (map form_field (form_of op args)))))
unfolding get_body
get_body-urlencoded op headers args opts h =
    rw h (ap (λ text. some (headers, value (str text))) (encode_form-eq (form_of op args) ""))

-- What may stand in an urlencoded body.
abbrev pub is_form_char : ℕ → Bool
is_form_char c = is_component_char c || c =? b'&' || c =? b'='

component-is_form_char : (c : ℕ) → is_component_char c ≡ true → is_form_char c ≡ true
component-is_form_char c h = rw h

encoded-AllChars : (s : String) → AllChars is_form_char (encode_uri_component s)
encoded-AllChars s =
    AllChars-mono is_component_char is_form_char (encode_uri_component s) component-is_form_char
      (encode_uri_component-AllChars s)

form_field-AllChars : (f : String × Value) → AllChars is_form_char (form_field f)
form_field-AllChars (key, v) =
    AllChars-append is_form_char (encode_uri_component key)
      ("=" ++ encode_uri_component (to_string v)) (encoded-AllChars key)
      (AllChars-append is_form_char "=" (encode_uri_component (to_string v))
        (unfold is_component_char is_unreserved in refl, tt) (encoded-AllChars (to_string v)))

fields-AllChars : (form : Dict Value) → AllChars is_form_char (join_more "&" (map form_field form))
fields-AllChars [] = tt
fields-AllChars (f ∷ form) =
    AllChars-append is_form_char "&" (form_field f ++ join_more "&" (map form_field form))
      (unfold is_component_char is_unreserved in refl, tt)
      (AllChars-append is_form_char (form_field f) (join_more "&" (map form_field form))
        (form_field-AllChars f) (fields-AllChars form))

-- The text of a form holds the characters of encoded components and the two separators alone,
-- whatever the names and the values of its fields.
pub join-form_field-AllChars :
    (form : Dict Value) → AllChars is_form_char (join "&" (map form_field form))
join-form_field-AllChars [] = tt
join-form_field-AllChars (f ∷ form) =
    AllChars-append is_form_char (form_field f) (join_more "&" (map form_field form))
      (form_field-AllChars f) (fields-AllChars form)
