-- ===== src/Listing/Call/Form.antt =====
-- lib/swagger-client.js, SwaggerRequest: the urlencoded body of a form.
use common_services_common_u.Base.{
  String, ◌≡◌, refl, ap, ◌∙◌, true, Option, none, some, List, [], ◌∷◌, map,
}
use common_services_common_u.Js.Text.{join}
use common_services_common_u.Js.Dict.{Dict, get}
use common_services_common_u.Js.Value.{Value, str}
use common_services_common_u.Request.{value}
use common_services_common_u.Operation.ContentTypes.{urlencoded}
use common_services_common_u.Operation.Payload.{encode_form}
use common_services_common_u.Operation.Payload.Form.{form_field, encode_form-eq}
use common_services_common_u.Listing.{Parameter}
use common_services_common_u.Listing.Call.{
  Params, param_of, form_names, encode_one, encode_fields, is_type, form_body,
}

abbrev pub entry_of : String → Option Value → Dict Value → Dict Value
entry_of key none entries = entries
entry_of key (some v) entries = (key, v) ∷ entries

-- The fields that have a value, in the order of the names.
abbrev pub present : Params → List String → Dict Value
present params [] = []
present params (key ∷ keys) = entry_of key (param_of params key) (present params keys)

encode_one-form :
    (key : String) (o : Option Value) (encoded : String) (entries : Dict Value)
    (later : String → String)
    → ((e : String) → later e ≡ encode_form entries e)
    → later (encode_one key o encoded) ≡ encode_form (entry_of key o entries) encoded
unfolding encode_form
encode_one-form key none encoded entries later h = h encoded
encode_one-form key (some v) encoded entries later h = h _

encode_fields-eq-encode_form :
    (params : Params) (keys : List String) (encoded : String)
    → encode_fields params keys encoded ≡ encode_form (present params keys) encoded
unfolding encode_fields
encode_fields-eq-encode_form params [] encoded = unfold encode_form in refl
encode_fields-eq-encode_form params (key ∷ keys) encoded =
    encode_one-form key (param_of params key) encoded (present params keys)
      (encode_fields params keys) (encode_fields-eq-encode_form params keys)

-- Under an urlencoded content type the body is the parameters of the form that `params` has a value
-- for, as a field, the body or the headers by that name: each once and encoded as in version 2, in
-- the order of the form's parameters and joined by `&`. The headers are kept.
pub form_body-urlencoded :
    (now : String) (parameters : List Parameter) (params : Params) (headers : Dict Value)
    → is_type urlencoded (get "Content-Type" headers) ≡ true
    → form_body now parameters params headers ≡ (
      headers,
      value (str (join "&" (map form_field (present params (form_names parameters []))))),
    )
unfolding form_body
form_body-urlencoded now parameters params headers h =
    let names = form_names parameters [] in
    rw h (
      ap (λ text. (headers, value (str text)))
        (encode_fields-eq-encode_form params names "" ∙ encode_form-eq (present params names) ""))
