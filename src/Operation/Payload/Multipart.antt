-- ===== src/Operation/Payload/Multipart.antt =====
-- lib/swagger-client.js, Operation.getBody: the FormData of a multipart call.
use Prim.Native.String.{[], ◌∷◌}
use mathlib.Core.List
use common_services_common_u.Base.{
  String, ◌≡◌, refl, ap, sym, ◌∙◌, Bool, true, false, Option, none, some, List, [], ◌∷◌, map,
  if◌then◌else◌,
}
use common_services_common_u.Js.Dict.{Dict, get}
use mathlib.Core.Option
use common_services_common_u.Js.Value.{Value, null, is_set}
use common_services_common_u.Request.{Body, form_data}
use common_services_common_u.Operation.Types.{Operation}
use common_services_common_u.Operation.Payload.{
  file_value, append_part, append_parts, form_result, is_multipart, is_urlencoded?, get_body,
}
use common_services_common_u.Operation.Payload.Form.{form_of}

abbrev pub has_null : Dict Value → Bool
has_null [] = false
has_null ((k, null) ∷ form) = true
has_null ((k, v) ∷ form) = has_null form

-- The part of a FormData for one field: the file of a value that is one, and else the value.
abbrev pub or_value : String → Value → Option Value → String × Value
or_value key v none = (key, v)
or_value key v (some file) = (key, file)

abbrev pub part_of : String × Value → String × Value
part_of (key, v) = or_value key v (file_value v)

abbrev pub body_of : Option (Dict Value × List (String × Value)) → Option (List (String × Value))
body_of none = none
body_of (some acc) = some acc.1

append_part-parts :
    (key : String) (v : Value) (o : Option Value) (acc : Dict Value × List (String × Value))
    → (append_part key v o acc).1 ≡ List.◌++◌ acc.1 (or_value key v o ∷ [])
append_part-parts key v none acc = refl
append_part-parts key v (some file) acc = refl

append_parts-cons :
    (key : String) (v : Value) (form : Dict Value) (acc : Dict Value × List (String × Value))
    → ((acc' : Dict Value × List (String × Value))
        → body_of (append_parts form acc')
          ≡ (if has_null form then none else some (List.◌++◌ acc'.1 (map part_of form))))
    → body_of (append_parts form (append_part key v (file_value v) acc)) ≡ (
        if has_null form
        then none
        else some (List.◌++◌ acc.1 (part_of (key, v) ∷ map part_of form)))
append_parts-cons key v form acc ih =
    ih (append_part key v (file_value v) acc)
    ∙ ap (λ parts. if has_null form then none else some parts)
        (rw append_part-parts (List.append_assoc acc.1 (part_of (key, v) ∷ []) (map part_of form)))

append_parts-eq :
    (form : Dict Value) (acc : Dict Value × List (String × Value))
    → body_of (append_parts form acc)
      ≡ (if has_null form then none else some (List.◌++◌ acc.1 (map part_of form)))
unfolding append_parts
append_parts-eq [] acc = ap some (sym (List.append-nil acc.1))
append_parts-eq ((key, null) ∷ form) acc = refl
append_parts-eq ((key, v) ∷ form) acc = append_parts-cons key v form acc (append_parts-eq form)

abbrev pub body_part : Option (Dict Value × Body) → Option Body
body_part none = none
body_part (some r) = some r.1

body_part-form_result :
    (o : Option (Dict Value × List (String × Value)))
    → body_part (form_result o) ≡ Option.map form_data (body_of o)
body_part-form_result none = refl
body_part-form_result (some (headers, parts)) = refl

map-if :
    (b : Bool) (parts : List (String × Value))
    → Option.map form_data (if b then none else some parts)
      ≡ (if b then none else some (form_data parts))
map-if true parts = refl
map-if false parts = refl

-- Under a multipart content type and the option `useJQuery` the body is a FormData with one part for
-- each field of the form, in order: the file of a field that is one, and else the value. It throws a
-- TypeError exactly when a field is null.
pub get_body-multipart :
    (op : Operation) (headers args opts : Dict Value)
    → is_urlencoded? (get "Content-Type" headers) ≡ false
    → is_multipart (get "Content-Type" headers) ≡ true
    → is_set (get "useJQuery" opts) ≡ true
    → body_part (get_body op headers args opts) ≡ (
        if has_null (form_of op args)
        then none
        else some (form_data (map part_of (form_of op args))))
unfolding get_body
get_body-multipart op headers args opts u m j =
    rw (u, m, j, body_part-form_result, append_parts-eq (form_of op args) (headers, []))
      (map-if (has_null (form_of op args)) (map part_of (form_of op args)))
