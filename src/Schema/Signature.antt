-- ===== src/Schema/Signature.antt =====
-- lib/swagger-client.js, Operation.getModelSignature and Operation.resolveModel.
use Prim.Native.String.{◌++◌}
use common_services_common_u.Base.{
  ℕ, ◌<◌, String, ◌≡◌, refl, Bool, true, false, ◌&&◌, ◌||◌, not, Option, none, some, List, [], ◌==◌,
  if◌then◌else◌, is_some, length, Bool-cases, inl, inr, arith,
}
use common_services_common_u.Js.Text.{strip_prefix}
use common_services_common_u.Js.Dict.{Dict, get}
use common_services_common_u.Models.{Model, array_model, get_mock_signature}
use common_services_common_u.Models.Total.{get_mock_signature_total}
use common_services_common_u.Schema.{
  Schema, schema, or_text, is, TypeName, undefined_type, named, list_of,
}
use common_services_common_u.Schema.Property.{Definition, new_model}

-- `String(type)`; an array of one item is written as the item, and as nothing if that is undefined.
unfoldable mutual
  pub type_text : TypeName → String
  type_text undefined_type = "undefined"
  type_text (named s) = s
  type_text (list_of t) = item_text t

  pub item_text : TypeName → String
  item_text undefined_type = ""
  item_text (named s) = s
  item_text (list_of t) = item_text t

abbrev pub is_string : TypeName → Bool
is_string (named s) = s == "string"
is_string t = false

-- `getMockSignature()`, on the value of `definitions[type]`.
abbrev pub text_only : Option (String × List String) → Option String
text_only none = none
text_only (some (text, ignored)) = some text

abbrev pub signature_of_model : ℕ → Dict Model → Option Model → Option String
signature_of_model fuel models none = none
signature_of_model fuel models (some m) = text_only (get_mock_signature models fuel m [])

abbrev pub in_array : Bool → Option String → Option String
in_array list_type none = none
in_array list_type (some text) = some (if list_type then "Array[" ++ (text ++ "]") else text)

-- `isPrimitive`; for an array the code also looks for a model named "true".
abbrev pub is_primitive : Dict Model → Bool → TypeName → Bool
is_primitive models list_type type =
    is_string type
    || not ((list_type && is_some (get "true" models)) || is_some (get (type_text type) models))

abbrev pub signature : ℕ → Dict Model → Bool → TypeName → Option String
signature fuel models list_type type =
    if is_primitive models list_type type
    then in_array list_type (some (type_text type))
    else in_array list_type (signature_of_model fuel models (get (type_text type) models))

-- `none` is the TypeError of a missing model, or too little fuel.
unfoldable pub get_model_signature : ℕ → Dict Model → TypeName → Option String
get_model_signature fuel models (list_of type) = signature fuel models true type
get_model_signature fuel models type = signature fuel models false type

abbrev array_or_none : Option String → Option Model
array_or_none type = if is "array" type then some array_model else none

abbrev pub model_or : Option Model → Option Definition → String → Option Model
model_or other none ref = other
model_or other (some d) ref = some (new_model ref d)

-- Operation.resolveModel; `none` is null.
abbrev pub resolve_ref : Option Model → Option String → Dict Definition → Option Model
resolve_ref other none definitions = other
resolve_ref other (some ref) definitions =
    let short = or_text ref (strip_prefix "#/definitions/" ref) in
    model_or other (get short definitions) short

unfoldable pub resolve_model : Schema → Dict Definition → Option Model
resolve_model (schema f items) definitions = resolve_ref (array_or_none f.type) f.ref definitions

in_array_total :
    (list_type : Bool) (o : Option String)
    → is_some o ≡ true
    → is_some (in_array list_type o) ≡ true
in_array_total list_type none h = h
in_array_total list_type (some text) h = refl

signature_of_model_total :
    (fuel : ℕ) (models : Dict Model) (o : Option Model)
    → length models < fuel
    → is_some o ≡ true
    → is_some (signature_of_model fuel models o) ≡ true
signature_of_model_total fuel models none h e = e
signature_of_model_total fuel models (some m) h e =
    let (text, after, r) = get_mock_signature_total models fuel m [] h in rw r refl

is_some_of_not_primitive :
    (list_type string named_true found : Bool)
    → named_true ≡ false
    → (string || not ((list_type && named_true) || found)) ≡ false
    → found ≡ true
is_some_of_not_primitive list_type string named_true found n e = ground arith

signature_total :
    (fuel : ℕ) (models : Dict Model) (list_type : Bool) (type : TypeName)
    → length models < fuel
    → is_some (get "true" models) ≡ false
    → is_some (signature fuel models list_type type) ≡ true
signature_total fuel models list_type type h n =
    elim (Bool-cases (is_primitive models list_type type)) [
      | inl e ↦ rw e refl
      | inr e ↦ rw e (
          in_array_total list_type (signature_of_model fuel models (get (type_text type) models)) (
            signature_of_model_total fuel models (get (type_text type) models) h (
              is_some_of_not_primitive list_type (is_string type) (is_some (get "true" models))
                (is_some (get (type_text type) models)) n e)))
    ]

-- Every type has a signature, if no model is named "true": with more fuel than there are models.
pub get_model_signature_total :
    (fuel : ℕ) (models : Dict Model) (type : TypeName)
    → length models < fuel
    → is_some (get "true" models) ≡ false
    → is_some (get_model_signature fuel models type) ≡ true
unfolding get_model_signature
get_model_signature_total fuel models undefined_type h n =
    signature_total fuel models false undefined_type h n
get_model_signature_total fuel models (named s) h n =
    signature_total fuel models false (named s) h n
get_model_signature_total fuel models (list_of t) h n = signature_total fuel models true t h n
