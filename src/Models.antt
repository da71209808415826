-- ===== src/Models.antt =====
-- lib/swagger-client.js, Model, ArrayModel and PrimitiveModel: the signature of a model, with those of
-- the models that it refers to.
pub mod Total
pub mod Printed
use Prim.Native.String.{◌++◌}
use mathlib.Core.List
use common_services_common_u.Base.{
  ℕ, zero, suc, String, Bool, Option, none, some, List, [], ◌∷◌, map, ◌==◌, if◌then◌else◌, any,
}
use common_services_common_u.Js.Text.{join}
use common_services_common_u.Js.Dict.{Dict, get}

-- A property of a model: what its `toString` gives, and its `$ref`.
pub record Property : Type 0 where
  pub text : String
  pub ref : Option String

-- A model of an array has the name "arrayModel" and no properties.
pub data Model : Type 0 where
  object_model : String → List Property → Model
  array_model : Model
  primitive_model : Model

abbrev pub name_of : Model → String
name_of (object_model name properties) = name
name_of array_model = "arrayModel"
name_of primitive_model = "name"

abbrev pub properties_of : Model → List Property
properties_of (object_model name properties) = properties
properties_of array_model = []
properties_of primitive_model = []

abbrev pub heading : Model → String
heading (object_model name properties) = name
heading array_model = "array"
heading primitive_model = "name"

abbrev pub text_of : Property → String
text_of p = p.text

-- `classOpen + … + classClose`
abbrev pub class_text : Model → String
class_text m =
    "<span class=\"strong\">"
    ++ (heading m
        ++ (" {</span><div>"
            ++ (join ",</div><div>" (map text_of (properties_of m))
                ++ "</div><span class=\"strong\">}</span>")))

abbrev pub has_name : String → List String → Bool
has_name name names = any (λ n. n == name) names

-- The text so far, and the names in `modelsToIgnore`.
abbrev pub Signature : Type 0
Signature = Option (String × List String)

-- A call of `getMockSignature` on a model, with these names in `modelsToIgnore`.
abbrev pub Call : Type 0
Call = Model → List String → Signature

module _ (models : Dict Model) where
  -- `models[prop.$ref]`
  abbrev pub model_of : Option String → Option Model
  model_of none = get "undefined" models
  model_of (some ref) = get ref models

  abbrev pub go_on_with : Signature → (String → List String → Signature) → Signature
  go_on_with none f = none
  go_on_with (some (text, ignored)) f = f text ignored

  -- The body of the loop over the properties.
  abbrev pub append_model :
      Call → Option Model → String → List String → (String → List String → Signature) → Signature
  append_model call none text ignored later = later text ignored
  append_model call (some model) text ignored later =
      if has_name (name_of model) ignored
      then later text ignored
      else go_on_with (call model ignored) (λ t. later (text ++ ("<br>" ++ t)))

  unfoldable pub append_models : Call → List Property → String → List String → Signature
  append_models call [] text ignored = some (text, ignored)
  append_models call (p ∷ ps) text ignored =
      append_model call (model_of p.ref) text ignored (append_models call ps)

  -- `none` is a call that needs more than `fuel` calls, one in the other.
  unfoldable pub get_mock_signature : ℕ → Call
  unfolding append_models
  get_mock_signature zero m ignored = none
  get_mock_signature (suc fuel) m ignored =
      append_models (get_mock_signature fuel) (properties_of m) (class_text m)
        (List.◌++◌ ignored (name_of m ∷ []))
