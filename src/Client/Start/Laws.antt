-- ===== src/Client/Start/Laws.antt =====
-- lib/swagger-client.js, SwaggerClient.build: which version a description is of.
use Prim.Native.String.{◌∷◌}
use text.Mathlib.TextLemmas.{cons≢nil}
use common_services_common_u.Base.{String, ◌≡◌, refl, Option, some, ==-false_of_ne}
use common_services_common_u.Js.Value.{Value, str, obj, Fields, get_field}
use common_services_common_u.Client.Start.{resolves_2, response, receive_description}

-- A description whose field `swagger` is a text that begins with "2." is resolved as one of version 2,
-- whatever its field `swaggerVersion` says.
pub receive_description-version_2 :
    (parse : String → Option Value) (url data_ s : String) (fs : Fields)
    → get_field "swagger" fs ≡ some (str ("2" ∷ "." ∷ s))
    → receive_description parse url (response (some (obj fs)) data_) ≡ resolves_2 (obj fs)
unfolding receive_description
receive_description-version_2 parse url data_ s fs h =
    rw (h, ==-false_of_ne ("2" ∷ "." ∷ s) "" (λ e. cons≢nil e)) refl
