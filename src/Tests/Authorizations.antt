-- ===== src/Tests/Authorizations.antt =====
-- SwaggerAuthorizations on three stored credentials.
use common_services_common_u.Base.{◌≡◌, refl, false, [], ◌∷◌, ne_of_test}
use common_services_common_u.Js.Text.{index_of}
use common_services_common_u.Js.Dict.Distinct.{HasDistinctKeys}
use common_services_common_u.Authorizations.{undefined, array, apply, apply_api_key, apply_one}
use common_services_common_u.Authorizations.Laws.{run_each, selected, apply-eq-run_each}
use common_services_common_u.Authorizations.Frame.{IsExtension, apply-IsExtension}
use common_services_common_u.Tests.Data.{env, authz, plain}

pub authz-HasDistinctKeys : HasDistinctKeys authz
authz-HasDistinctKeys = (
  (ne_of_test "basic" "key" refl, (ne_of_test "odd" "key" refl, tt)),
  ((ne_of_test "odd" "basic" refl, tt), (tt, tt)),
)

both_applied : (apply env authz plain undefined).0.url ≡ "http://h/p?q=1&api_key=s3"
unfolding apply apply_api_key apply_one index_of
both_applied = refl

apply-eq-run_each_example :
    apply env authz plain (array (("basic" ∷ []) ∷ ("none" ∷ []) ∷ []))
    ≡ run_each env (selected authz (array (("basic" ∷ []) ∷ ("none" ∷ []) ∷ []))) (plain, false)
apply-eq-run_each_example =
    apply-eq-run_each env authz plain (array (("basic" ∷ []) ∷ ("none" ∷ []) ∷ []))
      authz-HasDistinctKeys

apply-IsExtension_example : IsExtension plain (apply env authz plain undefined).0
apply-IsExtension_example = apply-IsExtension env authz plain undefined authz-HasDistinctKeys
