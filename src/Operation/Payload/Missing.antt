-- ===== src/Operation/Payload/Missing.antt =====
-- lib/swagger-client.js, Operation.getMissingParams: what it answers.
use Prim.Native.String.{[], ◌∷◌}
use common_services_common_u.Base.{
  String, ◌≡◌, refl, Bool, ◌&&◌, not, Option, none, some, List, [], ◌∷◌, if◌then◌else◌, is_some,
  Bool-cases, inl, inr,
}
use common_services_common_u.Js.Dict.{Dict, get}
use common_services_common_u.Js.Value.{Value}
use common_services_common_u.Operation.Types.{Parameter, Operation}
use common_services_common_u.Operation.Payload.{missing_from, get_missing_params}

-- A required parameter with no argument.
abbrev pub is_missing : Dict Value → Parameter → Bool
is_missing args param = param.required && not (is_some (get param.name args))

abbrev pub missing_names : Dict Value → List Parameter → List String
missing_names args [] = []
missing_names args (param ∷ params) =
    let rest = missing_names args params in
    if is_missing args param then param.name ∷ rest else rest

abbrev pub last_or : Option String → List String → Option String
last_or old [] = old
last_or old (name ∷ names) = last_or (some name) names

missing_from-eq-last :
    (args : Dict Value) (params : List Parameter) (old : Option String)
    → missing_from args params old ≡ last_or old (missing_names args params)
unfolding missing_from
missing_from-eq-last args [] old = refl
missing_from-eq-last args (param ∷ params) old = elim (Bool-cases (is_missing args param)) [
  | inl e ↦ rw e (missing_from-eq-last args params (some param.name))
  | inr e ↦ rw e (missing_from-eq-last args params old)
]

-- Of the required parameters that have no argument, `getMissingParams` answers the name of the last
-- one, and the empty array if there is none.
pub get_missing_params-eq-last :
    (op : Operation) (args : Dict Value)
    → get_missing_params op args ≡ last_or none (missing_names args op.parameters)
unfolding get_missing_params
get_missing_params-eq-last op args = missing_from-eq-last args op.parameters none
