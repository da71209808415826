-- ===== src/Console/View/Scopes.antt =====
-- swagger-ui.js, MainView.initialize and OperationView.render: the security schemes of the page, and
-- the scopes that the switch of an operation asks for.
use mathlib.Core.List
use common_services_common_u.Base.{
  String, ◌≡◌, refl, ◌∙◌, Option, none, some, List, [], ◌∷◌, ◌==◌, if◌then◌else◌, any, Bool-cases,
  inl, inr,
}
use common_services_common_u.Js.Dict.{Dict}

-- A security definition, with the descriptions of its scopes.
pub record Definition : Type 0 where
  pub type : String
  pub scopes : Dict String

-- An item of `auths`.
pub record Auth : Type 0 where
  pub name : String
  pub type : String
  pub value : Definition

pub record Scope : Type 0 where
  pub scope : String
  pub description : String

-- The loop of MainView.initialize.
unfoldable pub auths_of : Dict Definition → List Auth
auths_of [] = []
auths_of ((key, value) ∷ definitions) =
    record { name = key; type = value.type; value = value } ∷ auths_of definitions

-- `model.authorizations || model.security`: a list of requirements, each with the scopes by the
-- names of the schemes, or the scopes of an older description by the kinds of authorization.
pub data Requirement : Type 0 where
  requirements : List (Dict (List String)) → Requirement
  older : Dict (List Scope) → Requirement

-- The loop over `auth.value.scopes`.
unfoldable pub required_scopes : List String → Dict String → List Scope
required_scopes names [] = []
required_scopes names ((k, v) ∷ scopes) =
    let rest = required_scopes names scopes in
    if any (λ n. n == k) names then record { scope = k; description = v } ∷ rest else rest

-- The loop over `this.auths`: `model.oauth` is made anew for each scheme of OAuth.
unfoldable pub scan_auths : List String → List Auth → Option (List Scope) → Option (List Scope)
unfolding required_scopes
scan_auths names [] oauth = oauth
scan_auths names (a ∷ auths) oauth =
    scan_auths names auths
      (if a.type == "oauth2" then some (required_scopes names a.value.scopes) else oauth)

-- The loop over the keys of a requirement; which scheme a key names is not looked at.
unfoldable pub scan_keys :
    List Auth → Dict (List String) → Option (List Scope) → Option (List Scope)
unfolding scan_auths
scan_keys auths [] oauth = oauth
scan_keys auths ((key, names) ∷ keys) oauth = scan_keys auths keys (scan_auths names auths oauth)

unfoldable pub scan_requirements :
    List Auth → List (Dict (List String)) → Option (List Scope) → Option (List Scope)
unfolding scan_keys
scan_requirements auths [] oauth = oauth
scan_requirements auths (r ∷ rs) oauth = scan_requirements auths rs (scan_keys auths r oauth)

abbrev pub scopes_or_none : Option (List Scope) → List Scope
scopes_or_none none = []
scopes_or_none (some scopes) = scopes

unfoldable pub scan_older : Dict (List Scope) → Option (List Scope) → Option (List Scope)
scan_older [] oauth = oauth
scan_older ((k, scopes) ∷ kinds) oauth =
    scan_older kinds
      (if k == "oauth2" then some (List.◌++◌ (scopes_or_none oauth) scopes) else oauth)

-- `model.oauth`; `none` is null, for which no switch is drawn.
unfoldable pub show_oauth : List Auth → Option Requirement → Option (List Scope)
unfolding scan_requirements scan_older
show_oauth auths none = none
show_oauth auths (some (requirements rs)) = scan_requirements auths rs none
show_oauth auths (some (older kinds)) = scan_older kinds none

-- The last scheme of OAuth of the page.
abbrev pub last_oauth : List Auth → Option Auth → Option Auth
last_oauth [] found = found
last_oauth (a ∷ auths) found = last_oauth auths (if a.type == "oauth2" then some a else found)

abbrev pub or_scopes : List String → Option Auth → Option (List Scope) → Option (List Scope)
or_scopes names none oauth = oauth
or_scopes names (some a) oauth = some (required_scopes names a.value.scopes)

scan_auths-eq :
    (names : List String) (auths : List Auth) (found : Option Auth) (oauth : Option (List Scope))
    → scan_auths names auths (or_scopes names found oauth)
      ≡ or_scopes names (last_oauth auths found) oauth
unfolding scan_auths
scan_auths-eq names [] found oauth = refl
scan_auths-eq names (a ∷ auths) found oauth = elim (Bool-cases (a.type == "oauth2")) [
  | inl e ↦ rw e (scan_auths-eq names auths (some a) oauth)
  | inr e ↦ rw e (scan_auths-eq names auths found oauth)
]

scan_keys-last :
    (auths : List Auth) (a : Auth) (r : Dict (List String)) (key : String) (names : List String)
    (oauth : Option (List Scope))
    → last_oauth auths none ≡ some a
    → scan_keys auths (List.◌++◌ r ((key, names) ∷ [])) oauth
      ≡ some (required_scopes names a.value.scopes)
unfolding scan_keys
scan_keys-last auths a [] key names oauth h = scan_auths-eq names auths none oauth ∙ rw h refl
scan_keys-last auths a ((k, ns) ∷ r) key names oauth h =
    scan_keys-last auths a r key names (scan_auths ns auths oauth) h

scan_requirements-last :
    (auths : List Auth) (a : Auth) (rs : List (Dict (List String))) (r : Dict (List String))
    (key : String) (names : List String) (oauth : Option (List Scope))
    → last_oauth auths none ≡ some a
    → scan_requirements auths (List.◌++◌ rs (List.◌++◌ r ((key, names) ∷ []) ∷ [])) oauth
      ≡ some (required_scopes names a.value.scopes)
unfolding scan_requirements
scan_requirements-last auths a [] r key names oauth h = scan_keys-last auths a r key names oauth h
scan_requirements-last auths a (q ∷ rs) r key names oauth h =
    scan_requirements-last auths a rs r key names (scan_keys auths q oauth) h

-- The scopes that the switch of an operation asks for are those of the last name of its last
-- requirement, looked up in the last scheme of OAuth that the page has. What the operation requires
-- before it makes no difference, nor does the scheme that the last name is of.
pub show_oauth-last :
    (auths : List Auth) (a : Auth) (rs : List (Dict (List String))) (r : Dict (List String))
    (key : String) (names : List String)
    → last_oauth auths none ≡ some a
    → show_oauth auths (some (requirements (List.◌++◌ rs (List.◌++◌ r ((key, names) ∷ []) ∷ []))))
      ≡ some (required_scopes names a.value.scopes)
unfolding show_oauth
show_oauth-last auths a rs r key names = scan_requirements-last auths a rs r key names none
