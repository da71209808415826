-- ===== src/Authorizations/Laws.antt =====
-- lib/swagger-client.js, SwaggerAuthorizations.apply: which credentials it puts on a request.
use mathlib.Core.List.{◌++◌}
use common_services_common_u.Base.{
  String, ◌≡◌, ◌≢◌, refl, Bool, true, false, ◌||◌, Option, none, some, List, [], ◌∷◌, arith, ◌==◌,
  eq_iff, any, is_empty, if◌then◌else◌, Option-cases, inl, inr, ◌∙◌, All,
}
use common_services_common_u.Js.Dict.{Dict, get, put}
use common_services_common_u.Js.Dict.Distinct.{IsFresh, HasDistinctKeys}
use common_services_common_u.Request.{Env, Request}
use common_services_common_u.Authorizations.{
  Authorization, api_key, cookie, password, Security, undefined, array, object, add, apply_one, run,
  apply_all, apply_named, apply_names, apply_array, apply,
}

-- The kinds of credentials that have somewhere to go.
abbrev pub is_effective : Authorization → Bool
is_effective (api_key name value type) = type == "query" || type == "header"
is_effective (cookie value) = true
is_effective (password name user pass) = true

-- The names that a security requirement lists, in the order of its loops.
abbrev pub flat_names : List (List String) → List String
flat_names [] = []
flat_names (auth ∷ auths) = auth ++ flat_names auths

abbrev pub listed : Security → List String
listed undefined = []
listed (array auths) = flat_names auths
listed (object names) = names

abbrev pub values : Dict Authorization → List Authorization
values [] = []
values ((k, auth) ∷ authz) = auth ∷ values authz

-- The stored credentials of the listed names.
abbrev pub cons_found : Option Authorization → List Authorization → List Authorization
cons_found none auths = auths
cons_found (some auth) auths = auth ∷ auths

abbrev pub stored : Dict Authorization → List String → List Authorization
stored authz [] = []
stored authz (name ∷ names) = cons_found (get name authz) (stored authz names)

-- No name is asked for: the requirement is undefined, or holds no entry.
abbrev pub asks_all : Security → Bool
asks_all undefined = true
asks_all (array auths) = is_empty auths
asks_all (object names) = is_empty names

-- What the documentation of `apply` promises: all credentials if none is asked for, and otherwise
-- those of the listed names.
abbrev pub selected : Dict Authorization → Security → List Authorization
selected authz sec = if asks_all sec then values authz else stored authz (listed sec)

module _ (env : Env) where
  open env use {Jar}

  abbrev pub run_each : List Authorization → Request Jar × Bool → Request Jar × Bool
  run_each [] acc = acc
  run_each (auth ∷ auths) acc = run_each auths (run env auth acc)

  apply_one-status :
      (auth : Authorization) (obj : Request Jar) → (apply_one env auth obj).1 ≡ is_effective auth
  unfolding apply_one
  apply_one-status (api_key name value type) obj = ground arith
  apply_one-status (cookie value) obj = refl
  apply_one-status (password name user pass) obj = refl

  run_each-status :
      (auths : List Authorization) (obj : Request Jar) (status : Bool)
      → (run_each auths (obj, status)).1 ≡ (status || any is_effective auths)
  run_each-status [] obj status = ground arith
  run_each-status (auth ∷ auths) obj status = ground (
    arith,
    apply_one-status auth obj,
    run_each-status auths (apply_one env auth obj).0 ((apply_one env auth obj).1 || status),
  )

  apply_all-eq-run_each :
      (authz : Dict Authorization) (acc : Request Jar × Bool)
      → apply_all env authz acc ≡ run_each (values authz) acc
  unfolding apply_all
  apply_all-eq-run_each [] acc = refl
  apply_all-eq-run_each ((k, auth) ∷ authz) acc = apply_all-eq-run_each authz (run env auth acc)

  -- A name that is not stored selects nothing.
  apply_named-IsFresh :
      (name : String) (authz : Dict Authorization) (acc : Request Jar × Bool)
      → IsFresh name authz
      → apply_named env name authz acc ≡ acc
  unfolding apply_named
  apply_named-IsFresh name [] acc f = refl
  apply_named-IsFresh name ((key, auth) ∷ authz) acc (f, g) =
      ground (arith, eq_iff key name, apply_named-IsFresh name authz acc g)

  abbrev run_found : Option Authorization → Request Jar × Bool → Request Jar × Bool
  run_found none acc = acc
  run_found (some auth) acc = run env auth acc

  -- The loop over the stored keys is a lookup.
  apply_named-eq-get :
      (name : String) (authz : Dict Authorization) (acc : Request Jar × Bool)
      → HasDistinctKeys authz
      → apply_named env name authz acc ≡ run_found (get name authz) acc
  unfolding apply_named get
  apply_named-eq-get name [] acc h = refl
  apply_named-eq-get name ((key, auth) ∷ authz) acc (f, h) = ground (
    arith,
    eq_iff key name,
    apply_named-eq-get name authz acc h,
    λ (e : key ≡ name). apply_named-IsFresh name authz (run env auth acc) (rw e at f),
  )

  apply_names-eq-run_each :
      (authz : Dict Authorization) (names : List String) (acc : Request Jar × Bool)
      → HasDistinctKeys authz
      → apply_names env authz names acc ≡ run_each (stored authz names) acc
  unfolding apply_names
  apply_names-eq-run_each authz [] acc h = refl
  apply_names-eq-run_each authz (name ∷ names) acc h =
      rw (apply_named-eq-get name authz acc h) (elim (Option-cases (get name authz)) [
        | inl e ↦ rw e (apply_names-eq-run_each authz names acc h)
        | inr (auth, e) ↦ rw e (apply_names-eq-run_each authz names (run env auth acc) h)
      ])

  apply_names-append :
      (authz : Dict Authorization) (xs ys : List String) (acc : Request Jar × Bool)
      → apply_names env authz (xs ++ ys) acc
        ≡ apply_names env authz ys (apply_names env authz xs acc)
  unfolding apply_names
  apply_names-append authz [] ys acc = refl
  apply_names-append authz (x ∷ xs) ys acc =
      apply_names-append authz xs ys (apply_named env x authz acc)

  apply_array-eq-apply_names :
      (authz : Dict Authorization) (auths : List (List String)) (acc : Request Jar × Bool)
      → apply_array env authz auths acc ≡ apply_names env authz (flat_names auths) acc
  unfolding apply_array apply_names
  apply_array-eq-apply_names authz [] acc = refl
  apply_array-eq-apply_names authz (auth ∷ auths) acc =
      rw apply_names-append
        (apply_array-eq-apply_names authz auths (apply_names env authz auth acc))

  -- On stored credentials with distinct names, `apply` runs the credentials that the requirement
  -- selects, in their order, and nothing else: all of them if it asks for none by name, and
  -- otherwise the stored ones of the listed names.
  pub apply-eq-run_each :
      (authz : Dict Authorization) (obj : Request Jar) (sec : Security)
      → HasDistinctKeys authz
      → apply env authz obj sec ≡ run_each (selected authz sec) (obj, false)
  unfolding apply
  apply-eq-run_each authz obj undefined h = apply_all-eq-run_each authz (obj, false)
  apply-eq-run_each authz obj (array []) h = apply_all-eq-run_each authz (obj, false)
  apply-eq-run_each authz obj (array (auth ∷ auths)) h =
      apply_array-eq-apply_names authz (auth ∷ auths) (obj, false)
      ∙ apply_names-eq-run_each authz (flat_names (auth ∷ auths)) (obj, false) h
  apply-eq-run_each authz obj (object []) h = apply_all-eq-run_each authz (obj, false)
  apply-eq-run_each authz obj (object (name ∷ names)) h =
      apply_names-eq-run_each authz (name ∷ names) (obj, false) h

  -- On stored credentials with distinct names, the status of `apply` is `true` exactly when one of
  -- the selected credentials is a cookie, a password, or an API key for the query or a header.
  pub apply-status :
      (authz : Dict Authorization) (obj : Request Jar) (sec : Security)
      → HasDistinctKeys authz
      → (apply env authz obj sec).1 ≡ any is_effective (selected authz sec)
  apply-status authz obj sec h =
      rw (apply-eq-run_each authz obj sec h) (run_each-status (selected authz sec) obj false)

  apply_named-put :
      (name key : String) (auth : Authorization) (authz : Dict Authorization)
      (acc : Request Jar × Bool)
      → key ≢ name
      → apply_named env name (put key auth authz) acc ≡ apply_named env name authz acc
  unfolding apply_named put
  apply_named-put name key auth [] acc h = ground (arith, eq_iff key name)
  apply_named-put name key auth ((k, a) ∷ authz) acc h = ground (
    arith,
    eq_iff key name,
    eq_iff k key,
    apply_named-put name key auth authz acc h,
    apply_named-put name key auth authz (run env a acc) h,
  )

  apply_names-put :
      (names : List String) (key : String) (auth : Authorization) (authz : Dict Authorization)
      (acc : Request Jar × Bool)
      → All (λ name. key ≢ name) names
      → apply_names env (put key auth authz) names acc ≡ apply_names env authz names acc
  unfolding apply_names
  apply_names-put [] key auth authz acc h = refl
  apply_names-put (name ∷ names) key auth authz acc (n, h) =
      rw (apply_named-put name key auth authz acc n)
        (apply_names-put names key auth authz (apply_named env name authz acc) h)

  -- Adding a credential under a name that a requirement does not list changes nothing of what
  -- `apply` does for that requirement, provided that the requirement holds an entry.
  pub apply-add_unlisted :
      (authz : Dict Authorization) (key : String) (auth : Authorization) (obj : Request Jar)
      (sec : Security)
      → asks_all sec ≡ false
      → All (λ name. key ≢ name) (listed sec)
      → apply env (add key auth authz) obj sec ≡ apply env authz obj sec
  unfolding apply add
  apply-add_unlisted authz key auth obj (array (a ∷ auths)) e h =
      rw (apply_array-eq-apply_names (put key auth authz) (a ∷ auths) (obj, false)) (
        rw (apply_array-eq-apply_names authz (a ∷ auths) (obj, false))
          (apply_names-put (flat_names (a ∷ auths)) key auth authz (obj, false) h))
  apply-add_unlisted authz key auth obj (object (name ∷ names)) e h =
      apply_names-put (name ∷ names) key auth authz (obj, false) h
  apply-add_unlisted authz key auth obj _ e h = cc
