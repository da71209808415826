-- ===== src/Oauth/Laws.antt =====
-- lib/swagger-oauth.js: what a token is to the requests that follow, and what a logout leaves of it.
use Prim.Native.String.{◌++◌}
use common_services_common_u.Base.{
  String, ◌≡◌, ◌≢◌, refl, ap, ◌∙◌, Bool, true, false, none, some, List, [], ◌∷◌, ◌==◌, eq_iff, any,
  arith, All, Bool-cases, Option-cases, inl, inr, ==-false_of_ne,
}
use mathlib.Core.List
use text.Mathlib.TextPositions.{eq_refl}
use common_services_common_u.Js.Dict.{Dict, get, put, delete, get-put}
use common_services_common_u.Js.Dict.Distinct.{HasDistinctKeys, put-HasDistinctKeys}
use common_services_common_u.Js.Value.{Value, str, Fields, get_field, is_set, to_string}
use common_services_common_u.Request.{Env, Request}
use common_services_common_u.Authorizations.{
  Authorization, Security, undefined, array, object, apply, add, remove, run, apply_one,
  apply_api_key,
}
use common_services_common_u.Authorizations.Laws.{
  apply-eq-run_each, run_each, stored, listed, asks_all,
}
use common_services_common_u.Oauth.{
  Oauth, bearer, shown, store_token, on_complete, remove_keys, logout,
}

-- A credential whose name is among the keys.
abbrev IsAmong : Dict Authorization → String × Authorization → Type 0
IsAmong keys (k, auth) = any (λ (j, a). j == k) keys ≡ true

IsAmong-cons :
    (key : String × Authorization) (keys d : Dict Authorization)
    → All (IsAmong keys) d
    → All (IsAmong (key ∷ keys)) d
IsAmong-cons key keys [] h = tt
IsAmong-cons (j, a) keys ((k, auth) ∷ d) (e, h) = (ground arith, IsAmong-cons (j, a) keys d h)

IsAmong-refl : (d : Dict Authorization) → All (IsAmong d) d
IsAmong-refl [] = tt
IsAmong-refl ((k, auth) ∷ d) =
    (ground (arith, eq_iff k k), IsAmong-cons (k, auth) d d (IsAmong-refl d))

IsAmong-delete :
    (j : String) (a : Authorization) (keys d : Dict Authorization)
    → All (IsAmong ((j, a) ∷ keys)) d
    → All (IsAmong keys) (delete j d)
unfolding delete
IsAmong-delete j a keys [] h = tt
IsAmong-delete j a keys ((k, auth) ∷ d) (e, h) =
    ground (arith, eq_iff j k, eq_iff k j, IsAmong-delete j a keys d h)

remove_keys-IsAmong : (keys d : Dict Authorization) → All (IsAmong keys) d → remove_keys keys d ≡ []
unfolding remove_keys remove
remove_keys-IsAmong [] [] h = refl
remove_keys-IsAmong [] ((k, auth) ∷ d) (e, h) = cc
remove_keys-IsAmong ((j, a) ∷ keys) d h =
    remove_keys-IsAmong keys (delete j d) (IsAmong-delete j a keys d h)

logout-authz : (o : Oauth) → (logout o).authz ≡ []
unfolding logout
logout-authz o = remove_keys-IsAmong o.authz o.authz (IsAmong-refl o.authz)

stored-nil : (names : List String) → stored [] names ≡ []
unfolding get
stored-nil [] = refl
stored-nil (name ∷ names) = stored-nil names

-- Another name, under which nothing is stored.
abbrev pub IsAbsent : String → Dict Authorization → String → Type 0
IsAbsent key authz name = (key ≢ name) × (get name authz ≡ none)

nil≢append : (xs ys : List String) (x : String) → [] ≢ List.◌++◌ xs (x ∷ ys)
nil≢append [] ys x h = cc
nil≢append (y ∷ xs) ys x h = cc

module _ (env : Env) where
  open env use {Jar}

  apply-nil : (r : Request Jar) (sec : Security) → apply env [] r sec ≡ (r, false)
  apply-nil r sec = apply-eq-run_each env [] r sec tt ∙ elim (Bool-cases (asks_all sec)) [
    | inl t ↦ rw t refl
    | inr f ↦ rw (f, stored-nil (listed sec)) refl
  ]

  -- After a logout no credential is put on a request, whatever was stored before, and whatever
  -- the operation requires.
  pub logout-apply :
      (o : Oauth) (r : Request Jar) (sec : Security) → apply env (logout o).authz r sec ≡ (r, false)
  logout-apply o r sec = rw (logout-authz o) (apply-nil r sec)

  -- What `run_each` does with the credentials of the names up to one, and of that one.
  stored-append :
      (authz : Dict Authorization) (xs ys : List String)
      → stored authz (List.◌++◌ xs ys) ≡ List.◌++◌ (stored authz xs) (stored authz ys)
  stored-append authz [] ys = refl
  stored-append authz (x ∷ xs) ys = elim (Option-cases (get x authz)) [
    | inl e ↦ rw e (stored-append authz xs ys)
    | inr (auth, e) ↦ rw e (ap (λ auths. auth ∷ auths) (stored-append authz xs ys))
  ]

  run_each-last :
      (auths : List Authorization) (auth : Authorization) (acc : Request Jar × Bool)
      → run_each env (List.◌++◌ auths (auth ∷ [])) acc ≡ run env auth (run_each env auths acc)
  run_each-last [] auth acc = refl
  run_each-last (a ∷ auths) auth acc = run_each-last auths auth (run env a acc)

  stored-put_absent :
      (key : String) (auth : Authorization) (authz : Dict Authorization) (names : List String)
      → All (IsAbsent key authz) names
      → stored (put key auth authz) names ≡ []
  stored-put_absent key auth authz [] h = refl
  stored-put_absent key auth authz (name ∷ names) ((n, e), h) =
      rw (get-put, ==-false_of_ne key name n, e) (stored-put_absent key auth authz names h)

  stored-put_last :
      (key : String) (auth : Authorization) (authz : Dict Authorization)
      (before behind : List String)
      → All (IsAbsent key authz) behind
      → stored (put key auth authz) (List.◌++◌ before (key ∷ behind))
        ≡ List.◌++◌ (stored (put key auth authz) before) (auth ∷ [])
  stored-put_last key auth authz before behind h =
      stored-append (put key auth authz) before (key ∷ behind)
      ∙ ap (List.◌++◌ (stored (put key auth authz) before)) (
          rw (get-put, eq_refl key)
            (ap (λ auths. auth ∷ auths) (stored-put_absent key auth authz behind h)))

  asks_all-listed :
      (sec : Security) (before behind : List String) (key : String)
      → listed sec ≡ List.◌++◌ before (key ∷ behind)
      → asks_all sec ≡ false
  asks_all-listed undefined before behind key h = absurd (nil≢append before behind key h)
  asks_all-listed (array []) before behind key h = absurd (nil≢append before behind key h)
  asks_all-listed (array (auth ∷ auths)) before behind key h = refl
  asks_all-listed (object []) before behind key h = absurd (nil≢append before behind key h)
  asks_all-listed (object (name ∷ names)) before behind key h = refl

  apply-added :
      (key : String) (auth : Authorization) (authz : Dict Authorization) (r : Request Jar)
      (sec : Security) (before behind : List String)
      → HasDistinctKeys authz
      → listed sec ≡ List.◌++◌ before (key ∷ behind)
      → All (IsAbsent key authz) behind
      → apply env (add key auth authz) r sec
        ≡ run env auth (run_each env (stored (put key auth authz) before) (r, false))
  unfolding add
  apply-added key auth authz r sec before behind h l n =
      apply-eq-run_each env (put key auth authz) r sec (put-HasDistinctKeys key auth authz h)
      ∙ rw
          (
            asks_all-listed sec before behind key l,
            l,
            stored-put_last key auth authz before behind n,
          )
          (run_each-last (stored (put key auth authz) before) auth (r, false))

  bearer-header :
      (b : Value) (acc : Request Jar × Bool)
      → get "Authorization" (run env (bearer b) acc).0.headers
        ≡ some (str ("Bearer " ++ to_string b))
  unfolding apply_one apply_api_key
  bearer-header b (r, status) = rw get-put refl

  store_token-authz :
      (panels : List (List String)) (b : Value) (o : Oauth)
      → is_set (some b) ≡ true
      → (store_token panels (some b) o).0.authz ≡ add (shown o.key_name) (bearer b) o.authz
  store_token-authz panels b o h = rw h refl

  -- A token that comes with no error is sent. Take any requirement of an operation, of version 1.2 or
  -- 2.0, that lists the scheme of the login, with any names before it, and behind it only names that
  -- are others and are not stored: a request for the operation has the token in its header
  -- `Authorization`, whatever was stored or written there before. The stored credentials have
  -- distinct names.
  pub on_complete-apply :
      (panels : List (List String)) (token : Fields) (b : Value) (o : Oauth) (r : Request Jar)
      (sec : Security) (before behind : List String)
      → HasDistinctKeys o.authz
      → get_field "error" token ≡ none
      → get_field (shown o.token_name) token ≡ some b
      → is_set (some b) ≡ true
      → listed sec ≡ List.◌++◌ before (shown o.key_name ∷ behind)
      → All (IsAbsent (shown o.key_name) o.authz) behind
      → get "Authorization" (apply env (on_complete panels (some token) o).0.authz r sec).0.headers
        ≡ some (str ("Bearer " ++ to_string b))
  unfolding on_complete
  on_complete-apply panels token b o r sec before behind h e t s l n =
      rw
        (
          e,
          t,
          store_token-authz panels b o s,
          apply-added (shown o.key_name) (bearer b) o.authz r sec before behind h l n,
        )
        (bearer-header b
          (run_each env (stored (put (shown o.key_name) (bearer b) o.authz) before) (r, false)))
