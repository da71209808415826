-- ===== src/Listing/Urlify/Query.antt =====
-- lib/swagger-client.js, SwaggerOperation.urlify: the loop over the query parameters against a list of
-- pieces.
use Prim.Native.String.{[], ◌∷◌, ◌++◌}
use text.Mathlib.TextLemmas.{cons≢nil}
use common_services_common_u.Base.{
  String, ◌≡◌, refl, ap, sym, ◌∙◌, Bool, true, false, ◌||◌, Option, none, some, List, [], ◌∷◌, ◌==◌,
  if◌then◌else◌, Bool-cases, inl, inr, cons-append, nil-append, text_append_assoc, text_append-nil,
  ==-false_of_ne,
}
use common_services_common_u.Js.Text.{join, join_more}
use common_services_common_u.Js.Dict.{Dict, get}
use common_services_common_u.Js.Value.{Value, to_string}
use common_services_common_u.Js.Uri.{encode_uri_component}
use common_services_common_u.Client.{go_on}
use common_services_common_u.Listing.{Parameter}
use common_services_common_u.Listing.Urlify.{add_argument, query_params}

-- What a parameter adds: nothing, where it has no argument.
abbrev pub piece_of : String → Option Value → String
piece_of name none = ""
piece_of name (some v) = encode_uri_component name ++ ("=" ++ encode_uri_component (to_string v))

abbrev pub pieces : Dict Value → List Parameter → List String
pieces args [] = []
pieces args (param ∷ params) =
    if param.param_type == "query"
    then piece_of param.name (get param.name args) ∷ pieces args params
    else pieces args params

abbrev is_lacking : Bool → Option Value → Bool
is_lacking required none = required
is_lacking required (some v) = false

-- A required query parameter has no argument.
abbrev pub lacks : Dict Value → List Parameter → Bool
lacks args [] = false
lacks args (param ∷ params) =
    if param.param_type == "query"
    then is_lacking param.required (get param.name args) || lacks args params
    else lacks args params

abbrev pub drop_empty : List String → List String
drop_empty [] = []
drop_empty (p ∷ ps) = if p == "" then drop_empty ps else p ∷ ps

abbrev unless : Bool → String → Option String
unless true query = none
unless false query = some query

unless-if : (b : Bool) (query : String) → (if b then none else some query) ≡ unless b query
unless-if true query = refl
unless-if false query = refl

-- What is behind a query that is not empty.
abbrev query_rest : String → List String → String
query_rest query ps = query ++ join_more "&" ps

not_empty : (s t : String) → ((s ++ ("=" ++ t)) == "") ≡ false
not_empty [] t =
    ==-false_of_ne ("" ++ ("=" ++ t)) "" (λ e. cons≢nil (rw (nil-append, cons-append) at e))
not_empty (c ∷ s) t =
    ==-false_of_ne ((c ∷ s) ++ ("=" ++ t)) "" (λ e. cons≢nil (rw (cons-append) at e))

append_not_empty : (s t : String) → (s == "") ≡ false → ((s ++ t) == "") ≡ false
append_not_empty [] t h = cc
append_not_empty (c ∷ s) t h =
    ==-false_of_ne ((c ∷ s) ++ t) "" (λ e. cons≢nil (rw (cons-append) at e))

-- One parameter, and the loop behind it.
add_argument-more :
    (name : String) (required : Bool) (o : Option Value) (query : String) (later : Bool)
    (ps : List String) (f : String → Option String)
    → (query == "") ≡ false
    → ((q : String) → (q == "") ≡ false → f q ≡ unless later (query_rest q ps))
    → go_on (add_argument name required o (query ++ "&")) f
      ≡ unless (is_lacking required o || later) (query_rest query (piece_of name o ∷ ps))
add_argument-more name required (some v) query later ps f n h =
    h ((query ++ "&") ++ piece_of name (some v))
      (append_not_empty (query ++ "&") _ (append_not_empty query "&" n))
    ∙ ap (unless later) (simp text_append_assoc)
add_argument-more name true none query later ps f n h = refl
add_argument-more name false none query later ps f n h =
    h (query ++ "&") (append_not_empty query "&" n)
    ∙ ap (unless later) (rw nil-append (text_append_assoc query "&" (join_more "&" ps)))

query_params-more :
    (args : Dict Value) (params : List Parameter) (query : String)
    → (query == "") ≡ false
    → query_params args params query
      ≡ unless (lacks args params) (query_rest query (pieces args params))
unfolding query_params
query_params-more args [] query n = ap some (sym (text_append-nil query))
query_params-more args (param ∷ params) query n = elim (Bool-cases (param.param_type == "query")) [
  | inl t ↦
      rw (t, n)
        (add_argument-more param.name param.required (get param.name args) query (lacks args params)
          (pieces args params) (query_params args params) n (query_params-more args params))
  | inr f ↦ rw f (query_params-more args params query n)
]

add_argument-first :
    (name : String) (required : Bool) (o : Option Value) (later : Bool) (ps : List String)
    (f : String → Option String)
    → ((q : String) → (q == "") ≡ false → f q ≡ unless later (query_rest q ps))
    → f "" ≡ unless later (join "&" (drop_empty ps))
    → go_on (add_argument name required o "") f
      ≡ unless (is_lacking required o || later) (join "&" (drop_empty (piece_of name o ∷ ps)))
add_argument-first name required (some v) later ps f h k =
    let n = not_empty (encode_uri_component name) (encode_uri_component (to_string v)) in
    rw (nil-append, n) (h (piece_of name (some v)) n)
add_argument-first name true none later ps f h k = refl
add_argument-first name false none later ps f h k = k

-- The query of a call throws exactly where a required query parameter has no argument. Else it is
-- its pieces joined by `&`, one for each query parameter in order, where a parameter with no
-- argument has an empty piece, and the empty pieces before the first other one are left out.
pub query_params-eq-join :
    (args : Dict Value) (params : List Parameter)
    → query_params args params ""
      ≡ (if lacks args params then none else some (join "&" (drop_empty (pieces args params))))
unfolding query_params
query_params-eq-join args [] = refl
query_params-eq-join args (param ∷ params) = elim (Bool-cases (param.param_type == "query")) [
  | inl t ↦ rw t (
      add_argument-first param.name param.required (get param.name args) (lacks args params)
        (pieces args params) (query_params args params) (query_params-more args params)
        (query_params-eq-join args params ∙ unless-if (lacks args params) _)
      ∙ sym (unless-if _ _))
  | inr f ↦ rw f (query_params-eq-join args params)
]
