-- ===== src/Operation/Urlify/Laws.antt =====
-- lib/swagger-client.js, Operation.urlify: the URL as one expression of the path, the query and the
-- arguments.
use Prim.Native.String.{[], ◌∷◌, ◌++◌}
use text.Mathlib.TextLemmas.{cons≢nil}
use common_services_common_u.Base.{
  ℕ, Char, code, All, any, ◌=?◌, String, ◌≡◌, refl, ap, fun_ext, ◌∙◌, Bool, true, false, not,
  is_some, ◌&&◌, ◌||◌, Option, none, some, List, [], ◌∷◌, ◌==◌, eq_iff, if◌then◌else◌, Bool-cases,
  inl, inr, cons-append, text_append_assoc, text_append-nil, ==-false_of_ne,
}
use common_services_common_u.Js.Text.{replace_all, join_more}
use common_services_common_u.Js.Dict.{Dict, get}
use common_services_common_u.Js.Value.{Value, null, bool}
use common_services_common_u.Operation.Types.{Parameter, Operation}
use common_services_common_u.Operation.Encode.{encode_path_param}
use common_services_common_u.Operation.Urlify.{
  path_value, path_text, is_quantifier, query_piece, template, Progress, add_argument,
  then_continue, add_given, add_parameters, base_url, urlify,
}

-- The texts of the query parameters that have an argument, in the order of the parameters.
abbrev pub cons_piece : Parameter → Option Value → List String → List String
cons_piece param none pieces = pieces
cons_piece param (some v) pieces =
    if param.location == "query" then query_piece param v ∷ pieces else pieces

abbrev pub query_pieces : Dict Value → List Parameter → List String
query_pieces args [] = []
query_pieces args (param ∷ params) =
    cons_piece param (get param.name args) (query_pieces args params)

-- The path with the templates of the path parameters replaced, one parameter after the other.
abbrev pub substitute_one : Parameter → Option Value → String → Option String
substitute_one param none url = some url
substitute_one param (some v) url =
    if param.location == "path"
    then then_continue (path_value param v) (λ text. some (replace_all (template param) text url))
    else some url

abbrev pub substitute : Dict Value → List Parameter → String → Option String
substitute args [] url = some url
substitute args (param ∷ params) url =
    then_continue (substitute_one param (get param.name args) url) (substitute args params)

-- The query string of a list of pieces.
abbrev pub query_string : List String → String
query_string [] = ""
query_string (p ∷ ps) = "?" ++ (p ++ join_more "&" ps)

-- What a query string becomes when pieces are added to it.
abbrev add_pieces : String → List String → String
add_pieces q ps = if q == "" then query_string ps else q ++ join_more "&" ps

cons-==-nil : (c : Char) (s : String) → ((c ∷ s) == "") ≡ false
cons-==-nil c s = ==-false_of_ne (c ∷ s) "" (λ h. cons≢nil h)

question-==-nil : (p : String) → (("?" ++ p) == "") ≡ false
question-==-nil p = rw cons-append (cons-==-nil "?" ("" ++ p))

query-path : (s : String) → (s == "path") ≡ true → (s == "query") ≡ false
query-path s h = rw ((eq_iff s "path").0 h)

add_pieces-cons :
    (q p : String) (ps : List String)
    → add_pieces ((if q == "" then q ++ "?" else q ++ "&") ++ p) ps ≡ add_pieces q (p ∷ ps)
add_pieces-cons [] p ps = rw (question-==-nil p) (text_append_assoc "?" p (join_more "&" ps))
add_pieces-cons (c ∷ q) p ps =
    rw (cons-==-nil c q, cons-append, cons-append, cons-==-nil)
      (simp (text_append_assoc, cons-append))

abbrev with_pieces : List String → String → String → Option Progress
with_pieces ps q url = some (record { request_url = url; querystring = add_pieces q ps })

with_pieces-cons :
    (q p : String) (ps : List String)
    → with_pieces ps ((if q == "" then q ++ "?" else q ++ "&") ++ p) ≡ with_pieces (p ∷ ps) q
with_pieces-cons q p ps =
    fun_ext
      λ url. ap (λ x. some (record { request_url = url; querystring = x })) (add_pieces-cons q p ps)

abbrev Agrees : Dict Value → List Parameter → Type 0
Agrees args params =
    (url q : String)
    → add_parameters args params (record { request_url = url; querystring = q })
      ≡ then_continue (substitute args params url) (with_pieces (query_pieces args params) q)

module _ (args : Dict Value) (param : Parameter) (params : List Parameter) (url q : String) where
  after_path :
      (o : Option String)
      → Agrees args params
      → then_continue
          (then_continue o (λ text.
            some (record { request_url = replace_all (template param) text url; querystring = q })))
          (add_parameters args params)
        ≡ then_continue
            (then_continue
              (then_continue o (λ text. some (replace_all (template param) text url)))
              (substitute args params))
            (with_pieces (query_pieces args params) q)
  after_path none ih = refl
  after_path (some text) ih = ih (replace_all (template param) text url) q

  after_given :
      (o : Option Value)
      → Agrees args params
      → then_continue
          (add_given param o (record { request_url = url; querystring = q }))
          (add_parameters args params)
        ≡ then_continue
            (then_continue (substitute_one param o url) (substitute args params))
            (with_pieces (cons_piece param o (query_pieces args params)) q)
  unfolding add_argument
  after_given none ih = ih url q
  after_given (some v) ih = elim (Bool-cases (param.location == "path")) [
    | inl path ↦ rw (path, query-path param.location path) (after_path (path_value param v) ih)
    | inr other ↦ rw other (elim (Bool-cases (param.location == "query")) [
      | inl e ↦ rw e (
          ih url ((if q == "" then q ++ "?" else q ++ "&") ++ query_piece param v)
          ∙ ap (then_continue (substitute args params url))
              (with_pieces-cons q (query_piece param v) (query_pieces args params)))
      | inr e ↦ rw e (ih url q)
    ])
  ]

add_pieces-nil : (q : String) → add_pieces q [] ≡ q
add_pieces-nil [] = refl
add_pieces-nil (c ∷ q) = rw (cons-==-nil c q) (text_append-nil (c ∷ q))

add_parameters-eq : (args : Dict Value) (params : List Parameter) → Agrees args params
unfolding add_parameters
add_parameters-eq args [] url q = rw (add_pieces-nil q)
add_parameters-eq args (param ∷ params) url q =
    after_given args param params url q (get param.name args) (add_parameters-eq args params)

-- The URL that a path with its templates filled in and the pieces of the query make.
abbrev pub url_of : Operation → List String → String → String
url_of op pieces path = base_url op ++ (path ++ query_string pieces)

finish-urlify :
    (op : Operation) (pieces : List String) (o : Option String)
    → then_continue
        (then_continue o (with_pieces pieces ""))
        (λ p. some (base_url op ++ (p.request_url ++ p.querystring)))
      ≡ then_continue o (λ path. some (url_of op pieces path))
finish-urlify op pieces none = refl
finish-urlify op pieces (some path) = refl

-- The URL of a call: the base, the path with the templates of its path parameters replaced, and the
-- query string. The last is empty if no query parameter has an argument, and otherwise a `?` and the
-- pieces of those that have one, in the order of the parameters, with `&` between them.
pub urlify-eq-url_of :
    (op : Operation) (args : Dict Value)
    → urlify op args
      ≡ then_continue
          (substitute args op.parameters op.path)
          (λ path. some (url_of op (query_pieces args op.parameters) path))
unfolding urlify
urlify-eq-url_of op args =
    rw (add_parameters-eq args op.parameters op.path "")
      (finish-urlify op (query_pieces args op.parameters) (substitute args op.parameters op.path))

abbrev pub is_null : Value → Bool
is_null null = true
is_null v = false

-- An argument that throws: it is one of a path parameter, and is null or that of a quantifier.
abbrev pub throws : Parameter → Option Value → Bool
throws param none = false
throws param (some v) = param.location == "path" && (is_quantifier param.name || is_null v)

abbrev pub any_throws : Dict Value → List Parameter → Bool
any_throws args [] = false
any_throws args (param ∷ params) = throws param (get param.name args) || any_throws args params

-- The characters that a regular expression reads as operators.
abbrev pub is_operator : Char → Bool
is_operator c = any (λ o. o =? code c) operators
  where
    operators : List ℕ
    operators =
        b'^' ∷ b'$' ∷ b'\\' ∷ b'.' ∷ b'*' ∷ b'+' ∷ b'?' ∷ b'(' ∷ b')' ∷ b'[' ∷ b']' ∷ b'{' ∷ b'}'
        ∷ b'|' ∷ []

abbrev pub is_plain : String → Bool
is_plain [] = true
is_plain (c ∷ s) = not (is_operator c) && is_plain s

-- The names that a regular expression finds as they stand, or reads as a quantifier: on others it is not
-- the replacement of a text that `urlify` is here.
abbrev pub HasPlainNames : Operation → Type 0
HasPlainNames op = All (λ param. param.location ≡ "path" → is_plain param.name ≡ true) op.parameters

is_some-path_text : (param : Parameter) (v : Value) → is_some (path_text param v) ≡ not (is_null v)
unfolding encode_path_param
is_some-path_text param null = refl
is_some-path_text param (bool b) = refl
is_some-path_text param _ = refl

is_some-path_value :
    (param : Parameter) (v : Value)
    → is_some (path_value param v) ≡ not (is_quantifier param.name || is_null v)
unfolding path_value
is_some-path_value param v = elim (Bool-cases (is_quantifier param.name)) [
  | inl e ↦ rw e refl
  | inr e ↦ rw e (is_some-path_text param v)
]

is_some-after_value :
    (args : Dict Value) (param : Parameter) (params : List Parameter) (o : Option String) (b : Bool)
    (url : String)
    → ((u : String) → is_some (substitute args params u) ≡ not (any_throws args params))
    → is_some o ≡ not b
    → is_some (
        then_continue
          (then_continue o (λ text. some (replace_all (template param) text url)))
          (substitute args params))
      ≡ not (b || any_throws args params)
is_some-after_value args param params none true url ih h = refl
is_some-after_value args param params none false url ih h = cc
is_some-after_value args param params (some text) true url ih h = cc
is_some-after_value args param params (some text) false url ih h =
    ih (replace_all (template param) text url)

is_some-after_one :
    (args : Dict Value) (param : Parameter) (params : List Parameter) (o : Option Value)
    (url : String)
    → ((u : String) → is_some (substitute args params u) ≡ not (any_throws args params))
    → is_some (then_continue (substitute_one param o url) (substitute args params))
      ≡ not (throws param o || any_throws args params)
is_some-after_one args param params none url ih = ih url
is_some-after_one args param params (some v) url ih = elim (Bool-cases (param.location == "path")) [
  | inl e ↦ rw e (
      is_some-after_value args param params (path_value param v)
        (is_quantifier param.name || is_null v) url ih (is_some-path_value param v))
  | inr e ↦ rw e (ih url)
]

is_some-substitute :
    (args : Dict Value) (params : List Parameter) (url : String)
    → is_some (substitute args params url) ≡ not (any_throws args params)
is_some-substitute args [] url = refl
is_some-substitute args (param ∷ params) url =
    is_some-after_one args param params (get param.name args) url (is_some-substitute args params)

is_some-then_continue :
    (o : Option String) (f : String → String)
    → is_some (then_continue o (λ x. some (f x))) ≡ is_some o
is_some-then_continue none f = refl
is_some-then_continue (some x) f = refl

-- Where no path parameter has a name with an operator of regular expressions: a call has a URL unless
-- a path parameter has an argument and that is null, which throws a TypeError, or its name is one that
-- the regular expression reads as a quantifier, digits or digits with a comma, which throws a
-- SyntaxError. Arguments that are null elsewhere, or that are missing, are no error here.
pub urlify_total :
    (op : Operation) (args : Dict Value)
    → HasPlainNames op
    → is_some (urlify op args) ≡ not (any_throws args op.parameters)
urlify_total op args _ = rw (urlify-eq-url_of op args) (
    is_some-then_continue (substitute args op.parameters op.path)
      (url_of op (query_pieces args op.parameters))
    ∙ is_some-substitute args op.parameters op.path)
