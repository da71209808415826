-- ===== src/Operation/Execute/Headers.antt =====
-- lib/swagger-client.js, Operation.execute: how the headers of the parameters and those of the options
-- are merged.

use common_services_common_u.Base.{
  String, ◌≡◌, refl, ap, ◌∙◌, Bool, true, false, Option, none, some, List, [], ◌∷◌, ◌==◌, arith,
  eq_iff, Bool-cases, inl, inr,
}
use common_services_common_u.Js.Dict.{Dict, get, put, put_all, get-put}
use common_services_common_u.Js.Dict.Distinct.{HasDistinctKeys, put-HasDistinctKeys, get-IsFresh}
use common_services_common_u.Js.Value.{Value, truthy}
use common_services_common_u.Operation.Types.{Parameter, Operation}
use common_services_common_u.Operation.ContentTypes.{
  Scan, or_else, put_defined, scan_parameter, scan_parameters, start, put_if, write_types,
  choose_consumes, choose_accepts, set_content_types, put_header, header_value, add_header_params,
  get_header_params,
}
use common_services_common_u.Operation.Execute.{merged_headers}

-- Copying a dictionary with distinct keys over another one.
get-put_all :
    (k : String) (e d : Dict Value)
    → HasDistinctKeys e
    → get k (put_all e d) ≡ or_else (get k e) (get k d)
unfolding put_all get
get-put_all k [] d h = refl
get-put_all k ((j, v) ∷ e) d (f, h) = elim (Bool-cases (j == k)) [
  | inl q ↦ rw (
    q,
    get-put_all k e (put j v d) h,
    get-IsFresh k e (rw ((eq_iff j k).0 q) at f),
    get-put j k v d,
    q,
  )
  | inr q ↦ rw (q, get-put_all k e (put j v d) h, get-put j k v d, q)
]

put_if-HasDistinctKeys :
    (b : Bool) (k : String) (v : Value) (d : Dict Value)
    → HasDistinctKeys d
    → HasDistinctKeys (put_if b k v d)
put_if-HasDistinctKeys true k v d h = put-HasDistinctKeys k v d h
put_if-HasDistinctKeys false k v d h = h

put_defined-HasDistinctKeys :
    (k : String) (o : Option Value) (d : Dict Value)
    → HasDistinctKeys d
    → HasDistinctKeys (put_defined k o d)
put_defined-HasDistinctKeys k none d h = h
put_defined-HasDistinctKeys k (some v) d h = put-HasDistinctKeys k v d h

put_header-HasDistinctKeys :
    (k : String) (o : Option Value) (d : Dict Value)
    → HasDistinctKeys d
    → HasDistinctKeys (put_header k o d)
put_header-HasDistinctKeys k none d h = h
put_header-HasDistinctKeys k (some v) d h = put-HasDistinctKeys k (header_value v) d h

scan_parameter-HasDistinctKeys :
    (args opts : Dict Value) (param : Parameter) (s : Scan)
    → HasDistinctKeys s.headers
    → HasDistinctKeys (scan_parameter args opts param s).headers
unfolding scan_parameter
scan_parameter-HasDistinctKeys args opts param s h =
    ground (arith, put_defined-HasDistinctKeys param.name (get param.name opts) s.headers h)

scan-HasDistinctKeys :
    (args opts : Dict Value) (params : List Parameter) (s : Scan)
    → HasDistinctKeys s.headers
    → HasDistinctKeys (scan_parameters args opts params s).headers
unfolding scan_parameters
scan-HasDistinctKeys args opts [] s h = h
scan-HasDistinctKeys args opts (param ∷ params) s h =
    scan-HasDistinctKeys args opts params (scan_parameter args opts param s)
      (scan_parameter-HasDistinctKeys args opts param s h)

write_types-HasDistinctKeys :
    (consumes accepts : Value) (s : Scan)
    → HasDistinctKeys s.headers
    → HasDistinctKeys (write_types consumes accepts s)
unfolding write_types
write_types-HasDistinctKeys consumes accepts s h =
    put_if-HasDistinctKeys (truthy accepts) "Accept" accepts _
      (put_if-HasDistinctKeys _ "Content-Type" consumes s.headers h)

set_content_types-HasDistinctKeys :
    (op : Operation) (args opts : Dict Value) → HasDistinctKeys (set_content_types op args opts).0
unfolding set_content_types
set_content_types-HasDistinctKeys op args opts =
    write_types-HasDistinctKeys
      (choose_consumes op.method args opts (scan_parameters args opts op.parameters start))
      (choose_accepts opts) (scan_parameters args opts op.parameters start)
      (scan-HasDistinctKeys args opts op.parameters start tt)

add_header_params-HasDistinctKeys :
    (args : Dict Value) (params : List Parameter) (d : Dict Value)
    → HasDistinctKeys d
    → HasDistinctKeys (add_header_params args params d)
unfolding add_header_params
add_header_params-HasDistinctKeys args [] d h = h
add_header_params-HasDistinctKeys args (param ∷ params) d h =
    elim (Bool-cases (param.location == "header")) [
      | inl e ↦ rw e (
          add_header_params-HasDistinctKeys args params
            (put_header param.name (get param.name args) d)
            (put_header-HasDistinctKeys param.name (get param.name args) d h))
      | inr e ↦ rw e (add_header_params-HasDistinctKeys args params d h)
    ]

get_header_params-HasDistinctKeys :
    (op : Operation) (args : Dict Value) → HasDistinctKeys (get_header_params op args).0
unfolding get_header_params
get_header_params-HasDistinctKeys op args =
    add_header_params-HasDistinctKeys args op.parameters (set_content_types op args []).0
      (set_content_types-HasDistinctKeys op args [])

or_else-nil : (k : String) (o : Option Value) → or_else o (get k []) ≡ o
unfolding get
or_else-nil k none = refl
or_else-nil k (some v) = refl

-- The headers of a request: those that the options and the content types give, and under them those
-- of the header parameters and of the defaults.
pub get-merged_headers :
    (op : Operation) (args opts : Dict Value) (k : String)
    → get k (merged_headers op args opts).0
      ≡ or_else (get k (set_content_types op args opts).0) (get k (get_header_params op args).0)
unfolding merged_headers
get-merged_headers op args opts k =
    get-put_all k (set_content_types op args opts).0 (put_all (get_header_params op args).0 [])
      (set_content_types-HasDistinctKeys op args opts)
    ∙ ap (or_else (get k (set_content_types op args opts).0)) (
        get-put_all k (get_header_params op args).0 [] (get_header_params-HasDistinctKeys op args)
        ∙ or_else-nil k (get k (get_header_params op args).0))
