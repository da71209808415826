-- ===== src/Resolver/Walk/Laws.antt =====
-- lib/swagger-client.js, Resolver.resolve: the references that its walk keeps.
use common_services_common_u.Base.{String, ◌≡◌, Option, none, some, List, [], ◌∷◌}
use mathlib.Core.Path.{subst}
use common_services_common_u.Js.Value.{
  Value, null, bool, num, str, arr, obj, Fields, no_fields, field, truthy, is_set, get_field,
}
use common_services_common_u.Resolver.{
  is_text, resolve_to, Inlined, resolve_inline, member, own_fields,
}
use common_services_common_u.Resolver.Walk.{
  Walk, for_in, collect, collect_set, inline_parameter, body_schema, walk_parameter,
  walk_parameters, walk_response, walk_responses, walk_operation, walk_path, walk_paths, walk_model,
  walk_models, walk, Begun, begin, resolve, fields_of,
}
use common_services_common_u.Resolver.Walk.Sorted.{
  DoBegin, HoldsIn, HoldsIn-go_on, HoldsIn-Unit, IsRemote, if-HoldsIn, resolve_to-IsRemote,
  AreSorted, InlinesSorted, inline_ref-InlinesSorted,
}

abbrev WalksSorted : Walk → Type 0
WalksSorted w = AreSorted w.table w.unresolved

collect-WalksSorted :
    (place : List String) (v : Value) (w : Walk)
    → WalksSorted w
    → HoldsIn WalksSorted (collect place v w)
collect-WalksSorted place v w h =
    HoldsIn-go_on IsRemote WalksSorted (resolve_to place v w.table) _
      (resolve_to-IsRemote place v w.table h.0) λ t r. (r, h.1)

collect_set-WalksSorted :
    (place : List String) (v : Option Value) (w : Walk)
    → WalksSorted w
    → HoldsIn WalksSorted (collect_set place v w)
collect_set-WalksSorted place none w h = h
collect_set-WalksSorted place (some v) w h =
    if-HoldsIn WalksSorted (truthy v) _ _ (collect-WalksSorted place v w h) h

inline_parameter-WalksSorted :
    (place : List String) (fs : Fields) (w : Walk)
    → WalksSorted w
    → HoldsIn WalksSorted (inline_parameter place fs w)
unfolding resolve_inline
inline_parameter-WalksSorted place fs w h =
    let i : Inlined = record { property = fs; objs = w.table; unresolved = w.unresolved } in
    HoldsIn-go_on InlinesSorted WalksSorted (resolve_inline w.spec place i) _
      (inline_ref-InlinesSorted w.spec place (get_field "$ref" fs) i h) λ j k. k

for_in-HoldsIn :
    (P : Walk → Type 0) (step : String → Value → Walk → Option Walk)
    → ((k : String) (v : Value) (w : Walk) → P w → HoldsIn P (step k v w))
    → (fs : Fields) (w : Walk) → P w
    → HoldsIn P (for_in step fs w)
unfolding for_in
for_in-HoldsIn P step keep no_fields w h = h
for_in-HoldsIn P step keep (field k v fs) w h =
    HoldsIn-go_on P P (step k v w) _ (keep k v w h) (for_in-HoldsIn P step keep fs)

walk_parameter-WalksSorted :
    (place : List String) (v : Value) (w : Walk)
    → WalksSorted w
    → HoldsIn WalksSorted (walk_parameter place v w)
unfolding walk_parameter
walk_parameter-WalksSorted place null w h = tt
walk_parameter-WalksSorted place (bool _) w h = h
walk_parameter-WalksSorted place (num _) w h = h
walk_parameter-WalksSorted place (str _) w h = h
walk_parameter-WalksSorted place (arr _) w h = h
walk_parameter-WalksSorted place (obj fs) w h =
    HoldsIn-go_on WalksSorted WalksSorted (body_schema place fs w) _
      (if-HoldsIn WalksSorted (is_text "body" (get_field "in" fs)) _ _
        (collect_set-WalksSorted ("schema" ∷ place) (get_field "schema" fs) w h) h)
      λ w' h'.
        if-HoldsIn WalksSorted (is_set (get_field "$ref" fs)) _ _
          (inline_parameter-WalksSorted place fs w' h') h'

walk_response-WalksSorted :
    (place : List String) (v : Value) (w : Walk)
    → WalksSorted w
    → HoldsIn WalksSorted (walk_response place v w)
unfolding walk_response
walk_response-WalksSorted place v w h =
    HoldsIn-go_on (λ _. Unit) WalksSorted (member (some v) "schema") _ (HoldsIn-Unit _)
      λ schema _. collect_set-WalksSorted ("schema" ∷ place) schema w h

walk_parameters-WalksSorted :
    (place : List String) (v : Value) (w : Walk)
    → WalksSorted w
    → HoldsIn WalksSorted (walk_parameters place v w)
unfolding walk_parameters
walk_parameters-WalksSorted place v w h =
    HoldsIn-go_on (λ _. Unit) WalksSorted (member (some v) "parameters") _ (HoldsIn-Unit _)
      λ parameters _.
        for_in-HoldsIn WalksSorted _ (λ i. walk_parameter-WalksSorted (i ∷ "parameters" ∷ place))
          (fields_of parameters) w h

walk_responses-WalksSorted :
    (place : List String) (v : Value) (w : Walk)
    → WalksSorted w
    → HoldsIn WalksSorted (walk_responses place v w)
unfolding walk_responses
walk_responses-WalksSorted place v w h =
    HoldsIn-go_on (λ _. Unit) WalksSorted (member (some v) "responses") _ (HoldsIn-Unit _)
      λ responses _.
        for_in-HoldsIn WalksSorted _
          (λ code. walk_response-WalksSorted (code ∷ "responses" ∷ place)) (fields_of responses) w h

walk_operation-WalksSorted :
    (place : List String) (v : Value) (w : Walk)
    → WalksSorted w
    → HoldsIn WalksSorted (walk_operation place v w)
unfolding walk_operation
walk_operation-WalksSorted place v w h =
    HoldsIn-go_on WalksSorted WalksSorted (walk_parameters place v w) _
      (walk_parameters-WalksSorted place v w h) (walk_responses-WalksSorted place v)

walk_path-WalksSorted :
    (place : List String) (v : Value) (w : Walk)
    → WalksSorted w
    → HoldsIn WalksSorted (walk_path place v w)
unfolding walk_path
walk_path-WalksSorted place v =
    for_in-HoldsIn WalksSorted _ (λ method. walk_operation-WalksSorted (method ∷ place))
      (own_fields v)

walk_model-WalksSorted :
    (place : List String) (v : Value) (w : Walk)
    → WalksSorted w
    → HoldsIn WalksSorted (walk_model place v w)
unfolding walk_model
walk_model-WalksSorted place v w h =
    HoldsIn-go_on (λ _. Unit) WalksSorted (member (some v) "properties") _ (HoldsIn-Unit _)
      λ properties _.
        for_in-HoldsIn WalksSorted _ (λ name. collect-WalksSorted (name ∷ "properties" ∷ place))
          (fields_of properties) w h

walk_models-WalksSorted : (w : Walk) → WalksSorted w → HoldsIn WalksSorted (walk_models w)
unfolding walk_models
walk_models-WalksSorted w h =
    HoldsIn-go_on (λ _. Unit) WalksSorted (member (some w.spec) "definitions") _ (HoldsIn-Unit _)
      λ definitions _.
        for_in-HoldsIn WalksSorted _ (λ name. walk_model-WalksSorted (name ∷ "definitions" ∷ []))
          (fields_of definitions) w h

walk_paths-WalksSorted : (w : Walk) → WalksSorted w → HoldsIn WalksSorted (walk_paths w)
unfolding walk_paths
walk_paths-WalksSorted w h =
    HoldsIn-go_on (λ _. Unit) WalksSorted (member (some w.spec) "paths") _ (HoldsIn-Unit _)
      λ paths _.
        for_in-HoldsIn WalksSorted _ (λ name. walk_path-WalksSorted (name ∷ "paths" ∷ []))
          (fields_of paths) w h

walk-WalksSorted : (w : Walk) → WalksSorted w → HoldsIn WalksSorted (walk w)
unfolding walk
walk-WalksSorted w h =
    HoldsIn-go_on WalksSorted WalksSorted (walk_models w) _ (walk_models-WalksSorted w h)
      walk_paths-WalksSorted

abbrev BeginsSorted : Begun → Type 0
BeginsSorted b = WalksSorted b.found

HoldsIn-some {ℓ} :
    {A : Type ℓ} (P : A → Type 0) (o : Option A) (a : A) → HoldsIn P o → o ≡ some a → P a
HoldsIn-some P o a h e = subst (HoldsIn P) e h

-- Whatever the description, if its walk meets no TypeError: every name of the table, hence every
-- document that is fetched for the names, is of a reference that begins with "http", and every
-- reference that is reported as unresolved when the calls begin begins with "#".
pub resolve-sorted :
    (spec : Value) (b : Begun)
    → resolve spec ≡ some b
    → DoBegin "http" b.found.table × DoBegin "#" b.found.unresolved
unfolding resolve begin
resolve-sorted spec b =
    let start : Walk = record { spec = spec; table = []; unresolved = [] } in
    HoldsIn-some BeginsSorted (resolve spec) b (
      HoldsIn-go_on WalksSorted BeginsSorted (walk start) _ (walk-WalksSorted start (tt, tt))
        λ w h. h)
