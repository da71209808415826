-- ===== src/Resolver/Walk.antt =====
-- lib/swagger-client.js, Resolver.resolve: the walk over the models and the operations that fills
-- the table, and the start of the calls. A value is a tree, so a reference to an object that holds
-- the reference itself is replaced by what the object was.
use common_services_common_u.Base.{
  ℕ, zero, suc, ◌=?◌, String, Bool, true, false, Option, none, some, List, [], ◌∷◌, ◌==◌,
  if◌then◌else◌,
}
pub mod Sorted
pub mod Laws
use common_services_common_u.Js.Dict.{Dict}
use common_services_common_u.Js.Value.{
  Value, null, arr, obj, Items, no_items, item, Fields, no_fields, field, truthy, is_set, get_field,
  decimal,
}
use common_services_common_u.Resolver.{
  Table, is_text, resolve_to, own_fields, member, go_on, Inlined, resolve_inline,
}
use common_services_common_u.Resolver.Calls.{Calls, group}
use common_services_common_u.Resolver.Calls.Group.{no_calls}

-- `spec`, which resolveInline writes to, `resolutionTable` and `unresolvedRefs`.
pub record Walk : Type 0 where
  pub spec : Value
  pub table : Table
  pub unresolved : Dict Value

abbrev pub change_field : String → (Value → Value) → Fields → Fields
change_field k f no_fields = no_fields
change_field k f (field j v fs) =
    if j == k then field j (f v) fs else field j v (change_field k f fs)

abbrev pub change_item : ℕ → String → (Value → Value) → Items → Items
change_item n k f no_items = no_items
change_item n k f (item v xs) =
    if decimal n == k then item (f v) xs else item v (change_item (suc n) k f xs)

abbrev pub change_member : String → (Value → Value) → Value → Value
change_member k f (obj fs) = obj (change_field k f fs)
change_member k f (arr xs) = arr (change_item 0 k f xs)
change_member k f v = v

-- The description with another value at a place; the innermost name of a place comes first.
unfoldable pub write_at : List String → (Value → Value) → Value → Value
write_at [] f v = f v
write_at (k ∷ place) f v = write_at place (change_member k f) v

-- `for (k in fields) …`, which an error ends.
unfoldable pub for_in {ℓ} : {S : Type ℓ} → (String → Value → S → Option S) → Fields → S → Option S
for_in step no_fields s = some s
for_in step (field k v fs) s = go_on (step k v s) (for_in step fs)

abbrev pub fields_of : Option Value → Fields
fields_of none = no_fields
fields_of (some v) = own_fields v

abbrev pub with_table : Walk → Table → Walk
with_table w t = record w { table = t }

-- `this.resolveTo(v, resolutionTable)`
abbrev pub collect : List String → Value → Walk → Option Walk
collect place v w = go_on (resolve_to place v w.table) λ t. some (with_table w t)

-- `if (v) this.resolveTo(v, resolutionTable)`
abbrev pub collect_set : List String → Option Value → Walk → Option Walk
collect_set place none w = some w
collect_set place (some v) w = if truthy v then collect place v w else some w

abbrev pub put_inlined : List String → Walk → Inlined → Walk
put_inlined place w i = record {
  spec = write_at place (λ _. obj i.property) w.spec;
  table = i.objs;
  unresolved = i.unresolved;
}

-- `this.resolveInline(spec, parameter, resolutionTable, unresolvedRefs)`
abbrev pub inline_parameter : List String → Fields → Walk → Option Walk
inline_parameter place fs w =
    go_on
      (resolve_inline w.spec place
        (record { property = fs; objs = w.table; unresolved = w.unresolved }))
      λ i. some (put_inlined place w i)

-- `if (parameter.in === 'body' && parameter.schema) …`
abbrev pub body_schema : List String → Fields → Walk → Option Walk
body_schema place fs w =
    if is_text "body" (get_field "in" fs)
    then collect_set ("schema" ∷ place) (get_field "schema" fs) w
    else some w

-- A parameter that is no object has neither a schema nor a reference; `none` is the TypeError of
-- null.
unfoldable pub walk_parameter : List String → Value → Walk → Option Walk
unfolding get_field resolve_to resolve_inline write_at
walk_parameter place null w = none
walk_parameter place (obj fs) w =
    go_on
      (if is_text "body" (get_field "in" fs)
        then collect_set ("schema" ∷ place) (get_field "schema" fs) w
        else some w)
      λ w'. if is_set (get_field "$ref" fs) then inline_parameter place fs w' else some w'
walk_parameter place _ w = some w

unfoldable pub walk_response : List String → Value → Walk → Option Walk
unfolding member resolve_to
walk_response place response w =
    go_on (member (some response) "schema") λ schema. collect_set ("schema" ∷ place) schema w

unfoldable pub walk_parameters : List String → Value → Walk → Option Walk
unfolding walk_parameter for_in member own_fields
walk_parameters place operation w =
    go_on (member (some operation) "parameters")
      λ parameters. for_in (λ i. walk_parameter (i ∷ "parameters" ∷ place)) (fields_of parameters) w

unfoldable pub walk_responses : List String → Value → Walk → Option Walk
unfolding walk_response for_in member own_fields
walk_responses place operation w =
    go_on (member (some operation) "responses") λ responses.
      for_in (λ code. walk_response (code ∷ "responses" ∷ place)) (fields_of responses) w

unfoldable pub walk_operation : List String → Value → Walk → Option Walk
unfolding walk_parameters walk_responses
walk_operation place operation w =
    go_on (walk_parameters place operation w) (walk_responses place operation)

unfoldable pub walk_path : List String → Value → Walk → Option Walk
unfolding walk_operation for_in own_fields
walk_path place path w = for_in (λ method. walk_operation (method ∷ place)) (own_fields path) w

unfoldable pub walk_model : List String → Value → Walk → Option Walk
unfolding for_in member own_fields resolve_to
walk_model place model w =
    go_on (member (some model) "properties")
      λ properties. for_in (λ name. collect (name ∷ "properties" ∷ place)) (fields_of properties) w

-- The loops of `resolve`; `none` is a TypeError.
unfoldable pub walk_models : Walk → Option Walk
unfolding walk_model for_in member own_fields
walk_models w =
    go_on (member (some w.spec) "definitions") λ definitions.
      for_in (λ name. walk_model (name ∷ "definitions" ∷ [])) (fields_of definitions) w

unfoldable pub walk_paths : Walk → Option Walk
unfolding walk_path for_in member own_fields
walk_paths w =
    go_on (member (some w.spec) "paths")
      λ paths. for_in (λ name. walk_path (name ∷ "paths" ∷ [])) (fields_of paths) w

unfoldable pub walk : Walk → Option Walk
unfolding walk_models walk_paths
walk w = go_on (walk_models w) walk_paths

-- What `resolve` has done when it returns: what the walk found, the calls that it makes, and
-- whether it has called the callback.
pub record Begun : Type 0 where
  pub found : Walk
  pub calls : Calls
  pub called_back : Bool

abbrev pub is_empty {ℓ} : {A : Type ℓ} → List A → Bool
is_empty [] = true
is_empty (_ ∷ _) = false

abbrev pub names {ℓ} : {V : Type ℓ} → Dict V → List String
names [] = []
names ((k, _) ∷ d) = k ∷ names d

unfoldable pub begin : Walk → Begun
unfolding group
begin w =
    let calls = group (names w.table) no_calls in
    record { found = w; calls = calls; called_back = is_empty calls.opts }

unfoldable pub resolve : Value → Option Begun
unfolding walk begin
resolve spec =
    go_on (walk (record { spec = spec; table = []; unresolved = [] })) λ w. some (begin w)
