-- ===== src/Resolver.antt =====
-- lib/swagger-client.js, Resolver: the references of a description to other documents, and those to
-- places of its own.
pub mod Calls
pub mod Collect
pub mod Finish
pub mod Walk
use Prim.Native.String.{[], ◌∷◌, ◌++◌}
use mathlib.Core.List
use common_services_common_u.Base.{
  ℕ, suc, String, Bool, true, false, Option, none, some, List, [], ◌∷◌, ◌==◌, if◌then◌else◌,
}
use common_services_common_u.Js.Text.{strip_prefix, split, starts_with, count}
use common_services_common_u.Js.Dict.{Dict, get, put}
use common_services_common_u.Js.Value.{
  Value, null, bool, num, str, arr, obj, Items, no_items, item, Fields, no_fields, field, truthy,
  is_set, get_field, set_field, to_string, decimal,
}

pub data ResolveAs : Type 0 where
  by_ref : ResolveAs
  inline : ResolveAs

-- An object of the description that holds a reference, told from others by where it stands.
pub record Location : Type 0 where
  pub place : List String
  pub resolve_as : ResolveAs

-- `resolutionTable`
abbrev pub Table : Type 0
Table = Dict (List Location)

abbrev pub or_none {ℓ} : {A : Type ℓ} → Option (List A) → List A
or_none none = []
or_none (some xs) = xs

-- `objs[ref].push(…)`, or a new array if there is none.
unfoldable pub push : String → Location → Table → Table
push ref l objs = put ref (List.◌++◌ (or_none (get ref objs)) (l ∷ [])) objs

abbrev pub is_text : String → Option Value → Bool
is_text t (some (str s)) = s == t
is_text t _ = false

abbrev pub first_item : Items → Option Value
first_item no_items = none
first_item (item v xs) = some v

-- `if (ref.indexOf('http') === 0) …`; `none` is the TypeError of a value with no `indexOf`.
unfoldable pub queue : Location → Value → Table → Option Table
unfolding push
queue l (str ref) objs = some (if starts_with "http" ref then push ref l objs else objs)
queue l (arr xs) objs =
    some (if is_text "http" (first_item xs) then push (to_string (arr xs)) l objs else objs)
queue l _ objs = none

abbrev pub queue_set : Location → Option Value → Table → Option Table
queue_set l none objs = some objs
queue_set l (some v) objs = queue l v objs

-- `place` is where the property stands. `none` is the TypeError of a property or of items that are
-- null or missing.
unfoldable mutual
  unfolding queue get_field

  pub resolve_to : List String → Value → Table → Option Table
  resolve_to place null objs = none
  resolve_to place (bool b) objs = some objs
  resolve_to place (num n) objs = some objs
  resolve_to place (str s) objs = some objs
  resolve_to place (arr xs) objs = some objs
  resolve_to place (obj fs) objs =
      let ref = get_field "$ref" fs in
      let below = resolve_items place fs objs in
      if is_set ref
      then queue_set (record { place = place; resolve_as = by_ref }) ref objs
      else if is_text "array" (get_field "type" fs)
      then below
      else some objs

  -- `resolveTo(property.items, objs)`
  pub resolve_items : List String → Fields → Table → Option Table
  resolve_items place no_fields objs = none
  resolve_items place (field k v fs) objs =
      let here = resolve_to ("items" ∷ place) v objs in
      let later = resolve_items place fs objs in if k == "items" then here else later

abbrev indexed_items : ℕ → Items → Fields
indexed_items n no_items = no_fields
indexed_items n (item v xs) = field (decimal n) v (indexed_items (suc n) xs)

abbrev indexed_chars : ℕ → String → Fields
indexed_chars n [] = no_fields
indexed_chars n (c ∷ s) = field (decimal n) (str (c ∷ "")) (indexed_chars (suc n) s)

-- What `for (key in v)` meets.
unfoldable pub own_fields : Value → Fields
own_fields (obj fs) = fs
own_fields (arr xs) = indexed_items 0 xs
own_fields (str s) = indexed_chars 0 s
own_fields _ = no_fields

abbrev item_count : Items → ℕ
item_count no_items = 0
item_count (item _ xs) = suc (item_count xs)

-- `location[segment]`; the outer `none` is the TypeError of null and undefined. The names that
-- objects inherit from their prototypes are left out.
unfoldable pub member : Option Value → String → Option (Option Value)
unfolding own_fields get_field
member none segment = none
member (some null) segment = none
member (some (arr xs)) segment = some (
    if segment == "length"
    then some (num (item_count xs))
    else get_field segment (own_fields (arr xs)))
member (some (str s)) segment =
    some
      (if segment == "length" then some (num (count s)) else get_field segment (own_fields (str s)))
member (some v) segment = some (get_field segment (own_fields v))

-- The loop of resolveInline over the parts of a reference; empty parts are skipped.
abbrev pub go_on {ℓ κ} : {A : Type ℓ} {B : Type κ} → Option A → (A → Option B) → Option B
go_on none f = none
go_on (some a) f = f a

unfoldable pub locate : List String → Option Value → Option (Option Value)
unfolding member
locate [] location = some location
locate (part ∷ parts) location =
    if part == "" then locate parts location else go_on (member location part) (locate parts)

-- `for (key in location) property[key] = location[key]`
unfoldable pub copy_fields : Fields → Fields → Fields
unfolding set_field
copy_fields no_fields property = property
copy_fields (field k v fs) property = copy_fields fs (set_field k v property)

unfoldable pub delete_field : String → Fields → Fields
delete_field k no_fields = no_fields
delete_field k (field j v fs) =
    let rest = delete_field k fs in if j == k then rest else field j v rest

-- What a resolution leaves: the property, the table and `unresolvedRefs`.
pub record Inlined : Type 0 where
  pub property : Fields
  pub objs : Table
  pub unresolved : Dict Value

abbrev pub replace_by : String → Option Value → Inlined → Inlined
replace_by ref none s = record s { unresolved = put ref null s.unresolved }
replace_by ref (some v) s =
    if truthy v
    then record s { property = copy_fields (own_fields v) (delete_field "$ref" s.property) }
    else record s { unresolved = put ref null s.unresolved }

abbrev starts_with_hash : Value → Bool
starts_with_hash (arr xs) = is_text "#" (first_item xs)
starts_with_hash v = false

abbrev pub inline_local : Value → String → Option String → Inlined → Option Inlined
inline_local spec ref none s = some s
inline_local spec ref (some shortened) s =
    go_on (locate (split b'/' shortened) (some spec)) λ location. some (replace_by ref location s)

abbrev pub with_objs : Inlined → Option Table → Option Inlined
with_objs s none = none
with_objs s (some objs) = some (record s { objs = objs })

-- A reference that is set and is no text: only an array has `indexOf`, and none has `substring`.
abbrev pub inline_other : List String → Value → Inlined → Option Inlined
inline_other place v s =
    if starts_with_hash v
    then none
    else with_objs s (queue (record { place = place; resolve_as = inline }) v s.objs)

-- The queue of a property that has no reference.
abbrev pub inline_none : List String → Inlined → Option Inlined
inline_none place s =
    if is_text "array" (get_field "type" s.property)
    then with_objs s (resolve_items place s.property s.objs)
    else some s

abbrev pub inline_ref : Value → List String → Option Value → Inlined → Option Inlined
inline_ref spec place none s = inline_none place s
inline_ref spec place (some (str ref)) s =
    if ref == ""
    then inline_none place s
    else if starts_with "http" ref
    then some (record s { objs = push ref (record { place = place; resolve_as = inline }) s.objs })
    else inline_local spec ref (strip_prefix "#" ref) s
inline_ref spec place (some v) s = if truthy v then inline_other place v s else inline_none place s

unfoldable pub resolve_inline : Value → List String → Inlined → Option Inlined
unfolding queue resolve_items get_field locate copy_fields delete_field own_fields
resolve_inline spec place s = inline_ref spec place (get_field "$ref" s.property) s
