-- ===== src/Resolver/Collect.antt =====
-- lib/swagger-client.js, Resolver: what resolveTo and resolveInline do with one property.

use common_services_common_u.Base.{
  ℕ, zero, suc, String, ◌≡◌, ◌≢◌, refl, true, false, Option, none, some, List, ◌∷◌, ◌==◌, arith,
  if◌then◌else◌, eq_iff, Bool-cases, inl, inr, ◌∙◌, sym, ap,
}
use common_services_common_u.Js.Text.{split, strip_prefix, starts_with}
use common_services_common_u.Js.Value.{
  Value, str, obj, Fields, no_fields, field, get_field, set_field,
}
use common_services_common_u.Resolver.{
  by_ref, Table, push, queue, resolve_to, copy_fields, delete_field, Inlined, locate, own_fields,
  resolve_inline,
}

-- `n` arrays, one in the other, around a property.
abbrev pub nested : ℕ → Value → Value
nested zero v = v
nested (suc n) v = obj (field "type" (str "array") (field "items" (nested n v) no_fields))

abbrev pub below : ℕ → List String → List String
below zero place = place
below (suc n) place = below n ("items" ∷ place)

-- A reference to another document below any number of arrays is put into the table once, for the
-- innermost items, to be resolved by its name. The reference is a text that begins with "http".
pub resolve_to-nested :
    (n : ℕ) (place : List String) (ref : String) (fs : Fields) (objs : Table)
    → get_field "$ref" fs ≡ some (str ref)
    → starts_with "http" ref ≡ true
    → (ref == "") ≡ false
    → resolve_to place (nested n (obj fs)) objs
      ≡ some (push ref (record { place = below n place; resolve_as = by_ref }) objs)
unfolding resolve_to queue get_field
resolve_to-nested zero place ref fs objs h k e = rw (h, e, k) refl
resolve_to-nested (suc n) place ref fs objs h k e =
    resolve_to-nested n ("items" ∷ place) ref fs objs h k e

-- Fields as the language has them, with each name once.
abbrev pub IsFreshField : String → Fields → Type 0
IsFreshField k no_fields = Unit
IsFreshField k (field j v fs) = (j ≢ k) × IsFreshField k fs

abbrev pub HasDistinctFields : Fields → Type 0
HasDistinctFields no_fields = Unit
HasDistinctFields (field j v fs) = IsFreshField j fs × HasDistinctFields fs

abbrev pub or_field : Option Value → Option Value → Option Value
or_field none w = w
or_field (some v) w = some v

pub get-set_field :
    (k j : String) (v : Value) (fs : Fields)
    → get_field j (set_field k v fs) ≡ (if k == j then some v else get_field j fs)
unfolding get_field set_field
get-set_field k j v no_fields = refl
get-set_field k j v (field i w fs) =
    ground (arith, eq_iff k j, eq_iff i k, eq_iff i j, get-set_field k j v fs)

pub get-delete_field :
    (k j : String) (fs : Fields)
    → get_field j (delete_field k fs) ≡ (if k == j then none else get_field j fs)
unfolding get_field delete_field
get-delete_field k j no_fields = ground arith
get-delete_field k j (field i w fs) =
    ground (arith, eq_iff k j, eq_iff i k, eq_iff i j, get-delete_field k j fs)

get_field-IsFreshField : (k : String) (fs : Fields) → IsFreshField k fs → get_field k fs ≡ none
unfolding get_field
get_field-IsFreshField k no_fields h = refl
get_field-IsFreshField k (field j v fs) (n, h) =
    ground (arith, eq_iff j k, get_field-IsFreshField k fs h)

pub get-copy_fields :
    (k : String) (fs property : Fields)
    → HasDistinctFields fs
    → get_field k (copy_fields fs property) ≡ or_field (get_field k fs) (get_field k property)
unfolding copy_fields get_field
get-copy_fields k no_fields property h = refl
get-copy_fields k (field j v fs) property (f, h) =
    get-copy_fields k fs (set_field j v property) h
    ∙ (rw (get-set_field j k v property) (elim (Bool-cases (j == k)) [
      | inl e ↦ rw (e, get_field-IsFreshField k fs (rw (sym ((eq_iff j k).0 e)) f)) refl
      | inr e ↦ rw e refl
    ]))

-- A reference to a place of the description itself, where an object with distinct names stands: the
-- property gets the fields of that object, keeps its own others, and loses its reference. The table
-- and the unresolved references are as they were.
pub resolve_inline-local :
    (spec : Value) (place : List String) (ref shortened : String) (fs : Fields) (s : Inlined)
    → get_field "$ref" s.property ≡ some (str ref)
    → (ref == "") ≡ false
    → starts_with "http" ref ≡ false
    → strip_prefix "#" ref ≡ some shortened
    → locate (split b'/' shortened) (some spec) ≡ some (some (obj fs))
    → HasDistinctFields fs
    → (s' : Inlined) × (resolve_inline spec place s ≡ some s')
      × (s'.objs ≡ s.objs)
      × (s'.unresolved ≡ s.unresolved)
      × ((k : String)
          → get_field k s'.property
            ≡ or_field (get_field k fs) (if "$ref" == k then none else get_field k s.property))
unfolding resolve_inline own_fields
resolve_inline-local spec place ref shortened fs s h e n p l d = (
  record s { property = copy_fields fs (delete_field "$ref" s.property) },
  rw (h, e, n, p, l) refl,
  refl,
  refl,
  λ k.
      get-copy_fields k fs (delete_field "$ref" s.property) d
      ∙ ap (or_field (get_field k fs)) (get-delete_field "$ref" k s.property),
)
