-- ===== src/Resolver/Walk/Sorted.antt =====
-- lib/swagger-client.js, Resolver.resolveTo and Resolver.resolveInline: which references they keep,
-- and where.
use Prim.Native.String.{◌++◌}
use common_services_common_u.Base.{
  String, Bool, ◌≡◌, refl, true, false, Option, none, some, List, [], ◌∷◌, ◌==◌, if◌then◌else◌,
  eq_iff, Bool-cases, inl, inr, ap, is_some,
}
use mathlib.Core.Bool.{false≢true}
use common_services_common_u.Js.Text.{starts_with, strip_prefix, split}
use common_services_common_u.Js.Text.Laws.{starts_with-append}
use common_services_common_u.Js.Dict.{Dict, put}
use common_services_common_u.Js.Value.{
  Value, null, bool, num, str, arr, obj, Items, no_items, item, Fields, no_fields, field, truthy,
  is_set, get_field, to_string,
}
use common_services_common_u.Resolver.{
  Location, by_ref, Table, push, queue, queue_set, is_text, resolve_to, resolve_items, go_on,
  Inlined, inline_ref, inline_local, inline_other, inline_none, replace_by, with_objs, first_item,
  locate, starts_with_hash,
}

-- Every name begins with the text.
abbrev pub DoBegin {ℓ} : {V : Type ℓ} → String → Dict V → Type 0
DoBegin p [] = Unit
DoBegin p ((k, _) ∷ d) = (starts_with p k ≡ true) × DoBegin p d

-- The predicate holds of what is there.
abbrev pub HoldsIn {ℓ} : {A : Type ℓ} → (A → Type 0) → Option A → Type 0
HoldsIn P none = Unit
HoldsIn P (some a) = P a

pub HoldsIn-go_on {ℓ κ} :
    {A : Type ℓ} {B : Type κ} (P : A → Type 0) (Q : B → Type 0) (o : Option A) (f : A → Option B)
    → HoldsIn P o
    → ((a : A) → P a → HoldsIn Q (f a))
    → HoldsIn Q (go_on o f)
HoldsIn-go_on P Q none f h k = tt
HoldsIn-go_on P Q (some a) f h k = k a h

pub HoldsIn-Unit {ℓ} : {A : Type ℓ} (o : Option A) → HoldsIn (λ _. Unit) o
HoldsIn-Unit none = tt
HoldsIn-Unit (some _) = tt

DoBegin-put {ℓ} :
    {V : Type ℓ} (p k : String) (v : V) (d : Dict V)
    → starts_with p k ≡ true
    → DoBegin p d
    → DoBegin p (put k v d)
unfolding put
DoBegin-put p k v [] h u = (h, tt)
DoBegin-put p k v ((j, w) ∷ d) h (b, u) = elim (Bool-cases (j == k)) [
  | inl e ↦ rw e (b, u)
  | inr e ↦ rw e (b, DoBegin-put p k v d h u)
]

abbrev pub IsRemote : Table → Type 0
IsRemote t = DoBegin "http" t

starts_with-after : (s t : String) → (s == "http") ≡ true → starts_with "http" (s ++ t) ≡ true
starts_with-after s t e = rw ((eq_iff s "http").0 e) (starts_with-append "http" t)

starts_with-to_string :
    (xs : Items)
    → is_text "http" (first_item xs) ≡ true
    → starts_with "http" (to_string (arr xs)) ≡ true
unfolding starts_with strip_prefix to_string
starts_with-to_string no_items h = h
starts_with-to_string (item null xs) h = absurd (false≢true h)
starts_with-to_string (item (bool _) xs) h = absurd (false≢true h)
starts_with-to_string (item (num _) xs) h = absurd (false≢true h)
starts_with-to_string (item (str s) xs) h = starts_with-after s _ h
starts_with-to_string (item (arr _) xs) h = absurd (false≢true h)
starts_with-to_string (item (obj _) xs) h = absurd (false≢true h)

-- Only a reference that begins with "http" is queued.
queue-IsRemote :
    (l : Location) (v : Value) (t : Table) → IsRemote t → HoldsIn IsRemote (queue l v t)
unfolding queue push
queue-IsRemote l null t r = tt
queue-IsRemote l (bool _) t r = tt
queue-IsRemote l (num _) t r = tt
queue-IsRemote l (str ref) t r = elim (Bool-cases (starts_with "http" ref)) [
  | inl e ↦ rw e (DoBegin-put "http" ref _ t e r)
  | inr e ↦ rw e r
]
queue-IsRemote l (arr xs) t r = elim (Bool-cases (is_text "http" (first_item xs))) [
  | inl e ↦ rw e (DoBegin-put "http" (to_string (arr xs)) _ t (starts_with-to_string xs e) r)
  | inr e ↦ rw e r
]
queue-IsRemote l (obj _) t r = tt

queue_set-IsRemote :
    (l : Location) (v : Option Value) (t : Table) → IsRemote t → HoldsIn IsRemote (queue_set l v t)
queue_set-IsRemote l none t r = r
queue_set-IsRemote l (some v) t r = queue-IsRemote l v t r

pub if-HoldsIn {ℓ} :
    {A : Type ℓ} (P : A → Type 0) (b : Bool) (x y : Option A)
    → HoldsIn P x
    → HoldsIn P y
    → HoldsIn P (if b then x else y)
if-HoldsIn P true x y h k = h
if-HoldsIn P false x y h k = k

mutual
  unfolding resolve_to resolve_items

  pub resolve_to-IsRemote :
      (place : List String) (v : Value) (t : Table)
      → IsRemote t
      → HoldsIn IsRemote (resolve_to place v t)
  resolve_to-IsRemote place null t r = tt
  resolve_to-IsRemote place (bool _) t r = r
  resolve_to-IsRemote place (num _) t r = r
  resolve_to-IsRemote place (str _) t r = r
  resolve_to-IsRemote place (arr _) t r = r
  resolve_to-IsRemote place (obj fs) t r =
      if-HoldsIn IsRemote (is_set (get_field "$ref" fs)) _ _
        (queue_set-IsRemote (record { place = place; resolve_as = by_ref }) (get_field "$ref" fs) t
          r)
        (if-HoldsIn IsRemote (is_text "array" (get_field "type" fs)) _ _
          (resolve_items-IsRemote place fs t r) r)

  resolve_items-IsRemote :
      (place : List String) (fs : Fields) (t : Table)
      → IsRemote t
      → HoldsIn IsRemote (resolve_items place fs t)
  resolve_items-IsRemote place no_fields t r = tt
  resolve_items-IsRemote place (field k v fs) t r =
      if-HoldsIn IsRemote (k == "items") _ _ (resolve_to-IsRemote _ v t r)
        (resolve_items-IsRemote place fs t r)

-- The table has the references to other documents, the unresolved ones are local.
abbrev pub AreSorted : Table → Dict Value → Type 0
AreSorted t unresolved = IsRemote t × DoBegin "#" unresolved

abbrev pub InlinesSorted : Inlined → Type 0
InlinesSorted i = AreSorted i.objs i.unresolved

with_objs-InlinesSorted :
    (i : Inlined) (o : Option Table)
    → InlinesSorted i
    → HoldsIn IsRemote o
    → HoldsIn InlinesSorted (with_objs i o)
with_objs-InlinesSorted i none h r = tt
with_objs-InlinesSorted i (some t) h r = (r, h.1)

replace_by-InlinesSorted :
    (ref : String) (location : Option Value) (i : Inlined)
    → starts_with "#" ref ≡ true
    → InlinesSorted i
    → InlinesSorted (replace_by ref location i)
replace_by-InlinesSorted ref none i e (r, u) = (r, DoBegin-put "#" ref null i.unresolved e u)
replace_by-InlinesSorted ref (some v) i e (r, u) = elim (Bool-cases (truthy v)) [
  | inl t ↦ rw t (r, u)
  | inr t ↦ rw t (r, DoBegin-put "#" ref null i.unresolved e u)
]

starts_with-strip_prefix :
    (ref shortened : String) → strip_prefix "#" ref ≡ some shortened → starts_with "#" ref ≡ true
unfolding starts_with
starts_with-strip_prefix ref shortened e = ap is_some e

inline_local-InlinesSorted :
    (spec : Value) (ref : String) (shortened : Option String) (i : Inlined)
    → strip_prefix "#" ref ≡ shortened
    → InlinesSorted i
    → HoldsIn InlinesSorted (inline_local spec ref shortened i)
inline_local-InlinesSorted spec ref none i e h = h
inline_local-InlinesSorted spec ref (some shortened) i e h =
    HoldsIn-go_on (λ _. Unit) InlinesSorted (locate (split b'/' shortened) (some spec)) _
      (HoldsIn-Unit _)
      λ location _.
        replace_by-InlinesSorted ref location i (starts_with-strip_prefix ref shortened e) h

inline_none-InlinesSorted :
    (place : List String) (i : Inlined)
    → InlinesSorted i
    → HoldsIn InlinesSorted (inline_none place i)
inline_none-InlinesSorted place i h =
    if-HoldsIn InlinesSorted (is_text "array" (get_field "type" i.property)) _ _
      (with_objs-InlinesSorted i _ h (resolve_items-IsRemote place i.property i.objs h.0)) h

inline_other-InlinesSorted :
    (place : List String) (v : Value) (i : Inlined)
    → InlinesSorted i
    → HoldsIn InlinesSorted (inline_other place v i)
inline_other-InlinesSorted place v i h =
    if-HoldsIn InlinesSorted (starts_with_hash v) _ _ tt
      (with_objs-InlinesSorted i _ h (queue-IsRemote _ v i.objs h.0))

inline_text-InlinesSorted :
    (spec : Value) (place : List String) (ref : String) (i : Inlined)
    → InlinesSorted i
    → HoldsIn InlinesSorted (inline_ref spec place (some (str ref)) i)
unfolding push
inline_text-InlinesSorted spec place ref i h =
    if-HoldsIn InlinesSorted (ref == "") _ _ (inline_none-InlinesSorted place i h)
      (elim (Bool-cases (starts_with "http" ref)) [
        | inl e ↦ rw e (DoBegin-put "http" ref _ i.objs e h.0, h.1)
        | inr e ↦ rw e (inline_local-InlinesSorted spec ref _ i refl h)
      ])

pub inline_ref-InlinesSorted :
    (spec : Value) (place : List String) (ref : Option Value) (i : Inlined)
    → InlinesSorted i
    → HoldsIn InlinesSorted (inline_ref spec place ref i)
inline_ref-InlinesSorted spec place none i h = inline_none-InlinesSorted place i h
inline_ref-InlinesSorted spec place (some (str ref)) i h =
    inline_text-InlinesSorted spec place ref i h
inline_ref-InlinesSorted spec place (some null) i h = inline_none-InlinesSorted place i h
inline_ref-InlinesSorted spec place (some (bool b)) i h =
    if-HoldsIn InlinesSorted b _ _ (inline_other-InlinesSorted place (bool b) i h)
      (inline_none-InlinesSorted place i h)
inline_ref-InlinesSorted spec place (some (num n)) i h =
    if-HoldsIn InlinesSorted (truthy (num n)) _ _ (inline_other-InlinesSorted place (num n) i h)
      (inline_none-InlinesSorted place i h)
inline_ref-InlinesSorted spec place (some (arr xs)) i h =
    inline_other-InlinesSorted place (arr xs) i h
inline_ref-InlinesSorted spec place (some (obj fs)) i h =
    inline_other-InlinesSorted place (obj fs) i h
