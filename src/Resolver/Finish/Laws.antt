-- ===== src/Resolver/Finish/Laws.antt =====
-- lib/swagger-client.js, Resolver.finish: what becomes of a reference.
use Prim.Native.String.{◌++◌}
use mathlib.Core.List
use common_services_common_u.Base.{
  String, ◌≡◌, refl, sym, ap, ◌∙◌, true, false, Option, none, some, List, [], ◌∷◌, if◌then◌else◌,
  arith, eq_iff, Bool-cases, inl, inr, is_some,
}
use common_services_common_u.Js.Dict.{Dict, get, get-put}
use common_services_common_u.Js.Value.{str, Fields, get_field, set_field}
use common_services_common_u.Resolver.{
  Location, ResolveAs, by_ref, inline, Table, copy_fields, delete_field, own_fields,
}
use common_services_common_u.Resolver.Calls.{Resolved}
use common_services_common_u.Resolver.Finish.{
  same_place, Objects, object_at, write_at, Spec, resolved_to, write_ref, write_found,
  finish_location, finish_locations, finish,
}

same_place_refl : (p : List String) → same_place p p ≡ true
same_place_refl [] = refl
same_place_refl (x ∷ p) = ground (arith, eq_iff x x, same_place_refl p)

same_place_sound : (p q : List String) → same_place p q ≡ true → p ≡ q
same_place_sound [] [] h = refl
same_place_sound [] (y ∷ q) h = cc
same_place_sound (x ∷ p) [] h = cc
same_place_sound (x ∷ p) (y ∷ q) h = ground (arith, eq_iff x y, same_place_sound p q)

object_at-write_at :
    (p q : List String) (fs : Fields) (objects : Objects)
    → object_at q (write_at p fs objects) ≡ (if same_place p q then fs else object_at q objects)
unfolding object_at write_at
object_at-write_at p q fs [] = refl
object_at-write_at p q fs ((r, gs) ∷ objects) = elim (Bool-cases (same_place r p)) [
  | inl e ↦ rw (e, same_place_sound r p e) (ground arith)
  | inr e ↦ elim (Bool-cases (same_place p q)) [
    | inl k ↦
        let f : same_place r q ≡ false = rw (sym (same_place_sound p q k)) e in
        rw (e, f, object_at-write_at p q fs objects) (ground arith)
    | inr k ↦ rw (e, k, object_at-write_at p q fs objects, k) refl
  ]
]

-- What becomes of an object whose reference is resolved.
abbrev pub resolved_object : ResolveAs → Resolved → Fields → Fields
resolved_object by_ref r fs = set_field "$ref" (str ("#/definitions/" ++ r.name)) fs
resolved_object inline r fs = copy_fields (own_fields r.target) (delete_field "$ref" fs)

-- The locations that stand somewhere else.
abbrev pub AreElsewhere : Location → List Location → Type 0
AreElsewhere l [] = Unit
AreElsewhere l (m ∷ ms) = (same_place m.place l.place ≡ false) × AreElsewhere l ms

abbrev pub locations : Table → List Location
locations [] = []
locations ((ref, ls) ∷ table) = List.◌++◌ ls (locations table)

write_ref-elsewhere :
    (l m : Location) (how : ResolveAs) (r : Resolved) (spec : Spec)
    → same_place m.place l.place ≡ false
    → object_at l.place (write_ref m how r spec).objects ≡ object_at l.place spec.objects
write_ref-elsewhere l m by_ref r spec h =
    rw (object_at-write_at m.place l.place _ spec.objects, h) refl
write_ref-elsewhere l m inline r spec h =
    rw (object_at-write_at m.place l.place _ spec.objects, h) refl

write_found-elsewhere :
    (l m : Location) (o : Option Resolved) (spec : Spec)
    → same_place m.place l.place ≡ false
    → object_at l.place (write_found m o spec).objects ≡ object_at l.place spec.objects
write_found-elsewhere l m none spec h = refl
write_found-elsewhere l m (some r) spec h = write_ref-elsewhere l m m.resolve_as r spec h

finish_locations-elsewhere :
    (resolved : Dict Resolved) (l : Location) (ms : List Location) (spec : Spec)
    → AreElsewhere l ms
    → object_at l.place (finish_locations resolved ms spec).objects ≡ object_at l.place spec.objects
unfolding finish_locations finish_location
finish_locations-elsewhere resolved l [] spec h = refl
finish_locations-elsewhere resolved l (m ∷ ms) spec (e, h) =
    finish_locations-elsewhere resolved l ms (finish_location resolved m spec) h
    ∙ write_found-elsewhere l m
        (resolved_to resolved (get_field "$ref" (object_at m.place spec.objects))) spec e

write_ref-here :
    (l : Location) (how : ResolveAs) (r : Resolved) (spec : Spec)
    → object_at l.place (write_ref l how r spec).objects
      ≡ resolved_object how r (object_at l.place spec.objects)
write_ref-here l by_ref r spec =
    rw (object_at-write_at l.place l.place _ spec.objects, same_place_refl l.place) refl
write_ref-here l inline r spec =
    rw (object_at-write_at l.place l.place _ spec.objects, same_place_refl l.place) refl

-- A definition stays a definition, whatever is written over it.
write_found-definitions :
    (name : String) (m : Location) (o : Option Resolved) (spec : Spec)
    → is_some (get name spec.definitions) ≡ true
    → is_some (get name (write_found m o spec).definitions) ≡ true
write_found-definitions name m none spec h = h
write_found-definitions name m (some r) spec h = go m.resolve_as
  where
    go : (how : ResolveAs) → is_some (get name (write_ref m how r spec).definitions) ≡ true
    go by_ref = rw (get-put r.name name r.target spec.definitions) (ground arith)
    go inline = h

finish_locations-definitions :
    (resolved : Dict Resolved) (name : String) (ms : List Location) (spec : Spec)
    → is_some (get name spec.definitions) ≡ true
    → is_some (get name (finish_locations resolved ms spec).definitions) ≡ true
unfolding finish_locations finish_location
finish_locations-definitions resolved name [] spec h = h
finish_locations-definitions resolved name (m ∷ ms) spec h =
    finish_locations-definitions resolved name ms (finish_location resolved m spec) (
      write_found-definitions name m
        (resolved_to resolved (get_field "$ref" (object_at m.place spec.objects))) spec h)

finish_locations-append :
    (resolved : Dict Resolved) (ls ms : List Location) (spec : Spec)
    → finish_locations resolved (List.◌++◌ ls ms) spec
      ≡ finish_locations resolved ms (finish_locations resolved ls spec)
unfolding finish_locations
finish_locations-append resolved [] ms spec = refl
finish_locations-append resolved (l ∷ ls) ms spec =
    finish_locations-append resolved ls ms (finish_location resolved l spec)

finish-eq-locations :
    (resolved : Dict Resolved) (table : Table) (spec : Spec)
    → finish resolved table spec ≡ finish_locations resolved (locations table) spec
unfolding finish finish_locations
finish-eq-locations resolved [] spec = refl
finish-eq-locations resolved ((ref, ls) ∷ table) spec =
    finish-eq-locations resolved table (finish_locations resolved ls spec)
    ∙ sym (finish_locations-append resolved ls (locations table) spec)

-- The location is in the table, and every other location of the table stands elsewhere.
abbrev pub IsOnlyIn : Location → Table → Type 0
IsOnlyIn l table =
    (before : List Location) × (after : List Location) × (locations table
      ≡ List.◌++◌ before (l ∷ after))
    × AreElsewhere l before
    × AreElsewhere l after

write_found-defines :
    (l : Location) (r : Resolved) (spec : Spec)
    → l.resolve_as ≡ by_ref
    → is_some (get r.name (write_found l (some r) spec).definitions) ≡ true
write_found-defines l r spec e =
    rw (e, get-put r.name r.name r.target spec.definitions) (ground (arith, eq_iff r.name r.name))

finish-around :
    (resolved : Dict Resolved) (table : Table) (spec : Spec) (l : Location)
    (before after : List Location) (o : Option Resolved)
    → locations table ≡ List.◌++◌ before (l ∷ after)
    → AreElsewhere l before
    → resolved_to resolved (get_field "$ref" (object_at l.place spec.objects)) ≡ o
    → finish resolved table spec
      ≡ finish_locations resolved after (write_found l o (finish_locations resolved before spec))
unfolding finish_locations finish_location
finish-around resolved table spec l before after o e p h =
    let s = finish_locations resolved before spec in
    let same : object_at l.place s.objects ≡ object_at l.place spec.objects =
      finish_locations-elsewhere resolved l before spec p in
    let found : resolved_to resolved (get_field "$ref" (object_at l.place s.objects)) ≡ o =
      rw same h in
    finish-eq-locations resolved table spec
    ∙ (ap (λ ls. finish_locations resolved ls spec) e
        ∙ (finish_locations-append resolved before (l ∷ after) spec
            ∙ ap (λ x. finish_locations resolved after (write_found l x s)) found))

-- A reference of the table that is resolved, at a place that no other reference of the table has:
-- its object ends as a reference to a definition of the resolved name, or, if it is to be in-lined, as
-- its old fields without the reference under those of what it is resolved to. In the first case there
-- is a definition of that name afterwards.
pub finish-resolved :
    (resolved : Dict Resolved) (table : Table) (spec : Spec) (l : Location) (r : Resolved)
    → IsOnlyIn l table
    → resolved_to resolved (get_field "$ref" (object_at l.place spec.objects)) ≡ some r
    → (object_at l.place (finish resolved table spec).objects
        ≡ resolved_object l.resolve_as r (object_at l.place spec.objects))
      × (l.resolve_as ≡ by_ref
          → is_some (get r.name (finish resolved table spec).definitions) ≡ true)
finish-resolved resolved table spec l r (before, after, e, p, q) h =
    let s = finish_locations resolved before spec in
    let same : object_at l.place s.objects ≡ object_at l.place spec.objects =
      finish_locations-elsewhere resolved l before spec p in
    rw (finish-around resolved table spec l before after (some r) e p h) (
      finish_locations-elsewhere resolved l after (write_found l (some r) s) q
          ∙ (write_ref-here l l.resolve_as r s ∙ ap (resolved_object l.resolve_as r) same),
      (λ b.
          finish_locations-definitions resolved r.name after (write_found l (some r) s)
            (write_found-defines l r s b)),
    )

-- A reference of the table that is not resolved, at a place that no other reference of the table
-- has, stays as it was.
pub finish-unresolved :
    (resolved : Dict Resolved) (table : Table) (spec : Spec) (l : Location)
    → IsOnlyIn l table
    → resolved_to resolved (get_field "$ref" (object_at l.place spec.objects)) ≡ none
    → object_at l.place (finish resolved table spec).objects ≡ object_at l.place spec.objects
finish-unresolved resolved table spec l (before, after, e, p, q) h =
    let s = finish_locations resolved before spec in
    let same : object_at l.place s.objects ≡ object_at l.place spec.objects =
      finish_locations-elsewhere resolved l before spec p in
    rw (finish-around resolved table spec l before after none e p h)
      (finish_locations-elsewhere resolved l after s q ∙ same)
