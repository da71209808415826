-- ===== src/Resolver/Finish.antt =====
-- lib/swagger-client.js, Resolver.finish: the resolved references are put into the description.
pub mod Laws
use Prim.Native.String.{◌++◌}
use common_services_common_u.Base.{
  String, Bool, true, false, ◌&&◌, Option, none, some, List, [], ◌∷◌, ◌==◌, if◌then◌else◌,
}
use common_services_common_u.Js.Dict.{Dict, get, put}
use common_services_common_u.Js.Value.{
  Value, str, Fields, no_fields, get_field, set_field, to_string,
}
use common_services_common_u.Resolver.{
  Location, ResolveAs, by_ref, inline, Table, copy_fields, delete_field, own_fields,
}
use common_services_common_u.Resolver.Calls.{Resolved}

abbrev pub same_place : List String → List String → Bool
same_place [] [] = true
same_place [] (q ∷ qs) = false
same_place (p ∷ ps) [] = false
same_place (p ∷ ps) (q ∷ qs) = p == q && same_place ps qs

-- The objects that hold references, by their places.
abbrev pub Objects : Type 0
Objects = List (List String × Fields)

unfoldable pub object_at : List String → Objects → Fields
object_at place [] = no_fields
object_at place ((p, fs) ∷ objects) = if same_place p place then fs else object_at place objects

unfoldable pub write_at : List String → Fields → Objects → Objects
write_at place fs [] = (place, fs) ∷ []
write_at place fs ((p, gs) ∷ objects) =
    if same_place p place then (p, fs) ∷ objects else (p, gs) ∷ write_at place fs objects

-- The parts of the description that `finish` writes; `definitions` is empty if it is missing.
pub record Spec : Type 0 where
  pub definitions : Dict Value
  pub objects : Objects

-- `resolvedRefs[locations[i].obj.$ref]`
abbrev pub resolved_to : Dict Resolved → Option Value → Option Resolved
resolved_to resolved none = get "undefined" resolved
resolved_to resolved (some v) = get (to_string v) resolved

abbrev pub write_ref : Location → ResolveAs → Resolved → Spec → Spec
write_ref l by_ref r spec = record {
  definitions = put r.name r.target spec.definitions;
  objects =
      write_at l.place
        (set_field "$ref" (str ("#/definitions/" ++ r.name)) (object_at l.place spec.objects))
        spec.objects;
}
write_ref l inline r spec = record spec {
  objects =
      write_at l.place
        (copy_fields (own_fields r.target) (delete_field "$ref" (object_at l.place spec.objects)))
        spec.objects;
}

abbrev pub write_found : Location → Option Resolved → Spec → Spec
write_found l none spec = spec
write_found l (some r) spec = write_ref l l.resolve_as r spec

-- One turn of the inner loop.
unfoldable pub finish_location : Dict Resolved → Location → Spec → Spec
unfolding object_at write_at copy_fields delete_field own_fields
finish_location resolved l spec =
    write_found l (resolved_to resolved (get_field "$ref" (object_at l.place spec.objects))) spec

unfoldable pub finish_locations : Dict Resolved → List Location → Spec → Spec
unfolding finish_location
finish_locations resolved [] spec = spec
finish_locations resolved (l ∷ ls) spec =
    finish_locations resolved ls (finish_location resolved l spec)

unfoldable pub finish : Dict Resolved → Table → Spec → Spec
unfolding finish_locations
finish resolved [] spec = spec
finish resolved ((ref, ls) ∷ table) spec = finish resolved table (finish_locations resolved ls spec)
