-- ===== src/Listing/Build/Laws.antt =====
-- lib/swagger-client.js, SwaggerClient of versions 1.1 and 1.2: when a client whose resources are
-- fetched one by one is built.
use mathlib.Core.List
use common_services_common_u.Base.{
  suc, ◌≤◌, ◌≡◌, refl, ap, ◌⊎◌, inl, inr, false, List, [], ◌∷◌, map, any, arith, length,
}
use common_services_common_u.Js.Dict.{Dict}
use common_services_common_u.Listing.Resource.{Resource, Endpoint}
use common_services_common_u.Listing.Build.{Client, Description, has_operations, build_listed}
use common_services_common_u.Listing.Build.Reach.{
  Reach, IsCounted, Reach-IsCounted, IsPast, Reach-IsPast,
}

length-map : (f : Endpoint → Resource) (es : List Endpoint) → length (map f es) ≡ length es
length-map f [] = refl
length-map f (e ∷ es) = ap suc (length-map f es)

-- A client before its first description.
pub record IsFresh (c : Client) : Type 0 where
  pub counted : c.resource_count ≡ 0
  pub asked : c.waiting ≡ []
  pub unbuilt : c.successes ≡ 0

build_listed-IsCounted :
    (d : Description) (c : Client)
    → any has_operations d.declared.apis ≡ false
    → IsFresh c
    → IsCounted (length d.declared.apis) (build_listed d c)
unfolding build_listed
build_listed-IsCounted d c h k = rw h (record {
  listed = refl;
  within = rw (k.counted, k.asked) (omega (arith, length-map _ d.declared.apis));
  once = inl k.unbuilt;
})

-- A new client that is given a listing calls `success` at most once, whatever answers its resources
-- have and in whatever order. If it has called it, every resource that the listing names has
-- answered, and none is waiting.
pub build_listed-once :
    (d : Description) (c e : Client)
    → any has_operations d.declared.apis ≡ false
    → IsFresh c
    → Reach (build_listed d c) e
    → (e.successes ≡ 0)
      ⊎ ((e.successes ≡ 1) × (e.resource_count ≡ length d.declared.apis) × (length e.waiting ≡ 0))
build_listed-once d c e h k r =
    let n = length d.declared.apis in
    let s = Reach-IsCounted n (build_listed-IsCounted d c h k) r in
    elim s.once [ inl z ↦ inl z | inr (one, full) ↦ inr (one, full, omega (arith, s.within, full)) ]

-- A listing that names no more resources than the client has counted before never builds it, whatever
-- answers come, and in whatever order. So it is with an empty listing, and with a second try after the
-- resources of the first had all answered.
pub build_listed-unbuilt :
    (d : Description) (c e : Client)
    → any has_operations d.declared.apis ≡ false
    → length d.declared.apis ≤ c.resource_count
    → Reach (build_listed d c) e
    → e.successes ≡ c.successes
unfolding build_listed
build_listed-unbuilt d c e h k r =
    let n = length d.declared.apis in
    let start : IsPast n c.successes (build_listed d c) =
      rw h (record { listed = refl; past = k; kept = refl }) in
    (Reach-IsPast n c.successes start r).kept
