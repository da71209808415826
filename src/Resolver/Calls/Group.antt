-- ===== src/Resolver/Calls/Group.antt =====
-- lib/swagger-client.js, Resolver.resolve: how the names of the table become calls.
use mathlib.Core.List
use common_services_common_u.Base.{
  String, Bool, true, false, ◌≡◌, refl, sym, ◌∙◌, some, List, [], ◌∷◌, ◌==◌, if◌then◌else◌, eq_iff,
  append-nil, append_assoc,
}
use common_services_common_u.Js.Text.{split}
use common_services_common_u.Js.Dict.{get, get-put}
use common_services_common_u.Resolver.{or_none}
use common_services_common_u.Resolver.Calls.{Calls, group_parts, group}

abbrev pub no_calls : Calls
no_calls = record { opts = []; expected_calls = 0 }

-- The path of a name that is of this host.
abbrev pub path_to : String → List String → List String
path_to host (h ∷ path ∷ []) = if h == host then path ∷ [] else []
path_to host _ = []

abbrev pub paths_to : String → List String → List String
paths_to host [] = []
paths_to host (name ∷ names) = List.◌++◌ (path_to host (split b'#' name)) (paths_to host names)

group_parts-path_to :
    (host : String) (parts : List String) (c : Calls)
    → or_none (get host (group_parts parts c).opts)
      ≡ List.◌++◌ (or_none (get host c.opts)) (path_to host parts)
group_parts-path_to host [] c = sym (append-nil _)
group_parts-path_to host (h ∷ []) c = sym (append-nil _)
group_parts-path_to host (h ∷ path ∷ []) c =
    rw (get-put h host (List.◌++◌ (or_none (get h c.opts)) (path ∷ [])) c.opts)
      (go (h == host) (eq_iff h host).0)
  where
    go :
        (b : Bool)
        → (b ≡ true → h ≡ host)
        → or_none
            (if b then some (List.◌++◌ (or_none (get h c.opts)) (path ∷ [])) else get host c.opts)
          ≡ List.◌++◌ (or_none (get host c.opts)) (if b then path ∷ [] else [])
    go true e = rw (e refl) refl
    go false e = sym (append-nil _)
group_parts-path_to host (h ∷ p ∷ q ∷ ps) c = sym (append-nil _)

group-eq-append :
    (host : String) (names : List String) (c : Calls)
    → or_none (get host (group names c).opts)
      ≡ List.◌++◌ (or_none (get host c.opts)) (paths_to host names)
unfolding group
group-eq-append host [] c = sym (append-nil _)
group-eq-append host (name ∷ names) c =
    let parts = split b'#' name in
    group-eq-append host names (group_parts parts c)
    ∙ (rw (group_parts-path_to host parts c)
        (append_assoc (or_none (get host c.opts)) (path_to host parts) (paths_to host names)))

-- The call to a host asks for the paths of the names in the table that have this host and one `#`,
-- in their order, and for no others.
pub group-eq-paths_to :
    (host : String) (names : List String)
    → or_none (get host (group names no_calls).opts) ≡ paths_to host names
unfolding get
group-eq-paths_to host names = group-eq-append host names no_calls
