-- ===== src/Tests/Client.antt =====
-- The operations of a description, by their tags.
use common_services_common_u.Base.{◌≡◌, refl, Option, none, some, [], ◌∷◌}
use common_services_common_u.Js.Dict.{Dict, get, put}
use common_services_common_u.Js.Text.{starts_with}
use common_services_common_u.Js.Space.{is_space}
use common_services_common_u.Js.Value.{decimal}
use common_services_common_u.Client.{
  failure_message, group_help, choose_host, Described, Bound, Built, id_from_op, bind_paths,
}
use common_services_common_u.Client.Groups.{operations_of, operations_of-bind_paths}

abbrev unnamed : Described
unnamed = record { operation_id = none; tags = none }

abbrev add_pet : Described
add_pet = record { operation_id = some "add_pet"; tags = some ("pets" ∷ "default" ∷ []) }

the_id : id_from_op "/pets/{id}" "get" unnamed ≡ "pets__id__get"
unfolding id_from_op is_space
the_id = refl

abbrev paths : Dict (Dict Described)
paths =
    ("/pets/{id}", ("get", unnamed) ∷ ("x-note", add_pet) ∷ [])
    ∷ ("/pets", ("post", add_pet) ∷ [])
    ∷ []

abbrev empty : Built
empty = record { apis = []; groups = [] }

abbrev get_pet : Bound
get_pet = record { id = "pets__id__get"; http_method = "get"; path = "/pets/{id}" }

abbrev post_pet : Bound
post_pet = record { id = "add_pet"; http_method = "post"; path = "/pets" }

abbrev or_empty : Option Built → Built
or_empty none = empty
or_empty (some b) = b

operations_of-bind_paths_example :
    operations_of "default" (or_empty (bind_paths ("host" ∷ []) [] paths empty))
    ≡ get_pet ∷ post_pet ∷ []
unfolding bind_paths put get id_from_op is_space
operations_of-bind_paths_example =
    operations_of-bind_paths ("host" ∷ []) [] "default" paths
      (or_empty (bind_paths ("host" ∷ []) [] paths empty)) refl

abbrev named_build : Dict (Dict Described)
named_build = ("/", ("get", record { operation_id = none; tags = some ("build" ∷ []) }) ∷ []) ∷ []

failures :
    (failure_message "/api" 0 "" ≡ "Please specify the protocol for /api")
    × (failure_message "http://h" 500 "oops" ≡ "500 : oops http://h")
unfolding failure_message starts_with decimal
failures = (refl, refl)

the_help :
    group_help "pets" (("add_pet", "adds") ∷ [])
    ≡ "operations for the \"pets\" tag\n  * add_pet: adds"
unfolding group_help
the_help = refl

the_host :
    choose_host "" (some (record { scheme = "http"; host = some "h"; port = some "80" }))
    ≡ some (some "h:80")
unfolding choose_host
the_host = refl
