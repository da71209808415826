-- ===== src/Resolver/Calls.antt =====
-- lib/swagger-client.js, Resolver.resolve: how the references are grouped into calls, and what the
-- callbacks of the calls do with the answers.
use Prim.Native.String.{◌++◌}
use mathlib.Core.List
use common_services_common_u.Base.{
  ℕ, ◌+◌, String, Bool, true, false, Option, none, some, List, [], ◌∷◌, ◌==◌, ◌=?◌, if◌then◌else◌,
  is_some,
}
pub mod Laws
pub mod Recorded
pub mod Group
use common_services_common_u.Js.Text.{split}
use common_services_common_u.Js.Dict.{Dict, get, put}
use common_services_common_u.Js.Value.{Value, null}
use common_services_common_u.Resolver.{or_none, member, go_on}

-- `opts` and `expectedCalls`
pub record Calls : Type 0 where
  pub opts : Dict (List String)
  pub expected_calls : ℕ

-- One name of the table; a name that does not have two parts is passed over.
abbrev pub group_parts : List String → Calls → Calls
group_parts (host ∷ path ∷ []) c = record {
  opts = put host (List.◌++◌ (or_none (get host c.opts)) (path ∷ [])) c.opts;
  expected_calls = if is_some (get host c.opts) then c.expected_calls else c.expected_calls + 1;
}
group_parts _ c = c

unfoldable pub group : List String → Calls → Calls
group [] c = c
group (name ∷ names) c = group names (group_parts (split b'#' name) c)

-- An item of `resolvedRefs`
pub record Resolved : Type 0 where
  pub name : String
  pub target : Value

-- `processedCalls`, `resolvedRefs`, `unresolvedRefs`, and the arguments of the calls of `finish`.
pub record Answers : Type 0 where
  pub processed_calls : ℕ
  pub resolved_refs : Dict Resolved
  pub unresolved_refs : Dict Value
  pub finished : List (Dict Resolved × Dict Value)

-- The loop over the segments of a path, which `undefined` leaves; `none` is a TypeError.
unfoldable pub follow : List String → Option Value → Option (Option Value)
unfolding member
follow [] location = some location
follow (segment ∷ segments) none = some none
follow (segment ∷ segments) (some v) =
    let same = follow segments (some v) in
    let next = go_on (member (some v) segment) (follow segments) in
    if segment == "" then same else next

-- `parts[j-1]`
abbrev pub last_part : List String → String
last_part [] = ""
last_part (p ∷ []) = p
last_part (p ∷ q ∷ ps) = last_part (q ∷ ps)

abbrev pub record_answer : String → String → Option Value → Answers → Answers
record_answer resolved name none a = record a {
  unresolved_refs = put resolved null a.unresolved_refs;
}
record_answer resolved name (some v) a = record a {
  resolved_refs = put resolved (record { name = name; target = v }) a.resolved_refs;
}

abbrev pub answer_of : Option Value → String → Option (Option Value)
answer_of swagger path = follow (split b'/' path) swagger

-- The loop of `on.response`, and whether it ends without a TypeError.
abbrev pub continue_with :
    String → String → Option (Option Value) → (Answers → Answers × Bool) → Answers → Answers × Bool
continue_with resolved name none later a = (a, false)
continue_with resolved name (some location) later a = later (record_answer resolved name location a)

unfoldable pub record_paths : String → List String → Option Value → Answers → Answers × Bool
unfolding follow
record_paths host [] swagger a = (a, true)
record_paths host (path ∷ paths) swagger a =
    continue_with (host ++ ("#" ++ path)) (last_part (split b'/' path)) (answer_of swagger path)
      (record_paths host paths swagger) a

-- The loop of `on.error`
unfoldable pub fail_paths : String → List String → Answers → Answers
fail_paths host [] a = a
fail_paths host (path ∷ paths) a =
    fail_paths host paths
      (record a { unresolved_refs = put (host ++ ("#" ++ path)) null a.unresolved_refs })

-- What an HTTP call ends with.
pub data Answer : Type 0 where
  error : Answer
  response : Option Value → Answer

-- `if (processedCalls === expectedCalls) self.finish(…)`
abbrev pub finish_after : ℕ → Answers × Bool → Answers
finish_after expected (a, false) = a
finish_after expected (a, true) =
    if a.processed_calls =? expected
    then record a { finished = (a.resolved_refs, a.unresolved_refs) ∷ a.finished }
    else a

abbrev pub one_more : Answers → Answers
one_more a = record a { processed_calls = a.processed_calls + 1 }

-- A callback. `host` and `opt` are variables of `resolve`: every callback runs after its loop over
-- the hosts, and meets the values of the last turn of it.
unfoldable pub receive : ℕ → String → List String → Answer → Answers → Answers
unfolding record_paths fail_paths
receive expected host opt error a = finish_after expected (fail_paths host opt (one_more a), true)
receive expected host opt (response swagger) a =
    finish_after expected (record_paths host opt swagger (one_more a))

-- The callbacks of the calls, in the order in which their answers come.
unfoldable pub receive_all : ℕ → String → List String → List Answer → Answers → Answers
unfolding receive
receive_all expected host opt [] a = a
receive_all expected host opt (answer ∷ answers) a =
    receive_all expected host opt answers (receive expected host opt answer a)

abbrev pub no_answers : Answers
no_answers = record { processed_calls = 0; resolved_refs = []; unresolved_refs = []; finished = [] }

-- The values of `host` and `opt` behind the loop.
abbrev pub last_call : Dict (List String) → Option (String × List String)
last_call [] = none
last_call (c ∷ []) = some c
last_call (c ∷ d ∷ cs) = last_call (d ∷ cs)
