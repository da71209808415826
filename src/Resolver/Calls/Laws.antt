-- ===== src/Resolver/Calls/Laws.antt =====
-- lib/swagger-client.js, Resolver.resolve: when `finish` is called, and with which references.
use mathlib.Core.List
use common_services_common_u.Base.{
  ℕ, ◌+◌, ◌<◌, String, ◌≡◌, refl, ◌∙◌, Bool, true, false, ◌||◌, ◌&&◌, not, Option, none, some, List,
  [], ◌∷◌, ◌=?◌, arith, if◌then◌else◌, is_some, length, any,
}
use common_services_common_u.Js.Dict.{Dict}
use common_services_common_u.Js.Value.{Value}
use common_services_common_u.Resolver.Calls.{
  Answers, Resolved, Answer, error, response, answer_of, continue_with, record_paths, fail_paths,
  finish_after, one_more, receive, receive_all, no_answers,
}

-- An answer that the callback cannot walk: a segment of a path is read of null.
abbrev pub is_broken : List String → Answer → Bool
is_broken paths error = false
is_broken paths (response swagger) = any (λ path. not (is_some (answer_of swagger path))) paths

-- What the loops of the callbacks leave as it was.
abbrev HasSameCounts : Answers → Answers → Type 0
HasSameCounts a b = (b.processed_calls ≡ a.processed_calls) × (b.finished ≡ a.finished)

continue_with-HasSameCounts :
    (resolved name : String) (o : Option (Option Value)) (later : Answers → Answers × Bool)
    (a : Answers)
    → ((b : Answers) → HasSameCounts b (later b).0)
    → HasSameCounts a (continue_with resolved name o later a).0
continue_with-HasSameCounts resolved name none later a h = (refl, refl)
continue_with-HasSameCounts resolved name (some none) later a h = h _
continue_with-HasSameCounts resolved name (some (some v)) later a h = h _

record_paths-HasSameCounts :
    (host : String) (paths : List String) (swagger : Option Value) (a : Answers)
    → HasSameCounts a (record_paths host paths swagger a).0
unfolding record_paths
record_paths-HasSameCounts host [] swagger a = (refl, refl)
record_paths-HasSameCounts host (path ∷ paths) swagger a =
    continue_with-HasSameCounts _ _ (answer_of swagger path) _ a
      (record_paths-HasSameCounts host paths swagger)

continue_with-ends :
    (resolved name : String) (o : Option (Option Value)) (later : Answers → Answers × Bool)
    (a : Answers) (broken : Bool)
    → ((b : Answers) → (later b).1 ≡ not broken)
    → (continue_with resolved name o later a).1 ≡ not (not (is_some o) || broken)
continue_with-ends resolved name none later a broken h = refl
continue_with-ends resolved name (some none) later a broken h = h _
continue_with-ends resolved name (some (some v)) later a broken h = h _

record_paths-ends :
    (host : String) (paths : List String) (swagger : Option Value) (a : Answers)
    → (record_paths host paths swagger a).1 ≡ not (is_broken paths (response swagger))
unfolding record_paths
record_paths-ends host [] swagger a = refl
record_paths-ends host (path ∷ paths) swagger a =
    continue_with-ends _ _ (answer_of swagger path) _ a (is_broken paths (response swagger))
      (record_paths-ends host paths swagger)

fail_paths-HasSameCounts :
    (host : String) (paths : List String) (a : Answers) → HasSameCounts a (fail_paths host paths a)
unfolding fail_paths
fail_paths-HasSameCounts host [] a = (refl, refl)
fail_paths-HasSameCounts host (path ∷ paths) a = fail_paths-HasSameCounts host paths _

-- What one callback leaves in the list of the calls of `finish`.
abbrev after : ℕ → Bool → Answers → Answers → List (Dict Resolved × Dict Value)
after expected broken b a =
    if not broken && (a.processed_calls + 1 =? expected)
    then (b.resolved_refs, b.unresolved_refs) ∷ a.finished
    else a.finished

finish_after-counts :
    (expected : ℕ) (a b : Answers) (ends broken : Bool)
    → HasSameCounts (one_more a) b
    → ends ≡ not broken
    → ((finish_after expected (b, ends)).processed_calls ≡ a.processed_calls + 1)
      × ((finish_after expected (b, ends)).finished
          ≡ after expected broken (finish_after expected (b, ends)) a)
finish_after-counts expected a b true false (p, f) e = ground arith
finish_after-counts expected a b false true (p, f) e = (p, f)
finish_after-counts expected a b true true (p, f) e = cc
finish_after-counts expected a b false false (p, f) e = cc

receive-counts :
    (expected : ℕ) (host : String) (opt : List String) (answer : Answer) (a : Answers)
    → ((receive expected host opt answer a).processed_calls ≡ a.processed_calls + 1)
      × ((receive expected host opt answer a).finished
          ≡ after expected (is_broken opt answer) (receive expected host opt answer a) a)
unfolding receive
receive-counts expected host opt error a =
    finish_after-counts expected a _ true false (fail_paths-HasSameCounts host opt _) refl
receive-counts expected host opt (response swagger) a =
    finish_after-counts expected a _ _ _ (record_paths-HasSameCounts host opt swagger _)
      (record_paths-ends host opt swagger _)

after-early :
    (expected : ℕ) (broken : Bool) (b a : Answers)
    → a.processed_calls + 1 < expected
    → after expected broken b a ≡ a.finished
after-early expected broken b a h = ground arith

after-last :
    (expected : ℕ) (broken : Bool) (b a : Answers)
    → a.processed_calls + 1 ≡ expected
    → a.finished ≡ []
    → after expected broken b a ≡ (if broken then [] else (b.resolved_refs, b.unresolved_refs) ∷ [])
after-last expected true b a h f = f
after-last expected false b a h f = rw (h, f) (ground arith)

receive_all-early :
    (expected : ℕ) (host : String) (opt : List String) (answers : List Answer) (a : Answers)
    → a.processed_calls + length answers < expected
    → ((receive_all expected host opt answers a).processed_calls
        ≡ a.processed_calls + length answers)
      × ((receive_all expected host opt answers a).finished ≡ a.finished)
unfolding receive_all
receive_all-early expected host opt [] a h = (omega arith, refl)
receive_all-early expected host opt (answer ∷ answers) a h =
    let b = receive expected host opt answer a in
    let (p, f) = receive-counts expected host opt answer a in
    let (q, g) = receive_all-early expected host opt answers b (omega (arith, p, h)) in
    (
      omega (arith, p, q),
      g ∙ (f ∙ after-early expected (is_broken opt answer) b a (omega (arith, h))),
    )

pub receive_all-append :
    (expected : ℕ) (host : String) (opt : List String) (answers : List Answer) (answer : Answer)
    (a : Answers)
    → receive_all expected host opt (List.◌++◌ answers (answer ∷ [])) a
      ≡ receive expected host opt answer (receive_all expected host opt answers a)
unfolding receive_all
receive_all-append expected host opt [] answer a = refl
receive_all-append expected host opt (x ∷ answers) answer a =
    receive_all-append expected host opt answers answer (receive expected host opt x a)

-- What the callbacks leave for these answers, in this order.
abbrev pub outcome : ℕ → String → List String → List Answer → Answers
outcome expected host opt answers = receive_all expected host opt answers no_answers

-- `finish` is not called before all the calls have an answer.
pub outcome-early :
    (expected : ℕ) (host : String) (opt : List String) (answers : List Answer)
    → length answers < expected
    → (outcome expected host opt answers).finished ≡ []
outcome-early expected host opt answers h =
    (receive_all-early expected host opt answers no_answers (omega (arith, h))).1

-- When the last call of all has its answer, `finish` has been called once, with all the references
-- that were recorded, and with those only; if the last answer has a path through null, it has not
-- been called at all. The answers before the last may be of any kind.
pub outcome-finished :
    (expected : ℕ) (host : String) (opt : List String) (answers : List Answer) (answer : Answer)
    → length answers + 1 ≡ expected
    → (outcome expected host opt (List.◌++◌ answers (answer ∷ []))).finished ≡ (
        if is_broken opt answer
        then []
        else (
          (outcome expected host opt (List.◌++◌ answers (answer ∷ []))).resolved_refs,
          (outcome expected host opt (List.◌++◌ answers (answer ∷ []))).unresolved_refs,
        )
          ∷ [])
outcome-finished expected host opt answers answer h =
    let a = outcome expected host opt answers in
    let (p, f) = receive_all-early expected host opt answers no_answers (omega (arith, h)) in
    let (q, g) = receive-counts expected host opt answer a in
    rw (receive_all-append expected host opt answers answer no_answers) (
      g
      ∙ after-last expected (is_broken opt answer) (receive expected host opt answer a) a
          (omega (arith, p, h)) f)
