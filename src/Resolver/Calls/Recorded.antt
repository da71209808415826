-- ===== src/Resolver/Calls/Recorded.antt =====
-- lib/swagger-client.js, Resolver.resolve: which references the callbacks record.
use Prim.Native.String.{◌++◌}
use mathlib.Core.List
use common_services_common_u.Base.{
  ℕ, String, ◌≡◌, refl, sym, ◌∙◌, Bool, true, false, ◌||◌, not, Option, none, some, List, [], ◌∷◌,
  ◌==◌, arith, if◌then◌else◌, is_some, Bool-cases, inl, inr, any,
}
use common_services_common_u.Js.Dict.{get, get-put}
use common_services_common_u.Js.Value.{Value, null}
use common_services_common_u.Resolver.Calls.{
  Answers, Answer, error, response, answer_of, continue_with, record_answer, record_paths,
  fail_paths, finish_after, one_more, receive, receive_all, no_answers,
}
use common_services_common_u.Resolver.Calls.Laws.{is_broken, outcome, receive_all-append}

-- The name of a reference in the two objects.
abbrev pub names : String → List String → String → Bool
names host paths ref = any (λ path. (host ++ ("#" ++ path)) == ref) paths

abbrev pub is_recorded : String → Answers → Bool
is_recorded ref a = is_some (get ref a.resolved_refs) || is_some (get ref a.unresolved_refs)

-- Nothing is known of a reference: it is neither resolved nor reported.
abbrev pub IsUnknown : String → Answers → Type 0
IsUnknown ref a = (get ref a.resolved_refs ≡ none) × (get ref a.unresolved_refs ≡ none)

record_answer-is_recorded :
    (ref resolved name : String) (o : Option Value) (a : Answers)
    → is_recorded ref (record_answer resolved name o a) ≡ (resolved == ref) || is_recorded ref a
record_answer-is_recorded ref resolved name none a =
    rw (get-put resolved ref null a.unresolved_refs) (ground arith)
record_answer-is_recorded ref resolved name (some v) a =
    rw (get-put resolved ref (record { name = name; target = v }) a.resolved_refs) (ground arith)

-- A loop records the references of `ps` and others of `paths` at most.
abbrev Between : String → String → List String → List String → Answers → Answers → Type 0
Between ref host ps paths a b =
    ((names host ps ref || is_recorded ref a) ≡ true → is_recorded ref b ≡ true)
    × ((names host paths ref || is_recorded ref a) ≡ false → is_recorded ref b ≡ false)

-- The paths that a loop is through with for sure.
abbrev done : Bool → List String → List String
done broken paths = if broken then [] else paths

Between-step :
    (ref host path : String) (ps paths : List String) (a b c : Answers)
    → is_recorded ref b ≡ ((host ++ ("#" ++ path)) == ref) || is_recorded ref a
    → Between ref host ps paths b c
    → Between ref host (path ∷ ps) (path ∷ paths) a c
Between-step ref host path ps paths a b c h (k, l) =
    ((λ x. k (rw h (ground arith))), (λ x. l (rw h (ground arith))))

Between-fewer :
    (ref host : String) (ps paths : List String) (a b : Answers)
    → Between ref host ps paths a b
    → Between ref host [] paths a b
Between-fewer ref host ps paths a b (k, l) = ((λ x. k (ground arith)), l)

or_false : (x y : Bool) → (x || y) ≡ false → y ≡ false
or_false x y h = ground arith

done-step :
    (ref host path : String) (paths : List String) (a b c : Answers) (broken : Bool)
    → is_recorded ref b ≡ ((host ++ ("#" ++ path)) == ref) || is_recorded ref a
    → Between ref host (done broken paths) paths b c
    → Between ref host (done broken (path ∷ paths)) (path ∷ paths) a c
done-step ref host path paths a b c true h k =
    Between-fewer ref host (path ∷ []) (path ∷ paths) a c
      (Between-step ref host path [] paths a b c h k)
done-step ref host path paths a b c false h k = Between-step ref host path paths paths a b c h k

continue_with-Between :
    (ref host path name : String) (paths : List String) (o : Option (Option Value))
    (later : Answers → Answers × Bool) (a : Answers) (broken : Bool)
    → ((b : Answers) → Between ref host (done broken paths) paths b (later b).0)
    → Between ref host
        (done (not (is_some o) || broken) (path ∷ paths))
        (path ∷ paths)
        a
        (continue_with (host ++ ("#" ++ path)) name o later a).0
continue_with-Between ref host path name paths none later a broken h =
    ((λ x. x), (λ x. or_false _ _ x))
continue_with-Between ref host path name paths (some o) later a broken h =
    let b = record_answer (host ++ ("#" ++ path)) name o a in
    done-step ref host path paths a b (later b).0 broken
      (record_answer-is_recorded ref (host ++ ("#" ++ path)) name o a) (h b)

record_paths-Between :
    (ref host : String) (paths : List String) (swagger : Option Value) (a : Answers)
    → Between ref host
        (done (is_broken paths (response swagger)) paths)
        paths
        a
        (record_paths host paths swagger a).0
unfolding record_paths
record_paths-Between ref host [] swagger a = ((λ x. x), (λ x. x))
record_paths-Between ref host (path ∷ paths) swagger a =
    continue_with-Between ref host path _ paths (answer_of swagger path) _ a
      (is_broken paths (response swagger)) (record_paths-Between ref host paths swagger)

fail_paths-Between :
    (ref host : String) (paths : List String) (a : Answers)
    → Between ref host paths paths a (fail_paths host paths a)
unfolding fail_paths
fail_paths-Between ref host [] a = ((λ x. x), (λ x. x))
fail_paths-Between ref host (path ∷ paths) a =
    let b = record_answer (host ++ ("#" ++ path)) "" none a in
    Between-step ref host path paths paths a b (fail_paths host paths b)
      (record_answer-is_recorded ref (host ++ ("#" ++ path)) "" none a)
      (fail_paths-Between ref host paths b)

finish_after-is_recorded :
    (ref : String) (expected : ℕ) (b : Answers) (ends : Bool)
    → is_recorded ref (finish_after expected (b, ends)) ≡ is_recorded ref b
finish_after-is_recorded ref expected b false = refl
finish_after-is_recorded ref expected b true = ground arith

receive-Between :
    (ref : String) (expected : ℕ) (host : String) (opt : List String) (answer : Answer)
    (a : Answers)
    → Between ref host (done (is_broken opt answer) opt) opt a (receive expected host opt answer a)
unfolding receive
receive-Between ref expected host opt error a =
    rw (finish_after-is_recorded ref expected (fail_paths host opt (one_more a)) true)
      (fail_paths-Between ref host opt (one_more a))
receive-Between ref expected host opt (response swagger) a =
    let (b, ends) = record_paths host opt swagger (one_more a) in
    rw (finish_after-is_recorded ref expected b ends)
      (record_paths-Between ref host opt swagger (one_more a))

receive_all-only :
    (ref : String) (expected : ℕ) (host : String) (opt : List String) (answers : List Answer)
    (a : Answers)
    → names host opt ref ≡ false
    → is_recorded ref a ≡ false
    → is_recorded ref (receive_all expected host opt answers a) ≡ false
unfolding receive_all
receive_all-only ref expected host opt [] a h k = k
receive_all-only ref expected host opt (answer ∷ answers) a h k =
    receive_all-only ref expected host opt answers (receive expected host opt answer a) h
      ((receive-Between ref expected host opt answer a).1 (rw (h, k) refl))

-- After an answer that can be walked, the references that are recorded, as resolved or as
-- unresolved, are those of `host` and `opt`: every one of them, and none else. The answers before it
-- may be of any kind. Since `host` and `opt` are those of the last turn of the loop over the hosts,
-- the references of every other host are neither resolved nor reported.
pub outcome-is_recorded :
    (ref : String) (expected : ℕ) (host : String) (opt : List String) (answers : List Answer)
    (answer : Answer)
    → is_broken opt answer ≡ false
    → is_recorded ref (outcome expected host opt (List.◌++◌ answers (answer ∷ [])))
      ≡ names host opt ref
unfolding get
outcome-is_recorded ref expected host opt answers answer h =
    let a = outcome expected host opt answers in
    let step : Between ref host opt opt a (receive expected host opt answer a) =
      rw h at (receive-Between ref expected host opt answer a) in
    rw (receive_all-append expected host opt answers answer no_answers)
      (elim (Bool-cases (names host opt ref)) [
        | inl e ↦ step.0 (rw e refl) ∙ sym e
        | inr e ↦
            step.1 (rw (e, receive_all-only ref expected host opt answers no_answers e refl) refl)
            ∙ sym e
      ])
