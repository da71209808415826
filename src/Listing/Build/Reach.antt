-- ===== src/Listing/Build/Reach.antt =====
-- lib/swagger-client.js, the callbacks of SwaggerResource: the orders in which the resources of a client
-- may have their answers, and when the client is built.
use mathlib.Core.List
use common_services_common_u.Base.{
  ℕ, suc, ◌+◌, ◌≤◌, ◌≡◌, refl, sym, ap, ◌∙◌, ◌⊎◌, inl, inr, true, Option, none, some, List, [], ◌∷◌,
  arith, length, length-append, Bool-cases,
}
use common_services_common_u.Js.Dict.{Dict}
use common_services_common_u.Listing.Model.{ListedModel}
use common_services_common_u.Listing.Resource.{
  Resource, Status, done, failed, broken, add_api_declaration,
}
use common_services_common_u.Listing.Build.{
  Client, Answer, declaration, unreadable, refused, finish, finish_if_all, is_count, declare,
  count_one, receive,
}

-- Any of the resources that wait may be the next to have an answer, and it may be any answer.
pub data Step : Client → Client → Type 0 where
  answer :
      (c : Client) (before : List Resource) (r : Resource) (after : List Resource) (a : Answer)
      → c.waiting ≡ List.◌++◌ before (r ∷ after)
      → Step c (receive r a (record c { waiting = List.◌++◌ before after }))

pub data Reach (c : Client) : Client → Type 0 where
  here : Reach c c
  next : {d e : Client} → Reach c d → Step d e → Reach c e

-- The client is not built, or is so with the resource that it counts.
abbrev IsBuildOf : Client → Client → Type 0
IsBuildOf c d =
    (d.successes ≡ c.successes)
    ⊎ ((d.successes ≡ suc c.successes) × (c.expected ≡ some c.resource_count))

abbrev IsFinishOf : Client → Client → Type 0
IsFinishOf c d =
    (d.waiting ≡ c.waiting)
    × (d.expected ≡ c.expected)
    × (d.resource_count ≡ c.resource_count)
    × IsBuildOf c d

finish-IsFinishOf : (c : Client) → c.expected ≡ some c.resource_count → IsFinishOf c (finish c)
unfolding finish
finish-IsFinishOf c e = elim (Bool-cases c.has_success) [
  | inl t ↦ rw t (refl, refl, refl, inr (refl, e))
  | inr f ↦ rw f (refl, refl, refl, inl refl)
]

is_count-expected : (n : ℕ) (o : Option ℕ) → is_count n o ≡ true → o ≡ some n
is_count-expected n none h = cc
is_count-expected n (some m) h = ap some (ground arith)

finish_if_all-IsFinishOf : (c : Client) → IsFinishOf c (finish_if_all c)
finish_if_all-IsFinishOf c = elim (Bool-cases (is_count c.resource_count c.expected)) [
  | inl t ↦ rw t (finish-IsFinishOf c (is_count-expected c.resource_count c.expected t))
  | inr f ↦ rw f (refl, refl, refl, inl refl)
]

declare-IsFinishOf :
    (c : Client) (models : Dict ListedModel) (r : Resource) (status : Status)
    → IsFinishOf c (declare c (models, (r, status)))
declare-IsFinishOf c models r done =
    finish_if_all-IsFinishOf
      (record c { models = models; declared = List.◌++◌ c.declared (r ∷ []) })
declare-IsFinishOf c models r (failed messages) = (refl, refl, refl, inl refl)
declare-IsFinishOf c models r broken = (refl, refl, refl, inl refl)

-- An answer that is read counts; one that is not changes nothing.
abbrev IsAnswerOf : Client → Client → Type 0
IsAnswerOf c d = (d ≡ c) ⊎ IsFinishOf (count_one c) d

receive-IsAnswerOf : (r : Resource) (a : Answer) (c : Client) → IsAnswerOf c (receive r a c)
unfolding receive
receive-IsAnswerOf r (declaration d) c =
    let answer = add_api_declaration c.base_path d r c.models in
    inr (declare-IsFinishOf (count_one c) answer.0 answer.1.0 answer.1.1)
receive-IsAnswerOf r unreadable c = inl refl
receive-IsAnswerOf r (refused status_text) c = inr (refl, refl, refl, inl refl)

-- A client that has asked for the `n` resources of a listing.
pub record IsCounted (n : ℕ) (c : Client) : Type 0 where
  pub listed : c.expected ≡ some n
  pub within : c.resource_count + length c.waiting ≤ n
  pub once : (c.successes ≡ 0) ⊎ ((c.successes ≡ 1) × (c.resource_count ≡ n))

length-middle :
    (before : List Resource) (r : Resource) (after : List Resource)
    → length (List.◌++◌ before (r ∷ after)) ≡ suc (length (List.◌++◌ before after))
length-middle before r after =
    omega (arith, length-append before (r ∷ after), length-append before after)

some_injective : (m n : ℕ) → some m ≡ some n → m ≡ n
some_injective m n e = ground arith

-- One answer, of a client that has counted none twice.
IsAnswerOf-IsCounted :
    (n : ℕ) (c d : Client)
    → c.expected ≡ some n
    → c.resource_count + suc (length c.waiting) ≤ n
    → (c.successes ≡ 0) ⊎ ((c.successes ≡ 1) × (c.resource_count ≡ n))
    → IsAnswerOf c d
    → IsCounted n d
IsAnswerOf-IsCounted n c d e h k (inl same) =
    rw same (record { listed = e; within = omega (arith, h); once = k })
IsAnswerOf-IsCounted n c d e h k (inr (w, l, m, b)) = record {
  listed = l ∙ e;
  within = rw (w, m) (omega (arith, h));
  once = elim k [
    | inr (one, full) ↦ absurd (omega (arith, h, full))
    | inl zero_yet ↦ elim b [
      | inl same ↦ inl (same ∙ zero_yet)
      | inr (more, all) ↦
          inr (
            more ∙ ap suc zero_yet,
            m ∙ sym (some_injective n (suc c.resource_count) (sym e ∙ all)),
          )
    ]
  ];
}

Step-IsCounted : (n : ℕ) {c d : Client} → Step c d → IsCounted n c → IsCounted n d
Step-IsCounted n (answer c before r after a w) h =
    let c' : Client = record c { waiting = List.◌++◌ before after } in
    let k : c.resource_count + suc (length c'.waiting) ≤ n =
      omega (arith, h.within, ap length w, length-middle before r after) in
    IsAnswerOf-IsCounted n c' (receive r a c') h.listed k h.once (receive-IsAnswerOf r a c')

pub Reach-IsCounted : (n : ℕ) {c d : Client} → IsCounted n c → Reach c d → IsCounted n d
Reach-IsCounted n h here = h
Reach-IsCounted n h (next r s) = Step-IsCounted n s (Reach-IsCounted n h r)

-- A client that has counted as many resources as it expects, or more, and waits for further ones.
pub record IsPast (n successes : ℕ) (c : Client) : Type 0 where
  pub listed : c.expected ≡ some n
  pub past : n ≤ c.resource_count
  pub kept : c.successes ≡ successes

IsAnswerOf-IsPast : (n k : ℕ) (c d : Client) → IsPast n k c → IsAnswerOf c d → IsPast n k d
IsAnswerOf-IsPast n k c d h (inl same) = rw same h
IsAnswerOf-IsPast n k c d h (inr (w, l, m, b)) = record {
  listed = l ∙ h.listed;
  past = rw m (omega (arith, h.past));
  kept = elim b [
    | inl same ↦ same ∙ h.kept
    | inr (more, all) ↦
        absurd (omega (arith, h.past, some_injective n (suc c.resource_count) (sym h.listed ∙ all)))
  ];
}

Step-IsPast : (n k : ℕ) {c d : Client} → Step c d → IsPast n k c → IsPast n k d
Step-IsPast n k (answer c before r after a w) h =
    let c' : Client = record c { waiting = List.◌++◌ before after } in
    IsAnswerOf-IsPast n k c' (receive r a c')
      (record { listed = h.listed; past = h.past; kept = h.kept }) (receive-IsAnswerOf r a c')

pub Reach-IsPast : (n k : ℕ) {c d : Client} → IsPast n k c → Reach c d → IsPast n k d
Reach-IsPast n k h here = h
Reach-IsPast n k h (next r s) = Step-IsPast n k s (Reach-IsPast n k h r)
