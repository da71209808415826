-- ===== src/Console/Pages/Ids.antt =====
-- swagger-ui.js, MainView.render: the ids of the resources of a page.
use Prim.Native.String.{[], ◌∷◌, ◌++◌}
use mathlib.Core.List
use common_services_common_u.Base.{
  ℕ, zero, suc, ◌+◌, ◌≤◌, ◌<◌, String, ◌≡◌, refl, ap, All, Bool, true, false, ◌||◌, Option, some,
  List, [], ◌∷◌, ◌==◌, eq_iff, leb, arith, length, length-append, Bool-cases, inl, inr, cons-append,
  nil-append,
}
use common_services_common_u.Js.Text.{count}
use common_services_common_u.Js.Value.{decimal}
use common_services_common_u.Js.Dict.{Dict}
use common_services_common_u.Console.Pages.{has_id, free_id, keys_of, element_id, assign_ids}

-- The ids that are at least as long.
abbrev one_if : Bool → ℕ → ℕ
one_if true n = suc n
one_if false n = n

abbrev pub at_least : ℕ → List String → ℕ
at_least n [] = 0
at_least n (id ∷ ids) = one_if (leb n (count id)) (at_least n ids)

one_if_le : (a b : Bool) (x y : ℕ) → (a ≡ true → b ≡ true) → x ≤ y → one_if a x ≤ one_if b y
one_if_le true true x y h k = omega arith
one_if_le true false x y h k = cc (h refl)
one_if_le false true x y h k = omega arith
one_if_le false false x y h k = k

leb_le : (m n k : ℕ) → m ≤ n → leb n k ≡ true → leb m k ≡ true
leb_le m n k h e = ground arith

at_least_le : (m n : ℕ) (ids : List String) → m ≤ n → at_least n ids ≤ at_least m ids
at_least_le m n [] h = omega arith
at_least_le m n (id ∷ ids) h =
    one_if_le (leb n (count id)) (leb m (count id)) (at_least n ids) (at_least m ids)
      (leb_le m n (count id) h) (at_least_le m n ids h)

pub at_least_le_length : (n : ℕ) (ids : List String) → at_least n ids ≤ length ids
at_least_le_length n [] = omega arith
at_least_le_length n (id ∷ ids) =
    one_if_le (leb n (count id)) true (at_least n ids) (length ids) (λ e. refl)
      (at_least_le_length n ids)

-- An id that is there is not among the longer ones.
at_least_lt :
    (id : String) (n : ℕ) (ids : List String)
    → has_id id ids ≡ true
    → count id < n
    → at_least n ids < at_least (count id) ids
at_least_lt id n [] h k = cc
at_least_lt id n (i ∷ ids) h k = elim (Bool-cases (i == id)) [
  | inl e ↦
      let same : i ≡ id = (eq_iff i id).0 e in
      let short : leb n (count id) ≡ false = ground arith in
      let long : leb (count id) (count id) ≡ true = ground arith in
      rw (same, short, long) (omega (arith, at_least_le (count id) n ids (omega (arith, k))))
  | inr e ↦
      let le = leb_le (count id) n (count i) (omega (arith, k)) in
      one_if_lt (leb n (count i)) (leb (count id) (count i)) _ _ le
        (at_least_lt id n ids (rw e at h) k)
]
  where
    one_if_lt : (a b : Bool) (x y : ℕ) → (a ≡ true → b ≡ true) → x < y → one_if a x < one_if b y
    one_if_lt true true x y h k = omega arith
    one_if_lt true false x y h k = cc (h refl)
    one_if_lt false true x y h k = omega arith
    one_if_lt false false x y h k = k

count-append : (s t : String) → count (s ++ t) ≡ count s + count t
count-append [] t = rw nil-append (omega arith)
count-append (c ∷ s) t = rw cons-append (omega (arith, count-append s t))

longer : (id t : String) → count id < count (id ++ ("_" ++ t))
longer id t = omega (arith, count-append id ("_" ++ t), count-append "_" t)

-- What the loop finds: an id that is new.
abbrev pub Finds : Option (String × ℕ) → List String → Type 0
Finds o ids = (id : String) × (next : ℕ) × (o ≡ some (id, next)) × (has_id id ids ≡ false)

pub free_id-Finds :
    (fuel : ℕ) (ids : List String) (id : String) (counter : ℕ)
    → at_least (count id) ids < fuel
    → Finds (free_id fuel ids id counter) ids
unfolding free_id
free_id-Finds zero ids id counter h = absurd (omega (arith, h))
free_id-Finds (suc fuel) ids id counter h = elim (Bool-cases (has_id id ids)) [
  | inl e ↦
      let next = id ++ ("_" ++ decimal counter) in
      let lt = at_least_lt id (count next) ids e (longer id (decimal counter)) in
      rw e (free_id-Finds fuel ids next (suc counter) (omega (arith, lt, h)))
  | inr e ↦ rw e (id, counter, refl, e)
]

-- No id comes twice.
abbrev pub AreDistinct : List String → Type 0
AreDistinct [] = Unit
AreDistinct (id ∷ ids) = (has_id id ids ≡ false) × AreDistinct ids

has_id-append :
    (id : String) (xs ys : List String) → has_id id (List.◌++◌ xs ys) ≡ has_id id xs || has_id id ys
has_id-append id [] ys = refl
has_id-append id (x ∷ xs) ys = rw (has_id-append id xs ys) (ground arith)

pub AreDistinct-push :
    (ids : List String) (id : String)
    → AreDistinct ids
    → has_id id ids ≡ false
    → AreDistinct (List.◌++◌ ids (id ∷ []))
AreDistinct-push [] id h f = (refl, tt)
AreDistinct-push (i ∷ ids) id (e, h) f = (
  rw (has_id-append i ids (id ∷ [])) (ground (arith, eq_iff i id, eq_iff id i)),
  AreDistinct-push ids id h (ground arith),
)

-- Each resource has the id that addResource makes of its key.
abbrev pub HasElementIds : Dict String → Type 0
HasElementIds resources = All (λ (key, id). id ≡ element_id key) resources

HasElementIds-push :
    (resources : Dict String) (key : String)
    → HasElementIds resources
    → HasElementIds (List.◌++◌ resources ((key, element_id key) ∷ []))
HasElementIds-push [] key h = (refl, tt)
HasElementIds-push (r ∷ resources) key (e, h) = (e, HasElementIds-push resources key h)

keys_of-append :
    (resources : Dict String) (key id : String)
    → keys_of (List.◌++◌ resources ((key, id) ∷ [])) ≡ List.◌++◌ (keys_of resources) (key ∷ [])
keys_of-append [] key id = refl
keys_of-append ((k, i) ∷ resources) key id = ap (λ ks. k ∷ ks) (keys_of-append resources key id)

length-keys_of : (resources : Dict String) → length (keys_of resources) ≡ length resources
length-keys_of [] = refl
length-keys_of ((k, i) ∷ resources) = omega (arith, length-keys_of resources)

abbrev Assigns : ℕ → Option (Dict String) → Type 0
Assigns n o =
    (resources : Dict String) × (o ≡ some resources)
    × (length resources ≡ n)
    × AreDistinct (keys_of resources)
    × HasElementIds resources

assign_ids-Assigns :
    (fuel : ℕ) (names : List String) (resources : Dict String) (counter : ℕ)
    → length resources + length names < fuel
    → AreDistinct (keys_of resources)
    → HasElementIds resources
    → Assigns (length resources + length names) (assign_ids fuel names resources counter)
unfolding assign_ids
assign_ids-Assigns fuel [] resources counter h d w = (resources, refl, omega arith, d, w)
assign_ids-Assigns fuel (name ∷ names) resources counter h d w =
    let keys = keys_of resources in
    let (id, next, e, f) =
      free_id-Finds fuel keys name counter
        (omega (arith, h, length-keys_of resources, at_least_le_length (count name) keys)) in
    let more = List.◌++◌ resources ((id, element_id id) ∷ []) in
    let n : length more ≡ suc (length resources) =
      omega (arith, length-append resources ((id, element_id id) ∷ [])) in
    let distinct : AreDistinct (keys_of more) =
      rw (keys_of-append resources id (element_id id)) (AreDistinct-push keys id d f) in
    let (all, g, l, apart, written) =
      assign_ids-Assigns fuel names more next (omega (arith, n, h)) distinct
        (HasElementIds-push resources id w) in
    rw e (all, g, omega (arith, l, n), apart, written)

-- The loops over the resources end: with more fuel than there are resources each of them has an entry,
-- and no two have the same key, whatever their names are. The id of a resource is its key with an
-- underscore for each white space; two of these may be the same.
pub assign_ids_total :
    (fuel : ℕ) (names : List String) (counter : ℕ)
    → length names < fuel
    → (resources : Dict String) × (assign_ids fuel names [] counter ≡ some resources)
      × (length resources ≡ length names)
      × AreDistinct (keys_of resources)
      × HasElementIds resources
assign_ids_total fuel names counter h =
    let (resources, e, l, distinct, written) =
      assign_ids-Assigns fuel names [] counter (omega (arith, h)) tt tt in
    (resources, e, omega (arith, l), distinct, written)
