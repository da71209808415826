-- ===== src/Js/Dict/Distinct.antt =====
-- A dictionary that is only written through `put` and `delete` has each key once.
use common_services_common_u.Base.{String, ◌≡◌, ◌≢◌, refl, none, [], ◌∷◌, arith, eq_iff}
use common_services_common_u.Js.Dict.{Dict, get, put, delete}

abbrev pub IsFresh {ℓ} : {V : Type ℓ} → String → Dict V → Type ℓ
IsFresh k [] = Unit
IsFresh k ((j, v) ∷ d) = (j ≢ k) × IsFresh k d

abbrev pub HasDistinctKeys {ℓ} : {V : Type ℓ} → Dict V → Type ℓ
HasDistinctKeys [] = Unit
HasDistinctKeys ((j, v) ∷ d) = IsFresh j d × HasDistinctKeys d

module _ {ℓ} {V : Type ℓ} where
  put-IsFresh : (k j : String) (v : V) (d : Dict V) → j ≢ k → IsFresh k d → IsFresh k (put j v d)
  unfolding put
  put-IsFresh k j v [] h f = (h, tt)
  put-IsFresh k j v ((i, w) ∷ d) h (f, g) = ground (arith, put-IsFresh k j v d h g)

  delete-IsFresh : (k j : String) (d : Dict V) → IsFresh k d → IsFresh k (delete j d)
  unfolding delete
  delete-IsFresh k j [] f = tt
  delete-IsFresh k j ((i, w) ∷ d) (f, g) = ground (arith, delete-IsFresh k j d g)

  pub put-HasDistinctKeys :
      (k : String) (v : V) (d : Dict V) → HasDistinctKeys d → HasDistinctKeys (put k v d)
  unfolding put
  put-HasDistinctKeys k v [] h = (tt, tt)
  put-HasDistinctKeys k v ((j, w) ∷ d) (f, h) =
      ground
        (arith, eq_iff j k, put-HasDistinctKeys k v d h, λ (n : k ≢ j). put-IsFresh j k v d n f)

  pub delete-HasDistinctKeys :
      (k : String) (d : Dict V) → HasDistinctKeys d → HasDistinctKeys (delete k d)
  unfolding delete
  delete-HasDistinctKeys k [] h = tt
  delete-HasDistinctKeys k ((j, w) ∷ d) (f, h) =
      ground (arith, delete-HasDistinctKeys k d h, delete-IsFresh j k d f)

  -- A fresh key reads as undefined.
  pub get-IsFresh : (k : String) (d : Dict V) → IsFresh k d → get k d ≡ none
  unfolding get
  get-IsFresh k [] f = refl
  get-IsFresh k ((j, w) ∷ d) (f, g) = ground (arith, eq_iff j k, get-IsFresh k d g)
