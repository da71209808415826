-- ===== src/Models/Printed.antt =====
-- lib/swagger-client.js, Model.getMockSignature: which models are printed, and in which order.
use Prim.Native.String.{◌++◌}
use mathlib.Core.Path.{subst}
use mathlib.Core.List
use common_services_common_u.Base.{
  ℕ, zero, suc, String, ◌≡◌, refl, sym, ap, ◌∙◌, true, false, Option, none, some, List, [], ◌∷◌,
  map, eq_iff, arith, Bool-cases, Option-cases, inl, inr, All, append_assoc, append-nil,
  text_append_assoc, text_append-nil, nil-append,
}
use common_services_common_u.Js.Text.{join, join_more}
use common_services_common_u.Js.Dict.{Dict}
use common_services_common_u.Models.{
  Model, Property, name_of, properties_of, class_text, has_name, Signature, Call, model_of,
  append_model, append_models, get_mock_signature,
}
use common_services_common_u.Models.Total.{IsWithin, has_name-append, IsWithin-append}

-- No model of the list has a name that is ignored, or that a model before it has.
abbrev pub AreNew : List String → List Model → Type 0
AreNew ignored [] = Unit
AreNew ignored (m ∷ ms) =
    (has_name (name_of m) ignored ≡ false) × AreNew (List.◌++◌ ignored (name_of m ∷ [])) ms

map-append :
    {A : Type 0} (f : Model → A) (xs ys : List Model)
    → map f (List.◌++◌ xs ys) ≡ List.◌++◌ (map f xs) (map f ys)
map-append f [] ys = refl
map-append f (x ∷ xs) ys = ap (λ zs. f x ∷ zs) (map-append f xs ys)

abbrev texts : List Model → String
texts ms = join_more "<br>" (map class_text ms)

texts-append : (xs ys : List Model) → texts (List.◌++◌ xs ys) ≡ texts xs ++ texts ys
texts-append [] ys = sym (nil-append (texts ys))
texts-append (x ∷ xs) ys = rw (texts-append xs ys) (simp text_append_assoc)

AreNew-append :
    (ignored : List String) (xs ys : List Model)
    → AreNew ignored xs
    → AreNew (List.◌++◌ ignored (map name_of xs)) ys
    → AreNew ignored (List.◌++◌ xs ys)
AreNew-append ignored [] ys h k = rw (sym (append-nil ignored)) k
AreNew-append ignored (x ∷ xs) ys (e, h) k = (
  e,
  AreNew-append (List.◌++◌ ignored (name_of x ∷ [])) xs ys h
      (rw (append_assoc ignored (name_of x ∷ []) (map name_of xs)) k),
)

has_middle : (name : String) (xs ys : List String) → has_name name (List.◌++◌ xs (name ∷ ys)) ≡ true
has_middle name xs ys = rw (has_name-append name xs (name ∷ ys)) (ground (arith, eq_iff name name))

module _ (models : Dict Model) where
  -- The model that a property refers to has one of these names, if there is one.
  abbrev pub IsNamed : List String → Property → Type 0
  IsNamed names p = (m : Model) → model_of models p.ref ≡ some m → has_name (name_of m) names ≡ true

  -- The models that the properties of a model refer to have these names.
  abbrev pub IsClosed : List String → Model → Type 0
  IsClosed names m = All (IsNamed names) (properties_of m)

  IsNamed-mono :
      (xs ys : List String) (ps : List Property)
      → IsWithin xs ys
      → All (IsNamed xs) ps
      → All (IsNamed ys) ps
  IsNamed-mono xs ys [] w h = tt
  IsNamed-mono xs ys (p ∷ ps) w (h, k) = ((λ m e. w (name_of m) (h m e)), IsNamed-mono xs ys ps w k)

  IsClosed-mono :
      (xs ys : List String) (ms : List Model)
      → IsWithin xs ys
      → All (IsClosed xs) ms
      → All (IsClosed ys) ms
  IsClosed-mono xs ys [] w h = tt
  IsClosed-mono xs ys (m ∷ ms) w (h, k) =
      (IsNamed-mono xs ys (properties_of m) w h, IsClosed-mono xs ys ms w k)

  All-append :
      (names : List String) (xs ys : List Model)
      → All (IsClosed names) xs
      → All (IsClosed names) ys
      → All (IsClosed names) (List.◌++◌ xs ys)
  All-append names [] ys h k = k
  All-append names (x ∷ xs) ys (h, g) k = (h, All-append names xs ys g k)

  -- What the loop over the properties adds to a text and to the ignored names.
  abbrev Adds : List Property → String → List String → String → List String → Type 0
  Adds ps text ignored text' after =
      (ms : List Model) × (text' ≡ text ++ texts ms)
      × (after ≡ List.◌++◌ ignored (map name_of ms))
      × AreNew ignored ms
      × All (IsClosed after) ms
      × All (IsNamed after) ps

  -- What is printed for a model: its own text first, and then those of further models, with a line
  -- break between them. No name stands for two of them, and what any of them refers to is
  -- printed or was ignored before.
  abbrev pub IsPrinted : Model → List String → String → List String → Type 0
  IsPrinted m ignored text after =
      (ms : List Model) × (text ≡ join "<br>" (map class_text (m ∷ ms)))
      × (after ≡ List.◌++◌ ignored (map name_of (m ∷ ms)))
      × AreNew (List.◌++◌ ignored (name_of m ∷ [])) ms
      × All (IsClosed after) (m ∷ ms)

  abbrev IsPrinting : Call → Type 0
  IsPrinting call =
      (m : Model) (ignored : List String) (text : String) (after : List String)
      → call m ignored ≡ some (text, after)
      → IsPrinted m ignored text after

  Adds-IsWithin :
      (ignored after names : List String) → after ≡ List.◌++◌ ignored names → IsWithin ignored after
  Adds-IsWithin ignored after names e name h = rw e (IsWithin-append ignored names name h)

  IsNamed-of :
      (m : Model) (p : Property) (names : List String)
      → model_of models p.ref ≡ some m
      → has_name (name_of m) names ≡ true
      → IsNamed names p
  IsNamed-of m p names q h n r =
      let same : m ≡ n = cc in subst (λ k. has_name (name_of k) names ≡ true) same h

  -- A model that is printed, and behind it what the rest of the loop adds.
  Adds-model :
      (m : Model) (p : Property) (ps : List Property) (text t : String)
      (ignored names : List String) (text' : String) (after : List String)
      → model_of models p.ref ≡ some m
      → has_name (name_of m) ignored ≡ false
      → IsPrinted m ignored t names
      → Adds ps (text ++ ("<br>" ++ t)) names text' after
      → Adds (p ∷ ps) text ignored text' after
  Adds-model m p ps text t ignored names text' after q e (xs, a, b, c, d) (ys, f, g, h, k, l) =
      let w : IsWithin names after = Adds-IsWithin names after (map name_of ys) g in
      (
        List.◌++◌ (m ∷ xs) ys,
        f ∙ (rw (a, texts-append xs ys) (simp text_append_assoc)),
        g
            ∙ (rw (b, map-append name_of xs ys)
                (append_assoc ignored (map name_of (m ∷ xs)) (map name_of ys))),
        (
          e,
          AreNew-append (List.◌++◌ ignored (name_of m ∷ [])) xs ys c
              (rw (append_assoc ignored (name_of m ∷ []) (map name_of xs)) (rw b at h)),
        ),
        All-append after (m ∷ xs) ys (IsClosed-mono names after (m ∷ xs) w d) k,
        (
          IsNamed-of m p after q
              (w (name_of m) (rw b (has_middle (name_of m) ignored (map name_of xs)))),
          l,
        ),
      )

  append_model-Adds :
      (call : Call) (o : Option Model) (p : Property) (ps : List Property) (text : String)
      (ignored : List String) (later : String → List String → Signature) (text' : String)
      (after : List String)
      → IsPrinting call
      → model_of models p.ref ≡ o
      → ((t : String) (names : List String)
          → later t names ≡ some (text', after)
          → Adds ps t names text' after)
      → append_model models call o text ignored later ≡ some (text', after)
      → Adds (p ∷ ps) text ignored text' after
  append_model-Adds call none p ps text ignored later text' after h q k e =
      let (ms, a, b, c, d, f) = k text ignored e in (ms, a, b, c, d, ((λ m g. cc), f))
  append_model-Adds call (some m) p ps text ignored later text' after h q k e =
      elim (Bool-cases (has_name (name_of m) ignored)) [
        | inl t ↦
            let (ms, a, b, c, d, f) = k text ignored (rw t at e) in
            (
              ms,
              a,
              b,
              c,
              d,
              (
                IsNamed-of m p after q
                    (Adds-IsWithin ignored after (map name_of ms) b (name_of m) t),
                f,
              ),
            )
        | inr f ↦ elim (Option-cases (call m ignored)) [
          | inl n ↦ cc (rw (f, n) at e)
          | inr ((t, names), r) ↦
              Adds-model m p ps text t ignored names text' after q f (h m ignored t names r)
                (k (text ++ ("<br>" ++ t)) names (rw (f, r) at e))
        ]
      ]

  append_models-Adds :
      (call : Call) (ps : List Property) (text : String) (ignored : List String) (text' : String)
      (after : List String)
      → IsPrinting call
      → append_models models call ps text ignored ≡ some (text', after)
      → Adds ps text ignored text' after
  unfolding append_models
  append_models-Adds call [] text ignored text' after h e =
      let same : text ≡ text' = cc in
      let unchanged : ignored ≡ after = cc in
      (
        [],
        sym same ∙ sym (text_append-nil text),
        sym unchanged ∙ sym (append-nil ignored),
        tt,
        tt,
        tt,
      )
  append_models-Adds call (p ∷ ps) text ignored text' after h e =
      append_model-Adds call (model_of models p.ref) p ps text ignored
        (append_models models call ps) text' after h refl
        (λ t names r. append_models-Adds call ps t names text' after h r) e

  -- A signature that is returned is the text of the model itself, and then those of further models,
  -- with line breaks between them. No two of these have the same name, and none of the further ones
  -- has a name that was to be ignored; of every model that one of them refers to, the name is that of
  -- one of them, or was to be ignored. Afterwards the names of all of them are to be ignored.
  pub get_mock_signature-IsPrinted :
      (fuel : ℕ) (m : Model) (ignored : List String) (text : String) (after : List String)
      → get_mock_signature models fuel m ignored ≡ some (text, after)
      → IsPrinted m ignored text after
  unfolding get_mock_signature
  get_mock_signature-IsPrinted zero m ignored text after e = cc
  get_mock_signature-IsPrinted (suc fuel) m ignored text after e =
      let more = List.◌++◌ ignored (name_of m ∷ []) in
      let (ms, a, b, c, d, f) =
        append_models-Adds (get_mock_signature models fuel) (properties_of m) (class_text m) more
          text after (get_mock_signature-IsPrinted fuel) e in
      (ms, a, b ∙ append_assoc ignored (name_of m ∷ []) (map name_of ms), c, (f, d))
