-- ===== src/Client/Groups.antt =====
-- lib/swagger-client.js, SwaggerClient.buildFromSpec: which operations a tag has.
use mathlib.Core.List
use common_services_common_u.Base.{
  String, ◌≡◌, refl, sym, ap, ◌∙◌, Bool, ◌&&◌, Option, none, some, List, [], ◌∷◌, ◌==◌,
  if◌then◌else◌, any, Bool-cases, inl, inr, eq_iff, append-nil, append_assoc,
}
use common_services_common_u.Js.Dict.{Dict, get, put, get-put}
use common_services_common_u.Client.{
  Described, Bound, Group, Built, group_or_new, with_operation, is_method, go_on, bind_tag,
  bind_tags, tags_of, bound, bind_methods, bind_paths,
}

-- The operations of the tag, in the order in which they were bound.
abbrev pub operations_or_none : Option Group → List Bound
operations_or_none none = []
operations_or_none (some g) = g.operations

abbrev pub operations_of : String → Built → List Bound
operations_of tag b = operations_or_none (get tag b.groups)

-- An operation, once for each time that it has the tag.
abbrev pub copies : String → Bound → List String → List Bound
copies tag op [] = []
copies tag op (t ∷ tags) = List.◌++◌ (if t == tag then op ∷ [] else []) (copies tag op tags)

module _ (members : List String) (defined_tags : Dict String) where
  abbrev copies_of : String → String → String → Described → List Bound
  copies_of tag path http_method op =
      if is_method http_method
      then copies tag (bound members defined_tags path http_method op)
          (tags_of members defined_tags op.tags)
      else []

  abbrev copies_of_methods : String → String → Dict Described → List Bound
  copies_of_methods tag path [] = []
  copies_of_methods tag path ((http_method, op) ∷ methods) =
      List.◌++◌ (copies_of tag path http_method op) (copies_of_methods tag path methods)

  -- The operations of the description that have the tag, in its order.
  abbrev pub tagged : String → Dict (Dict Described) → List Bound
  tagged tag [] = []
  tagged tag ((path, methods) ∷ paths) =
      List.◌++◌ (copies_of_methods tag path methods) (tagged tag paths)

  -- What a step adds to the operations of a tag.
  abbrev Adds : String → Built → List Bound → Option Built → Type 0
  Adds tag b added o =
      (b' : Built) → o ≡ some b' → operations_of tag b' ≡ List.◌++◌ (operations_of tag b) added

  operations-with_operation :
      (op : Bound) (d : Option String) (o : Option Group)
      → (with_operation op (group_or_new d o)).operations
        ≡ List.◌++◌ (operations_or_none o) (op ∷ [])
  operations-with_operation op d none = refl
  operations-with_operation op d (some g) = refl

  operations_if :
      (t tag : String) (g : Group) (o : Option Group) (op : Bound)
      → (t ≡ tag → g.operations ≡ List.◌++◌ (operations_or_none o) (op ∷ []))
      → operations_or_none (if t == tag then some g else o)
        ≡ List.◌++◌ (operations_or_none o) (if t == tag then op ∷ [] else [])
  operations_if t tag g o op h = elim (Bool-cases (t == tag)) [
    | inl e ↦ rw e (h ((eq_iff t tag).0 e))
    | inr e ↦ rw e (sym (append-nil (operations_or_none o)))
  ]

  bind_tag-Adds :
      (tag t : String) (op : Bound) (b : Built)
      → Adds tag b (if t == tag then op ∷ [] else []) (bind_tag members defined_tags op t b)
  unfolding bind_tag
  bind_tag-Adds tag t op b b' h = elim (Bool-cases (any (λ m. m == t) members)) [
    | inl e ↦ cc (rw e at h)
    | inr e ↦
        let g = with_operation op (group_or_new (get t defined_tags) (get t b.groups)) in
        let same : put t g b.groups ≡ b'.groups = cc (rw e at h) in
        rw (sym same, get-put t tag g b.groups)
          (operations_if t tag g (get tag b.groups) op (λ q.
            operations-with_operation op (get t defined_tags) (get t b.groups)
            ∙ ap (λ k. List.◌++◌ (operations_or_none (get k b.groups)) (op ∷ [])) q))
  ]

  go_on-Adds :
      (tag : String) (b : Built) (first second : List Bound) (o : Option Built)
      (f : Built → Option Built)
      → Adds tag b first o
      → ((c : Built) → Adds tag c second (f c))
      → Adds tag b (List.◌++◌ first second) (go_on o f)
  go_on-Adds tag b first second none f h k b' e = cc
  go_on-Adds tag b first second (some c) f h k b' e =
      k c b' e
      ∙ (ap (λ xs. List.◌++◌ xs second) (h c refl)
          ∙ append_assoc (operations_of tag b) first second)

  Adds-nil : (tag : String) (b : Built) → Adds tag b [] (some b)
  Adds-nil tag b b' e =
      let same : b ≡ b' = cc in
      ap (operations_of tag) (sym same) ∙ sym (append-nil (operations_of tag b))

  bind_tags-Adds :
      (tag : String) (op : Bound) (tags : List String) (b : Built)
      → Adds tag b (copies tag op tags) (bind_tags members defined_tags op tags b)
  unfolding bind_tags
  bind_tags-Adds tag op [] b = Adds-nil tag b
  bind_tags-Adds tag op (t ∷ tags) b =
      go_on-Adds tag b (if t == tag then op ∷ [] else []) (copies tag op tags)
        (bind_tag members defined_tags op t b) (bind_tags members defined_tags op tags)
        (bind_tag-Adds tag t op b) (bind_tags-Adds tag op tags)

  bind_methods-Adds :
      (tag path : String) (methods : Dict Described) (b : Built)
      → Adds tag b
          (copies_of_methods tag path methods)
          (bind_methods members defined_tags path methods b)
  unfolding bind_methods
  bind_methods-Adds tag path [] b = Adds-nil tag b
  bind_methods-Adds tag path ((http_method, op) ∷ methods) b =
      elim (Bool-cases (is_method http_method)) [
        | inl e ↦ rw e (
            go_on-Adds tag b _ (copies_of_methods tag path methods) _ _
              (bind_tags-Adds tag (bound members defined_tags path http_method op)
                (tags_of members defined_tags op.tags) b)
              (bind_methods-Adds tag path methods))
        | inr e ↦ rw e (bind_methods-Adds tag path methods b)
      ]

  bind_paths-Adds :
      (tag : String) (paths : Dict (Dict Described)) (b : Built)
      → Adds tag b (tagged tag paths) (bind_paths members defined_tags paths b)
  unfolding bind_paths
  bind_paths-Adds tag [] b = Adds-nil tag b
  bind_paths-Adds tag ((path, methods) ∷ paths) b =
      go_on-Adds tag b (copies_of_methods tag path methods) (tagged tag paths) _ _
        (bind_methods-Adds tag path methods b) (bind_paths-Adds tag paths)

  -- A client that is built has, under each tag, the operations of the description that have the tag,
  -- or that have no tags if the tag is "default", in the order of the description; methods that
  -- HTTP does not name are left out, and an operation that names a tag twice is there twice.
  pub operations_of-bind_paths :
      (tag : String) (paths : Dict (Dict Described)) (b : Built)
      → bind_paths members defined_tags paths (record { apis = []; groups = [] }) ≡ some b
      → operations_of tag b ≡ tagged tag paths
  unfolding get
  operations_of-bind_paths tag paths b e = bind_paths-Adds tag paths _ b e

  -- A tag of an operation is the name of a member of the client.
  abbrev pub is_member : String → Bool
  is_member tag = any (λ m. m == tag) members

  abbrev pub method_uses_member : String → Described → Bool
  method_uses_member http_method op =
      is_method http_method && any is_member (tags_of members defined_tags op.tags)

  abbrev pub uses_member : Dict (Dict Described) → Bool
  uses_member paths = any (λ p. any (λ m. method_uses_member m.0 m.1) p.1) paths
