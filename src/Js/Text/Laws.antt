-- ===== src/Js/Text/Laws.antt =====
-- Laws of joining and splitting texts.
use Prim.Native.String.{[], ◌∷◌, ◌++◌}
use mathlib.Core.List
use common_services_common_u.Base.{
  String, ◌≡◌, refl, true, some, List, [], ◌∷◌, nil-append, cons-append, text_append_assoc, arith,
}
use common_services_common_u.Js.Text.{join_more, strip_prefix, starts_with}

pub join_more-append :
    (sep : String) (xs ys : List String)
    → join_more sep (List.◌++◌ xs ys) ≡ join_more sep xs ++ join_more sep ys
join_more-append sep [] ys = rw nil-append
join_more-append sep (x ∷ xs) ys = simp (join_more-append sep xs ys, text_append_assoc)

strip_prefix-append : (s t : String) → strip_prefix s (s ++ t) ≡ some t
unfolding strip_prefix
strip_prefix-append [] t = rw nil-append refl
strip_prefix-append (c ∷ s) t = rw cons-append (ground (arith, strip_prefix-append s t))

pub starts_with-append : (s t : String) → starts_with s (s ++ t) ≡ true
unfolding starts_with
starts_with-append s t = rw (starts_with, strip_prefix-append s t) refl
