-- ===== src/Client/Ids.antt =====
-- lib/swagger-client.js, SwaggerClient.idFromOp: the names that operations get.
use Prim.Native.String.{[], ◌∷◌}
use mathlib.Core.Path.{ap₂}
use text.Mathlib.TextEquality.{Char-path}
use common_services_common_u.Base.{
  ℕ, Char, code, String, ◌≡◌, refl, sym, Bool, true, false, not, ◌||◌, some, ◌=?◌, =?_iff, ◌==◌,
  Bool-cases, inl, inr, arith,
}
use common_services_common_u.Js.Uri.Laws.{AllChars}
use common_services_common_u.Client.{
  is_replaced, id_char, replace_marks, Described, id_or_default, id_from_op,
}

abbrev pub is_id_char : ℕ → Bool
is_id_char c = not (is_replaced c) || c =? b'_'

or_true : (a : Bool) → (a || true) ≡ true
or_true a = ground arith

id_char-is_id_char : (c : Char) → is_id_char (code (id_char c)) ≡ true
id_char-is_id_char c = elim (Bool-cases (is_replaced (code c))) [
  | inl e ↦ rw e (or_true (not (is_replaced b'_')))
  | inr e ↦ rw (e, e) refl
]

replace_marks-AllChars : (s : String) → AllChars is_id_char (replace_marks s)
unfolding replace_marks
replace_marks-AllChars [] = tt
replace_marks-AllChars (c ∷ s) = (id_char-is_id_char c, replace_marks-AllChars s)

id_char_kept : (c : Char) → is_id_char (code c) ≡ true → id_char c ≡ c
id_char_kept c h = elim (Bool-cases (is_replaced (code c))) [
  | inl e ↦
      let same : (code c =? b'_') ≡ true = rw e at h in
      rw e (sym (Char-path c "_" ((=?_iff (code c) b'_').0 same)))
  | inr e ↦ rw e refl
]

replace_marks_kept : (s : String) → AllChars is_id_char s → replace_marks s ≡ s
unfolding replace_marks
replace_marks_kept [] h = refl
replace_marks_kept (c ∷ s) (h, k) = ap₂ (λ d t. d ∷ t) (id_char_kept c h) (replace_marks_kept s k)

-- The name of an operation has no white space and none of the marks that are replaced, but for the
-- underscore, whatever its path, its method and its `operationId` are.
pub id_from_op-AllChars :
    (path http_method : String) (op : Described)
    → AllChars is_id_char (id_from_op path http_method op)
unfolding id_from_op
id_from_op-AllChars path http_method op =
    replace_marks-AllChars (id_or_default path http_method op.operation_id)

-- An `operationId` that is not empty and has none of these marks is the name of its operation.
pub id_from_op_kept :
    (path http_method id : String) (op : Described)
    → op.operation_id ≡ some id
    → (id == "") ≡ false
    → AllChars is_id_char id
    → id_from_op path http_method op ≡ id
unfolding id_from_op
id_from_op_kept path http_method id op e n h = rw (e, n) (replace_marks_kept id h)
