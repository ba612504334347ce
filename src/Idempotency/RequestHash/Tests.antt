-- ===== src/Idempotency/RequestHash/Tests.antt =====
-- The request hash with names sorted by the codes of their characters.
use Prim.Native.String.{◌++◌, [], ◌∷◌}
use Prim.Native.Char.{code}
use text.Mathlib.TextEquality.{Char-path}
use surgepay.Common.{
  eq_iff, ◌≢◌, ◌==◌, ap₂, ltb, if◌then◌else◌, refl, arith, true, false, Bool, ◌≡◌, String,
}
use surgepay.Idempotency.RequestHash.Laws.{
  fields_end, generate_collision, alike_same, alike_obj, fields_field, fields_swap, generate-Alike,
  fields_trans, IsOrder, AlikeFields,
}
use surgepay.Messaging.Json.{null, end, bool, obj, num, str, whole, field, Fields, Number}
use surgepay.Idempotency.RequestHash.{
  join, property_text, insert_by_name, stringify_items, stringify_fields, deterministic_stringify,
  generate,
}

unfoldable comes_before : String → String → Bool
comes_before [] t = true
comes_before (c ∷ s) [] = false
comes_before (c ∷ s) (d ∷ t) =
    let rest = comes_before s t in
    if ltb (code c) (code d) then true else if ltb (code d) (code c) then false else rest

before_total : (a b : String) → comes_before a b ≡ false → comes_before b a ≡ true
unfolding comes_before
before_total [] b h = cc
before_total (c ∷ s) [] h = refl
before_total (c ∷ s) (d ∷ t) h = ground (arith, h, before_total s t)

before_trans :
    (a b c : String) → comes_before a b ≡ true → comes_before b c ≡ true → comes_before a c ≡ true
unfolding comes_before
before_trans [] b c h k = refl
before_trans (x ∷ a) [] c h k = cc
before_trans (x ∷ a) (y ∷ b) [] h k = cc
before_trans (x ∷ a) (y ∷ b) (z ∷ c) h k = ground (arith, h, k, before_trans a b c)

before_antisym : (a b : String) → comes_before a b ≡ true → comes_before b a ≡ true → a ≡ b
unfolding comes_before
before_antisym [] [] h k = refl
before_antisym [] (d ∷ t) h k = cc
before_antisym (c ∷ s) [] h k = cc
before_antisym (c ∷ s) (d ∷ t) h k =
    let codes : code c ≡ code d = ground (arith, h, k) in
    let first : comes_before s t ≡ true = ground (arith, h, codes) in
    let second : comes_before t s ≡ true = ground (arith, k, codes) in
    ap₂ ◌∷◌ (Char-path c d codes) (before_antisym s t first second)

comes_before-IsOrder : IsOrder comes_before
comes_before-IsOrder = record {
  total = before_total;
  antisym = before_antisym;
  trans = before_trans;
}

abbrev number_text : Number → String
number_text (whole n) = "1"
number_text _ = "0.5"

abbrev no_hash : String → String
no_hash text = text

abbrev body : Fields
body = field "b" (num (whole 1)) (field "a" (obj (field "y" null (field "x" (bool true) end))) end)

abbrev reordered : Fields
reordered =
    field "a" (obj (field "x" (bool true) (field "y" null end))) (field "b" (num (whole 1)) end)

generate_test :
    generate number_text comes_before no_hash body ≡ "{\"a\":{\"x\":true,\"y\":},\"b\":1}"
unfolding generate deterministic_stringify stringify_fields stringify_items insert_by_name
    comes_before join
generate_test = refl

-- `y ≢ x`, and `b ≢ a`.
apart : (a b : String) → (a == b) ≡ false → a ≢ b
apart a b h e = ground (arith, h, (eq_iff a b).1 e)

alike : AlikeFields body reordered
alike = fields_trans _ _ _ (fields_swap "b" "a" _ _ _ (apart "b" "a" refl)) (
    fields_field "a" _ _ _ _ (alike_obj _ _ (fields_swap "y" "x" _ _ _ (apart "y" "x" refl)))
      (fields_field "b" _ _ _ _ (alike_same _) fields_end))

generate-Alike_example :
    generate number_text comes_before no_hash body
    ≡ generate number_text comes_before no_hash reordered
generate-Alike_example =
    generate-Alike number_text comes_before comes_before-IsOrder no_hash body reordered alike

generate_collision_example :
    generate number_text comes_before no_hash
      (field "amount" (str "5") (field "currency" (str "EUR") end))
    ≡ generate number_text comes_before no_hash
        (field "amount" (str ("5" ++ ("," ++ property_text ("currency", "EUR")))) end)
unfolding comes_before
generate_collision_example =
    generate_collision number_text comes_before comes_before-IsOrder no_hash "amount" "currency" "5"
      "EUR" refl
