-- ===== src/Idempotency/RequestHash/Laws.antt =====
-- The hash does not depend on the order of names, and different bodies can share it.
use surgepay.Messaging.Json.{str, field, end, cons, nil, obj, Fields, arr, Items, Json, Number}
use Prim.Native.String.{◌++◌}
use text.Mathlib.TextLemmas.{append_assoc}
use surgepay.Common.{
  ◌∙◌, ap₂, map, ap, not, arith, refl, [], ◌∷◌, inr, inl, Bool-cases, true, ◌≢◌, false, List, ◌≡◌,
  Bool, String,
}
use surgepay.Idempotency.RequestHash.{
  property_text, join, stringify_fields, stringify_items, deterministic_stringify, generate,
  insert_by_name,
}

-- `sort` puts names in a total order.
pub record IsOrder (comes_before : String → String → Bool) : Type 0 where
  pub total : (a b : String) → comes_before a b ≡ false → comes_before b a ≡ true
  pub antisym : (a b : String) → comes_before a b ≡ true → comes_before b a ≡ true → a ≡ b
  pub trans :
      (a b c : String) → comes_before a b ≡ true → comes_before b c ≡ true → comes_before a c ≡ true

-- Two values that differ only in the order of the names of their objects, at any depth.
mutual
  pub data Alike : Json → Json → Type 0 where
    alike_same : (j : Json) → Alike j j
    alike_arr : (vs ws : Items) → AlikeItems vs ws → Alike (arr vs) (arr ws)
    alike_obj : (fs gs : Fields) → AlikeFields fs gs → Alike (obj fs) (obj gs)

  pub data AlikeItems : Items → Items → Type 0 where
    items_nil : AlikeItems nil nil
    items_cons :
        (v w : Json) (vs ws : Items)
        → Alike v w
        → AlikeItems vs ws
        → AlikeItems (cons v vs) (cons w ws)

  pub data AlikeFields : Fields → Fields → Type 0 where
    fields_end : AlikeFields end end
    fields_field :
        (k : String) (v w : Json) (fs gs : Fields)
        → Alike v w
        → AlikeFields fs gs
        → AlikeFields (field k v fs) (field k w gs)
    fields_swap :
        (k l : String) (v w : Json) (fs : Fields)
        → k ≢ l
        → AlikeFields (field k v (field l w fs)) (field l w (field k v fs))
    fields_trans : (fs gs hs : Fields) → AlikeFields fs gs → AlikeFields gs hs → AlikeFields fs hs

module _ (number_text : Number → String) (comes_before : String → String → Bool)
    (order : IsOrder comes_before) where
  opposite : (a b : String) → a ≢ b → comes_before b a ≡ not (comes_before a b)
  opposite a b apart = elim (Bool-cases (comes_before a b)) [
    | inr first ↦ rw (first, order.total a b first) refl
    | inl first ↦ elim (Bool-cases (comes_before b a)) [
      | inl second ↦ absurd (apart (order.antisym a b first second))
      | inr second ↦ rw (first, second) refl
    ]
  ]

  insert_swap :
      (p q : String × String) (l : List (String × String))
      → p.0 ≢ q.0
      → insert_by_name number_text comes_before p (insert_by_name number_text comes_before q l)
        ≡ insert_by_name number_text comes_before q (insert_by_name number_text comes_before p l)
  unfolding insert_by_name
  insert_swap p q [] apart = ground (arith, opposite p.0 q.0 apart)
  insert_swap p q (x ∷ xs) apart = ground (
    arith,
    opposite p.0 q.0 apart,
    order.trans q.0 p.0 x.0,
    order.trans p.0 q.0 x.0,
    insert_swap p q xs apart,
  )

  mutual
    unfolding deterministic_stringify stringify_items stringify_fields

    Alike-stringify :
        (i j : Json)
        → Alike i j
        → deterministic_stringify number_text comes_before i
          ≡ deterministic_stringify number_text comes_before j
    Alike-stringify i j (alike_same k) = refl
    Alike-stringify i j (alike_arr vs ws h) =
        ap (λ ts. "[" ++ (join ts ++ "]")) (AlikeItems-stringify vs ws h)
    Alike-stringify i j (alike_obj fs gs h) =
        ap (λ ts. "{" ++ (join (map property_text ts) ++ "}")) (AlikeFields-stringify fs gs h)

    AlikeItems-stringify :
        (vs ws : Items)
        → AlikeItems vs ws
        → stringify_items number_text comes_before vs ≡ stringify_items number_text comes_before ws
    AlikeItems-stringify vs ws items_nil = refl
    AlikeItems-stringify vs ws (items_cons v w xs ys h k) =
        ap₂ ◌∷◌ (Alike-stringify v w h) (AlikeItems-stringify xs ys k)

    AlikeFields-stringify :
        (fs gs : Fields)
        → AlikeFields fs gs
        → stringify_fields number_text comes_before fs
          ≡ stringify_fields number_text comes_before gs
    AlikeFields-stringify fs gs fields_end = refl
    AlikeFields-stringify fs gs (fields_field k v w xs ys h t) =
        ap₂ (λ text rest. insert_by_name number_text comes_before (k, text) rest)
          (Alike-stringify v w h) (AlikeFields-stringify xs ys t)
    AlikeFields-stringify fs gs (fields_swap k l v w xs apart) = insert_swap _ _ _ apart
    AlikeFields-stringify fs gs (fields_trans xs ys zs h t) =
        AlikeFields-stringify xs ys h ∙ AlikeFields-stringify ys zs t

  -- Bodies that differ only in the order of the names of their objects, at any depth, have the same hash,
  -- where names are sorted by a total order.
  pub generate-Alike :
      (sha256 : String → String) (fs gs : Fields)
      → AlikeFields fs gs
      → generate number_text comes_before sha256 fs ≡ generate number_text comes_before sha256 gs
  unfolding generate
  generate-Alike sha256 fs gs h = ap sha256 (Alike-stringify (obj fs) (obj gs) (alike_obj fs gs h))

  -- A body with two texts and one with a single text have the same hash, whatever the hash function: the
  -- texts are printed without quotes, so the one may hold what prints as the other property.
  pub generate_collision :
      (sha256 : String → String) (a b x y : String)
      → comes_before a b ≡ true
      → generate number_text comes_before sha256 (field a (str x) (field b (str y) end))
        ≡ generate number_text comes_before sha256
            (field a (str (x ++ ("," ++ property_text (b, y)))) end)
  unfolding generate deterministic_stringify stringify_fields insert_by_name join
  generate_collision sha256 a b x y first =
      let rest = "," ++ property_text (b, y) in
      ap sha256 (
        rw first (
          ap (λ t. "{" ++ (t ++ "}"))
            (append_assoc "\"" (a ++ ("\":" ++ x)) rest
              ∙ ap (λ t. "\"" ++ t)
                  (append_assoc a ("\":" ++ x) rest
                    ∙ ap (λ t. a ++ t) (append_assoc "\":" x rest)))))
