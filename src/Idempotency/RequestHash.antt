-- ===== src/Idempotency/RequestHash.antt =====
-- apps/idempotency-service/src/services/request-hash.service.ts. The text of a number and the order of
-- `sort` on names are parameters; `undefined` does not occur in a parsed body.
pub mod Laws
pub mod Tests
use Prim.Native.String.{◌++◌}
use surgepay.Common.{map, if◌then◌else◌, [], false, true, ◌∷◌, ◌∷◌, List, Bool, String}
use surgepay.Messaging.Json.{
  end, nil, null, field, cons, Items, arr, str, num, obj, bool, Json, Fields, Number,
}

-- `Array.prototype.join(',')`
unfoldable pub join : List String → String
join [] = ""
join (s ∷ []) = s
join (s ∷ t ∷ ts) = let rest = join (t ∷ ts) in s ++ ("," ++ rest)

-- A property as it is printed: `"name":text`.
abbrev pub property_text : String × String → String
property_text (name, text) = "\"" ++ (name ++ ("\":" ++ text))

abbrev pub bool_text : Bool → String
bool_text true = "true"
bool_text false = "false"

module _ (number_text : Number → String) (comes_before : String → String → Bool) where
  -- `Object.keys(...).sort()`, with the texts of the properties beside their names.
  unfoldable pub insert_by_name : String × String → List (String × String) → List (String × String)
  insert_by_name p [] = p ∷ []
  insert_by_name p (q ∷ qs) =
      let later = insert_by_name p qs in if comes_before p.0 q.0 then p ∷ q ∷ qs else q ∷ later

  unfoldable mutual
    pub deterministic_stringify : Json → String
    deterministic_stringify null = ""
    deterministic_stringify (bool b) = bool_text b
    deterministic_stringify (num n) = number_text n
    deterministic_stringify (str s) = s
    deterministic_stringify (arr vs) = "[" ++ (join (stringify_items vs) ++ "]")
    deterministic_stringify (obj fs) =
        "{" ++ (join (map property_text (stringify_fields fs)) ++ "}")

    pub stringify_items : Items → List String
    stringify_items nil = []
    stringify_items (cons v vs) = deterministic_stringify v ∷ stringify_items vs

    pub stringify_fields : Fields → List (String × String)
    stringify_fields end = []
    stringify_fields (field k v fs) =
        insert_by_name (k, deterministic_stringify v) (stringify_fields fs)

  -- `generate`, with SHA-256 as a parameter.
  unfoldable pub generate : (String → String) → Fields → String
  generate sha256 body = sha256 (deterministic_stringify (obj body))
