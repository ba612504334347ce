-- ===== src/Gateway/Interceptor/Cached.antt =====
-- What a replayed response carries, described apart from the code that caches it.
use surgepay.Common.{
  ℕ, String, Bool, true, false, not, ◌||◌, ◌==◌, Option, none, some, List, [], ◌∷◌, map, keep, ◌≡◌,
  refl, ap, arith, if◌then◌else◌, zero, suc,
}
use surgepay.Messaging.Json.{
  Json, Fields, Number, null, bool, num, str, arr, obj, field, end, whole, between, negative, nan,
  written,
}
use surgepay.Gateway.Interceptor.{
  HeaderValue, text, number, texts, comma_joined, header_text, headers_to_cache, received,
  response_for,
}
use Prim.Native.String

-- The headers of a connection, which are not cached.
abbrev not_cached : List String
not_cached = "connection" ∷ "keep-alive" ∷ "transfer-encoding" ∷ "date" ∷ "x-powered-by" ∷ []

abbrev listed_in : List String → String → Bool
listed_in [] name = false
listed_in (x ∷ xs) name = name == x || listed_in xs name

-- Texts with a comma between them.
abbrev listing : String → List String → String
listing s [] = s
listing s (t ∷ ts) = String.◌++◌ s (String.◌++◌ "," (listing t ts))

abbrev shown : (Number → String) → HeaderValue → String
shown number_text (text s) = s
shown number_text (number n) = number_text n
shown number_text (texts []) = ""
shown number_text (texts (s ∷ ss)) = listing s ss

abbrev object_of : List (String × String) → Fields
object_of [] = end
object_of ((k, v) ∷ rest) = field k (str v) (object_of rest)

-- The headers of the first response but those of its connection, as texts.
abbrev pub cached_headers : (Number → String) → List (String × HeaderValue) → Fields
cached_headers number_text headers =
    object_of
      (map (λ h. (h.0, shown number_text h.1)) (keep (λ h. not (listed_in not_cached h.0)) headers))

-- The body as JSON writes it; a missing or falsy one has become an empty object.
abbrev pub cached_body : Option Json → Json
cached_body none = obj end
cached_body (some null) = obj end
cached_body (some (bool false)) = obj end
cached_body (some (bool true)) = bool true
cached_body (some (num (whole zero))) = obj end
cached_body (some (num (whole (suc n)))) = num (whole (suc n))
cached_body (some (num (between n))) = num (between n)
cached_body (some (num (negative n))) = num (negative n)
cached_body (some (num nan)) = obj end
cached_body (some (str s)) = if s == "" then obj end else str s
cached_body (some (arr vs)) = written (arr vs)
cached_body (some (obj fs)) = written (obj fs)

comma_joined_lem : (s : String) (ss : List String) → comma_joined (s ∷ ss) ≡ listing s ss
unfolding comma_joined
comma_joined_lem s [] = refl
comma_joined_lem s (t ∷ ts) =
    ap (λ rest. String.◌++◌ s (String.◌++◌ "," rest)) (comma_joined_lem t ts)

header_text_lem :
    (number_text : Number → String) (v : HeaderValue)
    → header_text number_text v ≡ shown number_text v
unfolding comma_joined
header_text_lem number_text (text s) = refl
header_text_lem number_text (number n) = refl
header_text_lem number_text (texts []) = refl
header_text_lem number_text (texts (s ∷ ss)) = comma_joined_lem s ss

pub headers_to_cache_lem :
    (number_text : Number → String) (headers : List (String × HeaderValue))
    → headers_to_cache number_text headers ≡ cached_headers number_text headers
unfolding headers_to_cache keep
headers_to_cache_lem number_text [] = refl
headers_to_cache_lem number_text ((k, v) ∷ rest) =
    ground (arith, header_text_lem number_text v, headers_to_cache_lem number_text rest)

pub received_body :
    (number_text : Number → String) (status : ℕ) (headers : List (String × HeaderValue))
    (body : Option Json)
    → (received (response_for number_text status headers body)).body ≡ cached_body body
unfolding written
received_body number_text status headers none = refl
received_body number_text status headers (some null) = refl
received_body number_text status headers (some (bool false)) = refl
received_body number_text status headers (some (bool true)) = refl
received_body number_text status headers (some (num (whole zero))) = refl
received_body number_text status headers (some (num (whole (suc n)))) = refl
received_body number_text status headers (some (num (between n))) = refl
received_body number_text status headers (some (num (negative n))) = refl
received_body number_text status headers (some (num nan)) = refl
received_body number_text status headers (some (str s)) = ground arith
received_body number_text status headers (some (arr vs)) = refl
received_body number_text status headers (some (obj fs)) = refl
