-- ===== src/Context/Hops.antt =====
-- The ids of a request on its way through the services.
use Prim.Native.Char.{code}
use surgepay.Common.{
  ◌||◌, ◌&&◌, leb, true, Bool, String, false, Option, none, some, List, [], ◌∷◌, ◌==◌, ◌≡◌, ◌∙◌,
  refl, arith,
}
use surgepay.Context.{
  Headers, header, set_header, RequestContextStore, use_logging, authenticated, propagate_headers,
}
use surgepay.Gateway.Auth.{MerchantContext}

-- The names of the three ids, as the client writes them and as they arrive.
pub data IdName : String → String → Type 0 where
  request : IdName "X-Request-ID" "x-request-id"
  correlation : IdName "X-Correlation-ID" "x-correlation-id"
  merchant : IdName "X-Merchant-ID" "x-merchant-id"

-- A value that HTTP carries as it is: visible characters of Latin-1, the no-break space among them, and
-- no white space that is stripped.
unfoldable pub is_sendable : String → Bool
is_sendable String.[] = true
is_sendable (String.◌∷◌ c s) =
    ((leb 0x21 (code c) && leb (code c) 0x7e) || (leb 0xa0 (code c) && leb (code c) 0xff))
    && is_sendable s

-- What the code relies on of OpenTelemetry and of HTTP: the propagation of traces leaves the ids alone,
-- and a header with such a value arrives under its name in lower case.
pub record IsWire (inject transport : Headers → Headers) : Type 0 where
  pub injected :
      (upper lower : String) (hs : Headers)
      → IdName upper lower
      → header upper (inject hs) ≡ header upper hs
  pub arrives :
      (upper lower value : String) (hs : Headers)
      → IdName upper lower
      → is_sendable value ≡ true
      → header upper hs ≡ some value
      → header lower (transport hs) ≡ some value

-- The three ids of a store.
abbrev pub id_in : (upper lower : String) → IdName upper lower → RequestContextStore → Option String
id_in upper lower request store = some store.request_id
id_in upper lower correlation store = store.correlation_id
id_in upper lower merchant store = store.merchant_id

-- The store of the next service: it runs the middleware on the headers of a call for which the caller
-- gave none of its own.
unfoldable pub hop :
    (Headers → Headers)
    → (Headers → Headers)
    → String × String
    → RequestContextStore
    → RequestContextStore
hop inject transport drawn store =
    (use_logging none drawn.0 drawn.1 none (transport (propagate_headers inject store []))).store

-- One service after the other, each with the ids that it would draw.
unfoldable pub hops :
    (Headers → Headers)
    → (Headers → Headers)
    → List (String × String)
    → RequestContextStore
    → RequestContextStore
hops inject transport [] store = store
hops inject transport (drawn ∷ rest) store =
    hops inject transport rest (hop inject transport drawn store)

module _ (inject transport : Headers → Headers) (wire : IsWire inject transport) where
  sent :
      (upper lower value : String) (name : IdName upper lower) (store : RequestContextStore)
      → id_in upper lower name store ≡ some value
      → (value == "") ≡ false
      → header upper (propagate_headers inject store []) ≡ some value
  unfolding propagate_headers header set_header
  sent upper lower value request store h k = wire.injected _ _ _ request ∙ ground (arith, h, k)
  sent upper lower value correlation store h k =
      wire.injected _ _ _ correlation ∙ ground (arith, h, k)
  sent upper lower value merchant store h k = wire.injected _ _ _ merchant ∙ ground (arith, h, k)

  hop_keeps :
      (drawn : String × String) (upper lower value : String) (name : IdName upper lower)
      (store : RequestContextStore)
      → id_in upper lower name store ≡ some value
      → (value == "") ≡ false
      → is_sendable value ≡ true
      → id_in upper lower name (hop inject transport drawn store) ≡ some value
  unfolding hop use_logging
  hop_keeps drawn upper lower value request store h k p =
      let arrived = wire.arrives _ _ value _ request p (sent _ _ value request store h k) in
      ground (arith, arrived, k)
  hop_keeps drawn upper lower value correlation store h k p =
      let arrived = wire.arrives _ _ value _ correlation p (sent _ _ value correlation store h k) in
      ground (arith, arrived, k)
  hop_keeps drawn upper lower value merchant store h k p =
      let arrived = wire.arrives _ _ value _ merchant p (sent _ _ value merchant store h k) in
      ground (arith, arrived, k)

  -- An id of the context that is not empty, of visible characters of Latin-1, is the same in every service
  -- that the request reaches, however many lie on the way and whatever ids they would draw, where the
  -- calls set no headers of their own.
  pub hops_keep :
      (draws : List (String × String)) (upper lower value : String) (name : IdName upper lower)
      (store : RequestContextStore)
      → id_in upper lower name store ≡ some value
      → (value == "") ≡ false
      → is_sendable value ≡ true
      → id_in upper lower name (hops inject transport draws store) ≡ some value
  unfolding hops
  hops_keep [] upper lower value name store h k p = h
  hops_keep (drawn ∷ rest) upper lower value name store h k p =
      hops_keep rest upper lower value name (hop inject transport drawn store)
        (hop_keeps drawn upper lower value name store h k p) k p

  -- Whatever headers a client sends, also a merchant's: after the gateway has authenticated it as a
  -- merchant with an id that is not empty, of visible characters of Latin-1, every service behind sees
  -- that merchant.
  pub hops-authenticated :
      (draws : List (String × String)) (drawn_request drawn_correlation : String) (hs : Headers)
      (context : MerchantContext)
      → (context.merchant_id == "") ≡ false
      → is_sendable context.merchant_id ≡ true
      → (hops inject transport draws
          (authenticated context
            (use_logging none drawn_request drawn_correlation none hs)).store).merchant_id
        ≡ some context.merchant_id
  unfolding authenticated
  hops-authenticated draws drawn_request drawn_correlation hs context h p =
      hops_keep draws _ _ context.merchant_id merchant
        (authenticated context (use_logging none drawn_request drawn_correlation none hs)).store
        refl h p
