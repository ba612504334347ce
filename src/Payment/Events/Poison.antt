-- ===== src/Payment/Events/Poison.antt =====
-- How a header of a client reaches the outbox.
use surgepay.Common.{
  ℕ, String, Bool, true, false, some, none, List, [], ◌∷◌, ◌++◌, ◌≡◌, arith, ◌==◌,
}
use surgepay.Context.{Headers, header, use_logging, RequestContextStore}
use surgepay.Context.Hops.{IsWire, is_sendable, hops, hops_keep, correlation}
use surgepay.Messaging.Json.{is_blank}
use surgepay.Messaging.Producer.{Answer, TopicMessages}
use surgepay.Outbox.Repository.{OutboxEvent}
use surgepay.Outbox.Publisher.{publish_events}
use surgepay.Outbox.Publisher.Places.{is_rejected}
use surgepay.Payment.{PaymentEvent, new_event, new_payment, Context, Request}
use surgepay.Payment.Events.{row_of}
use surgepay.Payment.Events.Blank.{blank_event_fails_batch}

-- What `RequestContextService` reads of the store.
abbrev pub context_of : RequestContextStore → Context
context_of store = record {
  request_id = some store.request_id;
  correlation_id = store.correlation_id;
  merchant_id = store.merchant_id;
}

event_is_blank :
    (store : RequestContextStore) (value : String) (trim : String → String)
    (payment_id event_id : String) (r : Request) (merchant order : String)
    → store.correlation_id ≡ some value
    → (value == "") ≡ false
    → is_blank value ≡ true
    → is_blank
        (new_event event_id
          (new_payment trim payment_id (context_of store) r merchant)
          order
          r.payment_method).correlation_id
      ≡ true
unfolding new_event new_payment
event_is_blank store value trim payment_id event_id r merchant order h k blank = rw h (rw k blank)

entered_correlation :
    (drawn : String × String) (hs : Headers) (value : String)
    → header "x-correlation-id" hs ≡ some value
    → (value == "") ≡ false
    → (use_logging none drawn.0 drawn.1 none hs).store.correlation_id ≡ some value
unfolding use_logging
entered_correlation drawn hs value h k = ground (arith, h, k)

module _ (inject transport : Headers → Headers) where
  -- The event of a payment that a request with these headers makes, behind any number of services.
  abbrev pub event_for :
      List (String × String)
      → String × String
      → Headers
      → (String → String)
      → String
      → String
      → Request
      → String
      → String
      → PaymentEvent
  event_for draws drawn hs trim payment_id event_id r merchant order =
      new_event event_id
        (new_payment trim payment_id
          (context_of
            (hops inject transport draws (use_logging none drawn.0 drawn.1 none hs).store))
          r merchant)
        order r.payment_method

module _ (inject transport : Headers → Headers) (wire : IsWire inject transport) where
  correlation_of_header :
      (draws : List (String × String)) (drawn : String × String) (hs : Headers) (value : String)
      → header "x-correlation-id" hs ≡ some value
      → (value == "") ≡ false
      → is_sendable value ≡ true
      → (hops inject transport draws
          (use_logging none drawn.0 drawn.1 none hs).store).correlation_id
        ≡ some value
  correlation_of_header draws drawn hs value h k p =
      hops_keep inject transport wire draws _ _ value correlation
        (use_logging none drawn.0 drawn.1 none hs).store (entered_correlation drawn hs value h k) k
        p

  -- A header that a client sends fails a batch: where a request carries a correlation id that is blank
  -- and not empty, and that HTTP carries as it is, such as a no-break space, the event of its payment has that id behind any number of services, and a batch of
  -- the relay that holds the event hands nothing to the broker and is rejected.
  pub blank_header_fails_batch :
      (draws : List (String × String)) (drawn : String × String) (hs : Headers) (value : String)
      (trim : String → String) (payment_id event_id : String) (r : Request)
      (merchant order : String) (is_date : String → Bool) (timestamp : String)
      (broker : List TopicMessages → Answer) (before after : List OutboxEvent) (now : ℕ)
      → header "x-correlation-id" hs ≡ some value
      → (value == "") ≡ false
      → is_sendable value ≡ true
      → is_blank value ≡ true
      → let row =
          row_of now timestamp
            (event_for inject transport draws drawn hs trim payment_id event_id r merchant order) in
        ((publish_events is_date broker (before ++ row ∷ after)).0 ≡ [])
        × (is_rejected (publish_events is_date broker (before ++ row ∷ after)).1 ≡ true)
  blank_header_fails_batch draws drawn hs value trim payment_id event_id r merchant order is_date
        timestamp broker before after now h k p blank =
      blank_event_fails_batch is_date timestamp broker before after now
        (event_for inject transport draws drawn hs trim payment_id event_id r merchant order)
        (event_is_blank
          (hops inject transport draws (use_logging none drawn.0 drawn.1 none hs).store) value trim
          payment_id event_id r merchant order (correlation_of_header draws drawn hs value h k p) k
          blank)
