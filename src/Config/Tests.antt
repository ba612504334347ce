-- ===== src/Config/Tests.antt =====
-- A concrete environment, and tests of zod that behave as documented.
use surgepay.Common.{
  ◌*◌, ◌+◌, ◌⊎◌, ◌≤◌, ap, eq_iff, [], ◌-◌, suc, ◌∷◌, ◌≢◌, ◌<◌, leb, true, ◌&&◌, List, false, Bool,
  String, ℕ, not, if◌then◌else◌, refl, arith, ◌≡◌, ◌==◌, some, none,
}
use surgepay.Messaging.Json.{Number, whole, negative, nan, is_space}
use surgepay.Config.{Zod, IsZod, Env, listed, parse_int, unsigned, read_digits}
use surgepay.Config.Validation.{
  outbox_schema, services_schema, security_schema, telemetry_schema, logging_schema, http_schema,
  kafka_schema, redis_schema, database_schema, validate, Environment,
}
use surgepay.Config.Settings.{outbox_config}
use surgepay.Config.Expected.{Reads}
use surgepay.Config.Laws.{configs-validate}
use surgepay.Config.Drain.{after_cycle, after_cycle_lem, config_in, relay_config}
use surgepay.Outbox.Relay.{recovery_failed, Relay}
use surgepay.Outbox.Repository.{pending, OutboxEvent}
use surgepay.Outbox.Drain.{waiting}
use surgepay.Outbox.Tests.{event}

abbrev is_whole : Number → Bool
is_whole (whole n) = true
is_whole (negative n) = true
is_whole _ = false

abbrev above : ℕ → Number → Bool
above d (whole n) = leb d n
above d _ = false

abbrev is_defined : Number → Bool
is_defined nan = false
is_defined _ = true

abbrev zod : Zod
zod = record {
  is_number = is_defined;
  is_int = is_whole;
  is_positive = above 1;
  is_nonnegative = above 0;
  is_url = λ s. not (s == "");
  has_min = λ n s. not (s == "");
  is_in = listed;
}

above_positive : (n : Number) → is_whole n && above 1 n ≡ true → (m : ℕ) × (n ≡ whole (suc m))
above_positive (whole n) h = (n - 1, ap whole (ground (arith, h)))
above_positive (negative n) h = cc
above_positive _ h = cc

above_natural : (n : Number) → is_whole n && above 0 n ≡ true → (m : ℕ) × (n ≡ whole m)
above_natural (whole n) h = (n, refl)
above_natural (negative n) h = cc
above_natural _ h = cc

has_text : (s : String) → not (s == "") ≡ true → s ≢ ""
has_text s h e = ground (arith, h, eq_iff s "", e)

zod-IsZod : IsZod zod
zod-IsZod = record {
  number_nan = refl;
  positive = above_positive;
  nonnegative = above_natural;
  url = has_text;
  min = has_text;
  one_of = λ xs s. refl;
}

abbrev variables : Env
variables s =
    if s == "DATABASE_URL"
    then some "postgres://db"
    else if s == "REDIS_URL"
    then some "redis://cache"
    else if s == "KAFKA_BROKERS"
    then some "kafka:9092"
    else if s == "LOG_SERVICE_NAME"
    then some "outbox-relay"
    else if s == "JWT_SECRET"
    then some "secret"
    else if s == "OUTBOX_BATCH_SIZE"
    then some "25"
    else none

parse_int_test :
    (parse_int " 12px" ≡ whole 12) × (parse_int "-3" ≡ negative 3) × (parse_int "x" ≡ nan)
unfolding parse_int unsigned read_digits is_space
parse_int_test = (refl, refl, refl)

-- The whole environment validates, and the relay claims 25 events at a time.
abbrev validated : Environment
validated = record {
  node_env = "development";
  database = record {
    url = some "postgres://db";
    host = none;
    port = none;
    username = none;
    password = none;
    database = none;
    schema = none;
    ssl = false;
    pool_size = whole 10;
    connect_timeout = whole 5000;
    idle_timeout = whole 30000;
  };
  redis = record { url = some "redis://cache"; password = none; tls = false };
  kafka = record {
    brokers = "kafka:9092";
    client_id = "surgepay";
    ssl = false;
    sasl = false;
    consumer_group_id = "surgepay-consumer-group";
    consumer_retry_limit = whole 3;
  };
  http = record {
    port = whole 3000;
    host = "localhost";
    api_prefix = "api/v1";
    keep_alive = none;
    max_sockets = none;
  };
  logging = record { level = "info"; pretty = false; service_name = "outbox-relay" };
  telemetry = record { endpoint = "http://localhost:4318"; service_name = none };
  security = record { jwt_secret = "secret"; api_key_header = "x-api-key"; cors_enabled = true };
  services = record {
    gateway_url = "http://localhost:3000";
    merchant_service_url = "http://localhost:3001";
    payment_service_url = "http://localhost:3003";
    order_service_url = "http://localhost:3004";
    ledger_service_url = "http://localhost:3005";
    balance_service_url = "http://localhost:3006";
    notification_service_url = "http://localhost:3007";
    internal_request_timeout = whole 2000;
    internal_request_retries = whole 3;
    internal_request_retry_delay = whole 100;
  };
  outbox = record {
    polling_interval = whole 500;
    batch_size = whole 25;
    retry_limit = whole 3;
    publish_timeout = whole 5000;
    retention_days = whole 7;
    stale_timeout_ms = whole 300000;
    max_in_flight_messages = whole 1000;
    flush_interval = whole 100;
  };
}

validated_test : validate zod variables ≡ some validated
unfolding validate database_schema redis_schema kafka_schema http_schema logging_schema
    telemetry_schema security_schema services_schema outbox_schema parse_int unsigned read_digits
    is_space
validated_test = refl

abbrev on_commas : String → List String
on_commas s = s ∷ []

abbrev trimmed : String → String
trimmed s = s

configs-validate_example : Reads variables on_commas trimmed validated
configs-validate_example =
    configs-validate zod zod-IsZod variables on_commas trimmed validated validated_test

abbrev waiting_event : OutboxEvent
waiting_event = event "e-1" pending 0 0

abbrev relay : Relay
relay = record {
  outbox = waiting_event ∷ [];
  active_in_flight = 990;
  flights = [];
  polling = true;
  batches_spawned = 0;
}

room : relay.active_in_flight < (relay_config (outbox_config variables)).max_in_flight
unfolding relay_config outbox_config
room = omega arith

abbrev poll_times : List ℕ
poll_times = 1 ∷ 2 ∷ 3 ∷ 4 ∷ 5 ∷ 6 ∷ 7 ∷ 8 ∷ 9 ∷ 10 ∷ 11 ∷ []

abbrev cycled : Relay
cycled = after_cycle variables recovery_failed poll_times relay

after_cycle_lem_example :
    (cycled.polling ≡ false)
    × (cycled.active_in_flight ≤ (config_in variables).max_in_flight)
    × ((waiting cycled.outbox ≡ 0)
        ⊎ ((relay.active_in_flight < cycled.active_in_flight)
            × ((cycled.active_in_flight ≡ (config_in variables).max_in_flight)
                ⊎ (cycled.active_in_flight
                    ≡ relay.active_in_flight + 10 * (config_in variables).batch_size))))
after_cycle_lem_example =
    after_cycle_lem zod zod-IsZod variables validated recovery_failed relay poll_times
      validated_test (tt, tt) room (omega arith)

-- An environment whose batch size is zero is refused.
refused_test : validate zod (λ s. if s == "OUTBOX_BATCH_SIZE" then some "0" else variables s) ≡ none
unfolding validate database_schema redis_schema kafka_schema http_schema logging_schema
    telemetry_schema security_schema services_schema outbox_schema parse_int unsigned read_digits
    is_space
refused_test = refl
