-- ===== src/Config/Validation.antt =====
-- packages/config/src/schemas and `validate` of validation.ts, and the sections of configs. `none`
-- where `validate` throws. Texts of errors are left out.
use surgepay.Config.{
  Zod, Env, ◌>>=◌, positive_default, nonnegative_default, number_optional, is_positive_int, parsed,
  url, url_default, required, enum_default, string_default, is_text, tested, parse_int,
}
use surgepay.Common.{Option, some, none, String, List, Bool, true, false, not, ◌==◌, [], ◌∷◌}
use surgepay.Messaging.Json.{Number, whole}
use surgepay.Config.Sections.{
  OutboxConfig, DatabaseConfig, RedisConfig, LoggingConfig, SecurityConfig, KafkaVariables,
  HttpVariables, ServicesVariables, TelemetryVariables,
}

abbrev pub levels : List String
levels = "trace" ∷ "debug" ∷ "info" ∷ "warn" ∷ "error" ∷ "fatal" ∷ []

abbrev pub node_environments : List String
node_environments = "development" ∷ "production" ∷ "test" ∷ []

abbrev pub is_unset : Option String → Bool
is_unset none = true
is_unset (some s) = false

-- `(val) => (val === undefined ? undefined : val === 'true')`
abbrev pub optional_flag : Option String → Option Bool
optional_flag none = none
optional_flag (some s) = some (s == "true")

-- The limit of the consumer is any number; a text that is empty is not a number.
abbrev pub limit_default : Zod → Option String → Option Number
limit_default z none = tested (z.is_number (whole 3)) (whole 3)
limit_default z (some s) = tested (z.is_number (parse_int s)) (parse_int s)

-- The parsed environment, the variables grouped by their schemas.
pub record Environment : Type 0 where
  pub node_env : String
  pub database : DatabaseConfig
  pub redis : RedisConfig
  pub kafka : KafkaVariables
  pub http : HttpVariables
  pub logging : LoggingConfig
  pub telemetry : TelemetryVariables
  pub security : SecurityConfig
  pub services : ServicesVariables
  pub outbox : OutboxConfig

module _ (z : Zod) (env : Env) where
  unfoldable pub database_schema : Option DatabaseConfig
  database_schema = do
    database_url ← url z (env "DATABASE_URL")
    port ← number_optional z (is_positive_int z) (parsed (env "DATABASE_PORT"))
    pool_size ← positive_default z 10 (env "DATABASE_POOL_SIZE")
    connect_timeout ← positive_default z 5000 (env "DATABASE_CONNECT_TIMEOUT")
    idle_timeout ← positive_default z 30000 (env "DATABASE_IDLE_TIMEOUT")
    some (record {
      url = some database_url;
      host = env "DATABASE_HOST";
      port = port;
      username = env "DATABASE_USER";
      password = env "DATABASE_PASSWORD";
      database = env "DATABASE_NAME";
      schema = env "DATABASE_SCHEMA";
      ssl = is_text "true" (env "DATABASE_SSL");
      pool_size = pool_size;
      connect_timeout = connect_timeout;
      idle_timeout = idle_timeout;
    })

  unfoldable pub redis_schema : Option RedisConfig
  redis_schema = do
    redis_url ← url z (env "REDIS_URL")
    some (record {
      url = some redis_url;
      password = env "REDIS_PASSWORD";
      tls = is_text "true" (env "REDIS_TLS");
    })

  unfoldable pub kafka_schema : Option KafkaVariables
  kafka_schema = do
    brokers ← required z (env "KAFKA_BROKERS")
    retry_limit ← limit_default z (env "KAFKA_CONSUMER_RETRY_LIMIT")
    some (record {
      brokers = brokers;
      client_id = string_default "surgepay" (env "KAFKA_CLIENT_ID");
      ssl = is_text "true" (env "KAFKA_SSL");
      sasl = is_text "true" (env "KAFKA_SASL");
      consumer_group_id = string_default "surgepay-consumer-group" (env "KAFKA_CONSUMER_GROUP_ID");
      consumer_retry_limit = retry_limit;
    })

  unfoldable pub http_schema : Option HttpVariables
  http_schema = do
    port ← positive_default z 3000 (env "PORT")
    max_sockets ← number_optional z (is_positive_int z) (parsed (env "HTTP_KEEP_ALIVE_MAX_SOCKETS"))
    some (record {
      port = port;
      host = string_default "localhost" (env "HOST");
      api_prefix = string_default "api/v1" (env "API_PREFIX");
      keep_alive = optional_flag (env "HTTP_KEEP_ALIVE");
      max_sockets = max_sockets;
    })

  unfoldable pub logging_schema : Option LoggingConfig
  logging_schema = do
    level ← enum_default z levels "info" (env "LOG_LEVEL")
    service_name ← required z (env "LOG_SERVICE_NAME")
    some (record {
      level = level;
      pretty = is_text "true" (env "LOG_PRETTY");
      service_name = service_name;
    })

  unfoldable pub telemetry_schema : Option TelemetryVariables
  telemetry_schema = do
    endpoint ← url_default z "http://localhost:4318" (env "OTEL_EXPORTER_OTLP_ENDPOINT")
    some (record { endpoint = endpoint; service_name = env "OTEL_SERVICE_NAME" })

  unfoldable pub security_schema : Option SecurityConfig
  security_schema = do
    jwt_secret ← required z (env "JWT_SECRET")
    some (record {
      jwt_secret = jwt_secret;
      api_key_header = string_default "x-api-key" (env "API_KEY_HEADER");
      cors_enabled = not (is_text "false" (env "CORS_ENABLED"));
    })

  unfoldable pub services_schema : Option ServicesVariables
  services_schema = do
    gateway ← url_default z "http://localhost:3000" (env "GATEWAY_URL")
    merchant ← url_default z "http://localhost:3001" (env "MERCHANT_SERVICE_URL")
    payment ← url_default z "http://localhost:3003" (env "PAYMENT_SERVICE_URL")
    order ← url_default z "http://localhost:3004" (env "ORDER_SERVICE_URL")
    ledger ← url_default z "http://localhost:3005" (env "LEDGER_SERVICE_URL")
    balance ← url_default z "http://localhost:3006" (env "BALANCE_SERVICE_URL")
    notification ← url_default z "http://localhost:3007" (env "NOTIFICATION_SERVICE_URL")
    timeout ← positive_default z 2000 (env "INTERNAL_REQUEST_TIMEOUT")
    retries ← nonnegative_default z 3 (env "INTERNAL_REQUEST_RETRIES")
    delay ← nonnegative_default z 100 (env "INTERNAL_REQUEST_RETRY_DELAY")
    some (record {
      gateway_url = gateway;
      merchant_service_url = merchant;
      payment_service_url = payment;
      order_service_url = order;
      ledger_service_url = ledger;
      balance_service_url = balance;
      notification_service_url = notification;
      internal_request_timeout = timeout;
      internal_request_retries = retries;
      internal_request_retry_delay = delay;
    })

  unfoldable pub outbox_schema : Option OutboxConfig
  outbox_schema = do
    polling_interval ← positive_default z 500 (env "OUTBOX_POLLING_INTERVAL")
    batch_size ← positive_default z 100 (env "OUTBOX_BATCH_SIZE")
    retry_limit ← positive_default z 3 (env "OUTBOX_RETRY_LIMIT")
    publish_timeout ← positive_default z 5000 (env "OUTBOX_PUBLISH_TIMEOUT")
    retention_days ← positive_default z 7 (env "OUTBOX_RETENTION_DAYS")
    stale_timeout ← positive_default z 300000 (env "OUTBOX_STALE_TIMEOUT")
    max_in_flight ← positive_default z 1000 (env "OUTBOX_MAX_IN_FLIGHT_MESSAGES")
    flush_interval ← positive_default z 100 (env "OUTBOX_FLUSH_INTERVAL")
    some (record {
      polling_interval = polling_interval;
      batch_size = batch_size;
      retry_limit = retry_limit;
      publish_timeout = publish_timeout;
      retention_days = retention_days;
      stale_timeout_ms = stale_timeout;
      max_in_flight_messages = max_in_flight;
      flush_interval = flush_interval;
    })

  unfoldable pub validate : Option Environment
  validate = do
    node_env ← enum_default z node_environments "development" (env "NODE_ENV")
    database ← database_schema
    redis ← redis_schema
    kafka ← kafka_schema
    http ← http_schema
    logging ← logging_schema
    telemetry ← telemetry_schema
    security ← security_schema
    services ← services_schema
    outbox ← outbox_schema
    some (record {
      node_env = node_env;
      database = database;
      redis = redis;
      kafka = kafka;
      http = http;
      logging = logging;
      telemetry = telemetry;
      security = security;
      services = services;
      outbox = outbox;
    })
