-- ===== src/Config/Settings.antt =====
-- The sections that the services read: packages/config/src/configs. `split` and `trim` are those of
-- strings.
use surgepay.Config.{Env, text_or, number_or, is_text, parsed}
use surgepay.Common.{Option, some, none, String, List, not, ◌||◌, ◌==◌, if◌then◌else◌, [], ◌∷◌, map}
use surgepay.Config.Validation.{is_unset}
use surgepay.Config.Sections.{
  OutboxConfig, DatabaseConfig, RedisConfig, LoggingConfig, SecurityConfig, KafkaConfig, HttpConfig,
  ServicesConfig, TelemetryConfig,
}

-- `process.env.X || other`
abbrev pub first_text : Option String → String → String
first_text v other = text_or other v

abbrev pub brokers_of : (String → List String) → (String → String) → Option String → List String
brokers_of split trim none = "localhost:29092" ∷ []
brokers_of split trim (some s) = if s == "" then "localhost:29092" ∷ [] else map trim (split s)

module _ (env : Env) where
  unfoldable pub database_config : DatabaseConfig
  database_config = record {
    url = env "DATABASE_URL";
    host = env "DATABASE_HOST";
    port = parsed (env "DATABASE_PORT");
    username = env "DATABASE_USER";
    password = env "DATABASE_PASSWORD";
    database = env "DATABASE_NAME";
    schema = env "DATABASE_SCHEMA";
    ssl = is_text "true" (env "DATABASE_SSL");
    pool_size = number_or 10 (env "DATABASE_POOL_SIZE");
    connect_timeout = number_or 5000 (env "DATABASE_CONNECT_TIMEOUT");
    idle_timeout = number_or 30000 (env "DATABASE_IDLE_TIMEOUT");
  }

  unfoldable pub redis_config : RedisConfig
  redis_config = record {
    url = env "REDIS_URL";
    password = env "REDIS_PASSWORD";
    tls = is_text "true" (env "REDIS_TLS");
  }

  unfoldable pub kafka_config : (String → List String) → (String → String) → KafkaConfig
  kafka_config split trim = record {
    brokers = brokers_of split trim (env "KAFKA_BROKERS");
    client_id = text_or "surgepay" (env "KAFKA_CLIENT_ID");
    ssl = is_text "true" (env "KAFKA_SSL");
    sasl = is_text "true" (env "KAFKA_SASL");
    consumer_group_id = text_or "surgepay-consumer-group" (env "KAFKA_CONSUMER_GROUP_ID");
    consumer_retry_limit = number_or 3 (env "KAFKA_CONSUMER_RETRY_LIMIT");
  }

  unfoldable pub http_config : HttpConfig
  http_config = record {
    port = number_or 3000 (env "PORT");
    host = text_or "localhost" (env "HOST");
    api_prefix = text_or "api/v1" (env "API_PREFIX");
    keep_alive = is_text "true" (env "HTTP_KEEP_ALIVE") || is_unset (env "HTTP_KEEP_ALIVE");
    max_sockets = number_or 100 (env "HTTP_KEEP_ALIVE_MAX_SOCKETS");
  }

  unfoldable pub logging_config : LoggingConfig
  logging_config = record {
    level = text_or "info" (env "LOG_LEVEL");
    pretty = is_text "true" (env "LOG_PRETTY");
    service_name = text_or "surgepay-service" (env "LOG_SERVICE_NAME");
  }

  unfoldable pub telemetry_config : TelemetryConfig
  telemetry_config = record {
    endpoint = text_or "http://localhost:4318" (env "OTEL_EXPORTER_OTLP_ENDPOINT");
    service_name =
        first_text (env "OTEL_SERVICE_NAME") (text_or "surgepay-service" (env "LOG_SERVICE_NAME"));
  }

  unfoldable pub security_config : SecurityConfig
  security_config = record {
    jwt_secret = text_or "" (env "JWT_SECRET");
    api_key_header = text_or "x-api-key" (env "API_KEY_HEADER");
    cors_enabled = not (is_text "false" (env "CORS_ENABLED"));
  }

  unfoldable pub services_config : ServicesConfig
  services_config = record {
    gateway_url = text_or "http://localhost:3000" (env "GATEWAY_URL");
    merchant_service_url = text_or "http://localhost:3001" (env "MERCHANT_SERVICE_URL");
    payment_service_url = text_or "http://localhost:3003" (env "PAYMENT_SERVICE_URL");
    order_service_url = text_or "http://localhost:3004" (env "ORDER_SERVICE_URL");
    ledger_service_url = text_or "http://localhost:3005" (env "LEDGER_SERVICE_URL");
    balance_service_url = text_or "http://localhost:3006" (env "BALANCE_SERVICE_URL");
    notification_service_url = text_or "http://localhost:3007" (env "NOTIFICATION_SERVICE_URL");
    fraud_service_url = text_or "http://localhost:3008" (env "FRAUD_SERVICE_URL");
    internal_request_timeout = number_or 2000 (env "INTERNAL_REQUEST_TIMEOUT");
    internal_request_retries = number_or 3 (env "INTERNAL_REQUEST_RETRIES");
    internal_request_retry_delay = number_or 100 (env "INTERNAL_REQUEST_RETRY_DELAY");
  }

  unfoldable pub outbox_config : OutboxConfig
  outbox_config = record {
    polling_interval = number_or 500 (env "OUTBOX_POLLING_INTERVAL");
    batch_size = number_or 100 (env "OUTBOX_BATCH_SIZE");
    retry_limit = number_or 3 (env "OUTBOX_RETRY_LIMIT");
    publish_timeout = number_or 5000 (env "OUTBOX_PUBLISH_TIMEOUT");
    retention_days = number_or 7 (env "OUTBOX_RETENTION_DAYS");
    stale_timeout_ms = number_or 300000 (env "OUTBOX_STALE_TIMEOUT");
    max_in_flight_messages = number_or 1000 (env "OUTBOX_MAX_IN_FLIGHT_MESSAGES");
    flush_interval = number_or 100 (env "OUTBOX_FLUSH_INTERVAL");
  }
