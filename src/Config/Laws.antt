-- ===== src/Config/Laws.antt =====
-- The sections that the services read, against the environment that `validate` returns.
use surgepay.Config.{enum_default, bind-eq-some, Zod, IsZod, Env}
use surgepay.Config.Sections.{
  OutboxConfig, DatabaseConfig, RedisConfig, LoggingConfig, SecurityConfig, KafkaVariables,
  HttpVariables, ServicesVariables, TelemetryVariables,
}
use surgepay.Config.Validation.{
  node_environments, Environment, validate, redis_schema, services_schema, telemetry_schema,
  security_schema, logging_schema, http_schema, database_schema, kafka_schema, outbox_schema,
}
use surgepay.Config.Settings.{
  database_config, telemetry_config, redis_config, services_config, http_config, kafka_config,
  security_config, logging_config, outbox_config,
}
use surgepay.Config.Fields.{
  through_level, through_natural, through_limit, through_url, through_url_default, through_optional,
  through_required, through_positive,
}
use surgepay.Common.{subst, ap, ◌==◌, false, List, String, some, ◌≡◌}
use surgepay.Config.Expected.{
  sockets_lem, brokers_lem, text_or-or_value, alive_lem, or_value, present_text,
  text_or-string_default, InRange, security_of, http_of, telemetry_of, kafka_of, Reads, services_of,
}

module _ (z : Zod) (laws : IsZod z) (env : Env) where
  outbox_checked :
      (c : OutboxConfig)
      → outbox_schema z env ≡ some c
      → (outbox_config env ≡ c) × InRange (outbox_config env)
  unfolding outbox_schema outbox_config
  outbox_checked c h =
      let (p0, h0) = through_positive z laws 499 (env "OUTBOX_POLLING_INTERVAL") _ h in
      let (p1, h1) = through_positive z laws 99 (env "OUTBOX_BATCH_SIZE") _ h0 in
      let (p2, h2) = through_positive z laws 2 (env "OUTBOX_RETRY_LIMIT") _ h1 in
      let (p3, h3) = through_positive z laws 4999 (env "OUTBOX_PUBLISH_TIMEOUT") _ h2 in
      let (p4, h4) = through_positive z laws 6 (env "OUTBOX_RETENTION_DAYS") _ h3 in
      let (p5, h5) = through_positive z laws 299999 (env "OUTBOX_STALE_TIMEOUT") _ h4 in
      let (p6, h6) = through_positive z laws 999 (env "OUTBOX_MAX_IN_FLIGHT_MESSAGES") _ h5 in
      let (p7, h7) = through_positive z laws 99 (env "OUTBOX_FLUSH_INTERVAL") _ h6 in
      (
        cc,
        record {
          polling_interval = p0;
          batch_size = p1;
          retry_limit = p2;
          publish_timeout = p3;
          retention_days = p4;
          stale_timeout_ms = p5;
          max_in_flight_messages = p6;
          flush_interval = p7;
        },
      )

  database_checked : (c : DatabaseConfig) → database_schema z env ≡ some c → database_config env ≡ c
  unfolding database_schema database_config
  database_checked c h =
      let (_, present, h0) = through_url z laws (env "DATABASE_URL") _ h in
      let h1 = through_optional z laws (env "DATABASE_PORT") _ h0 in
      let (_, h2) = through_positive z laws 9 (env "DATABASE_POOL_SIZE") _ h1 in
      let (_, h3) = through_positive z laws 4999 (env "DATABASE_CONNECT_TIMEOUT") _ h2 in
      let (_, h4) = through_positive z laws 29999 (env "DATABASE_IDLE_TIMEOUT") _ h3 in cc

  redis_checked : (c : RedisConfig) → redis_schema z env ≡ some c → redis_config env ≡ c
  unfolding redis_schema redis_config
  redis_checked c h = let (_, present, h0) = through_url z laws (env "REDIS_URL") _ h in cc

  logging_checked :
      (c : LoggingConfig)
      → logging_schema z env ≡ some c
      → (logging_config env ≡ c)
        × (env "LOG_SERVICE_NAME" ≡ some c.service_name)
        × ((c.service_name == "") ≡ false)
  unfolding logging_schema logging_config
  logging_checked c h =
      let h0 = through_level z laws (env "LOG_LEVEL") _ h in
      let (present, full, h1) =
        through_required z laws "surgepay-service" (env "LOG_SERVICE_NAME") _ h0 in
      (cc, cc, cc)

  security_checked :
      (c : SecurityConfig) → security_schema z env ≡ some c → security_config env ≡ security_of c
  unfolding security_schema security_config
  security_checked c h =
      let (present, full, h0) = through_required z laws "" (env "JWT_SECRET") _ h in
      let key = text_or-string_default "x-api-key" (env "API_KEY_HEADER") in cc

  kafka_checked :
      (split : String → List String) (trim : String → String) (c : KafkaVariables)
      → kafka_schema z env ≡ some c
      → kafka_config env split trim ≡ kafka_of split trim c
  unfolding kafka_schema kafka_config
  kafka_checked split trim c h =
      let (present, full, h0) = through_required z laws "" (env "KAFKA_BROKERS") _ h in
      let h1 = through_limit z laws (env "KAFKA_CONSUMER_RETRY_LIMIT") _ h0 in
      let client = text_or-string_default "surgepay" (env "KAFKA_CLIENT_ID") in
      let group =
        text_or-string_default "surgepay-consumer-group" (env "KAFKA_CONSUMER_GROUP_ID") in
      let brokers = brokers_lem split trim (env "KAFKA_BROKERS") _ present full in cc

  http_checked : (c : HttpVariables) → http_schema z env ≡ some c → http_config env ≡ http_of c
  unfolding http_schema http_config
  http_checked c h =
      let (_, h0) = through_positive z laws 2999 (env "PORT") _ h in
      let h1 = through_optional z laws (env "HTTP_KEEP_ALIVE_MAX_SOCKETS") _ h0 in
      let host = text_or-string_default "localhost" (env "HOST") in
      let prefix = text_or-string_default "api/v1" (env "API_PREFIX") in
      let kept = alive_lem (env "HTTP_KEEP_ALIVE") in
      let sockets = sockets_lem (env "HTTP_KEEP_ALIVE_MAX_SOCKETS") in cc

  telemetry_checked :
      (l : LoggingConfig) (c : TelemetryVariables)
      → env "LOG_SERVICE_NAME" ≡ some l.service_name
      → (l.service_name == "") ≡ false
      → telemetry_schema z env ≡ some c
      → telemetry_config env ≡ telemetry_of l c
  unfolding telemetry_schema telemetry_config
  telemetry_checked l c present full h =
      let h0 =
        through_url_default z laws "http://localhost:4318" (env "OTEL_EXPORTER_OTLP_ENDPOINT") _
          h in
      let name = present_text "surgepay-service" (env "LOG_SERVICE_NAME") _ present full in
      let other = text_or-or_value l.service_name (env "OTEL_SERVICE_NAME") in cc

  services_checked :
      (c : ServicesVariables)
      → services_schema z env ≡ some c
      → services_config env ≡ services_of (env "FRAUD_SERVICE_URL") c
  unfolding services_schema services_config
  services_checked c h =
      let h0 = through_url_default z laws "http://localhost:3000" (env "GATEWAY_URL") _ h in
      let h1 =
        through_url_default z laws "http://localhost:3001" (env "MERCHANT_SERVICE_URL") _ h0 in
      let h2 =
        through_url_default z laws "http://localhost:3003" (env "PAYMENT_SERVICE_URL") _ h1 in
      let h3 = through_url_default z laws "http://localhost:3004" (env "ORDER_SERVICE_URL") _ h2 in
      let h4 = through_url_default z laws "http://localhost:3005" (env "LEDGER_SERVICE_URL") _ h3 in
      let h5 =
        through_url_default z laws "http://localhost:3006" (env "BALANCE_SERVICE_URL") _ h4 in
      let h6 =
        through_url_default z laws "http://localhost:3007" (env "NOTIFICATION_SERVICE_URL") _ h5 in
      let (_, h7) = through_positive z laws 1999 (env "INTERNAL_REQUEST_TIMEOUT") _ h6 in
      let (_, h8) = through_natural z laws 3 (env "INTERNAL_REQUEST_RETRIES") _ h7 in
      let (_, h9) = through_natural z laws 100 (env "INTERNAL_REQUEST_RETRY_DELAY") _ h8 in cc

  -- What `validate` has checked is what the services read: where it accepts the environment, each
  -- section is the validated one, with the default in place of a text that is empty and of what the
  -- schema leaves undefined, and the numbers of the outbox are positive. Only the address of the fraud
  -- service is read unchecked.
  pub configs-validate :
      (split : String → List String) (trim : String → String) (e : Environment)
      → validate z env ≡ some e
      → Reads env split trim e
  unfolding validate
  configs-validate split trim e h =
      let (_, _, h0) =
        bind-eq-some (enum_default z node_environments "development" (env "NODE_ENV")) _ h in
      let (a, ha, h1) = bind-eq-some (database_schema z env) _ h0 in
      let (b, hb, h2) = bind-eq-some (redis_schema z env) _ h1 in
      let (c, hc, h3) = bind-eq-some (kafka_schema z env) _ h2 in
      let (d, hd, h4) = bind-eq-some (http_schema z env) _ h3 in
      let (l, hl, h5) = bind-eq-some (logging_schema z env) _ h4 in
      let (t, ht, h6) = bind-eq-some (telemetry_schema z env) _ h5 in
      let (s, hs, h7) = bind-eq-some (security_schema z env) _ h6 in
      let (v, hv, h8) = bind-eq-some (services_schema z env) _ h7 in
      let (o, ho, h9) = bind-eq-some (outbox_schema z env) _ h8 in
      let (logging, present, full) = logging_checked l hl in
      let (outbox, ranges) = outbox_checked o ho in
      subst (Reads env split trim) (ap (or_value e) h9) (record {
        database = database_checked a ha;
        redis = redis_checked b hb;
        kafka = kafka_checked split trim c hc;
        http = http_checked d hd;
        logging = logging;
        telemetry = telemetry_checked l t present full ht;
        security = security_checked s hs;
        services = services_checked v hv;
        outbox = outbox;
        ranges = ranges;
      })
