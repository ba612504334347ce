-- ===== src/Config/Expected.antt =====
-- How the sections that the services read are meant to follow from the validated environment.
use surgepay.Common.{
  Option, some, none, String, List, Bool, true, false, ◌||◌, ◌==◌, if◌then◌else◌, map, ◌≡◌, refl,
  sym, ap, ◌∙◌, inl, inr, Bool-cases,
}
use surgepay.Config.{Env, text_or, number_or, string_default, parsed, is_text}
use surgepay.Config.Sections.{
  OutboxConfig, LoggingConfig, SecurityConfig, KafkaVariables, KafkaConfig, HttpVariables,
  HttpConfig, ServicesVariables, ServicesConfig, TelemetryVariables, TelemetryConfig,
}
use surgepay.Config.Fields.{AtLeastOne}
use surgepay.Messaging.Json.{whole}
use surgepay.Config.Validation.{optional_flag, is_unset, Environment}
use surgepay.Config.Settings.{
  outbox_config, services_config, security_config, telemetry_config, logging_config, http_config,
  kafka_config, redis_config, database_config, brokers_of,
}

-- Numbers that the relay's loops rely on.
pub record InRange (c : OutboxConfig) : Type 0 where
  pub polling_interval : AtLeastOne c.polling_interval
  pub batch_size : AtLeastOne c.batch_size
  pub retry_limit : AtLeastOne c.retry_limit
  pub publish_timeout : AtLeastOne c.publish_timeout
  pub retention_days : AtLeastOne c.retention_days
  pub stale_timeout_ms : AtLeastOne c.stale_timeout_ms
  pub max_in_flight_messages : AtLeastOne c.max_in_flight_messages
  pub flush_interval : AtLeastOne c.flush_interval

-- A validated text, with the default where it is empty.
abbrev or_default : String → String → String
or_default d s = if s == "" then d else s

abbrev pub security_of : SecurityConfig → SecurityConfig
security_of c = record c { api_key_header = or_default "x-api-key" c.api_key_header }

abbrev pub kafka_of : (String → List String) → (String → String) → KafkaVariables → KafkaConfig
kafka_of split trim c = record {
  brokers = map trim (split c.brokers);
  client_id = or_default "surgepay" c.client_id;
  ssl = c.ssl;
  sasl = c.sasl;
  consumer_group_id = or_default "surgepay-consumer-group" c.consumer_group_id;
  consumer_retry_limit = c.consumer_retry_limit;
}

abbrev pub or_value {ℓ} : {A : Type ℓ} → A → Option A → A
or_value a none = a
or_value a (some b) = b

abbrev pub http_of : HttpVariables → HttpConfig
http_of c = record {
  port = c.port;
  host = or_default "localhost" c.host;
  api_prefix = or_default "api/v1" c.api_prefix;
  keep_alive = or_value true c.keep_alive;
  max_sockets = or_value (whole 100) c.max_sockets;
}

abbrev pub telemetry_of : LoggingConfig → TelemetryVariables → TelemetryConfig
telemetry_of l c = record {
  endpoint = c.endpoint;
  service_name = or_default l.service_name (or_value "" c.service_name);
}

abbrev pub services_of : Option String → ServicesVariables → ServicesConfig
services_of fraud_url c = record {
  gateway_url = c.gateway_url;
  merchant_service_url = c.merchant_service_url;
  payment_service_url = c.payment_service_url;
  order_service_url = c.order_service_url;
  ledger_service_url = c.ledger_service_url;
  balance_service_url = c.balance_service_url;
  notification_service_url = c.notification_service_url;
  fraud_service_url = text_or "http://localhost:3008" fraud_url;
  internal_request_timeout = c.internal_request_timeout;
  internal_request_retries = c.internal_request_retries;
  internal_request_retry_delay = c.internal_request_retry_delay;
}

if_same {ℓ} : {A : Type ℓ} (b : Bool) (a : A) → (if b then a else a) ≡ a
if_same true a = refl
if_same false a = refl

pub text_or-string_default :
    (d : String) (v : Option String) → text_or d v ≡ or_default d (string_default d v)
text_or-string_default d none = sym (if_same (d == "") d)
text_or-string_default d (some s) = refl

pub alive_lem :
    (v : Option String) → (is_text "true" v || is_unset v) ≡ or_value true (optional_flag v)
alive_lem none = refl
alive_lem (some s) = elim (Bool-cases (s == "true")) [ inl e ↦ rw e refl | inr e ↦ rw e refl ]

pub sockets_lem : (v : Option String) → number_or 100 v ≡ or_value (whole 100) (parsed v)
sockets_lem none = refl
sockets_lem (some s) = elim (Bool-cases (s == "")) [ inl e ↦ rw e refl | inr e ↦ rw e refl ]

pub brokers_lem :
    (split : String → List String) (trim : String → String) (v : Option String) (s : String)
    → v ≡ some s
    → (s == "") ≡ false
    → brokers_of split trim v ≡ map trim (split s)
brokers_lem split trim v s present full = ap (brokers_of split trim) present ∙ rw full refl

pub present_text :
    (d : String) (v : Option String) (s : String) → v ≡ some s → (s == "") ≡ false → text_or d v ≡ s
present_text d v s present full = ap (text_or d) present ∙ rw full refl

pub text_or-or_value : (d : String) (v : Option String) → text_or d v ≡ or_default d (or_value "" v)
text_or-or_value d none = refl
text_or-or_value d (some s) = refl

-- How the sections that the services read come from the validated environment.
pub record Reads (env : Env) (split : String → List String) (trim : String → String)
    (e : Environment) : Type 0 where
  pub database : database_config env ≡ e.database
  pub redis : redis_config env ≡ e.redis
  pub kafka : kafka_config env split trim ≡ kafka_of split trim e.kafka
  pub http : http_config env ≡ http_of e.http
  pub logging : logging_config env ≡ e.logging
  pub telemetry : telemetry_config env ≡ telemetry_of e.logging e.telemetry
  pub security : security_config env ≡ security_of e.security
  pub services : services_config env ≡ services_of (env "FRAUD_SERVICE_URL") e.services
  pub outbox : outbox_config env ≡ e.outbox
  pub ranges : InRange (outbox_config env)
