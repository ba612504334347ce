-- ===== src/Config/Sections.antt =====
-- The schemas and the sections of the configuration: packages/config/src/schemas, configs, types.ts
-- and validation.ts. A section's record stands for the schema's output too where the two agree.

use surgepay.Common.{Option, String, Bool, List}
use surgepay.Messaging.Json.{Number}

pub record OutboxConfig : Type 0 where
  pub polling_interval : Number
  pub batch_size : Number
  pub retry_limit : Number
  pub publish_timeout : Number
  pub retention_days : Number
  pub stale_timeout_ms : Number
  pub max_in_flight_messages : Number
  pub flush_interval : Number

pub record DatabaseConfig : Type 0 where
  pub url : Option String
  pub host : Option String
  pub port : Option Number
  pub username : Option String
  pub password : Option String
  pub database : Option String
  pub schema : Option String
  pub ssl : Bool
  pub pool_size : Number
  pub connect_timeout : Number
  pub idle_timeout : Number

pub record RedisConfig : Type 0 where
  pub url : Option String
  pub password : Option String
  pub tls : Bool

pub record LoggingConfig : Type 0 where
  pub level : String
  pub pretty : Bool
  pub service_name : String

pub record SecurityConfig : Type 0 where
  pub jwt_secret : String
  pub api_key_header : String
  pub cors_enabled : Bool

pub record KafkaVariables : Type 0 where
  pub brokers : String
  pub client_id : String
  pub ssl : Bool
  pub sasl : Bool
  pub consumer_group_id : String
  pub consumer_retry_limit : Number

pub record KafkaConfig : Type 0 where
  pub brokers : List String
  pub client_id : String
  pub ssl : Bool
  pub sasl : Bool
  pub consumer_group_id : String
  pub consumer_retry_limit : Number

pub record HttpVariables : Type 0 where
  pub port : Number
  pub host : String
  pub api_prefix : String
  pub keep_alive : Option Bool
  pub max_sockets : Option Number

pub record HttpConfig : Type 0 where
  pub port : Number
  pub host : String
  pub api_prefix : String
  pub keep_alive : Bool
  pub max_sockets : Number

pub record ServicesConfig : Type 0 where
  pub gateway_url : String
  pub merchant_service_url : String
  pub payment_service_url : String
  pub order_service_url : String
  pub ledger_service_url : String
  pub balance_service_url : String
  pub notification_service_url : String
  pub fraud_service_url : String
  pub internal_request_timeout : Number
  pub internal_request_retries : Number
  pub internal_request_retry_delay : Number

-- The schema of the services has no FRAUD_SERVICE_URL.
pub record ServicesVariables : Type 0 where
  pub gateway_url : String
  pub merchant_service_url : String
  pub payment_service_url : String
  pub order_service_url : String
  pub ledger_service_url : String
  pub balance_service_url : String
  pub notification_service_url : String
  pub internal_request_timeout : Number
  pub internal_request_retries : Number
  pub internal_request_retry_delay : Number

pub record TelemetryVariables : Type 0 where
  pub endpoint : String
  pub service_name : Option String

pub record TelemetryConfig : Type 0 where
  pub endpoint : String
  pub service_name : String
