-- ===== src/Health.antt =====
-- packages/common/src/health: health.service.ts, health.controller.ts and the indicators. What the
-- environment, the database, Redis and Kafka answer are arguments; log lines and messages are left out.
pub mod Laws
pub mod Tests
use surgepay.Common.{
  ℕ, String, Bool, true, false, Option, none, some, List, [], ◌∷◌, ◌++◌, if◌then◌else◌, ◌==◌, ◌=ℕ◌,
  ◌&&◌, ◌||◌, not, either_text,
}

pub data HealthStatus : Type 0 where
  up down : HealthStatus

-- How `isHealthy` ends: with a result of status `up`, with another result, or with an exception.
pub data Indicator : Type 0 where
  is_up is_other threw : Indicator

-- The variables that the health checks read.
pub record Environment : Type 0 where
  pub service_name : Option String
  pub logging_service_name : Option String
  pub port : Option String
  pub database_url : Option String
  pub redis_url : Option String

-- A call of the database, of Redis or of Kafka: what it resolves to, or an error.
pub data Ping {ℓ} (A : Type ℓ) : Type ℓ where
  resolves : A → Ping A
  rejects : Ping A

-- What the dependencies answer: `isConnected` of the database client, if there is one, `ping` of Redis,
-- and the number of brokers that `describeCluster` finds.
pub record Probes : Type 0 where
  pub database : Option (Ping Bool)
  pub redis_config_url : Option String
  pub redis : Ping String
  pub kafka_brokers : ℕ
  pub kafka : Ping ℕ

abbrev pub is_missing : Option String → Bool
is_missing none = true
is_missing (some s) = s == ""

abbrev pub name_of : Environment → Option String
name_of env = either_text env.service_name env.logging_service_name

abbrev pub is_service : Option String → String → Bool
is_service none s = false
is_service (some name) s = name == s

-- `ConfigHealthIndicator.isHealthy`
unfoldable pub config_health : Environment → Indicator
config_health env =
    if is_missing (name_of env)
    then threw
    else if is_missing env.port
    then threw
    else if is_service (name_of env) "merchant-service" && is_missing env.database_url
    then threw
    else if is_service (name_of env) "idempotency-service" && is_missing env.redis_url
    then threw
    else is_up

unfoldable pub database_health : Option (Ping Bool) → Indicator
database_health (some (resolves true)) = is_up
database_health _ = threw

unfoldable pub kafka_health : ℕ → Ping ℕ → Indicator
kafka_health brokers rejects = threw
kafka_health brokers (resolves found) = if (brokers =ℕ 0) || (found =ℕ 0) then threw else is_up

abbrev pub ping_health : Ping String → Indicator
ping_health rejects = threw
ping_health (resolves pong) = if pong == "PONG" then is_up else threw

unfoldable pub redis_health : Option String → Ping String → Indicator
redis_health url ping = if is_missing url then threw else ping_health ping

-- Whether the Redis indicator keeps a client after a check: a failure releases it.
unfoldable pub redis_client_kept : Option String → Ping String → Bool
redis_client_kept url ping = elim (redis_health url ping) [ is_up ↦ true | _ ↦ false ]

-- `SERVICE_DEPENDENCIES`
abbrev pub dependencies_of : String → List String
dependencies_of service =
    if service == "merchant-service"
    then "database" ∷ "configuration" ∷ []
    else if service == "idempotency-service"
    then "redis" ∷ "configuration" ∷ []
    else "configuration" ∷ []

abbrev pub includes_text : List String → String → Bool
includes_text [] x = false
includes_text (y ∷ ys) x = y == x || includes_text ys x

abbrev pub is_configured : Option (Ping Bool) → Bool
is_configured none = false
is_configured (some ping) = true

abbrev pub push_if :
    Bool → String → Indicator → List (String × Indicator) → List (String × Indicator)
push_if b key check rest = if b then (key, check) ∷ rest else rest

-- The indicators that `checkReadiness` asks, in its order.
unfoldable pub indicators_for : Environment → Probes → List String → List (String × Indicator)
indicators_for env p deps =
    push_if (includes_text deps "database" && is_configured p.database) "database"
      (database_health p.database)
      (push_if (includes_text deps "redis") "redis" (redis_health p.redis_config_url p.redis) (
        push_if (includes_text deps "kafka") "kafka" (kafka_health p.kafka_brokers p.kafka)
          (push_if (includes_text deps "configuration") "configuration" (config_health env) [])))

pub record Readiness : Type 0 where
  pub status : HealthStatus
  pub checks : List (String × HealthStatus)

abbrev pub status_of : Indicator → HealthStatus
status_of is_up = up
status_of is_other = down
status_of threw = down

abbrev pub worse : HealthStatus → HealthStatus → HealthStatus
worse overall up = overall
worse overall down = down

-- The loop over the indicators; the keys are distinct.
unfoldable pub run_checks : Readiness → List (String × Indicator) → Readiness
run_checks r [] = r
run_checks r ((key, check) ∷ rest) =
    run_checks
      (record {
        status = worse r.status (status_of check);
        checks = r.checks ++ (key, status_of check) ∷ [];
      })
      rest

abbrev pub service_of : Environment → String
service_of env = elim (name_of env) [
  | none ↦ "unknown-service"
  | some s ↦ if s == "" then "unknown-service" else s
]

unfoldable pub check_readiness : Environment → Probes → Readiness
check_readiness env p =
    run_checks (record { status = up; checks = ("application", up) ∷ [] })
      (indicators_for env p (dependencies_of (service_of env)))

abbrev pub http_status : HealthStatus → ℕ
http_status up = 200
http_status down = 503

-- `getReady` and `getOverall` answer with the same status; `getLive` always with 200.
unfoldable pub get_ready : Environment → Probes → ℕ × Readiness
get_ready env p = (http_status (check_readiness env p).status, check_readiness env p)
