-- ===== src/Health/Laws.antt =====
-- When a service reports that it is ready.
use surgepay.Common.{
  sym, ap, ◌∙◌, either_text, none, some, Option, String, Bool, true, false, List, [], ◌∷◌, ◌++◌,
  if◌then◌else◌, ◌==◌, ◌&&◌, ◌||◌, not, ◌≡◌, refl, arith, inl, inr, Bool-cases, eq_iff,
}
use surgepay.Health.{
  is_service, rejects, resolves, is_missing, Ping, up, down, Indicator, is_up, is_other, threw,
  Environment, Probes, config_health, database_health, redis_health, indicators_for, run_checks,
  check_readiness, get_ready, Readiness, status_of, worse, service_of, dependencies_of,
  is_configured, http_status,
}

abbrev pub passed : Indicator → Bool
passed is_up = true
passed _ = false

-- A variable that holds a text.
abbrev is_set : Option String → Bool
is_set none = false
is_set (some s) = not (s == "")

abbrev holds : String → Option String → Bool
holds text none = false
holds text (some s) = s == text

-- The name of the service stands in SERVICE_NAME, or else in the configuration of the log.
abbrev is_named : String → Environment → Bool
is_named name env =
    if is_set env.service_name
    then holds name env.service_name
    else holds name env.logging_service_name

-- A database client that is there answers that it is connected.
abbrev is_connected : Option (Ping Bool) → Bool
is_connected none = true
is_connected (some rejects) = false
is_connected (some (resolves answer)) = answer

abbrev says_pong : Ping String → Bool
says_pong rejects = false
says_pong (resolves answer) = answer == "PONG"

-- What a service needs to be ready.
abbrev pub is_ready : Environment → Probes → Bool
is_ready env p =
    (is_set env.service_name || is_set env.logging_service_name)
    && is_set env.port
    && (not (is_named "merchant-service" env)
        || (is_set env.database_url && is_connected p.database))
    && (not (is_named "idempotency-service" env)
        || (is_set env.redis_url && (is_set p.redis_config_url && says_pong p.redis)))

-- The same, by the indicators.
abbrev parts_ready : Environment → Probes → Bool
parts_ready env p =
    passed (config_health env)
    && (not (service_of env == "merchant-service" && is_configured p.database)
        || passed (database_health p.database))
    && (not (service_of env == "idempotency-service")
        || passed (redis_health p.redis_config_url p.redis))

missing_lem : (v : Option String) → is_missing v ≡ not (is_set v)
missing_lem none = refl
missing_lem (some s) = ground arith

database_lem :
    (b : Bool) (d : Option (Ping Bool))
    → (not (b && is_configured d) || passed (database_health d)) ≡ (not b || is_connected d)
unfolding database_health
database_lem b none = ground arith
database_lem b (some rejects) = ground arith
database_lem b (some (resolves answer)) = ground arith

redis_lem :
    (url : Option String) (p : Ping String)
    → passed (redis_health url p) ≡ (is_set url && says_pong p)
unfolding redis_health
redis_lem url rejects = ground (arith, missing_lem url)
redis_lem url (resolves answer) = ground (arith, missing_lem url)

either_set : (a b : Option String) → is_missing (either_text a b) ≡ not (is_set a || is_set b)
either_set none b = missing_lem b
either_set (some s) b = ground (arith, missing_lem b)

name_lem :
    (a b : Option String) (name : String)
    → is_service (either_text a b) name ≡ (if is_set a then holds name a else holds name b)
name_lem none none name = refl
name_lem none (some t) name = refl
name_lem (some s) none name = ground arith
name_lem (some s) (some t) name = ground arith

-- The name that `checkReadiness` uses.
unknown_lem :
    (o : Option String) (name : String)
    → ("" == name) ≡ false
    → ("unknown-service" == name) ≡ false
    → ((elim o [ none ↦ "unknown-service" | some s ↦ if s == "" then "unknown-service" else s ])
        == name)
      ≡ is_service o name
unknown_lem none name h k = k
unknown_lem (some s) name h k = elim (Bool-cases (s == "")) [
  | inl e ↦
      let same : (s == name) ≡ false = ap (λ t. t == name) ((eq_iff s "").0 e) ∙ h in
      rw e (k ∙ sym same)
  | inr e ↦ rw e refl
]

config_lem :
    (env : Environment)
    → passed (config_health env) ≡ (
        (is_set env.service_name || is_set env.logging_service_name)
        && is_set env.port
        && (not (is_named "merchant-service" env) || is_set env.database_url)
        && (not (is_named "idempotency-service" env) || is_set env.redis_url))
unfolding config_health
config_lem env = ground (
  arith,
  either_set env.service_name env.logging_service_name,
  missing_lem env.port,
  missing_lem env.database_url,
  missing_lem env.redis_url,
  name_lem env.service_name env.logging_service_name "merchant-service",
  name_lem env.service_name env.logging_service_name "idempotency-service",
)

service_lem :
    (env : Environment) (name : String)
    → ("" == name) ≡ false
    → ("unknown-service" == name) ≡ false
    → (service_of env == name) ≡ is_named name env
service_lem env name h k =
    unknown_lem (either_text env.service_name env.logging_service_name) name h k
    ∙ name_lem env.service_name env.logging_service_name name

regroup :
    (a b m d c i u r : Bool)
    → (a && b && (not m || d) && (not i || u)) && (not m || c) && (not i || r)
      ≡ (a && b && (not m || (d && c)) && (not i || (u && r)))
regroup false b m d c i u r = refl
regroup true false m d c i u r = refl
regroup true true false d c false u r = refl
regroup true true false d c true u r = ground arith
regroup true true true d c false u r = ground arith
regroup true true true d c true u r = ground arith

parts_ready_lem : (env : Environment) (p : Probes) → parts_ready env p ≡ is_ready env p
parts_ready_lem env p =
    rw
      (
        config_lem env,
        service_lem env "merchant-service" refl refl,
        service_lem env "idempotency-service" refl refl,
        database_lem (is_named "merchant-service" env) p.database,
        redis_lem p.redis_config_url p.redis,
      )
      (regroup (is_set env.service_name || is_set env.logging_service_name) (is_set env.port)
        (is_named "merchant-service" env) (is_set env.database_url) (is_connected p.database)
        (is_named "idempotency-service" env) (is_set env.redis_url)
        (is_set p.redis_config_url && says_pong p.redis))

abbrev all_passed : List (String × Indicator) → Bool
all_passed [] = true
all_passed ((key, check) ∷ rest) = passed check && all_passed rest

worse-down : (check : Indicator) → worse down (status_of check) ≡ down
worse-down is_up = refl
worse-down is_other = refl
worse-down threw = refl

run_checks-down :
    (r : Readiness) (l : List (String × Indicator))
    → r.status ≡ down
    → (run_checks r l).status ≡ down
unfolding run_checks
run_checks-down r [] h = h
run_checks-down r ((key, check) ∷ rest) h =
    run_checks-down
      (record {
        status = worse r.status (status_of check);
        checks = r.checks ++ (key, status_of check) ∷ [];
      })
      rest (rw h (worse-down check))

run_checks-up :
    (r : Readiness) (l : List (String × Indicator))
    → r.status ≡ up
    → (run_checks r l).status ≡ (if all_passed l then up else down)
unfolding run_checks
run_checks-up r [] h = h
run_checks-up r ((key, is_up) ∷ rest) h =
    run_checks-up (record { status = r.status; checks = _ }) rest h
run_checks-up r ((key, is_other) ∷ rest) h =
    run_checks-down (record { status = down; checks = _ }) rest refl
run_checks-up r ((key, threw) ∷ rest) h =
    run_checks-down (record { status = down; checks = _ }) rest refl

passed_indicators :
    (env : Environment) (p : Probes) (service : String)
    → service_of env ≡ service
    → all_passed (indicators_for env p (dependencies_of service)) ≡ parts_ready env p
unfolding indicators_for
passed_indicators env p service h = elim (Bool-cases (service == "merchant-service")) [
  | inl merchant ↦
      rw h (rw (merchant, (eq_iff service "merchant-service").0 merchant) (ground arith))
  | inr other ↦ rw h (ground (arith, other))
]

if_status : (b : Bool) → http_status (if b then up else down) ≡ (if b then 200 else 503)
if_status true = refl
if_status false = refl

-- A service answers 200 exactly where its configuration is complete and, in the merchant service, the
-- database is connected, if a client is configured, and, in the idempotency service, Redis answers PONG;
-- else it answers 503.
pub get_ready_lem :
    (env : Environment) (p : Probes) → (get_ready env p).0 ≡ (if is_ready env p then 200 else 503)
unfolding get_ready check_readiness
get_ready_lem env p =
    rw
      (run_checks-up (record { status = up; checks = ("application", up) ∷ [] })
        (indicators_for env p (dependencies_of (service_of env))) refl)
      (rw (passed_indicators env p (service_of env) refl, parts_ready_lem env p)
        (if_status (is_ready env p)))
