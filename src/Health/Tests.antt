-- ===== src/Health/Tests.antt =====
-- The readiness of two services.
use surgepay.Common.{some, none, ◌≡◌, refl, if◌then◌else◌}
use surgepay.Health.{
  database_health, config_health, indicators_for, run_checks, check_readiness, Environment, Probes,
  rejects, get_ready,
}
use surgepay.Health.Laws.{get_ready_lem, is_ready}

abbrev merchant_environment : Environment
merchant_environment = record {
  service_name = some "merchant-service";
  logging_service_name = none;
  port = some "3001";
  database_url = some "postgres://db";
  redis_url = none;
}

abbrev disconnected : Probes
disconnected = record {
  database = some rejects;
  redis_config_url = none;
  redis = rejects;
  kafka_brokers = 0;
  kafka = rejects;
}

not_ready : (get_ready merchant_environment disconnected).0 ≡ 503
unfolding get_ready check_readiness run_checks indicators_for config_health database_health
not_ready = refl

-- The payment service does not ask its database.
ready :
    (get_ready
      (record merchant_environment { service_name = some "payment-service" })
      disconnected).0
    ≡ 200
unfolding get_ready check_readiness run_checks indicators_for config_health
ready = refl

get_ready_lem_example :
    (get_ready merchant_environment disconnected).0
    ≡ (if is_ready merchant_environment disconnected then 200 else 503)
get_ready_lem_example = get_ready_lem merchant_environment disconnected
