-- ===== src/Config/Clients.antt =====
-- The clients of the internal services: packages/common/http/src/service-client.ts,
-- registry/service-registry.ts and the constructor of http-client.ts. Logging and the shutdown are
-- left out.
use surgepay.Common.{
  ap, Option, some, none, String, Bool, not, ◌==◌, if◌then◌else◌, ◌≡◌, refl, false, Bool-cases, inl,
  inr,
}
use surgepay.Messaging.Json.{Number}
use surgepay.Config.{Env, ◌>>=◌, is_text, number_or, text_or}
use surgepay.Config.Sections.{ServicesConfig}
use surgepay.Config.Settings.{services_config}

pub data InternalService : Type 0 where
  gateway merchant payment order ledger balance notification fraud : InternalService

abbrev registry : ServicesConfig → InternalService → String
registry services gateway = services.gateway_url
registry services merchant = services.merchant_service_url
registry services payment = services.payment_service_url
registry services order = services.order_service_url
registry services ledger = services.ledger_service_url
registry services balance = services.balance_service_url
registry services notification = services.notification_service_url
registry services fraud = services.fraud_service_url

-- `none` where it throws.
abbrev resolve : ServicesConfig → InternalService → Option String
resolve services s = if registry services s == "" then none else some (registry services s)

pub record HttpClient : Type 0 where
  pub service : InternalService
  pub base_url : String
  pub timeout : Number
  pub retries : Number
  pub retry_delay : Number
  pub keep_alive : Bool
  pub max_sockets : Number

-- The constructor reads the two numbers of its agents from the environment itself.
abbrev http_client : Env → ServicesConfig → InternalService → String → HttpClient
http_client env services s url = record {
  service = s;
  base_url = url;
  timeout = services.internal_request_timeout;
  retries = services.internal_request_retries;
  retry_delay = services.internal_request_retry_delay;
  keep_alive = not (is_text "false" (env "HTTP_KEEP_ALIVE"));
  max_sockets = number_or 100 (env "HTTP_KEEP_ALIVE_MAX_SOCKETS");
}

abbrev build_client : Env → ServicesConfig → InternalService → Option HttpClient
build_client env services s = elim (resolve services s) [
  | none ↦ none
  | some url ↦ some (http_client env services s url)
]

-- The other names of the clients are left out.
pub record ServiceClient : Type 0 where
  pub gateway : HttpClient
  pub merchant : HttpClient
  pub payment : HttpClient
  pub order : HttpClient
  pub ledger : HttpClient
  pub balance : HttpClient
  pub notification : HttpClient
  pub fraud : HttpClient

unfoldable service_client : Env → ServicesConfig → Option ServiceClient
service_client env services = do
  gateway_client ← build_client env services gateway
  merchant_client ← build_client env services merchant
  payment_client ← build_client env services payment
  order_client ← build_client env services order
  ledger_client ← build_client env services ledger
  balance_client ← build_client env services balance
  notification_client ← build_client env services notification
  fraud_client ← build_client env services fraud
  some (record {
    gateway = gateway_client;
    merchant = merchant_client;
    payment = payment_client;
    order = order_client;
    ledger = ledger_client;
    balance = balance_client;
    notification = notification_client;
    fraud = fraud_client;
  })

text_or_full : (d : String) (v : Option String) → (d == "") ≡ false → (text_or d v == "") ≡ false
text_or_full d none h = h
text_or_full d (some s) h = elim (Bool-cases (s == "")) [ inl e ↦ rw e h | inr e ↦ rw e e ]

address : (env : Env) (s : InternalService) → (registry (services_config env) s == "") ≡ false
unfolding services_config
address env gateway = text_or_full _ (env "GATEWAY_URL") refl
address env merchant = text_or_full _ (env "MERCHANT_SERVICE_URL") refl
address env payment = text_or_full _ (env "PAYMENT_SERVICE_URL") refl
address env order = text_or_full _ (env "ORDER_SERVICE_URL") refl
address env ledger = text_or_full _ (env "LEDGER_SERVICE_URL") refl
address env balance = text_or_full _ (env "BALANCE_SERVICE_URL") refl
address env notification = text_or_full _ (env "NOTIFICATION_SERVICE_URL") refl
address env fraud = text_or_full _ (env "FRAUD_SERVICE_URL") refl

unless_empty : (u : String) → (u == "") ≡ false → (if u == "" then none else some u) ≡ some u
unless_empty u h = rw h refl

-- The client of a service, with the address that the configuration has for it.
abbrev client_of : Env → InternalService → HttpClient
client_of env s = http_client env (services_config env) s (registry (services_config env) s)

-- `build_client` goes on with what `resolve` finds.
abbrev continue_with : Env → InternalService → Option String → Option HttpClient
continue_with env s o = elim o [
  | none ↦ none
  | some url ↦ some (http_client env (services_config env) s url)
]

built :
    (env : Env) (s : InternalService)
    → build_client env (services_config env) s ≡ some (client_of env s)
built env s = ap (continue_with env s) (unless_empty _ (address env s))

-- The clients are built from every environment, each with the address of its own service.
service_client_starts :
    (env : Env)
    → service_client env (services_config env)
      ≡ some (record {
        gateway = client_of env gateway;
        merchant = client_of env merchant;
        payment = client_of env payment;
        order = client_of env order;
        ledger = client_of env ledger;
        balance = client_of env balance;
        notification = client_of env notification;
        fraud = client_of env fraud;
      })
unfolding service_client
service_client_starts env = simp (
  built env gateway,
  built env merchant,
  built env payment,
  built env order,
  built env ledger,
  built env balance,
  built env notification,
  built env fraud,
)
