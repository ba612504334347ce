-- ===== src/Config/Drain.antt =====
-- The relay with the numbers of a validated environment: what apps/outbox-relay/src/relay.service.ts
-- reads of `config.outbox`.
use surgepay.Config.{Zod, IsZod, Env}
use surgepay.Config.Sections.{OutboxConfig}
use surgepay.Config.Settings.{outbox_config}
use surgepay.Config.Validation.{validate, Environment}
use surgepay.Config.Laws.{configs-validate}
use surgepay.Outbox.Relay.{begin_cycle, Recovery, Config, Relay}
use surgepay.Outbox.Drain.{waiting}
use surgepay.Common.{
  refl, inr, inl, ◌*◌, ◌+◌, ◌⊎◌, false, arith, [], length, ap, ◌≤◌, some, suc, ◌≡◌, ℕ, ◌<◌, List,
}
use surgepay.Messaging.Json.{whole, Number}
use surgepay.Config.Fields.{AtLeastOne}
use surgepay.Outbox.Relay.Cycles.{cycle_ends, poll_all}
use surgepay.Outbox.Recovery.{HasDistinctIds}

abbrev pub natural : Number → ℕ
natural (whole n) = n
natural _ = 0

-- The four numbers; none of them is negative or a fraction where the environment is validated.
unfoldable pub relay_config : OutboxConfig → Config
relay_config c = record {
  stale_timeout = natural c.stale_timeout_ms;
  retry_limit = natural c.retry_limit;
  batch_size = natural c.batch_size;
  max_in_flight = natural c.max_in_flight_messages;
}

natural_positive : (n : Number) → AtLeastOne n → 1 ≤ natural n
natural_positive n (m, q) = let size : natural n ≡ suc m = ap natural q in omega (arith, size)

-- The relay with the numbers of an environment.
abbrev pub config_in : Env → Config
config_in env = relay_config (outbox_config env)

-- The relay at the end of a cycle.
abbrev pub after_cycle : Env → Recovery → List ℕ → Relay → Relay
after_cycle env recovery times s =
    poll_all (config_in env) times (begin_cycle (config_in env) recovery s)

module _ (z : Zod) (laws : IsZod z) (env : Env) where
  batch_positive : (e : Environment) → validate z env ≡ some e → 1 ≤ (config_in env).batch_size
  unfolding relay_config
  batch_positive e valid =
      natural_positive _ (configs-validate z laws env (λ t. []) (λ t. t) e valid).ranges.batch_size

  -- With the numbers of an environment that `validate` accepts, a cycle of the relay that starts below
  -- its capacity ends within eleven polls. It stays within the capacity, and then no row waits any more,
  -- or the batches of the cycle, one event at least, have filled the capacity or are ten full ones. The
  -- ids of the table are distinct, no other transaction holds a row, no claim fails, and nothing is
  -- inserted and no batch lands in between.
  pub after_cycle_lem :
      (e : Environment) (recovery : Recovery) (s : Relay) (times : List ℕ)
      → validate z env ≡ some e
      → HasDistinctIds s.outbox
      → s.active_in_flight < (config_in env).max_in_flight
      → 11 ≤ length times
      → ((after_cycle env recovery times s).polling ≡ false)
        × ((after_cycle env recovery times s).active_in_flight ≤ (config_in env).max_in_flight)
        × ((waiting (after_cycle env recovery times s).outbox ≡ 0)
            ⊎ ((s.active_in_flight < (after_cycle env recovery times s).active_in_flight)
                × (((after_cycle env recovery times s).active_in_flight
                      ≡ (config_in env).max_in_flight)
                    ⊎ ((after_cycle env recovery times s).active_in_flight
                        ≡ s.active_in_flight + 10 * (config_in env).batch_size))))
  after_cycle_lem e recovery s times valid distinct room enough =
      let positive = batch_positive e valid in
      let (over, bounded, ended) =
        cycle_ends (config_in env) s.active_in_flight recovery s times distinct positive refl
          (omega (arith, room)) enough in
      (
        over,
        bounded,
        elim ended [
          | inl none_left ↦ inl none_left
          | inr (inl used) ↦ inr (omega (arith, used, room), inl used)
          | inr (inr ten) ↦ inr (omega (arith, ten, positive), inr ten)
        ],
      )
