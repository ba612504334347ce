-- ===== src/Outbox/Relay/Cycles.antt =====
-- What a cycle of the relay gets through: the loop of `processBatch` with no batch landing in between.
use surgepay.Outbox.Relay.{
  recovery_failed, recovered, Config, Relay, polled, poll_once, spawn, stop, batch_limit,
  claim_batch, max_batches_per_cycle, begin_cycle, Recovery, recover,
}
use surgepay.Outbox.Repository.{OutboxEvent, Outbox, claim_pending}
use surgepay.Outbox.Drain.{unlocked, waiting, claim_pending_short}
use surgepay.Outbox.Recovery.{HasDistinctIds}
use surgepay.Outbox.Sizes.{
  recover_stale-HasDistinctIds, length-claim_pending, claim_pending-HasDistinctIds,
}
use surgepay.Common.{
  ◌∙◌, sym, ap, zero, ℕ, suc, ◌+◌, ◌*◌, ◌≤◌, ◌<◌, ◌≡◌, Bool, true, false, not, ltb, leb, List, [],
  ◌∷◌, length, ◌⊎◌, inl, inr, refl, arith, Bool-cases, if◌then◌else◌,
}

-- The polls of a cycle at the given times, where no other transaction holds a row.
unfoldable pub poll_all : Config → List ℕ → Relay → Relay
poll_all config [] s = s
poll_all config (now ∷ later) s = poll_all config later (poll_once config (polled unlocked now) s)

-- As many full batches.
abbrev filled : ℕ → ℕ → ℕ
filled size zero = 0
filled size (suc n) = filled size n + size

module _ (config : Config) (start : ℕ) where
  -- Why the loop ended: no row waits, the capacity is used up, or ten full batches are in flight.
  abbrev pub Ended : Relay → Type 0
  Ended s =
      (waiting s.outbox ≡ 0)
      ⊎ ((s.active_in_flight ≡ config.max_in_flight)
          ⊎ (s.active_in_flight ≡ start + 10 * config.batch_size))

  record IsRunning (s : Relay) : Type 0 where
    pub distinct : HasDistinctIds s.outbox
    pub bounded : s.active_in_flight ≤ config.max_in_flight
    pub rounds : s.batches_spawned ≤ 10
    pub outcome :
        ((s.polling ≡ true)
          × ((s.active_in_flight ≡ start + filled config.batch_size s.batches_spawned)
              ⊎ (s.active_in_flight ≡ config.max_in_flight)))
        ⊎ ((s.polling ≡ false) × Ended s)

  limit_fits :
      (s : Relay)
      → s.active_in_flight < config.max_in_flight
      → batch_limit config s + s.active_in_flight ≤ config.max_in_flight
  limit_fits s room = ground arith

  limit_kind :
      (s : Relay)
      → s.active_in_flight < config.max_in_flight
      → (batch_limit config s ≡ config.batch_size)
        ⊎ (batch_limit config s + s.active_in_flight ≡ config.max_in_flight)
  limit_kind s room = ground arith

  limit_positive :
      (s : Relay)
      → s.active_in_flight < config.max_in_flight
      → 1 ≤ config.batch_size
      → 1 ≤ batch_limit config s
  limit_positive s room positive = ground arith

  filled-suc :
      (n : ℕ) → filled config.batch_size (n + 1) ≡ filled config.batch_size n + config.batch_size
  filled-suc n = let q : n + 1 ≡ suc n = omega arith in ap (filled config.batch_size) q

  -- The loop is over, or spawned one more batch.
  abbrev Advanced : Relay → Relay → Type 0
  Advanced s t = (t.polling ≡ false) ⊎ (t.batches_spawned ≡ suc s.batches_spawned)

  -- The state while a batch is spawned from `events`, which the claim of at most `limit` handed out.
  spawn-IsRunning :
      (s : Relay) (limit : ℕ) (t : Outbox) (events : List OutboxEvent)
      → HasDistinctIds t
      → s.polling ≡ true
      → s.batches_spawned < 10
      → s.active_in_flight < config.max_in_flight
      → s.active_in_flight ≡ start + filled config.batch_size s.batches_spawned
      → batch_limit config s ≡ limit
      → length events ≤ limit
      → (length events < limit → waiting t ≡ 0)
      → 1 ≤ config.batch_size
      → IsRunning (spawn limit t events s) × Advanced s (spawn limit t events s)
  spawn-IsRunning s limit t [] distinct going few room exact size short empty positive = (
    record {
      distinct = distinct;
      bounded = omega arith;
      rounds = omega arith;
      outcome = inr (refl, inl (empty (omega (arith, size, limit_positive s room positive))));
    },
    inl refl,
  )
  spawn-IsRunning s limit t (e ∷ es) distinct going few room exact size short empty positive =
      let fits : length (e ∷ es) + s.active_in_flight ≤ config.max_in_flight =
        omega (arith, short, size, limit_fits s room) in
      elim (Bool-cases (ltb (length (e ∷ es)) limit)) [
        | inl less ↦
            let over : not (ltb (length (e ∷ es)) limit) ≡ false = ap not less in
            let fewer : length (e ∷ es) < limit = ground (arith, less) in
            (
              record {
                distinct = distinct;
                bounded = omega (arith, fits);
                rounds = omega arith;
                outcome = inr (over, inl (empty fewer));
              },
              inl over,
            )
        | inr full ↦
            let more : not (ltb (length (e ∷ es)) limit) ≡ true = ap not full in
            let exactly : length (e ∷ es) ≡ limit = ground (arith, full, short) in
            (
              record {
                distinct = distinct;
                bounded = omega (arith, fits);
                rounds = omega arith;
                outcome = inl (
                  more,
                  elim (limit_kind s room) [
                    | inl whole ↦
                        inl
                          (omega (arith, whole, exactly, size, exact, filled-suc s.batches_spawned))
                    | inr rest ↦ inr (omega (arith, rest, exactly, size))
                  ],
                );
              },
              inr (omega arith),
            )
      ]

  abbrev Goes : Relay → Relay → Type 0
  Goes s t = IsRunning t × Advanced s t

  either_way :
      (s : Relay) (b : Bool) (x y : Relay)
      → (b ≡ true → Goes s x)
      → (b ≡ false → Goes s y)
      → Goes s (if b then x else y)
  either_way s true x y f g = f refl
  either_way s false x y f g = g refl

  stop-IsRunning : (s : Relay) → IsRunning s → Ended s → Goes s (stop s)
  stop-IsRunning s h ended = (
    record {
      distinct = h.distinct;
      bounded = h.bounded;
      rounds = h.rounds;
      outcome = inr (refl, ended);
    },
    inl refl,
  )

  -- Ten rounds have filled ten batches or used up the capacity.
  ten_rounds :
      (s : Relay)
      → 10 ≤ s.batches_spawned
      → s.batches_spawned ≤ 10
      → (s.active_in_flight ≡ start + filled config.batch_size s.batches_spawned)
        ⊎ (s.active_in_flight ≡ config.max_in_flight)
      → Ended s
  ten_rounds s low high (inr used) = inr (inl used)
  ten_rounds s low high (inl exact) =
      let ten : s.batches_spawned ≡ 10 = omega arith in
      inr (inr (omega (arith, exact, ap (filled config.batch_size) ten)))

  claim_batch-IsRunning :
      (now : ℕ) (s : Relay)
      → 1 ≤ config.batch_size
      → IsRunning s
      → s.polling ≡ true
      → s.batches_spawned < 10
      → s.active_in_flight < config.max_in_flight
      → s.active_in_flight ≡ start + filled config.batch_size s.batches_spawned
      → Goes s (claim_batch config (polled unlocked now) s)
  claim_batch-IsRunning now s positive h going few room exact =
      let limit = batch_limit config s in
      spawn-IsRunning s limit (claim_pending unlocked now limit s.outbox).0
        (claim_pending unlocked now limit s.outbox).1
        (claim_pending-HasDistinctIds unlocked now limit s.outbox h.distinct) going few room exact
        refl (length-claim_pending unlocked now limit s.outbox h.distinct)
        (claim_pending_short now limit s.outbox) positive

  exactly :
      (s : Relay)
      → s.active_in_flight < config.max_in_flight
      → (s.active_in_flight ≡ start + filled config.batch_size s.batches_spawned)
        ⊎ (s.active_in_flight ≡ config.max_in_flight)
      → s.active_in_flight ≡ start + filled config.batch_size s.batches_spawned
  exactly s room (inl exact) = exact
  exactly s room (inr used) = absurd (omega (arith, room, used))

  poll_once-IsRunning :
      (now : ℕ) (s : Relay)
      → 1 ≤ config.batch_size
      → IsRunning s
      → Goes s (poll_once config (polled unlocked now) s)
  unfolding poll_once
  poll_once-IsRunning now s positive h = elim h.outcome [
    | inr (over, ended) ↦
        either_way s (not s.polling) s _ (λ e. (h, inl over))
          (λ e. let clash = sym (ap not over) ∙ e in cc)
    | inl (going, spawned) ↦
        either_way s (not s.polling) s _ (λ e. let clash = sym (ap not going) ∙ e in cc)
          (λ e.
            either_way s (not (ltb s.batches_spawned max_batches_per_cycle)) (stop s) _
              (λ full. stop-IsRunning s h (ten_rounds s (ground (arith, full)) h.rounds spawned))
              (λ few.
                either_way s (leb config.max_in_flight s.active_in_flight) (stop s)
                  (claim_batch config (polled unlocked now) s)
                  (λ used. stop-IsRunning s h (inr (inl (ground (arith, used, h.bounded)))))
                  (λ free.
                    let room : s.active_in_flight < config.max_in_flight = ground (arith, free) in
                    claim_batch-IsRunning now s positive h going (ground (arith, few)) room
                      (exactly s room spawned))))
  ]

  poll_over :
      (now : ℕ) (s : Relay)
      → s.polling ≡ false
      → (poll_once config (polled unlocked now) s).polling ≡ false
  unfolding poll_once
  poll_over now s over = ground (arith, over)

  -- Polls that are enough end the loop.
  poll_all_ends :
      (times : List ℕ) (s : Relay)
      → 1 ≤ config.batch_size
      → IsRunning s
      → (s.polling ≡ false) ⊎ (11 ≤ length times + s.batches_spawned)
      → ((poll_all config times s).polling ≡ false) × IsRunning (poll_all config times s)
  unfolding poll_all
  poll_all_ends [] s positive h (inl over) = (over, h)
  poll_all_ends [] s positive h (inr enough) = absurd (omega (arith, h.rounds, enough))
  poll_all_ends (now ∷ later) s positive h enough =
      let (running, advanced) = poll_once-IsRunning now s positive h in
      poll_all_ends later (poll_once config (polled unlocked now) s) positive running
        (elim advanced [
          | inl over ↦ inl over
          | inr counted ↦ elim enough [
            | inl over ↦ inl (poll_over now s over)
            | inr many ↦ inr (omega (arith, many, counted))
          ]
        ])

  over_is_ended : (s : Relay) → s.polling ≡ false → IsRunning s → Ended s
  over_is_ended s over h = elim h.outcome [
    | inl (going, spawned) ↦ let clash = sym going ∙ over in cc
    | inr (same, ended) ↦ ended
  ]

  recover-HasDistinctIds :
      (recovery : Recovery) (t : Outbox)
      → HasDistinctIds t
      → HasDistinctIds (recover config recovery t)
  recover-HasDistinctIds recovery_failed t h = h
  recover-HasDistinctIds (recovered locked now) t h =
      recover_stale-HasDistinctIds locked now config.stale_timeout config.retry_limit t h

  -- A cycle that starts with this much in flight ends within eleven polls.
  pub cycle_ends :
      (recovery : Recovery) (s : Relay) (times : List ℕ)
      → HasDistinctIds s.outbox
      → 1 ≤ config.batch_size
      → s.active_in_flight ≡ start
      → start ≤ config.max_in_flight
      → 11 ≤ length times
      → ((poll_all config times (begin_cycle config recovery s)).polling ≡ false)
        × ((poll_all config times (begin_cycle config recovery s)).active_in_flight
            ≤ config.max_in_flight)
        × Ended (poll_all config times (begin_cycle config recovery s))
  unfolding begin_cycle
  cycle_ends recovery s times distinct positive same low enough =
      let (over, running) =
        poll_all_ends times (begin_cycle config recovery s) positive
          (record {
            distinct = recover-HasDistinctIds recovery s.outbox distinct;
            bounded = omega (arith, same, low);
            rounds = omega arith;
            outcome = inl (refl, inl (omega (arith, same)));
          })
          (inr (omega (arith, enough))) in
      (over, running.bounded, over_is_ended _ over running)
