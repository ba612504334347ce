-- ===== src/Messaging/Serializer/Upgrades.antt =====
-- The upgrade loop of serializer.ts for any target version.
use surgepay.Common.{
  ℕ, zero, suc, ◌+◌, ◌≤◌, ◌<◌, ◌≡◌, refl, ap, inl, inr, String, some, arith, Bool-cases,
  Option-cases, ltb, ltb→lt,
}
use surgepay.Messaging.Json.{whole}
use surgepay.Messaging.Serializer.{
  Envelope, Decoded, ok, err, missing_upgrade_path, Registry, upgrade_loop,
}

-- A registered upgrade leads from each version to the next one.
abbrev pub IsStepwise : Registry → Type 0
IsStepwise get_upgrade =
    (kind : String) (n : ℕ) (f : Envelope → Envelope) (e : Envelope)
    → get_upgrade kind (whole n) ≡ some f
    → e.version ≡ whole n
    → (f e).version ≡ whole (suc n)

-- The target version is reached, or a step from some version below it is not registered.
abbrev pub Reaches : ℕ → ℕ → Decoded Envelope → Type 0
Reaches n target (ok e) = e.version ≡ whole target
Reaches n target (err x) = (k : ℕ) × (n ≤ k) × (k < target) × (x ≡ missing_upgrade_path (whole k))

Reaches-mono : (n target : ℕ) (r : Decoded Envelope) → Reaches (suc n) target r → Reaches n target r
Reaches-mono n target (ok e) h = h
Reaches-mono n target (err x) (k, a, b, c) = (k, omega arith, b, c)

module _ (get_upgrade : Registry) (stepwise : IsStepwise get_upgrade) where
  -- With stepwise upgrades the loop ends within `target - n` rounds, and at the target version
  -- unless an upgrade on the way is missing.
  pub upgrade_loop_total :
      (fuel target n : ℕ) (e : Envelope)
      → e.version ≡ whole n
      → n ≤ target
      → target < n + fuel
      → (r : Decoded Envelope) × (upgrade_loop get_upgrade fuel e target ≡ some r)
        × Reaches n target r
  unfolding upgrade_loop
  upgrade_loop_total zero target n e v low enough = absurd (omega arith)
  upgrade_loop_total (suc fuel) target n e v low enough = elim (Bool-cases (ltb n target)) [
    | inr done ↦ (ok e, rw (v, upgrade_loop) (rw done), ground arith)
    | inl below ↦ elim (Option-cases (get_upgrade e.event_type (whole n))) [
      | inl missing ↦ (
        err (missing_upgrade_path (whole n)),
        rw (v, upgrade_loop)
            (rw (below, missing) (ap (λ x. some (err (missing_upgrade_path x))) v)),
        (n, omega arith, ltb→lt _ _ below, refl),
      )
      | inr (f, found) ↦
          let (r, run, reached) =
            upgrade_loop_total fuel target (suc n) (f e) (stepwise e.event_type n f e found v)
              (ltb→lt _ _ below) (omega arith) in
          (r, rw (v, upgrade_loop) (rw (below, found) run), Reaches-mono n target r reached)
    ]
  ]
