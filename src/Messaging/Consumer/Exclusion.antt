-- ===== src/Messaging/Consumer/Exclusion.antt =====
-- Any number of workers of any groups on any messages, interleaved at their `await`s, with failing
-- calls and crashes. Replays (`prepareForReplay`) are not among the moves here.
use surgepay.Common.{
  sym, ap, subst, ◌≢◌, ℕ, ◌+◌, ◌≤◌, ◌≡◌, ◌⊎◌, inl, inr, String, Bool, true, false, ◌&&◌, List, [],
  ◌∷◌, ◌++◌, arith, count, Bool-cases, ◌==◌, eq_iff, if◌then◌else◌,
}
use surgepay.Messaging.Inbox.Laws.{row, IsUnique}
use surgepay.Messaging.Consumer.{World, Point, find_existing, handle, Worker, Reply, step}
use surgepay.Messaging.Consumer.Locking.{
  holds, is_locked, Guarded, advance-Guarded, advance-IsUnique, advance-other,
}

pub record System : Type 0 where
  pub workers : List Worker
  pub world : World

-- One worker makes a call, a message is delivered to a new worker, or a worker dies.
pub data Move (s u : System) : Type 0 where
  steps :
      (before after : List Worker) (v : Worker) (now : ℕ) (r : Reply)
      → s.workers ≡ before ++ v ∷ after
      → u.workers ≡ before ++ (step now v r s.world).0 ∷ after
      → u.world ≡ (step now v r s.world).1
      → Move s u
  delivered :
      (v : Worker) → v.at ≡ find_existing → u.workers ≡ v ∷ s.workers → u.world ≡ s.world → Move s u
  crashed :
      (before after : List Worker) (v : Worker)
      → s.workers ≡ before ++ v ∷ after
      → u.workers ≡ before ++ after
      → u.world ≡ s.world
      → Move s u

pub data Reach (s : System) : System → Type 0 where
  here : Reach s s
  next : {t u : System} → Reach s t → Move t u → Reach s u

abbrev pub works_on : String → String → Worker → Bool
works_on id group v = v.envelope.event_id == id && v.group_id == group

abbrev is_handling : Point → Bool
is_handling handle = true
is_handling _ = false

-- The workers that are running the business handler for an event in a group.
abbrev pub handling : String → String → List Worker → ℕ
handling id group = count (λ v. works_on id group v && is_handling v.at)

abbrev holder : String → String → Worker → ℕ
holder id group v = if works_on id group v then holds v.at else 0

abbrev holders : String → String → List Worker → ℕ
holders id group [] = 0
holders id group (v ∷ vs) = holder id group v + holders id group vs

holders-split :
    (id group : String) (before after : List Worker) (v : Worker)
    → holders id group (before ++ v ∷ after)
      ≡ (holders id group before + holders id group after) + holder id group v
holders-split id group [] after v = omega arith
holders-split id group (x ∷ before) after v = omega (arith, holders-split id group before after v)

holders-append :
    (id group : String) (before after : List Worker)
    → holders id group (before ++ after) ≡ holders id group before + holders id group after
holders-append id group [] after = omega arith
holders-append id group (x ∷ before) after = omega (arith, holders-append id group before after)

handling-le-holders :
    (id group : String) (vs : List Worker) → handling id group vs ≤ holders id group vs
unfolding count
handling-le-holders id group [] = omega arith
handling-le-holders id group (v ∷ vs) = ground (arith, handling-le-holders id group vs)

-- For one key: its row is unique, and guards the workers that hold it.
abbrev Safe : String → String → List Worker → World → Type 0
Safe id group vs w =
    IsUnique id group w.inbox × Guarded (holders id group vs) (is_locked (row id group w.inbox))

pub apart :
    (id group : String) (v : Worker)
    → works_on id group v ≡ false
    → (id ≢ v.envelope.event_id) ⊎ (group ≢ v.group_id)
apart id group v h = ground (arith, eq_iff v.envelope.event_id id, eq_iff v.group_id group)

module _ (id group : String) (now : ℕ) (v : Worker) (r : Reply) (w : World) (others : ℕ) where
  abbrev Kept : ℕ → World → Type 0
  Kept mine x =
      IsUnique id group x.inbox × Guarded (others + mine) (is_locked (row id group x.inbox))

  step-Kept :
      Kept (holder id group v) w → Kept (holder id group (step now v r w).0) (step now v r w).1
  unfolding step
  step-Kept (u, g) = elim (Bool-cases (works_on id group v)) [
    | inl mine ↦ ground (
      arith,
      eq_iff v.envelope.event_id id,
      eq_iff v.group_id group,
      advance-Guarded now v r w others v.at,
      advance-IsUnique now v r w v.at,
    )
    | inr other ↦
        ground (arith, other, advance-other now v r w id group (apart id group v other) v.at)
  ]

step-Safe :
    (id group : String) (now : ℕ) (v : Worker) (r : Reply) (w : World) (before after : List Worker)
    → Safe id group (before ++ v ∷ after) w
    → Safe id group (before ++ (step now v r w).0 ∷ after) (step now v r w).1
step-Safe id group now v r w before after (u, g) =
    let others = holders id group before + holders id group after in
    let (u', g') = step-Kept id group now v r w others (
      u,
      subst (λ n. Guarded n (is_locked (row id group w.inbox)))
          (holders-split id group before after v) g,
    ) in
    (
      u',
      subst (λ n. Guarded n (is_locked (row id group (step now v r w).1.inbox)))
          (sym (holders-split id group before after (step now v r w).0)) g',
    )

Move-Safe :
    (id group : String) {s u : System}
    → Move s u
    → Safe id group s.workers s.world
    → Safe id group u.workers u.world
Move-Safe id group {s} {u} (steps before after v now r e f g) h =
    rw (f, g) (step-Safe id group now v r s.world before after (rw e at h))
Move-Safe id group {s} {u} (delivered v e f g) h = rw (f, g) (ground arith)
Move-Safe id group {s} {u} (crashed before after v e f g) h =
    rw (f, g)
      (ground (
        arith,
        ap (holders id group) e,
        holders-split id group before after v,
        holders-append id group before after,
      ))

Reach-Safe :
    (id group : String) {s u : System}
    → Safe id group s.workers s.world
    → Reach s u
    → Safe id group u.workers u.world
Reach-Safe id group h here = h
Reach-Safe id group h (next r m) = Move-Safe id group m (Reach-Safe id group h r)

-- However the workers of all groups interleave, whatever calls fail, also after they took effect,
-- and whichever workers die: from an inbox whose unique index holds for the key and no worker, at
-- most one worker at a time runs the handler for an event in a group. Replays are left out.
pub handling_exclusive :
    (id group : String) (s u : System)
    → s.workers ≡ []
    → IsUnique id group s.world.inbox
    → Reach s u
    → handling id group u.workers ≤ 1
handling_exclusive id group s u start unique r =
    let safe = Reach-Safe id group (unique, rw start (omega arith, λ h. absurd (omega arith))) r in
    omega (arith, handling-le-holders id group u.workers, safe.1.0)
