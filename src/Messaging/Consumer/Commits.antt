-- ===== src/Messaging/Consumer/Commits.antt =====
-- The effects that stand behind the committed offsets.
use surgepay.Messaging.Consumer.{
  step, returned, find_current, reload, claim, find_collided, find_existing, threw, mark_failed,
  mark_retrying, load_record, insert, commit_skip, commit_processed, handle, publish_dlq,
  mark_processed, commit_dlq, sync_depth, advance, Reply, mark_dlq_sent, DeadLetterRecord, World,
  Worker, Point,
}
use surgepay.Common.{
  sym, subst, All-join, All-map, All-split, ◌≢◌, eq_iff, Bool-cases, All, refl, inr, none, inl,
  Option-cases, eq_refl, some, ◌++◌, [], ◌⊎◌, arith, ◌&&◌, ◌==◌, ◌≡◌, Option, ◌∷◌, ◌||◌, false,
  true, List, String, Bool, ℕ,
}
use surgepay.Messaging.Consumer.Locking.{advance-other, advance-IsUnique, claim_cases, is_closed}
use surgepay.Messaging.Inbox.{
  failed, dlq_sent, retrying, processed, ok, InboxEvent, Inbox, new_event, record_not_found, err,
  update_status, InboxStatus,
}
use surgepay.Messaging.Inbox.Laws.{
  update_status_hit, update_status_absent, record_received_cases, row-record_received, IsUnique,
  row,
}
use surgepay.Messaging.Consumer.Exclusion.{
  crashed, delivered, apart, here, next, steps, Reach, Move, System, works_on,
}

abbrev pub in_handled : String → String → List (String × String) → Bool
in_handled id group [] = false
in_handled id group ((i, g) ∷ rest) = (i == id && g == group) || in_handled id group rest

abbrev pub in_dead_letters : String → String → List DeadLetterRecord → Bool
in_dead_letters id group [] = false
in_dead_letters id group (d ∷ rest) =
    (d.original_event.event_id == id && d.consumer == group) || in_dead_letters id group rest

-- The handler of the group ran on the event, or its dead letter was published.
abbrev pub settled : String → String → World → Bool
settled id group w = in_handled id group w.handled || in_dead_letters id group w.dead_letters

-- The points that lead to a commit or to a closing mark.
abbrev vouches : Point → Bool
vouches mark_processed = true
vouches commit_processed = true
vouches commit_skip = true
vouches (mark_dlq_sent n) = true
vouches (sync_depth n) = true
vouches (commit_dlq n) = true
vouches _ = false

-- A closed row is the trace of an effect.
abbrev pub IsHonest : String → String → World → Type 0
IsHonest id group w = is_closed (row id group w.inbox) ≡ true → settled id group w ≡ true

module _ (now : ℕ) (v : Worker) (r : Reply) (w : World) where
  abbrev after : Point → Point × World
  after p = advance now v r w p

  advance-settled :
      (id group : String) (p : Point)
      → settled id group w ≡ true
      → settled id group (after p).1 ≡ true
  unfolding advance
  advance-settled id group handle h = ground arith
  advance-settled id group (publish_dlq n e) h = ground arith
  advance-settled id group insert h = ground arith
  advance-settled id group _ h = ground arith

  advance-commits : (p : Point) → ((after p).1.commits ≡ w.commits) ⊎ (vouches p ≡ true)
  unfolding advance
  advance-commits handle = ground arith
  advance-commits _ = ground arith

  updated_row :
      (s : InboxStatus) (retry : Option ℕ)
      → (update_status now w.inbox v.envelope.event_id v.group_id s retry ≡ err record_not_found)
        ⊎ ((u : Inbox) × (x : InboxEvent) × (update_status now w.inbox v.envelope.event_id
                v.group_id s retry
              ≡ ok u)
            × (row v.envelope.event_id v.group_id u ≡ some x)
            × (x.status ≡ s))
  updated_row s retry = elim (Option-cases (row v.envelope.event_id v.group_id w.inbox)) [
    | inl missing ↦
        inl (update_status_absent v.envelope.event_id v.group_id now w.inbox s retry missing)
    | inr (x, found) ↦
        let (u, run, written, _) =
          update_status_hit v.envelope.event_id v.group_id now w.inbox s retry x found in
        inr (u, _, run, written, refl)
  ]

  advance-IsHonest :
      (p : Point)
      → IsUnique v.envelope.event_id v.group_id w.inbox
      → IsHonest v.envelope.event_id v.group_id w
      → (vouches p ≡ true → settled v.envelope.event_id v.group_id w ≡ true)
      → IsHonest v.envelope.event_id v.group_id (after p).1
        × (vouches (after p).0 ≡ true → settled v.envelope.event_id v.group_id (after p).1 ≡ true)
  unfolding advance
  advance-IsHonest find_existing u h g = ground arith
  advance-IsHonest insert u h g = ground (
    arith,
    row-record_received v.envelope.event_id v.group_id now w.inbox
        (w.inbox ++ new_event now v.envelope.event_id v.group_id ∷ []),
    record_received_cases v.envelope.event_id v.group_id now w.inbox,
  )
  advance-IsHonest find_collided u h g = ground arith
  advance-IsHonest claim u h g =
      ground (arith, claim_cases v.envelope.event_id v.group_id w.inbox u)
  advance-IsHonest reload u h g = ground arith
  advance-IsHonest find_current u h g = ground arith
  advance-IsHonest handle u h g = ground (arith, eq_refl v.envelope.event_id, eq_refl v.group_id)
  advance-IsHonest mark_processed u h g = ground (arith, updated_row processed none)
  advance-IsHonest commit_processed u h g = ground arith
  advance-IsHonest commit_skip u h g = ground arith
  advance-IsHonest (load_record e) u h g = ground arith
  advance-IsHonest (mark_retrying n e) u h g = ground (arith, updated_row retrying (some n))
  advance-IsHonest (publish_dlq n e) u h g =
      ground (arith, eq_refl v.envelope.event_id, eq_refl v.group_id)
  advance-IsHonest (mark_dlq_sent n) u h g = ground (arith, updated_row dlq_sent (some n))
  advance-IsHonest (sync_depth n) u h g = ground arith
  advance-IsHonest (commit_dlq n) u h g = ground arith
  advance-IsHonest (mark_failed n e) u h g = ground (arith, updated_row failed (some n))
  advance-IsHonest returned u h g = (h, g)
  advance-IsHonest (threw e) u h g = (h, g)

abbrev Vouched : String → String → World → Worker → Type 0
Vouched id group w x = works_on id group x ≡ true → vouches x.at ≡ true → settled id group w ≡ true

abbrev Sound : String → String → List Worker → World → Type 0
Sound id group vs w = IsUnique id group w.inbox × IsHonest id group w × All (Vouched id group w) vs

module _ (id group : String) (now : ℕ) (v : Worker) (r : Reply) (w : World) where
  step-settled : settled id group w ≡ true → settled id group (step now v r w).1 ≡ true
  unfolding step
  step-settled h = advance-settled now v r w id group v.at h

  step-Vouched :
      IsUnique id group w.inbox
      → IsHonest id group w
      → Vouched id group w v
      → IsUnique id group (step now v r w).1.inbox
        × IsHonest id group (step now v r w).1
        × Vouched id group (step now v r w).1 (step now v r w).0
  unfolding step
  step-Vouched u h g = elim (Bool-cases (works_on id group v)) [
    | inl mine ↦ ground (
      arith,
      mine,
      eq_iff v.envelope.event_id id,
      eq_iff v.group_id group,
      advance-IsUnique now v r w v.at,
      advance-IsHonest now v r w v.at,
    )
    | inr other ↦ ground (
      arith,
      other,
      advance-other now v r w id group (apart id group v other) v.at,
      advance-settled now v r w id group v.at,
    )
  ]

Move-Sound :
    (id group : String) {s u : System}
    → Move s u
    → Sound id group s.workers s.world
    → Sound id group u.workers u.world
Move-Sound id group {s} {u} (steps before after v now r e f g) (unique, honest, all) =
    let (b, mine, a) = All-split (Vouched id group s.world) before after v (rw e at all) in
    let (unique', honest', mine') = step-Vouched id group now v r s.world unique honest mine in
    let later =
      All-map (Vouched id group s.world) (Vouched id group (step now v r s.world).1)
        (λ x keep own sure. step-settled id group now v r s.world (keep own sure)) in
    rw (f, g)
      (
        unique',
        honest',
        All-join (Vouched id group (step now v r s.world).1) before _ (later before b)
            (mine', later after a),
      )
Move-Sound id group {s} {u} (delivered v e f g) (unique, honest, all) =
    rw f (subst (Sound id group (v ∷ s.workers)) (sym g) (unique, honest, (λ own sure. cc, all)))
Move-Sound id group {s} {u} (crashed before after v e f g) (unique, honest, all) =
    let (b, mine, a) = All-split (Vouched id group s.world) before after v (rw e at all) in
    rw (f, g) (unique, honest, All-join (Vouched id group s.world) before after b a)

Reach-Sound :
    (id group : String) {s u : System}
    → Sound id group s.workers s.world
    → Reach s u
    → Sound id group u.workers u.world
Reach-Sound id group h here = h
Reach-Sound id group h (next r m) = Move-Sound id group m (Reach-Sound id group h r)

-- However workers interleave, fail and die: a step of a worker that changes the committed offsets
-- is a step of one whose event the handler of its group ran on, or whose dead letter was published.
-- The run starts with no worker and with a row of the event that is unique and closed only after
-- such an effect; replays are left out.
pub commit_after_effect :
    (s u : System) (before after : List Worker) (v : Worker) (now : ℕ) (r : Reply)
    → s.workers ≡ []
    → IsUnique v.envelope.event_id v.group_id s.world.inbox
    → IsHonest v.envelope.event_id v.group_id s.world
    → Reach s u
    → u.workers ≡ before ++ v ∷ after
    → (step now v r u.world).1.commits ≢ u.world.commits
    → settled v.envelope.event_id v.group_id u.world ≡ true
unfolding step
commit_after_effect s u before after v now r start unique honest reached e changed =
    let id = v.envelope.event_id in
    let group = v.group_id in
    let (_, _, all) = Reach-Sound id group {s = s} {u = u} (unique, honest, rw start tt) reached in
    let (_, mine, _) = All-split (Vouched id group u.world) before after v (rw e at all) in
    elim (advance-commits now v r u.world v.at) [
      | inl same ↦ absurd (changed same)
      | inr sure ↦ mine (ground (arith, eq_refl id, eq_refl group)) sure
    ]
