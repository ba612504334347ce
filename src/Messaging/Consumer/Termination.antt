-- ===== src/Messaging/Consumer/Termination.antt =====
-- The number of calls of one delivery.
use surgepay.Messaging.Consumer.{
  returned, commit_processed, mark_processed, handle, commit_skip, find_current, reload, claim,
  find_collided, threw, mark_failed, commit_dlq, sync_depth, mark_dlq_sent, publish_dlq,
  mark_retrying, load_record, insert, find_existing, advance, World, Reply, step, Worker, run,
  Point,
}
use surgepay.Common.{[], ◌∷◌, ◌≡◌, arith, ◌-◌, length, ◌≤◌, List, ℕ}

-- How many calls can still follow from a point.
abbrev pub calls_left : Point → ℕ
calls_left find_existing = 14
calls_left insert = 13
calls_left find_collided = 12
calls_left claim = 11
calls_left reload = 10
calls_left find_current = 2
calls_left commit_skip = 1
calls_left handle = 9
calls_left mark_processed = 8
calls_left commit_processed = 7
calls_left (load_record e) = 6
calls_left (mark_retrying n e) = 1
calls_left (publish_dlq n e) = 5
calls_left (mark_dlq_sent n) = 4
calls_left (sync_depth n) = 3
calls_left (commit_dlq n) = 2
calls_left (mark_failed n e) = 1
calls_left returned = 0
calls_left (threw e) = 0

module _ (now : ℕ) (v : Worker) (r : Reply) (w : World) where
  advance-calls_left : (p : Point) → calls_left (advance now v r w p).0 ≤ calls_left p - 1
  unfolding advance
  advance-calls_left find_existing = ground arith
  advance-calls_left insert = ground arith
  advance-calls_left _ = ground arith

-- Whatever is answered, a delivery returns or throws within fourteen calls, and so is never left
-- waiting by the code itself.
pub run_ends :
    (now : ℕ) (rs : List Reply) (v : Worker) (w : World)
    → calls_left v.at ≤ length rs
    → calls_left (run now v rs w).0.at ≡ 0
unfolding run step
run_ends now [] v w h = omega arith
run_ends now (r ∷ rs) v w h =
    run_ends now rs (step now v r w).0 (step now v r w).1
      (omega (arith, advance-calls_left now v r w v.at))
