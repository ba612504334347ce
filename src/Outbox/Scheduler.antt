-- ===== src/Outbox/Scheduler.antt =====
-- apps/outbox-relay/src/scheduler.ts: the timer loop that starts the relay's cycles. Timers are
-- numbered in the order of `setTimeout`; a cycle is `processBatch`, whatever it ends with.
use surgepay.Common.{
  inr, inl, Bool-cases, length, either_branch, refl, ◌≤◌, ◌||◌, arith, ◌=ℕ◌, [], ◌∷◌, ◌≡◌, some,
  none, ◌-◌, ◌+◌, not, ltb, keep, Option, List, ℕ, false, true, if◌then◌else◌, Bool,
}

pub record Scheduler : Type 0 where
  pub is_running : Bool
  pub is_polling : Bool
  pub timeout_id : Option ℕ
  pub timers : List ℕ
  pub next_timer : ℕ
  pub cycles : ℕ

abbrev pub initial : Scheduler
initial = record {
  is_running = false;
  is_polling = false;
  timeout_id = none;
  timers = [];
  next_timer = 0;
  cycles = 0;
}

unfoldable pub schedule_next_poll : Scheduler → Scheduler
schedule_next_poll s = if not s.is_running then s else record s {
  timeout_id = some s.next_timer;
  timers = s.next_timer ∷ s.timers;
  next_timer = s.next_timer + 1;
}

abbrev pub drop_timer : ℕ → List ℕ → List ℕ
drop_timer k = keep (λ i. not (i =ℕ k))

abbrev pub clear_timeout : Option ℕ → List ℕ → List ℕ
clear_timeout none timers = timers
clear_timeout (some k) timers = drop_timer k timers

unfoldable pub on_application_bootstrap : Scheduler → Scheduler
on_application_bootstrap s = schedule_next_poll (record s { is_running = true })

unfoldable pub on_application_shutdown : Scheduler → Scheduler
on_application_shutdown s = record s {
  is_running = false;
  timers = clear_timeout s.timeout_id s.timers;
}

abbrev pub start_cycle : Scheduler → Scheduler
start_cycle s = record s { is_polling = true; cycles = s.cycles + 1 }

-- The callback of a timer.
unfoldable pub on_timeout : Scheduler → Scheduler
on_timeout s =
    if not s.is_running then s else if s.is_polling then schedule_next_poll s else start_cycle s

-- `finally`
unfoldable pub on_cycle_end : Scheduler → Scheduler
on_cycle_end s = schedule_next_poll (record s { is_polling = false; cycles = s.cycles - 1 })

pub data Signal : Type 0 where
  shuts_down : Signal
  fires : ℕ → Signal
  cycle_ends : Signal

abbrev pub is_pending : ℕ → List ℕ → Bool
is_pending k [] = false
is_pending k (i ∷ is) = i =ℕ k || is_pending k is

-- A timer that is not pending does not fire, and no cycle ends that is not active.
unfoldable pub on_signal : Signal → Scheduler → Scheduler
on_signal shuts_down s = on_application_shutdown s
on_signal (fires k) s =
    if is_pending k s.timers then on_timeout (record s { timers = drop_timer k s.timers }) else s
on_signal cycle_ends s = if ltb 0 s.cycles then on_cycle_end s else s

unfoldable pub on_signals : List Signal → Scheduler → Scheduler
on_signals [] s = s
on_signals (x ∷ xs) s = on_signals xs (on_signal x s)

-- Waiting for its one timer, in its one cycle, or shut down with at most one cycle left.
pub data IsSteady : Scheduler → Type 0 where
  waiting_for :
      (k n : ℕ)
      → IsSteady (record {
        is_running = true;
        is_polling = false;
        timeout_id = some k;
        timers = k ∷ [];
        next_timer = n;
        cycles = 0;
      })
  in_cycle :
      (last : Option ℕ) (n : ℕ)
      → IsSteady (record {
        is_running = true;
        is_polling = true;
        timeout_id = last;
        timers = [];
        next_timer = n;
        cycles = 1;
      })
  shut :
      (polling : Bool) (last : Option ℕ) (n c : ℕ)
      → c ≤ 1
      → IsSteady (record {
        is_running = false;
        is_polling = polling;
        timeout_id = last;
        timers = [];
        next_timer = n;
        cycles = c;
      })

drop_only : (k : ℕ) → drop_timer k (k ∷ []) ≡ []
unfolding keep
drop_only k = ground arith

clear_nothing : (last : Option ℕ) → clear_timeout last [] ≡ []
unfolding keep
clear_nothing none = refl
clear_nothing (some k) = refl

on_signal-IsSteady : (x : Signal) (s : Scheduler) → IsSteady s → IsSteady (on_signal x s)
unfolding on_signal on_application_shutdown on_timeout on_cycle_end schedule_next_poll keep
on_signal-IsSteady shuts_down s (waiting_for k n) =
    rw (drop_only k) (shut false (some k) n 0 (omega arith))
on_signal-IsSteady shuts_down s (in_cycle last n) =
    rw (clear_nothing last) (shut true last n 1 (omega arith))
on_signal-IsSteady shuts_down s (shut polling last n c h) =
    rw (clear_nothing last) (shut polling last n c h)
on_signal-IsSteady (fires i) s (waiting_for k n) = elim (Bool-cases (k =ℕ i)) [
  | inl mine ↦ rw mine (in_cycle (some k) n)
  | inr other ↦ rw other (waiting_for k n)
]
on_signal-IsSteady (fires i) s (in_cycle last n) = in_cycle last n
on_signal-IsSteady (fires i) s (shut polling last n c h) = shut polling last n c h
on_signal-IsSteady cycle_ends s (waiting_for k n) = waiting_for k n
on_signal-IsSteady cycle_ends s (in_cycle last n) = waiting_for n (n + 1)
on_signal-IsSteady cycle_ends s (shut polling last n c h) =
    either_branch IsSteady (ltb 0 c) _ _ (shut false last n (c - 1) (omega arith))
      (shut polling last n c h)

on_signals-IsSteady : (xs : List Signal) (s : Scheduler) → IsSteady s → IsSteady (on_signals xs s)
unfolding on_signals
on_signals-IsSteady [] s h = h
on_signals-IsSteady (x ∷ xs) s h = on_signals-IsSteady xs _ (on_signal-IsSteady x s h)

booted-IsSteady : IsSteady (on_application_bootstrap initial)
unfolding on_application_bootstrap schedule_next_poll
booted-IsSteady = waiting_for 0 1

-- Exactly one timer is pending or one cycle is active while the scheduler runs, and no timer is left
-- after its shutdown.
abbrev pub HasOneLoop : Scheduler → Type 0
HasOneLoop s =
    (s.is_running ≡ true → length s.timers + s.cycles ≡ 1)
    × (s.is_running ≡ false → s.timers ≡ [])
    × (s.cycles ≤ 1)

IsSteady-HasOneLoop : (s : Scheduler) → IsSteady s → HasOneLoop s
IsSteady-HasOneLoop s (waiting_for k n) = (λ e. refl, λ e. cc, omega arith)
IsSteady-HasOneLoop s (in_cycle last n) = (λ e. refl, λ e. refl, omega arith)
IsSteady-HasOneLoop s (shut polling last n c h) = (λ e. cc, λ e. refl, h)

-- Whatever timers fire, cycles end and shutdowns come after the start of the application: while the
-- scheduler runs it has either one pending timer or one active cycle, so its polling neither stops nor
-- doubles, and a scheduler that was shut down has no timer left and at most one cycle to finish.
pub on_signals-HasOneLoop :
    (xs : List Signal) → HasOneLoop (on_signals xs (on_application_bootstrap initial))
on_signals-HasOneLoop xs = IsSteady-HasOneLoop _ (on_signals-IsSteady xs _ booted-IsSteady)
