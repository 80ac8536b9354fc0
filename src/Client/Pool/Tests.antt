-- ===== src/Client/Pool/Tests.antt =====
-- shuttle/src/client/pool.rs: examples of a pool, whose sessions have numbers for streams.
use noisy_shuttle.Base.{
  ℕ, ◌≡◌, refl, Bool, true, false, List, [], ◌∷◌, ◌++◌, none, some, arith, All, length,
}
use noisy_shuttle.Results.{ok}
use noisy_shuttle.Opt.{ReuseConfig}
use noisy_shuttle.Opt.Validation.{IsValid}
use noisy_shuttle.Session.Lifecycle.Reason.{
  SessionEvent, idle_eviction, fallback_to_one_shot, pool_hit, session_reused,
}
use noisy_shuttle.Client.Pool.{
  PooledSession, PoolInner, new_inner, is_reusable, emit_eviction, reused, pop_reusable, checkout,
  checkout_idle, checkout_new, new_session, return_session, keep_session, discard_checked_out,
  CheckoutEnv,
}
use noisy_shuttle.Client.Pool.Scan.{IsExpired, pop_reusable-some}
use noisy_shuttle.Client.Pool.Steps.{System, connect, give_back, Reach, start, next}
use noisy_shuttle.Client.Pool.Invariant.{Inv, Reach-Inv}
use noisy_shuttle.Client.Pool.Drain.{
  Notify, Drain, timed_out, begin, drain_steps, drain_completes, drain_lost_wakeup,
}
use noisy_shuttle.Client.Pool.Drain
use noisy_shuttle.Client.Pool.Retry.{SessionHandle, retry_after_protocol_error, retry-checked_out}

abbrev config : ReuseConfig
config = record {
  max_idle = 2;
  max_requests = 3;
  max_age = 100;
  idle_timeout = 50;
  keepalive_interval = 20;
  keepalive_timeout = 10;
  jitter_percent = 0;
}

config-IsValid : IsValid config
config-IsValid = omega arith

abbrev session : (stream used created last : ℕ) → PooledSession ℕ
session stream used created last = record {
  stream = stream;
  use_count = used;
  created_at = created;
  last_used = last;
  reuse_count = used;
}

abbrev pool : List (PooledSession ℕ) → ℕ → PoolInner ℕ
pool idle out = record {
  idle = idle;
  checked_out = out;
  closed = false;
  checkout_count = 1;
  reuse_count = 0;
}

abbrev first : PooledSession ℕ
first = record { stream = 7; use_count = 1; created_at = 5; last_used = 5; reuse_count = 0 }

abbrev back_again : PooledSession ℕ
back_again = record { stream = 8; use_count = 1; created_at = 5; last_used = 9; reuse_count = 0 }

abbrev one_idle : System ℕ
one_idle = record { inner = pool (back_again ∷ []) 0; held = []; lost = 0 }

one_idle-Reach : Reach config one_idle
unfolding new_inner checkout_new new_session return_session keep_session is_reusable
one_idle-Reach =
    next
      (next start (
        connect (record { inner = new_inner; held = []; lost = 0 }) (some 7) false 5 first refl
          (omega arith)))
      (give_back (record { inner = pool [] 1; held = first ∷ []; lost = 0 }) true false 9 first 8 []
        [] refl)

Reach-Inv_example : Inv config one_idle
Reach-Inv_example = Reach-Inv config {y = one_idle} config-IsValid (omega arith) one_idle-Reach

-- The session on top was idle too long.
abbrev stack : List (PooledSession ℕ)
stack = session 1 1 0 5 ∷ session 2 1 30 60 ∷ session 3 1 30 50 ∷ []

pop_stack :
    pop_reusable config 70 stack
    ≡ (some (session 2 1 30 60), session 3 1 30 50 ∷ [], idle_eviction ∷ [])
unfolding pop_reusable is_reusable emit_eviction
pop_stack = refl

pop_reusable-some_example :
    (is_reusable config (session 2 1 30 60) 70 ≡ true)
    × (skipped : List (PooledSession ℕ)) × (stack
        ≡ skipped ++ (session 2 1 30 60 ∷ session 3 1 30 50 ∷ []))
    × All (IsExpired config 70) skipped
    × (length (idle_eviction ∷ []) ≡ length skipped)
pop_reusable-some_example = pop_reusable-some config 70 stack pop_stack

pop_one : pop_reusable config 70 (session 1 1 0 5 ∷ []) ≡ (none, [], idle_eviction ∷ [])
unfolding pop_reusable is_reusable emit_eviction
pop_one = refl

-- A notification that knows of one waiter: none yet, waiting, or woken.
data Waiter : Type 0 where
  absent asleep awake : Waiter

abbrev notify_waiter : Waiter → Waiter
notify_waiter absent = absent
notify_waiter asleep = awake
notify_waiter awake = awake

abbrev is_awake : Waiter → Bool
is_awake absent = false
is_awake asleep = false
is_awake awake = true

abbrev one_waiter : Notify
one_waiter = record {
  State = Waiter;
  notified = λ n. asleep;
  notify_waiters = notify_waiter;
  woken = is_awake;
  wakes = λ n. refl;
  no_permit = λ n. refl;
}

-- The 30 seconds are over at the third action that follows.
abbrev lates : List Bool
lates = false ∷ false ∷ true ∷ []

drain_lost_wakeup_example :
    let y = drain_steps one_waiter (false ∷ lates) (
      Drain.give_back one_waiter config true false 9 first
        (drain_steps one_waiter (false ∷ []) (begin one_waiter (pool [] 1) absent))) in
    (y.inner.checked_out ≡ 0) × (y.phase ≡ timed_out)
drain_lost_wakeup_example =
    drain_lost_wakeup one_waiter config true false 9 first (pool [] 1) absent lates refl

abbrev env : CheckoutEnv ℕ
env = record {
  shutdown = false;
  now = 70;
  connect_now = 70;
  connected = none;
  meanwhile = λ q. q;
  shutdown_after = false;
}

abbrev failed_handle : SessionHandle ℕ
failed_handle = record { session = some first; bytes_relayed = false; retry_used = false }

abbrev retried_session : PooledSession ℕ
retried_session = session 2 2 30 70

abbrev new_handle : SessionHandle ℕ
new_handle = record { session = some retried_session; bytes_relayed = false; retry_used = true }

abbrev before : PoolInner ℕ
before = pool (session 2 1 30 60 ∷ []) 1

abbrev after : PoolInner ℕ
after = record { idle = []; checked_out = 1; closed = false; checkout_count = 2; reuse_count = 1 }

abbrev retry_events : List SessionEvent
retry_events = fallback_to_one_shot ∷ pool_hit ∷ session_reused 2 ∷ []

retry_succeeds :
    retry_after_protocol_error config env false failed_handle before
    ≡ (after, ok new_handle, retry_events)
unfolding retry_after_protocol_error checkout checkout_idle pop_reusable is_reusable reused
    discard_checked_out
retry_succeeds = refl

retry-checked_out_example : after.checked_out ≡ before.checked_out
retry-checked_out_example =
    retry-checked_out config env false failed_handle new_handle before after retry_events
      (λ q. refl) (omega arith) (omega arith) retry_succeeds
