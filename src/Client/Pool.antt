-- ===== src/Client/Pool.antt =====
-- shuttle/src/client/pool.rs: the pool of reusable sessions. Each function is one critical section
-- of the mutex, with the clock reading and the shutdown flag that it sees; what it logs through
-- `SessionEvent::emit` is returned. Durations and instants are numbers of nanoseconds, and
-- `duration_since` is truncated subtraction, as in the standard library.
pub mod Scan
pub mod Steps
pub mod Sections
pub mod Invariant
pub mod Drain
pub mod Retry
mod Tests
use noisy_shuttle.Base.{
  ℕ, suc, ◌+◌, ◌-◌, ◌%◌, ◌^◌, Bool, true, false, not, ◌&&◌, ◌||◌, List, [], ◌∷◌, ◌++◌, Option, none,
  some, ltb, leb, ◌==◌, if◌then◌else◌, length,
}
use noisy_shuttle.Results.{Result, ok, err}
use noisy_shuttle.Opt.{ReuseConfig}
use noisy_shuttle.Session.Lifecycle.Reason.{
  SessionEvent, pool_hit, pool_miss, checkout_failure, session_reused, idle_eviction,
  max_age_eviction, max_requests_eviction, fallback_to_one_shot,
}

-- Addition on `u64` and `usize`.
abbrev pub wrap64 : ℕ → ℕ
wrap64 n = n % 18446744073709551616

pub record PooledSession (S : Type 0) : Type 0 where
  pub stream : S
  pub use_count : ℕ
  pub created_at : ℕ
  pub last_used : ℕ
  pub reuse_count : ℕ

-- `idle` has the back of the deque, the session returned last, at its head.
pub record PoolInner (S : Type 0) : Type 0 where
  pub idle : List (PooledSession S)
  pub checked_out : ℕ
  pub closed : Bool
  pub checkout_count : ℕ
  pub reuse_count : ℕ

pub data PoolError : Type 0 where
  shutting_down pool_closed closed_while_connecting connect_failed no_session : PoolError

-- What the first part of a checkout finds.
pub data Found (S : Type 0) : Type 0 where
  refused : PoolError → Found S
  hit : PooledSession S → Found S
  miss : Found S

-- What happens around the two critical sections of a checkout: the shutdown flag and the clock in
-- the first; the clock and the answer of the connector, and what other tasks did to the pool
-- meanwhile; the shutdown flag in the second.
pub record CheckoutEnv (S : Type 0) : Type 0 where
  pub shutdown : Bool
  pub now : ℕ
  pub connect_now : ℕ
  pub connected : Option S
  pub meanwhile : PoolInner S → PoolInner S
  pub shutdown_after : Bool

module _ {S : Type 0} where
  unfoldable pub new_inner : PoolInner S
  new_inner = record {
    idle = [];
    checked_out = 0;
    closed = false;
    checkout_count = 0;
    reuse_count = 0;
  }

  unfoldable pub is_reusable : ReuseConfig → PooledSession S → ℕ → Bool
  is_reusable config session now =
      ltb session.use_count config.max_requests
      && ltb (now - session.created_at) config.max_age
      && ltb (now - session.last_used) config.idle_timeout

  unfoldable pub emit_eviction : ReuseConfig → PooledSession S → ℕ → List SessionEvent
  emit_eviction config session now =
      if leb config.max_requests session.use_count
      then max_requests_eviction ∷ []
      else if leb config.max_age (now - session.created_at)
      then max_age_eviction ∷ []
      else if leb config.idle_timeout (now - session.last_used)
      then idle_eviction ∷ []
      else []

  -- A session as `checkout` hands it out again.
  unfoldable pub reused : PooledSession S → ℕ → PooledSession S
  reused session now = record session {
    use_count = wrap64 (session.use_count + 1);
    reuse_count = wrap64 (session.reuse_count + 1);
    last_used = now;
  }

  -- `while let Some(session) = inner.idle.pop_back()`: the session found, what stays idle, and the
  -- evictions logged on the way.
  unfoldable pub pop_reusable :
      ReuseConfig
      → ℕ
      → List (PooledSession S)
      → Option (PooledSession S) × List (PooledSession S) × List SessionEvent
  pop_reusable config now [] = (none, [], [])
  pop_reusable config now (session ∷ idle) =
      let (found, rest, events) = pop_reusable config now idle in
      if is_reusable config session now
      then (some session, idle, [])
      else (found, rest, emit_eviction config session now ++ events)

  -- The arm of the loop that returns, and what comes after the loop.
  on_found :
      ℕ
      → PoolInner S
      → Option (PooledSession S) × List (PooledSession S) × List SessionEvent
      → PoolInner S × Found S × List SessionEvent
  unfolding reused
  on_found now inner (some session, idle, events) =
      let session' = reused session now in
      (
        record inner {
          idle = idle;
          checked_out = wrap64 (inner.checked_out + 1);
          checkout_count = wrap64 (inner.checkout_count + 1);
          reuse_count = wrap64 (inner.reuse_count + 1);
        },
        hit session',
        events ++ (pool_hit ∷ session_reused session'.reuse_count ∷ []),
      )
  on_found now inner (none, idle, events) =
      (record inner { idle = idle }, miss, events ++ (pool_miss ∷ []))

  -- `checkout` up to the call of the connector.
  unfoldable pub checkout_idle :
      ReuseConfig
      → (shutdown : Bool) → (now : ℕ) → PoolInner S
      → PoolInner S × Found S × List SessionEvent
  unfolding on_found
  checkout_idle config shutdown now inner =
      if shutdown
      then (inner, refused shutting_down, checkout_failure ∷ [])
      else if inner.closed
      then (inner, refused pool_closed, checkout_failure ∷ [])
      else on_found now inner (pop_reusable config now inner.idle)

  unfoldable pub new_session : S → ℕ → PooledSession S
  new_session stream now = record {
    stream = stream;
    use_count = 1;
    created_at = now;
    last_used = now;
    reuse_count = 0;
  }

  -- `checkout` from the connector's answer on, where `none` is an error; `now` is the reading that
  -- `new_session` takes before it connects.
  unfoldable pub checkout_new :
      (connected : Option S)
      → (shutdown : Bool) → (now : ℕ) → PoolInner S
      → PoolInner S × Result PoolError (PooledSession S) × List SessionEvent
  unfolding new_session
  checkout_new none shutdown now inner = (inner, err connect_failed, checkout_failure ∷ [])
  checkout_new (some stream) shutdown now inner =
      if inner.closed || shutdown
      then (inner, err closed_while_connecting, checkout_failure ∷ [])
      else (
        record inner {
          checked_out = wrap64 (inner.checked_out + 1);
          checkout_count = wrap64 (inner.checkout_count + 1);
        },
        ok (new_session stream now),
        [],
      )

  settle :
      CheckoutEnv S
      → PoolInner S × Found S × List SessionEvent
      → PoolInner S × Result PoolError (PooledSession S) × List SessionEvent
  settle env (inner, refused e, events) = (inner, err e, events)
  settle env (inner, hit session, events) = (inner, ok session, events)
  settle env (inner, miss, events) =
      let (inner', result, more) =
        checkout_new env.connected env.shutdown_after env.connect_now (env.meanwhile inner) in
      (inner', result, events ++ more)

  -- One call of `checkout`: its two critical sections, and the connector between them.
  unfoldable pub checkout :
      ReuseConfig
      → CheckoutEnv S
      → PoolInner S
      → PoolInner S × Result PoolError (PooledSession S) × List SessionEvent
  unfolding settle
  checkout config env inner = settle env (checkout_idle config env.shutdown env.now inner)

  -- VecDeque::pop_front: the oldest idle session goes.
  abbrev pub pop_front : List (PooledSession S) → List (PooledSession S)
  pop_front [] = []
  pop_front (s ∷ []) = []
  pop_front (s ∷ t ∷ idle) = s ∷ pop_front (t ∷ idle)

  -- What `return_session` does with the idle list once the counter is settled.
  unfoldable pub keep_session :
      ReuseConfig
      → (healthy shutdown : Bool) → (now : ℕ) → PooledSession S
      → PoolInner S
      → PoolInner S × List SessionEvent
  keep_session config healthy shutdown now session inner =
      if not healthy || not (is_reusable config session now)
      then (inner, if healthy then emit_eviction config session now else [])
      else if inner.closed || shutdown
      then (inner, [])
      else if leb config.max_idle (length inner.idle)
      then if ltb 0 inner.checked_out then (inner, []) else (
        record inner { idle = session ∷ pop_front inner.idle },
        if ltb 0 (length inner.idle) then idle_eviction ∷ [] else [],
      )
      else (record inner { idle = session ∷ inner.idle }, [])

  -- The pool, the events, and whether `drain_notify` is notified.
  unfoldable pub return_session :
      ReuseConfig
      → (healthy shutdown : Bool) → (now : ℕ) → PooledSession S
      → PoolInner S
      → PoolInner S × List SessionEvent × Bool
  unfolding keep_session
  return_session config healthy shutdown now session inner =
      let session' = record session { last_used = now } in
      let notify = ltb 0 inner.checked_out in
      let inner' = if notify then record inner { checked_out = inner.checked_out - 1 } else inner in
      let (inner'', events) = keep_session config healthy shutdown now session' inner' in
      (inner'', events, notify)

  -- `discard_checked_out`, with whether it notifies.
  unfoldable pub discard_checked_out : PoolInner S → PoolInner S × Bool
  discard_checked_out inner =
      if inner.checked_out == 0
      then (inner, false)
      else (record inner { checked_out = inner.checked_out - 1 }, true)

  -- The first critical section of `close_all`: the pool, and the number still checked out.
  unfoldable pub close_idle : PoolInner S → PoolInner S × ℕ
  close_idle inner = (record inner { closed = true; idle = [] }, inner.checked_out)
