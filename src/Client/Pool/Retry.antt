-- ===== src/Client/Pool/Retry.antt =====
-- shuttle/src/client/pool.rs: `SessionHandle`, and the one retry that it allows.
use noisy_shuttle.Base.{
  ◌+◌, ◌<◌, ◌≡◌, Bool, true, false, ◌||◌, List, [], ◌∷◌, Option, none, some, arith, if◌then◌else◌,
  inl, inr, ◌⊎◌, Option-cases,
}
use noisy_shuttle.Results.{Result, ok, err, is_ok, Result-cases}
use noisy_shuttle.Opt.{ReuseConfig}
use noisy_shuttle.Client.Pool.Steps.{usize_limit}
use noisy_shuttle.Session.Lifecycle.Reason.{SessionEvent, fallback_to_one_shot}
use noisy_shuttle.Client.Pool.{
  PooledSession, PoolInner, PoolError, no_session, CheckoutEnv, checkout, checkout_idle,
  checkout_new, pop_reusable, discard_checked_out, wrap64,
}

-- The handle without its reference to the pool, which is passed along.
pub record SessionHandle (S : Type 0) : Type 0 where
  pub session : Option (PooledSession S)
  pub bytes_relayed : Bool
  pub retry_used : Bool

-- The caller's own error, or the pool's.
pub data RetryError (E : Type 0) : Type 0 where
  original : E → RetryError E
  pool : PoolError → RetryError E

module _ {S : Type 0} where
  -- checkout_with_retry
  unfoldable pub checkout_with_retry :
      ReuseConfig
      → CheckoutEnv S
      → PoolInner S
      → PoolInner S × Result PoolError (SessionHandle S) × List SessionEvent
  checkout_with_retry config env inner =
      let (inner', result, events) = checkout config env inner in
      (
        inner',
        elim result [
          | ok session ↦
              ok (record { session = some session; bytes_relayed = false; retry_used = false })
          | err e ↦ err e
        ],
        events,
      )

  unfoldable pub mark_bytes_relayed : SessionHandle S → SessionHandle S
  mark_bytes_relayed h = record h { bytes_relayed = true }

  unfoldable pub into_session : SessionHandle S → Result PoolError (PooledSession S)
  into_session h = elim h.session [ some session ↦ ok session | none ↦ err no_session ]

module _ {S E : Type 0} where
  retried :
      SessionHandle S → Result PoolError (PooledSession S) → Result (RetryError E) (SessionHandle S)
  retried h (ok session) = ok (record h { session = some session; retry_used = true })
  retried h (err e) = err (pool e)

  unfoldable pub retry_after_protocol_error :
      ReuseConfig
      → CheckoutEnv S
      → E
      → SessionHandle S
      → PoolInner S
      → PoolInner S × Result (RetryError E) (SessionHandle S) × List SessionEvent
  unfolding retried
  retry_after_protocol_error config env error h inner =
      let (inner', result, events) = checkout config env (discard_checked_out inner).0 in
      if h.bytes_relayed || h.retry_used
      then (inner, err (original error), [])
      else (inner', retried h result, fallback_to_one_shot ∷ events)

  -- A retry succeeds only if no bytes were relayed, and the handle that it returns is not retried
  -- again: the caller gets its own error back, and the pool is left as it is.
  pub retry_at_most_once :
      (config : ReuseConfig) (env env' : CheckoutEnv S) (error error' : E) (h h' : SessionHandle S)
      (p p' q : PoolInner S) (events : List SessionEvent)
      → retry_after_protocol_error config env error h p ≡ (q, ok h', events)
      → (h.bytes_relayed ≡ false)
        × (retry_after_protocol_error config env' error' h' p' ≡ (p', err (original error'), []))
  unfolding retry_after_protocol_error
  retry_at_most_once config env env' error error' h h' p p' q events e =
      ground (arith, Result-cases (checkout config env (discard_checked_out p).0).1)

module _ {S : Type 0} (config : ReuseConfig) (env : CheckoutEnv S) where
  new-checked_out :
      (q : PoolInner S)
      → let r = checkout_new env.connected env.shutdown_after env.connect_now q in
        r.0.checked_out ≡ (if is_ok r.1 then wrap64 (q.checked_out + 1) else q.checked_out)
  unfolding checkout_new
  new-checked_out q = ground (arith, Option-cases env.connected)

  -- One checkout counts one session if it succeeds and none if it fails, where the other tasks leave
  -- the counter alone while the connector works.
  pub checkout-checked_out :
      (p : PoolInner S)
      → ((q : PoolInner S) → (env.meanwhile q).checked_out ≡ q.checked_out)
      → let r = checkout config env p in
        r.0.checked_out ≡ (if is_ok r.1 then wrap64 (p.checked_out + 1) else p.checked_out)
  unfolding checkout checkout_idle
  checkout-checked_out p h = elim (Option-cases (pop_reusable config env.now p.idle).0) [
    | inl e ↦
        let q = record p { idle = (pop_reusable config env.now p.idle).1 } in
        ground (arith, h q, new-checked_out (env.meanwhile q))
    | inr (t, e) ↦ ground arith
  ]

  -- A retry that succeeds leaves the counter as it was, where some session is checked out and the
  -- other tasks leave the counter alone while the connector works: the failed session is given up
  -- and another is taken.
  pub retry-checked_out :
      {E : Type 0} (error : E) (h h' : SessionHandle S) (p q : PoolInner S)
      (events : List SessionEvent)
      → ((q : PoolInner S) → (env.meanwhile q).checked_out ≡ q.checked_out)
      → 0 < p.checked_out
      → p.checked_out < usize_limit
      → retry_after_protocol_error config env error h p ≡ (q, ok h', events)
      → q.checked_out ≡ p.checked_out
  unfolding retry_after_protocol_error discard_checked_out
  retry-checked_out error h h' p q events quiet some_out bound e = ground (
    arith,
    checkout-checked_out (discard_checked_out p).0 quiet,
    Result-cases (checkout config env (discard_checked_out p).0).1,
  )

  -- A retry of a handle that has relayed bytes or was retried before is refused with the caller's
  -- error, and leaves the pool as it is, so that the dropped session stays counted.
  pub refused_retry-leaks :
      {E : Type 0} (error : E) (h : SessionHandle S) (p : PoolInner S)
      → ((h.bytes_relayed ≡ true) ⊎ (h.retry_used ≡ true))
      → retry_after_protocol_error config env error h p ≡ (p, err (original error), [])
  unfolding retry_after_protocol_error
  refused_retry-leaks error h p u = ground arith
