-- ===== src/Client/Plain/Balance.antt =====
-- shuttle/src/client/plain.rs: what a relay over a session of the pool leaves of the pool's counter, and
-- when it is followed by a tunnel of its own.
use Prim.Native.String.{String}
use noisy_shuttle.Base.{
  ℕ, ◌+◌, ◌<◌, ◌==◌, ◌≡◌, refl, Bool, true, false, List, [], ◌∷◌, Option, none, some, arith,
  if◌then◌else◌, Bool-cases, inl, inr,
}
use noisy_shuttle.Results.{Result, ok, err, is_ok}
use noisy_shuttle.Io.{Duplex}
use noisy_shuttle.Opt.{ReuseConfig}
use noisy_shuttle.Session.Lifecycle.Reason.{SessionEvent, fallback_to_one_shot}
use noisy_shuttle.Session.Frame.{Frame, FrameError}
use noisy_shuttle.Session.Stream.{write_frame}
use noisy_shuttle.Session.Negotiate.{
  NegotiatedCapabilities, NegotiationError, cap_reuse, negotiate_client,
}
use noisy_shuttle.Session.Negotiate.Fallback.{FallbackTracker, warn_fallback}
use noisy_shuttle.Client.Pool.{PooledSession, PoolInner, PoolError, checkout, wrap64}
use noisy_shuttle.Client.Pool.Steps.{usize_limit}
use noisy_shuttle.Client.Pool.Sections.{return_session-checked_out}
use noisy_shuttle.Client.Pool.Retry.{checkout-checked_out}
use noisy_shuttle.Client.Plain.{open_request_from_trojan_header}
use noisy_shuttle.Client.Plain.Frames.{
  FramesError, ClientRelay, Progress, running, finished, failed, panicked, relay_tcp_frames,
}
use noisy_shuttle.Client.Plain.Reusable.{
  RelayEnv, frames_failed, Ended, ended, relaying, stopped, one_shot, give_back, after_frames,
  after_open, send_open, after_negotiation, with_session, after_checkout, relay_tcp_reusable,
  fall_back, relay_tcp_remote,
}

module _ (d : Duplex) (config : ReuseConfig) (env : RelayEnv d.Stream) where
  open d use {Stream}

  -- Other tasks leave the counter alone.
  pub record Quiet : Type 0 where
    pub while_connecting :
        (q : PoolInner Stream) → (env.at_checkout.meanwhile q).checked_out ≡ q.checked_out
    pub while_relaying : (q : PoolInner Stream) → (env.during q).checked_out ≡ q.checked_out

  abbrev pub LeavesOut : ℕ → Ended Stream → Type 0
  LeavesOut n (ended r q) = q.checked_out ≡ n
  LeavesOut n relaying = Unit {0}
  LeavesOut n stopped = Unit {0}

  module _ (quiet : Quiet) (n : ℕ) where
    give_back-checked_out :
        (healthy : Bool) (session : PooledSession Stream) (inner : PoolInner Stream)
        → inner.checked_out ≡ n + 1
        → (give_back d config env healthy session inner).checked_out ≡ n
    unfolding give_back
    give_back-checked_out healthy session inner h = omega (
      arith,
      h,
      quiet.while_relaying inner,
      return_session-checked_out config healthy env.shutdown env.return_now session
          (env.during inner),
    )

    after_frames-LeavesOut :
        (session : PooledSession Stream) (inner : PoolInner Stream) (p : Progress Stream)
        → inner.checked_out ≡ n + 1
        → LeavesOut n (after_frames d config env session inner p)
    unfolding after_frames
    after_frames-LeavesOut session inner (running r) h = tt
    after_frames-LeavesOut session inner (finished r) h = give_back-checked_out true _ inner h
    after_frames-LeavesOut session inner (failed e r) h = give_back-checked_out false _ inner h
    after_frames-LeavesOut session inner panicked h = tt

    after_open-LeavesOut :
        (outbuf : Option (List ℕ)) (session : PooledSession Stream) (inner : PoolInner Stream)
        (p : Option (Result FrameError (Unit {0}) × Stream))
        → inner.checked_out ≡ n + 1
        → LeavesOut n (after_open d config env outbuf session inner p)
    unfolding after_open
    after_open-LeavesOut outbuf session inner none h = tt
    after_open-LeavesOut outbuf session inner (some (err e, s)) h =
        give_back-checked_out false _ inner h
    after_open-LeavesOut outbuf session inner (some (ok u, s)) h =
        after_frames-LeavesOut (record session { stream = s }) inner
          (relay_tcp_frames d outbuf env.first env.events s) h

    send_open-LeavesOut :
        (outbuf : Option (List ℕ)) (session : PooledSession Stream) (inner : PoolInner Stream)
        (request : Frame)
        → inner.checked_out ≡ n + 1
        → open_request_from_trojan_header outbuf ≡ ok request
        → LeavesOut n
            (send_open d config env outbuf session inner (open_request_from_trojan_header outbuf))
    unfolding send_open
    send_open-LeavesOut outbuf session inner request h e =
        rw (e) (after_open-LeavesOut outbuf session inner (write_frame d request session.stream) h)

    after_negotiation-LeavesOut :
        (outbuf : Option (List ℕ)) (session : PooledSession Stream) (inner : PoolInner Stream)
        (request : Frame) (p : Option (Result NegotiationError NegotiatedCapabilities × Stream))
        → inner.checked_out ≡ n + 1
        → open_request_from_trojan_header outbuf ≡ ok request
        → LeavesOut n (after_negotiation d config env outbuf session inner p)
    unfolding after_negotiation
    after_negotiation-LeavesOut outbuf session inner request none h e = tt
    after_negotiation-LeavesOut outbuf session inner request (some (err x, s)) h e =
        give_back-checked_out false _ inner h
    after_negotiation-LeavesOut outbuf session inner request (some (ok caps, s)) h e =
        let session' = record session { stream = s } in
        elim (Bool-cases caps.reuse) [
          | inl c ↦ rw (c) (send_open-LeavesOut outbuf session' inner request h e)
          | inr c ↦ rw (c) (give_back-checked_out false session' inner h)
        ]

    with_session-LeavesOut :
        (outbuf : Option (List ℕ)) (session : PooledSession Stream) (inner : PoolInner Stream)
        (request : Frame)
        → inner.checked_out ≡ n + 1
        → open_request_from_trojan_header outbuf ≡ ok request
        → LeavesOut n (with_session d config env outbuf session inner)
    unfolding with_session
    with_session-LeavesOut outbuf session inner request h e =
        elim (Bool-cases (session.reuse_count == 0)) [
          | inl c ↦ rw (c) (
              after_negotiation-LeavesOut outbuf session inner request
                (negotiate_client d (record { bits = cap_reuse }) env.in_time session.stream) h e)
          | inr c ↦ rw (c) (send_open-LeavesOut outbuf session inner request h e)
        ]

    after_checkout-LeavesOut :
        (outbuf : Option (List ℕ)) (request : Frame)
        (r : PoolInner Stream × Result PoolError (PooledSession Stream) × List SessionEvent)
        → n + 1 < usize_limit
        → r.0.checked_out ≡ (if is_ok r.1 then wrap64 (n + 1) else n)
        → open_request_from_trojan_header outbuf ≡ ok request
        → LeavesOut n (after_checkout d config env outbuf r)
    unfolding after_checkout
    after_checkout-LeavesOut outbuf request (inner, err x, logged) b h e = h
    after_checkout-LeavesOut outbuf request (inner, ok session, logged) b h e =
        with_session-LeavesOut outbuf session inner request (omega (arith, h, b)) e

  -- A relay over a session of the pool, of a request whose header can be read, that has ended, with or
  -- without an error, leaves the pool's count of sessions that are checked out as it was, where other
  -- tasks do not change it meanwhile: every way out but that of an unreadable header gives the
  -- session back.
  pub relay_tcp_reusable-LeavesOut :
      (outbuf : Option (List ℕ)) (request : Frame) (p : PoolInner Stream)
      → Quiet
      → p.checked_out + 1 < usize_limit
      → open_request_from_trojan_header outbuf ≡ ok request
      → LeavesOut p.checked_out (relay_tcp_reusable d config env outbuf p)
  unfolding relay_tcp_reusable
  relay_tcp_reusable-LeavesOut outbuf request p quiet b e =
      after_checkout-LeavesOut quiet p.checked_out outbuf request
        (checkout config env.at_checkout p) b
        (checkout-checked_out config env.at_checkout p quiet.while_connecting) e

  -- A relay that fails after it has relayed some of the client's bytes is followed by a tunnel of its own
  -- all the same, which is given the same first packet again and none of the bytes that were read
  -- from the client since.
  pub relay_tcp_remote-repeats :
      (outbuf : Option (List ℕ)) (endpoint : String) (tracker : FallbackTracker)
      (p q : PoolInner Stream) (e : FramesError) (r : ClientRelay Stream)
      → relay_tcp_reusable d config env outbuf p ≡ ended (err (frames_failed e r)) q
      → relay_tcp_remote d config env (some p) endpoint tracker outbuf
        ≡ (one_shot outbuf, (warn_fallback tracker endpoint).0, fallback_to_one_shot ∷ [])
  unfolding relay_tcp_remote fall_back
  relay_tcp_remote-repeats outbuf endpoint tracker p q e r h = rw (h) refl
