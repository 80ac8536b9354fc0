-- ===== src/Client/Plain/Reusable.antt =====
-- shuttle/src/client/plain.rs: `relay_tcp_reusable`, which relays over a session of the pool, and
-- `relay_tcp_remote`, which falls back to a tunnel of its own.
use Prim.Native.String.{String}
use noisy_shuttle.Base.{
  ℕ, ◌==◌, Bool, true, false, List, [], ◌∷◌, Option, none, some, if◌then◌else◌,
}
use noisy_shuttle.Results.{Result, ok, err}
use noisy_shuttle.Io.{IoError, Duplex}
use noisy_shuttle.Opt.{ReuseConfig}
use noisy_shuttle.Session.Lifecycle.Reason.{SessionEvent, fallback_to_one_shot}
use noisy_shuttle.Session.Frame.{Frame, FrameError}
use noisy_shuttle.Session.Stream.{write_frame}
use noisy_shuttle.Session.Negotiate.{
  NegotiatedCapabilities, NegotiationError, cap_reuse, negotiate_client,
}
use noisy_shuttle.Session.Negotiate.Fallback.{FallbackTracker, warn_fallback}
use noisy_shuttle.Client.Pool.{
  PooledSession, PoolInner, PoolError, CheckoutEnv, checkout, return_session,
}
use noisy_shuttle.Client.Plain.{HeaderError, open_request_from_trojan_header}
use noisy_shuttle.Client.Plain.Frames.{
  FramesError, ClientRelay, ClientEvent, Progress, running, finished, failed, panicked,
  relay_tcp_frames,
}

-- `during` is what other tasks do to the pool between the checkout and the return.
pub record RelayEnv (S : Type 0) : Type 0 where
  pub at_checkout : CheckoutEnv S
  pub in_time : Bool
  pub first : Option (Result IoError (List ℕ))
  pub events : List ClientEvent
  pub during : PoolInner S → PoolInner S
  pub shutdown : Bool
  pub return_now : ℕ

-- A failed relay of frames keeps what it had done.
pub data ReusableError (S : Type 0) : Type 0 where
  checkout_failed : PoolError → ReusableError S
  without_reuse : NegotiatedCapabilities → ReusableError S
  negotiation_failed : NegotiationError → ReusableError S
  bad_request : HeaderError → ReusableError S
  open_failed : FrameError → ReusableError S
  frames_failed : FramesError → ClientRelay S → ReusableError S

-- A relay that has ended, with the pool after it; one that still runs; a panic.
pub data Ended (S : Type 0) : Type 0 where
  ended : Result (ReusableError S) (ℕ × ℕ) → PoolInner S → Ended S
  relaying stopped : Ended S

-- What `relay_tcp_remote` comes to: bytes relayed over a session, or a call of `relay_tcp_with` on a new
-- tunnel with this `outbuf`.
pub data Remote (S : Type 0) : Type 0 where
  reused : ℕ × ℕ → Remote S
  one_shot : Option (List ℕ) → Remote S
  still_relaying stopped : Remote S

module _ (d : Duplex) (config : ReuseConfig) (env : RelayEnv d.Stream) where
  open d use {Stream}
  open env use {at_checkout, in_time, first, events, during, shutdown, return_now}

  unfoldable pub give_back : Bool → PooledSession Stream → PoolInner Stream → PoolInner Stream
  give_back healthy session inner =
      (return_session config healthy shutdown return_now session (during inner)).0

  -- What follows `relay_tcp_frames`.
  unfoldable pub after_frames :
      PooledSession Stream → PoolInner Stream → Progress Stream → Ended Stream
  after_frames session inner (running r) = relaying
  after_frames session inner (finished r) =
      ended (ok (r.tx, r.rx)) (give_back true (record session { stream = r.stream }) inner)
  after_frames session inner (failed e r) =
      ended (err (frames_failed e r)) (give_back false (record session { stream = r.stream }) inner)
  after_frames session inner panicked = stopped

  -- What follows the write of the open request.
  unfoldable pub after_open :
      Option (List ℕ)
      → PooledSession Stream
      → PoolInner Stream
      → Option (Result FrameError (Unit {0}) × Stream)
      → Ended Stream
  after_open outbuf session inner none = stopped
  after_open outbuf session inner (some (err e, s)) =
      ended (err (open_failed e)) (give_back false (record session { stream = s }) inner)
  after_open outbuf session inner (some (ok u, s)) =
      after_frames (record session { stream = s }) inner (relay_tcp_frames d outbuf first events s)

  -- A header that cannot be read ends the call, and the session is dropped.
  unfoldable pub send_open :
      Option (List ℕ)
      → PooledSession Stream
      → PoolInner Stream
      → Result HeaderError Frame
      → Ended Stream
  send_open outbuf session inner (err e) = ended (err (bad_request e)) (during inner)
  send_open outbuf session inner (ok request) =
      after_open outbuf session inner (write_frame d request session.stream)

  -- What follows the negotiation on a new session.
  unfoldable pub after_negotiation :
      Option (List ℕ)
      → PooledSession Stream
      → PoolInner Stream
      → Option (Result NegotiationError NegotiatedCapabilities × Stream)
      → Ended Stream
  after_negotiation outbuf session inner none = stopped
  after_negotiation outbuf session inner (some (err e, s)) =
      ended (err (negotiation_failed e)) (give_back false (record session { stream = s }) inner)
  after_negotiation outbuf session inner (some (ok caps, s)) =
      let session' = record session { stream = s } in
      if caps.reuse
      then send_open outbuf session' inner (open_request_from_trojan_header outbuf)
      else ended (err (without_reuse caps)) (give_back false session' inner)

  unfoldable pub with_session :
      Option (List ℕ) → PooledSession Stream → PoolInner Stream → Ended Stream
  with_session outbuf session inner =
      if session.reuse_count == 0
      then after_negotiation outbuf session inner
          (negotiate_client d (record { bits = cap_reuse }) in_time session.stream)
      else send_open outbuf session inner (open_request_from_trojan_header outbuf)

  unfoldable pub after_checkout :
      Option (List ℕ)
      → PoolInner Stream × Result PoolError (PooledSession Stream) × List SessionEvent
      → Ended Stream
  after_checkout outbuf (inner, err e, logged) = ended (err (checkout_failed e)) inner
  after_checkout outbuf (inner, ok session, logged) = with_session outbuf session inner

  unfoldable pub relay_tcp_reusable : Option (List ℕ) → PoolInner Stream → Ended Stream
  relay_tcp_reusable outbuf inner = after_checkout outbuf (checkout config at_checkout inner)

  -- Every error of the reusable relay is answered by a tunnel of its own.
  unfoldable pub fall_back :
      Option (List ℕ)
      → String
      → FallbackTracker
      → Ended Stream
      → Remote Stream × FallbackTracker × List SessionEvent
  fall_back outbuf endpoint tracker (ended (ok counts) inner) = (reused counts, tracker, [])
  fall_back outbuf endpoint tracker (ended (err e) inner) =
      (one_shot outbuf, (warn_fallback tracker endpoint).0, fallback_to_one_shot ∷ [])
  fall_back outbuf endpoint tracker relaying = (still_relaying, tracker, [])
  fall_back outbuf endpoint tracker stopped = (Remote.stopped, tracker, [])

  unfoldable pub relay_tcp_remote :
      Option (PoolInner Stream)
      → String
      → FallbackTracker
      → Option (List ℕ)
      → Remote Stream × FallbackTracker × List SessionEvent
  relay_tcp_remote none endpoint tracker outbuf = (one_shot outbuf, tracker, [])
  relay_tcp_remote (some inner) endpoint tracker outbuf =
      fall_back outbuf endpoint tracker (relay_tcp_reusable outbuf inner)
