-- ===== src/Server/SessionLoop/Orderly.antt =====
-- shuttle/src/server/session_loop.rs: what a step of a session leaves behind.
use noisy_shuttle.Base.{
  ℕ, ◌+◌, ◌≤◌, ◌<◌, ◌≡◌, ◌≢◌, refl, ◌⊎◌, inl, inr, List, Option, none, some, arith, All,
  Option-cases,
}
use noisy_shuttle.Results.{Result, ok, err, Result-cases}
use noisy_shuttle.Io.{Duplex}
use noisy_shuttle.Opt.{ReuseConfig}
use noisy_shuttle.Client.Pool.{wrap64}
use noisy_shuttle.Client.Pool.Steps.{usize_limit}
use noisy_shuttle.Session.Lifecycle.{idle, active}
use noisy_shuttle.Session.Lifecycle.Transitions.{IsDead}
use noisy_shuttle.Session.Lifecycle.Reason.{CloseReason}
use noisy_shuttle.Session.Frame.{
  Frame, FrameError, client_hello, open_request, data_frame, end_request, reset, ping, pong, close,
  payload,
}
use noisy_shuttle.Session.Stream.RoundTrip.{write_frame_fits}
use noisy_shuttle.Server.Address.{frame_addr_to_trojan_addr}
use noisy_shuttle.Server.Relay.{Status, running, finished, failed, panicked}
use noisy_shuttle.Server.Relay.Invariant.{Fits, relay_framed_tcp-IsSound}
use noisy_shuttle.Server.SessionLoop.{
  Context, Outcome, continue, stop, waiting, RequestEnv, expired_limit, close_session,
  close_reason_code, reset_session, and_stop, handle_frame, send_frame, relay_open_request,
  after_request, after_relay,
}

module _ (d : Duplex) (config : ReuseConfig) where
  open d use {Stream}

  -- The requests of a session are within the limit.
  abbrev pub InLimit : Context d → Type 0
  InLimit c = c.request_count ≤ config.max_requests

  -- A step does not panic; what goes on is idle, what waits is idle or relays, what has stopped is
  -- closed or poisoned.
  abbrev pub IsOrderly : Option (Result FrameError Outcome × Context d) → Type 0
  IsOrderly none = ⊥
  IsOrderly (some (err e, c)) = InLimit c
  IsOrderly (some (ok continue, c)) = (c.state ≡ idle) × InLimit c
  IsOrderly (some (ok stop, c)) = IsDead c.state × InLimit c
  IsOrderly (some (ok waiting, c)) = ((c.state ≡ idle) ⊎ (c.state ≡ active)) × InLimit c

  -- An action that ends the session.
  abbrev pub Ends : Option (Result FrameError (Unit {0}) × Context d) → Type 0
  Ends none = ⊥
  Ends (some (err e, c)) = InLimit c
  Ends (some (ok u, c)) = IsDead c.state × InLimit c

  pub close_session-Ends :
      (reason : CloseReason) (c : Context d) → InLimit c → Ends (close_session d reason c)
  unfolding close_session send_frame payload
  close_session-Ends reason c h =
      ground (arith, write_frame_fits d (close (close_reason_code reason)) c.stream)

  pub reset_session-Ends :
      (reason : CloseReason) (c : Context d) → InLimit c → Ends (reset_session d reason c)
  unfolding reset_session send_frame payload
  reset_session-Ends reason c h =
      ground (arith, write_frame_fits d (reset (close_reason_code reason)) c.stream)

  pub and_stop-IsOrderly :
      (m : Option (Result FrameError (Unit {0}) × Context d)) → Ends m → IsOrderly (and_stop d m)
  unfolding and_stop
  and_stop-IsOrderly none h = h
  and_stop-IsOrderly (some (err e, c)) h = h
  and_stop-IsOrderly (some (ok u, c)) h = h

  pub stop_by_close :
      (reason : CloseReason) (c : Context d)
      → InLimit c
      → IsOrderly (and_stop d (close_session d reason c))
  stop_by_close reason c h = and_stop-IsOrderly _ (close_session-Ends reason c h)

  pub stop_by_reset :
      (reason : CloseReason) (c : Context d)
      → InLimit c
      → IsOrderly (and_stop d (reset_session d reason c))
  stop_by_reset reason c h = and_stop-IsOrderly _ (reset_session-Ends reason c h)

  after_request-IsOrderly :
      (env : RequestEnv) (c : Context d)
      → c.state ≡ idle
      → InLimit c
      → IsOrderly (after_request d config env c)
  unfolding after_request
  after_request-IsOrderly env c i h =
      let drained = stop_by_close CloseReason.shutdown_drain c h in
      elim (Option-cases (expired_limit config c env.now_after)) [
        | inl e ↦ ground (arith, drained)
        | inr (reason, e) ↦ ground (arith, drained, stop_by_close reason c h)
      ]

  relay_open_request-total :
      (env : RequestEnv) (cmd atyp : ℕ) (addr : List ℕ) (port : ℕ) (s : Stream)
      → All Fits env.events
      → relay_open_request d env cmd atyp addr port s ≢ panicked
  unfolding relay_open_request
  relay_open_request-total env cmd atyp addr port s h e = ground (
    arith,
    relay_framed_tcp-IsSound d env.shutdown env.events s h,
    Result-cases (frame_addr_to_trojan_addr atyp addr port),
  )

  after_relay-IsOrderly :
      (env : RequestEnv) (st : Status Stream) (c : Context d)
      → st ≢ panicked
      → c.state ≡ active
      → InLimit c
      → IsOrderly (after_relay d config env st c)
  unfolding after_relay
  after_relay-IsOrderly env (running r) c total a h = (inr a, h)
  after_relay-IsOrderly env (finished r) c total a h =
      after_request-IsOrderly env (record c { stream = r.stream; state = idle }) refl h
  after_relay-IsOrderly env (failed e r) c total a h =
      stop_by_reset CloseReason.server_error (record c { stream = r.stream }) h
  after_relay-IsOrderly env panicked c total a h = total refl

  pub handle_frame-IsOrderly :
      (env : RequestEnv) (f : Frame) (c : Context d)
      → config.max_requests < usize_limit
      → All Fits env.events
      → c.state ≡ idle
      → c.request_count < config.max_requests
      → IsOrderly (handle_frame d config env f c)
  unfolding handle_frame
  handle_frame-IsOrderly env (open_request cmd atyp addr port) c small fits i h =
      let counted = wrap64 (c.request_count + 1) in
      let below : counted ≤ config.max_requests = omega arith in
      after_relay-IsOrderly env (relay_open_request d env cmd atyp addr port c.stream)
        (record c { state = active; request_count = counted })
        (relay_open_request-total env cmd atyp addr port c.stream fits) refl below
  handle_frame-IsOrderly env (ping token) c small fits i h =
      unfold send_frame payload in ground (arith, write_frame_fits d (pong token) c.stream)
  handle_frame-IsOrderly env (close reason) c small fits i h =
      stop_by_close CloseReason.client_initiated c (omega arith)
  handle_frame-IsOrderly env (client_hello v k) c small fits i h =
      stop_by_reset CloseReason.protocol_error c (omega arith)
  handle_frame-IsOrderly env (data_frame b) c small fits i h =
      stop_by_reset CloseReason.protocol_error c (omega arith)
  handle_frame-IsOrderly env (end_request r) c small fits i h =
      stop_by_reset CloseReason.protocol_error c (omega arith)
  handle_frame-IsOrderly env (reset r) c small fits i h =
      stop_by_reset CloseReason.protocol_error c (omega arith)
  handle_frame-IsOrderly env (pong t) c small fits i h =
      stop_by_reset CloseReason.protocol_error c (omega arith)
