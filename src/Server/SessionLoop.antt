-- ===== src/Server/SessionLoop.antt =====
-- shuttle/src/server/session_loop.rs: the context of a reusable session, what ends it, and one
-- frame handled.
pub mod Serve
pub mod Orderly
pub mod Sound
pub mod Wire
mod Tests
use noisy_shuttle.Base.{
  ℕ, ◌+◌, ◌-◌, ◌==◌, leb, Bool, true, false, ◌&&◌, List, [], ◌∷◌, Option, none, some, if◌then◌else◌,
}
use noisy_shuttle.Results.{Result, ok, err}
use noisy_shuttle.Actions.{Action, and_then, done}
use noisy_shuttle.Io.{Duplex}
use noisy_shuttle.Opt.{ReuseConfig}
use noisy_shuttle.Client.Pool.{wrap64}
use noisy_shuttle.Session.Lifecycle.{
  SessionState, handshaking, idle, active, draining, closing, closed, poisoned,
}
use noisy_shuttle.Session.Lifecycle.Reason.{CloseReason}
use noisy_shuttle.Session.Frame.{
  Frame, FrameError, client_hello, open_request, data_frame, end_request, reset, ping, pong, close,
  protocol_version,
}
use noisy_shuttle.Session.Stream.{read_frame, write_frame}
use noisy_shuttle.Server.Address.{frame_addr_to_trojan_addr}
use noisy_shuttle.Server.Relay.{
  RelayError, unsupported_command, bad_address, connect_failed, RelayEvent, Status, running,
  finished, failed, panicked, start_relay, relay_framed_tcp,
}

pub record SessionContext (N : Type 0) : Type 0 where
  pub stream : N
  pub state : SessionState
  pub request_count : ℕ
  pub created_at : ℕ
  pub last_activity : ℕ

-- What a step of the loop leaves: the next turn, the end, or a relay that still runs.
pub data Outcome : Type 0 where
  continue stop waiting : Outcome

-- What happens around one request: whether the target is reached, the shutdown flag at the start of
-- the relay, the relay's schedule, and the flag and the clock after it.
pub record RequestEnv : Type 0 where
  pub connected : Bool
  pub shutdown : Bool
  pub events : List RelayEvent
  pub shutdown_after : Bool
  pub now_after : ℕ

unfoldable pub close_reason_code : CloseReason → ℕ
close_reason_code CloseReason.client_close = 0x01
close_reason_code CloseReason.client_initiated = 0x01
close_reason_code CloseReason.server_close = 0x02
close_reason_code CloseReason.server_error = 0x02
close_reason_code CloseReason.idle_timeout = 0x03
close_reason_code CloseReason.max_age_exceeded = 0x04
close_reason_code CloseReason.max_requests_exceeded = 0x05
close_reason_code CloseReason.max_requests_reached = 0x05
close_reason_code CloseReason.keepalive_timeout = 0x06
close_reason_code CloseReason.protocol_error = 0x07
close_reason_code CloseReason.version_mismatch = 0x08
close_reason_code CloseReason.shutdown_drain = 0x09
close_reason_code CloseReason.checkout_failed = 0x0a
close_reason_code CloseReason.poisoned = 0x0b

-- `checked_duration_since` is `None` where `now` is the earlier.
unfoldable pub elapsed_at_least : (now since duration : ℕ) → Bool
elapsed_at_least now since duration = leb since now && leb duration (now - since)

module _ {N : Type 0} where
  unfoldable pub expired_limit : ReuseConfig → SessionContext N → ℕ → Option CloseReason
  unfolding elapsed_at_least
  expired_limit config ctx now =
      if leb config.max_requests ctx.request_count
      then some CloseReason.max_requests_reached
      else if elapsed_at_least now ctx.created_at config.max_age
      then some CloseReason.max_age_exceeded
      else if elapsed_at_least now ctx.last_activity config.idle_timeout
      then some CloseReason.idle_timeout
      else none

module _ (d : Duplex) where
  open d use {Stream}

  abbrev pub Context : Type 0
  Context = SessionContext Stream

  -- `write_frame(&mut ctx.stream, …).await`
  unfoldable pub send_frame : Frame → Action Context FrameError (Unit {0})
  send_frame f ctx = elim (write_frame d f ctx.stream) [
    | none ↦ none
    | some (r, s) ↦ some (r, record ctx { stream = s })
  ]

  unfoldable pub close_session : CloseReason → Action Context FrameError (Unit {0})
  unfolding send_frame
  close_session reason ctx =
      and_then (send_frame (close (close_reason_code reason)) (record ctx { state = closing }))
        (λ _ c. some (ok tt, record c { state = closed }))

  unfoldable pub reset_session : CloseReason → Action Context FrameError (Unit {0})
  unfolding send_frame
  reset_session reason ctx =
      send_frame (reset (close_reason_code reason)) (record ctx { state = poisoned })

  unfoldable pub protocol_error : Action Context FrameError (Unit {0})
  protocol_error = reset_session CloseReason.protocol_error

  -- `Ok(false)` after an action.
  unfoldable pub and_stop :
      Option (Result FrameError (Unit {0}) × Context) → Option (Result FrameError Outcome × Context)
  and_stop m = and_then m (λ _. done (ok stop))

  unfoldable pub negotiate_frame :
      (now : ℕ) → Result FrameError Frame → Action Context FrameError (Unit {0})
  negotiate_frame now (ok (client_hello version capabilities)) ctx =
      if version == protocol_version
      then some (ok tt, record ctx { state = idle; last_activity = now })
      else close_session CloseReason.version_mismatch ctx
  negotiate_frame now (ok f) ctx = reset_session CloseReason.protocol_error ctx
  negotiate_frame now (err e) ctx = protocol_error ctx

  -- The command `Connect` is 1.
  unfoldable pub relay_open_request :
      RequestEnv → (cmd atyp : ℕ) → List ℕ → ℕ → Stream → Status Stream
  relay_open_request env cmd atyp addr port s =
      let before = start_relay d env.shutdown s in
      if cmd == 1
      then elim (frame_addr_to_trojan_addr atyp addr port) [
        | err e ↦ failed (bad_address e) before
        | ok target ↦
            if env.connected
            then relay_framed_tcp d env.shutdown env.events s
            else failed connect_failed before
      ]
      else failed (unsupported_command cmd) before

  -- What follows a relay that has ended well.
  unfoldable pub after_request : ReuseConfig → RequestEnv → Action Context FrameError Outcome
  after_request config env ctx =
      if env.shutdown_after
      then and_stop (close_session CloseReason.shutdown_drain ctx)
      else elim (expired_limit config ctx env.now_after) [
        | none ↦ some (ok continue, ctx)
        | some reason ↦ and_stop (close_session reason ctx)
      ]

  -- The `match` on the result of the relay.
  unfoldable pub after_relay :
      ReuseConfig → RequestEnv → Status Stream → Action Context FrameError Outcome
  after_relay config env (running r) ctx = some (ok waiting, record ctx { stream = r.stream })
  after_relay config env (finished r) ctx =
      after_request config env (record ctx { stream = r.stream; state = idle })
  after_relay config env (failed e r) ctx =
      and_stop (reset_session CloseReason.server_error (record ctx { stream = r.stream }))
  after_relay config env panicked ctx = none

  unfoldable pub handle_frame : ReuseConfig → RequestEnv → Frame → Action Context FrameError Outcome
  handle_frame config env (open_request cmd atyp addr port) ctx =
      let ctx' = record ctx { state = active; request_count = wrap64 (ctx.request_count + 1) } in
      after_relay config env (relay_open_request env cmd atyp addr port ctx.stream) ctx'
  handle_frame config env (ping token) ctx =
      and_then (send_frame (pong token) ctx) (λ _. done (ok continue))
  handle_frame config env (close reason) ctx =
      and_stop (close_session CloseReason.client_initiated ctx)
  handle_frame config env f ctx = and_stop (reset_session CloseReason.protocol_error ctx)
