-- ===== src/Server/SessionLoop/Sound.antt =====
-- shuttle/src/server/session_loop.rs: what holds of a session under any schedule.
use noisy_shuttle.Base.{
  ℕ, ◌<◌, ◌≡◌, refl, ◌⊎◌, inl, inr, true, false, List, [], ◌∷◌, Option, none, some, arith, All,
  Option-cases,
}
use noisy_shuttle.Results.{Result, ok, err}
use noisy_shuttle.Actions.{and_then}
use noisy_shuttle.Io.{Duplex}
use noisy_shuttle.Opt.{ReuseConfig}
use noisy_shuttle.Client.Pool.Steps.{usize_limit}
use noisy_shuttle.Session.Lifecycle.{
  SessionState, connecting, handshaking, idle, opening, active, draining, closing, closed, poisoned,
}
use noisy_shuttle.Session.Lifecycle.Transitions.{IsDead}
use noisy_shuttle.Session.Lifecycle.Reason.{CloseReason}
use noisy_shuttle.Session.Frame.{
  Frame, FrameError, client_hello, open_request, data_frame, end_request, reset, ping, pong, close,
}
use noisy_shuttle.Session.Stream.{read_frame}
use noisy_shuttle.Server.Relay.Invariant.{Fits}
use noisy_shuttle.Server.SessionLoop.{
  Context, Outcome, continue, stop, waiting, RequestEnv, expired_limit, reset_session,
  protocol_error, negotiate_frame,
}
use noisy_shuttle.Server.SessionLoop.Serve.{
  LoopEvent, frame_ready, shutdown_changed, idle_elapsed, Turn, FirstFrame, given, read_first,
  shutdown_first, shut_down, graceful_shutdown, drop_bytes, on_frame, select, serve_turn,
  after_turn, turns, serve_from, serve_loop, negotiate, new_context, run,
}
use noisy_shuttle.Server.SessionLoop.Orderly.{
  InLimit, IsOrderly, Ends, close_session-Ends, reset_session-Ends, and_stop-IsOrderly,
  stop_by_close, stop_by_reset, handle_frame-IsOrderly,
}

-- The reads of a request's target fit the buffer.
abbrev pub EventFits : {N : Type 0} → LoopEvent N → Type 0
EventFits (frame_ready now env) = All Fits env.events
EventFits (shutdown_changed taken shutdown cut) = Unit {0}
EventFits (idle_elapsed taken) = Unit {0}

abbrev pub TurnFits : {N : Type 0} → Turn N → Type 0
TurnFits t = EventFits t.event

module _ (d : Duplex) (config : ReuseConfig) where
  open d use {Stream}

  shut_down-Ends :
      (cut : Option Stream) (c : Context d) (s : SessionState)
      → c.state ≡ s
      → InLimit d config c
      → Ends d config (shut_down d s cut c)
  unfolding shut_down
  shut_down-Ends cut c connecting e h = (close_session-Ends d config CloseReason.shutdown_drain c h)
  shut_down-Ends cut c handshaking e h =
      (close_session-Ends d config CloseReason.shutdown_drain c h)
  shut_down-Ends cut c idle e h = (close_session-Ends d config CloseReason.shutdown_drain c h)
  shut_down-Ends cut c opening e h = (close_session-Ends d config CloseReason.shutdown_drain c h)
  shut_down-Ends none c active e h =
      (close_session-Ends d config CloseReason.shutdown_drain (record c { state = draining }) h)
  shut_down-Ends (some s) c active e h =
      (reset_session-Ends d config CloseReason.shutdown_drain
        (record c { state = closing; stream = s }) h)
  shut_down-Ends cut c draining e h = (close_session-Ends d config CloseReason.shutdown_drain c h)
  shut_down-Ends cut c closing e h = (close_session-Ends d config CloseReason.shutdown_drain c h)
  shut_down-Ends cut c closed e h = (inl e, h)
  shut_down-Ends cut c poisoned e h = (inr e, h)

  graceful_shutdown-Ends :
      (cut : Option Stream) (c : Context d)
      → InLimit d config c
      → Ends d config (graceful_shutdown d cut c)
  unfolding graceful_shutdown
  graceful_shutdown-Ends cut c h = shut_down-Ends cut c c.state refl h

  on_frame-IsOrderly :
      (now : ℕ) (env : RequestEnv) (r : Result FrameError Frame) (c : Context d)
      → config.max_requests < usize_limit
      → All Fits env.events
      → c.state ≡ idle
      → c.request_count < config.max_requests
      → IsOrderly d config (on_frame d config now env r c)
  unfolding on_frame protocol_error
  on_frame-IsOrderly now env (ok f) c small fits i h =
      handle_frame-IsOrderly d config env f (record c { last_activity = now }) small fits i h
  on_frame-IsOrderly now env (err e) c small fits i h =
      stop_by_reset d config CloseReason.protocol_error c (omega arith)

  select-IsOrderly :
      (e : LoopEvent Stream) (c : Context d)
      → config.max_requests < usize_limit
      → EventFits e
      → c.state ≡ idle
      → c.request_count < config.max_requests
      → IsOrderly d config (select d config e c)
  unfolding select drop_bytes
  select-IsOrderly (frame_ready now env) c small fits i h =
      let (result, s) = read_frame d c.stream in
      on_frame-IsOrderly now env result (record c { stream = s }) small fits i h
  select-IsOrderly (shutdown_changed taken true cut) c small fits i h =
      and_stop-IsOrderly d config _
        (graceful_shutdown-Ends cut (drop_bytes d taken c) (omega arith))
  select-IsOrderly (shutdown_changed taken false cut) c small fits i h = (i, omega arith)
  select-IsOrderly (idle_elapsed taken) c small fits i h =
      stop_by_close d config CloseReason.idle_timeout (drop_bytes d taken c) (omega arith)

  below :
      (c : Context d) (now : ℕ)
      → expired_limit config c now ≡ none
      → c.request_count < config.max_requests
  unfolding expired_limit
  below c now e = ground arith

  serve_turn-IsOrderly :
      (t : Turn Stream) (c : Context d)
      → config.max_requests < usize_limit
      → TurnFits t
      → c.state ≡ idle
      → InLimit d config c
      → IsOrderly d config (serve_turn d config t c)
  unfolding serve_turn
  serve_turn-IsOrderly t c small fits i h =
      let drained = and_stop-IsOrderly d config _ (graceful_shutdown-Ends t.close_cut c h) in
      elim (Option-cases (expired_limit config c t.now)) [
        | inl e ↦ ground (arith, drained, select-IsOrderly t.event c small fits i (below c t.now e))
        | inr (reason, e) ↦ ground (arith, drained, stop_by_close d config reason c h)
      ]

  after_turn-IsOrderly :
      (rest : Context d → Option (Result FrameError Outcome × Context d))
      → ((c : Context d) → c.state ≡ idle → InLimit d config c → IsOrderly d config (rest c))
      → (m : Option (Result FrameError Outcome × Context d)) → IsOrderly d config m
      → IsOrderly d config (and_then m (after_turn d rest))
  unfolding after_turn
  after_turn-IsOrderly rest k none h = h
  after_turn-IsOrderly rest k (some (err e, c)) h = h
  after_turn-IsOrderly rest k (some (ok continue, c)) h = k c h.0 h.1
  after_turn-IsOrderly rest k (some (ok stop, c)) h = h
  after_turn-IsOrderly rest k (some (ok waiting, c)) h = h

  turns-IsOrderly :
      (ts : List (Turn Stream)) (c : Context d)
      → config.max_requests < usize_limit
      → All TurnFits ts
      → c.state ≡ idle
      → InLimit d config c
      → IsOrderly d config (turns d config ts c)
  unfolding turns
  turns-IsOrderly [] c small fits i h = (inl i, h)
  turns-IsOrderly (t ∷ ts) c small fits i h =
      after_turn-IsOrderly (turns d config ts)
        (λ c' i' h'. turns-IsOrderly ts c' small fits.1 i' h') (serve_turn d config t c)
        (serve_turn-IsOrderly t c small fits.0 i h)

  -- What the negotiation leaves: an idle session or one that has ended.
  abbrev Negotiated : Option (Result FrameError (Unit {0}) × Context d) → Type 0
  Negotiated none = ⊥
  Negotiated (some (err e, c)) = InLimit d config c
  Negotiated (some (ok u, c)) = ((c.state ≡ idle) ⊎ IsDead c.state) × InLimit d config c

  Ends-Negotiated :
      (m : Option (Result FrameError (Unit {0}) × Context d)) → Ends d config m → Negotiated m
  Ends-Negotiated none h = h
  Ends-Negotiated (some (err e, c)) h = h
  Ends-Negotiated (some (ok u, c)) h = (inr h.0, h.1)

  reset_session-Negotiated :
      (c : Context d)
      → InLimit d config c
      → Negotiated (reset_session d CloseReason.protocol_error c)
  reset_session-Negotiated c h =
      Ends-Negotiated _ (reset_session-Ends d config CloseReason.protocol_error c h)

  negotiate_frame-Negotiated :
      (now : ℕ) (r : Result FrameError Frame) (c : Context d)
      → InLimit d config c
      → Negotiated (negotiate_frame d now r c)
  unfolding negotiate_frame protocol_error
  negotiate_frame-Negotiated now (ok (client_hello version k)) c h =
      ground
        (arith, Ends-Negotiated _ (close_session-Ends d config CloseReason.version_mismatch c h))
  negotiate_frame-Negotiated now (ok (open_request a b x p)) c h = reset_session-Negotiated c h
  negotiate_frame-Negotiated now (ok (data_frame b)) c h = reset_session-Negotiated c h
  negotiate_frame-Negotiated now (ok (end_request r)) c h = reset_session-Negotiated c h
  negotiate_frame-Negotiated now (ok (reset r)) c h = reset_session-Negotiated c h
  negotiate_frame-Negotiated now (ok (ping t)) c h = reset_session-Negotiated c h
  negotiate_frame-Negotiated now (ok (pong t)) c h = reset_session-Negotiated c h
  negotiate_frame-Negotiated now (ok (close r)) c h = reset_session-Negotiated c h
  negotiate_frame-Negotiated now (err e) c h = reset_session-Negotiated c h

  negotiate-Negotiated :
      (now : ℕ) (first : FirstFrame) (c : Context d)
      → InLimit d config c
      → Negotiated (negotiate d now first c)
  unfolding negotiate drop_bytes
  negotiate-Negotiated now (given f) c h = negotiate_frame-Negotiated now (ok f) c h
  negotiate-Negotiated now read_first c h =
      let (result, s) = read_frame d c.stream in
      negotiate_frame-Negotiated now result (record c { stream = s }) h
  negotiate-Negotiated now (shutdown_first taken true) c h =
      Ends-Negotiated _
        (close_session-Ends d config CloseReason.shutdown_drain (drop_bytes d taken c) h)
  negotiate-Negotiated now (shutdown_first taken false) c h =
      let (result, s) = read_frame d (drop_bytes d taken c).stream in
      negotiate_frame-Negotiated now result (record c { stream = s }) h

  serve_from-IsOrderly :
      (ts : List (Turn Stream)) (c : Context d) (s : SessionState)
      → config.max_requests < usize_limit
      → All TurnFits ts
      → c.state ≡ s
      → (s ≡ idle) ⊎ IsDead s
      → InLimit d config c
      → IsOrderly d config (serve_from d config ts s c)
  unfolding serve_from
  serve_from-IsOrderly ts c s small fits e i h =
      let loops : c.state ≡ idle → IsOrderly d config (turns d config ts c) =
        λ i'. turns-IsOrderly ts c small fits i' h in
      ground (arith, loops)

  after_negotiation :
      (ts : List (Turn Stream)) (m : Option (Result FrameError (Unit {0}) × Context d))
      → config.max_requests < usize_limit
      → All TurnFits ts
      → Negotiated m
      → IsOrderly d config (and_then m (λ _. serve_loop d config ts))
  after_negotiation ts none small fits h = h
  after_negotiation ts (some (err e, c)) small fits h = h
  after_negotiation ts (some (ok u, c)) small fits h =
      unfold serve_loop in serve_from-IsOrderly ts c c.state small fits refl h.0 h.1

  -- Whatever the schedule of a session, where `max_requests` is a usize and the reads of the targets
  -- fit the relay's buffer: nothing panics, at most `max_requests` requests are counted, a session
  -- that has returned without an error is closed or poisoned, and one that still waits is idle or
  -- relays a request.
  pub run-IsOrderly :
      (started negotiated : ℕ) (first : FirstFrame) (ts : List (Turn Stream)) (s : Stream)
      → config.max_requests < usize_limit
      → All TurnFits ts
      → IsOrderly d config (run d config started negotiated first ts s)
  unfolding run
  run-IsOrderly started negotiated first ts s small fits =
      let c = new_context d s started in
      let none_yet : InLimit d config c = unfold new_context in omega arith in
      after_negotiation ts (negotiate d negotiated first c) small fits
        (negotiate-Negotiated negotiated first c none_yet)
