-- ===== src/Server/SessionLoop/Serve.antt =====
-- shuttle/src/server/session_loop.rs: the loop over the frames of a session. A turn says what the
-- loop finds at its top and which branch of its `select!` is ready; `taken` counts the bytes that a
-- dropped `read_frame` had read.
use noisy_shuttle.Base.{ℕ, Bool, List, [], ◌∷◌, Option, none, some, if◌then◌else◌}
use noisy_shuttle.Results.{Result, ok, err}
use noisy_shuttle.Actions.{Action, and_then}
use noisy_shuttle.Io.{Duplex}
use noisy_shuttle.Opt.{ReuseConfig}
use noisy_shuttle.Session.Lifecycle.{
  SessionState, handshaking, active, draining, closing, closed, poisoned,
}
use noisy_shuttle.Session.Lifecycle.Reason.{CloseReason}
use noisy_shuttle.Session.Frame.{Frame, FrameError}
use noisy_shuttle.Session.Stream.{read_frame}
use noisy_shuttle.Server.SessionLoop.{
  Context, Outcome, continue, stop, waiting, RequestEnv, expired_limit, close_session,
  reset_session, protocol_error, and_stop, negotiate_frame, handle_frame,
}

-- `close_cut` is the stream as the drain timer finds it, where closing takes longer than the timer.
pub data LoopEvent (N : Type 0) : Type 0 where
  frame_ready : (now : ℕ) → RequestEnv → LoopEvent N
  shutdown_changed : (taken : ℕ) → (shutdown : Bool) → (close_cut : Option N) → LoopEvent N
  idle_elapsed : (taken : ℕ) → LoopEvent N

pub record Turn (N : Type 0) : Type 0 where
  pub shutdown : Bool
  pub close_cut : Option N
  pub now : ℕ
  pub event : LoopEvent N

-- The first frame: given, read, or awaited while the shutdown flag changes.
pub data FirstFrame : Type 0 where
  given : Frame → FirstFrame
  read_first : FirstFrame
  shutdown_first : (taken : ℕ) → (shutdown : Bool) → FirstFrame

module _ (d : Duplex) where
  open d use {Stream, read_exact}

  -- The `match` on the state.
  unfoldable pub shut_down : SessionState → Option Stream → Action (Context d) FrameError (Unit {0})
  shut_down active none ctx =
      close_session d CloseReason.shutdown_drain (record ctx { state = draining })
  shut_down active (some s) ctx =
      reset_session d CloseReason.shutdown_drain (record ctx { state = closing; stream = s })
  shut_down closed close_cut ctx = some (ok tt, ctx)
  shut_down poisoned close_cut ctx = some (ok tt, ctx)
  shut_down _ close_cut ctx = close_session d CloseReason.shutdown_drain ctx

  unfoldable pub graceful_shutdown : Option Stream → Action (Context d) FrameError (Unit {0})
  unfolding shut_down
  graceful_shutdown close_cut ctx = shut_down ctx.state close_cut ctx

  -- The bytes that a dropped `read_frame` had taken are gone.
  unfoldable pub drop_bytes : ℕ → Context d → Context d
  drop_bytes taken ctx = record ctx { stream = (read_exact taken ctx.stream).1 }

  -- The arm of the first branch.
  unfoldable pub on_frame :
      ReuseConfig
      → (now : ℕ) → RequestEnv
      → Result FrameError Frame
      → Action (Context d) FrameError Outcome
  on_frame config now env (ok f) ctx =
      handle_frame d config env f (record ctx { last_activity = now })
  on_frame config now env (err e) ctx = and_stop d (protocol_error d ctx)

  unfoldable pub select : ReuseConfig → LoopEvent Stream → Action (Context d) FrameError Outcome
  select config (frame_ready now env) ctx =
      let (result, s) = read_frame d ctx.stream in
      on_frame config now env result (record ctx { stream = s })
  select config (shutdown_changed taken shutdown close_cut) ctx =
      let ctx' = drop_bytes taken ctx in
      if shutdown then and_stop d (graceful_shutdown close_cut ctx') else some (ok continue, ctx')
  select config (idle_elapsed taken) ctx =
      and_stop d (close_session d CloseReason.idle_timeout (drop_bytes taken ctx))

  -- One turn of the loop.
  unfoldable pub serve_turn : ReuseConfig → Turn Stream → Action (Context d) FrameError Outcome
  serve_turn config turn ctx =
      if turn.shutdown
      then and_stop d (graceful_shutdown turn.close_cut ctx)
      else elim (expired_limit config ctx turn.now) [
        | none ↦ select config turn.event ctx
        | some reason ↦ and_stop d (close_session d reason ctx)
      ]

  -- The rest of the loop after a turn.
  unfoldable pub after_turn :
      (rest : Context d → Option (Result FrameError Outcome × Context d))
      → Outcome
      → Action (Context d) FrameError Outcome
  after_turn rest continue ctx = rest ctx
  after_turn rest stop ctx = some (ok stop, ctx)
  after_turn rest waiting ctx = some (ok waiting, ctx)

  -- The loop; where the schedule ends, it waits.
  unfoldable pub turns : ReuseConfig → List (Turn Stream) → Action (Context d) FrameError Outcome
  turns config [] ctx = some (ok waiting, ctx)
  turns config (t ∷ ts) ctx = and_then (serve_turn config t ctx) (after_turn (turns config ts))

  -- Only a session that is closed or poisoned does not enter the loop.
  unfoldable pub serve_from :
      ReuseConfig → List (Turn Stream) → SessionState → Action (Context d) FrameError Outcome
  serve_from config ts closed ctx = some (ok stop, ctx)
  serve_from config ts poisoned ctx = some (ok stop, ctx)
  serve_from config ts _ ctx = turns config ts ctx

  unfoldable pub serve_loop :
      ReuseConfig → List (Turn Stream) → Action (Context d) FrameError Outcome
  unfolding serve_from
  serve_loop config ts ctx = serve_from config ts ctx.state ctx

  unfoldable pub negotiate : (now : ℕ) → FirstFrame → Action (Context d) FrameError (Unit {0})
  negotiate now (given f) ctx = negotiate_frame d now (ok f) ctx
  negotiate now read_first ctx =
      let (result, s) = read_frame d ctx.stream in
      negotiate_frame d now result (record ctx { stream = s })
  negotiate now (shutdown_first taken shutdown) ctx =
      let ctx' = drop_bytes taken ctx in
      if shutdown
      then close_session d CloseReason.shutdown_drain ctx'
      else let (result, s) = read_frame d ctx'.stream in
        negotiate_frame d now result (record ctx' { stream = s })

  unfoldable pub new_context : Stream → (now : ℕ) → Context d
  new_context s now = record {
    stream = s;
    state = handshaking;
    request_count = 0;
    created_at = now;
    last_activity = now;
  }

  -- run_with_stream_and_first_frame
  unfoldable pub run :
      ReuseConfig
      → (started negotiated : ℕ) → FirstFrame
      → List (Turn Stream)
      → Stream
      → Option (Result FrameError Outcome × Context d)
  run config started negotiated first ts s =
      and_then (negotiate negotiated first (new_context s started)) (λ _. serve_loop config ts)
