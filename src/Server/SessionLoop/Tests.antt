-- ===== src/Server/SessionLoop/Tests.antt =====
-- shuttle/src/server/session_loop.rs: examples of sessions.
use noisy_shuttle.Base.{ℕ, ◌≡◌, refl, true, false, List, [], ◌∷◌, ◌++◌, none, some, arith}
use noisy_shuttle.Results.{ok}
use noisy_shuttle.Io.Pipe.{Pipe, pipe, pipe_laws, from_peer}
use noisy_shuttle.Opt.{ReuseConfig}
use noisy_shuttle.Session.Lifecycle.{idle, closed}
use noisy_shuttle.Session.Frame.{encode, decode, payload, decode_open_request}
use noisy_shuttle.Session.Stream.{read_frame, write_frame}
use noisy_shuttle.Session.Negotiate.{Capabilities}
use noisy_shuttle.Session.Negotiate.Agreement.{hello}
use noisy_shuttle.Server.Address.{frame_addr_to_trojan_addr}
use noisy_shuttle.Server.Relay.{
  client_ready, target_ready, relay_framed_tcp, relay_step, relay_arm, on_client_frame,
  on_target_read,
}
use noisy_shuttle.Server.SessionLoop.{
  Context, continue, stop, RequestEnv, expired_limit, elapsed_at_least, close_session, send_frame,
  close_reason_code, negotiate_frame, handle_frame, relay_open_request, after_relay, after_request,
  and_stop,
}
use noisy_shuttle.Server.SessionLoop.Serve.{
  Turn, frame_ready, read_first, run, negotiate, new_context, serve_turn, serve_loop, turns, select,
  on_frame, after_turn,
}
use noisy_shuttle.Server.SessionLoop.Sound.{run-IsOrderly}
use noisy_shuttle.Server.SessionLoop.Orderly.{IsOrderly}
use noisy_shuttle.Server.SessionLoop.Wire.{ping_answered}

abbrev config : ReuseConfig
config = record {
  max_idle = 2;
  max_requests = 1;
  max_age = 100;
  idle_timeout = 50;
  keepalive_interval = 20;
  keepalive_timeout = 10;
  jitter_percent = 0;
}

abbrev caps : Capabilities
caps = record { bits = 3 }

-- A hello, a request for 1.2.3.4:80, one byte of data, and the end of the request.
abbrev client_bytes : List ℕ
client_bytes =
    hello caps
    ++ (0x02 ∷ 0 ∷ 8 ∷ 1 ∷ 1 ∷ 1 ∷ 2 ∷ 3 ∷ 4 ∷ 0 ∷ 80 ∷ 0x03 ∷ 0 ∷ 1 ∷ 65 ∷ 0x04 ∷ 0 ∷ 1 ∷ 0 ∷ [])

abbrev env : RequestEnv
env = record {
  connected = true;
  shutdown = false;
  events = client_ready true ∷ client_ready true ∷ target_ready 0 (ok []) ∷ [];
  shutdown_after = false;
  now_after = 9;
}

abbrev schedule : List (Turn Pipe)
schedule = record { shutdown = false; close_cut = none; now = 7; event = frame_ready 8 env } ∷ []

-- The one request that the limit allows is served, and the session is closed.
session_ends :
    run pipe config 5 6 read_first schedule (from_peer client_bytes)
    ≡ some (
      ok stop,
      record {
        stream = record { incoming = []; outgoing = 0x04 ∷ 0 ∷ 1 ∷ 0 ∷ 0x08 ∷ 0 ∷ 1 ∷ 5 ∷ [] };
        state = closed;
        request_count = 1;
        created_at = 5;
        last_activity = 8;
      },
    )
unfolding run negotiate new_context negotiate_frame serve_loop turns serve_turn select on_frame
    handle_frame relay_open_request relay_framed_tcp relay_step relay_arm on_client_frame
    on_target_read after_relay after_request after_turn expired_limit close_session
    close_reason_code and_stop send_frame frame_addr_to_trojan_addr read_frame write_frame encode
    payload decode decode_open_request
session_ends = refl

run-IsOrderly_example :
    IsOrderly pipe config (run pipe config 5 6 read_first schedule (from_peer client_bytes))
run-IsOrderly_example =
    run-IsOrderly pipe config 5 6 read_first schedule (from_peer client_bytes) (omega arith)
      (omega arith)

abbrev session : ℕ → List ℕ → Context pipe
session count bytes = record {
  stream = from_peer bytes;
  state = idle;
  request_count = count;
  created_at = 5;
  last_activity = 6;
}

abbrev ping_frame : List ℕ
ping_frame = 0x06 ∷ 0 ∷ 4 ∷ 0 ∷ 0 ∷ 0 ∷ 9 ∷ []

not_expired : expired_limit config (session 0 ping_frame) 7 ≡ none
unfolding expired_limit elapsed_at_least
not_expired = refl

ping_answered_example :
    (s : Pipe) × (serve_turn pipe config
        (record { shutdown = false; close_cut = none; now = 7; event = frame_ready 8 env })
        (session 0 ping_frame)
      ≡ some (ok continue, record (session 0 ping_frame) { stream = s; last_activity = 8 }))
    × (s.incoming ≡ [])
    × (s.outgoing ≡ 0x07 ∷ 0 ∷ 4 ∷ 0 ∷ 0 ∷ 0 ∷ 9 ∷ [])
ping_answered_example =
    ping_answered pipe pipe_laws config (session 0 ping_frame) env 9 7 8 [] (omega arith)
      not_expired refl refl
