-- ===== src/Client/Plain/Tests.antt =====
-- Runs and examples of shuttle/src/client/plain.rs.
use noisy_shuttle.Base.{ℕ, ◌≡◌, refl, true, false, List, [], ◌∷◌, some, arith, drop}
use noisy_shuttle.Results.{ok}
use noisy_shuttle.Io.Pipe.{Pipe, pipe, from_peer}
use noisy_shuttle.Session.Frame.{open_request, encode, decode, payload}
use noisy_shuttle.Session.Stream.{read_frame, write_frame}
use noisy_shuttle.Server.Address.{Addr, domain, frame_addr_to_trojan_addr, is_utf8}
use noisy_shuttle.Client.Plain.{
  open_request_from_trojan_header, addr_range, request_at, trojan_header_len, addr_len,
  check_header_len,
}
use noisy_shuttle.Client.Plain.Header.{header, open_request_same_address}
use noisy_shuttle.Client.Plain.Frames.{
  ClientEvent, inbound_ready, frame_ready, relay_tcp_frames, finished, first_packet, written,
  abandon, send_first, after_header, send_request, on_inbound, on_server_frame, frames_step,
  frames_loop, start_frames,
}
use noisy_shuttle.Opt.{ReuseConfig}
use noisy_shuttle.Session.Lifecycle.Reason.{fallback_to_one_shot, discriminant}
use noisy_shuttle.Session.Negotiate.{negotiate_client}
use noisy_shuttle.Session.Negotiate.Fallback.{warn_fallback, new}
use noisy_shuttle.Client.Pool.{
  PoolInner, checkout, checkout_idle, checkout_new, pop_reusable, new_session,
}
use noisy_shuttle.Client.Plain.Reusable.{
  RelayEnv, one_shot, after_frames, after_open, send_open, after_negotiation, with_session,
  after_checkout, relay_tcp_reusable, fall_back, relay_tcp_remote,
}
use noisy_shuttle.Client.Plain.Balance.{LeavesOut, relay_tcp_reusable-LeavesOut}

abbrev site : Addr
site = domain (97 ∷ 98 ∷ []) 443

open_request_same_address_example :
    (open_request_from_trojan_header (some (header 1 site (7 ∷ [])))
      ≡ ok (open_request 1 3 (97 ∷ 98 ∷ []) 443))
    × (frame_addr_to_trojan_addr 3 (97 ∷ 98 ∷ []) 443 ≡ ok site)
    × (trojan_header_len (header 1 site (7 ∷ [])) ≡ ok 9)
    × (drop 9 (header 1 site (7 ∷ [])) ≡ 7 ∷ [])
unfolding is_utf8
open_request_same_address_example =
    open_request_same_address 1 site (7 ∷ []) (refl, omega arith, omega arith)

-- The client sends a byte with its request, then one more, and closes its side; the server sends a
-- byte and ends the request.
abbrev schedule : List ClientEvent
schedule =
    inbound_ready 0 (ok (66 ∷ []))
    ∷ inbound_ready 0 (ok [])
    ∷ frame_ready true
    ∷ frame_ready true
    ∷ []

abbrev server_bytes : List ℕ
server_bytes = 0x03 ∷ 0 ∷ 1 ∷ 67 ∷ 0x04 ∷ 0 ∷ 1 ∷ 0 ∷ []

abbrev request : List ℕ
request = header 1 site []

frames_finish :
    relay_tcp_frames pipe (some request) (some (ok (65 ∷ []))) schedule (from_peer server_bytes)
    ≡ finished (record {
      stream = record {
        incoming = [];
        outgoing = 0x03 ∷ 0 ∷ 1 ∷ 65 ∷ 0x03 ∷ 0 ∷ 1 ∷ 66 ∷ 0x04 ∷ 0 ∷ 1 ∷ 0 ∷ [];
      };
      tx = 2;
      rx = 1;
      client_closed = true;
      from_client = 65 ∷ 66 ∷ [];
      to_client = 67 ∷ [];
    })
unfolding relay_tcp_frames frames_loop frames_step on_inbound on_server_frame send_request
    after_header send_first written abandon start_frames first_packet trojan_header_len addr_len
    check_header_len read_frame write_frame encode payload decode discriminant
frames_finish = refl

abbrev config : ReuseConfig
config = record {
  max_idle = 2;
  max_requests = 3;
  max_age = 100;
  idle_timeout = 50;
  keepalive_interval = 20;
  keepalive_timeout = 10;
  jitter_percent = 0;
}

abbrev empty_pool : PoolInner Pipe
empty_pool = record {
  idle = [];
  checked_out = 4;
  closed = false;
  checkout_count = 9;
  reuse_count = 0;
}

-- A server that negotiates reuse, answers with a byte and closes the session.
abbrev closing_server : List ℕ
closing_server = 0x01 ∷ 0 ∷ 3 ∷ 1 ∷ 0 ∷ 1 ∷ 0x03 ∷ 0 ∷ 1 ∷ 67 ∷ 0x08 ∷ 0 ∷ 1 ∷ 5 ∷ []

abbrev env : RelayEnv Pipe
env = record {
  at_checkout = record {
    shutdown = false;
    now = 10;
    connect_now = 11;
    connected = some (from_peer closing_server);
    meanwhile = λ q. q;
    shutdown_after = false;
  };
  in_time = true;
  first = some (ok (65 ∷ []));
  events = inbound_ready 0 (ok (66 ∷ [])) ∷ frame_ready true ∷ frame_ready true ∷ [];
  during = λ q. q;
  shutdown = false;
  return_now = 20;
}

relay_tcp_reusable-LeavesOut_example :
    LeavesOut pipe config env 4 (relay_tcp_reusable pipe config env (some request) empty_pool)
unfolding open_request_from_trojan_header addr_range request_at
relay_tcp_reusable-LeavesOut_example =
    relay_tcp_reusable-LeavesOut pipe config env (some request)
      (open_request 1 3 (97 ∷ 98 ∷ []) 443) empty_pool
      (record { while_connecting = λ q. refl; while_relaying = λ q. refl }) (omega arith) refl

-- The session is closed after two bytes of the client were relayed; the request is sent again over a
-- tunnel of its own, without the second byte, which was read from the client after the first packet.
closed_session_falls_back :
    relay_tcp_remote pipe config env (some empty_pool) "a" new (some request)
    ≡ (one_shot (some request), record { warned = "a" ∷ [] }, fallback_to_one_shot ∷ [])
unfolding relay_tcp_remote fall_back relay_tcp_reusable after_checkout with_session
    after_negotiation send_open after_open after_frames checkout checkout_idle checkout_new
    pop_reusable negotiate_client relay_tcp_frames frames_loop frames_step on_inbound
    on_server_frame send_request after_header send_first written abandon start_frames first_packet
    trojan_header_len addr_len check_header_len read_frame write_frame encode payload decode
    open_request_from_trojan_header addr_range request_at warn_fallback new new_session
closed_session_falls_back = refl
