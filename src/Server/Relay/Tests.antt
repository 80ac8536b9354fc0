-- ===== src/Server/Relay/Tests.antt =====
-- shuttle/src/server/session_loop.rs: an example of a relay, in which the client sends one byte and
-- ends, and then the target does.
use noisy_shuttle.Base.{ℕ, ◌≡◌, refl, true, false, List, [], ◌∷◌, arith}
use noisy_shuttle.Results.{ok}
use noisy_shuttle.Io.Pipe.{pipe, from_peer}
use noisy_shuttle.Session.Frame.{encode, decode, payload}
use noisy_shuttle.Session.Stream.{read_frame, write_frame}
use noisy_shuttle.Server.Relay.{
  RelayEvent, client_ready, target_ready, finished, relay_framed_tcp, relay_step, relay_arm,
  on_client_frame, on_target_read,
}
use noisy_shuttle.Server.Relay.Invariant.{IsSound, relay_framed_tcp-IsSound}

abbrev schedule : List RelayEvent
schedule = client_ready true ∷ client_ready true ∷ target_ready 0 (ok []) ∷ []

abbrev client_bytes : List ℕ
client_bytes = 0x03 ∷ 0 ∷ 1 ∷ 65 ∷ 0x04 ∷ 0 ∷ 1 ∷ 0 ∷ []

relay_finishes :
    relay_framed_tcp pipe false schedule (from_peer client_bytes)
    ≡ finished (record {
      stream = record { incoming = []; outgoing = 0x04 ∷ 0 ∷ 1 ∷ 0 ∷ [] };
      tx = 1;
      rx = 0;
      client_ended = true;
      target_ended = true;
      draining = false;
      to_target = 65 ∷ [];
      target_shut = true;
    })
unfolding relay_framed_tcp relay_step relay_arm on_client_frame on_target_read read_frame
    write_frame encode payload decode
relay_finishes = refl

relay_framed_tcp-IsSound_example :
    IsSound (relay_framed_tcp pipe false schedule (from_peer client_bytes))
relay_framed_tcp-IsSound_example =
    relay_framed_tcp-IsSound pipe false schedule (from_peer client_bytes) (omega arith)
