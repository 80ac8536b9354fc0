-- ===== src/Tunnel/Connect/Tests.antt =====
-- Runs and examples of tunnel/src/client.rs.
use noisy_shuttle.Base.{ℕ, ◌≡◌, refl, true, false, List, [], ◌∷◌, ◌++◌, none, some, arith}
use noisy_shuttle.Results.{ok}
use noisy_shuttle.Io.Pipe.{Pipe, pipe, pipe_laws, from_peer}
use noisy_shuttle.Tunnel.Handshake.{header_fault, after_record}
use noisy_shuttle.Tunnel.Handshake.Accept.{pong}
use noisy_shuttle.Tunnel.Fingerprint.{FingerprintSpec, zeros, is_empty}
use noisy_shuttle.Tunnel.Fingerprint.Values.{overwrite_extensions}
use noisy_shuttle.Tunnel.Fingerprint.Overwrite.{
  get_client_hello_overwriter, overwrite_client_hello_with_fingerprint_spec, overwrite_message,
  overwrite_hello, reorder_extensions, overwrite_payload, pad_hello, encode_hello,
}
use noisy_shuttle.Tunnel.Connect.{tls12_handshake}
use noisy_shuttle.Tunnel.Connect.Hello.{
  connected, say_hello, with_ping, exactly, with_connection, send_hello, after_hello_sent, alpn_for,
  connect,
}
use noisy_shuttle.Tunnel.Connect.Rounds.{tls12_handshake-Hears}
use noisy_shuttle.Tunnel.Connect.Feeds.{Hears}
use noisy_shuttle.Tunnel.Connect.Agrees.{PassedOn, last, more, Stops, tls12_handshake-Stops}
use noisy_shuttle.Tunnel.Connect.Meets.{IsRecord}
use noisy_shuttle.Tunnel.Connect.Welcome.{connect-reaches_tunnel}
use noisy_shuttle.Tunnel.Connect.Peers.{
  Log, hello_header, plain, plain_laws, plain_takes, no_grease, no_rustls, client, server_tls,
  initiator, guard, sign, same_key,
}

abbrev idle : Log
idle = record { log_taken = []; log_given = []; queue = [] }

-- A handshake record, a change of ciphers, a handshake record, and what follows.
abbrev flight_bytes : List ℕ
flight_bytes =
    0x16 ∷ 3 ∷ 3 ∷ 0 ∷ 1 ∷ 5 ∷ 0x14 ∷ 3 ∷ 3 ∷ 0 ∷ 1 ∷ 1 ∷ 0x16 ∷ 3 ∷ 3 ∷ 0 ∷ 2 ∷ 6 ∷ 7 ∷ []

tls12_handshake-Hears_example :
    Hears pipe pipe_laws plain plain_laws idle
      (from_peer (flight_bytes ++ (9 ∷ [])))
      (tls12_handshake pipe plain 50 false 16389 false idle (from_peer (flight_bytes ++ (9 ∷ []))))
unfolding plain_laws
tls12_handshake-Hears_example =
    tls12_handshake-Hears pipe pipe_laws plain plain_laws 50 false 16389 false idle
      (from_peer (flight_bytes ++ (9 ∷ []))) (omega arith) (omega arith)

goes_on : after_record 0x16 false ≡ some (ok false)
unfolding after_record
goes_on = refl

changes : after_record 0x14 false ≡ some (ok true)
unfolding after_record
changes = refl

stops : after_record 0x16 true ≡ none
unfolding after_record
stops = refl

abbrev flight : PassedOn false flight_bytes
flight = more (0x16 ∷ 3 ∷ 3 ∷ 0 ∷ 1 ∷ []) (5 ∷ []) refl refl goes_on (
    more (0x14 ∷ 3 ∷ 3 ∷ 0 ∷ 1 ∷ []) (1 ∷ []) refl refl changes
      (last (0x16 ∷ 3 ∷ 3 ∷ 0 ∷ 2 ∷ []) (6 ∷ 7 ∷ []) refl refl stops))

tls12_handshake-Stops_example :
    Stops pipe pipe_laws plain plain_laws plain_takes
      (9 ∷ [])
      (tls12_handshake pipe plain 50 false 16389 false idle (from_peer (flight_bytes ++ (9 ∷ []))))
unfolding plain_laws
tls12_handshake-Stops_example =
    tls12_handshake-Stops pipe pipe_laws plain plain_laws plain_takes 50 16389 false flight_bytes
      flight idle (from_peer (flight_bytes ++ (9 ∷ []))) (9 ∷ []) (omega arith) refl (omega arith)
      refl (omega arith)

abbrev spec : FingerprintSpec
spec = record {
  ja3 = none;
  alpn = none;
  signature_algos = some (0x0403 ∷ []);
  supported_versions = none;
  keyshare_curves = none;
}

abbrev hello : List ℕ
hello = hello_header ++ zeros 64

server_hello-IsRecord : IsRecord server_tls (0x16 ∷ 3 ∷ 3 ∷ 0 ∷ 1 ∷ []) (3 ∷ [])
unfolding header_fault
server_hello-IsRecord = record { header_len = refl; body_len = refl; accepted = refl }

-- The answer of a server that chooses TLS 1.3, and what follows it.
abbrev answer : List ℕ
answer = 0x16 ∷ 3 ∷ 3 ∷ 0 ∷ 1 ∷ 3 ∷ (pong pipe server_tls guard 9 (0 ∷ 0 ∷ []) 48 ++ (5 ∷ 6 ∷ []))

abbrev done_log : Log
done_log = record { log_taken = []; log_given = hello; queue = [] }

abbrev greeted : Pipe
greeted = record { incoming = answer; outgoing = hello }

said :
    say_hello pipe no_grease no_rustls client server_tls initiator sign spec 4 (from_peer answer)
    ≡ ok (4, done_log, hello, greeted)
unfolding say_hello with_ping exactly with_connection send_hello after_hello_sent alpn_for
    get_client_hello_overwriter is_empty overwrite_client_hello_with_fingerprint_spec
    overwrite_message overwrite_hello reorder_extensions overwrite_payload overwrite_extensions
    pad_hello encode_hello
said = refl

connect-reaches_tunnel_example :
    (s : Pipe) × (connect pipe no_grease no_rustls client server_tls initiator sign spec 9 4
        (from_peer answer)
      ≡ connected s 4)
    × (s.incoming ≡ 5 ∷ 6 ∷ [])
    × (s.outgoing ≡ hello)
connect-reaches_tunnel_example =
    connect-reaches_tunnel pipe pipe_laws server_tls no_grease no_rustls client initiator sign spec
      guard same_key 4 4 done_log (from_peer answer) greeted hello (0x16 ∷ 3 ∷ 3 ∷ 0 ∷ 1 ∷ [])
      (3 ∷ []) (5 ∷ 6 ∷ []) (0 ∷ 0 ∷ []) 9 48 4 said refl server_hello-IsRecord refl (omega arith)
      refl refl refl
