-- ===== src/Tunnel/Connect/Hello.antt =====
-- tunnel/src/client.rs: `connect`. The Noise initiator of the crate snow and the time signature
-- (Tunnel/Totp) are parameters.
use noisy_shuttle.Base.{
  ℕ, ◌==◌, ltb, if◌then◌else◌, Bool, true, false, ◌||◌, ◌+◌, List, [], ◌∷◌, ◌++◌, Option, none,
  some, take, drop, length,
}
use noisy_shuttle.Results.{Result, ok, err}
use noisy_shuttle.Io.{IoError, invalid_data, other_error, Duplex}
use noisy_shuttle.Tunnel.Snowy.{maximum_ciphertext_length}
use noisy_shuttle.Tunnel.Handshake.{Tls, RecordFault, read_tls_message}
use noisy_shuttle.Tunnel.Fingerprint.{
  Ja3, FingerprintSpec, Message, Grease, Rustls, al_protocol_negotiation,
}
use noisy_shuttle.Tunnel.Fingerprint.Overwrite.{get_client_hello_overwriter}
use noisy_shuttle.Tunnel.Connect.{TlsClient, Handshaken, finished, broken, spent, tls12_handshake}

-- snow: the handshake of an initiator, and the transport after it.
pub record Initiator : Type 1 where
  pub Handshaking : Type 0
  pub Transport : Type 0
  pub write_message : Handshaking → Option (List ℕ × Handshaking)
  pub read_message : List ℕ → Handshaking → Option Transport

-- What a connection does to the message of its ClientHello.
abbrev pub Overwriter : Grease → Type 0
Overwriter grease = Message → grease.Source → Option (Message × List ℕ × grease.Source)

-- How `connect` ends: a tunnel, an error, a panic; or out of fuel.
pub data Connected (T S : Type 0) : Type 0 where
  connected : S → T → Connected T S
  failed : IoError → S → Connected T S
  panicked : Connected T S
  unfinished : Connected T S

-- tunnel/src/common.rs: "http/2" and "http/1.1".
abbrev pub default_alpn_protocols : List (List ℕ)
default_alpn_protocols =
    (104 ∷ 116 ∷ 116 ∷ 112 ∷ 47 ∷ 50 ∷ []) ∷ (104 ∷ 116 ∷ 116 ∷ 112 ∷ 47 ∷ 49 ∷ 46 ∷ 49 ∷ []) ∷ []

unfoldable pub contains : ℕ → List ℕ → Bool
contains k [] = false
contains k (x ∷ xs) = x == k || contains k xs

abbrev pub unwrap_or {ℓ} : {A : Type ℓ} → Option A → A → A
unwrap_or none d = d
unwrap_or (some a) d = a

-- The ALPN protocols that the configuration of rustls is given.
unfoldable pub alpn_for : Option Ja3 → Option (List (List ℕ)) → List (List ℕ)
alpn_for none alpn = []
alpn_for (some ja3) alpn =
    if contains al_protocol_negotiation ja3.extensions
    then unwrap_or alpn default_alpn_protocols
    else []

-- tunnel/src/utils.rs: writen; `none` is the assertion, or the error that the caller unwraps.
unfoldable pub exactly : {S : Type 0} → ℕ → Option (List ℕ × S) → Option (List ℕ × S)
exactly n none = none
exactly n (some (bytes, s)) = if length bytes == n then some (bytes, s) else none

-- The session id: the rest of the Noise message, and the time signature of its first part.
abbrev pub session_id_of : (sign : List ℕ → List ℕ) → (psk_e : List ℕ) → List ℕ
session_id_of sign psk_e = take 16 (drop 32 psk_e) ++ sign (take 32 psk_e)

module _ (d : Duplex) (grease : Grease) (rustls : Rustls) (t : TlsClient (Overwriter grease))
    (tls : Tls) (i : Initiator) (sign : List ℕ → List ℕ) (spec : FingerprintSpec) where
  open d use {Stream, write_all}
  open t use {Connection, write_tls, read_tls}
  open i use {Handshaking, Transport, write_message, read_message}

  -- `connect` up to the ClientHello on the stream: with the initiator, the connection and the
  -- ClientHello if it goes on, or how it ends.
  unfoldable pub after_hello_sent :
      Handshaking
      → Connection
      → List ℕ
      → Result IoError (Unit {0}) × Stream
      → Result (Connected Transport Stream) (Handshaking × Connection × List ℕ × Stream)
  after_hello_sent noise conn buf (err e, s) = err (failed e s)
  after_hello_sent noise conn buf (ok u, s) = ok (noise, conn, buf, s)

  unfoldable pub send_hello :
      Handshaking
      → Stream
      → Option (List ℕ × Connection)
      → Result (Connected Transport Stream) (Handshaking × Connection × List ℕ × Stream)
  send_hello noise s none = err (failed other_error s)
  send_hello noise s (some (buf, conn)) = after_hello_sent noise conn buf (write_all buf s)

  unfoldable pub with_connection :
      Handshaking
      → Stream
      → Option Connection
      → Result (Connected Transport Stream) (Handshaking × Connection × List ℕ × Stream)
  with_connection noise s none = err panicked
  with_connection noise s (some conn) = send_hello noise s (write_tls conn)

  unfoldable pub with_ping :
      Stream
      → Option (List ℕ × Handshaking)
      → Result (Connected Transport Stream) (Handshaking × Connection × List ℕ × Stream)
  with_ping s none = err panicked
  with_ping s (some (psk_e, noise)) = with_connection noise s (
      t.new_with (alpn_for spec.ja3 spec.alpn) (take 32 psk_e) (session_id_of sign psk_e)
        (get_client_hello_overwriter grease rustls spec true true))

  unfoldable pub say_hello :
      Handshaking
      → Stream
      → Result (Connected Transport Stream) (Handshaking × Connection × List ℕ × Stream)
  say_hello initiator s = with_ping s (exactly 48 (write_message initiator))

  -- The answer of the Noise handshake.
  unfoldable pub after_noise : Stream → Option Transport → Connected Transport Stream
  after_noise s none = failed invalid_data s
  after_noise s (some transport) = connected s transport

  unfoldable pub on_pong :
      Handshaking
      → Result IoError (Result RecordFault (Unit {0})) × List ℕ × Stream
      → Connected Transport Stream
  on_pong noise (err e, pong, s) = failed e s
  on_pong noise (ok (err fault), pong, s) = failed invalid_data s
  on_pong noise (ok (ok u), pong, s) =
      if ltb (length pong) 53
      then failed invalid_data s
      else after_noise s (read_message (take 48 (drop 5 pong)) noise)

  unfoldable pub read_pong : Handshaking → Stream → Connected Transport Stream
  read_pong noise s = on_pong noise (read_tls_message d tls [] s)

  unfoldable pub after_tls12 :
      Handshaking → Handshaken Connection Stream → Connected Transport Stream
  after_tls12 noise broken = panicked
  after_tls12 noise spent = unfinished
  after_tls12 noise (finished (err e) conn s) = failed e s
  after_tls12 noise (finished (ok u) conn s) = read_pong noise s

  -- The ServerHello is shown to the connection once.
  unfoldable pub resume_tls12 :
      ℕ → Handshaking → Stream → Option (ℕ × Connection) → Connected Transport Stream
  resume_tls12 fuel noise s none = failed other_error s
  resume_tls12 fuel noise s (some (n, conn)) =
      after_tls12 noise
        (tls12_handshake d t fuel false (5 + maximum_ciphertext_length) false conn s)

  -- The Boolean is whether TLS 1.3 was chosen.
  unfoldable pub on_version :
      ℕ
      → Handshaking
      → Connection
      → (buf : List ℕ) → Stream
      → Option Bool
      → Connected Transport Stream
  on_version fuel noise conn buf s none = failed invalid_data s
  on_version fuel noise conn buf s (some tls13) =
      if tls13 then read_pong noise s else resume_tls12 fuel noise s (read_tls buf conn)

  unfoldable pub on_server_hello :
      ℕ
      → Handshaking
      → Connection
      → Result IoError (Result RecordFault (Unit {0})) × List ℕ × Stream
      → Connected Transport Stream
  on_server_hello fuel noise conn (err e, buf, s) = failed e s
  on_server_hello fuel noise conn (ok (err fault), buf, s) = failed invalid_data s
  on_server_hello fuel noise conn (ok (ok u), buf, s) =
      on_version fuel noise conn buf s (tls.server_hello buf)

  unfoldable pub after_hello :
      ℕ
      → Result (Connected Transport Stream) (Handshaking × Connection × List ℕ × Stream)
      → Connected Transport Stream
  after_hello fuel (err e) = e
  after_hello fuel (ok (noise, conn, buf, s)) =
      on_server_hello fuel noise conn (read_tls_message d tls buf s)

  unfoldable pub connect : ℕ → Handshaking → Stream → Connected Transport Stream
  connect fuel initiator s = after_hello fuel (say_hello initiator s)
