-- ===== src/Tunnel/Connect/Welcome.antt =====
-- tunnel/src/client.rs and tunnel/src/server.rs: a client is let through by a server with the same
-- key, and its answer makes the tunnel.
use noisy_shuttle.Base.{
  ℕ, ◌+◌, ◌≤◌, ◌≡◌, refl, sym, ap, ◌∙◌, true, false, ltb, List, [], ◌∷◌, ◌++◌, Option, none, some,
  arith, length, length-append, take, take-append,
}
use noisy_shuttle.Results.{ok}
use noisy_shuttle.Io.{Duplex, DuplexLaws}
use noisy_shuttle.Tunnel.Handshake.{Tls, Guard, header_fault, application_data}
use noisy_shuttle.Tunnel.Handshake.Accept.{pong}
use noisy_shuttle.Tunnel.Fingerprint.{FingerprintSpec, Grease, Rustls}
use noisy_shuttle.Tunnel.Connect.{TlsClient}
use noisy_shuttle.Tunnel.Connect.Hello.{
  Initiator, Overwriter, connected, say_hello, after_noise, on_pong, read_pong, on_version,
  on_server_hello, after_hello, connect,
}
use noisy_shuttle.Tunnel.Connect.Meets.{IsRecord, SameKey, reads_message}

random_of : Option (List ℕ × List ℕ) → List ℕ
random_of none = []
random_of (some (random, session_id)) = random

module _ (d : Duplex) (laws : DuplexLaws d) (tls : Tls) (grease : Grease) (rustls : Rustls)
    (t : TlsClient (Overwriter grease)) (i : Initiator) (sign : List ℕ → List ℕ)
    (spec : FingerprintSpec) (guard : Guard)
    (same_key : SameKey tls grease rustls t i guard sign) where
  open d use {Stream}
  open laws use {incoming, outgoing}
  open i use {Handshaking, Transport, read_message}
  open guard use {Responder, Filter, write_pong, get, read_ping}

  -- The answer of the server is a record.
  pong-IsRecord :
      (fuel : ℕ) (padding : List ℕ) (responder : Responder)
      → length padding ≤ 24
      → tls.known_type application_data ≡ true
      → tls.known_version 0x0303 ≡ true
      → IsRecord tls
          (0x17 ∷ 0x03 ∷ 0x03 ∷ 0x00 ∷ (0x30 + length padding) ∷ [])
          (write_pong responder ++ padding)
  unfolding header_fault
  pong-IsRecord fuel padding responder short typ version = record {
    header_len = refl;
    body_len =
        omega (arith, length-append (write_pong responder) padding, same_key.pong_len responder);
    accepted = ground (arith, typ, version, short);
  }

  -- A client that has sent its hello, and is answered with a ServerHello that chooses TLS 1.3 and
  -- the server's answer to its Noise message, has a tunnel: it takes these two records and nothing
  -- of what follows them, and sends nothing more.
  pub connect-reaches_tunnel :
      (initiator noise : Handshaking) (conn : t.Connection) (s s' : Stream)
      (hello header body rest padding : List ℕ) (fuel : ℕ) (responder : Responder)
      (transport : Transport)
      → say_hello d grease rustls t tls i sign spec initiator s ≡ ok (noise, conn, hello, s')
      → read_message (write_pong responder) noise ≡ some transport
      → IsRecord tls header body
      → tls.server_hello (header ++ body) ≡ some true
      → length padding ≤ 24
      → tls.known_type application_data ≡ true
      → tls.known_version 0x0303 ≡ true
      → incoming s' ≡ header ++ (body ++ (pong d tls guard fuel padding responder ++ rest))
      → (s'' : Stream) × (connect d grease rustls t tls i sign spec fuel initiator s
          ≡ connected s'' transport)
        × (incoming s'' ≡ rest)
        × (outgoing s'' ≡ outgoing s')
  unfolding connect after_hello on_server_hello on_version read_pong on_pong after_noise
  connect-reaches_tunnel initiator noise conn s s' hello header body rest padding fuel responder
        transport said answered is tls13 short typ version arrives =
      let answer = write_pong responder ++ padding in
      let first = 0x17 ∷ 0x03 ∷ 0x03 ∷ 0x00 ∷ (0x30 + length padding) ∷ [] in
      let (s₁, got, i₁, o₁) =
        reads_message d laws tls hello header body (pong d tls guard fuel padding responder ++ rest)
          s' is arrives in
      let (s₂, got', i₂, o₂) =
        reads_message d laws tls [] first answer rest s₁
          (pong-IsRecord fuel padding responder short typ version) i₁ in
      let enough : ltb (length (first ++ answer)) 53 ≡ false =
        ground (arith, length-append (write_pong responder) padding, same_key.pong_len responder) in
      let noise_part : take 48 answer ≡ write_pong responder =
        ap (λ n. take n answer) (sym (same_key.pong_len responder))
        ∙ take-append (write_pong responder) padding in
      (
        s₂,
        rw said (rw got (rw tls13 (rw got' (rw enough (rw (noise_part, answered) refl))))),
        i₂,
        o₂ ∙ o₁,
      )
