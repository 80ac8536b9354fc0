-- ===== src/Tunnel/Handshake/Fallback.antt =====
-- tunnel/src/server.rs: what a connection that is not taken for a tunnel is left as.
use noisy_shuttle.Base.{
  ℕ, ◌≡◌, ◌⊎◌, List, [], ◌++◌, Option, none, some, length, take, drop, Bool-cases, inl, inr,
}
use noisy_shuttle.Results.{Result, ok, err}
use noisy_shuttle.Io.{IoError, Duplex, DuplexLaws}
use noisy_shuttle.Tunnel.Handshake.{
  Tls, Guard, RecordFault, Accepted, tunnel, io_error, unauthenticated, replay_detected,
  client_hello_invalid, server_hello_invalid, read_tls_message, check_replay, check_ping,
  authenticate, on_client_hello, accept_client,
}
use noisy_shuttle.Tunnel.Handshake.Records.{Takes, read_tls_message-Takes}

module _ (d : Duplex) (laws : DuplexLaws d) (tls : Tls) (guard : Guard) where
  open d use {Stream}
  open laws use {incoming, outgoing}
  open guard use {Responder, Filter, get, put, read_ping, verify}

  -- The buffer and what is still in the stream are what the peer has sent, and it was sent nothing.
  abbrev pub IsWhole : Stream → List ℕ → Stream → Type 0
  IsWhole s buf t = (incoming s ≡ buf ++ incoming t) × (outgoing t ≡ outgoing s)

  -- The five bytes of a refused header are in no buffer.
  abbrev pub LosesHeader : Stream → List ℕ → Stream → Type 0
  LosesHeader s buf t =
      (buf ≡ [])
      × (outgoing t ≡ outgoing s)
      × (header : List ℕ) × (length header ≡ 5)
      × (incoming s ≡ header ++ incoming t)

  abbrev pub LeftAs :
      Stream → Result (Accepted Responder Stream) (Responder × List ℕ × Stream) → Type 0
  LeftAs s (ok (responder, buf, t)) = IsWhole s buf t
  LeftAs s (err (unauthenticated buf t)) = IsWhole s buf t
  LeftAs s (err (replay_detected buf t nonce first_from)) = IsWhole s buf t
  LeftAs s (err (client_hello_invalid buf t)) = IsWhole s buf t ⊎ LosesHeader s buf t
  LeftAs s (err (tunnel t responder)) = ⊥
  LeftAs s (err (server_hello_invalid buf t u)) = ⊥
  LeftAs s (err (io_error e)) = Unit {0}

  check_replay-LeftAs :
      (s t : Stream) (buf nonce : List ℕ) (peer : ℕ) (responder : Responder) (q : Option ℕ × Filter)
      → IsWhole s buf t
      → LeftAs s (check_replay d tls guard buf t nonce peer responder q).0
  unfolding check_replay
  check_replay-LeftAs s t buf nonce peer responder (some first_from, f) w = w
  check_replay-LeftAs s t buf nonce peer responder (none, f) w = w

  check_ping-LeftAs :
      (s t : Stream) (buf nonce : List ℕ) (peer : ℕ) (r : Option Responder) (f : Filter)
      → IsWhole s buf t
      → LeftAs s (check_ping d tls guard buf t nonce peer r f).0
  unfolding check_ping
  check_ping-LeftAs s t buf nonce peer none f w = w
  check_ping-LeftAs s t buf nonce peer (some responder) f w =
      check_replay-LeftAs s t buf nonce peer responder (get nonce f) w

  authenticate-LeftAs :
      (s t : Stream) (buf : List ℕ) (peer : ℕ) (f : Filter) (hello : Option (List ℕ × List ℕ))
      → IsWhole s buf t
      → LeftAs s (authenticate d tls guard buf t peer f hello).0
  unfolding authenticate
  authenticate-LeftAs s t buf peer f none w = inl w
  authenticate-LeftAs s t buf peer f (some (random, session_id)) w =
      elim (Bool-cases (verify random (drop 16 session_id))) [
        | inl v ↦
            rw (v)
              (check_ping-LeftAs s t buf random peer (read_ping (random ++ take 16 session_id)) f w)
        | inr v ↦ rw (v) w
      ]

  on_client_hello-LeftAs :
      (s : Stream) (peer : ℕ) (f : Filter)
      (r : Result IoError (Result RecordFault (Unit {0})) × List ℕ × Stream)
      → Takes d laws s [] r
      → LeftAs s (on_client_hello d tls guard peer f r).0
  unfolding on_client_hello
  on_client_hello-LeftAs s peer f (err e, buf, t) w = tt
  on_client_hello-LeftAs s peer f (ok (err fault), buf, t) w = inr w
  on_client_hello-LeftAs s peer f (ok (ok u), buf, t) w =
      authenticate-LeftAs s t buf peer f (tls.client_hello buf) w

  -- A connection that `accept` turns away as unauthenticated, as a replay or for its ClientHello has
  -- been sent nothing, and its buffer and what is still in the stream are together what the peer
  -- has sent, so that it can be relayed to the camouflage server as if it had gone there; the one
  -- exception is a first record with a header that is refused, the five bytes of which are lost.
  pub accept_client-LeftAs :
      (peer : ℕ) (f : Filter) (inbound : Stream)
      → LeftAs inbound (accept_client d tls guard peer f inbound).0
  unfolding accept_client
  accept_client-LeftAs peer f inbound =
      on_client_hello-LeftAs inbound peer f (read_tls_message d tls [] inbound)
        (read_tls_message-Takes d laws tls inbound [])
