-- ===== src/Tunnel/Handshake/Accept.antt =====
-- tunnel/src/server.rs: `accept` from the camouflage server on. What the connection gives and the
-- random padding are arguments. The two directions of a TLS 1.2 handshake are copied one after the
-- other: each reads one half of a connection and writes the other half of the other.
use noisy_shuttle.Base.{
  ℕ, ◌+◌, Bool, false, List, ◌∷◌, ◌++◌, Option, none, some, length, if◌then◌else◌,
}
use noisy_shuttle.Results.{Result, ok, err}
use noisy_shuttle.Io.{IoError, Duplex}
use noisy_shuttle.Tunnel.Handshake.{
  Tls, Guard, RecordFault, Accepted, tunnel, io_error, server_hello_invalid, Copied, copied,
  unfinished, copy_until_tls12_handshake_finished, read_tls_message, accept_client,
}

module _ (d : Duplex) (tls : Tls) (guard : Guard) (fuel : ℕ) (padding : List ℕ) where
  open d use {Stream, write_all}
  open guard use {Responder, write_pong, Filter}

  -- The answer to the Noise message, in a record of application data.
  abbrev pub pong : Responder → List ℕ
  pong responder =
      0x17 ∷ 0x03 ∷ 0x03 ∷ 0x00 ∷ (0x30 + length padding) ∷ (write_pong responder ++ padding)

  unfoldable pub send_pong :
      Responder → Result IoError (Unit {0}) × Stream → Accepted Responder Stream
  send_pong responder (ok u, inbound) = tunnel inbound responder
  send_pong responder (err e, inbound) = io_error e

  -- `relay_until_tls12_handshake_finished`, and the answer after it; `none` is out of fuel.
  unfoldable pub after_backward :
      Responder → Result IoError (Unit {0}) → Copied Stream → Option (Accepted Responder Stream)
  after_backward responder a unfinished = none
  after_backward responder (err e) (copied b outbound inbound) = some (io_error e)
  after_backward responder (ok u) (copied (err e) outbound inbound) = some (io_error e)
  after_backward responder (ok u) (copied (ok v) outbound inbound) =
      some (send_pong responder (write_all (pong responder) inbound))

  unfoldable pub after_forward : Responder → Copied Stream → Option (Accepted Responder Stream)
  after_forward responder unfinished = none
  after_forward responder (copied a inbound outbound) =
      after_backward responder a (copy_until_tls12_handshake_finished d fuel false outbound inbound)

  -- What follows the ServerHello, which is forwarded; the Boolean is whether TLS 1.3 was chosen.
  unfoldable pub after_hello :
      Responder
      → Bool
      → Stream
      → Result IoError (Unit {0}) × Stream
      → Option (Accepted Responder Stream)
  after_hello responder tls13 outbound (err e, inbound) = some (io_error e)
  after_hello responder tls13 outbound (ok u, inbound) =
      let relayed =
        after_forward responder
          (copy_until_tls12_handshake_finished d fuel false inbound outbound) in
      if tls13 then some (send_pong responder (write_all (pong responder) inbound)) else relayed

  unfoldable pub check_server_hello :
      Responder
      → List ℕ
      → (inbound outbound : Stream) → Option Bool
      → Option (Accepted Responder Stream)
  check_server_hello responder buf inbound outbound none =
      some (server_hello_invalid buf inbound outbound)
  check_server_hello responder buf inbound outbound (some tls13) =
      after_hello responder tls13 outbound (write_all buf inbound)

  unfoldable pub on_server_hello :
      Responder
      → Stream
      → Result IoError (Result RecordFault (Unit {0})) × List ℕ × Stream
      → Option (Accepted Responder Stream)
  on_server_hello responder inbound (err e, buf, outbound) = some (io_error e)
  on_server_hello responder inbound (ok (err fault), buf, outbound) =
      some (server_hello_invalid buf inbound outbound)
  on_server_hello responder inbound (ok (ok u), buf, outbound) =
      check_server_hello responder buf inbound outbound (tls.server_hello buf)

  -- The ClientHello is forwarded, and `buf` is used again for the answer.
  unfoldable pub after_write :
      Responder
      → List ℕ
      → Stream
      → Result IoError (Unit {0}) × Stream
      → Option (Accepted Responder Stream)
  after_write responder buf inbound (err e, outbound) = some (io_error e)
  after_write responder buf inbound (ok u, outbound) =
      on_server_hello responder inbound (read_tls_message d tls buf outbound)

  unfoldable pub after_connect :
      Responder → List ℕ → Stream → Result IoError Stream → Option (Accepted Responder Stream)
  after_connect responder buf inbound (err e) = some (io_error e)
  after_connect responder buf inbound (ok outbound) =
      after_write responder buf inbound (write_all buf outbound)

  unfoldable pub after_client :
      Result IoError Stream
      → Result (Accepted Responder Stream) (Responder × List ℕ × Stream) × Filter
      → Option (Accepted Responder Stream) × Filter
  after_client connected (err e, f) = (some e, f)
  after_client connected (ok (responder, buf, inbound), f) =
      (after_connect responder buf inbound connected, f)

  unfoldable pub accept :
      Result IoError Stream
      → (peer : ℕ) → Filter
      → Stream
      → Option (Accepted Responder Stream) × Filter
  accept connected peer f inbound =
      after_client connected (accept_client d tls guard peer f inbound)
