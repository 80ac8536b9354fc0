-- ===== src/Tunnel/Handshake.antt =====
-- tunnel/src/server.rs and tunnel/src/utils.rs: how the server reads TLS records and accepts a
-- tunnel. The tables of known types and versions and the parsers of the crate rustls, the Noise
-- responder of the crate snow and the replay filter of the crate lru are parameters, and so is
-- whether a time signature is good (Tunnel/Totp).
pub mod Records
pub mod Fallback
pub mod Replay
pub mod Accept
pub mod Answers
pub mod Copy
mod Tests
use noisy_shuttle.Base.{
  ℕ, zero, suc, ◌+◌, ◌≡◌, ◌==◌, leb, bit_and, if◌then◌else◌, Bool, true, false, not, ◌&&◌, List, [],
  ◌∷◌, ◌++◌, Option, none, some, take, drop, get_or, length, u16_from_be,
}
use noisy_shuttle.Results.{Result, ok, err}
use noisy_shuttle.Io.{IoError, invalid_data, Duplex}
use noisy_shuttle.Tunnel.Snowy.{maximum_ciphertext_length}

-- rustls: MessageError, as far as `read_tls_message` makes them.
pub data RecordFault : Type 0 where
  invalid_content_type unknown_protocol_version invalid_empty_payload message_too_large :
      RecordFault

-- rustls: which types and versions have a name. The payload of a ClientHello is its random and its
-- session id, and that of a ServerHello is whether it chooses TLS 1.3.
pub record Tls : Type 0 where
  pub known_type : ℕ → Bool
  pub known_version : ℕ → Bool
  pub client_hello : List ℕ → Option (List ℕ × List ℕ)
  pub server_hello : List ℕ → Option Bool

-- The time signature, the Noise responder up to transport mode, and the replay filter.
pub record Guard : Type 1 where
  pub verify : (random timesig : List ℕ) → Bool
  pub Responder : Type 0
  pub read_ping : List ℕ → Option Responder
  pub write_pong : Responder → List ℕ
  pub Filter : Type 0
  pub get : List ℕ → Filter → Option ℕ × Filter
  pub put : List ℕ → ℕ → Filter → Filter

abbrev pub handshake : ℕ
handshake = 0x16

abbrev pub change_cipher_spec : ℕ
change_cipher_spec = 0x14

abbrev pub application_data : ℕ
application_data = 0x17

abbrev pub payload_len : List ℕ → ℕ
payload_len header = u16_from_be (get_or header 3 0) (get_or header 4 0)

-- What `read_tls_message` refuses a header for.
unfoldable pub header_fault : Tls → List ℕ → Option RecordFault
header_fault tls header =
    let typ = get_or header 0 0 in
    let version = u16_from_be (get_or header 1 0) (get_or header 2 0) in
    if not (tls.known_type typ)
    then some invalid_content_type
    else if not (tls.known_version version) && not (bit_and version 0xff00 == 0x0300)
    then some unknown_protocol_version
    else if not (typ == application_data) && payload_len header == 0
    then some invalid_empty_payload
    else if leb maximum_ciphertext_length (payload_len header)
    then some message_too_large
    else none

-- The test at the end of a round of `copy_until_tls12_handshake_finished`: go on, with whether a
-- change of ciphers was seen, or stop.
unfoldable pub after_record : ℕ → Bool → Option (Result IoError Bool)
after_record typ seen =
    if typ == handshake
    then (if seen then none else some (ok false))
    else if not (typ == change_cipher_spec)
    then some (err invalid_data)
    else if seen
    then none
    else some (ok true)

-- How `accept` ends.
pub data Accepted (N S : Type 0) : Type 0 where
  tunnel : S → N → Accepted N S
  io_error : IoError → Accepted N S
  unauthenticated : (buf : List ℕ) → S → Accepted N S
  replay_detected : (buf : List ℕ) → S → (nonce : List ℕ) → (first_from : ℕ) → Accepted N S
  client_hello_invalid : (buf : List ℕ) → S → Accepted N S
  server_hello_invalid : (buf : List ℕ) → (inbound outbound : S) → Accepted N S

-- How `copy_until_tls12_handshake_finished` ends: with a result, the stream that was read and the one that
-- was written; or out of fuel.
pub data Copied (S : Type 0) : Type 0 where
  copied : Result IoError (Unit {0}) → S → S → Copied S
  unfinished : Copied S

module _ (d : Duplex) where
  open d use {Stream, read_exact, write_all}

  -- The result, `buf` and the stream; `buf` is filled in whole or, where a header is refused, left as it is.
  unfoldable pub read_body :
      List ℕ
      → Result IoError (List ℕ) × Stream
      → Result IoError (Result RecordFault (Unit {0})) × List ℕ × Stream
  read_body header (ok payload, s) = (ok (ok tt), header ++ payload, s)
  read_body header (err e, s) = (err e, header, s)

  unfoldable pub read_header :
      Tls
      → List ℕ
      → Result IoError (List ℕ) × Stream
      → Result IoError (Result RecordFault (Unit {0})) × List ℕ × Stream
  read_header tls buf (err e, s) = (err e, buf, s)
  read_header tls buf (ok header, s) = elim (header_fault tls header) [
    | some fault ↦ (ok (err fault), buf, s)
    | none ↦ read_body header (read_exact (payload_len header) s)
  ]

  unfoldable pub read_tls_message :
      Tls → List ℕ → Stream → Result IoError (Result RecordFault (Unit {0})) × List ℕ × Stream
  read_tls_message tls buf s = read_header tls buf (read_exact 5 s)

  -- What follows the test.
  unfoldable pub on_record :
      (Bool → Stream → Stream → Copied Stream)
      → Stream
      → Stream
      → Option (Result IoError Bool)
      → Copied Stream
  on_record next r w none = copied (ok tt) r w
  on_record next r w (some (err e)) = copied (err e) r w
  on_record next r w (some (ok seen)) = next seen r w

  -- What follows each call of a round.
  unfoldable pub after_body_write :
      ℕ
      → Bool
      → (Bool → Stream → Stream → Copied Stream)
      → Stream
      → Result IoError (Unit {0}) × Stream
      → Copied Stream
  after_body_write typ seen next r (err e, w) = copied (err e) r w
  after_body_write typ seen next r (ok u, w) = on_record next r w (after_record typ seen)

  unfoldable pub after_body_read :
      ℕ
      → Bool
      → (Bool → Stream → Stream → Copied Stream)
      → Stream
      → Result IoError (List ℕ) × Stream
      → Copied Stream
  after_body_read typ seen next w (err e, r) = copied (err e) r w
  after_body_read typ seen next w (ok body, r) = after_body_write typ seen next r (write_all body w)

  unfoldable pub after_header_write :
      List ℕ
      → Bool
      → (Bool → Stream → Stream → Copied Stream)
      → Stream
      → Result IoError (Unit {0}) × Stream
      → Copied Stream
  after_header_write header seen next r (err e, w) = copied (err e) r w
  after_header_write header seen next r (ok u, w) =
      after_body_read (get_or header 0 0) seen next w (read_exact (payload_len header) r)

  unfoldable pub after_header_read :
      Bool
      → (Bool → Stream → Stream → Copied Stream)
      → Stream
      → Result IoError (List ℕ) × Stream
      → Copied Stream
  after_header_read seen next w (err e, r) = copied (err e) r w
  after_header_read seen next w (ok header, r) =
      after_header_write header seen next r (write_all header w)

  -- The fuel is the number of records.
  unfoldable pub copy_until_tls12_handshake_finished : ℕ → Bool → Stream → Stream → Copied Stream
  copy_until_tls12_handshake_finished zero seen r w = unfinished
  copy_until_tls12_handshake_finished (suc fuel) seen r w =
      after_header_read seen (copy_until_tls12_handshake_finished fuel) w (read_exact 5 r)

  -- The part of `accept` up to the connection to the camouflage server: with the responder, the
  -- ClientHello and the stream if it goes on, or how it ends.
  module _ (tls : Tls) (guard : Guard) where
    open guard use {verify, Responder, read_ping, Filter, get, put}

    -- The replay filter.
    unfoldable pub check_replay :
        List ℕ
        → Stream
        → (nonce : List ℕ) → (peer : ℕ) → Responder
        → Option ℕ × Filter
        → Result (Accepted Responder Stream) (Responder × List ℕ × Stream) × Filter
    check_replay buf s nonce peer responder (some first_from, f) =
        (err (replay_detected buf s nonce first_from), f)
    check_replay buf s nonce peer responder (none, f) = (ok (responder, buf, s), put nonce peer f)

    unfoldable pub check_ping :
        List ℕ
        → Stream
        → (nonce : List ℕ) → (peer : ℕ) → Option Responder
        → Filter
        → Result (Accepted Responder Stream) (Responder × List ℕ × Stream) × Filter
    check_ping buf s nonce peer none f = (err (unauthenticated buf s), f)
    check_ping buf s nonce peer (some responder) f =
        check_replay buf s nonce peer responder (get nonce f)

    -- psk_e is the random and the first half of the session id, the second half is the time signature.
    unfoldable pub authenticate :
        List ℕ
        → Stream
        → (peer : ℕ) → Filter
        → Option (List ℕ × List ℕ)
        → Result (Accepted Responder Stream) (Responder × List ℕ × Stream) × Filter
    authenticate buf s peer f none = (err (client_hello_invalid buf s), f)
    authenticate buf s peer f (some (random, session_id)) =
        let pinged = check_ping buf s random peer (read_ping (random ++ take 16 session_id)) f in
        if verify random (drop 16 session_id) then pinged else (err (unauthenticated buf s), f)

    unfoldable pub on_client_hello :
        (peer : ℕ)
        → Filter
        → Result IoError (Result RecordFault (Unit {0})) × List ℕ × Stream
        → Result (Accepted Responder Stream) (Responder × List ℕ × Stream) × Filter
    on_client_hello peer f (err e, buf, s) = (err (io_error e), f)
    on_client_hello peer f (ok (err fault), buf, s) = (err (client_hello_invalid buf s), f)
    on_client_hello peer f (ok (ok u), buf, s) = authenticate buf s peer f (tls.client_hello buf)

    unfoldable pub accept_client :
        (peer : ℕ)
        → Filter
        → Stream
        → Result (Accepted Responder Stream) (Responder × List ℕ × Stream) × Filter
    accept_client peer f inbound = on_client_hello peer f (read_tls_message tls [] inbound)
