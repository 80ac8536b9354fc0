-- ===== src/Tunnel/Snowy.antt =====
-- tunnel/src/common.rs: a `SnowyStream`, its state and what it uses: the socket, the Noise transport
-- of the crate snow, and the parser of TLS records of the crate rustls, which are parameters.
pub mod Write
pub mod Read
pub mod Records
pub mod Drain
pub mod Commit
pub mod Inbound
pub mod Ready
pub mod Deliver
pub mod Progress
pub mod Wire
pub mod Leftover
mod Loopback
mod Tests
use noisy_shuttle.Base.{
  ℕ, ◌+◌, ◌≤◌, ◌<◌, ◌≡◌, Bool, true, false, List, [], ◌∷◌, ◌++◌, Option, none, some, length, take,
  drop, u16_to_be,
}
use noisy_shuttle.Results.{Result, ok, err}
use noisy_shuttle.Io.{IoError}

abbrev pub tls_record_header_length : ℕ
tls_record_header_length = 5

abbrev pub maximum_ciphertext_length : ℕ
maximum_ciphertext_length = 16384

abbrev pub aead_tag_length : ℕ
aead_tag_length = 16

-- MAXIMUM_CIPHERTEXT_LENGTH - AEAD_TAG_LENGTH
abbrev pub maximum_plaintext_length : ℕ
maximum_plaintext_length = 16368

pub data Poll (A : Type 0) : Type 0 where
  ready : A → Poll A
  pending : Poll A

-- The socket: a read has room for a number of bytes, and no bytes are the end of the stream.
pub record Socket : Type 1 where
  pub Sock : Type 0
  pub poll_read : ℕ → Sock → Poll (Result IoError (List ℕ)) × Sock
  pub poll_write : List ℕ → Sock → Poll (Result IoError ℕ) × Sock
  pub poll_flush : Sock → Poll (Result IoError (Unit {0})) × Sock
  pub poll_shutdown : Sock → Poll (Result IoError (Unit {0})) × Sock

-- `sent` is what the socket took, `arriving` what the peer has sent and is not yet read.
pub record SocketLaws (k : Socket) : Type 1 where
  pub sent : k.Sock → List ℕ
  pub arriving : k.Sock → List ℕ
  pub write_taken :
      (bytes : List ℕ) (s : k.Sock) (n : ℕ)
      → (k.poll_write bytes s).0 ≡ ready (ok n)
      → (n ≤ length bytes) × (sent (k.poll_write bytes s).1 ≡ sent s ++ take n bytes)
  pub write_failed :
      (bytes : List ℕ) (s : k.Sock) (e : IoError)
      → (k.poll_write bytes s).0 ≡ ready (err e)
      → sent (k.poll_write bytes s).1 ≡ sent s
  pub write_pending :
      (bytes : List ℕ) (s : k.Sock)
      → (k.poll_write bytes s).0 ≡ pending
      → sent (k.poll_write bytes s).1 ≡ sent s
  pub read_taken :
      (room : ℕ) (s : k.Sock) (bytes : List ℕ)
      → (k.poll_read room s).0 ≡ ready (ok bytes)
      → (length bytes ≤ room) × (arriving s ≡ bytes ++ arriving (k.poll_read room s).1)
  pub read_failed :
      (room : ℕ) (s : k.Sock) (e : IoError)
      → (k.poll_read room s).0 ≡ ready (err e)
      → arriving (k.poll_read room s).1 ≡ arriving s
  pub read_pending :
      (room : ℕ) (s : k.Sock)
      → (k.poll_read room s).0 ≡ pending
      → arriving (k.poll_read room s).1 ≡ arriving s

-- snow::TransportState. A failed read leaves its output buffer with some bytes.
pub record Noise : Type 1 where
  pub State : Type 0
  pub write_message : List ℕ → State → Option (List ℕ × State)
  pub read_message : List ℕ → State → Option (List ℕ) × State
  pub leftover : List ℕ → State → List ℕ

-- `Paired w r`: what `w` seals next, `r` opens next.
pub record NoiseLaws (n : Noise) : Type 1 where
  pub Paired : n.State → n.State → Type 0
  pub length_sealed :
      (plain c : List ℕ) (w w' : n.State)
      → n.write_message plain w ≡ some (c, w')
      → length c ≡ length plain + aead_tag_length
  pub opened :
      (plain c : List ℕ) (w w' r : n.State)
      → Paired w r
      → n.write_message plain w ≡ some (c, w')
      → ((n.read_message c r).0 ≡ some plain) × Paired w' (n.read_message c r).1

-- rustls: OpaqueMessage::read. The payload of a record and the number of bytes read.
pub data MessageError : Type 0 where
  too_short : MessageError
  invalid_message : MessageError

pub record RecordParser : Type 0 where
  pub parse : List ℕ → Result MessageError (List ℕ × ℕ)

-- An application data record is parsed from its last byte on, and is too short before.
abbrev pub tls_record : List ℕ → List ℕ
tls_record payload = 0x17 ∷ 0x03 ∷ 0x03 ∷ (u16_to_be (length payload) ++ payload)

pub record ParserLaws (p : RecordParser) : Type 0 where
  pub parse_whole :
      (payload rest : List ℕ)
      → length payload ≤ maximum_ciphertext_length
      → p.parse (tls_record payload ++ rest) ≡ ok (payload, length (tls_record payload))
  pub parse_part :
      (payload : List ℕ) (n : ℕ)
      → length payload ≤ maximum_ciphertext_length
      → n < length (tls_record payload)
      → p.parse (take n (tls_record payload)) ≡ err too_short

pub data SnowyState : Type 0 where
  stream read_shutdown write_shutdown fully_shutdown : SnowyState

unfoldable pub shutdown_read : SnowyState → SnowyState
shutdown_read write_shutdown = fully_shutdown
shutdown_read fully_shutdown = fully_shutdown
shutdown_read _ = read_shutdown

unfoldable pub shutdown_write : SnowyState → SnowyState
shutdown_write read_shutdown = fully_shutdown
shutdown_write fully_shutdown = fully_shutdown
shutdown_write _ = write_shutdown

unfoldable pub writeable : SnowyState → Bool
writeable write_shutdown = false
writeable fully_shutdown = false
writeable _ = true

unfoldable pub readable : SnowyState → Bool
readable read_shutdown = false
readable fully_shutdown = false
readable _ = true

-- `pending_read` is the filled part of the buffer of `capacity` bytes that the socket is read into.
pub record SnowyStream (K N : Type 0) : Type 0 where
  pub socket : K
  pub noise : N
  pub state : SnowyState
  pub capacity : ℕ
  pub pending_read : List ℕ
  pub read_buffer : List ℕ
  pub read_offset : ℕ
  pub write_buffer : List ℕ
  pub write_offset : ℕ

-- OpaqueMessage::MAX_WIRE_SIZE is `wire_size`.
unfoldable pub new_stream : {K N : Type 0} → (wire_size : ℕ) → K → N → SnowyStream K N
new_stream wire_size socket noise = record {
  socket = socket;
  noise = noise;
  state = stream;
  capacity = wire_size;
  pending_read = [];
  read_buffer = [];
  read_offset = 0;
  write_buffer = [];
  write_offset = 0;
}

unfoldable pub buffered_plaintext : {K N : Type 0} → SnowyStream K N → List ℕ
buffered_plaintext s = drop s.read_offset s.read_buffer

-- A poll and the stream after it; a panic; or fuel that has run out.
pub data Polled (S A : Type 0) : Type 0 where
  returned : Poll (Result IoError A) → S → Polled S A
  panicked unfinished : Polled S A
