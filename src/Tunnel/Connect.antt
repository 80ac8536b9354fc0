-- ===== src/Tunnel/Connect.antt =====
-- tunnel/src/client.rs: `tls12_handshake`, the client's side of a TLS 1.2 handshake; `connect` is in
-- the child Hello. The connection of the crate rustls is a parameter. What only a debug build
-- asserts is left out.
pub mod Hello
pub mod Whole
pub mod Feeds
pub mod Rounds
pub mod Agrees
pub mod Meets
pub mod Welcome
mod Peers
mod Tests
use noisy_shuttle.Base.{
  ℕ, zero, suc, ◌+◌, ◌==◌, ltb, if◌then◌else◌, Bool, true, false, ◌||◌, List, [], ◌∷◌, ◌++◌, Option,
  none, some, take, drop, get_or, length, max,
}
use noisy_shuttle.Results.{Result, ok, err}
use noisy_shuttle.Io.{IoError, invalid_data, Duplex}
use noisy_shuttle.Tunnel.Handshake.{change_cipher_spec, payload_len}

-- rustls: ClientConnection, with the ALPN protocols of its configuration, for one server name.
-- `none` is an error, which most callers unwrap; `read_tls` also says how many bytes it took.
pub record TlsClient (Overwriter : Type 0) : Type 1 where
  pub Connection : Type 0
  pub new_with :
      (alpn_protocols : List (List ℕ))
      → (random session_id : List ℕ) → (chwriter : Option Overwriter) → Option Connection
  pub wants_read : Connection → Bool
  pub wants_write : Connection → Bool
  pub write_tls : Connection → Option (List ℕ × Connection)
  pub read_tls : List ℕ → Connection → Option (ℕ × Connection)
  pub process_new_packets : Connection → Option Connection

-- How `tls12_handshake` ends.
pub data Handshaken (C S : Type 0) : Type 0 where
  finished : Result IoError (Unit {0}) → C → S → Handshaken C S
  broken : Handshaken C S
  spent : Handshaken C S

-- How the inner loop of `tls12_handshake` ends.
pub data Fed (C : Type 0) : Type 0 where
  fed : C → Fed C
  choked : Fed C
  hungry : Fed C

-- Whether the handshake is done after a record, and whether a change of ciphers was seen by then.
unfoldable pub after_processed : (stop_after_server_ccs : Bool) → ℕ → Bool → Option Bool
after_processed stop typ seen =
    if typ == change_cipher_spec
    then (if stop then none else some true)
    else (if seen then none else some false)

module _ (d : Duplex) {O : Type 0} (t : TlsClient O) where
  open d use {Stream, read_exact, write_all}
  open t use {Connection, wants_read, wants_write, write_tls, read_tls, process_new_packets}

  -- `while i < 5 + len`: the bytes that are left are shown again. A round for each is enough.
  unfoldable pub on_fed :
      (List ℕ → Connection → Fed Connection) → List ℕ → Option (ℕ × Connection) → Fed Connection
  on_fed next bytes none = choked
  on_fed next bytes (some (zero, conn)) = choked
  on_fed next bytes (some (suc n, conn)) = next (drop (suc n) bytes) conn

  unfoldable pub feed : ℕ → List ℕ → Connection → Fed Connection
  feed fuel [] conn = fed conn
  feed zero (b ∷ bytes) conn = hungry
  feed (suc fuel) (b ∷ bytes) conn = on_fed (feed fuel) (b ∷ bytes) (read_tls (b ∷ bytes) conn)

  -- What follows the calls of a round; `room` is the length of the buffer, which writing extends.
  unfoldable pub on_processed :
      (Bool → Connection → Stream → Handshaken Connection Stream)
      → Option Bool
      → Connection
      → Stream
      → Handshaken Connection Stream
  on_processed next none conn s = finished (ok tt) conn s
  on_processed next (some seen) conn s = next seen conn s

  unfoldable pub after_process :
      (Bool → Connection → Stream → Handshaken Connection Stream)
      → Option Bool
      → Stream
      → Connection
      → Option Connection
      → Handshaken Connection Stream
  after_process next go_on s old none = finished (err invalid_data) old s
  after_process next go_on s old (some conn) = on_processed next go_on conn s

  unfoldable pub after_feed :
      (Bool → Connection → Stream → Handshaken Connection Stream)
      → Option Bool
      → Stream
      → Fed Connection
      → Handshaken Connection Stream
  after_feed next go_on s choked = broken
  after_feed next go_on s hungry = spent
  after_feed next go_on s (fed conn) = after_process next go_on s conn (process_new_packets conn)

  unfoldable pub after_body :
      (Bool → Connection → Stream → Handshaken Connection Stream)
      → Option Bool
      → (header : List ℕ) → Connection
      → Result IoError (List ℕ) × Stream
      → Handshaken Connection Stream
  after_body next go_on header conn (err e, s) = finished (err e) conn s
  after_body next go_on header conn (ok body, s) =
      after_feed next go_on s (feed (length (header ++ body)) (header ++ body) conn)

  unfoldable pub after_header :
      (Bool → Connection → Stream → Handshaken Connection Stream)
      → (stop : Bool) → (room : ℕ) → Bool
      → Connection
      → Result IoError (List ℕ) × Stream
      → Handshaken Connection Stream
  after_header next stop room seen conn (err e, s) = finished (err e) conn s
  after_header next stop room seen conn (ok header, s) =
      if ltb room (5 + payload_len header)
      then broken
      else after_body next (after_processed stop (get_or header 0 0) seen) header conn
          (read_exact (payload_len header) s)

  unfoldable pub after_sent :
      (Connection → Stream → Handshaken Connection Stream)
      → Connection
      → Result IoError (Unit {0}) × Stream
      → Handshaken Connection Stream
  after_sent next conn (err e, s) = finished (err e) conn s
  after_sent next conn (ok u, s) = next conn s

  unfoldable pub after_write_tls :
      (ℕ → Connection → Stream → Handshaken Connection Stream)
      → (room : ℕ) → Stream
      → Option (List ℕ × Connection)
      → Handshaken Connection Stream
  after_write_tls next room s none = broken
  after_write_tls next room s (some (bytes, conn)) =
      after_sent (next (max room (length bytes))) conn (write_all bytes s)

  -- Writing comes before reading. The fuel is the number of rounds.
  unfoldable pub tls12_handshake :
      ℕ → (stop : Bool) → (room : ℕ) → Bool → Connection → Stream → Handshaken Connection Stream
  tls12_handshake zero stop room seen conn s = spent
  tls12_handshake (suc fuel) stop room seen conn s =
      if wants_write conn
      then after_write_tls (λ more. tls12_handshake fuel stop more seen) room s (write_tls conn)
      else if wants_read conn
      then after_header (tls12_handshake fuel stop room) stop room seen conn (read_exact 5 s)
      else finished (ok tt) conn s
