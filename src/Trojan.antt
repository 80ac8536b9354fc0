-- ===== src/Trojan.antt =====
-- shuttle/src/trojan.rs: requests and UDP packets. An address is read and written by the crate
-- socks5_protocol, which is a parameter. `send_to` writes the parts one after another; a failed write
-- ends it.
pub mod Encode
pub mod RoundTrip
mod Tests
use noisy_shuttle.Base.{
  ℕ, ◌+◌, ◌-◌, ◌*◌, ◌%◌, ◌==◌, ltb, leb, ◌≡◌, Bool, true, false, List, [], ◌∷◌, ◌++◌, Option, none,
  some, if◌then◌else◌, length, take, drop, get_or, u16_to_be, u16_from_be,
}
use noisy_shuttle.Results.{Result, ok, err}
use noisy_shuttle.Io.{IoError, unexpected_eof, invalid_data, other_error, Duplex, DuplexLaws}

abbrev pub cr : ℕ
cr = 0x0d

abbrev pub lf : ℕ
lf = 0x0a

abbrev pub crlf : ℕ
crlf = cr * 256 + lf

pub data Cmd : Type 0 where
  connect udp_associate : Cmd

unfoldable pub to_u8 : Cmd → ℕ
to_u8 connect = 0x01
to_u8 udp_associate = 0x03

unfoldable pub from_u8 : ℕ → Option Cmd
from_u8 t = if t == 0x01 then some connect else if t == 0x03 then some udp_associate else none

-- `serialized` are the bytes that an address is written as, `read` reads one from a stream.
pub record AddressCodec (d : Duplex) : Type 1 where
  pub Address : Type 0
  pub serialized_len : Address → ℕ
  pub serialized : Address → List ℕ
  pub read : d.Stream → Result IoError Address × d.Stream

-- `IsWritable` says which addresses have a serialized form.
pub record AddressLaws (d : Duplex) (laws : DuplexLaws d) (codec : AddressCodec d) : Type 1 where
  pub IsWritable : codec.Address → Type 0
  pub length_serialized :
      (a : codec.Address) → IsWritable a → length (codec.serialized a) ≡ codec.serialized_len a
  pub read_serialized :
      (s : d.Stream) (a : codec.Address) (rest : List ℕ)
      → IsWritable a
      → laws.incoming s ≡ codec.serialized a ++ rest
      → ((codec.read s).0 ≡ ok a) × (laws.incoming (codec.read s).1 ≡ rest)

pub record TrojanLikeRequest (Address : Type 0) : Type 0 where
  pub cmd : Cmd
  pub dest_addr : Address

-- `buf[at..].copy_from_slice(bytes)`; `none` is the panic of an index out of range.
unfoldable pub write_at : ℕ → List ℕ → List ℕ → Option (List ℕ)
write_at at bytes buf =
    if leb (at + length bytes) (length buf)
    then some (take at buf ++ (bytes ++ drop (at + length bytes) buf))
    else none

-- What follows a fallible call that changes the stream.
abbrev pub then_read :
    {E A B S : Type 0} → Result E A × S → (A → S → Result E B × S) → Result E B × S
then_read (ok a, s) f = f a s
then_read (err e, s) f = (err e, s)

abbrev pub then_write : Option (List ℕ) → (List ℕ → Option (List ℕ)) → Option (List ℕ)
then_write none f = none
then_write (some buf) f = f buf

module _ (d : Duplex) (codec : AddressCodec d) where
  open d use {Stream, read_exact, write_all}
  open codec use {Address, serialized_len, serialized, read}

  -- TrojanLikeRequest::encode: the buffer afterwards.
  unfoldable pub encode_request : TrojanLikeRequest Address → List ℕ → Option (List ℕ)
  encode_request r buf =
      let len = 1 + serialized_len r.dest_addr + 2 in
      then_write (write_at 0 (to_u8 r.cmd ∷ []) buf) (λ b1.
        then_write (write_at 1 (serialized r.dest_addr) b1) (λ b2.
          then_write (write_at (len - 2) (cr ∷ []) b2) (λ b3. write_at (len - 1) (lf ∷ []) b3)))

  -- read_u8 and read_u16 of tokio.
  unfoldable pub read_u8 : Stream → Result IoError ℕ × Stream
  read_u8 s = then_read (read_exact 1 s) (λ b s'. (ok (get_or b 0 0), s'))

  unfoldable pub read_u16 : Stream → Result IoError ℕ × Stream
  read_u16 s =
      then_read (read_exact 2 s) (λ b s'. (ok (u16_from_be (get_or b 0 0) (get_or b 1 0)), s'))

  -- From the command on.
  unfoldable pub read_request_after :
      Option Cmd → Stream → Result IoError (TrojanLikeRequest Address) × Stream
  read_request_after none s = (err invalid_data, s)
  read_request_after (some cmd) s = then_read (read s) (λ addr s1.
      then_read (read_u16 s1) (λ word s2. (
        if word == crlf then ok (record { cmd = cmd; dest_addr = addr }) else err other_error,
        s2,
      )))

  unfoldable pub read_trojan_like_request :
      Stream → Result IoError (TrojanLikeRequest Address) × Stream
  read_trojan_like_request s = then_read (read_u8 s) (λ t s'. read_request_after (from_u8 t) s')

  unfoldable pub send_to : List ℕ → Address → Stream → Result IoError (Unit {0}) × Stream
  send_to bytes addr s = then_read (write_all (serialized addr) s) (λ _ s1.
      then_read (write_all (u16_to_be (length bytes % 65536)) s1)
        (λ _ s2. then_read (write_all (cr ∷ lf ∷ []) s2) (λ _ s3. write_all bytes s3)))

  -- `recv_from` with a buffer of `room` bytes: `none` is the failed assertion on the length, and no
  -- packet at all the end of the stream at an address.
  abbrev pub Received : Type 0
  Received = Option (Result IoError (Option (List ℕ × Address)) × Stream)

  unfoldable pub recv_data : (room : ℕ) → Address → ℕ → Stream → Received
  recv_data room addr len s =
      if ltb len room
      then some (then_read (read_exact len s) (λ bytes s'. (ok (some (bytes, addr)), s')))
      else none

  unfoldable pub recv_crlf : (room : ℕ) → Address → ℕ → Result IoError ℕ × Stream → Received
  recv_crlf room addr len (err e, s) = some (err e, s)
  recv_crlf room addr len (ok word, s) =
      if word == crlf then recv_data room addr len s else some (err other_error, s)

  unfoldable pub recv_len : (room : ℕ) → Address → Result IoError ℕ × Stream → Received
  recv_len room addr (err e, s) = some (err e, s)
  recv_len room addr (ok len, s) = recv_crlf room addr len (read_u16 s)

  unfoldable pub recv_addr : (room : ℕ) → Result IoError Address × Stream → Received
  recv_addr room (err unexpected_eof, s) = some (ok none, s)
  recv_addr room (err e, s) = some (err e, s)
  recv_addr room (ok addr, s) = recv_len room addr (read_u16 s)

  unfoldable pub recv_from : (room : ℕ) → Stream → Received
  recv_from room s = recv_addr room (read s)
