-- ===== src/Session/Frame.antt =====
-- shuttle/src/session/frame.rs: frames, their encoding and their decoding.
pub mod RoundTrip
pub mod Canonical
mod Tests
use Prim.Native.String.{String}
use noisy_shuttle.Base.{
  ℕ, ◌+◌, ◌-◌, Bool, List, [], ◌∷◌, ◌++◌, Option, none, some, ltb, ◌==◌, leb, if◌then◌else◌, length,
  get_or, take, drop, All, u16_to_be, u16_from_be, u32_to_be, u32_from_be, IsU8, IsU16, IsU32,
}
use noisy_shuttle.Results.{Result, ok, err, ◌>>◌}
use noisy_shuttle.Io.{IoError}

-- The type byte of each frame.
abbrev pub frame_client_hello : ℕ
frame_client_hello = 0x01

abbrev pub frame_open_request : ℕ
frame_open_request = 0x02

abbrev pub frame_data : ℕ
frame_data = 0x03

abbrev pub frame_end_request : ℕ
frame_end_request = 0x04

abbrev pub frame_reset : ℕ
frame_reset = 0x05

abbrev pub frame_ping : ℕ
frame_ping = 0x06

abbrev pub frame_pong : ℕ
frame_pong = 0x07

abbrev pub frame_close : ℕ
frame_close = 0x08

abbrev pub max_frame_payload : ℕ
max_frame_payload = 65535

abbrev pub protocol_version : ℕ
protocol_version = 1

-- What the text of `InvalidPayload` says: the frame's name, the length wanted and the length found,
-- or that an open request is too short.
pub data PayloadFault : Type 0 where
  wrong_len : String → ℕ → ℕ → PayloadFault
  open_request_too_short : PayloadFault

pub data FrameError : Type 0 where
  unknown_frame_type : ℕ → FrameError
  oversized_payload : ℕ → FrameError
  unexpected_eof : FrameError
  invalid_payload : PayloadFault → FrameError
  io : IoError → FrameError

pub data Frame : Type 0 where
  client_hello : (version capabilities : ℕ) → Frame
  open_request : (cmd atyp : ℕ) → (addr : List ℕ) → (port : ℕ) → Frame
  data_frame : List ℕ → Frame
  end_request : (reason : ℕ) → Frame
  reset : (reason : ℕ) → Frame
  ping : (token : ℕ) → Frame
  pong : (token : ℕ) → Frame
  close : (reason : ℕ) → Frame

-- The ranges of the integer types of the fields.
abbrev pub IsFrame : Frame → Type 0
IsFrame (client_hello version capabilities) = IsU8 version × IsU16 capabilities
IsFrame (open_request cmd atyp addr port) = IsU8 cmd × IsU8 atyp × All IsU8 addr × IsU16 port
IsFrame (data_frame bytes) = All IsU8 bytes
IsFrame (end_request reason) = IsU8 reason
IsFrame (reset reason) = IsU8 reason
IsFrame (ping token) = IsU32 token
IsFrame (pong token) = IsU32 token
IsFrame (close reason) = IsU8 reason

-- The type byte and the payload of a frame.
unfoldable pub payload : Frame → ℕ × List ℕ
payload (client_hello version capabilities) = (frame_client_hello, version ∷ u16_to_be capabilities)
payload (open_request cmd atyp addr port) =
    (frame_open_request, cmd ∷ atyp ∷ (addr ++ u16_to_be port))
payload (data_frame bytes) = (frame_data, bytes)
payload (end_request reason) = (frame_end_request, reason ∷ [])
payload (reset reason) = (frame_reset, reason ∷ [])
payload (ping token) = (frame_ping, u32_to_be token)
payload (pong token) = (frame_pong, u32_to_be token)
payload (close reason) = (frame_close, reason ∷ [])

-- Header and payload appended to the buffer; `none` is the panic on an oversized payload.
unfoldable pub encode : Frame → List ℕ → Option (List ℕ)
unfolding payload
encode f buf =
    let (frame_type, bytes) = payload f in
    if leb (length bytes) max_frame_payload
    then some (buf ++ (frame_type ∷ (u16_to_be (length bytes) ++ bytes)))
    else none

unfoldable pub require_len : List ℕ → ℕ → String → Result FrameError (Unit {0})
require_len bytes expected frame_name =
    if length bytes == expected
    then ok tt
    else err (invalid_payload (wrong_len frame_name expected (length bytes)))

-- The arm of `FRAME_OPEN_REQUEST`.
unfoldable pub decode_open_request : List ℕ → Result FrameError Frame
decode_open_request bytes =
    let n = length bytes in
    if ltb n 4
    then err (invalid_payload open_request_too_short)
    else ok (
        open_request (get_or bytes 0 0) (get_or bytes 1 0) (take (n - 4) (drop 2 bytes))
          (u16_from_be (get_or bytes (n - 2) 0) (get_or bytes (n - 1) 0)))

-- The token of a ping or pong payload.
abbrev pub token_of : List ℕ → ℕ
token_of b = u32_from_be (get_or b 0 0) (get_or b 1 0) (get_or b 2 0) (get_or b 3 0)

-- The `match` on the type byte; the last branch is `other`.
unfoldable pub decode_payload : ℕ → List ℕ → Result FrameError Frame
unfolding require_len
decode_payload frame_type bytes =
    if frame_type == frame_client_hello
    then (do
      require_len bytes 3 "client hello"
      ok (client_hello (get_or bytes 0 0) (u16_from_be (get_or bytes 1 0) (get_or bytes 2 0))))
    else if frame_type == frame_open_request
    then decode_open_request bytes
    else if frame_type == frame_data
    then ok (data_frame bytes)
    else if frame_type == frame_end_request
    then (do require_len bytes 1 "end request"; ok (end_request (get_or bytes 0 0)))
    else if frame_type == frame_reset
    then (do require_len bytes 1 "reset"; ok (reset (get_or bytes 0 0)))
    else if frame_type == frame_ping
    then (do require_len bytes 4 "ping"; ok (ping (token_of bytes)))
    else if frame_type == frame_pong
    then (do require_len bytes 4 "pong"; ok (pong (token_of bytes)))
    else if frame_type == frame_close
    then (do require_len bytes 1 "close"; ok (close (get_or bytes 0 0)))
    else err (unknown_frame_type frame_type)

unfoldable pub decode : List ℕ → Result FrameError Frame
unfolding decode_payload
decode bytes =
    if ltb (length bytes) 3
    then err unexpected_eof
    else let frame_type = get_or bytes 0 0 in
      let payload_len = u16_from_be (get_or bytes 1 0) (get_or bytes 2 0) in
      if ltb (length bytes) (3 + payload_len)
      then err unexpected_eof
      else decode_payload frame_type (take payload_len (drop 3 bytes))
