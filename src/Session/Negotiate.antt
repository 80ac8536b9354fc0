-- ===== src/Session/Negotiate.antt =====
-- shuttle/src/session/negotiate.rs: capability negotiation. Whether the answer comes within
-- `NEGOTIATION_TIMEOUT` is an argument, since the timer is tokio's.
pub mod Agreement
pub mod Fallback
mod Tests
use noisy_shuttle.Base.{
  ℕ, ◌+◌, ◌≡◌, Bool, true, false, not, Option, none, some, bit_and, leb, ◌==◌, if◌then◌else◌,
}
use noisy_shuttle.Results.{Result, ok, err, map_err}
use noisy_shuttle.Io.{IoError, Duplex}
use noisy_shuttle.Actions.{Action, ◌>>=◌, ◌>>◌, done, convert}
use noisy_shuttle.Session.Frame.{
  Frame, FrameError, client_hello, open_request, data_frame, end_request, reset, ping, pong, close,
  unknown_frame_type, oversized_payload, unexpected_eof, invalid_payload, protocol_version,
}
use noisy_shuttle.Session.Stream.{read_frame, write_frame}
use noisy_shuttle.Session.Lifecycle.Reason.{CloseReason, discriminant}

abbrev pub cap_reuse : ℕ
cap_reuse = 0x0001

abbrev pub cap_keepalive : ℕ
cap_keepalive = 0x0002

-- The `Capabilities` of the source: a u16.
pub record Capabilities : Type 0 where
  pub bits : ℕ

unfoldable pub reuse : Capabilities → Bool
reuse c = not (bit_and c.bits cap_reuse == 0)

unfoldable pub keepalive : Capabilities → Bool
keepalive c = not (bit_and c.bits cap_keepalive == 0)

unfoldable pub intersect : Capabilities → Capabilities → Capabilities
intersect a b = record { bits = bit_and a.bits b.bits }

pub record NegotiatedCapabilities : Type 0 where
  pub reuse : Bool
  pub keepalive : Bool
  pub server_version : ℕ

unfoldable pub from_intersect : Capabilities → Capabilities → ℕ → NegotiatedCapabilities
unfolding intersect reuse keepalive
from_intersect client_caps server_caps version =
    let shared = intersect client_caps server_caps in
    record { reuse = reuse shared; keepalive = keepalive shared; server_version = version }

-- `InvalidData` carries the frame error that it was made of.
pub data Cause : Type 0 where
  raw : IoError → Cause
  bad_frame : FrameError → Cause

pub data NegotiationError : Type 0 where
  server_rejected : (reason : ℕ) → NegotiationError
  version_mismatch : (client server : ℕ) → NegotiationError
  no_response unexpected_frame : NegotiationError
  io : Cause → NegotiationError

-- From<FrameError> for NegotiationError
unfoldable pub from_frame_error : FrameError → NegotiationError
from_frame_error (FrameError.io e) = io (raw e)
from_frame_error unexpected_eof = no_response
from_frame_error (unknown_frame_type t) = io (bad_frame (unknown_frame_type t))
from_frame_error (oversized_payload n) = io (bad_frame (oversized_payload n))
from_frame_error (invalid_payload p) = io (bad_frame (invalid_payload p))

unfoldable pub client_accepts_server_version : ℕ → Bool
client_accepts_server_version server_version = leb protocol_version server_version

unfoldable pub server_accepts_client_version : ℕ → Bool
server_accepts_client_version client_version = leb client_version protocol_version

-- The client's `match` on the answer.
unfoldable pub on_answer : Capabilities → Frame → Result NegotiationError NegotiatedCapabilities
unfolding client_accepts_server_version from_intersect
on_answer client_caps (client_hello version capabilities) =
    if not (client_accepts_server_version version)
    then err (version_mismatch protocol_version version)
    else ok (from_intersect client_caps (record { bits = capabilities }) version)
on_answer client_caps (close reason) = err (server_rejected reason)
on_answer client_caps _ = err no_response

module _ (d : Duplex) where
  open d use {Stream}

  unfoldable pub read_with_timeout : Bool → Action Stream NegotiationError Frame
  unfolding from_frame_error
  read_with_timeout true s = convert from_frame_error (some (read_frame d s))
  read_with_timeout false s = some (err no_response, s)

  send : Frame → Action Stream NegotiationError (Unit {0})
  unfolding from_frame_error
  send f s = convert from_frame_error (write_frame d f s)

  unfoldable pub negotiate_client :
      Capabilities → Bool → Action Stream NegotiationError NegotiatedCapabilities
  unfolding read_with_timeout send on_answer
  negotiate_client client_caps in_time = do
    send (client_hello protocol_version client_caps.bits)
    frame ← read_with_timeout in_time
    done (on_answer client_caps frame)

  -- The server's `match` on the first frame.
  unfoldable pub on_hello :
      Capabilities → Frame → Action Stream NegotiationError NegotiatedCapabilities
  unfolding send server_accepts_client_version from_intersect discriminant
  on_hello server_caps (client_hello version capabilities) =
      if not (server_accepts_client_version version)
      then (do
        send (close (discriminant CloseReason.version_mismatch))
        done (err (version_mismatch version protocol_version)))
      else (do
        send (client_hello protocol_version server_caps.bits)
        done (ok (from_intersect (record { bits = capabilities }) server_caps protocol_version)))
  on_hello server_caps _ = done (err unexpected_frame)

  unfoldable pub negotiate_server :
      Capabilities → Bool → Action Stream NegotiationError NegotiatedCapabilities
  unfolding read_with_timeout on_hello
  negotiate_server server_caps in_time = do
    frame ← read_with_timeout in_time
    on_hello server_caps frame
