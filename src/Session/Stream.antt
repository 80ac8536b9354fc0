-- ===== src/Session/Stream.antt =====
-- shuttle/src/session/frame.rs: `read_frame` and `write_frame` over a byte stream.
pub mod RoundTrip
mod Tests
use noisy_shuttle.Base.{
  ℕ, ◌+◌, List, [], ◌∷◌, ◌++◌, Option, none, some, get_or, u16_from_be, length, get_or,
}
use noisy_shuttle.Results.{Result, ok, err, map_err}
use noisy_shuttle.Io.{IoError, Duplex}
use noisy_shuttle.Session.Frame.{Frame, FrameError, io, encode, decode}

module _ (d : Duplex) where
  open d use {Stream, read_exact, write_all}

  -- The second `read_exact`, and the decoding of header and payload together.
  read_payload : List ℕ → Result IoError (List ℕ) × Stream → Result FrameError Frame × Stream
  read_payload header (ok payload, s) = (decode (header ++ payload), s)
  read_payload header (err e, s) = (err (io e), s)

  read_after_header : Result IoError (List ℕ) × Stream → Result FrameError Frame × Stream
  unfolding read_payload
  read_after_header (ok header, s) =
      read_payload header (read_exact (u16_from_be (get_or header 1 0) (get_or header 2 0)) s)
  read_after_header (err e, s) = (err (io e), s)

  unfoldable pub read_frame : Stream → Result FrameError Frame × Stream
  unfolding read_after_header
  read_frame s = read_after_header (read_exact 3 s)

  -- The call of `write_all` on an encoded frame; `none` is the panic of `encode`.
  write_encoded : Option (List ℕ) → Stream → Option (Result FrameError (Unit {0}) × Stream)
  write_encoded none s = none
  write_encoded (some buf) s = let (r, s') = write_all buf s in some (map_err io r, s')

  unfoldable pub write_frame : Frame → Stream → Option (Result FrameError (Unit {0}) × Stream)
  unfolding write_encoded
  write_frame f s = write_encoded (encode f []) s
