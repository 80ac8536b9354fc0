-- ===== src/Io.antt =====
-- What the program uses of tokio's byte streams: `read_exact` and `write_all`, as parameters, with
-- their documented behaviour as a record of laws.
pub mod Pipe
use noisy_shuttle.Base.{ℕ, ◌≤◌, ◌<◌, ◌≡◌, List, ◌++◌, length, take, drop}
use noisy_shuttle.Results.{Result, ok, err}

pub data IoError : Type 0 where
  unexpected_eof write_zero invalid_data connection_aborted other_error : IoError

-- A stream that is read and written in whole blocks; a call returns its result and the stream
-- after it.
pub record Duplex : Type 1 where
  pub Stream : Type 0
  pub read_exact : ℕ → Stream → Result IoError (List ℕ) × Stream
  pub write_all : List ℕ → Stream → Result IoError (Unit {0}) × Stream

-- `incoming` is what the peer has sent and is not yet read, `outgoing` what was written.
pub record DuplexLaws (d : Duplex) : Type 1 where
  pub incoming : d.Stream → List ℕ
  pub outgoing : d.Stream → List ℕ
  pub read_enough :
      (n : ℕ) (s : d.Stream)
      → n ≤ length (incoming s)
      → ((d.read_exact n s).0 ≡ ok (take n (incoming s)))
        × (incoming (d.read_exact n s).1 ≡ drop n (incoming s))
  pub read_short :
      (n : ℕ) (s : d.Stream) → length (incoming s) < n → (d.read_exact n s).0 ≡ err unexpected_eof
  pub read_outgoing : (n : ℕ) (s : d.Stream) → outgoing (d.read_exact n s).1 ≡ outgoing s
  pub write_outgoing :
      (bytes : List ℕ) (s : d.Stream)
      → (d.write_all bytes s).0 ≡ ok tt
      → outgoing (d.write_all bytes s).1 ≡ outgoing s ++ bytes
  pub write_incoming :
      (bytes : List ℕ) (s : d.Stream) → incoming (d.write_all bytes s).1 ≡ incoming s
