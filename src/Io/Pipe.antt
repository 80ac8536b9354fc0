-- ===== src/Io/Pipe.antt =====
-- A byte stream in memory: it satisfies the laws of `Duplex`, and runs the definitions on concrete
-- input.
use noisy_shuttle.Base.{
  ℕ, ◌≤◌, ◌<◌, ◌≡◌, refl, List, [], ◌++◌, length, take, drop, leb, if◌then◌else◌, arith,
}
use noisy_shuttle.Results.{ok, err}
use noisy_shuttle.Io.{unexpected_eof, Duplex, DuplexLaws}

pub record Pipe : Type 0 where
  pub incoming : List ℕ
  pub outgoing : List ℕ

abbrev pub pipe : Duplex
pipe = record {
  Stream = Pipe;
  read_exact = λ n s.
      if leb n (length s.incoming)
      then (ok (take n s.incoming), record s { incoming = drop n s.incoming })
      else (err unexpected_eof, record s { incoming = [] });
  write_all = λ bytes s. (ok tt, record s { outgoing = s.outgoing ++ bytes });
}

pub read_enough :
    (n : ℕ) (s : Pipe)
    → n ≤ length s.incoming
    → ((pipe.read_exact n s).0 ≡ ok (take n s.incoming))
      × ((pipe.read_exact n s).1.incoming ≡ drop n s.incoming)
read_enough n s h = ground arith

pub read_short :
    (n : ℕ) (s : Pipe) → length s.incoming < n → (pipe.read_exact n s).0 ≡ err unexpected_eof
read_short n s h = ground arith

pub read_outgoing : (n : ℕ) (s : Pipe) → (pipe.read_exact n s).1.outgoing ≡ s.outgoing
read_outgoing n s = ground arith

abbrev pub pipe_laws : DuplexLaws pipe
pipe_laws = record {
  incoming = λ s. s.incoming;
  outgoing = λ s. s.outgoing;
  read_enough = read_enough;
  read_short = read_short;
  read_outgoing = read_outgoing;
  write_outgoing = λ bytes s h. refl;
  write_incoming = λ bytes s. refl;
}

abbrev pub from_peer : List ℕ → Pipe
from_peer bytes = record { incoming = bytes; outgoing = [] }
