-- ===== src/Tunnel/Snowy/Write.antt =====
-- tunnel/src/common.rs: `poll_write`, `poll_flush` and `poll_shutdown` of a `SnowyStream`. The fuel
-- of each loop is the number of its rounds.
use noisy_shuttle.Base.{
  ℕ, zero, suc, ◌+◌, ◌-◌, ◌==◌, ltb, min, List, [], Option, none, some, length, take, drop,
  if◌then◌else◌,
}
use noisy_shuttle.Results.{Result, ok, err}
use noisy_shuttle.Io.{IoError, write_zero}
use noisy_shuttle.Tunnel.Snowy.{
  Poll, ready, pending, Socket, Noise, SnowyStream, writeable, shutdown_write, Polled, returned,
  panicked, unfinished, tls_record, maximum_plaintext_length,
}

-- How the loop over `write_buffer` ends.
pub data Drained (S : Type 0) : Type 0 where
  flushed stuck : S → Drained S
  failed : IoError → S → Drained S
  out_of_fuel : Drained S

module _ (k : Socket) (n : Noise) where
  open k use {Sock, poll_flush, poll_shutdown}
  open n use {State, write_message}

  abbrev pub Stream : Type 0
  Stream = SnowyStream Sock State

  -- The bytes of `write_buffer` that the socket has not taken.
  abbrev pub unsent : Stream → List ℕ
  unsent s = drop s.write_offset s.write_buffer

  -- One arm of the `match` on the socket's answer; `next` is the next round.
  unfoldable pub on_written :
      Stream → (Stream → Drained Stream) → Poll (Result IoError ℕ) × Sock → Drained Stream
  on_written s next (ready (ok written), socket) =
      let s' = record s { socket = socket; write_offset = s.write_offset + written } in
      if written == 0
      then failed write_zero (record s' { state = shutdown_write s.state })
      else next s'
  on_written s next (ready (err e), socket) = failed e (record s { socket = socket })
  on_written s next (pending, socket) = stuck (record s { socket = socket })

  -- The inner loop of `poll_write`.
  unfoldable pub drain : ℕ → Stream → Drained Stream
  drain zero s = out_of_fuel
  drain (suc fuel) s =
      let round = on_written s (drain fuel) (k.poll_write (unsent s) s.socket) in
      if ltb s.write_offset (length s.write_buffer) then round else flushed s

  unfoldable pub clear_written : Stream → Stream
  clear_written s = record s { write_offset = 0; write_buffer = [] }

  -- The part of the buffer that the next record takes.
  abbrev pub chunk_len : List ℕ → ℕ → ℕ
  chunk_len buf offset = min (length buf - offset) maximum_plaintext_length

  abbrev pub next_chunk : List ℕ → ℕ → List ℕ
  next_chunk buf offset = take (chunk_len buf offset) (drop offset buf)

  -- What `write_message` made becomes a record in the buffer.
  unfoldable pub in_record : Stream → Option (List ℕ × State) → Option Stream
  in_record s none = none
  in_record s (some (c, noise)) = some (record s { noise = noise; write_buffer = tls_record c })

  -- An error of `write_message` is a panic.
  unfoldable pub encode_record : (Stream → Polled Stream ℕ) → Option Stream → Polled Stream ℕ
  encode_record next none = panicked
  encode_record next (some s) = next s

  -- What follows the inner loop; `next` is the next round of the outer one.
  unfoldable pub after_drain :
      List ℕ → ℕ → (ℕ → Stream → Polled Stream ℕ) → Drained Stream → Polled Stream ℕ
  after_drain buf offset next (failed e s) = returned (ready (err e)) s
  after_drain buf offset next (stuck s) =
      if offset == 0 then returned pending s else returned (ready (ok offset)) s
  after_drain buf offset next out_of_fuel = unfinished
  after_drain buf offset next (flushed s) =
      let s' = clear_written s in
      if offset == length buf
      then returned (ready (ok offset)) s'
      else encode_record (next (offset + chunk_len buf offset))
          (in_record s' (write_message (next_chunk buf offset) s'.noise))

  -- The outer loop.
  unfoldable pub write_loop : (inner fuel : ℕ) → List ℕ → ℕ → Stream → Polled Stream ℕ
  write_loop inner zero buf offset s = unfinished
  write_loop inner (suc fuel) buf offset s =
      after_drain buf offset (write_loop inner fuel buf) (drain inner s)

  unfoldable pub poll_write : (inner fuel : ℕ) → List ℕ → Stream → Polled Stream ℕ
  poll_write inner fuel buf s =
      if writeable s.state then write_loop inner fuel buf 0 s else returned (ready (ok 0)) s

  -- One arm of the `match` of `poll_flush`, which goes on after a write of no bytes.
  unfoldable pub on_flushed :
      Stream
      → (Stream → Polled Stream (Unit {0}))
      → Poll (Result IoError ℕ) × Sock
      → Polled Stream (Unit {0})
  on_flushed s next (ready (ok written), socket) =
      next (record s { socket = socket; write_offset = s.write_offset + written })
  on_flushed s next (ready (err e), socket) =
      returned (ready (err e)) (record s { socket = socket })
  on_flushed s next (pending, socket) = returned pending (record s { socket = socket })

  unfoldable pub flush_socket : Stream → Polled Stream (Unit {0})
  flush_socket s =
      let (r, socket) = poll_flush s.socket in returned r (record s { socket = socket })

  unfoldable pub poll_flush_stream : ℕ → Stream → Polled Stream (Unit {0})
  poll_flush_stream zero s = unfinished
  poll_flush_stream (suc fuel) s =
      let round = on_flushed s (poll_flush_stream fuel) (k.poll_write (unsent s) s.socket) in
      if ltb s.write_offset (length s.write_buffer) then round else flush_socket (clear_written s)

  unfoldable pub after_flush : Polled Stream (Unit {0}) → Polled Stream (Unit {0})
  after_flush (returned (ready (ok u)) s) =
      let (r, socket) = poll_shutdown s.socket in returned r (record s { socket = socket })
  after_flush r = r

  unfoldable pub poll_shutdown_stream : ℕ → Stream → Polled Stream (Unit {0})
  poll_shutdown_stream fuel s = after_flush (
      poll_flush_stream fuel
        (if writeable s.state then record s { state = shutdown_write s.state } else s))
