-- ===== src/Tunnel/Snowy/Read.antt =====
-- tunnel/src/common.rs: `poll_read` of a `SnowyStream`. The fuel of each loop is the number of its
-- rounds; `out` is what the poll has put into the caller's buffer of `size` bytes, so that the
-- source's `has_read` says that it is not empty.
use noisy_shuttle.Base.{
  ℕ, zero, suc, ◌+◌, ◌-◌, ltb, min, Bool, true, false, List, [], ◌∷◌, ◌++◌, Option, none, some,
  length, take, drop, if◌then◌else◌, ◌==◌,
}
use noisy_shuttle.Results.{Result, ok, err}
use noisy_shuttle.Io.{IoError, unexpected_eof, invalid_data, connection_aborted}
use noisy_shuttle.Tunnel.Snowy.{
  Poll, ready, pending, Socket, Noise, readable, shutdown_read, Polled, returned, unfinished,
  MessageError, too_short, invalid_message, RecordParser,
}
use noisy_shuttle.Tunnel.Snowy.Write.{Stream}

-- How the loop 'read_ready ends: the caller's buffer is full, there is no further record, or an error.
pub data Taken (S : Type 0) : Type 0 where
  full drained : List ℕ → S → Taken S
  broken : IoError → List ℕ → S → Taken S
  out_of_rounds : Taken S

-- The kinds of error after which nothing more is read.
unfoldable pub ends_reading : IoError → Bool
ends_reading connection_aborted = true
ends_reading unexpected_eof = true
ends_reading _ = false

module _ (k : Socket) (n : Noise) (p : RecordParser) where
  open k use {Sock}
  open n use {State, read_message, leftover}
  open p use {parse}

  -- How many decrypted bytes the caller's buffer takes.
  abbrev pub put_len : ℕ → List ℕ → Stream k n → ℕ
  put_len size out s = min (length s.read_buffer - s.read_offset) (size - length out)

  unfoldable pub clear_read : Stream k n → Stream k n
  clear_read s =
      if ltb s.read_offset (length s.read_buffer)
      then s
      else record s { read_offset = 0; read_buffer = [] }

  -- Decrypted bytes that are left go to the caller first.
  unfoldable pub put_ready : ℕ → List ℕ → Stream k n → List ℕ × Stream k n
  put_ready size out s =
      let len = put_len size out s in
      if ltb s.read_offset (length s.read_buffer)
      then (
        out ++ take len (drop s.read_offset s.read_buffer),
        clear_read (record s { read_offset = s.read_offset + len }),
      )
      else (out, s)

  -- A record's payload is decrypted; after an error `read_buffer` is left at its full length.
  unfoldable pub on_opened :
      List ℕ
      → List ℕ
      → Stream k n
      → (Stream k n → Taken (Stream k n))
      → Option (List ℕ) × State
      → Taken (Stream k n)
  on_opened payload out s next (some plain, noise) =
      next (record s { noise = noise; read_buffer = plain })
  on_opened payload out s next (none, noise) =
      broken invalid_data out (record s { noise = noise; read_buffer = leftover payload s.noise })

  -- One arm of the `match` on the parser's answer; `next` is the next round.
  unfoldable pub on_parsed :
      List ℕ
      → Stream k n
      → (Stream k n → Taken (Stream k n))
      → Result MessageError (List ℕ × ℕ)
      → Taken (Stream k n)
  on_parsed out s next (ok (payload, used)) =
      let s' = record s { pending_read = drop used s.pending_read } in
      let opened = on_opened payload out s' next (read_message payload s.noise) in
      if length payload == 0 then next s' else opened
  on_parsed out s next (err too_short) = drained out s
  on_parsed out s next (err invalid_message) =
      broken invalid_data out (record s { state = shutdown_read s.state })

  -- What follows the bytes that were left.
  unfoldable pub after_put :
      (List ℕ → Stream k n → Taken (Stream k n)) → List ℕ × Stream k n → Taken (Stream k n)
  after_put next (out, s) =
      let parsed = on_parsed out s (next out) (parse s.pending_read) in
      if ltb s.read_offset (length s.read_buffer) then full out s else parsed

  -- The loop 'read_ready.
  unfoldable pub read_ready : ℕ → ℕ → List ℕ → Stream k n → Taken (Stream k n)
  read_ready zero size out s = out_of_rounds
  read_ready (suc rounds) size out s = after_put (read_ready rounds size) (put_ready size out s)

  -- One arm of the `match` on the socket's answer.
  unfoldable pub on_read :
      Stream k n
      → (Stream k n → Polled (List ℕ × Stream k n) (Unit {0}))
      → Poll (Result IoError (List ℕ)) × Sock
      → Polled (List ℕ × Stream k n) (Unit {0})
  on_read s next (ready (ok []), socket) =
      let s' = record s { socket = socket } in
      if ltb 0 (length s.pending_read)
      then returned (ready (err unexpected_eof)) ([], s')
      else returned (ready (ok tt)) ([], s')
  on_read s next (ready (ok (b ∷ bs)), socket) =
      next (record s { socket = socket; pending_read = s.pending_read ++ (b ∷ bs) })
  on_read s next (ready (err e), socket) = returned (ready (err e)) (
    [],
    record s { socket = socket; state = if ends_reading e then shutdown_read s.state else s.state },
  )
  on_read s next (pending, socket) = returned pending ([], record s { socket = socket })

  -- What follows the loop 'read_ready; `next` is the next round of 'read_more.
  unfoldable pub after_ready :
      (Stream k n → Polled (List ℕ × Stream k n) (Unit {0}))
      → Taken (Stream k n)
      → Polled (List ℕ × Stream k n) (Unit {0})
  after_ready next (full out s) = returned (ready (ok tt)) (out, s)
  after_ready next (broken e out s) = returned (ready (err e)) (out, s)
  after_ready next out_of_rounds = unfinished
  after_ready next (drained [] s) =
      on_read s next (k.poll_read (s.capacity - length s.pending_read) s.socket)
  after_ready next (drained (b ∷ out) s) = returned (ready (ok tt)) ((b ∷ out), s)

  -- The loop 'read_more.
  unfoldable pub read_more :
      (rounds fuel size : ℕ) → Stream k n → Polled (List ℕ × Stream k n) (Unit {0})
  read_more rounds zero size s = unfinished
  read_more rounds (suc fuel) size s =
      after_ready (read_more rounds fuel size) (read_ready rounds size [] s)

  unfoldable pub poll_read_stream :
      (rounds fuel size : ℕ) → Stream k n → Polled (List ℕ × Stream k n) (Unit {0})
  poll_read_stream rounds fuel size s =
      let read = read_more rounds fuel size s in
      if readable s.state then read else returned (ready (ok tt)) ([], s)
