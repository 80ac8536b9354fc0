-- ===== src/Tunnel/Snowy/Progress.antt =====
-- tunnel/src/common.rs: the loops of `poll_write` end.
use noisy_shuttle.Base.{
  ℕ, zero, suc, ◌+◌, ◌-◌, ◌≤◌, ◌<◌, ◌==◌, ◌≡◌, refl, ap, true, List, some, arith, length, drop, ltb,
  Bool-cases, inl, inr, length-take,
}
use noisy_shuttle.Results.{Result, ok, err}
use noisy_shuttle.Io.{write_zero, IoError}
use noisy_shuttle.Tunnel.Snowy.{
  shutdown_write, Poll, ready, pending, Socket, Noise, NoiseLaws, writeable, Polled, returned,
  panicked, unfinished, tls_record, maximum_plaintext_length, maximum_ciphertext_length,
}
use noisy_shuttle.Tunnel.Snowy.Write.{
  Drained, flushed, stuck, failed, out_of_fuel, Stream, unsent, on_written, drain, clear_written,
  chunk_len, next_chunk, in_record, encode_record, after_drain, write_loop, poll_write, on_flushed,
  poll_flush_stream,
}
use noisy_shuttle.Tunnel.Snowy.Drain.{IsBounded}

-- A poll that neither panics nor runs on.
abbrev pub Returns : {S A : Type 0} → Polled S A → Type 0
Returns (returned r s) = Unit {0}
Returns panicked = ⊥
Returns unfinished = ⊥

module _ (k : Socket) (n : Noise) where
  open k use {Sock}
  open n use {State, write_message}

  abbrev Ends : Drained (Stream k n) → Type 0
  Ends out_of_fuel = ⊥
  Ends r = Unit {0}

  -- A round moves the offset, or is the last.
  on_written-Ends :
      (s : Stream k n) (next : Stream k n → Drained (Stream k n))
      (p : Poll (Result IoError ℕ) × Sock)
      → ((s' : Stream k n)
          → s'.write_buffer ≡ s.write_buffer
          → s.write_offset < s'.write_offset
          → Ends (next s'))
      → Ends (on_written k n s next p)
  unfolding on_written
  on_written-Ends s next (ready (ok w), socket) ih = elim (Bool-cases (w == 0)) [
    | inl z ↦ rw (z) tt
    | inr z ↦
        rw (z)
          (ih (record s { socket = socket; write_offset = s.write_offset + w }) refl (ground arith))
  ]
  on_written-Ends s next (ready (err e), socket) ih = tt
  on_written-Ends s next (pending, socket) ih = tt

  drain-Ends :
      (fuel : ℕ) (s : Stream k n)
      → length s.write_buffer - s.write_offset < fuel
      → Ends (drain k n fuel s)
  unfolding drain
  drain-Ends zero s h = omega (arith, h)
  drain-Ends (suc fuel) s h = elim (Bool-cases (ltb s.write_offset (length s.write_buffer))) [
    | inl l ↦ rw (l) (
        on_written-Ends s (drain k n fuel) (k.poll_write (unsent k n s) s.socket)
          (λ s' same moved. drain-Ends fuel s' (ground (arith, ap length same))))
    | inr l ↦ rw (l) tt
  ]

  -- `write_message` takes every chunk.
  abbrev pub Accepts : Type 0
  Accepts =
      (plain : List ℕ) (w : State)
      → length plain ≤ maximum_plaintext_length
      → (c : List ℕ) × ((w' : State) × (write_message plain w ≡ some (c, w')))

  module _ (nl : NoiseLaws n) (accepts : Accepts) where
    open nl use {length_sealed}

    encode_record-Returns :
        (s : Stream k n) (buf : List ℕ) (offset : ℕ) (next : Stream k n → Polled (Stream k n) ℕ)
        → s.write_offset ≡ 0
        → ((t : Stream k n) → IsBounded t → Returns (next t))
        → Returns (
            encode_record k n next
              (in_record k n s (write_message (next_chunk k n buf offset) s.noise)))
    unfolding encode_record in_record
    encode_record-Returns s buf offset next o ih =
        let few = length-take (chunk_len k n buf offset) (drop offset buf) in
        let (c, (w', e)) = accepts (next_chunk k n buf offset) s.noise (omega (arith, few)) in
        let size = length_sealed (next_chunk k n buf offset) c s.noise w' e in
        rw (e) (
          ih (record s { noise = w'; write_buffer = tls_record c })
            (record { in_buffer = omega (arith, o); one_record = omega (arith, size, few) }))

    after_drain-Returns :
        (buf : List ℕ) (offset : ℕ) (next : ℕ → Stream k n → Polled (Stream k n) ℕ)
        (r : Drained (Stream k n))
        → offset ≤ length buf
        → Ends r
        → ((o : ℕ) (t : Stream k n)
            → offset < o
            → o ≤ length buf
            → IsBounded t
            → Returns (next o t))
        → Returns (after_drain k n buf offset next r)
    unfolding after_drain clear_written
    after_drain-Returns buf offset next (failed e s) h a ih = tt
    after_drain-Returns buf offset next (stuck s) h a ih = elim (Bool-cases (offset == 0)) [
      | inl z ↦ rw (z) tt
      | inr z ↦ rw (z) tt
    ]
    after_drain-Returns buf offset next out_of_fuel h a ih = absurd a
    after_drain-Returns buf offset next (flushed s) h a ih =
        elim (Bool-cases (offset == length buf)) [
          | inl z ↦ rw (z) tt
          | inr z ↦ rw (z) (
              encode_record-Returns (clear_written k n s) buf offset
                (next (offset + chunk_len k n buf offset)) refl
                (λ t b. ih (offset + chunk_len k n buf offset) t (ground arith) (omega arith) b))
        ]

    write_loop-Returns :
        (inner fuel : ℕ) (buf : List ℕ) (offset : ℕ) (s : Stream k n)
        → 5 + maximum_ciphertext_length < inner
        → length buf - offset < fuel
        → offset ≤ length buf
        → IsBounded s
        → Returns (write_loop k n inner fuel buf offset s)
    unfolding write_loop
    write_loop-Returns inner zero buf offset s i f h b = omega (arith, f)
    write_loop-Returns inner (suc fuel) buf offset s i f h b =
        after_drain-Returns buf offset (write_loop k n inner fuel buf) (drain k n inner s) h
          (drain-Ends inner s (omega (arith, b.one_record)))
          (λ o t later few c. write_loop-Returns inner fuel buf o t i (omega arith) few c)

    -- From a buffer of at most one record, and when `write_message` takes every chunk, `poll_write`
    -- neither panics nor runs on: its inner loop takes at most a round for each byte of a record and
    -- its outer loop a round for each byte of `buf`, whatever the socket answers.
    pub poll_write-Returns :
        (inner fuel : ℕ) (buf : List ℕ) (s : Stream k n)
        → 5 + maximum_ciphertext_length < inner
        → length buf < fuel
        → IsBounded s
        → Returns (poll_write k n inner fuel buf s)
    unfolding poll_write
    poll_write-Returns inner fuel buf s i f b = elim (Bool-cases (writeable s.state)) [
      | inl w ↦ rw (w) (write_loop-Returns inner fuel buf 0 s i (omega arith) (omega arith) b)
      | inr w ↦ rw (w) tt
    ]

  on_flushed-none :
      (fuel : ℕ) (s : Stream k n) (answer : Poll (Result IoError ℕ)) (socket : Sock)
      → answer ≡ ready (ok 0)
      → poll_flush_stream k n fuel (record s { socket = socket; write_offset = s.write_offset + 0 })
        ≡ unfinished
      → on_flushed k n s (poll_flush_stream k n fuel) (answer, socket) ≡ unfinished
  unfolding on_flushed
  on_flushed-none fuel s answer socket e r = rw (e) r

  poll_flush-goes_on :
      (fuel : ℕ) (s : Stream k n)
      → ((bytes : List ℕ) (socket : Sock) → (k.poll_write bytes socket).0 ≡ ready (ok 0))
      → s.write_offset < length s.write_buffer
      → poll_flush_stream k n fuel s ≡ unfinished
  unfolding poll_flush_stream
  poll_flush-goes_on zero s zeros h = refl
  poll_flush-goes_on (suc fuel) s zeros h =
      let more : ltb s.write_offset (length s.write_buffer) ≡ true = ground arith in
      let answer = k.poll_write (unsent k n s) s.socket in
      rw (more) (
        on_flushed-none fuel s answer.0 answer.1 (zeros (unsent k n s) s.socket) (
          poll_flush-goes_on fuel
            (record s { socket = answer.1; write_offset = s.write_offset + 0 }) zeros
            (omega (arith, h))))

  -- A stream whose socket took none of the bytes that were left.
  abbrev pub shut : Stream k n → Stream k n
  shut s = record s {
    socket = (k.poll_write (unsent k n s) s.socket).1;
    write_offset = s.write_offset + 0;
    state = shutdown_write s.state;
  }

  on_written-none :
      (s : Stream k n) (next : Stream k n → Drained (Stream k n)) (answer : Poll (Result IoError ℕ))
      (socket : Sock)
      → answer ≡ ready (ok 0)
      → on_written k n s next (answer, socket)
        ≡ failed write_zero (record s {
          socket = socket;
          write_offset = s.write_offset + 0;
          state = shutdown_write s.state;
        })
  unfolding on_written
  on_written-none s next answer socket e = rw (e) refl

  poll_write-stops :
      (inner rounds : ℕ) (buf : List ℕ) (s : Stream k n)
      → ((bytes : List ℕ) (socket : Sock) → (k.poll_write bytes socket).0 ≡ ready (ok 0))
      → s.write_offset < length s.write_buffer
      → writeable s.state ≡ true
      → poll_write k n (suc inner) (suc rounds) buf s ≡ returned (ready (err write_zero)) (shut s)
  unfolding poll_write write_loop drain after_drain
  poll_write-stops inner rounds buf s zeros h w =
      let more : ltb s.write_offset (length s.write_buffer) ≡ true = ground arith in
      let answer = k.poll_write (unsent k n s) s.socket in
      let fails =
        on_written-none s (drain k n inner) answer.0 answer.1 (zeros (unsent k n s) s.socket) in
      rw (w) (rw (more) (ap (after_drain k n buf 0 (write_loop k n (suc inner) rounds buf)) fails))

  -- While bytes are buffered, `poll_flush` goes on for ever with a socket that takes none of them: no
  -- fuel is enough. `poll_write` of a stream that is open for writing stops in its first round, with the
  -- error WriteZero, and shuts the stream for writing.
  pub poll_flush-unfinished :
      (fuel inner rounds : ℕ) (buf : List ℕ) (s : Stream k n)
      → ((bytes : List ℕ) (socket : Sock) → (k.poll_write bytes socket).0 ≡ ready (ok 0))
      → s.write_offset < length s.write_buffer
      → writeable s.state ≡ true
      → (poll_flush_stream k n fuel s ≡ unfinished)
        × (poll_write k n (suc inner) (suc rounds) buf s
            ≡ returned (ready (err write_zero)) (shut s))
  poll_flush-unfinished fuel inner rounds buf s zeros h w =
      (poll_flush-goes_on fuel s zeros h, poll_write-stops inner rounds buf s zeros h w)
