-- ===== src/Tunnel/Snowy/Deliver.antt =====
-- tunnel/src/common.rs: what `poll_read` hands to the caller.
use mathlib.Core.List.{append_assoc}
use noisy_shuttle.Base.{
  ℕ, zero, suc, ◌+◌, ◌-◌, ◌≤◌, ◌<◌, ◌≡◌, refl, sym, ap, ◌∙◌, List, [], ◌∷◌, ◌++◌, arith, length,
  ltb, Bool-cases, if◌then◌else◌, inl, inr, length-append,
}
use noisy_shuttle.Results.{Result, ok, err}
use noisy_shuttle.Io.{IoError}
use noisy_shuttle.Tunnel.Snowy.{
  Poll, ready, pending, Socket, SocketLaws, Noise, NoiseLaws, Polled, returned, panicked,
  unfinished, maximum_ciphertext_length, buffered_plaintext, readable, SnowyState, shutdown_read,
  RecordParser, ParserLaws,
}
use noisy_shuttle.Tunnel.Snowy.Write.{Stream}
use noisy_shuttle.Tunnel.Snowy.Read.{
  Taken, ends_reading, full, drained, broken, out_of_rounds, read_ready, on_read, after_ready,
  read_more, poll_read_stream,
}
use noisy_shuttle.Tunnel.Snowy.Inbound.{Inbound, Served}
use noisy_shuttle.Tunnel.Snowy.Ready.{Delivers, read_ready-Delivers}

module _ (k : Socket) (n : Noise) (p : RecordParser) (kl : SocketLaws k) (nl : NoiseLaws n)
    (pl : ParserLaws p) where
  open k use {Sock}
  open n use {State, write_message, read_message}
  open p use {parse}
  open kl use {arriving, read_taken, read_failed, read_pending}
  open nl use {Paired, length_sealed, opened}
  open pl use {parse_whole, parse_part}

  module _ (size limit : ℕ) (all : List ℕ) where
    abbrev pub Due : List ℕ → Stream k n → Type 0
    Due = Served k n p kl nl size limit all

    -- Every result but running out of fuel leaves the rest of the plaintext to come.
    abbrev pub Delivered : Polled (List ℕ × Stream k n) (Unit {0}) → Type 0
    Delivered (returned r (out, s)) = Due out s
    Delivered panicked = ⊥
    Delivered unfinished = ⊥

    -- The socket was read, and what it gave is in the buffer.
    from_socket-Served :
        (s : Stream k n) (socket : Sock) (st : SnowyState) (held : List ℕ)
        → Due [] s
        → s.pending_read ++ arriving s.socket ≡ held ++ arriving socket
        → length held ≤ s.capacity
        → Due [] (record s { socket = socket; state = st; pending_read = held })
    unfolding buffered_plaintext
    from_socket-Served s socket st held v e f =
        let i = v.inbound in
        record {
          rest = v.rest;
          inbound = record {
            peer = i.peer;
            peer_end = i.peer_end;
            chunks = i.chunks;
            bytes = i.bytes;
            future = i.future;
            paired = i.paired;
            sealed = i.sealed;
            on_wire =
                sym (append_assoc held (arriving socket) i.future)
                ∙ ap (λ l. l ++ i.future) (sym e)
                ∙ append_assoc s.pending_read (arriving s.socket) i.future
                ∙ i.on_wire;
            text = i.text;
            in_capacity = f;
            offset_ok = i.offset_ok;
          };
          whole = v.whole;
          fits = v.fits;
          same_capacity = v.same_capacity;
        }

    on_read-Delivered :
        (s : Stream k n) (next : Stream k n → Polled (List ℕ × Stream k n) (Unit {0}))
        (r : Poll (Result IoError (List ℕ)) × Sock)
        → Due [] s
        → k.poll_read (s.capacity - length s.pending_read) s.socket ≡ r
        → ((s' : Stream k n)
            → Due [] s'
            → length s.pending_read < length s'.pending_read
            → Delivered (next s'))
        → Delivered (on_read k n p s next r)
    unfolding on_read
    on_read-Delivered s next (ready (ok []), socket) v e ih =
        let (_, a) =
          read_taken (s.capacity - length s.pending_read) s.socket [] (ap (λ q. q.0) e) in
        let served : Due [] (record s { socket = socket }) =
          from_socket-Served s socket s.state s.pending_read v
            (ap (λ l. s.pending_read ++ l) (a ∙ ap (λ q. arriving q.1) e)) v.inbound.in_capacity in
        elim (Bool-cases (ltb 0 (length s.pending_read))) [
          | inl h ↦ rw (h) served
          | inr h ↦ rw (h) served
        ]
    on_read-Delivered s next (ready (ok (b ∷ bs)), socket) v e ih =
        let (few, a) =
          read_taken (s.capacity - length s.pending_read) s.socket (b ∷ bs) (ap (λ q. q.0) e) in
        let held = s.pending_read ++ (b ∷ bs) in
        let longer = length-append s.pending_read (b ∷ bs) in
        ih (record s { socket = socket; pending_read = held })
          (from_socket-Served s socket s.state held v
            (ap (λ l. s.pending_read ++ l) (a ∙ ap (λ q. (b ∷ bs) ++ arriving q.1) e)
              ∙ sym (append_assoc s.pending_read (b ∷ bs) (arriving socket)))
            (omega (arith, longer, few, v.inbound.in_capacity)))
          (omega (arith, longer))
    on_read-Delivered s next (ready (err x), socket) v e ih =
        from_socket-Served s socket (if ends_reading x then shutdown_read s.state else s.state)
          s.pending_read v
          (ap (λ l. s.pending_read ++ l)
            (sym (read_failed (s.capacity - length s.pending_read) s.socket x (ap (λ q. q.0) e))
              ∙ ap (λ q. arriving q.1) e))
          v.inbound.in_capacity
    on_read-Delivered s next (pending, socket) v e ih =
        from_socket-Served s socket s.state s.pending_read v
          (ap (λ l. s.pending_read ++ l)
            (sym (read_pending (s.capacity - length s.pending_read) s.socket (ap (λ q. q.0) e))
              ∙ ap (λ q. arriving q.1) e))
          v.inbound.in_capacity

    after_ready-Delivered :
        (s : Stream k n) (next : Stream k n → Polled (List ℕ × Stream k n) (Unit {0}))
        (r : Taken (Stream k n))
        → Delivers k n p kl nl pl size limit all s r
        → ((s' : Stream k n)
            → Due [] s'
            → length s.pending_read < 5 + maximum_ciphertext_length
            → length s.pending_read < length s'.pending_read
            → Delivered (next s'))
        → Delivered (after_ready k n p next r)
    unfolding after_ready
    after_ready-Delivered s next (full out t) d ih = d
    after_ready-Delivered s next (broken e out t) d ih = absurd d
    after_ready-Delivered s next out_of_rounds d ih = d
    after_ready-Delivered s next (drained (b ∷ out) t) d ih = d.0
    after_ready-Delivered s next (drained [] t) (v, (inl m, f)) ih = absurd (omega (arith, m))
    after_ready-Delivered s next (drained [] t) (v, (inr (same, m), f)) ih =
        on_read-Delivered t next (k.poll_read (t.capacity - length t.pending_read) t.socket) v refl
          (λ s' v' more.
            ih s' v' (omega (arith, f, ap length same)) (omega (arith, more, ap length same)))

    read_more-Delivered :
        (rounds fuel : ℕ) (s : Stream k n)
        → limit < rounds
        → 5 + maximum_ciphertext_length - length s.pending_read < fuel
        → Due [] s
        → Delivered (read_more k n p rounds fuel size s)
    unfolding read_more
    read_more-Delivered rounds zero s l f v = absurd (omega (arith, f))
    read_more-Delivered rounds (suc fuel) s l f v =
        after_ready-Delivered s (read_more k n p rounds fuel size)
          (read_ready k n p rounds size [] s)
          (read_ready-Delivers k n p kl nl pl size limit all rounds [] s v
            (omega (arith, l, v.same_capacity, v.inbound.in_capacity)))
          (λ s' v' few more. read_more-Delivered rounds fuel s' l (omega (arith, f, few, more)) v')

    poll_read-Delivered :
        (rounds fuel : ℕ) (s : Stream k n)
        → limit < rounds
        → 5 + maximum_ciphertext_length < fuel
        → Due [] s
        → Delivered (poll_read_stream k n p rounds fuel size s)
    unfolding poll_read_stream
    poll_read-Delivered rounds fuel s l f v = elim (Bool-cases (readable s.state)) [
      | inl h ↦ rw (h) (read_more-Delivered rounds fuel s l (omega (arith, f)) v)
      | inr h ↦ rw (h) v
    ]

  -- Whatever `poll_read` returns, the bytes that it put into the caller's buffer of `size` bytes are
  -- the next ones of the peer's plaintext, in order and none lost, and the stream still holds or
  -- awaits the rest. With as many rounds as the buffers ask for, it neither panics nor runs on.
  pub poll_read-Delivers :
      (rounds fuel size : ℕ) (s : Stream k n) (plain : List ℕ)
      → s.capacity < rounds
      → 5 + maximum_ciphertext_length < fuel
      → Inbound k n p kl nl s plain
      → Delivered size s.capacity plain (poll_read_stream k n p rounds fuel size s)
  poll_read-Delivers rounds fuel size s plain l f i =
      poll_read-Delivered size s.capacity plain rounds fuel s l f (record {
        rest = plain;
        inbound = i;
        whole = refl;
        fits = omega arith;
        same_capacity = refl;
      })
