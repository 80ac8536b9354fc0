-- ===== src/Tunnel/Snowy/Leftover.antt =====
-- tunnel/src/common.rs: `poll_read` after a record that does not decrypt.
use noisy_shuttle.Base.{
  ℕ, suc, ◌+◌, ◌<◌, ◌==◌, ◌≡◌, refl, ap, ◌∙◌, true, false, List, [], Option, none, arith, length,
  take, drop, ltb,
}
use noisy_shuttle.Results.{ok, err}
use noisy_shuttle.Io.{invalid_data}
use noisy_shuttle.Tunnel.Snowy.{ready, Socket, Noise, returned, readable, RecordParser}
use noisy_shuttle.Tunnel.Snowy.Write.{Stream}
use noisy_shuttle.Tunnel.Snowy.Read.{
  Taken, put_len, full, broken, put_ready, clear_read, on_opened, on_parsed, after_put, read_ready,
  after_ready, read_more, poll_read_stream,
}

module _ (k : Socket) (n : Noise) (p : RecordParser) where
  open n use {State, read_message, leftover}
  open p use {parse}

  -- What a stream is left as by a record that does not decrypt.
  abbrev pub spoiled : List ℕ → ℕ → Stream k n → Stream k n
  spoiled payload used s = record s {
    noise = (read_message payload s.noise).1;
    pending_read = drop used s.pending_read;
    read_buffer = leftover payload s.noise;
  }

  on_opened-none :
      (payload : List ℕ) (s : Stream k n) (next : Stream k n → Taken (Stream k n))
      (o : Option (List ℕ)) (noise : State)
      → o ≡ none
      → on_opened k n p payload [] s next (o, noise)
        ≡ broken invalid_data []
            (record s { noise = noise; read_buffer = leftover payload s.noise })
  unfolding on_opened
  on_opened-none payload s next o noise e = rw (e) refl

  put_ready-nothing :
      (size : ℕ) (s : Stream k n)
      → ltb s.read_offset (length s.read_buffer) ≡ false
      → put_ready k n p size [] s ≡ ([], s)
  unfolding put_ready
  put_ready-nothing size s h = rw (h) refl

  after_put-broken :
      (used : ℕ) (payload : List ℕ) (s : Stream k n)
      (next : List ℕ → Stream k n → Taken (Stream k n))
      → ltb s.read_offset (length s.read_buffer) ≡ false
      → parse s.pending_read ≡ ok (payload, used)
      → (length payload == 0) ≡ false
      → (read_message payload s.noise).0 ≡ none
      → after_put k n p next ([], s) ≡ broken invalid_data [] (spoiled payload used s)
  unfolding after_put on_parsed
  after_put-broken used payload s next h parsed some_payload e =
      rw (h, parsed, some_payload)
        (on_opened-none payload (record s { pending_read = drop used s.pending_read }) (next [])
          (read_message payload s.noise).0 (read_message payload s.noise).1 e)

  after_put-full :
      (out : List ℕ) (s : Stream k n) (next : List ℕ → Stream k n → Taken (Stream k n))
      → ltb s.read_offset (length s.read_buffer) ≡ true
      → after_put k n p next (out, s) ≡ full out s
  unfolding after_put
  after_put-full out s next h = rw (h) refl

  -- A stream with no decrypted bytes reads a record that does not decrypt as an error.
  poll_read-invalid_data :
      (rounds fuel size used : ℕ) (payload : List ℕ) (s : Stream k n)
      → readable s.state ≡ true
      → ltb s.read_offset (length s.read_buffer) ≡ false
      → parse s.pending_read ≡ ok (payload, used)
      → 0 < length payload
      → (read_message payload s.noise).0 ≡ none
      → poll_read_stream k n p (suc rounds) (suc fuel) size s
        ≡ returned (ready (err invalid_data)) ([], spoiled payload used s)
  unfolding poll_read_stream read_more read_ready after_ready
  poll_read-invalid_data rounds fuel size used payload s r h parsed pos e = rw (r) (
      ap (after_ready k n p (read_more k n p (suc rounds) fuel size)) (
        ap (after_put k n p (read_ready k n p rounds size)) (put_ready-nothing size s h)
        ∙ after_put-broken used payload s (read_ready k n p rounds size) h parsed (ground arith) e))

  clear_read-part :
      (size : ℕ) (s : Stream k n)
      → size < length s.read_buffer
      → clear_read k n p (record s { read_offset = size }) ≡ record s { read_offset = size }
  unfolding clear_read
  clear_read-part size s l =
      let still : ltb size (length s.read_buffer) ≡ true = ground arith in rw (still) refl

  -- More decrypted bytes than the caller has room for.
  put_ready-part :
      (size : ℕ) (s : Stream k n)
      → s.read_offset ≡ 0
      → size < length s.read_buffer
      → put_ready k n p size [] s ≡ (take size s.read_buffer, record s { read_offset = size })
  unfolding put_ready
  put_ready-part size s o l =
      let len : put_len k n p size [] s ≡ size = omega arith in
      let at : s.read_offset + put_len k n p size [] s ≡ size = omega (arith, len, o) in
      let nonempty : ltb s.read_offset (length s.read_buffer) ≡ true = ground arith in
      let put : take (put_len k n p size [] s) (drop s.read_offset s.read_buffer)
          ≡ take size s.read_buffer =
        ap (λ j. take j (drop s.read_offset s.read_buffer)) len
        ∙ ap (λ j. take size (drop j s.read_buffer)) o in
      let left : clear_read k n p
            (record s { read_offset = s.read_offset + put_len k n p size [] s })
          ≡ record s { read_offset = size } =
        ap (λ j. clear_read k n p (record s { read_offset = j })) at ∙ clear_read-part size s l in
      rw (nonempty) (
        ap
          (λ x. (
            x,
            clear_read k n p (record s { read_offset = s.read_offset + put_len k n p size [] s }),
          ))
          put
        ∙ ap (λ y. (take size s.read_buffer, y)) left)

  -- What the failed decryption left in the buffer is then read as if it were plaintext.
  poll_read-leftover :
      (rounds fuel size : ℕ) (s : Stream k n)
      → readable s.state ≡ true
      → s.read_offset ≡ 0
      → size < length s.read_buffer
      → poll_read_stream k n p (suc rounds) (suc fuel) size s
        ≡ returned (ready (ok tt)) (take size s.read_buffer, record s { read_offset = size })
  unfolding poll_read_stream read_more read_ready after_ready
  poll_read-leftover rounds fuel size s r o l =
      let still : ltb size (length s.read_buffer) ≡ true = ground arith in
      rw (r) (
        ap (after_ready k n p (read_more k n p (suc rounds) fuel size)) (
          ap (after_put k n p (read_ready k n p rounds size)) (put_ready-part size s o l)
          ∙ after_put-full (take size s.read_buffer) (record s { read_offset = size })
              (read_ready k n p rounds size) still))

  -- A poll of a stream with no decrypted bytes that meets a record that does not decrypt is an error,
  -- but the stream stays open and the next poll succeeds, where the caller's buffer is smaller than
  -- what the failed decryption left: it fills that buffer with what was left.
  pub poll_read-spoiled :
      (rounds fuel size used : ℕ) (payload : List ℕ) (s : Stream k n)
      → readable s.state ≡ true
      → s.read_offset ≡ 0
      → s.read_buffer ≡ []
      → parse s.pending_read ≡ ok (payload, used)
      → 0 < length payload
      → (read_message payload s.noise).0 ≡ none
      → size < length (leftover payload s.noise)
      → (poll_read_stream k n p (suc rounds) (suc fuel) size s
          ≡ returned (ready (err invalid_data)) ([], spoiled payload used s))
        × (poll_read_stream k n p (suc rounds) (suc fuel) size (spoiled payload used s)
            ≡ returned (ready (ok tt)) (
              take size (leftover payload s.noise),
              record (spoiled payload used s) { read_offset = size },
            ))
  poll_read-spoiled rounds fuel size used payload s r o b parsed pos e l = (
    poll_read-invalid_data rounds fuel size used payload s r (ground (arith, ap length b)) parsed
        pos e,
    poll_read-leftover rounds fuel size (spoiled payload used s) r o l,
  )
