-- ===== src/Tunnel/Snowy/Commit.antt =====
-- tunnel/src/common.rs: what `poll_write` puts on the wire.
use mathlib.Core.List.{append_assoc, append-nil}
use noisy_shuttle.Base.{
  ℕ, zero, suc, ◌+◌, ◌-◌, ◌≤◌, ◌<◌, ◌==◌, ◌≡◌, refl, sym, ap, ◌∙◌, List, [], ◌∷◌, ◌++◌, Option,
  none, some, arith, length, take, drop, Bool-cases, inl, inr, drop-add, take-add, subst, drop-past,
  length-take, length-drop, drop-nil,
}
use noisy_shuttle.Results.{ok, err}
use noisy_shuttle.Tunnel.Snowy.{
  ready, pending, Socket, SocketLaws, Noise, NoiseLaws, writeable, Polled, returned, panicked,
  unfinished, tls_record, maximum_ciphertext_length,
}
use noisy_shuttle.Tunnel.Snowy.Write.{
  Drained, flushed, stuck, failed, out_of_fuel, Stream, unsent, drain, clear_written, chunk_len,
  next_chunk, encode_record, in_record, after_drain, write_loop, poll_write,
}
use noisy_shuttle.Tunnel.Snowy.Records.{concat, Sealed, nothing, seal}
use noisy_shuttle.Tunnel.Snowy.Drain.{IsBounded, wire, Kept, Keeps, drain-Keeps}

module _ (k : Socket) (n : Noise) (kl : SocketLaws k) (nl : NoiseLaws n) where
  open k use {Sock}
  open n use {State, write_message}
  open kl use {sent}
  open nl use {length_sealed}

  -- The plaintext from `offset` to `m` is sealed, in order, and its records are on the wire k n kl after
  -- what was there before.
  pub record Commits (s : Stream k n) (buf : List ℕ) (offset m : ℕ) (s' : Stream k n) : Type 0 where
    pub chunks : List (List ℕ)
    pub bytes : List ℕ
    pub sealed : Sealed n s.noise chunks bytes s'.noise
    pub text : concat chunks ≡ take (m - offset) (drop offset buf)
    pub on_wire : wire k n kl s' ≡ wire k n kl s ++ bytes
    pub bounded : IsBounded s'
    pub forward : offset ≤ m
    pub within : m ≤ length buf

  -- A result that says nothing was written is told with 0, an error commits some prefix.
  abbrev pub Committed : Stream k n → List ℕ → ℕ → Polled (Stream k n) ℕ → Type 0
  Committed s buf offset (returned (ready (ok m)) s') = Commits s buf offset m s'
  Committed s buf offset (returned (ready (err e)) s') = (m : ℕ) × Commits s buf offset m s'
  Committed s buf offset (returned pending s') = Commits s buf offset 0 s'
  Committed s buf offset panicked = Unit {0}
  Committed s buf offset unfinished = Unit {0}

  nothing_more :
      (s s' : Stream k n) (buf : List ℕ) (offset : ℕ)
      → offset ≤ length buf
      → Kept k n kl s s'
      → Commits s buf offset offset s'
  nothing_more s s' buf offset h a = record {
    chunks = [];
    bytes = [];
    sealed = subst (λ w. Sealed n s.noise [] [] w) (sym a.same_noise) nothing;
    text = sym (ap (λ j. take j (drop offset buf)) {x = offset - offset} {y = 0} (omega arith));
    on_wire = a.same_wire ∙ sym (append-nil (wire k n kl s));
    bounded = a.bounded;
    forward = omega arith;
    within = h;
  }

  Kept-clear :
      (s s' : Stream k n)
      → Kept k n kl s s'
      → length s'.write_buffer ≤ s'.write_offset
      → Kept k n kl s (clear_written k n s')
  unfolding clear_written
  Kept-clear s s' a h = record {
    same_wire =
        ap (λ l. sent s'.socket ++ l) (sym (drop-past s'.write_offset s'.write_buffer h))
        ∙ a.same_wire;
    same_noise = a.same_noise;
    bounded = record { in_buffer = omega arith; one_record = omega arith };
  }

  one_more :
      (s t s' : Stream k n) (buf c : List ℕ) (offset m : ℕ)
      → offset < length buf
      → write_message (next_chunk k n buf offset) s.noise ≡ some (c, t.noise)
      → wire k n kl t ≡ wire k n kl s ++ tls_record c
      → Commits t buf (offset + chunk_len k n buf offset) m s'
      → Commits s buf offset m s'
  one_more s t s' buf c offset m h e w r =
      let few : chunk_len k n buf offset ≤ length (drop offset buf) =
        omega (arith, length-drop offset buf) in
      let size : length (next_chunk k n buf offset) ≡ chunk_len k n buf offset =
        omega (arith, length-take (chunk_len k n buf offset) (drop offset buf), few) in
      let split : m - offset
          ≡ chunk_len k n buf offset + (m - (offset + chunk_len k n buf offset)) =
        omega (arith, r.forward) in
      record {
        chunks = next_chunk k n buf offset ∷ r.chunks;
        bytes = tls_record c ++ r.bytes;
        sealed =
            seal (next_chunk k n buf offset) c (omega (arith, size)) (omega (arith, size)) e
              r.sealed refl;
        text =
            ap (λ l. next_chunk k n buf offset ++ l)
              (r.text
                ∙ ap (take (m - (offset + chunk_len k n buf offset)))
                    (drop-add offset (chunk_len k n buf offset) buf))
            ∙ sym (
                take-add (chunk_len k n buf offset) (m - (offset + chunk_len k n buf offset))
                  (drop offset buf))
            ∙ ap (λ j. take j (drop offset buf)) (sym split);
        on_wire =
            r.on_wire
            ∙ ap (λ l. l ++ r.bytes) w
            ∙ append_assoc (wire k n kl s) (tls_record c) r.bytes;
        bounded = r.bounded;
        forward = omega (arith, r.forward);
        within = r.within;
      }

  one_more' :
      (s t : Stream k n) (buf c : List ℕ) (offset : ℕ) (r : Polled (Stream k n) ℕ)
      → offset < length buf
      → write_message (next_chunk k n buf offset) s.noise ≡ some (c, t.noise)
      → wire k n kl t ≡ wire k n kl s ++ tls_record c
      → Committed t buf (offset + chunk_len k n buf offset) r
      → Committed s buf offset r
  one_more' s t buf c offset (returned (ready (ok m)) s') h e w r =
      one_more s t s' buf c offset m h e w r
  one_more' s t buf c offset (returned (ready (err x)) s') h e w (m, r) =
      (m, one_more s t s' buf c offset m h e w r)
  one_more' s t buf c offset (returned pending s') h e w r = one_more s t s' buf c offset 0 h e w r
  one_more' s t buf c offset panicked h e w r = tt
  one_more' s t buf c offset unfinished h e w r = tt

  encode_record-Commits :
      (s t : Stream k n) (buf : List ℕ) (offset : ℕ) (next : ℕ → Stream k n → Polled (Stream k n) ℕ)
      (p : Option (List ℕ × State))
      → offset < length buf
      → ((o : ℕ) (t' : Stream k n) → o ≤ length buf → IsBounded t' → Committed t' buf o (next o t'))
      → Kept k n kl s t
      → t.write_offset ≡ 0
      → t.write_buffer ≡ []
      → write_message (next_chunk k n buf offset) t.noise ≡ p
      → Committed s buf offset
          (encode_record k n (next (offset + chunk_len k n buf offset)) (in_record k n t p))
  unfolding encode_record in_record
  encode_record-Commits s t buf offset next none h ih a o u e = tt
  encode_record-Commits s t buf offset next (some (c, noise)) h ih a o u e =
      let t' = record t { noise = noise; write_buffer = tls_record c } in
      let size : length (tls_record c) ≤ 5 + maximum_ciphertext_length = omega (
        arith,
        length_sealed (next_chunk k n buf offset) c t.noise noise e,
        length-take (chunk_len k n buf offset) (drop offset buf),
      ) in
      let empty : unsent k n t ≡ [] = ap (drop t.write_offset) u ∙ drop-nil t.write_offset in
      let all_sent : sent t.socket ≡ wire k n kl s =
        sym (ap (λ l. sent t.socket ++ l) empty ∙ append-nil (sent t.socket)) ∙ a.same_wire in
      let on_wire : wire k n kl t' ≡ wire k n kl s ++ tls_record c =
        ap (λ i. sent t.socket ++ drop i (tls_record c)) o ∙ ap (λ l. l ++ tls_record c) all_sent in
      one_more' s t' buf c offset (next (offset + chunk_len k n buf offset) t') h
        (ap (write_message (next_chunk k n buf offset)) (sym a.same_noise) ∙ e) on_wire
        (ih (offset + chunk_len k n buf offset) t' (omega arith)
          (record { in_buffer = omega (arith, o); one_record = size }))

  after_drain-Commits :
      (s : Stream k n) (buf : List ℕ) (offset : ℕ) (next : ℕ → Stream k n → Polled (Stream k n) ℕ)
      (r : Drained (Stream k n))
      → offset ≤ length buf
      → ((o : ℕ) (t : Stream k n) → o ≤ length buf → IsBounded t → Committed t buf o (next o t))
      → Keeps k n kl s r
      → Committed s buf offset (after_drain k n buf offset next r)
  unfolding after_drain clear_written
  after_drain-Commits s buf offset next (failed e t) h ih a =
      (offset, nothing_more s t buf offset h a)
  after_drain-Commits s buf offset next (stuck t) h ih a = elim (Bool-cases (offset == 0)) [
    | inl z ↦
        rw (z)
          (subst (λ m. Commits s buf offset m t) (ground arith) (nothing_more s t buf offset h a))
    | inr z ↦ rw (z) (nothing_more s t buf offset h a)
  ]
  after_drain-Commits s buf offset next out_of_fuel h ih a = tt
  after_drain-Commits s buf offset next (flushed t) h ih a =
      let b = Kept-clear s t a.0 a.1 in
      elim (Bool-cases (offset == length buf)) [
        | inl z ↦ rw (z) (nothing_more s (clear_written k n t) buf offset h b)
        | inr z ↦ rw (z) (
            encode_record-Commits s (clear_written k n t) buf offset next
              (write_message (next_chunk k n buf offset) (clear_written k n t).noise) (ground arith)
              ih b refl refl refl)
      ]

  write_loop-Commits :
      (inner fuel : ℕ) (buf : List ℕ) (offset : ℕ) (s : Stream k n)
      → offset ≤ length buf
      → IsBounded s
      → Committed s buf offset (write_loop k n inner fuel buf offset s)
  unfolding write_loop
  write_loop-Commits inner zero buf offset s h b = tt
  write_loop-Commits inner (suc fuel) buf offset s h b =
      after_drain-Commits s buf offset (write_loop k n inner fuel buf) (drain k n inner s) h
        (λ o t g c. write_loop-Commits inner fuel buf o t g c) (drain-Keeps k n kl inner s b)

  -- From a buffer of at most one record, when `poll_write` returns m, the first m bytes of `buf` are
  -- sealed, in order and in chunks that fit a record, and their records follow on the wire what was
  -- there before, sent or still in a buffer of at most one record. When it is pending nothing of
  -- `buf` is sealed, and when it fails some first part of it is.
  pub poll_write-Commits :
      (inner fuel : ℕ) (buf : List ℕ) (s : Stream k n)
      → IsBounded s
      → Committed s buf 0 (poll_write k n inner fuel buf s)
  unfolding poll_write
  poll_write-Commits inner fuel buf s b = elim (Bool-cases (writeable s.state)) [
    | inl w ↦ rw (w) (write_loop-Commits inner fuel buf 0 s (omega arith) b)
    | inr w ↦ rw (w) (
        nothing_more s s buf 0 (omega arith)
          (record { same_wire = refl; same_noise = refl; bounded = b }))
  ]
