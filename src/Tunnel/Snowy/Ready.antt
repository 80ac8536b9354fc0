-- ===== src/Tunnel/Snowy/Ready.antt =====
-- tunnel/src/common.rs: the loop 'read_ready of `poll_read`, which hands over the records that are whole.
use noisy_shuttle.Base.{
  ℕ, zero, suc, ◌+◌, ◌≤◌, ◌<◌, ◌==◌, ◌≡◌, refl, sym, ap, ◌∙◌, false, List, [], ◌++◌, Option, some,
  arith, length, take, drop, ltb, Bool-cases, inl, inr, ◌⊎◌, drop-past, length-append, length-drop,
  cut-before, cut-after,
}
use noisy_shuttle.Results.{ok, err}
use noisy_shuttle.Tunnel.Snowy.{
  Socket, SocketLaws, Noise, NoiseLaws, tls_record, maximum_plaintext_length,
  maximum_ciphertext_length, buffered_plaintext, too_short, RecordParser, ParserLaws,
}
use noisy_shuttle.Tunnel.Snowy.Write.{Stream}
use noisy_shuttle.Tunnel.Snowy.Records.{concat, Sealed, nothing, seal}
use noisy_shuttle.Tunnel.Snowy.Read.{
  Taken, full, drained, broken, out_of_rounds, put_ready, on_opened, on_parsed, after_put,
  read_ready,
}
use noisy_shuttle.Tunnel.Snowy.Inbound.{Served, AfterPut, put_ready-AfterPut}

module _ (k : Socket) (n : Noise) (p : RecordParser) (kl : SocketLaws k) (nl : NoiseLaws n)
    (pl : ParserLaws p) where
  open k use {Sock}
  open n use {State, write_message, read_message}
  open p use {parse}
  open kl use {arriving, read_taken, read_failed, read_pending}
  open nl use {Paired, length_sealed, opened}
  open pl use {parse_whole, parse_part}

  module _ (size limit : ℕ) (all : List ℕ) where
    abbrev Held : List ℕ → Stream k n → Type 0
    Held = Served k n p kl nl size limit all

    -- Something was put, or there was nothing to put and no record.
    abbrev pub Moved : Stream k n → List ℕ → Stream k n → Type 0
    Moved s out s' =
        (0 < length out) ⊎ ((s'.pending_read ≡ s.pending_read) × (buffered_plaintext s ≡ []))

    abbrev pub Delivers : Stream k n → Taken (Stream k n) → Type 0
    Delivers s (full out s') = Held out s'
    Delivers s (drained out s') =
        Held out s' × (Moved s out s' × (length s'.pending_read < 5 + maximum_ciphertext_length))
    Delivers s (broken e out s') = ⊥
    Delivers s out_of_rounds = ⊥

    Delivers-further :
        (s s' : Stream k n) (r : Taken (Stream k n))
        → 0 < length (buffered_plaintext s')
        → Delivers s' r
        → Delivers s r
    Delivers-further s s' (full out t) h d = d
    Delivers-further s s' (drained out t) h (v, (inl m, f)) = (v, (inl m, f))
    Delivers-further s s' (drained out t) h (v, (inr m, f)) = absurd (omega (arith, ap length m.1))
    Delivers-further s s' (broken e out t) h d = d
    Delivers-further s s' out_of_rounds h d = d

    -- A stream whose decrypted bytes are all taken.
    record Awaits (out : List ℕ) (s : Stream k n) : Type 0 where
      served : Held out s
      at_start : s.read_offset ≡ 0
      is_empty : buffered_plaintext s ≡ []

    on_opened-Delivers :
        (out payload plain : List ℕ) (s₀ s : Stream k n) (next : Stream k n → Taken (Stream k n))
        (o : Option (List ℕ)) (noise : State)
        → o ≡ some plain
        → 0 < length plain
        → s.read_offset ≡ 0
        → Held out (record s { noise = noise; read_buffer = plain })
        → ((s' : Stream k n)
            → Held out s'
            → s'.pending_read ≡ s.pending_read
            → Delivers s' (next s'))
        → Delivers s₀ (on_opened k n p payload out s next (o, noise))
    unfolding on_opened buffered_plaintext
    on_opened-Delivers out payload plain s₀ s next o noise e h z v ih =
        let s' = record s { noise = noise; read_buffer = plain } in
        rw (e) (
          Delivers-further s₀ s' (next s') (omega (arith, ap (λ j. length (drop j plain)) z))
            (ih s' v refl))

    -- No record is whole.
    no_record-Delivers :
        (out : List ℕ) (s₀ s : Stream k n) (next : Stream k n → Taken (Stream k n))
        → Held out s
        → s.pending_read ≡ s₀.pending_read
        → (0 < length out) ⊎ (buffered_plaintext s₀ ≡ [])
        → parse s.pending_read ≡ err too_short
        → length s.pending_read < 5 + maximum_ciphertext_length
        → Delivers s₀ (on_parsed k n p out s next (parse s.pending_read))
    unfolding on_parsed
    no_record-Delivers out s₀ s next v same (inl m) e f = rw (e) (v, (inl m, f))
    no_record-Delivers out s₀ s next v same (inr m) e f = rw (e) (v, (inr (same, m), f))

    -- The first record is whole.
    record-Delivers :
        (out plain c bytes : List ℕ) (chunks : List (List ℕ)) (w w' w'' : State) (s₀ s : Stream k n)
        (next : Stream k n → Taken (Stream k n)) (v : Held out s)
        → s.read_offset ≡ 0
        → Paired w s.noise
        → 0 < length plain
        → length plain ≤ maximum_plaintext_length
        → write_message plain w ≡ some (c, w')
        → Sealed n w' chunks bytes w''
        → s.pending_read ++ (arriving s.socket ++ v.inbound.future) ≡ tls_record c ++ bytes
        → v.rest ≡ plain ++ concat chunks
        → length (tls_record c) ≤ length s.pending_read
        → ((s' : Stream k n)
            → Held out s'
            → length s'.pending_read < length s.pending_read
            → Delivers s' (next s'))
        → Delivers s₀ (on_parsed k n p out s next (parse s.pending_read))
    unfolding on_parsed buffered_plaintext
    record-Delivers out plain c bytes chunks w w' w'' s₀ s next v z paired pos most e sealed wire
          text long ih =
        let (first, after) =
          cut-after s.pending_read (arriving s.socket ++ v.inbound.future) (tls_record c) bytes wire
            long in
        let len : length c ≡ length plain + 16 = length_sealed plain c w w' e in
        let used = length (tls_record c) in
        let parsed : parse s.pending_read ≡ ok (c, used) =
          ap parse first ∙ parse_whole c (drop used s.pending_read) (omega (arith, len, most)) in
        let some_payload : (length c == 0) ≡ false = ground (arith, len) in
        let (plainly, paired') = opened plain c w w' s.noise paired e in
        let t = record s { pending_read = drop used s.pending_read } in
        let noise = (read_message c s.noise).1 in
        let served : Held out (record t { noise = noise; read_buffer = plain }) = record {
          rest = v.rest;
          inbound = record {
            peer = w';
            peer_end = w'';
            chunks = chunks;
            bytes = bytes;
            future = v.inbound.future;
            paired = paired';
            sealed = sealed;
            on_wire = after;
            text = ap (λ j. drop j plain ++ concat chunks) z ∙ sym text;
            in_capacity = omega (arith, length-drop used s.pending_read, v.inbound.in_capacity);
            offset_ok = inr z;
          };
          whole = v.whole;
          fits = v.fits;
          same_capacity = v.same_capacity;
        } in
        rw (parsed) (
          rw (some_payload) (
            on_opened-Delivers out c plain s₀ t next (read_message c s.noise).0 noise plainly pos z
              served
              (λ s' v' same.
                ih s' v' (omega (arith, ap length same, length-drop used s.pending_read, long)))))

    -- The parser's answer, for a stream whose decrypted bytes are all taken.
    on_parsed-Delivers :
        (out bytes : List ℕ) (chunks : List (List ℕ)) (w w'' : State) (s₀ s : Stream k n)
        (next : Stream k n → Taken (Stream k n)) (v : Held out s)
        → s.read_offset ≡ 0
        → Paired w s.noise
        → Sealed n w chunks bytes w''
        → s.pending_read ++ (arriving s.socket ++ v.inbound.future) ≡ bytes
        → v.rest ≡ concat chunks
        → s.pending_read ≡ s₀.pending_read
        → (0 < length out) ⊎ (buffered_plaintext s₀ ≡ [])
        → ((s' : Stream k n)
            → Held out s'
            → length s'.pending_read < length s.pending_read
            → Delivers s' (next s'))
        → Delivers s₀ (on_parsed k n p out s next (parse s.pending_read))
    on_parsed-Delivers out _ _ w _ s₀ s next v z paired nothing wire text same m ih =
        let none_left : length s.pending_read ≡ 0 = omega (
          arith,
          ap length wire,
          length-append s.pending_read (arriving s.socket ++ v.inbound.future),
        ) in
        let empty : s.pending_read ≡ take 0 (tls_record []) = ground (arith) in
        no_record-Delivers out s₀ s next v same m
          (ap parse empty ∙ parse_part [] 0 (omega arith) (omega arith)) (omega (arith, none_left))
    on_parsed-Delivers out bytes _ w w'' s₀ s next v z paired
          (seal {bytes = later} plain c pos most e sealed i) wire text same m ih =
        let len : length c ≡ length plain + 16 = length_sealed plain c w _ e in
        elim (Bool-cases (ltb (length s.pending_read) (length (tls_record c)))) [
          | inl l ↦
              let part =
                cut-before s.pending_read (arriving s.socket ++ v.inbound.future) (tls_record c)
                  later (wire ∙ i) (ground arith) in
              no_record-Delivers out s₀ s next v same m
                (ap parse part
                  ∙ parse_part c (length s.pending_read) (omega (arith, len, most)) (ground arith))
                (ground (arith, len, most))
          | inr l ↦
              record-Delivers out plain c later _ w _ w'' s₀ s next v z paired pos most e sealed
                (wire ∙ i) text (ground arith) ih
        ]

    after_put-Delivers :
        (out : List ℕ) (s₀ s : Stream k n) (next : List ℕ → Stream k n → Taken (Stream k n))
        → AfterPut k n p kl nl size limit all s₀ (out, s)
        → ((s' : Stream k n)
            → Held out s'
            → length s'.pending_read < length s.pending_read
            → Delivers s' (next out s'))
        → Delivers s₀ (after_put k n p next (out, s))
    unfolding after_put buffered_plaintext
    after_put-Delivers out s₀ s next a ih =
        let v = a.served in
        elim (Bool-cases (ltb s.read_offset (length s.read_buffer))) [
          | inl h ↦ rw (h) v
          | inr h ↦ rw (h) (
              let (m, z) = a.emptied h in
              let all_put : drop s.read_offset s.read_buffer ≡ [] =
                drop-past s.read_offset s.read_buffer (ground arith) in
              on_parsed-Delivers out v.inbound.bytes v.inbound.chunks v.inbound.peer
                v.inbound.peer_end s₀ s (next out) v z v.inbound.paired v.inbound.sealed
                v.inbound.on_wire
                (sym v.inbound.text ∙ ap (λ l. l ++ concat v.inbound.chunks) all_put) a.same_pending
                m ih)
        ]

    pub read_ready-Delivers :
        (rounds : ℕ) (out : List ℕ) (s : Stream k n)
        → Held out s
        → length s.pending_read < rounds
        → Delivers s (read_ready k n p rounds size out s)
    unfolding read_ready
    read_ready-Delivers zero out s v f = absurd (omega (arith, f))
    read_ready-Delivers (suc rounds) out s v f =
        let r = put_ready k n p size out s in
        let a = put_ready-AfterPut k n p kl nl size limit all out s v in
        after_put-Delivers r.0 s r.1 (read_ready k n p rounds size) a (λ s' v' less.
          read_ready-Delivers rounds r.0 s' v' (omega (arith, less, f, ap length a.same_pending)))
