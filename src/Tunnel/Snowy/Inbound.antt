-- ===== src/Tunnel/Snowy/Inbound.antt =====
-- tunnel/src/common.rs: the plaintext that is on its way to the caller of `poll_read`, and what is put
-- into the caller's buffer from the decrypted bytes.
use mathlib.Core.List.{append_assoc}
use noisy_shuttle.Base.{
  ℕ, ◌+◌, ◌≤◌, ◌<◌, ◌≡◌, refl, sym, ap, ◌∙◌, false, List, [], ◌++◌, arith, length, take, drop, ltb,
  Bool-cases, inl, inr, ◌⊎◌, drop-add, drop-past, take-append-drop, length-append, length-take,
  length-drop,
}
use noisy_shuttle.Tunnel.Snowy.{
  Socket, SocketLaws, Noise, NoiseLaws, buffered_plaintext, RecordParser,
}
use noisy_shuttle.Tunnel.Snowy.Write.{Stream}
use noisy_shuttle.Tunnel.Snowy.Records.{concat, Sealed}
use noisy_shuttle.Tunnel.Snowy.Read.{put_len, clear_read, put_ready}

module _ (k : Socket) (n : Noise) (p : RecordParser) (kl : SocketLaws k) (nl : NoiseLaws n) where
  open k use {Sock}
  open n use {State, write_message, read_message}
  open kl use {arriving, read_taken, read_failed, read_pending}
  open nl use {Paired, length_sealed, opened}

  -- The peer's stream of records, part of which may still be on its way, holds the plaintext that
  -- the caller has not had.
  pub record Inbound (s : Stream k n) (rest : List ℕ) : Type 0 where
    pub peer : State
    pub peer_end : State
    pub chunks : List (List ℕ)
    pub bytes : List ℕ
    pub future : List ℕ
    pub paired : Paired peer s.noise
    pub sealed : Sealed n peer chunks bytes peer_end
    pub on_wire : s.pending_read ++ (arriving s.socket ++ future) ≡ bytes
    pub text : buffered_plaintext s ++ concat chunks ≡ rest
    pub in_capacity : length s.pending_read ≤ s.capacity
    pub offset_ok : (s.read_offset < length s.read_buffer) ⊎ (s.read_offset ≡ 0)

  module _ (size limit : ℕ) (all : List ℕ) where
    -- `out` and what is to come after it are all that the caller is to have.
    pub record Served (out : List ℕ) (s : Stream k n) : Type 0 where
      pub rest : List ℕ
      pub inbound : Inbound s rest
      pub whole : out ++ rest ≡ all
      pub fits : length out ≤ size
      pub same_capacity : s.capacity ≡ limit

    put-Served :
        (out put left : List ℕ) (offset : ℕ) (s : Stream k n)
        → Served out s
        → put ++ drop offset left ≡ buffered_plaintext s
        → length (out ++ put) ≤ size
        → (offset < length left) ⊎ (offset ≡ 0)
        → Served (out ++ put) (record s { read_offset = offset; read_buffer = left })
    unfolding buffered_plaintext
    put-Served out put left offset s v e f o =
        let i = v.inbound in
        let chunks = concat v.inbound.chunks in
        record {
          rest = drop offset left ++ chunks;
          inbound = record {
            peer = i.peer;
            peer_end = i.peer_end;
            chunks = i.chunks;
            bytes = i.bytes;
            future = i.future;
            paired = i.paired;
            sealed = i.sealed;
            on_wire = i.on_wire;
            text = refl;
            in_capacity = i.in_capacity;
            offset_ok = o;
          };
          whole =
              append_assoc out put (drop offset left ++ chunks)
              ∙ ap (λ l. out ++ l)
                  (sym (append_assoc put (drop offset left) chunks)
                    ∙ ap (λ l. l ++ chunks) e
                    ∙ i.text)
              ∙ v.whole;
          fits = f;
          same_capacity = v.same_capacity;
        }

    -- After the bytes that were left: the caller's buffer is full, or nothing is left.
    pub record AfterPut (s : Stream k n) (r : List ℕ × Stream k n) : Type 0 where
      pub served : Served r.0 r.1
      pub same_pending : r.1.pending_read ≡ s.pending_read
      pub emptied :
          ltb r.1.read_offset (length r.1.read_buffer) ≡ false
          → ((0 < length r.0) ⊎ (buffered_plaintext s ≡ [])) × (r.1.read_offset ≡ 0)

    pub put_ready-AfterPut :
        (out : List ℕ) (s : Stream k n) → Served out s → AfterPut s (put_ready k n p size out s)
    unfolding put_ready clear_read buffered_plaintext
    put_ready-AfterPut out s v =
        let len = put_len k n p size out s in
        let x = take len (drop s.read_offset s.read_buffer) in
        let o = s.read_offset + len in
        let fits : length (out ++ x) ≤ size = omega (
          arith,
          v.fits,
          length-append out x,
          length-take len (drop s.read_offset s.read_buffer),
        ) in
        let split : x ++ drop o s.read_buffer ≡ drop s.read_offset s.read_buffer =
          ap (λ l. x ++ l) (drop-add s.read_offset len s.read_buffer)
          ∙ take-append-drop len (drop s.read_offset s.read_buffer) in
        elim (Bool-cases (ltb s.read_offset (length s.read_buffer))) [
          | inr h ↦ rw (h) (record {
            served = v;
            same_pending = refl;
            emptied = λ c. (
              inr (drop-past s.read_offset s.read_buffer (ground arith)),
              ground (arith, v.inbound.offset_ok),
            );
          })
          | inl h ↦ rw (h) (elim (Bool-cases (ltb o (length s.read_buffer))) [
            | inl m ↦ rw (m) (record {
              served = put-Served out x s.read_buffer o s v split fits (inl (ground arith));
              same_pending = refl;
              emptied = λ c. ground arith;
            })
            | inr m ↦ rw (m) (record {
              served =
                  put-Served out x [] 0 s v
                    (ap (λ l. x ++ l) (sym (drop-past o s.read_buffer (ground arith))) ∙ split) fits
                    (inr refl);
              same_pending = refl;
              emptied = λ c. (
                inl (
                    ground (
                      arith,
                      length-append out x,
                      length-take len (drop s.read_offset s.read_buffer),
                      length-drop s.read_offset s.read_buffer,
                    )),
                refl,
              );
            })
          ])
        ]
