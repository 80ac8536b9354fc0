-- ===== src/Tunnel/Handshake/Copy.antt =====
-- tunnel/src/server.rs: what `copy_until_tls12_handshake_finished` copies.
use mathlib.Core.List.{append_assoc}
use noisy_shuttle.Base.{
  ℕ, zero, suc, ◌<◌, ◌≡◌, refl, sym, ap, ◌∙◌, ◌⊎◌, inl, inr, ◌==◌, Bool, true, false, List, ◌++◌,
  Option, none, some, arith, length, length-append, get_or, subst, Bool-cases,
}
use noisy_shuttle.Results.{Result, ok, err}
use noisy_shuttle.Io.{IoError, Duplex, DuplexLaws}
use noisy_shuttle.Tunnel.Handshake.{
  payload_len, handshake, change_cipher_spec, after_record, on_record, Copied, copied, unfinished,
  after_body_write, after_body_read, after_header_write, after_header_read,
  copy_until_tls12_handshake_finished,
}
use noisy_shuttle.Tunnel.Handshake.Records.{read_exact-takes}

-- Whole records up to the end of a handshake, by their types: handshake records, a change of
-- ciphers, and one more record, which is a handshake record or a change of ciphers. The Boolean says
-- whether the first change was seen before.
abbrev pub GoesOn : (typ : ℕ) → (seen' : Bool) → Type 0
GoesOn typ false = typ ≡ handshake
GoesOn typ true = typ ≡ change_cipher_spec

pub data Flight : Bool → List ℕ → Type 0 where
  last :
      (header body : List ℕ)
      → length header ≡ 5
      → length body ≡ payload_len header
      → (get_or header 0 0 ≡ handshake) ⊎ (get_or header 0 0 ≡ change_cipher_spec)
      → Flight true (header ++ body)
  more :
      {seen' : Bool} {rest : List ℕ} (header body : List ℕ)
      → length header ≡ 5
      → length body ≡ payload_len header
      → GoesOn (get_or header 0 0) seen'
      → Flight seen' rest
      → Flight false (header ++ (body ++ rest))

-- What the code decides about a record is what the types say.
after_record-ends :
    (typ : ℕ) (seen : Bool)
    → after_record typ seen ≡ none
    → (seen ≡ true) × ((typ ≡ handshake) ⊎ (typ ≡ change_cipher_spec))
unfolding after_record
after_record-ends typ seen e = elim (Bool-cases (typ == handshake)) [
  | inl is ↦ (ground (arith, e, is, Bool-cases seen), inl (ground (arith, is)))
  | inr is_not ↦ elim (Bool-cases (typ == change_cipher_spec)) [
    | inl is ↦ (ground (arith, e, is, is_not, Bool-cases seen), inr (ground (arith, is)))
    | inr other ↦ absurd (ground (arith, e, is_not, other))
  ]
]

after_record-GoesOn :
    (typ : ℕ) (seen seen' : Bool)
    → after_record typ seen ≡ some (ok seen')
    → (seen ≡ false) × GoesOn typ seen'
unfolding after_record
after_record-GoesOn typ seen true e =
    (ground (arith, e, Bool-cases seen), ground (arith, e, Bool-cases seen))
after_record-GoesOn typ seen false e =
    (ground (arith, e, Bool-cases seen), ground (arith, e, Bool-cases seen))

module _ (d : Duplex) (laws : DuplexLaws d) where
  open d use {Stream, read_exact, write_all}
  open laws use {incoming, outgoing, write_outgoing, write_incoming}

  -- Nothing was written to the stream that is read, nor read from the one that is written.
  abbrev pub Untouched : (r w r' w' : Stream) → Type 0
  Untouched r w r' w' = (outgoing r' ≡ outgoing r) × (incoming w' ≡ incoming w)

  -- The same bytes were read and written.
  abbrev pub Copies : Bool → Stream → Stream → Copied Stream → Type 0
  Copies seen r w (copied (ok u) r' w') =
      (bytes : List ℕ) × Flight seen bytes
      × (incoming r ≡ bytes ++ incoming r')
      × (outgoing w' ≡ outgoing w ++ bytes)
      × Untouched r w r' w'
  Copies seen r w (copied (err e) r' w') = incoming w' ≡ incoming w
  Copies seen r w unfinished = ⊥

  -- A record was copied before.
  Copies-more :
      (seen' : Bool) (r w r₁ w₁ : Stream) (header body : List ℕ) (c : Copied Stream)
      → length header ≡ 5
      → length body ≡ payload_len header
      → GoesOn (get_or header 0 0) seen'
      → incoming r ≡ header ++ (body ++ incoming r₁)
      → outgoing w₁ ≡ outgoing w ++ (header ++ body)
      → Untouched r w r₁ w₁
      → Copies seen' r₁ w₁ c
      → Copies false r w c
  Copies-more seen' r w r₁ w₁ header body (copied (ok u) r' w') h b a i o (x, y)
        (bytes, flight, j, k, (same, left)) =
      (
        header ++ (body ++ bytes),
        more header body h b a flight,
        i
            ∙ ap (λ l. header ++ (body ++ l)) j
            ∙ ap (λ l. header ++ l) (sym (append_assoc body bytes (incoming r')))
            ∙ sym (append_assoc header (body ++ bytes) (incoming r')),
        k
            ∙ ap (λ l. l ++ bytes) o
            ∙ append_assoc (outgoing w) (header ++ body) bytes
            ∙ ap (λ l. outgoing w ++ l) (append_assoc header body bytes),
        (same ∙ x, left ∙ y),
      )
  Copies-more seen' r w r₁ w₁ header body (copied (err e) r' w') h b a i o x c = c ∙ x.1
  Copies-more seen' r w r₁ w₁ header body unfinished h b a i o x c = c

  on_record-Copies :
      (seen : Bool) (r w r₁ w₁ : Stream) (header body : List ℕ)
      (next : Bool → Stream → Stream → Copied Stream) (a : Option (Result IoError Bool))
      → length header ≡ 5
      → length body ≡ payload_len header
      → incoming r ≡ header ++ (body ++ incoming r₁)
      → outgoing w₁ ≡ outgoing w ++ (header ++ body)
      → Untouched r w r₁ w₁
      → after_record (get_or header 0 0) seen ≡ a
      → ((seen' : Bool) (r' w' : Stream)
          → length (incoming r') < length (incoming r)
          → Copies seen' r' w' (next seen' r' w'))
      → Copies seen r w (on_record d next r₁ w₁ a)
  unfolding on_record
  on_record-Copies seen r w r₁ w₁ header body next none h b i o x a ih =
      let (was_seen, typ) = after_record-ends (get_or header 0 0) seen a in
      (
        header ++ body,
        subst (λ c. Flight c (header ++ body)) (sym was_seen) (last header body h b typ),
        i ∙ sym (append_assoc header body (incoming r₁)),
        o,
        x,
      )
  on_record-Copies seen r w r₁ w₁ header body next (some (err e)) h b i o x a ih = x.1
  on_record-Copies seen r w r₁ w₁ header body next (some (ok seen')) h b i o x a ih =
      let (not_seen, typ) = after_record-GoesOn (get_or header 0 0) seen seen' a in
      let less : length (incoming r₁) < length (incoming r) = omega (
        arith,
        ap length i,
        length-append header (body ++ incoming r₁),
        length-append body (incoming r₁),
        h,
      ) in
      subst (λ q. Copies q r w (next seen' r₁ w₁)) (sym not_seen)
        (Copies-more seen' r w r₁ w₁ header body (next seen' r₁ w₁) h b typ i o x
          (ih seen' r₁ w₁ less))

  after_body_write-Copies :
      (seen : Bool) (r w r₁ w₁ : Stream) (header body : List ℕ)
      (next : Bool → Stream → Stream → Copied Stream) (p : Result IoError (Unit {0}) × Stream)
      → length header ≡ 5
      → length body ≡ payload_len header
      → incoming r ≡ header ++ (body ++ incoming r₁)
      → outgoing w₁ ≡ outgoing w ++ header
      → Untouched r w r₁ w₁
      → write_all body w₁ ≡ p
      → ((seen' : Bool) (r' w' : Stream)
          → length (incoming r') < length (incoming r)
          → Copies seen' r' w' (next seen' r' w'))
      → Copies seen r w (after_body_write d (get_or header 0 0) seen next r₁ p)
  unfolding after_body_write
  after_body_write-Copies seen r w r₁ w₁ header body next (err e, w₂) h b i o x q ih =
      sym (ap (λ y. incoming y.1) q) ∙ write_incoming body w₁ ∙ x.1
  after_body_write-Copies seen r w r₁ w₁ header body next (ok tt, w₂) h b i o x q ih =
      let sent : outgoing w₂ ≡ outgoing w ++ (header ++ body) =
        sym (ap (λ x. outgoing x.1) q)
        ∙ write_outgoing body w₁ (ap (λ x. x.0) q)
        ∙ ap (λ l. l ++ body) o
        ∙ append_assoc (outgoing w) header body in
      on_record-Copies seen r w r₁ w₂ header body next (after_record (get_or header 0 0) seen) h b i
        sent (x.0, sym (ap (λ y. incoming y.1) q) ∙ write_incoming body w₁ ∙ x.1) refl ih

  after_body_read-Copies :
      (seen : Bool) (r w r₁ w₁ : Stream) (header : List ℕ)
      (next : Bool → Stream → Stream → Copied Stream) (p : Result IoError (List ℕ) × Stream)
      → length header ≡ 5
      → incoming r ≡ header ++ incoming r₁
      → outgoing w₁ ≡ outgoing w ++ header
      → Untouched r w r₁ w₁
      → read_exact (payload_len header) r₁ ≡ p
      → ((seen' : Bool) (r' w' : Stream)
          → length (incoming r') < length (incoming r)
          → Copies seen' r' w' (next seen' r' w'))
      → Copies seen r w (after_body_read d (get_or header 0 0) seen next w₁ p)
  unfolding after_body_read
  after_body_read-Copies seen r w r₁ w₁ header next (err e, r₂) h i o x q ih = x.1
  after_body_read-Copies seen r w r₁ w₁ header next (ok body, r₂) h i o x q ih =
      let (j, k, b) = read_exact-takes d laws (payload_len header) r₁ r₂ body q in
      after_body_write-Copies seen r w r₂ w₁ header body next (write_all body w₁) h b
        (i ∙ ap (λ l. header ++ l) j) o (k ∙ x.0, x.1) refl ih

  after_header_write-Copies :
      (seen : Bool) (r w r₁ : Stream) (header : List ℕ)
      (next : Bool → Stream → Stream → Copied Stream) (p : Result IoError (Unit {0}) × Stream)
      → length header ≡ 5
      → incoming r ≡ header ++ incoming r₁
      → outgoing r₁ ≡ outgoing r
      → write_all header w ≡ p
      → ((seen' : Bool) (r' w' : Stream)
          → length (incoming r') < length (incoming r)
          → Copies seen' r' w' (next seen' r' w'))
      → Copies seen r w (after_header_write d header seen next r₁ p)
  unfolding after_header_write
  after_header_write-Copies seen r w r₁ header next (err e, w₁) h i x q ih =
      sym (ap (λ y. incoming y.1) q) ∙ write_incoming header w
  after_header_write-Copies seen r w r₁ header next (ok tt, w₁) h i x q ih =
      after_body_read-Copies seen r w r₁ w₁ header next (read_exact (payload_len header) r₁) h i
        (sym (ap (λ x. outgoing x.1) q) ∙ write_outgoing header w (ap (λ x. x.0) q))
        (x, sym (ap (λ y. incoming y.1) q) ∙ write_incoming header w) refl ih

  after_header_read-Copies :
      (seen : Bool) (r w : Stream) (next : Bool → Stream → Stream → Copied Stream)
      (p : Result IoError (List ℕ) × Stream)
      → read_exact 5 r ≡ p
      → ((seen' : Bool) (r' w' : Stream)
          → length (incoming r') < length (incoming r)
          → Copies seen' r' w' (next seen' r' w'))
      → Copies seen r w (after_header_read d seen next w p)
  unfolding after_header_read
  after_header_read-Copies seen r w next (err e, r₁) q ih = refl
  after_header_read-Copies seen r w next (ok header, r₁) q ih =
      let (i, k, h) = read_exact-takes d laws 5 r r₁ header q in
      after_header_write-Copies seen r w r₁ header next (write_all header w) h i k refl ih

  -- When `copy_until_tls12_handshake_finished` returns without an error, the bytes that it took from one
  -- stream are those that it put on the other, unchanged, and they are whole records: those of
  -- the handshake up to the first change of ciphers, and the one record after it, where it
  -- stops. It takes no more rounds than there are bytes to read.
  pub copy_until_tls12_handshake_finished-Copies :
      (fuel : ℕ) (seen : Bool) (r w : Stream)
      → length (incoming r) < fuel
      → Copies seen r w (copy_until_tls12_handshake_finished d fuel seen r w)
  unfolding copy_until_tls12_handshake_finished
  copy_until_tls12_handshake_finished-Copies zero seen r w f = absurd (omega (arith, f))
  copy_until_tls12_handshake_finished-Copies (suc fuel) seen r w f =
      after_header_read-Copies seen r w (copy_until_tls12_handshake_finished d fuel)
        (read_exact 5 r) refl
        (λ seen' r' w' less.
          copy_until_tls12_handshake_finished-Copies fuel seen' r' w' (omega (arith, f, less)))
