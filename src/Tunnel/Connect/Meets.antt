-- ===== src/Tunnel/Connect/Meets.antt =====
-- tunnel/src/client.rs and tunnel/src/server.rs: a client and a server with the same key.
use noisy_shuttle.Base.{
  ℕ, ◌+◌, ◌≤◌, ◌≡◌, ◌==◌, refl, sym, ap, ◌∙◌, true, List, ◌++◌, Option, none, some, arith, length,
  length-drop, take, drop, Bool-cases, inl, inr, take-append, drop-append, take-append-drop,
  take-length,
}
use noisy_shuttle.Results.{Result, ok, err}
use noisy_shuttle.Io.{IoError, Duplex, DuplexLaws}
use noisy_shuttle.Tunnel.Handshake.{
  Tls, Guard, payload_len, header_fault, read_body, read_header, read_tls_message, check_replay,
  check_ping, authenticate,
}
use noisy_shuttle.Tunnel.Fingerprint.{FingerprintSpec, Message, Grease, Rustls}
use noisy_shuttle.Tunnel.Fingerprint.Identity.{Identifies, Overwrites, overwriter-Identifies}
use noisy_shuttle.Tunnel.Fingerprint.Overwrite.{get_client_hello_overwriter}
use noisy_shuttle.Tunnel.Connect.{TlsClient}
use noisy_shuttle.Tunnel.Connect.Hello.{
  Initiator, Overwriter, exactly, session_id_of, alpn_for, after_hello_sent, send_hello,
  with_connection, with_ping, say_hello,
}
use noisy_shuttle.Tunnel.Handshake.Records.{reads_first}

-- A record that is read as it was sent.
pub record IsRecord (tls : Tls) (header body : List ℕ) : Type 0 where
  pub header_len : length header ≡ 5
  pub body_len : length body ≡ payload_len header
  pub accepted : header_fault tls header ≡ none

-- The bytes that a message is written as: the server reads them as the hello that they encode.
pub record Written (tls : Tls) (rustls : Rustls) (m : Message) (bytes : List ℕ) : Type 0 where
  pub is_record :
      length bytes ≤ 5 + 16384
      → (header : List ℕ) × (body : List ℕ) × (bytes ≡ header ++ body) × IsRecord tls header body
  pub is_read :
      (random session_id : List ℕ)
      → length bytes ≤ 5 + 16384
      → Identifies rustls random session_id m
      → tls.client_hello bytes ≡ some (random, session_id)

-- rustls and snow, on the two sides. A connection makes a ClientHello with the random and the
-- session id that it was given, lets the overwriter change it, and writes the bytes of what it is
-- then: one record, if they fit one. The server reads such a hello's random and session id.
-- A responder takes the message of an initiator with the same key, and a time signature is accepted
-- at once.
pub record SameKey (tls : Tls) (grease : Grease) (rustls : Rustls)
    (t : TlsClient (Overwriter grease)) (i : Initiator) (guard : Guard) (sign : List ℕ → List ℕ)
    : Type 0 where
  pub hello_is_written :
      (alpn : List (List ℕ)) (random session_id : List ℕ) (chwriter : Option (Overwriter grease))
      (c : t.Connection)
      → t.new_with alpn random session_id chwriter ≡ some c
      → (m : Message) × (m' : Message) × (bytes : List ℕ) × (c' : t.Connection) × Identifies rustls
          random session_id m
        × Overwrites grease chwriter m m'
        × (t.write_tls c ≡ some (bytes, c'))
        × Written tls rustls m' bytes
  pub ping_is_read :
      (noise noise' : i.Handshaking) (psk_e : List ℕ)
      → i.write_message noise ≡ some (psk_e, noise')
      → (responder : guard.Responder) × (guard.read_ping psk_e ≡ some responder)
  pub pong_len : (responder : guard.Responder) → length (guard.write_pong responder) ≡ 48
  pub sign_is_good : (random : List ℕ) → guard.verify random (sign random) ≡ true

-- The message is in the random and the first half of the session id.
pub ping_of_hello :
    (sign : List ℕ → List ℕ) (psk_e : List ℕ)
    → length psk_e ≡ 48
    → (take 32 psk_e ++ take 16 (session_id_of sign psk_e) ≡ psk_e)
      × (drop 16 (session_id_of sign psk_e) ≡ sign (take 32 psk_e))
ping_of_hello sign psk_e l =
    let rest = drop 32 psk_e in
    let sixteen : length rest ≡ 16 = omega (arith, length-drop 32 psk_e, l) in
    let whole : take 16 rest ≡ rest = ap (λ n. take n rest) (sym sixteen) ∙ take-length rest in
    let signature = sign (take 32 psk_e) in
    let split : session_id_of sign psk_e ≡ rest ++ signature = ap (λ l. l ++ signature) whole in
    (
      ap (λ l. take 32 psk_e ++ take 16 l) split
          ∙ ap (λ n. take 32 psk_e ++ take n (rest ++ signature)) (sym sixteen)
          ∙ ap (λ l. take 32 psk_e ++ l) (take-append rest signature)
          ∙ take-append-drop 32 psk_e,
      ap (drop 16) split
          ∙ ap (λ n. drop n (rest ++ signature)) (sym sixteen)
          ∙ drop-append rest signature,
    )

exactly-some :
    {S : Type 0} (n : ℕ) (o : Option (List ℕ × S)) (bytes : List ℕ) (s : S)
    → exactly n o ≡ some (bytes, s)
    → (o ≡ some (bytes, s)) × (length bytes ≡ n)
unfolding exactly
exactly-some n none bytes s e = absurd cc
exactly-some n (some (b, s')) bytes s e = elim (Bool-cases (length b == n)) [
  | inl fits ↦
      let same : exactly n (some (b, s')) ≡ some (b, s') = rw fits refl in
      let one : some (b, s') ≡ some (bytes, s) = sym same ∙ e in (one, ground (arith, fits, one))
  | inr short ↦ absurd (ground (arith, e, short))
]

module _ (d : Duplex) (laws : DuplexLaws d) (tls : Tls) where
  open d use {Stream, read_exact, write_all}
  open laws use {incoming, outgoing, read_outgoing, write_outgoing, write_incoming}

  -- A record that stands first in the stream is read.
  pub reads_message :
      (buf header body rest : List ℕ) (s : Stream)
      → IsRecord tls header body
      → incoming s ≡ header ++ (body ++ rest)
      → (s' : Stream) × (read_tls_message d tls buf s ≡ (ok (ok tt), header ++ body, s'))
        × (incoming s' ≡ rest)
        × (outgoing s' ≡ outgoing s)
  unfolding read_tls_message read_header read_body
  reads_message buf header body rest s r i =
      let (s₁, got, i₁) = reads_first d laws 5 s header (body ++ rest) i r.header_len in
      let (s₂, got', i₂) = reads_first d laws (payload_len header) s₁ body rest i₁ r.body_len in
      let kept : outgoing s₁ ≡ outgoing s = sym (ap (λ q. outgoing q.1) got) ∙ read_outgoing 5 s in
      let kept' : outgoing s₂ ≡ outgoing s₁ =
        sym (ap (λ q. outgoing q.1) got') ∙ read_outgoing (payload_len header) s₁ in
      (s₂, rw got (rw (r.accepted, read_header) (rw got' refl)), i₂, kept' ∙ kept)

  module _ (grease : Grease) (rustls : Rustls) (t : TlsClient (Overwriter grease)) (i : Initiator)
      (sign : List ℕ → List ℕ) (spec : FingerprintSpec) (guard : Guard)
      (same_key : SameKey tls grease rustls t i guard sign) where
    open i use {Handshaking, Transport, write_message, read_message}
    open guard use {Responder, Filter, verify, read_ping, write_pong, get, put}

    fresh-ok :
        (peer : ℕ) (hello random : List ℕ) (s : Stream) (responder : Responder)
        (q : Option ℕ × Filter)
        → q.0 ≡ none
        → (check_replay d tls guard hello s random peer responder q).0 ≡ ok (responder, hello, s)
    unfolding check_replay
    fresh-ok peer hello random s responder (none, f) e = refl
    fresh-ok peer hello random s responder (some first_from, f) e = absurd cc

    -- What a client has sent when it awaits the ServerHello.
    abbrev pub Hello :
        Handshaking → Stream → (psk_e : List ℕ) → Handshaking → List ℕ → Stream → Type 0
    Hello initiator s psk_e noise hello s' =
        (write_message initiator ≡ some (psk_e, noise))
        × (length psk_e ≡ 48)
        × (header : List ℕ) × (body : List ℕ) × (hello ≡ header ++ body)
        × IsRecord tls header body
        × (tls.client_hello hello ≡ some (take 32 psk_e, session_id_of sign psk_e))
        × (outgoing s' ≡ outgoing s ++ hello)
        × (incoming s' ≡ incoming s)

    after_hello_sent-ok :
        (noise noise' : Handshaking) (conn conn' : t.Connection) (buf hello : List ℕ)
        (p : Result IoError (Unit {0}) × Stream) (s' : Stream)
        → after_hello_sent d grease rustls t tls i sign spec noise conn buf p
          ≡ ok (noise', conn', hello, s')
        → (p ≡ (ok tt, s')) × (noise ≡ noise') × (buf ≡ hello)
    unfolding after_hello_sent
    after_hello_sent-ok noise noise' conn conn' buf hello (err e, s₁) s' h = absurd cc
    after_hello_sent-ok noise noise' conn conn' buf hello (ok tt, s₁) s' h = (cc, cc, cc)

    with_connection-Hello :
        (initiator noise noise' : Handshaking) (conn' : t.Connection) (s s' : Stream)
        (psk_e hello : List ℕ) (o : Option t.Connection)
        → write_message initiator ≡ some (psk_e, noise)
        → length psk_e ≡ 48
        → length hello ≤ 5 + 16384
        → t.new_with
            (alpn_for spec.ja3 spec.alpn)
            (take 32 psk_e)
            (session_id_of sign psk_e)
            (get_client_hello_overwriter grease rustls spec true true)
          ≡ o
        → with_connection d grease rustls t tls i sign spec noise s o
          ≡ ok (noise', conn', hello, s')
        → Hello initiator s psk_e noise' hello s'
    unfolding with_connection send_hello
    with_connection-Hello initiator noise noise' conn' s s' psk_e hello none w l short o e =
        absurd cc
    with_connection-Hello initiator noise noise' conn' s s' psk_e hello (some c) w l short o e =
        let overwriter = get_client_hello_overwriter grease rustls spec true true in
        let (m, m', bytes, c', made, overwritten, written, w') =
          same_key.hello_is_written (alpn_for spec.ja3 spec.alpn) (take 32 psk_e)
            (session_id_of sign psk_e) overwriter c o in
        let (sent, same, whole) =
          after_hello_sent-ok noise noise' c' conn' bytes hello (write_all bytes s) s'
            (sym (ap (send_hello d grease rustls t tls i sign spec noise s) written) ∙ e) in
        let kept =
          overwriter-Identifies grease rustls spec (take 32 psk_e) (session_id_of sign psk_e) m m'
            made overwritten in
        let fits : length bytes ≤ 5 + 16384 = omega (arith, ap length whole, short) in
        let (header, body, split, is) = w'.is_record fits in
        (
          w ∙ ap (λ n. some (psk_e, n)) same,
          l,
          header,
          body,
          sym whole ∙ split,
          is,
          ap tls.client_hello (sym whole)
              ∙ w'.is_read (take 32 psk_e) (session_id_of sign psk_e) fits kept,
          sym (ap (λ q. outgoing q.1) sent)
              ∙ write_outgoing bytes s (ap (λ q. q.0) sent)
              ∙ ap (λ b. outgoing s ++ b) whole,
          sym (ap (λ q. incoming q.1) sent) ∙ write_incoming bytes s,
        )

    with_ping-Hello :
        (initiator noise' : Handshaking) (conn' : t.Connection) (s s' : Stream) (hello : List ℕ)
        (o : Option (List ℕ × Handshaking))
        → length hello ≤ 5 + 16384
        → exactly 48 (write_message initiator) ≡ o
        → with_ping d grease rustls t tls i sign spec s o ≡ ok (noise', conn', hello, s')
        → (psk_e : List ℕ) × Hello initiator s psk_e noise' hello s'
    unfolding with_ping
    with_ping-Hello initiator noise' conn' s s' hello none short o e = absurd cc
    with_ping-Hello initiator noise' conn' s s' hello (some (psk_e, noise)) short o e =
        let (w, l) = exactly-some 48 (write_message initiator) psk_e noise o in
        (
          psk_e,
          with_connection-Hello initiator noise noise' conn' s s' psk_e hello
              (t.new_with (alpn_for spec.ja3 spec.alpn) (take 32 psk_e) (session_id_of sign psk_e)
                (get_client_hello_overwriter grease rustls spec true true))
              w l short refl e,
        )

    pub say_hello-Hello :
        (initiator noise' : Handshaking) (conn' : t.Connection) (s s' : Stream) (hello : List ℕ)
        → length hello ≤ 5 + 16384
        → say_hello d grease rustls t tls i sign spec initiator s ≡ ok (noise', conn', hello, s')
        → (psk_e : List ℕ) × Hello initiator s psk_e noise' hello s'
    unfolding say_hello
    say_hello-Hello initiator noise' conn' s s' hello short e =
        with_ping-Hello initiator noise' conn' s s' hello (exactly 48 (write_message initiator))
          short refl e

    -- The server's side of it.
    pub let_through :
        (peer : ℕ) (f : Filter) (hello random session_id : List ℕ) (s : Stream)
        (responder : Responder)
        → verify random (drop 16 session_id) ≡ true
        → read_ping (random ++ take 16 session_id) ≡ some responder
        → (get random f).0 ≡ none
        → (authenticate d tls guard hello s peer f (some (random, session_id))).0
          ≡ ok (responder, hello, s)
    unfolding authenticate check_ping check_replay
    let_through peer f hello random session_id s responder v p fresh =
        rw (v, p) (fresh-ok peer hello random s responder (get random f) fresh)
