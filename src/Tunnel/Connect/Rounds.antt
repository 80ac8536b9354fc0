-- ===== src/Tunnel/Connect/Rounds.antt =====
-- tunnel/src/client.rs: the rounds of `tls12_handshake`.
use mathlib.Core.List.{append-nil}
use noisy_shuttle.Base.{
  ℕ, zero, suc, ◌+◌, ◌*◌, ◌≤◌, ◌<◌, ◌≡◌, refl, sym, ap, ◌∙◌, Bool, ltb, List, [], ◌++◌, Option,
  none, some, arith, length, length-append, get_or, Bool-cases, inl, inr, max,
}
use noisy_shuttle.Results.{Result, ok, err}
use noisy_shuttle.Io.{IoError, Duplex, DuplexLaws}
use noisy_shuttle.Tunnel.Snowy.{maximum_ciphertext_length}
use noisy_shuttle.Tunnel.Handshake.{payload_len}
use noisy_shuttle.Tunnel.Handshake.Records.{read_exact-takes}
use noisy_shuttle.Tunnel.Connect.{
  TlsClient, Handshaken, finished, Fed, fed, choked, hungry, feed, on_processed, after_process,
  after_feed, after_body, after_header, after_sent, after_write_tls, tls12_handshake,
  after_processed,
}
use noisy_shuttle.Tunnel.Connect.Whole.{no_more}
use noisy_shuttle.Tunnel.Connect.Feeds.{
  ClientLaws, rounds_fall, Feeds, feed-Feeds, Hears, Hears-record, Hears-sent,
}

module _ (d : Duplex) (laws : DuplexLaws d) {O : Type 0} (t : TlsClient O) (cl : ClientLaws t) where
  open d use {Stream, read_exact, write_all}
  open laws use {incoming, outgoing, write_outgoing, write_incoming}
  open t use {Connection, wants_read, wants_write, write_tls, process_new_packets}
  open cl use {taken, given, pending, backlog}

  -- How many rounds there can be.
  abbrev pub rounds : Connection → Stream → ℕ
  rounds c s = length (incoming s) * suc backlog + pending c

  -- What is known of the rounds that follow.
  abbrev Later : ℕ → (Connection → Stream → Handshaken Connection Stream) → Type 0
  Later bound next =
      (c : Connection) (s : Stream) → rounds c s < bound → Hears d laws t cl c s (next c s)

  Hears-here : (c : Connection) (s : Stream) → Hears d laws t cl c s (finished (ok tt) c s)
  Hears-here c s = (
    [],
    [],
    no_more,
    refl,
    sym (append-nil (outgoing s)),
    sym (append-nil (taken c)),
    sym (append-nil (given c)),
  )

  on_processed-Hears :
      (next : Bool → Connection → Stream → Handshaken Connection Stream) (go_on : Option Bool)
      (bound : ℕ) (c : Connection) (s : Stream)
      → ((seen : Bool) → Later bound (next seen))
      → rounds c s < bound
      → Hears d laws t cl c s (on_processed d t next go_on c s)
  unfolding on_processed
  on_processed-Hears next none bound c s later less = Hears-here c s
  on_processed-Hears next (some seen) bound c s later less = later seen c s less

  after_process-Hears :
      (next : Bool → Connection → Stream → Handshaken Connection Stream) (go_on : Option Bool)
      (c c₁ : Connection) (s s₁ : Stream) (header body : List ℕ) (p : Option Connection)
      → ((seen : Bool) → Later (rounds c s) (next seen))
      → length header ≡ 5
      → length body ≡ payload_len header
      → incoming s ≡ header ++ (body ++ incoming s₁)
      → outgoing s₁ ≡ outgoing s
      → taken c₁ ≡ taken c ++ (header ++ body)
      → given c₁ ≡ given c
      → process_new_packets c₁ ≡ p
      → Hears d laws t cl c s (after_process d t next go_on s₁ c₁ p)
  unfolding after_process
  after_process-Hears next go_on c c₁ s s₁ header body none later l l' i o took gave e = tt
  after_process-Hears next go_on c c₁ s s₁ header body (some c₂) later l l' i o took gave e =
      let (took', gave', small) = cl.process_keeps c₁ c₂ e in
      let fewer : length (incoming s₁) < length (incoming s) = omega (
        arith,
        ap length i,
        length-append header (body ++ incoming s₁),
        length-append body (incoming s₁),
        l,
      ) in
      let falls =
        rounds_fall (length (incoming s)) (length (incoming s₁)) backlog (pending c) (pending c₂)
          fewer small in
      Hears-record d laws t cl c c₂ s s₁ header body (on_processed d t next go_on c₂ s₁) l l' i o
        (took' ∙ took) (gave' ∙ gave) (on_processed-Hears next go_on (rounds c s) c₂ s₁ later falls)

  after_feed-Hears :
      (next : Bool → Connection → Stream → Handshaken Connection Stream) (go_on : Option Bool)
      (c : Connection) (s s₁ : Stream) (header body : List ℕ) (f : Fed Connection)
      → ((seen : Bool) → Later (rounds c s) (next seen))
      → length header ≡ 5
      → length body ≡ payload_len header
      → incoming s ≡ header ++ (body ++ incoming s₁)
      → outgoing s₁ ≡ outgoing s
      → Feeds d laws t cl (header ++ body) c f
      → Hears d laws t cl c s (after_feed d t next go_on s₁ f)
  unfolding after_feed
  after_feed-Hears next go_on c s s₁ header body (fed c₁) later l l' i o (took, gave) =
      after_process-Hears next go_on c c₁ s s₁ header body (process_new_packets c₁) later l l' i o
        took gave refl
  after_feed-Hears next go_on c s s₁ header body choked later l l' i o refuses =
      inr ([], header, body, incoming s₁, c, no_more, i, l, l', sym (append-nil (taken c)), refuses)
  after_feed-Hears next go_on c s s₁ header body hungry later l l' i o f = absurd f

  after_body-Hears :
      (next : Bool → Connection → Stream → Handshaken Connection Stream) (go_on : Option Bool)
      (c : Connection) (s s₁ : Stream) (header : List ℕ) (p : Result IoError (List ℕ) × Stream)
      → ((seen : Bool) → Later (rounds c s) (next seen))
      → length header ≡ 5
      → incoming s ≡ header ++ incoming s₁
      → outgoing s₁ ≡ outgoing s
      → read_exact (payload_len header) s₁ ≡ p
      → Hears d laws t cl c s (after_body d t next go_on header c p)
  unfolding after_body
  after_body-Hears next go_on c s s₁ header (err e, s₂) later l i o q = tt
  after_body-Hears next go_on c s s₁ header (ok body, s₂) later l i o q =
      let (j, k, l') = read_exact-takes d laws (payload_len header) s₁ s₂ body q in
      after_feed-Hears next go_on c s s₂ header body
        (feed d t (length (header ++ body)) (header ++ body) c) later l l'
        (i ∙ ap (λ x. header ++ x) j) (k ∙ o)
        (feed-Feeds d laws t cl (length (header ++ body)) (header ++ body) c (omega arith))

  after_header-Hears :
      (next : Bool → Connection → Stream → Handshaken Connection Stream) (stop : Bool) (room : ℕ)
      (seen : Bool) (c : Connection) (s : Stream) (p : Result IoError (List ℕ) × Stream)
      → 5 + maximum_ciphertext_length ≤ room
      → ((seen : Bool) → Later (rounds c s) (next seen))
      → read_exact 5 s ≡ p
      → Hears d laws t cl c s (after_header d t next stop room seen c p)
  unfolding after_header
  after_header-Hears next stop room seen c s (err e, s₁) fits later q = tt
  after_header-Hears next stop room seen c s (ok header, s₁) fits later q =
      let (i, o, l) = read_exact-takes d laws 5 s s₁ header q in
      elim (Bool-cases (ltb room (5 + payload_len header))) [
        | inl long ↦
            rw long (inl ([], header, incoming s₁, no_more, i, l, ground (arith, long, fits)))
        | inr small ↦ rw small (
            after_body-Hears next (after_processed stop (get_or header 0 0) seen) c s s₁ header
              (read_exact (payload_len header) s₁) later l i o refl)
      ]

  after_sent-Hears :
      (next : Connection → Stream → Handshaken Connection Stream) (c c₁ : Connection) (s : Stream)
      (bytes : List ℕ) (p : Result IoError (Unit {0}) × Stream)
      → Later (rounds c s) next
      → taken c₁ ≡ taken c
      → given c₁ ≡ given c ++ bytes
      → pending c₁ < pending c
      → write_all bytes s ≡ p
      → Hears d laws t cl c s (after_sent d t next c₁ p)
  unfolding after_sent
  after_sent-Hears next c c₁ s bytes (err e, s₁) later took gave less q = tt
  after_sent-Hears next c c₁ s bytes (ok tt, s₁) later took gave less q =
      let i : incoming s₁ ≡ incoming s = sym (ap (λ y. incoming y.1) q) ∙ write_incoming bytes s in
      let o : outgoing s₁ ≡ outgoing s ++ bytes =
        sym (ap (λ y. outgoing y.1) q) ∙ write_outgoing bytes s (ap (λ y. y.0) q) in
      let falls : rounds c₁ s₁ < rounds c s =
        omega (arith, ap (λ l. length l * suc backlog) i, less) in
      Hears-sent d laws t cl c c₁ s s₁ bytes (next c₁ s₁) i o took gave (later c₁ s₁ falls)

  -- A TLS 1.2 handshake comes to an end, whatever the peer sends and the connection makes of it. It
  -- panics only where, behind whole records, the peer announces a record that does not fit the
  -- buffer, or the connection refuses bytes of a record that it is shown. When it ends without
  -- an error, it has taken whole records from the stream and handed each byte of them to the
  -- connection, in order and once, and has put on the stream what the connection gave, and nothing
  -- else.
  pub tls12_handshake-Hears :
      (fuel : ℕ) (stop : Bool) (room : ℕ) (seen : Bool) (c : Connection) (s : Stream)
      → 5 + maximum_ciphertext_length ≤ room
      → rounds c s < fuel
      → Hears d laws t cl c s (tls12_handshake d t fuel stop room seen c s)
  unfolding tls12_handshake after_write_tls
  tls12_handshake-Hears zero stop room seen c s fits f = absurd (omega (arith, f))
  tls12_handshake-Hears (suc fuel) stop room seen c s fits f = elim (Bool-cases (wants_write c)) [
    | inl writes ↦
        let (bytes, c₁, run, took, gave, less) = cl.write_tls_gives c writes in
        let more = max room (length bytes) in
        rw (writes, run)
          (after_sent-Hears (tls12_handshake d t fuel stop more seen) c c₁ s bytes
            (write_all bytes s)
            (λ c' s' falls.
              tls12_handshake-Hears fuel stop more seen c' s' (omega (arith, fits))
                (omega (arith, f, falls)))
            took gave less refl)
    | inr no_write ↦ elim (Bool-cases (wants_read c)) [
      | inl reads ↦
          rw (no_write, reads)
            (after_header-Hears (tls12_handshake d t fuel stop room) stop room seen c s
              (read_exact 5 s) fits
              (λ seen' c' s' falls.
                tls12_handshake-Hears fuel stop room seen' c' s' fits (omega (arith, f, falls)))
              refl)
      | inr idle ↦ rw (no_write, idle) (Hears-here c s)
    ]
  ]
