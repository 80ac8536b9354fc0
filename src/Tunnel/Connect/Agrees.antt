-- ===== src/Tunnel/Connect/Agrees.antt =====
-- tunnel/src/client.rs and tunnel/src/server.rs: where the client stops to read a TLS 1.2
-- handshake, and where the server stops to pass it on.
use mathlib.Core.List.{append_assoc}
use noisy_shuttle.Base.{
  ℕ, zero, suc, ◌+◌, ◌*◌, ◌≤◌, ◌<◌, ◌≡◌, ◌⊎◌, refl, sym, ap, ◌∙◌, Bool, true, false, ltb, List,
  ◌++◌, Option, none, some, arith, length, length-append, get_or, Bool-cases, inl, inr, max, ◌∷◌,
  [], drop, length-drop,
}
use noisy_shuttle.Results.{Result, ok, err}
use noisy_shuttle.Io.{IoError, Duplex, DuplexLaws}
use noisy_shuttle.Tunnel.Snowy.{maximum_ciphertext_length}
use noisy_shuttle.Tunnel.Handshake.{payload_len, handshake, after_record}
use noisy_shuttle.Tunnel.Handshake.Records.{reads_first}
use noisy_shuttle.Tunnel.Connect.{
  TlsClient, Handshaken, finished, fed, on_fed, feed, on_processed, after_process, after_feed,
  after_body, after_header, after_sent, after_write_tls, tls12_handshake, after_processed,
}
use noisy_shuttle.Tunnel.Connect.Feeds.{ClientLaws, rounds_fall}
use noisy_shuttle.Tunnel.Connect.Rounds.{rounds}

-- Whole records that the server passes on, up to the one at which it stops. The Boolean says
-- whether a change of ciphers was seen before.
pub data PassedOn : Bool → List ℕ → Type 0 where
  last :
      (header body : List ℕ)
      → length header ≡ 5
      → length body ≡ payload_len header
      → after_record (get_or header 0 0) true ≡ none
      → PassedOn true (header ++ body)
  more :
      {seen seen' : Bool} {rest : List ℕ} (header body : List ℕ)
      → length header ≡ 5
      → length body ≡ payload_len header
      → after_record (get_or header 0 0) seen ≡ some (ok seen')
      → PassedOn seen' rest
      → PassedOn seen (header ++ (body ++ rest))

-- The record at which the server stops is a handshake record.
abbrev pub LastIsHandshake : {seen : Bool} {bytes : List ℕ} → PassedOn seen bytes → Type 0
LastIsHandshake (last header body l l' a) = get_or header 0 0 ≡ handshake
LastIsHandshake (more header body l l' a flight) = LastIsHandshake flight

-- Its records fit the buffer.
abbrev pub Fits : {seen : Bool} {bytes : List ℕ} → PassedOn seen bytes → Type 0
Fits (last header body l l' a) = payload_len header ≤ maximum_ciphertext_length
Fits (more header body l l' a flight) =
    (payload_len header ≤ maximum_ciphertext_length) × Fits flight

go_on_as_server :
    (typ : ℕ) (seen seen' : Bool)
    → after_record typ seen ≡ some (ok seen')
    → after_processed false typ seen ≡ some seen'
unfolding after_record after_processed
go_on_as_server typ true seen' e = ground arith
go_on_as_server typ false seen' e = ground arith

stop_as_server : (typ : ℕ) → typ ≡ handshake → after_processed false typ true ≡ none
unfolding after_processed
stop_as_server typ e = ground arith

-- rustls: of at most one record that it is shown, a connection takes something.
abbrev pub TakesRecords : {O : Type 0} → TlsClient O → Type 0
TakesRecords t =
    (b : ℕ) (bytes : List ℕ) (c : t.Connection)
    → length (b ∷ bytes) ≤ 5 + maximum_ciphertext_length
    → (n : ℕ) × (c' : t.Connection) × (t.read_tls (b ∷ bytes) c ≡ some (suc n, c'))

module _ (d : Duplex) (laws : DuplexLaws d) {O : Type 0} (t : TlsClient O) (cl : ClientLaws t)
    (takes : TakesRecords t) where
  open d use {Stream, read_exact, write_all}
  open laws use {incoming, read_enough, write_incoming}
  open t use {Connection, wants_read, wants_write, process_new_packets}
  open cl use {pending, backlog}

  feed-takes :
      (fuel : ℕ) (bytes : List ℕ) (c : Connection)
      → length bytes ≤ fuel
      → length bytes ≤ 5 + maximum_ciphertext_length
      → (c' : Connection) × (feed d t fuel bytes c ≡ fed c')
  unfolding feed on_fed
  feed-takes fuel [] c h small = (c, refl)
  feed-takes zero (b ∷ bytes) c h small = absurd (omega (arith, h))
  feed-takes (suc fuel) (b ∷ bytes) c h small =
      let (n, c₁, run) = takes b bytes c small in
      let fewer = length-drop n bytes in
      let (c₂, run') =
        feed-takes fuel (drop n bytes) c₁ (omega (arith, h, fewer)) (omega (arith, small, fewer)) in
      (c₂, ap (on_fed d t (feed d t fuel) (b ∷ bytes)) run ∙ run')

  -- The handshake has left `rest`, or the connection was done before.
  abbrev pub Stops : List ℕ → Handshaken Connection Stream → Type 0
  Stops rest (finished (ok u) c' s') =
      (incoming s' ≡ rest) ⊎ ((wants_read c' ≡ false) × (wants_write c' ≡ false))
  Stops rest (finished (err e) c' s') = Unit {0}
  Stops rest _ = ⊥

  after_process-Stops :
      (next : Bool → Connection → Stream → Handshaken Connection Stream) (go_on : Option Bool)
      (c c₁ : Connection) (s s₂ : Stream) (header body behind rest : List ℕ) (p : Option Connection)
      → incoming s ≡ header ++ (body ++ behind)
      → length header ≡ 5
      → incoming s₂ ≡ behind
      → process_new_packets c₁ ≡ p
      → ((c' : Connection) (s' : Stream)
          → incoming s' ≡ behind
          → rounds d laws t cl c' s' < rounds d laws t cl c s
          → Stops rest (on_processed d t next go_on c' s'))
      → Stops rest (after_process d t next go_on s₂ c₁ p)
  unfolding after_process
  after_process-Stops next go_on c c₁ s s₂ header body behind rest none i l i₂ e later = tt
  after_process-Stops next go_on c c₁ s s₂ header body behind rest (some c₂) i l i₂ e later =
      let (took, gave, small) = cl.process_keeps c₁ c₂ e in
      let fewer : length (incoming s₂) < length (incoming s) = omega (
        arith,
        ap length i,
        ap length i₂,
        length-append header (body ++ behind),
        length-append body behind,
        l,
      ) in
      later c₂ s₂ i₂ (
        rounds_fall (length (incoming s)) (length (incoming s₂)) backlog (pending c) (pending c₂)
          fewer small)

  -- A record that fits is read and processed.
  record-Stops :
      (next : Bool → Connection → Stream → Handshaken Connection Stream) (room : ℕ) (seen : Bool)
      (c : Connection) (s : Stream) (header body behind rest : List ℕ)
      → 5 + maximum_ciphertext_length ≤ room
      → incoming s ≡ header ++ (body ++ behind)
      → length header ≡ 5
      → length body ≡ payload_len header
      → payload_len header ≤ maximum_ciphertext_length
      → ((c' : Connection) (s' : Stream)
          → incoming s' ≡ behind
          → rounds d laws t cl c' s' < rounds d laws t cl c s
          → Stops rest
              (on_processed d t next (after_processed false (get_or header 0 0) seen) c' s'))
      → Stops rest (after_header d t next false room seen c (read_exact 5 s))
  unfolding after_header after_body after_feed after_process
  record-Stops next room seen c s header body behind rest fits i l l' small later =
      let (s₁, got, i₁) = reads_first d laws 5 s header (body ++ behind) i l in
      let (s₂, got', i₂) = reads_first d laws (payload_len header) s₁ body behind i₁ l' in
      let (c₁, run) =
        feed-takes (length (header ++ body)) (header ++ body) c (omega arith)
          (omega (arith, length-append header body, l, l', small)) in
      let roomy : ltb room (5 + payload_len header) ≡ false = ground (arith, fits, small) in
      rw (got, roomy, got', run)
        (after_process-Stops next (after_processed false (get_or header 0 0) seen) c c₁ s s₂ header
          body behind rest (process_new_packets c₁) i l i₂ refl later)

  -- What is known of the rounds that follow, for any rest of a handshake.
  abbrev Later : List ℕ → ℕ → (Bool → Connection → Stream → Handshaken Connection Stream) → Type 0
  Later rest bound next =
      (seen : Bool) (bytes : List ℕ) (flight : PassedOn seen bytes) (c : Connection) (s : Stream)
      → LastIsHandshake flight
      → Fits flight
      → incoming s ≡ bytes ++ rest
      → rounds d laws t cl c s < bound
      → Stops rest (next seen c s)

  reading-Stops :
      (next : Bool → Connection → Stream → Handshaken Connection Stream) (room : ℕ) {seen : Bool}
      {bytes : List ℕ} (flight : PassedOn seen bytes) (c : Connection) (s : Stream) (rest : List ℕ)
      → 5 + maximum_ciphertext_length ≤ room
      → LastIsHandshake flight
      → Fits flight
      → incoming s ≡ bytes ++ rest
      → Later rest (rounds d laws t cl c s) next
      → Stops rest (after_header d t next false room seen c (read_exact 5 s))
  unfolding on_processed
  reading-Stops next room (last header body l l' a) c s rest roomy is fits i later =
      record-Stops next room true c s header body rest rest roomy
        (i ∙ append_assoc header body rest) l l' fits
        (λ c' s' i' less. rw (stop_as_server (get_or header 0 0) is) (inl i'))
  reading-Stops next room (more {seen} {seen'} {rest = behind} header body l l' a flight) c s rest
        roomy is fits i later =
      record-Stops next room seen c s header body (behind ++ rest) rest roomy
        (i
          ∙ append_assoc header (body ++ behind) rest
          ∙ ap (λ x. header ++ x) (append_assoc body behind rest))
        l l' fits.0
        (λ c' s' i' less.
          rw (go_on_as_server (get_or header 0 0) seen seen' a)
            (later seen' behind flight c' s' is fits.1 i' less))

  sending-Stops :
      (next : Connection → Stream → Handshaken Connection Stream) (c₁ : Connection) (s : Stream)
      (bytes rest : List ℕ) (p : Result IoError (Unit {0}) × Stream)
      → write_all bytes s ≡ p
      → ((s₁ : Stream) → incoming s₁ ≡ incoming s → Stops rest (next c₁ s₁))
      → Stops rest (after_sent d t next c₁ p)
  unfolding after_sent
  sending-Stops next c₁ s bytes rest (err e, s₁) q later = tt
  sending-Stops next c₁ s bytes rest (ok u, s₁) q later =
      later s₁ (sym (ap (λ y. incoming y.1) q) ∙ write_incoming bytes s)

  -- From a stream with the records that the server passes on before it stops, the last of them a
  -- handshake record, and all of them small enough for the buffer, the client's handshake ends
  -- without a panic; and when it ends without an error, it has left in the stream just what follows
  -- these records, unless the connection wanted no more before.
  pub tls12_handshake-Stops :
      (fuel room : ℕ) (seen : Bool) (bytes : List ℕ) (flight : PassedOn seen bytes) (c : Connection)
      (s : Stream) (rest : List ℕ)
      → 5 + maximum_ciphertext_length ≤ room
      → LastIsHandshake flight
      → Fits flight
      → incoming s ≡ bytes ++ rest
      → rounds d laws t cl c s < fuel
      → Stops rest (tls12_handshake d t fuel false room seen c s)
  unfolding tls12_handshake after_write_tls
  tls12_handshake-Stops zero room seen bytes flight c s rest roomy is fits i f =
      absurd (omega (arith, f))
  tls12_handshake-Stops (suc fuel) room seen bytes flight c s rest roomy is fits i f =
      elim (Bool-cases (wants_write c)) [
        | inl writes ↦
            let (out, c₁, run, took, gave, less) = cl.write_tls_gives c writes in
            let wider = max room (length out) in
            rw (writes, run)
              (sending-Stops (tls12_handshake d t fuel false wider seen) c₁ s out rest
                (write_all out s) refl
                (λ s₁ same.
                  tls12_handshake-Stops fuel wider seen bytes flight c₁ s₁ rest
                    (omega (arith, roomy)) is fits (same ∙ i)
                    (omega (arith, f, less, ap (λ l. length l * suc backlog) same))))
        | inr no_write ↦ elim (Bool-cases (wants_read c)) [
          | inl reads ↦
              rw (no_write, reads)
                (reading-Stops (tls12_handshake d t fuel false room) room flight c s rest roomy is
                  fits i
                  (λ seen' bytes' flight' c' s' is' fits' i' less.
                    tls12_handshake-Stops fuel room seen' bytes' flight' c' s' rest roomy is' fits'
                      i' (omega (arith, f, less))))
          | inr idle ↦ rw (no_write, idle) (inr (idle, no_write))
        ]
      ]
